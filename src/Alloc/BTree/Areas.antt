-- ===== src/Alloc/BTree/Areas.antt =====
-- The free areas of a heap: both maps hold the same ones, and they lie apart. An area is entered and taken out.
use lamellar_runtime.Prelude.{
  ℕ, ◌+◌, ◌^◌, ◌≤◌, ◌<◌, ◌≡◌, refl, ap, ◌∙◌, inl, inr, some, List, [], ◌∷◌, arith, ltb, leb, ◌==◌,
  if◌then◌else◌, eq→==, Option-cases, All, total, remove_key, keyed, Taken, remove_key-some,
  remove_key-none,
}
use lamellar_runtime.Alloc.BTree.{insert_sorted, insert_size, remove_size, FreeEntries}
use lamellar_runtime.Alloc.BTree.Keys.{Sorted, total-insert_sorted, All-insert_sorted}
use lamellar_runtime.Alloc.BTree.Sizes.{
  listed, pair, listed-insert_size, listed-remove_size, insert_size-Sorted, remove_size-Sorted,
}

-- 1 where byte `x` lies in the `s` bytes from `a` on.
abbrev pub cov : ℕ → ℕ → ℕ → ℕ
cov x a s = if leb a x then (if ltb x (a + s) then 1 else 0) else 0

abbrev pub cover : ℕ → List (ℕ × (ℕ × ℕ)) → ℕ
cover x es = total (λ e. cov x e.0 e.1.0) es

pub record IsFree (f : FreeEntries) : Type 0 where
  pub sorted : Sorted 0 f.sizes
  pub agree : (w : ℕ → ℕ → ℕ) → listed w f.sizes ≡ total (λ e. w e.0 e.1.0) f.addrs
  pub plain : All (λ e. (0 < e.1.0) × (e.1.1 ≡ 0) × (e.0 + e.1.0 < 2 ^ 63)) f.addrs
  pub apart : (x : ℕ) → cover x f.addrs ≤ 1

pub cov_self : (a s : ℕ) → 0 < s → cov a a s ≡ 1
cov_self a s h = ground arith

pub keyed-le-cover :
    (a : ℕ) (es : List (ℕ × (ℕ × ℕ)))
    → All (λ e. (0 < e.1.0) × (e.1.1 ≡ 0) × (e.0 + e.1.0 < 2 ^ 63)) es
    → keyed a es ≤ cover a es
keyed-le-cover a [] h = omega arith
keyed-le-cover a (e ∷ es) h =
    let one : (if e.0 == a then 1 else 0) ≤ cov a e.0 e.1.0 = ground (arith, h.0) in
    omega (arith, one, keyed-le-cover a es h.1)

pub pair-le-cover :
    (a s : ℕ) (es : List (ℕ × (ℕ × ℕ)))
    → All (λ e. (0 < e.1.0) × (e.1.1 ≡ 0) × (e.0 + e.1.0 < 2 ^ 63)) es
    → total (λ e. pair a s e.0 e.1.0) es ≤ cover a es
pair-le-cover a s [] h = omega arith
pair-le-cover a s (e ∷ es) h =
    let one : pair a s e.0 e.1.0 ≤ cov a e.0 e.1.0 = ground (arith, h.0) in
    omega (arith, one, pair-le-cover a s es h.1)

module _ (f : FreeEntries) (v : IsFree f) where
  -- An area that no free byte lies in is entered in both maps.
  pub add_area-IsFree :
      (a s : ℕ)
      → 0 < s
      → a + s < 2 ^ 63
      → ((x : ℕ) → cover x f.addrs + cov x a s ≤ 1)
      → IsFree (record { sizes = insert_size s a f.sizes; addrs = insert_sorted a (s, 0) f.addrs })
        × ((w : ℕ × (ℕ × ℕ) → ℕ)
            → total w (insert_sorted a (s, 0) f.addrs) ≡ total w f.addrs + w (a, (s, 0)))
  add_area-IsFree a s pos small room =
      let uncovered : cover a f.addrs ≡ 0 = omega (arith, room a, cov_self a s pos) in
      let fresh : keyed a f.addrs ≡ 0 =
        omega (arith, uncovered, keyed-le-cover a f.addrs v.plain) in
      let unlisted : listed (pair a s) f.sizes ≡ 0 =
        omega (arith, v.agree (pair a s), uncovered, pair-le-cover a s f.addrs v.plain) in
      let sum : (w : ℕ × (ℕ × ℕ) → ℕ)
          → total w (insert_sorted a (s, 0) f.addrs) ≡ total w f.addrs + w (a, (s, 0)) =
        λ w. total-insert_sorted w a (s, 0) f.addrs fresh in
      (
        record {
          sorted = insert_size-Sorted 0 s a f.sizes (omega arith) v.sorted;
          agree = λ w.
              omega (
                arith,
                listed-insert_size w s a f.sizes unlisted,
                v.agree w,
                sum (λ e. w e.0 e.1.0),
              );
          plain =
              All-insert_sorted (λ e. (0 < e.1.0) × (e.1.1 ≡ 0) × (e.0 + e.1.0 < 2 ^ 63)) a (s, 0)
                f.addrs (pos, refl, small) v.plain;
          apart = λ x. omega (arith, sum (λ e. cov x e.0 e.1.0), room x);
        },
        sum,
      )

  module _ (a s p : ℕ) (rest : List (ℕ × (ℕ × ℕ)))
      (q : remove_key a f.addrs ≡ some ((s, p), rest)) where
    pub area_out :
        Taken (λ e. (0 < e.1.0) × (e.1.1 ≡ 0) × (e.0 + e.1.0 < 2 ^ 63)) a (s, p) f.addrs rest
    area_out =
        remove_key-some (λ e. (0 < e.1.0) × (e.1.1 ≡ 0) × (e.0 + e.1.0 < 2 ^ 63)) a (s, p) f.addrs
          rest q

    -- An area is taken out of both maps.
    pub drop_area-IsFree : IsFree (record { sizes = remove_size a s f.sizes; addrs = rest })
    drop_area-IsFree =
        let (sum, plain) = area_out in
        let self : pair a s a s ≡ 1 = ground arith in
        let there : 1 ≤ listed (pair a s) f.sizes =
          omega (arith, v.agree (pair a s), sum (λ e. pair a s e.0 e.1.0), self) in
        record {
          sorted = remove_size-Sorted 0 a s f.sizes v.sorted;
          agree = λ w. omega (
            arith,
            listed-remove_size w a s 0 f.sizes v.sorted there,
            v.agree w,
            sum (λ e. w e.0 e.1.0),
          );
          plain = (plain v.plain).1;
          apart = λ x. omega (arith, sum (λ e. cov x e.0 e.1.0), v.apart x);
        }

-- An area that is there is found, with its size and without padding.
pub find_area :
    (f : FreeEntries)
    → IsFree f
    → (a k : ℕ) → 1 ≤ total (λ e. pair a k e.0 e.1.0) f.addrs
    → (rest : List (ℕ × (ℕ × ℕ))) × (remove_key a f.addrs ≡ some ((k, 0), rest))
find_area f v a k one = elim (Option-cases (remove_key a f.addrs)) [
  | inl n ↦ absurd (omega (arith, one, remove_key-none a f.addrs n, pair-le-keyed f.addrs))
  | inr (((s, p), rest), n) ↦
      let (sum, kept) = area_out f v a s p rest n in
      let (pos, none_more, small) = (kept v.plain).0 in
      let at : ◌≡◌ {A = ℕ} (if a == a then 1 else 0) 1 = rw (eq→== a a refl) refl in
      let once : keyed a rest ≡ 0 = omega (
        arith,
        sum (λ e. if e.0 == a then 1 else 0),
        at,
        keyed-le-cover a f.addrs v.plain,
        v.apart a,
      ) in
      let same : s ≡ k =
        ground (arith, one, sum (λ e. pair a k e.0 e.1.0), once, pair-le-keyed rest) in
      (rest, n ∙ ap (λ z. some (z, rest)) (both same none_more))
]
  where
    pair-le-keyed : (es : List (ℕ × (ℕ × ℕ))) → total (λ e. pair a k e.0 e.1.0) es ≤ keyed a es
    pair-le-keyed [] = omega arith
    pair-le-keyed (e ∷ es) =
        let one : pair a k e.0 e.1.0 ≤ (if e.0 == a then 1 else 0) = ground arith in
        omega (arith, one, pair-le-keyed es)

    both : {s p : ℕ} → s ≡ k → p ≡ 0 → ◌≡◌ {A = ℕ × ℕ} (s, p) (k, 0)
    both x y = λ i. (x i, y i)
