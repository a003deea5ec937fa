-- ===== src/Alloc/BTree/Take.antt =====
-- What `try_malloc` takes out of the free entries.
use lamellar_runtime.Prelude.{
  ℕ, ◌+◌, ◌-◌, ◌^◌, ◌≤◌, ◌<◌, ◌≡◌, refl, ap, ◌∙◌, ◌≢◌, ◌⊎◌, inl, inr, true, false, none, some, List,
  [], ◌∷◌, set, total-pop_last, arith, ℕ_discrete, ◌==◌, eq→==, ne→==, Option-cases, pop_last, All,
  All-imp, total, total-eq-zero, pop_last-none, remove_key, keyed, add_usize, sub_usize,
}
use lamellar_runtime.Alloc.BTree.{insert_sorted, next_from, insert_size, FreeEntries}
use lamellar_runtime.Alloc.BTree.Keys.{
  Sorted, insert_sorted-Sorted, All-insert_sorted, next_from-some,
}
use lamellar_runtime.Alloc.BTree.Sizes.{listed, pair, NonEmpty, insert_size-NonEmpty}
use lamellar_runtime.Alloc.{calc_padding}
use lamellar_runtime.Alloc.Padding.{calc_padding-lt}
use lamellar_runtime.Alloc.BTree.{upper_size, split, take_area}
use lamellar_runtime.Alloc.BTree.Areas.{cov, cover, IsFree, add_area-IsFree, area_out, find_area}
use lamellar_runtime.Alloc.BTree.Emptied.{
  Hollow, replaced, replaced-Hollow, insert_size-Hollow, emptied,
}

abbrev pub spaces : List (ℕ × (ℕ × ℕ)) → ℕ
spaces es = total (λ e. e.1.0) es

-- The `full` bytes from `a` on are no longer free, and all others are as they were.
pub record Took (f : FreeEntries) (a full : ℕ) (f' : FreeEntries) : Type 0 where
  pub valid : IsFree f'
  pub filled : NonEmpty f'.sizes
  pub covers : (x : ℕ) → cover x f'.addrs + cov x a full ≡ cover x f.addrs
  pub space : spaces f'.addrs + full ≡ spaces f.addrs

cov-split : (x a full s : ℕ) → full ≤ s → cov x a s ≡ cov x a full + cov x (a + full) (s - full)
cov-split x a full s h = ground arith

-- `split` on an area that was just taken out: the entries, and what became of `sizes`.
record Splits (f : FreeEntries) (a full s : ℕ) (g : FreeEntries) : Type 0 where
  valid : IsFree g
  covers : (x : ℕ) → cover x g.addrs + cov x a full ≡ cover x f.addrs + cov x a s
  space : spaces g.addrs + full ≡ spaces f.addrs + s
  sizes : (g.sizes ≡ f.sizes) ⊎ ((r : ℕ) × (b : ℕ) × (r < s) × (g.sizes ≡ insert_size r b f.sizes))

split-Splits :
    (f : FreeEntries) (a full s : ℕ)
    → IsFree f
    → 0 < full
    → full ≤ s
    → a + s < 2 ^ 63
    → ((x : ℕ) → cover x f.addrs + cov x a s ≤ 1)
    → Splits f a full s (split a full (s, 0) f)
unfolding split
split-Splits f a full s v pos fits small room = elim (ℕ_discrete s full) [
  | yes q ↦
      let test : (add_usize s 0 == full) ≡ true = eq→== (add_usize s 0) full (omega (arith, q)) in
      rw test (record {
        valid = v;
        covers = λ x. omega (arith, ap (cov x a) q);
        space = omega (arith, q);
        sizes = inl refl;
      })
  | no n ↦
      let test : (add_usize s 0 == full) ≡ false =
        ne→== (add_usize s 0) full (λ q. n (omega (arith, q))) in
      let left : sub_usize (add_usize s 0) full ≡ s - full = omega arith in
      let at : add_usize a full ≡ a + full = omega arith in
      let (w, sum) =
        add_area-IsFree f v (a + full) (s - full) (omega (arith, n)) (omega arith)
          (λ x. omega (arith, room x, cov-split x a full s fits)) in
      rw (test, left, at)
        (record {
          valid = w;
          covers = λ x. omega (arith, sum (λ e. cov x e.0 e.1.0), cov-split x a full s fits);
          space = omega (arith, sum (λ e. e.1.0));
          sizes = inr (s - full, a + full, omega (arith, n), refl);
        })
]

no_pop : (xs : List ℕ) → pop_last xs ≡ none → xs ≡ []
no_pop [] q = refl
no_pop (x ∷ xs) q = absurd (omega (arith, pop_last-none (λ z. 1) (x ∷ xs) q))

abbrev is_nil : List ℕ → ℕ
is_nil [] = 1
is_nil (x ∷ xs) = 0

some_nil : (xs : List ℕ) → xs ≢ [] → is_nil xs ≡ 0
some_nil [] h = absurd (h refl)
some_nil (x ∷ xs) h = refl

nil_is : (xs : List ℕ) → is_nil xs ≡ 0 → xs ≢ []
nil_is xs z e = omega (arith, z, ap is_nil e)

module _ (f : FreeEntries) (v : IsFree f) (h : NonEmpty f.sizes) (lo k : ℕ) (set : List ℕ)
    (q : next_from lo f.sizes ≡ some (k, set)) where
  set_filled : set ≢ []
  set_filled = nil_is set (
      omega (
        arith,
        (next_from-some (λ e. is_nil e.1) lo k set f.sizes q).1,
        total-eq-zero (λ e. is_nil e.1) f.sizes (All-imp (λ e n. some_nil e.1 n) f.sizes h),
      ))

  last_of : (a : ℕ) × (left : List ℕ) × (pop_last set ≡ some (a, left))
  last_of = elim (Option-cases (pop_last set)) [
    | inl n ↦ absurd (set_filled (no_pop set n))
    | inr ((a, left), r) ↦ (a, left, r)
  ]

  module _ (a : ℕ) (left : List ℕ) (r : pop_last set ≡ some (a, left)) where
    -- The address has an area of the size `k`.
    area_there : (rest : List (ℕ × (ℕ × ℕ))) × (remove_key a f.addrs ≡ some ((k, 0), rest))
    area_there =
        let self : pair a k a k ≡ 1 = ground arith in
        let one : 1 ≤ total (λ e. pair a k e.0 e.1.0) f.addrs = omega (
          arith,
          v.agree (pair a k),
          (next_from-some (λ e. total (λ b. pair a k b e.0) e.1) lo k set f.sizes q).1,
          total-pop_last (λ b. pair a k b k) set left a r,
          self,
        ) in
        find_area f v a k one

    -- The entries when the area is out of `addrs` and its address out of its set.
    abbrev without : List (ℕ × (ℕ × ℕ)) → FreeEntries
    without rest = record { sizes = insert_sorted k left f.sizes; addrs = rest }

    module _ (rest : List (ℕ × (ℕ × ℕ))) (n : remove_key a f.addrs ≡ some ((k, 0), rest)) where
      area_plain : (0 < k) × (a + k < 2 ^ 63)
      area_plain = let (pos, z, small) = ((area_out f v a k 0 rest n).1 v.plain).0 in (pos, small)

      without-IsFree : IsFree (without rest)
      without-IsFree =
          let (sum, kept) = area_out f v a k 0 rest n in
          record {
            sorted = insert_sorted-Sorted 0 k left f.sizes (omega arith) v.sorted;
            agree = λ w. omega (
              arith,
              (replaced w lo k set left f.sizes q).1,
              total-pop_last (λ b. w b k) set left a r,
              v.agree w,
              sum (λ e. w e.0 e.1.0),
            );
            plain = (kept v.plain).1;
            apart = λ x. omega (arith, sum (λ e. cov x e.0 e.1.0), v.apart x);
          }

      module _ (full : ℕ) (pos : 0 < full) (fits : full ≤ k) where
        abbrev after : FreeEntries
        after = split a full (k, 0) (without rest)

        after-Splits : Splits (without rest) a full k after
        after-Splits =
            split-Splits (without rest) a full k without-IsFree pos fits area_plain.1
              (λ x. omega (arith, (area_out f v a k 0 rest n).0 (λ e. cov x e.0 e.1.0), v.apart x))

        took :
            (sizes : List (ℕ × List ℕ))
            → Sorted 0 sizes
            → NonEmpty sizes
            → ((w : ℕ → ℕ → ℕ) → listed w sizes ≡ listed w after.sizes)
            → Took f a full (record { sizes = sizes; addrs = after.addrs })
        took sizes o filled same =
            let d = after-Splits in
            let sum = (area_out f v a k 0 rest n).0 in
            record {
              valid = record {
                sorted = o;
                agree = λ w. same w ∙ d.valid.agree w;
                plain = d.valid.plain;
                apart = d.valid.apart;
              };
              filled = filled;
              covers = λ x. omega (arith, d.covers x, sum (λ e. cov x e.0 e.1.0));
              space = omega (arith, d.space, sum (λ e. e.1.0));
            }

        -- What becomes of the sizes when addresses are left, and when none is.
        still_filled : NonEmpty (insert_sorted k left f.sizes) → NonEmpty after.sizes
        still_filled some_left = elim after-Splits.sizes [
          | inl e ↦ rw e some_left
          | inr (s, b, lt, e) ↦
              rw e (insert_size-NonEmpty s b (insert_sorted k left f.sizes) some_left)
        ]

        hollowed :
            left ≡ []
            → (es : List (ℕ × List ℕ)) × (remove_key k after.sizes ≡ some ([], es))
              × Sorted 0 es
              × NonEmpty es
              × ((w : ℕ → ℕ → ℕ) → listed w es ≡ listed w after.sizes)
        hollowed e =
            let start : All (Hollow k) (insert_sorted k left f.sizes)
                × (1 ≤ keyed k (insert_sorted k left f.sizes)) =
              rw e (replaced-Hollow lo k 0 set f.sizes q v.sorted h) in
            emptied k after.sizes after-Splits.valid.sorted (elim after-Splits.sizes [
              | inl same ↦ rw same start
              | inr (s, b, lt, same) ↦
                  let (all, more) =
                    insert_size-Hollow k s b (insert_sorted k left f.sizes)
                      (λ z. omega (arith, z, lt)) start.0 in
                  rw same (all, omega (arith, more, start.1))
            ])

-- A request that is not empty, and whose size and alignment do not wrap.
pub record IsRequest (size align : ℕ) : Type 0 where
  pub some_size : 0 < size
  pub some_align : 0 < align
  pub small : size + align < 2 ^ 62

-- `take_area` does not panic, and takes an area that is as large as the block and its padding.
pub take_area-Took :
    (f : FreeEntries) (size align k : ℕ) (set : List ℕ)
    → IsFree f
    → NonEmpty f.sizes
    → IsRequest size align
    → next_from (upper_size size align) f.sizes ≡ some (k, set)
    → (a : ℕ) × (f' : FreeEntries) × (take_area size align k set f ≡ some (some a, f'))
      × Took f a (size + calc_padding a align) f'
      × (a + size + calc_padding a align < 2 ^ 63)
unfolding take_area
take_area-Took f size align k set v h ok q =
    let (a, left, r) = last_of f v h (upper_size size align) k set q in
    let (rest, n) = area_there f v h (upper_size size align) k set q a left r in
    let le : upper_size size align ≤ k =
      (next_from-some (λ e. 0) (upper_size size align) k set f.sizes q).0 in
    let short : calc_padding a align < align = calc_padding-lt a align ok.some_align in
    let fits : size + calc_padding a align ≤ k =
      omega (arith, le, short, ok.some_size, ok.some_align, ok.small) in
    let wrap : add_usize size (calc_padding a align) ≡ size + calc_padding a align =
      omega (arith, short, ok.small) in
    by_left a left rest r n (omega (arith, ok.some_size)) fits wrap
  where
    by_left :
        (a : ℕ) (left : List ℕ) (rest : List (ℕ × (ℕ × ℕ)))
        → pop_last set ≡ some (a, left)
        → remove_key a f.addrs ≡ some ((k, 0), rest)
        → 0 < size + calc_padding a align
        → size + calc_padding a align ≤ k
        → add_usize size (calc_padding a align) ≡ size + calc_padding a align
        → (a : ℕ) × (f' : FreeEntries) × (take_area size align k set f ≡ some (some a, f'))
          × Took f a (size + calc_padding a align) f'
          × (a + size + calc_padding a align < 2 ^ 63)
    by_left a [] rest r n pos fits wrap =
        let lo = upper_size size align in
        let full = size + calc_padding a align in
        let (es, gone, o, filled, same) =
          hollowed f v h lo k set q a [] r rest n full pos fits refl in
        let g = after f v h lo k set q a [] r rest n full pos fits in
        let small = (area_plain f v h lo k set q a [] r rest n).1 in
        (
          a,
          record { sizes = es; addrs = g.addrs },
          simp (take_area, r, n, wrap, gone) refl,
          took f v h lo k set q a [] r rest n full pos fits es o filled same,
          omega (arith, small, fits),
        )
    by_left a (x ∷ xs) rest r n pos fits wrap =
        let lo = upper_size size align in
        let full = size + calc_padding a align in
        let g = after f v h lo k set q a (x ∷ xs) r rest n full pos fits in
        let d = after-Splits f v h lo k set q a (x ∷ xs) r rest n full pos fits in
        let filled =
          still_filled f v h lo k set q a (x ∷ xs) r rest n full pos fits
            (All-insert_sorted (λ e. e.1 ≢ []) k (x ∷ xs) f.sizes (λ e. absurd (cc)) h) in
        let small = (area_plain f v h lo k set q a (x ∷ xs) r rest n).1 in
        (
          a,
          g,
          simp (take_area, r, n, wrap) refl,
          took f v h lo k set q a (x ∷ xs) r rest n full pos fits g.sizes d.valid.sorted filled
              (λ w. refl),
          omega (arith, small, fits),
        )
