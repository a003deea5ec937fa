-- ===== src/Alloc/BTree/Sizes.antt =====
-- What the operations on the two maps of `FreeEntries` do to their entries.
use lamellar_runtime.Prelude.{
  ℕ, suc, ◌+◌, ◌≤◌, ◌≡◌, refl, ap, subst, ◌≢◌, ◌⊎◌, inl, inr, true, false, none, some, List, [],
  ◌∷◌, total-pop_last, arith, ltb, ◌==◌, if◌then◌else◌, ltb→lt, ==→eq, Bool-cases, Option-cases,
  pop_last, All, total, pop_last-none, keyed,
}
use lamellar_runtime.Alloc.BTree.{set_insert, set_remove, insert_size, cons_set, remove_size}
use lamellar_runtime.Alloc.BTree.Keys.{Sorted, Sorted-mono, Sorted-keyed}

-- A weight over all pairs of an address and a size.
abbrev pub listed : (ℕ → ℕ → ℕ) → List (ℕ × List ℕ) → ℕ
listed w es = total (λ e. total (λ a. w a e.0) e.1) es

-- 1 at the pair of address `a` and size `s`.
abbrev pub pair : ℕ → ℕ → ℕ → ℕ → ℕ
pair a s b t = if b == a then (if t == s then 1 else 0) else 0

total-set_insert :
    (w : ℕ → ℕ) (a : ℕ) (xs : List ℕ)
    → total (λ b. if b == a then 1 else 0) xs ≡ 0
    → total w (set_insert a xs) ≡ total w xs + w a
total-set_insert w a [] h = omega arith
total-set_insert w a (x ∷ xs) h = elim (Bool-cases (x == a)) [
  | inl y ↦ absurd (omega (arith, rw y at h))
  | inr n ↦ rw n (omega (arith, total-set_insert w a xs (omega (arith, h))))
]

pub set_insert-some : (a : ℕ) (xs : List ℕ) → set_insert a xs ≢ []
set_insert-some a [] e = absurd (cc)
set_insert-some a (x ∷ xs) e = by_test (Bool-cases (x == a))
  where
    by_test : ((x == a) ≡ true) ⊎ ((x == a) ≡ false) → ⊥
    by_test (inl y) = let e' = rw y at e in absurd (cc)
    by_test (inr n) = let e' = rw n at e in absurd (cc)

total-set_remove :
    (w : ℕ → ℕ) (a : ℕ) (xs : List ℕ)
    → 1 ≤ total (λ b. if b == a then 1 else 0) xs
    → total w (set_remove a xs) + w a ≡ total w xs
total-set_remove w a [] h = absurd (omega arith)
total-set_remove w a (x ∷ xs) h = elim (Bool-cases (x == a)) [
  | inl y ↦ rw y (by_last (==→eq x a y) (Option-cases (pop_last xs)))
  | inr n ↦ rw n (omega (arith, total-set_remove w a xs (omega (arith, rw n at h))))
]
  where
    by_last :
        x ≡ a
        → (pop_last xs ≡ none) ⊎ ((z : ℕ × List ℕ) × (pop_last xs ≡ some z))
        → total w (elim (pop_last xs) [ none ↦ [] | some (y, ys) ↦ y ∷ ys ]) + w a
          ≡ w x + total w xs
    by_last e (inl q) = rw q (omega (arith, ap w e, pop_last-none w xs q))
    by_last e (inr ((y, ys), q)) = rw q (omega (arith, ap w e, total-pop_last w xs ys y q))

other_size : (a s t : ℕ) (xs : List ℕ) → (t == s) ≡ false → total (λ b. pair a s b t) xs ≡ 0
other_size a s t [] h = refl
other_size a s t (x ∷ xs) h =
    let z : pair a s x t ≡ 0 = ground (arith, h) in omega (arith, z, other_size a s t xs h)

unlisted : (a s : ℕ) (es : List (ℕ × List ℕ)) → keyed s es ≡ 0 → listed (pair a s) es ≡ 0
unlisted a s [] h = refl
unlisted a s (e ∷ es) h = elim (Bool-cases (e.0 == s)) [
  | inl y ↦ absurd (omega (arith, rw y at h))
  | inr n ↦ omega (arith, other_size a s e.0 e.1 n, unlisted a s es (omega (arith, rw n at h)))
]

-- The pairs of one entry, when its key is the size.
own_size :
    (a s t : ℕ) (xs : List ℕ)
    → (t == s) ≡ true
    → total (λ b. pair a s b t) xs ≡ total (λ b. if b == a then 1 else 0) xs
own_size a s t xs h = rw h refl

pub listed-insert_size :
    (w : ℕ → ℕ → ℕ) (s a : ℕ) (es : List (ℕ × List ℕ))
    → listed (pair a s) es ≡ 0
    → listed w (insert_size s a es) ≡ listed w es + w a s
unfolding insert_size
listed-insert_size w s a [] h = omega arith
listed-insert_size w s a (e ∷ es) h = elim (Bool-cases (e.0 == s)) [
  | inl y ↦
      let same : total (λ b. w b e.0) e.1 ≡ total (λ b. w b s) e.1 =
        ap (λ t. total (λ b. w b t) e.1) (==→eq e.0 s y) in
      rw y (
        omega (
          arith,
          same,
          total-set_insert (λ b. w b s) a e.1 (omega (arith, own_size a s e.0 e.1 y, h)),
        ))
  | inr n ↦ (elim (Bool-cases (ltb s e.0)) [
    | inl y ↦ rw (n, y) (omega arith)
    | inr z ↦ rw (n, z) (omega (arith, listed-insert_size w s a es (omega (arith, h))))
  ])
]

listed-cons_set :
    (w : ℕ → ℕ → ℕ) (s : ℕ) (xs : List ℕ) (es : List (ℕ × List ℕ))
    → listed w (cons_set s xs es) ≡ total (λ a. w a s) xs + listed w es
listed-cons_set w s [] es = omega arith
listed-cons_set w s (x ∷ xs) es = refl

pub listed-remove_size :
    (w : ℕ → ℕ → ℕ) (a s lo : ℕ) (es : List (ℕ × List ℕ))
    → Sorted lo es
    → 1 ≤ listed (pair a s) es
    → listed w (remove_size a s es) + w a s ≡ listed w es
unfolding remove_size
listed-remove_size w a s lo [] o h = absurd (omega arith)
listed-remove_size w a s lo (e ∷ es) o h = elim (Bool-cases (e.0 == s)) [
  | inl y ↦
      let same : total (λ b. w b e.0) e.1 ≡ total (λ b. w b s) e.1 =
        ap (λ t. total (λ b. w b t) e.1) (==→eq e.0 s y) in
      let rest : listed (pair a s) es ≡ 0 =
        unlisted a s es (Sorted-keyed (suc e.0) s es (omega (arith, ==→eq e.0 s y)) o.1) in
      rw y (
        omega (
          arith,
          same,
          listed-cons_set w s (set_remove a e.1) es,
          total-set_remove (λ b. w b s) a e.1 (omega (arith, own_size a s e.0 e.1 y, h, rest)),
        ))
  | inr n ↦ rw n (
      omega (
        arith,
        listed-remove_size w a s (suc e.0) es o.1 (omega (arith, h, other_size a s e.0 e.1 n)),
      ))
]

pub insert_size-Sorted :
    (lo s a : ℕ) (es : List (ℕ × List ℕ)) → lo ≤ s → Sorted lo es → Sorted lo (insert_size s a es)
unfolding insert_size
insert_size-Sorted lo s a [] h o = (h, tt)
insert_size-Sorted lo s a (e ∷ es) h o = elim (Bool-cases (e.0 == s)) [
  | inl y ↦ rw y (h, subst (λ z. Sorted (suc z) es) (==→eq e.0 s y) o.1)
  | inr ne ↦ (elim (Bool-cases (ltb s e.0)) [
    | inl y ↦ rw (ne, y) (h, (ltb→lt s e.0 y, o.1))
    | inr z ↦ rw (ne, z) (o.0, insert_size-Sorted (suc e.0) s a es (ground (arith, ne, z)) o.1)
  ])
]

cons_set-Sorted :
    (lo s : ℕ) (xs : List ℕ) (es : List (ℕ × List ℕ))
    → lo ≤ s
    → Sorted (suc s) es
    → Sorted lo (cons_set s xs es)
cons_set-Sorted lo s [] es h o = Sorted-mono lo (suc s) es (omega (arith, h)) o
cons_set-Sorted lo s (x ∷ xs) es h o = (h, o)

pub remove_size-Sorted :
    (lo a s : ℕ) (es : List (ℕ × List ℕ)) → Sorted lo es → Sorted lo (remove_size a s es)
unfolding remove_size
remove_size-Sorted lo a s [] o = tt
remove_size-Sorted lo a s (e ∷ es) o = elim (Bool-cases (e.0 == s)) [
  | inl y ↦
      let q = ==→eq e.0 s y in
      rw y (
        cons_set-Sorted lo s (set_remove a e.1) es (omega (arith, q, o.0))
          (subst (λ z. Sorted (suc z) es) q o.1))
  | inr n ↦ rw n (o.0, remove_size-Sorted (suc e.0) a s es o.1)
]

-- No size has an empty set.
abbrev pub NonEmpty : List (ℕ × List ℕ) → Type 0
NonEmpty es = All (λ e. e.1 ≢ []) es

pub insert_size-NonEmpty :
    (s a : ℕ) (es : List (ℕ × List ℕ)) → NonEmpty es → NonEmpty (insert_size s a es)
unfolding insert_size
insert_size-NonEmpty s a [] h = ((λ e. absurd (cc)), tt)
insert_size-NonEmpty s a (e ∷ es) h = elim (Bool-cases (e.0 == s)) [
  | inl y ↦ rw y (set_insert-some a e.1, h.1)
  | inr ne ↦ (elim (Bool-cases (ltb s e.0)) [
    | inl y ↦ rw (ne, y) ((λ q. absurd (cc)), h)
    | inr z ↦ rw (ne, z) (h.0, insert_size-NonEmpty s a es h.1)
  ])
]

cons_set-NonEmpty :
    (s : ℕ) (xs : List ℕ) (es : List (ℕ × List ℕ)) → NonEmpty es → NonEmpty (cons_set s xs es)
cons_set-NonEmpty s [] es h = h
cons_set-NonEmpty s (x ∷ xs) es h = ((λ q. absurd (cc)), h)

pub remove_size-NonEmpty :
    (a s : ℕ) (es : List (ℕ × List ℕ)) → NonEmpty es → NonEmpty (remove_size a s es)
unfolding remove_size
remove_size-NonEmpty a s [] h = tt
remove_size-NonEmpty a s (e ∷ es) h = elim (Bool-cases (e.0 == s)) [
  | inl y ↦ rw y (cons_set-NonEmpty s (set_remove a e.1) es h.1)
  | inr n ↦ rw n (h.0, remove_size-NonEmpty a s es h.1)
]
