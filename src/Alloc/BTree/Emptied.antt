-- ===== src/Alloc/BTree/Emptied.antt =====
-- A set of `sizes` from which the last address is taken: it goes with its size when nothing is left in it.
use lamellar_runtime.Prelude.{
  ℕ, suc, ◌+◌, ◌≤◌, ◌<◌, ◌≡◌, refl, sym, ap, ◌∙◌, ◌≢◌, ◌⊎◌, inl, inr, true, false, Option, none,
  some, List, [], ◌∷◌, set, arith, ltb, leb, ◌==◌, if◌then◌else◌, le→ltb, leb→le, leb→lt, eq→==,
  ==→eq, ne→==, Bool-cases, Option-cases, All, total, remove_key, keyed, remove_key-some, All-both,
  keyed-All, remove_key-none,
}
use lamellar_runtime.Alloc.BTree.{insert_sorted, next_from, set_insert, insert_size}
use lamellar_runtime.Alloc.BTree.Keys.{Sorted, Sorted-mono, Sorted-keyed}
use lamellar_runtime.Alloc.BTree.Sizes.{listed, NonEmpty, set_insert-some}

module _ {V : Type 0} where
  pub Sorted-once : (lo k : ℕ) (es : List (ℕ × V)) → Sorted lo es → keyed k es ≤ 1
  Sorted-once lo k [] o = omega arith
  Sorted-once lo k (e ∷ es) o = elim (Bool-cases (e.0 == k)) [
    | inl y ↦ rw y (omega (arith, Sorted-keyed (suc e.0) k es (omega (arith, ==→eq e.0 k y)) o.1))
    | inr n ↦ rw n (omega (arith, Sorted-once (suc e.0) k es o.1))
  ]

  pub remove_key-Sorted :
      (lo k : ℕ) (v : V) (es rest : List (ℕ × V))
      → remove_key k es ≡ some (v, rest)
      → Sorted lo es
      → Sorted lo rest
  remove_key-Sorted lo k v [] rest q o = absurd (cc)
  remove_key-Sorted lo k v (e ∷ es) rest q o =
      by_rest (λ u us r. remove_key-Sorted (suc e.0) k u es us r o.1) (Bool-cases (e.0 == k))
        (Option-cases (remove_key k es))
    where
      goes :
          (us : List (ℕ × V)) (u : V)
          → ◌≡◌ {A = Option (V × List (ℕ × V))} (some (u, us)) (some (v, rest))
          → us ≡ rest
      goes us u r = ap (λ x. elim x [ none ↦ us | some y ↦ y.1 ]) r

      by_rest :
          ((u : V) (us : List (ℕ × V)) → remove_key k es ≡ some (u, us) → Sorted (suc e.0) us)
          → ((e.0 == k) ≡ true) ⊎ ((e.0 == k) ≡ false)
          → (remove_key k es ≡ none) ⊎ ((x : V × List (ℕ × V)) × (remove_key k es ≡ some x))
          → Sorted lo rest
      by_rest up (inl y) x =
          let same = goes es e.1 (rw y at q) in
          rw (← same) (Sorted-mono lo (suc e.0) es (omega (arith, o.0)) o.1)
      by_rest up (inr n) (inl r) = let q' = rw (n, r) at q in absurd (cc)
      by_rest up (inr n) (inr ((u, us), r)) =
          let same = goes (e ∷ us) u (rw (n, r) at q) in rw (← same) (o.0, up u us r)

-- The set under `k`, and no other one, is empty.
abbrev pub Hollow : ℕ → ℕ × List ℕ → Type 0
Hollow k e = ((e.0 == k) ≡ false → e.1 ≢ []) × ((e.0 == k) ≡ true → e.1 ≡ [])

filled-Hollow : (k : ℕ) (es : List (ℕ × List ℕ)) → keyed k es ≡ 0 → NonEmpty es → All (Hollow k) es
filled-Hollow k es z h =
    All-both (λ e n full. ((λ other. full), λ same. absurd (cc))) es (keyed-All k es z) h

-- A set is replaced by another one, under its size.
pub replaced :
    (w : ℕ → ℕ → ℕ) (lo k : ℕ) (set left : List ℕ) (es : List (ℕ × List ℕ))
    → next_from lo es ≡ some (k, set)
    → (lo ≤ k)
      × (listed w (insert_sorted k left es) + total (λ a. w a k) set
          ≡ listed w es + total (λ a. w a k) left)
replaced w lo k set left [] q = absurd (cc)
replaced w lo k set left (e ∷ es) q =
    by_test (λ r. replaced w lo k set left es r) (Bool-cases (leb lo e.0))
  where
    by_test :
        (next_from lo es ≡ some (k, set)
          → (lo ≤ k)
            × (listed w (insert_sorted k left es) + total (λ a. w a k) set
                ≡ listed w es + total (λ a. w a k) left))
        → (leb lo e.0 ≡ true) ⊎ (leb lo e.0 ≡ false)
        → (lo ≤ k)
          × (listed w (insert_sorted k left (e ∷ es)) + total (λ a. w a k) set
              ≡ listed w (e ∷ es) + total (λ a. w a k) left)
    by_test up (inl y) =
        let q' : ◌≡◌ {A = Option (ℕ × List ℕ)} (some e) (some (k, set)) = rw y at q in
        let ek : e.0 ≡ k = ap (λ o. elim o [ none ↦ 0 | some x ↦ x.0 ]) q' in
        let ew : total (λ a. w a e.0) e.1 ≡ total (λ a. w a k) set =
          ap (λ o. elim o [ none ↦ 0 | some x ↦ total (λ a. w a x.0) x.1 ]) q' in
        (omega (arith, leb→le lo e.0 y, ek), rw (eq→== e.0 k ek) (omega (arith, ew)))
    by_test up (inr n) =
        let (le, sum) = up (rw n at q) in
        let below : e.0 < k = omega (arith, le, leb→lt lo e.0 n) in
        let other : (e.0 == k) ≡ false = ne→== e.0 k (λ z. omega (arith, z, below)) in
        let after : ltb k e.0 ≡ false = le→ltb k e.0 (omega (arith, below)) in
        (le, rw (other, after) (omega (arith, sum)))

pub replaced-Hollow :
    (lo k lo' : ℕ) (set : List ℕ) (es : List (ℕ × List ℕ))
    → next_from lo es ≡ some (k, set)
    → Sorted lo' es
    → NonEmpty es
    → All (Hollow k) (insert_sorted k [] es) × (1 ≤ keyed k (insert_sorted k [] es))
replaced-Hollow lo k lo' set [] q o h = absurd (cc)
replaced-Hollow lo k lo' set (e ∷ es) q o h =
    by_test (λ r. replaced-Hollow lo k (suc e.0) set es r o.1 h.1) (Bool-cases (leb lo e.0))
  where
    by_test :
        (next_from lo es ≡ some (k, set)
          → All (Hollow k) (insert_sorted k [] es) × (1 ≤ keyed k (insert_sorted k [] es)))
        → (leb lo e.0 ≡ true) ⊎ (leb lo e.0 ≡ false)
        → All (Hollow k) (insert_sorted k [] (e ∷ es)) × (1 ≤ keyed k (insert_sorted k [] (e ∷ es)))
    by_test up (inl y) =
        let q' : ◌≡◌ {A = Option (ℕ × List ℕ)} (some e) (some (k, set)) = rw y at q in
        let ek : e.0 ≡ k = ap (λ o. elim o [ none ↦ 0 | some x ↦ x.0 ]) q' in
        let self = eq→== k k refl in
        let rest = Sorted-keyed (suc e.0) k es (omega (arith, ek)) o.1 in
        rw (eq→== e.0 k ek) (
          (((λ other. absurd (cc)), λ same. refl), filled-Hollow k es rest h.1),
          rw self (omega arith),
        )
    by_test up (inr n) =
        let (all, one) = up (rw n at q) in
        let le = (replaced (λ a t. 0) lo k set [] es (rw n at q)).0 in
        let below : e.0 < k = omega (arith, le, leb→lt lo e.0 n) in
        let other : (e.0 == k) ≡ false = ne→== e.0 k (λ z. omega (arith, z, below)) in
        let after : ltb k e.0 ≡ false = le→ltb k e.0 (omega (arith, below)) in
        rw (other, after) ((((λ z. h.0), λ same. absurd (cc)), all), rw other (omega (arith, one)))

pub insert_size-Hollow :
    (k s a : ℕ) (es : List (ℕ × List ℕ))
    → s ≢ k
    → All (Hollow k) es
    → All (Hollow k) (insert_size s a es) × (keyed k es ≤ keyed k (insert_size s a es))
unfolding insert_size
insert_size-Hollow k s a es ne h = go es h
  where
    other : (s == k) ≡ false
    other = ne→== s k ne

    fresh : (xs : List ℕ) → xs ≢ [] → Hollow k (s, xs)
    fresh xs full = ((λ z. full), λ same. let e' = rw other at same in absurd (cc))

    go :
        (es : List (ℕ × List ℕ))
        → All (Hollow k) es
        → All (Hollow k) (insert_size s a es) × (keyed k es ≤ keyed k (insert_size s a es))
    go [] h = ((fresh (a ∷ []) (λ q. absurd (cc)), tt), omega arith)
    go (e ∷ es) h = by_test (go es h.1) (Bool-cases (e.0 == s)) (Bool-cases (ltb s e.0))
      where
        by_test :
            All (Hollow k) (insert_size s a es) × (keyed k es ≤ keyed k (insert_size s a es))
            → ((e.0 == s) ≡ true) ⊎ ((e.0 == s) ≡ false)
            → (ltb s e.0 ≡ true) ⊎ (ltb s e.0 ≡ false)
            → All (Hollow k) (insert_size s a (e ∷ es))
              × (keyed k (e ∷ es) ≤ keyed k (insert_size s a (e ∷ es)))
        by_test up (inl y) o =
            let elsewhere : (e.0 == k) ≡ false = ne→== e.0 k (λ z. ne (sym (==→eq e.0 s y) ∙ z)) in
            rw y (
              (fresh (set_insert a e.1) (set_insert-some a e.1), h.1),
              rw (elsewhere, other) (omega arith),
            )
        by_test up (inr n) (inl y) =
            rw (n, y) ((fresh (a ∷ []) (λ q. absurd (cc)), h), rw other (omega arith))
        by_test up (inr n) (inr z) = rw (n, z) ((h.0, up.0), omega (arith, up.1))

-- The empty set goes, with its size.
pub emptied :
    (k : ℕ) (es : List (ℕ × List ℕ))
    → Sorted 0 es
    → All (Hollow k) es × (1 ≤ keyed k es)
    → (rest : List (ℕ × List ℕ)) × (remove_key k es ≡ some ([], rest))
      × Sorted 0 rest
      × NonEmpty rest
      × ((w : ℕ → ℕ → ℕ) → listed w rest ≡ listed w es)
emptied k es o (all, one) = elim (Option-cases (remove_key k es)) [
  | inl q ↦ absurd (omega (arith, remove_key-none k es q, one))
  | inr ((v, rest), q) ↦
      let (sum, kept) = remove_key-some (Hollow k) k v es rest q in
      let (hollow, others) = kept all in
      let v_empty : v ≡ [] = hollow.1 (eq→== k k refl) in
      let self : ◌≡◌ {A = ℕ} (if k == k then 1 else 0) 1 = rw (eq→== k k refl) refl in
      let gone : keyed k rest ≡ 0 =
        omega (arith, sum (λ e. if e.0 == k then 1 else 0), Sorted-once 0 k es o, self) in
      (
        rest,
        rw (← v_empty) q,
        remove_key-Sorted 0 k v es rest q o,
        All-both (λ e n h. h.0 n) rest (keyed-All k rest gone) others,
        λ w. omega (arith, sum (λ e. total (λ a. w a e.0) e.1), ap (total (λ a. w a k)) v_empty),
      )
]
