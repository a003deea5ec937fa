-- ===== src/Alloc/BTree/Keys.antt =====
-- Lists of entries in the order of their keys, which stand for a `BTreeMap`.
use lamellar_runtime.Prelude.{
  ℕ, suc, ◌+◌, ◌≤◌, ◌<◌, ◌≡◌, refl, ap, subst, ◌⊎◌, inl, inr, true, false, Option, none, some, List,
  [], ◌∷◌, arith, ltb, leb, ◌==◌, ltb→lt, leb→le, ==→eq, ne→==, Bool-cases, All, total, keyed,
}
use lamellar_runtime.Alloc.BTree.{insert_sorted, next_from}

module _ {V : Type 0} where
  -- In the order of the keys, from `lo` on.
  abbrev pub Sorted : ℕ → List (ℕ × V) → Type 0
  Sorted lo [] = Unit
  Sorted lo (e ∷ es) = (lo ≤ e.0) × Sorted (suc e.0) es

  pub Sorted-mono : (lo hi : ℕ) (es : List (ℕ × V)) → lo ≤ hi → Sorted hi es → Sorted lo es
  Sorted-mono lo hi [] h s = tt
  Sorted-mono lo hi (e ∷ es) h s = (omega (arith, s.0), s.1)

  pub Sorted-keyed : (lo k : ℕ) (es : List (ℕ × V)) → k < lo → Sorted lo es → keyed k es ≡ 0
  Sorted-keyed lo k [] h s = refl
  Sorted-keyed lo k (e ∷ es) h s =
      let ne : (e.0 == k) ≡ false = ne→== e.0 k (λ q. omega (arith, q, s.0)) in
      rw ne (omega (arith, Sorted-keyed (suc e.0) k es (omega (arith, s.0)) s.1))

  pub insert_sorted-Sorted :
      (lo k : ℕ) (v : V) (es : List (ℕ × V))
      → lo ≤ k
      → Sorted lo es
      → Sorted lo (insert_sorted k v es)
  insert_sorted-Sorted lo k v [] h s = (h, tt)
  insert_sorted-Sorted lo k v (e ∷ es) h s = elim (Bool-cases (e.0 == k)) [
    | inl y ↦ rw y (h, subst (λ z. Sorted (suc z) es) (==→eq e.0 k y) s.1)
    | inr ne ↦ (elim (Bool-cases (ltb k e.0)) [
      | inl y ↦ rw (ne, y) (h, (ltb→lt k e.0 y, s.1))
      | inr z ↦ rw (ne, z) (s.0, insert_sorted-Sorted (suc e.0) k v es (ground (arith, ne, z)) s.1)
    ])
  ]

  pub total-insert_sorted :
      (w : ℕ × V → ℕ) (k : ℕ) (v : V) (es : List (ℕ × V))
      → keyed k es ≡ 0
      → total w (insert_sorted k v es) ≡ total w es + w (k, v)
  total-insert_sorted w k v [] h = omega arith
  total-insert_sorted w k v (e ∷ es) h = elim (Bool-cases (e.0 == k)) [
    | inl y ↦ absurd (omega (arith, rw y at h))
    | inr ne ↦
        let up = total-insert_sorted w k v es (omega (arith, h)) in
        (elim (Bool-cases (ltb k e.0)) [
          | inl y ↦ rw (ne, y) (omega arith)
          | inr z ↦ rw (ne, z) (omega (arith, up))
        ])
  ]

  pub All-insert_sorted {κ} :
      (P : ℕ × V → Type κ) (k : ℕ) (v : V) (es : List (ℕ × V))
      → P (k, v)
      → All P es
      → All P (insert_sorted k v es)
  All-insert_sorted P k v [] p a = (p, tt)
  All-insert_sorted P k v (e ∷ es) p a = elim (Bool-cases (e.0 == k)) [
    | inl y ↦ rw y (p, a.1)
    | inr ne ↦ (elim (Bool-cases (ltb k e.0)) [
      | inl y ↦ rw (ne, y) (p, a)
      | inr z ↦ rw (ne, z) (a.0, All-insert_sorted P k v es p a.1)
    ])
  ]

  pub next_from-some :
      (w : ℕ × V → ℕ) (lo k : ℕ) (v : V) (es : List (ℕ × V))
      → next_from lo es ≡ some (k, v)
      → (lo ≤ k) × (w (k, v) ≤ total w es)
  next_from-some w lo k v [] q = absurd (cc)
  next_from-some w lo k v (e ∷ es) q =
      by_test (λ r. next_from-some w lo k v es r) (Bool-cases (leb lo e.0))
    where
      by_test :
          (next_from lo es ≡ some (k, v) → (lo ≤ k) × (w (k, v) ≤ total w es))
          → (leb lo e.0 ≡ true) ⊎ (leb lo e.0 ≡ false)
          → (lo ≤ k) × (w (k, v) ≤ w e + total w es)
      by_test up (inl y) =
          let q' : ◌≡◌ {A = Option (ℕ × V)} (some e) (some (k, v)) = rw y at q in
          let ek : e.0 ≡ k = ap (λ o. elim o [ none ↦ 0 | some x ↦ x.0 ]) q' in
          let ew : w e ≡ w (k, v) = ap (λ o. elim o [ none ↦ 0 | some x ↦ w x ]) q' in
          (omega (arith, leb→le lo e.0 y, ek), omega (arith, ew))
      by_test up (inr n) = let (a, b) = up (rw n at q) in (a, omega (arith, b))
