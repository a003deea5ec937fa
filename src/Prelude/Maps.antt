-- ===== src/Prelude/Maps.antt =====
-- `HashMap` with `usize` keys, as a list of entries, and a function that is changed at one key.
use lamellar_runtime.Prelude.Lists.{total, All}
use lamellar_runtime.Prelude.Tests.{◌==◌, if◌then◌else◌, ==→eq, Bool-cases, Option-cases}
use Prim.Native.Nat.{ℕ, ◌+◌}
use mathlib.Core.Path.{◌≡◌, refl, ap}
use mathlib.Core.Bool.{true, false}
use mathlib.Core.List.{List, [], ◌∷◌}
use mathlib.Core.Option.{Option, none, some}
use mathlib.Core.Logic.{◌⊎◌, inl, inr}
use native.Mathlib.Omega.{arith}

-- A store after a write to one address.
abbrev pub update {ℓ} : {A : Type ℓ} → (ℕ → A) → ℕ → A → ℕ → A
update f k v j = if k == j then v else f j

module _ {ℓ} {V : Type ℓ} where
  -- `HashMap::insert`: an entry under the same key is replaced.
  abbrev pub insert_key : ℕ → V → List (ℕ × V) → List (ℕ × V)
  insert_key k v [] = (k, v) ∷ []
  insert_key k v (e ∷ es) = if e.0 == k then (k, v) ∷ es else e ∷ insert_key k v es

  -- `HashMap::remove`: the value, and the map without it.
  abbrev pub remove_key : ℕ → List (ℕ × V) → Option (V × List (ℕ × V))
  remove_key k [] = none
  remove_key k (e ∷ es) =
      let rest = remove_key k es in
      if e.0 == k then some (e.1, es) else elim rest [ none ↦ none | some (v, r) ↦ some (v, e ∷ r) ]

  -- How often a key stands in a map.
  abbrev pub keyed : ℕ → List (ℕ × V) → ℕ
  keyed k es = total (λ e. if e.0 == k then 1 else 0) es

  pub total-insert_key :
      (w : ℕ × V → ℕ) (k : ℕ) (v : V) (es : List (ℕ × V))
      → keyed k es ≡ 0
      → total w (insert_key k v es) ≡ total w es + w (k, v)
  total-insert_key w k v [] h = omega arith
  total-insert_key w k v (e ∷ es) h = elim (Bool-cases (e.0 == k)) [
    | inl y ↦ absurd (omega (arith, rw y at h))
    | inr n ↦ rw n (omega (arith, total-insert_key w k v es (omega (arith, rw n at h))))
  ]

  pub All-insert_key {κ} :
      (P : ℕ × V → Type κ) (k : ℕ) (v : V) (es : List (ℕ × V))
      → P (k, v)
      → All P es
      → All P (insert_key k v es)
  All-insert_key P k v [] p a = (p, tt)
  All-insert_key P k v (e ∷ es) p a = elim (Bool-cases (e.0 == k)) [
    | inl y ↦ rw y (p, a.1)
    | inr n ↦ rw n (a.0, All-insert_key P k v es p a.1)
  ]

  -- `v` stood under `k` in `es`, and `rest` holds the other entries.
  abbrev pub Taken {κ} : (ℕ × V → Type κ) → ℕ → V → List (ℕ × V) → List (ℕ × V) → Type (ℓ ⊔ κ)
  Taken P k v es rest =
      ((w : ℕ × V → ℕ) → total w rest + w (k, v) ≡ total w es) × (All P es → P (k, v) × All P rest)

  pub remove_key-some {κ} :
      (P : ℕ × V → Type κ) (k : ℕ) (v : V) (es rest : List (ℕ × V))
      → remove_key k es ≡ some (v, rest)
      → Taken P k v es rest
  remove_key-some P k v [] rest q = absurd (cc)
  remove_key-some P k v ((j, u) ∷ es) rest q =
      by_rest (λ u' es' q'. remove_key-some P k u' es es' q') (Bool-cases (j == k))
        (remove_key k es) refl
    where
      here :
          ◌≡◌ {A = Option (V × List (ℕ × V))} (some (u, es)) (some (v, rest))
          → j ≡ k
          → Taken P k v ((j, u) ∷ es) rest
      here e same =
          let eu : u ≡ v = ap (λ o. elim o [ none ↦ u | some r ↦ r.0 ]) e in
          let er : es ≡ rest = ap (λ o. elim o [ none ↦ es | some r ↦ r.1 ]) e in
          rw (← er, ← eu, ← same) ((λ w. omega arith), λ a. a)

      there :
          (u' : V) (es' : List (ℕ × V))
          → Taken P k u' es es'
          → ◌≡◌ {A = Option (V × List (ℕ × V))} (some (u', (j, u) ∷ es')) (some (v, rest))
          → Taken P k v ((j, u) ∷ es) rest
      there u' es' up e =
          let eu : u' ≡ v = ap (λ o. elim o [ none ↦ u | some r ↦ r.0 ]) e in
          let er : ((j, u) ∷ es') ≡ rest = ap (λ o. elim o [ none ↦ es | some r ↦ r.1 ]) e in
          rw (← er, ← eu)
            ((λ w. omega (arith, up.0 w)), λ a. let (p, ps) = up.1 a.1 in (p, (a.0, ps)))

      by_rest :
          ((u' : V) (es' : List (ℕ × V)) → remove_key k es ≡ some (u', es') → Taken P k u' es es')
          → ((j == k) ≡ true) ⊎ ((j == k) ≡ false)
          → (o : Option (V × List (ℕ × V))) → remove_key k es ≡ o
          → Taken P k v ((j, u) ∷ es) rest
      by_rest up (inl y) o r = here (rw y at q) (==→eq j k y)
      by_rest up (inr n) none r = let e' = rw (n, r) at q in absurd (cc)
      by_rest up (inr n) (some (u', es')) r = there u' es' (up u' es' r) (rw (n, r) at q)

  -- A key that does not stand in a map is no entry's key.
  pub keyed-All : (k : ℕ) (es : List (ℕ × V)) → keyed k es ≡ 0 → All (λ e. (e.0 == k) ≡ false) es
  keyed-All k [] z = tt
  keyed-All k (e ∷ es) z = elim (Bool-cases (e.0 == k)) [
    | inl y ↦ absurd (omega (arith, rw y at z))
    | inr n ↦ (n, keyed-All k es (omega (arith, z)))
  ]

  pub remove_key-none : (k : ℕ) (es : List (ℕ × V)) → remove_key k es ≡ none → keyed k es ≡ 0
  remove_key-none k [] q = refl
  remove_key-none k (e ∷ es) q =
      by_rest (λ r. remove_key-none k es r) (Bool-cases (e.0 == k)) (Option-cases (remove_key k es))
    where
      by_rest :
          (remove_key k es ≡ none → keyed k es ≡ 0)
          → ((e.0 == k) ≡ true) ⊎ ((e.0 == k) ≡ false)
          → (remove_key k es ≡ none) ⊎ ((x : V × List (ℕ × V)) × (remove_key k es ≡ some x))
          → keyed k (e ∷ es) ≡ 0
      by_rest up (inl y) o = let q' = rw y at q in absurd (cc)
      by_rest up (inr n) (inl r) = rw n (omega (arith, up r))
      by_rest up (inr n) (inr (x, r)) = let q' = rw (n, r) at q in absurd (cc)
