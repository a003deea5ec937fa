-- ===== src/Prelude/Lists.antt =====
-- Lists measured and indexed by the native numbers, a predicate that holds of every entry, and the
-- operations of `Vec` that shift entries.
use Prim.Native.Nat.{ℕ, zero, suc, ◌+◌, ◌≤◌}
use mathlib.Core.Path.{◌≡◌, refl, ap, subst}
use mathlib.Core.List.{List, [], ◌∷◌, ◌++◌, map}
use mathlib.Core.Option.{Option, none, some}
use mathlib.Core.Logic.{◌≢◌}
use native.Mathlib.Omega.{arith}
use native.Mathlib.Decide.{ℕ_discrete}

module _ {ℓ} {A : Type ℓ} where
  abbrev pub length : List A → ℕ
  length [] = 0
  length (x ∷ xs) = suc (length xs)

  abbrev pub get_elem? : List A → ℕ → Option A
  get_elem? [] i = none
  get_elem? (x ∷ xs) zero = some x
  get_elem? (x ∷ xs) (suc i) = get_elem? xs i

  -- A write out of range changes nothing.
  abbrev pub set : List A → ℕ → A → List A
  set [] i v = []
  set (x ∷ xs) zero v = v ∷ xs
  set (x ∷ xs) (suc i) v = x ∷ set xs i v

  -- The slice `xs[0..n]`, cut short where the list is.
  abbrev pub take : ℕ → List A → List A
  take zero xs = []
  take (suc n) [] = []
  take (suc n) (x ∷ xs) = x ∷ take n xs

  -- `Vec::insert`; past the end the source panics, and the entry is put last here.
  abbrev pub insert_at : ℕ → A → List A → List A
  insert_at zero v xs = v ∷ xs
  insert_at (suc i) v [] = v ∷ []
  insert_at (suc i) v (x ∷ xs) = x ∷ insert_at i v xs

  -- `Vec::pop`: the last entry, and the vector without it.
  abbrev pub pop_last : List A → Option (A × List A)
  pop_last [] = none
  pop_last (x ∷ xs) = elim (pop_last xs) [ none ↦ some (x, []) | some (y, ys) ↦ some (y, x ∷ ys) ]

  abbrev pub All {κ} : (A → Type κ) → List A → Type κ
  All P [] = Unit
  All P (x ∷ xs) = P x × All P xs

  pub All-imp {κ μ} :
      {P : A → Type κ} {Q : A → Type μ}
      → ((x : A) → P x → Q x)
      → (xs : List A) → All P xs
      → All Q xs
  All-imp f [] a = tt
  All-imp f (x ∷ xs) (p, ps) = (f x p, All-imp f xs ps)

  pub pop_last-append : (xs : List A) (x : A) → pop_last (xs ++ (x ∷ [])) ≡ some (x, xs)
  pop_last-append [] x = refl
  pop_last-append (y ∷ ys) x = ground (arith, pop_last-append ys x)

  pub length-append : (xs ys : List A) → length (xs ++ ys) ≡ length xs + length ys
  length-append [] ys = omega arith
  length-append (x ∷ xs) ys = omega (arith, length-append xs ys)

  pub length-set : (xs : List A) (i : ℕ) (v : A) → length (set xs i v) ≡ length xs
  length-set [] i v = refl
  length-set (x ∷ xs) zero v = refl
  length-set (x ∷ xs) (suc i) v = omega (arith, length-set xs i v)

  some_inj : {x y : A} → some x ≡ some y → x ≡ y
  some_inj e = cc

  pub All-get_elem? {κ} :
      (P : A → Type κ) (xs : List A) (i : ℕ) (x : A) → All P xs → get_elem? xs i ≡ some x → P x
  All-get_elem? P [] i x a e = absurd (cc)
  All-get_elem? P (y ∷ ys) zero x a e = subst P (some_inj e) a.0
  All-get_elem? P (y ∷ ys) (suc i) x a e = All-get_elem? P ys i x a.1 e

  pub All-set {κ} :
      (P : A → Type κ) (xs : List A) (i : ℕ) (x : A) → All P xs → P x → All P (set xs i x)
  All-set P [] i x a p = tt
  All-set P (y ∷ ys) zero x a p = (p, a.1)
  All-set P (y ∷ ys) (suc i) x a p = (a.0, All-set P ys i x a.1 p)

  -- The sum of a weight over a list.
  abbrev pub total : (A → ℕ) → List A → ℕ
  total w [] = 0
  total w (x ∷ xs) = w x + total w xs

  pub total-set :
      (w : A → ℕ) (xs : List A) (i : ℕ) (x y : A)
      → get_elem? xs i ≡ some x
      → total w (set xs i y) + w x ≡ total w xs + w y
  total-set w [] i x y e = absurd (cc)
  total-set w (z ∷ zs) zero x y e = omega (arith, ap w (some_inj e))
  total-set w (z ∷ zs) (suc i) x y e = omega (arith, total-set w zs i x y e)

  pub get_elem?-le-total :
      (w : A → ℕ) (xs : List A) (i : ℕ) (x : A) → get_elem? xs i ≡ some x → w x ≤ total w xs
  get_elem?-le-total w [] i x e = absurd (cc)
  get_elem?-le-total w (z ∷ zs) zero x e = omega (arith, ap w (some_inj e))
  get_elem?-le-total w (z ∷ zs) (suc i) x e = omega (arith, get_elem?-le-total w zs i x e)

  -- Two entries at different places count twice.
  pub total-two :
      (w : A → ℕ) (xs : List A) (i j : ℕ) (x y : A)
      → i ≢ j
      → get_elem? xs i ≡ some x
      → get_elem? xs j ≡ some y
      → w x + w y ≤ total w xs
  total-two w [] i j x y n e f = absurd (cc)
  total-two w (z ∷ zs) zero zero x y n e f = absurd (n refl)
  total-two w (z ∷ zs) zero (suc j) x y n e f =
      omega (arith, ap w (some_inj e), get_elem?-le-total w zs j y f)
  total-two w (z ∷ zs) (suc i) zero x y n e f =
      omega (arith, ap w (some_inj f), get_elem?-le-total w zs i x e)
  total-two w (z ∷ zs) (suc i) (suc j) x y n e f =
      omega (arith, total-two w zs i j x y (λ p. n (ap suc p)) e f)

  pub total-one : (xs : List A) → total (λ x. 1) xs ≡ length xs
  total-one [] = refl
  total-one (x ∷ xs) = omega (arith, total-one xs)

  pub total-le-length : (w : A → ℕ) → ((x : A) → w x ≤ 1) → (xs : List A) → total w xs ≤ length xs
  total-le-length w h [] = omega arith
  total-le-length w h (x ∷ xs) = omega (arith, h x, total-le-length w h xs)

  -- The list without entry `i`.
  abbrev pub remove_at : List A → ℕ → List A
  remove_at [] i = []
  remove_at (x ∷ xs) zero = xs
  remove_at (x ∷ xs) (suc i) = x ∷ remove_at xs i

  pub All-remove_at {κ} : (P : A → Type κ) (xs : List A) (i : ℕ) → All P xs → All P (remove_at xs i)
  All-remove_at P [] i a = tt
  All-remove_at P (y ∷ ys) zero a = a.1
  All-remove_at P (y ∷ ys) (suc i) a = (a.0, All-remove_at P ys i a.1)

  pub total-remove_at :
      (w : A → ℕ) (xs : List A) (i : ℕ) (x : A)
      → get_elem? xs i ≡ some x
      → total w (remove_at xs i) + w x ≡ total w xs
  total-remove_at w [] i x e = absurd (cc)
  total-remove_at w (z ∷ zs) zero x e = omega (arith, ap w (some_inj e))
  total-remove_at w (z ∷ zs) (suc i) x e = omega (arith, total-remove_at w zs i x e)

  pub total-append : (w : A → ℕ) (xs ys : List A) → total w (xs ++ ys) ≡ total w xs + total w ys
  total-append w [] ys = omega arith
  total-append w (x ∷ xs) ys = omega (arith, total-append w xs ys)

  pub pop_last-none : (w : A → ℕ) (xs : List A) → pop_last xs ≡ none → total w xs ≡ 0
  pop_last-none w [] e = refl
  pop_last-none w (z ∷ zs) e = by_rest (pop_last zs) refl
    where
      by_rest : (o : Option (A × List A)) → pop_last zs ≡ o → total w (z ∷ zs) ≡ 0
      by_rest none q = let e' = rw q at e in absurd (cc)
      by_rest (some (y, ys)) q = let e' = rw q at e in absurd (cc)

  pub total-pop_last :
      (w : A → ℕ) (xs rest : List A) (x : A)
      → pop_last xs ≡ some (x, rest)
      → total w rest + w x ≡ total w xs
  total-pop_last w [] rest x e = absurd (cc)
  total-pop_last w (z ∷ zs) rest x e =
      by_rest (λ y ys q. total-pop_last w zs ys y q) (pop_last zs) refl
    where
      whole :
          {y : A} {ys : List A}
          → ◌≡◌ {A = Option (A × List A)} (some (y, ys)) (some (x, rest))
          → (w y ≡ w x) × (total w ys ≡ total w rest)
      whole q = (
        ap (λ o. elim o [ none ↦ 0 | some r ↦ w r.0 ]) q,
        ap (λ o. elim o [ none ↦ 0 | some r ↦ total w r.1 ]) q,
      )

      by_rest :
          ((y : A) (ys : List A) → pop_last zs ≡ some (y, ys) → total w ys + w y ≡ total w zs)
          → (o : Option (A × List A)) → pop_last zs ≡ o
          → total w rest + w x ≡ total w (z ∷ zs)
      by_rest up none q = omega (arith, whole (rw q at e), pop_last-none w zs q)
      by_rest up (some (y, ys)) q = omega (arith, whole (rw q at e), up y ys q)

  pub All-both {κ μ ν} :
      {P : A → Type κ} {Q : A → Type μ} {R : A → Type ν}
      → ((x : A) → P x → Q x → R x)
      → (xs : List A) → All P xs
      → All Q xs
      → All R xs
  All-both f [] a b = tt
  All-both f (x ∷ xs) a b = (f x a.0 b.0, All-both f xs a.1 b.1)

  pub All-append {κ} :
      (P : A → Type κ) (xs : List A) (x : A) → All P xs → P x → All P (xs ++ (x ∷ []))
  All-append P [] x a p = (p, tt)
  All-append P (y ∷ ys) x a p = (a.0, All-append P ys x a.1 p)

  pub All-pop_last {κ} :
      (P : A → Type κ) (xs rest : List A) (x : A)
      → pop_last xs ≡ some (x, rest)
      → All P xs
      → P x × All P rest
  All-pop_last P [] rest x e a = absurd (cc)
  All-pop_last P (z ∷ zs) rest x e a =
      by_rest (λ y ys q. All-pop_last P zs ys y q a.1) (pop_last zs) refl
    where
      whole :
          (y : A) (ys : List A)
          → P y × All P ys
          → ◌≡◌ {A = Option (A × List A)} (some (y, ys)) (some (x, rest))
          → P x × All P rest
      whole y ys p q =
          let ex : y ≡ x = ap (λ o. elim o [ none ↦ y | some r ↦ r.0 ]) q in
          let er : ys ≡ rest = ap (λ o. elim o [ none ↦ ys | some r ↦ r.1 ]) q in rw (← ex, ← er) p

      by_rest :
          ((y : A) (ys : List A) → pop_last zs ≡ some (y, ys) → P y × All P ys)
          → (o : Option (A × List A)) → pop_last zs ≡ o
          → P x × All P rest
      by_rest up none q = whole z [] (a.0, tt) (rw q at e)
      by_rest up (some (y, ys)) q =
          let (p, ps) = up y ys q in whole y (z ∷ ys) (p, (a.0, ps)) (rw q at e)

  pub total-take-set :
      (w : A → ℕ) (xs : List A) (i : ℕ) (x : A)
      → suc i ≤ length xs
      → total w (take (suc i) (set xs i x)) ≡ total w (take i xs) + w x
  total-take-set w [] i x h = absurd (omega arith)
  total-take-set w (z ∷ zs) zero x h = omega arith
  total-take-set w (z ∷ zs) (suc i) x h = omega (arith, total-take-set w zs i x (omega arith))

  pub total-eq-zero : (w : A → ℕ) (xs : List A) → All (λ x. w x ≡ 0) xs → total w xs ≡ 0
  total-eq-zero w [] a = refl
  total-eq-zero w (x ∷ xs) a = omega (arith, a.0, total-eq-zero w xs a.1)

  pub total_mono : (v w : A → ℕ) → ((x : A) → v x ≤ w x) → (xs : List A) → total v xs ≤ total w xs
  total_mono v w h [] = omega arith
  total_mono v w h (x ∷ xs) = omega (arith, h x, total_mono v w h xs)

  -- A total that is not 0 has an entry that counts.
  pub total-witness :
      (w : A → ℕ) (xs : List A)
      → total w xs ≢ 0
      → (i : ℕ) × (x : A) × (get_elem? xs i ≡ some x) × (w x ≢ 0)
  total-witness w [] h = absurd (h refl)
  total-witness w (x ∷ xs) h = elim (ℕ_discrete (w x) 0) [
    | yes z ↦ let (i, y, e, n) = total-witness w xs (λ q. h (omega arith)) in (suc i, y, e, n)
    | no n ↦ (0, x, refl, n)
  ]

module _ {ℓ κ} {A : Type ℓ} {B : Type κ} where
  pub total-map :
      (w : B → ℕ) (f : A → B) (xs : List A) → total w (map f xs) ≡ total (λ x. w (f x)) xs
  total-map w f [] = refl
  total-map w f (x ∷ xs) = omega (arith, total-map w f xs)

  pub All-map {μ} :
      (P : B → Type μ) (f : A → B) → ((x : A) → P (f x)) → (xs : List A) → All P (map f xs)
  All-map P f h [] = tt
  All-map P f h (x ∷ xs) = (h x, All-map P f h xs)
