-- ===== src/Darc/Counts/Tallies.antt =====
-- The sums that the counts of the PEs are balanced against, and what a changed entry does to them.
use lamellar_runtime.Prelude.{
  ℕ, zero, suc, ◌+◌, ◌<◌, ◌≡◌, ◌≢◌, refl, sym, ap, Bool, Option, none, some, List, [], ◌∷◌, set,
  get_elem?, All, total, arith, ◌==◌, if◌then◌else◌, ◌⊎◌, inl, inr, usize_mod,
}
use lamellar_runtime.Darc.Counts.{DarcInner, FinishedAm, System}

abbrev pub one_if : Bool → ℕ
one_if b = if b then 1 else 0

abbrev pub value_of : Option ℕ → ℕ
value_of none = 0
value_of (some x) = x

abbrev pub nth : List ℕ → ℕ → ℕ
nth xs i = value_of (get_elem? xs i)

-- The handles of PE `q` that are on their way, the references of `q` that the PEs have counted and not
-- reported, and those that are reported to `q`.
abbrev pub on_the_way : ℕ → System → ℕ
on_the_way q s = total (λ (h : ℕ × ℕ). one_if (h.0 == q)) s.in_flight

abbrev pub counted : ℕ → System → ℕ
counted q s = total (λ (d : DarcInner). nth d.ref_cnts q) s.pes

abbrev pub reported : ℕ → System → ℕ
reported q s = total (λ (am : FinishedAm). if am.src_pe == q then am.cnt else 0) s.finished

pub record IsBalanced (s : System) : Type 0 where
  pub balance :
      (q : ℕ) (d : DarcInner)
      → get_elem? s.pes q ≡ some d
      → d.dist_cnt ≡ on_the_way q s + counted q s + reported q s
  pub bounded : All (λ d. d.dist_cnt < usize_mod) s.pes

pub some_inj : {A : Type 0} {x y : A} → some x ≡ some y → x ≡ y
some_inj e = cc

pub set-cases :
    {A : Type 0} (xs : List A) (i j : ℕ) (x y z : A)
    → get_elem? xs i ≡ some x
    → get_elem? (set xs i y) j ≡ some z
    → ((i ≡ j) × (z ≡ y)) ⊎ ((i ≢ j) × (get_elem? xs j ≡ some z))
set-cases [] i j x y z e f = absurd (cc)
set-cases (w ∷ ws) zero zero x y z e f = inl (refl, some_inj (sym f))
set-cases (w ∷ ws) zero (suc j) x y z e f = inr (λ h. absurd (omega arith), f)
set-cases (w ∷ ws) (suc i) zero x y z e f = inr (λ h. absurd (omega arith), f)
set-cases (w ∷ ws) (suc i) (suc j) x y z e f = elim (set-cases ws i j x y z e f) [
  | inl (h, k) ↦ inl (ap suc h, k)
  | inr (h, k) ↦ inr (λ g. h (omega (arith, g)), k)
]

pub nth-set :
    (xs : List ℕ) (i j x y : ℕ)
    → get_elem? xs i ≡ some x
    → nth (set xs i y) j + (if i == j then x else 0) ≡ nth xs j + (if i == j then y else 0)
nth-set [] i j x y e = absurd (cc)
nth-set (w ∷ ws) zero zero x y e = omega (arith, some_inj e)
nth-set (w ∷ ws) zero (suc j) x y e = ground arith
nth-set (w ∷ ws) (suc i) zero x y e = ground arith
nth-set (w ∷ ws) (suc i) (suc j) x y e = ground (arith, nth-set ws i j x y e)
