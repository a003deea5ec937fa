-- ===== src/Arch.antt =====
-- src/lamellar_arch.rs: which PEs of a parent form a team, and how their ids translate. This file has
-- the trait and its error; each implementor is a module below, `Any` the enumeration of them, and
-- `Team` the chain of teams.
pub mod Global
pub mod Strided
pub mod Blocked
pub mod Any
pub mod Team
use lamellar_runtime.Prelude.{
  ℕ, zero, suc, ◌+◌, ◌-◌, ◌*◌, ◌/◌, ◌%◌, ◌^◌, ◌≤◌, ◌<◌, min, max, ◌≡◌, refl, sym, ap, ◌∙◌, subst,
  ◌≢◌, ◌↔◌, ◌⊎◌, inl, inr, Bool, true, false, ◌&&◌, ◌||◌, not, Option, none, some, List, [], ◌∷◌,
  ◌++◌, map, arith, dec_lt, dec_le, ℕ_discrete, ltb, leb, ◌==◌, if◌then◌else◌, ltb→lt, lt→ltb,
  le→ltb, leb→le, le→leb, leb→lt, eq→==, ==→eq, Bool-cases, Option-cases, is_some, length,
  get_elem?, insert_at, pop_last, All, All-imp, pop_last-append, length-append, usize_mod,
  add_usize, sub_usize, mul_usize, mul_le, mul_lt,
}

pub record IdError : Type 0 where
  pub parent_pe : ℕ
  pub team_pe : ℕ

-- `Result<T, IdError>`
pub data ArchResult {ℓ} (A : Type ℓ) : Type ℓ where
  ok : A → ArchResult A
  err : IdError → ArchResult A

infixl 5 ◌>>=◌
abbrev pub ◌>>=◌ {ℓ κ} :
    {A : Type ℓ} {B : Type κ} → ArchResult A → (A → ArchResult B) → ArchResult B
ok a >>= f = f a
err e >>= f = err e

-- The trait, as the table of its methods.
pub record LamellarArch : Type 0 where
  pub num_pes : ℕ
  pub start_pe : ℕ
  pub end_pe : ℕ
  pub parent_pe_id : ℕ → ArchResult ℕ
  pub team_pe_id : ℕ → ArchResult ℕ

-- What the documentation of the trait asks of an implementor: the ids below `num_pes`, and no
-- others, translate, the two translations undo one another, and the parent's ids lie between
-- `start_pe` and `end_pe`.
pub record IsLawful (a : LamellarArch) : Type 0 where
  pub known :
      (t : ℕ) → t < a.num_pes → (p : ℕ) × (a.parent_pe_id t ≡ ok p) × (a.team_pe_id p ≡ ok t)
  pub unknown : (t : ℕ) → a.num_pes ≤ t → (e : IdError) × (a.parent_pe_id t ≡ err e)
  pub back : (p t : ℕ) → a.team_pe_id p ≡ ok t → (t < a.num_pes) × (a.parent_pe_id t ≡ ok p)
  pub range : (t p : ℕ) → a.parent_pe_id t ≡ ok p → (a.start_pe ≤ p) × (p ≤ a.end_pe)
