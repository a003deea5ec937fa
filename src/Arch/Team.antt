-- ===== src/Arch/Team.antt =====
-- `LamellarArchRT` of src/lamellar_arch.rs: a chain of teams, each an arch over the ids of its parent.
-- The root's parent ids are the world's.
pub mod Ids
pub mod Iterate
pub mod Subset
mod Tests
use lamellar_runtime.Prelude.{
  ℕ, zero, suc, ◌+◌, ◌-◌, ◌*◌, ◌/◌, ◌%◌, ◌^◌, ◌≤◌, ◌<◌, min, max, ◌≡◌, refl, sym, ap, ◌∙◌, subst,
  ◌≢◌, ◌↔◌, ◌⊎◌, inl, inr, Bool, true, false, ◌&&◌, ◌||◌, not, Option, none, some, List, [], ◌∷◌,
  ◌++◌, map, arith, dec_lt, dec_le, ℕ_discrete, ltb, leb, ◌==◌, if◌then◌else◌, ltb→lt, lt→ltb,
  le→ltb, leb→le, le→leb, leb→lt, eq→==, ==→eq, Bool-cases, Option-cases, is_some, length,
  get_elem?, insert_at, pop_last, All, All-imp, pop_last-append, length-append, usize_mod,
  add_usize, sub_usize, mul_usize, mul_le, mul_lt,
}
use lamellar_runtime.Arch.{ArchResult, ok, err, ◌>>=◌}
use lamellar_runtime.Arch.Any
use lamellar_runtime.Arch.Any.{LamellarArchEnum}

-- The constructors are the two cases of the field `parent`; the last field is `num_pes`.
pub data LamellarArchRt : Type 0 where
  root : LamellarArchEnum → ℕ → LamellarArchRt
  child : LamellarArchRt → LamellarArchEnum → ℕ → LamellarArchRt

unfoldable pub arch : LamellarArchRt → LamellarArchEnum
arch (root a n) = a
arch (child parent a n) = a

unfoldable pub num_pes : LamellarArchRt → ℕ
num_pes (root a n) = n
num_pes (child parent a n) = n

-- `none` is a failed assertion: of the two here, and of `LamellarArchEnum::new`.
unfoldable pub new : LamellarArchRt → LamellarArchEnum → Option LamellarArchRt
unfolding Any.new arch num_pes
new parent a =
    let arch_first = Any.start_pe a in
    let arch_last = Any.end_pe a in
    let first = Any.start_pe (arch parent) in
    let last = Any.end_pe (arch parent) in
    if leb (Any.num_pes a) (num_pes parent)
      && (leb first arch_first && leb arch_first last && leb first arch_last && leb arch_last last)
    then (elim (Any.new a) [ none ↦ none | some a' ↦ some (child parent a' (Any.num_pes a)) ])
    else none

unfoldable pub world_pe : LamellarArchRt → ℕ → ArchResult ℕ
world_pe (root a n) team_pe = Any.parent_pe_id a team_pe
world_pe (child parent a n) team_pe = do
  parent_pe ← Any.parent_pe_id a team_pe
  world_pe parent parent_pe

unfoldable pub team_pe : LamellarArchRt → ℕ → ArchResult ℕ
team_pe (root a n) world = Any.team_pe_id a world
team_pe (child parent a n) world = do parent_pe ← team_pe parent world; Any.team_pe_id a parent_pe

-- `LamellarArchRTiter`; `cur_pe` is an id of the team.
pub record Iter : Type 0 where
  pub team : LamellarArchRt
  pub cur_pe : ℕ
  pub single : Bool

unfoldable pub team_iter : LamellarArchRt → Iter
team_iter t = record { team = t; cur_pe = 0; single = false }

unfoldable pub single_iter : LamellarArchRt → ℕ → Iter
single_iter t pe = record { team = t; cur_pe = pe; single = true }

-- `Result::ok`
abbrev pub to_option {ℓ} : {A : Type ℓ} → ArchResult A → Option A
to_option (ok a) = some a
to_option (err e) = none

unfoldable pub next : Iter → Option ℕ × Iter
unfolding num_pes
next it =
    if ltb it.cur_pe (num_pes it.team)
    then (
      to_option (world_pe it.team it.cur_pe),
      record it { cur_pe = if it.single then num_pes it.team else add_usize it.cur_pe 1 },
    )
    else (none, it)

-- What `collect` makes of an iterator, with fuel: it stops at the first `None`.
unfoldable pub collect : ℕ → Iter → List ℕ
unfolding next
collect zero it = []
collect (suc fuel) it =
    let (pe, it') = next it in
    let rest = collect fuel it' in elim pe [ none ↦ [] | some w ↦ w ∷ rest ]
