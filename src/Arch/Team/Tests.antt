-- ===== src/Arch/Team/Tests.antt =====
-- The teams that the tests of src/lamellar_arch.rs build, and the theorems at them.
use lamellar_runtime.Prelude.{ℕ, ◌≡◌, refl, some, [], ◌∷◌, arith}
use lamellar_runtime.Arch.{IdError, ok, err, IsLawful}
use lamellar_runtime.Arch.Global
use lamellar_runtime.Arch.Strided
use lamellar_runtime.Arch.Blocked
use lamellar_runtime.Arch.Any
use lamellar_runtime.Arch.Any.{LamellarArchEnum, global, strided, blocked, dynamic}
use lamellar_runtime.Arch.Team.{
  LamellarArchRt, root, child, arch, num_pes, new, world_pe, team_pe, team_iter, collect,
}
use lamellar_runtime.Arch.Team.Ids.{IsTeam, world_pe-known}
use lamellar_runtime.Arch.Team.Subset.{new_accepts_missing}

-- `multi_level_sub_arches`: every second PE of 20, and every second PE of those from the second on.
abbrev garch : LamellarArchRt
garch = root (global (Global.new 20)) 20

abbrev evens : LamellarArchRt
evens = child garch (strided (Strided.new 0 2 10)) 10

abbrev fourths : LamellarArchRt
fourths = child evens (strided (Strided.new 1 2 5)) 5

garch-IsTeam : IsTeam garch
unfolding Any.num_pes Any.start_pe Any.end_pe Any.parent_pe_id Any.team_pe_id Global.num_pes
    Global.new
garch-IsTeam = (Global.new_global-IsLawful 20 (omega arith), refl)

evens-IsTeam : IsTeam evens
unfolding num_pes Any.num_pes Any.start_pe Any.end_pe Any.parent_pe_id Any.team_pe_id
    Strided.num_pes Strided.new Strided.end_pe Strided.advance
evens-IsTeam = (
  garch-IsTeam,
  Strided.new_strided-IsLawful 0 2 10 (omega arith) (omega arith),
  refl,
  omega arith,
)

fourths-IsTeam : IsTeam fourths
unfolding num_pes Any.num_pes Any.start_pe Any.end_pe Any.parent_pe_id Any.team_pe_id
    Strided.num_pes Strided.new Strided.end_pe Strided.advance
fourths-IsTeam = (
  evens-IsTeam,
  Strided.new_strided-IsLawful 1 2 5 (omega arith) (omega arith),
  refl,
  omega arith,
)

-- The source's test: the PEs 2, 6, 10, 14 and 18.
fourths_pes : collect 6 (team_iter fourths) ≡ 2 ∷ 6 ∷ 10 ∷ 14 ∷ 18 ∷ []
unfolding collect team_iter num_pes world_pe Any.parent_pe_id Global.parent_pe_id Global.new
    Strided.parent_pe_id Strided.new Strided.advance
fourths_pes = refl

-- `new` builds the same teams.
evens_made : new garch (strided (Strided.new 0 2 10)) ≡ some evens
unfolding new arch num_pes Any.new Any.num_pes Any.start_pe Any.end_pe Global.num_pes
    Global.start_pe Global.end_pe Global.new Strided.num_pes Strided.start_pe Strided.end_pe
    Strided.new Strided.advance
evens_made = refl

new_strided-IsLawful_example : IsLawful (Strided.methods (Strided.new 1 2 5))
new_strided-IsLawful_example = Strided.new_strided-IsLawful 1 2 5 (omega arith) (omega arith)

world_pe-known_example : (w : ℕ) × (world_pe fourths 3 ≡ ok w) × (team_pe fourths w ≡ ok 3)
unfolding num_pes
world_pe-known_example = world_pe-known fourths 3 fourths-IsTeam (omega arith)

-- A team of the PEs 1, 3, …, 9, of which a client asks for the first two.
abbrev odds : LamellarArchRt
odds = child garch (strided (Strided.new 1 2 5)) 5

new_accepts_missing_example :
    (t : LamellarArchRt) × (new evens (blocked (Blocked.new 10 1)) ≡ some t)
    × ((pe : ℕ) → (e : IdError) × (world_pe t pe ≡ err e))
new_accepts_missing_example = new_accepts_missing garch 10 (omega arith) (omega arith)
