-- ===== src/Arch/Team/Ids.antt =====
-- The ids of a team and of the world: `world_pe` and `team_pe` along the whole chain.
use lamellar_runtime.Prelude.{ℕ, ◌≤◌, ◌<◌, ◌≡◌, refl, arith}
use lamellar_runtime.Arch.{IdError, ArchResult, ok, err, ◌>>=◌, IsLawful}
use lamellar_runtime.Arch.Any
use lamellar_runtime.Arch.Any.{LamellarArchEnum, global, strided, blocked, dynamic}
use lamellar_runtime.Arch.Team.{LamellarArchRt, root, child, num_pes, world_pe, team_pe}

-- Each arch of the chain keeps the laws of the trait, and its ids are ids of its parent.
abbrev pub IsTeam : LamellarArchRt → Type 0
IsTeam (root a n) = IsLawful (Any.methods a) × (n ≡ Any.num_pes a)
IsTeam (child parent a n) =
    IsTeam parent × IsLawful (Any.methods a) × (n ≡ Any.num_pes a) × (Any.end_pe a < num_pes parent)

-- Every id below the number of PEs of a sound team stands for a PE of the world, and translates back to
-- itself.
pub world_pe-known :
    (t : LamellarArchRt) (pe : ℕ)
    → IsTeam t
    → pe < num_pes t
    → (w : ℕ) × (world_pe t pe ≡ ok w) × (team_pe t w ≡ ok pe)
unfolding world_pe team_pe num_pes
world_pe-known (root a n) pe h below = h.0.known pe (omega arith)
world_pe-known (child parent a n) pe h below =
    let (p, to_parent, from_parent) = h.1.known pe (omega arith) in
    let inside = h.1.range pe p to_parent in
    let (w, to_world, from_world) = world_pe-known parent p h.0 (omega arith) in
    (w, rw to_parent to_world, rw from_world from_parent)

-- A PE of the world that has an id in a sound team is the PE of that id, and the id is one of the team.
pub team_pe-back :
    (t : LamellarArchRt) (w pe : ℕ)
    → IsTeam t
    → team_pe t w ≡ ok pe
    → (pe < num_pes t) × (world_pe t pe ≡ ok w)
unfolding world_pe team_pe num_pes
team_pe-back (root a n) w pe h e = let (below, back) = h.0.back w pe e in (omega arith, back)
team_pe-back (child parent a n) w pe h e =
    by_parent (λ p. team_pe-back parent w p h.0) (team_pe parent w) refl
  where
    goal : Type 0
    goal = (pe < n) × ((Any.parent_pe_id a pe >>= world_pe parent) ≡ ok w)

    by_parent :
        ((p : ℕ) → team_pe parent w ≡ ok p → (p < num_pes parent) × (world_pe parent p ≡ ok w))
        → (r : ArchResult ℕ) → team_pe parent w ≡ r
        → goal
    by_parent up (ok p) q =
        let step : Any.team_pe_id a p ≡ ok pe = rw q at e in
        let (below, to_parent) = h.1.back p pe step in (omega arith, rw to_parent (up p q).1)
    by_parent up (err f) q =
        let failed : ◌≡◌ {A = ArchResult ℕ} (err f) (ok pe) = rw q at e in absurd (cc)

-- In a sound team an id from the number of PEs on is an error.
pub world_pe-unknown :
    (t : LamellarArchRt) (pe : ℕ)
    → IsTeam t
    → num_pes t ≤ pe
    → (e : IdError) × (world_pe t pe ≡ err e)
unfolding world_pe num_pes
world_pe-unknown (root a n) pe h above = h.0.unknown pe (omega arith)
world_pe-unknown (child parent a n) pe h above =
    let (e, failed) = h.1.unknown pe (omega arith) in (e, rw failed)
