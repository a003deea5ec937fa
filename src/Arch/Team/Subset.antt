-- ===== src/Arch/Team/Subset.antt =====
-- The assertions of `LamellarArchRT::new`. They compare the ids of the new team, which count in its
-- parent, with those of the parent's arch, which count in the parent's parent.
use lamellar_runtime.Prelude.{ℕ, zero, suc, ◌-◌, ◌^◌, ◌<◌, ◌≡◌, refl, subst, none, some, arith}
use lamellar_runtime.Arch.{IdError, ok, err, IsLawful}
use lamellar_runtime.Arch.Global
use lamellar_runtime.Arch.Strided
use lamellar_runtime.Arch.Blocked
use lamellar_runtime.Arch.Any
use lamellar_runtime.Arch.Any.{LamellarArchEnum, global, strided, blocked, dynamic}
use lamellar_runtime.Arch.Team.{LamellarArchRt, root, child, arch, num_pes, new, world_pe}
use lamellar_runtime.Arch.Team.Ids.{IsTeam}

-- A team that `new` makes of a lawful arch directly below a world of 1 to 2^64 - 1 PEs is sound: its ids
-- are ids of the world.
pub new-IsTeam :
    (n : ℕ) (a : LamellarArchEnum) (t : LamellarArchRt)
    → 0 < n
    → n < 2 ^ 64
    → IsLawful (Any.methods a)
    → new (root (global (Global.new n)) n) a ≡ some t
    → IsTeam t
unfolding new arch num_pes Any.new Any.start_pe Any.end_pe Any.num_pes Global.new Global.num_pes
    Global.end_pe Any.parent_pe_id Global.parent_pe_id Any.team_pe_id Global.team_pe_id
new-IsTeam n a t pos small lawful made =
    subst IsTeam inverted.0 ((Global.new_global-IsLawful n small, refl), lawful, refl, inverted.1)
  where
    inverted : (child (root (global (Global.new n)) n) a (Any.num_pes a) ≡ t) × (Any.end_pe a < n)
    inverted = ground arith

-- Where the parent's first id is not 0, a team that begins at an id of the parent below it is
-- refused, whatever PEs it has.
pub new_refuses :
    (parent : LamellarArchRt) (a : LamellarArchEnum)
    → Any.start_pe a < Any.start_pe (arch parent)
    → new parent a ≡ none
unfolding new
new_refuses parent a below = ground arith

-- Below a team of `n` PEs, every second one of its parent from 0 on, with 1 < n < 2^32, `new` accepts the
-- block of one PE that begins behind the team's last id, and none of its ids translates.
pub new_accepts_missing :
    (grand : LamellarArchRt) (n : ℕ)
    → 1 < n
    → n < 2 ^ 32
    → (t : LamellarArchRt) × (new
          (child grand (strided (Strided.new 0 2 n)) n)
          (blocked (Blocked.new n 1))
        ≡ some t)
      × ((pe : ℕ) → (e : IdError) × (world_pe t pe ≡ err e))
unfolding new arch num_pes Any.new Any.start_pe Any.end_pe Any.num_pes Any.parent_pe_id Strided.new
    Strided.num_pes Strided.start_pe Strided.end_pe Strided.parent_pe_id Blocked.new Blocked.num_pes
    Blocked.start_pe Blocked.end_pe Blocked.parent_pe_id world_pe
new_accepts_missing grand n many small = (
  child (child grand (strided (Strided.new 0 2 n)) n) (blocked (Blocked.new n 1)) 1,
  ground (arith, Strided.advance-eq (n - 1) 2 0 (omega arith)),
  λ pe. missing pe,
)
  where
    missing :
        (pe : ℕ)
        → (e : IdError) × (world_pe
              (child (child grand (strided (Strided.new 0 2 n)) n) (blocked (Blocked.new n 1)) 1)
              pe
            ≡ err e)
    missing zero =
        let (e, failed) =
          (Strided.new_strided-IsLawful 0 2 n (omega arith) (omega arith)).unknown n
            (omega arith) in
        let at_n : Blocked.parent_pe_id (Blocked.new n 1) 0 ≡ ok n = ground arith in
        (e, rw (at_n, failed))
    missing (suc k) =
        let (e, failed) =
          (Blocked.new_blocked-IsLawful n 1 (omega arith) (omega arith)).unknown (suc k)
            (omega arith) in
        (e, rw failed)
