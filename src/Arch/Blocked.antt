-- ===== src/Arch/Blocked.antt =====
-- `BlockedArch` of src/lamellar_arch.rs: a block of consecutive PEs of the parent.
use lamellar_runtime.Prelude.{
  ℕ, ◌+◌, ◌-◌, ◌^◌, ◌<◌, ◌&&◌, arith, ltb, leb, if◌then◌else◌, add_usize, sub_usize,
}
use lamellar_runtime.Arch.{ArchResult, ok, err, LamellarArch, IsLawful}

pub record BlockedArch : Type 0 where
  pub pes : ℕ
  pub first : ℕ
  pub last : ℕ

unfoldable pub new : ℕ → ℕ → BlockedArch
new start_pe num_team_pes = record {
  pes = num_team_pes;
  first = start_pe;
  last = sub_usize (add_usize start_pe num_team_pes) 1;
}

unfoldable pub num_pes : BlockedArch → ℕ
num_pes a = a.pes

unfoldable pub start_pe : BlockedArch → ℕ
start_pe a = a.first

unfoldable pub end_pe : BlockedArch → ℕ
end_pe a = a.last

unfoldable pub parent_pe_id : BlockedArch → ℕ → ArchResult ℕ
parent_pe_id a team_pe =
    let parent_pe = add_usize a.first team_pe in
    if leb a.first parent_pe && leb parent_pe a.last && ltb team_pe a.pes
    then ok parent_pe
    else err (record { parent_pe = parent_pe; team_pe = team_pe })

unfoldable pub team_pe_id : BlockedArch → ℕ → ArchResult ℕ
team_pe_id a parent_pe =
    if leb a.first parent_pe && leb parent_pe a.last
    then (let team_pe = parent_pe - a.first in
        if ltb team_pe a.pes
        then ok team_pe
        else err (record { parent_pe = parent_pe; team_pe = team_pe }))
    else err (record { parent_pe = parent_pe; team_pe = 0 })

abbrev pub methods : BlockedArch → LamellarArch
methods a = record {
  num_pes = num_pes a;
  start_pe = start_pe a;
  end_pe = end_pe a;
  parent_pe_id = parent_pe_id a;
  team_pe_id = team_pe_id a;
}

-- The blocked arch that `new` builds keeps the laws of the trait, where it has a PE and its ids are below
-- 2^64 - 1.
pub new_blocked-IsLawful :
    (start n : ℕ) → 0 < n → start + n < 2 ^ 64 → IsLawful (methods (new start n))
unfolding new num_pes start_pe end_pe parent_pe_id team_pe_id
new_blocked-IsLawful start n some_pes small = record {
  known = λ t h. (start + t, ground arith, ground arith);
  unknown = λ t h. (record { parent_pe = add_usize start t; team_pe = t }, ground arith);
  back = λ p t h. ground arith;
  range = λ t p h. ground arith;
}
