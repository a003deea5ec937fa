-- ===== src/Arch/Global.antt =====
-- `GlobalArch` of src/lamellar_arch.rs: all PEs of the world.
use lamellar_runtime.Prelude.{ℕ, ◌^◌, ◌<◌, arith, ltb, if◌then◌else◌, sub_usize}
use lamellar_runtime.Arch.{ArchResult, ok, err, LamellarArch, IsLawful}

pub record GlobalArch : Type 0 where
  pub pes : ℕ

unfoldable pub new : ℕ → GlobalArch
new num_pes = record { pes = num_pes }

unfoldable pub num_pes : GlobalArch → ℕ
num_pes a = a.pes

unfoldable pub start_pe : GlobalArch → ℕ
start_pe a = 0

unfoldable pub end_pe : GlobalArch → ℕ
end_pe a = sub_usize a.pes 1

unfoldable pub parent_pe_id : GlobalArch → ℕ → ArchResult ℕ
parent_pe_id a team_pe =
    if ltb team_pe a.pes
    then ok team_pe
    else err (record { parent_pe = team_pe; team_pe = team_pe })

unfoldable pub team_pe_id : GlobalArch → ℕ → ArchResult ℕ
team_pe_id a parent_pe =
    if ltb parent_pe a.pes
    then ok parent_pe
    else err (record { parent_pe = parent_pe; team_pe = parent_pe })

abbrev pub methods : GlobalArch → LamellarArch
methods a = record {
  num_pes = num_pes a;
  start_pe = start_pe a;
  end_pe = end_pe a;
  parent_pe_id = parent_pe_id a;
  team_pe_id = team_pe_id a;
}

-- The world's arch keeps the laws of the trait.
pub new_global-IsLawful : (n : ℕ) → n < 2 ^ 64 → IsLawful (methods (new n))
unfolding new num_pes start_pe end_pe parent_pe_id team_pe_id
new_global-IsLawful n small = record {
  known = λ t h. (t, ground arith, ground arith);
  unknown = λ t h. (record { parent_pe = t; team_pe = t }, ground arith);
  back = λ p t h. ground arith;
  range = λ t p h. ground arith;
}
