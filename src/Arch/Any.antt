-- ===== src/Arch/Any.antt =====
-- `LamellarArchEnum` of src/lamellar_arch.rs: dispatch without a virtual call where the type of the
-- arch is known.
use lamellar_runtime.Prelude.{ℕ, Option, none, some, ltb, if◌then◌else◌}
use lamellar_runtime.Arch.{ArchResult, LamellarArch}
use lamellar_runtime.Arch.Global
use lamellar_runtime.Arch.Strided
use lamellar_runtime.Arch.Blocked

pub data LamellarArchEnum : Type 0 where
  global : Global.GlobalArch → LamellarArchEnum
  strided : Strided.StridedArch → LamellarArchEnum
  blocked : Blocked.BlockedArch → LamellarArchEnum
  dynamic : LamellarArch → LamellarArchEnum

unfoldable pub num_pes : LamellarArchEnum → ℕ
num_pes (global a) = Global.num_pes a
num_pes (strided a) = Strided.num_pes a
num_pes (blocked a) = Blocked.num_pes a
num_pes (dynamic a) = a.num_pes

unfoldable pub start_pe : LamellarArchEnum → ℕ
start_pe (global a) = Global.start_pe a
start_pe (strided a) = Strided.start_pe a
start_pe (blocked a) = Blocked.start_pe a
start_pe (dynamic a) = a.start_pe

unfoldable pub end_pe : LamellarArchEnum → ℕ
end_pe (global a) = Global.end_pe a
end_pe (strided a) = Strided.end_pe a
end_pe (blocked a) = Blocked.end_pe a
end_pe (dynamic a) = a.end_pe

unfoldable pub parent_pe_id : LamellarArchEnum → ℕ → ArchResult ℕ
parent_pe_id (global a) team_pe = Global.parent_pe_id a team_pe
parent_pe_id (strided a) team_pe = Strided.parent_pe_id a team_pe
parent_pe_id (blocked a) team_pe = Blocked.parent_pe_id a team_pe
parent_pe_id (dynamic a) team_pe = a.parent_pe_id team_pe

unfoldable pub team_pe_id : LamellarArchEnum → ℕ → ArchResult ℕ
team_pe_id (global a) world_pe = Global.team_pe_id a world_pe
team_pe_id (strided a) world_pe = Strided.team_pe_id a world_pe
team_pe_id (blocked a) world_pe = Blocked.team_pe_id a world_pe
team_pe_id (dynamic a) world_pe = a.team_pe_id world_pe

-- The constructor stands for the concrete type that `downcast_ref` finds; `none` is the failed
-- assertion on an arch without PEs.
unfoldable pub new : LamellarArchEnum → Option LamellarArchEnum
new a = if ltb 0 (num_pes a) then some a else none

abbrev pub methods : LamellarArchEnum → LamellarArch
methods a = record {
  num_pes = num_pes a;
  start_pe = start_pe a;
  end_pe = end_pe a;
  parent_pe_id = parent_pe_id a;
  team_pe_id = team_pe_id a;
}
