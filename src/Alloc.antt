-- ===== src/Alloc.antt =====
-- src/lamellar_alloc.rs: the allocators behind the runtime's RDMA heaps, and the padding that
-- they share.
pub mod Linear
pub mod BTree
pub mod Obj
pub mod Padding
use lamellar_runtime.Prelude.{ℕ, ◌-◌, ◌%◌, ◌==◌, if◌then◌else◌}

-- `%` by zero panics in the source; every statement about the padding asks for `0 < align`.
unfoldable pub calc_padding : ℕ → ℕ → ℕ
calc_padding addr align = let rem = addr % align in if rem == 0 then 0 else align - rem
