-- ===== src/Array/Inner.antt =====
-- `UnsafeArrayInner` of src/array/unsafe.rs with the fields of its `data` that the index functions
-- read, and the part of `f64` that they use.
use lamellar_runtime.Prelude.{ℕ}

pub data Distribution : Type 0 where
  block cyclic : Distribution

-- `f64`, as far as the index functions go: `as f64`, `*`, `/`, and `.round()`, `.floor()` and `.ceil()` with the
-- cast to `usize` behind them.
pub record Float : Type 1 where
  pub F : Type 0
  pub from_usize : ℕ → F
  pub mul : F → F → F
  pub div : F → F → F
  pub round : F → ℕ
  pub floor : F → ℕ
  pub ceil : F → ℕ

pub record UnsafeArrayInner (F : Type 0) : Type 0 where
  pub my_pe : ℕ
  pub num_pes : ℕ
  pub distribution : Distribution
  pub orig_elem_per_pe : F
  pub elem_size : ℕ
  pub offset : ℕ
  pub size : ℕ
