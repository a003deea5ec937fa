-- ===== src/Array.antt =====
-- src/array/unsafe.rs: which PE holds which element of a distributed array. `Block` and `Cyclic` are the
-- two arms of each function's `match self.distribution`; this file has the struct, the floating
-- point operations that the block arm uses, and the operations that only dispatch.
pub mod Inner
pub mod Block
pub mod Cyclic
pub mod New
pub mod Iter
pub mod Rdma
use lamellar_runtime.Prelude.{
  ℕ, zero, suc, ◌+◌, ◌-◌, ◌*◌, ◌/◌, ◌%◌, ◌^◌, ◌≤◌, ◌<◌, min, max, ◌≡◌, refl, sym, ap, ◌∙◌, subst,
  ◌≢◌, ◌↔◌, ◌⊎◌, inl, inr, Bool, true, false, ◌&&◌, ◌||◌, not, Option, none, some, List, [], ◌∷◌,
  ◌++◌, map, set, remove_at, All-remove_at, total-remove_at, total-append, total-pop_last, arith,
  dec_lt, dec_le, ℕ_discrete, ltb, leb, ◌==◌, if◌then◌else◌, ltb→lt, lt→ltb, le→ltb, leb→le, le→leb,
  leb→lt, eq→==, ==→eq, ne→==, Bool-cases, Option-cases, is_some, length, get_elem?, insert_at,
  pop_last, All, All-imp, pop_last-append, length-append, length-set, All-get_elem?, All-set, total,
  total-set, get_elem?-le-total, total-two, total-le-length, total-eq-zero, total_mono,
  total-witness, usize_mod, add_usize, sub_usize, mul_usize, mul_le, mul_lt,
}
use lamellar_runtime.Array.Inner.{Float, Distribution, block, cyclic, UnsafeArrayInner}
use lamellar_runtime.Array.Block
use lamellar_runtime.Array.Cyclic

-- The bounds of a range of `sub_array`.
pub data Bound : Type 0 where
  included : ℕ → Bound
  excluded : ℕ → Bound
  unbounded : Bound

unfoldable pub range_start : Bound → ℕ
range_start (included idx) = idx
range_start (excluded idx) = add_usize idx 1
range_start unbounded = 0

unfoldable pub range_end : ℕ → Bound → ℕ
range_end size (included idx) = add_usize idx 1
range_end size (excluded idx) = idx
range_end size unbounded = size

module _ (f : Float) where
  -- `none` is the panic on a range that ends behind the array.
  unfoldable pub sub_array : UnsafeArrayInner f.F → Bound → Bound → Option (UnsafeArrayInner f.F)
  unfolding range_start range_end
  sub_array a from to =
      let start = range_start from in
      let end = range_end a.size to in
      if ltb a.size end
      then none
      else some (record a { offset = add_usize a.offset start; size = sub_usize end start })

  unfoldable pub per_pe_size : ℕ → ℕ → ℕ
  per_pe_size full_array_size num_pes =
      f.ceil (f.div (f.from_usize full_array_size) (f.from_usize num_pes))

  -- The bytes of memory that `new` asks for on each PE, and the array that it returns. The team, and with it the
  -- barrier, the memory region and the counters, are other parts of the runtime.
  unfoldable pub new : ℕ → ℕ → ℕ → ℕ → Distribution → ℕ × Option (UnsafeArrayInner f.F)
  unfolding per_pe_size sub_array
  new my_pe num_pes size_of array_size distribution =
      let full_array_size = max array_size num_pes in
      let array : UnsafeArrayInner f.F = record {
        my_pe = my_pe;
        num_pes = num_pes;
        distribution = distribution;
        orig_elem_per_pe = f.div (f.from_usize full_array_size) (f.from_usize num_pes);
        elem_size = size_of;
        offset = 0;
        size = full_array_size;
      } in
      (
        mul_usize (per_pe_size full_array_size num_pes) size_of,
        if full_array_size == array_size
            then some array
            else sub_array array (included 0) (excluded array_size),
      )

  unfoldable pub use_distribution : UnsafeArrayInner f.F → Distribution → UnsafeArrayInner f.F
  use_distribution a distribution = record a { distribution = distribution }

  unfoldable pub len : UnsafeArrayInner f.F → ℕ
  len a = a.size

  unfoldable pub sub_array_range : UnsafeArrayInner f.F → ℕ × ℕ
  sub_array_range a = (a.offset, add_usize a.offset a.size)

  unfoldable pub global_index : UnsafeArrayInner f.F → ℕ → ℕ
  global_index a sub_index = add_usize a.offset sub_index

  unfoldable pub pe_for_dist_index : UnsafeArrayInner f.F → ℕ → Option ℕ
  pe_for_dist_index a index = elim a.distribution [
    | block ↦ Block.pe_for_dist_index f a index
    | cyclic ↦ Cyclic.pe_for_dist_index a index
  ]

  unfoldable pub pe_offset_for_dist_index : UnsafeArrayInner f.F → ℕ → ℕ → Option ℕ
  pe_offset_for_dist_index a pe index = elim a.distribution [
    | block ↦ Block.pe_offset_for_dist_index f a pe index
    | cyclic ↦ Cyclic.pe_offset_for_dist_index a pe index
  ]

  unfoldable pub start_index_for_pe : UnsafeArrayInner f.F → ℕ → Option ℕ
  start_index_for_pe a pe = elim a.distribution [
    | block ↦ Block.start_index_for_pe f a pe
    | cyclic ↦ Cyclic.start_index_for_pe a pe
  ]

  unfoldable pub num_elems_pe : UnsafeArrayInner f.F → ℕ → Option ℕ
  num_elems_pe a pe = elim a.distribution [
    | block ↦ some (Block.num_elems_pe f a pe)
    | cyclic ↦ Cyclic.num_elems_pe a pe
  ]

  unfoldable pub num_elems_local : UnsafeArrayInner f.F → Option ℕ
  unfolding num_elems_pe
  num_elems_local a = num_elems_pe a a.my_pe

  unfoldable pub first_global_index_for_pe : UnsafeArrayInner f.F → ℕ → Option ℕ
  unfolding start_index_for_pe
  first_global_index_for_pe a pe = start_index_for_pe a pe

  unfoldable pub end_index_for_pe : UnsafeArrayInner f.F → ℕ → Option ℕ
  end_index_for_pe a pe = elim a.distribution [
    | block ↦ Block.end_index_for_pe f a pe
    | cyclic ↦ Cyclic.end_index_for_pe a pe
  ]

  unfoldable pub last_global_index_for_pe : UnsafeArrayInner f.F → ℕ → Option ℕ
  unfolding end_index_for_pe
  last_global_index_for_pe a pe = end_index_for_pe a pe

  unfoldable pub global_index_from_local : UnsafeArrayInner f.F → ℕ → Option ℕ
  global_index_from_local a index = elim a.distribution [
    | block ↦ Block.global_index_from_local f a index
    | cyclic ↦ Cyclic.global_index_from_local a index
  ]

  unfoldable pub subarray_index_from_local : UnsafeArrayInner f.F → ℕ → Option ℕ
  subarray_index_from_local a index = elim a.distribution [
    | block ↦ Block.subarray_index_from_local f a index
    | cyclic ↦ Cyclic.subarray_index_from_local a index
  ]

  unfoldable pub pe_full_offset_for_local_index : UnsafeArrayInner f.F → ℕ → ℕ → Option ℕ
  pe_full_offset_for_local_index a pe index = elim a.distribution [
    | block ↦ Block.pe_full_offset_for_local_index f a pe index
    | cyclic ↦ Cyclic.pe_full_offset_for_local_index a pe index
  ]

  unfoldable pub pe_and_offset_for_global_index : UnsafeArrayInner f.F → ℕ → Option (ℕ × ℕ)
  unfolding pe_for_dist_index pe_offset_for_dist_index
  pe_and_offset_for_global_index a index = elim (pe_for_dist_index a index) [
    | none ↦ none
    | some pe ↦ (elim (pe_offset_for_dist_index a pe index) [
      | none ↦ none
      | some offset ↦ some (pe, offset)
    ])
  ]
