-- ===== src/Array/Block/Local.antt =====
-- From an element of a block (sub)array to its place on its PE, and back.
use lamellar_runtime.Prelude.{ℕ, suc, ◌+◌, ◌-◌, ◌^◌, ◌≤◌, ◌<◌, ◌≡◌, some, arith}
use lamellar_runtime.Array.Inner.{Float, UnsafeArrayInner}
use lamellar_runtime.Array.Block.{
  global_start, num_elems_pe, pe_offset_for_dist_index, global_index_from_local,
  pe_full_offset_for_local_index, subarray_index_from_local,
}
use lamellar_runtime.Array.Block.Split.{Splits, IsValid}

module _ (f : Float) (a : UnsafeArrayInner f.F) (len : ℕ) (splits : Splits f a len)
    (valid : IsValid f a len) where
  -- On the PE whose stretch holds an element of a valid (sub)array, with an arithmetic that splits the array
  -- as `Splits` asks, the element has a place, and `subarray_index_from_local`,
  -- `global_index_from_local` and `pe_full_offset_for_local_index` lead from the place back to the
  -- element's index in the (sub)array, in the whole array and in the PE's memory.
  pub offset_roundtrip :
      (index : ℕ)
      → index < a.size
      → global_start f a a.my_pe ≤ a.offset + index
      → a.offset + index < global_start f a (suc a.my_pe)
      → (place : ℕ) × (pe_offset_for_dist_index f a a.my_pe index ≡ some place)
        × (place < num_elems_pe f a a.my_pe)
        × (subarray_index_from_local f a place ≡ some index)
        × (global_index_from_local f a place ≡ some (a.offset + index))
        × (pe_full_offset_for_local_index f a a.my_pe place
            ≡ some (a.offset + index - global_start f a a.my_pe))
  unfolding pe_offset_for_dist_index subarray_index_from_local global_index_from_local
      pe_full_offset_for_local_index
  offset_roundtrip index h low high = (
    index - (global_start f a a.my_pe - a.offset),
    ground (arith, facts, splits.mono a.my_pe, splits.mono (suc a.my_pe)),
    ground (arith, facts, splits.mono a.my_pe, splits.mono (suc a.my_pe)),
    ground (arith, facts),
    ground (arith, facts),
    ground (arith, facts),
  )
    where
      facts : (a.offset + a.size ≤ len) × (len < 2 ^ 63)
      facts = (valid.inside, valid.small)
