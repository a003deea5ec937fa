-- ===== src/Array/Block/Tests.antt =====
-- The theorems about the block arm at ten elements on three PEs: PE 0 holds 3 of them, PE 1 holds 4.
use lamellar_runtime.Prelude.{ℕ, ◌-◌, ◌≤◌, ◌<◌, ◌≡◌, some, arith}
use lamellar_runtime.Array.Inner.{UnsafeArrayInner}
use lamellar_runtime.Array.Block.{
  global_start, guess, num_elems_pe, pe_offset_for_dist_index, global_index_from_local,
  pe_full_offset_for_local_index, subarray_index_from_local,
}
use lamellar_runtime.Array.Block.Split.{Splits, IsValid, num_elems_pe_partition, elems_below}
use lamellar_runtime.Array.Block.Local.{offset_roundtrip}
use lamellar_runtime.Array.Block.Exact.{exact, whole, exact-Splits}

abbrev pub ten : UnsafeArrayInner (ℕ × ℕ)
ten = whole 10 3 1

-- Elements 2 to 8 of `ten`.
abbrev pub seven : UnsafeArrayInner (ℕ × ℕ)
seven = record ten { offset = 2; size = 7 }

ten-Splits : Splits exact ten 10
ten-Splits = exact-Splits 10 3 1 (omega arith) (omega arith)

seven-Splits : Splits exact seven 10
unfolding global_start guess
seven-Splits = record {
  first = ten-Splits.first;
  last = ten-Splits.last;
  mono = ten-Splits.mono;
  low = ten-Splits.low;
  high = ten-Splits.high;
}

seven-IsValid : IsValid exact seven 10
seven-IsValid = record { inside = omega arith; small = omega arith }

start_one : global_start exact seven 1 ≤ 6
unfolding global_start
start_one = omega arith

start_two : 6 < global_start exact seven 2
unfolding global_start
start_two = omega arith

num_elems_pe_partition_example : elems_below exact seven 10 seven-Splits seven-IsValid 3 ≡ 7
num_elems_pe_partition_example = num_elems_pe_partition exact seven 10 seven-Splits seven-IsValid

offset_roundtrip_example :
    (place : ℕ) × (pe_offset_for_dist_index exact seven 1 4 ≡ some place)
    × (place < num_elems_pe exact seven 1)
    × (subarray_index_from_local exact seven place ≡ some 4)
    × (global_index_from_local exact seven place ≡ some 6)
    × (pe_full_offset_for_local_index exact seven 1 place ≡ some (6 - global_start exact seven 1))
offset_roundtrip_example =
    offset_roundtrip exact seven 10 seven-Splits seven-IsValid 4 (omega arith) start_one start_two
