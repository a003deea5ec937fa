-- ===== src/Array/Cyclic/Tests.antt =====
-- The theorems about the cyclic arm at elements 4 to 10 of an array, on three PEs, seen from PE 2.
use lamellar_runtime.Prelude.{ℕ, ◌≡◌, refl, some, arith}
use lamellar_runtime.Array.Inner.{Distribution, UnsafeArrayInner}
use lamellar_runtime.Array.Cyclic.{
  start_index_for_pe, pe_offset_for_dist_index, global_index_from_local, subarray_index_from_local,
  pe_full_offset_for_local_index,
}
use lamellar_runtime.Array.Cyclic.Layout.{IsValid, start_index_for_pe-first}
use lamellar_runtime.Array.Cyclic.Local.{place_roundtrip}

abbrev pub dealt : UnsafeArrayInner ℕ
dealt = record {
  my_pe = 2;
  num_pes = 3;
  distribution = Distribution.cyclic;
  orig_elem_per_pe = 0;
  elem_size = 8;
  offset = 4;
  size = 7;
}

dealt-IsValid : IsValid dealt
dealt-IsValid = record { some_pes = omega arith; few_pes = omega arith; small = omega arith }

start_index_for_pe-first_example : start_index_for_pe dealt 2 ≡ some 1
start_index_for_pe-first_example =
    start_index_for_pe-first dealt dealt-IsValid 1 (omega arith) (omega arith)

place_roundtrip_example :
    (pe_offset_for_dist_index dealt 2 4 ≡ some 1)
    × (subarray_index_from_local dealt 1 ≡ some 4)
    × (global_index_from_local dealt 1 ≡ some 8)
    × (pe_full_offset_for_local_index dealt 2 1 ≡ some 2)
place_roundtrip_example = place_roundtrip dealt dealt-IsValid 1 1 (omega arith) (omega arith) refl
