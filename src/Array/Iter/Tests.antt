-- ===== src/Array/Iter/Tests.antt =====
-- PE 0 of two that hold 10 elements in blocks: its 5 elements are the first ones, and `subarray_index_from_local`
-- gives an index behind them too.
use lamellar_runtime.Prelude.{ℕ, ◌≡◌, refl, Option, some, [], ◌∷◌, arith}
use lamellar_runtime.Array.Inner.{UnsafeArrayInner}
use lamellar_runtime.Array.Block.{
  global_start, start_index_for_pe, num_elems_pe, subarray_index_from_local,
}
use lamellar_runtime.Array.Block.Exact.{exact, whole, exact-Splits}
use lamellar_runtime.Array.Iter.{DistIter, dist_iter, take_iter, collect}
use lamellar_runtime.Array.Iter.Chosen.{IsIndex, take_iter-chosen}
use lamellar_runtime.Array.Iter.Indexes.{block-IsIndex}

abbrev ten : UnsafeArrayInner (ℕ × ℕ)
ten = whole 10 2 0

abbrev index : ℕ → Option ℕ
index = subarray_index_from_local exact ten

five : num_elems_pe exact ten 0 ≡ 5
unfolding num_elems_pe start_index_for_pe global_start
five = refl

behind_part : index 5 ≡ some 5
unfolding subarray_index_from_local start_index_for_pe global_start
behind_part = refl

index-IsIndex : IsIndex 5 index
unfolding num_elems_pe start_index_for_pe global_start
index-IsIndex =
    block-IsIndex exact ten 10 (exact-Splits 10 2 0 (omega arith) (omega arith))
      (record { inside = omega arith; small = omega arith })

abbrev all_five : DistIter
all_five = record { cur_i = 0; end_i = 5 }

take_iter-chosen_example :
    collect 6 (take_iter (dist_iter 5 index)) (
      (take_iter (dist_iter 5 index)).init
        (record { iter = all_five; count = 3; cur_index = 0 })
        0
        5)
    ≡ 0 ∷ 1 ∷ 2 ∷ []
unfolding subarray_index_from_local start_index_for_pe global_start
take_iter-chosen_example =
    take_iter-chosen 5 index index-IsIndex 3 (record { iter = all_five; count = 3; cur_index = 0 })
      0 5 refl (omega arith)
