-- ===== src/Array/Rdma/Tests.antt =====
-- Puts and gets of five elements: of ten elements in blocks on three PEs from element 2 on, and of a cyclic
-- (sub)array that begins at element 4.
use lamellar_runtime.Prelude.{
  ℕ, suc, ◌+◌, ◌-◌, ◌*◌, ◌/◌, ◌%◌, ◌≡◌, ◌↔◌, refl, ◌&&◌, some, [], ◌∷◌, arith, Returns, ltb, leb,
  if◌then◌else◌,
}
use lamellar_runtime.Array.Inner.{Distribution, UnsafeArrayInner}
use lamellar_runtime.Array.Block.{global_start, guess, pe_for_dist_index}
use lamellar_runtime.Array.Block.Split.{Splits, IsValid}
use lamellar_runtime.Array.Block.Exact.{exact, whole, exact-Splits}
use lamellar_runtime.Array.Cyclic.Layout
use lamellar_runtime.Array.Rdma.{
  put_pieces, get_pieces, block_op, block_pieces, cyclic_op_put, cyclic_op_get, unchecked_place,
}
use lamellar_runtime.Array.Rdma.BlockOp.{covered}
use lamellar_runtime.Array.Rdma.Blocks.{block_put, block_put_get}
use lamellar_runtime.Array.Rdma.CyclicGet.{cyclic_get_reads}
use lamellar_runtime.Array.Rdma.CyclicOp.{cyclic_put_writes, unchecked_place_iff}

abbrev ten : UnsafeArrayInner (ℕ × ℕ)
ten = whole 10 3 1

ten-Splits : Splits exact ten 10
ten-Splits = exact-Splits 10 3 1 (omega arith) (omega arith)

ten-IsValid : IsValid exact ten 10
ten-IsValid = record { inside = omega arith; small = omega arith }

-- PE 0 has the elements 0 to 2, and PE 1 those from 3 to 6.
five_in_two_pieces :
    block_op exact ten 2 5
    ≡ some (
        record { pe = 0; offset = 2; buf_index = 0; len = 1 }
        ∷ record { pe = 1; offset = 0; buf_index = 1; len = 4 }
        ∷ [])
unfolding block_op block_pieces global_start guess pe_for_dist_index
five_in_two_pieces = refl

abbrev buf : ℕ → ℕ
buf j = 100 + j

abbrev empty : ℕ → ℕ → ℕ
empty p o = 0

block_put_example : Returns (block_op exact ten 2 5) (λ xs.
    (p o : ℕ)
    → put_pieces buf xs empty p o ≡ (
        if covered 2 7 (global_start exact ten (suc p)) (global_start exact ten p + o)
        then 100 + (global_start exact ten p + o - 2)
        else 0))
block_put_example =
    block_put exact ten 10 ten-Splits ten-IsValid 2 5 (omega arith) (omega arith) buf empty

start_one : global_start exact ten 1 ≡ 3
unfolding global_start
start_one = refl

start_two : global_start exact ten 2 ≡ 7
unfolding global_start
start_two = refl

block_put_get_example :
    Returns
      (block_op exact ten 2 5)
      (λ xs. get_pieces (put_pieces buf xs empty) xs (λ j. 0) 3 ≡ 103)
block_put_get_example =
    block_put_get exact ten 10 ten-Splits ten-IsValid 2 5 (omega arith) (omega arith) buf (λ j. 0)
      empty 3 (omega arith)

abbrev dealt : UnsafeArrayInner ℕ
dealt = record {
  my_pe = 2;
  num_pes = 3;
  distribution = Distribution.cyclic;
  orig_elem_per_pe = 0;
  elem_size = 8;
  offset = 4;
  size = 7;
}

dealt-IsValid : Layout.IsValid dealt
dealt-IsValid = record { some_pes = omega arith; few_pes = omega arith; small = omega arith }

-- Element 1 of the (sub)array and 3 behind it is element 8 of the array.
cyclic_put_writes_example :
    cyclic_op_put dealt 1 5 buf empty 2 2 ≡ (if leb 5 8 && ltb 8 10 then 103 else 0)
cyclic_put_writes_example =
    cyclic_put_writes dealt dealt-IsValid 1 5 buf empty 2 2 (omega arith) (omega arith)

-- Element 2 of the buffer is element 7 of the array, which has place 2 on PE 1.
cyclic_get_reads_example : cyclic_op_get dealt 1 5 (λ p o. 10 * p + o) (λ k. 7) buf 2 ≡ 12
cyclic_get_reads_example =
    cyclic_get_reads dealt dealt-IsValid 1 5 (λ p o. 10 * p + o) (λ k. 7) buf 2 (omega arith)

unchecked_place_iff_example : (unchecked_place dealt 1 3 ≡ (8 % 3, 8 / 3)) ↔ (◌≡◌ {A = ℕ} 4 0)
unchecked_place_iff_example = unchecked_place_iff dealt dealt-IsValid 1 3 (omega arith)
