-- ===== src/Array/Cyclic.antt =====
-- The cyclic arm of the index functions of src/array/unsafe.rs: element `i` of the whole array lies on
-- PE `i % num_pes`. A team without PEs makes the source's `%` panic. `none` from `num_elems_pe` is the
-- panic on the last index of an array without elements.
pub mod Layout
pub mod Local
mod Tests
use lamellar_runtime.Prelude.{
  ℕ, zero, suc, ◌+◌, ◌-◌, ◌*◌, ◌/◌, ◌%◌, ◌^◌, ◌≤◌, ◌<◌, min, max, ◌≡◌, refl, sym, ap, ◌∙◌, subst,
  ◌≢◌, ◌↔◌, ◌⊎◌, inl, inr, Bool, true, false, ◌&&◌, ◌||◌, not, Option, none, some, List, [], ◌∷◌,
  ◌++◌, map, set, arith, dec_lt, dec_le, ℕ_discrete, ltb, leb, ◌==◌, if◌then◌else◌, ltb→lt, lt→ltb,
  le→ltb, leb→le, le→leb, leb→lt, eq→==, ==→eq, Bool-cases, Option-cases, is_some, length,
  get_elem?, insert_at, pop_last, All, All-imp, pop_last-append, length-append, length-set,
  All-get_elem?, All-set, total, total-set, get_elem?-le-total, total-two, total-le-length,
  total-eq-zero, total_mono, total-witness, usize_mod, add_usize, sub_usize, mul_usize, mul_le,
  mul_lt,
}
use lamellar_runtime.Array.Inner.{Float, UnsafeArrayInner}

module _ {F : Type 0} where
  unfoldable pub pe_for_dist_index : UnsafeArrayInner F → ℕ → Option ℕ
  pe_for_dist_index a index =
      if ltb index a.size then some (add_usize index a.offset % a.num_pes) else none

  -- The loop of `start_index_for_pe`, over `i` from `i` on with `rounds` rounds left.
  unfoldable pub find_start : UnsafeArrayInner F → ℕ → ℕ → ℕ → ℕ → Option ℕ
  find_start a start_pe pe i zero = none
  find_start a start_pe pe i (suc rounds) =
      let rest = find_start a start_pe pe (suc i) rounds in
      if add_usize i start_pe % a.num_pes == pe then some i else rest

  unfoldable pub start_index_for_pe : UnsafeArrayInner F → ℕ → Option ℕ
  unfolding pe_for_dist_index find_start
  start_index_for_pe a pe = elim (pe_for_dist_index a 0) [
    | none ↦ none
    | some start_pe ↦
        find_start a start_pe pe 0 (if ltb a.size a.num_pes then a.size else a.num_pes)
  ]

  -- One element more on the PEs from `start_pe` round to `end_pe`, where some are left over.
  unfoldable pub with_left_over : UnsafeArrayInner F → ℕ → ℕ → ℕ → ℕ
  with_left_over a start_pe end_pe pe =
      let num_elems = a.size / a.num_pes in
      if a.size % a.num_pes == 0
      then num_elems
      else if leb start_pe end_pe
      then (if leb start_pe pe && leb pe end_pe then num_elems + 1 else num_elems)
      else (if leb start_pe pe || leb pe end_pe then num_elems + 1 else num_elems)

  unfoldable pub num_elems_pe : UnsafeArrayInner F → ℕ → Option ℕ
  unfolding pe_for_dist_index with_left_over
  num_elems_pe a pe = elim (pe_for_dist_index a 0) [
    | none ↦ some 0
    | some start_pe ↦ (elim (pe_for_dist_index a (sub_usize a.size 1)) [
      | none ↦ none
      | some end_pe ↦ some (with_left_over a start_pe end_pe pe)
    ])
  ]

  -- The source computes `num_elems_pe` first and does not use it here.
  unfoldable pub pe_offset_for_dist_index : UnsafeArrayInner F → ℕ → ℕ → Option ℕ
  pe_offset_for_dist_index a pe index =
      if add_usize a.offset index % a.num_pes == pe then some (index / a.num_pes) else none

  -- `none` is also the panic on an array without elements.
  unfoldable pub global_index_from_local : UnsafeArrayInner F → ℕ → Option ℕ
  unfolding pe_for_dist_index with_left_over
  global_index_from_local a index = elim (pe_for_dist_index a 0) [
    | none ↦ none
    | some start_pe ↦ (elim (pe_for_dist_index a (sub_usize a.size 1)) [
      | none ↦ none
      | some end_pe ↦
          if ltb index (with_left_over a start_pe end_pe a.my_pe)
          then if leb start_pe a.my_pe
            then some
                (add_usize (add_usize (mul_usize a.num_pes index) a.offset) (a.my_pe - start_pe))
            else some (
                add_usize
                  (add_usize (add_usize (mul_usize a.num_pes index) a.offset)
                    (a.num_pes - start_pe))
                  a.my_pe)
          else none
    ])
  ]

  unfoldable pub subarray_index_from_local : UnsafeArrayInner F → ℕ → Option ℕ
  unfolding start_index_for_pe num_elems_pe
  subarray_index_from_local a index = elim (start_index_for_pe a a.my_pe) [
    | none ↦ none
    | some my_start_index ↦ (elim (num_elems_pe a a.my_pe) [
      | none ↦ none
      | some num_elems_local ↦
          if ltb index num_elems_local
          then some (add_usize my_start_index (mul_usize a.num_pes index))
          else none
    ])
  ]

  unfoldable pub end_index_for_pe : UnsafeArrayInner F → ℕ → Option ℕ
  unfolding start_index_for_pe num_elems_pe
  end_index_for_pe a pe = elim (start_index_for_pe a pe) [
    | none ↦ none
    | some start_i ↦ (elim (num_elems_pe a pe) [
      | none ↦ none
      | some num_elems ↦ some (add_usize start_i (mul_usize (sub_usize num_elems 1) a.num_pes))
    ])
  ]

  unfoldable pub pe_full_offset_for_local_index : UnsafeArrayInner F → ℕ → ℕ → Option ℕ
  unfolding global_index_from_local
  pe_full_offset_for_local_index a pe index = elim (global_index_from_local a index) [
    | none ↦ none
    | some global_index ↦
        (if global_index % a.num_pes == pe then some (global_index / a.num_pes) else none)
  ]
