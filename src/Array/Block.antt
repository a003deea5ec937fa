-- ===== src/Array/Block.antt =====
-- The block arm of the index functions of src/array/unsafe.rs: PE `pe` holds the elements of the whole
-- array from round(orig_elem_per_pe * pe) up to round(orig_elem_per_pe * (pe + 1)). The source subtracts
-- the offset as `isize`, to see its sign; here the sign is the order of the two numbers.
pub mod Split
pub mod Local
pub mod Exact
mod Tests
use lamellar_runtime.Prelude.{
  ℕ, zero, suc, ◌+◌, ◌-◌, ◌*◌, ◌/◌, ◌%◌, ◌^◌, ◌≤◌, ◌<◌, min, max, ◌≡◌, refl, sym, ap, ◌∙◌, subst,
  ◌≢◌, ◌↔◌, ◌⊎◌, inl, inr, Bool, true, false, ◌&&◌, ◌||◌, not, Option, none, some, List, [], ◌∷◌,
  ◌++◌, map, set, arith, dec_lt, dec_le, ℕ_discrete, ltb, leb, ◌==◌, if◌then◌else◌, ltb→lt, lt→ltb,
  le→ltb, leb→le, le→leb, leb→lt, eq→==, ==→eq, Bool-cases, Option-cases, is_some, length,
  get_elem?, insert_at, pop_last, All, All-imp, pop_last-append, length-append, length-set,
  All-get_elem?, All-set, total, total-set, get_elem?-le-total, total-two, total-le-length,
  total-eq-zero, total_mono, total-witness, usize_mod, add_usize, sub_usize, mul_usize, mul_le,
  mul_lt,
}
use lamellar_runtime.Array.Inner.{Float, UnsafeArrayInner}

module _ (f : Float) where
  -- `(self.orig_elem_per_pe * pe as f64).round() as usize`
  unfoldable pub global_start : UnsafeArrayInner f.F → ℕ → ℕ
  global_start a pe = f.round (f.mul a.orig_elem_per_pe (f.from_usize pe))

  -- `((global_index) as f64 / self.orig_elem_per_pe).floor() as usize`
  unfoldable pub guess : UnsafeArrayInner f.F → ℕ → ℕ
  guess a global_index = f.floor (f.div (f.from_usize global_index) a.orig_elem_per_pe)

  unfoldable pub pe_for_dist_index : UnsafeArrayInner f.F → ℕ → Option ℕ
  pe_for_dist_index a index =
      let global_index = add_usize index a.offset in
      let pe = guess a global_index in
      let end_index = global_start a (suc pe) in
      if ltb index a.size then some (if leb end_index global_index then suc pe else pe) else none

  unfoldable pub start_index_for_pe : UnsafeArrayInner f.F → ℕ → Option ℕ
  start_index_for_pe a pe =
      let start = global_start a pe in
      let end = global_start a (suc pe) in
      if leb a.offset start
      then (if ltb (start - a.offset) a.size then some (start - a.offset) else none)
      else (if ltb a.offset end then some 0 else none)

  -- The end is the next PE's start, or the end of the (sub)array.
  unfoldable pub num_elems_pe : UnsafeArrayInner f.F → ℕ → ℕ
  unfolding start_index_for_pe
  num_elems_pe a pe = elim (start_index_for_pe a pe) [
    | none ↦ 0
    | some start_i ↦
        sub_usize (elim (start_index_for_pe a (suc pe)) [ none ↦ a.size | some end_i ↦ end_i ])
          start_i
  ]

  unfoldable pub pe_offset_for_dist_index : UnsafeArrayInner f.F → ℕ → ℕ → Option ℕ
  unfolding num_elems_pe start_index_for_pe
  pe_offset_for_dist_index a pe index = elim (start_index_for_pe a pe) [
    | none ↦ none
    | some pe_start_index ↦
        (let pe_end_index = add_usize pe_start_index (num_elems_pe a pe) in
          if leb pe_start_index index && ltb index pe_end_index
          then some (index - pe_start_index)
          else none)
  ]

  unfoldable pub end_index_for_pe : UnsafeArrayInner f.F → ℕ → Option ℕ
  unfolding start_index_for_pe pe_for_dist_index
  end_index_for_pe a pe = elim (start_index_for_pe a pe) [
    | none ↦ none
    | some _ ↦ (elim (pe_for_dist_index a (sub_usize a.size 1)) [
      | none ↦ none
      | some last ↦
          if pe == last then some (sub_usize a.size 1) else (elim (start_index_for_pe a (suc pe)) [
            | none ↦ none
            | some i ↦ some (sub_usize i 1)
          ])
    ])
  ]

  unfoldable pub global_index_from_local : UnsafeArrayInner f.F → ℕ → Option ℕ
  global_index_from_local a index =
      let start = global_start a a.my_pe in
      let end = global_start a (suc a.my_pe) in
      if leb a.offset start
      then (if ltb (start - a.offset) a.size then some (add_usize start index) else none)
      else (if ltb a.offset end then some (add_usize a.offset index) else none)

  unfoldable pub pe_full_offset_for_local_index : UnsafeArrayInner f.F → ℕ → ℕ → Option ℕ
  unfolding global_index_from_local
  pe_full_offset_for_local_index a pe index = elim (global_index_from_local a index) [
    | none ↦ none
    | some global_index ↦
        (if leb (global_start a pe) global_index && ltb global_index (global_start a (suc pe))
          then some (global_index - global_start a pe)
          else none)
  ]

  unfoldable pub subarray_index_from_local : UnsafeArrayInner f.F → ℕ → Option ℕ
  unfolding start_index_for_pe
  subarray_index_from_local a index = elim (start_index_for_pe a a.my_pe) [
    | none ↦ none
    | some my_start_index ↦
        (if ltb (add_usize my_start_index index) a.size
          then some (add_usize my_start_index index)
          else none)
  ]
