-- ===== src/Array/Cyclic/Local.antt =====
-- From an element of a cyclic (sub)array to its place on its PE, and back.
use lamellar_runtime.Prelude.{
  ℕ, ◌+◌, ◌-◌, ◌*◌, ◌/◌, ◌%◌, ◌<◌, ◌≡◌, ◌↔◌, refl, sym, ap, ◌∙◌, some, arith, leb, if◌then◌else◌,
  lt→ltb, eq→==, add_usize, mul_usize,
}
use lamellar_runtime.Array.Inner.{UnsafeArrayInner}
use lamellar_runtime.Array.Cyclic.{
  pe_for_dist_index, start_index_for_pe, with_left_over, num_elems_pe, pe_offset_for_dist_index,
  global_index_from_local, subarray_index_from_local, pe_full_offset_for_local_index,
}
use native.Mathlib.Nat.{mod-lt, add-mul-mod_self_left, add-mod-mod, div-eq_of_lt, add-mul-div_left}
use lamellar_runtime.Array.Cyclic.Layout.{
  IsValid, mod_below, first_pe, first_pe-lt, start_index_for_pe-first, start_pe_lem, last_pe_lem,
  with_left_over-eq, num_elems_pe-eq, elems, lt-elems_iff,
}

module _ {F : Type 0} (a : UnsafeArrayInner F) (valid : IsValid a) where
  -- Element `index` of a valid (sub)array lies on the PE that its index in the whole array leaves modulo the
  -- number of PEs, which is one of the team.
  pub pe_for_dist_index-cyclic :
      (index : ℕ)
      → index < a.size
      → (pe_for_dist_index a index ≡ some ((a.offset + index) % a.num_pes))
        × ((a.offset + index) % a.num_pes < a.num_pes)
  unfolding pe_for_dist_index
  pe_for_dist_index-cyclic index h =
      let no_wrap : add_usize index a.offset ≡ a.offset + index = omega (arith, valid.small) in
      (rw (no_wrap, lt→ltb index a.size h) refl, mod-lt (a.offset + index) valid.some_pes)

  -- The PE that holds element `s` of a valid (sub)array, for an element `s` below the number of PEs, reports
  -- `m` elements: its places below `m` are those of the elements `k` rounds behind `s`.
  pub num_elems_pe-counts :
      (s : ℕ)
      → s < a.num_pes
      → s < a.size
      → (m : ℕ) × (num_elems_pe a ((s + first_pe a valid) % a.num_pes) ≡ some m)
        × ((k : ℕ) → (k < m) ↔ (s + a.num_pes * k < a.size))
  num_elems_pe-counts s few inside =
      (elems a valid s, num_elems_pe-eq a valid s few inside, λ k. lt-elems_iff a valid s k few)

  module _ (s k : ℕ) (few : s < a.num_pes) (inside : s + a.num_pes * k < a.size) where
    same_pe : (a.offset + (s + a.num_pes * k)) % a.num_pes ≡ (s + first_pe a valid) % a.num_pes
    same_pe =
        ap (λ x. x % a.num_pes) parts
        ∙ add-mul-mod_self_left (s + a.offset) a.num_pes k
        ∙ sym (add-mod-mod s a.offset a.num_pes)
      where
        parts : a.offset + (s + a.num_pes * k) ≡ s + a.offset + a.num_pes * k
        parts = omega arith

    round_of : (s + a.num_pes * k) / a.num_pes ≡ k
    round_of = omega (arith, add-mul-div_left s k valid.some_pes, div-eq_of_lt few)

    k_lt : k < elems a valid s
    k_lt = (lt-elems_iff a valid s k few).1 inside

    -- `global_index_from_local` leads to the index in the whole array.
    from_local_lem :
        a.my_pe ≡ (s + first_pe a valid) % a.num_pes
        → global_index_from_local a k ≡ some (a.offset + (s + a.num_pes * k))
    unfolding global_index_from_local
    from_local_lem mine =
        rw
          (
            start_pe_lem a valid (omega arith),
            last_pe_lem a valid (omega arith),
            left,
            global_index_from_local,
            lt→ltb k (elems a valid s) k_lt,
          )
          global
      where
        left :
            with_left_over a (first_pe a valid) ((a.offset + (a.size - 1)) % a.num_pes) a.my_pe
            ≡ elems a valid s
        left =
            ap (with_left_over a (first_pe a valid) ((a.offset + (a.size - 1)) % a.num_pes)) mine
            ∙ with_left_over-eq a valid s few

        global :
            (if leb (first_pe a valid) a.my_pe
              then some (
                  add_usize
                    (add_usize (mul_usize a.num_pes k) a.offset)
                    (a.my_pe - first_pe a valid))
              else some (
                  add_usize
                    (add_usize
                      (add_usize (mul_usize a.num_pes k) a.offset)
                      (a.num_pes - first_pe a valid))
                    a.my_pe))
            ≡ some (a.offset + (s + a.num_pes * k))
        global = ground (
          arith,
          mine,
          first_pe-lt a valid,
          valid.small,
          valid.few_pes,
          mod_below (s + first_pe a valid) a.num_pes (omega (arith, first_pe-lt a valid))
              valid.some_pes,
        )

    -- The element that stands `k` rounds behind element `s` of the first round has place `k` on its PE, in a
    -- valid (sub)array seen from that PE, and `subarray_index_from_local`, `global_index_from_local` and
    -- `pe_full_offset_for_local_index` lead from the place back to the element's index in the (sub)array, in
    -- the whole array and in the PE's memory.
    pub place_roundtrip :
        a.my_pe ≡ (s + first_pe a valid) % a.num_pes
        → (pe_offset_for_dist_index a a.my_pe (s + a.num_pes * k) ≡ some k)
          × (subarray_index_from_local a k ≡ some (s + a.num_pes * k))
          × (global_index_from_local a k ≡ some (a.offset + (s + a.num_pes * k)))
          × (pe_full_offset_for_local_index a a.my_pe k
              ≡ some ((a.offset + (s + a.num_pes * k)) / a.num_pes))
    unfolding pe_offset_for_dist_index subarray_index_from_local pe_full_offset_for_local_index
    place_roundtrip mine = (
      rw (no_wrap, same_pe, sym mine, eq→== a.my_pe a.my_pe refl, round_of) refl,
      rw (first, count, subarray_index_from_local, lt→ltb k (elems a valid s) k_lt)
          (ap some (omega (arith, valid.small))),
      from_local_lem mine,
      rw
          (
            from_local_lem mine,
            pe_full_offset_for_local_index,
            same_pe,
            sym mine,
            eq→== a.my_pe a.my_pe refl,
          )
          refl,
    )
      where
        no_wrap : add_usize a.offset (s + a.num_pes * k) ≡ a.offset + (s + a.num_pes * k)
        no_wrap = omega (arith, valid.small)

        first : start_index_for_pe a a.my_pe ≡ some s
        first =
            ap (start_index_for_pe a) mine ∙ start_index_for_pe-first a valid s few (omega arith)

        count : num_elems_pe a a.my_pe ≡ some (elems a valid s)
        count = ap (num_elems_pe a) mine ∙ num_elems_pe-eq a valid s few (omega arith)
