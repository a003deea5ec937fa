-- ===== src/Array/Cyclic/Layout.antt =====
-- How the cyclic arm deals the elements of a (sub)array out to the PEs: the first element of
-- a PE and how many it holds.
use lamellar_runtime.Prelude.{
  ℕ, zero, suc, ◌+◌, ◌-◌, ◌*◌, ◌/◌, ◌%◌, ◌^◌, ◌≤◌, ◌<◌, ◌≡◌, refl, ap, ◌∙◌, ◌≢◌, ◌↔◌, ◌⊎◌, inl, inr,
  some, arith, dec_lt, ℕ_discrete, ltb, if◌then◌else◌, lt→ltb, eq→==, ne→==, add_usize, sub_usize,
  mul_lt,
}
use lamellar_runtime.Array.Inner.{UnsafeArrayInner}
use lamellar_runtime.Array.Cyclic.{
  pe_for_dist_index, find_start, start_index_for_pe, with_left_over, num_elems_pe,
}
use native.Mathlib.Nat.{mod-eq_of_lt, mod-eq-sub-mod, mod-lt, div-add-mod, add-mul-mod_self_left}

-- The (sub)array has an element, lies in an array of fewer than 2^62 elements, and the team has a PE.
pub record IsValid {F : Type 0} (a : UnsafeArrayInner F) : Type 0 where
  pub some_pes : 0 < a.num_pes
  pub few_pes : a.num_pes < 2 ^ 62
  pub small : a.offset + a.size < 2 ^ 62

pub mod_below :
    (x n : ℕ) → x < n + n → 0 < n → ((x < n) × (x % n ≡ x)) ⊎ ((n ≤ x) × (x % n + n ≡ x))
mod_below x n h pos = elim (dec_lt x n) [
  | yes below ↦ inl (below, mod-eq_of_lt below)
  | no above ↦
      let le : n ≤ x = omega arith in
      let low : x - n < n = omega arith in
      inr (le, omega (arith, mod-eq-sub-mod le, mod-eq_of_lt low))
]

module _ {F : Type 0} (a : UnsafeArrayInner F) (valid : IsValid a) where
  -- The loop finds the first index that passes its test.
  find_start-first :
      (start_pe pe target i rounds : ℕ)
      → i ≤ target
      → target < i + rounds
      → target + start_pe < 2 ^ 64
      → (target + start_pe) % a.num_pes ≡ pe
      → ((j : ℕ) → j < target → (j + start_pe) % a.num_pes ≢ pe)
      → find_start a start_pe pe i rounds ≡ some target
  unfolding find_start
  find_start-first start_pe pe target i zero low high small hit miss = absurd (omega arith)
  find_start-first start_pe pe target i (suc rounds) low high small hit miss =
      let no_wrap : add_usize i start_pe ≡ i + start_pe = omega arith in
      elim (ℕ_discrete i target) [
        | yes e ↦ rw (no_wrap, e, eq→== ((target + start_pe) % a.num_pes) pe hit) refl
        | no n ↦
            rw (no_wrap, ne→== ((i + start_pe) % a.num_pes) pe (miss i (omega arith)))
              (find_start-first start_pe pe target (suc i) rounds (omega arith) (omega arith) small
                hit miss)
      ]

  -- Different first indexes stand on different PEs.
  first_apart :
      (b s j : ℕ)
      → b < a.num_pes
      → s < a.num_pes
      → j < s
      → (j + b) % a.num_pes ≢ (s + b) % a.num_pes
  first_apart b s j hb hs hj e = omega (
    arith,
    e,
    mod_below (j + b) a.num_pes (omega arith) valid.some_pes,
    mod_below (s + b) a.num_pes (omega arith) valid.some_pes,
  )

  abbrev pub first_pe : ℕ
  first_pe = a.offset % a.num_pes

  pub first_pe-lt : first_pe < a.num_pes
  first_pe-lt = mod-lt a.offset valid.some_pes

  pub start_pe_lem : 0 < a.size → pe_for_dist_index a 0 ≡ some first_pe
  unfolding pe_for_dist_index
  start_pe_lem h =
      let no_wrap : add_usize 0 a.offset ≡ a.offset = omega (arith, valid.small) in
      rw (no_wrap, lt→ltb 0 a.size h) refl

  -- The first index of a valid (sub)array on the PE that holds its element `s` is `s`, for an element `s`
  -- below the number of PEs: the loop finds it within its rounds.
  pub start_index_for_pe-first :
      (s : ℕ)
      → s < a.num_pes
      → s < a.size
      → start_index_for_pe a ((s + first_pe) % a.num_pes) ≡ some s
  unfolding start_index_for_pe
  start_index_for_pe-first s few inside =
      rw (start_pe_lem (omega arith), start_index_for_pe)
        (find_start-first first_pe ((s + first_pe) % a.num_pes) s 0
          (if ltb a.size a.num_pes then a.size else a.num_pes) (omega arith) in_rounds
          (omega (arith, first_pe-lt, valid.few_pes)) refl
          (λ j h. first_apart first_pe s j first_pe-lt few h))
    where
      in_rounds : s < 0 + (if ltb a.size a.num_pes then a.size else a.num_pes)
      in_rounds = ground arith

  pub last_pe_lem :
      0 < a.size
      → pe_for_dist_index a (sub_usize a.size 1) ≡ some ((a.offset + (a.size - 1)) % a.num_pes)
  unfolding pe_for_dist_index
  last_pe_lem h =
      let last : sub_usize a.size 1 ≡ a.size - 1 = omega (arith, valid.small) in
      let no_wrap : add_usize (a.size - 1) a.offset ≡ a.offset + (a.size - 1) =
        omega (arith, valid.small) in
      rw (last, no_wrap, lt→ltb (a.size - 1) a.size (omega arith)) refl

  end_pe_lem :
      0 < a.size % a.num_pes
      → (a.offset + (a.size - 1)) % a.num_pes ≡ (first_pe + (a.size % a.num_pes - 1)) % a.num_pes
  end_pe_lem h =
      ap (λ x. x % a.num_pes) parts
      ∙ add-mul-mod_self_left (first_pe + (a.size % a.num_pes - 1)) a.num_pes
          (a.offset / a.num_pes + a.size / a.num_pes)
    where
      parts :
          a.offset + (a.size - 1)
          ≡ first_pe
            + (a.size % a.num_pes - 1)
            + a.num_pes * (a.offset / a.num_pes + a.size / a.num_pes)
      parts = omega (arith, h, div-add-mod a.offset a.num_pes, div-add-mod a.size a.num_pes)

  -- How many elements the PE with first index `s` holds: one for each full round, and one more where
  -- `s` comes before the left over elements end.
  abbrev pub elems : ℕ → ℕ
  elems s = if ltb s (a.size % a.num_pes) then a.size / a.num_pes + 1 else a.size / a.num_pes

  pub with_left_over-eq :
      (s : ℕ)
      → s < a.num_pes
      → with_left_over a first_pe
          ((a.offset + (a.size - 1)) % a.num_pes)
          ((s + first_pe) % a.num_pes)
        ≡ elems s
  unfolding with_left_over
  with_left_over-eq s few = elim (ℕ_discrete r 0) [
    | yes z ↦ ground (arith, z)
    | no n ↦ ground (
      arith,
      n,
      first_pe-lt,
      end_pe_lem (omega arith),
      mod_below (s + first_pe) a.num_pes (omega (arith, first_pe-lt)) valid.some_pes,
      mod_below (first_pe + (r - 1)) a.num_pes (omega (arith, first_pe-lt, r_lt)) valid.some_pes,
      r_lt,
    )
  ]
    where
      r : ℕ
      r = a.size % a.num_pes

      r_lt : r < a.num_pes
      r_lt = mod-lt a.size valid.some_pes

  -- The number of elements that a PE reports.
  pub num_elems_pe-eq :
      (s : ℕ)
      → s < a.num_pes
      → s < a.size
      → num_elems_pe a ((s + first_pe) % a.num_pes) ≡ some (elems s)
  unfolding num_elems_pe
  num_elems_pe-eq s few inside =
      rw
        (
          start_pe_lem (omega arith),
          last_pe_lem (omega arith),
          with_left_over-eq s few,
          num_elems_pe,
        )
        refl

  -- The PE with first index `s` has a place `k` exactly where the index `k` rounds behind `s` is one of
  -- the (sub)array.
  pub lt-elems_iff : (s k : ℕ) → s < a.num_pes → (k < elems s) ↔ (s + a.num_pes * k < a.size)
  lt-elems_iff s k few = (λ h. inside (in_elems h), λ h. to_elems (bounds h))
    where
      q : ℕ
      q = a.size / a.num_pes

      r : ℕ
      r = a.size % a.num_pes

      whole : a.num_pes * q + r ≡ a.size
      whole = div-add-mod a.size a.num_pes

      in_elems : k < elems s → (k < q) ⊎ ((k ≡ q) × (s < r))
      in_elems h = elim (dec_lt k q) [ yes below ↦ inl below | no above ↦ inr (ground arith) ]

      inside : (k < q) ⊎ ((k ≡ q) × (s < r)) → s + a.num_pes * k < a.size
      inside o = elim o [
        | inl below ↦ omega (arith, mul_lt k q a.num_pes below, whole)
        | inr last ↦ rw last.0 (omega (arith, last.1, whole))
      ]

      bounds : s + a.num_pes * k < a.size → (k < q) ⊎ ((k ≡ q) × (s < r))
      bounds h = elim (dec_lt k q) [
        | yes below ↦ inl below
        | no above ↦ (elim (ℕ_discrete k q) [
          | yes e ↦
              inr (e, (let h' : s + a.num_pes * q < a.size = rw e at h in omega (arith, h', whole)))
          | no n ↦ absurd (
              omega
                (arith, mul_lt q k a.num_pes (omega arith), whole, mod-lt a.size valid.some_pes))
        ])
      ]

      to_elems : (k < q) ⊎ ((k ≡ q) × (s < r)) → k < elems s
      to_elems o = ground arith
