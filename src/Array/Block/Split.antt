-- ===== src/Array/Block/Split.antt =====
-- How the block arm splits a (sub)array over the PEs: the owner of an element, and how many elements a PE
-- holds.
use lamellar_runtime.Prelude.{
  ℕ, zero, suc, ◌+◌, ◌-◌, ◌^◌, ◌≤◌, ◌<◌, min, max, ◌≡◌, refl, false, none, some, arith, dec_lt,
  dec_le, leb, lt→ltb, le→leb, add_usize,
}
use lamellar_runtime.Array.Inner.{Float, UnsafeArrayInner}
use lamellar_runtime.Array.Block.{global_start, guess, pe_for_dist_index, num_elems_pe}

-- What the floating point arithmetic has to do right for an array of `len` elements: the PEs' stretches
-- begin at 0, end at `len`, do not go back, and the quotient misses an element's stretch by
-- one place at most.
pub record Splits (f : Float) (a : UnsafeArrayInner f.F) (len : ℕ) : Type 0 where
  pub first : global_start f a 0 ≡ 0
  pub last : global_start f a a.num_pes ≡ len
  pub mono : (p : ℕ) → global_start f a p ≤ global_start f a (suc p)
  pub low : (i : ℕ) → i < len → global_start f a (guess f a i) ≤ i
  pub high : (i : ℕ) → i < len → i < global_start f a (suc (suc (guess f a i)))

-- The (sub)array lies in the whole array of `len` elements.
pub record IsValid (f : Float) (a : UnsafeArrayInner f.F) (len : ℕ) : Type 0 where
  pub inside : a.offset + a.size ≤ len
  pub small : len < 2 ^ 63

module _ (f : Float) (a : UnsafeArrayInner f.F) (len : ℕ) (splits : Splits f a len) where
  pub global_start_mono : (p q : ℕ) → p ≤ q → global_start f a p ≤ global_start f a q
  global_start_mono p zero h = let e : p ≡ 0 = omega arith in rw e (omega arith)
  global_start_mono p (suc q) h = elim (dec_le p q) [
    | yes below ↦ omega (arith, global_start_mono p q below, splits.mono q)
    | no last ↦ let e : p ≡ suc q = omega arith in rw e (omega arith)
  ]

  -- No PE from `num_pes` on owns an element.
  owner-lt : (p i : ℕ) → i < len → global_start f a p ≤ i → p < a.num_pes
  owner-lt p i h low = elim (dec_lt p a.num_pes) [
    | yes below ↦ below
    | no above ↦ absurd (omega (arith, splits.last, global_start_mono a.num_pes p (omega arith)))
  ]

  module _ (valid : IsValid f a len) where
    -- The PE of an element of a valid (sub)array is one of the team, and its stretch holds the element, where
    -- the arithmetic splits the array as `Splits` asks.
    pub pe_for_dist_index-block :
        (index : ℕ)
        → index < a.size
        → (pe : ℕ) × (pe_for_dist_index f a index ≡ some pe)
          × (pe < a.num_pes)
          × (global_start f a pe ≤ a.offset + index)
          × (a.offset + index < global_start f a (suc pe))
    unfolding pe_for_dist_index
    pe_for_dist_index-block index h = elim (dec_le (global_start f a (suc g)) i) [
      | yes over ↦ (
        suc g,
        rw (no_wrap, lt→ltb index a.size h, le→leb (global_start f a (suc g)) i over) refl,
        owner-lt (suc g) i inside over,
        over,
        splits.high i inside,
      )
      | no under ↦ (
        g,
        rw (no_wrap, lt→ltb index a.size h, not_leb under) refl,
        owner-lt g i inside (splits.low i inside),
        splits.low i inside,
        omega arith,
      )
    ]
      where
        i : ℕ
        i = a.offset + index

        g : ℕ
        g = guess f a i

        inside : i < len
        inside = omega (arith, valid.inside)

        no_wrap : add_usize index a.offset ≡ i
        no_wrap = omega (arith, valid.inside, valid.small)

        not_leb : ¬ (global_start f a (suc g) ≤ i) → leb (global_start f a (suc g)) i ≡ false
        not_leb n = ground arith

    -- Behind the end of the (sub)array there is no owner.
    pub pe_for_dist_index-none : (index : ℕ) → a.size ≤ index → pe_for_dist_index f a index ≡ none
    unfolding pe_for_dist_index
    pe_for_dist_index-none index h = ground arith

    -- A PE holds as many elements of a valid (sub)array as its stretch has in common with it, where the
    -- arithmetic splits the array as `Splits` asks.
    pub num_elems_pe-overlap :
        (pe : ℕ)
        → num_elems_pe f a pe
          ≡ min (global_start f a (suc pe)) (a.offset + a.size) - max (global_start f a pe) a.offset
    unfolding num_elems_pe
    num_elems_pe-overlap pe =
        ground (arith, splits.mono pe, splits.mono (suc pe), valid.inside, valid.small)

    -- The elements of the PEs below `pes`.
    abbrev pub elems_below : ℕ → ℕ
    elems_below zero = 0
    elems_below (suc pes) = elems_below pes + num_elems_pe f a pes

    elems_below-eq :
        (pes : ℕ)
        → a.offset + elems_below pes ≡ min (max (global_start f a pes) a.offset) (a.offset + a.size)
    elems_below-eq zero = omega (arith, splits.first)
    elems_below-eq (suc pes) =
        omega (arith, elems_below-eq pes, num_elems_pe-overlap pes, splits.mono pes)

    -- The PEs of the team together hold as many elements as a valid (sub)array has, where the arithmetic
    -- splits the array as `Splits` asks.
    pub num_elems_pe_partition : elems_below a.num_pes ≡ a.size
    num_elems_pe_partition = omega (arith, elems_below-eq a.num_pes, splits.last, valid.inside)
