-- ===== src/Array/Iter/Indexes.antt =====
-- `subarray_index_from_local` of an array, as what the iterators ask for the index of a local element.
use lamellar_runtime.Prelude.{
  ℕ, ◌+◌, ◌-◌, ◌*◌, ◌%◌, ◌^◌, ◌≤◌, ◌<◌, max, ◌≡◌, refl, sym, ap, ◌∙◌, inl, inr, none, some, arith,
  ltb, lt→ltb, if◌then◌else◌, Bool-cases, Option-cases, add_usize, mul_usize, mul_lt, mul_le,
  dec_lt,
}
use lamellar_runtime.Array.Inner.{Float, UnsafeArrayInner}
use lamellar_runtime.Array.Block
use lamellar_runtime.Array.Block.Split
use lamellar_runtime.Array.Cyclic
use lamellar_runtime.Array.Cyclic.Layout
use lamellar_runtime.Array.Iter.Chosen.{IsIndex}

pub some_inj : {x y : ℕ} → some x ≡ some y → x ≡ y
some_inj e = cc

module _ (f : Float) (a : UnsafeArrayInner f.F) (len : ℕ) (splits : Split.Splits f a len)
    (valid : Split.IsValid f a len) where
  start_small : (s : ℕ) → Block.start_index_for_pe f a a.my_pe ≡ some s → s ≤ a.size
  unfolding Block.start_index_for_pe
  start_small s e = ground (arith, e)

  start-holds :
      (i : ℕ)
      → i < Block.num_elems_pe f a a.my_pe
      → (s : ℕ) × (Block.start_index_for_pe f a a.my_pe ≡ some s) × (s + i < a.size)
  unfolding Block.start_index_for_pe
  start-holds i lt =
      let count = Split.num_elems_pe-overlap f a len splits valid a.my_pe in
      (
        max (Block.global_start f a a.my_pe) a.offset - a.offset,
        ground (arith, count, lt),
        omega (arith, count, lt),
      )

  index-from :
      (s i : ℕ)
      → i ≤ 2 ^ 63
      → Block.start_index_for_pe f a a.my_pe ≡ some s
      → Block.subarray_index_from_local f a i ≡ (if ltb (s + i) a.size then some (s + i) else none)
  unfolding Block.subarray_index_from_local
  index-from s i near q =
      let no_wrap : add_usize s i ≡ s + i =
        omega (arith, start_small s q, near, valid.inside, valid.small) in
      rw (q, no_wrap, Block.subarray_index_from_local) refl

  -- Where the PE's stretch begins, what index a local one has, if any.
  from_start :
      (i g : ℕ)
      → i ≤ 2 ^ 63
      → Block.subarray_index_from_local f a i ≡ some g
      → (s : ℕ) × (Block.start_index_for_pe f a a.my_pe ≡ some s) × (g ≡ s + i) × (g < a.size)
  unfolding Block.subarray_index_from_local
  from_start i g near e = elim (Option-cases (Block.start_index_for_pe f a a.my_pe)) [
    | inl q ↦ let e' = rw (q, Block.subarray_index_from_local) at e in absurd (cc)
    | inr (s, q) ↦
        let e' = sym (index-from s i near q) ∙ e in
        elim (Bool-cases (ltb (s + i) a.size)) [
          | inl y ↦ let x = some_inj (sym (rw y at e')) in (s, q, x, ground (arith, x, y))
          | inr n ↦ let e'' = rw n at e' in absurd (cc)
        ]
  ]

  -- The elements of a PE of a valid (sub)array in blocks have an index each, and these rise, where the arithmetic
  -- splits the array as `Splits` asks.
  pub block-IsIndex : IsIndex (Block.num_elems_pe f a a.my_pe) (Block.subarray_index_from_local f a)
  block-IsIndex = record {
    inside = λ i lt.
        let (s, q, b) = start-holds i lt in
        (
          s + i,
          index-from s i (omega (arith, b, valid.inside, valid.small)) q
              ∙ rw (lt→ltb (s + i) a.size b) refl,
        );
    rises = λ i j g h lt near e e'.
        let (s, q, x, b) = from_start i g (omega arith) e in
        let (s', q', x', b') = from_start j h near e' in omega (arith, some_inj (sym q ∙ q'));
    bounded = λ i g near e.
        let (s, q, x, b) = from_start i g near e in omega (arith, valid.inside, valid.small);
    small =
        omega (
          arith,
          Split.num_elems_pe-overlap f a len splits valid a.my_pe,
          valid.inside,
          valid.small,
        );
  }

module _ {F : Type 0} (a : UnsafeArrayInner F) (valid : Layout.IsValid a) (s : ℕ)
    (few : s < a.num_pes) (inside : s < a.size)
    (mine : a.my_pe ≡ (s + Layout.first_pe a valid) % a.num_pes) where
  abbrev m : ℕ
  m = Layout.elems a valid s

  index_lem :
      (i : ℕ)
      → Cyclic.subarray_index_from_local a i
        ≡ (if ltb i m then some (add_usize s (mul_usize a.num_pes i)) else none)
  unfolding Cyclic.subarray_index_from_local
  index_lem i =
      rw
        (
          ap (Cyclic.start_index_for_pe a) mine
              ∙ Layout.start_index_for_pe-first a valid s few inside,
          ap (Cyclic.num_elems_pe a) mine ∙ Layout.num_elems_pe-eq a valid s few inside,
          Cyclic.subarray_index_from_local,
        )
        refl

  no_wrap : (i : ℕ) → i < m → add_usize s (mul_usize a.num_pes i) ≡ s + a.num_pes * i
  no_wrap i lt = let b = (Layout.lt-elems_iff a valid s i few).0 lt in omega (arith, b, valid.small)

  index_eq :
      (i g : ℕ) → Cyclic.subarray_index_from_local a i ≡ some g → (i < m) × (g ≡ s + a.num_pes * i)
  index_eq i g e = elim (Bool-cases (ltb i m)) [
    | inl y ↦
        let l : i < m = ground (arith, y) in
        (l, some_inj (sym e ∙ index_lem i ∙ rw y refl) ∙ no_wrap i l)
    | inr n ↦ let z : some g ≡ none = sym e ∙ index_lem i ∙ rw n refl in absurd (cc)
  ]

  -- The elements of the PE that holds element `s` of the first round of a valid cyclic (sub)array have an
  -- index each, and these rise.
  pub cyclic-IsIndex :
      (Cyclic.num_elems_pe a a.my_pe ≡ some (Layout.elems a valid s))
      × IsIndex (Layout.elems a valid s) (Cyclic.subarray_index_from_local a)
  cyclic-IsIndex = (
    ap (Cyclic.num_elems_pe a) mine ∙ Layout.num_elems_pe-eq a valid s few inside,
    record {
      inside =
          λ i lt. (s + a.num_pes * i, index_lem i ∙ rw (lt→ltb i m lt) (ap some (no_wrap i lt)));
      rises = λ i j g h lt near e e'.
          let (l, x) = index_eq i g e in
          let (l', x') = index_eq j h e' in
          omega (arith, x, x', mul_lt i j a.num_pes lt, valid.some_pes);
      bounded = λ i g near e.
          let (l, x) = index_eq i g e in
          let b = (Layout.lt-elems_iff a valid s i few).0 l in
          omega (arith, x, b, mul_le 1 a.num_pes i valid.some_pes, valid.small);
      small = elim (dec_lt 0 m) [
        | yes held ↦
            let b = (Layout.lt-elems_iff a valid s (m - 1) few).0 (omega arith) in
            omega (arith, b, mul_le 1 a.num_pes (m - 1) valid.some_pes, valid.small)
        | no empty ↦ omega (arith, empty)
      ];
    },
  )
