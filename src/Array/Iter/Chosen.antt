-- ===== src/Array/Iter/Chosen.antt =====
-- Which elements of a PE a chain of iterators visits.
use lamellar_runtime.Prelude.{
  ℕ, zero, suc, ◌+◌, ◌-◌, ◌^◌, ◌≤◌, ◌<◌, min, ◌≡◌, refl, sym, ap, ◌∙◌, subst, ◌⊎◌, inl, inr, Bool,
  true, false, Option, none, some, List, [], ◌∷◌, arith, dec_lt, dec_le, ltb, leb, if◌then◌else◌,
  lt→ltb, le→ltb, Bool-cases, Option-cases, add_usize,
}
use lamellar_runtime.Array.Iter.{DistributedIterator, DistIter, dist_iter, Take, take_iter, collect}

-- The local indexes among the `n` from `i` on that pass a test.
abbrev pub chosen : (ℕ → Bool) → ℕ → ℕ → List ℕ
chosen p i zero = []
chosen p i (suc n) = if p i then i ∷ chosen p (suc i) n else chosen p (suc i) n

-- The indexes in the (sub)array: each of the `max_i` elements of the PE has one, and they rise. Behind the PE's
-- elements there can be more of them, or none.
pub record IsIndex (max_i : ℕ) (index : ℕ → Option ℕ) : Type 0 where
  pub inside : (i : ℕ) → i < max_i → (g : ℕ) × (index i ≡ some g)
  pub rises : (i j g h : ℕ) → i < j → j ≤ 2 ^ 63 → index i ≡ some g → index j ≡ some h → g < h
  pub bounded : (i g : ℕ) → i ≤ 2 ^ 63 → index i ≡ some g → (i ≤ g) × (g < 2 ^ 63)
  pub small : max_i < 2 ^ 63

-- An element is among the first `count` of the (sub)array, or behind them.
abbrev pub is_below : ℕ → Option ℕ → Bool
is_below count none = false
is_below count (some g) = ltb g count

abbrev pub is_behind : ℕ → Option ℕ → Bool
is_behind count none = false
is_behind count (some g) = leb count g

pub chosen-none :
    (p : ℕ → Bool) (i n : ℕ) → ((j : ℕ) → i ≤ j → j < i + n → p j ≡ false) → chosen p i n ≡ []
chosen-none p i zero h = refl
chosen-none p i (suc n) h =
    rw (h i (omega arith) (omega arith))
      (chosen-none p (suc i) n (λ j ge lt. h j (omega arith) (omega arith)))

module _ {S Item : Type 0} (d : DistributedIterator S Item) where
  pub collect-some :
      (fuel : ℕ) (s s' : S) (x : Item)
      → d.next s ≡ (some x, s')
      → collect (suc fuel) d s ≡ x ∷ collect fuel d s'
  unfolding collect
  collect-some fuel s s' x e = rw (e, collect) (ap (λ r. x ∷ collect fuel d r.1) e)

  pub collect-none : (fuel : ℕ) (s : S) → (d.next s).0 ≡ none → collect (suc fuel) d s ≡ []
  unfolding collect
  collect-none fuel s e = rw (e, collect) refl

module _ (max_i : ℕ) (index : ℕ → Option ℕ) (v : IsIndex max_i index) (count : ℕ) where
  abbrev d : DistributedIterator DistIter ℕ
  d = dist_iter max_i index

  abbrev taking : ℕ → ℕ → ℕ → Take DistIter
  taking cur_i end_i at = record {
    iter = record { cur_i = cur_i; end_i = end_i };
    count = count;
    cur_index = at;
  }

  take_next-yes :
      (i end_i g : ℕ)
      → i < end_i
      → index i ≡ some g
      → g < count
      → (take_iter d).next (taking i end_i i) ≡ (some i, taking (i + 1) end_i (i + 1))
  unfolding take_iter dist_iter
  take_next-yes i end_i g lt e below = simp (e, lt→ltb g count below, lt→ltb i end_i lt) refl

  take_next-no :
      (i end_i g : ℕ)
      → index i ≡ some g
      → count ≤ g
      → ((take_iter d).next (taking i end_i i)).0 ≡ none
  unfolding take_iter dist_iter
  take_next-no i end_i g e behind = rw (e, le→ltb g count behind) refl

  take_next-end : (i end_i at : ℕ) → end_i ≤ i → ((take_iter d).next (taking i end_i at)).0 ≡ none
  unfolding take_iter dist_iter
  take_next-end i end_i at le = by_index (Option-cases (index at))
    where
      by_index :
          (index at ≡ none) ⊎ ((g : ℕ) × (index at ≡ some g))
          → ((take_iter d).next (taking i end_i at)).0 ≡ none
      by_index (inl e) = rw e refl
      by_index (inr (g, e)) = elim (Bool-cases (ltb g count)) [
        | inl y ↦ simp (e, y, le→ltb i end_i le) refl
        | inr n ↦ rw (e, n) refl
      ]

  -- From an element that is not below the count on, none is.
  none_below :
      (i n g : ℕ)
      → i + n ≤ max_i
      → index i ≡ some g
      → count ≤ g
      → (j : ℕ) → i ≤ j
      → j < i + n
      → is_below count (index j) ≡ false
  none_below i n g le e behind j ge lt =
      let (h, f) = v.inside j (omega arith) in
      let up : count ≤ h = elim (dec_lt i j) [
        | yes less ↦ omega (arith, v.rises i j g h less (omega (arith, v.small)) e f, behind)
        | no same ↦
            let q : i ≡ j = omega arith in
            let f' : index i ≡ some h = ap index q ∙ f in
            let gh : g ≡ h = ap (λ o. elim o [ none ↦ 0 | some z ↦ z ]) (sym e ∙ f') in
            omega (arith, gh, behind)
      ] in
      rw (f, le→ltb h count up) refl

  take_from :
      (n i : ℕ)
      → i + n ≤ max_i
      → collect (suc n) (take_iter d) (taking i (i + n) i)
        ≡ chosen (λ j. is_below count (index j)) i n
  take_from zero i le =
      collect-none (take_iter d) 0 (taking i (i + 0) i) (take_next-end i (i + 0) i (omega arith))
  take_from (suc n) i le =
      let (g, e) = v.inside i (omega arith) in
      elim (dec_lt g count) [
        | yes below ↦
            let test : is_below count (index i) ≡ true = rw (e, lt→ltb g count below) refl in
            let next : i + 1 ≡ suc i = omega arith in
            let end : i + suc n ≡ suc i + n = omega arith in
            collect-some (take_iter d) (suc n) (taking i (i + suc n) i)
              (taking (i + 1) (i + suc n) (i + 1)) i
              (take_next-yes i (i + suc n) g (omega arith) e below)
            ∙ ap (λ z. i ∷ z) (rw (next, end) (take_from n (suc i) (omega arith)))
            ∙ sym (
                ap
                  (λ b.
                    if b
                    then i ∷ chosen (λ j. is_below count (index j)) (suc i) n
                    else chosen (λ j. is_below count (index j)) (suc i) n)
                  test)
        | no behind ↦
            collect-none (take_iter d) (suc n) (taking i (i + suc n) i)
              (take_next-no i (i + suc n) g e (omega arith))
            ∙ sym (
                chosen-none (λ j. is_below count (index j)) i (suc n)
                  (none_below i (suc n) g le e (omega arith)))
      ]

  -- A PE that runs `take(count)` on `len` elements of its part from `start_i` on visits exactly those of them, in
  -- order, whose index in the whole (sub)array is below `count`; with one more step than there are elements the run
  -- is complete. The conditions are `IsIndex` and that `start_i + len` is below 2^63: each element of the PE has
  -- an index in the (sub)array, and up to 2^63 the indexes rise with the local ones, are no smaller than those, and
  -- are below 2^63, where there are any; behind the PE's elements there may be.
  pub take_iter-chosen :
      (s : Take DistIter) (start_i len : ℕ)
      → s.count ≡ count
      → start_i + len < 2 ^ 63
      → collect
          (suc (min (start_i + len) max_i - start_i))
          (take_iter d)
          ((take_iter d).init s start_i len)
        ≡ chosen (λ j. is_below count (index j)) start_i (min (start_i + len) max_i - start_i)
  unfolding take_iter dist_iter
  take_iter-chosen s start_i len same small = elim (dec_le start_i max_i) [
    | yes le ↦
        let first : min start_i max_i ≡ start_i = omega arith in
        let wrap : add_usize start_i len ≡ start_i + len = omega (arith, small) in
        let n = min (start_i + len) max_i - start_i in
        let last : min (start_i + len) max_i ≡ start_i + n = omega arith in
        rw (first, wrap, same)
          (subst
            (λ e.
              collect (suc n) (take_iter d) (taking start_i e start_i)
              ≡ chosen (λ j. is_below count (index j)) start_i n)
            (sym last) (take_from n start_i (omega arith)))
    | no over ↦
        let none_left : min (start_i + len) max_i - start_i ≡ 0 = omega arith in
        let cur : min start_i max_i ≡ max_i = omega arith in
        rw (none_left, same)
          (collect-none (take_iter d) 0
            (taking (min start_i max_i) (min (add_usize start_i len) max_i) start_i)
            (take_next-end (min start_i max_i) (min (add_usize start_i len) max_i) start_i
              (omega arith)))
  ]
