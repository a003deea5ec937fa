-- ===== src/Array/Iter/Seek.antt =====
-- Where the loop of `Skip::init` stops.
use lamellar_runtime.Prelude.{
  ℕ, zero, suc, ◌+◌, ◌^◌, ◌≤◌, ◌<◌, ◌≡◌, refl, Bool, true, false, Option, none, some, Option-cases,
  ◌⊎◌, inl, inr, arith, dec_lt, dec_le, leb, le→leb,
}
use lamellar_runtime.Array.Iter.{seek}
use lamellar_runtime.Array.Iter.Chosen.{IsIndex, is_behind}

module _ (max_i : ℕ) (index : ℕ → Option ℕ) (v : IsIndex max_i index) (count : ℕ) where
  -- Where the loop stops: all elements before are skipped, and this one is not, or has no index. It can lie behind
  -- the PE's part.
  pub record Sought (start_i stop : ℕ) (found : Bool) : Type 0 where
    pub after : start_i ≤ stop
    pub skipped : (j : ℕ) → start_i ≤ j → j < stop → is_behind count (index j) ≡ false
    pub there : found ≡ true → (h : ℕ) × (index stop ≡ some h) × (count ≤ h) × (stop < 2 ^ 63)
    pub ended : found ≡ false → max_i ≤ stop

  pub seek-Sought :
      (fuel k g : ℕ)
      → k ≤ 2 ^ 63
      → index k ≡ some g
      → count ≤ g + fuel
      → Sought k (seek fuel index count k g).0 (seek fuel index count k g).1
  unfolding seek
  seek-Sought zero k g near e enough = record {
    after = omega arith;
    skipped = λ j ge less. absurd (omega arith);
    there = λ f. (g, e, omega (arith, enough), omega (arith, v.bounded k g near e));
    ended = λ f. absurd (cc);
  }
  seek-Sought (suc fuel) k g near e enough =
      by_test (seek-Sought fuel) (dec_le count g) (Option-cases (index (k + 1)))
    where
      low : (k ≤ g) × (g < 2 ^ 63)
      low = v.bounded k g near e

      this_one : g < count → (j : ℕ) → k ≤ j → j < k + 1 → is_behind count (index j) ≡ false
      this_one below j ge less =
          let q : j ≡ k = omega arith in
          let z : leb count g ≡ false = ground arith in rw (q, e, z) refl

      by_test :
          ((k g : ℕ)
            → k ≤ 2 ^ 63
            → index k ≡ some g
            → count ≤ g + fuel
            → Sought k (seek fuel index count k g).0 (seek fuel index count k g).1)
          → Dec (count ≤ g)
          → (index (k + 1) ≡ none) ⊎ ((h : ℕ) × (index (k + 1) ≡ some h))
          → Sought k (seek (suc fuel) index count k g).0 (seek (suc fuel) index count k g).1
      by_test up (yes le) o =
          simp (seek, le→leb count g le)
            (record {
              after = omega arith;
              skipped = λ j ge less. absurd (omega arith);
              there = λ f. (g, e, le, omega (arith, low));
              ended = λ f. absurd (cc);
            })
      by_test up (no n) (inr (h, f)) =
          let z : leb count g ≡ false = ground (arith, n) in
          let near' : k + 1 ≤ 2 ^ 63 = omega (arith, low) in
          let rest =
            up (k + 1) h near' f
              (omega (arith, enough, v.rises k (k + 1) g h (omega arith) near' e f)) in
          simp (seek, z, f)
            (record {
              after = omega (arith, rest.after);
              skipped = λ j ge less. elim (dec_lt j (k + 1)) [
                | yes b ↦ this_one (omega (arith, n)) j ge b
                | no c ↦ rest.skipped j (omega (arith, c)) less
              ];
              there = rest.there;
              ended = rest.ended;
            })
      by_test up (no n) (inl f) =
          let z : leb count g ≡ false = ground (arith, n) in
          let last : ¬ (k + 1 < max_i) = (λ lt. let (h, e') = v.inside (k + 1) lt in absurd (cc)) in
          simp (seek, z, f)
            (record {
              after = omega arith;
              skipped = this_one (omega (arith, n));
              there = λ f. absurd (cc);
              ended = λ f. omega (arith, last);
            })
