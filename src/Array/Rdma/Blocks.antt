-- ===== src/Array/Rdma/Blocks.antt =====
-- A put and a get of a stretch of a (sub)array in blocks.
use lamellar_runtime.Prelude.{
  ℕ, suc, ◌+◌, ◌-◌, ◌≤◌, ◌<◌, ◌≡◌, refl, ap, ◌∙◌, true, ◌&&◌, some, arith, dec_le, leb,
  if◌then◌else◌, le→leb, add_usize, sub_usize, Returns,
}
use lamellar_runtime.Array.Inner.{Float, UnsafeArrayInner}
use lamellar_runtime.Array.Block.{global_start, pe_for_dist_index}
use lamellar_runtime.Array.Block.Split.{Splits, IsValid, global_start_mono, pe_for_dist_index-block}
use lamellar_runtime.Array.Rdma.{Region, put_pieces, get_pieces, block_pieces, block_op}
use lamellar_runtime.Array.Rdma.BlockOp.{
  covered, IsAt, from_here, put_block_pieces, get_block_pieces,
}

module _ (f : Float) (a : UnsafeArrayInner f.F) (len : ℕ) (splits : Splits f a len)
    (valid : IsValid f a len) (index n : ℕ) (some_elems : 0 < n) (inside : index + n ≤ a.size) where
  abbrev g₀ : ℕ
  g₀ = a.offset + index

  -- The loop that a put or a get runs from PE `first_pe` on.
  abbrev Runs : ℕ → ℕ → ℕ → Type 0
  Runs first_pe last_pe rounds =
      (block_op f a index n ≡ some (block_pieces f a n rounds first_pe g₀ 0))
      × IsAt f a len splits valid g₀ n last_pe rounds first_pe g₀ 0
      × (global_start f a first_pe ≤ g₀)

  Runs-from :
      (first_pe last_pe : ℕ)
      → pe_for_dist_index f a index ≡ some first_pe
      → pe_for_dist_index f a (index + n - 1) ≡ some last_pe
      → last_pe < a.num_pes
      → global_start f a first_pe ≤ g₀
      → g₀ < global_start f a (suc first_pe)
      → global_start f a last_pe ≤ a.offset + (index + n - 1)
      → a.offset + (index + n - 1) < global_start f a (suc last_pe)
      → Runs first_pe last_pe (suc last_pe - first_pe)
  unfolding block_op
  Runs-from first_pe last_pe e₁ e₂ t l₁ h₁ l₂ h₂ =
      let last : sub_usize (add_usize index n) 1 ≡ index + n - 1 =
        omega (arith, valid.inside, valid.small) in
      let first : add_usize index a.offset ≡ g₀ = omega (arith, valid.inside, valid.small) in
      let order : first_pe ≤ last_pe = elim (dec_le first_pe last_pe) [
        | yes le ↦ le
        | no gt ↦ absurd (
            let m = global_start_mono f a len splits (suc last_pe) first_pe (omega arith) in
            omega arith)
      ] in
      let team = global_start_mono f a len splits (suc last_pe) a.num_pes (omega arith) in
      (
        rw (e₁, last, e₂, first, block_op) refl,
        record {
          left = omega arith;
          at = omega arith;
          done = omega arith;
          begun = h₁;
          last_low = omega arith;
          last_high = omega arith;
          bound = omega (arith, valid.inside, valid.small);
          in_team = omega (arith, splits.last, valid.inside, valid.small);
        },
        l₁,
      )

  block_op_lem : (first_pe : ℕ) × (last_pe : ℕ) × (rounds : ℕ) × Runs first_pe last_pe rounds
  block_op_lem =
      let (first_pe, e₁, t₁, l₁, h₁) =
        pe_for_dist_index-block f a len splits valid index (omega arith) in
      let (last_pe, e₂, t₂, l₂, h₂) =
        pe_for_dist_index-block f a len splits valid (index + n - 1) (omega arith) in
      (first_pe, last_pe, suc last_pe - first_pe, Runs-from first_pe last_pe e₁ e₂ t₂ l₁ h₁ l₂ h₂)

  module _ {T : Type 0} where
    -- A put of `n` elements, at least one, from `index` on within a valid (sub)array, where the arithmetic
    -- splits the array as `Splits` asks, does not panic. It writes each element of the buffer to
    -- its place, on the PE whose stretch holds it, and every other place is as before.
    pub block_put :
        (buf : ℕ → T) (mem : Region T)
        → Returns (block_op f a index n) (λ xs.
          (p o : ℕ)
          → put_pieces buf xs mem p o ≡ (
              if covered
                (a.offset + index)
                (a.offset + index + n)
                (global_start f a (suc p))
                (global_start f a p + o)
              then buf (global_start f a p + o - (a.offset + index))
              else mem p o))
    block_put buf mem =
        let (pe, last_pe, rounds, (e, h, low)) = block_op_lem in
        (
          block_pieces f a n rounds pe g₀ 0,
          e,
          λ p o.
              put_block_pieces f a len splits valid g₀ n last_pe rounds pe g₀ 0 p o buf mem h
              ∙ ap (λ b. if b then buf (global_start f a p + o - g₀) else mem p o)
                  (from_first pe p o low),
        )
      where
        from_first :
            (pe p o : ℕ)
            → global_start f a pe ≤ g₀
            → from_here f a len splits valid g₀ n pe pe g₀ p o
              ≡ covered g₀ (g₀ + n) (global_start f a (suc p)) (global_start f a p + o)
        from_first pe p o low = elim (dec_le pe p) [
          | yes above ↦ rw (le→leb pe p above) refl
          | no below ↦
              let m = global_start_mono f a len splits (suc p) pe (omega arith) in ground arith
        ]

    -- A get of `n` elements, at least one, from `index` on within a valid (sub)array, where the arithmetic
    -- splits the array as `Splits` asks, does not panic, and reads each element of the buffer
    -- from its place on the PE whose stretch holds it.
    pub block_get :
        (buf : ℕ → T) (mem : Region T) (p j : ℕ)
        → j < n
        → global_start f a p ≤ a.offset + index + j
        → a.offset + index + j < global_start f a (suc p)
        → Returns
            (block_op f a index n)
            (λ xs. get_pieces mem xs buf j ≡ mem p (a.offset + index + j - global_start f a p))
    block_get buf mem p j h low high =
        let (pe, last_pe, rounds, (e, at, _)) = block_op_lem in
        let y : leb g₀ (g₀ + j) ≡ true = ground arith in
        (
          block_pieces f a n rounds pe g₀ 0,
          e,
          get_block_pieces f a len splits valid g₀ n last_pe rounds pe g₀ 0 p j buf mem at low high
                h
              ∙ rw y refl,
        )

    -- What a put of `n` elements, at least one, wrote from `index` on within a valid (sub)array, where
    -- the arithmetic splits the array as `Splits` asks, a get of the same elements reads back, whatever
    -- was in its buffer.
    pub block_put_get :
        (buf out : ℕ → T) (mem : Region T) (j : ℕ)
        → j < n
        → Returns (block_op f a index n) (λ xs. get_pieces (put_pieces buf xs mem) xs out j ≡ buf j)
    block_put_get buf out mem j h =
        let (p, _, _, low, high) =
          pe_for_dist_index-block f a len splits valid (index + j) (omega arith) in
        let (pe, last_pe, rounds, (e, at, first)) = block_op_lem in
        let xs = block_pieces f a n rounds pe g₀ 0 in
        let o = g₀ + j - global_start f a p in
        let y : leb g₀ (g₀ + j) ≡ true = ground arith in
        let place : global_start f a p + o ≡ g₀ + j = omega arith in
        let above : pe ≤ p = elim (dec_le pe p) [
          | yes le ↦ le
          | no gt ↦
              absurd
                (let m = global_start_mono f a len splits (suc p) pe (omega arith) in omega arith)
        ] in
        let c : (leb pe p && covered g₀ (g₀ + n) (global_start f a (suc p)) (g₀ + j)) ≡ true =
          ground arith in
        let back : g₀ + j - g₀ ≡ j = omega arith in
        (
          xs,
          e,
          get_block_pieces f a len splits valid g₀ n last_pe rounds pe g₀ 0 p j out
                (put_pieces buf xs mem) at (omega arith) (omega arith) h
              ∙ rw y (
                  put_block_pieces f a len splits valid g₀ n last_pe rounds pe g₀ 0 p o buf mem at
                  ∙ rw (place, c, back) refl),
        )
