-- ===== src/Array/Rdma/BlockOp.antt =====
-- `block_op` of a put and of a get: the transfers reach each element's place, and no other.
use lamellar_runtime.Prelude.{
  ℕ, zero, suc, ◌+◌, ◌-◌, ◌^◌, ◌≤◌, ◌<◌, min, max, ◌≡◌, refl, sym, ap, ◌∙◌, subst, Bool, true,
  false, ◌&&◌, List, ◌∷◌, arith, dec_lt, dec_le, ℕ_discrete, ltb, leb, ◌==◌, if◌then◌else◌,
  Bool-cases, inl, inr, ◌⊎◌, sub_usize,
}
use lamellar_runtime.Array.Inner.{Float, UnsafeArrayInner}
use lamellar_runtime.Array.Block.{global_start}
use lamellar_runtime.Array.Block.Split.{Splits, IsValid, global_start_mono}
use lamellar_runtime.Array.Rdma.{
  Region, Piece, put_piece, get_piece, put_pieces, get_pieces, block_pieces,
}

-- The element `g` is one of those from `d` up to `e`, and before the end of its stretch.
abbrev pub covered : ℕ → ℕ → ℕ → ℕ → Bool
covered d e end g = leb d g && (ltb g e && ltb g end)

module _ (f : Float) (a : UnsafeArrayInner f.F) (len : ℕ) (splits : Splits f a len)
    (valid : IsValid f a len) (g₀ n last_pe : ℕ) where
  abbrev pub start : ℕ → ℕ
  start p = global_start f a p

  -- The loop stands at `pe`, and has dealt with the elements before `d`.
  pub record IsAt (rounds pe d b : ℕ) : Type 0 where
    pub left : pe + rounds ≡ suc last_pe
    pub at : d ≡ min (max g₀ (start pe)) (g₀ + n)
    pub done : d ≡ g₀ + b
    pub begun : g₀ < start (suc pe)
    pub last_low : start last_pe < g₀ + n
    pub last_high : g₀ + n ≤ start (suc last_pe)
    pub bound : g₀ + n < 2 ^ 63
    pub in_team : start (suc last_pe) < 2 ^ 63

  -- How many elements PE `pe` has of those from `d` on.
  abbrev here : ℕ → ℕ → ℕ
  here pe d = min (start (suc pe)) (g₀ + n) - d

  block_pieces-step :
      (rounds pe d b : ℕ)
      → IsAt (suc rounds) pe d b
      → let l = here pe d in
        let more = block_pieces f a n rounds (suc pe) (d + l) (b + l) in
        block_pieces f a n (suc rounds) pe d b ≡ (
          if ltb 0 l
          then record { pe = pe; offset = d - start pe; buf_index = b; len = l } ∷ more
          else more)
  unfolding block_pieces
  block_pieces-step rounds pe d b h =
      let m₁ = global_start_mono f a len splits pe last_pe (omega (arith, h.left)) in
      let m₂ = global_start_mono f a len splits (suc pe) (suc last_pe) (omega (arith, h.left)) in
      let m₃ = splits.mono pe in
      let off : sub_usize d (start pe) ≡ d - start pe =
        omega (arith, h.at, h.last_low, h.in_team, h.last_high, h.bound) in
      let num : sub_usize (start (suc pe)) (start pe) ≡ start (suc pe) - start pe =
        omega (arith, h.in_team) in
      let l : min (sub_usize (start (suc pe) - start pe) (d - start pe)) (sub_usize n b)
          ≡ here pe d =
        omega (arith, h.at, h.done, h.begun, h.last_low, h.last_high, h.in_team, h.bound) in
      rw (block_pieces, off, num, l) refl

  IsAt-next :
      (rounds pe d b : ℕ)
      → IsAt (suc rounds) pe d b
      → IsAt rounds (suc pe) (d + here pe d) (b + here pe d)
  IsAt-next rounds pe d b h =
      let m₁ = global_start_mono f a len splits pe last_pe (omega (arith, h.left)) in
      let m₃ = splits.mono pe in
      let m₄ = splits.mono (suc pe) in
      record {
        left = omega (arith, h.left);
        at = omega (arith, h.at, h.begun, h.last_low);
        done = omega (arith, h.done);
        begun = omega (arith, h.begun);
        last_low = h.last_low;
        last_high = h.last_high;
        bound = h.bound;
        in_team = h.in_team;
      }

  -- At the end of the loop no element is left.
  IsAt-end :
      (pe d b p o : ℕ)
      → IsAt 0 pe d b
      → (leb pe p && covered d (g₀ + n) (start (suc p)) (start p + o)) ≡ false
  IsAt-end pe d b p o h = elim (dec_le pe p) [
    | yes above ↦
        let m = global_start_mono f a len splits (suc last_pe) p (omega (arith, h.left)) in
        let high = h.last_high in ground arith
    | no below ↦ ground arith
  ]

  abbrev pub from_here : ℕ → ℕ → ℕ → ℕ → Bool
  from_here pe d p o = leb pe p && covered d (g₀ + n) (start (suc p)) (start p + o)

  abbrev piece_of : ℕ → ℕ → ℕ → Piece
  piece_of pe d b = record { pe = pe; offset = d - start pe; buf_index = b; len = here pe d }

  abbrev reached_by : Piece → ℕ → ℕ → Bool
  reached_by x p o = p == x.pe && (leb x.offset o && ltb o (x.offset + x.len))

  -- The places from here on are those of this piece and those from the next on.
  from_here-split :
      (rounds pe d b p o : ℕ)
      → IsAt (suc rounds) pe d b
      → from_here pe d p o ≡ true
      → (from_here (suc pe) (d + here pe d) p o ≡ false)
          × (reached_by (piece_of pe d b) p o ≡ true)
          × (b + (o - (d - start pe)) ≡ start p + o - g₀)
        ⊎ (from_here (suc pe) (d + here pe d) p o ≡ true)
  from_here-split rounds pe d b p o h y =
      let at = h.at in
      let done = h.done in
      let begun = h.begun in
      let low = h.last_low in
      let m₁ = global_start_mono f a len splits pe last_pe (omega (arith, h.left)) in
      elim (ℕ_discrete pe p) [
        | yes same ↦ inl (
            subst
              (λ q.
                (from_here (suc pe) (d + here pe d) q o ≡ false)
                × (reached_by (piece_of pe d b) q o ≡ true)
                × (b + (o - (d - start pe)) ≡ start q + o - g₀))
              same
              (let y' : from_here pe d pe o ≡ true = rw (sym same) at y in
                (ground arith, ground arith, ground arith)))
        | no other ↦ inr (
            let more : suc pe ≤ p = ground arith in
            let m = global_start_mono f a len splits (suc pe) p more in ground arith)
      ]

  from_here-none :
      (rounds pe d b p o : ℕ)
      → IsAt (suc rounds) pe d b
      → from_here pe d p o ≡ false
      → (from_here (suc pe) (d + here pe d) p o ≡ false)
        × (reached_by (piece_of pe d b) p o ≡ false)
  from_here-none rounds pe d b p o h no_place =
      let at = h.at in
      let begun = h.begun in
      let low = h.last_low in
      let m₁ = global_start_mono f a len splits pe last_pe (omega (arith, h.left)) in
      elim (ℕ_discrete pe p) [
        | yes same ↦
            subst
              (λ q.
                (from_here (suc pe) (d + here pe d) q o ≡ false)
                × (reached_by (piece_of pe d b) q o ≡ false))
              same
              (let y' : from_here pe d pe o ≡ false = rw (sym same) at no_place in
                (ground arith, ground arith))
        | no other ↦ elim (dec_le (suc pe) p) [
          | yes more ↦
              let m = global_start_mono f a len splits (suc pe) p more in
              (ground arith, ground arith)
          | no less ↦ (ground arith, ground arith)
        ]
      ]

  module _ {T : Type 0} where
    -- What one round and those behind it write.
    put_piece-then :
        (rounds pe d b p o : ℕ) (buf : ℕ → T) (mem : Region T)
        → IsAt (suc rounds) pe d b
        → (if from_here (suc pe) (d + here pe d) p o
            then buf (start p + o - g₀)
            else put_piece buf (piece_of pe d b) mem p o)
          ≡ (if from_here pe d p o then buf (start p + o - g₀) else mem p o)
    unfolding put_piece
    put_piece-then rounds pe d b p o buf mem h = elim (Bool-cases (from_here pe d p o)) [
      | inl y ↦ elim (from_here-split rounds pe d b p o h y) [
        | inl (n₁, y₁, e) ↦ rw (y, n₁, put_piece, y₁) (ap buf e)
        | inr y₁ ↦ rw (y, y₁) refl
      ]
      | inr z ↦
          let (n₁, n₂) = from_here-none rounds pe d b p o h z in rw (z, n₁, put_piece, n₂) refl
    ]

    -- An empty piece writes nothing.
    put_piece-empty :
        (pe d b p o : ℕ) (buf : ℕ → T) (mem : Region T)
        → ltb 0 (here pe d) ≡ false
        → put_piece buf (piece_of pe d b) mem p o ≡ mem p o
    unfolding put_piece
    put_piece-empty pe d b p o buf mem z =
        let e : here pe d ≡ 0 = ground arith in
        let n : reached_by (piece_of pe d b) p o ≡ false = ground arith in rw (put_piece, n) refl

    pub put_block_pieces :
        (rounds pe d b p o : ℕ) (buf : ℕ → T) (mem : Region T)
        → IsAt rounds pe d b
        → put_pieces buf (block_pieces f a n rounds pe d b) mem p o
          ≡ (if from_here pe d p o then buf (start p + o - g₀) else mem p o)
    unfolding put_pieces block_pieces
    put_block_pieces zero pe d b p o buf mem h = rw (IsAt-end pe d b p o h) refl
    put_block_pieces (suc rounds) pe d b p o buf mem h = rw (block_pieces-step rounds pe d b h) (
        by_len (Bool-cases (ltb 0 (here pe d))) (λ mem'.
          put_block_pieces rounds (suc pe) (d + here pe d) (b + here pe d) p o buf mem'
            (IsAt-next rounds pe d b h)))
      where
        more : List Piece
        more = block_pieces f a n rounds (suc pe) (d + here pe d) (b + here pe d)

        by_len :
            (ltb 0 (here pe d) ≡ true) ⊎ (ltb 0 (here pe d) ≡ false)
            → ((mem' : Region T)
                → put_pieces buf more mem' p o ≡ (
                    if from_here (suc pe) (d + here pe d) p o
                    then buf (start p + o - g₀)
                    else mem' p o))
            → put_pieces buf (if ltb 0 (here pe d) then piece_of pe d b ∷ more else more) mem p o
              ≡ (if from_here pe d p o then buf (start p + o - g₀) else mem p o)
        by_len (inl y) next =
            rw (y, put_pieces)
              (next (put_piece buf (piece_of pe d b) mem)
                ∙ put_piece-then rounds pe d b p o buf mem h)
        by_len (inr z) next = rw z (
            next mem
            ∙ ap (λ v. if from_here (suc pe) (d + here pe d) p o then buf (start p + o - g₀) else v)
                (sym (put_piece-empty pe d b p o buf mem z))
            ∙ put_piece-then rounds pe d b p o buf mem h)

    -- Whether this piece or a later one has the element `j` of the buffer, it comes from PE `p`.
    get_piece-then :
        (rounds pe d b p j : ℕ) (buf : ℕ → T) (mem : Region T)
        → IsAt (suc rounds) pe d b
        → start p ≤ g₀ + j
        → g₀ + j < start (suc p)
        → j < n
        → (if leb (d + here pe d) (g₀ + j)
            then mem p (g₀ + j - start p)
            else get_piece mem (piece_of pe d b) buf j)
          ≡ (if leb d (g₀ + j) then mem p (g₀ + j - start p) else buf j)
    unfolding get_piece
    get_piece-then rounds pe d b p j buf mem h low high inside =
        let at = h.at in
        let done = h.done in
        let begun = h.begun in
        let last_low = h.last_low in
        let m₁ = global_start_mono f a len splits pe last_pe (omega (arith, h.left)) in
        elim (dec_le d (g₀ + j)) [
          | yes later ↦ elim (dec_lt (g₀ + j) (d + here pe d)) [
            | yes now ↦
                let same : pe ≡ p = elim (dec_lt p pe) [
                  | yes below ↦
                      absurd
                        (let m = global_start_mono f a len splits (suc p) pe below in omega arith)
                  | no not_below ↦ elim (dec_lt pe p) [
                    | yes above ↦
                        absurd
                          (let m = global_start_mono f a len splits (suc pe) p above in omega arith)
                    | no not_above ↦ omega arith
                  ]
                ] in
                let y₁ : leb d (g₀ + j) ≡ true = ground arith in
                let n₁ : leb (d + here pe d) (g₀ + j) ≡ false = ground arith in
                let y₂ : (leb b j && ltb j (b + here pe d)) ≡ true = ground arith in
                let place : d - start pe + (j - b) ≡ g₀ + j - start pe = omega arith in
                rw (y₁, n₁, get_piece, y₂, place) (ap (λ q. mem q (g₀ + j - start q)) same)
            | no not_yet ↦
                let y₁ : leb d (g₀ + j) ≡ true = ground arith in
                let y₂ : leb (d + here pe d) (g₀ + j) ≡ true = ground arith in rw (y₁, y₂) refl
          ]
          | no before ↦
              let n₁ : leb d (g₀ + j) ≡ false = ground arith in
              let n₂ : leb (d + here pe d) (g₀ + j) ≡ false = ground arith in
              let n₃ : (leb b j && ltb j (b + here pe d)) ≡ false = ground arith in
              rw (n₁, n₂, get_piece, n₃) refl
        ]

    get_piece-empty :
        (pe d b j : ℕ) (buf : ℕ → T) (mem : Region T)
        → ltb 0 (here pe d) ≡ false
        → get_piece mem (piece_of pe d b) buf j ≡ buf j
    unfolding get_piece
    get_piece-empty pe d b j buf mem z =
        let e : here pe d ≡ 0 = ground arith in
        let none_in : (leb b j && ltb j (b + here pe d)) ≡ false = ground arith in
        rw (get_piece, none_in) refl

    pub get_block_pieces :
        (rounds pe d b p j : ℕ) (buf : ℕ → T) (mem : Region T)
        → IsAt rounds pe d b
        → start p ≤ g₀ + j
        → g₀ + j < start (suc p)
        → j < n
        → get_pieces mem (block_pieces f a n rounds pe d b) buf j
          ≡ (if leb d (g₀ + j) then mem p (g₀ + j - start p) else buf j)
    unfolding get_pieces block_pieces
    get_block_pieces zero pe d b p j buf mem h low high inside =
        let at = h.at in
        let left = h.left in
        let last_high = h.last_high in
        let behind : leb d (g₀ + j) ≡ false =
          (let e : pe ≡ suc last_pe = omega arith in let at' = rw e at at in ground arith) in
        rw behind refl
    get_block_pieces (suc rounds) pe d b p j buf mem h low high inside =
        rw (block_pieces-step rounds pe d b h) (
          by_len (Bool-cases (ltb 0 (here pe d))) (λ buf'.
            get_block_pieces rounds (suc pe) (d + here pe d) (b + here pe d) p j buf' mem
              (IsAt-next rounds pe d b h) low high inside))
      where
        more : List Piece
        more = block_pieces f a n rounds (suc pe) (d + here pe d) (b + here pe d)

        by_len :
            (ltb 0 (here pe d) ≡ true) ⊎ (ltb 0 (here pe d) ≡ false)
            → ((buf' : ℕ → T)
                → get_pieces mem more buf' j
                  ≡ (if leb (d + here pe d) (g₀ + j) then mem p (g₀ + j - start p) else buf' j))
            → get_pieces mem (if ltb 0 (here pe d) then piece_of pe d b ∷ more else more) buf j
              ≡ (if leb d (g₀ + j) then mem p (g₀ + j - start p) else buf j)
        by_len (inl y) next =
            rw (y, get_pieces)
              (next (get_piece mem (piece_of pe d b) buf)
                ∙ get_piece-then rounds pe d b p j buf mem h low high inside)
        by_len (inr z) next = rw z (
            next buf
            ∙ ap (λ v. if leb (d + here pe d) (g₀ + j) then mem p (g₀ + j - start p) else v)
                (sym (get_piece-empty pe d b j buf mem z))
            ∙ get_piece-then rounds pe d b p j buf mem h low high inside)
