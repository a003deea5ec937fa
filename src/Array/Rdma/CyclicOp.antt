-- ===== src/Array/Rdma/CyclicOp.antt =====
-- `cyclic_op` of a put: the transfers reach each element's place, and no other; and where a get that does not
-- wait reads.
use lamellar_runtime.Prelude.{
  ℕ, zero, suc, ◌+◌, ◌-◌, ◌*◌, ◌/◌, ◌%◌, ◌≤◌, ◌<◌, min, ◌≡◌, ◌≢◌, ◌↔◌, refl, ap, ◌∙◌, subst, Bool,
  true, false, ◌&&◌, arith, dec_lt, ltb, leb, ◌==◌, if◌then◌else◌, Bool-cases, inl, inr, ◌⊎◌,
  add_usize, mul_lt, mul_le,
}
use lamellar_runtime.Array.Inner.{UnsafeArrayInner}
use lamellar_runtime.Array.Cyclic.Layout.{IsValid, mod_below}
use lamellar_runtime.Array.Rdma.{
  Region, Piece, put_piece, steps_below, cyclic_put, cyclic_op_put, unchecked_place,
}
use native.Mathlib.Nat.{div-add-mod, mod-lt, zero-add}

-- A number has one quotient and one remainder.
pub div_unique : (n x y b c : ℕ) → b < n → c < n → n * x + b ≡ n * y + c → (x ≡ y) × (b ≡ c)
div_unique n x y b c hb hc e = elim (dec_lt x y) [
  | yes lt ↦ absurd (omega (arith, mul_lt x y n lt))
  | no ge ↦ elim (dec_lt y x) [
    | yes gt ↦ absurd (omega (arith, mul_lt y x n gt))
    | no le ↦ let same : x ≡ y = omega arith in (same, omega (arith, ap (λ z. n * z) same))
  ]
]

-- The round `k` of the steps is one of those that are below the length.
steps_below_iff : (i len n k : ℕ) → i < len → 0 < n → (k < steps_below i len n) ↔ (i + n * k < len)
unfolding steps_below
steps_below_iff i len n k h pos =
    let x = len + n - 1 - i in
    let d = div-add-mod x n in
    let m = mod-lt x {m = n} pos in
    (
      λ lt. omega (arith, mul_lt k (x / n) n lt, d, m),
      λ lt. elim (dec_lt k (x / n)) [
        | yes below ↦ below
        | no above ↦ absurd (omega (arith, mul_le (x / n) k n (omega arith), d, m))
      ],
    )

module _ {F : Type 0} (a : UnsafeArrayInner F) (valid : IsValid a) (g₀ len : ℕ) where
  abbrev pub n : ℕ
  n = a.num_pes

  abbrev pub r : ℕ
  r = g₀ % n

  -- The PE of round `i` and whether it lies behind the last PE.
  round_place :
      (i : ℕ)
      → i < n
      → (((r + i) % n ≡ r + i) × (r + i < n)) ⊎ (((r + i) % n + n ≡ r + i) × (n ≤ r + i))
  round_place i h =
      let m = mod-lt g₀ {m = n} valid.some_pes in
      elim (mod_below (r + i) n (omega arith) valid.some_pes) [
        | inl (lt, e) ↦ inl (e, lt)
        | inr (le, e) ↦ inr (e, le)
      ]

  abbrev pub over : ℕ → ℕ
  over i = if leb n (r + i) then 1 else 0

  pub round_split : (i : ℕ) → i < n → (n * over i + (r + i) % n ≡ r + i) × ((r + i) % n < n)
  round_split i h = elim (round_place i h) [
    | inl (e, lt) ↦
        let z : leb n (r + i) ≡ false = ground arith in (rw z (omega (arith, e)), omega (arith, e))
    | inr (e, le) ↦
        let y : leb n (r + i) ≡ true = ground arith in
        let m = mod-lt (r + i) {m = n} valid.some_pes in (rw y (omega (arith, e)), m)
  ]

  pub over-next :
      (i : ℕ) → i < n → (if (r + i) % n + 1 == n then over i + 1 else over i) ≡ over (suc i)
  over-next i h =
      let m = mod-lt g₀ {m = n} valid.some_pes in
      elim (round_place i h) [ inl (e, lt) ↦ ground arith | inr (e, le) ↦ ground arith ]

  -- What round `i` sends.
  abbrev piece_of : ℕ → Piece
  piece_of i = record {
    pe = (r + i) % n;
    offset = g₀ / n + over i;
    buf_index = 0;
    len = steps_below i len n;
  }

  abbrev reached_by : Piece → ℕ → ℕ → Bool
  reached_by x p o = p == x.pe && (leb x.offset o && ltb o (x.offset + x.len))

  -- The element at place `o` of PE `p` in the whole array, and whether it is one of the `len` elements.
  abbrev elem : ℕ → ℕ → ℕ
  elem p o = n * o + p

  abbrev covers : ℕ → ℕ → Bool
  covers p o = leb g₀ (elem p o) && ltb (elem p o) (g₀ + len)

  -- Round `i` reaches the places of the elements `i`, `i + n`, `i + 2 * n`, … from the first on.
  reached :
      (i p o : ℕ)
      → i < n
      → i < len
      → reached_by (piece_of i) p o ≡ true
      → let k = o - (g₀ / n + over i) in (elem p o ≡ g₀ + (i + n * k)) × (i + n * k < len)
  reached i p o h inside y =
      let k = o - (g₀ / n + over i) in
      let same : p ≡ (r + i) % n = ground arith in
      let low : g₀ / n + over i ≤ o = ground arith in
      let high : k < steps_below i len n = ground arith in
      let (split, _) = round_split i h in
      let d = div-add-mod g₀ n in
      let eo : o ≡ g₀ / n + over i + k = omega arith in
      let fits = (steps_below_iff i len n k inside valid.some_pes).0 high in
      (omega (arith, same, ap (λ z. n * z) eo, split, d), fits)

  reaches :
      (i p o k : ℕ)
      → i < n
      → i < len
      → p < n
      → elem p o ≡ g₀ + (i + n * k)
      → i + n * k < len
      → (reached_by (piece_of i) p o ≡ true) × (o - (g₀ / n + over i) ≡ k)
  reaches i p o k h inside in_team e fits =
      let (split, small) = round_split i h in
      let d = div-add-mod g₀ n in
      let (eo, ep) =
        div_unique n o (g₀ / n + over i + k) p ((r + i) % n) in_team small
          (omega (arith, e, split, d)) in
      let high = (steps_below_iff i len n k inside valid.some_pes).1 fits in
      (ground arith, omega arith)

  -- The round that reaches an element.
  abbrev round : ℕ → ℕ → ℕ
  round p o = (elem p o - g₀) % n

  round_unique : (i p o k : ℕ) → i < n → elem p o ≡ g₀ + (i + n * k) → round p o ≡ i
  round_unique i p o k h e =
      let x = elem p o - g₀ in
      let d = div-add-mod x n in
      let m = mod-lt x {m = n} valid.some_pes in
      (div_unique n (x / n) k (x % n) i m h (omega arith)).1

  module _ {T : Type 0} (buf : ℕ → T) where
    abbrev put_round : ℕ → Region T → Region T
    put_round i mem = put_piece (λ j. buf (i + n * j)) (piece_of i) mem

    abbrev from_round : ℕ → ℕ → ℕ → Bool
    from_round i p o = covers p o && leb i (round p o)

    put_round-then :
        (i p o : ℕ) (mem : Region T)
        → i < n
        → i < len
        → p < n
        → (if from_round (suc i) p o then buf (elem p o - g₀) else put_round i mem p o)
          ≡ (if from_round i p o then buf (elem p o - g₀) else mem p o)
    unfolding put_piece
    put_round-then i p o mem h inside in_team = elim (Bool-cases (reached_by (piece_of i) p o)) [
      | inl y ↦
          let k = o - (g₀ / n + over i) in
          let (e, fits) = reached i p o h inside y in
          let t = round_unique i p o k h e in
          let y₁ : from_round i p o ≡ true = ground arith in
          let n₁ : from_round (suc i) p o ≡ false = ground arith in
          let place : i + n * (0 + k) ≡ elem p o - g₀ = omega (arith, e) in
          rw (y₁, n₁, put_piece, y) (ap buf place)
      | inr z ↦
          rw (put_piece, z)
            (elim (Bool-cases (from_round i p o)) [
              | inl y ↦
                  let x = elem p o - g₀ in
                  let d = div-add-mod x n in
                  let other : round p o ≢ i = (λ e.
                    let y₂ =
                      (reaches i p o (x / n) h inside in_team (ground arith) (ground arith)).0 in
                    cc) in
                  let y₁ : from_round (suc i) p o ≡ true = ground arith in rw (y, y₁) refl
              | inr w ↦ let n₁ : from_round (suc i) p o ≡ false = ground arith in rw (w, n₁) refl
            ])
    ]

    cyclic_put_lem :
        (rounds i p o : ℕ) (mem : Region T)
        → i + rounds ≡ min len n
        → p < n
        → cyclic_put a g₀ len buf rounds i (over i) mem p o
          ≡ (if from_round i p o then buf (elem p o - g₀) else mem p o)
    unfolding cyclic_put
    cyclic_put_lem zero i p o mem e in_team =
        let x = elem p o - g₀ in
        let d = div-add-mod x n in
        let m = mod-lt x {m = n} valid.some_pes in
        let n₁ : from_round i p o ≡ false = ground arith in rw n₁ refl
    cyclic_put_lem (suc rounds) i p o mem e in_team =
        let h : i < n = omega arith in
        let inside : i < len = omega arith in
        rw (over-next i h) (
          cyclic_put_lem rounds (suc i) p o (put_round i mem) (omega arith) in_team
          ∙ put_round-then i p o mem h inside in_team)

module _ {F : Type 0} (a : UnsafeArrayInner F) (valid : IsValid a) where
  -- A put of `len` elements from `index` on within a valid cyclic (sub)array writes each element of the
  -- buffer to its place, on the PE that holds the element, and every other place of the team's
  -- PEs is as before: place `o` of PE `p` is that of element `num_pes * o + p` of the whole array.
  pub cyclic_put_writes :
      {T : Type 0} (index len : ℕ) (buf : ℕ → T) (mem : Region T) (p o : ℕ)
      → index + len ≤ a.size
      → p < a.num_pes
      → let g = a.num_pes * o + p in
        cyclic_op_put a index len buf mem p o ≡ (
          if leb (index + a.offset) g && ltb g (index + a.offset + len)
          then buf (g - (index + a.offset))
          else mem p o)
  unfolding cyclic_op_put
  cyclic_put_writes index len buf mem p o inside in_team =
      let g₀ = index + a.offset in
      let first : add_usize index a.offset ≡ g₀ = omega (arith, valid.small) in
      let m = mod-lt g₀ {m = a.num_pes} valid.some_pes in
      let g = a.num_pes * o + p in
      let over₀ : ℕ = if leb a.num_pes (g₀ % a.num_pes + 0) then 1 else 0 in
      let none_over : over₀ ≡ 0 = ground arith in
      let covered = leb g₀ g && ltb g (g₀ + len) in
      let from_first : (covered && leb 0 ((g - g₀) % a.num_pes)) ≡ covered = ground arith in
      let written =
        cyclic_put_lem a valid g₀ len buf (min len a.num_pes) 0 p o mem (omega arith) in_team
        ∙ ap (λ b. if b then buf (g - g₀) else mem p o) from_first in
      rw (first, cyclic_op_put)
        (subst
          (λ v.
            cyclic_put a g₀ len buf (min len a.num_pes) 0 v mem p o
            ≡ (if covered then buf (g - g₀) else mem p o))
          none_over written)

  -- `get_unchecked` of a cyclic (sub)array of which element `i` behind `index` is one reads the element's
  -- place exactly where the (sub)array begins with the whole array.
  pub unchecked_place_iff :
      (index i : ℕ)
      → index + i < a.size
      → (unchecked_place a index i
          ≡ ((a.offset + index + i) % a.num_pes, (a.offset + index + i) / a.num_pes))
        ↔ (a.offset ≡ 0)
  unfolding unchecked_place
  unchecked_place_iff index i inside =
      let no_wrap : add_usize index i ≡ index + i = omega (arith, valid.small) in
      let x = a.offset + index + i in
      let d₁ = div-add-mod x a.num_pes in
      let d₂ = div-add-mod (index + i) a.num_pes in
      (
        λ e.
            let q = ap (λ (z : ℕ × ℕ). a.num_pes * z.1 + z.0) (rw no_wrap at e) in
            omega (arith, q, d₁, d₂),
        λ z. rw (no_wrap, z, zero-add) refl,
      )
