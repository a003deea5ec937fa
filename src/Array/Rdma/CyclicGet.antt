-- ===== src/Array/Rdma/CyclicGet.antt =====
-- `cyclic_op` of a get that waits: each element of the buffer is read from its place.
use lamellar_runtime.Prelude.{
  ℕ, zero, suc, ◌+◌, ◌-◌, ◌*◌, ◌/◌, ◌%◌, ◌≤◌, ◌<◌, min, ◌≡◌, refl, ap, ◌∙◌, subst, Bool, true,
  false, ◌&&◌, arith, dec_lt, ℕ_discrete, ltb, leb, ◌==◌, if◌then◌else◌, Bool-cases, inl, inr,
  add_usize, mul_lt,
}
use lamellar_runtime.Array.Inner.{UnsafeArrayInner}
use lamellar_runtime.Array.Cyclic.Layout.{IsValid}
use lamellar_runtime.Array.Rdma.{Region, get_piece, copy_steps, cyclic_get, cyclic_op_get}
use lamellar_runtime.Array.Rdma.CyclicOp.{div_unique, over, round_split, over-next}
use native.Mathlib.Nat.{div-add-mod, mod-lt}

module _ {F : Type 0} (a : UnsafeArrayInner F) (valid : IsValid a) (g₀ len : ℕ) where
  abbrev n : ℕ
  n = a.num_pes

  -- The places that a round takes are as many as the elements that it copies.
  in_round :
      (i j : ℕ)
      → j < len
      → j % n ≡ i
      → (j / n < len / n + (if ltb i (len % n) then 1 else 0))
        × (i ≤ j)
        × ((j - i) % n ≡ 0)
        × ((j - i) / n ≡ j / n)
  in_round i j h e =
      let d = div-add-mod j n in
      let m = mod-lt j {m = n} valid.some_pes in
      let d₁ = div-add-mod len n in
      let m₁ = mod-lt len {m = n} valid.some_pes in
      let d₂ = div-add-mod (j - i) n in
      let m₂ = mod-lt (j - i) {m = n} valid.some_pes in
      let (eq_q, eq_r) =
        div_unique n ((j - i) / n) (j / n) ((j - i) % n) 0 m₂ valid.some_pes (omega arith) in
      (
        elim (dec_lt (j / n) (len / n)) [
          | yes below ↦ omega arith
          | no above ↦ elim (dec_lt (len / n) (j / n)) [
            | yes over ↦ absurd (omega (arith, mul_lt (len / n) (j / n) n over))
            | no not_over ↦
                let same : j / n ≡ len / n = omega arith in
                let less : j % n < len % n = omega (arith, ap (λ x. n * x) same) in ground arith
          ]
        ],
        omega arith,
        eq_r,
        eq_q,
      )

  -- The place of element `j` of the buffer.
  place :
      (i j : ℕ)
      → i < n
      → j % n ≡ i
      → ((g₀ % n + i) % n ≡ (g₀ + j) % n) × (g₀ / n + over a valid g₀ len i + j / n ≡ (g₀ + j) / n)
  place i j h e =
      let d = div-add-mod j n in
      let d₀ = div-add-mod g₀ n in
      let d₁ = div-add-mod (g₀ + j) n in
      let m₁ = mod-lt (g₀ + j) {m = n} valid.some_pes in
      let (split, small) = round_split a valid g₀ len i h in
      let (q, r) =
        div_unique n (g₀ / n + over a valid g₀ len i + j / n) ((g₀ + j) / n) ((g₀ % n + i) % n)
          ((g₀ + j) % n) small m₁ (omega (arith, split, d, d₀, d₁)) in
      (r, q)

  -- Only the elements of round `i` are copied in it.
  copied : (i j : ℕ) → i < n → i ≤ j → (j - i) % n ≡ 0 → j % n ≡ i
  copied i j h le e =
      let d = div-add-mod j n in
      let m = mod-lt j {m = n} valid.some_pes in
      let d₁ = div-add-mod (j - i) n in
      (div_unique n (j / n) ((j - i) / n) (j % n) i m h (omega arith)).1

  module _ {T : Type 0} (mem : Region T) where
    -- What the array holds for element `j` of the buffer.
    abbrev elem_at : ℕ → T
    elem_at j = mem ((g₀ + j) % n) ((g₀ + j) / n)

    abbrev from_round : ℕ → ℕ → Bool
    from_round i j = ltb j len && leb i (j % n)

    -- What the temporary region holds in round `i`.
    abbrev got : ℕ → (ℕ → T) → ℕ → T
    got i temp =
        get_piece mem
          (record {
            pe = (g₀ % n + i) % n;
            offset = g₀ / n + over a valid g₀ len i;
            buf_index = 0;
            len = len / n + (if ltb i (len % n) then 1 else 0);
          })
          temp

    got-elem :
        (i j : ℕ) (temp : ℕ → T) → i < n → j < len → j % n ≡ i → got i temp (j / n) ≡ elem_at j
    unfolding get_piece
    got-elem i j temp h inside e =
        let (low, _, _, _) = in_round i j inside e in
        let (ep, eo) = place i j h e in
        let y : (leb 0 (j / n) && ltb (j / n) (0 + (len / n + (if ltb i (len % n) then 1 else 0))))
            ≡ true =
          ground arith in
        let from_zero : j / n - 0 ≡ j / n = omega arith in rw (y, from_zero, get_piece) (cc)

    copy-then :
        (i j : ℕ) (temp buf : ℕ → T)
        → i < n
        → (if from_round (suc i) j then elem_at j else copy_steps i len n (got i temp) buf j)
          ≡ (if from_round i j then elem_at j else buf j)
    unfolding copy_steps
    copy-then i j temp buf h = elim (Bool-cases (ltb j len)) [
      | inr z ↦
          let n₂ : (leb i j && (false && (j - i) % n == 0)) ≡ false = ground arith in
          rw (z, copy_steps, n₂) refl
      | inl y ↦ (elim (ℕ_discrete (j % n) i) [
        | yes e ↦
            let inside : j < len = ground arith in
            let (_, le, rem, quot) = in_round i j inside e in
            let y₁ : from_round i j ≡ true = ground arith in
            let n₁ : from_round (suc i) j ≡ false = ground arith in
            let y₂ : (leb i j && (ltb j len && (j - i) % n == 0)) ≡ true = ground arith in
            rw (y₁, n₁, copy_steps, y₂, quot) (got-elem i j temp h inside e)
        | no other ↦
            let same : from_round (suc i) j ≡ from_round i j = ground arith in
            let n₂ : (leb i j && (ltb j len && (j - i) % n == 0)) ≡ false =
              elim (Bool-cases (leb i j && (ltb j len && (j - i) % n == 0))) [
                | inl y₂ ↦ absurd (other (copied i j h (ground arith) (ground arith)))
                | inr z ↦ z
              ] in
            rw (same, copy_steps, n₂) refl
      ])
    ]

    cyclic_get_lem :
        (rounds i j : ℕ) (temp buf : ℕ → T)
        → i + rounds ≡ min len n
        → cyclic_get a g₀ len mem rounds i (over a valid g₀ len i) temp buf j
          ≡ (if from_round i j then elem_at j else buf j)
    unfolding cyclic_get
    cyclic_get_lem zero i j temp buf e =
        let d = div-add-mod j n in
        let m = mod-lt j {m = n} valid.some_pes in
        let n₁ : from_round i j ≡ false = ground arith in rw n₁ refl
    cyclic_get_lem (suc rounds) i j temp buf e =
        let h : i < n = omega arith in
        rw (over-next a valid g₀ len i h) (
          cyclic_get_lem rounds (suc i) j (got i temp) (copy_steps i len n (got i temp) buf)
            (omega arith)
          ∙ copy-then i j temp buf h)

module _ {F : Type 0} (a : UnsafeArrayInner F) (valid : IsValid a) where
  -- A get of `len` elements from `index` on within a valid cyclic (sub)array that waits reads each
  -- element of the buffer from its place: element `j` is what the PE that holds element
  -- `index + j` of the (sub)array has there. Behind `len` the buffer is as before.
  pub cyclic_get_reads :
      {T : Type 0} (index len : ℕ) (mem : Region T) (temp buf : ℕ → T) (j : ℕ)
      → index + len ≤ a.size
      → let g = index + a.offset + j in
        cyclic_op_get a index len mem temp buf j
        ≡ (if ltb j len then mem (g % a.num_pes) (g / a.num_pes) else buf j)
  unfolding cyclic_op_get
  cyclic_get_reads index len mem temp buf j inside =
      let g₀ = index + a.offset in
      let first : add_usize index a.offset ≡ g₀ = omega (arith, valid.small) in
      let m = mod-lt g₀ {m = a.num_pes} valid.some_pes in
      let over₀ : ℕ = if leb a.num_pes (g₀ % a.num_pes + 0) then 1 else 0 in
      let none_over : over₀ ≡ 0 = ground arith in
      let value = mem ((g₀ + j) % a.num_pes) ((g₀ + j) / a.num_pes) in
      let from_first : (ltb j len && leb 0 (j % a.num_pes)) ≡ ltb j len = ground arith in
      let read =
        cyclic_get_lem a valid g₀ len mem (min len a.num_pes) 0 j temp buf (omega arith)
        ∙ ap (λ b. if b then value else buf j) from_first in
      rw (first, cyclic_op_get)
        (subst
          (λ v.
            cyclic_get a g₀ len mem (min len a.num_pes) 0 v temp buf j
            ≡ (if ltb j len then value else buf j))
          none_over read)
