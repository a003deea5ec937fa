-- ===== src/Barrier/Invariant.antt =====
-- What a PE of the barrier knows of the others: behind round `r` of a barrier, that the (n + 1)^r PEs up to
-- itself have entered it, together with what each message under way and each slot says of its sender.
use lamellar_runtime.Prelude.{
  ℕ, suc, ◌+◌, ◌-◌, ◌*◌, ◌%◌, ◌^◌, ◌≤◌, ◌<◌, ◌≡◌, sym, ap, ◌∙◌, ◌≢◌, ◌⊎◌, inl, inr, false, arith,
  dec_lt, dec_le, ℕ_discrete, ltb, leb, lt→ltb, le→leb, eq→==, ne→==, All, mul_le,
}
use lamellar_runtime.Barrier.{
  Barrier, team_recv_pe, Pos, outside, sending, receiving, Pe, Team, turn,
}
use lamellar_runtime.Barrier.Peers.{IsValid, cancel_mod, team_recv_pe-behind}
use native.Mathlib.Nat.{mod-eq_of_lt, pow-le-pow_right, pow-succ', add-mul-mod_self_left}

-- The PEs less than `span` behind `p` have entered barrier `c`; `ids q` is the last barrier that `q` has
-- entered.
abbrev pub Heard : Barrier → (ℕ → ℕ) → ℕ → ℕ → ℕ → Type 0
Heard b ids p c span = (q d : ℕ) → q < b.num_pes → d < span → (q + d) % b.num_pes ≡ p → c ≤ ids q

abbrev pub AtPos : Barrier → (ℕ → ℕ) → ℕ → Pos → Type 0
AtPos b ids p outside = (q : ℕ) → q < b.num_pes → ids p ≤ ids q
AtPos b ids p (sending round i) = Heard b ids p (ids p) ((b.n + 1) ^ round)
AtPos b ids p (receiving round i) =
    (round < b.num_rounds) × (0 < i) × Heard b ids p (ids p) (i * (b.n + 1) ^ round)

-- The rounds below `round` are behind.
abbrev pub Past : ℕ → Pos → Type 0
Past round outside = Unit
Past round (sending r i) = round ≤ r
Past round (receiving r i) = round ≤ r

-- The PE has the rounds below `round` of barrier `c` behind it.
abbrev pub Done : Pe → ℕ → ℕ → Type 0
Done pe round c = (c < pe.barrier_id) ⊎ ((c ≤ pe.barrier_id) × Past round pe.pos)

pub record PeInv (b : Barrier) (pes : ℕ → Pe) (p : ℕ) : Type 0 where
  pub counted : (pes p).barrier_cnt ≡ (pes p).barrier_id + 1
  pub last : (q : ℕ) → q < b.num_pes → (pes p).barrier_id ≤ (pes q).barrier_id + 1
  pub here : AtPos b (λ q. (pes q).barrier_id) p (pes p).pos

pub record Inv (b : Barrier) (t : Team) : Type 0 where
  pub each : (p : ℕ) → p < b.num_pes → PeInv b t.pes p
  pub slots : (p i round : ℕ) → Done (t.pes (team_recv_pe b p i round)) round (t.buf p i round)
  pub sent :
      All
        (λ put. Done (t.pes (team_recv_pe b put.target put.i put.round)) put.round put.value)
        t.puts

module _ (b : Barrier) (valid : IsValid b) where
  -- From the PE that is `i` times (n + 1)^round behind, a PE hears of as many more.
  pub hear_more :
      (ids : ℕ → ℕ) (p c i round : ℕ)
      → p < b.num_pes
      → 0 < i
      → i ≤ b.n
      → round < b.num_rounds
      → Heard b ids p c (i * (b.n + 1) ^ round)
      → (team_recv_pe b p i round ≢ p
          → Heard b ids (team_recv_pe b p i round) c ((b.n + 1) ^ round))
      → Heard b ids p c (suc i * (b.n + 1) ^ round)
  hear_more ids p c i round known some_i peer inside own other q d known_q near e =
      let far = i * (b.n + 1) ^ round in
      let s = team_recv_pe b p i round in
      let (below, back) = team_recv_pe-behind b valid p i round known peer inside in
      elim (dec_lt d far) [
        | yes old ↦ own q d known_q old e
        | no new ↦
            let split : q + (d - far) + far ≡ q + d = omega arith in
            let from_s : (q + (d - far)) % b.num_pes ≡ s =
              cancel_mod (q + (d - far)) s far b.num_pes below
                (ap (λ z. z % b.num_pes) split ∙ e ∙ sym back) in
            let rest : d - far < (b.n + 1) ^ round = omega arith in
            (elim (ℕ_discrete s p) [
              | yes self ↦
                  own q (d - far) known_q (omega (arith, mul_le 1 i ((b.n + 1) ^ round) some_i))
                    (from_s ∙ self)
              | no n ↦ other n q (d - far) known_q rest from_s
            ])
      ]

  -- What a PE has heard when it has the rounds below `round` behind it.
  pub Done-Heard :
      (pes : ℕ → Pe) (s round c : ℕ)
      → PeInv b pes s
      → Done (pes s) round c
      → Heard b (λ q. (pes q).barrier_id) s c ((b.n + 1) ^ round)
  Done-Heard pes s round c inv done q d known_q near e = elim done [
    | inl before ↦ omega (arith, before, inv.last q known_q)
    | inr now ↦ omega (arith, now.0, at (pes s).pos inv.here now.1)
  ]
    where
      at :
          (pos : Pos)
          → AtPos b (λ q. (pes q).barrier_id) s pos
          → Past round pos
          → (pes s).barrier_id ≤ (pes q).barrier_id
      at outside here past = here q known_q
      at (sending r i) here past =
          here q d known_q (omega (arith, near, pow-le-pow_right {n = b.n + 1} (omega arith) past))
            e
      at (receiving r i) here past =
          here.2 q d known_q
            (omega (
              arith,
              near,
              pow-le-pow_right {n = b.n + 1} (omega arith) past,
              mul_le 1 i ((b.n + 1) ^ r) here.1,
            ))
            e

  -- Behind the last round a PE has heard of all.
  pub Heard-all :
      (ids : ℕ → ℕ) (p c round : ℕ)
      → p < b.num_pes
      → b.num_rounds ≤ round
      → Heard b ids p c ((b.n + 1) ^ round)
      → (q : ℕ) → q < b.num_pes
      → c ≤ ids q
  Heard-all ids p c round known last heard q known_q =
      let wide : b.num_pes ≤ (b.n + 1) ^ round =
        omega (arith, valid.covers, pow-le-pow_right {n = b.n + 1} (omega arith) last) in
      elim (dec_le q p) [
        | yes le ↦
            heard q (p - q) known_q (omega arith)
              (ap (λ z. z % b.num_pes) (omega arith) ∙ mod-eq_of_lt known)
        | no gt ↦ heard q (b.num_pes - q + p) known_q (omega arith) (
            ap (λ z. z % b.num_pes) (omega arith)
            ∙ add-mul-mod_self_left p b.num_pes 1
            ∙ mod-eq_of_lt known)
      ]

  -- A turn keeps what its PE knows.
  pub turn-AtPos :
      (t : Team) (p : ℕ)
      → Inv b t
      → p < b.num_pes
      → (pos : Pos) → AtPos b (λ q. (t.pes q).barrier_id) p pos
      → AtPos b (λ q. (t.pes q).barrier_id) p (turn b t.buf p (t.pes p).barrier_id pos).0
  unfolding turn
  turn-AtPos t p inv known outside here = here
  turn-AtPos t p inv known (sending round i) here = elim (dec_lt round b.num_rounds) [
    | no over ↦
        let e : ltb round b.num_rounds ≡ false = ground arith in
        rw e (
          Heard-all (λ q. (t.pes q).barrier_id) p (t.pes p).barrier_id round known (omega arith)
            here)
    | yes inside ↦ (elim (dec_le i b.n) [
      | no all ↦
          let e : leb i b.n ≡ false = ground arith in
          rw (lt→ltb round b.num_rounds inside, e)
            (inside, omega arith, λ q d hq hd. here q d hq (omega (arith, hd)))
      | yes some_left ↦ rw (lt→ltb round b.num_rounds inside, le→leb i b.n some_left) here
    ])
  ]
  turn-AtPos t p inv known (receiving round i) here = elim (dec_le i b.n) [
    | no all ↦
        let e : leb i b.n ≡ false = ground arith in
        let wide : (b.n + 1) ^ suc round ≤ i * (b.n + 1) ^ round = omega (
          arith,
          pow-succ' (b.n + 1) round,
          mul_le (b.n + 1) i ((b.n + 1) ^ round) (omega arith),
        ) in
        rw e (λ q d hq hd. here.2 q d hq (omega (arith, hd, wide)))
    | yes peer ↦
        let s = team_recv_pe b p i round in
        let more =
          hear_more (λ q. (t.pes q).barrier_id) p (t.pes p).barrier_id i round known here.1 peer
            here.0 here.2 in
        let s_known = (team_recv_pe-behind b valid p i round known peer here.0).0 in
        let heard_s : ¬ (t.buf p i round < (t.pes p).barrier_id)
            → Heard b (λ q. (t.pes q).barrier_id) s (t.pes p).barrier_id ((b.n + 1) ^ round) =
          (λ h q d hq hd e. omega (
            arith,
            h,
            Done-Heard t.pes s round (t.buf p i round) (inv.each s s_known) (inv.slots p i round) q
                d hq hd e,
          )) in
        rw (le→leb i b.n peer) (elim (ℕ_discrete s p) [
          | yes self ↦ rw (eq→== s p self) (here.0, omega arith, more (λ n. absurd (n self)))
          | no n ↦ (elim (dec_lt (t.buf p i round) (t.pes p).barrier_id) [
            | yes early ↦ rw (ne→== s p n, lt→ltb (t.buf p i round) (t.pes p).barrier_id early) here
            | no written ↦
                let e : ltb (t.buf p i round) (t.pes p).barrier_id ≡ false = ground arith in
                rw (ne→== s p n, e) (here.0, omega arith, more (λ _. heard_s written))
          ])
        ])
  ]
