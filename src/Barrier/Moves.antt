-- ===== src/Barrier/Moves.antt =====
-- The state after one PE of the barrier has moved on, and what a turn does to what is known.
use lamellar_runtime.Prelude.{
  ℕ, ◌+◌, ◌≤◌, ◌<◌, ◌≡◌, refl, sym, ap, subst, ◌≢◌, false, none, List, arith, dec_lt, dec_le,
  ℕ_discrete, ltb, leb, lt→ltb, le→leb, eq→==, ne→==, All, All-imp,
}
use lamellar_runtime.Barrier.{
  Barrier, team_send_pe, team_recv_pe, Pos, outside, sending, receiving, Pe, Put, Team, turn,
  set_pe, post,
}
use lamellar_runtime.Barrier.Peers.{IsValid, team_recv_pe-team_send_pe}
use lamellar_runtime.Barrier.Invariant.{AtPos, Past, Done, PeInv, Inv}

set_pe-cases :
    (P : Pe → Type 0) (pes : ℕ → Pe) (p q : ℕ) (pe : Pe)
    → (q ≡ p → P pe)
    → (q ≢ p → P (pes q))
    → P (set_pe pes p pe q)
set_pe-cases P pes p q pe same other = elim (ℕ_discrete q p) [
  | yes e ↦ rw (eq→== q p e) (same e)
  | no n ↦ rw (ne→== q p n) (other n)
]

module _ (b : Barrier) (valid : IsValid b) where
  pub AtPos-mono :
      (ids ids' : ℕ → ℕ) (p : ℕ)
      → ids p ≡ ids' p
      → ((q : ℕ) → ids q ≤ ids' q)
      → (pos : Pos) → AtPos b ids p pos
      → AtPos b ids' p pos
  AtPos-mono ids ids' p same up outside here = λ q h. omega (arith, here q h, up q, same)
  AtPos-mono ids ids' p same up (sending r i) here =
      λ q d h near e. omega (arith, here q d h near e, up q, same)
  AtPos-mono ids ids' p same up (receiving r i) here =
      (here.0, here.1, λ q d h near e. omega (arith, here.2 q d h near e, up q, same))

  pub turn-Past :
      (buf : ℕ → ℕ → ℕ → ℕ) (p c r : ℕ) (pos : Pos) → Past r pos → Past r (turn b buf p c pos).0
  unfolding turn
  turn-Past buf p c r outside past = past
  turn-Past buf p c r (sending round i) past = ground (arith, past)
  turn-Past buf p c r (receiving round i) past = ground (arith, past)

  -- The message of a turn says of its sender that the rounds before its own are behind it.
  pub turn-sent :
      (t : Team) (p : ℕ) (pos : Pos)
      → p < b.num_pes
      → (P : Put → Type 0)
      → ((put : Put)
          → team_recv_pe b put.target put.i put.round ≡ p
          → put.value ≡ (t.pes p).barrier_id
          → Past put.round (turn b t.buf p (t.pes p).barrier_id pos).0
          → P put)
      → All P t.puts
      → All P (post (turn b t.buf p (t.pes p).barrier_id pos).1 t.puts)
  unfolding turn
  turn-sent t p outside known P new all = all
  turn-sent t p (sending round i) known P new all = elim (dec_lt round b.num_rounds) [
    | no over ↦ let e : ltb round b.num_rounds ≡ false = ground arith in rw e all
    | yes inside ↦ (elim (dec_le i b.n) [
      | no past ↦
          let e : leb i b.n ≡ false = ground arith in rw (lt→ltb round b.num_rounds inside, e) all
      | yes peer ↦ (elim (ℕ_discrete (team_send_pe b p i round) p) [
        | yes self ↦
            rw
              (
                lt→ltb round b.num_rounds inside,
                le→leb i b.n peer,
                eq→== (team_send_pe b p i round) p self,
              )
              all
        | no n ↦
            rw
              (
                lt→ltb round b.num_rounds inside,
                le→leb i b.n peer,
                ne→== (team_send_pe b p i round) p n,
              )
              (
                new
                    (record {
                      target = team_send_pe b p i round;
                      i = i;
                      round = round;
                      value = (t.pes p).barrier_id;
                    })
                    (team_recv_pe-team_send_pe b valid p i round known peer inside).1 refl
                    (turn-Past t.buf p (t.pes p).barrier_id round (sending round i) (omega arith)),
                all,
              )
      ])
    ])
  ]
  turn-sent t p (receiving round i) known P new all = rw quiet all
    where
      quiet : (turn b t.buf p (t.pes p).barrier_id (receiving round i)).1 ≡ none
      quiet = ground arith

  module _ (t : Team) (p : ℕ) (pe : Pe) (inv : Inv b t) (known : p < b.num_pes)
      (up : (t.pes p).barrier_id ≤ pe.barrier_id)
      (done : (r c : ℕ) → Done (t.pes p) r c → Done pe r c) where
    unfoldable pub pes' : ℕ → Pe
    pes' = set_pe t.pes p pe

    unfoldable pub ids' : ℕ → ℕ
    ids' q = (pes' q).barrier_id

    pub ids-le : (q : ℕ) → (t.pes q).barrier_id ≤ ids' q
    unfolding ids' pes'
    ids-le q =
        set_pe-cases (λ x. (t.pes q).barrier_id ≤ x.barrier_id) t.pes p q pe (λ e. rw e up)
          (λ _. omega arith)

    kept : (s r c : ℕ) → Done (t.pes s) r c → Done (pes' s) r c
    unfolding pes'
    kept s r c d = set_pe-cases (λ x. Done x r c) t.pes p s pe (λ e. done r c (rw (← e) d)) (λ n. d)

    pub moved : pes' p ≡ pe
    unfolding pes'
    moved = rw (eq→== p p refl) refl

    other : (q : ℕ) → q < b.num_pes → q ≢ p → PeInv b pes' q
    unfolding ids' pes'
    other q h n =
        let same : pes' q ≡ t.pes q = rw (ne→== q p n) refl in
        let old = inv.each q h in
        record {
          counted = subst (λ x. x.barrier_cnt ≡ x.barrier_id + 1) (sym same) old.counted;
          last = λ q' h'. omega (arith, ap (λ x. x.barrier_id) same, old.last q' h', ids-le q');
          here =
              subst (λ x. AtPos b ids' q x.pos) (sym same)
                (AtPos-mono (λ q'. (t.pes q').barrier_id) ids' q (sym (ap (λ x. x.barrier_id) same))
                  ids-le (t.pes q).pos old.here);
        }

    -- The state after PE `p` has become `pe`, with messages that keep their word.
    pub move_pe :
        (puts : List Put)
        → pe.barrier_cnt ≡ pe.barrier_id + 1
        → ((q : ℕ) → q < b.num_pes → pe.barrier_id ≤ ids' q + 1)
        → AtPos b ids' p pe.pos
        → All
            (λ put. Done (pes' (team_recv_pe b put.target put.i put.round)) put.round put.value)
            puts
        → Inv b (record t { pes = pes'; puts = puts })
    unfolding pes' ids'
    move_pe puts counted last here sent = record {
      each = λ q h. elim (ℕ_discrete q p) [
        | yes e ↦ subst (PeInv b pes') (sym e) (record {
          counted = subst (λ x. x.barrier_cnt ≡ x.barrier_id + 1) (sym moved) counted;
          last = λ q' h'. omega (arith, ap (λ x. x.barrier_id) moved, last q' h');
          here = subst (λ x. AtPos b ids' p x.pos) (sym moved) here;
        })
        | no n ↦ other q h n
      ];
      slots = λ q i r. kept (team_recv_pe b q i r) r (t.buf q i r) (inv.slots q i r);
      sent = sent;
    }

  pub kept-sent :
      (t : Team) (p : ℕ) (pe : Pe) (inv : Inv b t) (known : p < b.num_pes)
      (up : (t.pes p).barrier_id ≤ pe.barrier_id)
      (done : (r c : ℕ) → Done (t.pes p) r c → Done pe r c)
      → All
          (λ put.
            Done
              (set_pe t.pes p pe (team_recv_pe b put.target put.i put.round))
              put.round
              put.value)
          t.puts
  unfolding pes'
  kept-sent t p pe inv known up done =
      All-imp
        (λ put d.
          kept t p pe inv known up done (team_recv_pe b put.target put.i put.round) put.round
            put.value d)
        t.puts inv.sent
