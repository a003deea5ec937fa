-- ===== src/Barrier/Separation.antt =====
-- What the steps of the barrier keep, and when a PE leaves it.
use lamellar_runtime.Prelude.{
  ℕ, ◌+◌, ◌-◌, ◌%◌, ◌^◌, ◌≤◌, ◌<◌, ◌≡◌, refl, sym, ap, ◌∙◌, subst, inl, inr, ◌&&◌, some, remove_at,
  All-remove_at, arith, ◌==◌, eq→==, Bool-cases, get_elem?, All-get_elem?,
}
use lamellar_runtime.Barrier.{
  Barrier, team_recv_pe, outside, Pe, Put, Team, start, enter, turn, run_pe, set_pe, post, store,
  enters, runs, arrives, Reach, begin, later,
}
use lamellar_runtime.Barrier.Peers.{IsValid}
use lamellar_runtime.Barrier.Invariant.{AtPos, Done, Inv, turn-AtPos}
use lamellar_runtime.Barrier.Moves.{
  AtPos-mono, turn-Past, turn-sent, pes', ids', ids-le, moved, move_pe, kept-sent,
}
use native.Mathlib.Nat.{mod-eq_of_lt, pow-zero}

module _ (b : Barrier) (valid : IsValid b) where
  run_pe-Inv : (t : Team) (p : ℕ) → Inv b t → p < b.num_pes → Inv b (run_pe b t p)
  unfolding run_pe pes' ids'
  run_pe-Inv t p inv known =
      move_pe b valid t p pe inv known (omega arith) done
        (post (turn b t.buf p (t.pes p).barrier_id (t.pes p).pos).1 t.puts)
        (inv.each p known).counted
        (λ q h. omega (
          arith,
          (inv.each p known).last q h,
          ids-le b valid t p pe inv known (omega arith) done q,
        ))
        (AtPos-mono b valid (λ q. (t.pes q).barrier_id)
          (ids' b valid t p pe inv known (omega arith) done) p
          (sym (ap (λ x. x.barrier_id) (moved b valid t p pe inv known (omega arith) done)))
          (ids-le b valid t p pe inv known (omega arith) done) pe.pos
          (turn-AtPos b valid t p inv known (t.pes p).pos (inv.each p known).here))
        (turn-sent b valid t p (t.pes p).pos known
          (λ put.
            Done (set_pe t.pes p pe (team_recv_pe b put.target put.i put.round)) put.round
              put.value)
          (λ put e v past. rw (e, eq→== p p refl) (inr (omega (arith, v), past)))
          (kept-sent b valid t p pe inv known (omega arith) done))
    where
      pe : Pe
      pe = record (t.pes p) { pos = (turn b t.buf p (t.pes p).barrier_id (t.pes p).pos).0 }

      done : (r c : ℕ) → Done (t.pes p) r c → Done pe r c
      done r c d = elim d [
        | inl before ↦ inl before
        | inr now ↦
            inr (now.0, turn-Past b valid t.buf p (t.pes p).barrier_id r (t.pes p).pos now.1)
      ]

  arrives-Inv :
      (t : Team) (j : ℕ) (put : Put)
      → Inv b t
      → get_elem? t.puts j ≡ some put
      → Inv b (record t { buf = store t.buf put; puts = remove_at t.puts j })
  arrives-Inv t j put inv e = record {
    each = inv.each;
    slots = λ q i r. elim (Bool-cases (q == put.target && (i == put.i && r == put.round))) [
      | inl hit ↦
          let slot : (q ≡ put.target) × (i ≡ put.i) × (r ≡ put.round) = ground (arith, hit) in
          rw (hit, slot.0, slot.1, slot.2)
            (All-get_elem?
              (λ put. Done (t.pes (team_recv_pe b put.target put.i put.round)) put.round put.value)
              t.puts j put inv.sent e)
      | inr miss ↦ rw miss (inv.slots q i r)
    ];
    sent =
        All-remove_at
          (λ put. Done (t.pes (team_recv_pe b put.target put.i put.round)) put.round put.value)
          t.puts j inv.sent;
  }

  start-Inv : Inv b start
  unfolding start
  start-Inv = record {
    each = λ p h. record { counted = refl; last = λ q h'. omega arith; here = λ q h'. omega arith };
    slots = λ p i r. inr (omega arith, tt);
    sent = tt;
  }

  enter-Inv :
      (t : Team) (p : ℕ)
      → Inv b t
      → p < b.num_pes
      → (t.pes p).pos ≡ outside
      → (t.pes p).barrier_cnt < 2 ^ 64 - 1
      → Inv b (record t { pes = set_pe t.pes p (enter (t.pes p)) })
  unfolding enter pes' ids'
  enter-Inv t p inv known out few =
      move_pe b valid t p pe inv known up done t.puts
        (omega (arith, (inv.each p known).counted, few))
        (λ q h. omega (
          arith,
          (inv.each p known).counted,
          everyone q h,
          ids-le b valid t p pe inv known up done q,
        ))
        (λ q d h near e. alone q d h near e) (kept-sent b valid t p pe inv known up done)
    where
      pe : Pe
      pe = enter (t.pes p)

      up : (t.pes p).barrier_id ≤ pe.barrier_id
      up = omega (arith, (inv.each p known).counted)

      done : (r c : ℕ) → Done (t.pes p) r c → Done pe r c
      done r c d = inl (ground (arith, d, (inv.each p known).counted))

      alone :
          (q d : ℕ)
          → q < b.num_pes
          → d < (b.n + 1) ^ 0
          → (q + d) % b.num_pes ≡ p
          → ids' b valid t p pe inv known up done p ≤ ids' b valid t p pe inv known up done q
      alone q d h near e =
          let zero_d : d ≡ 0 = omega (arith, near, pow-zero (b.n + 1)) in
          let same : q ≡ p =
            sym (mod-eq_of_lt h) ∙ ap (λ z. z % b.num_pes) (omega (arith, zero_d)) ∙ e in
          rw same (omega arith)

      everyone : (q : ℕ) → q < b.num_pes → (t.pes p).barrier_id ≤ (t.pes q).barrier_id
      everyone = subst (AtPos b (λ q. (t.pes q).barrier_id) p) out (inv.each p known).here

  pub Reach-Inv : {t : Team} → Reach b t → Inv b t
  Reach-Inv begin = start-Inv
  Reach-Inv (later {t = t} r (enters p known out few)) = enter-Inv t p (Reach-Inv r) known out few
  Reach-Inv (later {t = t} r (runs p known)) = run_pe-Inv t p (Reach-Inv r) known
  Reach-Inv (later {t = t} r (arrives j put e)) = arrives-Inv t j put (Reach-Inv r) e

  -- In every state that a valid barrier reaches, whatever the order of turns and arrivals: a PE that is
  -- outside the barrier after its k-th call finds every PE of the team to have entered its own k-th call.
  pub barrier_separates :
      {t : Team}
      → Reach b t
      → (p q : ℕ) → p < b.num_pes
      → q < b.num_pes
      → (t.pes p).pos ≡ outside
      → (t.pes p).barrier_id ≤ (t.pes q).barrier_id
  barrier_separates {t = t} r p q known known_q out =
      subst (AtPos b (λ q. (t.pes q).barrier_id) p) out ((Reach-Inv r).each p known).here q known_q
