-- ===== src/CommandQueues/Pushing.antt =====
-- What `try_push` does to the buffers.
use lamellar_runtime.Prelude.{
  ℕ, ◌+◌, ◌<◌, ◌≡◌, refl, ◌∙◌, ◌≢◌, ◌⊎◌, inl, inr, true, false, none, some, List, [], ◌∷◌, ◌++◌,
  set, arith, Bool-cases, Option-cases, length, pop_last, length-set,
}
use lamellar_runtime.CommandQueues.Messages.{tx, command, calc_hash}
use lamellar_runtime.CommandQueues.Bufs.{CmdBuf, CmdMsgBuffer, state, push, full, push_to, try_push}
use lamellar_runtime.CommandQueues.Places.{
  Place, in_empty, in_full, in_cur, AllAt, Takes, Moves, Takes-Puts, put_full, put_cur, take_empty,
  take_cur,
}
use lamellar_runtime.CommandQueues.Owned.{
  Good, Shape, at_rest, at_work, at_end, IsValid, push-some, set_tx, Moves-IsValid,
}

-- A buffer with room took the command.
pub record Pushed (n : ℕ) (s : CmdMsgBuffer) (addr len h : ℕ) (s' : CmdMsgBuffer) : Type 1 where
  pub from : Place
  pub to : Place
  pub before : CmdBuf
  pub after : CmdBuf
  pub pushed : push before addr len h ≡ some after
  pub room : before.index < length before.buf
  pub moves : Moves s from before to after s'
  pub shaped : Shape n to after
  pub addr_kept : after.addr ≡ before.addr
  pub txs : s'.tx_bufs ≡ s.tx_bufs

module _ (n addr len h : ℕ) (na : addr ≢ 0) (nl : len ≢ 0) where
  abbrev loaded : CmdBuf → CmdBuf
  loaded b = record b {
    buf = set b.buf b.index (command addr len tx h);
    index = b.index + 1;
    allocated_cnt = b.allocated_cnt + 1;
  }

  loaded-Good : (b : CmdBuf) → Good n b → b.index < n → Good n (loaded b)
  loaded-Good b g room = record {
    long = length-set b.buf b.index (command addr len tx h) ∙ g.long;
    sized = g.sized;
    inside = omega (arith, room);
    counted = omega (arith, g.counted);
  }

  loaded-state :
      (b : CmdBuf)
      → Good n b
      → b.index < n
      → ((0 < b.index) → state b ≡ some tx)
      → state (loaded b) ≡ some tx
  unfolding calc_hash
  loaded-state b g room at =
      set_tx b.buf b.index (command addr len tx h) (omega (arith, g.long, room)) refl at

  push_to-some :
      (s m : CmdMsgBuffer) (p : Place) (b : CmdBuf)
      → Takes s p b m
      → m.cur_buf ≡ none
      → m.tx_bufs ≡ s.tx_bufs
      → Good n b
      → b.index < n
      → ((0 < b.index) → state b ≡ some tx)
      → (s' : CmdMsgBuffer) × (push_to m b addr len h ≡ some (true, s')) × Pushed n s addr len h s'
  push_to-some s m p b t e et g room at = elim (Bool-cases (full (loaded b))) [
    | inl y ↦ (
      record m { cur_buf = none; full_bufs = m.full_bufs ++ (loaded b ∷ []) },
      rw (push-some b addr len h na nl, push_to, y) refl,
      record {
        from = p;
        to = in_full;
        before = b;
        after = loaded b;
        pushed = push-some b addr len h na nl;
        room = omega (arith, g.long, room);
        moves = Takes-Puts t (put_full m (loaded b) e);
        shaped = at_end (loaded-Good b g room) (omega arith) (loaded-state b g room at);
        addr_kept = refl;
        txs = et;
      },
    )
    | inr more ↦ (
      record m { cur_buf = some (loaded b) },
      rw (push-some b addr len h na nl, push_to, more) refl,
      record {
        from = p;
        to = in_cur;
        before = b;
        after = loaded b;
        pushed = push-some b addr len h na nl;
        room = omega (arith, g.long, room);
        moves = Takes-Puts t (put_cur m (loaded b) e);
        shaped =
            at_work (loaded-Good b g room) (omega arith) (ground (arith, more, g.sized, room))
              (loaded-state b g room at);
        addr_kept = refl;
        txs = et;
      },
    )
  ]

  -- What `try_push` gives: the command is taken, or no buffer is left and nothing changes.
  abbrev pub Outcome : CmdMsgBuffer → Type 1
  Outcome s =
      ((s' : CmdMsgBuffer) × (try_push s addr len h ≡ some (true, s')) × Pushed n s addr len h s')
      ⊎ ((try_push s addr len h ≡ some (false, s))
          × (s.cur_buf ≡ none)
          × (pop_last s.empty_bufs ≡ none))

  from_cur : {b : CmdBuf} → Shape n in_cur b → Good n b × (b.index < n) × (state b ≡ some tx)
  from_cur (at_work g pos room e) = (g, room, e)

  pub from_rest : {b : CmdBuf} → Shape n in_empty b → Good n b × (b.index ≡ 0)
  from_rest (at_rest g e) = (g, e)

  pub try_push-outcome : 0 < n → (s : CmdMsgBuffer) → AllAt (Shape n) s → Outcome s
  unfolding try_push
  try_push-outcome some_size s all = by_cur (Option-cases s.cur_buf)
    where
      by_empty :
          s.cur_buf ≡ none
          → (pop_last s.empty_bufs ≡ none)
            ⊎ ((x : CmdBuf × List CmdBuf) × (pop_last s.empty_bufs ≡ some x))
          → Outcome s
      by_empty e (inl q) = inr (simp (try_push, e, q) refl, e, q)
      by_empty e (inr ((b, rest), q)) =
          let t = take_empty s b rest q in
          let (g, z) = from_rest (t.kept (Shape n) all).0 in
          let (s', r, d) =
            push_to-some s (record s { empty_bufs = rest }) in_empty b t e refl g (omega (arith, z))
              (λ pos. absurd (omega (arith, z))) in
          inl (s', simp (try_push, e, q) r, d)

      by_cur : (s.cur_buf ≡ none) ⊎ ((b : CmdBuf) × (s.cur_buf ≡ some b)) → Outcome s
      by_cur (inl e) = by_empty e (Option-cases (pop_last s.empty_bufs))
      by_cur (inr (b, e)) =
          let t = take_cur s b e in
          let (g, room, at) = from_cur (t.kept (Shape n) all).0 in
          let (s', r, d) =
            push_to-some s (record s { cur_buf = none }) in_cur b t refl refl g room (λ pos. at) in
          inl (s', simp (try_push, e) r, d)

  pub Pushed-IsValid :
      (addrs : List ℕ) {s s' : CmdMsgBuffer}
      → Pushed n s addr len h s'
      → IsValid n addrs s
      → IsValid n addrs s'
  Pushed-IsValid addrs p v = Moves-IsValid n addrs p.moves p.addr_kept (λ x. p.shaped) v
