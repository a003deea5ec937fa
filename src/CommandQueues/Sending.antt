-- ===== src/CommandQueues/Sending.antt =====
-- What `flush_buffer` and `check_transfer` do to the buffers, and what the receiver writes to them.
use lamellar_runtime.Prelude.{
  ℕ, ◌≤◌, ◌<◌, ◌≡◌, refl, sym, ap, ◌∙◌, subst, ◌⊎◌, inl, inr, Bool, true, false, none, some, List,
  arith, ltb, if◌then◌else◌, lt→ltb, Option-cases, pop_last, insert_key, remove_key,
  remove_key-some,
}
use lamellar_runtime.CommandQueues.Hash.{Memory}
use lamellar_runtime.CommandQueues.Messages.{Cmd, free, release, tx, CmdMsg}
use lamellar_runtime.CommandQueues.Bufs.{
  CmdBuf, CmdMsgBuffer, state, flush_buffer, check_transfer, announce,
}
use lamellar_runtime.CommandQueues.Places.{
  Place, in_full, in_tx, in_waiting, in_cur, Takes, Puts, Moves, Takes-Puts, put_tx, put_waiting,
  take_full, take_cur, take_tx,
}
use lamellar_runtime.CommandQueues.Owned.{
  Good, Shape, at_work, at_end, sent, got, count, IsValid, taken_fresh,
}

-- A buffer of place `from` is announced and awaits the receiver.
pub record Flushed (n : ℕ) (memory : Memory) (s : CmdMsgBuffer) (cmd : CmdMsg) (s' : CmdMsgBuffer)
    : Type 1 where
  pub from : Place
  pub buf : CmdBuf
  pub announced : cmd ≡ announce memory buf
  pub moves : Moves s from buf in_tx buf s'
  pub shaped : Shape n in_tx buf
  pub listed : s'.tx_bufs ≡ insert_key buf.addr buf s.tx_bufs

module _ (n : ℕ) (addrs : List ℕ) (distinct : (a : ℕ) → count a addrs ≤ 1) (s : CmdMsgBuffer)
    (v : IsValid n addrs s) where
  end-sent : {b : CmdBuf} → Shape n in_full b → Shape n in_tx b
  end-sent (at_end g pos e) = sent g pos e (inl refl)

  work-sent : {b : CmdBuf} → Shape n in_cur b → Shape n in_tx b
  work-sent (at_work g pos room e) = sent g pos e (inl refl)

  -- A buffer goes out, the full ones first, or there is none and nothing changes.
  pub flush_buffer-outcome :
      (memory : Memory) (cmd : CmdMsg)
      → Flushed n memory s (flush_buffer memory cmd s).0 (flush_buffer memory cmd s).1
        ⊎ ((flush_buffer memory cmd s ≡ (cmd, s))
            × (s.cur_buf ≡ none)
            × (pop_last s.full_bufs ≡ none))
  unfolding flush_buffer
  flush_buffer-outcome memory cmd = by_full (Option-cases (pop_last s.full_bufs))
    where
      by_cur :
          pop_last s.full_bufs ≡ none
          → (s.cur_buf ≡ none) ⊎ ((b : CmdBuf) × (s.cur_buf ≡ some b))
          → Flushed n memory s (flush_buffer memory cmd s).0 (flush_buffer memory cmd s).1
            ⊎ ((flush_buffer memory cmd s ≡ (cmd, s))
                × (s.cur_buf ≡ none)
                × (pop_last s.full_bufs ≡ none))
      by_cur q (inl e) = inr (simp (flush_buffer, q, e) refl, e, q)
      by_cur q (inr (b, e)) =
          let t = take_cur s b e in
          let fresh = taken_fresh n addrs distinct v t in
          inl (
            simp (flush_buffer, q, e)
              (record {
                from = in_cur;
                buf = b;
                announced = refl;
                moves = Takes-Puts t (put_tx (record s { cur_buf = none }) b fresh.0);
                shaped = work-sent (t.kept (Shape n) v.shape).0;
                listed = refl;
              }))

      by_full :
          (pop_last s.full_bufs ≡ none)
            ⊎ ((x : CmdBuf × List CmdBuf) × (pop_last s.full_bufs ≡ some x))
          → Flushed n memory s (flush_buffer memory cmd s).0 (flush_buffer memory cmd s).1
            ⊎ ((flush_buffer memory cmd s ≡ (cmd, s))
                × (s.cur_buf ≡ none)
                × (pop_last s.full_bufs ≡ none))
      by_full (inl q) = by_cur q (Option-cases s.cur_buf)
      by_full (inr ((b, rest), q)) =
          let t = take_full s b rest q in
          let fresh = taken_fresh n addrs distinct v t in
          inl (
            simp (flush_buffer, q)
              (record {
                from = in_full;
                buf = b;
                announced = refl;
                moves = Takes-Puts t (put_tx (record s { full_bufs = rest }) b fresh.0);
                shaped = end-sent (t.kept (Shape n) v.shape).0;
                listed = refl;
              }))

  -- A buffer in transfer was looked at, and `finished` says that the receiver is done with it.
  pub record Checked (addr : ℕ) (finished : Bool) (s' : CmdMsgBuffer) : Type 1 where
    pub buf : CmdBuf
    pub rest : List (ℕ × CmdBuf)
    pub removed : remove_key addr s.tx_bufs ≡ some (buf, rest)
    pub named : buf.addr ≡ addr
    pub moves : Moves s in_tx buf (if finished then in_waiting else in_tx) buf s'
    pub shaped : Shape n (if finished then in_waiting else in_tx) buf
    pub left : s'.tx_bufs ≡ (if finished then rest else insert_key addr buf rest)
    pub waits : finished ≡ false → state buf ≡ some tx

  abbrev pub TransferOutcome : ℕ → Type 1
  TransferOutcome addr =
      ((check_transfer addr s ≡ some (false, s)) × (remove_key addr s.tx_bufs ≡ none))
      ⊎ ((finished : Bool) × (s' : CmdMsgBuffer) × (check_transfer addr s ≡ some (finished, s'))
          × Checked addr finished s')

  named-lem :
      (addr : ℕ) (b : CmdBuf) (rest : List (ℕ × CmdBuf))
      → remove_key addr s.tx_bufs ≡ some (b, rest)
      → b.addr ≡ addr
  named-lem addr b rest q =
      sym
        ((remove_key-some (λ e. (e.0 ≡ e.1.addr) × Shape n in_tx e.1) addr b s.tx_bufs rest q).1
          v.shape.txs).0.0

  module _ (addr : ℕ) (b : CmdBuf) (rest : List (ℕ × CmdBuf))
      (q : remove_key addr s.tx_bufs ≡ some (b, rest)) where
    taken : Takes s in_tx b (record s { tx_bufs = rest })
    taken = take_tx s addr b rest q

    still_sent : state b ≡ some tx → Shape n in_tx b → TransferOutcome addr
    unfolding check_transfer
    still_sent e shape =
        let name = named-lem addr b rest q in
        let fresh = taken_fresh n addrs distinct v taken in
        inr (
          false,
          record s { tx_bufs = insert_key addr b rest },
          simp (check_transfer, q, e) refl,
          record {
            buf = b;
            rest = rest;
            removed = q;
            named = name;
            moves = Takes-Puts taken (
                subst
                  (λ k.
                    Puts (record s { tx_bufs = rest }) in_tx b
                      (record s { tx_bufs = insert_key k b rest }))
                  name (put_tx (record s { tx_bufs = rest }) b fresh.0));
            shaped = shape;
            left = refl;
            waits = λ f. e;
          },
        )

    got_it :
        (c : Cmd)
        → state b ≡ some c
        → (c ≡ release) ⊎ (c ≡ free)
        → Good n b
        → 0 < b.index
        → TransferOutcome addr
    unfolding check_transfer
    got_it c e which g pos =
        let fresh = taken_fresh n addrs distinct v taken in
        let some_cmds : ltb 0 b.allocated_cnt ≡ true =
          lt→ltb 0 b.allocated_cnt (omega (arith, g.counted, pos)) in
        let moved : CmdMsgBuffer = record s {
          tx_bufs = rest;
          waiting_bufs = insert_key b.addr b s.waiting_bufs;
        } in
        let ran : check_transfer addr s ≡ some (true, moved) = elim which [
          | inl r ↦
              (let e' : state b ≡ some release = rw r at e in
                simp (check_transfer, q, e', some_cmds) refl)
          | inr f ↦
              (let e' : state b ≡ some free = rw f at e in
                simp (check_transfer, q, e', some_cmds) refl)
        ] in
        inr (
          true,
          moved,
          ran,
          record {
            buf = b;
            rest = rest;
            removed = q;
            named = named-lem addr b rest q;
            moves = Takes-Puts taken (put_waiting (record s { tx_bufs = rest }) b fresh.1);
            shaped = got g pos e which;
            left = refl;
            waits = λ f. absurd (cc);
          },
        )

    by_shape : Shape n in_tx b → TransferOutcome addr
    by_shape (sent {c = c} g pos e (inl t)) = still_sent (e ∙ ap some t) (sent g pos e (inl t))
    by_shape (sent {c = c} g pos e (inr t)) = got_it c e t g pos

  -- `check_transfer` does not panic, and moves the buffer that is named once the receiver has its commands.
  pub check_transfer-outcome : (addr : ℕ) → TransferOutcome addr
  unfolding check_transfer
  check_transfer-outcome addr = by_entry (Option-cases (remove_key addr s.tx_bufs))
    where
      by_entry :
          (remove_key addr s.tx_bufs ≡ none)
            ⊎ ((x : CmdBuf × List (ℕ × CmdBuf)) × (remove_key addr s.tx_bufs ≡ some x))
          → TransferOutcome addr
      by_entry (inl q) = inl (simp (check_transfer, q) refl, q)
      by_entry (inr ((b, rest), q)) =
          by_shape addr b rest q ((taken addr b rest q).kept (Shape n) v.shape).0
