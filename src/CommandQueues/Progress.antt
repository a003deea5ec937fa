-- ===== src/CommandQueues/Progress.antt =====
-- What `progress_transfers` and `try_sending_buffer` do to a link.
use lamellar_runtime.Prelude.{
  ℕ, ◌+◌, ◌≤◌, ◌≡◌, refl, ◌⊎◌, inl, inr, Bool, true, false, ◌&&◌, ◌||◌, none, some, List, arith,
  ltb, ◌==◌, if◌then◌else◌, ==→eq, Bool-cases, length, pop_last, remove_key, and_right,
}
use lamellar_runtime.CommandQueues.Hash.{Memory}
use lamellar_runtime.CommandQueues.Messages.{CmdMsg, hash, clear_cmd}
use lamellar_runtime.CommandQueues.Bufs.{CmdMsgBuffer, flush_buffer}
use lamellar_runtime.CommandQueues.Owned.{count, IsValid, Moves-IsValid}
use lamellar_runtime.CommandQueues.Link.{Link, try_sending_buffer, progress_transfers}
use lamellar_runtime.CommandQueues.Sending.{
  Flushed, flush_buffer-outcome, Checked, TransferOutcome, check_transfer-outcome,
}
use lamellar_runtime.CommandQueues.Freeing.{refers, pending, check_free_data-outcome, AllReleased}

-- The commands that refer to `x`, still in a buffer or lowered.
abbrev pub accounted : ℕ → Link → ℕ
accounted x l = pending x l.cmd_buffer + count x l.heap.lowered

module _ (n : ℕ) (addrs : List ℕ) (distinct : (a : ℕ) → count a addrs ≤ 1) where
  -- The transfer that `progress_transfers` looked at: it has ended or not, or there was none.
  abbrev pub Looked : (l l' : Link) → IsValid n addrs l.cmd_buffer → Type 1
  Looked l l' v =
      ((l'.cmd_buffer.tx_bufs ≡ l.cmd_buffer.tx_bufs)
        × (l'.send_cmd ≡ l.send_cmd)
        × (remove_key l.send_cmd.daddr l.cmd_buffer.tx_bufs ≡ none))
      ⊎ ((finished : Bool) × (s : CmdMsgBuffer) × Checked n addrs distinct l.cmd_buffer v
            l.send_cmd.daddr finished s
          × (l'.cmd_buffer.tx_bufs ≡ s.tx_bufs)
          × (l'.send_cmd ≡ (if finished then clear_cmd else l.send_cmd)))

  pub record Progressed (l l' : Link) (v : IsValid n addrs l.cmd_buffer) : Type 1 where
    pub valid : IsValid n addrs l'.cmd_buffer
    pub kept : (x : ℕ) → accounted x l' ≡ accounted x l
    pub released : AllReleased n addrs distinct l'.cmd_buffer
    pub looked : Looked l l' v

  pub progress_transfers-outcome :
      (l : Link) (v : IsValid n addrs l.cmd_buffer)
      → (l' : Link) × (progress_transfers l ≡ some l') × Progressed l l' v
  unfolding progress_transfers
  progress_transfers-outcome l v =
      by_transfer (check_transfer-outcome n addrs distinct l.cmd_buffer v l.send_cmd.daddr)
    where
      by_transfer :
          TransferOutcome n addrs distinct l.cmd_buffer v l.send_cmd.daddr
          → (l' : Link) × (progress_transfers l ≡ some l') × Progressed l l' v
      by_transfer (inl (q, gone)) =
          let (s', h', r, back, all) =
            check_free_data-outcome n addrs distinct l.cmd_buffer l.heap v in
          (
            record l { cmd_buffer = s'; heap = h' },
            simp (progress_transfers, q, r) refl,
            record {
              valid = back.valid;
              kept = back.counted;
              released = all;
              looked = inl (back.txs, refl, gone);
            },
          )
      by_transfer (inr (f, s, q, c)) =
          let v' = Moves-IsValid n addrs c.moves refl (λ x. c.shaped) v in
          let (s', h', r, back, all) = check_free_data-outcome n addrs distinct s l.heap v' in
          (
            record l { send_cmd = if f then clear_cmd else l.send_cmd; cmd_buffer = s'; heap = h' },
            simp (progress_transfers, q, r) refl,
            record {
              valid = back.valid;
              kept = λ x. omega (arith, back.counted x, c.moves.weighed (refers x));
              released = all;
              looked = inr (f, s, c, back.txs, refl);
            },
          )

  -- A buffer was announced, or none was.
  pub record Offered (memory : Memory) (l l' : Link) : Type 1 where
    pub valid : IsValid n addrs l'.cmd_buffer
    pub kept : (x : ℕ) → accounted x l' ≡ accounted x l
    pub went :
        ((l'.cmd_buffer.tx_bufs ≡ l.cmd_buffer.tx_bufs) × (l'.send_cmd ≡ l.send_cmd))
        ⊎ (Flushed n memory l.cmd_buffer l'.send_cmd l'.cmd_buffer
            × (hash l.send_cmd ≡ hash clear_cmd))

  pub try_sending_buffer-Offered :
      (memory : Memory) (pending_cmds : ℕ) (l : Link)
      → IsValid n addrs l.cmd_buffer
      → Offered memory l (try_sending_buffer memory pending_cmds l).1
  unfolding try_sending_buffer
  try_sending_buffer-Offered memory pending_cmds l v = by_test (
      Bool-cases (
        ((pending_cmds == 0) || ltb 0 (length l.cmd_buffer.full_bufs))
        && (hash l.send_cmd == hash clear_cmd)))
    where
      sent_or_not :
          hash l.send_cmd ≡ hash clear_cmd
          → Flushed n memory l.cmd_buffer
              (flush_buffer memory l.send_cmd l.cmd_buffer).0
              (flush_buffer memory l.send_cmd l.cmd_buffer).1
            ⊎ ((flush_buffer memory l.send_cmd l.cmd_buffer ≡ (l.send_cmd, l.cmd_buffer))
                × (l.cmd_buffer.cur_buf ≡ none)
                × (pop_last l.cmd_buffer.full_bufs ≡ none))
          → (puts : List CmdMsg)
          → Offered memory l (record l {
            send_cmd = (flush_buffer memory l.send_cmd l.cmd_buffer).0;
            cmd_buffer = (flush_buffer memory l.send_cmd l.cmd_buffer).1;
            puts = puts;
          })
      sent_or_not clean (inl f) puts = record {
        valid = Moves-IsValid n addrs f.moves refl (λ x. f.shaped) v;
        kept = λ x. omega (arith, f.moves.weighed (refers x));
        went = inr (f, clean);
      }
      sent_or_not clean (inr q) puts =
          rw q.0 (record { valid = v; kept = λ x. refl; went = inl (refl, refl) })

      by_test :
          ((((pending_cmds == 0) || ltb 0 (length l.cmd_buffer.full_bufs))
                && (hash l.send_cmd == hash clear_cmd))
              ≡ true)
            ⊎ ((((pending_cmds == 0) || ltb 0 (length l.cmd_buffer.full_bufs))
                  && (hash l.send_cmd == hash clear_cmd))
                ≡ false)
          → Offered memory l (try_sending_buffer memory pending_cmds l).1
      by_test (inl y) =
          rw (y, try_sending_buffer)
            (sent_or_not
              (==→eq (hash l.send_cmd) (hash clear_cmd) (
                and_right ((pending_cmds == 0) || ltb 0 (length l.cmd_buffer.full_bufs))
                  (hash l.send_cmd == hash clear_cmd) y))
              (flush_buffer-outcome n addrs distinct l.cmd_buffer v memory l.send_cmd) _)
      by_test (inr z) =
          rw (z, try_sending_buffer)
            (record { valid = v; kept = λ x. refl; went = inl (refl, refl) })
