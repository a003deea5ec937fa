-- ===== src/CommandQueues/Transfers.antt =====
-- The announcement of buffers: one at a time, and none that is done is kept back.
use lamellar_runtime.Prelude.{
  ℕ, ◌≤◌, ◌<◌, ◌≡◌, refl, inl, inr, some, List, [], ◌∷◌, arith, eq→==, length, All, keyed,
}
use lamellar_runtime.CommandQueues.Hash.{Memory}
use lamellar_runtime.CommandQueues.Messages.{release, tx}
use lamellar_runtime.CommandQueues.Bufs.{CmdBuf, state}
use lamellar_runtime.CommandQueues.Places.{in_tx}
use lamellar_runtime.CommandQueues.Owned.{Shape, count, keyed-addr}
use lamellar_runtime.CommandQueues.Link.{Link, progress_transfers}
use lamellar_runtime.CommandQueues.Exchange.{System, Reach}
use lamellar_runtime.CommandQueues.Progress.{progress_transfers-outcome}
use lamellar_runtime.CommandQueues.Single.{NoClash, looked-Left}
use lamellar_runtime.CommandQueues.Conserved.{Sound, reach-Sound}

keyed-length : (k : ℕ) (es : List (ℕ × CmdBuf)) → All (λ e. e.0 ≡ k) es → keyed k es ≡ length es
keyed-length k [] all = refl
keyed-length k (e ∷ es) all = rw (eq→== e.0 k all.0) (omega (arith, keyed-length k es all.1))

module _ (Seen : Memory → Type 0) (n : ℕ) (addrs : List ℕ) (some_size : 0 < n)
    (distinct : (a : ℕ) → count a addrs ≤ 1) (clear_hash : NoClash Seen n addrs) {s : System}
    (r : Reach Seen n addrs s) where
  sound : Sound Seen n addrs s
  sound = reach-Sound Seen n addrs some_size distinct r

  -- Where no announcement has the hash of `clear_cmd`: in every state that a link with distinct buffers and its
  -- receiver reach, at most one buffer is in transfer, and the command slot holds its address.
  pub one_transfer :
      (length s.link.cmd_buffer.tx_bufs ≤ 1)
      × All (λ e. e.0 ≡ s.link.send_cmd.daddr) s.link.cmd_buffer.tx_bufs
  one_transfer =
      let one = sound.single clear_hash in
      (
        omega (
          arith,
          keyed-length s.link.send_cmd.daddr s.link.cmd_buffer.tx_bufs one.named,
          keyed-addr (Shape n) in_tx s.link.send_cmd.daddr s.link.cmd_buffer.tx_bufs
              sound.valid.shape.txs,
          sound.valid.each s.link.send_cmd.daddr,
          distinct s.link.send_cmd.daddr,
        ),
        one.named,
      )

  -- Where no announcement has the hash of `clear_cmd`: in every state that a link with distinct buffers and its
  -- receiver reach, `progress_transfers` returns, and after it the receiver still has to copy every buffer in transfer
  -- and to free every waiting buffer: all that it freed are among the empty ones again.
  pub progress_completes :
      (l : Link) × (progress_transfers s.link ≡ some l)
      × All (λ e. state e.1 ≡ some tx) l.cmd_buffer.tx_bufs
      × All (λ e. state e.1 ≡ some release) l.cmd_buffer.waiting_bufs
  progress_completes =
      let (l, q, p) = progress_transfers-outcome n addrs distinct s.link sound.valid in
      let copying : All (λ e. state e.1 ≡ some tx) l.cmd_buffer.tx_bufs =
        elim (looked-Left n addrs distinct s.link l sound.valid (sound.single clear_hash)
          p.looked) [ inl e ↦ rw e tt | inr (b, e, ec, at, h) ↦ rw e (at, tt) ] in
      (l, q, copying, p.released)
