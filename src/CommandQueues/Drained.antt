-- ===== src/CommandQueues/Drained.antt =====
-- What a link keeps in every state that it and its receiver reach, and what an empty one has done.
use lamellar_runtime.Prelude.{
  ℕ, ◌+◌, ◌≤◌, ◌<◌, ◌≡◌, refl, ap, ◌≢◌, ◌↔◌, true, Option, none, some, List, [], ◌∷◌, arith, eq→==,
  ==→eq, length, All, All-imp, total, total-eq-zero, total-one,
}
use lamellar_runtime.CommandQueues.Hash.{Memory}
use lamellar_runtime.CommandQueues.Bufs.{CmdBuf, CmdMsgBuffer, empty}
use lamellar_runtime.CommandQueues.Places.{
  in_empty, in_full, in_tx, in_waiting, in_cur, weigh_cur, weigh,
}
use lamellar_runtime.CommandQueues.Owned.{Shape, at_rest, owned, count}
use lamellar_runtime.CommandQueues.Link.{progress_transfers, send_turn, wait_turn}
use lamellar_runtime.CommandQueues.Freeing.{refers, pending}
use lamellar_runtime.CommandQueues.Exchange.{System, Reach}
use lamellar_runtime.CommandQueues.Progress.{progress_transfers-outcome}
use lamellar_runtime.CommandQueues.Turns.{send_turn-outcome, wait_turn-outcome}
use lamellar_runtime.CommandQueues.Conserved.{Sound, reach-Sound}

total_one-none : {A : Type 0} (xs : List A) → total (λ x. 1) xs ≡ 0 → xs ≡ []
total_one-none [] e = refl
total_one-none (x ∷ xs) e = absurd (omega (arith, e))

cur_one-none : (o : Option CmdBuf) → weigh_cur (λ b. 1) o ≡ 0 → o ≡ none
cur_one-none none e = refl
cur_one-none (some b) e = absurd (omega (arith, e))

-- Every buffer stands among the empty ones.
abbrev pub AllEmpty : CmdMsgBuffer → Type 0
AllEmpty s = (s.full_bufs ≡ []) × (s.tx_bufs ≡ []) × (s.waiting_bufs ≡ []) × (s.cur_buf ≡ none)

empty-AllEmpty : (s : CmdMsgBuffer) → weigh (λ p b. 1) s ≡ s.num_bufs → empty s ≡ true → AllEmpty s
unfolding empty
empty-AllEmpty s number e =
    let same : length s.empty_bufs ≡ s.num_bufs = ==→eq (length s.empty_bufs) s.num_bufs e in
    let others : total (λ b. 1) s.full_bufs
          + total (λ b. 1) s.tx_bufs
          + total (λ b. 1) s.waiting_bufs
          + weigh_cur (λ b. 1) s.cur_buf
        ≡ 0 =
      omega (arith, same, number, total-one s.empty_bufs) in
    (
      total_one-none s.full_bufs (omega (arith, others)),
      total_one-none s.tx_bufs (omega (arith, others)),
      total_one-none s.waiting_bufs (omega (arith, others)),
      cur_one-none s.cur_buf (omega (arith, others)),
    )

AllEmpty-empty : (s : CmdMsgBuffer) → weigh (λ p b. 1) s ≡ s.num_bufs → AllEmpty s → empty s ≡ true
unfolding empty
AllEmpty-empty s number (f, t, w, c) = eq→== (length s.empty_bufs) s.num_bufs (
    omega (
      arith,
      number,
      total-one s.empty_bufs,
      ap (total (λ b. 1)) f,
      ap (total (λ e. 1)) t,
      ap (total (λ e. 1)) w,
      ap (weigh_cur (λ b. 1)) c,
    ))

at_rest-refers :
    (n x : ℕ) (bs : List CmdBuf) → All (Shape n in_empty) bs → total (refers x in_empty) bs ≡ 0
at_rest-refers n x bs all =
    total-eq-zero (refers x in_empty) bs (All-imp (λ b h. nothing_in b h) bs all)
  where
    nothing_in : (b : CmdBuf) → Shape n in_empty b → refers x in_empty b ≡ 0
    nothing_in b (at_rest g e) = rw e refl

module _ (Seen : Memory → Type 0) (n : ℕ) (addrs : List ℕ) (some_size : 0 < n)
    (distinct : (a : ℕ) → count a addrs ≤ 1) {s : System} (r : Reach Seen n addrs s) where
  sound : Sound Seen n addrs s
  sound = reach-Sound Seen n addrs some_size distinct r

  -- In every state that a link with distinct buffers and its receiver reach, an address stands over all five
  -- places of the link's buffers as often as among the addresses that it was made with.
  pub buf_once : (a : ℕ) → owned a s.link.cmd_buffer ≡ count a addrs
  buf_once a = sound.valid.each a

  -- In every state that a link with distinct buffers and its receiver reach, the commands pushed so far that
  -- refer to a count are those still in a buffer and those that have lowered the count, once each.
  pub commands_kept :
      (x : ℕ) → pending x s.link.cmd_buffer + count x s.link.heap.lowered ≡ count x s.pushed
  commands_kept x = sound.all_there x

  -- In every state that a link with distinct buffers and its receiver reach, neither loop of `send` panics on data
  -- that is not null and not empty, and `progress_transfers` does not panic.
  pub turns_never_panic :
      (memory : Memory) (seen : Seen memory) (pending_cmds addr len h : ℕ)
      → addr ≢ 0
      → len ≢ 0
      → (send_turn memory pending_cmds s.link addr len h ≢ none)
        × (wait_turn memory pending_cmds s.link ≢ none)
        × (progress_transfers s.link ≢ none)
  turns_never_panic memory seen pending_cmds addr len h na nl =
      let (ok, l, q, _) =
        send_turn-outcome Seen n addrs distinct memory seen pending_cmds addr len h s.link some_size
          na nl sound.valid in
      let (done, l', q', _) =
        wait_turn-outcome Seen n addrs distinct memory seen pending_cmds s.link sound.valid in
      let (l'', q'', _) = progress_transfers-outcome n addrs distinct s.link sound.valid in
      ((λ e. absurd (cc)), (λ e. absurd (cc)), (λ e. absurd (cc)))

  -- In every state that a link with distinct buffers and its receiver reach, `empty` says whether all buffers stand
  -- among the empty ones.
  pub empty_iff : (empty s.link.cmd_buffer ≡ true) ↔ AllEmpty s.link.cmd_buffer
  empty_iff = (
    empty-AllEmpty s.link.cmd_buffer sound.valid.number,
    AllEmpty-empty s.link.cmd_buffer sound.valid.number,
  )

  -- In every state that a link with distinct buffers and its receiver reach, once `empty` is true every command that
  -- was pushed has lowered its count, once.
  pub empty-drained :
      empty s.link.cmd_buffer ≡ true → (x : ℕ) → count x s.link.heap.lowered ≡ count x s.pushed
  empty-drained e x =
      let (f, t, w, c) = empty_iff.0 e in
      omega (
        arith,
        commands_kept x,
        at_rest-refers n x s.link.cmd_buffer.empty_bufs sound.valid.shape.empties,
        ap (total (refers x in_full)) f,
        ap (total (λ e. refers x in_tx e.1)) t,
        ap (total (λ e. refers x in_waiting e.1)) w,
        ap (weigh_cur (refers x in_cur)) c,
      )
