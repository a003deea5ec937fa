-- ===== src/CommandQueues/Turns.antt =====
-- What a turn of `send` does to a link.
use lamellar_runtime.Prelude.{
  ℕ, suc, ◌+◌, ◌≤◌, ◌<◌, ◌≡◌, refl, sym, ap, ◌∙◌, ◌≢◌, inl, inr, Bool, true, false, none, some,
  List, arith, ltb, ◌==◌, if◌then◌else◌, lt→ltb, Bool-cases, length, sub_usize, total-take-set,
}
use lamellar_runtime.CommandQueues.Hash.{Memory}
use lamellar_runtime.CommandQueues.Messages.{tx, command, calc_hash}
use lamellar_runtime.CommandQueues.Bufs.{CmdBuf, push, empty}
use lamellar_runtime.CommandQueues.Places.{Place}
use lamellar_runtime.CommandQueues.Owned.{count, IsValid, push-some}
use lamellar_runtime.CommandQueues.Link.{
  Link, try_sending_buffer, progress_transfers, send_turn, wait_turn,
}
use lamellar_runtime.CommandQueues.Pushing.{Outcome, try_push-outcome, Pushed-IsValid}
use lamellar_runtime.CommandQueues.Freeing.{lowers, refers}
use lamellar_runtime.CommandQueues.Progress.{
  accounted, progress_transfers-outcome, try_sending_buffer-Offered,
}
use lamellar_runtime.CommandQueues.Single.{
  NoClash, Single, same-Single, Looked-Single, Offered-Single,
}

-- The command that is pushed refers to one count.
push-refers :
    (x : ℕ) (b b' : CmdBuf) (addr len h : ℕ) (p q : Place)
    → addr ≢ 0
    → len ≢ 0
    → b.index < length b.buf
    → push b addr len h ≡ some b'
    → refers x q b' ≡ refers x p b + (if sub_usize addr 8 == x then 1 else 0)
unfolding calc_hash
push-refers x b b' addr len h p q na nl room e =
    let made : some b' ≡ _ = sym e ∙ push-some b addr len h na nl in
    let counted : refers x q b' ≡ _ = ap (λ o. elim o [ none ↦ 0 | some c ↦ refers x q c ]) made in
    let positive : ltb 0 len ≡ true = lt→ltb 0 len (omega arith) in
    let at : lowers x (command addr len tx h) ≡ (if sub_usize addr 8 == x then 1 else 0) =
      rw positive refl in
    let next : suc b.index ≡ b.index + 1 = omega arith in
    let sum = rw next at (total-take-set (lowers x) b.buf b.index (command addr len tx h) room) in
    omega (arith, counted, at, sum)

module _ (Seen : Memory → Type 0) (n : ℕ) (addrs : List ℕ)
    (distinct : (a : ℕ) → count a addrs ≤ 1) where
  -- A turn's result: a valid link, and the commands that refer to `x` but for the one that was pushed.
  pub record Turned (l : Link) (fresh : ℕ → ℕ) (l' : Link) : Type 1 where
    pub valid : IsValid n addrs l'.cmd_buffer
    pub kept : (x : ℕ) → accounted x l' ≡ accounted x l + fresh x
    pub single : NoClash Seen n addrs → Single l → Single l'

  abbrev pub taken_at : ℕ → Bool → ℕ → ℕ
  taken_at addr true x = if sub_usize addr 8 == x then 1 else 0
  taken_at addr false x = 0

  pub send_turn-outcome :
      (memory : Memory) (seen : Seen memory) (pending_cmds addr len h : ℕ) (l : Link)
      → 0 < n
      → addr ≢ 0
      → len ≢ 0
      → IsValid n addrs l.cmd_buffer
      → (ok : Bool) × (l' : Link) × (send_turn memory pending_cmds l addr len h ≡ some (ok, l'))
        × Turned l (taken_at addr ok) l'
  unfolding send_turn progress_transfers
  send_turn-outcome memory seen pending_cmds addr len h l some_size na nl v =
      by_push (try_push-outcome n addr len h na nl some_size l.cmd_buffer v.shape)
    where
      by_push :
          Outcome n addr len h na nl l.cmd_buffer
          → (ok : Bool) × (l' : Link) × (send_turn memory pending_cmds l addr len h ≡ some (ok, l'))
            × Turned l (taken_at addr ok) l'
      by_push (inl (s', q, p)) = (
        true,
        record l { cmd_buffer = s' },
        simp (send_turn, q) refl,
        record {
          valid = Pushed-IsValid n addr len h na nl addrs p v;
          kept = λ x. omega (
            arith,
            p.moves.weighed (refers x),
            push-refers x p.before p.after addr len h p.from p.to na nl p.room p.pushed,
          );
          single = λ c one. same-Single l (record l { cmd_buffer = s' }) p.txs refl one;
        },
      )
      by_push (inr (q, e, f)) =
          let (l', r, g) = progress_transfers-outcome n addrs distinct l v in
          let o = try_sending_buffer-Offered n addrs distinct memory pending_cmds l' g.valid in
          (
            false,
            (try_sending_buffer memory pending_cmds l').1,
            simp (send_turn, q, r) refl,
            record {
              valid = o.valid;
              kept = λ x. omega (arith, o.kept x, g.kept x);
              single = λ c one.
                  Offered-Single n addrs distinct Seen memory l'
                    (try_sending_buffer memory pending_cmds l').1 seen c o
                    (Looked-Single n addrs distinct l l' v one g.looked);
            },
          )

  pub wait_turn-outcome :
      (memory : Memory) (seen : Seen memory) (pending_cmds : ℕ) (l : Link)
      → IsValid n addrs l.cmd_buffer
      → (done : Bool) × (l' : Link) × (wait_turn memory pending_cmds l ≡ some (done, l'))
        × Turned l (λ x. 0) l'
  unfolding wait_turn
  wait_turn-outcome memory seen pending_cmds l v = elim (Bool-cases (empty l.cmd_buffer)) [
    | inl y ↦ (
      true,
      l,
      simp (wait_turn, y) refl,
      record { valid = v; kept = λ x. omega arith; single = λ c one. one },
    )
    | inr z ↦
        let (l', r, g) = progress_transfers-outcome n addrs distinct l v in
        let o = try_sending_buffer-Offered n addrs distinct memory pending_cmds l' g.valid in
        (
          (try_sending_buffer memory pending_cmds l').0,
          (try_sending_buffer memory pending_cmds l').1,
          simp (wait_turn, z, r) refl,
          record {
            valid = o.valid;
            kept = λ x. omega (arith, o.kept x, g.kept x);
            single = λ c one.
                Offered-Single n addrs distinct Seen memory l'
                  (try_sending_buffer memory pending_cmds l').1 seen c o
                  (Looked-Single n addrs distinct l l' v one g.looked);
          },
        )
  ]
