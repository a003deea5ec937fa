-- ===== src/CommandQueues/Single.antt =====
-- A link announces one buffer at a time.
use lamellar_runtime.Prelude.{
  ℕ, ◌≤◌, ◌≡◌, refl, ap, ◌∙◌, subst, ◌≢◌, ◌⊎◌, inl, inr, Bool, true, false, some, List, [], ◌∷◌,
  arith, ◌==◌, if◌then◌else◌, eq→==, All, total, insert_key, remove_key, keyed, remove_key-some,
  remove_key-none,
}
use lamellar_runtime.CommandQueues.Hash.{Memory}
use lamellar_runtime.CommandQueues.Messages.{tx, hash, clear_cmd, calc_hash}
use lamellar_runtime.CommandQueues.Bufs.{CmdBuf, CmdMsgBuffer, state, announce}
use lamellar_runtime.CommandQueues.Places.{in_tx, take_tx}
use lamellar_runtime.CommandQueues.Owned.{Shape, sent, has, count, IsValid, taken_fresh}
use lamellar_runtime.CommandQueues.Link.{Link}
use lamellar_runtime.CommandQueues.Sending.{Checked}
use lamellar_runtime.CommandQueues.Progress.{Looked, Offered}

-- No announcement of a buffer of the link has the hash of `clear_cmd`, which says that the slot is free.
abbrev pub NoClash : (Memory → Type 0) → ℕ → List ℕ → Type 0
NoClash Seen n addrs =
    (memory : Memory)
    → Seen memory
    → (b : CmdBuf) → count b.addr addrs ≡ 1
    → b.index ≤ n
    → hash (announce memory b) ≢ hash clear_cmd

-- The command slot names the buffer in transfer, and looks busy while there is one.
pub record Single (l : Link) : Type 0 where
  pub named : All (λ e. e.0 ≡ l.send_cmd.daddr) l.cmd_buffer.tx_bufs
  pub busy : (l.cmd_buffer.tx_bufs ≡ []) ⊎ (hash l.send_cmd ≢ hash clear_cmd)

pub same-Single :
    (l l' : Link)
    → l'.cmd_buffer.tx_bufs ≡ l.cmd_buffer.tx_bufs
    → l'.send_cmd ≡ l.send_cmd
    → Single l
    → Single l'
same-Single l l' et ec single = record {
  named = rw (et, ec) single.named;
  busy = rw (et, ec) single.busy;
}

-- Entries that all have a key which none has.
no_entries : (k : ℕ) (es : List (ℕ × CmdBuf)) → keyed k es ≡ 0 → All (λ e. e.0 ≡ k) es → es ≡ []
no_entries k [] z all = refl
no_entries k (e ∷ es) z all = absurd (omega (arith, rw (eq→== e.0 k all.0) at z))

sent-inside : (n : ℕ) (b : CmdBuf) → Shape n in_tx b → b.index ≤ n
sent-inside n b (sent g pos e c) = g.inside

module _ (n : ℕ) (addrs : List ℕ) (distinct : (a : ℕ) → count a addrs ≤ 1) where
  module _ (l l' : Link) (v : IsValid n addrs l.cmd_buffer) (single : Single l) where
    -- The transfer that was looked at was the only one.
    only_one :
        (f : Bool) (s : CmdMsgBuffer)
        → (c : Checked n addrs distinct l.cmd_buffer v l.send_cmd.daddr f s) → c.rest ≡ []
    only_one f s c =
        no_entries l.send_cmd.daddr c.rest
          (subst (λ k. keyed k c.rest ≡ 0) c.named
            (taken_fresh n addrs distinct v
              (take_tx l.cmd_buffer l.send_cmd.daddr c.buf c.rest c.removed)).0)
          ((remove_key-some (λ e. e.0 ≡ l.send_cmd.daddr) l.send_cmd.daddr c.buf
              l.cmd_buffer.tx_bufs c.rest c.removed).1
            single.named).1

    -- What is in transfer after a look: nothing, or the one buffer that is still there.
    abbrev pub Left : Type 0
    Left =
        (l'.cmd_buffer.tx_bufs ≡ [])
        ⊎ ((b : CmdBuf) × (l'.cmd_buffer.tx_bufs ≡ ((l.send_cmd.daddr, b) ∷ []))
            × (l'.send_cmd ≡ l.send_cmd)
            × (state b ≡ some tx)
            × (hash l.send_cmd ≢ hash clear_cmd))

    found_busy :
        (b : CmdBuf) (rest : List (ℕ × CmdBuf))
        → remove_key l.send_cmd.daddr l.cmd_buffer.tx_bufs ≡ some (b, rest)
        → hash l.send_cmd ≢ hash clear_cmd
    found_busy b rest q = elim single.busy [ inl e ↦ let q' = rw e at q in absurd (cc) | inr h ↦ h ]

    pub looked-Left : Looked n addrs distinct l l' v → Left
    looked-Left (inl (et, ec, gone)) = inl (
        et
        ∙ no_entries l.send_cmd.daddr l.cmd_buffer.tx_bufs
            (remove_key-none l.send_cmd.daddr l.cmd_buffer.tx_bufs gone) single.named)
    looked-Left (inr (true, s, c, et, ec)) = inl (et ∙ c.left ∙ only_one true s c)
    looked-Left (inr (false, s, c, et, ec)) = inr (
      c.buf,
      et ∙ c.left ∙ ap (insert_key l.send_cmd.daddr c.buf) (only_one false s c),
      ec,
      c.waits refl,
      found_busy c.buf c.rest c.removed,
    )

    pub Looked-Single : Looked n addrs distinct l l' v → Single l'
    Looked-Single o = elim (looked-Left o) [
      | inl e ↦ record { named = rw e tt; busy = inl e }
      | inr (b, e, ec, at, h) ↦ record { named = rw (e, ec) (refl, tt); busy = inr (rw ec h) }
    ]

  pub Offered-Single :
      (Seen : Memory → Type 0) (memory : Memory) (l l' : Link)
      → Seen memory
      → NoClash Seen n addrs
      → Offered n addrs distinct memory l l'
      → Single l
      → Single l'
  unfolding calc_hash
  Offered-Single Seen memory l l' seen clear_hash o single = elim o.went [
    | inl (et, ec) ↦ same-Single l l' et ec single
    | inr (f, clean) ↦ (elim single.busy [
      | inr h ↦ absurd (h clean)
      | inl e ↦
          let et : l'.cmd_buffer.tx_bufs ≡ ((f.buf.addr, f.buf) ∷ []) =
            f.listed ∙ ap (insert_key f.buf.addr f.buf) e in
          let self : ◌≡◌ {A = ℕ} (if f.buf.addr == f.buf.addr then 1 else 0) 1 =
            rw (eq→== f.buf.addr f.buf.addr refl) refl in
          let there : total (λ x. has f.buf.addr in_tx x.1) l'.cmd_buffer.tx_bufs ≡ 1 =
            rw et (omega (arith, self)) in
          let once : count f.buf.addr addrs ≡ 1 =
            omega (arith, o.valid.each f.buf.addr, there, distinct f.buf.addr) in
          record {
            named = rw (et, f.announced) (refl, tt);
            busy =
                inr (
                  rw f.announced
                    (clear_hash memory seen f.buf once (sent-inside n f.buf f.shaped)));
          }
    ])
  ]
