-- ===== src/CommandQueues/Conserved.antt =====
-- What holds in every state that a link and its receiver reach: the buffers and the commands are conserved.
use lamellar_runtime.Prelude.{
  ℕ, ◌≤◌, ◌<◌, ◌≡◌, refl, sym, ap, ◌∙◌, ◌⊎◌, inl, inr, Bool, true, false, Option, none, some, List,
  [], ◌∷◌, map, set, arith, if◌then◌else◌, length, get_elem?, All-get_elem?, All-set, total,
  total-eq-zero, total-one, sub_usize, total-map, All-map,
}
use lamellar_runtime.CommandQueues.Hash.{Memory}
use lamellar_runtime.CommandQueues.Messages.{Cmd, free, release, CmdMsg}
use lamellar_runtime.CommandQueues.Bufs.{CmdBuf, new}
use lamellar_runtime.CommandQueues.Places.{in_empty, in_tx, in_waiting}
use lamellar_runtime.CommandQueues.Owned.{Shape, at_rest, has, count, IsValid, Moves-IsValid}
use lamellar_runtime.CommandQueues.Link.{Link}
use lamellar_runtime.CommandQueues.Freeing.{refers, pending}
use lamellar_runtime.CommandQueues.Exchange.{
  System, Step, sends, waits, polls, releases, frees_tx, frees_waiting, others, with_tx,
  with_waiting, IsStart, Reach, start, later, overwrite,
}
use lamellar_runtime.CommandQueues.Progress.{accounted, progress_transfers-outcome}
use lamellar_runtime.CommandQueues.Single.{NoClash, Single, same-Single, Looked-Single}
use lamellar_runtime.CommandQueues.Turns.{Turned, taken_at, send_turn-outcome, wait_turn-outcome}
use lamellar_runtime.CommandQueues.Overwrite.{
  overwrite_tx, overwrite_waiting, overwrite-refers, overwrite-sent, overwrite-got,
}

module _ (n : ℕ) (addrs : List ℕ) where
  new-IsValid :
      (contents : ℕ → List CmdMsg) (pe : ℕ)
      → ((a : ℕ) → length (contents a) ≡ n)
      → IsValid n addrs (new n contents addrs pe)
  unfolding new
  new-IsValid contents pe long =
      let made : ℕ → CmdBuf =
        λ a. record { buf = contents a; addr = a; index = 0; allocated_cnt = 0; max_size = n } in
      record {
        shape = record {
          empties =
              All-map (Shape n in_empty) made
                (λ a.
                  at_rest
                    (record { long = long a; sized = refl; inside = omega arith; counted = refl })
                    refl)
                addrs;
          fulls = tt;
          txs = tt;
          waits = tt;
          cur = tt;
        };
        each = λ a. omega (arith, total-map (has a in_empty) made addrs);
        number = omega (arith, total-map (λ b. 1) made addrs, total-one addrs);
      }

  new-pending : (contents : ℕ → List CmdMsg) (pe x : ℕ) → pending x (new n contents addrs pe) ≡ 0
  unfolding new
  new-pending contents pe x =
      let made : ℕ → CmdBuf =
        λ a. record { buf = contents a; addr = a; index = 0; allocated_cnt = 0; max_size = n } in
      let none_in : total (refers x in_empty) (map made addrs) ≡ 0 =
        total-eq-zero (refers x in_empty) (map made addrs)
          (All-map (λ b. refers x in_empty b ≡ 0) made (λ a. refl) addrs) in
      omega (arith, none_in)

-- A valid link that accounts for every command.
pub record Sound (Seen : Memory → Type 0) (n : ℕ) (addrs : List ℕ) (s : System) : Type 1 where
  pub valid : IsValid n addrs s.link.cmd_buffer
  pub all_there : (x : ℕ) → accounted x s.link ≡ count x s.pushed
  pub single : NoClash Seen n addrs → Single s.link

new-tx :
    (n : ℕ) (contents : ℕ → List CmdMsg) (addrs : List ℕ) (pe : ℕ)
    → (new n contents addrs pe).tx_bufs ≡ []
unfolding new
new-tx n contents addrs pe = refl

written-Single :
    (s : System) (i a : ℕ) (b : CmdBuf) (c : Cmd)
    → get_elem? s.link.cmd_buffer.tx_bufs i ≡ some (a, b)
    → Single s.link
    → Single (with_tx s (set s.link.cmd_buffer.tx_bufs i (a, overwrite c b))).link
written-Single s i a b c at one = record {
  named =
      All-set (λ e. e.0 ≡ s.link.send_cmd.daddr) s.link.cmd_buffer.tx_bufs i (a, overwrite c b)
        one.named
        (All-get_elem? (λ e. e.0 ≡ s.link.send_cmd.daddr) s.link.cmd_buffer.tx_bufs i (a, b)
          one.named at);
  busy = elim one.busy [ inl e ↦ let at' = rw e at at in absurd (cc) | inr h ↦ inr h ];
}

module _ (Seen : Memory → Type 0) (n : ℕ) (addrs : List ℕ) (some_size : 0 < n)
    (distinct : (a : ℕ) → count a addrs ≤ 1) where
  start-Sound : {s : System} → IsStart n addrs s → Sound Seen n addrs s
  start-Sound {s = s} i = record {
    valid = rw i.fresh (new-IsValid n addrs i.contents i.pe i.long);
    all_there = λ x.
        let e : pending x s.link.cmd_buffer ≡ 0 =
          ap (pending x) i.fresh ∙ new-pending n addrs i.contents i.pe x in
        omega (arith, e, ap (count x) i.none_lowered, ap (count x) i.none_pushed);
    single = λ c.
        let e : s.link.cmd_buffer.tx_bufs ≡ [] =
          ap (λ z. z.tx_bufs) i.fresh ∙ new-tx n i.contents addrs i.pe in
        record { named = rw e tt; busy = inl e };
  }

  turned :
      (s : System) (l l' : Link) (ok : Bool) (addr : ℕ)
      → l ≡ l'
      → Turned Seen n addrs distinct s.link (taken_at Seen n addrs distinct addr ok) l
      → Sound Seen n addrs s
      → Sound Seen n addrs
          (record { link = l'; pushed = if ok then sub_usize addr 8 ∷ s.pushed else s.pushed })
  turned s l l' true addr e t v = rw (← e) (record {
    valid = t.valid;
    all_there = λ x. omega (arith, t.kept x, v.all_there x);
    single = λ c. t.single c (v.single c);
  })
  turned s l l' false addr e t v = rw (← e) (record {
    valid = t.valid;
    all_there = λ x. omega (arith, t.kept x, v.all_there x);
    single = λ c. t.single c (v.single c);
  })

  same_result :
      {f g : Bool} {l l' : Link}
      → ◌≡◌ {A = Option (Bool × Link)} (some (f, l)) (some (g, l'))
      → (f ≡ g) × (l ≡ l')
  same_result {f = f} {l = l} e = (
    ap (λ o. elim o [ none ↦ f | some r ↦ r.0 ]) e,
    ap (λ o. elim o [ none ↦ l | some r ↦ r.1 ]) e,
  )

  tx_written :
      (s : System)
      → Sound Seen n addrs s
      → (c : Cmd) (i a : ℕ) (b : CmdBuf) → get_elem? s.link.cmd_buffer.tx_bufs i ≡ some (a, b)
      → (c ≡ release) ⊎ (c ≡ free)
      → Sound Seen n addrs (with_tx s (set s.link.cmd_buffer.tx_bufs i (a, overwrite c b)))
  unfolding overwrite
  tx_written s v c i a b at which =
      let m = overwrite_tx s.link.cmd_buffer c i a b at in
      record {
        valid = Moves-IsValid n addrs m refl (overwrite-sent n c b which) v.valid;
        all_there = λ x.
            omega (arith, m.weighed (refers x), overwrite-refers x in_tx in_tx c b, v.all_there x);
        single = λ k. written-Single s i a b c at (v.single k);
      }

  waiting_written :
      (s : System)
      → Sound Seen n addrs s
      → (c : Cmd) (i a : ℕ) (b : CmdBuf) → get_elem? s.link.cmd_buffer.waiting_bufs i ≡ some (a, b)
      → (c ≡ release) ⊎ (c ≡ free)
      → Sound Seen n addrs
          (with_waiting s (set s.link.cmd_buffer.waiting_bufs i (a, overwrite c b)))
  unfolding overwrite
  waiting_written s v c i a b at which =
      let m = overwrite_waiting s.link.cmd_buffer c i a b at in
      record {
        valid = Moves-IsValid n addrs m refl (overwrite-got n c b which) v.valid;
        all_there = λ x. omega (
          arith,
          m.weighed (refers x),
          overwrite-refers x in_waiting in_waiting c b,
          v.all_there x,
        );
        single = λ k. let one = v.single k in record { named = one.named; busy = one.busy };
      }

  Step-Sound : {s u : System} → Sound Seen n addrs s → Step Seen s u → Sound Seen n addrs u
  Step-Sound {s = s} v (sends memory pending_cmds addr len h pushed l seen na nl e) =
      let (ok, l', r, t) =
        send_turn-outcome Seen n addrs distinct memory seen pending_cmds addr len h s.link some_size
          na nl v.valid in
      let (same, same_link) = same_result (sym r ∙ e) in
      rw (← same) (turned s l' l ok addr same_link t v)
  Step-Sound {s = s} v (waits memory pending_cmds done l seen e) =
      let (ok, l', r, t) =
        wait_turn-outcome Seen n addrs distinct memory seen pending_cmds s.link v.valid in
      let (same, same_link) = same_result (sym r ∙ e) in
      rw (← same_link) (record {
        valid = t.valid;
        all_there = λ x. omega (arith, t.kept x, v.all_there x);
        single = λ c. t.single c (v.single c);
      })
  Step-Sound {s = s} v (polls l e) =
      let (l', r, p) = progress_transfers-outcome n addrs distinct s.link v.valid in
      let same : l' ≡ l = ap (λ o. elim o [ none ↦ l' | some z ↦ z ]) (sym r ∙ e) in
      rw (← same) (record {
        valid = p.valid;
        all_there = λ x. omega (arith, p.kept x, v.all_there x);
        single = λ c. Looked-Single n addrs distinct s.link l' v.valid (v.single c) p.looked;
      })
  Step-Sound {s = s} v (releases i a b at e) = tx_written s v release i a b at (inl refl)
  Step-Sound {s = s} v (frees_tx i a b at e) = tx_written s v free i a b at (inr refl)
  Step-Sound {s = s} v (frees_waiting i a b at e) = waiting_written s v free i a b at (inr refl)
  Step-Sound {s = s} v (others f) = record {
    valid = v.valid;
    all_there = v.all_there;
    single = λ c.
        same-Single s.link (record s.link { heap = record s.link.heap { ref_cnt = f } }) refl refl
          (v.single c);
  }

  pub reach-Sound : {s : System} → Reach Seen n addrs s → Sound Seen n addrs s
  reach-Sound (start i) = start-Sound i
  reach-Sound (later r m) = Step-Sound (reach-Sound r) m
