-- ===== src/CommandQueues/Overwrite.antt =====
-- What the bytes of `send_release` and `send_free` do to a buffer.
use lamellar_runtime.Prelude.{
  ℕ, zero, suc, ◌<◌, ◌≡◌, refl, ◌∙◌, ◌⊎◌, inr, none, some, List, [], ◌∷◌, set, arith, length,
  get_elem?, All-get_elem?, All-set, total, total-set, take,
}
use lamellar_runtime.CommandQueues.Messages.{Cmd, free, release, CmdMsg}
use lamellar_runtime.CommandQueues.Bufs.{CmdBuf, CmdMsgBuffer, state}
use lamellar_runtime.CommandQueues.Places.{Place, in_tx, in_waiting, Moves}
use lamellar_runtime.CommandQueues.Owned.{Good, Shape, sent, got}
use lamellar_runtime.CommandQueues.Freeing.{lowers, refers}
use lamellar_runtime.CommandQueues.Exchange.{overwrite, overwrite_first}

module _ (s : CmdMsgBuffer) (c : Cmd) (i a : ℕ) (b : CmdBuf) where
  pub overwrite_tx :
      get_elem? s.tx_bufs i ≡ some (a, b)
      → Moves s in_tx b in_tx
          (overwrite c b)
          (record s { tx_bufs = set s.tx_bufs i (a, overwrite c b) })
  unfolding overwrite
  overwrite_tx e = record {
    weighed =
        λ w. omega (arith, total-set (λ e. w in_tx e.1) s.tx_bufs i (a, b) (a, overwrite c b) e);
    kept = λ P all.
        let (k, x) =
          All-get_elem? (λ e. (e.0 ≡ e.1.addr) × P in_tx e.1) s.tx_bufs i (a, b) all.txs e in
        (
          x,
          λ y. record {
            empties = all.empties;
            fulls = all.fulls;
            txs =
                All-set (λ e. (e.0 ≡ e.1.addr) × P in_tx e.1) s.tx_bufs i (a, overwrite c b) all.txs
                  (k, y);
            waits = all.waits;
            cur = all.cur;
          },
        );
    same = refl;
  }

  pub overwrite_waiting :
      get_elem? s.waiting_bufs i ≡ some (a, b)
      → Moves s in_waiting b in_waiting
          (overwrite c b)
          (record s { waiting_bufs = set s.waiting_bufs i (a, overwrite c b) })
  unfolding overwrite
  overwrite_waiting e = record {
    weighed = λ w.
        omega
          (arith, total-set (λ e. w in_waiting e.1) s.waiting_bufs i (a, b) (a, overwrite c b) e);
    kept = λ P all.
        let (k, x) =
          All-get_elem? (λ e. (e.0 ≡ e.1.addr) × P in_waiting e.1) s.waiting_bufs i (a, b) all.waits
            e in
        (
          x,
          λ y. record {
            empties = all.empties;
            fulls = all.fulls;
            txs = all.txs;
            waits =
                All-set (λ e. (e.0 ≡ e.1.addr) × P in_waiting e.1) s.waiting_bufs i
                  (a, overwrite c b) all.waits (k, y);
            cur = all.cur;
          },
        );
    same = refl;
  }

-- The receiver's byte changes the state and nothing that is counted.
overwrite_first-lowers :
    (x k : ℕ) (c : Cmd) (ms : List CmdMsg)
    → total (lowers x) (take k (overwrite_first c ms)) ≡ total (lowers x) (take k ms)
overwrite_first-lowers x k c [] = refl
overwrite_first-lowers x zero c (m ∷ ms) = refl
overwrite_first-lowers x (suc k) c (m ∷ ms) = refl

overwrite_first-length : (c : Cmd) (ms : List CmdMsg) → length (overwrite_first c ms) ≡ length ms
overwrite_first-length c [] = refl
overwrite_first-length c (m ∷ ms) = refl

pub overwrite-refers :
    (x : ℕ) (p q : Place) (c : Cmd) (b : CmdBuf) → refers x q (overwrite c b) ≡ refers x p b
unfolding overwrite
overwrite-refers x p q c b = overwrite_first-lowers x b.index c b.buf

overwrite-Good : (n : ℕ) (c : Cmd) (b : CmdBuf) → Good n b → Good n (overwrite c b)
unfolding overwrite
overwrite-Good n c b g = record {
  long = overwrite_first-length c b.buf ∙ g.long;
  sized = g.sized;
  inside = g.inside;
  counted = g.counted;
}

overwrite_first-state :
    (c : Cmd) (ms : List CmdMsg)
    → 0 < length ms
    → elim (get_elem? (overwrite_first c ms) 0) [ none ↦ none | some m ↦ some m.cmd ] ≡ some c
overwrite_first-state c [] h = absurd (omega arith)
overwrite_first-state c (m ∷ ms) h = refl

overwrite-state :
    (n : ℕ) (c : Cmd) (b : CmdBuf) → Good n b → 0 < b.index → state (overwrite c b) ≡ some c
unfolding overwrite
overwrite-state n c b g pos = overwrite_first-state c b.buf (omega (arith, g.long, g.inside))

pub overwrite-sent :
    (n : ℕ) (c : Cmd) (b : CmdBuf)
    → (c ≡ release) ⊎ (c ≡ free)
    → Shape n in_tx b
    → Shape n in_tx (overwrite c b)
unfolding overwrite
overwrite-sent n c b which (sent g pos e old) =
    sent (overwrite-Good n c b g) pos (overwrite-state n c b g pos) (inr which)

pub overwrite-got :
    (n : ℕ) (c : Cmd) (b : CmdBuf)
    → (c ≡ release) ⊎ (c ≡ free)
    → Shape n in_waiting b
    → Shape n in_waiting (overwrite c b)
unfolding overwrite
overwrite-got n c b which (got g pos e old) =
    got (overwrite-Good n c b g) pos (overwrite-state n c b g pos) which
