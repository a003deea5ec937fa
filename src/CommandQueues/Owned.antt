-- ===== src/CommandQueues/Owned.antt =====
-- The well-formedness of a `CmdMsgBuffer`, and how each of its operations moves a buffer.
use lamellar_runtime.Prelude.{
  ℕ, zero, suc, ◌+◌, ◌≤◌, ◌<◌, ◌≡◌, refl, ap, ◌≢◌, ◌⊎◌, none, some, List, [], ◌∷◌, set, arith, ◌==◌,
  if◌then◌else◌, lt→ltb, eq→==, ne→==, length, get_elem?, All, total, keyed,
}
use lamellar_runtime.CommandQueues.Messages.{Cmd, free, release, tx, CmdMsg, command}
use lamellar_runtime.CommandQueues.Bufs.{CmdBuf, CmdMsgBuffer, state, push}
use lamellar_runtime.CommandQueues.Places.{
  Place, in_empty, in_full, in_tx, in_waiting, in_cur, weigh, AllAt, Takes, Moves,
}

-- A buffer of `n` entries, whose commands are counted.
pub record Good (n : ℕ) (b : CmdBuf) : Type 0 where
  pub long : length b.buf ≡ n
  pub sized : b.max_size ≡ n
  pub inside : b.index ≤ n
  pub counted : b.allocated_cnt ≡ b.index

-- What a buffer is like at each place.
pub data Shape (n : ℕ) : Place → CmdBuf → Type 0 where
  at_rest : {b : CmdBuf} → Good n b → b.index ≡ 0 → Shape n in_empty b
  at_work :
      {b : CmdBuf} → Good n b → 0 < b.index → b.index < n → state b ≡ some tx → Shape n in_cur b
  at_end : {b : CmdBuf} → Good n b → 0 < b.index → state b ≡ some tx → Shape n in_full b
  sent :
      {b : CmdBuf} {c : Cmd}
      → Good n b
      → 0 < b.index
      → state b ≡ some c
      → (c ≡ tx) ⊎ ((c ≡ release) ⊎ (c ≡ free))
      → Shape n in_tx b
  got :
      {b : CmdBuf} {c : Cmd}
      → Good n b
      → 0 < b.index
      → state b ≡ some c
      → (c ≡ release) ⊎ (c ≡ free)
      → Shape n in_waiting b

-- How often a buffer with address `a` is there.
abbrev pub has : ℕ → Place → CmdBuf → ℕ
has a p b = if b.addr == a then 1 else 0

abbrev pub owned : ℕ → CmdMsgBuffer → ℕ
owned a s = weigh (has a) s

abbrev pub count : ℕ → List ℕ → ℕ
count a xs = total (λ x. if x == a then 1 else 0) xs

pub record IsValid (n : ℕ) (addrs : List ℕ) (s : CmdMsgBuffer) : Type 1 where
  pub shape : AllAt (Shape n) s
  pub each : (a : ℕ) → owned a s ≡ count a addrs
  pub number : weigh (λ p b. 1) s ≡ s.num_bufs

module _ (n : ℕ) (addrs : List ℕ) where
  pub Moves-IsValid :
      {s s' : CmdMsgBuffer} {p q : Place} {b b' : CmdBuf}
      → Moves s p b q b' s'
      → b'.addr ≡ b.addr
      → (Shape n p b → Shape n q b')
      → IsValid n addrs s
      → IsValid n addrs s'
  Moves-IsValid {s = s} {s' = s'} {p = p} {q = q} {b = b} {b' = b'} m same shaped v =
      let (x, up) = m.kept (Shape n) v.shape in
      record {
        shape = up (shaped x);
        each = λ a.
            let e : has a q b' ≡ has a p b = ap (λ z. if z == a then 1 else 0) same in
            omega (arith, m.weighed (has a), v.each a, e);
        number = omega (arith, m.weighed (λ p b. 1), v.number, m.same);
      }

pub keyed-addr :
    (P : Place → CmdBuf → Type 0) (p : Place) (a : ℕ) (es : List (ℕ × CmdBuf))
    → All (λ e. (e.0 ≡ e.1.addr) × P p e.1) es
    → keyed a es ≡ total (λ e. has a p e.1) es
keyed-addr P p a [] k = refl
keyed-addr P p a (e ∷ es) k =
    let q : (if e.0 == a then 1 else 0) ≡ has a p e.1 = ap (λ z. if z == a then 1 else 0) k.0.0 in
    omega (arith, q, keyed-addr P p a es k.1)

module _ (n : ℕ) (addrs : List ℕ) (distinct : (a : ℕ) → count a addrs ≤ 1) where
  -- A buffer that is taken from its place is nowhere else.
  pub taken_fresh :
      {s s' : CmdMsgBuffer} {p : Place} {b : CmdBuf}
      → IsValid n addrs s
      → Takes s p b s'
      → (keyed b.addr s'.tx_bufs ≡ 0) × (keyed b.addr s'.waiting_bufs ≡ 0)
  taken_fresh {s = s} {s' = s'} {p = p} {b = b} v t =
      let (x, all) = t.kept (Shape n) v.shape in
      let self : has b.addr p b ≡ 1 = rw (eq→== b.addr b.addr refl) refl in
      let none_left : keyed b.addr s'.tx_bufs + keyed b.addr s'.waiting_bufs ≡ 0 = omega (
        arith,
        t.weighed (has b.addr),
        v.each b.addr,
        distinct b.addr,
        self,
        keyed-addr (Shape n) in_tx b.addr s'.tx_bufs all.txs,
        keyed-addr (Shape n) in_waiting b.addr s'.waiting_bufs all.waits,
      ) in
      (omega (arith, none_left), omega (arith, none_left))

-- `push` fails on a null address or an empty message only.
pub push-some :
    (b : CmdBuf) (addr len h : ℕ)
    → addr ≢ 0
    → len ≢ 0
    → push b addr len h
      ≡ some (record b {
        buf = set b.buf b.index (command addr len tx h);
        index = b.index + 1;
        allocated_cnt = b.allocated_cnt + 1;
      })
unfolding push
push-some b addr len h na nl = rw (ne→== addr 0 na, ne→== len 0 nl, lt→ltb 0 len (omega arith)) refl

pub set_tx :
    (ms : List CmdMsg) (i : ℕ) (m : CmdMsg)
    → i < length ms
    → m.cmd ≡ tx
    → ((0 < i) → elim (get_elem? ms 0) [ none ↦ none | some x ↦ some x.cmd ] ≡ some tx)
    → elim (get_elem? (set ms i m) 0) [ none ↦ none | some x ↦ some x.cmd ] ≡ some tx
set_tx [] i m inside e up = absurd (omega arith)
set_tx (x ∷ xs) zero m inside e up = ap some e
set_tx (x ∷ xs) (suc i) m inside e up = up (omega arith)
