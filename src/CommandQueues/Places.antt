-- ===== src/CommandQueues/Places.antt =====
-- Where the buffers of a `CmdMsgBuffer` stand, and what it is to move one.
use lamellar_runtime.Prelude.{
  ℕ, ◌+◌, ◌≡◌, refl, ap, ◌∙◌, subst, Option, none, some, List, [], ◌∷◌, ◌++◌, total-append,
  total-pop_last, arith, pop_last, All, total, insert_key, remove_key, keyed, total-insert_key,
  All-insert_key, remove_key-some, All-append, All-pop_last,
}
use lamellar_runtime.CommandQueues.Bufs.{CmdBuf, CmdMsgBuffer}

pub data Place : Type 0 where
  in_empty : Place
  in_full : Place
  in_tx : Place
  in_waiting : Place
  in_cur : Place

abbrev pub weigh_cur : (CmdBuf → ℕ) → Option CmdBuf → ℕ
weigh_cur w none = 0
weigh_cur w (some b) = w b

-- The sum of a weight over all buffers.
abbrev pub weigh : (Place → CmdBuf → ℕ) → CmdMsgBuffer → ℕ
weigh w s =
    total (w in_empty) s.empty_bufs
    + total (w in_full) s.full_bufs
    + total (λ e. w in_tx e.1) s.tx_bufs
    + total (λ e. w in_waiting e.1) s.waiting_bufs
    + weigh_cur (w in_cur) s.cur_buf

abbrev pub CurHas : (CmdBuf → Type 0) → Option CmdBuf → Type 0
CurHas P none = Unit
CurHas P (some b) = P b

-- A predicate of every buffer at its place, with the maps' keys the buffers' addresses.
pub record AllAt (P : Place → CmdBuf → Type 0) (s : CmdMsgBuffer) : Type 0 where
  pub empties : All (P in_empty) s.empty_bufs
  pub fulls : All (P in_full) s.full_bufs
  pub txs : All (λ e. (e.0 ≡ e.1.addr) × P in_tx e.1) s.tx_bufs
  pub waits : All (λ e. (e.0 ≡ e.1.addr) × P in_waiting e.1) s.waiting_bufs
  pub cur : CurHas (P in_cur) s.cur_buf

-- Buffer `b` is taken from place `p`.
pub record Takes (s : CmdMsgBuffer) (p : Place) (b : CmdBuf) (s' : CmdMsgBuffer) : Type 1 where
  pub weighed : (w : Place → CmdBuf → ℕ) → weigh w s' + w p b ≡ weigh w s
  pub kept : (P : Place → CmdBuf → Type 0) → AllAt P s → P p b × AllAt P s'
  pub same : s'.num_bufs ≡ s.num_bufs

-- Buffer `b` is put at place `p`.
pub record Puts (s : CmdMsgBuffer) (p : Place) (b : CmdBuf) (s' : CmdMsgBuffer) : Type 1 where
  pub weighed : (w : Place → CmdBuf → ℕ) → weigh w s' ≡ weigh w s + w p b
  pub kept : (P : Place → CmdBuf → Type 0) → AllAt P s → P p b → AllAt P s'
  pub same : s'.num_bufs ≡ s.num_bufs

-- Buffer `b` of place `p` becomes `b'` at place `q`.
pub record Moves (s : CmdMsgBuffer) (p : Place) (b : CmdBuf) (q : Place) (b' : CmdBuf)
    (s' : CmdMsgBuffer) : Type 1 where
  pub weighed : (w : Place → CmdBuf → ℕ) → weigh w s' + w p b ≡ weigh w s + w q b'
  pub kept : (P : Place → CmdBuf → Type 0) → AllAt P s → P p b × (P q b' → AllAt P s')
  pub same : s'.num_bufs ≡ s.num_bufs

pub Takes-Puts :
    {s m s' : CmdMsgBuffer} {p q : Place} {b b' : CmdBuf}
    → Takes s p b m
    → Puts m q b' s'
    → Moves s p b q b' s'
Takes-Puts t u = record {
  weighed = λ w. omega (arith, t.weighed w, u.weighed w);
  kept = λ P a. let (x, m) = t.kept P a in (x, λ y. u.kept P m y);
  same = u.same ∙ t.same;
}

module _ (s : CmdMsgBuffer) where
  pub put_empty :
      (b : CmdBuf) → Puts s in_empty b (record s { empty_bufs = s.empty_bufs ++ (b ∷ []) })
  put_empty b = record {
    weighed = λ w. omega (arith, total-append (w in_empty) s.empty_bufs (b ∷ []));
    kept = λ P a x. record {
      empties = All-append (P in_empty) s.empty_bufs b a.empties x;
      fulls = a.fulls;
      txs = a.txs;
      waits = a.waits;
      cur = a.cur;
    };
    same = refl;
  }

  pub put_full :
      (b : CmdBuf)
      → s.cur_buf ≡ none
      → Puts s in_full b (record s { cur_buf = none; full_bufs = s.full_bufs ++ (b ∷ []) })
  put_full b e = record {
    weighed = λ w.
        omega (arith, total-append (w in_full) s.full_bufs (b ∷ []), ap (weigh_cur (w in_cur)) e);
    kept = λ P a x. record {
      empties = a.empties;
      fulls = All-append (P in_full) s.full_bufs b a.fulls x;
      txs = a.txs;
      waits = a.waits;
      cur = tt;
    };
    same = refl;
  }

  pub put_cur : (b : CmdBuf) → s.cur_buf ≡ none → Puts s in_cur b (record s { cur_buf = some b })
  put_cur b e = record {
    weighed = λ w. omega (arith, ap (weigh_cur (w in_cur)) e);
    kept = λ P a x. record {
      empties = a.empties;
      fulls = a.fulls;
      txs = a.txs;
      waits = a.waits;
      cur = x;
    };
    same = refl;
  }

  pub put_tx :
      (b : CmdBuf)
      → keyed b.addr s.tx_bufs ≡ 0
      → Puts s in_tx b (record s { tx_bufs = insert_key b.addr b s.tx_bufs })
  put_tx b fresh = record {
    weighed = λ w. omega (arith, total-insert_key (λ e. w in_tx e.1) b.addr b s.tx_bufs fresh);
    kept = λ P a x. record {
      empties = a.empties;
      fulls = a.fulls;
      txs = All-insert_key (λ e. (e.0 ≡ e.1.addr) × P in_tx e.1) b.addr b s.tx_bufs (refl, x) a.txs;
      waits = a.waits;
      cur = a.cur;
    };
    same = refl;
  }

  pub put_waiting :
      (b : CmdBuf)
      → keyed b.addr s.waiting_bufs ≡ 0
      → Puts s in_waiting b (record s { waiting_bufs = insert_key b.addr b s.waiting_bufs })
  put_waiting b fresh = record {
    weighed =
        λ w. omega (arith, total-insert_key (λ e. w in_waiting e.1) b.addr b s.waiting_bufs fresh);
    kept = λ P a x. record {
      empties = a.empties;
      fulls = a.fulls;
      txs = a.txs;
      waits =
          All-insert_key (λ e. (e.0 ≡ e.1.addr) × P in_waiting e.1) b.addr b s.waiting_bufs
            (refl, x) a.waits;
      cur = a.cur;
    };
    same = refl;
  }

  pub take_empty :
      (b : CmdBuf) (rest : List CmdBuf)
      → pop_last s.empty_bufs ≡ some (b, rest)
      → Takes s in_empty b (record s { empty_bufs = rest })
  take_empty b rest e = record {
    weighed = λ w. omega (arith, total-pop_last (w in_empty) s.empty_bufs rest b e);
    kept = λ P a.
        let (x, xs) = All-pop_last (P in_empty) s.empty_bufs rest b e a.empties in
        (x, record { empties = xs; fulls = a.fulls; txs = a.txs; waits = a.waits; cur = a.cur });
    same = refl;
  }

  pub take_full :
      (b : CmdBuf) (rest : List CmdBuf)
      → pop_last s.full_bufs ≡ some (b, rest)
      → Takes s in_full b (record s { full_bufs = rest })
  take_full b rest e = record {
    weighed = λ w. omega (arith, total-pop_last (w in_full) s.full_bufs rest b e);
    kept = λ P a.
        let (x, xs) = All-pop_last (P in_full) s.full_bufs rest b e a.fulls in
        (x, record { empties = a.empties; fulls = xs; txs = a.txs; waits = a.waits; cur = a.cur });
    same = refl;
  }

  pub take_cur : (b : CmdBuf) → s.cur_buf ≡ some b → Takes s in_cur b (record s { cur_buf = none })
  take_cur b e = record {
    weighed = λ w. omega (arith, ap (weigh_cur (w in_cur)) e);
    kept = λ P a. (
      subst (CurHas (P in_cur)) e a.cur,
      record { empties = a.empties; fulls = a.fulls; txs = a.txs; waits = a.waits; cur = tt },
    );
    same = refl;
  }

  pub take_tx :
      (k : ℕ) (b : CmdBuf) (rest : List (ℕ × CmdBuf))
      → remove_key k s.tx_bufs ≡ some (b, rest)
      → Takes s in_tx b (record s { tx_bufs = rest })
  take_tx k b rest e = record {
    weighed = λ w.
        omega
          (arith, (remove_key-some {0, 0} (λ x. Unit) k b s.tx_bufs rest e).0 (λ x. w in_tx x.1));
    kept = λ P a.
        let (x, xs) =
          (remove_key-some (λ x. (x.0 ≡ x.1.addr) × P in_tx x.1) k b s.tx_bufs rest e).1 a.txs in
        (
          x.1,
          record { empties = a.empties; fulls = a.fulls; txs = xs; waits = a.waits; cur = a.cur },
        );
    same = refl;
  }

  pub take_waiting :
      (k : ℕ) (b : CmdBuf) (rest : List (ℕ × CmdBuf))
      → remove_key k s.waiting_bufs ≡ some (b, rest)
      → Takes s in_waiting b (record s { waiting_bufs = rest })
  take_waiting k b rest e = record {
    weighed = λ w. omega (
      arith,
      (remove_key-some {0, 0} (λ x. Unit) k b s.waiting_bufs rest e).0 (λ x. w in_waiting x.1),
    );
    kept = λ P a.
        let (x, xs) =
          (remove_key-some (λ x. (x.0 ≡ x.1.addr) × P in_waiting x.1) k b s.waiting_bufs rest e).1
            a.waits in
        (
          x.1,
          record { empties = a.empties; fulls = a.fulls; txs = a.txs; waits = xs; cur = a.cur },
        );
    same = refl;
  }
