-- ===== src/CommandQueues/Freeing.antt =====
-- What `check_free_data` does to the buffers and to the reference counts, and what the receiver's `send_release`
-- and `send_free` do to a buffer.
use lamellar_runtime.Prelude.{
  ℕ, ◌+◌, ◌≤◌, ◌≡◌, refl, sym, ap, ◌∙◌, subst, ◌⊎◌, inl, inr, none, some, List, [], ◌∷◌, ◌++◌,
  total-append, arith, ltb, ◌==◌, if◌then◌else◌, eq→==, Bool-cases, Option-cases, All, All-imp,
  total, remove_key, keyed, remove_key-some, All-both, keyed-All, remove_key-none,
}
use lamellar_runtime.CommandQueues.Messages.{free, release, CmdMsg}
use lamellar_runtime.CommandQueues.Bufs.{
  CmdBuf, CmdMsgBuffer, state, Heap, check_free_data, reset, iter, drop_all, drop_data, freed_bufs,
  take_back, ref_cnt_addr,
}
use lamellar_runtime.CommandQueues.Places.{
  Place, in_empty, in_waiting, weigh, Moves, Takes-Puts, put_empty, take_waiting,
}
use lamellar_runtime.CommandQueues.Owned.{
  Shape, at_rest, got, count, IsValid, Moves-IsValid, taken_fresh,
}

-- 1 for a command whose count `drop_data` lowers at `x`.
abbrev pub lowers : ℕ → CmdMsg → ℕ
lowers x m = if ltb 0 m.dsize then (if ref_cnt_addr m == x then 1 else 0) else 0

-- The commands of a buffer that refer to the count at `x`.
abbrev pub refers : ℕ → Place → CmdBuf → ℕ
refers x p b = total (lowers x) (iter b)

abbrev pub pending : ℕ → CmdMsgBuffer → ℕ
pending x s = weigh (refers x) s

drop_data-lowered :
    (x : ℕ) (h : Heap) (m : CmdMsg)
    → count x (drop_data h m).lowered ≡ count x h.lowered + lowers x m
unfolding drop_data
drop_data-lowered x h m = elim (Bool-cases (ltb 0 m.dsize)) [
  | inl y ↦
      rw y
        (omega (arith, total-append (λ z. if z == x then 1 else 0) h.lowered (ref_cnt_addr m ∷ [])))
  | inr z ↦ rw z (omega arith)
]

pub drop_all-lowered :
    (x : ℕ) (h : Heap) (ms : List CmdMsg)
    → count x (drop_all h ms).lowered ≡ count x h.lowered + total (lowers x) ms
unfolding drop_all
drop_all-lowered x h [] = omega arith
drop_all-lowered x h (m ∷ ms) =
    omega (arith, drop_all-lowered x (drop_data h m) ms, drop_data-lowered x h m)

-- `freed_bufs` does not panic, and every waiting buffer that it leaves out is only released.
abbrev FreedOutcome : ℕ → List (ℕ × CmdBuf) → Type 0
FreedOutcome n es =
    (freed : List ℕ) × (freed_bufs es ≡ some freed)
    × All (λ e. (state e.1 ≡ some release) ⊎ (1 ≤ count e.0 freed)) es

module _ (n : ℕ) where
  freed_bufs-outcome :
      (es : List (ℕ × CmdBuf))
      → All (λ e. (e.0 ≡ e.1.addr) × Shape n in_waiting e.1) es
      → FreedOutcome n es
  unfolding freed_bufs
  freed_bufs-outcome [] a = ([], refl, tt)
  freed_bufs-outcome ((k, b) ∷ es) a = by_state (freed_bufs-outcome es a.1) a.0.1
    where
      longer :
          (freed : List ℕ)
          → All (λ e. (state e.1 ≡ some release) ⊎ (1 ≤ count e.0 freed)) es
          → All (λ e. (state e.1 ≡ some release) ⊎ (1 ≤ count e.0 (k ∷ freed))) es
      longer freed some_freed =
          All-imp (λ e h. elim h [ inl r ↦ inl r | inr m ↦ inr (omega (arith, m)) ]) es some_freed

      by_state : FreedOutcome n es → Shape n in_waiting b → FreedOutcome n ((k, b) ∷ es)
      by_state (freed, q, all) (got {c = c} g pos e (inl r)) =
          let e' : state b ≡ some release = e ∙ ap some r in
          (freed, simp (freed_bufs, e', q) refl, (inl e', all))
      by_state (freed, q, all) (got {c = c} g pos e (inr f)) =
          let e' : state b ≡ some free = e ∙ ap some f in
          let self : ◌≡◌ {A = ℕ} (if k == k then 1 else 0) 1 = rw (eq→== k k refl) refl in
          (k ∷ freed, simp (freed_bufs, e', q) refl, (inr (omega (arith, self)), longer freed all))

-- Buffers went back, and each command of theirs lowered its count once.
pub record Returned (n : ℕ) (addrs : List ℕ) (s : CmdMsgBuffer) (h : Heap) (s' : CmdMsgBuffer)
    (h' : Heap) : Type 1 where
  pub valid : IsValid n addrs s'
  pub txs : s'.tx_bufs ≡ s.tx_bufs
  pub counted : (x : ℕ) → pending x s' + count x h'.lowered ≡ pending x s + count x h.lowered

module _ (n : ℕ) (addrs : List ℕ) (distinct : (a : ℕ) → count a addrs ≤ 1) where
  got-rest : {b : CmdBuf} → Shape n in_waiting b → Shape n in_empty (reset b)
  unfolding reset
  got-rest (got g pos e c) =
      at_rest (record { long = g.long; sized = g.sized; inside = omega arith; counted = refl }) refl

  module _ (s : CmdMsgBuffer) (h : Heap) (v : IsValid n addrs s) (addr : ℕ) (b : CmdBuf)
      (rest : List (ℕ × CmdBuf)) (q : remove_key addr s.waiting_bufs ≡ some (b, rest)) where
    abbrev returned : CmdMsgBuffer
    returned = record s { waiting_bufs = rest; empty_bufs = s.empty_bufs ++ (reset b ∷ []) }

    return_one : Moves s in_waiting b in_empty (reset b) returned
    return_one =
        Takes-Puts (take_waiting s addr b rest q)
          (put_empty (record s { waiting_bufs = rest }) (reset b))

    return_one-Returned : Returned n addrs s h returned (drop_all h (iter b))
    unfolding reset
    return_one-Returned = record {
      valid = Moves-IsValid n addrs return_one refl got-rest v;
      txs = refl;
      counted = λ x. omega (arith, return_one.weighed (refers x), drop_all-lowered x h (iter b));
    }

  Returned-then :
      {s s' s'' : CmdMsgBuffer} {h h' h'' : Heap}
      → Returned n addrs s h s' h'
      → Returned n addrs s' h' s'' h''
      → Returned n addrs s h s'' h''
  Returned-then r u = record {
    valid = u.valid;
    txs = u.txs ∙ r.txs;
    counted = λ x. omega (arith, r.counted x, u.counted x);
  }

  -- No waiting buffer is left that the receiver has freed.
  abbrev pub AllReleased : CmdMsgBuffer → Type 0
  AllReleased s = All (λ e. state e.1 ≡ some release) s.waiting_bufs

  abbrev Listed : List ℕ → List (ℕ × CmdBuf) → Type 0
  Listed freed es = All (λ e. (state e.1 ≡ some release) ⊎ (1 ≤ count e.0 freed)) es

  abbrev TakenBack : CmdMsgBuffer → Heap → CmdMsgBuffer → Heap → Type 1
  TakenBack s h s' h' = Returned n addrs s h s' h' × AllReleased s'

  shorter :
      (addr : ℕ) (freed : List ℕ) (es : List (ℕ × CmdBuf))
      → keyed addr es ≡ 0
      → Listed (addr ∷ freed) es
      → Listed freed es
  shorter addr freed es z all =
      All-both (λ e other h. elim h [ inl r ↦ inl r | inr m ↦ inr (ground (arith, m, other)) ]) es
        (keyed-All addr es z) all

  take_back-lem :
      (freed : List ℕ) (s : CmdMsgBuffer) (h : Heap)
      → IsValid n addrs s
      → Listed freed s.waiting_bufs
      → TakenBack s h (take_back freed s h).0 (take_back freed s h).1
  unfolding take_back
  take_back-lem [] s h v all = (
    record { valid = v; txs = refl; counted = λ x. refl },
    All-imp (λ e o. elim o [ inl r ↦ r | inr m ↦ absurd (omega (arith, m)) ]) s.waiting_bufs all,
  )
  take_back-lem (addr ∷ freed) s h v all =
      by_entry (take_back-lem freed) (Option-cases (remove_key addr s.waiting_bufs))
    where
      by_entry :
          ((s : CmdMsgBuffer) (h : Heap)
            → IsValid n addrs s
            → Listed freed s.waiting_bufs
            → TakenBack s h (take_back freed s h).0 (take_back freed s h).1)
          → (remove_key addr s.waiting_bufs ≡ none)
            ⊎ ((x : CmdBuf × List (ℕ × CmdBuf)) × (remove_key addr s.waiting_bufs ≡ some x))
          → TakenBack s h (take_back (addr ∷ freed) s h).0 (take_back (addr ∷ freed) s h).1
      by_entry up (inl q) =
          simp (take_back, q)
            (up s h v
              (shorter addr freed s.waiting_bufs (remove_key-none addr s.waiting_bufs q) all))
      by_entry up (inr ((b, rest), q)) =
          let taken =
            remove_key-some (λ e. (e.0 ≡ e.1.addr) × Shape n in_waiting e.1) addr b s.waiting_bufs
              rest q in
          let name : b.addr ≡ addr = sym (taken.1 v.shape.waits).0.0 in
          let fresh : keyed addr rest ≡ 0 =
            subst (λ k. keyed k rest ≡ 0) name
              (taken_fresh n addrs distinct v (take_waiting s addr b rest q)).1 in
          let kept : Listed (addr ∷ freed) rest =
            ((remove_key-some (λ e. (state e.1 ≡ some release) ⊎ (1 ≤ count e.0 (addr ∷ freed)))
                addr b s.waiting_bufs rest q).1
              all).1 in
          let one = return_one-Returned s h v addr b rest q in
          let (more, all') =
            up (returned s h v addr b rest q) (drop_all h (iter b)) one.valid
              (shorter addr freed rest fresh kept) in
          simp (take_back, q) (Returned-then one more, all')

  -- `check_free_data` does not panic, takes back every buffer that the receiver has freed, and lowers the count
  -- of each of their commands once.
  pub check_free_data-outcome :
      (s : CmdMsgBuffer) (h : Heap)
      → IsValid n addrs s
      → (s' : CmdMsgBuffer) × (h' : Heap) × (check_free_data s h ≡ some (s', h'))
        × Returned n addrs s h s' h'
        × AllReleased s'
  unfolding check_free_data
  check_free_data-outcome s h v =
      let (freed, q, all) = freed_bufs-outcome n s.waiting_bufs v.shape.waits in
      let (r, done) = take_back-lem freed s h v all in
      ((take_back freed s h).0, (take_back freed s h).1, simp (check_free_data, q) refl, r, done)
