-- ===== src/ActiveMessages/Delivery.antt =====
-- That what is added to a batch is sent, once, and received.
use lamellar_runtime.Prelude.{
  ℕ, zero, suc, ◌%◌, ◌^◌, ◌≤◌, ◌<◌, ◌≡◌, ◌≢◌, refl, sym, subst, Option, some, List, [], ◌∷◌, ◌++◌,
  length, map, set, get_elem?, All, All-get_elem?, total-witness, arith, ltb, ◌==◌, eq→==,
  Bool-cases, lt→ltb, inl, inr,
}
use lamellar_runtime.ActiveMessages.Messages.{Serde, IsSerde}
use lamellar_runtime.ActiveMessages.Batcher.{Entry, Tx, swap, create_tx_task, max_batch_size}
use lamellar_runtime.ActiveMessages.Registered.{exec_msg}
use lamellar_runtime.ActiveMessages.Wire.{received, sers_of, IsMade}
use lamellar_runtime.ActiveMessages.Serialized.{bytes_of}
use lamellar_runtime.ActiveMessages.Batches.{batch_roundtrip, bytes_of-pos}
use lamellar_runtime.ActiveMessages.Tasks.{
  Task, loading, check_stall, check_size, check_id, reload, leaving, sending, done, Batching, turn,
  turn_of, turns_of, Reach,
}
use lamellar_runtime.ActiveMessages.Pending.{for_id, will_send, entries_of, IsBatch, Reach-IsKept}

module _ {A R : Type 0} (s : Serde A R) (laws : IsSerde s) where
  -- In every state that a batch and its tasks reach, the entries added so far are those of the batches
  -- that were sent, in the order in which they were added, and behind them those of the batch.
  pub entries_kept :
      (pe : Option ℕ) (m : ℕ) (b : Batching A R)
      → Reach s pe m b
      → b.added ≡ entries_of b.sent ++ b.inner.batch
  entries_kept pe m b r = (Reach-IsKept s laws r).kept

  -- In every state that a batch and its tasks reach, each batch that was sent is serialized without
  -- a panic into a buffer of its size, and the PE that executes the buffer takes out the batch's
  -- entries in order, and nothing else.
  pub sent_received :
      (pe : Option ℕ) (m : ℕ) (b : Batching A R) (i : ℕ) (es : List (Entry A R)) (n : ℕ)
      (create_data_buf : ℕ → List ℕ)
      → Reach s pe m b
      → get_elem? b.sent i ≡ some (es, n)
      → length (create_data_buf n) ≡ n
      → (tx : Tx A) × (src : ℕ) × (create_tx_task s create_data_buf pe es n ≡ some (some tx))
        × (exec_msg s tx.header tx.bytes ≡ some (map (received s src) es))
        × (tx.pe ≡ pe)
        × (tx.sers ≡ sers_of s es)
  sent_received pe m b i es n create_data_buf r e room =
      let (k, p) =
        All-get_elem? (λ x. IsBatch s x × (0 < x.1)) b.sent i (es, n)
          (Reach-IsKept s laws r).sent_batches e in
      by_entries es k p
    where
      by_entries :
          (es : List (Entry A R))
          → IsBatch s (es, n)
          → 0 < n
          → (tx : Tx A) × (src : ℕ) × (create_tx_task s create_data_buf pe es n ≡ some (some tx))
            × (exec_msg s tx.header tx.bytes ≡ some (map (received s src) es))
            × (tx.pe ≡ pe)
            × (tx.sers ≡ sers_of s es)
      by_entries [] k p = absurd (omega (arith, k.sized))
      by_entries (x ∷ xs) k p =
          let (tx, t, e, q, c) =
            batch_roundtrip s laws create_data_buf pe x xs n k.made k.sized room in
          (tx, x.0.world_pe % 2 ^ 16, t, e, q, c)

get_elem?-set :
    {T : Type 0} (xs : List T) (i : ℕ) (x y : T)
    → get_elem? xs i ≡ some x
    → get_elem? (set xs i y) i ≡ some y
get_elem?-set [] i x y e = absurd (cc)
get_elem?-set (z ∷ zs) zero x y e = refl
get_elem?-set (z ∷ zs) (suc i) x y e = get_elem?-set zs i x y e

for_this : (id j : ℕ) → for_id id j ≢ 0 → id ≡ j
for_this id j h = ground arith

module _ {A R : Type 0} where
  -- Within `n` turns the task at `i` alone sends the batch.
  abbrev pub SendsWithin : ℕ → ℕ → Batching A R → Type 0
  SendsWithin n i b =
      (j : ℕ) × (j ≤ n)
      × ((turns_of j i b).inner.batch ≡ [])
      × ((turns_of j i b).sent ≡ b.sent ++ ((b.inner.batch, b.inner.size) ∷ []))

  -- The task at `i` stands at `t`.
  abbrev At : Batching A R → ℕ → Task → Type 0
  At b i t = get_elem? b.tasks i ≡ some t

  moved : Batching A R → ℕ → Task → Batching A R
  moved b i t = record b { tasks = set b.tasks i t }

  -- A turn that only moves the task on.
  after_turn :
      (n i : ℕ) (b : Batching A R) (t t' : Task)
      → At b i t
      → turn b t ≡ (b, t')
      → (At (moved b i t') i t' → SendsWithin n i (moved b i t'))
      → SendsWithin (suc n) i b
  unfolding moved turns_of turn_of
  after_turn n i b t t' e moves rest =
      let (j, le, none_left, once) = rest (get_elem?-set b.tasks i t t' e) in
      let same : turn_of i b ≡ moved b i t' = rw (e, turn_of, moves, moved) refl in
      (suc j, omega arith, rw (same, turns_of) none_left, rw (same, turns_of) once)

  sending-SendsWithin :
      (i : ℕ) (b : Batching A R) → 0 < b.inner.size → At b i sending → SendsWithin 1 i b
  unfolding turns_of turn_of turn swap
  sending-SendsWithin i b p e =
      let same = lt→ltb 0 b.inner.size p in
      (1, omega arith, rw (e, turn_of) refl, rw (e, turn_of, same) refl)

  leaving-SendsWithin :
      (i : ℕ) (b : Batching A R) (id : ℕ)
      → 0 < b.inner.size
      → b.inner.batch_id ≡ id
      → At b i (leaving id)
      → SendsWithin 2 i b
  unfolding turn moved
  leaving-SendsWithin i b id p q e =
      after_turn 1 i b (leaving id) sending e (rw (eq→== id b.inner.batch_id (sym q)) refl)
        (λ f. sending-SendsWithin i (moved b i sending) p f)

  settled-SendsWithin :
      (i : ℕ) (b : Batching A R) (id : ℕ)
      → 0 < b.inner.size
      → b.inner.batch_id ≡ id
      → At b i (check_stall b.stall_mark id)
      → SendsWithin 3 i b
  unfolding turn moved
  settled-SendsWithin i b id p q e =
      after_turn 2 i b (check_stall b.stall_mark id) (leaving id) e
        (rw (eq→== b.stall_mark b.stall_mark refl) refl)
        (λ f. leaving-SendsWithin i (moved b i (leaving id)) id p q f)

  reload-SendsWithin :
      (i : ℕ) (b : Batching A R) (m id : ℕ)
      → 0 < b.inner.size
      → b.inner.batch_id ≡ id
      → At b i (reload m id)
      → SendsWithin 4 i b
  unfolding turn moved
  reload-SendsWithin i b m id p q e =
      after_turn 3 i b (reload m id) (check_stall b.stall_mark id) e refl
        (λ f. settled-SendsWithin i (moved b i (check_stall b.stall_mark id)) id p q f)

  check_id-SendsWithin :
      (i : ℕ) (b : Batching A R) (m id : ℕ)
      → 0 < b.inner.size
      → b.inner.batch_id ≡ id
      → At b i (check_id m id)
      → SendsWithin 5 i b
  unfolding turn moved
  check_id-SendsWithin i b m id p q e =
      after_turn 4 i b (check_id m id) (reload m id) e (rw (eq→== id b.inner.batch_id (sym q)) refl)
        (λ f. reload-SendsWithin i (moved b i (reload m id)) m id p q f)

  later : (j n i : ℕ) (b : Batching A R) → j ≤ n → SendsWithin j i b → SendsWithin n i b
  later j n i b h (k, le, none_left, once) = (k, omega arith, none_left, once)

  check_size-SendsWithin :
      (i : ℕ) (b : Batching A R) (m id : ℕ)
      → 0 < b.inner.size
      → b.inner.batch_id ≡ id
      → At b i (check_size m id)
      → SendsWithin 6 i b
  unfolding turn moved
  check_size-SendsWithin i b m id p q e = elim (Bool-cases (ltb b.inner.size max_batch_size)) [
    | inl y ↦
        after_turn 5 i b (check_size m id) (check_id m id) e (rw y refl)
          (λ f. check_id-SendsWithin i (moved b i (check_id m id)) m id p q f)
    | inr n ↦ later 3 6 i b (omega arith) (
        after_turn 2 i b (check_size m id) (leaving id) e (rw n refl)
          (λ f. leaving-SendsWithin i (moved b i (leaving id)) id p q f))
  ]

  check_stall-SendsWithin :
      (i : ℕ) (b : Batching A R) (m id : ℕ)
      → 0 < b.inner.size
      → b.inner.batch_id ≡ id
      → At b i (check_stall m id)
      → SendsWithin 7 i b
  unfolding turn moved
  check_stall-SendsWithin i b m id p q e = elim (Bool-cases (m == b.stall_mark)) [
    | inl y ↦ later 3 7 i b (omega arith) (
        after_turn 2 i b (check_stall m id) (leaving id) e (rw y refl)
          (λ f. leaving-SendsWithin i (moved b i (leaving id)) id p q f))
    | inr n ↦
        after_turn 6 i b (check_stall m id) (check_size m id) e (rw n refl)
          (λ f. check_size-SendsWithin i (moved b i (check_size m id)) m id p q f)
  ]

  loading-SendsWithin :
      (i : ℕ) (b : Batching A R) (m : ℕ) → 0 < b.inner.size → At b i (loading m) → SendsWithin 8 i b
  unfolding turn moved
  loading-SendsWithin i b m p e =
      after_turn 7 i b (loading m) (check_stall m b.inner.batch_id) e refl (λ f.
        check_stall-SendsWithin i (moved b i (check_stall m b.inner.batch_id)) m b.inner.batch_id p
          refl f)

  -- A task that will send the batch does so within 8 turns of its own.
  will_send-SendsWithin :
      (i : ℕ) (b : Batching A R) (t : Task)
      → 0 < b.inner.size
      → At b i t
      → will_send b.inner.batch_id t ≢ 0
      → SendsWithin 8 i b
  will_send-SendsWithin i b (loading m) p e w = loading-SendsWithin i b m p e
  will_send-SendsWithin i b (check_stall m id) p e w =
      later 7 8 i b (omega arith)
        (check_stall-SendsWithin i b m id p (for_this b.inner.batch_id id w) e)
  will_send-SendsWithin i b (check_size m id) p e w =
      later 6 8 i b (omega arith)
        (check_size-SendsWithin i b m id p (for_this b.inner.batch_id id w) e)
  will_send-SendsWithin i b (check_id m id) p e w =
      later 5 8 i b (omega arith)
        (check_id-SendsWithin i b m id p (for_this b.inner.batch_id id w) e)
  will_send-SendsWithin i b (reload m id) p e w =
      later 4 8 i b (omega arith) (reload-SendsWithin i b m id p (for_this b.inner.batch_id id w) e)
  will_send-SendsWithin i b (leaving id) p e w =
      later 2 8 i b (omega arith) (leaving-SendsWithin i b id p (for_this b.inner.batch_id id w) e)
  will_send-SendsWithin i b sending p e w =
      later 1 8 i b (omega arith) (sending-SendsWithin i b p e)
  will_send-SendsWithin i b done p e w = absurd (w refl)

not_empty :
    {A R : Type 0} (s : Serde A R) (laws : IsSerde s) (es : List (Entry A R))
    → All (IsMade s) es
    → es ≢ []
    → 0 < bytes_of es
not_empty s laws [] made n = absurd (n refl)
not_empty s laws (e ∷ es) made n = bytes_of-pos s laws e es made.0

-- In every state that a batch and its tasks reach with something in the batch, there is a task of
-- which at most 8 turns, with no other's in between, send the whole batch: nothing is left behind.
pub none_stranded :
    {A R : Type 0} (s : Serde A R) (laws : IsSerde s) (pe : Option ℕ) (m : ℕ) (b : Batching A R)
    → Reach s pe m b
    → b.inner.batch ≢ []
    → (i : ℕ) × SendsWithin 8 i b
none_stranded s laws pe m b r some_entry =
    let k = (Reach-IsKept s laws r).batch in
    let p = subst (λ n. 0 < n) (sym k.sized) (not_empty s laws b.inner.batch k.made some_entry) in
    let w = (Reach-IsKept s laws r).pending p in
    let (i, t, e, n) =
      total-witness (will_send b.inner.batch_id) b.tasks (λ z. absurd (omega (arith, z, w))) in
    (i, will_send-SendsWithin i b t p e n)
