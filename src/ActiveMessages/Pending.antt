-- ===== src/ActiveMessages/Pending.antt =====
-- What holds of a batch and its tasks in every reachable state.
use lamellar_runtime.Prelude.{
  ℕ, ◌+◌, ◌≤◌, ◌<◌, ◌≡◌, ◌≢◌, refl, sym, ap, ◌∙◌, Option, some, List, [], ◌∷◌, ◌++◌, length, set,
  get_elem?, All, All-append, total, total-append, total-set, length-append, arith, usize_mod,
  add_usize, ltb, ◌==◌, if◌then◌else◌, Bool-cases, Option-cases, false, ◌⊎◌, inl, inr,
}
use mathlib.Core.List.{append-nil, append_assoc}
use lamellar_runtime.ActiveMessages.Messages.{
  ReqMetaData, am, return_am, result, unit, Serde, IsSerde,
}
use lamellar_runtime.ActiveMessages.Batcher.{Entry, new}
use lamellar_runtime.ActiveMessages.Wire.{encode, IsMade, length-am_body}
use lamellar_runtime.ActiveMessages.Serialized.{bytes_of, length-encode}
use lamellar_runtime.ActiveMessages.Batches.{bytes_of-pos}
use lamellar_runtime.ActiveMessages.Tasks.{
  Task, loading, check_stall, check_size, check_id, reload, leaving, sending, done, Batching,
  Request, add_remote_am, add_return_am, add_data_am, add_unit_am, measured, start, turn, started,
  add_to_batch, turn_of, Step, mark, adds, turns, Reach, here, next,
}

-- 1 for a task that will send the batch with this id, or whichever is there.
abbrev pub for_id : ℕ → ℕ → ℕ
for_id id j = if j == id then 1 else 0

abbrev pub will_send : ℕ → Task → ℕ
will_send id (loading m) = 1
will_send id (check_stall m j) = for_id id j
will_send id (check_size m j) = for_id id j
will_send id (check_id m j) = for_id id j
will_send id (reload m j) = for_id id j
will_send id (leaving j) = for_id id j
will_send id sending = 1
will_send id done = 0

-- The entries of all batches that were sent.
abbrev pub entries_of : {A R : Type 0} → List (List (Entry A R) × ℕ) → List (Entry A R)
entries_of [] = []
entries_of (b ∷ bs) = b.0 ++ entries_of bs

pub entries_of-append :
    {A R : Type 0} (bs : List (List (Entry A R) × ℕ)) (es : List (Entry A R)) (n : ℕ)
    → entries_of (bs ++ ((es, n) ∷ [])) ≡ entries_of bs ++ es
entries_of-append [] es n = append-nil es
entries_of-append (b ∷ bs) es n =
    rw (entries_of-append bs es n) (sym (append_assoc b.0 (entries_of bs) es))

module _ {A R : Type 0} (s : Serde A R) where
  -- A batch with its size, in which every entry has its own, of an entry at least.
  pub record IsBatch (b : List (Entry A R) × ℕ) : Type 0 where
    pub made : All (IsMade s) b.0
    pub sized : b.1 ≡ bytes_of b.0

  pub record IsKept (b : Batching A R) : Type 0 where
    pub batch : IsBatch (b.inner.batch, b.inner.size)
    pub sent_batches : All (λ x. IsBatch x × (0 < x.1)) b.sent
    pub kept : b.added ≡ entries_of b.sent ++ b.inner.batch
    pub pending : 0 < b.inner.size → 0 < total (will_send b.inner.batch_id) b.tasks

  start-IsKept : (pe : Option ℕ) (m : ℕ) → IsKept (start pe m)
  unfolding start new
  start-IsKept pe m = record {
    batch = record { made = tt; sized = refl };
    sent_batches = tt;
    kept = refl;
    pending = λ h. absurd (omega arith);
  }

  -- A turn that does not send leaves the batch to at least as many tasks.
  pub will_send_le :
      (b : Batching A R) (t : Task)
      → t ≢ sending
      → ((turn b t).0 ≡ b)
        × (will_send b.inner.batch_id t ≤ will_send b.inner.batch_id (turn b t).1)
  unfolding turn
  will_send_le b (loading m) n = (refl, ground arith)
  will_send_le b (check_stall m j) n = (refl, ground arith)
  will_send_le b (check_size m j) n = (refl, ground arith)
  will_send_le b (check_id m j) n = (refl, ground arith)
  will_send_le b (reload m j) n = (refl, ground arith)
  will_send_le b (leaving j) n = (refl, ground arith)
  will_send_le b sending n = absurd (n refl)
  will_send_le b done n = (refl, ground arith)

  sending-cases : (t : Task) → (t ≡ sending) ⊎ (t ≢ sending)
  sending-cases (loading m) = inr (λ e. cc)
  sending-cases (check_stall m j) = inr (λ e. cc)
  sending-cases (check_size m j) = inr (λ e. cc)
  sending-cases (check_id m j) = inr (λ e. cc)
  sending-cases (reload m j) = inr (λ e. cc)
  sending-cases (leaving j) = inr (λ e. cc)
  sending-cases sending = inl refl
  sending-cases done = inr (λ e. cc)

  -- The tasks of a state after the turn of one that does not send.
  waiting-IsKept :
      (b : Batching A R) (i : ℕ) (t : Task)
      → get_elem? b.tasks i ≡ some t
      → t ≢ sending
      → IsKept b
      → IsKept (record (turn b t).0 { tasks = set (turn b t).0.tasks i (turn b t).1 })
  waiting-IsKept b i t e n k =
      let (same, more) = will_send_le b t n in
      let w = will_send b.inner.batch_id in
      rw same (record {
        batch = k.batch;
        sent_batches = k.sent_batches;
        kept = k.kept;
        pending = λ h. omega (arith, k.pending h, more, total-set w b.tasks i t (turn b t).1 e);
      })

  none_left : (b : Batching A R) → ltb 0 b.inner.size ≡ false → b.inner.size ≡ 0
  none_left b n = ground arith

  nothing : IsSerde s → (es : List (Entry A R)) → All (IsMade s) es → bytes_of es ≡ 0 → es ≡ []
  nothing laws [] made z = refl
  nothing laws (e ∷ es) made z = absurd (omega (arith, bytes_of-pos s laws e es made.0))

  module _ (laws : IsSerde s) where
    sending-IsKept :
        (b : Batching A R) (i : ℕ)
        → IsKept b
        → IsKept (record (turn b sending).0 { tasks = set (turn b sending).0.tasks i done })
    unfolding turn
    sending-IsKept b i k = elim (Bool-cases (ltb 0 b.inner.size)) [
      | inl y ↦ rw y (record {
        batch = record { made = tt; sized = refl };
        sent_batches =
            All-append (λ x. IsBatch x × (0 < x.1)) b.sent (b.inner.batch, b.inner.size)
              k.sent_batches (k.batch, ground arith);
        kept =
            k.kept
            ∙ sym (entries_of-append b.sent b.inner.batch b.inner.size)
            ∙ sym (append-nil (entries_of (b.sent ++ ((b.inner.batch, b.inner.size) ∷ []))));
        pending = λ h. absurd (omega arith);
      })
      | inr n ↦ rw n (record {
        batch = record { made = tt; sized = refl };
        sent_batches = k.sent_batches;
        kept =
            k.kept
            ∙ ap (λ es. entries_of b.sent ++ es)
                (nothing laws b.inner.batch k.batch.made
                  (omega (arith, k.batch.sized, none_left b n)));
        pending = λ h. absurd (omega arith);
      })
    ]

    turn_of-IsKept : (b : Batching A R) (i : ℕ) → IsKept b → IsKept (turn_of i b)
    unfolding turn_of
    turn_of-IsKept b i k = elim (Option-cases (get_elem? b.tasks i)) [
      | inl e ↦ rw (e, turn_of) k
      | inr (t, e) ↦
          rw (e, turn_of)
            (elim (sending-cases t) [
              | inl y ↦ rw y (sending-IsKept b i k)
              | inr n ↦ waiting-IsKept b i t e n k
            ])
    ]

    -- What the four functions add has the size that its bytes take, where the batch does not wrap.
    measured-IsMade :
        (req : ReqMetaData) (r : Request A R)
        → length (encode s (req, (measured s r).0, 0)) < usize_mod
        → IsMade s (req, (measured s r).0, add_usize (measured s r).1 s.cmd_len)
    unfolding measured
    measured-IsMade req (add_remote_am a) h =
        let l = length-encode s laws req (am a (s.am_id a)) 0 in
        let m = length-am_body s laws req a (s.am_id a) in (refl, omega arith, omega arith)
    measured-IsMade req (add_return_am a) h =
        let l = length-encode s laws req (return_am a (s.am_id a)) 0 in
        let m = length-am_body s laws req a (s.am_id a) in (refl, omega arith, omega arith)
    measured-IsMade req (add_data_am r) h =
        let c = length (s.darcs.serialize (s.darcs_of r)) in
        let l = length-encode s laws req (result r (s.darcs_of r) c) 0 in
        let m =
          length-append
            (s.data_header.serialize
              (record { size = length (s.result_bytes r); req_id = req.id; darc_list_size = c }))
            (s.darcs.serialize (s.darcs_of r) ++ s.result_bytes r) in
        let n = length-append (s.darcs.serialize (s.darcs_of r)) (s.result_bytes r) in
        let p =
          laws.data_header_fixed
            (record { size = length (s.result_bytes r); req_id = req.id; darc_list_size = c }) in
        (refl, omega arith, omega arith)
    measured-IsMade req add_unit_am h =
        let l = length-encode s laws req unit 0 in
        let m = laws.unit_header_fixed (record { req_id = req.id }) in
        (tt, omega arith, omega arith)

    started-pending :
        (b : Batching A R) (m : ℕ)
        → (0 < b.inner.size → 0 < total (will_send b.inner.batch_id) b.tasks)
        → 0 < total (will_send b.inner.batch_id) (b.tasks ++ started b.inner.size m)
    unfolding started
    started-pending b m pending = elim (Bool-cases (b.inner.size == 0)) [
      | inl y ↦
          rw y (omega (arith, total-append (will_send b.inner.batch_id) b.tasks (loading m ∷ [])))
      | inr n ↦
          let more = started b.inner.size m in
          omega
            (arith, total-append (will_send b.inner.batch_id) b.tasks more, pending (ground arith))
    ]

    add_to_batch-IsKept :
        (b : Batching A R) (req : ReqMetaData) (r : Request A R) (m : ℕ)
        → b.inner.size + length (encode s (req, (measured s r).0, 0)) < usize_mod
        → IsKept b
        → IsKept (add_to_batch s req r m b)
    unfolding add_to_batch
    add_to_batch-IsKept b req r m h k =
        let e : Entry A R = (req, (measured s r).0, add_usize (measured s r).1 s.cmd_len) in
        let made : IsMade s e = measured-IsMade req r (omega arith) in
        record {
          batch = record {
            made = All-append (IsMade s) b.inner.batch e k.batch.made made;
            sized = omega (
              arith,
              k.batch.sized,
              made.1,
              total-append (λ (x : Entry A R). x.2) b.inner.batch (e ∷ []),
            );
          };
          sent_batches = k.sent_batches;
          kept =
              ap (λ es. es ++ (e ∷ [])) k.kept
              ∙ append_assoc (entries_of b.sent) b.inner.batch (e ∷ []);
          pending = λ p. started-pending b m k.pending;
        }

    Step-IsKept : {b b' : Batching A R} → Step s b b' → IsKept b → IsKept b'
    Step-IsKept (mark b n) k = record {
      batch = k.batch;
      sent_batches = k.sent_batches;
      kept = k.kept;
      pending = k.pending;
    }
    Step-IsKept (adds b req r m h) k = add_to_batch-IsKept b req r m h k
    Step-IsKept (turns b i) k = turn_of-IsKept b i k

    pub Reach-IsKept : {pe : Option ℕ} {m : ℕ} {b : Batching A R} → Reach s pe m b → IsKept b
    Reach-IsKept {pe} {m} here = start-IsKept pe m
    Reach-IsKept (next r st) = Step-IsKept st (Reach-IsKept r)
