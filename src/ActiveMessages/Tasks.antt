-- ===== src/ActiveMessages/Tasks.antt =====
-- The tasks of `SimpleBatcher` that share one batch: requests are added by any thread, and the tasks
-- that wait for more of them or send the batch take turns, one atomic access each.
use lamellar_runtime.Prelude.{
  ℕ, zero, suc, ◌+◌, ◌%◌, ◌<◌, not, Option, none, some, List, [], ◌∷◌, ◌++◌, length, set, get_elem?,
  ltb, leb, ◌==◌, if◌then◌else◌, usize_mod,
}
use lamellar_runtime.ActiveMessages.Messages.{ReqMetaData, LamellarData, Serde}
use lamellar_runtime.ActiveMessages.Batcher.{
  Entry, SimpleBatcherInner, new, add, swap, remote_am, returned_am, data_am, unit_am,
  max_batch_size,
}
use lamellar_runtime.ActiveMessages.Wire.{encode}

-- Where a task stands: the first to add loads the batch's id; then it waits, with its stall mark and
-- the id, in the loop of three tests and a reload; then it looks at the id again, and sends.
pub data Task : Type 0 where
  loading : ℕ → Task
  check_stall check_size check_id reload : ℕ → ℕ → Task
  leaving : ℕ → Task
  sending : Task
  done : Task

-- `sent` is what the tasks swapped out and have sent, in this order; `added` is what was added.
pub record Batching (A R : Type 0) : Type 0 where
  pub inner : SimpleBatcherInner A R
  pub stall_mark : ℕ
  pub tasks : List Task
  pub sent : List (List (Entry A R) × ℕ)
  pub added : List (Entry A R)

-- The four functions `add_…_am_to_batch`.
pub data Request (A R : Type 0) : Type 0 where
  add_remote_am : A → Request A R
  add_return_am : A → Request A R
  add_data_am : R → Request A R
  add_unit_am : Request A R

-- The task that an add starts, by the size that it returned.
unfoldable pub started : ℕ → ℕ → List Task
started size mark =
    if size == 0 then loading mark ∷ [] else if leb max_batch_size size then sending ∷ [] else []

module _ {A R : Type 0} where
  unfoldable pub measured : Serde A R → Request A R → LamellarData A R × ℕ
  unfolding remote_am returned_am data_am unit_am
  measured s (add_remote_am a) = remote_am s a
  measured s (add_return_am a) = returned_am s a
  measured s (add_data_am r) = data_am s r
  measured s add_unit_am = unit_am s

  unfoldable pub start : Option ℕ → ℕ → Batching A R
  start pe mark = record { inner = new pe; stall_mark = mark; tasks = []; sent = []; added = [] }

  -- A turn of a task.
  unfoldable pub turn : Batching A R → Task → Batching A R × Task
  unfolding swap
  turn b (loading mark) = (b, check_stall mark b.inner.batch_id)
  turn b (check_stall mark id) =
      (b, if not (mark == b.stall_mark) then check_size mark id else leaving id)
  turn b (check_size mark id) =
      (b, if ltb b.inner.size max_batch_size then check_id mark id else leaving id)
  turn b (check_id mark id) = (b, if id == b.inner.batch_id then reload mark id else leaving id)
  turn b (reload mark id) = (b, check_stall b.stall_mark id)
  turn b (leaving id) = (b, if id == b.inner.batch_id then sending else done)
  turn b sending =
      let (out, inner) = swap b.inner in
      (
        record b { inner = inner; sent = if ltb 0 out.1 then b.sent ++ (out ∷ []) else b.sent },
        done,
      )
  turn b done = (b, done)

  -- `mark` is the caller's stall mark. The shared one, which some callers raise, changes by a step of
  -- its own.
  unfoldable pub add_to_batch :
      Serde A R → ReqMetaData → Request A R → ℕ → Batching A R → Batching A R
  unfolding add started measured
  add_to_batch s req r mark b =
      let (d, n) = measured s r in
      let (size, inner) = add s req d n b.inner in
      record b {
        inner = inner;
        tasks = b.tasks ++ started size mark;
        added = b.added ++ ((req, d, (n + s.cmd_len) % usize_mod) ∷ []);
      }

  unfoldable pub turn_of : ℕ → Batching A R → Batching A R
  unfolding turn
  turn_of i b = elim (get_elem? b.tasks i) [
    | none ↦ b
    | some t ↦ let (b', t') = turn b t in record b' { tasks = set b'.tasks i t' }
  ]

  -- `n` turns of one task.
  unfoldable pub turns_of : ℕ → ℕ → Batching A R → Batching A R
  turns_of zero i b = b
  turns_of (suc n) i b = turns_of n i (turn_of i b)

  pub data Step (s : Serde A R) : Batching A R → Batching A R → Type 0 where
    mark : (b : Batching A R) (n : ℕ) → Step s b (record b { stall_mark = n })
    adds :
        (b : Batching A R) (req : ReqMetaData) (r : Request A R) (mark : ℕ)
        → b.inner.size + length (encode s (req, (measured s r).0, 0)) < usize_mod
        → Step s b (add_to_batch s req r mark b)
    turns : (b : Batching A R) (i : ℕ) → Step s b (turn_of i b)

  pub data Reach (s : Serde A R) (pe : Option ℕ) (m : ℕ) : Batching A R → Type 0 where
    here : Reach s pe m (start pe m)
    next : {b b' : Batching A R} → Reach s pe m b → Step s b b' → Reach s pe m b'
