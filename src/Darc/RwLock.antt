-- ===== src/Darc/RwLock.antt =====
-- `DistRwLock` of src/darc/global_rw_darc.rs: the lock of a `GlobalRwDarc`, on PE 0, that the PEs take
-- and give back by active messages. A task runs `async_reader_lock` or `async_writer_lock`, holds the
-- guard as long as it likes, and then runs `reader_unlock` or `writer_unlock`. Each turn is one
-- atomic access; an `await` in a loop is a turn that changes nothing. The collective
-- writers are not among the tasks here.
mod Turns
pub mod Invariant
pub mod Exclusion
mod Tests
use lamellar_runtime.Prelude.{
  ℕ, zero, suc, ◌+◌, ◌-◌, ◌*◌, ◌/◌, ◌%◌, ◌^◌, ◌≤◌, ◌<◌, min, max, ◌≡◌, refl, sym, ap, ◌∙◌, subst,
  ◌≢◌, ◌↔◌, ◌⊎◌, inl, inr, Bool, true, false, ◌&&◌, ◌||◌, not, Option, none, some, List, [], ◌∷◌,
  ◌++◌, map, set, arith, dec_lt, dec_le, ℕ_discrete, ltb, leb, ◌==◌, if◌then◌else◌, ltb→lt, lt→ltb,
  le→ltb, leb→le, le→leb, leb→lt, eq→==, ==→eq, Bool-cases, Option-cases, is_some, length,
  get_elem?, insert_at, pop_last, All, All-imp, pop_last-append, length-append, usize_mod,
  add_usize, sub_usize, mul_usize, mul_le, mul_lt,
}

-- `writer` is `num_pes` where no PE writes.
pub record DistRwLock : Type 0 where
  pub readers : ℕ
  pub writer : ℕ

unfoldable pub new : ℕ → DistRwLock
new num_pes = record { readers = 0; writer = num_pes }

-- Where a task stands.
pub data Pc : Type 0 where
  idle : Pc
  read_wait : Pc  -- the inner loop of `async_reader_lock`
  read_add : Pc  -- before its `fetch_add`
  read_check : Pc  -- before its second look at `writer`
  read_undo : Pc  -- before its `fetch_sub`
  reading : Pc  -- holds the read guard; its turn is `reader_unlock`
  write_try : Pc  -- the compare-exchange of `async_writer_lock`
  write_drain : Pc  -- its loop on `readers`
  writing : Pc  -- holds the write guard; its turn is `writer_unlock`
  panicked : Pc  -- `writer_unlock` found another PE's lock

pub record Task : Type 0 where
  pub pe : ℕ
  pub pc : Pc

-- `compare_exchange` on `writer`: the new lock, or `none` where the value was another.
abbrev pub compare_exchange : DistRwLock → ℕ → ℕ → Option DistRwLock
compare_exchange l old new_value =
    if l.writer == old then some (record l { writer = new_value }) else none

unfoldable pub reader_turn : ℕ → DistRwLock → Pc → DistRwLock × Pc
reader_turn num_pes l read_wait = (l, if l.writer == num_pes then read_add else read_wait)
reader_turn num_pes l read_add = (record l { readers = add_usize l.readers 1 }, read_check)
reader_turn num_pes l read_check = (l, if l.writer == num_pes then reading else read_undo)
reader_turn num_pes l read_undo = (record l { readers = sub_usize l.readers 1 }, read_wait)
reader_turn num_pes l pc = (l, pc)

unfoldable pub writer_turn : ℕ → ℕ → DistRwLock → Pc → DistRwLock × Pc
writer_turn num_pes pe l write_try = elim (compare_exchange l num_pes pe) [
  | none ↦ (l, write_try)
  | some l' ↦ (l', write_drain)
]
writer_turn num_pes pe l write_drain = (l, if l.readers == 0 then writing else write_drain)
writer_turn num_pes pe l pc = (l, pc)

unfoldable pub reader_unlock : DistRwLock → DistRwLock
reader_unlock l = record l { readers = sub_usize l.readers 1 }

-- `none` is the panic.
unfoldable pub writer_unlock : ℕ → ℕ → DistRwLock → Option DistRwLock
writer_unlock num_pes pe l = compare_exchange l pe num_pes

unfoldable pub turn : ℕ → ℕ → DistRwLock → Pc → DistRwLock × Pc
unfolding reader_turn writer_turn reader_unlock writer_unlock
turn num_pes pe l idle = (l, idle)
turn num_pes pe l reading = (reader_unlock l, idle)
turn num_pes pe l writing = elim (writer_unlock num_pes pe l) [
  | none ↦ (l, panicked)
  | some l' ↦ (l', idle)
]
turn num_pes pe l write_try = writer_turn num_pes pe l write_try
turn num_pes pe l write_drain = writer_turn num_pes pe l write_drain
turn num_pes pe l pc = reader_turn num_pes l pc

pub record System : Type 0 where
  pub lock : DistRwLock
  pub tasks : List Task

-- Task `i` goes on to `pc`, and the lock becomes `l`.
abbrev pub move : System → ℕ → Task → DistRwLock → Pc → System
move s i t l pc = record { lock = l; tasks = set s.tasks i (record { pe = t.pe; pc = pc }) }

-- Any task may take its next turn, and an idle one may ask for either guard.
pub data Step (num_pes : ℕ) (s : System) : System → Type 0 where
  run :
      (i : ℕ) (t : Task)
      → get_elem? s.tasks i ≡ some t
      → Step num_pes s
          (move s i t (turn num_pes t.pe s.lock t.pc).0 (turn num_pes t.pe s.lock t.pc).1)
  ask_read :
      (i : ℕ) (t : Task)
      → get_elem? s.tasks i ≡ some t
      → t.pc ≡ idle
      → Step num_pes s (move s i t s.lock read_wait)
  ask_write :
      (i : ℕ) (t : Task)
      → get_elem? s.tasks i ≡ some t
      → t.pc ≡ idle
      → Step num_pes s (move s i t s.lock write_try)

-- From a new lock, with idle tasks of PEs of the team.
pub record IsStart (num_pes : ℕ) (s : System) : Type 0 where
  pub fresh : s.lock ≡ new num_pes
  pub resting : All (λ t. (t.pc ≡ idle) × (t.pe < num_pes)) s.tasks
  pub few : length s.tasks < 2 ^ 64

pub data Reach (num_pes : ℕ) : System → Type 0 where
  start : {s : System} → IsStart num_pes s → Reach num_pes s
  later : {s t : System} → Reach num_pes s → Step num_pes s t → Reach num_pes t
