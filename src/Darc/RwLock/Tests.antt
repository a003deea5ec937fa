-- ===== src/Darc/RwLock/Tests.antt =====
-- Two tasks on a `DistRwLock` of two PEs: runs, and the theorems at them.
use lamellar_runtime.Prelude.{ℕ, ◌≡◌, refl, ◌≢◌, some, [], ◌∷◌, arith, get_elem?}
use lamellar_runtime.Darc.RwLock.{
  new, Pc, idle, read_wait, reading, writing, panicked, Task, turn, System, run, ask_read,
  ask_write, Reach, start, later,
}
use lamellar_runtime.Darc.RwLock.Exclusion.{writing_excludes, no_panic, no_deadlock, GoesOn}

abbrev system : ℕ → ℕ → Pc → Pc → System
system readers writer a b = record {
  lock = record { readers = readers; writer = writer };
  tasks = record { pe = 0; pc = a } ∷ record { pe = 1; pc = b } ∷ [];
}

started : Reach 2 (system 0 2 idle idle)
unfolding new
started = start (record {
  fresh = refl;
  resting = ((refl, omega arith), ((refl, omega arith), tt));
  few = omega arith;
})

-- The second PE takes the write guard.
written : Reach 2 (system 0 1 idle writing)
unfolding turn
written = later (later (later started (ask_write 1 _ refl refl)) (run 1 _ refl)) (run 1 _ refl)

-- It gives the guard back.
written_back : Reach 2 (system 0 2 idle idle)
unfolding turn
written_back = later written (run 1 _ refl)

-- The first PE asks for a read guard while the second writes, and waits.
waiting : Reach 2 (system 0 1 read_wait writing)
unfolding turn
waiting = later (later written (ask_read 0 _ refl refl)) (run 0 _ refl)

writing_excludes_example : (read_wait ≢ reading) × (read_wait ≡ writing → ◌≡◌ {A = ℕ} 1 0)
writing_excludes_example =
    writing_excludes waiting 1 0 (record { pe = 1; pc = writing })
      (record { pe = 0; pc = read_wait }) refl refl refl

no_panic_example : writing ≢ panicked
no_panic_example = no_panic waiting 1 (record { pe = 1; pc = writing }) refl

no_deadlock_example :
    (j : ℕ) × (u : Task) × (get_elem? (system 0 1 read_wait writing).tasks j ≡ some u)
    × GoesOn 2 (system 0 1 read_wait writing) u
no_deadlock_example = no_deadlock waiting 0 (record { pe = 0; pc = read_wait }) refl (λ e. cc)
