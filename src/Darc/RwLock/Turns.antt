-- ===== src/Darc/RwLock/Turns.antt =====
-- What holds of a `DistRwLock` and its tasks, and what each kind of turn does to it.
use lamellar_runtime.Prelude.{
  ℕ, ◌+◌, ◌^◌, ◌≤◌, ◌<◌, ◌≡◌, refl, sym, ◌∙◌, ◌≢◌, ◌⊎◌, inl, inr, some, List, [], ◌∷◌, set, arith,
  length, get_elem?, All, length-set, All-get_elem?, All-set, total, total-set, total-le-length,
  total_mono,
}
use lamellar_runtime.Darc.RwLock.{
  DistRwLock, Pc, idle, read_check, read_undo, reading, write_try, write_drain, writing, panicked,
  Task, System, move,
}

-- 1 for a task that `readers` counts.
abbrev pub counts : Task → ℕ
counts t = elim t.pc [ read_check ↦ 1 | read_undo ↦ 1 | reading ↦ 1 | _ ↦ 0 ]

-- 1 for a task that has set `writer`.
abbrev pub owns : Task → ℕ
owns t = elim t.pc [ write_drain ↦ 1 | writing ↦ 1 | _ ↦ 0 ]

abbrev pub reads : Task → ℕ
reads t = elim t.pc [ reading ↦ 1 | _ ↦ 0 ]

abbrev pub writes : Task → ℕ
writes t = elim t.pc [ writing ↦ 1 | _ ↦ 0 ]

-- A task is of the team, has not panicked, and has its PE in `writer` where it has set it.
abbrev pub Sound : ℕ → DistRwLock → Task → Type 0
Sound num_pes l t = (t.pe < num_pes) × (t.pc ≢ panicked) × (owns t ≡ 1 → l.writer ≡ t.pe)

pub record Inv (num_pes : ℕ) (s : System) : Type 0 where
  pub few : length s.tasks < 2 ^ 64
  pub counted : s.lock.readers ≡ total counts s.tasks
  pub owned :
      ((s.lock.writer ≡ num_pes) × (total owns s.tasks ≡ 0))
      ⊎ ((s.lock.writer < num_pes) × (total owns s.tasks ≡ 1))
  pub sound : All (Sound num_pes s.lock) s.tasks
  pub exclusive : (total writes s.tasks ≡ 0) ⊎ (total reads s.tasks ≡ 0)

-- While no task has set `writer`, its value says nothing of them.
Sound-any :
    (num_pes : ℕ) (l l' : DistRwLock) (ts : List Task)
    → total owns ts ≡ 0
    → All (Sound num_pes l) ts
    → All (Sound num_pes l') ts
Sound-any num_pes l l' [] z a = tt
Sound-any num_pes l l' (t ∷ ts) z a =
    ((a.0.0, a.0.1, λ e. absurd (omega arith)), Sound-any num_pes l l' ts (omega arith) a.1)

module _ (num_pes : ℕ) (s : System) (inv : Inv num_pes s) (i pe : ℕ) (pc : Pc)
    (here : get_elem? s.tasks i ≡ some (record { pe = pe; pc = pc })) where
  abbrev before : Task
  before = record { pe = pe; pc = pc }

  abbrev after : Pc → Task
  after pc' = record { pe = pe; pc = pc' }

  pub at_i : Sound num_pes s.lock before
  at_i = All-get_elem? (Sound num_pes s.lock) s.tasks i before inv.sound here

  few_after : (pc' : Pc) → length (set s.tasks i (after pc')) < 2 ^ 64
  few_after pc' = omega (arith, inv.few, length-set s.tasks i (after pc'))

  pub reads-counts : total reads s.tasks ≤ total counts s.tasks
  reads-counts = total_mono reads counts (λ t. ground arith) s.tasks

  pub writes-owns : total writes s.tasks ≤ total owns s.tasks
  writes-owns = total_mono writes owns (λ t. ground arith) s.tasks

  pub counts_few : total counts s.tasks < 2 ^ 64
  counts_few = omega (arith, inv.few, total-le-length counts (λ t. ground arith) s.tasks)

  -- A move that leaves `writer` alone, and keeps the two guards apart.
  pub keeps_writer :
      (pc' : Pc) (readers : ℕ)
      → owns (after pc') ≡ owns before
      → pc' ≢ panicked
      → readers + counts before ≡ s.lock.readers + counts (after pc')
      → ((total writes s.tasks ≡ 0) × (writes (after pc') ≡ 0))
        ⊎ ((total reads s.tasks ≡ 0) × (reads (after pc') ≡ 0))
        ⊎ ((writes (after pc') ≤ writes before) × (reads (after pc') ≤ reads before))
      → Inv num_pes (move s i before (record s.lock { readers = readers }) pc')
  keeps_writer pc' readers same calm count apart = record {
    few = few_after pc';
    counted = omega (arith, inv.counted, total-set counts s.tasks i before (after pc') here);
    owned = elim inv.owned [
      | inl f ↦ inl (f.0, omega (arith, f.1, own))
      | inr f ↦ inr (f.0, omega (arith, f.1, own))
    ];
    sound =
        All-set (Sound num_pes s.lock) s.tasks i (after pc') inv.sound
          (at_i.0, calm, λ e. at_i.2 (sym same ∙ e));
    exclusive = elim apart [
      | inl f ↦ inl (omega (arith, wr, f.0))
      | inr o ↦ (elim o [
        | inl f ↦ inr (omega (arith, rd, f.0))
        | inr f ↦ (elim inv.exclusive [
          | inl z ↦ inl (omega (arith, wr, z))
          | inr z ↦ inr (omega (arith, rd, z))
        ])
      ])
    ];
  }
    where
      own :
          total owns (set s.tasks i (after pc')) + owns before
          ≡ total owns s.tasks + owns (after pc')
      own = total-set owns s.tasks i before (after pc') here

      wr :
          total writes (set s.tasks i (after pc')) + writes before
          ≡ total writes s.tasks + writes (after pc')
      wr = total-set writes s.tasks i before (after pc') here

      rd :
          total reads (set s.tasks i (after pc')) + reads before
          ≡ total reads s.tasks + reads (after pc')
      rd = total-set reads s.tasks i before (after pc') here

-- The compare-exchange of a writer that finds the lock free.
pub takes_writer :
    (num_pes : ℕ) (s : System) (i pe : ℕ)
    → Inv num_pes s
    → get_elem? s.tasks i ≡ some (record { pe = pe; pc = write_try })
    → s.lock.writer ≡ num_pes
    → Inv num_pes
        (move s i (record { pe = pe; pc = write_try }) (record s.lock { writer = pe }) write_drain)
takes_writer num_pes s i pe inv here free = record {
  few = few_after num_pes s inv i pe write_try here write_drain;
  counted = omega (arith, inv.counted, total-set counts s.tasks i old new_task here);
  owned = inr (mine.0, omega (arith, none_own, total-set owns s.tasks i old new_task here));
  sound =
      All-set (Sound num_pes (record s.lock { writer = pe })) s.tasks i new_task
        (Sound-any num_pes s.lock (record s.lock { writer = pe }) s.tasks none_own inv.sound)
        (mine.0, λ e. cc, λ e. refl);
  exclusive = inl (
      omega (
        arith,
        none_own,
        writes-owns num_pes s inv i pe write_try here,
        total-set writes s.tasks i old new_task here,
      ));
}
  where
    old : Task
    old = record { pe = pe; pc = write_try }

    new_task : Task
    new_task = record { pe = pe; pc = write_drain }

    mine : Sound num_pes s.lock old
    mine = at_i num_pes s inv i pe write_try here

    none_own : total owns s.tasks ≡ 0
    none_own = ground (arith, inv.owned)

-- The compare-exchange of `writer_unlock`.
pub releases_writer :
    (num_pes : ℕ) (s : System) (i pe : ℕ)
    → Inv num_pes s
    → get_elem? s.tasks i ≡ some (record { pe = pe; pc = writing })
    → Inv num_pes
        (move s i (record { pe = pe; pc = writing }) (record s.lock { writer = num_pes }) idle)
releases_writer num_pes s i pe inv here = record {
  few = few_after num_pes s inv i pe writing here idle;
  counted = omega (arith, inv.counted, total-set counts s.tasks i old new_task here);
  owned = inl (refl, none_left);
  sound =
      Sound-any num_pes s.lock (record s.lock { writer = num_pes }) (set s.tasks i new_task)
        none_left
        (All-set (Sound num_pes s.lock) s.tasks i new_task inv.sound
          (mine.0, λ e. cc, λ e. absurd (omega arith)));
  exclusive = inl (omega (arith, writes_left, none_left));
}
  where
    old : Task
    old = record { pe = pe; pc = writing }

    new_task : Task
    new_task = record { pe = pe; pc = idle }

    mine : Sound num_pes s.lock old
    mine = at_i num_pes s inv i pe writing here

    none_left : total owns (set s.tasks i new_task) ≡ 0
    none_left = ground (arith, inv.owned, total-set owns s.tasks i old new_task here)

    writes_left : total writes (set s.tasks i new_task) ≤ total owns (set s.tasks i new_task)
    writes_left = total_mono writes owns (λ t. ground arith) (set s.tasks i new_task)
