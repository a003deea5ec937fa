-- ===== src/Darc/RwLock/Exclusion.antt =====
-- What the `DistRwLock` promises in every reachable state: exclusion, unlocks, the idle lock and progress.
use lamellar_runtime.Prelude.{
  ℕ, ◌≡◌, refl, ◌∙◌, ◌≢◌, inl, inr, some, arith, ℕ_discrete, get_elem?, All, All-imp, All-get_elem?,
  total, get_elem?-le-total, total-two, total-eq-zero, total-witness,
}
use lamellar_runtime.Darc.RwLock.{
  DistRwLock, new, Pc, idle, reading, writing, panicked, Task, turn, System, Reach,
}
use lamellar_runtime.Darc.RwLock.Turns.{Inv, Sound, counts, owns, reads, writes}
use lamellar_runtime.Darc.RwLock.Invariant.{Reach-Inv}

-- In every state that a new lock reaches with fewer than 2^64 tasks: while a task holds the write guard no
-- task holds a read guard, and no other the write guard.
pub writing_excludes :
    {num_pes : ℕ} {s : System}
    → Reach num_pes s
    → (i j : ℕ) (t u : Task) → get_elem? s.tasks i ≡ some t
    → get_elem? s.tasks j ≡ some u
    → t.pc ≡ writing
    → (u.pc ≢ reading) × (u.pc ≡ writing → i ≡ j)
writing_excludes {num_pes} {s} r i j t u at_i at_j writes_i = (
  λ reads_j. ground (
    arith,
    inv.exclusive,
    get_elem?-le-total writes s.tasks i t at_i,
    get_elem?-le-total reads s.tasks j u at_j,
  ),
  λ writes_j. elim (ℕ_discrete i j) [ yes e ↦ e | no n ↦ absurd (two n writes_j) ],
)
  where
    inv : Inv num_pes s
    inv = Reach-Inv r

    two : i ≢ j → u.pc ≡ writing → ⊥
    two n writes_j = ground (arith, inv.owned, total-two owns s.tasks i j t u n at_i at_j)

-- In every state that a new lock reaches no task has panicked: who unlocks for writing finds its own PE in `writer`.
pub no_panic :
    {num_pes : ℕ} {s : System}
    → Reach num_pes s
    → (i : ℕ) (t : Task) → get_elem? s.tasks i ≡ some t
    → t.pc ≢ panicked
no_panic {num_pes} {s} r i t at_i =
    (All-get_elem? (Sound num_pes s.lock) s.tasks i t (Reach-Inv r).sound at_i).1

-- In every reachable state where all tasks are idle the lock is as `new` made it.
pub idle-new :
    {num_pes : ℕ} {s : System}
    → Reach num_pes s
    → All (λ t. t.pc ≡ idle) s.tasks
    → s.lock ≡ new num_pes
unfolding new
idle-new {num_pes} {s} r rest = ground (
  arith,
  inv.counted,
  inv.owned,
  none counts (λ t e. ground arith),
  none owns (λ t e. ground arith),
)
  where
    inv : Inv num_pes s
    inv = Reach-Inv r

    none : (w : Task → ℕ) → ((t : Task) → t.pc ≡ idle → w t ≡ 0) → total w s.tasks ≡ 0
    none w h = total-eq-zero w s.tasks (All-imp h s.tasks rest)

-- The turn of task `t` takes it on to another place.
abbrev pub GoesOn : ℕ → System → Task → Type 0
GoesOn num_pes s t = (turn num_pes t.pe s.lock t.pc).1 ≢ t.pc

free_turn :
    (num_pes pe : ℕ) (l : DistRwLock) (pc : Pc)
    → l.writer ≡ num_pes
    → pc ≢ idle
    → pc ≢ panicked
    → owns (record { pe = pe; pc = pc }) ≡ 0
    → (turn num_pes pe l pc).1 ≢ pc
unfolding turn
free_turn num_pes pe l idle free busy calm other = absurd (busy refl)
free_turn num_pes pe l pc free busy calm other = λ e. ground arith

counted_turn :
    (num_pes pe : ℕ) (l : DistRwLock) (pc : Pc)
    → counts (record { pe = pe; pc = pc }) ≢ 0
    → (turn num_pes pe l pc).1 ≢ pc
unfolding turn
counted_turn num_pes pe l idle h = absurd (h refl)
counted_turn num_pes pe l pc h = λ e. ground arith

owner_turn :
    (num_pes pe : ℕ) (l : DistRwLock) (pc : Pc)
    → l.readers ≡ 0
    → owns (record { pe = pe; pc = pc }) ≢ 0
    → (turn num_pes pe l pc).1 ≢ pc
unfolding turn
owner_turn num_pes pe l idle drained h = absurd (h refl)
owner_turn num_pes pe l pc drained h = λ e. ground arith

-- There is no deadlock: in every reachable state where some task is not idle, some task's turn takes it
-- on.
pub no_deadlock :
    {num_pes : ℕ} {s : System}
    → Reach num_pes s
    → (i : ℕ) (t : Task) → get_elem? s.tasks i ≡ some t
    → t.pc ≢ idle
    → (j : ℕ) × (u : Task) × (get_elem? s.tasks j ≡ some u) × GoesOn num_pes s u
no_deadlock {num_pes} {s} r i t at_i busy = elim inv.owned [
  | inl free ↦ (
    i,
    t,
    at_i,
    free_turn num_pes t.pe s.lock t.pc free.0 busy (no_panic r i t at_i)
        (omega (arith, free.1, get_elem?-le-total owns s.tasks i t at_i)),
  )
  | inr held ↦ (elim (ℕ_discrete s.lock.readers 0) [
    | yes drained ↦
        let (j, u, at_j, own) = total-witness owns s.tasks (λ z. omega (arith, held.1, z)) in
        (j, u, at_j, owner_turn num_pes u.pe s.lock u.pc drained own)
    | no some_readers ↦
        let (j, u, at_j, count) =
          total-witness counts s.tasks (λ z. some_readers (inv.counted ∙ z)) in
        (j, u, at_j, counted_turn num_pes u.pe s.lock u.pc count)
  ])
]
  where
    inv : Inv num_pes s
    inv = Reach-Inv r
