-- ===== src/Darc/RwLock/Invariant.antt =====
-- What holds of a `DistRwLock` and its tasks in every reachable state.
use lamellar_runtime.Prelude.{
  ℕ, ◌<◌, ◌≡◌, refl, sym, ap, ◌∙◌, ◌⊎◌, inl, inr, some, set, arith, ◌==◌, eq→==, ==→eq, Bool-cases,
  get_elem?, All-imp, length-set, total, total-set, get_elem?-le-total, total-le-length,
  total-eq-zero, add_usize, sub_usize,
}
use lamellar_runtime.Darc.RwLock.{
  DistRwLock, new, Pc, idle, read_wait, read_add, read_check, read_undo, reading, write_try,
  write_drain, writing, panicked, Task, turn, writer_unlock, writer_turn, System, move, Step, run,
  ask_read, ask_write, IsStart, Reach, start, later,
}
use lamellar_runtime.Darc.RwLock.Turns.{
  counts, owns, writes, Inv, at_i, reads-counts, writes-owns, counts_few, keeps_writer,
  takes_writer, releases_writer,
}

-- One atomic access of one task keeps the invariant.
turn-Inv :
    (num_pes : ℕ) (s : System) (i pe : ℕ) (pc : Pc)
    → Inv num_pes s
    → get_elem? s.tasks i ≡ some (record { pe = pe; pc = pc })
    → let (l, pc') = turn num_pes pe s.lock pc in
      Inv num_pes (move s i (record { pe = pe; pc = pc }) l pc')
unfolding turn
turn-Inv num_pes s i pe idle inv here =
    keeps_writer num_pes s inv i pe idle here idle s.lock.readers refl (λ e. cc) refl
      (inr (inr (omega arith)))
turn-Inv num_pes s i pe read_wait inv here = elim (Bool-cases (s.lock.writer == num_pes)) [
  | inl t ↦ rw t (
      keeps_writer num_pes s inv i pe read_wait here read_add s.lock.readers refl (λ e. cc) refl
        (inr (inr (omega arith))))
  | inr t ↦ rw t (
      keeps_writer num_pes s inv i pe read_wait here read_wait s.lock.readers refl (λ e. cc) refl
        (inr (inr (omega arith))))
]
turn-Inv num_pes s i pe read_add inv here =
    keeps_writer num_pes s inv i pe read_add here read_check (add_usize s.lock.readers 1) refl
      (λ e. cc)
      (omega (
        arith,
        inv.counted,
        inv.few,
        length-set s.tasks i (record { pe = pe; pc = read_check }),
        total-set counts s.tasks i (record { pe = pe; pc = read_add })
            (record { pe = pe; pc = read_check }) here,
        total-le-length counts (λ t. ground arith)
            (set s.tasks i (record { pe = pe; pc = read_check })),
      ))
      (inr (inr (omega arith)))
turn-Inv num_pes s i pe read_check inv here = elim (Bool-cases (s.lock.writer == num_pes)) [
  | inl t ↦ rw t (
      keeps_writer num_pes s inv i pe read_check here reading s.lock.readers refl (λ e. cc) refl
        (inl (
          ground (
            arith,
            inv.owned,
            ==→eq s.lock.writer num_pes t,
            writes-owns num_pes s inv i pe read_check here,
          ),
          refl,
        )))
  | inr t ↦ rw t (
      keeps_writer num_pes s inv i pe read_check here read_undo s.lock.readers refl (λ e. cc) refl
        (inr (inr (omega arith))))
]
turn-Inv num_pes s i pe read_undo inv here =
    keeps_writer num_pes s inv i pe read_undo here read_wait (sub_usize s.lock.readers 1) refl
      (λ e. cc)
      (omega (
        arith,
        inv.counted,
        get_elem?-le-total counts s.tasks i (record { pe = pe; pc = read_undo }) here,
        counts_few num_pes s inv i pe read_undo here,
      ))
      (inr (inr (omega arith)))
turn-Inv num_pes s i pe reading inv here =
    keeps_writer num_pes s inv i pe reading here idle (sub_usize s.lock.readers 1) refl (λ e. cc)
      (omega (
        arith,
        inv.counted,
        get_elem?-le-total counts s.tasks i (record { pe = pe; pc = reading }) here,
        counts_few num_pes s inv i pe reading here,
      ))
      (inr (inr (omega arith)))
turn-Inv num_pes s i pe write_try inv here = elim (Bool-cases (s.lock.writer == num_pes)) [
  | inl t ↦ rw (t, writer_turn) (takes_writer num_pes s i pe inv here (==→eq _ _ t))
  | inr t ↦
      rw (t, writer_turn)
        (keeps_writer num_pes s inv i pe write_try here write_try s.lock.readers refl (λ e. cc) refl
          (inr (inr (omega arith))))
]
turn-Inv num_pes s i pe write_drain inv here = elim (Bool-cases (s.lock.readers == 0)) [
  | inl t ↦ rw t (
      keeps_writer num_pes s inv i pe write_drain here writing s.lock.readers refl (λ e. cc) refl
        (inr (
          inl (
            omega (
              arith,
              ==→eq s.lock.readers 0 t,
              inv.counted,
              reads-counts num_pes s inv i pe write_drain here,
            ),
            refl,
          ))))
  | inr t ↦ rw t (
      keeps_writer num_pes s inv i pe write_drain here write_drain s.lock.readers refl (λ e. cc)
        refl (inr (inr (omega arith))))
]
turn-Inv num_pes s i pe writing inv here =
    let mine : s.lock.writer ≡ pe = (at_i num_pes s inv i pe writing here).2 refl in
    rw (eq→== s.lock.writer pe mine, turn, writer_unlock) (releases_writer num_pes s i pe inv here)
turn-Inv num_pes s i pe panicked inv here = absurd ((at_i num_pes s inv i pe panicked here).1 refl)

asks :
    (num_pes : ℕ) (s : System) (i : ℕ) (t : Task) (pc : Pc)
    → Inv num_pes s
    → get_elem? s.tasks i ≡ some t
    → t.pc ≡ idle
    → (pc ≡ read_wait) ⊎ (pc ≡ write_try)
    → Inv num_pes (move s i t s.lock pc)
asks num_pes s i t pc inv here rest which =
    keeps_writer num_pes s inv i t.pe t.pc here pc s.lock.readers (ground arith) (λ e. ground arith)
      (ground arith) (inr (inr (ground arith)))

-- Every step keeps the invariant.
pub Step-Inv : {num_pes : ℕ} {s t : System} → Step num_pes s t → Inv num_pes s → Inv num_pes t
Step-Inv {num_pes} {s} (run i t here) inv = turn-Inv num_pes s i t.pe t.pc inv here
Step-Inv {num_pes} {s} (ask_read i t here rest) inv =
    asks num_pes s i t read_wait inv here rest (inl refl)
Step-Inv {num_pes} {s} (ask_write i t here rest) inv =
    asks num_pes s i t write_try inv here rest (inr refl)

IsStart-Inv : (num_pes : ℕ) (s : System) → IsStart num_pes s → Inv num_pes s
unfolding new
IsStart-Inv num_pes s st = record {
  few = st.few;
  counted =
      ap (λ (l : DistRwLock). l.readers) st.fresh ∙ sym (zero_total counts (λ t r. ground arith));
  owned = inl (ap (λ (l : DistRwLock). l.writer) st.fresh, zero_total owns (λ t r. ground arith));
  sound = All-imp (λ t r. (r.1, (λ e. ground arith), (λ e. ground arith))) s.tasks st.resting;
  exclusive = inl (zero_total writes (λ t r. ground arith));
}
  where
    zero_total :
        (w : Task → ℕ)
        → ((t : Task) → (t.pc ≡ idle) × (t.pe < num_pes) → w t ≡ 0)
        → total w s.tasks ≡ 0
    zero_total w h = total-eq-zero w s.tasks (All-imp h s.tasks st.resting)

-- Every reachable state keeps the invariant.
pub Reach-Inv : {num_pes : ℕ} {s : System} → Reach num_pes s → Inv num_pes s
Reach-Inv {num_pes} {s} (start st) = IsStart-Inv num_pes s st
Reach-Inv (later r step) = Step-Inv step (Reach-Inv r)
