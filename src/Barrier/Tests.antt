-- ===== src/Barrier/Tests.antt =====
-- A barrier of three PEs with the default factor, and one with factor 1.
use lamellar_runtime.Prelude.{
  ℕ, zero, suc, ◌+◌, ◌/◌, ◌^◌, ◌≤◌, ◌<◌, ◌≡◌, refl, subst, false, remove_at, arith, dec_le, leb,
  if◌then◌else◌, le→leb, mul_le,
}
use lamellar_runtime.Barrier.{
  Logs, Barrier, distance, team_send_pe, team_recv_pe, sub_rem_euclid, outside, Put, Team, start,
  enter, turn, run_pe, set_pe, store, enters, runs, arrives, Reach, begin, later,
}
use native.Mathlib.Nat.{pow-succ', one-le-pow}
use lamellar_runtime.Barrier.Peers.{IsValid}
use lamellar_runtime.Barrier.Separation.{barrier_separates}
use lamellar_runtime.Barrier.Rounds.{IsLogs}

abbrev three : Barrier
three = record { num_pes = 3; n = 2; num_rounds = 2 }

three-IsValid : IsValid three
three-IsValid = record {
  some_pes = omega arith;
  some_peers = omega arith;
  covers = omega arith;
  small = omega arith;
}

abbrev two : Barrier
two = record { num_pes = 2; n = 1; num_rounds = 1 }

two-IsValid : IsValid two
two-IsValid = record {
  some_pes = omega arith;
  some_peers = omega arith;
  covers = omega arith;
  small = omega arith;
}

abbrev let_in : Team → ℕ → Team
let_in t p = record t { pes = set_pe t.pes p (enter (t.pes p)) }

abbrev land : Team → Put → Team
land t put = record t { buf = store t.buf put; puts = remove_at t.puts 0 }

-- A PE's four turns once the message that it waits for is there.
abbrev finish : Barrier → Team → ℕ → Team
finish b t p = run_pe b (run_pe b (run_pe b (run_pe b t p) p) p) p

-- Both PEs of `two` enter, PE 1 sends, the message arrives, and PE 0 goes through.
abbrev both_in : Team
both_in = run_pe two (let_in (let_in start 0) 1) 1

abbrev arrived : Team
arrived = land both_in (record { target = 0; i = 1; round = 0; value = 1 })

abbrev through : Team
through = finish two (run_pe two arrived 0) 0

finish-Reach : (b : Barrier) (t : Team) (p : ℕ) → p < b.num_pes → Reach b t → Reach b (finish b t p)
finish-Reach b t p h r = later (later (later (later r (runs p h)) (runs p h)) (runs p h)) (runs p h)

through-Reach : Reach two through
unfolding run_pe start enter turn team_send_pe team_recv_pe distance sub_rem_euclid
through-Reach = finish-Reach two (run_pe two arrived 0) 0 (omega arith) (
    later
      (later
        (later
          (later (later begin (enters 0 (omega arith) refl (omega arith)))
            (enters 1 (omega arith) refl (omega arith)))
          (runs 1 (omega arith)))
        (arrives 0 (record { target = 0; i = 1; round = 0; value = 1 }) refl))
      (runs 0 (omega arith)))

through_once : ((through.pes 0).pos ≡ outside) × ((through.pes 0).barrier_id ≡ 1)
unfolding run_pe start enter turn team_send_pe team_recv_pe distance sub_rem_euclid
through_once = (refl, refl)

barrier_separates_example : (through.pes 0).barrier_id ≤ (through.pes 1).barrier_id
unfolding run_pe start enter turn team_send_pe team_recv_pe distance sub_rem_euclid
barrier_separates_example =
    barrier_separates two two-IsValid through-Reach 0 1 (omega arith) (omega arith) refl

-- Three PEs with factor 1 get one round, for the logarithm of 3 is truncated: PE 0 leaves its first barrier
-- once PE 2 has entered, and PE 1 need not have.
abbrev one_round : Barrier
one_round = record { num_pes = 3; n = 1; num_rounds = 1 }

abbrev sent : Team
sent = run_pe one_round (let_in (let_in start 0) 2) 2

abbrev early : Team
early =
    finish one_round
      (run_pe one_round (land sent (record { target = 0; i = 1; round = 0; value = 1 })) 0) 0

early-Reach : Reach one_round early
unfolding run_pe start enter turn team_send_pe team_recv_pe distance sub_rem_euclid
early-Reach =
    finish-Reach one_round
      (run_pe one_round (land sent (record { target = 0; i = 1; round = 0; value = 1 })) 0) 0
      (omega arith)
      (later
        (later
          (later
            (later (later begin (enters 0 (omega arith) refl (omega arith)))
              (enters 2 (omega arith) refl (omega arith)))
            (runs 2 (omega arith)))
          (arrives 0 (record { target = 0; i = 1; round = 0; value = 1 }) refl))
        (runs 0 (omega arith)))

early_leaves :
    ((early.pes 0).pos ≡ outside) × ((early.pes 0).barrier_id ≡ 1) × ((early.pes 1).barrier_id ≡ 0)
unfolding run_pe start enter turn team_send_pe team_recv_pe distance sub_rem_euclid
early_leaves = (refl, refl, refl)

-- The least `k` from `k` on with `x ≤ y ^ k`.
unfoldable least : ℕ → ℕ → ℕ → ℕ → ℕ
least zero x y k = k
least (suc tries) x y k = let rest = least tries x y (suc k) in if leb x (y ^ k) then k else rest

least-covers : (tries x y k : ℕ) → x ≤ y ^ (k + tries) → x ≤ y ^ least tries x y k
unfolding least
least-covers zero x y k h = subst (λ z. x ≤ y ^ z) (omega arith) h
least-covers (suc tries) x y k h = elim (dec_le x (y ^ k)) [
  | yes enough ↦ rw (le→leb x (y ^ k) enough) enough
  | no more ↦
      let e : leb x (y ^ k) ≡ false = ground arith in
      rw e (least-covers tries x y (suc k) (subst (λ z. x ≤ y ^ z) (omega arith) h))
]

-- A pair stands for the quotient of its numbers' logarithms.
abbrev logs : Logs
logs = record {
  F = ℕ × ℕ;
  from_usize = λ n. (n, n);
  log2 = λ x. (x.0, 2);
  div = λ x y. (x.0, y.0);
  ceil = λ x. least x.0 x.0 x.1 0;
  truncate = λ x. least x.0 (x.0 / 2 + 1) x.1 0;
}

self_pow : (x y : ℕ) → 1 < y → x ≤ y ^ x
self_pow zero y h = omega arith
self_pow (suc x) y h =
    omega (arith, self_pow x y h, pow-succ' y x, mul_le 2 y (y ^ x) h, one-le-pow x y (omega arith))

logs-IsLogs : IsLogs logs
unfolding least
logs-IsLogs = record {
  ceil-log = λ x y hy hx few.
      least-covers x x y 0 (subst (λ z. x ≤ y ^ z) (omega arith) (self_pow x y hy));
  truncate-log = refl;
}
