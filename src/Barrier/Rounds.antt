-- ===== src/Barrier/Rounds.antt =====
-- How many rounds `new` gives the dissemination barrier.
use lamellar_runtime.Prelude.{ℕ, ◌+◌, ◌*◌, ◌^◌, ◌≤◌, ◌<◌, ◌≡◌, arith, ℕ_discrete, lt→ltb}
use lamellar_runtime.Barrier.{Logs, new}
use lamellar_runtime.Barrier.Peers.{IsValid}
use native.Mathlib.Nat.{pow-le-pow_left}

-- `x.log2() / y.log2()` rounded up is an exponent of `y` that is large enough, for numbers of 32 bits, which
-- 53 bits of precision keep apart; and the
-- logarithm of 2 is 1.
pub record IsLogs (f : Logs) : Type 1 where
  pub ceil-log :
      (x y : ℕ)
      → 1 < y
      → 2 < x
      → x < 2 ^ 32
      → x ≤ y ^ f.ceil (f.div (f.log2 (f.from_usize x)) (f.log2 (f.from_usize y)))
  pub truncate-log : f.truncate (f.log2 (f.from_usize 2)) ≡ 1

-- With a factor above 1, as the default is, `new` gives the barrier of 2 to 2^32 - 1 PEs the rounds that it
-- needs, where the logarithms are as `IsLogs` asks and a PE's furthest peer is an `isize` away.
pub new-IsValid :
    (f : Logs)
    → IsLogs f
    → (factor num_pes : ℕ) → 1 < factor
    → 1 < num_pes
    → num_pes < 2 ^ 32
    → (new f factor num_pes).n * ((new f factor num_pes).n + 1) ^ (new f factor num_pes).num_rounds
        + num_pes
      < 2 ^ 63
    → IsValid (new f factor num_pes)
unfolding new
new-IsValid f logs factor num_pes some_factor some_pes few small = elim (ℕ_discrete num_pes 2) [
  | yes two ↦
      rw (two, lt→ltb 1 factor some_factor)
        (record {
          some_pes = omega arith;
          some_peers = omega arith;
          covers = rw (logs.truncate-log) (omega arith);
          small = rw (logs.truncate-log) (omega arith);
        })
  | no n ↦
      rw (lt→ltb 1 factor some_factor, lt→ltb 2 num_pes (omega arith))
        (record {
          some_pes = omega arith;
          some_peers = omega arith;
          covers = omega (
            arith,
            logs.ceil-log num_pes factor some_factor (omega arith) few,
            pow-le-pow_left {n = factor} {m = factor + 1} (omega arith)
                (f.ceil (f.div (f.log2 (f.from_usize num_pes)) (f.log2 (f.from_usize factor)))),
          );
          small = rw (lt→ltb 1 factor some_factor, lt→ltb 2 num_pes (omega arith)) at small;
        })
]
