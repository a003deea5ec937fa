-- ===== src/CommandQueues/Hash.antt =====
-- `calc_hash` of src/lamellae/command_queues.rs: the sum of a region's words and of the bytes behind them.
use lamellar_runtime.Prelude.{ℕ, zero, suc, ◌+◌, ◌*◌, ◌/◌, ◌%◌, add_usize}

-- What a read through a pointer finds at an address.
pub record Memory : Type 0 where
  pub read_u64 : ℕ → ℕ
  pub read_u8 : ℕ → ℕ

-- The `Wrapping` sum of `n` entries that lie `width` apart.
abbrev pub sum_slice : (ℕ → ℕ) → ℕ → ℕ → ℕ → ℕ
sum_slice read addr width zero = 0
sum_slice read addr width (suc n) = add_usize (read addr) (sum_slice read (addr + width) width n)

unfoldable pub calc_hash : Memory → ℕ → ℕ → ℕ
calc_hash m addr len =
    add_usize (sum_slice m.read_u64 addr 8 (len / 8))
      (sum_slice m.read_u8 (addr + len / 8 * 8) 1 (len % 8))
