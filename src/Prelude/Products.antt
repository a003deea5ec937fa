-- ===== src/Prelude/Products.antt =====
-- Order facts on products and remainders that linear arithmetic does not find by itself.
use Prim.Native.Nat.{ℕ, suc, ◌+◌, ◌*◌, ◌≤◌, ◌<◌}
use native.Mathlib.Omega.{arith}

pub mul_le : (a b c : ℕ) → a ≤ b → a * c ≤ b * c
mul_le a b c h = grind arith

pub mul_lt : (a b c : ℕ) → a < b → a * c + c ≤ b * c
mul_lt a b c h = omega (arith, mul_le (suc a) b c h)
