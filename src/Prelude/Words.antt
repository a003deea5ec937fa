-- ===== src/Prelude/Words.antt =====
-- `usize` on a 64-bit target, with the wrap-around of a release build written out. `-` on ℕ stops at
-- zero, so `sub_usize` adds the modulus first.
use Prim.Native.Nat.{ℕ, ◌+◌, ◌-◌, ◌*◌, ◌%◌, ◌^◌}

abbrev pub usize_mod : ℕ
usize_mod = 2 ^ 64

abbrev pub add_usize : ℕ → ℕ → ℕ
add_usize a b = (a + b) % usize_mod

abbrev pub sub_usize : ℕ → ℕ → ℕ
sub_usize a b = (a + usize_mod - b) % usize_mod

abbrev pub mul_usize : ℕ → ℕ → ℕ
mul_usize a b = a * b % usize_mod
