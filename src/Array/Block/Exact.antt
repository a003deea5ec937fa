-- ===== src/Array/Block/Exact.antt =====
-- Exact fractions for `f64`, and how the block arm splits an array with them.
use lamellar_runtime.Prelude.{ℕ, suc, ◌+◌, ◌-◌, ◌*◌, ◌/◌, ◌≤◌, ◌<◌, ◌≡◌, arith, dec_lt}
use lamellar_runtime.Array.Inner.{Float, Distribution, UnsafeArrayInner}
use lamellar_runtime.Array.Block.{global_start, guess}
use lamellar_runtime.Array.Block.Split.{Splits}
use native.Mathlib.Nat.{mul-one, one-mul, div-add-mod, mod-lt, mul-le-mul_left}

-- A fraction by its numerator and denominator; halves are rounded away from zero.
abbrev pub exact : Float
exact = record {
  F = ℕ × ℕ;
  from_usize = λ n. (n, 1);
  mul = λ x y. (x.0 * y.0, x.1 * y.1);
  div = λ x y. (x.0 * y.1, x.1 * y.0);
  round = λ x. (2 * x.0 + x.1) / (2 * x.1);
  floor = λ x. x.0 / x.1;
  ceil = λ x. (x.0 + x.1 - 1) / x.1;
}

-- A whole array of `len` elements on `n` PEs, seen from PE `pe`.
abbrev pub whole : ℕ → ℕ → ℕ → UnsafeArrayInner (ℕ × ℕ)
whole len n pe = record {
  my_pe = pe;
  num_pes = n;
  distribution = Distribution.block;
  orig_elem_per_pe = exact.div (exact.from_usize len) (exact.from_usize n);
  elem_size = 1;
  offset = 0;
  size = len;
}

global_start-exact :
    (len n pe p : ℕ) → global_start exact (whole len n pe) p ≡ (2 * (len * p) + n) / (2 * n)
unfolding global_start
global_start-exact len n pe p = simp (mul-one, one-mul)

guess-exact : (len n pe i : ℕ) → guess exact (whole len n pe) i ≡ i * n / len
unfolding guess
guess-exact len n pe i = simp (mul-one, one-mul)

pub cancel_lt : (d x y : ℕ) → d * x < d * y → x < y
cancel_lt d x y h = elim (dec_lt x y) [
  | yes below ↦ below
  | no above ↦
      let back : d * y ≤ d * x = mul-le-mul_left d (omega arith) in absurd (omega (arith, back))
]

module _ (len n pe : ℕ) (pos : 0 < n) where
  abbrev s : ℕ → ℕ
  s p = global_start exact (whole len n pe) p

  -- The start of a stretch lies within a half of the exact product.
  pub start_bounds :
      (p : ℕ) → (2 * n * s p ≤ 2 * (len * p) + n) × (2 * (len * p) + n < 2 * n * s p + 2 * n)
  start_bounds p = rw (global_start-exact len n pe p) (
      omega (
        arith,
        div-add-mod (2 * (len * p) + n) (2 * n),
        mod-lt (2 * (len * p) + n) {m = 2 * n} (omega arith),
      ))

  start_mono : (p : ℕ) → s p ≤ s (suc p)
  start_mono p =
      let less : 2 * n * s p < 2 * n * (s (suc p) + 1) =
        omega (arith, start_bounds p, start_bounds (suc p)) in
      omega (arith, cancel_lt (2 * n) (s p) (s (suc p) + 1) less)

  start_first : s 0 ≡ 0
  start_first =
      let less : 2 * n * s 0 < 2 * n * 1 = omega (arith, start_bounds 0) in
      omega (arith, cancel_lt (2 * n) (s 0) 1 less)

  start_last : s n ≡ len
  start_last =
      let up : 2 * n * s n < 2 * n * (len + 1) = omega (arith, start_bounds n) in
      let down : 2 * n * len < 2 * n * (s n + 1) = omega (arith, start_bounds n) in
      omega (arith, cancel_lt (2 * n) (s n) (len + 1) up, cancel_lt (2 * n) len (s n + 1) down)

  module _ (enough : n ≤ len) where
    guess_bounds :
        (i : ℕ)
        → let g = guess exact (whole len n pe) i in (len * g ≤ i * n) × (i * n < len * g + len)
    guess_bounds i =
        rw (guess-exact len n pe i)
          (omega (arith, div-add-mod (i * n) len, mod-lt (i * n) {m = len} (omega arith)))

    start_low : (i : ℕ) → s (guess exact (whole len n pe) i) ≤ i
    start_low i =
        let g = guess exact (whole len n pe) i in
        let less : 2 * n * s g < 2 * n * (i + 1) = omega (arith, start_bounds g, guess_bounds i) in
        omega (arith, cancel_lt (2 * n) (s g) (i + 1) less)

    start_high : (i : ℕ) → i < s (suc (suc (guess exact (whole len n pe) i)))
    start_high i =
        let g = guess exact (whole len n pe) i in
        let less : 2 * n * i < 2 * n * s (suc (suc g)) =
          omega (arith, start_bounds (suc (suc g)), guess_bounds i) in
        cancel_lt (2 * n) i (s (suc (suc g))) less

-- With exact fractions a whole array splits over a team that has a PE and no more PEs than the array has
-- elements.
pub exact-Splits : (len n pe : ℕ) → 0 < n → n ≤ len → Splits exact (whole len n pe) len
exact-Splits len n pe pos enough = record {
  first = start_first len n pe pos;
  last = start_last len n pe pos;
  mono = start_mono len n pe pos;
  low = λ i h. start_low len n pe pos enough i;
  high = λ i h. start_high len n pe pos enough i;
}
