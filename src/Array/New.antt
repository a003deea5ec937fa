-- ===== src/Array/New.antt =====
-- What `UnsafeArray::new` makes, with exact fractions for `f64`.
mod Tests
use lamellar_runtime.Prelude.{
  ℕ, zero, suc, ◌+◌, ◌-◌, ◌*◌, ◌/◌, ◌%◌, ◌^◌, ◌≤◌, ◌<◌, min, max, ◌≡◌, refl, sym, ap, ◌∙◌, subst,
  ◌≢◌, ◌↔◌, ◌⊎◌, inl, inr, Bool, true, false, ◌&&◌, ◌||◌, not, Option, none, some, List, [], ◌∷◌,
  ◌++◌, map, set, remove_at, All-remove_at, total-remove_at, total-append, total-pop_last, arith,
  dec_lt, dec_le, ℕ_discrete, ltb, leb, ◌==◌, if◌then◌else◌, ltb→lt, lt→ltb, le→ltb, leb→le, le→leb,
  leb→lt, eq→==, ==→eq, ne→==, Bool-cases, Option-cases, is_some, length, get_elem?, insert_at,
  pop_last, All, All-imp, pop_last-append, length-append, length-set, All-get_elem?, All-set, total,
  total-set, get_elem?-le-total, total-two, total-le-length, total-eq-zero, total_mono,
  total-witness, usize_mod, add_usize, sub_usize, mul_usize, mul_le, mul_lt,
}
use lamellar_runtime.Array.Inner.{Float, Distribution, block, UnsafeArrayInner}
use lamellar_runtime.Array.{per_pe_size, new, sub_array, range_start, range_end}
use lamellar_runtime.Array.Block.{global_start, guess}
use lamellar_runtime.Array.Block.Split.{Splits, IsValid}
use lamellar_runtime.Array.Block.Exact.{exact, whole, exact-Splits, start_bounds, cancel_lt}
use native.Mathlib.Nat.{div-add-mod, mod-lt, mul-one, one-mul}

-- The PEs together have memory for every element.
enough_memory : (len n : ℕ) → 0 < n → len ≤ n * per_pe_size exact len n
unfolding per_pe_size
enough_memory len n pos =
    let e : per_pe_size exact len n ≡ (len + n - 1) / n = simp (mul-one, one-mul) in
    rw e (omega (arith, div-add-mod (len + n - 1) n, mod-lt (len + n - 1) pos))

-- With exact fractions no PE's stretch of the whole array is longer than the elements for which `new` asks
-- memory on each PE, for a team that has a PE.
pub stretch_fits :
    (len n pe p : ℕ)
    → 0 < n
    → global_start exact (whole len n pe) (suc p)
      ≤ global_start exact (whole len n pe) p + per_pe_size exact len n
unfolding per_pe_size
stretch_fits len n pe p pos =
    let c = per_pe_size exact len n in
    let lower = start_bounds len n pe pos p in
    let upper = start_bounds len n pe pos (suc p) in
    let less : 2 * n * global_start exact (whole len n pe) (suc p)
        < 2 * n * (global_start exact (whole len n pe) p + c + 1) =
      omega (arith, lower, upper, enough_memory len n pos) in
    omega (
      arith,
      cancel_lt (2 * n) (global_start exact (whole len n pe) (suc p))
          (global_start exact (whole len n pe) p + c + 1) less,
    )

-- With exact fractions `new` gives an array of the size that was asked for, which lies in a whole array
-- that splits over the team, for a team that has a PE and sizes below 2^63; it also does so where the array
-- has fewer elements than the team has PEs.
pub new-Splits :
    (my_pe n size_of array_size : ℕ)
    → 0 < n
    → max array_size n < 2 ^ 63
    → (a : UnsafeArrayInner (ℕ × ℕ)) × ((new exact my_pe n size_of array_size Distribution.block).1
        ≡ some a)
      × (a.size ≡ array_size)
      × IsValid exact a (max array_size n)
      × Splits exact a (max array_size n)
unfolding new sub_array range_start range_end global_start guess
new-Splits my_pe n size_of array_size pos small =
    let splits = exact-Splits (max array_size n) n my_pe pos (omega arith) in
    (
      a,
      made,
      refl,
      record { inside = omega arith; small = small },
      record {
        first = splits.first;
        last = splits.last;
        mono = splits.mono;
        low = splits.low;
        high = splits.high;
      },
    )
  where
    a : UnsafeArrayInner (ℕ × ℕ)
    a = record {
      my_pe = my_pe;
      num_pes = n;
      distribution = Distribution.block;
      orig_elem_per_pe = exact.div (exact.from_usize (max array_size n)) (exact.from_usize n);
      elem_size = size_of;
      offset = 0;
      size = array_size;
    }

    made : (new exact my_pe n size_of array_size Distribution.block).1 ≡ some a
    made = elim (ℕ_discrete (max array_size n) array_size) [
      | yes same ↦
          rw (eq→== (max array_size n) array_size same)
            (ap (λ z. some (record a { size = z })) same)
      | no less ↦
          let inside : ltb (max array_size n) array_size ≡ false = ground arith in
          let first : add_usize 0 0 ≡ 0 = omega arith in
          let last : sub_usize array_size 0 ≡ array_size = omega (arith, small) in
          rw (ne→== (max array_size n) array_size less, sub_array, inside, first, last) refl
    ]
