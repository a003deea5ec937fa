-- ===== src/Alloc/Obj/Slots.antt =====
-- The slots that `init` makes of a region.
use lamellar_runtime.Prelude.{
  ℕ, zero, suc, ◌+◌, ◌-◌, ◌*◌, ◌^◌, ◌≤◌, ◌<◌, ◌≡◌, refl, false, List, arith, dec_lt, ltb, ◌==◌,
  if◌then◌else◌, lt→ltb, All, All-imp, total, add_usize,
}
use lamellar_runtime.Alloc.{calc_padding}
use lamellar_runtime.Alloc.Padding.{calc_padding-lt}
use lamellar_runtime.Alloc.Obj.{ObjAlloc, Layout, step_by, init}

-- How often an address stands in a list.
abbrev pub count : ℕ → List ℕ → ℕ
count x ys = total (λ y. if x == y then 1 else 0) ys

-- Every address of `step_by` is one of the range, a whole number of steps behind its start.
step_by-within :
    (fuel i end step : ℕ)
    → All (λ x. (i ≤ x) × (x < end) × ((k : ℕ) × (x ≡ i + step * k))) (step_by fuel i end step)
unfolding step_by
step_by-within zero i end step = tt
step_by-within (suc fuel) i end step = elim (dec_lt i end) [
  | yes inside ↦ rw (lt→ltb i end inside) (
    (omega arith, inside, (0, omega arith)),
    All-imp (λ x h. (omega (arith, h.0), h.1, (suc h.2.0, omega (arith, h.2.1))))
        (step_by fuel (i + step) end step) (step_by-within fuel (i + step) end step),
  )
  | no over ↦ let e : ltb i end ≡ false = ground arith in rw e tt
]

step_by-below : (fuel i end step x : ℕ) → x < i → count x (step_by fuel i end step) ≡ 0
unfolding step_by
step_by-below zero i end step x h = refl
step_by-below (suc fuel) i end step x h =
    ground (arith, step_by-below fuel (i + step) end step x (omega arith))

-- With enough fuel each address of the range that lies a whole number of steps behind its start occurs once.
step_by-once :
    (fuel i end step k : ℕ)
    → 0 < step
    → end ≤ i + fuel
    → i + step * k < end
    → count (i + step * k) (step_by fuel i end step) ≡ 1
unfolding step_by
step_by-once zero i end step k pos enough h = absurd (omega arith)
step_by-once (suc fuel) i end step zero pos enough h =
    ground (arith, step_by-below fuel (i + step) end step i (omega arith))
step_by-once (suc fuel) i end step (suc k) pos enough h =
    let e : i + step * suc k ≡ i + step + step * k = omega arith in
    rw e
      (ground (arith, step_by-once fuel (i + step) end step k pos (omega arith) (omega (arith, e))))

-- The objects have a size and an alignment, and addresses do not wrap.
pub record IsRegion (t : Layout) (start_addr size : ℕ) : Type 0 where
  pub some_size : 0 < t.size_of
  pub some_align : 0 < t.align_of
  pub small : start_addr + size + t.align_of < 2 ^ 63

module _ (t : Layout) (start_addr size : ℕ) (region : IsRegion t start_addr size) where
  -- The address of slot `k`.
  abbrev pub slot : ℕ → ℕ
  slot k = start_addr + calc_padding start_addr t.align_of + t.size_of * k

  no_wrap :
      (add_usize start_addr (calc_padding start_addr t.align_of)
        ≡ start_addr + calc_padding start_addr t.align_of)
      × (add_usize start_addr size ≡ start_addr + size)
  no_wrap = omega (arith, region.small, calc_padding-lt start_addr t.align_of region.some_align)

  -- Every slot that begins in the region is free once.
  pub init-slot :
      (a : ObjAlloc) (k : ℕ)
      → slot k < start_addr + size
      → count (slot k) (init t a start_addr size).free_entries ≡ 1
  unfolding init
  init-slot a k inside =
      let (first, end) = no_wrap in
      rw (first, end)
        (step_by-once (start_addr + size - (start_addr + calc_padding start_addr t.align_of))
          (start_addr + calc_padding start_addr t.align_of) (start_addr + size) t.size_of k
          region.some_size (omega arith) inside)

  -- Nothing else is free.
  pub init-within :
      (a : ObjAlloc)
      → All
          (λ x. (x < start_addr + size) × ((k : ℕ) × (x ≡ slot k)))
          (init t a start_addr size).free_entries
  unfolding init
  init-within a =
      let (first, end) = no_wrap in
      rw (first, end)
        (All-imp (λ x h. (h.1, h.2))
          (step_by (start_addr + size - (start_addr + calc_padding start_addr t.align_of))
            (start_addr + calc_padding start_addr t.align_of) (start_addr + size) t.size_of)
          (step_by-within (start_addr + size - (start_addr + calc_padding start_addr t.align_of))
            (start_addr + calc_padding start_addr t.align_of) (start_addr + size) t.size_of))
