-- ===== src/Alloc/Linear/Overrun.antt =====
-- The first attempt on an empty `LinearAlloc`: its test compares `size + padding` with the end of the
-- region and not with its length.
use lamellar_runtime.Prelude.{ℕ, ◌+◌, ◌^◌, ◌≤◌, ◌<◌, ◌≡◌, some, [], arith, le→leb, add_usize}
use lamellar_runtime.Alloc.{calc_padding}
use lamellar_runtime.Alloc.Linear.{LinearAlloc, place, try_malloc_first, try_malloc}

-- On an empty heap a request longer than the region, but not longer than the region's end address,
-- is granted, and its area reaches past the end of the region.
pub try_malloc_overruns :
    (a : LinearAlloc) (size align : ℕ)
    → a.entries ≡ []
    → a.start_addr + a.max_size < 2 ^ 63
    → a.max_size < size + calc_padding a.start_addr align
    → size + calc_padding a.start_addr align ≤ a.start_addr + a.max_size
    → (addr : ℕ) × ((try_malloc a size align).1 ≡ some addr)
      × (a.start_addr + a.max_size < addr + size)
unfolding try_malloc try_malloc_first place
try_malloc_overruns a size align empty small long short = (
  a.start_addr + calc_padding a.start_addr align,
  rw empty (
      rw
        (le→leb (add_usize size (calc_padding a.start_addr align))
          (add_usize a.start_addr a.max_size) (omega arith))
        (ground arith)),
  omega arith,
)
