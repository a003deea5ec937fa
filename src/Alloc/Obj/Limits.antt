-- ===== src/Alloc/Obj/Limits.antt =====
-- The last slot of an `ObjAlloc`, and its dry run with one slot left.
use lamellar_runtime.Prelude.{
  ℕ, ◌+◌, ◌-◌, ◌/◌, ◌%◌, ◌≤◌, ◌<◌, ◌≡◌, refl, ◌≢◌, false, Option, none, some, List, total-one,
  pop_last-none, arith, length, pop_last,
}
use lamellar_runtime.Alloc.{calc_padding}
use lamellar_runtime.Alloc.Obj.{ObjAlloc, Layout, init, try_malloc, fake_malloc}
use lamellar_runtime.Alloc.Obj.Slots.{count, IsRegion, slot, init-slot}
use native.Mathlib.Nat.{div-add-mod, mod-lt}

-- Where the room behind the padding is no multiple of the objects' size, `init` makes a last slot free that
-- begins in the region and ends behind it.
pub init_overruns :
    (t : Layout) (start_addr size : ℕ) (region : IsRegion t start_addr size) (a : ObjAlloc)
    → calc_padding start_addr t.align_of ≤ size
    → (size - calc_padding start_addr t.align_of) % t.size_of ≢ 0
    → (k : ℕ) × (count (slot t start_addr size region k) (init t a start_addr size).free_entries
        ≡ 1)
      × (start_addr + size < slot t start_addr size region k + t.size_of)
init_overruns t start_addr size region a fits partial =
    let room = size - calc_padding start_addr t.align_of in
    let whole = div-add-mod room t.size_of in
    (
      room / t.size_of,
      init-slot t start_addr size region a (room / t.size_of) (omega (arith, whole, partial)),
      omega (arith, whole, mod-lt room region.some_size),
    )

-- On an allocator with one free slot the dry run says no, where an attempt returns an address.
pub fake_malloc_misses :
    (a : ObjAlloc)
    → length a.free_entries ≡ 1
    → (fake_malloc a 1 ≡ some false)
      × ((b : ObjAlloc) × (addr : ℕ) × (try_malloc a 1 ≡ some (b, some addr)))
unfolding fake_malloc try_malloc
fake_malloc_misses a one = (rw one refl, by_pop (pop_last a.free_entries) refl)
  where
    by_pop :
        (o : Option (ℕ × List ℕ))
        → pop_last a.free_entries ≡ o
        → (b : ObjAlloc) × (addr : ℕ) × (try_malloc a 1 ≡ some (b, some addr))
    by_pop none q =
        absurd
          (omega (arith, one, pop_last-none (λ x. 1) a.free_entries q, total-one a.free_entries))
    by_pop (some (addr, rest)) q = (record a { free_entries = rest }, addr, rw q refl)
