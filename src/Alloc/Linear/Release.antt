-- ===== src/Alloc/Linear/Release.antt =====
-- `LinearAlloc::free` on a valid heap, and after an allocation.
use lamellar_runtime.Prelude.{
  ℕ, zero, suc, ◌+◌, ◌^◌, ◌≤◌, ◌<◌, ◌≡◌, ap, inl, inr, true, Option, none, some, List, [], ◌∷◌,
  arith, ◌==◌, eq→==, Bool-cases, insert_at, All, sub_usize,
}
use lamellar_runtime.Alloc.Linear.{
  Vma, LinearAlloc, place, try_malloc, take_entry, free, keep, release,
}
use lamellar_runtime.Alloc.Linear.Gap.{Placed, used, Placed-le}
use lamellar_runtime.Alloc.Linear.Invariant.{
  IsValid, FirstFits, Placing-addr, try_malloc_outcome, used-insert_at, Placed-insert_at,
}

Placed-lower :
    (low low' high : ℕ) (es : List Vma) → low ≤ low' → Placed low' high es → Placed low high es
Placed-lower low low' high [] h p = omega arith
Placed-lower low low' high (e ∷ es) h p = (omega arith, p.1)

-- What the search of `free` took out is accounted for, and leaves the other areas in order.
abbrev Taken : ℕ → ℕ → List Vma → Option (Vma × List Vma) → Type 0
Taken low high es none = Unit
Taken low high es (some (e, rest)) =
    Placed low high rest × (used es ≡ e.size + e.padding + used rest)

keep-Taken :
    (low high : ℕ) (f : Vma) (fs : List Vma) (o : Option (Vma × List Vma))
    → low ≤ f.addr
    → Taken (f.addr + f.size + f.padding) high fs o
    → Taken low high (f ∷ fs) (keep f o)
keep-Taken low high f fs none h t = tt
keep-Taken low high f fs (some (e, rest)) h (p, u) = ((h, p), omega arith)

take_entry-Taken :
    (addr low high : ℕ) (es : List Vma)
    → Placed low high es
    → Taken low high es (take_entry addr es)
unfolding take_entry
take_entry-Taken addr low high [] p = tt
take_entry-Taken addr low high (f ∷ fs) p = elim (Bool-cases (sub_usize addr f.padding == f.addr)) [
  | inl t ↦
      rw t (Placed-lower low (f.addr + f.size + f.padding) high fs (omega arith) p.1, omega arith)
  | inr t ↦ rw t (
      keep-Taken low high f fs (take_entry addr fs) p.0
        (take_entry-Taken addr (f.addr + f.size + f.padding) high fs p.1))
]

release-IsValid :
    (a : LinearAlloc) (o : Option (Vma × List Vma))
    → IsValid a
    → Taken a.start_addr (a.start_addr + a.max_size) a.entries o
    → IsValid (release a o).0
unfolding release
release-IsValid a none valid t = valid
release-IsValid a (some (e, rest)) valid (p, u) = record {
  small = valid.small;
  placed = p;
  accounted = omega (arith, valid.accounted, valid.small);
}

-- `free` keeps a valid heap valid, whatever address it is given.
pub free-IsValid : (a : LinearAlloc) (addr : ℕ) → IsValid a → IsValid (free a addr).0
unfolding free
free-IsValid a addr valid =
    release-IsValid a (take_entry addr a.entries) valid
      (take_entry-Taken addr a.start_addr (a.start_addr + a.max_size) a.entries valid.placed)

-- The search of `free` finds the area that was put in, and the vector is as before.
take_entry-insert_at :
    (low high k : ℕ) (v : Vma) (es : List Vma)
    → high ≤ 2 ^ 63
    → All (λ e. 0 < e.size) es
    → Placed low high (insert_at k v es)
    → take_entry (v.addr + v.padding) (insert_at k v es) ≡ some (v, es)
unfolding take_entry
take_entry-insert_at low high zero v es small full p = rw (
    eq→== (sub_usize (v.addr + v.padding) v.padding) v.addr
      (omega (arith, Placed-le (v.addr + v.size + v.padding) high es p.1)))
take_entry-insert_at low high (suc k) v [] small full p =
    rw (eq→== (sub_usize (v.addr + v.padding) v.padding) v.addr (omega arith))
take_entry-insert_at low high (suc k) v (e ∷ es) small full p = ground (
  arith,
  take_entry-insert_at (e.addr + e.size + e.padding) high k v es small full.1 p.1,
  Placed-insert_at (e.addr + e.size + e.padding) high k v es p.1,
)

module _ (a : LinearAlloc) (size align : ℕ) (valid : IsValid a) (idle : a.last_idx ≡ 0)
    (full : All (λ e. 0 < e.size) a.entries) where
  free-place :
      (p pad k : ℕ)
      → p + size + pad ≤ a.start_addr + a.max_size
      → Placed a.start_addr
          (a.start_addr + a.max_size)
          (insert_at k (record { addr = p; padding = pad; size = size }) a.entries)
      → free (place a p pad size k).0 (p + pad) ≡ (a, true)
  unfolding free place
  free-place p pad k room put =
      rw
        (
          take_entry-insert_at a.start_addr (a.start_addr + a.max_size) k
              (record { addr = p; padding = pad; size = size }) a.entries valid.small full put,
          release,
        )
        (ground (
          arith,
          valid.small,
          valid.accounted,
          idle,
          used-insert_at k (record { addr = p; padding = pad; size = size }) a.entries,
          Placed-le a.start_addr (a.start_addr + a.max_size)
              (insert_at k (record { addr = p; padding = pad; size = size }) a.entries) put,
        ))

-- Freeing the address that an attempt returned gives back the state before the attempt, on a valid heap
-- with `last_idx` 0 and no empty area, for a positive alignment and a size that together do not pass
-- 2^63; on a heap without areas the request has to fit the region.
pub free-try_malloc :
    (a : LinearAlloc) (size align addr : ℕ)
    → IsValid a
    → 0 < align
    → size + align ≤ 2 ^ 63
    → a.last_idx ≡ 0
    → All (λ e. 0 < e.size) a.entries
    → FirstFits a size align
    → (try_malloc a size align).1 ≡ some addr
    → free (try_malloc a size align).0 addr ≡ (a, true)
free-try_malloc a size align addr valid pos fits idle full first got =
    elim (try_malloc_outcome a size align valid pos fits first) [
      | inl failed ↦ absurd (cc (ap (λ (r : LinearAlloc × Option ℕ). r.1) failed))
      | inr p ↦
          rw
            (
              Placing-addr a size align valid pos fits addr (try_malloc a size align) got p,
              p.result,
            )
            (free-place a size align valid idle full p.prev_end p.padding p.idx p.room p.put)
    ]
