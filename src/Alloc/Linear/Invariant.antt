-- ===== src/Alloc/Linear/Invariant.antt =====
-- What holds of every `LinearAlloc` that its operations leave behind, and what a success returns.
use lamellar_runtime.Prelude.{
  ℕ, zero, suc, ◌+◌, ◌%◌, ◌^◌, ◌≤◌, ◌<◌, ◌≡◌, refl, ap, ◌⊎◌, inl, inr, true, Option, none, some,
  List, [], ◌∷◌, arith, ltb, leb, if◌then◌else◌, lt→ltb, leb→le, le→leb, Bool-cases, length,
  insert_at, All, All-imp, add_usize,
}
use lamellar_runtime.Alloc.{calc_padding}
use lamellar_runtime.Alloc.Padding.{calc_padding-lt, calc_padding-aligned}
use lamellar_runtime.Alloc.Linear.{
  Vma, LinearAlloc, find_gap, place, try_malloc_between, try_malloc_first, try_malloc,
}
use lamellar_runtime.Alloc.Linear.Gap.{
  Placed, used, Placed-le, find_gap-padding, find_gap-Placed, find_gap-le,
}

pub record IsValid (a : LinearAlloc) : Type 0 where
  pub small : a.start_addr + a.max_size ≤ 2 ^ 63
  pub placed : Placed a.start_addr (a.start_addr + a.max_size) a.entries
  pub accounted : a.free_space + used a.entries ≡ a.max_size

-- The empty heap has room for the request behind its start. The code's own test does not see to
-- this where `start_addr` is not 0.
abbrev pub FirstFits : LinearAlloc → ℕ → ℕ → Type 0
FirstFits a size align = a.entries ≡ [] → size + calc_padding a.start_addr align ≤ a.max_size

-- The area from `addr` on, `size` bytes long, does not meet the area `e`.
abbrev pub Apart : ℕ → ℕ → Vma → Type 0
Apart addr size e = (addr + size ≤ e.addr) ⊎ (e.addr + e.size + e.padding ≤ addr)

pub used-insert_at :
    (k : ℕ) (v : Vma) (es : List Vma) → used (insert_at k v es) ≡ v.size + v.padding + used es
used-insert_at zero v es = refl
used-insert_at (suc k) v [] = refl
used-insert_at (suc k) v (e ∷ es) = omega (arith, used-insert_at k v es)

Placed-after :
    (low high : ℕ) (addr size : ℕ) (es : List Vma)
    → addr + size ≤ low
    → Placed low high es
    → All (Apart addr size) es
Placed-after low high addr size [] h p = tt
Placed-after low high addr size (e ∷ es) h p = (
  inl (omega arith),
  Placed-after (e.addr + e.size + e.padding) high addr size es (omega arith) p.1,
)

-- An area put in keeps to the bounds, and meets no other.
pub Placed-insert_at :
    (low high k : ℕ) (v : Vma) (es : List Vma)
    → Placed low high (insert_at k v es)
    → (low ≤ v.addr)
      × (v.addr + v.size + v.padding ≤ high)
      × All (Apart v.addr (v.size + v.padding)) es
Placed-insert_at low high zero v es h = (
  h.0,
  omega (arith, Placed-le (v.addr + v.size + v.padding) high es h.1),
  Placed-after (v.addr + v.size + v.padding) high v.addr (v.size + v.padding) es (omega arith) h.1,
)
Placed-insert_at low high (suc k) v [] h = (h.0, h.1, tt)
Placed-insert_at low high (suc k) v (e ∷ es) h =
    let (above, below, apart) = Placed-insert_at (e.addr + e.size + e.padding) high k v es h.1 in
    (omega arith, below, (inr above, apart))

-- How a success of `try_malloc` changed the state `a` into `r.0`.
pub record Placing (a : LinearAlloc) (size align : ℕ) (r : LinearAlloc × Option ℕ) : Type 0 where
  pub prev_end : ℕ
  pub padding : ℕ
  pub idx : ℕ
  pub result : r ≡ place a prev_end padding size idx
  pub padded : padding ≡ calc_padding prev_end align
  pub room : prev_end + size + padding ≤ a.start_addr + a.max_size
  pub put :
      Placed a.start_addr
        (a.start_addr + a.max_size)
        (insert_at idx (record { addr = prev_end; padding = padding; size = size }) a.entries)

module _ (a : LinearAlloc) (size align : ℕ) (valid : IsValid a) (pos : 0 < align)
    (fits : size + align ≤ 2 ^ 63) where
  first_outcome :
      a.entries ≡ []
      → size + calc_padding a.start_addr align ≤ a.max_size
      → Placing a size align (try_malloc_first a size align)
  unfolding try_malloc_first
  first_outcome e h = record {
    prev_end = a.start_addr;
    padding = calc_padding a.start_addr align;
    idx = 0;
    result = rw (le→leb _ _ test);
    padded = refl;
    room = omega arith;
    put = rw e (omega arith);
  }
    where
      test : add_usize size (calc_padding a.start_addr align) ≤ add_usize a.start_addr a.max_size
      test = omega (arith, valid.small, calc_padding-lt a.start_addr align pos)

  between_outcome :
      (try_malloc_between a size align ≡ (a, none))
      ⊎ Placing a size align (try_malloc_between a size align)
  unfolding try_malloc_between
  between_outcome =
      elim (Bool-cases
        (leb (add_usize (add_usize g.0 size) g.1) (add_usize a.start_addr a.max_size))) [
          | inl t ↦ inr (record {
            prev_end = g.0;
            padding = g.1;
            idx = g.2;
            result = rw t;
            padded = find_gap-padding size align high fits valid.small a.start_addr 0 a.entries;
            room = room t;
            put =
                find_gap-Placed size align high fits valid.small a.start_addr a.entries pos
                  valid.placed (room t);
          })
          | inr f ↦ inl (rw f)
        ]
    where
      g : ℕ × ℕ × ℕ
      g = find_gap size align a.start_addr (calc_padding a.start_addr align) 0 a.entries

      high : ℕ
      high = a.start_addr + a.max_size

      room :
          leb (add_usize (add_usize g.0 size) g.1) (add_usize a.start_addr a.max_size) ≡ true
          → g.0 + size + g.1 ≤ high
      room t = omega (
        arith,
        leb→le _ _ t,
        valid.small,
        find_gap-le size align high fits valid.small a.start_addr 0 a.entries pos valid.placed,
        find_gap-padding size align high fits valid.small a.start_addr 0 a.entries,
        calc_padding-lt g.0 align pos,
      )

  -- Either an attempt fails and changes nothing, or it puts one area into a gap that holds it.
  pub try_malloc_outcome :
      FirstFits a size align
      → (try_malloc a size align ≡ (a, none)) ⊎ Placing a size align (try_malloc a size align)
  unfolding try_malloc
  try_malloc_outcome first = by_entries a.entries refl
    where
      by_entries :
          (es : List Vma)
          → a.entries ≡ es
          → let r =
              (if ltb 0 (length es)
                then try_malloc_between a size align
                else try_malloc_first a size align) in
            (r ≡ (a, none)) ⊎ Placing a size align r
      by_entries [] e = inr (first_outcome e (first e))
      by_entries (v ∷ vs) e = rw (lt→ltb 0 (suc (length vs)) (omega arith)) between_outcome

  Placing-IsValid : (r : LinearAlloc × Option ℕ) → Placing a size align r → IsValid r.0
  unfolding place
  Placing-IsValid r p = rw p.result (record {
    small = valid.small;
    placed = p.put;
    accounted = omega (
      arith,
      valid.small,
      valid.accounted,
      used-insert_at p.idx v a.entries,
      Placed-le a.start_addr (a.start_addr + a.max_size) (insert_at p.idx v a.entries) p.put,
    );
  })
    where
      v : Vma
      v = record { addr = p.prev_end; padding = p.padding; size = size }

  -- On a valid heap an attempt with a positive alignment and a size that together do not pass 2^63 keeps
  -- the heap valid, whether it succeeds or not; on a heap without areas the request has to fit the region.
  pub try_malloc-IsValid : FirstFits a size align → IsValid (try_malloc a size align).0
  try_malloc-IsValid first = elim (try_malloc_outcome first) [
    | inl failed ↦ rw failed valid
    | inr p ↦ Placing-IsValid (try_malloc a size align) p
  ]

  -- The address returned is that behind the padding.
  pub Placing-addr :
      (addr : ℕ) (r : LinearAlloc × Option ℕ)
      → r.1 ≡ some addr
      → (p : Placing a size align r) → addr ≡ p.prev_end + p.padding
  unfolding place
  Placing-addr addr r got p = ground (arith, got, p.result, p.room, valid.small)

  Placing-fresh :
      (addr : ℕ) (r : LinearAlloc × Option ℕ)
      → r.1 ≡ some addr
      → Placing a size align r
      → (addr % align ≡ 0)
        × (a.start_addr ≤ addr)
        × (addr + size ≤ a.start_addr + a.max_size)
        × All (Apart addr size) a.entries
  unfolding place
  Placing-fresh addr r got p = rw (Placing-addr addr r got p) (
    rw p.padded (calc_padding-aligned p.prev_end align pos),
    omega (arith, in_bounds.0),
    omega (arith, p.room),
    All-imp (λ e d. apart e d) a.entries in_bounds.2,
  )
    where
      in_bounds :
          (a.start_addr ≤ p.prev_end)
          × (p.prev_end + size + p.padding ≤ a.start_addr + a.max_size)
          × All (Apart p.prev_end (size + p.padding)) a.entries
      in_bounds =
          Placed-insert_at a.start_addr (a.start_addr + a.max_size) p.idx
            (record { addr = p.prev_end; padding = p.padding; size = size }) a.entries p.put

      apart :
          (e : Vma) → Apart p.prev_end (size + p.padding) e → Apart (p.prev_end + p.padding) size e
      apart e d = omega arith

  -- On a valid heap the address that an attempt returns is aligned, and its area lies in the region and
  -- meets no area that was allocated before, for a positive alignment and a size that together do
  -- not pass 2^63; on a heap without areas the request has to fit the region.
  pub try_malloc-fresh :
      (addr : ℕ)
      → FirstFits a size align
      → (try_malloc a size align).1 ≡ some addr
      → (addr % align ≡ 0)
        × (a.start_addr ≤ addr)
        × (addr + size ≤ a.start_addr + a.max_size)
        × All (Apart addr size) a.entries
  try_malloc-fresh addr first got = elim (try_malloc_outcome first) [
    | inl failed ↦ absurd (cc (ap (λ (r : LinearAlloc × Option ℕ). r.1) failed))
    | inr p ↦ Placing-fresh addr (try_malloc a size align) got p
  ]

-- An attempt leaves the region alone, and the whole state where it fails.
pub try_malloc-region :
    (a : LinearAlloc) (size align : ℕ)
    → ((try_malloc a size align).0.start_addr ≡ a.start_addr)
      × ((try_malloc a size align).0.max_size ≡ a.max_size)
unfolding try_malloc try_malloc_between try_malloc_first place
try_malloc-region a size align = ground arith

pub try_malloc_unchanged :
    (a : LinearAlloc) (size align : ℕ)
    → (try_malloc a size align).1 ≡ none
    → (try_malloc a size align).0 ≡ a
unfolding try_malloc try_malloc_between try_malloc_first place
try_malloc_unchanged a size align h = ground arith
