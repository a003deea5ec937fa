-- ===== src/Alloc/Linear.antt =====
-- `LinearAlloc` of src/lamellar_alloc.rs: a first-fit allocator over a vector of allocated areas, kept
-- in the order of their addresses. Each operation runs under the lock of `entries`, so it is one
-- step on the state. The name `_id` and the condition variable, which only delays a failed attempt,
-- hold no state of the allocator.
pub mod Gap
pub mod Invariant
pub mod Release
pub mod Search
pub mod Retry
pub mod Overrun
mod Tests
use lamellar_runtime.Prelude.{
  ℕ, zero, suc, ◌+◌, ◌-◌, Bool, true, false, ◌&&◌, not, Option, none, some, List, [], ◌∷◌, length,
  insert_at, leb, ltb, ◌==◌, if◌then◌else◌, add_usize, sub_usize,
}
use lamellar_runtime.Alloc.{calc_padding}

pub record Vma : Type 0 where
  pub addr : ℕ
  pub padding : ℕ
  pub size : ℕ

pub record LinearAlloc : Type 0 where
  pub entries : List Vma
  pub start_addr : ℕ
  pub max_size : ℕ
  pub last_idx : ℕ
  pub free_space : ℕ

unfoldable pub new : LinearAlloc
new = record { entries = []; start_addr = 0; max_size = 0; last_idx = 0; free_space = 0 }

unfoldable pub init : LinearAlloc → ℕ → ℕ → LinearAlloc
init a start_addr size = record a { start_addr = start_addr; max_size = size; free_space = size }

-- The loop over `entries`: it stops at the first entry with room before it, and returns
-- `(prev_end, padding, idx)`.
unfoldable pub find_gap : ℕ → ℕ → ℕ → ℕ → ℕ → List Vma → ℕ × ℕ × ℕ
find_gap size align prev_end padding idx [] = (prev_end, padding, idx)
find_gap size align prev_end padding idx (e ∷ es) =
    let end = add_usize (add_usize e.addr e.size) e.padding in
    if leb (add_usize size padding) (sub_usize e.addr prev_end)
    then (prev_end, padding, idx)
    else find_gap size align end (calc_padding end align) (suc idx) es

-- The bookkeeping of a successful attempt: the new area at `idx`, and its bytes off the free space.
unfoldable pub place : LinearAlloc → ℕ → ℕ → ℕ → ℕ → LinearAlloc × Option ℕ
place a prev_end padding size idx = (
  record a {
    entries = insert_at idx (record { addr = prev_end; padding = padding; size = size }) a.entries;
    free_space = sub_usize a.free_space (add_usize size padding);
  },
  some (add_usize prev_end padding),
)

-- The attempt where some area is allocated already.
unfoldable pub try_malloc_between : LinearAlloc → ℕ → ℕ → LinearAlloc × Option ℕ
try_malloc_between a size align =
    let (prev_end, padding, idx) =
      find_gap size align a.start_addr (calc_padding a.start_addr align) 0 a.entries in
    if leb (add_usize (add_usize prev_end size) padding) (add_usize a.start_addr a.max_size)
    then place a prev_end padding size idx
    else (a, none)

-- The attempt on an empty vector. The test leaves `start_addr` out on its left side, as the source
-- does.
unfoldable pub try_malloc_first : LinearAlloc → ℕ → ℕ → LinearAlloc × Option ℕ
try_malloc_first a size align =
    let padding = calc_padding a.start_addr align in
    if leb (add_usize size padding) (add_usize a.start_addr a.max_size)
    then place a a.start_addr padding size 0
    else (a, none)

unfoldable pub try_malloc : LinearAlloc → ℕ → ℕ → LinearAlloc × Option ℕ
try_malloc a size align =
    if ltb 0 (length a.entries)
    then try_malloc_between a size align
    else try_malloc_first a size align

unfoldable pub fake_malloc : LinearAlloc → ℕ → ℕ → Bool
fake_malloc a size align =
    if ltb 0 (length a.entries)
    then (let (prev_end, padding, idx) =
          find_gap size align a.start_addr (calc_padding a.start_addr align) 0 a.entries in
        leb (add_usize (add_usize prev_end size) padding) (add_usize a.start_addr a.max_size))
    else leb (add_usize size (calc_padding a.start_addr align)) (add_usize a.start_addr a.max_size)

-- `malloc` spins on `try_malloc`. Between two attempts other threads may run: `others` is what the
-- k-th pause does to the state. `none` means that the attempts ran out.
unfoldable pub malloc :
    ℕ → (ℕ → LinearAlloc → LinearAlloc) → LinearAlloc → ℕ → ℕ → LinearAlloc × Option ℕ
malloc zero others a size align = (a, none)
malloc (suc attempts) others a size align =
    let (a', got) = try_malloc a size align in
    let rest = malloc attempts (λ k. others (suc k)) (others 0 a') size align in
    elim got [ none ↦ rest | some addr ↦ (a', some addr) ]

-- The search of `free`: the first entry whose address is `addr` less its padding, with the vector
-- that `remove` leaves.
abbrev pub keep : Vma → Option (Vma × List Vma) → Option (Vma × List Vma)
keep e none = none
keep e (some (f, rest)) = some (f, e ∷ rest)

unfoldable pub take_entry : ℕ → List Vma → Option (Vma × List Vma)
take_entry addr [] = none
take_entry addr (e ∷ es) =
    if sub_usize addr e.padding == e.addr then some (e, es) else keep e (take_entry addr es)

-- What `free` does with the outcome of the search. `Ok(())` is `true`, `Err(addr)` is `false`.
unfoldable pub release : LinearAlloc → Option (Vma × List Vma) → LinearAlloc × Bool
release a none = (a, false)
release a (some (e, rest)) = (
  record a {
    entries = rest;
    free_space = add_usize a.free_space (add_usize e.size e.padding);
    last_idx =
        if leb (length rest) a.last_idx && not (a.last_idx == 0)
        then a.last_idx - 1
        else a.last_idx;
  },
  true,
)

unfoldable pub free : LinearAlloc → ℕ → LinearAlloc × Bool
unfolding release
free a addr = release a (take_entry addr a.entries)

unfoldable pub space_avail : LinearAlloc → ℕ
space_avail a = a.free_space

unfoldable pub occupied : LinearAlloc → ℕ
occupied a = sub_usize a.max_size a.free_space
