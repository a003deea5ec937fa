-- ===== src/Alloc/BTree/Tests.antt =====
-- A heap of 100 bytes from address 4 on: empty, with one block of 10 bytes, and full.
use lamellar_runtime.Prelude.{
  ℕ, ◌+◌, ◌-◌, ◌≡◌, refl, subst, ◌⊎◌, Option, none, some, List, [], ◌∷◌, arith,
}
use lamellar_runtime.Alloc.BTree.{insert_size, remove_size}
use lamellar_runtime.Alloc.{calc_padding}
use lamellar_runtime.Alloc.BTree.{
  BTreeAlloc, new, init, try_malloc, free, merge, merge_from, take_area, split, hand_out,
  join_before, join_after, enter,
}
use lamellar_runtime.Alloc.BTree.Areas.{cov, cover}
use lamellar_runtime.Alloc.BTree.Take.{IsRequest}
use lamellar_runtime.Alloc.BTree.Heap.{IsHeap, IsFresh, init-IsHeap}
use lamellar_runtime.Alloc.BTree.Attempt.{try_malloc_keeps, try_malloc_full_panics}
use lamellar_runtime.Alloc.BTree.Release.{free_keeps}

abbrev heap : List (ℕ × List ℕ) → List (ℕ × (ℕ × ℕ)) → List (ℕ × (ℕ × ℕ)) → ℕ → BTreeAlloc
heap sizes addrs allocated free_space = record {
  free_entries = record { sizes = sizes; addrs = addrs };
  allocated_addrs = allocated;
  start_addr = 4;
  max_size = 100;
  free_space = free_space;
}

abbrev untouched : BTreeAlloc
untouched = heap ((100, 4 ∷ []) ∷ []) ((4, (100, 0)) ∷ []) [] 100

abbrev one_block : BTreeAlloc
one_block = heap ((86, 18 ∷ []) ∷ []) ((18, (86, 0)) ∷ []) ((8, (10, 4)) ∷ []) 86

abbrev crowded : BTreeAlloc
crowded = heap [] [] ((4, (100, 0)) ∷ []) 0

init-untouched : init new 4 100 ≡ untouched
unfolding init new
init-untouched = refl

untouched-IsHeap : IsHeap untouched
untouched-IsHeap = subst IsHeap init-untouched (init-IsHeap 4 100 (omega arith) (omega arith))

one_block-IsHeap : IsHeap one_block
one_block-IsHeap = record {
  free = record {
    sorted = (omega arith, tt);
    agree = λ w. omega arith;
    plain = ((omega arith, refl, omega arith), tt);
    apart = λ x. ground arith;
  };
  filled = ((λ e. absurd (cc)), tt);
  blocks = ((omega arith, omega arith), tt);
  covered = λ x. ground arith;
  counted = refl;
  space = refl;
  small = omega arith;
}

crowded-IsHeap : IsHeap crowded
crowded-IsHeap = record {
  free = record { sorted = tt; agree = λ w. refl; plain = tt; apart = λ x. omega arith };
  filled = tt;
  blocks = ((omega arith, omega arith), tt);
  covered = λ x. omega arith;
  counted = refl;
  space = refl;
  small = omega arith;
}

request : IsRequest 10 8
request = record { some_size = omega arith; some_align = omega arith; small = omega arith }

try_malloc_one : try_malloc (λ c. c) 10 8 untouched ≡ some (some 8, one_block)
unfolding try_malloc take_area split insert_size hand_out calc_padding
try_malloc_one = refl

free_one : free 8 one_block ≡ some untouched
unfolding free join_before join_after enter insert_size remove_size
free_one = refl

-- The block at 16 has its padding from 8 on, where the area before it ends, and is not joined with it.
free_padded :
    free 16 (heap ((4, 4 ∷ []) ∷ []) ((4, (4, 0)) ∷ []) ((16, (88, 8)) ∷ []) 4)
    ≡ some (heap ((4, 4 ∷ []) ∷ (96, 8 ∷ []) ∷ []) ((4, (4, 0)) ∷ (8, (96, 0)) ∷ []) [] 100)
unfolding free join_before join_after enter insert_size remove_size
free_padded = refl

-- `merge` goes back to the first pair, so the two areas behind it that touch stay apart.
merge_first_only :
    merge (record {
      sizes = (10, 0 ∷ 20 ∷ 30 ∷ []) ∷ [];
      addrs = (0, (10, 0)) ∷ (20, (10, 0)) ∷ (30, (10, 0)) ∷ [];
    })
    ≡ some (record {
      sizes = (10, 0 ∷ 20 ∷ 30 ∷ []) ∷ [];
      addrs = (0, (10, 0)) ∷ (20, (10, 0)) ∷ (30, (10, 0)) ∷ [];
    })
unfolding merge merge_from
merge_first_only = refl

-- A block of no bytes takes the area out of `sizes` and leaves it in `addrs`.
try_malloc_nothing :
    try_malloc (λ c. c) 0 1 untouched
    ≡ some (some 4, heap [] ((4, (100, 0)) ∷ []) ((4, (0, 0)) ∷ []) 100)
unfolding try_malloc take_area split insert_size hand_out calc_padding
try_malloc_nothing = refl

try_malloc_keeps_example :
    (r : Option ℕ) × (b' : BTreeAlloc) × (try_malloc (λ c. c) 10 8 untouched ≡ some (r, b'))
    × IsHeap b'
    × ((addr : ℕ) → r ≡ some addr → IsFresh 10 8 untouched addr ⊎ IsFresh 10 8 untouched addr)
try_malloc_keeps_example =
    try_malloc_keeps 10 8 request (λ c. c) untouched untouched-IsHeap untouched-IsHeap (omega arith)

try_malloc_full_panics_example : try_malloc (λ c. c) 10 8 crowded ≡ none
try_malloc_full_panics_example = try_malloc_full_panics 10 8 crowded crowded-IsHeap refl

free_keeps_example :
    (b' : BTreeAlloc) × (free 8 one_block ≡ some b')
    × IsHeap b'
    × ((x : ℕ)
        → cover x b'.free_entries.addrs
          ≡ cover x one_block.free_entries.addrs + cov x (8 - 4) (4 + 10))
    × (b'.allocated_addrs ≡ [])
free_keeps_example = free_keeps one_block one_block-IsHeap 8 10 4 [] refl
