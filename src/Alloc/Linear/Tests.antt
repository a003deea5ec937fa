-- ===== src/Alloc/Linear/Tests.antt =====
-- Runs of `LinearAlloc` on small heaps, and its theorems at concrete inputs.
use lamellar_runtime.Prelude.{
  ℕ, zero, suc, ◌+◌, ◌%◌, ◌≤◌, ◌<◌, ◌≡◌, refl, ◌↔◌, true, none, some, [], ◌∷◌, arith, All,
}
use lamellar_runtime.Alloc.{calc_padding}
use lamellar_runtime.Alloc.Linear.{
  LinearAlloc, find_gap, place, try_malloc_between, try_malloc, free, release, release,
}
use lamellar_runtime.Alloc.Linear.Invariant.{IsValid, Apart, try_malloc-IsValid, try_malloc-fresh}
use lamellar_runtime.Alloc.Linear.Release.{free-IsValid, free-try_malloc}
use lamellar_runtime.Alloc.Linear.Search.{NoGap, try_malloc-none_iff}
use lamellar_runtime.Alloc.Linear.Retry.{IsFair}
use lamellar_runtime.Alloc.Linear.Overrun.{try_malloc_overruns}

-- The region 100..200 with the areas 100..110 and 130..140; the second is padded by 2.
abbrev busy : LinearAlloc
busy = record {
  entries =
      record { addr = 100; padding = 0; size = 10 }
      ∷ record { addr = 130; padding = 2; size = 8 }
      ∷ [];
  start_addr = 100;
  max_size = 100;
  last_idx = 0;
  free_space = 80;
}

-- An empty region of 100 bytes from 1000 on.
abbrev high : LinearAlloc
high = record { entries = []; start_addr = 1000; max_size = 100; last_idx = 0; free_space = 100 }

busy-IsValid : IsValid busy
busy-IsValid = omega arith

-- First fit: 8 bytes, aligned to 16, go between the two areas.
busy_between : (try_malloc busy 8 16).1 ≡ some 112
unfolding try_malloc try_malloc_between find_gap place calc_padding
busy_between = refl

busy_behind : (try_malloc busy 60 1).1 ≡ some 140
unfolding try_malloc try_malloc_between find_gap place calc_padding
busy_behind = refl

busy_full : (try_malloc busy 61 1).1 ≡ none
unfolding try_malloc try_malloc_between find_gap place calc_padding
busy_full = refl

try_malloc-IsValid_example : IsValid (try_malloc busy 8 16).0
try_malloc-IsValid_example =
    try_malloc-IsValid busy 8 16 busy-IsValid (omega arith) (omega arith) (λ e. absurd (cc))

try_malloc-fresh_example :
    (112 % 16 ≡ 0) × (100 ≤ 112) × (112 + 8 ≤ 200) × All (Apart 112 8) busy.entries
unfolding try_malloc try_malloc_between find_gap place calc_padding
try_malloc-fresh_example =
    try_malloc-fresh busy 8 16 busy-IsValid (omega arith) (omega arith) 112 (λ e. absurd (cc)) refl

free-try_malloc_example : free (try_malloc busy 8 16).0 112 ≡ (busy, true)
unfolding try_malloc try_malloc_between find_gap place calc_padding
free-try_malloc_example =
    free-try_malloc busy 8 16 112 busy-IsValid (omega arith) (omega arith) refl (omega arith)
      (λ e. absurd (cc)) refl

try_malloc-none_iff_example : ((try_malloc busy 61 1).1 ≡ none) ↔ NoGap 61 1 100 200 busy.entries
try_malloc-none_iff_example =
    try_malloc-none_iff busy 61 1 busy-IsValid (omega arith) (omega arith) (omega arith)

-- Another thread frees the area at 132 in the first pause, and does nothing after that.
abbrev helper : ℕ → LinearAlloc → LinearAlloc
helper zero b = (free b 132).0
helper (suc k) b = b

free-region :
    (b : LinearAlloc) (addr : ℕ)
    → ((free b addr).0.start_addr ≡ b.start_addr) × ((free b addr).0.max_size ≡ b.max_size)
unfolding free release
free-region b addr = ground arith

helper-IsFair : IsFair helper
helper-IsFair = record {
  valid = λ k b v. at k b v;
  start = λ k b. start_at k b;
  size = λ k b. size_at k b;
}
  where
    at : (k : ℕ) (b : LinearAlloc) → IsValid b → IsValid (helper k b)
    at zero b v = free-IsValid b 132 v
    at (suc k) b v = v

    start_at : (k : ℕ) (b : LinearAlloc) → (helper k b).start_addr ≡ b.start_addr
    start_at zero b = (free-region b 132).0
    start_at (suc k) b = refl

    size_at : (k : ℕ) (b : LinearAlloc) → (helper k b).max_size ≡ b.max_size
    size_at zero b = (free-region b 132).1
    size_at (suc k) b = refl

try_malloc_overruns_example :
    (addr : ℕ) × ((try_malloc high 1100 1).1 ≡ some addr) × (1100 < addr + 1100)
unfolding calc_padding
try_malloc_overruns_example =
    try_malloc_overruns high 1100 1 refl (omega arith) (omega arith) (omega arith)
