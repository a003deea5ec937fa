-- ===== src/Alloc/Linear/Retry.antt =====
-- `LinearAlloc::malloc`, which repeats the attempt while other threads run in between.
use lamellar_runtime.Prelude.{
  ℕ, zero, suc, ◌+◌, ◌^◌, ◌≤◌, ◌<◌, ◌≡◌, refl, ◌∙◌, inl, inr, true, arith, Option-cases, is_some,
}
use lamellar_runtime.Alloc.{calc_padding}
use lamellar_runtime.Alloc.Linear.{LinearAlloc, try_malloc, malloc}
use lamellar_runtime.Alloc.Linear.Invariant.{
  IsValid, try_malloc-IsValid, try_malloc-region, try_malloc_unchanged,
}

-- What other threads do in a pause: they keep the heap valid and leave its region alone.
pub record IsFair (others : ℕ → LinearAlloc → LinearAlloc) : Type 0 where
  pub valid : (k : ℕ) (b : LinearAlloc) → IsValid b → IsValid (others k b)
  pub start : (k : ℕ) (b : LinearAlloc) → (others k b).start_addr ≡ b.start_addr
  pub size : (k : ℕ) (b : LinearAlloc) → (others k b).max_size ≡ b.max_size

IsFair-later :
    (others : ℕ → LinearAlloc → LinearAlloc) → IsFair others → IsFair (λ k. others (suc k))
IsFair-later others fair = record {
  valid = λ k. fair.valid (suc k);
  start = λ k. fair.start (suc k);
  size = λ k. fair.size (suc k);
}

module _ (size align : ℕ) (pos : 0 < align) (fits : size + align ≤ 2 ^ 63) where
  -- `malloc` keeps a valid heap valid, however many attempts it makes, where what the other threads do
  -- between two attempts keeps it valid and its region the same, and the region can hold the request at
  -- its start; for a positive alignment and a size that together do not pass 2^63.
  pub malloc-IsValid :
      (n : ℕ) (others : ℕ → LinearAlloc → LinearAlloc) (a : LinearAlloc)
      → IsFair others
      → IsValid a
      → size + calc_padding a.start_addr align ≤ a.max_size
      → IsValid (malloc n others a size align).0
  unfolding malloc
  malloc-IsValid zero others a fair valid room = valid
  malloc-IsValid (suc n) others a fair valid room =
      elim (Option-cases (try_malloc a size align).1) [
        | inl failed ↦
            rw (failed, malloc)
              (malloc-IsValid n (λ k. others (suc k)) (others 0 t) (IsFair-later others fair)
                (fair.valid 0 t kept) (rw (same.0, same.1) room))
        | inr (addr, got) ↦ rw (got, malloc) kept
      ]
    where
      t : LinearAlloc
      t = (try_malloc a size align).0

      kept : IsValid t
      kept = try_malloc-IsValid a size align valid pos fits (λ _. room)

      same : ((others 0 t).start_addr ≡ a.start_addr) × ((others 0 t).max_size ≡ a.max_size)
      same = (
        fair.start 0 t ∙ (try_malloc-region a size align).0,
        fair.size 0 t ∙ (try_malloc-region a size align).1,
      )

-- The state that the attempt after `k` failures meets.
unfoldable pub paused : (ℕ → LinearAlloc → LinearAlloc) → LinearAlloc → ℕ → LinearAlloc
paused others a zero = a
paused others a (suc k) = paused (λ j. others (suc j)) (others 0 a) k

-- If an attempt would succeed on one of the states that the first `n` attempts meet, `malloc` returns an
-- address.
pub malloc_returns :
    (size align n k : ℕ) (others : ℕ → LinearAlloc → LinearAlloc) (a : LinearAlloc)
    → k < n
    → is_some (try_malloc (paused others a k) size align).1 ≡ true
    → is_some (malloc n others a size align).1 ≡ true
unfolding malloc paused
malloc_returns size align zero k others a below h = absurd (omega arith)
malloc_returns size align (suc n) zero others a below h = ground arith
malloc_returns size align (suc n) (suc k) others a below h =
    elim (Option-cases (try_malloc a size align).1) [
      | inl failed ↦
          rw (failed, malloc, try_malloc_unchanged a size align failed)
            (malloc_returns size align n k (λ j. others (suc j)) (others 0 a) (omega arith) h)
      | inr (addr, got) ↦ rw (got, malloc) refl
    ]
