-- ===== src/Array/Iter/Skipped.antt =====
-- Which elements of a PE `Skip` visits.
use lamellar_runtime.Prelude.{ℕ, suc, ◌+◌, ◌-◌, min, ◌≡◌, Option, add_usize}
use lamellar_runtime.Array.Iter.{DistributedIterator, DistIter, dist_iter, Skip, skip_iter, collect}
use lamellar_runtime.Array.Iter.Chosen.{chosen, IsIndex, is_behind}

module _ (max_i : ℕ) (index : ℕ → Option ℕ) (v : IsIndex max_i index) (count : ℕ) where
  abbrev d : DistributedIterator DistIter ℕ
  d = dist_iter max_i index

  abbrev skipping : ℕ → ℕ → ℕ → Skip DistIter
  skipping cur_i end_i k = record {
    iter = record { cur_i = cur_i; end_i = end_i };
    count = count;
    skip_index = k;
  }

  module _ (it : DistIter) (old start_i len : ℕ) where
    abbrev fresh : Skip DistIter
    fresh = record { iter = it; count = count; skip_index = old }

    abbrev end_at : ℕ
    end_at = min (add_usize start_i len) max_i

    -- What is to be proved, for the cases of where the loop stops.
    abbrev Complete : Type 0
    Complete =
        collect (suc (min (start_i + len) max_i - start_i)) (skip_iter d)
          ((skip_iter d).init fresh start_i len)
        ≡ chosen (λ j. is_behind count (index j)) start_i (min (start_i + len) max_i - start_i)
