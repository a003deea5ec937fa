-- ===== src/Alloc/BTree/Attempt.antt =====
-- What `try_malloc` of `BTreeAlloc` promises.
use lamellar_runtime.Prelude.{
  ℕ, ◌+◌, ◌^◌, ◌<◌, ◌≡◌, refl, sym, ap, ◌∙◌, subst, ◌⊎◌, inl, inr, Option, none, some, List, [],
  ◌∷◌, set, arith, Option-cases, total,
}
use lamellar_runtime.Alloc.BTree.{next_from, FreeEntries}
use lamellar_runtime.Alloc.BTree.Sizes.{listed, NonEmpty}
use lamellar_runtime.Alloc.{calc_padding}
use lamellar_runtime.Alloc.BTree.{
  upper_size, take_area, BTreeAlloc, hand_out, finish, try_malloc, merge,
}
use lamellar_runtime.Alloc.BTree.Take.{spaces, IsRequest, take_area-Took}
use lamellar_runtime.Alloc.BTree.Heap.{IsHeap, IsFresh, hand_out-IsFresh, hand_out-IsHeap}
use lamellar_runtime.Alloc.BTree.Merge.{Merged, merge-Merged, merge-full}

spaces_small : (b : BTreeAlloc) → IsHeap b → spaces b.free_entries.addrs < 2 ^ 62
spaces_small b v = omega (arith, v.space, v.small)

Merged-IsHeap :
    (b : BTreeAlloc) (f : FreeEntries)
    → IsHeap b
    → Merged b.free_entries f
    → IsHeap (record b { free_entries = f })
Merged-IsHeap b f v m = record {
  free = m.valid;
  filled = m.filled;
  blocks = v.blocks;
  covered = λ x. omega (arith, v.covered x, m.covers x);
  counted = v.counted ∙ sym m.space;
  space = omega (arith, v.space, m.space);
  small = v.small;
}

Merged-IsFresh :
    (b : BTreeAlloc) (f : FreeEntries) (size align addr : ℕ)
    → Merged b.free_entries f
    → IsFresh size align (record b { free_entries = f }) addr
    → IsFresh size align b addr
Merged-IsFresh b f size align addr m t = record {
  aligned = t.aligned;
  was_free = λ x ge lt. sym (m.covers x) ∙ t.was_free x ge lt;
  not_held = t.not_held;
  inside = t.inside;
}

module _ (size align : ℕ) (ok : IsRequest size align) where
  -- The attempt on a heap in which a size is large enough.
  finish-IsFresh :
      (b : BTreeAlloc) (k : ℕ) (set : List ℕ)
      → IsHeap b
      → next_from (upper_size size align) b.free_entries.sizes ≡ some (k, set)
      → (addr : ℕ) × (b' : BTreeAlloc) × (finish size align b
            (take_area size align k set b.free_entries)
          ≡ some (some addr, b'))
        × IsFresh size align b addr
        × IsHeap b'
  finish-IsFresh b k set v q =
      let (a, f, r, t, low) = take_area-Took b.free_entries size align k set v.free v.filled ok q in
      let (same, heap) = hand_out-IsHeap size align ok b v a f t low in
      let out : BTreeAlloc = (hand_out size align a (record b { free_entries = f })).1 in
      (
        a + calc_padding a align,
        out,
        ap (finish size align b) r ∙ ap (λ z. some (z, out)) same,
        hand_out-IsFresh size align ok b v a f t low,
        heap,
      )

  module _ (wait : BTreeAlloc → BTreeAlloc) (b : BTreeAlloc) (v : IsHeap b) where
    at_once :
        (k : ℕ) (set : List ℕ)
        → next_from (upper_size size align) b.free_entries.sizes ≡ some (k, set)
        → (addr : ℕ) × (b' : BTreeAlloc) × (try_malloc wait size align b ≡ some (some addr, b'))
          × IsFresh size align b addr
          × IsHeap b'
    unfolding try_malloc
    at_once k set q =
        let (addr, b', r, fresh, heap) = finish-IsFresh b k set v q in
        (addr, b', simp (try_malloc, q) r, fresh, heap)

    abbrev Outcome : Type 0
    Outcome =
        (r : Option ℕ) × (b' : BTreeAlloc) × (try_malloc wait size align b ≡ some (r, b'))
        × IsHeap b'
        × ((addr : ℕ)
            → r ≡ some addr
            → IsFresh size align b addr ⊎ IsFresh size align (wait b) addr)

    -- From a valid heap, for a request that is not empty and does not wrap, when the heap is valid after the wait and
    -- has a free byte then, `try_malloc` does not panic, leaves a valid heap, and an address that it gives is aligned
    -- and begins a block of the region whose bytes were free, and in no other block, before the wait or after it.
    pub try_malloc_keeps :
        IsHeap (wait b)
        → 0 < spaces (wait b).free_entries.addrs
        → (r : Option ℕ) × (b' : BTreeAlloc) × (try_malloc wait size align b ≡ some (r, b'))
          × IsHeap b'
          × ((addr : ℕ)
              → r ≡ some addr
              → IsFresh size align b addr ⊎ IsFresh size align (wait b) addr)
    unfolding try_malloc
    try_malloc_keeps w pos =
        by_fit (Option-cases (next_from (upper_size size align) b.free_entries.sizes))
      where
        inj : {x y : ℕ} → some x ≡ some y → x ≡ y
        inj e = cc

        by_second :
            next_from (upper_size size align) b.free_entries.sizes ≡ none
            → (f : FreeEntries) → merge (wait b).free_entries ≡ some f
            → Merged (wait b).free_entries f
            → (next_from (upper_size size align) f.sizes ≡ none)
              ⊎ ((x : ℕ × List ℕ) × (next_from (upper_size size align) f.sizes ≡ some x))
            → Outcome
        by_second q f m kept (inl n) = (
          none,
          record (wait b) { free_entries = f },
          simp (try_malloc, q, m, n) refl,
          Merged-IsHeap (wait b) f w kept,
          λ addr e. absurd (cc),
        )
        by_second q f m kept (inr ((k, set), n)) =
            let (addr, b', r, fresh, heap) =
              finish-IsFresh (record (wait b) { free_entries = f }) k set
                (Merged-IsHeap (wait b) f w kept) n in
            (
              some addr,
              b',
              simp (try_malloc, q, m, n) r,
              heap,
              λ addr' e. inr (
                  subst (λ z. IsFresh size align (wait b) z) (inj e)
                    (Merged-IsFresh (wait b) f size align addr kept fresh)),
            )

        by_fit :
            (next_from (upper_size size align) b.free_entries.sizes ≡ none)
              ⊎ ((x : ℕ × List ℕ) × (next_from (upper_size size align) b.free_entries.sizes
                    ≡ some x))
            → Outcome
        by_fit (inr ((k, set), q)) =
            let (addr, b', r, fresh, heap) = at_once k set q in
            (
              some addr,
              b',
              r,
              heap,
              λ addr' e. inl (subst (λ z. IsFresh size align b z) (inj e) fresh),
            )
        by_fit (inl q) =
            let (f, m, kept) =
              merge-Merged (wait b).free_entries w.free w.filled pos
                (omega (arith, spaces_small (wait b) w)) in
            by_second q f m kept (Option-cases (next_from (upper_size size align) f.sizes))

-- On a heap in which nothing is free, and stays so while it waits, `try_malloc` panics for every request.
pub try_malloc_full_panics :
    (size align : ℕ) (b : BTreeAlloc)
    → IsHeap b
    → b.free_entries.addrs ≡ []
    → try_malloc (λ c. c) size align b ≡ none
unfolding try_malloc
try_malloc_full_panics size align b v e =
    simp
      (
        try_malloc,
        no_size b.free_entries.sizes v.filled (v.free.agree (λ a s. 1) ∙ ap (total (λ x. 1)) e),
        full,
      )
      refl
  where
    no_size :
        (es : List (ℕ × List ℕ))
        → NonEmpty es
        → listed (λ a s. 1) es ≡ 0
        → next_from (upper_size size align) es ≡ none
    no_size [] h z = refl
    no_size ((k, []) ∷ es) h z = absurd (h.0 refl)
    no_size ((k, x ∷ xs) ∷ es) h z = absurd (omega (arith, z))

    full : merge b.free_entries ≡ none
    full = rw e (merge-full b.free_entries.sizes)
