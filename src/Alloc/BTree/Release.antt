-- ===== src/Alloc/BTree/Release.antt =====
-- What `free` of `BTreeAlloc` does.
use lamellar_runtime.Prelude.{
  ℕ, ◌+◌, ◌-◌, ◌^◌, ◌≤◌, ◌<◌, ◌≡◌, refl, sym, ◌∙◌, inl, inr, none, some, List, arith, ◌==◌,
  if◌then◌else◌, eq→==, Option-cases, remove_key, keyed, remove_key-some, add_usize, sub_usize,
}
use lamellar_runtime.Alloc.BTree.{BTreeAlloc, free, join_before, join_after, enter}
use lamellar_runtime.Alloc.BTree.Areas.{cov, cover}
use lamellar_runtime.Alloc.BTree.Take.{spaces}
use lamellar_runtime.Alloc.BTree.Heap.{IsHeap}
use lamellar_runtime.Alloc.BTree.Joins.{join_before-Joined, join_after-Joined, enter-IsFree}

module _ (b : BTreeAlloc) (v : IsHeap b) (addr : ℕ) where
  -- On a valid heap `free` refuses an address that no block begins at.
  free-unknown : keyed addr b.allocated_addrs ≡ 0 → free addr b ≡ none
  unfolding free
  free-unknown z = elim (Option-cases (remove_key addr b.allocated_addrs)) [
    | inl q ↦ simp (free, q) refl
    | inr ((e, rest), q) ↦
        let self : ◌≡◌ {A = ℕ} (if addr == addr then 1 else 0) 1 = rw (eq→== addr addr refl) refl in
        absurd (
          omega (
            arith,
            z,
            self,
            (remove_key-some {0, 0} (λ e. Unit) addr e b.allocated_addrs rest q).0
                (λ e. if e.0 == addr then 1 else 0),
          ))
  ]

  -- On a valid heap `free` takes back a block that begins at the address: the heap is valid afterwards, the block and
  -- its padding are free and no bytes else, and the block is no longer allocated.
  pub free_keeps :
      (size padding : ℕ) (rest : List (ℕ × (ℕ × ℕ)))
      → remove_key addr b.allocated_addrs ≡ some ((size, padding), rest)
      → (b' : BTreeAlloc) × (free addr b ≡ some b')
        × IsHeap b'
        × ((x : ℕ)
            → cover x b'.free_entries.addrs
              ≡ cover x b.free_entries.addrs + cov x (addr - padding) (padding + size))
        × (b'.allocated_addrs ≡ rest)
  unfolding free
  free_keeps size padding rest q =
      let (sum, kept) =
        remove_key-some (λ e. (0 < e.1.0) × (e.1.1 ≤ e.0)) addr (size, padding) b.allocated_addrs
          rest q in
      let ((pos, padded), blocks) = kept v.blocks in
      let block = sum (λ e. e.1.1 + e.1.0) in
      let full : add_usize size padding ≡ padding + size = omega (arith, block, v.space, v.small) in
      let in_region : (x : ℕ) → cov x b.start_addr b.max_size ≤ 1 = λ x. ground arith in
      let room : (x : ℕ)
          → cover x b.free_entries.addrs + cov x (addr - padding) (padding + size) ≤ 1 =
        λ x.
          omega (arith, v.covered x, in_region x, sum (λ e. cov x (e.0 - e.1.1) (e.1.1 + e.1.0))) in
      let last : cov (addr - padding + (padding + size) - 1) (addr - padding) (padding + size) ≡ 1 =
        ground (arith, pos) in
      let inside : cov (addr - padding + (padding + size) - 1) b.start_addr b.max_size ≡ 1 = omega (
        arith,
        last,
        v.covered (addr - padding + (padding + size) - 1),
        in_region (addr - padding + (padding + size) - 1),
        sum (λ e. cov (addr - padding + (padding + size) - 1) (e.0 - e.1.1) (e.1.1 + e.1.0)),
      ) in
      let low : (addr - padding) + (padding + size) < 2 ^ 63 =
        ground (arith, inside, v.small, pos) in
      let unpadded : sub_usize addr padding ≡ addr - padding = omega (arith, padded, low) in
      let (d, others) =
        join_before-Joined b.free_entries v.free v.filled addr padding (padding + size) padded
          (omega (arith, pos)) low room in
      let d' =
        join_after-Joined b.free_entries (addr - padding) (padding + size) addr
          (join_before addr (addr - padding) (padding + size) b.free_entries) v.free d others in
      let (valid, filled, covers, space) =
        enter-IsFree b.free_entries (addr - padding) (padding + size)
          (join_after addr b.free_entries
            (join_before addr (addr - padding) (padding + size) b.free_entries))
          d' room in
      let more : add_usize b.free_space (padding + size)
          ≡ spaces b.free_entries.addrs + (padding + size) =
        omega (arith, v.counted, v.space, block, v.small) in
      (
        record b {
          free_entries = enter (
              join_after addr b.free_entries
                (join_before addr (addr - padding) (padding + size) b.free_entries));
          allocated_addrs = rest;
          free_space = add_usize b.free_space (padding + size);
        },
        simp (free, q, full, unpadded) refl,
        record {
          free = valid;
          filled = filled;
          blocks = blocks;
          covered = λ x.
              omega (arith, v.covered x, covers x, sum (λ e. cov x (e.0 - e.1.1) (e.1.1 + e.1.0)));
          counted = more ∙ sym space;
          space = omega (arith, v.space, space, block);
          small = v.small;
        },
        covers,
        refl,
      )
