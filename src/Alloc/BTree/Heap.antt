-- ===== src/Alloc/BTree/Heap.antt =====
-- What holds of a `BTreeAlloc`, and what `try_malloc` keeps of it.
use lamellar_runtime.Prelude.{
  ℕ, ◌+◌, ◌-◌, ◌%◌, ◌^◌, ◌≤◌, ◌<◌, ◌≡◌, refl, Option, some, List, [], ◌∷◌, arith, ◌==◌,
  if◌then◌else◌, All, total, keyed, add_usize, sub_usize,
}
use lamellar_runtime.Alloc.BTree.{FreeEntries}
use lamellar_runtime.Alloc.BTree.Keys.{total-insert_sorted, All-insert_sorted}
use lamellar_runtime.Alloc.BTree.Sizes.{NonEmpty}
use lamellar_runtime.Alloc.{calc_padding}
use lamellar_runtime.Alloc.Padding.{calc_padding-lt, calc_padding-aligned}
use lamellar_runtime.Alloc.BTree.{BTreeAlloc, new, init, hand_out}
use lamellar_runtime.Alloc.BTree.Areas.{cov, cover, IsFree}
use lamellar_runtime.Alloc.BTree.Take.{spaces, Took, IsRequest}

-- How often byte `x` is in an allocated block or the padding before it.
abbrev pub held : ℕ → List (ℕ × (ℕ × ℕ)) → ℕ
held x es = total (λ e. cov x (e.0 - e.1.1) (e.1.1 + e.1.0)) es

-- The bytes of the blocks, with their padding.
abbrev pub taken : List (ℕ × (ℕ × ℕ)) → ℕ
taken es = total (λ e. e.1.1 + e.1.0) es

-- Each byte of the heap is in one free area or in one block, once, and none outside is.
pub record IsHeap (b : BTreeAlloc) : Type 0 where
  pub free : IsFree b.free_entries
  pub filled : NonEmpty b.free_entries.sizes
  pub blocks : All (λ e. (0 < e.1.0) × (e.1.1 ≤ e.0)) b.allocated_addrs
  pub covered :
      (x : ℕ)
      → cover x b.free_entries.addrs + held x b.allocated_addrs ≡ cov x b.start_addr b.max_size
  pub counted : b.free_space ≡ spaces b.free_entries.addrs
  pub space : spaces b.free_entries.addrs + taken b.allocated_addrs ≡ b.max_size
  pub small : b.start_addr + b.max_size < 2 ^ 62

-- `init` of a new allocator.
pub init-IsHeap :
    (start_addr size : ℕ)
    → 0 < size
    → start_addr + size < 2 ^ 62
    → IsHeap (init new start_addr size)
unfolding init new
init-IsHeap start_addr size pos small = record {
  free = record {
    sorted = (omega arith, tt);
    agree = λ w. omega arith;
    plain = ((pos, refl, omega arith), tt);
    apart = λ x. ground arith;
  };
  filled = ((λ e. absurd (cc)), tt);
  blocks = tt;
  covered = λ x. omega arith;
  counted = omega arith;
  space = omega arith;
  small = small;
}

keyed-le-held :
    (a : ℕ) (es : List (ℕ × (ℕ × ℕ)))
    → All (λ e. (0 < e.1.0) × (e.1.1 ≤ e.0)) es
    → keyed a es ≤ held a es
keyed-le-held a [] h = omega arith
keyed-le-held a (e ∷ es) h =
    let one : (if e.0 == a then 1 else 0) ≤ cov a (e.0 - e.1.1) (e.1.1 + e.1.0) =
      ground (arith, h.0) in
    omega (arith, one, keyed-le-held a es h.1)

-- What `try_malloc` promises of a block at `addr`: it is aligned, and its bytes were free.
pub record IsFresh (size align : ℕ) (b : BTreeAlloc) (addr : ℕ) : Type 0 where
  pub aligned : addr % align ≡ 0
  pub was_free : (x : ℕ) → addr ≤ x → x < addr + size → cover x b.free_entries.addrs ≡ 1
  pub not_held : (x : ℕ) → addr ≤ x → x < addr + size → held x b.allocated_addrs ≡ 0
  pub inside : (b.start_addr ≤ addr) × (addr + size ≤ b.start_addr + b.max_size)

module _ (size align : ℕ) (ok : IsRequest size align) (b : BTreeAlloc) (v : IsHeap b) (a : ℕ)
    (f : FreeEntries) (t : Took b.free_entries a (size + calc_padding a align) f)
    (low : a + size + calc_padding a align < 2 ^ 63) where
  abbrev handed : Option ℕ × BTreeAlloc
  handed = hand_out size align a (record b { free_entries = f })

  abbrev addr : ℕ
  addr = a + calc_padding a align

  block_free :
      (x : ℕ)
      → addr ≤ x
      → x < addr + size
      → (cover x b.free_entries.addrs ≡ 1)
        × (held x b.allocated_addrs ≡ 0)
        × (cov x b.start_addr b.max_size ≡ 1)
  block_free x ge lt =
      let one : cov x a (size + calc_padding a align) ≡ 1 = ground arith in
      let le : cov x b.start_addr b.max_size ≤ 1 = ground arith in
      let all : cover x b.free_entries.addrs ≡ 1 = omega (arith, one, t.covers x, v.free.apart x) in
      (all, omega (arith, all, v.covered x, le), omega (arith, all, v.covered x, le))

  pub hand_out-IsFresh : IsFresh size align b addr
  hand_out-IsFresh =
      let first = (block_free addr (omega arith) (omega (arith, ok.some_size))).2 in
      let last =
        (block_free (addr + size - 1) (omega (arith, ok.some_size))
          (omega (arith, ok.some_size))).2 in
      record {
        aligned = calc_padding-aligned a align ok.some_align;
        was_free = λ x ge lt. (block_free x ge lt).0;
        not_held = λ x ge lt. (block_free x ge lt).1;
        inside = (ground (arith, first), ground (arith, last, ok.some_size));
      }

  pub hand_out-IsHeap : (handed.0 ≡ some addr) × IsHeap handed.1
  unfolding hand_out
  hand_out-IsHeap =
      let short = calc_padding-lt a align ok.some_align in
      let e : add_usize a (calc_padding a align) ≡ addr = omega (arith, low) in
      let e' : add_usize size (calc_padding a align) ≡ size + calc_padding a align =
        omega (arith, short, ok.small) in
      let enough : sub_usize b.free_space (size + calc_padding a align) ≡ spaces f.addrs =
        omega (arith, v.counted, t.space, v.space, v.small) in
      let fresh : keyed addr b.allocated_addrs ≡ 0 = omega (
        arith,
        keyed-le-held addr b.allocated_addrs v.blocks,
        (block_free addr (omega arith) (omega (arith, ok.some_size))).1,
      ) in
      let back : (x : ℕ)
          → cov x (addr - calc_padding a align) (calc_padding a align + size)
            ≡ cov x a (size + calc_padding a align) =
        λ x. ground arith in
      rw (e, e', enough)
        (
          refl,
          record {
            free = t.valid;
            filled = t.filled;
            blocks =
                All-insert_sorted (λ e. (0 < e.1.0) × (e.1.1 ≤ e.0)) addr
                  (size, calc_padding a align) b.allocated_addrs (ok.some_size, omega arith)
                  v.blocks;
            covered = λ x. omega (
              arith,
              v.covered x,
              t.covers x,
              back x,
              total-insert_sorted (λ e. cov x (e.0 - e.1.1) (e.1.1 + e.1.0)) addr
                  (size, calc_padding a align) b.allocated_addrs fresh,
            );
            counted = refl;
            space = omega (
              arith,
              v.space,
              t.space,
              total-insert_sorted (λ e. e.1.1 + e.1.0) addr (size, calc_padding a align)
                  b.allocated_addrs fresh,
            );
            small = v.small;
          },
        )
