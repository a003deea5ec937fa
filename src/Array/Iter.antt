-- ===== src/Array/Iter.antt =====
-- `DistIter`, `Take` and `Skip` of src/array/iterator: the distributed iterators, on one PE. An item is named by its
-- local index.
pub mod Chosen
mod Seek
pub mod Skipped
pub mod Indexes
mod Tests
use lamellar_runtime.Prelude.{
  ℕ, zero, suc, ◌+◌, ◌-◌, ◌*◌, ◌/◌, ◌%◌, ◌^◌, ◌≤◌, ◌<◌, min, max, ◌≡◌, refl, sym, ap, ◌∙◌, subst,
  ◌≢◌, ◌↔◌, ◌⊎◌, inl, inr, Bool, true, false, ◌&&◌, ◌||◌, not, Option, none, some, List, [], ◌∷◌,
  ◌++◌, map, set, remove_at, All-remove_at, total-remove_at, total-append, total-pop_last, arith,
  dec_lt, dec_le, ℕ_discrete, ltb, leb, ◌==◌, if◌then◌else◌, ltb→lt, lt→ltb, le→ltb, leb→le, le→leb,
  leb→lt, eq→==, ==→eq, ne→==, Bool-cases, Option-cases, is_some, length, get_elem?, insert_at,
  pop_last, All, All-imp, pop_last-append, length-append, length-set, All-get_elem?, All-set, total,
  total-set, get_elem?-le-total, total-two, total-le-length, total-eq-zero, total_mono, total-one,
  pop_last-none, update, insert_key, remove_key, keyed, total-insert_key, All-insert_key, Taken,
  remove_key-some, take, total-witness, usize_mod, add_usize, sub_usize, mul_usize, mul_le, mul_lt,
  All-append, total-map, All-map, total-take-set, and_right, All-both, keyed-All, remove_key-none,
  All-pop_last,
}

-- The operations of the traits `DistributedIterator` and `IndexedDistributedIterator`.
pub record DistributedIterator (S : Type 0) (Item : Type 0) : Type 0 where
  pub init : S → ℕ → ℕ → S
  pub next : S → Option Item × S
  pub elems : S → ℕ → ℕ
  pub advance_index : S → ℕ → S
  pub iterator_index : S → ℕ → Option ℕ

pub record DistIter : Type 0 where
  pub cur_i : ℕ
  pub end_i : ℕ

-- Of an array with `max_i` elements on this PE, whose `subarray_index_from_local(i, 1)` is given.
unfoldable pub dist_iter : ℕ → (ℕ → Option ℕ) → DistributedIterator DistIter ℕ
dist_iter max_i subarray_index = record {
  init = λ s start_i cnt. record {
    cur_i = min start_i max_i;
    end_i = min (add_usize start_i cnt) max_i;
  };
  next = λ s.
      if ltb s.cur_i s.end_i then (some s.cur_i, record s { cur_i = s.cur_i + 1 }) else (none, s);
  elems = λ s in_elems. in_elems;
  advance_index = λ s count. record s { cur_i = min (add_usize s.cur_i count) s.end_i };
  iterator_index = λ s index. subarray_index index;
}

pub record Take (S : Type 0) : Type 0 where
  pub iter : S
  pub count : ℕ
  pub cur_index : ℕ

-- `iterator_index` of `Take`.
abbrev pub below_count : ℕ → Option ℕ → Option ℕ
below_count count none = none
below_count count (some g_index) = if ltb g_index count then some g_index else none

unfoldable pub take_iter :
    {S Item : Type 0} → DistributedIterator S Item → DistributedIterator (Take S) Item
take_iter d = record {
  init = λ s start_i len. record {
    iter = d.init s.iter start_i len;
    count = s.count;
    cur_index = start_i;
  };
  next = λ s. elim (below_count s.count (d.iterator_index s.iter s.cur_index)) [
    | none ↦ (none, s)
    | some i ↦
        if ltb i s.count
        then ((d.next s.iter).0, record s { iter = (d.next s.iter).1; cur_index = s.cur_index + 1 })
        else (none, s)
  ];
  elems = λ s in_elems. max 0 (d.elems s.iter in_elems);
  advance_index = λ s count. record s {
    iter = d.advance_index s.iter count;
    cur_index = add_usize s.cur_index count;
  };
  iterator_index = λ s index. below_count s.count (d.iterator_index s.iter index);
}

pub record Skip (S : Type 0) : Type 0 where
  pub iter : S
  pub count : ℕ
  pub skip_index : ℕ

-- The loop of `Skip::init`: where it stops, and whether it found an element that is not skipped.
unfoldable pub seek : ℕ → (ℕ → Option ℕ) → ℕ → ℕ → ℕ → ℕ × Bool
seek zero index count skip_index iterator_index = (skip_index, true)
seek (suc fuel) index count skip_index iterator_index =
    if leb count iterator_index then (skip_index, true) else elim (index (skip_index + 1)) [
      | none ↦ (skip_index + 1, false)
      | some i ↦ seek fuel index count (skip_index + 1) i
    ]

-- The index rises with each round, so `count` rounds reach `count`.
unfoldable pub skip_init : {S Item : Type 0} → DistributedIterator S Item → Skip S → ℕ → ℕ → Skip S
skip_init d s in_start_i len =
    let iter = d.init s.iter in_start_i len in
    elim (d.iterator_index iter in_start_i) [
      | none ↦ record { iter = d.advance_index iter len; count = s.count; skip_index = in_start_i }
      | some i ↦
          let (skip_index, found) =
            seek (suc s.count) (d.iterator_index iter) s.count in_start_i i in
          if found
          then record {
            iter = d.advance_index iter (sub_usize skip_index in_start_i);
            count = s.count;
            skip_index = sub_usize skip_index in_start_i;
          }
          else record { iter = d.advance_index iter len; count = s.count; skip_index = skip_index }
    ]

unfoldable pub skip_iter :
    {S Item : Type 0} → DistributedIterator S Item → DistributedIterator (Skip S) Item
skip_iter d = record {
  init = skip_init d;
  next = λ s. ((d.next s.iter).0, record s { iter = (d.next s.iter).1 });
  elems = λ s in_elems. max 0 (d.elems s.iter in_elems);
  advance_index = λ s count. record s { iter = d.advance_index s.iter count };
  iterator_index = λ s index. elim (d.iterator_index s.iter (add_usize index s.skip_index)) [
    | none ↦ none
    | some i ↦ if leb s.count i then some (i - s.count) else none
  ];
}

-- The items that an iterator gives until it is done, in the order in which it gives them.
unfoldable pub collect : {S Item : Type 0} → ℕ → DistributedIterator S Item → S → List Item
collect zero d s = []
collect (suc fuel) d s =
    let rest = collect fuel d (d.next s).1 in elim (d.next s).0 [ none ↦ [] | some x ↦ x ∷ rest ]
