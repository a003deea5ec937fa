-- ===== src/Alloc/BTree.antt =====
-- `FreeEntries` and `BTreeAlloc` of src/lamellar_alloc.rs. A `BTreeMap` is a list of entries in the order of their keys,
-- an `IndexSet` a list without repetitions. A panic is `none`. Each operation is
-- one step, though the source holds the locks of the two records of the heap one after the other.
mod Keys
mod Sizes
mod Areas
mod Emptied
mod Take
pub mod Heap
mod Merge
pub mod Attempt
mod Joins
pub mod Release
mod Tests
use lamellar_runtime.Prelude.{
  ℕ, zero, suc, ◌+◌, ◌-◌, ◌*◌, ◌/◌, ◌%◌, ◌^◌, ◌≤◌, ◌<◌, min, max, ◌≡◌, refl, sym, ap, ◌∙◌, subst,
  ◌≢◌, ◌↔◌, ◌⊎◌, inl, inr, Bool, true, false, ◌&&◌, ◌||◌, not, Option, none, some, List, [], ◌∷◌,
  ◌++◌, map, set, remove_at, All-remove_at, total-remove_at, total-append, total-pop_last, arith,
  dec_lt, dec_le, ℕ_discrete, ltb, leb, ◌==◌, if◌then◌else◌, ltb→lt, lt→ltb, le→ltb, leb→le, le→leb,
  leb→lt, eq→==, ==→eq, ne→==, Bool-cases, Option-cases, is_some, length, get_elem?, insert_at,
  pop_last, All, All-imp, pop_last-append, length-append, length-set, All-get_elem?, All-set, total,
  total-set, get_elem?-le-total, total-two, total-le-length, total-eq-zero, total_mono, total-one,
  pop_last-none, update, insert_key, remove_key, keyed, total-insert_key, All-insert_key, Taken,
  remove_key-some, take, total-witness, usize_mod, add_usize, sub_usize, mul_usize, mul_le, mul_lt,
  All-append, total-map, All-map, total-take-set, and_right, All-both, keyed-All, remove_key-none,
  All-pop_last,
}
use lamellar_runtime.Alloc.{calc_padding}

-- `BTreeMap::insert`
abbrev pub insert_sorted {ℓ} : {V : Type ℓ} → ℕ → V → List (ℕ × V) → List (ℕ × V)
insert_sorted k v [] = (k, v) ∷ []
insert_sorted k v (e ∷ es) =
    let rest = insert_sorted k v es in
    if e.0 == k then (k, v) ∷ es else (if ltb k e.0 then (k, v) ∷ e ∷ es else e ∷ rest)

-- `range(lo..).next()`
abbrev pub next_from {ℓ} : {V : Type ℓ} → ℕ → List (ℕ × V) → Option (ℕ × V)
next_from lo [] = none
next_from lo (e ∷ es) = let rest = next_from lo es in if leb lo e.0 then some e else rest

-- `range(..hi).next_back()`
abbrev pub last_below {ℓ} : {V : Type ℓ} → ℕ → List (ℕ × V) → Option (ℕ × V)
last_below hi [] = none
last_below hi (e ∷ es) =
    let rest = last_below hi es in
    if ltb e.0 hi then elim rest [ none ↦ some e | some x ↦ some x ] else none

-- `IndexSet::insert`
abbrev pub set_insert : ℕ → List ℕ → List ℕ
set_insert a [] = a ∷ []
set_insert a (x ∷ xs) = let rest = set_insert a xs in if x == a then x ∷ xs else x ∷ rest

-- `IndexSet::remove`, which puts the last entry in the place of the one that goes.
abbrev pub set_remove : ℕ → List ℕ → List ℕ
set_remove a [] = []
set_remove a (x ∷ xs) =
    let rest = set_remove a xs in
    if x == a then elim (pop_last xs) [ none ↦ [] | some (y, ys) ↦ y ∷ ys ] else x ∷ rest

-- `addrs` maps an address to the size and the padding of its free area, `sizes` a size to its addresses.
pub record FreeEntries : Type 0 where
  pub sizes : List (ℕ × List ℕ)
  pub addrs : List (ℕ × (ℕ × ℕ))

-- `sizes.entry(size).or_insert(IndexSet::new()).insert(addr)`
unfoldable pub insert_size : ℕ → ℕ → List (ℕ × List ℕ) → List (ℕ × List ℕ)
insert_size size addr [] = (size, addr ∷ []) ∷ []
insert_size size addr (e ∷ es) =
    let rest = insert_size size addr es in
    if e.0 == size
    then (size, set_insert addr e.1) ∷ es
    else (if ltb size e.0 then (size, addr ∷ []) ∷ e ∷ es else e ∷ rest)

-- An entry of `sizes` whose set has become smaller goes when it is empty.
abbrev pub cons_set : ℕ → List ℕ → List (ℕ × List ℕ) → List (ℕ × List ℕ)
cons_set size [] es = es
cons_set size (x ∷ xs) es = (size, x ∷ xs) ∷ es

unfoldable pub remove_size : ℕ → ℕ → List (ℕ × List ℕ) → List (ℕ × List ℕ)
remove_size addr size [] = []
remove_size addr size (e ∷ es) =
    let rest = remove_size addr size es in
    if e.0 == size then cons_set size (set_remove addr e.1) es else e ∷ rest

-- The loop of `merge`, which starts anew with the first two entries each time.
unfoldable pub merge_from : ℕ → ℕ → FreeEntries → Option FreeEntries
merge_from zero i f = some f
merge_from (suc fuel) i f =
    if ltb i (sub_usize (length f.addrs) 1)
    then elim f.addrs [
      | [] ↦ none
      | (faddr, (fsize, fpadding)) ∷ es ↦ (elim es [
        | [] ↦ none
        | (naddr, (nsize, npadding)) ∷ rest ↦
            let merged = merge_from fuel i (record {
              sizes =
                  insert_size (add_usize fsize nsize) faddr
                    (remove_size faddr fsize (remove_size naddr nsize f.sizes));
              addrs = insert_sorted faddr (add_usize fsize nsize, add_usize fpadding npadding) rest;
            }) in
            let apart = merge_from fuel (i + 1) (record {
              sizes = f.sizes;
              addrs =
                  insert_sorted naddr (nsize, npadding)
                    (insert_sorted faddr (fsize, fpadding) rest);
            }) in
            if add_usize (add_usize faddr fsize) fpadding == naddr
            then (if add_usize fpadding npadding == 0 then merged else none)
            else apart
      ])
    ]
    else some f

-- Each round takes an entry away or counts one, so there are fewer than entries.
unfoldable pub merge : FreeEntries → Option FreeEntries
merge f = merge_from (suc (length f.addrs)) 0 f

pub record BTreeAlloc : Type 0 where
  pub free_entries : FreeEntries
  pub allocated_addrs : List (ℕ × (ℕ × ℕ))
  pub start_addr : ℕ
  pub max_size : ℕ
  pub free_space : ℕ

unfoldable pub new : BTreeAlloc
new = record {
  free_entries = record { sizes = []; addrs = [] };
  allocated_addrs = [];
  start_addr = 0;
  max_size = 0;
  free_space = 0;
}

unfoldable pub init : BTreeAlloc → ℕ → ℕ → BTreeAlloc
init b start_addr size = record {
  free_entries = record {
    sizes = insert_sorted size (start_addr ∷ []) b.free_entries.sizes;
    addrs = insert_sorted start_addr (size, 0) b.free_entries.addrs;
  };
  allocated_addrs = b.allocated_addrs;
  start_addr = start_addr;
  max_size = size;
  free_space = size;
}

abbrev pub upper_size : ℕ → ℕ → ℕ
upper_size size align = sub_usize (add_usize size align) 1

-- What is left of the area of `a` behind `full_size` bytes goes back to the free entries.
unfoldable pub split : ℕ → ℕ → (ℕ × ℕ) → FreeEntries → FreeEntries
split a full_size (fsize, fpadding) f =
    let remaining = sub_usize (add_usize fsize fpadding) full_size in
    if add_usize fsize fpadding == full_size then f else record {
      sizes = insert_size remaining (add_usize a full_size) f.sizes;
      addrs = insert_sorted (add_usize a full_size) (remaining, 0) f.addrs;
    }

-- The branch of `try_malloc` that found `addrs` under `free_size`: the address, and the free entries.
unfoldable pub take_area : ℕ → ℕ → ℕ → List ℕ → FreeEntries → Option (Option ℕ × FreeEntries)
take_area size align free_size set f = elim (pop_last set) [
  | none ↦ some (
    none,
    record f { sizes = elim (remove_key free_size f.sizes) [ none ↦ f.sizes | some (s, es) ↦ es ] },
  )
  | some (a, left) ↦ (elim (remove_key a f.addrs) [
    | none ↦ none
    | some (area, addrs) ↦
        let g =
          split a (add_usize size (calc_padding a align)) area
            (record { sizes = insert_sorted free_size left f.sizes; addrs = addrs }) in
        some (
          some a,
          elim left [
            | [] ↦ record g {
              sizes = elim (remove_key free_size g.sizes) [ none ↦ g.sizes | some (s, es) ↦ es ];
            }
            | x ∷ xs ↦ g
          ],
        )
  ])
]

-- The end of `try_malloc`: the block is entered among the allocated.
unfoldable pub hand_out : ℕ → ℕ → ℕ → BTreeAlloc → Option ℕ × BTreeAlloc
hand_out size align a b =
    let padding = calc_padding a align in
    (
      some (add_usize a padding),
      record b {
        allocated_addrs = insert_sorted (add_usize a padding) (size, padding) b.allocated_addrs;
        free_space = sub_usize b.free_space (add_usize size padding);
      },
    )

abbrev pub finish :
    ℕ → ℕ → BTreeAlloc → Option (Option ℕ × FreeEntries) → Option (Option ℕ × BTreeAlloc)
finish size align b none = none
finish size align b (some (none, f)) = some (none, record b { free_entries = f })
finish size align b (some (some a, f)) =
    some (hand_out size align a (record b { free_entries = f }))

-- `wait` is what other threads do while the attempt waits for them once.
unfoldable pub try_malloc :
    (BTreeAlloc → BTreeAlloc) → ℕ → ℕ → BTreeAlloc → Option (Option ℕ × BTreeAlloc)
try_malloc wait size align b =
    let c = wait b in
    elim (next_from (upper_size size align) b.free_entries.sizes) [
      | some (free_size, set) ↦
          finish size align b (take_area size align free_size set b.free_entries)
      | none ↦ (elim (merge c.free_entries) [
        | none ↦ none
        | some f ↦ (elim (next_from (upper_size size align) f.sizes) [
          | some (free_size, set) ↦ finish size align c (take_area size align free_size set f)
          | none ↦ some (none, record c { free_entries = f })
        ])
      ])
    ]

-- `malloc` tries until it succeeds; here it has a number of attempts, and the last of them may fail.
unfoldable pub malloc :
    ℕ → (BTreeAlloc → BTreeAlloc) → ℕ → ℕ → BTreeAlloc → Option (Option ℕ × BTreeAlloc)
malloc zero wait size align b = try_malloc wait size align b
malloc (suc attempts) wait size align b = elim (try_malloc wait size align b) [
  | none ↦ none
  | some (some addr, c) ↦ some (some addr, c)
  | some (none, c) ↦ malloc attempts wait size align c
]

unfoldable pub fake_malloc : ℕ → ℕ → BTreeAlloc → Option (Bool × BTreeAlloc)
fake_malloc size align b = elim (next_from (upper_size size align) b.free_entries.sizes) [
  | some e ↦ some (true, b)
  | none ↦ (elim (merge b.free_entries) [
    | none ↦ none
    | some f ↦
        some (is_some (next_from (upper_size size align) f.sizes), record b { free_entries = f })
  ])
]

-- A neighbour of the block that is freed, to be joined with it.
abbrev pub drop_area : ℕ → ℕ → ℕ → FreeEntries → FreeEntries
drop_area raddr rsize rpadding f = record {
  sizes = remove_size raddr (add_usize rsize rpadding) f.sizes;
  addrs = elim (remove_key raddr f.addrs) [ none ↦ f.addrs | some (v, es) ↦ es ];
}

-- The area before, when it ends at `addr`: the new address and size, and the free entries without it.
unfoldable pub join_before : ℕ → ℕ → ℕ → FreeEntries → ℕ × ℕ × FreeEntries
join_before addr temp_addr temp_size f = elim (last_below temp_addr f.addrs) [
  | none ↦ (temp_addr, temp_size, f)
  | some (faddr, (fsize, fpadding)) ↦
      if add_usize (add_usize faddr fsize) fpadding == addr
      then (faddr, add_usize temp_size (add_usize fsize fpadding), drop_area faddr fsize fpadding f)
      else (temp_addr, temp_size, f)
]

-- The area behind, found before the other one is removed.
unfoldable pub join_after : ℕ → FreeEntries → ℕ × ℕ × FreeEntries → ℕ × ℕ × FreeEntries
join_after addr f (temp_addr, temp_size, g) = elim (next_from addr f.addrs) [
  | none ↦ (temp_addr, temp_size, g)
  | some (faddr, (fsize, fpadding)) ↦
      if add_usize temp_addr temp_size == faddr
      then (
        temp_addr,
        add_usize temp_size (add_usize fsize fpadding),
        drop_area faddr fsize fpadding g,
      )
      else (temp_addr, temp_size, g)
]

-- The area is entered in both maps.
unfoldable pub enter : ℕ × ℕ × FreeEntries → FreeEntries
enter (temp_addr, temp_size, f) = record {
  sizes = insert_size temp_size temp_addr f.sizes;
  addrs = insert_sorted temp_addr (temp_size, 0) f.addrs;
}

-- `none` is the error: the address is not allocated.
unfoldable pub free : ℕ → BTreeAlloc → Option BTreeAlloc
free addr b = elim (remove_key addr b.allocated_addrs) [
  | none ↦ none
  | some ((size, padding), allocated) ↦
      let full_size = add_usize size padding in
      some (record b {
        free_entries = enter (
            join_after addr b.free_entries
              (join_before addr (sub_usize addr padding) full_size b.free_entries));
        allocated_addrs = allocated;
        free_space = add_usize b.free_space full_size;
      })
]

unfoldable pub space_avail : BTreeAlloc → ℕ
space_avail b = b.free_space

unfoldable pub occupied : BTreeAlloc → ℕ
occupied b = sub_usize b.max_size b.free_space
