-- ===== src/Alloc/Obj/Clients.antt =====
-- The clients of an `ObjAlloc`, which give back only what they hold.
use lamellar_runtime.Prelude.{
  ℕ, ◌+◌, ◌≤◌, ◌<◌, ◌≡◌, refl, sym, ap, ◌∙◌, ◌≢◌, ◌⊎◌, inl, inr, Option, none, some, List, [], ◌∷◌,
  remove_at, total-remove_at, total-append, total-pop_last, arith, dec_lt, ◌==◌, if◌then◌else◌,
  eq→==, get_elem?, pop_last, All-get_elem?, get_elem?-le-total, total-two, total-witness, mul_lt,
}
use lamellar_runtime.Alloc.Obj.{ObjAlloc, Layout, new, init, try_malloc, free}
use lamellar_runtime.Alloc.Obj.Slots.{count, IsRegion, slot, init-slot, init-within}

-- The allocator and the addresses that are handed out.
pub record System : Type 0 where
  pub alloc : ObjAlloc
  pub held : List ℕ

-- A client gets an address, or gives one back.
pub data Step (s : System) : System → Type 0 where
  gets :
      (a : ObjAlloc) (addr : ℕ)
      → try_malloc s.alloc 1 ≡ some (a, some addr)
      → Step s (record { alloc = a; held = addr ∷ s.held })
  gives :
      (j addr : ℕ)
      → get_elem? s.held j ≡ some addr
      → Step s (record { alloc = free s.alloc addr; held = remove_at s.held j })

pub data Reach (t : Layout) (start_addr size : ℕ) : System → Type 0 where
  begin : Reach t start_addr size (record { alloc = init t new start_addr size; held = [] })
  later : {s u : System} → Reach t start_addr size s → Step s u → Reach t start_addr size u

try_malloc-count :
    (a b : ObjAlloc) (addr x : ℕ)
    → try_malloc a 1 ≡ some (b, some addr)
    → count x b.free_entries + (if x == addr then 1 else 0) ≡ count x a.free_entries
unfolding try_malloc
try_malloc-count a b addr x e = by_pop (pop_last a.free_entries) refl
  where
    by_pop :
        (o : Option (ℕ × List ℕ))
        → pop_last a.free_entries ≡ o
        → count x b.free_entries + (if x == addr then 1 else 0) ≡ count x a.free_entries
    by_pop none q =
        let e' : ◌≡◌ {A = Option (ObjAlloc × Option ℕ)} (some (a, none)) (some (b, some addr)) =
          rw q at e in
        let zero_one : ◌≡◌ {A = ℕ} 0 1 =
          ap (λ o. elim o [ none ↦ 0 | some r ↦ elim r.1 [ none ↦ 0 | some z ↦ 1 ] ]) e' in
        absurd (omega (arith, zero_one))
    by_pop (some (y, rest)) q =
        let e' : ◌≡◌ {A = Option (ObjAlloc × Option ℕ)}
            (some (record a { free_entries = rest }, some y)) (some (b, some addr)) =
          rw q at e in
        let same : y ≡ addr =
          ap (λ o. elim o [ none ↦ 0 | some r ↦ elim r.1 [ none ↦ 0 | some z ↦ z ] ]) e' in
        let left : count x rest ≡ count x b.free_entries =
          ap (λ o. elim o [ none ↦ 0 | some r ↦ count x r.0.free_entries ]) e' in
        rw (← same) (
          omega
            (arith, left, total-pop_last (λ z. if x == z then 1 else 0) a.free_entries rest y q))

module _ (t : Layout) (start_addr size : ℕ) where
  -- An address is free or held as often as it was free at first.
  conserved :
      {s : System}
      → Reach t start_addr size s
      → (x : ℕ)
      → count x s.alloc.free_entries + count x s.held
        ≡ count x (init t new start_addr size).free_entries
  unfolding free
  conserved begin x = omega arith
  conserved (later {s = s} r (gets a addr e)) x =
      omega (arith, conserved r x, try_malloc-count s.alloc a addr x e)
  conserved (later {s = s} r (gives j addr e)) x = omega (
    arith,
    conserved r x,
    total-append (λ y. if x == y then 1 else 0) s.alloc.free_entries (addr ∷ []),
    total-remove_at (λ y. if x == y then 1 else 0) s.held j addr e,
  )

  module _ (region : IsRegion t start_addr size) {s : System} (r : Reach t start_addr size s) where
    -- In every state that the clients reach, a slot that begins in the region is either free or held, and
    -- that once.
    pub slot_once :
        (k : ℕ)
        → slot t start_addr size region k < start_addr + size
        → count (slot t start_addr size region k) s.alloc.free_entries
            + count (slot t start_addr size region k) s.held
          ≡ 1
    slot_once k inside =
        conserved r (slot t start_addr size region k)
        ∙ init-slot t start_addr size region new k inside

    held_count : (i x : ℕ) → get_elem? s.held i ≡ some x → 1 ≤ count x s.held
    held_count i x at =
        let self : ◌≡◌ {A = ℕ} (if x == x then 1 else 0) 1 = rw (eq→== x x refl) refl in
        omega (arith, self, get_elem?-le-total (λ z. if x == z then 1 else 0) s.held i x at)

    -- An address that is held is a slot that begins in the region.
    held-slot :
        (i x : ℕ)
        → get_elem? s.held i ≡ some x
        → (x < start_addr + size) × ((k : ℕ) × (x ≡ slot t start_addr size region k))
    held-slot i x at =
        let (j, y, at_j, counts) =
          total-witness (λ z. if x == z then 1 else 0) (init t new start_addr size).free_entries
            (λ z. omega (arith, z, conserved r x, held_count i x at)) in
        let same : x ≡ y = ground (arith, counts) in
        rw same (
          All-get_elem?
            (λ z. (z < start_addr + size) × ((k : ℕ) × (z ≡ slot t start_addr size region k)))
            (init t new start_addr size).free_entries j y (init-within t start_addr size region new)
            at_j)

    -- In every state that the clients reach, two addresses that are held are at least an object's size apart.
    pub held_apart :
        (i j x y : ℕ)
        → i ≢ j
        → get_elem? s.held i ≡ some x
        → get_elem? s.held j ≡ some y
        → (x + t.size_of ≤ y) ⊎ (y + t.size_of ≤ x)
    held_apart i j x y n at_i at_j =
        let (inside, (k, at_k)) = held-slot i x at_i in
        let (inside', (l, at_l)) = held-slot j y at_j in
        elim (dec_lt k l) [
          | yes below ↦ inl (omega (arith, at_k, at_l, mul_lt k l t.size_of below))
          | no le ↦ (elim (dec_lt l k) [
            | yes above ↦ inr (omega (arith, at_k, at_l, mul_lt l k t.size_of above))
            | no ge ↦
                let same_k : k ≡ l = omega arith in
                let same : x ≡ y = at_k ∙ ap (slot t start_addr size region) same_k ∙ sym at_l in
                let self : ◌≡◌ {A = ℕ} (if x == x then 1 else 0) 1 = rw (eq→== x x refl) refl in
                let other : ◌≡◌ {A = ℕ} (if x == y then 1 else 0) 1 = rw (eq→== x y same) refl in
                let once : count x s.alloc.free_entries + count x s.held ≡ 1 =
                  rw at_k (slot_once k (omega (arith, at_k, inside))) in
                absurd (
                  omega (
                    arith,
                    self,
                    other,
                    once,
                    total-two (λ z. if x == z then 1 else 0) s.held i j x y n at_i at_j,
                  ))
          ])
        ]
