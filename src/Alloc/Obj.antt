-- ===== src/Alloc/Obj.antt =====
-- `ObjAlloc` of src/lamellar_alloc.rs: a stack of the addresses of free slots for objects of one type.
-- Each operation runs under the lock of `free_entries`, so it is one step on the state; the
-- outer `none` is a failed assertion. `malloc` is the same loop as that of `LinearAlloc`.
pub mod Slots
pub mod Clients
pub mod Limits
mod Tests
use lamellar_runtime.Prelude.{
  ℕ, zero, suc, ◌+◌, ◌-◌, ◌*◌, ◌/◌, ◌%◌, ◌^◌, ◌≤◌, ◌<◌, min, max, ◌≡◌, refl, sym, ap, ◌∙◌, subst,
  ◌≢◌, ◌↔◌, ◌⊎◌, inl, inr, Bool, true, false, ◌&&◌, ◌||◌, not, Option, none, some, List, [], ◌∷◌,
  ◌++◌, map, set, remove_at, All-remove_at, arith, dec_lt, dec_le, ℕ_discrete, ltb, leb, ◌==◌,
  if◌then◌else◌, ltb→lt, lt→ltb, le→ltb, leb→le, le→leb, leb→lt, eq→==, ==→eq, ne→==, Bool-cases,
  Option-cases, is_some, length, get_elem?, insert_at, pop_last, All, All-imp, pop_last-append,
  length-append, length-set, All-get_elem?, All-set, total, total-set, get_elem?-le-total,
  total-two, total-le-length, total-eq-zero, total_mono, total-witness, usize_mod, add_usize,
  sub_usize, mul_usize, mul_le, mul_lt,
}
use lamellar_runtime.Alloc.{calc_padding}

pub record ObjAlloc : Type 0 where
  pub free_entries : List ℕ
  pub start_addr : ℕ
  pub max_size : ℕ

-- `size_of` and `align_of` of the type of the objects.
pub record Layout : Type 0 where
  pub size_of : ℕ
  pub align_of : ℕ

unfoldable pub new : ObjAlloc
new = record { free_entries = []; start_addr = 0; max_size = 0 }

-- `(i..end).step_by(step).collect()`, with fuel: the length of the range is enough.
unfoldable pub step_by : ℕ → ℕ → ℕ → ℕ → List ℕ
step_by zero i end step = []
step_by (suc fuel) i end step =
    let rest = step_by fuel (i + step) end step in if ltb i end then i ∷ rest else []

unfoldable pub init : Layout → ObjAlloc → ℕ → ℕ → ObjAlloc
unfolding step_by
init t a start_addr size =
    let first = add_usize start_addr (calc_padding start_addr t.align_of) in
    let end = add_usize start_addr size in
    record a {
      start_addr = first;
      max_size = size;
      free_entries = step_by (end - first) first end t.size_of;
    }

unfoldable pub try_malloc : ObjAlloc → ℕ → Option (ObjAlloc × Option ℕ)
try_malloc a size =
    if size == 1
    then (elim (pop_last a.free_entries) [
      | none ↦ some (a, none)
      | some (addr, rest) ↦ some (record a { free_entries = rest }, some addr)
    ])
    else none

unfoldable pub fake_malloc : ObjAlloc → ℕ → Option Bool
fake_malloc a size = if size == 1 then some (ltb 1 (length a.free_entries)) else none

-- The outcome is always `Ok(())`.
unfoldable pub free : ObjAlloc → ℕ → ObjAlloc
free a addr = record a { free_entries = a.free_entries ++ addr ∷ [] }

unfoldable pub space_avail : ObjAlloc → ℕ
space_avail a = length a.free_entries

unfoldable pub occupied : ObjAlloc → ℕ
unfolding space_avail
occupied a = sub_usize a.max_size (space_avail a)
