-- ===== src/Alloc/Obj/Tests.antt =====
-- Slots of 8 bytes in the 21 bytes from address 4 on, of which two clients hold one each.
use lamellar_runtime.Prelude.{ℕ, ◌+◌, ◌≤◌, refl, ◌⊎◌, List, [], ◌∷◌, arith}
use lamellar_runtime.Alloc.{calc_padding}
use lamellar_runtime.Alloc.Obj.{ObjAlloc, Layout, new, step_by, init, try_malloc}
use lamellar_runtime.Alloc.Obj.Slots.{IsRegion}
use lamellar_runtime.Alloc.Obj.Clients.{System, Reach, begin, later, gets, held_apart}

abbrev word : Layout
word = record { size_of = 8; align_of = 8 }

region : IsRegion word 4 21
region = record { some_size = omega arith; some_align = omega arith; small = omega arith }

abbrev left : List ℕ → ObjAlloc
left free_entries = record { free_entries = free_entries; start_addr = 8; max_size = 21 }

abbrev shared : System
shared = record { alloc = left (8 ∷ []); held = 16 ∷ 24 ∷ [] }

shared-Reach : Reach word 4 21 shared
unfolding init step_by calc_padding try_malloc new
shared-Reach =
    later (later begin (gets (left (8 ∷ 16 ∷ [])) 24 refl)) (gets (left (8 ∷ [])) 16 refl)

held_apart_example : (16 + 8 ≤ 24) ⊎ (24 + 8 ≤ 16)
held_apart_example = held_apart word 4 21 region shared-Reach 0 1 16 24 (omega arith) refl refl
