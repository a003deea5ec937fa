-- ===== src/Alloc/Linear/Gap.antt =====
-- The loop of `LinearAlloc::try_malloc` over areas that are in order: where it stops, and
-- what putting an area there does.
use lamellar_runtime.Prelude.{
  ℕ, suc, ◌+◌, ◌^◌, ◌≤◌, ◌<◌, ◌≡◌, refl, List, [], ◌∷◌, arith, insert_at, add_usize,
}
use lamellar_runtime.Alloc.{calc_padding}
use lamellar_runtime.Alloc.Padding.{calc_padding-lt}
use lamellar_runtime.Alloc.Linear.{Vma, find_gap}

-- From `low` to `high` the areas lie in order and do not overlap.
abbrev pub Placed : ℕ → ℕ → List Vma → Type 0
Placed low high [] = low ≤ high
Placed low high (e ∷ es) = (low ≤ e.addr) × Placed (e.addr + e.size + e.padding) high es

-- The bytes that the areas take, padding included.
abbrev pub used : List Vma → ℕ
used [] = 0
used (e ∷ es) = e.size + e.padding + used es

pub Placed-le : (low high : ℕ) (es : List Vma) → Placed low high es → low + used es ≤ high
Placed-le low high [] h = omega arith
Placed-le low high (e ∷ es) h = omega (arith, Placed-le (e.addr + e.size + e.padding) high es h.1)

pub find_gap-suc :
    (size align prev padding idx : ℕ) (es : List Vma)
    → find_gap size align prev padding (suc idx) es
      ≡ (let (p, q, k) = find_gap size align prev padding idx es in (p, q, suc k))
unfolding find_gap
find_gap-suc size align prev padding idx [] = refl
find_gap-suc size align prev padding idx (e ∷ es) =
    let end = add_usize (add_usize e.addr e.size) e.padding in
    ground (arith, find_gap-suc size align end (calc_padding end align) (suc idx) es)

module _ (size align high : ℕ) (fits : size + align ≤ 2 ^ 63) (small : high ≤ 2 ^ 63) where
  -- The padding that the loop returns is that of the end that it returns.
  pub find_gap-padding :
      (prev idx : ℕ) (es : List Vma)
      → (find_gap size align prev (calc_padding prev align) idx es).1
        ≡ calc_padding (find_gap size align prev (calc_padding prev align) idx es).0 align
  unfolding find_gap
  find_gap-padding prev idx [] = refl
  find_gap-padding prev idx (e ∷ es) =
      ground (arith, find_gap-padding (add_usize (add_usize e.addr e.size) e.padding) (suc idx) es)

  pub find_gap-Placed :
      (prev : ℕ) (es : List Vma)
      → 0 < align
      → Placed prev high es
      → let (p, pad, k) = find_gap size align prev (calc_padding prev align) 0 es in
        p + size + pad ≤ high
        → Placed prev high (insert_at k (record { addr = p; padding = pad; size = size }) es)
  unfolding find_gap
  find_gap-Placed prev [] pos h room = ground arith
  find_gap-Placed prev (e ∷ es) pos h room =
      let end = add_usize (add_usize e.addr e.size) e.padding in
      ground (
        arith,
        calc_padding-lt prev align pos,
        Placed-le (e.addr + e.size + e.padding) high es h.1,
        find_gap-suc size align end (calc_padding end align) 0 es,
        find_gap-Placed (e.addr + e.size + e.padding) es pos h.1,
      )

  -- The loop does not pass the end of the region.
  pub find_gap-le :
      (prev idx : ℕ) (es : List Vma)
      → 0 < align
      → Placed prev high es
      → (find_gap size align prev (calc_padding prev align) idx es).0 ≤ high
  unfolding find_gap
  find_gap-le prev idx [] pos h = h
  find_gap-le prev idx (e ∷ es) pos h = ground (
    arith,
    Placed-le (e.addr + e.size + e.padding) high es h.1,
    find_gap-le (e.addr + e.size + e.padding) (suc idx) es pos h.1,
  )
