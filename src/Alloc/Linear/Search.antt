-- ===== src/Alloc/Linear/Search.antt =====
-- Which attempts of `LinearAlloc` succeed: the dry run beside the attempt, and the gaps of a heap in use.
use lamellar_runtime.Prelude.{
  ℕ, suc, ◌+◌, ◌^◌, ◌≤◌, ◌<◌, ◌≡◌, ◌↔◌, none, List, [], ◌∷◌, arith, lt→ltb, is_some, length,
}
use lamellar_runtime.Alloc.{calc_padding}
use lamellar_runtime.Alloc.Padding.{calc_padding-lt}
use lamellar_runtime.Alloc.Linear.{
  Vma, LinearAlloc, find_gap, place, try_malloc_between, try_malloc_first, try_malloc, fake_malloc,
}
use lamellar_runtime.Alloc.Linear.Gap.{Placed, Placed-le, find_gap-padding, find_gap-le}
use lamellar_runtime.Alloc.Linear.Invariant.{IsValid}

-- The dry run says yes exactly where an attempt would return an address.
pub fake_malloc-eq :
    (a : LinearAlloc) (size align : ℕ)
    → fake_malloc a size align ≡ is_some (try_malloc a size align).1
unfolding fake_malloc try_malloc try_malloc_between try_malloc_first place
fake_malloc-eq a size align = ground arith

-- No gap between `low` and `high` holds the request with the padding that it needs there.
abbrev pub NoGap : ℕ → ℕ → ℕ → ℕ → List Vma → Type 0
NoGap size align low high [] = high < low + size + calc_padding low align
NoGap size align low high (e ∷ es) =
    (e.addr < low + size + calc_padding low align)
    × NoGap size align (e.addr + e.size + e.padding) high es

module _ (size align high : ℕ) (fits : size + align ≤ 2 ^ 63) (small : high ≤ 2 ^ 63)
    (pos : 0 < align) where
  NoGap-find_gap :
      (prev idx : ℕ) (es : List Vma)
      → Placed prev high es
      → (let (p, pad, k) = find_gap size align prev (calc_padding prev align) idx es in
          high < p + size + pad)
      → NoGap size align prev high es
  unfolding find_gap
  NoGap-find_gap prev idx [] h over = omega arith
  NoGap-find_gap prev idx (e ∷ es) h over = ground (
    arith,
    calc_padding-lt prev align pos,
    Placed-le (e.addr + e.size + e.padding) high es h.1,
    NoGap-find_gap (e.addr + e.size + e.padding) (suc idx) es h.1,
  )

  find_gap-NoGap :
      (prev idx : ℕ) (es : List Vma)
      → Placed prev high es
      → NoGap size align prev high es
      → let (p, pad, k) = find_gap size align prev (calc_padding prev align) idx es in
        high < p + size + pad
  unfolding find_gap
  find_gap-NoGap prev idx [] h over = omega arith
  find_gap-NoGap prev idx (e ∷ es) h over = ground (
    arith,
    calc_padding-lt prev align pos,
    Placed-le (e.addr + e.size + e.padding) high es h.1,
    find_gap-NoGap (e.addr + e.size + e.padding) (suc idx) es h.1,
  )

-- On a valid heap that has an area an attempt fails exactly where neither a gap before an area nor the
-- room behind the last holds the request, for a positive alignment and a size that together do not
-- pass 2^63.
pub try_malloc-none_iff :
    (a : LinearAlloc) (size align : ℕ)
    → IsValid a
    → 0 < align
    → size + align ≤ 2 ^ 63
    → 0 < length a.entries
    → ((try_malloc a size align).1 ≡ none)
      ↔ NoGap size align a.start_addr (a.start_addr + a.max_size) a.entries
unfolding try_malloc try_malloc_between place
try_malloc-none_iff a size align valid pos fits some_used =
    rw (lt→ltb 0 (length a.entries) some_used) (
      λ failed.
          NoGap-find_gap size align high fits valid.small pos a.start_addr 0 a.entries valid.placed
            (ground (
              arith,
              failed,
              in_range,
              find_gap-padding size align high fits valid.small a.start_addr 0 a.entries,
              calc_padding-lt g.0 align pos,
            )),
      λ full. ground (
        arith,
        valid.small,
        find_gap-NoGap size align high fits valid.small pos a.start_addr 0 a.entries valid.placed
            full,
        in_range,
        find_gap-padding size align high fits valid.small a.start_addr 0 a.entries,
        calc_padding-lt g.0 align pos,
      ),
    )
  where
    high : ℕ
    high = a.start_addr + a.max_size

    g : ℕ × ℕ × ℕ
    g = find_gap size align a.start_addr (calc_padding a.start_addr align) 0 a.entries

    in_range : g.0 ≤ high
    in_range =
        find_gap-le size align high fits valid.small a.start_addr 0 a.entries pos valid.placed
