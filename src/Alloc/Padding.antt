-- ===== src/Alloc/Padding.antt =====
-- What `calc_padding` of src/lamellar_alloc.rs adds to an address.
use native.Mathlib.Nat.{mod-add-mod, mod_self}
use lamellar_runtime.Prelude.{ℕ, ◌+◌, ◌-◌, ◌%◌, ◌<◌, ◌≡◌, sym, ◌∙◌, ap, arith}
use lamellar_runtime.Alloc.{calc_padding}

-- The padding is shorter than the alignment.
pub calc_padding-lt : (addr align : ℕ) → 0 < align → calc_padding addr align < align
unfolding calc_padding
calc_padding-lt addr align h = ground arith

rest-aligned : (addr align : ℕ) → 0 < align → (addr + (align - addr % align)) % align ≡ 0
rest-aligned addr align h =
    sym (mod-add-mod addr align (align - addr % align))
    ∙ ap (λ n. n % align) filled
    ∙ mod_self align
  where
    filled : addr % align + (align - addr % align) ≡ align
    filled = omega arith

-- Behind the padding the address is a multiple of the alignment.
pub calc_padding-aligned :
    (addr align : ℕ) → 0 < align → (addr + calc_padding addr align) % align ≡ 0
unfolding calc_padding
calc_padding-aligned addr align h = ground (arith, rest-aligned addr align h)
