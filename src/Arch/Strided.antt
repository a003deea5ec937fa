-- ===== src/Arch/Strided.antt =====
-- `StridedArch` of src/lamellar_arch.rs: every `stride`-th PE of the parent. A stride of 0 makes the
-- source's `%` panic; the statements ask for a positive one.
use lamellar_runtime.Prelude.{
  ℕ, zero, suc, ◌+◌, ◌-◌, ◌*◌, ◌/◌, ◌%◌, ◌^◌, ◌<◌, ◌≡◌, ◌∙◌, ◌&&◌, arith, ltb, leb, ◌==◌,
  if◌then◌else◌, add_usize, mul_usize, mul_le,
}
use native.Mathlib.Nat.{mul-div_cancel, mul-mod_left, div-add-mod'}
use lamellar_runtime.Arch.{ArchResult, ok, err, LamellarArch, IsLawful}

pub record StridedArch : Type 0 where
  pub pes : ℕ
  pub first : ℕ
  pub last : ℕ
  pub stride : ℕ

-- The loop of `new`: one stride for each PE behind the first.
unfoldable pub advance : ℕ → ℕ → ℕ → ℕ
advance zero stride end = end
advance (suc rounds) stride end = advance rounds stride (add_usize end stride)

unfoldable pub new : ℕ → ℕ → ℕ → StridedArch
new start_pe stride num_team_pes = record {
  pes = num_team_pes;
  first = start_pe;
  last = advance (num_team_pes - 1) stride start_pe;
  stride = stride;
}

unfoldable pub num_pes : StridedArch → ℕ
num_pes a = a.pes

unfoldable pub start_pe : StridedArch → ℕ
start_pe a = a.first

unfoldable pub end_pe : StridedArch → ℕ
end_pe a = a.last

unfoldable pub parent_pe_id : StridedArch → ℕ → ArchResult ℕ
parent_pe_id a team_pe =
    let parent_pe = add_usize a.first (mul_usize team_pe a.stride) in
    if leb a.first parent_pe && leb parent_pe a.last && ltb team_pe a.pes
    then ok parent_pe
    else err (record { parent_pe = parent_pe; team_pe = team_pe })

unfoldable pub team_pe_id : StridedArch → ℕ → ArchResult ℕ
team_pe_id a parent_pe =
    if leb a.first parent_pe && leb parent_pe a.last && (parent_pe - a.first) % a.stride == 0
    then (let team_pe = (parent_pe - a.first) / a.stride in
        if ltb team_pe a.pes
        then ok team_pe
        else err (record { parent_pe = parent_pe; team_pe = team_pe }))
    else err (record { parent_pe = parent_pe; team_pe = 0 })

abbrev pub methods : StridedArch → LamellarArch
methods a = record {
  num_pes = num_pes a;
  start_pe = start_pe a;
  end_pe = end_pe a;
  parent_pe_id = parent_pe_id a;
  team_pe_id = team_pe_id a;
}

-- Without a wrap the loop adds up to a product.
pub advance-eq :
    (rounds stride end : ℕ)
    → end + rounds * stride < 2 ^ 64
    → advance rounds stride end ≡ end + rounds * stride
unfolding advance
advance-eq zero stride end h = omega arith
advance-eq (suc rounds) stride end h =
    let e : add_usize end stride ≡ end + stride = omega arith in
    rw e (advance-eq rounds stride (end + stride) (omega arith) ∙ omega arith)

module _ (start stride n : ℕ) (pos : 0 < stride) (small : start + (n - 1) * stride < 2 ^ 64) where
  known_parent : (t : ℕ) → t < n → parent_pe_id (new start stride n) t ≡ ok (start + t * stride)
  unfolding new parent_pe_id
  known_parent t h =
      ground (arith, advance-eq (n - 1) stride start small, mul_le t (n - 1) stride (omega arith))

  known_team : (t : ℕ) → t < n → team_pe_id (new start stride n) (start + t * stride) ≡ ok t
  unfolding new team_pe_id
  known_team t h =
      let e : start + t * stride - start ≡ t * stride = omega arith in
      rw (e, mul-mod_left t stride, mul-div_cancel t pos)
        (ground
          (arith, advance-eq (n - 1) stride start small, mul_le t (n - 1) stride (omega arith)))

  team_back :
      (p t : ℕ) → team_pe_id (new start stride n) p ≡ ok t → (t < n) × (start + t * stride ≡ p)
  unfolding new team_pe_id
  team_back p t h = ground (arith, div-add-mod' (p - start) stride)

-- The strided arch that `new` builds keeps the laws of the trait, for a positive stride, where its last id
-- is a `usize`.
pub new_strided-IsLawful :
    (start stride n : ℕ)
    → 0 < stride
    → start + (n - 1) * stride < 2 ^ 64
    → IsLawful (methods (new start stride n))
unfolding new num_pes start_pe end_pe parent_pe_id
new_strided-IsLawful start stride n pos small = record {
  known = λ t h. (
    start + t * stride,
    known_parent start stride n pos small t h,
    known_team start stride n pos small t h,
  );
  unknown = λ t h.
      (record { parent_pe = add_usize start (mul_usize t stride); team_pe = t }, ground arith);
  back = λ p t h.
      let (below, same) = team_back start stride n pos small p t h in
      (below, rw (← same) (known_parent start stride n pos small t below));
  range = λ t p h. ground arith;
}
