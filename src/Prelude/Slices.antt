-- ===== src/Prelude/Slices.antt =====
-- Slices of a byte buffer: a part that is read or written at an index, `none` where the source
-- panics because the range leaves the buffer.
use lamellar_runtime.Prelude.Lists.{length, take, length-append}
use lamellar_runtime.Prelude.Tests.{leb, if◌then◌else◌, le→leb}
use Prim.Native.Nat.{ℕ, zero, suc, ◌+◌, ◌≤◌}
use mathlib.Core.Path.{◌≡◌, refl, ap, sym, ◌∙◌}
use mathlib.Core.List.{List, [], ◌∷◌, ◌++◌, append-nil, append_assoc}
use mathlib.Core.Option.{Option, none, some}
use native.Mathlib.Omega.{arith}

-- A panic or a failed `unwrap` ends the whole operation.
infixl 5 ◌>>=◌
abbrev pub ◌>>=◌ {ℓ κ} : {A : Type ℓ} {B : Type κ} → Option A → (A → Option B) → Option B
none >>= f = none
some a >>= f = f a

-- The operation returns, and what it returns has the property.
abbrev pub Returns {ℓ κ} : {A : Type ℓ} → Option A → (A → Type κ) → Type (ℓ ⊔ κ)
Returns {A} m P = (a : A) × (m ≡ some a) × P a

pub Returns->>= {ℓ κ μ ν} :
    {A : Type ℓ} {B : Type κ} {P : A → Type μ} {Q : B → Type ν} {m : Option A} {f : A → Option B}
    → Returns m P
    → ((a : A) → P a → Returns (f a) Q)
    → Returns (m >>= f) Q
Returns->>= {f} (a, e, p) next = let (b, e', q) = next a p in (b, ap (λ o. o >>= f) e ∙ e', q)

module _ {ℓ} {A : Type ℓ} where
  abbrev pub drop : ℕ → List A → List A
  drop zero xs = xs
  drop (suc n) [] = []
  drop (suc n) (x ∷ xs) = drop n xs

  -- `buf[i..i + n]`.
  abbrev pub slice : List A → ℕ → ℕ → Option (List A)
  slice buf i n = if leb (i + n) (length buf) then some (take n (drop i buf)) else none

  -- `buf[i..]`.
  abbrev pub slice_from : List A → ℕ → Option (List A)
  slice_from buf i = if leb i (length buf) then some (drop i buf) else none

  -- The entries from `i` on are written over by `xs`.
  abbrev pub splice : List A → ℕ → List A → List A
  splice buf i xs = take i buf ++ (xs ++ drop (i + length xs) buf)

  -- From index `i` on `buf` holds `xs`, and nothing behind it.
  abbrev pub HoldsAt : List A → ℕ → List A → Type ℓ
  HoldsAt buf i xs = (drop i buf ≡ xs) × (i + length xs ≡ length buf)

  drop-nil : (n : ℕ) → drop n [] ≡ []
  drop-nil zero = refl
  drop-nil (suc n) = refl

  drop-drop : (m n : ℕ) (xs : List A) → drop (m + n) xs ≡ drop n (drop m xs)
  drop-drop zero n xs = let e : 0 + n ≡ n = omega arith in rw e
  drop-drop (suc m) n [] = drop-nil (suc m + n) ∙ sym (drop-nil n)
  drop-drop (suc m) n (x ∷ xs) =
      let e : suc m + n ≡ suc (m + n) = omega arith in rw e (drop-drop m n xs)

  pub drop-append : (xs ys : List A) → drop (length xs) (xs ++ ys) ≡ ys
  drop-append [] ys = refl
  drop-append (x ∷ xs) ys = drop-append xs ys

  pub take-append : (xs ys : List A) → take (length xs) (xs ++ ys) ≡ xs
  take-append [] ys = refl
  take-append (x ∷ xs) ys = ap (λ zs. x ∷ zs) (take-append xs ys)

  pub length-drop : (n : ℕ) (xs : List A) → n ≤ length xs → length (drop n xs) + n ≡ length xs
  length-drop zero xs h = omega arith
  length-drop (suc n) [] h = absurd (omega arith)
  length-drop (suc n) (x ∷ xs) h = omega (arith, length-drop n xs (omega arith))

  -- A slice reads what stands there, and the rest follows behind it.
  pub slice-HoldsAt :
      (buf : List A) (i n : ℕ) (xs ys : List A)
      → length xs ≡ n
      → HoldsAt buf i (xs ++ ys)
      → (slice buf i n ≡ some xs) × HoldsAt buf (i + n) ys
  slice-HoldsAt buf i n xs ys e (d, l) =
      let fits : i + n ≤ length buf = omega (arith, length-append xs ys) in
      let took : take n (drop i buf) ≡ xs = rw (d, ← e) (take-append xs ys) in
      (
        rw (le→leb (i + n) (length buf) fits, took),
        (rw (drop-drop i n buf, d, ← e) (drop-append xs ys), omega (arith, length-append xs ys)),
      )

  pub slice_from-HoldsAt :
      (buf : List A) (i : ℕ) (xs : List A) → HoldsAt buf i xs → slice_from buf i ≡ some xs
  slice_from-HoldsAt buf i xs (d, l) = rw (le→leb i (length buf) (omega arith), d)

-- A buffer while it is filled: what it holds, and up to where it is written.
pub record Writer {ℓ} (A : Type ℓ) : Type ℓ where
  pub buf : List A
  pub i : ℕ

-- `f(&mut buf[i..i + n])` with what `f` writes to the front of the slice, and `i += n`. A slice that
-- leaves the buffer panics, and so does the `unwrap` where the slice is too short for `xs`.
unfoldable pub write {ℓ} : {A : Type ℓ} → ℕ → List A → Writer A → Option (Writer A)
write n xs w =
    if leb (w.i + n) (length w.buf)
    then (if leb (length xs) n
        then some (record w { buf = splice w.buf w.i xs; i = w.i + n })
        else none)
    else none

-- The buffer holds `xs` up to the index, and `k` entries behind it.
pub record Filled {ℓ} {A : Type ℓ} (w : Writer A) (xs : List A) (k : ℕ) : Type ℓ where
  pub rest : List A
  pub holds : w.buf ≡ xs ++ rest
  pub at : w.i ≡ length xs
  pub room : length rest ≡ k

module _ {ℓ} {A : Type ℓ} where
  drop-append_more : (xs ys : List A) (n : ℕ) → drop (length xs + n) (xs ++ ys) ≡ drop n ys
  drop-append_more xs ys n = rw (drop-drop (length xs) n (xs ++ ys), drop-append xs ys)

  splice-append :
      (xs ys zs : List A) → splice (xs ++ ys) (length xs) zs ≡ (xs ++ zs) ++ drop (length zs) ys
  splice-append xs ys zs = rw (take-append xs ys, drop-append_more xs ys (length zs), append_assoc)

  pub write-Filled :
      (n k : ℕ) (xs ys : List A) (w : Writer A)
      → length ys ≡ n
      → Filled w xs (n + k)
      → Returns (write n ys w) (λ w'. Filled w' (xs ++ ys) k)
  unfolding write
  write-Filled n k xs ys w e f =
      let fits : w.i + n ≤ length w.buf =
        omega (arith, ap length f.holds, length-append xs f.rest, f.at, f.room) in
      (
        record w { buf = splice w.buf w.i ys; i = w.i + n },
        rw (le→leb (w.i + n) (length w.buf) fits, le→leb (length ys) n (omega arith)),
        record {
          rest = drop (length ys) f.rest;
          holds = rw (f.holds, f.at) (splice-append xs f.rest ys);
          at = omega (arith, f.at, length-append xs ys);
          room = omega (arith, f.room, length-drop (length ys) f.rest (omega (arith, f.room)));
        },
      )

  -- A buffer that is filled to its end holds what was written.
  pub Filled-full : (xs : List A) (w : Writer A) → Filled w xs 0 → w.buf ≡ xs
  Filled-full xs w f = f.holds ∙ by_rest f.rest f.room
    where
      by_rest : (rest : List A) → length rest ≡ 0 → xs ++ rest ≡ xs
      by_rest [] r = append-nil xs
      by_rest (y ∷ ys) r = absurd (omega arith)
