-- ===== src/Alloc/BTree/Merge.antt =====
-- What `merge` does to the free entries.
use lamellar_runtime.Prelude.{
  ℕ, zero, suc, ◌+◌, ◌^◌, ◌≤◌, ◌<◌, ◌≡◌, refl, sym, ap, subst, ◌≢◌, ◌⊎◌, inl, inr, true, false,
  none, some, List, [], ◌∷◌, arith, ℕ_discrete, ltb, ◌==◌, if◌then◌else◌, ltb→lt, eq→==, ne→==,
  Bool-cases, length, All, total, keyed, add_usize, sub_usize,
}
use lamellar_runtime.Alloc.BTree.{insert_sorted, insert_size, remove_size, FreeEntries}
use lamellar_runtime.Alloc.BTree.Keys.{total-insert_sorted, All-insert_sorted}
use lamellar_runtime.Alloc.BTree.Sizes.{NonEmpty, insert_size-NonEmpty, remove_size-NonEmpty}
use lamellar_runtime.Alloc.BTree.{merge_from, merge}
use lamellar_runtime.Alloc.BTree.Areas.{
  cov, cover, IsFree, cov_self, keyed-le-cover, add_area-IsFree, drop_area-IsFree,
}
use lamellar_runtime.Alloc.BTree.Take.{spaces}

-- The same bytes are free, in the same or in larger areas.
pub record Merged (f f' : FreeEntries) : Type 0 where
  pub valid : IsFree f'
  pub filled : NonEmpty f'.sizes
  pub covers : (x : ℕ) → cover x f'.addrs ≡ cover x f.addrs
  pub space : spaces f'.addrs ≡ spaces f.addrs

abbrev entries : List (ℕ × List ℕ) → List (ℕ × (ℕ × ℕ)) → FreeEntries
entries ss es = record { sizes = ss; addrs = es }

length-le-spaces :
    (es : List (ℕ × (ℕ × ℕ)))
    → All (λ e. (0 < e.1.0) × (e.1.1 ≡ 0) × (e.0 + e.1.0 < 2 ^ 63)) es
    → length es ≤ spaces es
length-le-spaces [] h = omega arith
length-le-spaces (e ∷ es) h = omega (arith, h.0.0, length-le-spaces es h.1)

module _ (ss : List (ℕ × List ℕ)) (a s b t : ℕ) (rest : List (ℕ × (ℕ × ℕ)))
    (v : IsFree (entries ss ((a, (s, 0)) ∷ (b, (t, 0)) ∷ rest))) (h : NonEmpty ss) where
  -- The first two areas touch and become one.
  join_two :
      a + s ≡ b
      → Merged (entries ss ((a, (s, 0)) ∷ (b, (t, 0)) ∷ rest)) (
          entries
            (insert_size (s + t) a (remove_size a s (remove_size b t ss)))
            (insert_sorted a (s + t, 0) rest))
  join_two touch =
      let ((pos_s, _, small_s), ((pos_t, _, small_t), _)) = v.plain in
      let apart : (a == b) ≡ false = ne→== a b (λ z. omega (arith, z, touch, pos_s)) in
      let one =
        drop_area-IsFree (entries ss ((a, (s, 0)) ∷ (b, (t, 0)) ∷ rest)) v b t 0
          ((a, (s, 0)) ∷ rest) (rw (apart, eq→== b b refl) refl) in
      let two =
        drop_area-IsFree (entries (remove_size b t ss) ((a, (s, 0)) ∷ rest)) one a s 0 rest
          (rw (eq→== a a refl) refl) in
      let whole : (x : ℕ) → cov x a (s + t) ≡ cov x a s + cov x b t = λ x. ground (arith, touch) in
      let (three, sum) =
        add_area-IsFree (entries (remove_size a s (remove_size b t ss)) rest) two a (s + t)
          (omega (arith, pos_s)) (omega (arith, touch, small_t))
          (λ x. omega (arith, v.apart x, whole x)) in
      record {
        valid = three;
        filled =
            insert_size-NonEmpty (s + t) a (remove_size a s (remove_size b t ss))
              (remove_size-NonEmpty a s (remove_size b t ss) (remove_size-NonEmpty b t ss h));
        covers = λ x. omega (arith, sum (λ e. cov x e.0 e.1.0), whole x);
        space = omega (arith, sum (λ e. e.1.0));
      }

  -- The first two areas are put back.
  put_back :
      Merged
        (entries ss ((a, (s, 0)) ∷ (b, (t, 0)) ∷ rest))
        (entries ss (insert_sorted b (t, 0) (insert_sorted a (s, 0) rest)))
  put_back =
      let ((pos_s, z_s, small_s), ((pos_t, z_t, small_t), plain)) = v.plain in
      let no_a : keyed a rest ≡ 0 =
        omega (arith, keyed-le-cover a rest plain, v.apart a, cov_self a s pos_s) in
      let sum_a : (w : ℕ × (ℕ × ℕ) → ℕ)
          → total w (insert_sorted a (s, 0) rest) ≡ total w rest + w (a, (s, 0)) =
        λ w. total-insert_sorted w a (s, 0) rest no_a in
      let no_b : keyed b (insert_sorted a (s, 0) rest) ≡ 0 = ground (
        arith,
        sum_a (λ e. if e.0 == b then 1 else 0),
        keyed-le-cover b rest plain,
        v.apart b,
        cov_self b t pos_t,
        v.apart a,
        cov_self a s pos_s,
      ) in
      let sum : (w : ℕ × (ℕ × ℕ) → ℕ)
          → total w (insert_sorted b (t, 0) (insert_sorted a (s, 0) rest))
            ≡ w (a, (s, 0)) + (w (b, (t, 0)) + total w rest) =
        λ w.
          omega
            (arith, sum_a w, total-insert_sorted w b (t, 0) (insert_sorted a (s, 0) rest) no_b) in
      record {
        valid = record {
          sorted = v.sorted;
          agree = λ w. omega (arith, v.agree w, sum (λ e. w e.0 e.1.0));
          plain =
              All-insert_sorted (λ e. (0 < e.1.0) × (e.1.1 ≡ 0) × (e.0 + e.1.0 < 2 ^ 63)) b (t, 0)
                (insert_sorted a (s, 0) rest) (pos_t, refl, small_t)
                (All-insert_sorted (λ e. (0 < e.1.0) × (e.1.1 ≡ 0) × (e.0 + e.1.0 < 2 ^ 63)) a
                  (s, 0) rest (pos_s, refl, small_s) plain);
          apart = λ x. omega (arith, v.apart x, sum (λ e. cov x e.0 e.1.0));
        };
        filled = h;
        covers = λ x. sum (λ e. cov x e.0 e.1.0);
        space = sum (λ e. e.1.0);
      }

Merged-then : {f g k : FreeEntries} → Merged f g → Merged g k → Merged f k
Merged-then m n = record {
  valid = n.valid;
  filled = n.filled;
  covers = λ x. omega (arith, m.covers x, n.covers x);
  space = omega (arith, m.space, n.space);
}

abbrev MergeOutcome : ℕ → ℕ → FreeEntries → Type 0
MergeOutcome fuel i f = (f' : FreeEntries) × (merge_from fuel i f ≡ some f') × Merged f f'

no_entries-space : (es : List (ℕ × (ℕ × ℕ))) → 0 < spaces es → es ≢ []
no_entries-space es h e = omega (arith, h, ap spaces e)

-- What is asked of the entries: some bytes are free, and no more than fit a word.
abbrev Mergeable : List (ℕ × List ℕ) → List (ℕ × (ℕ × ℕ)) → Type 0
Mergeable ss es = IsFree (entries ss es) × NonEmpty ss × (0 < spaces es) × (spaces es < 2 ^ 63)

Merged-Mergeable :
    {ss ss' : List (ℕ × List ℕ)} {es es' : List (ℕ × (ℕ × ℕ))}
    → Mergeable ss es
    → Merged (entries ss es) (entries ss' es')
    → Mergeable ss' es'
Merged-Mergeable (v, h, pos, small) m =
    (m.valid, m.filled, omega (arith, m.space, pos), omega (arith, m.space, small))

module _ (fuel : ℕ)
    (up : (i : ℕ) (ss : List (ℕ × List ℕ)) (es : List (ℕ × (ℕ × ℕ)))
      → Mergeable ss es
      → MergeOutcome fuel i (entries ss es)) where
  first_two :
      (i : ℕ) (ss : List (ℕ × List ℕ)) (a s b t : ℕ) (rest : List (ℕ × (ℕ × ℕ)))
      → Mergeable ss ((a, (s, 0)) ∷ (b, (t, 0)) ∷ rest)
      → ltb i (sub_usize (length ((a, (s, 0)) ∷ (b, (t, 0)) ∷ rest)) 1) ≡ true
      → MergeOutcome (suc fuel) i (entries ss ((a, (s, 0)) ∷ (b, (t, 0)) ∷ rest))
  unfolding merge_from
  first_two i ss a s b t rest ok test = by_touch (ℕ_discrete (a + s) b)
    where
      v : IsFree (entries ss ((a, (s, 0)) ∷ (b, (t, 0)) ∷ rest))
      v = ok.0

      sum : add_usize s t ≡ s + t
      sum = omega (arith, ok.3)

      end : add_usize (add_usize a s) 0 ≡ a + s
      end = omega (arith, v.plain.0.2)

      by_touch :
          Dec (a + s ≡ b)
          → MergeOutcome (suc fuel) i (entries ss ((a, (s, 0)) ∷ (b, (t, 0)) ∷ rest))
      by_touch (yes q) =
          let m = join_two ss a s b t rest v ok.1 q in
          let (f', r, n) =
            up i (insert_size (s + t) a (remove_size a s (remove_size b t ss)))
              (insert_sorted a (s + t, 0) rest) (Merged-Mergeable ok m) in
          (f', simp (merge_from, test, end, eq→== (a + s) b q, sum) r, Merged-then m n)
      by_touch (no q) =
          let m = put_back ss a s b t rest v ok.1 in
          let (f', r, n) =
            up (i + 1) ss (insert_sorted b (t, 0) (insert_sorted a (s, 0) rest))
              (Merged-Mergeable ok m) in
          (f', simp (merge_from, test, end, ne→== (a + s) b q) r, Merged-then m n)

  one_round :
      (i : ℕ) (ss : List (ℕ × List ℕ)) (es : List (ℕ × (ℕ × ℕ)))
      → Mergeable ss es
      → ltb i (sub_usize (length es) 1) ≡ true
      → MergeOutcome (suc fuel) i (entries ss es)
  one_round i ss [] ok test = absurd (omega (arith, ok.2))
  one_round i ss (e ∷ []) ok test = absurd (omega (arith, ltb→lt i (sub_usize 1 1) test))
  one_round i ss ((a, (s, p)) ∷ (b, (t, r)) ∷ rest) ok test =
      subst
        (λ p.
          Mergeable ss ((a, (s, p)) ∷ (b, (t, r)) ∷ rest)
          → MergeOutcome (suc fuel) i (entries ss ((a, (s, p)) ∷ (b, (t, r)) ∷ rest)))
        (sym ok.0.plain.0.1)
        (subst
          (λ r.
            Mergeable ss ((a, (s, 0)) ∷ (b, (t, r)) ∷ rest)
            → MergeOutcome (suc fuel) i (entries ss ((a, (s, 0)) ∷ (b, (t, r)) ∷ rest)))
          (sym ok.0.plain.1.0.1) (λ ok'. first_two i ss a s b t rest ok' test))
        ok

same_entries : (f : FreeEntries) → IsFree f → NonEmpty f.sizes → Merged f f
same_entries f v h = record { valid = v; filled = h; covers = λ x. refl; space = refl }

merge_from-outcome :
    (fuel i : ℕ) (ss : List (ℕ × List ℕ)) (es : List (ℕ × (ℕ × ℕ)))
    → Mergeable ss es
    → MergeOutcome fuel i (entries ss es)
unfolding merge_from
merge_from-outcome zero i ss es ok = (entries ss es, refl, same_entries (entries ss es) ok.0 ok.1)
merge_from-outcome (suc fuel) i ss es ok =
    by_test (merge_from-outcome fuel) (Bool-cases (ltb i (sub_usize (length es) 1)))
  where
    by_test :
        ((i : ℕ) (ss : List (ℕ × List ℕ)) (es : List (ℕ × (ℕ × ℕ)))
          → Mergeable ss es
          → MergeOutcome fuel i (entries ss es))
        → (ltb i (sub_usize (length es) 1) ≡ true) ⊎ (ltb i (sub_usize (length es) 1) ≡ false)
        → MergeOutcome (suc fuel) i (entries ss es)
    by_test up (inl y) = one_round fuel up i ss es ok y
    by_test up (inr n) =
        (entries ss es, rw (n, merge_from) refl, same_entries (entries ss es) ok.0 ok.1)

-- While some bytes are free, `merge` does not panic.
pub merge-Merged :
    (f : FreeEntries)
    → IsFree f
    → NonEmpty f.sizes
    → 0 < spaces f.addrs
    → spaces f.addrs < 2 ^ 63
    → (f' : FreeEntries) × (merge f ≡ some f') × Merged f f'
unfolding merge
merge-Merged f v h pos small =
    merge_from-outcome (suc (length f.addrs)) 0 f.sizes f.addrs (v, h, pos, small)

-- With no free area the length less one wraps, and the first `pop_first().unwrap()` panics.
pub merge-full : (ss : List (ℕ × List ℕ)) → merge (entries ss []) ≡ none
unfolding merge merge_from
merge-full ss = refl
