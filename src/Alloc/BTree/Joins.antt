-- ===== src/Alloc/BTree/Joins.antt =====
-- How `free` joins a block with the free areas beside it.
use lamellar_runtime.Prelude.{
  ℕ, ◌+◌, ◌-◌, ◌^◌, ◌≤◌, ◌<◌, ◌≡◌, refl, ap, ◌∙◌, ◌≢◌, ◌⊎◌, inl, inr, true, false, Option, none,
  some, List, [], ◌∷◌, arith, ℕ_discrete, ltb, ltb→lt, eq→==, ne→==, Bool-cases, Option-cases,
  All-imp, total, total-eq-zero, remove_key, add_usize,
}
use lamellar_runtime.Alloc.BTree.{next_from, last_below, remove_size, FreeEntries}
use lamellar_runtime.Alloc.BTree.Keys.{next_from-some}
use lamellar_runtime.Alloc.BTree.Sizes.{pair, NonEmpty, insert_size-NonEmpty, remove_size-NonEmpty}
use lamellar_runtime.Alloc.BTree.{drop_area, join_before, join_after, enter}
use lamellar_runtime.Alloc.BTree.Areas.{
  cov, cover, IsFree, add_area-IsFree, drop_area-IsFree, area_out, find_area,
}
use lamellar_runtime.Alloc.BTree.Take.{spaces}

last_below-some :
    (w : ℕ × (ℕ × ℕ) → ℕ) (hi k : ℕ) (v : ℕ × ℕ) (es : List (ℕ × (ℕ × ℕ)))
    → last_below hi es ≡ some (k, v)
    → (k < hi) × (w (k, v) ≤ total w es)
last_below-some w hi k v [] q = absurd (cc)
last_below-some w hi k v (e ∷ es) q =
    by_test (λ j u r. last_below-some w hi j u es r) (Bool-cases (ltb e.0 hi))
      (Option-cases (last_below hi es))
  where
    same :
        (j : ℕ) (u : ℕ × ℕ)
        → ◌≡◌ {A = Option (ℕ × (ℕ × ℕ))} (some (j, u)) (some (k, v))
        → (j ≡ k) × (w (j, u) ≡ w (k, v))
    same j u r = (
      ap (λ o. elim o [ none ↦ 0 | some x ↦ x.0 ]) r,
      ap (λ o. elim o [ none ↦ 0 | some x ↦ w x ]) r,
    )

    by_test :
        ((j : ℕ) (u : ℕ × ℕ) → last_below hi es ≡ some (j, u) → (j < hi) × (w (j, u) ≤ total w es))
        → (ltb e.0 hi ≡ true) ⊎ (ltb e.0 hi ≡ false)
        → (last_below hi es ≡ none) ⊎ ((x : ℕ × (ℕ × ℕ)) × (last_below hi es ≡ some x))
        → (k < hi) × (w (k, v) ≤ w e + total w es)
    by_test up (inr n) o = let q' = rw n at q in absurd (cc)
    by_test up (inl y) (inl r) =
        let (a, b) = same e.0 e.1 (rw (y, r) at q) in
        (omega (arith, a, ltb→lt e.0 hi y), omega (arith, b))
    by_test up (inl y) (inr ((j, u), r)) =
        let (a, b) = same j u (rw (y, r) at q) in
        let (lt, le) = up j u r in (omega (arith, a, lt), omega (arith, b, le))

-- The block of `full` bytes at `u` has become the area of `s` bytes at `t`, with entries that are taken out of `f`.
pub record Joined (f : FreeEntries) (u full : ℕ) (j : ℕ × ℕ × FreeEntries) : Type 0 where
  pub valid : IsFree j.2
  pub filled : NonEmpty j.2.sizes
  pub covers : (x : ℕ) → cover x j.2.addrs + cov x j.0 j.1 ≡ cover x f.addrs + cov x u full
  pub space : spaces j.2.addrs + j.1 ≡ spaces f.addrs + full
  pub room : (0 < j.1) × (j.0 + j.1 < 2 ^ 63)

-- The areas that begin elsewhere are still there.
abbrev pub Others : FreeEntries → ℕ × ℕ × FreeEntries → Type 0
Others f j =
    (c k : ℕ)
    → c ≢ j.0
    → total (λ e. pair c k e.0 e.1.0) j.2.addrs ≡ total (λ e. pair c k e.0 e.1.0) f.addrs

cov-join : (x a s b t : ℕ) → a + s ≡ b → cov x a (s + t) ≡ cov x a s + cov x b t
cov-join x a s b t h = ground (arith, h)

no_padding : (f : FreeEntries) → IsFree f → total (λ e. e.1.1) f.addrs ≡ 0
no_padding f v = total-eq-zero (λ e. e.1.1) f.addrs (All-imp (λ e h. h.1) f.addrs v.plain)

-- The joined area is taken out of both maps.
dropped :
    (f : FreeEntries) (a s : ℕ) (rest : List (ℕ × (ℕ × ℕ)))
    → s < 2 ^ 63
    → remove_key a f.addrs ≡ some ((s, 0), rest)
    → drop_area a s 0 f ≡ record { sizes = remove_size a s f.sizes; addrs = rest }
dropped f a s rest small q = let e : add_usize s 0 ≡ s = omega (arith, small) in rw (e, q) refl

module _ (f : FreeEntries) (v : IsFree f) (h : NonEmpty f.sizes) (addr padding full : ℕ)
    (padded : padding ≤ addr) (pos : padding < full) (small : (addr - padding) + full < 2 ^ 63)
    (room : (x : ℕ) → cover x f.addrs + cov x (addr - padding) full ≤ 1) where
  abbrev pub JoinedBefore : ℕ × ℕ × FreeEntries → Type 0
  JoinedBefore j = Joined f (addr - padding) full j × Others f j

  unjoined : JoinedBefore (addr - padding, full, f)
  unjoined = (
    record {
      valid = v;
      filled = h;
      covers = λ x. refl;
      space = refl;
      room = (omega (arith, pos), small);
    },
    λ c k n. refl,
  )

  pub join_before-Joined : JoinedBefore (join_before addr (addr - padding) full f)
  unfolding join_before
  join_before-Joined = by_entry (Option-cases (last_below (addr - padding) f.addrs))
    where
      touching :
          (a s : ℕ)
          → last_below (addr - padding) f.addrs ≡ some (a, (s, 0))
          → (rest : List (ℕ × (ℕ × ℕ))) → remove_key a f.addrs ≡ some ((s, 0), rest)
          → JoinedBefore (join_before addr (addr - padding) full f)
      touching a s q rest r =
          let (sum, kept) = area_out f v a s 0 rest r in
          let (some_size, _, low) = (kept v.plain).0 in
          let below = (last_below-some (λ e. 0) (addr - padding) a (s, 0) f.addrs q).0 in
          let end : add_usize (add_usize a s) 0 ≡ a + s = omega (arith, low) in
          (elim (ℕ_discrete (a + s) addr) [
            | no n ↦ simp (join_before, q, end, ne→== (a + s) addr n) unjoined
            | yes y ↦
                let covered : cov (addr - padding) a s + padding ≤ padding + 1 = ground arith in
                let unpadded : a + s ≡ addr - padding = ground (
                  arith,
                  y,
                  below,
                  room (addr - padding),
                  sum (λ e. cov (addr - padding) e.0 e.1.0),
                  pos,
                ) in
                let size : add_usize full (add_usize s 0) ≡ s + full =
                  omega (arith, unpadded, small) in
                simp
                  (
                    join_before,
                    q,
                    end,
                    eq→== (a + s) addr y,
                    size,
                    dropped f a s rest (omega (arith, low)) r,
                  )
                  (
                    record {
                      valid = drop_area-IsFree f v a s 0 rest r;
                      filled = remove_size-NonEmpty a s f.sizes h;
                      covers = λ x. omega (
                        arith,
                        sum (λ e. cov x e.0 e.1.0),
                        cov-join x a s (addr - padding) full unpadded,
                      );
                      space = omega (arith, sum (λ e. e.1.0));
                      room = (omega (arith, some_size), omega (arith, unpadded, small));
                    },
                    λ c k n.
                        let z : pair c k a s ≡ 0 = ground (arith, n) in
                        omega (arith, sum (λ e. pair c k e.0 e.1.0), z),
                  )
          ])

      by_entry :
          (last_below (addr - padding) f.addrs ≡ none)
            ⊎ ((x : ℕ × (ℕ × ℕ)) × (last_below (addr - padding) f.addrs ≡ some x))
          → JoinedBefore (join_before addr (addr - padding) full f)
      by_entry (inl q) = simp (join_before, q) unjoined
      by_entry (inr ((a, (s, p)), q)) =
          let plain : p ≡ 0 = omega (
            arith,
            (last_below-some (λ e. e.1.1) (addr - padding) a (s, p) f.addrs q).1,
            no_padding f v,
          ) in
          let q' : last_below (addr - padding) f.addrs ≡ some (a, (s, 0)) =
            q ∙ ap (λ z. some (a, (s, z))) plain in
          let self : pair a s a s ≡ 1 = ground arith in
          let (rest, r) = find_area f v a s (
            omega (
              arith,
              self,
              (last_below-some (λ e. pair a s e.0 e.1.0) (addr - padding) a (s, 0) f.addrs q').1,
            )) in
          touching a s q' rest r

pub join_after-Joined :
    (f : FreeEntries) (u full addr : ℕ) (j : ℕ × ℕ × FreeEntries)
    → IsFree f
    → Joined f u full j
    → Others f j
    → Joined f u full (join_after addr f j)
unfolding join_after
join_after-Joined f u full addr (t, s, g) v d others =
    by_entry (Option-cases (next_from addr f.addrs))
  where
    behind :
        (a k : ℕ) (rest : List (ℕ × (ℕ × ℕ)))
        → next_from addr f.addrs ≡ some (a, (k, 0))
        → a + k < 2 ^ 63
        → t + s ≡ a
        → remove_key a g.addrs ≡ some ((k, 0), rest)
        → Joined f u full (join_after addr f (t, s, g))
    behind a k rest q low y r =
        let end : add_usize t s ≡ t + s = omega (arith, d.room.1) in
        let (sum, kept) = area_out g d.valid a k 0 rest r in
        let size : add_usize s (add_usize k 0) ≡ s + k = omega (arith, y, low) in
        simp
          (join_after, q, end, eq→== (t + s) a y, size, dropped g a k rest (omega (arith, low)) r)
          (record {
            valid = drop_area-IsFree g d.valid a k 0 rest r;
            filled = remove_size-NonEmpty a k g.sizes d.filled;
            covers =
                λ x. omega (arith, d.covers x, sum (λ e. cov x e.0 e.1.0), cov-join x t s a k y);
            space = omega (arith, d.space, sum (λ e. e.1.0));
            room = (omega (arith, d.room.0), omega (arith, y, low));
          })

    touching :
        (a k : ℕ)
        → next_from addr f.addrs ≡ some (a, (k, 0))
        → 1 ≤ total (λ e. pair a k e.0 e.1.0) f.addrs
        → a + k < 2 ^ 63
        → Joined f u full (join_after addr f (t, s, g))
    touching a k q there low =
        let end : add_usize t s ≡ t + s = omega (arith, d.room.1) in
        (elim (ℕ_discrete (t + s) a) [
          | no n ↦ simp (join_after, q, end, ne→== (t + s) a n) d
          | yes y ↦
              let (rest, r) =
                find_area g d.valid a k
                  (omega (arith, others a k (λ z. omega (arith, z, y, d.room.0)), there)) in
              behind a k rest q low y r
        ])

    by_entry :
        (next_from addr f.addrs ≡ none) ⊎ ((x : ℕ × (ℕ × ℕ)) × (next_from addr f.addrs ≡ some x))
        → Joined f u full (join_after addr f (t, s, g))
    by_entry (inl q) = simp (join_after, q) d
    by_entry (inr ((a, (k, p)), q)) =
        let plain : p ≡ 0 =
          omega (arith, (next_from-some (λ e. e.1.1) addr a (k, p) f.addrs q).1, no_padding f v) in
        let q' : next_from addr f.addrs ≡ some (a, (k, 0)) = q ∙ ap (λ z. some (a, (k, z))) plain in
        let self : pair a k a k ≡ 1 = ground arith in
        let there : 1 ≤ total (λ e. pair a k e.0 e.1.0) f.addrs =
          omega
            (arith, self, (next_from-some (λ e. pair a k e.0 e.1.0) addr a (k, 0) f.addrs q').1) in
        let (rest, r) = find_area f v a k there in
        touching a k q' there (((area_out f v a k 0 rest r).1 v.plain).0.2)

pub enter-IsFree :
    (f : FreeEntries) (u full : ℕ) (j : ℕ × ℕ × FreeEntries)
    → Joined f u full j
    → ((x : ℕ) → cover x f.addrs + cov x u full ≤ 1)
    → IsFree (enter j)
      × NonEmpty (enter j).sizes
      × ((x : ℕ) → cover x (enter j).addrs ≡ cover x f.addrs + cov x u full)
      × (spaces (enter j).addrs ≡ spaces f.addrs + full)
unfolding enter
enter-IsFree f u full (t, s, g) d room =
    let (valid, sum) =
      add_area-IsFree g d.valid t s d.room.0 d.room.1 (λ x. omega (arith, d.covers x, room x)) in
    (
      valid,
      insert_size-NonEmpty s t g.sizes d.filled,
      (λ x. omega (arith, d.covers x, sum (λ e. cov x e.0 e.1.0))),
      omega (arith, d.space, sum (λ e. e.1.0)),
    )
