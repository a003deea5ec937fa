-- ===== src/Darc/Counts/Reports.antt =====
-- What a count that is reported, and the `FinishedAm` that tells of it, do to the sums.
use lamellar_runtime.Prelude.{
  ℕ, ◌+◌, ◌≤◌, ◌<◌, ◌≡◌, refl, ap, subst, Bool, true, false, none, some, List, [], ◌∷◌, ◌++◌, set,
  get_elem?, remove_at, All-set, All-get_elem?, total, total-set, total-remove_at, total-append,
  get_elem?-le-total, arith, ltb, ◌==◌, if◌then◌else◌, Option-cases, ◌⊎◌, inl, inr, usize_mod,
  sub_usize, eq→==, ne→==,
}
use lamellar_runtime.Darc.Counts.{DarcInner, FinishedAm, swap_ref_cnt, finished_exec, System}
use lamellar_runtime.Darc.Counts.Tallies.{nth, counted, reported, IsBalanced, set-cases, nth-set}

pub reports-IsBalanced :
    (s : System) (p q : ℕ) (d : DarcInner)
    → get_elem? s.pes p ≡ some d
    → IsBalanced s
    → IsBalanced (record s {
      pes = set s.pes p (swap_ref_cnt q d).0;
      finished = s.finished ++ (swap_ref_cnt q d).1;
    })
unfolding swap_ref_cnt
reports-IsBalanced s p q d e b = by_count (Option-cases (get_elem? d.ref_cnts q))
  where
    v : ℕ → FinishedAm → ℕ
    v j am = if am.src_pe == j then am.cnt else 0

    told : ℕ → List FinishedAm
    told c = if ltb 0 c then record { cnt = c; src_pe = q } ∷ [] else []

    told-total : (c j : ℕ) → total (v j) (told c) ≡ (if q == j then c else 0)
    told-total c j = ground arith

    by_swap :
        (d' : DarcInner) (ams : List FinishedAm)
        → d'.dist_cnt ≡ d.dist_cnt
        → ((j : ℕ) → nth d'.ref_cnts j + total (v j) ams ≡ nth d.ref_cnts j)
        → IsBalanced (record s { pes = set s.pes p d'; finished = s.finished ++ ams })
    by_swap d' ams same moved =
        let facts : (j : ℕ)
            → counted j (record s { pes = set s.pes p d' })
                + reported j (record s { finished = s.finished ++ ams })
              ≡ counted j s + reported j s =
          (λ j. omega (
            arith,
            total-set (λ (d : DarcInner). nth d.ref_cnts j) s.pes p d d' e,
            total-append (v j) s.finished ams,
            moved j,
          )) in
        record {
          balance = λ j z f. elim (set-cases s.pes p j d d' z e f) [
            | inl (pq, zd) ↦ omega (
              arith,
              ap (λ (x : DarcInner). x.dist_cnt) zd,
              same,
              b.balance j d (subst (λ k. get_elem? s.pes k ≡ some d) pq e),
              facts j,
            )
            | inr (n, k) ↦ omega (arith, b.balance j z k, facts j)
          ];
          bounded =
              All-set (λ (d : DarcInner). d.dist_cnt < usize_mod) s.pes p d' b.bounded
                (omega (
                  arith,
                  same,
                  All-get_elem? (λ (d : DarcInner). d.dist_cnt < usize_mod) s.pes p d b.bounded e,
                ));
        }

    by_count :
        (get_elem? d.ref_cnts q ≡ none) ⊎ ((c : ℕ) × (get_elem? d.ref_cnts q ≡ some c))
        → IsBalanced (record s {
          pes = set s.pes p (swap_ref_cnt q d).0;
          finished = s.finished ++ (swap_ref_cnt q d).1;
        })
    by_count (inl n) = rw (n, swap_ref_cnt) (by_swap d [] refl (λ j. omega arith))
    by_count (inr (c, g)) =
        rw (g, swap_ref_cnt)
          (by_swap (record d { ref_cnts = set d.ref_cnts q 0 }) (told c) refl
            (λ j. omega (arith, nth-set d.ref_cnts q j c 0 g, told-total c j, nothing (q == j))))
      where
        nothing : (t : Bool) → ◌≡◌ {A = ℕ} (if t then 0 else 0) 0
        nothing true = refl
        nothing false = refl

-- What is reported to a PE does not pass its count, so that to take it off does not wrap.
pub reported-le :
    (s : System) (i : ℕ) (am : FinishedAm) (d : DarcInner)
    → get_elem? s.finished i ≡ some am
    → get_elem? s.pes am.src_pe ≡ some d
    → IsBalanced s
    → am.cnt ≤ d.dist_cnt
reported-le s i am d h e b = omega (
  arith,
  b.balance am.src_pe d e,
  get_elem?-le-total (λ (x : FinishedAm). if x.src_pe == am.src_pe then x.cnt else 0) s.finished i
      am h,
  ap (λ t. if t then am.cnt else 0) (eq→== am.src_pe am.src_pe refl),
)

pub finishes-IsBalanced :
    (s : System) (i : ℕ) (am : FinishedAm) (d : DarcInner)
    → get_elem? s.finished i ≡ some am
    → get_elem? s.pes am.src_pe ≡ some d
    → IsBalanced s
    → IsBalanced (record s {
      pes = set s.pes am.src_pe (finished_exec am.cnt d);
      finished = remove_at s.finished i;
    })
unfolding finished_exec
finishes-IsBalanced s i am d h e b =
    let d' = finished_exec am.cnt d in
    let p = am.src_pe in
    let v : ℕ → FinishedAm → ℕ = λ q x. if x.src_pe == q then x.cnt else 0 in
    let low = reported-le s i am d h e b in
    let small = All-get_elem? (λ (d : DarcInner). d.dist_cnt < usize_mod) s.pes p d b.bounded e in
    let less : sub_usize d.dist_cnt am.cnt + am.cnt ≡ d.dist_cnt = omega arith in
    let facts : (q : ℕ)
        → (counted q (record s { pes = set s.pes p d' }) ≡ counted q s)
          × (reported q (record s { finished = remove_at s.finished i })
                + (if p == q then am.cnt else 0)
              ≡ reported q s) =
      (λ q. (
        omega (arith, total-set (λ (d : DarcInner). nth d.ref_cnts q) s.pes p d d' e),
        omega (arith, total-remove_at (v q) s.finished i am h),
      )) in
    record {
      balance = λ q z f. elim (set-cases s.pes p q d d' z e f) [
        | inl (pq, zd) ↦ omega (
          arith,
          ap (λ (x : DarcInner). x.dist_cnt) zd,
          b.balance q d (subst (λ j. get_elem? s.pes j ≡ some d) pq e),
          facts q,
          less,
          ap (λ t. if t then am.cnt else 0) (eq→== p q pq),
        )
        | inr (n, k) ↦
            omega (arith, b.balance q z k, facts q, ap (λ t. if t then am.cnt else 0) (ne→== p q n))
      ];
      bounded =
          All-set (λ (d : DarcInner). d.dist_cnt < usize_mod) s.pes p d' b.bounded (omega arith);
    }
