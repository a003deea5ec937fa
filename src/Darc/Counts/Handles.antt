-- ===== src/Darc/Counts/Handles.antt =====
-- What a handle that is sent or arrives does to the sums.
use lamellar_runtime.Prelude.{
  ℕ, ◌+◌, ◌<◌, ◌≡◌, refl, ap, ◌∙◌, subst, Bool, true, false, none, some, List, [], ◌∷◌, ◌++◌, map,
  length, set, get_elem?, remove_at, All-set, All-get_elem?, total, total-set, total-remove_at,
  total-append, get_elem?-le-total, arith, ◌==◌, if◌then◌else◌, inl, inr, usize_mod, add_usize,
  eq→==, ne→==,
}
use lamellar_runtime.Darc.Counts.{DarcInner, inc_pe_ref_count, serialize_update_cnts, System}
use lamellar_runtime.Darc.Counts.Tallies.{
  one_if, value_of, nth, on_the_way, counted, IsBalanced, set-cases, nth-set,
}

-- A step that changes the counts of one PE neither for others nor of them.
pub local-IsBalanced :
    (s : System) (p : ℕ) (d d' : DarcInner) (arrived : List ℕ)
    → get_elem? s.pes p ≡ some d
    → d'.dist_cnt ≡ d.dist_cnt
    → d'.ref_cnts ≡ d.ref_cnts
    → IsBalanced s
    → IsBalanced (record s { pes = set s.pes p d'; arrived = arrived })
local-IsBalanced s p d d' arrived e same_dist same_refs b =
    let same_count : (q : ℕ) → counted q (record s { pes = set s.pes p d' }) ≡ counted q s = (λ q.
      omega (
        arith,
        total-set (λ (d : DarcInner). nth d.ref_cnts q) s.pes p d d' e,
        ap (λ cs. nth cs q) same_refs,
      )) in
    record {
      balance = λ q z f. elim (set-cases s.pes p q d d' z e f) [
        | inl (pq, zd) ↦ omega (
          arith,
          ap (λ (x : DarcInner). x.dist_cnt) zd,
          same_dist,
          b.balance q d (subst (λ j. get_elem? s.pes j ≡ some d) pq e),
          same_count q,
        )
        | inr (n, g) ↦ omega (arith, b.balance q z g, same_count q)
      ];
      bounded =
          All-set (λ (d : DarcInner). d.dist_cnt < usize_mod) s.pes p d' b.bounded
            (omega (
              arith,
              same_dist,
              All-get_elem? (λ (d : DarcInner). d.dist_cnt < usize_mod) s.pes p d b.bounded e,
            ));
    }

total-to :
    (p q : ℕ) (dsts : List ℕ)
    → total (λ (h : ℕ × ℕ). one_if (h.0 == q)) (map (λ dst. (p, dst)) dsts)
      ≡ (if p == q then length dsts else 0)
total-to p q [] = ground arith
total-to p q (x ∷ xs) = ground (arith, total-to p q xs)

pub serialize-IsBalanced :
    (s : System) (p : ℕ) (d : DarcInner) (dsts : List ℕ)
    → get_elem? s.pes p ≡ some d
    → d.dist_cnt + length dsts < usize_mod
    → IsBalanced s
    → IsBalanced (record s {
      pes = set s.pes p (serialize_update_cnts (length dsts) d);
      in_flight = s.in_flight ++ map (λ dst. (p, dst)) dsts;
    })
unfolding serialize_update_cnts
serialize-IsBalanced s p d dsts e h b =
    let d' = serialize_update_cnts (length dsts) d in
    let w : ℕ × ℕ → ℕ → ℕ = λ h q. one_if (h.0 == q) in
    let facts : (q : ℕ)
        → (counted q (record s { pes = set s.pes p d' }) ≡ counted q s)
          × (total (λ h. w h q) (s.in_flight ++ map (λ dst. (p, dst)) dsts)
              ≡ on_the_way q s + (if p == q then length dsts else 0)) =
      (λ q. (
        omega (arith, total-set (λ (d : DarcInner). nth d.ref_cnts q) s.pes p d d' e),
        omega (
          arith,
          total-append (λ h. w h q) s.in_flight (map (λ dst. (p, dst)) dsts),
          total-to p q dsts,
        ),
      )) in
    record {
      balance = λ q z f. elim (set-cases s.pes p q d d' z e f) [
        | inl (pq, zd) ↦ omega (
          arith,
          ap (λ (x : DarcInner). x.dist_cnt) zd,
          b.balance q d (subst (λ j. get_elem? s.pes j ≡ some d) pq e),
          facts q,
          ap (λ t. if t then length dsts else 0) (eq→== p q pq),
        )
        | inr (n, g) ↦
            omega (
              arith,
              b.balance q z g,
              facts q,
              ap (λ t. if t then length dsts else 0) (ne→== p q n),
            )
      ];
      bounded =
          All-set (λ (d : DarcInner). d.dist_cnt < usize_mod) s.pes p d' b.bounded (omega arith);
    }

pub arrive-IsBalanced :
    (s : System) (i src dst c : ℕ) (d e : DarcInner) (arrived : List ℕ)
    → get_elem? s.in_flight i ≡ some (src, dst)
    → get_elem? s.pes dst ≡ some d
    → get_elem? s.pes src ≡ some e
    → get_elem? d.ref_cnts src ≡ some c
    → IsBalanced s
    → IsBalanced (record s {
      pes = set s.pes dst (inc_pe_ref_count src 1 d);
      in_flight = remove_at s.in_flight i;
      arrived = arrived;
    })
unfolding inc_pe_ref_count
arrive-IsBalanced s i src dst c d e arrived h p₁ p₂ g b =
    let d' = inc_pe_ref_count src 1 d in
    let w : ℕ → DarcInner → ℕ = λ q d. nth d.ref_cnts q in
    let v : ℕ → ℕ × ℕ → ℕ = λ q h. one_if (h.0 == q) in
    let here_one : one_if (src == src) ≡ 1 = ap one_if (eq→== src src refl) in
    let room : add_usize c 1 ≡ c + 1 = omega (
      arith,
      b.balance src e p₂,
      All-get_elem? (λ (d : DarcInner). d.dist_cnt < usize_mod) s.pes src e b.bounded p₂,
      get_elem?-le-total (v src) s.in_flight i (src, dst) h,
      get_elem?-le-total (w src) s.pes dst d p₁,
      ap value_of g,
      here_one,
    ) in
    let refs : d'.ref_cnts ≡ set d.ref_cnts src (c + 1) =
      ap (λ o. elim o [ none ↦ d.ref_cnts | some x ↦ set d.ref_cnts src (add_usize x 1) ]) g
      ∙ ap (set d.ref_cnts src) room in
    let facts : (q : ℕ)
        → (counted q (record s { pes = set s.pes dst d' }) ≡ counted q s + one_if (src == q))
          × (on_the_way q (record s { in_flight = remove_at s.in_flight i }) + one_if (src == q)
              ≡ on_the_way q s) =
      (λ q. (
        omega (
          arith,
          total-set (w q) s.pes dst d d' p₁,
          ap (λ cs. nth cs q) refs,
          nth-set d.ref_cnts src q c (c + 1) g,
          one_more (src == q) c,
        ),
        omega (arith, total-remove_at (v q) s.in_flight i (src, dst) h),
      )) in
    record {
      balance = λ q z f. elim (set-cases s.pes dst q d d' z p₁ f) [
        | inl (pq, zd) ↦ omega (
          arith,
          ap (λ (x : DarcInner). x.dist_cnt) zd,
          b.balance q d (subst (λ j. get_elem? s.pes j ≡ some d) pq p₁),
          facts q,
        )
        | inr (n, k) ↦ omega (arith, b.balance q z k, facts q)
      ];
      bounded =
          All-set (λ (d : DarcInner). d.dist_cnt < usize_mod) s.pes dst d' b.bounded
            (All-get_elem? (λ (d : DarcInner). d.dist_cnt < usize_mod) s.pes dst d b.bounded p₁);
    }
  where
    one_more : (t : Bool) (c : ℕ) → (if t then c + 1 else 0) ≡ (if t then c else 0) + one_if t
    one_more true c = refl
    one_more false c = refl
