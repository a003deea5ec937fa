-- ===== src/Darc/Counts.antt =====
-- The reference counts of `Darc`, of src/darc.rs: the counters of the inner part on each PE of the team, and
-- what is on its way between them.
mod Tallies
mod Handles
mod Reports
pub mod Balance
pub mod Drops
mod Tests
use lamellar_runtime.Prelude.{
  ℕ, zero, suc, ◌+◌, ◌≤◌, ◌<◌, ◌≡◌, Bool, true, false, ◌&&◌, ◌||◌, Option, none, some, List, [],
  ◌∷◌, ◌++◌, map, length, set, get_elem?, remove_at, ltb, ◌==◌, if◌then◌else◌, usize_mod, add_usize,
  sub_usize,
}

-- `DarcInner`, with the counters that its addresses lead to as lists over the team's PEs.
pub record DarcInner : Type 0 where
  pub num_pes : ℕ
  pub local_cnt : ℕ
  pub total_local_cnt : ℕ
  pub weak_local_cnt : ℕ
  pub dist_cnt : ℕ
  pub total_dist_cnt : ℕ
  pub ref_cnts : List ℕ
  pub total_ref_cnts : List ℕ
  pub valid : Bool

pub record FinishedAm : Type 0 where
  pub cnt : ℕ
  pub src_pe : ℕ

-- `fetch_add` on an entry of a slice of counters. The source panics on an index out of range; here that leaves the
-- counters as they are, and no step does it, since a step has the entry.
abbrev pub add_at : List ℕ → ℕ → ℕ → List ℕ
add_at cnts i amt = elim (get_elem? cnts i) [ none ↦ cnts | some c ↦ set cnts i (add_usize c amt) ]

abbrev pub replicate : {A : Type 0} → ℕ → A → List A
replicate zero x = []
replicate (suc n) x = x ∷ replicate n x

unfoldable pub new : ℕ → DarcInner
new num_pes = record {
  num_pes = num_pes;
  local_cnt = 1;
  total_local_cnt = 1;
  weak_local_cnt = 0;
  dist_cnt = 0;
  total_dist_cnt = 0;
  ref_cnts = replicate num_pes 0;
  total_ref_cnts = replicate num_pes 0;
  valid = true;
}

unfoldable pub inc_pe_ref_count : ℕ → ℕ → DarcInner → DarcInner
inc_pe_ref_count pe amt d = record d {
  ref_cnts = add_at d.ref_cnts pe amt;
  total_ref_cnts = add_at d.total_ref_cnts pe amt;
}

unfoldable pub serialize_update_cnts : ℕ → DarcInner → DarcInner
serialize_update_cnts cnt d = record d {
  dist_cnt = add_usize d.dist_cnt cnt;
  total_dist_cnt = add_usize d.total_dist_cnt cnt;
}

unfoldable pub inc_local_cnt : ℕ → DarcInner → DarcInner
inc_local_cnt cnt d = record d {
  local_cnt = add_usize d.local_cnt cnt;
  total_local_cnt = add_usize d.total_local_cnt cnt;
}

-- What a PE does for a handle of PE `src_pe` that it takes out of a message.
unfoldable pub deserialize_update_cnts : ℕ → DarcInner → DarcInner
unfolding inc_pe_ref_count inc_local_cnt
deserialize_update_cnts src_pe d = inc_local_cnt 1 (inc_pe_ref_count src_pe 1 d)

unfoldable pub clone : DarcInner → DarcInner
unfolding inc_local_cnt
clone d = inc_local_cnt 1 d

unfoldable pub downgrade : DarcInner → DarcInner
downgrade d = record d { weak_local_cnt = add_usize d.weak_local_cnt 1 }

unfoldable pub drop_weak : DarcInner → DarcInner
drop_weak d = record d { weak_local_cnt = sub_usize d.weak_local_cnt 1 }

-- Whether there is a `Darc` again; where there is not, the local count is taken back, the total is not.
unfoldable pub upgrade : DarcInner → DarcInner × Bool
unfolding inc_local_cnt
upgrade d =
    let d' = inc_local_cnt 1 d in
    if d.valid then (d', true) else (record d' { local_cnt = sub_usize d'.local_cnt 1 }, false)

-- One round of `send_finished`: the count of one PE is swapped out, and reported to it.
unfoldable pub swap_ref_cnt : ℕ → DarcInner → DarcInner × List FinishedAm
swap_ref_cnt pe d = elim (get_elem? d.ref_cnts pe) [
  | none ↦ (d, [])
  | some cnt ↦ (
    record d { ref_cnts = set d.ref_cnts pe 0 },
    if ltb 0 cnt then record { cnt = cnt; src_pe = pe } ∷ [] else [],
  )
]

-- The loop, from `pe` on.
unfoldable pub send_from : ℕ → ℕ → DarcInner → DarcInner × List FinishedAm
unfolding swap_ref_cnt
send_from zero pe d = (d, [])
send_from (suc rounds) pe d =
    let (d₁, ams) = swap_ref_cnt pe d in
    let (d₂, more) = send_from rounds (suc pe) d₁ in (d₂, ams ++ more)

unfoldable pub send_finished : DarcInner → DarcInner × List FinishedAm
unfolding send_from
send_finished d = send_from (length d.ref_cnts) 0 d

abbrev pub any_pos : List ℕ → Bool
any_pos [] = false
any_pos (c ∷ cs) = ltb 0 c || any_pos cs

-- `drop`, up to its test whether to launch the collecting task, which is returned.
unfoldable pub drop_darc : DarcInner → (DarcInner × List FinishedAm) × Bool
unfolding send_finished
drop_darc d =
    let cnt = d.local_cnt in
    let d₁ = record d { local_cnt = sub_usize cnt 1 } in
    let r = if cnt == 1 && any_pos d₁.ref_cnts then send_finished d₁ else (d₁, []) in
    (r, r.0.local_cnt == 0)

-- `FinishedAm::exec`, on the PE that is told.
unfoldable pub finished_exec : ℕ → DarcInner → DarcInner
finished_exec cnt d = record d { dist_cnt = sub_usize d.dist_cnt cnt }

-- The team, with the handles in serialized messages, by the PE that sent them and the one they go to;
-- those that are counted as references of their sender and not yet as local; and the
-- `FinishedAm`s that are not executed yet.
pub record System : Type 0 where
  pub pes : List DarcInner
  pub in_flight : List (ℕ × ℕ)
  pub arrived : List ℕ
  pub finished : List FinishedAm

-- A step is an access to the counters on one PE, or the two of them that go together. What a thread
-- does between two of them is free, so that the steps of several threads can mix.
pub data Step : System → System → Type 0 where
  serialize :
      (s : System) (p : ℕ) (d : DarcInner) (dsts : List ℕ)
      → get_elem? s.pes p ≡ some d
      → d.dist_cnt + length dsts < usize_mod
      → Step s (record s {
        pes = set s.pes p (serialize_update_cnts (length dsts) d);
        in_flight = s.in_flight ++ map (λ dst. (p, dst)) dsts;
      })
  arrive :
      (s : System) (i src dst c : ℕ) (d e : DarcInner)
      → get_elem? s.in_flight i ≡ some (src, dst)
      → get_elem? s.pes dst ≡ some d
      → get_elem? s.pes src ≡ some e
      → get_elem? d.ref_cnts src ≡ some c
      → Step s (record s {
        pes = set s.pes dst (inc_pe_ref_count src 1 d);
        in_flight = remove_at s.in_flight i;
        arrived = s.arrived ++ (dst ∷ []);
      })
  count_local :
      (s : System) (i dst : ℕ) (d : DarcInner)
      → get_elem? s.arrived i ≡ some dst
      → get_elem? s.pes dst ≡ some d
      → Step s
          (record s { pes = set s.pes dst (inc_local_cnt 1 d); arrived = remove_at s.arrived i })
  clones :
      (s : System) (p : ℕ) (d : DarcInner)
      → get_elem? s.pes p ≡ some d
      → Step s (record s { pes = set s.pes p (clone d) })
  drops :
      (s : System) (p : ℕ) (d : DarcInner)
      → get_elem? s.pes p ≡ some d
      → Step s (record s { pes = set s.pes p (record d { local_cnt = sub_usize d.local_cnt 1 }) })
  downgrades :
      (s : System) (p : ℕ) (d : DarcInner)
      → get_elem? s.pes p ≡ some d
      → Step s (record s { pes = set s.pes p (downgrade d) })
  drops_weak :
      (s : System) (p : ℕ) (d : DarcInner)
      → get_elem? s.pes p ≡ some d
      → Step s (record s { pes = set s.pes p (drop_weak d) })
  upgrades :
      (s : System) (p : ℕ) (d : DarcInner)
      → get_elem? s.pes p ≡ some d
      → Step s (record s { pes = set s.pes p (upgrade d).0 })
  reports :
      (s : System) (p q : ℕ) (d : DarcInner)
      → get_elem? s.pes p ≡ some d
      → Step s (record s {
        pes = set s.pes p (swap_ref_cnt q d).0;
        finished = s.finished ++ (swap_ref_cnt q d).1;
      })
  finishes :
      (s : System) (i : ℕ) (am : FinishedAm) (d : DarcInner)
      → get_elem? s.finished i ≡ some am
      → get_elem? s.pes am.src_pe ≡ some d
      → Step s (record s {
        pes = set s.pes am.src_pe (finished_exec am.cnt d);
        finished = remove_at s.finished i;
      })

-- A new `Darc` of a team of `n` PEs.
unfoldable pub start : ℕ → System
unfolding new
start n = record { pes = replicate n (new n); in_flight = []; arrived = []; finished = [] }

pub data Reach (s : System) : System → Type 0 where
  here : Reach s s
  next : {t u : System} → Reach s t → Step t u → Reach s u
