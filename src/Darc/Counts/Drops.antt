-- ===== src/Darc/Counts/Drops.antt =====
-- `send_finished` and `drop` as steps, and what the drop of a PE's last handle tells the others.
use lamellar_runtime.Prelude.{
  ℕ, zero, suc, ◌+◌, ◌≤◌, ◌<◌, ◌≡◌, refl, sym, ap, ◌∙◌, subst, true, false, ◌&&◌, none, some, List,
  [], ◌∷◌, ◌++◌, length, set, get_elem?, remove_at, total, total-append, arith, ℕ_discrete, ◌==◌,
  if◌then◌else◌, Bool-cases, Option-cases, inl, inr, sub_usize, eq→==,
}
use mathlib.Core.List.{append-nil, append_assoc}
use lamellar_runtime.Darc.Counts.{
  DarcInner, FinishedAm, inc_pe_ref_count, inc_local_cnt, deserialize_update_cnts, arrive,
  count_local, swap_ref_cnt, send_from, send_finished, any_pos, drop_darc, System, drops, reports,
  Reach, here, next,
}
use lamellar_runtime.Darc.Counts.Tallies.{value_of, nth, nth-set, some_inj}

-- The state in which PE `p` has the counts `r.0`, and the reports `r.1` are sent.
abbrev pub told : System → ℕ → DarcInner × List FinishedAm → System
told s p r = record s { pes = set s.pes p r.0; finished = s.finished ++ r.1 }

set-same : {A : Type 0} (xs : List A) (i : ℕ) (x : A) → get_elem? xs i ≡ some x → set xs i x ≡ xs
set-same [] i x e = refl
set-same (y ∷ ys) zero x e = ap (λ z. z ∷ ys) (some_inj (sym e))
set-same (y ∷ ys) (suc i) x e = ap (λ zs. y ∷ zs) (set-same ys i x e)

set-set : {A : Type 0} (xs : List A) (i : ℕ) (x y : A) → set (set xs i x) i y ≡ set xs i y
set-set [] i x y = refl
set-set (z ∷ zs) zero x y = refl
set-set (z ∷ zs) (suc i) x y = ap (λ ws. z ∷ ws) (set-set zs i x y)

set-get :
    {A : Type 0} (xs : List A) (i : ℕ) (x y : A)
    → get_elem? xs i ≡ some x
    → get_elem? (set xs i y) i ≡ some y
set-get [] i x y e = absurd (cc)
set-get (z ∷ zs) zero x y e = refl
set-get (z ∷ zs) (suc i) x y e = set-get zs i x y e

Reach-trans : {s t u : System} → Reach s t → Reach t u → Reach s u
Reach-trans r here = r
Reach-trans r (next q st) = next (Reach-trans r q) st

told-none : (s : System) (p : ℕ) (d : DarcInner) → get_elem? s.pes p ≡ some d → told s p (d, []) ≡ s
told-none s p d e = rw (set-same s.pes p d e, append-nil) refl

told-told :
    (s : System) (p : ℕ) (d e : DarcInner) (xs ys : List FinishedAm)
    → told (told s p (d, xs)) p (e, ys) ≡ told s p (e, xs ++ ys)
told-told s p d e xs ys = rw (set-set s.pes p d e, append_assoc) refl

send_from-Reach :
    (rounds pe : ℕ) (s : System) (p : ℕ) (d : DarcInner)
    → get_elem? s.pes p ≡ some d
    → Reach s (told s p (send_from rounds pe d))
unfolding send_from
send_from-Reach zero pe s p d e = subst (Reach s) (sym (told-none s p d e)) here
send_from-Reach (suc rounds) pe s p d e =
    let r = swap_ref_cnt pe d in
    let more = send_from rounds (suc pe) r.0 in
    let step : Reach s (told s p r) = next here (reports s p pe d e) in
    let rest = send_from-Reach rounds (suc pe) (told s p r) p r.0 (set-get s.pes p d r.0 e) in
    subst (Reach s) (told-told s p r.0 more.0 r.1 more.1) (Reach-trans step rest)

pub send_finished-Reach :
    (s : System) (p : ℕ) (d : DarcInner)
    → get_elem? s.pes p ≡ some d
    → Reach s (told s p (send_finished d))
unfolding send_finished
send_finished-Reach s p d e = send_from-Reach (length d.ref_cnts) 0 s p d e

-- The drop of a handle is made of steps.
pub drop_darc-Reach :
    (s : System) (p : ℕ) (d : DarcInner)
    → get_elem? s.pes p ≡ some d
    → Reach s (told s p (drop_darc d).0)
unfolding drop_darc
drop_darc-Reach s p d e = elim (Bool-cases (d.local_cnt == 1 && any_pos d.ref_cnts)) [
  | inl y ↦
      rw (y, drop_darc)
        (let more = send_finished d₁ in
          subst (Reach s) (told-told s p d₁ more.0 [] more.1) (
            Reach-trans first
              (send_finished-Reach (told s p (d₁, [])) p d₁ (set-get s.pes p d d₁ e))))
  | inr n ↦ rw (n, drop_darc) first
]
  where
    d₁ : DarcInner
    d₁ = record d { local_cnt = sub_usize d.local_cnt 1 }

    first : Reach s (told s p (d₁, []))
    first =
        subst (λ xs. Reach s (record s { pes = set s.pes p d₁; finished = xs }))
          (sym (append-nil s.finished)) (next here (drops s p d e))

get-last : (xs : List ℕ) (x : ℕ) → get_elem? (xs ++ (x ∷ [])) (length xs) ≡ some x
get-last [] x = refl
get-last (y ∷ ys) x = get-last ys x

remove-last : (xs : List ℕ) (x : ℕ) → remove_at (xs ++ (x ∷ [])) (length xs) ≡ xs
remove-last [] x = refl
remove-last (y ∷ ys) x = ap (λ zs. y ∷ zs) (remove-last ys x)

-- What a PE does for a handle that it takes out of a message is made of steps.
pub deserialize_update_cnts-Reach :
    (s : System) (i src dst c : ℕ) (d e : DarcInner)
    → get_elem? s.in_flight i ≡ some (src, dst)
    → get_elem? s.pes dst ≡ some d
    → get_elem? s.pes src ≡ some e
    → get_elem? d.ref_cnts src ≡ some c
    → Reach s (record s {
      pes = set s.pes dst (deserialize_update_cnts src d);
      in_flight = remove_at s.in_flight i;
    })
unfolding deserialize_update_cnts
deserialize_update_cnts-Reach s i src dst c d e h p₁ p₂ g =
    let d₁ = inc_pe_ref_count src 1 d in
    let s₁ : System = record s {
      pes = set s.pes dst d₁;
      in_flight = remove_at s.in_flight i;
      arrived = s.arrived ++ (dst ∷ []);
    } in
    let two = next (next here (arrive s i src dst c d e h p₁ p₂ g)) (
      count_local s₁ (length s.arrived) dst d₁ (get-last s.arrived dst)
        (set-get s.pes dst d d₁ p₁)) in
    let after : List DarcInner → List ℕ → System = λ pes arrived. record s {
      pes = pes;
      in_flight = remove_at s.in_flight i;
      arrived = arrived;
    } in
    let d₂ = inc_local_cnt 1 d₁ in
    subst (λ pes. Reach s (after pes s.arrived)) (set-set s.pes dst d₁ d₂)
      (subst (λ xs. Reach s (after (set (set s.pes dst d₁) dst d₂) xs)) (remove-last s.arrived dst)
        two)

-- What is reported to PE `q`.
abbrev pub to_pe : ℕ → List FinishedAm → ℕ
to_pe q ams = total (λ am. if am.src_pe == q then am.cnt else 0) ams

swap_moves :
    (pe q : ℕ) (d : DarcInner)
    → (nth (swap_ref_cnt pe d).0.ref_cnts q + to_pe q (swap_ref_cnt pe d).1 ≡ nth d.ref_cnts q)
      × (pe ≡ q → nth (swap_ref_cnt pe d).0.ref_cnts q ≡ 0)
unfolding swap_ref_cnt
swap_moves pe q d = elim (Option-cases (get_elem? d.ref_cnts pe)) [
  | inl n ↦
      rw (n, swap_ref_cnt)
        (omega arith, λ e. ap value_of (subst (λ j. get_elem? d.ref_cnts j ≡ none) e n))
  | inr (c, g) ↦
      rw (g, swap_ref_cnt)
        (
          ground (arith, nth-set d.ref_cnts pe q c 0 g),
          λ e. ground (arith, nth-set d.ref_cnts pe q c 0 g),
        )
]

send_from_moves :
    (rounds pe q : ℕ) (d : DarcInner)
    → let r = send_from rounds pe d in nth r.0.ref_cnts q + to_pe q r.1 ≡ nth d.ref_cnts q
unfolding send_from
send_from_moves zero pe q d = omega arith
send_from_moves (suc rounds) pe q d =
    let r = swap_ref_cnt pe d in
    let more = send_from rounds (suc pe) r.0 in
    omega (
      arith,
      (swap_moves pe q d).0,
      send_from_moves rounds (suc pe) q r.0,
      total-append (λ (am : FinishedAm). if am.src_pe == q then am.cnt else 0) r.1 more.1,
    )

swap_local : (pe : ℕ) (d : DarcInner) → (swap_ref_cnt pe d).0.local_cnt ≡ d.local_cnt
unfolding swap_ref_cnt
swap_local pe d = elim (Option-cases (get_elem? d.ref_cnts pe)) [
  | inl n ↦ rw (n, swap_ref_cnt) refl
  | inr (c, g) ↦ rw (g, swap_ref_cnt) refl
]

send_from_local :
    (rounds pe : ℕ) (d : DarcInner) → (send_from rounds pe d).0.local_cnt ≡ d.local_cnt
unfolding send_from
send_from_local zero pe d = refl
send_from_local (suc rounds) pe d =
    send_from_local rounds (suc pe) (swap_ref_cnt pe d).0 ∙ swap_local pe d

send_from_clears :
    (rounds pe q : ℕ) (d : DarcInner)
    → pe ≤ q
    → q < pe + rounds
    → nth (send_from rounds pe d).0.ref_cnts q ≡ 0
unfolding send_from
send_from_clears zero pe q d low high = absurd (omega arith)
send_from_clears (suc rounds) pe q d low high =
    let d₁ = (swap_ref_cnt pe d).0 in
    elim (ℕ_discrete pe q) [
      | yes same ↦ omega (arith, (swap_moves pe q d).1 same, send_from_moves rounds (suc pe) q d₁)
      | no other ↦ send_from_clears rounds (suc pe) q d₁ (omega arith) (omega arith)
    ]

no_refs : (cnts : List ℕ) (q : ℕ) → any_pos cnts ≡ false → nth cnts q ≡ 0
no_refs [] q z = refl
no_refs (c ∷ cs) zero z = ground arith
no_refs (c ∷ cs) (suc q) z = no_refs cs q (ground arith)

-- The drop of a PE's last handle leaves it no reference of any PE of the team to report, and the `FinishedAm`s
-- that it sends tell each PE of as many as were counted; it asks for the collecting task.
pub drop_last_reports :
    (d : DarcInner) (q : ℕ)
    → d.local_cnt ≡ 1
    → q < length d.ref_cnts
    → (nth (drop_darc d).0.0.ref_cnts q ≡ 0)
      × (to_pe q (drop_darc d).0.1 ≡ nth d.ref_cnts q)
      × ((drop_darc d).1 ≡ true)
unfolding drop_darc send_finished
drop_last_reports d q one inside =
    let d₁ = record d { local_cnt = sub_usize d.local_cnt 1 } in
    let last : (d.local_cnt == 1) ≡ true = eq→== d.local_cnt 1 one in
    let none_left : sub_usize d.local_cnt 1 ≡ 0 = omega arith in
    elim (Bool-cases (any_pos d.ref_cnts)) [
      | inl y ↦
          let z = send_from_clears (length d.ref_cnts) 0 q d₁ (omega arith) (omega arith) in
          let kept = send_from_local (length d.ref_cnts) 0 d₁ in
          rw (last, y, drop_darc)
            (
              z,
              omega (arith, z, send_from_moves (length d.ref_cnts) 0 q d₁),
              eq→== (send_from (length d.ref_cnts) 0 d₁).0.local_cnt 0 (kept ∙ none_left),
            )
      | inr n ↦
          let z = no_refs d.ref_cnts q n in
          rw (last, n, drop_darc) (z, sym z, eq→== (sub_usize d.local_cnt 1) 0 none_left)
    ]
