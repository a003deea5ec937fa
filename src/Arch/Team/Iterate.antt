-- ===== src/Arch/Team/Iterate.antt =====
-- The iterators of a team: the ids of the world in the order of the team's ids.
use lamellar_runtime.Prelude.{
  ℕ, zero, suc, ◌+◌, ◌^◌, ◌≤◌, ◌<◌, ◌≡◌, refl, ap, ◌∙◌, false, none, [], ◌∷◌, arith, dec_lt,
  get_elem?,
}
use lamellar_runtime.Arch.{ok}
use lamellar_runtime.Arch.Team.{
  LamellarArchRt, num_pes, world_pe, Iter, team_iter, single_iter, collect, to_option,
}
use lamellar_runtime.Arch.Team.Ids.{IsTeam, world_pe-known, world_pe-unknown}

abbrev at : LamellarArchRt → ℕ → Iter
at t cur = record { team = t; cur_pe = cur; single = false }

collect_more :
    (t : LamellarArchRt) (fuel cur w : ℕ)
    → num_pes t < 2 ^ 64
    → cur < num_pes t
    → world_pe t cur ≡ ok w
    → collect (suc fuel) (at t cur) ≡ w ∷ collect fuel (at t (suc cur))
unfolding collect
collect_more t fuel cur w small h e = ground arith

collect_done :
    (t : LamellarArchRt) (fuel cur : ℕ) → num_pes t ≤ cur → collect (suc fuel) (at t cur) ≡ []
unfolding collect
collect_done t fuel cur h = ground arith

module _ (t : LamellarArchRt) (team : IsTeam t) (small : num_pes t < 2 ^ 64) where
  unknown_none : (pe : ℕ) → num_pes t ≤ pe → to_option (world_pe t pe) ≡ none
  unknown_none pe h = let (e, failed) = world_pe-unknown t pe team h in rw failed

  collect-from :
      (fuel cur i : ℕ)
      → num_pes t < cur + fuel
      → get_elem? (collect fuel (at t cur)) i ≡ to_option (world_pe t (cur + i))
  collect-from zero cur i enough = rw (collect_zero, unknown_none (cur + i) (omega arith))
    where
      collect_zero : collect zero (at t cur) ≡ []
      collect_zero = unfold collect in refl
  collect-from (suc fuel) cur zero enough = elim (dec_lt cur (num_pes t)) [
    | yes h ↦
        let (w, e, back) = world_pe-known t cur team h in
        let same : cur + 0 ≡ cur = omega arith in
        rw (collect_more t fuel cur w small h e, same, e) refl
    | no h ↦ rw (collect_done t fuel cur (omega arith), unknown_none (cur + 0) (omega arith)) refl
  ]
  collect-from (suc fuel) cur (suc i) enough = elim (dec_lt cur (num_pes t)) [
    | yes h ↦
        let (w, e, back) = world_pe-known t cur team h in
        let same : cur + suc i ≡ suc cur + i = omega arith in
        rw (collect_more t fuel cur w small h e, same) (collect-from fuel (suc cur) i (omega arith))
    | no h ↦
        rw (collect_done t fuel cur (omega arith), unknown_none (cur + suc i) (omega arith)) refl
  ]

  -- The iterator of a sound team of fewer than 2^64 PEs yields the PEs of the world that the ids 0, 1, …
  -- stand for, in this order, and ends behind the team's last id; one step more than the team has PEs is
  -- enough.
  pub get_elem?-team_iter :
      (i : ℕ) → get_elem? (collect (suc (num_pes t)) (team_iter t)) i ≡ to_option (world_pe t i)
  unfolding team_iter
  get_elem?-team_iter i =
      let same : 0 + i ≡ i = omega arith in
      collect-from (suc (num_pes t)) 0 i (omega arith) ∙ ap (λ k. to_option (world_pe t k)) same

  -- In a sound team of fewer than 2^64 PEs the iterator of one id yields its PE of the world, and ends.
  pub collect-single_iter :
      (pe : ℕ)
      → pe < num_pes t
      → (w : ℕ) × (world_pe t pe ≡ ok w) × (collect 2 (single_iter t pe) ≡ w ∷ [])
  unfolding single_iter collect
  collect-single_iter pe h =
      let (w, e, back) = world_pe-known t pe team h in (w, e, ground (arith, e, small))
