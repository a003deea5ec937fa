-- ===== src/Barrier/Peers.antt =====
-- The PEs that a PE of the barrier writes to and waits for.
use lamellar_runtime.Prelude.{
  ℕ, ◌+◌, ◌-◌, ◌*◌, ◌/◌, ◌%◌, ◌^◌, ◌≤◌, ◌<◌, ◌≡◌, sym, ap, ◌∙◌, arith, dec_le, ℕ_discrete, le→leb,
  add_usize, mul_lt,
}
use lamellar_runtime.Barrier.{Barrier, distance, team_send_pe, sub_rem_euclid, team_recv_pe}
use native.Mathlib.Nat.{
  mod-eq_of_lt, mod-lt, div-add-mod, add-mul-mod_self_left, pow-le-pow_right, mul-le-mul,
}

-- The rounds suffice for the PEs, and the largest distance is an `isize`.
pub record IsValid (b : Barrier) : Type 0 where
  pub some_pes : 0 < b.num_pes
  pub some_peers : 0 < b.n
  pub covers : b.num_pes ≤ (b.n + 1) ^ b.num_rounds
  pub small : b.n * (b.n + 1) ^ b.num_rounds + b.num_pes < 2 ^ 63

mod_of : (x s k n : ℕ) → s < n → x ≡ s + n * k → x % n ≡ s
mod_of x s k n h e = ap (λ z. z % n) e ∙ add-mul-mod_self_left s n k ∙ mod-eq_of_lt h

-- A multiple of `n` between two numbers less than `n` apart is none.
apart : (x s y n a c : ℕ) → s < n → x + y + n * c ≡ s + y + n * a → (k : ℕ) × (x ≡ s + n * k)
apart x s y n a c h e = elim (dec_le c a) [
  | yes le ↦
      let split : a ≡ c + (a - c) = omega arith in (a - c, omega (arith, e, ap (λ z. n * z) split))
  | no gt ↦ absurd (omega (arith, e, mul_lt a c n (omega arith)))
]

-- A summand under `%` cancels.
pub cancel_mod : (x s y n : ℕ) → s < n → (x + y) % n ≡ (s + y) % n → x % n ≡ s
cancel_mod x s y n h e =
    let (k, same) =
      apart x s y n ((x + y) / n) ((s + y) / n) h
        (omega (arith, e, div-add-mod (x + y) n, div-add-mod (s + y) n)) in
    mod_of x s k n h same

pub behind-lt : (x y n : ℕ) → x < n → sub_rem_euclid x y n < n
unfolding sub_rem_euclid
behind-lt x y n h =
    ground (arith, mod-lt (x - y) {m = n} (omega arith), mod-lt (y - x) {m = n} (omega arith))

pub behind_and_back : (x y n : ℕ) → x < n → (sub_rem_euclid x y n + y) % n ≡ x
unfolding sub_rem_euclid
behind_and_back x y n h = elim (dec_le y x) [
  | yes le ↦
      let low : x - y < n = omega arith in
      rw (le→leb y x le, mod-eq_of_lt low) (ap (λ z. z % n) (omega arith) ∙ mod-eq_of_lt h)
  | no gt ↦ (elim (ℕ_discrete ((y - x) % n) 0) [
    | yes z ↦
        mod_of (sub_rem_euclid x y n + y) x ((y - x) / n) n h
          (ground (arith, div-add-mod (y - x) n))
    | no nz ↦
        mod_of (sub_rem_euclid x y n + y) x ((y - x) / n + 1) n h
          (ground (arith, div-add-mod (y - x) n, mod-lt (y - x) {m = n} (omega arith)))
  ])
]

module _ (b : Barrier) (valid : IsValid b) where
  module _ (p i round : ℕ) (known : p < b.num_pes) (peer : i ≤ b.n)
      (inside : round < b.num_rounds) where
    pub distance-eq : distance b i round ≡ i * (b.n + 1) ^ round
    unfolding distance
    distance-eq =
        let power : (b.n + 1) ^ round ≤ (b.n + 1) ^ b.num_rounds =
          pow-le-pow_right (omega arith) (omega arith) in
        let product : i * (b.n + 1) ^ round ≤ b.n * (b.n + 1) ^ b.num_rounds =
          mul-le-mul peer power in
        let power_small : 1 * (b.n + 1) ^ round ≤ b.n * (b.n + 1) ^ b.num_rounds =
          mul-le-mul valid.some_peers power in
        let e : (b.n + 1) ^ round % 2 ^ 64 ≡ (b.n + 1) ^ round =
          omega (arith, power_small, valid.small) in
        rw e (omega (arith, product, valid.small))

    -- The PE that a PE waits for is the team's, and the PE that is as far behind.
    pub team_recv_pe-behind :
        (team_recv_pe b p i round < b.num_pes)
        × ((team_recv_pe b p i round + i * (b.n + 1) ^ round) % b.num_pes ≡ p)
    unfolding team_recv_pe
    team_recv_pe-behind = rw distance-eq (
      behind-lt p (i * (b.n + 1) ^ round) b.num_pes known,
      behind_and_back p (i * (b.n + 1) ^ round) b.num_pes known,
    )

  -- In a valid barrier a PE writes to one of the team, and that one waits for it in the same slot.
  pub team_recv_pe-team_send_pe :
      (p i round : ℕ)
      → p < b.num_pes
      → i ≤ b.n
      → round < b.num_rounds
      → (team_send_pe b p i round < b.num_pes)
        × (team_recv_pe b (team_send_pe b p i round) i round ≡ p)
  unfolding team_send_pe
  team_recv_pe-team_send_pe p i round known peer inside =
      let target = team_send_pe b p i round in
      let far = i * (b.n + 1) ^ round in
      let product : far ≤ b.n * (b.n + 1) ^ b.num_rounds =
        mul-le-mul peer (pow-le-pow_right (omega arith) (omega arith)) in
      let no_wrap : add_usize p (distance b i round) ≡ p + far =
        omega (arith, distance-eq p i round known peer inside, product, valid.small) in
      let same : target ≡ (p + far) % b.num_pes = ap (λ z. z % b.num_pes) no_wrap in
      let known_target : target < b.num_pes =
        mod-lt (add_usize p (distance b i round)) valid.some_pes in
      let (below, back) = team_recv_pe-behind target i round known_target peer inside in
      (
        known_target,
        sym (mod-eq_of_lt below)
            ∙ cancel_mod (team_recv_pe b target i round) p far b.num_pes known (back ∙ same),
      )
