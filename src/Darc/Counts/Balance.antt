-- ===== src/Darc/Counts/Balance.antt =====
-- Each handle that a PE has sent is counted until a `FinishedAm` has told of it.
use lamellar_runtime.Prelude.{
  ℕ, zero, suc, ◌+◌, ◌<◌, ◌≡◌, refl, sym, ap, some, [], ◌∷◌, ◌++◌, get_elem?, remove_at, All,
  All-get_elem?, total, arith, Bool-cases, inl, inr, usize_mod, sub_usize,
}
use lamellar_runtime.Darc.Counts.{
  DarcInner, FinishedAm, replicate, new, inc_local_cnt, clone, downgrade, drop_weak, upgrade,
  finished_exec, System, Step, serialize, arrive, count_local, clones, drops, downgrades,
  drops_weak, upgrades, reports, finishes, start, Reach, here, next,
}
use lamellar_runtime.Darc.Counts.Tallies.{nth, on_the_way, counted, reported, IsBalanced, some_inj}
use lamellar_runtime.Darc.Counts.Handles.{local-IsBalanced, serialize-IsBalanced, arrive-IsBalanced}
use lamellar_runtime.Darc.Counts.Reports.{reports-IsBalanced, reported-le, finishes-IsBalanced}

replicate-total : {A : Type 0} (w : A → ℕ) (n : ℕ) (x : A) → w x ≡ 0 → total w (replicate n x) ≡ 0
replicate-total w zero x z = refl
replicate-total w (suc n) x z = omega (arith, z, replicate-total w n x z)

get_elem?-replicate :
    {A : Type 0} (n i : ℕ) (x y : A) → get_elem? (replicate n x) i ≡ some y → y ≡ x
get_elem?-replicate zero i x y e = absurd (cc)
get_elem?-replicate (suc n) zero x y e = some_inj (sym e)
get_elem?-replicate (suc n) (suc i) x y e = get_elem?-replicate n i x y e

nth-replicate : (n i : ℕ) → nth (replicate n 0) i ≡ 0
nth-replicate zero i = refl
nth-replicate (suc n) zero = refl
nth-replicate (suc n) (suc i) = nth-replicate n i

All-replicate : {A : Type 0} (P : A → Type 0) (n : ℕ) (x : A) → P x → All P (replicate n x)
All-replicate P zero x p = tt
All-replicate P (suc n) x p = (p, All-replicate P n x p)

start-IsBalanced : (n : ℕ) → IsBalanced (start n)
unfolding start new
start-IsBalanced n = record {
  balance = λ q d e. omega (
    arith,
    ap (λ (x : DarcInner). x.dist_cnt) (get_elem?-replicate n q (new n) d e),
    replicate-total (λ (d : DarcInner). nth d.ref_cnts q) n (new n) (nth-replicate n q),
  );
  bounded = All-replicate (λ (d : DarcInner). d.dist_cnt < usize_mod) n (new n) (omega arith);
}

upgrade-kept :
    (d : DarcInner) → ((upgrade d).0.dist_cnt ≡ d.dist_cnt) × ((upgrade d).0.ref_cnts ≡ d.ref_cnts)
unfolding upgrade
upgrade-kept d = elim (Bool-cases d.valid) [
  | inl y ↦ rw (y, upgrade) (refl, refl)
  | inr n ↦ rw (n, upgrade) (refl, refl)
]

Step-IsBalanced : {s t : System} → Step s t → IsBalanced s → IsBalanced t
unfolding inc_local_cnt clone downgrade drop_weak
Step-IsBalanced (serialize s p d dsts e h) b = serialize-IsBalanced s p d dsts e h b
Step-IsBalanced (arrive s i src dst c d e h p₁ p₂ g) b =
    arrive-IsBalanced s i src dst c d e (s.arrived ++ (dst ∷ [])) h p₁ p₂ g b
Step-IsBalanced (count_local s i dst d h e) b =
    local-IsBalanced s dst d (inc_local_cnt 1 d) (remove_at s.arrived i) e refl refl b
Step-IsBalanced (clones s p d e) b = local-IsBalanced s p d (clone d) s.arrived e refl refl b
Step-IsBalanced (drops s p d e) b =
    local-IsBalanced s p d (record d { local_cnt = sub_usize d.local_cnt 1 }) s.arrived e refl refl
      b
Step-IsBalanced (downgrades s p d e) b =
    local-IsBalanced s p d (downgrade d) s.arrived e refl refl b
Step-IsBalanced (drops_weak s p d e) b =
    local-IsBalanced s p d (drop_weak d) s.arrived e refl refl b
Step-IsBalanced (upgrades s p d e) b =
    local-IsBalanced s p d (upgrade d).0 s.arrived e (upgrade-kept d).0 (upgrade-kept d).1 b
Step-IsBalanced (reports s p q d e) b = reports-IsBalanced s p q d e b
Step-IsBalanced (finishes s i am d h e) b = finishes-IsBalanced s i am d h e b

pub Reach-IsBalanced : (n : ℕ) {s : System} → Reach (start n) s → IsBalanced s
Reach-IsBalanced n here = start-IsBalanced n
Reach-IsBalanced n (next r st) = Step-IsBalanced st (Reach-IsBalanced n r)

-- In every state that a new `Darc` reaches, whatever the order of the accesses: a PE's `dist_cnt` is the
-- number of its handles in messages that are on their way, and of the references of it that the PEs
-- have counted and not reported, and of those that are reported and not taken off yet.
pub dist_cnt_balance :
    (n : ℕ) (s : System) (q : ℕ) (d : DarcInner)
    → Reach (start n) s
    → get_elem? s.pes q ≡ some d
    → d.dist_cnt ≡ on_the_way q s + counted q s + reported q s
dist_cnt_balance n s q d r e = (Reach-IsBalanced n r).balance q d e

-- In every state that a new `Darc` reaches, a `FinishedAm` that is not executed yet takes off no more than the
-- `dist_cnt` of the PE that it goes to: what it leaves is the difference, without a wrap below 0.
pub finished_exec_fits :
    (n : ℕ) (s : System) (i : ℕ) (am : FinishedAm) (d : DarcInner)
    → Reach (start n) s
    → get_elem? s.finished i ≡ some am
    → get_elem? s.pes am.src_pe ≡ some d
    → (finished_exec am.cnt d).dist_cnt + am.cnt ≡ d.dist_cnt
unfolding finished_exec
finished_exec_fits n s i am d r h e = omega (
  arith,
  reported-le s i am d h e (Reach-IsBalanced n r),
  All-get_elem? (λ (d : DarcInner). d.dist_cnt < usize_mod) s.pes am.src_pe d
      (Reach-IsBalanced n r).bounded e,
)
