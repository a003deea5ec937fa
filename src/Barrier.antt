-- ===== src/Barrier.antt =====
-- `Barrier` of src/barrier.rs: the n-way dissemination barrier of a team. `barrier_internal` and
-- `async_barrier` are the same loop but for how they wait. PEs are named by their index in the team; `Arch`
-- has the translation. The timeout's messages and the early return after a panic are left out.
pub mod Peers
pub mod Invariant
pub mod Moves
pub mod Separation
pub mod Rounds
mod Tests
use lamellar_runtime.Prelude.{
  ℕ, zero, suc, ◌+◌, ◌-◌, ◌*◌, ◌/◌, ◌%◌, ◌^◌, ◌≤◌, ◌<◌, min, max, ◌≡◌, refl, sym, ap, ◌∙◌, subst,
  ◌≢◌, ◌↔◌, ◌⊎◌, inl, inr, Bool, true, false, ◌&&◌, ◌||◌, not, Option, none, some, List, [], ◌∷◌,
  ◌++◌, map, set, remove_at, All-remove_at, arith, dec_lt, dec_le, ℕ_discrete, ltb, leb, ◌==◌,
  if◌then◌else◌, ltb→lt, lt→ltb, le→ltb, leb→le, le→leb, leb→lt, eq→==, ==→eq, ne→==, Bool-cases,
  Option-cases, is_some, length, get_elem?, insert_at, pop_last, All, All-imp, pop_last-append,
  length-append, length-set, All-get_elem?, All-set, total, total-set, get_elem?-le-total,
  total-two, total-le-length, total-eq-zero, total_mono, total-witness, usize_mod, add_usize,
  sub_usize, mul_usize, mul_le, mul_lt,
}

-- What `new` needs of `f64`: `log2`, `/`, and `.ceil()` and truncation with the cast to `usize`.
pub record Logs : Type 1 where
  pub F : Type 0
  pub from_usize : ℕ → F
  pub log2 : F → F
  pub div : F → F → F
  pub ceil : F → ℕ
  pub truncate : F → ℕ

-- The fields of `Barrier` that stay as they are.
pub record Barrier : Type 0 where
  pub num_pes : ℕ
  pub n : ℕ
  pub num_rounds : ℕ

-- `new`, where the environment or the default gives `factor`.
unfoldable pub new : Logs → ℕ → ℕ → Barrier
new f factor num_pes =
    if ltb 1 factor && ltb 2 num_pes
    then record {
      num_pes = num_pes;
      n = factor;
      num_rounds = f.ceil (f.div (f.log2 (f.from_usize num_pes)) (f.log2 (f.from_usize factor)));
    }
    else record {
      num_pes = num_pes;
      n = 1;
      num_rounds = f.truncate (f.log2 (f.from_usize num_pes));
    }

-- `i * (self.n + 1).pow(round as u32)`
unfoldable pub distance : Barrier → ℕ → ℕ → ℕ
distance b i round = mul_usize i ((b.n + 1) ^ round % 2 ^ 64)

unfoldable pub team_send_pe : Barrier → ℕ → ℕ → ℕ → ℕ
unfolding distance
team_send_pe b my_index i round = add_usize my_index (distance b i round) % b.num_pes

-- `(x - y).rem_euclid(n)` of two `isize` that are not negative.
unfoldable pub sub_rem_euclid : ℕ → ℕ → ℕ → ℕ
sub_rem_euclid x y n =
    if leb y x then (x - y) % n else (if (y - x) % n == 0 then 0 else n - (y - x) % n)

unfoldable pub team_recv_pe : Barrier → ℕ → ℕ → ℕ → ℕ
unfolding distance sub_rem_euclid
team_recv_pe b my_index i round = sub_rem_euclid my_index (distance b i round) b.num_pes

-- Where a PE stands: at the head of the `i`-loop that sends or of the one that waits, in a round.
pub data Pos : Type 0 where
  outside : Pos
  sending : ℕ → ℕ → Pos
  receiving : ℕ → ℕ → Pos

-- `barrier_id` is the one of the call that the PE is in, or of its last one.
pub record Pe : Type 0 where
  pub barrier_cnt : ℕ
  pub barrier_id : ℕ
  pub pos : Pos

-- A `put_slice` under way: to slot `round` of `barrier_buf[i - 1]` on PE `target`.
pub record Put : Type 0 where
  pub target : ℕ
  pub i : ℕ
  pub round : ℕ
  pub value : ℕ

-- `buf p i round` is slot `round` of `barrier_buf[i - 1]` on PE `p`.
pub record Team : Type 0 where
  pub pes : ℕ → Pe
  pub buf : ℕ → ℕ → ℕ → ℕ
  pub puts : List Put

unfoldable pub start : Team
start = record {
  pes = λ p. record { barrier_cnt = 1; barrier_id = 0; pos = outside };
  buf = λ p i round. 0;
  puts = [];
}

-- `barrier_id = self.barrier_cnt.fetch_add(1)`, and on to the first round.
unfoldable pub enter : Pe → Pe
enter pe = record {
  barrier_cnt = add_usize pe.barrier_cnt 1;
  barrier_id = pe.barrier_cnt;
  pos = sending 0 1;
}

-- The next turn of the loops on PE `my_index`: where it stands then, and the message it sends.
unfoldable pub turn : Barrier → (ℕ → ℕ → ℕ → ℕ) → ℕ → ℕ → Pos → Pos × Option Put
unfolding team_send_pe team_recv_pe
turn b buf my_index barrier_id outside = (outside, none)
turn b buf my_index barrier_id (sending round i) =
    if not (ltb round b.num_rounds)
    then (outside, none)
    else if not (leb i b.n)
    then (receiving round 1, none)
    else (
      sending round (suc i),
      if team_send_pe b my_index i round == my_index
          then none
          else some (record {
            target = team_send_pe b my_index i round;
            i = i;
            round = round;
            value = barrier_id;
          }),
    )
turn b buf my_index barrier_id (receiving round i) =
    if not (leb i b.n)
    then (sending (suc round) 1, none)
    else if not (team_recv_pe b my_index i round == my_index)
        && ltb (buf my_index i round) barrier_id
    then (receiving round i, none)
    else (receiving round (suc i), none)

abbrev pub set_pe : (ℕ → Pe) → ℕ → Pe → ℕ → Pe
set_pe pes p pe q = if q == p then pe else pes q

abbrev pub post : Option Put → List Put → List Put
post none puts = puts
post (some put) puts = put ∷ puts

-- A write to one slot.
abbrev pub store : (ℕ → ℕ → ℕ → ℕ) → Put → ℕ → ℕ → ℕ → ℕ
store buf put p i round =
    if p == put.target && (i == put.i && round == put.round) then put.value else buf p i round

unfoldable pub run_pe : Barrier → Team → ℕ → Team
unfolding turn
run_pe b t p =
    let pe = t.pes p in
    let (pos, sent) = turn b t.buf p pe.barrier_id pe.pos in
    record t { pes = set_pe t.pes p (record pe { pos = pos }); puts = post sent t.puts }

-- A PE enters the barrier, takes its next turn, or a message arrives, in any order. No PE enters more than
-- 2^64 - 2 barriers.
pub data Step (b : Barrier) (t : Team) : Team → Type 0 where
  enters :
      (p : ℕ)
      → p < b.num_pes
      → (t.pes p).pos ≡ outside
      → (t.pes p).barrier_cnt < 2 ^ 64 - 1
      → Step b t (record t { pes = set_pe t.pes p (enter (t.pes p)) })
  runs : (p : ℕ) → p < b.num_pes → Step b t (run_pe b t p)
  arrives :
      (j : ℕ) (put : Put)
      → get_elem? t.puts j ≡ some put
      → Step b t (record t { buf = store t.buf put; puts = remove_at t.puts j })

pub data Reach (b : Barrier) : Team → Type 0 where
  begin : Reach b start
  later : {t u : Team} → Reach b t → Step b t u → Reach b u
