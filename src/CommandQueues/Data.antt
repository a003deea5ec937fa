-- ===== src/CommandQueues/Data.antt =====
-- The hash that guards a command on its way, and the reference counts that a buffer's commands lower.
use lamellar_runtime.Prelude.{
  ℕ, ◌+◌, ◌^◌, ◌≤◌, ◌<◌, ◌≡◌, refl, ap, ◌≢◌, inl, inr, true, false, ◌&&◌, List, [], ◌∷◌,
  total-append, arith, ltb, ◌==◌, if◌then◌else◌, eq→==, ==→eq, ne→==, Bool-cases, total, add_usize,
}
use lamellar_runtime.CommandQueues.Hash
use lamellar_runtime.CommandQueues.Hash.{Memory}
use lamellar_runtime.CommandQueues.Messages.{Cmd, tx, CmdMsg, hash, clear_cmd, calc_hash}
use lamellar_runtime.CommandQueues.Bufs.{
  CmdBuf, Heap, announce, drop_all, drop_data, size, ref_cnt_addr,
}
use lamellar_runtime.CommandQueues.Owned.{count}
use lamellar_runtime.CommandQueues.Messages.{check_hash, ready, nothing, received, as_usize}
use lamellar_runtime.CommandQueues.Freeing.{lowers}

hash-pos : (m : CmdMsg) → hash m ≢ 0
unfolding hash
hash-pos m e = ground (arith, e)

check_hash-calc_hash : (m : CmdMsg) → check_hash (calc_hash m) ≡ true
unfolding check_hash calc_hash hash
check_hash-calc_hash m = rw (eq→== (hash m) (hash m) refl, ne→== (hash m) 0 (hash-pos m)) refl

abbrev sum : CmdMsg → ℕ
sum m = add_usize (add_usize (add_usize m.daddr m.dsize) (as_usize m.cmd)) m.msg_hash

hash-sum : (m m' : CmdMsg) → hash m ≢ 1 → hash m ≡ hash m' → sum m ≡ sum m'
unfolding hash
hash-sum m m' h e = ground (arith, h, e)

-- A hash that was taken of another sum does not pass.
check_hash-other :
    (m m' : CmdMsg)
    → hash m ≢ 1
    → sum m ≢ sum m'
    → check_hash (record m' { cmd_hash = hash m }) ≡ false
unfolding check_hash hash
check_hash-other m m' h ne = rw (ne→== (hash m) (hash m') (λ e. ne (hash-sum m m' h e))) refl

ready-unhashed : (m : CmdMsg) → check_hash m ≡ false → ready m ≡ nothing
unfolding ready
ready-unhashed m e = rw e refl

as_usize-small : (c : Cmd) → as_usize c < 8
as_usize-small Cmd.clear = omega arith
as_usize-small Cmd.free = omega arith
as_usize-small Cmd.release = omega arith
as_usize-small Cmd.print = omega arith
as_usize-small Cmd.tx = omega arith
as_usize-small Cmd.alloc = omega arith
as_usize-small Cmd.panic = omega arith

calc_hash-word : (memory : Memory) (addr len : ℕ) → Hash.calc_hash memory addr len < 2 ^ 64
unfolding Hash.calc_hash
calc_hash-word memory addr len = omega arith

-- A slot that holds the command `m` but for one word, which is not the command's.
pub data Torn (m : CmdMsg) : CmdMsg → Type 0 where
  at_daddr : (old : ℕ) → old < 2 ^ 64 → old ≢ m.daddr → Torn m (record m { daddr = old })
  at_dsize : (old : ℕ) → old < 2 ^ 64 → old ≢ m.dsize → Torn m (record m { dsize = old })
  at_cmd : (old : Cmd) → as_usize old ≢ as_usize m.cmd → Torn m (record m { cmd = old })
  at_msg_hash : (old : ℕ) → old < 2 ^ 64 → old ≢ m.msg_hash → Torn m (record m { msg_hash = old })
  at_cmd_hash : (old : ℕ) → old ≢ m.cmd_hash → Torn m (record m { cmd_hash = old })

check_hash-Torn :
    (m slot : CmdMsg)
    → m.daddr < 2 ^ 64
    → m.dsize < 2 ^ 64
    → m.msg_hash < 2 ^ 64
    → hash m ≢ 1
    → Torn (calc_hash m) slot
    → check_hash slot ≡ false
unfolding calc_hash hash check_hash
check_hash-Torn m slot hd hs hm h (at_daddr old ho ne) =
    check_hash-other m (record m { daddr = old }) h (λ e. ne (omega (arith, e)))
check_hash-Torn m slot hd hs hm h (at_dsize old ho ne) =
    check_hash-other m (record m { dsize = old }) h (λ e. ne (omega (arith, e)))
check_hash-Torn m slot hd hs hm h (at_cmd old ne) =
    check_hash-other m (record m { cmd = old }) h
      (λ e. ne (omega (arith, e, as_usize-small old, as_usize-small m.cmd)))
check_hash-Torn m slot hd hs hm h (at_msg_hash old ho ne) =
    check_hash-other m (record m { msg_hash = old }) h (λ e. ne (omega (arith, e)))
check_hash-Torn m slot hd hs hm h (at_cmd_hash old ne) = rw (ne→== old (hash m) ne) refl

-- The command that announces a buffer is received as it was sent when the receiver's slot holds all of it, and the
-- slot is then clear; while one of its five words is still another, `ready` finds nothing. The buffer's address is not
-- null, its address and size are words, and the command's hash is not 1, the one value that two sums share.
pub announce-whole_or_nothing :
    (memory : Memory) (b : CmdBuf) (slot : CmdMsg)
    → b.addr ≢ 0
    → b.addr < 2 ^ 64
    → size b < 2 ^ 64
    → hash (announce memory b) ≢ 1
    → Torn (announce memory b) slot
    → (ready (announce memory b) ≡ received (announce memory b) clear_cmd) × (ready slot ≡ nothing)
unfolding ready calc_hash hash
announce-whole_or_nothing memory b slot na small short h torn =
    let m : CmdMsg = record {
      daddr = b.addr;
      dsize = size b;
      cmd = tx;
      msg_hash = Hash.calc_hash memory b.addr (size b);
      cmd_hash = 0;
    } in
    let name : (b.addr == 0) ≡ false = ne→== b.addr 0 na in
    (
      rw (check_hash-calc_hash m) (rw name refl),
      ready-unhashed slot
          (check_hash-Torn m slot small short (calc_hash-word memory b.addr (size b)) h torn),
    )

-- One command lowers the count that it refers to, and gives it to `rt_free` when it was the last.
drop_data-ref_cnt :
    (x : ℕ) (m : CmdMsg) (h : Heap)
    → lowers x m ≤ h.ref_cnt x
    → h.ref_cnt x < 2 ^ 64
    → ((drop_data h m).ref_cnt x + lowers x m ≡ h.ref_cnt x)
      × (count x (drop_data h m).freed
          ≡ count x h.freed + (if (lowers x m == 1) && (h.ref_cnt x == 1) then 1 else 0))
unfolding drop_data
drop_data-ref_cnt x m h few small = elim (Bool-cases (ltb 0 m.dsize)) [
  | inr z ↦ rw z (omega arith, omega arith)
  | inl y ↦ (elim (Bool-cases (ref_cnt_addr m == x)) [
    | inl e ↦
        let same : h.ref_cnt (ref_cnt_addr m) ≡ h.ref_cnt x =
          ap h.ref_cnt (==→eq (ref_cnt_addr m) x e) in
        let some_left : ◌≤◌ 1 (h.ref_cnt x) = rw (y, e) at few in
        let once = total-append (λ z. if z == x then 1 else 0) h.freed (ref_cnt_addr m ∷ []) in
        (elim (Bool-cases (h.ref_cnt x == 1)) [
          | inl last ↦ rw (y, e, same, last) (omega arith, omega (arith, rw e at once))
          | inr more ↦ rw (y, e, same, more) (omega arith, omega arith)
        ])
    | inr ne ↦
        let once = total-append (λ z. if z == x then 1 else 0) h.freed (ref_cnt_addr m ∷ []) in
        (elim (Bool-cases (h.ref_cnt (ref_cnt_addr m) == 1)) [
          | inl last ↦ rw (y, ne, last) (omega arith, omega (arith, rw ne at once))
          | inr more ↦ rw (y, ne, more) (omega arith, omega arith)
        ])
  ])
]

-- The count at `x` falls by the number of commands that refer to it, and it is given to `rt_free` exactly if it
-- falls to 0 by that, and then once, when it is at least that number.
pub drop_all-ref_cnt :
    (x : ℕ) (ms : List CmdMsg) (h : Heap)
    → total (lowers x) ms ≤ h.ref_cnt x
    → h.ref_cnt x < 2 ^ 64
    → ((drop_all h ms).ref_cnt x + total (lowers x) ms ≡ h.ref_cnt x)
      × (count x (drop_all h ms).freed
          ≡ count x h.freed
            + (if ltb 0 (total (lowers x) ms) && (total (lowers x) ms == h.ref_cnt x)
                then 1
                else 0))
unfolding drop_all
drop_all-ref_cnt x [] h few small = (omega arith, omega arith)
drop_all-ref_cnt x (m ∷ ms) h few small =
    let one = drop_data-ref_cnt x m h (omega (arith, few)) small in
    let rest =
      drop_all-ref_cnt x ms (drop_data h m) (omega (arith, few, one.0))
        (omega (arith, small, one.0)) in
    (omega (arith, one.0, rest.0), ground (arith, one.0, one.1, rest.1, few, small))
