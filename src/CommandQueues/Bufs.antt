-- ===== src/CommandQueues/Bufs.antt =====
-- `CmdBuf` and `CmdMsgBuffer`: the buffers of commands for one PE and where they stand. A panic of the
-- source is `none`.
use lamellar_runtime.Prelude.{
  ℕ, ◌+◌, ◌*◌, Bool, true, false, ◌||◌, Option, none, some, List, [], ◌∷◌, ◌++◌, map, set, ltb,
  ◌==◌, if◌then◌else◌, length, get_elem?, pop_last, update, insert_key, remove_key, take, sub_usize,
}
use lamellar_runtime.CommandQueues.Hash
use lamellar_runtime.CommandQueues.Hash.{Memory}
use lamellar_runtime.CommandQueues.Messages.{
  Cmd, free, release, tx, CmdMsg, size_of_cmd_msg, command,
}

-- `buf` is the memory at `addr`, whose first entry's `cmd` the receiver overwrites.
pub record CmdBuf : Type 0 where
  pub buf : List CmdMsg
  pub addr : ℕ
  pub index : ℕ
  pub allocated_cnt : ℕ
  pub max_size : ℕ

unfoldable pub push : CmdBuf → ℕ → ℕ → ℕ → Option CmdBuf
push b daddr dsize msg_hash =
    if (daddr == 0) || (dsize == 0)
    then none
    else some (record b {
      buf = set b.buf b.index (command daddr dsize tx msg_hash);
      index = b.index + 1;
      allocated_cnt = if ltb 0 dsize then b.allocated_cnt + 1 else b.allocated_cnt;
    })

abbrev pub full : CmdBuf → Bool
full b = b.index == b.max_size

unfoldable pub reset : CmdBuf → CmdBuf
reset b = record b { index = 0; allocated_cnt = 0 }

abbrev pub size : CmdBuf → ℕ
size b = b.index * size_of_cmd_msg

abbrev pub iter : CmdBuf → List CmdMsg
iter b = take b.index b.buf

-- `buf[0].cmd`, `none` where there is no entry.
abbrev pub state : CmdBuf → Option Cmd
state b = elim (get_elem? b.buf 0) [ none ↦ none | some m ↦ some m.cmd ]

pub record CmdMsgBuffer : Type 0 where
  pub empty_bufs : List CmdBuf
  pub full_bufs : List CmdBuf
  pub tx_bufs : List (ℕ × CmdBuf)
  pub waiting_bufs : List (ℕ × CmdBuf)
  pub cur_buf : Option CmdBuf
  pub num_bufs : ℕ
  pub pe : ℕ

-- `new`, with CMD_BUF_LEN and what the memory at each address holds.
unfoldable pub new : ℕ → (ℕ → List CmdMsg) → List ℕ → ℕ → CmdMsgBuffer
new cmd_buf_len contents addrs pe = record {
  empty_bufs =
      map
        (λ a. record {
          buf = contents a;
          addr = a;
          index = 0;
          allocated_cnt = 0;
          max_size = cmd_buf_len;
        })
        addrs;
  full_bufs = [];
  tx_bufs = [];
  waiting_bufs = [];
  cur_buf = none;
  num_bufs = length addrs;
  pe = pe;
}

-- The buffer is pushed to, and joins the full ones when it is full.
abbrev pub push_to : CmdMsgBuffer → CmdBuf → ℕ → ℕ → ℕ → Option (Bool × CmdMsgBuffer)
push_to s buf addr len msg_hash = elim (push buf addr len msg_hash) [
  | none ↦ none
  | some b ↦ some (
    true,
    if full b
        then record s { cur_buf = none; full_bufs = s.full_bufs ++ (b ∷ []) }
        else record s { cur_buf = some b },
  )
]

unfoldable pub try_push : CmdMsgBuffer → ℕ → ℕ → ℕ → Option (Bool × CmdMsgBuffer)
try_push s addr len msg_hash = elim s.cur_buf [
  | some b ↦ push_to s b addr len msg_hash
  | none ↦ (elim (pop_last s.empty_bufs) [
    | none ↦ some (false, s)
    | some (b, rest) ↦ push_to (record s { empty_bufs = rest }) b addr len msg_hash
  ])
]

-- The command that announces a buffer.
abbrev pub announce : Memory → CmdBuf → CmdMsg
announce memory b = command b.addr (size b) tx (Hash.calc_hash memory b.addr (size b))

-- `flush_buffer`: the command slot and the buffers; a full buffer goes before the current one.
unfoldable pub flush_buffer : Memory → CmdMsg → CmdMsgBuffer → CmdMsg × CmdMsgBuffer
flush_buffer memory cmd s = elim (pop_last s.full_bufs) [
  | some (b, rest) ↦
      (announce memory b, record s { full_bufs = rest; tx_bufs = insert_key b.addr b s.tx_bufs })
  | none ↦ (elim s.cur_buf [
    | some b ↦
        (announce memory b, record s { cur_buf = none; tx_bufs = insert_key b.addr b s.tx_bufs })
    | none ↦ (cmd, s)
  ])
]

unfoldable pub check_transfer : ℕ → CmdMsgBuffer → Option (Bool × CmdMsgBuffer)
check_transfer addr s = elim (remove_key addr s.tx_bufs) [
  | none ↦ some (false, s)
  | some (b, rest) ↦
      let kept = record s { tx_bufs = insert_key addr b rest } in
      let moved = record s { tx_bufs = rest; waiting_bufs = insert_key b.addr b s.waiting_bufs } in
      let done : Option (Bool × CmdMsgBuffer) =
        if ltb 0 b.allocated_cnt then some (true, moved) else none in
      elim (state b) [
        | none ↦ none
        | some c ↦ (elim c [ tx ↦ some (false, kept) | release ↦ done | free ↦ done | _ ↦ none ])
      ]
]

-- The memory that reference counts stand in, the counts that were lowered, and what was given to `rt_free`.
pub record Heap : Type 0 where
  pub ref_cnt : ℕ → ℕ
  pub lowered : List ℕ
  pub freed : List ℕ

-- The count of a command's data stands before it.
abbrev pub ref_cnt_addr : CmdMsg → ℕ
ref_cnt_addr m = sub_usize m.daddr 8

-- `fetch_sub(1)` on the count, and `rt_free` by the one that takes it to 0.
unfoldable pub drop_data : Heap → CmdMsg → Heap
drop_data h m =
    let a = ref_cnt_addr m in
    let cnt = h.ref_cnt a in
    if ltb 0 m.dsize
    then record {
      ref_cnt = update h.ref_cnt a (sub_usize cnt 1);
      lowered = h.lowered ++ (a ∷ []);
      freed = if cnt == 1 then h.freed ++ (a ∷ []) else h.freed;
    }
    else h

unfoldable pub drop_all : Heap → List CmdMsg → Heap
drop_all h [] = h
drop_all h (m ∷ ms) = drop_all (drop_data h m) ms

-- The addresses of the waiting buffers that the receiver has freed.
unfoldable pub freed_bufs : List (ℕ × CmdBuf) → Option (List ℕ)
freed_bufs [] = some []
freed_bufs ((addr, b) ∷ es) =
    let rest = freed_bufs es in
    elim (state b) [
      | none ↦ none
      | some c ↦ (elim c [
        | release ↦ rest
        | free ↦ (elim rest [ none ↦ none | some addrs ↦ some (addr ∷ addrs) ])
        | _ ↦ none
      ])
    ]

-- The second loop of `check_free_data`.
unfoldable pub take_back : List ℕ → CmdMsgBuffer → Heap → CmdMsgBuffer × Heap
take_back [] s h = (s, h)
take_back (addr ∷ addrs) s h = elim (remove_key addr s.waiting_bufs) [
  | none ↦ take_back addrs s h
  | some (b, rest) ↦
      take_back addrs
        (record s { waiting_bufs = rest; empty_bufs = s.empty_bufs ++ (reset b ∷ []) })
        (drop_all h (iter b))
]

unfoldable pub check_free_data : CmdMsgBuffer → Heap → Option (CmdMsgBuffer × Heap)
check_free_data s h = elim (freed_bufs s.waiting_bufs) [
  | none ↦ none
  | some addrs ↦ some (take_back addrs s h)
]

unfoldable pub empty : CmdMsgBuffer → Bool
empty s = length s.empty_bufs == s.num_bufs
