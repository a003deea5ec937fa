-- ===== src/CommandQueues/Exchange.antt =====
-- The sender of a link and its receiver as one system. The receiver writes the `cmd` of a buffer's first
-- entry, first `Release` and then `Free`, in the order in which it puts them.
use lamellar_runtime.Prelude.{
  ℕ, ◌≡◌, ◌≢◌, Bool, some, List, [], ◌∷◌, set, if◌then◌else◌, length, get_elem?, sub_usize,
}
use lamellar_runtime.CommandQueues.Hash.{Memory}
use lamellar_runtime.CommandQueues.Messages.{Cmd, free, release, tx, CmdMsg, clear_cmd}
use lamellar_runtime.CommandQueues.Bufs.{CmdBuf, new, state}
use lamellar_runtime.CommandQueues.Link.{Link, progress_transfers, send_turn, wait_turn}

-- What `send_release` and `send_free` write: one byte, the `cmd` of the buffer's first entry.
abbrev pub overwrite_first : Cmd → List CmdMsg → List CmdMsg
overwrite_first c [] = []
overwrite_first c (m ∷ ms) = record m { cmd = c } ∷ ms

unfoldable pub overwrite : Cmd → CmdBuf → CmdBuf
overwrite c b = record b { buf = overwrite_first c b.buf }

-- `pushed` is the history of the counts that the commands refer to, one entry for each command.
pub record System : Type 0 where
  pub link : Link
  pub pushed : List ℕ

-- The link with other buffers in transfer, or waiting.
abbrev pub with_tx : System → List (ℕ × CmdBuf) → System
with_tx s es = record s {
  link = record s.link { cmd_buffer = record s.link.cmd_buffer { tx_bufs = es } };
}

abbrev pub with_waiting : System → List (ℕ × CmdBuf) → System
with_waiting s es = record s {
  link = record s.link { cmd_buffer = record s.link.cmd_buffer { waiting_bufs = es } };
}

-- A step at a memory that `Seen` allows; `pending_cmds` may be anything, since other links change it.
pub data Step (Seen : Memory → Type 0) (s : System) : System → Type 0 where
  sends :
      (memory : Memory) (pending_cmds addr len h : ℕ) (pushed : Bool) (l : Link)
      → Seen memory
      → addr ≢ 0
      → len ≢ 0
      → send_turn memory pending_cmds s.link addr len h ≡ some (pushed, l)
      → Step Seen s
          (record { link = l; pushed = if pushed then sub_usize addr 8 ∷ s.pushed else s.pushed })
  waits :
      (memory : Memory) (pending_cmds : ℕ) (done : Bool) (l : Link)
      → Seen memory
      → wait_turn memory pending_cmds s.link ≡ some (done, l)
      → Step Seen s (record s { link = l })
  polls : (l : Link) → progress_transfers s.link ≡ some l → Step Seen s (record s { link = l })
  releases :
      (i a : ℕ) (b : CmdBuf)
      → get_elem? s.link.cmd_buffer.tx_bufs i ≡ some (a, b)
      → state b ≡ some tx
      → Step Seen s (with_tx s (set s.link.cmd_buffer.tx_bufs i (a, overwrite release b)))
  frees_tx :
      (i a : ℕ) (b : CmdBuf)
      → get_elem? s.link.cmd_buffer.tx_bufs i ≡ some (a, b)
      → state b ≡ some release
      → Step Seen s (with_tx s (set s.link.cmd_buffer.tx_bufs i (a, overwrite free b)))
  frees_waiting :
      (i a : ℕ) (b : CmdBuf)
      → get_elem? s.link.cmd_buffer.waiting_bufs i ≡ some (a, b)
      → state b ≡ some release
      → Step Seen s (with_waiting s (set s.link.cmd_buffer.waiting_bufs i (a, overwrite free b)))
  -- Other holders of the data change the counts.
  others :
      (ref_cnt : ℕ → ℕ)
      → Step Seen s
          (record s { link = record s.link { heap = record s.link.heap { ref_cnt = ref_cnt } } })

-- A link with new buffers of `n` entries.
pub record IsStart (n : ℕ) (addrs : List ℕ) (s : System) : Type 0 where
  pub contents : ℕ → List CmdMsg
  pub pe : ℕ
  pub long : (a : ℕ) → length (contents a) ≡ n
  pub fresh : s.link.cmd_buffer ≡ new n contents addrs pe
  pub idle : s.link.send_cmd ≡ clear_cmd
  pub none_lowered : s.link.heap.lowered ≡ []
  pub none_pushed : s.pushed ≡ []

pub data Reach (Seen : Memory → Type 0) (n : ℕ) (addrs : List ℕ) : System → Type 0 where
  start : {s : System} → IsStart n addrs s → Reach Seen n addrs s
  later : {s u : System} → Reach Seen n addrs s → Step Seen s u → Reach Seen n addrs u
