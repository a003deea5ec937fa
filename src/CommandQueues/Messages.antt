-- ===== src/CommandQueues/Messages.antt =====
-- `CmdMsg`, the command that one PE writes into the memory of another.
use lamellar_runtime.Prelude.{ℕ, Bool, ◌&&◌, not, ◌==◌, if◌then◌else◌, add_usize}

-- `Cmd`; `clear` is number 1.
pub data Cmd : Type 0 where
  clear : Cmd
  free : Cmd
  release : Cmd
  print : Cmd
  tx : Cmd
  alloc : Cmd
  panic : Cmd

-- `self.cmd as usize`
abbrev pub as_usize : Cmd → ℕ
as_usize clear = 1
as_usize free = 2
as_usize release = 3
as_usize print = 4
as_usize tx = 5
as_usize alloc = 6
as_usize panic = 7

pub record CmdMsg : Type 0 where
  pub daddr : ℕ
  pub dsize : ℕ
  pub cmd : Cmd
  pub msg_hash : ℕ
  pub cmd_hash : ℕ

-- `size_of::<CmdMsg>()`, `repr(C)` on a 64-bit target.
abbrev pub size_of_cmd_msg : ℕ
size_of_cmd_msg = 40

unfoldable pub hash : CmdMsg → ℕ
hash m =
    let res = add_usize (add_usize (add_usize m.daddr m.dsize) (as_usize m.cmd)) m.msg_hash in
    if res == 0 then 1 else res

unfoldable pub calc_hash : CmdMsg → CmdMsg
calc_hash m = record m { cmd_hash = hash m }

unfoldable pub check_hash : CmdMsg → Bool
check_hash m = (m.cmd_hash == hash m) && not (m.cmd_hash == 0)

-- A command with its hash, as every writer of the source fills one in.
abbrev pub command : ℕ → ℕ → Cmd → ℕ → CmdMsg
command daddr dsize cmd msg_hash =
    calc_hash
      (record { daddr = daddr; dsize = dsize; cmd = cmd; msg_hash = msg_hash; cmd_hash = 0 })

-- `clear_cmd`, and what a slot is reset to.
abbrev pub clear_cmd : CmdMsg
clear_cmd = command 0 0 clear 0

-- What `ready` makes of the slot that another PE writes its command to.
pub data Ready : Type 0 where
  nothing : Ready
  received : CmdMsg → CmdMsg → Ready  -- the command, and what the slot then holds
  panics : Ready

unfoldable pub ready : CmdMsg → Ready
ready m =
    let taken = if m.daddr == 0 then nothing else received m clear_cmd in
    if check_hash m
    then elim m.cmd [ clear ↦ nothing | alloc ↦ panics | panic ↦ panics | _ ↦ taken ]
    else nothing
