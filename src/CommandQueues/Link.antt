-- ===== src/CommandQueues/Link.antt =====
-- `InnerCQ`, restricted to one destination: its entry of `send_buffer` and of `cmd_buffers`. `pending_cmds`
-- counts over all destinations and is an argument. The counters of sent bytes are left out.
use lamellar_runtime.Prelude.{
  ℕ, Bool, true, false, ◌&&◌, ◌||◌, Option, none, some, List, [], ◌∷◌, ◌++◌, ltb, ◌==◌,
  if◌then◌else◌, length,
}
use lamellar_runtime.CommandQueues.Hash.{Memory}
use lamellar_runtime.CommandQueues.Messages.{CmdMsg, hash, clear_cmd}
use lamellar_runtime.CommandQueues.Bufs.{
  CmdMsgBuffer, try_push, flush_buffer, check_transfer, Heap, check_free_data, empty,
}

-- `puts` is what `comm.put` wrote to the destination, in order.
pub record Link : Type 0 where
  pub send_cmd : CmdMsg
  pub cmd_buffer : CmdMsgBuffer
  pub heap : Heap
  pub puts : List CmdMsg

unfoldable pub try_sending_buffer : Memory → ℕ → Link → Bool × Link
try_sending_buffer memory pending_cmds l =
    let (cmd, s) = flush_buffer memory l.send_cmd l.cmd_buffer in
    let sent : Link = record l {
      send_cmd = cmd;
      cmd_buffer = s;
      puts = if ltb 0 cmd.dsize then l.puts ++ (cmd ∷ []) else l.puts;
    } in
    if ((pending_cmds == 0) || ltb 0 (length l.cmd_buffer.full_bufs))
      && (hash l.send_cmd == hash clear_cmd)
    then (true, sent)
    else (false, l)

unfoldable pub progress_transfers : Link → Option Link
progress_transfers l = elim (check_transfer l.send_cmd.daddr l.cmd_buffer) [
  | none ↦ none
  | some (finished, s) ↦ (elim (check_free_data s l.heap) [
    | none ↦ none
    | some (s', h) ↦ some (record l {
      send_cmd = if finished then clear_cmd else l.send_cmd;
      cmd_buffer = s';
      heap = h;
    })
  ])
]

-- The first loop of `send`, once round: whether the command was pushed.
unfoldable pub send_turn : Memory → ℕ → Link → ℕ → ℕ → ℕ → Option (Bool × Link)
send_turn memory pending_cmds l addr len msg_hash = elim (try_push l.cmd_buffer addr len msg_hash) [
  | none ↦ none
  | some (true, s) ↦ some (true, record l { cmd_buffer = s })
  | some (false, s) ↦ (elim (progress_transfers (record l { cmd_buffer = s })) [
    | none ↦ none
    | some l' ↦ some (false, (try_sending_buffer memory pending_cmds l').1)
  ])
]

-- The second loop of `send`, once round: whether it ends with nothing left to send or a buffer sent.
unfoldable pub wait_turn : Memory → ℕ → Link → Option (Bool × Link)
wait_turn memory pending_cmds l =
    if empty l.cmd_buffer then some (true, l) else elim (progress_transfers l) [
      | none ↦ none
      | some l' ↦ some (try_sending_buffer memory pending_cmds l')
    ]
