-- ===== src/CommandQueues/Tests.antt =====
-- A link with two buffers of two entries, at 1000 and 2000: a command is pushed, announced, copied, freed and
-- taken back.
use lamellar_runtime.Prelude.{
  ℕ, zero, suc, ◌+◌, ◌*◌, ◌/◌, ◌%◌, ◌≤◌, ◌≡◌, refl, ◌≢◌, true, Option, none, some, List, [], ◌∷◌,
  arith, length, All, total, update,
}
use lamellar_runtime.CommandQueues.Hash.{Memory}
use lamellar_runtime.CommandQueues.Messages.{
  free, release, tx, CmdMsg, hash, clear_cmd, command, calc_hash,
}
use lamellar_runtime.CommandQueues.Bufs.{
  CmdBuf, CmdMsgBuffer, new, state, push, try_push, flush_buffer, check_transfer, Heap,
  check_free_data, empty, reset, announce, drop_all, drop_data, freed_bufs, take_back, size,
}
use lamellar_runtime.CommandQueues.Owned.{count}
use lamellar_runtime.CommandQueues.Link.{
  Link, try_sending_buffer, progress_transfers, send_turn, wait_turn,
}
use lamellar_runtime.CommandQueues.Hash
use lamellar_runtime.CommandQueues.Hash.{sum_slice}
use lamellar_runtime.CommandQueues.Messages.{ready, nothing, received}
use lamellar_runtime.CommandQueues.Freeing.{lowers, pending}
use lamellar_runtime.CommandQueues.Exchange.{
  System, sends, waits, polls, releases, frees_tx, Reach, start, later, overwrite,
}
use lamellar_runtime.CommandQueues.Single.{NoClash}
use lamellar_runtime.CommandQueues.Drained.{commands_kept, turns_never_panic}
use lamellar_runtime.CommandQueues.Transfers.{one_transfer, progress_completes}
use lamellar_runtime.CommandQueues.Data.{Torn, at_dsize, announce-whole_or_nothing}

abbrev zeros : Memory
zeros = record { read_u64 = λ a. 0; read_u8 = λ a. 0 }

abbrev Zero : Memory → Type 0
Zero m = (a len : ℕ) → Hash.calc_hash m a len ≡ 0

slice_of_zeros : (a width k : ℕ) → sum_slice (λ x. 0) a width k ≡ 0
slice_of_zeros a width zero = refl
slice_of_zeros a width (suc k) = rw (slice_of_zeros (a + width) width k) refl

zeros-Zero : Zero zeros
unfolding Hash.calc_hash
zeros-Zero a len =
    rw (slice_of_zeros a 8 (len / 8), slice_of_zeros (a + len / 8 * 8) 1 (len % 8)) refl

abbrev two : List ℕ
two = 1000 ∷ 2000 ∷ []

two-distinct : (a : ℕ) → count a two ≤ 1
two-distinct a = ground arith

two-NoClash : NoClash Zero 2 two
unfolding calc_hash hash
two-NoClash memory z b once inside e = ground (arith, e, once, inside, z b.addr (size b))

abbrev blank : List CmdMsg
blank = clear_cmd ∷ clear_cmd ∷ []

abbrev buffer : List CmdMsg → ℕ → ℕ → CmdBuf
buffer ms addr index = record {
  buf = ms;
  addr = addr;
  index = index;
  allocated_cnt = index;
  max_size = 2;
}

abbrev bufs : List CmdBuf → List (ℕ × CmdBuf) → List (ℕ × CmdBuf) → Option CmdBuf → CmdMsgBuffer
bufs empties txs waiting current = record {
  empty_bufs = empties;
  full_bufs = [];
  tx_bufs = txs;
  waiting_bufs = waiting;
  cur_buf = current;
  num_bufs = 2;
  pe = 1;
}

abbrev first : CmdMsg
first = command 508 8 tx 7

abbrev loaded : CmdBuf
loaded = buffer (first ∷ clear_cmd ∷ []) 2000 1

abbrev heap : Heap
heap = record { ref_cnt = λ a. 1; lowered = []; freed = [] }

abbrev at_start : System
at_start = record {
  link = record {
    send_cmd = clear_cmd;
    cmd_buffer = bufs (buffer blank 1000 0 ∷ buffer blank 2000 0 ∷ []) [] [] none;
    heap = heap;
    puts = [];
  };
  pushed = [];
}

abbrev at_push : System
at_push = record {
  link = record {
    send_cmd = clear_cmd;
    cmd_buffer = bufs (buffer blank 1000 0 ∷ []) [] [] (some loaded);
    heap = heap;
    puts = [];
  };
  pushed = 500 ∷ [];
}

abbrev in_transfer : CmdBuf → System
in_transfer b = record {
  link = record {
    send_cmd = announce zeros loaded;
    cmd_buffer = bufs (buffer blank 1000 0 ∷ []) ((2000, b) ∷ []) [] none;
    heap = heap;
    puts = announce zeros loaded ∷ [];
  };
  pushed = 500 ∷ [];
}

abbrev copied : CmdBuf
copied = buffer (record first { cmd = release } ∷ clear_cmd ∷ []) 2000 1

abbrev freed : List CmdMsg
freed = record first { cmd = free } ∷ clear_cmd ∷ []

abbrev at_end_of_it : System
at_end_of_it = record {
  link = record {
    send_cmd = clear_cmd;
    cmd_buffer = bufs (buffer blank 1000 0 ∷ buffer freed 2000 0 ∷ []) [] [] none;
    heap = record { ref_cnt = update (λ a. 1) 500 0; lowered = 500 ∷ []; freed = 500 ∷ [] };
    puts = announce zeros loaded ∷ [];
  };
  pushed = 500 ∷ [];
}

start-Reach : Reach Zero 2 two at_start
unfolding new
start-Reach = start (record {
  contents = λ a. blank;
  pe = 1;
  long = λ a. refl;
  fresh = refl;
  idle = refl;
  none_lowered = refl;
  none_pushed = refl;
})

push-Reach : Reach Zero 2 two at_push
unfolding send_turn try_push push
push-Reach =
    later start-Reach
      (sends zeros 1 508 8 7 true at_push.link zeros-Zero (omega arith) (omega arith) refl)

transfer-Reach : Reach Zero 2 two (in_transfer loaded)
unfolding wait_turn empty progress_transfers check_transfer check_free_data freed_bufs take_back
    try_sending_buffer flush_buffer calc_hash hash
transfer-Reach = later push-Reach (waits zeros 0 true (in_transfer loaded).link zeros-Zero refl)

freed-Reach : Reach Zero 2 two (in_transfer (buffer freed 2000 1))
unfolding overwrite calc_hash
freed-Reach =
    later (later transfer-Reach (releases 0 2000 loaded refl refl))
      (frees_tx 0 2000 copied refl refl)

end-Reach : Reach Zero 2 two at_end_of_it
unfolding progress_transfers check_transfer check_free_data freed_bufs take_back reset drop_all
    drop_data calc_hash
end-Reach = later freed-Reach (polls at_end_of_it.link refl)

commands_kept_example :
    pending 500 at_end_of_it.link.cmd_buffer + count 500 at_end_of_it.link.heap.lowered ≡ 1
commands_kept_example = commands_kept Zero 2 two (omega arith) two-distinct end-Reach 500

turns_never_panic_example :
    (send_turn zeros 1 (in_transfer loaded).link 708 8 9 ≢ none)
    × (wait_turn zeros 1 (in_transfer loaded).link ≢ none)
    × (progress_transfers (in_transfer loaded).link ≢ none)
turns_never_panic_example =
    turns_never_panic Zero 2 two (omega arith) two-distinct transfer-Reach zeros zeros-Zero 1 708 8
      9 (omega arith) (omega arith)

end_empty : empty at_end_of_it.link.cmd_buffer ≡ true
unfolding empty
end_empty = refl

one_transfer_example :
    (length (in_transfer loaded).link.cmd_buffer.tx_bufs ≤ 1)
    × All
        (λ e. e.0 ≡ (in_transfer loaded).link.send_cmd.daddr)
        (in_transfer loaded).link.cmd_buffer.tx_bufs
one_transfer_example = one_transfer Zero 2 two (omega arith) two-distinct two-NoClash transfer-Reach

progress_completes_example :
    (l : Link) × (progress_transfers (in_transfer (buffer freed 2000 1)).link ≡ some l)
    × All (λ e. state e.1 ≡ some tx) l.cmd_buffer.tx_bufs
    × All (λ e. state e.1 ≡ some release) l.cmd_buffer.waiting_bufs
progress_completes_example =
    progress_completes Zero 2 two (omega arith) two-distinct two-NoClash freed-Reach

-- The size of the announced buffer has not arrived yet.
abbrev half_arrived : CmdMsg
half_arrived = record (announce zeros loaded) { dsize = 0 }

not_one : hash (announce zeros loaded) ≢ 1
unfolding hash calc_hash Hash.calc_hash
not_one e = omega (arith, e)

loaded-Torn : Torn (announce zeros loaded) half_arrived
unfolding calc_hash
loaded-Torn = at_dsize 0 (omega arith) (λ e. absurd (omega (arith, e)))

announce-whole_or_nothing_example :
    (ready (announce zeros loaded) ≡ received (announce zeros loaded) clear_cmd)
    × (ready half_arrived ≡ nothing)
announce-whole_or_nothing_example =
    announce-whole_or_nothing zeros loaded half_arrived (omega arith) (omega arith) (omega arith)
      not_one loaded-Torn

first_hash : hash first ≢ 1
unfolding hash calc_hash
first_hash e = omega (arith, e)

first_twice : total (lowers 500) (first ∷ first ∷ []) ≡ 2
unfolding calc_hash
first_twice = refl
