-- ===== src/ActiveMessages/Tests.antt =====
-- The active messages at concrete data: a message is a number, and each header's field takes one byte.
use lamellar_runtime.Prelude.{
  ℕ, zero, suc, ◌≡◌, ◌≢◌, refl, ap, Option, none, some, List, [], ◌∷◌, ◌++◌, length, map, take,
  take-append, get_elem?, arith, true, false, Returns,
}
use lamellar_runtime.ActiveMessages.Messages.{
  Cmd, am_cmd, return_am_cmd, data_cmd, unit_cmd, batched_msg, AmHeader, DataHeader, UnitHeader,
  ReqMetaData, am, unit, Serde, IsSerde,
}
use lamellar_runtime.ActiveMessages.Batcher.{Entry, Tx, new, create_tx_task, darc_ser_cnt}
use lamellar_runtime.ActiveMessages.Registered.{exec_msg, data_, process_msg}
use lamellar_runtime.ActiveMessages.Wire.{received, sers_of}
use lamellar_runtime.ActiveMessages.Tasks.{
  Batching, start, add_to_batch, turn_of, adds, turns, Reach, here, next, add_remote_am,
  add_unit_am, measured,
}
use lamellar_runtime.ActiveMessages.Pending.{entries_of}
use lamellar_runtime.ActiveMessages.Delivery.{
  entries_kept, sent_received, none_stranded, SendsWithin,
}
use lamellar_runtime.ActiveMessages.Process.{process_msg_delivers, Meets, for_others, for_here}

tag : Cmd → ℕ
tag am_cmd = 0
tag return_am_cmd = 1
tag data_cmd = 2
tag unit_cmd = 3
tag batched_msg = 4

untag : ℕ → Cmd
untag zero = am_cmd
untag (suc zero) = return_am_cmd
untag (suc (suc zero)) = data_cmd
untag (suc (suc (suc zero))) = unit_cmd
untag _ = batched_msg

read_cmd : List ℕ → Option Cmd
unfolding untag
read_cmd [] = none
read_cmd (x ∷ xs) = some (untag x)

read_am_header : List ℕ → Option AmHeader
read_am_header (a ∷ b ∷ c ∷ d ∷ xs) =
    some (record { am_id = a; team_addr = b; req_id = record { id = c; sub_id = d } })
read_am_header _ = none

read_data_header : List ℕ → Option DataHeader
read_data_header (a ∷ b ∷ c ∷ d ∷ xs) =
    some (record { size = a; req_id = record { id = b; sub_id = c }; darc_list_size = d })
read_data_header _ = none

read_unit_header : List ℕ → Option UnitHeader
read_unit_header (a ∷ b ∷ xs) = some (record { req_id = record { id = a; sub_id = b } })
read_unit_header _ = none

read_darcs : List ℕ → Option (List ℕ)
read_darcs [] = none
read_darcs (n ∷ xs) = some (take n xs)

read_number : ℕ → List ℕ → Option ℕ
read_number id [] = none
read_number id (x ∷ xs) = some x

abbrev numbers : Serde ℕ ℕ
unfolding tag untag read_cmd read_am_header read_data_header read_unit_header read_darcs read_number
numbers = record {
  cmd = record { serialize = λ c. tag c ∷ []; deserialize = read_cmd };
  am_header = record {
    serialize = λ h. h.am_id ∷ h.team_addr ∷ h.req_id.id ∷ h.req_id.sub_id ∷ [];
    deserialize = read_am_header;
  };
  data_header = record {
    serialize = λ h. h.size ∷ h.req_id.id ∷ h.req_id.sub_id ∷ h.darc_list_size ∷ [];
    deserialize = read_data_header;
  };
  unit_header = record {
    serialize = λ h. h.req_id.id ∷ h.req_id.sub_id ∷ [];
    deserialize = read_unit_header;
  };
  darcs = record { serialize = λ ds. length ds ∷ ds; deserialize = read_darcs };
  am_bytes = λ a. a ∷ [];
  am_id = λ a. 7;
  unpack = read_number;
  result_bytes = λ r. r ∷ r ∷ [];
  darcs_of = λ r. r ∷ [];
  cmd_len = 1;
  am_header_len = 4;
  data_header_len = 4;
  unit_header_len = 2;
}

cmd_back : (c : Cmd) (rest : List ℕ) → read_cmd ((tag c ∷ []) ++ rest) ≡ some c
unfolding tag untag read_cmd
cmd_back am_cmd rest = refl
cmd_back return_am_cmd rest = refl
cmd_back data_cmd rest = refl
cmd_back unit_cmd rest = refl
cmd_back batched_msg rest = refl

numbers-IsSerde : IsSerde numbers
unfolding tag untag read_cmd read_am_header read_data_header read_unit_header read_darcs read_number
numbers-IsSerde = record {
  cmd_back = record { back = cmd_back };
  am_header_back = record { back = λ h rest. refl };
  data_header_back = record { back = λ h rest. refl };
  unit_header_back = record { back = λ h rest. refl };
  darcs_back = record { back = λ ds rest. ap some (take-append ds rest) };
  cmd_fixed = λ c. refl;
  am_header_fixed = λ h. refl;
  data_header_fixed = λ h. refl;
  unit_header_fixed = λ h. refl;
  unpacks = λ a rest. refl;
}

abbrev zeros : ℕ → List ℕ
zeros zero = []
zeros (suc n) = 0 ∷ zeros n

length-zeros : (n : ℕ) → length (zeros n) ≡ n
length-zeros zero = refl
length-zeros (suc n) = ap suc (length-zeros n)

-- A request of PE 1 of a team of 3, to PE 2.
abbrev req : ReqMetaData
req = record {
  src = 1;
  dst = some 2;
  id = record { id = 50; sub_id = 6 };
  team_addr = 900;
  world_pe = 1;
  team_pe_id = some 1;
  num_pes = 3;
}

abbrev one_added : Batching ℕ ℕ
one_added = add_to_batch numbers req (add_remote_am 33) 5 (start (some 2) 5)

abbrev two_added : Batching ℕ ℕ
two_added = add_to_batch numbers req add_unit_am 5 one_added

-- The first to add loads the id, sees no new mark, looks at the id and sends.
abbrev all_sent : Batching ℕ ℕ
all_sent = turn_of 0 (turn_of 0 (turn_of 0 (turn_of 0 two_added)))

all_sent_once : (length all_sent.sent ≡ 1) × (all_sent.inner.batch ≡ [])
unfolding start new add_to_batch turn_of tag numbers
all_sent_once = (refl, refl)

two_reached : Reach numbers (some 2) 5 two_added
unfolding start new add_to_batch tag measured numbers
two_reached =
    next (next here (adds (start (some 2) 5) req (add_remote_am 33) 5 (omega arith)))
      (adds one_added req add_unit_am 5 (omega arith))

all_reached : Reach numbers (some 2) 5 all_sent
unfolding turn_of
all_reached =
    next
      (next (next (next two_reached (turns two_added 0)) (turns (turn_of 0 two_added) 0))
        (turns (turn_of 0 (turn_of 0 two_added)) 0))
      (turns (turn_of 0 (turn_of 0 (turn_of 0 two_added))) 0)

two_to_another_pe : darc_ser_cnt req ≡ 1
unfolding darc_ser_cnt
two_to_another_pe = refl

entries_kept_example : two_added.added ≡ entries_of two_added.sent ++ two_added.inner.batch
entries_kept_example = entries_kept numbers numbers-IsSerde (some 2) 5 two_added two_reached

abbrev both : List (Entry ℕ ℕ)
both = (req, am 33 7, 6) ∷ (req, unit, 3) ∷ []

all_sent_both : get_elem? all_sent.sent 0 ≡ some (both, 9)
unfolding start new add_to_batch turn_of tag numbers
all_sent_both = refl

sent_received_example :
    (tx : Tx ℕ) × (src : ℕ) × (create_tx_task numbers zeros (some 2) both 9 ≡ some (some tx))
    × (exec_msg numbers tx.header tx.bytes ≡ some (map (received numbers src) both))
    × (tx.pe ≡ some 2)
    × (tx.sers ≡ sers_of numbers both)
sent_received_example =
    sent_received numbers numbers-IsSerde (some 2) 5 all_sent 0 both 9 zeros all_reached
      all_sent_both (length-zeros 9)

two_added_nonempty : two_added.inner.batch ≢ []
unfolding start new add_to_batch tag numbers
two_added_nonempty e = cc

none_stranded_example : (i : ℕ) × SendsWithin 8 i two_added
none_stranded_example =
    none_stranded numbers numbers-IsSerde (some 2) 5 two_added two_reached two_added_nonempty

-- A result that is sent by itself.
process_msg_delivers_example : Returns (process_msg numbers zeros false true true (data_ req 8)) (
    Meets numbers numbers-IsSerde zeros
      (for_others numbers numbers-IsSerde zeros false (data_ req 8))
      (for_here numbers numbers-IsSerde zeros true (data_ req 8)))
unfolding numbers measured
process_msg_delivers_example =
    process_msg_delivers numbers numbers-IsSerde zeros false true true (data_ req 8) length-zeros
      (omega arith)
