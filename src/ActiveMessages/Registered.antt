-- ===== src/ActiveMessages/Registered.antt =====
-- `RegisteredActiveMessages` of src/active_messaging/registered_active_message.rs: how a message that is
-- not batched is sent, and how what arrives is taken apart, batched or not.
use lamellar_runtime.Prelude.{
  ℕ, zero, suc, ◌+◌, Option, none, some, List, [], ◌∷◌, length, add_usize, ltb, ◌==◌, ◌&&◌, ◌||◌,
  not, if◌then◌else◌, Bool, true, false, is_some, ◌>>=◌, write, slice, slice_from,
}
use lamellar_runtime.ActiveMessages.Messages.{
  ReqId, Cmd, am_cmd, return_am_cmd, data_cmd, unit_cmd, batched_msg, Msg, AmHeader, DataHeader,
  ReqMetaData, LamellarData, Serde,
}
use lamellar_runtime.ActiveMessages.Batcher.{
  Tx, darc_ser_cnt, create_header, remote_am, returned_am, data_am, unit_am,
}

-- What a PE does with a message that it takes out of a buffer: it executes a message for the team at
-- that address of the source, or gives a result to the request's handle.
pub data Received (A : Type 0) : Type 0 where
  exec_am_task : ℕ → ℕ → ReqId → A → Received A
  exec_return_task : ℕ → ℕ → ReqId → A → Received A
  add_data : ℕ → ReqId → List ℕ → List ℕ → Received A
  add_unit : ℕ → ReqId → Received A

-- `Am`, without the variants that do nothing.
pub data Am (A R : Type 0) : Type 0 where
  all : ReqMetaData → A → Am A R
  remote : ReqMetaData → A → Am A R
  local : ReqMetaData → A → Am A R
  return : ReqMetaData → A → Am A R
  data_ : ReqMetaData → R → Am A R
  unit_ : ReqMetaData → Am A R

-- What `process_msg` does, in order.
pub data Action (A R : Type 0) : Type 0 where
  batched : ReqMetaData → LamellarData A R → ℕ → Action A R
  sent : Tx A → Action A R
  executed : ReqMetaData → A → Action A R

abbrev pub batch_am_size : ℕ
batch_am_size = 100000

module _ {A R : Type 0} (s : Serde A R) where
  unfoldable pub unpack_am : List ℕ → ℕ → Option ((AmHeader × A) × ℕ)
  unpack_am data_buf i = do
    bytes ← slice data_buf i s.am_header_len
    header ← s.am_header.deserialize bytes
    rest ← slice_from data_buf (i + s.am_header_len)
    a ← s.unpack header.am_id rest
    some ((header, a), i + s.am_header_len + length (s.am_bytes a))

  unfoldable pub exec_am : Msg → List ℕ → ℕ → Option (Received A × ℕ)
  exec_am msg data_buf i = do
    ((header, a), i') ← unpack_am data_buf i
    some (exec_am_task msg.src header.team_addr header.req_id a, i')

  unfoldable pub exec_return_am : Msg → List ℕ → ℕ → Option (Received A × ℕ)
  exec_return_am msg data_buf i = do
    ((header, a), i') ← unpack_am data_buf i
    some (exec_return_task msg.src header.team_addr header.req_id a, i')

  -- `sub_data` is a view of the buffer.
  unfoldable pub exec_data_am : Msg → List ℕ → ℕ → Option (Received A × ℕ)
  exec_data_am msg data_buf i = do
    bytes ← slice data_buf i s.data_header_len
    header ← s.data_header.deserialize bytes
    darc_bytes ← slice data_buf (i + s.data_header_len) header.darc_list_size
    darcs ← s.darcs.deserialize darc_bytes
    sub ← slice data_buf (i + s.data_header_len + header.darc_list_size) header.size
    some (
      add_data msg.src header.req_id sub darcs,
      i + s.data_header_len + header.darc_list_size + header.size,
    )

  unfoldable pub exec_unit_am : Msg → List ℕ → ℕ → Option (Received A × ℕ)
  exec_unit_am msg data_buf i = do
    bytes ← slice data_buf i s.unit_header_len
    header ← s.unit_header.deserialize bytes
    some (add_unit msg.src header.req_id, i + s.unit_header_len)

  -- A `BatchedMsg` within a batched message panics.
  unfoldable pub exec_cmd : Msg → List ℕ → Cmd → ℕ → Option (Received A × ℕ)
  exec_cmd msg data_buf am_cmd i = exec_am msg data_buf i
  exec_cmd msg data_buf return_am_cmd i = exec_return_am msg data_buf i
  exec_cmd msg data_buf data_cmd i = exec_data_am msg data_buf i
  exec_cmd msg data_buf unit_cmd i = exec_unit_am msg data_buf i
  exec_cmd msg data_buf batched_msg i = none

  -- The loop of `exec_batched_msg`. Each round takes a command, which has a byte at least, so as many
  -- rounds as there are bytes are enough.
  unfoldable pub exec_from : ℕ → Msg → List ℕ → ℕ → Option (List (Received A))
  exec_from zero msg data_buf i = none
  exec_from (suc fuel) msg data_buf i = elim (ltb i (length data_buf)) [
    | false ↦ some []
    | true ↦ (slice data_buf i s.cmd_len) >>= λ bytes. s.cmd.deserialize bytes >>= λ cmd.
        exec_cmd msg data_buf cmd (i + s.cmd_len) >>= λ r.
        exec_from fuel msg data_buf r.1 >>= λ more. some (r.0 ∷ more)
  ]

  unfoldable pub exec_batched_msg : Msg → List ℕ → Option (List (Received A))
  exec_batched_msg msg data_buf = exec_from (suc (length data_buf)) msg data_buf 0

  unfoldable pub exec_one : Option (Received A × ℕ) → Option (List (Received A))
  exec_one r = r >>= λ x. some (x.0 ∷ [])

  unfoldable pub exec_msg : Msg → List ℕ → Option (List (Received A))
  exec_msg msg data_buf = elim msg.cmd [
    | am_cmd ↦ exec_one (exec_am msg data_buf 0)
    | return_am_cmd ↦ exec_one (exec_return_am msg data_buf 0)
    | data_cmd ↦ exec_one (exec_data_am msg data_buf 0)
    | unit_cmd ↦ exec_one (exec_unit_am msg data_buf 0)
    | batched_msg ↦ exec_batched_msg msg data_buf
  ]

  module _ (create_data_buf : ℕ → List ℕ) where
    unfoldable pub send_am : ReqMetaData → A → ℕ → ℕ → Cmd → Option (Tx A)
    send_am req_data a am_id am_size cmd = do
      let header : AmHeader = record {
        am_id = am_id;
        team_addr = req_data.team_addr;
        req_id = req_data.id;
      }
      w₁ ←
          write s.am_header_len (s.am_header.serialize header)
            (record { buf = create_data_buf (add_usize am_size s.am_header_len); i = 0 })
      w₂ ← write am_size (s.am_bytes a) w₁
      some (record {
        pe = req_data.dst;
        team_addr = req_data.team_addr;
        header = create_header req_data.world_pe cmd;
        bytes = w₂.buf;
        sers = (a, darc_ser_cnt req_data) ∷ [];
      })

    unfoldable pub send_data_am : ReqMetaData → R → ℕ → Option (Tx A)
    send_data_am req_data r data_size = do
      let darcs = s.darcs_of r
      let darc_list_size = length (s.darcs.serialize darcs)
      let header : DataHeader = record {
        size = data_size;
        req_id = req_data.id;
        darc_list_size = darc_list_size;
      }
      w₁ ← write s.data_header_len (s.data_header.serialize header) (record {
        buf = create_data_buf (add_usize (add_usize data_size darc_list_size) s.data_header_len);
        i = 0;
      })
      w₂ ← write darc_list_size (s.darcs.serialize darcs) w₁
      w₃ ← write data_size (s.result_bytes r) w₂
      some (record {
        pe = req_data.dst;
        team_addr = req_data.team_addr;
        header = create_header req_data.world_pe data_cmd;
        bytes = w₃.buf;
        sers = [];
      })

    unfoldable pub send_unit_am : ReqMetaData → Option (Tx A)
    send_unit_am req_data = do
      w₁ ←
          write s.unit_header_len (s.unit_header.serialize (record { req_id = req_data.id }))
            (record { buf = create_data_buf s.unit_header_len; i = 0 })
      some (record {
        pe = req_data.dst;
        team_addr = req_data.team_addr;
        header = create_header req_data.world_pe unit_cmd;
        bytes = w₁.buf;
        sers = [];
      })

    unfoldable pub batch_or :
        Bool → ReqMetaData → LamellarData A R × ℕ → Option (Tx A) → Option (Action A R)
    batch_or test req x tx =
        if test then some (batched req x.0 x.1) else (tx >>= λ t. some (sent t))

    -- `is_local` tells whether the team's lamellae is the local one, and `member` whether the team has
    -- the source PE.
    unfoldable pub process_msg : Bool → Bool → Bool → Am A R → Option (List (Action A R))
    process_msg is_local member immediate (all req a) =
        let am_size = length (s.am_bytes a) in
        let tail : List (Action A R) = if member then executed req a ∷ [] else [] in
        if not is_local && (ltb 1 req.num_pes || not (is_some req.team_pe_id))
        then (batch_or (ltb am_size batch_am_size && not immediate) req (remote_am s a)
              (send_am req a (s.am_id a) am_size am_cmd)
            >>= λ act. some (act ∷ tail))
        else some tail
    process_msg is_local member immediate (remote req a) =
        let am_size = length (s.am_bytes a) in
        if elim req.dst [ none ↦ false | some dst ↦ dst == req.src ]
        then some (executed req a ∷ [])
        else (batch_or (ltb am_size batch_am_size && not immediate) req (remote_am s a)
              (send_am req a (s.am_id a) am_size am_cmd)
            >>= λ act. some (act ∷ []))
    process_msg is_local member immediate (local req a) = some (executed req a ∷ [])
    process_msg is_local member immediate (return req a) =
        let am_size = length (s.am_bytes a) in
        batch_or (ltb am_size batch_am_size && not immediate) req (returned_am s a)
          (send_am req a (s.am_id a) am_size return_am_cmd)
        >>= λ act. some (act ∷ [])
    process_msg is_local member immediate (data_ req r) =
        let data_size = length (s.result_bytes r) in
        batch_or (ltb data_size batch_am_size && not immediate) req (data_am s r)
          (send_data_am req r data_size)
        >>= λ act. some (act ∷ [])
    process_msg is_local member immediate (unit_ req) =
        batch_or (ltb s.unit_header_len batch_am_size && not immediate) req (unit_am s)
          (send_unit_am req)
        >>= λ act. some (act ∷ [])
