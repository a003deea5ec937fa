-- ===== src/ActiveMessages/Batcher.antt =====
-- `SimpleBatcher` of src/active_messaging/batching/simple_batcher.rs: how a batch is filled and swapped
-- out, and the buffer that it is serialized into.
use lamellar_runtime.Prelude.{
  ℕ, ◌%◌, ◌^◌, Option, none, some, List, [], ◌∷◌, ◌++◌, length, add_usize, sub_usize, ltb,
  if◌then◌else◌, ◌>>=◌, Writer, write, get_elem?, pop_last,
}
use lamellar_runtime.ActiveMessages.Messages.{
  ReqMetaData, LamellarData, am, return_am, result, unit, Serde, Cmd, am_cmd, return_am_cmd,
  data_cmd, unit_cmd, batched_msg, Msg,
}

abbrev pub max_batch_size : ℕ
max_batch_size = 1000000

-- A request with its data and the bytes that it takes in the batch.
abbrev pub Entry : Type 0 → Type 0 → Type 0
Entry A R = ReqMetaData × LamellarData A R × ℕ

pub record SimpleBatcherInner (A R : Type 0) : Type 0 where
  pub batch : List (Entry A R)
  pub size : ℕ
  pub batch_id : ℕ
  pub pe : Option ℕ

-- The buffer of a batch, with the messages whose `Darc`s were counted, and how often each.
pub record TxBuf (A : Type 0) : Type 0 where
  pub writer : Writer ℕ
  pub sers : List (A × ℕ)

-- What is handed to the lamellae: the PE, or none for all PEs of the team at that address, the header
-- and the bytes.
pub record Tx (A : Type 0) : Type 0 where
  pub pe : Option ℕ
  pub team_addr : ℕ
  pub header : Msg
  pub bytes : List ℕ
  pub sers : List (A × ℕ)

-- To how many PEs a message goes; a PE outside the team sends to all of it.
unfoldable pub darc_ser_cnt : ReqMetaData → ℕ
darc_ser_cnt req = elim req.dst [
  | some _ ↦ 1
  | none ↦ elim req.team_pe_id [ some _ ↦ sub_usize req.num_pes 1 | none ↦ req.num_pes ]
]

-- `src as u16`.
unfoldable pub create_header : ℕ → Cmd → Msg
create_header src cmd = record { src = src % 2 ^ 16; cmd = cmd }

module _ {A R : Type 0} where
  unfoldable pub new : Option ℕ → SimpleBatcherInner A R
  new pe = record { batch = []; size = 0; batch_id = 0; pe = pe }

  -- The batch's size before is returned.
  unfoldable pub add :
      Serde A R
      → ReqMetaData
      → LamellarData A R
      → ℕ
      → SimpleBatcherInner A R
      → ℕ × SimpleBatcherInner A R
  add s req_data data_ size b =
      let size' = add_usize size s.cmd_len in
      (
        b.size,
        record b {
          batch = b.batch ++ ((req_data, data_, size') ∷ []);
          size = add_usize b.size size';
        },
      )

  unfoldable pub swap : SimpleBatcherInner A R → (List (Entry A R) × ℕ) × SimpleBatcherInner A R
  swap b = ((b.batch, b.size), record b { batch = []; size = 0; batch_id = add_usize b.batch_id 1 })

  -- What `add_remote_am_to_batch`, `add_return_am_to_batch`, `add_data_am_to_batch` and
  -- `add_unit_am_to_batch` add, with the sizes that `process_msg` measures.
  unfoldable pub remote_am : Serde A R → A → LamellarData A R × ℕ
  remote_am s a = (am a (s.am_id a), add_usize (length (s.am_bytes a)) s.am_header_len)

  unfoldable pub returned_am : Serde A R → A → LamellarData A R × ℕ
  returned_am s a = (return_am a (s.am_id a), add_usize (length (s.am_bytes a)) s.am_header_len)

  unfoldable pub data_am : Serde A R → R → LamellarData A R × ℕ
  data_am s r =
      let darcs = s.darcs_of r in
      let darc_list_size = length (s.darcs.serialize darcs) in
      (
        result r darcs darc_list_size,
        add_usize (add_usize (length (s.result_bytes r)) darc_list_size) s.data_header_len,
      )

  unfoldable pub unit_am : Serde A R → LamellarData A R × ℕ
  unit_am s = (unit, s.unit_header_len)

  -- The entry of `batched_ams` for a destination; the last one is for all PEs.
  unfoldable pub batch_of :
      List (SimpleBatcherInner A R) → ReqMetaData → Option (SimpleBatcherInner A R)
  batch_of batched_ams req = elim req.dst [
    | some dst ↦ get_elem? batched_ams dst
    | none ↦ elim (pop_last batched_ams) [ none ↦ none | some (last, _) ↦ some last ]
  ]

  unfoldable pub serialize_am :
      Serde A R → ReqMetaData → A → ℕ → ℕ → Cmd → TxBuf A → Option (TxBuf A)
  serialize_am s req_data a am_id am_size cmd t = do
    w₁ ← write s.cmd_len (s.cmd.serialize cmd) t.writer
    w₂ ←
        write s.am_header_len
          (s.am_header.serialize
            (record { am_id = am_id; team_addr = req_data.team_addr; req_id = req_data.id }))
          w₁
    w₃ ← write (sub_usize am_size (add_usize s.cmd_len s.am_header_len)) (s.am_bytes a) w₂
    some (record { writer = w₃; sers = t.sers ++ ((a, darc_ser_cnt req_data) ∷ []) })

  unfoldable pub serialize_data :
      Serde A R → ReqMetaData → R → ℕ → List ℕ → ℕ → TxBuf A → Option (TxBuf A)
  serialize_data s req_data r data_size darcs darc_list_size t = do
    w₁ ← write s.cmd_len (s.cmd.serialize data_cmd) t.writer
    let n = sub_usize data_size (add_usize (add_usize s.cmd_len s.data_header_len) darc_list_size)
    w₂ ←
        write s.data_header_len
          (s.data_header.serialize
            (record { size = n; req_id = req_data.id; darc_list_size = darc_list_size }))
          w₁
    w₃ ← write darc_list_size (s.darcs.serialize darcs) w₂
    w₄ ← write n (s.result_bytes r) w₃
    some (record t { writer = w₄ })

  unfoldable pub serialize_unit : Serde A R → ReqMetaData → TxBuf A → Option (TxBuf A)
  serialize_unit s req_data t = do
    w₁ ← write s.cmd_len (s.cmd.serialize unit_cmd) t.writer
    w₂ ← write s.unit_header_len (s.unit_header.serialize (record { req_id = req_data.id })) w₁
    some (record t { writer = w₂ })

  -- One round of the loop of `create_tx_task`.
  unfoldable pub serialize_entry : Serde A R → Entry A R → TxBuf A → Option (TxBuf A)
  serialize_entry s (req, am a id, size) t = serialize_am s req a id size am_cmd t
  serialize_entry s (req, return_am a id, size) t = serialize_am s req a id size return_am_cmd t
  serialize_entry s (req, result r darcs n, size) t = serialize_data s req r size darcs n t
  serialize_entry s (req, unit, size) t = serialize_unit s req t

  unfoldable pub serialize_entries : Serde A R → List (Entry A R) → TxBuf A → Option (TxBuf A)
  serialize_entries s [] t = some t
  serialize_entries s (e ∷ es) t = serialize_entry s e t >>= λ t'. serialize_entries s es t'

  -- `create_tx_task` of what `swap` returned, in a new buffer of that size; `some none` where it has
  -- nothing to send.
  unfoldable pub create_tx_task :
      Serde A R → (ℕ → List ℕ) → Option ℕ → List (Entry A R) → ℕ → Option (Option (Tx A))
  create_tx_task s create_data_buf pe entries size =
      if ltb 0 size
      then (elim entries [
        | [] ↦ none
        | e ∷ es ↦
            serialize_entries s (e ∷ es)
              (record { writer = record { buf = create_data_buf size; i = 0 }; sers = [] })
            >>= λ t. some (
                some (record {
                  pe = pe;
                  team_addr = e.0.team_addr;
                  header = create_header e.0.world_pe batched_msg;
                  bytes = t.writer.buf;
                  sers = t.sers;
                }))
      ])
      else some none
