-- ===== src/ActiveMessages/Messages.antt =====
-- The data of active messages, of src/active_messaging.rs and src/active_messaging/batching.rs, and
-- what the code takes from bincode and from the generated code of registered messages.
use lamellar_runtime.Prelude.{ℕ, ◌≡◌, ◌++◌, List, Option, some, length}

pub record ReqId : Type 0 where
  pub id : ℕ
  pub sub_id : ℕ

pub data Cmd : Type 0 where
  am_cmd return_am_cmd data_cmd unit_cmd batched_msg : Cmd

pub record Msg : Type 0 where
  pub src : ℕ
  pub cmd : Cmd

pub record AmHeader : Type 0 where
  pub am_id : ℕ
  pub team_addr : ℕ
  pub req_id : ReqId

pub record DataHeader : Type 0 where
  pub size : ℕ
  pub req_id : ReqId
  pub darc_list_size : ℕ

pub record UnitHeader : Type 0 where
  pub req_id : ReqId

-- Of the team that a request belongs to: its address, the PE's own id in the world, its id in the
-- team, if it has one, and the team's size.
pub record ReqMetaData : Type 0 where
  pub src : ℕ
  pub dst : Option ℕ
  pub id : ReqId
  pub team_addr : ℕ
  pub world_pe : ℕ
  pub team_pe_id : Option ℕ
  pub num_pes : ℕ

-- `A` is the type of active messages, `R` that of results.
pub data LamellarData (A R : Type 0) : Type 0 where
  am : A → ℕ → LamellarData A R
  return_am : A → ℕ → LamellarData A R
  result : R → List ℕ → ℕ → LamellarData A R
  unit : LamellarData A R

-- `bincode` at one type.
pub record Codec (T : Type 0) : Type 0 where
  pub serialize : T → List ℕ
  pub deserialize : List ℕ → Option T

-- What is serialized is read back, whatever follows it.
pub record IsCodec {T : Type 0} (c : Codec T) : Type 0 where
  pub back : (x : T) (rest : List ℕ) → c.deserialize (c.serialize x ++ rest) ≡ some x

-- The code outside the repository that messages pass through: bincode at the headers, the methods that
-- the procedural macros generate for messages and results, and the table `AMS_EXECS`, with `none`
-- where its lookup or its function panics. `darcs_of` are the `Darc`s that a result refers to.
pub record Serde (A R : Type 0) : Type 0 where
  pub cmd : Codec Cmd
  pub am_header : Codec AmHeader
  pub data_header : Codec DataHeader
  pub unit_header : Codec UnitHeader
  pub darcs : Codec (List ℕ)
  pub am_bytes : A → List ℕ
  pub am_id : A → ℕ
  pub unpack : ℕ → List ℕ → Option A
  pub result_bytes : R → List ℕ
  pub darcs_of : R → List ℕ
  pub cmd_len : ℕ
  pub am_header_len : ℕ
  pub data_header_len : ℕ
  pub unit_header_len : ℕ

-- Headers have a fixed size, which the lengths that the code keeps are, and a message is unpacked from
-- what it is serialized to.
pub record IsSerde {A R : Type 0} (s : Serde A R) : Type 0 where
  pub cmd_back : IsCodec s.cmd
  pub am_header_back : IsCodec s.am_header
  pub data_header_back : IsCodec s.data_header
  pub unit_header_back : IsCodec s.unit_header
  pub darcs_back : IsCodec s.darcs
  pub cmd_fixed : (c : Cmd) → length (s.cmd.serialize c) ≡ s.cmd_len
  pub am_header_fixed : (h : AmHeader) → length (s.am_header.serialize h) ≡ s.am_header_len
  pub data_header_fixed : (h : DataHeader) → length (s.data_header.serialize h) ≡ s.data_header_len
  pub unit_header_fixed : (h : UnitHeader) → length (s.unit_header.serialize h) ≡ s.unit_header_len
  pub unpacks : (a : A) (rest : List ℕ) → s.unpack (s.am_id a) (s.am_bytes a ++ rest) ≡ some a
