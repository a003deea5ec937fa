-- ===== src/ActiveMessages/Wire.antt =====
-- What an entry of a batch looks like as bytes, and what its receiver makes of it.
use lamellar_runtime.Prelude.{
  ℕ, ◌+◌, ◌<◌, ◌≡◌, refl, sym, some, List, [], ◌∷◌, ◌++◌, length, length-append, arith, usize_mod,
  HoldsAt, slice-HoldsAt, slice_from-HoldsAt,
}
use mathlib.Core.List.{append-nil, append_assoc}
use lamellar_runtime.ActiveMessages.Messages.{
  Cmd, am_cmd, return_am_cmd, data_cmd, unit_cmd, Msg, AmHeader, DataHeader, ReqMetaData,
  LamellarData, am, return_am, result, unit, Serde, IsSerde, Codec, IsCodec,
}
use lamellar_runtime.ActiveMessages.Batcher.{Entry, darc_ser_cnt}
use lamellar_runtime.ActiveMessages.Registered.{
  Received, exec_am_task, exec_return_task, add_data, add_unit, unpack_am, exec_am, exec_return_am,
  exec_data_am, exec_unit_am, exec_cmd,
}

pub exact :
    {T : Type 0} {c : Codec T} (l : IsCodec c) (x : T) → c.deserialize (c.serialize x) ≡ some x
exact {c} l x = rw append-nil at (l.back x [])

module _ {A R : Type 0} (s : Serde A R) where
  abbrev pub command : LamellarData A R → Cmd
  command (am a id) = am_cmd
  command (return_am a id) = return_am_cmd
  command (result r darcs n) = data_cmd
  command unit = unit_cmd

  -- The bytes behind the command.
  abbrev pub am_body : ReqMetaData → A → ℕ → List ℕ
  am_body req a id =
      s.am_header.serialize (record { am_id = id; team_addr = req.team_addr; req_id = req.id })
      ++ s.am_bytes a

  abbrev pub body : ReqMetaData → LamellarData A R → List ℕ
  body req (am a id) = am_body req a id
  body req (return_am a id) = am_body req a id
  body req (result r darcs n) =
      s.data_header.serialize
        (record { size = length (s.result_bytes r); req_id = req.id; darc_list_size = n })
      ++ (s.darcs.serialize darcs ++ s.result_bytes r)
  body req unit = s.unit_header.serialize (record { req_id = req.id })

  abbrev pub encode : Entry A R → List ℕ
  encode e = s.cmd.serialize (command e.1) ++ body e.0 e.1

  abbrev pub encode_all : List (Entry A R) → List ℕ
  encode_all [] = []
  encode_all (e ∷ es) = encode e ++ encode_all es

  -- What a PE does with a message that came from PE `src`.
  abbrev pub received_data : ℕ → ReqMetaData → LamellarData A R → Received A
  received_data src req (am a id) = exec_am_task src req.team_addr req.id a
  received_data src req (return_am a id) = exec_return_task src req.team_addr req.id a
  received_data src req (result r darcs n) = add_data src req.id (s.result_bytes r) darcs
  received_data src req unit = add_unit src req.id

  abbrev pub received : ℕ → Entry A R → Received A
  received src e = received_data src e.0 e.1

  -- The counts of the `Darc`s that a batch's messages refer to.
  abbrev pub sers_of : List (Entry A R) → List (A × ℕ)
  sers_of [] = []
  sers_of ((req, am a id, n) ∷ es) = (a, darc_ser_cnt req) ∷ sers_of es
  sers_of ((req, return_am a id, n) ∷ es) = (a, darc_ser_cnt req) ∷ sers_of es
  sers_of ((req, result r darcs m, n) ∷ es) = sers_of es
  sers_of ((req, unit, n) ∷ es) = sers_of es

  -- The data is as `process_msg` makes it.
  abbrev pub IsMadeData : LamellarData A R → Type 0
  IsMadeData (am a id) = id ≡ s.am_id a
  IsMadeData (return_am a id) = id ≡ s.am_id a
  IsMadeData (result r darcs n) = n ≡ length (s.darcs.serialize darcs)
  IsMadeData unit = Unit

  -- And the entry's size is that of its bytes.
  abbrev pub IsMade : Entry A R → Type 0
  IsMade e = IsMadeData e.1 × (e.2 ≡ length (encode e)) × (e.2 < usize_mod)

  module _ (laws : IsSerde s) where
    pub length-am_body :
        (req : ReqMetaData) (a : A) (id : ℕ)
        → length (am_body req a id) ≡ s.am_header_len + length (s.am_bytes a)
    length-am_body req a id = omega (
      arith,
      length-append
          (s.am_header.serialize
            (record { am_id = id; team_addr = req.team_addr; req_id = req.id }))
          (s.am_bytes a),
      laws.am_header_fixed (record { am_id = id; team_addr = req.team_addr; req_id = req.id }),
    )

    -- What is written behind a command, one part after the other.
    pub unpack_am-HoldsAt :
        (req : ReqMetaData) (a : A) (buf rest : List ℕ) (i : ℕ)
        → HoldsAt buf i (am_body req a (s.am_id a) ++ rest)
        → let h : AmHeader = record {
          am_id = s.am_id a;
          team_addr = req.team_addr;
          req_id = req.id;
        } in
          (unpack_am s buf i ≡ some ((h, a), i + s.am_header_len + length (s.am_bytes a)))
          × HoldsAt buf (i + s.am_header_len + length (s.am_bytes a)) rest
    unfolding unpack_am
    unpack_am-HoldsAt req a buf rest i holds =
        let h : AmHeader = record {
          am_id = s.am_id a;
          team_addr = req.team_addr;
          req_id = req.id;
        } in
        let (e₁, at₁) =
          slice-HoldsAt buf i s.am_header_len (s.am_header.serialize h) (s.am_bytes a ++ rest)
            (laws.am_header_fixed h) (rw append_assoc at holds) in
        let rest₁ = slice_from-HoldsAt buf (i + s.am_header_len) (s.am_bytes a ++ rest) at₁ in
        (
          rw (e₁, exact laws.am_header_back h, rest₁, laws.unpacks a rest) refl,
          (slice-HoldsAt buf (i + s.am_header_len) (length (s.am_bytes a)) (s.am_bytes a) rest refl
              at₁).1,
        )

    pub exec_data_am-HoldsAt :
        (msg : Msg) (req : ReqMetaData) (r : R) (darcs : List ℕ) (n : ℕ) (buf rest : List ℕ) (i : ℕ)
        → n ≡ length (s.darcs.serialize darcs)
        → HoldsAt buf i (body req (result r darcs n) ++ rest)
        → let i' = i + s.data_header_len + n + length (s.result_bytes r) in
          (exec_data_am s msg buf i ≡ some (add_data msg.src req.id (s.result_bytes r) darcs, i'))
          × HoldsAt buf i' rest
    unfolding exec_data_am
    exec_data_am-HoldsAt msg req r darcs n buf rest i counted holds =
        let h : DataHeader = record {
          size = length (s.result_bytes r);
          req_id = req.id;
          darc_list_size = n;
        } in
        let (e₁, at₁) =
          slice-HoldsAt buf i s.data_header_len (s.data_header.serialize h)
            ((s.darcs.serialize darcs ++ s.result_bytes r) ++ rest) (laws.data_header_fixed h)
            (rw append_assoc at holds) in
        let (e₂, at₂) =
          slice-HoldsAt buf (i + s.data_header_len) n (s.darcs.serialize darcs)
            (s.result_bytes r ++ rest) (sym counted) (rw append_assoc at at₁) in
        let (e₃, at₃) =
          slice-HoldsAt buf (i + s.data_header_len + n) (length (s.result_bytes r))
            (s.result_bytes r) rest refl at₂ in
        (rw (e₁, exact laws.data_header_back h, e₂, exact laws.darcs_back darcs, e₃) refl, at₃)

    pub exec_unit_am-HoldsAt :
        (msg : Msg) (req : ReqMetaData) (buf rest : List ℕ) (i : ℕ)
        → HoldsAt buf i (body req unit ++ rest)
        → let i' = i + s.unit_header_len in
          (exec_unit_am s msg buf i ≡ some (add_unit msg.src req.id, i')) × HoldsAt buf i' rest
    unfolding exec_unit_am
    exec_unit_am-HoldsAt msg req buf rest i holds =
        let (e₁, at₁) =
          slice-HoldsAt buf i s.unit_header_len
            (s.unit_header.serialize (record { req_id = req.id })) rest
            (laws.unit_header_fixed (record { req_id = req.id })) holds in
        (rw (e₁, exact laws.unit_header_back (record { req_id = req.id })) refl, at₁)

    -- Behind its command an entry is taken out as it was put in, and the index stands behind it.
    pub exec_cmd-HoldsAt :
        (msg : Msg) (req : ReqMetaData) (d : LamellarData A R) (buf rest : List ℕ) (i : ℕ)
        → IsMadeData d
        → HoldsAt buf i (body req d ++ rest)
        → (i' : ℕ) × (exec_cmd s msg buf (command d) i ≡ some (received_data msg.src req d, i'))
          × HoldsAt buf i' rest
    unfolding exec_cmd exec_am exec_return_am
    exec_cmd-HoldsAt msg req (am a id) buf rest i made holds =
        let (e, at) = unpack_am-HoldsAt req a buf rest i (rw made at holds) in
        (i + s.am_header_len + length (s.am_bytes a), rw e refl, at)
    exec_cmd-HoldsAt msg req (return_am a id) buf rest i made holds =
        let (e, at) = unpack_am-HoldsAt req a buf rest i (rw made at holds) in
        (i + s.am_header_len + length (s.am_bytes a), rw e refl, at)
    exec_cmd-HoldsAt msg req (result r darcs n) buf rest i made holds =
        let (e, at) = exec_data_am-HoldsAt msg req r darcs n buf rest i made holds in
        (i + s.data_header_len + n + length (s.result_bytes r), e, at)
    exec_cmd-HoldsAt msg req unit buf rest i made holds =
        let (e, at) = exec_unit_am-HoldsAt msg req buf rest i holds in
        (i + s.unit_header_len, e, at)
