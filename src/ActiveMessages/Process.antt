-- ===== src/ActiveMessages/Process.antt =====
-- `process_msg`: whether a message is batched, sent by itself or executed here, the same PEs do the same
-- with it.
use lamellar_runtime.Prelude.{
  ℕ, ◌+◌, ◌%◌, ◌^◌, ◌<◌, ◌≡◌, refl, sym, ap, ◌∙◌, Option, none, some, List, [], ◌∷◌, ◌++◌, length,
  length-append, arith, usize_mod, add_usize, Bool, not, ◌&&◌, ◌||◌, is_some, ltb, ◌==◌,
  if◌then◌else◌, Bool-cases, true, false, inl, inr, ◌>>=◌, Filled, write-Filled, Filled-full,
  Returns, Returns->>=, HoldsAt,
}
use mathlib.Core.List.{append-nil, append_assoc}
use lamellar_runtime.ActiveMessages.Messages.{
  Cmd, am_cmd, return_am_cmd, data_cmd, unit_cmd, AmHeader, DataHeader, ReqMetaData, LamellarData,
  am, return_am, result, unit, Serde, IsSerde,
}
use lamellar_runtime.ActiveMessages.Batcher.{
  Tx, darc_ser_cnt, create_header, remote_am, returned_am, data_am, unit_am,
}
use lamellar_runtime.ActiveMessages.Registered.{
  batch_am_size, Am, all, remote, local, return, data_, unit_, Action, batched, sent, executed,
  batch_or, send_am, send_data_am, send_unit_am, process_msg, exec_msg, exec_one, exec_am,
  exec_return_am,
}
use lamellar_runtime.ActiveMessages.Wire.{
  am_body, body, received_data, unpack_am-HoldsAt, exec_data_am-HoldsAt, exec_unit_am-HoldsAt,
}

module _ {A R : Type 0} (s : Serde A R) (laws : IsSerde s) (create_data_buf : ℕ → List ℕ) where
  -- What the receiver does with a message that was sent by itself, and to whom it went.
  abbrev pub Arrives : ReqMetaData → LamellarData A R → Tx A → Type 0
  Arrives req d tx =
      (exec_msg s tx.header tx.bytes ≡ some (received_data s (req.world_pe % 2 ^ 16) req d ∷ []))
      × (tx.pe ≡ req.dst)

  module _ (room : (n : ℕ) → length (create_data_buf n) ≡ n) where
    begun : (n m : ℕ) → n ≡ m → Filled (record { buf = create_data_buf n; i = 0 }) [] m
    begun n m e = record { rest = create_data_buf n; holds = refl; at = refl; room = room n ∙ e }

    whole : (xs : List ℕ) → HoldsAt xs 0 (xs ++ [])
    whole xs = (sym (append-nil xs), omega (arith, ap length (append-nil xs)))

    -- A buffer that is filled with a message's body.
    send_am_bytes :
        (req : ReqMetaData) (a : A) (id : ℕ) (cmd : Cmd)
        → s.am_header_len + length (s.am_bytes a) < usize_mod
        → Returns (send_am s create_data_buf req a id (length (s.am_bytes a)) cmd) (λ tx.
          (tx.bytes ≡ am_body s req a id)
          × (tx.header ≡ create_header req.world_pe cmd)
          × (tx.pe ≡ req.dst))
    unfolding send_am
    send_am_bytes req a id cmd fits =
        let m = length (s.am_bytes a) in
        let h : AmHeader = record { am_id = id; team_addr = req.team_addr; req_id = req.id } in
        Returns->>=
          (write-Filled s.am_header_len (m + 0) [] (s.am_header.serialize h)
            (record { buf = create_data_buf (add_usize m s.am_header_len); i = 0 })
            (laws.am_header_fixed h)
            (begun (add_usize m s.am_header_len) (s.am_header_len + (m + 0)) (omega arith)))
          λ w₁ f₁.
            Returns->>= (write-Filled m 0 (s.am_header.serialize h) (s.am_bytes a) w₁ refl f₁)
              λ w₂ f₂. (
                record {
                  pe = req.dst;
                  team_addr = req.team_addr;
                  header = create_header req.world_pe cmd;
                  bytes = w₂.buf;
                  sers = (a, darc_ser_cnt req) ∷ [];
                },
                refl,
                (Filled-full (am_body s req a id) w₂ f₂, refl, refl),
              )

    send_am-Arrives :
        (req : ReqMetaData) (a : A)
        → s.am_header_len + length (s.am_bytes a) < usize_mod
        → Returns
            (send_am s create_data_buf req a (s.am_id a) (length (s.am_bytes a)) am_cmd)
            (Arrives req (am a (s.am_id a)))
    unfolding exec_msg exec_one exec_am create_header
    send_am-Arrives req a fits =
        let (tx, e, (b, h, p)) = send_am_bytes req a (s.am_id a) am_cmd fits in
        let (q, _) =
          unpack_am-HoldsAt s laws req a (am_body s req a (s.am_id a)) [] 0
            (whole (am_body s req a (s.am_id a))) in
        (tx, e, (rw (b, h, q) refl, p))

    send_return-Arrives :
        (req : ReqMetaData) (a : A)
        → s.am_header_len + length (s.am_bytes a) < usize_mod
        → Returns
            (send_am s create_data_buf req a (s.am_id a) (length (s.am_bytes a)) return_am_cmd)
            (Arrives req (return_am a (s.am_id a)))
    unfolding exec_msg exec_one exec_return_am create_header
    send_return-Arrives req a fits =
        let (tx, e, (b, h, p)) = send_am_bytes req a (s.am_id a) return_am_cmd fits in
        let (q, _) =
          unpack_am-HoldsAt s laws req a (am_body s req a (s.am_id a)) [] 0
            (whole (am_body s req a (s.am_id a))) in
        (tx, e, (rw (b, h, q) refl, p))

    send_data_am-Arrives :
        (req : ReqMetaData) (r : R)
        → length (body s req (data_am s r).0) < usize_mod
        → Returns
            (send_data_am s create_data_buf req r (length (s.result_bytes r)))
            (Arrives req (data_am s r).0)
    unfolding send_data_am data_am exec_msg exec_one create_header
    send_data_am-Arrives req r fits =
        let darcs = s.darcs_of r in
        let c = length (s.darcs.serialize darcs) in
        let m = length (s.result_bytes r) in
        let h : DataHeader = record { size = m; req_id = req.id; darc_list_size = c } in
        let n = add_usize (add_usize m c) s.data_header_len in
        let l =
          length-append (s.data_header.serialize h) (s.darcs.serialize darcs ++ s.result_bytes r) in
        let l' = length-append (s.darcs.serialize darcs) (s.result_bytes r) in
        let fixed = laws.data_header_fixed h in
        Returns->>=
          (write-Filled s.data_header_len (c + (m + 0)) [] (s.data_header.serialize h)
            (record { buf = create_data_buf n; i = 0 }) fixed
            (begun n (s.data_header_len + (c + (m + 0))) (omega arith)))
          λ w₁ f₁.
            Returns->>=
              (write-Filled c (m + 0) (s.data_header.serialize h) (s.darcs.serialize darcs) w₁ refl
                f₁)
              λ w₂ f₂.
                Returns->>=
                  (write-Filled m 0 (s.data_header.serialize h ++ s.darcs.serialize darcs)
                    (s.result_bytes r) w₂ refl f₂)
                  λ w₃ f₃.
                    let all_bytes : List ℕ = body s req (result r darcs c) in
                    let full : w₃.buf ≡ all_bytes =
                      Filled-full
                        ((s.data_header.serialize h ++ s.darcs.serialize darcs) ++ s.result_bytes r)
                        w₃ f₃
                      ∙ append_assoc (s.data_header.serialize h) (s.darcs.serialize darcs)
                          (s.result_bytes r) in
                    let (q, _) =
                      exec_data_am-HoldsAt s laws (create_header req.world_pe data_cmd) req r darcs
                        c all_bytes [] 0 refl (whole all_bytes) in
                    (
                      record {
                        pe = req.dst;
                        team_addr = req.team_addr;
                        header = create_header req.world_pe data_cmd;
                        bytes = w₃.buf;
                        sers = [];
                      },
                      refl,
                      (rw (full, q) refl, refl),
                    )

    send_unit_am-Arrives :
        (req : ReqMetaData) → Returns (send_unit_am s create_data_buf req) (Arrives req unit)
    unfolding send_unit_am exec_msg exec_one create_header
    send_unit_am-Arrives req =
        let n = s.unit_header_len in
        let bytes : List ℕ = s.unit_header.serialize (record { req_id = req.id }) in
        Returns->>=
          (write-Filled n 0 [] bytes (record { buf = create_data_buf n; i = 0 })
            (laws.unit_header_fixed (record { req_id = req.id })) (begun n (n + 0) (omega arith)))
          λ w₁ f₁.
            let (q, _) =
              exec_unit_am-HoldsAt s laws (create_header req.world_pe unit_cmd) req bytes [] 0
                (whole bytes) in
            (
              record {
                pe = req.dst;
                team_addr = req.team_addr;
                header = create_header req.world_pe unit_cmd;
                bytes = w₁.buf;
                sers = [];
              },
              refl,
              (rw (Filled-full bytes w₁ f₁, q) refl, refl),
            )

  -- An action that gives `d` to the PEs of the request: it is put in a batch, or sent at once.
  abbrev pub Delivers : ReqMetaData → LamellarData A R → Action A R → Type 0
  Delivers req d (batched req' d' n) = (req' ≡ req) × (d' ≡ d)
  Delivers req d (sent tx) = Arrives req d tx
  Delivers req d (executed req' a) = ⊥

  -- What a message has for other PEs, if it goes to any, and what is executed here.
  abbrev pub for_others : Bool → Am A R → Option (ReqMetaData × LamellarData A R)
  for_others is_local (all req a) =
      if not is_local && (ltb 1 req.num_pes || not (is_some req.team_pe_id))
      then some (req, am a (s.am_id a))
      else none
  for_others is_local (remote req a) =
      if elim req.dst [ none ↦ false | some dst ↦ dst == req.src ]
      then none
      else some (req, am a (s.am_id a))
  for_others is_local (local req a) = none
  for_others is_local (return req a) = some (req, return_am a (s.am_id a))
  for_others is_local (data_ req r) =
      some (req, result r (s.darcs_of r) (length (s.darcs.serialize (s.darcs_of r))))
  for_others is_local (unit_ req) = some (req, unit)

  abbrev pub for_here : Bool → Am A R → List (Action A R)
  for_here member (all req a) = if member then executed req a ∷ [] else []
  for_here member (remote req a) =
      if elim req.dst [ none ↦ false | some dst ↦ dst == req.src ] then executed req a ∷ [] else []
  for_here member (local req a) = executed req a ∷ []
  for_here member (return req a) = []
  for_here member (data_ req r) = []
  for_here member (unit_ req) = []

  -- The actions give the others what they are to have, and then do what is to be done here.
  abbrev pub Meets :
      Option (ReqMetaData × LamellarData A R) → List (Action A R) → List (Action A R) → Type 0
  Meets none here acts = acts ≡ here
  Meets (some (req, d)) here [] = ⊥
  Meets (some (req, d)) here (act ∷ acts) = Delivers req d act × (acts ≡ here)

  -- A message is an object in memory: its bytes do not wrap.
  abbrev pub Fits : Am A R → Type 0
  Fits (all req a) = s.am_header_len + length (s.am_bytes a) < usize_mod
  Fits (remote req a) = s.am_header_len + length (s.am_bytes a) < usize_mod
  Fits (local req a) = Unit
  Fits (return req a) = s.am_header_len + length (s.am_bytes a) < usize_mod
  Fits (data_ req r) = length (body s req (data_am s r).0) < usize_mod
  Fits (unit_ req) = Unit

  batch_or-Meets :
      (test : Bool) (req : ReqMetaData) (d : LamellarData A R) (n : ℕ) (tx : Option (Tx A))
      (here : List (Action A R))
      → Returns tx (Arrives req d)
      → Returns
          (batch_or s create_data_buf test req (d, n) tx >>= λ act. some (act ∷ here))
          (Meets (some (req, d)) here)
  unfolding batch_or
  batch_or-Meets true req d n tx here t = (batched req d n ∷ here, refl, ((refl, refl), refl))
  batch_or-Meets false req d n tx here (t, e, a) = (sent t ∷ here, rw e refl, (a, refl))

  -- With buffers of the size that is asked for, whatever the size of the message and whether it is to
  -- go at once: `process_msg` does not panic; what it puts in a batch or sends by itself is
  -- what the message has for other PEs, and a PE that executes what was sent by itself does with it
  -- what the PE does that takes it out of a batch; and what it executes here is what the message
  -- has for this PE.
  pub process_msg_delivers :
      (is_local member immediate : Bool) (m : Am A R)
      → ((n : ℕ) → length (create_data_buf n) ≡ n)
      → Fits m
      → Returns
          (process_msg s create_data_buf is_local member immediate m)
          (Meets (for_others is_local m) (for_here member m))
  unfolding process_msg remote_am returned_am data_am unit_am
  process_msg_delivers is_local member immediate (all req a) room fits =
      elim (Bool-cases (not is_local && (ltb 1 req.num_pes || not (is_some req.team_pe_id)))) [
        | inl y ↦
            rw (y, process_msg)
              (batch_or-Meets (ltb (length (s.am_bytes a)) batch_am_size && not immediate) req
                (am a (s.am_id a)) (add_usize (length (s.am_bytes a)) s.am_header_len)
                (send_am s create_data_buf req a (s.am_id a) (length (s.am_bytes a)) am_cmd)
                (if member then executed req a ∷ [] else []) (send_am-Arrives room req a fits))
        | inr n ↦ rw (n, process_msg) (if member then executed req a ∷ [] else [], refl, refl)
      ]
  process_msg_delivers is_local member immediate (remote req a) room fits =
      elim (Bool-cases (elim req.dst [ none ↦ false | some dst ↦ dst == req.src ])) [
        | inl y ↦ rw (y, process_msg) (executed req a ∷ [], refl, refl)
        | inr n ↦
            rw (n, process_msg)
              (batch_or-Meets (ltb (length (s.am_bytes a)) batch_am_size && not immediate) req
                (am a (s.am_id a)) (add_usize (length (s.am_bytes a)) s.am_header_len)
                (send_am s create_data_buf req a (s.am_id a) (length (s.am_bytes a)) am_cmd) []
                (send_am-Arrives room req a fits))
      ]
  process_msg_delivers is_local member immediate (local req a) room fits =
      (executed req a ∷ [], refl, refl)
  process_msg_delivers is_local member immediate (return req a) room fits =
      batch_or-Meets (ltb (length (s.am_bytes a)) batch_am_size && not immediate) req
        (return_am a (s.am_id a)) (add_usize (length (s.am_bytes a)) s.am_header_len)
        (send_am s create_data_buf req a (s.am_id a) (length (s.am_bytes a)) return_am_cmd) []
        (send_return-Arrives room req a fits)
  process_msg_delivers is_local member immediate (data_ req r) room fits =
      batch_or-Meets (ltb (length (s.result_bytes r)) batch_am_size && not immediate) req
        (data_am s r).0 (data_am s r).1
        (send_data_am s create_data_buf req r (length (s.result_bytes r))) []
        (send_data_am-Arrives room req r fits)
  process_msg_delivers is_local member immediate (unit_ req) room fits =
      batch_or-Meets (ltb s.unit_header_len batch_am_size && not immediate) req unit
        s.unit_header_len (send_unit_am s create_data_buf req) [] (send_unit_am-Arrives room req)
