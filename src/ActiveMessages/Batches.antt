-- ===== src/ActiveMessages/Batches.antt =====
-- From one PE's batch to the messages that another PE takes out of it.
use lamellar_runtime.Prelude.{
  ℕ, zero, suc, ◌+◌, ◌%◌, ◌^◌, ◌<◌, ◌≡◌, refl, ◌∙◌, Option, some, List, [], ◌∷◌, ◌++◌, length, map,
  All, length-append, arith, HoldsAt, slice-HoldsAt, lt→ltb, le→ltb,
}
use mathlib.Core.List.{append_assoc}
use lamellar_runtime.ActiveMessages.Messages.{
  Cmd, am_cmd, unit_cmd, batched_msg, Msg, Serde, IsSerde,
}
use lamellar_runtime.ActiveMessages.Batcher.{Entry, Tx, create_header, create_tx_task}
use lamellar_runtime.ActiveMessages.Registered.{exec_from, exec_batched_msg, exec_msg}
use lamellar_runtime.ActiveMessages.Wire.{
  command, body, encode, encode_all, received, sers_of, IsMade, exact, exec_cmd-HoldsAt,
}
use lamellar_runtime.ActiveMessages.Serialized.{bytes_of, length-encode, create_tx_task_lem}

module _ {A R : Type 0} (s : Serde A R) (laws : IsSerde s) where
  -- Two commands that are read back differently are not both written as nothing.
  pub cmd_len-pos : 0 < s.cmd_len
  cmd_len-pos = by_len s.cmd_len refl
    where
      empty : (xs : List ℕ) → length xs ≡ 0 → xs ≡ []
      empty [] e = refl
      empty (x ∷ xs) e = absurd (omega arith)

      none_written : (c : Cmd) → s.cmd_len ≡ 0 → s.cmd.deserialize [] ≡ some c
      none_written c z =
          let e = empty (s.cmd.serialize c) (laws.cmd_fixed c ∙ z) in
          rw e at (exact laws.cmd_back c)

      by_len : (n : ℕ) → s.cmd_len ≡ n → 0 < n
      by_len zero z = absurd (cc (none_written am_cmd z, none_written unit_cmd z))
      by_len (suc n) z = omega arith

  exec_from_lem :
      (fuel : ℕ) (msg : Msg) (es : List (Entry A R)) (buf : List ℕ) (i : ℕ)
      → length (encode_all s es) < fuel
      → All (IsMade s) es
      → HoldsAt buf i (encode_all s es)
      → exec_from s fuel msg buf i ≡ some (map (received s msg.src) es)
  unfolding exec_from
  exec_from_lem zero msg es buf i h made holds = absurd (omega arith)
  exec_from_lem (suc fuel) msg [] buf i h made holds =
      rw (le→ltb i (length buf) (omega arith), exec_from) refl
  exec_from_lem (suc fuel) msg ((req, d, n) ∷ es) buf i h made holds =
      let l = length-append (encode s (req, d, n)) (encode_all s es) in
      let p = cmd_len-pos in
      let q = length-encode s laws req d n in
      let (e₁, at₁) =
        slice-HoldsAt buf i s.cmd_len (s.cmd.serialize (command s d))
          (body s req d ++ encode_all s es) (laws.cmd_fixed (command s d))
          (rw append_assoc at holds) in
      let (j, e₂, at₂) =
        exec_cmd-HoldsAt s laws msg req d buf (encode_all s es) (i + s.cmd_len) made.0.0 at₁ in
      let rest = exec_from_lem fuel msg es buf j (omega arith) made.1 at₂ in
      rw
        (
          lt→ltb i (length buf) (omega arith),
          e₁,
          exact laws.cmd_back (command s d),
          e₂,
          rest,
          exec_from,
        )
        refl

  pub exec_batched_msg_lem :
      (msg : Msg) (es : List (Entry A R))
      → All (IsMade s) es
      → exec_batched_msg s msg (encode_all s es) ≡ some (map (received s msg.src) es)
  unfolding exec_batched_msg
  exec_batched_msg_lem msg es made =
      exec_from_lem (suc (length (encode_all s es))) msg es (encode_all s es) 0 (omega arith) made
        (refl, omega arith)

  pub bytes_of-pos : (e : Entry A R) (es : List (Entry A R)) → IsMade s e → 0 < bytes_of (e ∷ es)
  bytes_of-pos (req, d, n) es made =
      omega (arith, cmd_len-pos, length-encode s laws req d n, made.1)

  -- A batch of entries that were made with their sizes, in a buffer of the batch's size, is sent to
  -- the batch's PE; the `Darc`s of each message are counted once, and the PE that executes the buffer
  -- takes out the entries in order, and nothing else.
  pub batch_roundtrip :
      (create_data_buf : ℕ → List ℕ) (pe : Option ℕ) (e : Entry A R) (es : List (Entry A R))
      (size : ℕ)
      → All (IsMade s) (e ∷ es)
      → size ≡ bytes_of (e ∷ es)
      → length (create_data_buf size) ≡ size
      → (tx : Tx A) × (create_tx_task s create_data_buf pe (e ∷ es) size ≡ some (some tx))
        × (exec_msg s tx.header tx.bytes ≡ some (map (received s (e.0.world_pe % 2 ^ 16)) (e ∷ es)))
        × (tx.pe ≡ pe)
        × (tx.sers ≡ sers_of s (e ∷ es))
  unfolding exec_msg create_header
  batch_roundtrip create_data_buf pe e es size made sized room =
      let some_bytes : 0 < size = omega (arith, bytes_of-pos e es made.0) in
      (
        record {
          pe = pe;
          team_addr = e.0.team_addr;
          header = create_header e.0.world_pe batched_msg;
          bytes = encode_all s (e ∷ es);
          sers = sers_of s (e ∷ es);
        },
        create_tx_task_lem s laws create_data_buf pe e es size made sized some_bytes room,
        exec_batched_msg_lem (create_header e.0.world_pe batched_msg) (e ∷ es) made,
        refl,
        refl,
      )
