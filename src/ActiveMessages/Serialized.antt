-- ===== src/ActiveMessages/Serialized.antt =====
-- `create_tx_task` of `SimpleBatcher`: the buffer is filled to its end with the entries in order.
use lamellar_runtime.Prelude.{
  ℕ, ◌+◌, ◌<◌, ◌≡◌, refl, sym, ◌∙◌, subst, Option, some, List, [], ◌∷◌, ◌++◌, length, All,
  length-append, arith, usize_mod, add_usize, sub_usize, Filled, write-Filled, Filled-full, total,
  Returns, Returns->>=, lt→ltb,
}
use mathlib.Core.List.{append-nil, append_assoc}
use lamellar_runtime.ActiveMessages.Messages.{
  Cmd, am_cmd, return_am_cmd, data_cmd, unit_cmd, batched_msg, AmHeader, DataHeader, ReqMetaData,
  LamellarData, am, return_am, result, unit, Serde, IsSerde,
}
use lamellar_runtime.ActiveMessages.Batcher.{
  Entry, TxBuf, darc_ser_cnt, create_header, serialize_am, serialize_data, serialize_unit,
  serialize_entry, serialize_entries, create_tx_task,
}
use lamellar_runtime.ActiveMessages.Wire.{
  command, am_body, body, encode, encode_all, sers_of, IsMade, length-am_body,
}

-- The bytes that a batch takes.
abbrev pub bytes_of : {A R : Type 0} → List (Entry A R) → ℕ
bytes_of es = total (λ e. e.2) es

module _ {A R : Type 0} (s : Serde A R) (laws : IsSerde s) where
  -- The entry `e` is written behind `xs`, and its `Darc`s are counted.
  abbrev Written : Entry A R → List ℕ → ℕ → TxBuf A → TxBuf A → Type 0
  Written e xs k t t' =
      Filled t'.writer (xs ++ encode s e) k × (t'.sers ≡ t.sers ++ sers_of s (e ∷ []))

  pub length-encode :
      (req : ReqMetaData) (d : LamellarData A R) (n : ℕ)
      → length (encode s (req, d, n)) ≡ s.cmd_len + length (body s req d)
  length-encode req d n = omega (
    arith,
    length-append (s.cmd.serialize (command s d)) (body s req d),
    laws.cmd_fixed (command s d),
  )

  serialize_am_lem :
      (req : ReqMetaData) (a : A) (id n k : ℕ) (cmd : Cmd) (xs : List ℕ) (t : TxBuf A)
      → n ≡ s.cmd_len + length (am_body s req a id)
      → n < usize_mod
      → Filled t.writer xs (n + k)
      → Returns (serialize_am s req a id n cmd t) (λ t'.
        Filled t'.writer (xs ++ (s.cmd.serialize cmd ++ am_body s req a id)) k
        × (t'.sers ≡ t.sers ++ ((a, darc_ser_cnt req) ∷ [])))
  unfolding serialize_am
  serialize_am_lem req a id n k cmd xs t size fits f =
      let h : AmHeader = record { am_id = id; team_addr = req.team_addr; req_id = req.id } in
      let m = length (s.am_bytes a) in
      let l = length-am_body s laws req a id in
      let rest : sub_usize n (add_usize s.cmd_len s.am_header_len) ≡ m = omega arith in
      let f₀ : Filled t.writer xs (s.cmd_len + (s.am_header_len + (m + k))) =
        subst (λ j. Filled t.writer xs j) (omega arith) f in
      Returns->>=
        (write-Filled s.cmd_len (s.am_header_len + (m + k)) xs (s.cmd.serialize cmd) t.writer
          (laws.cmd_fixed cmd) f₀)
        λ w₁ f₁.
          Returns->>=
            (write-Filled s.am_header_len (m + k) (xs ++ s.cmd.serialize cmd)
              (s.am_header.serialize h) w₁ (laws.am_header_fixed h) f₁)
            λ w₂ f₂. rw rest (
              Returns->>=
                (write-Filled m k ((xs ++ s.cmd.serialize cmd) ++ s.am_header.serialize h)
                  (s.am_bytes a) w₂ refl f₂)
                λ w₃ f₃. (
                  record { writer = w₃; sers = t.sers ++ ((a, darc_ser_cnt req) ∷ []) },
                  refl,
                  (subst (λ ys. Filled w₃ ys k) (simp append_assoc) f₃, refl),
                ))

  serialize_data_lem :
      (req : ReqMetaData) (r : R) (darcs : List ℕ) (c n k : ℕ) (xs : List ℕ) (t : TxBuf A)
      → c ≡ length (s.darcs.serialize darcs)
      → n ≡ length (encode s (req, result r darcs c, n))
      → n < usize_mod
      → Filled t.writer xs (n + k)
      → Returns (serialize_data s req r n darcs c t) (Written (req, result r darcs c, n) xs k t)
  unfolding serialize_data
  serialize_data_lem req r darcs c n k xs t counted size fits f =
      let m = length (s.result_bytes r) in
      let h : DataHeader = record { size = m; req_id = req.id; darc_list_size = c } in
      let l : n ≡ s.cmd_len + (s.data_header_len + (c + m)) = omega (
        arith,
        length-encode req (result r darcs c) n,
        length-append (s.data_header.serialize h) (s.darcs.serialize darcs ++ s.result_bytes r),
        length-append (s.darcs.serialize darcs) (s.result_bytes r),
        laws.data_header_fixed h,
      ) in
      let rest : sub_usize n (add_usize (add_usize s.cmd_len s.data_header_len) c) ≡ m =
        omega arith in
      let f₀ : Filled t.writer xs (s.cmd_len + (s.data_header_len + (c + (m + k)))) =
        subst (λ j. Filled t.writer xs j) (omega arith) f in
      Returns->>=
        (write-Filled s.cmd_len (s.data_header_len + (c + (m + k))) xs (s.cmd.serialize data_cmd)
          t.writer (laws.cmd_fixed data_cmd) f₀)
        λ w₁ f₁. rw rest (
          Returns->>=
            (write-Filled s.data_header_len (c + (m + k)) (xs ++ s.cmd.serialize data_cmd)
              (s.data_header.serialize h) w₁ (laws.data_header_fixed h) f₁)
            λ w₂ f₂.
              Returns->>=
                (write-Filled c (m + k)
                  ((xs ++ s.cmd.serialize data_cmd) ++ s.data_header.serialize h)
                  (s.darcs.serialize darcs) w₂ (sym counted) f₂)
                λ w₃ f₃.
                  Returns->>=
                    (write-Filled m k
                      (((xs ++ s.cmd.serialize data_cmd) ++ s.data_header.serialize h)
                        ++ s.darcs.serialize darcs)
                      (s.result_bytes r) w₃ refl f₃)
                    λ w₄ f₄. (
                      record t { writer = w₄ },
                      refl,
                      (
                        subst (λ ys. Filled w₄ ys k) (simp append_assoc) f₄,
                        sym (append-nil t.sers),
                      ),
                    ))

  serialize_unit_lem :
      (req : ReqMetaData) (n k : ℕ) (xs : List ℕ) (t : TxBuf A)
      → n ≡ length (encode s (req, unit, n))
      → Filled t.writer xs (n + k)
      → Returns (serialize_unit s req t) (Written (req, unit, n) xs k t)
  unfolding serialize_unit
  serialize_unit_lem req n k xs t size f =
      let l : n ≡ s.cmd_len + s.unit_header_len =
        omega
          (arith, length-encode req unit n, laws.unit_header_fixed (record { req_id = req.id })) in
      let f₀ : Filled t.writer xs (s.cmd_len + (s.unit_header_len + k)) =
        subst (λ j. Filled t.writer xs j) (omega arith) f in
      Returns->>=
        (write-Filled s.cmd_len (s.unit_header_len + k) xs (s.cmd.serialize unit_cmd) t.writer
          (laws.cmd_fixed unit_cmd) f₀)
        λ w₁ f₁.
          Returns->>=
            (write-Filled s.unit_header_len k (xs ++ s.cmd.serialize unit_cmd)
              (s.unit_header.serialize (record { req_id = req.id })) w₁
              (laws.unit_header_fixed (record { req_id = req.id })) f₁)
            λ w₂ f₂. (
              record t { writer = w₂ },
              refl,
              (subst (λ ys. Filled w₂ ys k) (simp append_assoc) f₂, sym (append-nil t.sers)),
            )

  pub serialize_entry_lem :
      (e : Entry A R) (k : ℕ) (xs : List ℕ) (t : TxBuf A)
      → IsMade s e
      → Filled t.writer xs (e.2 + k)
      → Returns (serialize_entry s e t) (Written e xs k t)
  unfolding serialize_entry
  serialize_entry_lem (req, am a id, n) k xs t (made, size, fits) f =
      serialize_am_lem req a id n k am_cmd xs t (size ∙ length-encode req (am a id) n) fits f
  serialize_entry_lem (req, return_am a id, n) k xs t (made, size, fits) f =
      serialize_am_lem req a id n k return_am_cmd xs t (size ∙ length-encode req (return_am a id) n)
        fits f
  serialize_entry_lem (req, result r darcs c, n) k xs t (made, size, fits) f =
      serialize_data_lem req r darcs c n k xs t made size fits f
  serialize_entry_lem (req, unit, n) k xs t (made, size, fits) f =
      serialize_unit_lem req n k xs t size f

  sers_of-cons :
      (e : Entry A R) (es : List (Entry A R))
      → sers_of s (e ∷ es) ≡ sers_of s (e ∷ []) ++ sers_of s es
  sers_of-cons (req, am a id, n) es = refl
  sers_of-cons (req, return_am a id, n) es = refl
  sers_of-cons (req, result r darcs c, n) es = refl
  sers_of-cons (req, unit, n) es = refl

  pub serialize_entries_lem :
      (es : List (Entry A R)) (k : ℕ) (xs : List ℕ) (t : TxBuf A)
      → All (IsMade s) es
      → Filled t.writer xs (bytes_of es + k)
      → Returns
          (serialize_entries s es t)
          (λ t'. Filled t'.writer (xs ++ encode_all s es) k × (t'.sers ≡ t.sers ++ sers_of s es))
  unfolding serialize_entries
  serialize_entries_lem [] k xs t made f =
      let f₀ : Filled t.writer xs k = subst (λ j. Filled t.writer xs j) (omega arith) f in
      (
        t,
        refl,
        (subst (λ ys. Filled t.writer ys k) (sym (append-nil xs)) f₀, sym (append-nil t.sers)),
      )
  serialize_entries_lem (e ∷ es) k xs t made f =
      let f₀ : Filled t.writer xs (e.2 + (bytes_of es + k)) =
        subst (λ j. Filled t.writer xs j) (omega arith) f in
      Returns->>= (serialize_entry_lem e (bytes_of es + k) xs t made.0 f₀) λ t₁ w.
        let (t₂, e₂, (f₂, c₂)) = serialize_entries_lem es k (xs ++ encode s e) t₁ made.1 w.0 in
        (
          t₂,
          e₂,
          (
            subst (λ ys. Filled t₂.writer ys k) (append_assoc xs (encode s e) (encode_all s es)) f₂,
            rw (c₂, w.1, append_assoc, sers_of-cons e es) refl,
          ),
        )

  -- Where the buffer is as long as the batch's size says, the task sends the batch's bytes in order.
  pub create_tx_task_lem :
      (create_data_buf : ℕ → List ℕ) (pe : Option ℕ) (e : Entry A R) (es : List (Entry A R))
      (size : ℕ)
      → All (IsMade s) (e ∷ es)
      → size ≡ bytes_of (e ∷ es)
      → 0 < size
      → length (create_data_buf size) ≡ size
      → create_tx_task s create_data_buf pe (e ∷ es) size
        ≡ some (
            some (record {
              pe = pe;
              team_addr = e.0.team_addr;
              header = create_header e.0.world_pe batched_msg;
              bytes = encode_all s (e ∷ es);
              sers = sers_of s (e ∷ es);
            }))
  unfolding create_tx_task
  create_tx_task_lem create_data_buf pe e es size made sized some_bytes room =
      let f : Filled (record { buf = create_data_buf size; i = 0 }) [] (bytes_of (e ∷ es) + 0) =
        record { rest = create_data_buf size; holds = refl; at = refl; room = omega arith } in
      let (t, e', (g, c)) =
        serialize_entries_lem (e ∷ es) 0 []
          (record { writer = record { buf = create_data_buf size; i = 0 }; sers = [] }) made f in
      rw (lt→ltb 0 size some_bytes, e', Filled-full (encode_all s (e ∷ es)) t.writer g, c) refl
