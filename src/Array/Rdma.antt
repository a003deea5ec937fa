-- ===== src/Array/Rdma.antt =====
-- `block_op` and `cyclic_op` of src/array/unsafe/rdma.rs: how a put or a get of a stretch of a (sub)array is cut
-- into transfers, each with one PE. A buffer is a function from its indexes, with its length; the
-- array's memory region is a function from the PE and the place on it.
pub mod BlockOp
pub mod Blocks
pub mod CyclicOp
pub mod CyclicGet
mod Tests
use lamellar_runtime.Prelude.{
  ℕ, zero, suc, ◌+◌, ◌-◌, ◌*◌, ◌/◌, ◌%◌, ◌≡◌, min, Bool, true, false, ◌&&◌, Option, none, some,
  List, [], ◌∷◌, ltb, leb, ◌==◌, if◌then◌else◌, add_usize, sub_usize,
}
use lamellar_runtime.Array.Inner.{Float, UnsafeArrayInner}
use lamellar_runtime.Array.Block

abbrev pub Region : Type 0 → Type 0
Region T = ℕ → ℕ → T

-- `len` elements of the buffer from `buf_index` on, against the places of `pe` from `offset` on.
pub record Piece : Type 0 where
  pub pe : ℕ
  pub offset : ℕ
  pub buf_index : ℕ
  pub len : ℕ

module _ {T : Type 0} where
  -- `blocking_put` and `blocking_get` of the memory region, with a part of the buffer.
  unfoldable pub put_piece : (ℕ → T) → Piece → Region T → Region T
  put_piece buf x mem p o =
      if p == x.pe && (leb x.offset o && ltb o (x.offset + x.len))
      then buf (x.buf_index + (o - x.offset))
      else mem p o

  unfoldable pub get_piece : Region T → Piece → (ℕ → T) → ℕ → T
  get_piece mem x buf j =
      if leb x.buf_index j && ltb j (x.buf_index + x.len)
      then mem x.pe (x.offset + (j - x.buf_index))
      else buf j

  unfoldable pub put_pieces : (ℕ → T) → List Piece → Region T → Region T
  put_pieces buf [] mem = mem
  put_pieces buf (x ∷ xs) mem = put_pieces buf xs (put_piece buf x mem)

  unfoldable pub get_pieces : Region T → List Piece → (ℕ → T) → ℕ → T
  get_pieces mem [] buf = buf
  get_pieces mem (x ∷ xs) buf = get_pieces mem xs (get_piece mem x buf)

module _ (f : Float) where
  -- The loop over the PEs, with `rounds` of them left from `pe` on. An empty piece is not sent, and
  -- adds nothing to the indexes.
  unfoldable pub block_pieces : UnsafeArrayInner f.F → ℕ → ℕ → ℕ → ℕ → ℕ → List Piece
  block_pieces a buf_len zero pe dist_index buf_index = []
  block_pieces a buf_len (suc rounds) pe dist_index buf_index =
      let pe_start_index = Block.global_start f a pe in
      let num_elems_on_pe = sub_usize (Block.global_start f a (suc pe)) pe_start_index in
      let offset = sub_usize dist_index pe_start_index in
      let len = min (sub_usize num_elems_on_pe offset) (sub_usize buf_len buf_index) in
      let more = block_pieces a buf_len rounds (suc pe) (dist_index + len) (buf_index + len) in
      if ltb 0 len
      then record { pe = pe; offset = offset; buf_index = buf_index; len = len } ∷ more
      else more

  -- `none` is the panic on an index out of bounds.
  unfoldable pub block_op : UnsafeArrayInner f.F → ℕ → ℕ → Option (List Piece)
  block_op a index buf_len = elim (Block.pe_for_dist_index f a index) [
    | none ↦ none
    | some start_pe ↦ (elim (Block.pe_for_dist_index f a (sub_usize (add_usize index buf_len) 1)) [
      | none ↦ none
      | some end_pe ↦
          some
            (block_pieces a buf_len (suc end_pe - start_pe) start_pe (add_usize index a.offset) 0)
    ])
  ]

-- How many of `i`, `i + n`, `i + 2 * n`, … are below `len`: the rounds of `(i..len).step_by(n)`.
unfoldable pub steps_below : ℕ → ℕ → ℕ → ℕ
steps_below i len n = (len + n - 1 - i) / n

-- `buf.put(my_pe, j, temp_memreg.sub_region(k..=k))` for each `k` and `j` of the steps from `i` on.
unfoldable pub copy_steps : {T : Type 0} → ℕ → ℕ → ℕ → (ℕ → T) → (ℕ → T) → ℕ → T
copy_steps i len n temp buf j =
    if leb i j && (ltb j len && (j - i) % n == 0) then temp ((j - i) / n) else buf j

module _ {F : Type 0} where
  -- The loop over the PEs: from `i` on, with `rounds` left. The PE of each round takes every `num_pes`-th
  -- element of the buffer.
  unfoldable pub cyclic_put :
      {T : Type 0} → UnsafeArrayInner F → ℕ → ℕ → (ℕ → T) → ℕ → ℕ → ℕ → Region T → Region T
  cyclic_put a global_index buf_len buf zero i overflow mem = mem
  cyclic_put a global_index buf_len buf (suc rounds) i overflow mem =
      let start_pe = global_index % a.num_pes in
      let pe = (start_pe + i) % a.num_pes in
      let offset = global_index / a.num_pes + overflow in
      let k = steps_below i buf_len a.num_pes in
      cyclic_put a global_index buf_len buf rounds (suc i)
        (if pe + 1 == a.num_pes then overflow + 1 else overflow)
        (put_piece (λ j. buf (i + a.num_pes * j))
          (record { pe = pe; offset = offset; buf_index = 0; len = k }) mem)

  -- `cyclic_op` with `Put`.
  unfoldable pub cyclic_op_put :
      {T : Type 0} → UnsafeArrayInner F → ℕ → ℕ → (ℕ → T) → Region T → Region T
  unfolding cyclic_put
  cyclic_op_put a index buf_len buf mem =
      cyclic_put a (add_usize index a.offset) buf_len buf (min buf_len a.num_pes) 0 0 mem

  -- The loop over the PEs of a get that waits. `temp` is what the temporary region holds; a round writes
  -- over as many elements as it takes from its PE.
  unfoldable pub cyclic_get :
      {T : Type 0} → UnsafeArrayInner F → ℕ → ℕ → Region T → ℕ → ℕ → ℕ → (ℕ → T) → (ℕ → T) → ℕ → T
  cyclic_get a global_index buf_len mem zero i overflow temp buf = buf
  cyclic_get a global_index buf_len mem (suc rounds) i overflow temp buf =
      let start_pe = global_index % a.num_pes in
      let pe = (start_pe + i) % a.num_pes in
      let offset = global_index / a.num_pes + overflow in
      let num_elems = buf_len / a.num_pes + (if ltb i (buf_len % a.num_pes) then 1 else 0) in
      let temp' =
        get_piece mem (record { pe = pe; offset = offset; buf_index = 0; len = num_elems }) temp in
      cyclic_get a global_index buf_len mem rounds (suc i)
        (if pe + 1 == a.num_pes then overflow + 1 else overflow) temp'
        (copy_steps i buf_len a.num_pes temp' buf)

  -- `cyclic_op` with `Get(true)`.
  unfoldable pub cyclic_op_get :
      {T : Type 0} → UnsafeArrayInner F → ℕ → ℕ → Region T → (ℕ → T) → (ℕ → T) → ℕ → T
  unfolding cyclic_get
  cyclic_op_get a index buf_len mem temp buf =
      cyclic_get a (add_usize index a.offset) buf_len mem (min buf_len a.num_pes) 0 0 temp buf

  -- The place that `cyclic_op` reads for element `i` with `Get(false)`.
  unfoldable pub unchecked_place : UnsafeArrayInner F → ℕ → ℕ → ℕ × ℕ
  unchecked_place a index i = (add_usize index i % a.num_pes, add_usize index i / a.num_pes)
