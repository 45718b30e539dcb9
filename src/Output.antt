-- ===== src/Output.antt =====
-- `output_t` of c/blake3.c: the arguments of one compression, before it is known whether it is the
-- root's; its chaining value, and its bytes as the root.
pub mod RootBytes
use blake.Base.{ℕ, zero, suc, ◌+◌, ◌-◌, ◌*◌, ◌/◌, ◌%◌, bit_or}
use blake.Base.{List, [], ◌∷◌, ◌++◌, if◌then◌else◌, ltb, ◌==◌, length, take, drop, u64}
use blake.Impl.{root, parent, block_len, store_cv_words}
use blake.Backend.{Backend}

pub record Output : Type 0 where
  pub input_cv : List ℕ
  pub counter : ℕ
  pub block : List ℕ
  pub len : ℕ
  pub flags : ℕ

unfoldable pub make_output : List ℕ → List ℕ → ℕ → ℕ → ℕ → Output
make_output input_cv block len counter flags = record {
  input_cv = input_cv;
  counter = counter;
  block = block;
  len = len;
  flags = flags;
}

unfoldable pub parent_output : List ℕ → List ℕ → ℕ → Output
unfolding make_output
parent_output block key flags = make_output key block block_len 0 (bit_or flags parent)

module _ (b : Backend) where
  -- The 32 bytes of `cv`.
  unfoldable pub chaining_value : Output → List ℕ
  chaining_value o = store_cv_words (b.compress_in_place o.input_cv o.block o.len o.counter o.flags)

  -- A whole block of output, by its counter.
  unfoldable pub root_block : Output → ℕ → List ℕ
  root_block o counter = b.compress_xof o.input_cv o.block o.len counter (bit_or o.flags root)

  -- The blocks from a counter on that lie whole in the output, and the bytes of the last block.
  unfoldable pub root_bytes_aligned : Output → ℕ → ℕ → List ℕ
  unfolding root_block
  root_bytes_aligned o counter out_len =
      let whole =
        if out_len / 64 == 0
        then []
        else b.xof_many o.input_cv o.block o.len counter (bit_or o.flags root) (out_len / 64) in
      let left = out_len % 64 in
      whole ++ (if left == 0 then [] else take left (root_block o (u64 (counter + out_len / 64))))

  -- The bytes of `out`. The first part is there when the output starts inside a block.
  unfoldable pub root_bytes : Output → ℕ → ℕ → List ℕ
  unfolding root_bytes_aligned
  root_bytes o seek out_len =
      let counter = seek / 64 in
      let offset = seek % 64 in
      let available = 64 - offset in
      let bytes = if ltb available out_len then available else out_len in
      if out_len == 0
      then []
      else if offset == 0
      then root_bytes_aligned o counter out_len
      else take bytes (drop offset (root_block o counter))
        ++ root_bytes_aligned o (u64 (counter + 1)) (out_len - bytes)
