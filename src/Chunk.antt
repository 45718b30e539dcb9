-- ===== src/Chunk.antt =====
-- `blake3_chunk_state` of c/blake3.c: one chunk that takes its bytes a piece at a time. A block is
-- compressed only when a byte after it is known, since the chunk's last block has a flag of its own.
pub mod Spec
pub mod Holds
pub mod Blocks
pub mod Update
use blake.Base.{ℕ, zero, suc, ◌+◌, ◌-◌, ◌*◌, bit_or}
use blake.Base.{List, [], ◌∷◌, ◌++◌, true, false, if◌then◌else◌, ltb, ◌==◌, length, take, drop}
use blake.Base.{replicate, u8}
use blake.Impl.{block_len, chunk_start, chunk_end}
use blake.Backend.{Backend}
use blake.Output.{Output, make_output}

pub record ChunkState : Type 0 where
  pub cv : List ℕ
  pub chunk_counter : ℕ
  pub buf : List ℕ
  pub buf_len : ℕ
  pub blocks_compressed : ℕ
  pub flags : ℕ

unfoldable pub init : List ℕ → ℕ → ChunkState
init key flags = record {
  cv = key;
  chunk_counter = 0;
  buf = replicate block_len 0;
  buf_len = 0;
  blocks_compressed = 0;
  flags = flags;
}

unfoldable pub reset : ChunkState → List ℕ → ℕ → ChunkState
reset self key chunk_counter = record self {
  cv = key;
  chunk_counter = chunk_counter;
  blocks_compressed = 0;
  buf = replicate block_len 0;
  buf_len = 0;
}

unfoldable pub chunk_len : ChunkState → ℕ
chunk_len self = block_len * self.blocks_compressed + self.buf_len

-- `memcpy(buf + at, bytes, length bytes)`
unfoldable pub write : List ℕ → ℕ → List ℕ → List ℕ
write buf at bytes = take at buf ++ (bytes ++ drop (at + length bytes) buf)

-- The state that holds more bytes, and how many were taken. `buf_len` is at most 64, so that the
-- difference does not wrap.
unfoldable pub fill_buf : ChunkState → List ℕ → ℕ × ChunkState
unfolding write
fill_buf self input =
    let room = block_len - self.buf_len in
    let taken = if ltb (length input) room then length input else room in
    (
      taken,
      record self {
        buf = write self.buf self.buf_len (take taken input);
        buf_len = u8 (self.buf_len + u8 taken);
      },
    )

unfoldable pub maybe_start_flag : ChunkState → ℕ
maybe_start_flag self = if self.blocks_compressed == 0 then chunk_start else 0

unfoldable pub output : ChunkState → Output
unfolding maybe_start_flag make_output
output self =
    make_output self.cv self.buf self.buf_len self.chunk_counter
      (bit_or (bit_or self.flags (maybe_start_flag self)) chunk_end)

module _ (b : Backend) where
  -- One block goes into the chaining value.
  unfoldable pub compress_block : ChunkState → List ℕ → ChunkState
  unfolding maybe_start_flag
  compress_block self block = record self {
    cv =
        b.compress_in_place self.cv block block_len self.chunk_counter
          (bit_or self.flags (maybe_start_flag self));
    blocks_compressed = u8 (self.blocks_compressed + 1);
  }

  -- What a filled buffer does once more input is known to follow.
  unfoldable pub flush_buf : ChunkState → ChunkState
  unfolding compress_block
  flush_buf self =
      let s = compress_block self self.buf in record s { buf_len = 0; buf = replicate block_len 0 }

  -- `while (input_len > BLAKE3_BLOCK_LEN)`: the state and the input that is left. Each round takes
  -- 64 bytes, so the length of the input is fuel enough.
  unfoldable pub update_loop : ℕ → ChunkState → List ℕ → ChunkState × List ℕ
  update_loop zero self input = (self, input)
  update_loop (suc fuel) self input = elim (ltb block_len (length input)) [
    | true ↦ update_loop fuel (compress_block self (take block_len input)) (drop block_len input)
    | false ↦ (self, input)
  ]

  -- From the loop on.
  unfoldable pub update_blocks : ChunkState → List ℕ → ChunkState
  update_blocks self input =
      let (s, rest) = update_loop (length input) self input in (fill_buf s rest).1

  unfoldable pub update : ChunkState → List ℕ → ChunkState
  update self input =
      let (taken, filled) = fill_buf self input in
      let rest = drop taken input in
      if ltb 0 self.buf_len
      then update_blocks (if ltb 0 (length rest) then flush_buf filled else filled) rest
      else update_blocks self input
