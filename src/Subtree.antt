-- ===== src/Subtree.antt =====
-- The hashing of whole subtrees in c/blake3.c: `compress_subtree_wide` and what it calls, up to
-- `compress_subtree_to_parent_node`. An array of chaining values is a list of them, and a count
-- that the C function returns is the length of its list. The result is `none` where the C code
-- would write past an array, read a chaining value that nothing wrote, or fail an assertion.
pub mod Chunks
pub mod Parents
pub mod IsWide
pub mod Wide
pub mod ParentNode
use blake.Base.{ℕ, zero, suc, ◌+◌, ◌-◌, ◌*◌, ◌/◌, ◌^◌, bit_or}
use blake.Base.{List, [], ◌∷◌, ◌++◌, true, false, if◌then◌else◌, ◌&&◌, ltb, leb, ◌==◌}
use blake.Base.{length, take, drop, u64, Option, none, some, ◌>>=◌}
use blake.Impl.{chunk_len, chunk_start, chunk_end, parent, round_down_to_power_of_2}
use blake.Backend.{Backend}
use blake.Output.{chaining_value}
use blake.Chunk.{ChunkState, init, update, output}

-- `MAX_SIMD_DEGREE` on x86; at least 2, so that it is `MAX_SIMD_DEGREE_OR_2` as well.
abbrev pub max_simd_degree : ℕ
max_simd_degree = 16

-- `size_t` has 64 bits; `input_len - 1` wraps at 0.
unfoldable pub left_subtree_len : ℕ → ℕ
left_subtree_len input_len =
    let full_chunks = u64 (input_len + (2 ^ 64 - 1)) / chunk_len in
    u64 (round_down_to_power_of_2 full_chunks * chunk_len)

-- The loop that fills `chunks_array`: the whole chunks and the bytes left over. Each round takes
-- 1024 bytes, so the length of the input is fuel enough.
unfoldable pub whole_chunks : ℕ → List ℕ → List (List ℕ) × List ℕ
whole_chunks zero input = ([], input)
whole_chunks (suc fuel) input = elim (leb chunk_len (length input)) [
  | true ↦
      let (chunks, rest) = whole_chunks fuel (drop chunk_len input) in
      (take chunk_len input ∷ chunks, rest)
  | false ↦ ([], input)
]

-- The loop that fills `parents_array`: the blocks of two children, and the child left over.
unfoldable pub parent_blocks : List (List ℕ) → List (List ℕ) × List (List ℕ)
parent_blocks [] = ([], [])
parent_blocks (l ∷ []) = ([], l ∷ [])
parent_blocks (l ∷ r ∷ cvs) = let (blocks, rest) = parent_blocks cvs in ((l ++ r) ∷ blocks, rest)

module _ (b : Backend) (key : List ℕ) (flags : ℕ) where
  -- The chunk state of the partial chunk, after its bytes.
  unfoldable pub partial_chunk : List ℕ → ℕ → ChunkState
  unfolding init
  partial_chunk rest counter = update b (record (init key flags) { chunk_counter = counter }) rest

  unfoldable pub compress_chunks_parallel : List ℕ → ℕ → Option (List (List ℕ))
  unfolding whole_chunks partial_chunk
  compress_chunks_parallel input chunk_counter =
      let (chunks, rest) = whole_chunks (length input) input in
      let cvs = b.hash_many chunks 16 key chunk_counter true flags chunk_start chunk_end in
      let counter = u64 (chunk_counter + length chunks) in
      if leb (length chunks) max_simd_degree
      then some (
          if ltb 0 (length rest)
          then cvs ++ (chaining_value b (output (partial_chunk rest counter)) ∷ [])
          else cvs)
      else none

  unfoldable pub compress_parents_parallel : List (List ℕ) → Option (List (List ℕ))
  unfolding parent_blocks
  compress_parents_parallel cvs =
      let (blocks, rest) = parent_blocks cvs in
      if leb (length blocks) max_simd_degree
      then some (b.hash_many blocks 1 key 0 false (bit_or flags parent) 0 0 ++ rest)
      else none

  -- The part after the recursive calls. `cv_array` has the left values from 0 on and the right ones
  -- from `degree` on, so that another number of left values leaves a gap or loses values. It has
  -- room for twice as many values as there can be lanes, and two of them have to be there to be
  -- copied.
  unfoldable pub merge_wide : ℕ → List (List ℕ) → List (List ℕ) → Option (List (List ℕ))
  merge_wide degree left_cvs right_cvs =
      let cv_array = left_cvs ++ right_cvs in
      if (length left_cvs == degree) && leb (length cv_array) (2 * max_simd_degree)
      then (if length left_cvs == 1
          then (if leb 2 (length cv_array) then some (take 2 cv_array) else none)
          else compress_parents_parallel cv_array)
      else none

  -- The special case of one lane: two outputs above the chunk level.
  unfoldable pub lanes : ℕ → ℕ
  lanes left_input_len =
      if ltb chunk_len left_input_len && (b.simd_degree == 1) then 2 else b.simd_degree

  -- The fuel bounds the depth of the recursion. The two recursive calls are independent, so that
  -- `compress_subtree_wide_join_tbb`, which may run them at the same time, is this code too.
  unfoldable pub compress_subtree_wide : ℕ → List ℕ → ℕ → Option (List (List ℕ))
  compress_subtree_wide zero input chunk_counter = none
  compress_subtree_wide (suc fuel) input chunk_counter =
      elim (leb (length input) (b.simd_degree * chunk_len)) [
        | true ↦ compress_chunks_parallel input chunk_counter
        | false ↦
            let left_input_len = left_subtree_len (length input) in
            let right_chunk_counter = u64 (chunk_counter + left_input_len / chunk_len) in
            do
              left_cvs ← compress_subtree_wide fuel (take left_input_len input) chunk_counter
              right_cvs ← compress_subtree_wide fuel (drop left_input_len input) right_chunk_counter
              merge_wide (lanes left_input_len) left_cvs right_cvs
      ]

  -- `while (num_cvs > 2)`. A round halves the number, which is at most 16, so that four rounds and
  -- the last test are fuel enough. `out_array` has room for half as many.
  unfoldable pub condense : ℕ → List (List ℕ) → Option (List (List ℕ))
  condense zero cvs = none
  condense (suc fuel) cvs = elim (ltb 2 (length cvs)) [
    | true ↦ do
      out_array ← compress_parents_parallel cvs
      elim (leb (length out_array) (max_simd_degree / 2)) [
        | true ↦ condense fuel out_array
        | false ↦ none
      ]
    | false ↦ some cvs
  ]

  -- `memcpy(out, cv_array, 2 * BLAKE3_OUT_LEN)`
  unfoldable pub first_two : List (List ℕ) → Option (List ℕ)
  first_two [] = none
  first_two (l ∷ []) = none
  first_two (l ∷ r ∷ cvs) = some (l ++ r)

  -- What `compress_subtree_to_parent_node` does with the chaining values.
  unfoldable pub to_parent_node : List (List ℕ) → Option (List ℕ)
  unfolding condense first_two
  to_parent_node cvs =
      if leb (length cvs) max_simd_degree then condense 5 cvs >>= first_two else none

  -- The message of the parent node. A `size_t` is below 2 ^ 64, which is 2 ^ 54 chunks: 55 levels of
  -- calls are enough.
  unfoldable pub compress_subtree_to_parent_node : List ℕ → ℕ → Option (List ℕ)
  unfolding compress_subtree_wide to_parent_node
  compress_subtree_to_parent_node input chunk_counter =
      compress_subtree_wide 55 input chunk_counter >>= to_parent_node
