-- ===== src/Hasher.antt =====
-- `blake3_hasher` of c/blake3.c: the incremental hasher, which keeps the chunk that is being filled
-- and a stack of the chaining values of whole subtrees. `cv_stack` lists the values that are on the
-- stack, the top one first, and `cv_stack_len` is its length. The result is `none` where the C code
-- would read below the stack, write past its end, or not leave a loop.
pub mod Stack
pub mod Merge
pub mod Push
pub mod Shrink
pub mod Loop
pub mod Hashed
pub mod Update
pub mod Finalize
pub mod Incremental
pub mod RollUp
pub mod PushSubtree
use blake.Base.{ℕ, zero, suc, ◌+◌, ◌-◌, ◌*◌, ◌/◌, ◌^◌, bit_and}
use blake.Base.{List, [], ◌∷◌, ◌++◌, true, false, if◌then◌else◌, ltb, leb, ◌==◌}
use blake.Base.{length, take, drop, u64, Option, none, some, ◌>>=◌}
use blake.Impl.{chunk_len, max_depth, iv, keyed_hash, derive_key_context, derive_key_material}
use blake.Impl.{load_key_words, popcnt, round_down_to_power_of_2, out_len}
use blake.Backend.{Backend}
use blake.Output.{Output, chaining_value, parent_output, root_bytes}
use blake.Chunk.{ChunkState, output}
use blake.Chunk as Chunk
use blake.Subtree.{partial_chunk, compress_subtree_to_parent_node}

pub record Hasher : Type 0 where
  pub key : List ℕ
  pub chunk : ChunkState
  pub cv_stack : List (List ℕ)

unfoldable pub init_base : List ℕ → ℕ → Hasher
init_base key flags = record { key = key; chunk = Chunk.init key flags; cv_stack = [] }

unfoldable pub init : Hasher
unfolding init_base
init = init_base iv 0

unfoldable pub init_keyed : List ℕ → Hasher
unfolding init_base
init_keyed key = init_base (load_key_words key) keyed_hash

unfoldable pub reset : Hasher → Hasher
reset self = record self { chunk = Chunk.reset self.chunk self.key 0; cv_stack = [] }

-- `while ((((uint64_t)(subtree_len - 1)) & count_so_far) != 0)`. A `size_t` is halved to 0 in at most
-- 64 rounds, and at 0 the loop would not end unless `count_so_far` is 0.
unfoldable pub shrink : ℕ → ℕ → ℕ → Option ℕ
shrink zero subtree_len count_so_far = none
shrink (suc fuel) subtree_len count_so_far =
    elim (bit_and (u64 (subtree_len + (2 ^ 64 - 1))) count_so_far == 0) [
      | true ↦ some subtree_len
      | false ↦ shrink fuel (subtree_len / 2) count_so_far
    ]

module _ (b : Backend) where
  -- `while (self->cv_stack_len > post_merge_stack_len)`. A round takes one value off, so the length
  -- of the stack is fuel enough.
  unfoldable pub merge_loop : List ℕ → ℕ → ℕ → ℕ → List (List ℕ) → Option (List (List ℕ))
  merge_loop key flags zero post_merge_stack_len cv_stack = some cv_stack
  merge_loop key flags (suc fuel) post_merge_stack_len [] = some []
  merge_loop key flags (suc fuel) post_merge_stack_len (top ∷ []) =
      if ltb post_merge_stack_len 1 then none else some (top ∷ [])
  merge_loop key flags (suc fuel) post_merge_stack_len (top ∷ next ∷ cvs) =
      elim (ltb post_merge_stack_len (length (top ∷ next ∷ cvs))) [
        | true ↦
            merge_loop key flags fuel post_merge_stack_len
              (chaining_value b (parent_output (next ++ top) key flags) ∷ cvs)
        | false ↦ some (top ∷ next ∷ cvs)
      ]

  unfoldable pub merge_cv_stack : Hasher → ℕ → Option Hasher
  unfolding merge_loop
  merge_cv_stack self total_len = do
    cvs ←
        merge_loop self.key self.chunk.flags (length self.cv_stack) (popcnt total_len) self.cv_stack
    some (record self { cv_stack = cvs })

  -- The write to `cv_stack`, which has room for `max_depth + 1` values.
  unfoldable pub put_cv : List ℕ → Hasher → Option Hasher
  put_cv new_cv self =
      if leb (length self.cv_stack) max_depth
      then some (record self { cv_stack = new_cv ∷ self.cv_stack })
      else none

  unfoldable pub push_cv : Hasher → List ℕ → ℕ → Option Hasher
  unfolding merge_cv_stack put_cv
  push_cv self new_cv chunk_counter = merge_cv_stack self chunk_counter >>= put_cv new_cv

  -- The two halves of `cv_pair`, one after the other.
  unfoldable pub push_pair : Hasher → ℕ → List ℕ → Option Hasher
  unfolding push_cv
  push_pair self right_counter cv_pair = do
    left_pushed ← push_cv self (take out_len cv_pair) self.chunk.chunk_counter
    push_cv left_pushed (drop out_len cv_pair) right_counter

  -- The body of the update loop for a subtree: one chunk, or the two children of its root.
  unfoldable pub push_subtree : Hasher → List ℕ → Option Hasher
  unfolding push_cv push_pair
  push_subtree self input =
      let counter = self.chunk.chunk_counter in
      let flags = self.chunk.flags in
      let chunks = length input / chunk_len in
      if leb (length input) chunk_len
      then push_cv self (chaining_value b (output (partial_chunk b self.key flags input counter)))
          counter
      else compress_subtree_to_parent_node b self.key flags input counter
        >>= push_pair self (u64 (counter + chunks / 2))

  -- `self->chunk.chunk_counter += subtree_chunks`
  unfoldable pub count_chunks : Hasher → ℕ → Hasher
  count_chunks self chunks = record self {
    chunk = record (self.chunk) { chunk_counter = u64 (self.chunk.chunk_counter + chunks) };
  }

  -- `while (input_len > BLAKE3_CHUNK_LEN)`: the state and the input that is left. A round takes a
  -- byte at least, so one more than the length of the input is fuel enough.
  unfoldable pub update_loop : ℕ → Hasher → List ℕ → Option (Hasher × List ℕ)
  unfolding shrink push_subtree count_chunks
  update_loop zero self input = none
  update_loop (suc fuel) self input = elim (ltb chunk_len (length input)) [
    | true ↦ do
      subtree_len ←
          shrink 64 (round_down_to_power_of_2 (length input))
            (u64 (self.chunk.chunk_counter * chunk_len))
      pushed ← push_subtree self (take subtree_len input)
      update_loop fuel (count_chunks pushed (subtree_len / chunk_len)) (drop subtree_len input)
    | false ↦ some (self, input)
  ]

  -- The end of the update: less than a chunk is left, or one chunk, or nothing.
  unfoldable pub update_rest : Hasher → List ℕ → Option Hasher
  unfolding merge_cv_stack
  update_rest self input =
      let filled = record self { chunk = Chunk.update b self.chunk input } in
      if ltb 0 (length input) then merge_cv_stack filled filled.chunk.chunk_counter else some self

  -- From the loop on.
  unfoldable pub update_subtrees : Hasher → List ℕ → Option Hasher
  unfolding update_loop update_rest
  update_subtrees self input = do
    looped ← update_loop (length input + 1) self input
    update_rest looped.0 looped.1

  -- The chunk in the chunk state is full and more input follows: its value goes on the stack.
  unfoldable pub push_chunk : Hasher → Option Hasher
  unfolding push_cv
  push_chunk self = do
    pushed ← push_cv self (chaining_value b (output self.chunk)) self.chunk.chunk_counter
    some (record pushed {
      chunk = Chunk.reset pushed.chunk pushed.key (u64 (pushed.chunk.chunk_counter + 1));
    })

  -- `blake3_hasher_update`; a chunk state holds at most 1024 bytes.
  unfoldable pub update : Hasher → List ℕ → Option Hasher
  unfolding push_chunk update_subtrees
  update self input =
      let room = chunk_len - Chunk.chunk_len self.chunk in
      let taken = if ltb (length input) room then length input else room in
      let rest = drop taken input in
      let filled = record self { chunk = Chunk.update b self.chunk (take taken input) } in
      if length input == 0
      then some self
      else if ltb 0 (Chunk.chunk_len self.chunk)
      then (if ltb 0 (length rest)
          then push_chunk filled >>= (λ pushed. update_subtrees pushed rest)
          else some filled)
      else update_subtrees self input

  -- `while (cvs_remaining > 0)`
  unfoldable pub roll_up : List ℕ → ℕ → Output → List (List ℕ) → Output
  roll_up key flags o [] = o
  roll_up key flags o (cv ∷ cvs) =
      roll_up key flags (parent_output (cv ++ chaining_value b o) key flags) cvs

  -- The output that is finalized as the root. With no bytes in the chunk state the two values on top
  -- of the stack are read, and there have to be two.
  unfoldable pub stacked_output : Hasher → List (List ℕ) → Option Output
  unfolding roll_up
  stacked_output self [] = some (output self.chunk)
  stacked_output self (top ∷ []) =
      if ltb 0 (Chunk.chunk_len self.chunk)
      then some (roll_up self.key self.chunk.flags (output self.chunk) (top ∷ []))
      else none
  stacked_output self (top ∷ next ∷ cvs) = some (
      if ltb 0 (Chunk.chunk_len self.chunk)
      then roll_up self.key self.chunk.flags (output self.chunk) (top ∷ next ∷ cvs)
      else roll_up self.key self.chunk.flags (parent_output (next ++ top) self.key self.chunk.flags)
          cvs)

  unfoldable pub finalize_seek : Hasher → ℕ → ℕ → Option (List ℕ)
  unfolding stacked_output
  finalize_seek self seek n =
      if n == 0
      then some []
      else stacked_output self self.cv_stack >>= (λ o. some (root_bytes b o seek n))

  unfoldable pub finalize : Hasher → ℕ → Option (List ℕ)
  unfolding finalize_seek
  finalize self n = finalize_seek self 0 n

  unfoldable pub init_derive_key_raw : List ℕ → Option Hasher
  unfolding update finalize init_base
  init_derive_key_raw context = do
    context_hasher ← update (init_base iv derive_key_context) context
    context_key ← finalize context_hasher out_len
    some (init_base (load_key_words context_key) derive_key_material)
