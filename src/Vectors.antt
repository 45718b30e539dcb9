-- ===== src/Vectors.antt =====
-- The model run on inputs of test_vectors/test_vectors.json.
use blake.Base.{ℕ, zero, suc, ◌+◌, ◌%◌, ◌≡◌, refl, List, [], ◌∷◌, some, ◌>>=◌}
use blake.Backend.Portable.{portable}
use blake.Hasher as Hasher

-- The input of the vectors: the numbers below 251, again and again.
abbrev pattern : ℕ → ℕ → List ℕ
pattern zero i = []
pattern (suc n) i = (i % 251) ∷ pattern n (i + 1)

-- The hash of 1025 bytes starts with d00278ae.
vector_1025 :
    Hasher.update portable Hasher.init (pattern 1025 0) >>= (λ h. Hasher.finalize portable h 4)
    ≡ some (0xd0 ∷ 0x02 ∷ 0x78 ∷ 0xae ∷ [])
unfolding Hasher.update blake.Chunk.chunk_len Hasher.init blake.Chunk.init
    blake.Impl.round_down_to_power_of_2 blake.Impl.popcnt blake.Chunk.update
    blake.Chunk.update_blocks blake.Chunk.fill_buf blake.Chunk.update_loop Hasher.finalize
    blake.Output.root_bytes portable blake.Portable.compress_xof blake.Impl.store_words
    blake.Portable.xor_words blake.Portable.compress_pre blake.Backend.Portable.xof_many_loop
    blake.Chunk.compress_block blake.Chunk.flush_buf blake.Chunk.maybe_start_flag blake.Chunk.output
    blake.Chunk.reset blake.Chunk.write Hasher.count_chunks Hasher.finalize_seek Hasher.init_base
    Hasher.merge_cv_stack Hasher.merge_loop Hasher.push_chunk Hasher.push_cv Hasher.push_pair
    Hasher.push_subtree Hasher.put_cv Hasher.roll_up Hasher.shrink Hasher.stacked_output
    Hasher.update_loop Hasher.update_rest Hasher.update_subtrees blake.Impl.counter_high
    blake.Impl.counter_low blake.Impl.highest_one blake.Impl.load32 blake.Impl.load_block_words
    blake.Impl.load_words blake.Impl.narrow blake.Impl.popcnt_loop blake.Impl.store32
    blake.Impl.store_cv_words blake.Output.chaining_value blake.Output.make_output
    blake.Output.parent_output blake.Output.root_block blake.Output.root_bytes_aligned
    blake.Portable.add_to blake.Portable.compress_in_place blake.Portable.g blake.Portable.hash_many
    blake.Portable.hash_one blake.Portable.hash_one_loop blake.Portable.initial_state
    blake.Portable.mix_to blake.Portable.rotr32 blake.Portable.round_fn
    blake.Subtree.compress_chunks_parallel blake.Subtree.compress_parents_parallel
    blake.Subtree.compress_subtree_to_parent_node blake.Subtree.compress_subtree_wide
    blake.Subtree.condense blake.Subtree.first_two blake.Subtree.lanes
    blake.Subtree.left_subtree_len blake.Subtree.merge_wide blake.Subtree.parent_blocks
    blake.Subtree.partial_chunk blake.Subtree.to_parent_node blake.Subtree.whole_chunks
vector_1025 = refl
