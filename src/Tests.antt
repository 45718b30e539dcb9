-- ===== src/Tests.antt =====
-- The theorems applied to concrete inputs, with the portable back end.
use blake.Base.{ℕ, suc, ◌+◌, ◌*◌, ◌^◌, ◌≤◌, ◌<◌, ◌≡◌, refl, arith}
use blake.Base.{List, [], ◌∷◌, ◌++◌, map, replicate, length-replicate, take, drop, length}
use blake.Base.{All, IsByte, some, max}
use blake.Backend.Portable.{portable, portable-IsLawful}
use blake.Backend.Lawful.{root_blocks}
use blake.Chunk.{init, output}
use blake.Chunk.Spec.{chunk_output}
use blake.Chunk.Update.{updates, flat, output-updates}
use blake.Base.{◌%◌, ◌>>=◌}
use blake.Hasher.{init_base, reset, init_derive_key_raw, finalize_seek, shrink}
use blake.Hasher.Shrink.{shrink_lem}
use blake.Hasher.Incremental.{
  update_all, finalize_seek-update_all, finalize_seek-reset, init_derive_key_raw_lem,
}
use blake.Tree.{root_output}
use blake.Impl.{derive_key_context, derive_key_material}
use blake.Impl.{iv, popcnt, round_down_to_power_of_2, load_key_words, store_cv_words}
use blake.Impl.{chunk_len}
use blake.Impl.Integers.{ones, popcnt_lem, round_down_lem}
use blake.Merkle.{pairs}
use blake.Output.{Output, root_bytes, parent_output, chaining_value}
use blake.Output.RootBytes.{root_bytes_lem, root_bytes-append}
use blake.Portable.{compress_in_place, compress_xof}
use blake.Portable.Words.{compress_xof_lem}
use blake.Subtree.{left_subtree_len, compress_chunks_parallel, compress_parents_parallel}
use blake.Subtree.{compress_subtree_to_parent_node}
use blake.Subtree.Chunks.{compress_chunks_parallel_lem}
use blake.Subtree.Parents.{compress_parents_parallel_lem}
use blake.Subtree.IsWide.{left_subtree_len_lem}
use blake.Subtree.ParentNode.{compress_subtree_to_parent_node_lem}
use blake.Tree.{leaves, tree, join_cvs}

-- Three updates: one chunk and a bit, nothing, and the rest of a third chunk.
abbrev three_updates : List (List ℕ)
three_updates = replicate 1100 1 ∷ [] ∷ replicate 1100 2 ∷ []

length-three_updates : length (flat three_updates) ≡ 2200
length-three_updates = refl

finalize_seek-update_all_example :
    (update_all portable (init_base iv 0) three_updates
      >>= (λ self. finalize_seek portable self 10 100))
    ≡ some (root_bytes portable (root_output portable iv 0 (flat three_updates)) 10 100)
finalize_seek-update_all_example =
    finalize_seek-update_all portable portable-IsLawful iv 0 three_updates 10 100
      (omega (arith, length-three_updates))

finalize_seek-reset_example :
    (update_all portable (init_base iv 0) three_updates >>= (λ used.
      update_all portable (reset used) ((5 ∷ []) ∷ [])
      >>= (λ self. finalize_seek portable self 0 32)))
    ≡ some (root_bytes portable (root_output portable iv 0 (5 ∷ [])) 0 32)
finalize_seek-reset_example =
    finalize_seek-reset portable portable-IsLawful iv 0 three_updates ((5 ∷ []) ∷ []) 0 32
      (omega (arith, length-three_updates)) (omega arith)

init_derive_key_raw_example :
    init_derive_key_raw portable (65 ∷ 66 ∷ [])
    ≡ some (
        init_base
          (load_key_words
            (root_bytes portable (root_output portable iv derive_key_context (65 ∷ 66 ∷ [])) 0 32))
          derive_key_material)
init_derive_key_raw_example =
    init_derive_key_raw_lem portable portable-IsLawful (65 ∷ 66 ∷ []) (omega arith)

shrink_example :
    (s : ℕ) × (shrink 64 (2 ^ 12) 3072 ≡ some (2 ^ s)) × (10 ≤ s) × (s ≤ 12) × (3072 % 2 ^ s ≡ 0)
shrink_example =
    shrink_lem 64 12 3072 (omega arith) (omega arith) (omega arith) (omega arith) (omega arith)

-- 33 blocks of one byte value: two chunks and one block of a third.
abbrev two_chunks : List ℕ
two_chunks = replicate 2112 7

compress_subtree_to_parent_node_example :
    (block : List ℕ) × (compress_subtree_to_parent_node portable iv 0 two_chunks 5 ≡ some block)
    × (tree portable iv 0 (leaves portable iv 0 5 two_chunks) ≡ parent_output block iv 0)
compress_subtree_to_parent_node_example =
    compress_subtree_to_parent_node_lem portable portable-IsLawful iv 0 5 two_chunks
      (omega (arith, length-replicate {A = ℕ} 2112 7))
      (omega (arith, length-replicate {A = ℕ} 2112 7))

output-updates_example :
    output (updates portable (init iv 0) (replicate 100 1 ∷ [] ∷ replicate 28 2 ∷ []))
    ≡ chunk_output portable iv 0 0 (flat (replicate 100 1 ∷ [] ∷ replicate 28 2 ∷ []))
output-updates_example =
    output-updates portable iv 0 (replicate 100 1 ∷ [] ∷ replicate 28 2 ∷ []) (omega arith)

abbrev an_output : Output
an_output = chunk_output portable iv 0 0 (1 ∷ 2 ∷ 3 ∷ [])

root_bytes_example :
    root_bytes portable an_output 60 70 ≡ take 70 (drop 60 (root_blocks portable an_output 0 3))
root_bytes_example =
    root_bytes_lem portable portable-IsLawful an_output 60 70 3 (omega arith) (omega arith)

root_bytes-append_example :
    root_bytes portable an_output 60 (70 + 5)
    ≡ root_bytes portable an_output 60 70 ++ root_bytes portable an_output (60 + 70) 5
root_bytes-append_example =
    root_bytes-append portable portable-IsLawful an_output 60 70 5 (omega arith)

compress_chunks_parallel_example :
    compress_chunks_parallel portable iv 0 two_chunks 5
    ≡ some (map (chaining_value portable) (leaves portable iv 0 5 two_chunks))
compress_chunks_parallel_example =
    compress_chunks_parallel_lem portable portable-IsLawful iv 0 two_chunks 5
      (omega (arith, length-replicate {A = ℕ} 2112 7))
      (omega (arith, length-replicate {A = ℕ} 2112 7))

compress_parents_parallel_example :
    compress_parents_parallel portable iv 0 (replicate 3 (replicate 32 9))
    ≡ some (pairs (join_cvs portable iv 0) (replicate 3 (replicate 32 9)))
compress_parents_parallel_example =
    compress_parents_parallel_lem portable portable-IsLawful iv 0 (replicate 3 (replicate 32 9))
      (refl, (refl, (refl, tt))) (omega arith)

left_subtree_len_example :
    (j : ℕ) × (left_subtree_len 3073 ≡ 2 ^ j * chunk_len)
    × (2 ^ j * chunk_len < 3073)
    × (3073 ≤ 2 ^ suc j * chunk_len)
left_subtree_len_example = left_subtree_len_lem 3073 (omega arith) (omega arith)

popcnt_example : popcnt 11 ≡ ones 64 11
popcnt_example = popcnt_lem 11 (omega arith)

round_down_example :
    (k : ℕ) × (k < 64)
    × (round_down_to_power_of_2 11 ≡ 2 ^ k)
    × (2 ^ k ≤ max 11 1)
    × (11 < 2 * 2 ^ k)
round_down_example = round_down_lem 11 (omega arith)

compress_xof_example :
    All IsByte (compress_xof iv (replicate 64 1) 64 0 11)
    × (length (compress_xof iv (replicate 64 1) 64 0 11) ≡ 64)
    × (take 32 (compress_xof iv (replicate 64 1) 64 0 11)
        ≡ store_cv_words (compress_in_place iv (replicate 64 1) 64 0 11))
compress_xof_example = compress_xof_lem iv (replicate 64 1) 64 0 11
