-- ===== src/Backend/Lawful.antt =====
-- What c/blake3.c relies on in the operations that it is dispatched to: the batches do what the
-- single operation does for each input, and the number of lanes is a power of two up to 16.
use blake.Base.{ℕ, zero, suc, ◌+◌, ◌^◌, ◌≤◌, ◌<◌, bit_or, ◌≡◌, List, [], ◌++◌, map, true, false}
use blake.Base.{length, All, u64}
use blake.Impl.{chunk_start, chunk_end, parent, chunk_len, block_len, out_len}
use blake.Backend.{Backend}
use blake.Output.{Output, parent_output, chaining_value, root_block}
use blake.Tree.{outputs}

module _ (b : Backend) where
  -- `n` blocks of output, one after the other.
  unfoldable pub root_blocks : Output → ℕ → ℕ → List ℕ
  root_blocks o counter zero = []
  root_blocks o counter (suc n) = root_block b o (u64 counter) ++ root_blocks o (counter + 1) n

  pub record IsLawful : Type 0 where
    pub cv_length : (o : Output) → length (chaining_value b o) ≡ out_len
    pub xof_length : (o : Output) (counter : ℕ) → length (root_block b o counter) ≡ block_len
    pub xof_many_blocks :
        (o : Output) (counter n : ℕ)
        → b.xof_many o.input_cv o.block o.len counter (bit_or o.flags 8) n ≡ root_blocks o counter n
    pub hash_chunks :
        (key : List ℕ) (counter flags : ℕ) (inputs : List (List ℕ))
        → All (λ input. length input ≡ chunk_len) inputs
        → counter + length inputs < 2 ^ 64
        → b.hash_many inputs 16 key counter true flags chunk_start chunk_end
          ≡ map (chaining_value b) (outputs b key flags counter inputs)
    pub hash_parents :
        (key : List ℕ) (flags : ℕ) (inputs : List (List ℕ))
        → All (λ input. length input ≡ block_len) inputs
        → b.hash_many inputs 1 key 0 false (bit_or flags parent) 0 0
          ≡ map (λ input. chaining_value b (parent_output input key flags)) inputs
    pub degree_log : ℕ
    pub degree : b.simd_degree ≡ 2 ^ degree_log
    pub degree_bound : degree_log ≤ 4
