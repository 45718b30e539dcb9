-- ===== src/Tree.antt =====
-- The hash tree over the chunks of an input: what the BLAKE3 hash of the input is, with no regard to
-- how c/blake3.c computes it. The leaves are the chunks of 1024 bytes, in order and numbered.
pub mod Leaves
use blake.Base.{ℕ, zero, suc, ◌+◌, bit_or, List, [], ◌∷◌, ◌++◌, length, take, drop}
use blake.Impl.{chunk_len, parent, block_len, max_depth}
use blake.Backend.{Backend}
use blake.Output.{Output, parent_output, chaining_value}
use blake.Chunk.Spec.{chunk_output}
use blake.Merkle.{merkle}

-- The input in pieces of 1024 bytes, the last one with what is left.
unfoldable pub pieces_from : ℕ → List ℕ → List (List ℕ)
pieces_from zero m = []
pieces_from (suc fuel) [] = []
pieces_from (suc fuel) (x ∷ m) = take chunk_len (x ∷ m) ∷ pieces_from fuel (drop chunk_len (x ∷ m))

-- A piece takes a byte at least, so the length is fuel enough.
unfoldable pub pieces : List ℕ → List (List ℕ)
unfolding pieces_from
pieces m = pieces_from (length m) m

module _ (b : Backend) (key : List ℕ) (flags : ℕ) where
  -- The outputs of pieces that are numbered from `counter` on.
  unfoldable pub outputs : ℕ → List (List ℕ) → List Output
  outputs counter [] = []
  outputs counter (p ∷ ps) = chunk_output b key flags counter p ∷ outputs (counter + 1) ps

  unfoldable pub leaves : ℕ → List ℕ → List Output
  unfolding pieces outputs
  leaves counter m = outputs counter (pieces m)

  unfoldable pub join : Output → Output → Output
  join l r = parent_output (chaining_value b l ++ chaining_value b r) key flags

  unfoldable pub join_cvs : List ℕ → List ℕ → List ℕ
  join_cvs l r = chaining_value b (parent_output (l ++ r) key flags)

  -- The root of the tree over the leaves of an input; with no byte it is an empty chunk.
  unfoldable pub tree : List Output → Output
  tree xs = merkle join (chunk_output b key flags 0 []) max_depth xs

  unfoldable pub root_output : List ℕ → Output
  unfolding tree leaves
  root_output m = tree (leaves 0 m)
