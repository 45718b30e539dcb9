-- ===== src/Backend.antt =====
-- The operations that c/blake3.c calls through c/blake3_dispatch.c. What the code above them relies
-- on is in Backend/Lawful.
pub mod Lawful
pub mod Portable
pub mod OnWords
use blake.Base.{ℕ, List, Bool}

pub record Backend : Type 0 where
  -- cv, block, block_len, counter, flags; the new cv
  pub compress_in_place : List ℕ → List ℕ → ℕ → ℕ → ℕ → List ℕ
  -- the same arguments; the 64 bytes of `out`
  pub compress_xof : List ℕ → List ℕ → ℕ → ℕ → ℕ → List ℕ
  -- the same arguments and `outblocks`; the bytes of `out`
  pub xof_many : List ℕ → List ℕ → ℕ → ℕ → ℕ → ℕ → List ℕ
  -- inputs, blocks, key, counter, increment_counter, flags, flags_start, flags_end; the outputs
  pub hash_many : List (List ℕ) → ℕ → List ℕ → ℕ → Bool → ℕ → ℕ → ℕ → List (List ℕ)
  pub simd_degree : ℕ
