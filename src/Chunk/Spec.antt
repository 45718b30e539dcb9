-- ===== src/Chunk/Spec.antt =====
-- A chunk as the fold of the compression over its blocks of 64 bytes: the description that
-- `blake3_chunk_state` is compared with.
use blake.Base.{ℕ, zero, suc, ◌+◌, ◌-◌, ◌≤◌, ◌<◌, bit_or, ◌≡◌, refl, arith}
use blake.Base.{List, [], ◌∷◌, ◌++◌, true, false, if◌then◌else◌, leb, ◌==◌, length, take, drop}
use blake.Base.{replicate, le→leb, gt→leb, le-or-gt, inl, inr, length-drop}
use blake.Impl.{block_len, chunk_start, chunk_end}
use blake.Backend.{Backend}
use blake.Output.{Output, make_output}

abbrev pub start_flag : ℕ → ℕ
start_flag i = if i == 0 then chunk_start else 0

abbrev pub pad : List ℕ → List ℕ
pad r = r ++ replicate (block_len - length r) 0

module _ (b : Backend) (counter flags : ℕ) where
  -- The last block, which is the `i`-th of the chunk and holds the bytes `r`.
  unfoldable pub last_block : ℕ → List ℕ → List ℕ → Output
  last_block i cv r =
      make_output cv (pad r) (length r) counter (bit_or (bit_or flags (start_flag i)) chunk_end)

  -- The chaining value after the `i`-th block.
  unfoldable pub next_cv : ℕ → List ℕ → List ℕ → List ℕ
  next_cv i cv block = b.compress_in_place cv block block_len counter (bit_or flags (start_flag i))

  unfoldable pub fold_blocks : ℕ → ℕ → List ℕ → List ℕ → Output
  fold_blocks zero i cv r = last_block i cv r
  fold_blocks (suc fuel) i cv r = elim (leb (length r) block_len) [
    | true ↦ last_block i cv r
    | false ↦ fold_blocks fuel (i + 1) (next_cv i cv (take block_len r)) (drop block_len r)
  ]

  -- The output of the bytes `r` that follow `i` blocks with chaining value `cv`.
  unfoldable pub chunk_from : ℕ → List ℕ → List ℕ → Output
  unfolding fold_blocks
  chunk_from i cv r = fold_blocks (length r) i cv r

  fold_blocks-fuel :
      (n m i : ℕ) (cv r : List ℕ)
      → length r ≤ n
      → length r ≤ m
      → fold_blocks n i cv r ≡ fold_blocks m i cv r
  unfolding fold_blocks
  fold_blocks-fuel zero zero i cv r h g = refl
  fold_blocks-fuel zero (suc m) i cv r h g =
      rw (le→leb (length r) block_len (omega arith), fold_blocks)
  fold_blocks-fuel (suc n) zero i cv r h g =
      rw (le→leb (length r) block_len (omega arith), fold_blocks)
  fold_blocks-fuel (suc n) (suc m) i cv r h g = elim (le-or-gt (length r) block_len) [
    | inl fits ↦ rw (le→leb (length r) block_len fits, fold_blocks)
    | inr over ↦
        rw (gt→leb (length r) block_len over, fold_blocks)
          (fold_blocks-fuel n m (i + 1) _ (drop block_len r)
            (omega (arith, length-drop block_len r)) (omega (arith, length-drop block_len r)))
  ]

  pub chunk_from_last :
      (i : ℕ) (cv r : List ℕ) → length r ≤ block_len → chunk_from i cv r ≡ last_block i cv r
  unfolding chunk_from
  chunk_from_last i cv [] h = refl
  chunk_from_last i cv (x ∷ r) h = rw (le→leb (length (x ∷ r)) block_len h, fold_blocks)

  pub chunk_from_more :
      (i : ℕ) (cv r : List ℕ)
      → block_len < length r
      → chunk_from i cv r ≡ chunk_from (i + 1) (next_cv i cv (take block_len r)) (drop block_len r)
  unfolding chunk_from
  chunk_from_more i cv [] h = absurd (omega arith)
  chunk_from_more i cv (x ∷ r) h =
      rw (gt→leb (length (x ∷ r)) block_len h, fold_blocks)
        (fold_blocks-fuel (length r) (length (drop block_len (x ∷ r))) (i + 1) _
          (drop block_len (x ∷ r)) (omega (arith, length-drop block_len (x ∷ r))) (omega arith))

-- The output of a whole chunk.
unfoldable pub chunk_output : Backend → List ℕ → ℕ → ℕ → List ℕ → Output
unfolding chunk_from
chunk_output b key flags counter bytes = chunk_from b counter flags 0 key bytes
