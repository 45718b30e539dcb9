-- ===== src/Chunk/Update.antt =====
-- A chunk state holds the bytes that it was fed, however they were cut into updates.
use blake.Base.{ℕ, ◌+◌, ◌-◌, ◌≤◌, ◌<◌, ◌≡◌, refl, sym, ap, ◌∙◌}
use blake.Base.{List, [], ◌∷◌, ◌++◌, ltb, length, take, drop, arith, u8}
use blake.Base.{append-nil, append_assoc, length-append, length-take, length-drop}
use blake.Base.{take-append-drop}
use blake.Base.{
  take_all, drop_all, lt→ltb, ge→ltb, le-or-gt, inl, inr, if◌then◌else◌, min, eq-or-ne,
}
use blake.Impl.{block_len}
use mathlib.Core.Path.{subst}
use blake.Backend.{Backend}
use blake.Chunk.{ChunkState, init, write, fill_buf, output}
use blake.Chunk.{flush_buf, update_blocks, update}
use blake.Chunk.Spec.{chunk_output}
use blake.Chunk.Holds.{Holds, fill_Holds, init-Holds, output-Holds}
use blake.Chunk.Blocks.{flush_Ready, update_blocks-Holds, update_blocks-nil, Holds-Ready}

module _ (b : Backend) (key : List ℕ) (counter flags : ℕ) where
  -- `n` bytes go into the buffer: all of the input, or as many as there is room for.
  filled : ChunkState → ℕ → List ℕ → ChunkState
  filled s n x = record s {
    buf = write s.buf s.buf_len (take n x);
    buf_len = u8 (s.buf_len + u8 n);
  }

  fill_buf_lem :
      (s : ChunkState) (x : List ℕ) (n : ℕ)
      → n ≡ min (length x) (block_len - s.buf_len)
      → fill_buf s x ≡ (n, filled s n x)
  unfolding fill_buf filled
  fill_buf_lem s x n e = rw taken
    where
      taken :
          (if ltb (length x) (block_len - s.buf_len) then length x else block_len - s.buf_len) ≡ n
      taken = ground arith

  filled-Holds :
      (s : ChunkState) (c x : List ℕ) (n : ℕ)
      → n ≡ min (length x) (block_len - s.buf_len)
      → length c + length x ≤ 1024
      → (h : Holds b key counter flags s c)
      → Holds b key counter flags (filled s n x) (c ++ take n x)
  unfolding filled
  filled-Holds s c x n e bound h =
      let l : length (take n x) ≡ n = omega (arith, length-take n x) in
      fill_Holds b key counter flags s c (take n x) n h (sym l) (omega (arith, h.buffered, h.fits))
        (omega arith)

  -- With bytes in the buffer the input goes there first.
  update-eq :
      (s : ChunkState) (x : List ℕ) (n : ℕ)
      → 0 < s.buf_len
      → n ≡ min (length x) (block_len - s.buf_len)
      → update b s x
        ≡ update_blocks b
            (if ltb 0 (length (drop n x)) then flush_buf b (filled s n x) else filled s n x)
            (drop n x)
  unfolding update
  update-eq s x n pos e = rw (fill_buf_lem s x n e, lt→ltb 0 s.buf_len pos)

  update_short :
      (s : ChunkState) (c x : List ℕ)
      → length c + length x ≤ 1024
      → Holds b key counter flags s c
      → 0 < s.buf_len
      → length x ≤ block_len - s.buf_len
      → Holds b key counter flags (update b s x) (c ++ x)
  update_short s c x bound h pos short =
      let n : ℕ = length x in
      let v = filled-Holds s c x n (omega arith) bound h in
      let v' : Holds b key counter flags (filled s n x) (c ++ x) =
        subst (λ z. Holds b key counter flags (filled s n x) (c ++ z)) (take_all n x (omega arith))
          v in
      rw (update-eq s x n pos (omega arith), drop_all n x (omega arith))
        (subst (λ z. Holds b key counter flags (update_blocks b (filled s n x) []) z)
          (append-nil (c ++ x)) (update_blocks-nil b key counter flags (filled s n x) (c ++ x) v'))

  update_over :
      (s : ChunkState) (c x : List ℕ)
      → length c + length x ≤ 1024
      → Holds b key counter flags s c
      → 0 < s.buf_len
      → block_len - s.buf_len < length x
      → Holds b key counter flags (update b s x) (c ++ x)
  unfolding filled
  update_over s c x bound h pos over =
      let n : ℕ = block_len - s.buf_len in
      let v = filled-Holds s c x n (omega arith) bound h in
      let lt = length-take n x in
      let ld = length-drop n x in
      rw (update-eq s x n pos (omega arith), lt→ltb 0 (length (drop n x)) (omega arith))
        (rw (append_assoc c (take n x) (drop n x) ∙ ap (λ z. c ++ z) (take-append-drop n x)) at (
          update_blocks-Holds b key counter flags (flush_buf b (filled s n x)) (c ++ take n x)
            (drop n x)
            (flush_Ready b key counter flags (filled s n x) (c ++ take n x) (drop n x) v
              (omega (arith, v.buffered, h.buffered, h.fits)) (omega arith)
              (omega (arith, length-append c (take n x))))))

  -- A chunk state that holds `c` holds `c ++ x` after an update with `x`, as long as the chunk has
  -- room.
  pub update-Holds :
      (s : ChunkState) (c x : List ℕ)
      → length c + length x ≤ 1024
      → Holds b key counter flags s c
      → Holds b key counter flags (update b s x) (c ++ x)
  update-Holds s c x bound h = elim (eq-or-ne s.buf_len 0) [
    | inl empty ↦
        unfold update in
        rw (ge→ltb 0 s.buf_len (omega arith)) (
          update_blocks-Holds b key counter flags s c x
            (Holds-Ready b key counter flags s c x empty bound h))
    | inr some_left ↦ elim (le-or-gt (length x) (block_len - s.buf_len)) [
      | inl short ↦ update_short s c x bound h (ground arith) short
      | inr over ↦ update_over s c x bound h (ground arith) over
    ]
  ]

-- The state after a list of updates.
abbrev pub updates : Backend → ChunkState → List (List ℕ) → ChunkState
updates b s [] = s
updates b s (x ∷ xs) = updates b (update b s x) xs

abbrev pub flat : List (List ℕ) → List ℕ
flat [] = []
flat (x ∷ xs) = x ++ flat xs

updates-Holds :
    (b : Backend) (key : List ℕ) (counter flags : ℕ) (s : ChunkState) (c : List ℕ)
    (xs : List (List ℕ))
    → length c + length (flat xs) ≤ 1024
    → Holds b key counter flags s c
    → Holds b key counter flags (updates b s xs) (c ++ flat xs)
updates-Holds b key counter flags s c [] bound h =
    subst (Holds b key counter flags s) (sym (append-nil c)) h
updates-Holds b key counter flags s c (x ∷ xs) bound h =
    subst (Holds b key counter flags (updates b (update b s x) xs)) (append_assoc c x (flat xs)) (
      updates-Holds b key counter flags (update b s x) (c ++ x) xs
        (omega (arith, length-append c x, length-append x (flat xs)))
        (update-Holds b key counter flags s c x (omega (arith, length-append x (flat xs))) h))

-- However the at most 1024 bytes of a chunk are cut into updates, the chunk state hands on the
-- output of the chunk, which is the fold of the compression over its blocks of 64 bytes.
pub output-updates :
    (b : Backend) (key : List ℕ) (flags : ℕ) (xs : List (List ℕ))
    → length (flat xs) ≤ 1024
    → output (updates b (init key flags) xs) ≡ chunk_output b key flags 0 (flat xs)
unfolding init
output-updates b key flags xs bound = output-Holds b key 0 flags _ (flat xs) (
    updates-Holds b key 0 flags (init key flags) [] xs (omega arith)
      (init-Holds b key 0 flags (init key flags) refl refl refl refl refl refl))
