-- ===== src/Chunk/Holds.antt =====
-- What a chunk state holds: the bytes that it has been fed, compressed or in the buffer.
use blake.Base.{ℕ, ◌+◌, ◌-◌, ◌*◌, ◌≤◌, bit_or, ◌≡◌, refl, sym, ap, ap₂, ◌∙◌}
use blake.Base.{List, [], ◌++◌, length, replicate, arith, u8}
use blake.Base.{append-nil, append_assoc, length-append, drop-replicate}
use blake.Base.{take-append_exact, drop-append_ge}
use blake.Impl.{block_len, chunk_end}
use blake.Backend.{Backend}
use blake.Output.{Output, make_output}
use blake.Chunk.{ChunkState, write, output, chunk_len}
use blake.Chunk.Spec.{pad, start_flag, chunk_from, chunk_from_last}
use blake.Chunk.Spec.{last_block, chunk_output}

pub write-pad :
    (r t : List ℕ) → length r + length t ≤ block_len → write (pad r) (length r) t ≡ pad (r ++ t)
unfolding write
write-pad r t h =
    let zeros : List ℕ = replicate (block_len - length r) 0 in
    ap₂ (λ (x y : List ℕ). x ++ (t ++ y)) (take-append_exact (length r) r zeros refl)
      (drop-append_ge (length r + length t) r zeros (omega arith)
        ∙ drop-replicate (length r + length t - length r) (block_len - length r) 0)
    ∙ sym (append_assoc r t _)
    ∙ ap (λ (n : ℕ). (r ++ t) ++ replicate n 0)
        {x = block_len - length r - (length r + length t - length r)}
        {y = block_len - length (r ++ t)} (omega (arith, length-append r t))

module _ (b : Backend) (key : List ℕ) (counter flags : ℕ) where
  -- `s` has been fed the bytes `c` of the chunk: all blocks but the last are compressed, and the
  -- last one, with the bytes `r`, is in the buffer. Whatever follows, the chunk's output is that of
  -- what is left to compress.
  pub record Holds (s : ChunkState) (c : List ℕ) : Type 0 where
    pub r : List ℕ
    pub buffer : s.buf ≡ pad r
    pub buffered : s.buf_len ≡ length r
    pub fits : length r ≤ block_len
    pub lazy : length r ≡ 0 → length c ≡ 0
    pub counted : block_len * s.blocks_compressed + length r ≡ length c
    pub bounded : length c ≤ 1024
    pub same_counter : s.chunk_counter ≡ counter
    pub same_flags : s.flags ≡ flags
    pub future :
        (y : List ℕ)
        → chunk_from b counter flags 0 key (c ++ y)
          ≡ chunk_from b counter flags s.blocks_compressed s.cv (r ++ y)

  -- The buffer is empty, and the bytes `x` are still to be read.
  pub record Ready (s : ChunkState) (c x : List ℕ) : Type 0 where
    pub buffer : s.buf ≡ pad []
    pub buffered : s.buf_len ≡ 0
    pub lazy : length x ≡ 0 → length c ≡ 0
    pub counted : block_len * s.blocks_compressed ≡ length c
    pub bounded : length c + length x ≤ 1024
    pub same_counter : s.chunk_counter ≡ counter
    pub same_flags : s.flags ≡ flags
    pub future :
        (y : List ℕ)
        → chunk_from b counter flags 0 key (c ++ (x ++ y))
          ≡ chunk_from b counter flags s.blocks_compressed s.cv (x ++ y)

  -- The state after `take taken input` went into the buffer.
  pub fill_Holds :
      (s : ChunkState) (c t : List ℕ) (n : ℕ) (h : Holds s c)
      → n ≡ length t
      → length h.r + length t ≤ block_len
      → length c + length t ≤ 1024
      → Holds (record s { buf = write s.buf s.buf_len t; buf_len = u8 (s.buf_len + u8 n) }) (c ++ t)
  fill_Holds s c t n h e room bound = record {
    r = h.r ++ t;
    buffer = ap₂ (λ p n. write p n t) h.buffer h.buffered ∙ write-pad h.r t room;
    buffered = omega (arith, length-append h.r t, h.buffered);
    fits = omega (arith, length-append h.r t);
    lazy = λ z. omega (
      arith,
      length-append h.r t,
      length-append c t,
      h.lazy (omega (arith, length-append h.r t)),
    );
    counted = omega (arith, length-append h.r t, length-append c t, h.counted);
    bounded = omega (arith, length-append c t);
    same_counter = h.same_counter;
    same_flags = h.same_flags;
    future = λ y.
        ap (chunk_from b counter flags 0 key) (append_assoc c t y)
        ∙ h.future (t ++ y)
        ∙ ap (chunk_from b counter flags s.blocks_compressed s.cv) (sym (append_assoc h.r t y));
  }

  pub init-Holds :
      (s : ChunkState)
      → s.cv ≡ key
      → s.chunk_counter ≡ counter
      → s.flags ≡ flags
      → s.buf ≡ replicate block_len 0
      → s.buf_len ≡ 0
      → s.blocks_compressed ≡ 0
      → Holds s []
  init-Holds s ecv ectr efl ebuf elen eblocks = record {
    r = [];
    buffer = ebuf;
    buffered = elen;
    fits = omega arith;
    lazy = λ z. refl;
    counted = omega arith;
    bounded = omega arith;
    same_counter = ectr;
    same_flags = efl;
    future = λ y. ap₂ (λ n v. chunk_from b counter flags n v y) (sym eblocks) (sym ecv);
  }

  -- What a chunk state hands on is the output of the chunk of the bytes that it holds.
  pub output-Holds :
      (s : ChunkState) (c : List ℕ) → Holds s c → output s ≡ chunk_output b key flags counter c
  unfolding output chunk_output last_block
  output-Holds s c h =
      ap₂
        (λ p n.
          make_output s.cv p n s.chunk_counter
            (bit_or (bit_or s.flags (start_flag s.blocks_compressed)) chunk_end))
        h.buffer h.buffered
      ∙ ap₂ (λ k f. last_of k f) h.same_counter h.same_flags
      ∙ sym (chunk_from_last b counter flags s.blocks_compressed s.cv h.r h.fits)
      ∙ ap (chunk_from b counter flags s.blocks_compressed s.cv) (sym (append-nil h.r))
      ∙ sym (h.future [])
      ∙ ap (chunk_from b counter flags 0 key) (append-nil c)
    where
      last_of : ℕ → ℕ → Output
      last_of k f = last_block b k f s.blocks_compressed s.cv h.r

  pub chunk_len-Holds : (s : ChunkState) (c : List ℕ) → Holds s c → chunk_len s ≡ length c
  unfolding chunk_len
  chunk_len-Holds s c h = omega (arith, h.counted, h.buffered)
