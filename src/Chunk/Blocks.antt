-- ===== src/Chunk/Blocks.antt =====
-- The whole blocks that a chunk state compresses on the way keep what it holds.
use blake.Base.{ℕ, zero, suc, ◌+◌, ◌-◌, ◌≤◌, ◌<◌, bit_or, ◌≡◌, refl, sym, ap, ap₂, ◌∙◌}
use blake.Base.{List, [], ◌++◌, ltb, length, take, drop, replicate, arith}
use blake.Base.{append-nil, append_assoc, length-append, length-take, length-drop}
use blake.Base.{take-append_exact, drop-append_exact, take-append-drop}
use blake.Base.{
  take_all, empty_of_length, lt→ltb, ge→ltb, le-or-gt, inl, inr, if◌then◌else◌, eq-or-ne, ◌==◌,
  false,
}
use blake.Impl.{block_len}
use blake.Backend.{Backend}
use blake.Chunk.{ChunkState, write, fill_buf}
use blake.Chunk.{compress_block, flush_buf, update_loop, update_blocks}
use blake.Chunk.Spec.{pad, start_flag, chunk_from, chunk_from_more, next_cv}
use blake.Chunk.Holds.{Holds, Ready, fill_Holds, write-pad}

module _ (b : Backend) (key : List ℕ) (counter flags : ℕ) where
  compress_block-next_cv :
      (s : ChunkState) (block : List ℕ)
      → s.chunk_counter ≡ counter
      → s.flags ≡ flags
      → (compress_block b s block).cv ≡ next_cv b counter flags s.blocks_compressed s.cv block
  unfolding compress_block next_cv
  compress_block-next_cv s block p q =
      ap₂
        (λ k f.
          b.compress_in_place s.cv block block_len k (bit_or f (start_flag s.blocks_compressed)))
        p q

  -- Compressing the front of `z` leaves the output of the rest as it is.
  advance :
      (s : ChunkState) (block rest : List ℕ)
      → length block ≡ block_len
      → 0 < length rest
      → s.chunk_counter ≡ counter
      → s.flags ≡ flags
      → s.blocks_compressed < 16
      → let s' = compress_block b s block in
        chunk_from b counter flags s.blocks_compressed s.cv (block ++ rest)
        ≡ chunk_from b counter flags s'.blocks_compressed s'.cv rest
  advance s block rest e h p q small =
      chunk_from_more b counter flags s.blocks_compressed s.cv (block ++ rest)
        (omega (arith, length-append block rest))
      ∙ ap₂
          (λ t d.
            chunk_from b counter flags (s.blocks_compressed + 1)
              (next_cv b counter flags s.blocks_compressed s.cv t) d)
          (take-append_exact block_len block rest e) (drop-append_exact block_len block rest e)
      ∙ ap₂ (λ n v. chunk_from b counter flags n v rest) (unfold compress_block in omega arith)
          (sym (compress_block-next_cv s block p q))

  Ready-compress :
      (s : ChunkState) (c x : List ℕ)
      → block_len < length x
      → Ready b key counter flags s c x
      → Ready b key counter flags
          (compress_block b s (take block_len x))
          (c ++ take block_len x)
          (drop block_len x)
  unfolding compress_block
  Ready-compress s c x over h =
      let t = take block_len x in
      let d = drop block_len x in
      let lt = length-take block_len x in
      let ld = length-drop block_len x in
      let lc = length-append c t in
      record {
        buffer = h.buffer;
        buffered = h.buffered;
        lazy = λ e. absurd (omega arith);
        counted = omega (arith, h.counted, h.bounded);
        bounded = omega (arith, h.bounded);
        same_counter = h.same_counter;
        same_flags = h.same_flags;
        future = λ y.
            ap (chunk_from b counter flags 0 key) (
              append_assoc c t (d ++ y)
              ∙ ap (λ z. c ++ z)
                  (sym (append_assoc t d y) ∙ ap (λ z. z ++ y) (take-append-drop block_len x)))
            ∙ h.future y
            ∙ ap (chunk_from b counter flags s.blocks_compressed s.cv)
                (ap (λ z. z ++ y) (sym (take-append-drop block_len x)) ∙ append_assoc t d y)
            ∙ advance s t (d ++ y) (omega arith) (omega (arith, length-append d y)) h.same_counter
                h.same_flags (omega (arith, h.counted, h.bounded));
      }

  -- A full buffer is compressed when more input is known to follow.
  pub flush_Ready :
      (s : ChunkState) (c x : List ℕ) (h : Holds b key counter flags s c)
      → length h.r ≡ block_len
      → 0 < length x
      → length c + length x ≤ 1024
      → Ready b key counter flags (flush_buf b s) c x
  unfolding flush_buf
  flush_Ready s c x h full more bound =
      let e : s.buf ≡ h.r =
        h.buffer
        ∙ ap (λ (n : ℕ). h.r ++ replicate n 0) {x = block_len - length h.r} {y = 0} (omega arith)
        ∙ append-nil h.r in
      record {
        buffer = refl;
        buffered = refl;
        lazy = λ z. absurd (omega arith);
        counted = unfold compress_block in omega (arith, h.counted);
        bounded = bound;
        same_counter = h.same_counter;
        same_flags = h.same_flags;
        future = λ y.
            h.future (x ++ y)
            ∙ ap (λ z. chunk_from b counter flags s.blocks_compressed s.cv (z ++ (x ++ y))) (sym e)
            ∙ advance s s.buf (x ++ y) (ap length e ∙ full) (omega (arith, length-append x y))
                h.same_counter h.same_flags (omega (arith, h.counted));
      }

  -- A short rest goes into an empty buffer.
  Ready-finish :
      (s : ChunkState) (c x : List ℕ)
      → length x ≤ block_len
      → Ready b key counter flags s c x
      → Holds b key counter flags (fill_buf s x).1 (c ++ x)
  unfolding fill_buf
  Ready-finish s c x short h =
      rw (taken_all, take_all (length x) x (omega arith))
        (record {
          r = x;
          buffer = ap₂ (λ p n. write p n x) h.buffer h.buffered ∙ write-pad [] x (omega arith);
          buffered = omega (arith, h.buffered);
          fits = short;
          lazy = λ e. omega (arith, h.lazy e, length-append c x);
          counted = omega (arith, length-append c x, h.counted);
          bounded = omega (arith, length-append c x, h.bounded);
          same_counter = h.same_counter;
          same_flags = h.same_flags;
          future = λ y. ap (chunk_from b counter flags 0 key) (append_assoc c x y) ∙ h.future y;
        })
    where
      taken_all :
          (if ltb (length x) (block_len - s.buf_len) then length x else block_len - s.buf_len)
          ≡ length x
      taken_all = ground (arith, h.buffered)

  update_loop-Ready :
      (fuel : ℕ) (s : ChunkState) (c x : List ℕ)
      → length x ≤ fuel
      → Ready b key counter flags s c x
      → let (s', rest) = update_loop b fuel s x in
        Holds b key counter flags (fill_buf s' rest).1 (c ++ x)
  unfolding update_loop
  update_loop-Ready zero s c x h v = Ready-finish s c x (omega arith) v
  update_loop-Ready (suc fuel) s c x h v = elim (le-or-gt (length x) block_len) [
    | inl short ↦ rw (ge→ltb block_len (length x) short, update_loop) (Ready-finish s c x short v)
    | inr over ↦
        rw (lt→ltb block_len (length x) over, update_loop, ← append_pieces over)
          (update_loop-Ready fuel (compress_block b s (take block_len x)) (c ++ take block_len x)
            (drop block_len x) (omega (arith, length-drop block_len x))
            (Ready-compress s c x over v))
  ]
    where
      append_pieces : block_len < length x → (c ++ take block_len x) ++ drop block_len x ≡ c ++ x
      append_pieces over =
          append_assoc c (take block_len x) (drop block_len x)
          ∙ ap (λ z. c ++ z) (take-append-drop block_len x)

  pub Holds-Ready :
      (s : ChunkState) (c x : List ℕ)
      → s.buf_len ≡ 0
      → length c + length x ≤ 1024
      → Holds b key counter flags s c
      → Ready b key counter flags s c x
  Holds-Ready s c x e bound h =
      let none_left : h.r ≡ [] = empty_of_length h.r (omega (arith, h.buffered)) in
      record {
        buffer = h.buffer ∙ ap (λ z. pad z) none_left;
        buffered = e;
        lazy = λ z. h.lazy (omega (arith, h.buffered));
        counted = omega (arith, h.counted, h.buffered);
        bounded = bound;
        same_counter = h.same_counter;
        same_flags = h.same_flags;
        future = λ y.
            h.future (x ++ y)
            ∙ ap (λ z. chunk_from b counter flags s.blocks_compressed s.cv (z ++ (x ++ y)))
                none_left;
      }

  pub update_blocks-Holds :
      (s : ChunkState) (c x : List ℕ)
      → Ready b key counter flags s c x
      → Holds b key counter flags (update_blocks b s x) (c ++ x)
  unfolding update_blocks
  update_blocks-Holds s c x v = update_loop-Ready (length x) s c x (omega arith) v

  -- Nothing changes for an empty rest.
  pub update_blocks-nil :
      (s : ChunkState) (c : List ℕ)
      → Holds b key counter flags s c
      → Holds b key counter flags (update_blocks b s []) (c ++ [])
  unfolding update_blocks update_loop fill_buf
  update_blocks-nil s c h = elim (eq-or-ne (block_len - s.buf_len) 0) [
    | inl e ↦ rw (taken_none e) (
        fill_Holds b key counter flags s c [] 0 h refl (omega (arith, h.fits))
          (omega (arith, h.bounded)))
    | inr ne ↦ rw (taken_zero ne) (
        fill_Holds b key counter flags s c [] 0 h refl (omega (arith, h.fits))
          (omega (arith, h.bounded)))
  ]
    where
      taken_none :
          block_len - s.buf_len ≡ 0
          → (if ltb 0 (block_len - s.buf_len) then 0 else block_len - s.buf_len) ≡ 0
      taken_none e = ground arith

      taken_zero :
          ((block_len - s.buf_len) == 0) ≡ false
          → (if ltb 0 (block_len - s.buf_len) then 0 else block_len - s.buf_len) ≡ 0
      taken_zero e = ground arith
