-- ===== src/Sse/Many.antt =====
-- The code that c/blake3_sse41.c and c/blake3_sse2.c have in common, word for word, of the hashing of
-- many inputs, four at a time.
use blake.Base.{
  ℕ, zero, suc, ◌+◌, ◌*◌, bit_or, List, [], ◌∷◌, ◌++◌, Bool, take, drop, get_or, ◌==◌,
  if◌then◌else◌, u32, u64, ◌>>>◌,
}
use blake.Impl.{store_cv_words, block_len}
use blake.Sse.{Intrinsics}
use blake.Sse.Rows.{Variant, addv, xorv, rot12, rot7, compress_in_place}
use blake.Wide.{Ops, Group, Sixteen, Eight, block_loop, key_vecs}

-- The helpers that the rounds over sixteen vectors are written in.
abbrev pub ops : (k : Intrinsics) → Variant k → Ops
ops k t = record {
  Vec = k.Vec;
  addv = addv k;
  xorv = xorv k;
  set1 = k.set1_epi32;
  rot16 = t.rot16;
  rot12 = rot12 k;
  rot8 = t.rot8;
  rot7 = rot7 k;
}

module _ (k : Intrinsics) where
  open k use {Vec}

  unfoldable pub transpose_vecs : Group Vec → Group Vec
  transpose_vecs vecs =
      let ab_01 = k.unpacklo_epi32 vecs.w0 vecs.w1 in
      let ab_23 = k.unpackhi_epi32 vecs.w0 vecs.w1 in
      let cd_01 = k.unpacklo_epi32 vecs.w2 vecs.w3 in
      let cd_23 = k.unpackhi_epi32 vecs.w2 vecs.w3 in
      record {
        w0 = k.unpacklo_epi64 ab_01 cd_01;
        w1 = k.unpackhi_epi64 ab_01 cd_01;
        w2 = k.unpacklo_epi64 ab_23 cd_23;
        w3 = k.unpackhi_epi64 ab_23 cd_23;
      }

  -- `loadu(&inputs[j][offset])`
  abbrev pub load_input : List (List ℕ) → ℕ → ℕ → Vec
  load_input inputs j offset = k.loadu_si128 (drop offset (get_or inputs j []))

  -- `out[4 * i]` to `out[4 * i + 3]`, transposed; the prefetching has no effect on the result.
  unfoldable pub load_group : List (List ℕ) → ℕ → Group Vec
  unfolding transpose_vecs
  load_group inputs offset = transpose_vecs (record {
    w0 = load_input inputs 0 offset;
    w1 = load_input inputs 1 offset;
    w2 = load_input inputs 2 offset;
    w3 = load_input inputs 3 offset;
  })

  unfoldable pub transpose_msg_vecs : List (List ℕ) → ℕ → Sixteen Vec
  unfolding load_group
  transpose_msg_vecs inputs block_offset = record {
    a = load_group inputs (block_offset + 0 * 16);
    b = load_group inputs (block_offset + 1 * 16);
    c = load_group inputs (block_offset + 2 * 16);
    d = load_group inputs (block_offset + 3 * 16);
  }

  -- `-(int32_t)increment_counter` as a word, and the vectors `*out_lo` and `*out_hi`.
  unfoldable pub load_counters : ℕ → Bool → Vec × Vec
  load_counters counter increment_counter =
      let mask = k.set1_epi32 (if increment_counter then 4294967295 else 0) in
      let add0 = k.set_epi32 3 2 1 0 in
      let add1 = k.and_si128 mask add0 in
      let l = k.add_epi32 (k.set1_epi32 (u32 counter)) add1 in
      let carry =
        k.cmpgt_epi32 (k.xor_si128 add1 (k.set1_epi32 0x80000000))
          (k.xor_si128 l (k.set1_epi32 0x80000000)) in
      let h = k.sub_epi32 (k.set1_epi32 (u32 (counter >>> 32))) carry in (l, h)

  -- The stores of the last lines: the first half of every output is in the first four vectors.
  unfoldable pub store_outputs : Eight Vec → List (List ℕ)
  unfolding transpose_vecs
  store_outputs h =
      let lo = transpose_vecs h.lo in
      let hi = transpose_vecs h.hi in
      (k.storeu_si128 lo.w0 ++ k.storeu_si128 hi.w0)
      ∷ (k.storeu_si128 lo.w1 ++ k.storeu_si128 hi.w1)
      ∷ (k.storeu_si128 lo.w2 ++ k.storeu_si128 hi.w2)
      ∷ (k.storeu_si128 lo.w3 ++ k.storeu_si128 hi.w3)
      ∷ []

module _ (k : Intrinsics) (t : Variant k) where
  -- The 32-byte outputs of the first four inputs.
  unfoldable pub hash4 : List (List ℕ) → ℕ → List ℕ → ℕ → Bool → ℕ → ℕ → ℕ → List (List ℕ)
  unfolding transpose_msg_vecs load_counters store_outputs
  hash4 inputs blocks key counter increment_counter flags flags_start flags_end =
      let (lo, hi) = load_counters k counter increment_counter in
      store_outputs k (
        block_loop (ops k t) (transpose_msg_vecs k) inputs lo hi flags flags_end blocks 0
          (bit_or flags flags_start) (key_vecs (ops k t) key))

  -- `while (blocks > 0)`
  unfoldable pub hash_one_loop : ℕ → List ℕ → List ℕ → ℕ → ℕ → ℕ → ℕ → List ℕ
  unfolding compress_in_place
  hash_one_loop zero input cv counter flags block_flags flags_end = cv
  hash_one_loop (suc blocks) input cv counter flags block_flags flags_end =
      let last = if suc blocks == 1 then bit_or block_flags flags_end else block_flags in
      hash_one_loop blocks (drop block_len input)
        (compress_in_place k t cv (take block_len input) block_len counter last) counter flags flags
        flags_end

  unfoldable pub hash_one : List ℕ → ℕ → List ℕ → ℕ → ℕ → ℕ → ℕ → List ℕ
  unfolding hash_one_loop
  hash_one input blocks key counter flags flags_start flags_end =
      store_cv_words
        (hash_one_loop blocks input key counter flags (bit_or flags flags_start) flags_end)

  -- `while (num_inputs > 0)`
  unfoldable pub hash_rest : List (List ℕ) → ℕ → List ℕ → ℕ → Bool → ℕ → ℕ → ℕ → List (List ℕ)
  unfolding hash_one
  hash_rest [] blocks key counter increment_counter flags flags_start flags_end = []
  hash_rest (input ∷ inputs) blocks key counter increment_counter flags flags_start flags_end =
      hash_one input blocks key counter flags flags_start flags_end
      ∷ hash_rest inputs blocks key (if increment_counter then u64 (counter + 1) else counter)
          increment_counter flags flags_start flags_end

  -- `while (num_inputs >= DEGREE)`, and then the rest.
  unfoldable pub hash_many : List (List ℕ) → ℕ → List ℕ → ℕ → Bool → ℕ → ℕ → ℕ → List (List ℕ)
  unfolding hash4 hash_rest
  hash_many (x ∷ y ∷ z ∷ w ∷ inputs) blocks key counter increment_counter flags flags_start
        flags_end =
      hash4 (x ∷ y ∷ z ∷ w ∷ inputs) blocks key counter increment_counter flags flags_start
        flags_end
      ++ hash_many inputs blocks key (if increment_counter then u64 (counter + 4) else counter)
          increment_counter flags flags_start flags_end
  hash_many inputs blocks key counter increment_counter flags flags_start flags_end =
      hash_rest inputs blocks key counter increment_counter flags flags_start flags_end
