-- ===== src/Avx2/Agrees.antt =====
-- `blake3_hash_many_avx2` hashes every input as c/blake3_portable.c does.
use blake.Base.{
  ℕ, ◌+◌, ◌<◌, bit_or, ◌≡◌, refl, ap, ap₂, ◌∙◌, arith, List, [], ◌∷◌, ◌++◌, Bool, true, false,
  get_or, if◌then◌else◌, All, IsWord, length, u64,
}
use blake.Impl.{store_cv_words}
use blake.Portable
use blake.Sse
use blake.Sse.Agrees.{sse41_hash_many}
use blake.Sse.Counters.{steps}
use blake.Wide.{key_vecs, block_loop}
use blake.Wide.Loop.{key_vecs_lem, block_loop_lem}
use blake.Avx2.{Intrinsics, Documented, ops, transpose_msg_vecs, load_counters, hash8, hash_many}
use blake.Avx2.Lanes.{in_lane}
use blake.Avx2.Counters.{load_counters_lem}
use blake.Avx2.Transposed.{message_lem, output, stored_lem}

-- Eight increments, with a wrap at each or at the end.
steps_eight :
    (increment : Bool) (c : ℕ) → (if increment then u64 (c + 8) else c) ≡ steps increment c 8
steps_eight true c = omega arith
steps_eight false c = refl

module _ (k : Intrinsics) (d : Documented k) (key : List ℕ) (words : All IsWord key)
    (eight : length key ≡ 8) where
  -- The output of one of the eight inputs.
  lane_lem :
      (inputs : List (List ℕ)) (blocks counter : ℕ) (increment : Bool)
      (flags flags_start flags_end i : ℕ)
      → i < 8
      → let c = load_counters k counter increment in
        output k d
          (block_loop
            (ops k)
            (transpose_msg_vecs k)
            inputs
            c.0
            c.1
            flags
            flags_end
            blocks
            0
            (bit_or flags flags_start)
            (key_vecs (ops k) key))
          i
        ≡ Portable.hash_one
            (get_or inputs i [])
            blocks
            key
            (steps increment counter i)
            flags
            flags_start
            flags_end
  unfolding Portable.hash_one
  lane_lem inputs blocks counter increment flags flags_start flags_end i h =
      let c = load_counters k counter increment in
      let (lo, hi) = load_counters_lem k d counter increment i h in
      let input = get_or inputs i [] in
      let start = bit_or flags flags_start in
      ap store_cv_words (
        block_loop_lem (ops k) (in_lane k d) i (transpose_msg_vecs k) inputs input
          (message_lem k d inputs i h) c.0 c.1 (steps increment counter i) flags flags_end lo hi
          blocks 0 start (key_vecs (ops k) key)
        ∙ ap
            (λ cv.
              Portable.hash_one_loop blocks input cv (steps increment counter i) flags start
                flags_end)
            (key_vecs_lem (ops k) (in_lane k d) i key words eight))

  hash8_lem :
      (inputs : List (List ℕ)) (blocks counter : ℕ) (increment : Bool)
      (flags flags_start flags_end : ℕ)
      → let one = λ (i : ℕ).
        Portable.hash_one
          (get_or inputs i [])
          blocks
          key
          (steps increment counter i)
          flags
          flags_start
          flags_end in
        hash8 k inputs blocks key counter increment flags flags_start flags_end
        ≡ one 0 ∷ one 1 ∷ one 2 ∷ one 3 ∷ one 4 ∷ one 5 ∷ one 6 ∷ one 7 ∷ []
  unfolding hash8
  hash8_lem inputs blocks counter increment flags flags_start flags_end =
      let at_lane = lane_lem inputs blocks counter increment flags flags_start flags_end in
      let p0 = at_lane 0 (omega arith) in
      let p1 = at_lane 1 (omega arith) in
      let p2 = at_lane 2 (omega arith) in
      let p3 = at_lane 3 (omega arith) in
      let p4 = at_lane 4 (omega arith) in
      let p5 = at_lane 5 (omega arith) in
      let p6 = at_lane 6 (omega arith) in
      let p7 = at_lane 7 (omega arith) in
      stored_lem k d _ ∙ (λ j. p0 j ∷ p1 j ∷ p2 j ∷ p3 j ∷ p4 j ∷ p5 j ∷ p6 j ∷ p7 j ∷ [])

  module _ (sse : Sse.Intrinsics) (ds : Sse.Documented sse) (blocks : ℕ) (increment : Bool)
      (flags flags_start flags_end : ℕ) where
    -- Where the instructions do what their manual says, `blake3_hash_many_avx2`, which hashes
    -- eight inputs at a time and leaves the rest to `blake3_hash_many_sse41`, gives for a key of
    -- eight words and any inputs, numbers of blocks, flags and counters, incremented or not, what
    -- `blake3_hash_many_portable` gives.
    pub avx2_hash_many :
        (inputs : List (List ℕ)) (counter : ℕ)
        → hash_many k sse inputs blocks key counter increment flags flags_start flags_end
          ≡ Portable.hash_many inputs blocks key counter increment flags flags_start flags_end
    unfolding hash_many
    avx2_hash_many (x0 ∷ x1 ∷ x2 ∷ x3 ∷ x4 ∷ x5 ∷ x6 ∷ x7 ∷ inputs) counter =
        let first = x0 ∷ x1 ∷ x2 ∷ x3 ∷ x4 ∷ x5 ∷ x6 ∷ x7 ∷ inputs in
        ap₂ ◌++◌ (hash8_lem first blocks counter increment flags flags_start flags_end) (
          avx2_hash_many inputs (if increment then u64 (counter + 8) else counter)
          ∙ ap (λ c. Portable.hash_many inputs blocks key c increment flags flags_start flags_end)
              (steps_eight increment counter))
        ∙ unfold Portable.hash_many in refl
    avx2_hash_many [] counter =
        sse41_hash_many sse ds [] blocks key counter increment flags flags_start flags_end words
          eight
    avx2_hash_many (x0 ∷ []) counter =
        sse41_hash_many sse ds (x0 ∷ []) blocks key counter increment flags flags_start flags_end
          words eight
    avx2_hash_many (x0 ∷ x1 ∷ []) counter =
        sse41_hash_many sse ds (x0 ∷ x1 ∷ []) blocks key counter increment flags flags_start
          flags_end words eight
    avx2_hash_many (x0 ∷ x1 ∷ x2 ∷ []) counter =
        sse41_hash_many sse ds (x0 ∷ x1 ∷ x2 ∷ []) blocks key counter increment flags flags_start
          flags_end words eight
    avx2_hash_many (x0 ∷ x1 ∷ x2 ∷ x3 ∷ []) counter =
        sse41_hash_many sse ds (x0 ∷ x1 ∷ x2 ∷ x3 ∷ []) blocks key counter increment flags
          flags_start flags_end words eight
    avx2_hash_many (x0 ∷ x1 ∷ x2 ∷ x3 ∷ x4 ∷ []) counter =
        sse41_hash_many sse ds (x0 ∷ x1 ∷ x2 ∷ x3 ∷ x4 ∷ []) blocks key counter increment flags
          flags_start flags_end words eight
    avx2_hash_many (x0 ∷ x1 ∷ x2 ∷ x3 ∷ x4 ∷ x5 ∷ []) counter =
        sse41_hash_many sse ds (x0 ∷ x1 ∷ x2 ∷ x3 ∷ x4 ∷ x5 ∷ []) blocks key counter increment flags
          flags_start flags_end words eight
    avx2_hash_many (x0 ∷ x1 ∷ x2 ∷ x3 ∷ x4 ∷ x5 ∷ x6 ∷ []) counter =
        sse41_hash_many sse ds (x0 ∷ x1 ∷ x2 ∷ x3 ∷ x4 ∷ x5 ∷ x6 ∷ []) blocks key counter increment
          flags flags_start flags_end words eight
