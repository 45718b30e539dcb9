-- ===== src/Sse/HashMany.antt =====
-- `blake3_hash_many` of the two files hashes every input as the portable code does.
use blake.Base.{
  ℕ, zero, suc, ◌+◌, ◌<◌, bit_or, ◌≡◌, refl, ap, ap₂, ◌∙◌, arith, List, [], ◌∷◌, ◌++◌, Bool, true,
  false, drop, take, get_or, ◌==◌, if◌then◌else◌, All, IsWord, length, u64,
}
use blake.Impl.{store_cv_words, block_len}
use blake.Portable
use blake.Portable.Words.{compress_in_place-Words}
use blake.Sse.{Intrinsics, Documented}
use blake.Sse.Rows.{Variant}
use blake.Sse.Lanes.{IsVariant}
use blake.Sse.Compress.{compress_in_place_lem}
use blake.Sse.Counters.{steps, load_counters_lem}
use blake.Sse.Many.{
  ops, transpose_msg_vecs, load_counters, hash4, hash_one_loop, hash_one, hash_rest, hash_many,
}
use blake.Sse.Hash4.{in_lane, message_lem, output, store_outputs_lem}
use blake.Wide.{key_vecs, block_loop}
use blake.Wide.Loop.{key_vecs_lem, block_loop_lem}

-- Four increments, with a wrap at each or at the end.
steps_four :
    (increment : Bool) (c : ℕ) → (if increment then u64 (c + 4) else c) ≡ steps increment c 4
steps_four true c = omega arith
steps_four false c = refl

module _ (k : Intrinsics) (d : Documented k) (t : Variant k) (v : IsVariant k d t) where
  hash_one_loop_lem :
      (n : ℕ) (input cv : List ℕ) (counter flags block_flags flags_end : ℕ)
      → All IsWord cv
      → hash_one_loop k t n input cv counter flags block_flags flags_end
        ≡ Portable.hash_one_loop n input cv counter flags block_flags flags_end
  unfolding hash_one_loop Portable.hash_one_loop
  hash_one_loop_lem zero input cv counter flags block_flags flags_end h = refl
  hash_one_loop_lem (suc n) input cv counter flags block_flags flags_end h =
      let last = if suc n == 1 then bit_or block_flags flags_end else block_flags in
      let block = take block_len input in
      let next = Portable.compress_in_place cv block block_len counter last in
      ap (λ x. hash_one_loop k t n (drop block_len input) x counter flags flags flags_end)
        (compress_in_place_lem k d t v cv block block_len counter last h)
      ∙ hash_one_loop_lem n (drop block_len input) next counter flags flags flags_end
          (compress_in_place-Words cv block block_len counter last h).0

  module _ (key : List ℕ) (words : All IsWord key) where
    hash_rest_lem :
        (inputs : List (List ℕ)) (blocks counter : ℕ) (increment : Bool)
        (flags flags_start flags_end : ℕ)
        → hash_rest k t inputs blocks key counter increment flags flags_start flags_end
          ≡ Portable.hash_many inputs blocks key counter increment flags flags_start flags_end
    unfolding hash_rest hash_one Portable.hash_many Portable.hash_one
    hash_rest_lem [] blocks counter increment flags flags_start flags_end = refl
    hash_rest_lem (input ∷ inputs) blocks counter increment flags flags_start flags_end =
        ap₂ ◌∷◌
          (ap store_cv_words (
            hash_one_loop_lem blocks input key counter flags (bit_or flags flags_start) flags_end
              words))
          (hash_rest_lem inputs blocks (if increment then u64 (counter + 1) else counter) increment
            flags flags_start flags_end)

    module _ (eight : length key ≡ 8) where
      -- The output of one of the four inputs.
      lane_lem :
          (inputs : List (List ℕ)) (blocks counter : ℕ) (increment : Bool)
          (flags flags_start flags_end i : ℕ)
          → i < 4
          → let c = load_counters k counter increment in
            output k d t v
              (block_loop
                (ops k t)
                (transpose_msg_vecs k)
                inputs
                c.0
                c.1
                flags
                flags_end
                blocks
                0
                (bit_or flags flags_start)
                (key_vecs (ops k t) key))
              i
            ≡ Portable.hash_one
                (get_or inputs i [])
                blocks
                key
                (steps increment counter i)
                flags
                flags_start
                flags_end
      unfolding Portable.hash_one
      lane_lem inputs blocks counter increment flags flags_start flags_end i h =
          let c = load_counters k counter increment in
          let (lo, hi) = load_counters_lem k d counter increment i h in
          ap store_cv_words (
            block_loop_lem (ops k t) (in_lane k d t v) i (transpose_msg_vecs k) inputs
              (get_or inputs i []) (message_lem k d t v inputs i h) c.0 c.1
              (steps increment counter i) flags flags_end lo hi blocks 0 (bit_or flags flags_start)
              (key_vecs (ops k t) key)
            ∙ ap
                (λ cv.
                  Portable.hash_one_loop blocks (get_or inputs i []) cv (steps increment counter i)
                    flags (bit_or flags flags_start) flags_end)
                (key_vecs_lem (ops k t) (in_lane k d t v) i key words eight))

      hash4_lem :
          (inputs : List (List ℕ)) (blocks counter : ℕ) (increment : Bool)
          (flags flags_start flags_end : ℕ)
          → let one = λ (i : ℕ).
            Portable.hash_one
              (get_or inputs i [])
              blocks
              key
              (steps increment counter i)
              flags
              flags_start
              flags_end in
            hash4 k t inputs blocks key counter increment flags flags_start flags_end
            ≡ one 0 ∷ one 1 ∷ one 2 ∷ one 3 ∷ []
      unfolding hash4
      hash4_lem inputs blocks counter increment flags flags_start flags_end =
          let at_lane = lane_lem inputs blocks counter increment flags flags_start flags_end in
          let p0 = at_lane 0 (omega arith) in
          let p1 = at_lane 1 (omega arith) in
          let p2 = at_lane 2 (omega arith) in
          let p3 = at_lane 3 (omega arith) in
          store_outputs_lem k d t v _ ∙ (λ j. p0 j ∷ p1 j ∷ p2 j ∷ p3 j ∷ [])

      -- Any number of inputs.
      pub hash_many_lem :
          (inputs : List (List ℕ)) (blocks counter : ℕ) (increment : Bool)
          (flags flags_start flags_end : ℕ)
          → hash_many k t inputs blocks key counter increment flags flags_start flags_end
            ≡ Portable.hash_many inputs blocks key counter increment flags flags_start flags_end
      unfolding hash_many
      hash_many_lem (x ∷ y ∷ z ∷ w ∷ inputs) blocks counter increment flags flags_start flags_end =
          ap₂ ◌++◌
            (hash4_lem (x ∷ y ∷ z ∷ w ∷ inputs) blocks counter increment flags flags_start
              flags_end)
            (hash_many_lem inputs blocks (if increment then u64 (counter + 4) else counter)
                increment flags flags_start flags_end
              ∙ ap
                  (λ c.
                    Portable.hash_many inputs blocks key c increment flags flags_start flags_end)
                  (steps_four increment counter))
          ∙ unfold Portable.hash_many in refl
      hash_many_lem [] blocks counter increment flags flags_start flags_end =
          hash_rest_lem [] blocks counter increment flags flags_start flags_end
      hash_many_lem (x ∷ []) blocks counter increment flags flags_start flags_end =
          hash_rest_lem (x ∷ []) blocks counter increment flags flags_start flags_end
      hash_many_lem (x ∷ y ∷ []) blocks counter increment flags flags_start flags_end =
          hash_rest_lem (x ∷ y ∷ []) blocks counter increment flags flags_start flags_end
      hash_many_lem (x ∷ y ∷ z ∷ []) blocks counter increment flags flags_start flags_end =
          hash_rest_lem (x ∷ y ∷ z ∷ []) blocks counter increment flags flags_start flags_end
