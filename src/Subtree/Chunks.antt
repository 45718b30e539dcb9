-- ===== src/Subtree/Chunks.antt =====
-- `compress_chunks_parallel`: the chaining values of the chunks of an input, the last one partial
-- or not.
use blake.Base.{ℕ, zero, suc, ◌+◌, ◌*◌, ◌^◌, ◌≤◌, ◌<◌, ◌≡◌, refl, sym, ap, ◌∙◌, arith}
use blake.Base.{List, [], ◌∷◌, ◌++◌, map, map_append, append-nil, length, take, drop, All, u64}
use blake.Base.{length-take, length-drop, take-append-drop}
use blake.Base.{le→leb, gt→leb, lt→ltb, ge→ltb, le-or-gt, inl, inr, some, empty_of_length}
use blake.Impl.{chunk_len}
use blake.Backend.{Backend}
use blake.Backend.Lawful.{IsLawful}
use blake.Output.{chaining_value}
use blake.Chunk.{init, output}
use blake.Chunk.Spec.{chunk_output}
use blake.Chunk.Holds.{init-Holds, output-Holds}
use blake.Chunk.Update.{update-Holds}
use blake.Subtree.{whole_chunks, partial_chunk, compress_chunks_parallel}
use blake.Tree.{pieces, outputs, leaves}
use blake.Tree.Leaves.{pieces-cons, leaves-short, leaves-nil, outputs-append}
use native.Mathlib.Nat.{mod-eq_of_lt}

-- The whole chunks and the rest are the pieces of the input.
record AreChunks (input : List ℕ) (u : List (List ℕ) × List ℕ) : Type 0 where
  whole : All (λ chunk. length chunk ≡ chunk_len) u.0
  short : length u.1 < chunk_len
  in_order : pieces input ≡ u.0 ++ pieces u.1
  counted : length u.0 * chunk_len + length u.1 ≡ length input

whole_chunks-AreChunks :
    (fuel : ℕ) (input : List ℕ) → length input ≤ fuel → AreChunks input (whole_chunks fuel input)
unfolding whole_chunks
whole_chunks-AreChunks zero input h = record {
  whole = tt;
  short = omega arith;
  in_order = refl;
  counted = omega arith;
}
whole_chunks-AreChunks (suc fuel) input h = elim (le-or-gt chunk_len (length input)) [
  | inl more ↦
      rw (le→leb chunk_len (length input) more, whole_chunks)
        (let d = drop chunk_len input in
          let ld = length-drop chunk_len input in
          let lt : length (take chunk_len input) ≡ chunk_len =
            omega (arith, length-take chunk_len input) in
          let v = whole_chunks-AreChunks fuel d (omega arith) in
          record {
            whole = (lt, v.whole);
            short = v.short;
            in_order =
                ap pieces (sym (take-append-drop chunk_len input))
                ∙ pieces-cons (take chunk_len input) d lt
                ∙ ap (λ t. take chunk_len input ∷ t) v.in_order;
            counted = omega (arith, v.counted);
          })
  | inr less ↦
      rw (gt→leb chunk_len (length input) less, whole_chunks)
        (record { whole = tt; short = less; in_order = refl; counted = omega arith })
]

module _ (b : Backend) (lawful : IsLawful b) (key : List ℕ) (flags : ℕ) where
  pub partial_chunk-output :
      (rest : List ℕ) (counter : ℕ)
      → length rest ≤ 1024
      → output (partial_chunk b key flags rest counter) ≡ chunk_output b key flags counter rest
  unfolding partial_chunk init
  partial_chunk-output rest counter h =
      let s = record (init key flags) { chunk_counter = counter } in
      output-Holds b key counter flags _ rest (
        update-Holds b key counter flags s [] rest (omega arith)
          (init-Holds b key counter flags s refl refl refl refl refl refl))

  leaves-AreChunks :
      (input : List ℕ) (counter : ℕ) (u : List (List ℕ) × List ℕ)
      → AreChunks input u
      → leaves b key flags counter input
        ≡ outputs b key flags counter u.0 ++ leaves b key flags (counter + length u.0) u.1
  unfolding leaves
  leaves-AreChunks input counter u v =
      ap (outputs b key flags counter) v.in_order
      ∙ outputs-append b key flags counter u.0 (pieces u.1)

  -- With a lawful back end, a batch of at most 16 chunks, the last one partial or not, is hashed
  -- to the chaining values of its chunks in order, each with its number, as long as chunk counter
  -- and length together stay below 2^64.
  pub compress_chunks_parallel_lem :
      (input : List ℕ) (counter : ℕ)
      → length input ≤ 16 * chunk_len
      → counter + length input < 2 ^ 64
      → compress_chunks_parallel b key flags input counter
        ≡ some (map (chaining_value b) (leaves b key flags counter input))
  unfolding compress_chunks_parallel
  compress_chunks_parallel_lem input counter h bound =
      let u = whole_chunks (length input) input in
      let v = whole_chunks-AreChunks (length input) input (omega arith) in
      let n : ℕ = length u.0 in
      let few : length u.0 ≤ 16 = omega (arith, v.counted) in
      let batch = lawful.hash_chunks key counter flags u.0 v.whole (omega (arith, v.counted)) in
      let small : u64 (counter + length u.0) ≡ counter + length u.0 =
        mod-eq_of_lt {n = counter + length u.0} {m = 2 ^ 64} (omega (arith, v.counted)) in
      let e = leaves-AreChunks input counter u v in
      elim (le-or-gt (length u.1) 0) [
        | inl none_left ↦
            let nil : u.1 ≡ [] = empty_of_length u.1 (omega arith) in
            rw (
              le→leb (length u.0) 16 few,
              ge→ltb 0 (length u.1) none_left,
              batch,
              e,
              nil,
              leaves-nil,
              append-nil,
            )
        | inr left ↦ rw (
          le→leb (length u.0) 16 few,
          lt→ltb 0 (length u.1) left,
          batch,
          e,
          small,
          partial_chunk-output u.1 (counter + length u.0) (omega (arith, v.short)),
          leaves-short b key flags (counter + length u.0) u.1 left (omega (arith, v.short)),
          map_append,
        )
      ]
