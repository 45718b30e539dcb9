-- ===== src/Backend/Portable.antt =====
-- The back end of a machine with no SIMD feature: what c/blake3_dispatch.c falls through to. It
-- meets the laws.
use blake.Base.{ℕ, zero, suc, ◌+◌, ◌-◌, ◌*◌, ◌^◌, ◌<◌, bit_or, ◌≡◌, refl, sym, ap, ap₂, ◌∙◌, arith}
use blake.Base.{List, [], ◌∷◌, ◌++◌, map, true, false, length, All, u64, take, drop, replicate}
use blake.Base.{take_all, length-drop, append-nil, ◌==◌}
use blake.Base.Bits.{bit_or-zero, lt-two-pow}
use blake.Impl.{chunk_start, chunk_end, parent, root, block_len, chunk_len, store_cv_words}
use blake.Backend.{Backend}
use blake.Backend.Lawful.{IsLawful, root_blocks}
use blake.Chunk.Spec.{start_flag, chunk_from, chunk_from_last, chunk_from_more, last_block, next_cv}
use blake.Chunk.Spec.{chunk_output}
use blake.Output.{Output, make_output, parent_output, chaining_value, root_block}
use blake.Portable.{compress_in_place, compress_xof, hash_one_loop, hash_one, hash_many}
use blake.Portable.Words.{compress_xof_lem, length-cv}
use blake.Tree.{outputs}
use native.Mathlib.Nat.{mod-eq_of_lt}

-- `for(size_t i = 0; i < outblocks; ++i)` of `blake3_xof_many`, from the counter `counter + i` on,
-- with `n` rounds left.
unfoldable pub xof_many_loop : List ℕ → List ℕ → ℕ → ℕ → ℕ → ℕ → List ℕ
xof_many_loop cv block len counter flags zero = []
xof_many_loop cv block len counter flags (suc n) =
    compress_xof cv block len (u64 counter) flags
    ++ xof_many_loop cv block len (counter + 1) flags n

unfoldable pub portable : Backend
portable = record {
  compress_in_place = compress_in_place;
  compress_xof = compress_xof;
  xof_many = xof_many_loop;
  hash_many = hash_many;
  simd_degree = 1;
}

or-nothing : (flags : ℕ) → bit_or flags 0 ≡ flags
or-nothing flags = bit_or-zero flags flags (lt-two-pow flags)

-- The compression that an output stands for.
abbrev final_cv : Output → List ℕ
final_cv o = compress_in_place o.input_cv o.block o.len o.counter o.flags

hash_one_loop-suc :
    (n : ℕ) (input cv : List ℕ) (counter flags block_flags flags_end : ℕ)
    → hash_one_loop (suc (suc n)) input cv counter flags block_flags flags_end
      ≡ hash_one_loop
          (suc n)
          (drop block_len input)
          (compress_in_place cv (take block_len input) block_len counter block_flags)
          counter
          flags
          flags
          flags_end
unfolding hash_one_loop
hash_one_loop-suc n input cv counter flags block_flags flags_end = rw (many n)
  where
    many : (k : ℕ) → (suc (suc k) == 1) ≡ false
    many k = ground arith

later_flag : (i : ℕ) → 0 ≡ start_flag (i + 1)
later_flag i = ground arith

next_cv-portable :
    (i : ℕ) (cv block : List ℕ) (counter flags : ℕ)
    → compress_in_place cv block block_len counter (bit_or flags (start_flag i))
      ≡ next_cv portable counter flags i cv block
unfolding next_cv portable
next_cv-portable i cv block counter flags = refl

hash_one_loop-chunk :
    (n i : ℕ) (input cv : List ℕ) (counter flags : ℕ)
    → length input ≡ suc n * block_len
    → hash_one_loop (suc n) input cv counter flags (bit_or flags (start_flag i)) chunk_end
      ≡ final_cv (chunk_from portable counter flags i cv input)
hash_one_loop-chunk zero i input cv counter flags e =
    unfold hash_one_loop last_block make_output in
    let full : block_len ≡ length input = omega arith in
    ap₂ (λ t n. compress_in_place cv t n counter (bit_or (bit_or flags (start_flag i)) chunk_end))
      (take_all block_len input (omega arith)
        ∙ sym (append-nil input)
        ∙ ap (λ (k : ℕ). input ++ replicate k 0) {x = 0} {y = block_len - length input}
            (omega arith))
      full
    ∙ sym (ap final_cv (chunk_from_last portable counter flags i cv input (omega arith)))
hash_one_loop-chunk (suc n) i input cv counter flags e =
    let t = take block_len input in
    let d = drop block_len input in
    hash_one_loop-suc n input cv counter flags (bit_or flags (start_flag i)) chunk_end
    ∙ ap₂ (λ v f. hash_one_loop (suc n) d v counter flags f chunk_end)
        (next_cv-portable i cv t counter flags)
        (sym (or-nothing flags) ∙ ap (bit_or flags) (later_flag i))
    ∙ hash_one_loop-chunk n (i + 1) d (next_cv portable counter flags i cv t) counter flags
        (omega (arith, length-drop block_len input))
    ∙ sym (ap final_cv (chunk_from_more portable counter flags i cv input (omega arith)))

-- A chunk of 16 blocks hashed in a batch.
hash_one-chunk :
    (key : List ℕ) (counter flags : ℕ) (input : List ℕ)
    → length input ≡ chunk_len
    → hash_one input 16 key counter flags chunk_start chunk_end
      ≡ chaining_value portable (chunk_output portable key flags counter input)
unfolding hash_one chaining_value chunk_output portable
hash_one-chunk key counter flags input e =
    ap store_cv_words (hash_one_loop-chunk 15 0 input key counter flags e)

hash_one-parent :
    (key : List ℕ) (flags : ℕ) (input : List ℕ)
    → length input ≡ block_len
    → hash_one input 1 key 0 (bit_or flags parent) 0 0
      ≡ chaining_value portable (parent_output input key flags)
unfolding hash_one hash_one_loop chaining_value parent_output portable
hash_one-parent key flags input e =
    ap₂ (λ t f. store_cv_words (compress_in_place key t block_len 0 f))
      (take_all block_len input (omega arith))
      (or-nothing (bit_or (bit_or flags parent) 0) ∙ or-nothing (bit_or flags parent))

-- The portable `hash_many` on whole chunks gives each one the chaining value of the chunk with its
-- number and the start and end flags, as long as the chunk counter does not wrap.
pub hash_many-chunks :
    (key : List ℕ) (counter flags : ℕ) (inputs : List (List ℕ))
    → All (λ input. length input ≡ chunk_len) inputs
    → counter + length inputs < 2 ^ 64
    → hash_many inputs 16 key counter true flags chunk_start chunk_end
      ≡ map (chaining_value portable) (outputs portable key flags counter inputs)
unfolding hash_many outputs
hash_many-chunks key counter flags [] h bound = refl
hash_many-chunks key counter flags (x ∷ xs) (hx, h) bound =
    ap₂ ◌∷◌ (hash_one-chunk key counter flags x hx) (
      ap (λ k. hash_many xs 16 key k true flags chunk_start chunk_end)
        (mod-eq_of_lt {n = counter + 1} {m = 2 ^ 64} (omega arith))
      ∙ hash_many-chunks key (counter + 1) flags xs h (omega arith))

-- The portable `hash_many` on blocks of 64 bytes, called as for parents, gives each one the chaining
-- value of the parent node with that message.
pub hash_many-parents :
    (key : List ℕ) (flags : ℕ) (inputs : List (List ℕ))
    → All (λ input. length input ≡ block_len) inputs
    → hash_many inputs 1 key 0 false (bit_or flags parent) 0 0
      ≡ map (λ input. chaining_value portable (parent_output input key flags)) inputs
unfolding hash_many
hash_many-parents key flags [] h = refl
hash_many-parents key flags (x ∷ xs) (hx, h) =
    ap₂ ◌∷◌ (hash_one-parent key flags x hx) (hash_many-parents key flags xs h)

xof_many_loop-blocks :
    (o : Output) (counter n : ℕ)
    → xof_many_loop o.input_cv o.block o.len counter (bit_or o.flags root) n
      ≡ root_blocks portable o counter n
unfolding xof_many_loop root_blocks root_block portable
xof_many_loop-blocks o counter zero = refl
xof_many_loop-blocks o counter (suc n) =
    ap (λ t. compress_xof o.input_cv o.block o.len (u64 counter) (bit_or o.flags root) ++ t)
      (xof_many_loop-blocks o (counter + 1) n)

-- The portable functions meet the laws that the hasher relies on: a batch of chunks or parents is
-- hashed one by one with the flags and counters of the tree, a batch of output blocks is the blocks
-- one by one, a chaining value has 32 bytes and
-- an output block 64, and there is one lane.
pub portable-IsLawful : IsLawful portable
unfolding portable root_block chaining_value
portable-IsLawful = record {
  cv_length = λ o. length-cv o.input_cv o.block o.len o.counter o.flags;
  xof_length =
      λ o counter. (compress_xof_lem o.input_cv o.block o.len counter (bit_or o.flags root)).1;
  xof_many_blocks = xof_many_loop-blocks;
  hash_chunks = hash_many-chunks;
  hash_parents = hash_many-parents;
  degree_log = 0;
  degree = refl;
  degree_bound = omega arith;
}
