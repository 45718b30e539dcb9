-- ===== src/Backend/OnWords.antt =====
-- The operations of a back end as C passes them their chaining value or key, an array `uint32_t[8]`:
-- with eight words in it, whatever list stands for the array.
use blake.Base.{
  ℕ, zero, suc, ◌+◌, ◌^◌, ◌≤◌, ◌≡◌, refl, sym, ap, ap₂, ◌∙◌, arith, List, [], ◌∷◌, ◌++◌, map,
  le→leb, gt→leb, le-or-gt, inl, inr, length, take, drop, u32, u64,
}
use blake.Impl.{block_len}
use blake.Backend.{Backend}
use blake.Backend.Lawful.{IsLawful, root_blocks}
use blake.Backend.Portable.{portable, portable-IsLawful}
use blake.Chunk.Spec.{fold_blocks, chunk_from, chunk_output, last_block, next_cv}
use blake.Output.{Output, make_output, parent_output, chaining_value, root_block}
use blake.Portable.Words.{Words, length-cv, compress_in_place-Words}
use blake.Tree.{outputs}

-- The first words of a list, with 0 for those that are missing.
unfoldable first_words : ℕ → List ℕ → List ℕ
first_words zero ws = []
first_words (suc n) [] = 0 ∷ first_words n []
first_words (suc n) (w ∷ ws) = u32 w ∷ first_words n ws

first_words-Words : (n : ℕ) (ws : List ℕ) → Words n (first_words n ws)
unfolding first_words
first_words-Words zero ws = (tt, refl)
first_words-Words (suc n) [] = let (h, e) = first_words-Words n [] in ((omega arith, h), ap suc e)
first_words-Words (suc n) (w ∷ ws) =
    let (h, e) = first_words-Words n ws in ((omega arith, h), ap suc e)

first_words-all : (n : ℕ) (ws : List ℕ) → Words n ws → first_words n ws ≡ ws
unfolding first_words
first_words-all zero [] h = refl
first_words-all zero (w ∷ ws) h = absurd (omega (arith, h.1))
first_words-all (suc n) [] h = absurd (omega (arith, h.1))
first_words-all (suc n) (w ∷ ws) ((b, h), e) =
    ap₂ ◌∷◌ (omega arith) (first_words-all n ws (h, omega arith))

unfoldable pub eight_words : List ℕ → List ℕ
unfolding first_words
eight_words = first_words 8

pub eight_words-Words : (ws : List ℕ) → Words 8 (eight_words ws)
unfolding eight_words
eight_words-Words = first_words-Words 8

eight_words-all : (ws : List ℕ) → Words 8 ws → eight_words ws ≡ ws
unfolding eight_words
eight_words-all = first_words-all 8

unfoldable pub on_words : Backend → Backend
on_words b = record {
  compress_in_place = λ cv. b.compress_in_place (eight_words cv);
  compress_xof = λ cv. b.compress_xof (eight_words cv);
  xof_many = λ cv. b.xof_many (eight_words cv);
  hash_many = λ inputs blocks key. b.hash_many inputs blocks (eight_words key);
  simd_degree = b.simd_degree;
}

abbrev words : Backend
words = on_words portable

root_blocks-words :
    (o : Output) (counter n : ℕ)
    → root_blocks portable (record o { input_cv = eight_words o.input_cv }) counter n
      ≡ root_blocks words o counter n
unfolding root_blocks root_block portable on_words
root_blocks-words o counter zero = refl
root_blocks-words o counter (suc n) =
    ap (λ t. root_block words o (u64 counter) ++ t) (root_blocks-words o (counter + 1) n)

chaining_value-last :
    (counter flags i : ℕ) (cv r : List ℕ)
    → chaining_value words (last_block words counter flags i cv r)
      ≡ chaining_value portable (last_block portable counter flags i (eight_words cv) r)
unfolding chaining_value last_block make_output on_words portable
chaining_value-last counter flags i cv r = refl

-- After a block there are eight words again.
next_cv-words :
    (counter flags i : ℕ) (cv block : List ℕ)
    → eight_words (next_cv words counter flags i cv block)
      ≡ next_cv portable counter flags i (eight_words cv) block
unfolding next_cv on_words portable
next_cv-words counter flags i cv block =
    eight_words-all _
      (compress_in_place-Words (eight_words cv) block _ _ _ (eight_words-Words cv).0)

chaining_value-fold_blocks :
    (fuel counter flags i : ℕ) (cv r : List ℕ)
    → chaining_value words (fold_blocks words counter flags fuel i cv r)
      ≡ chaining_value portable (fold_blocks portable counter flags fuel i (eight_words cv) r)
unfolding fold_blocks
chaining_value-fold_blocks zero counter flags i cv r = chaining_value-last counter flags i cv r
chaining_value-fold_blocks (suc fuel) counter flags i cv r = elim (le-or-gt (length r) block_len) [
  | inl fits ↦
      rw (le→leb (length r) block_len fits, fold_blocks) (chaining_value-last counter flags i cv r)
  | inr over ↦
      rw (gt→leb (length r) block_len over, fold_blocks)
        (chaining_value-fold_blocks fuel counter flags (i + 1) _ (drop block_len r)
          ∙ ap
              (λ v.
                chaining_value portable
                  (fold_blocks portable counter flags fuel (i + 1) v (drop block_len r)))
              (next_cv-words counter flags i cv (take block_len r)))
]

chaining_values :
    (key : List ℕ) (flags counter : ℕ) (inputs : List (List ℕ))
    → map (chaining_value portable) (outputs portable (eight_words key) flags counter inputs)
      ≡ map (chaining_value words) (outputs words key flags counter inputs)
unfolding outputs chunk_output chunk_from
chaining_values key flags counter [] = refl
chaining_values key flags counter (x ∷ xs) =
    ap₂ ◌∷◌ (sym (chaining_value-fold_blocks (length x) counter flags 0 key x))
      (chaining_values key flags (counter + 1) xs)

parent_values :
    (key : List ℕ) (flags : ℕ) (inputs : List (List ℕ))
    → map (λ input. chaining_value portable (parent_output input (eight_words key) flags)) inputs
      ≡ map (λ input. chaining_value words (parent_output input key flags)) inputs
unfolding chaining_value parent_output make_output on_words portable
parent_values key flags inputs = refl

-- The portable operations on words, in batches of `degree` lanes.
unfoldable pub on_lanes : ℕ → Backend
unfolding on_words portable
on_lanes degree = record (on_words portable) { simd_degree = degree }

pub on_lanes-IsLawful : (j : ℕ) → j ≤ 4 → IsLawful (on_lanes (2 ^ j))
unfolding on_lanes on_words portable root_blocks chaining_value root_block outputs chunk_output
    chunk_from last_block next_cv
on_lanes-IsLawful j h =
    let v = portable-IsLawful in
    record {
      cv_length = λ o. length-cv (eight_words o.input_cv) o.block o.len o.counter o.flags;
      xof_length =
          λ o counter. v.xof_length (record o { input_cv = eight_words o.input_cv }) counter;
      xof_many_blocks = λ o counter n.
          v.xof_many_blocks (record o { input_cv = eight_words o.input_cv }) counter n
          ∙ root_blocks-words o counter n;
      hash_chunks = λ key counter flags inputs whole bound.
          v.hash_chunks (eight_words key) counter flags inputs whole bound
          ∙ chaining_values key flags counter inputs;
      hash_parents = λ key flags inputs whole.
          v.hash_parents (eight_words key) flags inputs whole ∙ parent_values key flags inputs;
      degree_log = j;
      degree = refl;
      degree_bound = h;
    }
