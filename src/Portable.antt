-- ===== src/Portable.antt =====
-- c/blake3_portable.c: the compression function and the hashing of whole blocks in plain C.
-- An array of words or bytes is a list; a function that writes through a pointer returns what it
-- wrote. Sums of words wrap at 2 ^ 32 at each `+`.
pub mod Words
mod Tests
use blake.Base.{ℕ, zero, suc, ◌+◌, ◌-◌, ◌*◌, ◌^◌, bit_or, bit_xor}
use blake.Base.{
  List, [], ◌∷◌, ◌++◌, Bool, true, false, ◌==◌, if◌then◌else◌, get_or, set, take, drop,
}
use blake.Base.{u8, u32, u64, ◌<<<◌, ◌>>>◌}
use blake.Impl.{at, iv, msg_schedule, load_block_words, store_words, store_cv_words, block_len}
use blake.Impl.{counter_low, counter_high}

unfoldable pub rotr32 : ℕ → ℕ → ℕ
rotr32 w c = bit_or (w >>> c) (u32 (w <<< (32 - c)))

-- `state[i] = state[i] + state[j] + z`, with two wrapping sums.
unfoldable pub add_to : List ℕ → ℕ → ℕ → ℕ → List ℕ
add_to state i j z = set state i (u32 (u32 (at state i + at state j) + z))

-- `state[i] = rotr32(state[i] ^ state[j], c)`
unfoldable pub mix_to : List ℕ → ℕ → ℕ → ℕ → List ℕ
mix_to state i j c = set state i (rotr32 (bit_xor (at state i) (at state j)) c)

-- The sums `state[c] + state[d]` of the source have no third term: it is 0 here.
unfoldable pub g : List ℕ → ℕ → ℕ → ℕ → ℕ → ℕ → ℕ → List ℕ
g state a b c d x y =
    let s1 = add_to state a b x in
    let s2 = mix_to s1 d a 16 in
    let s3 = add_to s2 c d 0 in
    let s4 = mix_to s3 b c 12 in
    let s5 = add_to s4 a b y in
    let s6 = mix_to s5 d a 8 in let s7 = add_to s6 c d 0 in mix_to s7 b c 7

unfoldable pub round_fn : List ℕ → List ℕ → ℕ → List ℕ
round_fn state msg round =
    let schedule = get_or msg_schedule round [] in
    let m = λ (i : ℕ). at msg (at schedule i) in
    -- Mix the columns.
    let s1 = g state 0 4 8 12 (m 0) (m 1) in
    let s2 = g s1 1 5 9 13 (m 2) (m 3) in
    let s3 = g s2 2 6 10 14 (m 4) (m 5) in
    let s4 = g s3 3 7 11 15 (m 6) (m 7) in
    -- Mix the rows.
    let s5 = g s4 0 5 10 15 (m 8) (m 9) in
    let s6 = g s5 1 6 11 12 (m 10) (m 11) in
    let s7 = g s6 2 7 8 13 (m 12) (m 13) in g s7 3 4 9 14 (m 14) (m 15)

-- `state[0..16)` before the rounds.
unfoldable pub initial_state : List ℕ → ℕ → ℕ → ℕ → List ℕ
initial_state cv len counter flags =
    at cv 0
    ∷ at cv 1
    ∷ at cv 2
    ∷ at cv 3
    ∷ at cv 4
    ∷ at cv 5
    ∷ at cv 6
    ∷ at cv 7
    ∷ at iv 0
    ∷ at iv 1
    ∷ at iv 2
    ∷ at iv 3
    ∷ counter_low counter
    ∷ counter_high counter
    ∷ u32 len
    ∷ u32 flags
    ∷ []

unfoldable pub compress_pre : List ℕ → List ℕ → ℕ → ℕ → ℕ → List ℕ
compress_pre cv block len counter flags =
    let block_words = load_block_words block in
    let s0 = round_fn (initial_state cv len counter flags) block_words 0 in
    let s1 = round_fn s0 block_words 1 in
    let s2 = round_fn s1 block_words 2 in
    let s3 = round_fn s2 block_words 3 in
    let s4 = round_fn s3 block_words 4 in
    let s5 = round_fn s4 block_words 5 in round_fn s5 block_words 6

-- `xs[i] ^ ys[i]` for as many indices as asked for, from `i` and `j` on.
unfoldable pub xor_words : ℕ → List ℕ → ℕ → List ℕ → ℕ → List ℕ
xor_words zero xs i ys j = []
xor_words (suc n) xs i ys j = bit_xor (at xs i) (at ys j) ∷ xor_words n xs (i + 1) ys (j + 1)

unfoldable pub compress_in_place : List ℕ → List ℕ → ℕ → ℕ → ℕ → List ℕ
compress_in_place cv block len counter flags =
    let state = compress_pre cv block len counter flags in xor_words 8 state 0 state 8

unfoldable pub compress_xof : List ℕ → List ℕ → ℕ → ℕ → ℕ → List ℕ
compress_xof cv block len counter flags =
    let state = compress_pre cv block len counter flags in
    store_words (xor_words 8 state 0 state 8 ++ xor_words 8 state 8 cv 0)

-- The loop of `hash_one_portable`: `blocks` rounds are left, and the input has that many blocks.
unfoldable pub hash_one_loop : ℕ → List ℕ → List ℕ → ℕ → ℕ → ℕ → ℕ → List ℕ
hash_one_loop zero input cv counter flags block_flags flags_end = cv
hash_one_loop (suc blocks) input cv counter flags block_flags flags_end =
    let last = if suc blocks == 1 then bit_or block_flags flags_end else block_flags in
    hash_one_loop blocks (drop block_len input)
      (compress_in_place cv (take block_len input) block_len counter last) counter flags flags
      flags_end

unfoldable pub hash_one : List ℕ → ℕ → List ℕ → ℕ → ℕ → ℕ → ℕ → List ℕ
hash_one input blocks key counter flags flags_start flags_end =
    store_cv_words
      (hash_one_loop blocks input key counter flags (bit_or flags flags_start) flags_end)

-- The 32-byte outputs in order, one for each input.
unfoldable pub hash_many : List (List ℕ) → ℕ → List ℕ → ℕ → Bool → ℕ → ℕ → ℕ → List (List ℕ)
hash_many [] blocks key counter increment_counter flags flags_start flags_end = []
hash_many (input ∷ inputs) blocks key counter increment_counter flags flags_start flags_end =
    hash_one input blocks key counter flags flags_start flags_end
    ∷ hash_many inputs blocks key (if increment_counter then u64 (counter + 1) else counter)
        increment_counter flags flags_start flags_end
