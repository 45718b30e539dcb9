-- ===== src/Impl.antt =====
-- c/blake3_impl.h and the constants of c/blake3.h: the flags, the tables, the integer helpers and
-- the little-endian loads and stores. Of the helpers with a compiler builtin the portable branch
-- of the conditional compilation is modelled.
pub mod Integers
pub mod Ones
pub mod Bytes
use blake.Base.{ℕ, zero, suc, ◌+◌, ◌-◌, ◌*◌, ◌/◌, ◌%◌, ◌^◌, bit_and, bit_or}
use blake.Base.{List, [], ◌∷◌, ◌++◌, Bool, true, false, ◌==◌, if◌then◌else◌, get_or}
use blake.Base.{u8, u32, u64, ◌<<<◌, ◌>>>◌}

abbrev pub key_len : ℕ
key_len = 32

abbrev pub out_len : ℕ
out_len = 32

abbrev pub block_len : ℕ
block_len = 64

abbrev pub chunk_len : ℕ
chunk_len = 1024

abbrev pub max_depth : ℕ
max_depth = 54

-- `enum blake3_flags`
abbrev pub chunk_start : ℕ
chunk_start = 1

abbrev pub chunk_end : ℕ
chunk_end = 2

abbrev pub parent : ℕ
parent = 4

abbrev pub root : ℕ
root = 8

abbrev pub keyed_hash : ℕ
keyed_hash = 16

abbrev pub derive_key_context : ℕ
derive_key_context = 32

abbrev pub derive_key_material : ℕ
derive_key_material = 64

abbrev pub iv : List ℕ
iv =
    0x6A09E667 ∷ 0xBB67AE85 ∷ 0x3C6EF372 ∷ 0xA54FF53A ∷ 0x510E527F ∷ 0x9B05688C ∷ 0x1F83D9AB
    ∷ 0x5BE0CD19 ∷ []

abbrev pub msg_schedule : List (List ℕ)
msg_schedule =
    (0 ∷ 1 ∷ 2 ∷ 3 ∷ 4 ∷ 5 ∷ 6 ∷ 7 ∷ 8 ∷ 9 ∷ 10 ∷ 11 ∷ 12 ∷ 13 ∷ 14 ∷ 15 ∷ [])
    ∷ (2 ∷ 6 ∷ 3 ∷ 10 ∷ 7 ∷ 0 ∷ 4 ∷ 13 ∷ 1 ∷ 11 ∷ 12 ∷ 5 ∷ 9 ∷ 14 ∷ 15 ∷ 8 ∷ [])
    ∷ (3 ∷ 4 ∷ 10 ∷ 12 ∷ 13 ∷ 2 ∷ 7 ∷ 14 ∷ 6 ∷ 5 ∷ 9 ∷ 0 ∷ 11 ∷ 15 ∷ 8 ∷ 1 ∷ [])
    ∷ (10 ∷ 7 ∷ 12 ∷ 9 ∷ 14 ∷ 3 ∷ 13 ∷ 15 ∷ 4 ∷ 0 ∷ 11 ∷ 2 ∷ 5 ∷ 8 ∷ 1 ∷ 6 ∷ [])
    ∷ (12 ∷ 13 ∷ 9 ∷ 11 ∷ 15 ∷ 10 ∷ 14 ∷ 8 ∷ 7 ∷ 2 ∷ 5 ∷ 3 ∷ 0 ∷ 1 ∷ 6 ∷ 4 ∷ [])
    ∷ (9 ∷ 14 ∷ 11 ∷ 5 ∷ 8 ∷ 12 ∷ 15 ∷ 1 ∷ 13 ∷ 3 ∷ 0 ∷ 10 ∷ 2 ∷ 6 ∷ 4 ∷ 7 ∷ [])
    ∷ (11 ∷ 15 ∷ 5 ∷ 0 ∷ 1 ∷ 9 ∷ 8 ∷ 6 ∷ 14 ∷ 10 ∷ 2 ∷ 12 ∷ 3 ∷ 4 ∷ 7 ∷ 13 ∷ [])
    ∷ []

-- `if(x & mask) { x >>= s; c += s; }`
unfoldable pub narrow : ℕ → ℕ → ℕ × ℕ → ℕ × ℕ
narrow mask s (x, c) = if bit_and x mask == 0 then (x, c) else (x >>> s, c + s)

unfoldable pub highest_one : ℕ → ℕ
unfolding narrow
highest_one x0 =
    let s1 = narrow 0xffffffff00000000 32 (x0, 0) in
    let s2 = narrow 0x00000000ffff0000 16 s1 in
    let s3 = narrow 0x000000000000ff00 8 s2 in
    let s4 = narrow 0x00000000000000f0 4 s3 in
    let s5 = narrow 0x000000000000000c 2 s4 in
    let (x, c) = s5 in if bit_and x 0x0000000000000002 == 0 then c else c + 1

-- `while (x != 0) { count += 1; x &= x - 1; }`, with the rounds left as fuel. A uint64_t has at
-- most 64 ones, and a round clears one, so 64 rounds are enough.
unfoldable pub popcnt_loop : ℕ → ℕ → ℕ → ℕ
popcnt_loop zero x count = count
popcnt_loop (suc fuel) x count = elim (x == 0) [
  | true ↦ count
  | false ↦ popcnt_loop fuel (bit_and x (x - 1)) (count + 1)
]

unfoldable pub popcnt : ℕ → ℕ
unfolding popcnt_loop
popcnt x = popcnt_loop 64 x 0

unfoldable pub round_down_to_power_of_2 : ℕ → ℕ
unfolding highest_one
round_down_to_power_of_2 x = u64 (1 <<< highest_one (bit_or x 1))

unfoldable pub counter_low : ℕ → ℕ
counter_low counter = u32 counter

unfoldable pub counter_high : ℕ → ℕ
counter_high counter = u32 (counter >>> 32)

-- The byte at an index of an array.
abbrev pub at : List ℕ → ℕ → ℕ
at p i = get_or p i 0

-- The four bytes of `p` from index `i` on; a byte past the end of the list is 0.
unfoldable pub load32 : List ℕ → ℕ → ℕ
load32 p i =
    bit_or
      (bit_or (bit_or (u32 (at p i <<< 0)) (u32 (at p (i + 1) <<< 8))) (u32 (at p (i + 2) <<< 16)))
      (u32 (at p (i + 3) <<< 24))

-- The words from index `i` on, as many as asked for.
unfoldable pub load_words : ℕ → List ℕ → ℕ → List ℕ
unfolding load32
load_words zero p i = []
load_words (suc n) p i = load32 p i ∷ load_words n p (i + 4)

unfoldable pub load_key_words : List ℕ → List ℕ
unfolding load_words
load_key_words key = load_words 8 key 0

unfoldable pub load_block_words : List ℕ → List ℕ
unfolding load_words
load_block_words block = load_words 16 block 0

-- The four bytes that are written.
unfoldable pub store32 : ℕ → List ℕ
store32 w = u8 (w >>> 0) ∷ u8 (w >>> 8) ∷ u8 (w >>> 16) ∷ u8 (w >>> 24) ∷ []

unfoldable pub store_words : List ℕ → List ℕ
unfolding store32
store_words [] = []
store_words (w ∷ ws) = store32 w ++ store_words ws

unfoldable pub store_cv_words : List ℕ → List ℕ
unfolding store_words
store_cv_words cv_words = store_words cv_words
