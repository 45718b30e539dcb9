-- ===== src/Portable/Tests.antt =====
-- The root compression of the empty input, in its first output bytes.
use blake.Base.{[], ◌∷◌, replicate, ◌≡◌, refl, take}
use blake.Impl.{iv, load_block_words, load_words, load32, store_words, store32}
use blake.Impl.{counter_low, counter_high}
use blake.Portable.{compress_xof, xor_words, compress_pre, round_fn, g, mix_to, add_to}
use blake.Portable.{initial_state, rotr32}

empty_digest : take 4 (compress_xof iv (replicate 64 0) 0 0 11) ≡ 0xaf ∷ 0x13 ∷ 0x49 ∷ 0xb9 ∷ []
unfolding compress_xof xor_words compress_pre round_fn g mix_to add_to initial_state rotr32
    load_block_words load_words load32 store_words store32 counter_low counter_high
empty_digest = refl
