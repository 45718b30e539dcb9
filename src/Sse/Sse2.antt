-- ===== src/Sse/Sse2.antt =====
-- What c/blake3_sse2.c defines in its own way, and its functions.
use blake.Base.{ℕ, ◌-◌, List, Bool}
use blake.Sse.{Intrinsics}
use blake.Sse.Rows.{Variant, xorv}
use blake.Sse.Rows
use blake.Sse.Many

module _ (k : Intrinsics) where
  open k use {Vec}

  unfoldable pub rot16 : Vec → Vec
  rot16 x = k.shufflehi_epi16 (k.shufflelo_epi16 x 0xB1) 0xB1

  unfoldable pub rot8 : Vec → Vec
  unfolding xorv
  rot8 x = xorv k (k.srli_epi32 x 8) (k.slli_epi32 x (32 - 8))

  unfoldable pub blend_epi16 : Vec → Vec → ℕ → Vec
  blend_epi16 a b imm8 =
      let bits = k.set_epi16 0x80 0x40 0x20 0x10 0x08 0x04 0x02 0x01 in
      let mask = k.cmpeq_epi16 (k.and_si128 (k.set1_epi16 imm8) bits) bits in
      k.or_si128 (k.and_si128 mask b) (k.andnot_si128 mask a)

  abbrev pub sse2 : Variant k
  sse2 = record { rot16 = rot16; rot8 = rot8; blend_epi16 = blend_epi16 }

  unfoldable pub compress_in_place : List ℕ → List ℕ → ℕ → ℕ → ℕ → List ℕ
  compress_in_place = Rows.compress_in_place k sse2

  unfoldable pub compress_xof : List ℕ → List ℕ → ℕ → ℕ → ℕ → List ℕ
  compress_xof = Rows.compress_xof k sse2

  unfoldable pub hash_many : List (List ℕ) → ℕ → List ℕ → ℕ → Bool → ℕ → ℕ → ℕ → List (List ℕ)
  hash_many = Many.hash_many k sse2
