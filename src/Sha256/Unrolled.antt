-- ===== src/Sha256/Unrolled.antt =====
-- rmr/crypto_freestanding140/addresses/H01/kernel/rmr_cf140_sha256_compress.c: the compression of
-- SHA-256 with every loop written out, over the words of rmr_cf140.h. The lines of the schedule and
-- of the rounds stand in tables here, with the numbers that the lines have: the fourth word of a line
-- of the schedule is `w[0]` in the first one. The rounds rotate the names of the eight variables, and
-- come back to the same order after eight.
use blake.Base.{ℕ, ◌+◌, ◌-◌, bit_and, bit_or, bit_xor, List, [], ◌∷◌, ◌++◌}
use blake.Base.{u32, ◌<<<◌, ◌>>>◌}
use blake.Impl.{at}
use blake.Sha256.{Eight, complement}

unfoldable pub rotr32 : ℕ → ℕ → ℕ
rotr32 x n = let s = bit_and n 31 in bit_or (x >>> s) (u32 (x <<< bit_and (32 - s) 31))

unfoldable pub load32_be : List ℕ → ℕ → ℕ
load32_be src i =
    bit_or
      (bit_or (bit_or (u32 (at src i <<< 24)) (u32 (at src (i + 1) <<< 16)))
        (u32 (at src (i + 2) <<< 8)))
      (at src (i + 3))

unfoldable pub ch : ℕ → ℕ → ℕ → ℕ
ch x y z = bit_xor (bit_and x y) (bit_and (complement x) z)

unfoldable pub maj : ℕ → ℕ → ℕ → ℕ
maj x y z = bit_xor (bit_xor (bit_and x y) (bit_and x z)) (bit_and y z)

unfoldable pub bsig0 : ℕ → ℕ
unfolding rotr32
bsig0 x = bit_xor (bit_xor (rotr32 x 2) (rotr32 x 13)) (rotr32 x 22)

unfoldable pub bsig1 : ℕ → ℕ
unfolding rotr32
bsig1 x = bit_xor (bit_xor (rotr32 x 6) (rotr32 x 11)) (rotr32 x 25)

unfoldable pub ssig0 : ℕ → ℕ
unfolding rotr32
ssig0 x = bit_xor (bit_xor (rotr32 x 7) (rotr32 x 18)) (x >>> 3)

unfoldable pub ssig1 : ℕ → ℕ
unfolding rotr32
ssig1 x = bit_xor (bit_xor (rotr32 x 17) (rotr32 x 19)) (x >>> 10)

-- What `RMR_CF_ROUND` leaves in `d` and in `h`.
unfoldable pub round_macro : ℕ → ℕ → ℕ → ℕ → ℕ → ℕ → ℕ → ℕ → ℕ → ℕ → ℕ × ℕ
unfolding bsig0 bsig1 ch maj
round_macro a b c d e f g h k wv =
    let t1 = u32 (h + bsig1 e + ch e f g + k + wv) in
    let t2 = u32 (bsig0 a + maj a b c) in (u32 (d + t1), u32 (t1 + t2))

-- `w[0]` to `w[15]`: the offsets in the block.
abbrev pub loads : List ℕ
loads = 0 ∷ 4 ∷ 8 ∷ 12 ∷ 16 ∷ 20 ∷ 24 ∷ 28 ∷ 32 ∷ 36 ∷ 40 ∷ 44 ∷ 48 ∷ 52 ∷ 56 ∷ 60 ∷ []

-- `w[16]` to `w[63]`: the words that each line reads, in the order of the line.
abbrev pub lines : List (ℕ × ℕ × ℕ × ℕ)
lines =
    (14, 9, 1, 0)
    ∷ (15, 10, 2, 1)
    ∷ (16, 11, 3, 2)
    ∷ (17, 12, 4, 3)
    ∷ (18, 13, 5, 4)
    ∷ (19, 14, 6, 5)
    ∷ (20, 15, 7, 6)
    ∷ (21, 16, 8, 7)
    ∷ (22, 17, 9, 8)
    ∷ (23, 18, 10, 9)
    ∷ (24, 19, 11, 10)
    ∷ (25, 20, 12, 11)
    ∷ (26, 21, 13, 12)
    ∷ (27, 22, 14, 13)
    ∷ (28, 23, 15, 14)
    ∷ (29, 24, 16, 15)
    ∷ (30, 25, 17, 16)
    ∷ (31, 26, 18, 17)
    ∷ (32, 27, 19, 18)
    ∷ (33, 28, 20, 19)
    ∷ (34, 29, 21, 20)
    ∷ (35, 30, 22, 21)
    ∷ (36, 31, 23, 22)
    ∷ (37, 32, 24, 23)
    ∷ (38, 33, 25, 24)
    ∷ (39, 34, 26, 25)
    ∷ (40, 35, 27, 26)
    ∷ (41, 36, 28, 27)
    ∷ (42, 37, 29, 28)
    ∷ (43, 38, 30, 29)
    ∷ (44, 39, 31, 30)
    ∷ (45, 40, 32, 31)
    ∷ (46, 41, 33, 32)
    ∷ (47, 42, 34, 33)
    ∷ (48, 43, 35, 34)
    ∷ (49, 44, 36, 35)
    ∷ (50, 45, 37, 36)
    ∷ (51, 46, 38, 37)
    ∷ (52, 47, 39, 38)
    ∷ (53, 48, 40, 39)
    ∷ (54, 49, 41, 40)
    ∷ (55, 50, 42, 41)
    ∷ (56, 51, 43, 42)
    ∷ (57, 52, 44, 43)
    ∷ (58, 53, 45, 44)
    ∷ (59, 54, 46, 45)
    ∷ (60, 55, 47, 46)
    ∷ (61, 56, 48, 47)
    ∷ []

-- The constants of the 64 rounds.
unfoldable pub constants : List ℕ
constants =
    0x428a2f98 ∷ 0x71374491 ∷ 0xb5c0fbcf ∷ 0xe9b5dba5 ∷ 0x3956c25b ∷ 0x59f111f1 ∷ 0x923f82a4
    ∷ 0xab1c5ed5 ∷ 0xd807aa98 ∷ 0x12835b01 ∷ 0x243185be ∷ 0x550c7dc3 ∷ 0x72be5d74 ∷ 0x80deb1fe
    ∷ 0x9bdc06a7 ∷ 0xc19bf174 ∷ 0xe49b69c1 ∷ 0xefbe4786 ∷ 0x0fc19dc6 ∷ 0x240ca1cc ∷ 0x2de92c6f
    ∷ 0x4a7484aa ∷ 0x5cb0a9dc ∷ 0x76f988da ∷ 0x983e5152 ∷ 0xa831c66d ∷ 0xb00327c8 ∷ 0xbf597fc7
    ∷ 0xc6e00bf3 ∷ 0xd5a79147 ∷ 0x06ca6351 ∷ 0x14292967 ∷ 0x27b70a85 ∷ 0x2e1b2138 ∷ 0x4d2c6dfc
    ∷ 0x53380d13 ∷ 0x650a7354 ∷ 0x766a0abb ∷ 0x81c2c92e ∷ 0x92722c85 ∷ 0xa2bfe8a1 ∷ 0xa81a664b
    ∷ 0xc24b8b70 ∷ 0xc76c51a3 ∷ 0xd192e819 ∷ 0xd6990624 ∷ 0xf40e3585 ∷ 0x106aa070 ∷ 0x19a4c116
    ∷ 0x1e376c08 ∷ 0x2748774c ∷ 0x34b0bcb5 ∷ 0x391c0cb3 ∷ 0x4ed8aa4a ∷ 0x5b9cca4f ∷ 0x682e6ff3
    ∷ 0x748f82ee ∷ 0x78a5636f ∷ 0x84c87814 ∷ 0x8cc70208 ∷ 0x90befffa ∷ 0xa4506ceb ∷ 0xbef9a3f7
    ∷ 0xc67178f2 ∷ []

unfoldable pub load_words : List ℕ → List ℕ → List ℕ
unfolding load32_be
load_words [] block = []
load_words (offset ∷ offsets) block = load32_be block offset ∷ load_words offsets block

-- The assignments of the lines, one after the other.
unfoldable pub assign : List (ℕ × ℕ × ℕ × ℕ) → List ℕ → List ℕ
unfolding ssig0 ssig1
assign [] w = w
assign ((p, q, r, s) ∷ rest) w =
    assign rest (w ++ (u32 (ssig1 (at w p) + at w q + ssig0 (at w r) + at w s) ∷ []))

-- Eight rounds from round `i` on.
unfoldable pub eight_rounds : ℕ → List ℕ → Eight → Eight
unfolding round_macro constants
eight_rounds i w v =
    let k = constants in
    let a = v.a in
    let b = v.b in
    let c = v.c in
    let d = v.d in
    let e = v.e in
    let f = v.f in
    let g = v.g in
    let h = v.h in
    let (d, h) = round_macro a b c d e f g h (at k (i + 0)) (at w (i + 0)) in
    let (c, g) = round_macro h a b c d e f g (at k (i + 1)) (at w (i + 1)) in
    let (b, f) = round_macro g h a b c d e f (at k (i + 2)) (at w (i + 2)) in
    let (a, e) = round_macro f g h a b c d e (at k (i + 3)) (at w (i + 3)) in
    let (h, d) = round_macro e f g h a b c d (at k (i + 4)) (at w (i + 4)) in
    let (g, c) = round_macro d e f g h a b c (at k (i + 5)) (at w (i + 5)) in
    let (f, b) = round_macro c d e f g h a b (at k (i + 6)) (at w (i + 6)) in
    let (e, a) = round_macro b c d e f g h a (at k (i + 7)) (at w (i + 7)) in
    record { a = a; b = b; c = c; d = d; e = e; f = f; g = g; h = h }

-- The 64 rounds.
unfoldable pub all_rounds : List ℕ → Eight → Eight
unfolding eight_rounds
all_rounds w v = eight_rounds 56 w (
    eight_rounds 48 w (
      eight_rounds 40 w (
        eight_rounds 32 w
          (eight_rounds 24 w (eight_rounds 16 w (eight_rounds 8 w (eight_rounds 0 w v)))))))

unfoldable pub compress_block : Eight → List ℕ → Eight
unfolding load_words assign all_rounds
compress_block state block =
    let v = all_rounds (assign lines (load_words loads block)) state in
    record {
      a = u32 (state.a + v.a);
      b = u32 (state.b + v.b);
      c = u32 (state.c + v.c);
      d = u32 (state.d + v.d);
      e = u32 (state.e + v.e);
      f = u32 (state.f + v.f);
      g = u32 (state.g + v.g);
      h = u32 (state.h + v.h);
    }

-- `rmr_cf_sha256_init`
unfoldable pub init : Eight
init = record {
  a = 0x6a09e667;
  b = 0xbb67ae85;
  c = 0x3c6ef372;
  d = 0xa54ff53a;
  e = 0x510e527f;
  f = 0x9b05688c;
  g = 0x1f83d9ab;
  h = 0x5be0cd19;
}
