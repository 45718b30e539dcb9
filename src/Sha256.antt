-- ===== src/Sha256.antt =====
-- rmr/core/hash_sha256.c: SHA-256 with loops, over a state of eight words and a buffer of 64 bytes.
pub mod Unrolled
pub mod Agree
pub mod Blocks
pub mod Padding
mod Tests
use blake.Base.{ℕ, zero, suc, ◌+◌, ◌-◌, ◌*◌, ◌^◌, bit_and, bit_or, bit_xor, List, [], ◌∷◌, ◌++◌}
use blake.Base.{◌==◌, if◌then◌else◌, length, set, u8, u64, Option, none, some, ◌>>=◌, true, false}
use blake.Base.{get_or, u32, ◌<<<◌, ◌>>>◌}
use blake.Impl.{at}

-- The eight words of a state, and the eight variables of a compression.
pub record Eight : Type 0 where
  pub a : ℕ
  pub b : ℕ
  pub c : ℕ
  pub d : ℕ
  pub e : ℕ
  pub f : ℕ
  pub g : ℕ
  pub h : ℕ

-- `~x` of a uint32_t
abbrev pub complement : ℕ → ℕ
complement x = 2 ^ 32 - 1 - x

unfoldable pub rotr : ℕ → ℕ → ℕ
rotr x n = bit_or (x >>> n) (u32 (x <<< (32 - n)))

unfoldable pub ch : ℕ → ℕ → ℕ → ℕ
ch x y z = bit_xor (bit_and x y) (bit_and (complement x) z)

unfoldable pub maj : ℕ → ℕ → ℕ → ℕ
maj x y z = bit_xor (bit_xor (bit_and x y) (bit_and x z)) (bit_and y z)

unfoldable pub ep0 : ℕ → ℕ
unfolding rotr
ep0 x = bit_xor (bit_xor (rotr x 2) (rotr x 13)) (rotr x 22)

unfoldable pub ep1 : ℕ → ℕ
unfolding rotr
ep1 x = bit_xor (bit_xor (rotr x 6) (rotr x 11)) (rotr x 25)

unfoldable pub sig0 : ℕ → ℕ
unfolding rotr
sig0 x = bit_xor (bit_xor (rotr x 7) (rotr x 18)) (x >>> 3)

unfoldable pub sig1 : ℕ → ℕ
unfolding rotr
sig1 x = bit_xor (bit_xor (rotr x 17) (rotr x 19)) (x >>> 10)

unfoldable pub k : List ℕ
k =
    0x428a2f98 ∷ 0x71374491 ∷ 0xb5c0fbcf ∷ 0xe9b5dba5 ∷ 0x3956c25b ∷ 0x59f111f1 ∷ 0x923f82a4
    ∷ 0xab1c5ed5 ∷ 0xd807aa98 ∷ 0x12835b01 ∷ 0x243185be ∷ 0x550c7dc3 ∷ 0x72be5d74 ∷ 0x80deb1fe
    ∷ 0x9bdc06a7 ∷ 0xc19bf174 ∷ 0xe49b69c1 ∷ 0xefbe4786 ∷ 0x0fc19dc6 ∷ 0x240ca1cc ∷ 0x2de92c6f
    ∷ 0x4a7484aa ∷ 0x5cb0a9dc ∷ 0x76f988da ∷ 0x983e5152 ∷ 0xa831c66d ∷ 0xb00327c8 ∷ 0xbf597fc7
    ∷ 0xc6e00bf3 ∷ 0xd5a79147 ∷ 0x06ca6351 ∷ 0x14292967 ∷ 0x27b70a85 ∷ 0x2e1b2138 ∷ 0x4d2c6dfc
    ∷ 0x53380d13 ∷ 0x650a7354 ∷ 0x766a0abb ∷ 0x81c2c92e ∷ 0x92722c85 ∷ 0xa2bfe8a1 ∷ 0xa81a664b
    ∷ 0xc24b8b70 ∷ 0xc76c51a3 ∷ 0xd192e819 ∷ 0xd6990624 ∷ 0xf40e3585 ∷ 0x106aa070 ∷ 0x19a4c116
    ∷ 0x1e376c08 ∷ 0x2748774c ∷ 0x34b0bcb5 ∷ 0x391c0cb3 ∷ 0x4ed8aa4a ∷ 0x5b9cca4f ∷ 0x682e6ff3
    ∷ 0x748f82ee ∷ 0x78a5636f ∷ 0x84c87814 ∷ 0x8cc70208 ∷ 0x90befffa ∷ 0xa4506ceb ∷ 0xbef9a3f7
    ∷ 0xc67178f2 ∷ []

-- The big-endian word of four bytes.
unfoldable pub load32_be : List ℕ → ℕ → ℕ
load32_be block i =
    bit_or
      (bit_or (bit_or (u32 (at block i <<< 24)) (u32 (at block (i + 1) <<< 16)))
        (u32 (at block (i + 2) <<< 8)))
      (at block (i + 3))

-- `for (int i = 0; i < 16; ++i)`, with the rounds that are left.
unfoldable pub load_loop : ℕ → ℕ → List ℕ → List ℕ
unfolding load32_be
load_loop zero i block = []
load_loop (suc n) i block = load32_be block (i * 4) ∷ load_loop n (i + 1) block

-- `for (int i = 16; i < 64; ++i)`, with the rounds that are left; `w` grows at its end.
unfoldable pub schedule_loop : ℕ → ℕ → List ℕ → List ℕ
unfolding sig0 sig1
schedule_loop zero i w = w
schedule_loop (suc n) i w =
    schedule_loop n (i + 1)
      (w ++ (u32 (sig1 (at w (i - 2)) + at w (i - 7) + sig0 (at w (i - 15)) + at w (i - 16)) ∷ []))

-- One round, with the constant and the word of the round.
unfoldable pub round : ℕ → ℕ → Eight → Eight
unfolding ep0 ep1 ch maj
round constant word v =
    let t1 = u32 (v.h + ep1 v.e + ch v.e v.f v.g + constant + word) in
    let t2 = u32 (ep0 v.a + maj v.a v.b v.c) in
    record {
      a = u32 (t1 + t2);
      b = v.a;
      c = v.b;
      d = v.c;
      e = u32 (v.d + t1);
      f = v.e;
      g = v.f;
      h = v.g;
    }

-- `for (int i = 0; i < 64; ++i)`, with the rounds that are left.
unfoldable pub round_loop : ℕ → ℕ → List ℕ → Eight → Eight
unfolding round k
round_loop zero i w v = v
round_loop (suc n) i w v = round_loop n (i + 1) w (round (at k i) (at w i) v)

-- The sums that a compression ends with.
unfoldable pub add_all : Eight → Eight → Eight
add_all s v = record {
  a = u32 (s.a + v.a);
  b = u32 (s.b + v.b);
  c = u32 (s.c + v.c);
  d = u32 (s.d + v.d);
  e = u32 (s.e + v.e);
  f = u32 (s.f + v.f);
  g = u32 (s.g + v.g);
  h = u32 (s.h + v.h);
}

unfoldable pub process_block : Eight → List ℕ → Eight
unfolding load_loop schedule_loop round_loop add_all
process_block s block = add_all s (round_loop 64 0 (schedule_loop 48 16 (load_loop 16 0 block)) s)

unfoldable pub initial : Eight
initial = record {
  a = 0x6a09e667;
  b = 0xbb67ae85;
  c = 0x3c6ef372;
  d = 0xa54ff53a;
  e = 0x510e527f;
  f = 0x9b05688c;
  g = 0x1f83d9ab;
  h = 0x5be0cd19;
}

-- `pai_sha256_ctx`
pub record Context : Type 0 where
  pub hash : Eight
  pub len : ℕ
  pub buf : List ℕ
  pub buf_len : ℕ

unfoldable pub init : Context → Context
unfolding initial
init ctx = record ctx { hash = initial; len = 0; buf_len = 0 }

-- `ctx->buf[ctx->buf_len++] = byte`
abbrev pub put_byte : Context → ℕ → Context
put_byte ctx byte = record ctx { buf = set ctx.buf ctx.buf_len byte; buf_len = ctx.buf_len + 1 }

-- `if (ctx->buf_len == 64u)`
unfoldable pub flush : Context → Context
unfolding process_block
flush ctx =
    if ctx.buf_len == 64
    then record ctx { hash = process_block ctx.hash ctx.buf; buf_len = 0 }
    else ctx

-- `while (len-- != 0u)`
unfoldable pub update_loop : Context → List ℕ → Context
unfolding flush
update_loop ctx [] = ctx
update_loop ctx (byte ∷ bytes) = update_loop (flush (put_byte ctx byte)) bytes

unfoldable pub update : Context → List ℕ → Context
unfolding update_loop
update ctx bytes = update_loop (record ctx { len = u64 (ctx.len + u64 (length bytes * 8)) }) bytes

-- `while (ctx->buf_len != 56u)`, with the rounds that are left. At most 63 rounds are made.
unfoldable pub pad_loop : ℕ → Context → Option Context
unfolding flush
pad_loop zero ctx = none
pad_loop (suc fuel) ctx = elim (ctx.buf_len == 56) [
  | true ↦ some ctx
  | false ↦ pad_loop fuel (put_byte (flush ctx) 0)
]

-- `for (int i = 7; i >= 0; --i)`: from `n - 1` down.
unfoldable pub len_loop : ℕ → Context → Context
len_loop zero ctx = ctx
len_loop (suc i) ctx = len_loop i (put_byte ctx (u8 (ctx.len >>> (i * 8))))

unfoldable pub store32_be : ℕ → List ℕ
store32_be w = u8 (w >>> 24) ∷ u8 (w >>> 16) ∷ u8 (w >>> 8) ∷ u8 w ∷ []

-- `for (int i = 0; i < 8; ++i)`: the bytes of `out`.
unfoldable pub digest : Eight → List ℕ
unfolding store32_be
digest s =
    store32_be s.a
    ++ store32_be s.b
    ++ store32_be s.c
    ++ store32_be s.d
    ++ store32_be s.e
    ++ store32_be s.f
    ++ store32_be s.g
    ++ store32_be s.h

-- The last block, and the bytes of `out`.
unfoldable pub finish : Context → List ℕ
unfolding len_loop digest
finish ctx = let last = len_loop 8 ctx in digest (process_block last.hash last.buf)

unfoldable pub final : Context → Option (List ℕ)
unfolding pad_loop finish
final ctx = pad_loop 64 (put_byte ctx 0x80) >>= (λ padded. some (finish padded))
