-- ===== src/Zrf.antt =====
-- rmr/android/free/src/main/cpp/zipraf_free.c: the format ZRF1, a header of 46 bytes with a digest of
-- the raw bytes, and the bytes as they are or run-length encoded. The length that `z_rle` measures is
-- that of the bytes that it emits. Below the limit of 3 MiB no sum wraps. A result carries the bytes
-- that are written to `dst`; it is `none` where the hasher would fault.
pub mod Runs
pub mod Decode
pub mod RoundTrip
pub mod Fits
mod Tests
use blake.Base.{ℕ, zero, suc, ◌+◌, ◌-◌, ◌*◌, bit_and, bit_or, bit_xor, List, [], ◌∷◌, ◌++◌}
use blake.Base.{Bool, true, false, not, ◌&&◌, ◌||◌, ltb, leb, ◌==◌, if◌then◌else◌}
use blake.Base.{length, take, drop, replicate, u8, u32, ◌<<<◌, ◌>>>◌, Option, none, some, ◌>>=◌}
use blake.Impl.{at}
use blake.Backend.{Backend}
use blake.Hasher.{init, update, finalize}

-- The codes 0, -1, -2, -3 and -4 that are returned.
pub data Code : Type 0 where
  done bad_argument bad_size bad_payload bad_digest : Code

abbrev pub z_max : ℕ
z_max = 3145728

abbrev pub z_hdr : ℕ
z_hdr = 46

unfoldable pub put32 : ℕ → List ℕ
put32 v = u8 v ∷ u8 (v >>> 8) ∷ u8 (v >>> 16) ∷ u8 (v >>> 24) ∷ []

unfoldable pub get32 : List ℕ → ℕ → ℕ
get32 p i =
    bit_or (bit_or (bit_or (at p i) (u32 (at p (i + 1) <<< 8))) (u32 (at p (i + 2) <<< 16)))
      (u32 (at p (i + 3) <<< 24))

-- `while (m < 130u && pos+m < n && src[pos+m] == src[pos]) ++m`, with the rounds that are left.
unfoldable pub run_loop : ℕ → List ℕ → ℕ → ℕ → ℕ → ℕ
run_loop zero src n pos m = m
run_loop (suc fuel) src n pos m =
    elim (ltb m 130 && ltb (pos + m) n && (at src (pos + m) == at src pos)) [
      | true ↦ run_loop fuel src n pos (m + 1)
      | false ↦ m
    ]

unfoldable pub run : List ℕ → ℕ → ℕ → ℕ
unfolding run_loop
run src n pos = run_loop 129 src n pos 1

-- `while (i < n && i-s < 128u)`: the end of the literals that start at `s`.
unfoldable pub literal_loop : ℕ → List ℕ → ℕ → ℕ → ℕ → ℕ
unfolding run
literal_loop zero src n s i = i
literal_loop (suc fuel) src n s i = elim (ltb i n && ltb (i - s) 128) [
  | true ↦ elim (leb 4 (run src n i) || ltb 128 (i - s + run src n i)) [
    | true ↦ i
    | false ↦ literal_loop fuel src n s (i + run src n i)
  ]
  | false ↦ i
]

-- The end of the literals from `s` on; they take the first run in any case.
unfoldable pub literal_end : List ℕ → ℕ → ℕ → ℕ
unfolding literal_loop
literal_end src n s = literal_loop n src n s (s + run src n s)

-- `while (i < n)`: the bytes that are emitted.
unfoldable pub rle_loop : ℕ → List ℕ → ℕ → ℕ → List ℕ
unfolding run literal_end
rle_loop zero src n i = []
rle_loop (suc fuel) src n i = elim (ltb i n) [
  | true ↦ elim (leb 4 (run src n i)) [
    | true ↦ u8 (bit_or 0x80 (run src n i - 3)) ∷ at src i ∷ rle_loop fuel src n (i + run src n i)
    | false ↦
        (u8 (literal_end src n i - i - 1) ∷ take (literal_end src n i - i) (drop i src))
        ++ rle_loop fuel src n (literal_end src n i)
  ]
  | false ↦ []
]

-- A round takes a byte at least, so the length is fuel enough.
unfoldable pub rle : List ℕ → ℕ → List ℕ
unfolding rle_loop
rle src n = rle_loop n src n 0

-- How the loop of `rmr_zrf1_unpack` ends: at the end of the input, at a token that does not fit, or,
-- of the model only, without fuel.
pub data Verdict : Type 0 where
  finished corrupt no_fuel : Verdict

-- `while (ip < n)`: `rest` is the input from `ip` on, and `out` what is written to `dst`.
unfoldable pub decode : ℕ → ℕ → List ℕ → List ℕ → Verdict × List ℕ
decode fuel raw [] out = (finished, out)
decode zero raw (token ∷ rest) out = (no_fuel, out)
decode (suc fuel) raw (token ∷ rest) out = elim (bit_and token 0x80 == 0) [
  | false ↦ elim (length rest == 0 || ltb (raw - length out) (bit_and token 0x7f + 3)) [
    | true ↦ (corrupt, out)
    | false ↦ decode fuel raw (drop 1 rest) (out ++ replicate (bit_and token 0x7f + 3) (at rest 0))
  ]
  | true ↦ elim (ltb (length rest) (token + 1) || ltb (raw - length out) (token + 1)) [
    | true ↦ (corrupt, out)
    | false ↦ decode fuel raw (drop (token + 1) rest) (out ++ take (token + 1) rest)
  ]
]

-- The or of the differences of `n` bytes.
unfoldable pub digest_diff : ℕ → ℕ → List ℕ → List ℕ → ℕ
digest_diff zero diff dig stored = diff
digest_diff (suc n) diff dig stored =
    digest_diff n (bit_or diff (bit_xor (at dig 0) (at stored 0))) (drop 1 dig) (drop 1 stored)

-- The header and the payload.
unfoldable pub image : ℕ → ℕ → ℕ → List ℕ → List ℕ → List ℕ
unfolding put32
image mode n payload_len dig payload =
    (90 ∷ 82 ∷ 70 ∷ 49 ∷ 1 ∷ mode ∷ []) ++ put32 n ++ put32 payload_len ++ dig ++ payload

-- The header is that of the format, and its mode is known.
abbrev pub header_ok : List ℕ → Bool
header_ok src =
    (at src 0 == 90)
    && (at src 1 == 82)
    && (at src 2 == 70)
    && (at src 3 == 49)
    && (at src 4 == 1)
    && leb (at src 5) 1

module _ (b : Backend) where
  unfoldable pub hash : List ℕ → ℕ → Option (List ℕ)
  hash p n = do filled ← update b init (take n p); finalize b filled 32

  -- `rmr_zrf1_digest`
  unfoldable pub digest : Option (List ℕ) → ℕ → Bool → Option (Code × List ℕ)
  unfolding hash
  digest none n has_out =
      if not (n == 0) || not has_out
      then some (bad_argument, [])
      else hash [] n >>= (λ dig. some (done, dig))
  digest (some src) n has_out =
      if not has_out || ltb (z_max + z_hdr) n
      then some (bad_argument, [])
      else hash src n >>= (λ dig. some (done, dig))

  unfoldable pub pack_mode : ℕ → List ℕ → ℕ → ℕ → List ℕ → Option (Code × List ℕ)
  unfolding image hash
  pack_mode mode src n cap payload =
      if ltb cap z_hdr || ltb (cap - z_hdr) (length payload)
      then some (bad_size, [])
      else hash src n >>= (λ dig. some (done, image mode n (length payload) dig payload))

  -- `rmr_zrf1_pack` of a source that is given.
  unfoldable pub pack : List ℕ → ℕ → ℕ → Option (Code × List ℕ)
  unfolding pack_mode rle
  pack src n cap =
      if ltb z_max n
      then some (bad_argument, [])
      else if ltb (length (rle src n)) n
      then pack_mode 1 src n cap (rle src n)
      else pack_mode 0 src n cap (take n src)

  -- The check of the digest that the format ends with.
  unfoldable pub check_digest : List ℕ → ℕ → List ℕ → Option (Code × List ℕ)
  unfolding hash digest_diff
  check_digest src raw out = do
    dig ← hash out raw
    some (if digest_diff 32 0 dig (drop 14 src) == 0 then done else bad_digest, out)

  unfoldable pub after_decode : List ℕ → ℕ → Verdict × List ℕ → Option (Code × List ℕ)
  unfolding check_digest
  after_decode src raw (finished, out) =
      if length out == raw then check_digest src raw out else some (bad_payload, out)
  after_decode src raw (corrupt, out) = some (bad_payload, out)
  after_decode src raw (no_fuel, out) = none

  unfoldable pub unpack_mode : List ℕ → ℕ → ℕ → ℕ → Option (Code × List ℕ)
  unfolding decode check_digest after_decode
  unpack_mode src n raw mode =
      if mode == 0
      then (if n - z_hdr == raw
          then check_digest src raw (take raw (drop z_hdr src))
          else some (bad_size, []))
      else after_decode src raw (decode n raw (take (n - z_hdr) (drop z_hdr src)) [])

  -- `rmr_zrf1_unpack` of a source that is given.
  unfoldable pub unpack : List ℕ → ℕ → ℕ → Option (Code × List ℕ)
  unfolding unpack_mode get32
  unpack src n cap =
      if ltb n z_hdr
      then some (bad_argument, [])
      else if not (header_ok src)
      then some (bad_size, [])
      else if ltb z_max (get32 src 6) || ltb cap (get32 src 6) || not (get32 src 10 == n - z_hdr)
      then some (bad_size, [])
      else unpack_mode src n (get32 src 6) (at src 5)
