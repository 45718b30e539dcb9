-- ===== src/Custody.antt =====
-- c/rafaelia_packet_custody.c: the fragments of a packet are taken in any order, each one checked
-- against its digest and marked in a bitmap. A pointer that may be NULL is an `Option`; `has_out`
-- and its like say whether a pointer that is only written through is given. The result of a function
-- that hashes is `none` where the hasher would fault.
pub mod Streams
pub mod Digest
pub mod Bitmap
pub mod Record
pub mod Missing
pub mod Invariant
pub mod Run
pub mod Equal
pub mod Behaviour
mod Tests
use blake.Base.{ℕ, zero, suc, ◌+◌, ◌-◌, ◌*◌, bit_and, bit_or, bit_xor, List, [], ◌∷◌, ◌++◌}
use blake.Base.{Bool, true, false, not, ◌&&◌, ◌||◌, ltb, leb, ◌==◌, if◌then◌else◌}
use blake.Base.{
  take, drop, set, replicate, get_or, u8, u32, u64, ◌<<<◌, ◌>>>◌, Option, none, some, ◌>>=◌,
}
use blake.Impl.{at, out_len}
use blake.Backend.{Backend}
use blake.Hasher.{Hasher, init_derive_key_raw, update, finalize}

abbrev pub packet_id_len : ℕ
packet_id_len = 16

abbrev pub digest_len : ℕ
digest_len = out_len

abbrev pub max_chunks : ℕ
max_chunks = 4096

abbrev pub bitmap_len : ℕ
bitmap_len = 512

-- `rpc_status`
pub data Status : Type 0 where
  ok duplicate incomplete err_argument err_range err_digest : Status

-- `rpc_stream_state`
pub record Stream : Type 0 where
  pub packet_id : List ℕ
  pub total_chunks : ℕ
  pub received_chunks : ℕ
  pub rejected_chunks : ℕ
  pub verified_bytes : ℕ
  pub received_bitmap : List ℕ

abbrev pub is_null {ℓ} : {A : Type ℓ} → Option A → Bool
is_null none = true
is_null (some a) = false

-- "RAFAELIA_PACKET_CUSTODY_CHUNK_V1"
abbrev pub chunk_context : List ℕ
chunk_context =
    82 ∷ 65 ∷ 70 ∷ 65 ∷ 69 ∷ 76 ∷ 73 ∷ 65 ∷ 95 ∷ 80 ∷ 65 ∷ 67 ∷ 75 ∷ 69 ∷ 84 ∷ 95 ∷ 67 ∷ 85 ∷ 83
    ∷ 84 ∷ 79 ∷ 68 ∷ 89 ∷ 95 ∷ 67 ∷ 72 ∷ 85 ∷ 78 ∷ 75 ∷ 95 ∷ 86 ∷ 49 ∷ []

-- "RAFAELIA_PACKET_CUSTODY_ROOT_V1"
abbrev pub root_context : List ℕ
root_context =
    82 ∷ 65 ∷ 70 ∷ 65 ∷ 69 ∷ 76 ∷ 73 ∷ 65 ∷ 95 ∷ 80 ∷ 65 ∷ 67 ∷ 75 ∷ 69 ∷ 84 ∷ 95 ∷ 67 ∷ 85 ∷ 83
    ∷ 84 ∷ 79 ∷ 68 ∷ 89 ∷ 95 ∷ 82 ∷ 79 ∷ 79 ∷ 84 ∷ 95 ∷ 86 ∷ 49 ∷ []

-- The bytes that `rpc_copy` writes.
abbrev pub copy : List ℕ → ℕ → List ℕ
copy src len = take len src

unfoldable pub store32_le : ℕ → List ℕ
store32_le value = u8 value ∷ u8 (value >>> 8) ∷ u8 (value >>> 16) ∷ u8 (value >>> 24) ∷ []

unfoldable pub store64_le : ℕ → List ℕ
store64_le value =
    u8 value
    ∷ u8 (value >>> 8)
    ∷ u8 (value >>> 16)
    ∷ u8 (value >>> 24)
    ∷ u8 (value >>> 32)
    ∷ u8 (value >>> 40)
    ∷ u8 (value >>> 48)
    ∷ u8 (value >>> 56)
    ∷ []

abbrev pub valid_total : ℕ → Bool
valid_total total_chunks = ltb 0 total_chunks && leb total_chunks max_chunks

abbrev pub mask : ℕ → ℕ
mask index = u8 (1 <<< bit_and index 7)

unfoldable pub bit_is_set : Stream → ℕ → Bool
bit_is_set state index = not (bit_and (at state.received_bitmap (index >>> 3)) (mask index) == 0)

unfoldable pub bit_set : Stream → ℕ → Stream
bit_set state index = record state {
  received_bitmap =
      set state.received_bitmap (index >>> 3)
        (bit_or (at state.received_bitmap (index >>> 3)) (mask index));
}

-- The header of 36 bytes that is hashed before the payload.
unfoldable pub chunk_header : List ℕ → ℕ → ℕ → ℕ → List ℕ
unfolding store32_le store64_le
chunk_header packet_id chunk_index total_chunks payload_len =
    (82 ∷ 80 ∷ 67 ∷ 1 ∷ [])
    ++ copy packet_id packet_id_len
    ++ store32_le chunk_index
    ++ store32_le total_chunks
    ++ store64_le payload_len

-- The header of 24 bytes of a manifest.
unfoldable pub root_header : List ℕ → ℕ → List ℕ
unfolding store32_le
root_header packet_id total_chunks =
    (82 ∷ 80 ∷ 82 ∷ 1 ∷ []) ++ copy packet_id packet_id_len ++ store32_le total_chunks

unfoldable pub record_header : ℕ → ℕ → List ℕ
unfolding store32_le store64_le
record_header i chunk_length = store32_le i ++ store64_le chunk_length

-- The or of the differences, from `diff` on.
unfoldable pub digest_diff : ℕ → ℕ → List ℕ → List ℕ → ℕ
digest_diff zero diff left right = diff
digest_diff (suc n) diff left right =
    digest_diff n (bit_or diff (u8 (bit_xor (at left 0) (at right 0)))) (drop 1 left) (drop 1 right)

unfoldable pub digest_equal : Option (List ℕ) → Option (List ℕ) → Bool
unfolding digest_diff
digest_equal none right = false
digest_equal (some left) none = false
digest_equal (some left) (some right) = digest_diff digest_len 0 left right == 0

abbrev pub digested : List ℕ → Option (Status × Option (List ℕ))
digested digest = some (ok, some digest)

module _ (b : Backend) where
  -- `if (payload_len != 0u) blake3_hasher_update(&hasher, payload, payload_len)`, where a payload
  -- that is shorter than its length is taken as it is.
  unfoldable pub update_payload : Hasher → Option (List ℕ) → ℕ → Option Hasher
  update_payload hasher none payload_len = some hasher
  update_payload hasher (some payload) payload_len =
      if payload_len == 0 then some hasher else update b hasher (take payload_len payload)

  unfoldable pub hash_chunk : List ℕ → Option (List ℕ) → ℕ → Option (List ℕ)
  unfolding update_payload
  hash_chunk header payload payload_len = do
    hasher ← init_derive_key_raw b chunk_context
    with_header ← update b hasher header
    with_payload ← update_payload with_header payload payload_len
    finalize b with_payload digest_len

  -- The status, and what is written to `out`.
  unfoldable pub chunk_digest :
      Option (List ℕ) → ℕ → ℕ → Option (List ℕ) → ℕ → Bool → Option (Status × Option (List ℕ))
  unfolding chunk_header hash_chunk
  chunk_digest none chunk_index total_chunks payload payload_len has_out = some (err_argument, none)
  chunk_digest (some packet_id) chunk_index total_chunks payload payload_len has_out =
      if not has_out || (is_null payload && not (payload_len == 0))
      then some (err_argument, none)
      else if not (valid_total total_chunks) || leb total_chunks chunk_index
      then some (err_range, none)
      else hash_chunk (chunk_header packet_id chunk_index total_chunks payload_len) payload
          payload_len
        >>= digested

  -- The loop over the fragments: `n` are left, the next one is `i`.
  unfoldable pub update_records : ℕ → ℕ → List ℕ → List ℕ → Hasher → Option Hasher
  unfolding record_header
  update_records zero i chunk_lengths chunk_digests hasher = some hasher
  update_records (suc n) i chunk_lengths chunk_digests hasher = do
    with_header ← update b hasher (record_header i (get_or chunk_lengths i 0))
    with_digest ← update b with_header (take digest_len (drop (i * digest_len) chunk_digests))
    update_records n (i + 1) chunk_lengths chunk_digests with_digest

  unfoldable pub hash_manifest : List ℕ → ℕ → List ℕ → List ℕ → Option (List ℕ)
  unfolding update_records
  hash_manifest header total_chunks chunk_lengths chunk_digests = do
    hasher ← init_derive_key_raw b root_context
    with_header ← update b hasher header
    with_records ← update_records total_chunks 0 chunk_lengths chunk_digests with_header
    finalize b with_records digest_len

  unfoldable pub manifest_root :
      Option (List ℕ)
      → ℕ
      → Option (List ℕ)
      → Option (List ℕ)
      → Bool
      → Option (Status × Option (List ℕ))
  unfolding root_header hash_manifest
  manifest_root (some packet_id) total_chunks (some chunk_lengths) (some chunk_digests) true =
      if valid_total total_chunks
      then hash_manifest (root_header packet_id total_chunks) total_chunks chunk_lengths
          chunk_digests
        >>= digested
      else some (err_range, none)
  manifest_root packet_id total_chunks chunk_lengths chunk_digests has_out =
      some (err_argument, none)
