-- ===== src/Custody/Streams.antt =====
-- The stream of c/rafaelia_packet_custody.c: its start, the recording of a fragment, and the questions
-- what is missing and whether all is there.
use blake.Base.{ℕ, zero, suc, ◌+◌, ◌-◌, List}
use blake.Base.{Bool, true, false, not, ◌&&◌, ◌||◌, ltb, leb, ◌==◌, if◌then◌else◌}
use blake.Base.{replicate, u32, u64, Option, none, some, ◌>>=◌}
use blake.Backend.{Backend}
use blake.Custody.{
  Status, ok, duplicate, incomplete, err_argument, err_range, err_digest, Stream, is_null,
  packet_id_len, bitmap_len, copy, valid_total, bit_is_set, bit_set, digest_equal, chunk_digest,
}

unfoldable pub stream_init : Option Stream → Option (List ℕ) → ℕ → Status × Option Stream
stream_init none packet_id total_chunks = (err_argument, none)
stream_init (some state) none total_chunks = (err_argument, some state)
stream_init (some state) (some packet_id) total_chunks =
    if valid_total total_chunks
    then (
      ok,
      some (record {
        packet_id = copy packet_id packet_id_len;
        total_chunks = total_chunks;
        received_chunks = 0;
        rejected_chunks = 0;
        verified_bytes = 0;
        received_bitmap = replicate bitmap_len 0;
      }),
    )
    else (err_range, some state)

-- `for (i = start_index; i < total_chunks; ++i)`, with the number of rounds that are left.
unfoldable pub find_missing : Stream → ℕ → ℕ → Option ℕ
unfolding bit_is_set
find_missing state zero i = none
find_missing state (suc n) i = elim (bit_is_set state i) [
  | true ↦ find_missing state n (i + 1)
  | false ↦ some i
]

abbrev pub missing_status : Option ℕ → Status × Option ℕ
missing_status none = (incomplete, none)
missing_status (some i) = (ok, some i)

-- The status, and what is written to `missing_index`.
unfoldable pub stream_next_missing : Option Stream → ℕ → Bool → Status × Option ℕ
unfolding find_missing
stream_next_missing none start_index has_missing_index = (err_argument, none)
stream_next_missing (some state) start_index false = (err_argument, none)
stream_next_missing (some state) start_index true =
    if not (valid_total state.total_chunks) || ltb state.total_chunks start_index
    then (err_range, none)
    else missing_status (find_missing state (state.total_chunks - start_index) start_index)

unfoldable pub stream_complete : Option Stream → Bool
stream_complete none = false
stream_complete (some state) =
    if valid_total state.total_chunks then state.received_chunks == state.total_chunks else false

-- What follows the comparison of the digests.
unfoldable pub accept : Stream → ℕ → ℕ → Bool → Status × Stream
unfolding bit_is_set bit_set
accept state chunk_index payload_len false =
    (err_digest, record state { rejected_chunks = u32 (state.rejected_chunks + 1) })
accept state chunk_index payload_len true =
    if bit_is_set state chunk_index then (duplicate, state) else (
      ok,
      record (bit_set state chunk_index) {
        received_chunks = u32 (state.received_chunks + 1);
        verified_bytes = u64 (state.verified_bytes + payload_len);
      },
    )

-- What follows the call of `rpc_chunk_digest`.
unfoldable pub check_digest :
    Stream → ℕ → ℕ → List ℕ → Status × Option (List ℕ) → Status × Option Stream
unfolding accept digest_equal
check_digest state chunk_index payload_len expected_digest (ok, actual) =
    let (status, after) =
      accept state chunk_index payload_len (digest_equal actual (some expected_digest)) in
    (status, some after)
check_digest state chunk_index payload_len expected_digest (status, actual) = (status, some state)

module _ (b : Backend) where
  unfoldable pub stream_record :
      Option Stream → ℕ → Option (List ℕ) → ℕ → Option (List ℕ) → Option (Status × Option Stream)
  unfolding check_digest
  stream_record none chunk_index payload payload_len expected_digest = some (err_argument, none)
  stream_record (some state) chunk_index payload payload_len none = some (err_argument, some state)
  stream_record (some state) chunk_index payload payload_len (some expected_digest) =
      if is_null payload && not (payload_len == 0)
      then some (err_argument, some state)
      else if not (valid_total state.total_chunks) || leb state.total_chunks chunk_index
      then some (err_range, some state)
      else chunk_digest b (some state.packet_id) chunk_index state.total_chunks payload payload_len
          true
        >>= (λ result. some (check_digest state chunk_index payload_len expected_digest result))
