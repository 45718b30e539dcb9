-- ===== src/Custody/Record.antt =====
-- What a call of `rpc_stream_record` does to the state, and the invariant of the state.
use blake.Base.{ℕ, ◌+◌, ◌≤◌, ◌<◌, List, Bool, true, false, not, ◌&&◌, ◌||◌}
use blake.Base.{◌≡◌, ◌≢◌, refl, arith, inl, inr, Bool-cases, leb}
use blake.Base.{u32, u64, Option, none, some, ◌>>=◌, ◌==◌}
use mathlib.Core.Path.{subst}
use blake.Backend.{Backend}
use blake.Custody.{
  Status, ok, duplicate, incomplete, err_argument, err_range, err_digest, Stream, bit_is_set,
  bit_set, max_chunks,
}
use blake.Custody.{chunk_digest, digest_equal, valid_total, is_null}
use blake.Custody.Streams.{accept, check_digest, stream_record}
use blake.Custody.Bitmap.{digit, digit-le, bit_is_set-digit}

-- The states that a call can leave behind.
abbrev pub rejected : Stream → Stream
rejected s = record s { rejected_chunks = u32 (s.rejected_chunks + 1) }

abbrev pub marked : Stream → ℕ → ℕ → Stream
marked s i payload_len = record (bit_set s i) {
  received_chunks = u32 (s.received_chunks + 1);
  verified_bytes = u64 (s.verified_bytes + payload_len);
}

module _ (b : Backend) where
  -- The digest of the fragment compares equal to the expected one.
  abbrev pub Verified : List ℕ → ℕ → ℕ → Option (List ℕ) → ℕ → Option (List ℕ) → Type 0
  Verified packet_id total i payload payload_len expected =
      (actual : List ℕ) × (chunk_digest b (some packet_id) i total payload payload_len true
        ≡ some (ok, some actual))
      × (digest_equal (some actual) expected ≡ true)

  module _ (s : Stream) (i : ℕ) (payload : Option (List ℕ)) (payload_len : ℕ)
      (expected : Option (List ℕ)) where
    pub data Effect : Status → Stream → Type 0 where
      unchanged : {st : Status} → st ≢ ok → Effect st s
      counted_out : Effect err_digest (rejected s)
      taken :
          i < s.total_chunks
          → s.total_chunks ≤ max_chunks
          → digit s i ≡ 0
          → Verified s.packet_id s.total_chunks i payload payload_len expected
          → Effect ok (marked s i payload_len)

    abbrev pub Outcome : Option (Status × Option Stream) → Type 0
    Outcome none = Unit
    Outcome (some (st, none)) = Unit
    Outcome (some (st, some after)) = Effect st after

  module _ (s : Stream) (i : ℕ) (payload : Option (List ℕ)) (payload_len : ℕ) (e : List ℕ) where
    abbrev Checked : Option (Status × Option (List ℕ)) → Type 0
    Checked r =
        Outcome s i payload payload_len (some e)
          (r >>= (λ result. some (check_digest s i payload_len e result)))

    accept-Effect :
        (equal : Bool)
        → i < s.total_chunks
        → s.total_chunks ≤ max_chunks
        → (equal ≡ true → Verified s.packet_id s.total_chunks i payload payload_len (some e))
        → Effect s i payload payload_len
            (some e)
            (accept s i payload_len equal).0
            (accept s i payload_len equal).1
    unfolding accept
    accept-Effect false below small v = counted_out
    accept-Effect true below small v = elim (Bool-cases (bit_is_set s i)) [
      | inl set ↦ rw set (unchanged (λ eq. cc))
      | inr clear ↦
          rw clear
            (taken below small (ground (arith, digit-le s i, clear, bit_is_set-digit s i)) (v refl))
    ]

    check_digest-Effect :
        (r : Option (Status × Option (List ℕ)))
        → i < s.total_chunks
        → s.total_chunks ≤ max_chunks
        → chunk_digest b (some s.packet_id) i s.total_chunks payload payload_len true ≡ r
        → Checked r
    unfolding check_digest
    check_digest-Effect none below small d = tt
    check_digest-Effect (some (ok, none)) below small d = counted_out
    check_digest-Effect (some (ok, some actual)) below small d =
        accept-Effect (digest_equal (some actual) (some e)) below small (λ q. (actual, d, q))
    check_digest-Effect (some (duplicate, actual)) below small d = unchanged (λ eq. cc)
    check_digest-Effect (some (incomplete, actual)) below small d = unchanged (λ eq. cc)
    check_digest-Effect (some (err_argument, actual)) below small d = unchanged (λ eq. cc)
    check_digest-Effect (some (err_range, actual)) below small d = unchanged (λ eq. cc)
    check_digest-Effect (some (err_digest, actual)) below small d = unchanged (λ eq. cc)

    record_some-Outcome :
        Outcome s i payload payload_len
          (some e)
          (stream_record b (some s) i payload payload_len (some e))
    unfolding stream_record
    record_some-Outcome = elim (Bool-cases (is_null payload && not (payload_len == 0))) [
      | inl null ↦ rw null (unchanged (λ eq. cc))
      | inr given ↦ elim (Bool-cases (not (valid_total s.total_chunks) || leb s.total_chunks i)) [
        | inl out ↦ rw (given, out) (unchanged (λ eq. cc))
        | inr within ↦
            rw (given, within)
              (check_digest-Effect
                (chunk_digest b (some s.packet_id) i s.total_chunks payload payload_len true)
                (ground arith) (ground arith) refl)
      ]
    ]

  module _ (s : Stream) (i : ℕ) (payload : Option (List ℕ)) (payload_len : ℕ) where
    record_Outcome :
        (expected : Option (List ℕ))
        → Outcome s i payload payload_len expected
            (stream_record b (some s) i payload payload_len expected)
    record_Outcome none = unfold stream_record in unchanged {st = err_argument} (λ eq. cc)
    record_Outcome (some e) = record_some-Outcome s i payload payload_len e

    -- A call of `rpc_stream_record` leaves the state as it was, counts a rejected fragment, or
    -- marks a fragment of the packet that was not marked and whose digest is the expected one;
    -- only the last one returns RPC_OK.
    pub record_Effect :
        (expected : Option (List ℕ)) (st : Status) (after : Stream)
        → stream_record b (some s) i payload payload_len expected ≡ some (st, some after)
        → Effect s i payload payload_len expected st after
    record_Effect expected st after h =
        subst (Outcome s i payload payload_len expected) h (record_Outcome expected)
