-- ===== src/Custody/Behaviour.antt =====
-- `rpc_stream_record` on every branch, and twice on the same fragment.
use blake.Base.{
  ℕ, ◌^◌, ◌<◌, ◌++◌, List, ◌≡◌, refl, ap, ◌∙◌, arith, ◌⊎◌, inl, inr, Bool-cases, Bool_apart,
}
use blake.Base.{Option, some, true, false, Bool, ◌>>=◌, length, take, lt→ltb, le→leb, gt→leb}
use blake.Backend.{Backend}
use blake.Backend.Lawful.{IsLawful}
use blake.Custody.{
  Status, ok, duplicate, err_digest, Stream, chunk_context, chunk_header, max_chunks,
}
use blake.Custody.{bit_is_set, bit_set, digest_equal}
use blake.Custody.Streams.{accept, check_digest, stream_record}
use blake.Custody.Bitmap.{digit, digit-le, bit_is_set-digit, digit-bit_set_same}
use blake.Custody.Digest.{derived, chunk_digest_lem}
use blake.Custody.Invariant.{IsConsistent, stream_record-IsConsistent}
use blake.Custody.Record.{rejected, marked}

abbrev as_result : Status × Stream → Option (Status × Option Stream)
as_result (st, after) = some (st, some after)

module _ (b : Backend) (lawful : IsLawful b) (s : Stream) (i : ℕ) (payload : List ℕ) (len : ℕ) where
  -- The bytes that the digest of a fragment binds.
  abbrev pub bound_bytes : List ℕ
  bound_bytes = chunk_header s.packet_id i s.total_chunks len ++ take len payload

  abbrev pub matches : List ℕ → Bool
  matches e = digest_equal (some (derived b chunk_context bound_bytes)) (some e)

  record_accept :
      (e : List ℕ)
      → IsConsistent s
      → i < s.total_chunks
      → length bound_bytes < 2 ^ 64
      → stream_record b (some s) i (some payload) len (some e)
        ≡ some ((accept s i len (matches e)).0, some (accept s i len (matches e)).1)
  unfolding stream_record check_digest
  record_accept e v h bound =
      rw
        (
          lt→ltb 0 s.total_chunks v.some_chunks,
          le→leb s.total_chunks max_chunks v.bounded,
          gt→leb s.total_chunks i h,
        )
        (ap (λ r. r >>= (λ result. some (check_digest s i len e result)))
          (chunk_digest_lem b lawful s.packet_id i s.total_chunks payload len h v.bounded bound))

  accept_set : bit_is_set s i ≡ true → accept s i len true ≡ (duplicate, s)
  unfolding accept
  accept_set set = rw set

  accept_clear : bit_is_set s i ≡ false → accept s i len true ≡ (ok, marked s i len)
  unfolding accept
  accept_clear clear = rw clear

  -- With a lawful back end and a consistent state, a fragment of the packet is marked and counted
  -- when its digest is the expected one and it is new, changes nothing when it is marked already,
  -- and counts as rejected when the digests differ, where header and payload are less than 2^64
  -- bytes.
  pub stream_record_lem :
      (e : List ℕ)
      → IsConsistent s
      → i < s.total_chunks
      → length bound_bytes < 2 ^ 64
      → ((matches e ≡ true)
          × (digit s i ≡ 0)
          × (stream_record b (some s) i (some payload) len (some e)
              ≡ some (ok, some (marked s i len))))
        ⊎ ((matches e ≡ true)
            × (digit s i ≡ 1)
            × (stream_record b (some s) i (some payload) len (some e) ≡ some (duplicate, some s)))
        ⊎ ((matches e ≡ false)
            × (stream_record b (some s) i (some payload) len (some e)
                ≡ some (err_digest, some (rejected s))))
  stream_record_lem e v h bound = elim (Bool-cases (matches e)) [
    | inl m ↦
        let run = record_accept e v h bound ∙ ap (λ t. as_result (accept s i len t)) m in
        elim (Bool-cases (bit_is_set s i)) [
          | inl set ↦
              inr
                (inl (m, ground (arith, bit_is_set-digit s i), run ∙ ap as_result (accept_set set)))
          | inr clear ↦ inl (
            m,
            ground (arith, digit-le s i, bit_is_set-digit s i),
            run ∙ ap as_result (accept_clear clear),
          )
        ]
    | inr m ↦ inr (
        inr (
          m,
          record_accept e v h bound
              ∙ ap (λ t. as_result (accept s i len t)) m
              ∙ unfold accept in refl,
        ))
  ]

module _ (b : Backend) (lawful : IsLawful b) (s : Stream) (i : ℕ) (payload : List ℕ) (len : ℕ) where
  abbrev Recorded : List ℕ → Stream → Type 0
  Recorded e after =
      (st : Status) × (stream_record b (some s) i (some payload) len (some e)
        ≡ some (st, some after))

  marked_again :
      (e : List ℕ)
      → IsConsistent (marked s i len)
      → IsConsistent s
      → i < s.total_chunks
      → length (bound_bytes b lawful s i payload len) < 2 ^ 64
      → matches b lawful s i payload len e ≡ true
      → stream_record b (some (marked s i len)) i (some payload) len (some e)
        ≡ some (duplicate, some (marked s i len))
  unfolding bit_set
  marked_again e w v h bound m =
      let set = digit-bit_set_same s i v.size (omega (arith, v.bounded)) in
      elim (stream_record_lem b lawful (marked s i len) i payload len e w h bound) [
        | inl new ↦ absurd (unfold digit in omega (arith, new.1, set))
        | inr (inl old) ↦ old.2
        | inr (inr bad) ↦ absurd (Bool_apart (matches b lawful s i payload len e) m bad.0)
      ]

  -- With a lawful back end and a consistent state, a fragment of the packet whose digest is the
  -- expected one may be delivered twice: the second call returns RPC_DUPLICATE and changes
  -- nothing, where header and payload are less than 2^64 bytes.
  stream_record-again :
      (e : List ℕ)
      → IsConsistent s
      → i < s.total_chunks
      → length (bound_bytes b lawful s i payload len) < 2 ^ 64
      → matches b lawful s i payload len e ≡ true
      → (after : Stream) × Recorded e after
        × (stream_record b (some after) i (some payload) len (some e)
            ≡ some (duplicate, some after))
  stream_record-again e v h bound m =
      elim (stream_record_lem b lawful s i payload len e v h bound) [
        | inl new ↦
            let w = stream_record-IsConsistent b s i (some payload) len (some e) ok _ v new.2 in
            (marked s i len, (ok, new.2), marked_again e w v h bound m)
        | inr (inl old) ↦ (s, (duplicate, old.2), old.2)
        | inr (inr bad) ↦ absurd (Bool_apart (matches b lawful s i payload len e) m bad.0)
      ]
