-- ===== src/Custody/Tests.antt =====
-- The theorems on packet custody applied to a packet of three fragments.
use blake.Base.{
  ℕ, zero, suc, ◌++◌, ◌≡◌, ◌↔◌, ◌⊎◌, inl, inr, refl, arith, List, [], ◌∷◌, replicate, length, take,
  All, IsByte, some, none, true, false, Bool_apart,
}
use blake.Backend.Portable.{portable, portable-IsLawful}
use blake.Custody.{
  Stream, ok, incomplete, duplicate, err_digest, bit_set, chunk_context, root_context,
}
use blake.Custody.Streams.{stream_init, stream_record}
use blake.Custody.{
  chunk_header, root_header, record_header, chunk_digest, manifest_root, digest_equal, store32_le,
  store64_le,
}
use blake.Custody.Streams.{stream_next_missing, stream_complete}
use blake.Custody.Bitmap.{digit}
use blake.Custody.Digest.{derived, chunk_digest_lem, manifest_root_lem, manifest_table}
use blake.Custody.Equal.{digest_equal_iff, digest_equal-same}
use blake.Custody.Record.{rejected, marked, Effect, record_Effect}
use blake.Custody.Invariant.{IsConsistent, stream_init-IsConsistent}
use blake.Custody.Behaviour.{matches, stream_record_lem}
use blake.Custody.Missing.{AllMarked, IsLeastMissing, stream_next_missing_lem, stream_complete_iff}
use blake.Custody.Run.{
  Fragment, Reached, started, recorded, Genuine, Reached-IsConsistent, Reached-Genuine,
}

abbrev blank : Stream
blank = record {
  packet_id = [];
  total_chunks = 0;
  received_chunks = 7;
  rejected_chunks = 1;
  verified_bytes = 0;
  received_bitmap = [];
}

abbrev first_state : Stream
first_state = record {
  packet_id = replicate 16 9;
  total_chunks = 3;
  received_chunks = 0;
  rejected_chunks = 0;
  verified_bytes = 0;
  received_bitmap = replicate 512 0;
}

stream_init_three : stream_init (some blank) (some (replicate 16 9)) 3 ≡ (ok, some first_state)
unfolding stream_init
stream_init_three = refl

first_state-IsConsistent : IsConsistent first_state
first_state-IsConsistent =
    (stream_init-IsConsistent blank (replicate 16 9) 3 first_state stream_init_three).0

abbrev payload : List ℕ
payload = 1 ∷ 2 ∷ []

abbrev the_bytes : List ℕ
the_bytes = chunk_header (replicate 16 9) 1 3 2 ++ take 2 payload

length-the_bytes : length the_bytes ≡ 38
unfolding chunk_header store32_le store64_le
length-the_bytes = refl

abbrev genuine : List ℕ
genuine = derived portable chunk_context the_bytes

chunk_digest_example :
    chunk_digest portable (some (replicate 16 9)) 1 3 (some payload) 2 true
    ≡ some (ok, some genuine)
chunk_digest_example =
    chunk_digest_lem portable portable-IsLawful (replicate 16 9) 1 3 payload 2 (omega arith)
      (omega arith) (omega (arith, length-the_bytes))

abbrev two_digests : List ℕ
two_digests = replicate 64 200

abbrev the_table : List ℕ
the_table = manifest_table 2 0 (5 ∷ 6 ∷ []) two_digests

length-the_table : length (root_header (replicate 16 9) 2 ++ the_table) ≡ 112
unfolding root_header record_header store32_le store64_le manifest_table
length-the_table = refl

manifest_root_example :
    manifest_root portable (some (replicate 16 9)) 2 (some (5 ∷ 6 ∷ [])) (some two_digests) true
    ≡ some (ok, some (derived portable root_context (root_header (replicate 16 9) 2 ++ the_table)))
manifest_root_example =
    manifest_root_lem portable portable-IsLawful (replicate 16 9) 2 (5 ∷ 6 ∷ []) two_digests
      (omega arith) (omega arith) (omega (arith, length-the_table))

All-bytes : (n : ℕ) → All IsByte (replicate n 200)
All-bytes zero = tt
All-bytes (suc n) = (omega arith, All-bytes n)

digest_equal_example :
    (digest_equal (some (replicate 32 200)) (some (replicate 32 200)) ≡ true)
    ↔ (replicate {A = ℕ} 32 200 ≡ replicate 32 200)
digest_equal_example =
    digest_equal_iff (replicate 32 200) (replicate 32 200) (All-bytes 32) (All-bytes 32) refl refl

stream_record_example :
    ((matches portable portable-IsLawful first_state 1 payload 2 genuine ≡ true)
      × (digit first_state 1 ≡ 0)
      × (stream_record portable (some first_state) 1 (some payload) 2 (some genuine)
          ≡ some (ok, some (marked first_state 1 2))))
    ⊎ ((matches portable portable-IsLawful first_state 1 payload 2 genuine ≡ true)
        × (digit first_state 1 ≡ 1)
        × (stream_record portable (some first_state) 1 (some payload) 2 (some genuine)
            ≡ some (duplicate, some first_state)))
    ⊎ ((matches portable portable-IsLawful first_state 1 payload 2 genuine ≡ false)
        × (stream_record portable (some first_state) 1 (some payload) 2 (some genuine)
            ≡ some (err_digest, some (rejected first_state))))
stream_record_example =
    stream_record_lem portable portable-IsLawful first_state 1 payload 2 genuine
      first_state-IsConsistent (omega arith) (omega (arith, length-the_bytes))

record_genuine :
    stream_record portable (some first_state) 1 (some payload) 2 (some genuine)
    ≡ some (ok, some (marked first_state 1 2))
unfolding digit
record_genuine =
    elim (stream_record_lem portable portable-IsLawful first_state 1 payload 2 genuine
      first_state-IsConsistent (omega arith) (omega (arith, length-the_bytes))) [
        | inl new ↦ new.2
        | inr (inl old) ↦ absurd (omega (arith, old.1))
        | inr (inr bad) ↦ absurd (Bool_apart _ (digest_equal-same genuine) bad.0)
      ]

abbrev the_fragment : Fragment
the_fragment = record {
  chunk_index = 1;
  payload = some payload;
  payload_len = 2;
  expected_digest = some genuine;
}

one_fragment : Reached portable (replicate 16 9) 3 (the_fragment ∷ []) (marked first_state 1 2)
one_fragment = recorded the_fragment ok (started blank stream_init_three) record_genuine

Reached-IsConsistent_example : IsConsistent (marked first_state 1 2)
Reached-IsConsistent_example = Reached-IsConsistent portable (replicate 16 9) 3 one_fragment

digit-marked : digit (marked first_state 1 2) 1 ≡ 1
unfolding digit bit_set
digit-marked = refl

Reached-Genuine_example : Genuine portable (replicate 16 9) 3 (the_fragment ∷ []) 1
Reached-Genuine_example = Reached-Genuine portable (replicate 16 9) 3 one_fragment 1 digit-marked

stream_next_missing_example :
    ((i : ℕ) × (stream_next_missing (some first_state) 1 true ≡ (ok, some i))
      × IsLeastMissing first_state 1 3 i)
    ⊎ ((stream_next_missing (some first_state) 1 true ≡ (incomplete, none))
        × AllMarked first_state 1 3)
stream_next_missing_example =
    stream_next_missing_lem first_state 1 first_state-IsConsistent (omega arith)

stream_complete_example : (stream_complete (some first_state) ≡ true) ↔ AllMarked first_state 0 3
stream_complete_example = stream_complete_iff first_state first_state-IsConsistent

record_Effect_example :
    Effect portable first_state 1 (some payload) 2 (some genuine) ok (marked first_state 1 2)
record_Effect_example =
    record_Effect portable first_state 1 (some payload) 2 (some genuine) ok (marked first_state 1 2)
      record_genuine
