-- ===== src/Custody/Missing.antt =====
-- What `rpc_stream_next_missing` and `rpc_stream_complete` tell of the marks.
use blake.Base.{ℕ, zero, suc, ◌+◌, ◌-◌, ◌≤◌, ◌<◌}
use blake.Base.{◌≡◌, refl, ap, ◌∙◌, arith, ◌⊎◌, ◌↔◌, inl, inr, eq-or-ne, Bool-cases}
use blake.Base.{none, some, true, ==_iff, le→leb, lt→ltb, ge→ltb}
use blake.Custody.{ok, incomplete, Stream, max_chunks, bit_is_set}
use blake.Custody.Streams.{find_missing, missing_status}
use blake.Custody.Streams.{stream_next_missing, stream_complete}
use blake.Custody.Bitmap.{digit, digit-le, bit_is_set-digit}
use blake.Custody.Invariant.{marks, marks-le, IsConsistent}

-- Every fragment from `first` on and below `last` is marked.
abbrev pub AllMarked : Stream → ℕ → ℕ → Type 0
AllMarked s first last = (j : ℕ) → first ≤ j → j < last → digit s j ≡ 1

-- The least fragment from `first` on and below `last` that is not marked is `i`.
abbrev pub IsLeastMissing : Stream → ℕ → ℕ → ℕ → Type 0
IsLeastMissing s first last i = (first ≤ i) × (i < last) × (digit s i ≡ 0) × AllMarked s first i

extend : (s : Stream) (i last : ℕ) → digit s i ≡ 1 → AllMarked s (i + 1) last → AllMarked s i last
extend s i last d all j lo hi = elim (eq-or-ne j i) [
  | inl e ↦ ap (digit s) e ∙ d
  | inr ne ↦ all j (ground arith) hi
]

find_missing_lem :
    (s : Stream) (n i : ℕ)
    → ((k : ℕ) × (find_missing s n i ≡ some k) × IsLeastMissing s i (i + n) k)
      ⊎ ((find_missing s n i ≡ none) × AllMarked s i (i + n))
unfolding find_missing
find_missing_lem s zero i = inr (refl, λ j lo hi. absurd (omega arith))
find_missing_lem s (suc n) i = elim (Bool-cases (bit_is_set s i)) [
  | inl set ↦
      let d : digit s i ≡ 1 = ground (arith, bit_is_set-digit s i) in
      rw (set, find_missing)
        (elim (find_missing_lem s n (i + 1)) [
          | inl found ↦
              let (k, e, (lo, hi, z, all)) = found in
              inl (k, e, (omega arith, omega arith, z, extend s i k d all))
          | inr all ↦ inr (all.0, extend s i (i + suc n) d (λ j lo hi. all.1 j lo (omega arith)))
        ])
  | inr clear ↦
      let d : digit s i ≡ 0 = ground (arith, bit_is_set-digit s i, digit-le s i) in
      rw (clear, find_missing)
        (inl (i, refl, (omega arith, omega arith, d, λ j lo hi. absurd (omega arith))))
]

-- From a start that is in range, `rpc_stream_next_missing` of a consistent state returns RPC_OK
-- with the least fragment from there on that is not marked, or RPC_INCOMPLETE when all of them are
-- marked.
pub stream_next_missing_lem :
    (s : Stream) (start_index : ℕ)
    → IsConsistent s
    → start_index ≤ s.total_chunks
    → ((i : ℕ) × (stream_next_missing (some s) start_index true ≡ (ok, some i))
        × IsLeastMissing s start_index s.total_chunks i)
      ⊎ ((stream_next_missing (some s) start_index true ≡ (incomplete, none))
          × AllMarked s start_index s.total_chunks)
unfolding stream_next_missing
stream_next_missing_lem s start_index v h =
    rw
      (
        lt→ltb 0 s.total_chunks v.some_chunks,
        le→leb s.total_chunks max_chunks v.bounded,
        ge→ltb s.total_chunks start_index h,
      )
      (elim (find_missing_lem s (s.total_chunks - start_index) start_index) [
        | inl found ↦
            let (k, e, (lo, hi, z, all)) = found in
            inl (k, ap missing_status e, (lo, omega arith, z, all))
        | inr all ↦ inr (ap missing_status all.0, λ j lo hi. all.1 j lo (omega arith))
      ])

full-AllMarked : (s : Stream) (n : ℕ) → marks s n ≡ n → AllMarked s 0 n
unfolding marks
full-AllMarked s zero e j lo hi = absurd (omega arith)
full-AllMarked s (suc n) e j lo hi = elim (eq-or-ne j n) [
  | inl same ↦ ap (digit s) same ∙ omega (arith, digit-le s n, marks-le s n)
  | inr ne ↦ full-AllMarked s n (omega (arith, digit-le s n, marks-le s n)) j lo (ground arith)
]

AllMarked-full : (s : Stream) (n : ℕ) → AllMarked s 0 n → marks s n ≡ n
unfolding marks
AllMarked-full s zero all = refl
AllMarked-full s (suc n) all = omega (
  arith,
  all n (omega arith) (omega arith),
  AllMarked-full s n (λ j lo hi. all j lo (omega arith)),
)

-- `rpc_stream_complete` of a consistent state is true just when every fragment is marked.
pub stream_complete_iff :
    (s : Stream) → IsConsistent s → (stream_complete (some s) ≡ true) ↔ AllMarked s 0 s.total_chunks
unfolding stream_complete
stream_complete_iff s v =
    rw (lt→ltb 0 s.total_chunks v.some_chunks, le→leb s.total_chunks max_chunks v.bounded)
      (
        λ e.
            full-AllMarked s s.total_chunks
              (omega (arith, v.counted, (==_iff s.received_chunks s.total_chunks).0 e)),
        λ all.
            (==_iff s.received_chunks s.total_chunks).1
              (omega (arith, v.counted, AllMarked-full s s.total_chunks all)),
      )
