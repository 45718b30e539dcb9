-- ===== src/Custody/Invariant.antt =====
-- The invariant of `rpc_stream_state`: the counter of received fragments is the number of marks.
use blake.Base.{ℕ, zero, suc, ◌+◌, ◌/◌, ◌%◌, ◌^◌, ◌≤◌, ◌<◌, List}
use blake.Base.{◌≡◌, refl, sym, ap, ◌∙◌, arith, inl, inr, eq-or-ne, Bool-cases}
use blake.Base.{
  length, Option, none, some, length-set, true, get_or-replicate, length-replicate, replicate,
}
use mathlib.Core.Path.{subst}
use native.Mathlib.Nat.{mod-eq_of_lt, zero-div}
use blake.Backend.{Backend}
use blake.Custody.{Status, ok, Stream, bit_set, bitmap_len, max_chunks, valid_total}
use blake.Custody.Streams.{stream_init, stream_record}
use blake.Custody.Bitmap.{digit, digit-le, digit-bit_set_same, digit-bit_set_other}
use blake.Impl.{at}
use blake.Custody.{duplicate, incomplete, err_argument, err_range, err_digest, copy, packet_id_len}
use blake.Custody.Record.{rejected, Effect, unchanged, counted_out, taken, marked, record_Effect}

-- The number of marks below `n`.
unfoldable pub marks : Stream → ℕ → ℕ
marks s zero = 0
marks s (suc n) = digit s n + marks s n

pub marks-le : (s : Stream) (n : ℕ) → marks s n ≤ n
unfolding marks
marks-le s zero = omega arith
marks-le s (suc n) = omega (arith, marks-le s n, digit-le s n)

pub record IsConsistent (s : Stream) : Type 0 where
  pub some_chunks : 0 < s.total_chunks
  pub bounded : s.total_chunks ≤ max_chunks
  pub size : length s.received_bitmap ≡ bitmap_len
  pub within : (j : ℕ) → s.total_chunks ≤ j → digit s j ≡ 0
  pub counted : s.received_chunks ≡ marks s s.total_chunks

module _ (s : Stream) (i : ℕ) (size : length s.received_bitmap ≡ bitmap_len)
    (h : i < max_chunks) where
  marks-bit_set_above : (n : ℕ) → n ≤ i → marks (bit_set s i) n ≡ marks s n
  unfolding marks
  marks-bit_set_above zero le = refl
  marks-bit_set_above (suc n) le = omega (
    arith,
    digit-bit_set_other s i n (λ e. absurd (omega arith)) size h,
    marks-bit_set_above n (omega arith),
  )

  marks-bit_set : (n : ℕ) → i < n → digit s i ≡ 0 → marks (bit_set s i) n ≡ marks s n + 1
  unfolding marks
  marks-bit_set zero lt clear = absurd (omega arith)
  marks-bit_set (suc n) lt clear = elim (eq-or-ne i n) [
    | inl e ↦ omega (
      arith,
      digit-bit_set_same s i size h,
      ap (digit (bit_set s i)) e,
      ap (digit s) e,
      marks-bit_set_above n (omega arith),
    )
    | inr ne ↦ omega (
      arith,
      digit-bit_set_other s i n (λ e. ground arith) size h,
      marks-bit_set n (ground arith) clear,
    )
  ]

-- Only the bitmap matters.
marks-same :
    (s t : Stream) → s.received_bitmap ≡ t.received_bitmap → (n : ℕ) → marks s n ≡ marks t n
unfolding marks digit
marks-same s t e zero = refl
marks-same s t e (suc n) =
    omega (arith, ap (λ (bytes : List ℕ). at bytes (n / 8) / 2 ^ (n % 8) % 2) e, marks-same s t e n)

marked-IsConsistent :
    (s : Stream) (i len : ℕ)
    → i < s.total_chunks
    → digit s i ≡ 0
    → IsConsistent s
    → IsConsistent (marked s i len)
unfolding bit_set digit
marked-IsConsistent s i len below clear v =
    let new = marks-bit_set s i v.size (omega (arith, v.bounded)) s.total_chunks below clear in
    record {
      some_chunks = v.some_chunks;
      bounded = v.bounded;
      size = length-set s.received_bitmap _ _ ∙ v.size;
      within = λ j le.
          digit-bit_set_other s i j (λ e. absurd (omega arith)) v.size (omega (arith, v.bounded))
          ∙ v.within j le;
      counted =
          mod-eq_of_lt {n = s.received_chunks + 1} {m = 2 ^ 32}
            (omega (arith, v.bounded, v.counted, marks-le s s.total_chunks))
          ∙ omega (
            arith,
            v.counted,
            new,
            marks-same (marked s i len) (bit_set s i) refl s.total_chunks,
          );
    }

rejected-IsConsistent : (s : Stream) → IsConsistent s → IsConsistent (rejected s)
unfolding digit
rejected-IsConsistent s v = record {
  some_chunks = v.some_chunks;
  bounded = v.bounded;
  size = v.size;
  within = v.within;
  counted = v.counted ∙ marks-same s (rejected s) refl s.total_chunks;
}

module _ (b : Backend) (s : Stream) (i : ℕ) (payload : Option (List ℕ)) (len : ℕ) where
  Effect-IsConsistent :
      (expected : Option (List ℕ)) {st : Status} {after : Stream}
      → Effect b s i payload len expected st after
      → IsConsistent s
      → IsConsistent after
  Effect-IsConsistent expected (unchanged ne) v = v
  Effect-IsConsistent expected counted_out v = rejected-IsConsistent s v
  Effect-IsConsistent expected (taken below small clear verified) v =
      marked-IsConsistent s i len below clear v

  -- Whatever fragment is recorded, and whatever the digests are, a consistent state is followed by a
  -- consistent one.
  pub stream_record-IsConsistent :
      (expected : Option (List ℕ)) (st : Status) (after : Stream)
      → IsConsistent s
      → stream_record b (some s) i payload len expected ≡ some (st, some after)
      → IsConsistent after
  stream_record-IsConsistent expected st after v h =
      Effect-IsConsistent expected (record_Effect b s i payload len expected st after h) v

-- What `rpc_stream_init` leaves behind when it returns RPC_OK.
abbrev Started : List ℕ → ℕ → Status × Option Stream → Type 0
Started id total (ok, some s) =
    IsConsistent s
    × (s.packet_id ≡ copy id packet_id_len)
    × (s.total_chunks ≡ total)
    × ((j : ℕ) → digit s j ≡ 0)
Started id total (ok, none) = Unit
Started id total (duplicate, s) = Unit
Started id total (incomplete, s) = Unit
Started id total (err_argument, s) = Unit
Started id total (err_range, s) = Unit
Started id total (err_digest, s) = Unit

no_digit : (s : Stream) → s.received_bitmap ≡ replicate bitmap_len 0 → (j : ℕ) → digit s j ≡ 0
unfolding digit
no_digit s e j =
    ap (λ (bytes : List ℕ). at bytes (j / 8) / 2 ^ (j % 8) % 2) e
    ∙ ap (λ (byte : ℕ). byte / 2 ^ (j % 8) % 2) (get_or-replicate {A = ℕ} bitmap_len (j / 8) 0)
    ∙ ap (λ (t : ℕ). t % 2) (zero-div (2 ^ (j % 8)))

no_marks : (s : Stream) → ((j : ℕ) → digit s j ≡ 0) → (n : ℕ) → marks s n ≡ 0
unfolding marks
no_marks s clear zero = refl
no_marks s clear (suc n) = omega (arith, clear n, no_marks s clear n)

abbrev fresh : List ℕ → ℕ → Stream
fresh id total = record {
  packet_id = copy id packet_id_len;
  total_chunks = total;
  received_chunks = 0;
  rejected_chunks = 0;
  verified_bytes = 0;
  received_bitmap = replicate bitmap_len 0;
}

fresh-Started :
    (id : List ℕ) (total : ℕ)
    → valid_total total ≡ true
    → Started id total (ok, some (fresh id total))
fresh-Started id total valid =
    let clear = no_digit (fresh id total) refl in
    (
      record {
        some_chunks = ground arith;
        bounded = ground arith;
        size = length-replicate {A = ℕ} bitmap_len 0;
        within = λ j le. clear j;
        counted = sym (no_marks (fresh id total) clear total);
      },
      refl,
      refl,
      clear,
    )

stream_init-Started :
    (total : ℕ) (state : Stream) (id : List ℕ)
    → Started id total (stream_init (some state) (some id) total)
unfolding stream_init
stream_init-Started total state id = elim (Bool-cases (valid_total total)) [
  | inl valid ↦ rw valid (fresh-Started id total valid)
  | inr invalid ↦ rw invalid tt
]

-- What `rpc_stream_init` leaves behind is consistent, carries the packet and has no mark.
pub stream_init-IsConsistent :
    (state : Stream) (id : List ℕ) (total : ℕ) (s : Stream)
    → stream_init (some state) (some id) total ≡ (ok, some s)
    → IsConsistent s
      × (s.packet_id ≡ copy id packet_id_len)
      × (s.total_chunks ≡ total)
      × ((j : ℕ) → digit s j ≡ 0)
stream_init-IsConsistent state id total s h =
    subst (Started id total) h (stream_init-Started total state id)
