-- ===== src/Sse/Compress.antt =====
-- The compression on rows computes what the portable code computes.
use blake.Base.{
  ℕ, ◌+◌, ◌≡◌, sym, ap, ap₂, ◌∙◌, ◌>>>◌, arith, List, [], ◌∷◌, ◌++◌, bit_xor, All, IsWord, u32,
}
use blake.Impl.{at, iv, load_words, load_block_words, store_words, counter_low, counter_high}
use blake.Impl.Bytes.{load_words-store_words}
use blake.Portable.{round_fn, initial_state, xor_words}
use blake.Portable
use blake.Portable.Words.{at-IsWord}
use blake.Sse.{Four, Intrinsics, Documented, zip}
use blake.Sse.Rows
use blake.Sse.Rows.{
  Variant, Rows, Message, first_message, next_message, load_message, initial_rows, mix, next_round,
  xorv, set4,
}
use blake.Sse.Lanes.{IsVariant, quad, four_equal, xorv_lanes}
use blake.Sse.Rounds.{message, mix_lanes}
use blake.Sse.Mixing.{flat, arranged, mixed, round_fn_lem}
use blake.Sse.Messages.{turned, turned_lem, first_lanes, load_message_lanes, next_lanes}

module _ (k : Intrinsics) (d : Documented k) where
  open d use {lanes}

  -- Four words that are loaded from memory.
  words_lanes :
      (a b c e : ℕ)
      → IsWord a
      → IsWord b
      → IsWord c
      → IsWord e
      → lanes (k.loadu_si128 (store_words (a ∷ b ∷ c ∷ e ∷ [])))
        ≡ record { l0 = a; l1 = b; l2 = c; l3 = e }
  unfolding load_words
  words_lanes a b c e ha hb hc he =
      let back = load_words-store_words (a ∷ b ∷ c ∷ e ∷ []) (ha, (hb, (hc, (he, tt)))) in
      d.loadu _
      ∙ four_equal (ap (λ l. at l 0) back) (ap (λ l. at l 1) back) (ap (λ l. at l 2) back)
          (ap (λ l. at l 3) back)

  initial_rows_lanes :
      (cv : List ℕ) (len counter flags : ℕ)
      → All IsWord cv
      → flat (quad k d (initial_rows k cv len counter flags)) ≡ initial_state cv len counter flags
  unfolding initial_rows set4 initial_state counter_low counter_high
  initial_rows_lanes cv len counter flags h =
      let w = λ (i : ℕ). at-IsWord cv i h in
      let e0 = words_lanes (at cv 0) (at cv 1) (at cv 2) (at cv 3) (w 0) (w 1) (w 2) (w 3) in
      let e1 = words_lanes (at cv 4) (at cv 5) (at cv 6) (at cv 7) (w 4) (w 5) (w 6) (w 7) in
      let e2 = d.setr (at iv 0) (at iv 1) (at iv 2) (at iv 3) in
      let e3 =
        d.setr (u32 counter) (u32 (counter >>> 32)) (u32 len) (u32 flags)
        ∙ four_equal
            {b = record {
              l0 = u32 counter;
              l1 = u32 (counter >>> 32);
              l2 = u32 len;
              l3 = u32 flags;
            }}
            (omega arith) (omega arith) (omega arith) (omega arith) in
      λ i. flat (record { a = e0 i; b = e1 i; c = e2 i; d = e3 i })

  -- What the words of a vector are in memory.
  stored_words : (v : k.Vec) → List ℕ
  stored_words v = (lanes v).l0 ∷ (lanes v).l1 ∷ (lanes v).l2 ∷ (lanes v).l3 ∷ []

  load-storeu : (v : k.Vec) → load_words 4 (k.storeu_si128 v) 0 ≡ stored_words v
  unfolding stored_words
  load-storeu v =
      let (h0, h1, h2, h3) = d.lanes-IsWord v in
      ap (λ p. load_words 4 p 0) (d.storeu v)
      ∙ load_words-store_words (stored_words v) (h0, (h1, (h2, (h3, tt))))

module _ (k : Intrinsics) (d : Documented k) (t : Variant k) (v : IsVariant k d t) where
  open d use {lanes}

  -- The rows hold the state `s`, and the vectors of the message the words of that round.
  AtRound : List ℕ → ℕ → List ℕ → Rows k × Message k → Type 0
  AtRound ws round s (r, m) = (flat (quad k d r) ≡ s) × (message k d m ≡ arranged ws round)

  next_round-AtRound :
      (ws : List ℕ) (round : ℕ) (s : List ℕ) (rm : Rows k × Message k)
      → turned (arranged ws round) ≡ arranged ws (round + 1)
      → AtRound ws round s rm
      → AtRound ws (round + 1) (round_fn s ws (round + 1)) (next_round k t rm)
  unfolding next_round AtRound
  next_round-AtRound ws round s (r, m) e (held, words) =
      let words' = next_lanes k d t v m ∙ ap turned words ∙ e in
      (
        ap flat (mix_lanes k d t v r (next_message k t m) ∙ ap (mixed (quad k d r)) words')
            ∙ sym (round_fn_lem (quad k d r) ws (round + 1))
            ∙ ap (λ t. round_fn t ws (round + 1)) held,
        words',
      )

  -- The rows after the seven rounds are the state of the portable code.
  compress_pre_lanes :
      (cv block : List ℕ) (len counter flags : ℕ)
      → All IsWord cv
      → flat (quad k d (Rows.compress_pre k t cv block len counter flags))
        ≡ Portable.compress_pre cv block len counter flags
  unfolding Rows.compress_pre Portable.compress_pre AtRound
  compress_pre_lanes cv block len counter flags h =
      let ws = load_block_words block in
      let m = first_message k (load_message k block) in
      let r = initial_rows k cv len counter flags in
      let words = first_lanes k d (load_message k block) block (load_message_lanes k d block) in
      let first : flat (quad k d (mix k t r m))
          ≡ round_fn (initial_state cv len counter flags) ws 0 =
        ap flat (mix_lanes k d t v r m ∙ ap (mixed (quad k d r)) words)
        ∙ sym (round_fn_lem (quad k d r) ws 0)
        ∙ ap (λ s. round_fn s ws 0) (initial_rows_lanes k d cv len counter flags h) in
      let (p1, p2, p3, p4, p5, p6) = turned_lem block in
      let s1 = next_round-AtRound ws 0 _ (mix k t r m, m) p1 (first, words) in
      let s2 = next_round-AtRound ws 1 _ _ p2 s1 in
      let s3 = next_round-AtRound ws 2 _ _ p3 s2 in
      let s4 = next_round-AtRound ws 3 _ _ p4 s3 in
      let s5 = next_round-AtRound ws 4 _ _ p5 s4 in
      let s6 = next_round-AtRound ws 5 _ _ p6 s5 in s6.0

  -- On words, the chaining value is that of the portable code.
  pub compress_in_place_lem :
      (cv block : List ℕ) (len counter flags : ℕ)
      → All IsWord cv
      → Rows.compress_in_place k t cv block len counter flags
        ≡ Portable.compress_in_place cv block len counter flags
  unfolding Rows.compress_in_place Portable.compress_in_place stored_words xor_words
  compress_in_place_lem cv block len counter flags h =
      let r = Rows.compress_pre k t cv block len counter flags in
      ap₂ ◌++◌ (load-storeu k d (xorv k r.row0 r.row2)) (load-storeu k d (xorv k r.row1 r.row3))
      ∙ ap₂ (λ p q. p.l0 ∷ p.l1 ∷ p.l2 ∷ p.l3 ∷ q.l0 ∷ q.l1 ∷ q.l2 ∷ q.l3 ∷ [])
          (xorv_lanes k d r.row0 r.row2) (xorv_lanes k d r.row1 r.row3)
      ∙ ap (λ s. xor_words 8 s 0 s 8) (compress_pre_lanes cv block len counter flags h)

  -- On words, the 64 bytes of output are those of the portable code.
  pub compress_xof_lem :
      (cv block : List ℕ) (len counter flags : ℕ)
      → All IsWord cv
      → Rows.compress_xof k t cv block len counter flags
        ≡ Portable.compress_xof cv block len counter flags
  unfolding Rows.compress_xof Portable.compress_xof stored_words xor_words store_words
  compress_xof_lem cv block len counter flags h =
      let r = Rows.compress_pre k t cv block len counter flags in
      let w = λ (i : ℕ). at-IsWord cv i h in
      let c0 = words_lanes k d (at cv 0) (at cv 1) (at cv 2) (at cv 3) (w 0) (w 1) (w 2) (w 3) in
      let c1 = words_lanes k d (at cv 4) (at cv 5) (at cv 6) (at cv 7) (w 4) (w 5) (w 6) (w 7) in
      let out = λ (x : k.Vec) (y : Four) (e : lanes x ≡ y).
        d.storeu x ∙ ap (λ u. store_words (u.l0 ∷ u.l1 ∷ u.l2 ∷ u.l3 ∷ [])) e in
      ap₂ ◌++◌
        (ap₂ ◌++◌
          (ap₂ ◌++◌ (out _ _ (xorv_lanes k d r.row0 r.row2))
            (out _ _ (xorv_lanes k d r.row1 r.row3)))
          (out _ _ (xorv_lanes k d r.row2 _ ∙ ap (zip bit_xor (lanes r.row2)) c0)))
        (out _ _ (xorv_lanes k d r.row3 _ ∙ ap (zip bit_xor (lanes r.row3)) c1))
      ∙ ap (λ s. store_words (xor_words 8 s 0 s 8 ++ xor_words 8 s 8 cv 0))
          (compress_pre_lanes cv block len counter flags h)
