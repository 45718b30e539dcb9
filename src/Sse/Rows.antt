-- ===== src/Sse/Rows.antt =====
-- The code that c/blake3_sse41.c and c/blake3_sse2.c have in common, word for word, of the compression
-- of one block, four words to a vector. The rows are kept in a record, and the bytes that the words
-- of the chaining value have in memory are little endian.
use blake.Base.{ℕ, ◌-◌, ◌*◌, List, [], ◌∷◌, ◌++◌, drop, u32}
use blake.Impl.{at, iv, counter_low, counter_high, store_words, load_words}
use blake.Sse.{Intrinsics}

-- What the files define each in its own way.
pub record Variant (k : Intrinsics) : Type 0 where
  pub rot16 : k.Vec → k.Vec
  pub rot8 : k.Vec → k.Vec
  pub blend_epi16 : k.Vec → k.Vec → ℕ → k.Vec

module _ (k : Intrinsics) where
  open k use {Vec}

  -- `__m128i rows[4]`
  pub record Rows : Type 0 where
    pub row0 : Vec
    pub row1 : Vec
    pub row2 : Vec
    pub row3 : Vec

  unfoldable pub addv : Vec → Vec → Vec
  addv a b = k.add_epi32 a b

  unfoldable pub xorv : Vec → Vec → Vec
  xorv a b = k.xor_si128 a b

  unfoldable pub set4 : ℕ → ℕ → ℕ → ℕ → Vec
  set4 a b c d = k.setr_epi32 a b c d

  unfoldable pub rot12 : Vec → Vec
  unfolding xorv
  rot12 x = xorv (k.srli_epi32 x 12) (k.slli_epi32 x (32 - 12))

  unfoldable pub rot7 : Vec → Vec
  unfolding xorv
  rot7 x = xorv (k.srli_epi32 x 7) (k.slli_epi32 x (32 - 7))

  unfoldable pub diagonalize : Rows → Rows
  diagonalize r = record r {
    row0 = k.shuffle_epi32 r.row0 2 1 0 3;
    row3 = k.shuffle_epi32 r.row3 1 0 3 2;
    row2 = k.shuffle_epi32 r.row2 0 3 2 1;
  }

  unfoldable pub undiagonalize : Rows → Rows
  undiagonalize r = record r {
    row0 = k.shuffle_epi32 r.row0 0 3 2 1;
    row3 = k.shuffle_epi32 r.row3 1 0 3 2;
    row2 = k.shuffle_epi32 r.row2 2 1 0 3;
  }

  -- `m0` to `m3`
  pub record Message : Type 0 where
    pub m0 : Vec
    pub m1 : Vec
    pub m2 : Vec
    pub m3 : Vec

  -- The vectors `t0` to `t3` of the first round, which become `m0` to `m3`.
  unfoldable pub first_message : Message → Message
  first_message m =
      let t2 = k.shuffle_ps m.m2 m.m3 2 0 2 0 in
      let t3 = k.shuffle_ps m.m2 m.m3 3 1 3 1 in
      record {
        m0 = k.shuffle_ps m.m0 m.m1 2 0 2 0;
        m1 = k.shuffle_ps m.m0 m.m1 3 1 3 1;
        m2 = k.shuffle_epi32 t2 2 1 0 3;
        m3 = k.shuffle_epi32 t3 2 1 0 3;
      }

  -- The rows before the rounds.
  unfoldable pub initial_rows : List ℕ → ℕ → ℕ → ℕ → Rows
  unfolding set4
  initial_rows cv block_len counter flags = record {
    row0 = k.loadu_si128 (store_words (at cv 0 ∷ at cv 1 ∷ at cv 2 ∷ at cv 3 ∷ []));
    row1 = k.loadu_si128 (store_words (at cv 4 ∷ at cv 5 ∷ at cv 6 ∷ at cv 7 ∷ []));
    row2 = set4 (at iv 0) (at iv 1) (at iv 2) (at iv 3);
    row3 = set4 (counter_low counter) (counter_high counter) (u32 block_len) (u32 flags);
  }

  unfoldable pub load_message : List ℕ → Message
  load_message block = record {
    m0 = k.loadu_si128 (drop (16 * 0) block);
    m1 = k.loadu_si128 (drop (16 * 1) block);
    m2 = k.loadu_si128 (drop (16 * 2) block);
    m3 = k.loadu_si128 (drop (16 * 3) block);
  }

module _ (k : Intrinsics) (t : Variant k) where
  open k use {Vec}

  unfoldable pub g1 : Rows k → Vec → Rows k
  g1 r m =
      let row0 = addv k (addv k r.row0 m) r.row1 in
      let row3 = xorv k r.row3 row0 in
      let row3' = t.rot16 row3 in
      let row2 = addv k r.row2 row3' in
      let row1 = xorv k r.row1 row2 in
      record { row0 = row0; row1 = rot12 k row1; row2 = row2; row3 = row3' }

  unfoldable pub g2 : Rows k → Vec → Rows k
  g2 r m =
      let row0 = addv k (addv k r.row0 m) r.row1 in
      let row3 = xorv k r.row3 row0 in
      let row3' = t.rot8 row3 in
      let row2 = addv k r.row2 row3' in
      let row1 = xorv k r.row1 row2 in
      record { row0 = row0; row1 = rot7 k row1; row2 = row2; row3 = row3' }

  -- Those of every later round.
  unfoldable pub next_message : Message k → Message k
  next_message m =
      let t0 = k.shuffle_ps m.m0 m.m1 3 1 1 2 in
      let t1 = k.shuffle_ps m.m2 m.m3 3 3 2 2 in
      let tt1 = k.shuffle_epi32 m.m0 0 0 3 3 in
      let t2 = k.unpacklo_epi64 m.m3 m.m1 in
      let tt2 = t.blend_epi16 t2 m.m2 0xC0 in
      let t3 = k.unpackhi_epi32 m.m1 m.m3 in
      let tt3 = k.unpacklo_epi32 m.m2 t3 in
      record {
        m0 = k.shuffle_epi32 t0 0 3 2 1;
        m1 = t.blend_epi16 tt1 t1 0xCC;
        m2 = k.shuffle_epi32 tt2 1 3 2 0;
        m3 = k.shuffle_epi32 tt3 0 1 3 2;
      }

  -- What a round does with the rows: the vectors of the message are mixed in where they are ready.
  unfoldable pub mix : Rows k → Message k → Rows k
  mix r m = undiagonalize k (g2 (g1 (diagonalize k (g2 (g1 r m.m0) m.m1)) m.m2) m.m3)

  unfoldable pub next_round : Rows k × Message k → Rows k × Message k
  unfolding next_message mix
  next_round (r, m) = (mix r (next_message m), next_message m)

  unfoldable pub compress_pre : List ℕ → List ℕ → ℕ → ℕ → ℕ → Rows k
  unfolding initial_rows load_message first_message mix next_round
  compress_pre cv block block_len counter flags =
      let first = first_message k (load_message k block) in
      let s1 : Rows k × Message k =
        (mix (initial_rows k cv block_len counter flags) first, first) in
      let s2 = next_round s1 in
      let s3 = next_round s2 in
      let s4 = next_round s3 in
      let s5 = next_round s4 in let s6 = next_round s5 in let s7 = next_round s6 in s7.0

  unfoldable pub compress_in_place : List ℕ → List ℕ → ℕ → ℕ → ℕ → List ℕ
  unfolding xorv
  compress_in_place cv block block_len counter flags =
      let rows = compress_pre cv block block_len counter flags in
      load_words 4 (k.storeu_si128 (xorv k rows.row0 rows.row2)) 0
      ++ load_words 4 (k.storeu_si128 (xorv k rows.row1 rows.row3)) 0

  unfoldable pub compress_xof : List ℕ → List ℕ → ℕ → ℕ → ℕ → List ℕ
  unfolding xorv
  compress_xof cv block block_len counter flags =
      let rows = compress_pre cv block block_len counter flags in
      let cv0 = k.loadu_si128 (store_words (at cv 0 ∷ at cv 1 ∷ at cv 2 ∷ at cv 3 ∷ [])) in
      let cv4 = k.loadu_si128 (store_words (at cv 4 ∷ at cv 5 ∷ at cv 6 ∷ at cv 7 ∷ [])) in
      k.storeu_si128 (xorv k rows.row0 rows.row2)
      ++ k.storeu_si128 (xorv k rows.row1 rows.row3)
      ++ k.storeu_si128 (xorv k rows.row2 cv0)
      ++ k.storeu_si128 (xorv k rows.row3 cv4)
