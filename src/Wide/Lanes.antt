-- ===== src/Wide/Lanes.antt =====
-- A lane of the vectors does what the portable code does.
use blake.Base.{
  ℕ, zero, suc, ◌+◌, ◌<◌, All, bit_xor, ◌≡◌, refl, sym, ap, ap₂, ◌∙◌, arith, List, [], ◌∷◌, get_or,
  u32,
}
use blake.Impl.{at, iv, msg_schedule, block_len, counter_low, counter_high, load_block_words}
use blake.Portable.{rotr32, initial_state, xor_words}
use blake.Portable
use blake.Sse.{Four}
use blake.Sse.Lanes.{Quad, half, sum3, four_equal}
use blake.Sse.Mixing.{flat, in_lanes, in_lanes_lem, diagonals, back}
use blake.Wide.{
  Ops, Group, Sixteen, Eight, index, half_mix, scheduled, to_diagonals, round_fn, start, hash_block,
}

-- The lanes of the vectors, and what the helpers do in each.
pub record HasLanes (o : Ops) : Type 0 where
  pub lane : o.Vec → ℕ → ℕ
  pub add : (a b : o.Vec) (i : ℕ) → lane (o.addv a b) i ≡ u32 (lane a i + lane b i)
  pub xor : (a b : o.Vec) (i : ℕ) → lane (o.xorv a b) i ≡ bit_xor (lane a i) (lane b i)
  pub same : (x i : ℕ) → lane (o.set1 x) i ≡ u32 x
  pub turn16 : (a : o.Vec) (i : ℕ) → lane (o.rot16 a) i ≡ rotr32 (lane a i) 16
  pub turn12 : (a : o.Vec) (i : ℕ) → lane (o.rot12 a) i ≡ rotr32 (lane a i) 12
  pub turn8 : (a : o.Vec) (i : ℕ) → lane (o.rot8 a) i ≡ rotr32 (lane a i) 8
  pub turn7 : (a : o.Vec) (i : ℕ) → lane (o.rot7 a) i ≡ rotr32 (lane a i) 7

at-bound : (l : List ℕ) (n : ℕ) → All (λ x. x < 16) l → at l n < 16
at-bound [] n h = omega arith
at-bound (x ∷ l) zero h = h.0
at-bound (x ∷ l) (suc n) h = at-bound l n h.1

row-bound :
    (rows : List (List ℕ)) (r n : ℕ) → All (All (λ x. x < 16)) rows → at (get_or rows r []) n < 16
row-bound [] r n h = omega arith
row-bound (row ∷ rows) zero n h = at-bound row n h.0
row-bound (row ∷ rows) (suc r) n h = row-bound rows r n h.1

schedule_bound : (r n : ℕ) → at (get_or msg_schedule r []) n < 16
schedule_bound r n = row-bound msg_schedule r n (omega arith)

module _ (o : Ops) (h : HasLanes o) (i : ℕ) where
  abbrev pub words : Group o.Vec → Four
  words g = record {
    l0 = h.lane g.w0 i;
    l1 = h.lane g.w1 i;
    l2 = h.lane g.w2 i;
    l3 = h.lane g.w3 i;
  }

  abbrev pub state : Sixteen o.Vec → Quad
  state v = record { a = words v.a; b = words v.b; c = words v.c; d = words v.d }

  sum_words :
      (a m b : o.Vec)
      → h.lane (o.addv (o.addv a m) b) i ≡ sum3 (h.lane a i) (h.lane b i) (h.lane m i)
  unfolding sum3
  sum_words a m b = omega (arith, h.add (o.addv a m) b i, h.add a m i)

  sum_two : (a b : o.Vec) → h.lane (o.addv a b) i ≡ sum3 (h.lane a i) (h.lane b i) 0
  unfolding sum3
  sum_two a b = omega (arith, h.add a b i)

  -- One column of a half of a mixing.
  column_lem :
      (turn_d turn_b : o.Vec → o.Vec) (c1 c2 : ℕ)
      → ((a : o.Vec) → h.lane (turn_d a) i ≡ rotr32 (h.lane a i) c1)
      → ((a : o.Vec) → h.lane (turn_b a) i ≡ rotr32 (h.lane a i) c2)
      → (a b c d x : o.Vec)
      → let a' = o.addv (o.addv a x) b in
        let d' = turn_d (o.xorv d a') in
        let c' = o.addv c d' in
        let la = sum3 (h.lane a i) (h.lane b i) (h.lane x i) in
        let ld = rotr32 (bit_xor (h.lane d i) la) c1 in
        let lc = sum3 (h.lane c i) ld 0 in
        (h.lane a' i ≡ la)
        × (h.lane (turn_b (o.xorv b c')) i ≡ rotr32 (bit_xor (h.lane b i) lc) c2)
        × (h.lane c' i ≡ lc)
        × (h.lane d' i ≡ ld)
  column_lem turn_d turn_b c1 c2 h1 h2 a b c d x =
      let a' = o.addv (o.addv a x) b in
      let ea = sum_words a x b in
      let d' = turn_d (o.xorv d a') in
      let ed =
        h1 (o.xorv d a') ∙ ap (λ t. rotr32 t c1) (h.xor d a' i ∙ ap (bit_xor (h.lane d i)) ea) in
      let c' = o.addv c d' in
      let ec = sum_two c d' ∙ ap (λ t. sum3 (h.lane c i) t 0) ed in
      (
        ea,
        h2 (o.xorv b c') ∙ ap (λ t. rotr32 t c2) (h.xor b c' i ∙ ap (bit_xor (h.lane b i)) ec),
        ec,
        ed,
      )

  half_mix_lem :
      (v : Sixteen o.Vec) (m : Group o.Vec) (turn_d turn_b : o.Vec → o.Vec) (c1 c2 : ℕ)
      → ((a : o.Vec) → h.lane (turn_d a) i ≡ rotr32 (h.lane a i) c1)
      → ((a : o.Vec) → h.lane (turn_b a) i ≡ rotr32 (h.lane a i) c2)
      → state (half_mix o turn_d turn_b v m) ≡ half c1 c2 (state v) (words m)
  unfolding half_mix
  half_mix_lem v m turn_d turn_b c1 c2 h1 h2 =
      let column = column_lem turn_d turn_b c1 c2 h1 h2 in
      let p0 = column v.a.w0 v.b.w0 v.c.w0 v.d.w0 m.w0 in
      let p1 = column v.a.w1 v.b.w1 v.c.w1 v.d.w1 m.w1 in
      let p2 = column v.a.w2 v.b.w2 v.c.w2 v.d.w2 m.w2 in
      let p3 = column v.a.w3 v.b.w3 v.c.w3 v.d.w3 m.w3 in
      λ j. record {
        a = record { l0 = p0.0 j; l1 = p1.0 j; l2 = p2.0 j; l3 = p3.0 j };
        b = record { l0 = p0.1 j; l1 = p1.1 j; l2 = p2.1 j; l3 = p3.1 j };
        c = record { l0 = p0.2 j; l1 = p1.2 j; l2 = p2.2 j; l3 = p3.2 j };
        d = record { l0 = p0.3 j; l1 = p1.3 j; l2 = p2.3 j; l3 = p3.3 j };
      }

  index_lane : (m : Sixteen o.Vec) (n : ℕ) → n < 16 → h.lane (index m n) i ≡ at (flat (state m)) n
  index_lane m zero lt = refl
  index_lane m (suc zero) lt = refl
  index_lane m (suc (suc zero)) lt = refl
  index_lane m (suc (suc (suc zero))) lt = refl
  index_lane m (suc (suc (suc (suc zero)))) lt = refl
  index_lane m (suc (suc (suc (suc (suc zero))))) lt = refl
  index_lane m (suc (suc (suc (suc (suc (suc zero)))))) lt = refl
  index_lane m (suc (suc (suc (suc (suc (suc (suc zero))))))) lt = refl
  index_lane m (suc (suc (suc (suc (suc (suc (suc (suc zero)))))))) lt = refl
  index_lane m (suc (suc (suc (suc (suc (suc (suc (suc (suc zero))))))))) lt = refl
  index_lane m (suc (suc (suc (suc (suc (suc (suc (suc (suc (suc zero)))))))))) lt = refl
  index_lane m (suc (suc (suc (suc (suc (suc (suc (suc (suc (suc (suc zero))))))))))) lt = refl
  index_lane m (suc (suc (suc (suc (suc (suc (suc (suc (suc (suc (suc (suc zero)))))))))))) lt =
      refl
  index_lane m (suc (suc (suc (suc (suc (suc (suc (suc (suc (suc (suc (suc (suc zero)))))))))))))
        lt =
      refl
  index_lane m
        (suc (suc (suc (suc (suc (suc (suc (suc (suc (suc (suc (suc (suc (suc zero))))))))))))))
        lt =
      refl
  index_lane m
        (suc
          (suc (suc (suc (suc (suc (suc (suc (suc (suc (suc (suc (suc (suc (suc zero)))))))))))))))
        lt =
      refl
  index_lane m
        (suc (
          suc
            (suc (suc (suc (suc (suc (suc (suc (suc (suc (suc (suc (suc (suc (suc n))))))))))))))))
        lt =
      absurd (omega arith)

  -- The words that a round takes from the message of this lane.
  words-scheduled :
      (m : Sixteen o.Vec) (msg : List ℕ) (r a b c d : ℕ)
      → flat (state m) ≡ msg
      → words (scheduled o m r a b c d) ≡ (
          let w = λ (n : ℕ). at msg (at (get_or msg_schedule r []) n) in
          record { l0 = w a; l1 = w b; l2 = w c; l3 = w d })
  words-scheduled m msg r a b c d e =
      let w = λ (n : ℕ).
        index_lane m (at (get_or msg_schedule r []) n) (schedule_bound r n)
        ∙ ap (λ t. at t (at (get_or msg_schedule r []) n)) e in
      four_equal (w a) (w b) (w c) (w d)

  pub round_lem :
      (v m : Sixteen o.Vec) (msg : List ℕ) (r : ℕ)
      → flat (state m) ≡ msg
      → flat (state (round_fn o v m r)) ≡ Portable.round_fn (flat (state v)) msg r
  unfolding round_fn in_lanes
  round_lem v m msg r e =
      let first = λ (s : Sixteen o.Vec) (g : Group o.Vec).
        half_mix_lem s g o.rot16 o.rot12 16 12 (λ a. h.turn16 a i) (λ a. h.turn12 a i) in
      let second = λ (s : Sixteen o.Vec) (g : Group o.Vec).
        half_mix_lem s g o.rot8 o.rot7 8 7 (λ a. h.turn8 a i) (λ a. h.turn7 a i) in
      let g0 = scheduled o m r 0 2 4 6 in
      let g1 = scheduled o m r 1 3 5 7 in
      let g2 = scheduled o m r 8 10 12 14 in
      let g3 = scheduled o m r 9 11 13 15 in
      let v1 = half_mix o o.rot16 o.rot12 v g0 in
      let v2 = half_mix o o.rot8 o.rot7 v1 g1 in
      let v3 = half_mix o o.rot16 o.rot12 (to_diagonals o v2) g2 in
      let e1 = first v g0 ∙ ap (half 16 12 (state v)) (words-scheduled m msg r 0 2 4 6 e) in
      let e2 = second v1 g1 ∙ ap₂ (half 8 7) e1 (words-scheduled m msg r 1 3 5 7 e) in
      let e3 =
        first (to_diagonals o v2) g2
        ∙ ap₂ (λ s x. half 16 12 (diagonals s) x) e2 (words-scheduled m msg r 8 10 12 14 e) in
      let e4 = second v3 g3 ∙ ap₂ (half 8 7) e3 (words-scheduled m msg r 9 11 13 15 e) in
      ap (λ s. flat (back s)) e4 ∙ sym (in_lanes_lem (state v) msg r)

  abbrev pub cv_of : Eight o.Vec → List ℕ
  cv_of v =
      let w = λ (x : o.Vec). h.lane x i in
      w v.lo.w0
      ∷ w v.lo.w1
      ∷ w v.lo.w2
      ∷ w v.lo.w3
      ∷ w v.hi.w0
      ∷ w v.hi.w1
      ∷ w v.hi.w2
      ∷ w v.hi.w3
      ∷ []

  start_lem :
      (v : Eight o.Vec) (lo hi : o.Vec) (counter block_flags : ℕ)
      → h.lane lo i ≡ counter_low counter
      → h.lane hi i ≡ counter_high counter
      → flat (state (start o v lo hi block_flags))
        ≡ initial_state (cv_of v) block_len counter block_flags
  unfolding initial_state
  start_lem v lo hi counter block_flags el eh =
      let s = state (start o v lo hi block_flags) in
      λ j. flat (record {
        a = s.a;
        b = s.b;
        c = record {
          l0 = h.same (at iv 0) i j;
          l1 = h.same (at iv 1) i j;
          l2 = h.same (at iv 2) i j;
          l3 = h.same (at iv 3) i j;
        };
        d = record { l0 = el j; l1 = eh j; l2 = h.same block_len i j; l3 = h.same block_flags i j };
      })

  pub hash_block_lem :
      (v : Eight o.Vec) (lo hi : o.Vec) (counter block_flags : ℕ) (m : Sixteen o.Vec)
      (block : List ℕ)
      → h.lane lo i ≡ counter_low counter
      → h.lane hi i ≡ counter_high counter
      → flat (state m) ≡ load_block_words block
      → cv_of (hash_block o v lo hi block_flags m)
        ≡ Portable.compress_in_place (cv_of v) block block_len counter block_flags
  unfolding hash_block Portable.compress_in_place Portable.compress_pre xor_words
  hash_block_lem v lo hi counter block_flags m block el eh e =
      let ws = load_block_words block in
      let x0 = start o v lo hi block_flags in
      let x1 = round_fn o x0 m 0 in
      let x2 = round_fn o x1 m 1 in
      let x3 = round_fn o x2 m 2 in
      let x4 = round_fn o x3 m 3 in
      let x5 = round_fn o x4 m 4 in
      let x6 = round_fn o x5 m 5 in
      let x7 = round_fn o x6 m 6 in
      let next = λ (x : Sixteen o.Vec) (r : ℕ) (s : List ℕ) (p : flat (state x) ≡ s).
        round_lem x m ws r e ∙ ap (λ t. Portable.round_fn t ws r) p in
      let p7 = next x6 6 _ (
        next x5 5 _ (
          next x4 4 _ (
            next x3 3 _ (
              next x2 2 _
                (next x1 1 _ (next x0 0 _ (start_lem v lo hi counter block_flags el eh))))))) in
      (λ j.
        h.xor x7.a.w0 x7.c.w0 i j
        ∷ h.xor x7.a.w1 x7.c.w1 i j
        ∷ h.xor x7.a.w2 x7.c.w2 i j
        ∷ h.xor x7.a.w3 x7.c.w3 i j
        ∷ h.xor x7.b.w0 x7.d.w0 i j
        ∷ h.xor x7.b.w1 x7.d.w1 i j
        ∷ h.xor x7.b.w2 x7.d.w2 i j
        ∷ h.xor x7.b.w3 x7.d.w3 i j
        ∷ [])
      ∙ ap (λ s. xor_words 8 s 0 s 8) p7
