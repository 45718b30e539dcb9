-- ===== src/Sse/Hash4.antt =====
-- The hashing of four inputs at a time does for each input what the portable code does.
use blake.Base.{
  ℕ, zero, suc, ◌+◌, ◌<◌, bit_xor, ◌≡◌, refl, sym, ap, ap₂, ◌∙◌, arith, List, [], ◌∷◌, ◌++◌, drop,
  drop-drop, get_or, u32,
}
use blake.Impl.{load32, load_block_words, store_words, store_cv_words}
use blake.Portable.{rotr32}
use blake.Sse.{Four, Intrinsics, Documented, lane}
use blake.Sse.Rows.{Variant, addv, xorv}
use blake.Sse.Lanes.{IsVariant, four_equal, rot12_lanes, rot7_lanes}
use blake.Sse.Mixing.{flat}
use blake.Sse.Messages.{load32-drop}
use blake.Sse.Counters.{lane-zip, lane-each, lane_same}
use blake.Sse.Transposed.{transposed, transposed_words}
use blake.Sse.Many.{ops, transpose_vecs, load_input, load_group, transpose_msg_vecs, store_outputs}
use blake.Wide.{Group, Eight, item}
use blake.Wide.Lanes.{HasLanes, state, cv_of}

module _ (k : Intrinsics) (d : Documented k) where
  open d use {lanes}

  -- Sixteen bytes of an input.
  load_input_lem :
      (inputs : List (List ℕ)) (j offset n : ℕ)
      → lanes (load_input k inputs j (offset + n)) ≡ (
          let p = drop offset (get_or inputs j []) in
          record {
            l0 = load32 p n;
            l1 = load32 p (n + 4);
            l2 = load32 p (n + 8);
            l3 = load32 p (n + 12);
          })
  load_input_lem inputs j offset n =
      let p = drop offset (get_or inputs j []) in
      d.loadu _
      ∙ ap (λ q. record { l0 = load32 q 0; l1 = load32 q 4; l2 = load32 q 8; l3 = load32 q 12 })
          (sym (drop-drop n offset (get_or inputs j [])))
      ∙ four_equal (load32-drop n 0 p ∙ ap (load32 p) {x = n + 0} {y = n} (omega arith))
          (load32-drop n 4 p) (load32-drop n 8 p) (load32-drop n 12 p)

  load_group_lem :
      (inputs : List (List ℕ)) (i offset : ℕ)
      → i < 4
      → let r = load_group k inputs offset in
        ◌≡◌ {A = Four}
          (record {
            l0 = lane (lanes r.w0) i;
            l1 = lane (lanes r.w1) i;
            l2 = lane (lanes r.w2) i;
            l3 = lane (lanes r.w3) i;
          })
          (lanes (load_input k inputs i offset))
  unfolding load_group
  load_group_lem inputs i offset h =
      let g : Group k.Vec = record {
        w0 = load_input k inputs 0 offset;
        w1 = load_input k inputs 1 offset;
        w2 = load_input k inputs 2 offset;
        w3 = load_input k inputs 3 offset;
      } in
      transposed_words k d g i ∙ which i h
    where
      which :
          (j : ℕ)
          → j < 4
          → lanes (
              item
                (record {
                  w0 = load_input k inputs 0 offset;
                  w1 = load_input k inputs 1 offset;
                  w2 = load_input k inputs 2 offset;
                  w3 = load_input k inputs 3 offset;
                })
                j)
            ≡ lanes (load_input k inputs j offset)
      which zero b = refl
      which (suc zero) b = refl
      which (suc (suc zero)) b = refl
      which (suc (suc (suc zero))) b = refl
      which (suc (suc (suc (suc j)))) b = absurd (omega arith)

module _ (k : Intrinsics) (d : Documented k) (t : Variant k) (v : IsVariant k d t) where
  open d use {lanes}

  pub add_lem :
      (a b : k.Vec) (i : ℕ)
      → lane (lanes (addv k a b)) i ≡ u32 (lane (lanes a) i + lane (lanes b) i)
  unfolding addv
  add_lem a b i =
      ap (λ s. lane s i) (d.add a b) ∙ lane-zip (λ x y. u32 (x + y)) (lanes a) (lanes b) i

  pub xor_lem :
      (a b : k.Vec) (i : ℕ)
      → lane (lanes (xorv k a b)) i ≡ bit_xor (lane (lanes a) i) (lane (lanes b) i)
  unfolding xorv
  xor_lem a b i = ap (λ s. lane s i) (d.xor a b) ∙ lane-zip bit_xor (lanes a) (lanes b) i

  abbrev pub in_lane : HasLanes (ops k t)
  in_lane = record {
    lane = λ x i. lane (lanes x) i;
    add = λ a b i. add_lem a b i;
    xor = λ a b i. xor_lem a b i;
    same = λ x i. ap (λ s. lane s i) (d.set1 x) ∙ lane_same (u32 x) i;
    turn16 = λ a i. ap (λ s. lane s i) (v.turn16 a) ∙ lane-each (λ w. rotr32 w 16) (lanes a) i;
    turn12 =
        λ a i. ap (λ s. lane s i) (rot12_lanes k d a) ∙ lane-each (λ w. rotr32 w 12) (lanes a) i;
    turn8 = λ a i. ap (λ s. lane s i) (v.turn8 a) ∙ lane-each (λ w. rotr32 w 8) (lanes a) i;
    turn7 = λ a i. ap (λ s. lane s i) (rot7_lanes k d a) ∙ lane-each (λ w. rotr32 w 7) (lanes a) i;
  }

  pub message_lem :
      (inputs : List (List ℕ)) (i : ℕ)
      → i < 4
      → (offset : ℕ)
      → flat (state (ops k t) in_lane i (transpose_msg_vecs k inputs offset))
        ≡ load_block_words (drop offset (get_or inputs i []))
  unfolding transpose_msg_vecs load_block_words
  message_lem inputs i h offset =
      let row = λ (n : ℕ).
        load_group_lem k d inputs i (offset + n) h ∙ load_input_lem k d inputs i offset n in
      λ j. flat (record { a = row 0 j; b = row 16 j; c = row 32 j; d = row 48 j })

  -- The bytes of a lane of the chaining values.
  abbrev pub output : Eight k.Vec → ℕ → List ℕ
  output h i = store_cv_words (cv_of (ops k t) in_lane i h)

  pub store_outputs_lem :
      (h : Eight k.Vec) → store_outputs k h ≡ output h 0 ∷ output h 1 ∷ output h 2 ∷ output h 3 ∷ []
  unfolding store_outputs store_cv_words store_words
  store_outputs_lem h =
      let (a0, a1, a2, a3) = transposed k d h.lo in
      let (b0, b1, b2, b3) = transposed k d h.hi in
      let out = λ (x : k.Vec) (y : Four) (e : lanes x ≡ y).
        d.storeu x ∙ ap (λ (s : Four). store_words (s.l0 ∷ s.l1 ∷ s.l2 ∷ s.l3 ∷ [])) e in
      let pair =
        λ (x : k.Vec) (x' : Four) (e : lanes x ≡ x') (y : k.Vec) (y' : Four) (f : lanes y ≡ y').
          ap₂ ◌++◌ (out x x' e) (out y y' f) in
      let lo = transpose_vecs k h.lo in
      let hi = transpose_vecs k h.hi in
      let p0 = pair lo.w0 _ a0 hi.w0 _ b0 in
      let p1 = pair lo.w1 _ a1 hi.w1 _ b1 in
      let p2 = pair lo.w2 _ a2 hi.w2 _ b2 in
      let p3 = pair lo.w3 _ a3 hi.w3 _ b3 in λ j. p0 j ∷ p1 j ∷ p2 j ∷ p3 j ∷ []
