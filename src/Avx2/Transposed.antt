-- ===== src/Avx2/Transposed.antt =====
-- The transposition of eight vectors: lane `j` of the one with index `i` goes to lane `i` of the one
-- with index `j`.
use blake.Base.{
  ℕ, zero, suc, ◌+◌, ◌*◌, ◌<◌, ◌≡◌, refl, sym, ap, ap₂, ◌∙◌, arith, List, [], ◌∷◌, drop, drop-drop,
  get_or,
}
use blake.Impl.{load32, load_block_words, store_words, store_cv_words}
use blake.Sse.{Four}
use blake.Sse.Lanes.{four_equal}
use blake.Sse.Mixing.{flat}
use blake.Sse.Messages.{load32-drop}
use blake.Wide.{Eight, item}
use blake.Wide.Lanes.{state, cv_of}
use blake.Avx2.{
  Halves, Intrinsics, Documented, four, ops, transpose_vecs, load_input, load_inputs,
  transpose_msg_vecs,
}
use blake.Avx2.Lanes.{lane8, in_lane}

abbrev pub item8 : {A : Type 0} → Eight A → ℕ → A
item8 g (suc (suc (suc (suc i)))) = item g.hi i
item8 g i = item g.lo i

module _ (k : Intrinsics) (d : Documented k) where
  open d use {halves}

  -- One lane of the halves of four vectors.
  abbrev crossed : (Four → ℕ) → k.Vec → k.Vec → k.Vec → k.Vec → Halves
  crossed f a b c e = record {
    lo = four (f (halves a).lo) (f (halves b).lo) (f (halves c).lo) (f (halves e).lo);
    hi = four (f (halves a).hi) (f (halves b).hi) (f (halves c).hi) (f (halves e).hi);
  }

  abbrev lows : Halves → Halves → Halves
  lows x y = record {
    lo = four x.lo.l0 x.lo.l1 y.lo.l0 y.lo.l1;
    hi = four x.hi.l0 x.hi.l1 y.hi.l0 y.hi.l1;
  }

  abbrev highs : Halves → Halves → Halves
  highs x y = record {
    lo = four x.lo.l2 x.lo.l3 y.lo.l2 y.lo.l3;
    hi = four x.hi.l2 x.hi.l3 y.hi.l2 y.hi.l3;
  }

  four_crossed :
      (a b c e : k.Vec)
      → let ab = k.unpacklo_epi32 a b in
        let ab' = k.unpackhi_epi32 a b in
        let ce = k.unpacklo_epi32 c e in
        let ce' = k.unpackhi_epi32 c e in
        (halves (k.unpacklo_epi64 ab ce) ≡ crossed (λ x. x.l0) a b c e)
        × (halves (k.unpackhi_epi64 ab ce) ≡ crossed (λ x. x.l1) a b c e)
        × (halves (k.unpacklo_epi64 ab' ce') ≡ crossed (λ x. x.l2) a b c e)
        × (halves (k.unpackhi_epi64 ab' ce') ≡ crossed (λ x. x.l3) a b c e)
  four_crossed a b c e = (
    d.unpacklo64 _ _ ∙ ap₂ lows (d.unpacklo32 a b) (d.unpacklo32 c e),
    d.unpackhi64 _ _ ∙ ap₂ highs (d.unpacklo32 a b) (d.unpacklo32 c e),
    d.unpacklo64 _ _ ∙ ap₂ lows (d.unpackhi32 a b) (d.unpackhi32 c e),
    d.unpackhi64 _ _ ∙ ap₂ highs (d.unpackhi32 a b) (d.unpackhi32 c e),
  )

  -- One lane of eight vectors.
  abbrev column : Eight k.Vec → (Halves → ℕ) → Halves
  column g f =
      let w = λ (v : k.Vec). f (halves v) in
      record {
        lo = four (w g.lo.w0) (w g.lo.w1) (w g.lo.w2) (w g.lo.w3);
        hi = four (w g.hi.w0) (w g.hi.w1) (w g.hi.w2) (w g.hi.w3);
      }

  from_low :
      (f : Four → ℕ) (g : Eight k.Vec) (x y : k.Vec)
      → halves x ≡ crossed f g.lo.w0 g.lo.w1 g.lo.w2 g.lo.w3
      → halves y ≡ crossed f g.hi.w0 g.hi.w1 g.hi.w2 g.hi.w3
      → halves (k.permute2x128_si256 x y 0x20) ≡ column g (λ p. f p.lo)
  from_low f g x y p q =
      d.permute_low x y ∙ ap₂ (λ s t. let h : Halves = record { lo = s.lo; hi = t.lo } in h) p q

  from_high :
      (f : Four → ℕ) (g : Eight k.Vec) (x y : k.Vec)
      → halves x ≡ crossed f g.lo.w0 g.lo.w1 g.lo.w2 g.lo.w3
      → halves y ≡ crossed f g.hi.w0 g.hi.w1 g.hi.w2 g.hi.w3
      → halves (k.permute2x128_si256 x y 0x31) ≡ column g (λ p. f p.hi)
  from_high f g x y p q =
      d.permute_high x y ∙ ap₂ (λ s t. let h : Halves = record { lo = s.hi; hi = t.hi } in h) p q

  transposed :
      (g : Eight k.Vec)
      → let r = transpose_vecs k g in
        (halves r.lo.w0 ≡ column g (λ p. p.lo.l0))
        × (halves r.lo.w1 ≡ column g (λ p. p.lo.l1))
        × (halves r.lo.w2 ≡ column g (λ p. p.lo.l2))
        × (halves r.lo.w3 ≡ column g (λ p. p.lo.l3))
        × (halves r.hi.w0 ≡ column g (λ p. p.hi.l0))
        × (halves r.hi.w1 ≡ column g (λ p. p.hi.l1))
        × (halves r.hi.w2 ≡ column g (λ p. p.hi.l2))
        × (halves r.hi.w3 ≡ column g (λ p. p.hi.l3))
  unfolding transpose_vecs
  transposed g =
      let p = four_crossed g.lo.w0 g.lo.w1 g.lo.w2 g.lo.w3 in
      let q = four_crossed g.hi.w0 g.hi.w1 g.hi.w2 g.hi.w3 in
      (
        from_low (λ x. x.l0) g _ _ p.0 q.0,
        from_low (λ x. x.l1) g _ _ p.1 q.1,
        from_low (λ x. x.l2) g _ _ p.2 q.2,
        from_low (λ x. x.l3) g _ _ p.3 q.3,
        from_high (λ x. x.l0) g _ _ p.0 q.0,
        from_high (λ x. x.l1) g _ _ p.1 q.1,
        from_high (λ x. x.l2) g _ _ p.2 q.2,
        from_high (λ x. x.l3) g _ _ p.3 q.3,
      )

  lane8-column :
      (g : Eight k.Vec) (f : Halves → ℕ) (i : ℕ) → lane8 (column g f) i ≡ f (halves (item8 g i))
  lane8-column g f zero = refl
  lane8-column g f (suc zero) = refl
  lane8-column g f (suc (suc zero)) = refl
  lane8-column g f (suc (suc (suc zero))) = refl
  lane8-column g f (suc (suc (suc (suc zero)))) = refl
  lane8-column g f (suc (suc (suc (suc (suc zero))))) = refl
  lane8-column g f (suc (suc (suc (suc (suc (suc zero)))))) = refl
  lane8-column g f (suc (suc (suc (suc (suc (suc (suc i))))))) = refl

  -- What lane `i` of the vectors holds.
  words_transposed :
      (g : Eight k.Vec) (i : ℕ)
      → let r = transpose_vecs k g in
        let w = λ (v : k.Vec). lane8 (halves v) i in
        (four (w r.lo.w0) (w r.lo.w1) (w r.lo.w2) (w r.lo.w3) ≡ (halves (item8 g i)).lo)
        × (four (w r.hi.w0) (w r.hi.w1) (w r.hi.w2) (w r.hi.w3) ≡ (halves (item8 g i)).hi)
  words_transposed g i =
      let p = transposed g in
      let w = λ (x : k.Vec) (f : Halves → ℕ) (e : halves x ≡ column g f).
        ap (λ t. lane8 t i) e ∙ lane8-column g f i in
      (
        four_equal (w _ (λ x. x.lo.l0) p.0) (w _ (λ x. x.lo.l1) p.1) (w _ (λ x. x.lo.l2) p.2)
            (w _ (λ x. x.lo.l3) p.3),
        four_equal (w _ (λ x. x.hi.l0) p.4) (w _ (λ x. x.hi.l1) p.5) (w _ (λ x. x.hi.l2) p.6)
            (w _ (λ x. x.hi.l3) p.7),
      )

  item8-load_inputs :
      (inputs : List (List ℕ)) (offset i : ℕ)
      → i < 8
      → item8 (load_inputs k inputs offset) i ≡ load_input k inputs offset i
  item8-load_inputs inputs offset zero h = refl
  item8-load_inputs inputs offset (suc zero) h = refl
  item8-load_inputs inputs offset (suc (suc zero)) h = refl
  item8-load_inputs inputs offset (suc (suc (suc zero))) h = refl
  item8-load_inputs inputs offset (suc (suc (suc (suc zero)))) h = refl
  item8-load_inputs inputs offset (suc (suc (suc (suc (suc zero))))) h = refl
  item8-load_inputs inputs offset (suc (suc (suc (suc (suc (suc zero)))))) h = refl
  item8-load_inputs inputs offset (suc (suc (suc (suc (suc (suc (suc zero))))))) h = refl
  item8-load_inputs inputs offset (suc (suc (suc (suc (suc (suc (suc (suc i)))))))) h =
      absurd (omega arith)

  -- Thirty-two bytes of an input.
  load_input_lem :
      (inputs : List (List ℕ)) (i offset n : ℕ)
      → halves (load_input k inputs (offset + n) i) ≡ (
          let p = drop offset (get_or inputs i []) in
          record {
            lo = four (load32 p n) (load32 p (n + 4)) (load32 p (n + 8)) (load32 p (n + 12));
            hi =
                four
                  (load32 p (n + 16))
                  (load32 p (n + 20))
                  (load32 p (n + 24))
                  (load32 p (n + 28));
          })
  load_input_lem inputs i offset n =
      let p = drop offset (get_or inputs i []) in
      let w = λ (j : ℕ).
        ap (λ q. load32 q j) (sym (drop-drop n offset (get_or inputs i []))) ∙ load32-drop n j p in
      let lo =
        four_equal (w 0 ∙ ap (load32 p) {x = n + 0} {y = n} (omega arith)) (w 4) (w 8) (w 12) in
      let hi = four_equal (w 16) (w 20) (w 24) (w 28) in
      d.loadu _ ∙ (λ j. record { lo = lo j; hi = hi j })

  pub message_lem :
      (inputs : List (List ℕ)) (i : ℕ)
      → i < 8
      → (offset : ℕ)
      → flat (state (ops k) (in_lane k d) i (transpose_msg_vecs k inputs offset))
        ≡ load_block_words (drop offset (get_or inputs i []))
  unfolding transpose_msg_vecs load_block_words
  message_lem inputs i h offset =
      let row = λ (n : ℕ).
        ap halves (item8-load_inputs inputs (offset + n) i h) ∙ load_input_lem inputs i offset n in
      let low = words_transposed (load_inputs k inputs (offset + 0 * 32)) i in
      let high = words_transposed (load_inputs k inputs (offset + 1 * 32)) i in
      let a = low.0 ∙ ap (λ t. t.lo) (row 0) in
      let b = low.1 ∙ ap (λ t. t.hi) (row 0) in
      let c = high.0 ∙ ap (λ t. t.lo) (row 32) in
      let e = high.1 ∙ ap (λ t. t.hi) (row 32) in
      λ j. flat (record { a = a j; b = b j; c = c j; d = e j })

  -- The bytes of a lane of the chaining values.
  abbrev pub output : Eight k.Vec → ℕ → List ℕ
  output h i = store_cv_words (cv_of (ops k) (in_lane k d) i h)

  stored :
      (x : k.Vec) (y : Halves)
      → halves x ≡ y
      → k.storeu_si256 x
        ≡ store_words
            (y.lo.l0 ∷ y.lo.l1 ∷ y.lo.l2 ∷ y.lo.l3 ∷ y.hi.l0 ∷ y.hi.l1 ∷ y.hi.l2 ∷ y.hi.l3 ∷ [])
  stored x y e =
      d.storeu x
      ∙ ap
          (λ (s : Halves).
            store_words
              (s.lo.l0 ∷ s.lo.l1 ∷ s.lo.l2 ∷ s.lo.l3 ∷ s.hi.l0 ∷ s.hi.l1 ∷ s.hi.l2 ∷ s.hi.l3 ∷ []))
          e

  pub stored_lem :
      (h : Eight k.Vec)
      → let r = transpose_vecs k h in
        k.storeu_si256 r.lo.w0
          ∷ k.storeu_si256 r.lo.w1
          ∷ k.storeu_si256 r.lo.w2
          ∷ k.storeu_si256 r.lo.w3
          ∷ k.storeu_si256 r.hi.w0
          ∷ k.storeu_si256 r.hi.w1
          ∷ k.storeu_si256 r.hi.w2
          ∷ k.storeu_si256 r.hi.w3
          ∷ []
        ≡ output h 0
          ∷ output h 1
          ∷ output h 2
          ∷ output h 3
          ∷ output h 4
          ∷ output h 5
          ∷ output h 6
          ∷ output h 7
          ∷ []
  unfolding store_cv_words
  stored_lem h =
      let p = transposed h in
      λ j.
        stored _ _ p.0 j
        ∷ stored _ _ p.1 j
        ∷ stored _ _ p.2 j
        ∷ stored _ _ p.3 j
        ∷ stored _ _ p.4 j
        ∷ stored _ _ p.5 j
        ∷ stored _ _ p.6 j
        ∷ stored _ _ p.7 j
        ∷ []
