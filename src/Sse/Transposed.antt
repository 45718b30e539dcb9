-- ===== src/Sse/Transposed.antt =====
-- The transposition of four vectors: lane `j` of the one with index `i` goes to lane `i` of the one
-- with index `j`.
use blake.Base.{ℕ, zero, suc, ◌≡◌, refl, ap, ap₂, ◌∙◌}
use blake.Sse.{Four, Intrinsics, Documented, lane}
use blake.Sse.Lanes.{four_equal}
use blake.Sse.Many.{transpose_vecs}
use blake.Wide.{Group, item}

module _ (k : Intrinsics) (d : Documented k) where
  open d use {lanes}

  -- What `transpose_vecs` leaves: a lane of each vector.
  abbrev column : Group k.Vec → (Four → ℕ) → Four
  column g f = record {
    l0 = f (lanes g.w0);
    l1 = f (lanes g.w1);
    l2 = f (lanes g.w2);
    l3 = f (lanes g.w3);
  }

  pub transposed :
      (g : Group k.Vec)
      → let r = transpose_vecs k g in
        (lanes r.w0 ≡ column g (λ a. a.l0))
        × (lanes r.w1 ≡ column g (λ a. a.l1))
        × (lanes r.w2 ≡ column g (λ a. a.l2))
        × (lanes r.w3 ≡ column g (λ a. a.l3))
  unfolding transpose_vecs
  transposed g =
      let ab01 = d.unpacklo32 g.w0 g.w1 in
      let ab23 = d.unpackhi32 g.w0 g.w1 in
      let cd01 = d.unpacklo32 g.w2 g.w3 in
      let cd23 = d.unpackhi32 g.w2 g.w3 in
      let lows =
        λ (s t : Four). let r : Four = record { l0 = s.l0; l1 = s.l1; l2 = t.l0; l3 = t.l1 } in r in
      let highs =
        λ (s t : Four). let r : Four = record { l0 = s.l2; l1 = s.l3; l2 = t.l2; l3 = t.l3 } in r in
      (
        d.unpacklo64 _ _ ∙ ap₂ lows ab01 cd01,
        d.unpackhi64 _ _ ∙ ap₂ highs ab01 cd01,
        d.unpacklo64 _ _ ∙ ap₂ lows ab23 cd23,
        d.unpackhi64 _ _ ∙ ap₂ highs ab23 cd23,
      )

  -- Lane `i` of the four vectors is the vector with that index.
  pub transposed_words :
      (g : Group k.Vec) (i : ℕ)
      → let r = transpose_vecs k g in
        ◌≡◌ {A = Four}
          (record {
            l0 = lane (lanes r.w0) i;
            l1 = lane (lanes r.w1) i;
            l2 = lane (lanes r.w2) i;
            l3 = lane (lanes r.w3) i;
          })
          (lanes (item g i))
  transposed_words g i =
      let (p0, p1, p2, p3) = transposed g in
      four_equal (ap (λ t. lane t i) p0) (ap (λ t. lane t i) p1) (ap (λ t. lane t i) p2)
        (ap (λ t. lane t i) p3)
      ∙ at_lane i
    where
      at_lane :
          (j : ℕ)
          → ◌≡◌ {A = Four}
              (record {
                l0 = lane (column g (λ a. a.l0)) j;
                l1 = lane (column g (λ a. a.l1)) j;
                l2 = lane (column g (λ a. a.l2)) j;
                l3 = lane (column g (λ a. a.l3)) j;
              })
              (lanes (item g j))
      at_lane zero = refl
      at_lane (suc zero) = refl
      at_lane (suc (suc zero)) = refl
      at_lane (suc (suc (suc j))) = refl
