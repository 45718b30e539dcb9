-- ===== src/Sse/Rounds.antt =====
-- A round on the lanes of four rows is a round of the portable code.
use blake.Base.{◌≡◌, ap, ◌∙◌}
use blake.Sse.{Intrinsics, Documented}
use blake.Sse.Rows.{Variant, Rows, Message, g1, g2, diagonalize, undiagonalize, mix}
use blake.Sse.Lanes.{IsVariant, Quad, half, quad, g1_lanes, g2_lanes}
use blake.Sse.Mixing.{columns, diagonal, straight, mixed, columns_lem}

module _ (k : Intrinsics) (d : Documented k) where
  open d use {lanes}

  abbrev pub message : Message k → Quad
  message m = record { a = lanes m.m0; b = lanes m.m1; c = lanes m.m2; d = lanes m.m3 }

  diagonalize_lanes : (r : Rows k) → quad k d (diagonalize k r) ≡ diagonal (quad k d r)
  unfolding diagonalize
  diagonalize_lanes r = λ i. record {
    a = d.shuffle32 r.row0 2 1 0 3 i;
    b = lanes r.row1;
    c = d.shuffle32 r.row2 0 3 2 1 i;
    d = d.shuffle32 r.row3 1 0 3 2 i;
  }

  undiagonalize_lanes : (r : Rows k) → quad k d (undiagonalize k r) ≡ straight (quad k d r)
  unfolding undiagonalize
  undiagonalize_lanes r = λ i. record {
    a = d.shuffle32 r.row0 0 3 2 1 i;
    b = lanes r.row1;
    c = d.shuffle32 r.row2 2 1 0 3 i;
    d = d.shuffle32 r.row3 1 0 3 2 i;
  }

module _ (k : Intrinsics) (d : Documented k) (t : Variant k) (v : IsVariant k d t) where
  open d use {lanes}

  columns_lanes :
      (r : Rows k) (x y : k.Vec)
      → quad k d (g2 k t (g1 k t r x) y) ≡ columns (quad k d r) (lanes x) (lanes y)
  columns_lanes r x y =
      g2_lanes k d t v (g1 k t r x) y
      ∙ ap (λ s. half 8 7 s (lanes y)) (g1_lanes k d t v r x)
      ∙ columns_lem (quad k d r) (lanes x) (lanes y)

  pub mix_lanes :
      (r : Rows k) (m : Message k) → quad k d (mix k t r m) ≡ mixed (quad k d r) (message k d m)
  unfolding mix mixed
  mix_lanes r m =
      let first = g2 k t (g1 k t r m.m0) m.m1 in
      undiagonalize_lanes k d (g2 k t (g1 k t (diagonalize k first) m.m2) m.m3)
      ∙ ap straight (
          columns_lanes (diagonalize k first) m.m2 m.m3
          ∙ ap (λ s. columns s (lanes m.m2) (lanes m.m3))
              (diagonalize_lanes k d first ∙ ap diagonal (columns_lanes r m.m0 m.m1)))
