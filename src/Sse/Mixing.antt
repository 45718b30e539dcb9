-- ===== src/Sse/Mixing.antt =====
-- A round of the portable code on sixteen words, as rows and as columns.
use blake.Base.{ℕ, ◌≡◌, refl, sym, ap, ◌∙◌, List, [], ◌∷◌, get_or}
use blake.Impl.{at, msg_schedule}
use blake.Portable.{round_fn}
use blake.Sse.{Four}
use blake.Sse.Lanes.{Quad, half}
use blake.Sse.Columns.{quarter, mixes}

-- The words of the rows in order.
abbrev pub flat : Quad → List ℕ
flat s =
    s.a.l0 ∷ s.a.l1 ∷ s.a.l2 ∷ s.a.l3 ∷ s.b.l0 ∷ s.b.l1 ∷ s.b.l2 ∷ s.b.l3 ∷ s.c.l0 ∷ s.c.l1 ∷ s.c.l2
    ∷ s.c.l3 ∷ s.d.l0 ∷ s.d.l1 ∷ s.d.l2 ∷ s.d.l3 ∷ []

-- A mixing of every column.
abbrev pub columns : Quad → Four → Four → Quad
columns s x y =
    let q0 = quarter s.a.l0 s.b.l0 s.c.l0 s.d.l0 x.l0 y.l0 in
    let q1 = quarter s.a.l1 s.b.l1 s.c.l1 s.d.l1 x.l1 y.l1 in
    let q2 = quarter s.a.l2 s.b.l2 s.c.l2 s.d.l2 x.l2 y.l2 in
    let q3 = quarter s.a.l3 s.b.l3 s.c.l3 s.d.l3 x.l3 y.l3 in
    record {
      a = record { l0 = q0.a; l1 = q1.a; l2 = q2.a; l3 = q3.a };
      b = record { l0 = q0.b; l1 = q1.b; l2 = q2.b; l3 = q3.b };
      c = record { l0 = q0.c; l1 = q1.c; l2 = q2.c; l3 = q3.c };
      d = record { l0 = q0.d; l1 = q1.d; l2 = q2.d; l3 = q3.d };
    }

abbrev pub diagonal : Quad → Quad
diagonal s = record s {
  a = record { l0 = s.a.l3; l1 = s.a.l0; l2 = s.a.l1; l3 = s.a.l2 };
  c = record { l0 = s.c.l1; l1 = s.c.l2; l2 = s.c.l3; l3 = s.c.l0 };
  d = record { l0 = s.d.l2; l1 = s.d.l3; l2 = s.d.l0; l3 = s.d.l1 };
}

abbrev pub straight : Quad → Quad
straight s = record s {
  a = record { l0 = s.a.l1; l1 = s.a.l2; l2 = s.a.l3; l3 = s.a.l0 };
  c = record { l0 = s.c.l3; l1 = s.c.l0; l2 = s.c.l1; l3 = s.c.l2 };
  d = record { l0 = s.d.l2; l1 = s.d.l3; l2 = s.d.l0; l3 = s.d.l1 };
}

-- The message words of a round as the vectors hold them: `row1` stays where it is, so those of the
-- diagonals are turned.
abbrev pub arranged : List ℕ → ℕ → Quad
arranged msg round =
    let w = λ (i : ℕ). at msg (at (get_or msg_schedule round []) i) in
    record {
      a = record { l0 = w 0; l1 = w 2; l2 = w 4; l3 = w 6 };
      b = record { l0 = w 1; l1 = w 3; l2 = w 5; l3 = w 7 };
      c = record { l0 = w 14; l1 = w 8; l2 = w 10; l3 = w 12 };
      d = record { l0 = w 15; l1 = w 9; l2 = w 11; l3 = w 13 };
    }

unfoldable pub mixed : Quad → Quad → Quad
mixed s t = straight (columns (diagonal (columns s t.a t.b)) t.c t.d)

pub round_fn_lem :
    (s : Quad) (msg : List ℕ) (round : ℕ)
    → round_fn (flat s) msg round ≡ flat (mixed s (arranged msg round))
unfolding round_fn mixed
round_fn_lem s msg round = simp mixes

pub columns_lem : (s : Quad) (x y : Four) → half 8 7 (half 16 12 s x) y ≡ columns s x y
unfolding quarter
columns_lem s x y = refl

abbrev four : ℕ → ℕ → ℕ → ℕ → Four
four a b c d = record { l0 = a; l1 = b; l2 = c; l3 = d }

-- The same with the first row where it stays, which is how a round is written over sixteen vectors.
abbrev pub diagonals : Quad → Quad
diagonals s = record s {
  b = record { l0 = s.b.l1; l1 = s.b.l2; l2 = s.b.l3; l3 = s.b.l0 };
  c = record { l0 = s.c.l2; l1 = s.c.l3; l2 = s.c.l0; l3 = s.c.l1 };
  d = record { l0 = s.d.l3; l1 = s.d.l0; l2 = s.d.l1; l3 = s.d.l2 };
}

abbrev pub back : Quad → Quad
back s = record s {
  b = record { l0 = s.b.l3; l1 = s.b.l0; l2 = s.b.l1; l3 = s.b.l2 };
  c = record { l0 = s.c.l2; l1 = s.c.l3; l2 = s.c.l0; l3 = s.c.l1 };
  d = record { l0 = s.d.l1; l1 = s.d.l2; l2 = s.d.l3; l3 = s.d.l0 };
}

unfoldable pub in_lanes : Quad → List ℕ → ℕ → Quad
in_lanes s msg round =
    let w = λ (i : ℕ). at msg (at (get_or msg_schedule round []) i) in
    let top =
      half 8 7 (half 16 12 s (four (w 0) (w 2) (w 4) (w 6))) (four (w 1) (w 3) (w 5) (w 7)) in
    back (
      half 8 7 (half 16 12 (diagonals top) (four (w 8) (w 10) (w 12) (w 14)))
        (four (w 9) (w 11) (w 13) (w 15)))

pub in_lanes_lem :
    (s : Quad) (msg : List ℕ) (round : ℕ)
    → round_fn (flat s) msg round ≡ flat (in_lanes s msg round)
unfolding round_fn in_lanes
in_lanes_lem s msg round =
    let w = λ (i : ℕ). at msg (at (get_or msg_schedule round []) i) in
    let top = columns s (four (w 0) (w 2) (w 4) (w 6)) (four (w 1) (w 3) (w 5) (w 7)) in
    let first = columns_lem s (four (w 0) (w 2) (w 4) (w 6)) (four (w 1) (w 3) (w 5) (w 7)) in
    let written : round_fn (flat s) msg round
        ≡ flat (
            back (
              columns (diagonals top) (four (w 8) (w 10) (w 12) (w 14))
                (four (w 9) (w 11) (w 13) (w 15)))) =
      simp mixes in
    written
    ∙ sym (
        ap (λ t. flat (back t))
          (ap
              (λ t.
                half 8 7 (half 16 12 (diagonals t) (four (w 8) (w 10) (w 12) (w 14)))
                  (four (w 9) (w 11) (w 13) (w 15)))
              first
            ∙ columns_lem (diagonals top) (four (w 8) (w 10) (w 12) (w 14))
                (four (w 9) (w 11) (w 13) (w 15))))
