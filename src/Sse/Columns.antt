-- ===== src/Sse/Columns.antt =====
-- A mixing of four of sixteen words.
use blake.Base.{ℕ, ◌≡◌, refl, [], ◌∷◌, bit_xor}
use blake.Portable.{rotr32, add_to, mix_to, g}
use blake.Sse.Lanes.{sum3}

-- What a mixing leaves of its four words.
pub record Column : Type 0 where
  pub a : ℕ
  pub b : ℕ
  pub c : ℕ
  pub d : ℕ

abbrev pub half_column : ℕ → ℕ → Column → ℕ → Column
half_column c1 c2 s x =
    let a = sum3 s.a s.b x in
    let d = rotr32 (bit_xor s.d a) c1 in
    let c = sum3 s.c d 0 in record { a = a; b = rotr32 (bit_xor s.b c) c2; c = c; d = d }

unfoldable pub quarter : ℕ → ℕ → ℕ → ℕ → ℕ → ℕ → Column
quarter a b c d x y =
    half_column 8 7 (half_column 16 12 (record { a = a; b = b; c = c; d = d }) x) y

module _ (s0 s1 s2 s3 s4 s5 s6 s7 s8 s9 s10 s11 s12 s13 s14 s15 x y : ℕ) where
  pub mix0 :
      g
        (s0 ∷ s1 ∷ s2 ∷ s3 ∷ s4 ∷ s5 ∷ s6 ∷ s7 ∷ s8 ∷ s9 ∷ s10 ∷ s11 ∷ s12 ∷ s13 ∷ s14 ∷ s15 ∷ [])
        0
        4
        8
        12
        x
        y
      ≡ (let q = quarter s0 s4 s8 s12 x y in
          q.a ∷ s1 ∷ s2 ∷ s3 ∷ q.b ∷ s5 ∷ s6 ∷ s7 ∷ q.c ∷ s9 ∷ s10 ∷ s11 ∷ q.d ∷ s13 ∷ s14 ∷ s15
          ∷ [])
  unfolding g add_to mix_to quarter sum3
  mix0 = refl

  pub mix1 :
      g
        (s0 ∷ s1 ∷ s2 ∷ s3 ∷ s4 ∷ s5 ∷ s6 ∷ s7 ∷ s8 ∷ s9 ∷ s10 ∷ s11 ∷ s12 ∷ s13 ∷ s14 ∷ s15 ∷ [])
        1
        5
        9
        13
        x
        y
      ≡ (let q = quarter s1 s5 s9 s13 x y in
          s0 ∷ q.a ∷ s2 ∷ s3 ∷ s4 ∷ q.b ∷ s6 ∷ s7 ∷ s8 ∷ q.c ∷ s10 ∷ s11 ∷ s12 ∷ q.d ∷ s14 ∷ s15
          ∷ [])
  unfolding g add_to mix_to quarter sum3
  mix1 = refl

  pub mix2 :
      g
        (s0 ∷ s1 ∷ s2 ∷ s3 ∷ s4 ∷ s5 ∷ s6 ∷ s7 ∷ s8 ∷ s9 ∷ s10 ∷ s11 ∷ s12 ∷ s13 ∷ s14 ∷ s15 ∷ [])
        2
        6
        10
        14
        x
        y
      ≡ (let q = quarter s2 s6 s10 s14 x y in
          s0 ∷ s1 ∷ q.a ∷ s3 ∷ s4 ∷ s5 ∷ q.b ∷ s7 ∷ s8 ∷ s9 ∷ q.c ∷ s11 ∷ s12 ∷ s13 ∷ q.d ∷ s15
          ∷ [])
  unfolding g add_to mix_to quarter sum3
  mix2 = refl

  pub mix3 :
      g
        (s0 ∷ s1 ∷ s2 ∷ s3 ∷ s4 ∷ s5 ∷ s6 ∷ s7 ∷ s8 ∷ s9 ∷ s10 ∷ s11 ∷ s12 ∷ s13 ∷ s14 ∷ s15 ∷ [])
        3
        7
        11
        15
        x
        y
      ≡ (let q = quarter s3 s7 s11 s15 x y in
          s0 ∷ s1 ∷ s2 ∷ q.a ∷ s4 ∷ s5 ∷ s6 ∷ q.b ∷ s8 ∷ s9 ∷ s10 ∷ q.c ∷ s12 ∷ s13 ∷ s14 ∷ q.d
          ∷ [])
  unfolding g add_to mix_to quarter sum3
  mix3 = refl

  pub mix4 :
      g
        (s0 ∷ s1 ∷ s2 ∷ s3 ∷ s4 ∷ s5 ∷ s6 ∷ s7 ∷ s8 ∷ s9 ∷ s10 ∷ s11 ∷ s12 ∷ s13 ∷ s14 ∷ s15 ∷ [])
        0
        5
        10
        15
        x
        y
      ≡ (let q = quarter s0 s5 s10 s15 x y in
          q.a ∷ s1 ∷ s2 ∷ s3 ∷ s4 ∷ q.b ∷ s6 ∷ s7 ∷ s8 ∷ s9 ∷ q.c ∷ s11 ∷ s12 ∷ s13 ∷ s14 ∷ q.d
          ∷ [])
  unfolding g add_to mix_to quarter sum3
  mix4 = refl

  pub mix5 :
      g
        (s0 ∷ s1 ∷ s2 ∷ s3 ∷ s4 ∷ s5 ∷ s6 ∷ s7 ∷ s8 ∷ s9 ∷ s10 ∷ s11 ∷ s12 ∷ s13 ∷ s14 ∷ s15 ∷ [])
        1
        6
        11
        12
        x
        y
      ≡ (let q = quarter s1 s6 s11 s12 x y in
          s0 ∷ q.a ∷ s2 ∷ s3 ∷ s4 ∷ s5 ∷ q.b ∷ s7 ∷ s8 ∷ s9 ∷ s10 ∷ q.c ∷ q.d ∷ s13 ∷ s14 ∷ s15
          ∷ [])
  unfolding g add_to mix_to quarter sum3
  mix5 = refl

  pub mix6 :
      g
        (s0 ∷ s1 ∷ s2 ∷ s3 ∷ s4 ∷ s5 ∷ s6 ∷ s7 ∷ s8 ∷ s9 ∷ s10 ∷ s11 ∷ s12 ∷ s13 ∷ s14 ∷ s15 ∷ [])
        2
        7
        8
        13
        x
        y
      ≡ (let q = quarter s2 s7 s8 s13 x y in
          s0 ∷ s1 ∷ q.a ∷ s3 ∷ s4 ∷ s5 ∷ s6 ∷ q.b ∷ q.c ∷ s9 ∷ s10 ∷ s11 ∷ s12 ∷ q.d ∷ s14 ∷ s15
          ∷ [])
  unfolding g add_to mix_to quarter sum3
  mix6 = refl

  pub mix7 :
      g
        (s0 ∷ s1 ∷ s2 ∷ s3 ∷ s4 ∷ s5 ∷ s6 ∷ s7 ∷ s8 ∷ s9 ∷ s10 ∷ s11 ∷ s12 ∷ s13 ∷ s14 ∷ s15 ∷ [])
        3
        4
        9
        14
        x
        y
      ≡ (let q = quarter s3 s4 s9 s14 x y in
          s0 ∷ s1 ∷ s2 ∷ q.a ∷ q.b ∷ s5 ∷ s6 ∷ s7 ∷ s8 ∷ q.c ∷ s10 ∷ s11 ∷ s12 ∷ s13 ∷ q.d ∷ s15
          ∷ [])
  unfolding g add_to mix_to quarter sum3
  mix7 = refl

pub ruleset mixes = (mix0, mix1, mix2, mix3, mix4, mix5, mix6, mix7)
