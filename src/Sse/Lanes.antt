-- ===== src/Sse/Lanes.antt =====
-- What the helpers of the code on rows do lane by lane.
use blake.Base.{
  ℕ, zero, suc, ◌+◌, ◌-◌, ◌*◌, ◌/◌, ◌%◌, ◌^◌, ◌<◌, bit_or, bit_xor, ◌≡◌, sym, ap, ap₂, ◌∙◌, arith,
  IsWord, u32, ◌<<<◌, ◌>>>◌,
}
use blake.Base.Bits.{bit_or_fields, bit_or_comm, bit_xor_step, mul-two-pow-suc}
use native.Mathlib.Nat.{pow-suc}
use Prim.Native.Nat.{bit_xor-bitwise}
use blake.Portable.{rotr32}
use blake.Sse.{Four, Intrinsics, Documented, each, zip}
use blake.Sse.Rows.{Variant, Rows, addv, xorv, rot12, rot7, g1, g2}

pub four_equal : {a b : Four} → a.l0 ≡ b.l0 → a.l1 ≡ b.l1 → a.l2 ≡ b.l2 → a.l3 ≡ b.l3 → a ≡ b
four_equal p q r s = λ i. record { l0 = p i; l1 = q i; l2 = r i; l3 = s i }

pub bit_xor_fields : (k q r : ℕ) → r < 2 ^ k → bit_xor r (q * 2 ^ k) ≡ q * 2 ^ k + r
bit_xor_fields zero q zero h = simp bit_xor-bitwise (omega arith)
bit_xor_fields zero q (suc r) h = absurd (omega arith)
bit_xor_fields (suc k) q r h = omega (
  arith,
  bit_xor_step r (q * 2 ^ suc k),
  mul-two-pow-suc q k,
  ap (bit_xor (r / 2)) (half-double (q * 2 ^ k) (q * 2 ^ suc k) (mul-two-pow-suc q k)),
  bit_xor_fields k q (r / 2) (omega (arith, pow-suc 2 k)),
)
  where
    half-double : (m n : ℕ) → n ≡ 2 * m → n / 2 ≡ m
    half-double m n e = omega arith

pub rotr32_sum :
    (w c q : ℕ)
    → u32 (w <<< (32 - c)) ≡ q * 2 ^ (32 - c)
    → w >>> c < 2 ^ (32 - c)
    → rotr32 w c ≡ q * 2 ^ (32 - c) + (w >>> c)
unfolding rotr32
rotr32_sum w c q e h =
    ap (bit_or (w >>> c)) e ∙ bit_or_comm _ _ ∙ bit_or_fields (32 - c) q (w >>> c) h

-- A rotation as a sum without carries.
pub rot_xor :
    (w c q : ℕ)
    → u32 (w <<< (32 - c)) ≡ q * 2 ^ (32 - c)
    → w >>> c < 2 ^ (32 - c)
    → bit_xor (w >>> c) (u32 (w <<< (32 - c))) ≡ rotr32 w c
rot_xor w c q e h =
    ap (bit_xor (w >>> c)) e ∙ bit_xor_fields (32 - c) q (w >>> c) h ∙ sym (rotr32_sum w c q e h)

rot12_word : (w : ℕ) → IsWord w → bit_xor (w >>> 12) (u32 (w <<< 20)) ≡ rotr32 w 12
rot12_word w h = rot_xor w 12 (w % 2 ^ 12) (omega arith) (omega arith)

rot7_word : (w : ℕ) → IsWord w → bit_xor (w >>> 7) (u32 (w <<< 25)) ≡ rotr32 w 7
rot7_word w h = rot_xor w 7 (w % 2 ^ 7) (omega arith) (omega arith)

unfoldable pub sum3 : ℕ → ℕ → ℕ → ℕ
sum3 a b x = u32 (u32 (a + b) + x)

abbrev pub zip3 : (ℕ → ℕ → ℕ → ℕ) → Four → Four → Four → Four
zip3 f a b c = record {
  l0 = f a.l0 b.l0 c.l0;
  l1 = f a.l1 b.l1 c.l1;
  l2 = f a.l2 b.l2 c.l2;
  l3 = f a.l3 b.l3 c.l3;
}

-- The lanes of four rows.
pub record Quad : Type 0 where
  pub a : Four
  pub b : Four
  pub c : Four
  pub d : Four

-- Half of a mixing in every column, with its two rotations.
abbrev pub half : ℕ → ℕ → Quad → Four → Quad
half c1 c2 s x =
    let a = zip3 sum3 s.a s.b x in
    let d = each (λ w. rotr32 w c1) (zip bit_xor s.d a) in
    let c = zip (λ u v. sum3 u v 0) s.c d in
    record { a = a; b = each (λ w. rotr32 w c2) (zip bit_xor s.b c); c = c; d = d }

-- The parts in which the files differ do the same.
pub record IsVariant (k : Intrinsics) (d : Documented k) (t : Variant k) : Type 0 where
  pub turn16 : (v : k.Vec) → d.lanes (t.rot16 v) ≡ each (λ w. rotr32 w 16) (d.lanes v)
  pub turn8 : (v : k.Vec) → d.lanes (t.rot8 v) ≡ each (λ w. rotr32 w 8) (d.lanes v)
  pub blend_cc :
      (a b : k.Vec)
      → d.lanes (t.blend_epi16 a b 0xCC) ≡ record {
        l0 = (d.lanes a).l0;
        l1 = (d.lanes b).l1;
        l2 = (d.lanes a).l2;
        l3 = (d.lanes b).l3;
      }
  pub blend_c0 :
      (a b : k.Vec)
      → d.lanes (t.blend_epi16 a b 0xC0) ≡ record {
        l0 = (d.lanes a).l0;
        l1 = (d.lanes a).l1;
        l2 = (d.lanes a).l2;
        l3 = (d.lanes b).l3;
      }

module _ (k : Intrinsics) (d : Documented k) where
  open d use {lanes}

  pub on_lanes :
      (v : k.Vec) (f g : ℕ → ℕ)
      → ((w : ℕ) → IsWord w → f w ≡ g w)
      → each f (lanes v) ≡ each g (lanes v)
  on_lanes v f g h =
      let (h0, h1, h2, h3) = d.lanes-IsWord v in
      four_equal {a = each f (lanes v)} {b = each g (lanes v)} (h _ h0) (h _ h1) (h _ h2) (h _ h3)

  pub xorv_lanes : (a b : k.Vec) → lanes (xorv k a b) ≡ zip bit_xor (lanes a) (lanes b)
  unfolding xorv
  xorv_lanes a b = d.xor a b

  pub rot12_lanes : (v : k.Vec) → lanes (rot12 k v) ≡ each (λ w. rotr32 w 12) (lanes v)
  unfolding rot12
  rot12_lanes v =
      d.xor (k.srli_epi32 v 12) (k.slli_epi32 v 20)
      ∙ ap₂ (zip bit_xor) (d.srli v 12 (omega arith)) (d.slli v 20 (omega arith))
      ∙ on_lanes v (λ w. bit_xor (w >>> 12) (u32 (w <<< 20))) _ rot12_word

  pub rot7_lanes : (v : k.Vec) → lanes (rot7 k v) ≡ each (λ w. rotr32 w 7) (lanes v)
  unfolding rot7
  rot7_lanes v =
      d.xor (k.srli_epi32 v 7) (k.slli_epi32 v 25)
      ∙ ap₂ (zip bit_xor) (d.srli v 7 (omega arith)) (d.slli v 25 (omega arith))
      ∙ on_lanes v (λ w. bit_xor (w >>> 7) (u32 (w <<< 25))) _ rot7_word

  -- The sums of the source, in the order of the portable code.
  sum_lanes :
      (a m b : k.Vec) → lanes (addv k (addv k a m) b) ≡ zip3 sum3 (lanes a) (lanes b) (lanes m)
  unfolding addv sum3
  sum_lanes a m b =
      d.add (k.add_epi32 a m) b
      ∙ ap (λ t. zip (λ x y. u32 (x + y)) t (lanes b)) (d.add a m)
      ∙ four_equal (omega arith) (omega arith) (omega arith) (omega arith)

  sum_two : (a b : k.Vec) → lanes (addv k a b) ≡ zip (λ x y. sum3 x y 0) (lanes a) (lanes b)
  unfolding addv sum3
  sum_two a b = d.add a b ∙ four_equal (omega arith) (omega arith) (omega arith) (omega arith)

  abbrev pub quad : Rows k → Quad
  quad r = record { a = lanes r.row0; b = lanes r.row1; c = lanes r.row2; d = lanes r.row3 }

  -- Half of a mixing, by its parts.
  half_lanes :
      (r : Rows k) (m : k.Vec) (turn1 turn2 : k.Vec → k.Vec) (c1 c2 : ℕ)
      → ((v : k.Vec) → lanes (turn1 v) ≡ each (λ w. rotr32 w c1) (lanes v))
      → ((v : k.Vec) → lanes (turn2 v) ≡ each (λ w. rotr32 w c2) (lanes v))
      → quad (
          let row0 = addv k (addv k r.row0 m) r.row1 in
          let row3 = turn1 (xorv k r.row3 row0) in
          let row2 = addv k r.row2 row3 in
          record { row0 = row0; row1 = turn2 (xorv k r.row1 row2); row2 = row2; row3 = row3 })
        ≡ half c1 c2 (quad r) (lanes m)
  half_lanes r m turn1 turn2 c1 c2 h1 h2 =
      let row0 = addv k (addv k r.row0 m) r.row1 in
      let row3 = turn1 (xorv k r.row3 row0) in
      let row2 = addv k r.row2 row3 in
      let e0 = sum_lanes r.row0 m r.row1 in
      let e3 =
        h1 (xorv k r.row3 row0)
        ∙ ap (each (λ w. rotr32 w c1))
            (xorv_lanes r.row3 row0 ∙ ap (zip bit_xor (lanes r.row3)) e0) in
      let e2 = sum_two r.row2 row3 ∙ ap (zip (λ x y. sum3 x y 0) (lanes r.row2)) e3 in
      let e1 =
        h2 (xorv k r.row1 row2)
        ∙ ap (each (λ w. rotr32 w c2))
            (xorv_lanes r.row1 row2 ∙ ap (zip bit_xor (lanes r.row1)) e2) in
      λ i. record { a = e0 i; b = e1 i; c = e2 i; d = e3 i }

module _ (k : Intrinsics) (d : Documented k) (t : Variant k) (v : IsVariant k d t) where
  pub g1_lanes :
      (r : Rows k) (m : k.Vec) → quad k d (g1 k t r m) ≡ half 16 12 (quad k d r) (d.lanes m)
  unfolding g1
  g1_lanes r m = half_lanes k d r m t.rot16 (rot12 k) 16 12 v.turn16 (rot12_lanes k d)

  pub g2_lanes :
      (r : Rows k) (m : k.Vec) → quad k d (g2 k t r m) ≡ half 8 7 (quad k d r) (d.lanes m)
  unfolding g2
  g2_lanes r m = half_lanes k d r m t.rot8 (rot7 k) 8 7 v.turn8 (rot7_lanes k d)
