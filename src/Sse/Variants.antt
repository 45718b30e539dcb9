-- ===== src/Sse/Variants.antt =====
-- What c/blake3_sse41.c and c/blake3_sse2.c define each in its own way does the same lane by lane.
use blake.Base.{
  ℕ, ◌+◌, ◌-◌, ◌*◌, ◌/◌, ◌%◌, ◌^◌, bit_and, bit_or, bit_xor, ◌≡◌, sym, ap, ap₂, ◌∙◌, arith, map,
  IsWord, u8, u32, ◌<<<◌, ◌>>>◌,
}
use blake.Base.Bits.{zero-bit_or, bit_or-zero, bit_and_mask, bit_and_comm}
use Prim.Native.Nat.{bit_and-bitwise}
use blake.Portable.{rotr32}
use blake.Sse.{
  Four, Intrinsics, Documented, each, zip, bytes, from_bytes, choose_byte, two_halves, halves_eq,
}
use blake.Sse.Lanes.{IsVariant, four_equal, on_lanes, rotr32_sum, rot_xor}
use blake.Sse.Sse41
use blake.Sse.Sse41.{sse41}
use blake.Sse.Sse2
use blake.Sse.Sse2.{sse2}

-- A rotation by whole bytes, as the bytes in their new order.
pub rot16_bytes :
    (w : ℕ)
    → IsWord w
    → u8 (w >>> 16) + u8 (w >>> 24) * 2 ^ 8 + u8 w * 2 ^ 16 + u8 (w >>> 8) * 2 ^ 24 ≡ rotr32 w 16
rot16_bytes w h = sym (rotr32_sum w 16 (w % 2 ^ 16) (omega arith) (omega arith) ∙ omega arith)

pub rot8_bytes :
    (w : ℕ)
    → IsWord w
    → u8 (w >>> 8) + u8 (w >>> 16) * 2 ^ 8 + u8 (w >>> 24) * 2 ^ 16 + u8 w * 2 ^ 24 ≡ rotr32 w 8
rot8_bytes w h = sym (rotr32_sum w 8 (w % 2 ^ 8) (omega arith) (omega arith) ∙ omega arith)

halves : (a : ℕ) → a % 2 ^ 16 + a / 2 ^ 16 * 2 ^ 16 ≡ a
halves a = omega arith

module _ (k : Intrinsics) (d : Documented k) where
  open d use {lanes}

  sse41_turn16 : (v : k.Vec) → lanes (Sse41.rot16 k v) ≡ each (λ w. rotr32 w 16) (lanes v)
  unfolding Sse41.rot16
  sse41_turn16 v =
      d.shuffle8 v _
      ∙ ap (λ t. from_bytes (map (choose_byte (bytes (lanes v))) (bytes t)))
          (d.set8 13 12 15 14 9 8 11 10 5 4 7 6 1 0 3 2)
      ∙ on_lanes k d v
          (λ w. u8 (w >>> 16) + u8 (w >>> 24) * 2 ^ 8 + u8 w * 2 ^ 16 + u8 (w >>> 8) * 2 ^ 24) _
          rot16_bytes

  sse41_turn8 : (v : k.Vec) → lanes (Sse41.rot8 k v) ≡ each (λ w. rotr32 w 8) (lanes v)
  unfolding Sse41.rot8
  sse41_turn8 v =
      d.shuffle8 v _
      ∙ ap (λ t. from_bytes (map (choose_byte (bytes (lanes v))) (bytes t)))
          (d.set8 12 15 14 13 8 11 10 9 4 7 6 5 0 3 2 1)
      ∙ on_lanes k d v
          (λ w. u8 (w >>> 8) + u8 (w >>> 16) * 2 ^ 8 + u8 (w >>> 24) * 2 ^ 16 + u8 w * 2 ^ 24) _
          rot8_bytes

  -- The parts of c/blake3_sse41.c rotate and blend.
  pub sse41-IsVariant : IsVariant k d (sse41 k)
  sse41-IsVariant = record {
    turn16 = sse41_turn16;
    turn8 = sse41_turn8;
    blend_cc = λ a b. d.blend a b 0xCC ∙ four_equal (halves _) (halves _) (halves _) (halves _);
    blend_c0 = λ a b. d.blend a b 0xC0 ∙ four_equal (halves _) (halves _) (halves _) (halves _);
  }

  -- Two halves that change places.
  swap_halves :
      (w : ℕ) → IsWord w → w / 2 ^ 16 % 2 ^ 16 + w % 2 ^ 16 % 2 ^ 16 * 2 ^ 16 ≡ rotr32 w 16
  swap_halves w h = sym (rotr32_sum w 16 (w % 2 ^ 16) (omega arith) (omega arith) ∙ omega arith)

  sse2_turn16 : (v : k.Vec) → lanes (Sse2.rot16 k v) ≡ each (λ w. rotr32 w 16) (lanes v)
  unfolding Sse2.rot16
  sse2_turn16 v =
      d.shufflehi16 (k.shufflelo_epi16 v 0xB1) 0xB1
      ∙ ap
          (λ (t : Four).
            let u : Four = record t {
              l2 = t.l2 / 2 ^ 16 % 2 ^ 16 + t.l2 % 2 ^ 16 % 2 ^ 16 * 2 ^ 16;
              l3 = t.l3 / 2 ^ 16 % 2 ^ 16 + t.l3 % 2 ^ 16 % 2 ^ 16 * 2 ^ 16;
            } in
            u)
          (d.shufflelo16 v 0xB1)
      ∙ on_lanes k d v (λ w. w / 2 ^ 16 % 2 ^ 16 + w % 2 ^ 16 % 2 ^ 16 * 2 ^ 16) _ swap_halves

  rot8_word : (w : ℕ) → IsWord w → bit_xor (w >>> 8) (u32 (w <<< 24)) ≡ rotr32 w 8
  rot8_word w h = rot_xor w 8 (w % 2 ^ 8) (omega arith) (omega arith)

  sse2_turn8 : (v : k.Vec) → lanes (Sse2.rot8 k v) ≡ each (λ w. rotr32 w 8) (lanes v)
  unfolding Sse2.rot8
  sse2_turn8 v =
      d.xor (k.srli_epi32 v 8) (k.slli_epi32 v 24)
      ∙ ap₂ (zip bit_xor) (d.srli v 8 (omega arith)) (d.slli v 24 (omega arith))
      ∙ on_lanes k d v (λ w. bit_xor (w >>> 8) (u32 (w <<< 24))) _ rot8_word

  all_ones : (a : ℕ) → IsWord a → bit_and 4294967295 a ≡ a
  all_ones a h = bit_and_comm 32 4294967295 a (omega arith) h ∙ bit_and_mask 32 a ∙ omega arith

  -- A mask of zeros takes from `a`, and one of ones from `b`.
  from_a : (a b : ℕ) → IsWord a → bit_or (bit_and 0 b) (bit_and (4294967295 - 0) a) ≡ a
  from_a a b h = ap₂ bit_or (bit_and-bitwise 0 b) (all_ones a h) ∙ zero-bit_or a

  from_b :
      (a b : ℕ) → IsWord b → bit_or (bit_and 4294967295 b) (bit_and (4294967295 - 4294967295) a) ≡ b
  from_b a b h = ap₂ bit_or (all_ones b h) (bit_and-bitwise 0 a) ∙ bit_or-zero 32 b h

  -- The blending by a mask.
  masked :
      (a b m : k.Vec) (t : Four)
      → lanes m ≡ t
      → lanes (k.or_si128 (k.and_si128 m b) (k.andnot_si128 m a))
        ≡ zip bit_or (zip bit_and t (lanes b)) (zip (λ x y. bit_and (4294967295 - x) y) t (lanes a))
  masked a b m t e =
      d.or _ _
      ∙ ap₂ (zip bit_or) (d.and m b) (d.andnot m a)
      ∙ ap
          (λ t.
            zip bit_or (zip bit_and t (lanes b))
              (zip (λ x y. bit_and (4294967295 - x) y) t (lanes a)))
          e

  abbrev bits : k.Vec
  bits = k.set_epi16 0x80 0x40 0x20 0x10 0x08 0x04 0x02 0x01

  abbrev bit_lanes : Four
  bit_lanes = record {
    l0 = two_halves 0x01 0x02;
    l1 = two_halves 0x04 0x08;
    l2 = two_halves 0x10 0x20;
    l3 = two_halves 0x40 0x80;
  }

  mask_lanes :
      (imm : ℕ)
      → lanes (k.cmpeq_epi16 (k.and_si128 (k.set1_epi16 imm) bits) bits) ≡ (
          let w = two_halves imm imm in
          let all : Four = record { l0 = w; l1 = w; l2 = w; l3 = w } in
          zip halves_eq (zip bit_and all bit_lanes) bit_lanes)
  mask_lanes imm =
      let e = d.set16 0x80 0x40 0x20 0x10 0x08 0x04 0x02 0x01 in
      d.cmpeq16 _ _ ∙ ap₂ (zip halves_eq) (d.and _ _ ∙ ap₂ (zip bit_and) (d.set1_16 imm) e) e

  sse2_blend_cc :
      (a b : k.Vec)
      → lanes (Sse2.blend_epi16 k a b 0xCC)
        ≡ record { l0 = (lanes a).l0; l1 = (lanes b).l1; l2 = (lanes a).l2; l3 = (lanes b).l3 }
  unfolding Sse2.blend_epi16
  sse2_blend_cc a b =
      let (a0, a1, a2, a3) = d.lanes-IsWord a in
      let (b0, b1, b2, b3) = d.lanes-IsWord b in
      masked a b _ _ (mask_lanes 0xCC)
      ∙ four_equal (from_a (lanes a).l0 (lanes b).l0 a0) (from_b (lanes a).l1 (lanes b).l1 b1)
          (from_a (lanes a).l2 (lanes b).l2 a2) (from_b (lanes a).l3 (lanes b).l3 b3)

  sse2_blend_c0 :
      (a b : k.Vec)
      → lanes (Sse2.blend_epi16 k a b 0xC0)
        ≡ record { l0 = (lanes a).l0; l1 = (lanes a).l1; l2 = (lanes a).l2; l3 = (lanes b).l3 }
  unfolding Sse2.blend_epi16
  sse2_blend_c0 a b =
      let (a0, a1, a2, a3) = d.lanes-IsWord a in
      let (b0, b1, b2, b3) = d.lanes-IsWord b in
      masked a b _ _ (mask_lanes 0xC0)
      ∙ four_equal (from_a (lanes a).l0 (lanes b).l0 a0) (from_a (lanes a).l1 (lanes b).l1 a1)
          (from_a (lanes a).l2 (lanes b).l2 a2) (from_b (lanes a).l3 (lanes b).l3 b3)

  -- The parts of c/blake3_sse2.c rotate and blend.
  pub sse2-IsVariant : IsVariant k d (sse2 k)
  sse2-IsVariant = record {
    turn16 = sse2_turn16;
    turn8 = sse2_turn8;
    blend_cc = sse2_blend_cc;
    blend_c0 = sse2_blend_c0;
  }
