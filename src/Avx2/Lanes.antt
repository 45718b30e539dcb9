-- ===== src/Avx2/Lanes.antt =====
-- What the helpers of c/blake3_avx2.c do lane by lane.
use blake.Base.{
  ℕ, zero, suc, ◌+◌, ◌*◌, ◌^◌, bit_or, bit_xor, ◌≡◌, refl, ap, ap₂, ◌∙◌, arith, map, IsWord, u8,
  u32, ◌>>>◌,
}
use blake.Portable.{rotr32}
use blake.Sse.{Four, each, zip, lane, bytes, from_bytes, choose_byte}
use blake.Sse.Lanes.{four_equal}
use blake.Sse.Variants.{rot16_bytes, rot8_bytes}
use blake.Sse.Counters.{lane-zip, lane-each, lane_same}
use blake.Wide.Lanes.{HasLanes}
use blake.Avx2.{
  Halves, Intrinsics, Documented, FourWords, in_both, same, rot16, rot12, rot8, rot7, ops,
}

-- The eight lanes.
abbrev pub lane8 : Halves → ℕ → ℕ
lane8 p (suc (suc (suc (suc i)))) = lane p.hi i
lane8 p i = lane p.lo i

pub lane8-in_both :
    (f : ℕ → ℕ → ℕ) (a b : Halves) (i : ℕ)
    → lane8 (in_both (zip f) a b) i ≡ f (lane8 a i) (lane8 b i)
lane8-in_both f a b zero = refl
lane8-in_both f a b (suc zero) = refl
lane8-in_both f a b (suc (suc zero)) = refl
lane8-in_both f a b (suc (suc (suc zero))) = refl
lane8-in_both f a b (suc (suc (suc (suc i)))) = lane-zip f a.hi b.hi i

abbrev pub eachs : (ℕ → ℕ) → Halves → Halves
eachs f a = record { lo = each f a.lo; hi = each f a.hi }

pub lane8-eachs : (f : ℕ → ℕ) (a : Halves) (i : ℕ) → lane8 (eachs f a) i ≡ f (lane8 a i)
lane8-eachs f a zero = refl
lane8-eachs f a (suc zero) = refl
lane8-eachs f a (suc (suc zero)) = refl
lane8-eachs f a (suc (suc (suc zero))) = refl
lane8-eachs f a (suc (suc (suc (suc i)))) = lane-each f a.hi i

pub lane8_same : (x i : ℕ) → lane8 (record { lo = same x; hi = same x }) i ≡ x
lane8_same x zero = refl
lane8_same x (suc zero) = refl
lane8_same x (suc (suc zero)) = refl
lane8_same x (suc (suc (suc zero))) = refl
lane8_same x (suc (suc (suc (suc i)))) = lane_same x i

pub lane-IsWord : (a : Four) (i : ℕ) → FourWords a → IsWord (lane a i)
lane-IsWord a zero h = h.0
lane-IsWord a (suc zero) h = h.1
lane-IsWord a (suc (suc zero)) h = h.2
lane-IsWord a (suc (suc (suc i))) h = h.3

on_words :
    (a : Four) (f g : ℕ → ℕ) → FourWords a → ((w : ℕ) → IsWord w → f w ≡ g w) → each f a ≡ each g a
on_words a f g (h0, h1, h2, h3) e =
    four_equal {a = each f a} {b = each g a} (e _ h0) (e _ h1) (e _ h2) (e _ h3)

module _ (k : Intrinsics) (d : Documented k) where
  open d use {halves}

  on_halves :
      (v : k.Vec) (f g : ℕ → ℕ)
      → ((w : ℕ) → IsWord w → f w ≡ g w)
      → eachs f (halves v) ≡ eachs g (halves v)
  on_halves v f g e =
      let (lo, hi) = d.halves-IsWord v in
      let p = on_words (halves v).lo f g lo e in
      let q = on_words (halves v).hi f g hi e in λ i. record { lo = p i; hi = q i }

  -- Bytes in a new order, by a control that is the same in both halves.
  shuffled :
      (v c : k.Vec) (t : Four)
      → halves c ≡ record { lo = t; hi = t }
      → halves (k.shuffle_epi8 v c) ≡ (
          let f = λ (x : Four). from_bytes (map (choose_byte (bytes x)) (bytes t)) in
          record { lo = f (halves v).lo; hi = f (halves v).hi })
  shuffled v c t e =
      d.shuffle8 v c
      ∙ ap (in_both (λ x y. from_bytes (map (choose_byte (bytes x)) (bytes y))) (halves v)) e

  pub turn16_lem : (v : k.Vec) → halves (rot16 k v) ≡ eachs (λ w. rotr32 w 16) (halves v)
  unfolding rot16
  turn16_lem v =
      shuffled v _ _ (d.set8 13 12 15 14 9 8 11 10 5 4 7 6 1 0 3 2)
      ∙ on_halves v
          (λ w. u8 (w >>> 16) + u8 (w >>> 24) * 2 ^ 8 + u8 w * 2 ^ 16 + u8 (w >>> 8) * 2 ^ 24) _
          rot16_bytes

  pub turn8_lem : (v : k.Vec) → halves (rot8 k v) ≡ eachs (λ w. rotr32 w 8) (halves v)
  unfolding rot8
  turn8_lem v =
      shuffled v _ _ (d.set8 12 15 14 13 8 11 10 9 4 7 6 5 0 3 2 1)
      ∙ on_halves v
          (λ w. u8 (w >>> 8) + u8 (w >>> 16) * 2 ^ 8 + u8 (w >>> 24) * 2 ^ 16 + u8 w * 2 ^ 24) _
          rot8_bytes

  -- The two shifts and the or are the rotation.
  pub turn12_lem : (v : k.Vec) → halves (rot12 k v) ≡ eachs (λ w. rotr32 w 12) (halves v)
  unfolding rot12 rotr32
  turn12_lem v =
      d.or _ _ ∙ ap₂ (in_both (zip bit_or)) (d.srli v 12 (omega arith)) (d.slli v 20 (omega arith))

  pub turn7_lem : (v : k.Vec) → halves (rot7 k v) ≡ eachs (λ w. rotr32 w 7) (halves v)
  unfolding rot7 rotr32
  turn7_lem v =
      d.or _ _ ∙ ap₂ (in_both (zip bit_or)) (d.srli v 7 (omega arith)) (d.slli v 25 (omega arith))

  abbrev pub in_lane : HasLanes (ops k)
  in_lane = record {
    lane = λ x i. lane8 (halves x) i;
    add = λ a b i.
        ap (λ s. lane8 s i) (d.add a b)
        ∙ lane8-in_both (λ x y. u32 (x + y)) (halves a) (halves b) i;
    xor = λ a b i. ap (λ s. lane8 s i) (d.xor a b) ∙ lane8-in_both bit_xor (halves a) (halves b) i;
    same = λ x i. ap (λ s. lane8 s i) (d.set1 x) ∙ lane8_same (u32 x) i;
    turn16 =
        λ a i. ap (λ s. lane8 s i) (turn16_lem a) ∙ lane8-eachs (λ w. rotr32 w 16) (halves a) i;
    turn12 =
        λ a i. ap (λ s. lane8 s i) (turn12_lem a) ∙ lane8-eachs (λ w. rotr32 w 12) (halves a) i;
    turn8 = λ a i. ap (λ s. lane8 s i) (turn8_lem a) ∙ lane8-eachs (λ w. rotr32 w 8) (halves a) i;
    turn7 = λ a i. ap (λ s. lane8 s i) (turn7_lem a) ∙ lane8-eachs (λ w. rotr32 w 7) (halves a) i;
  }
