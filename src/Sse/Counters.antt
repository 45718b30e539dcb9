-- ===== src/Sse/Counters.antt =====
-- The counters of four inputs, lane by lane.
use blake.Base.{
  ℕ, zero, suc, ◌+◌, ◌-◌, ◌*◌, ◌^◌, ◌<◌, bit_and, bit_xor, ◌≡◌, refl, sym, ap, ap₂, ◌∙◌, arith,
  Bool, true, false, ltb, if◌then◌else◌, IsWord, u32, u64, ◌>>>◌, le-or-gt, inl, inr,
}
use blake.Base.Bits.{bit_xor_self_inverse}
use blake.Impl.{counter_low, counter_high}
use blake.Sse.{Four, Intrinsics, Documented, each, zip, lane, signed_gt}
use blake.Sse.Lanes.{bit_xor_fields}
use blake.Sse.Many.{load_counters}

pub lane-zip : (f : ℕ → ℕ → ℕ) (a b : Four) (i : ℕ) → lane (zip f a b) i ≡ f (lane a i) (lane b i)
lane-zip f a b zero = refl
lane-zip f a b (suc zero) = refl
lane-zip f a b (suc (suc zero)) = refl
lane-zip f a b (suc (suc (suc i))) = refl

pub lane-each : (f : ℕ → ℕ) (a : Four) (i : ℕ) → lane (each f a) i ≡ f (lane a i)
lane-each f a zero = refl
lane-each f a (suc zero) = refl
lane-each f a (suc (suc zero)) = refl
lane-each f a (suc (suc (suc i))) = refl

pub lane_same : (x i : ℕ) → lane (record { l0 = x; l1 = x; l2 = x; l3 = x }) i ≡ x
lane_same x zero = refl
lane_same x (suc zero) = refl
lane_same x (suc (suc zero)) = refl
lane_same x (suc (suc (suc i))) = refl

-- The highest bit flipped, and moved on by half of the words.
flip : (x : ℕ) → IsWord x → u32 (bit_xor x 2147483648 + 2 ^ 31) ≡ x
flip x h = elim (le-or-gt (2 ^ 31) x) [
  | inl high ↦
      let r = x - 2 ^ 31 in
      let e : bit_xor r (1 * 2 ^ 31) ≡ x = bit_xor_fields 31 1 r (omega arith) ∙ omega arith in
      ap (λ t. u32 (bit_xor t 2147483648 + 2 ^ 31)) (sym e)
      ∙ ap (λ t. u32 (t + 2 ^ 31))
          (bit_xor_self_inverse 32 r 2147483648 (omega arith) (omega arith))
      ∙ omega arith
  | inr low ↦ ap (λ t. u32 (t + 2 ^ 31)) (bit_xor_fields 31 1 x low) ∙ omega arith
]

pub signed_gt_flip :
    (a b : ℕ)
    → IsWord a
    → IsWord b
    → signed_gt (bit_xor a 2147483648) (bit_xor b 2147483648) ≡ (if ltb b a then 4294967295 else 0)
signed_gt_flip a b ha hb = ap₂ (λ x y. if ltb x y then 4294967295 else 0) (flip b hb) (flip a ha)

-- The counters of the inputs one after the other.
abbrev pub steps : Bool → ℕ → ℕ → ℕ
steps increment c zero = c
steps increment c (suc n) = steps increment (if increment then u64 (c + 1) else c) n

pub high_word :
    (c a : ℕ)
    → a < 16
    → u32
        (u32 (u32 (c >>> 32)) + 2 ^ 32 - (if ltb (u32 (u32 (u32 c) + a)) a then 4294967295 else 0))
      ≡ u32 ((c + a) >>> 32)
high_word c a h = ground arith

module _ (k : Intrinsics) (d : Documented k) where
  open d use {lanes}

  -- The words of the sums: with the mask `m` of the increment the vectors of the counters have
  -- those of `counter + a` in a lane whose number is `a` under the mask.
  abbrev first_lanes : Bool → Four
  first_lanes increment = record {
    l0 = 0;
    l1 = if increment then 1 else 0;
    l2 = if increment then 2 else 0;
    l3 = if increment then 3 else 0;
  }

  abbrev mask : Bool → k.Vec
  mask increment = k.set1_epi32 (if increment then 4294967295 else 0)

  add1_lanes :
      (increment : Bool)
      → lanes (k.and_si128 (mask increment) (k.set_epi32 3 2 1 0)) ≡ first_lanes increment
  add1_lanes true = d.and _ _ ∙ ap₂ (zip bit_and) (d.set1 4294967295) (d.set 3 2 1 0)
  add1_lanes false = d.and _ _ ∙ ap₂ (zip bit_and) (d.set1 0) (d.set 3 2 1 0)

  low_lanes :
      (counter : ℕ) (add1 : k.Vec)
      → lanes (k.add_epi32 (k.set1_epi32 (u32 counter)) add1)
        ≡ each (λ a. u32 (u32 (u32 counter) + a)) (lanes add1)
  low_lanes counter add1 =
      d.add _ _ ∙ ap (λ t. zip (λ x y. u32 (x + y)) t (lanes add1)) (d.set1 (u32 counter))

  flipped :
      (v : k.Vec)
      → lanes (k.xor_si128 v (k.set1_epi32 0x80000000)) ≡ each (λ x. bit_xor x 2147483648) (lanes v)
  flipped v = d.xor _ _ ∙ ap (zip bit_xor (lanes v)) (d.set1 0x80000000)

  lane-IsWord : (v : k.Vec) (i : ℕ) → IsWord (lane (lanes v) i)
  lane-IsWord v zero = (d.lanes-IsWord v).0
  lane-IsWord v (suc zero) = (d.lanes-IsWord v).1
  lane-IsWord v (suc (suc zero)) = (d.lanes-IsWord v).2
  lane-IsWord v (suc (suc (suc i))) = (d.lanes-IsWord v).3

  -- A lane of the high words, with the carry out of the low ones.
  high_lane :
      (counter : ℕ) (add1 l : k.Vec) (i : ℕ)
      → lane
          (lanes (
            k.sub_epi32 (k.set1_epi32 (u32 (counter >>> 32))) (
              k.cmpgt_epi32
                (k.xor_si128 add1 (k.set1_epi32 0x80000000))
                (k.xor_si128 l (k.set1_epi32 0x80000000)))))
          i
        ≡ u32 (
            u32 (u32 (counter >>> 32))
            + 2 ^ 32
            - (if ltb (lane (lanes l) i) (lane (lanes add1) i) then 4294967295 else 0))
  high_lane counter add1 l i =
      let carry =
        k.cmpgt_epi32 (k.xor_si128 add1 (k.set1_epi32 0x80000000))
          (k.xor_si128 l (k.set1_epi32 0x80000000)) in
      let e : lane (lanes carry) i
          ≡ (if ltb (lane (lanes l) i) (lane (lanes add1) i) then 4294967295 else 0) =
        ap (λ t. lane t i) (d.cmpgt _ _ ∙ ap₂ (zip signed_gt) (flipped add1) (flipped l))
        ∙ lane-zip signed_gt _ _ i
        ∙ ap₂ signed_gt (lane-each (λ x. bit_xor x 2147483648) (lanes add1) i)
            (lane-each (λ x. bit_xor x 2147483648) (lanes l) i)
        ∙ signed_gt_flip _ _ (lane-IsWord add1 i) (lane-IsWord l i) in
      ap (λ t. lane t i)
        (d.sub _ carry
          ∙ ap (λ t. zip (λ x y. u32 (x + 2 ^ 32 - y)) t (lanes carry))
              (d.set1 (u32 (counter >>> 32))))
      ∙ lane-zip (λ x y. u32 (x + 2 ^ 32 - y)) _ (lanes carry) i
      ∙ ap₂ (λ x y. u32 (x + 2 ^ 32 - y)) (lane_same (u32 (u32 (counter >>> 32))) i) e

  counter_words :
      (increment : Bool) (counter i : ℕ)
      → i < 4
      → (u32 (u32 (u32 counter) + lane (first_lanes increment) i) ≡ u32 (steps increment counter i))
        × (u32 ((counter + lane (first_lanes increment) i) >>> 32)
            ≡ u32 (steps increment counter i >>> 32))
        × (lane (first_lanes increment) i < 4)
  counter_words true counter zero h = (omega arith, omega arith, omega arith)
  counter_words true counter (suc zero) h = (omega arith, omega arith, omega arith)
  counter_words true counter (suc (suc zero)) h = (omega arith, omega arith, omega arith)
  counter_words true counter (suc (suc (suc zero))) h = (omega arith, omega arith, omega arith)
  counter_words true counter (suc (suc (suc (suc i)))) h = absurd (omega arith)
  counter_words false counter zero h = (omega arith, omega arith, omega arith)
  counter_words false counter (suc zero) h = (omega arith, omega arith, omega arith)
  counter_words false counter (suc (suc zero)) h = (omega arith, omega arith, omega arith)
  counter_words false counter (suc (suc (suc zero))) h = (omega arith, omega arith, omega arith)
  counter_words false counter (suc (suc (suc (suc i)))) h = absurd (omega arith)

  -- The lanes of the two vectors hold the words of the counters of the inputs.
  pub load_counters_lem :
      (counter : ℕ) (increment : Bool) (i : ℕ)
      → i < 4
      → (lane (lanes (load_counters k counter increment).0) i
          ≡ counter_low (steps increment counter i))
        × (lane (lanes (load_counters k counter increment).1) i
            ≡ counter_high (steps increment counter i))
  unfolding load_counters counter_low counter_high
  load_counters_lem counter increment i h =
      let add1 = k.and_si128 (mask increment) (k.set_epi32 3 2 1 0) in
      let l = k.add_epi32 (k.set1_epi32 (u32 counter)) add1 in
      let a = lane (first_lanes increment) i in
      let (low, high, small) = counter_words increment counter i h in
      let el : lane (lanes l) i ≡ u32 (u32 (u32 counter) + a) =
        ap (λ t. lane t i)
          (low_lanes counter add1
            ∙ ap (each (λ x. u32 (u32 (u32 counter) + x))) (add1_lanes increment))
        ∙ lane-each (λ x. u32 (u32 (u32 counter) + x)) (first_lanes increment) i in
      (
        el ∙ low,
        high_lane counter add1 l i
            ∙ ap₂
                (λ x y.
                  u32 (u32 (u32 (counter >>> 32)) + 2 ^ 32 - (if ltb x y then 4294967295 else 0)))
                el (ap (λ t. lane t i) (add1_lanes increment))
            ∙ high_word counter a (omega arith)
            ∙ high,
      )
