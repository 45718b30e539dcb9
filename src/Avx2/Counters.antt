-- ===== src/Avx2/Counters.antt =====
-- The counters of eight inputs, lane by lane.
use blake.Base.{
  ℕ, zero, suc, ◌+◌, ◌-◌, ◌^◌, ◌<◌, bit_and, bit_xor, ◌≡◌, refl, ap, ap₂, ◌∙◌, arith, Bool, true,
  false, ltb, if◌then◌else◌, IsWord, u32, u64, ◌>>>◌,
}
use blake.Impl.{counter_low, counter_high}
use blake.Sse.{zip, signed_gt}
use blake.Sse.Counters.{signed_gt_flip, high_word, steps}
use blake.Avx2.{Halves, Intrinsics, Documented, in_both, four, load_counters}
use blake.Avx2.Lanes.{lane8, lane8-in_both, lane8-eachs, lane8_same, lane-IsWord, eachs}

module _ (k : Intrinsics) (d : Documented k) where
  open d use {halves}

  -- The number of a lane where the counter is incremented, else 0.
  abbrev offsets : Bool → Halves
  offsets increment =
      let n = λ (i : ℕ). if increment then i else 0 in
      record { lo = four (n 0) (n 1) (n 2) (n 3); hi = four (n 4) (n 5) (n 6) (n 7) }

  abbrev mask : Bool → k.Vec
  mask increment = k.set1_epi32 (if increment then 4294967295 else 0)

  add1_halves :
      (increment : Bool)
      → halves (k.and_si256 (mask increment) (k.set_epi32 7 6 5 4 3 2 1 0)) ≡ offsets increment
  add1_halves true =
      d.and _ _ ∙ ap₂ (in_both (zip bit_and)) (d.set1 4294967295) (d.set 7 6 5 4 3 2 1 0)
  add1_halves false = d.and _ _ ∙ ap₂ (in_both (zip bit_and)) (d.set1 0) (d.set 7 6 5 4 3 2 1 0)

  flipped :
      (v : k.Vec)
      → halves (k.xor_si256 v (k.set1_epi32 0x80000000))
        ≡ eachs (λ x. bit_xor x 2147483648) (halves v)
  flipped v = d.xor _ _ ∙ ap (in_both (zip bit_xor) (halves v)) (d.set1 0x80000000)

  lane8-IsWord : (v : k.Vec) (i : ℕ) → IsWord (lane8 (halves v) i)
  lane8-IsWord v zero = (d.halves-IsWord v).0.0
  lane8-IsWord v (suc zero) = (d.halves-IsWord v).0.1
  lane8-IsWord v (suc (suc zero)) = (d.halves-IsWord v).0.2
  lane8-IsWord v (suc (suc (suc zero))) = (d.halves-IsWord v).0.3
  lane8-IsWord v (suc (suc (suc (suc i)))) = lane-IsWord (halves v).hi i (d.halves-IsWord v).1

  -- A lane of the high words, with the carry out of the low ones.
  high_lane :
      (counter : ℕ) (add1 l : k.Vec) (i : ℕ)
      → lane8
          (halves (
            k.sub_epi32 (k.set1_epi32 (u32 (counter >>> 32))) (
              k.cmpgt_epi32
                (k.xor_si256 add1 (k.set1_epi32 0x80000000))
                (k.xor_si256 l (k.set1_epi32 0x80000000)))))
          i
        ≡ u32 (
            u32 (u32 (counter >>> 32))
            + 2 ^ 32
            - (if ltb (lane8 (halves l) i) (lane8 (halves add1) i) then 4294967295 else 0))
  high_lane counter add1 l i =
      let carry =
        k.cmpgt_epi32 (k.xor_si256 add1 (k.set1_epi32 0x80000000))
          (k.xor_si256 l (k.set1_epi32 0x80000000)) in
      let top = λ (x : ℕ). bit_xor x 2147483648 in
      let e : lane8 (halves carry) i
          ≡ (if ltb (lane8 (halves l) i) (lane8 (halves add1) i) then 4294967295 else 0) =
        ap (λ t. lane8 t i) (d.cmpgt _ _ ∙ ap₂ (in_both (zip signed_gt)) (flipped add1) (flipped l))
        ∙ lane8-in_both signed_gt _ _ i
        ∙ ap₂ signed_gt (lane8-eachs top (halves add1) i) (lane8-eachs top (halves l) i)
        ∙ signed_gt_flip _ _ (lane8-IsWord add1 i) (lane8-IsWord l i) in
      ap (λ t. lane8 t i)
        (d.sub _ carry
          ∙ ap (λ t. in_both (zip (λ x y. u32 (x + 2 ^ 32 - y))) t (halves carry))
              (d.set1 (u32 (counter >>> 32))))
      ∙ lane8-in_both (λ x y. u32 (x + 2 ^ 32 - y)) _ (halves carry) i
      ∙ ap₂ (λ x y. u32 (x + 2 ^ 32 - y)) (lane8_same (u32 (u32 (counter >>> 32))) i) e

  lane8-offsets :
      (increment : Bool) (i : ℕ)
      → i < 8
      → lane8 (offsets increment) i ≡ (if increment then i else 0)
  lane8-offsets increment zero h = refl
  lane8-offsets increment (suc zero) h = refl
  lane8-offsets increment (suc (suc zero)) h = refl
  lane8-offsets increment (suc (suc (suc zero))) h = refl
  lane8-offsets increment (suc (suc (suc (suc zero)))) h = refl
  lane8-offsets increment (suc (suc (suc (suc (suc zero))))) h = refl
  lane8-offsets increment (suc (suc (suc (suc (suc (suc zero)))))) h = refl
  lane8-offsets increment (suc (suc (suc (suc (suc (suc (suc zero))))))) h = refl
  lane8-offsets increment (suc (suc (suc (suc (suc (suc (suc (suc i)))))))) h = absurd (omega arith)

  -- Each step wraps, or all of them at the end.
  steps-true :
      (n c : ℕ)
      → (u32 (c + n) ≡ u32 (steps true c n)) × (u32 ((c + n) >>> 32) ≡ u32 (steps true c n >>> 32))
  steps-true zero c = (omega arith, omega arith)
  steps-true (suc n) c = let (low, high) = steps-true n (u64 (c + 1)) in (omega arith, omega arith)

  steps-false : (n c : ℕ) → steps false c n ≡ c
  steps-false zero c = refl
  steps-false (suc n) c = steps-false n c

  counter_words :
      (increment : Bool) (counter i : ℕ)
      → i < 8
      → let a = lane8 (offsets increment) i in
        (u32 (u32 (u32 counter) + a) ≡ u32 (steps increment counter i))
        × (u32 ((counter + a) >>> 32) ≡ u32 (steps increment counter i >>> 32))
        × (a < 16)
  counter_words true counter i h =
      let e = lane8-offsets true i h in
      let (low, high) = steps-true i counter in rw e (omega arith, high, omega arith)
  counter_words false counter i h =
      let e = lane8-offsets false i h in
      rw (e, steps-false i counter) (omega arith, omega arith, omega arith)

  -- The lanes of the two vectors hold the words of the counters of the inputs.
  pub load_counters_lem :
      (counter : ℕ) (increment : Bool) (i : ℕ)
      → i < 8
      → (lane8 (halves (load_counters k counter increment).0) i
          ≡ counter_low (steps increment counter i))
        × (lane8 (halves (load_counters k counter increment).1) i
            ≡ counter_high (steps increment counter i))
  unfolding load_counters counter_low counter_high
  load_counters_lem counter increment i h =
      let add1 = k.and_si256 (mask increment) (k.set_epi32 7 6 5 4 3 2 1 0) in
      let l = k.add_epi32 (k.set1_epi32 (u32 counter)) add1 in
      let a = lane8 (offsets increment) i in
      let ea = ap (λ t. lane8 t i) (add1_halves increment) in
      let (low, high, small) = counter_words increment counter i h in
      let el : lane8 (halves l) i ≡ u32 (u32 (u32 counter) + a) =
        ap (λ s. lane8 s i) (d.add _ add1)
        ∙ lane8-in_both (λ x y. u32 (x + y)) _ (halves add1) i
        ∙ ap₂ (λ x y. u32 (x + y))
            (ap (λ s. lane8 s i) (d.set1 (u32 counter)) ∙ lane8_same (u32 (u32 counter)) i) ea in
      (
        el ∙ low,
        high_lane counter add1 l i
            ∙ ap₂
                (λ x y.
                  u32 (u32 (u32 (counter >>> 32)) + 2 ^ 32 - (if ltb x y then 4294967295 else 0)))
                el ea
            ∙ high_word counter a small
            ∙ high,
      )
