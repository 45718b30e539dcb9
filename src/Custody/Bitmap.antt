-- ===== src/Custody/Bitmap.antt =====
-- The bitmap of c/rafaelia_packet_custody.c, read digit by digit: fragment `i` has the digit `i % 8`
-- of the byte `i / 8`.
use blake.Base.{ℕ, zero, suc, ◌*◌, ◌/◌, ◌%◌, ◌^◌, ◌≤◌, ◌<◌, bit_and, bit_or}
use blake.Base.{◌≡◌, ◌≢◌, sym, ap, ◌∙◌, arith, inl, inr, eq-or-ne, not}
use blake.Base.{◌==◌, length, set, u8, ◌<<<◌, get_or-set_same, get_or-set_other}
use blake.Base.Bits.{bit_and_mask}
use blake.Base.Digits.{bit_and-two-pow, digit-bit_or, digit_two-pow_same, digit_two-pow_other}
use blake.Base.Bits.{two-pow-pos, two-pow_mono}
use native.Mathlib.Nat.{mod-eq_of_lt}
use blake.Impl.{at}
use blake.Custody.{Stream, mask, bit_is_set, bit_set, bitmap_len}

-- 1 where a fragment is marked and 0 where it is not.
unfoldable pub digit : Stream → ℕ → ℕ
digit state i = at state.received_bitmap (i / 8) / 2 ^ (i % 8) % 2

pub digit-le : (state : Stream) (i : ℕ) → digit state i ≤ 1
unfolding digit
digit-le state i = omega arith

mask_lem : (i : ℕ) → mask i ≡ 1 * 2 ^ (i % 8)
mask_lem i =
    ap (λ (t : ℕ). u8 (1 <<< t)) (bit_and_mask 3 i)
    ∙ mod-eq_of_lt {n = 1 * 2 ^ (i % 8)} {m = 2 ^ 8}
        (omega (arith, two-pow_mono (i % 8) 7 (omega arith)))

nonzero_times : (d p : ℕ) → d < 2 → 0 < p → not (d * p == 0) ≡ (d == 1)
nonzero_times zero p h q = grind arith
nonzero_times (suc zero) p h q = ground arith
nonzero_times (suc (suc d)) p h q = absurd (omega arith)

pub bit_is_set-digit : (state : Stream) (i : ℕ) → bit_is_set state i ≡ (digit state i == 1)
unfolding bit_is_set digit
bit_is_set-digit state i =
    let byte = at state.received_bitmap (i / 8) in
    ap (λ (t : ℕ). not (bit_and byte t == 0)) (mask_lem i)
    ∙ ap (λ (t : ℕ). not (t == 0)) (bit_and-two-pow (i % 8) byte)
    ∙ nonzero_times (byte / 2 ^ (i % 8) % 2) (2 ^ (i % 8)) (omega arith) (two-pow-pos (i % 8))

set_digit_same : (byte k : ℕ) → bit_or byte (1 * 2 ^ k) / 2 ^ k % 2 ≡ 1
set_digit_same byte k =
    digit-bit_or k byte (1 * 2 ^ k)
    ∙ omega (
      arith,
      digit_two-pow_same k,
      ap (λ (t : ℕ). t / 2 ^ k % 2) {x = 1 * 2 ^ k} {y = 2 ^ k} (omega arith),
    )

set_digit_other : (byte k j : ℕ) → k ≢ j → bit_or byte (1 * 2 ^ k) / 2 ^ j % 2 ≡ byte / 2 ^ j % 2
set_digit_other byte k j ne =
    digit-bit_or j byte (1 * 2 ^ k)
    ∙ omega (
      arith,
      digit_two-pow_other k j ne,
      ap (λ (t : ℕ). t / 2 ^ j % 2) {x = 1 * 2 ^ k} {y = 2 ^ k} (omega arith),
    )

module _ (state : Stream) (i : ℕ) where
  abbrev byte : ℕ
  byte = at state.received_bitmap (i / 8)

  written :
      length state.received_bitmap ≡ bitmap_len
      → i < 4096
      → at (set state.received_bitmap (i / 8) (bit_or byte (mask i))) (i / 8)
        ≡ bit_or byte (1 * 2 ^ (i % 8))
  written size h =
      get_or-set_same state.received_bitmap (i / 8) (bit_or byte (mask i)) 0 (omega arith)
      ∙ ap (λ (t : ℕ). bit_or byte t) (mask_lem i)

  pub digit-bit_set_same :
      length state.received_bitmap ≡ bitmap_len → i < 4096 → digit (bit_set state i) i ≡ 1
  unfolding digit bit_set
  digit-bit_set_same size h =
      ap (λ (t : ℕ). t / 2 ^ (i % 8) % 2) (written size h) ∙ set_digit_same byte (i % 8)

  pub digit-bit_set_other :
      (j : ℕ)
      → i ≢ j
      → length state.received_bitmap ≡ bitmap_len
      → i < 4096
      → digit (bit_set state i) j ≡ digit state j
  unfolding digit bit_set
  digit-bit_set_other j ne size h = elim (eq-or-ne (i / 8) (j / 8)) [
    | inl e ↦
        let bytes = set state.received_bitmap (i / 8) (bit_or byte (mask i)) in
        ap (λ (t : ℕ). at bytes t / 2 ^ (j % 8) % 2) (sym e)
        ∙ ap (λ (t : ℕ). t / 2 ^ (j % 8) % 2) (written size h)
        ∙ set_digit_other byte (i % 8) (j % 8) (λ r. ne (omega arith))
        ∙ ap (λ (t : ℕ). at state.received_bitmap t / 2 ^ (j % 8) % 2) e
    | inr apart ↦
        ap (λ (t : ℕ). t / 2 ^ (j % 8) % 2)
          (get_or-set_other state.received_bitmap (i / 8) (j / 8) _ 0 (ground arith))
  ]
