-- ===== src/Base/Digits.antt =====
-- Single digits of the bitwise operations, and operations that come out as 0.
use Prim.Native.Nat.{ℕ, zero, suc, ◌*◌, ◌/◌, ◌%◌, ◌^◌, ◌<◌, max}
use Prim.Native.Nat.{bit_and, bit_or, bit_xor}
use Prim.Native.Nat.{bit_xor-bitwise}
use mathlib.Core.Path.{◌≡◌, refl, sym, ap, ◌∙◌}
use native.Mathlib.Nat.{pow-suc, pow-succ', div-div-eq-div-mul}
use native.Mathlib.Omega.{arith}
use mathlib.Core.Logic.{◌≢◌}
use blake.Base.Bits.{
  bit_or_step, bit_xor_step, bit_and_shifted, bit_and_mask, bit_xor_self_inverse, two-pow-pos,
}

div-two-pow-suc : (j a : ℕ) → a / 2 ^ suc j ≡ a / 2 / 2 ^ j
div-two-pow-suc j a = rw pow-succ' (sym (div-div-eq-div-mul a 2 (2 ^ j)))

-- The digits of `|`, and of a power of two.
pub digit-bit_or : (j a b : ℕ) → bit_or a b / 2 ^ j % 2 ≡ max (a / 2 ^ j % 2) (b / 2 ^ j % 2)
digit-bit_or zero a b = omega (arith, bit_or_step a b)
digit-bit_or (suc j) a b =
    let halved : bit_or a b / 2 ≡ bit_or (a / 2) (b / 2) = omega (arith, bit_or_step a b) in
    rw (div-two-pow-suc j (bit_or a b), div-two-pow-suc j a, div-two-pow-suc j b, halved)
      (digit-bit_or j (a / 2) (b / 2))

halve_two-pow : (k : ℕ) → 2 ^ suc k / 2 ≡ 2 ^ k
halve_two-pow k = omega (arith, pow-suc 2 k)

pub digit_two-pow_same : (k : ℕ) → 2 ^ k / 2 ^ k % 2 ≡ 1
digit_two-pow_same zero = refl
digit_two-pow_same (suc k) =
    ap (λ (t : ℕ). t % 2) (div-two-pow-suc k (2 ^ suc k))
    ∙ ap (λ (t : ℕ). t / 2 ^ k % 2) (halve_two-pow k)
    ∙ digit_two-pow_same k

pub digit_two-pow_other : (k j : ℕ) → k ≢ j → 2 ^ k / 2 ^ j % 2 ≡ 0
digit_two-pow_other zero zero ne = absurd (ne refl)
digit_two-pow_other zero (suc j) ne =
    ap (λ (t : ℕ). t % 2) (div-two-pow-suc j 1) ∙ grind (arith, two-pow-pos j)
digit_two-pow_other (suc k) zero ne = omega (arith, pow-suc 2 k)
digit_two-pow_other (suc k) (suc j) ne =
    ap (λ (t : ℕ). t % 2) (div-two-pow-suc j (2 ^ suc k))
    ∙ ap (λ (t : ℕ). t / 2 ^ j % 2) (halve_two-pow k)
    ∙ digit_two-pow_other k j (λ e. ne (ap suc e))

-- `x & (1 << k)` picks one digit.
pub bit_and-two-pow : (k x : ℕ) → bit_and x (1 * 2 ^ k) ≡ x / 2 ^ k % 2 * 2 ^ k
bit_and-two-pow k x = bit_and_shifted k x 1 ∙ ap (λ (t : ℕ). t * 2 ^ k) (bit_and_mask 1 (x / 2 ^ k))

-- `|` and `^` that come out as 0.
pub bit_or_eq_zero : (k a b : ℕ) → a < 2 ^ k → b < 2 ^ k → bit_or a b ≡ 0 → (a ≡ 0) × (b ≡ 0)
bit_or_eq_zero zero a b h g e = (omega arith, omega arith)
bit_or_eq_zero (suc k) a b h g e =
    let (p, q) =
      bit_or_eq_zero k (a / 2) (b / 2) (omega (arith, pow-suc 2 k)) (omega (arith, pow-suc 2 k))
        (omega (arith, bit_or_step a b)) in
    (omega (arith, bit_or_step a b), omega (arith, bit_or_step a b))

pub bit_xor_self : (k a : ℕ) → a < 2 ^ k → bit_xor a a ≡ 0
bit_xor_self zero zero h = refl
bit_xor_self zero (suc a) h = absurd (omega arith)
bit_xor_self (suc k) a h =
    omega (arith, bit_xor_step a a, bit_xor_self k (a / 2) (omega (arith, pow-suc 2 k)))

pub bit_xor_eq_zero : (k a b : ℕ) → a < 2 ^ k → b < 2 ^ k → bit_xor a b ≡ 0 → a ≡ b
bit_xor_eq_zero k a b h g e =
    sym (bit_xor_self_inverse k a b h g) ∙ ap (λ (t : ℕ). bit_xor t b) e ∙ bit_xor-bitwise 0 b
