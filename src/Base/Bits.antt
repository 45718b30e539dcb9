-- ===== src/Base/Bits.antt =====
-- Laws of the bitwise operations at variables. The native operations stand for a recursion on the
-- binary digits; here are its one-digit equations, and what follows from them by induction.
use Prim.Native.Nat.{ℕ, zero, suc, ◌+◌, ◌-◌, ◌*◌, ◌/◌, ◌%◌, ◌^◌, ◌≤◌, ◌<◌, min, max}
use Prim.Native.Nat.{bit_and, bit_or, bit_xor, digits, bitwise, differ}
use Prim.Native.Nat.{bit_and-bitwise, bit_or-bitwise, bit_xor-bitwise}
use mathlib.Core.Path.{◌≡◌, refl, sym, ap}
use native.Mathlib.Nat.{
  add-zero, add-suc, pow-suc, pow-succ', le_refl, one-le-pow, div-div-eq-div-mul,
}
use native.Mathlib.Omega.{arith}
use mathlib.Core.Logic.{inl, inr}
use blake.Base.Tests.{le-or-gt}

module _ (base : ℕ → ℕ) (digit : ℕ → ℕ → ℕ) where
  -- Any fuel from the first number on gives the same digits.
  enough_digits :
      (x y fuel fuel' : ℕ)
      → x ≤ fuel
      → x ≤ fuel'
      → digits base digit fuel x y ≡ digits base digit fuel' x y
  enough_digits zero y zero zero h h' = refl
  enough_digits zero y zero (suc fuel') h h' = refl
  enough_digits zero y (suc fuel) zero h h' = refl
  enough_digits zero y (suc fuel) (suc fuel') h h' = refl
  enough_digits (suc x) y zero fuel' h h' = absurd (omega arith)
  enough_digits (suc x) y (suc fuel) zero h h' = absurd (omega arith)
  enough_digits (suc x) y (suc fuel) (suc fuel') h h' =
      ap (λ (v : ℕ). v * 2 + digit (suc x % 2) (y % 2))
        (enough_digits (suc x / 2) (y / 2) fuel fuel' (omega arith) (omega arith))

  lowest_digit :
      (x y : ℕ)
      → bitwise base digit (suc x) y
        ≡ bitwise base digit (suc x / 2) (y / 2) * 2 + digit (suc x % 2) (y % 2)
  lowest_digit x y =
      let h : suc x / 2 ≤ x = omega arith in
      ap (λ (v : ℕ). v * 2 + digit (suc x % 2) (y % 2))
        (enough_digits (suc x / 2) (y / 2) x (suc x / 2) h (le_refl (suc x / 2)))

pub bit_and_step : (x y : ℕ) → bit_and x y ≡ bit_and (x / 2) (y / 2) * 2 + min (x % 2) (y % 2)
bit_and_step zero y = simp bit_and-bitwise (omega arith)
bit_and_step (suc x) y = simp bit_and-bitwise (lowest_digit (λ v. 0) min x y)

pub bit_or_step : (x y : ℕ) → bit_or x y ≡ bit_or (x / 2) (y / 2) * 2 + max (x % 2) (y % 2)
bit_or_step zero y = simp bit_or-bitwise (omega arith)
bit_or_step (suc x) y = simp bit_or-bitwise (lowest_digit (λ v. v) max x y)

differ-bits : (a b : ℕ) → a < 2 → b < 2 → differ a b ≡ (a + b) % 2
differ-bits zero b h k = omega arith
differ-bits (suc zero) zero h k = refl
differ-bits (suc zero) (suc zero) h k = refl
differ-bits (suc zero) (suc (suc b)) h k = absurd (omega arith)
differ-bits (suc (suc a)) b h k = absurd (omega arith)

bit_xor_digit : (a b : ℕ) → bit_xor a b ≡ bit_xor (a / 2) (b / 2) * 2 + differ (a % 2) (b % 2)
bit_xor_digit zero b = simp bit_xor-bitwise (omega arith)
bit_xor_digit (suc a) b = simp bit_xor-bitwise (lowest_digit (λ v. v) differ a b)

pub bit_xor_step : (a b : ℕ) → bit_xor a b ≡ bit_xor (a / 2) (b / 2) * 2 + (a % 2 + b % 2) % 2
bit_xor_step a b =
    omega (arith, bit_xor_digit a b, differ-bits (a % 2) (b % 2) (omega arith) (omega arith))

-- Induction on the number of digits: what holds of halves carries over to the number.
pub bit_xor_self_inverse : (k a b : ℕ) → a < 2 ^ k → b < 2 ^ k → bit_xor (bit_xor a b) b ≡ a
bit_xor_self_inverse zero zero zero h g = refl
bit_xor_self_inverse zero (suc a) b h g = absurd (omega arith)
bit_xor_self_inverse zero zero (suc b) h g = absurd (omega arith)
bit_xor_self_inverse (suc k) a b h g = grind (
  arith,
  pow-suc 2 k,
  bit_xor_step a b,
  bit_xor_step (bit_xor a b) b,
  bit_xor_self_inverse k (a / 2) (b / 2),
)

pub bit_xor-lt : (k a b : ℕ) → a < 2 ^ k → b < 2 ^ k → bit_xor a b < 2 ^ k
bit_xor-lt zero zero zero h g = omega arith
bit_xor-lt zero (suc a) b h g = absurd (omega arith)
bit_xor-lt zero zero (suc b) h g = absurd (omega arith)
bit_xor-lt (suc k) a b h g = omega (
  arith,
  pow-suc 2 k,
  bit_xor_step a b,
  bit_xor-lt k (a / 2) (b / 2) (omega (arith, pow-suc 2 k)) (omega (arith, pow-suc 2 k)),
)

pub bit_or-lt : (k a b : ℕ) → a < 2 ^ k → b < 2 ^ k → bit_or a b < 2 ^ k
bit_or-lt zero zero zero h g = omega arith
bit_or-lt zero (suc a) b h g = absurd (omega arith)
bit_or-lt zero zero (suc b) h g = absurd (omega arith)
bit_or-lt (suc k) a b h g = omega (
  arith,
  pow-suc 2 k,
  bit_or_step a b,
  bit_or-lt k (a / 2) (b / 2) (omega (arith, pow-suc 2 k)) (omega (arith, pow-suc 2 k)),
)

pub bit_or-zero : (k a : ℕ) → a < 2 ^ k → bit_or a 0 ≡ a
bit_or-zero zero zero h = refl
bit_or-zero zero (suc a) h = absurd (omega arith)
bit_or-zero (suc k) a h =
    omega (arith, bit_or_step a 0, bit_or-zero k (a / 2) (omega (arith, pow-suc 2 k)))

pub bit_and-zero : (k a : ℕ) → a < 2 ^ k → bit_and a 0 ≡ 0
bit_and-zero zero zero h = refl
bit_and-zero zero (suc a) h = absurd (omega arith)
bit_and-zero (suc k) a h =
    omega (arith, bit_and_step a 0, bit_and-zero k (a / 2) (omega (arith, pow-suc 2 k)))

pub lt-two-pow : (n : ℕ) → n < 2 ^ n
lt-two-pow zero = omega arith
lt-two-pow (suc n) = omega (arith, pow-suc 2 n, lt-two-pow n)

pub zero-bit_or : (b : ℕ) → bit_or 0 b ≡ b
zero-bit_or b = bit_or-bitwise 0 b

pub bit_and_self : (k a : ℕ) → a < 2 ^ k → bit_and a a ≡ a
bit_and_self zero zero h = refl
bit_and_self zero (suc a) h = absurd (omega arith)
bit_and_self (suc k) a h =
    omega (arith, bit_and_step a a, bit_and_self k (a / 2) (omega (arith, pow-suc 2 k)))

double-pow : (q k : ℕ) → q * 2 ^ suc k ≡ 2 * (q * 2 ^ k)
double-pow q k = omega (arith, ap (λ (t : ℕ). q * t) (pow-suc 2 k))

-- `(q << k) | r` is a sum where `r` fits `k` bits.
pub bit_or_fields : (k q r : ℕ) → r < 2 ^ k → bit_or (q * 2 ^ k) r ≡ q * 2 ^ k + r
bit_or_fields zero q zero h = rw (bit_or-zero (q * 1) (q * 1) (lt-two-pow (q * 1))) (omega arith)
bit_or_fields zero q (suc r) h = absurd (omega arith)
bit_or_fields (suc k) q r h = omega (
  arith,
  bit_or_step (q * 2 ^ suc k) r,
  double-pow q k,
  ap (λ (t : ℕ). bit_or t (r / 2)) (half-double (q * 2 ^ k) (q * 2 ^ suc k) (double-pow q k)),
  bit_or_fields k q (r / 2) (omega (arith, pow-suc 2 k)),
)
  where
    half-double : (m n : ℕ) → n ≡ 2 * m → n / 2 ≡ m
    half-double m n e = omega arith

-- `&` with a mask of ones above bit `k` looks at the higher digits alone.
pub bit_and_shifted : (k a m : ℕ) → bit_and a (m * 2 ^ k) ≡ bit_and (a / 2 ^ k) m * 2 ^ k
bit_and_shifted zero a m = grind arith
bit_and_shifted (suc k) a m = omega (
  arith,
  bit_and_step a (m * 2 ^ suc k),
  double-pow m k,
  double-pow (bit_and (a / 2 ^ suc k) m) k,
  ap (λ (t : ℕ). bit_and (a / 2) t) (half (m * 2 ^ k) (m * 2 ^ suc k) (double-pow m k)),
  ap (λ (t : ℕ). bit_and t m * 2 ^ k) (div-two-pow a),
  bit_and_shifted k (a / 2) m,
)
  where
    half : (p q : ℕ) → q ≡ 2 * p → q / 2 ≡ p
    half p q e = omega arith

    div-two-pow : (b : ℕ) → b / 2 ^ suc k ≡ b / 2 / 2 ^ k
    div-two-pow b = rw pow-succ' (sym (div-div-eq-div-mul b 2 (2 ^ k)))

bit_and_fields : (k q r : ℕ) → r < 2 ^ k → bit_and (q * 2 ^ k + r) (2 ^ k - 1) ≡ r
bit_and_fields zero q r h =
    rw (bit_and-zero (q * 1 + r) (q * 1 + r) (lt-two-pow (q * 1 + r))) (omega arith)
bit_and_fields (suc k) q r h = ground (
  arith,
  bit_and_step (q * 2 ^ suc k + r) (2 ^ suc k - 1),
  double-pow q k,
  pow-suc 2 k,
  one-le-pow k 2,
  bit_and_fields k q (r / 2) (omega (arith, pow-suc 2 k)),
)

-- `&` with `k` low ones is the remainder by `2 ^ k`.
pub bit_and_mask : (k a : ℕ) → bit_and a (2 ^ k - 1) ≡ a % 2 ^ k
bit_and_mask k a = ground (arith, one-le-pow k 2, bit_and_fields k (a / 2 ^ k) (a % 2 ^ k))

pub two-pow-add : (c s : ℕ) → 2 ^ (c + s) ≡ 2 ^ c * 2 ^ s
two-pow-add c zero = rw add-zero (omega arith)
two-pow-add c (suc s) = rw (add-suc) (
    omega (
      arith,
      pow-suc 2 (c + s),
      pow-suc 2 s,
      two-pow-add c s,
      ap (λ (t : ℕ). 2 ^ c * t) (pow-suc 2 s),
    ))

pub two-pow-pos : (k : ℕ) → 0 < 2 ^ k
two-pow-pos k = one-le-pow k 2 (omega arith)

pub two-pow_mono : (a b : ℕ) → a ≤ b → 2 ^ a ≤ 2 ^ b
two-pow_mono zero b h = two-pow-pos b
two-pow_mono (suc a) zero h = absurd (omega arith)
two-pow_mono (suc a) (suc b) h =
    omega (arith, pow-suc 2 a, pow-suc 2 b, two-pow_mono a b (omega arith))

pub two-pow-cancel_lt : (a c : ℕ) → 2 ^ a < 2 ^ c → a < c
two-pow-cancel_lt a c h = elim (le-or-gt c a) [
  | inl le ↦ absurd (omega (arith, two-pow_mono c a le))
  | inr gt ↦ gt
]

bit_or_comm_below : (k a b : ℕ) → a < 2 ^ k → b < 2 ^ k → bit_or a b ≡ bit_or b a
bit_or_comm_below zero zero zero h g = refl
bit_or_comm_below zero (suc a) b h g = absurd (omega arith)
bit_or_comm_below zero zero (suc b) h g = absurd (omega arith)
bit_or_comm_below (suc k) a b h g = omega (
  arith,
  bit_or_step a b,
  bit_or_step b a,
  bit_or_comm_below k (a / 2) (b / 2) (omega (arith, pow-suc 2 k)) (omega (arith, pow-suc 2 k)),
)

pub bit_or_comm : (a b : ℕ) → bit_or a b ≡ bit_or b a
bit_or_comm a b =
    bit_or_comm_below (max a b) a b (omega (arith, lt-two-pow (max a b)))
      (omega (arith, lt-two-pow (max a b)))

pub mul-two-pow-suc : (q a : ℕ) → q * 2 ^ suc a ≡ 2 * (q * 2 ^ a)
mul-two-pow-suc q a = omega (arith, ap (λ (t : ℕ). q * t) (pow-suc 2 a))

pub mul-two-pow-add : (q c s : ℕ) → q * 2 ^ (c + s) ≡ q * 2 ^ c * 2 ^ s
mul-two-pow-add q c s = omega (arith, ap (λ (t : ℕ). q * t) (two-pow-add c s))

pub bit_and_comm : (k a b : ℕ) → a < 2 ^ k → b < 2 ^ k → bit_and a b ≡ bit_and b a
bit_and_comm zero zero zero h g = refl
bit_and_comm zero (suc a) b h g = absurd (omega arith)
bit_and_comm zero zero (suc b) h g = absurd (omega arith)
bit_and_comm (suc k) a b h g = omega (
  arith,
  bit_and_step a b,
  bit_and_step b a,
  bit_and_comm k (a / 2) (b / 2) (omega (arith, pow-suc 2 k)) (omega (arith, pow-suc 2 k)),
)
