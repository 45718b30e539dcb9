-- ===== src/Impl/Ones.antt =====
-- How the number of ones changes when a power of two is added, as the count of chunks grows.
use blake.Base.{ℕ, zero, suc, ◌+◌, ◌*◌, ◌/◌, ◌%◌, ◌^◌, ◌≤◌, ◌<◌, ◌≡◌, ap, arith, inl, inr}
use blake.Base.{eq-or-ne}
use blake.Base.Bits.{mul-two-pow-suc}
use blake.Impl.Integers.{ones}
use native.Mathlib.Nat.{pow-suc}

half_of : (p q x : ℕ) → q ≡ 2 * p → (x + q) / 2 ≡ x / 2 + p
half_of p q x e = omega arith

half_step : (k x y : ℕ) → x / 2 ≡ y → x % 2 ≡ 0 → ones (suc k) x ≡ ones k y
unfolding ones
half_step k x y e h = omega (arith, ap (λ (t : ℕ). ones k t) e)

-- The lowest one counts once.
pub ones-lowest : (k a q : ℕ) → a < k → ones k (q * 2 ^ suc a + 2 ^ a) ≡ 1 + ones k (q * 2 ^ suc a)
ones-lowest zero a q h = absurd (omega arith)
ones-lowest (suc k) zero q h =
    unfold ones in
    let e : (q * 2 + 1) / 2 ≡ q = omega arith in
    let e' : q * 2 / 2 ≡ q = omega arith in
    omega (arith, ap (λ (t : ℕ). ones k t) e, ap (λ (t : ℕ). ones k t) e')
ones-lowest (suc k) (suc a) q h =
    let x : ℕ = q * 2 ^ suc (suc a) in
    let e : q * 2 ^ suc (suc a) ≡ 2 * (q * 2 ^ suc a) = mul-two-pow-suc q (suc a) in
    let p = pow-suc 2 a in
    omega (
      arith,
      half_step k (q * 2 ^ suc (suc a) + 2 ^ suc a) (q * 2 ^ suc a + 2 ^ a) (omega arith)
          (omega arith),
      half_step k (q * 2 ^ suc (suc a)) (q * 2 ^ suc a) (omega arith) (omega arith),
      ones-lowest k a q (omega arith),
    )

ones-succ : (k x : ℕ) → ones k (x + 1) ≤ ones k x + 1
unfolding ones
ones-succ zero x = omega arith
ones-succ (suc k) x = elim (eq-or-ne (x % 2) 0) [
  | inl even ↦
      let e : (x + 1) / 2 ≡ x / 2 = omega arith in omega (arith, ap (λ (t : ℕ). ones k t) e)
  | inr odd ↦
      let d : x % 2 ≡ 1 = ground arith in
      let e : (x + 1) / 2 ≡ x / 2 + 1 = omega arith in
      omega (arith, ap (λ (t : ℕ). ones k t) e, ones-succ k (x / 2))
]

-- A power of two adds one at most.
pub ones-add_two-pow : (k a x : ℕ) → ones k (x + 2 ^ a) ≤ ones k x + 1
unfolding ones
ones-add_two-pow zero a x = omega arith
ones-add_two-pow (suc k) zero x = ones-succ (suc k) x
ones-add_two-pow (suc k) (suc a) x =
    let p = pow-suc 2 a in
    let e = half_of (2 ^ a) (2 ^ suc a) x (omega arith) in
    omega (arith, ap (λ (t : ℕ). ones k t) e, ones-add_two-pow k a (x / 2))

-- A number of `a` digits has at most `a` ones.
pub ones_below : (k a x : ℕ) → x < 2 ^ a → ones k x ≤ a
unfolding ones
ones_below zero a x h = omega arith
ones_below (suc k) zero x h =
    let e : x ≡ 0 = omega arith in
    omega (arith, ap (λ (t : ℕ). ones (suc k) t) e, ones_below k zero 0 (omega arith))
ones_below (suc k) (suc a) x h = omega (arith, ones_below k a (x / 2) (omega (arith, pow-suc 2 a)))
