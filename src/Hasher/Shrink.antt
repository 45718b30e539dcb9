-- ===== src/Hasher/Shrink.antt =====
-- The subtree that the update loop takes: the largest power of two of bytes that the input has and
-- that divides the bytes so far.
use blake.Base.{ℕ, zero, suc, ◌+◌, ◌-◌, ◌%◌, ◌/◌, ◌^◌, ◌≤◌, ◌<◌, ◌≡◌, ap, ◌∙◌, arith}
use blake.Base.{bit_and, u64, some, eq-or-ne, ==_iff, inl, inr, le-or-gt}
use blake.Base.Bits.{bit_and_mask, two-pow-pos, two-pow_mono, bit_and_comm}
use blake.Hasher.{shrink}
use native.Mathlib.Nat.{pow-suc}

-- The mask of the loop is a remainder.
mask_lem :
    (k count : ℕ)
    → k < 64
    → count < 2 ^ 64
    → bit_and (u64 (2 ^ k + (2 ^ 64 - 1))) count ≡ count % 2 ^ k
mask_lem k count h g =
    let p = two-pow-pos k in
    let up = two-pow_mono k 63 (omega arith) in
    let e : u64 (2 ^ k + (2 ^ 64 - 1)) ≡ 2 ^ k - 1 = omega arith in
    ap (λ (t : ℕ). bit_and t count) e
    ∙ bit_and_comm 64 (2 ^ k - 1) count (omega arith) g
    ∙ bit_and_mask k count

-- From a power of two of bytes, a chunk at least, the halving loop of the update ends within its
-- fuel, on a power of two of bytes that is a chunk at least and divides the bytes so far, where
-- these are whole chunks and both numbers are below 2^64.
pub shrink_lem :
    (fuel k count : ℕ)
    → k < 64
    → k ≤ fuel + 9
    → 10 ≤ k
    → count < 2 ^ 64
    → count % 2 ^ 10 ≡ 0
    → (s : ℕ) × (shrink fuel (2 ^ k) count ≡ some (2 ^ s))
      × (10 ≤ s)
      × (s ≤ k)
      × (count % 2 ^ s ≡ 0)
unfolding shrink
shrink_lem zero k count small h low bound e = absurd (omega arith)
shrink_lem (suc fuel) zero count small h low bound e = absurd (omega arith)
shrink_lem (suc fuel) (suc k) count small h low bound e = elim (eq-or-ne (count % 2 ^ suc k) 0) [
  | inl divides ↦ (
    suc k,
    rw (mask_lem (suc k) count small bound, (==_iff (count % 2 ^ suc k) 0).1 divides, shrink),
    low,
    omega arith,
    divides,
  )
  | inr not_yet ↦ elim (le-or-gt k 9) [
    | inl last ↦
        let same : k ≡ 9 = omega arith in
        let zero_left : count % 2 ^ suc k ≡ 0 = ap (λ (t : ℕ). count % 2 ^ suc t) same ∙ e in
        absurd (ground (arith, zero_left))
    | inr more ↦
        let (s, f, lo, hi, d) =
          shrink_lem fuel k count (omega arith) (omega arith) (omega arith) bound e in
        let half : 2 ^ suc k / 2 ≡ 2 ^ k = omega (arith, pow-suc 2 k) in
        (s, rw (mask_lem (suc k) count small bound, not_yet, shrink, half) f, lo, omega arith, d)
  ]
]
