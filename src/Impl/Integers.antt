-- ===== src/Impl/Integers.antt =====
-- What `highest_one`, `round_down_to_power_of_2` and `popcnt` compute.
use blake.Base.{ℕ, zero, suc, ◌+◌, ◌-◌, ◌*◌, ◌/◌, ◌%◌, ◌^◌, ◌≤◌, ◌<◌, max, bit_and, bit_or}
use blake.Base.{
  ◌≡◌, refl, sym, ap, ◌∙◌, arith, ◌==◌, false, inl, inr, eq-or-ne, le-or-gt, if◌then◌else◌, u64,
  ◌<<<◌,
}
use blake.Base.Bits.{
  bit_and_shifted, bit_and_mask, bit_and_step, bit_and_self, lt-two-pow, two-pow-pos, two-pow-add,
  two-pow_mono,
}
use blake.Base.Bits.{bit_or_step, bit_or-zero}
use blake.Impl.{narrow, highest_one, popcnt_loop, popcnt, round_down_to_power_of_2}
use native.Mathlib.Nat.{
  pow-suc, mod-eq_of_lt, div-lt_iff_lt-mul, div-div-eq-div-mul, div-mul-le_self, one-mul,
}

-- The number of ones among the `k` low digits.
unfoldable pub ones : ℕ → ℕ → ℕ
ones zero x = 0
ones (suc k) x = x % 2 + ones k (x / 2)

pub ones-le : (k x : ℕ) → ones k x ≤ k
unfolding ones
ones-le zero x = omega arith
ones-le (suc k) x = omega (arith, ones-le k (x / 2))

pub ones-zero : (k : ℕ) → ones k 0 ≡ 0
unfolding ones
ones-zero zero = refl
ones-zero (suc k) = omega (arith, ones-zero k)

-- A one set above all others counts once.
pub ones-two-pow-add : (k a m : ℕ) → a < k → m < 2 ^ a → ones k (2 ^ a + m) ≡ 1 + ones k m
unfolding ones
ones-two-pow-add zero a m h g = absurd (omega arith)
ones-two-pow-add (suc k) zero zero h g = omega arith
ones-two-pow-add (suc k) zero (suc m) h g = absurd (omega arith)
ones-two-pow-add (suc k) (suc a) m h g = omega (
  arith,
  ones-two-pow-add k a (m / 2) (omega arith) (omega (arith, pow-suc 2 a)),
  ap (λ (t : ℕ). ones k t) (halves (2 ^ a) (2 ^ suc a) (omega (arith, pow-suc 2 a))),
  pow-suc 2 a,
)
  where
    halves : (p q : ℕ) → q ≡ 2 * p → (q + m) / 2 ≡ p + m / 2
    halves p q e = omega arith

-- `x & (x - 1)` clears the lowest one.
clear_even : (x : ℕ) → x % 2 ≡ 0 → 0 < x → bit_and x (x - 1) ≡ bit_and (x / 2) (x / 2 - 1) * 2
clear_even x e p = omega (
  arith,
  bit_and_step x (x - 1),
  ap (λ (t : ℕ). bit_and (x / 2) t) {x = (x - 1) / 2} {y = x / 2 - 1} (omega arith),
)

clear_odd : (x : ℕ) → x % 2 ≡ 1 → bit_and x (x - 1) ≡ x / 2 * 2
clear_odd x e = omega (
  arith,
  bit_and_step x (x - 1),
  ap (λ (t : ℕ). bit_and (x / 2) t) {x = (x - 1) / 2} {y = x / 2} (omega arith),
  bit_and_self (x / 2) (x / 2) (lt-two-pow (x / 2)),
)

clear_lowest :
    (k x : ℕ)
    → x < 2 ^ k
    → 0 < x
    → (bit_and x (x - 1) < x) × (ones k (bit_and x (x - 1)) + 1 ≡ ones k x)
unfolding ones
clear_lowest zero x h p = absurd (omega arith)
clear_lowest (suc k) x h p = elim (eq-or-ne (x % 2) 0) [
  | inl even ↦
      let (less, fewer) = clear_lowest k (x / 2) (omega (arith, pow-suc 2 k)) (omega arith) in
      let e = clear_even x even p in
      let e' : bit_and x (x - 1) / 2 ≡ bit_and (x / 2) (x / 2 - 1) = omega arith in
      (omega arith, omega (arith, ap (λ (t : ℕ). ones k t) e'))
  | inr odd ↦
      let e = clear_odd x (ground arith) in
      let e' : bit_and x (x - 1) / 2 ≡ x / 2 = omega arith in
      let d : x % 2 ≡ 1 = ground arith in (omega arith, omega (arith, ap (λ (t : ℕ). ones k t) e'))
]

popcnt_loop-ones :
    (k fuel x count : ℕ) → x < 2 ^ k → ones k x ≤ fuel → popcnt_loop fuel x count ≡ count + ones k x
unfolding popcnt_loop
popcnt_loop-ones k zero x count h g = omega arith
popcnt_loop-ones k (suc fuel) x count h g = elim (eq-or-ne x 0) [
  | inl e ↦ rw (e, popcnt_loop) (omega (arith, ones-zero k))
  | inr ne ↦
      let (less, fewer) = clear_lowest k x h (ground arith) in
      rw (ne, popcnt_loop)
        (omega (
          arith,
          popcnt_loop-ones k fuel (bit_and x (x - 1)) (count + 1) (omega arith) (omega arith),
        ))
]

-- `popcnt` returns the number of ones among the 64 digits of a uint64_t.
pub popcnt_lem : (x : ℕ) → x < 2 ^ 64 → popcnt x ≡ ones 64 x
unfolding popcnt
popcnt_lem x h = popcnt_loop-ones 64 64 x 0 h (ones-le 64 x) ∙ from_zero (ones 64 x)
  where
    from_zero : (n : ℕ) → 0 + n ≡ n
    from_zero n = omega arith

pub record IsNarrowed (x0 bound : ℕ) (u : ℕ × ℕ) : Type 0 where
  pub shifted : u.0 ≡ x0 / 2 ^ u.1
  pub nonzero : 0 < u.0
  pub bounded : u.0 < bound

masked : (s x : ℕ) → x < 2 ^ s * 2 ^ s → bit_and x ((2 ^ s - 1) * 2 ^ s) ≡ x / 2 ^ s * 2 ^ s
masked s x h = rw (bit_and_shifted, bit_and_mask) (ap (λ (t : ℕ). t * 2 ^ s) (mod-eq_of_lt below))
  where
    below : x / 2 ^ s < 2 ^ s
    below = (div-lt_iff_lt-mul (two-pow-pos s)).1 h

-- One round of the search for the highest one halves the number of digits that are left.
narrow-IsNarrowed :
    (s x0 x c : ℕ)
    → IsNarrowed x0 (2 ^ s * 2 ^ s) (x, c)
    → IsNarrowed x0 (2 ^ s) (narrow ((2 ^ s - 1) * 2 ^ s) s (x, c))
unfolding narrow
narrow-IsNarrowed s x0 x c v = elim (eq-or-ne (bit_and x ((2 ^ s - 1) * 2 ^ s)) 0) [
  | inl z ↦ ground (
    arith,
    z,
    masked s x v.bounded,
    two-pow-pos s,
    (div-lt_iff_lt-mul {x = x} {y = 1} (two-pow-pos s)).0 (quotient_zero z),
  )
  | inr nz ↦ rw nz (record {
    shifted =
        ap (λ (t : ℕ). t / 2 ^ s) v.shifted
        ∙ div-div-eq-div-mul x0 (2 ^ c) (2 ^ s)
        ∙ ap (λ (t : ℕ). x0 / t) (sym (two-pow-add c s));
    nonzero = quotient_pos nz;
    bounded = (div-lt_iff_lt-mul (two-pow-pos s)).1 v.bounded;
  })
]
  where
    quotient_zero : bit_and x ((2 ^ s - 1) * 2 ^ s) ≡ 0 → x / 2 ^ s < 1
    quotient_zero z = grind (arith, masked s x v.bounded, two-pow-pos s)

    quotient_pos : (bit_and x ((2 ^ s - 1) * 2 ^ s) == 0) ≡ false → 0 < x / 2 ^ s
    quotient_pos nz = grind (arith, masked s x v.bounded, two-pow-pos s)

-- The position of the highest one: `2 ^ c ≤ x < 2 ^ (c + 1)`.
abbrev pub IsHighestOne : ℕ → ℕ → Type 0
IsHighestOne x c = (2 ^ c ≤ x) × (x < 2 * 2 ^ c)

IsHighestOne-of_shift : (x c : ℕ) → x / 2 ^ c ≡ 1 → IsHighestOne x c
IsHighestOne-of_shift x c e = (
  grind (arith, two-pow-pos c, div-mul-le_self x (2 ^ c)),
  (div-lt_iff_lt-mul {x = x} {y = 2} (two-pow-pos c)).0 (omega arith),
)

shift_once : (x0 c x : ℕ) → x ≡ x0 / 2 ^ c → x0 / 2 ^ (c + 1) ≡ x / 2
shift_once x0 c x e =
    ap (λ (t : ℕ). x0 / t) (two-pow-add c 1)
    ∙ sym (div-div-eq-div-mul x0 (2 ^ c) 2)
    ∙ ap (λ (t : ℕ). t / 2) (sym e)

last_round :
    (x0 x c : ℕ) → IsNarrowed x0 4 (x, c) → IsHighestOne x0 (if bit_and x 2 == 0 then c else c + 1)
last_round x0 zero c v = absurd (omega arith)
last_round x0 (suc zero) c v = IsHighestOne-of_shift x0 c (sym v.shifted)
last_round x0 (suc (suc zero)) c v = IsHighestOne-of_shift x0 (c + 1) (shift_once x0 c 2 v.shifted)
last_round x0 (suc (suc (suc zero))) c v =
    IsHighestOne-of_shift x0 (c + 1) (shift_once x0 c 3 v.shifted)
last_round x0 (suc (suc (suc (suc x)))) c v = absurd (omega arith)

-- `highest_one` returns the position of the highest one of a uint64_t that is not zero.
highest_one_lem : (x : ℕ) → 0 < x → x < 2 ^ 64 → IsHighestOne x (highest_one x)
unfolding highest_one
highest_one_lem x p h =
    let v0 : IsNarrowed x (2 ^ 32 * 2 ^ 32) (x, 0) = omega arith in
    let v1 = narrow-IsNarrowed 32 x x 0 v0 in
    let v2 = narrow-IsNarrowed 16 x _ _ v1 in
    let v3 = narrow-IsNarrowed 8 x _ _ v2 in
    let v4 = narrow-IsNarrowed 4 x _ _ v3 in
    let v5 = narrow-IsNarrowed 2 x _ _ v4 in last_round x _ _ v5

bit_or-one : (x : ℕ) → bit_or x 1 ≡ x / 2 * 2 + 1
bit_or-one x = omega (arith, bit_or_step x 1, bit_or-zero (x / 2) (x / 2) (lt-two-pow (x / 2)))

exponent-lt : (n k : ℕ) → 2 ^ k < 2 ^ n → k < n
exponent-lt n k h = elim (le-or-gt n k) [
  | inl le ↦ absurd (omega (arith, two-pow_mono n k le))
  | inr lt ↦ lt
]

u64_two-pow : (k : ℕ) → k < 64 → u64 (1 <<< k) ≡ 2 ^ k
u64_two-pow k h =
    mod-eq_of_lt {n = 1 * 2 ^ k} {m = 2 ^ 64}
      (omega (arith, pow-suc 2 k, two-pow_mono (suc k) 64 h, two-pow-pos k))
    ∙ one-mul (2 ^ k)

pow-le-even : (k x : ℕ) → 2 ^ k ≤ x / 2 * 2 + 1 → 2 ^ k ≤ max x 1
pow-le-even zero x h = omega arith
pow-le-even (suc k) x h = omega (arith, pow-suc 2 k)

-- `round_down_to_power_of_2` returns the largest power of two that is at most `x`, for a uint64_t
-- `x` that is not 0, and 1 for 0.
pub round_down_lem :
    (x : ℕ)
    → x < 2 ^ 64
    → (k : ℕ) × (k < 64)
      × (round_down_to_power_of_2 x ≡ 2 ^ k)
      × (2 ^ k ≤ max x 1)
      × (x < 2 * 2 ^ k)
unfolding round_down_to_power_of_2
round_down_lem x h =
    let y = bit_or x 1 in
    let k = highest_one (bit_or x 1) in
    let e = bit_or-one x in
    let (lo, hi) = highest_one_lem (bit_or x 1) (omega arith) (omega arith) in
    let small = exponent-lt 64 k (omega arith) in
    (k, small, u64_two-pow k small, pow-le-even k x (omega arith), omega arith)
