-- ===== src/Cf140/Loads.antt =====
-- Words that are stored and loaded.
use blake.Base.{
  ℕ, ◌+◌, ◌*◌, ◌/◌, ◌%◌, ◌^◌, ◌<◌, bit_or, ◌≡◌, refl, ap, ◌∙◌, arith, u8, u64, ◌<<<◌, ◌>>>◌,
}
use blake.Base.Bits.{bit_or_fields, bit_or_comm}
use native.Mathlib.Nat.{mod-eq_of_lt}
use blake.Cf140.{load64_le, store64_le}

or_next : (k q r : ℕ) → r < 2 ^ k → q * 2 ^ k < 2 ^ 64 → bit_or r (u64 (q <<< k)) ≡ q * 2 ^ k + r
or_next k q r h g =
    ap (bit_or r) (mod-eq_of_lt {n = q * 2 ^ k} {m = 2 ^ 64} g)
    ∙ bit_or_comm r (q * 2 ^ k)
    ∙ bit_or_fields k q r h

-- The word so far and the next byte of `v` make the word so far with one byte more.
next_byte :
    (v k q : ℕ)
    → q ≡ v / 2 ^ k % 2 ^ 8
    → v % 2 ^ k < 2 ^ k
    → q * 2 ^ k < 2 ^ 64
    → q * 2 ^ k + v % 2 ^ k ≡ v % 2 ^ (k + 8)
    → (r : ℕ) → r ≡ v % 2 ^ k
    → bit_or r (u64 (q <<< k)) ≡ v % 2 ^ (k + 8)
next_byte v k q e h g s r f = or_next k q r (omega arith) g ∙ omega arith

-- A word below 2^64 that `rmr_cf_store64_le` stores comes back from `rmr_cf_load64_le`.
load64_le-store64_le : (v : ℕ) → v < 2 ^ 64 → load64_le (store64_le v) ≡ v
unfolding load64_le store64_le
load64_le-store64_le v h =
    let s1 =
      next_byte v 8 (u8 (v >>> 8)) refl (omega arith) (omega arith) (omega arith) (u8 v) refl in
    let s2 = next_byte v 16 (u8 (v >>> 16)) refl (omega arith) (omega arith) (omega arith) _ s1 in
    let s3 = next_byte v 24 (u8 (v >>> 24)) refl (omega arith) (omega arith) (omega arith) _ s2 in
    let s4 = next_byte v 32 (u8 (v >>> 32)) refl (omega arith) (omega arith) (omega arith) _ s3 in
    let s5 = next_byte v 40 (u8 (v >>> 40)) refl (omega arith) (omega arith) (omega arith) _ s4 in
    let s6 = next_byte v 48 (u8 (v >>> 48)) refl (omega arith) (omega arith) (omega arith) _ s5 in
    let s7 = next_byte v 56 (u8 (v >>> 56)) refl (omega arith) (omega arith) (omega arith) _ s6 in
    s7 ∙ mod-eq_of_lt {n = v} {m = 2 ^ 64} h
