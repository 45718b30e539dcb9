-- ===== src/Cf140/Arrays.antt =====
-- What the operations on byte arrays compute.
use blake.Base.{
  ℕ, zero, suc, ◌+◌, ◌≤◌, ◌<◌, bit_or, bit_xor, ◌≡◌, refl, sym, ap, ap₂, ◌∙◌, ◌↔◌, arith, List, [],
  ◌∷◌, ◌++◌,
}
use blake.Base.{length, take, drop, All, IsByte, take_all, take-add, length-drop}
use blake.Base.Bits.{bit_or-lt, bit_xor-lt, bit_xor_self_inverse}
use blake.Base.Digits.{bit_or_eq_zero, bit_xor_self, bit_xor_eq_zero}
use blake.Impl.{at}
use blake.Cf140.{xor16, xor32_bytes, xor64_bytes, diff16, diff32}

-- The bytes from index `i` on, as many as asked for.
from : ℕ → ℕ → List ℕ → List ℕ
from zero i l = []
from (suc n) i l = at l i ∷ from n (i + 1) l

drop-at : (i : ℕ) (l : List ℕ) → i < length l → at l i ∷ drop (i + 1) l ≡ drop i l
drop-at i [] h = absurd (omega arith)
drop-at zero (x ∷ l) h = refl
drop-at (suc i) (x ∷ l) h =
    ap (λ k. at l i ∷ drop k (x ∷ l)) {x = suc i + 1} {y = suc (i + 1)} (omega arith)
    ∙ drop-at i l (omega arith)

from-take : (n i : ℕ) (l : List ℕ) → i + n ≤ length l → from n i l ≡ take n (drop i l)
unfolding from
from-take zero i l h = refl
from-take (suc n) i l h =
    ap (λ t. at l i ∷ t) (from-take n (i + 1) l (omega arith))
    ∙ ap (take (suc n)) (drop-at i l (omega arith))

at-IsByte : (l : List ℕ) (i : ℕ) → All IsByte l → IsByte (at l i)
at-IsByte [] i h = omega arith
at-IsByte (x ∷ l) zero h = h.0
at-IsByte (x ∷ l) (suc i) h = at-IsByte l i h.1

drop-All : (n : ℕ) (l : List ℕ) → All IsByte l → All IsByte (drop n l)
drop-All zero l h = h
drop-All (suc n) [] h = h
drop-All (suc n) (x ∷ l) h = drop-All n l h.1

module _ (left right : List ℕ) (hl : All IsByte left) (hr : All IsByte right) where
  undo : ℕ → ℕ → List ℕ
  undo zero i = []
  undo (suc n) i = bit_xor (bit_xor (at left i) (at right i)) (at right i) ∷ undo n (i + 1)

  undo_lem : (n i : ℕ) → undo n i ≡ from n i left
  unfolding undo from
  undo_lem zero i = refl
  undo_lem (suc n) i =
      ap₂ ◌∷◌
        (bit_xor_self_inverse 8 (at left i) (at right i) (at-IsByte left i hl)
          (at-IsByte right i hr))
        (undo_lem n (i + 1))

  xor16-twice : 16 ≤ length left → xor16 (xor16 left right) right ≡ take 16 left
  unfolding xor16 undo
  xor16-twice h = undo_lem 16 0 ∙ from-take 16 0 left (omega arith)

  or_all : ℕ → ℕ → ℕ → ℕ
  or_all zero i acc = acc
  or_all (suc n) i acc = or_all n (i + 1) (bit_or acc (bit_xor (at left i) (at right i)))

  IsByte-diff : (i : ℕ) → IsByte (bit_xor (at left i) (at right i))
  IsByte-diff i = bit_xor-lt 8 (at left i) (at right i) (at-IsByte left i hl) (at-IsByte right i hr)

  or_all-IsByte : (n i acc : ℕ) → IsByte acc → IsByte (or_all n i acc)
  unfolding or_all
  or_all-IsByte zero i acc h = h
  or_all-IsByte (suc n) i acc h = or_all-IsByte n (i + 1) _ (bit_or-lt 8 acc _ h (IsByte-diff i))

  or_all_eq_zero :
      (n i acc : ℕ) → IsByte acc → or_all n i acc ≡ 0 → (acc ≡ 0) × (from n i left ≡ from n i right)
  unfolding or_all from
  or_all_eq_zero zero i acc h e = (e, refl)
  or_all_eq_zero (suc n) i acc h e =
      let x = bit_xor (at left i) (at right i) in
      let (d, rest) =
        or_all_eq_zero n (i + 1) (bit_or acc x) (bit_or-lt 8 acc x h (IsByte-diff i)) e in
      let (z, same) = bit_or_eq_zero 8 acc x h (IsByte-diff i) d in
      (
        z,
        ap₂ ◌∷◌
            (bit_xor_eq_zero 8 (at left i) (at right i) (at-IsByte left i hl) (at-IsByte right i hr)
              same)
            rest,
      )

  -- The first sixteen bytes are the same when the or of their differences is 0.
  diff16_lem :
      16 ≤ length left → 16 ≤ length right → diff16 left right ≡ 0 → take 16 left ≡ take 16 right
  unfolding diff16 or_all from
  diff16_lem h g e =
      let (z, rest) = or_all_eq_zero 15 1 (bit_xor (at left 0) (at right 0)) (IsByte-diff 0) e in
      let first =
        bit_xor_eq_zero 8 (at left 0) (at right 0) (at-IsByte left 0 hl) (at-IsByte right 0 hr) z in
      sym (from-take 16 0 left (omega arith))
      ∙ ap₂ ◌∷◌ first rest
      ∙ from-take 16 0 right (omega arith)

  diff16-IsByte : IsByte (diff16 left right)
  unfolding diff16 or_all
  diff16-IsByte = or_all-IsByte 15 1 (bit_xor (at left 0) (at right 0)) (IsByte-diff 0)

-- The or of the differences of equal bytes.
or_all-same :
    (l : List ℕ) (hl : All IsByte l) (n i acc : ℕ) → acc ≡ 0 → or_all l l hl hl n i acc ≡ 0
unfolding or_all
or_all-same l hl zero i acc e = e
or_all-same l hl (suc n) i acc e =
    or_all-same l hl n (i + 1) _ (ap₂ bit_or e (bit_xor_self 8 (at l i) (at-IsByte l i hl)))

diff16-same : (l : List ℕ) → All IsByte l → diff16 l l ≡ 0
unfolding diff16 or_all
diff16-same l hl = or_all-same l hl 15 1 _ (bit_xor_self 8 (at l 0) (at-IsByte l 0 hl))

-- Of two arrays of 32 bytes, `rmr_cf_diff32` is 0 just when they are the same.
pub diff32_iff :
    (left right : List ℕ)
    → All IsByte left
    → All IsByte right
    → length left ≡ 32
    → length right ≡ 32
    → (diff32 left right ≡ 0) ↔ (left ≡ right)
unfolding diff32
diff32_iff left right hl hr e f =
    let hl' = drop-All 16 left hl in
    let hr' = drop-All 16 right hr in
    let sl = length-drop 16 left in
    let sr = length-drop 16 right in
    (
      λ d.
          let (p, q) =
            bit_or_eq_zero 8 (diff16 left right) (diff16 (drop 16 left) (drop 16 right))
              (diff16-IsByte left right hl hr)
              (diff16-IsByte (drop 16 left) (drop 16 right) hl' hr') d in
          let halves =
            ap₂ ◌++◌ (diff16_lem left right hl hr (omega arith) (omega arith) p)
              (diff16_lem (drop 16 left) (drop 16 right) hl' hr' (omega arith) (omega arith) q) in
          sym (take_all 32 left (omega arith))
          ∙ take-add 16 16 left
          ∙ halves
          ∙ sym (take-add 16 16 right)
          ∙ take_all 32 right (omega arith),
      λ same.
          ap (diff32 left) (sym same)
          ∙ ap₂ bit_or (diff16-same left hl) (diff16-same (drop 16 left) hl'),
    )

xor32-twice :
    (left right : List ℕ)
    → All IsByte left
    → All IsByte right
    → 32 ≤ length left
    → xor32_bytes (xor32_bytes left right) right ≡ take 32 left
unfolding xor32_bytes xor16
xor32-twice left right hl hr h =
    ap₂ ◌++◌ (xor16-twice left right hl hr (omega arith)) (
      xor16-twice (drop 16 left) (drop 16 right) (drop-All 16 left hl) (drop-All 16 right hr)
        (omega (arith, length-drop 16 left)))
    ∙ sym (take-add 16 16 left)

-- Of 64 bytes, `rmr_cf_xor64_bytes` with the same bytes twice gives them back.
xor64_bytes-twice :
    (left right : List ℕ)
    → All IsByte left
    → All IsByte right
    → length left ≡ 64
    → xor64_bytes (xor64_bytes left right) right ≡ left
unfolding xor64_bytes xor32_bytes xor16
xor64_bytes-twice left right hl hr e =
    ap₂ ◌++◌ (xor32-twice left right hl hr (omega arith)) (
      xor32-twice (drop 32 left) (drop 32 right) (drop-All 32 left hl) (drop-All 32 right hr)
        (omega (arith, length-drop 32 left)))
    ∙ sym (take-add 32 32 left)
    ∙ take_all 64 left (omega arith)
