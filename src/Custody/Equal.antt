-- ===== src/Custody/Equal.antt =====
-- The comparison of digests, which looks at all the bytes.
use blake.Base.{ℕ, zero, suc, ◌^◌, bit_or, bit_xor, ◌≡◌, refl, ap, ap₂, ◌∙◌, arith, ◌↔◌, ==_iff}
use blake.Base.{List, [], ◌∷◌, length, All, IsByte, u8, some, true}
use blake.Base.Bits.{bit_or-lt, bit_xor-lt, lt-two-pow}
use blake.Base.Digits.{bit_or_eq_zero, bit_xor_self, bit_xor_eq_zero}
use native.Mathlib.Nat.{mod-eq_of_lt}
use blake.Base.{drop}
use blake.Impl.{at}
use blake.Custody.{digest_diff, digest_equal, digest_len}

module _ (diff x y : ℕ) (hd : IsByte diff) (hx : IsByte x) (hy : IsByte y) where
  narrow : u8 (bit_xor x y) ≡ bit_xor x y
  narrow = mod-eq_of_lt {n = bit_xor x y} {m = 2 ^ 8} (bit_xor-lt 8 x y hx hy)

  next_diff : IsByte (bit_or diff (u8 (bit_xor x y)))
  next_diff = bit_or-lt 8 diff (u8 (bit_xor x y)) hd (omega arith)

  next_diff_eq_zero : bit_or diff (u8 (bit_xor x y)) ≡ 0 → (diff ≡ 0) × (x ≡ y)
  next_diff_eq_zero e =
      let (d, v) = bit_or_eq_zero 8 diff (u8 (bit_xor x y)) hd (omega arith) e in
      (d, bit_xor_eq_zero 8 x y hx hy (omega (arith, narrow)))

  next_diff_same : diff ≡ 0 → x ≡ y → bit_or diff (u8 (bit_xor x y)) ≡ 0
  next_diff_same d e =
      ap₂ bit_or d (narrow ∙ ap (bit_xor x) {x = y} {y = x} (omega arith) ∙ bit_xor_self 8 x hx)

digest_diff_lem :
    (n diff : ℕ) (left right : List ℕ)
    → IsByte diff
    → All IsByte left
    → All IsByte right
    → length left ≡ n
    → length right ≡ n
    → (digest_diff n diff left right ≡ 0) ↔ ((diff ≡ 0) × (left ≡ right))
unfolding digest_diff
digest_diff_lem zero diff [] [] hd hl hr e f = (λ d. (d, refl), λ p. p.0)
digest_diff_lem zero diff (x ∷ left) right hd hl hr e f = absurd (omega arith)
digest_diff_lem zero diff [] (y ∷ right) hd hl hr e f = absurd (omega arith)
digest_diff_lem (suc n) diff [] right hd hl hr e f = absurd (omega arith)
digest_diff_lem (suc n) diff (x ∷ left) [] hd hl hr e f = absurd (omega arith)
digest_diff_lem (suc n) diff (x ∷ left) (y ∷ right) hd hl hr e f =
    let rec =
      digest_diff_lem n (bit_or diff (u8 (bit_xor x y))) left right
        (next_diff diff x y hd hl.0 hr.0) hl.1 hr.1 (omega arith) (omega arith) in
    (
      λ z.
          let (d, same) = rec.0 z in
          let (d', head) = next_diff_eq_zero diff x y hd hl.0 hr.0 d in (d', ap₂ ◌∷◌ head same),
      λ p. rec.1 (next_diff_same diff x y hd hl.0 hr.0 p.0 (ap (λ l. at l 0) p.1), ap (drop 1) p.1),
    )

-- Of two digests of 32 bytes, `rpc_digest_equal` is true just when they are the same.
pub digest_equal_iff :
    (left right : List ℕ)
    → All IsByte left
    → All IsByte right
    → length left ≡ digest_len
    → length right ≡ digest_len
    → (digest_equal (some left) (some right) ≡ true) ↔ (left ≡ right)
unfolding digest_equal
digest_equal_iff left right hl hr e f =
    let all = digest_diff_lem digest_len 0 left right (omega arith) hl hr e f in
    (
      λ t. (all.0 ((==_iff (digest_diff digest_len 0 left right) 0).0 t)).1,
      λ same. (==_iff (digest_diff digest_len 0 left right) 0).1 (all.1 (refl, same)),
    )

digest_diff-same : (n : ℕ) (bytes : List ℕ) → digest_diff n 0 bytes bytes ≡ 0
unfolding digest_diff
digest_diff-same zero bytes = refl
digest_diff-same (suc n) bytes =
    ap (λ diff. digest_diff n (bit_or 0 (u8 diff)) (drop 1 bytes) (drop 1 bytes))
      (bit_xor_self (at bytes 0) (at bytes 0) (lt-two-pow (at bytes 0)))
    ∙ digest_diff-same n (drop 1 bytes)

pub digest_equal-same : (bytes : List ℕ) → digest_equal (some bytes) (some bytes) ≡ true
unfolding digest_equal
digest_equal-same bytes =
    (==_iff (digest_diff digest_len 0 bytes bytes) 0).1 (digest_diff-same digest_len bytes)
