-- ===== src/Cf140.antt =====
-- rmr/crypto_freestanding140/kernel/rmr_cf140_ops.c: loads, stores and operations on byte arrays
-- without loops or branches.
pub mod Arrays
pub mod Loads
mod Tests
use blake.Base.{ℕ, ◌+◌, ◌*◌, bit_or, bit_xor, List, [], ◌∷◌, ◌++◌, drop, u8, u32, u64, ◌<<<◌, ◌>>>◌}
use blake.Impl.{at}

unfoldable pub load32_le : List ℕ → ℕ
load32_le src =
    bit_or (bit_or (bit_or (at src 0) (u32 (at src 1 <<< 8))) (u32 (at src 2 <<< 16)))
      (u32 (at src 3 <<< 24))

unfoldable pub load64_le : List ℕ → ℕ
load64_le src =
    bit_or
      (bit_or
        (bit_or
          (bit_or
            (bit_or (bit_or (bit_or (at src 0) (u64 (at src 1 <<< 8))) (u64 (at src 2 <<< 16)))
              (u64 (at src 3 <<< 24)))
            (u64 (at src 4 <<< 32)))
          (u64 (at src 5 <<< 40)))
        (u64 (at src 6 <<< 48)))
      (u64 (at src 7 <<< 56))

unfoldable pub store32_le : ℕ → List ℕ
store32_le value = u8 value ∷ u8 (value >>> 8) ∷ u8 (value >>> 16) ∷ u8 (value >>> 24) ∷ []

unfoldable pub store64_le : ℕ → List ℕ
store64_le value =
    u8 value
    ∷ u8 (value >>> 8)
    ∷ u8 (value >>> 16)
    ∷ u8 (value >>> 24)
    ∷ u8 (value >>> 32)
    ∷ u8 (value >>> 40)
    ∷ u8 (value >>> 48)
    ∷ u8 (value >>> 56)
    ∷ []

unfoldable pub store32_be : ℕ → List ℕ
store32_be value = u8 (value >>> 24) ∷ u8 (value >>> 16) ∷ u8 (value >>> 8) ∷ u8 value ∷ []

-- The bytes that are written to `dst`.
unfoldable pub xor16 : List ℕ → List ℕ → List ℕ
xor16 left right =
    bit_xor (at left 0) (at right 0)
    ∷ bit_xor (at left 1) (at right 1)
    ∷ bit_xor (at left 2) (at right 2)
    ∷ bit_xor (at left 3) (at right 3)
    ∷ bit_xor (at left 4) (at right 4)
    ∷ bit_xor (at left 5) (at right 5)
    ∷ bit_xor (at left 6) (at right 6)
    ∷ bit_xor (at left 7) (at right 7)
    ∷ bit_xor (at left 8) (at right 8)
    ∷ bit_xor (at left 9) (at right 9)
    ∷ bit_xor (at left 10) (at right 10)
    ∷ bit_xor (at left 11) (at right 11)
    ∷ bit_xor (at left 12) (at right 12)
    ∷ bit_xor (at left 13) (at right 13)
    ∷ bit_xor (at left 14) (at right 14)
    ∷ bit_xor (at left 15) (at right 15)
    ∷ []

unfoldable pub xor32_bytes : List ℕ → List ℕ → List ℕ
unfolding xor16
xor32_bytes left right = xor16 left right ++ xor16 (drop 16 left) (drop 16 right)

unfoldable pub xor64_bytes : List ℕ → List ℕ → List ℕ
unfolding xor32_bytes
xor64_bytes left right = xor32_bytes left right ++ xor32_bytes (drop 32 left) (drop 32 right)

unfoldable pub diff16 : List ℕ → List ℕ → ℕ
diff16 left right =
    bit_or
      (bit_or
        (bit_or
          (bit_or
            (bit_or
              (bit_or
                (bit_or
                  (bit_or
                    (bit_or
                      (bit_or
                        (bit_or
                          (bit_or
                            (bit_or
                              (bit_or
                                (bit_or (bit_xor (at left 0) (at right 0))
                                  (bit_xor (at left 1) (at right 1)))
                                (bit_xor (at left 2) (at right 2)))
                              (bit_xor (at left 3) (at right 3)))
                            (bit_xor (at left 4) (at right 4)))
                          (bit_xor (at left 5) (at right 5)))
                        (bit_xor (at left 6) (at right 6)))
                      (bit_xor (at left 7) (at right 7)))
                    (bit_xor (at left 8) (at right 8)))
                  (bit_xor (at left 9) (at right 9)))
                (bit_xor (at left 10) (at right 10)))
              (bit_xor (at left 11) (at right 11)))
            (bit_xor (at left 12) (at right 12)))
          (bit_xor (at left 13) (at right 13)))
        (bit_xor (at left 14) (at right 14)))
      (bit_xor (at left 15) (at right 15))

unfoldable pub diff32 : List ℕ → List ℕ → ℕ
unfolding diff16
diff32 left right = bit_or (diff16 left right) (diff16 (drop 16 left) (drop 16 right))
