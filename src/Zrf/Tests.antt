-- ===== src/Zrf/Tests.antt =====
-- The theorems on ZRF1 applied to inputs, and the encoder run.
use blake.Base.{ℕ, ◌≤◌, ◌≡◌, refl, arith, List, [], ◌∷◌, ◌++◌, replicate, length, some}
use blake.Backend.Portable.{portable, portable-IsLawful}
use blake.Zrf.{Code, done, pack, unpack, rle}
use blake.Zrf.RoundTrip.{unpack-pack}
use blake.Zrf.Fits.{unpack-Returns}

-- A run of 200 bytes between literals.
abbrev source : List ℕ
source = 1 ∷ 2 ∷ 2 ∷ (replicate 200 9 ++ (3 ∷ []))

unpack-pack_example :
    (out : List ℕ) × (pack portable source (length source) 300 ≡ some (done, out))
    × (unpack portable out (length out) 204 ≡ some (done, source))
unpack-pack_example =
    unpack-pack portable portable-IsLawful source 300 204 (omega arith) (omega arith) (omega arith)

-- A header for 5 bytes, run-length encoded, with a token that asks for 130 of them.
abbrev hostile : List ℕ
hostile =
    90 ∷ 82 ∷ 70 ∷ 49 ∷ 1 ∷ 1 ∷ 5 ∷ 0 ∷ 0 ∷ 0 ∷ 2 ∷ 0 ∷ 0 ∷ 0 ∷ (replicate 32 0 ++ (255 ∷ 7 ∷ []))

unpack-Returns_example :
    (code : Code) × (out : List ℕ) × (unpack portable hostile (length hostile) 5 ≡ some (code, out))
    × (length out ≤ 5)
unpack-Returns_example = unpack-Returns portable portable-IsLawful hostile 5

rle-source : rle source 204 ≡ 2 ∷ 1 ∷ 2 ∷ 2 ∷ 255 ∷ 9 ∷ 195 ∷ 9 ∷ 0 ∷ 3 ∷ []
unfolding rle
rle-source = refl
