-- ===== src/Sse/Tests.antt =====
-- The equivalences applied to inputs, on the vectors of Sse/Machine.
use blake.Base.{ℕ, ◌≡◌, refl, arith, List, [], ◌∷◌, true, All, IsWord, replicate}
use blake.Impl.{iv}
use blake.Portable
use blake.Sse.Machine.{machine, machine-Documented}
use blake.Sse.Sse41
use blake.Sse.Sse2
use blake.Sse.Agrees.{sse41_compress, sse2_compress, sse41_hash_many, sse2_hash_many}

iv-IsWord : All IsWord iv
iv-IsWord = omega arith

sse41_compress_example :
    (Sse41.compress_in_place machine iv (replicate 64 7) 64 5 11
      ≡ Portable.compress_in_place iv (replicate 64 7) 64 5 11)
    × (Sse41.compress_xof machine iv (replicate 64 7) 64 5 11
        ≡ Portable.compress_xof iv (replicate 64 7) 64 5 11)
sse41_compress_example =
    sse41_compress machine machine-Documented iv (replicate 64 7) 64 5 11 iv-IsWord

sse2_compress_example :
    (Sse2.compress_in_place machine iv (replicate 64 7) 64 5 11
      ≡ Portable.compress_in_place iv (replicate 64 7) 64 5 11)
    × (Sse2.compress_xof machine iv (replicate 64 7) 64 5 11
        ≡ Portable.compress_xof iv (replicate 64 7) 64 5 11)
sse2_compress_example =
    sse2_compress machine machine-Documented iv (replicate 64 7) 64 5 11 iv-IsWord

-- Four inputs at a time and one alone, with a carry between the words of the counter.
abbrev inputs : List (List ℕ)
inputs = replicate 64 1 ∷ replicate 64 2 ∷ replicate 64 3 ∷ replicate 64 4 ∷ replicate 64 5 ∷ []

sse41_hash_many_example :
    Sse41.hash_many machine inputs 1 iv 4294967295 true 0 1 2
    ≡ Portable.hash_many inputs 1 iv 4294967295 true 0 1 2
sse41_hash_many_example =
    sse41_hash_many machine machine-Documented inputs 1 iv 4294967295 true 0 1 2 iv-IsWord refl

sse2_hash_many_example :
    Sse2.hash_many machine inputs 1 iv 4294967295 true 0 1 2
    ≡ Portable.hash_many inputs 1 iv 4294967295 true 0 1 2
sse2_hash_many_example =
    sse2_hash_many machine machine-Documented inputs 1 iv 4294967295 true 0 1 2 iv-IsWord refl
