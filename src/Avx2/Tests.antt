-- ===== src/Avx2/Tests.antt =====
-- The equivalence applied to inputs, on the vectors of Avx2/Machine.
use blake.Base.{ℕ, ◌≡◌, refl, arith, List, ◌++◌, true, All, IsWord, replicate}
use blake.Impl.{iv}
use blake.Portable
use blake.Sse.Machine.{machine, machine-Documented}
use blake.Avx2.{hash_many}
use blake.Avx2.Agrees.{avx2_hash_many}
use blake.Avx2.Machine.{doubled, doubled-Documented}

iv-IsWord : All IsWord iv
iv-IsWord = omega arith

-- Eight inputs at a time, four at a time and one alone, with a carry between the words of the
-- counter.
abbrev inputs : List (List ℕ)
inputs =
    replicate 8 (replicate 64 1) ++ replicate 4 (replicate 64 2) ++ replicate 1 (replicate 64 3)

avx2_hash_many_example :
    hash_many (doubled machine machine-Documented) machine inputs 1 iv 4294967295 true 0 1 2
    ≡ Portable.hash_many inputs 1 iv 4294967295 true 0 1 2
avx2_hash_many_example =
    avx2_hash_many (doubled machine machine-Documented)
      (doubled-Documented machine machine-Documented) iv iv-IsWord refl machine machine-Documented 1
      true 0 1 2 inputs 4294967295
