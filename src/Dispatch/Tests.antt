-- ===== src/Dispatch/Tests.antt =====
-- The theorems on the dispatch applied to back ends.
use blake.Base.{◌+◌, ◌≡◌, refl, ap, arith, max, suc, true, replicate}
use blake.Backend.Lawful.{IsLawful}
use blake.Backend.OnWords.{on_words, on_lanes}
use blake.Backend.Portable.{xof_many_loop}
use blake.Portable.{compress_in_place, compress_xof, hash_many}
use blake.Dispatch.{
  dispatch_in_place, dispatch_xof, dispatch_hash_many, Registers, Simd, dispatched, detect,
  simd_degree,
}
use blake.Impl.{iv}
use blake.Sse.Machine.{machine, machine-Documented}
use blake.Avx2.Machine.{doubled, doubled-Documented}
use blake.Dispatch.Vectors.{
  IsPortableOnWords, with_vectors, dispatch_compress, dispatch_hash_many_lem,
}
use blake.Dispatch.Lawful.{IsPortableBatch, dispatched-IsLawful}

-- Back ends whose batch of output blocks gives one block at least.
abbrev eager : Simd
eager = record {
  compress_in_place_avx512 = compress_in_place;
  compress_in_place_sse41 = compress_in_place;
  compress_in_place_sse2 = compress_in_place;
  compress_xof_avx512 = compress_xof;
  compress_xof_sse41 = compress_xof;
  compress_xof_sse2 = compress_xof;
  xof_many_avx512 =
      λ cv block len counter flags n. xof_many_loop cv block len counter flags (max n 1);
  hash_many_avx512 = hash_many;
  hash_many_avx2 = hash_many;
  hash_many_sse41 = hash_many;
  hash_many_sse2 = hash_many;
}

-- A processor with AVX2 and no AVX-512, and none of it later.
abbrev wide : Registers
wide = record { max_id = 13; ecx_1 = 402653184 + 524288 + 512; ebx_7 = 32; mask = 7 }

abbrev narrow : Registers
narrow = record { max_id = 1; ecx_1 = 0; ebx_7 = 0; mask = 0 }

wide_degree : simd_degree (detect wide) ≡ 8
unfolding detect simd_degree
wide_degree = refl

eager-IsPortableOnWords : IsPortableOnWords eager
eager-IsPortableOnWords = record {
  in_place = λ cv block len counter flags w. refl;
  xof = λ cv block len counter flags w. refl;
  many = λ inputs blocks key counter increment flags flags_start flags_end w e. refl;
}

-- The code for all three vector extensions, on a processor that has AVX2.
abbrev behind : Simd
behind = with_vectors machine (doubled machine machine-Documented) eager

dispatch_compress_example :
    (dispatch_in_place behind 31 iv (replicate 64 7) 64 5 11
      ≡ compress_in_place iv (replicate 64 7) 64 5 11)
    × (dispatch_xof behind 31 iv (replicate 64 7) 64 5 11
        ≡ compress_xof iv (replicate 64 7) 64 5 11)
dispatch_compress_example =
    dispatch_compress machine machine-Documented (doubled machine machine-Documented)
      (doubled-Documented machine machine-Documented) eager eager-IsPortableOnWords 31 iv
      (replicate 64 7) 64 5 11 (omega arith)

dispatch_hash_many_example :
    dispatch_hash_many behind 31 (replicate 9 (replicate 64 1)) 1 iv 4294967295 true 0 1 2
    ≡ hash_many (replicate 9 (replicate 64 1)) 1 iv 4294967295 true 0 1 2
dispatch_hash_many_example =
    dispatch_hash_many_lem machine machine-Documented (doubled machine machine-Documented)
      (doubled-Documented machine machine-Documented) eager eager-IsPortableOnWords 31
      (replicate 9 (replicate 64 1)) 1 iv 4294967295 true 0 1 2 (omega arith) refl

eager-IsPortableBatch : IsPortableBatch eager
eager-IsPortableBatch cv block len counter flags n w =
    ap (xof_many_loop cv block len counter flags) {x = max (suc n) 1} {y = suc n} (omega arith)

dispatched-IsLawful_example :
    (on_words (dispatched behind 31) ≡ on_lanes (simd_degree 31))
    × IsLawful (on_words (dispatched behind 31))
dispatched-IsLawful_example =
    dispatched-IsLawful machine machine-Documented (doubled machine machine-Documented)
      (doubled-Documented machine machine-Documented) eager eager-IsPortableOnWords
      eager-IsPortableBatch 31
