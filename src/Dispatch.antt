-- ===== src/Dispatch.antt =====
-- c/blake3_dispatch.c as it is built for amd64 with every SIMD back end: the features are found once
-- and kept, and every operation is passed on to the widest back end that the features allow. What
-- the instructions cpuid and xgetbv return and the code of the SIMD back ends are parameters.
pub mod Features
mod Lawful
pub mod Vectors
mod Tests
use blake.Base.{
  ℕ, zero, suc, ◌+◌, ◌*◌, bit_and, bit_or, List, [], ◌++◌, Bool, true, false, not, ◌&&◌, leb, ◌==◌,
  if◌then◌else◌, u64,
}
use blake.Backend.{Backend}
use blake.Portable.{compress_in_place, compress_xof, hash_many}

-- `enum cpu_feature`
abbrev pub sse2 : ℕ
sse2 = 1

abbrev pub ssse3 : ℕ
ssse3 = 2

abbrev pub sse41 : ℕ
sse41 = 4

abbrev pub avx : ℕ
avx = 8

abbrev pub avx2 : ℕ
avx2 = 16

abbrev pub avx512f : ℕ
avx512f = 32

abbrev pub avx512vl : ℕ
avx512vl = 64

abbrev pub undefined : ℕ
undefined = 1073741824

-- What cpuid and xgetbv return.
pub record Registers : Type 0 where
  pub max_id : ℕ
  pub ecx_1 : ℕ
  pub ebx_7 : ℕ
  pub mask : ℕ

-- `features & feature`, and `*ecx & (1UL << n)`
abbrev pub has : ℕ → ℕ → Bool
has features feature = not (bit_and features feature == 0)

-- `if (test) features |= feature`
abbrev pub add_if : Bool → ℕ → ℕ → ℕ
add_if test feature features = if test then bit_or features feature else features

-- The features of leaf 7.
unfoldable pub detect_leaf_7 : Registers → ℕ → ℕ
detect_leaf_7 regs features =
    let with_avx2 = add_if (has regs.ebx_7 32) avx2 features in
    if bit_and regs.mask 224 == 224
    then add_if (has regs.ebx_7 65536) avx512f
        (add_if (has regs.ebx_7 2147483648) avx512vl with_avx2)
    else with_avx2

unfoldable pub detect_avx : Registers → ℕ → ℕ
unfolding detect_leaf_7
detect_avx regs features =
    let with_avx = add_if (has regs.ecx_1 268435456) avx features in
    if leb 7 regs.max_id then detect_leaf_7 regs with_avx else with_avx

-- The detection: SSE2 is there on amd64.
unfoldable pub detect : Registers → ℕ
unfolding detect_avx
detect regs =
    let features = add_if (has regs.ecx_1 524288) sse41 (add_if (has regs.ecx_1 512) ssse3 sse2) in
    if has regs.ecx_1 134217728 && (bit_and regs.mask 6 == 6)
    then detect_avx regs features
    else features

-- The features, and what is left in `g_cpu_features`.
unfoldable pub get_cpu_features : Registers → ℕ → ℕ × ℕ
unfolding detect
get_cpu_features regs g_cpu_features =
    if g_cpu_features == undefined
    then (detect regs, detect regs)
    else (g_cpu_features, g_cpu_features)

abbrev pub Compress : Type 0
Compress = List ℕ → List ℕ → ℕ → ℕ → ℕ → List ℕ

abbrev pub HashMany : Type 0
HashMany = List (List ℕ) → ℕ → List ℕ → ℕ → Bool → ℕ → ℕ → ℕ → List (List ℕ)

-- The functions of the SIMD back ends.
pub record Simd : Type 0 where
  pub compress_in_place_avx512 : Compress
  pub compress_in_place_sse41 : Compress
  pub compress_in_place_sse2 : Compress
  pub compress_xof_avx512 : Compress
  pub compress_xof_sse41 : Compress
  pub compress_xof_sse2 : Compress
  pub xof_many_avx512 : List ℕ → List ℕ → ℕ → ℕ → ℕ → ℕ → List ℕ
  pub hash_many_avx512 : HashMany
  pub hash_many_avx2 : HashMany
  pub hash_many_sse41 : HashMany
  pub hash_many_sse2 : HashMany

-- `(features & (AVX512F|AVX512VL)) == (AVX512F|AVX512VL)`
abbrev pub has_avx512 : ℕ → Bool
has_avx512 features = bit_and features 96 == 96

-- `blake3_simd_degree`
unfoldable pub simd_degree : ℕ → ℕ
simd_degree features =
    if has_avx512 features
    then 16
    else if has features avx2
    then 8
    else if has features sse41
    then 4
    else if has features sse2
    then 4
    else 1

-- `for(size_t i = 0; i < outblocks; ++i)`, with the rounds that are left.
unfoldable pub xof_loop : Compress → List ℕ → List ℕ → ℕ → ℕ → ℕ → ℕ → List ℕ
xof_loop compress cv block block_len counter flags zero = []
xof_loop compress cv block block_len counter flags (suc n) =
    compress cv block block_len (u64 counter) flags
    ++ xof_loop compress cv block block_len (counter + 1) flags n

module _ (k : Simd) (features : ℕ) where
  unfoldable pub dispatch_in_place : Compress
  dispatch_in_place cv block block_len counter flags =
      if has features avx512vl
      then k.compress_in_place_avx512 cv block block_len counter flags
      else if has features sse41
      then k.compress_in_place_sse41 cv block block_len counter flags
      else if has features sse2
      then k.compress_in_place_sse2 cv block block_len counter flags
      else compress_in_place cv block block_len counter flags

  unfoldable pub dispatch_xof : Compress
  dispatch_xof cv block block_len counter flags =
      if has features avx512vl
      then k.compress_xof_avx512 cv block block_len counter flags
      else if has features sse41
      then k.compress_xof_sse41 cv block block_len counter flags
      else if has features sse2
      then k.compress_xof_sse2 cv block block_len counter flags
      else compress_xof cv block block_len counter flags

  unfoldable pub dispatch_xof_many : List ℕ → List ℕ → ℕ → ℕ → ℕ → ℕ → List ℕ
  unfolding xof_loop dispatch_xof
  dispatch_xof_many cv block block_len counter flags outblocks =
      if outblocks == 0
      then []
      else if has features avx512vl
      then k.xof_many_avx512 cv block block_len counter flags outblocks
      else xof_loop dispatch_xof cv block block_len counter flags outblocks

  unfoldable pub dispatch_hash_many : HashMany
  dispatch_hash_many inputs blocks key counter increment_counter flags flags_start flags_end =
      if has_avx512 features
      then k.hash_many_avx512 inputs blocks key counter increment_counter flags flags_start
          flags_end
      else if has features avx2
      then k.hash_many_avx2 inputs blocks key counter increment_counter flags flags_start flags_end
      else if has features sse41
      then k.hash_many_sse41 inputs blocks key counter increment_counter flags flags_start flags_end
      else if has features sse2
      then k.hash_many_sse2 inputs blocks key counter increment_counter flags flags_start flags_end
      else hash_many inputs blocks key counter increment_counter flags flags_start flags_end

  -- The operations that c/blake3.c calls.
  unfoldable pub dispatched : Backend
  unfolding dispatch_in_place dispatch_xof dispatch_xof_many dispatch_hash_many
  dispatched = record {
    compress_in_place = dispatch_in_place;
    compress_xof = dispatch_xof;
    xof_many = dispatch_xof_many;
    hash_many = dispatch_hash_many;
    simd_degree = simd_degree features;
  }
