-- ===== src/Dispatch/Features.antt =====
-- The detection of the features is made once.
use blake.Base.{ℕ, ◌^◌, ◌<◌, ◌≡◌, refl, arith, Bool, ◌&&◌, leb, false, ◌==◌, if_either, bit_and}
use blake.Base.Bits.{bit_or-lt}
use blake.Dispatch.{
  Registers, undefined, has, add_if, detect_leaf_7, detect_avx, detect, get_cpu_features, sse2,
  ssse3, sse41, avx, avx2, avx512f, avx512vl,
}

add_if-lt :
    (test : Bool) (feature features : ℕ)
    → feature < 2 ^ 7
    → features < 2 ^ 7
    → add_if test feature features < 2 ^ 7
add_if-lt test feature features h g =
    if_either (λ f. f < 2 ^ 7) test (λ e. bit_or-lt 7 features feature g h) (λ e. g)

detect-lt : (regs : Registers) → detect regs < 2 ^ 7
unfolding detect detect_avx detect_leaf_7
detect-lt regs =
    let base =
      add_if-lt (has regs.ecx_1 524288) sse41 _ (omega arith)
        (add_if-lt (has regs.ecx_1 512) ssse3 sse2 (omega arith) (omega arith)) in
    let with_avx = add_if-lt (has regs.ecx_1 268435456) avx _ (omega arith) base in
    let with_avx2 = add_if-lt (has regs.ebx_7 32) avx2 _ (omega arith) with_avx in
    if_either (λ f. f < 2 ^ 7) (has regs.ecx_1 134217728 && (bit_and regs.mask 6 == 6))
      (λ e.
        if_either (λ f. f < 2 ^ 7) (leb 7 regs.max_id)
          (λ e.
            if_either (λ f. f < 2 ^ 7) (bit_and regs.mask 224 == 224)
              (λ e.
                add_if-lt (has regs.ebx_7 65536) avx512f _ (omega arith)
                  (add_if-lt (has regs.ebx_7 2147483648) avx512vl _ (omega arith) with_avx2))
              (λ e. with_avx2))
          (λ e. with_avx))
      (λ e. base)

-- After the first call of `get_cpu_features`, which detects the features, every call returns them
-- again and leaves them stored, whatever the instructions would return then.
get_cpu_features-again :
    (regs later : Registers)
    → get_cpu_features later (get_cpu_features regs undefined).1
      ≡ ((get_cpu_features regs undefined).0, (get_cpu_features regs undefined).1)
unfolding get_cpu_features
get_cpu_features-again regs later =
    let known : (detect regs == undefined) ≡ false =
      known_features (detect regs) (detect-lt regs) in
    rw (known, get_cpu_features) refl
  where
    known_features : (f : ℕ) → f < 2 ^ 7 → (f == undefined) ≡ false
    known_features f h = ground arith
