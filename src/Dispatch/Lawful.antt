-- ===== src/Dispatch/Lawful.antt =====
-- The dispatched operations, with the code for SSE2, SSE4.1 and AVX2 behind them, meet the laws that
-- c/blake3.c relies on.
use blake.Base.{
  ℕ, zero, suc, ◌+◌, ◌^◌, ◌≤◌, ◌≡◌, refl, sym, ap, ap₂, ◌∙◌, arith, List, ◌++◌, false, ◌==◌,
  if_either, u64,
}
use mathlib.Core.Path.{subst}
use blake.Backend.Lawful.{IsLawful}
use blake.Backend.OnWords.{eight_words, eight_words-Words, on_words, on_lanes, on_lanes-IsLawful}
use blake.Backend.Portable.{portable, xof_many_loop}
use blake.Portable.{compress_xof}
use blake.Portable.Words.{Words}
use blake.Sse
use blake.Avx2
use blake.Dispatch.Vectors.{
  IsPortableOnWords, with_vectors, choose, dispatch_compress, dispatch_hash_many_lem,
}
use blake.Dispatch.{
  Simd, has, has_avx512, sse2, sse41, avx2, avx512vl, xof_loop, dispatch_xof, dispatch_xof_many,
  simd_degree, dispatched,
}

-- The batch of output blocks for AVX-512, which is called for one block or more only, computes on
-- eight words what the portable one computes.
abbrev pub IsPortableBatch : Simd → Type 0
IsPortableBatch k =
    (cv block : List ℕ) (len counter flags n : ℕ)
    → Words 8 cv
    → k.xof_many_avx512 cv block len counter flags (suc n)
      ≡ xof_many_loop cv block len counter flags (suc n)

degree_cases : (features : ℕ) → (j : ℕ) × (simd_degree features ≡ 2 ^ j) × (j ≤ 4)
unfolding simd_degree
degree_cases features =
    let P = λ (d : ℕ). (j : ℕ) × (d ≡ 2 ^ j) × (j ≤ 4) in
    if_either P (has_avx512 features) (λ e. (4, refl, omega arith))
      (λ e.
        if_either P (has features avx2) (λ e. (3, refl, omega arith))
          (λ e.
            if_either P (has features sse41) (λ e. (2, refl, omega arith))
              (λ e.
                if_either P (has features sse2) (λ e. (2, refl, omega arith))
                  (λ e. (0, refl, omega arith)))))

module _ (s : Sse.Intrinsics) (ds : Sse.Documented s) (a : Avx2.Intrinsics) (da : Avx2.Documented a)
    (k : Simd) (wide : IsPortableOnWords k) (batch : IsPortableBatch k) (features : ℕ) where
  abbrev vectors : Simd
  vectors = with_vectors s a k

  dispatch_xof-compress_xof :
      (cv block : List ℕ) (len counter flags : ℕ)
      → Words 8 cv
      → dispatch_xof vectors features cv block len counter flags
        ≡ compress_xof cv block len counter flags
  dispatch_xof-compress_xof cv block len counter flags w =
      (dispatch_compress s ds a da k wide features cv block len counter flags w.0).1

  xof_loop-xof_many_loop :
      (n : ℕ) (cv block : List ℕ) (len counter flags : ℕ)
      → Words 8 cv
      → xof_loop (dispatch_xof vectors features) cv block len counter flags n
        ≡ xof_many_loop cv block len counter flags n
  unfolding xof_loop xof_many_loop
  xof_loop-xof_many_loop zero cv block len counter flags w = refl
  xof_loop-xof_many_loop (suc n) cv block len counter flags w =
      ap₂ ◌++◌ (dispatch_xof-compress_xof cv block len (u64 counter) flags w)
        (xof_loop-xof_many_loop n cv block len (counter + 1) flags w)

  dispatch_xof_many-xof_many_loop :
      (n : ℕ) (cv block : List ℕ) (len counter flags : ℕ)
      → Words 8 cv
      → dispatch_xof_many vectors features cv block len counter flags n
        ≡ xof_many_loop cv block len counter flags n
  unfolding dispatch_xof_many
  dispatch_xof_many-xof_many_loop zero cv block len counter flags w = unfold xof_many_loop in refl
  dispatch_xof_many-xof_many_loop (suc n) cv block len counter flags w =
      let more : (suc n == 0) ≡ false = ground arith in
      let by_batch : vectors.xof_many_avx512 cv block len counter flags (suc n)
          ≡ xof_many_loop cv block len counter flags (suc n) =
        unfold with_vectors in batch cv block len counter flags n w in
      rw more (
        choose _ (has features avx512vl) by_batch
          (xof_loop-xof_many_loop (suc n) cv block len counter flags w))

  dispatched-on_lanes : on_words (dispatched vectors features) ≡ on_lanes (simd_degree features)
  unfolding dispatched on_words on_lanes portable
  dispatched-on_lanes = λ i. record {
    compress_in_place = λ cv block len counter flags.
        (dispatch_compress s ds a da k wide features (eight_words cv) block len counter flags
            (eight_words-Words cv).0).0
          i;
    compress_xof = λ cv block len counter flags.
        dispatch_xof-compress_xof (eight_words cv) block len counter flags (eight_words-Words cv) i;
    xof_many = λ cv block len counter flags n.
        dispatch_xof_many-xof_many_loop n (eight_words cv) block len counter flags
          (eight_words-Words cv) i;
    hash_many = λ inputs blocks key counter increment flags flags_start flags_end.
        let w = eight_words-Words key in
        dispatch_hash_many_lem s ds a da k wide features inputs blocks (eight_words key) counter
          increment flags flags_start flags_end w.0 w.1 i;
    simd_degree = simd_degree features;
  }

  -- With the code for SSE2, SSE4.1 and AVX2 behind them, instructions that do what their manual
  -- says, and functions for AVX-512 that compute on words what the portable ones compute, the
  -- batch of output blocks on eight words and for one block or more, the dispatched operations,
  -- given their chaining value or key as eight words, are the portable ones in batches of as many
  -- lanes as `blake3_simd_degree` returns, and meet the laws that the hasher relies on, whatever
  -- the features are.
  pub dispatched-IsLawful :
      (on_words (dispatched vectors features) ≡ on_lanes (simd_degree features))
      × IsLawful (on_words (dispatched vectors features))
  dispatched-IsLawful =
      let (j, e, h) = degree_cases features in
      (
        dispatched-on_lanes,
        subst IsLawful (sym (dispatched-on_lanes ∙ ap on_lanes e)) (on_lanes-IsLawful j h),
      )
