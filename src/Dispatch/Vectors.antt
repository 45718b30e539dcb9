-- ===== src/Dispatch/Vectors.antt =====
-- The dispatched operations with the code of the back ends for SSE2, SSE4.1 and AVX2 behind them.
use blake.Base.{ℕ, ◌≡◌, refl, List, Bool, All, IsWord, length, if◌then◌else◌, if_either}
use blake.Portable
use blake.Sse
use blake.Sse.Sse41
use blake.Sse.Sse2
use blake.Sse.Agrees.{sse41_compress, sse2_compress, sse41_hash_many, sse2_hash_many}
use blake.Avx2
use blake.Avx2.Agrees.{avx2_hash_many}
use blake.Dispatch.{
  Simd, has, has_avx512, sse2, sse41, avx2, avx512vl, dispatch_in_place, dispatch_xof,
  dispatch_hash_many,
}

-- The functions of the three files in the place of those of `k`.
unfoldable pub with_vectors : Sse.Intrinsics → Avx2.Intrinsics → Simd → Simd
with_vectors s a k = record k {
  compress_in_place_sse41 = Sse41.compress_in_place s;
  compress_in_place_sse2 = Sse2.compress_in_place s;
  compress_xof_sse41 = Sse41.compress_xof s;
  compress_xof_sse2 = Sse2.compress_xof s;
  hash_many_avx2 = Avx2.hash_many a s;
  hash_many_sse41 = Sse41.hash_many s;
  hash_many_sse2 = Sse2.hash_many s;
}

-- The functions for AVX-512 compute on words what the portable ones compute.
pub record IsPortableOnWords (k : Simd) : Type 0 where
  pub in_place :
      (cv block : List ℕ) (len counter flags : ℕ)
      → All IsWord cv
      → k.compress_in_place_avx512 cv block len counter flags
        ≡ Portable.compress_in_place cv block len counter flags
  pub xof :
      (cv block : List ℕ) (len counter flags : ℕ)
      → All IsWord cv
      → k.compress_xof_avx512 cv block len counter flags
        ≡ Portable.compress_xof cv block len counter flags
  pub many :
      (inputs : List (List ℕ)) (blocks : ℕ) (key : List ℕ) (counter : ℕ) (increment : Bool)
      (flags flags_start flags_end : ℕ)
      → All IsWord key
      → length key ≡ 8
      → k.hash_many_avx512 inputs blocks key counter increment flags flags_start flags_end
        ≡ Portable.hash_many inputs blocks key counter increment flags flags_start flags_end

-- A choice between values that are both `P`.
pub choose {ℓ} :
    {A : Type ℓ} (P : A) (c : Bool) {x y : A} → x ≡ P → y ≡ P → (if c then x else y) ≡ P
choose P c e f = if_either (λ x. x ≡ P) c (λ t. e) (λ t. f)

module _ (s : Sse.Intrinsics) (ds : Sse.Documented s) (a : Avx2.Intrinsics) (da : Avx2.Documented a)
    (k : Simd) (wide : IsPortableOnWords k) (features : ℕ) where
  -- With the code for SSE2 and SSE4.1 behind them, instructions that do what their manual says,
  -- and functions for AVX-512 that compute on words what the portable ones compute,
  -- `blake3_compress_in_place` and `blake3_compress_xof` give on a chaining value of words,
  -- whatever the features are, what the portable functions give.
  pub dispatch_compress :
      (cv block : List ℕ) (len counter flags : ℕ)
      → All IsWord cv
      → (dispatch_in_place (with_vectors s a k) features cv block len counter flags
          ≡ Portable.compress_in_place cv block len counter flags)
        × (dispatch_xof (with_vectors s a k) features cv block len counter flags
            ≡ Portable.compress_xof cv block len counter flags)
  unfolding dispatch_in_place dispatch_xof with_vectors
  dispatch_compress cv block len counter flags words =
      let by41 = sse41_compress s ds cv block len counter flags words in
      let by2 = sse2_compress s ds cv block len counter flags words in
      (
        choose _ (has features avx512vl) (wide.in_place cv block len counter flags words)
            (choose _ (has features sse41) by41.0 (choose _ (has features sse2) by2.0 refl)),
        choose _ (has features avx512vl) (wide.xof cv block len counter flags words)
            (choose _ (has features sse41) by41.1 (choose _ (has features sse2) by2.1 refl)),
      )

  -- With the code for SSE2, SSE4.1 and AVX2 behind it, instructions that do what their manual
  -- says, and functions for AVX-512 that compute on words what the portable ones compute,
  -- `blake3_hash_many` gives on a key of eight words, whatever the features are, what
  -- `blake3_hash_many_portable` gives.
  pub dispatch_hash_many_lem :
      (inputs : List (List ℕ)) (blocks : ℕ) (key : List ℕ) (counter : ℕ) (increment : Bool)
      (flags flags_start flags_end : ℕ)
      → All IsWord key
      → length key ≡ 8
      → dispatch_hash_many
          (with_vectors s a k)
          features
          inputs
          blocks
          key
          counter
          increment
          flags
          flags_start
          flags_end
        ≡ Portable.hash_many inputs blocks key counter increment flags flags_start flags_end
  unfolding dispatch_hash_many with_vectors
  dispatch_hash_many_lem inputs blocks key counter increment flags flags_start flags_end w e =
      choose _ (has_avx512 features)
        (wide.many inputs blocks key counter increment flags flags_start flags_end w e)
        (choose _ (has features avx2)
          (avx2_hash_many a da key w e s ds blocks increment flags flags_start flags_end inputs
            counter)
          (choose _ (has features sse41)
            (sse41_hash_many s ds inputs blocks key counter increment flags flags_start flags_end w
              e)
            (choose _ (has features sse2)
              (sse2_hash_many s ds inputs blocks key counter increment flags flags_start flags_end w
                e)
              refl)))
