-- ===== src/Sse/Agrees.antt =====
-- The two back ends for vectors of four words compute what c/blake3_portable.c computes.
use blake.Base.{ℕ, ◌≡◌, List, Bool, All, IsWord, length}
use blake.Portable
use blake.Sse.{Intrinsics, Documented}
use blake.Sse.Sse41
use blake.Sse.Sse2
use blake.Sse.Sse41.{sse41}
use blake.Sse.Sse2.{sse2}
use blake.Sse.Variants.{sse41-IsVariant, sse2-IsVariant}
use blake.Sse.Compress.{compress_in_place_lem, compress_xof_lem}
use blake.Sse.HashMany.{hash_many_lem}

module _ (k : Intrinsics) (d : Documented k) where
  module _ (cv block : List ℕ) (len counter flags : ℕ) (words : All IsWord cv) where
    -- Where the instructions do what their manual says, `blake3_compress_in_place_sse41` and
    -- `blake3_compress_xof_sse41`, which work on rows of four words, compute on a chaining value
    -- of words what the portable functions compute.
    pub sse41_compress :
        (Sse41.compress_in_place k cv block len counter flags
          ≡ Portable.compress_in_place cv block len counter flags)
        × (Sse41.compress_xof k cv block len counter flags
            ≡ Portable.compress_xof cv block len counter flags)
    unfolding Sse41.compress_in_place Sse41.compress_xof
    sse41_compress = (
      compress_in_place_lem k d (sse41 k) (sse41-IsVariant k d) cv block len counter flags words,
      compress_xof_lem k d (sse41 k) (sse41-IsVariant k d) cv block len counter flags words,
    )

    -- Where the instructions do what their manual says, `blake3_compress_in_place_sse2` and
    -- `blake3_compress_xof_sse2`, which rotate and blend by other instructions, compute on a
    -- chaining value of words what the portable functions compute.
    pub sse2_compress :
        (Sse2.compress_in_place k cv block len counter flags
          ≡ Portable.compress_in_place cv block len counter flags)
        × (Sse2.compress_xof k cv block len counter flags
            ≡ Portable.compress_xof cv block len counter flags)
    unfolding Sse2.compress_in_place Sse2.compress_xof
    sse2_compress = (
      compress_in_place_lem k d (sse2 k) (sse2-IsVariant k d) cv block len counter flags words,
      compress_xof_lem k d (sse2 k) (sse2-IsVariant k d) cv block len counter flags words,
    )

  module _ (inputs : List (List ℕ)) (blocks : ℕ) (key : List ℕ) (counter : ℕ) (increment : Bool)
      (flags flags_start flags_end : ℕ) (words : All IsWord key) (eight : length key ≡ 8) where
    -- Where the instructions do what their manual says, `blake3_hash_many_sse41`, which hashes
    -- four inputs at a time in the lanes of its vectors and the rest alone, gives for a key of
    -- eight words and any inputs, numbers of blocks, flags and counters, incremented or not, what
    -- `blake3_hash_many_portable` gives.
    pub sse41_hash_many :
        Sse41.hash_many k inputs blocks key counter increment flags flags_start flags_end
        ≡ Portable.hash_many inputs blocks key counter increment flags flags_start flags_end
    unfolding Sse41.hash_many
    sse41_hash_many =
        hash_many_lem k d (sse41 k) (sse41-IsVariant k d) key words eight inputs blocks counter
          increment flags flags_start flags_end

    -- Where the instructions do what their manual says, `blake3_hash_many_sse2` gives for a key of
    -- eight words and any inputs, numbers of blocks, flags and counters, incremented or not, what
    -- `blake3_hash_many_portable` gives.
    pub sse2_hash_many :
        Sse2.hash_many k inputs blocks key counter increment flags flags_start flags_end
        ≡ Portable.hash_many inputs blocks key counter increment flags flags_start flags_end
    unfolding Sse2.hash_many
    sse2_hash_many =
        hash_many_lem k d (sse2 k) (sse2-IsVariant k d) key words eight inputs blocks counter
          increment flags flags_start flags_end
