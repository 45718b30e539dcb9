-- ===== src/Sse/Sse41.antt =====
-- What c/blake3_sse41.c defines in its own way, and its functions.
use blake.Base.{ℕ, List, Bool, [], ◌∷◌}
use blake.Sse.{Intrinsics}
use blake.Sse.Rows.{Variant}
use blake.Sse.Rows
use blake.Sse.Many

module _ (k : Intrinsics) where
  open k use {Vec}

  unfoldable pub rot16 : Vec → Vec
  rot16 x =
      k.shuffle_epi8 x
        (k.set_epi8 (13 ∷ 12 ∷ 15 ∷ 14 ∷ 9 ∷ 8 ∷ 11 ∷ 10 ∷ 5 ∷ 4 ∷ 7 ∷ 6 ∷ 1 ∷ 0 ∷ 3 ∷ 2 ∷ []))

  unfoldable pub rot8 : Vec → Vec
  rot8 x =
      k.shuffle_epi8 x
        (k.set_epi8 (12 ∷ 15 ∷ 14 ∷ 13 ∷ 8 ∷ 11 ∷ 10 ∷ 9 ∷ 4 ∷ 7 ∷ 6 ∷ 5 ∷ 0 ∷ 3 ∷ 2 ∷ 1 ∷ []))

  abbrev pub sse41 : Variant k
  sse41 = record { rot16 = rot16; rot8 = rot8; blend_epi16 = k.blend_epi16 }

  unfoldable pub compress_in_place : List ℕ → List ℕ → ℕ → ℕ → ℕ → List ℕ
  compress_in_place = Rows.compress_in_place k sse41

  unfoldable pub compress_xof : List ℕ → List ℕ → ℕ → ℕ → ℕ → List ℕ
  compress_xof = Rows.compress_xof k sse41

  unfoldable pub hash_many : List (List ℕ) → ℕ → List ℕ → ℕ → Bool → ℕ → ℕ → ℕ → List (List ℕ)
  hash_many = Many.hash_many k sse41
