-- ===== src/Subtree/Parents.antt =====
-- `compress_parents_parallel` is one layer of parents over the chaining values.
use blake.Base.{ℕ, ◌*◌, ◌≤◌, ◌≡◌, refl, ap, arith}
use blake.Base.{List, [], ◌∷◌, ◌++◌, map, length, All, length-append, le→leb, some}
use blake.Impl.{block_len, out_len}
use blake.Backend.{Backend}
use blake.Backend.Lawful.{IsLawful}
use blake.Output.{chaining_value, parent_output}
use blake.Merkle.{pairs}
use blake.Subtree.{parent_blocks, compress_parents_parallel}
use blake.Tree.{join_cvs}

-- Chaining values of 32 bytes each.
abbrev pub AreCvs : List (List ℕ) → Type 0
AreCvs cvs = All (λ cv. length cv ≡ out_len) cvs

parent_blocks-whole :
    (cvs : List (List ℕ))
    → AreCvs cvs
    → All (λ block. length block ≡ block_len) (parent_blocks cvs).0
unfolding parent_blocks
parent_blocks-whole [] h = tt
parent_blocks-whole (l ∷ []) h = tt
parent_blocks-whole (l ∷ r ∷ cvs) (hl, (hr, h)) =
    (omega (arith, length-append l r), parent_blocks-whole cvs h)

length-parent_blocks : (cvs : List (List ℕ)) → 2 * length (parent_blocks cvs).0 ≤ length cvs
unfolding parent_blocks
length-parent_blocks [] = omega arith
length-parent_blocks (l ∷ []) = omega arith
length-parent_blocks (l ∷ r ∷ cvs) = omega (arith, length-parent_blocks cvs)

module _ (b : Backend) (lawful : IsLawful b) (key : List ℕ) (flags : ℕ) where
  parent_blocks-pairs :
      (cvs : List (List ℕ))
      → map (λ block. chaining_value b (parent_output block key flags)) (parent_blocks cvs).0
          ++ (parent_blocks cvs).1
        ≡ pairs (join_cvs b key flags) cvs
  unfolding parent_blocks pairs join_cvs
  parent_blocks-pairs [] = refl
  parent_blocks-pairs (l ∷ []) = refl
  parent_blocks-pairs (l ∷ r ∷ cvs) =
      ap (λ t. chaining_value b (parent_output (l ++ r) key flags) ∷ t) (parent_blocks-pairs cvs)

  -- With a lawful back end, `compress_parents_parallel` of at most 32 chaining values of 32 bytes
  -- each returns one layer of parents of the tree, in order, and a value left over moves up.
  pub compress_parents_parallel_lem :
      (cvs : List (List ℕ))
      → AreCvs cvs
      → length cvs ≤ 32
      → compress_parents_parallel b key flags cvs ≡ some (pairs (join_cvs b key flags) cvs)
  unfolding compress_parents_parallel
  compress_parents_parallel_lem cvs h few =
      let blocks = (parent_blocks cvs).0 in
      rw (
        le→leb (length blocks) 16 (omega (arith, length-parent_blocks cvs)),
        lawful.hash_parents key flags blocks (parent_blocks-whole cvs h),
        parent_blocks-pairs cvs,
      )

  pub pairs-AreCvs : (cvs : List (List ℕ)) → AreCvs cvs → AreCvs (pairs (join_cvs b key flags) cvs)
  unfolding pairs join_cvs
  pairs-AreCvs [] h = tt
  pairs-AreCvs (l ∷ []) h = h
  pairs-AreCvs (l ∷ r ∷ cvs) (hl, (hr, h)) =
      (lawful.cv_length (parent_output (l ++ r) key flags), pairs-AreCvs cvs h)
