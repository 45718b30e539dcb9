-- ===== src/Merkle.antt =====
-- The tree of c/blake3.c over its leaves, in any type with a parent operation: the left subtree of
-- a node holds the largest power of two of leaves that leaves one at least for the right. This is
-- the specification that the subtree hashing and the stack of the hasher are compared with.
pub mod Laws
pub mod Pairs
pub mod Halves
pub mod Condense
use blake.Base.{ℕ, zero, suc, ◌^◌, List, [], ◌∷◌, true, false, leb, length, take, drop}

module _ {A : Type 0} (par : A → A → A) (d : A) where
  -- The root over at most `2 ^ k` leaves; `d` stands for the root of no leaves at all.
  unfoldable pub merkle : ℕ → List A → A
  merkle zero [] = d
  merkle zero (x ∷ xs) = x
  merkle (suc k) xs = elim (leb (length xs) (2 ^ k)) [
    | true ↦ merkle k xs
    | false ↦ par (merkle k (take (2 ^ k) xs)) (merkle k (drop (2 ^ k) xs))
  ]

-- One layer of parents; a child left over moves up as it is.
unfoldable pub pairs : {A : Type 0} → (A → A → A) → List A → List A
pairs par [] = []
pairs par (x ∷ []) = x ∷ []
pairs par (x ∷ y ∷ xs) = par x y ∷ pairs par xs
