-- ===== src/Merkle/Pairs.antt =====
-- Condensing the leaves by a layer of parents keeps the root, and keeps the two children of the
-- root as long as more than two nodes are left.
use blake.Base.{ℕ, zero, suc, ◌+◌, ◌*◌, ◌/◌, ◌^◌, ◌≤◌, ◌≡◌, refl, sym, ap, ap₂, ◌∙◌}
use blake.Base.{List, [], ◌∷◌, ◌++◌, length, take, drop, length-take, length-drop}
use blake.Base.{take-append-drop, arith, le-or-gt, inl, inr}
use blake.Merkle.{merkle, pairs}
use blake.Merkle.Laws.{merkle-fits, merkle-append}
use native.Mathlib.Nat.{pow-suc}

module _ {A : Type 0} (par : A → A → A) where
  pub length-pairs : (xs : List A) → length (pairs par xs) ≡ (length xs + 1) / 2
  unfolding pairs
  length-pairs [] = refl
  length-pairs (x ∷ []) = refl
  length-pairs (x ∷ y ∷ xs) = omega (arith, length-pairs xs)

  -- An even number of nodes makes parents of its own.
  pub pairs-append :
      (m : ℕ) (xs ys : List A)
      → length xs ≡ 2 * m
      → pairs par (xs ++ ys) ≡ pairs par xs ++ pairs par ys
  unfolding pairs
  pairs-append m [] ys e = refl
  pairs-append m (x ∷ []) ys e = absurd (omega arith)
  pairs-append zero (x ∷ y ∷ xs) ys e = absurd (omega arith)
  pairs-append (suc m) (x ∷ y ∷ xs) ys e =
      ap (λ l. par x y ∷ l) (pairs-append m xs ys (omega arith))

module _ {A : Type 0} (par : A → A → A) (d : A) where
  -- A layer of parents lowers the tree by one level and keeps the root.
  pub merkle-pairs :
      (k : ℕ) (xs : List A)
      → length xs ≤ 2 ^ suc k
      → merkle par d k (pairs par xs) ≡ merkle par d (suc k) xs
  merkle-pairs zero [] h = unfold merkle pairs in refl
  merkle-pairs zero (x ∷ []) h = unfold merkle pairs in refl
  merkle-pairs zero (x ∷ y ∷ []) h = unfold merkle pairs in refl
  merkle-pairs zero (x ∷ y ∷ z ∷ xs) h = absurd (omega arith)
  merkle-pairs (suc k) xs h = elim (le-or-gt (length xs) (2 ^ suc k)) [
    | inl fits ↦
        merkle-fits par d k (pairs par xs) (omega (arith, length-pairs par xs, pow-suc 2 k))
        ∙ merkle-pairs k xs fits
        ∙ sym (merkle-fits par d (suc k) xs fits)
    | inr over ↦
        let p : ℕ = 2 ^ suc k in
        let l = take p xs in
        let r = drop p xs in
        let el : length l ≡ 2 ^ suc k = omega (arith, length-take p xs) in
        let er = length-drop p xs in
        let e2 = pow-suc 2 (suc k) in
        let e1 = pow-suc 2 k in
        ap (λ t. merkle par d (suc k) (pairs par t)) (sym (take-append-drop p xs))
        ∙ ap (merkle par d (suc k)) (pairs-append par (2 ^ k) l r (omega arith))
        ∙ merkle-append par d k (pairs par l) (pairs par r) (omega (arith, length-pairs par l))
            (omega (arith, length-pairs par r))
        ∙ ap₂ par (merkle-pairs k l (omega arith)) (merkle-pairs k r (omega arith))
        ∙ sym (merkle-append par d (suc k) l r el (omega arith))
        ∙ ap (merkle par d (suc (suc k))) (take-append-drop p xs)
  ]
