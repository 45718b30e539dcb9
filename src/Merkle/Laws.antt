-- ===== src/Merkle/Laws.antt =====
-- How `merkle` splits, and that it does not depend on the bound on its height.
use blake.Base.{ℕ, zero, suc, ◌+◌, ◌^◌, ◌≤◌, ◌<◌, ◌≡◌, refl, sym, ap, ap₂, ◌∙◌, arith}
use blake.Base.{List, [], ◌∷◌, ◌++◌, length, take, drop, le→leb, gt→leb, le-or-gt, inl, inr}
use blake.Base.{
  length-append, take-append_exact, drop-append_exact, map, length-map, take-map, drop-map,
}
use blake.Base.Bits.{two-pow_mono}
use blake.Merkle.{merkle}

module _ {A : Type 0} (par : A → A → A) (d : A) where
  pub merkle-fits :
      (k : ℕ) (xs : List A) → length xs ≤ 2 ^ k → merkle par d (suc k) xs ≡ merkle par d k xs
  unfolding merkle
  merkle-fits k xs h = rw (le→leb (length xs) (2 ^ k) h, merkle)

  pub merkle-split :
      (k : ℕ) (xs : List A)
      → 2 ^ k < length xs
      → merkle par d (suc k) xs
        ≡ par (merkle par d k (take (2 ^ k) xs)) (merkle par d k (drop (2 ^ k) xs))
  unfolding merkle
  merkle-split k xs h = rw (gt→leb (length xs) (2 ^ k) h, merkle)

  -- A full left subtree and what follows it.
  pub merkle-append :
      (k : ℕ) (xs ys : List A)
      → length xs ≡ 2 ^ k
      → 0 < length ys
      → merkle par d (suc k) (xs ++ ys) ≡ par (merkle par d k xs) (merkle par d k ys)
  merkle-append k xs ys e h =
      merkle-split k (xs ++ ys) (omega (arith, length-append xs ys))
      ∙ ap₂ (λ l r. par (merkle par d k l) (merkle par d k r)) (take-append_exact (2 ^ k) xs ys e)
          (drop-append_exact (2 ^ k) xs ys e)

  merkle-raise :
      (n k : ℕ) (xs : List A) → length xs ≤ 2 ^ k → merkle par d (n + k) xs ≡ merkle par d k xs
  merkle-raise zero k xs h = ap (λ m. merkle par d m xs) {x = zero + k} {y = k} (omega arith)
  merkle-raise (suc n) k xs h =
      ap (λ m. merkle par d m xs) {x = suc n + k} {y = suc (n + k)} (omega arith)
      ∙ merkle-fits (n + k) xs (omega (arith, two-pow_mono k (n + k) (omega arith)))
      ∙ merkle-raise n k xs h

  -- Any two heights that are enough give the same root.
  pub merkle-height :
      (n k : ℕ) (xs : List A)
      → length xs ≤ 2 ^ n
      → length xs ≤ 2 ^ k
      → merkle par d n xs ≡ merkle par d k xs
  merkle-height n k xs h g =
      sym (merkle-raise k n xs h)
      ∙ ap (λ m. merkle par d m xs) {x = k + n} {y = n + k} (omega arith)
      ∙ merkle-raise n k xs g

-- A map that respects the parent operation respects the tree.
pub merkle-map :
    {A B : Type 0} (par : A → A → A) (d : A) (par' : B → B → B) (d' : B) (f : A → B)
    → ((x y : A) → f (par x y) ≡ par' (f x) (f y))
    → f d ≡ d'
    → (k : ℕ) (xs : List A) → f (merkle par d k xs) ≡ merkle par' d' k (map f xs)
unfolding merkle
merkle-map par d par' d' f h e zero [] = e
merkle-map par d par' d' f h e zero (x ∷ xs) = refl
merkle-map par d par' d' f h e (suc k) xs = elim (le-or-gt (length xs) (2 ^ k)) [
  | inl fits ↦
      ap f (merkle-fits par d k xs fits)
      ∙ merkle-map par d par' d' f h e k xs
      ∙ sym (merkle-fits par' d' k (map f xs) (rw (length-map f xs) fits))
  | inr over ↦
      ap f (merkle-split par d k xs over)
      ∙ h _ _
      ∙ ap₂ par' (merkle-map par d par' d' f h e k (take (2 ^ k) xs))
          (merkle-map par d par' d' f h e k (drop (2 ^ k) xs))
      ∙ ap₂ (λ l r. par' (merkle par' d' k l) (merkle par' d' k r)) (sym (take-map f (2 ^ k) xs))
          (sym (drop-map f (2 ^ k) xs))
      ∙ sym (merkle-split par' d' k (map f xs) (rw (length-map f xs) over))
]
