-- ===== src/Merkle/Halves.antt =====
-- The two children of the root of a list of nodes.
use blake.Base.{ℕ, zero, suc, ◌^◌, ◌≤◌, ◌<◌, ◌≡◌, sym, ap, ap₂, ◌∙◌}
use blake.Base.{List, [], ◌∷◌, ◌++◌, length, take, drop, length-append, length-take, length-drop}
use blake.Base.{
  take-append-drop, take-append_exact, drop-append_exact, take-map, drop-map, map, length-map,
  arith,
}
use blake.Base.Bits.{two-pow-pos, two-pow-cancel_lt}
use blake.Merkle.{merkle, pairs}
use blake.Merkle.Laws.{merkle-append, merkle-height, merkle-map}
use blake.Merkle.Pairs.{length-pairs, pairs-append, merkle-pairs}
use native.Mathlib.Nat.{pow-suc}

-- `l` and `r` are the roots of the left and the right subtree of `xs`.
pub record Halves {A : Type 0} (par : A → A → A) (d : A) (xs : List A) (l r : A) : Type 0 where
  pub level : ℕ
  pub above : 2 ^ level < length xs
  pub below : length xs ≤ 2 ^ suc level
  pub left : merkle par d level (take (2 ^ level) xs) ≡ l
  pub right : merkle par d level (drop (2 ^ level) xs) ≡ r

module _ {A : Type 0} (par : A → A → A) (d : A) where
  pub Halves-append :
      (k : ℕ) (xs ys : List A)
      → length xs ≡ 2 ^ k
      → 0 < length ys
      → length ys ≤ 2 ^ k
      → Halves par d (xs ++ ys) (merkle par d k xs) (merkle par d k ys)
  Halves-append k xs ys e h g = record {
    level = k;
    above = omega (arith, length-append xs ys);
    below = omega (arith, length-append xs ys, pow-suc 2 k);
    left = ap (merkle par d k) (take-append_exact (2 ^ k) xs ys e);
    right = ap (merkle par d k) (drop-append_exact (2 ^ k) xs ys e);
  }

  pub merkle-Halves :
      (n : ℕ) (xs : List A) (l r : A)
      → Halves par d xs l r
      → length xs ≤ 2 ^ n
      → merkle par d n xs ≡ par l r
  merkle-Halves n xs l r v h =
      let p : ℕ = 2 ^ v.level in
      merkle-height par d n (suc v.level) xs h v.below
      ∙ ap (merkle par d (suc v.level)) (sym (take-append-drop p xs))
      ∙ merkle-append par d v.level (take p xs) (drop p xs)
          (omega (arith, length-take p xs, v.above)) (omega (arith, length-drop p xs, v.above))
      ∙ ap₂ par v.left v.right

  -- A list has one root of the left subtree and one of the right.
  pub Halves-unique :
      (xs : List A) (l r l' r' : A)
      → Halves par d xs l r
      → Halves par d xs l' r'
      → (l ≡ l') × (r ≡ r')
  Halves-unique xs l r l' r' v w =
      let e : v.level ≡ w.level = omega (
        arith,
        two-pow-cancel_lt v.level (suc w.level) (omega (arith, v.above, w.below)),
        two-pow-cancel_lt w.level (suc v.level) (omega (arith, w.above, v.below)),
      ) in
      (
        sym v.left ∙ ap (λ k. merkle par d k (take (2 ^ k) xs)) e ∙ w.left,
        sym v.right ∙ ap (λ k. merkle par d k (drop (2 ^ k) xs)) e ∙ w.right,
      )

  pub Halves-two : (x y l r : A) → Halves par d (x ∷ y ∷ []) l r → (x ≡ l) × (y ≡ r)
  Halves-two x y l r v = at_level v.level v.above v.left v.right
    where
      at_level :
          (k : ℕ)
          → 2 ^ k < 2
          → merkle par d k (take (2 ^ k) (x ∷ y ∷ [])) ≡ l
          → merkle par d k (drop (2 ^ k) (x ∷ y ∷ [])) ≡ r
          → (x ≡ l) × (y ≡ r)
      at_level zero h p q = unfold merkle in (p, q)
      at_level (suc k) h p q = absurd (omega (arith, pow-suc 2 k, two-pow-pos k))

  -- A layer of parents keeps the two children of the root.
  pub Halves-pairs :
      (xs : List A) (l r : A)
      → 2 < length xs
      → Halves par d xs l r
      → Halves par d (pairs par xs) l r
  Halves-pairs xs l r h v = at_level v.level v.above v.below v.left v.right
    where
      at_level :
          (k : ℕ)
          → 2 ^ k < length xs
          → length xs ≤ 2 ^ suc k
          → merkle par d k (take (2 ^ k) xs) ≡ l
          → merkle par d k (drop (2 ^ k) xs) ≡ r
          → Halves par d (pairs par xs) l r
      at_level zero lo hi p q = absurd (omega arith)
      at_level (suc k) lo hi p q =
          let n : ℕ = 2 ^ suc k in
          let e1 = pow-suc 2 k in
          let e2 = pow-suc 2 (suc k) in
          let ea = take n xs in
          let eb = drop n xs in
          let la : length ea ≡ 2 ^ suc k = omega (arith, length-take n xs) in
          let lb = length-drop n xs in
          rw
            (
              ← take-append-drop n xs,
              pairs-append par (2 ^ k) ea eb (omega arith),
              ← p,
              ← q,
              ← merkle-pairs par d k ea (omega arith),
              ← merkle-pairs par d k eb (omega arith),
            )
            (Halves-append k (pairs par ea) (pairs par eb) (omega (arith, length-pairs par ea))
              (omega (arith, length-pairs par eb)) (omega (arith, length-pairs par eb)))

-- A map that respects the parent operation takes the two children along.
pub Halves-map :
    {A B : Type 0} (par : A → A → A) (d : A) (par' : B → B → B) (d' : B) (f : A → B)
    → ((x y : A) → f (par x y) ≡ par' (f x) (f y))
    → f d ≡ d'
    → (xs : List A) (l r : A) → Halves par d xs l r
    → Halves par' d' (map f xs) (f l) (f r)
Halves-map par d par' d' f h e xs l r v = record {
  level = v.level;
  above = omega (arith, v.above, length-map f xs);
  below = omega (arith, v.below, length-map f xs);
  left =
      ap (merkle par' d' v.level) (take-map f (2 ^ v.level) xs)
      ∙ sym (merkle-map par d par' d' f h e v.level (take (2 ^ v.level) xs))
      ∙ ap f v.left;
  right =
      ap (merkle par' d' v.level) (drop-map f (2 ^ v.level) xs)
      ∙ sym (merkle-map par d par' d' f h e v.level (drop (2 ^ v.level) xs))
      ∙ ap f v.right;
}
