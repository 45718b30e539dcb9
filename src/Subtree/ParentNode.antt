-- ===== src/Subtree/ParentNode.antt =====
-- `compress_subtree_to_parent_node` returns the chaining values of the two children of the root of
-- its input's leaves.
use blake.Base.{ℕ, zero, suc, ◌+◌, ◌*◌, ◌^◌, ◌≤◌, ◌<◌, ◌≡◌, refl, sym, ap, ap₂, ◌∙◌, arith}
use blake.Base.{
  List, [], ◌∷◌, ◌++◌, map, length, length-append, length-map, none, some, true, false, leb, le→leb,
  lt→ltb, ge→ltb,
}
use blake.Base.{le-or-gt, inl, inr}
use blake.Base.Bits.{two-pow-pos, two-pow_mono}
use blake.Impl.{chunk_len, max_depth}
use blake.Backend.{Backend}
use blake.Backend.Lawful.{IsLawful}
use blake.Merkle.{merkle, pairs}
use blake.Merkle.Pairs.{length-pairs}
use blake.Merkle.Halves.{
  Halves, Halves-append, Halves-two, Halves-pairs, Halves-unique, Halves-map, merkle-Halves,
}
use blake.Merkle.Condense.{some-Halves}
use blake.Output.{parent_output, chaining_value}
use blake.Chunk.Spec.{chunk_output}
use blake.Subtree.{condense, first_two, to_parent_node, compress_subtree_to_parent_node}
use blake.Subtree.Parents.{AreCvs, compress_parents_parallel_lem, pairs-AreCvs}
use blake.Subtree.IsWide.{cvs_of, no_cv}
use blake.Subtree.Wide.{compress_subtree_wide_lem}
use blake.Tree.{leaves, join, join_cvs, tree}
use blake.Tree.Leaves.{length-leaves_le, length-leaves_many, length-leaves, leaves-append}
use native.Mathlib.Nat.{pow-suc}
use mathlib.Core.Path.{subst}

module _ (b : Backend) (lawful : IsLawful b) (key : List ℕ) (flags : ℕ) where
  two_left :
      (cvs : List (List ℕ)) (l r : List ℕ)
      → length cvs ≤ 2
      → Halves (join_cvs b key flags) (no_cv b lawful key flags) cvs l r
      → cvs ≡ l ∷ r ∷ []
  two_left [] l r h v = absurd (omega (arith, v.above))
  two_left (x ∷ []) l r h v = absurd (omega (arith, v.above, two-pow-pos v.level))
  two_left (x ∷ y ∷ []) l r h v =
      let (p, q) = Halves-two (join_cvs b key flags) (no_cv b lawful key flags) x y l r v in
      ap₂ (λ s t. s ∷ t ∷ []) p q
  two_left (x ∷ y ∷ z ∷ cvs) l r h v = absurd (omega arith)

  -- Condensing ends with two values, the two children of the root.
  condense_lem :
      (fuel : ℕ) (cvs : List (List ℕ)) (l r : List ℕ)
      → length cvs ≤ 2 ^ fuel
      → length cvs ≤ 16
      → AreCvs cvs
      → Halves (join_cvs b key flags) (no_cv b lawful key flags) cvs l r
      → condense b key flags (suc fuel) cvs ≡ some (l ∷ r ∷ [])
  unfolding condense
  condense_lem zero cvs l r h few sized v =
      rw (ge→ltb 2 (length cvs) (omega arith), condense)
        (ap some (two_left cvs l r (omega arith) v))
  condense_lem (suc fuel) cvs l r h few sized v = elim (le-or-gt (length cvs) 2) [
    | inl two ↦ rw (ge→ltb 2 (length cvs) two, condense) (ap some (two_left cvs l r two v))
    | inr more ↦
        let par = join_cvs b key flags in
        let halved = pairs par cvs in
        let fits : length halved ≤ 8 = omega (arith, length-pairs par cvs) in
        let rest : condense b key flags (suc fuel) halved ≡ some (l ∷ r ∷ []) =
          condense_lem fuel halved l r (omega (arith, length-pairs par cvs, pow-suc 2 fuel))
            (omega arith) (pairs-AreCvs b lawful key flags cvs sized)
            (Halves-pairs par (no_cv b lawful key flags) cvs l r more v) in
        let copied : (elim (leb (length halved) 8) [
          | true ↦ condense b key flags (suc fuel) halved
          | false ↦ none
        ])
            ≡ some (l ∷ r ∷ []) =
          rw (le→leb (length halved) 8 fits) rest in
        rw
          (
            lt→ltb 2 (length cvs) more,
            condense,
            compress_parents_parallel_lem b lawful key flags cvs sized (omega arith),
          )
          copied
  ]

  -- The halves of the leaves' outputs and those of their chaining values.
  leaves-Halves :
      (counter : ℕ) (input l r : List ℕ)
      → 1 < length (leaves b key flags counter input)
      → length (leaves b key flags counter input) ≤ 2 ^ 54
      → Halves
          (join_cvs b key flags)
          (no_cv b lawful key flags)
          (cvs_of b lawful key flags counter input)
          l
          r
      → tree b key flags (leaves b key flags counter input) ≡ parent_output (l ++ r) key flags
  unfolding tree
  leaves-Halves counter input l r more few v =
      let xs = leaves b key flags counter input in
      let none_yet = chunk_output b key flags 0 [] in
      let (x, y, w) = some-Halves (join b key flags) none_yet xs more (omega arith) in
      let w' =
        Halves-map (join b key flags) none_yet (join_cvs b key flags) (no_cv b lawful key flags)
          (chaining_value b) (λ s t. unfold join join_cvs in refl) refl xs x y w in
      let (p, q) =
        Halves-unique (join_cvs b key flags) (no_cv b lawful key flags) (map (chaining_value b) xs)
          (chaining_value b x) (chaining_value b y) l r w' v in
      merkle-Halves (join b key flags) none_yet max_depth xs x y w (omega arith)
      ∙ (unfold join in ap₂ (λ s t. parent_output (s ++ t) key flags) p q)

  to_parent_node_lem :
      (cvs : List (List ℕ)) (l r : List ℕ)
      → length cvs ≤ 16
      → AreCvs cvs
      → Halves (join_cvs b key flags) (no_cv b lawful key flags) cvs l r
      → to_parent_node b key flags cvs ≡ some (l ++ r)
  unfolding to_parent_node
  to_parent_node_lem cvs l r few sized v =
      rw (le→leb (length cvs) 16 few, condense_lem 4 cvs l r few few sized v)
        (unfold first_two in refl)

  -- For an input of more than one chunk, `compress_subtree_to_parent_node` keeps within its arrays
  -- and returns the message of the parent node that is the root of the tree over its chunks, for
  -- every lawful back end and as long as chunk counter and length together stay below 2^64.
  pub compress_subtree_to_parent_node_lem :
      (counter : ℕ) (input : List ℕ)
      → chunk_len < length input
      → counter + length input < 2 ^ 64
      → (block : List ℕ) × (compress_subtree_to_parent_node b key flags input counter ≡ some block)
        × (tree b key flags (leaves b key flags counter input) ≡ parent_output block key flags)
  unfolding compress_subtree_to_parent_node
  compress_subtree_to_parent_node_lem counter input long bound =
      let (cvs, e, v) =
        compress_subtree_wide_lem b lawful key flags 54 counter input (omega arith) (omega arith)
          bound in
      let xs = leaves b key flags counter input in
      let (p, q) =
        length-leaves_le b key flags (2 ^ 54) counter input (omega arith) (omega arith) in
      let count = length-map (chaining_value b) xs in
      let more : 1 < length xs = length-leaves_many b key flags counter input long in
      let (l, r, hx, hy) = v.condensed.halves (omega arith) in
      let low = two-pow_mono lawful.degree_log 4 lawful.degree_bound in
      (
        l ++ r,
        rw e (to_parent_node_lem cvs l r (omega (arith, v.bounded)) v.sized hy),
        leaves-Halves counter input l r more (omega arith) hx,
      )

  -- When the left subtree is known, the message has its chaining value and that of the rest.
  pub compress_subtree_to_parent_node_halves :
      (a counter : ℕ) (l r : List ℕ)
      → length l ≡ 2 ^ a * chunk_len
      → 0 < length r
      → length r ≤ 2 ^ a * chunk_len
      → counter + length (l ++ r) < 2 ^ 64
      → compress_subtree_to_parent_node b key flags (l ++ r) counter
        ≡ some (
            chaining_value b (
              merkle
                (join b key flags)
                (chunk_output b key flags 0 [])
                a
                (leaves b key flags counter l))
            ++ chaining_value b (
                merkle
                  (join b key flags)
                  (chunk_output b key flags 0 [])
                  a
                  (leaves b key flags (counter + 2 ^ a) r)))
  unfolding compress_subtree_to_parent_node
  compress_subtree_to_parent_node_halves a counter l r el pos short bound =
      let none_yet = chunk_output b key flags 0 [] in
      let la = length-append l r in
      let big = two-pow-pos a in
      let (cvs, e, v) =
        compress_subtree_wide_lem b lawful key flags 54 counter (l ++ r) (omega arith) (omega arith)
          bound in
      let xl = leaves b key flags counter l in
      let xr = leaves b key flags (counter + 2 ^ a) r in
      let nl = chaining_value b (merkle (join b key flags) none_yet a xl) in
      let nr = chaining_value b (merkle (join b key flags) none_yet a xr) in
      let (some_leaf, few) = length-leaves_le b key flags (2 ^ a) (counter + 2 ^ a) r pos short in
      let h =
        Halves-append (join b key flags) none_yet a xl xr
          (length-leaves b key flags (2 ^ a) counter l el) some_leaf few in
      let more : 1 < length (leaves b key flags counter (l ++ r)) =
        length-leaves_many b key flags counter (l ++ r) (omega arith) in
      let (x, y, hx, hy) =
        v.condensed.halves
          (omega (arith, length-map (chaining_value b) (leaves b key flags counter (l ++ r)))) in
      let h' =
        Halves-map (join b key flags) none_yet (join_cvs b key flags) (no_cv b lawful key flags)
          (chaining_value b) (λ s t. unfold join join_cvs in refl) refl (xl ++ xr) _ _ h in
      let (p, q) =
        Halves-unique (join_cvs b key flags) (no_cv b lawful key flags)
          (cvs_of b lawful key flags counter (l ++ r)) x y _ _ hx
          (subst
            (λ t.
              Halves (join_cvs b key flags) (no_cv b lawful key flags) (map (chaining_value b) t) nl
                nr)
            (sym (leaves-append b key flags (2 ^ a) counter l r el)) h') in
      let low = two-pow_mono lawful.degree_log 4 lawful.degree_bound in
      rw e (to_parent_node_lem cvs x y (omega (arith, v.bounded)) v.sized hy)
      ∙ ap₂ (λ s t. some (s ++ t)) p q
