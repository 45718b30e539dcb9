-- ===== src/Hasher/Finalize.antt =====
-- The finalized output of a hasher.
use blake.Base.{ℕ, ◌^◌, ◌<◌, ◌≡◌, refl, sym, ap, ap₂, ◌∙◌, arith}
use blake.Base.{List, [], ◌∷◌, ◌++◌, length, append-nil}
use blake.Base.{some}
use blake.Base.{lt→ltb, ge→ltb, le-or-gt, inl, inr}
use blake.Base.{empty_of_length}
use blake.Impl.{max_depth}
use blake.Backend.{Backend}
use blake.Backend.Lawful.{IsLawful}
use blake.Output.{parent_output}
use blake.Chunk.{output}
use blake.Chunk as Chunk
use blake.Chunk.Holds.{output-Holds, chunk_len-Holds}
use blake.Chunk.Spec.{chunk_output}
use blake.Hasher.{Hasher, stacked_output, roll_up}
use blake.Hasher.Stack.{Lazy}
use blake.Hasher.RollUp.{roll_up_lem}
use blake.Hasher.Update.{chunk_node}
use blake.Base.Bits.{two-pow-pos}
use blake.Hasher.Hashed.{Hashed}
use blake.Merkle.{merkle}
use blake.Tree.{join, tree, root_output}
use blake.Tree.Leaves.{leaves-nil}
use mathlib.Core.Path.{subst}

module _ (b : Backend) (lawful : IsLawful b) (key : List ℕ) (flags : ℕ) where
  -- With bytes in the chunk state its output is rolled up with all of the stack.
  from_chunk :
      (total : List ℕ) (self : Hasher)
      → length total < 2 ^ 64
      → (v : Hashed b lawful key flags total self) → 0 < length v.rest
      → roll_up b self.key self.chunk.flags (output self.chunk) self.cv_stack
        ≡ root_output b key flags total
  from_chunk total self bound v pos =
      ap₂ (λ k f. roll_up b k f (output self.chunk) self.cv_stack) v.same_key v.holds.same_flags
      ∙ ap (λ o. roll_up b key flags o self.cv_stack)
          (output-Holds b key v.count flags self.chunk v.rest v.holds
            ∙ chunk_node b lawful key flags v.count v.rest pos v.holds.bounded)
      ∙ roll_up_lem b key flags 0 v.count v.front v.rest self.cv_stack pos
          (omega (arith, v.holds.bounded)) (omega (arith, ap length v.split)) (v.merged pos)
      ∙ ap (root_output b key flags) (sym v.split)

  -- Without bytes there the two values on top of the stack are the children of the first parent.
  from_stack :
      (m : List ℕ) (n : ℕ) (top next : List ℕ) (cvs : List (List ℕ))
      → length m < 2 ^ 64
      → Lazy b key flags n m (top ∷ next ∷ cvs)
      → roll_up b key flags (parent_output (next ++ top) key flags) cvs ≡ root_output b key flags m
  unfolding roll_up
  from_stack m n top next cvs bound v =
      let big = two-pow-pos v.level in
      ap (λ z. roll_up b key flags (parent_output (next ++ z) key flags) cvs) v.value
      ∙ roll_up_lem b key flags v.level v.front v.front_bytes v.bytes (next ∷ cvs)
          (omega (arith, v.size)) (omega (arith, v.size)) (omega (arith, ap length v.split)) v.rest
      ∙ ap (root_output b key flags) (sym v.split)

  no_bytes : chunk_output b key flags 0 [] ≡ root_output b key flags []
  no_bytes =
      unfold root_output tree merkle in
      ap (merkle (join b key flags) (chunk_output b key flags 0 []) max_depth)
        (sym (leaves-nil b key flags 0))

  -- Whatever a hasher has taken, the output that it finalizes is the root of the tree over it.
  pub stacked_output-Hashed :
      (total : List ℕ) (self : Hasher)
      → length total < 2 ^ 64
      → Hashed b lawful key flags total self
      → stacked_output b self self.cv_stack ≡ some (root_output b key flags total)
  stacked_output-Hashed total self bound v = by_stack self.cv_stack refl v.lazy v.two
    where
      held : Chunk.chunk_len self.chunk ≡ length v.rest
      held = chunk_len-Holds b key v.count flags self.chunk v.rest v.holds

      with_bytes :
          (cvs : List (List ℕ))
          → self.cv_stack ≡ cvs
          → 0 < length v.rest
          → roll_up b self.key self.chunk.flags (output self.chunk) cvs
            ≡ root_output b key flags total
      with_bytes cvs e pos =
          subst
            (λ c.
              roll_up b self.key self.chunk.flags (output self.chunk) c
              ≡ root_output b key flags total)
            e (from_chunk total self bound v pos)

      by_stack :
          (cvs : List (List ℕ))
          → self.cv_stack ≡ cvs
          → Lazy b key flags v.count v.front cvs
          → (length v.rest ≡ 0 → 0 < v.count → 1 < length cvs)
          → stacked_output b self cvs ≡ some (root_output b key flags total)
      by_stack [] e w two = elim (le-or-gt (length v.rest) 0) [
        | inl none_left ↦
            let nil : v.rest ≡ [] = empty_of_length v.rest (omega arith) in
            unfold stacked_output in
            ap some (
              output-Holds b key v.count flags self.chunk v.rest v.holds
              ∙ ap₂ (λ n c. chunk_output b key flags n c) w.0 nil
              ∙ no_bytes
              ∙ ap (root_output b key flags) (sym (v.split ∙ ap₂ ◌++◌ w.1 nil)))
        | inr left ↦ unfold stacked_output roll_up in ap some (with_bytes [] e left)
      ]
      by_stack (top ∷ []) e w two = elim (le-or-gt (length v.rest) 0) [
        | inl none_left ↦
            absurd (omega (arith, two (omega arith) (omega (arith, w.count, two-pow-pos w.level))))
        | inr left ↦
            unfold stacked_output in
            rw (lt→ltb 0 (Chunk.chunk_len self.chunk) (omega (arith, held)))
              (ap some (with_bytes (top ∷ []) e left))
      ]
      by_stack (top ∷ next ∷ cvs) e w two = elim (le-or-gt (length v.rest) 0) [
        | inl none_left ↦
            let nil : v.rest ≡ [] = empty_of_length v.rest (omega arith) in
            let whole : total ≡ v.front =
              v.split ∙ ap (λ t. v.front ++ t) nil ∙ append-nil v.front in
            unfold stacked_output in
            rw (ge→ltb 0 (Chunk.chunk_len self.chunk) (omega (arith, held))) (
              ap some (
                ap₂ (λ k f. roll_up b k f (parent_output (next ++ top) k f) cvs) v.same_key
                  v.holds.same_flags
                ∙ from_stack v.front v.count top next cvs (omega (arith, ap length whole)) w
                ∙ ap (root_output b key flags) (sym whole)))
        | inr left ↦
            unfold stacked_output in
            rw (lt→ltb 0 (Chunk.chunk_len self.chunk) (omega (arith, held)))
              (ap some (with_bytes (top ∷ next ∷ cvs) e left))
      ]
