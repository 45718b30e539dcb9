-- ===== src/Hasher/RollUp.antt =====
-- The end of `blake3_hasher_finalize_seek`: what is left is joined with the stack from the top down,
-- and gives the root of the tree over all the bytes.
use blake.Base.{ℕ, suc, ◌*◌, ◌^◌, ◌≤◌, ◌<◌, ◌≡◌, sym, ap, ap₂, ◌∙◌, arith}
use blake.Base.{List, [], ◌∷◌, ◌++◌, length, length-append, append_assoc}
use blake.Base.Bits.{two-pow_mono}
use blake.Impl.{chunk_len, max_depth}
use blake.Backend.{Backend}
use blake.Merkle.Laws.{merkle-height}
use blake.Output.{chaining_value, parent_output}
use blake.Chunk.Spec.{chunk_output}
use blake.Hasher.{roll_up}
use blake.Hasher.Stack.{node, Strict}
use blake.Hasher.Merge.{node_join}
use blake.Tree.{leaves, join, tree, root_output}
use blake.Tree.Leaves.{length-leaves_le}
use native.Mathlib.Nat.{pow-suc}

module _ (b : Backend) (key : List ℕ) (flags : ℕ) where
  node-height :
      (j k n : ℕ) (y : List ℕ)
      → 0 < length y
      → length y ≤ 2 ^ j * chunk_len
      → j ≤ k
      → node b key flags j n y ≡ node b key flags k n y
  node-height j k n y pos h g =
      let (p, q) = length-leaves_le b key flags (2 ^ j) n y pos h in
      merkle-height (join b key flags) (chunk_output b key flags 0 []) j k (leaves b key flags n y)
        q (omega (arith, two-pow_mono j k g))

  -- `y` follows the bytes of the stack, and is no longer than the smallest subtree there.
  pub roll_up_lem :
      (k n : ℕ) (m y : List ℕ) (cvs : List (List ℕ))
      → 0 < length y
      → length y ≤ 2 ^ k * chunk_len
      → length (m ++ y) < 2 ^ 64
      → Strict b key flags k n m cvs
      → roll_up b key flags (node b key flags k n y) cvs ≡ root_output b key flags (m ++ y)
  unfolding roll_up root_output tree
  roll_up_lem k n m y [] pos h bound v =
      let len = ap (λ t. length (t ++ y)) v.1 in
      let (p, q) = length-leaves_le b key flags (2 ^ k) 0 y pos h in
      let (p', q') = length-leaves_le b key flags (2 ^ 54) 0 y pos (omega arith) in
      ap (λ c. node b key flags k c y) v.0
      ∙ merkle-height (join b key flags) (chunk_output b key flags 0 []) k max_depth
          (leaves b key flags 0 y) q q'
      ∙ ap (λ t. node b key flags max_depth 0 (t ++ y)) (sym v.1)
  roll_up_lem k n m y (cv ∷ cvs) pos h bound v =
      let a : ℕ = v.level in
      let joined =
        ap₂ (λ s o. parent_output (s ++ chaining_value b o) key flags) v.value
          (node-height k v.level n y pos h v.at_least
            ∙ ap (λ c. node b key flags v.level c y) v.count)
        ∙ node_join b key flags v.level v.front v.bytes y v.size pos in
      let la = length-append v.bytes y in
      let p = pow-suc 2 v.level in
      let assoc = ap (λ t. t ++ y) v.split ∙ append_assoc v.front_bytes v.bytes y in
      ap (λ o. roll_up b key flags o cvs) joined
      ∙ roll_up_lem (suc v.level) v.front v.front_bytes (v.bytes ++ y) cvs (omega arith)
          (omega (arith, v.size, two-pow_mono k v.level v.at_least))
          (omega (arith, ap length assoc)) v.rest
      ∙ ap (root_output b key flags) (sym assoc)
