-- ===== src/Hasher/PushSubtree.antt =====
-- The body of the update loop: a whole subtree goes on the stack, as one value or as two.
use blake.Base.{ℕ, zero, suc, ◌+◌, ◌*◌, ◌/◌, ◌^◌, ◌≤◌, ◌<◌, ◌≡◌, refl, sym, ap, ap₂, ◌∙◌, arith}
use blake.Base.{List, [], ◌∷◌, ◌++◌, length, take, drop}
use blake.Base.{take-append-drop, length-take, length-drop}
use blake.Base.{some, ◌>>=◌, le→leb, gt→leb, u64}
use blake.Base.Bits.{two-pow-pos}
use blake.Impl.{chunk_len}
use blake.Backend.{Backend}
use blake.Backend.Lawful.{IsLawful}
use blake.Output.{chaining_value}
use blake.Chunk.{output}
use blake.Hasher.{Hasher, push_cv, push_pair, push_subtree}
use blake.Hasher.Stack.{node, Strict, Lazy}
use blake.Subtree.{partial_chunk, compress_subtree_to_parent_node}
use blake.Subtree.Chunks.{partial_chunk-output}
use blake.Subtree.ParentNode.{compress_subtree_to_parent_node_halves}
use blake.Tree.Leaves.{leaves-short}
use native.Mathlib.Nat.{pow-suc, mod-eq_of_lt}
use mathlib.Core.Path.{subst}
use blake.Hasher.Push.{with_stack, push_cv_lem, pushed, push_pair_lem}
use blake.Merkle.{merkle}
use blake.Chunk.Spec.{chunk_output}
use blake.Tree.{join}

module _ (b : Backend) (lawful : IsLawful b) (key : List ℕ) (flags : ℕ) where
  one_chunk :
      (self : Hasher) (n : ℕ) (x : List ℕ)
      → self.key ≡ key
      → self.chunk.flags ≡ flags
      → self.chunk.chunk_counter ≡ n
      → 0 < length x
      → length x ≤ chunk_len
      → push_subtree b self x ≡ push_cv b self (chaining_value b (node b key flags 0 n x)) n
  unfolding push_subtree
  one_chunk self n x ek ef en pos short = rw (le→leb (length x) 1024 short) (
      ap₂
        (λ k f.
          push_cv b self
            (chaining_value b (output (partial_chunk b k f x self.chunk.chunk_counter)))
            self.chunk.chunk_counter)
        ek ef
      ∙ ap (λ c. push_cv b self (chaining_value b (output (partial_chunk b key flags x c))) c) en
      ∙ ap (λ o. push_cv b self (chaining_value b o) n)
          (partial_chunk-output b lawful key flags x n short
            ∙ (unfold merkle in
                ap (merkle (join b key flags) (chunk_output b key flags 0 []) 0)
                  (sym (leaves-short b key flags n x pos short)))))

  two_children :
      (self : Hasher) (a n : ℕ) (x : List ℕ)
      → self.key ≡ key
      → self.chunk.flags ≡ flags
      → self.chunk.chunk_counter ≡ n
      → length x ≡ 2 ^ suc a * chunk_len
      → n + 2 ^ a < 2 ^ 64
      → n + length x < 2 ^ 64
      → let k : ℕ = 2 ^ a * chunk_len in
        push_subtree b self x
        ≡ push_pair b self (n + 2 ^ a) (
            chaining_value b (node b key flags a n (take k x))
            ++ chaining_value b (node b key flags a (n + 2 ^ a) (drop k x)))
  unfolding push_subtree
  two_children self a n x ek ef en ex small bound =
      let k : ℕ = 2 ^ a * chunk_len in
      let p = pow-suc 2 a in
      let big = two-pow-pos a in
      let whole = take-append-drop k x in
      let size = ap length whole in
      let chunks : length x / 1024 / 2 ≡ 2 ^ a = omega arith in
      rw (gt→leb (length x) 1024 (omega arith)) (
        ap₂
          (λ k f.
            compress_subtree_to_parent_node b k f x self.chunk.chunk_counter
            >>= push_pair b self (u64 (self.chunk.chunk_counter + length x / chunk_len / 2)))
          ek ef
        ∙ ap
            (λ c.
              compress_subtree_to_parent_node b key flags x c
              >>= push_pair b self (u64 (c + length x / chunk_len / 2)))
            en
        ∙ ap
            (λ c.
              compress_subtree_to_parent_node b key flags x n >>= push_pair b self (u64 (n + c)))
            chunks
        ∙ ap (λ c. compress_subtree_to_parent_node b key flags x n >>= push_pair b self c)
            (mod-eq_of_lt small)
        ∙ ap (λ o. o >>= push_pair b self (n + 2 ^ a))
            (ap (λ t. compress_subtree_to_parent_node b key flags t n) (sym whole)
              ∙ compress_subtree_to_parent_node_halves b lawful key flags a n (take k x) (drop k x)
                  (omega (arith, length-take k x)) (omega (arith, length-drop k x))
                  (omega (arith, length-drop k x)) (omega (arith, size))))

  -- The body of the update loop puts a subtree of `2 ^ a` chunks on the stack.
  pub push_subtree_lem :
      (self : Hasher) (a n q : ℕ) (m x : List ℕ)
      → self.key ≡ key
      → self.chunk.flags ≡ flags
      → self.chunk.chunk_counter ≡ n
      → n + 2 ^ a < 2 ^ 54 + 1
      → n < 2 ^ 54
      → n ≡ q * 2 ^ a
      → length x ≡ 2 ^ a * chunk_len
      → n + length x < 2 ^ 64
      → Lazy b key flags n m self.cv_stack
      → (cvs : List (List ℕ)) × (push_subtree b self x ≡ some (with_stack self cvs))
        × Lazy b key flags (n + 2 ^ a) (m ++ x) cvs
        × (0 < a → 1 < length cvs)
  push_subtree_lem self zero n q m x ek ef en small h e ex bound v =
      let cv = chaining_value b (node b key flags 0 n x) in
      let (cvs, f, s) = push_cv_lem b key flags self cv 0 n q m ek ef h e v in
      (
        cv ∷ cvs,
        one_chunk self n x ek ef en (omega arith) (omega arith) ∙ f,
        pushed b key flags 0 0 n m x cv (λ k c bytes. Strict b key flags k c bytes cvs)
            (omega arith) ex refl s,
        λ p. absurd (omega arith),
      )
  push_subtree_lem self (suc a) n q m x ek ef en small h e ex bound v =
      let p = pow-suc 2 a in
      let k : ℕ = 2 ^ a * chunk_len in
      let l = take k x in
      let r = drop k x in
      let el : length (take (2 ^ a * chunk_len) x) ≡ 2 ^ a * chunk_len =
        omega (arith, length-take k x) in
      let er : length (drop (2 ^ a * chunk_len) x) ≡ 2 ^ a * chunk_len =
        omega (arith, length-drop k x) in
      let (cvs, f, w, two) =
        push_pair_lem b key flags self a n q m l r (chaining_value b (node b key flags a n l))
          (chaining_value b (node b key flags a (n + 2 ^ a) r)) ek ef en
          (omega (arith, two-pow-pos a)) e el er (lawful.cv_length (node b key flags a n l)) refl
          refl v in
      (
        cvs,
        two_children self a n x ek ef en ex (omega (arith, two-pow-pos a)) bound ∙ f,
        subst (λ t. Lazy b key flags (n + 2 ^ suc a) (m ++ t) cvs) (take-append-drop k x) w,
        λ pos. two,
      )
