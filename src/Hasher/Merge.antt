-- ===== src/Hasher/Merge.antt =====
-- `hasher_merge_cv_stack` leaves one value for each one of the number of chunks, and
-- `hasher_push_cv` puts a subtree on top of them.
use blake.Base.{
  ℕ, zero, suc, ◌+◌, ◌-◌, ◌*◌, ◌^◌, ◌≤◌, ◌<◌, ◌≡◌, ◌≢◌, refl, sym, ap, ap₂, ◌∙◌, arith,
}
use blake.Base.{List, [], ◌∷◌, ◌++◌, length, length-append, append_assoc, le-or-gt, inl, inr}
use blake.Base.{some, lt→ltb, ge→ltb}
use blake.Base.Bits.{two-pow-pos, mul-two-pow-add, mul-two-pow-suc}
use blake.Impl.{chunk_len}
use blake.Impl.Integers.{ones}
use blake.Backend.{Backend}
use blake.Merkle.{merkle}
use blake.Merkle.Laws.{merkle-append}
use blake.Output.{chaining_value, parent_output}
use blake.Chunk.Spec.{chunk_output}
use blake.Hasher.{merge_loop}
use blake.Hasher.Stack.{node, Top-onto, Strict, Lazy, Strict-multiple}
use blake.Hasher.Stack.{Strict-ones, Lazy-ones}
use blake.Tree.{leaves, join}
use blake.Tree.Leaves.{leaves-append, length-leaves, length-leaves_le}
use native.Mathlib.Nat.{pow-suc, mul-le-mul_right}

no_odd_multiple : (q z p : ℕ) → 0 < p → 2 * (q * p) + p ≢ 2 * (z * p)
no_odd_multiple q z p h e = elim (le-or-gt z q) [
  | inl le ↦ omega (arith, mul-le-mul_right p le)
  | inr gt ↦ omega (arith, mul-le-mul_right p gt)
]

module _ (b : Backend) (key : List ℕ) (flags : ℕ) where
  -- A number of chunks that `2 ^ k` divides has no subtree below that level.
  pub Strict-raise :
      (k n q : ℕ) (m : List ℕ) (cvs : List (List ℕ))
      → n ≡ q * 2 ^ k
      → Strict b key flags 0 n m cvs
      → Strict b key flags k n m cvs
  Strict-raise k n q m [] e v = v
  Strict-raise k n q m (cv ∷ cvs) e v = elim (le-or-gt k v.level) [
    | inl fits ↦ Top-onto b key flags _ _ _ _ _ _ _ v (fits) (v.rest)
    | inr below ↦
        let l : ℕ = v.level in
        let (q', e') = Strict-multiple b key flags (suc l) v.front v.front_bytes cvs v.rest in
        let s : ℕ = k - suc l in
        let e1 = mul-two-pow-add q s (suc l) in
        let e2 = ap (λ t. q * 2 ^ t) {x = k} {y = k - suc v.level + suc v.level} (omega arith) in
        let e3 = mul-two-pow-suc (q * 2 ^ s) l in
        let e4 = mul-two-pow-suc q' l in
        absurd (no_odd_multiple q' (q * 2 ^ s) (2 ^ l) (two-pow-pos l) (omega (arith, v.count)))
  ]

  -- Two neighbouring subtrees of which the left one is full.
  pub node_join :
      (a n : ℕ) (x y : List ℕ)
      → length x ≡ 2 ^ a * chunk_len
      → 0 < length y
      → parent_output
          (chaining_value b (node b key flags a n x)
            ++ chaining_value b (node b key flags a (n + 2 ^ a) y))
          key
          flags
        ≡ node b key flags (suc a) n (x ++ y)
  node_join a n x y ex pos =
      let none_yet = chunk_output b key flags 0 [] in
      let xs = leaves b key flags n x in
      let ys = leaves b key flags (n + 2 ^ a) y in
      let (p, q) = length-leaves_le b key flags (length y) (n + 2 ^ a) y pos (omega arith) in
      sym (
        ap (merkle (join b key flags) none_yet (suc a)) (leaves-append b key flags (2 ^ a) n x y ex)
        ∙ merkle-append (join b key flags) none_yet a xs ys
            (length-leaves b key flags (2 ^ a) n x ex) p
        ∙ (unfold join in refl))

  -- Two subtrees of the same level on top make one of the next level.
  merge_top :
      (n : ℕ) (m t next : List ℕ) (cvs : List (List ℕ)) (v : Lazy b key flags n m (t ∷ next ∷ cvs))
      → v.rest.level ≡ v.level
      → Lazy b key flags n m (chaining_value b (parent_output (next ++ t) key flags) ∷ cvs)
  merge_top n m t next cvs v e =
      let w = v.rest in
      let a : ℕ = w.level in
      let p = pow-suc 2 w.level in
      let q : 2 ^ v.level ≡ 2 ^ w.level = ap (λ t. 2 ^ t) (sym e) in
      record {
        level = suc w.level;
        front = w.front;
        front_bytes = w.front_bytes;
        bytes = w.bytes ++ v.bytes;
        at_least = omega arith;
        count = omega (arith, v.count, w.count);
        split =
            v.split ∙ ap (λ z. z ++ v.bytes) w.split ∙ append_assoc w.front_bytes w.bytes v.bytes;
        size = omega (arith, length-append w.bytes v.bytes, v.size, w.size);
        value =
            ap₂ (λ x y. chaining_value b (parent_output (x ++ y) key flags)) w.value
              (v.value
                ∙ ap₂ (λ k c. chaining_value b (node b key flags k c v.bytes)) (sym e) w.count)
            ∙ ap (chaining_value b) (
                node_join w.level w.front w.bytes v.bytes w.size
                  (omega (arith, v.size, two-pow-pos v.level)));
        rest = w.rest;
      }

  -- The loop merges what has the same level, and stops at one value for each one of the number.
  pub merge_loop_lem :
      (fuel n : ℕ) (m : List ℕ) (cvs : List (List ℕ))
      → n < 2 ^ 64
      → length cvs ≤ fuel
      → Lazy b key flags n m cvs
      → (cvs' : List (List ℕ)) × (merge_loop b key flags fuel (ones 64 n) cvs ≡ some cvs')
        × Strict b key flags 0 n m cvs'
  unfolding merge_loop
  merge_loop_lem zero n m [] h g v = ([], refl, v)
  merge_loop_lem zero n m (t ∷ cvs) h g v = absurd (omega arith)
  merge_loop_lem (suc fuel) n m [] h g v = ([], refl, v)
  merge_loop_lem (suc fuel) n m (t ∷ []) h g v =
      let s : Strict b key flags 0 n m (t ∷ []) =
        Top-onto b key flags _ _ _ _ _ _ _ v (v.at_least) (v.rest) in
      let e = Strict-ones b key flags 0 n m (t ∷ []) h s in
      (t ∷ [], rw (ge→ltb (ones 64 n) 1 (omega arith)), s)
  merge_loop_lem (suc fuel) n m (t ∷ next ∷ cvs) h g v =
      let w = v.rest in
      elim (le-or-gt w.level v.level) [
        | inr above ↦
            let s : Strict b key flags 0 n m (t ∷ next ∷ cvs) =
              Top-onto b key flags _ _ _ _ _ _ _ v (v.at_least)
                (Top-onto b key flags _ _ _ _ _ _ _ w above w.rest) in
            let e = Strict-ones b key flags 0 n m (t ∷ next ∷ cvs) h s in
            (
              t ∷ next ∷ cvs,
              rw (ge→ltb (ones 64 n) (length (t ∷ next ∷ cvs)) (omega arith), merge_loop),
              s,
            )
        | inl same ↦
            let l : w.level ≡ v.level = omega (arith, w.at_least) in
            let merged = merge_top n m t next cvs v l in
            let top = chaining_value b (parent_output (next ++ t) key flags) in
            let e : ones 64 n ≤ suc (length cvs) = Lazy-ones b key flags n m (top ∷ cvs) h merged in
            let more : ones 64 n < suc (suc (length cvs)) = omega arith in
            let (cvs', f, s) = merge_loop_lem fuel n m (top ∷ cvs) h (omega arith) merged in
            (cvs', rw (lt→ltb (ones 64 n) (length (t ∷ next ∷ cvs)) more, merge_loop) f, s)
      ]
