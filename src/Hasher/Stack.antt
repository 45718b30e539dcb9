-- ===== src/Hasher/Stack.antt =====
-- What the chaining values on the stack stand for: the input so far, in whole subtrees that get
-- larger from the top down.
use blake.Base.{ℕ, suc, ◌+◌, ◌-◌, ◌*◌, ◌^◌, ◌≤◌, ◌<◌, ◌≡◌, sym, ap, ◌∙◌, arith}
use blake.Base.{List, [], ◌∷◌, ◌++◌, length}
use blake.Base.Bits.{two-pow-cancel_lt, mul-two-pow-add, mul-two-pow-suc}
use blake.Impl.{chunk_len}
use blake.Impl.Integers.{ones, ones-zero}
use blake.Impl.Ones.{ones-lowest, ones-add_two-pow}
use blake.Backend.{Backend}
use blake.Merkle.{merkle}
use blake.Output.{Output, chaining_value}
use blake.Chunk.Spec.{chunk_output}
use blake.Tree.{leaves, join}

module _ (b : Backend) (key : List ℕ) (flags : ℕ) where
  -- The root of the subtree over the bytes `x`, whose first chunk has the number `n`.
  abbrev pub node : ℕ → ℕ → List ℕ → Output
  node a n x = merkle (join b key flags) (chunk_output b key flags 0 []) a (leaves b key flags n x)

  -- The bytes `m` of `n` chunks end with a subtree of `2 ^ level` chunks that has the value `cv`.
  pub record Top (k n : ℕ) (m cv : List ℕ) (below : ℕ → ℕ → List ℕ → Type 0) : Type 0 where
    pub level : ℕ
    pub front : ℕ
    pub front_bytes : List ℕ
    pub bytes : List ℕ
    pub at_least : k ≤ level
    pub count : n ≡ front + 2 ^ level
    pub split : m ≡ front_bytes ++ bytes
    pub size : length bytes ≡ 2 ^ level * chunk_len
    pub value : cv ≡ chaining_value b (node level front bytes)
    pub rest : below level front front_bytes

  -- The subtrees have levels from `k` on, each one less than the next below it.
  abbrev pub Strict : ℕ → ℕ → List ℕ → List (List ℕ) → Type 0
  Strict k n m [] = (n ≡ 0) × (m ≡ [])
  Strict k n m (cv ∷ cvs) = Top k n m cv (λ a front bytes. Strict (suc a) front bytes cvs)

  -- As between updates: the two on top may have the same level.
  abbrev pub Lazy : ℕ → List ℕ → List (List ℕ) → Type 0
  Lazy n m [] = (n ≡ 0) × (m ≡ [])
  Lazy n m (cv ∷ cvs) = Top 0 n m cv (λ a front bytes. Strict a front bytes cvs)

  -- The same subtree on top of something else that is known of what is below it.
  pub Top-onto :
      (k j n : ℕ) (m cv : List ℕ) (below below' : ℕ → ℕ → List ℕ → Type 0) (v : Top k n m cv below)
      → j ≤ v.level
      → below' v.level v.front v.front_bytes
      → Top j n m cv below'
  Top-onto k j n m cv below below' v h w = record {
    level = v.level;
    front = v.front;
    front_bytes = v.front_bytes;
    bytes = v.bytes;
    at_least = h;
    count = v.count;
    split = v.split;
    size = v.size;
    value = v.value;
    rest = w;
  }

  pub Strict-lower :
      (j k n : ℕ) (m : List ℕ) (cvs : List (List ℕ)) → j ≤ k → Strict k n m cvs → Strict j n m cvs
  Strict-lower j k n m [] h v = v
  Strict-lower j k n m (cv ∷ cvs) h v =
      Top-onto _ _ n m cv _ _ v (omega (arith, v.at_least)) (v.rest)

  pub Strict-Lazy : (n : ℕ) (m : List ℕ) (cvs : List (List ℕ)) → Strict 0 n m cvs → Lazy n m cvs
  Strict-Lazy n m [] v = v
  Strict-Lazy n m (cv ∷ cvs) v =
      Top-onto _ _ n m cv _ _ v (v.at_least)
        (Strict-lower v.level (suc v.level) v.front v.front_bytes cvs (omega arith) v.rest)

  pub Strict-multiple :
      (k n : ℕ) (m : List ℕ) (cvs : List (List ℕ)) → Strict k n m cvs → (q : ℕ) × (n ≡ q * 2 ^ k)
  Strict-multiple k n m [] v = (0, omega (arith, v.0))
  Strict-multiple k n m (cv ∷ cvs) v =
      let (q, e) = Strict-multiple (suc v.level) v.front v.front_bytes cvs v.rest in
      let s : ℕ = v.level - k in
      let e1 = mul-two-pow-add (2 * q + 1) s k in
      let e2 =
        ap (λ t. (2 * q + 1) * 2 ^ t) {x = v.level} {y = v.level - k + k}
          (omega (arith, v.at_least)) in
      let e3 = mul-two-pow-suc q v.level in ((2 * q + 1) * 2 ^ s, omega (arith, v.count))

  -- One value for each one of the number of chunks.
  pub Strict-ones :
      (k n : ℕ) (m : List ℕ) (cvs : List (List ℕ))
      → n < 2 ^ 64
      → Strict k n m cvs
      → length cvs ≡ ones 64 n
  Strict-ones k n m [] h v = sym (ap (ones 64) v.0 ∙ ones-zero 64)
  Strict-ones k n m (cv ∷ cvs) h v =
      let (q, e) = Strict-multiple (suc v.level) v.front v.front_bytes cvs v.rest in
      let small = two-pow-cancel_lt v.level 64 (omega (arith, v.count)) in
      let below =
        Strict-ones (suc v.level) v.front v.front_bytes cvs (omega (arith, v.count)) v.rest in
      let total : n ≡ q * 2 ^ suc v.level + 2 ^ v.level = omega (arith, v.count) in
      omega (
        arith,
        ones-lowest 64 v.level q small,
        ap (λ (t : ℕ). ones 64 t) e,
        ap (λ (t : ℕ). ones 64 t) total,
      )

  pub Lazy-ones :
      (n : ℕ) (m : List ℕ) (cvs : List (List ℕ))
      → n < 2 ^ 64
      → Lazy n m cvs
      → ones 64 n ≤ length cvs
  Lazy-ones n m [] h v = omega (arith, ap (ones 64) v.0, ones-zero 64)
  Lazy-ones n m (cv ∷ cvs) h v =
      let e = Strict-ones v.level v.front v.front_bytes cvs (omega (arith, v.count)) v.rest in
      omega (arith, ones-add_two-pow 64 v.level v.front, ap (λ (t : ℕ). ones 64 t) v.count)
