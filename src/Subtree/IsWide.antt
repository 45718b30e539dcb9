-- ===== src/Subtree/IsWide.antt =====
-- Chaining values that stand for the leaves of an input, as `compress_subtree_wide` returns
-- them: as
-- many as there are lanes, or fewer for a short input, and two at least above the chunk level.
use blake.Base.{ℕ, suc, ◌+◌, ◌-◌, ◌*◌, ◌/◌, ◌^◌, ◌≤◌, ◌<◌, max, min, ◌≡◌, ap, ◌∙◌, arith}
use blake.Base.{List, [], ◌∷◌, ◌++◌, map, map_append, length, length-map, u64}
use blake.Base.{length-append, ltb, ◌==◌}
use blake.Base.{le-or-gt, ge→ltb, lt→ltb, inl, inr, ◌&&◌, if◌then◌else◌}
use blake.Base.Bits.{two-pow_mono, two-pow-pos, two-pow-cancel_lt}
use blake.Impl.{chunk_len}
use blake.Impl.Integers.{round_down_lem}
use blake.Backend.{Backend}
use blake.Backend.Lawful.{IsLawful}
use blake.Merkle.Condense.{Condensed, Condensed-refl, Condensed-append}
use blake.Output.{Output, chaining_value}
use blake.Chunk.Spec.{chunk_output}
use blake.Subtree.{left_subtree_len, lanes}
use blake.Subtree.Parents.{AreCvs}
use blake.Tree.{leaves, join_cvs}
use blake.Tree.Leaves.{leaves-append, length-leaves, length-leaves_le}
use native.Mathlib.Nat.{mod-eq_of_lt, pow-suc}

-- For more than one chunk and less than 2^64 bytes the left subtree is a power of two of chunks,
-- less than the whole input and at least half of it in chunks.
pub left_subtree_len_lem :
    (n : ℕ)
    → chunk_len < n
    → n < 2 ^ 64
    → (j : ℕ) × (left_subtree_len n ≡ 2 ^ j * chunk_len)
      × (2 ^ j * chunk_len < n)
      × (n ≤ 2 ^ suc j * chunk_len)
unfolding left_subtree_len
left_subtree_len_lem n h g =
    let full : ℕ = u64 (n + (2 ^ 64 - 1)) / chunk_len in
    let e : u64 (n + (2 ^ 64 - 1)) / 1024 ≡ (n - 1) / 1024 = omega arith in
    let (j, small, rounded, lo, hi) = round_down_lem full (omega arith) in
    (
      j,
      ap (λ r. u64 (r * chunk_len)) rounded ∙ mod-eq_of_lt (omega arith),
      omega arith,
      omega (arith, pow-suc 2 j),
    )

module _ (b : Backend) (lawful : IsLawful b) (key : List ℕ) (flags : ℕ) where
  abbrev pub cvs_of : ℕ → List ℕ → List (List ℕ)
  cvs_of counter input = map (chaining_value b) (leaves b key flags counter input)

  abbrev pub no_cv : List ℕ
  no_cv = chaining_value b (chunk_output b key flags 0 [])

  abbrev pub width : ℕ
  width = max (2 ^ lawful.degree_log) 2

  pub record IsWide (counter : ℕ) (input : List ℕ) (cvs : List (List ℕ)) : Type 0 where
    pub sized : AreCvs cvs
    pub condensed : Condensed (join_cvs b key flags) no_cv (cvs_of counter input) cvs
    pub bounded : length cvs ≤ width
    pub exact : (j : ℕ) → length input ≡ 2 ^ j * chunk_len → length cvs ≡ min (2 ^ j) width

  AreCvs-map : (xs : List Output) → AreCvs (map (chaining_value b) xs)
  AreCvs-map [] = tt
  AreCvs-map (x ∷ xs) = (lawful.cv_length x, AreCvs-map xs)

  -- A short input: the chaining values of its chunks.
  pub chunks-IsWide :
      (counter : ℕ) (input : List ℕ)
      → 0 < length input
      → length input ≤ 2 ^ lawful.degree_log * chunk_len
      → length input < 2 ^ 64
      → IsWide counter input (cvs_of counter input)
  chunks-IsWide counter input pos short small =
      let xs = leaves b key flags counter input in
      let (some_leaf, few) =
        length-leaves_le b key flags (2 ^ lawful.degree_log) counter input pos short in
      let le = length-map (chaining_value b) xs in
      let (p, q) = length-leaves_le b key flags (length input) counter input pos (omega arith) in
      record {
        sized = AreCvs-map xs;
        condensed =
            Condensed-refl (join_cvs b key flags) no_cv (cvs_of counter input) (omega arith)
              (omega arith);
        bounded = omega arith;
        exact = λ j e. omega (arith, length-leaves b key flags (2 ^ j) counter input e);
      }

  -- The number of lanes is how many values the left subtree returns.
  pub lanes_lem :
      (p : ℕ) → 0 < p → 2 ^ lawful.degree_log ≤ p → lanes b key flags (p * chunk_len) ≡ min p width
  unfolding lanes
  lanes_lem p pos h =
      rw lawful.degree (split (2 ^ lawful.degree_log) h (two-pow-pos lawful.degree_log))
    where
      split :
          (d : ℕ)
          → d ≤ p
          → 0 < d
          → (if ltb chunk_len (p * chunk_len) && (d == 1) then 2 else d) ≡ min p (max d 2)
      split d g dpos = elim (le-or-gt (p * chunk_len) chunk_len) [
        | inl one ↦ rw (ge→ltb chunk_len (p * chunk_len) one) (omega arith)
        | inr more ↦ rw (lt→ltb chunk_len (p * chunk_len) more) (ground arith)
      ]

  -- A power of two below both bounds is one of them.
  min-width_log : (j : ℕ) → (i : ℕ) × (min (2 ^ j) width ≡ 2 ^ i)
  min-width_log j = elim (le-or-gt j 1) [
    | inl low ↦ (j, omega (arith, two-pow_mono j 1 low))
    | inr high ↦ elim (le-or-gt j lawful.degree_log) [
      | inl le ↦ (j, omega (arith, two-pow_mono j lawful.degree_log le))
      | inr gt ↦ elim (le-or-gt lawful.degree_log 1) [
        | inl one ↦
            (1, omega (arith, two-pow_mono lawful.degree_log 1 one, two-pow_mono 1 j (omega arith)))
        | inr two ↦ (
          lawful.degree_log,
          omega (
            arith,
            two-pow_mono 1 lawful.degree_log (omega arith),
            two-pow_mono lawful.degree_log j (omega arith),
          ),
        )
      ]
    ]
  ]

  -- The chaining values of the two subtrees, taken together.
  pub both-Condensed :
      (j counter : ℕ) (l r : List ℕ) (ls rs : List (List ℕ))
      → length l ≡ 2 ^ j * chunk_len
      → 0 < length r
      → length r ≤ 2 ^ j * chunk_len
      → IsWide counter l ls
      → IsWide (counter + 2 ^ j) r rs
      → Condensed (join_cvs b key flags) no_cv (cvs_of counter (l ++ r)) (ls ++ rs)
  both-Condensed j counter l r ls rs el pos short vl vr =
      let (i, ei) = min-width_log j in
      let cv = chaining_value b in
      let xl = leaves b key flags counter l in
      let xr = leaves b key flags (counter + 2 ^ j) r in
      let (p, q) = length-leaves_le b key flags (2 ^ j) (counter + 2 ^ j) r pos short in
      rw (leaves-append b key flags (2 ^ j) counter l r el, map_append cv xl xr)
        (Condensed-append (join_cvs b key flags) no_cv j i (map cv xl) (map cv xr) ls rs
          (length-map cv xl ∙ length-leaves b key flags (2 ^ j) counter l el)
          (omega (arith, length-map cv xr)) (vl.exact j el ∙ ei)
          (omega (arith, length-map cv xr, vr.bounded, vr.condensed.shorter)) vl.condensed
          vr.condensed)

  pub AreCvs-append : (xs ys : List (List ℕ)) → AreCvs xs → AreCvs ys → AreCvs (xs ++ ys)
  AreCvs-append [] ys h g = g
  AreCvs-append (x ∷ xs) ys (hx, h) g = (hx, AreCvs-append xs ys h g)

  -- Only an input of two such halves is a power of two of chunks.
  pub exact_half :
      (j k : ℕ) (l r : List ℕ)
      → length l ≡ 2 ^ j * chunk_len
      → 0 < length r
      → length r ≤ 2 ^ j * chunk_len
      → length (l ++ r) ≡ 2 ^ k * chunk_len
      → (2 ^ k ≡ 2 ^ suc j) × (length r ≡ 2 ^ j * chunk_len)
  exact_half j k l r el pos short e =
      let la = length-append l r in
      let above = two-pow-cancel_lt j k (omega arith) in
      let up = two-pow_mono (suc j) k (omega arith) in
      let s = pow-suc 2 j in (omega arith, omega arith)
