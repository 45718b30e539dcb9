-- ===== src/Subtree/Wide.antt =====
-- `compress_subtree_wide` returns chaining values that stand for the leaves of its input, with no
-- gap in an array and no array too short.
use blake.Base.{ℕ, zero, suc, ◌+◌, ◌*◌, ◌/◌, ◌^◌, ◌≤◌, ◌<◌, ◌≡◌, sym, ap, ◌∙◌, arith}
use blake.Base.{List, ◌++◌, length, length-map, take, drop, u64}
use blake.Base.{length-take, length-drop, length-append, take-append-drop, take_all}
use blake.Base.{le→leb, gt→leb, le-or-gt, eq-or-ne, ==_iff, inl, inr, some}
use blake.Base.Bits.{two-pow_mono, two-pow-pos, two-pow-cancel_lt}
use blake.Impl.{chunk_len}
use blake.Backend.{Backend}
use blake.Backend.Lawful.{IsLawful}
use blake.Merkle.{pairs}
use blake.Merkle.Pairs.{length-pairs}
use blake.Merkle.Condense.{Condensed-pairs}
use blake.Output.{chaining_value}
use blake.Subtree.{left_subtree_len, merge_wide, lanes, compress_subtree_wide}
use blake.Subtree.Chunks.{compress_chunks_parallel_lem}
use blake.Subtree.Parents.{compress_parents_parallel_lem, pairs-AreCvs}
use blake.Tree.{leaves, join_cvs}
use blake.Tree.Leaves.{length-leaves_le}
use native.Mathlib.Nat.{pow-suc}
use mathlib.Core.Path.{subst}
use blake.Subtree.IsWide.{left_subtree_len_lem, cvs_of, no_cv, width, IsWide}
use blake.Subtree.IsWide.{chunks-IsWide, lanes_lem, both-Condensed, AreCvs-append, exact_half}

module _ (b : Backend) (lawful : IsLawful b) (key : List ℕ) (flags : ℕ) where
  merge_wide-IsWide :
      (j counter : ℕ) (l r : List ℕ) (ls rs : List (List ℕ))
      → length l ≡ 2 ^ j * chunk_len
      → 0 < length r
      → length r ≤ 2 ^ j * chunk_len
      → 2 ^ lawful.degree_log ≤ 2 ^ j
      → IsWide b lawful key flags counter l ls
      → IsWide b lawful key flags (counter + 2 ^ j) r rs
      → (cvs : List (List ℕ)) × (merge_wide b key flags (lanes b key flags (length l)) ls rs
          ≡ some cvs)
        × IsWide b lawful key flags counter (l ++ r) cvs
  unfolding merge_wide
  merge_wide-IsWide j counter l r ls rs el pos short deep vl vr =
      let both = both-Condensed b lawful key flags j counter l r ls rs el pos short vl vr in
      let sized = AreCvs-append b lawful key flags ls rs vl.sized vr.sized in
      let n = vl.exact j el in
      let la = length-append ls rs in
      let w : ℕ = width b lawful key flags in
      let degree : length ls ≡ lanes b key flags (length l) =
        n
        ∙ sym (lanes_lem b lawful key flags (2 ^ j) (two-pow-pos j) deep)
        ∙ ap (lanes b key flags) (sym el) in
      let same = (==_iff (length ls) (lanes b key flags (length l))).1 degree in
      let half = exact_half b lawful key flags j in
      let up = pow-suc 2 j in
      let bound = two-pow_mono lawful.degree_log 4 lawful.degree_bound in
      elim (eq-or-ne (length ls) 1) [
        | inl one ↦
            let (p, q) = length-leaves_le b key flags (2 ^ j) (counter + 2 ^ j) r pos short in
            let single : length rs ≤ 1 = omega (
              arith,
              vr.condensed.shorter,
              length-map (chaining_value b) (leaves b key flags (counter + 2 ^ j) r),
            ) in
            (
              ls ++ rs,
              rw (
                same,
                le→leb (length (ls ++ rs)) 32 (omega arith),
                (==_iff (length ls) 1).1 one,
                le→leb 2 (length (ls ++ rs)) (omega (arith, vr.condensed.nonempty)),
                take_all 2 (ls ++ rs) (omega arith),
              ),
              record {
                sized = sized;
                condensed = both;
                bounded = omega arith;
                exact = λ k e.
                    let (h, g) = half k l r el pos short e in omega (arith, vr.condensed.nonempty);
              },
            )
        | inr more ↦
            let many : 1 < length ls = ground (arith, vl.condensed.nonempty) in
            let few : length (ls ++ rs) ≤ 32 = omega (arith, vl.bounded, vr.bounded) in
            let lp = length-pairs (join_cvs b key flags) (ls ++ rs) in
            (
              pairs (join_cvs b key flags) (ls ++ rs),
              rw (same, le→leb (length (ls ++ rs)) 32 few, more)
                  (compress_parents_parallel_lem b lawful key flags (ls ++ rs) sized few),
              record {
                sized = pairs-AreCvs b lawful key flags (ls ++ rs) sized;
                condensed =
                    Condensed-pairs (join_cvs b key flags) (no_cv b lawful key flags)
                      (cvs_of b lawful key flags counter (l ++ r)) (ls ++ rs)
                      (omega (arith, vr.condensed.nonempty)) both;
                bounded = omega (arith, vl.bounded, vr.bounded);
                exact =
                    λ k e. let (h, g) = half k l r el pos short e in omega (arith, vr.exact j g);
              },
            )
      ]

  short_input :
      (fuel counter : ℕ) (input : List ℕ)
      → length input ≤ 2 ^ lawful.degree_log * chunk_len
      → counter + length input < 2 ^ 64
      → compress_subtree_wide b key flags (suc fuel) input counter
        ≡ some (cvs_of b lawful key flags counter input)
  unfolding compress_subtree_wide
  short_input fuel counter input h bound =
      rw
        (
          le→leb (length input) (b.simd_degree * chunk_len) (rw lawful.degree h),
          compress_subtree_wide,
        )
        (compress_chunks_parallel_lem b lawful key flags input counter
          (omega (arith, two-pow_mono lawful.degree_log 4 lawful.degree_bound)) bound)

  long_input :
      (fuel counter j : ℕ) (input : List ℕ) (ls rs cvs : List (List ℕ))
      → 2 ^ lawful.degree_log * chunk_len < length input
      → left_subtree_len (length input) ≡ 2 ^ j * chunk_len
      → counter + 2 ^ j < 2 ^ 64
      → compress_subtree_wide b key flags fuel (take (2 ^ j * chunk_len) input) counter ≡ some ls
      → compress_subtree_wide b key flags fuel (drop (2 ^ j * chunk_len) input) (counter + 2 ^ j)
        ≡ some rs
      → merge_wide b key flags (lanes b key flags (2 ^ j * chunk_len)) ls rs ≡ some cvs
      → compress_subtree_wide b key flags (suc fuel) input counter ≡ some cvs
  unfolding compress_subtree_wide
  long_input fuel counter j input ls rs cvs h e bound el er em =
      let c : u64 (counter + 2 ^ j * chunk_len / chunk_len) ≡ counter + 2 ^ j = omega arith in
      rw
        (
          gt→leb (length input) (b.simd_degree * chunk_len) (rw lawful.degree h),
          compress_subtree_wide,
          e,
          c,
          el,
          er,
        )
        em

  abbrev Returns : ℕ → ℕ → List ℕ → Type 0
  Returns fuel counter input =
      (cvs : List (List ℕ)) × (compress_subtree_wide b key flags fuel input counter ≡ some cvs)
      × IsWide b lawful key flags counter input cvs

  short_Returns :
      (fuel counter : ℕ) (input : List ℕ)
      → 0 < length input
      → length input ≤ 2 ^ lawful.degree_log * chunk_len
      → counter + length input < 2 ^ 64
      → Returns (suc fuel) counter input
  short_Returns fuel counter input pos short bound = (
    cvs_of b lawful key flags counter input,
    short_input fuel counter input short bound,
    chunks-IsWide b lawful key flags counter input pos short (omega arith),
  )

  in_halves :
      (fuel counter : ℕ) (input : List ℕ)
      → ((counter : ℕ) (input : List ℕ)
          → 0 < length input
          → length input ≤ 2 ^ fuel * chunk_len
          → counter + length input < 2 ^ 64
          → Returns (suc fuel) counter input)
      → length input ≤ 2 ^ suc fuel * chunk_len
      → counter + length input < 2 ^ 64
      → 2 ^ lawful.degree_log * chunk_len < length input
      → Returns (suc (suc fuel)) counter input
  in_halves fuel counter input ih deep bound long =
      let (j, e, lo, hi) =
        left_subtree_len_lem (length input) (omega (arith, two-pow-pos lawful.degree_log))
          (omega arith) in
      let n : ℕ = 2 ^ j * chunk_len in
      let up = pow-suc 2 j in
      let el : length (take (2 ^ j * chunk_len) input) ≡ 2 ^ j * chunk_len =
        omega (arith, length-take n input) in
      let er = length-drop n input in
      let low = two-pow_mono j fuel (omega (arith, two-pow-cancel_lt j (suc fuel) (omega arith))) in
      let deeper =
        two-pow_mono lawful.degree_log j
          (omega (arith, two-pow-cancel_lt lawful.degree_log (suc j) (omega arith))) in
      let (ls, fl, vl) =
        ih counter (take n input) (omega (arith, two-pow-pos j)) (omega arith) (omega arith) in
      let (rs, fr, vr) =
        ih (counter + 2 ^ j) (drop n input) (omega arith) (omega arith) (omega arith) in
      let (cvs, fm, v) =
        merge_wide-IsWide j counter (take n input) (drop n input) ls rs el (omega arith)
          (omega arith) deeper vl vr in
      (
        cvs,
        long_input (suc fuel) counter j input ls rs cvs long e (omega arith) fl fr
            (ap (λ m. merge_wide b key flags (lanes b key flags m) ls rs) (sym el) ∙ fm),
        subst (λ t. IsWide b lawful key flags counter t cvs) (take-append-drop n input) v,
      )

  -- A call of depth `fuel` is enough for 2 ^ fuel chunks, and returns chaining values that stand
  -- for the leaves.
  pub compress_subtree_wide_lem :
      (fuel counter : ℕ) (input : List ℕ)
      → 0 < length input
      → length input ≤ 2 ^ fuel * chunk_len
      → counter + length input < 2 ^ 64
      → (cvs : List (List ℕ)) × (compress_subtree_wide b key flags (suc fuel) input counter
          ≡ some cvs)
        × IsWide b lawful key flags counter input cvs
  compress_subtree_wide_lem zero counter input pos deep bound =
      short_Returns zero counter input pos (omega (arith, two-pow-pos lawful.degree_log)) bound
  compress_subtree_wide_lem (suc fuel) counter input pos deep bound =
      elim (le-or-gt (length input) (2 ^ lawful.degree_log * chunk_len)) [
        | inl short ↦ short_Returns (suc fuel) counter input pos short bound
        | inr long ↦ in_halves fuel counter input (compress_subtree_wide_lem fuel) deep bound long
      ]
