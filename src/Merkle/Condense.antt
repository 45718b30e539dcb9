-- ===== src/Merkle/Condense.antt =====
-- Nodes that stand for more nodes: fewer of them, with the same root above them and the same two
-- children of the root. The subtree hashing replaces leaves by such nodes.
use blake.Base.{ℕ, zero, suc, ◌-◌, ◌^◌, ◌≤◌, ◌<◌, ◌≡◌, refl, sym, ◌∙◌, arith}
use blake.Base.{List, ◌++◌, length, take, drop, length-append}
use blake.Merkle.{merkle, pairs}
use blake.Merkle.Laws.{merkle-height, merkle-fits}
use blake.Merkle.Pairs.{length-pairs, merkle-pairs}
use blake.Merkle.Halves.{Halves, Halves-append, merkle-Halves, Halves-pairs}
use blake.Impl.Integers.{round_down_lem}
use native.Mathlib.Nat.{pow-suc}

module _ {A : Type 0} (par : A → A → A) (d : A) where
  pub record Condensed (xs ys : List A) : Type 0 where
    pub nonempty : 0 < length ys
    pub shorter : length ys ≤ length xs
    pub root : (k : ℕ) → length xs ≤ 2 ^ k → merkle par d k ys ≡ merkle par d k xs
    pub halves : 1 < length xs → (l r : A) × Halves par d xs l r × Halves par d ys l r

  pub some-Halves :
      (xs : List A) → 1 < length xs → length xs < 2 ^ 64 → (l r : A) × Halves par d xs l r
  some-Halves xs h g =
      let (k, small, e, lo, hi) = round_down_lem (length xs - 1) (omega arith) in
      (
        merkle par d k (take (2 ^ k) xs),
        merkle par d k (drop (2 ^ k) xs),
        record {
          level = k;
          above = omega arith;
          below = omega (arith, pow-suc 2 k);
          left = refl;
          right = refl;
        },
      )

  pub Condensed-refl : (xs : List A) → 0 < length xs → length xs < 2 ^ 64 → Condensed xs xs
  Condensed-refl xs h g = record {
    nonempty = h;
    shorter = omega arith;
    root = λ k e. refl;
    halves = λ more. let (l, r, v) = some-Halves xs more g in (l, r, v, v);
  }

  pub Condensed-append :
      (j i : ℕ) (xl xr yl yr : List A)
      → length xl ≡ 2 ^ j
      → length xr ≤ 2 ^ j
      → length yl ≡ 2 ^ i
      → length yr ≤ 2 ^ i
      → Condensed xl yl
      → Condensed xr yr
      → Condensed (xl ++ xr) (yl ++ yr)
  Condensed-append j i xl xr yl yr ex bx ey by vl vr =
      let hx = Halves-append par d j xl xr ex (omega (arith, vr.nonempty, vr.shorter)) bx in
      let hy = Halves-append par d i yl yr ey vr.nonempty by in
      let el =
        merkle-height par d i j yl (omega arith) (omega (arith, vl.shorter))
        ∙ vl.root j (omega arith) in
      let er = merkle-height par d i j yr by (omega (arith, vr.shorter)) ∙ vr.root j bx in
      let lx = length-append xl xr in
      let ly = length-append yl yr in
      let hy' : Halves par d (yl ++ yr) (merkle par d j xl) (merkle par d j xr) =
        rw (← el, ← er) hy in
      record {
        nonempty = omega (arith, vr.nonempty);
        shorter = omega (arith, vl.shorter, vr.shorter);
        root = λ k h.
            merkle-Halves par d k (yl ++ yr) _ _ hy' (omega (arith, vl.shorter, vr.shorter))
            ∙ sym (merkle-Halves par d k (xl ++ xr) _ _ hx h);
        halves = λ more. (merkle par d j xl, merkle par d j xr, hx, hy');
      }

  merkle-pairs_fits :
      (k : ℕ) (ys : List A)
      → 2 < length ys
      → length ys ≤ 2 ^ k
      → merkle par d k (pairs par ys) ≡ merkle par d k ys
  merkle-pairs_fits zero ys h g = absurd (omega arith)
  merkle-pairs_fits (suc k) ys h g =
      merkle-fits par d k (pairs par ys) (omega (arith, length-pairs par ys, pow-suc 2 k))
      ∙ merkle-pairs par d k ys g

  pub Condensed-pairs :
      (xs ys : List A) → 2 < length ys → Condensed xs ys → Condensed xs (pairs par ys)
  Condensed-pairs xs ys h v = record {
    nonempty = omega (arith, length-pairs par ys);
    shorter = omega (arith, length-pairs par ys, v.shorter);
    root = λ k e. merkle-pairs_fits k ys h (omega (arith, v.shorter)) ∙ v.root k e;
    halves =
        λ more. let (l, r, hx, hy) = v.halves more in (l, r, hx, Halves-pairs par d ys l r h hy);
  }
