-- ===== src/Zrf/Runs.antt =====
-- What `z_run` finds, and where the literals of `z_rle` end.
use blake.Base.{ℕ, zero, suc, ◌+◌, ◌-◌, ◌≤◌, ◌<◌, ◌≡◌, ap, ap₂, ◌∙◌, arith, List, [], ◌∷◌, ◌++◌}
use blake.Base.{false, ◌&&◌, ◌||◌, ltb, leb, ◌==◌, Bool-cases, inl, inr}
use blake.Base.{length, take, drop, replicate, get_or-drop, take-suc, replicate-suc, length-drop}
use blake.Impl.{at}
use blake.Zrf.{run_loop, run, literal_loop, literal_end}

-- `m` equal bytes from `pos` on.
pub record IsRun (src : List ℕ) (n pos m : ℕ) : Type 0 where
  pub positive : 1 ≤ m
  pub bounded : m ≤ 130
  pub inside : pos + m ≤ n
  pub equal : take m (drop pos src) ≡ replicate m (at src pos)

run_loop-IsRun :
    (fuel : ℕ) (src : List ℕ) (n pos m : ℕ)
    → length src ≡ n
    → IsRun src n pos m
    → IsRun src n pos (run_loop fuel src n pos m)
unfolding run_loop
run_loop-IsRun zero src n pos m size v = v
run_loop-IsRun (suc fuel) src n pos m size v =
    elim (Bool-cases (ltb m 130 && ltb (pos + m) n && (at src (pos + m) == at src pos))) [
      | inr stop ↦ rw (stop, run_loop) v
      | inl go ↦
          let below : m < 130 = ground arith in
          let inside : pos + m < n = ground arith in
          let same : at src (pos + m) ≡ at src pos = ground arith in
          rw (go, run_loop)
            (run_loop-IsRun fuel src n pos (m + 1) size (record {
              positive = omega arith;
              bounded = omega arith;
              inside = omega arith;
              equal =
                  take-suc m (drop pos src) 0 (omega (arith, length-drop pos src))
                  ∙ ap₂ (λ xs x. xs ++ (x ∷ [])) v.equal (get_or-drop pos m src 0 ∙ same)
                  ∙ replicate-suc m (at src pos);
            }))
    ]

pub run-IsRun :
    (src : List ℕ) (n pos : ℕ) → length src ≡ n → pos < n → IsRun src n pos (run src n pos)
unfolding run
run-IsRun src n pos size h = run_loop-IsRun 129 src n pos 1 size (record {
  positive = omega arith;
  bounded = omega arith;
  inside = omega arith;
  equal =
      take-suc 0 (drop pos src) 0 (omega (arith, length-drop pos src))
      ∙ ap (λ (x : ℕ). x ∷ [])
          (get_or-drop pos 0 src 0 ∙ ap (at src) {x = pos + 0} {y = pos} (omega arith));
})

-- The literals from `s` on: 1 to 128 bytes.
pub record IsLiteral (n s e : ℕ) : Type 0 where
  pub some_bytes : s < e
  pub fits : e ≤ s + 128
  pub inside : e ≤ n

-- The run that is taken too keeps within 128 bytes.
taken_fits : (s i m : ℕ) → s < i → (leb 4 m || ltb 128 (i - s + m)) ≡ false → i + m ≤ s + 128
taken_fits s i m h e = ground arith

literal_loop-IsLiteral :
    (fuel : ℕ) (src : List ℕ) (n s i : ℕ)
    → length src ≡ n
    → IsLiteral n s i
    → IsLiteral n s (literal_loop fuel src n s i)
unfolding literal_loop
literal_loop-IsLiteral zero src n s i size v = v
literal_loop-IsLiteral (suc fuel) src n s i size v =
    elim (Bool-cases (ltb i n && ltb (i - s) 128)) [
      | inr stop ↦ rw (stop, literal_loop) v
      | inl go ↦
          let w = run-IsRun src n i size (ground arith) in
          elim (Bool-cases (leb 4 (run src n i) || ltb 128 (i - s + run src n i))) [
            | inl break ↦ rw (go, break, literal_loop) v
            | inr on ↦
                rw (go, on, literal_loop)
                  (literal_loop-IsLiteral fuel src n s (i + run src n i) size (record {
                    some_bytes = omega (arith, v);
                    fits = taken_fits s i (run src n i) v.some_bytes on;
                    inside = omega (arith, w);
                  }))
          ]
    ]

pub literal_end-IsLiteral :
    (src : List ℕ) (n s : ℕ)
    → length src ≡ n
    → s < n
    → leb 4 (run src n s) ≡ false
    → IsLiteral n s (literal_end src n s)
unfolding literal_end
literal_end-IsLiteral src n s size h few =
    let w = run-IsRun src n s size h in
    literal_loop-IsLiteral n src n s (s + run src n s) size (record {
      some_bytes = omega (arith, w);
      fits = omega (arith, w, w.bounded, short (run src n s) few);
      inside = omega (arith, w);
    })
  where
    short : (m : ℕ) → leb 4 m ≡ false → m ≤ 3
    short m e = ground arith
