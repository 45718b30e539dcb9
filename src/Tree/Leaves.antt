-- ===== src/Tree/Leaves.antt =====
-- The leaves of an input that is laid together from whole chunks and a rest.
use blake.Base.{ℕ, zero, suc, ◌+◌, ◌-◌, ◌*◌, ◌/◌, ◌≤◌, ◌<◌, ◌≡◌, refl, sym, ap, ap₂, ◌∙◌, arith}
use blake.Base.{List, [], ◌∷◌, ◌++◌, length, take, drop, length-append, length-take, length-drop}
use blake.Base.{
  take-append-drop, take-append_exact, drop-append_exact, take_all, drop_all, append_assoc,
}
use blake.Impl.{chunk_len}
use blake.Backend.{Backend}
use blake.Chunk.Spec.{chunk_output}
use blake.Tree.{pieces_from, pieces, outputs, leaves}

pieces_from-fuel :
    (n k : ℕ) (m : List ℕ) → length m ≤ n → length m ≤ k → pieces_from n m ≡ pieces_from k m
unfolding pieces_from
pieces_from-fuel zero zero m h g = refl
pieces_from-fuel zero (suc k) [] h g = refl
pieces_from-fuel zero (suc k) (x ∷ m) h g = absurd (omega arith)
pieces_from-fuel (suc n) zero [] h g = refl
pieces_from-fuel (suc n) zero (x ∷ m) h g = absurd (omega arith)
pieces_from-fuel (suc n) (suc k) [] h g = refl
pieces_from-fuel (suc n) (suc k) (x ∷ m) h g =
    ap (λ t. take chunk_len (x ∷ m) ∷ t)
      (pieces_from-fuel n k (drop chunk_len (x ∷ m)) (omega (arith, length-drop chunk_len (x ∷ m)))
        (omega (arith, length-drop chunk_len (x ∷ m))))

-- A first piece and the rest.
pub pieces-cons : (p r : List ℕ) → length p ≡ chunk_len → pieces (p ++ r) ≡ p ∷ pieces r
pieces-cons [] r e = absurd (omega arith)
pieces-cons (x ∷ p) r e =
    unfold pieces in
    ap₂ ◌∷◌ (take-append_exact chunk_len (x ∷ p) r e) (
      ap (pieces_from (length (p ++ r))) (drop-append_exact chunk_len (x ∷ p) r e)
      ∙ pieces_from-fuel (length (p ++ r)) (length r) r (omega (arith, length-append p r))
          (omega arith))

pub pieces-short : (m : List ℕ) → 0 < length m → length m ≤ chunk_len → pieces m ≡ m ∷ []
unfolding pieces
pieces-short [] h g = absurd (omega arith)
pieces-short (x ∷ m) h g =
    ap₂ ◌∷◌ (take_all chunk_len (x ∷ m) g)
      (ap (pieces_from (length m)) (drop_all chunk_len (x ∷ m) g) ∙ nothing (length m))
  where
    nothing : (n : ℕ) → pieces_from n [] ≡ []
    nothing zero = refl
    nothing (suc n) = refl

-- Whole chunks in front make pieces of their own.
pub pieces-append :
    (q : ℕ) (m r : List ℕ) → length m ≡ q * chunk_len → pieces (m ++ r) ≡ pieces m ++ pieces r
pieces-append zero [] r e = unfold pieces in refl
pieces-append zero (x ∷ m) r e = absurd (omega arith)
pieces-append (suc q) m r e =
    let p = take chunk_len m in
    let d = drop chunk_len m in
    let lp : length (take chunk_len m) ≡ chunk_len = omega (arith, length-take chunk_len m) in
    let ld = length-drop chunk_len m in
    ap (λ t. pieces (t ++ r)) (sym (take-append-drop chunk_len m))
    ∙ ap pieces (append_assoc p d r)
    ∙ pieces-cons p (d ++ r) lp
    ∙ ap (λ t. p ∷ t) (pieces-append q d r (omega arith))
    ∙ ap (λ t. t ++ pieces r) (sym (pieces-cons p d lp))
    ∙ ap (λ t. pieces t ++ pieces r) (take-append-drop chunk_len m)

pub length-pieces : (q : ℕ) (m : List ℕ) → length m ≡ q * chunk_len → length (pieces m) ≡ q
length-pieces zero [] e = unfold pieces in refl
length-pieces zero (x ∷ m) e = absurd (omega arith)
length-pieces (suc q) m e =
    let p = take chunk_len m in
    let d = drop chunk_len m in
    ap (λ t. length (pieces t)) (sym (take-append-drop chunk_len m))
    ∙ ap length (pieces-cons p d (omega (arith, length-take chunk_len m)))
    ∙ ap suc (length-pieces q d (omega (arith, length-drop chunk_len m)))

module _ (b : Backend) (key : List ℕ) (flags : ℕ) where
  length-outputs :
      (counter : ℕ) (ps : List (List ℕ)) → length (outputs b key flags counter ps) ≡ length ps
  unfolding outputs
  length-outputs counter [] = refl
  length-outputs counter (p ∷ ps) = ap suc (length-outputs (counter + 1) ps)

  pub outputs-append :
      (counter : ℕ) (ps qs : List (List ℕ))
      → outputs b key flags counter (ps ++ qs)
        ≡ outputs b key flags counter ps ++ outputs b key flags (counter + length ps) qs
  unfolding outputs
  outputs-append counter [] qs =
      ap (λ n. outputs b key flags n qs) {x = counter} {y = counter + 0} (omega arith)
  outputs-append counter (p ∷ ps) qs =
      ap (λ t. chunk_output b key flags counter p ∷ t)
        (outputs-append (counter + 1) ps qs
          ∙ ap (λ n. outputs b key flags (counter + 1) ps ++ outputs b key flags n qs)
              {x = counter + 1 + length ps} {y = counter + suc (length ps)} (omega arith))

  -- Whole chunks in front have leaves of their own.
  pub leaves-append :
      (q counter : ℕ) (m r : List ℕ)
      → length m ≡ q * chunk_len
      → leaves b key flags counter (m ++ r)
        ≡ leaves b key flags counter m ++ leaves b key flags (counter + q) r
  unfolding leaves
  leaves-append q counter m r e =
      ap (outputs b key flags counter) (pieces-append q m r e)
      ∙ outputs-append counter (pieces m) (pieces r)
      ∙ ap
          (λ n.
            outputs b key flags counter (pieces m) ++ outputs b key flags (counter + n) (pieces r))
          (length-pieces q m e)

  pub length-leaves :
      (q counter : ℕ) (m : List ℕ)
      → length m ≡ q * chunk_len
      → length (leaves b key flags counter m) ≡ q
  unfolding leaves
  length-leaves q counter m e = length-outputs counter (pieces m) ∙ length-pieces q m e

  pub leaves-short :
      (counter : ℕ) (m : List ℕ)
      → 0 < length m
      → length m ≤ chunk_len
      → leaves b key flags counter m ≡ chunk_output b key flags counter m ∷ []
  unfolding leaves
  leaves-short counter m h g =
      ap (outputs b key flags counter) (pieces-short m h g) ∙ (unfold outputs in refl)

  pub leaves-nil : (counter : ℕ) → leaves b key flags counter [] ≡ []
  unfolding leaves
  leaves-nil counter = refl

  -- One leaf for each begun chunk.
  pub length-leaves_bounds :
      (q counter : ℕ) (m : List ℕ)
      → q * chunk_len < length m
      → length m ≤ suc q * chunk_len
      → length (leaves b key flags counter m) ≡ suc q
  length-leaves_bounds q counter m lo hi =
      let n : ℕ = q * chunk_len in
      let p = take n m in
      let d = drop n m in
      let lp : length (take n m) ≡ q * chunk_len = omega (arith, length-take n m) in
      let ld = length-drop n m in
      ap (λ t. length (leaves b key flags counter t)) (sym (take-append-drop n m))
      ∙ ap length (leaves-append q counter p d lp)
      ∙ ap (λ t. length (leaves b key flags counter p ++ t))
          (leaves-short (counter + q) d (omega arith) (omega arith))
      ∙ omega (
        arith,
        length-append (leaves b key flags counter p)
            (chunk_output b key flags (counter + q) d ∷ []),
        length-leaves q counter p lp,
      )

  -- At most one leaf for each 1024 bytes that there are room for, and one at least for any byte.
  pub length-leaves_le :
      (q counter : ℕ) (m : List ℕ)
      → 0 < length m
      → length m ≤ q * chunk_len
      → (0 < length (leaves b key flags counter m)) × (length (leaves b key flags counter m) ≤ q)
  length-leaves_le q counter m h g =
      let n : ℕ = (length m - 1) / 1024 in
      let e = length-leaves_bounds n counter m (omega arith) (omega arith) in
      (omega arith, omega arith)

  pub length-leaves_many :
      (counter : ℕ) (m : List ℕ) → chunk_len < length m → 1 < length (leaves b key flags counter m)
  length-leaves_many counter m h =
      let n : ℕ = (length m - 1) / 1024 in
      let e = length-leaves_bounds n counter m (omega arith) (omega arith) in omega arith
