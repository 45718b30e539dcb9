-- ===== src/Wide/Loop.antt =====
-- The loop over the blocks does in every lane what the loop of `hash_one_portable` does.
use blake.Base.{
  ℕ, zero, suc, ◌+◌, ◌*◌, ◌^◌, ◌≤◌, ◌<◌, bit_or, ◌≡◌, refl, sym, ap, ap₂, ◌∙◌, arith, List, [], ◌∷◌,
  take, drop, drop-drop, ◌==◌, if◌then◌else◌, All, IsWord, length,
}
use native.Mathlib.Nat.{mod-eq_of_lt}
use blake.Impl.{at, load32, load_words, load_block_words, block_len, counter_low, counter_high}
use blake.Portable.{hash_one_loop}
use blake.Portable.Words.{at-IsWord}
use blake.Wide.{Ops, Sixteen, Eight, hash_block, block_loop, key_vecs}
use blake.Wide.Lanes.{HasLanes, state, cv_of, hash_block_lem}
use blake.Sse.Mixing.{flat}

at-take : (n i : ℕ) (p : List ℕ) → i < n → at (take n p) i ≡ at p i
at-take zero i p h = absurd (omega arith)
at-take (suc n) i [] h = refl
at-take (suc n) zero (x ∷ p) h = refl
at-take (suc n) (suc i) (x ∷ p) h = at-take n i p (omega arith)

load_words-take :
    (n m i : ℕ) (p : List ℕ) → i + n * 4 ≤ m → load_words n (take m p) i ≡ load_words n p i
unfolding load_words load32
load_words-take zero m i p h = refl
load_words-take (suc n) m i p h =
    rw
      (
        at-take m i p (omega arith),
        at-take m (i + 1) p (omega arith),
        at-take m (i + 2) p (omega arith),
        at-take m (i + 3) p (omega arith),
      )
      (ap (λ t. load32 p i ∷ t) (load_words-take n m (i + 4) p (omega arith)))

-- Only the bytes of the block are read.
load_block_words-take : (p : List ℕ) → load_block_words (take block_len p) ≡ load_block_words p
unfolding load_block_words
load_block_words-take p = load_words-take 16 64 0 p (omega arith)

pub list_of_eight :
    (l : List ℕ)
    → length l ≡ 8
    → at l 0 ∷ at l 1 ∷ at l 2 ∷ at l 3 ∷ at l 4 ∷ at l 5 ∷ at l 6 ∷ at l 7 ∷ [] ≡ l
list_of_eight (a ∷ b ∷ c ∷ d ∷ e ∷ f ∷ g ∷ h ∷ []) p = refl
list_of_eight [] p = absurd (omega arith)
list_of_eight (a ∷ []) p = absurd (omega arith)
list_of_eight (a ∷ b ∷ []) p = absurd (omega arith)
list_of_eight (a ∷ b ∷ c ∷ []) p = absurd (omega arith)
list_of_eight (a ∷ b ∷ c ∷ d ∷ []) p = absurd (omega arith)
list_of_eight (a ∷ b ∷ c ∷ d ∷ e ∷ []) p = absurd (omega arith)
list_of_eight (a ∷ b ∷ c ∷ d ∷ e ∷ f ∷ []) p = absurd (omega arith)
list_of_eight (a ∷ b ∷ c ∷ d ∷ e ∷ f ∷ g ∷ []) p = absurd (omega arith)
list_of_eight (a ∷ b ∷ c ∷ d ∷ e ∷ f ∷ g ∷ h ∷ i ∷ l) p = absurd (omega arith)

module _ (o : Ops) (h : HasLanes o) (i : ℕ) where
  -- The key in every lane.
  pub key_vecs_lem :
      (key : List ℕ) → All IsWord key → length key ≡ 8 → cv_of o h i (key_vecs o key) ≡ key
  key_vecs_lem key w e =
      let s = λ (j : ℕ).
        h.same (at key j) i ∙ mod-eq_of_lt {n = at key j} {m = 2 ^ 32} (at-IsWord key j w) in
      (λ p. s 0 p ∷ s 1 p ∷ s 2 p ∷ s 3 p ∷ s 4 p ∷ s 5 p ∷ s 6 p ∷ s 7 p ∷ [])
      ∙ list_of_eight key e

  pub block_loop_lem :
      (transpose : List (List ℕ) → ℕ → Sixteen o.Vec) (inputs : List (List ℕ)) (input : List ℕ)
      → ((offset : ℕ)
          → flat (state o h i (transpose inputs offset)) ≡ load_block_words (drop offset input))
      → (lo hi : o.Vec) (counter flags flags_end : ℕ) → h.lane lo i ≡ counter_low counter
      → h.lane hi i ≡ counter_high counter
      → (n block block_flags : ℕ) (v : Eight o.Vec)
      → cv_of o h i (block_loop o transpose inputs lo hi flags flags_end n block block_flags v)
        ≡ hash_one_loop n
            (drop (block * block_len) input)
            (cv_of o h i v)
            counter
            flags
            block_flags
            flags_end
  unfolding block_loop hash_one_loop
  block_loop_lem transpose inputs input loaded lo hi counter flags flags_end el eh zero block
        block_flags v =
      refl
  block_loop_lem transpose inputs input loaded lo hi counter flags flags_end el eh (suc n) block
        block_flags v =
      let last = if suc n == 1 then bit_or block_flags flags_end else block_flags in
      let here = drop (block * block_len) input in
      let m = transpose inputs (block * block_len) in
      let next = hash_block o v lo hi last m in
      block_loop_lem transpose inputs input loaded lo hi counter flags flags_end el eh n (block + 1)
        flags next
      ∙ ap₂ (λ p cv. hash_one_loop n p cv counter flags flags flags_end)
          (ap (λ k. drop k input) {x = (block + 1) * block_len} {y = block * block_len + block_len}
              (omega arith)
            ∙ sym (drop-drop block_len (block * block_len) input))
          (hash_block_lem o h i v lo hi counter last m (take block_len here) el eh
            (loaded (block * block_len) ∙ sym (load_block_words-take here)))
