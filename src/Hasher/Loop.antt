-- ===== src/Hasher/Loop.antt =====
-- The loop of `blake3_hasher_update_base` puts the input on the stack in whole subtrees, up to a
-- chunk or less.
use blake.Base.{
  ℕ, zero, suc, ◌+◌, ◌-◌, ◌*◌, ◌/◌, ◌%◌, ◌^◌, ◌≤◌, ◌<◌, ◌≡◌, refl, ap, ap₂, ◌∙◌, arith,
}
use blake.Base.{List, [], ◌++◌, length, length-append, take, drop, append_assoc, replicate, u64}
use blake.Base.{take-append-drop, length-take, length-drop, some, ◌>>=◌}
use blake.Base.{lt→ltb, ge→ltb, le-or-gt, inl, inr}
use blake.Base.Bits.{two-pow_mono, two-pow-pos, two-pow-cancel_lt, two-pow-add}
use blake.Impl.{chunk_len, block_len, round_down_to_power_of_2}
use blake.Impl.Integers.{round_down_lem}
use blake.Backend.{Backend}
use blake.Backend.Lawful.{IsLawful}
use blake.Chunk.{ChunkState}
use blake.Chunk.Holds.{Holds, init-Holds}
use blake.Hasher.{Hasher, shrink, push_subtree, count_chunks, update_loop}
use blake.Hasher.Stack.{Lazy}
use blake.Hasher.Push.{with_stack}
use blake.Hasher.PushSubtree.{push_subtree_lem}
use blake.Hasher.Shrink.{shrink_lem}
use native.Mathlib.Nat.{pow-suc, mod-eq_of_lt, mod-eq-sub-div-mul, div-mul-le_self}
use mathlib.Core.Path.{subst}

-- A chunk state with the number `n` and no byte in it.
pub record Fresh (key : List ℕ) (flags n : ℕ) (s : ChunkState) : Type 0 where
  pub same_cv : s.cv ≡ key
  pub same_counter : s.chunk_counter ≡ n
  pub same_flags : s.flags ≡ flags
  pub no_bytes : s.buf ≡ replicate block_len 0
  pub no_length : s.buf_len ≡ 0
  pub no_blocks : s.blocks_compressed ≡ 0

pub Fresh-Holds :
    (b : Backend) (key : List ℕ) (flags n : ℕ) (s : ChunkState)
    → Fresh key flags n s
    → Holds b key n flags s []
Fresh-Holds b key flags n s v =
    init-Holds b key n flags s v.same_cv v.same_counter v.same_flags v.no_bytes v.no_length
      v.no_blocks

-- What the mask of the loop says: the chunks so far are a multiple of the subtree's.
quotient : (n a s : ℕ) → 2 ^ s ≡ 2 ^ a * 1024 → n * 1024 % 2 ^ s ≡ 0 → (q : ℕ) × (n ≡ q * 2 ^ a)
quotient n a s e h =
    let q : ℕ = n * 1024 / 2 ^ s in
    let d = mod-eq-sub-div-mul (n * 1024) (2 ^ s) in
    let le = div-mul-le_self (n * 1024) (2 ^ s) in
    let p : n * 1024 / 2 ^ s * 2 ^ s ≡ n * 1024 / 2 ^ s * (2 ^ a * 1024) =
      ap (λ (t : ℕ). q * t) e in
    (q, omega arith)

module _ (b : Backend) (lawful : IsLawful b) (key : List ℕ) (flags : ℕ) where
  -- All the bytes so far, of `n` chunks, are on the stack.
  pub record Looped (n : ℕ) (m : List ℕ) (self : Hasher) : Type 0 where
    pub same_key : self.key ≡ key
    pub fresh : Fresh key flags n self.chunk
    pub lazy : Lazy b key flags n m self.cv_stack
    pub bytes : length m ≡ n * chunk_len

  -- After the loop at most a chunk of the bytes is left, and there are two values on the stack if
  -- nothing is left.
  pub record Ended (total : List ℕ) (u : Hasher × List ℕ) : Type 0 where
    pub count : ℕ
    pub front : List ℕ
    pub looped : Looped count front u.0
    pub split : total ≡ front ++ u.1
    pub short : length u.1 ≤ chunk_len
    pub two : length u.1 ≡ 0 → 1 < length u.0.cv_stack

  Looped-push :
      (self : Hasher) (n a : ℕ) (m x : List ℕ) (cvs : List (List ℕ)) (chunks : ℕ)
      → Looped n m self
      → chunks ≡ 2 ^ a
      → length x ≡ 2 ^ a * chunk_len
      → n + 2 ^ a < 2 ^ 64
      → Lazy b key flags (n + 2 ^ a) (m ++ x) cvs
      → Looped (n + 2 ^ a) (m ++ x) (count_chunks b (with_stack self cvs) chunks)
  unfolding count_chunks
  Looped-push self n a m x cvs chunks v e ex small w = record {
    same_key = v.same_key;
    fresh = record {
      same_cv = v.fresh.same_cv;
      same_counter = ap₂ (λ c k. u64 (c + k)) v.fresh.same_counter e ∙ mod-eq_of_lt small;
      same_flags = v.fresh.same_flags;
      no_bytes = v.fresh.no_bytes;
      no_length = v.fresh.no_length;
      no_blocks = v.fresh.no_blocks;
    };
    lazy = w;
    bytes = omega (arith, length-append m x, v.bytes);
  }

  -- The subtree that is taken next.
  next_subtree :
      (n len counter : ℕ)
      → counter ≡ n
      → chunk_len < len
      → n * chunk_len + len < 2 ^ 64
      → (a q : ℕ) × (shrink 64 (round_down_to_power_of_2 len) (u64 (counter * chunk_len))
          ≡ some (2 ^ a * chunk_len))
        × (n ≡ q * 2 ^ a)
        × (2 ^ a * chunk_len ≤ len)
  next_subtree n len counter ec over bound =
      let (k, small, rounded, lo, hi) = round_down_lem len (omega arith) in
      let low = two-pow-cancel_lt 10 (suc k) (omega (arith, pow-suc 2 k)) in
      let count : n * 1024 % 2 ^ 10 ≡ 0 = omega arith in
      let (s, f, at_least, at_most, divides) =
        shrink_lem 64 k (n * 1024) small (omega arith) (omega arith) (omega arith) count in
      let size : 2 ^ s ≡ 2 ^ (s - 10) * 1024 =
        ap (λ (t : ℕ). 2 ^ t) {x = s} {y = s - 10 + 10} (omega arith) ∙ two-pow-add (s - 10) 10 in
      let (q, e) = quotient n (s - 10) s size divides in
      (
        s - 10,
        q,
        ap (λ c. shrink 64 (round_down_to_power_of_2 len) (u64 (c * chunk_len))) ec
            ∙ ap₂ (shrink 64) rounded (mod-eq_of_lt {n = n * 1024} {m = 2 ^ 64} (omega arith))
            ∙ f
            ∙ ap some size,
        e,
        omega (arith, two-pow_mono s k at_most),
      )

  pub update_loop_lem :
      (fuel n : ℕ) (self : Hasher) (m input : List ℕ)
      → length input < fuel
      → n * chunk_len + length input < 2 ^ 64
      → (length input ≡ 0 → 1 < length self.cv_stack)
      → Looped n m self
      → (u : Hasher × List ℕ) × (update_loop b fuel self input ≡ some u) × Ended (m ++ input) u
  unfolding update_loop
  update_loop_lem zero n self m input h bound two v = absurd (omega arith)
  update_loop_lem (suc fuel) n self m input h bound two v =
      elim (le-or-gt (length input) chunk_len) [
        | inl short ↦ (
          (self, input),
          rw (ge→ltb chunk_len (length input) short, update_loop),
          record { count = n; front = m; looped = v; split = refl; short = short; two = two },
        )
        | inr over ↦
            let (a, q, f, e, fits) =
              next_subtree n (length input) self.chunk.chunk_counter v.fresh.same_counter over
                bound in
            let size : ℕ = 2 ^ a * chunk_len in
            let x = take size input in
            let ex : length (take (2 ^ a * chunk_len) input) ≡ 2 ^ a * chunk_len =
              omega (arith, length-take size input) in
            let ed = length-drop size input in
            let big = two-pow-pos a in
            let (cvs, g, w, many) =
              push_subtree_lem b lawful key flags self a n q m x v.same_key v.fresh.same_flags
                v.fresh.same_counter (omega arith) (omega arith) e ex (omega arith) v.lazy in
            let chunks : 2 ^ a * chunk_len / chunk_len ≡ 2 ^ a = omega arith in
            let next = count_chunks b (with_stack self cvs) (size / chunk_len) in
            let (u, i, ended) =
              update_loop_lem fuel (n + 2 ^ a) next (m ++ x) (drop size input) (omega arith)
                (omega arith)
                (unfold count_chunks in λ none_left. many (two-pow-cancel_lt 0 a (omega arith)))
                (Looped-push self n a m x cvs (size / chunk_len) v chunks ex (omega arith) w) in
            (
              u,
              rw (lt→ltb chunk_len (length input) over, update_loop)
                  (ap
                      (λ o. o >>= (λ len. push_subtree b self (take len input) >>= (λ pushed.
                        update_loop b fuel (count_chunks b pushed (len / chunk_len))
                          (drop len input))))
                      f
                    ∙ ap
                        (λ o. o >>= (λ pushed.
                          update_loop b fuel (count_chunks b pushed (size / chunk_len))
                            (drop size input)))
                        g
                    ∙ i),
              subst (λ t. Ended t u)
                  (append_assoc m x (drop size input)
                    ∙ ap (λ t. m ++ t) (take-append-drop size input))
                  ended,
            )
      ]
