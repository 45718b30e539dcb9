-- ===== src/Hasher/Push.antt =====
-- `hasher_push_cv`, and how the update loop puts a whole subtree on the stack.
use blake.Base.{ℕ, suc, ◌+◌, ◌*◌, ◌^◌, ◌≤◌, ◌<◌, ◌≡◌, refl, ap, ap₂, ◌∙◌, arith}
use blake.Base.{List, [], ◌∷◌, ◌++◌, length, append_assoc}
use blake.Base.{take-append_exact, drop-append_exact}
use blake.Base.{some, ◌>>=◌, le→leb}
use blake.Base.Bits.{two-pow-pos, mul-two-pow-suc}
use blake.Impl.{chunk_len, popcnt, out_len}
use blake.Impl.Integers.{popcnt_lem}
use blake.Impl.Ones.{ones_below}
use blake.Backend.{Backend}
use blake.Output.{chaining_value}
use blake.Hasher.{Hasher, merge_loop, merge_cv_stack, put_cv, push_cv, push_pair}
use blake.Hasher.Stack.{node, Top, Strict, Lazy, Strict-lower, Strict-ones}
use blake.Hasher.Merge.{Strict-raise, merge_loop_lem}
use native.Mathlib.Nat.{pow-suc}
use mathlib.Core.Path.{subst}

abbrev pub with_stack : Hasher → List (List ℕ) → Hasher
with_stack self cvs = record self { cv_stack = cvs }

module _ (b : Backend) (key : List ℕ) (flags : ℕ) where
  pub merge_cv_stack_lem :
      (self : Hasher) (n : ℕ) (m : List ℕ)
      → self.key ≡ key
      → self.chunk.flags ≡ flags
      → n < 2 ^ 64
      → Lazy b key flags n m self.cv_stack
      → (cvs : List (List ℕ)) × (merge_cv_stack b self n ≡ some (with_stack self cvs))
        × Strict b key flags 0 n m cvs
  unfolding merge_cv_stack
  merge_cv_stack_lem self n m ek ef h v =
      let stack = self.cv_stack in
      let (cvs, e, s) = merge_loop_lem b key flags (length stack) n m stack h (omega arith) v in
      (
        cvs,
        ap (λ o. o >>= (λ c. some (with_stack self c)))
            (ap₂ (λ k f. merge_loop b k f (length stack) (popcnt n) stack) ek ef
              ∙ ap (λ p. merge_loop b key flags (length stack) p stack) (popcnt_lem n h)
              ∙ e),
        s,
      )

  -- A value goes on the stack of a number of chunks that `2 ^ a` divides.
  pub push_cv_lem :
      (self : Hasher) (cv : List ℕ) (a n q : ℕ) (m : List ℕ)
      → self.key ≡ key
      → self.chunk.flags ≡ flags
      → n < 2 ^ 54
      → n ≡ q * 2 ^ a
      → Lazy b key flags n m self.cv_stack
      → (cvs : List (List ℕ)) × (push_cv b self cv n ≡ some (with_stack self (cv ∷ cvs)))
        × Strict b key flags a n m cvs
  unfolding push_cv
  push_cv_lem self cv a n q m ek ef h e v =
      let (cvs, f, s) = merge_cv_stack_lem self n m ek ef (omega arith) v in
      let count = Strict-ones b key flags 0 n m cvs (omega arith) s in
      let few = ones_below 64 54 n h in
      let fits : length cvs ≤ 54 = omega arith in
      (
        cvs,
        ap (λ o. o >>= put_cv b cv) f ∙ (unfold put_cv in rw (le→leb (length cvs) 54 fits)),
        Strict-raise b key flags a n q m cvs e s,
      )

  -- The subtree that was pushed, on top of what was there.
  pub pushed :
      (k a n : ℕ) (m x cv : List ℕ) (below : ℕ → ℕ → List ℕ → Type 0)
      → k ≤ a
      → length x ≡ 2 ^ a * chunk_len
      → cv ≡ chaining_value b (node b key flags a n x)
      → below a n m
      → Top b key flags k (n + 2 ^ a) (m ++ x) cv below
  pushed k a n m x cv below h e v w = record {
    level = a;
    front = n;
    front_bytes = m;
    bytes = x;
    at_least = h;
    count = refl;
    split = refl;
    size = e;
    value = v;
    rest = w;
  }

  pub push_pair_lem :
      (self : Hasher) (a n q : ℕ) (m l r cvl cvr : List ℕ)
      → self.key ≡ key
      → self.chunk.flags ≡ flags
      → self.chunk.chunk_counter ≡ n
      → n + 2 ^ a < 2 ^ 54
      → n ≡ q * 2 ^ suc a
      → length l ≡ 2 ^ a * chunk_len
      → length r ≡ 2 ^ a * chunk_len
      → length cvl ≡ out_len
      → cvl ≡ chaining_value b (node b key flags a n l)
      → cvr ≡ chaining_value b (node b key flags a (n + 2 ^ a) r)
      → Lazy b key flags n m self.cv_stack
      → (cvs : List (List ℕ)) × (push_pair b self (n + 2 ^ a) (cvl ++ cvr)
          ≡ some (with_stack self cvs))
        × Lazy b key flags (n + 2 ^ suc a) (m ++ (l ++ r)) cvs
        × (1 < length cvs)
  unfolding push_pair
  push_pair_lem self a n q m l r cvl cvr ek ef en h e el er ec vl vr v =
      let p = pow-suc 2 a in
      let big = two-pow-pos a in
      let (cvs1, f1, s1) = push_cv_lem self cvl (suc a) n q m ek ef (omega arith) e v in
      let t1 =
        pushed 0 a n m l cvl (λ k c bytes. Strict b key flags k c bytes cvs1) (omega arith) el vl
          (Strict-lower b key flags a (suc a) n m cvs1 (omega arith) s1) in
      let odd : n + 2 ^ a ≡ (2 * q + 1) * 2 ^ a = omega (arith, mul-two-pow-suc q a) in
      let (cvs2, f2, s2) =
        push_cv_lem (with_stack self (cvl ∷ cvs1)) cvr a (n + 2 ^ a) (2 * q + 1) (m ++ l) ek ef h
          odd t1 in
      let t2 =
        pushed 0 a (n + 2 ^ a) (m ++ l) r cvr (λ k c bytes. Strict b key flags k c bytes cvs2)
          (omega arith) er vr s2 in
      (
        cvr ∷ cvs2,
        ap₂ (λ x y. push_cv b self x self.chunk.chunk_counter >>= (λ s. push_cv b s y (n + 2 ^ a)))
              (take-append_exact 32 cvl cvr ec) (drop-append_exact 32 cvl cvr ec)
            ∙ ap (λ c. push_cv b self cvl c >>= (λ s. push_cv b s cvr (n + 2 ^ a))) en
            ∙ ap (λ o. o >>= (λ s. push_cv b s cvr (n + 2 ^ a))) f1
            ∙ f2,
        subst (λ bytes. Lazy b key flags (n + 2 ^ suc a) bytes (cvr ∷ cvs2)) (append_assoc m l r)
            (subst (λ c. Lazy b key flags c ((m ++ l) ++ r) (cvr ∷ cvs2)) {x = n + 2 ^ a + 2 ^ a}
              (omega arith) t2),
        two (n + 2 ^ a) (m ++ l) cvs2 (omega arith) s2,
      )
    where
      two :
          (c : ℕ) (bytes : List ℕ) (cvs : List (List ℕ))
          → 0 < c
          → Strict b key flags a c bytes cvs
          → 1 < suc (length cvs)
      two c bytes [] pos w = omega (arith, w.0)
      two c bytes (x ∷ cvs) pos w = omega arith
