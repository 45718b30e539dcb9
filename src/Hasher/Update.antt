-- ===== src/Hasher/Update.antt =====
-- `blake3_hasher_update` keeps what a hasher holds.
use blake.Base.{ℕ, ◌+◌, ◌-◌, ◌*◌, ◌^◌, ◌≤◌, ◌<◌, min, ◌≡◌, refl, sym, ap, ap₂, ◌∙◌, arith}
use blake.Base.{List, [], ◌∷◌, ◌++◌, length, length-append, take, drop, append_assoc, append-nil}
use blake.Base.{take-append-drop, length-take, length-drop, Option, some, ◌>>=◌, u64}
use blake.Base.{lt→ltb, ge→ltb, le-or-gt, eq-or-ne, ==_iff, inl, inr, if◌then◌else◌, ltb, ◌==◌}
use blake.Base.{empty_of_length, take_all, false}
use blake.Impl.{chunk_len}
use blake.Backend.{Backend}
use blake.Backend.Lawful.{IsLawful}
use blake.Output.{chaining_value}
use blake.Chunk.{output}
use blake.Chunk as Chunk
use blake.Chunk.Holds.{Holds, output-Holds, chunk_len-Holds}
use blake.Chunk.Update.{update-Holds}
use blake.Chunk.Spec.{chunk_output}
use blake.Hasher.{Hasher, update_subtrees, push_chunk, push_cv, update}
use blake.Hasher.Stack.{node, Strict, Lazy}
use blake.Hasher.Push.{push_cv_lem, pushed}
use blake.Hasher.Loop.{Looped}
use blake.Hasher.Hashed.{Hashed, update_subtrees-Hashed}
use blake.Merkle.{merkle}
use blake.Tree.{join}
use blake.Tree.Leaves.{leaves-short}
use native.Mathlib.Nat.{mod-eq_of_lt}
use mathlib.Core.Path.{subst}

module _ (b : Backend) (lawful : IsLawful b) (key : List ℕ) (flags : ℕ) where
  pub chunk_node :
      (n : ℕ) (c : List ℕ)
      → 0 < length c
      → length c ≤ chunk_len
      → chunk_output b key flags n c ≡ node b key flags 0 n c
  chunk_node n c pos short =
      unfold merkle in
      ap (merkle (join b key flags) (chunk_output b key flags 0 []) 0)
        (sym (leaves-short b key flags n c pos short))

  -- A full chunk that more input follows.
  push_chunk-Looped :
      (self : Hasher) (n : ℕ) (m c : List ℕ)
      → self.key ≡ key
      → Holds b key n flags self.chunk c
      → length c ≡ chunk_len
      → length m ≡ n * chunk_len
      → n < 2 ^ 54
      → Lazy b key flags n m self.cv_stack
      → (self' : Hasher) × (push_chunk b self ≡ some self')
        × Looped b lawful key flags (n + 1) (m ++ c) self'
  unfolding push_chunk
  push_chunk-Looped self n m c ek held full size small v =
      let cv = chaining_value b (output self.chunk) in
      let (cvs, f, s) =
        push_cv_lem b key flags self cv 0 n n m ek held.same_flags small (omega arith) v in
      let chunk = Chunk.reset self.chunk self.key (u64 (self.chunk.chunk_counter + 1)) in
      (
        record self { chunk = chunk; cv_stack = cv ∷ cvs },
        ap
            (λ (o : Option Hasher). o >>= (λ (pushed : Hasher). some (record pushed {
              chunk = Chunk.reset pushed.chunk pushed.key (u64 (pushed.chunk.chunk_counter + 1));
            })))
            (ap (push_cv b self cv) held.same_counter ∙ f),
        record {
          same_key = ek;
          fresh =
              unfold Chunk.reset in
              record {
                same_cv = ek;
                same_counter =
                    ap (λ k. u64 (k + 1)) held.same_counter
                    ∙ mod-eq_of_lt {n = n + 1} {m = 2 ^ 64} (omega arith);
                same_flags = held.same_flags;
                no_bytes = refl;
                no_length = refl;
                no_blocks = refl;
              };
          lazy =
              pushed b key flags 0 0 n m c cv (λ k d bytes. Strict b key flags k d bytes cvs)
                (omega arith) (omega arith)
                (ap (chaining_value b) (
                  output-Holds b key n flags self.chunk c held
                  ∙ chunk_node n c (omega arith) (omega arith)))
                s;
          bytes = omega (arith, length-append m c);
        },
      )

  -- The update once `n` bytes are to go into the chunk state.
  abbrev update_at : ℕ → Hasher → List ℕ → Option Hasher
  update_at n self input =
      let rest = drop n input in
      let filled = record self { chunk = Chunk.update b self.chunk (take n input) } in
      if ltb 0 (length rest)
      then push_chunk b filled >>= (λ pushed. update_subtrees b pushed rest)
      else some filled

  update-update_at :
      (self : Hasher) (input : List ℕ) (n : ℕ)
      → (length input == 0) ≡ false
      → 0 < Chunk.chunk_len self.chunk
      → n ≡ min (length input) (chunk_len - Chunk.chunk_len self.chunk)
      → update b self input ≡ update_at n self input
  unfolding update
  update-update_at self input n some_input pos e =
      rw (some_input, lt→ltb 0 (Chunk.chunk_len self.chunk) pos)
        (ap (λ k. update_at k self input) taken)
    where
      taken :
          (if ltb (length input) (chunk_len - Chunk.chunk_len self.chunk)
            then length input
            else chunk_len - Chunk.chunk_len self.chunk)
          ≡ n
      taken = ground arith

  from_empty_chunk :
      (total input : List ℕ) (self : Hasher)
      → length (total ++ input) < 2 ^ 64
      → (length input == 0) ≡ false
      → (v : Hashed b lawful key flags total self) → length v.rest ≡ 0
      → (self' : Hasher) × (update b self input ≡ some self')
        × Hashed b lawful key flags (total ++ input) self'
  from_empty_chunk total input self bound some_input v e =
      let nil : v.rest ≡ [] = empty_of_length v.rest e in
      let whole : total ≡ v.front = v.split ∙ ap (λ t. v.front ++ t) nil ∙ append-nil v.front in
      let size = ap (λ t. length (t ++ input)) whole in
      let held = chunk_len-Holds b key v.count flags self.chunk v.rest v.holds in
      let (self', f, h) =
        update_subtrees-Hashed b lawful key flags v.count v.front input self (ground arith)
          (omega arith)
          (record { same_key = v.same_key; fresh = v.fresh e; lazy = v.lazy; bytes = v.bytes }) in
      (
        self',
        (unfold update in rw (some_input, ge→ltb 0 (Chunk.chunk_len self.chunk) (omega arith)) f),
        subst (λ t. Hashed b lawful key flags (t ++ input) self') (sym whole) h,
      )

  -- The chunk state has bytes already, and takes `n` more.
  into_chunk :
      (total input : List ℕ) (self : Hasher) (n : ℕ)
      → length (total ++ input) < 2 ^ 64
      → (v : Hashed b lawful key flags total self) → 0 < length v.rest
      → n ≡ min (length input) (chunk_len - length v.rest)
      → (self' : Hasher) × (update_at n self input ≡ some self')
        × Hashed b lawful key flags (total ++ input) self'
  into_chunk total input self n bound v pos e =
      let t = take n input in
      let d = drop n input in
      let lt = length-take n input in
      let ld = length-drop n input in
      let lc = length-append v.rest t in
      let size = ap length v.split ∙ length-append v.front v.rest in
      let la = length-append total input in
      let filled = record self { chunk = Chunk.update b self.chunk t } in
      let held =
        update-Holds b key v.count flags self.chunk v.rest t (omega (arith, v.holds.bounded))
          v.holds in
      elim (le-or-gt (length d) 0) [
        | inl all_taken ↦
            let whole : take n input ≡ input = take_all n input (omega arith) in
            (
              filled,
              rw (ge→ltb 0 (length (drop n input)) all_taken),
              record {
                count = v.count;
                front = v.front;
                rest = v.rest ++ t;
                split = ap₂ ◌++◌ v.split (sym whole) ∙ append_assoc v.front v.rest t;
                bytes = v.bytes;
                same_key = v.same_key;
                holds = held;
                fresh = λ none_held. absurd (omega arith);
                lazy = v.lazy;
                merged = λ some_held. v.merged pos;
                two = λ none_held h. absurd (omega arith);
              },
            )
        | inr more ↦
            let (self2, f, w) =
              push_chunk-Looped filled v.count v.front (v.rest ++ t) v.same_key held
                (omega (arith, v.holds.bounded)) v.bytes (omega (arith, v.bytes)) v.lazy in
            let assoc =
              append_assoc v.front (v.rest ++ t) d
              ∙ ap (λ z. v.front ++ z)
                  (append_assoc v.rest t d ∙ ap (λ z. v.rest ++ z) (take-append-drop n input))
              ∙ sym (append_assoc v.front v.rest input)
              ∙ ap (λ z. z ++ input) (sym v.split) in
            let (self', g, h) =
              update_subtrees-Hashed b lawful key flags (v.count + 1) (v.front ++ (v.rest ++ t)) d
                self2 more (omega (arith, ap length assoc)) w in
            (
              self',
              rw (lt→ltb 0 (length (drop n input)) more)
                  (ap (λ o. o >>= (λ pushed. update_subtrees b pushed d)) f ∙ g),
              subst (λ z. Hashed b lawful key flags z self') assoc h,
            )
      ]

  -- Whatever was taken before, an update adds its bytes, and meets no fault.
  pub update-Hashed :
      (total input : List ℕ) (self : Hasher)
      → length (total ++ input) < 2 ^ 64
      → Hashed b lawful key flags total self
      → (self' : Hasher) × (update b self input ≡ some self')
        × Hashed b lawful key flags (total ++ input) self'
  update-Hashed total input self bound v = elim (eq-or-ne (length input) 0) [
    | inl nothing ↦
        let nil : input ≡ [] = empty_of_length input nothing in
        (
          self,
          unfold update in rw ((==_iff (length input) 0).1 nothing),
          subst (λ t. Hashed b lawful key flags t self)
              (sym (ap (λ t. total ++ t) nil ∙ append-nil total)) v,
        )
    | inr some_input ↦ elim (le-or-gt (length v.rest) 0) [
      | inl empty ↦ from_empty_chunk total input self bound some_input v (omega arith)
      | inr some_held ↦
          let n : ℕ = min (length input) (chunk_len - length v.rest) in
          let held = chunk_len-Holds b key v.count flags self.chunk v.rest v.holds in
          let (self', f, h) = into_chunk total input self n bound v some_held refl in
          (
            self',
            update-update_at self input n some_input (omega arith)
                  (ap (λ c. min (length input) (chunk_len - c)) (sym held))
                ∙ f,
            h,
          )
    ]
  ]
