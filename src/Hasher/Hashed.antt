-- ===== src/Hasher/Hashed.antt =====
-- What a hasher holds: the bytes so far are on the stack, in whole subtrees, and in the chunk state.
-- The end of an update brings it about.
use blake.Base.{ℕ, ◌+◌, ◌*◌, ◌^◌, ◌<◌, ◌≡◌, refl, ap, ◌∙◌, arith}
use blake.Base.{List, [], ◌++◌, length, length-append}
use blake.Base.{some, ◌>>=◌}
use blake.Base.{lt→ltb, ge→ltb, le-or-gt, inl, inr}
use blake.Base.{empty_of_length}
use blake.Impl.{chunk_len}
use blake.Backend.{Backend}
use blake.Backend.Lawful.{IsLawful}
use blake.Chunk.{output}
use blake.Chunk as Chunk
use blake.Chunk.Holds.{Holds}
use blake.Chunk.Update.{update-Holds}
use blake.Hasher.{Hasher, init_base, update_rest, update_subtrees}
use blake.Hasher.{merge_cv_stack}
use blake.Hasher.Stack.{Strict, Lazy, Strict-Lazy}
use blake.Hasher.Push.{with_stack, merge_cv_stack_lem}
use blake.Hasher.Loop.{Fresh, Fresh-Holds, Looped, Ended, update_loop_lem}

module _ (b : Backend) (lawful : IsLawful b) (key : List ℕ) (flags : ℕ) where
  -- The hasher has taken the bytes `total`: `count` chunks on the stack, and `rest` in the chunk.
  pub record Hashed (total : List ℕ) (self : Hasher) : Type 0 where
    pub count : ℕ
    pub front : List ℕ
    pub rest : List ℕ
    pub split : total ≡ front ++ rest
    pub bytes : length front ≡ count * chunk_len
    pub same_key : self.key ≡ key
    pub holds : Holds b key count flags self.chunk rest
    pub fresh : length rest ≡ 0 → Fresh key flags count self.chunk
    pub lazy : Lazy b key flags count front self.cv_stack
    pub merged : 0 < length rest → Strict b key flags 0 count front self.cv_stack
    pub two : length rest ≡ 0 → 0 < count → 1 < length self.cv_stack

  pub init-Hashed : Hashed [] (init_base key flags)
  unfolding init_base Chunk.init
  init-Hashed =
      let fresh : Fresh key flags 0 (Chunk.init key flags) = record {
        same_cv = refl;
        same_counter = refl;
        same_flags = refl;
        no_bytes = refl;
        no_length = refl;
        no_blocks = refl;
      } in
      record {
        count = 0;
        front = [];
        rest = [];
        split = refl;
        bytes = refl;
        same_key = refl;
        holds = Fresh-Holds b key flags 0 (Chunk.init key flags) fresh;
        fresh = λ e. fresh;
        lazy = (refl, refl);
        merged = λ h. absurd (omega arith);
        two = λ e h. absurd (omega arith);
      }

  update_rest-Hashed :
      (total input : List ℕ) (self : Hasher)
      → length total < 2 ^ 64
      → Ended b lawful key flags total (self, input)
      → (self' : Hasher) × (update_rest b self input ≡ some self') × Hashed total self'
  unfolding update_rest
  update_rest-Hashed total input self bound v = elim (le-or-gt (length input) 0) [
    | inl none_left ↦
        let nil : input ≡ [] = empty_of_length input (omega arith) in
        let w = v.looped in
        (
          self,
          rw (ge→ltb 0 (length input) none_left),
          record {
            count = v.count;
            front = v.front;
            rest = [];
            split = v.split ∙ ap (λ t. v.front ++ t) nil;
            bytes = w.bytes;
            same_key = w.same_key;
            holds = Fresh-Holds b key flags v.count self.chunk w.fresh;
            fresh = λ e. w.fresh;
            lazy = w.lazy;
            merged = λ h. absurd (omega arith);
            two = λ e h. v.two (omega arith);
          },
        )
    | inr left ↦
        let w = v.looped in
        let chunk = Chunk.update b self.chunk input in
        let filled = record self { chunk = chunk } in
        let held =
          update-Holds b key v.count flags self.chunk [] input (omega (arith, v.short))
            (Fresh-Holds b key flags v.count self.chunk w.fresh) in
        let size = ap length v.split ∙ length-append v.front input in
        let (cvs, f, s) =
          merge_cv_stack_lem b key flags filled v.count v.front w.same_key held.same_flags
            (omega (arith, w.bytes)) w.lazy in
        (
          with_stack filled cvs,
          rw (lt→ltb 0 (length input) left) (ap (merge_cv_stack b filled) held.same_counter ∙ f),
          record {
            count = v.count;
            front = v.front;
            rest = input;
            split = v.split;
            bytes = w.bytes;
            same_key = w.same_key;
            holds = held;
            fresh = λ e. absurd (omega arith);
            lazy = Strict-Lazy b key flags v.count v.front cvs s;
            merged = λ h. s;
            two = λ e h. absurd (omega arith);
          },
        )
  ]

  pub update_subtrees-Hashed :
      (n : ℕ) (m input : List ℕ) (self : Hasher)
      → 0 < length input
      → length (m ++ input) < 2 ^ 64
      → Looped b lawful key flags n m self
      → (self' : Hasher) × (update_subtrees b self input ≡ some self') × Hashed (m ++ input) self'
  unfolding update_subtrees
  update_subtrees-Hashed n m input self pos bound v =
      let (u, f, ended) =
        update_loop_lem b lawful key flags (length input + 1) n self m input (omega arith)
          (omega (arith, length-append m input, v.bytes)) (λ e. absurd (omega arith)) v in
      let (self', g, h) = update_rest-Hashed (m ++ input) u.1 u.0 bound ended in
      (self', ap (λ o. o >>= (λ looped. update_rest b looped.0 looped.1)) f ∙ g, h)
