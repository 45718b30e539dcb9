-- ===== src/Hasher/Incremental.antt =====
-- The hasher as a whole: any sequence of updates and then the finalization.
use blake.Base.{ℕ, ◌^◌, ◌<◌, ◌≡◌, refl, sym, ap, ◌∙◌, arith}
use blake.Base.{List, [], ◌∷◌, ◌++◌, length, length-append, append_assoc, append-nil}
use blake.Base.{Option, some, ◌>>=◌}
use blake.Base.{eq-or-ne, ==_iff, inl, inr}
use blake.Backend.{Backend}
use blake.Backend.Lawful.{IsLawful}
use blake.Output.{root_bytes}
use blake.Chunk.{output}
use blake.Chunk as Chunk
use blake.Chunk.Update.{flat}
use blake.Hasher.{Hasher, init_base, update, finalize_seek}
use blake.Hasher.Loop.{Fresh, Fresh-Holds}
use blake.Hasher.Hashed.{Hashed, init-Hashed}
use blake.Tree.{root_output}
use mathlib.Core.Path.{subst}
use blake.Hasher.Finalize.{stacked_output-Hashed}
use blake.Hasher.Update.{update-Hashed}
use blake.Hasher.{reset, init_derive_key_raw, finalize}
use blake.Impl.{iv, derive_key_context, derive_key_material, load_key_words}

-- The state after a list of updates.
abbrev pub update_all : Backend → Hasher → List (List ℕ) → Option Hasher
update_all b self [] = some self
update_all b self (x ∷ xs) = update b self x >>= (λ next. update_all b next xs)

module _ (b : Backend) (lawful : IsLawful b) (key : List ℕ) (flags : ℕ) where
  update_all-Hashed :
      (total : List ℕ) (self : Hasher) (xs : List (List ℕ))
      → length (total ++ flat xs) < 2 ^ 64
      → Hashed b lawful key flags total self
      → (self' : Hasher) × (update_all b self xs ≡ some self')
        × Hashed b lawful key flags (total ++ flat xs) self'
  update_all-Hashed total self [] bound v =
      (self, refl, subst (λ t. Hashed b lawful key flags t self) (sym (append-nil total)) v)
  update_all-Hashed total self (x ∷ xs) bound v =
      let assoc = append_assoc total x (flat xs) in
      let la = length-append (total ++ x) (flat xs) in
      let (next, f, w) =
        update-Hashed b lawful key flags total x self (omega (arith, ap length assoc)) v in
      let (self', g, h) =
        update_all-Hashed (total ++ x) next xs (omega (arith, ap length assoc)) w in
      (
        self',
        ap (λ o. o >>= (λ next. update_all b next xs)) f ∙ g,
        subst (λ t. Hashed b lawful key flags t self') assoc h,
      )

  finalize_seek-Hashed :
      (total : List ℕ) (self : Hasher) (seek n : ℕ)
      → length total < 2 ^ 64
      → Hashed b lawful key flags total self
      → finalize_seek b self seek n ≡ some (root_bytes b (root_output b key flags total) seek n)
  unfolding finalize_seek
  finalize_seek-Hashed total self seek n bound v = elim (eq-or-ne n 0) [
    | inl e ↦ unfold root_bytes in rw ((==_iff n 0).1 e)
    | inr ne ↦ rw ne (
        ap (λ o. o >>= (λ out. some (root_bytes b out seek n)))
          (stacked_output-Hashed b lawful key flags total self bound v))
  ]

  -- However an input of less than 2^64 bytes is cut into updates, every update succeeds, and
  -- `finalize_seek` gives the bytes from `seek` on of the root output of the tree over the chunks
  -- of the input, for every lawful back end, key and flags.
  pub finalize_seek-update_all :
      (xs : List (List ℕ)) (seek n : ℕ)
      → length (flat xs) < 2 ^ 64
      → (update_all b (init_base key flags) xs >>= (λ self. finalize_seek b self seek n))
        ≡ some (root_bytes b (root_output b key flags (flat xs)) seek n)
  finalize_seek-update_all xs seek n bound =
      let (self, f, v) =
        update_all-Hashed [] (init_base key flags) xs bound (init-Hashed b lawful key flags) in
      ap (λ o. o >>= (λ self. finalize_seek b self seek n)) f
      ∙ finalize_seek-Hashed (flat xs) self seek n bound v

  reset-Hashed :
      (total : List ℕ) (self : Hasher)
      → Hashed b lawful key flags total self
      → Hashed b lawful key flags [] (reset self)
  unfolding reset Chunk.reset
  reset-Hashed total self v =
      let fresh : Fresh key flags 0 (reset self).chunk = record {
        same_cv = v.same_key;
        same_counter = refl;
        same_flags = v.holds.same_flags;
        no_bytes = refl;
        no_length = refl;
        no_blocks = refl;
      } in
      record {
        count = 0;
        front = [];
        rest = [];
        split = refl;
        bytes = refl;
        same_key = v.same_key;
        holds = Fresh-Holds b key flags 0 (reset self).chunk fresh;
        fresh = λ e. fresh;
        lazy = (refl, refl);
        merged = λ h. absurd (omega arith);
        two = λ e h. absurd (omega arith);
      }

  -- With a lawful back end, nothing of the updates before a reset is left after it: the output is
  -- that of the tree over the chunks of the updates after it, where the updates on either side
  -- take less than 2^64 bytes.
  pub finalize_seek-reset :
      (xs ys : List (List ℕ)) (seek n : ℕ)
      → length (flat xs) < 2 ^ 64
      → length (flat ys) < 2 ^ 64
      → (update_all b (init_base key flags) xs
          >>= (λ used. update_all b (reset used) ys >>= (λ self. finalize_seek b self seek n)))
        ≡ some (root_bytes b (root_output b key flags (flat ys)) seek n)
  finalize_seek-reset xs ys seek n bound bound' =
      let (used, f, v) =
        update_all-Hashed [] (init_base key flags) xs bound (init-Hashed b lawful key flags) in
      let (self, g, w) =
        update_all-Hashed [] (reset used) ys bound' (reset-Hashed (flat xs) used v) in
      ap
        (λ o.
          o >>= (λ used. update_all b (reset used) ys >>= (λ self. finalize_seek b self seek n)))
        f
      ∙ ap (λ o. o >>= (λ self. finalize_seek b self seek n)) g
      ∙ finalize_seek-Hashed (flat ys) self seek n bound' w

-- With a lawful back end, `init_derive_key_raw` of a context of less than 2^64 bytes starts a
-- hasher whose key is the 32 bytes of hash of the context, taken with the flag for contexts.
pub init_derive_key_raw_lem :
    (b : Backend) (lawful : IsLawful b) (context : List ℕ)
    → length context < 2 ^ 64
    → init_derive_key_raw b context
      ≡ some (
          init_base
            (load_key_words (root_bytes b (root_output b iv derive_key_context context) 0 32))
            derive_key_material)
unfolding init_derive_key_raw finalize
init_derive_key_raw_lem b lawful context bound =
    let (self, f, v) =
      update-Hashed b lawful iv derive_key_context [] context (init_base iv derive_key_context)
        bound (init-Hashed b lawful iv derive_key_context) in
    let rest = λ (bytes : List ℕ). some (init_base (load_key_words bytes) derive_key_material) in
    ap (λ o. o >>= (λ self. finalize_seek b self 0 32 >>= rest)) f
    ∙ ap (λ o. o >>= rest)
        (finalize_seek-Hashed b lawful iv derive_key_context context self 0 32 bound v)
