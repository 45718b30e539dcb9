-- ===== src/Sha256/Padding.antt =====
-- The padding of rmr/core/hash_sha256.c, and the hash of any sequence of updates.
use blake.Base.{
  ℕ, zero, suc, ◌+◌, ◌-◌, ◌*◌, ◌^◌, ◌≤◌, ◌<◌, ◌≡◌, ◌≢◌, refl, sym, ap, ◌∙◌, arith, List, [], ◌∷◌,
  ◌++◌,
}
use blake.Base.{
  length, replicate, length-append, append_assoc, append-nil, ==_iff, eq-or-ne, inl, inr, if_either,
  ◌==◌, leb, if◌then◌else◌, u8, u64, ◌>>>◌, some, ◌>>=◌,
}
use mathlib.Core.Path.{subst}
use blake.Chunk.Update.{flat}
use blake.Sha256.{
  process_block, initial, Context, init, put_byte, flush, update, pad_loop, len_loop, digest,
  finish, final,
}
use blake.Sha256.Blocks.{
  fold_blocks, Holds, init-Holds, put_byte-Holds, full-Holds, flush-Holds, update_loop-Holds,
}

-- The zeros that are needed from a buffer with `b` bytes on.
unfoldable needed : ℕ → ℕ
needed b = if leb b 56 then 56 - b else 120 - b

flush-needed :
    (ctx : Context)
    → ctx.buf_len ≢ 56
    → ctx.buf_len ≤ 64
    → needed ((flush ctx).buf_len + 1) + 1 ≡ needed ctx.buf_len
unfolding flush needed
flush-needed ctx ne h =
    if_either (λ (after : Context). needed (after.buf_len + 1) + 1 ≡ needed ctx.buf_len)
      (ctx.buf_len == 64) (λ full. ground arith) (λ short. ground arith)

-- What the loop of zeros leaves behind.
record Padded (m : List ℕ) (ctx after : Context) : Type 0 where
  zeros : ℕ
  small : zeros ≡ needed ctx.buf_len
  holds : Holds (m ++ replicate zeros 0) after
  at_end : after.buf_len ≡ 56
  same_len : after.len ≡ ctx.len

replicate-next : (m : List ℕ) (n : ℕ) → (m ++ (0 ∷ [])) ++ replicate n 0 ≡ m ++ replicate (suc n) 0
replicate-next m n = append_assoc m (0 ∷ []) (replicate n 0)

pad_loop_lem :
    (fuel : ℕ) (m : List ℕ) (ctx : Context)
    → needed ctx.buf_len < fuel
    → Holds m ctx
    → (after : Context) × (pad_loop fuel ctx ≡ some after) × Padded m ctx after
unfolding pad_loop
pad_loop_lem zero m ctx h v = absurd (omega arith)
pad_loop_lem (suc fuel) m ctx h v = elim (eq-or-ne ctx.buf_len 56) [
  | inl e ↦ (
    ctx,
    rw ((==_iff ctx.buf_len 56).1 e, pad_loop) refl,
    record {
      zeros = 0;
      small = unfold needed in rw e refl;
      holds = subst (λ t. Holds t ctx) (sym (append-nil m)) v;
      at_end = e;
      same_len = refl;
    },
  )
  | inr ne ↦
      let less = flush-needed ctx (λ e. ground arith) v.fits in
      let (w, short, same) = flush-Holds m ctx v in
      let (after, f, p) =
        pad_loop_lem fuel (m ++ (0 ∷ [])) (put_byte (flush ctx) 0) (omega arith)
          (put_byte-Holds m (flush ctx) 0 short w) in
      (
        after,
        rw (ne, pad_loop) f,
        record {
          zeros = suc p.zeros;
          small = omega (arith, p.small);
          holds = subst (λ t. Holds t after) (replicate-next m p.zeros) p.holds;
          at_end = p.at_end;
          same_len = p.same_len ∙ same;
        },
      )
]

-- The `n` low bytes of a length, the highest one first.
unfoldable pub len_bytes : ℕ → ℕ → List ℕ
len_bytes zero len = []
len_bytes (suc i) len = u8 (len >>> (i * 8)) ∷ len_bytes i len

len_loop_lem :
    (n : ℕ) (m : List ℕ) (ctx : Context)
    → ctx.buf_len + n ≤ 64
    → Holds m ctx
    → Holds (m ++ len_bytes n ctx.len) (len_loop n ctx)
      × ((len_loop n ctx).buf_len ≡ ctx.buf_len + n)
unfolding len_loop len_bytes
len_loop_lem zero m ctx h v = (subst (λ t. Holds t ctx) (sym (append-nil m)) v, omega arith)
len_loop_lem (suc i) m ctx h v =
    let byte = u8 (ctx.len >>> (i * 8)) in
    let (w, e) =
      len_loop_lem i (m ++ (byte ∷ [])) (put_byte ctx byte) (omega arith)
        (put_byte-Holds m ctx byte (omega arith) v) in
    (
      subst (λ t. Holds t (len_loop i (put_byte ctx byte)))
          (append_assoc m (byte ∷ []) (len_bytes i ctx.len)) w,
      omega arith,
    )

-- The message with a one, zeros and its length in bits, in whole blocks.
abbrev pub padded : ℕ → List ℕ → List ℕ
padded zeros m = ((m ++ (0x80 ∷ [])) ++ replicate zeros 0) ++ len_bytes 8 (length m * 8)

-- The number of zeros is less than a block, and the padded message is whole blocks, whose compression
-- is the hash.
pub record IsHash (m : List ℕ) (out : List ℕ) : Type 0 where
  pub zeros : ℕ
  pub count : ℕ
  pub less : zeros < 64
  pub whole : length (padded zeros m) ≡ count * 64
  pub hash : out ≡ digest (fold_blocks count initial (padded zeros m))

full-IsHash :
    (m : List ℕ) (zeros : ℕ)
    → zeros < 64
    → (last : Context)
    → Holds (padded zeros m) (record last { hash = process_block last.hash last.buf; buf_len = 0 })
    → IsHash m (digest (process_block last.hash last.buf))
full-IsHash m zeros h last v =
    let front : padded zeros m ≡ v.front =
      v.split ∙ ap (λ t. v.front ++ t) (sym v.waiting) ∙ append-nil v.front in
    record {
      zeros = zeros;
      count = v.count;
      less = h;
      whole = ap length front ∙ v.blocks;
      hash = ap digest (v.hashed ∙ ap (fold_blocks v.count initial) (sym front));
    }

final_lem :
    (m : List ℕ) (ctx : Context)
    → ctx.buf_len < 64
    → ctx.len ≡ length m * 8
    → Holds m ctx
    → (out : List ℕ) × (final ctx ≡ some out) × IsHash m out
unfolding final finish
final_lem m ctx h e v =
    let one = put_byte-Holds m ctx 0x80 h v in
    let enough : needed (ctx.buf_len + 1) < 64 = unfold needed in ground arith in
    let (after, f, p) = pad_loop_lem 64 (m ++ (0x80 ∷ [])) (put_byte ctx 0x80) enough one in
    let zeroed = (m ++ (0x80 ∷ [])) ++ replicate p.zeros 0 in
    let (w, full) = len_loop_lem 8 zeroed after (omega (arith, p.at_end)) p.holds in
    let last = len_loop 8 after in
    let w' : Holds (padded p.zeros m) last =
      subst (λ len. Holds (zeroed ++ len_bytes 8 len) last) (p.same_len ∙ e) w in
    (
      finish after,
      ap (λ o. o >>= (λ padded. some (finish padded))) f,
      full-IsHash m p.zeros (omega (arith, p.small, enough)) last
          (full-Holds (padded p.zeros m) last (omega (arith, p.at_end)) w'),
    )

-- The context after a list of updates.
abbrev pub updates : Context → List (List ℕ) → Context
updates ctx [] = ctx
updates ctx (bytes ∷ rest) = updates (update ctx bytes) rest

updates-Holds :
    (m : List ℕ) (ctx : Context) (xs : List (List ℕ))
    → length (m ++ flat xs) * 8 < 2 ^ 64
    → ctx.buf_len < 64
    → ctx.len ≡ length m * 8
    → Holds m ctx
    → Holds (m ++ flat xs) (updates ctx xs)
      × ((updates ctx xs).buf_len < 64)
      × ((updates ctx xs).len ≡ length (m ++ flat xs) * 8)
unfolding update
updates-Holds m ctx [] bound h e v = (
  subst (λ t. Holds t ctx) (sym (append-nil m)) v,
  h,
  e ∙ ap (λ (t : List ℕ). length t * 8) (sym (append-nil m)),
)
updates-Holds m ctx (bytes ∷ rest) bound h e v =
    let assoc = append_assoc m bytes (flat rest) in
    let total = length-append (m ++ bytes) (flat rest) in
    let counted = record ctx { len = u64 (ctx.len + u64 (length bytes * 8)) } in
    let kept : Holds m counted = record {
      count = v.count;
      front = v.front;
      rest = v.rest;
      split = v.split;
      blocks = v.blocks;
      hashed = v.hashed;
      waiting = v.waiting;
      size = v.size;
      fits = v.fits;
    } in
    let (w, short, same) = update_loop-Holds m bytes counted h kept in
    let no_wrap : counted.len ≡ length (m ++ bytes) * 8 =
      omega (arith, length-append m bytes, total, ap length assoc) in
    let (u, short', same') =
      updates-Holds (m ++ bytes) (update ctx bytes) rest (omega (arith, ap length assoc)) short
        (same ∙ no_wrap) w in
    (
      subst (λ t. Holds t (updates (update ctx bytes) rest)) assoc u,
      short',
      same' ∙ ap (λ (t : List ℕ). length t * 8) assoc,
    )

-- However a message of less than 2^61 bytes is cut into updates, after `pai_sha256_init` the
-- padding ends within its fuel and `pai_sha256_final` writes the digest of the compression over
-- the blocks of the message, a one bit, less than 64 bytes of zeros and the length in bits.
pub final-updates :
    (ctx : Context) (xs : List (List ℕ))
    → length ctx.buf ≡ 64
    → length (flat xs) * 8 < 2 ^ 64
    → (out : List ℕ) × (final (updates (init ctx) xs) ≡ some out) × IsHash (flat xs) out
unfolding init
final-updates ctx xs size bound =
    let (v, short, same) =
      updates-Holds [] (init ctx) xs bound (omega arith) refl (init-Holds ctx size) in
    final_lem (flat xs) (updates (init ctx) xs) short same v
