-- ===== src/Sha256/Blocks.antt =====
-- What a context holds: the blocks that are compressed and the bytes that wait in the buffer.
use blake.Base.{
  ℕ, zero, suc, ◌+◌, ◌*◌, ◌≤◌, ◌<◌, ◌≡◌, refl, sym, ap, ap₂, ◌∙◌, arith, List, [], ◌∷◌, ◌++◌,
}
use blake.Base.{
  length, take, drop, set, length-set, length-append, take_all, append_assoc, append-nil, ==_iff,
  if_either, ◌==◌,
}
use blake.Base.{take-append_le, drop-append_le, length-drop}
use blake.Sha256.{Eight, process_block, initial, Context, init, put_byte, flush, update_loop}

-- The compression over `n` blocks of 64 bytes.
unfoldable pub fold_blocks : ℕ → Eight → List ℕ → Eight
fold_blocks zero s m = s
fold_blocks (suc n) s m = fold_blocks n (process_block s (take 64 m)) (drop 64 m)

pub fold_blocks-snoc :
    (n : ℕ) (s : Eight) (front block : List ℕ)
    → length front ≡ n * 64
    → length block ≡ 64
    → fold_blocks (n + 1) s (front ++ block) ≡ process_block (fold_blocks n s front) block
unfolding fold_blocks
fold_blocks-snoc zero s [] block e f = ap (process_block s) (take_all 64 block (omega arith))
fold_blocks-snoc zero s (x ∷ front) block e f = absurd (omega arith)
fold_blocks-snoc (suc n) s front block e f =
    ap (λ x. fold_blocks x s (front ++ block)) {x = suc n + 1} {y = suc (n + 1)} (omega arith)
    ∙ ap₂ (λ x y. fold_blocks (n + 1) (process_block s x) y)
        (take-append_le 64 front block (omega arith)) (drop-append_le 64 front block (omega arith))
    ∙ fold_blocks-snoc n (process_block s (take 64 front)) (drop 64 front) block
        (omega (arith, length-drop 64 front)) f

-- The bytes `m` so far: `count` blocks are compressed, and the rest waits.
pub record Holds (m : List ℕ) (ctx : Context) : Type 0 where
  pub count : ℕ
  pub front : List ℕ
  pub rest : List ℕ
  pub split : m ≡ front ++ rest
  pub blocks : length front ≡ count * 64
  pub hashed : ctx.hash ≡ fold_blocks count initial front
  pub waiting : take ctx.buf_len ctx.buf ≡ rest
  pub size : length ctx.buf ≡ 64
  pub fits : ctx.buf_len ≤ 64

take-set :
    (xs : List ℕ) (i v : ℕ) → i < length xs → take (i + 1) (set xs i v) ≡ take i xs ++ (v ∷ [])
take-set [] i v h = absurd (omega arith)
take-set (x ∷ xs) zero v h = refl
take-set (x ∷ xs) (suc i) v h =
    ap (λ n. take n (x ∷ set xs i v)) {x = suc i + 1} {y = suc (i + 1)} (omega arith)
    ∙ ap (λ l. x ∷ l) (take-set xs i v (omega arith))

pub init-Holds : (ctx : Context) → length ctx.buf ≡ 64 → Holds [] (init ctx)
unfolding init fold_blocks
init-Holds ctx size = record {
  count = 0;
  front = [];
  rest = [];
  split = refl;
  blocks = refl;
  hashed = refl;
  waiting = refl;
  size = size;
  fits = omega arith;
}

pub put_byte-Holds :
    (m : List ℕ) (ctx : Context) (byte : ℕ)
    → ctx.buf_len < 64
    → Holds m ctx
    → Holds (m ++ (byte ∷ [])) (put_byte ctx byte)
put_byte-Holds m ctx byte h v = record {
  count = v.count;
  front = v.front;
  rest = v.rest ++ (byte ∷ []);
  split = ap (λ t. t ++ (byte ∷ [])) v.split ∙ append_assoc v.front v.rest (byte ∷ []);
  blocks = v.blocks;
  hashed = v.hashed;
  waiting =
      take-set ctx.buf ctx.buf_len byte (omega (arith, v.size))
      ∙ ap (λ t. t ++ (byte ∷ [])) v.waiting;
  size = length-set ctx.buf ctx.buf_len byte ∙ v.size;
  fits = omega arith;
}

-- A full buffer is one block more.
pub full-Holds :
    (m : List ℕ) (ctx : Context)
    → ctx.buf_len ≡ 64
    → Holds m ctx
    → Holds m (record ctx { hash = process_block ctx.hash ctx.buf; buf_len = 0 })
full-Holds m ctx full v =
    let all : take ctx.buf_len ctx.buf ≡ ctx.buf =
      take_all ctx.buf_len ctx.buf (omega (arith, v.size)) in
    let rest : ctx.buf ≡ v.rest = sym all ∙ v.waiting in
    record {
      count = v.count + 1;
      front = v.front ++ v.rest;
      rest = [];
      split = v.split ∙ sym (append-nil (v.front ++ v.rest));
      blocks = omega (arith, length-append v.front v.rest, v.blocks, v.size, ap length rest);
      hashed =
          ap₂ process_block v.hashed rest
          ∙ sym (
              fold_blocks-snoc v.count initial v.front v.rest v.blocks
                (omega (arith, v.size, ap length rest)));
      waiting = refl;
      size = v.size;
      fits = omega arith;
    }

pub flush-Holds :
    (m : List ℕ) (ctx : Context)
    → Holds m ctx
    → Holds m (flush ctx) × ((flush ctx).buf_len < 64) × ((flush ctx).len ≡ ctx.len)
unfolding flush
flush-Holds m ctx v =
    if_either (λ after. Holds m after × (after.buf_len < 64) × (after.len ≡ ctx.len))
      (ctx.buf_len == 64)
      (λ full. (full-Holds m ctx ((==_iff ctx.buf_len 64).0 full) v, omega arith, refl))
      (λ short. (v, ground (arith, v.fits), refl))

pub update_loop-Holds :
    (m bytes : List ℕ) (ctx : Context)
    → ctx.buf_len < 64
    → Holds m ctx
    → Holds (m ++ bytes) (update_loop ctx bytes)
      × ((update_loop ctx bytes).buf_len < 64)
      × ((update_loop ctx bytes).len ≡ ctx.len)
unfolding update_loop
update_loop-Holds m [] ctx h v = (rw (append-nil m) v, h, refl)
update_loop-Holds m (byte ∷ bytes) ctx h v =
    let (w, short, same) =
      flush-Holds (m ++ (byte ∷ [])) (put_byte ctx byte) (put_byte-Holds m ctx byte h v) in
    let (u, short', same') =
      update_loop-Holds (m ++ (byte ∷ [])) bytes (flush (put_byte ctx byte)) short w in
    (rw (← append_assoc m (byte ∷ []) bytes) u, short', same' ∙ same)
