-- ===== src/Portable/Words.antt =====
-- The ranges of the portable compression: words below 2 ^ 32 in, words below 2 ^ 32 and bytes out,
-- and the two compression functions agree.
use blake.Base.{ℕ, zero, suc, ◌+◌, ◌*◌, ◌^◌, ◌≡◌, refl, ap, ◌∙◌, arith}
use blake.Base.{List, [], ◌∷◌, ◌++◌, length, All, IsByte, IsWord, set, take, take-append_le}
use blake.Base.{u32, ◌<<<◌, ◌>>>◌, length-set, length-append, sym, take_all, append_assoc}
use blake.Base.Bits.{bit_or-lt, bit_xor-lt}
use blake.Impl.{at, store32, store_words, store_cv_words}
use blake.Impl.{counter_low, counter_high}
use blake.Portable.{rotr32, add_to, mix_to, g, round_fn, initial_state, compress_pre, xor_words}
use blake.Portable.{compress_in_place, compress_xof}
use native.Mathlib.Nat.{div-le_self}

abbrev pub Words : ℕ → List ℕ → Type 0
Words n ws = All IsWord ws × (length ws ≡ n)

pub at-IsWord : (ws : List ℕ) (i : ℕ) → All IsWord ws → IsWord (at ws i)
at-IsWord [] i h = omega arith
at-IsWord (w ∷ ws) zero h = h.0
at-IsWord (w ∷ ws) (suc i) h = at-IsWord ws i h.1

set-IsWord : (ws : List ℕ) (i v : ℕ) → All IsWord ws → IsWord v → All IsWord (set ws i v)
set-IsWord [] i v h k = tt
set-IsWord (w ∷ ws) zero v h k = (k, h.1)
set-IsWord (w ∷ ws) (suc i) v h k = (h.0, set-IsWord ws i v h.1 k)

u32-IsWord : (w : ℕ) → IsWord (u32 w)
u32-IsWord w = omega arith

rotr32-IsWord : (w c : ℕ) → IsWord w → IsWord (rotr32 w c)
unfolding rotr32
rotr32-IsWord w c h =
    bit_or-lt 32 (w >>> c) (u32 (w <<< _)) (omega (arith, div-le_self w (2 ^ c))) (u32-IsWord _)

add_to-Words : (n i j z : ℕ) (state : List ℕ) → Words n state → Words n (add_to state i j z)
unfolding add_to
add_to-Words n i j z state (h, e) =
    (set-IsWord state i _ h (u32-IsWord _), length-set state i _ ∙ e)

mix_to-Words : (n i j c : ℕ) (state : List ℕ) → Words n state → Words n (mix_to state i j c)
unfolding mix_to
mix_to-Words n i j c state (h, e) = (
  set-IsWord state i _ h (
      rotr32-IsWord _ c
        (bit_xor-lt 32 (at state i) (at state j) (at-IsWord state i h) (at-IsWord state j h))),
  length-set state i _ ∙ e,
)

g-Words : (n a b c d x y : ℕ) (state : List ℕ) → Words n state → Words n (g state a b c d x y)
unfolding g
g-Words n a b c d x y state h = search (add_to-Words, mix_to-Words) depth 9

round_fn-Words :
    (n : ℕ) (state msg : List ℕ) (round : ℕ) → Words n state → Words n (round_fn state msg round)
unfolding round_fn
round_fn-Words n state msg round h = search g-Words depth 9

initial_state-Words :
    (cv : List ℕ) (len counter flags : ℕ)
    → All IsWord cv
    → Words 16 (initial_state cv len counter flags)
unfolding initial_state
initial_state-Words cv len counter flags h = (
  unfold counter_low counter_high in
      omega (
        arith,
        at-IsWord cv 0 h,
        at-IsWord cv 1 h,
        at-IsWord cv 2 h,
        at-IsWord cv 3 h,
        at-IsWord cv 4 h,
        at-IsWord cv 5 h,
        at-IsWord cv 6 h,
        at-IsWord cv 7 h,
      ),
  refl,
)

compress_pre-Words :
    (cv block : List ℕ) (len counter flags : ℕ)
    → All IsWord cv
    → Words 16 (compress_pre cv block len counter flags)
unfolding compress_pre
compress_pre-Words cv block len counter flags h =
    search (round_fn-Words, initial_state-Words) depth 9

xor_words-Words :
    (n i j : ℕ) (xs ys : List ℕ) → All IsWord xs → All IsWord ys → Words n (xor_words n xs i ys j)
unfolding xor_words
xor_words-Words zero i j xs ys h k = (tt, refl)
xor_words-Words (suc n) i j xs ys h k =
    let (w, e) = xor_words-Words n (i + 1) (j + 1) xs ys h k in
    ((bit_xor-lt 32 (at xs i) (at ys j) (at-IsWord xs i h) (at-IsWord ys j k), w), ap suc e)

-- From words, `compress_in_place` writes back eight words of 32 bits.
pub compress_in_place-Words :
    (cv block : List ℕ) (len counter flags : ℕ)
    → All IsWord cv
    → Words 8 (compress_in_place cv block len counter flags)
unfolding compress_in_place
compress_in_place-Words cv block len counter flags h =
    let (w, e) = compress_pre-Words cv block len counter flags h in xor_words-Words 8 0 8 _ _ w w

store_words-IsByte : (ws : List ℕ) → All IsByte (store_words ws)
unfolding store_words
store_words-IsByte [] = tt
store_words-IsByte (w ∷ ws) =
    (omega arith, (omega arith, (omega arith, (omega arith, store_words-IsByte ws))))

length-store_words : (ws : List ℕ) → length (store_words ws) ≡ 4 * length ws
unfolding store_words
length-store_words [] = refl
length-store_words (w ∷ ws) = omega (arith, length-store_words ws)

length-xor_words : (n i j : ℕ) (xs ys : List ℕ) → length (xor_words n xs i ys j) ≡ n
unfolding xor_words
length-xor_words zero i j xs ys = refl
length-xor_words (suc n) i j xs ys = ap suc (length-xor_words n (i + 1) (j + 1) xs ys)

-- The bytes of a chaining value.
pub length-cv :
    (cv block : List ℕ) (len counter flags : ℕ)
    → length (store_cv_words (compress_in_place cv block len counter flags)) ≡ 32
unfolding compress_in_place store_cv_words
length-cv cv block len counter flags =
    let state = compress_pre cv block len counter flags in
    length-store_words (xor_words 8 state 0 state 8)
    ∙ ap (λ n. 4 * n) (length-xor_words 8 0 8 state state)

store_words-append : (ws vs : List ℕ) → store_words (ws ++ vs) ≡ store_words ws ++ store_words vs
unfolding store_words
store_words-append [] vs = refl
store_words-append (w ∷ ws) vs =
    ap (λ t. store32 w ++ t) (store_words-append ws vs)
    ∙ sym (append_assoc (store32 w) (store_words ws) (store_words vs))

-- `compress_xof` writes 64 bytes, and the first 32 of them are the bytes of the chaining value that
-- `compress_in_place` leaves for the same input.
pub compress_xof_lem :
    (cv block : List ℕ) (len counter flags : ℕ)
    → All IsByte (compress_xof cv block len counter flags)
      × (length (compress_xof cv block len counter flags) ≡ 64)
      × (take 32 (compress_xof cv block len counter flags)
          ≡ store_cv_words (compress_in_place cv block len counter flags))
unfolding compress_xof compress_in_place store_cv_words
compress_xof_lem cv block len counter flags =
    let state = compress_pre cv block len counter flags in
    let lo = xor_words 8 state 0 state 8 in
    let hi = xor_words 8 state 8 cv 0 in
    let size : length (store_words lo) ≡ 32 =
      length-store_words lo ∙ ap (λ (n : ℕ). 4 * n) (length-xor_words 8 0 8 state state) in
    (
      store_words-IsByte (lo ++ hi),
      length-store_words (lo ++ hi)
          ∙ omega (
            arith,
            length-append lo hi,
            length-xor_words 8 0 8 state state,
            length-xor_words 8 8 0 state cv,
          ),
      rw (store_words-append lo hi) (
          take-append_le 32 (store_words lo) (store_words hi) (omega arith)
          ∙ take_all 32 (store_words lo) (omega arith)),
    )
