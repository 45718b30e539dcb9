-- ===== src/Impl/Bytes.antt =====
-- Little-endian words and bytes: what `load32` and `store32` compute, and their round trips.
use blake.Base.{ℕ, zero, suc, ◌+◌, ◌*◌, ◌^◌, ◌<◌, bit_or, ◌≡◌, refl, sym, ap, ap₂, ◌∙◌, arith}
use blake.Base.{List, [], ◌∷◌, ◌++◌, length, All, IsByte, IsWord, u8, u32, ◌<<<◌, ◌>>>◌}
use blake.Base.Bits.{bit_or_fields, bit_or_comm}
use native.Mathlib.Nat.{mod-eq_of_lt}
use native.Mathlib.Numerals.{towards_suc}
use blake.Impl.{load32, load_words, store32, store_words, load_key_words, store_cv_words}

-- The four bytes of a word in order.
unfoldable pub le_sum : ℕ → ℕ → ℕ → ℕ → ℕ
le_sum b0 b1 b2 b3 = b0 + b1 * 2 ^ 8 + b2 * 2 ^ 16 + b3 * 2 ^ 24

or_above : (k q r : ℕ) → r < 2 ^ k → bit_or r (q * 2 ^ k) ≡ q * 2 ^ k + r
or_above k q r h = bit_or_comm r (q * 2 ^ k) ∙ bit_or_fields k q r h

pub or_bytes :
    (b0 b1 b2 b3 : ℕ)
    → IsByte b0
    → IsByte b1
    → IsByte b2
    → IsByte b3
    → bit_or (bit_or (bit_or (u32 (b0 <<< 0)) (u32 (b1 <<< 8))) (u32 (b2 <<< 16))) (u32 (b3 <<< 24))
      ≡ le_sum b0 b1 b2 b3
unfolding le_sum
or_bytes b0 b1 b2 b3 h0 h1 h2 h3 =
    rw
      (
        mod-eq_of_lt {n = b0 * 2 ^ 0} {m = 2 ^ 32} (omega arith),
        mod-eq_of_lt {n = b1 * 2 ^ 8} {m = 2 ^ 32} (omega arith),
        mod-eq_of_lt {n = b2 * 2 ^ 16} {m = 2 ^ 32} (omega arith),
        mod-eq_of_lt {n = b3 * 2 ^ 24} {m = 2 ^ 32} (omega arith),
        or_above 8 b1 (b0 * 2 ^ 0) (omega arith),
        or_above 16 b2 (b1 * 2 ^ 8 + b0 * 2 ^ 0) (omega arith),
        or_above 24 b3 (b2 * 2 ^ 16 + (b1 * 2 ^ 8 + b0 * 2 ^ 0)) (omega arith),
      )
      (omega arith)

-- Storing a word and loading it back, whatever follows.
load32-store32 : (w : ℕ) (rest : List ℕ) → IsWord w → load32 (store32 w ++ rest) 0 ≡ w
unfolding load32 store32
load32-store32 w rest h =
    or_bytes (u8 (w >>> 0)) (u8 (w >>> 8)) (u8 (w >>> 16)) (u8 (w >>> 24)) (omega arith)
      (omega arith) (omega arith) (omega arith)
    ∙ unfold le_sum in omega arith

four_equal :
    {a b c d a' b' c' d' : ℕ}
    → a ≡ a'
    → b ≡ b'
    → c ≡ c'
    → d ≡ d'
    → ◌≡◌ {A = List ℕ} (a ∷ b ∷ c ∷ d ∷ []) (a' ∷ b' ∷ c' ∷ d' ∷ [])
four_equal p q r s = λ i. p i ∷ q i ∷ r i ∷ s i ∷ []

-- The bytes of a word are those that it was loaded from.
store32-load32 :
    (b0 b1 b2 b3 : ℕ) (rest : List ℕ)
    → IsByte b0
    → IsByte b1
    → IsByte b2
    → IsByte b3
    → store32 (load32 (b0 ∷ b1 ∷ b2 ∷ b3 ∷ rest) 0) ≡ b0 ∷ b1 ∷ b2 ∷ b3 ∷ []
unfolding load32 store32
store32-load32 b0 b1 b2 b3 rest h0 h1 h2 h3 =
    rw (or_bytes b0 b1 b2 b3 h0 h1 h2 h3)
      (unfold le_sum in four_equal (omega arith) (omega arith) (omega arith) (omega arith))

load32_skip :
    (b0 b1 b2 b3 : ℕ) (p : List ℕ) (i : ℕ) → load32 (b0 ∷ b1 ∷ b2 ∷ b3 ∷ p) (i + 4) ≡ load32 p i
unfolding load32
load32_skip b0 b1 b2 b3 p i = simp towards_suc

load_words_skip :
    (n b0 b1 b2 b3 : ℕ) (p : List ℕ) (i : ℕ)
    → load_words n (b0 ∷ b1 ∷ b2 ∷ b3 ∷ p) (i + 4) ≡ load_words n p i
unfolding load_words
load_words_skip zero b0 b1 b2 b3 p i = refl
load_words_skip (suc n) b0 b1 b2 b3 p i =
    ap₂ ◌∷◌ (load32_skip b0 b1 b2 b3 p i) (load_words_skip n b0 b1 b2 b3 p (i + 4))

load_words-store32 : (n w : ℕ) (p : List ℕ) → load_words n (store32 w ++ p) 4 ≡ load_words n p 0
unfolding store32
load_words-store32 n w p = load_words_skip n _ _ _ _ p 0

-- The words of a chaining value come back from the bytes that `store_cv_words` wrote.
pub load_words-store_words :
    (ws : List ℕ) → All IsWord ws → load_words (length ws) (store_words ws) 0 ≡ ws
unfolding load_words store_words
load_words-store_words [] h = refl
load_words-store_words (w ∷ ws) (hw, hws) =
    ap₂ ◌∷◌ (load32-store32 w (store_words ws) hw)
      (load_words-store32 (length ws) w (store_words ws) ∙ load_words-store_words ws hws)

-- The bytes of a key come back from the words that `load_words` read.
store_words-load_words :
    (n : ℕ) (p : List ℕ) → All IsByte p → length p ≡ n * 4 → store_words (load_words n p 0) ≡ p
unfolding load_words store_words
store_words-load_words zero [] h e = refl
store_words-load_words zero (b ∷ p) h e = absurd (omega arith)
store_words-load_words (suc n) (b0 ∷ b1 ∷ b2 ∷ b3 ∷ p) (h0, (h1, (h2, (h3, h)))) e =
    ap₂ ◌++◌ (store32-load32 b0 b1 b2 b3 p h0 h1 h2 h3) (
      ap store_words (load_words_skip n b0 b1 b2 b3 p 0)
      ∙ store_words-load_words n p h (omega arith))
store_words-load_words (suc n) (b0 ∷ b1 ∷ b2 ∷ []) h e = absurd (omega arith)
store_words-load_words (suc n) (b0 ∷ b1 ∷ []) h e = absurd (omega arith)
store_words-load_words (suc n) (b0 ∷ []) h e = absurd (omega arith)
store_words-load_words (suc n) [] h e = absurd (omega arith)

-- Eight words come back from `load_key_words` on the 32 bytes that `store_cv_words` wrote.
pub load_key_words-store_cv_words :
    (cv : List ℕ) → All IsWord cv → length cv ≡ 8 → load_key_words (store_cv_words cv) ≡ cv
unfolding load_key_words store_cv_words
load_key_words-store_cv_words cv h e =
    ap (λ n. load_words n (store_words cv) 0) (sym e) ∙ load_words-store_words cv h

-- The 32 bytes of a key come back from `store_cv_words` on the words of `load_key_words`.
store_cv_words-load_key_words :
    (key : List ℕ) → All IsByte key → length key ≡ 32 → store_cv_words (load_key_words key) ≡ key
unfolding load_key_words store_cv_words
store_cv_words-load_key_words key h e = store_words-load_words 8 key h e
