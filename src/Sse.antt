-- ===== src/Sse.antt =====
-- The 128-bit vectors of the instructions that c/blake3_sse41.c and c/blake3_sse2.c are written in.
-- The intrinsics are a parameter: a type of vectors with operations, and what the manual of the
-- instructions says of them, lane by lane.
pub mod Rows
pub mod Sse41
pub mod Sse2
pub mod Lanes
pub mod Variants
pub mod Columns
pub mod Mixing
pub mod Rounds
pub mod Messages
pub mod Compress
pub mod Many
pub mod Counters
pub mod Transposed
pub mod Hash4
pub mod HashMany
pub mod Agrees
pub mod Machine
mod Tests
use blake.Base.{
  ℕ, zero, suc, ◌<◌, ◌+◌, ◌*◌, ◌/◌, ◌%◌, ◌^◌, bit_and, bit_or, bit_xor, Bool, ◌≡◌, List, [], ◌∷◌,
  map, ltb, ◌==◌, if◌then◌else◌, IsWord, u8, u32, ◌<<<◌, ◌>>>◌, ◌-◌,
}
use blake.Impl.{at, load32, store_words}

-- The four 32-bit lanes of a vector, the lowest first.
pub record Four : Type 0 where
  pub l0 : ℕ
  pub l1 : ℕ
  pub l2 : ℕ
  pub l3 : ℕ

abbrev pub each : (ℕ → ℕ) → Four → Four
each f a = record { l0 = f a.l0; l1 = f a.l1; l2 = f a.l2; l3 = f a.l3 }

abbrev pub zip : (ℕ → ℕ → ℕ) → Four → Four → Four
zip f a b = record { l0 = f a.l0 b.l0; l1 = f a.l1 b.l1; l2 = f a.l2 b.l2; l3 = f a.l3 b.l3 }

abbrev pub lane : Four → ℕ → ℕ
lane a zero = a.l0
lane a (suc zero) = a.l1
lane a (suc (suc zero)) = a.l2
lane a (suc (suc (suc i))) = a.l3

-- The sixteen bytes of a vector, the lowest first.
abbrev pub bytes : Four → List ℕ
bytes a =
    u8 a.l0
    ∷ u8 (a.l0 >>> 8)
    ∷ u8 (a.l0 >>> 16)
    ∷ u8 (a.l0 >>> 24)
    ∷ u8 a.l1
    ∷ u8 (a.l1 >>> 8)
    ∷ u8 (a.l1 >>> 16)
    ∷ u8 (a.l1 >>> 24)
    ∷ u8 a.l2
    ∷ u8 (a.l2 >>> 8)
    ∷ u8 (a.l2 >>> 16)
    ∷ u8 (a.l2 >>> 24)
    ∷ u8 a.l3
    ∷ u8 (a.l3 >>> 8)
    ∷ u8 (a.l3 >>> 16)
    ∷ u8 (a.l3 >>> 24)
    ∷ []

-- The word of the four bytes from index `i` on.
abbrev pub word_at : List ℕ → ℕ → ℕ
word_at p i = at p i + at p (i + 1) * 2 ^ 8 + at p (i + 2) * 2 ^ 16 + at p (i + 3) * 2 ^ 24

abbrev pub from_bytes : List ℕ → Four
from_bytes p = record { l0 = word_at p 0; l1 = word_at p 4; l2 = word_at p 8; l3 = word_at p 12 }

-- A byte of `p` chosen by a control byte, or 0 where the highest bit of the control is set.
abbrev pub choose_byte : List ℕ → ℕ → ℕ
choose_byte p control = if ltb control 128 then at p (control % 16) else 0

-- The 16-bit half with number `j` from `b` where that bit of `imm` is set, else from `a`.
abbrev pub choose_half : ℕ → ℕ → ℕ → ℕ → ℕ
choose_half imm j a b = if imm / 2 ^ j % 2 == 1 then b else a

abbrev pub blend_word : ℕ → ℕ → ℕ → ℕ → ℕ
blend_word imm j a b =
    choose_half imm j (a % 2 ^ 16) (b % 2 ^ 16)
    + choose_half imm (j + 1) (a / 2 ^ 16) (b / 2 ^ 16) * 2 ^ 16

-- A word of two 16-bit halves.
abbrev pub two_halves : ℕ → ℕ → ℕ
two_halves lo hi = lo % 2 ^ 16 + hi % 2 ^ 16 * 2 ^ 16

abbrev pub ones_if : Bool → ℕ
ones_if b = if b then 65535 else 0

-- The halves that are equal become all ones, the others 0.
abbrev pub halves_eq : ℕ → ℕ → ℕ
halves_eq a b = two_halves (ones_if (a % 2 ^ 16 == b % 2 ^ 16)) (ones_if (a / 2 ^ 16 == b / 2 ^ 16))

-- The half with a number below 4 of two words.
abbrev pub half_of : ℕ → ℕ → ℕ → ℕ
half_of a b zero = a % 2 ^ 16
half_of a b (suc zero) = a / 2 ^ 16
half_of a b (suc (suc zero)) = b % 2 ^ 16
half_of a b (suc (suc (suc j))) = b / 2 ^ 16

-- A word read as a signed number is greater: the words with the highest bit flipped are.
abbrev pub signed_gt : ℕ → ℕ → ℕ
signed_gt a b = if ltb (u32 (b + 2 ^ 31)) (u32 (a + 2 ^ 31)) then 4294967295 else 0

-- The intrinsics, `_mm_` left out. The argument `_MM_SHUFFLE(z, y, x, w)` is the four selectors
-- `z y x w`, `set_epi8` takes its sixteen bytes as a list, and the casts between the types of
-- vectors are left out.
pub record Intrinsics : Type 1 where
  pub Vec : Type 0
  pub loadu_si128 : List ℕ → Vec
  pub storeu_si128 : Vec → List ℕ
  pub add_epi32 : Vec → Vec → Vec
  pub sub_epi32 : Vec → Vec → Vec
  pub xor_si128 : Vec → Vec → Vec
  pub and_si128 : Vec → Vec → Vec
  pub or_si128 : Vec → Vec → Vec
  pub andnot_si128 : Vec → Vec → Vec
  pub cmpgt_epi32 : Vec → Vec → Vec
  pub cmpeq_epi16 : Vec → Vec → Vec
  pub set1_epi16 : ℕ → Vec
  pub set_epi16 : ℕ → ℕ → ℕ → ℕ → ℕ → ℕ → ℕ → ℕ → Vec
  pub shufflelo_epi16 : Vec → ℕ → Vec
  pub shufflehi_epi16 : Vec → ℕ → Vec
  pub set1_epi32 : ℕ → Vec
  pub set_epi32 : ℕ → ℕ → ℕ → ℕ → Vec
  pub setr_epi32 : ℕ → ℕ → ℕ → ℕ → Vec
  pub set_epi8 : List ℕ → Vec
  pub srli_epi32 : Vec → ℕ → Vec
  pub slli_epi32 : Vec → ℕ → Vec
  pub shuffle_epi8 : Vec → Vec → Vec
  pub shuffle_epi32 : Vec → ℕ → ℕ → ℕ → ℕ → Vec
  pub shuffle_ps : Vec → Vec → ℕ → ℕ → ℕ → ℕ → Vec
  pub blend_epi16 : Vec → Vec → ℕ → Vec
  pub unpacklo_epi32 : Vec → Vec → Vec
  pub unpackhi_epi32 : Vec → Vec → Vec
  pub unpacklo_epi64 : Vec → Vec → Vec
  pub unpackhi_epi64 : Vec → Vec → Vec

-- What the manual says of each.
pub record Documented (k : Intrinsics) : Type 0 where
  pub lanes : k.Vec → Four
  pub lanes-IsWord :
      (v : k.Vec)
      → IsWord (lanes v).l0 × IsWord (lanes v).l1 × IsWord (lanes v).l2 × IsWord (lanes v).l3
  pub loadu :
      (p : List ℕ)
      → lanes (k.loadu_si128 p)
        ≡ record { l0 = load32 p 0; l1 = load32 p 4; l2 = load32 p 8; l3 = load32 p 12 }
  pub storeu :
      (v : k.Vec)
      → k.storeu_si128 v
        ≡ store_words ((lanes v).l0 ∷ (lanes v).l1 ∷ (lanes v).l2 ∷ (lanes v).l3 ∷ [])
  pub add : (a b : k.Vec) → lanes (k.add_epi32 a b) ≡ zip (λ x y. u32 (x + y)) (lanes a) (lanes b)
  pub sub :
      (a b : k.Vec)
      → lanes (k.sub_epi32 a b) ≡ zip (λ x y. u32 (x + 2 ^ 32 - y)) (lanes a) (lanes b)
  pub xor : (a b : k.Vec) → lanes (k.xor_si128 a b) ≡ zip bit_xor (lanes a) (lanes b)
  pub and : (a b : k.Vec) → lanes (k.and_si128 a b) ≡ zip bit_and (lanes a) (lanes b)
  pub or : (a b : k.Vec) → lanes (k.or_si128 a b) ≡ zip bit_or (lanes a) (lanes b)
  pub andnot :
      (a b : k.Vec)
      → lanes (k.andnot_si128 a b) ≡ zip (λ x y. bit_and (4294967295 - x) y) (lanes a) (lanes b)
  pub cmpeq16 : (a b : k.Vec) → lanes (k.cmpeq_epi16 a b) ≡ zip halves_eq (lanes a) (lanes b)
  pub set1_16 :
      (x : ℕ)
      → lanes (k.set1_epi16 x)
        ≡ (let w = two_halves x x in record { l0 = w; l1 = w; l2 = w; l3 = w })
  pub set16 :
      (h7 h6 h5 h4 h3 h2 h1 h0 : ℕ)
      → lanes (k.set_epi16 h7 h6 h5 h4 h3 h2 h1 h0) ≡ record {
        l0 = two_halves h0 h1;
        l1 = two_halves h2 h3;
        l2 = two_halves h4 h5;
        l3 = two_halves h6 h7;
      }
  pub shufflelo16 :
      (a : k.Vec) (imm : ℕ)
      → lanes (k.shufflelo_epi16 a imm) ≡ (
          let h = λ (j : ℕ). half_of (lanes a).l0 (lanes a).l1 (imm / 4 ^ j % 4) in
          record (lanes a) { l0 = two_halves (h 0) (h 1); l1 = two_halves (h 2) (h 3) })
  pub shufflehi16 :
      (a : k.Vec) (imm : ℕ)
      → lanes (k.shufflehi_epi16 a imm) ≡ (
          let h = λ (j : ℕ). half_of (lanes a).l2 (lanes a).l3 (imm / 4 ^ j % 4) in
          record (lanes a) { l2 = two_halves (h 0) (h 1); l3 = two_halves (h 2) (h 3) })
  pub cmpgt : (a b : k.Vec) → lanes (k.cmpgt_epi32 a b) ≡ zip signed_gt (lanes a) (lanes b)
  pub set1 :
      (x : ℕ) → lanes (k.set1_epi32 x) ≡ record { l0 = u32 x; l1 = u32 x; l2 = u32 x; l3 = u32 x }
  pub set :
      (a b c d : ℕ)
      → lanes (k.set_epi32 a b c d) ≡ record { l0 = u32 d; l1 = u32 c; l2 = u32 b; l3 = u32 a }
  pub setr :
      (a b c d : ℕ)
      → lanes (k.setr_epi32 a b c d) ≡ record { l0 = u32 a; l1 = u32 b; l2 = u32 c; l3 = u32 d }
  pub set8 :
      (b15 b14 b13 b12 b11 b10 b9 b8 b7 b6 b5 b4 b3 b2 b1 b0 : ℕ)
      → lanes (
          k.set_epi8 (
            b15 ∷ b14 ∷ b13 ∷ b12 ∷ b11 ∷ b10 ∷ b9 ∷ b8 ∷ b7 ∷ b6 ∷ b5 ∷ b4 ∷ b3 ∷ b2 ∷ b1 ∷ b0
            ∷ []))
        ≡ from_bytes (
            map
              (λ b. u8 b)
              (b0 ∷ b1 ∷ b2 ∷ b3 ∷ b4 ∷ b5 ∷ b6 ∷ b7 ∷ b8 ∷ b9 ∷ b10 ∷ b11 ∷ b12 ∷ b13 ∷ b14 ∷ b15
                ∷ []))
  pub srli : (a : k.Vec) (n : ℕ) → n < 32 → lanes (k.srli_epi32 a n) ≡ each (λ x. x >>> n) (lanes a)
  pub slli :
      (a : k.Vec) (n : ℕ) → n < 32 → lanes (k.slli_epi32 a n) ≡ each (λ x. u32 (x <<< n)) (lanes a)
  pub shuffle8 :
      (a b : k.Vec)
      → lanes (k.shuffle_epi8 a b)
        ≡ from_bytes (map (choose_byte (bytes (lanes a))) (bytes (lanes b)))
  pub shuffle32 :
      (a : k.Vec) (z y x w : ℕ)
      → lanes (k.shuffle_epi32 a z y x w) ≡ record {
        l0 = lane (lanes a) w;
        l1 = lane (lanes a) x;
        l2 = lane (lanes a) y;
        l3 = lane (lanes a) z;
      }
  pub shuffle_two :
      (a b : k.Vec) (z y x w : ℕ)
      → lanes (k.shuffle_ps a b z y x w) ≡ record {
        l0 = lane (lanes a) w;
        l1 = lane (lanes a) x;
        l2 = lane (lanes b) y;
        l3 = lane (lanes b) z;
      }
  pub blend :
      (a b : k.Vec) (imm : ℕ)
      → lanes (k.blend_epi16 a b imm) ≡ record {
        l0 = blend_word imm 0 (lanes a).l0 (lanes b).l0;
        l1 = blend_word imm 2 (lanes a).l1 (lanes b).l1;
        l2 = blend_word imm 4 (lanes a).l2 (lanes b).l2;
        l3 = blend_word imm 6 (lanes a).l3 (lanes b).l3;
      }
  pub unpacklo32 :
      (a b : k.Vec)
      → lanes (k.unpacklo_epi32 a b)
        ≡ record { l0 = (lanes a).l0; l1 = (lanes b).l0; l2 = (lanes a).l1; l3 = (lanes b).l1 }
  pub unpackhi32 :
      (a b : k.Vec)
      → lanes (k.unpackhi_epi32 a b)
        ≡ record { l0 = (lanes a).l2; l1 = (lanes b).l2; l2 = (lanes a).l3; l3 = (lanes b).l3 }
  pub unpacklo64 :
      (a b : k.Vec)
      → lanes (k.unpacklo_epi64 a b)
        ≡ record { l0 = (lanes a).l0; l1 = (lanes a).l1; l2 = (lanes b).l0; l3 = (lanes b).l1 }
  pub unpackhi64 :
      (a b : k.Vec)
      → lanes (k.unpackhi_epi64 a b)
        ≡ record { l0 = (lanes a).l2; l1 = (lanes a).l3; l2 = (lanes b).l2; l3 = (lanes b).l3 }
