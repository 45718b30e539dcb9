-- ===== src/Sse/Machine.antt =====
-- Vectors as four words, on which every instruction does what its manual says.
use blake.Base.{
  ℕ, zero, suc, ◌+◌, ◌-◌, ◌/◌, ◌%◌, ◌^◌, ◌<◌, bit_and, bit_or, bit_xor, ◌≡◌, refl, arith, List, [],
  ◌∷◌, map, All, IsByte, IsWord, u8, u32, ◌<<<◌, ◌>>>◌,
}
use blake.Base.Bits.{bit_and_step, bit_or-lt, bit_xor-lt}
use native.Mathlib.Nat.{mod-eq_of_lt, div-le_self, pow-suc}
use blake.Impl.{at, load32, store_words}
use blake.Sse.{
  Four, Intrinsics, Documented, each, zip, lane, bytes, from_bytes, word_at, choose_byte,
  blend_word, two_halves, halves_eq, half_of, signed_gt,
}
use blake.Sse.Lanes.{four_equal}

-- The four words of a vector.
abbrev fit : Four → Four
fit a = each (λ w. u32 w) a

abbrev FourWords : Four → Type 0
FourWords a = IsWord a.l0 × IsWord a.l1 × IsWord a.l2 × IsWord a.l3

fit_words : (a : Four) → FourWords a → fit a ≡ a
fit_words a (h0, h1, h2, h3) =
    four_equal {a = fit a} {b = a} (mod-eq_of_lt h0) (mod-eq_of_lt h1) (mod-eq_of_lt h2)
      (mod-eq_of_lt h3)

fit-FourWords : (a : Four) → FourWords (fit a)
fit-FourWords a = (omega arith, omega arith, omega arith, omega arith)

bit_and-lt : (k a b : ℕ) → a < 2 ^ k → b < 2 ^ k → bit_and a b < 2 ^ k
bit_and-lt zero zero zero h g = omega arith
bit_and-lt zero (suc a) b h g = absurd (omega arith)
bit_and-lt zero zero (suc b) h g = absurd (omega arith)
bit_and-lt (suc k) a b h g = omega (
  arith,
  bit_and_step a b,
  pow-suc 2 k,
  bit_and-lt k (a / 2) (b / 2) (omega (arith, pow-suc 2 k)) (omega (arith, pow-suc 2 k)),
)

zip-FourWords :
    (f : ℕ → ℕ → ℕ)
    → ((x y : ℕ) → IsWord x → IsWord y → IsWord (f x y))
    → (a b : Four) → FourWords (zip f (fit a) (fit b))
zip-FourWords f h a b = (
  h _ _ (omega arith) (omega arith),
  h _ _ (omega arith) (omega arith),
  h _ _ (omega arith) (omega arith),
  h _ _ (omega arith) (omega arith),
)

lane-IsWord : (a : Four) (i : ℕ) → IsWord (lane (fit a) i)
lane-IsWord a zero = omega arith
lane-IsWord a (suc zero) = omega arith
lane-IsWord a (suc (suc zero)) = omega arith
lane-IsWord a (suc (suc (suc i))) = omega arith

at-IsByte : (p : List ℕ) (i : ℕ) → All IsByte p → IsByte (at p i)
at-IsByte [] i h = omega arith
at-IsByte (x ∷ p) zero h = h.0
at-IsByte (x ∷ p) (suc i) h = at-IsByte p i h.1

map-IsByte : (f : ℕ → ℕ) → ((x : ℕ) → IsByte (f x)) → (p : List ℕ) → All IsByte (map f p)
map-IsByte f h [] = tt
map-IsByte f h (x ∷ p) = (h x, map-IsByte f h p)

from_bytes-FourWords : (p : List ℕ) → All IsByte p → FourWords (from_bytes p)
from_bytes-FourWords p h =
    let b = λ (i : ℕ). at-IsByte p i h in
    let w = λ (i : ℕ).
      let q : IsWord (word_at p i) = omega (arith, b i, b (i + 1), b (i + 2), b (i + 3)) in q in
    (w 0, w 4, w 8, w 12)

fit-mapped :
    (f : ℕ → ℕ)
    → ((x : ℕ) → IsByte (f x))
    → (p : List ℕ) → fit (from_bytes (map f p)) ≡ from_bytes (map f p)
fit-mapped f h p =
    fit_words (from_bytes (map f p)) (from_bytes-FourWords (map f p) (map-IsByte f h p))

choose-IsByte : (p : List ℕ) → All IsByte p → (c : ℕ) → IsByte (choose_byte p c)
choose-IsByte p h c = ground (arith, at-IsByte p (c % 16) h)

bytes-IsByte : (a : Four) → All IsByte (bytes a)
bytes-IsByte a = omega arith

load32-IsWord : (p : List ℕ) (i : ℕ) → IsWord (load32 p i)
unfolding load32
load32-IsWord p i =
    bit_or-lt 32 _ _ (bit_or-lt 32 _ _ (bit_or-lt 32 _ _ (omega arith) (omega arith)) (omega arith))
      (omega arith)

blend-IsWord : (imm j a b : ℕ) → IsWord a → IsWord b → IsWord (blend_word imm j a b)
blend-IsWord imm j a b h g = ground arith

signed_gt-IsWord : (a b : ℕ) → IsWord (signed_gt a b)
signed_gt-IsWord a b = ground arith

shifted-IsWord : (n w : ℕ) → IsWord w → IsWord (w >>> n)
shifted-IsWord n w h = omega (arith, div-le_self w (2 ^ n))

-- The instructions.
abbrev pub machine : Intrinsics
machine = record {
  Vec = Four;
  loadu_si128 = λ p. record { l0 = load32 p 0; l1 = load32 p 4; l2 = load32 p 8; l3 = load32 p 12 };
  storeu_si128 = λ v. store_words ((fit v).l0 ∷ (fit v).l1 ∷ (fit v).l2 ∷ (fit v).l3 ∷ []);
  add_epi32 = λ a b. zip (λ x y. u32 (x + y)) (fit a) (fit b);
  sub_epi32 = λ a b. zip (λ x y. u32 (x + 2 ^ 32 - y)) (fit a) (fit b);
  xor_si128 = λ a b. zip bit_xor (fit a) (fit b);
  and_si128 = λ a b. zip bit_and (fit a) (fit b);
  or_si128 = λ a b. zip bit_or (fit a) (fit b);
  andnot_si128 = λ a b. zip (λ x y. bit_and (4294967295 - x) y) (fit a) (fit b);
  cmpgt_epi32 = λ a b. zip signed_gt (fit a) (fit b);
  cmpeq_epi16 = λ a b. zip halves_eq (fit a) (fit b);
  set1_epi16 = λ x. record {
    l0 = two_halves x x;
    l1 = two_halves x x;
    l2 = two_halves x x;
    l3 = two_halves x x;
  };
  set_epi16 = λ a b c e f g h i. record {
    l0 = two_halves i h;
    l1 = two_halves g f;
    l2 = two_halves e c;
    l3 = two_halves b a;
  };
  shufflelo_epi16 = λ a n.
      let h = λ (j : ℕ). half_of (fit a).l0 (fit a).l1 (n / 4 ^ j % 4) in
      record (fit a) { l0 = two_halves (h 0) (h 1); l1 = two_halves (h 2) (h 3) };
  shufflehi_epi16 = λ a n.
      let h = λ (j : ℕ). half_of (fit a).l2 (fit a).l3 (n / 4 ^ j % 4) in
      record (fit a) { l2 = two_halves (h 0) (h 1); l3 = two_halves (h 2) (h 3) };
  set1_epi32 = λ x. record { l0 = u32 x; l1 = u32 x; l2 = u32 x; l3 = u32 x };
  set_epi32 = λ a b c e. record { l0 = u32 e; l1 = u32 c; l2 = u32 b; l3 = u32 a };
  setr_epi32 = λ a b c e. record { l0 = u32 a; l1 = u32 b; l2 = u32 c; l3 = u32 e };
  set_epi8 = λ p. from_bytes (
      map (λ b. u8 b)
        (at p 15
          ∷ at p 14
          ∷ at p 13
          ∷ at p 12
          ∷ at p 11
          ∷ at p 10
          ∷ at p 9
          ∷ at p 8
          ∷ at p 7
          ∷ at p 6
          ∷ at p 5
          ∷ at p 4
          ∷ at p 3
          ∷ at p 2
          ∷ at p 1
          ∷ at p 0
          ∷ []));
  srli_epi32 = λ a n. each (λ x. x >>> n) (fit a);
  slli_epi32 = λ a n. each (λ x. u32 (x <<< n)) (fit a);
  shuffle_epi8 = λ a b. from_bytes (map (choose_byte (bytes (fit a))) (bytes (fit b)));
  shuffle_epi32 = λ a z y x w. record {
    l0 = lane (fit a) w;
    l1 = lane (fit a) x;
    l2 = lane (fit a) y;
    l3 = lane (fit a) z;
  };
  shuffle_ps = λ a b z y x w. record {
    l0 = lane (fit a) w;
    l1 = lane (fit a) x;
    l2 = lane (fit b) y;
    l3 = lane (fit b) z;
  };
  blend_epi16 = λ a b n. record {
    l0 = blend_word n 0 (fit a).l0 (fit b).l0;
    l1 = blend_word n 2 (fit a).l1 (fit b).l1;
    l2 = blend_word n 4 (fit a).l2 (fit b).l2;
    l3 = blend_word n 6 (fit a).l3 (fit b).l3;
  };
  unpacklo_epi32 =
      λ a b. record { l0 = (fit a).l0; l1 = (fit b).l0; l2 = (fit a).l1; l3 = (fit b).l1 };
  unpackhi_epi32 =
      λ a b. record { l0 = (fit a).l2; l1 = (fit b).l2; l2 = (fit a).l3; l3 = (fit b).l3 };
  unpacklo_epi64 =
      λ a b. record { l0 = (fit a).l0; l1 = (fit a).l1; l2 = (fit b).l0; l3 = (fit b).l1 };
  unpackhi_epi64 =
      λ a b. record { l0 = (fit a).l2; l1 = (fit a).l3; l2 = (fit b).l2; l3 = (fit b).l3 };
}

-- They do what the manual says.
pub machine-Documented : Documented machine
machine-Documented = record {
  lanes = fit;
  lanes-IsWord = fit-FourWords;
  storeu = λ v. refl;
  loadu = λ p.
      fit_words _ ((load32-IsWord p 0, load32-IsWord p 4, load32-IsWord p 8, load32-IsWord p 12));
  add = λ a b. fit_words _ (zip-FourWords (λ x y. u32 (x + y)) (λ x y h g. omega arith) a b);
  sub =
      λ a b. fit_words _ (zip-FourWords (λ x y. u32 (x + 2 ^ 32 - y)) (λ x y h g. omega arith) a b);
  xor = λ a b. fit_words _ (zip-FourWords bit_xor (bit_xor-lt 32) a b);
  and = λ a b. fit_words _ (zip-FourWords bit_and (bit_and-lt 32) a b);
  or = λ a b. fit_words _ (zip-FourWords bit_or (bit_or-lt 32) a b);
  andnot = λ a b. fit_words _ (
      zip-FourWords (λ x y. bit_and (4294967295 - x) y)
        (λ x y h g. bit_and-lt 32 (4294967295 - x) y (omega arith) g) a b);
  cmpeq16 = λ a b. fit_words _ (zip-FourWords halves_eq (λ x y h g. omega arith) a b);
  set1_16 = λ x. fit_words _ ((omega arith, omega arith, omega arith, omega arith));
  set16 = λ a b c e f g h i. fit_words _ ((omega arith, omega arith, omega arith, omega arith));
  shufflelo16 = λ a n. fit_words _ ((omega arith, omega arith, omega arith, omega arith));
  shufflehi16 = λ a n. fit_words _ ((omega arith, omega arith, omega arith, omega arith));
  cmpgt = λ a b. fit_words _ (zip-FourWords signed_gt (λ x y h g. signed_gt-IsWord x y) a b);
  set1 = λ x. fit_words _ ((omega arith, omega arith, omega arith, omega arith));
  set = λ a b c e. fit_words _ ((omega arith, omega arith, omega arith, omega arith));
  setr = λ a b c e. fit_words _ ((omega arith, omega arith, omega arith, omega arith));
  shuffle8 = λ a b.
      fit-mapped (choose_byte (bytes (fit a)))
        (choose-IsByte (bytes (fit a)) (bytes-IsByte (fit a))) (bytes (fit b));
  shuffle32 = λ a z y x w.
      fit_words _ ((lane-IsWord a w, lane-IsWord a x, lane-IsWord a y, lane-IsWord a z));
  shuffle_two = λ a b z y x w.
      fit_words _ ((lane-IsWord a w, lane-IsWord a x, lane-IsWord b y, lane-IsWord b z));
  blend = λ a b n. fit_words _ (
      (
        blend-IsWord n 0 _ _ (omega arith) (omega arith),
        blend-IsWord n 2 _ _ (omega arith) (omega arith),
        blend-IsWord n 4 _ _ (omega arith) (omega arith),
        blend-IsWord n 6 _ _ (omega arith) (omega arith),
      ));
  unpacklo32 = λ a b. fit_words _ ((omega arith, omega arith, omega arith, omega arith));
  unpackhi32 = λ a b. fit_words _ ((omega arith, omega arith, omega arith, omega arith));
  unpacklo64 = λ a b. fit_words _ ((omega arith, omega arith, omega arith, omega arith));
  unpackhi64 = λ a b. fit_words _ ((omega arith, omega arith, omega arith, omega arith));
  set8 = λ a15 a14 a13 a12 a11 a10 a9 a8 a7 a6 a5 a4 a3 a2 a1 a0.
      fit-mapped (λ b. u8 b) (λ x. omega arith)
        (a0 ∷ a1 ∷ a2 ∷ a3 ∷ a4 ∷ a5 ∷ a6 ∷ a7 ∷ a8 ∷ a9 ∷ a10 ∷ a11 ∷ a12 ∷ a13 ∷ a14 ∷ a15 ∷ []);
  srli = λ a n h. fit_words _ (
    shifted-IsWord n (fit a).l0 (omega arith),
    shifted-IsWord n (fit a).l1 (omega arith),
    shifted-IsWord n (fit a).l2 (omega arith),
    shifted-IsWord n (fit a).l3 (omega arith),
  );
  slli = λ a n h. fit_words _ (omega arith, omega arith, omega arith, omega arith);
}
