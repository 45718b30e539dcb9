-- ===== src/Avx2.antt =====
-- c/blake3_avx2.c: the hashing of eight inputs at a time. The 256-bit vectors are two halves of four
-- lanes, on which the instructions work apart. The intrinsics are a parameter, with what their manual
-- says of each half.
pub mod Lanes
pub mod Counters
pub mod Transposed
pub mod Agrees
pub mod Machine
mod Tests
use blake.Base.{
  ℕ, zero, suc, ◌+◌, ◌*◌, ◌^◌, ◌-◌, ◌<◌, bit_and, bit_or, bit_xor, ◌≡◌, List, [], ◌∷◌, ◌++◌, Bool,
  map, drop, get_or, if◌then◌else◌, IsWord, u8, u32, u64, ◌<<<◌, ◌>>>◌,
}
use blake.Impl.{load32, store_words}
use blake.Sse.{Four, each, zip, bytes, from_bytes, choose_byte, signed_gt}
use blake.Sse
use blake.Sse.Sse41
use blake.Wide.{Ops, Group, Sixteen, Eight, block_loop, key_vecs}

pub record Halves : Type 0 where
  pub lo : Four
  pub hi : Four

abbrev pub in_both : (Four → Four → Four) → Halves → Halves → Halves
in_both f a b = record { lo = f a.lo b.lo; hi = f a.hi b.hi }

abbrev pub same : ℕ → Four
same x = record { l0 = x; l1 = x; l2 = x; l3 = x }

abbrev pub four : ℕ → ℕ → ℕ → ℕ → Four
four a b c d = record { l0 = a; l1 = b; l2 = c; l3 = d }

abbrev pub FourWords : Four → Type 0
FourWords a = IsWord a.l0 × IsWord a.l1 × IsWord a.l2 × IsWord a.l3

-- The intrinsics, `_mm256_` left out. `set_epi8` takes its 32 bytes as two lists, the one for the
-- high half first; the immediate 0x20 of `permute2x128` takes the low halves and 0x31 the high ones.
pub record Intrinsics : Type 1 where
  pub Vec : Type 0
  pub loadu_si256 : List ℕ → Vec
  pub storeu_si256 : Vec → List ℕ
  pub add_epi32 : Vec → Vec → Vec
  pub sub_epi32 : Vec → Vec → Vec
  pub xor_si256 : Vec → Vec → Vec
  pub and_si256 : Vec → Vec → Vec
  pub or_si256 : Vec → Vec → Vec
  pub cmpgt_epi32 : Vec → Vec → Vec
  pub set1_epi32 : ℕ → Vec
  pub set_epi32 : ℕ → ℕ → ℕ → ℕ → ℕ → ℕ → ℕ → ℕ → Vec
  pub set_epi8 : List ℕ → List ℕ → Vec
  pub srli_epi32 : Vec → ℕ → Vec
  pub slli_epi32 : Vec → ℕ → Vec
  pub shuffle_epi8 : Vec → Vec → Vec
  pub unpacklo_epi32 : Vec → Vec → Vec
  pub unpackhi_epi32 : Vec → Vec → Vec
  pub unpacklo_epi64 : Vec → Vec → Vec
  pub unpackhi_epi64 : Vec → Vec → Vec
  pub permute2x128_si256 : Vec → Vec → ℕ → Vec

-- What the manual says of each.
pub record Documented (k : Intrinsics) : Type 0 where
  pub halves : k.Vec → Halves
  pub halves-IsWord : (v : k.Vec) → FourWords (halves v).lo × FourWords (halves v).hi
  pub loadu :
      (p : List ℕ)
      → halves (k.loadu_si256 p) ≡ record {
        lo = four (load32 p 0) (load32 p 4) (load32 p 8) (load32 p 12);
        hi = four (load32 p 16) (load32 p 20) (load32 p 24) (load32 p 28);
      }
  pub storeu :
      (v : k.Vec)
      → k.storeu_si256 v
        ≡ store_words (
            (halves v).lo.l0
            ∷ (halves v).lo.l1
            ∷ (halves v).lo.l2
            ∷ (halves v).lo.l3
            ∷ (halves v).hi.l0
            ∷ (halves v).hi.l1
            ∷ (halves v).hi.l2
            ∷ (halves v).hi.l3
            ∷ [])
  pub add :
      (a b : k.Vec)
      → halves (k.add_epi32 a b) ≡ in_both (zip (λ x y. u32 (x + y))) (halves a) (halves b)
  pub sub :
      (a b : k.Vec)
      → halves (k.sub_epi32 a b) ≡ in_both (zip (λ x y. u32 (x + 2 ^ 32 - y))) (halves a) (halves b)
  pub xor : (a b : k.Vec) → halves (k.xor_si256 a b) ≡ in_both (zip bit_xor) (halves a) (halves b)
  pub and : (a b : k.Vec) → halves (k.and_si256 a b) ≡ in_both (zip bit_and) (halves a) (halves b)
  pub or : (a b : k.Vec) → halves (k.or_si256 a b) ≡ in_both (zip bit_or) (halves a) (halves b)
  pub cmpgt :
      (a b : k.Vec) → halves (k.cmpgt_epi32 a b) ≡ in_both (zip signed_gt) (halves a) (halves b)
  pub set1 : (x : ℕ) → halves (k.set1_epi32 x) ≡ record { lo = same (u32 x); hi = same (u32 x) }
  pub set :
      (a b c d e f g h : ℕ)
      → halves (k.set_epi32 a b c d e f g h) ≡ record {
        lo = four (u32 h) (u32 g) (u32 f) (u32 e);
        hi = four (u32 d) (u32 c) (u32 b) (u32 a);
      }
  pub set8 :
      (b15 b14 b13 b12 b11 b10 b9 b8 b7 b6 b5 b4 b3 b2 b1 b0 : ℕ)
      → let high_first =
          b15 ∷ b14 ∷ b13 ∷ b12 ∷ b11 ∷ b10 ∷ b9 ∷ b8 ∷ b7 ∷ b6 ∷ b5 ∷ b4 ∷ b3 ∷ b2 ∷ b1 ∷ b0
          ∷ [] in
        let half = from_bytes (
          map
            (λ b. u8 b)
            (b0 ∷ b1 ∷ b2 ∷ b3 ∷ b4 ∷ b5 ∷ b6 ∷ b7 ∷ b8 ∷ b9 ∷ b10 ∷ b11 ∷ b12 ∷ b13 ∷ b14 ∷ b15
              ∷ [])) in
        halves (k.set_epi8 high_first high_first) ≡ record { lo = half; hi = half }
  pub srli :
      (a : k.Vec) (n : ℕ)
      → n < 32
      → halves (k.srli_epi32 a n)
        ≡ record { lo = each (λ x. x >>> n) (halves a).lo; hi = each (λ x. x >>> n) (halves a).hi }
  pub slli :
      (a : k.Vec) (n : ℕ)
      → n < 32
      → halves (k.slli_epi32 a n) ≡ record {
        lo = each (λ x. u32 (x <<< n)) (halves a).lo;
        hi = each (λ x. u32 (x <<< n)) (halves a).hi;
      }
  pub shuffle8 :
      (a b : k.Vec)
      → halves (k.shuffle_epi8 a b)
        ≡ in_both (λ x y. from_bytes (map (choose_byte (bytes x)) (bytes y))) (halves a) (halves b)
  pub unpacklo32 :
      (a b : k.Vec)
      → halves (k.unpacklo_epi32 a b)
        ≡ in_both (λ x y. four x.l0 y.l0 x.l1 y.l1) (halves a) (halves b)
  pub unpackhi32 :
      (a b : k.Vec)
      → halves (k.unpackhi_epi32 a b)
        ≡ in_both (λ x y. four x.l2 y.l2 x.l3 y.l3) (halves a) (halves b)
  pub unpacklo64 :
      (a b : k.Vec)
      → halves (k.unpacklo_epi64 a b)
        ≡ in_both (λ x y. four x.l0 x.l1 y.l0 y.l1) (halves a) (halves b)
  pub unpackhi64 :
      (a b : k.Vec)
      → halves (k.unpackhi_epi64 a b)
        ≡ in_both (λ x y. four x.l2 x.l3 y.l2 y.l3) (halves a) (halves b)
  pub permute_low :
      (a b : k.Vec)
      → halves (k.permute2x128_si256 a b 0x20) ≡ record { lo = (halves a).lo; hi = (halves b).lo }
  pub permute_high :
      (a b : k.Vec)
      → halves (k.permute2x128_si256 a b 0x31) ≡ record { lo = (halves a).hi; hi = (halves b).hi }

module _ (k : Intrinsics) where
  open k use {Vec}

  unfoldable pub rot16 : Vec → Vec
  rot16 x = k.shuffle_epi8 x (
      k.set_epi8 (13 ∷ 12 ∷ 15 ∷ 14 ∷ 9 ∷ 8 ∷ 11 ∷ 10 ∷ 5 ∷ 4 ∷ 7 ∷ 6 ∷ 1 ∷ 0 ∷ 3 ∷ 2 ∷ [])
        (13 ∷ 12 ∷ 15 ∷ 14 ∷ 9 ∷ 8 ∷ 11 ∷ 10 ∷ 5 ∷ 4 ∷ 7 ∷ 6 ∷ 1 ∷ 0 ∷ 3 ∷ 2 ∷ []))

  unfoldable pub rot12 : Vec → Vec
  rot12 x = k.or_si256 (k.srli_epi32 x 12) (k.slli_epi32 x (32 - 12))

  unfoldable pub rot8 : Vec → Vec
  rot8 x = k.shuffle_epi8 x (
      k.set_epi8 (12 ∷ 15 ∷ 14 ∷ 13 ∷ 8 ∷ 11 ∷ 10 ∷ 9 ∷ 4 ∷ 7 ∷ 6 ∷ 5 ∷ 0 ∷ 3 ∷ 2 ∷ 1 ∷ [])
        (12 ∷ 15 ∷ 14 ∷ 13 ∷ 8 ∷ 11 ∷ 10 ∷ 9 ∷ 4 ∷ 7 ∷ 6 ∷ 5 ∷ 0 ∷ 3 ∷ 2 ∷ 1 ∷ []))

  unfoldable pub rot7 : Vec → Vec
  rot7 x = k.or_si256 (k.srli_epi32 x 7) (k.slli_epi32 x (32 - 7))

  abbrev pub ops : Ops
  ops = record {
    Vec = Vec;
    addv = k.add_epi32;
    xorv = k.xor_si256;
    set1 = k.set1_epi32;
    rot16 = rot16;
    rot12 = rot12;
    rot8 = rot8;
    rot7 = rot7;
  }

  unfoldable pub transpose_vecs : Eight Vec → Eight Vec
  transpose_vecs vecs =
      let ab_0145 = k.unpacklo_epi32 vecs.lo.w0 vecs.lo.w1 in
      let ab_2367 = k.unpackhi_epi32 vecs.lo.w0 vecs.lo.w1 in
      let cd_0145 = k.unpacklo_epi32 vecs.lo.w2 vecs.lo.w3 in
      let cd_2367 = k.unpackhi_epi32 vecs.lo.w2 vecs.lo.w3 in
      let ef_0145 = k.unpacklo_epi32 vecs.hi.w0 vecs.hi.w1 in
      let ef_2367 = k.unpackhi_epi32 vecs.hi.w0 vecs.hi.w1 in
      let gh_0145 = k.unpacklo_epi32 vecs.hi.w2 vecs.hi.w3 in
      let gh_2367 = k.unpackhi_epi32 vecs.hi.w2 vecs.hi.w3 in
      let abcd_04 = k.unpacklo_epi64 ab_0145 cd_0145 in
      let abcd_15 = k.unpackhi_epi64 ab_0145 cd_0145 in
      let abcd_26 = k.unpacklo_epi64 ab_2367 cd_2367 in
      let abcd_37 = k.unpackhi_epi64 ab_2367 cd_2367 in
      let efgh_04 = k.unpacklo_epi64 ef_0145 gh_0145 in
      let efgh_15 = k.unpackhi_epi64 ef_0145 gh_0145 in
      let efgh_26 = k.unpacklo_epi64 ef_2367 gh_2367 in
      let efgh_37 = k.unpackhi_epi64 ef_2367 gh_2367 in
      record {
        lo = record {
          w0 = k.permute2x128_si256 abcd_04 efgh_04 0x20;
          w1 = k.permute2x128_si256 abcd_15 efgh_15 0x20;
          w2 = k.permute2x128_si256 abcd_26 efgh_26 0x20;
          w3 = k.permute2x128_si256 abcd_37 efgh_37 0x20;
        };
        hi = record {
          w0 = k.permute2x128_si256 abcd_04 efgh_04 0x31;
          w1 = k.permute2x128_si256 abcd_15 efgh_15 0x31;
          w2 = k.permute2x128_si256 abcd_26 efgh_26 0x31;
          w3 = k.permute2x128_si256 abcd_37 efgh_37 0x31;
        };
      }

  -- `loadu(&inputs[j][offset])`
  abbrev pub load_input : List (List ℕ) → ℕ → ℕ → Vec
  load_input inputs offset j = k.loadu_si256 (drop offset (get_or inputs j []))

  abbrev pub load_inputs : List (List ℕ) → ℕ → Eight Vec
  load_inputs inputs offset =
      let v = load_input inputs offset in
      record {
        lo = record { w0 = v 0; w1 = v 1; w2 = v 2; w3 = v 3 };
        hi = record { w0 = v 4; w1 = v 5; w2 = v 6; w3 = v 7 };
      }

  unfoldable pub transpose_msg_vecs : List (List ℕ) → ℕ → Sixteen Vec
  unfolding transpose_vecs
  transpose_msg_vecs inputs block_offset =
      let low = transpose_vecs (load_inputs inputs (block_offset + 0 * 32)) in
      let high = transpose_vecs (load_inputs inputs (block_offset + 1 * 32)) in
      record { a = low.lo; b = low.hi; c = high.lo; d = high.hi }

  unfoldable pub load_counters : ℕ → Bool → Vec × Vec
  load_counters counter increment_counter =
      let mask = k.set1_epi32 (if increment_counter then 4294967295 else 0) in
      let add0 = k.set_epi32 7 6 5 4 3 2 1 0 in
      let add1 = k.and_si256 mask add0 in
      let l = k.add_epi32 (k.set1_epi32 (u32 counter)) add1 in
      let carry =
        k.cmpgt_epi32 (k.xor_si256 add1 (k.set1_epi32 0x80000000))
          (k.xor_si256 l (k.set1_epi32 0x80000000)) in
      let h = k.sub_epi32 (k.set1_epi32 (u32 (counter >>> 32))) carry in (l, h)

  -- The 32-byte outputs of the first eight inputs.
  unfoldable pub hash8 : List (List ℕ) → ℕ → List ℕ → ℕ → Bool → ℕ → ℕ → ℕ → List (List ℕ)
  unfolding transpose_msg_vecs load_counters
  hash8 inputs blocks key counter increment_counter flags flags_start flags_end =
      let c = load_counters counter increment_counter in
      let h = transpose_vecs (
        block_loop ops transpose_msg_vecs inputs c.0 c.1 flags flags_end blocks 0
          (bit_or flags flags_start) (key_vecs ops key)) in
      k.storeu_si256 h.lo.w0
      ∷ k.storeu_si256 h.lo.w1
      ∷ k.storeu_si256 h.lo.w2
      ∷ k.storeu_si256 h.lo.w3
      ∷ k.storeu_si256 h.hi.w0
      ∷ k.storeu_si256 h.hi.w1
      ∷ k.storeu_si256 h.hi.w2
      ∷ k.storeu_si256 h.hi.w3
      ∷ []

-- `while (num_inputs >= DEGREE)`, and then `blake3_hash_many_sse41`.
unfoldable pub hash_many :
    Intrinsics → Sse.Intrinsics → List (List ℕ) → ℕ → List ℕ → ℕ → Bool → ℕ → ℕ → ℕ → List (List ℕ)
unfolding hash8
hash_many k sse (a ∷ b ∷ c ∷ d ∷ e ∷ f ∷ g ∷ h ∷ inputs) blocks key counter increment_counter flags
      flags_start flags_end =
    hash8 k (a ∷ b ∷ c ∷ d ∷ e ∷ f ∷ g ∷ h ∷ inputs) blocks key counter increment_counter flags
      flags_start flags_end
    ++ hash_many k sse inputs blocks key (if increment_counter then u64 (counter + 8) else counter)
        increment_counter flags flags_start flags_end
hash_many k sse inputs blocks key counter increment_counter flags flags_start flags_end =
    Sse41.hash_many sse inputs blocks key counter increment_counter flags flags_start flags_end
