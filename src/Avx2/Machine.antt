-- ===== src/Avx2/Machine.antt =====
-- Vectors of eight words as two vectors of four.
use blake.Base.{refl, ◌∙◌, [], ◌∷◌, drop, ◌==◌, if◌then◌else◌}
use blake.Impl.{store_words}
use blake.Sse
use blake.Sse.Messages.{load32-drop}
use blake.Sse.Lanes.{four_equal}
use blake.Avx2.{Intrinsics, Documented}

pub record Two (A : Type 0) : Type 0 where
  pub lo : A
  pub hi : A

module _ (m : Sse.Intrinsics) (d : Sse.Documented m) where
  abbrev pub in_both : (m.Vec → m.Vec → m.Vec) → Two m.Vec → Two m.Vec → Two m.Vec
  in_both f a b = record { lo = f a.lo b.lo; hi = f a.hi b.hi }

  abbrev pub doubled : Intrinsics
  doubled = record {
    Vec = Two m.Vec;
    loadu_si256 = λ p. record { lo = m.loadu_si128 p; hi = m.loadu_si128 (drop 16 p) };
    storeu_si256 = λ v.
        let a = d.lanes v.lo in
        let b = d.lanes v.hi in
        store_words (a.l0 ∷ a.l1 ∷ a.l2 ∷ a.l3 ∷ b.l0 ∷ b.l1 ∷ b.l2 ∷ b.l3 ∷ []);
    set1_epi32 = λ x. record { lo = m.set1_epi32 x; hi = m.set1_epi32 x };
    set_epi32 = λ a b c e f g h i. record { lo = m.set_epi32 f g h i; hi = m.set_epi32 a b c e };
    set_epi8 = λ p q. record { lo = m.set_epi8 q; hi = m.set_epi8 p };
    srli_epi32 = λ a n. record { lo = m.srli_epi32 a.lo n; hi = m.srli_epi32 a.hi n };
    slli_epi32 = λ a n. record { lo = m.slli_epi32 a.lo n; hi = m.slli_epi32 a.hi n };
    permute2x128_si256 = λ a b imm.
        if imm == 0x20 then record { lo = a.lo; hi = b.lo } else record { lo = a.hi; hi = b.hi };
    add_epi32 = in_both m.add_epi32;
    sub_epi32 = in_both m.sub_epi32;
    xor_si256 = in_both m.xor_si128;
    and_si256 = in_both m.and_si128;
    or_si256 = in_both m.or_si128;
    cmpgt_epi32 = in_both m.cmpgt_epi32;
    shuffle_epi8 = in_both m.shuffle_epi8;
    unpacklo_epi32 = in_both m.unpacklo_epi32;
    unpackhi_epi32 = in_both m.unpackhi_epi32;
    unpacklo_epi64 = in_both m.unpacklo_epi64;
    unpackhi_epi64 = in_both m.unpackhi_epi64;
  }

  -- They do what the manual says where the vectors of four do.
  pub doubled-Documented : Documented doubled
  doubled-Documented = record {
    halves = λ v. record { lo = d.lanes v.lo; hi = d.lanes v.hi };
    halves-IsWord = λ v. (d.lanes-IsWord v.lo, d.lanes-IsWord v.hi);
    loadu = λ p i. record {
      lo = d.loadu p i;
      hi =
          (d.loadu (drop 16 p)
              ∙ four_equal (load32-drop 16 0 p) (load32-drop 16 4 p) (load32-drop 16 8 p)
                  (load32-drop 16 12 p))
            i;
    };
    storeu = λ v. refl;
    set1 = λ x i. record { lo = d.set1 x i; hi = d.set1 x i };
    set = λ a b c e f g h j i. record { lo = d.set f g h j i; hi = d.set a b c e i };
    set8 = λ a b c e f g h j k l n o p q r s i.
        let half = d.set8 a b c e f g h j k l n o p q r s in record { lo = half i; hi = half i };
    srli = λ a n h i. record { lo = d.srli a.lo n h i; hi = d.srli a.hi n h i };
    slli = λ a n h i. record { lo = d.slli a.lo n h i; hi = d.slli a.hi n h i };
    permute_low = λ a b. refl;
    permute_high = λ a b. refl;
    add = λ a b i. record { lo = d.add a.lo b.lo i; hi = d.add a.hi b.hi i };
    sub = λ a b i. record { lo = d.sub a.lo b.lo i; hi = d.sub a.hi b.hi i };
    xor = λ a b i. record { lo = d.xor a.lo b.lo i; hi = d.xor a.hi b.hi i };
    and = λ a b i. record { lo = d.and a.lo b.lo i; hi = d.and a.hi b.hi i };
    or = λ a b i. record { lo = d.or a.lo b.lo i; hi = d.or a.hi b.hi i };
    cmpgt = λ a b i. record { lo = d.cmpgt a.lo b.lo i; hi = d.cmpgt a.hi b.hi i };
    shuffle8 = λ a b i. record { lo = d.shuffle8 a.lo b.lo i; hi = d.shuffle8 a.hi b.hi i };
    unpacklo32 = λ a b i. record { lo = d.unpacklo32 a.lo b.lo i; hi = d.unpacklo32 a.hi b.hi i };
    unpackhi32 = λ a b i. record { lo = d.unpackhi32 a.lo b.lo i; hi = d.unpackhi32 a.hi b.hi i };
    unpacklo64 = λ a b i. record { lo = d.unpacklo64 a.lo b.lo i; hi = d.unpacklo64 a.hi b.hi i };
    unpackhi64 = λ a b i. record { lo = d.unpackhi64 a.lo b.lo i; hi = d.unpackhi64 a.hi b.hi i };
  }
