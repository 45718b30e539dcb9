-- ===== src/Sse/Messages.antt =====
-- The vectors of the message in every round.
use blake.Base.{ℕ, zero, suc, ◌+◌, ◌*◌, ◌≡◌, refl, ap, ap₂, ◌∙◌, arith, List, [], ◌∷◌, drop}
use blake.Impl.{at, load32, load_block_words}
use native.Mathlib.Nat.{add_assoc}
use blake.Sse.{Four, Intrinsics, Documented, lane}
use blake.Sse.Rows.{Variant, Message, first_message, next_message, load_message}
use blake.Sse.Lanes.{IsVariant, Quad, four_equal}
use blake.Sse.Rounds.{message}
use blake.Sse.Mixing.{arranged}

at-drop : (n i : ℕ) (p : List ℕ) → at (drop n p) i ≡ at p (n + i)
at-drop zero i p = ap (at p) {x = i} {y = 0 + i} (omega arith)
at-drop (suc n) i [] = refl
at-drop (suc n) i (x ∷ p) =
    at-drop n i p ∙ ap (at (x ∷ p)) {x = suc (n + i)} {y = suc n + i} (omega arith)

pub load32-drop : (n i : ℕ) (p : List ℕ) → load32 (drop n p) i ≡ load32 p (n + i)
unfolding load32
load32-drop n i p =
    rw (at-drop n i p, at-drop n (i + 1) p, at-drop n (i + 2) p, at-drop n (i + 3) p)
      (rw (add_assoc n i 1, add_assoc n i 2, add_assoc n i 3) refl)

-- Where the words of the next round stand among those of this one.
abbrev pub turned : Quad → Quad
turned s = record {
  a = record { l0 = s.a.l1; l1 = s.b.l1; l2 = s.b.l3; l3 = s.a.l2 };
  b = record { l0 = s.a.l3; l1 = s.c.l2; l2 = s.a.l0; l3 = s.d.l3 };
  c = record { l0 = s.d.l0; l1 = s.b.l0; l2 = s.c.l3; l3 = s.d.l1 };
  d = record { l0 = s.c.l1; l1 = s.d.l2; l2 = s.b.l2; l3 = s.c.l0 };
}

pub turned_lem :
    (block : List ℕ)
    → let ws = load_block_words block in
      (turned (arranged ws 0) ≡ arranged ws 1)
      × (turned (arranged ws 1) ≡ arranged ws 2)
      × (turned (arranged ws 2) ≡ arranged ws 3)
      × (turned (arranged ws 3) ≡ arranged ws 4)
      × (turned (arranged ws 4) ≡ arranged ws 5)
      × (turned (arranged ws 5) ≡ arranged ws 6)
unfolding load_block_words
turned_lem block = (refl, refl, refl, refl, refl, refl)

abbrev four_of : Four → ℕ → ℕ → ℕ → ℕ → Four
four_of t a b c e = record { l0 = lane t a; l1 = lane t b; l2 = lane t c; l3 = lane t e }

-- The words of a block as they are loaded, and as the first round takes them.
pub loaded : List ℕ → Quad
loaded block =
    let w = λ (i : ℕ). load32 block i in
    record {
      a = record { l0 = w 0; l1 = w 4; l2 = w 8; l3 = w 12 };
      b = record { l0 = w 16; l1 = w 20; l2 = w 24; l3 = w 28 };
      c = record { l0 = w 32; l1 = w 36; l2 = w 40; l3 = w 44 };
      d = record { l0 = w 48; l1 = w 52; l2 = w 56; l3 = w 60 };
    }

abbrev sorted : Quad → Quad
sorted s = record {
  a = record { l0 = s.a.l0; l1 = s.a.l2; l2 = s.b.l0; l3 = s.b.l2 };
  b = record { l0 = s.a.l1; l1 = s.a.l3; l2 = s.b.l1; l3 = s.b.l3 };
  c = record { l0 = s.d.l2; l1 = s.c.l0; l2 = s.c.l2; l3 = s.d.l0 };
  d = record { l0 = s.d.l3; l1 = s.c.l1; l2 = s.c.l3; l3 = s.d.l1 };
}

module _ (k : Intrinsics) (d : Documented k) where
  open d use {lanes}

  pub first_lanes :
      (m : Message k) (block : List ℕ)
      → message k d m ≡ loaded block
      → message k d (first_message k m) ≡ arranged (load_block_words block) 0
  unfolding first_message load_block_words loaded
  first_lanes m block e =
      let t2 = k.shuffle_ps m.m2 m.m3 2 0 2 0 in
      let t3 = k.shuffle_ps m.m2 m.m3 3 1 3 1 in
      let go : message k d (first_message k m) ≡ sorted (message k d m) = λ i. record {
        a = d.shuffle_two m.m0 m.m1 2 0 2 0 i;
        b = d.shuffle_two m.m0 m.m1 3 1 3 1 i;
        c =
            (d.shuffle32 t2 2 1 0 3 ∙ ap (λ t. four_of t 3 0 1 2) (d.shuffle_two m.m2 m.m3 2 0 2 0))
              i;
        d =
            (d.shuffle32 t3 2 1 0 3 ∙ ap (λ t. four_of t 3 0 1 2) (d.shuffle_two m.m2 m.m3 3 1 3 1))
              i;
      } in
      go ∙ ap sorted e

  pub load_message_lanes : (block : List ℕ) → message k d (load_message k block) ≡ loaded block
  unfolding load_message loaded
  load_message_lanes block =
      let at16 = λ (n : ℕ).
        d.loadu (drop (16 * n) block)
        ∙ four_equal (load32-drop (16 * n) 0 block) (load32-drop (16 * n) 4 block)
            (load32-drop (16 * n) 8 block) (load32-drop (16 * n) 12 block) in
      λ i. record { a = at16 0 i; b = at16 1 i; c = at16 2 i; d = at16 3 i }

module _ (k : Intrinsics) (d : Documented k) (t : Variant k) (v : IsVariant k d t) where
  open d use {lanes}

  pub next_lanes : (m : Message k) → message k d (next_message k t m) ≡ turned (message k d m)
  unfolding next_message
  next_lanes m =
      let t0 = k.shuffle_ps m.m0 m.m1 3 1 1 2 in
      let t1 = k.shuffle_ps m.m2 m.m3 3 3 2 2 in
      let tt1 = k.shuffle_epi32 m.m0 0 0 3 3 in
      let t2 = k.unpacklo_epi64 m.m3 m.m1 in
      let tt2 = t.blend_epi16 t2 m.m2 0xC0 in
      let t3 = k.unpackhi_epi32 m.m1 m.m3 in
      let tt3 = k.unpacklo_epi32 m.m2 t3 in
      let s = turned (message k d m) in
      let e0 : lanes (k.shuffle_epi32 t0 0 3 2 1) ≡ s.a =
        d.shuffle32 t0 0 3 2 1 ∙ ap (λ t. four_of t 1 2 3 0) (d.shuffle_two m.m0 m.m1 3 1 1 2) in
      let e1 : lanes (t.blend_epi16 tt1 t1 0xCC) ≡ s.b =
        v.blend_cc tt1 t1
        ∙ ap₂ (λ t u. record { l0 = t.l0; l1 = u.l1; l2 = t.l2; l3 = u.l3 })
            (d.shuffle32 m.m0 0 0 3 3) (d.shuffle_two m.m2 m.m3 3 3 2 2) in
      let e2 : lanes (k.shuffle_epi32 tt2 1 3 2 0) ≡ s.c =
        d.shuffle32 tt2 1 3 2 0
        ∙ ap (λ t. four_of t 0 2 3 1)
            (v.blend_c0 t2 m.m2
              ∙ ap (λ t. record { l0 = t.l0; l1 = t.l1; l2 = t.l2; l3 = (lanes m.m2).l3 })
                  (d.unpacklo64 m.m3 m.m1)) in
      let e3 : lanes (k.shuffle_epi32 tt3 0 1 3 2) ≡ s.d =
        d.shuffle32 tt3 0 1 3 2
        ∙ ap (λ t. four_of t 2 3 1 0)
            (d.unpacklo32 m.m2 t3
              ∙ ap
                  (λ t. record { l0 = (lanes m.m2).l0; l1 = t.l0; l2 = (lanes m.m2).l1; l3 = t.l1 })
                  (d.unpackhi32 m.m1 m.m3)) in
      λ i. record { a = e0 i; b = e1 i; c = e2 i; d = e3 i }
