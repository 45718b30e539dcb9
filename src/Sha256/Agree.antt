-- ===== src/Sha256/Agree.antt =====
-- The unrolled compression does what the loops do.
use blake.Base.{ℕ, zero, suc, ◌+◌, ◌-◌, ◌≡◌, refl, ap, ap₂, ◌∙◌, arith, List, [], ◌∷◌}
use blake.Impl.{at}
use blake.Sha256.{
  Eight, round, round_loop, process_block, schedule_loop, load_loop, add_all, k, load32_be,
}
use blake.Sha256.Unrolled.{
  rotr32, bsig0, bsig1, ssig0, ssig1, round_macro, constants, eight_rounds, all_rounds, assign,
  lines, loads, load_words, compress_block, init,
}
use blake.Sha256.Unrolled as Unrolled

-- A round by the macro: the names stay and the variables move.
abbrev moved : ℕ → ℕ → Eight → Eight
moved constant word v =
    let out = round_macro v.a v.b v.c v.d v.e v.f v.g v.h constant word in
    record { a = out.1; b = v.a; c = v.b; d = v.c; e = out.0; f = v.e; g = v.f; h = v.g }

round_lem : (constant word : ℕ) (v : Eight) → moved constant word v ≡ round constant word v
unfolding round round_macro
round_lem constant word v = refl

abbrev move : List ℕ → ℕ → Eight → Eight
move w i v = moved (at constants i) (at w i) v

eight_moves :
    (i : ℕ) (w : List ℕ) (v : Eight)
    → eight_rounds i w v
      ≡ move w (i + 7) (
          move w (i + 6) (
            move w (i + 5) (
              move w
                (i + 4)
                (move w (i + 3) (move w (i + 2) (move w (i + 1) (move w (i + 0) v)))))))
unfolding eight_rounds
eight_moves i w v = refl

abbrev turn : List ℕ → ℕ → Eight → Eight
turn w i v = round (at k i) (at w i) v

constants-k : constants ≡ k
unfolding constants k
constants-k = refl

move-turn : (w : List ℕ) (i : ℕ) {v v' : Eight} → v ≡ v' → move w i v ≡ turn w i v'
move-turn w i {v} {v'} e =
    ap (λ ks. moved (at ks i) (at w i) v) constants-k
    ∙ round_lem (at k i) (at w i) v
    ∙ ap (round (at k i) (at w i)) e

turn_next : (w : List ℕ) (i j : ℕ) {v v' : Eight} → i ≡ j → v ≡ v' → turn w i v ≡ turn w j v'
turn_next w i j e f = ap₂ (turn w) e f

loop_turns :
    (i : ℕ) (w : List ℕ) (v : Eight)
    → turn w (i + 7) (
        turn w (i + 6) (
          turn w
            (i + 5)
            (turn w (i + 4) (turn w (i + 3) (turn w (i + 2) (turn w (i + 1) (turn w (i + 0) v)))))))
      ≡ round_loop 8 i w v
unfolding round_loop
loop_turns i w v = turn_next w (i + 7) (i + 1 + 1 + 1 + 1 + 1 + 1 + 1) (omega arith) (
    turn_next w (i + 6) (i + 1 + 1 + 1 + 1 + 1 + 1) (omega arith) (
      turn_next w (i + 5) (i + 1 + 1 + 1 + 1 + 1) (omega arith) (
        turn_next w (i + 4) (i + 1 + 1 + 1 + 1) (omega arith) (
          turn_next w (i + 3) (i + 1 + 1 + 1) (omega arith) (
            turn_next w (i + 2) (i + 1 + 1) (omega arith) (
              turn_next w (i + 1) (i + 1) (omega arith)
                (turn_next w (i + 0) (i) (omega arith) refl)))))))

eight_lem : (i : ℕ) (w : List ℕ) (v : Eight) → eight_rounds i w v ≡ round_loop 8 i w v
eight_lem i w v =
    eight_moves i w v
    ∙ move-turn w (i + 7) (
        move-turn w (i + 6) (
          move-turn w (i + 5) (
            move-turn w (i + 4) (
              move-turn w (i + 3)
                (move-turn w (i + 2) (move-turn w (i + 1) (move-turn w (i + 0) refl)))))))
    ∙ loop_turns i w v

round_loop-add :
    (m n i : ℕ) (w : List ℕ) (v : Eight)
    → round_loop n (i + m) w (round_loop m i w v) ≡ round_loop (m + n) i w v
unfolding round_loop
round_loop-add zero n i w v =
    ap (λ x. round_loop x (i + zero) w v) {x = n} {y = zero + n} (omega arith)
    ∙ ap (λ x. round_loop (zero + n) x w v) {x = i + zero} {y = i} (omega arith)
round_loop-add (suc m) n i w v =
    ap (λ x. round_loop n x w (round_loop m (i + 1) w (turn w i v))) {x = i + suc m} {y = i + 1 + m}
      (omega arith)
    ∙ round_loop-add m n (i + 1) w (turn w i v)
    ∙ ap (λ x. round_loop x i w v) {x = suc (m + n)} {y = suc m + n} (omega arith)

all_rounds_lem : (w : List ℕ) (v : Eight) → all_rounds w v ≡ round_loop 64 0 w v
unfolding all_rounds
all_rounds_lem w v =
    let r8 = λ (i : ℕ) (x : Eight). round_loop 8 i w x in
    eight_lem 56 w _
    ∙ ap (r8 56) (
        eight_lem 48 w _
        ∙ ap (r8 48) (
            eight_lem 40 w _
            ∙ ap (r8 40) (
                eight_lem 32 w _
                ∙ ap (r8 32) (
                    eight_lem 24 w _
                    ∙ ap (r8 24) (
                        eight_lem 16 w _
                        ∙ ap (r8 16) (
                            eight_lem 8 w _
                            ∙ ap (r8 8) (eight_lem 0 w v)
                            ∙ round_loop-add 8 8 0 w v)
                        ∙ round_loop-add 16 8 0 w v)
                    ∙ round_loop-add 24 8 0 w v)
                ∙ round_loop-add 32 8 0 w v)
            ∙ round_loop-add 40 8 0 w v)
        ∙ round_loop-add 48 8 0 w v)
    ∙ round_loop-add 56 8 0 w v

-- The lines of the schedule from line `i` on.
lines_from : ℕ → ℕ → List (ℕ × ℕ × ℕ × ℕ)
lines_from zero i = []
lines_from (suc n) i = (i - 2, i - 7, i - 15, i - 16) ∷ lines_from n (i + 1)

lines_lem : lines ≡ lines_from 48 16
unfolding lines_from
lines_lem = refl

assign-lines_from : (n i : ℕ) (w : List ℕ) → assign (lines_from n i) w ≡ schedule_loop n i w
unfolding assign lines_from schedule_loop
assign-lines_from zero i w = refl
assign-lines_from (suc n) i w = assign-lines_from n (i + 1) _

load_words_lem : (block : List ℕ) → load_words loads block ≡ load_loop 16 0 block
unfolding load_words load_loop load32_be Unrolled.load32_be
load_words_lem block = refl

-- The compression with its loops written out leaves the state that the compression with loops
-- leaves, for every state and every block.
pub compress_block_lem :
    (s : Eight) (block : List ℕ) → compress_block s block ≡ process_block s block
unfolding compress_block process_block add_all
compress_block_lem s block =
    let w = assign lines (load_words loads block) in
    let same : w ≡ schedule_loop 48 16 (load_loop 16 0 block) =
      ap (λ ls. assign ls (load_words loads block)) lines_lem
      ∙ assign-lines_from 48 16 (load_words loads block)
      ∙ ap (schedule_loop 48 16) (load_words_lem block) in
    ap (add_all s) (all_rounds_lem w s ∙ ap (λ x. round_loop 64 0 x s) same)
