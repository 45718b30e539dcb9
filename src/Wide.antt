-- ===== src/Wide.antt =====
-- What the SIMD files of c/ have in common, word for word: the rounds over sixteen vectors, of which
-- every lane holds one input, and the loop over the blocks. The lines are those of
-- c/blake3_sse41.c.
pub mod Lanes
pub mod Loop
use blake.Base.{ℕ, zero, suc, ◌+◌, ◌*◌, bit_or, List, [], get_or, ◌==◌, if◌then◌else◌}
use blake.Impl.{at, iv, msg_schedule, block_len}

-- The vectors and helpers that each file defines.
pub record Ops : Type 1 where
  pub Vec : Type 0
  pub addv : Vec → Vec → Vec
  pub xorv : Vec → Vec → Vec
  pub set1 : ℕ → Vec
  pub rot16 : Vec → Vec
  pub rot12 : Vec → Vec
  pub rot8 : Vec → Vec
  pub rot7 : Vec → Vec

-- Four vectors that stand next to each other in an array, as the source treats them.
pub record Group (A : Type 0) : Type 0 where
  pub w0 : A
  pub w1 : A
  pub w2 : A
  pub w3 : A

-- An array of sixteen.
pub record Sixteen (A : Type 0) : Type 0 where
  pub a : Group A
  pub b : Group A
  pub c : Group A
  pub d : Group A

-- `h_vecs`
pub record Eight (A : Type 0) : Type 0 where
  pub lo : Group A
  pub hi : Group A

abbrev pub group_zip : {A : Type 0} → (A → A → A) → Group A → Group A → Group A
group_zip f x y = record { w0 = f x.w0 y.w0; w1 = f x.w1 y.w1; w2 = f x.w2 y.w2; w3 = f x.w3 y.w3 }

abbrev pub group_map : {A B : Type 0} → (A → B) → Group A → Group B
group_map f x = record { w0 = f x.w0; w1 = f x.w1; w2 = f x.w2; w3 = f x.w3 }

abbrev pub item : {A : Type 0} → Group A → ℕ → A
item g zero = g.w0
item g (suc zero) = g.w1
item g (suc (suc zero)) = g.w2
item g (suc (suc (suc i))) = g.w3

-- The vector with an index below 16.
abbrev pub index : {A : Type 0} → Sixteen A → ℕ → A
index v (suc (suc (suc (suc (suc (suc (suc (suc (suc (suc (suc (suc i)))))))))))) = item v.d i
index v (suc (suc (suc (suc (suc (suc (suc (suc i)))))))) = item v.c i
index v (suc (suc (suc (suc i)))) = item v.b i
index v i = item v.a i

module _ (o : Ops) where
  open o use {Vec}

  -- Seven lines of four statements each: with `v` and the words of the message in the order of the
  -- statements.
  unfoldable pub half_mix : (Vec → Vec) → (Vec → Vec) → Sixteen Vec → Group Vec → Sixteen Vec
  half_mix rot_d rot_b v m =
      let a = group_zip o.addv (group_zip o.addv v.a m) v.b in
      let d = group_map rot_d (group_zip o.xorv v.d a) in
      let c = group_zip o.addv v.c d in
      let b = group_map rot_b (group_zip o.xorv v.b c) in record { a = a; b = b; c = c; d = d }

  -- `m[MSG_SCHEDULE[r][i]]` for four indices.
  abbrev pub scheduled : Sixteen Vec → ℕ → ℕ → ℕ → ℕ → ℕ → Group Vec
  scheduled m r i j k l =
      let w = λ (n : ℕ). index m (at (get_or msg_schedule r []) n) in
      record { w0 = w i; w1 = w j; w2 = w k; w3 = w l }

  -- The order in which the second half of a round names the vectors, and back.
  abbrev pub to_diagonals : Sixteen Vec → Sixteen Vec
  to_diagonals v = record v {
    b = record { w0 = v.b.w1; w1 = v.b.w2; w2 = v.b.w3; w3 = v.b.w0 };
    c = record { w0 = v.c.w2; w1 = v.c.w3; w2 = v.c.w0; w3 = v.c.w1 };
    d = record { w0 = v.d.w3; w1 = v.d.w0; w2 = v.d.w1; w3 = v.d.w2 };
  }

  abbrev pub to_columns : Sixteen Vec → Sixteen Vec
  to_columns v = record v {
    b = record { w0 = v.b.w3; w1 = v.b.w0; w2 = v.b.w1; w3 = v.b.w2 };
    c = record { w0 = v.c.w2; w1 = v.c.w3; w2 = v.c.w0; w3 = v.c.w1 };
    d = record { w0 = v.d.w1; w1 = v.d.w2; w2 = v.d.w3; w3 = v.d.w0 };
  }

  unfoldable pub round_fn : Sixteen Vec → Sixteen Vec → ℕ → Sixteen Vec
  unfolding half_mix
  round_fn v m r =
      let v1 = half_mix o.rot16 o.rot12 v (scheduled m r 0 2 4 6) in
      let v2 = half_mix o.rot8 o.rot7 v1 (scheduled m r 1 3 5 7) in
      let v3 = half_mix o.rot16 o.rot12 (to_diagonals v2) (scheduled m r 8 10 12 14) in
      to_columns (half_mix o.rot8 o.rot7 v3 (scheduled m r 9 11 13 15))

  -- `v` before the rounds.
  abbrev pub start : Eight Vec → Vec → Vec → ℕ → Sixteen Vec
  start h counter_low_vec counter_high_vec block_flags = record {
    a = h.lo;
    b = h.hi;
    c = record {
      w0 = o.set1 (at iv 0);
      w1 = o.set1 (at iv 1);
      w2 = o.set1 (at iv 2);
      w3 = o.set1 (at iv 3);
    };
    d = record {
      w0 = counter_low_vec;
      w1 = counter_high_vec;
      w2 = o.set1 block_len;
      w3 = o.set1 block_flags;
    };
  }

  -- One block of every input.
  unfoldable pub hash_block : Eight Vec → Vec → Vec → ℕ → Sixteen Vec → Eight Vec
  unfolding round_fn
  hash_block h counter_low_vec counter_high_vec block_flags m =
      let v0 = round_fn (start h counter_low_vec counter_high_vec block_flags) m 0 in
      let v1 = round_fn v0 m 1 in
      let v2 = round_fn v1 m 2 in
      let v3 = round_fn v2 m 3 in
      let v4 = round_fn v3 m 4 in
      let v5 = round_fn v4 m 5 in
      let v6 = round_fn v5 m 6 in
      record { lo = group_zip o.xorv v6.a v6.c; hi = group_zip o.xorv v6.b v6.d }

  -- `for (size_t block = 0; block < blocks; block++)` with the rounds that are left, and
  -- `transpose_msg_vecs` of the inputs.
  unfoldable pub block_loop :
      (List (List ℕ) → ℕ → Sixteen Vec)
      → List (List ℕ)
      → Vec
      → Vec
      → ℕ
      → ℕ
      → ℕ
      → ℕ
      → ℕ
      → Eight Vec
      → Eight Vec
  unfolding hash_block
  block_loop transpose inputs lo hi flags flags_end zero block block_flags h = h
  block_loop transpose inputs lo hi flags flags_end (suc n) block block_flags h =
      let last = if suc n == 1 then bit_or block_flags flags_end else block_flags in
      block_loop transpose inputs lo hi flags flags_end n (block + 1) flags
        (hash_block h lo hi last (transpose inputs (block * block_len)))

  -- `h_vecs` before the loop.
  abbrev pub key_vecs : List ℕ → Eight Vec
  key_vecs key =
      let s = λ (i : ℕ). o.set1 (at key i) in
      record {
        lo = record { w0 = s 0; w1 = s 1; w2 = s 2; w3 = s 3 };
        hi = record { w0 = s 4; w1 = s 5; w2 = s 6; w3 = s 7 };
      }
