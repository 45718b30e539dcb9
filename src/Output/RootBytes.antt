-- ===== src/Output/RootBytes.antt =====
-- The extendable output: what `output_root_bytes` writes is a window on one stream of blocks.
use blake.Base.{
  ℕ, zero, suc, ◌+◌, ◌-◌, ◌*◌, ◌/◌, ◌%◌, ◌^◌, ◌≤◌, ◌<◌, bit_or, ◌≡◌, refl, sym, ap, ap₂, ◌∙◌,
}
use blake.Base.{List, [], ◌++◌, length, take, drop, arith, u64, if◌then◌else◌, ◌==◌, ltb}
use blake.Base.{length-append, take-append_le, take-append_ge, drop-append_le, drop-append_ge}
use blake.Base.{
  append_assoc, append-nil, eq-or-ne, le-or-gt, inl, inr, length-drop, length-take, min, false,
}
use blake.Base.{take_all, drop-drop, take-add}
use blake.Backend.{Backend}
use blake.Backend.Lawful.{IsLawful, root_blocks}
use blake.Output.{Output, root_block, root_bytes_aligned, root_bytes}
use native.Mathlib.Nat.{mod-eq_of_lt}

take-append_min :
    {A : Type 0} (n m : ℕ) (xs ys : List A)
    → m ≡ min n (length xs)
    → take n (xs ++ ys) ≡ take m xs ++ take (n - m) ys
take-append_min n m xs ys e = elim (le-or-gt n (length xs)) [
  | inl short ↦
      let e' : n ≡ m = omega arith in
      let z : 0 ≡ n - m = omega arith in
      take-append_le n xs ys short
      ∙ ap (λ k. take k xs) e'
      ∙ sym (append-nil (take m xs))
      ∙ ap (λ k. take m xs ++ take k ys) z
  | inr long ↦
      let e' : n - length xs ≡ n - m = omega arith in
      take-append_ge n xs ys (omega arith)
      ∙ ap₂ (λ t k. t ++ take k ys) (sym (take_all m xs (omega arith))) e'
]

module _ (b : Backend) (lawful : IsLawful b) (o : Output) where
  length-root_blocks : (counter n : ℕ) → length (root_blocks b o counter n) ≡ 64 * n
  unfolding root_blocks
  length-root_blocks counter zero = refl
  length-root_blocks counter (suc n) = omega (
    arith,
    length-append (root_block b o (u64 counter)) (root_blocks b o (counter + 1) n),
    lawful.xof_length o (u64 counter),
    length-root_blocks (counter + 1) n,
  )

  root_blocks-add :
      (counter p q : ℕ)
      → root_blocks b o counter (p + q)
        ≡ root_blocks b o counter p ++ root_blocks b o (counter + p) q
  unfolding root_blocks
  root_blocks-add counter zero q =
      ap₂ (root_blocks b o) {x = counter} {y = counter + 0} (omega arith) (zero_add q)
    where
      zero_add : (n : ℕ) → zero + n ≡ n
      zero_add n = omega arith
  root_blocks-add counter (suc p) q =
      ap (root_blocks b o counter) {x = suc p + q} {y = suc (p + q)} (omega arith)
      ∙ ap (λ t. root_block b o (u64 counter) ++ t)
          (root_blocks-add (counter + 1) p q
            ∙ ap (λ n. root_blocks b o (counter + 1) p ++ root_blocks b o n q) {x = counter + 1 + p}
                {y = counter + suc p} (omega arith))
      ∙ sym (
          append_assoc (root_block b o (u64 counter)) (root_blocks b o (counter + 1) p)
            (root_blocks b o (counter + suc p) q))

  -- A part of a block at the end.
  tail_block :
      (counter r q : ℕ)
      → r < 64
      → r ≤ 64 * q
      → (if r == 0 then [] else take r (root_block b o (u64 counter)))
        ≡ take r (root_blocks b o counter q)
  tail_block counter zero q h g = refl
  tail_block counter (suc r) zero h g = absurd (omega arith)
  tail_block counter (suc r) (suc q) h g =
      unfold root_blocks in
      rw (nonzero r) (
        sym (
          take-append_le (suc r) (root_block b o (u64 counter)) (root_blocks b o (counter + 1) q)
            (omega (arith, lawful.xof_length o (u64 counter)))))
    where
      nonzero : (k : ℕ) → (suc k == 0) ≡ false
      nonzero k = ground arith

  whole_blocks :
      (counter p : ℕ)
      → (if p == 0 then [] else b.xof_many o.input_cv o.block o.len counter (bit_or o.flags 8) p)
        ≡ root_blocks b o counter p
  whole_blocks counter p = elim (eq-or-ne p 0) [
    | inl e ↦ rw e (unfold root_blocks in refl)
    | inr ne ↦ rw ne (lawful.xof_many_blocks o counter p)
  ]

  root_bytes_aligned_lem :
      (counter n k : ℕ)
      → n ≤ 64 * k
      → root_bytes_aligned b o counter n ≡ take n (root_blocks b o counter k)
  unfolding root_bytes_aligned
  root_bytes_aligned_lem counter n k h =
      let p : ℕ = n / 64 in
      let q : ℕ = k - n / 64 in
      ap₂ ◌++◌ (whole_blocks counter (n / 64))
        (tail_block (counter + n / 64) (n % 64) (k - n / 64) (omega arith) (omega arith))
      ∙ ap
          (λ m.
            root_blocks b o counter (n / 64)
            ++ take m (root_blocks b o (counter + n / 64) (k - n / 64)))
          {x = n % 64} {y = n - length (root_blocks b o counter (n / 64))}
          (omega (arith, length-root_blocks counter (n / 64)))
      ∙ sym (
          take-append_ge n (root_blocks b o counter (n / 64))
            (root_blocks b o (counter + n / 64) (k - n / 64))
            (omega (arith, length-root_blocks counter (n / 64))))
      ∙ ap (take n) (sym (root_blocks-add counter (n / 64) (k - n / 64)))
      ∙ ap (λ m. take n (root_blocks b o counter m)) {x = n / 64 + (k - n / 64)} {y = k}
          (omega arith)

  -- Dropping whole blocks is starting at a later counter.
  drop-root_blocks :
      (seek k : ℕ)
      → seek ≤ 64 * k
      → drop seek (root_blocks b o 0 k)
        ≡ drop (seek % 64) (root_blocks b o (seek / 64) (k - seek / 64))
  drop-root_blocks seek k h =
      let p : ℕ = seek / 64 in
      let q : ℕ = k - seek / 64 in
      let front = length-root_blocks 0 (seek / 64) in
      ap (λ m. drop seek (root_blocks b o 0 m)) {x = k} {y = seek / 64 + (k - seek / 64)}
        (omega arith)
      ∙ ap (drop seek) (root_blocks-add 0 p q)
      ∙ drop-append_ge seek (root_blocks b o 0 p) (root_blocks b o (0 + p) q) (omega arith)
      ∙ ap₂ (λ m z. drop m (root_blocks b o z q)) (left_over front) (from_zero p)
    where
      left_over :
          length (root_blocks b o 0 (seek / 64)) ≡ 64 * (seek / 64)
          → seek - length (root_blocks b o 0 (seek / 64)) ≡ seek % 64
      left_over e = omega arith

      from_zero : (n : ℕ) → 0 + n ≡ n
      from_zero n = omega arith

  -- Output that starts inside a block: the rest of the block, then aligned output.
  first_part :
      (c off n k : ℕ)
      → c < 2 ^ 63
      → off < 64
      → 0 < n
      → off + n ≤ 64 * k
      → let bytes = if ltb (64 - off) n then 64 - off else n in
        take bytes (drop off (root_block b o c)) ++ root_bytes_aligned b o (u64 (c + 1)) (n - bytes)
        ≡ take n (drop off (root_blocks b o c k))
  first_part c off n zero small inside pos h = absurd (omega arith)
  first_part c off n (suc k) small inside pos h =
      let block = root_block b o c in
      let bytes = if ltb (64 - off) n then 64 - off else n in
      let e : bytes ≡ min n (64 - off) = ground arith in
      let len = lawful.xof_length o c in
      let rest = root_blocks b o (c + 1) k in
      ap (λ m. take bytes (drop off block) ++ root_bytes_aligned b o m (n - bytes))
        (mod-eq_of_lt {n = c + 1} {m = 2 ^ 64} (omega arith))
      ∙ ap (λ t. take bytes (drop off block) ++ t)
          (root_bytes_aligned_lem (c + 1) (n - bytes) k (omega arith))
      ∙ sym (take-append_min n bytes (drop off block) rest (omega (arith, length-drop off block)))
      ∙ ap (take n) (sym (drop-append_le off block rest (omega arith)))
      ∙ ap (λ m. take n (drop off (root_block b o m ++ rest)))
          (sym (mod-eq_of_lt {n = c} {m = 2 ^ 64} (omega arith)))
      ∙ (unfold root_blocks in refl)

  -- For a lawful back end and a `seek` below 2^64, the bytes that `output_root_bytes` writes from
  -- `seek` on are that window of the stream of root blocks, wherever the window begins and ends in
  -- a block.
  pub root_bytes_lem :
      (seek n k : ℕ)
      → seek < 2 ^ 64
      → seek + n ≤ 64 * k
      → root_bytes b o seek n ≡ take n (drop seek (root_blocks b o 0 k))
  unfolding root_bytes
  root_bytes_lem seek n k small h = elim (eq-or-ne n 0) [
    | inl e ↦ rw e
    | inr ne ↦ rw ne (elim (eq-or-ne (seek % 64) 0) [
      | inl aligned ↦
          rw (aligned, drop-root_blocks seek k (omega arith), aligned)
            (root_bytes_aligned_lem (seek / 64) n (k - seek / 64) (omega arith))
      | inr inside ↦
          rw (inside, drop-root_blocks seek k (omega arith))
            (first_part (seek / 64) (seek % 64) n (k - seek / 64) (omega arith) (omega arith)
              (ground arith) (omega arith))
    ])
  ]

  -- With a lawful back end, two requests for output, the second one where the first one ended,
  -- give what one request for all the bytes gives, where the second one starts below 2^64.
  pub root_bytes-append :
      (seek n k : ℕ)
      → seek + n < 2 ^ 64
      → root_bytes b o seek (n + k) ≡ root_bytes b o seek n ++ root_bytes b o (seek + n) k
  root_bytes-append seek n k h =
      let z : ℕ = seek + n + k in
      let s = root_blocks b o 0 z in
      root_bytes_lem seek (n + k) z (omega arith) (omega arith)
      ∙ take-add n k (drop seek s)
      ∙ ap (λ t. take n (drop seek s) ++ take k t) (drop-drop n seek s)
      ∙ ap₂ ◌++◌ (sym (root_bytes_lem seek n z (omega arith) (omega arith)))
          (sym (root_bytes_lem (seek + n) k z h (omega arith)))

  -- As many bytes are written as are asked for.
  pub length-root_bytes : (n : ℕ) → length (root_bytes b o 0 n) ≡ n
  length-root_bytes n = omega (
    arith,
    ap length (root_bytes_lem 0 n n (omega arith) (omega arith)),
    length-take n (root_blocks b o 0 n),
    length-root_blocks 0 n,
  )
