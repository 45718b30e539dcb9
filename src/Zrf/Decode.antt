-- ===== src/Zrf/Decode.antt =====
-- One token decoded: what `rmr_zrf1_unpack` does with a run and with literals, and the whole stream.
use blake.Base.{
  ℕ, zero, suc, ◌+◌, ◌-◌, ◌*◌, ◌/◌, ◌%◌, ◌^◌, ◌≤◌, ◌<◌, bit_and, bit_or, ◌≡◌, refl, sym, ap, ap₂,
  ◌∙◌, arith, List, [], ◌∷◌, ◌++◌,
}
use blake.Base.{true, false, leb, ◌==◌, Bool-cases, inl, inr, le-or-gt, lt→ltb, ge→ltb, leb→le, u8}
use blake.Base.{
  length, take, drop, replicate, length-drop, length-take, length-append, length-replicate,
  take-append_exact, drop-append_exact, take-append-drop, drop-drop, drop_all, append_assoc,
  append-nil,
}
use blake.Base.Bits.{bit_or_fields, bit_and_mask}
use blake.Base.Digits.{bit_and-two-pow}
use native.Mathlib.Nat.{mod-eq_of_lt}
use blake.Impl.{at}
use blake.Zrf.{run, rle_loop, rle, literal_end, Verdict, finished, decode}
use blake.Zrf.Runs.{run-IsRun, literal_end-IsLiteral}

-- The token of a run of `c + 3` bytes, taken apart.
token_or : (c : ℕ) → c < 128 → bit_or 0x80 c ≡ 128 + c
token_or c h = bit_or_fields 7 1 c h

token_flag : (c : ℕ) → c < 128 → bit_and (128 + c) 0x80 ≡ 128
token_flag c h =
    bit_and-two-pow 7 (128 + c)
    ∙ ap (λ (t : ℕ). t % 2 * 128) {x = (128 + c) / 128} {y = 1} (omega arith)

token_count : (c : ℕ) → c < 128 → bit_and (128 + c) 0x7f ≡ c
token_count c h = bit_and_mask 7 (128 + c) ∙ omega arith

literal_flag : (t : ℕ) → t < 128 → bit_and t 0x80 ≡ 0
literal_flag t h =
    bit_and-two-pow 7 t ∙ ap (λ (q : ℕ). q % 2 * 128) {x = t / 128} {y = 0} (omega arith)

flagged :
    (fuel raw m t v : ℕ) (rest out : List ℕ)
    → bit_and t 0x80 ≡ 128
    → bit_and t 0x7f + 3 ≡ m
    → length out + m ≤ raw
    → decode (suc fuel) raw (t ∷ v ∷ rest) out ≡ decode fuel raw rest (out ++ replicate m v)
unfolding decode
flagged fuel raw m t v rest out flag count fits =
    let given : (suc (length rest) == 0) ≡ false = ground arith in
    rw (flag, given, count, ge→ltb (raw - length out) m (omega arith), count, decode) refl

pub decode-run :
    (fuel raw m v : ℕ) (rest out : List ℕ)
    → 4 ≤ m
    → m ≤ 130
    → length out + m ≤ raw
    → decode (suc fuel) raw (u8 (bit_or 0x80 (m - 3)) ∷ v ∷ rest) out
      ≡ decode fuel raw rest (out ++ replicate m v)
decode-run fuel raw m v rest out lo hi fits =
    let c = m - 3 in
    let token : u8 (bit_or 0x80 c) ≡ 128 + c =
      ap u8 (token_or c (omega arith)) ∙ mod-eq_of_lt {n = 128 + c} {m = 2 ^ 8} (omega arith) in
    ap (λ (t : ℕ). decode (suc fuel) raw (t ∷ v ∷ rest) out) token
    ∙ flagged fuel raw m (128 + c) v rest out (token_flag c (omega arith))
        (omega (arith, token_count c (omega arith))) fits

unflagged :
    (fuel raw t : ℕ) (rest out : List ℕ)
    → bit_and t 0x80 ≡ 0
    → t + 1 ≤ length rest
    → length out + (t + 1) ≤ raw
    → decode (suc fuel) raw (t ∷ rest) out
      ≡ decode fuel raw (drop (t + 1) rest) (out ++ take (t + 1) rest)
unfolding decode
unflagged fuel raw t rest out flag given fits =
    rw
      (
        flag,
        ge→ltb (length rest) (t + 1) given,
        ge→ltb (raw - length out) (t + 1) (omega arith),
        decode,
      )
      refl

pub decode-literal :
    (fuel raw m : ℕ) (bytes rest out : List ℕ)
    → 1 ≤ m
    → m ≤ 128
    → length bytes ≡ m
    → length out + m ≤ raw
    → decode (suc fuel) raw (u8 (m - 1) ∷ (bytes ++ rest)) out ≡ decode fuel raw rest (out ++ bytes)
decode-literal fuel raw m bytes rest out lo hi size fits =
    let t = m - 1 in
    let next : t + 1 ≡ m = omega arith in
    ap (λ (t : ℕ). decode (suc fuel) raw (t ∷ (bytes ++ rest)) out)
      (mod-eq_of_lt {n = m - 1} {m = 2 ^ 8} (omega arith))
    ∙ unflagged fuel raw t (bytes ++ rest) out (literal_flag t (omega arith))
        (omega (arith, length-append bytes rest)) (omega arith)
    ∙ ap₂ (λ xs ys. decode fuel raw xs (out ++ ys))
        (ap (λ n. drop n (bytes ++ rest)) next ∙ drop-append_exact m bytes rest size)
        (ap (λ n. take n (bytes ++ rest)) next ∙ take-append_exact m bytes rest size)

-- A piece of the source that is appended leaves the rest of the source.
piece :
    (src out : List ℕ) (i m j : ℕ)
    → j ≡ i + m
    → (out ++ take m (drop i src)) ++ drop j src ≡ out ++ drop i src
piece src out i m j e =
    append_assoc out (take m (drop i src)) (drop j src)
    ∙ ap (λ t. out ++ t)
        (ap (λ k. take m (drop i src) ++ drop k src) e
          ∙ ap (λ t. take m (drop i src) ++ t) (sym (drop-drop m i src))
          ∙ take-append-drop m (drop i src))

module _ (src : List ℕ) (n : ℕ) (size : length src ≡ n) where
  rle-stop : (fuel i : ℕ) → n ≤ i → rle_loop fuel src n i ≡ []
  unfolding rle_loop
  rle-stop zero i h = refl
  rle-stop (suc fuel) i h = rw (ge→ltb i n h, rle_loop) refl

  rle-run :
      (fuel i : ℕ)
      → i < n
      → leb 4 (run src n i) ≡ true
      → rle_loop (suc fuel) src n i
        ≡ u8 (bit_or 0x80 (run src n i - 3)) ∷ at src i ∷ rle_loop fuel src n (i + run src n i)
  unfolding rle_loop
  rle-run fuel i h long = rw (lt→ltb i n h, long, rle_loop) refl

  rle-literal :
      (fuel i : ℕ)
      → i < n
      → leb 4 (run src n i) ≡ false
      → rle_loop (suc fuel) src n i
        ≡ u8 (literal_end src n i - i - 1)
          ∷ (take (literal_end src n i - i) (drop i src)
              ++ rle_loop fuel src n (literal_end src n i))
  unfolding rle_loop
  rle-literal fuel i h short = rw (lt→ltb i n h, short, rle_loop) refl

  at_end :
      (i : ℕ) (out : List ℕ)
      → n ≤ i
      → ◌≡◌ {A = Verdict × List ℕ} (finished, out) (finished, out ++ drop i src)
  at_end i out h =
      ap (λ t. (finished, t))
        (sym (append-nil out) ∙ ap (λ t. out ++ t) (sym (drop_all i src (omega arith))))

  nonempty : (fuel i : ℕ) → i < n → 1 ≤ length (rle_loop (suc fuel) src n i)
  nonempty fuel i h = elim (Bool-cases (leb 4 (run src n i))) [
    | inl long ↦ omega (arith, ap length (rle-run fuel i h long))
    | inr short ↦ omega (arith, ap length (rle-literal fuel i h short))
  ]

  -- The stream from position `i` on is decoded after what stands before `i`.
  abbrev Decodes : ℕ → ℕ → Type 0
  Decodes fuel i =
      (decode_fuel : ℕ) (out : List ℕ)
      → n ≤ fuel + i
      → length out ≡ i
      → i ≤ n
      → length (rle_loop fuel src n i) ≤ decode_fuel
      → decode decode_fuel n (rle_loop fuel src n i) out ≡ (finished, out ++ drop i src)

  run_step :
      (fuel i decode_fuel : ℕ) (out : List ℕ)
      → ((j : ℕ) → Decodes fuel j)
      → n ≤ suc fuel + i
      → length out ≡ i
      → i < n
      → length (rle_loop (suc fuel) src n i) ≤ suc decode_fuel
      → leb 4 (run src n i) ≡ true
      → decode (suc decode_fuel) n (rle_loop (suc fuel) src n i) out ≡ (finished, out ++ drop i src)
  run_step fuel i decode_fuel out rec enough here more long run_long =
      let v = run-IsRun src n i size more in
      let m = run src n i in
      let e = rle-run fuel i more run_long in
      let bytes = replicate m (at src i) in
      ap (λ s. decode (suc decode_fuel) n s out) e
      ∙ decode-run decode_fuel n m (at src i) (rle_loop fuel src n (i + m)) out
          (leb→le 4 m run_long) v.bounded (omega (arith, v.inside))
      ∙ rec (i + m) decode_fuel (out ++ bytes) (omega (arith, v.positive))
          (omega (arith, length-append out bytes, length-replicate {A = ℕ} m (at src i))) v.inside
          (omega (arith, ap length e))
      ∙ ap (λ t. (finished, t))
          (ap (λ t. (out ++ t) ++ drop (i + m) src) (sym v.equal) ∙ piece src out i m (i + m) refl)

  literal_step :
      (fuel i decode_fuel : ℕ) (out : List ℕ)
      → ((j : ℕ) → Decodes fuel j)
      → n ≤ suc fuel + i
      → length out ≡ i
      → i < n
      → length (rle_loop (suc fuel) src n i) ≤ suc decode_fuel
      → leb 4 (run src n i) ≡ false
      → decode (suc decode_fuel) n (rle_loop (suc fuel) src n i) out ≡ (finished, out ++ drop i src)
  literal_step fuel i decode_fuel out rec enough here more long short =
      let v = literal_end-IsLiteral src n i size more short in
      let j = literal_end src n i in
      let m = j - i in
      let e = rle-literal fuel i more short in
      let bytes = take m (drop i src) in
      let bytes_length : length bytes ≡ m =
        omega (arith, length-take m (drop i src), length-drop i src, v) in
      let rest = rle_loop fuel src n j in
      ap (λ s. decode (suc decode_fuel) n s out) e
      ∙ decode-literal decode_fuel n m bytes rest out (omega (arith, v)) (omega (arith, v))
          bytes_length (omega (arith, v))
      ∙ rec j decode_fuel (out ++ bytes) (omega (arith, v))
          (omega (arith, length-append out bytes, v)) v.inside
          (omega (arith, ap length e, length-append bytes rest))
      ∙ ap (λ t. (finished, t)) (piece src out i m j (omega (arith, v)))

  decode-rle_loop : (fuel i : ℕ) → Decodes fuel i
  decode-rle_loop zero i decode_fuel out enough here le long =
      ap (λ t. decode decode_fuel n t out) (rle-stop zero i (omega arith))
      ∙ (unfold decode in at_end i out (omega arith))
  decode-rle_loop (suc fuel) i zero out enough here le long = elim (le-or-gt n i) [
    | inl over ↦
        ap (λ t. decode zero n t out) (rle-stop (suc fuel) i over)
        ∙ (unfold decode in at_end i out over)
    | inr more ↦ absurd (omega (arith, nonempty fuel i more))
  ]
  decode-rle_loop (suc fuel) i (suc decode_fuel) out enough here le long = elim (le-or-gt n i) [
    | inl over ↦
        ap (λ t. decode (suc decode_fuel) n t out) (rle-stop (suc fuel) i over)
        ∙ (unfold decode in at_end i out over)
    | inr more ↦ elim (Bool-cases (leb 4 (run src n i))) [
      | inl run_long ↦
          run_step fuel i decode_fuel out (decode-rle_loop fuel) enough here more long run_long
      | inr short ↦
          literal_step fuel i decode_fuel out (decode-rle_loop fuel) enough here more long short
    ]
  ]

-- Whatever the bytes are, the loop of `rmr_zrf1_unpack` gives them back from what `z_rle` emits.
pub decode-rle :
    (src : List ℕ) (fuel : ℕ)
    → length (rle src (length src)) ≤ fuel
    → decode fuel (length src) (rle src (length src)) [] ≡ (finished, src)
unfolding rle
decode-rle src fuel long =
    decode-rle_loop src (length src) refl (length src) 0 fuel [] (omega arith) refl (omega arith)
      long
