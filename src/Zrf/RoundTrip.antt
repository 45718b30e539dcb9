-- ===== src/Zrf/RoundTrip.antt =====
-- Packing and unpacking.
use blake.Base.{
  ℕ, zero, suc, ◌+◌, ◌-◌, ◌^◌, ◌≤◌, ◌<◌, bit_or, ◌≡◌, refl, ap, ◌∙◌, arith, List, [], ◌∷◌, ◌++◌,
}
use blake.Base.{
  true, ltb, ◌==◌, Bool-cases, inl, inr, ge→ltb, ltb→lt, ==_iff, if◌then◌else◌, u8, u32, ◌<<<◌,
  ◌>>>◌, IsWord,
}
use blake.Base.{
  length, take, drop, length-append, take_all, drop-append_exact, Option, none, some, ◌>>=◌,
  append-nil,
}
use blake.Base.Bits.{lt-two-pow}
use blake.Base.Digits.{bit_xor_self}
use blake.Impl.{at, iv}
use blake.Impl.Bytes.{le_sum, or_bytes}
use blake.Backend.{Backend}
use blake.Backend.Lawful.{IsLawful}
use blake.Output.{root_bytes}
use blake.Output.RootBytes.{length-root_bytes}
use blake.Tree.{root_output}
use blake.Hasher.{init, finalize, finalize_seek}
use blake.Hasher.Incremental.{finalize_seek-update_all}
use blake.Hasher as Hasher
use blake.Zrf.{
  done, bad_digest, z_max, z_hdr, put32, get32, rle, decode, hash, digest_diff, image, pack,
  pack_mode, unpack, unpack_mode, check_digest, after_decode, header_ok,
}
use blake.Zrf.Decode.{decode-rle}

-- The four bytes of a word, put together.
put_together :
    (v : ℕ)
    → IsWord v
    → bit_or
        (bit_or (bit_or (u8 v) (u32 (u8 (v >>> 8) <<< 8))) (u32 (u8 (v >>> 16) <<< 16)))
        (u32 (u8 (v >>> 24) <<< 24))
      ≡ v
put_together v h =
    ap
      (λ x.
        bit_or (bit_or (bit_or x (u32 (u8 (v >>> 8) <<< 8))) (u32 (u8 (v >>> 16) <<< 16)))
          (u32 (u8 (v >>> 24) <<< 24)))
      {x = u8 v} {y = u32 (u8 v <<< 0)} (omega arith)
    ∙ or_bytes (u8 v) (u8 (v >>> 8)) (u8 (v >>> 16)) (u8 (v >>> 24)) (omega arith) (omega arith)
        (omega arith) (omega arith)
    ∙ unfold le_sum in omega arith

diff-same : (n : ℕ) (dig rest : List ℕ) → length dig ≡ n → digest_diff n 0 dig (dig ++ rest) ≡ 0
unfolding digest_diff
diff-same zero dig rest e = refl
diff-same (suc n) [] rest e = absurd (omega arith)
diff-same (suc n) (x ∷ dig) rest e =
    ap (λ d. digest_diff n (bit_or 0 d) dig (dig ++ rest)) (bit_xor_self x x (lt-two-pow x))
    ∙ diff-same n dig rest (omega arith)

module _ (mode n : ℕ) (dig payload : List ℕ) (size : length dig ≡ 32) where
  abbrev whole : List ℕ
  whole = image mode n (length payload) dig payload

  length-image : length whole ≡ z_hdr + length payload
  unfolding image put32
  length-image = omega (arith, length-append dig payload)

  drop-image_payload : drop z_hdr whole ≡ payload
  unfolding image put32
  drop-image_payload = drop-append_exact 32 dig payload size

  drop-image_digest : drop 14 whole ≡ dig ++ payload
  unfolding image put32
  drop-image_digest = refl

  get32-image_raw : IsWord n → get32 whole 6 ≡ n
  unfolding image put32 get32
  get32-image_raw h = put_together n h

  get32-image_payload : IsWord (length payload) → get32 whole 10 ≡ length payload
  unfolding image put32 get32
  get32-image_payload h = put_together (length payload) h

bind_some {ℓ κ} :
    {A : Type ℓ} {B : Type κ} (o : Option A) (f : A → Option B) → (o >>= f) ≡ (o >>= some >>= f)
bind_some none f = refl
bind_some (some a) f = refl

module _ (b : Backend) (lawful : IsLawful b) where
  -- The digest of the raw bytes.
  abbrev pub hashed : List ℕ → List ℕ
  hashed m = root_bytes b (root_output b iv 0 m) 0 32

  pub hash_lem : (m : List ℕ) (n : ℕ) → length m ≡ n → n < 2 ^ 64 → hash b m n ≡ some (hashed m)
  unfolding hash init finalize
  hash_lem m n e h =
      let taken = take_all n m (omega arith) in
      let whole_length = ap length (append-nil m) in
      ap (λ t. Hasher.update b (Hasher.init_base iv 0) t >>= (λ s. finalize_seek b s 0 32)) taken
      ∙ bind_some (Hasher.update b (Hasher.init_base iv 0) m) (λ s. finalize_seek b s 0 32)
      ∙ finalize_seek-update_all b lawful iv 0 (m ∷ []) 0 32 (omega arith)
      ∙ ap (λ t. some (hashed t)) (append-nil m)

  module _ (mode : ℕ) (src payload : List ℕ) (cap : ℕ) where
    abbrev packed : List ℕ
    packed = image mode (length src) (length payload) (hashed src) payload

    size : length (hashed src) ≡ 32
    size = length-root_bytes b lawful (root_output b iv 0 src) 32

    -- The digest that is stored is that of the bytes that come out.
    check_digest-packed :
        length src ≤ z_max → check_digest b packed (length src) src ≡ some (done, src)
    unfolding check_digest
    check_digest-packed small =
        ap
          (λ o. o >>= (λ dig.
            some ((if digest_diff 32 0 dig (drop 14 packed) == 0 then done else bad_digest), src)))
          (hash_lem src (length src) refl (omega arith))
        ∙ ap (λ d. some ((if d == 0 then done else bad_digest), src))
            (ap (digest_diff 32 0 (hashed src))
                (drop-image_digest mode (length src) (hashed src) payload size)
              ∙ diff-same 32 (hashed src) payload size)

    -- The header is accepted.
    unpack-packed :
        header_ok packed ≡ true
        → length src ≤ z_max
        → length payload ≤ z_max
        → length src ≤ cap
        → unpack b packed (length packed) cap
          ≡ unpack_mode b packed (length packed) (length src) (at packed 5)
    unfolding unpack
    unpack-packed ok small payload_small fits =
        let raw = get32-image_raw mode (length src) (hashed src) payload size (omega arith) in
        let stored =
          get32-image_payload mode (length src) (hashed src) payload size (omega arith) in
        let total = length-image mode (length src) (hashed src) payload size in
        let rest : (get32 packed 10 == length packed - z_hdr) ≡ true =
          (==_iff (get32 packed 10) (length packed - z_hdr)).1 (omega arith) in
        rw
          (
            ge→ltb (length packed) z_hdr (omega arith),
            ok,
            rest,
            raw,
            ge→ltb z_max (length src) small,
            ge→ltb cap (length src) fits,
          )
          refl

  -- What is taken of the payload is all of it.
  taken_payload :
      (mode : ℕ) (src payload : List ℕ) (n : ℕ)
      → n ≡ length payload
      → take n (drop z_hdr (packed mode src payload 0)) ≡ payload
  taken_payload mode src payload n e =
      ap (take n)
        (drop-image_payload mode (length src) (hashed src) payload (size mode src payload 0))
      ∙ take_all n payload (omega arith)

  unpack-stored :
      (src : List ℕ)
      → length src ≤ z_max
      → unpack_mode b (packed 0 src src 0) (length (packed 0 src src 0)) (length src) 0
        ≡ some (done, src)
  unfolding unpack_mode
  unpack-stored src small =
      let total = length-image 0 (length src) (hashed src) src (size 0 src src 0) in
      rw ((==_iff (length (packed 0 src src 0) - z_hdr) (length src)).1 (omega arith)) (
        ap (check_digest b (packed 0 src src 0) (length src))
          (taken_payload 0 src src (length src) refl)
        ∙ check_digest-packed 0 src src 0 small)

  unpack-encoded :
      (src : List ℕ)
      → length src ≤ z_max
      → let payload = rle src (length src) in
        unpack_mode b (packed 1 src payload 0) (length (packed 1 src payload 0)) (length src) 1
        ≡ some (done, src)
  unfolding unpack_mode after_decode
  unpack-encoded src small =
      let payload = rle src (length src) in
      let out = packed 1 src payload 0 in
      let total = length-image 1 (length src) (hashed src) payload (size 1 src payload 0) in
      ap (λ t. after_decode b out (length src) (decode (length out) (length src) t []))
        (taken_payload 1 src payload (length out - z_hdr) (omega arith))
      ∙ ap (after_decode b out (length src)) (decode-rle src (length out) (omega arith))
      ∙ rw ((==_iff (length src) (length src)).1 refl) (check_digest-packed 1 src payload 0 small)

  pack_mode_lem :
      (mode : ℕ) (src payload : List ℕ) (cap : ℕ)
      → length src ≤ z_max
      → z_hdr + length payload ≤ cap
      → pack_mode b mode src (length src) cap payload ≡ some (done, packed mode src payload 0)
  unfolding pack_mode
  pack_mode_lem mode src payload cap small fits =
      rw (ge→ltb cap z_hdr (omega arith), ge→ltb (cap - z_hdr) (length payload) (omega arith))
        (ap (λ o. o >>= (λ dig. some (done, image mode (length src) (length payload) dig payload)))
          (hash_lem src (length src) refl (omega arith)))

  -- With a lawful back end, a source of at most 3 MiB is packed where there is room for it and the
  -- header, and unpacked to itself where there is room for it, whether it is stored or run-length
  -- encoded.
  pub unpack-pack :
      (src : List ℕ) (cap cap' : ℕ)
      → length src ≤ z_max
      → z_hdr + length src ≤ cap
      → length src ≤ cap'
      → (out : List ℕ) × (pack b src (length src) cap ≡ some (done, out))
        × (unpack b out (length out) cap' ≡ some (done, src))
  unfolding pack
  unpack-pack src cap cap' small fits fits' =
      let n = length src in
      elim (Bool-cases (ltb (length (rle src n)) n)) [
        | inl shorter ↦
            let less = ltb→lt (length (rle src n)) n shorter in
            (
              packed 1 src (rle src n) 0,
              rw (ge→ltb z_max n small, shorter)
                  (pack_mode_lem 1 src (rle src n) cap small (omega arith)),
              unpack-packed 1 src (rle src n) cap' (unfold image in refl) small (omega arith) fits'
                  ∙ (unfold image in unpack-encoded src small),
            )
        | inr longer ↦ (
          packed 0 src src 0,
          rw (ge→ltb z_max n small, longer)
              (ap (pack_mode b 0 src n cap) (take_all n src (omega arith))
                ∙ pack_mode_lem 0 src src cap small fits),
          unpack-packed 0 src src cap' (unfold image in refl) small small fits'
              ∙ (unfold image in unpack-stored src small),
        )
      ]
