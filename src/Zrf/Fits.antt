-- ===== src/Zrf/Fits.antt =====
-- Unpacking returns for every input, and stays within the room that it is given.
use blake.Base.{
  ℕ, zero, suc, ◌+◌, ◌-◌, ◌≤◌, ◌≡◌, ◌⊎◌, inl, inr, refl, ap, arith, List, [], ◌∷◌, ◌++◌,
}
use blake.Base.{
  Bool, true, false, not, ◌||◌, ltb, ◌==◌, Bool-cases, ==_iff, if◌then◌else◌, if_either, bit_and,
}
use blake.Base.{
  length, take, drop, replicate, length-take, length-drop, length-append, length-replicate, Option,
  some, ◌>>=◌,
}
use blake.Impl.{at}
use blake.Backend.{Backend}
use blake.Backend.Lawful.{IsLawful}
use blake.Zrf.{
  Code, Verdict, finished, corrupt, no_fuel, bad_argument, bad_size, bad_payload, z_max, z_hdr,
  get32, decode, header_ok,
}
use blake.Zrf.{unpack, unpack_mode, check_digest, after_decode, digest_diff, done, bad_digest}
use blake.Zrf.RoundTrip.{hash_lem, hashed}

-- The loop ended, and wrote no more than the raw bytes.
abbrev Ended : ℕ → Verdict × List ℕ → Type 0
Ended raw r = ((r.0 ≡ finished) ⊎ (r.0 ≡ corrupt)) × (length r.1 ≤ raw)

decode-Ended :
    (fuel raw : ℕ) (rest out : List ℕ)
    → length rest ≤ fuel
    → length out ≤ raw
    → Ended raw (decode fuel raw rest out)
unfolding decode
decode-Ended fuel raw [] out h v = (inl refl, v)
decode-Ended zero raw (token ∷ rest) out h v = absurd (omega arith)
decode-Ended (suc fuel) raw (token ∷ rest) out h v = elim (Bool-cases (bit_and token 0x80 == 0)) [
  | inr run ↦
      let count = bit_and token 0x7f + 3 in
      elim (Bool-cases (length rest == 0 || ltb (raw - length out) count)) [
        | inl bad ↦ rw (run, bad, decode) (inr refl, v)
        | inr good ↦
            rw (run, good, decode)
              (decode-Ended fuel raw (drop 1 rest) (out ++ replicate count (at rest 0))
                (omega (arith, length-drop 1 rest))
                (fits count (length out) raw v (length rest == 0) good
                  (length (out ++ replicate count (at rest 0)))
                  (omega (
                    arith,
                    length-append out (replicate count (at rest 0)),
                    length-replicate {A = ℕ} count (at rest 0),
                  ))))
      ]
  | inl literal ↦
      let count = token + 1 in
      elim (Bool-cases (ltb (length rest) count || ltb (raw - length out) count)) [
        | inl bad ↦ rw (literal, bad, decode) (inr refl, v)
        | inr good ↦
            rw (literal, good, decode)
              (decode-Ended fuel raw (drop count rest) (out ++ take count rest)
                (omega (arith, length-drop count rest))
                (fits count (length out) raw v (ltb (length rest) count) good
                  (length (out ++ take count rest))
                  (omega (arith, length-append out (take count rest), length-take count rest))))
      ]
]
  where
    fits :
        (count have room : ℕ)
        → have ≤ room
        → (other : Bool) → (other || ltb (room - have) count) ≡ false
        → (size : ℕ) → size ≤ have + count
        → size ≤ room
    fits count have room v true good size e = absurd (ground arith)
    fits count have room v false good size e = ground arith

-- A result that is there, and fits.
abbrev pub Returns : ℕ → Option (Code × List ℕ) → Type 0
Returns cap r = (code : Code) × (out : List ℕ) × (r ≡ some (code, out)) × (length out ≤ cap)

module _ (b : Backend) (lawful : IsLawful b) (src : List ℕ) (raw cap : ℕ) (small : raw ≤ z_max)
    (room : raw ≤ cap) where
  check_digest-Returns :
      (out : List ℕ) → length out ≡ raw → Returns cap (check_digest b src raw out)
  unfolding check_digest
  check_digest-Returns out e =
      let code =
        λ (dig : List ℕ). if digest_diff 32 0 dig (drop 14 src) == 0 then done else bad_digest in
      (
        code (hashed b lawful out),
        out,
        ap (λ o. o >>= (λ dig. some (code dig, out))) (hash_lem b lawful out raw e (omega arith)),
        omega arith,
      )

  after_decode-Returns :
      (r : Verdict × List ℕ) → Ended raw r → Returns cap (after_decode b src raw r)
  unfolding after_decode
  after_decode-Returns (finished, out) v =
      if_either (Returns cap) (length out == raw)
        (λ e. check_digest-Returns out ((==_iff (length out) raw).0 e))
        (λ ne. (bad_payload, out, refl, omega (arith, v.1)))
  after_decode-Returns (corrupt, out) v = (bad_payload, out, refl, omega (arith, v.1))
  after_decode-Returns (no_fuel, out) v = absurd (ground arith)

  unpack_mode-Returns : (n mode : ℕ) → length src ≡ n → Returns cap (unpack_mode b src n raw mode)
  unfolding unpack_mode
  unpack_mode-Returns n mode e =
      if_either (Returns cap) (mode == 0)
        (λ stored.
          if_either (Returns cap) (n - z_hdr == raw)
            (λ same.
              let size = (==_iff (n - z_hdr) raw).0 same in
              check_digest-Returns (take raw (drop z_hdr src))
                (omega (arith, length-take raw (drop z_hdr src), length-drop z_hdr src)))
            (λ other. (bad_size, [], refl, omega arith)))
        (λ encoded. after_decode-Returns (decode n raw (take (n - z_hdr) (drop z_hdr src)) []) (
          decode-Ended n raw (take (n - z_hdr) (drop z_hdr src)) []
            (omega (arith, length-take (n - z_hdr) (drop z_hdr src))) (omega arith)))

-- With a lawful back end, whatever the bytes of an input are, `rmr_zrf1_unpack` returns, and has
-- written no more bytes than there is room for.
pub unpack-Returns :
    (b : Backend) (lawful : IsLawful b) (src : List ℕ) (cap : ℕ)
    → Returns cap (unpack b src (length src) cap)
unfolding unpack
unpack-Returns b lawful src cap =
    let n = length src in
    let raw = get32 src 6 in
    if_either (Returns cap) (ltb n z_hdr) (λ e. (bad_argument, [], refl, omega arith))
      (λ e.
        if_either (Returns cap) (not (header_ok src)) (λ e. (bad_size, [], refl, omega arith))
          (λ e.
            if_either (Returns cap)
              (ltb z_max raw || ltb cap raw || not (get32 src 10 == n - z_hdr))
              (λ e. (bad_size, [], refl, omega arith))
              (λ ok.
                unpack_mode-Returns b lawful src raw cap (ground arith) (ground arith) n (at src 5)
                  refl)))
