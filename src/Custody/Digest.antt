-- ===== src/Custody/Digest.antt =====
-- What the digests of c/rafaelia_packet_custody.c are: derive-key hashes of a header with a payload,
-- and of a header with a table.
use blake.Base.{ℕ, zero, suc, ◌+◌, ◌*◌, ◌^◌, ◌≤◌, ◌<◌, List, [], ◌∷◌, ◌++◌}
use blake.Base.{
  ◌≡◌, refl, sym, ap, ◌∙◌, arith, inl, inr, eq-or-ne, ==_iff, ◌==◌, Option, none, some, true, ◌>>=◌,
}
use blake.Base.{
  length, take, drop, get_or, append-nil, lt→ltb, le→leb, gt→leb, Bool-cases, if◌then◌else◌,
}
use blake.Backend.{Backend}
use blake.Backend.Lawful.{IsLawful}
use blake.Impl.{iv, derive_key_context, derive_key_material, load_key_words}
use blake.Output.{root_bytes}
use blake.Tree.{root_output}
use blake.Chunk.Update.{flat}
use blake.Hasher.{Hasher, init_derive_key_raw, update, finalize, finalize_seek}
use blake.Hasher.Incremental.{update_all, finalize_seek-update_all, init_derive_key_raw_lem}
use blake.Custody.{
  ok, chunk_context, root_context, chunk_header, root_header, record_header, digest_len,
}
use blake.Custody.{
  update_payload, hash_chunk, chunk_digest, update_records, hash_manifest, manifest_root,
  max_chunks, digested,
}

-- The 32 bytes of BLAKE3 in the mode that derives keys: the key comes from the context.
unfoldable pub derived : Backend → List ℕ → List ℕ → List ℕ
derived b context m =
    root_bytes b
      (root_output b
        (load_key_words (root_bytes b (root_output b iv derive_key_context context) 0 32))
        derive_key_material m)
      0 32

module _ {ℓ κ μ} {A : Type ℓ} {B : Type κ} {C : Type μ} (f : A → Option B) (g : B → Option C) where
  bind_assoc : (o : Option A) → (o >>= f >>= g) ≡ (o >>= (λ a. f a >>= g))
  bind_assoc none = refl
  bind_assoc (some a) = refl

module _ {ℓ κ} {A : Type ℓ} {B : Type κ} where
  bind_congr : {f g : A → Option B} (o : Option A) → ((a : A) → f a ≡ g a) → (o >>= f) ≡ (o >>= g)
  bind_congr none e = refl
  bind_congr (some a) e = e a

bind_some {ℓ} : {A : Type ℓ} (o : Option A) → o ≡ (o >>= some)
bind_some none = refl
bind_some (some a) = refl

-- The bytes of the payload that are read.
abbrev pub payload_bytes : Option (List ℕ) → ℕ → List ℕ
payload_bytes none payload_len = []
payload_bytes (some payload) payload_len = take payload_len payload

-- The ordered table of a manifest: for each fragment its number, its length and its digest.
unfoldable pub manifest_table : ℕ → ℕ → List ℕ → List ℕ → List ℕ
manifest_table zero i ls ds = []
manifest_table (suc n) i ls ds =
    record_header i (get_or ls i 0)
    ++ (take digest_len (drop (i * digest_len) ds) ++ manifest_table n (i + 1) ls ds)

module _ (b : Backend) (lawful : IsLawful b) where
  -- Any updates after the derivation of the key.
  derived-update_all :
      (context : List ℕ) (xs : List (List ℕ))
      → length context < 2 ^ 64
      → length (flat xs) < 2 ^ 64
      → (init_derive_key_raw b context
          >>= (λ h. update_all b h xs >>= (λ s. finalize b s digest_len)))
        ≡ some (derived b context (flat xs))
  unfolding derived finalize
  derived-update_all context xs small bound =
      ap (λ o. o >>= (λ h. update_all b h xs >>= (λ s. finalize_seek b s 0 32)))
        (init_derive_key_raw_lem b lawful context small)
      ∙ finalize_seek-update_all b lawful _ derive_key_material xs 0 32 bound

  unfoldable finish : Hasher → Option (List ℕ)
  finish h = finalize b h digest_len

  -- The updates with the payload: none for an empty one.
  unfoldable payload_updates : Option (List ℕ) → ℕ → List (List ℕ)
  payload_updates none payload_len = []
  payload_updates (some payload) payload_len =
      if payload_len == 0 then [] else take payload_len payload ∷ []

  update_payload_lem :
      (payload : Option (List ℕ)) (payload_len : ℕ) (h : Hasher)
      → update_payload b h payload payload_len
        ≡ update_all b h (payload_updates payload payload_len)
  unfolding update_payload payload_updates
  update_payload_lem none payload_len h = refl
  update_payload_lem (some payload) payload_len h = elim (Bool-cases (payload_len == 0)) [
    | inl e ↦ rw e
    | inr ne ↦ rw ne (bind_some (update b h (take payload_len payload)))
  ]

  flat-payload_updates :
      (payload : Option (List ℕ)) (payload_len : ℕ)
      → flat (payload_updates payload payload_len) ≡ payload_bytes payload payload_len
  unfolding payload_updates
  flat-payload_updates none payload_len = refl
  flat-payload_updates (some payload) payload_len = elim (eq-or-ne payload_len 0) [
    | inl e ↦ rw ((==_iff payload_len 0).1 e) (ap (λ (n : ℕ). take n payload) (sym e))
    | inr ne ↦ rw ne (append-nil (take payload_len payload))
  ]

  hash_chunk_lem :
      (header : List ℕ) (payload : Option (List ℕ)) (payload_len : ℕ)
      → length (header ++ payload_bytes payload payload_len) < 2 ^ 64
      → hash_chunk b header payload payload_len
        ≡ some (derived b chunk_context (header ++ payload_bytes payload payload_len))
  unfolding hash_chunk finish
  hash_chunk_lem header payload payload_len bound =
      let bytes = ap (λ (t : List ℕ). header ++ t) (flat-payload_updates payload payload_len) in
      bind_congr (init_derive_key_raw b chunk_context) (λ h.
        bind_congr (update b h header)
          (λ h1. ap (λ o. o >>= finish) (update_payload_lem payload payload_len h1))
        ∙ sym (
            bind_assoc (λ n. update_all b n (payload_updates payload payload_len)) finish
              (update b h header)))
      ∙ derived-update_all chunk_context (header ∷ payload_updates payload payload_len)
          (omega arith) (omega (arith, ap length bytes))
      ∙ ap (λ (t : List ℕ). some (derived b chunk_context t)) bytes

  -- With a lawful back end, for a fragment of a packet of at most 4096 fragments, the digest is
  -- the derive-key hash of its header with the payload, where the two are less than 2^64 bytes.
  pub chunk_digest_lem :
      (packet_id : List ℕ) (i total : ℕ) (payload : List ℕ) (payload_len : ℕ)
      → i < total
      → total ≤ max_chunks
      → length (chunk_header packet_id i total payload_len ++ take payload_len payload) < 2 ^ 64
      → chunk_digest b (some packet_id) i total (some payload) payload_len true
        ≡ some (
          ok,
          some (
              derived b chunk_context
                (chunk_header packet_id i total payload_len ++ take payload_len payload)),
        )
  unfolding chunk_digest
  chunk_digest_lem packet_id i total payload payload_len h g bound =
      rw (lt→ltb 0 total (omega arith), le→leb total max_chunks g, gt→leb total i h)
        (ap (λ o. o >>= digested)
          (hash_chunk_lem (chunk_header packet_id i total payload_len) (some payload) payload_len
            bound))

  -- The updates with the records of a manifest.
  abbrev record_updates : ℕ → ℕ → List ℕ → List ℕ → List (List ℕ)
  record_updates zero i ls ds = []
  record_updates (suc n) i ls ds =
      record_header i (get_or ls i 0)
      ∷ take digest_len (drop (i * digest_len) ds)
      ∷ record_updates n (i + 1) ls ds

  update_records_lem :
      (n i : ℕ) (ls ds : List ℕ) (h : Hasher)
      → update_records b n i ls ds h ≡ update_all b h (record_updates n i ls ds)
  unfolding update_records
  update_records_lem zero i ls ds h = refl
  update_records_lem (suc n) i ls ds h =
      bind_congr (update b h (record_header i (get_or ls i 0))) (λ h1.
        bind_congr (update b h1 (take digest_len (drop (i * digest_len) ds)))
          (λ h2. update_records_lem n (i + 1) ls ds h2))

  flat-record_updates :
      (n i : ℕ) (ls ds : List ℕ) → flat (record_updates n i ls ds) ≡ manifest_table n i ls ds
  unfolding manifest_table
  flat-record_updates zero i ls ds = refl
  flat-record_updates (suc n) i ls ds =
      ap
        (λ (t : List ℕ).
          record_header i (get_or ls i 0) ++ (take digest_len (drop (i * digest_len) ds) ++ t))
        (flat-record_updates n (i + 1) ls ds)

  -- With a lawful back end, for a manifest of 1 to 4096 fragments the root is the derive-key hash
  -- of its header with the ordered table of the fragments, where these are less than 2^64 bytes.
  pub manifest_root_lem :
      (packet_id : List ℕ) (total : ℕ) (ls ds : List ℕ)
      → 0 < total
      → total ≤ max_chunks
      → length (root_header packet_id total ++ manifest_table total 0 ls ds) < 2 ^ 64
      → manifest_root b (some packet_id) total (some ls) (some ds) true
        ≡ some (
          ok,
          some (
              derived b root_context (root_header packet_id total ++ manifest_table total 0 ls ds)),
        )
  unfolding manifest_root hash_manifest finish
  manifest_root_lem packet_id total ls ds pos small bound =
      let header = root_header packet_id total in
      let bytes = ap (λ (t : List ℕ). header ++ t) (flat-record_updates total 0 ls ds) in
      rw (lt→ltb 0 total pos, le→leb total max_chunks small)
        (ap (λ o. o >>= digested)
          (bind_congr (init_derive_key_raw b root_context) (λ h.
              bind_congr (update b h header)
                (λ h1. ap (λ o. o >>= finish) (update_records_lem total 0 ls ds h1))
              ∙ sym (
                  bind_assoc (λ n. update_all b n (record_updates total 0 ls ds)) finish
                    (update b h header)))
            ∙ derived-update_all root_context (header ∷ record_updates total 0 ls ds) (omega arith)
                (omega (arith, ap length bytes))
            ∙ ap (λ (t : List ℕ). some (derived b root_context t)) bytes))
