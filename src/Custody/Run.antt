-- ===== src/Custody/Run.antt =====
-- Streams as sequences of calls: `rpc_stream_init`, and then any calls of `rpc_stream_record`.
use blake.Base.{ℕ, ◌≡◌, refl, sym, ◌∙◌, arith, inl, inr, eq-or-ne, List, [], ◌∷◌}
use blake.Base.{Option, some}
use mathlib.Core.List.{Memᴰ}
use mathlib.Core.Path.{subst₃}
use blake.Backend.{Backend}
use blake.Custody.{Status, ok, Stream, copy, packet_id_len}
use blake.Custody.Streams.{stream_init, stream_record}
use blake.Custody.Bitmap.{digit, digit-bit_set_other}
use blake.Custody.Record.{Effect, unchanged, counted_out, taken, record_Effect, Verified}
use blake.Custody.Invariant.{IsConsistent, stream_init-IsConsistent, stream_record-IsConsistent}

-- One fragment as it is handed to `rpc_stream_record`.
pub record Fragment : Type 0 where
  pub chunk_index : ℕ
  pub payload : Option (List ℕ)
  pub payload_len : ℕ
  pub expected_digest : Option (List ℕ)

module _ (b : Backend) (id : List ℕ) (total : ℕ) where
  -- The state after the fragments of a list, the latest one first.
  pub data Reached : List Fragment → Stream → Type 0 where
    started :
        {s : Stream} (state : Stream)
        → stream_init (some state) (some id) total ≡ (ok, some s)
        → Reached [] s
    recorded :
        {fs : List Fragment} {s after : Stream} (f : Fragment) (st : Status)
        → Reached fs s
        → stream_record b (some s) f.chunk_index f.payload f.payload_len f.expected_digest
          ≡ some (st, some after)
        → Reached (f ∷ fs) after

  -- In every run of `rpc_stream_init` and any calls of `rpc_stream_record`, the counter of
  -- received fragments is the number of marks, the bitmap keeps its size, and no fragment outside
  -- the packet is marked.
  pub Reached-IsConsistent : {fs : List Fragment} {s : Stream} → Reached fs s → IsConsistent s
  Reached-IsConsistent (started state h) = (stream_init-IsConsistent state id total _ h).0
  Reached-IsConsistent (recorded f st r h) =
      stream_record-IsConsistent b _ f.chunk_index f.payload f.payload_len f.expected_digest st _
        (Reached-IsConsistent r) h

  abbrev SamePacket : Stream → Type 0
  SamePacket s = (s.packet_id ≡ copy id packet_id_len) × (s.total_chunks ≡ total)

  Reached-SamePacket : {fs : List Fragment} {s : Stream} → Reached fs s → SamePacket s
  Reached-SamePacket (started state h) =
      let (v, same, count, clear) = stream_init-IsConsistent state id total _ h in (same, count)
  Reached-SamePacket (recorded f st r h) =
      kept f (record_Effect b _ f.chunk_index f.payload f.payload_len f.expected_digest st _ h)
        (Reached-SamePacket r)
    where
      kept :
          (f : Fragment) {s after : Stream} {st : Status}
          → Effect b s f.chunk_index f.payload f.payload_len f.expected_digest st after
          → SamePacket s
          → SamePacket after
      kept f (unchanged ne) p = p
      kept f counted_out p = p
      kept f (taken below small clear v) p = unfold blake.Custody.bit_set in p

  -- The fragment is in the list, has the index, and its digest compares equal to the expected one.
  abbrev pub Genuine : List Fragment → ℕ → Type 0
  Genuine fs i =
      (f : Fragment) × Memᴰ f fs
      × (f.chunk_index ≡ i)
      × Verified b (copy id packet_id_len) total i f.payload f.payload_len f.expected_digest

  later : {fs : List Fragment} {i : ℕ} (f : Fragment) → Genuine fs i → Genuine (f ∷ fs) i
  later f (g, m, e, v) = (g, Memᴰ.tail m, e, v)

  taken-Genuine :
      {fs : List Fragment} (f : Fragment) {s after : Stream} {st : Status} (i : ℕ)
      → Effect b s f.chunk_index f.payload f.payload_len f.expected_digest st after
      → IsConsistent s
      → SamePacket s
      → (digit s i ≡ 1 → Genuine fs i)
      → digit after i ≡ 1
      → Genuine (f ∷ fs) i
  unfolding digit
  taken-Genuine f i (unchanged ne) v p before d = later f (before d)
  taken-Genuine f i counted_out v p before d = later f (before d)
  taken-Genuine {fs} f {s} i (taken below small clear genuine) v p before d =
      elim (eq-or-ne f.chunk_index i) [
        | inl e ↦ (f, Memᴰ.head refl, e, same_fragment p.0 p.1 e genuine)
        | inr ne ↦
            let other =
              digit-bit_set_other s f.chunk_index i (λ e. ground arith) v.size (omega arith) in
            later f (before (sym other ∙ d))
      ]
    where
      same_fragment :
          {id' : List ℕ} {total' i' : ℕ}
          → id' ≡ copy id packet_id_len
          → total' ≡ total
          → i' ≡ i
          → Verified b id' total' i' f.payload f.payload_len f.expected_digest
          → Verified b (copy id packet_id_len) total i f.payload f.payload_len f.expected_digest
      same_fragment a c e g =
          subst₃
            (λ id' total' i'. Verified b id' total' i' f.payload f.payload_len f.expected_digest) a
            c e g

  -- In every run of `rpc_stream_init` and any calls of `rpc_stream_record`, a fragment that is
  -- marked was recorded with a payload whose digest, bound to the packet, the index and the number
  -- of fragments, compared equal to the digest that was expected.
  pub Reached-Genuine :
      {fs : List Fragment} {s : Stream} → Reached fs s → (i : ℕ) → digit s i ≡ 1 → Genuine fs i
  Reached-Genuine (started state h) i d =
      let (v, same, count, clear) = stream_init-IsConsistent state id total _ h in
      absurd (omega (arith, clear i))
  Reached-Genuine (recorded f st r h) i d =
      taken-Genuine f i
        (record_Effect b _ f.chunk_index f.payload f.payload_len f.expected_digest st _ h)
        (Reached-IsConsistent r) (Reached-SamePacket r) (Reached-Genuine r i) d
