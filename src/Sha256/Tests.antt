-- ===== src/Sha256/Tests.antt =====
-- The theorems on SHA-256 applied to inputs, and the published digest of "abc".
use blake.Base.{ℕ, ◌≡◌, refl, arith, List, [], ◌∷◌, replicate, take, some, ◌>>=◌}
use blake.Chunk.Update.{flat}
use blake.Sha256.{Context, init, update, final, initial, process_block}
use blake.Sha256.Unrolled.{compress_block}
use blake.Sha256.Agree.{compress_block_lem}
use blake.Sha256.Padding.{updates, IsHash, final-updates}

abbrev unset : Context
unset = record { hash = initial; len = 77; buf = replicate 64 5; buf_len = 9 }

abbrev two_updates : List (List ℕ)
two_updates = replicate 60 1 ∷ [] ∷ replicate 9 2 ∷ []

final-updates_example :
    (out : List ℕ) × (final (updates (init unset) two_updates) ≡ some out)
    × IsHash (flat two_updates) out
final-updates_example = final-updates unset two_updates refl (omega arith)

compress_block_example :
    compress_block initial (replicate 64 7) ≡ process_block initial (replicate 64 7)
compress_block_example = compress_block_lem initial (replicate 64 7)

-- The SHA-256 of "abc" starts with ba7816bf 8f01cfea.
abc :
    final (update (init unset) (97 ∷ 98 ∷ 99 ∷ [])) >>= (λ out. some (take 8 out))
    ≡ some (0xba ∷ 0x78 ∷ 0x16 ∷ 0xbf ∷ 0x8f ∷ 0x01 ∷ 0xcf ∷ 0xea ∷ [])
unfolding final update init process_block
abc = refl
