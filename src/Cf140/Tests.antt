-- ===== src/Cf140/Tests.antt =====
-- The theorems on words and byte arrays applied to inputs.
use blake.Base.{ℕ, zero, suc, ◌≡◌, ◌↔◌, refl, arith, All, IsByte, replicate}
use blake.Cf140.{diff32}
use blake.Cf140.Arrays.{diff32_iff}

All-bytes : (n x : ℕ) → IsByte x → All IsByte (replicate n x)
All-bytes zero x h = tt
All-bytes (suc n) x h = (h, All-bytes n x h)

diff32_example :
    (diff32 (replicate 32 200) (replicate 32 201) ≡ 0)
    ↔ (replicate {A = ℕ} 32 200 ≡ replicate 32 201)
diff32_example =
    diff32_iff (replicate 32 200) (replicate 32 201) (All-bytes 32 200 (omega arith))
      (All-bytes 32 201 (omega arith)) refl refl
