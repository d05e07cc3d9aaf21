-- ===== src/Limits/Bounds.antt =====
-- What the limits and their arithmetic come to.
use us_blkback.Base.{ℕ, ◌+◌, ◌*◌, ◌^◌, ◌≤◌, ◌<◌, ◌≡◌, refl, arith}
use us_blkback.Limits.{div_round_up, max_pgrants_per_frontend, grant_eviction_size}

-- The least number of blocks of `d` that hold `n`, while the sum fits 64 bits.
pub div_round_up_lem :
    (n d : ℕ) → 0 < d → n + d ≤ 2 ^ 64 → (n ≤ div_round_up n d * d) × (div_round_up n d * d < n + d)
div_round_up_lem n d p h = (grind arith, grind arith)

pub limits : (max_pgrants_per_frontend ≡ 1024) × (grant_eviction_size ≡ 52)
limits = (refl, refl)

pub div_round_up_mono :
    (n m d : ℕ) → 0 < d → n ≤ m → m + d ≤ 2 ^ 64 → div_round_up n d ≤ div_round_up m d
div_round_up_mono n m d p h fits = grind arith
