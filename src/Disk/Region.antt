-- ===== src/Disk/Region.antt =====
-- Blocks of memory, as `memcpy` and `memset` see them.
use us_blkback.Base.{
  ℕ, ◌+◌, ◌-◌, ◌≤◌, ◌<◌, ◌≡◌, Option, none, some, ◌&&◌, leb, ltb, if◌then◌else◌, arith,
}

-- A live block: `byte i` is its byte at offset `i`, for `i < size`.
pub record Region : Type 0 where
  pub size : ℕ
  pub byte : ℕ → ℕ

-- The bytes after `n` bytes of `src` from `j` on were copied over those of `dst` from `i` on.
abbrev pub blit : (ℕ → ℕ) → ℕ → (ℕ → ℕ) → ℕ → ℕ → ℕ → ℕ
blit dst i src j n k = if leb i k && ltb k (i + n) then src (j + (k - i)) else dst k

-- An access that leaves either block is undefined behaviour.
unfoldable pub memcpy : Region → ℕ → Region → ℕ → ℕ → Option Region
memcpy dst i src j n =
    if leb (i + n) dst.size && leb (j + n) src.size
    then some (record dst { byte = blit dst.byte i src.byte j n })
    else none

unfoldable pub memset : Region → ℕ → ℕ → ℕ → Option Region
memset dst i c n =
    if leb (i + n) dst.size then some (record dst { byte = blit dst.byte i (λ _. c) 0 n }) else none

pub memcpy_in_bounds :
    (dst src : Region) (i j n : ℕ)
    → i + n ≤ dst.size
    → j + n ≤ src.size
    → memcpy dst i src j n ≡ some (record dst { byte = blit dst.byte i src.byte j n })
unfolding memcpy
memcpy_in_bounds dst src i j n p q = ground arith

pub memset_in_bounds :
    (dst : Region) (i c n : ℕ)
    → i + n ≤ dst.size
    → memset dst i c n ≡ some (record dst { byte = blit dst.byte i (λ _. c) 0 n })
unfolding memset
memset_in_bounds dst i c n p = ground arith

pub blit_cong :
    (f f' g g' : ℕ → ℕ) (i j n k : ℕ)
    → f k ≡ f' k
    → (i ≤ k → k < i + n → g (j + (k - i)) ≡ g' (j + (k - i)))
    → blit f i g j n k ≡ blit f' i g' j n k
blit_cong f f' g g' i j n k same copied = ground arith
