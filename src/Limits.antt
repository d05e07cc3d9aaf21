-- ===== src/Limits.antt =====
-- The limits at the top of BlkBackend.cpp, and the two helpers of BlkBackend.hpp.
pub mod Bounds
use Prim.Native.Nat.{bit_and}
use us_blkback.Base.{ℕ, ◌+◌, ◌-◌, ◌*◌, ◌/◌, ◌^◌, ◌≤◌, ◌<◌, ◌≡◌, ltb, if◌then◌else◌, u64, ◌%◌}
use us_blkback.Disk.Image.{sector_size}

-- What the Xen headers declare: XC_PAGE_SIZE, sizeof(struct blkif_request_segment),
-- BLKIF_MAX_SEGMENTS_PER_REQUEST and BLKIF_MAX_INDIRECT_PAGES_PER_REQUEST.
pub record Abi : Type 0 where
  pub page_size : ℕ
  pub sizeof_segment : ℕ
  pub max_segments_per_request : ℕ
  pub max_indirect_pages_per_request : ℕ

abbrev pub minimum : ℕ → ℕ → ℕ
minimum left right = if ltb left right then left else right

-- (n + d - 1U) / d on `uint64_t`.
abbrev pub div_round_up : ℕ → ℕ → ℕ
div_round_up n d = u64 (n + d + (2 ^ 64 - 1)) / d

abbrev pub max_pgrants : ℕ
max_pgrants = 8192

abbrev pub max_frontends : ℕ
max_frontends = 8

abbrev pub max_pgrants_per_frontend : ℕ
max_pgrants_per_frontend = max_pgrants / max_frontends

abbrev pub max_indirect_segments : ℕ
max_indirect_segments = 256

-- Evict 5% of existing grants when the persistent limit is full.
abbrev pub grant_eviction_size : ℕ
grant_eviction_size = div_round_up (max_pgrants_per_frontend * 5) 100

abbrev pub sectors_per_page : Abi → ℕ
sectors_per_page abi = abi.page_size / sector_size

abbrev pub segments_per_indirect_page : Abi → ℕ
segments_per_indirect_page abi = abi.page_size / abi.sizeof_segment

abbrev pub max_indirect_pages : Abi → ℕ
max_indirect_pages abi = div_round_up max_indirect_segments (segments_per_indirect_page abi)

-- The constants as one value, in the order of the source.
pub record Constants : Type 0 where
  pub pgrants : ℕ
  pub frontends : ℕ
  pub pgrants_per_frontend : ℕ
  pub page_sectors : ℕ
  pub page_segments : ℕ
  pub indirect_segments : ℕ
  pub indirect_pages : ℕ
  pub eviction_size : ℕ

abbrev pub constants : Abi → Constants
constants abi = record {
  pgrants = max_pgrants;
  frontends = max_frontends;
  pgrants_per_frontend = max_pgrants_per_frontend;
  page_sectors = sectors_per_page abi;
  page_segments = segments_per_indirect_page abi;
  indirect_segments = max_indirect_segments;
  indirect_pages = max_indirect_pages abi;
  eviction_size = grant_eviction_size;
}

-- The `static_assert` lines: the headers are refused where one fails.
pub record StaticAsserts (abi : Abi) : Type 0 where
  pub segments_fit : 0 < segments_per_indirect_page abi
  pub power_of_two :
      bit_and (segments_per_indirect_page abi) (segments_per_indirect_page abi - 1) ≡ 0
  pub indirect_pages_fit : max_indirect_pages abi ≤ abi.max_indirect_pages_per_request
  pub grants_fit : abi.max_segments_per_request < max_pgrants_per_frontend
  pub eviction_fits : grant_eviction_size < max_pgrants_per_frontend

-- The headers that the source accepts, where a page has at most 2 ^ 32 bytes.
pub record IsAbi (abi : Abi) : Type 0 where
  pub asserts : StaticAsserts abi
  pub small_page : abi.page_size ≤ 2 ^ 32
