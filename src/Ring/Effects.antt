-- ===== src/Ring/Effects.antt =====
-- What segments do to the bytes of the disk and of the guest's pages, with the grants, the
-- mappings and the failures left out.
use us_blkback.Base.{
  ℕ, ◌+◌, ◌*◌, ◌≤◌, ◌<◌, ◌≡◌, ◌≢◌, Option, List, [], ◌∷◌, ◌==◌, if◌then◌else◌, Bool, true, false,
  arith,
}
use us_blkback.Disk.Region.{blit}
use us_blkback.Disk.Image.{MappedFile}
use us_blkback.Disk.Bounds.{IsWf}
use us_blkback.Limits.{Abi}
use us_blkback.Grants.{Gnttab}
use us_blkback.Grants.Inv.{Inv}
use us_blkback.Ring.{Segment, Ring, sectors_of, valid_segment}

pub record Store : Type 0 where
  pub disk : ℕ → ℕ
  pub pages : ℕ → ℕ → ℕ

-- A write copies from the page to the disk, a read from the disk to the page.
abbrev pub transfer : Bool → Segment → ℕ → Store → Store
transfer true seg start s = record s {
  disk = blit s.disk (start * 512) (s.pages seg.gref) (512 * seg.first_sect) (sectors_of seg * 512);
}
transfer false seg start s = record s {
  pages = λ k.
      if seg.gref == k
      then blit (s.pages k) (512 * seg.first_sect) s.disk (start * 512) (sectors_of seg * 512)
      else s.pages k;
}

-- The segments of a request, one after another on the disk.
abbrev pub transfers : Bool → List Segment → ℕ → Store → Store
transfers writes [] start s = s
transfers writes (seg ∷ segs) start s =
    transfers writes segs (start + sectors_of seg) (transfer writes seg start s)

abbrev pub total_sectors : List Segment → ℕ
total_sectors [] = 0
total_sectors (seg ∷ segs) = sectors_of seg + total_sectors segs

-- `validSegment` accepts the segment, and `last_sect` is a `uint8_t`.
pub record IsSafe (abi : Abi) (seg : Segment) : Type 0 where
  pub valid : valid_segment abi seg ≡ true
  pub byte : seg.last_sect < 256

abbrev pub AllSafe : Abi → List Segment → Type 0
AllSafe abi [] = Unit {0}
AllSafe abi (seg ∷ segs) = IsSafe abi seg × AllSafe abi segs

-- A segment that `validSegment` accepts has at least one sector, and lies in its page.
pub valid_segment_bounds :
    (abi : Abi) (seg : Segment)
    → IsSafe abi seg
    → (0 < sectors_of seg)
      × (sectors_of seg ≤ 256)
      × (512 * seg.first_sect + sectors_of seg * 512 ≤ abi.page_size)
      × (seg.gref ≢ 0)
unfolding valid_segment
valid_segment_bounds abi seg v = ground arith

module _ {W F : Type 0} (gnt : Gnttab W) (file : MappedFile F) where
  -- The ring's disk and pages hold the bytes of the store.
  pub record Agrees (r : Ring W F) (s : Store) : Type 0 where
    pub same_disk : (x : ℕ) → x < r.image.sector_count * 512 → file.get r.image.file x ≡ s.disk x
    pub same_pages : (k i : ℕ) → gnt.page r.grants.world k i ≡ s.pages k i

  -- What holds of a ring between two requests.
  pub record RingInv (base : ℕ → Option ℕ) (r : Ring W F) : Type 0 where
    pub grants_ok : Inv gnt base r.grants
    pub image_ok : IsWf file r.image
