-- ===== src/Ring/Does.antt =====
-- What `processSegment` (BlkBackend.cpp) keeps, returns and does to the bytes.
use us_blkback.Base.{ℕ, ◌+◌, ◌≤◌, ◌<◌, ◌≡◌, Option, Bool, ◌⊎◌}
use us_blkback.Disk.Image.{MappedFile, Rsp, okay, error}
use us_blkback.Grants.{Gnttab}
use us_blkback.Grants.Adds.{Refuses, Ages}
use us_blkback.Ring.{Segment, Ring, sectors_of}
use us_blkback.Ring.Effects.{Store, transfer, Agrees, RingInv}

module _ {W F : Type 0} (gnt : Gnttab W) (file : MappedFile F) (base : ℕ → Option ℕ) where
  -- What every step of a handler keeps.
  pub record KeepsRing (r r' : Ring W F) : Type 0 where
    pub ring_ok : RingInv gnt file base r'
    pub ages : Ages gnt base r.grants.lru r'.grants.lru
    pub same_count : r'.image.sector_count ≡ r.image.sector_count
    pub same_domain : r'.grants.dom_id ≡ r.grants.dom_id
    pub same_sent : r'.sent ≡ r.sent

  -- The sectors of the segment end within the disk.
  abbrev pub Fits : Segment → ℕ → Ring W F → Type 0
  Fits seg start r = start + sectors_of seg ≤ r.image.sector_count

  -- What one segment returns and does.
  abbrev pub Does : Bool → Segment → ℕ → Ring W F → Rsp → Ring W F → Type 0
  Does writes seg start r rc r' =
      ((rc ≡ okay)
        × Fits seg start r
        × ((s : Store) → Agrees gnt file r s → Agrees gnt file r' (transfer writes seg start s)))
      ⊎ ((rc ≡ error)
          × ((r.image.sector_count < start + sectors_of seg)
              ⊎ Refuses gnt base r.grants.dom_id seg.gref)
          × ((s : Store) → Agrees gnt file r s → Agrees gnt file r' s))
