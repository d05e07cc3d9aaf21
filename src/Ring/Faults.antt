-- ===== src/Ring/Faults.antt =====
-- What happens to a segment that `validSegment` (BlkBackend.cpp) would refuse: the handlers never
-- call it.
use us_blkback.Base.{
  ℕ, suc, ◌+◌, ◌-◌, ◌*◌, ◌≤◌, ◌<◌, ◌≡◌, ◌≢◌, refl, ◌∙◌, Option, none, some, List, ◌∷◌, ◌==◌, Bool,
  true, false, get_elem?, arith, inl, inr, if-else, ==-false,
}
use us_blkback.Disk.Image.{MappedFile, read_sectors, write_sectors}
use us_blkback.Disk.Bounds.{IsMappedFile, IsWf}
use us_blkback.Limits.{Abi}
use us_blkback.Grants.{Gnttab}
use us_blkback.Grants.Inv.{IsGnttab}
use us_blkback.Grants.Add.{add_grant-Adds, Recent-resolve}
use us_blkback.Ring.{
  Segment, Ring, Request, sectors_of, copy_segment, process_segment, segment_loop,
  handle_read_write, is_write,
}
use us_blkback.Ring.Effects.{RingInv}
use us_blkback.Ring.Segments.{process_segment-added}

module _ {W F : Type 0} (abi : Abi) (segment_at : (ℕ → ℕ) → ℕ → Segment) (gnt : Gnttab W)
    (file : MappedFile F) (gnt_ok : IsGnttab gnt) (file_ok : IsMappedFile file)
    (base : ℕ → Option ℕ) where
  pub copy_segment-beyond_page :
      (writes : Bool) (seg : Segment) (start nr addr k : ℕ) (r : Ring W F)
      → IsWf file r.image
      → 0 < nr
      → start + nr ≤ r.image.sector_count
      → abi.page_size < 512 * seg.first_sect + nr * 512
      → gnt.resolve r.grants.world addr ≡ some k
      → copy_segment abi segment_at gnt file seg start nr writes addr r ≡ none
  unfolding copy_segment read_sectors write_sectors
  copy_segment-beyond_page true seg start nr addr k r w pos fits beyond here = ground arith
  copy_segment-beyond_page false seg start nr addr k r w pos fits beyond here = ground arith

  process_segment-beyond_page :
      (writes : Bool) (seg : Segment) (start : ℕ) (r : Ring W F)
      → RingInv gnt file base r
      → 0 < sectors_of seg
      → start + sectors_of seg ≤ r.image.sector_count
      → abi.page_size < 512 * seg.first_sect + sectors_of seg * 512
      → ((w : W) → (gnt.map_grant_ref w r.grants.dom_id seg.gref).0 ≢ 0)
      → process_segment abi segment_at gnt file seg start (sectors_of seg) writes r ≡ none
  process_segment-beyond_page writes seg start r v pos fits beyond granted =
      let (addr, g, added, adds) = add_grant-Adds gnt gnt_ok base seg.gref r.grants v.grants_ok in
      let step =
        process_segment-added abi segment_at gnt file gnt_ok file_ok base writes seg start addr r g
          added in
      elim adds.result [
        | inl (nonnull, front, _) ↦
            let here = (Recent-resolve gnt gnt_ok base 1 addr seg.gref g adds.valid front).0 in
            step
            ∙ if-else (addr == 0) _ _ (==-false addr 0 nonnull)
            ∙ copy_segment-beyond_page writes seg start (sectors_of seg) addr seg.gref
                (record r { grants = g }) v.image_ok pos fits beyond here
        | inr (_, _, _, (w, refused)) ↦ absurd (granted w refused)
      ]

  segment_loop-faults :
      (n i start : ℕ) (writes : Bool) (segs : List Segment) (seg : Segment) (r : Ring W F)
      → get_elem? segs i ≡ some seg
      → process_segment abi segment_at gnt file seg start (sectors_of seg) writes r ≡ none
      → segment_loop abi segment_at gnt file (suc n) i start writes segs r ≡ none
  unfolding segment_loop
  segment_loop-faults n i start writes segs seg r here fault = rw (here, fault) refl

  -- A request whose first segment ends beyond its page, on a disk that has the sectors and with a
  -- hypervisor that maps the page, makes the program access memory outside that page.
  pub handle_read_write-beyond_page :
      (req : Request) (seg : Segment) (rest : List Segment) (r : Ring W F)
      → RingInv gnt file base r
      → req.seg ≡ seg ∷ rest
      → 0 < req.nr_segments
      → req.nr_segments ≤ abi.max_segments_per_request
      → 0 < sectors_of seg
      → req.sector_number + sectors_of seg ≤ r.image.sector_count
      → abi.page_size < 512 * seg.first_sect + sectors_of seg * 512
      → ((w : W) → (gnt.map_grant_ref w r.grants.dom_id seg.gref).0 ≢ 0)
      → handle_read_write abi segment_at gnt file req r ≡ none
  unfolding handle_read_write
  handle_read_write-beyond_page req seg rest r v e some_seg few pos fits beyond granted =
      let n : ℕ = req.nr_segments - 1 in
      let count : req.nr_segments ≡ suc n = omega arith in
      let fault : (k : ℕ)
          → k ≡ suc n
          → segment_loop abi segment_at gnt file k 0 req.sector_number (is_write req.operation)
              req.seg r
            ≡ none =
        λ k c. rw c (
          segment_loop-faults n 0 req.sector_number (is_write req.operation) req.seg seg r
            (rw e refl)
            (process_segment-beyond_page (is_write req.operation) seg req.sector_number r v pos fits
              beyond granted)) in
      ground (arith, fault req.nr_segments count)
