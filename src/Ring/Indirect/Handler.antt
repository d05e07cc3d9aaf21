-- ===== src/Ring/Indirect/Handler.antt =====
-- `handleIndirect`: what it refuses, and what it does with the segments of a sound request.
use us_blkback.Base.{
  ℕ, ◌+◌, ◌*◌, ◌^◌, ◌≤◌, ◌<◌, ◌≡◌, refl, ap, ◌∙◌, Option, some, List, [], ◌∷◌, arith, ◌⊎◌, length,
  From-all,
}
use us_blkback.Disk.Image.{MappedFile, Rsp}
use us_blkback.Disk.Bounds.{IsMappedFile}
use us_blkback.Limits.{Abi, IsAbi, div_round_up, segments_per_indirect_page}
use us_blkback.Limits.Bounds.{div_round_up_lem, div_round_up_mono}
use us_blkback.Grants.{Gnttab}
use us_blkback.Grants.Inv.{IsGnttab}
use us_blkback.Ring.{
  Segment, Ring, IndirectRequest, read, write, indirect_loop, handle_indirect, is_write,
}
use us_blkback.Ring.Effects.{total_sectors, AllSafe, RingInv}
use us_blkback.Ring.Runs.{Stays, Runs}
use us_blkback.Ring.Indirect.Pages.{indirect_segments, length-indirect_segments, AvoidsAll}
use us_blkback.Ring.Indirect.Rounds.{Hold, Plan}
use us_blkback.Ring.Indirect.Requests.{indirect_loop-Runs}

segments_per_page_le : (abi : Abi) → segments_per_indirect_page abi ≤ abi.page_size
segments_per_page_le abi = grind arith

module _ {W F : Type 0} (abi : Abi) (segment_at : (ℕ → ℕ) → ℕ → Segment) (gnt : Gnttab W)
    (file : MappedFile F) where
  -- The segments that the pages of the request list when it is handled.
  abbrev pub listed : IndirectRequest → Ring W F → List Segment
  listed ind r =
      indirect_segments abi segment_at (gnt.page r.grants.world)
        (div_round_up ind.nr_segments (segments_per_indirect_page abi)) ind.indirect_grefs
        ind.nr_segments

  -- What an indirect request needs to be carried out: its segments would pass `validSegment`,
  -- have 64-bit sector numbers and, for a read, do not name the pages that list them.
  pub record IsSoundIndirect (ind : IndirectRequest) (r : Ring W F) : Type 0 where
    pub operation : (ind.indirect_op ≡ read) ⊎ (ind.indirect_op ≡ write)
    pub some_segment : 0 < ind.nr_segments
    pub few_segments : ind.nr_segments ≤ 256
    pub array : length ind.indirect_grefs ≡ abi.max_indirect_pages_per_request
    pub all_safe : AllSafe abi (listed ind r)
    pub avoids : AvoidsAll (is_write ind.indirect_op) ind.indirect_grefs (listed ind r)
    pub no_wrap : ind.sector_number + total_sectors (listed ind r) < 2 ^ 64

  handle_indirect_loop :
      (ind : IndirectRequest) (r : Ring W F)
      → (ind.indirect_op ≡ read) ⊎ (ind.indirect_op ≡ write)
      → 0 < ind.nr_segments
      → ind.nr_segments ≤ 256
      → handle_indirect abi segment_at gnt file ind r
        ≡ indirect_loop abi segment_at gnt file
            (div_round_up ind.nr_segments (segments_per_indirect_page abi))
            0
            ind.nr_segments
            ind.sector_number
            0
            (is_write ind.indirect_op)
            ind.indirect_grefs
            r
  unfolding handle_indirect
  handle_indirect_loop ind r op p q = ground arith

  Hold-refl :
      (gnt_ok : IsGnttab gnt) (file_ok : IsMappedFile file) (base : ℕ → Option ℕ) (gs : List ℕ)
      (r : Ring W F)
      → Hold abi segment_at gnt file gnt_ok file_ok base (gnt.page r.grants.world) gs r
  Hold-refl gnt_ok file_ok base [] r = tt
  Hold-refl gnt_ok file_ok base (g ∷ gs) r = (λ i. refl, Hold-refl gnt_ok file_ok base gs r)

  -- For a sound indirect request on a ring in order, no index leaves `indirect_grefs`, no page is
  -- read after it was unmapped and no read leaves a page; the segments that the pages list are as
  -- many as it says, and move their bytes in order, up to the first that fails.
  pub handle_indirect-Runs :
      (gnt_ok : IsGnttab gnt) (file_ok : IsMappedFile file) (base : ℕ → Option ℕ)
      → IsAbi abi
      → (ind : IndirectRequest) (r : Ring W F) → RingInv gnt file base r
      → IsSoundIndirect ind r
      → (length (listed ind r) ≡ ind.nr_segments)
        × (rc : Rsp) × (r' : Ring W F) × (handle_indirect abi segment_at gnt file ind r
            ≡ some (rc, r'))
        × Stays gnt file base r r'
        × Runs gnt file base (is_write ind.indirect_op) (listed ind r) ind.sector_number r rc r'
  handle_indirect-Runs gnt_ok file_ok base ok ind r v sound =
      let pos = ok.asserts.segments_fit in
      let per = segments_per_indirect_page abi in
      let k = div_round_up ind.nr_segments per in
      let pages = gnt.page r.grants.world in
      let small : per ≤ 2 ^ 32 = omega (arith, segments_per_page_le abi, ok.small_page) in
      let cover = div_round_up_lem ind.nr_segments per pos (omega (arith, sound.few_segments)) in
      let enough : k ≤ length ind.indirect_grefs = omega (
        arith,
        sound.array,
        ok.asserts.indirect_pages_fit,
        div_round_up_mono ind.nr_segments 256 per pos sound.few_segments (omega arith),
      ) in
      let plan : Plan abi segment_at gnt file gnt_ok file_ok base pages (is_write ind.indirect_op) k
          ind.indirect_grefs ind.nr_segments ind.sector_number r =
        record {
          ring_ok = v;
          enough_pages = enough;
          no_spare = λ j e. omega (arith, cover.1, ap (λ (t : ℕ). t * per) e);
          holds = Hold-refl gnt_ok file_ok base ind.indirect_grefs r;
          few = sound.few_segments;
          safe = sound.all_safe;
          avoids = sound.avoids;
          low = λ e. absurd (omega (arith, cover.0, ap (λ (t : ℕ). t * per) e, sound.some_segment));
          no_wrap = sound.no_wrap;
        } in
      let (rc, r', ran, stays, runs) =
        indirect_loop-Runs abi segment_at gnt file gnt_ok file_ok base pages
          (is_write ind.indirect_op) k ind.indirect_grefs ind.indirect_grefs 0 ind.nr_segments 0
          ind.nr_segments ind.sector_number r pos (omega arith) sound.few_segments
          (From-all ind.indirect_grefs) plan in
      (
        length-indirect_segments abi segment_at pages k ind.indirect_grefs ind.nr_segments enough
            cover.0,
        rc,
        r',
        handle_indirect_loop ind r sound.operation sound.some_segment sound.few_segments ∙ ran,
        stays,
        runs,
      )
