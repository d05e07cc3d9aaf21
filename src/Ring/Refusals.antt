-- ===== src/Ring/Refusals.antt =====
-- The requests that `processRequest` (BlkBackend.cpp) refuses.
use us_blkback.Base.{
  if◌then◌else◌, none, ltb, ◌&&◌, ◌||◌, ℕ, ◌+◌, ◌^◌, ◌≡◌, refl, Option, some, ◌∷◌, leb, arith,
}
use us_blkback.Disk.Image.{MappedFile, Rsp, error, eopnotsupp, discard}
use us_blkback.Limits.{Abi}
use us_blkback.Grants.{Gnttab}
use us_blkback.Ring.{
  is_write, is_read, handle_indirect, Segment, Ring, Request, Op, read, write, write_barrier,
  flush_diskcache, discards, indirects, other, handle_read_write, dispatch, process_request,
}
use us_blkback.Ring.Dispatch.{answered}

module _ {W F : Type 0} (abi : Abi) (segment_at : (ℕ → ℕ) → ℕ → Segment) (gnt : Gnttab W)
    (file : MappedFile F) where
  -- Why a request is refused before it touches the disk or the grants: a wrong number of
  -- segments, an indirect operation that is no read or write, a discard beyond the disk, or an
  -- operation the program does not know.
  abbrev pub refusal : Op → Request → Ring W F → Option Rsp
  refusal read req r =
      if leb 1 req.nr_segments && leb req.nr_segments abi.max_segments_per_request
      then none
      else some error
  refusal write req r =
      if leb 1 req.nr_segments && leb req.nr_segments abi.max_segments_per_request
      then none
      else some error
  refusal discards req r =
      if leb (req.as_discard.sector_number + req.as_discard.nr_sectors) r.image.sector_count
      then none
      else if ltb (req.as_discard.sector_number + req.as_discard.nr_sectors) (2 ^ 64)
      then some error
      else none
  refusal indirects req r =
      if (is_read req.as_indirect.indirect_op || is_write req.as_indirect.indirect_op)
        && (leb 1 req.as_indirect.nr_segments && leb req.as_indirect.nr_segments 256)
      then none
      else some error
  refusal (other n) req r = some eopnotsupp
  refusal _ req r = none

  dispatch-refusal :
      (op : Op) (req : Request) (r : Ring W F) (rc : Rsp)
      → req.operation ≡ op
      → refusal op req r ≡ some rc
      → dispatch abi segment_at gnt file op req r ≡ some (rc, answered op req, r)
  unfolding dispatch handle_read_write handle_indirect discard
  dispatch-refusal read req r rc e h = ground (arith, h, e)
  dispatch-refusal write req r rc e h = ground (arith, h, e)
  dispatch-refusal write_barrier req r rc e h = ground (arith, h)
  dispatch-refusal flush_diskcache req r rc e h = ground (arith, h)
  dispatch-refusal discards req r rc e h = ground (arith, h)
  dispatch-refusal indirects req r rc e h = ground (arith, h)
  dispatch-refusal (other n) req r rc e h = ground (arith, h)

  pub process_request-refusal :
      (req : Request) (r : Ring W F) (rc : Rsp)
      → refusal req.operation req r ≡ some rc
      → process_request abi segment_at gnt file req r
        ≡ some (record r {
          sent =
              record { id = req.id; operation = answered req.operation req; status = rc } ∷ r.sent;
        })
  unfolding process_request
  process_request-refusal req r rc h = rw (dispatch-refusal req.operation req r rc refl h) refl
