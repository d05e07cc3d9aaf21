-- ===== src/Ring/Direct.antt =====
-- `handleReadWrite` (BlkBackend.cpp).
use us_blkback.Base.{
  ℕ, suc, ◌+◌, ◌^◌, ◌≤◌, ◌<◌, ◌≡◌, refl, sym, ap, ◌∙◌, Option, some, List, [], ◌∷◌, Bool, get_elem?,
  length-take, arith, inl, inr, length, take, u64-eq_of_lt, From, From-tail, From-head, From-take,
}
use us_blkback.Disk.Image.{MappedFile, Rsp, okay, error}
use us_blkback.Disk.Bounds.{IsMappedFile}
use us_blkback.Limits.{Abi}
use us_blkback.Grants.{Gnttab}
use us_blkback.Grants.Inv.{IsGnttab}
use us_blkback.Ring.{
  Segment, Ring, Request, sectors_of, process_segment, segment_loop, handle_read_write, is_write,
}
use us_blkback.Ring.Effects.{total_sectors, AllSafe, RingInv}
use us_blkback.Ring.Segments.{process_segment-Does}
use us_blkback.Ring.Runs.{Stays, Stays-step, Runs, Runs-nil, Runs-fails, Runs-cons}

module _ {W F : Type 0} (abi : Abi) (segment_at : (ℕ → ℕ) → ℕ → Segment) (gnt : Gnttab W)
    (file : MappedFile F) (gnt_ok : IsGnttab gnt) (file_ok : IsMappedFile file)
    (base : ℕ → Option ℕ) where
  segment_loop-okay :
      (n i start : ℕ) (writes : Bool) (segs : List Segment) (seg : Segment) (r r1 : Ring W F)
      → get_elem? segs i ≡ some seg
      → process_segment abi segment_at gnt file seg start (sectors_of seg) writes r
        ≡ some (okay, r1)
      → start + sectors_of seg < 2 ^ 64
      → segment_loop abi segment_at gnt file (suc n) i start writes segs r
        ≡ segment_loop abi segment_at gnt file n (i + 1) (start + sectors_of seg) writes segs r1
  unfolding segment_loop
  segment_loop-okay n i start writes segs seg r r1 here did small =
      rw (here, did, u64-eq_of_lt (start + sectors_of seg) small) refl

  segment_loop-error :
      (n i start : ℕ) (writes : Bool) (segs : List Segment) (seg : Segment) (r r1 : Ring W F)
      → get_elem? segs i ≡ some seg
      → process_segment abi segment_at gnt file seg start (sectors_of seg) writes r
        ≡ some (error, r1)
      → segment_loop abi segment_at gnt file (suc n) i start writes segs r ≡ some (error, r1)
  unfolding segment_loop
  segment_loop-error n i start writes segs seg r r1 here did = rw (here, did) refl

  segment_loop-Runs :
      (writes : Bool) (rest segs : List Segment) (i start : ℕ) (r : Ring W F)
      → RingInv gnt file base r
      → AllSafe abi rest
      → From i segs rest
      → (rest ≡ [] → start ≤ r.image.sector_count)
      → start + total_sectors rest < 2 ^ 64
      → (rc : Rsp) × (r' : Ring W F) × (segment_loop abi segment_at gnt file
            (length rest)
            i
            start
            writes
            segs
            r
          ≡ some (rc, r'))
        × Stays gnt file base r r'
        × Runs gnt file base writes rest start r rc r'
  segment_loop-Runs writes [] segs i start r v safe from low small = (
    okay,
    r,
    unfold segment_loop in refl,
    record { ring_ok = v; same_count = refl; same_domain = refl; same_sent = refl },
    Runs-nil gnt file base writes start r (low refl),
  )
  segment_loop-Runs writes (seg ∷ rest) segs i start r v safe from low small =
      let (rc, r1, did, keeps, does) =
        process_segment-Does abi segment_at gnt file gnt_ok file_ok base writes seg start r v safe.0
          (omega arith) in
      let here = From-head i segs seg rest from in
      elim does [
        | inl (good, fits, moves) ↦
            let (rc', r', ran, stays, runs) =
              segment_loop-Runs writes rest segs (i + 1) (start + sectors_of seg) r1 keeps.ring_ok
                safe.1 (From-tail i segs seg rest from) (λ _. omega (arith, keeps.same_count))
                (omega arith) in
            (
              rc',
              r',
              segment_loop-okay (length rest) i start writes segs seg r r1 here
                    (did ∙ ap (λ c. some (c, r1)) good) (omega arith)
                  ∙ ran,
              Stays-step gnt file base keeps stays,
              Runs-cons gnt file base writes seg rest start r r1 rc' r' keeps
                  (inl (refl, fits, moves)) runs,
            )
        | inr (bad, why, stays) ↦ (
          error,
          r1,
          segment_loop-error (length rest) i start writes segs seg r r1 here
              (did ∙ ap (λ c. some (c, r1)) bad),
          record {
            ring_ok = keeps.ring_ok;
            same_count = keeps.same_count;
            same_domain = keeps.same_domain;
            same_sent = keeps.same_sent;
          },
          Runs-fails gnt file base writes seg rest start r r1 (inr (refl, why, stays)),
        )
      ]

  handle_read_write_loop :
      (req : Request) (r : Ring W F)
      → 0 < req.nr_segments
      → req.nr_segments ≤ abi.max_segments_per_request
      → handle_read_write abi segment_at gnt file req r
        ≡ segment_loop abi segment_at gnt file req.nr_segments 0 req.sector_number
            (is_write req.operation)
            req.seg
            r
  unfolding handle_read_write
  handle_read_write_loop req r p q = ground arith

  -- What a read or write request needs to be carried out: the array holds its segments, which
  -- `validSegment` would accept, and its sectors have 64-bit numbers.
  pub record IsSound (req : Request) : Type 0 where
    pub some_segment : 0 < req.nr_segments
    pub few_segments : req.nr_segments ≤ abi.max_segments_per_request
    pub in_array : req.nr_segments ≤ length req.seg
    pub all_safe : AllSafe abi (take req.nr_segments req.seg)
    pub no_wrap : req.sector_number + total_sectors (take req.nr_segments req.seg) < 2 ^ 64

  -- A read or write request whose segments `validSegment` accepts is carried out with no access
  -- out of bounds, if its sector numbers stay below 2 ^ 64: its segments move their bytes, in
  -- order, up to the first that fails, and the ring stays in order.
  pub handle_read_write-Runs :
      (req : Request) (r : Ring W F)
      → RingInv gnt file base r
      → IsSound req
      → (rc : Rsp) × (r' : Ring W F) × (handle_read_write abi segment_at gnt file req r
          ≡ some (rc, r'))
        × Stays gnt file base r r'
        × Runs gnt file base
            (is_write req.operation)
            (take req.nr_segments req.seg)
            req.sector_number
            r
            rc
            r'
  handle_read_write-Runs req r v sound =
      let segs = take req.nr_segments req.seg in
      let e : length segs ≡ req.nr_segments = length-take req.nr_segments req.seg sound.in_array in
      let (rc, r', ran, stays, runs) =
        segment_loop-Runs (is_write req.operation) segs req.seg 0 req.sector_number r v
          sound.all_safe (From-take req.nr_segments req.seg)
          (λ none_left. absurd (omega (arith, e, ap length none_left, sound.some_segment)))
          sound.no_wrap in
      (
        rc,
        r',
        handle_read_write_loop req r sound.some_segment sound.few_segments
            ∙ ap
                (λ n.
                  segment_loop abi segment_at gnt file n 0 req.sector_number
                    (is_write req.operation) req.seg r)
                (sym e)
            ∙ ran,
        stays,
        runs,
      )
