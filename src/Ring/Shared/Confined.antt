-- ===== src/Ring/Shared/Confined.antt =====
-- A read or write request while the guest writes to its pages (BlkBackend.cpp).
use us_blkback.Base.{
  ℕ, ◌+◌, ◌*◌, ◌^◌, ◌<◌, ◌≡◌, refl, sym, ap, ◌∙◌, Option, some, List, [], ◌∷◌, Bool, arith, length,
  take, From, From-tail, From-head, From-take, length-take,
}
use us_blkback.Disk.Image.{MappedFile, Rsp, okay}
use us_blkback.Disk.Bounds.{IsMappedFile}
use us_blkback.Limits.{Abi}
use us_blkback.Grants.{Gnttab}
use us_blkback.Grants.Inv.{IsGnttab}
use us_blkback.Ring.{Segment, Ring, Request, sectors_of, is_write, handle_read_write}
use us_blkback.Ring.Effects.{AllSafe, total_sectors, RingInv}
use us_blkback.Ring.Runs.{Stays}
use us_blkback.Ring.Direct.{IsSound}
use us_blkback.Ring.Shared.{Turns, copied, outcome, after_turn, shared_loop, handle_shared}
use us_blkback.Ring.Shared.Quiet.{quiet, handle_shared-quiet, count_sectors-same}
use us_blkback.Ring.Shared.Once.{IsGuest, Confined, Ends, after_turn-RingInv, process_shared-Ends}
use us_blkback.Ring.Shared.Rounds.{round-Ends}

module _ {W F : Type 0} (abi : Abi) (segment_at : (ℕ → ℕ) → ℕ → Segment) (gnt : Gnttab W)
    (file : MappedFile F) (gnt_ok : IsGnttab gnt) (file_ok : IsMappedFile file)
    (base : ℕ → Option ℕ) where
  module _ (turns : Turns W) (guest : IsGuest gnt file turns) where
    shared_loop-Ends :
        (writes : Bool) (rest segs : List Segment) (i start : ℕ) (r : Ring W F)
        → RingInv gnt file base r
        → AllSafe abi rest
        → From i segs rest
        → start + total_sectors rest < 2 ^ 64
        → Ends abi segment_at gnt file gnt_ok file_ok base writes start (total_sectors rest) r (
            outcome (
              shared_loop abi segment_at gnt file turns
                (copied segs)
                (length rest)
                i
                start
                writes
                r))
    shared_loop-Ends writes [] segs i start r v safe from small = (
      okay,
      r,
      unfold shared_loop in refl,
      record { ring_ok = v; same_count = refl; same_domain = refl; same_sent = refl },
      λ x inside out. refl,
    )
    shared_loop-Ends writes (seg ∷ rest) segs i start r v safe from small =
        let here = From-head i segs seg rest from in
        let r0 =
          after_turn abi segment_at gnt file (turns (4 * i + 1))
            (after_turn abi segment_at gnt file (turns (4 * i)) r) in
        let v0 =
          after_turn-RingInv abi segment_at gnt file gnt_ok file_ok base (turns (4 * i + 1))
            (after_turn abi segment_at gnt file (turns (4 * i)) r) (guest (4 * i + 1))
            (after_turn-RingInv abi segment_at gnt file gnt_ok file_ok base (turns (4 * i)) r
              (guest (4 * i)) v) in
        let (rc, r1, did, stays, confined, _, _) =
          process_shared-Ends abi segment_at gnt file gnt_ok file_ok base (copied segs i)
            (turns (4 * i + 2)) (turns (4 * i + 3)) start writes seg r0 here (λ _ _ _. here)
            (guest (4 * i + 2)) (guest (4 * i + 3)) v0 safe.0 (omega arith) in
        round-Ends abi segment_at gnt file gnt_ok file_ok base turns (length rest) i start
          (total_sectors rest) writes (copied segs) seg r r0 r1 rc
          (count_sectors-same abi segment_at gnt file (copied segs i) (turns (4 * i))
            (turns (4 * i + 1)) seg r here here)
          did
          (record {
            ring_ok = stays.ring_ok;
            same_count = stays.same_count;
            same_domain = stays.same_domain;
            same_sent = stays.same_sent;
          })
          confined (omega arith)
          (shared_loop-Ends writes rest segs (i + 1) (start + sectors_of seg) r1 stays.ring_ok
            safe.1 (From-tail i segs seg rest from) (omega arith))

    -- While a sound read or write request is handled, the guest may write to any of its pages
    -- between any two reads of the handler: no access leaves the file or a page, the ring stays in
    -- order, and the disk keeps its bytes outside the sectors of the request, and all of them if it
    -- is a read. If the guest does nothing, this is what `handleReadWrite` does.
    pub handle_shared-Confined :
        (req : Request) (r : Ring W F)
        → RingInv gnt file base r
        → IsSound abi segment_at gnt file gnt_ok file_ok base req
        → (rc : Rsp) × (r' : Ring W F) × (handle_shared abi segment_at gnt file turns req r
            ≡ some (rc, r'))
          × Stays gnt file base r r'
          × Confined gnt file
              (is_write req.operation)
              req.sector_number
              (total_sectors (take req.nr_segments req.seg))
              r
              r'
          × (handle_shared abi segment_at gnt file quiet req r
              ≡ handle_read_write abi segment_at gnt file req r)
    unfolding handle_shared
    handle_shared-Confined req r v sound =
        let segs = take req.nr_segments req.seg in
        let e : length segs ≡ req.nr_segments =
          length-take req.nr_segments req.seg sound.in_array in
        let few = sound.few_segments in
        let some_segment = sound.some_segment in
        let (rc, r', ran, stays, confined) =
          shared_loop-Ends (is_write req.operation) segs req.seg 0 req.sector_number r v
            sound.all_safe (From-take req.nr_segments req.seg) sound.no_wrap in
        let ran' : outcome (
              shared_loop abi segment_at gnt file turns (copied req.seg) req.nr_segments 0
                req.sector_number (is_write req.operation) r)
            ≡ some (rc, r') =
          ap
            (λ n. outcome (
              shared_loop abi segment_at gnt file turns (copied req.seg) n 0 req.sector_number
                (is_write req.operation) r))
            (sym e)
          ∙ ran in
        (
          rc,
          r',
          ground (arith, ran'),
          stays,
          confined,
          handle_shared-quiet abi segment_at gnt file req r,
        )
