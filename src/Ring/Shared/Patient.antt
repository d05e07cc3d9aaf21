-- ===== src/Ring/Shared/Patient.antt =====
-- `handleIndirect` (BlkBackend.cpp) while the guest leaves the indirect page alone and writes to
-- others.
use us_blkback.Base.{
  ℕ, zero, suc, ◌+◌, ◌*◌, ◌^◌, ◌≤◌, ◌<◌, ◌≡◌, refl, ◌∙◌, Option, some, Bool, arith,
}
use us_blkback.Disk.Image.{MappedFile, okay}
use us_blkback.Disk.Bounds.{IsMappedFile}
use us_blkback.Limits.{Abi}
use us_blkback.Grants.{Gnttab}
use us_blkback.Grants.Inv.{IsGnttab}
use us_blkback.Ring.{Segment, Ring, sectors_of, page_loop}
use us_blkback.Ring.Effects.{total_sectors, AllSafe}
use us_blkback.Ring.Avoids.{Avoids}
use us_blkback.Ring.Indirect.Pages.{page_segments}
use us_blkback.Ring.Indirect.Page.{Holds, load_segment-Holds}
use us_blkback.Ring.Shared.{Turns, outcome, after_turn, in_page, shared_loop}
use us_blkback.Ring.Shared.Quiet.{quiet, count_sectors-same}
use us_blkback.Ring.Shared.Once.{
  IsGuest, Ends, LeavesAlone, after_turn-RingInv, process_shared-Ends,
}
use us_blkback.Ring.Shared.Still.{shared_loop-still}
use us_blkback.Ring.Shared.Rounds.{round-Ends}

module _ {W F : Type 0} (abi : Abi) (segment_at : (ℕ → ℕ) → ℕ → Segment) (gnt : Gnttab W)
    (file : MappedFile F) (gnt_ok : IsGnttab gnt) (file_ok : IsMappedFile file)
    (base : ℕ → Option ℕ) where
  turn-Holds :
      (turn : W → W) (addr page m : ℕ) (bytes : ℕ → ℕ) (r : Ring W F)
      → ((w : W) (a : ℕ) → gnt.resolve (turn w) a ≡ gnt.resolve w a)
      → LeavesAlone abi segment_at gnt file gnt_ok file_ok base turn page
      → Holds abi segment_at gnt file gnt_ok file_ok base addr page m bytes r
      → Holds abi segment_at gnt file gnt_ok file_ok base addr page m bytes
          (after_turn abi segment_at gnt file turn r)
  turn-Holds turn addr page m bytes r tame alone h = record {
    ring_ok = after_turn-RingInv abi segment_at gnt file gnt_ok file_ok base turn r tame h.ring_ok;
    recent = h.recent;
    same_bytes = λ i. alone r.grants.world i ∙ h.same_bytes i;
  }

  patient-Ends :
      (turns : Turns W) (writes : Bool) (k n addr page m start : ℕ) (bytes : ℕ → ℕ) (r : Ring W F)
      → IsGuest gnt file turns
      → ((t : ℕ) → LeavesAlone abi segment_at gnt file gnt_ok file_ok base (turns t) page)
      → Holds abi segment_at gnt file gnt_ok file_ok base addr page m bytes r
      → m + k ≤ 973
      → (n + k) * abi.sizeof_segment ≤ abi.page_size
      → AllSafe abi (page_segments abi segment_at bytes k n)
      → Avoids writes page (page_segments abi segment_at bytes k n)
      → start + total_sectors (page_segments abi segment_at bytes k n) < 2 ^ 64
      → Ends abi segment_at gnt file gnt_ok file_ok base writes start
          (total_sectors (page_segments abi segment_at bytes k n))
          r
          (outcome (
            shared_loop abi segment_at gnt file turns
              (in_page abi segment_at gnt file addr)
              k
              n
              start
              writes
              r))
  patient-Ends turns writes zero n addr page m start bytes r guest alone h few fits safe avoids
        small =
      (
        okay,
        r,
        unfold shared_loop in refl,
        record { ring_ok = h.ring_ok; same_count = refl; same_domain = refl; same_sent = refl },
        λ x inside out. refl,
      )
  patient-Ends turns writes (suc k) n addr page m start bytes r guest alone h few fits safe avoids
        small =
      let seg : Segment = segment_at bytes (n * abi.sizeof_segment) in
      let fetch = in_page abi segment_at gnt file addr n in
      let fit : (n + 1) * abi.sizeof_segment ≤ abi.page_size = grind arith in
      let r' = after_turn abi segment_at gnt file (turns (4 * n)) r in
      let r0 = after_turn abi segment_at gnt file (turns (4 * n + 1)) r' in
      let r2 = after_turn abi segment_at gnt file (turns (4 * n + 2)) r0 in
      let h' = turn-Holds (turns (4 * n)) addr page m bytes r (guest (4 * n)) (alone (4 * n)) h in
      let h0 =
        turn-Holds (turns (4 * n + 1)) addr page m bytes r' (guest (4 * n + 1)) (alone (4 * n + 1))
          h' in
      let h2 =
        turn-Holds (turns (4 * n + 2)) addr page m bytes r0 (guest (4 * n + 2)) (alone (4 * n + 2))
          h0 in
      let seen : (m : ℕ) (x : Ring W F)
          → Holds abi segment_at gnt file gnt_ok file_ok base addr page m bytes x
          → fetch x.grants.world ≡ some seg =
        λ m x hx.
          load_segment-Holds abi segment_at gnt file gnt_ok file_ok base addr page m n bytes x hx
            fit in
      let (rc, r1, did, stays, confined, ages, pages) =
        process_shared-Ends abi segment_at gnt file gnt_ok file_ok base fetch (turns (4 * n + 2))
          (turns (4 * n + 3)) start writes seg r0 (seen m r2 h2)
          (λ a g adds.
            seen (suc m)
              (after_turn abi segment_at gnt file (turns (4 * n + 3)) (record r { grants = g }))
              (turn-Holds (turns (4 * n + 3)) addr page (suc m) bytes (record r { grants = g })
                (guest (4 * n + 3)) (alone (4 * n + 3))
                (record {
                  ring_ok = record { grants_ok = adds.valid; image_ok = h.ring_ok.image_ok };
                  recent = adds.ages m addr page (omega arith) h2.recent;
                  same_bytes = λ i. adds.keeps.same_pages page i ∙ h2.same_bytes i;
                })))
          (guest (4 * n + 2)) (guest (4 * n + 3)) h0.ring_ok safe.0 (omega arith) in
      let h1 : Holds abi segment_at gnt file gnt_ok file_ok base addr page (suc m) bytes r1 =
        record {
          ring_ok = stays.ring_ok;
          recent = ages m addr page (omega arith) h0.recent;
          same_bytes =
              λ i. pages page (alone (4 * n + 2)) (alone (4 * n + 3)) avoids.0 i ∙ h0.same_bytes i;
        } in
      round-Ends abi segment_at gnt file gnt_ok file_ok base turns k n start
        (total_sectors (page_segments abi segment_at bytes k (n + 1))) writes
        (in_page abi segment_at gnt file addr) seg r r0 r1 rc
        (count_sectors-same abi segment_at gnt file fetch (turns (4 * n)) (turns (4 * n + 1)) seg r
          (seen m r' h') (seen m r0 h0))
        did
        (record {
          ring_ok = stays.ring_ok;
          same_count = stays.same_count;
          same_domain = stays.same_domain;
          same_sent = stays.same_sent;
        })
        confined (omega arith)
        (patient-Ends turns writes k (n + 1) addr page (suc m) (start + sectors_of seg) bytes r1
          guest alone h1 (omega arith) (omega arith) safe.1 avoids.1 (omega arith))

  -- While the segments of an indirect page are carried out, the guest may write to any other page
  -- between any two reads: if `validSegment` accepts them, none is read from the disk to the page
  -- itself, at most 972 other grants were used since its own, and the sector numbers stay below
  -- 2 ^ 64, then no access leaves the file or a page, the ring stays in order, and the disk keeps
  -- its bytes outside the sectors of the segments, and all of them where the segments are read.
  -- If the guest does nothing, this is what the inner loop of `handleIndirect` does.
  pub shared_loop-patient :
      (turns : Turns W) (writes : Bool) (k n addr page m start : ℕ) (bytes : ℕ → ℕ) (r : Ring W F)
      → IsGuest gnt file turns
      → ((t : ℕ) → LeavesAlone abi segment_at gnt file gnt_ok file_ok base (turns t) page)
      → Holds abi segment_at gnt file gnt_ok file_ok base addr page m bytes r
      → m + k ≤ 973
      → (n + k) * abi.sizeof_segment ≤ abi.page_size
      → AllSafe abi (page_segments abi segment_at bytes k n)
      → Avoids writes page (page_segments abi segment_at bytes k n)
      → start + total_sectors (page_segments abi segment_at bytes k n) < 2 ^ 64
      → Ends abi segment_at gnt file gnt_ok file_ok base writes start
          (total_sectors (page_segments abi segment_at bytes k n))
          r
          (outcome (
            shared_loop abi segment_at gnt file turns
              (in_page abi segment_at gnt file addr)
              k
              n
              start
              writes
              r))
        × (shared_loop abi segment_at gnt file quiet
              (in_page abi segment_at gnt file addr)
              k
              n
              start
              writes
              r
            ≡ page_loop abi segment_at gnt file k n addr start writes r)
  shared_loop-patient turns writes k n addr page m start bytes r guest alone h few fits safe avoids
        small =
      (
        patient-Ends turns writes k n addr page m start bytes r guest alone h few fits safe avoids
            small,
        shared_loop-still abi segment_at gnt file gnt_ok file_ok base writes k n addr page m start
            bytes r h few fits safe avoids small,
      )
