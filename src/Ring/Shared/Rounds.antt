-- ===== src/Ring/Shared/Rounds.antt =====
-- One round of the loops over segments while the guest writes to its pages (BlkBackend.cpp).
use us_blkback.Base.{
  ℕ, suc, ◌+◌, ◌*◌, ◌^◌, ◌<◌, ◌≡◌, refl, ap, ◌∙◌, Option, some, Bool, u64, u64-eq_of_lt,
}
use us_blkback.Disk.Image.{MappedFile, Rsp, okay, error, eopnotsupp}
use us_blkback.Disk.Bounds.{IsMappedFile}
use us_blkback.Limits.{Abi}
use us_blkback.Grants.{Gnttab}
use us_blkback.Grants.Inv.{IsGnttab}
use us_blkback.Ring.{Segment, Ring, sectors_of}
use us_blkback.Ring.Runs.{Stays}
use us_blkback.Ring.Shared.{Turns, count_sectors, outcome, process_shared, shared_loop}
use us_blkback.Ring.Shared.Once.{Confined, Confined-trans, Ends}

module _ {W F : Type 0} (abi : Abi) (segment_at : (ℕ → ℕ) → ℕ → Segment) (gnt : Gnttab W)
    (file : MappedFile F) (gnt_ok : IsGnttab gnt) (file_ok : IsMappedFile file)
    (base : ℕ → Option ℕ) where
  module _ (turns : Turns W) where
    pub loop-round :
        (k i start : ℕ) (writes : Bool) (fetch : ℕ → W → Option Segment) (seg : Segment)
        (r r0 r1 : Ring W F) (rc : Rsp)
        → count_sectors abi segment_at gnt file (fetch i) (turns (4 * i)) (turns (4 * i + 1)) r
          ≡ some (sectors_of seg, r0)
        → process_shared abi segment_at gnt file
            (fetch i)
            (turns (4 * i + 2))
            (turns (4 * i + 3))
            start
            (sectors_of seg)
            writes
            r0
          ≡ some (rc, r1)
        → shared_loop abi segment_at gnt file turns fetch (suc k) i start writes r ≡ elim rc [
          | okay ↦
              shared_loop abi segment_at gnt file turns fetch k
                (i + 1)
                (u64 (start + sectors_of seg))
                writes
                r1
          | failed ↦ some (failed, start, r1)
        ]
    unfolding shared_loop
    loop-round k i start writes fetch seg r r0 r1 rc counted did = rw (counted, did) refl

    -- One round, and the rounds after it if it did not fail.
    pub round-Ends :
        (k i start m : ℕ) (writes : Bool) (fetch : ℕ → W → Option Segment) (seg : Segment)
        (r r0 r1 : Ring W F) (rc : Rsp)
        → count_sectors abi segment_at gnt file (fetch i) (turns (4 * i)) (turns (4 * i + 1)) r
          ≡ some (sectors_of seg, r0)
        → process_shared abi segment_at gnt file
            (fetch i)
            (turns (4 * i + 2))
            (turns (4 * i + 3))
            start
            (sectors_of seg)
            writes
            r0
          ≡ some (rc, r1)
        → Stays gnt file base r r1
        → Confined gnt file writes start (sectors_of seg) r r1
        → start + sectors_of seg < 2 ^ 64
        → Ends abi segment_at gnt file gnt_ok file_ok base writes (start + sectors_of seg) m r1 (
            outcome (
              shared_loop abi segment_at gnt file turns fetch k
                (i + 1)
                (start + sectors_of seg)
                writes
                r1))
        → Ends abi segment_at gnt file gnt_ok file_ok base writes start
            (sectors_of seg + m)
            r
            (outcome (shared_loop abi segment_at gnt file turns fetch (suc k) i start writes r))
    round-Ends k i start m writes fetch seg r r0 r1 okay counted did stays confined small rest =
        let (rc, r', ran, stays', confined') = rest in
        (
          rc,
          r',
          ap outcome (loop-round k i start writes fetch seg r r0 r1 okay counted did)
              ∙ rw (u64-eq_of_lt (start + sectors_of seg) small) ran,
          record {
            ring_ok = stays'.ring_ok;
            same_count = stays'.same_count ∙ stays.same_count;
            same_domain = stays'.same_domain ∙ stays.same_domain;
            same_sent = stays'.same_sent ∙ stays.same_sent;
          },
          Confined-trans gnt file writes start (sectors_of seg) m r r1 r' stays.same_count confined
              confined',
        )
    round-Ends k i start m writes fetch seg r r0 r1 error counted did stays confined small rest = (
      error,
      r1,
      ap outcome (loop-round k i start writes fetch seg r r0 r1 error counted did),
      stays,
      Confined-trans gnt file writes start (sectors_of seg) m r r1 r1 stays.same_count confined
          (λ x inside out. refl),
    )
    round-Ends k i start m writes fetch seg r r0 r1 eopnotsupp counted did stays confined small
          rest =
        (
          eopnotsupp,
          r1,
          ap outcome (loop-round k i start writes fetch seg r r0 r1 eopnotsupp counted did),
          stays,
          Confined-trans gnt file writes start (sectors_of seg) m r r1 r1 stays.same_count confined
              (λ x inside out. refl),
        )
