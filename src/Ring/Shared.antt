-- ===== src/Ring/Shared.antt =====
-- The loops over segments (BlkBackend.cpp), with a guest that writes to its pages meanwhile: each
-- read of a field through the pointer to a segment is a read of its own.
pub mod Quiet
pub mod Once
pub mod Rounds
pub mod Confined
pub mod Still
pub mod Patient
pub mod Refetched
use us_blkback.Base.{
  ℕ, zero, suc, ◌+◌, ◌*◌, Option, none, some, List, Bool, ◌==◌, if◌then◌else◌, ◌>>=◌, ◌||◌, ltb,
  get_elem?, u64,
}
use us_blkback.Disk.Image.{MappedFile, Rsp, okay, error}
use us_blkback.Limits.{Abi}
use us_blkback.Grants.{Gnttab, add_grant}
use us_blkback.Ring.{
  Segment, Ring, Request, is_write, sectors_of, copy_segment, with_world, load_segment,
  load_segment,
}

-- What the guest does to the machine before the `t`-th read.
abbrev pub Turns : Type 0 → Type 0
Turns W = ℕ → W → W

-- The segments of a request of the ring, of which libxenbe made a copy.
abbrev pub copied : {W : Type 0} → List Segment → ℕ → W → Option Segment
copied segs n w = get_elem? segs n

-- The loop without the sector number that it ends at.
abbrev pub outcome {ℓ} : {R : Type ℓ} → Option (Rsp × ℕ × R) → Option (Rsp × R)
outcome none = none
outcome (some (rc, _, r)) = some (rc, r)

-- `fetch n` reads the `n`-th segment, a copy or one in an indirect page.
module _ {W F : Type 0} (abi : Abi) (segment_at : (ℕ → ℕ) → ℕ → Segment) (gnt : Gnttab W)
    (file : MappedFile F) where
  abbrev pub after_turn : (W → W) → Ring W F → Ring W F
  after_turn turn r = with_world abi segment_at gnt file r (turn r.grants.world)

  -- `seg->last_sect - seg->first_sect + 1U`, which is read from left to right.
  unfoldable pub count_sectors :
      (W → Option Segment) → (W → W) → (W → W) → Ring W F → Option (ℕ × Ring W F)
  count_sectors fetch turn turn' r = do
    let r1 : Ring W F = after_turn turn r
    for_last ← fetch r1.grants.world
    let r2 : Ring W F = after_turn turn' r1
    for_first ← fetch r2.grants.world
    some (sectors_of (record for_first { last_sect = for_last.last_sect }), r2)

  -- `processSegment`, which reads `seg->gref` and then `seg->first_sect`.
  unfoldable pub process_shared :
      (W → Option Segment) → (W → W) → (W → W) → ℕ → ℕ → Bool → Ring W F → Option (Rsp × Ring W F)
  process_shared fetch turn turn' start nr writes r = do
    let r1 : Ring W F = after_turn turn r
    for_gref ← fetch r1.grants.world
    (addr, grants) ← add_grant gnt for_gref.gref r1.grants
    let r2 : Ring W F = record r1 { grants = grants }
    if addr == 0 then some (error, r2) else do
      let r3 : Ring W F = after_turn turn' r2
      for_start ← fetch r3.grants.world
      copy_segment abi segment_at gnt file for_start start nr writes addr r3

  -- The inner loop of `handleIndirect`, and that of `handleReadWrite`.
  unfoldable pub shared_loop :
      Turns W → (ℕ → W → Option Segment) → ℕ → ℕ → ℕ → Bool → Ring W F → Option (Rsp × ℕ × Ring W F)
  shared_loop turns fetch zero n start writes r = some (okay, start, r)
  shared_loop turns fetch (suc k) n start writes r = do
    (nr, r1) ← count_sectors (fetch n) (turns (4 * n)) (turns (4 * n + 1)) r
    (rc, r2) ← process_shared (fetch n) (turns (4 * n + 2)) (turns (4 * n + 3)) start nr writes r1
    elim rc [
      | okay ↦ shared_loop turns fetch k (n + 1) (u64 (start + nr)) writes r2
      | failed ↦ some (failed, start, r2)
    ]

  -- The segments of an indirect page, which are read where they are.
  abbrev pub in_page : ℕ → ℕ → W → Option Segment
  in_page addr n w = load_segment abi segment_at gnt file w addr n

  -- `handleReadWrite`.
  unfoldable pub handle_shared : Turns W → Request → Ring W F → Option (Rsp × Ring W F)
  handle_shared turns req r =
      if req.nr_segments == 0 || ltb abi.max_segments_per_request req.nr_segments
      then some (error, r)
      else outcome (
          shared_loop turns (copied req.seg) req.nr_segments 0 req.sector_number
            (is_write req.operation) r)
