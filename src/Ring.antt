-- ===== src/Ring.antt =====
-- The request handlers of `BlkCmdRingBuffer` (BlkBackend.cpp).
pub mod Effects
pub mod Does
pub mod Copies
pub mod Segments
pub mod Avoids
pub mod Runs
pub mod Direct
pub mod Indirect
pub mod Dispatch
pub mod Answers
pub mod Refusals
pub mod Faults
pub mod Shared
use us_blkback.Base.{
  ℕ, zero, suc, ◌+◌, ◌-◌, ◌*◌, ◌^◌, ◌%◌, Option, none, some, List, [], ◌∷◌, ◌++◌, ltb, leb, ◌==◌,
  if◌then◌else◌, ◌>>=◌, Bool, true, false, not, ◌&&◌, ◌||◌, get_elem?, u32, u64,
}
use us_blkback.Disk.Region.{Region}
use us_blkback.Disk.Image.{
  MappedFile, Rsp, okay, error, eopnotsupp, sector_size, DiskImage, read_sectors, write_sectors,
  discard, flush_backing_file,
}
use us_blkback.Limits.{
  Abi, minimum, div_round_up, max_indirect_segments, sectors_per_page, segments_per_indirect_page,
}
use us_blkback.Grants.{Gnttab, Grants, add_grant, free_grants}

-- `struct blkif_request_segment`.
pub record Segment : Type 0 where
  pub gref : ℕ
  pub first_sect : ℕ
  pub last_sect : ℕ

-- The values of `operation` that the source names, and the others.
pub data Op : Type 0 where
  read write write_barrier flush_diskcache discards indirects : Op
  other : ℕ → Op

pub record DiscardRequest : Type 0 where
  pub sector_number : ℕ
  pub nr_sectors : ℕ

pub record IndirectRequest : Type 0 where
  pub indirect_op : Op
  pub nr_segments : ℕ
  pub sector_number : ℕ
  pub indirect_grefs : List ℕ

-- A `blkif_request_t`, with what the two casts of `processRequest` read from its bytes.
pub record Request : Type 0 where
  pub operation : Op
  pub nr_segments : ℕ
  pub id : ℕ
  pub sector_number : ℕ
  pub seg : List Segment
  pub as_discard : DiscardRequest
  pub as_indirect : IndirectRequest

pub record Response : Type 0 where
  pub id : ℕ
  pub operation : Op
  pub status : Rsp

-- mImage and the grants, with the responses that `sendResponse` was given, the last one first.
pub record Ring (W F : Type 0) : Type 0 where
  pub grants : Grants W
  pub image : DiskImage F
  pub sent : List Response

abbrev pub is_write : Op → Bool
is_write write = true
is_write _ = false

abbrev pub is_read : Op → Bool
is_read read = true
is_read _ = false

-- `last_sect - first_sect + 1U`: an `int` difference, taken to `uint32_t`.
abbrev pub sectors_of : Segment → ℕ
sectors_of seg = u32 (seg.last_sect + 2 ^ 32 - seg.first_sect + 1)

-- `validSegment`, which nothing calls.
unfoldable pub valid_segment : Abi → Segment → Bool
valid_segment abi seg =
    if seg.gref == 0
    then false
    else if leb (sectors_per_page abi) seg.first_sect
    then false
    else if leb (sectors_per_page abi) seg.last_sect
    then false
    else if ltb seg.last_sect seg.first_sect
    then false
    else true

-- `segment_at` is how the compiler reads a `blkif_request_segment` at an offset of a page.
module _ {W F : Type 0} (abi : Abi) (segment_at : (ℕ → ℕ) → ℕ → Segment) (gnt : Gnttab W)
    (file : MappedFile F) where
  -- The block of memory that an address is the start of: a mapped page.
  abbrev pub buffer_at : W → ℕ → Region
  buffer_at w addr = elim (gnt.resolve w addr) [
    | none ↦ record { size = 0; byte = λ _. 0 }
    | some k ↦ record { size = abi.page_size; byte = gnt.page w k }
  ]

  -- The machine after `readSectors`, which has written the page if it did not fail.
  abbrev pub filled : Rsp → ℕ → Region → W → W
  filled okay addr buf w = elim (gnt.resolve w addr) [
    | none ↦ w
    | some k ↦ gnt.set_page w k buf.byte
  ]
  filled _ addr buf w = w

  abbrev pub with_world : Ring W F → W → Ring W F
  with_world r w = record r { grants = record (r.grants) { world = w } }

  -- The copy of `processSegment`, from or to the buffer.
  unfoldable pub copy_segment : Segment → ℕ → ℕ → Bool → ℕ → Ring W F → Option (Rsp × Ring W F)
  copy_segment seg start nr true addr r = do
    (rc, image) ←
        write_sectors file r.image start nr (buffer_at r.grants.world addr)
          (sector_size * seg.first_sect)
    some (rc, record r { image = image })
  copy_segment seg start nr false addr r = do
    (rc, buf) ←
        read_sectors file r.image start nr (buffer_at r.grants.world addr)
          (sector_size * seg.first_sect)
    some (rc, with_world r (filled rc addr buf r.grants.world))

  unfoldable pub process_segment : Segment → ℕ → ℕ → Bool → Ring W F → Option (Rsp × Ring W F)
  process_segment seg start nr writes r = do
    (addr, grants) ← add_grant gnt seg.gref r.grants
    let r' : Ring W F = record r { grants = grants }
    if addr == 0 then some (error, r') else copy_segment seg start nr writes addr r'

  -- The loop of `handleReadWrite`, by the rounds that are left.
  unfoldable pub segment_loop : ℕ → ℕ → ℕ → Bool → List Segment → Ring W F → Option (Rsp × Ring W F)
  segment_loop zero i start writes segs r = some (okay, r)
  segment_loop (suc n) i start writes segs r = do
    seg ← get_elem? segs i
    (rc, r') ← process_segment seg start (sectors_of seg) writes r
    elim rc [
      | okay ↦ segment_loop n (i + 1) (u64 (start + sectors_of seg)) writes segs r'
      | failed ↦ some (failed, r')
    ]

  unfoldable pub handle_read_write : Request → Ring W F → Option (Rsp × Ring W F)
  handle_read_write req r =
      if req.nr_segments == 0 || ltb abi.max_segments_per_request req.nr_segments
      then some (error, r)
      else segment_loop req.nr_segments 0 req.sector_number (is_write req.operation) req.seg r

  -- `seg[n]` on an indirect page; outside a mapped page it is undefined behaviour.
  abbrev pub load_segment : W → ℕ → ℕ → Option Segment
  load_segment w addr n = elim (gnt.resolve w addr) [
    | none ↦ none
    | some k ↦
        if leb ((n + 1) * abi.sizeof_segment) abi.page_size
        then some (segment_at (gnt.page w k) (n * abi.sizeof_segment))
        else none
  ]

  -- The inner loop of `handleIndirect`, which also returns `start_sector`.
  unfoldable pub page_loop : ℕ → ℕ → ℕ → ℕ → Bool → Ring W F → Option (Rsp × ℕ × Ring W F)
  page_loop zero n addr start writes r = some (okay, start, r)
  page_loop (suc k) n addr start writes r = do
    seg ← load_segment r.grants.world addr n
    (rc, r') ← process_segment seg start (sectors_of seg) writes r
    elim rc [
      | okay ↦ page_loop k (n + 1) addr (u64 (start + sectors_of seg)) writes r'
      | failed ↦ some (failed, start, r')
    ]

  -- One round of the outer loop of `handleIndirect`: the page of `gref`, with `nr` segments.
  unfoldable pub indirect_page : ℕ → ℕ → ℕ → Bool → Ring W F → Option (Rsp × ℕ × Ring W F)
  indirect_page gref nr start writes r = do
    (addr, grants) ← add_grant gnt gref r.grants
    let r' : Ring W F = record r { grants = grants }
    if addr == 0 then some (error, start, r') else page_loop nr 0 addr start writes r'

  -- The outer loop: `i` is the page, `done` is `segments_done`.
  unfoldable pub indirect_loop :
      ℕ → ℕ → ℕ → ℕ → ℕ → Bool → List ℕ → Ring W F → Option (Rsp × Ring W F)
  indirect_loop zero i total start done writes grefs r = some (okay, r)
  indirect_loop (suc k) i total start done writes grefs r = do
    let nr : ℕ = minimum (u64 (total + 2 ^ 64 - done)) (segments_per_indirect_page abi)
    gref ← get_elem? grefs i
    (rc, start', r') ← indirect_page gref nr start writes r
    elim rc [
      | okay ↦ indirect_loop k (i + 1) total start' (u64 (done + nr)) writes grefs r'
      | failed ↦ some (failed, r')
    ]

  unfoldable pub handle_indirect : IndirectRequest → Ring W F → Option (Rsp × Ring W F)
  handle_indirect ind r =
      if not (is_read ind.indirect_op) && not (is_write ind.indirect_op)
      then some (error, r)
      else if ind.nr_segments == 0
      then some (error, r)
      else if ltb max_indirect_segments ind.nr_segments
      then some (error, r)
      else indirect_loop (div_round_up ind.nr_segments (segments_per_indirect_page abi)) 0
          ind.nr_segments ind.sector_number 0 (is_write ind.indirect_op) ind.indirect_grefs r

  -- The `switch` of `processRequest`: the status, and the operation that is answered.
  unfoldable pub dispatch : Op → Request → Ring W F → Option (Rsp × Op × Ring W F)
  dispatch read req r = do (rc, r') ← handle_read_write req r; some (rc, req.operation, r')
  dispatch write req r = do (rc, r') ← handle_read_write req r; some (rc, req.operation, r')
  dispatch write_barrier req r =
      some (okay, req.operation, record r { image = flush_backing_file file r.image })
  dispatch flush_diskcache req r =
      some (okay, req.operation, record r { image = flush_backing_file file r.image })
  dispatch discards req r = do
    (rc, image) ← discard file r.image req.as_discard.sector_number req.as_discard.nr_sectors
    some (rc, req.operation, record r { image = image })
  dispatch indirects req r = do
    (rc, r') ← handle_indirect req.as_indirect r
    some (rc, req.as_indirect.indirect_op, r')
  dispatch (other n) req r = some (eopnotsupp, req.operation, r)

  unfoldable pub process_request : Request → Ring W F → Option (Ring W F)
  process_request req r = do
    (rc, op, r') ← dispatch req.operation req r
    some (record r' { sent = record { id = req.id; operation = op; status = rc } ∷ r'.sent })

  -- `~BlkCmdRingBuffer`.
  unfoldable pub destroy : Ring W F → Ring W F
  destroy r = record r { grants = free_grants gnt r.grants }
