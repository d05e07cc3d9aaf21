-- ===== src/Ring/Shared/Quiet.antt =====
-- A guest that does nothing: the loop is that of `handleReadWrite` (BlkBackend.cpp).
use us_blkback.Base.{
  ℕ, zero, suc, ◌+◌, ◌≡◌, refl, Option, none, some, List, Bool, ◌==◌, if◌then◌else◌, ◌∙◌, get_elem?,
  u64, ap, Option-cases, inl, inr,
}
use us_blkback.Disk.Image.{MappedFile, okay, error, eopnotsupp}
use us_blkback.Limits.{Abi}
use us_blkback.Grants.{Gnttab, Grants, add_grant}
use us_blkback.Ring.{
  Segment, Ring, Request, is_write, handle_read_write, sectors_of, copy_segment, process_segment,
  segment_loop,
}
use us_blkback.Ring.Shared.{
  Turns, copied, after_turn, count_sectors, process_shared, shared_loop, outcome, handle_shared,
}

abbrev pub quiet : {W : Type 0} → Turns W
quiet t w = w

module _ {W F : Type 0} (abi : Abi) (segment_at : (ℕ → ℕ) → ℕ → Segment) (gnt : Gnttab W)
    (file : MappedFile F) where
  -- Reads that give the same segment each time.
  pub count_sectors-same :
      (fetch : W → Option Segment) (turn turn' : W → W) (seg : Segment) (r : Ring W F)
      → fetch (turn r.grants.world) ≡ some seg
      → fetch (turn' (turn r.grants.world)) ≡ some seg
      → count_sectors abi segment_at gnt file fetch turn turn' r
        ≡ some (
          sectors_of seg,
          after_turn abi segment_at gnt file turn' (after_turn abi segment_at gnt file turn r),
        )
  unfolding count_sectors
  count_sectors-same fetch turn turn' seg r here again = rw (here, again) refl

  pub process_shared-added :
      (fetch : W → Option Segment) (turn turn' : W → W) (start nr : ℕ) (writes : Bool)
      (seg : Segment) (r : Ring W F) (addr : ℕ) (g : Grants W)
      → fetch (turn r.grants.world) ≡ some seg
      → fetch (turn' g.world) ≡ some seg
      → add_grant gnt seg.gref (after_turn abi segment_at gnt file turn r).grants ≡ some (addr, g)
      → process_shared abi segment_at gnt file fetch turn turn' start nr writes r ≡ (
          if addr == 0
          then some (error, record r { grants = g })
          else copy_segment abi segment_at gnt file seg start nr writes addr
              (after_turn abi segment_at gnt file turn' (record r { grants = g })))
  unfolding process_shared
  process_shared-added fetch turn turn' start nr writes seg r addr g here again added =
      rw (here, added, again) refl

  process_shared-quiet :
      (fetch : W → Option Segment) (start nr : ℕ) (writes : Bool) (seg : Segment) (r : Ring W F)
      → ((w : W) → fetch w ≡ some seg)
      → process_shared abi segment_at gnt file fetch (λ w. w) (λ w. w) start nr writes r
        ≡ process_segment abi segment_at gnt file seg start nr writes r
  unfolding process_shared process_segment
  process_shared-quiet fetch start nr writes seg r same =
      elim (Option-cases (add_grant gnt seg.gref r.grants)) [
        | inl dangles ↦ rw (same r.grants.world, dangles) refl
        | inr ((addr, g), added) ↦
            process_shared-added fetch (λ w. w) (λ w. w) start nr writes seg r addr g
              (same r.grants.world) (same g.world) added
            ∙ rw added refl
      ]

  shared_loop-beyond :
      (turns : Turns W) (k i start : ℕ) (writes : Bool) (segs : List Segment) (r : Ring W F)
      → get_elem? segs i ≡ none
      → shared_loop abi segment_at gnt file turns (copied segs) (suc k) i start writes r ≡ none
  unfolding shared_loop count_sectors
  shared_loop-beyond turns k i start writes segs r beyond = rw beyond refl

  -- Under a guest that does nothing the loop is that of `handleReadWrite`.
  pub shared_loop-quiet :
      (k i start : ℕ) (writes : Bool) (segs : List Segment) (r : Ring W F)
      → outcome (shared_loop abi segment_at gnt file quiet (copied segs) k i start writes r)
        ≡ segment_loop abi segment_at gnt file k i start writes segs r
  unfolding shared_loop segment_loop
  shared_loop-quiet zero i start writes segs r = refl
  shared_loop-quiet (suc k) i start writes segs r = elim (Option-cases (get_elem? segs i)) [
    | inl beyond ↦
        ap outcome (shared_loop-beyond quiet k i start writes segs r beyond) ∙ rw beyond refl
    | inr (seg, here) ↦
        let counted = count_sectors-same (copied segs i) (λ w. w) (λ w. w) seg r here here in
        let did =
          process_shared-quiet (copied segs i) start (sectors_of seg) writes seg r (λ w. here) in
        elim (Option-cases
          (process_segment abi segment_at gnt file seg start (sectors_of seg) writes r)) [
            | inl fault ↦ rw (counted, did, here, fault) refl
            | inr ((okay, r'), ran) ↦
                rw (counted, did, here, ran)
                  (shared_loop-quiet k (i + 1) (u64 (start + sectors_of seg)) writes segs r')
            | inr ((error, r'), ran) ↦ rw (counted, did, here, ran) refl
            | inr ((eopnotsupp, r'), ran) ↦ rw (counted, did, here, ran) refl
          ]
  ]

  -- Under a guest that does nothing while a request is handled, the handler is `handleReadWrite`.
  pub handle_shared-quiet :
      (req : Request) (r : Ring W F)
      → handle_shared abi segment_at gnt file quiet req r
        ≡ handle_read_write abi segment_at gnt file req r
  unfolding handle_shared handle_read_write
  handle_shared-quiet req r =
      rw (shared_loop-quiet req.nr_segments 0 req.sector_number (is_write req.operation) req.seg r)
        refl
