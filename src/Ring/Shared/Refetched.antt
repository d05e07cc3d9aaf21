-- ===== src/Ring/Shared/Refetched.antt =====
-- `handleIndirect` (BlkBackend.cpp) reads a segment of an indirect page more than once, and the
-- guest may change it between two reads.
use us_blkback.Base.{
  ℕ, suc, ◌+◌, ◌*◌, ◌≤◌, ◌<◌, ◌≡◌, ◌≢◌, refl, ap, ◌∙◌, fun_ext, Option, none, some, Bool, ◌==◌,
  if◌then◌else◌, ==-false, arith, inl, inr,
}
use us_blkback.Disk.Image.{MappedFile}
use us_blkback.Disk.Bounds.{IsMappedFile}
use us_blkback.Limits.{Abi}
use us_blkback.Grants.{Gnttab, Grants, add_grant}
use us_blkback.Grants.Spec.{Recent}
use us_blkback.Grants.Inv.{IsGnttab}
use us_blkback.Grants.Add.{add_grant-Adds, Recent-resolve}
use us_blkback.Ring.{Segment, Ring, sectors_of, load_segment}
use us_blkback.Ring.Effects.{IsSafe, RingInv, valid_segment_bounds}
use us_blkback.Ring.Faults.{copy_segment-beyond_page}
use us_blkback.Ring.Shared.{Turns, after_turn, in_page, count_sectors, process_shared, shared_loop}
use us_blkback.Ring.Shared.Once.{IsGuest, after_turn-RingInv}

module _ {W F : Type 0} (abi : Abi) (segment_at : (ℕ → ℕ) → ℕ → Segment) (gnt : Gnttab W)
    (file : MappedFile F) where
  -- The guest writes these bytes to the page after the number of sectors of segment `n` was read.
  abbrev pub swaps : ℕ → ℕ → (ℕ → ℕ) → Turns W
  swaps n page bytes t w = if t == 4 * n + 2 then gnt.set_page w page bytes else w

  load_segment-page :
      (addr n page : ℕ) (bytes : ℕ → ℕ) (seg : Segment) (w : W)
      → gnt.resolve w addr ≡ some page
      → (n + 1) * abi.sizeof_segment ≤ abi.page_size
      → ((i : ℕ) → gnt.page w page i ≡ bytes i)
      → segment_at bytes (n * abi.sizeof_segment) ≡ seg
      → in_page abi segment_at gnt file addr n w ≡ some seg
  load_segment-page addr n page bytes seg w here fits same shows =
      ground (arith, here, ap (λ b. segment_at b (n * abi.sizeof_segment)) (fun_ext same), shows)

  count_sectors-shown :
      (fetch : W → Option Segment) (turn turn' : W → W) (seg : Segment) (r : Ring W F)
      → turn r.grants.world ≡ r.grants.world
      → turn' r.grants.world ≡ r.grants.world
      → fetch r.grants.world ≡ some seg
      → count_sectors abi segment_at gnt file fetch turn turn' r ≡ some (sectors_of seg, r)
  unfolding count_sectors
  count_sectors-shown fetch turn turn' seg r idle idle' here = rw (idle, idle', here) refl

  process_shared-hidden :
      (fetch : W → Option Segment) (turn turn' : W → W) (start nr addr : ℕ) (writes : Bool)
      (seg : Segment) (r : Ring W F) (g : Grants W)
      → fetch (turn r.grants.world) ≡ some seg
      → add_grant gnt seg.gref (after_turn abi segment_at gnt file turn r).grants ≡ some (addr, g)
      → addr ≢ 0
      → turn' g.world ≡ g.world
      → fetch g.world ≡ some seg
      → process_shared abi segment_at gnt file fetch turn turn' start nr writes r
        ≡ us_blkback.Ring.copy_segment abi segment_at gnt file seg start nr writes addr
            (record r { grants = g })
  unfolding process_shared
  process_shared-hidden fetch turn turn' start nr addr writes seg r g here added nonnull idle
        again =
      rw (here, added, ==-false addr 0 nonnull, idle, again) refl

  module _ (gnt_ok : IsGnttab gnt) (file_ok : IsMappedFile file) (base : ℕ → Option ℕ) where
    swaps-IsGuest : (n page : ℕ) (bytes : ℕ → ℕ) → IsGuest gnt file (swaps n page bytes)
    swaps-IsGuest n page bytes t w a = ground (arith, gnt_ok.resolve-set_page w page a bytes)

    -- A guest that changes no mapping can let an indirect page show a segment that `validSegment`
    -- accepts while the number of sectors is read, and another before the rest is read: where so
    -- many sectors do not fit in the page from the first sector of the other on, the disk has them
    -- and the hypervisor maps grants, the program accesses memory outside the page.
    pub shared_loop-swapped :
        (writes : Bool) (k n addr page m start : ℕ) (shown hidden : Segment) (bytes : ℕ → ℕ)
        (r : Ring W F)
        → RingInv gnt file base r
        → Recent m addr page r.grants.lru
        → m ≤ 972
        → (n + 1) * abi.sizeof_segment ≤ abi.page_size
        → segment_at (gnt.page r.grants.world page) (n * abi.sizeof_segment) ≡ shown
        → segment_at bytes (n * abi.sizeof_segment) ≡ hidden
        → IsSafe abi shown
        → start + sectors_of shown ≤ r.image.sector_count
        → abi.page_size < 512 * hidden.first_sect + sectors_of shown * 512
        → ((w : W) → (gnt.map_grant_ref w r.grants.dom_id hidden.gref).0 ≢ 0)
        → IsGuest gnt file (swaps n page bytes)
          × (shared_loop abi segment_at gnt file
                (swaps n page bytes)
                (in_page abi segment_at gnt file addr)
                (suc k)
                n
                start
                writes
                r
              ≡ none)
    unfolding shared_loop
    shared_loop-swapped writes k n addr page m start shown hidden bytes r v recent few fits shows
          hides safe inside beyond granted =
        let turns = swaps n page bytes in
        let w = r.grants.world in
        let (mapped_page, _) =
          Recent-resolve gnt gnt_ok base m addr page r.grants v.grants_ok recent in
        let now =
          load_segment-page addr n page (gnt.page w page) shown w mapped_page fits (λ i. refl)
            shows in
        let idle0 : turns (4 * n) w ≡ w = ground arith in
        let idle1 : turns (4 * n + 1) w ≡ w = ground arith in
        let swap : turns (4 * n + 2) w ≡ gnt.set_page w page bytes = ground arith in
        let counted =
          count_sectors-shown (in_page abi segment_at gnt file addr n) (turns (4 * n))
            (turns (4 * n + 1)) shown r idle0 idle1 now in
        let quiet3 : (w : W) → turns (4 * n + 3) w ≡ w = λ w. ground arith in
        let r1 = after_turn abi segment_at gnt file (turns (4 * n + 2)) r in
        let v1 =
          after_turn-RingInv abi segment_at gnt file gnt_ok file_ok base (turns (4 * n + 2)) r
            (swaps-IsGuest n page bytes (4 * n + 2)) v in
        let (addr', g, added, adds) =
          add_grant-Adds gnt gnt_ok base hidden.gref r1.grants v1.grants_ok in
        let (still, _) =
          Recent-resolve gnt gnt_ok base (suc m) addr page g adds.valid
            (adds.ages m addr page few recent) in
        let written : (i : ℕ) → gnt.page r1.grants.world page i ≡ bytes i = λ i.
          ap (λ w'. gnt.page w' page i) swap
          ∙ ground (arith, gnt_ok.page-set_page w page page i bytes) in
        let changed =
          load_segment-page addr n page bytes hidden r1.grants.world
            (swaps-IsGuest n page bytes (4 * n + 2) w addr ∙ mapped_page) fits written hides in
        let again =
          load_segment-page addr n page bytes hidden g.world still fits
            (λ i. adds.keeps.same_pages page i ∙ written i) hides in
        elim adds.result [
          | inl (nonnull, front, _) ↦
              let did =
                process_shared-hidden (in_page abi segment_at gnt file addr n) (turns (4 * n + 2))
                  (turns (4 * n + 3)) start (sectors_of shown) addr' writes hidden r g changed added
                  nonnull (quiet3 g.world) again in
              let here =
                (Recent-resolve gnt gnt_ok base 1 addr' hidden.gref g adds.valid front).0 in
              let faults =
                copy_segment-beyond_page abi segment_at gnt file gnt_ok file_ok base writes hidden
                  start (sectors_of shown) addr' hidden.gref (record r { grants = g }) v.image_ok
                  (valid_segment_bounds abi shown safe).0 inside beyond here in
              (swaps-IsGuest n page bytes, rw (counted, did, faults) refl)
          | inr (_, _, _, (w', refused)) ↦ absurd (granted w' refused)
        ]
