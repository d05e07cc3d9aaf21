-- ===== src/Ring/Shared/Still.antt =====
-- A guest that does nothing: the loop is the inner one of `handleIndirect` (BlkBackend.cpp).
use us_blkback.Base.{
  ℕ, zero, suc, ◌+◌, ◌*◌, ◌^◌, ◌≤◌, ◌<◌, ◌≡◌, refl, sym, ap, ◌∙◌, Option, some, Bool, arith, inl,
  inr, u64-eq_of_lt,
}
use us_blkback.Disk.Image.{MappedFile, okay, error}
use us_blkback.Disk.Bounds.{IsMappedFile}
use us_blkback.Limits.{Abi}
use us_blkback.Grants.{Gnttab}
use us_blkback.Grants.Inv.{IsGnttab}
use us_blkback.Grants.Add.{add_grant-Adds}
use us_blkback.Ring.{Segment, Ring, sectors_of, process_segment, page_loop}
use us_blkback.Ring.Effects.{total_sectors, AllSafe}
use us_blkback.Ring.Avoids.{Avoids}
use us_blkback.Ring.Segments.{process_segment-added, process_segment-Does}
use us_blkback.Ring.Runs.{Does-page}
use us_blkback.Ring.Indirect.Pages.{page_segments}
use us_blkback.Ring.Indirect.Page.{Holds, load_segment-Holds, page_loop-okay, page_loop-error}
use us_blkback.Ring.Shared.{in_page, process_shared, shared_loop}
use us_blkback.Ring.Shared.Quiet.{quiet, count_sectors-same, process_shared-added}
use us_blkback.Ring.Shared.Rounds.{loop-round}

module _ {W F : Type 0} (abi : Abi) (segment_at : (ℕ → ℕ) → ℕ → Segment) (gnt : Gnttab W)
    (file : MappedFile F) (gnt_ok : IsGnttab gnt) (file_ok : IsMappedFile file)
    (base : ℕ → Option ℕ) where
  process_shared-still :
      (writes : Bool) (n addr page m start : ℕ) (bytes : ℕ → ℕ) (r : Ring W F)
      → Holds abi segment_at gnt file gnt_ok file_ok base addr page m bytes r
      → m ≤ 972
      → (n + 1) * abi.sizeof_segment ≤ abi.page_size
      → process_shared abi segment_at gnt file
          (in_page abi segment_at gnt file addr n)
          (λ w. w)
          (λ w. w)
          start
          (sectors_of (segment_at bytes (n * abi.sizeof_segment)))
          writes
          r
        ≡ process_segment abi segment_at gnt file
            (segment_at bytes (n * abi.sizeof_segment))
            start
            (sectors_of (segment_at bytes (n * abi.sizeof_segment)))
            writes
            r
  process_shared-still writes n addr page m start bytes r h few fit =
      let seg = segment_at bytes (n * abi.sizeof_segment) in
      let (a, g, added, adds) =
        add_grant-Adds gnt gnt_ok base seg.gref r.grants h.ring_ok.grants_ok in
      let h2 : Holds abi segment_at gnt file gnt_ok file_ok base addr page (suc m) bytes
          (record r { grants = g }) =
        record {
          ring_ok = record { grants_ok = adds.valid; image_ok = h.ring_ok.image_ok };
          recent = adds.ages m addr page few h.recent;
          same_bytes = λ i. adds.keeps.same_pages page i ∙ h.same_bytes i;
        } in
      process_shared-added abi segment_at gnt file (in_page abi segment_at gnt file addr n) (λ w. w)
        (λ w. w) start (sectors_of seg) writes seg r a g
        (load_segment-Holds abi segment_at gnt file gnt_ok file_ok base addr page m n bytes r h fit)
        (load_segment-Holds abi segment_at gnt file gnt_ok file_ok base addr page (suc m) n bytes
          (record r { grants = g }) h2 fit)
        added
      ∙ sym (
          process_segment-added abi segment_at gnt file gnt_ok file_ok base writes seg start a r g
            added)

  -- Under a guest that does nothing the loop is the inner one of `handleIndirect`.
  pub shared_loop-still :
      (writes : Bool) (k n addr page m start : ℕ) (bytes : ℕ → ℕ) (r : Ring W F)
      → Holds abi segment_at gnt file gnt_ok file_ok base addr page m bytes r
      → m + k ≤ 973
      → (n + k) * abi.sizeof_segment ≤ abi.page_size
      → AllSafe abi (page_segments abi segment_at bytes k n)
      → Avoids writes page (page_segments abi segment_at bytes k n)
      → start + total_sectors (page_segments abi segment_at bytes k n) < 2 ^ 64
      → shared_loop abi segment_at gnt file quiet
          (in_page abi segment_at gnt file addr)
          k
          n
          start
          writes
          r
        ≡ page_loop abi segment_at gnt file k n addr start writes r
  unfolding shared_loop page_loop
  shared_loop-still writes zero n addr page m start bytes r h few fits safe avoids small = refl
  shared_loop-still writes (suc k) n addr page m start bytes r h few fits safe avoids small =
      let seg : Segment = segment_at bytes (n * abi.sizeof_segment) in
      let fetch = in_page abi segment_at gnt file addr in
      let fit : (n + 1) * abi.sizeof_segment ≤ abi.page_size = grind arith in
      let here =
        load_segment-Holds abi segment_at gnt file gnt_ok file_ok base addr page m n bytes r h
          fit in
      let counted =
        count_sectors-same abi segment_at gnt file (fetch n) (λ w. w) (λ w. w) seg r here here in
      let same = process_shared-still writes n addr page m start bytes r h (omega arith) fit in
      let (rc, r1, did, keeps, does) =
        process_segment-Does abi segment_at gnt file gnt_ok file_ok base writes seg start r
          h.ring_ok safe.0 (omega arith) in
      let bytes_stay = Does-page gnt file base writes seg start r rc r1 page does avoids.0 in
      let h1 : Holds abi segment_at gnt file gnt_ok file_ok base addr page (suc m) bytes r1 =
        record {
          ring_ok = keeps.ring_ok;
          recent = keeps.ages m addr page (omega arith) h.recent;
          same_bytes = λ i. bytes_stay i ∙ h.same_bytes i;
        } in
      let small1 : start + sectors_of seg < 2 ^ 64 = omega arith in
      elim does [
        | inl (good, _, _) ↦
            let did' = did ∙ ap (λ c. some (c, r1)) good in
            loop-round abi segment_at gnt file gnt_ok file_ok base quiet k n start writes fetch seg
              r r r1 okay counted (same ∙ did')
            ∙ ap (λ s. shared_loop abi segment_at gnt file quiet fetch k (n + 1) s writes r1)
                (u64-eq_of_lt (start + sectors_of seg) small1)
            ∙ shared_loop-still writes k (n + 1) addr page (suc m) (start + sectors_of seg) bytes r1
                h1 (omega arith) (omega arith) safe.1 avoids.1 (omega arith)
            ∙ sym (
                page_loop-okay abi segment_at gnt file gnt_ok file_ok base k n addr start writes seg
                  r r1 here did' small1)
        | inr (bad, _, _) ↦
            let did' = did ∙ ap (λ c. some (c, r1)) bad in
            loop-round abi segment_at gnt file gnt_ok file_ok base quiet k n start writes fetch seg
              r r r1 error counted (same ∙ did')
            ∙ sym (
                page_loop-error abi segment_at gnt file gnt_ok file_ok base k n addr start writes
                  seg r r1 here did')
      ]
