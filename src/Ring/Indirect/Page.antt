-- ===== src/Ring/Indirect/Page.antt =====
-- The inner loop of `handleIndirect`: the segments of one indirect page.
use us_blkback.Base.{
  ℕ, zero, suc, ◌+◌, ◌*◌, ◌^◌, ◌≤◌, ◌<◌, ◌≡◌, refl, ap, ◌∙◌, fun_ext, Option, some, Bool, arith,
  inl, inr, u64-eq_of_lt,
}
use us_blkback.Disk.Image.{MappedFile, Rsp, okay, error}
use us_blkback.Disk.Bounds.{IsMappedFile}
use us_blkback.Limits.{Abi}
use us_blkback.Grants.{Gnttab}
use us_blkback.Grants.Inv.{IsGnttab}
use us_blkback.Grants.Spec.{Recent}
use us_blkback.Grants.Add.{Recent-resolve}
use us_blkback.Ring.{Segment, Ring, sectors_of, process_segment, load_segment, page_loop}
use us_blkback.Ring.Effects.{total_sectors, AllSafe, RingInv}
use us_blkback.Ring.Segments.{process_segment-Does}
use us_blkback.Ring.Runs.{Stays, Stays-step, Runs, Runs-nil, Runs-fails, Runs-cons, Does-page}
use us_blkback.Ring.Avoids.{Avoids}
use us_blkback.Ring.Indirect.Pages.{page_segments}

module _ {W F : Type 0} (abi : Abi) (segment_at : (ℕ → ℕ) → ℕ → Segment) (gnt : Gnttab W)
    (file : MappedFile F) (gnt_ok : IsGnttab gnt) (file_ok : IsMappedFile file)
    (base : ℕ → Option ℕ) where
  -- The page is mapped at `addr`, it is the `m`-th grant at most, and it holds these bytes.
  pub record Holds (addr gref m : ℕ) (bytes : ℕ → ℕ) (r : Ring W F) : Type 0 where
    pub ring_ok : RingInv gnt file base r
    pub recent : Recent m addr gref r.grants.lru
    pub same_bytes : (i : ℕ) → gnt.page r.grants.world gref i ≡ bytes i

  pub load_segment-Holds :
      (addr gref m n : ℕ) (bytes : ℕ → ℕ) (r : Ring W F)
      → Holds addr gref m bytes r
      → (n + 1) * abi.sizeof_segment ≤ abi.page_size
      → load_segment abi segment_at gnt file r.grants.world addr n
        ≡ some (segment_at bytes (n * abi.sizeof_segment))
  load_segment-Holds addr gref m n bytes r h fits =
      let (here, _) =
        Recent-resolve gnt gnt_ok base m addr gref r.grants h.ring_ok.grants_ok h.recent in
      ground (arith, here, ap (λ b. segment_at b (n * abi.sizeof_segment)) (fun_ext h.same_bytes))

  pub page_loop-okay :
      (k n addr start : ℕ) (writes : Bool) (seg : Segment) (r r1 : Ring W F)
      → load_segment abi segment_at gnt file r.grants.world addr n ≡ some seg
      → process_segment abi segment_at gnt file seg start (sectors_of seg) writes r
        ≡ some (okay, r1)
      → start + sectors_of seg < 2 ^ 64
      → page_loop abi segment_at gnt file (suc k) n addr start writes r
        ≡ page_loop abi segment_at gnt file k (n + 1) addr (start + sectors_of seg) writes r1
  unfolding page_loop
  page_loop-okay k n addr start writes seg r r1 here did small =
      rw (here, did, u64-eq_of_lt (start + sectors_of seg) small) refl

  pub page_loop-error :
      (k n addr start : ℕ) (writes : Bool) (seg : Segment) (r r1 : Ring W F)
      → load_segment abi segment_at gnt file r.grants.world addr n ≡ some seg
      → process_segment abi segment_at gnt file seg start (sectors_of seg) writes r
        ≡ some (error, r1)
      → page_loop abi segment_at gnt file (suc k) n addr start writes r ≡ some (error, start, r1)
  unfolding page_loop
  page_loop-error k n addr start writes seg r r1 here did = rw (here, did) refl

  -- The page stays mapped while its segments are carried out, however many grants they add: each
  -- of them moves it back by one place, and eviction starts at the 973rd.
  pub page_loop-Runs :
      (writes : Bool) (k n addr gref m start : ℕ) (bytes : ℕ → ℕ) (r : Ring W F)
      → Holds addr gref m bytes r
      → m + k ≤ 973
      → (n + k) * abi.sizeof_segment ≤ abi.page_size
      → AllSafe abi (page_segments abi segment_at bytes k n)
      → Avoids writes gref (page_segments abi segment_at bytes k n)
      → (k ≡ 0 → start ≤ r.image.sector_count)
      → start + total_sectors (page_segments abi segment_at bytes k n) < 2 ^ 64
      → (rc : Rsp) × (last : ℕ) × (r' : Ring W F) × (page_loop abi segment_at gnt file k n addr
            start writes r
          ≡ some (rc, last, r'))
        × Stays gnt file base r r'
        × Runs gnt file base writes (page_segments abi segment_at bytes k n) start r rc r'
        × (rc ≡ okay → last ≡ start + total_sectors (page_segments abi segment_at bytes k n))
  page_loop-Runs writes zero n addr gref m start bytes r h few fits safe avoids low small = (
    okay,
    start,
    r,
    unfold page_loop in refl,
    record { ring_ok = h.ring_ok; same_count = refl; same_domain = refl; same_sent = refl },
    Runs-nil gnt file base writes start r (low refl),
    λ _. omega arith,
  )
  page_loop-Runs writes (suc k) n addr gref m start bytes r h few fits safe avoids low small =
      let seg : Segment = segment_at bytes (n * abi.sizeof_segment) in
      let rest = page_segments abi segment_at bytes k (n + 1) in
      let here = load_segment-Holds addr gref m n bytes r h (grind arith) in
      let (rc, r1, did, keeps, does) =
        process_segment-Does abi segment_at gnt file gnt_ok file_ok base writes seg start r
          h.ring_ok safe.0 (omega arith) in
      elim does [
        | inl (good, inside, moves) ↦
            let h1 : Holds addr gref (suc m) bytes r1 = record {
              ring_ok = keeps.ring_ok;
              recent = keeps.ages m addr gref (omega arith) h.recent;
              same_bytes = λ i.
                  Does-page gnt file base writes seg start r okay r1 gref
                    (inl (refl, inside, moves)) avoids.0 i
                  ∙ h.same_bytes i;
            } in
            let (rc', last, r', ran, stays, runs, ends) =
              page_loop-Runs writes k (n + 1) addr gref (suc m) (start + sectors_of seg) bytes r1 h1
                (omega arith) (omega arith) safe.1 avoids.1 (λ _. omega (arith, keeps.same_count))
                (omega arith) in
            (
              rc',
              last,
              r',
              page_loop-okay k n addr start writes seg r r1 here (did ∙ ap (λ c. some (c, r1)) good)
                    (omega arith)
                  ∙ ran,
              Stays-step gnt file base keeps stays,
              Runs-cons gnt file base writes seg rest start r r1 rc' r' keeps
                  (inl (refl, inside, moves)) runs,
              λ o. omega (arith, ends o),
            )
        | inr (bad, why, stays) ↦ (
          error,
          start,
          r1,
          page_loop-error k n addr start writes seg r r1 here (did ∙ ap (λ c. some (c, r1)) bad),
          record {
            ring_ok = keeps.ring_ok;
            same_count = keeps.same_count;
            same_domain = keeps.same_domain;
            same_sent = keeps.same_sent;
          },
          Runs-fails gnt file base writes seg rest start r r1 (inr (refl, why, stays)),
          λ o. cc,
        )
      ]
