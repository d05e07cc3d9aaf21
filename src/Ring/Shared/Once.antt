-- ===== src/Ring/Shared/Once.antt =====
-- One segment of a request while the guest writes to its pages (BlkBackend.cpp).
use us_blkback.Base.{
  ℕ, ◌+◌, ◌*◌, ◌^◌, ◌≤◌, ◌<◌, ◌≡◌, ◌≢◌, refl, ◌∙◌, Option, some, Bool, true, false, ◌==◌, ==-false,
  if-else, if-then, arith, inl, inr, ◌⊎◌,
}
use us_blkback.Disk.Image.{MappedFile, Rsp, error}
use us_blkback.Disk.Bounds.{IsMappedFile}
use us_blkback.Limits.{Abi}
use us_blkback.Grants.{Gnttab, Grants}
use us_blkback.Grants.Inv.{IsGnttab}
use us_blkback.Grants.Adds.{Ages, Adds}
use us_blkback.Grants.Add.{add_grant-Adds, Recent-resolve}
use us_blkback.Ring.{Segment, Ring, sectors_of}
use us_blkback.Ring.Effects.{Store, IsSafe, RingInv}
use us_blkback.Ring.Copies.{copy_segment-Copies}
use us_blkback.Ring.Does.{Does}
use us_blkback.Ring.Runs.{Stays, Does-page}
use us_blkback.Ring.Shared.{Turns, after_turn, process_shared}
use us_blkback.Ring.Shared.Quiet.{process_shared-added}

module _ {W F : Type 0} (gnt : Gnttab W) (file : MappedFile F) where
  -- The guest changes no mapping of this process.
  abbrev pub IsGuest : Turns W → Type 0
  IsGuest turns = (t : ℕ) (w : W) (a : ℕ) → gnt.resolve (turns t w) a ≡ gnt.resolve w a

  -- A read leaves the disk as it is, and a write the sectors outside its own.
  abbrev pub Confined : Bool → ℕ → ℕ → Ring W F → Ring W F → Type 0
  Confined writes start nr r r' =
      (x : ℕ)
      → x < r.image.sector_count * 512
      → (writes ≡ false) ⊎ ((x < start * 512) ⊎ ((start + nr) * 512 ≤ x))
      → file.get r'.image.file x ≡ file.get r.image.file x

  pub Confined-trans :
      (writes : Bool) (start n m : ℕ) (r r1 r2 : Ring W F)
      → r1.image.sector_count ≡ r.image.sector_count
      → Confined writes start n r r1
      → Confined writes (start + n) m r1 r2
      → Confined writes start (n + m) r r2
  Confined-trans writes start n m r r1 r2 same a b x inside (inl reads) =
      b x (omega arith) (inl reads) ∙ a x inside (inl reads)
  Confined-trans writes start n m r r1 r2 same a b x inside (inr (inl low)) =
      b x (omega arith) (inr (inl (omega arith))) ∙ a x inside (inr (inl low))
  Confined-trans writes start n m r r1 r2 same a b x inside (inr (inr high)) =
      b x (omega arith) (inr (inr (omega arith))) ∙ a x inside (inr (inr (omega arith)))

  module _ (base : ℕ → Option ℕ) where
    -- The bytes of the ring.
    abbrev view : Ring W F → Store
    view r = record { disk = file.get r.image.file; pages = gnt.page r.grants.world }

    Does-Confined :
        (writes : Bool) (seg : Segment) (start : ℕ) (r : Ring W F) (rc : Rsp) (r' : Ring W F)
        → r'.image.sector_count ≡ r.image.sector_count
        → Does gnt file base writes seg start r rc r'
        → Confined writes start (sectors_of seg) r r'
    Does-Confined true seg start r rc r' same (inl (_, _, moves)) x inside out =
        let agrees =
          moves (view r) (record { same_disk = λ x h. refl; same_pages = λ k i. refl }) in
        agrees.same_disk x (omega arith) ∙ ground (arith, out)
    Does-Confined false seg start r rc r' same (inl (_, _, moves)) x inside out =
        let agrees =
          moves (view r) (record { same_disk = λ x h. refl; same_pages = λ k i. refl }) in
        agrees.same_disk x (omega arith)
    Does-Confined writes seg start r rc r' same (inr (_, _, stays)) x inside out =
        let agrees =
          stays (view r) (record { same_disk = λ x h. refl; same_pages = λ k i. refl }) in
        agrees.same_disk x (omega arith)

module _ {W F : Type 0} (abi : Abi) (segment_at : (ℕ → ℕ) → ℕ → Segment) (gnt : Gnttab W)
    (file : MappedFile F) (gnt_ok : IsGnttab gnt) (file_ok : IsMappedFile file)
    (base : ℕ → Option ℕ) where
  pub after_turn-RingInv :
      (turn : W → W) (r : Ring W F)
      → ((w : W) (a : ℕ) → gnt.resolve (turn w) a ≡ gnt.resolve w a)
      → RingInv gnt file base r
      → RingInv gnt file base (after_turn abi segment_at gnt file turn r)
  after_turn-RingInv turn r tame v = record {
    grants_ok = record {
      good = v.grants_ok.good;
      coherent = v.grants_ok.coherent;
      exact = λ a. tame r.grants.world a ∙ v.grants_ok.exact a;
      bounded = v.grants_ok.bounded;
    };
    image_ok = v.image_ok;
  }

  abbrev pub Ends : Bool → ℕ → ℕ → Ring W F → Option (Rsp × Ring W F) → Type 0
  Ends writes start nr r result =
      (rc : Rsp) × (r' : Ring W F) × (result ≡ some (rc, r'))
      × Stays gnt file base r r'
      × Confined gnt file writes start nr r r'

  -- The guest leaves a page alone.
  abbrev pub LeavesAlone : (W → W) → ℕ → Type 0
  LeavesAlone turn k = (w : W) (i : ℕ) → gnt.page (turn w) k i ≡ gnt.page w k i

  -- A segment that is the same at each read: it is carried out as if it had been read once, but for
  -- what the guest wrote.
  pub process_shared-Ends :
      (fetch : W → Option Segment) (turn turn' : W → W) (start : ℕ) (writes : Bool) (seg : Segment)
      (r : Ring W F)
      → fetch (turn r.grants.world) ≡ some seg
      → ((addr : ℕ) (g : Grants W)
          → Adds gnt base seg.gref (after_turn abi segment_at gnt file turn r).grants addr g
          → fetch (turn' g.world) ≡ some seg)
      → ((w : W) (a : ℕ) → gnt.resolve (turn w) a ≡ gnt.resolve w a)
      → ((w : W) (a : ℕ) → gnt.resolve (turn' w) a ≡ gnt.resolve w a)
      → RingInv gnt file base r
      → IsSafe abi seg
      → start + sectors_of seg ≤ 2 ^ 64
      → (rc : Rsp) × (r' : Ring W F) × (process_shared abi segment_at gnt file fetch turn turn'
            start
            (sectors_of seg)
            writes
            r
          ≡ some (rc, r'))
        × Stays gnt file base r r'
        × Confined gnt file writes start (sectors_of seg) r r'
        × Ages gnt base r.grants.lru r'.grants.lru
        × ((k : ℕ)
            → LeavesAlone turn k
            → LeavesAlone turn' k
            → (writes ≡ true) ⊎ (seg.gref ≢ k)
            → (i : ℕ) → gnt.page r'.grants.world k i ≡ gnt.page r.grants.world k i)
  process_shared-Ends fetch turn turn' start writes seg r first again tame tame' v safe small =
      let v1 = after_turn-RingInv turn r tame v in
      let (addr, g, added, adds) =
        add_grant-Adds gnt gnt_ok base seg.gref (after_turn abi segment_at gnt file turn r).grants
          v1.grants_ok in
      let step =
        process_shared-added abi segment_at gnt file fetch turn turn' start (sectors_of seg) writes
          seg r addr g first (again addr g adds) added in
      let r2 : Ring W F = record r { grants = g } in
      let r3 = after_turn abi segment_at gnt file turn' r2 in
      let v2 : RingInv gnt file base r2 = record {
        grants_ok = adds.valid;
        image_ok = v.image_ok;
      } in
      elim adds.result [
        | inl (nonnull, front, _) ↦
            let here = (Recent-resolve gnt gnt_ok base 1 addr seg.gref g adds.valid front).0 in
            let (rc, r', ran, ok, same, count, dom, sent, does) =
              copy_segment-Copies abi segment_at gnt file gnt_ok file_ok base writes seg start addr
                r3 (after_turn-RingInv turn' r2 tame' v2) safe small (tame' g.world addr ∙ here) in
            (
              rc,
              r',
              step ∙ if-else (addr == 0) _ _ (==-false addr 0 nonnull) ∙ ran,
              record {
                ring_ok = ok;
                same_count = count;
                same_domain = dom ∙ adds.keeps.same_domain;
                same_sent = sent;
              },
              Does-Confined gnt file base writes seg start r3 rc r' count does,
              λ m a k h p. rw same (adds.ages m a k h p),
              λ k alone alone' avoids i.
                  Does-page gnt file base writes seg start r3 rc r' k does avoids i
                  ∙ alone' g.world i
                  ∙ adds.keeps.same_pages k i
                  ∙ alone r.grants.world i,
            )
        | inr (null, _, _, _) ↦ (
          error,
          r2,
          step ∙ if-then (addr == 0) _ _ (rw null refl),
          record {
            ring_ok = v2;
            same_count = refl;
            same_domain = adds.keeps.same_domain;
            same_sent = refl;
          },
          λ x inside out. refl,
          adds.ages,
          λ k alone alone' avoids i. adds.keeps.same_pages k i ∙ alone r.grants.world i,
        )
      ]
