-- ===== src/Ring/Indirect/Rounds.antt =====
-- One round of the outer loop of `handleIndirect`: an indirect page, and what is left after it.
use us_blkback.Base.{
  ℕ, suc, ◌+◌, ◌-◌, ◌*◌, ◌/◌, ◌^◌, ◌≤◌, ◌<◌, ◌≡◌, refl, ap, ◌∙◌, Option, some, List, [], ◌∷◌, ◌==◌,
  if◌then◌else◌, Bool, get_elem?, u64, arith, inl, inr, length, if-then, if-else, ==-false,
}
use us_blkback.Disk.Image.{MappedFile, Rsp, okay, error}
use us_blkback.Disk.Bounds.{IsMappedFile}
use us_blkback.Limits.{Abi, minimum, segments_per_indirect_page}
use us_blkback.Grants.{Gnttab, Grants, add_grant}
use us_blkback.Grants.Inv.{IsGnttab}
use us_blkback.Grants.Add.{add_grant-Adds}
use us_blkback.Ring.{Segment, Ring, page_loop, indirect_page, indirect_loop}
use us_blkback.Ring.Effects.{total_sectors, AllSafe, RingInv}
use us_blkback.Ring.Runs.{Stays, Runs, Runs-page, Runs-grants, Runs-refused}
use us_blkback.Ring.Avoids.{total_sectors-append}
use us_blkback.Ring.Indirect.Pages.{
  page_segments, indirect_segments, length-page_segments, AllSafe-first, Avoids-first, AvoidsAll,
}
use us_blkback.Ring.Indirect.Page.{Holds, page_loop-Runs}

abbrev pub per_page : Abi → ℕ
per_page abi = segments_per_indirect_page abi

-- The segments of one round.
abbrev pub round : Abi → ℕ → ℕ → ℕ
round abi total done = minimum (u64 (total + 2 ^ 64 - done)) (per_page abi)

div_mul-le : (a b : ℕ) → (a / b) * b ≤ a
div_mul-le a b = grind arith

pub no_spare_next : (j n l p : ℕ) → n * p < l → n ≡ suc j → j * p < l - minimum l p
no_spare_next j n l p h e = ground (arith, ap (λ (t : ℕ). t * p) e)

minimum-le : (a b : ℕ) → minimum a b ≤ b
minimum-le a b = ground arith

module _ {W F : Type 0} (abi : Abi) (segment_at : (ℕ → ℕ) → ℕ → Segment) (gnt : Gnttab W)
    (file : MappedFile F) (gnt_ok : IsGnttab gnt) (file_ok : IsMappedFile file)
    (base : ℕ → Option ℕ) where
  -- The pages of these grants hold these bytes.
  abbrev pub Hold : (ℕ → ℕ → ℕ) → List ℕ → Ring W F → Type 0
  Hold pages [] r = Unit {0}
  Hold pages (g ∷ gs) r = ((i : ℕ) → gnt.page r.grants.world g i ≡ pages g i) × Hold pages gs r

  Hold-same :
      (pages : ℕ → ℕ → ℕ) (gs : List ℕ) (r r' : Ring W F)
      → ((k i : ℕ) → gnt.page r'.grants.world k i ≡ gnt.page r.grants.world k i)
      → Hold pages gs r
      → Hold pages gs r'
  Hold-same pages [] r r' e h = tt
  Hold-same pages (g ∷ gs) r r' e h = (λ i. e g i ∙ h.0 i, Hold-same pages gs r r' e h.1)

  pub Hold-Runs :
      (pages : ℕ → ℕ → ℕ) (gs : List ℕ) (writes : Bool) (segs : List Segment) (start : ℕ)
      (r : Ring W F) (rc : Rsp) (r' : Ring W F)
      → Runs gnt file base writes segs start r rc r'
      → AvoidsAll writes gs segs
      → Hold pages gs r
      → Hold pages gs r'
  Hold-Runs pages [] writes segs start r rc r' runs a h = tt
  Hold-Runs pages (g ∷ gs) writes segs start r rc r' runs a h = (
    λ i. Runs-page gnt file base writes segs start r rc r' g runs a.0 i ∙ h.0 i,
    Hold-Runs pages gs writes segs start r rc r' runs a.1 h.1,
  )

  per_page_fits :
      (left : ℕ) → (0 + minimum left (per_page abi)) * abi.sizeof_segment ≤ abi.page_size
  per_page_fits left =
      grind (arith, minimum-le left (per_page abi), div_mul-le abi.page_size abi.sizeof_segment)

  indirect_page-added :
      (g nr start addr : ℕ) (writes : Bool) (r : Ring W F) (g' : Grants W)
      → add_grant gnt g r.grants ≡ some (addr, g')
      → indirect_page abi segment_at gnt file g nr start writes r ≡ (
          if addr == 0
          then some (error, start, record r { grants = g' })
          else page_loop abi segment_at gnt file nr 0 addr start writes (record r { grants = g' }))
  unfolding indirect_page
  indirect_page-added g nr start addr writes r g' added = rw added refl

  pub indirect_loop-okay :
      (k i total start done g last : ℕ) (writes : Bool) (grefs : List ℕ) (r r' : Ring W F)
      → get_elem? grefs i ≡ some g
      → indirect_page abi segment_at gnt file g (round abi total done) start writes r
        ≡ some (okay, last, r')
      → indirect_loop abi segment_at gnt file (suc k) i total start done writes grefs r
        ≡ indirect_loop abi segment_at gnt file k
            (i + 1)
            total
            last
            (u64 (done + round abi total done))
            writes
            grefs
            r'
  unfolding indirect_loop
  indirect_loop-okay k i total start done g last writes grefs r r' here ran = rw (here, ran) refl

  pub indirect_loop-error :
      (k i total start done g last : ℕ) (writes : Bool) (grefs : List ℕ) (r r' : Ring W F)
      → get_elem? grefs i ≡ some g
      → indirect_page abi segment_at gnt file g (round abi total done) start writes r
        ≡ some (error, last, r')
      → indirect_loop abi segment_at gnt file (suc k) i total start done writes grefs r
        ≡ some (error, r')
  unfolding indirect_loop
  indirect_loop-error k i total start done g last writes grefs r r' here ran = rw (here, ran) refl

  -- The rounds that are left, and the segments that are left for them.
  pub record Plan (pages : ℕ → ℕ → ℕ) (writes : Bool) (k : ℕ) (gs : List ℕ) (left start : ℕ)
      (r : Ring W F) : Type 0 where
    pub ring_ok : RingInv gnt file base r
    pub enough_pages : k ≤ length gs
    pub no_spare : (j : ℕ) → k ≡ suc j → j * per_page abi < left
    pub holds : Hold pages gs r
    pub few : left ≤ 256
    pub safe : AllSafe abi (indirect_segments abi segment_at pages k gs left)
    pub avoids : AvoidsAll writes gs (indirect_segments abi segment_at pages k gs left)
    pub low : k ≡ 0 → start ≤ r.image.sector_count
    pub no_wrap : start + total_sectors (indirect_segments abi segment_at pages k gs left) < 2 ^ 64

  -- What one page of the plan returns and does.
  pub indirect_page-Runs :
      (pages : ℕ → ℕ → ℕ) (writes : Bool) (k g : ℕ) (gs : List ℕ) (left start : ℕ) (r : Ring W F)
      → 0 < (per_page abi)
      → Plan pages writes (suc k) (g ∷ gs) left start r
      → let segs = page_segments abi segment_at (pages g) (minimum left (per_page abi)) 0 in
        (rc : Rsp) × (last : ℕ) × (r' : Ring W F) × (indirect_page abi segment_at gnt file g
            (minimum left (per_page abi))
            start
            writes
            r
          ≡ some (rc, last, r'))
        × Stays gnt file base r r'
        × Runs gnt file base writes segs start r rc r'
        × (rc ≡ okay → last ≡ start + total_sectors segs)
  indirect_page-Runs pages writes k g gs left start r pos plan =
      let nr = minimum left (per_page abi) in
      let segs = page_segments abi segment_at (pages g) nr 0 in
      let rest = indirect_segments abi segment_at pages k gs (left - nr) in
      let (addr, g', added, adds) =
        add_grant-Adds gnt gnt_ok base g r.grants plan.ring_ok.grants_ok in
      let r1 : Ring W F = record r { grants = g' } in
      let v1 : RingInv gnt file base r1 = record {
        grants_ok = adds.valid;
        image_ok = plan.ring_ok.image_ok;
      } in
      let step = indirect_page-added g nr start addr writes r g' added in
      let left_pos : k * per_page abi < left = plan.no_spare k refl in
      let nr_pos : 0 < nr = ground arith in
      let nr_few : nr ≤ left = ground arith in
      elim adds.result [
        | inl (nonnull, front, _) ↦
            let held : Holds abi segment_at gnt file gnt_ok file_ok base addr g 1 (pages g) r1 =
              record {
                ring_ok = v1;
                recent = front;
                same_bytes = λ i. adds.keeps.same_pages g i ∙ plan.holds.0 i;
              } in
            let (rc, last, r', ran, stays, runs, ends) =
              page_loop-Runs abi segment_at gnt file gnt_ok file_ok base writes nr 0 addr g 1 start
                (pages g) r1 held (omega (arith, plan.few)) (per_page_fits left)
                (AllSafe-first abi segs rest plan.safe)
                (Avoids-first writes g segs rest plan.avoids.0) (λ none_left. absurd (omega arith))
                (omega (arith, plan.no_wrap, total_sectors-append segs rest)) in
            (
              rc,
              last,
              r',
              step ∙ if-else (addr == 0) _ _ (==-false addr 0 nonnull) ∙ ran,
              record {
                ring_ok = stays.ring_ok;
                same_count = stays.same_count;
                same_domain = stays.same_domain ∙ adds.keeps.same_domain;
                same_sent = stays.same_sent;
              },
              Runs-grants gnt file base writes segs start r g' rc r' adds.keeps runs,
              ends,
            )
        | inr (null, _, _, refused) ↦ (
          error,
          start,
          r1,
          step ∙ if-then (addr == 0) _ _ (rw null refl),
          record {
            ring_ok = v1;
            same_count = refl;
            same_domain = adds.keeps.same_domain;
            same_sent = refl;
          },
          Runs-refused gnt file base writes segs start g r g' adds.keeps
              (omega (arith, length-page_segments abi segment_at (pages g) nr 0)) refused,
          λ o. cc,
        )
      ]
