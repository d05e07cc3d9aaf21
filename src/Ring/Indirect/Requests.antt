-- ===== src/Ring/Indirect/Requests.antt =====
-- The outer loop of `handleIndirect`, and the whole handler.
use us_blkback.Base.{
  ℕ, zero, suc, ◌+◌, ◌-◌, ◌*◌, ◌^◌, ◌≤◌, ◌<◌, ◌≡◌, refl, ap, ◌∙◌, subst, Option, some, List, [],
  ◌∷◌, Bool, u64, arith, inl, inr, From, From-tail, From-head,
}
use us_blkback.Disk.Image.{MappedFile, Rsp, okay, error}
use us_blkback.Disk.Bounds.{IsMappedFile}
use us_blkback.Limits.{Abi, minimum}
use us_blkback.Grants.{Gnttab}
use us_blkback.Grants.Inv.{IsGnttab}
use us_blkback.Ring.{Segment, Ring, indirect_page, indirect_loop}
use us_blkback.Ring.Effects.{total_sectors}
use us_blkback.Ring.Runs.{Stays, Runs, Runs-nil, Runs-first, Runs-append}
use us_blkback.Ring.Avoids.{total_sectors-append}
use us_blkback.Ring.Indirect.Pages.{
  page_segments, indirect_segments, AllSafe-second, AvoidsAll-first, AvoidsAll-second,
}
use us_blkback.Ring.Indirect.Rounds.{
  no_spare_next, Hold-Runs, Plan, indirect_page-Runs, indirect_loop-okay, indirect_loop-error,
  per_page, round,
}

module _ {W F : Type 0} (abi : Abi) (segment_at : (ℕ → ℕ) → ℕ → Segment) (gnt : Gnttab W)
    (file : MappedFile F) (gnt_ok : IsGnttab gnt) (file_ok : IsMappedFile file)
    (base : ℕ → Option ℕ) where
  Plan-next :
      (pages : ℕ → ℕ → ℕ) (writes : Bool) (k g : ℕ) (gs : List ℕ) (left start last : ℕ)
      (r r1 : Ring W F)
      → 0 < (per_page abi)
      → Plan abi segment_at gnt file gnt_ok file_ok base pages writes (suc k) (g ∷ gs) left start r
      → let segs = page_segments abi segment_at (pages g) (minimum left (per_page abi)) 0 in
        Stays gnt file base r r1
        → Runs gnt file base writes segs start r okay r1
        → last ≡ start + total_sectors segs
        → Plan abi segment_at gnt file gnt_ok file_ok base pages writes k gs
            (left - minimum left (per_page abi))
            last
            r1
  Plan-next pages writes k g gs left start last r r1 pos plan stays runs ends =
      let nr = minimum left (per_page abi) in
      let segs = page_segments abi segment_at (pages g) nr 0 in
      let rest = indirect_segments abi segment_at pages k gs (left - nr) in
      let lots : k * (per_page abi) < left = plan.no_spare k refl in
      record {
        ring_ok = stays.ring_ok;
        enough_pages = omega (arith, plan.enough_pages);
        no_spare = λ j e. no_spare_next j k left (per_page abi) lots e;
        holds =
            Hold-Runs abi segment_at gnt file gnt_ok file_ok base pages gs writes segs start r okay
              r1 runs (AvoidsAll-first writes gs segs rest plan.avoids.1) plan.holds.1;
        few = omega (arith, plan.few);
        safe = AllSafe-second abi segs rest plan.safe;
        avoids = AvoidsAll-second writes gs segs rest plan.avoids.1;
        low = λ _. fits_count runs;
        no_wrap = omega (arith, plan.no_wrap, total_sectors-append segs rest);
      }
    where
      fits_count :
          Runs gnt file base writes
            (page_segments abi segment_at (pages g) (minimum left (per_page abi)) 0)
            start
            r
            okay
            r1
          → last ≤ r1.image.sector_count
      fits_count (inl (_, fits, _)) = omega (arith, stays.same_count)
      fits_count (inr (e, _, _, _, _)) = cc

  round-eq :
      (total done left : ℕ)
      → done + left ≡ total
      → total ≤ 256
      → round abi total done ≡ minimum left (per_page abi)
  round-eq total done left e few =
      let e' : u64 (total + 2 ^ 64 - done) ≡ left = omega arith in
      ap (λ n. minimum n (per_page abi)) e'

  -- The loops do with the pages' segments, in order, what a direct request would do with them.
  pub indirect_loop-Runs :
      (pages : ℕ → ℕ → ℕ) (writes : Bool) (k : ℕ) (gs grefs : List ℕ) (i total done left start : ℕ)
      (r : Ring W F)
      → 0 < (per_page abi)
      → done + left ≡ total
      → total ≤ 256
      → From i grefs gs
      → Plan abi segment_at gnt file gnt_ok file_ok base pages writes k gs left start r
      → (rc : Rsp) × (r' : Ring W F) × (indirect_loop abi segment_at gnt file k i total start done
            writes grefs r
          ≡ some (rc, r'))
        × Stays gnt file base r r'
        × Runs gnt file base writes (indirect_segments abi segment_at pages k gs left) start r rc r'
  indirect_loop-Runs pages writes zero gs grefs i total done left start r pos sum few from plan = (
    okay,
    r,
    unfold indirect_loop in refl,
    record { ring_ok = plan.ring_ok; same_count = refl; same_domain = refl; same_sent = refl },
    Runs-nil gnt file base writes start r (plan.low refl),
  )
  indirect_loop-Runs pages writes (suc k) [] grefs i total done left start r pos sum few from plan =
      absurd (omega (arith, plan.enough_pages))
  indirect_loop-Runs pages writes (suc k) (g ∷ gs) grefs i total done left start r pos sum few from
        plan =
      let nr = minimum left (per_page abi) in
      let segs = page_segments abi segment_at (pages g) nr 0 in
      let rest = indirect_segments abi segment_at pages k gs (left - nr) in
      let here = From-head i grefs g gs from in
      let (rc, last, r1, ran, stays, runs, ends) =
        indirect_page-Runs abi segment_at gnt file gnt_ok file_ok base pages writes k g gs left
          start r pos plan in
      let e : round abi total done ≡ nr = round-eq total done left sum few in
      let at : indirect_page abi segment_at gnt file g (round abi total done) start writes r
          ≡ some (rc, last, r1) =
        ap (λ n. indirect_page abi segment_at gnt file g n start writes r) e ∙ ran in
      elim runs [
        | inl (good, fits, moves) ↦
            let runs1 : Runs gnt file base writes segs start r okay r1 = inl (refl, fits, moves) in
            let next =
              Plan-next pages writes k g gs left start last r r1 pos plan stays runs1 (ends good) in
            let small : nr ≤ left = ground arith in
            let (rc', r', ran', stays', runs') =
              indirect_loop-Runs pages writes k gs grefs (i + 1) total (done + nr) (left - nr) last
                r1 pos (omega arith) few (From-tail i grefs g gs from) next in
            let counted : u64 (done + round abi total done) ≡ done + nr = omega (arith, e) in
            (
              rc',
              r',
              indirect_loop-okay abi segment_at gnt file gnt_ok file_ok base k i total start done g
                    last writes grefs r r1 here (at ∙ ap (λ c. some (c, last, r1)) good)
                  ∙ ap
                      (λ n.
                        indirect_loop abi segment_at gnt file k (i + 1) total last n writes grefs
                          r1)
                      counted
                  ∙ ran',
              record {
                ring_ok = stays'.ring_ok;
                same_count = stays'.same_count ∙ stays.same_count;
                same_domain = stays'.same_domain ∙ stays.same_domain;
                same_sent = stays'.same_sent ∙ stays.same_sent;
              },
              Runs-append gnt file base writes segs rest start r r1 rc' r' stays runs1
                  (subst (λ n. Runs gnt file base writes rest n r1 rc' r') (ends good) runs'),
            )
        | inr (bad, why, n, lt, moves) ↦ (
          error,
          r1,
          indirect_loop-error abi segment_at gnt file gnt_ok file_ok base k i total start done g
              last writes grefs r r1 here (at ∙ ap (λ c. some (c, last, r1)) bad),
          stays,
          Runs-first gnt file base writes segs rest start r r1 (inr (refl, why, n, lt, moves)),
        )
      ]
