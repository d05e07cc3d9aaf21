-- ===== src/Ring/Answers.antt =====
-- `processRequest` (BlkBackend.cpp) and the destructor.
use us_blkback.Base.{ℕ, ◌≡◌, refl, ap, Option, some, ◌∷◌}
use us_blkback.Disk.Image.{MappedFile, Rsp}
use us_blkback.Disk.Bounds.{IsMappedFile}
use us_blkback.Limits.{Abi, IsAbi}
use us_blkback.Grants.{Gnttab}
use us_blkback.Grants.Inv.{IsGnttab}
use us_blkback.Grants.Evict.{free_grants-base}
use us_blkback.Ring.{Segment, Ring, Request, Response, process_request, destroy}
use us_blkback.Ring.Effects.{RingInv}
use us_blkback.Ring.Runs.{Stays}
use us_blkback.Ring.Dispatch.{answered, SoundFor, Outcome, dispatch-Dispatches}

module _ {W F : Type 0} (abi : Abi) (segment_at : (ℕ → ℕ) → ℕ → Segment) (gnt : Gnttab W)
    (file : MappedFile F) (gnt_ok : IsGnttab gnt) (file_ok : IsMappedFile file)
    (base : ℕ → Option ℕ) (abi_ok : IsAbi abi) where
  -- The ring, without its responses.
  abbrev pub Handled : Request → Ring W F → Rsp → Ring W F → Type 0
  Handled req r rc r' =
      (done : Ring W F) × (r' ≡ record done {
        sent = record { id = req.id; operation = answered req.operation req; status = rc } ∷ r.sent;
      })
      × Stays gnt file base r done
      × Outcome abi segment_at gnt file gnt_ok file_ok base abi_ok req.operation req r rc done

  -- On a ring in order, every sound request is answered, by exactly one response with its own id
  -- and operation, and does what its operation says; the ring stays in order.
  pub process_request-Handled :
      (req : Request) (r : Ring W F)
      → RingInv gnt file base r
      → SoundFor abi segment_at gnt file gnt_ok file_ok base abi_ok req.operation req r
      → (rc : Rsp) × (r' : Ring W F) × (process_request abi segment_at gnt file req r ≡ some r')
        × RingInv gnt file base r'
        × Handled req r rc r'
  unfolding process_request
  process_request-Handled req r v sound =
      let (rc, done, did, stays, outcome) =
        dispatch-Dispatches abi segment_at gnt file gnt_ok file_ok base abi_ok req.operation req r
          refl v sound in
      let answer : Response = record {
        id = req.id;
        operation = answered req.operation req;
        status = rc;
      } in
      (
        rc,
        record done { sent = answer ∷ done.sent },
        rw did refl,
        record { grants_ok = stays.ring_ok.grants_ok; image_ok = stays.ring_ok.image_ok },
        (done, ap (λ l. record done { sent = answer ∷ l }) stays.same_sent, stays, outcome),
      )

  -- Destroying a ring in order leaves mapped what was mapped before its first grant, and nothing
  -- else.
  pub destroy-base :
      (r : Ring W F)
      → RingInv gnt file base r
      → (a : ℕ) → gnt.resolve (destroy abi segment_at gnt file r).grants.world a ≡ base a
  unfolding destroy
  destroy-base r v = free_grants-base gnt gnt_ok base r.grants v.grants_ok
