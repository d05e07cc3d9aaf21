-- ===== src/Frontend/Life.antt =====
-- A frontend from its appearance to its closing (BlkBackend.cpp): `onNewFrontend`, `onBind`,
-- `processRequest` for each request, `onClosing`.
use us_blkback.Base.{
  ℕ, ◌<◌, ◌≤◌, ◌≡◌, refl, sym, ap, ◌∙◌, Option, none, some, List, [], ◌∷◌, ◌++◌, length, leb,
  if◌then◌else◌, Bool, true, false, Option-cases, inl, inr, arith,
}
use us_blkback.Disk.Image.{MappedFile}
use us_blkback.Disk.Bounds.{IsMappedFile}
use us_blkback.Limits.{Abi, IsAbi, max_frontends}
use us_blkback.Grants.{Gnttab}
use us_blkback.Grants.Inv.{IsGnttab}
use us_blkback.Ring.{Segment, Request, Ring, process_request}
use us_blkback.Backend.{FrontendId, Backend, on_new_frontend}
use us_blkback.Frontend.{
  Result, returned, XenStore, Owned, on_bind, release, on_closing, or_terminate, ◌>>=◌,
}
use us_blkback.Frontend.Session.{Serves, idle, served, session-on_bind}

module _ {W F : Type 0} (abi : Abi) (segment_at : (ℕ → ℕ) → ℕ → Segment) (gnt : Gnttab W)
    (file : MappedFile F) where
  -- The requests that libxenbe takes from the ring, one after the other.
  unfoldable pub serve : List Request → Ring W F → Option (Ring W F)
  serve [] r = some r
  serve (q ∷ qs) r = elim (process_request abi segment_at gnt file q r) [
    | none ↦ none
    | some r' ↦ serve qs r'
  ]

  serve-snoc :
      (qs : List Request) (q : Request) (r r1 r2 : Ring W F)
      → serve qs r ≡ some r1
      → process_request abi segment_at gnt file q r1 ≡ some r2
      → serve (qs ++ (q ∷ [])) r ≡ some r2
  unfolding serve
  serve-snoc [] q r r1 r2 e ran = ground (arith, e, ran)
  serve-snoc (p ∷ ps) q r r1 r2 e ran =
      elim (Option-cases (process_request abi segment_at gnt file p r)) [
        | inl bad ↦ absurd (ground (arith, e, bad))
        | inr (r', first) ↦
            let rest : serve ps r' ≡ some r1 = ground (arith, e, first) in
            ground (arith, first, serve-snoc ps q r' r1 r2 rest ran)
      ]

  module _ (open_file : List ℕ → Option F) (ring_opens : ℕ → ℕ → ℕ → Bool) where
    -- What a frontend leaves, `none` where it was turned away.
    unfoldable pub frontend_life :
        FrontendId → XenStore → W → List Request → Backend → Backend × Option (Result (Owned W F))
    unfolding serve
    frontend_life id store w reqs b =
        if leb max_frontends b.frontend_count then (on_new_frontend id b, none) else (
          on_new_frontend id b,
          some (
              on_bind file open_file ring_opens store id.dom_id w >>= λ o.
              or_terminate (serve reqs o.ring) >>= λ r.
              returned (on_closing abi segment_at gnt file (record o { ring = r }))),
        )

module _ {W F : Type 0} (abi : Abi) (segment_at : (ℕ → ℕ) → ℕ → Segment) (gnt : Gnttab W)
    (file : MappedFile F) (gnt_ok : IsGnttab gnt) (file_ok : IsMappedFile file) (abi_ok : IsAbi abi)
    (open_file : List ℕ → Option F) (ring_opens : ℕ → ℕ → ℕ → Bool) where
  serve-Serves :
      (base : ℕ → Option ℕ) (r : Ring W F) (reqs : List Request) (r' : Ring W F)
      → Serves abi segment_at gnt file gnt_ok file_ok base abi_ok r reqs r'
      → serve abi segment_at gnt file reqs r ≡ some r'
  unfolding serve
  serve-Serves base r _ r' idle = refl
  serve-Serves base r _ r2 (served {reqs} {r1} req before sound ran) =
      serve-snoc abi segment_at gnt file reqs req r r1 r2 (serve-Serves base r reqs r1 before) ran

  -- A frontend that appears where fewer than 8 have appeared, whose bind succeeds and whose
  -- requests are sound in the states in which they come lives without an access out of bounds: it
  -- gets one response for each request, and is left with the grants that it mapped and one owner.
  -- When that owner drops the ring too, exactly what was mapped before the bind is mapped. Where 8
  -- have appeared, it is turned away and changes nothing.
  pub frontend_life-Serves :
      (id : FrontendId) (store : XenStore) (w : W) (o : Owned W F) (reqs : List Request)
      (r : Ring W F) (b full : Backend)
      → b.frontend_count < 8
      → 8 ≤ full.frontend_count
      → on_bind file open_file ring_opens store id.dom_id w ≡ returned o
      → Serves abi segment_at gnt file gnt_ok file_ok (λ a. gnt.resolve w a) abi_ok o.ring reqs r
      → ((frontend_life abi segment_at gnt file open_file ring_opens id store w reqs b).1
          ≡ some (returned (record o { ring = r; owners = 1 })))
        × (length r.sent ≡ length reqs)
        × ((a : ℕ)
            → gnt.resolve
                (release abi segment_at gnt file
                  (record o { ring = r; owners = 1 })).ring.grants.world
                a
              ≡ gnt.resolve w a)
        × (frontend_life abi segment_at gnt file open_file ring_opens id store w reqs full
            ≡ (full, none))
  unfolding frontend_life on_new_frontend
  frontend_life-Serves id store w o reqs r b full few many opened serves =
      let (counted, closed, back) =
        session-on_bind abi segment_at gnt file gnt_ok file_ok abi_ok open_file ring_opens store
          id.dom_id w o reqs r opened serves in
      let ran = serve-Serves (λ a. gnt.resolve w a) o.ring reqs r serves in
      let admitted : leb max_frontends b.frontend_count ≡ false = ground arith in
      let refused : leb max_frontends full.frontend_count ≡ true = ground arith in
      (
        ground (arith, admitted, opened, ran, closed),
        counted,
        λ a.
            ap (λ x. gnt.resolve (release abi segment_at gnt file x).ring.grants.world a)
              (sym closed)
            ∙ back a,
        ground (arith, refused),
      )
