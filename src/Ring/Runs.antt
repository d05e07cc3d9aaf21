-- ===== src/Ring/Runs.antt =====
-- Runs of segments: what the loops over segments have in common.
use us_blkback.Base.{
  ℕ, suc, ◌+◌, ◌≤◌, ◌<◌, ◌≡◌, ◌≢◌, refl, ◌∙◌, Option, List, [], ◌∷◌, ◌++◌, Bool, true, arith, inl,
  inr, ◌⊎◌, length, take, length-append, take-append_of_le, take-append_length,
}
use us_blkback.Disk.Image.{MappedFile, Rsp, okay, error}
use us_blkback.Grants.{Gnttab, Grants}
use us_blkback.Grants.Adds.{Refuses}
use us_blkback.Grants.Inv.{Keeps}
use us_blkback.Ring.{Segment, Ring, sectors_of}
use us_blkback.Ring.Effects.{Store, transfer, transfers, total_sectors, Agrees, RingInv}
use us_blkback.Ring.Does.{KeepsRing, Does}
use us_blkback.Ring.Avoids.{
  Avoids, transfers-page, total_sectors-append, transfers-append, Avoids-take, transfer-page,
}

module _ {W F : Type 0} (gnt : Gnttab W) (file : MappedFile F) (base : ℕ → Option ℕ) where
  -- What a loop over segments keeps.
  pub record Stays (r r' : Ring W F) : Type 0 where
    pub ring_ok : RingInv gnt file base r'
    pub same_count : r'.image.sector_count ≡ r.image.sector_count
    pub same_domain : r'.grants.dom_id ≡ r.grants.dom_id
    pub same_sent : r'.sent ≡ r.sent

  pub Stays-step : {r r1 r' : Ring W F} → KeepsRing gnt file base r r1 → Stays r1 r' → Stays r r'
  Stays-step a b = record {
    ring_ok = b.ring_ok;
    same_count = b.same_count ∙ a.same_count;
    same_domain = b.same_domain ∙ a.same_domain;
    same_sent = b.same_sent ∙ a.same_sent;
  }

  -- Why a run of segments fails: the disk ends, or some grant is refused.
  abbrev pub Fails : List Segment → ℕ → Ring W F → Type 0
  Fails segs start r =
      (r.image.sector_count < start + total_sectors segs)
      ⊎ ((k : ℕ) × Refuses gnt base r.grants.dom_id k)

  -- A run of segments succeeds and has moved the bytes of all, or fails and has moved those of
  -- the segments before the one that failed.
  abbrev pub Runs : Bool → List Segment → ℕ → Ring W F → Rsp → Ring W F → Type 0
  Runs writes segs start r rc r' =
      ((rc ≡ okay)
        × (start + total_sectors segs ≤ r.image.sector_count)
        × ((s : Store) → Agrees gnt file r s → Agrees gnt file r' (transfers writes segs start s)))
      ⊎ ((rc ≡ error)
          × Fails segs start r
          × (n : ℕ) × (n < length segs)
          × ((s : Store)
              → Agrees gnt file r s
              → Agrees gnt file r' (transfers writes (take n segs) start s)))

  -- The bytes of a ring.
  abbrev view : Ring W F → Store
  view r = record { disk = file.get r.image.file; pages = gnt.page r.grants.world }

  Agrees-view : (r : Ring W F) → Agrees gnt file r (view r)
  Agrees-view r = record { same_disk = λ x h. refl; same_pages = λ k i. refl }

  Fails-append :
      (xs ys : List Segment) (start : ℕ) (r : Ring W F)
      → Fails xs start r
      → Fails (xs ++ ys) start r
  Fails-append xs ys start r (inl beyond) = inl (omega (arith, total_sectors-append xs ys))
  Fails-append xs ys start r (inr refused) = inr refused

  Fails-second :
      (xs ys : List Segment) (start : ℕ) (r r1 : Ring W F)
      → Stays r r1
      → Fails ys (start + total_sectors xs) r1
      → Fails (xs ++ ys) start r
  Fails-second xs ys start r r1 k (inl beyond) =
      inl (omega (arith, k.same_count, total_sectors-append xs ys))
  Fails-second xs ys start r r1 k (inr (j, refused)) = inr (j, rw (← k.same_domain) refused)

  pub Runs-nil :
      (writes : Bool) (start : ℕ) (r : Ring W F)
      → start ≤ r.image.sector_count
      → Runs writes [] start r okay r
  Runs-nil writes start r h = inl (refl, omega arith, λ s a. a)

  pub Runs-fails :
      (writes : Bool) (seg : Segment) (segs : List Segment) (start : ℕ) (r r' : Ring W F)
      → Does gnt file base writes seg start r error r'
      → Runs writes (seg ∷ segs) start r error r'
  Runs-fails writes seg segs start r r' (inl (e, _, _)) = cc
  Runs-fails writes seg segs start r r' (inr (_, inl beyond, stays)) =
      inr (refl, inl (omega arith), 0, omega arith, stays)
  Runs-fails writes seg segs start r r' (inr (_, inr refused, stays)) =
      inr (refl, inr (seg.gref, refused), 0, omega arith, stays)

  pub Runs-cons :
      (writes : Bool) (seg : Segment) (segs : List Segment) (start : ℕ) (r r1 : Ring W F) (rc : Rsp)
      (r' : Ring W F)
      → KeepsRing gnt file base r r1
      → Does gnt file base writes seg start r okay r1
      → Runs writes segs (start + sectors_of seg) r1 rc r'
      → Runs writes (seg ∷ segs) start r rc r'
  Runs-cons writes seg segs start r r1 rc r' k (inr (e, _, _)) runs = cc
  Runs-cons writes seg segs start r r1 rc r' k (inl (_, fits, moves)) (inl (o, all, more)) =
      inl (o, omega (arith, k.same_count), λ s a. more (transfer writes seg start s) (moves s a))
  Runs-cons writes seg segs start r r1 rc r' k (inl (_, fits, moves))
        (inr (e, inl beyond, n, lt, more)) =
      inr (
        e,
        inl (omega (arith, k.same_count)),
        suc n,
        omega arith,
        λ s a. more (transfer writes seg start s) (moves s a),
      )
  Runs-cons writes seg segs start r r1 rc r' k (inl (_, fits, moves))
        (inr (e, inr (j, refused), n, lt, more)) =
      inr (
        e,
        inr (j, rw (← k.same_domain) refused),
        suc n,
        omega arith,
        λ s a. more (transfer writes seg start s) (moves s a),
      )

  pub Runs-first :
      (writes : Bool) (xs ys : List Segment) (start : ℕ) (r r' : Ring W F)
      → Runs writes xs start r error r'
      → Runs writes (xs ++ ys) start r error r'
  Runs-first writes xs ys start r r' (inl (e, _, _)) = cc
  Runs-first writes xs ys start r r' (inr (e, why, n, lt, moves)) = inr (
    e,
    Fails-append xs ys start r why,
    n,
    omega (arith, length-append {0} xs ys),
    rw (take-append_of_le n xs ys (omega arith)) moves,
  )

  pub Runs-append :
      (writes : Bool) (xs ys : List Segment) (start : ℕ) (r r1 : Ring W F) (rc : Rsp)
      (r' : Ring W F)
      → Stays r r1
      → Runs writes xs start r okay r1
      → Runs writes ys (start + total_sectors xs) r1 rc r'
      → Runs writes (xs ++ ys) start r rc r'
  Runs-append writes xs ys start r r1 rc r' k (inr (e, _, _, _, _)) runs = cc
  Runs-append writes xs ys start r r1 rc r' k (inl (_, fits, moves)) (inl (o, all, more)) = inl (
    o,
    omega (arith, k.same_count, total_sectors-append xs ys),
    λ s a.
        rw (transfers-append writes xs ys start s) (more (transfers writes xs start s) (moves s a)),
  )
  Runs-append writes xs ys start r r1 rc r' k (inl (_, fits, moves)) (inr (e, why, n, lt, more)) =
      inr (
        e,
        Fails-second xs ys start r r1 k why,
        length xs + n,
        omega (arith, length-append {0} xs ys),
        λ s a.
            rw (take-append_length xs ys n, transfers-append writes xs (take n ys) start s)
              (more (transfers writes xs start s) (moves s a)),
      )

  -- The pages that a run leaves alone.
  pub Runs-page :
      (writes : Bool) (segs : List Segment) (start : ℕ) (r : Ring W F) (rc : Rsp) (r' : Ring W F)
      (k : ℕ)
      → Runs writes segs start r rc r'
      → Avoids writes k segs
      → (i : ℕ) → gnt.page r'.grants.world k i ≡ gnt.page r.grants.world k i
  Runs-page writes segs start r rc r' k (inl (_, _, moves)) h i =
      (moves (view r) (Agrees-view r)).same_pages k i
      ∙ transfers-page writes segs k start (view r) h i
  Runs-page writes segs start r rc r' k (inr (_, _, n, _, moves)) h i =
      (moves (view r) (Agrees-view r)).same_pages k i
      ∙ transfers-page writes (take n segs) k start (view r) (Avoids-take writes k n segs h) i

  pub Does-page :
      (writes : Bool) (seg : Segment) (start : ℕ) (r : Ring W F) (rc : Rsp) (r' : Ring W F) (k : ℕ)
      → Does gnt file base writes seg start r rc r'
      → (writes ≡ true) ⊎ (seg.gref ≢ k)
      → (i : ℕ) → gnt.page r'.grants.world k i ≡ gnt.page r.grants.world k i
  Does-page writes seg start r rc r' k (inl (_, _, moves)) h i =
      (moves (view r) (Agrees-view r)).same_pages k i
      ∙ transfer-page writes seg k start (view r) h i
  Does-page writes seg start r rc r' k (inr (_, _, stays)) h i =
      (stays (view r) (Agrees-view r)).same_pages k i

  Agrees-grants :
      (r : Ring W F) (g : Grants W) (s : Store)
      → Keeps gnt base r.grants g
      → Agrees gnt file r s
      → Agrees gnt file (record r { grants = g }) s
  Agrees-grants r g s k a = record {
    same_disk = a.same_disk;
    same_pages = λ j i. k.same_pages j i ∙ a.same_pages j i;
  }

  -- A run after a call that only added a grant.
  pub Runs-grants :
      (writes : Bool) (segs : List Segment) (start : ℕ) (r : Ring W F) (g : Grants W) (rc : Rsp)
      (r' : Ring W F)
      → Keeps gnt base r.grants g
      → Runs writes segs start (record r { grants = g }) rc r'
      → Runs writes segs start r rc r'
  Runs-grants writes segs start r g rc r' k (inl (o, fits, moves)) =
      inl (o, fits, λ s a. moves s (Agrees-grants r g s k a))
  Runs-grants writes segs start r g rc r' k (inr (e, inl beyond, n, lt, moves)) =
      inr (e, inl beyond, n, lt, λ s a. moves s (Agrees-grants r g s k a))
  Runs-grants writes segs start r g rc r' k (inr (e, inr (j, refused), n, lt, moves)) =
      inr
        (e, inr (j, rw (← k.same_domain) refused), n, lt, λ s a. moves s (Agrees-grants r g s k a))

  -- A run that stops before its first segment, for want of a grant.
  pub Runs-refused :
      (writes : Bool) (segs : List Segment) (start j : ℕ) (r : Ring W F) (g : Grants W)
      → Keeps gnt base r.grants g
      → 0 < length segs
      → Refuses gnt base r.grants.dom_id j
      → Runs writes segs start r error (record r { grants = g })
  Runs-refused writes segs start j r g k pos refused =
      inr (refl, inr (j, refused), 0, pos, λ s a. Agrees-grants r g s k a)
