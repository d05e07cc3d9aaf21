-- ===== src/Ring/Dispatch.antt =====
-- The `switch` of `processRequest` (BlkBackend.cpp): what each operation does.
use us_blkback.Base.{
  ℕ, ◌+◌, ◌^◌, ◌<◌, ◌≡◌, refl, ap, ◌∙◌, Option, some, leb, Bool, true, false, arith, Bool-cases,
  inl, inr, ◌⊎◌, take, subst, if-else,
}
use us_blkback.Disk.Image.{
  MappedFile, Rsp, okay, error, eopnotsupp, DiskImage, flush_backing_file, discard,
}
use us_blkback.Disk.Bounds.{IsMappedFile, discard_lem}
use us_blkback.Disk.RoundTrip.{flush-IsWf, Replaced, discard-Replaced}
use us_blkback.Limits.{Abi, IsAbi}
use us_blkback.Grants.{Gnttab}
use us_blkback.Grants.Inv.{IsGnttab}
use us_blkback.Ring.{
  is_write, Segment, Ring, Request, Op, read, write, write_barrier, flush_diskcache, discards,
  indirects, other, handle_read_write, dispatch,
}
use us_blkback.Ring.Effects.{Store, Agrees, RingInv}
use us_blkback.Ring.Runs.{Stays, Runs}
use us_blkback.Ring.Direct.{IsSound, handle_read_write-Runs}
use us_blkback.Ring.Indirect.Handler.{IsSoundIndirect, handle_indirect-Runs, listed}

-- The operation that a response names: an indirect request is answered by the one inside.
abbrev pub answered : Op → Request → Op
answered indirects req = req.as_indirect.indirect_op
answered op req = op

module _ {W F : Type 0} (abi : Abi) (segment_at : (ℕ → ℕ) → ℕ → Segment) (gnt : Gnttab W)
    (file : MappedFile F) (gnt_ok : IsGnttab gnt) (file_ok : IsMappedFile file)
    (base : ℕ → Option ℕ) (abi_ok : IsAbi abi) where
  -- What a request needs, by its operation.
  abbrev pub SoundFor : Op → Request → Ring W F → Type 0
  SoundFor read req r = IsSound abi segment_at gnt file gnt_ok file_ok base req
  SoundFor write req r = IsSound abi segment_at gnt file gnt_ok file_ok base req
  SoundFor discards req r = req.as_discard.sector_number + req.as_discard.nr_sectors < 2 ^ 64
  SoundFor indirects req r = IsSoundIndirect abi segment_at gnt file req.as_indirect r
  SoundFor _ req r = Unit {0}

  -- What a sound request does, by its operation.
  abbrev pub Outcome : Op → Request → Ring W F → Rsp → Ring W F → Type 0
  Outcome read req r rc r' =
      Runs gnt file base false (take req.nr_segments req.seg) req.sector_number r rc r'
  Outcome write req r rc r' =
      Runs gnt file base true (take req.nr_segments req.seg) req.sector_number r rc r'
  Outcome discards req r rc r' =
      ((rc ≡ okay)
        × Replaced file file_ok r.image req.as_discard.sector_number req.as_discard.nr_sectors
            (λ _. 0) r'.image)
      ⊎ ((rc ≡ error)
          × (r.image.sector_count < req.as_discard.sector_number + req.as_discard.nr_sectors)
          × (r'.image ≡ r.image))
  Outcome indirects req r rc r' =
      Runs gnt file base (is_write req.as_indirect.indirect_op)
        (listed abi segment_at gnt file req.as_indirect r) req.as_indirect.sector_number r rc r'
  Outcome (other n) req r rc r' = (rc ≡ eopnotsupp) × (r' ≡ r)
  Outcome _ req r rc r' = (rc ≡ okay) × ((s : Store) → Agrees gnt file r s → Agrees gnt file r' s)

  abbrev Dispatches : Op → Request → Ring W F → Type 0
  Dispatches op req r =
      (rc : Rsp) × (r' : Ring W F) × (dispatch abi segment_at gnt file op req r
        ≡ some (rc, answered op req, r'))
      × Stays gnt file base r r'
      × Outcome op req r rc r'

  flush-Stays :
      (r : Ring W F)
      → RingInv gnt file base r
      → Stays gnt file base r (record r { image = flush_backing_file file r.image })
        × ((s : Store)
            → Agrees gnt file r s
            → Agrees gnt file (record r { image = flush_backing_file file r.image }) s)
  unfolding flush_backing_file
  flush-Stays r v = (
    record {
      ring_ok = record {
        grants_ok = v.grants_ok;
        image_ok = flush-IsWf file file_ok r.image v.image_ok;
      };
      same_count = refl;
      same_domain = refl;
      same_sent = refl;
    },
    λ s a. record {
      same_disk = λ x h. file_ok.get-flush r.image.file x ∙ a.same_disk x h;
      same_pages = a.same_pages;
    },
  )

  discard-Stays :
      (start nr : ℕ) (r : Ring W F)
      → RingInv gnt file base r
      → start + nr < 2 ^ 64
      → (rc : Rsp) × (image : DiskImage F) × (discard file r.image start nr ≡ some (rc, image))
        × Stays gnt file base r (record r { image = image })
        × (((rc ≡ okay) × Replaced file file_ok r.image start nr (λ _. 0) image)
            ⊎ ((rc ≡ error) × (r.image.sector_count < start + nr) × (image ≡ r.image)))
  discard-Stays start nr r v small = elim (Bool-cases (leb (start + nr) r.image.sector_count)) [
    | inl fits ↦
        let (image, did, new) =
          discard-Replaced file file_ok r.image start nr v.image_ok (ground arith) in
        (
          okay,
          image,
          did,
          record {
            ring_ok = record { grants_ok = v.grants_ok; image_ok = new.valid };
            same_count = new.same_count;
            same_domain = refl;
            same_sent = refl;
          },
          inl (refl, new),
        )
    | inr beyond ↦ (
      error,
      r.image,
      discard_lem file r.image start nr v.image_ok small
          ∙ if-else (leb (start + nr) r.image.sector_count) _ _ beyond,
      record { ring_ok = v; same_count = refl; same_domain = refl; same_sent = refl },
      inr (refl, ground arith, refl),
    )
  ]

  direct-Dispatches :
      (writes : Bool) (req : Request) (r : Ring W F)
      → is_write req.operation ≡ writes
      → RingInv gnt file base r
      → IsSound abi segment_at gnt file gnt_ok file_ok base req
      → (rc : Rsp) × (r' : Ring W F) × (handle_read_write abi segment_at gnt file req r
          ≡ some (rc, r'))
        × Stays gnt file base r r'
        × Runs gnt file base writes (take req.nr_segments req.seg) req.sector_number r rc r'
  direct-Dispatches writes req r e v sound =
      let (rc, r', ran, stays, runs) =
        handle_read_write-Runs abi segment_at gnt file gnt_ok file_ok base req r v sound in
      (
        rc,
        r',
        ran,
        stays,
        subst (λ b. Runs gnt file base b (take req.nr_segments req.seg) req.sector_number r rc r') e
            runs,
      )

  pub dispatch-Dispatches :
      (op : Op) (req : Request) (r : Ring W F)
      → req.operation ≡ op
      → RingInv gnt file base r
      → SoundFor op req r
      → Dispatches op req r
  unfolding dispatch
  dispatch-Dispatches read req r e v sound =
      let (rc, r', ran, stays, runs) = direct-Dispatches false req r (ap is_write e) v sound in
      (rc, r', ground (arith, ran, e), stays, runs)
  dispatch-Dispatches write req r e v sound =
      let (rc, r', ran, stays, runs) = direct-Dispatches true req r (ap is_write e) v sound in
      (rc, r', ground (arith, ran, e), stays, runs)
  dispatch-Dispatches write_barrier req r e v sound = (
    okay,
    record r { image = flush_backing_file file r.image },
    ground arith,
    (flush-Stays r v).0,
    (refl, (flush-Stays r v).1),
  )
  dispatch-Dispatches flush_diskcache req r e v sound = (
    okay,
    record r { image = flush_backing_file file r.image },
    ground arith,
    (flush-Stays r v).0,
    (refl, (flush-Stays r v).1),
  )
  dispatch-Dispatches discards req r e v sound =
      let (rc, image, did, stays, outcome) =
        discard-Stays req.as_discard.sector_number req.as_discard.nr_sectors r v sound in
      (rc, record r { image = image }, ground (arith, did, e), stays, outcome)
  dispatch-Dispatches indirects req r e v sound =
      let (_, rc, r', ran, stays, runs) =
        handle_indirect-Runs abi segment_at gnt file gnt_ok file_ok base abi_ok req.as_indirect r v
          sound in
      (rc, r', ground (arith, ran), stays, runs)
  dispatch-Dispatches (other n) req r e v sound = (
    eopnotsupp,
    r,
    ground arith,
    record { ring_ok = v; same_count = refl; same_domain = refl; same_sent = refl },
    (refl, refl),
  )
