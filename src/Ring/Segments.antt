-- ===== src/Ring/Segments.antt =====
-- `processSegment` (BlkBackend.cpp): one segment moves its bytes, or fails and changes nothing.
use us_blkback.Base.{
  ℕ, ◌+◌, ◌^◌, ◌≤◌, ◌≡◌, refl, ◌∙◌, Option, some, ◌==◌, if◌then◌else◌, Bool, inl, inr, if-then,
  if-else, ==-false,
}
use us_blkback.Disk.Image.{MappedFile, Rsp, error}
use us_blkback.Disk.Bounds.{IsMappedFile}
use us_blkback.Limits.{Abi}
use us_blkback.Grants.{Gnttab, Grants, add_grant}
use us_blkback.Grants.Inv.{IsGnttab, Keeps}
use us_blkback.Grants.Add.{add_grant-Adds, Recent-resolve}
use us_blkback.Ring.{Segment, Ring, sectors_of, copy_segment, process_segment}
use us_blkback.Ring.Effects.{Store, IsSafe, Agrees, RingInv}
use us_blkback.Ring.Does.{KeepsRing, Does}
use us_blkback.Ring.Copies.{copy_segment-Copies}

module _ {W F : Type 0} (abi : Abi) (segment_at : (ℕ → ℕ) → ℕ → Segment) (gnt : Gnttab W)
    (file : MappedFile F) (gnt_ok : IsGnttab gnt) (file_ok : IsMappedFile file)
    (base : ℕ → Option ℕ) where
  pub process_segment-added :
      (writes : Bool) (seg : Segment) (start addr : ℕ) (r : Ring W F) (g : Grants W)
      → add_grant gnt seg.gref r.grants ≡ some (addr, g)
      → process_segment abi segment_at gnt file seg start (sectors_of seg) writes r ≡ (
          if addr == 0
          then some (error, record r { grants = g })
          else copy_segment abi segment_at gnt file seg start
              (sectors_of seg)
              writes
              addr
              (record r { grants = g }))
  unfolding process_segment
  process_segment-added writes seg start addr r g e = rw e refl

  pub Agrees-added :
      (r : Ring W F) (g : Grants W) (s : Store)
      → Keeps gnt base r.grants g
      → Agrees gnt file r s
      → Agrees gnt file (record r { grants = g }) s
  Agrees-added r g s k a = record {
    same_disk = a.same_disk;
    same_pages = λ j i. k.same_pages j i ∙ a.same_pages j i;
  }

  Does-added :
      (writes : Bool) (seg : Segment) (start : ℕ) (r : Ring W F) (g : Grants W) (rc : Rsp)
      (r' : Ring W F)
      → Keeps gnt base r.grants g
      → Does gnt file base writes seg start (record r { grants = g }) rc r'
      → Does gnt file base writes seg start r rc r'
  Does-added writes seg start r g rc r' k (inl (o, fits, moves)) =
      inl (o, fits, λ s a. moves s (Agrees-added r g s k a))
  Does-added writes seg start r g rc r' k (inr (e, inl beyond, stays)) =
      inr (e, inl beyond, λ s a. stays s (Agrees-added r g s k a))
  Does-added writes seg start r g rc r' k (inr (e, inr refused, stays)) =
      inr (e, inr (rw (← k.same_domain) refused), λ s a. stays s (Agrees-added r g s k a))

  -- On a ring in order, a segment that `validSegment` accepts and whose sector numbers stay below
  -- 2 ^ 64 is carried out with no access out of bounds: its bytes
  -- move, or the call fails, since the disk ends or the grant is refused, and no byte changes.
  pub process_segment-Does :
      (writes : Bool) (seg : Segment) (start : ℕ) (r : Ring W F)
      → RingInv gnt file base r
      → IsSafe abi seg
      → start + sectors_of seg ≤ 2 ^ 64
      → (rc : Rsp) × (r' : Ring W F) × (process_segment abi segment_at gnt file seg start
            (sectors_of seg)
            writes
            r
          ≡ some (rc, r'))
        × KeepsRing gnt file base r r'
        × Does gnt file base writes seg start r rc r'
  process_segment-Does writes seg start r v safe small =
      let (addr, g, added, adds) = add_grant-Adds gnt gnt_ok base seg.gref r.grants v.grants_ok in
      let r1 : Ring W F = record r { grants = g } in
      let v1 : RingInv gnt file base r1 = record {
        grants_ok = adds.valid;
        image_ok = v.image_ok;
      } in
      let step = process_segment-added writes seg start addr r g added in
      elim adds.result [
        | inl (nonnull, front, _) ↦
            let here = (Recent-resolve gnt gnt_ok base 1 addr seg.gref g adds.valid front).0 in
            let (rc, r', copied, v', same, count, dom, sent, does) =
              copy_segment-Copies abi segment_at gnt file gnt_ok file_ok base writes seg start addr
                r1 v1 safe small here in
            (
              rc,
              r',
              step ∙ if-else (addr == 0) _ _ (==-false addr 0 nonnull) ∙ copied,
              record {
                ring_ok = v';
                ages = λ m a k h p. rw same (adds.ages m a k h p);
                same_count = count;
                same_domain = dom ∙ adds.keeps.same_domain;
                same_sent = sent;
              },
              Does-added writes seg start r g rc r' adds.keeps does,
            )
        | inr (null, _, _, refused) ↦ (
          error,
          r1,
          step ∙ if-then (addr == 0) _ _ (rw null refl),
          record {
            ring_ok = v1;
            ages = adds.ages;
            same_count = refl;
            same_domain = adds.keeps.same_domain;
            same_sent = refl;
          },
          inr (refl, inr refused, λ s a. Agrees-added r g s adds.keeps a),
        )
      ]
