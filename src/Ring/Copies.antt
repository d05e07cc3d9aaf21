-- ===== src/Ring/Copies.antt =====
-- The copy at the end of `processSegment` (BlkBackend.cpp).
use us_blkback.Base.{
  ℕ, ◌+◌, ◌*◌, ◌^◌, ◌≤◌, ◌≡◌, refl, ◌∙◌, Option, some, leb, Bool, true, false, arith, Bool-cases,
  inl, inr,
}
use us_blkback.Disk.Region.{Region, blit, blit_cong}
use us_blkback.Disk.Image.{MappedFile, Rsp, okay, error, stored}
use us_blkback.Disk.Bounds.{IsMappedFile, read_sectors_lem, write_sectors_lem}
use us_blkback.Disk.RoundTrip.{stored-IsWf}
use us_blkback.Limits.{Abi}
use us_blkback.Grants.{Gnttab}
use us_blkback.Grants.Inv.{IsGnttab}
use us_blkback.Ring.{Segment, Ring, sectors_of, copy_segment, with_world}
use us_blkback.Ring.Effects.{Store, transfer, IsSafe, valid_segment_bounds, Agrees, RingInv}
use us_blkback.Ring.Does.{Does}

module _ {W F : Type 0} (abi : Abi) (segment_at : (ℕ → ℕ) → ℕ → Segment) (gnt : Gnttab W)
    (file : MappedFile F) (gnt_ok : IsGnttab gnt) (file_ok : IsMappedFile file)
    (base : ℕ → Option ℕ) where
  -- What the copy of one segment returns and does, at an address that maps its grant.
  abbrev pub Copies : Bool → Segment → ℕ → ℕ → Ring W F → Type 0
  Copies writes seg start addr r =
      (rc : Rsp) × (r' : Ring W F) × (copy_segment abi segment_at gnt file seg start
          (sectors_of seg) writes addr r
        ≡ some (rc, r'))
      × RingInv gnt file base r'
      × (r'.grants.lru ≡ r.grants.lru)
      × (r'.image.sector_count ≡ r.image.sector_count)
      × (r'.grants.dom_id ≡ r.grants.dom_id)
      × (r'.sent ≡ r.sent)
      × Does gnt file base writes seg start r rc r'

  module _ (seg : Segment) (start addr : ℕ) (r : Ring W F) (v : RingInv gnt file base r)
      (safe : IsSafe abi seg) (small : start + sectors_of seg ≤ 2 ^ 64)
      (here : gnt.resolve r.grants.world addr ≡ some seg.gref) where
    abbrev page_buffer : Region
    page_buffer = record { size = abi.page_size; byte = gnt.page r.grants.world seg.gref }

    abbrev written : Region
    written = record {
      size = file.size r.image.file;
      byte =
          blit (file.get r.image.file) (start * 512) page_buffer.byte (512 * seg.first_sect)
            (sectors_of seg * 512);
    }

    written-transfer :
        (s : Store)
        → Agrees gnt file r s
        → start + sectors_of seg ≤ r.image.sector_count
        → Agrees gnt file
            (record r { image = stored file r.image written })
            (transfer true seg start s)
    written-transfer s a fits = record {
      same_disk = λ x hx.
          file_ok.get-put r.image.file written.byte x (omega (arith, v.image_ok.whole))
          ∙ blit_cong (file.get r.image.file) s.disk page_buffer.byte (s.pages seg.gref)
              (start * 512) (512 * seg.first_sect) (sectors_of seg * 512) x (a.same_disk x hx)
              (λ _ _. a.same_pages seg.gref _);
      same_pages = a.same_pages;
    }

    copy_out : Copies true seg start addr r
    unfolding copy_segment
    copy_out =
        let bounds = valid_segment_bounds abi seg safe in
        let wrote =
          write_sectors_lem file r.image start (sectors_of seg) page_buffer (512 * seg.first_sect)
            v.image_ok bounds.0 small bounds.2 in
        elim (Bool-cases (leb (start + sectors_of seg) r.image.sector_count)) [
          | inl fits ↦ (
            okay,
            record r { image = stored file r.image written },
            ground (arith, wrote),
            record {
              grants_ok = v.grants_ok;
              image_ok = stored-IsWf file file_ok r.image written v.image_ok;
            },
            refl,
            refl,
            refl,
            refl,
            inl (refl, ground arith, λ s a. written-transfer s a (ground arith)),
          )
          | inr beyond ↦ (
            error,
            r,
            ground (arith, wrote),
            v,
            refl,
            refl,
            refl,
            refl,
            inr (refl, inl (ground arith), λ s a. a),
          )
        ]

    abbrev read_back : Region
    read_back = record page_buffer {
      byte =
          blit page_buffer.byte (512 * seg.first_sect) (file.get r.image.file) (start * 512)
            (sectors_of seg * 512);
    }

    abbrev after_read : Ring W F
    after_read =
        with_world abi segment_at gnt file r (gnt.set_page r.grants.world seg.gref read_back.byte)

    read-transfer :
        (s : Store)
        → Agrees gnt file r s
        → start + sectors_of seg ≤ r.image.sector_count
        → Agrees gnt file after_read (transfer false seg start s)
    read-transfer s a fits = record {
      same_disk = a.same_disk;
      same_pages = λ k i. ground (
        arith,
        gnt_ok.page-set_page r.grants.world seg.gref k i read_back.byte,
        a.same_pages k i,
        changed i,
      );
    }
      where
        changed :
            (i : ℕ)
            → read_back.byte i
              ≡ blit
                  (s.pages seg.gref)
                  (512 * seg.first_sect)
                  s.disk
                  (start * 512)
                  (sectors_of seg * 512)
                  i
        changed i =
            blit_cong page_buffer.byte (s.pages seg.gref) (file.get r.image.file) s.disk
              (512 * seg.first_sect) (start * 512) (sectors_of seg * 512) i
              (a.same_pages seg.gref i) (λ lo hi. a.same_disk _ (omega arith))

    copy_in : Copies false seg start addr r
    unfolding copy_segment
    copy_in =
        let bounds = valid_segment_bounds abi seg safe in
        let got =
          read_sectors_lem file r.image start (sectors_of seg) page_buffer (512 * seg.first_sect)
            v.image_ok bounds.0 small bounds.2 in
        elim (Bool-cases (leb (start + sectors_of seg) r.image.sector_count)) [
          | inl fits ↦ (
            okay,
            after_read,
            ground (arith, got),
            record {
              grants_ok = record {
                good = v.grants_ok.good;
                coherent = v.grants_ok.coherent;
                exact = λ a.
                    gnt_ok.resolve-set_page r.grants.world seg.gref a read_back.byte
                    ∙ v.grants_ok.exact a;
                bounded = v.grants_ok.bounded;
              };
              image_ok = v.image_ok;
            },
            refl,
            refl,
            refl,
            refl,
            inl (refl, ground arith, λ s a. read-transfer s a (ground arith)),
          )
          | inr beyond ↦ (
            error,
            r,
            ground (arith, got),
            v,
            refl,
            refl,
            refl,
            refl,
            inr (refl, inl (ground arith), λ s a. a),
          )
        ]

  pub copy_segment-Copies :
      (writes : Bool) (seg : Segment) (start addr : ℕ) (r : Ring W F)
      → RingInv gnt file base r
      → IsSafe abi seg
      → start + sectors_of seg ≤ 2 ^ 64
      → gnt.resolve r.grants.world addr ≡ some seg.gref
      → Copies writes seg start addr r
  copy_segment-Copies true seg start addr r v safe small here =
      copy_out seg start addr r v safe small here
  copy_segment-Copies false seg start addr r v safe small here =
      copy_in seg start addr r v safe small here
