-- ===== src/Disk/Bounds.antt =====
-- DiskImage.cpp: which requests are carried out, which are refused, and which leave the file.
use us_blkback.Base.{
  subst, sym, ap, ◌∙◌, ℕ, refl, ◌≢◌, ◌⊎◌, inl, inr, Bool-cases, ltb, ◌==◌, ◌+◌, ◌*◌, ◌/◌, ◌%◌, ◌^◌,
  ◌≤◌, ◌<◌, ◌≡◌, refl, none, some, leb, if◌then◌else◌, arith, int_max,
}
use us_blkback.Disk.Region.{Region, blit}
use us_blkback.Disk.Image.{
  MappedFile, okay, error, DiskImage, stored, open_image, read_sectors, write_sectors, discard,
}

-- What the callers of `MemoryMappedFile` rely on.
pub record IsMappedFile {F : Type 0} (m : MappedFile F) : Type 0 where
  pub get-put : (f : F) (b : ℕ → ℕ) (i : ℕ) → i < m.size f → m.get (m.put f b) i ≡ b i
  pub size-put : (f : F) (b : ℕ → ℕ) → m.size (m.put f b) ≡ m.size f
  pub get-flush : (f : F) (i : ℕ) → m.get (m.flush f) i ≡ m.get f i
  pub size-flush : (f : F) → m.size (m.flush f) ≡ m.size f

module _ {F : Type 0} (m : MappedFile F) where
  -- What the constructor establishes: the file is a whole number of sectors, at least one and
  -- fewer than INT_MAX.
  pub record IsWf (d : DiskImage F) : Type 0 where
    pub whole : m.size d.file ≡ d.sector_count * 512
    pub some_sector : 0 < d.sector_count
    pub few : d.sector_count < int_max

  -- The constructor accepts exactly the files that are a positive whole number of sectors, fewer
  -- than INT_MAX, and counts their sectors; for any other file the program terminates.
  pub open_image_lem :
      (f : F)
      → ((0 < m.size f)
          × (m.size f % 512 ≡ 0)
          × (m.size f / 512 < int_max)
          × (d : DiskImage F) × (open_image m f ≡ some d)
          × (d.file ≡ f)
          × IsWf d)
        ⊎ (((m.size f ≡ 0) ⊎ ((m.size f % 512 ≢ 0) ⊎ (int_max ≤ m.size f / 512)))
            × (open_image m f ≡ none))
  unfolding open_image
  open_image_lem f = elim (Bool-cases (ltb 0 (m.size f))) [
    | inr empty ↦ inr (inl (ground arith), ground arith)
    | inl some_bytes ↦ elim (Bool-cases (m.size f % 512 == 0)) [
      | inr ragged ↦ inr (inr (inl (ground arith)), ground arith)
      | inl whole ↦ elim (Bool-cases (ltb (m.size f / 512) int_max)) [
        | inr many ↦ inr (inr (inr (ground arith)), ground arith)
        | inl few ↦ inl (
          ground arith,
          ground arith,
          ground arith,
          record { file = f; sector_count = m.size f / 512 },
          ground arith,
          refl,
          ground arith,
        )
      ]
    ]
  ]

  pub open_image-IsWf : (f : F) (image : DiskImage F) → open_image m f ≡ some image → IsWf image
  open_image-IsWf f image e = elim (open_image_lem f) [
    | inl (_, _, _, d, did, _, w) ↦ subst IsWf (ground (arith, did, e)) w
    | inr (_, refused) ↦ absurd (ground (arith, refused, e))
  ]

  pub open_image-file : (f : F) (image : DiskImage F) → open_image m f ≡ some image → image.file ≡ f
  open_image-file f image e = elim (open_image_lem f) [
    | inl (_, _, _, d, did, same, _) ↦
        let one : d ≡ image = ground (arith, did, e) in sym (ap (λ x. x.file) one) ∙ same
    | inr (_, refused) ↦ absurd (ground (arith, refused, e))
  ]

  pub read_sectors_lem :
      (d : DiskImage F) (start nr : ℕ) (buf : Region) (at : ℕ)
      → IsWf d
      → 0 < nr
      → start + nr ≤ 2 ^ 64
      → at + nr * 512 ≤ buf.size
      → read_sectors m d start nr buf at ≡ (
          if leb (start + nr) d.sector_count
          then some
              (okay, record buf { byte = blit buf.byte at (m.get d.file) (start * 512) (nr * 512) })
          else some (error, buf))
  unfolding read_sectors
  read_sectors_lem d start nr buf at w p q r = ground arith

  pub write_sectors_lem :
      (d : DiskImage F) (start nr : ℕ) (buf : Region) (at : ℕ)
      → IsWf d
      → 0 < nr
      → start + nr ≤ 2 ^ 64
      → at + nr * 512 ≤ buf.size
      → write_sectors m d start nr buf at ≡ (
          if leb (start + nr) d.sector_count
          then some (
            okay,
            stored m d (record {
              size = m.size d.file;
              byte = blit (m.get d.file) (start * 512) buf.byte at (nr * 512);
            }),
          )
          else some (error, d))
  unfolding write_sectors
  write_sectors_lem d start nr buf at w p q r = ground arith

  pub discard_lem :
      (d : DiskImage F) (start nr : ℕ)
      → IsWf d
      → start + nr < 2 ^ 64
      → discard m d start nr ≡ (
          if leb (start + nr) d.sector_count
          then some (
            okay,
            stored m d (record {
              size = m.size d.file;
              byte = blit (m.get d.file) (start * 512) (λ _. 0) 0 (nr * 512);
            }),
          )
          else some (error, d))
  unfolding discard
  discard_lem d start nr w p = ground arith
