-- ===== src/Disk/RoundTrip.antt =====
-- DiskImage.cpp: what a read returns after a write, a discard or a flush.
use us_blkback.Base.{
  Bool-cases, inl, inr, ◌⊎◌, ◌==◌, ℕ, ◌+◌, ◌-◌, ◌*◌, ◌^◌, ◌≤◌, ◌<◌, ◌≡◌, refl, ◌≢◌, ◌∙◌, some,
  arith, ◌⊎◌,
}
use us_blkback.Disk.Region.{Region, blit}
use us_blkback.Disk.Image.{
  MappedFile, okay, error, DiskImage, stored, read_sector, write_sector, read_sectors,
  write_sectors, discard, flush_backing_file,
}
use us_blkback.Disk.Bounds.{IsMappedFile, IsWf, read_sectors_lem, write_sectors_lem, discard_lem}

module _ {F : Type 0} (m : MappedFile F) (laws : IsMappedFile m) where
  -- Byte `k` of sector `n`.
  abbrev pub sector_byte : DiskImage F → ℕ → ℕ → ℕ
  sector_byte d n k = m.get d.file (n * 512 + k)

  pub stored-IsWf : (d : DiskImage F) (r : Region) → IsWf m d → IsWf m (stored m d r)
  stored-IsWf d r w = record {
    whole = laws.size-put d.file r.byte ∙ w.whole;
    some_sector = w.some_sector;
    few = w.few;
  }

  pub sector_byte-stored :
      (d : DiskImage F) (r : Region) (n k : ℕ)
      → IsWf m d
      → n < d.sector_count
      → k < 512
      → sector_byte (stored m d r) n k ≡ r.byte (n * 512 + k)
  sector_byte-stored d r n k w p q = laws.get-put d.file r.byte (n * 512 + k) (omega arith)

  -- The sectors from `start` on were replaced by those that `new` gives, and no others.
  pub record Replaced (d : DiskImage F) (start nr : ℕ) (new : ℕ → ℕ) (d' : DiskImage F)
      : Type 0 where
    pub valid : IsWf m d'
    pub same_count : d'.sector_count ≡ d.sector_count
    pub inside : (i k : ℕ) → i < nr → k < 512 → sector_byte d' (start + i) k ≡ new (i * 512 + k)
    pub outside :
        (n k : ℕ)
        → (n < start) ⊎ (start + nr ≤ n)
        → n < d.sector_count
        → k < 512
        → sector_byte d' n k ≡ sector_byte d n k

  pub Replaced-stored :
      (d : DiskImage F) (start nr : ℕ) (b : ℕ → ℕ) (at : ℕ)
      → IsWf m d
      → start + nr ≤ d.sector_count
      → Replaced d start nr
          (λ k. b (at + k))
          (stored m d (record {
            size = m.size d.file;
            byte = blit (m.get d.file) (start * 512) b at (nr * 512);
          }))
  Replaced-stored d start nr b at w fits = record {
    valid = stored-IsWf d r w;
    same_count = refl;
    inside = λ i k hi hk. sector_byte-stored d r (start + i) k w (omega arith) hk ∙ inner i k hi hk;
    outside = λ n k side hn hk. sector_byte-stored d r n k w hn hk ∙ outer n k side hk;
  }
    where
      r : Region
      r = record { size = m.size d.file; byte = blit (m.get d.file) (start * 512) b at (nr * 512) }

      inner : (i k : ℕ) → i < nr → k < 512 → r.byte ((start + i) * 512 + k) ≡ b (at + (i * 512 + k))
      inner i k hi hk =
          let e : (start + i) * 512 + k - start * 512 ≡ i * 512 + k = omega arith in ground arith

      outer :
          (n k : ℕ)
          → (n < start) ⊎ (start + nr ≤ n)
          → k < 512
          → r.byte (n * 512 + k) ≡ m.get d.file (n * 512 + k)
      outer n k side hk = ground arith

  module _ (d : DiskImage F) (start nr : ℕ) (w : IsWf m d)
      (fits : start + nr ≤ d.sector_count) where
    pub write_sectors-Replaced :
        (buf : Region) (at : ℕ)
        → 0 < nr
        → at + nr * 512 ≤ buf.size
        → (d' : DiskImage F) × (write_sectors m d start nr buf at ≡ some (okay, d'))
          × Replaced d start nr (λ k. buf.byte (at + k)) d'
    write_sectors-Replaced buf at p room = (
      stored m d (record {
        size = m.size d.file;
        byte = blit (m.get d.file) (start * 512) buf.byte at (nr * 512);
      }),
      ground (arith, write_sectors_lem m d start nr buf at),
      Replaced-stored d start nr buf.byte at w fits,
    )

    -- A discard inside the disk fills its sectors with zeros, and changes nothing else.
    pub discard-Replaced :
        (d' : DiskImage F) × (discard m d start nr ≡ some (okay, d'))
        × Replaced d start nr (λ _. 0) d'
    discard-Replaced = (
      stored m d (record {
        size = m.size d.file;
        byte = blit (m.get d.file) (start * 512) (λ _. 0) 0 (nr * 512);
      }),
      ground (arith, discard_lem m d start nr),
      Replaced-stored d start nr (λ _. 0) 0 w fits,
    )

    pub read_sectors_bytes :
        (buf : Region) (at : ℕ)
        → 0 < nr
        → at + nr * 512 ≤ buf.size
        → (r : Region) × (read_sectors m d start nr buf at ≡ some (okay, r))
          × (r.size ≡ buf.size)
          × ((i k : ℕ)
              → i < nr
              → k < 512
              → r.byte (at + (i * 512 + k)) ≡ sector_byte d (start + i) k)
          × ((j : ℕ) → (j < at) ⊎ (at + nr * 512 ≤ j) → r.byte j ≡ buf.byte j)
    read_sectors_bytes buf at p room = (
      record buf { byte = blit buf.byte at (m.get d.file) (start * 512) (nr * 512) },
      ground (arith, read_sectors_lem m d start nr buf at),
      refl,
      (λ i k hi hk.
          let e : start * 512 + (at + (i * 512 + k) - at) ≡ (start + i) * 512 + k = omega arith in
          ground arith),
      (λ j side. ground arith),
    )

  pub flush-IsWf : (d : DiskImage F) → IsWf m d → IsWf m (flush_backing_file m d)
  unfolding flush_backing_file
  flush-IsWf d w = record {
    whole = laws.size-flush d.file ∙ w.whole;
    some_sector = w.some_sector;
    few = w.few;
  }

  flush_fits :
      (d : DiskImage F) (n : ℕ) → n ≤ d.sector_count → n ≤ (flush_backing_file m d).sector_count
  unfolding flush_backing_file
  flush_fits d n h = h

  sector_byte-flush :
      (d : DiskImage F) (n k : ℕ) → sector_byte (flush_backing_file m d) n k ≡ sector_byte d n k
  unfolding flush_backing_file
  sector_byte-flush d n k = laws.get-flush d.file (n * 512 + k)

  -- For sectors inside the disk, at least one, and buffers with room for them: neither call fails
  -- or goes out of bounds, and what was written is what a read after a flush returns.
  pub read_sectors-write_sectors :
      (d : DiskImage F) (start nr : ℕ) (src dst : Region) (at to : ℕ)
      → IsWf m d
      → 0 < nr
      → start + nr ≤ d.sector_count
      → at + nr * 512 ≤ src.size
      → to + nr * 512 ≤ dst.size
      → (d' : DiskImage F) × (r : Region) × (write_sectors m d start nr src at ≡ some (okay, d'))
        × (read_sectors m (flush_backing_file m d') start nr dst to ≡ some (okay, r))
        × ((i k : ℕ)
            → i < nr
            → k < 512
            → r.byte (to + (i * 512 + k)) ≡ src.byte (at + (i * 512 + k)))
  read_sectors-write_sectors d start nr src dst at to w p fits room space =
      let (d', wrote, new) = write_sectors-Replaced d start nr w fits src at p room in
      let (r, got, _, same, _) =
        read_sectors_bytes (flush_backing_file m d') start nr (flush-IsWf d' new.valid)
          (flush_fits d' (start + nr) (omega (arith, new.same_count))) dst to p space in
      (
        d',
        r,
        wrote,
        got,
        λ i k hi hk. same i k hi hk ∙ sector_byte-flush d' (start + i) k ∙ new.inside i k hi hk,
      )

  -- `readSector` and `writeSector` on a vector of one sector are `readSectors` and
  -- `writeSectors` of one sector; on a vector of another length they fail and change nothing.
  pub sector-sectors :
      (d : DiskImage F) (n : ℕ) (sector : Region)
      → IsWf m d
      → n < 2 ^ 64
      → ((sector.size ≡ 512)
          × (read_sector m d n sector ≡ read_sectors m d n 1 sector 0)
          × (write_sector m d n sector ≡ write_sectors m d n 1 sector 0))
        ⊎ ((sector.size ≢ 512)
            × (read_sector m d n sector ≡ some (error, sector))
            × (write_sector m d n sector ≡ some (error, d)))
  unfolding read_sector write_sector read_sectors write_sectors
  sector-sectors d n sector w h = elim (Bool-cases (sector.size == 512)) [
    | inl one ↦ inl (ground arith, ground arith, ground arith)
    | inr wrong ↦ inr (ground arith, ground arith, ground arith)
  ]
