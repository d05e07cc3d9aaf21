-- ===== src/Disk/Store/Refinement.antt =====
-- A `DiskImage` (DiskImage.cpp) implements a store of bytes.
use us_blkback.Base.{
  ℕ, ◌+◌, ◌-◌, ◌*◌, ◌^◌, ◌≤◌, ◌<◌, ◌≡◌, refl, ap, ◌∙◌, fun_ext, some, List, [], ◌∷◌, Bool, true,
  false, leb, if◌then◌else◌, Bool-cases, inl, inr, arith,
}
use us_blkback.Disk.Region.{Region, blit, blit_cong}
use us_blkback.Disk.Image.{MappedFile, DiskImage, stored, flush_backing_file}
use us_blkback.Disk.Bounds.{IsMappedFile, IsWf, read_sectors_lem, write_sectors_lem, discard_lem}
use us_blkback.Disk.RoundTrip.{stored-IsWf, flush-IsWf, sector-sectors}
use us_blkback.Disk.Store.{
  Command, read_at, write_at, read_one, write_one, clear_at, save, perform, perform_all, fetched,
  put_in, within, answer, change, answers, changes, Sound, AllSound,
}

module _ {F : Type 0} (m : MappedFile F) (laws : IsMappedFile m) where
  -- The image has the bytes of the store.
  pub record Holds (n : ℕ) (f : ℕ → ℕ) (d : DiskImage F) : Type 0 where
    pub valid : IsWf m d
    pub count : d.sector_count ≡ n
    pub bytes : (i : ℕ) → i < n * 512 → m.get d.file i ≡ f i

  blitted-Holds :
      (n : ℕ) (f : ℕ → ℕ) (d : DiskImage F) (start nr at : ℕ) (g : ℕ → ℕ)
      → Holds n f d
      → Holds n
          (blit f start g at nr)
          (stored m d (record { size = m.size d.file; byte = blit (m.get d.file) start g at nr }))
  blitted-Holds n f d start nr at g h = record {
    valid =
        stored-IsWf m laws d
          (record { size = m.size d.file; byte = blit (m.get d.file) start g at nr }) h.valid;
    count = h.count;
    bytes = λ i p.
        laws.get-put d.file _ i (omega (arith, h.valid.whole, h.count))
        ∙ blit_cong (m.get d.file) f g g start at nr i (h.bytes i p) (λ _ _. refl);
  }

  same_buffer :
      (n : ℕ) (f : ℕ → ℕ) (d : DiskImage F) (start nr at : ℕ) (buf : Region)
      → Holds n f d
      → start + nr ≤ n
      → record buf { byte = blit buf.byte at (m.get d.file) (start * 512) (nr * 512) }
        ≡ record buf { byte = blit buf.byte at f (start * 512) (nr * 512) }
  same_buffer n f d start nr at buf h fits =
      ap (λ g. record buf { byte = g })
        (fun_ext λ k.
          blit_cong buf.byte buf.byte (m.get d.file) f at (start * 512) (nr * 512) k refl
            (λ low high. h.bytes (start * 512 + (k - at)) (omega arith)))

  Holds-then :
      (n : ℕ) (f g : ℕ → ℕ) (d : DiskImage F) (b : Bool)
      → b ≡ true
      → Holds n f d
      → Holds n (if b then f else g) d
  Holds-then n f g d b e h = rw e h

  Holds-else :
      (n : ℕ) (f g : ℕ → ℕ) (d : DiskImage F) (b : Bool)
      → b ≡ false
      → Holds n g d
      → Holds n (if b then f else g) d
  Holds-else n f g d b e h = rw e h

  pub flushed-Holds :
      (n : ℕ) (f : ℕ → ℕ) (d : DiskImage F) → Holds n f d → Holds n f (flush_backing_file m d)
  unfolding flush_backing_file
  flushed-Holds n f d h = record {
    valid = flush-IsWf m laws d h.valid;
    count = h.count;
    bytes = λ i p. laws.get-flush d.file i ∙ h.bytes i p;
  }

  read_at-Holds :
      (n : ℕ) (f : ℕ → ℕ) (d : DiskImage F) (start nr : ℕ) (buf : Region) (at : ℕ)
      → Holds n f d
      → 0 < nr
      → start + nr < 2 ^ 64
      → at + nr * 512 ≤ buf.size
      → (d' : DiskImage F) × (perform m d (read_at start nr buf at)
          ≡ some (fetched n f start nr buf at, d'))
        × Holds n f d'
  unfolding perform
  read_at-Holds n f d start nr buf at h p q r = elim (Bool-cases (leb (start + nr) n)) [
    | inl fits ↦
        let same = same_buffer n f d start nr at buf h (ground (arith, fits)) in
        (
          d,
          ground (
            arith,
            read_sectors_lem m d start nr buf at h.valid p (omega arith) r,
            h.count,
            fits,
            same,
          ),
          h,
        )
    | inr beyond ↦ (
      d,
      ground
          (arith, read_sectors_lem m d start nr buf at h.valid p (omega arith) r, h.count, beyond),
      h,
    )
  ]

  write_at-Holds :
      (n : ℕ) (f : ℕ → ℕ) (d : DiskImage F) (start nr : ℕ) (buf : Region) (at : ℕ)
      → Holds n f d
      → 0 < nr
      → start + nr < 2 ^ 64
      → at + nr * 512 ≤ buf.size
      → (d' : DiskImage F) × (perform m d (write_at start nr buf at) ≡ some (within n start nr, d'))
        × Holds n (put_in n f start nr buf.byte at) d'
  unfolding perform
  write_at-Holds n f d start nr buf at h p q r =
      let e = write_sectors_lem m d start nr buf at h.valid p (omega arith) r in
      elim (Bool-cases (leb (start + nr) n)) [
        | inl fits ↦ (
          stored m d (record {
            size = m.size d.file;
            byte = blit (m.get d.file) (start * 512) buf.byte at (nr * 512);
          }),
          ground (arith, e, h.count, fits),
          Holds-then n _ f _ _ fits (blitted-Holds n f d (start * 512) (nr * 512) at buf.byte h),
        )
        | inr beyond ↦ (d, ground (arith, e, h.count, beyond), Holds-else n _ f d _ beyond h)
      ]

  perform-Holds :
      (n : ℕ) (f : ℕ → ℕ) (d : DiskImage F) (c : Command)
      → Holds n f d
      → Sound c
      → (d' : DiskImage F) × (perform m d c ≡ some (answer n f c, d')) × Holds n (change n f c) d'
  unfolding perform
  perform-Holds n f d (read_at start nr buf at) h (p, q, r) =
      read_at-Holds n f d start nr buf at h p q r
  perform-Holds n f d (write_at start nr buf at) h (p, q, r) =
      write_at-Holds n f d start nr buf at h p q r
  perform-Holds n f d (read_one k sector) h p =
      elim (sector-sectors m laws d k sector h.valid (omega arith)) [
        | inl (one, same, _) ↦
            let (d', ran, h') =
              read_at-Holds n f d k 1 sector 0 h (omega arith) p (omega (arith, one)) in
            (d', ground (arith, one, same, ran), h')
        | inr (other, refused, _) ↦ (d, ground (arith, other, refused), h)
      ]
  perform-Holds n f d (write_one k sector) h p =
      elim (sector-sectors m laws d k sector h.valid (omega arith)) [
        | inl (one, _, same) ↦
            let (d', ran, h') =
              write_at-Holds n f d k 1 sector 0 h (omega arith) p (omega (arith, one)) in
            (
              d',
              ground (arith, one, same, ran),
              Holds-then n (put_in n f k 1 sector.byte 0) f d' _ (ground (arith, one)) h',
            )
        | inr (other, _, refused) ↦ (
          d,
          ground (arith, other, refused),
          Holds-else n (put_in n f k 1 sector.byte 0) f d _ (ground (arith, other)) h,
        )
      ]
  perform-Holds n f d (clear_at start nr) h p =
      let e = discard_lem m d start nr h.valid p in
      elim (Bool-cases (leb (start + nr) n)) [
        | inl fits ↦ (
          stored m d (record {
            size = m.size d.file;
            byte = blit (m.get d.file) (start * 512) (λ _. 0) 0 (nr * 512);
          }),
          ground (arith, e, h.count, fits),
          Holds-then n _ f _ _ fits (blitted-Holds n f d (start * 512) (nr * 512) 0 (λ _. 0) h),
        )
        | inr beyond ↦ (d, ground (arith, e, h.count, beyond), Holds-else n _ f d _ beyond h)
      ]
  perform-Holds n f d save h _ = (flush_backing_file m d, refl, flushed-Holds n f d h)

  -- An image that has the bytes of a store implements it: under any sequence of calls whose buffers
  -- have room and whose sector numbers stay below 2 ^ 64, no access leaves the file or a buffer,
  -- each reply is the store's, calls beyond its end included, and the image has its bytes again.
  pub perform_all-Holds :
      (n : ℕ) (f : ℕ → ℕ) (d : DiskImage F) (cs : List Command)
      → Holds n f d
      → AllSound cs
      → (d' : DiskImage F) × (perform_all m d cs ≡ some (answers n f cs, d'))
        × Holds n (changes n f cs) d'
  unfolding perform_all
  perform_all-Holds n f d [] h sound = (d, refl, h)
  perform_all-Holds n f d (c ∷ cs) h (sound, rest) =
      let (d1, first, h1) = perform-Holds n f d c h sound in
      let (d2, all, h2) = perform_all-Holds n (change n f c) d1 cs h1 rest in
      (d2, rw (first, all) refl, h2)
