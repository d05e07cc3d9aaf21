-- ===== src/Disk/Backing.antt =====
-- `DiskImage::createBackingFile` (DiskImage.cpp).
use us_blkback.Base.{
  if-then, if-else, ℕ, zero, suc, ◌+◌, ◌-◌, ◌*◌, ◌<◌, ◌≡◌, refl, ap, sym, ◌∙◌, subst, some, List,
  Bool, true, false, Bool-cases, inl, inr, ltb, if◌then◌else◌, int_max, arith,
}
use us_blkback.Disk.Region.{Region}
use us_blkback.Disk.Image.{MappedFile, DiskImage, open_image}

-- The 0 and the -1 that are returned.
pub data Exit : Type 0 where
  success failure : Exit

-- A `std::ofstream` in a state `S`: `write` also tells whether the stream is still good, and
-- `contents` is what was written to the file.
pub record OutStream (S : Type 0) : Type 0 where
  pub write : S → Region → Bool × S
  pub contents : S → Region

-- A write that leaves the stream good has appended the buffer.
pub record IsOutStream {S : Type 0} (out : OutStream S) : Type 0 where
  pub size-write :
      (s : S) (r : Region)
      → (out.write s r).0 ≡ true
      → (out.contents (out.write s r).1).size ≡ (out.contents s).size + r.size
  pub byte-write :
      (s : S) (r : Region) (i : ℕ)
      → (out.write s r).0 ≡ true
      → (out.contents (out.write s r).1).byte i ≡ (
          if ltb i (out.contents s).size
          then (out.contents s).byte i
          else r.byte (i - (out.contents s).size))

module _ {S : Type 0} (out : OutStream S) where
  abbrev zeros : ℕ → Region
  zeros n = record { size = n; byte = λ _. 0 }

  -- The loop, by the rounds that are left.
  unfoldable pub create_loop : ℕ → ℕ → S → Exit × S
  create_loop zero sector_size s = (success, s)
  create_loop (suc n) sector_size s = elim (out.write s (zeros sector_size)).0 [
    | true ↦ create_loop n sector_size (out.write s (zeros sector_size)).1
    | false ↦ (failure, (out.write s (zeros sector_size)).1)
  ]

  -- `open` truncates the file of that name; where it fails, no write succeeds.
  unfoldable pub create_backing_file : (List ℕ → S) → List ℕ → ℕ → ℕ → Exit × S
  create_backing_file opened path num_sectors sector_size =
      create_loop num_sectors sector_size (opened path)

  create_loop-good :
      (n sector_size : ℕ) (s : S)
      → (out.write s (zeros sector_size)).0 ≡ true
      → create_loop (suc n) sector_size s
        ≡ create_loop n sector_size (out.write s (zeros sector_size)).1
  unfolding create_loop
  create_loop-good n sector_size s good = rw (create_loop, good) refl

  create_loop-bad :
      (n sector_size : ℕ) (s : S)
      → (out.write s (zeros sector_size)).0 ≡ false
      → (create_loop (suc n) sector_size s).0 ≡ failure
  unfolding create_loop
  create_loop-bad n sector_size s bad = rw (create_loop, bad) refl

  -- Every byte of what the stream has in the state `s` is 0.
  abbrev Blank : S → Type 0
  Blank s = (i : ℕ) → i < (out.contents s).size → (out.contents s).byte i ≡ 0

  module _ (out_ok : IsOutStream out) where
    Blank-write :
        (n : ℕ) (s : S)
        → (out.write s (zeros n)).0 ≡ true
        → Blank s
        → Blank (out.write s (zeros n)).1
    Blank-write n s good z i h =
        out_ok.byte-write s (zeros n) i good ∙ elim (Bool-cases (ltb i (out.contents s).size)) [
          | inl old ↦ if-then (ltb i (out.contents s).size) _ _ old ∙ z i (ground arith)
          | inr new ↦ if-else (ltb i (out.contents s).size) _ _ new
        ]

    pub create_loop-zeros :
        (n sector_size : ℕ) (s : S)
        → (create_loop n sector_size s).0 ≡ success
        → Blank s
        → ((out.contents (create_loop n sector_size s).1).size
            ≡ (out.contents s).size + n * sector_size)
          × Blank (create_loop n sector_size s).1
    unfolding create_loop
    create_loop-zeros zero sector_size s h z = (omega arith, z)
    create_loop-zeros (suc n) sector_size s h z =
        elim (Bool-cases (out.write s (zeros sector_size)).0) [
          | inr bad ↦ absurd (ground (arith, h, create_loop-bad n sector_size s bad))
          | inl good ↦
              let next : S = (out.write s (zeros sector_size)).1 in
              let e = create_loop-good n sector_size s good in
              let (sized, blank) =
                create_loop-zeros n sector_size next (ap (λ x. x.0) (sym e) ∙ h)
                  (Blank-write sector_size s good z) in
              let grown = out_ok.size-write s (zeros sector_size) good in
              (
                ap (λ x. (out.contents x.1).size) e ∙ grind (arith, sized, grown),
                subst (λ x. Blank x.1) (sym e) blank,
              )
        ]

module _ {S F : Type 0} (out : OutStream S) (out_ok : IsOutStream out) (m : MappedFile F) where
  -- A backing file that was created without an error, with 512-byte sectors, at least one and
  -- fewer than INT_MAX, is accepted by the constructor of `DiskImage` once it is mapped: it has
  -- that many sectors, all zero.
  pub create_backing_file-open_image :
      (opened : List ℕ → S) (path : List ℕ) (n : ℕ) (f : F)
      → (out.contents (opened path)).size ≡ 0
      → 0 < n
      → n < int_max
      → (create_backing_file out opened path n 512).0 ≡ success
      → m.size f ≡ (out.contents (create_backing_file out opened path n 512).1).size
      → ((i : ℕ) → m.get f i ≡ (out.contents (create_backing_file out opened path n 512).1).byte i)
      → (d : DiskImage F) × (open_image m f ≡ some d)
        × (d.sector_count ≡ n)
        × ((i k : ℕ) → i < n → k < 512 → m.get d.file (i * 512 + k) ≡ 0)
  unfolding create_backing_file open_image
  create_backing_file-open_image opened path n f empty some_sector few ran size bytes =
      let (sized, blank) =
        create_loop-zeros out out_ok n 512 (opened path) ran (λ i h. absurd (omega arith)) in
      let whole : m.size f ≡ n * 512 = size ∙ sized ∙ omega arith in
      (
        record { file = f; sector_count = n },
        ground arith,
        refl,
        λ i k h h'. bytes (i * 512 + k) ∙ blank (i * 512 + k) (omega arith),
      )
