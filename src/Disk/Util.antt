-- ===== src/Disk/Util.antt =====
-- disk-image-util.cpp, the program that creates a backing file.
use us_blkback.Base.{
  ℕ, ◌+◌, ◌*◌, ◌<◌, ◌≡◌, ◌≢◌, refl, Option, none, some, List, [], ◌∷◌, length, int_max, arith,
}
use us_blkback.Disk.Image.{MappedFile, DiskImage, open_image}
use us_blkback.Disk.Backing.{
  Exit, success, failure, OutStream, IsOutStream, create_backing_file,
  create_backing_file-open_image,
}

-- What is printed.
pub data Printed : Type 0 where
  usage_text : Printed

abbrev pub usage : List Printed
usage = usage_text ∷ []

module _ {S : Type 0} (out : OutStream S) where
  -- The exit code, what was printed, and the stream that was opened, if any. `strtoul` is the
  -- library's, with base 0.
  unfoldable pub util_main :
      (List ℕ → S) → (List ℕ → ℕ) → List (List ℕ) → Exit × List Printed × Option S
  util_main opened strtoul (program ∷ path ∷ count ∷ size ∷ []) =
      let r = create_backing_file out opened path (strtoul count) (strtoul size) in
      (r.0, [], some r.1)
  util_main opened strtoul _ = (failure, usage, none)

  util_main-usage :
      (opened : List ℕ → S) (strtoul : List ℕ → ℕ) (argv : List (List ℕ))
      → length argv ≢ 4
      → util_main opened strtoul argv ≡ (failure, usage, none)
  unfolding util_main
  util_main-usage opened strtoul [] h = refl
  util_main-usage opened strtoul (_ ∷ []) h = refl
  util_main-usage opened strtoul (_ ∷ _ ∷ []) h = refl
  util_main-usage opened strtoul (_ ∷ _ ∷ _ ∷ []) h = refl
  util_main-usage opened strtoul (_ ∷ _ ∷ _ ∷ _ ∷ []) h = absurd (h refl)
  util_main-usage opened strtoul (_ ∷ _ ∷ _ ∷ _ ∷ _ ∷ _) h = refl

module _ {S F : Type 0} (out : OutStream S) (out_ok : IsOutStream out) (m : MappedFile F) where
  -- With a path, a number of sectors from 1 to below INT_MAX and the size 512, the program that
  -- ends without an error leaves a file that opens, once it is mapped, as an image of as many zero
  -- sectors; with any other number of arguments it opens no file, prints the usage and fails.
  pub util_main-open_image :
      (opened : List ℕ → S) (strtoul : List ℕ → ℕ) (program path count size : List ℕ)
      (argv : List (List ℕ)) (s : S) (f : F)
      → (out.contents (opened path)).size ≡ 0
      → 0 < strtoul count
      → strtoul count < int_max
      → strtoul size ≡ 512
      → util_main out opened strtoul (program ∷ path ∷ count ∷ size ∷ []) ≡ (success, [], some s)
      → m.size f ≡ (out.contents s).size
      → ((i : ℕ) → m.get f i ≡ (out.contents s).byte i)
      → length argv ≢ 4
      → ((d : DiskImage F) × (open_image m f ≡ some d)
          × (d.sector_count ≡ strtoul count)
          × ((i k : ℕ) → i < strtoul count → k < 512 → m.get d.file (i * 512 + k) ≡ 0))
        × (util_main out opened strtoul argv ≡ (failure, usage, none))
  unfolding util_main
  util_main-open_image opened strtoul program path count size argv s f empty some_sector few whole
        ran sized bytes other =
      let r : Exit × S = create_backing_file out opened path (strtoul count) 512 in
      let did : r.0 ≡ success = ground (arith, ran, whole) in
      let left : r.1 ≡ s = ground (arith, ran, whole) in
      (
        create_backing_file-open_image out out_ok m opened path (strtoul count) f empty some_sector
            few did (rw left sized) (λ i. rw left (bytes i)),
        util_main-usage out opened strtoul argv other,
      )
