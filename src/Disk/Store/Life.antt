-- ===== src/Disk/Store/Life.antt =====
-- An image file from its creation on (DiskImage.cpp): `createBackingFile`, the constructor, any
-- calls, the destructor.
use us_blkback.Base.{ℕ, ◌/◌, ◌%◌, ◌<◌, ◌≡◌, refl, ap, ◌∙◌, Option, none, some, List, int_max, arith}
use us_blkback.Disk.Image.{MappedFile, DiskImage, open_image, close_image}
use us_blkback.Disk.Bounds.{IsMappedFile, open_image-IsWf}
use us_blkback.Disk.Backing.{
  Exit, success, OutStream, IsOutStream, create_backing_file, create_backing_file-open_image,
}
use us_blkback.Disk.Store.{Command, Reply, perform_all, answers, changes, AllSound}
use us_blkback.Disk.Store.Refinement.{Holds, flushed-Holds, perform_all-Holds}

module _ {S F : Type 0} (out : OutStream S) (m : MappedFile F) where
  -- The code of the creation, the replies, and the image when it is destroyed. `map_file` maps what
  -- the stream has written.
  unfoldable pub image_life :
      (List ℕ → S) → (S → F) → List ℕ → ℕ → List Command → Option (Exit × List Reply × DiskImage F)
  image_life opened map_file path num_sectors cs =
      let r = create_backing_file out opened path num_sectors 512 in
      elim (open_image m (map_file r.1)) [
        | none ↦ none
        | some d ↦ elim (perform_all m d cs) [
          | none ↦ none
          | some (replies, d') ↦ some (r.0, replies, close_image m d')
        ]
      ]

module _ {S F : Type 0} (out : OutStream S) (out_ok : IsOutStream out) (m : MappedFile F)
    (laws : IsMappedFile m) where
  -- An image that is created without an error with a number of sectors from 1 to below INT_MAX, and
  -- then mapped, answers any sequence of calls whose buffers have room and whose sector numbers
  -- stay below 2 ^ 64 as a store does that has only zeros at first, and has its bytes when it is
  -- destroyed; no access leaves the file or a buffer.
  pub image_life-Holds :
      (opened : List ℕ → S) (map_file : S → F) (path : List ℕ) (n : ℕ) (cs : List Command)
      → (out.contents (opened path)).size ≡ 0
      → 0 < n
      → n < int_max
      → (create_backing_file out opened path n 512).0 ≡ success
      → ((s : S) → m.size (map_file s) ≡ (out.contents s).size)
      → ((s : S) (i : ℕ) → m.get (map_file s) i ≡ (out.contents s).byte i)
      → AllSound cs
      → (d : DiskImage F) × (image_life out m opened map_file path n cs
          ≡ some (success, answers n (λ _. 0) cs, d))
        × Holds m laws n (changes n (λ _. 0) cs) d
  unfolding image_life close_image
  image_life-Holds opened map_file path n cs empty some_sector few created sizes bytes sound =
      let s : S = (create_backing_file out opened path n 512).1 in
      let (d, made, count, zeros) =
        create_backing_file-open_image out out_ok m opened path n (map_file s) empty some_sector few
          created (sizes s) (bytes s) in
      let blank : Holds m laws n (λ _. 0) d = record {
        valid = open_image-IsWf m (map_file s) d made;
        count = count;
        bytes = λ i p.
            ap (m.get d.file) (omega arith) ∙ zeros (i / 512) (i % 512) (omega arith) (omega arith);
      } in
      let (d', ran, holds) = perform_all-Holds m laws n (λ _. 0) d cs blank sound in
      (
        close_image m d',
        rw (image_life, made, ran, created) refl,
        flushed-Holds m laws n (changes n (λ _. 0) cs) d' holds,
      )
