-- ===== src/Disk/Mapped/Reopen.antt =====
-- A `DiskImage` (DiskImage.cpp) over a mapped file, from one opening of the file to the next.
use us_blkback.Base.{
  ℕ, ◌+◌, ◌*◌, ◌≤◌, ◌<◌, ◌≡◌, ◌⊎◌, sym, ap, ◌∙◌, subst, some, List, inl, inr, arith,
}
use us_blkback.Disk.Region.{Region}
use us_blkback.Disk.Image.{DiskImage, okay, open_image, write_sectors, close_image}
use us_blkback.Disk.Bounds.{IsWf, open_image_lem, open_image-IsWf, open_image-file}
use us_blkback.Disk.RoundTrip.{Replaced, write_sectors-Replaced}
use us_blkback.Disk.Mapped.Backing.{
  Backing, IsBacking, Opened, mapped_file, mapped_file-IsMappedFile,
}

module _ {S O : Type 0} (b : Backing S O) (laws : IsBacking b) (path : List ℕ) where
  -- What the constructor of the class returned.
  abbrev pub opened :
      (s : S) (o : O) (s' : S) → b.construct path s ≡ some (o, s') → Opened b laws path
  opened s o s' h = record { object = o; state = s'; live = (laws.construct-Live path o s s' h).0 }

  -- `~DiskImage`, and the destructor of the mapped file that it owns: the system after them.
  unfoldable pub destroy_image : DiskImage (Opened b laws path) → S
  unfolding close_image
  destroy_image d =
      let f = (close_image (mapped_file b laws path) d).file in b.destruct f.object f.state

  pub destroy_image_saves :
      (d : DiskImage (Opened b laws path))
      → (b.size_of (destroy_image d) path ≡ b.size d.file.object)
        × ((i : ℕ)
            → i < b.size d.file.object
            → b.byte_of (destroy_image d) path i ≡ (mapped_file b laws path).get d.file i)
  unfolding destroy_image
  destroy_image_saves d =
      let f = d.file in
      let (live, same) = laws.flush-Live path f.object f.state f.live in
      let (sized, saved) = laws.destruct_saves path f.object (b.flush f.object f.state) live in
      (sized, λ i h. saved i h ∙ same i)

  -- Opening a file again, after the image was destroyed, gives an image of as many sectors with the
  -- same bytes.
  reopened :
      (d : DiskImage (Opened b laws path)) (o : O) (s : S)
      → IsWf (mapped_file b laws path) d
      → (again : b.construct path (destroy_image d) ≡ some (o, s))
      → (d' : DiskImage (Opened b laws path)) × (open_image
            (mapped_file b laws path)
            (opened (destroy_image d) o s again)
          ≡ some d')
        × (d'.sector_count ≡ d.sector_count)
        × ((i : ℕ)
            → i < d.sector_count * 512
            → (mapped_file b laws path).get d'.file i ≡ (mapped_file b laws path).get d.file i)
  reopened d o s ok again =
      let m = mapped_file b laws path in
      let (sized, saved) = destroy_image_saves d in
      let (_, same_size, same) = laws.construct-Live path o (destroy_image d) s again in
      let whole : b.size o ≡ d.sector_count * 512 = same_size ∙ sized ∙ ok.whole in
      elim (open_image_lem m (opened (destroy_image d) o s again)) [
        | inr (bad, _) ↦ absurd (ground (arith, whole, ok.some_sector, ok.few))
        | inl (_, _, _, d', made, e, ok') ↦
            let whole' : b.size o ≡ d'.sector_count * 512 =
              sym (ap (λ x. b.size x.object) e) ∙ ok'.whole in
            (
              d',
              made,
              omega (arith, whole, whole'),
              λ i h.
                  ap (λ x. m.get x i) e
                  ∙ same i (omega (arith, whole))
                  ∙ saved i (omega (arith, ok.whole)),
            )
      ]

  -- Sectors that were written are on the disk: where the file can be opened again after the image
  -- was destroyed, the new image has them, and every other sector as it was in the file at first.
  pub write_sectors-destroy_image :
      (s s1 : S) (o : O) (first : b.construct path s ≡ some (o, s1))
      (d d1 : DiskImage (Opened b laws path)) (start nr : ℕ) (buf : Region) (at : ℕ)
      → open_image (mapped_file b laws path) (opened s o s1 first) ≡ some d
      → 0 < nr
      → start + nr ≤ d.sector_count
      → at + nr * 512 ≤ buf.size
      → write_sectors (mapped_file b laws path) d start nr buf at ≡ some (okay, d1)
      → (o2 : O) (s2 : S) (again : b.construct path (destroy_image d1) ≡ some (o2, s2))
      → (d2 : DiskImage (Opened b laws path)) × (open_image
            (mapped_file b laws path)
            (opened (destroy_image d1) o2 s2 again)
          ≡ some d2)
        × (d2.sector_count ≡ d.sector_count)
        × ((i k : ℕ)
            → i < nr
            → k < 512
            → (mapped_file b laws path).get d2.file ((start + i) * 512 + k)
              ≡ buf.byte (at + (i * 512 + k)))
        × ((n k : ℕ)
            → (n < start) ⊎ (start + nr ≤ n)
            → n < d.sector_count
            → k < 512
            → (mapped_file b laws path).get d2.file (n * 512 + k) ≡ b.byte_of s path (n * 512 + k))
  write_sectors-destroy_image s s1 o first d d1 start nr buf at made pos fits room wrote o2 s2
        again =
      let m = mapped_file b laws path in
      let good = mapped_file-IsMappedFile b laws path in
      let ok : IsWf m d = open_image-IsWf m (opened s o s1 first) d made in
      let (d', wrote', new') = write_sectors-Replaced m good d start nr ok fits buf at pos room in
      let (_, _, from_file) = laws.construct-Live path o s s1 first in
      let at_first : d.file ≡ opened s o s1 first =
        open_image-file m (opened s o s1 first) d made in
      let whole : b.size o ≡ d.sector_count * 512 =
        sym (ap (λ x. b.size x.object) at_first) ∙ ok.whole in
      let same : d' ≡ d1 = ground (arith, wrote, wrote') in
      let new = subst (Replaced m good d start nr (λ k. buf.byte (at + k))) same new' in
      let (d2, made2, count, bytes) = reopened d1 o2 s2 new.valid again in
      (
        d2,
        made2,
        count ∙ new.same_count,
        (λ i k hi hk.
            bytes ((start + i) * 512 + k) (omega (arith, new.same_count)) ∙ new.inside i k hi hk),
        (λ n k side hn hk.
            bytes (n * 512 + k) (omega (arith, new.same_count))
            ∙ new.outside n k side hn hk
            ∙ ap (λ x. m.get x (n * 512 + k)) at_first
            ∙ from_file (n * 512 + k) (omega (arith, whole))),
      )
