-- ===== src/UnitTests/Rules.antt =====
-- Rules for the unit tests: what a write, a read and a condition leave to prove.
use us_blkback.Base.{ℕ, zero, suc, ◌≤◌, ◌<◌, ◌≡◌, refl, ap, ◌∙◌, some, Bool, true, inl, inr, arith}
use us_blkback.Disk.Region.{Region}
use us_blkback.Disk.Image.{MappedFile, Rsp, okay, error, DiskImage, read_sector, write_sector}
use us_blkback.Disk.Bounds.{IsMappedFile, IsWf}
use us_blkback.Disk.RoundTrip.{
  sector_byte, read_sectors_bytes, write_sectors-Replaced, sector-sectors,
}
use us_blkback.UnitTests.{Case, ◌>>=◌, ◌>>◌, require, read, write, equal, equal_upto}

equal_upto_lem : (n : ℕ) (f g : ℕ → ℕ) → ((k : ℕ) → k < n → f k ≡ g k) → equal_upto n f g ≡ true
equal_upto_lem zero f g h = refl
equal_upto_lem (suc n) f g h =
    let e : f n ≡ g n = h n (omega arith) in
    let ih : equal_upto n f g ≡ true = equal_upto_lem n f g (λ k p. h k (omega arith)) in
    ground arith

pub equal_lem : (a b : Region) → ((k : ℕ) → k < 512 → a.byte k ≡ b.byte k) → equal a b ≡ true
unfolding equal
equal_lem a b h = equal_upto_lem 512 a.byte b.byte h

module _ {F : Type 0} (m : MappedFile F) (laws : IsMappedFile m) where
  -- What holds of the image between two steps of a test.
  pub record Ready (d : DiskImage F) : Type 0 where
    pub valid : IsWf m d
    pub sectors : d.sector_count ≡ 1024

  -- The test passes on the image, with no access out of bounds, and leaves it ready.
  abbrev pub Passes : Case F (Unit {0}) → DiskImage F → Type 0
  Passes t d = (d' : DiskImage F) × (t d ≡ some (some tt, d')) × Ready d'

  pub Passes-require :
      (b : Bool) (t : Case F (Unit {0})) (d : DiskImage F)
      → b ≡ true
      → Passes t d
      → Passes (require b >> t) d
  Passes-require b t d e p = rw (◌>>◌, e) p

  -- A read of one sector inside the image.
  pub read_sector-Ready :
      (n : ℕ) (v : Region) (d : DiskImage F)
      → Ready d
      → n < 1024
      → v.size ≡ 512
      → (r : Region) × (read_sector m d n v ≡ some (okay, r))
        × (r.size ≡ 512)
        × ((k : ℕ) → k < 512 → r.byte k ≡ sector_byte m laws d n k)
  read_sector-Ready n v d ok inside size =
      let (r, got, same_size, same, _) =
        read_sectors_bytes m laws d n 1 ok.valid (omega (arith, ok.sectors)) v 0 (omega arith)
          (omega arith) in
      (
        r,
        elim (sector-sectors m laws d n v ok.valid (omega arith)) [
          | inl (_, one, _) ↦ one ∙ got
          | inr (wrong, _, _) ↦ absurd (wrong size)
        ],
        same_size ∙ size,
        λ k h.
            ap r.byte (omega arith)
            ∙ same 0 k (omega arith) h
            ∙ ap (λ x. sector_byte m laws d x k) (omega arith),
      )

  -- A write of one sector inside the image.
  pub write_sector-Ready :
      (n : ℕ) (v : Region) (d : DiskImage F)
      → Ready d
      → n < 1024
      → v.size ≡ 512
      → (d' : DiskImage F) × (write_sector m d n v ≡ some (okay, d'))
        × Ready d'
        × ((k : ℕ) → k < 512 → sector_byte m laws d' n k ≡ v.byte k)
  write_sector-Ready n v d ok inside size =
      let (d', wrote, new) =
        write_sectors-Replaced m laws d n 1 ok.valid (omega (arith, ok.sectors)) v 0 (omega arith)
          (omega arith) in
      (
        d',
        elim (sector-sectors m laws d n v ok.valid (omega arith)) [
          | inl (_, _, one) ↦ one ∙ wrote
          | inr (wrong, _, _) ↦ absurd (wrong size)
        ],
        record { valid = new.valid; sectors = new.same_count ∙ ok.sectors },
        λ k h.
            ap (λ x. sector_byte m laws d' x k) (omega arith)
            ∙ new.inside 0 k (omega arith) h
            ∙ ap v.byte (omega arith),
      )

  pub Passes-read :
      (n : ℕ) (v : Region) (t : Rsp × Region → Case F (Unit {0})) (d : DiskImage F)
      → Ready d
      → n < 1024
      → v.size ≡ 512
      → ((r : Region)
          → r.size ≡ 512
          → ((k : ℕ) → k < 512 → r.byte k ≡ sector_byte m laws d n k)
          → Passes (t (okay, r)) d)
      → Passes (read m n v >>= t) d
  unfolding read
  Passes-read n v t d ok inside size rest =
      let (r, e, sized, same) = read_sector-Ready n v d ok inside size in
      rw (◌>>=◌, e) (rest r sized same)

  pub Passes-write :
      (n : ℕ) (v : Region) (t : Rsp → Case F (Unit {0})) (d : DiskImage F)
      → Ready d
      → n < 1024
      → v.size ≡ 512
      → ((d' : DiskImage F)
          → Ready d'
          → ((k : ℕ) → k < 512 → sector_byte m laws d' n k ≡ v.byte k)
          → Passes (t okay) d')
      → Passes (write m n v >>= t) d
  unfolding write
  Passes-write n v t d ok inside size rest =
      let (d', e, ready, new) = write_sector-Ready n v d ok inside size in
      rw (◌>>=◌, e) (rest d' ready new)

  pub Passes-read_beyond :
      (n : ℕ) (v : Region) (t : Rsp × Region → Case F (Unit {0})) (d : DiskImage F)
      → Ready d
      → 1024 ≤ n
      → Passes (t (error, v)) d
      → Passes (read m n v >>= t) d
  unfolding read read_sector
  Passes-read_beyond n v t d ok beyond rest =
      let e : read_sector m d n v ≡ some (error, v) = ground (arith, ok.sectors) in
      rw (◌>>=◌, e) rest

  pub Passes-write_beyond :
      (n : ℕ) (v : Region) (t : Rsp → Case F (Unit {0})) (d : DiskImage F)
      → Ready d
      → 1024 ≤ n
      → Passes (t error) d
      → Passes (write m n v >>= t) d
  unfolding write write_sector
  Passes-write_beyond n v t d ok beyond rest =
      let e : write_sector m d n v ≡ some (error, d) = ground (arith, ok.sectors) in
      rw (◌>>=◌, e) rest

  pub Passes-then :
      (t u : Case F (Unit {0})) (d : DiskImage F)
      → Passes t d
      → ((d' : DiskImage F) → Ready d' → Passes u d')
      → Passes (t >> u) d
  Passes-then t u d (d', ran, ok) rest = rw (◌>>◌, ran) (rest d' ok)
