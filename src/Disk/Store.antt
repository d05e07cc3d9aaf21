-- ===== src/Disk/Store.antt =====
-- A `DiskImage` (DiskImage.cpp) under any sequence of its operations, and the store of bytes that
-- it implements.
pub mod Refinement
pub mod Life
use us_blkback.Base.{
  ℕ, ◌+◌, ◌-◌, ◌*◌, ◌^◌, ◌≤◌, ◌<◌, ◌≡◌, refl, ap, ◌∙◌, fun_ext, Option, some, List, [], ◌∷◌, Bool,
  true, false, leb, ◌==◌, if◌then◌else◌, Bool-cases, inl, inr, ◌>>=◌, arith,
}
use us_blkback.Disk.Region.{Region, blit, blit_cong}
use us_blkback.Disk.Image.{
  MappedFile, Rsp, okay, error, DiskImage, stored, read_sector, write_sector, read_sectors,
  write_sectors, discard, flush_backing_file,
}
use us_blkback.Disk.Bounds.{IsMappedFile, IsWf, read_sectors_lem, write_sectors_lem, discard_lem}
use us_blkback.Disk.RoundTrip.{stored-IsWf, flush-IsWf, sector-sectors}

-- A call of an image, with its arguments: the first sector, the number of sectors, a buffer and
-- where in it the pointer points; for one sector its number and the vector.
pub data Command : Type 0 where
  read_at : ℕ → ℕ → Region → ℕ → Command
  write_at : ℕ → ℕ → Region → ℕ → Command
  read_one : ℕ → Region → Command
  write_one : ℕ → Region → Command
  clear_at : ℕ → ℕ → Command
  save : Command

-- What the caller has after it.
pub data Reply : Type 0 where
  got : Rsp → Region → Reply
  did : Rsp → Reply
  saved : Reply

module _ {F : Type 0} (m : MappedFile F) where
  unfoldable pub perform : DiskImage F → Command → Option (Reply × DiskImage F)
  perform d (read_at start nr buf at) =
      read_sectors m d start nr buf at >>= λ r. some (got r.0 r.1, d)
  perform d (write_at start nr buf at) =
      write_sectors m d start nr buf at >>= λ r. some (did r.0, r.1)
  perform d (read_one k sector) = read_sector m d k sector >>= λ r. some (got r.0 r.1, d)
  perform d (write_one k sector) = write_sector m d k sector >>= λ r. some (did r.0, r.1)
  perform d (clear_at start nr) = discard m d start nr >>= λ r. some (did r.0, r.1)
  perform d save = some (saved, flush_backing_file m d)

  unfoldable pub perform_all : DiskImage F → List Command → Option (List Reply × DiskImage F)
  perform_all d [] = some ([], d)
  perform_all d (c ∷ cs) = perform d c >>= λ r. perform_all r.1 cs >>= λ r'. some (r.0 ∷ r'.0, r'.1)

-- The store: bytes `f` of `n` sectors. A call beyond it is refused and changes nothing.
abbrev pub fetched : ℕ → (ℕ → ℕ) → ℕ → ℕ → Region → ℕ → Reply
fetched n f start nr buf at =
    if leb (start + nr) n
    then got okay (record buf { byte = blit buf.byte at f (start * 512) (nr * 512) })
    else got error buf

abbrev pub put_in : ℕ → (ℕ → ℕ) → ℕ → ℕ → (ℕ → ℕ) → ℕ → ℕ → ℕ
put_in n f start nr bytes at =
    if leb (start + nr) n then blit f (start * 512) bytes at (nr * 512) else f

abbrev pub within : ℕ → ℕ → ℕ → Reply
within n start nr = did (if leb (start + nr) n then okay else error)

abbrev pub answer : ℕ → (ℕ → ℕ) → Command → Reply
answer n f (read_at start nr buf at) = fetched n f start nr buf at
answer n f (write_at start nr buf at) = within n start nr
answer n f (read_one k sector) =
    if sector.size == 512 then fetched n f k 1 sector 0 else got error sector
answer n f (write_one k sector) = if sector.size == 512 then within n k 1 else did error
answer n f (clear_at start nr) = within n start nr
answer n f save = saved

abbrev pub change : ℕ → (ℕ → ℕ) → Command → ℕ → ℕ
change n f (read_at start nr buf at) = f
change n f (write_at start nr buf at) = put_in n f start nr buf.byte at
change n f (read_one k sector) = f
change n f (write_one k sector) = if sector.size == 512 then put_in n f k 1 sector.byte 0 else f
change n f (clear_at start nr) = put_in n f start nr (λ _. 0) 0
change n f save = f

abbrev pub answers : ℕ → (ℕ → ℕ) → List Command → List Reply
answers n f [] = []
answers n f (c ∷ cs) = answer n f c ∷ answers n (change n f c) cs

abbrev pub changes : ℕ → (ℕ → ℕ) → List Command → ℕ → ℕ
changes n f [] = f
changes n f (c ∷ cs) = changes n (change n f c) cs

-- The buffer has room for the sectors and the last one has a number below 2 ^ 64. A vector of one
-- sector may have any length.
abbrev pub Sound : Command → Type 0
Sound (read_at start nr buf at) = (0 < nr) × (start + nr < 2 ^ 64) × (at + nr * 512 ≤ buf.size)
Sound (write_at start nr buf at) = (0 < nr) × (start + nr < 2 ^ 64) × (at + nr * 512 ≤ buf.size)
Sound (read_one k sector) = k + 1 < 2 ^ 64
Sound (write_one k sector) = k + 1 < 2 ^ 64
Sound (clear_at start nr) = start + nr < 2 ^ 64
Sound save = Unit

abbrev pub AllSound : List Command → Type 0
AllSound [] = Unit
AllSound (c ∷ cs) = Sound c × AllSound cs
