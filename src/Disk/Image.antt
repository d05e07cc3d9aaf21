-- ===== src/Disk/Image.antt =====
-- DiskImage.h and DiskImage.cpp, over the interface of MemoryMappedFile.h.
use us_blkback.Base.{
  ℕ, ◌+◌, ◌-◌, ◌*◌, ◌/◌, ◌%◌, ◌^◌, Option, none, some, not, ltb, leb, ◌==◌, if◌then◌else◌, u64,
  int_max, ◌>>=◌,
}
use us_blkback.Disk.Region.{Region, memcpy, memset}

-- `class MemoryMappedFile`, for any state `F` of an implementation. `get` reads the bytes behind
-- the pointer that `get()` returns, and `put` is what is there after stores through it.
pub record MappedFile (F : Type 0) : Type 0 where
  pub get : F → ℕ → ℕ
  pub put : F → (ℕ → ℕ) → F
  pub flush : F → F
  pub size : F → ℕ

-- BLKIF_RSP_OKAY, BLKIF_RSP_ERROR and BLKIF_RSP_EOPNOTSUPP.
pub data Rsp : Type 0 where
  okay error eopnotsupp : Rsp

abbrev pub sector_size : ℕ
sector_size = 512

pub record DiskImage (F : Type 0) : Type 0 where
  pub file : F
  pub sector_count : ℕ

module _ {F : Type 0} (m : MappedFile F) where
  -- The mapped file as a block of memory.
  abbrev pub region : DiskImage F → Region
  region d = record { size = m.size d.file; byte = m.get d.file }

  abbrev pub stored : DiskImage F → Region → DiskImage F
  stored d r = record d { file = m.put d.file r.byte }

  -- The constructor. `none` is `std::terminate`, which a `throw;` outside a handler calls.
  unfoldable pub open_image : F → Option (DiskImage F)
  open_image f =
      if m.size f == 0
      then none
      else if not (m.size f % sector_size == 0)
      then none
      else let count = m.size f / sector_size in
        if leb int_max count then none else some (record { file = f; sector_count = count })

  -- In these four, `none` is undefined behaviour: a copy that leaves the file or the buffer.
  unfoldable pub read_sector : DiskImage F → ℕ → Region → Option (Rsp × Region)
  unfolding memcpy
  read_sector d n sector =
      if not (sector.size == sector_size)
      then some (error, sector)
      else if leb d.sector_count n
      then some (error, sector)
      else (memcpy sector 0 (region d) (u64 (n * sector_size)) sector.size >>= λ r. some (okay, r))

  unfoldable pub write_sector : DiskImage F → ℕ → Region → Option (Rsp × DiskImage F)
  unfolding memcpy
  write_sector d n sector =
      if not (sector.size == sector_size)
      then some (error, d)
      else if leb d.sector_count n
      then some (error, d)
      else (memcpy (region d) (u64 (n * sector_size)) sector 0 sector.size >>= λ r.
          some (okay, stored d r))

  -- `buffer` points to offset `at` of the block `buf`.
  unfoldable pub read_sectors : DiskImage F → ℕ → ℕ → Region → ℕ → Option (Rsp × Region)
  unfolding memcpy
  read_sectors d start nr buf at =
      let last = u64 (start + nr + (2 ^ 64 - 1)) in
      if leb d.sector_count last
      then some (error, buf)
      else (memcpy buf at (region d) (u64 (start * sector_size)) (u64 (nr * sector_size)) >>= λ r.
          some (okay, r))

  unfoldable pub write_sectors : DiskImage F → ℕ → ℕ → Region → ℕ → Option (Rsp × DiskImage F)
  unfolding memcpy
  write_sectors d start nr buf at =
      let last = u64 (start + nr + (2 ^ 64 - 1)) in
      if leb d.sector_count last
      then some (error, d)
      else (memcpy (region d) (u64 (start * sector_size)) buf at (u64 (nr * sector_size)) >>= λ r.
          some (okay, stored d r))

  unfoldable pub discard : DiskImage F → ℕ → ℕ → Option (Rsp × DiskImage F)
  unfolding memset
  discard d start nr =
      if ltb d.sector_count (u64 (start + nr))
      then some (error, d)
      else (memset (region d) (u64 (start * sector_size)) 0 (u64 (nr * sector_size)) >>= λ r.
          some (okay, stored d r))

  unfoldable pub flush_backing_file : DiskImage F → DiskImage F
  flush_backing_file d = record d { file = m.flush d.file }

  -- The destructor.
  unfoldable pub close_image : DiskImage F → DiskImage F
  unfolding flush_backing_file
  close_image d = flush_backing_file d
