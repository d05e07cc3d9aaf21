-- ===== src/Disk/Mapped/Choice.antt =====
-- Which class an image maps its file with: `memmapfile` (DiskImage.cpp) names one, and
-- MemoryMappedFile.h declares one, each by the test for `_WIN32`.
use us_blkback.Base.{ℕ, ◌<◌, ◌≡◌, refl, Option, none, some, List}
use us_blkback.Disk.Image.{DiskImage}
use us_blkback.Program.{Platform, linux, windows}
use us_blkback.Disk.Mapped.{Posix, Win32}
use us_blkback.Disk.Mapped.Laws.{IsPosix, IsWin32}
use us_blkback.Disk.Mapped.Backing.{Backing, IsBacking, Opened, mapped_file}
use us_blkback.Disk.Mapped.Unix as Unix
use us_blkback.Disk.Mapped.Windows as Windows
use us_blkback.Disk.Mapped.Reopen.{destroy_image, destroy_image_saves}

data ClassName : Type 0 where
  unix_memory_mapped_file win_memory_mapped_file : ClassName

abbrev memmapfile : Platform → ClassName
memmapfile linux = unix_memory_mapped_file
memmapfile windows = win_memory_mapped_file

-- A class, with what it promises.
record Class : Type 1 where
  State : Type 0
  Object : Type 0
  backing : Backing State Object
  laws : IsBacking backing

module _ {S T : Type 0} (posix : Posix S) (posix_laws : IsPosix posix) (win32 : Win32 T)
    (win32_laws : IsWin32 win32) where
  -- The class of a name, which is declared on its own platform only.
  abbrev declared : Platform → ClassName → Option Class
  declared linux unix_memory_mapped_file = some (record {
    State = S;
    Object = _;
    backing = Unix.unix posix posix_laws;
    laws = Unix.unix-IsBacking posix posix_laws;
  })
  declared windows win_memory_mapped_file = some (record {
    State = T;
    Object = _;
    backing = Windows.windows win32 win32_laws;
    laws = Windows.windows-IsBacking win32 win32_laws;
  })
  declared linux win_memory_mapped_file = none
  declared windows unix_memory_mapped_file = none

  memmapfile-declared : (p : Platform) → (c : Class) × (declared p (memmapfile p) ≡ some c)
  memmapfile-declared linux = (_, refl)
  memmapfile-declared windows = (_, refl)

  -- On either platform the name is that of a class that is declared, and the file has the bytes of
  -- the image after the image was destroyed.
  destroy_image-memmapfile :
      (p : Platform) (path : List ℕ)
      → let c = (memmapfile-declared p).0 in
        (declared p (memmapfile p) ≡ some c)
        × ((d : DiskImage (Opened c.backing c.laws path))
            → (c.backing.size_of (destroy_image c.backing c.laws path d) path
                ≡ c.backing.size d.file.object)
              × ((i : ℕ)
                  → i < c.backing.size d.file.object
                  → c.backing.byte_of (destroy_image c.backing c.laws path d) path i
                    ≡ (mapped_file c.backing c.laws path).get d.file i))
  destroy_image-memmapfile p path =
      let c = (memmapfile-declared p).0 in
      ((memmapfile-declared p).1, λ d. destroy_image_saves c.backing c.laws path d)
