-- ===== src/Tests/Mapped.antt =====
-- A file that is mapped on either system, and sectors that are written, saved and read again.
use us_blkback.Base.{
  ℕ, ◌+◌, ◌*◌, ◌≤◌, ◌<◌, ◌≡◌, ◌⊎◌, refl, Option, none, some, List, [], ◌∷◌, pos, negsuc, arith,
}
use us_blkback.Disk.Region.{Region, memcpy, blit}
use us_blkback.Disk.Image.{
  MappedFile, flush_backing_file, close_image, DiskImage, okay, open_image, write_sectors, stored,
}
use us_blkback.Disk.Mapped.{
  UnixMemoryMappedFile, WinMemoryMappedFile, map_unix, unmap_unix, flush_unix, map_windows,
  view_windows, unmap_windows,
}
use us_blkback.Disk.Mapped.Backing.{Backing, IsBacking, Opened, mapped_file}
use us_blkback.Disk.Mapped.Unix.{unix, unix-IsBacking, unmap_unix-map_unix}
use us_blkback.Disk.Mapped.Windows.{unmap_windows-map_windows}
use us_blkback.Disk.Mapped.Reopen.{opened, destroy_image, write_sectors-destroy_image}
use us_blkback.Tests.Systems.{System, posix, posix_ok, win32, win32_ok, system}

abbrev path : List ℕ
path = 47 ∷ []

abbrev object_of {ℓ κ} : {A : Type ℓ} {B : Type κ} → Option (A × B) → A → A
object_of none a = a
object_of (some (a, _)) _ = a

abbrev state_of {ℓ κ} : {A : Type ℓ} {B : Type κ} → Option (A × B) → B → B
state_of none b = b
state_of (some (_, b)) _ = b

abbrev no_object : UnixMemoryMappedFile
no_object = record { fd = negsuc 0; size = 0; ptr = 0 }

abbrev object1 : UnixMemoryMappedFile
object1 = record { fd = pos 0; size = 8192; ptr = 1 }

abbrev state1 : System
state1 = state_of (map_unix posix path system) system

first : map_unix posix path system ≡ some (object1, state1)
unfolding map_unix
first = refl

abbrev image1 : DiskImage (Opened (unix posix posix_ok) (unix-IsBacking posix posix_ok) path)
image1 = record {
  file =
      opened (unix posix posix_ok) (unix-IsBacking posix posix_ok) path system object1 state1 first;
  sector_count = 16;
}

abbrev ones : Region
ones = record { size = 1024; byte = λ _. 1 }

unmap_unix-map_unix_example :
    ◌≡◌ {A = ℕ} 8192 8192
    × ((i : ℕ) → i < 8192 → posix.load state1 1 i ≡ i)
    × ((i : ℕ)
        → i < 8192
        → posix.byte_of (unmap_unix posix object1 (posix.store state1 1 8192 (λ _. 9))) path i ≡ 9)
    × (posix.opened (unmap_unix posix object1 (posix.store state1 1 8192 (λ _. 9))) (pos 0) ≡ none)
    × (posix.mapping (unmap_unix posix object1 (posix.store state1 1 8192 (λ _. 9))) 1 ≡ none)
unmap_unix-map_unix_example =
    unmap_unix-map_unix posix posix_ok path object1 system state1 (λ _. 9) first

abbrev object3 : WinMemoryMappedFile
object3 = record { file = 0; file_view = 1; size = 8192; ptr = 2 }

abbrev state3 : System
state3 = state_of (map_windows win32 path system) system

on_windows : map_windows win32 path system ≡ some (object3, state3)
unfolding map_windows view_windows
on_windows = refl

unmap_windows-map_windows_example :
    ◌≡◌ {A = ℕ} 8192 8192
    × ((i : ℕ) → i < 8192 → win32.load state3 2 i ≡ i)
    × ((i : ℕ)
        → i < 8192
        → win32.byte_of (unmap_windows win32 object3 (win32.store state3 2 8192 (λ _. 9))) path i
          ≡ 9)
    × (win32.opened (unmap_windows win32 object3 (win32.store state3 2 8192 (λ _. 9))) 0 ≡ none)
    × (win32.section (unmap_windows win32 object3 (win32.store state3 2 8192 (λ _. 9))) 1 ≡ none)
    × (win32.view (unmap_windows win32 object3 (win32.store state3 2 8192 (λ _. 9))) 2 ≡ none)
unmap_windows-map_windows_example =
    unmap_windows-map_windows win32 win32_ok path object3 system state3 (λ _. 9) on_windows

abbrev on_disk : Backing System UnixMemoryMappedFile
on_disk = unix posix posix_ok

abbrev on_disk_ok : IsBacking on_disk
on_disk_ok = unix-IsBacking posix posix_ok

abbrev mapped : MappedFile (Opened on_disk on_disk_ok path)
mapped = mapped_file on_disk on_disk_ok path

-- Sectors 14 and 15 are written.
abbrev image2 : DiskImage (Opened on_disk on_disk_ok path)
image2 =
    stored mapped image1
      (record { size = 8192; byte = blit (mapped.get image1.file) 7168 ones.byte 0 1024 })

abbrev object2 : UnixMemoryMappedFile
object2 = object_of (map_unix posix path (destroy_image on_disk on_disk_ok path image2)) no_object

abbrev state2 : System
state2 = state_of (map_unix posix path (destroy_image on_disk on_disk_ok path image2)) system

second : map_unix posix path (destroy_image on_disk on_disk_ok path image2) ≡ some (object2, state2)
unfolding map_unix unmap_unix flush_unix destroy_image close_image flush_backing_file
second = refl

opens : open_image mapped image1.file ≡ some image1
unfolding open_image
opens = refl

writes : write_sectors mapped image1 14 2 ones 0 ≡ some (okay, image2)
unfolding write_sectors memcpy
writes = refl

write_sectors-destroy_image_example :
    (d2 : DiskImage (Opened on_disk on_disk_ok path)) × (open_image mapped (
        opened on_disk on_disk_ok path
          (destroy_image on_disk on_disk_ok path image2)
          object2
          state2
          second)
      ≡ some d2)
    × (d2.sector_count ≡ 16)
    × ((i k : ℕ) → i < 2 → k < 512 → mapped.get d2.file ((14 + i) * 512 + k) ≡ 1)
    × ((n k : ℕ)
        → (n < 14) ⊎ (14 + 2 ≤ n)
        → n < 16
        → k < 512
        → mapped.get d2.file (n * 512 + k) ≡ n * 512 + k)
write_sectors-destroy_image_example =
    write_sectors-destroy_image on_disk on_disk_ok path system state1 object1 first image1 image2 14
      2 ones 0 opens (omega arith) (omega arith) (omega arith) writes object2 state2 second
