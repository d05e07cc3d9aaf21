-- ===== src/Tests/Disk.antt =====
-- The properties of the disk image and of the limits, at concrete inputs.
use us_blkback.Base.{
  true, ltb, if◌then◌else◌, ◌-◌, List, [], ◌∷◌, ℕ, ◌+◌, ◌*◌, ◌≤◌, ◌<◌, ◌≡◌, ◌≢◌, refl, ◌⊎◌, none,
  some, arith,
}
use us_blkback.Disk.Region.{Region}
use us_blkback.Disk.Image.{
  DiskImage, okay, error, open_image, read_sector, write_sector, read_sectors, write_sectors,
  discard, flush_backing_file,
}
use us_blkback.Disk.Backing.{
  success, failure, OutStream, IsOutStream, create_backing_file, create_loop,
}
use us_blkback.Disk.RoundTrip.{
  Replaced, read_sectors-write_sectors, sector-sectors, discard-Replaced,
}
use us_blkback.Disk.Store.{
  Command, read_at, write_at, clear_at, save, perform_all, answers, changes,
}
use us_blkback.Disk.Store.Refinement.{Holds, perform_all-Holds}
use us_blkback.Disk.Store.Life.{image_life, image_life-Holds}
use us_blkback.Disk.Util.{usage, util_main, util_main-open_image}
use us_blkback.Limits.{div_round_up}
use us_blkback.Limits.Bounds.{div_round_up_lem}
use us_blkback.Tests.Machine.{Memory, memory, memory_ok, disk, disk_ok}

abbrev buffer : Region
buffer = record { size = 4096; byte = λ i. 2 * i }

abbrev sector : Region
sector = record { size = 512; byte = λ _. 255 }

read_sectors-write_sectors_example :
    (d : DiskImage Memory) × (r : Region) × (write_sectors memory disk 14 2 buffer 1024
      ≡ some (okay, d))
    × (read_sectors memory (flush_backing_file memory d) 14 2 buffer 3072 ≡ some (okay, r))
    × ((i k : ℕ)
        → i < 2
        → k < 512
        → r.byte (3072 + (i * 512 + k)) ≡ buffer.byte (1024 + (i * 512 + k)))
read_sectors-write_sectors_example =
    read_sectors-write_sectors memory memory_ok disk 14 2 buffer buffer 1024 3072 disk_ok
      (omega arith) (omega arith) (omega arith) (omega arith)

discard-Replaced_example :
    (d : DiskImage Memory) × (discard memory disk 0 16 ≡ some (okay, d))
    × Replaced memory memory_ok disk 0 16 (λ _. 0) d
discard-Replaced_example = discard-Replaced memory memory_ok disk 0 16 disk_ok (omega arith)

sector-sectors_example :
    ((sector.size ≡ 512)
      × (read_sector memory disk 15 sector ≡ read_sectors memory disk 15 1 sector 0)
      × (write_sector memory disk 15 sector ≡ write_sectors memory disk 15 1 sector 0))
    ⊎ ((sector.size ≢ 512)
        × (read_sector memory disk 15 sector ≡ some (error, sector))
        × (write_sector memory disk 15 sector ≡ some (error, disk)))
sector-sectors_example = sector-sectors memory memory_ok disk 15 sector disk_ok (omega arith)

div_round_up_lem_example :
    (256 ≤ div_round_up 256 512 * 512) × (div_round_up 256 512 * 512 < 256 + 512)
div_round_up_lem_example = div_round_up_lem 256 512 (omega arith) (omega arith)

-- A read past the end is refused, and so is one that ends past it.
read_past_end : read_sectors memory disk 15 2 buffer 0 ≡ some (error, buffer)
unfolding read_sectors
read_past_end = refl

write_byte :
    (d : DiskImage Memory) × (write_sector memory disk 3 sector ≡ some (okay, d))
    × (d.file.byte 1536 ≡ 255)
    × (d.file.byte 2048 ≡ 2048)
unfolding write_sector
write_byte = (record disk { file = record { length = 8192; byte = _ } }, refl, refl, refl)

-- A stream that takes every write.
abbrev pub stream : OutStream Region
stream = record {
  write = λ s r. (
    true,
    record {
      size = s.size + r.size;
      byte = λ i. if ltb i s.size then s.byte i else r.byte (i - s.size);
    },
  );
  contents = λ s. s;
}

pub stream_laws : IsOutStream stream
stream_laws = record { size-write = λ s r h. refl; byte-write = λ s r i h. refl }

abbrev pub empty : List ℕ → Region
empty _ = record { size = 0; byte = λ _. 7 }

abbrev created : Memory
created = record { length = 1536; byte = (create_backing_file stream empty [] 3 512).1.byte }

-- Two sectors are written, then read from the last one on, once beyond the end; one is cleared.
abbrev commands : List Command
commands =
    write_at 14 2 buffer 1024
    ∷ read_at 15 2 buffer 0
    ∷ read_at 15 1 buffer 0
    ∷ clear_at 0 1
    ∷ save
    ∷ []

disk-Holds : Holds memory memory_ok 16 (λ i. i) disk
disk-Holds = record { valid = disk_ok; count = refl; bytes = λ i p. refl }

perform_all-Holds_example :
    (d : DiskImage Memory) × (perform_all memory disk commands
      ≡ some (answers 16 (λ i. i) commands, d))
    × Holds memory memory_ok 16 (changes 16 (λ i. i) commands) d
perform_all-Holds_example =
    perform_all-Holds memory memory_ok 16 (λ i. i) disk commands disk-Holds (ground arith)

-- "strtoul" of a number that is written with one character.
abbrev strtoul : List ℕ → ℕ
strtoul (c ∷ []) = c - 48
strtoul _ = 512

util_runs :
    util_main stream empty strtoul ([] ∷ [] ∷ (51 ∷ []) ∷ (53 ∷ 49 ∷ 50 ∷ []) ∷ [])
    ≡ (success, [], some (create_backing_file stream empty [] 3 512).1)
unfolding util_main create_backing_file create_loop
util_runs = refl

util_main-open_image_example :
    ((d : DiskImage Memory) × (open_image memory created ≡ some d)
      × (d.sector_count ≡ 3)
      × ((i k : ℕ) → i < 3 → k < 512 → memory.get d.file (i * 512 + k) ≡ 0))
    × (util_main stream empty strtoul ([] ∷ []) ≡ (failure, usage, none))
unfolding create_backing_file create_loop
util_main-open_image_example =
    util_main-open_image stream stream_laws memory empty strtoul [] [] (51 ∷ []) (53 ∷ 49 ∷ 50 ∷ [])
      ([] ∷ []) (create_backing_file stream empty [] 3 512).1 created refl (omega arith)
      (omega arith) refl util_runs refl (λ i. refl) (omega arith)

abbrev map_file : Region → Memory
map_file r = record { length = r.size; byte = r.byte }

creates : (create_backing_file stream empty [] 3 512).0 ≡ success
unfolding create_backing_file create_loop
creates = refl

-- Three sectors of zeros; the commands are beyond their end but for two.
image_life-Holds_example :
    (d : DiskImage Memory) × (image_life stream memory empty map_file [] 3 commands
      ≡ some (success, answers 3 (λ _. 0) commands, d))
    × Holds memory memory_ok 3 (changes 3 (λ _. 0) commands) d
image_life-Holds_example =
    image_life-Holds stream stream_laws memory memory_ok empty map_file [] 3 commands refl
      (omega arith) (omega arith) creates (λ s. refl) (λ s i. refl) (ground arith)
