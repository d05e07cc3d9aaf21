-- ===== src/Tests/UnitTests.antt =====
-- The unit tests on an image file of 1024 sectors.
use us_blkback.Base.{ℕ, ◌+◌, ◌*◌, ◌<◌, ◌≡◌, refl, [], some, true}
use us_blkback.Disk.Region.{Region}
use us_blkback.Disk.Image.{DiskImage}
use us_blkback.Disk.Backing.{success, failure, create_backing_file, create_loop}
use us_blkback.UnitTests.{all_tests, setup, globals, test_program}
use us_blkback.UnitTests.Rules.{Passes}
use us_blkback.UnitTests.Pass.{all_tests-globals, setup_lem}
use us_blkback.Tests.Machine.{Memory, memory, memory_ok}
use us_blkback.Tests.Disk.{stream, stream_laws, empty}

-- The stream keeps 512 KiB in one block, which is then mapped.
abbrev map_block : Region → Memory
map_block r = record { length = r.size; byte = r.byte }

abbrev blank : Memory
blank = record { length = 524288; byte = λ _. 3 }

created_1024 : (create_backing_file stream empty [] 1024 512).0 ≡ success
unfolding create_backing_file create_loop
created_1024 = refl

all_tests-globals_example :
    (d : DiskImage Memory) × (globals memory stream empty map_block [] ≡ some (success, d))
    × Passes memory memory_ok (all_tests memory true) d
    × ((d' : DiskImage Memory) × (test_program memory stream empty map_block [] true
          ≡ some (some tt, d')))
all_tests-globals_example =
    all_tests-globals memory memory_ok stream stream_laws empty map_block [] refl created_1024
      (λ s. refl) (λ s i. refl)

setup_lem_example :
    (setup memory failure blank ≡ some (failure, blank))
    × (f : Memory) × (setup memory success blank ≡ some (success, f))
    × ((k : ℕ) → k < 512 → f.byte (512 * 512 + k) ≡ 255)
setup_lem_example = setup_lem memory memory_ok blank refl
