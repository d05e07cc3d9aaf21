-- ===== src/UnitTests.antt =====
-- The unit tests of `DiskImage` (disk-image-test.cpp), run on an image. Catch is not modelled: a
-- test is a sequence of calls and of conditions that REQUIRE asks for, and ends at the first
-- condition that is false. Catch runs a test case once for each of its sections.
pub mod Rules
pub mod Pass
use us_blkback.Base.{
  ℕ, zero, suc, ◌+◌, ◌-◌, ◌*◌, Option, none, some, Bool, true, false, ◌==◌, ◌&&◌, List, [], ◌∷◌,
}
use us_blkback.Disk.Region.{Region}
use us_blkback.Disk.Image.{
  MappedFile, Rsp, okay, error, eopnotsupp, DiskImage, open_image, close_image, read_sector,
  write_sector,
}
use us_blkback.Disk.Backing.{Exit, success, failure, OutStream, create_backing_file}

-- `std::vector<char> v(512, c)`.
abbrev pub vector : ℕ → Region
vector c = record { size = 512; byte = λ _. c }

-- `std::equal` over the 512 bytes of a vector.
abbrev equal_upto : ℕ → (ℕ → ℕ) → (ℕ → ℕ) → Bool
equal_upto zero f g = true
equal_upto (suc n) f g = f n == g n && equal_upto n f g

unfoldable pub equal : Region → Region → Bool
equal a b = equal_upto 512 a.byte b.byte

-- `rc == 0` and `rc == -1`.
abbrev pub is_okay : Rsp → Bool
is_okay okay = true
is_okay _ = false

abbrev pub is_error : Rsp → Bool
is_error error = true
is_error _ = false

-- A test on the global image `di`. The outer `none` is undefined behaviour or termination, the
-- inner one a condition that was false.
abbrev pub Case : Type 0 → Type 0 → Type 0
Case F A = DiskImage F → Option (Option A × DiskImage F)

module _ {F : Type 0} where
  infixl 5 ◌>>=◌ ◌>>◌
  abbrev pub ◌>>=◌ : {A B : Type 0} → Case F A → (A → Case F B) → Case F B
  ◌>>=◌ t f d = elim (t d) [
    | none ↦ none
    | some (none, d') ↦ some (none, d')
    | some (some a, d') ↦ f a d'
  ]

  abbrev pub ◌>>◌ : {A B : Type 0} → Case F A → Case F B → Case F B
  ◌>>◌ t u d = elim (t d) [
    | none ↦ none
    | some (none, d') ↦ some (none, d')
    | some (some a, d') ↦ u d'
  ]

  abbrev pub passed : Case F (Unit {0})
  passed d = some (some tt, d)

  abbrev pub require : Bool → Case F (Unit {0})
  require true d = some (some tt, d)
  require false d = some (none, d)

module _ {F : Type 0} (m : MappedFile F) where
  unfoldable pub read : ℕ → Region → Case F (Rsp × Region)
  read n v d = elim (read_sector m d n v) [ none ↦ none | some r ↦ some (some r, d) ]

  unfoldable pub write : ℕ → Region → Case F Rsp
  write n v d = elim (write_sector m d n v) [ none ↦ none | some (rc, d') ↦ some (some rc, d') ]

  -- "Test Create Backing File": `exists` is whether `stat` finds the file.
  unfoldable pub test_create_backing_file : Bool → Case F (Unit {0})
  test_create_backing_file exists = require exists

  -- "Test Read Sector".
  unfoldable pub test_read_sector : Case F (Unit {0})
  test_read_sector = do
    (rc1, empty1) ← read 512 (vector 0)
    require (is_okay rc1)
    (rc2, ff1) ← read 512 (vector 255)
    require (is_okay rc2)
    (rc3, empty2) ← read 10000 empty1
    require (is_error rc3)
    (rc4, ff2) ← read 10000 ff1
    require (is_error rc4)

  -- "Test Write Sector".
  unfoldable pub test_write_sector : Case F (Unit {0})
  test_write_sector = do
    rc1 ← write 512 (vector 255)
    require (is_okay rc1)
    rc2 ← write 256 (vector 255)
    require (is_okay rc2)
    rc3 ← write 256 (vector 255)
    require (is_okay rc3)
    rc4 ← write 10000 (vector 255)
    require (is_error rc4)

  -- "Sector Read/Write is Bounded Correctly", section "Sector Write Bounding".
  unfoldable pub test_write_bounding : Case F (Unit {0})
  test_write_bounding = do
    _ ← write (512 - 1) (vector 0)
    (_, buf1) ← read (512 - 1) (vector 170)
    require (equal (vector 0) buf1)
    _ ← write 512 (vector 255)
    (_, buf2) ← read 512 (vector 187)
    require (equal (vector 255) buf2)
    _ ← write (512 + 1) (vector 0)
    (_, buf3) ← read (512 + 1) (vector 204)
    require (equal (vector 0) buf3)
    _ ← write (512 + 1) (vector 0)
    (_, buf4) ← read (512 + 1) (vector 221)
    require (equal (vector 0) buf4)
    _ ← write 512 (vector 255)
    (_, buf5) ← read 512 (vector 238)
    require (equal (vector 255) buf5)
    _ ← write 512 (vector 0)
    (_, buf6) ← read 512 (vector 255)
    require (equal (vector 0) buf6)

  -- The same, section "Testing zero and edge cases".
  unfoldable pub test_edge_cases : Case F (Unit {0})
  test_edge_cases = do
    rc1 ← write (512 * 2 - 1) (vector 255)
    require (is_okay rc1)
    (rc2, buf7) ← read (512 * 2 - 1) (vector 17)
    require (is_okay rc2)
    require (equal (vector 255) buf7)
    rc3 ← write (512 * 2 - 1) (vector 0)
    require (is_okay rc3)
    (rc4, buf8) ← read (512 * 2 - 1) (vector 34)
    require (is_okay rc4)
    require (equal (vector 0) buf8)
    rc5 ← write 0 (vector 255)
    require (is_okay rc5)
    (rc6, buf9) ← read 0 (vector 51)
    require (is_okay rc6)
    require (equal (vector 255) buf7)
    rc7 ← write 0 (vector 0)
    require (is_okay rc7)
    (rc8, buf10) ← read 0 (vector 68)
    require (is_okay rc8)
    require (equal (vector 0) buf8)

  -- All test cases, in the order in which the file declares them.
  unfoldable pub all_tests : Bool → Case F (Unit {0})
  all_tests exists = do
    test_create_backing_file exists
    test_read_sector
    test_write_sector
    test_write_bounding
    test_edge_cases

  -- The two globals `rc` and `di`, made before `main`. `map_file` maps what the stream has written.
  unfoldable pub globals :
      {S : Type 0} → OutStream S → (List ℕ → S) → (S → F) → List ℕ → Option (Exit × DiskImage F)
  globals out opened map_file name =
      let r = create_backing_file out opened name 1024 512 in
      elim (open_image m (map_file r.1)) [ none ↦ none | some d ↦ some (r.0, d) ]

  -- The program that Catch makes of the file: the globals, then the tests.
  unfoldable pub test_program :
      {S : Type 0}
      → OutStream S
      → (List ℕ → S)
      → (S → F)
      → List ℕ
      → Bool
      → Option (Option (Unit {0}) × DiskImage F)
  unfolding globals all_tests
  test_program out opened map_file name exists = elim (globals out opened map_file name) [
    | none ↦ none
    | some (rc, d) ↦ all_tests exists d
  ]

  -- `setup`, which nothing calls: it returns its first code that is not 0. `f` is the file that its
  -- own `DiskImage` maps, which is destroyed at each `return`.
  unfoldable pub setup : Exit → F → Option (Exit × F)
  unfolding close_image
  setup failure f = some (failure, f)
  setup success f = elim (open_image m f) [
    | none ↦ none
    | some d ↦ elim (write_sector m d 512 (vector 255)) [
      | none ↦ none
      | some (error, d') ↦ some (failure, (close_image m d').file)
      | some (eopnotsupp, d') ↦ some (failure, (close_image m d').file)
      | some (okay, d') ↦ elim (read_sector m d' 512 (vector 0)) [
        | none ↦ none
        | some (okay, v) ↦ some (success, (close_image m d').file)
        | some (rc, v) ↦ some (failure, (close_image m d').file)
      ]
    ]
  ]
