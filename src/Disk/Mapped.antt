-- ===== src/Disk/Mapped.antt =====
-- The two mapped files of MemoryMappedFile.h, over the system calls that they make. A failed test
-- is `none`: its `throw;` stands outside every handler, so the program terminates.
pub mod Laws
pub mod Backing
pub mod Unix
pub mod Windows
pub mod Reopen
mod Choice
use us_blkback.Base.{ℕ, ◌+◌, ◌*◌, ◌^◌, Option, none, some, List, if◌then◌else◌, ℤ, negsuc, ltz}

-- The calls of <sys/mman.h>, <sys/stat.h>, <fcntl.h> and <unistd.h>, in a state `S` of the system.
-- `fstat` gives the size, or `none` for -1; `mmap` gives `none` for MAP_FAILED. `load` and `store`
-- are the accesses through a pointer. The last four are what the files and mappings are.
pub record Posix (S : Type 0) : Type 0 where
  pub open_file : S → List ℕ → ℤ × S
  pub fstat : S → ℤ → Option ℕ
  pub mmap : S → ℕ → ℤ → Option ℕ × S
  pub msync : S → ℕ → ℕ → S
  pub munmap : S → ℕ → ℕ → S
  pub close : S → ℤ → S
  pub load : S → ℕ → ℕ → ℕ
  pub store : S → ℕ → ℕ → (ℕ → ℕ) → S
  pub size_of : S → List ℕ → ℕ
  pub byte_of : S → List ℕ → ℕ → ℕ
  pub opened : S → ℤ → Option (List ℕ)
  pub mapping : S → ℕ → Option (List ℕ × ℕ)

-- The calls of <Windows.h>. `none` is INVALID_HANDLE_VALUE, FALSE or a null pointer; the size of a
-- file comes as its high and low part.
pub record Win32 (S : Type 0) : Type 0 where
  pub create_file : S → List ℕ → Option ℕ × S
  pub get_file_size : S → ℕ → Option (ℕ × ℕ)
  pub create_file_mapping : S → ℕ → ℕ → ℕ → Option ℕ × S
  pub map_view_of_file : S → ℕ → ℕ → Option ℕ × S
  pub flush_view_of_file : S → ℕ → ℕ → S
  pub unmap_view_of_file : S → ℕ → S
  pub close_handle : S → ℕ → S
  pub load : S → ℕ → ℕ → ℕ
  pub store : S → ℕ → ℕ → (ℕ → ℕ) → S
  pub size_of : S → List ℕ → ℕ
  pub byte_of : S → List ℕ → ℕ → ℕ
  pub opened : S → ℕ → Option (List ℕ)
  pub section : S → ℕ → Option (List ℕ)
  pub view : S → ℕ → Option (List ℕ × ℕ)

-- m_fd, m_size and m_ptr; m_path is never used.
pub record UnixMemoryMappedFile : Type 0 where
  pub fd : ℤ
  pub size : ℕ
  pub ptr : ℕ

pub record WinMemoryMappedFile : Type 0 where
  pub file : ℕ
  pub file_view : ℕ
  pub size : ℕ
  pub ptr : ℕ

module _ {S : Type 0} (sys : Posix S) where
  -- The constructor.
  unfoldable pub map_unix : List ℕ → S → Option (UnixMemoryMappedFile × S)
  map_unix path s =
      let opening = sys.open_file s path in
      if ltz opening.0 (negsuc 0) then none else elim (sys.fstat opening.1 opening.0) [
        | none ↦ none
        | some size ↦ elim (sys.mmap opening.1 size opening.0).0 [
          | none ↦ none
          | some ptr ↦ some (
            record { fd = opening.0; size = size; ptr = ptr },
            (sys.mmap opening.1 size opening.0).1,
          )
        ]
      ]

  -- The destructor.
  unfoldable pub unmap_unix : UnixMemoryMappedFile → S → S
  unmap_unix o s = sys.close (sys.munmap (sys.msync s o.ptr o.size) o.ptr o.size) o.fd

  unfoldable pub flush_unix : UnixMemoryMappedFile → S → S
  flush_unix o s = sys.msync s o.ptr o.size

module _ {S : Type 0} (sys : Win32 S) where
  -- The constructor, from `CreateFileMappingA` on.
  unfoldable pub view_windows : ℕ → ℕ → ℕ → S → Option (WinMemoryMappedFile × S)
  view_windows file high low s =
      let size = high * 2 ^ 32 + low in
      elim (sys.create_file_mapping s file high low).0 [
        | none ↦ none
        | some file_view ↦
            let mapped =
              sys.map_view_of_file (sys.create_file_mapping s file high low).1 file_view size in
            elim mapped.0 [
              | none ↦ none
              | some ptr ↦ some (
                record { file = file; file_view = file_view; size = size; ptr = ptr },
                sys.flush_view_of_file mapped.1 ptr size,
              )
            ]
      ]

  -- The constructor.
  unfoldable pub map_windows : List ℕ → S → Option (WinMemoryMappedFile × S)
  map_windows path s = elim (sys.create_file s path).0 [
    | none ↦ none
    | some file ↦ elim (sys.get_file_size (sys.create_file s path).1 file) [
      | none ↦ none
      | some (high, low) ↦ view_windows file high low (sys.create_file s path).1
    ]
  ]

  unfoldable pub flush_windows : WinMemoryMappedFile → S → S
  flush_windows o s = sys.flush_view_of_file s o.ptr o.size

  -- The destructor.
  unfoldable pub unmap_windows : WinMemoryMappedFile → S → S
  unfolding flush_windows
  unmap_windows o s =
      let unmapped = sys.unmap_view_of_file (flush_windows o s) o.ptr in
      sys.close_handle (sys.close_handle unmapped o.file_view) o.file
