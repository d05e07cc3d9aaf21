-- ===== src/Disk/Mapped/Laws.antt =====
-- What the classes of MemoryMappedFile.h rely on of the system calls.
use us_blkback.Base.{
  ℕ, ◌+◌, ◌*◌, ◌^◌, ◌<◌, ◌≡◌, none, some, List, ℤ, pos, negsuc, if◌then◌else◌, ◌==◌,
}
use us_blkback.Disk.Mapped.{Posix, Win32}

-- What POSIX says of the calls. A result of -1 is no open file, so that `fstat` fails on it; no
-- mapping is empty; a mapping of a whole file shows its bytes, `msync` writes them back, and
-- `munmap` of as many bytes as were mapped removes it.
pub record IsPosix {S : Type 0} (sys : Posix S) : Type 0 where
  pub open_pos :
      (s : S) (path : List ℕ) (n : ℕ)
      → (sys.open_file s path).0 ≡ pos n
      → sys.opened (sys.open_file s path).1 (pos n) ≡ some path
  pub open_size : (s : S) (p q : List ℕ) → sys.size_of (sys.open_file s p).1 q ≡ sys.size_of s q
  pub open_byte :
      (s : S) (p q : List ℕ) (i : ℕ) → sys.byte_of (sys.open_file s p).1 q i ≡ sys.byte_of s q i
  pub fstat_bad : (s : S) (n : ℕ) → sys.fstat s (negsuc n) ≡ none
  pub fstat_size :
      (s : S) (fd : ℤ) (path : List ℕ) (n : ℕ)
      → sys.opened s fd ≡ some path
      → sys.fstat s fd ≡ some n
      → n ≡ sys.size_of s path
  pub mmap_pos : (s : S) (n : ℕ) (fd : ℤ) (a : ℕ) → (sys.mmap s n fd).0 ≡ some a → 0 < n
  pub mmap_maps :
      (s : S) (n : ℕ) (fd : ℤ) (path : List ℕ) (a : ℕ)
      → sys.opened s fd ≡ some path
      → n ≡ sys.size_of s path
      → (sys.mmap s n fd).0 ≡ some a
      → sys.mapping (sys.mmap s n fd).1 a ≡ some (path, n)
  pub mmap_load :
      (s : S) (n : ℕ) (fd : ℤ) (path : List ℕ) (a i : ℕ)
      → sys.opened s fd ≡ some path
      → n ≡ sys.size_of s path
      → (sys.mmap s n fd).0 ≡ some a
      → i < n
      → sys.load (sys.mmap s n fd).1 a i ≡ sys.byte_of s path i
  pub mmap_opened : (s : S) (n : ℕ) (fd k : ℤ) → sys.opened (sys.mmap s n fd).1 k ≡ sys.opened s k
  pub mmap_size :
      (s : S) (n : ℕ) (fd : ℤ) (p : List ℕ) → sys.size_of (sys.mmap s n fd).1 p ≡ sys.size_of s p
  pub msync_byte :
      (s : S) (path : List ℕ) (a n i : ℕ)
      → sys.mapping s a ≡ some (path, n)
      → i < n
      → sys.byte_of (sys.msync s a n) path i ≡ sys.load s a i
  pub msync_load : (s : S) (a n k i : ℕ) → sys.load (sys.msync s a n) k i ≡ sys.load s k i
  pub msync_mapping : (s : S) (a n k : ℕ) → sys.mapping (sys.msync s a n) k ≡ sys.mapping s k
  pub msync_opened : (s : S) (a n : ℕ) (fd : ℤ) → sys.opened (sys.msync s a n) fd ≡ sys.opened s fd
  pub msync_size :
      (s : S) (a n : ℕ) (p : List ℕ) → sys.size_of (sys.msync s a n) p ≡ sys.size_of s p
  pub store_load :
      (s : S) (path : List ℕ) (a n i : ℕ) (bytes : ℕ → ℕ)
      → sys.mapping s a ≡ some (path, n)
      → i < n
      → sys.load (sys.store s a n bytes) a i ≡ bytes i
  pub store_mapping :
      (s : S) (a n k : ℕ) (bytes : ℕ → ℕ) → sys.mapping (sys.store s a n bytes) k ≡ sys.mapping s k
  pub store_opened :
      (s : S) (a n : ℕ) (bytes : ℕ → ℕ) (fd : ℤ)
      → sys.opened (sys.store s a n bytes) fd ≡ sys.opened s fd
  pub store_size :
      (s : S) (a n : ℕ) (bytes : ℕ → ℕ) (p : List ℕ)
      → sys.size_of (sys.store s a n bytes) p ≡ sys.size_of s p
  pub munmap_mapping :
      (s : S) (path : List ℕ) (a n : ℕ)
      → sys.mapping s a ≡ some (path, n)
      → 0 < n
      → sys.mapping (sys.munmap s a n) a ≡ none
  pub munmap_size :
      (s : S) (a n : ℕ) (p : List ℕ) → sys.size_of (sys.munmap s a n) p ≡ sys.size_of s p
  pub munmap_byte :
      (s : S) (a n : ℕ) (p : List ℕ) (i : ℕ)
      → sys.byte_of (sys.munmap s a n) p i ≡ sys.byte_of s p i
  pub close_opened : (s : S) (fd : ℤ) → sys.opened (sys.close s fd) fd ≡ none
  pub close_mapping : (s : S) (fd : ℤ) (a : ℕ) → sys.mapping (sys.close s fd) a ≡ sys.mapping s a
  pub close_size : (s : S) (fd : ℤ) (p : List ℕ) → sys.size_of (sys.close s fd) p ≡ sys.size_of s p
  pub close_byte :
      (s : S) (fd : ℤ) (p : List ℕ) (i : ℕ) → sys.byte_of (sys.close s fd) p i ≡ sys.byte_of s p i

-- What Windows says of the calls. A section with a maximum size above the size of the file extends
-- the file, one with just its size covers the file and leaves it as it is. A view of a whole file
-- shows its bytes, and `FlushViewOfFile` writes them back; closing a handle closes no other.
pub record IsWin32 {S : Type 0} (sys : Win32 S) : Type 0 where
  pub create_opened :
      (s : S) (path : List ℕ) (h : ℕ)
      → (sys.create_file s path).0 ≡ some h
      → sys.opened (sys.create_file s path).1 h ≡ some path
  pub create_size : (s : S) (p q : List ℕ) → sys.size_of (sys.create_file s p).1 q ≡ sys.size_of s q
  pub create_byte :
      (s : S) (p q : List ℕ) (i : ℕ) → sys.byte_of (sys.create_file s p).1 q i ≡ sys.byte_of s q i
  pub get_size :
      (s : S) (h : ℕ) (path : List ℕ) (high low : ℕ)
      → sys.opened s h ≡ some path
      → sys.get_file_size s h ≡ some (high, low)
      → high * 2 ^ 32 + low ≡ sys.size_of s path
  pub mapping_section :
      (s : S) (file high low : ℕ) (path : List ℕ) (h : ℕ)
      → sys.opened s file ≡ some path
      → high * 2 ^ 32 + low ≡ sys.size_of s path
      → (sys.create_file_mapping s file high low).0 ≡ some h
      → sys.section (sys.create_file_mapping s file high low).1 h ≡ some path
  pub mapping_opened :
      (s : S) (file high low h : ℕ)
      → sys.opened (sys.create_file_mapping s file high low).1 h ≡ sys.opened s h
  pub mapping_size :
      (s : S) (file high low : ℕ) (path p : List ℕ)
      → sys.opened s file ≡ some path
      → high * 2 ^ 32 + low ≡ sys.size_of s path
      → sys.size_of (sys.create_file_mapping s file high low).1 p ≡ sys.size_of s p
  pub mapping_byte :
      (s : S) (file high low : ℕ) (path p : List ℕ) (i : ℕ)
      → sys.opened s file ≡ some path
      → high * 2 ^ 32 + low ≡ sys.size_of s path
      → sys.byte_of (sys.create_file_mapping s file high low).1 p i ≡ sys.byte_of s p i
  pub view_maps :
      (s : S) (h n : ℕ) (path : List ℕ) (a : ℕ)
      → sys.section s h ≡ some path
      → n ≡ sys.size_of s path
      → (sys.map_view_of_file s h n).0 ≡ some a
      → sys.view (sys.map_view_of_file s h n).1 a ≡ some (path, n)
  pub view_load :
      (s : S) (h n : ℕ) (path : List ℕ) (a i : ℕ)
      → sys.section s h ≡ some path
      → n ≡ sys.size_of s path
      → (sys.map_view_of_file s h n).0 ≡ some a
      → i < n
      → sys.load (sys.map_view_of_file s h n).1 a i ≡ sys.byte_of s path i
  pub view_opened :
      (s : S) (h n k : ℕ) → sys.opened (sys.map_view_of_file s h n).1 k ≡ sys.opened s k
  pub view_section :
      (s : S) (h n k : ℕ) → sys.section (sys.map_view_of_file s h n).1 k ≡ sys.section s k
  pub view_size :
      (s : S) (h n : ℕ) (p : List ℕ)
      → sys.size_of (sys.map_view_of_file s h n).1 p ≡ sys.size_of s p
  pub flush_byte :
      (s : S) (path : List ℕ) (a n i : ℕ)
      → sys.view s a ≡ some (path, n)
      → i < n
      → sys.byte_of (sys.flush_view_of_file s a n) path i ≡ sys.load s a i
  pub flush_load :
      (s : S) (a n k i : ℕ) → sys.load (sys.flush_view_of_file s a n) k i ≡ sys.load s k i
  pub flush_view : (s : S) (a n k : ℕ) → sys.view (sys.flush_view_of_file s a n) k ≡ sys.view s k
  pub flush_opened :
      (s : S) (a n h : ℕ) → sys.opened (sys.flush_view_of_file s a n) h ≡ sys.opened s h
  pub flush_section :
      (s : S) (a n h : ℕ) → sys.section (sys.flush_view_of_file s a n) h ≡ sys.section s h
  pub flush_size :
      (s : S) (a n : ℕ) (p : List ℕ)
      → sys.size_of (sys.flush_view_of_file s a n) p ≡ sys.size_of s p
  pub store_load :
      (s : S) (path : List ℕ) (a n i : ℕ) (bytes : ℕ → ℕ)
      → sys.view s a ≡ some (path, n)
      → i < n
      → sys.load (sys.store s a n bytes) a i ≡ bytes i
  pub store_view :
      (s : S) (a n k : ℕ) (bytes : ℕ → ℕ) → sys.view (sys.store s a n bytes) k ≡ sys.view s k
  pub store_opened :
      (s : S) (a n h : ℕ) (bytes : ℕ → ℕ) → sys.opened (sys.store s a n bytes) h ≡ sys.opened s h
  pub store_section :
      (s : S) (a n h : ℕ) (bytes : ℕ → ℕ) → sys.section (sys.store s a n bytes) h ≡ sys.section s h
  pub store_size :
      (s : S) (a n : ℕ) (bytes : ℕ → ℕ) (p : List ℕ)
      → sys.size_of (sys.store s a n bytes) p ≡ sys.size_of s p
  pub unmap_view : (s : S) (a : ℕ) → sys.view (sys.unmap_view_of_file s a) a ≡ none
  pub unmap_size :
      (s : S) (a : ℕ) (p : List ℕ) → sys.size_of (sys.unmap_view_of_file s a) p ≡ sys.size_of s p
  pub unmap_byte :
      (s : S) (a : ℕ) (p : List ℕ) (i : ℕ)
      → sys.byte_of (sys.unmap_view_of_file s a) p i ≡ sys.byte_of s p i
  pub close_opened :
      (s : S) (h k : ℕ)
      → sys.opened (sys.close_handle s h) k ≡ (if h == k then none else sys.opened s k)
  pub close_section :
      (s : S) (h k : ℕ)
      → sys.section (sys.close_handle s h) k ≡ (if h == k then none else sys.section s k)
  pub close_view : (s : S) (h a : ℕ) → sys.view (sys.close_handle s h) a ≡ sys.view s a
  pub close_size :
      (s : S) (h : ℕ) (p : List ℕ) → sys.size_of (sys.close_handle s h) p ≡ sys.size_of s p
  pub close_byte :
      (s : S) (h : ℕ) (p : List ℕ) (i : ℕ)
      → sys.byte_of (sys.close_handle s h) p i ≡ sys.byte_of s p i
