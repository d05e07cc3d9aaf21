-- ===== src/Tests/Systems.antt =====
-- A POSIX system and a Windows with one file.
use us_blkback.Base.{
  ℕ, suc, ◌+◌, ◌*◌, ◌/◌, ◌%◌, ◌^◌, refl, Option, none, some, List, ltb, ◌==◌, ◌||◌, if◌then◌else◌,
  ℤ, pos, negsuc, arith,
}
use us_blkback.Disk.Mapped.{Posix, Win32}
use us_blkback.Disk.Mapped.Laws.{IsPosix, IsWin32}

-- One file, whatever the path; `file` and `section` are the open handles, `map` the mappings.
pub record System : Type 0 where
  pub next : ℕ
  pub size : ℕ
  pub disk : ℕ → ℕ
  pub memory : ℕ → ℕ → ℕ
  pub file : ℕ → Option (List ℕ)
  pub section : ℕ → Option (List ℕ)
  pub map : ℕ → Option (List ℕ × ℕ)

abbrev pub update {ℓ} : {A : Type ℓ} → (ℕ → A) → ℕ → A → ℕ → A
update f k a j = if k == j then a else f j

abbrev pub file_at : System → ℤ → Option (List ℕ)
file_at s (pos n) = s.file n
file_at s (negsuc n) = none

abbrev pub map_at : System → ℕ → Option (List ℕ) → Option ℕ × System
map_at s n none = (none, s)
map_at s n (some path) = (
  some s.next,
  record s {
    next = suc s.next;
    map = update s.map s.next (some (path, n));
    memory = update s.memory s.next s.disk;
  },
)

abbrev pub sync : System → ℕ → ℕ → System
sync s a n = record s { disk = λ i. if ltb i n then s.memory a i else s.disk i }

abbrev pub stores : System → ℕ → ℕ → (ℕ → ℕ) → System
stores s a n b = record s {
  memory = update s.memory a (λ i. if ltb i n then b i else s.memory a i);
}

abbrev pub size_at : System → Option (List ℕ) → Option ℕ
size_at s none = none
size_at s (some path) = some s.size

-- Only as many bytes as were mapped, and not 0, are unmapped.
abbrev pub unmap_at : System → ℕ → ℕ → System
unmap_at s a n = elim (s.map a) [
  | none ↦ s
  | some (_, m) ↦
      if n == 0 then s else (if m == n then record s { map = update s.map a none } else s)
]

abbrev pub posix : Posix System
posix = record {
  open_file = λ s path.
      (pos s.next, record s { next = suc s.next; file = update s.file s.next (some path) });
  fstat = λ s fd. size_at s (file_at s fd);
  mmap = λ s n fd. if n == 0 then (none, s) else map_at s n (file_at s fd);
  msync = sync;
  munmap = unmap_at;
  close = λ s fd. elim fd [ pos n ↦ record s { file = update s.file n none } | negsuc n ↦ s ];
  load = λ s a i. s.memory a i;
  store = stores;
  size_of = λ s path. s.size;
  byte_of = λ s path i. s.disk i;
  opened = file_at;
  mapping = λ s a. s.map a;
}

pub posix_ok : IsPosix posix
posix_ok = record {
  open_pos = λ s path n e. ground arith;
  open_size = λ s p q. refl;
  open_byte = λ s p q i. refl;
  fstat_bad = λ s n. refl;
  fstat_size = λ s fd path n a b. ground arith;
  mmap_pos = λ s n fd a e. ground arith;
  mmap_maps = λ s n fd path a b c d. ground arith;
  mmap_load = λ s n fd path a i b c d h. ground arith;
  mmap_opened = λ s n fd k. ground arith;
  mmap_size = λ s n fd p. ground arith;
  msync_byte = λ s path a n i e h. ground arith;
  msync_load = λ s a n k i. refl;
  msync_mapping = λ s a n k. refl;
  msync_opened = λ s a n fd. ground arith;
  msync_size = λ s a n p. refl;
  store_load = λ s path a n i b e h. ground arith;
  store_mapping = λ s a n k b. refl;
  store_opened = λ s a n b fd. ground arith;
  store_size = λ s a n b p. refl;
  munmap_mapping = λ s path a n e h. ground arith;
  munmap_size = λ s a n p. ground arith;
  munmap_byte = λ s a n p i. ground arith;
  close_opened = λ s fd. ground arith;
  close_mapping = λ s fd a. ground arith;
  close_size = λ s fd p. ground arith;
  close_byte = λ s fd p i. ground arith;
}

abbrev pub create : System → List ℕ → Option ℕ × System
create s path =
    (some s.next, record s { next = suc s.next; file = update s.file s.next (some path) })

-- A section of `n` bytes: the file is extended to its size. None is empty or smaller than the file.
abbrev pub section_at : System → ℕ → Option (List ℕ) → Option ℕ × System
section_at s n none = (none, s)
section_at s n (some path) = if n == 0 || ltb n s.size then (none, s) else (
  some s.next,
  record s { next = suc s.next; size = n; section = update s.section s.next (some path) },
)

abbrev pub size_parts : System → Option (List ℕ) → Option (ℕ × ℕ)
size_parts s none = none
size_parts s (some path) = some (s.size / 2 ^ 32, s.size % 2 ^ 32)

abbrev pub win32 : Win32 System
win32 = record {
  create_file = create;
  get_file_size = λ s h. size_parts s (s.file h);
  create_file_mapping = λ s h high low. section_at s (high * 2 ^ 32 + low) (s.file h);
  map_view_of_file = λ s h n. map_at s n (s.section h);
  flush_view_of_file = sync;
  unmap_view_of_file = λ s a. record s { map = update s.map a none };
  close_handle = λ s h. record s { file = update s.file h none; section = update s.section h none };
  load = λ s a i. s.memory a i;
  store = stores;
  size_of = λ s path. s.size;
  byte_of = λ s path i. s.disk i;
  opened = λ s h. s.file h;
  section = λ s h. s.section h;
  view = λ s a. s.map a;
}

pub win32_ok : IsWin32 win32
win32_ok = record {
  create_opened = λ s path h e. ground arith;
  create_size = λ s p q. refl;
  create_byte = λ s p q i. refl;
  get_size = λ s h path high low a b. ground arith;
  mapping_section = λ s file high low path h a b c. ground arith;
  mapping_opened = λ s file high low h. ground arith;
  mapping_size = λ s file high low path p a b. ground arith;
  mapping_byte = λ s file high low path p i a b. ground arith;
  view_maps = λ s h n path a b c d. ground arith;
  view_load = λ s h n path a i b c d e. ground arith;
  view_opened = λ s h n k. ground arith;
  view_section = λ s h n k. ground arith;
  view_size = λ s h n p. ground arith;
  flush_byte = λ s path a n i e h. ground arith;
  flush_load = λ s a n k i. refl;
  flush_view = λ s a n k. refl;
  flush_opened = λ s a n h. refl;
  flush_section = λ s a n h. refl;
  flush_size = λ s a n p. refl;
  store_load = λ s path a n i b e h. ground arith;
  store_view = λ s a n k b. refl;
  store_opened = λ s a n h b. refl;
  store_section = λ s a n h b. refl;
  store_size = λ s a n b p. refl;
  unmap_view = λ s a. ground arith;
  unmap_size = λ s a p. refl;
  unmap_byte = λ s a p i. refl;
  close_opened = λ s h k. refl;
  close_section = λ s h k. refl;
  close_view = λ s h a. refl;
  close_size = λ s h p. refl;
  close_byte = λ s h p i. refl;
}

-- A file of 16 sectors whose byte `i` is `i`.
abbrev pub system : System
system = record {
  next = 0;
  size = 8192;
  disk = λ i. i;
  memory = λ _ _. 0;
  file = λ _. none;
  section = λ _. none;
  map = λ _. none;
}
