-- ===== src/Disk/Mapped/Unix.antt =====
-- `UnixMemoryMappedFile` (MemoryMappedFile.h): what it promises, and what it releases.
use us_blkback.Base.{
  ℕ, ◌<◌, ◌≡◌, refl, sym, ap, ◌∙◌, subst, none, some, List, ℤ, pos, negsuc, Option-cases, inl, inr,
  ◌⊎◌, arith,
}
use us_blkback.Disk.Mapped.{Posix, UnixMemoryMappedFile, map_unix, unmap_unix, flush_unix}
use us_blkback.Disk.Mapped.Laws.{IsPosix}
use us_blkback.Disk.Mapped.Backing.{Backing, IsBacking}

module _ {S : Type 0} (sys : Posix S) (laws : IsPosix sys) where
  -- The object has the file open and mapped whole.
  pub record Live (path : List ℕ) (o : UnixMemoryMappedFile) (s : S) : Type 0 where
    pub is_open : sys.opened s o.fd ≡ some path
    pub is_mapped : sys.mapping s o.ptr ≡ some (path, o.size)
    pub whole : sys.size_of s path ≡ o.size
    pub not_empty : 0 < o.size

  abbrev pub unix : Backing S UnixMemoryMappedFile
  unix = record {
    construct = map_unix sys;
    destruct = unmap_unix sys;
    get = λ o s i. sys.load s o.ptr i;
    put = λ o s bytes. sys.store s o.ptr o.size bytes;
    flush = flush_unix sys;
    size = λ o. o.size;
    size_of = sys.size_of;
    byte_of = sys.byte_of;
  }

  -- A file that could not be opened is not noticed by the test of `m_fd`, but by that of `fstat`.
  pub map_unix_failed :
      (path : List ℕ) (s : S) (n : ℕ)
      → (sys.open_file s path).0 ≡ negsuc n
      → map_unix sys path s ≡ none
  unfolding map_unix
  map_unix_failed path s n e =
      let bad = laws.fstat_bad (sys.open_file s path).1 n in ground (arith, e, bad)

  -- An object that was constructed, with the calls that made it.
  record Made (path : List ℕ) (s : S) (o : UnixMemoryMappedFile) (s' : S) : Type 0 where
    handle : ℕ
    was_opened : (sys.open_file s path).0 ≡ pos handle
    same_fd : o.fd ≡ pos handle
    sized : sys.fstat (sys.open_file s path).1 (pos handle) ≡ some o.size
    mapped : (sys.mmap (sys.open_file s path).1 o.size (pos handle)).0 ≡ some o.ptr
    after : s' ≡ (sys.mmap (sys.open_file s path).1 o.size (pos handle)).1

  int_cases : (z : ℤ) → (n : ℕ) × ((z ≡ pos n) ⊎ (z ≡ negsuc n))
  int_cases (pos n) = (n, inl refl)
  int_cases (negsuc n) = (n, inr refl)

  map_unix-Made :
      (path : List ℕ) (s : S) (o : UnixMemoryMappedFile) (s' : S)
      → map_unix sys path s ≡ some (o, s')
      → Made path s o s'
  unfolding map_unix
  map_unix-Made path s o s' h =
      let (n, sign) = int_cases (sys.open_file s path).0 in
      elim sign [
        | inr failed ↦ absurd (ground (arith, h, map_unix_failed path s n failed))
        | inl e ↦ elim (Option-cases (sys.fstat (sys.open_file s path).1 (pos n))) [
          | inl bad ↦ absurd (ground (arith, h, e, bad))
          | inr (size, f) ↦ elim (Option-cases (sys.mmap (sys.open_file s path).1 size (pos n)).0) [
            | inl bad ↦ absurd (ground (arith, h, e, f, bad))
            | inr (ptr, p) ↦
                let made : UnixMemoryMappedFile = record { fd = pos n; size = size; ptr = ptr } in
                let s1 : S = (sys.mmap (sys.open_file s path).1 size (pos n)).1 in
                let did : map_unix sys path s ≡ some (made, s1) = ground (arith, e, f, p) in
                let same : made ≡ o = ground (arith, did, h) in
                let after : s1 ≡ s' = ground (arith, did, h) in
                let m : Made path s made s1 = record {
                  handle = n;
                  was_opened = e;
                  same_fd = refl;
                  sized = f;
                  mapped = p;
                  after = refl;
                } in
                subst (λ x. Made path s x s') same (subst (Made path s made) after m)
          ]
        ]
      ]

  construct_lem :
      (path : List ℕ) (o : UnixMemoryMappedFile) (s s' : S)
      → Made path s o s'
      → Live path o s'
        × (o.size ≡ sys.size_of s path)
        × ((i : ℕ) → i < o.size → sys.load s' o.ptr i ≡ sys.byte_of s path i)
  construct_lem path o s s' made =
      let s1 : S = (sys.open_file s path).1 in
      let fd : ℤ = pos made.handle in
      let opens : sys.opened s1 fd ≡ some path = laws.open_pos s path made.handle made.was_opened in
      let whole : o.size ≡ sys.size_of s1 path =
        laws.fstat_size s1 fd path o.size opens made.sized in
      let live : Live path o (sys.mmap s1 o.size fd).1 = record {
        is_open =
            ap (sys.opened (sys.mmap s1 o.size fd).1) made.same_fd
            ∙ laws.mmap_opened s1 o.size fd fd
            ∙ opens;
        is_mapped = laws.mmap_maps s1 o.size fd path o.ptr opens whole made.mapped;
        whole = laws.mmap_size s1 o.size fd path ∙ sym whole;
        not_empty = laws.mmap_pos s1 o.size fd o.ptr made.mapped;
      } in
      (
        subst (Live path o) (sym made.after) live,
        whole ∙ laws.open_size s path path,
        λ i h.
            ap (λ x. sys.load x o.ptr i) made.after
            ∙ laws.mmap_load s1 o.size fd path o.ptr i opens whole made.mapped h
            ∙ laws.open_byte s path path i,
      )

  flush_lem :
      (path : List ℕ) (o : UnixMemoryMappedFile) (s : S)
      → Live path o s
      → Live path o (flush_unix sys o s)
        × ((i : ℕ) → sys.load (flush_unix sys o s) o.ptr i ≡ sys.load s o.ptr i)
  unfolding flush_unix
  flush_lem path o s l = (
    record {
      is_open = laws.msync_opened s o.ptr o.size o.fd ∙ l.is_open;
      is_mapped = laws.msync_mapping s o.ptr o.size o.ptr ∙ l.is_mapped;
      whole = laws.msync_size s o.ptr o.size path ∙ l.whole;
      not_empty = l.not_empty;
    },
    λ i. laws.msync_load s o.ptr o.size o.ptr i,
  )

  put_lem :
      (path : List ℕ) (o : UnixMemoryMappedFile) (s : S) (bytes : ℕ → ℕ)
      → Live path o s
      → Live path o (sys.store s o.ptr o.size bytes)
        × ((i : ℕ) → i < o.size → sys.load (sys.store s o.ptr o.size bytes) o.ptr i ≡ bytes i)
  put_lem path o s bytes l = (
    record {
      is_open = laws.store_opened s o.ptr o.size bytes o.fd ∙ l.is_open;
      is_mapped = laws.store_mapping s o.ptr o.size o.ptr bytes ∙ l.is_mapped;
      whole = laws.store_size s o.ptr o.size bytes path ∙ l.whole;
      not_empty = l.not_empty;
    },
    λ i h. laws.store_load s path o.ptr o.size i bytes l.is_mapped h,
  )

  destruct_lem :
      (path : List ℕ) (o : UnixMemoryMappedFile) (s : S)
      → Live path o s
      → (sys.size_of (unmap_unix sys o s) path ≡ o.size)
        × ((i : ℕ) → i < o.size → sys.byte_of (unmap_unix sys o s) path i ≡ sys.load s o.ptr i)
  unfolding unmap_unix
  destruct_lem path o s l =
      let s1 : S = sys.msync s o.ptr o.size in
      let s2 : S = sys.munmap s1 o.ptr o.size in
      (
        laws.close_size s2 o.fd path
            ∙ laws.munmap_size s1 o.ptr o.size path
            ∙ laws.msync_size s o.ptr o.size path
            ∙ l.whole,
        λ i h.
            laws.close_byte s2 o.fd path i
            ∙ laws.munmap_byte s1 o.ptr o.size path i
            ∙ laws.msync_byte s path o.ptr o.size i l.is_mapped h,
      )

  -- The destructor leaves neither the descriptor open nor the file mapped.
  pub unmap_unix_releases :
      (path : List ℕ) (o : UnixMemoryMappedFile) (s : S)
      → Live path o s
      → (sys.opened (unmap_unix sys o s) o.fd ≡ none)
        × (sys.mapping (unmap_unix sys o s) o.ptr ≡ none)
  unfolding unmap_unix
  unmap_unix_releases path o s l =
      let s1 : S = sys.msync s o.ptr o.size in
      let s2 : S = sys.munmap s1 o.ptr o.size in
      (
        laws.close_opened s2 o.fd,
        laws.close_mapping s2 o.fd o.ptr
            ∙ laws.munmap_mapping s1 path o.ptr o.size
                (laws.msync_mapping s o.ptr o.size o.ptr ∙ l.is_mapped) l.not_empty,
      )

  pub unix-IsBacking : IsBacking unix
  unix-IsBacking = record {
    Live = Live;
    live_size = λ path o s l. l.whole;
    construct-Live = λ path o s s' h. construct_lem path o s s' (map_unix-Made path s o s' h);
    put-Live = put_lem;
    flush-Live = flush_lem;
    destruct_saves = destruct_lem;
  }

  -- A mapped file that was constructed shows the bytes of the file; bytes that are stored through
  -- the pointer are in the file after the destructor, which leaves neither the descriptor open nor
  -- the file mapped.
  pub unmap_unix-map_unix :
      (path : List ℕ) (o : UnixMemoryMappedFile) (s s' : S) (bytes : ℕ → ℕ)
      → map_unix sys path s ≡ some (o, s')
      → (o.size ≡ sys.size_of s path)
        × ((i : ℕ) → i < o.size → sys.load s' o.ptr i ≡ sys.byte_of s path i)
        × ((i : ℕ)
            → i < o.size
            → sys.byte_of (unmap_unix sys o (sys.store s' o.ptr o.size bytes)) path i ≡ bytes i)
        × (sys.opened (unmap_unix sys o (sys.store s' o.ptr o.size bytes)) o.fd ≡ none)
        × (sys.mapping (unmap_unix sys o (sys.store s' o.ptr o.size bytes)) o.ptr ≡ none)
  unmap_unix-map_unix path o s s' bytes h =
      let (live, size, shows) = construct_lem path o s s' (map_unix-Made path s o s' h) in
      let (live', stores) = put_lem path o s' bytes live in
      let (_, saves) = destruct_lem path o (sys.store s' o.ptr o.size bytes) live' in
      let (closed, unmapped) = unmap_unix_releases path o (sys.store s' o.ptr o.size bytes) live' in
      (size, shows, λ i k. saves i k ∙ stores i k, closed, unmapped)
