-- ===== src/Disk/Mapped/Windows.antt =====
-- `WinMemoryMappedFile` (MemoryMappedFile.h): what it promises, and what it releases.
use us_blkback.Base.{
  ℕ, ◌+◌, ◌*◌, ◌^◌, ◌<◌, ◌≡◌, refl, sym, ap, ◌∙◌, subst, none, some, List, Option-cases, inl, inr,
  ◌==◌, ==-self, if-then, if◌then◌else◌, arith,
}
use us_blkback.Disk.Mapped.{
  Win32, WinMemoryMappedFile, view_windows, map_windows, unmap_windows, flush_windows,
}
use us_blkback.Disk.Mapped.Laws.{IsWin32}
use us_blkback.Disk.Mapped.Backing.{Backing, IsBacking}

module _ {S : Type 0} (sys : Win32 S) (laws : IsWin32 sys) where
  -- The object has the file and a section of it open, and views it whole.
  pub record Live (path : List ℕ) (o : WinMemoryMappedFile) (s : S) : Type 0 where
    pub is_open : sys.opened s o.file ≡ some path
    pub is_section : sys.section s o.file_view ≡ some path
    pub is_viewed : sys.view s o.ptr ≡ some (path, o.size)
    pub whole : sys.size_of s path ≡ o.size

  abbrev pub windows : Backing S WinMemoryMappedFile
  windows = record {
    construct = map_windows sys;
    destruct = unmap_windows sys;
    get = λ o s i. sys.load s o.ptr i;
    put = λ o s bytes. sys.store s o.ptr o.size bytes;
    flush = flush_windows sys;
    size = λ o. o.size;
    size_of = sys.size_of;
    byte_of = sys.byte_of;
  }

  -- An object that was constructed, with the calls that made it.
  record Made (path : List ℕ) (s : S) (o : WinMemoryMappedFile) (s' : S) : Type 0 where
    high : ℕ
    low : ℕ
    was_opened : (sys.create_file s path).0 ≡ some o.file
    sized : sys.get_file_size (sys.create_file s path).1 o.file ≡ some (high, low)
    same_size : o.size ≡ high * 2 ^ 32 + low
    sectioned :
        (sys.create_file_mapping (sys.create_file s path).1 o.file high low).0 ≡ some o.file_view
    viewed :
        (sys.map_view_of_file
          (sys.create_file_mapping (sys.create_file s path).1 o.file high low).1
          o.file_view
          o.size).0
        ≡ some o.ptr
    after :
        s'
        ≡ sys.flush_view_of_file
            (sys.map_view_of_file
              (sys.create_file_mapping (sys.create_file s path).1 o.file high low).1
              o.file_view
              o.size).1
            o.ptr
            o.size

  view_windows-Made :
      (path : List ℕ) (s : S) (o : WinMemoryMappedFile) (s' : S) (file high low : ℕ)
      → (sys.create_file s path).0 ≡ some file
      → sys.get_file_size (sys.create_file s path).1 file ≡ some (high, low)
      → view_windows sys file high low (sys.create_file s path).1 ≡ some (o, s')
      → Made path s o s'
  unfolding view_windows
  view_windows-Made path s o s' file high low a b h =
      let s1 : S = (sys.create_file s path).1 in
      let s2 : S = (sys.create_file_mapping s1 file high low).1 in
      let size : ℕ = high * 2 ^ 32 + low in
      elim (Option-cases (sys.create_file_mapping s1 file high low).0) [
        | inl bad ↦ absurd (ground (arith, h, bad))
        | inr (file_view, c) ↦ elim (Option-cases (sys.map_view_of_file s2 file_view size).0) [
          | inl bad ↦ absurd (ground (arith, h, c, bad))
          | inr (ptr, d) ↦
              let made : WinMemoryMappedFile = record {
                file = file;
                file_view = file_view;
                size = size;
                ptr = ptr;
              } in
              let s3 : S =
                sys.flush_view_of_file (sys.map_view_of_file s2 file_view size).1 ptr size in
              let did : view_windows sys file high low s1 ≡ some (made, s3) =
                ground (arith, c, d) in
              let same : made ≡ o = ground (arith, did, h) in
              let after : s3 ≡ s' = ground (arith, did, h) in
              let m : Made path s made s3 = record {
                high = high;
                low = low;
                was_opened = a;
                sized = b;
                same_size = refl;
                sectioned = c;
                viewed = d;
                after = refl;
              } in
              subst (λ x. Made path s x s') same (subst (Made path s made) after m)
        ]
      ]

  map_windows-Made :
      (path : List ℕ) (s : S) (o : WinMemoryMappedFile) (s' : S)
      → map_windows sys path s ≡ some (o, s')
      → Made path s o s'
  unfolding map_windows
  map_windows-Made path s o s' h = elim (Option-cases (sys.create_file s path).0) [
    | inl bad ↦ absurd (ground (arith, h, bad))
    | inr (file, a) ↦ elim (Option-cases (sys.get_file_size (sys.create_file s path).1 file)) [
      | inl bad ↦ absurd (ground (arith, h, a, bad))
      | inr ((high, low), b) ↦
          view_windows-Made path s o s' file high low a b (ground (arith, h, a, b))
    ]
  ]

  flush_lem :
      (path : List ℕ) (o : WinMemoryMappedFile) (s : S)
      → Live path o s
      → Live path o (flush_windows sys o s)
        × ((i : ℕ) → sys.load (flush_windows sys o s) o.ptr i ≡ sys.load s o.ptr i)
  unfolding flush_windows
  flush_lem path o s l = (
    record {
      is_open = laws.flush_opened s o.ptr o.size o.file ∙ l.is_open;
      is_section = laws.flush_section s o.ptr o.size o.file_view ∙ l.is_section;
      is_viewed = laws.flush_view s o.ptr o.size o.ptr ∙ l.is_viewed;
      whole = laws.flush_size s o.ptr o.size path ∙ l.whole;
    },
    λ i. laws.flush_load s o.ptr o.size o.ptr i,
  )

  construct_lem :
      (path : List ℕ) (o : WinMemoryMappedFile) (s s' : S)
      → Made path s o s'
      → Live path o s'
        × (o.size ≡ sys.size_of s path)
        × ((i : ℕ) → i < o.size → sys.load s' o.ptr i ≡ sys.byte_of s path i)
  unfolding flush_windows
  construct_lem path o s s' made =
      let s1 : S = (sys.create_file s path).1 in
      let s2 : S = (sys.create_file_mapping s1 o.file made.high made.low).1 in
      let s3 : S = (sys.map_view_of_file s2 o.file_view o.size).1 in
      let opens : sys.opened s1 o.file ≡ some path =
        laws.create_opened s path o.file made.was_opened in
      let total : made.high * 2 ^ 32 + made.low ≡ sys.size_of s1 path =
        laws.get_size s1 o.file path made.high made.low opens made.sized in
      let whole : o.size ≡ sys.size_of s1 path = made.same_size ∙ total in
      let whole2 : o.size ≡ sys.size_of s2 path =
        whole ∙ sym (laws.mapping_size s1 o.file made.high made.low path path opens total) in
      let section : sys.section s2 o.file_view ≡ some path =
        laws.mapping_section s1 o.file made.high made.low path o.file_view opens total
          made.sectioned in
      let live : Live path o s3 = record {
        is_open =
            laws.view_opened s2 o.file_view o.size o.file
            ∙ laws.mapping_opened s1 o.file made.high made.low o.file
            ∙ opens;
        is_section = laws.view_section s2 o.file_view o.size o.file_view ∙ section;
        is_viewed = laws.view_maps s2 o.file_view o.size path o.ptr section whole2 made.viewed;
        whole = laws.view_size s2 o.file_view o.size path ∙ sym whole2;
      } in
      (
        subst (Live path o) (sym made.after) (flush_lem path o s3 live).0,
        whole ∙ laws.create_size s path path,
        λ i h.
            ap (λ x. sys.load x o.ptr i) made.after
            ∙ (flush_lem path o s3 live).1 i
            ∙ laws.view_load s2 o.file_view o.size path o.ptr i section whole2 made.viewed h
            ∙ laws.mapping_byte s1 o.file made.high made.low path path i opens total
            ∙ laws.create_byte s path path i,
      )

  put_lem :
      (path : List ℕ) (o : WinMemoryMappedFile) (s : S) (bytes : ℕ → ℕ)
      → Live path o s
      → Live path o (sys.store s o.ptr o.size bytes)
        × ((i : ℕ) → i < o.size → sys.load (sys.store s o.ptr o.size bytes) o.ptr i ≡ bytes i)
  put_lem path o s bytes l = (
    record {
      is_open = laws.store_opened s o.ptr o.size o.file bytes ∙ l.is_open;
      is_section = laws.store_section s o.ptr o.size o.file_view bytes ∙ l.is_section;
      is_viewed = laws.store_view s o.ptr o.size o.ptr bytes ∙ l.is_viewed;
      whole = laws.store_size s o.ptr o.size bytes path ∙ l.whole;
    },
    λ i h. laws.store_load s path o.ptr o.size i bytes l.is_viewed h,
  )

  destruct_lem :
      (path : List ℕ) (o : WinMemoryMappedFile) (s : S)
      → Live path o s
      → (sys.size_of (unmap_windows sys o s) path ≡ o.size)
        × ((i : ℕ) → i < o.size → sys.byte_of (unmap_windows sys o s) path i ≡ sys.load s o.ptr i)
  unfolding unmap_windows
  destruct_lem path o s l =
      let s1 : S = sys.flush_view_of_file s o.ptr o.size in
      let s2 : S = sys.unmap_view_of_file s1 o.ptr in
      let s3 : S = sys.close_handle s2 o.file_view in
      (
        laws.close_size s3 o.file path
            ∙ laws.close_size s2 o.file_view path
            ∙ laws.unmap_size s1 o.ptr path
            ∙ laws.flush_size s o.ptr o.size path
            ∙ l.whole,
        λ i h.
            laws.close_byte s3 o.file path i
            ∙ laws.close_byte s2 o.file_view path i
            ∙ laws.unmap_byte s1 o.ptr path i
            ∙ laws.flush_byte s path o.ptr o.size i l.is_viewed h,
      )

  -- The destructor closes both handles and leaves the file in no view.
  pub unmap_windows_releases :
      (o : WinMemoryMappedFile) (s : S)
      → (sys.opened (unmap_windows sys o s) o.file ≡ none)
        × (sys.section (unmap_windows sys o s) o.file_view ≡ none)
        × (sys.view (unmap_windows sys o s) o.ptr ≡ none)
  unfolding unmap_windows flush_windows
  unmap_windows_releases o s =
      let s1 : S = sys.flush_view_of_file s o.ptr o.size in
      let s2 : S = sys.unmap_view_of_file s1 o.ptr in
      let s3 : S = sys.close_handle s2 o.file_view in
      (
        laws.close_opened s3 o.file o.file ∙ if-then (o.file == o.file) none _ (==-self o.file),
        laws.close_section s3 o.file o.file_view
            ∙ ap (λ x. if o.file == o.file_view then none else x)
                (laws.close_section s2 o.file_view o.file_view
                  ∙ if-then (o.file_view == o.file_view) none _ (==-self o.file_view))
            ∙ ground arith,
        laws.close_view s3 o.file o.ptr
            ∙ laws.close_view s2 o.file_view o.ptr
            ∙ laws.unmap_view s1 o.ptr,
      )

  pub windows-IsBacking : IsBacking windows
  windows-IsBacking = record {
    Live = Live;
    live_size = λ path o s l. l.whole;
    construct-Live = λ path o s s' h. construct_lem path o s s' (map_windows-Made path s o s' h);
    put-Live = put_lem;
    flush-Live = flush_lem;
    destruct_saves = destruct_lem;
  }

  -- A mapped file that was constructed shows the bytes of the file; bytes that are stored through
  -- the pointer are in the file after the destructor, which closes both handles and the view.
  pub unmap_windows-map_windows :
      (path : List ℕ) (o : WinMemoryMappedFile) (s s' : S) (bytes : ℕ → ℕ)
      → map_windows sys path s ≡ some (o, s')
      → (o.size ≡ sys.size_of s path)
        × ((i : ℕ) → i < o.size → sys.load s' o.ptr i ≡ sys.byte_of s path i)
        × ((i : ℕ)
            → i < o.size
            → sys.byte_of (unmap_windows sys o (sys.store s' o.ptr o.size bytes)) path i ≡ bytes i)
        × (sys.opened (unmap_windows sys o (sys.store s' o.ptr o.size bytes)) o.file ≡ none)
        × (sys.section (unmap_windows sys o (sys.store s' o.ptr o.size bytes)) o.file_view ≡ none)
        × (sys.view (unmap_windows sys o (sys.store s' o.ptr o.size bytes)) o.ptr ≡ none)
  unmap_windows-map_windows path o s s' bytes h =
      let (live, size, shows) = construct_lem path o s s' (map_windows-Made path s o s' h) in
      let (live', stores) = put_lem path o s' bytes live in
      let (_, saves) = destruct_lem path o (sys.store s' o.ptr o.size bytes) live' in
      let (closed, unsectioned, unviewed) =
        unmap_windows_releases o (sys.store s' o.ptr o.size bytes) in
      (size, shows, λ i k. saves i k ∙ stores i k, closed, unsectioned, unviewed)
