-- ===== src/Disk/Mapped/Backing.antt =====
-- What the two classes of MemoryMappedFile.h have in common, and the interface of `DiskImage` over
-- either of them.
use us_blkback.Base.{ℕ, ◌<◌, ◌≡◌, refl, Option, some, List}
use us_blkback.Disk.Image.{MappedFile}
use us_blkback.Disk.Bounds.{IsMappedFile}

-- A class derived from `MemoryMappedFile`: its constructor, destructor and methods, for objects `O`
-- in a state `S` of the system. `size_of` and `byte_of` are the files by their path.
pub record Backing (S O : Type 0) : Type 0 where
  pub construct : List ℕ → S → Option (O × S)
  pub destruct : O → S → S
  pub get : O → S → ℕ → ℕ
  pub put : O → S → (ℕ → ℕ) → S
  pub flush : O → S → S
  pub size : O → ℕ
  pub size_of : S → List ℕ → ℕ
  pub byte_of : S → List ℕ → ℕ → ℕ

-- What such a class promises of an object that is `Live`: one that maps the file at `path`.
pub record IsBacking {S O : Type 0} (b : Backing S O) : Type 1 where
  pub Live : List ℕ → O → S → Type 0
  pub live_size : (path : List ℕ) (o : O) (s : S) → Live path o s → b.size_of s path ≡ b.size o
  pub construct-Live :
      (path : List ℕ) (o : O) (s s' : S)
      → b.construct path s ≡ some (o, s')
      → Live path o s'
        × (b.size o ≡ b.size_of s path)
        × ((i : ℕ) → i < b.size o → b.get o s' i ≡ b.byte_of s path i)
  pub put-Live :
      (path : List ℕ) (o : O) (s : S) (bytes : ℕ → ℕ)
      → Live path o s
      → Live path o (b.put o s bytes)
        × ((i : ℕ) → i < b.size o → b.get o (b.put o s bytes) i ≡ bytes i)
  pub flush-Live :
      (path : List ℕ) (o : O) (s : S)
      → Live path o s
      → Live path o (b.flush o s) × ((i : ℕ) → b.get o (b.flush o s) i ≡ b.get o s i)
  pub destruct_saves :
      (path : List ℕ) (o : O) (s : S)
      → Live path o s
      → (b.size_of (b.destruct o s) path ≡ b.size o)
        × ((i : ℕ) → i < b.size o → b.byte_of (b.destruct o s) path i ≡ b.get o s i)

module _ {S O : Type 0} (b : Backing S O) (laws : IsBacking b) (path : List ℕ) where
  -- An object that maps the file, and the system around it.
  pub record Opened : Type 0 where
    pub object : O
    pub state : S
    pub live : laws.Live path object state

  abbrev pub mapped_file : MappedFile Opened
  mapped_file = record {
    get = λ f. b.get f.object f.state;
    put = λ f bytes. record {
      object = f.object;
      state = b.put f.object f.state bytes;
      live = (laws.put-Live path f.object f.state bytes f.live).0;
    };
    flush = λ f. record {
      object = f.object;
      state = b.flush f.object f.state;
      live = (laws.flush-Live path f.object f.state f.live).0;
    };
    size = λ f. b.size f.object;
  }

  pub mapped_file-IsMappedFile : IsMappedFile mapped_file
  mapped_file-IsMappedFile = record {
    get-put = λ f bytes i h. (laws.put-Live path f.object f.state bytes f.live).1 i h;
    size-put = λ f bytes. refl;
    get-flush = λ f i. (laws.flush-Live path f.object f.state f.live).1 i;
    size-flush = λ f. refl;
  }
