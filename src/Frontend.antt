-- ===== src/Frontend.antt =====
-- `BlkFrontendHandler` (BlkBackend.hpp, BlkBackend.cpp), over the XenStore of libxenbe.
pub mod Paths
pub mod Bind
pub mod Session
pub mod Life
use us_blkback.Base.{
  ℕ, suc, zero, ◌-◌, Option, none, some, List, [], ◌∷◌, ◌&&◌, Bool, true, false, ltb, ◌==◌,
  if◌then◌else◌, length, take,
}
use us_blkback.Disk.Image.{MappedFile, DiskImage, sector_size, open_image}
use us_blkback.Limits.{Abi, max_indirect_segments}
use us_blkback.Grants.{Gnttab}
use us_blkback.Ring.{Segment, Ring, destroy}

-- How a call ends. `terminated` is `std::terminate` or undefined behaviour; `thrown` is an
-- exception of libxenbe that passes through the handler, and what was published before it is not
-- kept.
pub data Result {ℓ} (A : Type ℓ) : Type ℓ where
  terminated thrown : Result A
  returned : A → Result A

infixl 5 ◌>>=◌
abbrev pub ◌>>=◌ {ℓ κ} : {A : Type ℓ} {B : Type κ} → Result A → (A → Result B) → Result B
terminated >>= f = terminated
thrown >>= f = thrown
returned a >>= f = f a

abbrev pub or_throw {ℓ} : {A : Type ℓ} → Option A → Result A
or_throw none = thrown
or_throw (some a) = returned a

abbrev pub or_terminate {ℓ} : {A : Type ℓ} → Option A → Result A
or_terminate none = terminated
or_terminate (some a) = returned a

-- The XenStore entries that `onBind` names.
pub data Key : Type 0 where
  event_channel ring_ref params feature_max_indirect_segments feature_discard : Key
  feature_persistent feature_flush_cache feature_barrier sectors sector_size_entry info : Key

-- What libxenbe answers to `onBind`: the entries of the XenStore, of which a missing one makes it
-- throw, whether `writeInt` returns or throws, and whether `addRingBuffer` does.
pub record XenStore : Type 0 where
  pub read_int : Key → Option ℕ
  pub read_string : Key → Option (List ℕ)
  pub write_int : Key → ℕ → Bool
  pub adds_ring : Bool

-- `writeInt` of each entry in turn.
unfoldable pub write_all : XenStore → List (Key × ℕ) → Result (Unit {0})
write_all store [] = returned tt
write_all store ((k, n) ∷ rest) = elim (store.write_int k n) [
  | true ↦ write_all store rest
  | false ↦ thrown
]

-- The character '.
abbrev pub quote : ℕ
quote = 39

-- `back` of the string with the first character `c`.
abbrev pub last : ℕ → List ℕ → ℕ
last c [] = c
last c (d ∷ ds) = last d ds

-- The path without the quotes around it. `front` of an empty string is undefined behaviour.
unfoldable pub unquote : List ℕ → Option (List ℕ)
unquote [] = none
unquote (c ∷ cs) =
    if c == quote && last c cs == quote
    then if ltb 2 (suc (length cs)) then some (take (suc (length cs) - 2) cs) else some (c ∷ cs)
    else some (c ∷ cs)

-- The ring that `onBind` creates, with what it published, and the number of `shared_ptr`s to the
-- ring: the handler's, and that of the list that `addRingBuffer` of libxenbe appends to.
pub record Owned (W F : Type 0) : Type 0 where
  pub published : List (Key × ℕ)
  pub ring : Ring W F
  pub owners : ℕ

module _ {F : Type 0} where
  -- The entries that `onBind` writes, in order.
  abbrev pub entries : DiskImage F → List (Key × ℕ)
  entries image =
      (feature_max_indirect_segments, max_indirect_segments)
      ∷ (feature_discard, 0)
      ∷ (feature_persistent, 1)
      ∷ (feature_flush_cache, 1)
      ∷ (feature_barrier, 1)
      ∷ (sectors, image.sector_count)
      ∷ (sector_size_entry, sector_size)
      ∷ (info, 0)
      ∷ []

-- The new ring, with no grant mapped, and its two owners.
abbrev pub bound : {W : Type 0} {F : Type 0} → ℕ → DiskImage F → W → Owned W F
bound dom_id image w = record {
  published = entries image;
  ring = record {
    grants = record { dom_id = dom_id; lru = []; index = λ _. none; next_node = 0; world = w };
    image = image;
    sent = [];
  };
  owners = 2;
}

-- `open_file` is the constructor of the mapped file, `none` where its `throw;` terminates;
-- `ring_opens` tells whether the base class of the ring can map the ring and bind the port.
module _ {W F : Type 0} (file : MappedFile F) (open_file : List ℕ → Option F)
    (ring_opens : ℕ → ℕ → ℕ → Bool) where
  unfoldable pub on_bind : XenStore → ℕ → W → Result (Owned W F)
  unfolding write_all
  on_bind store dom_id w = do
    port ← or_throw (store.read_int event_channel)
    ref ← or_throw (store.read_int ring_ref)
    path ← or_throw (store.read_string params)
    name ← or_terminate (unquote path)
    f ← or_terminate (open_file name)
    image ← or_terminate (open_image file f)
    written ← write_all store (entries image)
    if ring_opens dom_id port ref && store.adds_ring
        then returned (bound dom_id image w)
        else thrown

module _ {W F : Type 0} (abi : Abi) (segment_at : (ℕ → ℕ) → ℕ → Segment) (gnt : Gnttab W)
    (file : MappedFile F) where
  -- `reset` of one `shared_ptr` to the ring: the last one destroys it.
  unfoldable pub release : Owned W F → Owned W F
  release o = elim o.owners [
    | zero ↦ o
    | suc zero ↦ record o { ring = destroy abi segment_at gnt file o.ring; owners = 0 }
    | suc (suc n) ↦ record o { owners = suc n }
  ]

  -- `onClosing` resets the handler's pointer; libxenbe drops the other with its list.
  unfoldable pub on_closing : Owned W F → Owned W F
  unfolding release
  on_closing o = release o
