-- ===== src/Frontend/Bind.antt =====
-- `onBind` (BlkBackend.cpp): what it publishes and the ring it creates.
use us_blkback.Base.{
  ℕ, ◌*◌, ◌%◌, ◌/◌, ◌<◌, ◌≡◌, refl, Option, some, List, [], ◌∷◌, Bool, true, int_max, arith,
}
use us_blkback.Disk.Image.{MappedFile, DiskImage, open_image}
use us_blkback.Disk.Bounds.{IsWf}
use us_blkback.Grants.{Gnttab}
use us_blkback.Ring.Effects.{RingInv}
use us_blkback.Frontend.{
  XenStore, Key, event_channel, ring_ref, params, feature_max_indirect_segments, feature_discard,
  feature_persistent, feature_flush_cache, feature_barrier, sectors, sector_size_entry, info,
  write_all, unquote, Owned, entries, bound, returned, on_bind,
}

write_all-returned :
    (store : XenStore) (es : List (Key × ℕ))
    → ((k : Key) (n : ℕ) → store.write_int k n ≡ true)
    → write_all store es ≡ returned tt
unfolding write_all
write_all-returned store [] writes = refl
write_all-returned store ((k, n) ∷ rest) writes =
    rw (write_all, writes k n) (write_all-returned store rest writes)

module _ {W F : Type 0} (gnt : Gnttab W) (file : MappedFile F) where
  pub bound-RingInv :
      (dom_id : ℕ) (image : DiskImage F) (w : W)
      → IsWf file image
      → RingInv gnt file (λ a. gnt.resolve w a) (bound dom_id image w).ring
  bound-RingInv dom_id image w ok = record {
    grants_ok = record {
      good = tt;
      coherent = λ k. refl;
      exact = λ a. refl;
      bounded = omega arith;
    };
    image_ok = ok;
  }

module _ {W F : Type 0} (gnt : Gnttab W) (file : MappedFile F) (open_file : List ℕ → Option F)
    (ring_opens : ℕ → ℕ → ℕ → Bool) where
  -- A handler whose entries are there, whose image file can be opened and is a positive whole
  -- number of sectors, fewer than INT_MAX, whose writes to the XenStore succeed, and whose ring can
  -- be mapped and added, gets a ring in order with no grant and no response, with two owners. It
  -- publishes 256 indirect segments, no discard, persistent grants, flush, barrier, the number of
  -- sectors of the file, sectors of 512 bytes and an info of 0, in this order.
  pub on_bind-RingInv :
      (store : XenStore) (dom_id : ℕ) (w : W) (port ref : ℕ) (path name : List ℕ) (f : F)
      → store.read_int event_channel ≡ some port
      → store.read_int ring_ref ≡ some ref
      → store.read_string params ≡ some path
      → unquote path ≡ some name
      → open_file name ≡ some f
      → 0 < file.size f
      → file.size f % 512 ≡ 0
      → file.size f / 512 < int_max
      → ((k : Key) (n : ℕ) → store.write_int k n ≡ true)
      → ring_opens dom_id port ref ≡ true
      → store.adds_ring ≡ true
      → (o : Owned W F) × (on_bind file open_file ring_opens store dom_id w ≡ returned o)
        × RingInv gnt file (λ a. gnt.resolve w a) o.ring
        × (o.ring.sent ≡ [])
        × (o.ring.grants.lru ≡ [])
        × (o.published
            ≡ (feature_max_indirect_segments, 256)
              ∷ (feature_discard, 0)
              ∷ (feature_persistent, 1)
              ∷ (feature_flush_cache, 1)
              ∷ (feature_barrier, 1)
              ∷ (sectors, file.size f / 512)
              ∷ (sector_size_entry, 512)
              ∷ (info, 0)
              ∷ [])
        × (o.ring.image.sector_count * 512 ≡ file.size f)
        × (o.owners ≡ 2)
  unfolding on_bind open_image
  on_bind-RingInv store dom_id w port ref path name f a b c d e size whole few writes opens adds =
      let image : DiskImage F = record { file = f; sector_count = file.size f / 512 } in
      let written : write_all store (entries image) ≡ returned tt =
        write_all-returned store (entries image) writes in
      (
        bound dom_id image w,
        ground (arith, a, b, c, d, e, written, opens, adds),
        bound-RingInv gnt file dom_id image w
            (record { whole = omega arith; some_sector = omega arith; few = few }),
        refl,
        refl,
        refl,
        omega arith,
        refl,
      )
