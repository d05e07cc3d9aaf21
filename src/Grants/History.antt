-- ===== src/Grants/History.antt =====
-- The calls of `addGrant`, `evictGrants` and `freeGrants` (BlkBackend.cpp) one after the other.
use us_blkback.Base.{ℕ, ◌≤◌, ◌≡◌, refl, Option, none, some, List, [], ◌∷◌, length}
use us_blkback.Grants.{Gnttab, Grants, add_grant, evict_grants, free_grants}
use us_blkback.Grants.Inv.{IsGnttab, Inv}
use us_blkback.Grants.Evict.{evict_grants-Inv, free_grants-Inv, free_grants-base}
use us_blkback.Grants.Add.{add_grant-Adds}

pub data Use : Type 0 where
  add : ℕ → Use
  evict free : Use

module _ {W : Type 0} (gnt : Gnttab W) where
  unfoldable pub use_grants : Use → Grants W → Option (Grants W)
  use_grants (add gref) g = elim (add_grant gnt gref g) [ none ↦ none | some (addr, g') ↦ some g' ]
  use_grants evict g = evict_grants gnt g
  use_grants free g = some (free_grants gnt g)

  unfoldable pub use_all : List Use → Grants W → Option (Grants W)
  unfolding use_grants
  use_all [] g = some g
  use_all (u ∷ us) g = elim (use_grants u g) [ none ↦ none | some g' ↦ use_all us g' ]

module _ {W : Type 0} (gnt : Gnttab W) (laws : IsGnttab gnt) (base : ℕ → Option ℕ) where
  use_grants-Inv :
      (u : Use) (g : Grants W)
      → Inv gnt base g
      → (g' : Grants W) × (use_grants gnt u g ≡ some g') × Inv gnt base g'
  unfolding use_grants
  use_grants-Inv (add gref) g v =
      let (addr, g', ran, adds) = add_grant-Adds gnt laws base gref g v in
      (g', rw (use_grants, ran) refl, adds.valid)
  use_grants-Inv evict g v =
      let (g', ran, v', _, _) = evict_grants-Inv gnt laws base g v in (g', ran, v')
  use_grants-Inv free g v = (free_grants gnt g, refl, free_grants-Inv gnt laws base g v)

  -- From grants in order, any sequence of these calls returns and leaves them in order, at most
  -- 1024 of them: none dangles, and freeing them leaves mapped what was mapped before the first.
  pub use_all-Inv :
      (us : List Use) (g : Grants W)
      → Inv gnt base g
      → (g' : Grants W) × (use_all gnt us g ≡ some g')
        × Inv gnt base g'
        × (length g'.lru ≤ 1024)
        × ((a : ℕ) → gnt.resolve (free_grants gnt g').world a ≡ base a)
  unfolding use_all
  use_all-Inv [] g v = (g, refl, v, v.bounded, free_grants-base gnt laws base g v)
  use_all-Inv (u ∷ us) g v =
      let (g1, first, v1) = use_grants-Inv u g v in
      let (g', rest, v', few, back) = use_all-Inv us g1 v1 in
      (g', rw (use_all, first) rest, v', few, back)
