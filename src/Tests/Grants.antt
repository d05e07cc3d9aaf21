-- ===== src/Tests/Grants.antt =====
-- The properties of the persistent grants, at concrete inputs.
use us_blkback.Base.{
  ℕ, zero, suc, ◌>>=◌, ◌==◌, if◌then◌else◌, ◌≡◌, refl, Option, none, some, List, [], ◌∷◌, ◌≤◌,
  length, take,
}
use us_blkback.Grants.{Grants, kept, evict_grants, free_grants, add_grant, map_grant}
use us_blkback.Grants.Inv.{Inv, Keeps}
use us_blkback.Grants.Nodes.{grefs}
use us_blkback.Grants.Add.{add_grant-Adds}
use us_blkback.Grants.Adds.{Adds}
use us_blkback.Grants.Evict.{evict_grants-Inv}
use us_blkback.Grants.History.{Use, add, evict, free, use_all, use_all-Inv}
use us_blkback.Limits.{constants}
use us_blkback.Tests.Machine.{World, abi, gnttab, gnttab_ok, nowhere, grants, grants_ok}

add_grant-Adds_example :
    (addr : ℕ) × (g : Grants World) × (add_grant gnttab 7 grants ≡ some (addr, g))
    × Adds gnttab nowhere 7 grants addr g
add_grant-Adds_example = add_grant-Adds gnttab gnttab_ok nowhere 7 grants grants_ok

-- The grants after `n` new ones.
filled : ℕ → (g : Grants World) × Inv gnttab nowhere g
filled zero = (grants, grants_ok)
filled (suc n) =
    let (g, v) = filled n in
    let (_, g', _, adds) = add_grant-Adds gnttab gnttab_ok nowhere (suc n) g v in (g', adds.valid)

abbrev full : Grants World
full = (filled 1024).0

evict_grants-Inv_example :
    (g : Grants World) × (evict_grants gnttab full ≡ some g)
    × Inv gnttab nowhere g
    × Keeps gnttab nowhere full g
    × (g.lru ≡ take kept full.lru)
evict_grants-Inv_example = evict_grants-Inv gnttab gnttab_ok nowhere full (filled 1024).1

-- Two grants, and the first once more: it comes to the front, at its old address.
uses : Option (Grants World)
uses = do
  (_, g) ← add_grant gnttab 7 grants
  (_, g) ← add_grant gnttab 8 g
  (addr, g) ← add_grant gnttab 7 g
  if addr == 1 then some g else none

uses_reorder : (g : Grants World) × (uses ≡ some g) × (grefs g.lru ≡ 7 ∷ 8 ∷ [])
unfolding uses add_grant map_grant
uses_reorder = (_, refl, refl)

abbrev all_uses : List Use
all_uses = add 7 ∷ add 8 ∷ add 7 ∷ evict ∷ free ∷ add 0 ∷ add 9 ∷ []

use_all-Inv_example :
    (g : Grants World) × (use_all gnttab all_uses grants ≡ some g)
    × Inv gnttab nowhere g
    × (length g.lru ≤ 1024)
    × ((a : ℕ) → gnttab.resolve (free_grants gnttab g).world a ≡ nowhere a)
use_all-Inv_example = use_all-Inv gnttab gnttab_ok nowhere all_uses grants grants_ok

constants_x86 : constants abi ≡ record {
  pgrants = 8192;
  frontends = 8;
  pgrants_per_frontend = 1024;
  page_sectors = 8;
  page_segments = 512;
  indirect_segments = 256;
  indirect_pages = 1;
  eviction_size = 52;
}
constants_x86 = refl
