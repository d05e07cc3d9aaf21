-- ===== src/Grants/Adds.antt =====
-- What a call of `addGrant` (BlkBackend.cpp) returns and leaves.
use us_blkback.Base.{ℕ, suc, ◌≤◌, ◌≡◌, ◌≢◌, Option, List, true, false, ◌⊎◌}
use us_blkback.Grants.{Gnttab, Node, Grants}
use us_blkback.Grants.Nodes.{grefs}
use us_blkback.Grants.Spec.{contains, use_grant, Recent}
use us_blkback.Grants.Inv.{Inv, Keeps}

module _ {W : Type 0} (gnt : Gnttab W) (base : ℕ → Option ℕ) where
  -- Grants move back by one place at most, unless a full list is cut.
  abbrev pub Ages : List Node → List Node → Type 0
  Ages ns ns' = (m a k : ℕ) → m ≤ 972 → Recent m a k ns → Recent (suc m) a k ns'

  -- At some time the hypervisor refuses to map grant `k` of domain `d`.
  abbrev pub Refuses : ℕ → ℕ → Type 0
  Refuses d k = (w : W) × ((gnt.map_grant_ref w d k).0 ≡ 0)

  -- What a call that uses grant `k` returns, and leaves.
  pub record Adds (k : ℕ) (g : Grants W) (addr : ℕ) (g' : Grants W) : Type 0 where
    pub valid : Inv gnt base g'
    pub keeps : Keeps gnt base g g'
    pub ages : Ages g.lru g'.lru
    pub result :
        ((addr ≢ 0) × Recent 1 addr k g'.lru × (grefs g'.lru ≡ use_grant true k (grefs g.lru)))
        ⊎ ((addr ≡ 0)
            × (contains k (grefs g.lru) ≡ false)
            × (grefs g'.lru ≡ use_grant false k (grefs g.lru))
            × Refuses g.dom_id k)
