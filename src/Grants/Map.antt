-- ===== src/Grants/Map.antt =====
-- `mapGrant` (BlkBackend.cpp): a grant that the hypervisor refuses, and one that it maps.
use us_blkback.Base.{ℕ, suc, ◌<◌, ◌≡◌, ◌≢◌, refl, sym, ◌∙◌, Option, none, ◌∷◌, length, arith}
use us_blkback.Grants.{Gnttab, Node, Grants, emplace, map_grant}
use us_blkback.Grants.Nodes.{Apart, Apart-new, Good-mono}
use us_blkback.Grants.Inv.{IsGnttab, Inv, Keeps}

module _ {W : Type 0} (gnt : Gnttab W) (laws : IsGnttab gnt) (base : ℕ → Option ℕ) where
  -- A miss, once there is room: refused by the hypervisor, or a new grant in front.
  pub map_grant-refused :
      (k : ℕ) (g : Grants W)
      → Inv gnt base g
      → (gnt.map_grant_ref g.world g.dom_id k).0 ≡ 0
      → (g' : Grants W) × (map_grant gnt k g ≡ (0, g'))
        × Inv gnt base g'
        × Keeps gnt base g g'
        × (g'.lru ≡ g.lru)
  unfolding map_grant
  map_grant-refused k g v e = (
    record g { world = (gnt.map_grant_ref g.world g.dom_id k).1 },
    ground arith,
    record {
      good = v.good;
      coherent = v.coherent;
      exact = λ a. laws.map_fails g.world g.dom_id k a e ∙ v.exact a;
      bounded = v.bounded;
    },
    record { same_domain = refl; same_pages = laws.page-map g.world g.dom_id k },
    refl,
  )

  pub map_grant-granted :
      (k : ℕ) (g : Grants W)
      → Inv gnt base g
      → length g.lru < 1024
      → g.index k ≡ none
      → (gnt.map_grant_ref g.world g.dom_id k).0 ≢ 0
      → (n : Node) × (g' : Grants W) × (map_grant gnt k g ≡ (n.addr, g'))
        × Inv gnt base g'
        × Keeps gnt base g g'
        × (g'.lru ≡ n ∷ g.lru)
        × (n.addr ≢ 0)
        × (n.gref ≡ k)
  unfolding map_grant
  map_grant-granted k g v room absent e = (
    n,
    record g {
      world = r.1;
      lru = n ∷ g.lru;
      next_node = suc g.next_node;
      index = emplace g.index k g.next_node;
    },
    ground arith,
    record {
      good = ((omega arith, e, apart.1), apart.0, Good-mono base g.next_node g.lru v.good);
      coherent = λ j. ground (arith, v.coherent j);
      exact = λ a. ground (arith, laws.map_maps g.world g.dom_id k a e, v.exact a);
      bounded = room;
    },
    record { same_domain = refl; same_pages = laws.page-map g.world g.dom_id k },
    refl,
    e,
    refl,
  )
    where
      r : ℕ × W
      r = gnt.map_grant_ref g.world g.dom_id k

      n : Node
      n = record { id = g.next_node; page = record { addr = r.0; gref = k } }

      apart : Apart n g.lru × (base n.addr ≡ none)
      apart =
          Apart-new base n g.next_node g.lru v.good (omega arith) (sym (v.coherent k) ∙ absent)
            (sym (v.exact n.addr) ∙ laws.map_new g.world g.dom_id k e)
