-- ===== src/Grants/Inv.antt =====
-- What holds of the grants between two calls, for a hypervisor that keeps its laws.
use us_blkback.Base.{ℕ, ◌≤◌, ◌≡◌, ◌≢◌, refl, ◌∙◌, Option, none, some, ◌==◌, if◌then◌else◌, length}
use us_blkback.Grants.{Gnttab, Grants}
use us_blkback.Grants.Nodes.{iter, mapped, Good}

-- What the documentation of the grant table promises: a refused grant maps nothing, a mapped one
-- gets an address that was free, and nothing else changes; a write to a page is seen in that page.
pub record IsGnttab {W : Type 0} (gnt : Gnttab W) : Type 0 where
  pub map_fails :
      (w : W) (d k a : ℕ)
      → (gnt.map_grant_ref w d k).0 ≡ 0
      → gnt.resolve (gnt.map_grant_ref w d k).1 a ≡ gnt.resolve w a
  pub map_new :
      (w : W) (d k : ℕ)
      → (gnt.map_grant_ref w d k).0 ≢ 0
      → gnt.resolve w (gnt.map_grant_ref w d k).0 ≡ none
  pub map_maps :
      (w : W) (d k a : ℕ)
      → (gnt.map_grant_ref w d k).0 ≢ 0
      → gnt.resolve (gnt.map_grant_ref w d k).1 a
        ≡ (if (gnt.map_grant_ref w d k).0 == a then some k else gnt.resolve w a)
  pub resolve-unmap :
      (w : W) (a b k : ℕ)
      → gnt.resolve w a ≡ some k
      → gnt.resolve (gnt.unmap w a) b ≡ (if a == b then none else gnt.resolve w b)
  pub resolve-set_page :
      (w : W) (k a : ℕ) (f : ℕ → ℕ) → gnt.resolve (gnt.set_page w k f) a ≡ gnt.resolve w a
  pub page-map : (w : W) (d k j i : ℕ) → gnt.page (gnt.map_grant_ref w d k).1 j i ≡ gnt.page w j i
  pub page-unmap : (w : W) (a j i : ℕ) → gnt.page (gnt.unmap w a) j i ≡ gnt.page w j i
  pub page-set_page :
      (w : W) (k j i : ℕ) (f : ℕ → ℕ)
      → gnt.page (gnt.set_page w k f) j i ≡ (if k == j then f i else gnt.page w j i)

module _ {W : Type 0} (gnt : Gnttab W) (base : ℕ → Option ℕ) where
  -- `base` is what the process had mapped before the first grant of this ring. The map holds the
  -- iterator of each grant in the list, each of these is mapped, and nothing besides is.
  pub record Inv (g : Grants W) : Type 0 where
    pub good : Good g.next_node base g.lru
    pub coherent : (k : ℕ) → g.index k ≡ iter k g.lru
    pub exact : (a : ℕ) → gnt.resolve g.world a ≡ mapped base g.lru a
    pub bounded : length g.lru ≤ 1024

  -- No call touches the bytes of a page, or the domain.
  pub record Keeps (g g' : Grants W) : Type 0 where
    pub same_domain : g'.dom_id ≡ g.dom_id
    pub same_pages : (k i : ℕ) → gnt.page g'.world k i ≡ gnt.page g.world k i

  pub Keeps-refl : (g : Grants W) → Keeps g g
  Keeps-refl g = record { same_domain = refl; same_pages = λ k i. refl }

  pub Keeps-trans : {g h k : Grants W} → Keeps g h → Keeps h k → Keeps g k
  Keeps-trans a b = record {
    same_domain = b.same_domain ∙ a.same_domain;
    same_pages = λ j i. b.same_pages j i ∙ a.same_pages j i;
  }
