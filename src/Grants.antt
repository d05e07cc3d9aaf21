-- ===== src/Grants.antt =====
-- The persistent grants of `BlkCmdRingBuffer` (BlkBackend.cpp) and `GntPage` (BlkBackend.hpp).
pub mod Nodes
pub mod Inv
pub mod Spec
pub mod Evict
pub mod Adds
pub mod Map
pub mod Add
pub mod History
use us_blkback.Base.{
  ℕ, zero, suc, ◌+◌, ◌-◌, Option, none, some, List, [], ◌∷◌, ltb, ◌==◌, if◌then◌else◌, length,
  ◌>>=◌, Bool, true, false,
}
use us_blkback.Limits.{max_pgrants_per_frontend, grant_eviction_size}

-- The grant table of the hypervisor and the pages that it shares, in a state `W`. An address is a
-- number, and 0 is the null pointer. `resolve` says which grant a mapped address is a mapping of.
pub record Gnttab (W : Type 0) : Type 0 where
  pub map_grant_ref : W → ℕ → ℕ → ℕ × W
  pub unmap : W → ℕ → W
  pub resolve : W → ℕ → Option ℕ
  pub page : W → ℕ → ℕ → ℕ
  pub set_page : W → ℕ → (ℕ → ℕ) → W

pub record GntPage : Type 0 where
  pub addr : ℕ
  pub gref : ℕ

-- A node of `std::list<GntPage>`. Its `id` is what an iterator holds: it stays as the node moves.
pub record Node : Type 0 where
  pub id : ℕ
  pub page : GntPage
  pub open page use *

-- mDomId, mGntLru and mGntMap, with the node that is allocated next and the machine.
pub record Grants (W : Type 0) : Type 0 where
  pub dom_id : ℕ
  pub lru : List Node
  pub index : ℕ → Option ℕ
  pub next_node : ℕ
  pub world : W

-- The node behind an iterator; `none` if the iterator dangles.
abbrev pub deref : ℕ → List Node → Option Node
deref it [] = none
deref it (n ∷ ns) = if n.id == it then some n else deref it ns

abbrev pub unlink : ℕ → List Node → List Node
unlink it [] = []
unlink it (n ∷ ns) = if n.id == it then ns else n ∷ unlink it ns

-- `mGntLru.splice(mGntLru.begin(), mGntLru, it)`.
abbrev pub splice : ℕ → List Node → Option (List Node)
splice it ns = deref it ns >>= λ n. some (n ∷ unlink it ns)

abbrev pub back : List Node → Option Node
back [] = none
back (n ∷ []) = some n
back (n ∷ m ∷ ns) = back (m ∷ ns)

abbrev pub pop_back : List Node → List Node
pop_back [] = []
pop_back (n ∷ []) = []
pop_back (n ∷ m ∷ ns) = n ∷ pop_back (m ∷ ns)

abbrev pub emplace : (ℕ → Option ℕ) → ℕ → ℕ → ℕ → Option ℕ
emplace f k it j = if k == j then some it else f j

abbrev pub erase : (ℕ → Option ℕ) → ℕ → ℕ → Option ℕ
erase f k j = if k == j then none else f j

-- Eviction stops at this many grants.
abbrev pub kept : ℕ
kept = max_pgrants_per_frontend - grant_eviction_size

module _ {W : Type 0} (gnt : Gnttab W) where
  -- `GntPage::map`: the page with its address, which is 0 if the hypervisor refuses.
  abbrev pub map_page : GntPage → ℕ → W → GntPage × W
  map_page p domid w = let r = gnt.map_grant_ref w domid p.gref in (record p { addr = r.0 }, r.1)

  -- `GntPage::unmap`.
  abbrev pub unmap_page : GntPage → W → W
  unmap_page p w = gnt.unmap w p.addr

  -- One round of the loop of `evictGrants`. `back` of an empty list is undefined behaviour.
  unfoldable pub evict_one : Grants W → Option (Grants W)
  evict_one g = back g.lru >>= λ n. some (record g {
    world = unmap_page n.page g.world;
    index = erase g.index n.gref;
    lru = pop_back g.lru;
  })

  -- The loop on fuel: one round for each grant.
  unfoldable pub evict_loop : ℕ → Grants W → Option (Grants W)
  evict_loop zero g = if ltb kept (length g.lru) then none else some g
  evict_loop (suc fuel) g = elim (ltb kept (length g.lru)) [
    | true ↦ evict_one g >>= λ g'. evict_loop fuel g'
    | false ↦ some g
  ]

  unfoldable pub evict_grants : Grants W → Option (Grants W)
  evict_grants g = evict_loop (length g.lru) g

  unfoldable pub unmap_all : List Node → W → W
  unmap_all [] w = w
  unmap_all (n ∷ ns) w = unmap_all ns (unmap_page n.page w)

  unfoldable pub free_grants : Grants W → Grants W
  free_grants g = record g { world = unmap_all g.lru g.world; lru = []; index = λ _. none }

  -- Returns the address, or 0.
  unfoldable pub map_grant : ℕ → Grants W → ℕ × Grants W
  map_grant gref g =
      let r = map_page (record { addr = 0; gref = gref }) g.dom_id g.world in
      let pushed = record g {
        world = r.1;
        lru = record { id = g.next_node; page = r.0 } ∷ g.lru;
        next_node = suc g.next_node;
      } in
      if r.0.addr == 0 then (0, record g { world = r.1 }) else elim (g.index gref) [
        | none ↦ (r.0.addr, record pushed { index = emplace g.index gref g.next_node })
        | some _ ↦ (0, record pushed { world = unmap_page r.0 r.1 })
      ]

  unfoldable pub add_grant : ℕ → Grants W → Option (ℕ × Grants W)
  unfolding evict_grants map_grant
  add_grant gref g = elim (g.index gref) [
    | some it ↦ splice it g.lru >>= λ ns. deref it ns >>= λ n. some (n.addr, record g { lru = ns })
    | none ↦ (if length g.lru == max_pgrants_per_frontend then evict_grants g else some g) >>= λ g'.
        some (map_grant gref g')
  ]
