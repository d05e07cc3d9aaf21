-- ===== src/Grants/Evict.antt =====
-- `evictGrants` and `freeGrants` (BlkBackend.cpp).
use us_blkback.Base.{
  ℕ, zero, suc, ◌≤◌, ◌<◌, ◌≡◌, refl, ap, sym, ◌∙◌, Option, some, List, [], ◌∷◌, ltb, length, arith,
  Bool-cases, inl, inr, take, take_of_length-le, ltb→lt,
}
use us_blkback.Grants.{
  Gnttab, Node, Grants, pop_back, erase, kept, evict_one, evict_loop, evict_grants, unmap_all,
  free_grants,
}
use us_blkback.Grants.Nodes.{
  mapped, Good, Good-pop_back, back_total, mapped-pop_back, mapped-back, mapped-tail, iter-pop_back,
  length-pop_back, take-pop_back,
}
use us_blkback.Grants.Inv.{IsGnttab, Inv, Keeps, Keeps-refl, Keeps-trans}

module _ {W : Type 0} (gnt : Gnttab W) (laws : IsGnttab gnt) (base : ℕ → Option ℕ) where
  evict_one-Inv :
      (g : Grants W)
      → 0 < length g.lru
      → Inv gnt base g
      → (g' : Grants W) × (evict_one gnt g ≡ some g')
        × Inv gnt base g'
        × Keeps gnt base g g'
        × (g'.lru ≡ pop_back g.lru)
  unfolding evict_one
  evict_one-Inv g pos v =
      let (n, last) = back_total g.lru pos in
      (
        record g {
          world = gnt.unmap g.world n.addr;
          index = erase g.index n.gref;
          lru = pop_back g.lru;
        },
        ground arith,
        record {
          good = Good-pop_back base g.next_node g.lru v.good;
          coherent = λ k. ground (arith, v.coherent k, iter-pop_back base g.next_node g.lru n k);
          exact = λ a. ground (
            arith,
            v.exact a,
            v.exact n.addr,
            laws.resolve-unmap g.world n.addr a n.gref,
            mapped-pop_back base g.next_node g.lru n a,
            mapped-back base g.next_node g.lru n,
          );
          bounded = omega (arith, length-pop_back g.lru, v.bounded);
        },
        record { same_domain = refl; same_pages = λ k i. laws.page-unmap g.world n.addr k i },
        refl,
      )

  evict_loop-Inv :
      (fuel : ℕ) (g : Grants W)
      → length g.lru ≤ fuel
      → Inv gnt base g
      → (g' : Grants W) × (evict_loop gnt fuel g ≡ some g')
        × Inv gnt base g'
        × Keeps gnt base g g'
        × (g'.lru ≡ take kept g.lru)
  unfolding evict_loop
  evict_loop-Inv zero g enough v =
      (g, ground arith, v, Keeps-refl gnt base g, sym (take_of_length-le kept g.lru (omega arith)))
  evict_loop-Inv (suc fuel) g enough v = elim (Bool-cases (ltb kept (length g.lru))) [
    | inl more ↦
        let over : 972 < length g.lru = ltb→lt _ _ more in
        let (g1, ran, v1, k1, popped) = evict_one-Inv g (omega arith) v in
        let (g2, rest, v2, k2, cut) =
          evict_loop-Inv fuel g1 (omega (arith, ap length popped, length-pop_back g.lru)) v1 in
        (
          g2,
          ground (arith, ran, rest),
          v2,
          Keeps-trans gnt base k1 k2,
          cut ∙ ap (take kept) popped ∙ take-pop_back kept g.lru over,
        )
    | inr done ↦ (
      g,
      ground arith,
      v,
      Keeps-refl gnt base g,
      sym (take_of_length-le kept g.lru (ground arith)),
    )
  ]

  -- Where the invariant holds, eviction ends, never pops an empty list, and keeps exactly the 972
  -- grants used last: the others are unmapped and out of the map.
  pub evict_grants-Inv :
      (g : Grants W)
      → Inv gnt base g
      → (g' : Grants W) × (evict_grants gnt g ≡ some g')
        × Inv gnt base g'
        × Keeps gnt base g g'
        × (g'.lru ≡ take kept g.lru)
  unfolding evict_grants
  evict_grants-Inv g v = evict_loop-Inv (length g.lru) g (omega arith) v

  unmap_all-lem :
      (ns : List Node) (next : ℕ) (w : W)
      → Good next base ns
      → ((a : ℕ) → gnt.resolve w a ≡ mapped base ns a)
      → (a : ℕ) → gnt.resolve (unmap_all gnt ns w) a ≡ base a
  unfolding unmap_all
  unmap_all-lem [] next w h e = e
  unmap_all-lem (n ∷ ns) next w h e = unmap_all-lem ns next (gnt.unmap w n.addr) h.2 λ a.
      ground
        (arith, e a, e n.addr, laws.resolve-unmap w n.addr a n.gref, mapped-tail base n next ns a)

  -- The destructor leaves mapped what was mapped before the ring, and nothing else: no grant of
  -- the ring leaks, and none is unmapped twice.
  pub free_grants-base :
      (g : Grants W) → Inv gnt base g → (a : ℕ) → gnt.resolve (free_grants gnt g).world a ≡ base a
  unfolding free_grants
  free_grants-base g v = unmap_all-lem g.lru g.next_node g.world v.good v.exact

  pub free_grants-Inv : (g : Grants W) → Inv gnt base g → Inv gnt base (free_grants gnt g)
  unfolding free_grants
  free_grants-Inv g v = record {
    good = tt;
    coherent = λ k. refl;
    exact = unmap_all-lem g.lru g.next_node g.world v.good v.exact;
    bounded = omega arith;
  }
