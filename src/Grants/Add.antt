-- ===== src/Grants/Add.antt =====
-- `mapGrant` and `addGrant` (BlkBackend.cpp) refine the bounded list of `Spec`.
use us_blkback.Base.{
  ℕ, ◌≤◌, ◌<◌, ◌≡◌, ◌≢◌, refl, ap, sym, subst, ◌∙◌, Option, none, some, ◌∷◌, ◌==◌, if◌then◌else◌,
  length, false, arith, Bool-cases, inl, inr, Option-cases, ==→≡, length-take-le,
}
use us_blkback.Limits.{max_pgrants_per_frontend}
use us_blkback.Grants.{Gnttab, Grants, unlink, kept, evict_grants, add_grant}
use us_blkback.Grants.Nodes.{
  iter, grefs, Good-front, mapped-front, iter-front, deref-iter, mapped-deref, length-unlink,
  iter-take,
}
use us_blkback.Grants.Spec.{
  contains, make_room, contains-iter, contains-iter-none, grefs-unlink, grefs-take, length-grefs,
  Recent, Recent-mono, Recent-take, Recent-front, Recent-mapped,
}
use us_blkback.Grants.Inv.{IsGnttab, Inv, Keeps, Keeps-refl, Keeps-trans}
use us_blkback.Grants.Evict.{evict_grants-Inv}
use us_blkback.Grants.Adds.{Adds}
use us_blkback.Grants.Map.{map_grant-refused, map_grant-granted}

module _ {W : Type 0} (gnt : Gnttab W) (laws : IsGnttab gnt) (base : ℕ → Option ℕ) where
  -- A hit: the grant moves to the front.
  add_grant-hit :
      (k it : ℕ) (g : Grants W)
      → Inv gnt base g
      → g.index k ≡ some it
      → (addr : ℕ) × (g' : Grants W) × (add_grant gnt k g ≡ some (addr, g'))
        × Adds gnt base k g addr g'
  unfolding add_grant
  add_grant-hit k it g v e =
      let i : iter k g.lru ≡ some it = sym (v.coherent k) ∙ e in
      let (n, found, key, id) = deref-iter g.next_node it base g.lru k v.good i in
      (
        n.addr,
        record g { lru = n ∷ unlink it g.lru },
        ground arith,
        record {
          valid = record {
            good = Good-front g.next_node it base g.lru n v.good found;
            coherent =
                λ j. v.coherent j ∙ sym (iter-front g.next_node it base g.lru n j v.good found);
            exact = λ a. v.exact a ∙ sym (mapped-front g.next_node it base g.lru n a v.good found);
            bounded = omega (arith, v.bounded, length-unlink it g.lru n found);
          };
          keeps = record { same_domain = refl; same_pages = λ j i. refl };
          ages = λ m a j h r. Recent-front m a j it g.lru n found r;
          result = inl (
            (mapped-deref it g.next_node base g.lru n v.good found).1,
            inl (refl, key),
            ground (
              arith,
              contains-iter k it g.lru i,
              grefs-unlink g.next_node it base g.lru n v.good found,
            ),
          );
        },
      )

  ready :
      (g : Grants W)
      → Inv gnt base g
      → (g' : Grants W) × ((if length g.lru == max_pgrants_per_frontend
            then evict_grants gnt g
            else some g)
          ≡ some g')
        × Inv gnt base g'
        × Keeps gnt base g g'
        × (length g'.lru < 1024)
        × (grefs g'.lru ≡ make_room (grefs g.lru))
        × ((m a k : ℕ) → m ≤ 972 → Recent m a k g.lru → Recent m a k g'.lru)
        × ((k : ℕ) → g.index k ≡ none → g'.index k ≡ none)
  ready g v = elim (Bool-cases (length g.lru == 1024)) [
    | inl full ↦
        let (g', ran, v', keeps, cut) = evict_grants-Inv gnt laws base g v in
        (
          g',
          rw full ran,
          v',
          keeps,
          omega (arith, ap length cut, length-take-le kept g.lru),
          ground (arith, length-grefs g.lru, ap grefs cut, grefs-take kept g.lru),
          λ m a k h r. rw cut (Recent-take m kept a k g.lru h r),
          λ k absent.
              v'.coherent k
              ∙ ap (iter k) cut
              ∙ iter-take k kept g.lru (sym (v.coherent k) ∙ absent),
        )
    | inr space ↦ (
      g,
      rw space refl,
      v,
      Keeps-refl gnt base g,
      ground (arith, v.bounded),
      ground (arith, length-grefs g.lru),
      λ m a k h r. r,
      λ k absent. absent,
    )
  ]

  add_grant-miss :
      (k : ℕ) (g : Grants W)
      → Inv gnt base g
      → g.index k ≡ none
      → (addr : ℕ) × (g' : Grants W) × (add_grant gnt k g ≡ some (addr, g'))
        × Adds gnt base k g addr g'
  unfolding add_grant
  add_grant-miss k g v e =
      let (h, ran, vh, keeps, room, cut, recent, absent) = ready g v in
      let new : contains k (grefs g.lru) ≡ false =
        contains-iter-none k g.lru (sym (v.coherent k) ∙ e) in
      elim (Bool-cases ((gnt.map_grant_ref h.world h.dom_id k).0 == 0)) [
        | inl zero? ↦
            let (g', did, v', keeps', same) =
              map_grant-refused gnt laws base k h vh (==→≡ _ _ zero?) in
            (
              0,
              g',
              ground (arith, ran, did),
              record {
                valid = v';
                keeps = Keeps-trans gnt base keeps keeps';
                ages = λ m a j p r. rw same (Recent-mono m a j h.lru (recent m a j p r));
                result = inr (
                  refl,
                  new,
                  rw (same, cut) (ground (arith, new)),
                  (
                    h.world,
                    subst (λ d. (gnt.map_grant_ref h.world d k).0 ≡ 0) keeps.same_domain
                        (==→≡ _ _ zero?),
                  ),
                );
              },
            )
        | inr some? ↦
            let (n, g', did, v', keeps', pushed, nonnull, key) =
              map_grant-granted gnt laws base k h vh room (absent k e) (ground arith) in
            (
              n.addr,
              g',
              ground (arith, ran, did),
              record {
                valid = v';
                keeps = Keeps-trans gnt base keeps keeps';
                ages = λ m a j p r. rw pushed (inr (recent m a j p r));
                result =
                    inl
                      (nonnull, rw pushed (inl (refl, key)), rw pushed (ground (arith, new, cut)));
              },
            )
      ]

  -- Where the invariant holds, `addGrant` neither follows a dangling iterator nor pops an empty
  -- list; it keeps the invariant and the pages' bytes, and makes of the grants what `use_grant`
  -- says.
  pub add_grant-Adds :
      (k : ℕ) (g : Grants W)
      → Inv gnt base g
      → (addr : ℕ) × (g' : Grants W) × (add_grant gnt k g ≡ some (addr, g'))
        × Adds gnt base k g addr g'
  add_grant-Adds k g v = elim (Option-cases (g.index k)) [
    | inl miss ↦ add_grant-miss k g v miss
    | inr (it, hit) ↦ add_grant-hit k it g v hit
  ]

  -- An address that is among the grants used last is mapped, to its own grant.
  pub Recent-resolve :
      (m a k : ℕ) (g : Grants W)
      → Inv gnt base g
      → Recent m a k g.lru
      → (gnt.resolve g.world a ≡ some k) × (a ≢ 0)
  Recent-resolve m a k g v r =
      let (maps, nonnull) = Recent-mapped base g.next_node m a k g.lru v.good r in
      (v.exact a ∙ maps, nonnull)
