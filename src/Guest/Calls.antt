-- ===== src/Guest/Calls.antt =====
-- A call of one handler among those of a guest (BlkBackend.cpp): what it keeps of the others.
use us_blkback.Base.{
  ℕ, zero, suc, ◌+◌, ◌≡◌, refl, sym, ap, ◌∙◌, subst, Option, some, List, [], ◌∷◌, get_elem?, arith,
}
use us_blkback.Disk.Image.{MappedFile}
use us_blkback.Grants.{Gnttab}
use us_blkback.Grants.Nodes.{mapped, Good}
use us_blkback.Ring.Effects.{RingInv}
use us_blkback.Frontend.{Result, returned}
use us_blkback.Guest.{BoundHandler, with_ring, current, visit, replace}
use us_blkback.Guest.Layers.{Layer, Layers, Layer-over, top, bit, lift, lower}

module _ {W F : Type 0} (gnt : Gnttab W) (file : MappedFile F) (dom_id : ℕ) where
  -- The handler on the current machine, over the mappings of the other rings: what its calls find
  -- and leave.
  pub record Fits (base : ℕ → Option ℕ) (h : BoundHandler W F) : Type 0 where
    pub ring_ok : RingInv gnt file base h.ring
    pub same_domain : h.ring.grants.dom_id ≡ dom_id
    pub counted : h.owners ≡ bit h.holds + bit h.listed
    pub freed : h.owners ≡ 0 → h.ring.grants.lru ≡ []

  Fits-Layer : (b : ℕ → Option ℕ) (h : BoundHandler W F) → Fits b h → Layer file dom_id b h
  Fits-Layer b h v = record {
    good = v.ring_ok.grants_ok.good;
    coherent = v.ring_ok.grants_ok.coherent;
    bounded = v.ring_ok.grants_ok.bounded;
    image_ok = v.ring_ok.image_ok;
    same_domain = v.same_domain;
    counted = v.counted;
    freed = v.freed;
  }

  Layer-Fits :
      (b c : ℕ → Option ℕ) (w : W) (h : BoundHandler W F)
      → Layer file dom_id b h
      → Good h.ring.grants.next_node c h.ring.grants.lru
      → ((a : ℕ) → gnt.resolve w a ≡ mapped c h.ring.grants.lru a)
      → Fits c (with_ring h (current w h.ring))
  Layer-Fits b c w h v good exact = record {
    ring_ok = record {
      grants_ok = record { good = good; coherent = v.coherent; exact = exact; bounded = v.bounded };
      image_ok = v.image_ok;
    };
    same_domain = v.same_domain;
    counted = v.counted;
    freed = v.freed;
  }

  -- What the handlers of a guest have mapped, over `base`, on the machine.
  pub record InOrder (base : ℕ → Option ℕ) (w : W) (hs : List (BoundHandler W F)) : Type 0 where
    pub layers : Layers file dom_id base hs
    pub exact : (a : ℕ) → gnt.resolve w a ≡ top file dom_id base hs a

  -- The call changes this handler alone, and leaves the others in order.
  pub visit-InOrder :
      (f : BoundHandler W F → Result (BoundHandler W F))
      (P : (ℕ → Option ℕ) → BoundHandler W F → Type 0) (i : ℕ) (base : ℕ → Option ℕ) (w : W)
      (hs : List (BoundHandler W F)) (h : BoundHandler W F)
      → InOrder base w hs
      → get_elem? hs i ≡ some h
      → ((b : ℕ → Option ℕ)
          → Fits b (with_ring h (current w h.ring))
          → (h' : BoundHandler W F) × (f (with_ring h (current w h.ring)) ≡ returned h')
            × Fits b h'
            × P b h')
      → (b : ℕ → Option ℕ) × (h' : BoundHandler W F) × (visit f i w hs
          ≡ returned (h'.ring.grants.world, replace i h' hs))
        × InOrder base h'.ring.grants.world (replace i h' hs)
        × P b h'
  unfolding visit
  visit-InOrder f P i base w [] h v found call = absurd cc
  visit-InOrder f P zero base w (x ∷ xs) h v found call =
      let e : x ≡ h = ground (arith, found) in
      let layer : Layer file dom_id base h = subst (Layer file dom_id base) e v.layers.0 in
      let l = h.ring.grants.lru in
      let rest : Layers file dom_id (mapped base l) xs =
        subst (λ y. Layers file dom_id (mapped base y.ring.grants.lru) xs) e v.layers.1 in
      let (at_top, others, same) =
        lift file dom_id h.ring.grants.next_node base l xs layer.good rest in
      let exact : (a : ℕ) → gnt.resolve w a ≡ mapped (top file dom_id base xs) l a = λ a.
        v.exact a
        ∙ ap (λ y. top file dom_id (mapped base y.ring.grants.lru) xs a) e
        ∙ ap (λ b. b a) same in
      let (h', ran, fits, did) =
        call (top file dom_id base xs)
          (Layer-Fits base (top file dom_id base xs) w h layer at_top exact) in
      let after = Fits-Layer (top file dom_id base xs) h' fits in
      let (under, above, back) =
        lower file dom_id h'.ring.grants.next_node base h'.ring.grants.lru xs after.good others in
      (
        top file dom_id base xs,
        h',
        rw (e, ran) refl,
        record {
          layers = (Layer-over file dom_id (top file dom_id base xs) base h' under after, above);
          exact = λ a. fits.ring_ok.grants_ok.exact a ∙ ap (λ b. b a) (sym back);
        },
        did,
      )
  visit-InOrder f P (suc i) base w (x ∷ xs) h v found call =
      let (b, h', ran, ok, did) =
        visit-InOrder f P i (mapped base x.ring.grants.lru) w xs h
          (record { layers = v.layers.1; exact = v.exact }) found call in
      (b, h', rw ran refl, record { layers = (v.layers.0, ok.layers); exact = ok.exact }, did)
