-- ===== src/Guest/Between.antt =====
-- The handlers of a guest stay in order under every event (BlkBackend.cpp).
use us_blkback.Base.{
  ℕ, ◌≡◌, refl, sym, ap, ◌∙◌, subst, Option, List, [], ◌∷◌, ◌++◌, Bool, true, inl, inr, arith,
}
use us_blkback.Disk.Image.{MappedFile}
use us_blkback.Disk.Bounds.{IsMappedFile}
use us_blkback.Limits.{Abi, IsAbi}
use us_blkback.Grants.{Gnttab}
use us_blkback.Grants.Inv.{IsGnttab}
use us_blkback.Ring.{Segment}
use us_blkback.Frontend.{Result, terminated, thrown, returned, ◌>>=◌, on_bind, bound}
use us_blkback.Frontend.Session.{on_bind-returned}
use us_blkback.Guest.{
  GuestEvent, bind, request, closing, dropped, writes, BoundHandler, Guest, with_ring, current,
  visited, replace, close_ring, drop_list, step,
}
use us_blkback.Guest.Handlers.{close_ring-Fits, drop_list-Fits}
use us_blkback.Guest.Lookup.{ids, answered_at-append, Layers-append}
use us_blkback.Guest.Run.{
  Allowed, Goes, started, goes, Between, visit-Between, request-Between, refused-Between,
}

returned->>= :
    {A B : Type 0} (r : Result A) (f : A → Result B) (b : B)
    → (r >>= f) ≡ returned b
    → (a : A) × (r ≡ returned a) × (f a ≡ returned b)
returned->>= terminated f b e = absurd cc
returned->>= thrown f b e = absurd cc
returned->>= (returned a) f b e = (a, refl, e)

module _ {W F : Type 0} (abi : Abi) (segment_at : (ℕ → ℕ) → ℕ → Segment) (gnt : Gnttab W)
    (file : MappedFile F) (gnt_ok : IsGnttab gnt) (file_ok : IsMappedFile file) (abi_ok : IsAbi abi)
    (open_file : List ℕ → Option F) (ring_opens : ℕ → ℕ → ℕ → Bool) (dom_id : ℕ) (w0 : W) where
  step-Between :
      (e : GuestEvent) (es : List GuestEvent) (g g' : Guest W F)
      → Between abi segment_at gnt file gnt_ok file_ok abi_ok open_file ring_opens dom_id w0 es g
      → Allowed abi segment_at gnt file gnt_ok file_ok abi_ok open_file ring_opens dom_id w0 e g
      → step abi segment_at gnt file open_file ring_opens e g ≡ returned g'
      → Between abi segment_at gnt file gnt_ok file_ok abi_ok open_file ring_opens dom_id w0
          (e ∷ es)
          g'
  unfolding step
  step-Between (bind store) es g g' v allowed ran =
      let (o, opened, made) =
        returned->>= (on_bind file open_file ring_opens store g.dom_id g.machine)
          (λ o. returned (record g {
            handlers = g.handlers ++ (record { owned = o; holds = true; listed = true } ∷ []);
          }))
          g' ran in
      let (image, ok, e) =
        on_bind-returned file open_file ring_opens store g.dom_id g.machine o opened in
      let new : BoundHandler W F = record {
        owned = bound g.dom_id image g.machine;
        holds = true;
        listed = true;
      } in
      let same : record g { handlers = g.handlers ++ (new ∷ []) } ≡ g' = ground (arith, e, made) in
      let (layers, top_same) =
        Layers-append file dom_id (λ a. gnt.resolve w0 a) g.handlers new
          (λ b. record {
            good = tt;
            coherent = λ k. refl;
            bounded = omega arith;
            image_ok = ok;
            same_domain = v.same_domain;
            counted = refl;
            freed = λ none_left. absurd (omega arith);
          })
          refl v.in_order.layers in
      subst
        (Between abi segment_at gnt file gnt_ok file_ok abi_ok open_file ring_opens dom_id w0
          (bind store ∷ es))
        same
        (record {
          in_order = record { layers = layers; exact = λ a. v.in_order.exact a ∙ sym (top_same a) };
          same_domain = v.same_domain;
          all_answered = λ j. answered_at-append j g.handlers new refl ∙ v.all_answered j;
        })
  step-Between (request i req) es g g' v (h, found, owned, inr (rc, refused)) ran =
      let (h', did, ok) =
        refused-Between abi segment_at gnt file gnt_ok file_ok abi_ok open_file ring_opens dom_id w0
          i req es g h rc v found owned refused in
      let same : visited g (h'.ring.grants.world, replace i h' g.handlers) ≡ g' =
        ground (arith, ran, did) in
      subst
        (Between abi segment_at gnt file gnt_ok file_ok abi_ok open_file ring_opens dom_id w0
          (request i req ∷ es))
        same ok
  step-Between (request i req) es g g' v (h, found, owned, inl sound) ran =
      let (_, h', did, ok, _, _) =
        request-Between abi segment_at gnt file gnt_ok file_ok abi_ok open_file ring_opens dom_id w0
          i req es g h v found owned sound in
      let same : visited g (h'.ring.grants.world, replace i h' g.handlers) ≡ g' =
        ground (arith, ran, did) in
      subst
        (Between abi segment_at gnt file gnt_ok file_ok abi_ok open_file ring_opens dom_id w0
          (request i req ∷ es))
        same ok
  step-Between (writes k f) es g g' v allowed ran =
      let same : record g { machine = gnt.set_page g.machine k f } ≡ g' = ground (arith, ran) in
      subst
        (Between abi segment_at gnt file gnt_ok file_ok abi_ok open_file ring_opens dom_id w0
          (writes k f ∷ es))
        same
        (record {
          in_order = record {
            layers = v.in_order.layers;
            exact = λ a. gnt_ok.resolve-set_page g.machine k a f ∙ v.in_order.exact a;
          };
          same_domain = v.same_domain;
          all_answered = v.all_answered;
        })
  step-Between (closing i) es g g' v (h, found) ran =
      let (_, h', did, ok, _, _) =
        visit-Between abi segment_at gnt file gnt_ok file_ok abi_ok open_file ring_opens dom_id w0
          (λ h. returned (close_ring abi segment_at gnt file h)) (λ b h'. Unit {0}) (closing i) i es
          g h v found
          (λ b fits.
            let here = with_ring h (current g.machine h.ring) in
            let (ok, loses) =
              close_ring-Fits abi segment_at gnt file gnt_ok file_ok abi_ok dom_id b here fits in
            (close_ring abi segment_at gnt file here, refl, ok, (ap ids loses.same_sent, tt)))
          (λ j l other. refl) in
      let same : visited g (h'.ring.grants.world, replace i h' g.handlers) ≡ g' =
        ground (arith, ran, did) in
      subst
        (Between abi segment_at gnt file gnt_ok file_ok abi_ok open_file ring_opens dom_id w0
          (closing i ∷ es))
        same ok
  step-Between (dropped i) es g g' v (h, found) ran =
      let (_, h', did, ok, _, _) =
        visit-Between abi segment_at gnt file gnt_ok file_ok abi_ok open_file ring_opens dom_id w0
          (λ h. returned (drop_list abi segment_at gnt file h)) (λ b h'. Unit {0}) (dropped i) i es
          g h v found
          (λ b fits.
            let here = with_ring h (current g.machine h.ring) in
            let (ok, loses) =
              drop_list-Fits abi segment_at gnt file gnt_ok file_ok abi_ok dom_id b here fits in
            (drop_list abi segment_at gnt file here, refl, ok, (ap ids loses.same_sent, tt)))
          (λ j l other. refl) in
      let same : visited g (h'.ring.grants.world, replace i h' g.handlers) ≡ g' =
        ground (arith, ran, did) in
      subst
        (Between abi segment_at gnt file gnt_ok file_ok abi_ok open_file ring_opens dom_id w0
          (dropped i ∷ es))
        same ok

  pub Goes-Between :
      (es : List GuestEvent) (g : Guest W F)
      → Goes abi segment_at gnt file gnt_ok file_ok abi_ok open_file ring_opens dom_id w0 es g
      → Between abi segment_at gnt file gnt_ok file_ok abi_ok open_file ring_opens dom_id w0 es g
  Goes-Between _ _ started = record {
    in_order = record { layers = tt; exact = λ a. refl };
    same_domain = refl;
    all_answered = λ j. refl;
  }
  Goes-Between _ g' (goes {es} {g} e before allowed ran) =
      step-Between e es g g' (Goes-Between es g before) allowed ran
