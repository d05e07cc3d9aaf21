-- ===== src/Guest/Lookup.antt =====
-- The handlers of a guest by their numbers (BlkBackend.cpp): what each has answered, and has
-- mapped.
use us_blkback.Base.{
  ℕ, zero, suc, ◌≡◌, refl, ap, subst, ◌∙◌, Option, none, some, List, [], ◌∷◌, ◌++◌, map, ◌==◌,
  if◌then◌else◌, get_elem?, arith,
}
use us_blkback.Disk.Image.{MappedFile}
use us_blkback.Grants.Nodes.{mapped}
use us_blkback.Ring.{Response}
use us_blkback.Guest.{GuestEvent, request, BoundHandler, replace}
use us_blkback.Guest.Layers.{Layer, Layers, top, lift, mapped-own}

abbrev pub ids : List Response → List ℕ
ids = map (λ r. r.id)

-- The ids of the requests that a handler was given, the last one first.
abbrev pub asked_by : GuestEvent → ℕ → List ℕ → List ℕ
asked_by (request i req) j l = if i == j then req.id ∷ l else l
asked_by _ j l = l

abbrev pub asked : ℕ → List GuestEvent → List ℕ
asked j [] = []
asked j (e ∷ es) = asked_by e j (asked j es)

module _ {W F : Type 0} where
  -- The ids that a handler has answered, the last one first.
  abbrev pub answered_at : ℕ → List (BoundHandler W F) → List ℕ
  answered_at j [] = []
  answered_at zero (h ∷ hs) = ids h.ring.sent
  answered_at (suc j) (h ∷ hs) = answered_at j hs

  pub answered_at-found :
      (i : ℕ) (hs : List (BoundHandler W F)) (h : BoundHandler W F)
      → get_elem? hs i ≡ some h
      → answered_at i hs ≡ ids h.ring.sent
  answered_at-found i [] h e = absurd cc
  answered_at-found zero (x ∷ xs) h e =
      let same : x ≡ h = ground (arith, e) in ap (λ y. ids y.ring.sent) same
  answered_at-found (suc i) (x ∷ xs) h e = answered_at-found i xs h e

  pub answered_at-replace :
      (i j : ℕ) (hs : List (BoundHandler W F)) (h h' : BoundHandler W F)
      → get_elem? hs i ≡ some h
      → answered_at j (replace i h' hs) ≡ (if i == j then ids h'.ring.sent else answered_at j hs)
  answered_at-replace i j [] h h' e = absurd cc
  answered_at-replace zero zero (x ∷ xs) h h' e = refl
  answered_at-replace zero (suc j) (x ∷ xs) h h' e = ground arith
  answered_at-replace (suc i) zero (x ∷ xs) h h' e = ground arith
  answered_at-replace (suc i) (suc j) (x ∷ xs) h h' e =
      ground (arith, answered_at-replace i j xs h h' e)

  pub answered_at-append :
      (j : ℕ) (hs : List (BoundHandler W F)) (h : BoundHandler W F)
      → h.ring.sent ≡ []
      → answered_at j (hs ++ (h ∷ [])) ≡ answered_at j hs
  answered_at-append zero [] h e = ap ids e
  answered_at-append (suc j) [] h e = refl
  answered_at-append zero (x ∷ xs) h e = refl
  answered_at-append (suc j) (x ∷ xs) h e = answered_at-append j xs h e

  module _ (file : MappedFile F) (dom_id : ℕ) where
    -- A ring with no grant is a layer over any others.
    pub Layers-append :
        (base : ℕ → Option ℕ) (hs : List (BoundHandler W F)) (h : BoundHandler W F)
        → ((b : ℕ → Option ℕ) → Layer file dom_id b h)
        → h.ring.grants.lru ≡ []
        → Layers file dom_id base hs
        → Layers file dom_id base (hs ++ (h ∷ []))
          × ((a : ℕ) → top file dom_id base (hs ++ (h ∷ [])) a ≡ top file dom_id base hs a)
    Layers-append base [] h v e all = ((v base, tt), λ a. ap (λ l. mapped base l a) e)
    Layers-append base (x ∷ xs) h v e all =
        let (above, same) = Layers-append (mapped base x.ring.grants.lru) xs h v e all.1 in
        ((all.0, above), same)

    pub top-freed :
        (base : ℕ → Option ℕ) (hs : List (BoundHandler W F)) (a : ℕ)
        → Layers file dom_id base hs
        → ((i : ℕ) (h : BoundHandler W F) → get_elem? hs i ≡ some h → h.owners ≡ 0)
        → top file dom_id base hs a ≡ base a
    top-freed base [] a v gone = refl
    top-freed base (x ∷ xs) a v gone =
        let e = v.0.freed (gone 0 x refl) in
        top-freed (mapped base x.ring.grants.lru) xs a v.1 (λ i h found. gone (suc i) h found)
        ∙ ap (λ l. mapped base l a) e

    pub Layers-found :
        (base : ℕ → Option ℕ) (hs : List (BoundHandler W F)) (i : ℕ) (h : BoundHandler W F)
        → Layers file dom_id base hs
        → get_elem? hs i ≡ some h
        → (b : ℕ → Option ℕ) × Layer file dom_id b h
    Layers-found base [] i h v found = absurd cc
    Layers-found base (x ∷ xs) zero h v found =
        let same : x ≡ h = ground (arith, found) in (base, subst (Layer file dom_id base) same v.0)
    Layers-found base (x ∷ xs) (suc i) h v found =
        Layers-found (mapped base x.ring.grants.lru) xs i h v.1 found

    pub top-own :
        (base : ℕ → Option ℕ) (hs : List (BoundHandler W F)) (i : ℕ) (h : BoundHandler W F)
        (a k : ℕ)
        → Layers file dom_id base hs
        → get_elem? hs i ≡ some h
        → mapped (λ _. none) h.ring.grants.lru a ≡ some k
        → top file dom_id base hs a ≡ some k
    top-own base [] i h a k v found own = absurd cc
    top-own base (x ∷ xs) zero h a k v found own =
        let l = x.ring.grants.lru in
        let (_, _, e) = lift file dom_id x.ring.grants.next_node base l xs v.0.good v.1 in
        let same : x ≡ h = ground (arith, found) in
        ap (λ b. b a) e
        ∙ mapped-own (top file dom_id base xs) l a k
            (ap (λ y. mapped (λ _. none) y.ring.grants.lru a) same ∙ own)
    top-own base (x ∷ xs) (suc i) h a k v found own =
        top-own (mapped base x.ring.grants.lru) xs i h a k v.1 found own
