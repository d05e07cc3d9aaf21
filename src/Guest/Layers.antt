-- ===== src/Guest/Layers.antt =====
-- The mappings of several rings, one layer over the other (BlkBackend.cpp): any ring may be taken
-- as the uppermost.
use us_blkback.Base.{
  ℕ, ◌≡◌, refl, sym, ap, ◌∙◌, subst, fun_ext, Option, none, some, List, [], ◌∷◌, ◌==◌, arith,
  Bool-cases, inl, inr, ◌≤◌, ◌+◌, length, Bool, true, false,
}
use us_blkback.Disk.Image.{MappedFile}
use us_blkback.Disk.Bounds.{IsWf}
use us_blkback.Grants.{Node}
use us_blkback.Grants.Nodes.{iter, mapped, Good}
use us_blkback.Guest.{BoundHandler}

abbrev pub bit : Bool → ℕ
bit true = 1
bit false = 0

mapped-none : (base : ℕ → Option ℕ) (l : List Node) (a : ℕ) → mapped base l a ≡ none → base a ≡ none
mapped-none base [] a e = e
mapped-none base (n ∷ ns) a e = ground (arith, mapped-none base ns a)

mapped-above :
    (base c : ℕ → Option ℕ) (l : List Node) (a : ℕ) → mapped base l a ≡ none → mapped c l a ≡ c a
mapped-above base c [] a e = refl
mapped-above base c (n ∷ ns) a e = ground (arith, mapped-above base c ns a)

pub mapped-own :
    (base : ℕ → Option ℕ) (l : List Node) (a k : ℕ)
    → mapped (λ _. none) l a ≡ some k
    → mapped base l a ≡ some k
mapped-own base [] a k e = absurd cc
mapped-own base (n ∷ ns) a k e = ground (arith, mapped-own base ns a k)

mapped-cong : (c d : ℕ → Option ℕ) (l : List Node) (a : ℕ) → c a ≡ d a → mapped c l a ≡ mapped d l a
mapped-cong c d [] a e = e
mapped-cong c d (n ∷ ns) a e = ground (arith, mapped-cong c d ns a)

Good-weaken :
    (next : ℕ) (b c : ℕ → Option ℕ) (l : List Node)
    → ((a : ℕ) → b a ≡ none → c a ≡ none)
    → Good next b l
    → Good next c l
Good-weaken next b c [] h g = tt
Good-weaken next b c (n ∷ ns) h g =
    ((g.0.0, g.0.1, h n.addr g.0.2), g.1, Good-weaken next b c ns h g.2)

-- An address of the lower list is not one of the upper list.
Good-free :
    (next : ℕ) (base b : ℕ → Option ℕ) (k : List Node) (n : Node)
    → Good next b k
    → b n.addr ≡ some n.gref
    → base n.addr ≡ none
    → mapped base k n.addr ≡ none
Good-free next base b [] n g e f = f
Good-free next base b (x ∷ xs) n g e f = elim (Bool-cases (x.addr == n.addr)) [
  | inl same ↦ absurd (ground arith)
  | inr other ↦ ground (arith, Good-free next base b xs n g.2 e f)
]

Good-below :
    (next m : ℕ) (base : ℕ → Option ℕ) (l k : List Node)
    → Good next base l
    → Good m (mapped base l) k
    → Good next (mapped base k) l
Good-below next m base [] k g h = tt
Good-below next m base (n ∷ ns) k g h =
    let below : Good m (mapped base ns) k =
      Good-weaken m (mapped base (n ∷ ns)) (mapped base ns) k (λ a e. ground arith) h in
    let here : mapped base (n ∷ ns) n.addr ≡ some n.gref = ground arith in
    (
      (g.0.0, g.0.1, Good-free m base (mapped base (n ∷ ns)) k n h here g.0.2),
      g.1,
      Good-below next m base ns k g.2 below,
    )

mapped-swap :
    (m : ℕ) (base : ℕ → Option ℕ) (l k : List Node) (a : ℕ)
    → Good m (mapped base l) k
    → mapped (mapped base l) k a ≡ mapped (mapped base k) l a
mapped-swap m base l [] a h = refl
mapped-swap m base l (x ∷ xs) a h = elim (Bool-cases (x.addr == a)) [
  | inl here ↦
      let free : mapped base l a ≡ none = ground (arith, h.0.2) in
      let up = mapped-above base (mapped base (x ∷ xs)) l a free in ground (arith, up)
  | inr there ↦
      let same : mapped base (x ∷ xs) a ≡ mapped base xs a = ground arith in
      let up = mapped-cong (mapped base (x ∷ xs)) (mapped base xs) l a same in
      ground (arith, up, mapped-swap m base l xs a h.2)
]

-- Two layers can change places.
swap :
    (next m : ℕ) (base : ℕ → Option ℕ) (l k : List Node)
    → Good next base l
    → Good m (mapped base l) k
    → Good m base k
      × Good next (mapped base k) l
      × (mapped (mapped base l) k ≡ mapped (mapped base k) l)
swap next m base l k g h = (
  Good-weaken m (mapped base l) base k (λ a. mapped-none base l a) h,
  Good-below next m base l k g h,
  fun_ext λ a. mapped-swap m base l k a h,
)

module _ {W F : Type 0} (file : MappedFile F) (dom_id : ℕ) where
  -- A ring of the guest over what the rings bound before it have mapped: what `RingInv` says of it,
  -- without the machine. Its owners are counted right, and destroyed it has no grant.
  pub record Layer (base : ℕ → Option ℕ) (o : BoundHandler W F) : Type 0 where
    pub good : Good o.ring.grants.next_node base o.ring.grants.lru
    pub coherent : (k : ℕ) → o.ring.grants.index k ≡ iter k o.ring.grants.lru
    pub bounded : length o.ring.grants.lru ≤ 1024
    pub image_ok : IsWf file o.ring.image
    pub same_domain : o.ring.grants.dom_id ≡ dom_id
    pub counted : o.owners ≡ bit o.holds + bit o.listed
    pub freed : o.owners ≡ 0 → o.ring.grants.lru ≡ []

  abbrev pub Layers : (ℕ → Option ℕ) → List (BoundHandler W F) → Type 0
  Layers base [] = Unit {0}
  Layers base (o ∷ os) = Layer base o × Layers (mapped base o.ring.grants.lru) os

  abbrev pub top : (ℕ → Option ℕ) → List (BoundHandler W F) → ℕ → Option ℕ
  top base [] = base
  top base (o ∷ os) = top (mapped base o.ring.grants.lru) os

  pub Layer-over :
      (b c : ℕ → Option ℕ) (o : BoundHandler W F)
      → Good o.ring.grants.next_node c o.ring.grants.lru
      → Layer b o
      → Layer c o
  Layer-over b c o g v = record {
    good = g;
    coherent = v.coherent;
    bounded = v.bounded;
    image_ok = v.image_ok;
    same_domain = v.same_domain;
    counted = v.counted;
    freed = v.freed;
  }

  -- The lowest layer taken out, to the top.
  pub lift :
      (next : ℕ) (base : ℕ → Option ℕ) (l : List Node) (os : List (BoundHandler W F))
      → Good next base l
      → Layers (mapped base l) os
      → Good next (top base os) l
        × Layers base os
        × (top (mapped base l) os ≡ mapped (top base os) l)
  lift next base l [] g h = (g, tt, refl)
  lift next base l (o ∷ os) g h =
      let k = o.ring.grants.lru in
      let (under, over, e) = swap next o.ring.grants.next_node base l k g h.0.good in
      let (at_top, rest, same) =
        lift next (mapped base k) l os over (subst (λ b. Layers b os) e h.1) in
      (at_top, (Layer-over (mapped base l) base o under h.0, rest), ap (λ b. top b os) e ∙ same)

  -- And put back.
  pub lower :
      (next : ℕ) (base : ℕ → Option ℕ) (l : List Node) (os : List (BoundHandler W F))
      → Good next (top base os) l
      → Layers base os
      → Good next base l
        × Layers (mapped base l) os
        × (top (mapped base l) os ≡ mapped (top base os) l)
  lower next base l [] g h = (g, tt, refl)
  lower next base l (o ∷ os) g h =
      let k = o.ring.grants.lru in
      let (over, rest, same) = lower next (mapped base k) l os g h.1 in
      let (under, above, e) = swap o.ring.grants.next_node next base k l h.0.good over in
      (
        under,
        (Layer-over base (mapped base l) o above h.0, subst (λ b. Layers b os) e rest),
        ap (λ b. top b os) (sym e) ∙ same,
      )
