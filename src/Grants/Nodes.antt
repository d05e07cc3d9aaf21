-- ===== src/Grants/Nodes.antt =====
-- The list of grants as a list: lookups, moves to the front, and the last node.
use us_blkback.Base.{
  ℕ, zero, suc, ◌+◌, ◌-◌, ◌≤◌, ◌<◌, ◌≡◌, ◌≢◌, refl, ap, ◌∙◌, Option, none, some, List, [], ◌∷◌,
  ◌==◌, if◌then◌else◌, length, arith, Bool-cases, inl, inr, take, map, ==→≡,
}
use us_blkback.Grants.{Node, deref, unlink, back, pop_back}

-- The iterator that the map should hold for a grant.
abbrev pub iter : ℕ → List Node → Option ℕ
iter k [] = none
iter k (n ∷ ns) = if n.gref == k then some n.id else iter k ns

-- What an address maps, when the nodes' pages are mapped over the mappings of `base`.
abbrev pub mapped : (ℕ → Option ℕ) → List Node → ℕ → Option ℕ
mapped base [] a = base a
mapped base (n ∷ ns) a = if n.addr == a then some n.gref else mapped base ns a

abbrev pub grefs : List Node → List ℕ
grefs = map (λ n. n.gref)

abbrev pub Differ : Node → Node → Type 0
Differ n x = (n.id ≢ x.id) × (n.gref ≢ x.gref) × (n.addr ≢ x.addr)

abbrev pub Apart : Node → List Node → Type 0
Apart n [] = Unit {0}
Apart n (x ∷ xs) = Differ n x × Apart n xs

-- The nodes were allocated before `next`, are mapped where `base` has nothing, and differ.
abbrev pub Good : ℕ → (ℕ → Option ℕ) → List Node → Type 0
Good next base [] = Unit {0}
Good next base (n ∷ ns) =
    ((n.id < next) × (n.addr ≢ 0) × (base n.addr ≡ none)) × Apart n ns × Good next base ns

pub Apart-deref :
    (x n : Node) (it : ℕ) (ns : List Node) → Apart x ns → deref it ns ≡ some n → Differ n x
Apart-deref x n it [] h e = cc
Apart-deref x n it (y ∷ ys) h e = ground (arith, Apart-deref x n it ys h.1)

Apart-unlink : (x : Node) (it : ℕ) (ns : List Node) → Apart x ns → Apart x (unlink it ns)
Apart-unlink x it [] h = tt
Apart-unlink x it (y ∷ ys) h = ground (arith, Apart-unlink x it ys h.1)

pub length-unlink :
    (it : ℕ) (ns : List Node) (n : Node)
    → deref it ns ≡ some n
    → length (unlink it ns) + 1 ≡ length ns
length-unlink it [] n e = cc
length-unlink it (x ∷ xs) n e = ground (arith, length-unlink it xs n)

pub Good-front :
    (next it : ℕ) (base : ℕ → Option ℕ) (ns : List Node) (n : Node)
    → Good next base ns
    → deref it ns ≡ some n
    → Good next base (n ∷ unlink it ns)
Good-front next it base [] n h e = cc
Good-front next it base (x ∷ xs) n h e = elim (Bool-cases (x.id == it)) [
  | inl here ↦ ground arith
  | inr there ↦
      let rest = Good-front next it base xs n h.2 (ground arith) in
      ground (arith, rest, Apart-deref x n it xs h.1, Apart-unlink x it xs h.1)
]

pub mapped-front :
    (next it : ℕ) (base : ℕ → Option ℕ) (ns : List Node) (n : Node) (a : ℕ)
    → Good next base ns
    → deref it ns ≡ some n
    → mapped base (n ∷ unlink it ns) a ≡ mapped base ns a
mapped-front next it base [] n a h e = cc
mapped-front next it base (x ∷ xs) n a h e =
    ground (arith, mapped-front next it base xs n a h.2, Apart-deref x n it xs h.1)

pub iter-front :
    (next it : ℕ) (base : ℕ → Option ℕ) (ns : List Node) (n : Node) (k : ℕ)
    → Good next base ns
    → deref it ns ≡ some n
    → iter k (n ∷ unlink it ns) ≡ iter k ns
iter-front next it base [] n k h e = cc
iter-front next it base (x ∷ xs) n k h e =
    ground (arith, iter-front next it base xs n k h.2, Apart-deref x n it xs h.1)

-- The map's iterator leads to the node of its grant.
pub deref-iter :
    (next it : ℕ) (base : ℕ → Option ℕ) (ns : List Node) (k : ℕ)
    → Good next base ns
    → iter k ns ≡ some it
    → (n : Node) × (deref it ns ≡ some n) × (n.gref ≡ k) × (n.id ≡ it)
deref-iter next it base [] k h e = cc
deref-iter next it base (x ∷ xs) k h e = elim (Bool-cases (x.gref == k)) [
  | inl here ↦ (x, ground arith, ground arith, ground arith)
  | inr there ↦
      let (n, found, key, id) = deref-iter next it base xs k h.2 (ground arith) in
      (n, ground (arith, Apart-deref x n it xs h.1), key, id)
]

pub mapped-deref :
    (it : ℕ) (next : ℕ) (base : ℕ → Option ℕ) (ns : List Node) (n : Node)
    → Good next base ns
    → deref it ns ≡ some n
    → (mapped base ns n.addr ≡ some n.gref) × (n.addr ≢ 0)
mapped-deref it next base [] n h e = cc
mapped-deref it next base (x ∷ xs) n h e =
    ground (arith, mapped-deref it next base xs n h.2, Apart-deref x n it xs h.1)

-- An address that maps nothing belongs to no node, and lies outside `base`.
pub Apart-new :
    (base : ℕ → Option ℕ) (n : Node) (next : ℕ) (ns : List Node)
    → Good next base ns
    → next ≤ n.id
    → iter n.gref ns ≡ none
    → mapped base ns n.addr ≡ none
    → Apart n ns × (base n.addr ≡ none)
Apart-new base n next [] h i k a = (tt, a)
Apart-new base n next (x ∷ xs) h i k a = ground (arith, Apart-new base n next xs h.2)

pub Good-mono :
    (base : ℕ → Option ℕ) (next : ℕ) (ns : List Node) → Good next base ns → Good (suc next) base ns
Good-mono base next [] h = tt
Good-mono base next (x ∷ xs) h = ground (arith, Good-mono base next xs h.2)

Apart-pop_back : (x : Node) (ns : List Node) → Apart x ns → Apart x (pop_back ns)
Apart-pop_back x [] h = tt
Apart-pop_back x (y ∷ []) h = tt
Apart-pop_back x (y ∷ z ∷ zs) h = (h.0, Apart-pop_back x (z ∷ zs) h.1)

Apart-back : (x n : Node) (ns : List Node) → Apart x ns → back ns ≡ some n → Differ n x
Apart-back x n [] h e = cc
Apart-back x n (y ∷ []) h e = ground arith
Apart-back x n (y ∷ z ∷ zs) h e = Apart-back x n (z ∷ zs) h.1 e

pub Good-pop_back :
    (base : ℕ → Option ℕ) (next : ℕ) (ns : List Node)
    → Good next base ns
    → Good next base (pop_back ns)
Good-pop_back base next [] h = tt
Good-pop_back base next (x ∷ []) h = tt
Good-pop_back base next (x ∷ y ∷ ys) h =
    (h.0, Apart-pop_back x (y ∷ ys) h.1, Good-pop_back base next (y ∷ ys) h.2)

pub back_total : (ns : List Node) → 0 < length ns → (n : Node) × (back ns ≡ some n)
back_total [] h = elim h [ ]
back_total (x ∷ []) h = (x, refl)
back_total (x ∷ y ∷ ys) h = back_total (y ∷ ys) (omega arith)

pub mapped-pop_back :
    (base : ℕ → Option ℕ) (next : ℕ) (ns : List Node) (n : Node) (a : ℕ)
    → Good next base ns
    → back ns ≡ some n
    → mapped base (pop_back ns) a ≡ (if n.addr == a then none else mapped base ns a)
mapped-pop_back base next [] n a h e = cc
mapped-pop_back base next (x ∷ []) n a h e = ground arith
mapped-pop_back base next (x ∷ y ∷ ys) n a h e =
    ground (arith, mapped-pop_back base next (y ∷ ys) n a h.2, Apart-back x n (y ∷ ys) h.1)

pub iter-pop_back :
    (base : ℕ → Option ℕ) (next : ℕ) (ns : List Node) (n : Node) (k : ℕ)
    → Good next base ns
    → back ns ≡ some n
    → iter k (pop_back ns) ≡ (if n.gref == k then none else iter k ns)
iter-pop_back base next [] n k h e = cc
iter-pop_back base next (x ∷ []) n k h e = ground arith
iter-pop_back base next (x ∷ y ∷ ys) n k h e =
    ground (arith, iter-pop_back base next (y ∷ ys) n k h.2, Apart-back x n (y ∷ ys) h.1)

pub length-pop_back : (ns : List Node) → length (pop_back ns) ≡ length ns - 1
length-pop_back [] = refl
length-pop_back (x ∷ []) = refl
length-pop_back (x ∷ y ∷ ys) = omega (arith, length-pop_back (y ∷ ys))

pub take-pop_back : (m : ℕ) (ns : List Node) → m < length ns → take m (pop_back ns) ≡ take m ns
take-pop_back zero [] h = refl
take-pop_back zero (x ∷ xs) h = refl
take-pop_back (suc m) [] h = refl
take-pop_back (suc m) (x ∷ []) h = absurd (omega arith)
take-pop_back (suc m) (x ∷ y ∷ ys) h = ap (◌∷◌ x) (take-pop_back m (y ∷ ys) (omega arith))

pub mapped-back :
    (base : ℕ → Option ℕ) (next : ℕ) (ns : List Node) (n : Node)
    → Good next base ns
    → back ns ≡ some n
    → mapped base ns n.addr ≡ some n.gref
mapped-back base next [] n h e = cc
mapped-back base next (x ∷ []) n h e = ground arith
mapped-back base next (x ∷ y ∷ ys) n h e =
    ground (arith, mapped-back base next (y ∷ ys) n h.2, Apart-back x n (y ∷ ys) h.1)

Apart-addr :
    (base : ℕ → Option ℕ) (n : Node) (ns : List Node)
    → Apart n ns
    → mapped base ns n.addr ≡ base n.addr
Apart-addr base n [] h = refl
Apart-addr base n (x ∷ xs) h = ground (arith, Apart-addr base n xs h.1)

pub mapped-tail :
    (base : ℕ → Option ℕ) (n : Node) (next : ℕ) (ns : List Node) (a : ℕ)
    → Good next base (n ∷ ns)
    → mapped base ns a ≡ (if n.addr == a then none else mapped base (n ∷ ns) a)
mapped-tail base n next ns a h = elim (Bool-cases (n.addr == a)) [
  | inl here ↦ rw (here, ← ==→≡ n.addr a here) (Apart-addr base n ns h.1 ∙ h.0.2)
  | inr there ↦ ground arith
]

pub iter-take : (k m : ℕ) (ns : List Node) → iter k ns ≡ none → iter k (take m ns) ≡ none
iter-take k zero ns e = refl
iter-take k (suc m) [] e = refl
iter-take k (suc m) (x ∷ xs) e = ground (arith, iter-take k m xs)
