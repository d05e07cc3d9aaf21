-- ===== src/Grants/Spec.antt =====
-- The grants as a bounded list of grant references, the one used last first, and how long a grant
-- stays among them.
use us_blkback.Base.{
  ℕ, zero, suc, ◌≤◌, ◌≡◌, ◌≢◌, refl, ap, Option, none, some, List, [], ◌∷◌, ◌==◌, if◌then◌else◌,
  length, Bool, true, false, arith, Bool-cases, inl, inr, ◌⊎◌, take, ◌||◌,
}
use us_blkback.Grants.{Node, deref, unlink}
use us_blkback.Grants.Nodes.{iter, mapped, grefs, Apart, Good, Apart-deref}

abbrev pub contains : ℕ → List ℕ → Bool
contains k [] = false
contains k (j ∷ l) = j == k || contains k l

abbrev pub remove : ℕ → List ℕ → List ℕ
remove k [] = []
remove k (j ∷ l) = if j == k then l else j ∷ remove k l

-- A full list is cut to the 972 grants used last.
abbrev pub make_room : List ℕ → List ℕ
make_room l = if length l == 1024 then take 972 l else l

-- A use of grant `k`, which the hypervisor would grant or not.
abbrev pub use_grant : Bool → ℕ → List ℕ → List ℕ
use_grant granted k l =
    if contains k l then k ∷ remove k l else if granted then k ∷ make_room l else make_room l

pub contains-iter : (k it : ℕ) (ns : List Node) → iter k ns ≡ some it → contains k (grefs ns) ≡ true
contains-iter k it [] e = cc
contains-iter k it (x ∷ xs) e = ground (arith, contains-iter k it xs)

pub contains-iter-none : (k : ℕ) (ns : List Node) → iter k ns ≡ none → contains k (grefs ns) ≡ false
contains-iter-none k [] e = refl
contains-iter-none k (x ∷ xs) e = ground (arith, contains-iter-none k xs)

pub grefs-unlink :
    (next it : ℕ) (base : ℕ → Option ℕ) (ns : List Node) (n : Node)
    → Good next base ns
    → deref it ns ≡ some n
    → grefs (unlink it ns) ≡ remove n.gref (grefs ns)
grefs-unlink next it base [] n h e = cc
grefs-unlink next it base (x ∷ xs) n h e =
    ground (arith, grefs-unlink next it base xs n h.2, Apart-deref x n it xs h.1)

pub grefs-take : (m : ℕ) (ns : List Node) → grefs (take m ns) ≡ take m (grefs ns)
grefs-take zero ns = refl
grefs-take (suc m) [] = refl
grefs-take (suc m) (x ∷ xs) = ap (◌∷◌ x.gref) (grefs-take m xs)

pub length-grefs : (ns : List Node) → length (grefs ns) ≡ length ns
length-grefs [] = refl
length-grefs (x ∷ xs) = ap suc (length-grefs xs)

-- Among the first `m` grants one has this address and this reference.
abbrev pub Recent : ℕ → ℕ → ℕ → List Node → Type 0
Recent zero a k ns = ⊥
Recent (suc m) a k [] = ⊥
Recent (suc m) a k (n ∷ ns) = ((n.addr ≡ a) × (n.gref ≡ k)) ⊎ Recent m a k ns

pub Recent-mono : (m a k : ℕ) (ns : List Node) → Recent m a k ns → Recent (suc m) a k ns
Recent-mono zero a k ns h = absurd h
Recent-mono (suc m) a k [] h = absurd h
Recent-mono (suc m) a k (n ∷ ns) (inl h) = inl h
Recent-mono (suc m) a k (n ∷ ns) (inr h) = inr (Recent-mono m a k ns h)

pub Recent-take :
    (m i a k : ℕ) (ns : List Node) → m ≤ i → Recent m a k ns → Recent m a k (take i ns)
Recent-take zero i a k ns p h = absurd h
Recent-take (suc m) i a k [] p h = absurd h
Recent-take (suc m) zero a k (n ∷ ns) p h = absurd (omega arith)
Recent-take (suc m) (suc i) a k (n ∷ ns) p (inl h) = inl h
Recent-take (suc m) (suc i) a k (n ∷ ns) p (inr h) = inr (Recent-take m i a k ns (omega arith) h)

pub Recent-front :
    (m a k it : ℕ) (ns : List Node) (n : Node)
    → deref it ns ≡ some n
    → Recent m a k ns
    → Recent (suc m) a k (n ∷ unlink it ns)
Recent-front zero a k it ns n e h = absurd h
Recent-front (suc m) a k it [] n e h = absurd h
Recent-front (suc m) a k it (x ∷ xs) n e h = elim (Bool-cases (x.id == it)) [
  | inl here ↦ ground (arith, Recent-mono (suc m) a k (x ∷ xs) h)
  | inr there ↦ ground (arith, Recent-front m a k it xs n)
]

Recent-Apart : (n : Node) (m a k : ℕ) (ns : List Node) → Apart n ns → Recent m a k ns → n.addr ≢ a
Recent-Apart n zero a k ns g h = absurd h
Recent-Apart n (suc m) a k [] g h = absurd h
Recent-Apart n (suc m) a k (x ∷ xs) g (inl h) = ground arith
Recent-Apart n (suc m) a k (x ∷ xs) g (inr h) = Recent-Apart n m a k xs g.1 h

pub Recent-mapped :
    (base : ℕ → Option ℕ) (next m a k : ℕ) (ns : List Node)
    → Good next base ns
    → Recent m a k ns
    → (mapped base ns a ≡ some k) × (a ≢ 0)
Recent-mapped base next zero a k ns g h = absurd h
Recent-mapped base next (suc m) a k [] g h = absurd h
Recent-mapped base next (suc m) a k (n ∷ ns) g (inl h) = ground arith
Recent-mapped base next (suc m) a k (n ∷ ns) g (inr h) =
    ground (arith, Recent-mapped base next m a k ns g.2 h, Recent-Apart n m a k ns g.1 h)
