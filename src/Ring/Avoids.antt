-- ===== src/Ring/Avoids.antt =====
-- Segments one after another (BlkBackend.cpp): the pages that they leave alone, and runs in parts.
use us_blkback.Base.{
  ℕ, zero, suc, ◌+◌, ◌≡◌, ◌≢◌, refl, ap, ◌∙◌, List, [], ◌∷◌, ◌++◌, Bool, true, false, arith, inl,
  inr, ◌⊎◌, take,
}
use us_blkback.Ring.{Segment, sectors_of}
use us_blkback.Ring.Effects.{Store, transfer, transfers, total_sectors}

-- The segments leave page `k` alone: they are written to the disk, or name other grants.
abbrev pub Avoids : Bool → ℕ → List Segment → Type 0
Avoids writes k [] = Unit {0}
Avoids writes k (seg ∷ segs) = ((writes ≡ true) ⊎ (seg.gref ≢ k)) × Avoids writes k segs

pub transfer-page :
    (writes : Bool) (seg : Segment) (k start : ℕ) (s : Store)
    → (writes ≡ true) ⊎ (seg.gref ≢ k)
    → (i : ℕ) → (transfer writes seg start s).pages k i ≡ s.pages k i
transfer-page true seg k start s h i = refl
transfer-page false seg k start s (inl h) i = cc
transfer-page false seg k start s (inr h) i = ground arith

pub transfers-page :
    (writes : Bool) (segs : List Segment) (k start : ℕ) (s : Store)
    → Avoids writes k segs
    → (i : ℕ) → (transfers writes segs start s).pages k i ≡ s.pages k i
transfers-page writes [] k start s h i = refl
transfers-page writes (seg ∷ segs) k start s h i =
    transfers-page writes segs k (start + sectors_of seg) (transfer writes seg start s) h.1 i
    ∙ transfer-page writes seg k start s h.0 i

pub total_sectors-append :
    (xs ys : List Segment) → total_sectors (xs ++ ys) ≡ total_sectors xs + total_sectors ys
total_sectors-append [] ys = omega arith
total_sectors-append (x ∷ xs) ys = omega (arith, total_sectors-append xs ys)

pub transfers-append :
    (writes : Bool) (xs ys : List Segment) (start : ℕ) (s : Store)
    → transfers writes (xs ++ ys) start s
      ≡ transfers writes ys (start + total_sectors xs) (transfers writes xs start s)
transfers-append writes [] ys start s =
    let e : start ≡ start + 0 = omega arith in ap (λ n. transfers writes ys n s) e
transfers-append writes (x ∷ xs) ys start s =
    let e : start + sectors_of x + total_sectors xs ≡ start + (sectors_of x + total_sectors xs) =
      omega arith in
    transfers-append writes xs ys (start + sectors_of x) (transfer writes x start s)
    ∙ ap
        (λ n.
          transfers writes ys n
            (transfers writes xs (start + sectors_of x) (transfer writes x start s)))
        e

pub Avoids-take :
    (writes : Bool) (k n : ℕ) (segs : List Segment)
    → Avoids writes k segs
    → Avoids writes k (take n segs)
Avoids-take writes k zero segs h = tt
Avoids-take writes k (suc n) [] h = tt
Avoids-take writes k (suc n) (seg ∷ segs) h = (h.0, Avoids-take writes k n segs h.1)
