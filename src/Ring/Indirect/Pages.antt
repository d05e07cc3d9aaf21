-- ===== src/Ring/Indirect/Pages.antt =====
-- The segments of an indirect request, as the guest's pages list them.
use us_blkback.Base.{
  ℕ, zero, suc, ◌+◌, ◌-◌, ◌*◌, ◌≤◌, ◌≡◌, refl, ap, List, [], ◌∷◌, ◌++◌, Bool, arith, length,
  length-append,
}
use us_blkback.Limits.{Abi, minimum, segments_per_indirect_page}
use us_blkback.Ring.{Segment}
use us_blkback.Ring.Effects.{AllSafe}
use us_blkback.Ring.Avoids.{Avoids}

module _ (abi : Abi) (segment_at : (ℕ → ℕ) → ℕ → Segment) where
  -- `k` segments of a page from index `n` on.
  abbrev pub page_segments : (ℕ → ℕ) → ℕ → ℕ → List Segment
  page_segments bytes zero n = []
  page_segments bytes (suc k) n =
      segment_at bytes (n * abi.sizeof_segment) ∷ page_segments bytes k (n + 1)

  -- `left` segments on the pages of at most `k` grants.
  abbrev pub indirect_segments : (ℕ → ℕ → ℕ) → ℕ → List ℕ → ℕ → List Segment
  indirect_segments pages zero grefs left = []
  indirect_segments pages (suc k) [] left = []
  indirect_segments pages (suc k) (g ∷ gs) left =
      page_segments (pages g) (minimum left (segments_per_indirect_page abi)) 0
      ++ indirect_segments pages k gs (left - minimum left (segments_per_indirect_page abi))

  pub length-page_segments : (bytes : ℕ → ℕ) (k n : ℕ) → length (page_segments bytes k n) ≡ k
  length-page_segments bytes zero n = refl
  length-page_segments bytes (suc k) n = ap suc (length-page_segments bytes k (n + 1))

  -- Enough pages hold every segment, each once.
  pub length-indirect_segments :
      (pages : ℕ → ℕ → ℕ) (k : ℕ) (gs : List ℕ) (left : ℕ)
      → k ≤ length gs
      → left ≤ k * segments_per_indirect_page abi
      → length (indirect_segments pages k gs left) ≡ left
  length-indirect_segments pages zero gs left h e = omega arith
  length-indirect_segments pages (suc k) [] left h e = absurd (omega arith)
  length-indirect_segments pages (suc k) (g ∷ gs) left h e =
      let nr = minimum left (segments_per_indirect_page abi) in
      let rest : left - nr ≤ k * segments_per_indirect_page abi = ground arith in
      let small : nr ≤ left = ground arith in
      omega (
        arith,
        length-append {0} (page_segments (pages g) nr 0) (indirect_segments pages k gs (left - nr)),
        length-page_segments (pages g) nr 0,
        length-indirect_segments pages k gs (left - nr) (omega arith) rest,
      )

pub AllSafe-first : (abi : Abi) (xs ys : List Segment) → AllSafe abi (xs ++ ys) → AllSafe abi xs
AllSafe-first abi [] ys h = tt
AllSafe-first abi (x ∷ xs) ys h = (h.0, AllSafe-first abi xs ys h.1)

pub AllSafe-second : (abi : Abi) (xs ys : List Segment) → AllSafe abi (xs ++ ys) → AllSafe abi ys
AllSafe-second abi [] ys h = h
AllSafe-second abi (x ∷ xs) ys h = AllSafe-second abi xs ys h.1

pub Avoids-first :
    (writes : Bool) (k : ℕ) (xs ys : List Segment) → Avoids writes k (xs ++ ys) → Avoids writes k xs
Avoids-first writes k [] ys h = tt
Avoids-first writes k (x ∷ xs) ys h = (h.0, Avoids-first writes k xs ys h.1)

Avoids-second :
    (writes : Bool) (k : ℕ) (xs ys : List Segment) → Avoids writes k (xs ++ ys) → Avoids writes k ys
Avoids-second writes k [] ys h = h
Avoids-second writes k (x ∷ xs) ys h = Avoids-second writes k xs ys h.1

-- The segments leave the pages of all these grants alone.
abbrev pub AvoidsAll : Bool → List ℕ → List Segment → Type 0
AvoidsAll writes [] segs = Unit {0}
AvoidsAll writes (g ∷ gs) segs = Avoids writes g segs × AvoidsAll writes gs segs

pub AvoidsAll-first :
    (writes : Bool) (gs : List ℕ) (xs ys : List Segment)
    → AvoidsAll writes gs (xs ++ ys)
    → AvoidsAll writes gs xs
AvoidsAll-first writes [] xs ys h = tt
AvoidsAll-first writes (g ∷ gs) xs ys h =
    (Avoids-first writes g xs ys h.0, AvoidsAll-first writes gs xs ys h.1)

pub AvoidsAll-second :
    (writes : Bool) (gs : List ℕ) (xs ys : List Segment)
    → AvoidsAll writes gs (xs ++ ys)
    → AvoidsAll writes gs ys
AvoidsAll-second writes [] xs ys h = tt
AvoidsAll-second writes (g ∷ gs) xs ys h =
    (Avoids-second writes g xs ys h.0, AvoidsAll-second writes gs xs ys h.1)
