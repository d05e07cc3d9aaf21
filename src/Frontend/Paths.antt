-- ===== src/Frontend/Paths.antt =====
-- The quotes that `onBind` (BlkBackend.cpp) takes off the path of the image file.
use us_blkback.Base.{
  ℕ, suc, ◌+◌, ◌≡◌, ◌≢◌, refl, ap, some, List, [], ◌∷◌, ◌++◌, length, length-append, take, arith,
}
use us_blkback.Frontend.{quote, last, unquote}

last-append : (c d : ℕ) (cs : List ℕ) → last c (cs ++ (d ∷ [])) ≡ d
last-append c d [] = refl
last-append c d (e ∷ cs) = last-append e d cs

take-append_last : (d : ℕ) (cs : List ℕ) → take (length cs) (cs ++ (d ∷ [])) ≡ cs
take-append_last d [] = refl
take-append_last d (c ∷ cs) = ap (λ l. c ∷ l) (take-append_last d cs)

-- A path in single quotes is opened without them, if there is anything between them.
pub unquote-quoted :
    (path : List ℕ) → path ≢ [] → unquote (quote ∷ path ++ (quote ∷ [])) ≡ some path
unfolding unquote
unquote-quoted [] h = absurd (h refl)
unquote-quoted (c ∷ cs) h =
    let e : last quote (c ∷ cs ++ (quote ∷ [])) ≡ quote = last-append quote quote (c ∷ cs) in
    let t : take (suc (length cs)) (c ∷ cs ++ (quote ∷ [])) ≡ c ∷ cs =
      take-append_last quote (c ∷ cs) in
    let n : length (c ∷ cs ++ (quote ∷ [])) ≡ suc (length cs) + 1 =
      length-append (c ∷ cs) (quote ∷ []) in
    ground (arith, e, t, n)
