-- ===== src/Args/Leaks.antt =====
-- `copyArgs` and `freeArgs` (Args.hpp) leave no block behind.
use us_blkback.Base.{
  ℕ, suc, ◌+◌, ◌-◌, ◌<◌, ltb, ◌≡◌, ◌≢◌, refl, sym, ap, ◌∙◌, subst, fun_ext, Option, none, some,
  List, [], ◌∷◌, Bool, true, false, ◌==◌, Bool-cases, inl, inr, arith, if-then, if-else, ==→≡,
  length, ◌+◌,
}
use us_blkback.Args.{
  Block, Heap, OrigArgs, put, drop, free, free_last_first, free_first_first, copy_loop,
  argv_pointers,
}

-- The blocks `f` are those of `base` and one at each of the addresses.
abbrev pub Allocs : List ℕ → (ℕ → Option Block) → (ℕ → Option Block) → Type 0
Allocs [] base f = f ≡ base
Allocs (p ∷ ps) base f =
    (p ≢ 0) × (base p ≡ none) × (b : Block) × (f p ≡ some b) × Allocs ps base (drop f p)

pub free-some :
    (p : ℕ) (h : Heap) (b : Block)
    → p ≢ 0
    → h.block p ≡ some b
    → free p h ≡ some (record h { block = drop h.block p })
unfolding free
free-some p h b n e = ground (arith, e)

pub free_last_first-Allocs :
    (ps : List ℕ) (base : ℕ → Option Block) (h : Heap)
    → Allocs ps base h.block
    → free_last_first ps h ≡ some (record h { block = base })
unfolding free_last_first
free_last_first-Allocs [] base h e = ap (λ f. some (record h { block = f })) e
free_last_first-Allocs (p ∷ ps) base h (n, _, b, e, rest) =
    rw (free-some p h b n e)
      (free_last_first-Allocs ps base (record h { block = drop h.block p }) rest)

drop-drop : (f : ℕ → Option Block) (p q : ℕ) → drop (drop f p) q ≡ drop (drop f q) p
drop-drop f p q = fun_ext (λ x. ground arith)

drop-some :
    (f : ℕ → Option Block) (p q : ℕ) (b : Block)
    → drop f p q ≡ some b
    → ((p == q) ≡ false) × (f q ≡ some b)
drop-some f p q b e = elim (Bool-cases (p == q)) [
  | inl same ↦ absurd (ground (arith, same, e))
  | inr apart ↦ (apart, sym (if-else (p == q) none (f q) apart) ∙ e)
]

put-base :
    (p x : ℕ) (b : Block) (base f : ℕ → Option Block)
    → f p ≡ some b
    → drop f p x ≡ base x
    → f x ≡ put base p b x
put-base p x b base f e h = elim (Bool-cases (p == x)) [
  | inl same ↦ ap f (sym (==→≡ p x same)) ∙ e ∙ sym (if-then (p == x) (some b) (base x) same)
  | inr apart ↦
      sym (if-else (p == x) none (f x) apart) ∙ h ∙ sym (if-else (p == x) (some b) (base x) apart)
]

-- The first block counted to the base.
Allocs-put :
    (ps : List ℕ) (p : ℕ) (b : Block) (base f : ℕ → Option Block)
    → f p ≡ some b
    → Allocs ps base (drop f p)
    → Allocs ps (put base p b) f
Allocs-put [] p b base f e h = fun_ext (λ x. put-base p x b base f e (ap (λ g. g x) h))
Allocs-put (q ∷ qs) p b base f e (n, out, b', e', rest) =
    let (apart, there) = drop-some f p q b' e' in
    (
      n,
      ground (arith, apart, out),
      b',
      there,
      Allocs-put qs p b base (drop f q) (ground (arith, apart, e))
          (subst (Allocs qs base) (drop-drop f p q) rest),
    )

pub drop-put : (p : ℕ) (b : Block) (f : ℕ → Option Block) → f p ≡ none → drop (put f p b) p ≡ f
drop-put p b f e = fun_ext (λ x. elim (Bool-cases (p == x)) [
  | inl same ↦ if-then (p == x) none _ same ∙ sym e ∙ ap f (==→≡ p x same)
  | inr apart ↦ if-else (p == x) none _ apart ∙ if-else (p == x) (some b) (f x) apart
])

pub put-same : (p : ℕ) (b : Block) (f : ℕ → Option Block) → put f p b p ≡ some b
put-same p b f = ground arith

pub free_first_first-Allocs :
    (ps : List ℕ) (base : ℕ → Option Block) (h : Heap)
    → Allocs ps base h.block
    → free_first_first ps h ≡ some (record h { block = base })
unfolding free_first_first
free_first_first-Allocs [] base h e = ap (λ f. some (record h { block = f })) e
free_first_first-Allocs (p ∷ ps) base h (n, out, b, e, rest) =
    rw (free_first_first-Allocs ps (put base p b) h (Allocs-put ps p b base h.block e rest)) (
      free-some p (record h { block = put base p b }) b n (ground arith)
      ∙ ap (λ f. some (record h { block = f })) (drop-put p b base out))

-- No block lies at an address that is still to be allocated.
abbrev pub Fresh : ℕ → (ℕ → Option Block) → Type 0
Fresh n f = (x : ℕ) → n < x → f x ≡ none

pub Fresh-put :
    (n : ℕ) (b : Block) (f : ℕ → Option Block) → Fresh n f → Fresh (suc n) (put f (suc n) b)
Fresh-put n b f h x p = if-else (suc n == x) (some b) (f x) (ground arith) ∙ h x (omega arith)

module _ (refuses : ℕ → Bool) (pointer : ℕ) where
  abbrev pub block_of : List ℕ → Block
  block_of a = record { size = length a + 1; chars = a }

  -- The heap after a block was allocated.
  abbrev pub grown : Block → Heap → Heap
  grown b h = record { block = put h.block (suc h.count) b; count = suc h.count }

  pub copy_loop-refused :
      (a : List ℕ) (rest : List (List ℕ)) (ps : List ℕ) (h : Heap)
      → refuses h.count ≡ true
      → copy_loop refuses pointer (a ∷ rest) ps h ≡ (false, ps, record h { count = suc h.count })
  unfolding copy_loop
  copy_loop-refused a rest ps h e = ground (arith, e)

  pub copy_loop-next :
      (a : List ℕ) (rest : List (List ℕ)) (ps : List ℕ) (h : Heap)
      → refuses h.count ≡ false
      → copy_loop refuses pointer (a ∷ rest) ps h
        ≡ copy_loop refuses pointer rest (suc h.count ∷ ps) (grown (block_of a) h)
  unfolding copy_loop
  copy_loop-next a rest ps h e = ground (arith, e)

  pub copy_loop-Allocs :
      (args : List (List ℕ)) (ps : List ℕ) (base : ℕ → Option Block) (h : Heap)
      → Fresh h.count base
      → Fresh h.count h.block
      → Allocs ps base h.block
      → Allocs
          (copy_loop refuses pointer args ps h).1
          base
          (copy_loop refuses pointer args ps h).2.block
  unfolding copy_loop
  copy_loop-Allocs [] ps base h out fresh held = held
  copy_loop-Allocs (a ∷ rest) ps base h out fresh held = elim (Bool-cases (refuses h.count)) [
    | inl refused ↦
        subst (λ r. Allocs r.1 base r.2.block) (sym (copy_loop-refused a rest ps h refused)) held
    | inr given ↦
        subst (λ r. Allocs r.1 base r.2.block) (sym (copy_loop-next a rest ps h given))
          (copy_loop-Allocs rest (suc h.count ∷ ps) base (grown (block_of a) h)
            (λ x p. out x (omega arith)) (Fresh-put h.count (block_of a) h.block fresh)
            (
              omega arith,
              out (suc h.count) (omega arith),
              block_of a,
              if-then (suc h.count == suc h.count) _ _ (ground arith),
              subst (Allocs ps base)
                  (sym (
                    drop-put (suc h.count) (block_of a) h.block
                      (fresh (suc h.count) (omega arith))))
                  held,
            ))
  ]

  -- A loop that ends with every string copied has added one pointer for each.
  pub length-copy_loop :
      (args : List (List ℕ)) (ps : List ℕ) (h : Heap)
      → (copy_loop refuses pointer args ps h).0 ≡ true
      → length (copy_loop refuses pointer args ps h).1 ≡ length args + length ps
  unfolding copy_loop
  length-copy_loop [] ps h all = omega arith
  length-copy_loop (a ∷ rest) ps h all = elim (Bool-cases (refuses h.count)) [
    | inl refused ↦
        absurd (ground (arith, ap (λ x. x.0) (copy_loop-refused a rest ps h refused), all))
    | inr given ↦
        let next = copy_loop-next a rest ps h given in
        let go =
          length-copy_loop rest (suc h.count ∷ ps) (grown (block_of a) h)
            (sym (ap (λ x. x.0) next) ∙ all) in
        ap (λ x. length x.1) next ∙ go ∙ omega arith
  ]

-- Where there are orig_argc pointers, all of them are read.
pub argv_pointers-all :
    (s : OrigArgs) → s.orig_argc ≡ length s.slots → argv_pointers s ≡ some s.slots
argv_pointers-all s e =
    let inside : ltb (length s.slots) s.orig_argc ≡ false = ground arith in
    let none_left : length s.slots - s.orig_argc ≡ 0 = omega arith in rw (inside, none_left) refl
