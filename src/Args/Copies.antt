-- ===== src/Args/Copies.antt =====
-- What `copyArgs` (Args.hpp) copies.
use us_blkback.Base.{
  ℕ, suc, ◌*◌, ◌≡◌, refl, sym, ap, ◌∙◌, subst, none, some, Option, List, [], ◌∷◌, ◌++◌, Bool, true,
  ◌==◌, Bool-cases, Option-cases, inl, inr, length, if-else, ==→≡, arith,
}
use mathlib.Core.List.{append-nil}
use us_blkback.Args.{
  Block, Heap, OrigArgs, put, free, free_last_first, strings, orig_strings, copy_loop, copy_all,
  copy_args,
}
use us_blkback.Args.Leaks.{
  Fresh, Fresh-put, grown, block_of, copy_loop-refused, copy_loop-next, length-copy_loop,
  argv_pointers-all,
}
use us_blkback.Args.Lifetime.{copy_args-next}

put-other :
    (f : ℕ → Option Block) (p q : ℕ) (b c : Block)
    → f q ≡ none
    → f p ≡ some c
    → put f q b p ≡ some c
put-other f p q b c out there = elim (Bool-cases (q == p)) [
  | inl same ↦ absurd (ground (arith, sym (ap f (==→≡ q p same)) ∙ out, there))
  | inr apart ↦ if-else (q == p) (some b) (f p) apart ∙ there
]

-- A new block changes no string that is there.
strings-grown :
    (ps : List ℕ) (h : Heap) (q n : ℕ) (b : Block) (rest r : List (List ℕ))
    → h.block q ≡ none
    → strings ps h rest ≡ some r
    → strings ps (record { block = put h.block q b; count = n }) rest ≡ some r
unfolding strings
strings-grown [] h q n b rest r out e = e
strings-grown (p ∷ ps) h q n b rest r out e = elim (Option-cases (h.block p)) [
  | inl bad ↦ absurd (ground (arith, e, bad))
  | inr (c, there) ↦
      let e' : strings ps h (c.chars ∷ rest) ≡ some r = ground (arith, e, there) in
      let go = strings-grown ps h q n b (c.chars ∷ rest) r out e' in
      let same : put h.block q b p ≡ some c = put-other h.block p q b c out there in rw same go
]

module _ (refuses : ℕ → Bool) (pointer : ℕ) where
  -- Where the loop ends with every string copied, they stand before those that were there.
  copy_loop-strings :
      (args : List (List ℕ)) (ps : List ℕ) (h : Heap) (rest r : List (List ℕ))
      → Fresh h.count h.block
      → (copy_loop refuses pointer args ps h).0 ≡ true
      → strings ps h (args ++ rest) ≡ some r
      → strings (copy_loop refuses pointer args ps h).1 (copy_loop refuses pointer args ps h).2 rest
        ≡ some r
  unfolding strings copy_loop
  copy_loop-strings [] ps h rest r fresh all e = e
  copy_loop-strings (a ∷ args) ps h rest r fresh all e = elim (Bool-cases (refuses h.count)) [
    | inl refused ↦
        absurd (
          ground
            (arith, ap (λ x. x.0) (copy_loop-refused refuses pointer a args ps h refused), all))
    | inr given ↦
        let b : Block = block_of refuses pointer a in
        let next = copy_loop-next refuses pointer a args ps h given in
        let there : put h.block (suc h.count) b (suc h.count) ≡ some b = ground arith in
        let held =
          strings-grown ps h (suc h.count) (suc h.count) b (a ∷ (args ++ rest)) r
            (fresh (suc h.count) (omega arith)) e in
        subst (λ x. strings x.1 x.2 rest ≡ some r) (sym next)
          (copy_loop-strings args (suc h.count ∷ ps) (grown refuses pointer b h) rest r
            (Fresh-put h.count b h.block fresh) (sym (ap (λ x. x.0) next) ∙ all) (rw there held))
  ]

  copy_all-strings :
      (args : List (List ℕ)) (s s' : OrigArgs)
      → s.orig_argc ≡ length args
      → Fresh s.heap.count s.heap.block
      → copy_all refuses pointer args s ≡ some (true, s')
      → (orig_strings s' ≡ some (args ++ [])) × (s'.orig_argc ≡ s.orig_argc)
  unfolding copy_all strings
  copy_all-strings args s s' argc fresh ran =
      let c : Bool × List ℕ × Heap = copy_loop refuses pointer args [] s.heap in
      elim (Bool-cases c.0) [
        | inl all ↦
            let did : copy_all refuses pointer args s
                ≡ some (true, record s { slots = c.1; heap = c.2 }) =
              rw (copy_all, all) refl in
            let s1 : OrigArgs = record s { slots = c.1; heap = c.2 } in
            let same : s1 ≡ s' = ground (arith, did, ran) in
            let slots : s1.orig_argc ≡ length c.1 =
              argc ∙ sym (length-copy_loop refuses pointer args [] s.heap all ∙ omega arith) in
            let held : orig_strings s1 ≡ some (args ++ []) =
              rw (argv_pointers-all s1 slots)
                (copy_loop-strings args [] s.heap [] (args ++ []) fresh all refl) in
            (
              subst (λ x. orig_strings x ≡ some (args ++ [])) same held,
              sym (ap (λ x. x.orig_argc) same),
            )
        | inr short ↦ elim (Option-cases (free_last_first c.1 c.2)) [
          | inl bad ↦ absurd (ground (arith, short, ran, bad))
          | inr (h, e) ↦ elim (Option-cases (free s.orig_argv h)) [
            | inl bad ↦ absurd (ground (arith, short, ran, e, bad))
            | inr (h', e') ↦ absurd (ground (arith, short, ran, e, e'))
          ]
        ]
      ]

  -- Where `copyArgs` succeeds, orig_argv has copies of all the arguments, in order, and orig_argc
  -- is their number, where no block lies at an address that is still to be allocated.
  pub copy_args-strings :
      (args : List (List ℕ)) (s s' : OrigArgs)
      → Fresh s.heap.count s.heap.block
      → copy_args refuses pointer args s ≡ some (true, s')
      → (orig_strings s' ≡ some args) × (s'.orig_argc ≡ length args)
  unfolding copy_args
  copy_args-strings [] s s' fresh ran = absurd (ground (arith, ran))
  copy_args-strings (a ∷ rest) s s' fresh ran = elim (Bool-cases (refuses s.heap.count)) [
    | inl refused ↦ absurd (ground (arith, refused, ran))
    | inr given ↦
        let b : Block = record { size = pointer * length (a ∷ rest); chars = [] } in
        let next = copy_args-next refuses pointer a rest s given in
        let (held, count) =
          copy_all-strings (a ∷ rest)
            (record s {
              orig_argc = length (a ∷ rest);
              orig_argv = suc s.heap.count;
              heap = grown refuses pointer b s.heap;
            })
            s' refl (Fresh-put s.heap.count b s.heap.block fresh) (sym next ∙ ran) in
        (held ∙ ap some (append-nil (a ∷ rest)), count)
  ]
