-- ===== src/Args/Lifetime.antt =====
-- The arguments from `copyArgs` to `freeArgs` (Args.hpp).
use us_blkback.Base.{
  ℕ, suc, ◌*◌, ◌≡◌, ◌≢◌, refl, sym, ap, ◌∙◌, subst, none, some, List, [], ◌∷◌, Bool, true, false,
  Bool-cases, inl, inr, length, arith,
}
use us_blkback.Args.{
  Block, Heap, OrigArgs, put, free, free_last_first, free_first_first, copy_loop, copy_all,
  copy_args, free_args,
}
use us_blkback.Args.Leaks.{
  Allocs, Fresh, Fresh-put, grown, free-some, free_last_first-Allocs, free_first_first-Allocs,
  drop-put, put-same, copy_loop-Allocs, length-copy_loop, argv_pointers-all,
}

module _ (refuses : ℕ → Bool) (pointer : ℕ) where
  -- How `copyArgs` ends on the heap `h`: it fails and no block is left, or it succeeds, and then
  -- `freeArgs` leaves no block.
  pub data Ends (h : Heap) (ok : Bool) (s : OrigArgs) : Type 0 where
    failed : ok ≡ false → s.orig_argv ≡ 0 → s.heap.block ≡ h.block → Ends h ok s
    copied :
        (freed : OrigArgs)
        → ok ≡ true
        → s.orig_argv ≢ 0
        → free_args s ≡ some freed
        → freed.orig_argv ≡ 0
        → freed.heap.block ≡ h.block
        → Ends h ok s

  free_args-Allocs :
      (s : OrigArgs) (b : Block) (h : Heap)
      → s.orig_argc ≡ length s.slots
      → s.orig_argv ≢ 0
      → h.block s.orig_argv ≡ none
      → Allocs s.slots (put h.block s.orig_argv b) s.heap.block
      → free_args s
        ≡ some (record s { orig_argv = 0; slots = []; heap = record (s.heap) { block = h.block } })
  unfolding free_args
  free_args-Allocs s b h all n out held =
      let base = put h.block s.orig_argv b in
      let array : Heap = record (s.heap) { block = base } in
      let e1 : free_first_first s.slots s.heap ≡ some array =
        free_first_first-Allocs s.slots base s.heap held in
      let e2 : free s.orig_argv array ≡ some (record (s.heap) { block = h.block }) =
        free-some s.orig_argv array b n (put-same s.orig_argv b h.block)
        ∙ ap (λ f. some (record (s.heap) { block = f })) (drop-put s.orig_argv b h.block out) in
      let e0 = argv_pointers-all s all in ground (arith, n, e0, e1, e2)

  copy_all-Ends :
      (args : List (List ℕ)) (s : OrigArgs) (b : Block) (h : Heap)
      → s.orig_argc ≡ length args
      → s.orig_argv ≢ 0
      → h.block s.orig_argv ≡ none
      → s.heap.block ≡ put h.block s.orig_argv b
      → Fresh s.heap.count s.heap.block
      → (ok : Bool) × (s' : OrigArgs) × (copy_all refuses pointer args s ≡ some (ok, s'))
        × Ends h ok s'
  unfolding copy_all
  copy_all-Ends args s b h argc n out same fresh =
      let c : Bool × List ℕ × Heap = copy_loop refuses pointer args [] s.heap in
      let base = put h.block s.orig_argv b in
      let held : Allocs c.1 base c.2.block =
        copy_loop-Allocs refuses pointer args [] base s.heap (subst (Fresh s.heap.count) same fresh)
          fresh same in
      elim (Bool-cases c.0) [
        | inl all ↦
            let s1 : OrigArgs = record s { slots = c.1; heap = c.2 } in
            let slots : s1.orig_argc ≡ length c.1 =
              argc ∙ sym (length-copy_loop refuses pointer args [] s.heap all ∙ omega arith) in
            (
              true,
              s1,
              rw (copy_all, all) refl,
              copied
                  (record s1 { orig_argv = 0; slots = []; heap = record (c.2) { block = h.block } })
                  refl n (free_args-Allocs s1 b h slots n out held) refl refl,
            )
        | inr short ↦
            let array : Heap = record (c.2) { block = base } in
            let e1 : free_last_first c.1 c.2 ≡ some array =
              free_last_first-Allocs c.1 base c.2 held in
            let e2 : free s.orig_argv array ≡ some (record (c.2) { block = h.block }) =
              free-some s.orig_argv array b n (put-same s.orig_argv b h.block)
              ∙ ap (λ f. some (record (c.2) { block = f })) (drop-put s.orig_argv b h.block out) in
            (
              false,
              record s { orig_argv = 0; heap = record (c.2) { block = h.block } },
              rw (copy_all, short, e1, e2) refl,
              failed refl refl refl,
            )
      ]

  pub copy_args-next :
      (a : List ℕ) (rest : List (List ℕ)) (s : OrigArgs)
      → refuses s.heap.count ≡ false
      → copy_args refuses pointer (a ∷ rest) s
        ≡ copy_all refuses pointer (a ∷ rest) (record s {
          orig_argc = length (a ∷ rest);
          orig_argv = suc s.heap.count;
          heap =
              grown refuses pointer
                (record { size = pointer * length (a ∷ rest); chars = [] })
                s.heap;
        })
  unfolding copy_args
  copy_args-next a rest s given = ground (arith, given)

  -- Where no arguments were copied before and no block lies at an address that is still to be
  -- allocated, `copyArgs` never frees what it did not allocate: if it fails, at whichever
  -- allocation, the heap has the blocks it had before; if it succeeds, it has them again after
  -- `freeArgs`.
  pub copy_args-Ends :
      (args : List (List ℕ)) (s : OrigArgs)
      → s.orig_argv ≡ 0
      → Fresh s.heap.count s.heap.block
      → (ok : Bool) × (s' : OrigArgs) × (copy_args refuses pointer args s ≡ some (ok, s'))
        × Ends s.heap ok s'
  unfolding copy_args
  copy_args-Ends [] s null fresh = (false, s, refl, failed refl null refl)
  copy_args-Ends (a ∷ rest) s null fresh = elim (Bool-cases (refuses s.heap.count)) [
    | inl refused ↦ (
      false,
      record s {
        orig_argc = length (a ∷ rest);
        orig_argv = 0;
        heap = record (s.heap) { count = suc s.heap.count };
      },
      ground (arith, refused),
      failed refl refl refl,
    )
    | inr given ↦
        let b : Block = record { size = pointer * length (a ∷ rest); chars = [] } in
        let (ok, s', ran, ends) =
          copy_all-Ends (a ∷ rest)
            (record s {
              orig_argc = length (a ∷ rest);
              orig_argv = suc s.heap.count;
              heap = grown refuses pointer b s.heap;
            })
            b s.heap refl (omega arith) (fresh (suc s.heap.count) (omega arith)) refl
            (Fresh-put s.heap.count b s.heap.block fresh) in
        (ok, s', copy_args-next a rest s given ∙ ran, ends)
  ]
