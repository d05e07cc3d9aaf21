-- ===== src/Args.antt =====
-- `copyArgs` and `freeArgs` (Args.hpp), over a heap of allocated blocks.
pub mod Leaks
pub mod Lifetime
pub mod Copies
use us_blkback.Base.{
  ℕ, zero, suc, ◌+◌, ◌-◌, ◌*◌, Option, none, some, List, [], ◌∷◌, Bool, true, false, ◌==◌,
  if◌then◌else◌, ◌>>=◌, length, ltb,
}

-- An allocated block, with the string that was copied to it.
pub record Block : Type 0 where
  pub size : ℕ
  pub chars : List ℕ

-- The blocks by address, and the number of allocations so far; the next block is at `suc count`.
pub record Heap : Type 0 where
  pub block : ℕ → Option Block
  pub count : ℕ

-- orig_argc, orig_argv and the pointers in it, the last one first, with the heap.
pub record OrigArgs : Type 0 where
  pub orig_argc : ℕ
  pub orig_argv : ℕ
  pub slots : List ℕ
  pub heap : Heap

abbrev pub put : (ℕ → Option Block) → ℕ → Block → ℕ → Option Block
put f p b x = if p == x then some b else f x

abbrev pub drop : (ℕ → Option Block) → ℕ → ℕ → Option Block
drop f p x = if p == x then none else f x

-- `free`: of a pointer that is neither null nor a block, it is undefined behaviour.
unfoldable pub free : ℕ → Heap → Option Heap
free p h =
    if p == 0
    then some h
    else elim (h.block p) [ none ↦ none | some _ ↦ some (record h { block = drop h.block p }) ]

-- The loop of `copyArgs` that gives up, which starts with the last pointer.
unfoldable pub free_last_first : List ℕ → Heap → Option Heap
free_last_first [] h = some h
free_last_first (p ∷ ps) h = free p h >>= λ h'. free_last_first ps h'

-- The loop of `freeArgs`, which starts with the first pointer.
unfoldable pub free_first_first : List ℕ → Heap → Option Heap
free_first_first [] h = some h
free_first_first (p ∷ ps) h = free_first_first ps h >>= λ h'. free p h'

-- `refuses` tells which allocations fail; `pointer` is the size of a `char *`.
module _ (refuses : ℕ → Bool) (pointer : ℕ) where
  -- `malloc` of a block, and the copy to it.
  abbrev pub malloc : ℕ → List ℕ → Heap → ℕ × Heap
  malloc size chars h = if refuses h.count then (0, record h { count = suc h.count }) else (
    suc h.count,
    record {
      block = put h.block (suc h.count) (record { size = size; chars = chars });
      count = suc h.count;
    },
  )

  -- The loop of `copyArgs`, over the arguments that are left.
  unfoldable pub copy_loop : List (List ℕ) → List ℕ → Heap → Bool × List ℕ × Heap
  copy_loop [] ps h = (true, ps, h)
  copy_loop (a ∷ rest) ps h =
      let r = malloc (length a + 1) a h in
      elim (r.0 == 0) [ true ↦ (false, ps, r.1) | false ↦ copy_loop rest (r.0 ∷ ps) r.1 ]

  -- `copyArgs` from its loop on.
  unfoldable pub copy_all : List (List ℕ) → OrigArgs → Option (Bool × OrigArgs)
  copy_all args s =
      let c = copy_loop args [] s.heap in
      elim c.0 [
        | true ↦ some (true, record s { slots = c.1; heap = c.2 })
        | false ↦ free_last_first c.1 c.2 >>= λ h.
            free s.orig_argv h >>= λ h'. some (false, record s { orig_argv = 0; heap = h' })
      ]

  -- Returns whether it was the 0 of success; the other result is -1.
  unfoldable pub copy_args : List (List ℕ) → OrigArgs → Option (Bool × OrigArgs)
  unfolding copy_all
  copy_args [] s = some (false, s)
  copy_args (a ∷ rest) s =
      let r = malloc (pointer * length (a ∷ rest)) [] s.heap in
      let s' = record s { orig_argc = length (a ∷ rest); orig_argv = r.0; heap = r.1 } in
      if r.0 == 0 then some (false, s') else copy_all (a ∷ rest) s'

abbrev pub skip : ℕ → List ℕ → List ℕ
skip zero ps = ps
skip (suc n) [] = []
skip (suc n) (p ∷ ps) = skip n ps

-- orig_argv[i] for each i < orig_argc, the last one first. To read past the pointers that are
-- there is undefined behaviour.
abbrev pub argv_pointers : OrigArgs → Option (List ℕ)
argv_pointers s =
    if ltb (length s.slots) s.orig_argc
    then none
    else some (skip (length s.slots - s.orig_argc) s.slots)

unfoldable pub free_args : OrigArgs → Option OrigArgs
free_args s =
    if s.orig_argv == 0
    then some s
    else (argv_pointers s >>= λ ps. free_first_first ps s.heap >>= λ h.
        free s.orig_argv h >>= λ h'. some (record s { orig_argv = 0; slots = []; heap = h' }))

-- The strings at these pointers, the first one first, before those of `rest`; a pointer to no
-- block is `none`.
unfoldable pub strings : List ℕ → Heap → List (List ℕ) → Option (List (List ℕ))
strings [] h rest = some rest
strings (p ∷ ps) h rest = h.block p >>= λ b. strings ps h (b.chars ∷ rest)

-- The first orig_argc strings of orig_argv.
abbrev pub orig_strings : OrigArgs → Option (List (List ℕ))
orig_strings s = argv_pointers s >>= λ ps. strings ps s.heap []
