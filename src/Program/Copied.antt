-- ===== src/Program/Copied.antt =====
-- The options of the worker thread (Service.cpp), from the copy of the arguments that `main` makes.
use us_blkback.Base.{ℕ, ◌≡◌, refl, Option, some, List, Bool, true, false, none, length}
use us_blkback.Args.{OrigArgs, copy_args, free_args}
use us_blkback.Args.Leaks.{Fresh}
use us_blkback.Args.Copies.{copy_args-strings}
use us_blkback.Program.{
  Opt, Parsed, Call, windows, End, fault, exited, exit_failure, parse_args, parse_orig_args,
}

module _ (os : List Call → ℕ) (throws : List Call → Bool)
    (cxxopts : List Opt → List (List ℕ) → Option Parsed) (cpu_set : ℕ → List ℕ → List ℕ)
    (refuses : ℕ → Bool) (pointer : ℕ) where
  -- Where `copyArgs` succeeds and no block lies at an address that is still to be allocated,
  -- orig_argc is the number of the arguments and `parseOrigArgs` in the worker does what
  -- `parseArgs` does in `main`, whatever was called before.
  pub parse_orig_args-copy_args :
      (args : List (List ℕ)) (s s' : OrigArgs) (cs : List Call)
      → Fresh s.heap.count s.heap.block
      → copy_args refuses pointer args s ≡ some (true, s')
      → (s'.orig_argc ≡ length args)
        × (parse_orig_args os throws cxxopts cpu_set s' cs
            ≡ parse_args os throws cxxopts cpu_set windows args cs)
  unfolding parse_orig_args
  parse_orig_args-copy_args args s s' cs fresh ran =
      let (Held, count) = copy_args-strings refuses pointer args s s' fresh ran in
      (count, rw (parse_orig_args, Held) refl)

  -- What becomes of the arguments in a service: `copyArgs`, `parseOrigArgs` in the worker,
  -- `freeArgs`. Where they cannot be copied, `main` ends with EXIT_FAILURE.
  unfoldable pub args_life : List (List ℕ) → OrigArgs → List Call → Option (End Parsed × OrigArgs)
  args_life args s cs = elim (copy_args refuses pointer args s) [
    | none ↦ none
    | some (false, s') ↦ some (fault (exited exit_failure), s')
    | some (true, s') ↦ elim (free_args s') [
      | none ↦ none
      | some freed ↦ some ((parse_orig_args os throws cxxopts cpu_set s' cs).0, freed)
    ]
  ]
