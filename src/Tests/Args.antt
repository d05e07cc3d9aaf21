-- ===== src/Tests/Args.antt =====
-- Two arguments, on a heap whose third allocation fails.
use us_blkback.Base.{ℕ, ◌≡◌, refl, none, some, List, [], ◌∷◌, Bool, ◌==◌}
use us_blkback.Args.{OrigArgs, copy_args}
use us_blkback.Args.Lifetime.{Ends, copy_args-Ends}

abbrev third : ℕ → Bool
third n = n == 2

abbrev args : List (List ℕ)
args = (97 ∷ []) ∷ (45 ∷ 115 ∷ []) ∷ []

abbrev unset : OrigArgs
unset = record {
  orig_argc = 0;
  orig_argv = 0;
  slots = [];
  heap = record { block = λ _. none; count = 0 };
}

copy_args-Ends_example :
    (ok : Bool) × (s : OrigArgs) × (copy_args third 8 args unset ≡ some (ok, s))
    × Ends third 8 unset.heap ok s
copy_args-Ends_example = copy_args-Ends third 8 args unset refl (λ x h. refl)
