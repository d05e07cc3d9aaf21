-- ===== src/Tests/Program.antt =====
-- Runs of the program with a parser that knows one option.
use us_blkback.Base.{ℕ, ◌≡◌, ◌≢◌, refl, Option, none, some, List, [], ◌∷◌, Bool, true, false}
use us_blkback.Program.{
  linux, windows, Opt, wait, Parsed, Call, thrown, value, main, blkback_worker, sigint, sigterm,
  reset_frontend_count, nr_cpus, sched_setaffinity, construct, start, block_signals, wait_signal,
  stop, destroy, parse_args, choose_cpu, set_affinity, wait_signals, with_backend, main_body,
}
use us_blkback.Program.Protocol.{loaded, bound}
use us_blkback.Program.Rules.{Outcome}
use us_blkback.Program.Ends.{Stops, Returned, main-Ends}
use us_blkback.Program.Worker.{WorkerReturned, WorkerExits, blkback_worker-Ends}
use us_blkback.Args.{OrigArgs, strings, orig_strings, copy_args, copy_all, copy_loop}

-- Every call succeeds, and the last of four processors is chosen.
abbrev fine : List Call → ℕ
fine (nr_cpus ∷ _) = 4
fine _ = 0

abbrev never : List Call → Bool
never _ = false

-- `start` throws.
abbrev no_xen : List Call → Bool
no_xen (start ∷ _) = true
no_xen _ = false

abbrev only : Opt → Opt → ℕ
only wait wait = 1
only _ _ = 0

abbrev only_wait : Parsed
only_wait = record { count = only wait; cpu = 0 }

-- An argument of two letters is "-w", and no other is known.
abbrev parse : List Opt → List (List ℕ) → Option Parsed
parse os ((_ ∷ _ ∷ []) ∷ []) = some only_wait
parse os _ = none

abbrev into : ℕ → List ℕ → List ℕ
into core mask = core ∷ mask

abbrev wait_argv : List (List ℕ)
wait_argv = (45 ∷ 119 ∷ []) ∷ []

-- The calls of a run on Linux, the last one first.
served_calls : main fine never parse into linux wait_argv [] ≡ (
  value 0,
  destroy
      ∷ stop
      ∷ wait_signal (sigint ∷ sigterm ∷ [])
      ∷ block_signals (sigint ∷ sigterm ∷ [])
      ∷ start
      ∷ construct true
      ∷ sched_setaffinity (3 ∷ [])
      ∷ nr_cpus
      ∷ reset_frontend_count
      ∷ [],
)
unfolding main main_body parse_args choose_cpu set_affinity wait_signals with_backend
served_calls = refl

main-Ends_example :
    Outcome no_xen loaded
      (Returned fine no_xen parse into wait_argv windows)
      (λ e q. (e ≢ thrown) × Stops fine no_xen parse into wait_argv windows e q)
      (main fine no_xen parse into windows wait_argv [])
main-Ends_example = main-Ends fine no_xen parse into wait_argv windows

blkback_worker-Ends_example :
    Outcome no_xen bound
      (WorkerReturned fine no_xen parse into wait_argv)
      (WorkerExits fine no_xen parse into wait_argv)
      (blkback_worker fine no_xen parse into wait_argv [])
blkback_worker-Ends_example = blkback_worker-Ends fine no_xen parse into wait_argv

abbrev all_given : ℕ → Bool
all_given _ = false

abbrev no_args : OrigArgs
no_args = record {
  orig_argc = 0;
  orig_argv = 0;
  slots = [];
  heap = record { block = λ _. none; count = 0 };
}

abbrev two_argv : List (List ℕ)
two_argv = (98 ∷ []) ∷ (45 ∷ 119 ∷ []) ∷ []

abbrev args_of : Option (Bool × OrigArgs) → OrigArgs
args_of none = no_args
args_of (some (_, s)) = s

abbrev copied_argv : OrigArgs
copied_argv = args_of (copy_args all_given 8 two_argv no_args)

copies : copy_args all_given 8 two_argv no_args ≡ some (true, copied_argv)
unfolding copy_args copy_all copy_loop
copies = refl

-- The copy of the two arguments is what the worker parses.
copied_two : orig_strings copied_argv ≡ some two_argv
unfolding copy_args copy_all copy_loop strings
copied_two = refl
