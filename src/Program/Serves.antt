-- ===== src/Program/Serves.antt =====
-- `main` (BlkBackend.cpp) on Linux, where nothing throws.
use us_blkback.Base.{ℕ, List, [], ◌∷◌, Bool, true, false, Option, ◌==◌, if◌then◌else◌}
use us_blkback.Program.{
  linux, Opt, affinity, Parsed, Call, reset_frontend_count, nr_cpus, sched_setaffinity, terminated,
  give, fail, Run, last_cpu,
}
use us_blkback.Program.Protocol.{Phase, lost, broken, dropped}

abbrev is_clean : Phase → Bool
is_clean lost = false
is_clean broken = false
is_clean dropped = false
is_clean _ = true

module _ (os : List Call → ℕ) (throws : List Call → Bool)
    (cxxopts : List Opt → List (List ℕ) → Option Parsed) (cpu_set : ℕ → List ℕ → List ℕ)
    (argv : List (List ℕ)) where
  -- The calls up to the one that sets the affinity: to the processor that the arguments name, or to
  -- the last one.
  abbrev pub affinity_calls : Parsed → List Call
  affinity_calls args =
      let counting : List Call = nr_cpus ∷ reset_frontend_count ∷ [] in
      if args.count affinity == 0
      then sched_setaffinity (cpu_set (last_cpu os throws cxxopts cpu_set linux (os counting)) [])
        ∷ counting
      else sched_setaffinity (cpu_set args.cpu []) ∷ reset_frontend_count ∷ []

  abbrev unless_failed : Bool → Run (Unit {0})
  unless_failed failed = if failed then fail terminated else give tt
