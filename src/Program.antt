-- ===== src/Program.antt =====
-- The program itself: `main`, `set_affinity` and `waitSignals` (BlkBackend.cpp), `parseArgs`
-- (Args.hpp) and `blkback_worker` (Service.cpp), each as the calls it makes.
pub mod Protocol
pub mod Rules
pub mod Order
pub mod Ends
pub mod Worker
pub mod Serves
pub mod Copied
use us_blkback.Base.{
  ℕ, zero, suc, ◌+◌, ◌-◌, ◌^◌, Option, none, some, List, [], ◌∷◌, Bool, true, false, not, leb, ◌==◌,
  if◌then◌else◌, u64, u32,
}
use us_blkback.Args.{OrigArgs, orig_strings}

-- _WIN32 or not.
pub data Platform : Type 0 where
  linux windows : Platform

-- The options that `parseArgs` declares.
pub data Opt : Type 0 where
  help affinity windows_svc high_priority wait : Opt

-- `args_type`: how often each option was given, and the value of "affinity".
pub record Parsed : Type 0 where
  pub count : Opt → ℕ
  pub cpu : ℕ

pub data Signal : Type 0 where
  sigint sigterm : Signal

-- The calls of the system, of libxenbe and of the other parts.
pub data Call : Type 0 where
  reset_frontend_count print_help nr_cpus set_priority_class : Call
  sched_setaffinity : List ℕ → Call
  set_process_affinity_mask : ℕ → Call
  copy_args service_start free_args : Call
  construct : Bool → Call
  start stop destroy : Call
  block_signals wait_signal : List Signal → Call
  create_event wait_event service_wait_for_stop_signal : Call
  output_debug_string print_error : Call

-- How a run ends without a value: with an exception that nothing has caught yet, in
-- `std::terminate`, which a `throw;` outside a handler calls, in undefined behaviour, or in `exit`.
pub data Fault : Type 0 where
  thrown terminated undefined : Fault
  exited : ℕ → Fault

pub data End {ℓ} (A : Type ℓ) : Type ℓ where
  value : A → End A
  fault : Fault → End A

-- The calls that were made, the last one first.
abbrev pub Run {ℓ} : Type ℓ → Type ℓ
Run A = List Call → End A × List Call

abbrev pub follow {ℓ κ} : {A : Type ℓ} {B : Type κ} → (A → Run B) → End A → Run B
follow f (value a) = f a
follow f (fault e) = λ cs. (fault e, cs)

infixl 5 ◌>>=◌ ◌>>◌
abbrev pub ◌>>=◌ {ℓ κ} : {A : Type ℓ} {B : Type κ} → Run A → (A → Run B) → Run B
(m >>= f) cs = follow f (m cs).0 (m cs).1

abbrev pub ◌>>◌ {ℓ κ} : {A : Type ℓ} {B : Type κ} → Run A → Run B → Run B
m >> n = m >>= λ _. n

abbrev pub give {ℓ} : {A : Type ℓ} → A → Run A
give a cs = (value a, cs)

abbrev pub fail {ℓ} : {A : Type ℓ} → Fault → Run A
fail e cs = (fault e, cs)

-- `try { m } catch (const std::exception &) { h }`. Every exception of the model is one of these.
abbrev pub recover : Run (Unit {0}) → End (Unit {0}) → Run (Unit {0})
recover h (value a) = give a
recover h (fault thrown) = h
recover h (fault e) = fail e

abbrev pub catching : Run (Unit {0}) → Run (Unit {0}) → Run (Unit {0})
catching m h cs = recover h (m cs).0 (m cs).1

-- EXIT_SUCCESS and EXIT_FAILURE.
abbrev pub exit_success : ℕ
exit_success = 0

abbrev pub exit_failure : ℕ
exit_failure = 1

abbrev pub options : Platform → List Opt
options linux = help ∷ affinity ∷ high_priority ∷ wait ∷ []
options windows = help ∷ affinity ∷ windows_svc ∷ high_priority ∷ wait ∷ []

-- `os` answers each call and `throws` says whether it throws, given the calls before it.
-- `cxxopts` parses the arguments; it is `none` where it throws. `cpu_set` is CPU_SET.
module _ (os : List Call → ℕ) (throws : List Call → Bool)
    (cxxopts : List Opt → List (List ℕ) → Option Parsed) (cpu_set : ℕ → List ℕ → List ℕ) where
  abbrev pub ask : Call → Run ℕ
  ask c cs = (value (os (c ∷ cs)), c ∷ cs)

  abbrev pub call : Call → Run (Unit {0})
  call c cs = (if throws (c ∷ cs) then fault thrown else value tt, c ∷ cs)

  -- `parseArgs` from the result of `parse` on.
  abbrev pub unless_help : Option Parsed → Run Parsed
  unless_help none = fail thrown
  unless_help (some args) =
      if args.count help == 0 then give args else (ask print_help >> fail (exited exit_success))

  unfoldable pub parse_args : Platform → List (List ℕ) → Run Parsed
  parse_args p argv = unless_help (cxxopts (options p) argv)

  -- `parseOrigArgs`, on the arguments that `copyArgs` has copied.
  unfoldable pub parse_orig_args : OrigArgs → Run Parsed
  unfolding parse_args
  parse_orig_args s = elim (orig_strings s) [
    | none ↦ fail undefined
    | some argv ↦ parse_args windows argv
  ]

  -- Returns whether the result was not 0. A shift of 1ULL by 64 or more is undefined.
  unfoldable pub set_affinity : Platform → ℕ → Run Bool
  set_affinity windows core =
      if leb 64 core
      then fail undefined
      else (ask (set_process_affinity_mask (2 ^ core)) >>= λ r. give (r == 0))
  set_affinity linux core = ask (sched_setaffinity (cpu_set core [])) >>= λ r. give (not (r == 0))

  -- `nr_cpus - 1` at the type that `nr_cpus` has on each platform, as `set_affinity` gets it.
  abbrev pub last_cpu : Platform → ℕ → ℕ
  last_cpu linux n = u64 (n + (2 ^ 64 - 1))
  last_cpu windows n = u32 (n + (2 ^ 32 - 1))

  -- The first `if` of `main`.
  unfoldable pub choose_cpu : Platform → Parsed → Run (Unit {0})
  unfolding set_affinity
  choose_cpu p args = do
    cpu ←
        if args.count affinity == 0
        then (ask nr_cpus >>= λ n. give (last_cpu p n))
        else give args.cpu
    failed ← set_affinity p cpu
    if failed then fail terminated else give tt

  unfoldable pub wait_signals : Platform → Run (Unit {0})
  wait_signals linux = do
    ask (block_signals (sigint ∷ sigterm ∷ []))
    ask (wait_signal (sigint ∷ sigterm ∷ []))
    give tt
  wait_signals windows = ask create_event >> (ask wait_event >> give tt)

  -- "high-priority", which only Windows looks at; a failure is logged.
  abbrev pub set_high_priority : Platform → Parsed → Run (Unit {0})
  set_high_priority linux args = give tt
  set_high_priority windows args =
      if args.count high_priority == 0 then give tt else (ask set_priority_class >> give tt)

  -- A `BlkBackend` in its scope, from its constructor to its destructor, with what the thread waits
  -- for between `start` and `stop`.
  unfoldable pub with_backend : Bool → Run (Unit {0}) → Run (Unit {0})
  with_backend spin waiting = do
    call (construct spin)
    catching (call start >> (waiting >> call stop)) (ask destroy >> fail thrown)
    ask destroy
    give tt

  -- What `main` does for "windows-svc".
  unfoldable pub run_as_service : Run (Unit {0})
  run_as_service = do
    copied ← ask copy_args
    if copied == 0
        then (ask service_start >> (ask free_args >> fail (exited exit_success)))
        else fail (exited exit_failure)

  abbrev pub is_service : Platform → Parsed → Bool
  is_service linux args = false
  is_service windows args = not (args.count windows_svc == 0)

  unfoldable pub main_body : Platform → List (List ℕ) → Run (Unit {0})
  unfolding parse_args choose_cpu run_as_service with_backend wait_signals
  main_body p argv = do
    ask reset_frontend_count
    args ← parse_args p argv
    choose_cpu p args
    if is_service p args then run_as_service else give tt
    set_high_priority p args
    with_backend (not (args.count wait == 0)) (wait_signals p)

  unfoldable pub main : Platform → List (List ℕ) → Run ℕ
  unfolding main_body
  main p argv = catching (main_body p argv) (give tt) >> give 0

  -- `log` of Service.cpp, which lets no exception out.
  abbrev pub log : Run (Unit {0})
  log = catching (call output_debug_string) (ask print_error >> give tt)

  unfoldable pub worker_body : List (List ℕ) → Run (Unit {0})
  unfolding parse_args with_backend
  worker_body argv = do
    args ← parse_args windows argv
    log
    if args.count high_priority == 0
        then give tt
        else (ask set_priority_class >>= λ r. if r == 0 then log else give tt)
    with_backend (not (args.count wait == 0)) (ask service_wait_for_stop_signal >> give tt)

  unfoldable pub blkback_worker : List (List ℕ) → Run ℕ
  unfolding worker_body
  blkback_worker argv = catching (worker_body argv) log >> give exit_failure
