-- ===== src/Program/Worker.antt =====
-- How `blkback_worker` (Service.cpp) ends, with its calls in order.
use us_blkback.Base.{
  ℕ, ◌≡◌, ◌≢◌, refl, sym, subst, not, some, List, [], Bool, true, false, Option, none, ◌==◌, inl,
  inr, ◌⊎◌, arith,
}
use us_blkback.Program.{
  windows, Opt, help, high_priority, wait, Parsed, Call, set_priority_class,
  service_wait_for_stop_signal, output_debug_string, print_error, Fault, thrown, exited, ask, give,
  ◌>>◌, options, parse_args, worker_body, blkback_worker, log,
}
use us_blkback.Program.Protocol.{Phase, bound, started, waited, lost, dropped, destroyed, after}
use us_blkback.Program.Rules.{
  Outcome, Leads, Leads-bind, Leads-catching, At, Leads-then, Leads-give, Leads-if, Leads-weaken,
  Leads-next, Leads-call,
}
use us_blkback.Program.Order.{unless_help-Leads, Held, with_backend-Leads}

module _ (os : List Call → ℕ) (throws : List Call → Bool)
    (cxxopts : List Opt → List (List ℕ) → Option Parsed) (cpu_set : ℕ → List ℕ → List ℕ)
    (argv : List (List ℕ)) where
  -- What ends `worker_body` before its end; the worker starts where `main` has set the affinity.
  data WorkerStops : Fault → Phase → Type 0 where
    bad_arguments : cxxopts (options windows) argv ≡ none → WorkerStops thrown bound
    helped :
        (args : Parsed)
        → cxxopts (options windows) argv ≡ some args
        → (args.count help == 0) ≡ false
        → WorkerStops (exited 0) bound
    not_constructed : WorkerStops thrown lost
    threw : WorkerStops thrown dropped

  abbrev pub WorkerReturned : ℕ → Phase → Type 0
  WorkerReturned n q =
      (n ≡ 1)
      × (((q ≡ bound) × (cxxopts (options windows) argv ≡ none))
          ⊎ ((q ≡ lost) ⊎ ((q ≡ dropped) ⊎ (q ≡ destroyed))))

  -- The arguments ask for help, before anything was constructed.
  abbrev pub WorkerExits : Fault → Phase → Type 0
  WorkerExits e q =
      (e ≡ exited 0)
      × (q ≡ bound)
      × (args : Parsed) × (cxxopts (options windows) argv ≡ some args)
      × ((args.count help == 0) ≡ false)

  output_allowed : (q : Phase) (b : Bool) → after q output_debug_string b ≡ some q
  output_allowed q b = ground arith

  error_allowed : (q : Phase) (b : Bool) → after q print_error b ≡ some q
  error_allowed q b = ground arith

  log-Leads :
      (q : Phase) (bad : Fault → Phase → Type 0)
      → Leads throws bound q (log os throws cxxopts cpu_set) (At throws bound q) bad
  log-Leads q bad =
      Leads-catching throws bound q _ _ (At throws bound q) (λ e q'. (e ≡ thrown) × (q' ≡ q)) bad
        (Leads-call throws bound os cxxopts cpu_set q q q output_debug_string _
          (output_allowed q false) (output_allowed q true) (refl, refl))
        (λ q' h.
          subst
            (λ x.
              Leads throws bound x (ask os throws cxxopts cpu_set print_error >> give tt)
                (At throws bound q) bad)
            (sym h.1)
            (Leads-next throws bound os cxxopts cpu_set q q print_error _ _ bad (error_allowed q)
              (λ _. Leads-give throws bound q tt _ bad refl)))
        (λ e q' n h. absurd (n h.0))

  worker_body-Leads :
      Leads throws bound bound
        (worker_body os throws cxxopts cpu_set argv)
        (At throws bound destroyed)
        WorkerStops
  unfolding worker_body parse_args
  worker_body-Leads =
      Leads-then throws bound bound bound _ _ _ WorkerStops
        (unless_help-Leads os throws cxxopts cpu_set bound (cxxopts (options windows) argv) bound
          WorkerStops bad_arguments helped (λ _. refl))
        (λ args.
          Leads-then throws bound bound bound _ _ _ WorkerStops (log-Leads bound WorkerStops) (λ _.
            Leads-then throws bound bound bound _ _ _ WorkerStops
              (Leads-if throws bound bound (args.count high_priority == 0) _ _ _ WorkerStops
                (Leads-give throws bound bound tt _ WorkerStops refl)
                (Leads-next throws bound os cxxopts cpu_set bound bound set_priority_class _ _
                  WorkerStops (λ _. refl)
                  (λ r.
                    Leads-if throws bound bound (r == 0) _ _ _ WorkerStops
                      (log-Leads bound WorkerStops)
                      (Leads-give throws bound bound tt _ WorkerStops refl))))
              (λ _.
                with_backend-Leads os throws cxxopts cpu_set bound (not (args.count wait == 0)) _
                  WorkerStops not_constructed threw
                  (Leads-next throws bound os cxxopts cpu_set started waited
                    service_wait_for_stop_signal _ _ (Held os throws cxxopts cpu_set bound)
                    (λ _. refl) (λ _. Leads-give throws bound waited tt _ _ refl)))))

  worker_caught : (q : Phase) → WorkerStops thrown q → WorkerReturned 1 q
  worker_caught q (bad_arguments e) = (refl, inl (refl, e))
  worker_caught q not_constructed = (refl, inr (inl refl))
  worker_caught q threw = (refl, inr (inr (inl refl)))

  worker_exits : (e : Fault) (q : Phase) → e ≢ thrown → WorkerStops e q → WorkerExits e q
  worker_exits e q n (helped args parsed asked) = (refl, refl, args, parsed, asked)
  worker_exits e q n (bad_arguments _) = absurd (n refl)
  worker_exits e q n not_constructed = absurd (n refl)
  worker_exits e q n threw = absurd (n refl)

  -- `blkback_worker` makes its calls in order and lets no exception out. It returns EXIT_FAILURE,
  -- with its backend destroyed or none constructed, also where nothing failed; or it ends the
  -- program with EXIT_SUCCESS before a backend is constructed, and then the arguments were parsed
  -- and ask for help.
  pub blkback_worker-Ends :
      Outcome throws bound WorkerReturned WorkerExits
        (blkback_worker os throws cxxopts cpu_set argv [])
  unfolding blkback_worker
  blkback_worker-Ends =
      Leads-bind throws bound bound _ _ (λ _ q. WorkerReturned 1 q) _ WorkerExits
        (Leads-catching throws bound bound (worker_body os throws cxxopts cpu_set argv) _
          (λ _ q. WorkerReturned 1 q) WorkerStops WorkerExits
          (Leads-weaken throws bound bound (worker_body os throws cxxopts cpu_set argv) _ _
            WorkerStops (worker_body-Leads) (λ _ q h. (refl, inr (inr (inr h)))))
          (λ q h.
            Leads-weaken throws bound q (log os throws cxxopts cpu_set) _ _ _ (log-Leads q _)
              (λ _ q' e. subst (WorkerReturned 1) (sym e) (worker_caught q h)))
          worker_exits)
        (λ _ q h. Leads-give throws bound q 1 _ _ h) [] refl
