-- ===== src/Program/Ends.antt =====
-- How `main` (BlkBackend.cpp) and `blkback_worker` (Service.cpp) end, with their calls in order.
use us_blkback.Base.{
  ℕ, ◌≡◌, ◌≢◌, refl, if◌then◌else◌, sym, subst, not, some, List, [], Bool, false, Option, none,
  ◌==◌, inl, inr, ◌⊎◌,
}
use us_blkback.Program.{
  Platform, linux, windows, Opt, help, high_priority, wait, Parsed, Call, reset_frontend_count,
  set_priority_class, copy_args, service_start, free_args, Fault, thrown, terminated, undefined,
  exited, give, options, parse_args, set_high_priority, run_as_service, is_service, main_body, main,
}
use us_blkback.Program.Protocol.{
  Phase, loaded, counted, bound, copied, served, freed, lost, dropped, destroyed,
}
use us_blkback.Program.Rules.{
  Outcome, Leads, Leads-bind, Leads-catching, At, Leads-then, Leads-give, Leads-fail, Leads-if,
  Leads-weaken, Leads-next,
}
use us_blkback.Program.Order.{
  unless_help-Leads, choose_cpu-Leads, wait_signals-Leads, Held, with_backend-Leads,
}

module _ (os : List Call → ℕ) (throws : List Call → Bool)
    (cxxopts : List Opt → List (List ℕ) → Option Parsed) (cpu_set : ℕ → List ℕ → List ℕ)
    (argv : List (List ℕ)) where
  -- What ends `main_body` before its end, and how far it is then: an exception from the parser,
  -- from the constructor or from `start` or `stop`; a request for help; `throw;` after the affinity
  -- could not be set; and on Windows a shift that is too wide and the exits of the service.
  pub data Stops : Platform → Fault → Phase → Type 0 where
    bad_arguments : (p : Platform) → cxxopts (options p) argv ≡ none → Stops p thrown counted
    helped :
        (p : Platform) (args : Parsed)
        → cxxopts (options p) argv ≡ some args
        → (args.count help == 0) ≡ false
        → Stops p (exited 0) counted
    no_affinity : (p : Platform) → Stops p terminated bound
    bad_shift : Stops windows undefined counted
    not_copied : Stops windows (exited 1) copied
    was_service : Stops windows (exited 0) freed
    not_constructed : (p : Platform) → Stops p thrown lost
    threw : (p : Platform) → Stops p thrown dropped

  -- Where the backend is when `main` returns.
  abbrev pub Returned : Platform → ℕ → Phase → Type 0
  Returned p n q =
      (n ≡ 0)
      × (((q ≡ counted) × (cxxopts (options p) argv ≡ none))
          ⊎ ((q ≡ lost) ⊎ ((q ≡ dropped) ⊎ (q ≡ destroyed))))

  service-Leads :
      (p : Platform) (args : Parsed)
      → Leads throws loaded bound
          (if is_service os throws cxxopts cpu_set p args
            then run_as_service os throws cxxopts cpu_set
            else give tt)
          (At throws loaded bound)
          (Stops p)
  unfolding run_as_service
  service-Leads linux args = Leads-give throws loaded bound tt _ (Stops linux) refl
  service-Leads windows args =
      Leads-if throws loaded bound (is_service os throws cxxopts cpu_set windows args) _ _ _
        (Stops windows)
        (Leads-next throws loaded os cxxopts cpu_set bound copied copy_args _ _ (Stops windows)
          (λ _. refl)
          (λ r.
            Leads-if throws loaded copied (r == 0) _ _ _ (Stops windows)
              (Leads-next throws loaded os cxxopts cpu_set copied served service_start _ _
                (Stops windows) (λ _. refl)
                (λ _.
                  Leads-next throws loaded os cxxopts cpu_set served freed free_args _ _
                    (Stops windows) (λ _. refl)
                    (λ _. Leads-fail throws loaded freed (exited 0) _ (Stops windows) was_service)))
              (Leads-fail throws loaded copied (exited 1) _ (Stops windows) not_copied)))
        (Leads-give throws loaded bound tt _ (Stops windows) refl)

  high_priority-Leads :
      (p : Platform) (args : Parsed)
      → Leads throws loaded bound
          (set_high_priority os throws cxxopts cpu_set p args)
          (At throws loaded bound)
          (Stops p)
  high_priority-Leads linux args = Leads-give throws loaded bound tt _ (Stops linux) refl
  high_priority-Leads windows args =
      Leads-if throws loaded bound (args.count high_priority == 0) _ _ _ (Stops windows)
        (Leads-give throws loaded bound tt _ (Stops windows) refl)
        (Leads-next throws loaded os cxxopts cpu_set bound bound set_priority_class _ _
          (Stops windows) (λ _. refl)
          (λ _. Leads-give throws loaded bound tt _ (Stops windows) refl))

  main_body-Leads :
      (p : Platform)
      → Leads throws loaded loaded
          (main_body os throws cxxopts cpu_set p argv)
          (At throws loaded destroyed)
          (Stops p)
  unfolding main_body parse_args
  main_body-Leads p =
      Leads-next throws loaded os cxxopts cpu_set loaded counted reset_frontend_count _ _ (Stops p)
        (λ _. refl)
        (λ _.
          Leads-then throws loaded counted counted _ _ _ (Stops p)
            (unless_help-Leads os throws cxxopts cpu_set loaded (cxxopts (options p) argv) counted
              (Stops p) (bad_arguments p) (helped p) (λ _. refl))
            (λ args.
              Leads-then throws loaded counted bound _ _ _ (Stops p)
                (choose_cpu-Leads os throws cxxopts cpu_set loaded p args (Stops p)
                  (λ e. subst (λ x. Stops x undefined counted) (sym e) bad_shift) (no_affinity p))
                (λ _.
                  Leads-then throws loaded bound bound _ _ _ (Stops p) (service-Leads p args) (λ _.
                    Leads-then throws loaded bound bound _ _ _ (Stops p)
                      (high_priority-Leads p args)
                      (λ _.
                        with_backend-Leads os throws cxxopts cpu_set loaded
                          (not (args.count wait == 0)) _ (Stops p) (not_constructed p) (threw p)
                          (wait_signals-Leads os throws cxxopts cpu_set loaded p
                            (Held os throws cxxopts cpu_set loaded)))))))

  caught : (p : Platform) (q : Phase) → Stops p thrown q → Returned p 0 q
  caught p q (bad_arguments _ e) = (refl, inl (refl, e))
  caught p q (not_constructed _) = (refl, inr (inl refl))
  caught p q (threw _) = (refl, inr (inr (inl refl)))

  -- `main` makes its calls in order and lets no exception out. It returns 0, with its backend
  -- destroyed, or with none made because the arguments could not be parsed or the constructor
  -- threw; or it ends in one of the other ways that `Stops` lists, where no backend was
  -- constructed.
  pub main-Ends :
      (p : Platform)
      → Outcome throws loaded
          (Returned p)
          (λ e q. (e ≢ thrown) × Stops p e q)
          (main os throws cxxopts cpu_set p argv [])
  unfolding main
  main-Ends p =
      Leads-bind throws loaded loaded _ _ (λ _ q. Returned p 0 q) _
        (λ e q. (e ≢ thrown) × Stops p e q)
        (Leads-catching throws loaded loaded (main_body os throws cxxopts cpu_set p argv) (give tt)
          (λ _ q. Returned p 0 q) (Stops p) (λ e q. (e ≢ thrown) × Stops p e q)
          (Leads-weaken throws loaded loaded (main_body os throws cxxopts cpu_set p argv) _ _
            (Stops p) (main_body-Leads p) (λ _ q h. (refl, inr (inr (inr h)))))
          (λ q h. Leads-give throws loaded q tt _ _ (caught p q h)) (λ e q n h. (n, h)))
        (λ _ q h. Leads-give throws loaded q 0 _ _ h) [] refl
