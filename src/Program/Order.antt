-- ===== src/Program/Order.antt =====
-- The calls of `main` (BlkBackend.cpp) and of `blkback_worker` (Service.cpp) come in order.
use us_blkback.Base.{
  ℕ, ◌^◌, ◌≡◌, refl, sym, subst, not, some, List, [], ◌∷◌, Bool, false, Option, none, leb, ◌==◌,
}
use us_blkback.Program.{
  Platform, linux, windows, Opt, help, affinity, Parsed, Call, print_help, nr_cpus,
  sched_setaffinity, set_process_affinity_mask, construct, start, stop, destroy, block_signals,
  wait_signal, create_event, wait_event, Fault, thrown, terminated, undefined, exited, Run, ask,
  call, fail, ◌>>◌, sigint, sigterm, last_cpu, unless_help, set_affinity, choose_cpu, wait_signals,
  with_backend,
}
use us_blkback.Program.Protocol.{
  Phase, counted, bound, constructed, started, blocked, waited, stopped, lost, broken, dropped,
  destroyed, after,
}
use us_blkback.Program.Rules.{
  Leads, Leads-catching, At, Leads-then, Leads-give, Leads-fail, Leads-if, Leads-case, Leads-next,
  Leads-call,
}

module _ (os : List Call → ℕ) (throws : List Call → Bool)
    (cxxopts : List Opt → List (List ℕ) → Option Parsed) (cpu_set : ℕ → List ℕ → List ℕ)
    (from : Phase) where
  pub unless_help-Leads :
      (o : Option Parsed) (q : Phase) (bad : Fault → Phase → Type 0)
      → (o ≡ none → bad thrown q)
      → ((args : Parsed) → o ≡ some args → (args.count help == 0) ≡ false → bad (exited 0) q)
      → ((threw : Bool) → after q print_help threw ≡ some q)
      → Leads throws from q (unless_help os throws cxxopts cpu_set o) (At throws from q) bad
  unless_help-Leads none q bad bad_args helped allowed =
      Leads-fail throws from q thrown _ bad (bad_args refl)
  unless_help-Leads (some args) q bad bad_args helped allowed =
      Leads-case throws from q (args.count help == 0) _ _ _ bad
        (λ _. Leads-give throws from q args _ bad refl)
        (λ e.
          Leads-next throws from os cxxopts cpu_set q q print_help _ _ bad allowed
            (λ _. Leads-fail throws from q (exited 0) _ bad (helped args refl e)))

  set_affinity-Leads :
      (p : Platform) (core : ℕ) (bad : Fault → Phase → Type 0)
      → (p ≡ windows → bad undefined counted)
      → Leads throws from counted
          (set_affinity os throws cxxopts cpu_set p core)
          (At throws from bound)
          bad
  unfolding set_affinity
  set_affinity-Leads linux core bad shift =
      Leads-next throws from os cxxopts cpu_set counted bound (sched_setaffinity (cpu_set core []))
        _ _ bad (λ _. refl) (λ r. Leads-give throws from bound (not (r == 0)) _ bad refl)
  set_affinity-Leads windows core bad shift =
      Leads-if throws from counted (leb 64 core) _ _ _ bad
        (Leads-fail throws from counted undefined _ bad (shift refl))
        (Leads-next throws from os cxxopts cpu_set counted bound
          (set_process_affinity_mask (2 ^ core)) _ _ bad (λ _. refl)
          (λ r. Leads-give throws from bound (r == 0) _ bad refl))

  pub choose_cpu-Leads :
      (p : Platform) (args : Parsed) (bad : Fault → Phase → Type 0)
      → (p ≡ windows → bad undefined counted)
      → bad terminated bound
      → Leads throws from counted
          (choose_cpu os throws cxxopts cpu_set p args)
          (At throws from bound)
          bad
  unfolding choose_cpu
  choose_cpu-Leads p args bad shift failed =
      Leads-then throws from counted counted _ _ _ bad
        (Leads-if throws from counted (args.count affinity == 0) _ _ _ bad
          (Leads-next throws from os cxxopts cpu_set counted counted nr_cpus _ _ bad (λ _. refl)
            (λ n.
              Leads-give throws from counted (last_cpu os throws cxxopts cpu_set p n) _ bad refl))
          (Leads-give throws from counted args.cpu _ bad refl))
        (λ cpu.
          Leads-then throws from counted bound _ _ _ bad (set_affinity-Leads p cpu bad shift) (λ b.
            Leads-if throws from bound b _ _ _ bad
              (Leads-fail throws from bound terminated _ bad failed)
              (Leads-give throws from bound tt _ bad refl)))

  pub wait_signals-Leads :
      (p : Platform) (bad : Fault → Phase → Type 0)
      → Leads throws from started
          (wait_signals os throws cxxopts cpu_set p)
          (At throws from waited)
          bad
  unfolding wait_signals
  wait_signals-Leads linux bad =
      Leads-next throws from os cxxopts cpu_set started blocked
        (block_signals (sigint ∷ sigterm ∷ [])) _ _ bad (λ _. refl)
        (λ _.
          Leads-next throws from os cxxopts cpu_set blocked waited
            (wait_signal (sigint ∷ sigterm ∷ [])) _ _ bad (λ _. refl)
            (λ _. Leads-give throws from waited tt _ bad refl))
  wait_signals-Leads windows bad =
      Leads-next throws from os cxxopts cpu_set started blocked create_event _ _ bad (λ _. refl)
        (λ _.
          Leads-next throws from os cxxopts cpu_set blocked waited wait_event _ _ bad (λ _. refl)
            (λ _. Leads-give throws from waited tt _ bad refl))

  -- An exception after which the backend is still to be destroyed.
  abbrev pub Held : Fault → Phase → Type 0
  Held e q = (e ≡ thrown) × (q ≡ broken)

  run_backend-Leads :
      (waiting : Run (Unit {0}))
      → Leads throws from started waiting (At throws from waited) Held
      → Leads throws from constructed
          (call os throws cxxopts cpu_set start >> (waiting >> call os throws cxxopts cpu_set stop))
          (At throws from stopped)
          Held
  run_backend-Leads waiting waits =
      Leads-then throws from constructed started _ _ _ Held
        (Leads-call throws from os cxxopts cpu_set constructed started broken start Held refl refl
          (refl, refl))
        (λ _. Leads-then throws from started waited _ _ _ Held waits (λ _.
          Leads-call throws from os cxxopts cpu_set waited stopped broken stop Held refl refl
            (refl, refl)))

  pub with_backend-Leads :
      (spin : Bool) (waiting : Run (Unit {0})) (bad : Fault → Phase → Type 0)
      → bad thrown lost
      → bad thrown dropped
      → Leads throws from started waiting (At throws from waited) Held
      → Leads throws from bound
          (with_backend os throws cxxopts cpu_set spin waiting)
          (At throws from destroyed)
          bad
  unfolding with_backend
  with_backend-Leads spin waiting bad none_made threw waits =
      Leads-then throws from bound constructed _ _ _ bad
        (Leads-call throws from os cxxopts cpu_set bound constructed lost (construct spin) bad refl
          refl none_made)
        (λ _.
          Leads-then throws from constructed stopped _ _ _ bad
            (Leads-catching throws from constructed _ _ _ Held bad (run_backend-Leads waiting waits)
              (λ q h.
                subst
                  (λ x.
                    Leads throws from {A = Unit {0}} x
                      (ask os throws cxxopts cpu_set destroy >> fail thrown)
                      (At throws from stopped) bad)
                  (sym h.1)
                  (Leads-next throws from os cxxopts cpu_set broken dropped destroy _ _ bad
                    (λ _. refl) (λ _. Leads-fail throws from dropped thrown _ bad threw)))
              (λ e q n h. absurd (n h.0)))
            (λ _.
              Leads-next throws from os cxxopts cpu_set stopped destroyed destroy _ _ bad
                (λ _. refl) (λ _. Leads-give throws from destroyed tt _ bad refl)))
