-- ===== src/Service/Main.antt =====
-- `service_main` and `service_ctrl_handler` (Service.cpp) on every path.
use us_blkback.Base.{
  none, ℕ, suc, ◌+◌, ◌≡◌, ◌≢◌, refl, ◌∙◌, some, List, ◌∷◌, true, false, ◌==◌, u32, Bool-cases, inl,
  inr, arith,
}
use us_blkback.Service.{
  Status, State, unreported, service_wait_hint, running, stopped, start_pending, Controls,
  accept_none, accept_preshutdown_stop, Call, register_handler, get_last_error, set_event, report,
  create, close, wait, stop_event, blkback_thread, Service, no_error, init, run_service,
  start_thread, service_main,
}
use us_blkback.Service.Calls.{last_report, held}
use us_blkback.Service.Wait.{wait_on_blkback_thread-Quiet}

-- The state after one more call.
abbrev pub asked : Call → Service → Service
asked c s = record s { calls = c ∷ s.calls }

-- The state after `set_status`.
abbrev pub reported : Controls → State → ℕ → Service → Service
reported ctrls state exit_code s =
    let st : Status = record (s.status) {
      controls = ctrls;
      state = state;
      exit_code = exit_code;
      checkpoint = 0;
    } in
    record s { status = st; calls = report st ∷ s.calls }

-- The state after `mark_checkpoint`.
abbrev marked : Service → Service
marked s =
    let st : Status = record (s.status) { checkpoint = u32 (s.status.checkpoint + 1) } in
    record s { status = st; calls = report st ∷ s.calls }

abbrev finished : Service → Service
finished s =
    asked (close blkback_thread)
      (asked (close stop_event) (reported accept_none stopped no_error s))

module _ (os : List Call → ℕ) where
  -- The service is over: STOPPED is what was reported last, with no controls, and the handles that
  -- are open are `events` events and `threads` threads.
  pub record Over (events threads : ℕ) (s : Service) : Type 0 where
    pub last : last_report s.calls ≡ some s.status
    pub is_stopped : s.status.state ≡ stopped
    pub no_controls : s.status.controls ≡ accept_none
    pub events_left : held os stop_event s.calls ≡ some events
    pub threads_left : held os blkback_thread s.calls ≡ some threads

  finished-Over :
      (a b : ℕ) (s : Service)
      → held os stop_event s.calls ≡ some (suc a)
      → held os blkback_thread s.calls ≡ some (suc b)
      → Over a b (finished s)
  finished-Over a b s p q = record {
    last = refl;
    is_stopped = refl;
    no_controls = refl;
    events_left = rw p refl;
    threads_left = rw q refl;
  }

  run_service-Over :
      (a b : ℕ) (s : Service)
      → held os stop_event s.calls ≡ some (suc a)
      → held os blkback_thread s.calls ≡ some (suc b)
      → s.stop_event_ready ≡ true
      → (s' : Service) × (run_service os s ≡ some (tt, s')) × Over a b s'
  unfolding run_service
  run_service-Over a b s p q ready =
      let r : Service = reported accept_preshutdown_stop running no_error s in
      elim (Bool-cases (os r.calls == 0)) [
        | inr accepted ↦ (
          finished (asked (wait blkback_thread none) r),
          rw (run_service, accepted) refl,
          finished-Over a b (asked (wait blkback_thread none) r) p q,
        )
        | inl refused ↦
            let (u, ran, quiet, _) =
              wait_on_blkback_thread-Quiet os
                (record (asked set_event r) { stop_event_ready = true }) in
            (
              finished u,
              ground (arith, refused, ready, ran),
              finished-Over a b u (quiet.same_held stop_event ∙ p)
                  (quiet.same_held blkback_thread ∙ q),
            )
      ]

  start_thread-Over :
      (a b : ℕ) (s : Service)
      → held os stop_event s.calls ≡ some (suc a)
      → held os blkback_thread s.calls ≡ some b
      → (s' : Service) × (start_thread os s ≡ some (tt, s')) × Over a b s'
  unfolding start_thread
  start_thread-Over a b s p q =
      let r : Service =
        asked (create blkback_thread) (record (marked s) { stop_event_ready = true }) in
      elim (Bool-cases (os r.calls == 0)) [
        | inl refused ↦
            let u : Service =
              reported accept_none stopped (os (get_last_error ∷ r.calls))
                (asked (close stop_event) (asked get_last_error r)) in
            (
              u,
              ground (arith, refused),
              record {
                last = refl;
                is_stopped = refl;
                no_controls = refl;
                events_left = rw p refl;
                threads_left = ground (arith, refused, q);
              },
            )
        | inr made ↦
            let (u, ran, over) = run_service-Over a b (marked r) p (ground (arith, made, q)) refl in
            (u, ground (arith, made, ran), over)
      ]

  -- Where the control handler was registered and `a` events and `b` threads were open before,
  -- `service_main` returns, whatever the system answers: it reported STOPPED last, with no
  -- controls accepted, and has closed each handle it opened exactly once.
  pub service_main-Over :
      (a b : ℕ) (s : Service)
      → held os stop_event s.calls ≡ some a
      → held os blkback_thread s.calls ≡ some b
      → os (register_handler ∷ s.calls) ≢ 0
      → (s' : Service) × (service_main os s ≡ some (tt, s')) × Over a b s'
  unfolding service_main init
  service_main-Over a b s p q registered =
      let ready : (os (register_handler ∷ s.calls) == 0) ≡ false = ground arith in
      let fresh : Service = record s {
        stop_event_ready = false;
        status = record {
          own_process = true;
          controls = accept_none;
          state = unreported;
          exit_code = 0;
          checkpoint = 0;
          wait_hint = service_wait_hint;
        };
        calls = register_handler ∷ s.calls;
      } in
      let r : Service =
        asked (create stop_event) (reported accept_none start_pending no_error fresh) in
      elim (Bool-cases (os r.calls == 0)) [
        | inl refused ↦ (
          reported accept_none stopped (os (get_last_error ∷ r.calls)) (asked get_last_error r),
          ground (arith, ready, refused),
          record {
            last = refl;
            is_stopped = refl;
            no_controls = refl;
            events_left = ground (arith, refused, p);
            threads_left = q;
          },
        )
        | inr made ↦
            let (u, ran, over) = start_thread-Over a b r (ground (arith, made, p)) q in
            (u, ground (arith, ready, made, ran), over)
      ]
