-- ===== src/Service/Stopping.antt =====
-- `service_ctrl_handler` (Service.cpp) on a request to stop.
use us_blkback.Base.{ℕ, ◌+◌, ◌≤◌, ◌≡◌, refl, some, List, true, false, Bool-cases, inl, inr, arith}
use us_blkback.Service.{
  Handle, Call, set_event, Service, stop, preshutdown, stop_pending, stopped, accept_none, no_error,
  service_ctrl_handler,
}
use us_blkback.Service.Calls.{last_report, held, timed_waits}
use us_blkback.Service.Wait.{wait_on_blkback_thread-Quiet}
use us_blkback.Service.Main.{asked, reported}

module _ (os : List Call → ℕ) where
  -- What a request to stop has done when it is answered: the worker was waited for at most 50
  -- times, STOPPED was reported last, and no handle was opened or closed.
  pub record Stopped (s s' : Service) : Type 0 where
    pub last : last_report s'.calls ≡ some s'.status
    pub is_stopped : s'.status.state ≡ stopped
    pub no_controls : s'.status.controls ≡ accept_none
    pub same_held : (k : Handle) → held os k s'.calls ≡ held os k s.calls
    pub few_waits : timed_waits s'.calls ≤ timed_waits s.calls + 50

  -- A STOP and a PRESHUTDOWN are the same to the handler. It answers NO_ERROR, whatever the system
  -- answers: it has reported STOPPED last, with no controls, after at most 50 waits for the
  -- worker, and leaves the handles to `service_main`.
  pub service_ctrl_handler-Stopped :
      (s : Service)
      → (s' : Service) × (service_ctrl_handler os stop s ≡ some (no_error, s'))
        × (service_ctrl_handler os preshutdown s ≡ some (no_error, s'))
        × Stopped s s'
  unfolding service_ctrl_handler
  service_ctrl_handler-Stopped s =
      let r : Service = reported accept_none stop_pending no_error s in
      elim (Bool-cases s.stop_event_ready) [
        | inl ready ↦
            let (u, ran, quiet, few) =
              wait_on_blkback_thread-Quiet os
                (record (asked set_event r) { stop_event_ready = true }) in
            (
              reported accept_none stopped no_error u,
              ground (arith, ready, ran),
              ground (arith, ready, ran),
              record {
                last = refl;
                is_stopped = refl;
                no_controls = refl;
                same_held = quiet.same_held;
                few_waits = few;
              },
            )
        | inr early ↦
            let (u, ran, quiet, few) =
              wait_on_blkback_thread-Quiet os (record r { stop_event_ready = false }) in
            (
              reported accept_none stopped no_error u,
              ground (arith, early, ran),
              ground (arith, early, ran),
              record {
                last = refl;
                is_stopped = refl;
                no_controls = refl;
                same_held = quiet.same_held;
                few_waits = few;
              },
            )
      ]
