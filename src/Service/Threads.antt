-- ===== src/Service/Threads.antt =====
-- The threads of the Windows service (Service.cpp) interleaved: `service_main`, `blkback_worker`
-- and `service_ctrl_handler`, each as a relation between what its next call finds and leaves. A
-- call that holds service_mutex is one step. An infinite wait on an open handle ends when the
-- object is signalled, and not otherwise; one on a closed handle has no step. The `exit` of
-- parseArgs is no step of the worker: `main` parsed the same arguments before the service was
-- started.
pub mod Invariant
pub mod Stop
use us_blkback.Base.{ℕ, zero, suc, ◌*◌, ◌<◌, ◌≤◌, ◌≡◌, Bool, true, false, if◌then◌else◌}
use us_blkback.Service.{
  State, unreported, start_pending, running, stop_pending, stopped, Controls, accept_none,
  accept_preshutdown_stop, timeout, service_wait_hint,
}

-- service_stop_event; `set` is signalled.
pub data Event : Type 0 where
  absent unset set closed : Event

-- Where the worker stands: before `start`, before it reads stop_event_ready, in its wait, before
-- ResetEvent, before `stop`.
pub data Worker : Type 0 where
  no_worker starting asking waiting resetting stopping ended : Worker

-- Where `service_main` stands: the name is that of its next call. `waiting_again n` has waited `n`
-- times with a time-out and `checking n` marks the checkpoint after that.
pub data Main : Type 0 where
  initialising reporting_start creating_event checking_event readying creating_thread : Main
  checking_thread reporting_running waiting_worker signalling refused : Main
  waiting_again checking : ℕ → Main
  reporting_stopped closing_event closing_thread returned failed : Main

-- Where `service_ctrl_handler` stands.
pub data Handler : Type 0 where
  idle reporting_pending signalling reporting_stopped : Handler
  waiting_again checking : ℕ → Handler

-- What the threads share: the globals, the worker as an object of the system, and `told`, the
-- controls of the last report that was taken. `sent` and `gave_up` record that the stop event was
-- signalled, and that `service_main` stopped waiting for the worker after 10 s.
pub record Shared : Type 0 where
  pub stop_event_ready : Bool
  pub stop_event : Event
  pub worker : Worker
  pub thread_open : Bool
  pub controls : Controls
  pub state : State
  pub told : Controls
  pub sent : Bool
  pub gave_up : Bool

-- `__set_status`, which the system takes or refuses.
abbrev pub report : Bool → Shared → Shared
report took g = record g { told = if took then g.controls else g.told }

abbrev pub set_status : Controls → State → Bool → Shared → Shared
set_status ctrls state took g = report took (record g { controls = ctrls; state = state })

-- SetEvent fails on a handle that is null or closed.
abbrev pub set_event : Event → Bool × Event
set_event absent = (false, absent)
set_event unset = (true, set)
set_event set = (true, set)
set_event closed = (false, closed)

abbrev pub send_stop_signal : Shared → Shared
send_stop_signal g =
    if g.stop_event_ready
    then record g {
      stop_event = (set_event g.stop_event).1;
      sent = if (set_event g.stop_event).0 then true else g.sent;
    }
    else g

abbrev pub reset_event : Event → Event
reset_event set = unset
reset_event e = e

-- `service_main`. `took` is whether the system takes a report.
pub data MainStep : Main → Shared → Main → Shared → Type 0 where
  init_fails : (g : Shared) → MainStep initialising g failed (record g { stop_event_ready = false })
  init :
      (g : Shared)
      → MainStep initialising g reporting_start
          (record g { stop_event_ready = false; controls = accept_none; state = unreported })
  report_start :
      (g : Shared) (took : Bool)
      → MainStep reporting_start g creating_event (set_status accept_none start_pending took g)
  no_event :
      (g : Shared) (took : Bool)
      → MainStep creating_event g failed (set_status accept_none stopped took g)
  create_event :
      (g : Shared) → MainStep creating_event g checking_event (record g { stop_event = unset })
  check_event : (g : Shared) (took : Bool) → MainStep checking_event g readying (report took g)
  ready : (g : Shared) → MainStep readying g creating_thread (record g { stop_event_ready = true })
  no_thread : (g : Shared) → MainStep creating_thread g refused (record g { stop_event = closed })
  refuse :
      (g : Shared) (took : Bool) → MainStep refused g failed (set_status accept_none stopped took g)
  create_thread :
      (g : Shared)
      → MainStep creating_thread g checking_thread
          (record g { worker = starting; thread_open = true })
  check_thread :
      (g : Shared) (took : Bool) → MainStep checking_thread g reporting_running (report took g)
  report_running :
      (g : Shared)
      → MainStep reporting_running g waiting_worker
          (set_status accept_preshutdown_stop running true g)
  running_refused :
      (g : Shared)
      → MainStep reporting_running g signalling (set_status accept_preshutdown_stop running false g)
  wait_worker : (g : Shared) → g.worker ≡ ended → MainStep waiting_worker g reporting_stopped g
  signal : (g : Shared) → MainStep signalling g (waiting_again 0) (send_stop_signal g)
  wait_ends :
      (g : Shared) (n : ℕ) → g.worker ≡ ended → MainStep (waiting_again n) g reporting_stopped g
  wait_times_out :
      (g : Shared) (n : ℕ)
      → suc n * timeout < service_wait_hint
      → MainStep (waiting_again n) g (checking (suc n)) g
  check :
      (g : Shared) (n : ℕ) (took : Bool) → MainStep (checking n) g (waiting_again n) (report took g)
  give_up :
      (g : Shared) (n : ℕ)
      → service_wait_hint ≤ suc n * timeout
      → MainStep (waiting_again n) g reporting_stopped (record g { gave_up = true })
  report_stopped :
      (g : Shared) (took : Bool)
      → MainStep reporting_stopped g closing_event (set_status accept_none stopped took g)
  close_event :
      (g : Shared) → MainStep closing_event g closing_thread (record g { stop_event = closed })
  close_thread :
      (g : Shared) → MainStep closing_thread g returned (record g { thread_open = false })

-- `blkback_worker`, with `service_wait_for_stop_signal`. An exception leads to its end.
pub data WorkerStep : Shared → Shared → Type 0 where
  start : (g : Shared) → g.worker ≡ starting → WorkerStep g (record g { worker = asking })
  start_throws : (g : Shared) → g.worker ≡ starting → WorkerStep g (record g { worker = ended })
  ask_early :
      (g : Shared)
      → g.worker ≡ asking
      → g.stop_event_ready ≡ false
      → WorkerStep g (record g { worker = stopping })
  ask :
      (g : Shared)
      → g.worker ≡ asking
      → g.stop_event_ready ≡ true
      → WorkerStep g (record g { worker = waiting })
  wake :
      (g : Shared)
      → g.worker ≡ waiting
      → g.stop_event ≡ set
      → WorkerStep g (record g { worker = resetting })
  reset :
      (g : Shared)
      → g.worker ≡ resetting
      → WorkerStep g (record g { worker = stopping; stop_event = reset_event g.stop_event })
  stop : (g : Shared) → g.worker ≡ stopping → WorkerStep g (record g { worker = ended })

-- `service_ctrl_handler`. The system sends STOP and PRESHUTDOWN, which are the same to it, only
-- where the last report that it took accepts them; any other code is answered at once.
pub data HandlerStep : Handler → Shared → Handler → Shared → Type 0 where
  receive : (g : Shared) → g.told ≡ accept_preshutdown_stop → HandlerStep idle g reporting_pending g
  report_pending :
      (g : Shared) (took : Bool)
      → HandlerStep reporting_pending g signalling (set_status accept_none stop_pending took g)
  signal : (g : Shared) → HandlerStep signalling g (waiting_again 0) (send_stop_signal g)
  wait_ends :
      (g : Shared) (n : ℕ) → g.worker ≡ ended → HandlerStep (waiting_again n) g reporting_stopped g
  wait_fails :
      (g : Shared) (n : ℕ)
      → g.thread_open ≡ false
      → HandlerStep (waiting_again n) g reporting_stopped g
  wait_times_out :
      (g : Shared) (n : ℕ)
      → suc n * timeout < service_wait_hint
      → HandlerStep (waiting_again n) g (checking (suc n)) g
  check :
      (g : Shared) (n : ℕ) (took : Bool)
      → HandlerStep (checking n) g (waiting_again n) (report took g)
  give_up :
      (g : Shared) (n : ℕ)
      → service_wait_hint ≤ suc n * timeout
      → HandlerStep (waiting_again n) g reporting_stopped g
  report_stopped :
      (g : Shared) (took : Bool)
      → HandlerStep reporting_stopped g idle (set_status accept_none stopped took g)

pub record Threads : Type 0 where
  pub main : Main
  pub handler : Handler
  pub shared : Shared

-- Which thread makes a step.
pub data Step : Threads → Threads → Type 0 where
  by_main :
      (m m' : Main) (h : Handler) (g g' : Shared)
      → MainStep m g m' g'
      → Step
          (record { main = m; handler = h; shared = g })
          (record { main = m'; handler = h; shared = g' })
  by_worker :
      (m : Main) (h : Handler) (g g' : Shared)
      → WorkerStep g g'
      → Step
          (record { main = m; handler = h; shared = g })
          (record { main = m; handler = h; shared = g' })
  by_handler :
      (m : Main) (h h' : Handler) (g g' : Shared)
      → HandlerStep h g h' g'
      → Step
          (record { main = m; handler = h; shared = g })
          (record { main = m; handler = h'; shared = g' })

-- The state in which the dispatcher calls `service_main`.
abbrev pub loaded : Threads
loaded = record {
  main = initialising;
  handler = idle;
  shared = record {
    stop_event_ready = false;
    stop_event = absent;
    worker = no_worker;
    thread_open = false;
    controls = accept_none;
    state = unreported;
    told = accept_none;
    sent = false;
    gave_up = false;
  };
}

-- Any interleaving of the threads.
pub data Run (s : Threads) : Threads → Type 0 where
  here : Run s s
  next : {t u : Threads} → Run s t → Step t u → Run s u
