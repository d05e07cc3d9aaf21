-- ===== src/Service/Threads/Invariant.antt =====
-- What holds in every state of the service (Service.cpp), however its threads are interleaved.
use us_blkback.Base.{ℕ, ◌≤◌, ◌≡◌, Bool, true, false, ◌⊎◌, arith}
use us_blkback.Service.{stopped, accept_none}
use us_blkback.Service.Threads.{
  Event, absent, set, closed, Worker, no_worker, starting, asking, waiting, resetting, stopping,
  ended, Main, initialising, reporting_start, creating_event, checking_event, readying,
  creating_thread, refused, reporting_stopped, closing_event, closing_thread, returned, failed,
  Handler, idle, Shared, MainStep, WorkerStep, HandlerStep, Threads, Step, loaded, Run,
}

-- `service_main` has made the event ready, and has created the worker.
abbrev has_event : Main → Bool
has_event initialising = false
has_event reporting_start = false
has_event creating_event = false
has_event checking_event = false
has_event readying = false
has_event failed = false
has_event refused = false
has_event _ = true

abbrev past_event : Main → Bool
past_event checking_event = true
past_event readying = true
past_event m = has_event m

abbrev has_worker : Main → Bool
has_worker creating_thread = false
has_worker m = has_event m

-- `service_main` has stopped waiting for the worker; it has reported STOPPED.
abbrev is_closing : Main → Bool
is_closing reporting_stopped = true
is_closing closing_event = true
is_closing closing_thread = true
is_closing returned = true
is_closing _ = false

abbrev pub is_busy : Handler → Bool
is_busy idle = false
is_busy _ = true

-- The steps that the worker has before it, at most.
abbrev pub rank : Worker → ℕ
rank no_worker = 0
rank starting = 5
rank asking = 4
rank waiting = 3
rank resetting = 2
rank stopping = 1
rank ended = 0

abbrev is_created : Worker → Bool
is_created no_worker = false
is_created _ = true

abbrev is_made : Event → Bool
is_made absent = false
is_made _ = true

abbrev has_stopped : Main → Bool
has_stopped closing_event = true
has_stopped closing_thread = true
has_stopped returned = true
has_stopped _ = false

abbrev has_closed_event : Main → Bool
has_closed_event closing_thread = true
has_closed_event returned = true
has_closed_event _ = false

abbrev has_closed_thread : Main → Bool
has_closed_thread returned = true
has_closed_thread _ = false

abbrev pub Inv : Main → Handler → Shared → Type 0
Inv m h g =
    (has_event m ≡ true → g.stop_event_ready ≡ true)
    × (past_event m ≡ true → is_made g.stop_event ≡ true)
    × (has_worker m ≡ false → rank g.worker ≡ 0)
    × (has_worker m ≡ false → is_busy h ≡ false)
    × (has_worker m ≡ false → g.sent ≡ false)
    × (has_worker m ≡ false → g.told ≡ accept_none)
    × (has_worker m ≡ false → g.controls ≡ accept_none)
    × (g.sent ≡ true → 3 ≤ rank g.worker → (g.stop_event ≡ set) ⊎ (g.gave_up ≡ true))
    × (g.stop_event ≡ closed → past_event m ≡ true → is_closing m ≡ true)
    × (is_closing m ≡ true → (rank g.worker ≡ 0) ⊎ (g.gave_up ≡ true))
    × (has_stopped m ≡ true → is_busy h ≡ false → g.state ≡ stopped)
    × (has_worker m ≡ true → is_created g.worker ≡ true)
    × (has_closed_event m ≡ true → g.stop_event ≡ closed)
    × (has_closed_thread m ≡ true → g.thread_open ≡ false)

MainStep-Inv :
    {m m' : Main} {g g' : Shared} (h : Handler) → MainStep m g m' g' → Inv m h g → Inv m' h g'
MainStep-Inv h (MainStep.init_fails g) i = ground arith
MainStep-Inv h (MainStep.init g) i = ground arith
MainStep-Inv h (MainStep.report_start g took) i = ground arith
MainStep-Inv h (MainStep.no_event g took) i = ground arith
MainStep-Inv h (MainStep.create_event g) i = ground arith
MainStep-Inv h (MainStep.check_event g took) i = ground arith
MainStep-Inv h (MainStep.ready g) i = ground arith
MainStep-Inv h (MainStep.no_thread g) i = ground arith
MainStep-Inv h (MainStep.refuse g took) i = ground arith
MainStep-Inv h (MainStep.create_thread g) i = ground arith
MainStep-Inv h (MainStep.check_thread g took) i = ground arith
MainStep-Inv h (MainStep.report_running g) i = ground arith
MainStep-Inv h (MainStep.running_refused g) i = ground arith
MainStep-Inv h (MainStep.wait_worker g e) i = ground arith
MainStep-Inv h (MainStep.signal g) i = ground arith
MainStep-Inv h (MainStep.wait_ends g n e) i = ground arith
MainStep-Inv h (MainStep.wait_times_out g n e) i = ground arith
MainStep-Inv h (MainStep.check g n took) i = ground arith
MainStep-Inv h (MainStep.give_up g n e) i = ground arith
MainStep-Inv h (MainStep.report_stopped g took) i = ground arith
MainStep-Inv h (MainStep.close_event g) i = ground arith
MainStep-Inv h (MainStep.close_thread g) i = ground arith

WorkerStep-Inv : {g g' : Shared} (m : Main) (h : Handler) → WorkerStep g g' → Inv m h g → Inv m h g'
WorkerStep-Inv m h (WorkerStep.start g e) i = ground arith
WorkerStep-Inv m h (WorkerStep.start_throws g e) i = ground arith
WorkerStep-Inv m h (WorkerStep.ask_early g e n) i = ground arith
WorkerStep-Inv m h (WorkerStep.ask g e r) i = ground arith
WorkerStep-Inv m h (WorkerStep.wake g e r) i = ground arith
WorkerStep-Inv m h (WorkerStep.reset g e) i = ground arith
WorkerStep-Inv m h (WorkerStep.stop g e) i = ground arith

HandlerStep-Inv :
    {h h' : Handler} {g g' : Shared} (m : Main) → HandlerStep h g h' g' → Inv m h g → Inv m h' g'
HandlerStep-Inv m (HandlerStep.receive g e) i = ground arith
HandlerStep-Inv m (HandlerStep.report_pending g took) i = ground arith
HandlerStep-Inv m (HandlerStep.signal g) i = ground arith
HandlerStep-Inv m (HandlerStep.wait_ends g n e) i = ground arith
HandlerStep-Inv m (HandlerStep.wait_fails g n e) i = ground arith
HandlerStep-Inv m (HandlerStep.wait_times_out g n e) i = ground arith
HandlerStep-Inv m (HandlerStep.check g n took) i = ground arith
HandlerStep-Inv m (HandlerStep.give_up g n e) i = ground arith
HandlerStep-Inv m (HandlerStep.report_stopped g took) i = ground arith

pub Step-Inv :
    {t u : Threads} → Step t u → Inv t.main t.handler t.shared → Inv u.main u.handler u.shared
Step-Inv (Step.by_main m m' h g g' s) i = MainStep-Inv h s i
Step-Inv (Step.by_worker m h g g' s) i = WorkerStep-Inv m h s i
Step-Inv (Step.by_handler m h h' g g' s) i = HandlerStep-Inv m s i

pub Run-Inv : {t : Threads} → Run loaded t → Inv t.main t.handler t.shared
Run-Inv Run.here = ground arith
Run-Inv (Run.next r s) = Step-Inv s (Run-Inv r)
