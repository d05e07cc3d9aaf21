-- ===== src/Tests/Threads.antt =====
-- Runs of the threads of the service: a regular stop, and what can go wrong in it.
use us_blkback.Base.{◌≤◌, ◌≡◌, ◌⊎◌, refl, Bool, true, false}
use us_blkback.Service.{State, stop_pending, stopped, accept_none}
use us_blkback.Service.Threads.{
  Event, set, unset, closed, Worker, waiting, ended, Main, returned, Handler, idle, Shared,
  send_stop_signal, MainStep, WorkerStep, HandlerStep, Threads, Step, loaded, Run,
}
use us_blkback.Service.Threads.Stop.{worker_steps, send_stop_signal-Run, returned-Run, sent-Run}

abbrev and_main :
    {s t : Threads} {m : Main} {g : Shared}
    → Run s t
    → MainStep t.main t.shared m g
    → Run s (record t { main = m; shared = g })
and_main r w = Run.next r (Step.by_main _ _ _ _ _ w)

abbrev and_worker :
    {s t : Threads} {g : Shared} → Run s t → WorkerStep t.shared g → Run s (record t { shared = g })
and_worker r w = Run.next r (Step.by_worker _ _ _ _ w)

abbrev and_handler :
    {s t : Threads} {h : Handler} {g : Shared}
    → Run s t
    → HandlerStep t.handler t.shared h g
    → Run s (record t { handler = h; shared = g })
and_handler r w = Run.next r (Step.by_handler _ _ _ _ _ w)

abbrev up : Threads
up = record {
  main = Main.waiting_worker;
  handler = Handler.signalling;
  shared = record {
    stop_event_ready = true;
    stop_event = unset;
    worker = waiting;
    thread_open = true;
    controls = accept_none;
    state = stop_pending;
    told = accept_none;
    sent = false;
    gave_up = false;
  };
}

-- Up to a STOP that is about to signal the event.
asked : Run loaded up
asked =
    and_handler
      (and_handler
        (and_worker
          (and_worker
            (and_main
              (and_main
                (and_main
                  (and_main
                    (and_main
                      (and_main
                        (and_main (and_main Run.here (MainStep.init _))
                          (MainStep.report_start _ true))
                        (MainStep.create_event _))
                      (MainStep.check_event _ true))
                    (MainStep.ready _))
                  (MainStep.create_thread _))
                (MainStep.check_thread _ true))
              (MainStep.report_running _))
            (WorkerStep.start _ refl))
          (WorkerStep.ask _ refl refl))
        (HandlerStep.receive _ refl))
      (HandlerStep.report_pending _ true)

send_stop_signal-Run_example :
    ◌≡◌ {A = Bool} true true
    × (((send_stop_signal up.shared).stop_event ≡ set) × ((send_stop_signal up.shared).sent ≡ true)
        ⊎ ((waiting ≡ ended) ⊎ (false ≡ true)))
send_stop_signal-Run_example = send_stop_signal-Run asked refl

abbrev stop_sent : Threads
stop_sent = record up {
  handler = Handler.waiting_again 0;
  shared = record (up.shared) { stop_event = set; sent = true };
}

sent_now : Run loaded stop_sent
sent_now = and_handler asked (HandlerStep.signal _)

abbrev woken : Threads
woken = record stop_sent { shared = record (stop_sent.shared) { worker = Worker.resetting } }

wakes : Run stop_sent woken
wakes = and_worker Run.here (WorkerStep.wake _ refl refl)

sent-Run_example :
    (worker_steps wakes ≤ 5)
    × ((Worker.resetting ≡ ended) ⊎ ((false ≡ true) ⊎ ((g : Shared) × WorkerStep woken.shared g)))
sent-Run_example = sent-Run sent_now refl wakes

abbrev down : Threads
down = record {
  main = returned;
  handler = idle;
  shared = record {
    stop_event_ready = true;
    stop_event = closed;
    worker = ended;
    thread_open = false;
    controls = accept_none;
    state = stopped;
    told = accept_none;
    sent = true;
    gave_up = false;
  };
}

-- The handler is in its wait when `service_main` closes the handle of the thread: its next wait
-- fails, and it reports STOPPED a second time.
late : Run loaded down
late =
    and_handler
      (and_handler
        (and_main
          (and_main
            (and_main
              (and_main
                (and_worker
                  (and_worker (and_worker sent_now (WorkerStep.wake _ refl refl))
                    (WorkerStep.reset _ refl))
                  (WorkerStep.stop _ refl))
                (MainStep.wait_worker _ refl))
              (MainStep.report_stopped _ true))
            (MainStep.close_event _))
          (MainStep.close_thread _))
        (HandlerStep.wait_fails _ 0 refl))
      (HandlerStep.report_stopped _ true)

returned-Run_example :
    ◌≡◌ {A = State} stopped stopped
    × ◌≡◌ {A = Event} closed closed
    × ◌≡◌ {A = Bool} false false
    × ((ended ≡ ended) ⊎ (false ≡ true))
returned-Run_example = returned-Run late refl refl
