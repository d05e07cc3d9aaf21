-- ===== src/Service/Threads/Stop.antt =====
-- How the threads of the service (Service.cpp) stop, however they are interleaved.
use us_blkback.Base.{ℕ, suc, ◌+◌, ◌≤◌, ◌≡◌, true, false, ◌⊎◌, inl, inr, Bool-cases, arith}
use us_blkback.Service.{stopped}
use us_blkback.Service.Threads.{
  set, closed, Worker, starting, asking, waiting, resetting, stopping, ended, Main, returned,
  Handler, idle, Shared, send_stop_signal, MainStep, WorkerStep, HandlerStep, Threads, Step, loaded,
  Run,
}
use us_blkback.Service.Threads.Invariant.{Inv, rank, Step-Inv, Run-Inv}

-- How many of the steps of a run the worker makes.
abbrev pub worker_steps : {s t : Threads} → Run s t → ℕ
worker_steps Run.here = 0
worker_steps (Run.next r (Step.by_worker m h g g' w)) = suc (worker_steps r)
worker_steps (Run.next r s) = worker_steps r

-- A request to stop always finds the stop event ready, and signals it, unless the worker has ended
-- or `service_main` has stopped waiting for it after a report of RUNNING that was refused.
pub send_stop_signal-Run :
    {t : Threads}
    → Run loaded t
    → t.handler ≡ Handler.signalling
    → (t.shared.stop_event_ready ≡ true)
      × (((send_stop_signal t.shared).stop_event ≡ set) × ((send_stop_signal t.shared).sent ≡ true)
          ⊎ ((t.shared.worker ≡ ended) ⊎ (t.shared.gave_up ≡ true)))
send_stop_signal-Run {t} r e = let i = Run-Inv r in ground arith

-- Once `service_main` has returned and no request is being handled, the last status that was set is
-- STOPPED, both handles are closed, and the worker has ended, unless `service_main` stopped
-- waiting for it after a report of RUNNING that was refused.
pub returned-Run :
    {t : Threads}
    → Run loaded t
    → t.main ≡ returned
    → t.handler ≡ idle
    → (t.shared.state ≡ stopped)
      × (t.shared.stop_event ≡ closed)
      × (t.shared.thread_open ≡ false)
      × ((t.shared.worker ≡ ended) ⊎ (t.shared.gave_up ≡ true))
returned-Run {t} r e f = let i = Run-Inv r in ground arith

-- What a step that the worker does not make leaves of a signalled stop, and what one of its own
-- does.
MainStep-sent :
    {m m' : Main} {g g' : Shared} (h : Handler)
    → MainStep m g m' g'
    → Inv m h g
    → g.sent ≡ true
    → (g'.sent ≡ true) × (g'.worker ≡ g.worker)
MainStep-sent h (MainStep.init_fails g) i e = ground arith
MainStep-sent h (MainStep.init g) i e = ground arith
MainStep-sent h (MainStep.report_start g took) i e = ground arith
MainStep-sent h (MainStep.no_event g took) i e = ground arith
MainStep-sent h (MainStep.create_event g) i e = ground arith
MainStep-sent h (MainStep.check_event g took) i e = ground arith
MainStep-sent h (MainStep.ready g) i e = ground arith
MainStep-sent h (MainStep.no_thread g) i e = ground arith
MainStep-sent h (MainStep.refuse g took) i e = ground arith
MainStep-sent h (MainStep.create_thread g) i e = ground arith
MainStep-sent h (MainStep.check_thread g took) i e = ground arith
MainStep-sent h (MainStep.report_running g) i e = ground arith
MainStep-sent h (MainStep.running_refused g) i e = ground arith
MainStep-sent h (MainStep.wait_worker g _) i e = ground arith
MainStep-sent h (MainStep.signal g) i e = ground arith
MainStep-sent h (MainStep.wait_ends g n _) i e = ground arith
MainStep-sent h (MainStep.wait_times_out g n _) i e = ground arith
MainStep-sent h (MainStep.check g n took) i e = ground arith
MainStep-sent h (MainStep.give_up g n _) i e = ground arith
MainStep-sent h (MainStep.report_stopped g took) i e = ground arith
MainStep-sent h (MainStep.close_event g) i e = ground arith
MainStep-sent h (MainStep.close_thread g) i e = ground arith

HandlerStep-sent :
    {h h' : Handler} {g g' : Shared}
    → HandlerStep h g h' g'
    → g.sent ≡ true
    → (g'.sent ≡ true) × (g'.worker ≡ g.worker)
HandlerStep-sent (HandlerStep.receive g _) e = ground arith
HandlerStep-sent (HandlerStep.report_pending g took) e = ground arith
HandlerStep-sent (HandlerStep.signal g) e = ground arith
HandlerStep-sent (HandlerStep.wait_ends g n _) e = ground arith
HandlerStep-sent (HandlerStep.wait_fails g n _) e = ground arith
HandlerStep-sent (HandlerStep.wait_times_out g n _) e = ground arith
HandlerStep-sent (HandlerStep.check g n took) e = ground arith
HandlerStep-sent (HandlerStep.give_up g n _) e = ground arith
HandlerStep-sent (HandlerStep.report_stopped g took) e = ground arith

WorkerStep-sent :
    {g g' : Shared} → WorkerStep g g' → (g'.sent ≡ g.sent) × (rank g'.worker + 1 ≤ rank g.worker)
WorkerStep-sent (WorkerStep.start g e) = ground arith
WorkerStep-sent (WorkerStep.start_throws g e) = ground arith
WorkerStep-sent (WorkerStep.ask_early g e n) = ground arith
WorkerStep-sent (WorkerStep.ask g e r) = ground arith
WorkerStep-sent (WorkerStep.wake g e r) = ground arith
WorkerStep-sent (WorkerStep.reset g e) = ground arith
WorkerStep-sent (WorkerStep.stop g e) = ground arith

Run-sent :
    {s t : Threads} (r : Run s t)
    → Inv s.main s.handler s.shared
    → s.shared.sent ≡ true
    → Inv t.main t.handler t.shared
      × (t.shared.sent ≡ true)
      × (rank t.shared.worker + worker_steps r ≤ rank s.shared.worker)
Run-sent Run.here i e = (i, e, omega arith)
Run-sent (Run.next r (Step.by_main m m' h g g' w)) i e =
    let (i', e', few) = Run-sent r i e in
    let (e'', same) = MainStep-sent h w i' e' in
    (Step-Inv (Step.by_main m m' h g g' w) i', e'', ground (arith, same))
Run-sent (Run.next r (Step.by_worker m h g g' w)) i e =
    let (i', e', few) = Run-sent r i e in
    let (same, less) = WorkerStep-sent w in
    (Step-Inv (Step.by_worker m h g g' w) i', ground (arith, same), omega arith)
Run-sent (Run.next r (Step.by_handler m h h' g g' w)) i e =
    let (i', e', few) = Run-sent r i e in
    let (e'', same) = HandlerStep-sent w e' in
    (Step-Inv (Step.by_handler m h h' g g' w) i', e'', ground (arith, same))

-- Where the stop event is signalled or the worker does not wait for it, the worker is not blocked.
worker_moves :
    (g : Shared)
    → (g.worker ≡ waiting → g.stop_event ≡ set)
    → (rank g.worker ≡ 0) ⊎ ((g' : Shared) × WorkerStep g g')
worker_moves g h = elim (worker_cases g.worker) [
  | inl e ↦ inl e
  | inr (inl e) ↦ inr (_, WorkerStep.start g e)
  | inr (inr (inl e)) ↦ elim (Bool-cases g.stop_event_ready) [
    | inl r ↦ inr (_, WorkerStep.ask g e r)
    | inr r ↦ inr (_, WorkerStep.ask_early g e r)
  ]
  | inr (inr (inr (inl e))) ↦ inr (_, WorkerStep.wake g e (h e))
  | inr (inr (inr (inr (inl e)))) ↦ inr (_, WorkerStep.reset g e)
  | inr (inr (inr (inr (inr e)))) ↦ inr (_, WorkerStep.stop g e)
]
  where
    worker_cases :
        (w : Worker)
        → (rank w ≡ 0)
          ⊎ ((w ≡ starting) ⊎ ((w ≡ asking) ⊎ ((w ≡ waiting) ⊎ ((w ≡ resetting) ⊎ (w ≡ stopping)))))
    worker_cases w = ground arith

-- A stop is carried out: from any state of the service in which the stop event was signalled, the
-- worker makes at most five more steps, whatever the other threads do between them, and it has one
-- to make until it has ended, unless `service_main` stopped waiting for it.
pub sent-Run :
    {s t : Threads}
    → Run loaded s
    → s.shared.sent ≡ true
    → (r : Run s t)
    → (worker_steps r ≤ 5)
      × ((t.shared.worker ≡ ended)
          ⊎ ((t.shared.gave_up ≡ true) ⊎ ((g : Shared) × WorkerStep t.shared g)))
sent-Run {s} {t} r0 e r =
    let i = Run-Inv r0 in
    let (j, sent, few) = Run-sent r i e in
    let most : rank s.shared.worker ≤ 5 = ground arith in
    (
      omega arith,
      elim (Bool-cases t.shared.gave_up) [
        | inl gave ↦ inr (inl gave)
        | inr kept ↦ elim (worker_moves t.shared (λ w. ground arith)) [
          | inl done ↦ inl (ground arith)
          | inr m ↦ inr (inr m)
        ]
      ],
    )
