-- ===== src/Service.antt =====
-- The Windows service (Service.cpp), each function as the calls it makes of the system.
pub mod Calls
pub mod Wait
pub mod Main
pub mod Stopping
pub mod Threads
use us_blkback.Base.{
  ℕ, zero, suc, ◌+◌, ◌^◌, ◌%◌, Option, none, some, List, [], ◌∷◌, Bool, true, false, not, ◌&&◌, ltb,
  ◌==◌, if◌then◌else◌, u32,
}

-- dwCurrentState: 0 before the first report, or one of the states that the code names.
pub data State : Type 0 where
  unreported start_pending running stop_pending stopped : State

pub data Controls : Type 0 where
  accept_none accept_preshutdown_stop : Controls

-- The fields of `service_status` that the code writes.
pub record Status : Type 0 where
  pub own_process : Bool
  pub controls : Controls
  pub state : State
  pub exit_code : ℕ
  pub checkpoint : ℕ
  pub wait_hint : ℕ

-- The handles that `service_main` creates: service_stop_event and blkback_thread.
pub data Handle : Type 0 where
  stop_event blkback_thread : Handle

-- The calls of the system; `wait` has a time-out in milliseconds, `none` for INFINITE.
pub data Call : Type 0 where
  register_handler get_last_error set_event reset_event : Call
  report : Status → Call
  create close : Handle → Call
  wait : Handle → Option ℕ → Call

-- service_status and stop_event_ready, with the calls that were made, the last one first.
pub record Service : Type 0 where
  pub status : Status
  pub stop_event_ready : Bool
  pub calls : List Call

-- A run that returns a value; `none` where the fuel of a loop does not reach.
abbrev pub Run {ℓ} : Type ℓ → Type ℓ
Run A = Service → Option (A × Service)

infixl 5 ◌>>=◌ ◌>>◌
abbrev pub ◌>>=◌ {ℓ κ} : {A : Type ℓ} {B : Type κ} → Run A → (A → Run B) → Run B
(m >>= f) s = elim (m s) [ none ↦ none | some (a, s') ↦ f a s' ]

abbrev pub ◌>>◌ {ℓ κ} : {A : Type ℓ} {B : Type κ} → Run A → Run B → Run B
m >> n = m >>= λ _. n

abbrev pub give {ℓ} : {A : Type ℓ} → A → Run A
give a s = some (a, s)

abbrev pub change : (Service → Service) → Run (Unit {0})
change f s = some (tt, f s)

-- SERVICE_WAIT_HINT and TIMEOUT, in milliseconds.
abbrev pub service_wait_hint : ℕ
service_wait_hint = 10000

abbrev pub timeout : ℕ
timeout = 200

-- NO_ERROR, WAIT_TIMEOUT and ERROR_CALL_NOT_IMPLEMENTED of the Windows headers.
abbrev pub no_error : ℕ
no_error = 0

abbrev pub wait_timeout : ℕ
wait_timeout = 258

abbrev pub error_call_not_implemented : ℕ
error_call_not_implemented = 120

-- The codes that `service_ctrl_handler` names, and the others.
pub data Control : Type 0 where
  interrogate stop preshutdown : Control
  unknown : ℕ → Control

-- `os` answers each call, given the calls before it.
module _ (os : List Call → ℕ) where
  abbrev pub ask : Call → Run ℕ
  ask c s = some (os (c ∷ s.calls), record s { calls = c ∷ s.calls })

  unfoldable pub init : Run Bool
  init = do
    change (λ s. record s { stop_event_ready = false })
    handle ← ask register_handler
    if handle == 0
        then give false
        else (change (λ s. record s {
          status = record {
            own_process = true;
            controls = accept_none;
            state = unreported;
            exit_code = 0;
            checkpoint = 0;
            wait_hint = service_wait_hint;
          };
        })
            >> give true)

  -- `__set_status`.
  abbrev pub report_status : Run Bool
  report_status s = (ask (report s.status) >>= λ ret. give (not (ret == 0))) s

  abbrev pub set_status : Controls → State → ℕ → Run Bool
  set_status ctrls state exit_code = do
    change (λ s. record s {
      status = record (s.status) {
        controls = ctrls;
        state = state;
        exit_code = exit_code;
        checkpoint = 0;
      };
    })
    report_status

  abbrev pub stop_with_error : ℕ → Run Bool
  stop_with_error exit_code = set_status accept_none stopped exit_code

  abbrev pub mark_checkpoint : Run Bool
  mark_checkpoint = do
    change (λ s. record s {
      status = record (s.status) { checkpoint = u32 (s.status.checkpoint + 1) };
    })
    report_status

  -- The loop of `wait_on_blkback_thread` on fuel, with `wait_time`.
  unfoldable pub wait_loop : ℕ → ℕ → Run (Unit {0})
  wait_loop zero wait_time s = none
  wait_loop (suc n) wait_time s =
      (ask (wait blkback_thread (some timeout)) >>= λ ret.
      elim (ret == wait_timeout && ltb (wait_time + timeout) service_wait_hint) [
        | true ↦ mark_checkpoint >> wait_loop n (wait_time + timeout)
        | false ↦ give tt
      ])
        s

  unfoldable pub wait_on_blkback_thread : Run (Unit {0})
  wait_on_blkback_thread = wait_loop 50 0

  abbrev pub send_stop_signal : Run (Unit {0})
  send_stop_signal s = (if s.stop_event_ready then (ask set_event >> give tt) else give tt) s

  -- `service_main` from its last `set_status` on.
  unfoldable pub run_service : Run (Unit {0})
  unfolding wait_on_blkback_thread
  run_service = do
    accepted ← set_status accept_preshutdown_stop running no_error
    elim accepted [
      | true ↦ ask (wait blkback_thread none) >> give tt
      | false ↦ send_stop_signal >> wait_on_blkback_thread
    ]
    set_status accept_none stopped no_error
    ask (close stop_event)
    ask (close blkback_thread)
    give tt

  -- `service_main` from the creation of the thread on.
  unfoldable pub start_thread : Run (Unit {0})
  unfolding run_service
  start_thread = do
    mark_checkpoint
    change (λ s. record s { stop_event_ready = true })
    thread ← ask (create blkback_thread)
    elim (thread == 0) [
      | true ↦ do
        exit_code ← ask get_last_error
        ask (close stop_event)
        stop_with_error exit_code
        give tt
      | false ↦ mark_checkpoint >> run_service
    ]

  unfoldable pub service_main : Run (Unit {0})
  unfolding init start_thread
  service_main = do
    ready ← init
    elim ready [
      | false ↦ give tt
      | true ↦ do
        set_status accept_none start_pending no_error
        event ← ask (create stop_event)
        elim (event == 0) [
          | true ↦ (ask get_last_error >>= λ exit_code. stop_with_error exit_code) >> give tt
          | false ↦ start_thread
        ]
    ]

  -- What the worker thread waits for.
  unfoldable pub service_wait_for_stop_signal : Run (Unit {0})
  service_wait_for_stop_signal s =
      (if s.stop_event_ready
          then (ask (wait stop_event none) >> (ask reset_event >> give tt))
          else give tt)
        s

  unfoldable pub service_ctrl_handler : Control → Run ℕ
  unfolding wait_on_blkback_thread
  service_ctrl_handler interrogate = give no_error
  service_ctrl_handler stop = do
    set_status accept_none stop_pending no_error
    send_stop_signal
    wait_on_blkback_thread
    set_status accept_none stopped no_error
    give no_error
  service_ctrl_handler preshutdown = do
    set_status accept_none stop_pending no_error
    send_stop_signal
    wait_on_blkback_thread
    set_status accept_none stopped no_error
    give no_error
  service_ctrl_handler (unknown code) = give error_call_not_implemented

  -- `dispatch` is StartServiceCtrlDispatcher with the function of the table, which it runs on
  -- another thread. How much of it has run when the call returns is left open: STOPPED is reported
  -- before `service_main` has returned.
  unfoldable pub service_start : (Run (Unit {0}) → Run Bool) → Run (Unit {0})
  service_start dispatch = do
    started ← dispatch service_main
    if started then give tt else (ask get_last_error >> give tt)
