-- ===== src/Service/Wait.antt =====
-- The loop of `wait_on_blkback_thread` (Service.cpp) ends.
use us_blkback.Base.{
  ℕ, zero, suc, ◌+◌, ◌*◌, ◌≤◌, ◌<◌, ◌≡◌, refl, ◌∙◌, some, List, ◌∷◌, true, false, ◌&&◌, ltb, ◌==◌,
  u32, Bool, Bool-cases, inl, inr, arith,
}
use us_blkback.Service.{
  Call, Service, blkback_thread, wait, report, timeout, wait_timeout, service_wait_hint, wait_loop,
  wait_on_blkback_thread,
}
use us_blkback.Service.Calls.{timed_waits, Quiet, Quiet-trans}

module _ (os : List Call → ℕ) where
  -- The state after a wait that timed out, and its checkpoint.
  abbrev ticked : Service → Service
  ticked s =
      let st = record (s.status) { checkpoint = u32 (s.status.checkpoint + 1) } in
      record s { status = st; calls = report st ∷ wait blkback_thread (some timeout) ∷ s.calls }

  abbrev again : ℕ → Service → Bool
  again wait_time s =
      (os (wait blkback_thread (some timeout) ∷ s.calls) == wait_timeout)
      && ltb (wait_time + timeout) service_wait_hint

  wait_loop-again :
      (n wait_time : ℕ) (s : Service)
      → again wait_time s ≡ true
      → wait_loop os (suc n) wait_time s ≡ wait_loop os n (wait_time + timeout) (ticked s)
  unfolding wait_loop
  wait_loop-again n wait_time s e = ground (arith, e)

  wait_loop-done :
      (n wait_time : ℕ) (s : Service)
      → again wait_time s ≡ false
      → wait_loop os (suc n) wait_time s
        ≡ some (tt, record s { calls = wait blkback_thread (some timeout) ∷ s.calls })
  unfolding wait_loop
  wait_loop-done n wait_time s e = ground (arith, e)

  wait_loop-Quiet :
      (n wait_time : ℕ) (s : Service)
      → wait_time < service_wait_hint
      → service_wait_hint ≤ wait_time + n * timeout
      → (s' : Service) × (wait_loop os n wait_time s ≡ some (tt, s'))
        × Quiet os s s'
        × (timed_waits s'.calls ≤ timed_waits s.calls + n)
  wait_loop-Quiet zero wait_time s early enough = absurd (omega arith)
  wait_loop-Quiet (suc n) wait_time s early enough = elim (Bool-cases (again wait_time s)) [
    | inr done ↦ (
      record s { calls = wait blkback_thread (some timeout) ∷ s.calls },
      wait_loop-done n wait_time s done,
      record {
        same_held = λ k. refl;
        same_ready = refl;
        same_state = refl;
        same_controls = refl;
        same_exit_code = refl;
      },
      omega arith,
    )
    | inl more ↦
        let (s', ran, quiet, few) =
          wait_loop-Quiet n (wait_time + timeout) (ticked s) (ground arith) (omega arith) in
        (
          s',
          wait_loop-again n wait_time s more ∙ ran,
          Quiet-trans os
              (record {
                same_held = λ k. refl;
                same_ready = refl;
                same_state = refl;
                same_controls = refl;
                same_exit_code = refl;
              })
              quiet,
          omega arith,
        )
  ]

  -- Waiting for the worker thread ends after at most 50 waits of 200 ms each, whatever the system
  -- answers; it opens and closes no handle and changes at most the checkpoint of the status.
  pub wait_on_blkback_thread-Quiet :
      (s : Service)
      → (s' : Service) × (wait_on_blkback_thread os s ≡ some (tt, s'))
        × Quiet os s s'
        × (timed_waits s'.calls ≤ timed_waits s.calls + 50)
  unfolding wait_on_blkback_thread
  wait_on_blkback_thread-Quiet s = wait_loop-Quiet 50 0 s (omega arith) (omega arith)
