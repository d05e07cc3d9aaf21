-- ===== src/Service/Calls.antt =====
-- What a list of calls (Service.cpp) has left: the open handles and the last report.
use us_blkback.Base.{
  ℕ, zero, suc, ◌≡◌, ◌∙◌, Option, none, some, List, [], ◌∷◌, Bool, true, false, ◌==◌,
}
use us_blkback.Service.{
  Status, Handle, stop_event, blkback_thread, Call, report, create, close, wait, Service,
}

abbrev same : Handle → Handle → Bool
same stop_event stop_event = true
same blkback_thread blkback_thread = true
same _ _ = false

-- One handle less; `none` where none is open, so that it would be closed twice.
abbrev less : Option ℕ → Option ℕ
less none = none
less (some zero) = none
less (some (suc n)) = some n

abbrev more : Option ℕ → Option ℕ
more none = none
more (some n) = some (suc n)

-- The status that was reported last.
abbrev pub last_report : List Call → Option Status
last_report [] = none
last_report (report st ∷ cs) = some st
last_report (_ ∷ cs) = last_report cs

-- How often the thread was waited for with a time-out.
abbrev pub timed_waits : List Call → ℕ
timed_waits [] = 0
timed_waits (wait h (some t) ∷ cs) = suc (timed_waits cs)
timed_waits (_ ∷ cs) = timed_waits cs

module _ (os : List Call → ℕ) where
  -- How many handles of a kind are open after the calls.
  abbrev pub held : Handle → List Call → Option ℕ
  held k [] = some 0
  held k (create h ∷ cs) = elim (same k h) [
    | false ↦ held k cs
    | true ↦ elim (os (create h ∷ cs) == 0) [ true ↦ held k cs | false ↦ more (held k cs) ]
  ]
  held k (close h ∷ cs) = elim (same k h) [ false ↦ held k cs | true ↦ less (held k cs) ]
  held k (_ ∷ cs) = held k cs

  -- A run that opens and closes no handle and keeps the rest of the state, up to the status.
  pub record Quiet (s s' : Service) : Type 0 where
    pub same_held : (k : Handle) → held k s'.calls ≡ held k s.calls
    pub same_ready : s'.stop_event_ready ≡ s.stop_event_ready
    pub same_state : s'.status.state ≡ s.status.state
    pub same_controls : s'.status.controls ≡ s.status.controls
    pub same_exit_code : s'.status.exit_code ≡ s.status.exit_code

  pub Quiet-trans : {s t u : Service} → Quiet s t → Quiet t u → Quiet s u
  Quiet-trans a b = record {
    same_held = λ k. b.same_held k ∙ a.same_held k;
    same_ready = b.same_ready ∙ a.same_ready;
    same_state = b.same_state ∙ a.same_state;
    same_controls = b.same_controls ∙ a.same_controls;
    same_exit_code = b.same_exit_code ∙ a.same_exit_code;
  }
