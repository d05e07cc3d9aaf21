-- ===== src/Program/Protocol.antt =====
-- The order in which `main` (BlkBackend.cpp) and `blkback_worker` (Service.cpp) make their calls.
use us_blkback.Base.{Option, none, some, List, [], ◌∷◌, Bool, if◌then◌else◌}
use us_blkback.Program.{
  Call, reset_frontend_count, print_help, nr_cpus, set_priority_class, sched_setaffinity,
  set_process_affinity_mask, copy_args, service_start, free_args, construct, start, stop, destroy,
  block_signals, wait_signal, create_event, wait_event, service_wait_for_stop_signal,
  output_debug_string, print_error,
}

-- How far the program is. `bound` is on its processor, `lost` is after a constructor that threw,
-- `broken` after a `start` or `stop` that threw, and `dropped` after the destructor that follows
-- it.
pub data Phase : Type 0 where
  loaded counted bound copied served freed : Phase
  constructed started blocked waited stopped destroyed : Phase
  lost broken dropped : Phase

-- The calls that are allowed in each phase, and the phase after them. `threw` is whether the call
-- threw. Only a backend that is constructed is started, only one that is started is waited for,
-- only after that it is stopped, and it is destroyed once.
abbrev pub after : Phase → Call → Bool → Option Phase
after loaded reset_frontend_count threw = some counted
after counted print_help threw = some counted
after counted nr_cpus threw = some counted
after counted (sched_setaffinity mask) threw = some bound
after counted (set_process_affinity_mask mask) threw = some bound
after bound set_priority_class threw = some bound
after bound copy_args threw = some copied
after copied service_start threw = some served
after served free_args threw = some freed
after bound (construct spin) threw = some (if threw then lost else constructed)
after constructed start threw = some (if threw then broken else started)
after started (block_signals set) threw = some blocked
after started create_event threw = some blocked
after blocked (wait_signal set) threw = some waited
after blocked wait_event threw = some waited
after started service_wait_for_stop_signal threw = some waited
after waited stop threw = some (if threw then broken else stopped)
after broken destroy threw = some dropped
after stopped destroy threw = some destroyed
after bound print_help threw = some bound
after p output_debug_string threw = some p
after p print_error threw = some p
after _ _ threw = none

module _ (throws : List Call → Bool) (from : Phase) where
  -- The phase after the calls; `none` where one of them came too early or too late.
  abbrev pub phase : List Call → Option Phase
  phase [] = some from
  phase (c ∷ cs) = elim (phase cs) [ none ↦ none | some p ↦ after p c (throws (c ∷ cs)) ]
