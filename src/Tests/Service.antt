-- ===== src/Tests/Service.antt =====
-- The Windows service on a system where each call gives 1, and where each call fails with 258.
use us_blkback.Base.{ℕ, ◌≡◌, some, [], ◌∷◌, List, Bool, true, false, refl, arith}
use us_blkback.Service.{
  Call, Service, accept_none, unreported, no_error, stop, preshutdown, service_main, service_start,
  Run, get_last_error, service_ctrl_handler,
}
use us_blkback.Service.Main.{Over, service_main-Over}
use us_blkback.Service.Stopping.{Stopped, service_ctrl_handler-Stopped}

abbrev os : List Call → ℕ
os _ = 1

-- The worker never ends: each wait times out.
abbrev hung : List Call → ℕ
hung _ = 258

abbrev loaded : Service
loaded = record {
  status = record {
    own_process = false;
    controls = accept_none;
    state = unreported;
    exit_code = 0;
    checkpoint = 0;
    wait_hint = 0;
  };
  stop_event_ready = false;
  calls = [];
}

service_main-Over_example : (s : Service) × (service_main os loaded ≡ some (tt, s)) × Over os 0 0 s
service_main-Over_example = service_main-Over os 0 0 loaded refl refl (λ e. ground arith)

service_ctrl_handler-Stopped_example :
    (s : Service) × (service_ctrl_handler hung stop loaded ≡ some (no_error, s))
    × (service_ctrl_handler hung preshutdown loaded ≡ some (no_error, s))
    × Stopped hung loaded s
service_ctrl_handler-Stopped_example = service_ctrl_handler-Stopped hung loaded

-- A dispatcher that returns at once, since the service runs on, and one that refuses.
abbrev dispatcher : Bool → Run (Unit {0}) → Run Bool
dispatcher b m s = some (b, s)

dispatched : service_start os (dispatcher true) loaded ≡ some (tt, loaded)
unfolding service_start
dispatched = refl

refused :
    service_start os (dispatcher false) loaded
    ≡ some (tt, record loaded { calls = get_last_error ∷ [] })
unfolding service_start
refused = refl
