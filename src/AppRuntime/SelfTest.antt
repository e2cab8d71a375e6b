-- ===== src/AppRuntime/SelfTest.antt =====
-- The accessors of the registry in src/kernel/application_runtime.c, the names of the states, and the
-- self test of a stop that fails.
use deus_os_stm.Common.{
  ℕ, zero, suc, ◌≡◌, refl, Bool, true, false, ◌&&◌, not, Option, none, some, List, [], ◌∷◌, ◌==◌,
}
use deus_os_stm.AppRuntime.Runtime.{
  LifecycleState, Services, Descriptor, Runtime, system_home, device_info, is_running, is_failed,
  is_stopped, application_registry, search, index_from_id, state_at, with_state,
}
use deus_os_stm.AppRuntime.Operations.{stop_owner, start, reset, release_owner, replace_owner}

-- `application_runtime_registry_at`
unfoldable pub registry_at : List Descriptor → ℕ → Option Descriptor
registry_at [] index = none
registry_at (d ∷ registry) zero = some d
registry_at (d ∷ registry) (suc index) = registry_at registry index

-- `application_runtime_find`
abbrev found : Option (ℕ × Descriptor) → Option Descriptor
found none = none
found (some (index, d)) = some d

abbrev pub find : List Descriptor → ℕ → Option Descriptor
find registry id = found (index_from_id registry id)

-- `application_runtime_state_name`, as ASCII. Its default has no state of the data type.
abbrev pub state_name : LifecycleState → List ℕ
state_name LifecycleState.registered = 82 ∷ 69 ∷ 71 ∷ 73 ∷ 83 ∷ 84 ∷ 69 ∷ 82 ∷ 69 ∷ 68 ∷ []
state_name LifecycleState.stopped = 83 ∷ 84 ∷ 79 ∷ 80 ∷ 80 ∷ 69 ∷ 68 ∷ []
state_name LifecycleState.starting = 83 ∷ 84 ∷ 65 ∷ 82 ∷ 84 ∷ 73 ∷ 78 ∷ 71 ∷ []
state_name LifecycleState.running = 82 ∷ 85 ∷ 78 ∷ 78 ∷ 73 ∷ 78 ∷ 71 ∷ []
state_name LifecycleState.blocked = 66 ∷ 76 ∷ 79 ∷ 67 ∷ 75 ∷ 69 ∷ 68 ∷ []
state_name LifecycleState.stopping = 83 ∷ 84 ∷ 79 ∷ 80 ∷ 80 ∷ 73 ∷ 78 ∷ 71 ∷ []
state_name LifecycleState.failed = 70 ∷ 65 ∷ 73 ∷ 76 ∷ 69 ∷ 68 ∷ []

-- `application_runtime_failing_stop`
abbrev pub failing_stop : Services → Bool
failing_stop services = false

abbrev no_services : Services
no_services = record {
  uptime_ms = 0;
  displayed_minute = 0;
  system_healthy = 0;
  usb_configured = 0;
  network_online = 0;
}

-- The state that the self test sets up.
abbrev pub self_test_runtime : Runtime
self_test_runtime = record reset {
  initialized = true;
  active_id = device_info;
  states = LifecycleState.running ∷ LifecycleState.running ∷ [];
}

abbrev after_stop : Runtime → Bool
after_stop r =
    r.active_id == device_info
    && is_failed (state_at r 1)
    && is_running (state_at r 0)
    && r.fault_count == 1

abbrev after_start : Runtime → Bool
after_start r =
    r.active_id == device_info
    && is_failed (state_at r 1)
    && is_stopped (state_at r 0)
    && r.fault_count == 1

-- `application_runtime_stop_failure_self_test`
unfoldable pub stop_failure_self_test : List Descriptor → Bool
stop_failure_self_test registry =
    let (r, stopped) = stop_owner self_test_runtime 1 (some failing_stop) no_services in
    let (s, started) =
      start registry (with_state r 0 LifecycleState.stopped) system_home (some no_services) in
    not stopped && after_stop r && not started && after_start s

-- The self test passes with the registry of the firmware.
self_test_passes : stop_failure_self_test application_registry ≡ true
unfolding stop_failure_self_test stop_owner start release_owner replace_owner index_from_id search
self_test_passes = refl
