-- ===== src/AppRuntime/Examples.antt =====
-- The theorems of the runtime at small registries.
use deus_os_stm.Common.{
  ℕ, ◌≤◌, ◌<◌, ◌≡◌, refl, Bool, true, false, some, none, List, [], ◌∷◌, set, arith,
}
use deus_os_stm.AppRuntime.View.{
  view_clear, view_set_row, view_columns, copy_text, view_equal, row_equal,
}
use deus_os_stm.AppRuntime.Runtime.{
  LifecycleState, Services, Descriptor, Runtime, application_registry, search, index_from_id,
  state_at,
}
use deus_os_stm.AppRuntime.Operations.{
  start, reset, initialize, initialize_from, release_owner, replace_owner, start_target,
  render_active, render_with, rendered,
}
use deus_os_stm.AppRuntime.Ownership.{IsOwned}
use deus_os_stm.AppRuntime.Ownership.Reachable.{Reachable, Reachable-IsOwned}
use deus_os_stm.AppRuntime.Failure.{IsStuck, start_stop_failure}
use deus_os_stm.AppRuntime.Rows.{row_of, view_set_row_lem}

abbrev services : Services
services = record {
  uptime_ms = 1000;
  displayed_minute = 0;
  system_healthy = 1;
  usb_configured = 1;
  network_online = 0;
}

-- The home application is started on the firmware's own registry.
abbrev home : Runtime
home = (start application_registry (initialize application_registry reset).0 1 (some services)).0

home_runs : (home.active_id ≡ 1) × (state_at home 0 ≡ LifecycleState.running)
unfolding start initialize initialize_from index_from_id search replace_owner release_owner
    start_target render_active render_with rendered view_set_row copy_text view_equal row_equal
home_runs = (refl, refl)

Reachable-IsOwned_example : IsOwned application_registry home
Reachable-IsOwned_example =
    Reachable-IsOwned application_registry home
      (Reachable.started 1 (some services) (Reachable.initialized Reachable.fresh))

-- Two applications, of which the second does not stop and owns the display.
abbrev simple : ℕ → Bool → Descriptor
simple id stops = record {
  id = id;
  abi_version = 1;
  flags = 0;
  name = [];
  init = some true;
  start = some (λ _. true);
  event = none;
  render = none;
  stop = some (λ _. stops);
}

abbrev registry : List Descriptor
registry = simple 1 true ∷ simple 2 false ∷ []

abbrev owned : Runtime
owned = record reset {
  initialized = true;
  active_id = 2;
  states = LifecycleState.stopped ∷ LifecycleState.running ∷ [];
}

owner_found : index_from_id registry 2 ≡ some (1, simple 2 false)
unfolding index_from_id search
owner_found = refl

home_found : index_from_id registry 1 ≡ some (0, simple 1 true)
unfolding index_from_id search
home_found = refl

start_stop_failure_example :
    ((start registry owned 1 (some services)).1 ≡ false)
    × IsStuck registry owned (start registry owned 1 (some services)).0 1
start_stop_failure_example =
    start_stop_failure registry owned 1 0 1 (simple 2 false) (simple 1 true) services refl
      (omega arith) (λ e. absurd (omega arith)) (λ e. absurd (omega arith)) owner_found home_found
      refl refl refl

view_set_row_lem_example :
    (2 ≤ view_columns
      → view_set_row view_clear 1 (some (72 ∷ 105 ∷ []))
        ≡ (set view_clear 1 (row_of (72 ∷ 105 ∷ [])), true))
    × (view_columns < 2 → (view_set_row view_clear 1 (some (72 ∷ 105 ∷ []))).1 ≡ false)
view_set_row_lem_example =
    view_set_row_lem view_clear 1 (72 ∷ 105 ∷ []) (omega arith) refl
      (omega arith, (omega arith, tt))
