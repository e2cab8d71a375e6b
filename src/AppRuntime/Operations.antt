-- ===== src/AppRuntime/Operations.antt =====
-- The operations of application_runtime.c on a runtime that exists. `true` is the result 1.
use deus_os_stm.Common.{
  ℕ, ◌+◌, Bool, true, false, ◌&&◌, not, Option, none, some, List, [], ◌∷◌, replicate, ◌==◌, ◌!=◌,
  if◌then◌else◌, bit_and,
}
use deus_os_stm.AppRuntime.View.{View, view_clear, view_equal}
use deus_os_stm.AppRuntime.Runtime.{
  LifecycleState, is_running, is_failed, is_stopped, Event, Services, Descriptor, Runtime,
  system_home, registry_count, counter_increment, index_from_id, state_at, with_state, fault,
}

-- The result of `application_runtime_index_from_id` under a test.
abbrev pub if_found {ℓ} : {A : Type ℓ} → Option (ℕ × Descriptor) → A → (ℕ → Descriptor → A) → A
if_found none absent present = absent
if_found (some found) absent present = present found.0 found.1

-- What `application_runtime_render_active` does with what the callback rendered.
unfoldable pub rendered : Runtime → View × Bool → Runtime × Bool
rendered r (candidate, false) = (
  record (if r.render_pending then r else fault r) {
    staging_view = candidate;
    render_pending = true;
  },
  false,
)
rendered r (candidate, true) =
    let s = record r { staging_view = candidate; render_pending = false } in
    if view_equal r.view candidate then (s, true) else (
      record s {
        view = candidate;
        view_dirty = true;
        view_revision = counter_increment r.view_revision;
      },
      true,
    )

unfoldable pub render_with :
    Runtime → Option (View → Services → View × Bool) → Services → Runtime × Bool
render_with r none services = (r, false)
render_with r (some render) services = rendered r (render view_clear services)

-- `application_runtime_render_active`
unfoldable pub render_active : List Descriptor → Runtime → Services → Runtime × Bool
render_active registry r services =
    if_found (index_from_id registry r.active_id) (r, false)
      (λ index d.
        if not (is_running (state_at r index)) then (r, false) else render_with r d.render services)

-- A start or stop callback: a null pointer counts as a failure.
abbrev pub succeeds : Option (Services → Bool) → Services → Bool
succeeds none services = false
succeeds (some callback) services = callback services

-- The state in which a start succeeded, the new owner rendered.
abbrev pub launched : List Descriptor → Runtime → ℕ → ℕ → Services → Runtime × Bool
launched registry r index id services = (
  (render_active registry (record (with_state r index LifecycleState.running) { active_id = id })
      services).0,
  true,
)

-- `application_runtime_start_home_fallback`
unfoldable pub start_home_fallback : List Descriptor → Runtime → Services → Runtime × Bool
start_home_fallback registry r services =
    if_found (index_from_id registry system_home) (r, false)
      (λ index home.
        if is_failed (state_at r index)
        then (record r { active_id = 0 }, false)
        else let s = with_state r index LifecycleState.starting in
          if not (succeeds home.start services)
          then (fault (record (with_state s index LifecycleState.failed) { active_id = 0 }), false)
          else launched registry s index system_home services)

-- `application_runtime_stop_owner`
unfoldable pub stop_owner : Runtime → ℕ → Option (Services → Bool) → Services → Runtime × Bool
stop_owner r current stop services =
    let s = with_state r current LifecycleState.stopping in
    if not (succeeds stop services)
    then (fault (with_state s current LifecycleState.failed), false)
    else (record (with_state s current LifecycleState.stopped) { active_id = 0 }, true)

-- The end of `application_runtime_start`, when nothing owns the display any more.
unfoldable pub start_target :
    List Descriptor → Runtime → ℕ → ℕ → Descriptor → Services → Runtime × Bool
start_target registry r index id target services =
    let s = with_state r index LifecycleState.starting in
    let t = fault (with_state s index LifecycleState.failed) in
    if not (succeeds target.start services)
    then (if id != system_home then (start_home_fallback registry t services).0 else t, false)
    else launched registry s index id services

-- The owner, if there is one, is stopped first.
unfoldable pub release_owner : List Descriptor → Runtime → Services → Runtime × Bool
release_owner registry r services =
    if r.active_id == 0
    then (r, true)
    else if_found (index_from_id registry r.active_id) (r, false)
        (λ current d.
          if is_failed (state_at r current)
          then (r, false)
          else stop_owner r current d.stop services)

unfoldable pub replace_owner :
    List Descriptor → Runtime → ℕ → ℕ → Descriptor → Services → Runtime × Bool
replace_owner registry r index id target services =
    let released = release_owner registry r services in
    if released.1
    then start_target registry released.0 index id target services
    else (released.0, false)

-- `application_runtime_start`
unfoldable pub start : List Descriptor → Runtime → ℕ → Option Services → Runtime × Bool
start registry r id none = (r, false)
start registry r id (some services) =
    if not r.initialized
    then (r, false)
    else if_found (index_from_id registry id) (r, false)
        (λ index target.
          if r.active_id == id && is_running (state_at r index)
          then (r, true)
          else if is_failed (state_at r index)
          then (r, false)
          else replace_owner registry r index id target services)

-- `application_runtime_stop`
unfoldable pub stop : List Descriptor → Runtime → Option Services → Runtime × Bool
stop registry r none = (r, false)
stop registry r (some services) =
    if not r.initialized
    then (r, false)
    else if r.active_id == system_home
    then (r, true)
    else start registry r system_home (some services)

-- The event as the runtime remembers it.
abbrev pub noted : Runtime → Event → Runtime
noted r e = record r {
  last_event_type = e.type;
  last_event_source = e.source;
  last_event_value0 = e.value0;
  last_event_value1 = e.value1;
  event_count = counter_increment r.event_count;
}

-- What the callback's effects ask for; an effect that does not exist is a fault.
unfoldable pub apply_effects : List Descriptor → Runtime → ℕ → Services → Runtime × Bool
apply_effects registry r effects services =
    let s = if bit_and effects 0xFFFFFFFE != 0 then fault r else r in
    if bit_and effects 1 != 0 then render_active registry s services else (s, true)

abbrev pub handle_event :
    List Descriptor → Runtime → Event → Option (Event → Services → ℕ) → Services → Runtime × Bool
handle_event registry r e none services = (r, false)
handle_event registry r e (some event) services =
    apply_effects registry (noted r e) (event e services) services

-- `application_runtime_dispatch_event`
unfoldable pub dispatch_event :
    List Descriptor → Runtime → Option Event → Option Services → Runtime × Bool
dispatch_event registry r (some e) (some services) =
    if not r.initialized
    then (r, false)
    else if_found (index_from_id registry r.active_id) (r, false)
        (λ index d.
          if not (is_running (state_at r index))
          then (r, false)
          else handle_event registry r e d.event services)
dispatch_event registry r _ _ = (r, false)

-- `application_runtime_service`
unfoldable pub service : List Descriptor → Runtime → Option Services → Runtime × Bool
service registry r none = (r, false)
service registry r (some services) =
    if not r.initialized
    then (r, false)
    else if r.render_pending
    then render_active registry r services
    else (r, true)

-- `application_runtime_reset`
abbrev pub reset : Runtime
reset = record {
  view = view_clear;
  staging_view = view_clear;
  fault_count = 0;
  event_count = 0;
  view_revision = 0;
  last_event_value0 = 0;
  last_event_value1 = 0;
  active_id = 0;
  last_event_type = 0;
  last_event_source = 0;
  states = replicate registry_count LifecycleState.registered;
  initialized = false;
  view_dirty = false;
  render_pending = false;
}

abbrev pub init_succeeds : Option Bool → Bool
init_succeeds none = false
init_succeeds (some result) = result

-- The loop of `application_runtime_initialize`, from an index on.
unfoldable pub initialize_from : List Descriptor → ℕ → Runtime → Runtime
initialize_from [] index r = r
initialize_from (d ∷ registry) index r = initialize_from registry (index + 1) (
    if init_succeeds d.init
    then with_state r index LifecycleState.stopped
    else fault (with_state r index LifecycleState.failed))

-- `application_runtime_initialize`
unfoldable pub initialize : List Descriptor → Runtime → Runtime × Bool
initialize registry r =
    let s = record (initialize_from registry 0 r) { initialized = true } in
    if r.initialized
    then (r, true)
    else if_found (index_from_id registry system_home) (s, false)
        (λ index _. (s, is_stopped (state_at s index)))

-- `application_runtime_view_get` and `application_runtime_view_consumed`
abbrev pub view_get : Runtime → Option View
view_get r = if r.active_id == 0 then none else some r.view

abbrev pub view_consumed : Runtime → Runtime
view_consumed r = record r { view_dirty = false }
