-- ===== src/AppRuntime/Runtime.antt =====
-- The registry and the state of application_runtime.c. A callback pointer is an `Option`; the
-- registry is an argument of the operations, and `application_registry` is the one of the program.
-- The runtime pointer is never null here, `services` and `event` may be.
use deus_os_stm.Common.{
  ℕ, ◌+◌, Bool, true, false, Option, none, some, List, [], ◌∷◌, get_or, set, ◌==◌, if◌then◌else◌,
}
use deus_os_stm.AppRuntime.View.{View, view_clear, view_set_row}

-- `application_lifecycle_state_t`
pub data LifecycleState : Type 0 where
  registered stopped starting running blocked stopping failed : LifecycleState

abbrev pub is_running : LifecycleState → Bool
is_running LifecycleState.running = true
is_running _ = false

abbrev pub is_failed : LifecycleState → Bool
is_failed LifecycleState.failed = true
is_failed _ = false

abbrev pub is_stopped : LifecycleState → Bool
is_stopped LifecycleState.stopped = true
is_stopped _ = false

-- `application_event_t`
pub record Event : Type 0 where
  pub type : ℕ
  pub source : ℕ
  pub value0 : ℕ
  pub value1 : ℕ

-- `application_service_snapshot_t`
pub record Services : Type 0 where
  pub uptime_ms : ℕ
  pub displayed_minute : ℕ
  pub system_healthy : ℕ
  pub usb_configured : ℕ
  pub network_online : ℕ

-- `application_descriptor_t`. A render callback gets the cleared view and leaves what it wrote.
pub record Descriptor : Type 0 where
  pub id : ℕ
  pub abi_version : ℕ
  pub flags : ℕ
  pub name : List ℕ
  pub init : Option Bool
  pub start : Option (Services → Bool)
  pub event : Option (Event → Services → ℕ)
  pub render : Option (View → Services → View × Bool)
  pub stop : Option (Services → Bool)

-- `application_runtime_t`
pub record Runtime : Type 0 where
  pub view : View
  pub staging_view : View
  pub fault_count : ℕ
  pub event_count : ℕ
  pub view_revision : ℕ
  pub last_event_value0 : ℕ
  pub last_event_value1 : ℕ
  pub active_id : ℕ
  pub last_event_type : ℕ
  pub last_event_source : ℕ
  pub states : List LifecycleState
  pub initialized : Bool
  pub view_dirty : Bool
  pub render_pending : Bool

abbrev pub system_home : ℕ
system_home = 1

abbrev pub device_info : ℕ
device_info = 2

abbrev pub registry_count : ℕ
registry_count = 2

-- The texts in ASCII.
abbrev pub text_deus_os : List ℕ
text_deus_os = 68 ∷ 69 ∷ 85 ∷ 83 ∷ 32 ∷ 79 ∷ 83 ∷ []

abbrev pub text_desktop : List ℕ
text_desktop = 68 ∷ 69 ∷ 83 ∷ 75 ∷ 84 ∷ 79 ∷ 80 ∷ []

abbrev pub text_ready : List ℕ
text_ready = 82 ∷ 69 ∷ 65 ∷ 68 ∷ 89 ∷ []

abbrev pub text_device_info : List ℕ
text_device_info = 68 ∷ 69 ∷ 86 ∷ 73 ∷ 67 ∷ 69 ∷ 32 ∷ 73 ∷ 78 ∷ 70 ∷ 79 ∷ []

abbrev pub text_stm32f103 : List ℕ
text_stm32f103 = 83 ∷ 84 ∷ 77 ∷ 51 ∷ 50 ∷ 70 ∷ 49 ∷ 48 ∷ 51 ∷ []

-- Three rows written in turn; the first that fails is the last.
abbrev pub render_rows : List ℕ → List ℕ → List ℕ → View → Services → View × Bool
render_rows x y z _ _ =
    let a = view_set_row view_clear 0 (some x) in
    let b = view_set_row a.0 1 (some y) in
    let c = view_set_row b.0 2 (some z) in if a.1 then (if b.1 then c else b) else a

abbrev pub system_home_render : View → Services → View × Bool
system_home_render = render_rows text_deus_os text_desktop text_ready

abbrev pub device_info_render : View → Services → View × Bool
device_info_render = render_rows text_deus_os text_device_info text_stm32f103

abbrev pub application_registry : List Descriptor
application_registry =
    (record {
      id = system_home;
      abi_version = 1;
      flags = 1;
      name = 115 ∷ 121 ∷ 115 ∷ 116 ∷ 101 ∷ 109 ∷ 46 ∷ 104 ∷ 111 ∷ 109 ∷ 101 ∷ [];
      init = some true;
      start = some (λ _. true);
      event = some (λ _ _. 0);
      render = some system_home_render;
      stop = some (λ _. true);
    })
    ∷ (record {
      id = device_info;
      abi_version = 1;
      flags = 1;
      name = 100 ∷ 101 ∷ 118 ∷ 105 ∷ 99 ∷ 101 ∷ 46 ∷ 105 ∷ 110 ∷ 102 ∷ 111 ∷ [];
      init = some true;
      start = some (λ _. true);
      event = some (λ _ _. 0);
      render = some device_info_render;
      stop = some (λ _. true);
    })
    ∷ []

-- `application_counter_increment`
abbrev pub counter_increment : ℕ → ℕ
counter_increment counter = if counter == 0xFFFFFFFF then counter else counter + 1

-- The loop of `application_runtime_index_from_id`, from an index on.
unfoldable pub search : List Descriptor → ℕ → ℕ → Option (ℕ × Descriptor)
search [] id index = none
search (d ∷ registry) id index =
    let rest = search registry id (index + 1) in if d.id == id then some (index, d) else rest

-- `application_runtime_index_from_id`, with the descriptor at the index it finds.
unfoldable pub index_from_id : List Descriptor → ℕ → Option (ℕ × Descriptor)
index_from_id registry id = if id == 0 then none else search registry id 0

abbrev pub state_at : Runtime → ℕ → LifecycleState
state_at r index = get_or r.states index LifecycleState.registered

abbrev pub with_state : Runtime → ℕ → LifecycleState → Runtime
with_state r index state = record r { states = set r.states index state }

abbrev pub fault : Runtime → Runtime
fault r = record r { fault_count = counter_increment r.fault_count }
