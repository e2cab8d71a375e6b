-- ===== src/AppRuntime/Ownership/Reachable.antt =====
-- The states that calls of the runtime's operations reach, in any order and with any arguments.
use deus_os_stm.Common.{
  ℕ, zero, suc, ◌+◌, Bool, true, false, not, Option, none, some, List, [], ◌∷◌, ◌!=◌, if◌then◌else◌,
  refl, if_intro, bit_and,
}
use deus_os_stm.AppRuntime.Runtime.{
  LifecycleState, is_running, Event, Services, Descriptor, Runtime, system_home, index_from_id,
  state_at, with_state, fault,
}
use deus_os_stm.AppRuntime.Operations.{
  handle_event, render_active, start, stop, dispatch_event, service, reset, initialize_from,
  initialize, init_succeeds, apply_effects, noted,
}
use deus_os_stm.AppRuntime.Operations.{view_consumed}
use deus_os_stm.AppRuntime.Ownership.{IsOwned, set-IsOwned, render_active-IsOwned, if_found_intro}
use deus_os_stm.AppRuntime.Ownership.Start.{start-IsOwned, stop-IsOwned}

pub data Reachable (registry : List Descriptor) : Runtime → Type 0 where
  fresh : Reachable registry reset
  initialized : {r : Runtime} → Reachable registry r → Reachable registry (initialize registry r).0
  started :
      {r : Runtime} (id : ℕ) (services : Option Services)
      → Reachable registry r
      → Reachable registry (start registry r id services).0
  stopped :
      {r : Runtime} (services : Option Services)
      → Reachable registry r
      → Reachable registry (stop registry r services).0
  notified :
      {r : Runtime} (e : Option Event) (services : Option Services)
      → Reachable registry r
      → Reachable registry (dispatch_event registry r e services).0
  served :
      {r : Runtime} (services : Option Services)
      → Reachable registry r
      → Reachable registry (service registry r services).0
  consumed : {r : Runtime} → Reachable registry r → Reachable registry (view_consumed r)

initialize_from-IsOwned :
    (full registry : List Descriptor) (index : ℕ) (r : Runtime)
    → IsOwned full r
    → IsOwned full (initialize_from registry index r)
unfolding initialize_from IsOwned
initialize_from-IsOwned full [] index r v = v
initialize_from-IsOwned full (d ∷ registry) index r v =
    initialize_from-IsOwned full registry (index + 1) _ (
      if_intro (IsOwned full) (init_succeeds d.init) (with_state r index LifecycleState.stopped)
        (fault (with_state r index LifecycleState.failed))
        (λ _. set-IsOwned full r index LifecycleState.stopped refl v)
        (λ _. set-IsOwned full r index LifecycleState.failed refl v))

initialize-IsOwned :
    (registry : List Descriptor) (r : Runtime)
    → IsOwned registry r
    → IsOwned registry (initialize registry r).0
unfolding initialize IsOwned
initialize-IsOwned registry r v =
    if_intro (λ (p : Runtime × Bool). IsOwned registry p.0) r.initialized (r, true) _ (λ _. v)
      (λ _.
        if_found_intro (λ (p : Runtime × Bool). IsOwned registry p.0)
          (index_from_id registry system_home) (s, false) _ done (λ _ _ _. done))
  where
    s : Runtime
    s = record (initialize_from registry 0 r) { initialized = true }

    done : IsOwned registry s
    done = initialize_from-IsOwned registry registry 0 r v

effects-IsOwned :
    (registry : List Descriptor) (r : Runtime) (effects : ℕ) (services : Services)
    → IsOwned registry r
    → IsOwned registry (apply_effects registry r effects services).0
unfolding apply_effects IsOwned
effects-IsOwned registry r effects services v =
    if_intro (λ (p : Runtime × Bool). IsOwned registry p.0) (bit_and effects 1 != 0)
      (render_active registry s services) (s, true)
      (λ _. render_active-IsOwned registry s services done) (λ _. done)
  where
    s : Runtime
    s = if bit_and effects 0xFFFFFFFE != 0 then fault r else r

    done : IsOwned registry s
    done =
        if_intro (IsOwned registry) (bit_and effects 0xFFFFFFFE != 0) (fault r) r (λ _. v) (λ _. v)

handle-IsOwned :
    (registry : List Descriptor) (r : Runtime) (e : Event) (event : Option (Event → Services → ℕ))
    (services : Services)
    → IsOwned registry r
    → IsOwned registry (handle_event registry r e event services).0
unfolding IsOwned
handle-IsOwned registry r e none services v = v
handle-IsOwned registry r e (some event) services v =
    effects-IsOwned registry (noted r e) (event e services) services v

dispatch_event-IsOwned :
    (registry : List Descriptor) (r : Runtime) (e : Option Event) (services : Option Services)
    → IsOwned registry r
    → IsOwned registry (dispatch_event registry r e services).0
unfolding dispatch_event
dispatch_event-IsOwned registry r none none v = v
dispatch_event-IsOwned registry r none (some _) v = v
dispatch_event-IsOwned registry r (some _) none v = v
dispatch_event-IsOwned registry r (some e) (some services) v =
    if_intro (λ (p : Runtime × Bool). IsOwned registry p.0) (not r.initialized) (r, false) _
      (λ _. v)
      (λ _.
        if_found_intro (λ (p : Runtime × Bool). IsOwned registry p.0)
          (index_from_id registry r.active_id) (r, false) _ v
          (λ i d _.
            if_intro (λ (p : Runtime × Bool). IsOwned registry p.0)
              (not (is_running (state_at r i))) (r, false)
              (handle_event registry r e d.event services) (λ _. v)
              (λ _. handle-IsOwned registry r e d.event services v)))

service-IsOwned :
    (registry : List Descriptor) (r : Runtime) (services : Option Services)
    → IsOwned registry r
    → IsOwned registry (service registry r services).0
unfolding service
service-IsOwned registry r none v = v
service-IsOwned registry r (some services) v =
    if_intro (λ (p : Runtime × Bool). IsOwned registry p.0) (not r.initialized) (r, false) _
      (λ _. v)
      (λ _.
        if_intro (λ (p : Runtime × Bool). IsOwned registry p.0) r.render_pending
          (render_active registry r services) (r, true)
          (λ _. render_active-IsOwned registry r services v) (λ _. v))

reset-IsOwned : (registry : List Descriptor) → IsOwned registry reset
unfolding IsOwned
reset-IsOwned registry zero e = cc
reset-IsOwned registry (suc zero) e = cc
reset-IsOwned registry (suc (suc j)) e = cc

-- For any registry, in every state that calls of the operations reach from the reset state, an
-- application that runs is the one that `active_id` names: no two run at once, and none without
-- owning the display.
pub Reachable-IsOwned :
    (registry : List Descriptor) (r : Runtime) → Reachable registry r → IsOwned registry r
unfolding IsOwned
Reachable-IsOwned registry _ Reachable.fresh = reset-IsOwned registry
Reachable-IsOwned registry _ (Reachable.initialized p) =
    initialize-IsOwned registry _ (Reachable-IsOwned registry _ p)
Reachable-IsOwned registry _ (Reachable.started id services p) =
    start-IsOwned registry _ id services (Reachable-IsOwned registry _ p)
Reachable-IsOwned registry _ (Reachable.stopped services p) =
    stop-IsOwned registry _ services (Reachable-IsOwned registry _ p)
Reachable-IsOwned registry _ (Reachable.notified e services p) =
    dispatch_event-IsOwned registry _ e services (Reachable-IsOwned registry _ p)
Reachable-IsOwned registry _ (Reachable.served services p) =
    service-IsOwned registry _ services (Reachable-IsOwned registry _ p)
Reachable-IsOwned registry _ (Reachable.consumed p) = Reachable-IsOwned registry _ p
