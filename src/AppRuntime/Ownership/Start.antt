-- ===== src/AppRuntime/Ownership/Start.antt =====
-- The ownership of the display through `application_runtime_start` and `application_runtime_stop`.
use deus_os_stm.Common.{
  ℕ, Bool, true, false, ◌&&◌, not, Option, none, some, List, set, ◌==◌, ◌!=◌, if◌then◌else◌, ◌≡◌,
  refl, arith, if_intro, ==→eq, inl, inr,
}
use deus_os_stm.AppRuntime.Runtime.{
  LifecycleState, is_running, is_failed, Services, Descriptor, Runtime, system_home, index_from_id,
  state_at, with_state, fault,
}
use deus_os_stm.AppRuntime.Operations.{
  succeeds, launched, start_home_fallback, stop_owner, start_target, release_owner, replace_owner,
  start, stop,
}
use deus_os_stm.AppRuntime.Ownership.{
  IsOwned, IsQuiet, quiet-IsOwned, set-IsQuiet, set-IsOwned, launched-IsOwned, running-set,
  if_found_intro,
}

-- A callback that fails or succeeds.
if_succeeds :
    (registry : List Descriptor) (ok : Bool) (x y : Runtime × Bool)
    → IsOwned registry x.0
    → IsOwned registry y.0
    → IsOwned registry (if not ok then x else y).0
if_succeeds registry true x y h k = k
if_succeeds registry false x y h k = h

fallback-IsOwned :
    (registry : List Descriptor) (r : Runtime) (services : Services)
    → IsQuiet r
    → IsOwned registry (start_home_fallback registry r services).0
unfolding start_home_fallback IsQuiet
fallback-IsOwned registry r services q =
    if_found_intro (λ (p : Runtime × Bool). IsOwned registry p.0)
      (index_from_id registry system_home) _ _ (quiet-IsOwned registry r q) present
  where
    vacant : Runtime
    vacant = record r { active_id = 0 }

    present :
        (i : ℕ) (d : Descriptor)
        → index_from_id registry system_home ≡ some (i, d)
        → IsOwned registry
            (if is_failed (state_at r i)
              then (vacant, false)
              else if not (succeeds d.start services)
              then (
                fault
                    (record (with_state
                      (with_state r i LifecycleState.starting)
                      i
                      LifecycleState.failed) { active_id = 0 }),
                false,
              )
              else launched registry
                  (with_state r i LifecycleState.starting)
                  i
                  system_home
                  services).0
    present i d e =
        let starting = set-IsQuiet r i LifecycleState.starting refl q in
        let failed =
          set-IsQuiet (with_state r i LifecycleState.starting) i LifecycleState.failed refl
            starting in
        if_intro (λ (p : Runtime × Bool). IsOwned registry p.0) (is_failed (state_at r i))
          (vacant, false) _ (λ _. quiet-IsOwned registry vacant q)
          (λ _.
            if_succeeds registry (succeeds d.start services) _ _
              (quiet-IsOwned registry
                (fault
                  (record (with_state (with_state r i LifecycleState.starting) i
                    LifecycleState.failed) { active_id = 0 }))
                failed)
              (launched-IsOwned registry (with_state r i LifecycleState.starting) i system_home d
                services e starting))

start_target-IsOwned :
    (registry : List Descriptor) (r : Runtime) (i id : ℕ) (d : Descriptor) (services : Services)
    → index_from_id registry id ≡ some (i, d)
    → IsQuiet r
    → IsOwned registry (start_target registry r i id d services).0
unfolding start_target IsQuiet
start_target-IsOwned registry r i id d services e q =
    if_succeeds registry (succeeds d.start services) _ _ refused (
      launched-IsOwned registry (with_state r i LifecycleState.starting) i id d services e starting)
  where
    starting : IsQuiet (with_state r i LifecycleState.starting)
    starting = set-IsQuiet r i LifecycleState.starting refl q

    failed : IsQuiet (with_state (with_state r i LifecycleState.starting) i LifecycleState.failed)
    failed =
        set-IsQuiet (with_state r i LifecycleState.starting) i LifecycleState.failed refl starting

    s : Runtime
    s = fault (with_state (with_state r i LifecycleState.starting) i LifecycleState.failed)

    refused :
        IsOwned registry
          (if id != system_home then (start_home_fallback registry s services).0 else s)
    refused =
        if_intro (IsOwned registry) (id != system_home) (start_home_fallback registry s services).0
          s (λ _. fallback-IsOwned registry s services failed)
          (λ _. quiet-IsOwned registry s failed)

-- When the owner has stopped, nothing runs.
stopped-IsQuiet :
    (registry : List Descriptor) (r : Runtime) (i : ℕ) (d : Descriptor)
    → index_from_id registry r.active_id ≡ some (i, d)
    → IsOwned registry r
    → IsQuiet (with_state (with_state r i LifecycleState.stopping) i LifecycleState.stopped)
unfolding IsOwned IsQuiet
stopped-IsQuiet registry r i d e v j g =
    elim (running-set (set r.states i LifecycleState.stopping) i j LifecycleState.stopped g) [
      | inl p ↦ cc
      | inr h ↦ elim (running-set r.states i j LifecycleState.stopping h.1) [
        | inl p ↦ cc
        | inr k ↦ let owner = (v j k.1).1 in k.0 cc
      ]
    ]

-- What is left of the owner: it still runs or has failed, or else nothing runs.
IsReleased : List Descriptor → Runtime × Bool → Type 0
IsReleased registry p = IsOwned registry p.0 × (p.1 ≡ true → IsQuiet p.0)

stop_owner-IsReleased :
    (registry : List Descriptor) (r : Runtime) (i : ℕ) (d : Descriptor) (services : Services)
    → index_from_id registry r.active_id ≡ some (i, d)
    → IsOwned registry r
    → IsReleased registry (stop_owner r i d.stop services)
unfolding stop_owner IsReleased IsQuiet IsOwned
stop_owner-IsReleased registry r i d services e v =
    if_intro (IsReleased registry) (not (succeeds d.stop services)) (kept, false) (free, true)
      (λ _. (failing, λ h. cc)) (λ _. (quiet-IsOwned registry free quiet, λ _. quiet))
  where
    kept : Runtime
    kept = fault (with_state (with_state r i LifecycleState.stopping) i LifecycleState.failed)

    free : Runtime
    free = record (with_state (with_state r i LifecycleState.stopping) i LifecycleState.stopped) {
      active_id = 0;
    }

    quiet : IsQuiet free
    quiet = stopped-IsQuiet registry r i d e v

    failing : IsOwned registry kept
    failing =
        set-IsOwned registry (with_state r i LifecycleState.stopping) i LifecycleState.failed refl
          (set-IsOwned registry r i LifecycleState.stopping refl v)

-- Nothing runs where there is no owner.
vacant-IsQuiet :
    (registry : List Descriptor) (r : Runtime) → r.active_id ≡ 0 → IsOwned registry r → IsQuiet r
unfolding IsQuiet IsOwned index_from_id
vacant-IsQuiet registry r e v j g = let found = (v j g).1 in ground arith

release_owner-IsReleased :
    (registry : List Descriptor) (r : Runtime) (services : Services)
    → IsOwned registry r
    → IsReleased registry (release_owner registry r services)
unfolding release_owner IsReleased
release_owner-IsReleased registry r services v =
    if_intro (IsReleased registry) (r.active_id == 0) (r, true) _
      (λ h. (v, λ _. vacant-IsQuiet registry r (==→eq r.active_id 0 h) v))
      (λ _.
        if_found_intro (IsReleased registry) (index_from_id registry r.active_id) (r, false) _
          (v, λ h. cc)
          (λ i d e.
            if_intro (IsReleased registry) (is_failed (state_at r i)) (r, false)
              (stop_owner r i d.stop services) (λ _. (v, λ h. cc))
              (λ _. stop_owner-IsReleased registry r i d services e v)))

replace_owner-IsOwned :
    (registry : List Descriptor) (r : Runtime) (i id : ℕ) (d : Descriptor) (services : Services)
    → index_from_id registry id ≡ some (i, d)
    → IsOwned registry r
    → IsOwned registry (replace_owner registry r i id d services).0
unfolding replace_owner IsReleased
replace_owner-IsOwned registry r i id d services e v =
    if_intro (λ (p : Runtime × Bool). IsOwned registry p.0) released.1 _ (released.0, false)
      (λ ok.
        start_target-IsOwned registry released.0 i id d services e
          ((release_owner-IsReleased registry r services v).1 ok))
      (λ _. (release_owner-IsReleased registry r services v).0)
  where
    released : Runtime × Bool
    released = release_owner registry r services

-- `start`
pub start-IsOwned :
    (registry : List Descriptor) (r : Runtime) (id : ℕ) (services : Option Services)
    → IsOwned registry r
    → IsOwned registry (start registry r id services).0
unfolding start
start-IsOwned registry r id none v = v
start-IsOwned registry r id (some services) v =
    if_intro (λ (p : Runtime × Bool). IsOwned registry p.0) (not r.initialized) (r, false) _
      (λ _. v)
      (λ _.
        if_found_intro (λ (p : Runtime × Bool). IsOwned registry p.0) (index_from_id registry id)
          (r, false) _ v
          (λ i d e.
            if_intro (λ (p : Runtime × Bool). IsOwned registry p.0)
              (r.active_id == id && is_running (state_at r i)) (r, true) _ (λ _. v)
              (λ _.
                if_intro (λ (p : Runtime × Bool). IsOwned registry p.0) (is_failed (state_at r i))
                  (r, false) (replace_owner registry r i id d services) (λ _. v)
                  (λ _. replace_owner-IsOwned registry r i id d services e v))))

pub stop-IsOwned :
    (registry : List Descriptor) (r : Runtime) (services : Option Services)
    → IsOwned registry r
    → IsOwned registry (stop registry r services).0
unfolding stop
stop-IsOwned registry r none v = v
stop-IsOwned registry r (some services) v =
    if_intro (λ (p : Runtime × Bool). IsOwned registry p.0) (not r.initialized) (r, false) _
      (λ _. v)
      (λ _.
        if_intro (λ (p : Runtime × Bool). IsOwned registry p.0) (r.active_id == system_home)
          (r, true) (start registry r system_home (some services)) (λ _. v)
          (λ _. start-IsOwned registry r system_home (some services) v))
