-- ===== src/AppRuntime/Failure.antt =====
-- A stop callback that fails in `application_runtime_start`.
use deus_os_stm.Common.{
  Bool-cases, Option-cases, inl, inr, sym, ap, ◌∙◌, ℕ, true, false, ◌&&◌, Option, none, some, List,
  set, length, ◌==◌, ◌≡◌, ◌≢◌, refl, ◌<◌, arith, get_or-set_self, length-set, ==→eq,
}
use deus_os_stm.AppRuntime.Runtime.{
  LifecycleState, is_running, is_failed, Services, Descriptor, Runtime, index_from_id, state_at,
  with_state, fault, counter_increment,
}
use deus_os_stm.AppRuntime.Operations.{succeeds, stop_owner, release_owner, replace_owner, start}

not_replaced :
    (registry : List Descriptor) (r : Runtime) (i : ℕ) (d : Descriptor)
    → index_from_id registry r.active_id ≡ some (i, d)
    → r.active_id ≢ 0
    → state_at r i ≡ LifecycleState.failed
    → (k id : ℕ) (target : Descriptor) (services : Services)
    → replace_owner registry r k id target services ≡ (r, false)
unfolding replace_owner release_owner
not_replaced registry r i d e z h k id target services = rw (e, h) (ground arith)

not_running :
    (registry : List Descriptor) (r : Runtime) (i k id : ℕ) (d target : Descriptor)
    → index_from_id registry r.active_id ≡ some (i, d)
    → state_at r i ≡ LifecycleState.failed
    → index_from_id registry id ≡ some (k, target)
    → (r.active_id == id && is_running (state_at r k)) ≡ false
not_running registry r i k id d target e h f = elim (Bool-cases (r.active_id == id)) [
  | inl g ↦
      let found = sym e ∙ ap (index_from_id registry) (==→eq r.active_id id g) ∙ f in
      let same : i ≡ k = cc in ground (arith, h, same)
  | inr g ↦ rw g refl
]

-- An owner that has failed keeps the display: nothing can be started in its place.
failed_owner_stays :
    (registry : List Descriptor) (r : Runtime) (i : ℕ) (d : Descriptor)
    → index_from_id registry r.active_id ≡ some (i, d)
    → r.active_id ≢ 0
    → state_at r i ≡ LifecycleState.failed
    → (id : ℕ) (services : Option Services) → start registry r id services ≡ (r, false)
unfolding start
failed_owner_stays registry r i d e z h id none = refl
failed_owner_stays registry r i d e z h id (some services) =
    elim (Option-cases (index_from_id registry id)) [
      | inl f ↦ rw f (ground arith)
      | inr (found, f) ↦
          rw (f, not_running registry r i found.0 id d found.1 e h f)
            (ground (arith, not_replaced registry r i d e z h found.0 id found.1 services))
    ]

-- A runtime whose display the failed application at an index keeps.
pub record IsStuck (registry : List Descriptor) (r s : Runtime) (i : ℕ) : Type 0 where
  pub failed : state_at s i ≡ LifecycleState.failed
  pub owner : s.active_id ≡ r.active_id
  pub counted : s.fault_count ≡ counter_increment r.fault_count
  pub refused : (id : ℕ) (services : Option Services) → start registry s id services ≡ (s, false)

-- The owner at an index runs, and its stop callback fails when another application that has not
-- failed is started: the call fails, with one fault counted; the owner is failed and stays the owner;
-- and from then on every start is refused and changes nothing.
pub start_stop_failure :
    (registry : List Descriptor) (r : Runtime) (i k id : ℕ) (d target : Descriptor)
    (services : Services)
    → r.initialized ≡ true
    → i < length r.states
    → r.active_id ≢ 0
    → id ≢ r.active_id
    → index_from_id registry r.active_id ≡ some (i, d)
    → index_from_id registry id ≡ some (k, target)
    → state_at r i ≡ LifecycleState.running
    → is_failed (state_at r k) ≡ false
    → succeeds d.stop services ≡ false
    → ((start registry r id (some services)).1 ≡ false)
      × IsStuck registry r (start registry r id (some services)).0 i
unfolding start replace_owner release_owner stop_owner
start_stop_failure registry r i k id d target services a b c n e f g h l = rw stops (refl, stuck)
  where
    s : Runtime
    s = fault (with_state (with_state r i LifecycleState.stopping) i LifecycleState.failed)

    stops : start registry r id (some services) ≡ (s, false)
    stops = rw (f, h, e, g, l) (ground arith)

    bad : state_at s i ≡ LifecycleState.failed
    bad =
        get_or-set_self (set r.states i LifecycleState.stopping) i LifecycleState.failed
          LifecycleState.registered (rw (length-set r.states i LifecycleState.stopping) b)

    stuck : IsStuck registry r s i
    stuck = record {
      failed = bad;
      owner = refl;
      counted = refl;
      refused = failed_owner_stays registry s i d e c bad;
    }
