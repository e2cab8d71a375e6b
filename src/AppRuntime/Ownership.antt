-- ===== src/AppRuntime/Ownership.antt =====
-- Who owns the display: the relation of `active_id` to the states of the applications.
pub mod Start
pub mod Reachable
use deus_os_stm.Common.{
  ℕ, zero, suc, ◌+◌, Bool, true, false, ◌&&◌, ◌||◌, not, Option, none, some, List, [], ◌∷◌, get_or,
  set, length, ◌==◌, ◌!=◌, if◌then◌else◌, ◌≡◌, ◌≢◌, refl, sym, ap, ◌∙◌, subst, arith, if_intro,
  get_or-set_ne, get_or-set_self, ==→eq, ◌⊎◌, inl, inr, Option-cases, ◌<◌, ◌≤◌, Bool-cases,
  ==-false→ne, bit_and,
}
use deus_os_stm.AppRuntime.View.{View, view_clear, view_equal}
use deus_os_stm.AppRuntime.Runtime.{
  LifecycleState, is_running, is_failed, is_stopped, Event, Services, Descriptor, Runtime,
  system_home, counter_increment, search, index_from_id, state_at, with_state, fault,
}
use deus_os_stm.AppRuntime.Operations.{
  if_found, handle_event, rendered, render_with, render_active, succeeds, launched,
  start_home_fallback, stop_owner, start_target, release_owner, replace_owner, start, stop,
  dispatch_event, service, reset, initialize_from, initialize, apply_effects, noted,
}

-- The application at an index that runs is the active one.
pub IsOwned : List Descriptor → Runtime → Type 0
IsOwned registry r =
    (j : ℕ)
    → is_running (state_at r j) ≡ true
    → (d : Descriptor) × (index_from_id registry r.active_id ≡ some (j, d))

-- No application runs.
pub IsQuiet : Runtime → Type 0
IsQuiet r = (j : ℕ) → is_running (state_at r j) ≡ true → ⊥

pub quiet-IsOwned : (registry : List Descriptor) (r : Runtime) → IsQuiet r → IsOwned registry r
unfolding IsQuiet IsOwned
quiet-IsOwned registry r q j e = absurd (q j e)

-- Only the states and the owner count.
pub IsOwned-same :
    (registry : List Descriptor) (r s : Runtime)
    → s.states ≡ r.states
    → s.active_id ≡ r.active_id
    → IsOwned registry r
    → IsOwned registry s
unfolding IsOwned
IsOwned-same registry r s e f v j g =
    let found = v j (ap (λ l. is_running (get_or l j LifecycleState.registered)) (sym e) ∙ g) in
    (found.0, ap (index_from_id registry) f ∙ found.1)

-- A write of a state.
pub running-set :
    (states : List LifecycleState) (i j : ℕ) (state : LifecycleState)
    → is_running (get_or (set states i state) j LifecycleState.registered) ≡ true
    → ((i ≡ j) × (is_running state ≡ true))
      ⊎ ((i ≢ j) × (is_running (get_or states j LifecycleState.registered) ≡ true))
running-set [] i j state e = cc
running-set (x ∷ states) zero zero state e = inl (refl, e)
running-set (x ∷ states) zero (suc j) state e = inr (λ h. absurd (omega arith), e)
running-set (x ∷ states) (suc i) zero state e = inr (λ h. absurd (omega arith), e)
running-set (x ∷ states) (suc i) (suc j) state e = elim (running-set states i j state e) [
  | inl p ↦ inl (ap suc p.0, p.1)
  | inr q ↦ inr (λ h. q.0 (omega arith), q.1)
]

-- Rendering changes neither the states nor the owner.
rendered_same :
    (r : Runtime) (result : View × Bool)
    → ((rendered r result).0.states ≡ r.states) × ((rendered r result).0.active_id ≡ r.active_id)
unfolding rendered
rendered_same r (candidate, false) = ground arith
rendered_same r (candidate, true) = ground arith

render_with_same :
    (r : Runtime) (render : Option (View → Services → View × Bool)) (services : Services)
    → ((render_with r render services).0.states ≡ r.states)
      × ((render_with r render services).0.active_id ≡ r.active_id)
unfolding render_with
render_with_same r none services = (refl, refl)
render_with_same r (some render) services = rendered_same r (render view_clear services)

-- A property of what is done with an index that may have been found.
pub if_found_intro {κ} :
    {A : Type 0} (P : A → Type κ) (o : Option (ℕ × Descriptor)) (absent : A)
    (present : ℕ → Descriptor → A)
    → P absent
    → ((i : ℕ) (d : Descriptor) → o ≡ some (i, d) → P (present i d))
    → P (if_found o absent present)
if_found_intro P none absent present h k = h
if_found_intro P (some (i, d)) absent present h k = k i d refl

render_active_same :
    (registry : List Descriptor) (r : Runtime) (services : Services)
    → ((render_active registry r services).0.states ≡ r.states)
      × ((render_active registry r services).0.active_id ≡ r.active_id)
unfolding render_active
render_active_same registry r services =
    if_found_intro (λ (p : Runtime × Bool). (p.0.states ≡ r.states) × (p.0.active_id ≡ r.active_id))
      (index_from_id registry r.active_id) _ _ (refl, refl)
      (λ i d _. ground (arith, render_with_same r d.render services))

pub render_active-IsOwned :
    (registry : List Descriptor) (r : Runtime) (services : Services)
    → IsOwned registry r
    → IsOwned registry (render_active registry r services).0
render_active-IsOwned registry r services v =
    let same = render_active_same registry r services in IsOwned-same registry r _ same.0 same.1 v

-- A write of a state other than running keeps quiet.
pub set-IsQuiet :
    (r : Runtime) (i : ℕ) (state : LifecycleState)
    → is_running state ≡ false
    → IsQuiet r
    → IsQuiet (with_state r i state)
unfolding IsQuiet
set-IsQuiet r i state e q j g = elim (running-set r.states i j state g) [
  | inl p ↦ cc
  | inr h ↦ q j h.1
]

pub set-IsOwned :
    (registry : List Descriptor) (r : Runtime) (i : ℕ) (state : LifecycleState)
    → is_running state ≡ false
    → IsOwned registry r
    → IsOwned registry (with_state r i state)
unfolding IsOwned
set-IsOwned registry r i state e v j g = elim (running-set r.states i j state g) [
  | inl p ↦ cc
  | inr h ↦ v j h.1
]

pub launched-IsOwned :
    (registry : List Descriptor) (r : Runtime) (index id : ℕ) (d : Descriptor) (services : Services)
    → index_from_id registry id ≡ some (index, d)
    → IsQuiet r
    → IsOwned registry (launched registry r index id services).0
unfolding IsOwned IsQuiet
launched-IsOwned registry r index id d services e q =
    render_active-IsOwned registry _ services owned
  where
    owned : IsOwned registry (record (with_state r index LifecycleState.running) { active_id = id })
    owned j g = elim (running-set r.states index j LifecycleState.running g) [
      | inl p ↦ (d, rw (sym p.0) e)
      | inr h ↦ absurd (q j h.1)
    ]
