-- ===== src/AssetPersistence/Ends.antt =====
-- What the outcomes of an action leave, action by action.
use deus_os_stm.Common.{ℕ, ◌≡◌, refl, Bool, true, false, if◌then◌else◌, if_intro, arith}
use deus_os_stm.FlashPersistence.{Chip, program_halfword}
use deus_os_stm.AssetPersistence.Record.{Result, is_ok}
use deus_os_stm.AssetPersistence.State.{
  Persistence, Outcome, returned, reset, Action, pure, bind, ◌>>◌, ◌then◌, candidate_reset,
  or_reset, checkpoint, program,
}
use deus_os_stm.AssetPersistence.Candidate.{abort_candidate}

-- What an outcome leaves: one predicate where it returns, one where the processor is reset.
abbrev pub Ends {ℓ} :
    {A : Type 0} → (A → Persistence → Type ℓ) → (Persistence → Type ℓ) → Outcome A → Type ℓ
Ends P R (returned a p) = P a p
Ends P R (reset p) = R p

pub Ends-bind {ℓ} :
    {A B : Type 0} {P : A → Persistence → Type ℓ} (Q : B → Persistence → Type ℓ)
    (R : Persistence → Type ℓ) (o : Outcome A) (f : A → Action B)
    → Ends P R o
    → ((a : A) (p : Persistence) → P a p → Ends Q R (f a p))
    → Ends Q R (bind o f)
Ends-bind Q R (returned a p) f h k = k a p h
Ends-bind Q R (reset p) f h k = h

pub Ends-then {ℓ} :
    {P : Result → Persistence → Type ℓ} (Q : Result → Persistence → Type ℓ)
    (R : Persistence → Type ℓ) (o : Outcome Result) (m : Action Result)
    → Ends P R o
    → ((p : Persistence) → P Result.ok p → Ends Q R (m p))
    → ((r : Result) (p : Persistence) → is_ok r ≡ false → P r p → Q r p)
    → Ends Q R (bind o (λ r. if is_ok r then m else pure r))
Ends-then Q R (returned Result.ok p) m h k l = k p h
Ends-then Q R (returned Result.unchanged p) m h k l = l Result.unchanged p refl h
Ends-then Q R (returned Result.bad_state p) m h k l = l Result.bad_state p refl h
Ends-then Q R (returned Result.crc_mismatch p) m h k l = l Result.crc_mismatch p refl h
Ends-then Q R (returned Result.validation_failed p) m h k l = l Result.validation_failed p refl h
Ends-then Q R (returned Result.storage_error p) m h k l = l Result.storage_error p refl h
Ends-then Q R (returned Result.wear_budget_exhausted p) m h k l =
    l Result.wear_budget_exhausted p refl h
Ends-then Q R (reset p) m h k l = h

Ends-stored {ℓ} :
    (Q : Result → Persistence → Type ℓ) (R : Persistence → Type ℓ) (done : Bool) (p : Persistence)
    (m : Action Result)
    → (done ≡ true → Ends Q R (m p))
    → Q Result.storage_error p
    → Ends Q R (
        bind
          (returned (if done then Result.ok else Result.storage_error) p)
          (λ r. if is_ok r then m else pure r))
Ends-stored Q R true p m h k = h refl
Ends-stored Q R false p m h k = k

pub Ends-map {ℓ ℓ'} :
    {A : Type 0} {P : A → Persistence → Type ℓ} {R : Persistence → Type ℓ}
    (Q : A → Persistence → Type ℓ') (S : Persistence → Type ℓ') (o : Outcome A)
    → ((a : A) (p : Persistence) → P a p → Q a p)
    → ((p : Persistence) → R p → S p)
    → Ends P R o
    → Ends Q S o
Ends-map Q S (returned a p) f g h = f a p h
Ends-map Q S (reset p) f g h = g p h

-- Each branch under what its test says.
pub Ends-if {ℓ} :
    {A : Type 0} (Q : A → Persistence → Type ℓ) (R : Persistence → Type ℓ) (b : Bool)
    (o o' : Outcome A)
    → (b ≡ true → Ends Q R o)
    → (b ≡ false → Ends Q R o')
    → Ends Q R (if b then o else o')
Ends-if Q R true o o' h k = h refl
Ends-if Q R false o o' h k = k refl

pub Ends-if-action {ℓ} :
    {A : Type 0} (Q : A → Persistence → Type ℓ) (R : Persistence → Type ℓ) (b : Bool)
    (m m' : Action A) (p : Persistence)
    → Ends Q R (m p)
    → Ends Q R (m' p)
    → Ends Q R ((if b then m else m') p)
Ends-if-action Q R true m m' p h k = h
Ends-if-action Q R false m m' p h k = k

-- A halfword that is programmed: what follows, or a storage error.
pub Ends-program {ℓ} :
    (chip : Chip) (Q : Result → Persistence → Type ℓ) (R : Persistence → Type ℓ) (at value : ℕ)
    (m : Action Result) (p : Persistence)
    → ((program_halfword chip p.flash at value).0 ≡ true
        → Ends Q R (m (record p { flash = (program_halfword chip p.flash at value).1 })))
    → Q Result.storage_error (record p { flash = (program_halfword chip p.flash at value).1 })
    → Ends Q R ((program chip at value then m) p)
Ends-program chip Q R at value m p h k =
    Ends-stored Q R (program_halfword chip p.flash at value).0
      (record p { flash = (program_halfword chip p.flash at value).1 }) m h k

-- What follows a checkpoint, which changes nothing but the control word.
pub Ends-checkpoint {ℓ} :
    {A : Type 0} (Q : A → Persistence → Type ℓ) (R : Persistence → Type ℓ) (id : ℕ)
    (p : Persistence) (m : Action A)
    → R (record p { fault_injection_control = 0 })
    → Ends Q R (m p)
    → Ends Q R ((checkpoint id >> m) p)
unfolding checkpoint
Ends-checkpoint Q R id p m h k =
    if_intro (λ o. Ends Q R (bind o (λ _. m))) _ (returned tt p)
      (reset (record p { fault_injection_control = 0 })) (λ _. k) (λ _. h)

-- One predicate for the result OK, one for the others.
abbrev pub OkElse {ℓ} :
    (Persistence → Type ℓ) → (Persistence → Type ℓ) → Result → Persistence → Type ℓ
OkElse P N Result.ok p = P p
OkElse P N _ p = N p

module _ {ℓ} (P N : Persistence → Type ℓ) where
  pub OkElse-else : (r : Result) (p : Persistence) → is_ok r ≡ false → N p → OkElse P N r p
  OkElse-else Result.ok p e h = absurd (ground arith)
  OkElse-else Result.unchanged p e h = h
  OkElse-else Result.bad_state p e h = h
  OkElse-else Result.crc_mismatch p e h = h
  OkElse-else Result.validation_failed p e h = h
  OkElse-else Result.storage_error p e h = h
  OkElse-else Result.wear_budget_exhausted p e h = h

  pub OkElse-any : (r : Result) (p : Persistence) → P p → N p → OkElse P N r p
  OkElse-any Result.ok p h k = h
  OkElse-any Result.unchanged p h k = k
  OkElse-any Result.bad_state p h k = k
  OkElse-any Result.crc_mismatch p h k = k
  OkElse-any Result.validation_failed p h k = k
  OkElse-any Result.storage_error p h k = k
  OkElse-any Result.wear_budget_exhausted p h k = k

  pub OkElse-instead :
      (N' : Persistence → Type ℓ) (r : Result) (p : Persistence)
      → OkElse P N r p
      → N' p
      → OkElse P N' r p
  OkElse-instead N' Result.ok p h k = h
  OkElse-instead N' Result.unchanged p h k = k
  OkElse-instead N' Result.bad_state p h k = k
  OkElse-instead N' Result.crc_mismatch p h k = k
  OkElse-instead N' Result.validation_failed p h k = k
  OkElse-instead N' Result.storage_error p h k = k
  OkElse-instead N' Result.wear_budget_exhausted p h k = k

  pub OkElse-map {ℓ'} :
      (P' N' : Persistence → Type ℓ')
      → ((p : Persistence) → P p → P' p)
      → ((p : Persistence) → N p → N' p)
      → (r : Result) (p : Persistence) → OkElse P N r p
      → OkElse P' N' r p
  OkElse-map P' N' f g Result.ok p h = f p h
  OkElse-map P' N' f g Result.unchanged p h = g p h
  OkElse-map P' N' f g Result.bad_state p h = g p h
  OkElse-map P' N' f g Result.crc_mismatch p h = g p h
  OkElse-map P' N' f g Result.validation_failed p h = g p h
  OkElse-map P' N' f g Result.storage_error p h = g p h
  OkElse-map P' N' f g Result.wear_budget_exhausted p h = g p h

  -- An action that follows an action.
  pub Ends-step :
      (P' R : Persistence → Type ℓ) (o : Outcome Result) (m : Action Result)
      → Ends (OkElse P N) R o
      → ((p : Persistence) → P p → Ends (OkElse P' N) R (m p))
      → Ends (OkElse P' N) R (bind o (λ r. if is_ok r then m else pure r))
  Ends-step P' R (returned Result.ok p) m h k = k p h
  Ends-step P' R (returned Result.unchanged p) m h k = h
  Ends-step P' R (returned Result.bad_state p) m h k = h
  Ends-step P' R (returned Result.crc_mismatch p) m h k = h
  Ends-step P' R (returned Result.validation_failed p) m h k = h
  Ends-step P' R (returned Result.storage_error p) m h k = h
  Ends-step P' R (returned Result.wear_budget_exhausted p) m h k = h
  Ends-step P' R (reset p) m h k = h

  -- A failure that gives the candidate up.
  pub Ends-or_reset :
      (R : Persistence → Type ℓ) (m : Action Result) (p : Persistence)
      → ((p : Persistence) → N p → N (abort_candidate p))
      → Ends (OkElse P N) R (m p)
      → Ends (OkElse P N) R (or_reset m p)
  Ends-or_reset R m p k h = given_up R (m p) k h
    where
      given_up :
          (R : Persistence → Type ℓ) (o : Outcome Result)
          → ((p : Persistence) → N p → N (abort_candidate p))
          → Ends (OkElse P N) R o
          → Ends
              (OkElse P N)
              R
              (bind o (λ r. if is_ok r then pure r else candidate_reset >> pure r))
      given_up R (returned Result.ok p) k h = h
      given_up R (returned Result.unchanged p) k h = k p h
      given_up R (returned Result.bad_state p) k h = k p h
      given_up R (returned Result.crc_mismatch p) k h = k p h
      given_up R (returned Result.validation_failed p) k h = k p h
      given_up R (returned Result.storage_error p) k h = k p h
      given_up R (returned Result.wear_budget_exhausted p) k h = k p h
      given_up R (reset p) k h = h

  -- A 0 of the driver is a storage error.
  pub Ends-driver :
      (R : Persistence → Type ℓ) (done : Bool) (p : Persistence)
      → (done ≡ true → P p)
      → (done ≡ false → N p)
      → Ends (OkElse P N) R (returned (if done then Result.ok else Result.storage_error) p)
  Ends-driver R true p h k = h refl
  Ends-driver R false p h k = k refl

  -- Two facts on one outcome: the second holds with the result OK only.
  pub Ends-both :
      (P' N' R R' : Persistence → Type ℓ) (o : Outcome Result)
      → Ends (OkElse P N) R o
      → Ends (OkElse P' N') R' o
      → Ends (OkElse (λ p. P p × P' p) N) R o
  Ends-both P' N' R R' (returned Result.ok p) h k = (h, k)
  Ends-both P' N' R R' (returned Result.unchanged p) h k = h
  Ends-both P' N' R R' (returned Result.bad_state p) h k = h
  Ends-both P' N' R R' (returned Result.crc_mismatch p) h k = h
  Ends-both P' N' R R' (returned Result.validation_failed p) h k = h
  Ends-both P' N' R R' (returned Result.storage_error p) h k = h
  Ends-both P' N' R R' (returned Result.wear_budget_exhausted p) h k = h
  Ends-both P' N' R R' (reset p) h k = h
