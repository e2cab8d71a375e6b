-- ===== src/AssetPersistence/State.antt =====
-- The state of asset_persistence.c, its actions, and the start-up. An action returns or, at a fault
-- checkpoint that is armed, resets the processor: then only the flash survives. A `result` other than
-- OK ends a function early.
use deus_os_stm.Common.{
  ℕ, ◌+◌, ◌%◌, Bool, false, ◌||◌, Option, none, some, ◌!=◌, if◌then◌else◌, bit_and, u32_mod,
}
use deus_os_stm.FlashPersistence.{Bytes, Chip, Flash, erase_page, program_halfword}
use deus_os_stm.AssetPersistence.Layout.{Layout, config_activate}
use deus_os_stm.AssetPersistence.Record.{
  Result, Record, is_ok, boot_record, is_ambiguous, offset_payload,
}

-- `asset_candidate_state_t`
pub record Candidate : Type 0 where
  pub slot_address : ℕ
  pub generation : ℕ
  pub payload_crc32 : ℕ
  pub accepted_bytes : ℕ
  pub pending_byte : ℕ
  pub pending_valid : Bool
  pub compare_active : Bool
  pub active : Bool

-- The static variables, the diagnostics, the fault control word, the layout and the flash. No record
-- is active where `active_record.slot_address` is 0.
pub record Persistence : Type 0 where
  pub flash : Flash
  pub active_record : Record
  pub candidate : Candidate
  pub ambiguity_count : ℕ
  pub successful_commit_count : ℕ
  pub wear_policy_rejection_count : ℕ
  pub last_mutation_cycles : ℕ
  pub max_mutation_cycles : ℕ
  pub fault_injection_control : ℕ
  pub layout : Layout

pub data Outcome (A : Type 0) : Type 0 where
  returned : A → Persistence → Outcome A
  reset : Persistence → Outcome A

abbrev pub Action : Type 0 → Type 0
Action A = Persistence → Outcome A

abbrev pub memory_of : Persistence → Bytes
memory_of p = p.flash.memory

module _ {A : Type 0} where
  abbrev pub pure : A → Action A
  pure a p = returned a p

  abbrev pub gets : (Persistence → A) → Action A
  gets f p = returned (f p) p

-- What follows an outcome.
abbrev pub bind : {A B : Type 0} → Outcome A → (A → Action B) → Outcome B
bind (returned a p) f = f a p
bind (reset p) f = reset p

infixl 5 ◌>>=◌ ◌>>◌
abbrev pub ◌>>=◌ : {A B : Type 0} → Action A → (A → Action B) → Action B
◌>>=◌ m f p = bind (m p) f

abbrev pub ◌>>◌ : {A B : Type 0} → Action A → Action B → Action B
m >> k = m >>= λ _. k

abbrev pub modify : (Persistence → Persistence) → Action (Unit {0})
modify f p = returned tt (f p)

abbrev pub update : (Candidate → Candidate) → Action (Unit {0})
update f = modify (λ p. record p { candidate = f p.candidate })

-- `if (result != OK) return result;`
infixl 5 ◌then◌
abbrev pub ◌then◌ : Action Result → Action Result → Action Result
m then k = m >>= λ r. if is_ok r then k else pure r

-- `asset_candidate_reset`
abbrev pub candidate_reset : Action (Unit {0})
candidate_reset = update (λ c. record c { active = false })

-- A failure that gives the candidate up.
abbrev pub or_reset : Action Result → Action Result
or_reset m = m >>= λ r. if is_ok r then pure r else candidate_reset >> pure r

-- `asset_persistence_fault_checkpoint`
unfoldable pub checkpoint : ℕ → Action (Unit {0})
checkpoint id p =
    if bit_and p.fault_injection_control 0xFFFFFF00 != 0xA55A0000
      || p.fault_injection_control % 256 != id
    then returned tt p
    else reset (record p { fault_injection_control = 0 })

-- `flash_persistence_program_halfword` and `flash_persistence_erase_page` with 0 as a storage error.
abbrev pub stored : Persistence → Bool × Flash → Outcome Result
stored p r = returned (if r.0 then Result.ok else Result.storage_error) (record p { flash = r.1 })

abbrev pub program : Chip → ℕ → ℕ → Action Result
program chip address value p = stored p (program_halfword chip p.flash address value)

abbrev pub erase : Chip → ℕ → Action Result
erase chip page p = stored p (erase_page chip p.flash page)

abbrev pub is_active : Persistence → Bool
is_active p = p.active_record.slot_address != 0

-- The layout of the active record's payload.
abbrev pub activated : Persistence → Persistence
activated p = record p {
  layout = config_activate p.layout (memory_of p) (p.active_record.slot_address + offset_payload);
}

abbrev pub selected : Persistence → Option Record → Persistence
selected p none = record p { active_record = record p.active_record { slot_address = 0 } }
selected p (some r) = activated (record p { active_record = r })

-- `asset_select_boot_record`
unfoldable pub select_boot_record : Persistence → Persistence
select_boot_record p =
    let n =
      if is_ambiguous (memory_of p) then (p.ambiguity_count + 1) % u32_mod else p.ambiguity_count in
    selected (record p { ambiguity_count = n }) (boot_record (memory_of p))

-- `asset_persistence_init`, which also starts the cycle counter.
abbrev pub init : Persistence → Persistence
init = select_boot_record

-- `asset_persistence_active_record`
abbrev pub active_record_get : Persistence → Option Record
active_record_get p = if is_active p then some p.active_record else none
