-- ===== src/AssetPersistence/Examples.antt =====
-- An asset that is stored twice on a flash that was empty, with a controller that always succeeds.
use deus_os_stm.Common.{
  ℕ, ◌⊎◌, inl, inr, ◌≡◌, refl, false, Option, none, some, List, [], ◌∷◌, if◌then◌else◌,
}
use deus_os_stm.FlashPersistence.{
  slot_a_address, slot_b_address, execute, run_operation, wait_ready, is_blank, erase_page,
  program_halfword,
}
use deus_os_stm.FlashPersistence.Examples.{chip, chip-IsChip, blank}
use deus_os_stm.AssetPersistence.Layout.{default_layout, set_console, config_validate}
use deus_os_stm.AssetPersistence.Record.{
  Result, boot_record, is_ambiguous, validate_record, header_ok, reserved_ok, crc32_flash,
  crc32_over, crc32_update, crc32_rounds, crc32_round,
}
use deus_os_stm.AssetPersistence.State.{
  init, active_record_get, Persistence, memory_of, Outcome, returned, reset, Action, ◌then◌,
  checkpoint,
}
use deus_os_stm.AssetPersistence.Candidate.{
  begin_candidate, start_changed, prepare_slot, program_words, program_payload, write_candidate,
  write_pairs, write_payload_bytes, write_compared, write_changed, copy_pairs, first_difference,
  commit_candidate, seal_candidate, publish_candidate, program_header_crc, adopted,
}
use deus_os_stm.AssetPersistence.Slots.{Agrees, IsPair}
use deus_os_stm.AssetPersistence.Ends.{Ends, OkElse}
use deus_os_stm.AssetPersistence.Staged.{IsStaged}
use deus_os_stm.AssetPersistence.Commit.{IsNewer, Chooses, Settles, commit_candidate-Settles}
use deus_os_stm.AssetPersistence.Booted.{IsBooted}
use deus_os_stm.AssetPersistence.Startup.{IsStarted, init-IsStarted}
use deus_os_stm.AssetPersistence.Underway.{refl-Agrees}
use deus_os_stm.AssetPersistence.Delivery.{IsOldOrNew, deliver, deliver-IsAtomic}
use deus_os_stm.AssetPersistence.Prepare.{FailedErase}

abbrev pub empty : Persistence
empty = record {
  flash = blank;
  active_record = record { slot_address = 0; generation = 0; payload_crc32 = 0 };
  candidate = record {
    slot_address = 0;
    generation = 0;
    payload_crc32 = 0;
    accepted_bytes = 0;
    pending_byte = 0;
    pending_valid = false;
    compare_active = false;
    active = false;
  };
  ambiguity_count = 0;
  successful_commit_count = 0;
  wear_policy_rejection_count = 0;
  last_mutation_cycles = 0;
  max_mutation_cycles = 0;
  fault_injection_control = 0;
  layout = default_layout;
}

abbrev pub payload : List ℕ
payload = 1 ∷ 2 ∷ 10 ∷ 100 ∷ 20 ∷ 0 ∷ 0 ∷ 0 ∷ []

abbrev pub payload_crc : ℕ
payload_crc = 0x2c45fcfd

-- The whole transfer, in two chunks.
abbrev store : ℕ → List ℕ → List ℕ → Action Result
store crc first second =
    begin_candidate chip crc
    then (write_candidate chip first then (write_candidate chip second then commit_candidate chip))

abbrev pub after : Outcome Result → Persistence
after (returned r p) = p
after (reset p) = p

abbrev pub result_of : Outcome Result → Option Result
result_of (returned r p) = some r
result_of (reset p) = none

abbrev stored_once : Outcome Result
stored_once = store payload_crc (1 ∷ 2 ∷ 10 ∷ []) (100 ∷ 20 ∷ 0 ∷ 0 ∷ 0 ∷ []) empty

once : result_of stored_once ≡ some Result.ok
unfolding begin_candidate start_changed prepare_slot program_words program_payload write_candidate
    write_pairs write_payload_bytes write_compared write_changed copy_pairs first_difference
    commit_candidate seal_candidate publish_candidate program_header_crc adopted checkpoint execute
    run_operation wait_ready is_blank erase_page program_halfword validate_record header_ok
    reserved_ok crc32_flash crc32_over crc32_update crc32_rounds crc32_round config_validate
    set_console
once = refl

empty-IsBooted : IsBooted empty
unfolding boot_record is_ambiguous validate_record header_ok
empty-IsBooted = record { chosen = refl; clear = refl }

deliver-IsAtomic_example :
    Ends
      (OkElse
        (λ p'.
          (boot_record (memory_of p') ≡ some p'.active_record) × (p'.active_record.generation ≡ 1))
        (λ p'.
          Agrees (memory_of empty) (memory_of p') slot_b_address
          × (IsOldOrNew empty p' ⊎ FailedErase chip (memory_of empty) slot_a_address p')))
      (IsOldOrNew empty)
      (deliver chip chip-IsChip payload_crc (payload ∷ []) empty)
deliver-IsAtomic_example =
    deliver-IsAtomic chip chip-IsChip payload_crc (payload ∷ []) empty empty-IsBooted

-- The state before the commit of the same delivery.
abbrev written : Persistence
written = after ((begin_candidate chip payload_crc then write_candidate chip payload) empty)

written-IsStaged : IsStaged (memory_of written) slot_b_address slot_a_address 1 written
unfolding begin_candidate start_changed prepare_slot program_words program_payload write_candidate
    write_pairs write_payload_bytes checkpoint execute run_operation wait_ready is_blank erase_page
    program_halfword
written-IsStaged = record {
  kept = refl-Agrees (memory_of written) slot_b_address;
  generation = refl;
  at_slot = refl;
}

written-IsNewer : IsNewer (memory_of written) slot_b_address 1
unfolding begin_candidate start_changed prepare_slot program_words program_payload write_candidate
    write_pairs write_payload_bytes checkpoint execute run_operation wait_ready is_blank erase_page
    program_halfword validate_record header_ok
written-IsNewer = inl refl

slots-IsPair : IsPair slot_b_address slot_a_address
unfolding IsPair
slots-IsPair = inr (refl, refl)

commit_candidate-Settles_example :
    Ends
      (Settles chip chip-IsChip (memory_of written) slot_b_address slot_a_address 1 slots-IsPair)
      (λ p'. Chooses (memory_of written) slot_b_address slot_a_address 1 (memory_of p'))
      (commit_candidate chip written)
commit_candidate-Settles_example =
    commit_candidate-Settles chip chip-IsChip (memory_of written) slot_b_address slot_a_address 1
      slots-IsPair written-IsNewer written written-IsStaged

-- The start-up from a flash with an asset in the slot A.
init-IsStarted_example :
    IsStarted
      (memory_of (after stored_once))
      (after stored_once).layout
      (after stored_once).ambiguity_count
      (active_record_get (init (after stored_once)))
      (init (after stored_once)).layout
      (init (after stored_once)).ambiguity_count
    × (memory_of (init (after stored_once)) ≡ memory_of (after stored_once))
init-IsStarted_example = init-IsStarted (after stored_once)
