-- ===== src/AssetPersistence/Ambiguous.antt =====
-- Both slots hold a record of the generation 2, with different payloads. The start-up then takes
-- neither, and the next commit begins again with the generation 1.
use deus_os_stm.Common.{ℕ, ◌+◌, ◌≡◌, refl, ◌&&◌, some, List, [], ◌∷◌, leb, ltb, if◌then◌else◌}
use deus_os_stm.FlashPersistence.{
  Bytes, execute, run_operation, wait_ready, is_blank, erase_page, program_halfword, page_size,
  slot_a_address, slot_b_address,
}
use deus_os_stm.FlashPersistence.Examples.{chip}
use deus_os_stm.AssetPersistence.Layout.{set_console, config_validate}
use deus_os_stm.AssetPersistence.Record.{
  Result, boot_record, is_ambiguous, validate_record, header_ok, reserved_ok, crc32_flash,
  crc32_over, crc32_update, crc32_rounds, crc32_round,
}
use deus_os_stm.AssetPersistence.State.{
  Persistence, memory_of, Outcome, ◌then◌, checkpoint, select_boot_record, init,
}
use deus_os_stm.AssetPersistence.Candidate.{
  begin_candidate, start_changed, prepare_slot, program_words, program_payload, write_candidate,
  write_pairs, write_payload_bytes, write_compared, write_changed, copy_pairs, first_difference,
  commit_candidate, seal_candidate, publish_candidate, program_header_crc, adopted,
}
use deus_os_stm.AssetPersistence.Examples.{empty, after, result_of}

-- A console at the column `x`, delivered with its checksum.
abbrev console : ℕ → List ℕ
console x = 1 ∷ x ∷ 10 ∷ 100 ∷ 20 ∷ 0 ∷ 0 ∷ 0 ∷ []

abbrev put : ℕ → ℕ → Persistence → Outcome Result
put crc x =
    begin_candidate chip crc then (write_candidate chip (console x) then commit_candidate chip)

abbrev one : Persistence
one = after (put 0x2c45fcfd 2 empty)

abbrev two : Persistence
two = after (put 0x8a32f749 3 one)

abbrev other : Persistence
other = after (put 0x4f95c9c7 4 one)

-- The slot A holds what `other` has in its slot B.
abbrev doubled : Bytes
doubled a =
    if leb slot_a_address a && ltb a (slot_a_address + page_size)
    then memory_of other (a + page_size)
    else memory_of two a

abbrev start : Persistence
start = init (record two { flash = record two.flash { memory = doubled } })

abbrev stored : Outcome Result
stored = put 0xe9e2c273 5 start

stored-ok : result_of stored ≡ some Result.ok
unfolding begin_candidate start_changed prepare_slot program_words program_payload write_candidate
    write_pairs write_payload_bytes write_compared write_changed copy_pairs first_difference
    commit_candidate seal_candidate publish_candidate program_header_crc adopted checkpoint execute
    run_operation wait_ready is_blank erase_page program_halfword validate_record header_ok
    reserved_ok crc32_flash crc32_over crc32_update crc32_rounds crc32_round config_validate
    set_console select_boot_record boot_record is_ambiguous
stored-ok = refl

-- The slot A is committed, and active.
stored-active : (after stored).active_record.slot_address ≡ slot_a_address
unfolding begin_candidate start_changed prepare_slot program_words program_payload write_candidate
    write_pairs write_payload_bytes write_compared write_changed copy_pairs first_difference
    commit_candidate seal_candidate publish_candidate program_header_crc adopted checkpoint execute
    run_operation wait_ready is_blank erase_page program_halfword validate_record header_ok
    reserved_ok crc32_flash crc32_over crc32_update crc32_rounds crc32_round config_validate
    set_console select_boot_record boot_record is_ambiguous
stored-active = refl

-- The next start-up takes the older record of the slot B.
next_start :
    boot_record (memory_of (after stored))
    ≡ some (record { slot_address = slot_b_address; generation = 2; payload_crc32 = 0x8a32f749 })
unfolding begin_candidate start_changed prepare_slot program_words program_payload write_candidate
    write_pairs write_payload_bytes write_compared write_changed copy_pairs first_difference
    commit_candidate seal_candidate publish_candidate program_header_crc adopted checkpoint execute
    run_operation wait_ready is_blank erase_page program_halfword validate_record header_ok
    reserved_ok crc32_flash crc32_over crc32_update crc32_rounds crc32_round config_validate
    set_console select_boot_record boot_record is_ambiguous
next_start = refl
