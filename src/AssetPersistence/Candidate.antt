-- ===== src/AssetPersistence/Candidate.antt =====
-- How a candidate is begun, written and committed.
use deus_os_stm.Common.{
  ℕ, zero, suc, ◌+◌, ◌-◌, ◌*◌, ◌/◌, ◌%◌, Bool, true, false, ◌&&◌, ◌||◌, not, Option, none, some,
  List, [], ◌∷◌, length, drop, ltb, leb, ◌==◌, ◌!=◌, if◌then◌else◌, u16_mod, u32_mod,
}
use deus_os_stm.FlashPersistence.{Bytes, Chip, read_u16, slot_a_address, slot_b_address}
use deus_os_stm.AssetPersistence.Layout.{config_bytes}
use deus_os_stm.AssetPersistence.Record.{
  Result, commit_marker, generation_max, offset_header_crc, offset_marker, offset_payload,
  crc32_flash, validate_record, record_at,
}
use deus_os_stm.AssetPersistence.State.{
  Candidate, Persistence, returned, Action, memory_of, pure, ◌>>◌, modify, update, ◌then◌,
  candidate_reset, or_reset, checkpoint, program, erase, is_active, activated,
}

-- `asset_persistence_read_active`: the bytes that are written to the destination. `size` is the
-- length asked for; a null destination stands for `has_destination` false.
unfoldable pub bytes_from : Bytes → ℕ → ℕ → List ℕ
bytes_from m at zero = []
bytes_from m at (suc n) = m at ∷ bytes_from m (at + 1) n

unfoldable pub read_active : Persistence → ℕ → Bool → ℕ → Option (List ℕ)
read_active p offset has_destination size =
    if not (is_active p)
      || (not has_destination && size != 0)
      || ltb config_bytes offset
      || ltb (config_bytes - offset) size
    then none
    else some
        (bytes_from (memory_of p) (p.active_record.slot_address + offset_payload + offset) size)

-- The twelve halfwords of `asset_program_metadata`.
abbrev pub metadata_words : Candidate → List ℕ
metadata_words c =
    0x4544
    ∷ 0x5355
    ∷ 0x0101
    ∷ 1
    ∷ 64
    ∷ 8
    ∷ (c.generation % u16_mod)
    ∷ (c.generation / u16_mod % u16_mod)
    ∷ (c.payload_crc32 % u16_mod)
    ∷ (c.payload_crc32 / u16_mod % u16_mod)
    ∷ 0
    ∷ 0
    ∷ []

abbrev pub next_slot : Persistence → ℕ
next_slot p =
    if is_active p && p.active_record.slot_address == slot_a_address
    then slot_b_address
    else slot_a_address

abbrev pub next_generation : Persistence → ℕ
next_generation p = if is_active p then p.active_record.generation + 1 else 1

module _ (chip : Chip) where
  -- A loop of program operations.
  unfoldable pub program_words : ℕ → List ℕ → Action Result
  program_words at [] p = returned Result.ok p
  program_words at (w ∷ words) p = (program chip at w then program_words (at + 2) words) p

  -- `asset_program_metadata`
  abbrev pub program_metadata : Action Result
  program_metadata p = program_words p.candidate.slot_address (metadata_words p.candidate) p

  abbrev pub started : Persistence → Persistence
  started p = record p {
    candidate = record p.candidate {
      slot_address = next_slot p;
      generation = next_generation p;
      accepted_bytes = 0;
      pending_valid = false;
      compare_active = false;
    };
    last_mutation_cycles = chip.cycle_count p.flash.runs;
  }

  abbrev pub erase_candidate : Action Result
  erase_candidate p = or_reset (erase chip p.candidate.slot_address) p

  -- `asset_start_changed` after the wear test.
  unfoldable pub prepare_slot : Action Result
  prepare_slot =
      (checkpoint 1 >> erase_candidate)
      then ((checkpoint 2 >> or_reset program_metadata) then (checkpoint 3 >> pure Result.ok))

  -- `asset_start_changed`
  unfoldable pub start_changed : Action Result
  start_changed p =
      if is_active p && leb generation_max p.active_record.generation
      then returned Result.wear_budget_exhausted
          (record p { wear_policy_rejection_count = (p.wear_policy_rejection_count + 1) % u32_mod })
      else prepare_slot (started p)

  -- `asset_persistence_begin_candidate`
  unfoldable pub begin_candidate : ℕ → Action Result
  begin_candidate payload_crc32 p =
      let q = record p {
        candidate = record p.candidate { payload_crc32 = payload_crc32; active = true };
      } in
      if p.candidate.active
      then returned Result.bad_state p
      else if is_active p && p.active_record.payload_crc32 == payload_crc32
      then returned Result.ok (record q {
        candidate = record q.candidate {
          accepted_bytes = 0;
          pending_valid = false;
          compare_active = true;
        };
      })
      else start_changed q

  -- `asset_program_payload_halfword`
  unfoldable pub program_payload : ℕ → ℕ → Action Result
  program_payload offset value p =
      (program chip (p.candidate.slot_address + offset_payload + offset) value
          then (if offset == 0 then checkpoint 4 >> pure Result.ok else pure Result.ok))
        p

  abbrev pub accept : ℕ → Action (Unit {0})
  accept n = update (λ c. record c { accepted_bytes = (c.accepted_bytes + n) % u16_mod })

  abbrev pub keep_byte : ℕ → Action (Unit {0})
  keep_byte byte = update (λ c. record c {
    pending_byte = byte;
    pending_valid = true;
    accepted_bytes = (c.accepted_bytes + 1) % u16_mod;
  })

  -- The loop of `asset_write_payload_bytes` over pairs of bytes, and its last byte.
  unfoldable pub write_pairs : List ℕ → Action Result
  write_pairs [] p = returned Result.ok p
  write_pairs (b ∷ []) p = (keep_byte b >> pure Result.ok) p
  write_pairs (b ∷ c ∷ bytes) p =
      (program_payload p.candidate.accepted_bytes (b + 256 * c)
          then (accept 2 >> write_pairs bytes))
        p

  abbrev pub pending_done : Action (Unit {0})
  pending_done =
      update
        (λ c. record c { pending_valid = false; accepted_bytes = (c.accepted_bytes + 1) % u16_mod })

  -- `asset_write_payload_bytes`
  unfoldable pub write_payload_bytes : List ℕ → Action Result
  write_payload_bytes [] p = returned Result.ok p
  write_payload_bytes (b ∷ bytes) p =
      if p.candidate.pending_valid
      then (program_payload ((p.candidate.accepted_bytes + u16_mod - 1) % u16_mod)
              (p.candidate.pending_byte + 256 * b)
            then (pending_done >> write_pairs bytes))
          p
      else write_pairs (b ∷ bytes) p

  -- The index of the first byte that differs from the memory.
  unfoldable pub first_difference : Bytes → ℕ → List ℕ → ℕ → Option ℕ
  first_difference m at [] index = none
  first_difference m at (b ∷ bytes) index =
      let rest = first_difference m (at + 1) bytes (index + 1) in
      if m at != b then some index else rest

  -- The loop that copies the prefix that was equal, in pairs of bytes.
  unfoldable pub copy_pairs : ℕ → ℕ → Action Result
  copy_pairs zero prefix p = returned Result.ok p
  copy_pairs (suc n) prefix p =
      (or_reset (
            program_payload prefix
              (read_u16 (memory_of p) (p.active_record.slot_address + offset_payload + prefix)))
          then (accept 2 >> copy_pairs n (prefix + 2)))
        p

  -- Its odd last byte.
  abbrev pub copy_last : ℕ → Action (Unit {0})
  copy_last size p =
      if size % 2 == 1
      then keep_byte (memory_of p (p.active_record.slot_address + offset_payload + (size - 1))) p
      else returned tt p

  -- A changed asset after all: a new slot is started, with the prefix that was equal.
  unfoldable pub write_changed : ℕ → List ℕ → Action Result
  write_changed size bytes =
      start_changed
      then (copy_pairs (size / 2) 0 then (copy_last size >> write_payload_bytes bytes))

  -- The bytes are compared with the active record.
  unfoldable pub write_compared : List ℕ → Option ℕ → Action Result
  write_compared bytes none p = (accept (length bytes) >> pure Result.ok) p
  write_compared bytes (some index) p =
      write_changed ((p.candidate.accepted_bytes + index) % u16_mod) (drop index bytes) p

  -- `asset_persistence_write_candidate` for `length data` bytes that are there.
  unfoldable pub write_candidate : List ℕ → Action Result
  write_candidate bytes p =
      if not p.candidate.active || ltb config_bytes (p.candidate.accepted_bytes + length bytes)
      then returned Result.bad_state p
      else if p.candidate.compare_active
      then write_compared bytes
          (first_difference (memory_of p)
            (p.active_record.slot_address + offset_payload + p.candidate.accepted_bytes) bytes 0)
          p
      else write_payload_bytes bytes p

  -- `asset_program_header_crc`
  unfoldable pub program_header_crc : Action Result
  program_header_crc p =
      let slot = p.candidate.slot_address in
      let crc = crc32_flash (memory_of p) slot 24 in
      program_words (slot + offset_header_crc) (crc % u16_mod ∷ crc / u16_mod % u16_mod ∷ []) p

  abbrev pub validate_candidate : ℕ → Action Result
  validate_candidate marker p =
      returned (validate_record (memory_of p) p.candidate.slot_address marker) p

  -- The marker is programmed and read back.
  abbrev pub program_marker : Action Result
  program_marker p = program chip (p.candidate.slot_address + offset_marker) commit_marker p

  abbrev pub check_marker : Action Result
  check_marker p =
      returned
        (if read_u16 (memory_of p) (p.candidate.slot_address + offset_marker) != commit_marker
          then Result.storage_error
          else Result.ok)
        p

  abbrev pub elapsed_cycles : Persistence → ℕ
  elapsed_cycles p = (chip.cycle_count p.flash.runs + u32_mod - p.last_mutation_cycles) % u32_mod

  -- The candidate becomes the active record.
  unfoldable pub adopted : Persistence → Persistence
  adopted p =
      let q =
        activated (record p { active_record = record_at (memory_of p) p.candidate.slot_address }) in
      record q {
        last_mutation_cycles = elapsed_cycles p;
        max_mutation_cycles =
            if ltb p.max_mutation_cycles (elapsed_cycles p)
            then elapsed_cycles p
            else p.max_mutation_cycles;
        successful_commit_count = (p.successful_commit_count + 1) % u32_mod;
        candidate = record p.candidate { active = false };
      }

  -- `asset_persistence_commit_candidate` up to the marker.
  unfoldable pub seal_candidate : Action Result
  seal_candidate =
      (checkpoint 5 >> program_header_crc)
      then (validate_candidate 0xFFFF then (checkpoint 6 >> pure Result.ok))

  unfoldable pub publish_candidate : Action Result
  publish_candidate =
      program_marker
      then (check_marker
          then ((checkpoint 7 >> validate_candidate commit_marker)
              then (checkpoint 8 >> (modify adopted >> (checkpoint 9 >> pure Result.ok)))))

  -- `asset_persistence_commit_candidate`
  unfoldable pub commit_candidate : Action Result
  commit_candidate p =
      if not p.candidate.active || p.candidate.accepted_bytes != config_bytes
      then returned Result.bad_state p
      else if p.candidate.compare_active
      then (candidate_reset >> pure Result.unchanged) p
      else if p.candidate.pending_valid
      then returned Result.bad_state p
      else (seal_candidate then publish_candidate) p

-- `asset_persistence_abort_candidate`
abbrev pub abort_candidate : Persistence → Persistence
abort_candidate p = record p { candidate = record p.candidate { active = false } }
