-- ===== src/AssetPersistence/Record.antt =====
-- The records that a slot may hold: validation, and the choice between the slots at start-up.
use deus_os_stm.Common.{
  ℕ, zero, suc, ◌+◌, ◌*◌, ◌/◌, Bool, true, false, ◌&&◌, ◌||◌, not, Option, none, some, ltb, ◌==◌,
  ◌!=◌, if◌then◌else◌, bit_and, bit_xor,
}
use deus_os_stm.FlashPersistence.{Bytes, read_u32, slot_a_address, slot_b_address}
use deus_os_stm.AssetPersistence.Layout.{config_bytes, config_validate}

-- `asset_persistence_result_t`
pub data Result : Type 0 where
  ok unchanged bad_state crc_mismatch validation_failed storage_error wear_budget_exhausted : Result

abbrev pub is_ok : Result → Bool
is_ok Result.ok = true
is_ok _ = false

-- `asset_persistence_record_t`
pub record Record : Type 0 where
  pub slot_address : ℕ
  pub generation : ℕ
  pub payload_crc32 : ℕ

abbrev pub commit_marker : ℕ
commit_marker = 0xA55A

abbrev pub generation_max : ℕ
generation_max = 10000

abbrev pub record_magic : ℕ
record_magic = 0x53554544

-- Offsets in a slot.
abbrev pub offset_generation : ℕ
offset_generation = 0x0C

abbrev pub offset_payload_crc : ℕ
offset_payload_crc = 0x10

abbrev pub offset_header_crc : ℕ
offset_header_crc = 0x38

abbrev pub offset_marker : ℕ
offset_marker = 0x3E

abbrev pub offset_payload : ℕ
offset_payload = 0x40

-- A round of the loop of `asset_crc32_update`: the polynomial is masked by the lowest bit.
unfoldable pub crc32_round : ℕ → ℕ
crc32_round crc = bit_xor (crc / 2) (if bit_and crc 1 == 0 then 0 else 0xEDB88320)

unfoldable pub crc32_rounds : ℕ → ℕ → ℕ
crc32_rounds zero crc = crc
crc32_rounds (suc bit) crc = crc32_rounds bit (crc32_round crc)

unfoldable pub crc32_update : ℕ → ℕ → ℕ
crc32_update crc value = crc32_rounds 8 (bit_xor crc value)

-- The loop of `asset_crc32_flash`, from an address on.
unfoldable pub crc32_over : Bytes → ℕ → ℕ → ℕ → ℕ
crc32_over m at zero crc = crc
crc32_over m at (suc n) crc = crc32_over m (at + 1) n (crc32_update crc (m at))

unfoldable pub crc32_flash : Bytes → ℕ → ℕ → ℕ
crc32_flash m address length = bit_xor (crc32_over m address length 0xFFFFFFFF) 0xFFFFFFFF

-- The words of a header that every record has in common: magic; versions, schema and type; sizes;
-- flags; the erased tail and the marker.
unfoldable pub header_ok : Bytes → ℕ → ℕ → Bool
header_ok m slot marker =
    read_u32 m slot == record_magic
    && read_u32 m (slot + 0x04) == 0x00010101
    && read_u32 m (slot + 0x08) == 0x00080040
    && read_u32 m (slot + 0x14) == 0
    && read_u32 m (slot + 0x3C) == 0xFFFF + 65536 * marker

-- The reserved words are erased.
unfoldable pub reserved_ok : Bytes → ℕ → ℕ → Bool
reserved_ok m at zero = true
reserved_ok m at (suc n) = read_u32 m at == 0xFFFFFFFF && reserved_ok m (at + 4) n

abbrev pub record_at : Bytes → ℕ → Record
record_at m slot = record {
  slot_address = slot;
  generation = read_u32 m (slot + offset_generation);
  payload_crc32 = read_u32 m (slot + offset_payload_crc);
}

-- `asset_validate_record`; what it writes to `record_out` with the result OK is `record_at`.
unfoldable pub validate_record : Bytes → ℕ → ℕ → Result
validate_record m slot marker =
    let generation = read_u32 m (slot + offset_generation) in
    if not (header_ok m slot marker)
    then Result.storage_error
    else if not (reserved_ok m (slot + 0x18) 8)
    then Result.storage_error
    else if generation == 0
        || ltb generation_max generation
        || crc32_flash m slot 24 != read_u32 m (slot + offset_header_crc)
    then Result.storage_error
    else if read_u32 m (slot + offset_payload_crc)
        != crc32_flash m (slot + offset_payload) config_bytes
    then Result.crc_mismatch
    else if not (config_validate m (slot + offset_payload))
    then Result.validation_failed
    else Result.ok

abbrev pub is_committed : Bytes → ℕ → Bool
is_committed m slot = is_ok (validate_record m slot commit_marker)

-- `asset_records_identical`
abbrev pub records_identical : Bytes → Record → Record → Bool
records_identical m left right =
    left.generation == right.generation
    && left.payload_crc32 == right.payload_crc32
    && read_u32 m (left.slot_address + offset_payload)
      == read_u32 m (right.slot_address + offset_payload)
    && read_u32 m (left.slot_address + offset_payload + 4)
      == read_u32 m (right.slot_address + offset_payload + 4)

-- Both slots hold a record of the same generation.
unfoldable pub is_ambiguous : Bytes → Bool
is_ambiguous m =
    is_committed m slot_a_address
    && is_committed m slot_b_address
    && (record_at m slot_a_address).generation == (record_at m slot_b_address).generation

-- The record that `asset_select_boot_record` makes the active one, if it makes any.
unfoldable pub boot_record : Bytes → Option Record
boot_record m =
    let a = record_at m slot_a_address in
    let b = record_at m slot_b_address in
    if not (is_committed m slot_a_address) && not (is_committed m slot_b_address)
    then none
    else if is_committed m slot_a_address && not (is_committed m slot_b_address)
    then some a
    else if not (is_committed m slot_a_address) && is_committed m slot_b_address
    then some b
    else if ltb b.generation a.generation
    then some a
    else if ltb a.generation b.generation
    then some b
    else if not (records_identical m a b)
    then none
    else some a
