-- ===== src/AssetTransfer/Session.antt =====
-- The session of src/kernel/asset_transfer.c, its status codes and its responses.
use deus_os_stm.Common.{
  ℕ, ◌+◌, ◌*◌, ◌/◌, ◌%◌, Bool, false, not, List, [], ◌∷◌, ◌++◌, length, get_or, ◌==◌, if◌then◌else◌,
  u16_mod,
}
use deus_os_stm.BinaryFrame.Encoder.{finalize_in_place}
use deus_os_stm.AssetPersistence.Layout.{config_bytes}
use deus_os_stm.AssetPersistence.Record.{Result}
use deus_os_stm.AssetPersistence.State.{Persistence, is_active}

-- `asset_transfer_status_t`
pub data Status : Type 0 where
  ok malformed bad_flags bad_opcode bad_object_type bad_schema bad_length bad_transfer_id busy :
      Status
  bad_state bad_offset data_conflict crc_mismatch validation_failed not_found : Status
  generation_mismatch storage_error wear_budget_exhausted internal_error : Status

abbrev pub status_code : Status → ℕ
status_code Status.ok = 0
status_code Status.malformed = 1
status_code Status.bad_flags = 2
status_code Status.bad_opcode = 3
status_code Status.bad_object_type = 4
status_code Status.bad_schema = 5
status_code Status.bad_length = 6
status_code Status.bad_transfer_id = 7
status_code Status.busy = 8
status_code Status.bad_state = 9
status_code Status.bad_offset = 10
status_code Status.data_conflict = 11
status_code Status.crc_mismatch = 12
status_code Status.validation_failed = 13
status_code Status.not_found = 14
status_code Status.generation_mismatch = 15
status_code Status.storage_error = 16
status_code Status.wear_budget_exhausted = 17
status_code Status.internal_error = 18

abbrev pub succeeded : Status → Bool
succeeded status = status_code status == 0

abbrev pub chunk_max : ℕ
chunk_max = 32

abbrev pub idle_timeout_ms : ℕ
idle_timeout_ms = 30000

abbrev pub allow_destructive : ℕ
allow_destructive = 1

abbrev pub response_type : ℕ
response_type = 0x85

-- `asset_transfer_state_t`
pub record Transfer : Type 0 where
  pub last_activity_ms : ℕ
  pub payload_crc32 : ℕ
  pub transfer_id : ℕ
  pub next_offset : ℕ
  pub last_chunk_length : ℕ
  pub active : Bool
  pub last_chunk : List ℕ

-- `asset_get_u16` and `asset_get_u32` at an index of the payload.
abbrev pub get_u16 : List ℕ → ℕ → ℕ
get_u16 payload at = get_or payload at 0 + 256 * get_or payload (at + 1) 0

abbrev pub get_u32 : List ℕ → ℕ → ℕ
get_u32 payload at = get_u16 payload at + 65536 * get_u16 payload (at + 2)

-- `asset_session_state`
abbrev pub session_state : Transfer → ℕ
session_state t = if not t.active then 0 else if t.next_offset == config_bytes then 2 else 1

-- `asset_clear_session` for the session; the candidate is aborted with it.
abbrev pub cleared : Transfer → Transfer
cleared t = record t { transfer_id = 0; active = false }

-- `asset_finish_commit`
abbrev pub finished : Transfer → Transfer
finished t = record t { active = false }

-- `asset_map_persistence_result`
abbrev pub map_result : Result → Status
map_result Result.ok = Status.ok
map_result Result.unchanged = Status.ok
map_result Result.bad_state = Status.bad_state
map_result Result.crc_mismatch = Status.crc_mismatch
map_result Result.validation_failed = Status.validation_failed
map_result Result.storage_error = Status.storage_error
map_result Result.wear_budget_exhausted = Status.wear_budget_exhausted

-- What `asset_send_response` sends.
pub record Response : Type 0 where
  pub opcode : ℕ
  pub status : Status
  pub session : ℕ
  pub object_type : ℕ
  pub transfer_id : ℕ
  pub generation : ℕ
  pub total_length : ℕ
  pub next_offset : ℕ
  pub content : List ℕ

abbrev pub committed_generation : Persistence → ℕ
committed_generation p = if is_active p then p.active_record.generation else 0

abbrev pub low_high : ℕ → List ℕ
low_high n = n % 256 ∷ n / 256 % 256 ∷ []

-- The bytes of its payload, `halfwords[5]` to `halfwords[13]` and the data.
abbrev pub response_payload : Response → List ℕ
response_payload r =
    1
    ∷ r.opcode
    ∷ status_code r.status
    ∷ r.session
    ∷ (low_high r.object_type
        ++ (low_high r.transfer_id
            ++ (low_high (r.generation % u16_mod)
                ++ (low_high (r.generation / u16_mod % u16_mod)
                    ++ (low_high r.total_length
                        ++ (low_high r.next_offset
                            ++ (low_high (length r.content) ++ r.content)))))))

-- The frame that is handed to `send_wire`: the prefix and the checksum are written around the payload.
unfoldable pub response_wire : ℕ → Response → ℕ × List ℕ
response_wire request_id r =
    finalize_in_place response_type 0 request_id (18 + length r.content)
      ((0 ∷ 0 ∷ 0 ∷ 0 ∷ 0 ∷ 0 ∷ 0 ∷ 0 ∷ 0 ∷ 0 ∷ []) ++ (response_payload r ++ (0 ∷ 0 ∷ [])))
