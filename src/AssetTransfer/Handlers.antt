-- ===== src/AssetTransfer/Handlers.antt =====
-- The handlers of the opcodes, each with the time `now` that `kernel_time_now` gives it. A handler
-- leaves the session and its response.
use deus_os_stm.Common.{
  ℕ, ◌+◌, ◌-◌, ◌%◌, Bool, true, false, ◌&&◌, ◌||◌, not, List, [], ◌∷◌, ◌++◌, length, take, drop,
  get_or, ltb, leb, ◌==◌, ◌!=◌, if◌then◌else◌, u16_mod, u32_mod,
}
use deus_os_stm.FlashPersistence.{Chip}
use deus_os_stm.AssetPersistence.Layout.{config_bytes, object_type, schema}
use deus_os_stm.AssetPersistence.State.{Persistence, Outcome, returned, bind, is_active}
use deus_os_stm.AssetPersistence.Candidate.{
  begin_candidate, write_candidate, commit_candidate, abort_candidate,
}
use deus_os_stm.AssetTransfer.Session.{
  Status, Transfer, Response, succeeded, chunk_max, idle_timeout_ms, get_u16, get_u32,
  session_state, cleared, finished, map_result, committed_generation,
}

abbrev pub Step : Type 0
Step = Outcome (Transfer × Status)

abbrev pub answer : Transfer → Status → Persistence → Step
answer t status p = returned (t, status) p

-- `asset_clear_session`
abbrev pub clear_session : Transfer → Status → Persistence → Step
clear_session t status p = answer (cleared t) status (abort_candidate p)

-- `asset_transfer_init` and `asset_transfer_reset_session`
abbrev pub reset_session : Transfer → Persistence → Transfer × Persistence
reset_session t p = (cleared t, abort_candidate p)

-- `kernel_time_elapsed`
abbrev pub time_elapsed : ℕ → ℕ → ℕ → Bool
time_elapsed now start duration = leb duration ((now + u32_mod - start) % u32_mod)

-- `asset_transfer_poll`
unfoldable pub poll : ℕ → Transfer → Persistence → Transfer × Persistence
poll now t p =
    if t.active && time_elapsed now t.last_activity_ms idle_timeout_ms
    then reset_session t p
    else (t, p)

abbrev pub touched : ℕ → Transfer → Transfer
touched now t = record t { last_activity_ms = now }

-- `asset_last_chunk_equal`: within the 8 bytes that are remembered.
unfoldable pub last_chunk_equal : List ℕ → List ℕ → Bool
last_chunk_equal last [] = true
last_chunk_equal [] (b ∷ bytes) = false
last_chunk_equal (x ∷ last) (b ∷ bytes) = x == b && last_chunk_equal last bytes

-- `asset_remember_chunk`
abbrev pub remembered : List ℕ → Transfer → Transfer
remembered bytes t = record t {
  last_chunk_length = length bytes;
  last_chunk = bytes ++ drop (length bytes) t.last_chunk;
}

-- `asset_last_commit_matches`
abbrev pub last_commit_matches : Transfer → Persistence → ℕ → Bool
last_commit_matches t p transfer_id =
    is_active p
    && t.transfer_id == transfer_id
    && t.transfer_id != 0
    && p.active_record.payload_crc32 == t.payload_crc32

-- `asset_send_response`
abbrev pub response : ℕ → Status → ℕ → ℕ → ℕ → ℕ → List ℕ → Transfer → Persistence → Response
response opcode status object transfer_id total next content t p = record {
  opcode = opcode;
  status = status;
  session = session_state t;
  object_type = object;
  transfer_id = transfer_id;
  generation = committed_generation p;
  total_length = total;
  next_offset = next;
  content = content;
}

-- `asset_send_simple`
abbrev pub simple : ℕ → Status → ℕ → ℕ → ℕ → Transfer → Persistence → Response
simple opcode status transfer_id total next t p =
    response opcode status object_type transfer_id total next [] t p

module _ (chip : Chip) (now : ℕ) where
  -- What follows the result of the begin.
  unfoldable pub begun : Transfer → Status → Persistence → Step
  begun t status p = if succeeded status then answer t status p else clear_session t status p

  abbrev pub opened : ℕ → ℕ → Transfer → Transfer
  opened transfer_id crc t = record t {
    transfer_id = transfer_id;
    next_offset = 0;
    payload_crc32 = crc;
    last_chunk_length = 0;
    last_activity_ms = now;
    active = true;
  }

  -- `asset_handle_begin`
  unfoldable pub begin_step : List ℕ → Transfer → Persistence → Step
  begin_step payload t p =
      let transfer_id = get_u16 payload 4 in
      let crc = get_u32 payload 10 in
      if get_or payload 9 0 != 0 || get_or payload 14 0 != 0 || get_or payload 15 0 != 0
      then answer t Status.malformed p
      else if get_u16 payload 2 != object_type
      then answer t Status.bad_object_type p
      else if get_or payload 8 0 != schema
      then answer t Status.bad_schema p
      else if get_u16 payload 6 != config_bytes
      then answer t Status.bad_length p
      else if transfer_id == 0
      then answer t Status.bad_transfer_id p
      else if t.active
      then (if t.transfer_id != transfer_id || t.payload_crc32 != crc
          then answer t Status.busy p
          else answer (touched now t) Status.ok p)
      else bind (begin_candidate chip crc p)
          (λ result. begun (opened transfer_id crc t) (map_result result))

  unfoldable pub handle_begin : List ℕ → Transfer → Persistence → Outcome (Transfer × Response)
  handle_begin payload t p = bind (begin_step payload t p) (λ (t', status) p'.
      returned
        (
          t',
          simple 1 status (get_u16 payload 4) (if succeeded status then config_bytes else 0)
              (if succeeded status then t'.next_offset else 0) t' p',
        )
        p')

  -- What follows the result of a write.
  unfoldable pub written : ℕ → List ℕ → Transfer → Status → Persistence → Step
  written offset bytes t status p =
      if succeeded status
      then answer
          (record (remembered bytes t) {
            next_offset = (offset + length bytes) % u16_mod;
            last_activity_ms = now;
          })
          status p
      else answer_unless_stored status
    where
      answer_unless_stored : Status → Step
      answer_unless_stored Status.storage_error = clear_session t status p
      answer_unless_stored Status.internal_error = clear_session t status p
      answer_unless_stored _ = answer t status p

  -- A chunk before the offset that is expected: the last chunk again, or an error.
  unfoldable pub write_again : ℕ → List ℕ → ℕ → Transfer → Persistence → Step
  write_again offset bytes data_length t p =
      if (offset + data_length) % u16_mod == t.next_offset && data_length == t.last_chunk_length
      then (if last_chunk_equal t.last_chunk bytes
          then answer (touched now t) Status.ok p
          else answer t Status.data_conflict p)
      else answer t Status.bad_offset p

  -- `asset_handle_write`
  unfoldable pub write_step : ℕ → List ℕ → Transfer → Persistence → Step
  write_step payload_length payload t p =
      let offset = get_u16 payload 6 in
      let data_length = get_or payload 8 0 in
      let bytes = take data_length (drop 10 payload) in
      if get_or payload 9 0 != 0
        || data_length == 0
        || ltb chunk_max data_length
        || payload_length != 10 + data_length
      then answer t Status.bad_length p
      else if get_u16 payload 2 != object_type
      then answer t Status.bad_object_type p
      else if not t.active || t.transfer_id != get_u16 payload 4
      then answer t Status.bad_transfer_id p
      else if ltb offset t.next_offset
      then write_again offset bytes data_length t p
      else if offset != t.next_offset
      then answer t Status.bad_offset p
      else if ltb config_bytes (offset + data_length)
      then answer t Status.bad_length p
      else bind (write_candidate chip bytes p)
          (λ result. written offset bytes t (map_result result))

  unfoldable pub handle_write : ℕ → List ℕ → Transfer → Persistence → Outcome (Transfer × Response)
  handle_write payload_length payload t p =
      bind (write_step payload_length payload t p) (λ (t', status) p'.
        returned
          (
            t',
            simple 2 status (get_u16 payload 4) (if t'.active then config_bytes else 0)
                (if t'.active then t'.next_offset else 0) t' p',
          )
          p')

  -- What follows the result of a commit.
  unfoldable pub committed : Transfer → Status → Persistence → Step
  committed t status p =
      if succeeded status then answer (finished t) status p else clear_session t status p

  -- `asset_handle_commit`
  unfoldable pub commit_step : List ℕ → Transfer → Persistence → Step
  commit_step payload t p =
      let transfer_id = get_u16 payload 4 in
      if get_u16 payload 2 != object_type
      then answer t Status.bad_object_type p
      else if not t.active
      then (if last_commit_matches t p transfer_id
          then answer t Status.ok p
          else answer t Status.bad_transfer_id p)
      else if t.transfer_id != transfer_id
      then answer t Status.bad_transfer_id p
      else if t.next_offset != config_bytes
      then answer t Status.bad_state p
      else bind (commit_candidate chip p) (λ result. committed t (map_result result))

  unfoldable pub handle_commit : List ℕ → Transfer → Persistence → Outcome (Transfer × Response)
  handle_commit payload t p = bind (commit_step payload t p) (λ (t', status) p'.
      returned
        (
          t',
          simple 3 status (get_u16 payload 4) (if succeeded status then config_bytes else 0)
              (if succeeded status then config_bytes else 0) t' p',
        )
        p')
