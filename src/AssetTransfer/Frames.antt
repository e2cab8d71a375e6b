-- ===== src/AssetTransfer/Frames.antt =====
-- The opcodes that change nothing in the flash, and `asset_transfer_handle_frame`.
use deus_os_stm.Common.{
  ℕ, ◌+◌, ◌/◌, ◌%◌, Bool, true, false, ◌&&◌, ◌||◌, not, Option, none, some, List, [], ◌++◌, length,
  get_or, ltb, leb, ◌==◌, ◌!=◌, if◌then◌else◌, u16_mod,
}
use deus_os_stm.FlashPersistence.{Chip}
use deus_os_stm.BinaryFrame.Parser.{View}
use deus_os_stm.BinaryFrame.Encoder.{protocol_version}
use deus_os_stm.AssetPersistence.Layout.{config_bytes, object_type}
use deus_os_stm.AssetPersistence.State.{Persistence, Outcome, returned, bind, is_active}
use deus_os_stm.AssetPersistence.Candidate.{read_active}
use deus_os_stm.AssetTransfer.Session.{
  Status, Transfer, Response, succeeded, allow_destructive, get_u16, get_u32, low_high,
}
use deus_os_stm.AssetTransfer.Handlers.{
  Step, answer, clear_session, touched, response, simple, handle_begin, handle_write, handle_commit,
}

abbrev pub request_type : ℕ
request_type = 3

-- `asset_handle_abort`
unfoldable pub abort_step : List ℕ → Transfer → Persistence → Step
abort_step payload t p =
    if get_u16 payload 2 != object_type
    then answer t Status.bad_object_type p
    else if t.active && t.transfer_id != get_u16 payload 4
    then answer t Status.bad_transfer_id p
    else if t.active
    then clear_session t Status.ok p
    else answer t Status.ok p

unfoldable pub handle_abort : List ℕ → Transfer → Persistence → Outcome (Transfer × Response)
handle_abort payload t p =
    bind (abort_step payload t p)
      (λ (t', status) p'. returned (t', simple 4 status (get_u16 payload 4) 0 0 t' p') p')

-- The length and the checksum of the committed asset.
abbrev pub committed_content : Persistence → List ℕ
committed_content p =
    let crc = if is_active p then p.active_record.payload_crc32 else 0 in
    low_high (if is_active p then config_bytes else 0)
    ++ (low_high 0 ++ (low_high (crc % u16_mod) ++ low_high (crc / u16_mod % u16_mod)))

-- `asset_handle_status`, at the time `now`
unfoldable pub status_step : ℕ → List ℕ → Transfer → Transfer × Status × Bool
status_step now payload t =
    let transfer_id = get_u16 payload 4 in
    if get_u16 payload 2 != object_type
    then (t, Status.bad_object_type, false)
    else if transfer_id == 0
    then (t, Status.ok, t.active)
    else if not t.active || t.transfer_id != transfer_id
    then (t, Status.bad_transfer_id, false)
    else (touched now t, Status.ok, true)

unfoldable pub handle_status : ℕ → List ℕ → Transfer → Persistence → Outcome (Transfer × Response)
handle_status now payload t p =
    let (t', status, shown) = status_step now payload t in
    returned
      (
        t',
        response 5 status (get_u16 payload 2) (get_u16 payload 4)
            (if shown then config_bytes else 0) (if shown then t'.next_offset else 0)
            (committed_content p) t' p,
      )
      p

-- `asset_handle_read`: the status, and the bytes with OK
unfoldable pub read_step : List ℕ → Persistence → Status × List ℕ
read_step payload p =
    let offset = get_u16 payload 8 in
    let size = get_or payload 10 0 in
    if get_or payload 11 0 != 0
    then (Status.malformed, [])
    else if get_u16 payload 2 != object_type
    then (Status.bad_object_type, [])
    else if not (is_active p)
    then (Status.not_found, [])
    else if p.active_record.generation != get_u32 payload 4
    then (Status.generation_mismatch, [])
    else if size == 0 || ltb config_bytes (offset + size)
    then (Status.bad_length, [])
    else read_bytes (read_active p offset true size)
  where
    read_bytes : Option (List ℕ) → Status × List ℕ
    read_bytes none = (Status.internal_error, [])
    read_bytes (some bytes) = (Status.ok, bytes)

unfoldable pub handle_read : List ℕ → Transfer → Persistence → Outcome (Transfer × Response)
handle_read payload t p =
    let (status, bytes) = read_step payload p in
    let offset = get_u16 payload 8 in
    returned
      (
        t,
        response 6 status (get_u16 payload 2) 0 (if succeeded status then config_bytes else 0)
            (if succeeded status then (offset + length bytes) % u16_mod else offset) bytes t p,
      )
      p

-- The tests of `asset_transfer_handle_frame` on the frame.
abbrev pub is_malformed : View → Bool
is_malformed f =
    f.version != protocol_version
    || f.reserved != 0
    || f.request_id == 0
    || f.frame_type != request_type
    || ltb f.payload_length 2
    || get_or f.payload 0 0 != 1

abbrev pub expected_length : ℕ → ℕ
expected_length opcode = if opcode == 1 then 16 else if opcode == 6 then 12 else 6

abbrev pub required_flags : ℕ → ℕ
required_flags opcode = if leb opcode 3 then allow_destructive else 0

unfoldable pub request_status : View → ℕ → Status
request_status f opcode =
    if not (leb 1 opcode && leb opcode 6)
    then Status.ok
    else if f.flags != required_flags opcode
    then Status.bad_flags
    else if opcode == 2
    then (if ltb f.payload_length 11 then Status.malformed else Status.ok)
    else if f.payload_length != expected_length opcode
    then Status.malformed
    else Status.ok

abbrev pub refused : ℕ → Status → Transfer → Persistence → Outcome (Transfer × Response)
refused opcode status t p = returned (t, simple opcode status 0 0 0 t p) p

module _ (chip : Chip) (now : ℕ) where
  -- The switch on the opcode.
  unfoldable pub dispatch : ℕ → View → Transfer → Persistence → Outcome (Transfer × Response)
  dispatch opcode f t p =
      if opcode == 1
      then handle_begin chip now f.payload t p
      else if opcode == 2
      then handle_write chip now f.payload_length f.payload t p
      else if opcode == 3
      then handle_commit chip now f.payload t p
      else if opcode == 4
      then handle_abort f.payload t p
      else if opcode == 5
      then handle_status now f.payload t p
      else if opcode == 6
      then handle_read f.payload t p
      else refused opcode Status.bad_opcode t p

  -- `asset_transfer_handle_frame`: the response is sent as `response_wire` of the request's id.
  unfoldable pub handle_frame : View → Transfer → Persistence → Outcome (Transfer × Response)
  handle_frame f t p =
      let opcode = if leb 2 f.payload_length then get_or f.payload 1 0 else 0 in
      if is_malformed f
      then refused opcode Status.malformed t p
      else if not (succeeded (request_status f opcode))
      then refused opcode (request_status f opcode) t p
      else dispatch opcode f t p
