-- ===== src/NodeLink/Controller.antt =====
-- The `dnl_controller_*` functions of deus_node_link.c.
pub mod Laws
use deus_os_stm.Common.{
  ℕ, ◌+◌, ◌%◌, Bool, true, false, not, ◌&&◌, ◌||◌, Option, none, some, List, [], ◌∷◌, length,
  get_or, take, ltb, ◌==◌, ◌!=◌, if◌then◌else◌, bit_or, u8_mod, u16_mod,
}
use deus_os_stm.NodeLink.Frame.{Status, Output, sent, failed, Frame, max_payload, rd32, wr32}
use deus_os_stm.NodeLink.Codec.{encode, decode, validate_payload}
use deus_os_stm.NodeLink.MessageType
use deus_os_stm.NodeLink.MessageType.{is_reply}

-- `dnl_controller_t`
pub record Controller : Type 0 where
  pub session_id : ℕ
  pub last_sequence : ℕ
  pub ready : Bool
  pub pending : Bool
  pub pending_type : ℕ
  pub retry_count : ℕ
  pub requested_job_length : ℕ
  pub request_bytes : List ℕ

abbrev pub init : Controller
init = record {
  session_id = 0;
  last_sequence = 0;
  ready = false;
  pending = false;
  pending_type = 0;
  retry_count = 0;
  requested_job_length = 0;
  request_bytes = [];
}

-- What `controller_emit` stores of a request that was encoded.
abbrev pub emitted : Controller → ℕ → List ℕ → Controller
emitted c type bytes = record c {
  request_bytes = bytes;
  pending = true;
  pending_type = type;
  retry_count = 0;
}

abbrev pub hello_frame : ℕ → Frame
hello_frame challenge = record {
  type = MessageType.hello;
  sequence = 1;
  session_id = 0;
  payload = wr32 challenge;
}

abbrev pub greeted : Controller → ℕ → Output → Output × Controller
greeted c challenge (failed s) = (failed s, c)
greeted c challenge (sent bytes) = (
  sent bytes,
  record (emitted c MessageType.hello bytes) {
    session_id = challenge;
    last_sequence = 1;
    ready = false;
    requested_job_length = 0;
  },
)

-- `dnl_controller_hello`
unfoldable pub hello : Controller → ℕ → ℕ → Output × Controller
hello c challenge capacity =
    if challenge == 0 || challenge == c.session_id
    then (failed Status.bad_message, c)
    else greeted c challenge (encode (hello_frame challenge) capacity)

-- The bytes behind a pointer that may be null.
abbrev pub pointed : Option (List ℕ) → List ℕ
pointed none = []
pointed (some bytes) = bytes

abbrev pub is_null : Option (List ℕ) → Bool
is_null none = true
is_null (some _) = false

abbrev pub request_frame : Controller → ℕ → List ℕ → Frame
request_frame c type payload = record {
  type = type;
  sequence = (c.last_sequence + 1) % u16_mod;
  session_id = c.session_id;
  payload = payload;
}

abbrev pub requested : Controller → Frame → Output → Output × Controller
requested c f (failed s) = (failed s, c)
requested c f (sent bytes) = (
  sent bytes,
  record (emitted c f.type bytes) {
    last_sequence = f.sequence;
    requested_job_length = if f.type == MessageType.job_crc32 then get_or f.payload 0 0 else 0;
  },
)

-- `dnl_controller_request`
unfoldable pub request : Controller → ℕ → Option (List ℕ) → ℕ → ℕ → Output × Controller
request c type payload size capacity =
    if not c.ready || c.pending
    then (failed Status.not_ready_or_busy, c)
    else if type != MessageType.ping
        && type != MessageType.job_crc32
        && type != MessageType.get_status
    then (failed Status.bad_message, c)
    else if ltb max_payload size || (size != 0 && is_null payload)
    then (failed Status.bad_argument, c)
    else if c.last_sequence == 0xffff
    then (failed Status.rehandshake_required, c)
    else if not (validate_payload f)
    then (failed Status.bad_message, c)
    else requested c f (encode f capacity)
  where
    f : Frame
    f = request_frame c type (take size (pointed payload))

-- A reply of the right session, number and type whose payload is valid.
unfoldable pub settle : Controller → Frame → Status × Controller
settle c f =
    if f.type == MessageType.error
    then if get_or f.payload 1 0 != c.pending_type
      then (Status.wrong_reply_type, c)
      else (Status.remote_error, record c { pending = false })
    else if c.pending_type == MessageType.hello
        && (rd32 f.payload != c.session_id || f.session_id != rd32 f.payload)
    then (Status.bad_hello_echo, c)
    else if c.pending_type == MessageType.job_crc32
        && get_or f.payload 0 0 != c.requested_job_length
    then (Status.bad_result_length, c)
    else (
      Status.ok,
      record c {
        pending = false;
        ready = if c.pending_type == MessageType.hello then true else c.ready;
      },
    )

unfoldable pub receive_frame : Controller → Frame → Status × Controller
receive_frame c f =
    if not (is_reply f.type)
    then (Status.wrong_direction, c)
    else if not c.pending
    then (Status.unsolicited, c)
    else if f.session_id != c.session_id
    then (Status.stale_session, c)
    else if f.sequence != c.last_sequence
    then (Status.wrong_sequence, c)
    else if f.type != bit_or c.pending_type 0x80 % u8_mod && f.type != MessageType.error
    then (Status.wrong_reply_type, c)
    else if not (validate_payload f)
    then (Status.bad_message, c)
    else settle c f

-- `dnl_controller_receive`
unfoldable pub receive : Controller → List ℕ → Status × Controller
receive c raw = elim (decode raw) [ none ↦ (Status.bad_frame, c) | some f ↦ receive_frame c f ]

-- `dnl_controller_timeout`
unfoldable pub timeout : Controller → ℕ → Output × Controller
timeout c capacity =
    if not c.pending
    then (failed Status.drop, c)
    else if (c.pending_type == MessageType.hello
          || c.pending_type == MessageType.ping
          || c.pending_type == MessageType.get_status)
        && c.retry_count == 0
    then if ltb capacity (length c.request_bytes)
      then (failed Status.output_too_small, c)
      else (sent c.request_bytes, record c { retry_count = 1 })
    else (failed Status.drop, record c { pending = false; ready = false })
