-- ===== src/NodeLink/Worker.antt =====
-- `dnl_worker_process` of deus_node_link.c. A buffer with its length is the list of its bytes.
pub mod Replay
pub mod Replies
pub mod Invariant
use deus_os_stm.Common.{
  ℕ, ◌+◌, Bool, true, false, not, ◌&&◌, ◌||◌, Option, none, some, List, [], ◌∷◌, ◌++◌, length,
  get_or, take, drop, ltb, leb, ◌==◌, ◌!=◌, if◌then◌else◌,
}
use deus_os_stm.NodeLink.Crc.{crc32_ieee}
use deus_os_stm.NodeLink.Frame.{Status, Output, sent, failed, Frame, rd32, wr16, wr32}
use deus_os_stm.NodeLink.Codec.{encode, decode, validate_payload}
use deus_os_stm.NodeLink.MessageType
use deus_os_stm.NodeLink.ErrorCode

-- `dnl_worker_t`
pub record Worker : Type 0 where
  pub session_id : ℕ
  pub highest_sequence : ℕ
  pub completed_jobs : ℕ
  pub last_request : List ℕ
  pub last_reply : List ℕ
  pub hello_reply : List ℕ
  pub has_last : Bool

abbrev pub init : Worker
init = record {
  session_id = 0;
  highest_sequence = 0;
  completed_jobs = 0;
  last_request = [];
  last_reply = [];
  hello_reply = [];
  has_last = false;
}

-- `memcmp` of two buffers of known lengths.
unfoldable pub same_bytes : List ℕ → List ℕ → Bool
same_bytes [] [] = true
same_bytes [] (y ∷ ys) = false
same_bytes (x ∷ xs) [] = false
same_bytes (x ∷ xs) (y ∷ ys) = x == y && same_bytes xs ys

-- A stored reply once more, if the buffer holds it.
abbrev pub resend : List ℕ → ℕ → Output
resend reply capacity =
    if ltb capacity (length reply) then failed Status.output_too_small else sent reply

-- `worker_error`'s frame.
abbrev pub error_frame : ℕ → ℕ → ℕ → ℕ → Frame
error_frame type sequence session error = record {
  type = MessageType.error;
  sequence = sequence;
  session_id = session;
  payload = error ∷ type ∷ [];
}

abbrev pub hello_ack_frame : ℕ → Frame
hello_ack_frame challenge = record {
  type = MessageType.hello_ack;
  sequence = 1;
  session_id = challenge;
  payload = wr32 challenge ++ 1 ∷ 3 ∷ 16 ∷ 2 ∷ [];
}

-- `dnl_worker_init` and the new session, once the reply is encoded.
abbrev pub open_session : ℕ → List ℕ → Worker
open_session challenge reply = record init {
  session_id = challenge;
  highest_sequence = 1;
  hello_reply = reply;
}

abbrev pub opened : Worker → ℕ → Output → Output × Worker
opened w challenge (failed s) = (failed s, w)
opened w challenge (sent reply) = (sent reply, open_session challenge reply)

abbrev pub is_empty : List ℕ → Bool
is_empty [] = true
is_empty (_ ∷ _) = false

abbrev pub hello_refused : Frame → Bool
hello_refused req = req.session_id != 0 || req.sequence != 1 || not (validate_payload req)

-- The challenge of the open session comes again.
abbrev pub hello_repeated : Worker → Frame → Bool
hello_repeated w req = rd32 req.payload == w.session_id && not (is_empty w.hello_reply)

unfoldable pub process_hello : Worker → Frame → ℕ → Output × Worker
process_hello w req capacity =
    if hello_refused req
    then (failed Status.drop, w)
    else if hello_repeated w req
    then (resend w.hello_reply capacity, w)
    else opened w (rd32 req.payload) (encode (hello_ack_frame (rd32 req.payload)) capacity)

abbrev pub pong_frame : ℕ → ℕ → Frame
pong_frame sequence session = record {
  type = MessageType.pong;
  sequence = sequence;
  session_id = session;
  payload = [];
}

-- The count of the job's bytes and their checksum.
abbrev pub result_frame : ℕ → ℕ → ℕ → ℕ → Frame
result_frame sequence session size crc = record {
  type = MessageType.job_result;
  sequence = sequence;
  session_id = session;
  payload = size ∷ wr32 crc;
}

abbrev pub status_frame : ℕ → ℕ → ℕ → Frame
status_frame sequence session jobs = record {
  type = MessageType.status;
  sequence = sequence;
  session_id = session;
  payload = 2 ∷ 0 ∷ wr16 jobs;
}

-- `dnl_crc32_ieee` of the bytes of a job.
abbrev pub job_crc : List ℕ → ℕ
job_crc payload = crc32_ieee (take (get_or payload 0 0) (drop 1 payload))

-- The reply to a request with the next sequence number.
unfoldable pub reply_frame : Worker → Frame → Frame
reply_frame w req =
    if not (validate_payload req)
    then error_frame req.type req.sequence w.session_id ErrorCode.bad_payload
    else if req.type == MessageType.ping
    then pong_frame req.sequence w.session_id
    else if req.type == MessageType.job_crc32
    then result_frame req.sequence w.session_id (get_or req.payload 0 0) (job_crc req.payload)
    else if req.type == MessageType.get_status
    then status_frame req.sequence w.session_id w.completed_jobs
    else error_frame req.type req.sequence w.session_id ErrorCode.unsupported

-- `completed_jobs` after the request was answered by this reply.
abbrev pub jobs_after : Worker → Frame → Frame → ℕ
jobs_after w req resp =
    if req.type == MessageType.job_crc32
      && resp.type == MessageType.job_result
      && ltb w.completed_jobs 0xffff
    then w.completed_jobs + 1
    else w.completed_jobs

abbrev pub retained : Worker → Frame → Frame → List ℕ → Output → Output × Worker
retained w req resp raw (failed s) = (failed s, w)
retained w req resp raw (sent reply) = (
  sent reply,
  record w {
    last_request = raw;
    last_reply = reply;
    has_last = true;
    highest_sequence = req.sequence;
    completed_jobs = jobs_after w req resp;
  },
)

unfoldable pub execute : Worker → Frame → List ℕ → ℕ → Output × Worker
execute w req raw capacity =
    retained w req (reply_frame w req) raw (encode (reply_frame w req) capacity)

-- The number and the bytes of the last request come again.
abbrev pub same_request : Worker → List ℕ → Bool
same_request w raw = length raw == length w.last_request && same_bytes raw w.last_request

abbrev pub bad_sequence_frame : Worker → Frame → Frame
bad_sequence_frame w req = error_frame req.type req.sequence w.session_id ErrorCode.bad_sequence

-- A request of the open session.
unfoldable pub process_request : Worker → Frame → List ℕ → ℕ → Output × Worker
process_request w req raw capacity =
    if req.sequence == w.highest_sequence && w.has_last
    then if same_request w raw
      then (resend w.last_reply capacity, w)
      else (encode (bad_sequence_frame w req) capacity, w)
    else if ltb req.sequence w.highest_sequence
    then (failed Status.drop, w)
    else if req.sequence != w.highest_sequence + 1
    then (encode (bad_sequence_frame w req) capacity, w)
    else execute w req raw capacity

-- A frame that decodes.
unfoldable pub process_frame : Worker → Frame → List ℕ → ℕ → Output × Worker
process_frame w req raw capacity =
    if leb 0x80 req.type
    then (failed Status.drop, w)
    else if req.type == MessageType.hello
    then process_hello w req capacity
    else if w.session_id == 0 || req.session_id != w.session_id
    then (failed Status.drop, w)
    else process_request w req raw capacity

unfoldable pub process : Worker → List ℕ → ℕ → Output × Worker
process w raw capacity = elim (decode raw) [
  | none ↦ (failed Status.drop, w)
  | some req ↦ process_frame w req raw capacity
]
