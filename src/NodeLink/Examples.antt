-- ===== src/NodeLink/Examples.antt =====
-- The theorems of Node Link at a session 7 between a controller and a worker.
use deus_os_stm.Common.{
  ℕ, ◌≡◌, ◌≢◌, refl, true, false, none, some, List, [], ◌∷◌, take, arith, inl, AreBytes,
}
use deus_os_stm.NodeLink.Crc.{
  crc16_round, crc16_rounds, crc16_byte, crc16_from, crc16_ccitt_false, crc32_round, crc32_rounds,
  crc32_from, crc32_ieee,
}
use deus_os_stm.NodeLink.Frame.{Status, sent, failed, Frame, IsFrame}
use deus_os_stm.NodeLink.Codec.{
  body, wire, encode, header_ok, length_ok, checksum_ok, frame_of, decode, validate_payload,
}
use deus_os_stm.NodeLink.Codec.Laws.{decode-encode}
use deus_os_stm.NodeLink.Codec.Canonical.{encode-decode}
use deus_os_stm.NodeLink.MessageType.{is_reply, is_request}
use deus_os_stm.NodeLink.Worker.{
  Worker, process, process_frame, process_request, process_hello, execute, reply_frame, same_bytes,
  hello_ack_frame, open_session,
}
use deus_os_stm.NodeLink.Worker
use deus_os_stm.NodeLink.Worker.Replay.{process-process, process-failed}
use deus_os_stm.NodeLink.Worker.Invariant.{IsWorker, Answers, process-IsWorker, process-Answers}
use deus_os_stm.NodeLink.Controller.{
  Controller, hello, request, request_frame, receive, receive_frame, settle, timeout,
}
use deus_os_stm.NodeLink.Controller
use deus_os_stm.NodeLink.Controller.Laws.{
  receive-keeps, receive-IsAccepted, IsAccepted, timeout-timeout, request-IsSent, IsSent,
}
use deus_os_stm.NodeLink.Exchange.{IsSynced, exchange, exchange_after_loss}
use deus_os_stm.NodeLink.Handshake.{handshake}

-- A job of the two bytes 65 and 66, and a ping, each as the second request of the session.
abbrev job_payload : List ℕ
job_payload = 2 ∷ 65 ∷ 66 ∷ []

job_payload-AreBytes : AreBytes job_payload
job_payload-AreBytes = (omega arith, (omega arith, (omega arith, tt)))

abbrev job : Frame
job = record { type = 3; sequence = 2; session_id = 7; payload = job_payload }

abbrev ping : Frame
ping = record { type = 2; sequence = 2; session_id = 7; payload = [] }

job-IsFrame : IsFrame job
job-IsFrame = record {
  type_lt = omega arith;
  sequence_pos = omega arith;
  sequence_lt = omega arith;
  session_lt = omega arith;
  payload_le = omega arith;
  payload_bytes = job_payload-AreBytes;
}

job_bytes-AreBytes : AreBytes (wire job)
unfolding wire body crc16_ccitt_false crc16_from crc16_byte crc16_rounds crc16_round
job_bytes-AreBytes = ground arith

decode-encode_example : (encode job 19 ≡ sent (wire job)) × (decode (wire job) ≡ some job)
decode-encode_example = decode-encode job 19 job-IsFrame (omega arith)

encode-decode_example : IsFrame job × (encode job 40 ≡ sent (wire job))
encode-decode_example =
    encode-decode (wire job) job job_bytes-AreBytes
      (decode-encode job 19 job-IsFrame (omega arith)).1

-- The two sides after the handshake.
abbrev worker : Worker
worker = open_session 7 (wire (hello_ack_frame 7))

abbrev controller : Controller
controller = record Controller.init { session_id = 7; last_sequence = 1; ready = true }

synced : IsSynced controller worker
synced = record {
  ready = refl;
  idle = refl;
  session_ne = λ e. absurd (omega arith);
  session = refl;
  sequence = refl;
}

-- The two sides after the job and after the ping are requested.
abbrev asked : Controller
asked = record controller {
  last_sequence = 2;
  pending = true;
  pending_type = 3;
  requested_job_length = 2;
  request_bytes = wire job;
}

abbrev pinged : Controller
pinged = record controller {
  last_sequence = 2;
  pending = true;
  pending_type = 2;
  request_bytes = wire ping;
}

job-asked : request controller 3 (some job_payload) 3 40 ≡ (sent (wire job), asked)
unfolding request encode validate_payload
job-asked = refl

ping_asked : request controller 2 none 0 40 ≡ (sent (wire ping), pinged)
unfolding request encode validate_payload
ping_asked = refl

ping_again : timeout pinged 40 ≡ (sent (wire ping), record pinged { retry_count = 1 })
unfolding timeout wire body crc16_ccitt_false crc16_from crc16_byte crc16_rounds crc16_round
ping_again = refl

exchange_example :
    (f : Frame) × (g : Frame) × (w' : Worker) × (c'' : Controller) × (f
      ≡ request_frame controller 3 (take 3 job_payload))
    × (g ≡ reply_frame worker f)
    × (process worker (wire job) 40 ≡ (sent (wire g), w'))
    × (receive asked (wire g) ≡ (Status.ok, c''))
    × IsSynced c'' w'
exchange_example =
    exchange controller asked worker 3 3 40 40 (some job_payload) (wire job) synced (omega arith)
      (omega arith) job_payload-AreBytes (omega arith) job-asked

exchange_after_loss_example :
    (reply : List ℕ) × (w' : Worker) × (d' : Controller) × (process worker (wire ping) 40
      ≡ (sent reply, w'))
    × (process w' (wire ping) 40 ≡ (sent reply, w'))
    × (receive (record pinged { retry_count = 1 }) reply ≡ (Status.ok, d'))
    × IsSynced d' w'
exchange_after_loss_example =
    exchange_after_loss controller pinged (record pinged { retry_count = 1 }) worker 2 0 40 40 40
      none (wire ping) (wire ping) synced (omega arith) (omega arith) tt (omega arith) ping_asked
      ping_again

-- The worker after the job, and what it sends.
abbrev result : List ℕ
result = wire (reply_frame worker job)

abbrev worked : Worker
worked = record worker {
  highest_sequence = 2;
  completed_jobs = 1;
  last_request = wire job;
  last_reply = result;
  has_last = true;
}

job_done : process worker (wire job) 40 ≡ (sent result, worked)
unfolding process process_frame process_request process_hello execute decode header_ok length_ok
    checksum_ok frame_of encode reply_frame validate_payload same_bytes is_request wire body
    crc16_ccitt_false crc16_from crc16_byte crc16_rounds crc16_round crc32_ieee crc32_from
    crc32_rounds crc32_round
job_done = refl

process-process_example : process worked (wire job) 40 ≡ (sent result, worked)
process-process_example = process-process worker worked (wire job) result 40 job_done

job_too_long : process worker (wire job) 20 ≡ (failed Status.output_too_small, worker)
unfolding process process_frame process_request process_hello execute decode header_ok length_ok
    checksum_ok frame_of encode reply_frame validate_payload same_bytes is_request wire body
    crc16_ccitt_false crc16_from crc16_byte crc16_rounds crc16_round crc32_ieee crc32_from
    crc32_rounds crc32_round
job_too_long = refl

process-failed_example : worker ≡ worker
process-failed_example =
    process-failed worker worker (wire job) 20 Status.output_too_small job_too_long

blank-IsWorker : IsWorker Worker.init
blank-IsWorker = record {
  session_lt = omega arith;
  highest_lt = omega arith;
  jobs_le = omega arith;
  hello_stored = inl refl;
  last_stored = inl refl;
}

process-IsWorker_example : IsWorker (process Worker.init (wire job) 40).1
process-IsWorker_example =
    process-IsWorker Worker.init (wire job) 40 blank-IsWorker job_bytes-AreBytes

-- A hello with the challenge 7.
abbrev greeting : List ℕ
greeting = wire (Controller.hello_frame 7)

abbrev greeted : Controller
greeted = record Controller.init {
  session_id = 7;
  last_sequence = 1;
  pending = true;
  pending_type = 1;
  request_bytes = greeting;
}

hello_sent : hello Controller.init 7 40 ≡ (sent greeting, greeted)
unfolding hello encode
hello_sent = refl

hello_done : process Worker.init greeting 40 ≡ (sent (wire (hello_ack_frame 7)), worker)
unfolding process process_frame process_request process_hello execute decode header_ok length_ok
    checksum_ok frame_of encode reply_frame validate_payload same_bytes is_request wire body
    crc16_ccitt_false crc16_from crc16_byte crc16_rounds crc16_round
hello_done = refl

hello_decoded : decode greeting ≡ some (Controller.hello_frame 7)
unfolding decode header_ok length_ok checksum_ok frame_of wire body crc16_ccitt_false crc16_from
    crc16_byte crc16_rounds crc16_round
hello_decoded = refl

hello_bytes-AreBytes : AreBytes greeting
unfolding wire body crc16_ccitt_false crc16_from crc16_byte crc16_rounds crc16_round
hello_bytes-AreBytes = ground arith

process-Answers_example : Answers worker 1 (wire (hello_ack_frame 7))
process-Answers_example =
    process-Answers Worker.init worker greeting 40 (Controller.hello_frame 7)
      (wire (hello_ack_frame 7)) blank-IsWorker hello_bytes-AreBytes hello_decoded hello_done

handshake_example :
    (reply : List ℕ) × (w' : Worker) × (c'' : Controller) × (process Worker.init greeting 40
      ≡ (sent reply, w'))
    × (receive greeted reply ≡ (Status.ok, c''))
    × IsSynced c'' w'
handshake_example =
    handshake Controller.init greeted Worker.init 7 40 40 greeting (omega arith)
      (λ e. absurd (omega arith)) (omega arith) hello_sent

-- The controller gets the result of its job, and something that is no frame.
result_received : receive asked result ≡ (Status.ok, record asked { pending = false })
unfolding receive receive_frame settle decode header_ok length_ok checksum_ok frame_of reply_frame
    validate_payload is_reply wire body crc16_ccitt_false crc16_from crc16_byte crc16_rounds
    crc16_round crc32_ieee crc32_from crc32_rounds crc32_round
result_received = refl

receive-IsAccepted_example :
    (f : Frame) × (decode result ≡ some f)
    × IsAccepted asked f
    × ((record asked { pending = false }).pending ≡ false)
receive-IsAccepted_example =
    receive-IsAccepted asked (record asked { pending = false }) result result_received

noise_received : receive asked (1 ∷ 2 ∷ []) ≡ (Status.bad_frame, asked)
unfolding receive decode
noise_received = refl

receive-keeps_example : asked ≡ asked
receive-keeps_example =
    receive-keeps asked asked (1 ∷ 2 ∷ []) Status.bad_frame noise_received (λ e. cc) (λ e. cc)

timeout-timeout_example :
    (wire ping ≡ wire ping)
    × (pinged.pending_type ≢ 3)
    × (timeout (record pinged { retry_count = 1 }) 40
        ≡ (failed Status.drop, record pinged { retry_count = 1; pending = false; ready = false }))
timeout-timeout_example =
    timeout-timeout pinged (record pinged { retry_count = 1 }) 40 40 (wire ping) ping_again

request-IsSent_example :
    (controller.ready ≡ true)
    × (controller.pending ≡ false)
    × IsSent controller asked (wire job) (request_frame controller 3 job_payload)
request-IsSent_example =
    request-IsSent controller asked 3 3 40 (some job_payload) (wire job) (omega arith) (omega arith)
      job_payload-AreBytes job-asked
