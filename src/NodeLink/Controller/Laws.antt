-- ===== src/NodeLink/Controller/Laws.antt =====
-- What a reply and a timeout can do to the controller.
use deus_os_stm.Common.{
  ℕ, ◌+◌, ◌%◌, ◌<◌, ◌≡◌, ◌≢◌, refl, true, false, Option, some, Option-cases, inl, inr, List, take,
  get_or, ◌==◌, if◌then◌else◌, arith, bit_or, u8_mod, u16_mod, u32_mod, ◌⊎◌, AreBytes, All-take,
  length-take,
}
use deus_os_stm.NodeLink.Frame.{Status, sent, failed, Frame, IsFrame}
use deus_os_stm.NodeLink.Codec.{decode, validate_payload, wire}
use deus_os_stm.NodeLink.Codec.Laws.{encode-sent}
use deus_os_stm.NodeLink.MessageType
use deus_os_stm.NodeLink.MessageType.{is_reply}
use deus_os_stm.NodeLink.Controller.{
  Controller, settle, receive_frame, receive, timeout, request, request_frame, pointed,
}

settle-keeps :
    (c c' : Controller) (f : Frame) (s : Status)
    → settle c f ≡ (s, c')
    → s ≢ Status.ok
    → s ≢ Status.remote_error
    → c' ≡ c
unfolding settle
settle-keeps c c' f s e h k = ground arith

-- A reply that is neither the matched success nor the matched failure leaves the controller as it
-- was: it never consumes the pending request.
pub receive-keeps :
    (c c' : Controller) (raw : List ℕ) (s : Status)
    → receive c raw ≡ (s, c')
    → s ≢ Status.ok
    → s ≢ Status.remote_error
    → c' ≡ c
unfolding receive receive_frame
receive-keeps c c' raw s e h k = elim (Option-cases (decode raw)) [
  | inl d ↦ ground (arith, d)
  | inr (f, d) ↦ ground (arith, d, settle-keeps c c' f s)
]

-- What an accepted reply is.
pub record IsAccepted (c : Controller) (f : Frame) : Type 0 where
  pub awaited : c.pending ≡ true
  pub same_session : f.session_id ≡ c.session_id
  pub same_sequence : f.sequence ≡ c.last_sequence
  pub same_type : f.type ≡ bit_or c.pending_type 0x80 % u8_mod
  pub valid : validate_payload f ≡ true
  pub same_size :
      c.pending_type ≡ MessageType.job_crc32 → get_or f.payload 0 0 ≡ c.requested_job_length

receive_frame-IsAccepted :
    (c c' : Controller) (f : Frame)
    → receive_frame c f ≡ (Status.ok, c')
    → IsAccepted c f
      × (c'.pending ≡ false)
      × (c'.session_id ≡ c.session_id)
      × (c'.last_sequence ≡ c.last_sequence)
unfolding receive_frame settle
receive_frame-IsAccepted c c' f e = ground arith

-- Success is reported only for a frame that answers the pending request: its session, number, reply
-- type and payload, and for a job the count of its bytes. The request is then no longer pending.
pub receive-IsAccepted :
    (c c' : Controller) (raw : List ℕ)
    → receive c raw ≡ (Status.ok, c')
    → (f : Frame) × (decode raw ≡ some f) × IsAccepted c f × (c'.pending ≡ false)
unfolding receive
receive-IsAccepted c c' raw e = elim (Option-cases (decode raw)) [
  | inl d ↦ absurd (ground (arith, d))
  | inr (f, d) ↦ let r = receive_frame-IsAccepted c c' f (ground (arith, d)) in (f, d, r.0, r.1)
]

-- A timeout sends at most one retry, which is the pending request byte for byte; the next timeout
-- without a reply gives the request and the session up.
pub timeout-timeout :
    (c c' : Controller) (capacity capacity' : ℕ) (out : List ℕ)
    → timeout c capacity ≡ (sent out, c')
    → (out ≡ c.request_bytes)
      × (c.pending_type ≢ MessageType.job_crc32)
      × (timeout c' capacity' ≡ (failed Status.drop, record c' { pending = false; ready = false }))
unfolding timeout
timeout-timeout c c' capacity capacity' out e = ground arith

-- What a request that was sent puts on the wire, and what the controller waits for.
pub record IsSent (c c' : Controller) (raw : List ℕ) (f : Frame) : Type 0 where
  pub encoded : raw ≡ wire f
  pub next : f.sequence ≡ c.last_sequence + 1
  pub frame : IsFrame f
  pub session : f.session_id ≡ c.session_id
  pub valid : validate_payload f ≡ true
  pub known :
      (f.type ≡ MessageType.ping)
      ⊎ ((f.type ≡ MessageType.job_crc32) ⊎ (f.type ≡ MessageType.get_status))
  pub waits : c' ≡ record c {
    request_bytes = raw;
    pending = true;
    pending_type = f.type;
    retry_count = 0;
    last_sequence = f.sequence;
    requested_job_length = if f.type == MessageType.job_crc32 then get_or f.payload 0 0 else 0;
  }

-- A controller with a 32-bit session and a 16-bit sequence number that sends a request for a
-- payload of bytes was ready with nothing pending; what it sends is the encoding of a valid frame
-- of its session under the next sequence number, and the bytes are kept for a retry.
pub request-IsSent :
    (c c' : Controller) (type size capacity : ℕ) (payload : Option (List ℕ)) (raw : List ℕ)
    → c.session_id < u32_mod
    → c.last_sequence < u16_mod
    → AreBytes (pointed payload)
    → request c type payload size capacity ≡ (sent raw, c')
    → (c.ready ≡ true)
      × (c.pending ≡ false)
      × IsSent c c' raw (request_frame c type (take size (pointed payload)))
unfolding request
request-IsSent c c' type size capacity payload raw h k b e = (
  ground arith,
  ground arith,
  record {
    encoded = ground (arith, encode-sent f capacity raw);
    next = ground arith;
    frame = record {
      type_lt = ground arith;
      sequence_pos = ground arith;
      sequence_lt = ground arith;
      session_lt = h;
      payload_le = ground (arith, length-take size (pointed payload));
      payload_bytes = All-take _ size (pointed payload) b;
    };
    session = refl;
    valid = ground arith;
    known = ground arith;
    waits = ground arith;
  },
)
  where
    f : Frame
    f = request_frame c type (take size (pointed payload))
