-- ===== src/NodeLink/Exchange.antt =====
-- A controller and a worker together: the exchange of one request, with and without a lost reply.
use deus_os_stm.Common.{
  ℕ, ◌+◌, ◌%◌, ◌≤◌, ◌<◌, ◌≡◌, ◌≢◌, refl, sym, ap, ◌∙◌, subst, subst₂, true, false, Option, some,
  inl, inr, List, take, get_or, ◌==◌, if◌then◌else◌, arith, bit_or, u8_mod, u16_mod, u32_mod, ◌⊎◌,
  AreBytes,
}
use deus_os_stm.NodeLink.Frame.{Status, sent, Frame, max_frame}
use deus_os_stm.NodeLink.Codec.{decode, validate_payload, wire, encode}
use deus_os_stm.NodeLink.Codec.Laws.{decode-encode}
use deus_os_stm.NodeLink.MessageType
use deus_os_stm.NodeLink.MessageType.{is_reply}
use deus_os_stm.NodeLink.Controller.{
  Controller, settle, receive_frame, receive, timeout, request, request_frame, pointed,
}
use deus_os_stm.NodeLink.Controller.Laws.{IsSent, request-IsSent}
use deus_os_stm.NodeLink.Worker.{
  Worker, process, process_frame, process_request, execute, retained, reply_frame, pong_frame,
  result_frame, status_frame, job_crc, jobs_after,
}
use deus_os_stm.NodeLink.Worker.Replies.{IsReply, reply_frame-IsReply}
use deus_os_stm.NodeLink.Worker.Replay.{process-process}

-- The handshake is done, nothing is pending, and both sides count alike.
pub record IsSynced (c : Controller) (w : Worker) : Type 0 where
  pub ready : c.ready ≡ true
  pub idle : c.pending ≡ false
  pub session_ne : w.session_id ≢ 0
  pub session : c.session_id ≡ w.session_id
  pub sequence : c.last_sequence ≡ w.highest_sequence

abbrev Known : Worker → Frame → Type 0
Known w f =
    ((reply_frame w f).type ≡ bit_or f.type 0x80 % u8_mod)
    × ((reply_frame w f).type ≢ MessageType.error)
    × (f.type ≢ MessageType.hello)
    × (f.type < 0x80)
    × (f.type ≡ MessageType.job_crc32 → get_or (reply_frame w f).payload 0 0 ≡ get_or f.payload 0 0)

-- The reply to a valid request of one of the three kinds that a controller sends.
reply_frame-Known :
    (w : Worker) (f : Frame)
    → validate_payload f ≡ true
    → (f.type ≡ MessageType.ping)
      ⊎ ((f.type ≡ MessageType.job_crc32) ⊎ (f.type ≡ MessageType.get_status))
    → Known w f
reply_frame-Known w f h (inl e) =
    let r : reply_frame w f ≡ pong_frame f.sequence w.session_id =
      unfold reply_frame in ground arith in
    rw (r, e) (refl, omega arith, omega arith, omega arith, λ k. absurd (omega arith))
reply_frame-Known w f h (inr (inl e)) =
    let r : reply_frame w f
        ≡ result_frame f.sequence w.session_id (get_or f.payload 0 0) (job_crc f.payload) =
      unfold reply_frame in ground arith in
    rw (r, e) (refl, omega arith, omega arith, omega arith, λ k. refl)
reply_frame-Known w f h (inr (inr e)) =
    let r : reply_frame w f ≡ status_frame f.sequence w.session_id w.completed_jobs =
      unfold reply_frame in ground arith in
    rw (r, e) (refl, omega arith, omega arith, omega arith, λ k. absurd (omega arith))

-- The reply to the pending request is accepted.
receive_frame-reply :
    (c : Controller) (g : Frame)
    → c.pending ≡ true
    → IsReply c.session_id c.last_sequence g
    → g.type ≡ bit_or c.pending_type 0x80 % u8_mod
    → g.type ≢ MessageType.error
    → c.pending_type ≢ MessageType.hello
    → (c.pending_type ≡ MessageType.job_crc32 → get_or g.payload 0 0 ≡ c.requested_job_length)
    → receive_frame c g ≡ (Status.ok, record c { pending = false })
unfolding receive_frame settle
receive_frame-reply c g p r t e h k = ground arith

-- The worker executes the next request of its session.
process-next :
    (w : Worker) (f : Frame) (raw : List ℕ) (capacity : ℕ)
    → decode raw ≡ some f
    → f.type < 0x80
    → f.type ≢ MessageType.hello
    → w.session_id ≢ 0
    → f.session_id ≡ w.session_id
    → f.sequence ≡ w.highest_sequence + 1
    → process w raw capacity ≡ execute w f raw capacity
unfolding process process_frame process_request
process-next w f raw capacity d t h z s n = ground arith

-- The worker after it has executed a request.
abbrev executed : Worker → Frame → List ℕ → Worker
executed w f raw = record w {
  last_request = raw;
  last_reply = wire (reply_frame w f);
  has_last = true;
  highest_sequence = f.sequence;
  completed_jobs = jobs_after w f (reply_frame w f);
}

module _ (c c' : Controller) (w : Worker) (f : Frame) (raw : List ℕ) (capacity : ℕ)
    (v : IsSynced c w) (session_lt : w.session_id < u32_mod) (room : max_frame ≤ capacity)
    (asked : IsSent c c' raw f) where
  decodes : decode raw ≡ some f
  decodes =
      ap decode asked.encoded
      ∙ (decode-encode f max_frame asked.frame (omega (arith, asked.frame.payload_le))).1

  answer : IsReply w.session_id f.sequence (reply_frame w f)
  answer = reply_frame-IsReply w f asked.frame session_lt

  answer-wire :
      (encode (reply_frame w f) capacity ≡ sent (wire (reply_frame w f)))
      × (decode (wire (reply_frame w f)) ≡ some (reply_frame w f))
  answer-wire =
      decode-encode (reply_frame w f) capacity answer.frame (omega (arith, answer.frame.payload_le))

  process-asked : process w raw capacity ≡ (sent (wire (reply_frame w f)), executed w f raw)
  process-asked =
      process-next w f raw capacity decodes known.3 known.2 v.session_ne (asked.session ∙ v.session)
        (asked.next ∙ ap (λ n. n + 1) v.sequence)
      ∙ unfold execute in ap (retained w f (reply_frame w f) raw) answer-wire.0
    where
      known : Known w f
      known = reply_frame-Known w f asked.valid asked.known

  receive-asked :
      (d : Controller)
      → d.pending ≡ true
      → d.pending_type ≡ f.type
      → d.session_id ≡ w.session_id
      → d.last_sequence ≡ f.sequence
      → d.requested_job_length
        ≡ (if f.type == MessageType.job_crc32 then get_or f.payload 0 0 else 0)
      → receive d (wire (reply_frame w f)) ≡ (Status.ok, record d { pending = false })
  unfolding receive
  receive-asked d p t s n j =
      rw (answer-wire.1, receive)
        (receive_frame-reply d (reply_frame w f) p
          (subst₂ (λ a b. IsReply a b (reply_frame w f)) (sym s) (sym n) answer) (rw t known.0)
          known.1 (rw t known.2)
          λ job.
            let is_job : f.type ≡ MessageType.job_crc32 = sym t ∙ job in
            known.4 is_job ∙ sym (j ∙ rw is_job))
    where
      known : Known w f
      known = reply_frame-Known w f asked.valid asked.known

  synced :
      (d : Controller)
      → d.ready ≡ true
      → d.pending ≡ false
      → d.session_id ≡ w.session_id
      → d.last_sequence ≡ f.sequence
      → IsSynced d (executed w f raw)
  synced d r p s n = record {
    ready = r;
    idle = p;
    session_ne = v.session_ne;
    session = s;
    sequence = n;
  }

-- The controller that waits for the reply to a request.
abbrev awaiting : Controller → Frame → List ℕ → Controller
awaiting c f raw = record c {
  request_bytes = raw;
  pending = true;
  pending_type = f.type;
  retry_count = 0;
  last_sequence = f.sequence;
  requested_job_length = if f.type == MessageType.job_crc32 then get_or f.payload 0 0 else 0;
}

-- Let the two sides be synchronised, with a 32-bit session and a 16-bit sequence number, and let
-- the controller send a request for a payload of bytes to a worker whose buffer holds 40 bytes.
-- Then the worker answers it with the encoding of the reply that `reply_frame` describes, the
-- controller reports success on that reply, and the two sides are synchronised again.
pub exchange :
    (c c' : Controller) (w : Worker) (type size capacity capacity' : ℕ) (payload : Option (List ℕ))
    (raw : List ℕ)
    → IsSynced c w
    → w.session_id < u32_mod
    → c.last_sequence < u16_mod
    → AreBytes (pointed payload)
    → max_frame ≤ capacity'
    → request c type payload size capacity ≡ (sent raw, c')
    → (f : Frame) × (g : Frame) × (w' : Worker) × (c'' : Controller) × (f
        ≡ request_frame c type (take size (pointed payload)))
      × (g ≡ reply_frame w f)
      × (process w raw capacity' ≡ (sent (wire g), w'))
      × (receive c' (wire g) ≡ (Status.ok, c''))
      × IsSynced c'' w'
exchange c c' w type size capacity capacity' payload raw v h k b room e = (
  f,
  reply_frame w f,
  executed w f raw,
  record c' { pending = false },
  refl,
  refl,
  process-asked c c' w f raw capacity' v h room asked,
  receive-asked c c' w f raw capacity' v h room asked c' (at (λ d. d.pending))
      (at (λ d. d.pending_type)) (at (λ d. d.session_id) ∙ v.session) (at (λ d. d.last_sequence))
      (at (λ d. d.requested_job_length)),
  synced c c' w f raw capacity' v h room asked (record c' { pending = false })
      (at (λ d. d.ready) ∙ v.ready) refl (at (λ d. d.session_id) ∙ v.session)
      (at (λ d. d.last_sequence)),
)
  where
    f : Frame
    f = request_frame c type (take size (pointed payload))

    asked : IsSent c c' raw f
    asked = (request-IsSent c c' type size capacity payload raw (omega (arith, v.session)) k b e).2

    at : {A : Type 0} (p : Controller → A) → p c' ≡ p (awaiting c f raw)
    at p = ap p asked.waits

-- Let the two sides be synchronised as in `exchange`, let a request be sent, its reply be lost,
-- and the timeout send a retry. Then the worker answers the request and the retry with the same
-- bytes and is after the retry as the first answer left it, so that it executes nothing twice; the
-- controller reports success on the second reply, and the two sides are synchronised again.
pub exchange_after_loss :
    (c c' d : Controller) (w : Worker) (type size capacity capacity' retry_capacity : ℕ)
    (payload : Option (List ℕ)) (raw retry : List ℕ)
    → IsSynced c w
    → w.session_id < u32_mod
    → c.last_sequence < u16_mod
    → AreBytes (pointed payload)
    → max_frame ≤ capacity'
    → request c type payload size capacity ≡ (sent raw, c')
    → timeout c' retry_capacity ≡ (sent retry, d)
    → (reply : List ℕ) × (w' : Worker) × (d' : Controller) × (process w raw capacity'
        ≡ (sent reply, w'))
      × (process w' retry capacity' ≡ (sent reply, w'))
      × (receive d reply ≡ (Status.ok, d'))
      × IsSynced d' w'
exchange_after_loss c c' d w type size capacity capacity' retry_capacity payload raw retry v h k b
      room e t =
    (
      wire (reply_frame w f),
      executed w f raw,
      record d { pending = false },
      first,
      subst
          (λ r.
            process (executed w f raw) r capacity'
            ≡ (sent (wire (reply_frame w f)), executed w f raw))
          (sym same)
          (process-process w (executed w f raw) raw (wire (reply_frame w f)) capacity' first),
      receive-asked c c' w f raw capacity' v h room asked d (at (λ x. x.pending))
          (at (λ x. x.pending_type)) (at (λ x. x.session_id) ∙ v.session)
          (at (λ x. x.last_sequence)) (at (λ x. x.requested_job_length)),
      synced c c' w f raw capacity' v h room asked (record d { pending = false })
          (at (λ x. x.ready) ∙ v.ready) refl (at (λ x. x.session_id) ∙ v.session)
          (at (λ x. x.last_sequence)),
    )
  where
    f : Frame
    f = request_frame c type (take size (pointed payload))

    asked : IsSent c c' raw f
    asked = (request-IsSent c c' type size capacity payload raw (omega (arith, v.session)) k b e).2

    first : process w raw capacity' ≡ (sent (wire (reply_frame w f)), executed w f raw)
    first = process-asked c c' w f raw capacity' v h room asked

    repeated : (retry ≡ c'.request_bytes) × (d ≡ record c' { retry_count = 1 })
    repeated = unfold timeout in ground (arith, t)

    same : retry ≡ raw
    same = repeated.0 ∙ ap (λ x. x.request_bytes) asked.waits

    at : {A : Type 0} (p : Controller → A) → p d ≡ p (record (awaiting c f raw) { retry_count = 1 })
    at p = ap p repeated.1 ∙ ap (λ x. p (record x { retry_count = 1 })) asked.waits
