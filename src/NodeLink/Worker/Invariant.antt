-- ===== src/NodeLink/Worker/Invariant.antt =====
-- The invariant of the worker, and what each of its answers is.
use deus_os_stm.Common.{
  ℕ, ◌+◌, ◌≤◌, ◌<◌, ◌≡◌, refl, true, false, List, [], ltb, leb, ◌==◌, arith, ◌&&◌, ◌||◌, ◌!=◌, some,
  Option-cases, inl, inr, u16_mod, u32_mod, AreBytes, ◌⊎◌, get_or, byte_at, if_intro, ==→eq, ◌≢◌,
  sym, ap, ◌∙◌, subst,
}
use deus_os_stm.NodeLink.Frame.{Status, Output, sent, failed, Frame, IsFrame, rd32}
use deus_os_stm.NodeLink.Codec.{encode, decode, validate_payload, wire}
use deus_os_stm.NodeLink.Codec.Laws.{encode-sent}
use deus_os_stm.NodeLink.Codec.Canonical.{encode-decode}
use deus_os_stm.NodeLink.MessageType.{is_reply}
use deus_os_stm.NodeLink.Worker.{
  Worker, process_hello, hello_ack_frame, reply_frame, execute, process_request, process_frame,
  process, is_empty, opened, retained, resend,
}
use deus_os_stm.NodeLink.MessageType
use mathlib.Core.Bool.{false≢true}
use deus_os_stm.NodeLink.Worker.{hello_refused, hello_repeated, same_request, bad_sequence_frame}
use deus_os_stm.NodeLink.Worker.Replies.{
  IsReply, hello_ack-IsReply, error-IsReply, reply_frame-IsReply,
}

-- What a worker holds: counters within their types, no more jobs than requests, and stored replies
-- that are encodings of replies of the open session.
pub record IsWorker (w : Worker) : Type 0 where
  pub session_lt : w.session_id < u32_mod
  pub highest_lt : w.highest_sequence < u16_mod
  pub jobs_le : w.completed_jobs ≤ w.highest_sequence
  pub hello_stored :
      (w.hello_reply ≡ []) ⊎ ((f : Frame) × (w.hello_reply ≡ wire f) × IsReply w.session_id 1 f)
  pub last_stored :
      (w.has_last ≡ false)
      ⊎ ((f : Frame) × (w.last_reply ≡ wire f) × IsReply w.session_id w.highest_sequence f)

-- Some request with this number was answered by these bytes.
abbrev pub Answers : Worker → ℕ → List ℕ → Type 0
Answers w sequence reply = (f : Frame) × (reply ≡ wire f) × IsReply w.session_id sequence f

abbrev Good : Frame → Output × Worker → Type 0
Good req r = IsWorker r.1 × ((reply : List ℕ) → r.0 ≡ sent reply → Answers r.1 req.sequence reply)

silent : (req : Frame) (w : Worker) (s : Status) → IsWorker w → Good req (failed s, w)
silent req w s v = (v, λ reply e. cc)

module _ (w : Worker) (v : IsWorker w) (req : Frame) (r : IsFrame req) (capacity : ℕ) where
  resend-Good :
      (stored : List ℕ)
      → (f : Frame) × (stored ≡ wire f) × IsReply w.session_id req.sequence f
      → Good req (resend stored capacity, w)
  resend-Good stored (f, e, k) = (v, λ reply h. (f, ground arith, k))

  encode-Good : (f : Frame) → IsReply w.session_id req.sequence f → Good req (encode f capacity, w)
  encode-Good f k = (v, λ reply h. (f, (encode-sent f capacity reply h).0, k))

  opened-Good :
      (challenge : ℕ) (out : Output)
      → req.sequence ≡ 1
      → challenge ≢ 0
      → challenge < u32_mod
      → encode (hello_ack_frame challenge) capacity ≡ out
      → Good req (opened w challenge out)
  opened-Good challenge (failed s) e h k c = silent req w s v
  opened-Good challenge (sent reply) e h k c = (
    record {
      session_lt = k;
      highest_lt = omega arith;
      jobs_le = omega arith;
      hello_stored = inr (ack, is_wire, good);
      last_stored = inl refl;
    },
    λ reply' h'. (ack, ground (arith, is_wire), subst (λ n. IsReply challenge n ack) (sym e) good),
  )
    where
      ack : Frame
      ack = hello_ack_frame challenge

      good : IsReply challenge 1 ack
      good = hello_ack-IsReply challenge h k

      is_wire : reply ≡ wire ack
      is_wire = (encode-sent ack capacity reply c).0

  stored_hello :
      (xs : List ℕ)
      → is_empty xs ≡ false
      → (xs ≡ []) ⊎ ((f : Frame) × (xs ≡ wire f) × IsReply w.session_id 1 f)
      → (f : Frame) × (xs ≡ wire f) × IsReply w.session_id 1 f
  stored_hello xs k (inl e) = absurd (false≢true (sym k ∙ ap is_empty e))
  stored_hello xs k (inr h) = h

  hello_facts :
      req.type ≡ 1
      → hello_refused req ≡ false
      → (req.sequence ≡ 1) × (rd32 req.payload ≢ 0) × (rd32 req.payload < u32_mod)
  unfolding validate_payload
  hello_facts t e = ground (arith, at 0, at 1, at 2, at 3)
    where
      at : (i : ℕ) → get_or req.payload i 0 < 256
      at i = byte_at req.payload i r.payload_bytes

  process_hello-Good : req.type ≡ 1 → Good req (process_hello w req capacity)
  unfolding process_hello
  process_hello-Good t =
      if_intro (Good req) (hello_refused req) _ _ (λ _. silent req w Status.drop v)
        λ accepted.
          let facts = hello_facts t accepted in
          if_intro (Good req) (hello_repeated w req) _ _
            (λ again. resend-Good w.hello_reply (hello_again facts.0 again))
            λ fresh. opened-Good (rd32 req.payload) _ facts.0 facts.1 facts.2 refl
    where
      hello_again :
          req.sequence ≡ 1
          → hello_repeated w req ≡ true
          → (f : Frame) × (w.hello_reply ≡ wire f) × IsReply w.session_id req.sequence f
      hello_again e again =
          subst (λ n. (f : Frame) × (w.hello_reply ≡ wire f) × IsReply w.session_id n f) (sym e)
            (stored_hello w.hello_reply (ground (arith, again)) v.hello_stored)

  stored_last :
      w.has_last ≡ true
      → (f : Frame) × (w.last_reply ≡ wire f) × IsReply w.session_id w.highest_sequence f
  stored_last k = elim v.last_stored [ inl e ↦ absurd (false≢true (sym e ∙ k)) | inr h ↦ h ]

  execute-Good :
      (raw : List ℕ) (out : Output)
      → req.sequence ≡ w.highest_sequence + 1
      → encode (reply_frame w req) capacity ≡ out
      → Good req (retained w req (reply_frame w req) raw out)
  execute-Good raw (failed s) e c = silent req w s v
  execute-Good raw (sent reply) e c = (
    record {
      session_lt = v.session_lt;
      highest_lt = r.sequence_lt;
      jobs_le = ground (arith, v.jobs_le);
      hello_stored = v.hello_stored;
      last_stored = inr (f, is_wire, good);
    },
    λ reply' h. (f, ground (arith, is_wire), good),
  )
    where
      f : Frame
      f = reply_frame w req

      good : IsReply w.session_id req.sequence f
      good = reply_frame-IsReply w req r v.session_lt

      is_wire : reply ≡ wire f
      is_wire = (encode-sent f capacity reply c).0

  process_request-Good : (raw : List ℕ) → Good req (process_request w req raw capacity)
  unfolding process_request execute
  process_request-Good raw =
      if_intro (Good req) (req.sequence == w.highest_sequence && w.has_last) _ _
        (λ held.
          if_intro (Good req) (same_request w raw) _ _
            (λ _. resend-Good w.last_reply (last_again held)) (λ _. bad_sequence))
        (λ _.
          if_intro (Good req) (ltb req.sequence w.highest_sequence) _ _
            (λ _. silent req w Status.drop v)
            λ _.
              if_intro (Good req) (req.sequence != w.highest_sequence + 1) _ _ (λ _. bad_sequence)
                λ next. execute-Good raw _ (ground (arith, next)) refl)
    where
      bad_sequence : Good req (encode (bad_sequence_frame w req) capacity, w)
      bad_sequence = encode-Good (bad_sequence_frame w req) (
          error-IsReply req.type req.sequence w.session_id 4 r.type_lt r.sequence_pos r.sequence_lt
            v.session_lt (omega arith) (omega arith))

      last_again :
          (req.sequence == w.highest_sequence && w.has_last) ≡ true
          → (f : Frame) × (w.last_reply ≡ wire f) × IsReply w.session_id req.sequence f
      last_again held =
          let e : req.sequence ≡ w.highest_sequence = ground (arith, held) in
          let k : w.has_last ≡ true = ground (arith, held) in
          subst (λ n. (f : Frame) × (w.last_reply ≡ wire f) × IsReply w.session_id n f) (sym e)
            (stored_last k)

  process_frame-Good : (raw : List ℕ) → Good req (process_frame w req raw capacity)
  unfolding process_frame
  process_frame-Good raw =
      if_intro (Good req) (leb 0x80 req.type) _ _ (λ _. silent req w Status.drop v)
        λ _.
          if_intro (Good req) (req.type == MessageType.hello) _ _
            (λ t. process_hello-Good (==→eq _ _ t))
            λ _.
              if_intro (Good req) (w.session_id == 0 || req.session_id != w.session_id) _ _
                (λ _. silent req w Status.drop v) λ _. process_request-Good raw

-- A worker in its invariant keeps it whatever bytes arrive, all below 256, and whatever the size
-- of the reply buffer.
pub process-IsWorker :
    (w : Worker) (raw : List ℕ) (capacity : ℕ)
    → IsWorker w
    → AreBytes raw
    → IsWorker (process w raw capacity).1
unfolding process
process-IsWorker w raw capacity v b = elim (Option-cases (decode raw)) [
  | inl h ↦ rw (h, process) v
  | inr (req, h) ↦
      rw (h, process) ((process_frame-Good w v req (encode-decode raw req b h).0 capacity raw).0)
]

-- What a worker in its invariant sends for bytes, all below 256, that decode to a request is the
-- encoding of a reply: a reply type with a payload that `dnl_validate_payload` accepts, in the
-- session that is open after the call, with the sequence number of the request.
pub process-Answers :
    (w w' : Worker) (raw : List ℕ) (capacity : ℕ) (req : Frame) (reply : List ℕ)
    → IsWorker w
    → AreBytes raw
    → decode raw ≡ some req
    → process w raw capacity ≡ (sent reply, w')
    → Answers w' req.sequence reply
unfolding process
process-Answers w w' raw capacity req reply v b h e =
    subst (λ u. Answers u req.sequence reply) (ap (λ p. p.1) step)
      ((process_frame-Good w v req (encode-decode raw req b h).0 capacity raw).1 reply
        (ap (λ p. p.0) step))
  where
    step : process_frame w req raw capacity ≡ (sent reply, w')
    step = ground (arith, h)
