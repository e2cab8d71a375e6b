-- ===== src/NodeLink/Worker/Replies.antt =====
-- The frames that `dnl_worker_process` stores and sends.
use deus_os_stm.Common.{
  ℕ, ◌≤◌, ◌<◌, ◌≡◌, refl, true, ◌==◌, arith, u16_mod, u32_mod, get_or, if_intro, not, ==→eq, ◌≢◌,
}
use deus_os_stm.NodeLink.Frame.{Frame, IsFrame}
use deus_os_stm.NodeLink.Codec.{validate_payload}
use deus_os_stm.NodeLink.MessageType.{is_reply}
use deus_os_stm.NodeLink.Worker.{
  Worker, hello_ack_frame, reply_frame, error_frame, pong_frame, result_frame, status_frame,
}
use deus_os_stm.NodeLink.MessageType

-- A frame that a controller may receive in a session under a sequence number.
pub record IsReply (session sequence : ℕ) (f : Frame) : Type 0 where
  pub frame : IsFrame f
  pub reply : is_reply f.type ≡ true
  pub valid : validate_payload f ≡ true
  pub same_session : f.session_id ≡ session
  pub same_sequence : f.sequence ≡ sequence

pub hello_ack-IsReply :
    (challenge : ℕ)
    → challenge ≢ 0
    → challenge < u32_mod
    → IsReply challenge 1 (hello_ack_frame challenge)
unfolding validate_payload is_reply
hello_ack-IsReply challenge h e = record {
  frame = omega arith;
  reply = refl;
  valid = ground arith;
  same_session = refl;
  same_sequence = refl;
}

pub error-IsReply :
    (type sequence session code : ℕ)
    → type < 256
    → 0 < sequence
    → sequence < u16_mod
    → session < u32_mod
    → 1 ≤ code
    → code ≤ 5
    → IsReply session sequence (error_frame type sequence session code)
unfolding validate_payload is_reply
error-IsReply type sequence session code h k l m n o = record {
  frame = omega arith;
  reply = refl;
  valid = ground arith;
  same_session = refl;
  same_sequence = refl;
}

module _ (session sequence : ℕ) (h : 0 < sequence) (k : sequence < u16_mod)
    (l : session < u32_mod) where
  pong-IsReply : IsReply session sequence (pong_frame sequence session)
  unfolding validate_payload is_reply
  pong-IsReply = record {
    frame = omega arith;
    reply = refl;
    valid = refl;
    same_session = refl;
    same_sequence = refl;
  }

  result-IsReply :
      (size crc : ℕ) → size ≤ 16 → IsReply session sequence (result_frame sequence session size crc)
  unfolding validate_payload is_reply
  result-IsReply size crc m = record {
    frame = omega arith;
    reply = refl;
    valid = ground arith;
    same_session = refl;
    same_sequence = refl;
  }

  status-IsReply : (jobs : ℕ) → IsReply session sequence (status_frame sequence session jobs)
  unfolding validate_payload is_reply
  status-IsReply jobs = record {
    frame = omega arith;
    reply = refl;
    valid = refl;
    same_session = refl;
    same_sequence = refl;
  }

job_size : (req : Frame) → validate_payload req ≡ true → req.type ≡ 3 → get_or req.payload 0 0 ≤ 16
unfolding validate_payload
job_size req h e = ground arith

pub reply_frame-IsReply :
    (w : Worker) (req : Frame)
    → IsFrame req
    → w.session_id < u32_mod
    → IsReply w.session_id req.sequence (reply_frame w req)
unfolding reply_frame
reply_frame-IsReply w req v h =
    if_intro P (not (validate_payload req)) _ _ (λ _. error 2 (omega arith) (omega arith))
      λ valid.
        if_intro P (req.type == MessageType.ping) _ _
          (λ _. pong-IsReply s n v.sequence_pos v.sequence_lt h)
          λ _.
            if_intro P (req.type == MessageType.job_crc32) _ _
              (λ e.
                result-IsReply s n v.sequence_pos v.sequence_lt h _ _
                  (job_size req (ground arith) (==→eq _ _ e)))
              λ _.
                if_intro P (req.type == MessageType.get_status) _ _
                  (λ _. status-IsReply s n v.sequence_pos v.sequence_lt h w.completed_jobs)
                  λ _. error 1 (omega arith) (omega arith)
  where
    s : ℕ
    s = w.session_id

    n : ℕ
    n = req.sequence

    P : Frame → Type 0
    P = IsReply s n

    error : (code : ℕ) → 1 ≤ code → code ≤ 5 → P (error_frame req.type n s code)
    error code = error-IsReply req.type n s code v.type_lt v.sequence_pos v.sequence_lt h
