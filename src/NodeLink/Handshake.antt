-- ===== src/NodeLink/Handshake.antt =====
-- `dnl_controller_hello` and the worker's answer to it.
use deus_os_stm.Common.{ℕ, ◌≤◌, ◌<◌, ◌≡◌, ◌≢◌, refl, true, false, some, List, arith, u32_mod}
use deus_os_stm.NodeLink.Frame.{Status, sent, max_frame}
use deus_os_stm.NodeLink.Codec.{decode, validate_payload, wire, encode}
use deus_os_stm.NodeLink.Codec.Laws.{encode-sent, decode-encode}
use deus_os_stm.NodeLink.MessageType
use deus_os_stm.NodeLink.MessageType.{is_reply}
use deus_os_stm.NodeLink.Controller.{Controller, settle, receive_frame, receive, hello, hello_frame}
use deus_os_stm.NodeLink.Worker.{
  Worker, process, process_frame, process_hello, hello_ack_frame, open_session,
}
use deus_os_stm.NodeLink.Worker.Replies.{hello_ack-IsReply}
use deus_os_stm.NodeLink.Exchange.{IsSynced}

module _ (challenge : ℕ) (nonzero : challenge ≢ 0) (small : challenge < u32_mod) where
  hello-decodes :
      (capacity : ℕ)
      → max_frame ≤ capacity
      → (encode (hello_frame challenge) capacity ≡ sent (wire (hello_frame challenge)))
        × (decode (wire (hello_frame challenge)) ≡ some (hello_frame challenge))
  hello-decodes capacity room =
      decode-encode (hello_frame challenge) capacity (omega arith) (omega arith)

  ack-decodes :
      (capacity : ℕ)
      → max_frame ≤ capacity
      → (encode (hello_ack_frame challenge) capacity ≡ sent (wire (hello_ack_frame challenge)))
        × (decode (wire (hello_ack_frame challenge)) ≡ some (hello_ack_frame challenge))
  ack-decodes capacity room =
      decode-encode (hello_ack_frame challenge) capacity
        (hello_ack-IsReply challenge nonzero small).frame (omega arith)

  -- A worker of another session opens the new one.
  process-hello :
      (w : Worker) (capacity : ℕ)
      → challenge ≢ w.session_id
      → max_frame ≤ capacity
      → process w (wire (hello_frame challenge)) capacity ≡ (
        sent (wire (hello_ack_frame challenge)),
        open_session challenge (wire (hello_ack_frame challenge)),
      )
  unfolding process process_frame process_hello validate_payload
  process-hello w capacity fresh room =
      rw ((hello-decodes capacity room).1, process) (ground (arith, (ack-decodes capacity room).0))

  -- The acknowledgement makes the controller ready.
  receive-hello_ack :
      (c : Controller)
      → c.pending ≡ true
      → c.pending_type ≡ MessageType.hello
      → c.session_id ≡ challenge
      → c.last_sequence ≡ 1
      → receive c (wire (hello_ack_frame challenge))
        ≡ (Status.ok, record c { pending = false; ready = true })
  unfolding receive receive_frame settle validate_payload is_reply
  receive-hello_ack c p t s n = rw ((ack-decodes max_frame (omega arith)).1, receive) (ground arith)

-- The controller opens a session with a 32-bit challenge that is not the session of the worker,
-- whose buffer holds 40 bytes: the worker acknowledges it, the controller reports success on the
-- acknowledgement, and the two sides are synchronised. No other part of their earlier states
-- matters.
pub handshake :
    (c c' : Controller) (w : Worker) (challenge capacity capacity' : ℕ) (raw : List ℕ)
    → challenge < u32_mod
    → challenge ≢ w.session_id
    → max_frame ≤ capacity'
    → hello c challenge capacity ≡ (sent raw, c')
    → (reply : List ℕ) × (w' : Worker) × (c'' : Controller) × (process w raw capacity'
        ≡ (sent reply, w'))
      × (receive c' reply ≡ (Status.ok, c''))
      × IsSynced c'' w'
handshake c c' w challenge capacity capacity' raw small fresh room e = (
  wire (hello_ack_frame challenge),
  open_session challenge (wire (hello_ack_frame challenge)),
  record c' { pending = false; ready = true },
  rw (facts.1) (process-hello challenge facts.0 small w capacity' fresh room),
  receive-hello_ack challenge facts.0 small c' facts.2 facts.3 facts.4 facts.5,
  record { ready = refl; idle = refl; session_ne = facts.0; session = facts.4; sequence = facts.5 },
)
  where
    facts :
        (challenge ≢ 0)
        × (raw ≡ wire (hello_frame challenge))
        × (c'.pending ≡ true)
        × (c'.pending_type ≡ MessageType.hello)
        × (c'.session_id ≡ challenge)
        × (c'.last_sequence ≡ 1)
    facts = unfold hello in ground (arith, e, encode-sent (hello_frame challenge) capacity raw)
