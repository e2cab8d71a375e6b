-- ===== src/NodeLink/Worker/Replay.antt =====
-- Calls of `dnl_worker_process` for a request that comes again, and calls that send nothing.
use deus_os_stm.Common.{
  ℕ, ◌<◌, ◌≡◌, refl, true, false, List, [], ◌∷◌, length, arith, Option-cases, inl, inr,
}
use deus_os_stm.NodeLink.Frame.{Status, sent, failed, Frame, rd32}
use deus_os_stm.NodeLink.Codec.{decode}
use deus_os_stm.NodeLink.Codec.Laws.{encode-sent}
use deus_os_stm.NodeLink.Worker.{
  Worker, same_bytes, process_hello, hello_ack_frame, reply_frame, execute, process_request,
  process_frame, process, is_empty,
}

same_bytes_self : (xs : List ℕ) → same_bytes xs xs ≡ true
unfolding same_bytes
same_bytes_self [] = refl
same_bytes_self (x ∷ xs) = ground (arith, same_bytes_self xs)

is_empty-false : (xs : List ℕ) → 0 < length xs → is_empty xs ≡ false
is_empty-false [] h = absurd (omega arith)
is_empty-false (_ ∷ _) h = refl

module _ (req : Frame) (raw : List ℕ) (capacity : ℕ) (reply : List ℕ) (w w' : Worker) where
  replay_hello :
      process_hello w req capacity ≡ (sent reply, w')
      → process_hello w' req capacity ≡ (sent reply, w')
  unfolding process_hello
  replay_hello e =
      ground (
        arith,
        is_empty-false reply,
        encode-sent (hello_ack_frame (rd32 req.payload)) capacity reply,
      )

  replay_request :
      process_request w req raw capacity ≡ (sent reply, w')
      → process_request w' req raw capacity ≡ (sent reply, w')
  unfolding process_request execute
  replay_request e =
      ground (arith, same_bytes_self raw, encode-sent (reply_frame w req) capacity reply)

  request-session :
      process_request w req raw capacity ≡ (sent reply, w') → w'.session_id ≡ w.session_id
  unfolding process_request execute
  request-session e = ground arith

  replay_frame :
      process_frame w req raw capacity ≡ (sent reply, w')
      → process_frame w' req raw capacity ≡ (sent reply, w')
  unfolding process_frame
  replay_frame e = ground (arith, replay_hello, replay_request, request-session)

-- A request that was answered is answered again with the same bytes, and the worker stays as the
-- first answer left it: a retransmitted job is not executed twice.
pub process-process :
    (w w' : Worker) (raw reply : List ℕ) (capacity : ℕ)
    → process w raw capacity ≡ (sent reply, w')
    → process w' raw capacity ≡ (sent reply, w')
unfolding process
process-process w w' raw reply capacity e = elim (Option-cases (decode raw)) [
  | inl h ↦ ground (arith, h)
  | inr (req, h) ↦ rw (h, process) (replay_frame req raw capacity reply w w' (ground (arith, h)))
]

module _ (w : Worker) (req : Frame) (raw : List ℕ) (capacity : ℕ) (w' : Worker) (s : Status) where
  hello-failed : process_hello w req capacity ≡ (failed s, w') → w' ≡ w
  unfolding process_hello
  hello-failed e = ground arith

  request-failed : process_request w req raw capacity ≡ (failed s, w') → w' ≡ w
  unfolding process_request execute
  request-failed e = ground arith

-- Where no reply is placed, because the request is dropped or the buffer is too small, the state of
-- the worker is unchanged.
pub process-failed :
    (w w' : Worker) (raw : List ℕ) (capacity : ℕ) (s : Status)
    → process w raw capacity ≡ (failed s, w')
    → w' ≡ w
unfolding process process_frame
process-failed w w' raw capacity s e = elim (Option-cases (decode raw)) [
  | inl h ↦ ground (arith, h)
  | inr (req, h) ↦
      ground
        (arith, h, hello-failed w req raw capacity w' s, request-failed w req raw capacity w' s)
]
