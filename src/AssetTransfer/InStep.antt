-- ===== src/AssetTransfer/InStep.antt =====
-- The session and the candidate of asset_persistence.c go in step.
use deus_os_stm.Common.{
  ℕ, ◌≡◌, inl, refl, sym, ◌&&◌, not, length, get_or, leb, ◌==◌, if◌then◌else◌, if_intro,
}
use deus_os_stm.FlashPersistence.{Chip}
use deus_os_stm.BinaryFrame.Parser.{View}
use deus_os_stm.AssetPersistence.State.{Persistence}
use deus_os_stm.AssetPersistence.Ends.{Ends, Ends-if}
use deus_os_stm.AssetPersistence.Accepted.{Anything}
use deus_os_stm.AssetTransfer.Session.{Transfer, succeeded, idle_timeout_ms}
use deus_os_stm.AssetTransfer.Handlers.{
  handle_begin, handle_write, handle_commit, poll, time_elapsed, reset_session,
}
use deus_os_stm.AssetTransfer.Frames.{
  handle_abort, handle_status, handle_read, is_malformed, request_status, dispatch, handle_frame,
}
use deus_os_stm.AssetTransfer.Steps.{
  IsInStep, Answers, answered, begin_step-IsInStep, write_step-IsInStep, commit_step-IsInStep,
  abort_step-IsInStep, status_step-IsInStep,
}

dispatch-IsInStep :
    (chip : Chip) (now opcode : ℕ) (f : View) (t : Transfer) (p : Persistence)
    → length f.payload ≡ f.payload_length
    → IsInStep t p
    → Ends Answers Anything (dispatch chip now opcode f t p)
unfolding dispatch handle_begin handle_write handle_commit handle_abort handle_status handle_read
dispatch-IsInStep chip now opcode f t p e v =
    Ends-if Answers Anything (opcode == 1) _ _
      (λ _. answered _ _ (begin_step-IsInStep chip now f.payload t p v))
      (λ _.
        Ends-if Answers Anything (opcode == 2) _ _
          (λ _. rw (sym e) (answered _ _ (write_step-IsInStep chip now f.payload t p v)))
          (λ _.
            Ends-if Answers Anything (opcode == 3) _ _
              (λ _. answered _ _ (commit_step-IsInStep chip now f.payload t p v))
              (λ _.
                Ends-if Answers Anything (opcode == 4) _ _
                  (λ _. answered _ _ (abort_step-IsInStep f.payload t p v))
                  (λ _.
                    Ends-if Answers Anything (opcode == 5) _ _
                      (λ _. status_step-IsInStep now f.payload t p v)
                      (λ _. Ends-if Answers Anything (opcode == 6) _ _ (λ _. v) (λ _. v))))))

-- Every frame keeps the session and the candidate in step: without a session no candidate is
-- active, and with one the candidate is active and has accepted exactly the bytes before the next
-- offset, at most 8. This holds after every request, malformed and failing ones included, whatever
-- the flash controller does, unless the request resets the processor; the frame's payload has the
-- length that its header says.
pub handle_frame-IsInStep :
    (chip : Chip) (now : ℕ) (f : View) (t : Transfer) (p : Persistence)
    → length f.payload ≡ f.payload_length
    → IsInStep t p
    → Ends (λ a p'. IsInStep a.0 p') (λ p'. Unit) (handle_frame chip now f t p)
unfolding handle_frame
handle_frame-IsInStep chip now f t p e v =
    let opcode = if leb 2 f.payload_length then get_or f.payload 1 0 else 0 in
    Ends-if Answers Anything (is_malformed f) _ _ (λ _. v)
      (λ _.
        Ends-if Answers Anything (not (succeeded (request_status f opcode))) _ _ (λ _. v)
          (λ _. dispatch-IsInStep chip now opcode f t p e v))

-- The idle timeout keeps them in step, too.
poll-IsInStep :
    (now : ℕ) (t : Transfer) (p : Persistence)
    → IsInStep t p
    → IsInStep (poll now t p).0 (poll now t p).1
unfolding poll
poll-IsInStep now t p v =
    if_intro (λ (x : Transfer × Persistence). IsInStep x.0 x.1)
      (t.active && time_elapsed now t.last_activity_ms idle_timeout_ms) (reset_session t p) (t, p)
      (λ e. inl (refl, refl)) (λ e. v)
