-- ===== src/AssetTransfer/Examples.antt =====
-- Requests to a session that is new, with a flash that was empty.
use deus_os_stm.Common.{ℕ, ◌≡◌, ◌≢◌, ◌⊎◌, inl, refl, false, true, List, [], ◌∷◌, length, arith}
use deus_os_stm.BinaryFrame.Parser.{View}
use deus_os_stm.AssetPersistence.State.{returned}
use deus_os_stm.AssetPersistence.Ends.{Ends}
use deus_os_stm.FlashPersistence.Examples.{chip}
use deus_os_stm.AssetPersistence.Examples.{empty}
use deus_os_stm.AssetTransfer.Session.{Status, Transfer, succeeded}
use deus_os_stm.AssetTransfer.Handlers.{touched, write_step}
use deus_os_stm.AssetTransfer.Frames.{handle_frame}
use deus_os_stm.AssetTransfer.Steps.{IsInStep}
use deus_os_stm.AssetTransfer.InStep.{handle_frame-IsInStep}
use deus_os_stm.AssetTransfer.Requests.{handle_frame-Untouched}
use deus_os_stm.AssetTransfer.Retry.{write_step-Repeats}

abbrev fresh : Transfer
fresh = record {
  last_activity_ms = 0;
  payload_crc32 = 0;
  transfer_id = 0;
  next_offset = 0;
  last_chunk_length = 0;
  active = false;
  last_chunk = 0 ∷ 0 ∷ 0 ∷ 0 ∷ 0 ∷ 0 ∷ 0 ∷ 0 ∷ [];
}

abbrev receiving : Transfer
receiving = record fresh { transfer_id = 7; active = true }

-- A begin of the transfer 7, with the checksum 0x2c45fcfd.
abbrev begin_request : View
begin_request = record {
  version = 1;
  frame_type = 3;
  flags = 1;
  reserved = 0;
  request_id = 9;
  payload_length = 16;
  payload = 1 ∷ 1 ∷ 1 ∷ 0 ∷ 7 ∷ 0 ∷ 8 ∷ 0 ∷ 1 ∷ 0 ∷ 0xfd ∷ 0xfc ∷ 0x45 ∷ 0x2c ∷ 0 ∷ 0 ∷ [];
}

abbrev status_request : View
status_request = record begin_request {
  flags = 0;
  payload_length = 6;
  payload = 1 ∷ 5 ∷ 1 ∷ 0 ∷ 0 ∷ 0 ∷ [];
}

-- The bytes 1 2 10 at the offset 0 of the transfer 7.
abbrev chunk : List ℕ
chunk = 1 ∷ 2 ∷ 1 ∷ 0 ∷ 7 ∷ 0 ∷ 0 ∷ 0 ∷ 3 ∷ 0 ∷ 1 ∷ 2 ∷ 10 ∷ []

handle_frame-IsInStep_example :
    Ends (λ a p'. IsInStep a.0 p') (λ p'. Unit) (handle_frame chip 5 begin_request fresh empty)
handle_frame-IsInStep_example =
    handle_frame-IsInStep chip 5 begin_request fresh empty refl (inl (refl, refl))

no_flag : status_request.flags ≢ 1
no_flag e = absurd (omega arith)

handle_frame-Untouched_example :
    Ends
      (λ a p'. (p'.flash ≡ empty.flash) × (p'.active_record ≡ empty.active_record))
      (λ p'. ⊥)
      (handle_frame chip 5 status_request receiving empty)
handle_frame-Untouched_example =
    handle_frame-Untouched empty chip 5 status_request receiving no_flag

write_step-Repeats_example :
    Ends
      (λ a p'.
        (succeeded a.1 ≡ false)
        ⊎ (write_step chip 6 (length chunk) chunk a.0 p' ≡ returned (touched 6 a.0, Status.ok) p'))
      (λ p'. Unit)
      (write_step chip 5 (length chunk) chunk receiving empty)
write_step-Repeats_example = write_step-Repeats chip 6 chunk 5 receiving empty
