-- ===== src/AssetTransfer/Requests.antt =====
-- What a request may change, and what a chunk that is sent again does.
use deus_os_stm.Common.{
  ℕ, ◌≤◌, ◌≡◌, ◌≢◌, ◌⊎◌, refl, true, ◌&&◌, not, List, get_or, leb, ◌==◌, ◌!=◌, if◌then◌else◌, arith,
}
use deus_os_stm.FlashPersistence.{Chip}
use deus_os_stm.BinaryFrame.Parser.{View}
use deus_os_stm.AssetPersistence.Layout.{object_type}
use deus_os_stm.AssetPersistence.State.{Persistence, Outcome, returned, bind}
use deus_os_stm.AssetPersistence.Ends.{Ends, Ends-bind, Ends-if}
use deus_os_stm.AssetTransfer.Session.{Transfer, succeeded, get_u16, allow_destructive}
use deus_os_stm.AssetTransfer.Frames.{
  abort_step, handle_abort, handle_status, handle_read, is_malformed, request_status, dispatch,
  handle_frame,
}

-- An opcode that needs no flag.
needs_flag :
    (f : View) (opcode : ℕ)
    → f.flags ≢ allow_destructive
    → succeeded (request_status f opcode) ≡ true
    → (opcode ≡ 0) ⊎ (4 ≤ opcode)
unfolding request_status
needs_flag f opcode n e = ground (arith, n)

module _ (p : Persistence) where
  -- The flash and the active record are as in `p`.
  abbrev pub Untouched : Persistence → Type 0
  Untouched p' = (p'.flash ≡ p.flash) × (p'.active_record ≡ p.active_record)

  abbrev Never : Persistence → Type 0
  Never p' = ⊥

  answered :
      {A B : Type 0} (o : Outcome A) (f : A → Persistence → B)
      → Ends (λ _. Untouched) Never o
      → Ends (λ _. Untouched) Never (bind o (λ a p'. returned (f a p') p'))
  answered o f h = Ends-bind (λ _. Untouched) Never o (λ a p'. returned (f a p') p') h (λ a p' v. v)

  abort_step-Untouched :
      (payload : List ℕ) (t : Transfer) → Ends (λ _. Untouched) Never (abort_step payload t p)
  unfolding abort_step
  abort_step-Untouched payload t =
      Ends-if (λ _. Untouched) Never (get_u16 payload 2 != object_type) _ _ (λ e. (refl, refl))
        (λ _.
          Ends-if (λ _. Untouched) Never (t.active && t.transfer_id != get_u16 payload 4) _ _
            (λ e. (refl, refl))
            (λ _.
              Ends-if (λ _. Untouched) Never t.active _ _ (λ e. (refl, refl)) (λ e. (refl, refl))))

  dispatch-Untouched :
      (chip : Chip) (now opcode : ℕ) (f : View) (t : Transfer)
      → (opcode ≡ 0) ⊎ (4 ≤ opcode)
      → Ends (λ _. Untouched) Never (dispatch chip now opcode f t p)
  unfolding dispatch handle_abort handle_status handle_read
  dispatch-Untouched chip now opcode f t n =
      Ends-if (λ _. Untouched) Never (opcode == 1) _ _ (λ e. absurd (ground (arith, n)))
        (λ _.
          Ends-if (λ _. Untouched) Never (opcode == 2) _ _ (λ e. absurd (ground (arith, n)))
            (λ _.
              Ends-if (λ _. Untouched) Never (opcode == 3) _ _ (λ e. absurd (ground (arith, n)))
                (λ _.
                  Ends-if (λ _. Untouched) Never (opcode == 4) _ _
                    (λ _. answered (abort_step f.payload t p) _ (abort_step-Untouched f.payload t))
                    (λ _.
                      Ends-if (λ _. Untouched) Never (opcode == 5) _ _ (λ _. (refl, refl))
                        (λ _.
                          Ends-if (λ _. Untouched) Never (opcode == 6) _ _ (λ _. (refl, refl))
                            (λ _. (refl, refl)))))))

  -- A request without the flag ALLOW_DESTRUCTIVE, or with any other flag, changes neither the flash
  -- nor the active record, whatever its opcode is and however it is malformed, and it does not
  -- reset the processor.
  pub handle_frame-Untouched :
      (chip : Chip) (now : ℕ) (f : View) (t : Transfer)
      → f.flags ≢ allow_destructive
      → Ends (λ _. Untouched) Never (handle_frame chip now f t p)
  unfolding handle_frame
  handle_frame-Untouched chip now f t n =
      let opcode = if leb 2 f.payload_length then get_or f.payload 1 0 else 0 in
      Ends-if (λ _. Untouched) Never (is_malformed f) _ _ (λ _. (refl, refl))
        (λ _.
          Ends-if (λ _. Untouched) Never (not (succeeded (request_status f opcode))) _ _
            (λ _. (refl, refl))
            (λ e. dispatch-Untouched chip now opcode f t (needs_flag f opcode n (ground arith))))
