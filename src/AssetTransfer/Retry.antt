-- ===== src/AssetTransfer/Retry.antt =====
-- A chunk that is sent again, after its response was lost.
use deus_os_stm.Common.{
  ℕ, ◌+◌, ◌%◌, ◌≤◌, ◌≡◌, ◌⊎◌, inl, inr, refl, Bool, true, false, ◌&&◌, ◌||◌, not, List, [], ◌∷◌,
  ◌++◌, length, take, drop, get_or, ltb, ◌==◌, ◌!=◌, arith, u16_mod,
}
use deus_os_stm.FlashPersistence.{Chip}
use deus_os_stm.AssetPersistence.Layout.{config_bytes, object_type}
use deus_os_stm.AssetPersistence.Record.{Result}
use deus_os_stm.AssetPersistence.State.{Persistence, Outcome, returned, reset}
use deus_os_stm.AssetPersistence.Candidate.{write_candidate}
use deus_os_stm.AssetPersistence.Ends.{Ends, Ends-bind, Ends-if}
use deus_os_stm.AssetPersistence.Accepted.{Anything}
use deus_os_stm.AssetTransfer.Session.{Status, Transfer, succeeded, chunk_max, get_u16, map_result}
use deus_os_stm.AssetTransfer.Handlers.{
  touched, remembered, written, write_again, write_step, last_chunk_equal,
}
use deus_os_stm.AssetTransfer.Steps.{chunk_length}

last_chunk_equal-append : (bytes rest : List ℕ) → last_chunk_equal (bytes ++ rest) bytes ≡ true
unfolding last_chunk_equal
last_chunk_equal-append [] rest = refl
last_chunk_equal-append (b ∷ bytes) rest = ground (arith, last_chunk_equal-append bytes rest)

module _ (chip : Chip) (now : ℕ) (payload : List ℕ) where
  abbrev offset : ℕ
  offset = get_u16 payload 6

  abbrev data_length : ℕ
  data_length = get_or payload 8 0

  abbrev bytes : List ℕ
  bytes = take data_length (drop 10 payload)

  -- The chunk is the last one that the session has taken.
  record IsLast (t : Transfer) : Type 0 where
    here : not t.active || t.transfer_id != get_u16 payload 4 ≡ false
    before : ltb offset t.next_offset ≡ true
    last :
        (offset + data_length) % u16_mod == t.next_offset && data_length == t.last_chunk_length
        ≡ true
    equal : last_chunk_equal t.last_chunk bytes ≡ true

  abbrev misshaped : Bool
  misshaped =
      get_or payload 9 0 != 0
      || data_length == 0
      || ltb chunk_max data_length
      || length payload != 10 + data_length

  write_step-IsLast :
      misshaped ≡ false
      → get_u16 payload 2 != object_type ≡ false
      → (t : Transfer) (p : Persistence) → IsLast t
      → write_step chip now (length payload) payload t p ≡ returned (touched now t, Status.ok) p
  unfolding write_step write_again
  write_step-IsLast h k t p v = rw (h, k, v.here, v.before, v.last, v.equal) refl

  -- It is refused, or it can be sent again.
  abbrev Repeats : Transfer × Status → Persistence → Type 0
  Repeats a p =
      (succeeded a.1 ≡ false)
      ⊎ (write_step chip now (length payload) payload a.0 p
          ≡ returned (touched now a.0, Status.ok) p)

  written-IsLast :
      (earlier : ℕ) (t : Transfer)
      → misshaped ≡ false
      → not t.active || t.transfer_id != get_u16 payload 4 ≡ false
      → offset + data_length ≤ config_bytes
      → IsLast (record (remembered bytes t) {
        next_offset = (offset + length bytes) % u16_mod;
        last_activity_ms = earlier;
      })
  written-IsLast earlier t whole here fits =
      let size : length bytes ≡ data_length = chunk_length payload data_length (ground arith) in
      let some_byte : 1 ≤ data_length = ground arith in
      record {
        here = here;
        before = rw size (ground arith);
        last = rw size (ground arith);
        equal = last_chunk_equal-append bytes (drop (length bytes) t.last_chunk);
      }

  written-Repeats :
      (earlier : ℕ) (t : Transfer)
      → misshaped ≡ false
      → get_u16 payload 2 != object_type ≡ false
      → not t.active || t.transfer_id != get_u16 payload 4 ≡ false
      → offset + data_length ≤ config_bytes
      → (result : Result) (p : Persistence)
      → Ends Repeats Anything (written chip earlier offset bytes t (map_result result) p)
  unfolding written
  written-Repeats earlier t whole object here fits Result.ok p =
      inr (write_step-IsLast whole object _ p (written-IsLast earlier t whole here fits))
  written-Repeats earlier t whole object here fits Result.unchanged p =
      inr (write_step-IsLast whole object _ p (written-IsLast earlier t whole here fits))
  written-Repeats earlier t whole object here fits Result.bad_state p = inl refl
  written-Repeats earlier t whole object here fits Result.crc_mismatch p = inl refl
  written-Repeats earlier t whole object here fits Result.validation_failed p = inl refl
  written-Repeats earlier t whole object here fits Result.storage_error p = inl refl
  written-Repeats earlier t whole object here fits Result.wear_budget_exhausted p = inl refl

  write_again-Repeats :
      (earlier : ℕ) (t : Transfer) (p : Persistence)
      → misshaped ≡ false
      → get_u16 payload 2 != object_type ≡ false
      → not t.active || t.transfer_id != get_u16 payload 4 ≡ false
      → ltb offset t.next_offset ≡ true
      → Ends Repeats Anything (write_again chip earlier offset bytes data_length t p)
  unfolding write_again
  write_again-Repeats earlier t p whole object here before =
      Ends-if Repeats Anything
        ((offset + data_length) % u16_mod == t.next_offset && data_length == t.last_chunk_length) _
        _
        (λ last.
          Ends-if Repeats Anything (last_chunk_equal t.last_chunk bytes) _ _
            (λ equal. inr (
              write_step-IsLast whole object (touched earlier t) p
                (record { here = here; before = before; last = last; equal = equal })))
            (λ e. inl refl))
        (λ e. inl refl)

  -- A chunk may be sent again. In every outcome of a write request that is answered, the status is
  -- not OK, or the same request, handled next at the time `now`, is answered with OK and changes
  -- nothing but the time of the last activity: the chunk is not written twice. The payload has the
  -- length that its header says.
  pub write_step-Repeats :
      (earlier : ℕ) (t : Transfer) (p : Persistence)
      → Ends
          (λ a p'.
            (succeeded a.1 ≡ false)
            ⊎ (write_step chip now (length payload) payload a.0 p'
                ≡ returned (touched now a.0, Status.ok) p'))
          (λ p'. Unit)
          (write_step chip earlier (length payload) payload t p)
  unfolding write_step
  write_step-Repeats earlier t p =
      Ends-if Repeats Anything misshaped _ _ (λ e. inl refl)
        (λ whole.
          Ends-if Repeats Anything (get_u16 payload 2 != object_type) _ _ (λ e. inl refl)
            (λ object.
              Ends-if Repeats Anything (not t.active || t.transfer_id != get_u16 payload 4) _ _
                (λ e. inl refl)
                (λ here.
                  Ends-if Repeats Anything (ltb offset t.next_offset) _ _
                    (λ before. write_again-Repeats earlier t p whole object here before)
                    (λ _.
                      Ends-if Repeats Anything (offset != t.next_offset) _ _ (λ e. inl refl)
                        (λ there.
                          Ends-if Repeats Anything (ltb config_bytes (offset + data_length)) _ _
                            (λ e. inl refl)
                            (λ fits.
                              Ends-bind Repeats Anything (write_candidate chip bytes p) _
                                (anything (write_candidate chip bytes p))
                                (λ result p1 _.
                                  written-Repeats earlier t whole object here (ground arith) result
                                    p1)))))))
    where
      anything : (o : Outcome Result) → Ends (λ a. Anything) Anything o
      anything (returned a p1) = tt
      anything (reset p1) = tt
