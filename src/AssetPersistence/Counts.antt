-- ===== src/AssetPersistence/Counts.antt =====
-- The bytes that a candidate has accepted after a begin and a write.
use deus_os_stm.Common.{
  ℕ, zero, suc, ◌+◌, ◌-◌, ◌*◌, ◌/◌, ◌%◌, ◌≤◌, ◌≡◌, refl, sym, ◌∙◌, Bool, true, false, ◌&&◌, ◌||◌,
  not, Option, none, some, List, length, drop, length-drop, ltb, leb, ◌==◌, if◌then◌else◌, arith,
  u16_mod,
}
use deus_os_stm.FlashPersistence.{Chip, read_u16, erase_page}
use deus_os_stm.AssetPersistence.Layout.{config_bytes}
use deus_os_stm.AssetPersistence.Record.{Result, offset_payload, generation_max}
use deus_os_stm.AssetPersistence.State.{
  Persistence, returned, memory_of, pure, ◌>>◌, ◌then◌, or_reset, checkpoint, is_active, erase,
}
use deus_os_stm.AssetPersistence.Candidate.{
  program_metadata, erase_candidate, prepare_slot, start_changed, started, begin_candidate,
  program_payload, accept, write_payload_bytes, first_difference, copy_pairs, copy_last,
  write_changed, write_compared, write_candidate, metadata_words,
}
use deus_os_stm.AssetPersistence.Ends.{Ends, Ends-bind, Ends-checkpoint, Ends-if}
use deus_os_stm.AssetPersistence.Underway.{first_difference-bound}
use deus_os_stm.AssetPersistence.Accepted.{
  Takes, Counts, Anything, Counts-step, Succeeds, Succeeds-Counts, Succeeds-step, Succeeds-or_reset,
  program_words-Succeeds, program_payload-Succeeds, write_payload_bytes-Succeeds,
}

module _ (chip : Chip) where
  erase_candidate-Succeeds :
      (n : ℕ) (p : Persistence) → Takes n p → Ends (Succeeds n) Anything (erase_candidate chip p)
  erase_candidate-Succeeds n p v = Succeeds-or_reset n (erase chip p.candidate.slot_address p) (
      driver (erase_page chip p.flash p.candidate.slot_address).0
        (record p { flash = (erase_page chip p.flash p.candidate.slot_address).1 }) v)
    where
      driver :
          (done : Bool) (p1 : Persistence)
          → Takes n p1
          → Ends
              (Succeeds n)
              Anything
              (returned (if done then Result.ok else Result.storage_error) p1)
      driver true p1 v1 = v1
      driver false p1 v1 = tt

  prepare_slot-Succeeds :
      (n : ℕ) (p : Persistence) → Takes n p → Ends (Succeeds n) Anything (prepare_slot chip p)
  unfolding prepare_slot
  prepare_slot-Succeeds n p v =
      Succeeds-step n n ((checkpoint 1 >> erase_candidate chip) p) _
        (Ends-checkpoint (Succeeds n) Anything 1 p (erase_candidate chip) tt
          (erase_candidate-Succeeds n p v))
        (λ p1 v1.
          Succeeds-step n n ((checkpoint 2 >> or_reset (program_metadata chip)) p1) _
            (Ends-checkpoint (Succeeds n) Anything 2 p1 (or_reset (program_metadata chip)) tt (
              Succeeds-or_reset n (program_metadata chip p1) (
                program_words-Succeeds chip n p1.candidate.slot_address
                  (metadata_words p1.candidate) p1 v1)))
            (λ p2 v2. Ends-checkpoint (Succeeds n) Anything 3 p2 (pure Result.ok) tt v2))

  start_changed-Counts :
      (p : Persistence)
      → p.candidate.active ≡ true
      → Ends (Counts p.candidate 0) Anything (start_changed chip p)
  unfolding start_changed
  start_changed-Counts p a =
      Ends-if (Counts p.candidate 0) Anything
        (is_active p && leb generation_max p.active_record.generation) _ _ (λ e. refl)
        (λ e.
          Succeeds-Counts p.candidate 0 (prepare_slot chip (started chip p))
            (prepare_slot-Succeeds 0 (started chip p) (a, refl)))

  copy_pairs-Succeeds :
      (count prefix n total : ℕ) (p : Persistence)
      → n + 2 * count ≡ total
      → total ≤ config_bytes
      → Takes n p
      → Ends (Succeeds total) Anything (copy_pairs chip count prefix p)
  unfolding copy_pairs
  copy_pairs-Succeeds zero prefix n total p e h v = (v.0, v.1 ∙ omega arith)
  copy_pairs-Succeeds (suc count) prefix n total p e h v =
      let value = read_u16 (memory_of p) (p.active_record.slot_address + offset_payload + prefix) in
      Succeeds-step n total (or_reset (program_payload chip prefix value) p)
        (accept chip 2 >> copy_pairs chip count (prefix + 2))
        (Succeeds-or_reset n (program_payload chip prefix value p)
          (program_payload-Succeeds chip n prefix value p v))
        (λ p1 v1.
          copy_pairs-Succeeds count (prefix + 2) (n + 2) total _ (omega arith) h
            (v1.0, rw v1.1 (omega arith)))

  copy_last-Takes :
      (size : ℕ) (p : Persistence)
      → size ≤ config_bytes
      → Takes (2 * (size / 2)) p
      → Ends (λ _. Takes size) Anything (copy_last chip size p)
  copy_last-Takes size p h v =
      Ends-if (λ _. Takes size) Anything (size % 2 == 1) _ _
        (λ e. let odd : 2 * (size / 2) + 1 ≡ size = ground arith in (v.0, rw v.1 (omega arith)))
        (λ e. let even : 2 * (size / 2) ≡ size = ground arith in (v.0, v.1 ∙ even))

  write_changed-Counts :
      (size total : ℕ) (bytes : List ℕ) (p : Persistence)
      → size + length bytes ≡ total
      → total ≤ config_bytes
      → p.candidate.active ≡ true
      → Ends (Counts p.candidate total) Anything (write_changed chip size bytes p)
  unfolding write_changed
  write_changed-Counts size total bytes p e h a =
      Counts-step p.candidate 0 total (start_changed chip p) _ (start_changed-Counts p a) (λ p1 v1.
        Succeeds-Counts p.candidate total _ (
          Succeeds-step (2 * (size / 2)) total (copy_pairs chip (size / 2) 0 p1) _
            (copy_pairs-Succeeds (size / 2) 0 0 (2 * (size / 2)) p1 (omega arith) (omega arith) v1)
            (λ p2 v2.
              Ends-bind (Succeeds total) Anything (copy_last chip size p2)
                (λ _. write_payload_bytes chip bytes) (copy_last-Takes size p2 (omega arith) v2)
                (λ u p3 v3. write_payload_bytes-Succeeds chip bytes size total p3 e h v3))))

  write_compared-Counts :
      (bytes : List ℕ) (n : ℕ) (p : Persistence)
      → n + length bytes ≤ config_bytes
      → Takes n p
      → (o : Option ℕ) → ((index : ℕ) → o ≡ some index → index ≤ length bytes)
      → Ends (Counts p.candidate (n + length bytes)) Anything (write_compared chip bytes o p)
  unfolding write_compared
  write_compared-Counts bytes n p h v none k = (v.0, rw v.1 (omega arith))
  write_compared-Counts bytes n p h v (some index) k =
      let i = k index refl in
      let left : length (drop index bytes) ≡ length bytes - index = length-drop index bytes in
      let size = (p.candidate.accepted_bytes + index) % u16_mod in
      let whole : size ≡ n + index = rw v.1 (omega arith) in
      write_changed-Counts size (n + length bytes) (drop index bytes) p (omega arith) h v.0

  -- Within the payload, only the driver and the wear test can refuse a write of a candidate.
  pub write_candidate-Counts :
      (bytes : List ℕ) (n : ℕ) (p : Persistence)
      → Takes n p
      → Ends (Counts p.candidate (n + length bytes)) Anything (write_candidate chip bytes p)
  unfolding write_candidate
  write_candidate-Counts bytes n p v =
      let Q = Counts p.candidate (n + length bytes) in
      let at = p.active_record.slot_address + offset_payload + p.candidate.accepted_bytes in
      Ends-if Q Anything
        (not p.candidate.active || ltb config_bytes (p.candidate.accepted_bytes + length bytes)) _ _
        (λ e. refl)
        (λ e.
          let fits : n + length bytes ≤ config_bytes = rw (sym v.1) (ground arith) in
          Ends-if Q Anything p.candidate.compare_active _ _
            (λ t.
              write_compared-Counts bytes n p fits v
                (first_difference chip (memory_of p) at bytes 0)
                (λ index f.
                  let i = first_difference-bound chip (memory_of p) at bytes 0 index f in
                  omega arith))
            (λ t.
              Succeeds-Counts p.candidate (n + length bytes) _
                (write_payload_bytes-Succeeds chip bytes n (n + length bytes) p refl fits v)))

  pub begin_candidate-Counts :
      (crc : ℕ) (p : Persistence)
      → p.candidate.active ≡ false
      → Ends
          (Counts (record p.candidate { payload_crc32 = crc; active = true }) 0)
          Anything
          (begin_candidate chip crc p)
  unfolding begin_candidate
  begin_candidate-Counts crc p a =
      let q = record p { candidate = record p.candidate { payload_crc32 = crc; active = true } } in
      Ends-if (Counts q.candidate 0) Anything p.candidate.active _ _ (λ t. absurd (ground arith))
        (λ t.
          Ends-if (Counts q.candidate 0) Anything
            (is_active p && p.active_record.payload_crc32 == crc) _ _ (λ e. (refl, refl))
            (λ e. start_changed-Counts q refl))
