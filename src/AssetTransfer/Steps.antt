-- ===== src/AssetTransfer/Steps.antt =====
-- The steps of the handlers keep the session and the candidate of asset_persistence.c in step.
use deus_os_stm.Common.{
  ℕ, ◌+◌, ◌%◌, ◌≤◌, ◌≡◌, ◌⊎◌, inl, inr, refl, sym, ap, ◌∙◌, Bool, true, false, ◌&&◌, ◌||◌, not,
  List, length, take, drop, length-take, length-drop, get_or, ltb, ◌==◌, ◌!=◌, arith, if_intro,
  u16_mod,
}
use deus_os_stm.FlashPersistence.{Chip}
use deus_os_stm.AssetPersistence.Layout.{config_bytes, object_type, schema}
use deus_os_stm.AssetPersistence.Record.{Result}
use deus_os_stm.AssetPersistence.State.{Candidate, Persistence, returned, bind}
use deus_os_stm.AssetPersistence.Candidate.{begin_candidate, write_candidate, commit_candidate}
use deus_os_stm.AssetPersistence.Ends.{Ends, Ends-bind, Ends-if}
use deus_os_stm.AssetPersistence.Accepted.{Takes, Counts, Anything}
use deus_os_stm.AssetPersistence.Counts.{begin_candidate-Counts, write_candidate-Counts}
use deus_os_stm.AssetPersistence.Closes.{Closes, commit_candidate-Closes}
use deus_os_stm.AssetTransfer.Session.{
  Status, Transfer, Response, chunk_max, get_u16, get_u32, map_result,
}
use deus_os_stm.AssetTransfer.Handlers.{
  Step, begun, opened, begin_step, written, write_again, write_step, committed, commit_step,
  last_chunk_equal, last_commit_matches,
}
use deus_os_stm.AssetTransfer.Frames.{abort_step, status_step}

-- Without a session there is no candidate; with one, the candidate has accepted the bytes up to the
-- next offset, at most all of the payload.
abbrev pub IsInStep : Transfer → Persistence → Type 0
IsInStep t p =
    ((t.active ≡ false) × (p.candidate.active ≡ false))
    ⊎ ((t.active ≡ true) × Takes t.next_offset p × (t.next_offset ≤ config_bytes))

abbrev pub Steps : Transfer × Status → Persistence → Type 0
Steps a p = IsInStep a.0 p

idle :
    (t : Transfer) (p : Persistence) → t.active ≡ false → IsInStep t p → p.candidate.active ≡ false
idle t p e (inl (f, c)) = c
idle t p e (inr (f, c, d)) = absurd (ground arith)

busy :
    (t : Transfer) (p : Persistence)
    → t.active ≡ true
    → IsInStep t p
    → Takes t.next_offset p × (t.next_offset ≤ config_bytes)
busy t p e (inl (f, c)) = absurd (ground arith)
busy t p e (inr (f, c, d)) = (c, d)

pub chunk_length :
    (payload : List ℕ) (n : ℕ) → length payload ≡ 10 + n → length (take n (drop 10 payload)) ≡ n
chunk_length payload n e = omega (arith, length-take n (drop 10 payload), length-drop 10 payload)

-- A handler sends a response and leaves what its step leaves.
abbrev pub Answers : Transfer × Response → Persistence → Type 0
Answers a p = IsInStep a.0 p

pub answered :
    (o : Step) (f : Transfer × Status → Persistence → Response)
    → Ends Steps Anything o
    → Ends Answers Anything (bind o (λ a p. returned (a.0, f a p) p))
answered o f h = Ends-bind Answers Anything o (λ a p. returned (a.0, f a p) p) h (λ a p v. v)

module _ (chip : Chip) (now : ℕ) where
  begun-IsInStep :
      (t : Transfer) (c : Candidate)
      → t.active ≡ true
      → t.next_offset ≡ 0
      → (result : Result) (p : Persistence) → Counts c 0 result p
      → Ends Steps Anything (begun chip now t (map_result result) p)
  unfolding begun
  begun-IsInStep t c a e Result.ok p v = inr (a, (v.0, v.1 ∙ sym e), ground (arith, e))
  begun-IsInStep t c a e Result.unchanged p v = absurd v
  begun-IsInStep t c a e Result.bad_state p v = inl (refl, refl)
  begun-IsInStep t c a e Result.crc_mismatch p v = inl (refl, refl)
  begun-IsInStep t c a e Result.validation_failed p v = inl (refl, refl)
  begun-IsInStep t c a e Result.storage_error p v = inl (refl, refl)
  begun-IsInStep t c a e Result.wear_budget_exhausted p v = inl (refl, refl)

  pub begin_step-IsInStep :
      (payload : List ℕ) (t : Transfer) (p : Persistence)
      → IsInStep t p
      → Ends Steps Anything (begin_step chip now payload t p)
  unfolding begin_step
  begin_step-IsInStep payload t p v =
      let crc = get_u32 payload 10 in
      Ends-if Steps Anything
        (get_or payload 9 0 != 0 || get_or payload 14 0 != 0 || get_or payload 15 0 != 0) _ _
        (λ e. v)
        (λ _.
          Ends-if Steps Anything (get_u16 payload 2 != object_type) _ _ (λ e. v)
            (λ _.
              Ends-if Steps Anything (get_or payload 8 0 != schema) _ _ (λ e. v)
                (λ _.
                  Ends-if Steps Anything (get_u16 payload 6 != config_bytes) _ _ (λ e. v)
                    (λ _.
                      Ends-if Steps Anything (get_u16 payload 4 == 0) _ _ (λ e. v)
                        (λ _.
                          Ends-if Steps Anything t.active _ _
                            (λ a.
                              Ends-if Steps Anything
                                (t.transfer_id != get_u16 payload 4 || t.payload_crc32 != crc) _ _
                                (λ e. v) (λ e. v))
                            (λ a.
                              Ends-bind Steps Anything (begin_candidate chip crc p) _
                                (begin_candidate-Counts chip crc p (idle t p a v))
                                (λ result p1 h.
                                  begun-IsInStep (opened chip now (get_u16 payload 4) crc t)
                                    (record p.candidate { payload_crc32 = crc; active = true }) refl
                                    refl result p1 h)))))))

  written-IsInStep :
      (bytes : List ℕ) (t : Transfer) (c : Candidate)
      → t.active ≡ true
      → c.active ≡ true
      → c.accepted_bytes ≡ t.next_offset
      → t.next_offset + length bytes ≤ config_bytes
      → (result : Result) (p : Persistence) → Counts c (t.next_offset + length bytes) result p
      → Ends Steps Anything (written chip now t.next_offset bytes t (map_result result) p)
  unfolding written
  written-IsInStep bytes t c a d e h Result.ok p v = inr (a, (v.0, v.1 ∙ omega arith), omega arith)
  written-IsInStep bytes t c a d e h Result.unchanged p v = absurd v
  written-IsInStep bytes t c a d e h Result.bad_state p v =
      inr (a, (ap (λ x. x.active) v ∙ d, ap (λ x. x.accepted_bytes) v ∙ e), omega arith)
  written-IsInStep bytes t c a d e h Result.crc_mismatch p v =
      inr (a, (ap (λ x. x.active) v ∙ d, ap (λ x. x.accepted_bytes) v ∙ e), omega arith)
  written-IsInStep bytes t c a d e h Result.validation_failed p v =
      inr (a, (ap (λ x. x.active) v ∙ d, ap (λ x. x.accepted_bytes) v ∙ e), omega arith)
  written-IsInStep bytes t c a d e h Result.storage_error p v = inl (refl, refl)
  written-IsInStep bytes t c a d e h Result.wear_budget_exhausted p v =
      inr (a, (ap (λ x. x.active) v ∙ d, ap (λ x. x.accepted_bytes) v ∙ e), omega arith)

  committed-IsInStep :
      (t : Transfer) (result : Result) (p : Persistence)
      → Closes result p
      → Ends Steps Anything (committed chip now t (map_result result) p)
  unfolding committed
  committed-IsInStep t Result.ok p v = inl (refl, v)
  committed-IsInStep t Result.unchanged p v = inl (refl, v)
  committed-IsInStep t Result.bad_state p v = inl (refl, refl)
  committed-IsInStep t Result.crc_mismatch p v = inl (refl, refl)
  committed-IsInStep t Result.validation_failed p v = inl (refl, refl)
  committed-IsInStep t Result.storage_error p v = inl (refl, refl)
  committed-IsInStep t Result.wear_budget_exhausted p v = inl (refl, refl)

  pub commit_step-IsInStep :
      (payload : List ℕ) (t : Transfer) (p : Persistence)
      → IsInStep t p
      → Ends Steps Anything (commit_step chip now payload t p)
  unfolding commit_step
  commit_step-IsInStep payload t p v =
      Ends-if Steps Anything (get_u16 payload 2 != object_type) _ _ (λ e. v)
        (λ _.
          Ends-if Steps Anything (not t.active) _ _
            (λ a.
              Ends-if Steps Anything (last_commit_matches t p (get_u16 payload 4)) _ _ (λ e. v)
                (λ e. v))
            (λ a.
              Ends-if Steps Anything (t.transfer_id != get_u16 payload 4) _ _ (λ e. v)
                (λ _.
                  Ends-if Steps Anything (t.next_offset != config_bytes) _ _ (λ e. v)
                    (λ _.
                      Ends-bind Steps Anything (commit_candidate chip p) _
                        (commit_candidate-Closes chip p)
                        (λ result p1 h. committed-IsInStep t result p1 h)))))

  write_again-IsInStep :
      (offset data_length : ℕ) (bytes : List ℕ) (t : Transfer) (p : Persistence)
      → IsInStep t p
      → Ends Steps Anything (write_again chip now offset bytes data_length t p)
  unfolding write_again
  write_again-IsInStep offset data_length bytes t p v =
      Ends-if Steps Anything
        ((offset + data_length) % u16_mod == t.next_offset && data_length == t.last_chunk_length) _
        _ (λ e. Ends-if Steps Anything (last_chunk_equal t.last_chunk bytes) _ _ (λ e. v) (λ e. v))
        (λ e. v)

  pub write_step-IsInStep :
      (payload : List ℕ) (t : Transfer) (p : Persistence)
      → IsInStep t p
      → Ends Steps Anything (write_step chip now (length payload) payload t p)
  unfolding write_step
  write_step-IsInStep payload t p v =
      let offset = get_u16 payload 6 in
      let data_length = get_or payload 8 0 in
      let bytes = take data_length (drop 10 payload) in
      Ends-if Steps Anything
        (get_or payload 9 0 != 0
          || data_length == 0
          || ltb chunk_max data_length
          || length payload != 10 + data_length)
        _ _ (λ e. v)
        (λ whole.
          Ends-if Steps Anything (get_u16 payload 2 != object_type) _ _ (λ e. v)
            (λ _.
              Ends-if Steps Anything (not t.active || t.transfer_id != get_u16 payload 4) _ _
                (λ e. v)
                (λ here.
                  Ends-if Steps Anything (ltb offset t.next_offset) _ _
                    (λ e. write_again-IsInStep offset data_length bytes t p v)
                    (λ _.
                      Ends-if Steps Anything (offset != t.next_offset) _ _ (λ e. v)
                        (λ there.
                          Ends-if Steps Anything (ltb config_bytes (offset + data_length)) _ _
                            (λ e. v)
                            (λ fits.
                              let a : t.active ≡ true = ground arith in
                              let b = busy t p a v in
                              let same : offset ≡ t.next_offset = ground arith in
                              let size : length bytes ≡ data_length =
                                chunk_length payload data_length (ground arith) in
                              rw same (
                                Ends-bind Steps Anything (write_candidate chip bytes p) _
                                  (write_candidate-Counts chip bytes t.next_offset p b.0)
                                  (λ result p1 h.
                                    written-IsInStep bytes t p.candidate a b.0.0 b.0.1
                                      (ground (arith, same, size)) result p1 h))))))))

pub abort_step-IsInStep :
    (payload : List ℕ) (t : Transfer) (p : Persistence)
    → IsInStep t p
    → Ends Steps Anything (abort_step payload t p)
unfolding abort_step
abort_step-IsInStep payload t p v =
    Ends-if Steps Anything (get_u16 payload 2 != object_type) _ _ (λ e. v)
      (λ _.
        Ends-if Steps Anything (t.active && t.transfer_id != get_u16 payload 4) _ _ (λ e. v)
          (λ _. Ends-if Steps Anything t.active _ _ (λ e. inl (refl, refl)) (λ e. v)))

pub status_step-IsInStep :
    (now : ℕ) (payload : List ℕ) (t : Transfer) (p : Persistence)
    → IsInStep t p
    → IsInStep (status_step now payload t).0 p
unfolding status_step
status_step-IsInStep now payload t p v =
    if_intro (λ (x : Transfer × Status × Bool). IsInStep x.0 p) (get_u16 payload 2 != object_type) _
      _ (λ e. v)
      (λ _.
        if_intro (λ (x : Transfer × Status × Bool). IsInStep x.0 p) (get_u16 payload 4 == 0) _ _
          (λ e. v)
          (λ _.
            if_intro (λ (x : Transfer × Status × Bool). IsInStep x.0 p)
              (not t.active || t.transfer_id != get_u16 payload 4) _ _ (λ e. v) (λ e. v)))
