-- ===== src/AssetPersistence/Accepted.antt =====
-- How many bytes a candidate has accepted, and whether it is active, after each operation.
use deus_os_stm.Common.{
  ℕ, ◌+◌, ◌-◌, ◌*◌, ◌%◌, ◌≤◌, ◌≡◌, ◌∙◌, true, List, [], ◌∷◌, length, ◌==◌, if◌then◌else◌, arith,
  u16_mod,
}
use deus_os_stm.FlashPersistence.{Chip, program_halfword}
use deus_os_stm.AssetPersistence.Layout.{config_bytes}
use deus_os_stm.AssetPersistence.Record.{Result, is_ok, offset_payload}
use deus_os_stm.AssetPersistence.State.{
  Candidate, Persistence, Outcome, returned, reset, Action, pure, bind, ◌>>◌, ◌then◌,
  candidate_reset, checkpoint,
}
use deus_os_stm.AssetPersistence.Candidate.{
  program_words, program_payload, accept, write_pairs, pending_done, write_payload_bytes,
}
use deus_os_stm.AssetPersistence.Ends.{Ends, Ends-checkpoint, Ends-if, Ends-if-action, Ends-program}

-- A candidate that is active, with `n` bytes.
abbrev pub Takes : ℕ → Persistence → Type 0
Takes n p = (p.candidate.active ≡ true) × (p.candidate.accepted_bytes ≡ n)

-- With OK so many bytes are accepted; a storage error may leave anything; UNCHANGED is not a result;
-- any other leaves the
-- candidate `c` as it was.
abbrev pub Counts : Candidate → ℕ → Result → Persistence → Type 0
Counts c n Result.ok p = Takes n p
Counts c n Result.storage_error p = Unit
Counts c n Result.unchanged p = ⊥
Counts c n _ p = p.candidate ≡ c

abbrev pub Anything : Persistence → Type 0
Anything p = Unit

pub Counts-step :
    (c : Candidate) (n n' : ℕ) (o : Outcome Result) (m : Action Result)
    → Ends (Counts c n) Anything o
    → ((p : Persistence) → Takes n p → Ends (Counts c n') Anything (m p))
    → Ends (Counts c n') Anything (bind o (λ r. if is_ok r then m else pure r))
Counts-step c n n' (returned Result.ok p) m h k = k p h
Counts-step c n n' (returned Result.unchanged p) m h k = h
Counts-step c n n' (returned Result.bad_state p) m h k = h
Counts-step c n n' (returned Result.crc_mismatch p) m h k = h
Counts-step c n n' (returned Result.validation_failed p) m h k = h
Counts-step c n n' (returned Result.storage_error p) m h k = tt
Counts-step c n n' (returned Result.wear_budget_exhausted p) m h k = h
Counts-step c n n' (reset p) m h k = tt

-- Where only the driver can fail.
abbrev pub Succeeds : ℕ → Result → Persistence → Type 0
Succeeds n Result.ok p = Takes n p
Succeeds n Result.storage_error p = Unit
Succeeds n _ p = ⊥

pub Succeeds-Counts :
    (c : Candidate) (n : ℕ) (o : Outcome Result)
    → Ends (Succeeds n) Anything o
    → Ends (Counts c n) Anything o
Succeeds-Counts c n (returned Result.ok p) h = h
Succeeds-Counts c n (returned Result.unchanged p) h = absurd h
Succeeds-Counts c n (returned Result.bad_state p) h = absurd h
Succeeds-Counts c n (returned Result.crc_mismatch p) h = absurd h
Succeeds-Counts c n (returned Result.validation_failed p) h = absurd h
Succeeds-Counts c n (returned Result.storage_error p) h = tt
Succeeds-Counts c n (returned Result.wear_budget_exhausted p) h = absurd h
Succeeds-Counts c n (reset p) h = tt

pub Succeeds-step :
    (n n' : ℕ) (o : Outcome Result) (m : Action Result)
    → Ends (Succeeds n) Anything o
    → ((p : Persistence) → Takes n p → Ends (Succeeds n') Anything (m p))
    → Ends (Succeeds n') Anything (bind o (λ r. if is_ok r then m else pure r))
Succeeds-step n n' (returned Result.ok p) m h k = k p h
Succeeds-step n n' (returned Result.unchanged p) m h k = h
Succeeds-step n n' (returned Result.bad_state p) m h k = h
Succeeds-step n n' (returned Result.crc_mismatch p) m h k = h
Succeeds-step n n' (returned Result.validation_failed p) m h k = h
Succeeds-step n n' (returned Result.storage_error p) m h k = tt
Succeeds-step n n' (returned Result.wear_budget_exhausted p) m h k = h
Succeeds-step n n' (reset p) m h k = tt

pub Succeeds-or_reset :
    (n : ℕ) (o : Outcome Result)
    → Ends (Succeeds n) Anything o
    → Ends
        (Succeeds n)
        Anything
        (bind o (λ r. if is_ok r then pure r else candidate_reset >> pure r))
Succeeds-or_reset n (returned Result.ok p) h = h
Succeeds-or_reset n (returned Result.unchanged p) h = h
Succeeds-or_reset n (returned Result.bad_state p) h = h
Succeeds-or_reset n (returned Result.crc_mismatch p) h = h
Succeeds-or_reset n (returned Result.validation_failed p) h = h
Succeeds-or_reset n (returned Result.storage_error p) h = tt
Succeeds-or_reset n (returned Result.wear_budget_exhausted p) h = h
Succeeds-or_reset n (reset p) h = tt

module _ (chip : Chip) where
  pub program_words-Succeeds :
      (n at : ℕ) (words : List ℕ) (p : Persistence)
      → Takes n p
      → Ends (Succeeds n) Anything (program_words chip at words p)
  unfolding program_words
  program_words-Succeeds n at [] p v = v
  program_words-Succeeds n at (x ∷ words) p v =
      Ends-program chip (Succeeds n) Anything at x (program_words chip (at + 2) words) p
        (λ e. program_words-Succeeds n (at + 2) words _ v) tt

  pub program_payload-Succeeds :
      (n offset value : ℕ) (p : Persistence)
      → Takes n p
      → Ends (Succeeds n) Anything (program_payload chip offset value p)
  unfolding program_payload
  program_payload-Succeeds n offset value p v =
      let at = p.candidate.slot_address + offset_payload + offset in
      let p1 = record p { flash = (program_halfword chip p.flash at value).1 } in
      Ends-program chip (Succeeds n) Anything at value
        (if offset == 0 then checkpoint 4 >> pure Result.ok else pure Result.ok) p
        (λ e.
          Ends-if-action (Succeeds n) Anything (offset == 0) (checkpoint 4 >> pure Result.ok)
            (pure Result.ok) p1 (Ends-checkpoint (Succeeds n) Anything 4 p1 (pure Result.ok) tt v)
            v)
        tt

  write_pairs-Succeeds :
      (bytes : List ℕ) (n total : ℕ) (p : Persistence)
      → n + length bytes ≡ total
      → total ≤ config_bytes
      → Takes n p
      → Ends (Succeeds total) Anything (write_pairs chip bytes p)
  unfolding write_pairs
  write_pairs-Succeeds [] n total p e h v = (v.0, v.1 ∙ omega arith)
  write_pairs-Succeeds (b ∷ []) n total p e h v = (v.0, rw v.1 (omega arith))
  write_pairs-Succeeds (b ∷ c ∷ bytes) n total p e h v =
      Succeeds-step n total (program_payload chip p.candidate.accepted_bytes (b + 256 * c) p)
        (accept chip 2 >> write_pairs chip bytes)
        (program_payload-Succeeds n p.candidate.accepted_bytes (b + 256 * c) p v)
        (λ p1 v1.
          write_pairs-Succeeds bytes (n + 2) total _ (omega arith) h (v1.0, rw v1.1 (omega arith)))

  pub write_payload_bytes-Succeeds :
      (bytes : List ℕ) (n total : ℕ) (p : Persistence)
      → n + length bytes ≡ total
      → total ≤ config_bytes
      → Takes n p
      → Ends (Succeeds total) Anything (write_payload_bytes chip bytes p)
  unfolding write_payload_bytes
  write_payload_bytes-Succeeds [] n total p e h v = (v.0, v.1 ∙ omega arith)
  write_payload_bytes-Succeeds (b ∷ bytes) n total p e h v =
      Ends-if (Succeeds total) Anything p.candidate.pending_valid _ _
        (λ t.
          let offset = (p.candidate.accepted_bytes + u16_mod - 1) % u16_mod in
          Succeeds-step n total (program_payload chip offset (p.candidate.pending_byte + 256 * b) p)
            (pending_done chip >> write_pairs chip bytes)
            (program_payload-Succeeds n offset (p.candidate.pending_byte + 256 * b) p v)
            (λ p1 v1.
              write_pairs-Succeeds bytes (n + 1) total _ (omega arith) h
                (v1.0, rw v1.1 (omega arith))))
        (λ t. write_pairs-Succeeds (b ∷ bytes) n total p e h v)
