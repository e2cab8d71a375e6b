-- ===== src/AssetPersistence/Closes.antt =====
-- A commit ends the candidate.
use deus_os_stm.Common.{
  ℕ, ◌+◌, ◌/◌, ◌%◌, ◌≡◌, refl, Bool, true, false, ◌||◌, not, List, [], ◌∷◌, ◌!=◌, if◌then◌else◌,
  arith, u16_mod,
}
use deus_os_stm.FlashPersistence.{Bytes, Chip, program_halfword}
use deus_os_stm.AssetPersistence.Layout.{config_bytes}
use deus_os_stm.AssetPersistence.Record.{
  Result, is_ok, commit_marker, offset_marker, offset_header_crc, crc32_flash, validate_record,
}
use deus_os_stm.AssetPersistence.State.{
  Persistence, Outcome, returned, reset, Action, memory_of, pure, bind, ◌>>◌, ◌then◌, checkpoint,
}
use deus_os_stm.AssetPersistence.Candidate.{
  program_words, seal_candidate, publish_candidate, commit_candidate, program_header_crc,
  validate_candidate, check_marker, adopted,
}
use deus_os_stm.AssetPersistence.Ends.{Ends, Ends-checkpoint, Ends-if, Ends-program}
use deus_os_stm.AssetPersistence.Accepted.{Anything}

-- A commit that is answered with OK or UNCHANGED has ended the candidate.
abbrev is_unchanged : Result → Bool
is_unchanged Result.unchanged = true
is_unchanged _ = false

abbrev Changes : Result → Persistence → Type 0
Changes result p = is_unchanged result ≡ false

abbrev pub Closes : Result → Persistence → Type 0
Closes Result.ok p = p.candidate.active ≡ false
Closes Result.unchanged p = p.candidate.active ≡ false
Closes _ p = Unit

Closes-step :
    (o : Outcome Result) (m : Action Result)
    → Ends Changes Anything o
    → ((p : Persistence) → Ends Closes Anything (m p))
    → Ends Closes Anything (bind o (λ r. if is_ok r then m else pure r))
Closes-step (returned Result.ok p) m h k = k p
Closes-step (returned Result.unchanged p) m h k = absurd (ground arith)
Closes-step (returned Result.bad_state p) m h k = tt
Closes-step (returned Result.crc_mismatch p) m h k = tt
Closes-step (returned Result.validation_failed p) m h k = tt
Closes-step (returned Result.storage_error p) m h k = tt
Closes-step (returned Result.wear_budget_exhausted p) m h k = tt
Closes-step (reset p) m h k = tt

Changes-step :
    (o : Outcome Result) (m : Action Result)
    → Ends Changes Anything o
    → ((p : Persistence) → Ends Changes Anything (m p))
    → Ends Changes Anything (bind o (λ r. if is_ok r then m else pure r))
Changes-step (returned Result.ok p) m h k = k p
Changes-step (returned Result.unchanged p) m h k = h
Changes-step (returned Result.bad_state p) m h k = h
Changes-step (returned Result.crc_mismatch p) m h k = h
Changes-step (returned Result.validation_failed p) m h k = h
Changes-step (returned Result.storage_error p) m h k = h
Changes-step (returned Result.wear_budget_exhausted p) m h k = h
Changes-step (reset p) m h k = h

validate_record-Changes :
    (m : Bytes) (slot marker : ℕ) → is_unchanged (validate_record m slot marker) ≡ false
unfolding validate_record
validate_record-Changes m slot marker = ground arith

module _ (chip : Chip) where
  program_words-Changes :
      (at : ℕ) (words : List ℕ) (p : Persistence)
      → Ends Changes Anything (program_words chip at words p)
  unfolding program_words
  program_words-Changes at [] p = refl
  program_words-Changes at (x ∷ words) p =
      Ends-program chip Changes Anything at x (program_words chip (at + 2) words) p
        (λ e. program_words-Changes (at + 2) words _) refl

  seal_candidate-Changes : (p : Persistence) → Ends Changes Anything (seal_candidate chip p)
  unfolding seal_candidate program_header_crc
  seal_candidate-Changes p =
      let crc = crc32_flash (memory_of p) p.candidate.slot_address 24 in
      Changes-step ((checkpoint 5 >> program_header_crc chip) p) _
        (Ends-checkpoint Changes Anything 5 p (program_header_crc chip) tt (
          program_words-Changes (p.candidate.slot_address + offset_header_crc)
            (crc % u16_mod ∷ crc / u16_mod % u16_mod ∷ []) p))
        (λ p1.
          Changes-step (validate_candidate chip 0xFFFF p1) _
            (validate_record-Changes (memory_of p1) p1.candidate.slot_address 0xFFFF)
            (λ p2. Ends-checkpoint Changes Anything 6 p2 (pure Result.ok) tt refl))

  check_marker-Changes : (p : Persistence) → Ends Changes Anything (check_marker chip p)
  check_marker-Changes p = ground arith

  publish_candidate-Closes : (p : Persistence) → Ends Closes Anything (publish_candidate chip p)
  unfolding publish_candidate adopted
  publish_candidate-Closes p =
      let p1 = record p {
        flash =
            (program_halfword chip p.flash (p.candidate.slot_address + offset_marker)
              commit_marker).1;
      } in
      Ends-program chip Closes Anything (p.candidate.slot_address + offset_marker) commit_marker _ p
        (λ e. Closes-step (check_marker chip p1) _ (check_marker-Changes p1) (λ p2.
          Closes-step ((checkpoint 7 >> validate_candidate chip commit_marker) p2) _
            (Ends-checkpoint Changes Anything 7 p2 (validate_candidate chip commit_marker) tt
              (validate_record-Changes (memory_of p2) p2.candidate.slot_address commit_marker))
            (λ p3.
              Ends-checkpoint Closes Anything 8 p3 _ tt
                (Ends-checkpoint Closes Anything 9 (adopted chip p3) (pure Result.ok) tt refl))))
        tt

  pub commit_candidate-Closes : (p : Persistence) → Ends Closes Anything (commit_candidate chip p)
  unfolding commit_candidate
  commit_candidate-Closes p =
      Ends-if Closes Anything (not p.candidate.active || p.candidate.accepted_bytes != config_bytes)
        _ _ (λ _. tt)
        (λ _.
          Ends-if Closes Anything p.candidate.compare_active _ _ (λ _. refl)
            (λ _.
              Ends-if Closes Anything p.candidate.pending_valid _ _ (λ _. tt)
                (λ _.
                  Closes-step (seal_candidate chip p) (publish_candidate chip)
                    (seal_candidate-Changes p) publish_candidate-Closes)))
