-- ===== src/AssetPersistence/Commit.antt =====
-- The commit of a candidate: what each outcome leaves for the next start-up.
use deus_os_stm.Common.{
  ℕ, ◌+◌, ◌/◌, ◌%◌, ◌<◌, ◌≡◌, ◌⊎◌, inl, inr, refl, sym, ap, ◌∙◌, true, false, ◌||◌, not, some, [],
  ◌∷◌, ◌!=◌, arith, u16_mod, Bool-cases,
}
use deus_os_stm.FlashPersistence.{Bytes, Chip, page_size, program_halfword}
use deus_os_stm.FlashPersistence.Frame.{IsChip}
use deus_os_stm.AssetPersistence.Layout.{config_bytes}
use deus_os_stm.AssetPersistence.Record.{
  Result, is_ok, offset_header_crc, offset_marker, commit_marker, crc32_flash, record_at,
  boot_record, is_committed, validate_record,
}
use deus_os_stm.AssetPersistence.State.{Persistence, memory_of, pure, ◌>>◌, modify, checkpoint}
use deus_os_stm.AssetPersistence.Candidate.{
  program_header_crc, validate_candidate, check_marker, adopted, seal_candidate, publish_candidate,
  commit_candidate, abort_candidate,
}
use deus_os_stm.AssetPersistence.Slots.{
  IsPair, committed_record, boot_one, boot_newer, validate_record-Agrees, record_at-Agrees,
  committed_record-Agrees,
}
use deus_os_stm.AssetPersistence.Ends.{
  Ends, Ends-then, Ends-checkpoint, Ends-program, Ends-if, Ends-map, OkElse,
}
use deus_os_stm.AssetPersistence.Staged.{IsStaged, program-IsStaged, program_words-keeps}

-- The generation `g` is newer than that of a slot, if the slot is committed.
abbrev pub IsNewer : Bytes → ℕ → ℕ → Type 0
IsNewer m keep g = (is_committed m keep ≡ false) ⊎ ((record_at m keep).generation < g)

-- The next start-up chooses the record that was kept, or the candidate, of generation `g`.
abbrev pub Chooses : Bytes → ℕ → ℕ → ℕ → Bytes → Type 0
Chooses m keep slot g now =
    (boot_record now ≡ committed_record m keep)
    ⊎ ((boot_record now ≡ some (record_at now slot)) × ((record_at now slot).generation ≡ g))

module _ (m : Bytes) (keep slot g : ℕ) (q : IsPair keep slot) (newer : IsNewer m keep g) where
  pub chosen :
      (p : Persistence)
      → IsStaged m keep slot g p
      → is_committed (memory_of p) slot ≡ true
      → boot_record (memory_of p) ≡ some (record_at (memory_of p) slot)
  chosen p v e =
      let same : record_at m keep ≡ record_at (memory_of p) keep =
        record_at-Agrees m (memory_of p) keep v.kept in
      let still = ap is_ok (validate_record-Agrees m (memory_of p) keep v.kept commit_marker) in
      boot_newer (memory_of p) keep slot q e (λ c.
        rw (v.generation, sym (ap (λ r. r.generation) same))
          (elim newer [
            | inl n ↦ let clash : true ≡ false = sym c ∙ sym still ∙ n in absurd (ground arith)
            | inr n ↦ n
          ]))

  pub IsStaged-Chooses :
      (p : Persistence) → IsStaged m keep slot g p → Chooses m keep slot g (memory_of p)
  IsStaged-Chooses p v = elim (Bool-cases (is_committed (memory_of p) slot)) [
    | inl e ↦ inr (chosen p v e, v.generation)
    | inr e ↦ inl (
        boot_one (memory_of p) keep slot q e
        ∙ sym (committed_record-Agrees m (memory_of p) keep v.kept))
  ]

-- A result that is not OK says nothing; with OK the candidate is committed and active.
abbrev pub Adopts : ℕ → Result → Persistence → Type 0
Adopts slot result p =
    is_ok result ≡ true
    → (is_committed (memory_of p) slot ≡ true) × (p.active_record ≡ record_at (memory_of p) slot)

module _ (chip : Chip) (w : IsChip chip) (m : Bytes) (keep slot g : ℕ) (q : IsPair keep slot) where
  abbrev Staged : Persistence → Type 0
  Staged p = IsStaged m keep slot g p

  abbrev Always : Result → Persistence → Type 0
  Always result p = Staged p

  seal_candidate-IsStaged :
      (p : Persistence) → Staged p → Ends Always Staged (seal_candidate chip p)
  unfolding seal_candidate program_header_crc
  seal_candidate-IsStaged p v =
      let crc = crc32_flash (memory_of p) p.candidate.slot_address 24 in
      Ends-then Always Staged ((checkpoint 5 >> program_header_crc chip) p) _
        (Ends-checkpoint Always Staged 5 p (program_header_crc chip) v (
          program_words-keeps chip Staged (slot + 24) (slot + page_size)
            (program-IsStaged chip w m keep slot q g) (p.candidate.slot_address + offset_header_crc)
            (crc % u16_mod ∷ crc / u16_mod % u16_mod ∷ []) p (rw v.at_slot (omega arith))
            (rw v.at_slot (omega arith)) v))
        (λ p1 v1.
          Ends-then Always Staged (validate_candidate chip 0xFFFF p1) _ v1
            (λ p2 v2. Ends-checkpoint Always Staged 6 p2 (pure Result.ok) v2 v2) (λ r p2 e v2. v2))
        (λ r p1 e v1. v1)

  abbrev Adopted : Result → Persistence → Type 0
  Adopted result p = Staged p × Adopts slot result p

  unless_ok :
      (result : Result) (p : Persistence) → is_ok result ≡ false → Staged p → Adopted result p
  unless_ok result p e v = (v, λ f. absurd (ground arith))

  -- From the second validation on.
  adopt_candidate-Adopted :
      (p : Persistence)
      → Staged p
      → is_committed (memory_of p) slot ≡ true
      → Ends Adopted Staged
          ((checkpoint 8 >> (modify (adopted chip) >> (checkpoint 9 >> pure Result.ok))) p)
  unfolding adopted
  adopt_candidate-Adopted p v c =
      let here : (record_at (memory_of p) p.candidate.slot_address) ≡ record_at (memory_of p) slot =
        ap (record_at (memory_of p)) v.at_slot in
      Ends-checkpoint Adopted Staged 8 p _ v
        (Ends-checkpoint Adopted Staged 9 (adopted chip p) (pure Result.ok) v (v, λ e. (c, here)))

  publish_candidate-Adopted :
      (p : Persistence) → Staged p → Ends Adopted Staged (publish_candidate chip p)
  unfolding publish_candidate
  publish_candidate-Adopted p v =
      let p1 = record p {
        flash =
            (program_halfword chip p.flash (p.candidate.slot_address + offset_marker)
              commit_marker).1;
      } in
      let v1 =
        program-IsStaged chip w m keep slot q g p (p.candidate.slot_address + offset_marker)
          commit_marker (rw v.at_slot (omega arith)) (rw v.at_slot (omega arith)) v in
      Ends-program chip Adopted Staged (p.candidate.slot_address + offset_marker) commit_marker _ p
        (λ _.
          Ends-then Adopted Staged (check_marker chip p1) _ v1
            (λ p2 v2.
              Ends-then
                {P = λ r p'.
                  Staged p'
                  × (validate_record (memory_of p') p'.candidate.slot_address commit_marker ≡ r)}
                Adopted Staged ((checkpoint 7 >> validate_candidate chip commit_marker) p2) _
                (Ends-checkpoint _ Staged 7 p2 (validate_candidate chip commit_marker) v2
                  (v2, refl))
                (λ p3 (v3, c). adopt_candidate-Adopted p3 v3 (
                  ap is_ok (
                    ap (λ a. validate_record (memory_of p3) a commit_marker) (sym v3.at_slot) ∙ c)))
                (λ r p3 e (v3, c). unless_ok r p3 e v3))
            (λ r p2 e v2. unless_ok r p2 e v2))
        (unless_ok Result.storage_error p1 refl v1)

  -- What a commit leaves, in each outcome.
  pub commit_candidate-Adopted :
      (p : Persistence) → Staged p → Ends Adopted Staged (commit_candidate chip p)
  unfolding commit_candidate
  commit_candidate-Adopted p v =
      let o =
        Ends-then Adopted Staged (seal_candidate chip p) (publish_candidate chip)
          (seal_candidate-IsStaged p v) publish_candidate-Adopted unless_ok in
      Ends-if Adopted Staged (not p.candidate.active || p.candidate.accepted_bytes != config_bytes)
        _ _ (λ _. unless_ok Result.bad_state p refl v)
        (λ _.
          Ends-if Adopted Staged p.candidate.compare_active _ _
            (λ _. unless_ok Result.unchanged (abort_candidate p) refl v)
            (λ _.
              Ends-if Adopted Staged p.candidate.pending_valid _ _
                (λ _. unless_ok Result.bad_state p refl v) (λ _. o)))

  abbrev pub Settles : Result → Persistence → Type 0
  Settles =
      OkElse
        (λ p. (boot_record (memory_of p) ≡ some p.active_record) × (p.active_record.generation ≡ g))
        (λ p. Chooses m keep slot g (memory_of p))

  pub settles :
      IsNewer m keep g → (result : Result) (p : Persistence) → Adopted result p → Settles result p
  settles n Result.ok p (v, a) =
      let (c, e) = a refl in
      (chosen m keep slot g q n p v c ∙ ap some (sym e), ap (λ r. r.generation) e ∙ v.generation)
  settles n Result.unchanged p (v, a) = IsStaged-Chooses m keep slot g q n p v
  settles n Result.bad_state p (v, a) = IsStaged-Chooses m keep slot g q n p v
  settles n Result.crc_mismatch p (v, a) = IsStaged-Chooses m keep slot g q n p v
  settles n Result.validation_failed p (v, a) = IsStaged-Chooses m keep slot g q n p v
  settles n Result.storage_error p (v, a) = IsStaged-Chooses m keep slot g q n p v
  settles n Result.wear_budget_exhausted p (v, a) = IsStaged-Chooses m keep slot g q n p v

  -- A commit is atomic. A candidate whose slot holds the generation g is committed, while the other
  -- slot is as in the memory m, where it is not committed or older. Whatever the controller does,
  -- as long as a program operation changes its halfword only, and at whichever checkpoint the
  -- processor is reset, the next start-up chooses the record that the other slot held in m, or none
  -- if it held none, or the candidate with generation g; with the result OK it chooses the record
  -- that is active then, of generation g.
  pub commit_candidate-Settles :
      IsNewer m keep g
      → (p : Persistence) → IsStaged m keep slot g p
      → Ends Settles (λ p'. Chooses m keep slot g (memory_of p')) (commit_candidate chip p)
  commit_candidate-Settles n p v =
      Ends-map Settles (λ p'. Chooses m keep slot g (memory_of p')) (commit_candidate chip p)
        (settles n) (IsStaged-Chooses m keep slot g q n) (commit_candidate-Adopted p v)
