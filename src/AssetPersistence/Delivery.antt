-- ===== src/AssetPersistence/Delivery.antt =====
-- A whole delivery: a candidate is begun, its bytes are written in chunks, and it is committed.
use deus_os_stm.Common.{
  ℕ, ◌+◌, ◌≡◌, ◌⊎◌, inl, inr, refl, sym, ◌∙◌, true, ◌&&◌, some, List, [], ◌∷◌, length, ◌==◌,
  if◌then◌else◌,
}
use deus_os_stm.FlashPersistence.{Bytes, Chip}
use deus_os_stm.FlashPersistence.Frame.{IsChip}
use deus_os_stm.AssetPersistence.Record.{Result, Record, record_at, boot_record}
use deus_os_stm.AssetPersistence.State.{
  Persistence, returned, Action, memory_of, ◌then◌, is_active, active_record_get,
}
use deus_os_stm.AssetPersistence.Candidate.{
  write_candidate, begin_candidate, start_changed, commit_candidate,
}
use deus_os_stm.AssetPersistence.Slots.{Agrees, committed_record}
use deus_os_stm.AssetPersistence.Ends.{Ends, Ends-map, Ends-step, Ends-if, OkElse, OkElse-map}
use deus_os_stm.AssetPersistence.Prepare.{
  IsBegun, kept_of, slot_of, generation_of, start_changed-IsBegun, IsKept, FailedErase,
}
use deus_os_stm.AssetPersistence.Copy.{IsBegun-IsFilled}
use deus_os_stm.AssetPersistence.Commit.{Chooses}
use deus_os_stm.AssetPersistence.Booted.{IsBooted, IsBooted-kept, IsBooted-IsNewer}
use deus_os_stm.AssetPersistence.Underway.{
  IsUnderway, Kept, Old, Goes, Decided, Kept-Decided, Current, refl-Agrees,
  write_candidate-IsUnderway, commit_candidate-Current,
}

-- The next start-up chooses the record that was active, or the next one in the other slot.
abbrev pub IsOldOrNew : Persistence → Persistence → Type 0
IsOldOrNew p p' =
    (boot_record (memory_of p') ≡ active_record_get p)
    ⊎ ((boot_record (memory_of p') ≡ some (record_at (memory_of p') (slot_of p.active_record)))
        × ((record_at (memory_of p') (slot_of p.active_record)).generation
            ≡ generation_of p.active_record))

-- So many bytes are accepted.
abbrev IsSomehow : Bytes → Record → Persistence → Type 0
IsSomehow m r p = (n : ℕ) × IsUnderway m r n p

module _ (chip : Chip) (w : IsChip chip) where
  -- What the begin leaves.
  begin_candidate-IsUnderway :
      (crc : ℕ) (p : Persistence)
      → boot_record (memory_of p) ≡ committed_record (memory_of p) (kept_of p.active_record)
      → Ends
          (Goes chip w (memory_of p) p.active_record 0)
          (Old chip w (memory_of p) p.active_record)
          (begin_candidate chip crc p)
  unfolding begin_candidate
  begin_candidate-IsUnderway crc p b =
      let m = memory_of p in
      let q = record p { candidate = record p.candidate { payload_crc32 = crc; active = true } } in
      let Q = Goes chip w m p.active_record 0 in
      let R = Old chip w m p.active_record in
      let same = refl-Agrees m (kept_of p.active_record) in
      let kept : Kept chip w m p.active_record p = (same, inl b) in
      Ends-if Q R p.candidate.active _ _ (λ e. kept)
        (λ e.
          Ends-if Q R (is_active p && p.active_record.payload_crc32 == crc) _ _
            (λ t. inl (record {
              same_memory = refl;
              same_record = refl;
              accepted = refl;
              active = refl;
              comparing = refl;
            }))
            (λ t.
              Ends-map Q R (start_changed chip q)
                (OkElse-map (IsBegun chip w m q) (IsKept chip w m q)
                  (IsUnderway m p.active_record 0) (Kept chip w m p.active_record)
                  (λ p2 v2. inr (IsBegun-IsFilled chip w m q p2 refl v2)) (λ p2 v2. v2))
                (λ p2 v2. v2) (start_changed-IsBegun chip w m q refl b)))

  -- The writes of the chunks, one after the other, as long as they succeed.
  abbrev pub write_chunks : List (List ℕ) → Action Result
  write_chunks [] p = returned Result.ok p
  write_chunks (chunk ∷ chunks) p = (write_candidate chip chunk then write_chunks chunks) p

  -- A delivery as the transfer makes it.
  abbrev pub deliver : ℕ → List (List ℕ) → Action Result
  deliver crc chunks =
      begin_candidate chip crc then (write_chunks chunks then commit_candidate chip)

  write_chunks-IsUnderway :
      (m : Bytes) (r : Record)
      → boot_record m ≡ committed_record m (kept_of r)
      → (chunks : List (List ℕ)) (n : ℕ) (p : Persistence) → IsUnderway m r n p
      → Ends (OkElse (IsSomehow m r) (Kept chip w m r)) (Old chip w m r) (write_chunks chunks p)
  write_chunks-IsUnderway m r b [] n p v = (n, v)
  write_chunks-IsUnderway m r b (chunk ∷ chunks) n p v =
      Ends-step (IsUnderway m r (n + length chunk)) (Kept chip w m r) (IsSomehow m r)
        (Old chip w m r) (write_candidate chip chunk p) (write_chunks chunks)
        (write_candidate-IsUnderway chip w m r b chunk n p v)
        (λ p1 v1. write_chunks-IsUnderway m r b chunks (n + length chunk) p1 v1)

  -- A delivery is atomic. It starts from a state whose active record is the one that the next
  -- start-up chooses, with no two slots in doubt. Whatever the chunks are, and whatever the
  -- controller does, as long as an erasure changes its page only and a program operation its
  -- halfword only: with the result OK the next start-up chooses the record that is active then, one
  -- generation on, or generation 1 where none was active. With another result no byte has changed
  -- of the slot of the record that was active, or of the slot B where none was, and, unless the
  -- flash is what an erasure of the other slot left that started from the memory of the beginning
  -- and that the driver reported as failed, the next
  -- start-up chooses the record that was active, or none if none was, or the record of that next
  -- generation in the other slot. Where the processor is reset at a checkpoint, the next start-up
  -- chooses one of those two without any exception.
  pub deliver-IsAtomic :
      (crc : ℕ) (chunks : List (List ℕ)) (p : Persistence)
      → IsBooted p
      → Ends
          (OkElse
            (λ p'.
              (boot_record (memory_of p') ≡ some p'.active_record)
              × (p'.active_record.generation ≡ generation_of p.active_record))
            (λ p'.
              Agrees (memory_of p) (memory_of p') (kept_of p.active_record)
              × (IsOldOrNew p p' ⊎ FailedErase chip (memory_of p) (slot_of p.active_record) p')))
          (IsOldOrNew p)
          (deliver crc chunks p)
  deliver-IsAtomic crc chunks p b =
      let m = memory_of p in
      let r = p.active_record in
      let old = IsBooted-kept p b in
      let R : Persistence → Type 0 =
        λ p'. Chooses m (kept_of r) (slot_of r) (generation_of r) (memory_of p') in
      let K = Kept chip w m r in
      let C = Current chip w m r in
      let D = Decided chip w m r in
      let chosen : (p2 : Persistence) → R p2 → IsOldOrNew p p2 =
        λ p2 v2. elim v2 [ inl e ↦ inl (e ∙ sym old ∙ b.chosen) | inr e ↦ inr e ] in
      let F : Persistence → Type 0 = FailedErase chip m (slot_of r) in
      let N : Persistence → Type 0 =
        λ p2. Agrees m (memory_of p2) (kept_of r) × (IsOldOrNew p p2 ⊎ F p2) in
      Ends-map (OkElse C N) (IsOldOrNew p) (deliver crc chunks p)
        (OkElse-map C D C N (λ p2 v2. v2)
          (λ p2 (k, v2). (k, elim v2 [ inl e ↦ inl (chosen p2 e) | inr f ↦ inr f ])))
        chosen
        (Ends-step (IsUnderway m r 0) D C R (begin_candidate chip crc p)
          (write_chunks chunks then commit_candidate chip)
          (Ends-map (OkElse (IsUnderway m r 0) D) R (begin_candidate chip crc p)
            (OkElse-map (IsUnderway m r 0) K (IsUnderway m r 0) D (λ p2 v2. v2)
              (Kept-Decided chip w m r))
            (λ p2 v2. inl v2) (begin_candidate-IsUnderway crc p old))
          (λ p1 v1.
            Ends-step (IsSomehow m r) D C R (write_chunks chunks p1) (commit_candidate chip)
              (Ends-map (OkElse (IsSomehow m r) D) R (write_chunks chunks p1)
                (OkElse-map (IsSomehow m r) K (IsSomehow m r) D (λ p2 v2. v2)
                  (Kept-Decided chip w m r))
                (λ p2 v2. inl v2) (write_chunks-IsUnderway m r old chunks 0 p1 v1))
              (λ p2 (n, v2).
                commit_candidate-Current chip w m r (IsBooted-IsNewer p b) old n p2 v2)))
