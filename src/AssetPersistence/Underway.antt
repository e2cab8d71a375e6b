-- ===== src/AssetPersistence/Underway.antt =====
-- A candidate that is under way, still compared with the active record or already written: what a write
-- and a commit leave.
use deus_os_stm.Common.{
  ℕ, ◌+◌, ◌-◌, ◌%◌, ◌≤◌, ◌≡◌, ◌⊎◌, inl, inr, refl, sym, true, ◌||◌, not, Option, none, some, List,
  [], ◌∷◌, length, drop, length-drop, ltb, ◌!=◌, arith, u16_mod,
}
use deus_os_stm.FlashPersistence.{Bytes, Chip}
use deus_os_stm.FlashPersistence.Frame.{IsChip}
use deus_os_stm.AssetPersistence.Layout.{config_bytes}
use deus_os_stm.AssetPersistence.Record.{Result, Record, offset_payload, boot_record}
use deus_os_stm.AssetPersistence.State.{Persistence, memory_of}
use deus_os_stm.AssetPersistence.Candidate.{
  first_difference, write_changed, write_compared, write_candidate, commit_candidate,
}
use deus_os_stm.AssetPersistence.Slots.{Agrees, committed_record}
use deus_os_stm.AssetPersistence.Ends.{Ends, Ends-map, Ends-if, OkElse, OkElse-map, OkElse-instead}
use deus_os_stm.AssetPersistence.Staged.{IsOpen, IsStaged}
use deus_os_stm.AssetPersistence.Prepare.{
  IsOpen-Holds, kept_of, slot_of, generation_of, kept_of-IsPair, IsKept, IsOld, FailedErase,
}
use deus_os_stm.AssetPersistence.Write.{IsFilled, write_payload_bytes-IsFilled}
use deus_os_stm.AssetPersistence.Copy.{Underway, write_changed-IsFilled}
use deus_os_stm.AssetPersistence.Commit.{
  IsNewer, Chooses, commit_candidate-Adopted, settles, IsStaged-Chooses,
}

-- The first difference is among the bytes.
pub first_difference-bound :
    (chip : Chip) (m : Bytes) (at : ℕ) (bytes : List ℕ) (start index : ℕ)
    → first_difference chip m at bytes start ≡ some index
    → index ≤ start + length bytes
unfolding first_difference
first_difference-bound chip m at [] start index e = absurd (ground arith)
first_difference-bound chip m at (b ∷ bytes) start index e =
    let rest = first_difference-bound chip m (at + 1) bytes (start + 1) index in ground arith

-- A candidate that was begun with `n` bytes accepted: all of them equal to the active record's so
-- far, with nothing changed in the flash, or in its slot.
pub record IsComparing (m : Bytes) (r : Record) (n : ℕ) (p : Persistence) : Type 0 where
  pub same_memory : memory_of p ≡ m
  pub same_record : p.active_record ≡ r
  pub accepted : p.candidate.accepted_bytes ≡ n
  pub active : p.candidate.active ≡ true
  pub comparing : p.candidate.compare_active ≡ true

abbrev pub IsUnderway : Bytes → Record → ℕ → Persistence → Type 0
IsUnderway m r n p =
    IsComparing m r n p ⊎ IsFilled m (kept_of r) (slot_of r) r (generation_of r) n p

pub refl-Agrees : (m : Bytes) (slot : ℕ) → Agrees m m slot
unfolding Agrees
refl-Agrees m slot a h k = refl

-- The bytes turn out to differ, while the flash is as it was.
differs-IsUnderway :
    (chip : Chip) (w : IsChip chip) (size total : ℕ) (bytes : List ℕ) (p : Persistence)
    → size + length bytes ≡ total
    → total ≤ config_bytes
    → p.candidate.active ≡ true
    → boot_record (memory_of p) ≡ committed_record (memory_of p) (kept_of p.active_record)
    → Ends
        (OkElse (IsUnderway (memory_of p) p.active_record total) (IsKept chip w (memory_of p) p))
        (λ p'.
          boot_record (memory_of p') ≡ committed_record (memory_of p) (kept_of p.active_record))
        (write_changed chip size bytes p)
differs-IsUnderway chip w size total bytes p e h a b =
    let m = memory_of p in
    Ends-map (OkElse (IsUnderway m p.active_record total) (IsKept chip w m p)) (IsOld chip w m p)
      (write_changed chip size bytes p)
      (OkElse-map (Underway chip w m p total) (IsKept chip w m p)
        (IsUnderway m p.active_record total) (IsKept chip w m p) (λ p2 v2. inr v2) (λ p2 v2. v2))
      (λ p2 v2. v2) (write_changed-IsFilled chip w m p size total bytes e h a refl b)

module _ (chip : Chip) (w : IsChip chip) (m : Bytes) (r : Record) where
  abbrev pub Old : Persistence → Type 0
  Old p = boot_record (memory_of p) ≡ committed_record m (kept_of r)

  -- The record that was kept is still chosen, unless an erasure of the other slot failed.
  abbrev pub Kept : Persistence → Type 0
  Kept p = Agrees m (memory_of p) (kept_of r) × (Old p ⊎ FailedErase chip m (slot_of r) p)

  unchanged-Kept :
      (p : Persistence) → boot_record m ≡ committed_record m (kept_of r) → memory_of p ≡ m → Kept p
  unchanged-Kept p b e = rw e (refl-Agrees m (kept_of r), inl b)

  abbrev pub Goes : ℕ → Result → Persistence → Type 0
  Goes n = OkElse (IsUnderway m r n) Kept

  abbrev Opening : Persistence → Type 0
  Opening p = IsOpen m (kept_of r) (slot_of r) r p

  abbrev Filled : ℕ → Persistence → Type 0
  Filled n p = IsFilled m (kept_of r) (slot_of r) r (generation_of r) n p

  write_compared-IsUnderway :
      boot_record m ≡ committed_record m (kept_of r)
      → (bytes : List ℕ) (n : ℕ) (p : Persistence) → n + length bytes ≤ config_bytes
      → IsComparing m r n p
      → (o : Option ℕ) → ((index : ℕ) → o ≡ some index → index ≤ length bytes)
      → Ends (Goes (n + length bytes)) Old (write_compared chip bytes o p)
  unfolding write_compared
  write_compared-IsUnderway b bytes n p h v none k = inl (record {
    same_memory = v.same_memory;
    same_record = v.same_record;
    accepted = rw v.accepted (omega arith);
    active = v.active;
    comparing = v.comparing;
  })
  write_compared-IsUnderway b bytes n p h v (some index) k =
      let i = k index refl in
      let left : length (drop index bytes) ≡ length bytes - index = length-drop index bytes in
      let size = (p.candidate.accepted_bytes + index) % u16_mod in
      let whole : size ≡ n + index = rw v.accepted (omega arith) in
      rw (sym v.same_memory, sym v.same_record)
        (differs-IsUnderway chip w size (n + length bytes) (drop index bytes) p (omega arith) h
          v.active (rw (v.same_memory, v.same_record) b))

  -- What a write leaves of a candidate.
  pub write_candidate-IsUnderway :
      boot_record m ≡ committed_record m (kept_of r)
      → (bytes : List ℕ) (n : ℕ) (p : Persistence) → IsUnderway m r n p
      → Ends (Goes (n + length bytes)) Old (write_candidate chip bytes p)
  unfolding write_candidate
  write_candidate-IsUnderway b bytes n p (inl v) =
      let Q = Goes (n + length bytes) in
      let at = p.active_record.slot_address + offset_payload + p.candidate.accepted_bytes in
      Ends-if Q Old
        (not p.candidate.active || ltb config_bytes (p.candidate.accepted_bytes + length bytes)) _ _
        (λ e. unchanged-Kept p b v.same_memory)
        (λ e.
          Ends-if Q Old p.candidate.compare_active _ _
            (λ t.
              write_compared-IsUnderway b bytes n p (rw (sym v.accepted) (ground arith)) v
                (first_difference chip (memory_of p) at bytes 0)
                (λ index f.
                  let i = first_difference-bound chip (memory_of p) at bytes 0 index f in
                  omega arith))
            (λ t. let c = v.comparing in absurd (ground arith)))
  write_candidate-IsUnderway b bytes n p (inr v) =
      let Q = Goes (n + length bytes) in
      Ends-if Q Old
        (not p.candidate.active || ltb config_bytes (p.candidate.accepted_bytes + length bytes)) _ _
        (λ e. (
          v.open_slot.kept,
          inl (IsOpen-Holds chip w m (kept_of r) (slot_of r) r (kept_of-IsPair r) p v.open_slot),
        ))
        (λ e.
          Ends-if Q Old p.candidate.compare_active _ _
            (λ t. let c = v.changed in absurd (ground arith))
            (λ t.
              Ends-map Q Old _
                (OkElse-map (Filled (n + length bytes)) Opening (IsUnderway m r (n + length bytes))
                  Kept (λ p2 v2. inr v2)
                  (λ p2 v2. (
                    v2.kept,
                    inl (IsOpen-Holds chip w m (kept_of r) (slot_of r) r (kept_of-IsPair r) p2 v2),
                  )))
                (λ p2 v2. IsOpen-Holds chip w m (kept_of r) (slot_of r) r (kept_of-IsPair r) p2 v2)
                (write_payload_bytes-IsFilled chip w m (kept_of r) (slot_of r) (kept_of-IsPair r) r
                  (generation_of r) bytes n (n + length bytes) p refl
                  (rw (sym v.accepted) (ground arith)) v)))

  -- A commit of a candidate that is complete, or the same as the active record.
  abbrev pub Current : Persistence → Type 0
  Current p =
      (boot_record (memory_of p) ≡ some p.active_record)
      × (p.active_record.generation ≡ generation_of r)

  -- The record that was kept is chosen, or the next one of the other slot, unless an erasure of that
  -- slot failed.
  abbrev pub Decided : Persistence → Type 0
  Decided p =
      Agrees m (memory_of p) (kept_of r)
      × (Chooses m (kept_of r) (slot_of r) (generation_of r) (memory_of p)
          ⊎ FailedErase chip m (slot_of r) p)

  pub Kept-Decided : (p : Persistence) → Kept p → Decided p
  Kept-Decided p (k, o) = (k, elim o [ inl e ↦ inl (inl e) | inr f ↦ inr f ])

  pub commit_candidate-Current :
      IsNewer m (kept_of r) (generation_of r)
      → boot_record m ≡ committed_record m (kept_of r)
      → (n : ℕ) (p : Persistence) → IsUnderway m r n p
      → Ends
          (OkElse Current Decided)
          (λ p'. Chooses m (kept_of r) (slot_of r) (generation_of r) (memory_of p'))
          (commit_candidate chip p)
  unfolding commit_candidate
  commit_candidate-Current newer b n p (inl v) =
      let Q = OkElse Current Decided in
      let R : Persistence → Type 0 =
        λ p'. Chooses m (kept_of r) (slot_of r) (generation_of r) (memory_of p') in
      let kept = Kept-Decided p (unchanged-Kept p b v.same_memory) in
      Ends-if Q R (not p.candidate.active || p.candidate.accepted_bytes != config_bytes) _ _
        (λ e. kept)
        (λ e.
          Ends-if Q R p.candidate.compare_active _ _ (λ t. kept)
            (λ t. let c = v.comparing in absurd (ground arith)))
  commit_candidate-Current newer b n p (inr v) =
      let pair = kept_of-IsPair r in
      let staged : IsStaged m (kept_of r) (slot_of r) (generation_of r) p = record {
        kept = v.open_slot.kept;
        generation = v.generation;
        at_slot = v.open_slot.at_slot;
      } in
      Ends-map (OkElse Current Decided)
        (λ p'. Chooses m (kept_of r) (slot_of r) (generation_of r) (memory_of p'))
        (commit_candidate chip p)
        (λ result p2 a.
          OkElse-instead Current
            (λ p3. Chooses m (kept_of r) (slot_of r) (generation_of r) (memory_of p3)) Decided
            result p2
            (settles chip w m (kept_of r) (slot_of r) (generation_of r) pair newer result p2 a)
            (
              a.0.kept,
              inl (IsStaged-Chooses m (kept_of r) (slot_of r) (generation_of r) pair newer p2 a.0),
            ))
        (λ p2 v2. IsStaged-Chooses m (kept_of r) (slot_of r) (generation_of r) pair newer p2 v2)
        (commit_candidate-Adopted chip w m (kept_of r) (slot_of r) (generation_of r) pair p staged)
