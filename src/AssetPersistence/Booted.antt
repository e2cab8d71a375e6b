-- ===== src/AssetPersistence/Booted.antt =====
-- The state after a start-up, and after a commit: the active record is the one that the next start-up
-- chooses.
use deus_os_stm.Common.{
  sym, Option, if◌then◌else◌, u32_mod, ◌+◌, ◌%◌, ◌!=◌, ℕ, ◌≡◌, ◌⊎◌, inl, inr, refl, ap, ◌∙◌, true,
  false, none, some, arith, Bool-cases,
}
use deus_os_stm.FlashPersistence.{Bytes, slot_a_address, slot_b_address}
use deus_os_stm.AssetPersistence.Record.{Record, record_at, boot_record, is_committed, is_ambiguous}
use deus_os_stm.AssetPersistence.State.{
  Persistence, memory_of, is_active, active_record_get, selected, init, select_boot_record,
}
use deus_os_stm.AssetPersistence.Slots.{committed_record}
use deus_os_stm.AssetPersistence.Commit.{IsNewer}
use deus_os_stm.AssetPersistence.Prepare.{kept_of, generation_of}

-- The slot of the record that the start-up chooses.
abbrev IsChosen : Bytes → ℕ → Record → Type 0
IsChosen m slot r = (is_committed m slot ≡ true) × (r ≡ record_at m slot)

boot_record-IsChosen :
    (m : Bytes) (r : Record)
    → boot_record m ≡ some r
    → IsChosen m slot_a_address r ⊎ IsChosen m slot_b_address r
unfolding boot_record
boot_record-IsChosen m r h = ground arith

boot_record-none :
    (m : Bytes)
    → is_ambiguous m ≡ false
    → boot_record m ≡ none
    → is_committed m slot_b_address ≡ false
unfolding boot_record is_ambiguous
boot_record-none m h k = ground arith

-- After a start-up that was not ambiguous, or a commit.
pub record IsBooted (p : Persistence) : Type 0 where
  pub chosen : boot_record (memory_of p) ≡ active_record_get p
  pub clear : is_ambiguous (memory_of p) ≡ false

IsChosen-committed :
    (m : Bytes) (slot : ℕ) (r : Record) → IsChosen m slot r → some r ≡ committed_record m slot
unfolding committed_record
IsChosen-committed m slot r (c, e) = rw (c, e) refl

active : (p : Persistence) → is_active p ≡ true → active_record_get p ≡ some p.active_record
active p e = rw e refl

inactive : (p : Persistence) → is_active p ≡ false → active_record_get p ≡ none
inactive p e = rw e refl

none-committed :
    (m : Bytes) (slot : ℕ) → is_committed m slot ≡ false → none ≡ committed_record m slot
unfolding committed_record
none-committed m slot e = rw e refl

-- An active record is in the slot that is kept.
kept_of-IsChosen :
    (p : Persistence)
    → IsBooted p
    → is_active p ≡ true
    → IsChosen (memory_of p) (kept_of p.active_record) p.active_record
kept_of-IsChosen p b e =
    elim (boot_record-IsChosen (memory_of p) p.active_record (b.chosen ∙ rw e refl)) [
      | inl h ↦ rw (kept_a (ap (λ r. r.slot_address) h.1)) h
      | inr h ↦ rw (kept_b (ap (λ r. r.slot_address) h.1)) h
    ]
  where
    kept_a :
        p.active_record.slot_address ≡ slot_a_address → kept_of p.active_record ≡ slot_a_address
    kept_a f = ground arith

    kept_b :
        p.active_record.slot_address ≡ slot_b_address → kept_of p.active_record ≡ slot_b_address
    kept_b f = ground arith

-- Without one, the slot that is kept is not committed.
kept_of-none :
    (p : Persistence)
    → IsBooted p
    → is_active p ≡ false
    → is_committed (memory_of p) (kept_of p.active_record) ≡ false
kept_of-none p b e = rw e (boot_record-none (memory_of p) b.clear (b.chosen ∙ rw e refl))

pub IsBooted-kept :
    (p : Persistence)
    → IsBooted p
    → boot_record (memory_of p) ≡ committed_record (memory_of p) (kept_of p.active_record)
IsBooted-kept p b = elim (Bool-cases (is_active p)) [
  | inl e ↦
      b.chosen
      ∙ active p e
      ∙ IsChosen-committed (memory_of p) (kept_of p.active_record) p.active_record
          (kept_of-IsChosen p b e)
  | inr e ↦
      b.chosen
      ∙ inactive p e
      ∙ none-committed (memory_of p) (kept_of p.active_record) (kept_of-none p b e)
]

pub IsBooted-IsNewer :
    (p : Persistence)
    → IsBooted p
    → IsNewer (memory_of p) (kept_of p.active_record) (generation_of p.active_record)
IsBooted-IsNewer p b = elim (Bool-cases (is_active p)) [
  | inl e ↦ inr (let c = ap (λ r. r.generation) (kept_of-IsChosen p b e).1 in ground (arith, c))
  | inr e ↦ inl (kept_of-none p b e)
]

pub selected-get :
    (p : Persistence) (o : Option Record)
    → boot_record (memory_of p) ≡ o
    → active_record_get (selected p o) ≡ o
selected-get p none e = refl
selected-get p (some r) e =
    let at : r.slot_address != 0 ≡ true = elim (boot_record-IsChosen (memory_of p) r e) [
      | inl h ↦ rw (ap (λ x. x.slot_address) h.1) refl
      | inr h ↦ rw (ap (λ x. x.slot_address) h.1) refl
    ] in
    rw at refl

pub selected-memory : (p : Persistence) (o : Option Record) → memory_of (selected p o) ≡ memory_of p
selected-memory p none = refl
selected-memory p (some r) = refl

-- A start-up from any memory in which the slots do not hold two records of the same generation
-- leaves a state whose active record is the one that the next start-up chooses, and the memory as
-- it was.
init-IsBooted :
    (p : Persistence)
    → is_ambiguous (memory_of p) ≡ false
    → IsBooted (init p) × (memory_of (init p) ≡ memory_of p)
unfolding select_boot_record
init-IsBooted p h =
    let n =
      if is_ambiguous (memory_of p) then (p.ambiguity_count + 1) % u32_mod else p.ambiguity_count in
    let q = record p { ambiguity_count = n } in
    let o = boot_record (memory_of p) in
    let same = selected-memory q o in
    (
      record {
        chosen = ap boot_record same ∙ sym (selected-get q o refl);
        clear = ap is_ambiguous same ∙ h;
      },
      same,
    )
