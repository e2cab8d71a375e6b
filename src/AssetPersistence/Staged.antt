-- ===== src/AssetPersistence/Staged.antt =====
-- A candidate slot that is being filled: the other slot is untouched, the marker is not written.
use deus_os_stm.Common.{
  ℕ, ◌+◌, ◌*◌, ◌≤◌, ◌<◌, ◌≡◌, ◌⊎◌, inl, sym, ◌∙◌, List, [], ◌∷◌, length, arith,
}
use deus_os_stm.FlashPersistence.{Bytes, Chip, read_u16, read_u32, page_size, program_halfword}
use deus_os_stm.FlashPersistence.Frame.{IsChip, program_halfword-memory}
use deus_os_stm.AssetPersistence.Record.{Record, offset_marker, offset_generation, boot_record}
use deus_os_stm.AssetPersistence.State.{Persistence, memory_of}
use deus_os_stm.AssetPersistence.Candidate.{program_words}
use deus_os_stm.AssetPersistence.Ends.{Ends, Ends-program}
use deus_os_stm.AssetPersistence.Slots.{Agrees, IsPair, committed_record, unmarked, boot_one}

-- With the memory `now`, the slot `keep` is as in the memory `m`, and the other slot, the
-- candidate's, is not marked.
pub record IsOpenSlot (m : Bytes) (keep slot : ℕ) (r : Record) (now : Bytes) (at : ℕ) (r' : Record)
    : Type 0 where
  pub kept : Agrees m now keep
  pub open_marker : read_u16 now (slot + offset_marker) ≡ 0xFFFF
  pub at_slot : at ≡ slot
  pub same_record : r' ≡ r

abbrev pub IsOpen : Bytes → ℕ → ℕ → Record → Persistence → Type 0
IsOpen m keep slot r p =
    IsOpenSlot m keep slot r (memory_of p) p.candidate.slot_address p.active_record

-- The candidate's slot holds the generation `g`, and the slot `keep` is as in `m`.
pub record IsStagedSlot (m : Bytes) (keep slot g : ℕ) (now : Bytes) (at : ℕ) : Type 0 where
  pub kept : Agrees m now keep
  pub generation : read_u32 now (slot + offset_generation) ≡ g
  pub at_slot : at ≡ slot

abbrev pub IsStaged : Bytes → ℕ → ℕ → ℕ → Persistence → Type 0
IsStaged m keep slot g p = IsStagedSlot m keep slot g (memory_of p) p.candidate.slot_address

-- The choice at start-up is that of the kept slot.
pub IsOpen-boot :
    (m : Bytes) (keep slot : ℕ) (r : Record) (p : Persistence)
    → IsPair keep slot
    → IsOpen m keep slot r p
    → boot_record (memory_of p) ≡ committed_record (memory_of p) keep
IsOpen-boot m keep slot r p q v =
    boot_one (memory_of p) keep slot q (unmarked (memory_of p) slot v.open_marker)

module _ (chip : Chip) (w : IsChip chip) (m : Bytes) (keep slot : ℕ) (q : IsPair keep slot) where
  -- A place in the candidate's slot that is not the marker.
  abbrev Apart : ℕ → Type 0
  Apart at =
      (slot ≤ at)
      × (at + 2 ≤ slot + page_size)
      × ((at + 2 ≤ slot + offset_marker) ⊎ (slot + offset_marker + 2 ≤ at))

  program-kept :
      (p : Persistence) (at value a : ℕ)
      → slot ≤ at
      → at + 2 ≤ slot + page_size
      → keep ≤ a
      → a < keep + page_size
      → (program_halfword chip p.flash at value).1.memory a ≡ memory_of p a
  unfolding IsPair
  program-kept p at value a h k i j =
      program_halfword-memory chip w p.flash at value a (ground (arith, q))

  pub program-IsOpen :
      (r : Record) (p : Persistence) (at value : ℕ)
      → Apart at
      → IsOpen m keep slot r p
      → IsOpen m keep slot r (record p { flash = (program_halfword chip p.flash at value).1 })
  unfolding Agrees
  program-IsOpen r p at value (h, k, l) v =
      let still : (a : ℕ)
          → ((a < at) ⊎ (at + 2 ≤ a))
          → (program_halfword chip p.flash at value).1.memory a ≡ memory_of p a =
        program_halfword-memory chip w p.flash at value in
      record {
        kept = λ a i j. v.kept a i j ∙ sym (program-kept p at value a h k i j);
        open_marker =
            rw
              (
                still (slot + offset_marker) (ground (arith, l)),
                still (slot + offset_marker + 1) (ground (arith, l)),
              )
              v.open_marker;
        at_slot = v.at_slot;
        same_record = v.same_record;
      }

  pub program-IsStaged :
      (g : ℕ) (p : Persistence) (at value : ℕ)
      → slot + 24 ≤ at
      → at + 2 ≤ slot + page_size
      → IsStaged m keep slot g p
      → IsStaged m keep slot g (record p { flash = (program_halfword chip p.flash at value).1 })
  unfolding Agrees
  program-IsStaged g p at value k l v =
      let still : (a : ℕ)
          → ((a < at) ⊎ (at + 2 ≤ a))
          → (program_halfword chip p.flash at value).1.memory a ≡ memory_of p a =
        program_halfword-memory chip w p.flash at value in
      let i = slot + offset_generation in
      record {
        kept = λ a h j. v.kept a h j ∙ sym (program-kept p at value a (omega arith) l h j);
        at_slot = v.at_slot;
        generation =
            rw
              (
                still i (inl (omega arith)),
                still (i + 1) (inl (omega arith)),
                still (i + 2) (inl (omega arith)),
                still (i + 2 + 1) (inl (omega arith)),
              )
              v.generation;
      }

-- A loop of program operations keeps what each of them keeps.
pub program_words-keeps {ℓ} :
    (chip : Chip) (R : Persistence → Type ℓ) (low high : ℕ)
    → ((p : Persistence) (at value : ℕ)
        → low ≤ at
        → at + 2 ≤ high
        → R p
        → R (record p { flash = (program_halfword chip p.flash at value).1 }))
    → (at : ℕ) (words : List ℕ) (p : Persistence) → low ≤ at
    → at + 2 * length words ≤ high
    → R p
    → Ends (λ _. R) R (program_words chip at words p)
unfolding program_words
program_words-keeps chip R low high s at [] p h k v = v
program_words-keeps chip R low high s at (x ∷ words) p h k v =
    let v' = s p at x h (omega arith) v in
    Ends-program chip (λ _. R) R at x (program_words chip (at + 2) words) p
      (λ _. program_words-keeps chip R low high s (at + 2) words _ (omega arith) (omega arith) v')
      v'
