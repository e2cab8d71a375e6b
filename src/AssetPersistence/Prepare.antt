-- ===== src/AssetPersistence/Prepare.antt =====
-- The start of a candidate: its slot is erased and its header is programmed.
use deus_os_stm.Common.{
  ℕ, ◌+◌, ◌/◌, ◌%◌, ◌<◌, ◌≡◌, ◌⊎◌, inl, inr, false, refl, sym, ap, ◌∙◌, ◌&&◌, List, [], ◌∷◌, leb,
  ◌==◌, ◌!=◌, if◌then◌else◌, arith, u16_mod, u32_mod,
}
use deus_os_stm.FlashPersistence.{
  Bytes, Chip, Flash, read_u16, read_u32, slot_a_address, slot_b_address, program_halfword,
  erase_page,
}
use deus_os_stm.FlashPersistence.Frame.{
  IsChip, erase_page-memory, erase_page-read, program_halfword-memory, program_halfword-read,
}
use deus_os_stm.AssetPersistence.Record.{
  Result, Record, offset_generation, boot_record, generation_max,
}
use deus_os_stm.AssetPersistence.State.{
  Candidate, Persistence, memory_of, pure, ◌>>◌, ◌then◌, or_reset, checkpoint, erase, is_active,
}
use deus_os_stm.AssetPersistence.Candidate.{
  program_words, program_metadata, metadata_words, started, erase_candidate, prepare_slot,
  start_changed,
}
use deus_os_stm.AssetPersistence.Slots.{Agrees, IsPair, committed_record, committed_record-Agrees}
use deus_os_stm.AssetPersistence.Ends.{
  Ends, Ends-map, Ends-checkpoint, Ends-program, Ends-if, OkElse, OkElse-map, OkElse-any, Ends-step,
  Ends-or_reset, Ends-driver, Ends-both,
}
use deus_os_stm.AssetPersistence.Staged.{IsOpen, IsOpen-boot, program-IsOpen, program_words-keeps}

-- The halfwords in the memory from an address on.
abbrev Reads : Bytes → ℕ → List ℕ → Type 0
Reads m at [] = Unit
Reads m at (x ∷ words) = (read_u16 m at ≡ x) × Reads m (at + 2) words

-- What a loop of program operations has done, if it has not failed.
record IsWritten (at : ℕ) (words : List ℕ) (p p' : Persistence) : Type 0 where
  below : (a : ℕ) → a < at → memory_of p' a ≡ memory_of p a
  reads : Reads (memory_of p') at words

abbrev Writes : ℕ → List ℕ → Persistence → Result → Persistence → Type 0
Writes at words p = OkElse (IsWritten at words p) (λ _. Unit)

program_words-Writes :
    (chip : Chip)
    → IsChip chip
    → (at : ℕ) (words : List ℕ) (p : Persistence)
    → Ends (Writes at words p) (λ _. Unit) (program_words chip at words p)
unfolding program_words
program_words-Writes chip w at [] p = record { below = λ a h. refl; reads = tt }
program_words-Writes chip w at (x ∷ words) p =
    let p1 = record p { flash = (program_halfword chip p.flash at x).1 } in
    let rest = program_words chip (at + 2) words p1 in
    Ends-program chip (Writes at (x ∷ words) p) (λ _. Unit) at x (program_words chip (at + 2) words)
      p
      (λ e.
        Ends-map (Writes at (x ∷ words) p) (λ _. Unit) rest
          (OkElse-map (IsWritten (at + 2) words p1) (λ _. Unit) (IsWritten at (x ∷ words) p)
            (λ _. Unit)
            (λ p' v. record {
              below = λ a h.
                  v.below a (omega arith) ∙ program_halfword-memory chip w p.flash at x a (inl h);
              reads = (
                rw (v.below at (omega arith), v.below (at + 1) (omega arith))
                    (program_halfword-read chip p.flash at x e),
                v.reads,
              );
            })
            (λ p' u. tt))
          (λ p' u. tt) (program_words-Writes chip w (at + 2) words p1))
      tt

metadata_generation :
    (m : Bytes) (c : Candidate) (slot : ℕ)
    → c.slot_address ≡ slot
    → c.generation < u32_mod
    → Reads m c.slot_address (metadata_words c)
    → read_u32 m (slot + offset_generation) ≡ c.generation
metadata_generation m c slot e small v =
    let at = c.slot_address in
    let low : read_u16 m (at + 2 + 2 + 2 + 2 + 2 + 2) ≡ c.generation % u16_mod = v.1.1.1.1.1.1.0 in
    let high : read_u16 m (at + 2 + 2 + 2 + 2 + 2 + 2 + 2) ≡ c.generation / u16_mod % u16_mod =
      v.1.1.1.1.1.1.1.0 in
    let there : at + 2 + 2 + 2 + 2 + 2 + 2 ≡ slot + offset_generation = omega arith in
    let above : at + 2 + 2 + 2 + 2 + 2 + 2 + 2 ≡ slot + offset_generation + 2 = omega arith in
    let low' = ap (read_u16 m) (sym there) ∙ low in
    let high' = ap (read_u16 m) (sym above) ∙ high in rw (low', high') (omega arith)

-- The flash is what an erasure of the page left that started from the memory `m` and that the driver
-- reported as failed.
abbrev pub FailedErase : Chip → Bytes → ℕ → Persistence → Type 0
FailedErase chip m page p =
    (f : Flash) × (f.memory ≡ m) × (erase_page chip f page ≡ (false, p.flash))

module _ (chip : Chip) (w : IsChip chip) (m : Bytes) (keep slot : ℕ) (r : Record)
    (q : IsPair keep slot) where
  -- The next start-up chooses the slot that was kept.
  abbrev pub Holds : Persistence → Type 0
  Holds p = boot_record (memory_of p) ≡ committed_record m keep

  pub IsOpen-Holds : (p : Persistence) → IsOpen m keep slot r p → Holds p
  IsOpen-Holds p v =
      IsOpen-boot m keep slot r p q v ∙ sym (committed_record-Agrees m (memory_of p) keep v.kept)

  -- The slot is as it was, and it is chosen unless an erasure of the other one failed.
  abbrev Keeps : Persistence → Type 0
  Keeps p = Agrees m (memory_of p) keep × (Holds p ⊎ FailedErase chip m slot p)

  -- The page of the candidate is blank after it was erased.
  erase_candidate-IsOpen :
      (p : Persistence)
      → memory_of p ≡ m
      → p.candidate.slot_address ≡ slot
      → p.active_record ≡ r
      → (R : Persistence → Type 0)
      → Ends
          (OkElse (λ p'. IsOpen m keep slot r p' × (p'.candidate ≡ p.candidate)) Keeps)
          R
          (erase_candidate chip p)
  unfolding Agrees IsPair
  erase_candidate-IsOpen p k e f R =
      let page = p.candidate.slot_address in
      let p1 = record p { flash = (erase_page chip p.flash page).1 } in
      let kept : Agrees m (memory_of p1) keep = λ a h i.
        sym (ap (λ b. b a) k)
        ∙ sym (erase_page-memory chip w p.flash page a (ground (arith, q, e))) in
      let P : Persistence → Type 0 = λ p'. IsOpen m keep slot r p' × (p'.candidate ≡ p.candidate) in
      Ends-or_reset P Keeps R (erase chip page) p (λ p2 h. h)
        (Ends-driver P Keeps R (erase_page chip p.flash page).0 p1
          (λ d. (
            record {
              kept = kept;
              open_marker = rw (sym e) (erase_page-read chip p.flash page 31 d (omega arith));
              at_slot = e;
              same_record = f;
            },
            refl,
          ))
          (λ d.
            let failed : erase_page chip p.flash page ≡ (false, p1.flash) =
              ap (λ b. (b, p1.flash)) d in
            (kept, inr (p.flash, k, rw (sym e) failed))))

  -- The candidate's slot is open and holds the candidate's generation.
  abbrev pub IsPrepared : Candidate → Persistence → Type 0
  IsPrepared c p =
      IsOpen m keep slot r p
      × (read_u32 (memory_of p) (slot + offset_generation) ≡ c.generation)
      × (p.candidate ≡ c)

  program_metadata-IsPrepared :
      (c : Candidate) (p : Persistence)
      → IsOpen m keep slot r p
      → p.candidate ≡ c
      → p.candidate.generation < u32_mod
      → Ends (OkElse (IsPrepared c) Keeps) Holds (program_metadata chip p)
  program_metadata-IsPrepared c p v f small =
      let words = metadata_words p.candidate in
      let at = p.candidate.slot_address in
      let Same : Persistence → Type 0 =
        λ p'. IsOpen m keep slot r p' × (p'.candidate ≡ p.candidate) in
      let kept =
        program_words-keeps chip Same slot (slot + 24)
          (λ p1 a value h k (v1, e). (
            program-IsOpen chip w m keep slot q r p1 a value (h, omega arith, inl (omega arith)) v1,
            e,
          ))
          at words p (rw v.at_slot (omega arith)) (rw v.at_slot (omega arith)) (v, refl) in
      let both =
        Ends-both Same Keeps (IsWritten at words p) (λ _. Unit) Holds (λ _. Unit)
          (program_words chip at words p)
          (Ends-map (OkElse Same Keeps) Holds (program_words chip at words p)
            (λ a p' (v1, e). OkElse-any Same Keeps a p' (v1, e) (v1.kept, inl (IsOpen-Holds p' v1)))
            (λ p' (v1, e). IsOpen-Holds p' v1) kept)
          (program_words-Writes chip w at words p) in
      Ends-map (OkElse (IsPrepared c) Keeps) Holds (program_words chip at words p)
        (OkElse-map (λ p'. Same p' × IsWritten at words p p') Keeps (IsPrepared c) Keeps
          (λ p' ((v1, e), t). (
            v1,
            metadata_generation (memory_of p') p.candidate slot v.at_slot small t.reads
                ∙ ap (λ d. d.generation) f,
            e ∙ f,
          ))
          (λ p' h. h))
        (λ p' h. h) both

  -- The outcomes of the start: with OK the slot is prepared, otherwise the kept slot is as it was, and
  -- after a reset it is chosen.
  prepare_slot-IsPrepared :
      (p : Persistence)
      → memory_of p ≡ m
      → boot_record (memory_of p) ≡ committed_record m keep
      → p.candidate.slot_address ≡ slot
      → p.active_record ≡ r
      → p.candidate.generation < u32_mod
      → Ends (OkElse (IsPrepared p.candidate) Keeps) Holds (prepare_slot chip p)
  unfolding prepare_slot
  prepare_slot-IsPrepared p k b e f small =
      let c = p.candidate in
      let Ready = IsPrepared c in
      let Blank : Persistence → Type 0 = λ p'. IsOpen m keep slot r p' × (p'.candidate ≡ c) in
      Ends-step Blank Keeps Ready Holds ((checkpoint 1 >> erase_candidate chip) p) _
        (Ends-checkpoint (OkElse Blank Keeps) Holds 1 p (erase_candidate chip) b
          (erase_candidate-IsOpen p k e f Holds))
        (λ p1 (v1, e1).
          Ends-step Ready Keeps Ready Holds ((checkpoint 2 >> or_reset (program_metadata chip)) p1)
            _
            (Ends-checkpoint (OkElse Ready Keeps) Holds 2 p1 (or_reset (program_metadata chip))
              (IsOpen-Holds p1 v1)
              (Ends-or_reset Ready Keeps Holds (program_metadata chip) p1 (λ p2 h. h)
                (program_metadata-IsPrepared c p1 v1 e1 (rw e1 small))))
            (λ p2 v2.
              Ends-checkpoint (OkElse Ready Keeps) Holds 3 p2 (pure Result.ok)
                (IsOpen-Holds p2 v2.0) v2))

-- By the active record: the slot that is kept, the slot of the candidate, and its generation.
abbrev pub kept_of : Record → ℕ
kept_of r =
    if r.slot_address != 0 && r.slot_address == slot_a_address
    then slot_a_address
    else slot_b_address

abbrev pub slot_of : Record → ℕ
slot_of r =
    if r.slot_address != 0 && r.slot_address == slot_a_address
    then slot_b_address
    else slot_a_address

abbrev pub generation_of : Record → ℕ
generation_of r = if r.slot_address != 0 then r.generation + 1 else 1

pub kept_of-IsPair : (r : Record) → IsPair (kept_of r) (slot_of r)
unfolding IsPair
kept_of-IsPair r = ground arith

module _ (chip : Chip) (w : IsChip chip) (m : Bytes) (p : Persistence) where
  -- A candidate is begun in the slot that is not kept, one generation on.
  abbrev pub IsBegun : Persistence → Type 0
  IsBegun p' =
      IsPrepared chip w m (kept_of p.active_record) (slot_of p.active_record) p.active_record
        (kept_of-IsPair p.active_record) (started chip p).candidate p'

  abbrev pub IsOld : Persistence → Type 0
  IsOld p' = boot_record (memory_of p') ≡ committed_record m (kept_of p.active_record)

  abbrev pub IsKept : Persistence → Type 0
  IsKept p' =
      Agrees m (memory_of p') (kept_of p.active_record)
      × (IsOld p' ⊎ FailedErase chip m (slot_of p.active_record) p')

  pub start_changed-IsBegun :
      memory_of p ≡ m → IsOld p → Ends (OkElse IsBegun IsKept) IsOld (start_changed chip p)
  unfolding start_changed Agrees
  start_changed-IsBegun k b =
      Ends-if (OkElse IsBegun IsKept) IsOld
        (is_active p && leb generation_max p.active_record.generation) _ _
        (λ _. ((λ a h i. sym (ap (λ b. b a) k)), inl b))
        (λ e.
          prepare_slot-IsPrepared chip w m (kept_of p.active_record) (slot_of p.active_record)
            p.active_record (kept_of-IsPair p.active_record) (started chip p) k b refl refl
            (ground arith))
