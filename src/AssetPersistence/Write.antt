-- ===== src/AssetPersistence/Write.antt =====
-- The payload of a candidate: the bytes that are accepted, and what the writes leave of the slots.
use deus_os_stm.Common.{
  ℕ, ◌+◌, ◌-◌, ◌*◌, ◌%◌, ◌≤◌, ◌≡◌, ◌⊎◌, inl, inr, refl, sym, ◌∙◌, true, false, List, [], ◌∷◌,
  length, ◌==◌, if◌then◌else◌, arith, u16_mod,
}
use deus_os_stm.FlashPersistence.{Bytes, Chip, read_u32, page_size, program_halfword}
use deus_os_stm.FlashPersistence.Frame.{IsChip}
use deus_os_stm.AssetPersistence.Layout.{config_bytes}
use deus_os_stm.AssetPersistence.Record.{Result, Record, offset_payload, offset_generation}
use deus_os_stm.AssetPersistence.State.{
  Candidate, Persistence, memory_of, pure, ◌>>◌, ◌then◌, checkpoint,
}
use deus_os_stm.AssetPersistence.Candidate.{
  program_payload, accept, keep_byte, write_pairs, pending_done, write_payload_bytes,
}
use deus_os_stm.AssetPersistence.Slots.{IsPair}
use deus_os_stm.AssetPersistence.Ends.{
  Ends, Ends-step, Ends-checkpoint, Ends-if, Ends-if-action, Ends-program, OkElse,
}
use deus_os_stm.AssetPersistence.Staged.{IsOpen, program-IsOpen, program-IsStaged}

-- A candidate of generation `g` that has accepted `n` bytes, at most all of the payload.
pub record IsFilled (m : Bytes) (keep slot : ℕ) (r : Record) (g n : ℕ) (p : Persistence)
    : Type 0 where
  pub open_slot : IsOpen m keep slot r p
  pub generation : read_u32 (memory_of p) (slot + offset_generation) ≡ g
  pub accepted : p.candidate.accepted_bytes ≡ n
  pub pending : (p.candidate.pending_valid ≡ false) ⊎ (1 ≤ n)
  pub active : p.candidate.active ≡ true
  pub changed : p.candidate.compare_active ≡ false

module _ (chip : Chip) (w : IsChip chip) (m : Bytes) (keep slot : ℕ) (q : IsPair keep slot)
    (r : Record) (g : ℕ) where
  -- Programming in the payload is not seen by the header.
  program-IsFilled :
      (n : ℕ) (p : Persistence) (offset value : ℕ)
      → offset + 2 ≤ page_size - offset_payload
      → IsFilled m keep slot r g n p
      → IsFilled m keep slot r g n (record p {
        flash =
            (program_halfword chip p.flash
              (p.candidate.slot_address + offset_payload + offset)
              value).1;
      })
  program-IsFilled n p offset value h v =
      let at = p.candidate.slot_address + offset_payload + offset in
      let e = v.open_slot.at_slot in
      let low : slot + offset_payload ≤ at = omega arith in
      let high : at + 2 ≤ slot + page_size = omega arith in
      record {
        open_slot =
            program-IsOpen chip w m keep slot q r p at value (omega arith, high, inr (omega arith))
              v.open_slot;
        generation =
            (program-IsStaged chip w m keep slot q g p at value (omega arith) high (record {
              kept = v.open_slot.kept;
              generation = v.generation;
              at_slot = e;
            })).generation;
        accepted = v.accepted;
        pending = v.pending;
        active = v.active;
        changed = v.changed;
      }

  abbrev pub Fills : ℕ → Result → Persistence → Type 0
  Fills n = OkElse (IsFilled m keep slot r g n) (IsOpen m keep slot r)

  abbrev pub Open : Persistence → Type 0
  Open p = IsOpen m keep slot r p

  pub program_payload-IsFilled :
      (n : ℕ) (p : Persistence) (offset value : ℕ)
      → offset + 2 ≤ page_size - offset_payload
      → IsFilled m keep slot r g n p
      → Ends (Fills n) Open (program_payload chip offset value p)
  unfolding program_payload
  program_payload-IsFilled n p offset value h v =
      let at = p.candidate.slot_address + offset_payload + offset in
      let p1 = record p { flash = (program_halfword chip p.flash at value).1 } in
      let v1 = program-IsFilled n p offset value h v in
      Ends-program chip (Fills n) Open at value
        (if offset == 0 then checkpoint 4 >> pure Result.ok else pure Result.ok) p
        (λ _.
          Ends-if-action (Fills n) Open (offset == 0) (checkpoint 4 >> pure Result.ok)
            (pure Result.ok) p1
            (Ends-checkpoint (Fills n) Open 4 p1 (pure Result.ok) v1.open_slot v1) v1)
        v1.open_slot

  -- Bytes are accepted: the candidate with the new count and what is pending.
  accepted-IsFilled :
      (n n' : ℕ) (p : Persistence) (c : Candidate)
      → c.slot_address ≡ p.candidate.slot_address
      → c.accepted_bytes ≡ n'
      → (c.pending_valid ≡ false) ⊎ (1 ≤ n')
      → c.active ≡ p.candidate.active
      → c.compare_active ≡ p.candidate.compare_active
      → IsFilled m keep slot r g n p
      → IsFilled m keep slot r g n' (record p { candidate = c })
  accepted-IsFilled n n' p c h i j k l v = record {
    open_slot = record {
      kept = v.open_slot.kept;
      open_marker = v.open_slot.open_marker;
      at_slot = h ∙ v.open_slot.at_slot;
      same_record = v.open_slot.same_record;
    };
    generation = v.generation;
    accepted = i;
    pending = j;
    active = k ∙ v.active;
    changed = l ∙ v.changed;
  }

  pub accept-IsFilled :
      (n : ℕ) (p : Persistence)
      → n + 2 ≤ config_bytes
      → IsFilled m keep slot r g n p
      → IsFilled m keep slot r g (n + 2) (record p {
        candidate = record p.candidate {
          accepted_bytes = (p.candidate.accepted_bytes + 2) % u16_mod;
        };
      })
  accept-IsFilled n p h v =
      accepted-IsFilled n (n + 2) p
        (record p.candidate { accepted_bytes = (p.candidate.accepted_bytes + 2) % u16_mod }) refl
        (rw v.accepted (omega arith)) (inr (omega arith)) refl refl v

  pub keep_byte-IsFilled :
      (n byte : ℕ) (p : Persistence)
      → n + 1 ≤ config_bytes
      → IsFilled m keep slot r g n p
      → Ends (λ _. IsFilled m keep slot r g (n + 1)) Open (keep_byte chip byte p)
  keep_byte-IsFilled n byte p h v =
      accepted-IsFilled n (n + 1) p
        (record p.candidate {
          pending_byte = byte;
          pending_valid = true;
          accepted_bytes = (p.candidate.accepted_bytes + 1) % u16_mod;
        })
        refl (rw v.accepted (omega arith)) (inr (omega arith)) refl refl v

  write_pairs-IsFilled :
      (bytes : List ℕ) (n total : ℕ) (p : Persistence)
      → n + length bytes ≡ total
      → total ≤ config_bytes
      → IsFilled m keep slot r g n p
      → Ends (Fills total) Open (write_pairs chip bytes p)
  unfolding write_pairs
  write_pairs-IsFilled [] n total p e h v = let same : n ≡ total = omega arith in rw (sym same) v
  write_pairs-IsFilled (b ∷ []) n total p e h v =
      let same : n + 1 ≡ total = e in rw (sym same) (keep_byte-IsFilled n b p (rw same h) v)
  write_pairs-IsFilled (b ∷ c ∷ bytes) n total p e h v =
      Ends-step (IsFilled m keep slot r g n) Open (IsFilled m keep slot r g total) Open
        (program_payload chip p.candidate.accepted_bytes (b + 256 * c) p)
        (accept chip 2 >> write_pairs chip bytes)
        (program_payload-IsFilled n p p.candidate.accepted_bytes (b + 256 * c)
          (rw v.accepted (omega arith)) v)
        (λ p1 v1.
          write_pairs-IsFilled bytes (n + 2) total _ (omega arith) h
            (accept-IsFilled n p1 (omega arith) v1))

  pub write_payload_bytes-IsFilled :
      (bytes : List ℕ) (n total : ℕ) (p : Persistence)
      → n + length bytes ≡ total
      → total ≤ config_bytes
      → IsFilled m keep slot r g n p
      → Ends (Fills total) Open (write_payload_bytes chip bytes p)
  unfolding write_payload_bytes
  write_payload_bytes-IsFilled [] n total p e h v =
      let same : n ≡ total = omega arith in rw (sym same) v
  write_payload_bytes-IsFilled (b ∷ bytes) n total p e h v =
      Ends-if (Fills total) Open p.candidate.pending_valid _ _
        (λ t.
          let some_byte : 1 ≤ n = elim v.pending [ inl f ↦ absurd (ground arith) | inr i ↦ i ] in
          let offset = (p.candidate.accepted_bytes + u16_mod - 1) % u16_mod in
          Ends-step (IsFilled m keep slot r g n) Open (IsFilled m keep slot r g total) Open
            (program_payload chip offset (p.candidate.pending_byte + 256 * b) p)
            (pending_done chip >> write_pairs chip bytes)
            (program_payload-IsFilled n p offset (p.candidate.pending_byte + 256 * b)
              (rw v.accepted (omega arith)) v)
            (λ p1 v1. write_pairs-IsFilled bytes (n + 1) total _ (omega arith) h (
              accepted-IsFilled n (n + 1) p1
                (record p1.candidate {
                  pending_valid = false;
                  accepted_bytes = (p1.candidate.accepted_bytes + 1) % u16_mod;
                })
                refl (rw v1.accepted (omega arith)) (inl refl) refl refl v1)))
        (λ t. write_pairs-IsFilled (b ∷ bytes) n total p e h v)
