-- ===== src/AssetPersistence/Copy.antt =====
-- A candidate that turned out to differ: the prefix that was equal is copied, the rest is written.
use deus_os_stm.Common.{
  ℕ, zero, suc, ◌+◌, ◌*◌, ◌/◌, ◌%◌, ◌≤◌, ◌≡◌, inl, sym, ap, ◌∙◌, true, List, length, ◌==◌,
  if◌then◌else◌, arith,
}
use deus_os_stm.FlashPersistence.{Bytes, Chip, read_u16}
use deus_os_stm.FlashPersistence.Frame.{IsChip}
use deus_os_stm.AssetPersistence.Layout.{config_bytes}
use deus_os_stm.AssetPersistence.Record.{Record, offset_payload}
use deus_os_stm.AssetPersistence.State.{Persistence, memory_of, ◌>>◌, ◌then◌, or_reset}
use deus_os_stm.AssetPersistence.Candidate.{
  program_payload, accept, write_payload_bytes, copy_pairs, copy_last, write_changed, start_changed,
}
use deus_os_stm.AssetPersistence.Slots.{IsPair}
use deus_os_stm.AssetPersistence.Ends.{
  Ends, Ends-map, Ends-bind, Ends-step, Ends-or_reset, Ends-if, OkElse, OkElse-map,
}
use deus_os_stm.AssetPersistence.Staged.{IsOpen}
use deus_os_stm.AssetPersistence.Prepare.{
  IsOpen-Holds, kept_of, slot_of, generation_of, kept_of-IsPair, IsBegun, IsKept, IsOld,
  start_changed-IsBegun,
}
use deus_os_stm.AssetPersistence.Write.{
  IsFilled, program_payload-IsFilled, accept-IsFilled, keep_byte-IsFilled,
  write_payload_bytes-IsFilled,
}

module _ (chip : Chip) (w : IsChip chip) (m : Bytes) (keep slot : ℕ) (q : IsPair keep slot)
    (r : Record) (g : ℕ) where
  abbrev Filled : ℕ → Persistence → Type 0
  Filled n p = IsFilled m keep slot r g n p

  abbrev Opened : Persistence → Type 0
  Opened p = IsOpen m keep slot r p

  copy_pairs-IsFilled :
      (count prefix total : ℕ) (p : Persistence)
      → prefix + 2 * count ≡ total
      → total ≤ config_bytes
      → Filled prefix p
      → Ends (OkElse (Filled total) Opened) Opened (copy_pairs chip count prefix p)
  unfolding copy_pairs
  copy_pairs-IsFilled zero prefix total p e h v =
      let same : prefix ≡ total = omega arith in rw (sym same) v
  copy_pairs-IsFilled (suc n) prefix total p e h v =
      let value = read_u16 (memory_of p) (p.active_record.slot_address + offset_payload + prefix) in
      Ends-step (Filled prefix) Opened (Filled total) Opened
        (or_reset (program_payload chip prefix value) p)
        (accept chip 2 >> copy_pairs chip n (prefix + 2))
        (Ends-or_reset (Filled prefix) Opened Opened (program_payload chip prefix value) p
          (λ p1 h1. h1)
          (program_payload-IsFilled chip w m keep slot q r g prefix p prefix value (omega arith) v))
        (λ p1 v1.
          copy_pairs-IsFilled n (prefix + 2) total _ (omega arith) h
            (accept-IsFilled chip w m keep slot q r g prefix p1 (omega arith) v1))

  copy_last-IsFilled :
      (size : ℕ) (p : Persistence)
      → size ≤ config_bytes
      → Filled (2 * (size / 2)) p
      → Ends (λ _. Filled size) Opened (copy_last chip size p)
  copy_last-IsFilled size p h v =
      Ends-if (λ _. Filled size) Opened (size % 2 == 1) _ _
        (λ e.
          let odd : 2 * (size / 2) + 1 ≡ size = ground arith in
          rw (sym odd)
            (keep_byte-IsFilled chip w m keep slot q r g (2 * (size / 2)) _ p (rw odd h) v))
        (λ e. let even : 2 * (size / 2) ≡ size = ground arith in rw (sym even) v)

  copied-IsFilled :
      (size total : ℕ) (bytes : List ℕ) (p : Persistence)
      → size + length bytes ≡ total
      → total ≤ config_bytes
      → Filled 0 p
      → Ends (OkElse (Filled total) Opened) Opened (
          (copy_pairs chip (size / 2) 0
              then (copy_last chip size >> write_payload_bytes chip bytes))
            p)
  copied-IsFilled size total bytes p e h v =
      Ends-step (Filled (2 * (size / 2))) Opened (Filled total) Opened
        (copy_pairs chip (size / 2) 0 p) _
        (copy_pairs-IsFilled (size / 2) 0 (2 * (size / 2)) p (omega arith) (omega arith) v)
        (λ p1 v1.
          Ends-bind (OkElse (Filled total) Opened) Opened (copy_last chip size p1)
            (λ _. write_payload_bytes chip bytes) (copy_last-IsFilled size p1 (omega arith) v1)
            (λ a p2 v2.
              write_payload_bytes-IsFilled chip w m keep slot q r g bytes size total p2 e h v2))

module _ (chip : Chip) (w : IsChip chip) (m : Bytes) (p : Persistence) where
  abbrev pub Underway : ℕ → Persistence → Type 0
  Underway n p' =
      IsFilled m (kept_of p.active_record) (slot_of p.active_record) p.active_record
        (generation_of p.active_record) n p'

  -- A candidate that is begun has accepted nothing.
  pub IsBegun-IsFilled :
      (p' : Persistence) → p.candidate.active ≡ true → IsBegun chip w m p p' → Underway 0 p'
  IsBegun-IsFilled p' a (v, e, f) = record {
    open_slot = v;
    generation = e;
    accepted = ap (λ c. c.accepted_bytes) f;
    pending = inl (ap (λ c. c.pending_valid) f);
    active = ap (λ c. c.active) f ∙ a;
    changed = ap (λ c. c.compare_active) f;
  }

  pub write_changed-IsFilled :
      (size total : ℕ) (bytes : List ℕ)
      → size + length bytes ≡ total
      → total ≤ config_bytes
      → p.candidate.active ≡ true
      → memory_of p ≡ m
      → IsOld chip w m p p
      → Ends
          (OkElse (Underway total) (IsKept chip w m p))
          (IsOld chip w m p)
          (write_changed chip size bytes p)
  unfolding write_changed
  write_changed-IsFilled size total bytes e h a k o =
      let r = p.active_record in
      let Opening : Persistence → Type 0 = λ p'. IsOpen m (kept_of r) (slot_of r) r p' in
      Ends-step (IsBegun chip w m p) (IsKept chip w m p) (Underway total) (IsOld chip w m p)
        (start_changed chip p) _ (start_changed-IsBegun chip w m p k o)
        (λ p1 v1.
          Ends-map (OkElse (Underway total) (IsKept chip w m p)) (IsOld chip w m p) _
            (OkElse-map (Underway total) Opening (Underway total) (IsKept chip w m p) (λ p2 v2. v2)
              (λ p2 v2. (
                v2.kept,
                inl (IsOpen-Holds chip w m (kept_of r) (slot_of r) r (kept_of-IsPair r) p2 v2),
              )))
            (λ p2 v2. IsOpen-Holds chip w m (kept_of r) (slot_of r) r (kept_of-IsPair r) p2 v2)
            (copied-IsFilled chip w m (kept_of r) (slot_of r) (kept_of-IsPair r) r (generation_of r)
              size total bytes p1 e h (IsBegun-IsFilled p1 a v1)))
