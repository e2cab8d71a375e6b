-- ===== src/AssetPersistence/Startup.antt =====
-- What a start-up finds in the two slots, told without the order in which it looks at them.
use deus_os_stm.Common.{
  ℕ, ◌+◌, ◌%◌, ◌<◌, ◌≡◌, ◌⊎◌, inl, inr, refl, Bool, true, false, ◌&&◌, ◌==◌, if◌then◌else◌, Option,
  none, some, arith, Bool-cases, u32_mod,
}
use deus_os_stm.FlashPersistence.{Bytes, read_u32, slot_a_address, slot_b_address}
use deus_os_stm.AssetPersistence.Layout.{Layout, set_console}
use deus_os_stm.AssetPersistence.Record.{
  Record, offset_payload, offset_generation, offset_payload_crc, records_identical, record_at,
  boot_record, is_committed, is_ambiguous,
}
use deus_os_stm.AssetPersistence.State.{
  Persistence, memory_of, active_record_get, selected, init, select_boot_record,
}
use deus_os_stm.AssetPersistence.Slots.{IsPair}
use deus_os_stm.AssetPersistence.Booted.{selected-get, selected-memory}

abbrev pub Committed : Bytes → ℕ → Type 0
Committed m slot = is_committed m slot ≡ true

-- The generation of the record of a slot.
abbrev pub generation_in : Bytes → ℕ → ℕ
generation_in m slot = read_u32 m (slot + offset_generation)

-- The checksum and the two words of the payloads are the same in both slots.
abbrev pub IsSameAsset : Bytes → Type 0
IsSameAsset m =
    (read_u32 m (slot_a_address + offset_payload_crc)
      ≡ read_u32 m (slot_b_address + offset_payload_crc))
    × (read_u32 m (slot_a_address + offset_payload) ≡ read_u32 m (slot_b_address + offset_payload))
    × (read_u32 m (slot_a_address + offset_payload + 4)
        ≡ read_u32 m (slot_b_address + offset_payload + 4))

-- The rectangle of the payload of a slot.
abbrev pub Shows : Bytes → ℕ → Layout → Type 0
Shows m slot l =
    (l.x ≡ m (slot + offset_payload + 1))
    × (l.y ≡ m (slot + offset_payload + 2))
    × (l.width ≡ m (slot + offset_payload + 3))
    × (l.height ≡ m (slot + offset_payload + 4))

-- From the memory, the layout and the count of doubtful start-ups before it: the active record,
-- the layout and the count after a start-up.
pub data IsStarted (m : Bytes) (l : Layout) (n : ℕ) : Option Record → Layout → ℕ → Type 0 where
  nothing : ¬ Committed m slot_a_address → ¬ Committed m slot_b_address → IsStarted m l n none l n
  newest :
      (keep slot : ℕ) (l' : Layout)
      → IsPair keep slot
      → Committed m slot
      → ¬ Committed m keep ⊎ (generation_in m keep < generation_in m slot)
      → Shows m slot l'
      → IsStarted m l n (some (record_at m slot)) l' n
  twice :
      (l' : Layout)
      → Committed m slot_a_address
      → Committed m slot_b_address
      → generation_in m slot_a_address ≡ generation_in m slot_b_address
      → IsSameAsset m
      → Shows m slot_a_address l'
      → IsStarted m l n (some (record_at m slot_a_address)) l' ((n + 1) % u32_mod)
  in_doubt :
      Committed m slot_a_address
      → Committed m slot_b_address
      → generation_in m slot_a_address ≡ generation_in m slot_b_address
      → ¬ IsSameAsset m
      → IsStarted m l n none l ((n + 1) % u32_mod)

set_console-fields :
    (l : Layout) (x y width height : ℕ)
    → ((set_console l x y width height).x ≡ x)
      × ((set_console l x y width height).y ≡ y)
      × ((set_console l x y width height).width ≡ width)
      × ((set_console l x y width height).height ≡ height)
unfolding set_console
set_console-fields l x y width height = (ground arith, ground arith, ground arith, ground arith)

shown :
    (p : Persistence) (slot : ℕ)
    → Shows (memory_of p) slot (selected p (some (record_at (memory_of p) slot))).layout
shown p slot =
    let m = memory_of p in
    set_console-fields p.layout (m (slot + offset_payload + 1)) (m (slot + offset_payload + 2))
      (m (slot + offset_payload + 3)) (m (slot + offset_payload + 4))

-- The outcome of a start-up by the record that it selects.
abbrev Starts : Persistence → Option Record → Bool → Type 0
Starts p o doubtful =
    IsStarted (memory_of p) p.layout p.ambiguity_count o (selected p o).layout
      (if doubtful then (p.ambiguity_count + 1) % u32_mod else p.ambiguity_count)

uncommitted :
    (p : Persistence) (slot : ℕ)
    → is_committed (memory_of p) slot ≡ false
    → ¬ Committed (memory_of p) slot
uncommitted p slot e h = absurd (ground arith)

slots : IsPair slot_b_address slot_a_address
unfolding IsPair
slots = inr (refl, refl)

slots' : IsPair slot_a_address slot_b_address
unfolding IsPair
slots' = inl (refl, refl)

-- One slot is committed, or none.
boot_a :
    (m : Bytes)
    → is_committed m slot_a_address ≡ true
    → is_committed m slot_b_address ≡ false
    → (boot_record m ≡ some (record_at m slot_a_address)) × (is_ambiguous m ≡ false)
unfolding boot_record is_ambiguous
boot_a m h k = (ground arith, ground arith)

boot_b :
    (m : Bytes)
    → is_committed m slot_a_address ≡ false
    → is_committed m slot_b_address ≡ true
    → (boot_record m ≡ some (record_at m slot_b_address)) × (is_ambiguous m ≡ false)
unfolding boot_record is_ambiguous
boot_b m h k = (ground arith, ground arith)

boot_none :
    (m : Bytes)
    → is_committed m slot_a_address ≡ false
    → is_committed m slot_b_address ≡ false
    → (boot_record m ≡ none) × (is_ambiguous m ≡ false)
unfolding boot_record is_ambiguous
boot_none m h k = (ground arith, ground arith)

-- Both slots are committed.
module _ (m : Bytes) (ca : Committed m slot_a_address) (cb : Committed m slot_b_address) where
  boot_larger :
      generation_in m slot_b_address < generation_in m slot_a_address
      → (boot_record m ≡ some (record_at m slot_a_address)) × (is_ambiguous m ≡ false)
  unfolding boot_record is_ambiguous
  boot_larger h = (ground arith, ground arith)

  boot_larger' :
      generation_in m slot_a_address < generation_in m slot_b_address
      → (boot_record m ≡ some (record_at m slot_b_address)) × (is_ambiguous m ≡ false)
  unfolding boot_record is_ambiguous
  boot_larger' h = (ground arith, ground arith)

  boot_twice :
      generation_in m slot_a_address ≡ generation_in m slot_b_address
      → IsSameAsset m
      → (boot_record m ≡ some (record_at m slot_a_address)) × (is_ambiguous m ≡ true)
  unfolding boot_record is_ambiguous
  boot_twice h same = (ground (arith, same), ground arith)

  boot_doubt :
      generation_in m slot_a_address ≡ generation_in m slot_b_address
      → ¬ IsSameAsset m
      → (boot_record m ≡ none) × (is_ambiguous m ≡ true)
  unfolding boot_record is_ambiguous
  boot_doubt h other =
      let test : records_identical m (record_at m slot_a_address) (record_at m slot_b_address)
          ≡ false =
        elim (Bool-cases
          (records_identical m (record_at m slot_a_address) (record_at m slot_b_address))) [
            | inl e ↦ absurd (other (ground arith, ground arith, ground arith))
            | inr e ↦ e
          ] in
      (ground arith, ground arith)

same_or_not : (m : Bytes) → IsSameAsset m ⊎ ¬ IsSameAsset m
same_or_not m =
    let a = slot_a_address in
    let b = slot_b_address in
    let test =
      read_u32 m (a + offset_payload_crc) == read_u32 m (b + offset_payload_crc)
      && read_u32 m (a + offset_payload) == read_u32 m (b + offset_payload)
      && read_u32 m (a + offset_payload + 4) == read_u32 m (b + offset_payload + 4) in
    elim (Bool-cases test) [
      | inl e ↦ inl (ground arith, ground arith, ground arith)
      | inr e ↦ inr (λ h. absurd (ground (arith, h)))
    ]

selected-fields :
    (p : Persistence) (n : ℕ) (o : Option Record)
    → ((selected (record p { ambiguity_count = n }) o).layout ≡ (selected p o).layout)
      × ((selected (record p { ambiguity_count = n }) o).ambiguity_count ≡ n)
selected-fields p n none = (refl, refl)
selected-fields p n (some r) = (refl, refl)

module _ (p : Persistence) where
  by :
      (o : Option Record) (doubtful : Bool)
      → (boot_record (memory_of p) ≡ o) × (is_ambiguous (memory_of p) ≡ doubtful)
      → Starts p o doubtful
      → Starts p (boot_record (memory_of p)) (is_ambiguous (memory_of p))
  by o doubtful (e, f) h = rw (e, f) h

  two_slots :
      Committed (memory_of p) slot_a_address
      → Committed (memory_of p) slot_b_address
      → Starts p (boot_record (memory_of p)) (is_ambiguous (memory_of p))
  two_slots ca cb =
      let m = memory_of p in
      let a = slot_a_address in
      let b = slot_b_address in
      let cases : (generation_in m b < generation_in m a)
          ⊎ ((generation_in m a < generation_in m b) ⊎ (generation_in m a ≡ generation_in m b)) =
        ground arith in
      elim cases [
        | inl h ↦
            by (some (record_at m a)) false (boot_larger m ca cb h)
              (newest b a _ slots ca (inr h) (shown p a))
        | inr (inl h) ↦
            by (some (record_at m b)) false (boot_larger' m ca cb h)
              (newest a b _ slots' cb (inr h) (shown p b))
        | inr (inr h) ↦ elim (same_or_not m) [
          | inl same ↦
              by (some (record_at m a)) true (boot_twice m ca cb h same)
                (twice _ ca cb h same (shown p a))
          | inr other ↦ by none true (boot_doubt m ca cb h other) (in_doubt ca cb h other)
        ]
      ]

  choice : Starts p (boot_record (memory_of p)) (is_ambiguous (memory_of p))
  choice =
      let m = memory_of p in
      let a = slot_a_address in
      let b = slot_b_address in
      elim (Bool-cases (is_committed m a)) [
        | inl ca ↦ elim (Bool-cases (is_committed m b)) [
          | inl cb ↦ two_slots ca cb
          | inr cb ↦
              by (some (record_at m a)) false (boot_a m ca cb)
                (newest b a _ slots ca (inl (uncommitted p b cb)) (shown p a))
        ]
        | inr ca ↦ elim (Bool-cases (is_committed m b)) [
          | inl cb ↦
              by (some (record_at m b)) false (boot_b m ca cb)
                (newest a b _ slots' cb (inl (uncommitted p a ca)) (shown p b))
          | inr cb ↦
              by none false (boot_none m ca cb) (nothing (uncommitted p a ca) (uncommitted p b cb))
        ]
      ]

-- A start-up, from any memory and any state before it. The memory stays as it was, and the active
-- record afterwards is: none, if no slot is committed; the record of a committed slot, if the other
-- slot is not committed or holds a smaller generation; the record of the slot A, if both hold the
-- same generation with the same checksum and payload; none, if they hold the same generation with
-- another checksum or payload. In the last two cases, and in no other, one more doubtful start-up
-- is counted. The layout shows the payload of the active record, or is as it was if there is none.
pub init-IsStarted :
    (p : Persistence)
    → IsStarted
        (memory_of p)
        p.layout
        p.ambiguity_count
        (active_record_get (init p))
        (init p).layout
        (init p).ambiguity_count
      × (memory_of (init p) ≡ memory_of p)
unfolding select_boot_record
init-IsStarted p =
    let n =
      if is_ambiguous (memory_of p) then (p.ambiguity_count + 1) % u32_mod else p.ambiguity_count in
    let q = record p { ambiguity_count = n } in
    let o = boot_record (memory_of p) in
    let started = choice p in
    let fields = selected-fields p n o in
    (rw (selected-get q o refl, fields.0, fields.1) started, selected-memory q o)
