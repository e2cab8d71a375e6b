-- ===== src/AssetPersistence/Slots.antt =====
-- What the validity of a slot and the choice at start-up depend on.
use deus_os_stm.Common.{
  ℕ, zero, suc, ◌+◌, ◌*◌, ◌≤◌, ◌<◌, ◌≡◌, ◌≢◌, ◌⊎◌, inl, inr, refl, ap, ◌∙◌, true, false, Option,
  none, some, if◌then◌else◌, arith, bit_xor,
}
use deus_os_stm.FlashPersistence.{
  Bytes, read_u16, read_u32, page_size, slot_a_address, slot_b_address,
}
use deus_os_stm.AssetPersistence.Layout.{config_bytes, config_validate}
use deus_os_stm.AssetPersistence.Record.{
  Record, commit_marker, offset_generation, offset_payload_crc, offset_header_crc, offset_marker,
  offset_payload, crc32_over, crc32_flash, crc32_update, header_ok, reserved_ok, record_at,
  validate_record, is_committed, boot_record,
}

-- Two memories have the same bytes in a slot.
unfoldable pub Agrees : Bytes → Bytes → ℕ → Type 0
Agrees m m' slot = (a : ℕ) → slot ≤ a → a < slot + page_size → m a ≡ m' a

module _ (m m' : Bytes) (slot : ℕ) (same : Agrees m m' slot) where
  read_u16-Agrees : (a : ℕ) → slot ≤ a → a + 2 ≤ slot + page_size → read_u16 m a ≡ read_u16 m' a
  unfolding Agrees
  read_u16-Agrees a h k = rw (same a h (omega arith), same (a + 1) (omega arith) (omega arith))

  read_u32-Agrees : (a : ℕ) → slot ≤ a → a + 4 ≤ slot + page_size → read_u32 m a ≡ read_u32 m' a
  read_u32-Agrees a h k =
      rw (read_u16-Agrees a h (omega arith), read_u16-Agrees (a + 2) (omega arith) (omega arith))

  crc32_over-Agrees :
      (n a crc : ℕ)
      → slot ≤ a
      → a + n ≤ slot + page_size
      → crc32_over m a n crc ≡ crc32_over m' a n crc
  unfolding crc32_over Agrees
  crc32_over-Agrees zero a crc h k = refl
  crc32_over-Agrees (suc n) a crc h k =
      rw (same a h (omega arith))
        (crc32_over-Agrees n (a + 1) (crc32_update crc (m' a)) (omega arith) (omega arith))

  crc32_flash-Agrees :
      (a n : ℕ) → slot ≤ a → a + n ≤ slot + page_size → crc32_flash m a n ≡ crc32_flash m' a n
  unfolding crc32_flash
  crc32_flash-Agrees a n h k = ap (λ c. bit_xor c 0xFFFFFFFF) (crc32_over-Agrees n a 0xFFFFFFFF h k)

  reserved_ok-Agrees :
      (n a : ℕ) → slot ≤ a → a + 4 * n ≤ slot + page_size → reserved_ok m a n ≡ reserved_ok m' a n
  unfolding reserved_ok
  reserved_ok-Agrees zero a h k = refl
  reserved_ok-Agrees (suc n) a h k =
      rw (
        read_u32-Agrees a h (omega arith),
        reserved_ok-Agrees n (a + 4) (omega arith) (omega arith),
      )

  header_ok-Agrees : (marker : ℕ) → header_ok m slot marker ≡ header_ok m' slot marker
  unfolding header_ok
  header_ok-Agrees marker = rw (
    read_u32-Agrees slot (omega arith) (omega arith),
    read_u32-Agrees (slot + 0x04) (omega arith) (omega arith),
    read_u32-Agrees (slot + 0x08) (omega arith) (omega arith),
    read_u32-Agrees (slot + 0x14) (omega arith) (omega arith),
    read_u32-Agrees (slot + 0x3C) (omega arith) (omega arith),
  )

  config_validate-Agrees :
      config_validate m (slot + offset_payload) ≡ config_validate m' (slot + offset_payload)
  unfolding config_validate Agrees
  config_validate-Agrees =
      let at = slot + offset_payload in
      rw (
        same at (omega arith) (omega arith),
        same (at + 1) (omega arith) (omega arith),
        same (at + 2) (omega arith) (omega arith),
        same (at + 3) (omega arith) (omega arith),
        same (at + 4) (omega arith) (omega arith),
        same (at + 5) (omega arith) (omega arith),
        same (at + 6) (omega arith) (omega arith),
        same (at + 7) (omega arith) (omega arith),
      )

  pub record_at-Agrees : record_at m slot ≡ record_at m' slot
  record_at-Agrees = rw (
    read_u32-Agrees (slot + offset_generation) (omega arith) (omega arith),
    read_u32-Agrees (slot + offset_payload_crc) (omega arith) (omega arith),
  )

  pub validate_record-Agrees :
      (marker : ℕ) → validate_record m slot marker ≡ validate_record m' slot marker
  unfolding validate_record
  validate_record-Agrees marker = rw (
    header_ok-Agrees marker,
    reserved_ok-Agrees 8 (slot + 0x18) (omega arith) (omega arith),
    read_u32-Agrees (slot + offset_generation) (omega arith) (omega arith),
    crc32_flash-Agrees slot 24 (omega arith) (omega arith),
    read_u32-Agrees (slot + offset_header_crc) (omega arith) (omega arith),
    read_u32-Agrees (slot + offset_payload_crc) (omega arith) (omega arith),
    crc32_flash-Agrees (slot + offset_payload) config_bytes (omega arith) (omega arith),
    config_validate-Agrees,
  )

-- A slot whose marker reads erased is not committed.
pub unmarked :
    (m : Bytes) (slot : ℕ)
    → read_u16 m (slot + offset_marker) ≡ 0xFFFF
    → is_committed m slot ≡ false
unfolding validate_record header_ok
unmarked m slot h =
    let at : slot + 0x3C + 2 ≡ slot + offset_marker = omega arith in
    let high : read_u16 m (slot + 0x3C + 2) ≡ 0xFFFF = ap (read_u16 m) at ∙ h in
    let word : read_u32 m (slot + 0x3C) ≢ 0xFFFF + 65536 * commit_marker =
      λ e. absurd (omega arith) in
    ground arith

-- The two slots, in one order or the other.
unfoldable pub IsPair : ℕ → ℕ → Type 0
IsPair keep slot =
    ((keep ≡ slot_a_address) × (slot ≡ slot_b_address))
    ⊎ ((keep ≡ slot_b_address) × (slot ≡ slot_a_address))

-- The record of a slot, if it is committed.
unfoldable pub committed_record : Bytes → ℕ → Option Record
committed_record m slot = if is_committed m slot then some (record_at m slot) else none

-- With one slot not committed, the other is chosen if it is committed.
pub boot_one :
    (m : Bytes) (keep slot : ℕ)
    → IsPair keep slot
    → is_committed m slot ≡ false
    → boot_record m ≡ committed_record m keep
unfolding IsPair boot_record committed_record
boot_one m keep slot (inl (e, f)) h = ground arith
boot_one m keep slot (inr (e, f)) h = ground arith

-- Of two slots the one with the larger generation is chosen, if it is committed.
pub boot_newer :
    (m : Bytes) (keep slot : ℕ)
    → IsPair keep slot
    → is_committed m slot ≡ true
    → (is_committed m keep ≡ true → (record_at m keep).generation < (record_at m slot).generation)
    → boot_record m ≡ some (record_at m slot)
unfolding IsPair boot_record
boot_newer m keep slot (inl (e, f)) h k = ground arith
boot_newer m keep slot (inr (e, f)) h k = ground arith

pub committed_record-Agrees :
    (m m' : Bytes) (slot : ℕ)
    → Agrees m m' slot
    → committed_record m slot ≡ committed_record m' slot
unfolding committed_record
committed_record-Agrees m m' slot h =
    rw (validate_record-Agrees m m' slot h commit_marker, record_at-Agrees m m' slot h)
