-- ===== src/Checksums.antt =====
-- The checksums that shared/node_link/src/deus_node_link.c, src/kernel/binary_frame.c and
-- src/kernel/asset_persistence.c each compute with a routine of their own.
mod Examples
use deus_os_stm.Common.{
  ℕ, zero, suc, ◌+◌, ◌*◌, ◌/◌, ◌%◌, ◌≤◌, ◌<◌, ◌≡◌, refl, sym, ap, ap₂, ◌∙◌, List, [], ◌∷◌, Bool,
  true, false, ◌==◌, if◌then◌else◌, arith, bit_and, bit_xor, bit_xor-mod, bit_xor-zero, u16_mod,
}
use deus_os_stm.NodeLink.Crc as Link
use deus_os_stm.BinaryFrame.Crc as Binary
use deus_os_stm.FlashPersistence.{Bytes}
use deus_os_stm.AssetPersistence.Record as Asset
use deus_os_stm.AssetPersistence.Candidate.{bytes_from}

-- A shift may be cast to 16 bits before the polynomial is added, or after.
shift_agrees : (crc : ℕ) → Link.crc16_round crc ≡ Binary.crc16_shift crc
unfolding Link.crc16_round Binary.crc16_shift
shift_agrees crc = branch (bit_and crc 0x8000 == 0)
  where
    twice : crc * 2 % u16_mod % u16_mod ≡ crc * 2 % u16_mod
    twice = omega arith

    branch :
        (b : Bool)
        → (if b then crc * 2 else bit_xor (crc * 2) 0x1021) % u16_mod
          ≡ (if b then crc * 2 % u16_mod else bit_xor (crc * 2 % u16_mod) 0x1021 % u16_mod)
    branch true = refl
    branch false =
        bit_xor-mod (crc * 2) 0x1021
        ∙ ap (λ x. bit_xor x 0x1021 % u16_mod) (sym twice)
        ∙ sym (bit_xor-mod (crc * 2 % u16_mod) 0x1021)

shifts_agree : (bits crc : ℕ) → Link.crc16_rounds bits crc ≡ Binary.crc16_shifts bits crc
unfolding Link.crc16_rounds Binary.crc16_shifts
shifts_agree zero crc = refl
shifts_agree (suc bits) crc =
    ap (Link.crc16_rounds bits) (shift_agrees crc) ∙ shifts_agree bits (Binary.crc16_shift crc)

byte_agrees : (crc b : ℕ) → Link.crc16_byte crc b ≡ Binary.crc16_update crc b
unfolding Link.crc16_byte Binary.crc16_update
byte_agrees crc b =
    ap (Link.crc16_rounds 8)
      (bit_xor-mod crc (b * 256) ∙ cast ∙ sym (bit_xor-mod crc (b * 256 % u16_mod)))
    ∙ shifts_agree 8 (bit_xor crc (b * 256 % u16_mod) % u16_mod)
  where
    cast :
        bit_xor (crc % u16_mod) (b * 256 % u16_mod) % u16_mod
        ≡ bit_xor (crc % u16_mod) (b * 256 % u16_mod % u16_mod) % u16_mod
    cast = ap (λ x. bit_xor (crc % u16_mod) x % u16_mod) (omega arith)

from_agrees : (bytes : List ℕ) (crc : ℕ) → Link.crc16_from crc bytes ≡ Binary.crc16_over crc bytes
unfolding Link.crc16_from Binary.crc16_over
from_agrees [] crc = refl
from_agrees (b ∷ bytes) crc =
    ap (λ c. Link.crc16_from c bytes) (byte_agrees crc b)
    ∙ from_agrees bytes (Binary.crc16_update crc b)

-- The CRC-16 of the node link and that of the binary frames are the same function of the bytes,
-- though they cast their intermediate values to 16 bits at different places.
pub crc16_agrees : (bytes : List ℕ) → Link.crc16_ccitt_false bytes ≡ Binary.crc16_ccitt_false bytes
unfolding Link.crc16_ccitt_false Binary.crc16_ccitt_false
crc16_agrees bytes = from_agrees bytes 0xffff

-- The polynomial may be masked, or added under a condition.
round_agrees : (crc : ℕ) → Asset.crc32_round crc ≡ Link.crc32_round crc
unfolding Asset.crc32_round Link.crc32_round
round_agrees crc = branch (bit_and crc 1 == 0)
  where
    branch :
        (b : Bool)
        → bit_xor (crc / 2) (if b then 0 else 0xEDB88320)
          ≡ (if b then crc / 2 else bit_xor (crc / 2) 0xedb88320)
    branch true = bit_xor-zero (crc / 2)
    branch false = refl

rounds_agree : (bits crc : ℕ) → Asset.crc32_rounds bits crc ≡ Link.crc32_rounds bits crc
unfolding Asset.crc32_rounds Link.crc32_rounds
rounds_agree zero crc = refl
rounds_agree (suc bits) crc =
    ap (Asset.crc32_rounds bits) (round_agrees crc) ∙ rounds_agree bits (Link.crc32_round crc)

over_agrees :
    (m : Bytes) (n at crc : ℕ)
    → Asset.crc32_over m at n crc ≡ Link.crc32_from crc (bytes_from m at n)
unfolding Asset.crc32_over Asset.crc32_update Link.crc32_from bytes_from
over_agrees m zero at crc = refl
over_agrees m (suc n) at crc =
    ap (Asset.crc32_over m (at + 1) n) (rounds_agree 8 (bit_xor crc (m at)))
    ∙ over_agrees m n (at + 1) (Link.crc32_rounds 8 (bit_xor crc (m at)))

-- The CRC-32 that is computed over a range of the flash is the CRC-32 of the node link, of the bytes
-- that the range holds.
pub crc32_agrees :
    (m : Bytes) (at n : ℕ) → Asset.crc32_flash m at n ≡ Link.crc32_ieee (bytes_from m at n)
unfolding Asset.crc32_flash Link.crc32_ieee
crc32_agrees m at n = ap (λ c. bit_xor c 0xFFFFFFFF) (over_agrees m n at 0xFFFFFFFF)
