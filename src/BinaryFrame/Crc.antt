-- ===== src/BinaryFrame/Crc.antt =====
-- The checksum of src/kernel/binary_frame.c.
use deus_os_stm.Common.{
  ℕ, zero, suc, ◌*◌, ◌%◌, ◌<◌, bit_and, bit_xor, List, [], ◌∷◌, ◌++◌, ◌==◌, if◌then◌else◌, ◌≡◌,
  refl, arith, u16_mod,
}

-- One round of the loop of `binary_frame_crc16_update`: the shift is cast to 16 bits before the
-- polynomial is added.
unfoldable pub crc16_shift : ℕ → ℕ
crc16_shift crc =
    if bit_and crc 0x8000 == 0
    then crc * 2 % u16_mod
    else bit_xor (crc * 2 % u16_mod) 0x1021 % u16_mod

unfoldable pub crc16_shifts : ℕ → ℕ → ℕ
crc16_shifts zero crc = crc
crc16_shifts (suc bit) crc = crc16_shifts bit (crc16_shift crc)

-- `binary_frame_crc16_update`
unfoldable pub crc16_update : ℕ → ℕ → ℕ
crc16_update crc byte = crc16_shifts 8 (bit_xor crc (byte * 256 % u16_mod) % u16_mod)

unfoldable pub crc16_over : ℕ → List ℕ → ℕ
crc16_over crc [] = crc
crc16_over crc (b ∷ bytes) = crc16_over (crc16_update crc b) bytes

-- `binary_frame_crc16_ccitt_false`
unfoldable pub crc16_ccitt_false : List ℕ → ℕ
crc16_ccitt_false bytes = crc16_over 0xffff bytes

check_value :
    crc16_ccitt_false (0x31 ∷ 0x32 ∷ 0x33 ∷ 0x34 ∷ 0x35 ∷ 0x36 ∷ 0x37 ∷ 0x38 ∷ 0x39 ∷ []) ≡ 0x29b1
unfolding crc16_ccitt_false crc16_over crc16_update crc16_shifts crc16_shift
check_value = refl

crc16_shifts-lt : (bit crc : ℕ) → crc < u16_mod → crc16_shifts bit crc < u16_mod
unfolding crc16_shifts
crc16_shifts-lt zero crc h = h
crc16_shifts-lt (suc bit) crc h = crc16_shifts-lt bit (crc16_shift crc) (shift-lt crc)
  where
    shift-lt : (crc : ℕ) → crc16_shift crc < u16_mod
    shift-lt crc = unfold crc16_shift in ground arith

pub crc16_update-lt : (crc b : ℕ) → crc16_update crc b < u16_mod
unfolding crc16_update
crc16_update-lt crc b = crc16_shifts-lt 8 (bit_xor crc (b * 256 % u16_mod) % u16_mod) (omega arith)

pub crc16_over-lt : (crc : ℕ) (bytes : List ℕ) → crc < u16_mod → crc16_over crc bytes < u16_mod
unfolding crc16_over
crc16_over-lt crc [] h = h
crc16_over-lt crc (b ∷ bytes) h = crc16_over-lt (crc16_update crc b) bytes (crc16_update-lt crc b)

pub crc16_over-append :
    (crc : ℕ) (xs ys : List ℕ) → crc16_over crc (xs ++ ys) ≡ crc16_over (crc16_over crc xs) ys
unfolding crc16_over
crc16_over-append crc [] ys = refl
crc16_over-append crc (x ∷ xs) ys = crc16_over-append (crc16_update crc x) xs ys

-- A parser updates its checksum byte by byte.
pub crc16_over-cons :
    (crc b : ℕ) (bytes : List ℕ)
    → crc16_over crc (b ∷ bytes) ≡ crc16_over (crc16_update crc b) bytes
unfolding crc16_over
crc16_over-cons crc b bytes = refl

pub crc16_over-nil : (crc : ℕ) → crc16_over crc [] ≡ crc
unfolding crc16_over
crc16_over-nil crc = refl

pub crc16_whole : (bytes : List ℕ) → crc16_ccitt_false bytes ≡ crc16_over 0xffff bytes
unfolding crc16_ccitt_false
crc16_whole bytes = refl
