-- ===== src/NodeLink/Crc.antt =====
-- The checksums of shared/node_link/src/deus_node_link.c.
use deus_os_stm.Common.{
  ℕ, zero, suc, ◌*◌, ◌/◌, ◌%◌, ◌<◌, bit_and, bit_xor, List, [], ◌∷◌, ◌==◌, if◌then◌else◌, ◌≡◌, refl,
  arith, u16_mod,
}

-- One round of the inner loop of `dnl_crc16_ccitt_false`: the shift is made in 32 bits, and the
-- result is cast to 16.
unfoldable pub crc16_round : ℕ → ℕ
crc16_round crc = (if bit_and crc 0x8000 == 0 then crc * 2 else bit_xor (crc * 2) 0x1021) % u16_mod

unfoldable pub crc16_rounds : ℕ → ℕ → ℕ
crc16_rounds zero crc = crc
crc16_rounds (suc j) crc = crc16_rounds j (crc16_round crc)

unfoldable pub crc16_byte : ℕ → ℕ → ℕ
crc16_byte crc byte = crc16_rounds 8 (bit_xor crc (byte * 256) % u16_mod)

unfoldable pub crc16_from : ℕ → List ℕ → ℕ
crc16_from crc [] = crc
crc16_from crc (b ∷ bytes) = crc16_from (crc16_byte crc b) bytes

unfoldable pub crc16_ccitt_false : List ℕ → ℕ
crc16_ccitt_false bytes = crc16_from 0xffff bytes

unfoldable pub crc32_round : ℕ → ℕ
crc32_round crc = if bit_and crc 1 == 0 then crc / 2 else bit_xor (crc / 2) 0xedb88320

unfoldable pub crc32_rounds : ℕ → ℕ → ℕ
crc32_rounds zero crc = crc
crc32_rounds (suc j) crc = crc32_rounds j (crc32_round crc)

unfoldable pub crc32_from : ℕ → List ℕ → ℕ
crc32_from crc [] = crc
crc32_from crc (b ∷ bytes) = crc32_from (crc32_rounds 8 (bit_xor crc b)) bytes

unfoldable pub crc32_ieee : List ℕ → ℕ
crc32_ieee bytes = bit_xor (crc32_from 0xffffffff bytes) 0xffffffff

crc16_check :
    crc16_ccitt_false (0x31 ∷ 0x32 ∷ 0x33 ∷ 0x34 ∷ 0x35 ∷ 0x36 ∷ 0x37 ∷ 0x38 ∷ 0x39 ∷ []) ≡ 0x29b1
unfolding crc16_ccitt_false crc16_from crc16_byte crc16_rounds crc16_round
crc16_check = refl

crc32_check :
    crc32_ieee (0x31 ∷ 0x32 ∷ 0x33 ∷ 0x34 ∷ 0x35 ∷ 0x36 ∷ 0x37 ∷ 0x38 ∷ 0x39 ∷ []) ≡ 0xcbf43926
unfolding crc32_ieee crc32_from crc32_rounds crc32_round
crc32_check = refl

crc16_rounds-lt : (j crc : ℕ) → crc < u16_mod → crc16_rounds j crc < u16_mod
unfolding crc16_rounds
crc16_rounds-lt zero crc h = h
crc16_rounds-lt (suc j) crc h = crc16_rounds-lt j (crc16_round crc) step
  where
    step : crc16_round crc < u16_mod
    step = unfold crc16_round in omega arith

crc16_byte-lt : (crc b : ℕ) → crc16_byte crc b < u16_mod
unfolding crc16_byte
crc16_byte-lt crc b = crc16_rounds-lt 8 (bit_xor crc (b * 256) % u16_mod) (omega arith)

crc16_from-lt : (crc : ℕ) (bytes : List ℕ) → crc < u16_mod → crc16_from crc bytes < u16_mod
unfolding crc16_from
crc16_from-lt crc [] h = h
crc16_from-lt crc (b ∷ bytes) h = crc16_from-lt (crc16_byte crc b) bytes (crc16_byte-lt crc b)

-- A checksum fits in 16 bits.
pub crc16_ccitt_false-lt : (bytes : List ℕ) → crc16_ccitt_false bytes < u16_mod
unfolding crc16_ccitt_false
crc16_ccitt_false-lt bytes = crc16_from-lt 0xffff bytes (omega arith)
