-- ===== src/BinaryFrame/Encoder.antt =====
-- `binary_frame_encode` and `binary_frame_finalize_in_place` of src/kernel/binary_frame.c. The wire
-- buffer is a list; the functions return the wire length and the buffer that they leave.
pub mod Layout
use deus_os_stm.Common.{
  ℕ, Bool, true, false, ◌+◌, ◌-◌, ◌*◌, ◌/◌, ◌%◌, ◌≤◌, ◌<◌, ◌≡◌, refl, sym, ap, ◌∙◌, Option, none,
  some, List, [], ◌∷◌, ◌++◌, length, take, drop, ltb, ◌==◌, ◌!=◌, ◌&&◌, ◌||◌, if◌then◌else◌,
  length-append, length-take, length-drop, take-append, drop-append, append_assoc, arith, min,
  drop-drop, take-append-drop,
}
use deus_os_stm.BinaryFrame.Crc.{crc16_ccitt_false}
use deus_os_stm.BinaryFrame.Parser.{magic0, magic1_byte, max_payload}

abbrev pub protocol_version : ℕ
protocol_version = 1

abbrev pub fixed_prefix_bytes : ℕ
fixed_prefix_bytes = 10

abbrev pub crc_bytes : ℕ
crc_bytes = 2

-- `for (...) buffer[at + index] = bytes[index]`, within the buffer.
unfoldable pub write : List ℕ → ℕ → List ℕ → List ℕ
write buffer at bytes = take at buffer ++ (bytes ++ drop (at + length bytes) buffer)

-- wire[2] to wire[9]
abbrev pub header_bytes : ℕ → ℕ → ℕ → ℕ → List ℕ
header_bytes frame_type flags request_id payload_length =
    protocol_version
    ∷ frame_type
    ∷ flags
    ∷ 0
    ∷ request_id % 256
    ∷ request_id / 256 % 256
    ∷ payload_length % 256
    ∷ payload_length / 256 % 256
    ∷ []

abbrev pub low_high : ℕ → List ℕ
low_high crc = crc % 256 ∷ crc / 256 % 256 ∷ []

-- The bytes that the checksum covers, as they stand in the buffer.
abbrev pub covered : List ℕ → ℕ → List ℕ
covered wire payload_length = take (8 + payload_length) (drop 2 wire)

unfoldable pub finalize_in_place : ℕ → ℕ → ℕ → ℕ → List ℕ → ℕ × List ℕ
finalize_in_place frame_type flags request_id payload_length wire =
    let headed =
      write wire 0
        (magic0 ∷ magic1_byte ∷ header_bytes frame_type flags request_id payload_length) in
    (
      fixed_prefix_bytes + payload_length + crc_bytes,
      write headed (fixed_prefix_bytes + payload_length)
          (low_high (crc16_ccitt_false (covered headed payload_length))),
    )

abbrev pub is_null : Option (List ℕ) → Bool
is_null none = true
is_null (some _) = false

abbrev pub pointed : Option (List ℕ) → List ℕ
pointed none = []
pointed (some bytes) = bytes

-- The payload pointer may be null; `wire` is not.
unfoldable pub encode : ℕ → ℕ → ℕ → Option (List ℕ) → ℕ → List ℕ → ℕ → ℕ × List ℕ
encode frame_type flags request_id payload payload_length wire wire_capacity =
    if (is_null payload && payload_length != 0) || ltb max_payload payload_length
    then (0, wire)
    else if ltb wire_capacity (fixed_prefix_bytes + payload_length + crc_bytes)
    then (0, wire)
    else finalize_in_place frame_type flags request_id payload_length
        (write wire fixed_prefix_bytes (take payload_length (pointed payload)))
