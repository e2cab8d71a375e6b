-- ===== src/NodeLink/Codec/Laws.antt =====
-- The bytes of `dnl_encode` as input of `dnl_decode`.
use deus_os_stm.Common.{
  ℕ, ◌+◌, ◌-◌, ◌≤◌, ◌<◌, true, some, List, [], ◌++◌, length, get_or, take, drop, ◌≡◌, refl, arith,
  length-append, take-append, drop-append, u16_mod, eq→==, ◌∙◌, sym, ap,
}
use deus_os_stm.NodeLink.Crc.{crc16_ccitt_false, crc16_ccitt_false-lt}
use deus_os_stm.NodeLink.Frame.{sent, Frame, IsFrame, frame_overhead, rd16, wr16}
use deus_os_stm.NodeLink.Codec.{
  body, wire, encode, decode, header_ok, length_ok, checksum_ok, frame_of,
}

pub rd16-wr16 : (n : ℕ) (rest : List ℕ) → n < u16_mod → rd16 (wr16 n ++ rest) ≡ n
rd16-wr16 n rest h = omega arith

pub length-body : (f : Frame) → length (body f) ≡ 12 + length f.payload
unfolding body
length-body f = omega arith

pub length-wire : (f : Frame) → length (wire f) ≡ frame_overhead + length f.payload
unfolding wire
length-wire f =
    omega (arith, length-body f, length-append (body f) (wr16 (crc16_ccitt_false (body f))))

pub header_ok-wire : (f : Frame) → header_ok (wire f) ≡ true
unfolding header_ok wire body
header_ok-wire f = refl

pub length_ok-wire : (f : Frame) → IsFrame f → length_ok (wire f) ≡ true
unfolding length_ok
length_ok-wire f v = ground (arith, length-wire f, rd16_sequence, length_byte)
  where
    length_byte : get_or (wire f) 8 0 ≡ length f.payload
    length_byte = unfold wire body in refl

    rd16_sequence : rd16 (drop 6 (wire f)) ≡ f.sequence
    rd16_sequence = unfold wire body in omega arith

pub checksum_ok-wire : (f : Frame) → IsFrame f → checksum_ok (wire f) ≡ true
unfolding checksum_ok
checksum_ok-wire f v = eq→== _ _ (stored ∙ sym (ap crc16_ccitt_false covered))
  where
    covered : take (length (wire f) - 4) (drop 2 (wire f)) ≡ body f
    covered =
        unfold wire in
        take-append (body f) (wr16 (crc16_ccitt_false (body f)))
          (omega (arith, length-wire f, length-body f))

    stored : rd16 (drop (get_or (wire f) 8 0) (drop 14 (wire f))) ≡ crc16_ccitt_false (body f)
    stored =
        unfold wire body in
        ap rd16 (drop-append f.payload (wr16 (crc16_ccitt_false (body f))) refl)
        ∙ rd16-wr16 (crc16_ccitt_false (body f)) [] (crc16_ccitt_false-lt (body f))

pub frame_of-wire : (f : Frame) → IsFrame f → frame_of (wire f) ≡ f
unfolding frame_of wire body
frame_of-wire f v =
    ground
      (arith, take-append f.payload (wr16 (crc16_ccitt_false (body f))) {n = length f.payload} refl)

-- A frame within the ranges of its types is encoded whenever the buffer holds its encoding, and
-- decoding the bytes gives the frame back.
pub decode-encode :
    (f : Frame) (capacity : ℕ)
    → IsFrame f
    → frame_overhead + length f.payload ≤ capacity
    → (encode f capacity ≡ sent (wire f)) × (decode (wire f) ≡ some f)
unfolding encode decode
decode-encode f capacity v h = (
  ground arith,
  ground (
    arith,
    length-wire f,
    header_ok-wire f,
    length_ok-wire f v,
    checksum_ok-wire f v,
    frame_of-wire f v,
  ),
)

-- What is sent is the encoding, and it fits.
pub encode-sent :
    (f : Frame) (capacity : ℕ) (out : List ℕ)
    → encode f capacity ≡ sent out
    → (out ≡ wire f) × (length out ≤ capacity) × (0 < length out)
unfolding encode
encode-sent f capacity out e = ground (arith, length-wire f)
