-- ===== src/NodeLink/Codec.antt =====
-- `dnl_encode`, `dnl_decode` and `dnl_validate_payload` of deus_node_link.c. The pointers of the
-- source are values here, so its tests for null have no counterpart.
pub mod Laws
pub mod Canonical
use deus_os_stm.Common.{
  ℕ, ◌+◌, ◌-◌, ◌≤◌, Bool, true, false, ◌&&◌, ◌||◌, not, Option, none, some, List, [], ◌∷◌, ◌++◌,
  length, get_or, take, drop, ltb, leb, ◌==◌, ◌!=◌, if◌then◌else◌, ◌%◌, u8_mod,
}
use deus_os_stm.NodeLink.Crc.{crc16_ccitt_false}
use deus_os_stm.NodeLink.Frame.{
  Status, Output, sent, failed, Frame, max_payload, max_frame, frame_overhead, rd16, rd32, wr16,
  wr32,
}
use deus_os_stm.NodeLink.MessageType

-- out[2] up to the checksum.
unfoldable pub body : Frame → List ℕ
body f =
    1 ∷ f.type ∷ 1 ∷ 0 ∷ wr16 f.sequence ++ length f.payload ∷ 0 ∷ wr32 f.session_id ++ f.payload

unfoldable pub wire : Frame → List ℕ
wire f = 0xd5 ∷ 0x4e ∷ body f ++ wr16 (crc16_ccitt_false (body f))

unfoldable pub encode : Frame → ℕ → Output
encode f capacity =
    if f.sequence == 0 || ltb max_payload (length f.payload)
    then failed Status.bad_message
    else if ltb capacity (frame_overhead + length f.payload)
    then failed Status.output_too_small
    else sent (wire f)

-- The tests on the fixed header fields.
unfoldable pub header_ok : List ℕ → Bool
header_ok buf =
    get_or buf 0 0 == 0xd5
    && get_or buf 1 0 == 0x4e
    && get_or buf 2 0 == 1
    && get_or buf 4 0 == 1
    && get_or buf 5 0 == 0
    && get_or buf 9 0 == 0

unfoldable pub length_ok : List ℕ → Bool
length_ok buf =
    leb (get_or buf 8 0) max_payload
    && length buf == get_or buf 8 0 + frame_overhead
    && rd16 (drop 6 buf) != 0

unfoldable pub checksum_ok : List ℕ → Bool
checksum_ok buf =
    rd16 (drop (get_or buf 8 0) (drop 14 buf))
    == crc16_ccitt_false (take (length buf - 4) (drop 2 buf))

unfoldable pub frame_of : List ℕ → Frame
frame_of buf = record {
  type = get_or buf 3 0;
  sequence = rd16 (drop 6 buf);
  session_id = rd32 (drop 10 buf);
  payload = take (get_or buf 8 0) (drop 14 buf);
}

-- `none` is DNL_BAD_FRAME.
unfoldable pub decode : List ℕ → Option Frame
decode buf =
    if ltb (length buf) 16 || ltb max_frame (length buf)
    then none
    else if not (header_ok buf)
    then none
    else if not (length_ok buf)
    then none
    else if not (checksum_ok buf)
    then none
    else some (frame_of buf)

-- `true` is DNL_OK, `false` DNL_BAD_MESSAGE.
unfoldable pub validate_payload : Frame → Bool
validate_payload f =
    if f.type == MessageType.hello
    then length p == 4 && rd32 p != 0
    else if f.type == MessageType.hello_ack
    then length p == 8
      && rd32 p != 0
      && get_or p 4 0 == 1
      && get_or p 5 0 == 3
      && get_or p 6 0 == 16
      && get_or p 7 0 == 2
    else if f.type == MessageType.ping
        || f.type == MessageType.pong
        || f.type == MessageType.get_status
    then length p == 0
    else if f.type == MessageType.job_crc32
    then leb 1 (length p) && leb (get_or p 0 0) 16 && length p == (1 + get_or p 0 0) % u8_mod
    else if f.type == MessageType.job_result
    then length p == 5 && leb (get_or p 0 0) 16
    else if f.type == MessageType.status
    then length p == 4 && leb 1 (get_or p 0 0) && leb (get_or p 0 0) 4 && leb (get_or p 1 0) 5
    else if f.type == MessageType.error
    then length p == 2 && leb 1 (get_or p 0 0) && leb (get_or p 0 0) 5
    else true
  where
    open f use {payload as p}
