-- ===== src/NodeLink/Stream/Examples.antt =====
-- A stream that gets a ping, one byte each millisecond.
use deus_os_stm.Common.{ℕ, ◌≡◌, refl, List, [], ◌∷◌, arith, inl}
use deus_os_stm.NodeLink.Crc.{crc16_round, crc16_rounds, crc16_byte, crc16_from, crc16_ccitt_false}
use deus_os_stm.NodeLink.Frame.{Frame, IsFrame}
use deus_os_stm.NodeLink.Codec.{body, wire}
use deus_os_stm.NodeLink.Stream.{init, feed}
use deus_os_stm.NodeLink.Stream.Bounds.{IsStream, feed-IsStream}
use deus_os_stm.NodeLink.Stream.Reception.{feed_all, bytes_of, feed_all-wire}

abbrev ping : Frame
ping = record { type = 2; sequence = 2; session_id = 7; payload = [] }

ping-IsFrame : IsFrame ping
ping-IsFrame = record {
  type_lt = omega arith;
  sequence_pos = omega arith;
  sequence_lt = omega arith;
  session_lt = omega arith;
  payload_le = omega arith;
  payload_bytes = tt;
}

init-IsStream : IsStream init
init-IsStream = record { room = omega arith; clocked = refl }

feed-IsStream_example : IsStream (feed init 213 100).1
feed-IsStream_example = feed-IsStream init 213 100 init-IsStream

-- The bytes of the ping that follow the first, with their times.
abbrev timed : List (ℕ × ℕ)
timed =
    (78, 101)
    ∷ (1, 102)
    ∷ (2, 103)
    ∷ (1, 104)
    ∷ (0, 105)
    ∷ (2, 106)
    ∷ (0, 107)
    ∷ (0, 108)
    ∷ (0, 109)
    ∷ (7, 110)
    ∷ (0, 111)
    ∷ (0, 112)
    ∷ (0, 113)
    ∷ (241, 114)
    ∷ (150, 115)
    ∷ []

timed-wire : 213 ∷ bytes_of timed ≡ wire ping
unfolding wire body crc16_ccitt_false crc16_from crc16_byte crc16_rounds crc16_round
timed-wire = refl

feed_all-wire_example : feed_all init ((213, 100) ∷ timed) ≡ (ping ∷ [], init)
feed_all-wire_example =
    feed_all-wire ping init 213 100 timed ping-IsFrame (inl (refl, refl)) timed-wire (ground arith)
