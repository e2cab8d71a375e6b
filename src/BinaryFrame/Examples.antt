-- ===== src/BinaryFrame/Examples.antt =====
-- A frame of the type 3 with the payload 65, 66 and the request number 9.
use deus_os_stm.Common.{
  ℕ, length, ap, sym, ◌≡◌, refl, List, [], ◌∷◌, ◌++◌, drop, replicate, arith, inl, some,
  length-replicate,
}
use deus_os_stm.BinaryFrame.Parser.{Parser, ParserState, View, feed, max_payload}
use deus_os_stm.BinaryFrame.Parser.Bounds.{IsParser, feed-IsParser, Counted, Viewed, feed-Counted}
use deus_os_stm.BinaryFrame.Encoder.{encode, pointed}
use deus_os_stm.BinaryFrame.Encoder.Layout.{encode_lem, IsWithin, encode-IsWithin, frame_bytes}
use deus_os_stm.BinaryFrame.RoundTrip.Delivery.{Delivers, IsViewOf, IsAfter, frame-Delivers}

abbrev payload : List ℕ
payload = 65 ∷ 66 ∷ []

abbrev buffer : List ℕ
buffer = replicate 16 0

abbrev parser : Parser
parser = record {
  state = ParserState.idle;
  header = replicate 8 0;
  payload = replicate max_payload 0;
  header_index = 0;
  payload_index = 0;
  payload_length = 0;
  crc = 0xffff;
  received_crc_low = 0;
  frames_received = 0;
  sync_errors = 0;
  crc_errors = 0;
  length_errors = 0;
}

parser-IsParser : IsParser parser
parser-IsParser = record {
  header_size_eq = refl;
  payload_size_eq = length-replicate {A = ℕ} max_payload 0;
  crc_lt = omega arith;
  header_in = λ e. cc;
  payload_in = λ e. cc;
  length_in = λ e. cc;
  length_in' = λ e. cc;
}

encode_lem_example :
    encode 3 0 9 (some payload) 2 buffer 16 ≡ (14, frame_bytes 3 0 9 payload ++ drop 14 buffer)
encode_lem_example = encode_lem 3 0 9 16 payload buffer (omega arith) (omega arith) (omega arith)

-- The payload is all that the call may point to.
whole : (bytes : List ℕ) → some payload ≡ some bytes → length bytes ≡ 2
whole bytes e = ap (λ o. length (pointed o)) (sym e)

encode-IsWithin_example : IsWithin 16 buffer (encode 3 0 9 (some payload) 2 buffer 16)
encode-IsWithin_example = encode-IsWithin 3 0 9 2 16 (some payload) buffer whole (omega arith)

feed-IsParser_example : IsParser (feed parser 0xa5).1
feed-IsParser_example = feed-IsParser parser 0xa5 parser-IsParser

feed-Counted_example :
    Counted (feed parser 0xa5).0 parser (feed parser 0xa5).1
    × Viewed (feed parser 0xa5).0 (feed parser 0xa5).2
feed-Counted_example = feed-Counted parser 0xa5 parser-IsParser

frame-Delivers_example :
    (f : View) × (q : Parser) × Delivers parser (frame_bytes 3 0 9 payload) f q
    × IsViewOf 3 0 9 payload f
    × IsAfter parser q
frame-Delivers_example =
    frame-Delivers parser 3 0 9 payload parser-IsParser (inl refl) (omega arith) (omega arith)
