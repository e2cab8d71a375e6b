-- ===== src/BinaryFrame/Parser.antt =====
-- The frame parser of src/kernel/binary_frame.c. The parser is a value: `binary_frame_parser_feed`
-- returns the new one, and the view where it writes `*frame`.
pub mod Bounds
use deus_os_stm.Common.{
  ℕ, ◌+◌, ◌*◌, ◌%◌, Option, none, some, List, [], ◌∷◌, get_or, set, replicate, ltb, ◌==◌, ◌!=◌,
  if◌then◌else◌, u8_mod, u16_mod, u32_mod,
}
use deus_os_stm.BinaryFrame.Crc.{crc16_update}

abbrev pub magic0 : ℕ
magic0 = 0xA5

abbrev pub magic1_byte : ℕ
magic1_byte = 0x5A

abbrev pub max_payload : ℕ
max_payload = 132

abbrev pub header_size : ℕ
header_size = 8

-- The BINARY_FRAME_PARSER_* values; no other value is ever stored in `state`.
pub data ParserState : Type 0 where
  idle magic1 header payload crc0 crc1 resync resync_magic1 : ParserState

-- `binary_frame_feed_result_t`
pub data FeedResult : Type 0 where
  text consumed frame_ready sync_error_text sync_error_consumed crc_error length_error : FeedResult

-- `binary_frame_view_t`; `payload` is the parser's array, of which `payload_length` bytes count.
pub record View : Type 0 where
  pub version : ℕ
  pub frame_type : ℕ
  pub flags : ℕ
  pub reserved : ℕ
  pub request_id : ℕ
  pub payload_length : ℕ
  pub payload : List ℕ

-- `binary_frame_parser_t`
pub record Parser : Type 0 where
  pub state : ParserState
  pub header : List ℕ
  pub payload : List ℕ
  pub header_index : ℕ
  pub payload_index : ℕ
  pub payload_length : ℕ
  pub crc : ℕ
  pub received_crc_low : ℕ
  pub frames_received : ℕ
  pub sync_errors : ℕ
  pub crc_errors : ℕ
  pub length_errors : ℕ

-- `++counter` on a `uint32_t`
abbrev pub increment : ℕ → ℕ
increment n = (n + 1) % u32_mod

-- `binary_frame_parser_reset`
unfoldable pub reset : Parser → Parser
reset p = record p {
  state = ParserState.idle;
  header_index = 0;
  payload_index = 0;
  payload_length = 0;
  crc = 0xffff;
  received_crc_low = 0;
}

-- `binary_frame_parser_init`
unfoldable pub init : Parser → Parser
unfolding reset
init p =
    reset (record p { frames_received = 0; sync_errors = 0; crc_errors = 0; length_errors = 0 })

abbrev pub Fed : Type 0
Fed = FeedResult × Parser × Option View

abbrev pub gives : FeedResult → Parser → Fed
gives r p = (r, p, none)

-- The start of a header, after the second magic byte.
unfoldable pub begin_header : Parser → Parser
begin_header p = record p {
  state = ParserState.header;
  header_index = 0;
  payload_index = 0;
  payload_length = 0;
  crc = 0xffff;
}

unfoldable pub feed_idle : Parser → ℕ → Fed
feed_idle p byte =
    if byte == magic0
    then gives FeedResult.consumed (record p { state = ParserState.magic1 })
    else gives FeedResult.text p

unfoldable pub feed_magic1 : Parser → ℕ → Fed
unfolding begin_header reset
feed_magic1 p byte =
    if byte == magic1_byte
    then gives FeedResult.consumed (begin_header p)
    else if byte == magic0
    then gives FeedResult.sync_error_consumed
        (record p { sync_errors = increment p.sync_errors; state = ParserState.magic1 })
    else gives FeedResult.sync_error_text
        (reset (record p { sync_errors = increment p.sync_errors }))

-- The eighth header byte is stored: the length decides how to go on.
unfoldable pub end_header : Parser → Fed
end_header p =
    let size = get_or p.header 6 0 + get_or p.header 7 0 * 256 in
    if ltb max_payload size
    then gives FeedResult.length_error (record p {
      payload_length = size;
      length_errors = increment p.length_errors;
      state = ParserState.resync;
    })
    else if size == 0
    then gives FeedResult.consumed (record p { payload_length = size; state = ParserState.crc0 })
    else gives FeedResult.consumed
        (record p { payload_length = size; payload_index = 0; state = ParserState.payload })

abbrev pub header_stored : Parser → ℕ → Parser
header_stored p byte = record p {
  header = set p.header p.header_index byte;
  crc = crc16_update p.crc byte;
  header_index = p.header_index + 1;
}

unfoldable pub feed_header : Parser → ℕ → Fed
unfolding end_header
feed_header p byte =
    if p.header_index + 1 == header_size
    then end_header (header_stored p byte)
    else gives FeedResult.consumed (header_stored p byte)

abbrev pub payload_stored : Parser → ℕ → Parser
payload_stored p byte = record p {
  payload = set p.payload p.payload_index byte;
  crc = crc16_update p.crc byte;
  payload_index = p.payload_index + 1;
}

unfoldable pub feed_payload : Parser → ℕ → Fed
feed_payload p byte =
    if p.payload_index + 1 == p.payload_length
    then gives FeedResult.consumed (record (payload_stored p byte) { state = ParserState.crc0 })
    else gives FeedResult.consumed (payload_stored p byte)

unfoldable pub feed_crc0 : Parser → ℕ → Fed
feed_crc0 p byte =
    gives FeedResult.consumed (record p { received_crc_low = byte; state = ParserState.crc1 })

unfoldable pub view_of : Parser → View
view_of p = record {
  version = get_or p.header 0 0;
  frame_type = get_or p.header 1 0;
  flags = get_or p.header 2 0;
  reserved = get_or p.header 3 0;
  request_id = get_or p.header 4 0 + get_or p.header 5 0 * 256;
  payload_length = p.payload_length % u16_mod;
  payload = p.payload;
}

unfoldable pub feed_crc1 : Parser → ℕ → Fed
unfolding reset view_of
feed_crc1 p byte =
    if p.received_crc_low + byte * 256 != p.crc
    then gives FeedResult.crc_error (reset (record p { crc_errors = increment p.crc_errors }))
    else (
      FeedResult.frame_ready,
      reset (record p { frames_received = increment p.frames_received }),
      some (view_of p),
    )

unfoldable pub feed_resync : Parser → ℕ → Fed
feed_resync p byte =
    if byte == magic0
    then gives FeedResult.consumed (record p { state = ParserState.resync_magic1 })
    else gives FeedResult.consumed p

unfoldable pub feed_resync_magic1 : Parser → ℕ → Fed
unfolding begin_header
feed_resync_magic1 p byte =
    if byte == magic1_byte
    then gives FeedResult.consumed (begin_header p)
    else if byte != magic0
    then gives FeedResult.consumed (record p { state = ParserState.resync })
    else gives FeedResult.consumed p

unfoldable pub dispatch : ParserState → Parser → ℕ → Fed
dispatch ParserState.idle p byte = feed_idle p byte
dispatch ParserState.magic1 p byte = feed_magic1 p byte
dispatch ParserState.header p byte = feed_header p byte
dispatch ParserState.payload p byte = feed_payload p byte
dispatch ParserState.crc0 p byte = feed_crc0 p byte
dispatch ParserState.crc1 p byte = feed_crc1 p byte
dispatch ParserState.resync p byte = feed_resync p byte
dispatch ParserState.resync_magic1 p byte = feed_resync_magic1 p byte

-- `binary_frame_parser_feed`
unfoldable pub feed : Parser → ℕ → Fed
unfolding dispatch feed_idle feed_magic1 feed_header feed_payload feed_crc0 feed_crc1 feed_resync
    feed_resync_magic1
feed p byte = dispatch p.state p byte
