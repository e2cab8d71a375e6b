-- ===== src/BinaryFrame/Parser/Bounds.antt =====
-- The arrays, the results and the counters of `binary_frame_parser_feed`.
use deus_os_stm.Common.{
  ℕ, ◌≤◌, ◌<◌, ◌≡◌, refl, Option, none, some, length, length-set, arith, u16_mod,
}
use deus_os_stm.BinaryFrame.Crc.{crc16_update-lt}
use deus_os_stm.BinaryFrame.Parser.{
  ParserState, Parser, increment, FeedResult, View, max_payload, header_size, feed, dispatch,
}

-- The arrays have their sizes, and each state that writes has its index inside.
pub record IsParser (p : Parser) : Type 0 where
  pub header_size_eq : length p.header ≡ header_size
  pub payload_size_eq : length p.payload ≡ max_payload
  pub crc_lt : p.crc < u16_mod
  pub header_in : p.state ≡ ParserState.header → p.header_index < header_size
  pub payload_in :
      p.state ≡ ParserState.payload
      → (p.payload_index < p.payload_length) × (p.payload_length ≤ max_payload)
  pub length_in : (p.state ≡ ParserState.crc0) → p.payload_length ≤ max_payload
  pub length_in' : (p.state ≡ ParserState.crc1) → p.payload_length ≤ max_payload

dispatch-IsParser :
    (s : ParserState) (p : Parser) (byte : ℕ)
    → p.state ≡ s
    → IsParser p
    → IsParser (dispatch s p byte).1
unfolding feed
dispatch-IsParser ParserState.header p byte e v =
    ground (arith, length-set p.header p.header_index byte, crc16_update-lt p.crc byte)
dispatch-IsParser ParserState.payload p byte e v =
    ground (arith, length-set p.payload p.payload_index byte, crc16_update-lt p.crc byte)
dispatch-IsParser _ p byte e v = ground arith

-- For a parser in its invariant and any byte the arrays keep their sizes, the index that the next
-- byte is stored at is within its array, and a payload length beyond the array is never waited
-- for.
pub feed-IsParser : (p : Parser) (byte : ℕ) → IsParser p → IsParser (feed p byte).1
unfolding feed
feed-IsParser p byte v = dispatch-IsParser p.state p byte refl v

-- The counter that a result adds to.
abbrev pub Counted : FeedResult → Parser → Parser → Type 0
Counted FeedResult.frame_ready p q =
    (q.frames_received ≡ increment p.frames_received)
    × (q.sync_errors ≡ p.sync_errors)
    × (q.crc_errors ≡ p.crc_errors)
    × (q.length_errors ≡ p.length_errors)
Counted FeedResult.sync_error_text p q =
    (q.frames_received ≡ p.frames_received)
    × (q.sync_errors ≡ increment p.sync_errors)
    × (q.crc_errors ≡ p.crc_errors)
    × (q.length_errors ≡ p.length_errors)
Counted FeedResult.sync_error_consumed p q =
    (q.frames_received ≡ p.frames_received)
    × (q.sync_errors ≡ increment p.sync_errors)
    × (q.crc_errors ≡ p.crc_errors)
    × (q.length_errors ≡ p.length_errors)
Counted FeedResult.crc_error p q =
    (q.frames_received ≡ p.frames_received)
    × (q.sync_errors ≡ p.sync_errors)
    × (q.crc_errors ≡ increment p.crc_errors)
    × (q.length_errors ≡ p.length_errors)
Counted FeedResult.length_error p q =
    (q.frames_received ≡ p.frames_received)
    × (q.sync_errors ≡ p.sync_errors)
    × (q.crc_errors ≡ p.crc_errors)
    × (q.length_errors ≡ increment p.length_errors)
Counted FeedResult.text p q = q ≡ p
Counted FeedResult.consumed p q =
    (q.frames_received ≡ p.frames_received)
    × (q.sync_errors ≡ p.sync_errors)
    × (q.crc_errors ≡ p.crc_errors)
    × (q.length_errors ≡ p.length_errors)

-- The view that goes with a result.
abbrev pub Viewed : FeedResult → Option View → Type 0
Viewed FeedResult.frame_ready none = ⊥
Viewed FeedResult.frame_ready (some f) = f.payload_length ≤ max_payload
Viewed _ none = Unit
Viewed _ (some f) = ⊥

dispatch-Counted :
    (s : ParserState) (p : Parser) (byte : ℕ)
    → p.state ≡ s
    → IsParser p
    → Counted (dispatch s p byte).0 p (dispatch s p byte).1
      × Viewed (dispatch s p byte).0 (dispatch s p byte).2
unfolding feed
dispatch-Counted ParserState.header p byte e v = ground arith
dispatch-Counted ParserState.crc1 p byte e v = ground arith
dispatch-Counted _ p byte e v = ground arith

-- For a parser in its invariant each result stands for what has happened: text leaves the parser
-- as it was; a frame and each kind of error adds one to its own counter and to no other; and a
-- view, of at most 132 payload bytes, is written exactly with a frame.
pub feed-Counted :
    (p : Parser) (byte : ℕ)
    → IsParser p
    → Counted (feed p byte).0 p (feed p byte).1 × Viewed (feed p byte).0 (feed p byte).2
unfolding feed
feed-Counted p byte v = dispatch-Counted p.state p byte refl v
