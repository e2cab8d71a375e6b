-- ===== src/BinaryFrame/RoundTrip/Header.antt =====
-- The header of a frame goes into the array and the checksum of the parser.
use deus_os_stm.Common.{
  ℕ, ◌+◌, ◌≤◌, ◌<◌, ◌≡◌, refl, sym, ap, ◌∙◌, none, List, [], ◌∷◌, ◌++◌, length, take, length-set,
  append_assoc, append-nil, arith,
}
use deus_os_stm.BinaryFrame.Crc.{crc16_over, crc16_over-cons, crc16_over-nil}
use deus_os_stm.BinaryFrame.Parser.{
  Parser, ParserState, FeedResult, header_size, feed, header_stored, end_header,
}
use deus_os_stm.BinaryFrame.RoundTrip.Steps.{Consumes, Consumes-step, take-set_next}

-- The parser after it has stored header bytes that do not end the header.
pub header_all : Parser → List ℕ → Parser
header_all p [] = p
header_all p (b ∷ bytes) = header_all (header_stored p b) bytes

feed_more :
    (p : Parser) (b : ℕ)
    → p.state ≡ ParserState.header
    → p.header_index + 1 < header_size
    → feed p b ≡ (FeedResult.consumed, header_stored p b, none)
unfolding feed
feed_more p b s h = ground arith

pub header-Consumes :
    (p : Parser) (bytes : List ℕ)
    → p.state ≡ ParserState.header
    → p.header_index + length bytes < header_size
    → Consumes p bytes (header_all p bytes)
unfolding header_all
header-Consumes p [] s h = refl
header-Consumes p (b ∷ bytes) s h =
    Consumes-step p b bytes (header_stored p b) _ (feed_more p b s (omega arith))
      (header-Consumes (header_stored p b) bytes s (omega arith))

-- What storing header bytes changes, and what it leaves.
pub record IsHeaded (p : Parser) (done bytes : List ℕ) (q : Parser) : Type 0 where
  pub received : take (p.header_index + length bytes) q.header ≡ done ++ bytes
  pub index : q.header_index ≡ p.header_index + length bytes
  pub width : length q.header ≡ length p.header
  pub state : q.state ≡ p.state
  pub checksum : q.crc ≡ crc16_over p.crc bytes
  pub payload : q.payload ≡ p.payload
  pub frames : q.frames_received ≡ p.frames_received
  pub syncs : q.sync_errors ≡ p.sync_errors
  pub crcs : q.crc_errors ≡ p.crc_errors
  pub lengths : q.length_errors ≡ p.length_errors

IsHeaded-first :
    (p : Parser) (done : List ℕ) (b : ℕ) (bytes : List ℕ) {q : Parser}
    → IsHeaded (header_stored p b) (done ++ b ∷ []) bytes q
    → IsHeaded p done (b ∷ bytes) q
IsHeaded-first p done b bytes {q} ih = record {
  received =
      ap (λ n. take n q.header) (omega arith) ∙ ih.received ∙ append_assoc done (b ∷ []) bytes;
  index = omega (arith, ih.index);
  width = ih.width ∙ length-set p.header p.header_index b;
  state = ih.state;
  checksum = ih.checksum ∙ sym (crc16_over-cons p.crc b bytes);
  payload = ih.payload;
  frames = ih.frames;
  syncs = ih.syncs;
  crcs = ih.crcs;
  lengths = ih.lengths;
}

pub header_all-IsHeaded :
    (p : Parser) (done bytes : List ℕ)
    → take p.header_index p.header ≡ done
    → p.header_index + length bytes ≤ length p.header
    → IsHeaded p done bytes (header_all p bytes)
unfolding header_all
header_all-IsHeaded p done [] e h = record {
  received = ap (λ n. take n p.header) (omega arith) ∙ e ∙ sym (append-nil done);
  index = omega arith;
  width = refl;
  state = refl;
  checksum = sym (crc16_over-nil p.crc);
  payload = refl;
  frames = refl;
  syncs = refl;
  crcs = refl;
  lengths = refl;
}
header_all-IsHeaded p done (b ∷ bytes) e h = IsHeaded-first p done b bytes (
    header_all-IsHeaded (header_stored p b) (done ++ b ∷ []) bytes
      (take-set_next p.header done p.header_index b (omega arith) e)
      (omega (arith, length-set p.header p.header_index b)))

-- The eighth byte.
pub feed_eighth :
    (p : Parser) (b : ℕ)
    → p.state ≡ ParserState.header
    → p.header_index ≡ 7
    → feed p b ≡ end_header (header_stored p b)
unfolding feed
feed_eighth p b s h = ground arith

pub header_all-snoc :
    (p : Parser) (bytes : List ℕ) (b : ℕ)
    → header_all p (bytes ++ b ∷ []) ≡ header_stored (header_all p bytes) b
unfolding header_all
header_all-snoc p [] b = refl
header_all-snoc p (c ∷ bytes) b = header_all-snoc (header_stored p c) bytes b
