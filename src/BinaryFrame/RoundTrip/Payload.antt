-- ===== src/BinaryFrame/RoundTrip/Payload.antt =====
-- The payload of a frame goes into the array and the checksum of the parser.
use deus_os_stm.Common.{
  ℕ, suc, ◌+◌, ◌≤◌, ◌≡◌, ◌≢◌, refl, sym, ap, ◌∙◌, none, List, [], ◌∷◌, ◌++◌, length, take,
  length-set, append_assoc, append-nil, arith,
}
use deus_os_stm.BinaryFrame.Crc.{crc16_over, crc16_over-cons, crc16_over-nil}
use deus_os_stm.BinaryFrame.Parser.{Parser, ParserState, FeedResult, feed, payload_stored}
use deus_os_stm.BinaryFrame.RoundTrip.Steps.{Consumes, Consumes-step, take-set_next}

-- The parser after it has stored payload bytes.
pub stored_all : Parser → List ℕ → Parser
stored_all p [] = p
stored_all p (b ∷ bytes) = stored_all (payload_stored p b) bytes

feed_more :
    (p : Parser) (b : ℕ)
    → p.state ≡ ParserState.payload
    → p.payload_index + 1 ≢ p.payload_length
    → feed p b ≡ (FeedResult.consumed, payload_stored p b, none)
unfolding feed
feed_more p b s h = ground arith

feed_last :
    (p : Parser) (b : ℕ)
    → p.state ≡ ParserState.payload
    → p.payload_index + 1 ≡ p.payload_length
    → feed p b
      ≡ (FeedResult.consumed, record (payload_stored p b) { state = ParserState.crc0 }, none)
unfolding feed
feed_last p b s h = ground arith

pub payload-Consumes :
    (p : Parser) (b : ℕ) (rest : List ℕ)
    → p.state ≡ ParserState.payload
    → p.payload_index + suc (length rest) ≡ p.payload_length
    → Consumes p (b ∷ rest) (record (stored_all p (b ∷ rest)) { state = ParserState.crc0 })
unfolding stored_all
payload-Consumes p b [] s h = Consumes-step p b [] _ _ (feed_last p b s (omega arith)) refl
payload-Consumes p b (c ∷ rest) s h =
    Consumes-step p b (c ∷ rest) (payload_stored p b) _ (feed_more p b s (omega arith))
      (payload-Consumes (payload_stored p b) c rest s (omega arith))

-- What storing changes, and what it leaves.
pub record IsStored (p : Parser) (done bytes : List ℕ) (q : Parser) : Type 0 where
  pub received : take (p.payload_index + length bytes) q.payload ≡ done ++ bytes
  pub checksum : q.crc ≡ crc16_over p.crc bytes
  pub header : q.header ≡ p.header
  pub size : q.payload_length ≡ p.payload_length
  pub frames : q.frames_received ≡ p.frames_received
  pub syncs : q.sync_errors ≡ p.sync_errors
  pub crcs : q.crc_errors ≡ p.crc_errors
  pub lengths : q.length_errors ≡ p.length_errors

IsStored-first :
    (p : Parser) (done : List ℕ) (b : ℕ) (bytes : List ℕ) {q : Parser}
    → IsStored (payload_stored p b) (done ++ b ∷ []) bytes q
    → IsStored p done (b ∷ bytes) q
IsStored-first p done b bytes {q} ih = record {
  received =
      ap (λ n. take n q.payload) (omega arith) ∙ ih.received ∙ append_assoc done (b ∷ []) bytes;
  checksum = ih.checksum ∙ sym (crc16_over-cons p.crc b bytes);
  header = ih.header;
  size = ih.size;
  frames = ih.frames;
  syncs = ih.syncs;
  crcs = ih.crcs;
  lengths = ih.lengths;
}

pub stored_all-IsStored :
    (p : Parser) (done bytes : List ℕ)
    → take p.payload_index p.payload ≡ done
    → p.payload_index + length bytes ≤ length p.payload
    → IsStored p done bytes (stored_all p bytes)
unfolding stored_all
stored_all-IsStored p done [] e h = record {
  received = ap (λ n. take n p.payload) (omega arith) ∙ e ∙ sym (append-nil done);
  checksum = sym (crc16_over-nil p.crc);
  header = refl;
  size = refl;
  frames = refl;
  syncs = refl;
  crcs = refl;
  lengths = refl;
}
stored_all-IsStored p done (b ∷ bytes) e h = IsStored-first p done b bytes (
    stored_all-IsStored (payload_stored p b) (done ++ b ∷ []) bytes
      (take-set_next p.payload done p.payload_index b (omega arith) e)
      (omega (arith, length-set p.payload p.payload_index b)))
