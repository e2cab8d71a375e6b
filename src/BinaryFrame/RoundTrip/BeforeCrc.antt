-- ===== src/BinaryFrame/RoundTrip/BeforeCrc.antt =====
-- A frame through the parser, up to its checksum.
use deus_os_stm.Common.{
  ℕ, suc, ◌+◌, ◌*◌, ◌≤◌, ◌≡◌, ◌⊎◌, inl, inr, refl, sym, ap, ◌∙◌, none, List, [], ◌∷◌, ◌++◌, length,
  take, take_whole, append-nil, arith,
}
use deus_os_stm.BinaryFrame.Crc.{crc16_over, crc16_over-append, crc16_ccitt_false, crc16_whole}
use deus_os_stm.BinaryFrame.Parser.{
  Parser, ParserState, FeedResult, max_payload, header_size, magic0, magic1_byte, feed, end_header,
}
use deus_os_stm.BinaryFrame.RoundTrip.Steps.{Consumes, Consumes-step}
use deus_os_stm.Common.{get_or}
use deus_os_stm.BinaryFrame.Parser.{begin_header}
use deus_os_stm.BinaryFrame.Parser.Bounds.{IsParser}
use deus_os_stm.BinaryFrame.RoundTrip.Header.{header_all, header_all-IsHeaded, IsHeaded}
use deus_os_stm.BinaryFrame.RoundTrip.Payload.{
  stored_all, payload-Consumes, stored_all-IsStored, IsStored,
}

-- The counters of errors and frames are the same.
abbrev pub SameCounters : Parser → Parser → Type 0
SameCounters p q =
    (q.frames_received ≡ p.frames_received)
    × (q.sync_errors ≡ p.sync_errors)
    × (q.crc_errors ≡ p.crc_errors)
    × (q.length_errors ≡ p.length_errors)

-- The states in which a parser waits for the start of a frame.
abbrev pub IsWaiting : Parser → Type 0
IsWaiting p = (p.state ≡ ParserState.idle) ⊎ (p.state ≡ ParserState.resync)

pub magic-Consumes :
    (p : Parser) → IsWaiting p → Consumes p (magic0 ∷ magic1_byte ∷ []) (begin_header p)
unfolding feed begin_header
magic-Consumes p (inl e) =
    Consumes-step p magic0 (magic1_byte ∷ []) (record p { state = ParserState.magic1 }) _
      (ground arith) (refl, refl)
magic-Consumes p (inr e) =
    Consumes-step p magic0 (magic1_byte ∷ []) (record p { state = ParserState.resync_magic1 }) _
      (ground arith) (refl, refl)

-- The parser that has everything of a frame but its checksum.
pub record IsBeforeCrc (p : Parser) (header payload : List ℕ) (q : Parser) : Type 0 where
  pub state : q.state ≡ ParserState.crc0
  pub header_eq : q.header ≡ header
  pub received : take (length payload) q.payload ≡ payload
  pub size : q.payload_length ≡ length payload
  pub checksum : q.crc ≡ crc16_ccitt_false (header ++ payload)
  pub counters : SameCounters p q

-- The parser whose eighth header byte is stored.
pub record IsHeaderEnd (p : Parser) (header : List ℕ) (size : ℕ) (q : Parser) : Type 0 where
  pub header_eq : q.header ≡ header
  pub size_eq : get_or q.header 6 0 + get_or q.header 7 0 * 256 ≡ size
  pub checksum : q.crc ≡ crc16_over 0xffff header
  pub payload_size : length q.payload ≡ max_payload
  pub counters : SameCounters p q

pub end_header-payload :
    (p q : Parser) (header payload : List ℕ)
    → length payload ≤ max_payload
    → IsHeaderEnd p header (length payload) q
    → (r : Parser) × (end_header q ≡ (FeedResult.consumed, r, none))
      × ((s : Parser) × Consumes r payload s × IsBeforeCrc p header payload s)
unfolding end_header
end_header-payload p q header [] h v = (
  record q { payload_length = 0; state = ParserState.crc0 },
  ground arith,
  (
    record q { payload_length = 0; state = ParserState.crc0 },
    refl,
    record {
      state = refl;
      header_eq = v.header_eq;
      received = refl;
      size = refl;
      checksum =
          v.checksum ∙ sym (crc16_whole header) ∙ ap crc16_ccitt_false (sym (append-nil header));
      counters = v.counters;
    },
  ),
)
end_header-payload p q header (b ∷ rest) h v = (
  r,
  ground arith,
  (
    record (stored_all r (b ∷ rest)) { state = ParserState.crc0 },
    payload-Consumes r b rest refl (omega arith),
    record {
      state = refl;
      header_eq = stored.header ∙ v.header_eq;
      received = ap (λ n. take n (stored_all r (b ∷ rest)).payload) from_zero ∙ stored.received;
      size = stored.size;
      checksum =
          stored.checksum
          ∙ ap (λ c. crc16_over c (b ∷ rest)) v.checksum
          ∙ sym (crc16_over-append 0xffff header (b ∷ rest))
          ∙ sym (crc16_whole (header ++ b ∷ rest));
      counters = (
        stored.frames ∙ v.counters.0,
        stored.syncs ∙ v.counters.1,
        stored.crcs ∙ v.counters.2,
        stored.lengths ∙ v.counters.3,
      );
    },
  ),
)
  where
    from_zero : suc (length rest) ≡ 0 + suc (length rest)
    from_zero = omega arith

    r : Parser
    r = record q {
      payload_length = suc (length rest);
      payload_index = 0;
      state = ParserState.payload;
    }

    stored : IsStored r [] (b ∷ rest) (stored_all r (b ∷ rest))
    stored = stored_all-IsStored r [] (b ∷ rest) refl (omega (arith, v.payload_size))

pub header_end :
    (p : Parser) (b0 b1 b2 b3 b4 b5 b6 b7 size : ℕ)
    → IsParser p
    → b6 + b7 * 256 ≡ size
    → IsHeaderEnd p
        (b0 ∷ b1 ∷ b2 ∷ b3 ∷ b4 ∷ b5 ∷ b6 ∷ b7 ∷ [])
        size
        (header_all (begin_header p) (b0 ∷ b1 ∷ b2 ∷ b3 ∷ b4 ∷ b5 ∷ b6 ∷ b7 ∷ []))
unfolding begin_header
header_end p b0 b1 b2 b3 b4 b5 b6 b7 size v e = record {
  header_eq = is_header;
  size_eq = rw is_header e;
  checksum = headed.checksum;
  payload_size = ap length headed.payload ∙ v.payload_size_eq;
  counters = (headed.frames, headed.syncs, headed.crcs, headed.lengths);
}
  where
    header : List ℕ
    header = b0 ∷ b1 ∷ b2 ∷ b3 ∷ b4 ∷ b5 ∷ b6 ∷ b7 ∷ []

    headed : IsHeaded (begin_header p) [] header (header_all (begin_header p) header)
    headed = header_all-IsHeaded (begin_header p) [] header refl (omega (arith, v.header_size_eq))

    is_header : (header_all (begin_header p) header).header ≡ header
    is_header =
        sym (
          take_whole (header_all (begin_header p) header).header {n = header_size}
            (sym (headed.width ∙ v.header_size_eq)))
        ∙ headed.received
