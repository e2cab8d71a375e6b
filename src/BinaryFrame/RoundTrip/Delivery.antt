-- ===== src/BinaryFrame/RoundTrip/Delivery.antt =====
-- A whole frame through the parser.
use deus_os_stm.Common.{
  ℕ, ◌+◌, ◌*◌, ◌/◌, ◌%◌, ◌≤◌, ◌<◌, ◌≡◌, refl, sym, ap, subst, ◌∙◌, none, some, List, [], ◌∷◌, ◌++◌,
  length, take, arith,
}
use deus_os_stm.BinaryFrame.Crc.{crc16_ccitt_false, crc16_whole, crc16_over-lt}
use deus_os_stm.BinaryFrame.Parser.{
  Parser, ParserState, FeedResult, View, increment, max_payload, magic0, magic1_byte, feed, reset,
  end_header,
}
use deus_os_stm.BinaryFrame.Encoder.{header_bytes, low_high}
use deus_os_stm.BinaryFrame.Encoder.Layout.{body, frame_bytes}
use deus_os_stm.BinaryFrame.RoundTrip.Steps.{Consumes, Consumes-append, Consumes-step}
use deus_os_stm.Common.{u16_mod, get_or}
use deus_os_stm.BinaryFrame.Parser.{begin_header, view_of}
use deus_os_stm.BinaryFrame.Parser.Bounds.{IsParser}
use deus_os_stm.BinaryFrame.RoundTrip.Header.{
  header_all, header-Consumes, header_all-IsHeaded, header_all-snoc, IsHeaded, feed_eighth,
}
use deus_os_stm.BinaryFrame.RoundTrip.BeforeCrc.{
  IsWaiting, magic-Consumes, IsBeforeCrc, IsHeaderEnd, end_header-payload, header_end,
}

-- The parser takes the bytes as parts of a frame, and with the last one hands the frame out.
abbrev pub Delivers : Parser → List ℕ → View → Parser → Type 0
Delivers p [] f q = ⊥
Delivers p (b ∷ []) f q = feed p b ≡ (FeedResult.frame_ready, q, some f)
Delivers p (b ∷ c ∷ bytes) f q =
    ((feed p b).0 ≡ FeedResult.consumed) × Delivers (feed p b).1 (c ∷ bytes) f q

Delivers-append :
    (p : Parser) (xs : List ℕ) (y : ℕ) (ys : List ℕ) (q : Parser) (f : View) (r : Parser)
    → Consumes p xs q
    → Delivers q (y ∷ ys) f r
    → Delivers p (xs ++ y ∷ ys) f r
Delivers-append p [] y ys q f r h k = subst (λ u. Delivers u (y ∷ ys) f r) (sym h) k
Delivers-append p (x ∷ []) y ys q f r h k = (h.0, subst (λ u. Delivers u (y ∷ ys) f r) (sym h.1) k)
Delivers-append p (x ∷ z ∷ xs) y ys q f r h k =
    (h.0, Delivers-append (feed p x).1 (z ∷ xs) y ys q f r h.1 k)

feed_low :
    (p : Parser) (b : ℕ)
    → p.state ≡ ParserState.crc0
    → feed p b
      ≡ (FeedResult.consumed, record p { received_crc_low = b; state = ParserState.crc1 }, none)
unfolding feed
feed_low p b s = ground arith

feed_high :
    (p : Parser) (b : ℕ)
    → p.state ≡ ParserState.crc1
    → p.received_crc_low + b * 256 ≡ p.crc
    → feed p b ≡ (
      FeedResult.frame_ready,
      reset (record p { frames_received = increment p.frames_received }),
      some (view_of p),
    )
unfolding feed
feed_high p b s h = ground arith

-- The two bytes of a checksum that agrees.
crc-Delivers :
    (p : Parser) (crc : ℕ)
    → p.state ≡ ParserState.crc0
    → p.crc ≡ crc
    → crc < u16_mod
    → Delivers p
        (low_high crc)
        (view_of p)
        (reset (record p { frames_received = increment p.frames_received }))
unfolding reset view_of
crc-Delivers p crc s e h = (
  ap (λ x. x.0) low,
  subst
      (λ q. feed q (crc / 256 % 256) ≡ (
        FeedResult.frame_ready,
        reset (record p { frames_received = increment p.frames_received }),
        some (view_of p),
      ))
      (sym (ap (λ x. x.1) low))
      (feed_high (record p { received_crc_low = crc % 256; state = ParserState.crc1 })
        (crc / 256 % 256) refl (omega (arith, e))),
)
  where
    low : feed p (crc % 256) ≡ (
      FeedResult.consumed,
      record p { received_crc_low = crc % 256; state = ParserState.crc1 },
      none,
    )
    low = feed_low p (crc % 256) s

-- The view of a frame that was encoded.
pub record IsViewOf (frame_type flags request_id : ℕ) (payload : List ℕ) (f : View) : Type 0 where
  pub version_eq : f.version ≡ 1
  pub type_eq : f.frame_type ≡ frame_type
  pub flags_eq : f.flags ≡ flags
  pub reserved_eq : f.reserved ≡ 0
  pub id_eq : f.request_id ≡ request_id
  pub length_eq : f.payload_length ≡ length payload
  pub payload_eq : take f.payload_length f.payload ≡ payload

-- The parser after a frame: idle, one frame more, no error more.
pub record IsAfter (p q : Parser) : Type 0 where
  pub idle : q.state ≡ ParserState.idle
  pub frames : q.frames_received ≡ increment p.frames_received
  pub syncs : q.sync_errors ≡ p.sync_errors
  pub crcs : q.crc_errors ≡ p.crc_errors
  pub lengths : q.length_errors ≡ p.length_errors

view-IsViewOf :
    (p q : Parser) (frame_type flags request_id : ℕ) (payload : List ℕ)
    → request_id < u16_mod
    → length payload ≤ max_payload
    → IsBeforeCrc p (header_bytes frame_type flags request_id (length payload)) payload q
    → IsViewOf frame_type flags request_id payload (view_of q)
unfolding view_of
view-IsViewOf p q frame_type flags request_id payload small fits v = record {
  version_eq = at 0;
  type_eq = at 1;
  flags_eq = at 2;
  reserved_eq = at 3;
  id_eq = omega (arith, at 4, at 5);
  length_eq = size;
  payload_eq = ap (λ n. take n q.payload) size ∙ v.received;
}
  where
    at :
        (i : ℕ)
        → get_or q.header i 0
          ≡ get_or (header_bytes frame_type flags request_id (length payload)) i 0
    at i = ap (λ h. get_or h i 0) v.header_eq

    size : q.payload_length % u16_mod ≡ length payload
    size = omega (arith, v.size)

reset-IsAfter :
    (p q : Parser) {header payload : List ℕ}
    → IsBeforeCrc p header payload q
    → IsAfter p (reset (record q { frames_received = increment q.frames_received }))
unfolding reset
reset-IsAfter p q v = record {
  idle = refl;
  frames = ap increment v.counters.0;
  syncs = v.counters.1;
  crcs = v.counters.2;
  lengths = v.counters.3;
}

crc-lt : (bytes : List ℕ) → crc16_ccitt_false bytes < u16_mod
crc-lt bytes = rw (crc16_whole bytes) (crc16_over-lt 0xffff bytes (omega arith))

-- The bytes that `binary_frame_encode` writes for a payload of at most 132 bytes and a 16-bit
-- request number come to a parser in its invariant that waits for a frame, idle or resynchronising
-- after a length error: the parser takes each as part of a frame and with the last hands out a
-- view of the frame that was encoded; then it is idle and has counted one frame more and no error
-- more.
pub frame-Delivers :
    (p : Parser) (frame_type flags request_id : ℕ) (payload : List ℕ)
    → IsParser p
    → IsWaiting p
    → request_id < u16_mod
    → length payload ≤ max_payload
    → (f : View) × (q : Parser) × Delivers p (frame_bytes frame_type flags request_id payload) f q
      × IsViewOf frame_type flags request_id payload f
      × IsAfter p q
frame-Delivers p frame_type flags request_id payload v w small fits =
    let (r, ended, next) = end_header-payload p p4 header payload fits at_end in
    let (s, stored, before) = next in
    (
      view_of s,
      reset (record s { frames_received = increment s.frames_received }),
      Delivers-append p (magic0 ∷ magic1_byte ∷ whole) (crc % 256) (crc / 256 % 256 ∷ []) s _ _
          (Consumes-append p (magic0 ∷ magic1_byte ∷ []) whole (begin_header p) s
            (magic-Consumes p w)
            (Consumes-append (begin_header p) seven (n / 256 % 256 ∷ payload) p3 s seven_taken
              (Consumes-step p3 (n / 256 % 256) payload r s (eighth ∙ ended) stored)))
          (crc-Delivers s crc before.state before.checksum (crc-lt whole)),
      view-IsViewOf p s frame_type flags request_id payload small fits before,
      reset-IsAfter p s before,
    )
  where
    n : ℕ
    n = length payload

    header : List ℕ
    header = header_bytes frame_type flags request_id n

    seven : List ℕ
    seven = 1 ∷ frame_type ∷ flags ∷ 0 ∷ request_id % 256 ∷ request_id / 256 % 256 ∷ n % 256 ∷ []

    whole : List ℕ
    whole = body frame_type flags request_id payload

    crc : ℕ
    crc = crc16_ccitt_false whole

    p3 : Parser
    p3 = header_all (begin_header p) seven

    p4 : Parser
    p4 = header_all (begin_header p) header

    at_end : IsHeaderEnd p header n p4
    at_end =
        header_end p 1 frame_type flags 0 (request_id % 256) (request_id / 256 % 256) (n % 256)
          (n / 256 % 256) n v (omega arith)

    seven_taken : Consumes (begin_header p) seven p3
    seven_taken =
        header-Consumes (begin_header p) seven (unfold begin_header in refl)
          (unfold begin_header in omega arith)

    headed : IsHeaded (begin_header p) [] seven p3
    headed =
        header_all-IsHeaded (begin_header p) [] seven (unfold begin_header in refl)
          (unfold begin_header in omega (arith, v.header_size_eq))

    eighth : feed p3 (n / 256 % 256) ≡ end_header p4
    eighth =
        feed_eighth p3 (n / 256 % 256) (headed.state ∙ unfold begin_header in refl)
          (headed.index ∙ unfold begin_header in omega arith)
        ∙ ap end_header (sym (header_all-snoc (begin_header p) seven (n / 256 % 256)))
