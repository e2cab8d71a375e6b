-- ===== src/NodeLink/Stream/Reception.antt =====
-- The bytes of `dnl_encode` as input of `dnl_stream_feed`.
use deus_os_stm.Common.{
  ℕ, ◌+◌, ◌-◌, ◌%◌, ◌≤◌, ◌<◌, ◌≡◌, ◌≢◌, true, false, Option, none, some, List, [], ◌∷◌, ◌++◌,
  length, get_or, take, u32_mod, arith, refl, length-append, append-nil, append_assoc,
  get_or-append, take-append, sym, ap, ◌∙◌, ◌⊎◌,
}
use deus_os_stm.NodeLink.Frame.{Frame, IsFrame, max_frame, frame_overhead}
use deus_os_stm.NodeLink.Codec.{wire, body}
use deus_os_stm.NodeLink.Codec.Laws.{length-wire, decode-encode}
use deus_os_stm.NodeLink.Stream.{
  Stream, Scan, waiting, complete, decoded_or, scan_round, scan, before_byte, after_scan, feed,
  init, header_rejected, partial_timeout_ms,
}

-- The fixed positions of the bytes that `dnl_encode` writes.
wire_header :
    (f : Frame)
    → IsFrame f
    → (get_or (wire f) 0 0 ≡ 0xd5)
      × (get_or (wire f) 1 0 ≡ 0x4e)
      × (header_rejected (wire f) ≡ false)
      × (get_or (wire f) 8 0 ≡ length f.payload)
unfolding wire body header_rejected
wire_header f v = ground arith

length-pos : (p : List ℕ) → p ≢ [] → 0 < length p
length-pos [] h = absurd (h refl)
length-pos (_ ∷ _) h = omega arith

header_rejected-agree :
    (xs ys : List ℕ)
    → ((i : ℕ) → i < 14 → get_or xs i 0 ≡ get_or ys i 0)
    → header_rejected xs ≡ header_rejected ys
unfolding header_rejected
header_rejected-agree xs ys h = cc (
  h 2 (omega arith),
  h 4 (omega arith),
  h 5 (omega arith),
  h 6 (omega arith),
  h 7 (omega arith),
  h 8 (omega arith),
  h 9 (omega arith),
)

-- The bytes of a frame up to any point make the stream wait for more.
scan_round-prefix :
    (f : Frame) (p q : List ℕ) (skipped : Scan)
    → IsFrame f
    → p ++ q ≡ wire f
    → p ≢ []
    → q ≢ []
    → scan_round true p skipped ≡ waiting p true
unfolding scan_round
scan_round-prefix f p q skipped v e hp hq =
    ground (arith, wire_header f v, length-pos p hp, at 0, at 1, at 8, rejected, short)
  where
    at : (i : ℕ) → i < length p → get_or p i 0 ≡ get_or (wire f) i 0
    at i h = sym (get_or-append p q i 0 h) ∙ ap (λ w. get_or w i 0) e

    rejected : 14 ≤ length p → header_rejected p ≡ header_rejected (wire f)
    rejected h = header_rejected-agree p (wire f) (λ i hi. at i (omega arith))

    short : length p < frame_overhead + length f.payload
    short = omega (arith, length-append p q, ap length e, length-wire f, length-pos q hq)

scan-prefix :
    (f : Frame) (p q : List ℕ)
    → IsFrame f
    → p ++ q ≡ wire f
    → p ≢ []
    → q ≢ []
    → scan true p ≡ waiting p true
unfolding scan
scan-prefix f [] q v e hp hq = absurd (hp refl)
scan-prefix f (b ∷ rest) q v e hp hq = scan_round-prefix f (b ∷ rest) q _ v e hp hq

scan_round-wire :
    (f : Frame) (buf : List ℕ) (skipped : Scan)
    → IsFrame f
    → buf ≡ wire f
    → scan_round true buf skipped ≡ complete f
unfolding scan_round decoded_or
scan_round-wire f buf skipped v e = rw e (
    rw whole
      (ground (arith, wire_header f v, length-wire f, (decode-encode f max_frame v v_capacity).1)))
  where
    v_capacity : frame_overhead + length f.payload ≤ max_frame
    v_capacity = omega (arith, v.payload_le)

    whole : take (get_or (wire f) 8 0 + frame_overhead) (wire f) ≡ wire f
    whole =
        ap (λ xs. take (get_or (wire f) 8 0 + frame_overhead) xs) (sym (append-nil (wire f)))
        ∙ take-append (wire f) [] (omega (arith, length-wire f, (wire_header f v).3))

scan-wire : (f : Frame) (buf : List ℕ) → IsFrame f → buf ≡ wire f → scan true buf ≡ complete f
unfolding scan
scan-wire f [] v e = absurd (omega (arith, ap length e, length-wire f))
scan-wire f (b ∷ rest) v e = scan_round-wire f (b ∷ rest) _ v e

snoc-ne : (p : List ℕ) (b : ℕ) → p ++ b ∷ [] ≢ []
snoc-ne [] b e = cc
snoc-ne (_ ∷ _) b e = cc

-- A run of the stream over timed bytes, with the frames that come out.
abbrev pub joined : Option Frame → List Frame × Stream → List Frame × Stream
joined none r = r
joined (some f) r = (f ∷ r.0, r.1)

pub feed_all : Stream → List (ℕ × ℕ) → List Frame × Stream
feed_all s [] = ([], s)
feed_all s ((byte, time_ms) ∷ input) =
    joined (feed s byte time_ms).0 (feed_all (feed s byte time_ms).1 input)

feed_all-step :
    (s : Stream) (b t : ℕ) (input : List (ℕ × ℕ)) {o : Option Frame} {s' : Stream}
    → feed s b t ≡ (o, s')
    → feed_all s ((b, t) ∷ input) ≡ joined o (feed_all s' input)
unfolding feed_all
feed_all-step s b t input e = ap (λ r. joined r.0 (feed_all r.1 input)) e

abbrev pub bytes_of : List (ℕ × ℕ) → List ℕ
bytes_of [] = []
bytes_of ((b, t) ∷ input) = b ∷ bytes_of input

-- No byte comes later than the partial timeout after `start`, modulo 2 ^ 32.
abbrev pub Prompt : ℕ → List (ℕ × ℕ) → Type 0
Prompt start [] = Unit
Prompt start ((b, t) ∷ input) =
    ((t + u32_mod - start) % u32_mod ≤ partial_timeout_ms) × Prompt start input

abbrev partial : List ℕ → ℕ → Stream
partial bytes start = record { bytes = bytes; has_started = true; started_at_ms = start }

before_byte-partial :
    (p : List ℕ) (start t : ℕ)
    → length p < max_frame
    → (t + u32_mod - start) % u32_mod ≤ partial_timeout_ms
    → before_byte (partial p start) t ≡ partial p start
unfolding before_byte
before_byte-partial p start t h k = ground arith

module _ (f : Frame) (v : IsFrame f) (start : ℕ) where
  feed-prefix :
      (p : List ℕ) (b : ℕ) (q : List ℕ) (s : Stream) (t : ℕ)
      → before_byte s t ≡ partial p start
      → (p ++ b ∷ []) ++ q ≡ wire f
      → q ≢ []
      → feed s b t ≡ (none, partial (p ++ b ∷ []) start)
  unfolding feed after_scan
  feed-prefix p b q s t h e hq = rw (h, scan-prefix f (p ++ b ∷ []) q v e (snoc-ne p b) hq)

  feed-last :
      (p : List ℕ) (b : ℕ) (s : Stream) (t : ℕ)
      → before_byte s t ≡ partial p start
      → p ++ b ∷ [] ≡ wire f
      → feed s b t ≡ (some f, init)
  unfolding feed after_scan
  feed-last p b s t h e = rw (h, scan-wire f (p ++ b ∷ []) v e)

  feed_all-rest :
      (p : List ℕ) (b t : ℕ) (input : List (ℕ × ℕ)) (s : Stream)
      → before_byte s t ≡ partial p start
      → p ++ b ∷ bytes_of input ≡ wire f
      → Prompt start input
      → feed_all s ((b, t) ∷ input) ≡ (f ∷ [], init)
  unfolding feed_all
  feed_all-rest p b t [] s h e k = feed_all-step s b t [] (feed-last p b s t h e)
  feed_all-rest p b t ((c, u) ∷ input) s h e k =
      feed_all-step s b t ((c, u) ∷ input)
        (feed-prefix p b (c ∷ bytes_of input) s t h e' (λ eq. cc))
      ∙ feed_all-rest (p ++ b ∷ []) c u input (partial (p ++ b ∷ []) start) ready e' k.1
    where
      e' : (p ++ b ∷ []) ++ c ∷ bytes_of input ≡ wire f
      e' = append_assoc p (b ∷ []) (c ∷ bytes_of input) ∙ e

      ready : before_byte (partial (p ++ b ∷ []) start) u ≡ partial (p ++ b ∷ []) start
      ready =
          before_byte-partial (p ++ b ∷ []) start u
            (omega (
              arith,
              length-append (p ++ b ∷ []) (c ∷ bytes_of input),
              ap length e',
              length-wire f,
              v.payload_le,
            ))
            k.0

-- The stream holds nothing, or what it holds has timed out.
abbrev pub IsIdle : Stream → ℕ → Type 0
IsIdle s t =
    ((s.bytes ≡ []) × (s.has_started ≡ false))
    ⊎ ((s.has_started ≡ true) × (partial_timeout_ms < (t + u32_mod - s.started_at_ms) % u32_mod))

idle-starts : (s : Stream) (t : ℕ) → IsIdle s t → before_byte s t ≡ partial [] t
unfolding before_byte
idle-starts s t h = ground arith

-- Let the stream be idle, or hold a partial frame older than the timeout, and let the bytes of an
-- encoded frame come with none later than the timeout after the first: then exactly that frame
-- comes out, and the stream is as after its initialisation.
pub feed_all-wire :
    (f : Frame) (s : Stream) (b t : ℕ) (input : List (ℕ × ℕ))
    → IsFrame f
    → IsIdle s t
    → b ∷ bytes_of input ≡ wire f
    → Prompt t input
    → feed_all s ((b, t) ∷ input) ≡ (f ∷ [], init)
feed_all-wire f s b t input v h e k = feed_all-rest f v t [] b t input s (idle-starts s t h) e k
