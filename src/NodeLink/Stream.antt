-- ===== src/NodeLink/Stream.antt =====
-- `dnl_stream_feed` of deus_node_link.c: frames out of a byte stream. `used` is the length of
-- `bytes`. The loop of the source drops the first byte in each round that goes on, so it is a
-- recursion on the buffered bytes.
pub mod Bounds
pub mod Reception
mod Examples
use deus_os_stm.Common.{
  ℕ, ◌+◌, ◌-◌, ◌%◌, Bool, true, false, not, ◌&&◌, ◌||◌, Option, none, some, List, [], ◌∷◌, ◌++◌,
  length, get_or, take, ltb, leb, ◌==◌, ◌!=◌, if◌then◌else◌, u32_mod,
}
use deus_os_stm.NodeLink.Frame.{Frame, max_payload, max_frame, frame_overhead}
use deus_os_stm.NodeLink.Codec.{decode}

-- `dnl_stream_t`
pub record Stream : Type 0 where
  pub bytes : List ℕ
  pub has_started : Bool
  pub started_at_ms : ℕ

abbrev pub partial_timeout_ms : ℕ
partial_timeout_ms = 50

abbrev pub init : Stream
init = record { bytes = []; has_started = false; started_at_ms = 0 }

-- What the loop of `dnl_stream_feed` ends in: DNL_DROP with the bytes kept and `has_started`, or
-- a frame.
pub data Scan : Type 0 where
  waiting : List ℕ → Bool → Scan
  complete : Frame → Scan

-- `has_started` after `stream_shift` has left these bytes.
pub shifted : Bool → List ℕ → Bool
shifted started [] = false
shifted started (_ ∷ _) = started

pub header_rejected : List ℕ → Bool
header_rejected buf =
    get_or buf 2 0 != 1
    || get_or buf 4 0 != 1
    || get_or buf 5 0 != 0
    || get_or buf 9 0 != 0
    || (get_or buf 6 0 == 0 && get_or buf 7 0 == 0)
    || ltb max_payload (get_or buf 8 0)

pub decoded_or : Option Frame → Scan → Scan
decoded_or none skipped = skipped
decoded_or (some f) skipped = complete f

-- One round of the loop on a buffer, given what the loop does after `stream_shift`.
pub scan_round : Bool → List ℕ → Scan → Scan
unfolding header_rejected
scan_round started buf skipped =
    if get_or buf 0 0 != 0xd5
    then skipped
    else if length buf == 1
    then waiting buf started
    else if get_or buf 1 0 != 0x4e
    then skipped
    else if ltb (length buf) 14
    then waiting buf started
    else if header_rejected buf
    then skipped
    else if ltb (length buf) (get_or buf 8 0 + frame_overhead)
    then waiting buf started
    else decoded_or (decode (take (get_or buf 8 0 + frame_overhead) buf)) skipped

pub scan : Bool → List ℕ → Scan
scan started [] = waiting [] started
scan started (b ∷ rest) = scan_round started (b ∷ rest) (scan (shifted started rest) rest)

-- A stale partial frame is dropped.
pub expired : Stream → ℕ → Stream
expired s time_ms =
    if s.has_started && ltb partial_timeout_ms ((time_ms + u32_mod - s.started_at_ms) % u32_mod)
    then init
    else s

-- The clock of a new frame is started.
pub clocked : Stream → ℕ → Stream
clocked s time_ms =
    if s.has_started then s else record s { has_started = true; started_at_ms = time_ms }

-- A full buffer is cleared.
pub cleared : Stream → Stream
cleared s = if leb max_frame (length s.bytes) then init else s

-- The state that the new byte is appended to.
pub before_byte : Stream → ℕ → Stream
unfolding expired clocked cleared
before_byte s time_ms = cleared (clocked (expired s time_ms) time_ms)

pub after_scan : ℕ → Scan → Option Frame × Stream
after_scan at (waiting bytes started) =
    (none, record { bytes = bytes; has_started = started; started_at_ms = at })
after_scan at (complete f) = (some f, init)

pub feed : Stream → ℕ → ℕ → Option Frame × Stream
feed s byte time_ms =
    let t = before_byte s time_ms in
    after_scan t.started_at_ms (scan t.has_started (t.bytes ++ byte ∷ []))
