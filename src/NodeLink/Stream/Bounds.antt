-- ===== src/NodeLink/Stream/Bounds.antt =====
-- The buffer and the clock of `dnl_stream_feed`.
use deus_os_stm.Common.{
  ℕ, ◌<◌, ◌≡◌, Bool, true, false, List, [], ◌∷◌, ◌++◌, length, arith, refl, ◌⊎◌, ◌∙◌, sym,
}
use deus_os_stm.NodeLink.Frame.{max_frame}
use deus_os_stm.NodeLink.Stream.{
  Stream, Scan, waiting, complete, shifted, decoded_or, scan_round, scan, before_byte, after_scan,
  feed,
}

abbrev pub is_nonempty : List ℕ → Bool
is_nonempty [] = false
is_nonempty (_ ∷ _) = true

-- The next byte fits, and the clock runs exactly while bytes are held.
pub record IsStream (s : Stream) : Type 0 where
  pub room : length s.bytes < max_frame
  pub clocked : s.has_started ≡ is_nonempty s.bytes

abbrev Holds : Scan → Type 0
Holds (waiting bytes started) = (length bytes < max_frame) × (started ≡ is_nonempty bytes)
Holds (complete f) = Unit

scan_round-Holds :
    (started : Bool) (b : ℕ) (rest : List ℕ) (skipped : Scan)
    → started ≡ true
    → Holds skipped
    → Holds (scan_round started (b ∷ rest) skipped)
unfolding scan_round decoded_or
scan_round-Holds started b rest skipped e h = ground arith

scan-Holds : (started : Bool) (buf : List ℕ) → started ≡ is_nonempty buf → Holds (scan started buf)
unfolding scan
scan-Holds started [] e = (omega arith, e)
scan-Holds started (b ∷ []) e =
    scan_round-Holds started b [] _ e (scan-Holds (shifted started []) [] (unfold shifted in refl))
scan-Holds started (b ∷ c ∷ rest) e =
    scan_round-Holds started b (c ∷ rest) _ e
      (scan-Holds (shifted started (c ∷ rest)) (c ∷ rest) (unfold shifted in e))

nonempty-snoc : (bytes : List ℕ) (b : ℕ) → is_nonempty (bytes ++ b ∷ []) ≡ true
nonempty-snoc [] b = refl
nonempty-snoc (_ ∷ _) b = refl

-- Only a running clock is left behind by the preparation for a byte, and nothing is cleared for
-- want of room.
pub before_byte_lem :
    (s : Stream) (time_ms : ℕ)
    → IsStream s
    → ((before_byte s time_ms).has_started ≡ true)
      × (((before_byte s time_ms).bytes ≡ s.bytes) ⊎ ((before_byte s time_ms).bytes ≡ []))
unfolding before_byte
before_byte_lem s time_ms v = ground arith

after_scan-IsStream : (at : ℕ) (r : Scan) → Holds r → IsStream (after_scan at r).1
unfolding after_scan
after_scan-IsStream at (waiting bytes started) h = record { room = h.0; clocked = h.1 }
after_scan-IsStream at (complete f) h = record { room = omega arith; clocked = refl }

-- Let fewer than 40 bytes be held, and the clock run exactly while bytes are held. Then the same
-- is true after any byte at any time, so that the next write is within the buffer.
pub feed-IsStream : (s : Stream) (byte time_ms : ℕ) → IsStream s → IsStream (feed s byte time_ms).1
unfolding feed
feed-IsStream s byte time_ms v =
    let t = before_byte s time_ms in
    after_scan-IsStream t.started_at_ms _ (
      scan-Holds t.has_started (t.bytes ++ byte ∷ [])
        ((before_byte_lem s time_ms v).0 ∙ sym (nonempty-snoc t.bytes byte)))
