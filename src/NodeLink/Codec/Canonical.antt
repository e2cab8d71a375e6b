-- ===== src/NodeLink/Codec/Canonical.antt =====
-- What the bytes that `dnl_decode` accepts look like.
use deus_os_stm.Common.{
  ℕ, suc, ◌+◌, ◌-◌, ◌≤◌, ◌<◌, true, some, List, [], ◌∷◌, ◌++◌, length, get_or, take, drop, ◌≡◌,
  arith, ==→eq, ◌∙◌, sym, ap, ap₂, AreBytes, length-take, length-drop, take-append-drop, All-take,
  All-drop, drop-drop, byte_at, subst,
}
use deus_os_stm.NodeLink.Crc.{crc16_ccitt_false}
use deus_os_stm.NodeLink.Frame.{sent, Frame, IsFrame, max_frame, frame_overhead, rd16, wr16}
use deus_os_stm.NodeLink.Codec.{
  body, wire, encode, decode, header_ok, length_ok, checksum_ok, frame_of,
}

-- Two bytes are the encoding of the number that they spell.
wr16-rd16 : (p : List ℕ) → length p ≡ 2 → AreBytes p → wr16 (rd16 p) ≡ p
wr16-rd16 (a ∷ b ∷ []) h v = ground arith
wr16-rd16 _ h v = absurd (omega arith)

record Parts (buf : List ℕ) : Type 0 where
  sized : 16 ≤ length buf
  small : length buf ≤ max_frame
  bytes : AreBytes buf
  header : header_ok buf ≡ true
  lengths : length_ok buf ≡ true
  checksum : checksum_ok buf ≡ true

decode-Parts :
    (buf : List ℕ) {f : Frame} → AreBytes buf → decode buf ≡ some f → Parts buf × (frame_of buf ≡ f)
unfolding decode
decode-Parts buf v e = ground arith

covered-body : (buf : List ℕ) → Parts buf → body (frame_of buf) ≡ take (length buf - 4) (drop 2 buf)
unfolding body frame_of header_ok length_ok
covered-body (a0 ∷ a1 ∷ a2 ∷ a3 ∷ a4 ∷ a5 ∷ a6 ∷ a7 ∷ a8 ∷ a9 ∷ a10 ∷ a11 ∷ a12 ∷ a13 ∷ rest) p =
    rw covered_size (ground (arith, p.bytes, p.header, p.lengths, length-take a8 rest))
  where
    payload_size : length rest ≡ a8 + 2
    payload_size = ground (arith, p.lengths)

    covered_size :
        suc (
            suc
              (suc (suc (suc (suc (suc (suc (suc (suc (suc (suc (suc (suc (length rest))))))))))))))
          - 4
        ≡ suc (suc (suc (suc (suc (suc (suc (suc (suc (suc (suc (suc a8)))))))))))
    covered_size = omega (arith, payload_size)
covered-body _ p = absurd (omega (arith, p.sized))

stored-checksum :
    (buf : List ℕ)
    → Parts buf
    → drop (get_or buf 8 0) (drop 14 buf) ≡ wr16 (crc16_ccitt_false (body (frame_of buf)))
stored-checksum buf p =
    sym (wr16-rd16 tail (tail_size) (All-drop _ n (drop 14 buf) (All-drop _ 14 buf p.bytes)))
    ∙ ap wr16 (stored ∙ sym (ap crc16_ccitt_false (covered-body buf p)))
  where
    n : ℕ
    n = get_or buf 8 0

    tail : List ℕ
    tail = drop n (drop 14 buf)

    size : length buf ≡ n + frame_overhead
    size = let h = p.lengths in unfold length_ok in ground (arith, h)

    tail_size : length tail ≡ 2
    tail_size = omega (arith, size, length-drop n (drop 14 buf), length-drop 14 buf)

    stored : rd16 tail ≡ crc16_ccitt_false (take (length buf - 4) (drop 2 buf))
    stored = let h = p.checksum in unfold checksum_ok in ==→eq _ _ h

magic-first : (buf : List ℕ) → Parts buf → buf ≡ 0xd5 ∷ 0x4e ∷ drop 2 buf
unfolding header_ok
magic-first (a ∷ b ∷ rest) p = ground (arith, p.header)
magic-first _ p = absurd (omega (arith, p.sized))

wire-frame_of : (buf : List ℕ) → Parts buf → wire (frame_of buf) ≡ buf
unfolding wire
wire-frame_of buf p =
    ap (λ r. 0xd5 ∷ 0x4e ∷ r)
      (ap₂ ◌++◌ (covered-body buf p) (sym (stored-checksum buf p) ∙ split)
        ∙ take-append-drop k rest)
    ∙ sym (magic-first buf p)
  where
    k : ℕ
    k = length buf - 4

    rest : List ℕ
    rest = drop 2 buf

    size : length buf ≡ get_or buf 8 0 + frame_overhead
    size = let h = p.lengths in unfold length_ok in ground (arith, h)

    split : drop (get_or buf 8 0) (drop 14 buf) ≡ drop k rest
    split =
        drop-drop (get_or buf 8 0) 14 buf
        ∙ ap (λ m. drop m buf) (omega (arith, size))
        ∙ sym (drop-drop k 2 buf)

frame_of-IsFrame : (buf : List ℕ) → Parts buf → IsFrame (frame_of buf)
unfolding frame_of length_ok
frame_of-IsFrame buf p = record {
  type_lt = byte_at buf 3 p.bytes;
  sequence_pos = ground (arith, p.lengths);
  sequence_lt = omega (arith, at 6 0, at 6 1);
  session_lt = omega (arith, at 10 0, at 10 1, at 10 2, at 10 3);
  payload_le = ground (arith, p.lengths, length-take (get_or buf 8 0) (drop 14 buf));
  payload_bytes = All-take _ (get_or buf 8 0) (drop 14 buf) (All-drop _ 14 buf p.bytes);
}
  where
    at : (n i : ℕ) → get_or (drop n buf) i 0 < 256
    at n i = byte_at (drop n buf) i (All-drop _ n buf p.bytes)

-- Bytes, all below 256, that decode to a frame are the encoding of that frame, which is within the
-- ranges of its types: each frame has exactly one accepted representation.
pub encode-decode :
    (buf : List ℕ) (f : Frame)
    → AreBytes buf
    → decode buf ≡ some f
    → IsFrame f × (encode f max_frame ≡ sent buf)
unfolding encode
encode-decode buf f v e =
    let (p, q) = decode-Parts buf v e in
    let w : IsFrame f = subst IsFrame q (frame_of-IsFrame buf p) in
    (w, ground (arith, w, ap wire q, wire-frame_of buf p))
