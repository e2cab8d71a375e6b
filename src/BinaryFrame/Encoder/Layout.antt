-- ===== src/BinaryFrame/Encoder/Layout.antt =====
-- The bytes that `binary_frame_encode` leaves in the buffer.
use deus_os_stm.Common.{
  ℕ, zero, suc, inl, inr, length-append, ◌+◌, ◌≤◌, ◌<◌, ◌≡◌, ◌≢◌, ◌⊎◌, refl, sym, ap, ap₂, ◌∙◌,
  Option, none, some, List, [], ◌∷◌, ◌++◌, length, take, drop, length-take, length-drop,
  take-append, drop-append, append_assoc, arith, drop-drop, take-append-drop, take_whole,
}
use deus_os_stm.BinaryFrame.Crc.{crc16_ccitt_false}
use deus_os_stm.BinaryFrame.Parser.{magic0, magic1_byte, max_payload}
use deus_os_stm.BinaryFrame.Encoder.{
  write, header_bytes, low_high, covered, finalize_in_place, encode, fixed_prefix_bytes, crc_bytes,
}

-- Header and payload, which the checksum covers.
abbrev pub body : ℕ → ℕ → ℕ → List ℕ → List ℕ
body frame_type flags request_id payload =
    header_bytes frame_type flags request_id (length payload) ++ payload

-- A frame on the wire.
abbrev pub frame_bytes : ℕ → ℕ → ℕ → List ℕ → List ℕ
frame_bytes frame_type flags request_id payload =
    magic0 ∷ magic1_byte ∷ body frame_type flags request_id payload
    ++ low_high (crc16_ccitt_false (body frame_type flags request_id payload))

-- Writing behind a prefix of known length replaces what stands there.
pub write_behind :
    (xs old ys bytes : List ℕ) {at : ℕ}
    → at ≡ length xs
    → length old ≡ length bytes
    → write (xs ++ (old ++ ys)) at bytes ≡ xs ++ (bytes ++ ys)
unfolding write
write_behind xs old ys bytes {at} e h =
    ap₂ (λ a b. a ++ (bytes ++ b)) (take-append xs (old ++ ys) e)
      (sym (drop-drop (length bytes) at (xs ++ (old ++ ys)))
        ∙ ap (drop (length bytes)) (drop-append xs (old ++ ys) e)
        ∙ drop-append old ys (sym h))

-- The buffer in four parts: prefix, payload, checksum, and the rest.
split-buffer :
    (wire : List ℕ) (n : ℕ)
    → wire
      ≡ take 10 wire
        ++ (take n (drop 10 wire)
            ++ (take 2 (drop n (drop 10 wire)) ++ drop 2 (drop n (drop 10 wire))))
split-buffer wire n = sym (
    ap (λ r. take 10 wire ++ (take n (drop 10 wire) ++ r))
      (take-append-drop 2 (drop n (drop 10 wire)))
    ∙ ap (λ r. take 10 wire ++ r) (take-append-drop n (drop 10 wire))
    ∙ take-append-drop 10 wire)

module _ (frame_type flags request_id : ℕ) (payload prefix old sums rest : List ℕ)
    (prefix_size : length prefix ≡ 10) (old_size : length old ≡ length payload)
    (sums_size : length sums ≡ 2) where
  finalize-parts :
      finalize_in_place frame_type flags request_id
        (length payload)
        (prefix ++ (payload ++ (sums ++ rest)))
      ≡ (
        fixed_prefix_bytes + length payload + crc_bytes,
        frame_bytes frame_type flags request_id payload ++ rest,
      )
  unfolding finalize_in_place
  finalize-parts =
      ap (λ w. (size, write w (10 + n) (low_high (crc16_ccitt_false (covered w n))))) headed
      ∙ ap (λ b. (size, write laid_out (10 + n) (low_high (crc16_ccitt_false b)))) covers
      ∙ ap (λ w. (size, w))
          (write_behind (magic0 ∷ magic1_byte ∷ whole) sums rest
              (low_high (crc16_ccitt_false whole)) (omega arith) sums_size
            ∙ ap (λ r. magic0 ∷ magic1_byte ∷ header ++ r)
                (sym (append_assoc payload (low_high (crc16_ccitt_false whole)) rest)))
    where
      n : ℕ
      n = length payload

      size : ℕ
      size = fixed_prefix_bytes + n + crc_bytes

      header : List ℕ
      header = header_bytes frame_type flags request_id n

      whole : List ℕ
      whole = body frame_type flags request_id payload

      laid_out : List ℕ
      laid_out = magic0 ∷ magic1_byte ∷ whole ++ (sums ++ rest)

      headed :
          write (prefix ++ (payload ++ (sums ++ rest))) 0 (magic0 ∷ magic1_byte ∷ header) ≡ laid_out
      headed =
          write_behind [] prefix (payload ++ (sums ++ rest)) (magic0 ∷ magic1_byte ∷ header) refl
            prefix_size

      covers : covered laid_out n ≡ whole
      covers = take-append whole (sums ++ rest) (omega arith)

  payload-parts :
      write (prefix ++ (old ++ (sums ++ rest))) fixed_prefix_bytes payload
      ≡ prefix ++ (payload ++ (sums ++ rest))
  payload-parts = write_behind prefix old (sums ++ rest) payload (sym prefix_size) old_size

-- A payload of at most 132 bytes and a buffer that holds the frame: the call returns the length of
-- the frame, has written the frame at the start of the buffer, and has left the rest of it alone.
pub encode_lem :
    (frame_type flags request_id capacity : ℕ) (payload wire : List ℕ)
    → length payload ≤ max_payload
    → fixed_prefix_bytes + length payload + crc_bytes ≤ capacity
    → capacity ≤ length wire
    → encode frame_type flags request_id (some payload) (length payload) wire capacity ≡ (
      fixed_prefix_bytes + length payload + crc_bytes,
      frame_bytes frame_type flags request_id payload
          ++ drop (fixed_prefix_bytes + length payload + crc_bytes) wire,
    )
unfolding encode
encode_lem frame_type flags request_id capacity payload wire small fits room =
    accepted
    ∙ ap (finalize_in_place frame_type flags request_id n) (
        ap₂ (λ w p. write w 10 p) (split-buffer wire n) (take_whole payload refl)
        ∙ payload-parts frame_type flags request_id payload prefix old sums rest prefix_size
            old_size sums_size)
    ∙ finalize-parts frame_type flags request_id payload prefix old sums rest prefix_size old_size
        sums_size
    ∙ ap
        (λ r. (
          fixed_prefix_bytes + n + crc_bytes,
          frame_bytes frame_type flags request_id payload ++ r,
        ))
        rest_lem
  where
    n : ℕ
    n = length payload

    prefix : List ℕ
    prefix = take 10 wire

    old : List ℕ
    old = take n (drop 10 wire)

    sums : List ℕ
    sums = take 2 (drop n (drop 10 wire))

    rest : List ℕ
    rest = drop 2 (drop n (drop 10 wire))

    prefix_size : length prefix ≡ 10
    prefix_size = omega (arith, length-take 10 wire)

    old_size : length old ≡ n
    old_size = omega (arith, length-take n (drop 10 wire), length-drop 10 wire)

    sums_size : length sums ≡ 2
    sums_size = omega (
      arith,
      length-take 2 (drop n (drop 10 wire)),
      length-drop n (drop 10 wire),
      length-drop 10 wire,
    )

    rest_lem : rest ≡ drop (fixed_prefix_bytes + n + crc_bytes) wire
    rest_lem = ap (drop 2) (drop-drop n 10 wire) ∙ drop-drop 2 (10 + n) wire

    accepted :
        encode frame_type flags request_id (some payload) n wire capacity
        ≡ finalize_in_place frame_type flags request_id n (write wire 10 (take n payload))
    accepted = ground arith

encode_refused :
    (frame_type flags request_id size capacity : ℕ) (payload : Option (List ℕ)) (wire : List ℕ)
    → ((payload ≡ none) × (size ≢ 0))
      ⊎ ((max_payload < size) ⊎ (capacity < fixed_prefix_bytes + size + crc_bytes))
    → encode frame_type flags request_id payload size wire capacity ≡ (0, wire)
unfolding encode
encode_refused frame_type flags request_id size capacity payload wire h = ground arith

-- A length and a buffer that a call may leave of the buffer `wire`.
abbrev pub IsWithin : ℕ → List ℕ → ℕ × List ℕ → Type 0
IsWithin capacity wire (size, wire') =
    (size ≤ capacity) × (length wire' ≡ length wire) × (drop size wire' ≡ drop size wire)

frame_bytes-length :
    (frame_type flags request_id : ℕ) (payload : List ℕ)
    → length (frame_bytes frame_type flags request_id payload)
      ≡ fixed_prefix_bytes + length payload + crc_bytes
frame_bytes-length frame_type flags request_id payload =
    let crc = crc16_ccitt_false (body frame_type flags request_id payload) in
    omega (arith, length-append payload (low_high crc))

-- The payload of `size` bytes, whether the frame fits or not.
encode_given :
    (frame_type flags request_id capacity : ℕ) (payload wire : List ℕ)
    → capacity ≤ length wire
    → IsWithin capacity wire
        (encode frame_type flags request_id (some payload) (length payload) wire capacity)
encode_given frame_type flags request_id capacity payload wire room =
    let n = fixed_prefix_bytes + length payload + crc_bytes in
    let frame = frame_bytes frame_type flags request_id payload in
    let size = frame_bytes-length frame_type flags request_id payload in
    let cases : ((length payload ≤ max_payload) × (n ≤ capacity))
        ⊎ ((max_payload < length payload) ⊎ (capacity < n)) =
      ground arith in
    elim cases [
      | inl (small, fits) ↦
          rw (encode_lem frame_type flags request_id capacity payload wire small fits room) (
            fits,
            omega (arith, length-append frame (drop n wire), length-drop n wire, size),
            drop-append frame (drop n wire) (sym size),
          )
      | inr large ↦
          rw
            (encode_refused frame_type flags request_id (length payload) capacity (some payload)
              wire (inr large))
            (omega arith, refl, refl)
    ]

encode_null :
    (frame_type flags request_id capacity : ℕ) (wire : List ℕ)
    → encode frame_type flags request_id none 0 wire capacity
      ≡ encode frame_type flags request_id (some []) 0 wire capacity
unfolding encode
encode_null frame_type flags request_id capacity wire = refl

-- Whatever the type, the flags, the request number and the payload are, one that points to as many
-- bytes as the call says or is null, and whatever the capacity is, of at most the bytes of the
-- buffer: the length that the call returns is at most the capacity, the buffer keeps its length,
-- and no byte at or behind the returned length is changed, so that none is where the call refuses.
pub encode-IsWithin :
    (frame_type flags request_id size capacity : ℕ) (payload : Option (List ℕ)) (wire : List ℕ)
    → ((bytes : List ℕ) → payload ≡ some bytes → length bytes ≡ size)
    → capacity ≤ length wire
    → IsWithin capacity wire (encode frame_type flags request_id payload size wire capacity)
encode-IsWithin frame_type flags request_id zero capacity none wire h room =
    rw (encode_null frame_type flags request_id capacity wire)
      (encode_given frame_type flags request_id capacity [] wire room)
encode-IsWithin frame_type flags request_id (suc n) capacity none wire h room =
    rw
      (encode_refused frame_type flags request_id (suc n) capacity none wire
        (inl (refl, λ e. absurd (omega arith))))
      (omega arith, refl, refl)
encode-IsWithin frame_type flags request_id size capacity (some payload) wire h room =
    rw (sym (h payload refl)) (encode_given frame_type flags request_id capacity payload wire room)
