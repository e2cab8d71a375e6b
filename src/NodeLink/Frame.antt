-- ===== src/NodeLink/Frame.antt =====
-- The data that deus_node_link.c works on. A byte array with a length field is the list of the
-- bytes within that length; behind it the source keeps zeros, which is what `get_or _ _ 0` reads.
use deus_os_stm.Common.{
  ℕ, ◌+◌, ◌*◌, ◌/◌, ◌%◌, ◌≤◌, ◌<◌, List, [], ◌∷◌, length, get_or, u8_mod, u16_mod, u32_mod,
  AreBytes,
}

-- The DNL_* results.
pub data Status : Type 0 where
  ok drop bad_argument bad_frame bad_message output_too_small no_session wrong_direction unsolicited
        stale_session wrong_sequence wrong_reply_type bad_result_length bad_hello_echo remote_error
        rehandshake_required not_ready_or_busy already_retried :
      Status

-- What a call with an output buffer leaves: DNL_OK with the bytes written, or another result with
-- `*output_length` 0.
pub data Output : Type 0 where
  sent : List ℕ → Output
  failed : Status → Output

-- `dnl_frame_t`; `payload_length` is the length of `payload`.
pub record Frame : Type 0 where
  pub type : ℕ
  pub sequence : ℕ
  pub session_id : ℕ
  pub payload : List ℕ

abbrev pub max_payload : ℕ
max_payload = 24

abbrev pub max_frame : ℕ
max_frame = 40

abbrev pub frame_overhead : ℕ
frame_overhead = 16

abbrev pub rd16 : List ℕ → ℕ
rd16 p = get_or p 0 0 + 256 * get_or p 1 0

abbrev pub rd32 : List ℕ → ℕ
rd32 p = get_or p 0 0 + 256 * get_or p 1 0 + 65536 * get_or p 2 0 + 16777216 * get_or p 3 0

abbrev pub wr16 : ℕ → List ℕ
wr16 n = n % 256 ∷ n / 256 % 256 ∷ []

abbrev pub wr32 : ℕ → List ℕ
wr32 n = n % 256 ∷ n / 256 % 256 ∷ n / 65536 % 256 ∷ n / 16777216 % 256 ∷ []

-- The fields are within the ranges of their C types, the payload within its array, and the
-- sequence is not the reserved 0.
pub record IsFrame (f : Frame) : Type 0 where
  pub type_lt : f.type < u8_mod
  pub sequence_pos : 0 < f.sequence
  pub sequence_lt : f.sequence < u16_mod
  pub session_lt : f.session_id < u32_mod
  pub payload_le : length f.payload ≤ max_payload
  pub payload_bytes : AreBytes f.payload
