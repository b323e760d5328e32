-- ===== src/Frame.antt =====
-- The header of a UDS data frame, middleware/src/detail/frame_protocol.hpp and frame_protocol.cpp.
pub mod RoundTrip
use cpp_robot_middleware.Prelude.{
  ℕ, ◌<◌, ◌^◌, List, [], ◌∷◌, Bool, Option, none, some, length, replicate, if◌then◌else◌, ltb, ◌==◌,
  ◌!=◌,
}
use cpp_robot_middleware.Wire.{Field, frame, read_be}

abbrev pub frame_magic : ℕ
frame_magic = 0x4D573031

abbrev pub frame_header_size : ℕ
frame_header_size = 24

pub record FrameHeader : Type 0 where
  pub magic : ℕ
  pub payload_size : ℕ
  pub sequence : ℕ
  pub timestamp_ns : ℕ

pub data FrameValidation : Type 0 where
  valid bad_magic payload_too_large : FrameValidation

abbrev pub header_fields : FrameHeader → List Field
header_fields h =
    (0, 4, h.magic) ∷ (4, 4, h.payload_size) ∷ (8, 8, h.sequence) ∷ (16, 8, h.timestamp_ns) ∷ []

unfoldable pub encode_frame_header : FrameHeader → List ℕ
encode_frame_header h = frame frame_header_size (header_fields h)

unfoldable pub decode_frame_header : List ℕ → Option FrameHeader
decode_frame_header buf =
    if length buf != frame_header_size
    then none
    else some (record {
      magic = read_be 0 4 buf;
      payload_size = read_be 4 4 buf;
      sequence = read_be 8 8 buf;
      timestamp_ns = read_be 16 8 buf;
    })

unfoldable pub validate_frame_header : FrameHeader → ℕ → FrameValidation
validate_frame_header h max_message_size =
    if h.magic != frame_magic
    then bad_magic
    else if ltb max_message_size h.payload_size
    then payload_too_large
    else valid
