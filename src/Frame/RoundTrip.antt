-- ===== src/Frame/RoundTrip.antt =====
-- The header of frame_protocol.cpp, encoded and decoded again.
use cpp_robot_middleware.Prelude.{◌<◌, ◌^◌, ◌≡◌, some, arith}
use cpp_robot_middleware.Wire.Frames.{frame-Reads, length-frame}
use cpp_robot_middleware.Frame.{
  FrameHeader, frame_header_size, header_fields, encode_frame_header, decode_frame_header,
}

-- The fields fit their C++ types.
pub record Fits (h : FrameHeader) : Type 0 where
  pub magic : h.magic < 2 ^ 32
  pub payload_size : h.payload_size < 2 ^ 32
  pub sequence : h.sequence < 2 ^ 64
  pub timestamp_ns : h.timestamp_ns < 2 ^ 64

-- A header whose fields fit their C++ types decodes to the header that was encoded.
pub decode_frame_header-encode :
    (h : FrameHeader) → Fits h → decode_frame_header (encode_frame_header h) ≡ some h
unfolding encode_frame_header decode_frame_header
decode_frame_header-encode h fits =
    let r = frame-Reads frame_header_size (header_fields h) (omega arith) (omega (arith, fits)) in
    rw (length-frame frame_header_size (header_fields h)) (rw (r.0, r.1.0, r.1.1.0, r.1.1.1.0))
