-- ===== src/Control.antt =====
-- Frames between a process and the registry, middleware/src/detail/control_protocol.hpp and
-- control_protocol.cpp. A writer is the bytes that it has written, a reader the bytes that it has not
-- read; a read that fails ends the decoding, in every caller.
pub mod Payload
use cpp_robot_middleware.Prelude.{
  ℕ, ◌+◌, ◌%◌, ◌^◌, List, [], ◌∷◌, ◌++◌, Bool, true, false, not, ◌||◌, ◌&&◌, Option, none, some,
  and_then, length, take, drop, if◌then◌else◌, ltb, leb, ◌==◌, ◌!=◌, u32_max,
}
use cpp_robot_middleware.Wire.{encode_be, decode_be, read_be}

abbrev pub control_magic : ℕ
control_magic = 0x4D574332

abbrev pub control_version : ℕ
control_version = 5

abbrev pub control_header_size : ℕ
control_header_size = 16

abbrev pub max_control_payload_size : ℕ
max_control_payload_size = 65536

-- The opcode is the number on the wire, which `decodeControlHeader` casts without a check.
pub record ControlHeader : Type 0 where
  pub magic : ℕ
  pub version : ℕ
  pub opcode : ℕ
  pub request_id : ℕ
  pub payload_size : ℕ

pub data ControlHeaderValidation : Type 0 where
  valid bad_magic unsupported_version payload_too_large : ControlHeaderValidation

abbrev pub write_u16 : List ℕ → ℕ → List ℕ
write_u16 out value = out ++ encode_be 2 value

abbrev pub write_u32 : List ℕ → ℕ → List ℕ
write_u32 out value = out ++ encode_be 4 value

abbrev pub write_u64 : List ℕ → ℕ → List ℕ
write_u64 out value = out ++ encode_be 8 value

-- `none` is the exception for a string that is too large.
unfoldable pub write_string : List ℕ → List ℕ → Option (List ℕ)
write_string out value =
    if ltb u32_max (length value) then none else some (write_u32 out (length value) ++ value)

abbrev pub write_bytes : List ℕ → List ℕ → List ℕ
write_bytes out value = out ++ value

-- `readU16`, `readU32` and `readU64`, by their width: the value and the rest.
unfoldable pub read_integer : ℕ → List ℕ → Option (ℕ × List ℕ)
read_integer width buf =
    if ltb (length buf) width then none else some (decode_be (take width buf), drop width buf)

abbrev pub read_sized : ℕ → List ℕ → Option (List ℕ × List ℕ)
read_sized size buf = if ltb (length buf) size then none else some (take size buf, drop size buf)

unfoldable pub read_string : List ℕ → Option (List ℕ × List ℕ)
unfolding read_integer
read_string buf = and_then (read_integer 4 buf) (λ (size, rest). read_sized size rest)

abbrev pub read_remaining : List ℕ → List ℕ × List ℕ
read_remaining buf = (buf, [])

unfoldable pub encode_control_header : ControlHeader → List ℕ
encode_control_header h =
    encode_be 4 h.magic
    ++ (encode_be 2 h.version
        ++ (encode_be 2 h.opcode ++ (encode_be 4 h.request_id ++ encode_be 4 h.payload_size)))

unfoldable pub decode_control_header : List ℕ → Option ControlHeader
decode_control_header buf =
    if length buf != control_header_size
    then none
    else some (record {
      magic = read_be 0 4 buf;
      version = read_be 4 2 buf;
      opcode = read_be 6 2 buf;
      request_id = read_be 8 4 buf;
      payload_size = read_be 12 4 buf;
    })

unfoldable pub validate_control_header : ControlHeader → ControlHeaderValidation
validate_control_header h =
    if h.magic != control_magic
    then bad_magic
    else if h.version != control_version
    then unsupported_version
    else if ltb max_control_payload_size h.payload_size
    then payload_too_large
    else valid

abbrev pub frame_header : ℕ → ℕ → List ℕ → ControlHeader
frame_header opcode request_id payload = record {
  magic = control_magic;
  version = control_version;
  opcode = opcode;
  request_id = request_id;
  payload_size = length payload % 2 ^ 32;
}

unfoldable pub encode_control_frame : ℕ → ℕ → List ℕ → Option (List ℕ)
unfolding encode_control_header
encode_control_frame opcode request_id payload =
    if ltb max_control_payload_size (length payload)
    then none
    else some (encode_control_header (frame_header opcode request_id payload) ++ payload)

-- The request opcodes are 1 to 13; `Response`, 100, is none of them.
unfoldable pub is_known_request_opcode : ℕ → Bool
is_known_request_opcode opcode = leb 1 opcode && leb opcode 13

-- The error is the number on the wire, which is cast without a check.
pub record ResponseEnvelope : Type 0 where
  pub error : ℕ
  pub message : List ℕ
  pub body : List ℕ

unfoldable pub encode_response_payload : ResponseEnvelope → Option (List ℕ)
unfolding write_string
encode_response_payload r =
    and_then (write_string (write_u16 [] r.error) r.message) (λ out. some (write_bytes out r.body))

unfoldable pub decode_response_payload : List ℕ → Option ResponseEnvelope
unfolding read_integer read_string
decode_response_payload payload = and_then (read_integer 2 payload) (λ (error, rest).
    and_then (read_string rest) (λ (message, body).
      some (record { error = error; message = message; body = (read_remaining body).0 })))
