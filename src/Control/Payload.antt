-- ===== src/Control/Payload.antt =====
-- The payloads, headers and frames of control_protocol.cpp, written and read again.
use cpp_robot_middleware.Prelude.{
  ℕ, ◌^◌, ◌<◌, ◌≤◌, ◌≡◌, refl, ◌∙◌, List, ◌++◌, some, length, take, drop, u32_max, arith,
  append_assoc, take-append, drop-append, length-append, le→ltb, subst,
}
use cpp_robot_middleware.Wire.{encode_be}
use cpp_robot_middleware.Wire.BigEndian.{length-encode_be, decode_be-encode_be}
use cpp_robot_middleware.Control.{
  read_integer, read_string, read_sized, write_string, ResponseEnvelope, encode_response_payload,
  decode_response_payload, ControlHeader, encode_control_header, decode_control_header,
  encode_control_frame, frame_header, validate_control_header, valid, max_control_payload_size,
  control_header_size,
}

-- An integer at the front is read back, and the rest is left.
pub read_integer-encode_be :
    (width value : ℕ) (rest : List ℕ)
    → value < 256 ^ width
    → read_integer width (encode_be width value ++ rest) ≡ some (value, rest)
unfolding read_integer
read_integer-encode_be width value rest h =
    let e = encode_be width value in
    let size = length-encode_be width value in
    let enough : width ≤ length (e ++ rest) = omega (arith, length-append e rest, size) in
    let front : take width (e ++ rest) ≡ e =
      subst (λ n. take n (e ++ rest) ≡ e) size (take-append e rest) in
    let back : drop width (e ++ rest) ≡ rest =
      subst (λ n. drop n (e ++ rest) ≡ rest) size (drop-append e rest) in
    rw (le→ltb (length (e ++ rest)) width enough, front, back, decode_be-encode_be width value h)
      refl

read_sized-append : (xs ys : List ℕ) → read_sized (length xs) (xs ++ ys) ≡ some (xs, ys)
read_sized-append xs ys =
    let enough : length xs ≤ length (xs ++ ys) = omega (arith, length-append xs ys) in
    rw (le→ltb (length (xs ++ ys)) (length xs) enough, take-append xs ys, drop-append xs ys) refl

-- A string at the front is read back.
pub read_string-encode :
    (value rest : List ℕ)
    → length value ≤ u32_max
    → read_string (encode_be 4 (length value) ++ (value ++ rest)) ≡ some (value, rest)
unfolding read_string
read_string-encode value rest small =
    rw (read_integer-encode_be 4 (length value) (value ++ rest) (omega arith))
      (read_sized-append value rest)

-- A response payload decodes to the error, message and body that were encoded, if the error fits 16
-- bits and the message 32.
pub decode_response_payload-encode :
    (r : ResponseEnvelope)
    → r.error < 2 ^ 16
    → length r.message ≤ u32_max
    → (buf : List ℕ) × (encode_response_payload r ≡ some buf)
      × (decode_response_payload buf ≡ some r)
unfolding encode_response_payload decode_response_payload write_string
decode_response_payload-encode r fits small =
    let e = encode_be 2 r.error in
    let n = encode_be 4 (length r.message) in
    let regrouped : ((e ++ n) ++ r.message) ++ r.body ≡ e ++ (n ++ (r.message ++ r.body)) =
      append_assoc (e ++ n) r.message r.body ∙ append_assoc e n (r.message ++ r.body) in
    (
      ((e ++ n) ++ r.message) ++ r.body,
      rw (le→ltb u32_max (length r.message) small) refl,
      rw (regrouped, read_integer-encode_be 2 r.error (n ++ (r.message ++ r.body)) (omega arith))
          (rw (read_string-encode r.message r.body small) refl),
    )

-- The fields of a header fit their C++ types.
pub record HeaderFits (h : ControlHeader) : Type 0 where
  pub magic : h.magic < 2 ^ 32
  pub version : h.version < 2 ^ 16
  pub opcode : h.opcode < 2 ^ 16
  pub request_id : h.request_id < 2 ^ 32
  pub payload_size : h.payload_size < 2 ^ 32

-- A header whose fields fit their types decodes to what was encoded.
pub decode_control_header-encode :
    (h : ControlHeader) → HeaderFits h → decode_control_header (encode_control_header h) ≡ some h
unfolding encode_control_header decode_control_header encode_be
decode_control_header-encode h fits =
    let m = decode_be-encode_be 4 h.magic (omega (arith, fits)) in
    let v = decode_be-encode_be 2 h.version (omega (arith, fits)) in
    let o = decode_be-encode_be 2 h.opcode (omega (arith, fits)) in
    let r = decode_be-encode_be 4 h.request_id (omega (arith, fits)) in
    let n = decode_be-encode_be 4 h.payload_size (omega (arith, fits)) in
    λ i.
      some
        (record { magic = m i; version = v i; opcode = o i; request_id = r i; payload_size = n i })

pub length-encode_control_header : (h : ControlHeader) → length (encode_control_header h) ≡ 16
unfolding encode_control_header encode_be
length-encode_control_header h = refl

-- A frame with a payload of at most 64 KiB, an opcode of 16 bits and a request number of 32 is encoded
-- as a header that decodes and passes the validation, with the payload's size in it, and the payload.
pub encode_control_frame-decode :
    (opcode request_id : ℕ) (payload : List ℕ)
    → opcode < 2 ^ 16
    → request_id < 2 ^ 32
    → length payload ≤ max_control_payload_size
    → (buf : List ℕ) × (encode_control_frame opcode request_id payload ≡ some buf)
      × (decode_control_header (take control_header_size buf)
          ≡ some (frame_header opcode request_id payload))
      × (validate_control_header (frame_header opcode request_id payload) ≡ valid)
      × ((frame_header opcode request_id payload).payload_size ≡ length payload)
      × (drop control_header_size buf ≡ payload)
unfolding encode_control_frame validate_control_header
encode_control_frame-decode opcode request_id payload fits numbered small =
    let h = frame_header opcode request_id payload in
    let head = encode_control_header h in
    let size = length-encode_control_header h in
    let front : take 16 (head ++ payload) ≡ head =
      subst (λ n. take n (head ++ payload) ≡ head) size (take-append head payload) in
    let back : drop 16 (head ++ payload) ≡ payload =
      subst (λ n. drop n (head ++ payload) ≡ payload) size (drop-append head payload) in
    (
      head ++ payload,
      rw (le→ltb max_control_payload_size (length payload) small) refl,
      rw front (decode_control_header-encode h (omega arith)),
      ground arith,
      omega arith,
      back,
    )
