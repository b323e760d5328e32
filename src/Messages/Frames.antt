-- ===== src/Messages/Frames.antt =====
-- The frames around the payloads: RegistryClient::request and receiveFrame of
-- middleware/src/detail/registry_client.cpp, and one turn of the loop of parseFrames and the Ok answer of
-- queueResponse of registry/src/registry_server.cpp. A connection is the bytes that arrive.
use cpp_robot_middleware.Prelude.{
  ℕ, ◌+◌, ◌^◌, ◌<◌, ◌≤◌, ◌≡◌, refl, ap, ◌∙◌, subst, Bool, true, false, List, [], ◌++◌, Option, none,
  some, and_then, length, take, drop, if◌then◌else◌, ltb, ◌==◌, ◌!=◌, arith, append_assoc,
  take-append, drop-append, length-append, le→ltb,
}
use cpp_robot_middleware.ErrorCode.{
  ErrorCode, invalid_control_message, unsupported_protocol_version, message_too_large,
}
use cpp_robot_middleware.Control.{
  ControlHeader, valid, bad_magic, unsupported_version, payload_too_large, encode_control_header,
  decode_control_header, validate_control_header, encode_control_frame, frame_header,
  control_header_size, max_control_payload_size, encode_response_payload, decode_response_payload,
  ControlHeaderValidation,
}
use cpp_robot_middleware.Control.Payload.{
  length-encode_control_header, decode_control_header-encode,
}
use cpp_robot_middleware.Messages.Requests.{Request, opcode_of, write_request}

-- The number of `Opcode::Response`.
abbrev pub response_opcode : ℕ
response_opcode = 100

-- What `request` sends; `none` is the exception for a payload that is too large.
unfoldable pub send_request : Request → ℕ → Option (List ℕ)
send_request q request_id =
    and_then (write_request q) (λ payload. encode_control_frame (opcode_of q) request_id payload)

-- What one turn of the loop of `parseFrames` finds in the input: too little, a header that is
-- answered with an error before the connection is closed, or a frame and the input behind it.
pub data Turn : Type 0 where
  incomplete : Turn
  rejected : ℕ → ErrorCode → Turn
  arrived : ControlHeader → List ℕ → List ℕ → Turn

-- The input behind a header that was read.
abbrev pub arrived_payload : ControlHeader → List ℕ → Turn
arrived_payload header input =
    if ltb (length input) (control_header_size + header.payload_size)
    then incomplete
    else arrived header (take header.payload_size (drop control_header_size input))
        (drop header.payload_size (drop control_header_size input))

abbrev pub judged : ControlHeaderValidation → ControlHeader → List ℕ → Turn
judged valid header input = arrived_payload header input
judged bad_magic header input = rejected header.request_id invalid_control_message
judged unsupported_version header input = rejected header.request_id unsupported_protocol_version
judged payload_too_large header input = rejected header.request_id message_too_large

unfoldable pub parse_frame : List ℕ → Turn
parse_frame input =
    if ltb (length input) control_header_size
    then incomplete
    else elim (decode_control_header (take control_header_size input)) [
      | none ↦ rejected 0 invalid_control_message
      | some header ↦ judged (validate_control_header header) header input
    ]

-- What `queueResponse` sends for Ok; `none` is the exception for an answer that is too large, which it
-- catches to answer MESSAGE_TOO_LARGE.
unfoldable pub encode_ok_response : ℕ → List ℕ → Option (List ℕ)
encode_ok_response request_id body =
    and_then (encode_response_payload (record { error = 0; message = []; body = body }))
      (λ payload. encode_control_frame response_opcode request_id payload)

abbrev pub is_valid : ControlHeaderValidation → Bool
is_valid valid = true
is_valid _ = false

-- `receiveFrame` on the bytes that arrive: the frame and what is behind it. `none` is an exception,
-- also the one for a connection that ends too early.
unfoldable pub receive_frame : List ℕ → Option (ControlHeader × List ℕ × List ℕ)
receive_frame input =
    if ltb (length input) control_header_size
    then none
    else and_then (decode_control_header (take control_header_size input)) (λ header.
      if is_valid (validate_control_header header)
      then if ltb (length input) (control_header_size + header.payload_size)
        then none
        else some (
          header,
          take header.payload_size (drop control_header_size input),
          drop header.payload_size (drop control_header_size input),
        )
      else none)

-- What `request` does with the answer: the body that it returns and the bytes behind it. `none` is
-- an exception.
unfoldable pub receive_response : ℕ → List ℕ → Option (List ℕ × List ℕ)
receive_response request_id input = and_then (receive_frame input) (λ (header, payload, rest).
    if header.opcode != response_opcode
    then none
    else if header.request_id != request_id
    then none
    else and_then (decode_response_payload payload)
        (λ envelope. if envelope.error == 0 then some (envelope.body, rest) else none))

-- A frame is a header of 16 bytes, which passes the checks, and its payload.
pub record Framed (opcode request_id : ℕ) (payload head : List ℕ) : Type 0 where
  pub encoded : encode_control_frame opcode request_id payload ≡ some (head ++ payload)
  pub size : length head ≡ 16
  pub decoded : decode_control_header head ≡ some (frame_header opcode request_id payload)
  pub checked : validate_control_header (frame_header opcode request_id payload) ≡ valid
  pub payload_size : (frame_header opcode request_id payload).payload_size ≡ length payload

pub frame-Framed :
    (opcode request_id : ℕ) (payload : List ℕ)
    → opcode < 2 ^ 16
    → request_id < 2 ^ 32
    → length payload ≤ max_control_payload_size
    → (head : List ℕ) × Framed opcode request_id payload head
unfolding encode_control_frame validate_control_header
frame-Framed opcode request_id payload fits numbered small =
    let h = frame_header opcode request_id payload in
    (
      encode_control_header h,
      record {
        encoded = rw (le→ltb max_control_payload_size (length payload) small) refl;
        size = length-encode_control_header h;
        decoded = decode_control_header-encode h (omega arith);
        checked = ground arith;
        payload_size = omega arith;
      },
    )

-- What stands where in the bytes of a frame with others behind it.
module _ (opcode request_id : ℕ) (payload head rest : List ℕ)
    (f : Framed opcode request_id payload head) where
  abbrev input : List ℕ
  input = (head ++ payload) ++ rest

  front : take 16 input ≡ head
  front =
      ap (take 16) (append_assoc head payload rest)
      ∙ subst (λ n. take n (head ++ (payload ++ rest)) ≡ head) f.size
          (take-append head (payload ++ rest))

  back : drop 16 input ≡ payload ++ rest
  back =
      ap (drop 16) (append_assoc head payload rest)
      ∙ subst (λ n. drop n (head ++ (payload ++ rest)) ≡ payload ++ rest) f.size
          (drop-append head (payload ++ rest))

  enough : length input ≡ 16 + length payload + length rest
  enough = omega (arith, length-append (head ++ payload) rest, length-append head payload, f.size)

  pub parse_frame-Framed :
      parse_frame input ≡ arrived (frame_header opcode request_id payload) payload rest
  unfolding parse_frame
  parse_frame-Framed =
      let some_head : ltb (length input) 16 ≡ false = ground (arith, enough) in
      let whole : ltb (length input) (16 + length payload) ≡ false = ground (arith, enough) in
      rw
        (
          some_head,
          front,
          f.decoded,
          f.checked,
          f.payload_size,
          whole,
          back,
          take-append payload rest,
          drop-append payload rest,
        )
        refl

  pub receive_frame-Framed :
      receive_frame input ≡ some (frame_header opcode request_id payload, payload, rest)
  unfolding receive_frame
  receive_frame-Framed =
      let some_head : ltb (length input) 16 ≡ false = ground (arith, enough) in
      let whole : ltb (length input) (16 + length payload) ≡ false = ground (arith, enough) in
      rw
        (
          some_head,
          front,
          f.decoded,
          f.checked,
          f.payload_size,
          whole,
          back,
          take-append payload rest,
          drop-append payload rest,
        )
        refl
