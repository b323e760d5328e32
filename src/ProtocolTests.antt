-- ===== src/ProtocolTests.antt =====
-- A control frame split at concrete values, and a notification that fits its fields.
use cpp_robot_middleware.Prelude.{ℕ, ◌≡◌, refl, List, [], ◌∷◌, some, arith}
use cpp_robot_middleware.Wire.{is_valid_shared_memory_name}
use cpp_robot_middleware.ShmProtocol.{ShmNotification}
use cpp_robot_middleware.ShmProtocol.RoundTrip.{NotificationFits}
use cpp_robot_middleware.Prelude.{take, drop}
use cpp_robot_middleware.Control.{
  decode_control_header, encode_control_frame, frame_header, validate_control_header, valid,
}
use cpp_robot_middleware.Control.Payload.{encode_control_frame-decode}

abbrev shm_notification : ShmNotification
shm_notification = record {
  magic = 0x4D575333;
  version = 1;
  kind = 1;
  handle = record {
    shm_name = 47 ∷ 97 ∷ [];
    segment_size = 164;
    payload_size = 100;
    sequence = 4;
    publish_timestamp_ns = 77;
    topic_id = 9;
  };
}

shm_notification_fits : NotificationFits shm_notification
unfolding is_valid_shared_memory_name
shm_notification_fits = record {
  magic = omega arith;
  version = omega arith;
  kind = omega arith;
  name = refl;
  segment_size = omega arith;
  payload_size = omega arith;
  sequence = omega arith;
  publish_timestamp_ns = omega arith;
  topic_id = omega arith;
}

encode_control_frame-decode_example :
    (buf : List ℕ) × (encode_control_frame 12 31 (1 ∷ 2 ∷ []) ≡ some buf)
    × (decode_control_header (take 16 buf) ≡ some (frame_header 12 31 (1 ∷ 2 ∷ [])))
    × (validate_control_header (frame_header 12 31 (1 ∷ 2 ∷ [])) ≡ valid)
    × ((frame_header 12 31 (1 ∷ 2 ∷ [])).payload_size ≡ 2)
    × (drop 16 buf ≡ 1 ∷ 2 ∷ [])
encode_control_frame-decode_example =
    encode_control_frame-decode 12 31 (1 ∷ 2 ∷ []) (omega arith) (omega arith) (omega arith)
