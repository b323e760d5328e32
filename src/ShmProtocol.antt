-- ===== src/ShmProtocol.antt =====
-- Per-message shared memory: the segment header, its notification and its acknowledgement,
-- middleware/src/detail/shm_protocol.hpp and shm_protocol.cpp.
pub mod RoundTrip
use cpp_robot_middleware.Prelude.{
  ℕ, ◌+◌, ◌-◌, List, [], ◌∷◌, Bool, not, ◌||◌, ◌&&◌, Option, none, some, length, drop,
  if◌then◌else◌, ltb, ◌==◌, ◌!=◌, true, u64_max,
}
use cpp_robot_middleware.Wire.{
  Field, frame, named_frame, read_be, slice, all_zero, is_valid_shared_memory_name,
}

abbrev pub shared_memory_magic : ℕ
shared_memory_magic = 0x4D575333

abbrev pub shared_memory_version : ℕ
shared_memory_version = 1

abbrev pub shared_memory_header_size : ℕ
shared_memory_header_size = 48

abbrev pub shm_notification_magic : ℕ
shm_notification_magic = 0x4D574E33

abbrev pub shm_notification_version : ℕ
shm_notification_version = 1

abbrev pub max_shm_name_size : ℕ
max_shm_name_size = 192

abbrev pub shm_notification_header_size : ℕ
shm_notification_header_size = 56

abbrev pub shm_notification_size : ℕ
shm_notification_size = 248

abbrev pub shm_ack_size : ℕ
shm_ack_size = 16

-- `ShmFrameKind`
abbrev pub notification_kind : ℕ
notification_kind = 1

abbrev pub ack_kind : ℕ
ack_kind = 2

pub record SharedMemoryHeader : Type 0 where
  pub magic : ℕ
  pub version : ℕ
  pub header_size : ℕ
  pub segment_size : ℕ
  pub payload_size : ℕ
  pub sequence : ℕ
  pub publish_timestamp_ns : ℕ
  pub topic_id : ℕ

pub record ShmMessageHandle : Type 0 where
  pub shm_name : List ℕ
  pub segment_size : ℕ
  pub payload_size : ℕ
  pub sequence : ℕ
  pub publish_timestamp_ns : ℕ
  pub topic_id : ℕ

pub record ShmNotification : Type 0 where
  pub magic : ℕ
  pub version : ℕ
  pub kind : ℕ
  pub handle : ShmMessageHandle

pub record ShmAck : Type 0 where
  pub magic : ℕ
  pub version : ℕ
  pub kind : ℕ
  pub sequence : ℕ

pub data ShmValidation : Type 0 where
  valid bad_magic unsupported_version bad_kind invalid_name invalid_segment_size : ShmValidation
  payload_too_large metadata_mismatch : ShmValidation

-- `none` is the `false` of `checkedSegmentSize`.
unfoldable pub checked_segment_size : ℕ → Option ℕ
checked_segment_size payload_size =
    if ltb (u64_max - shared_memory_header_size) payload_size
    then none
    else some (payload_size + shared_memory_header_size)

-- `!checkedSegmentSize(payload_size, expected) || expected != segment_size`
unfoldable pub segment_mismatch : ℕ → ℕ → Bool
unfolding checked_segment_size
segment_mismatch payload_size segment_size = elim (checked_segment_size payload_size) [
  | none ↦ true
  | some n ↦ n != segment_size
]

abbrev pub header_fields : SharedMemoryHeader → List Field
header_fields h =
    (0, 4, h.magic)
    ∷ (4, 2, h.version)
    ∷ (6, 2, h.header_size)
    ∷ (8, 8, h.segment_size)
    ∷ (16, 8, h.payload_size)
    ∷ (24, 8, h.sequence)
    ∷ (32, 8, h.publish_timestamp_ns)
    ∷ (40, 8, h.topic_id)
    ∷ []

unfoldable pub encode_shared_memory_header : SharedMemoryHeader → List ℕ
encode_shared_memory_header h = frame shared_memory_header_size (header_fields h)

unfoldable pub decode_shared_memory_header : List ℕ → Option SharedMemoryHeader
decode_shared_memory_header buf =
    if length buf != shared_memory_header_size
    then none
    else some (record {
      magic = read_be 0 4 buf;
      version = read_be 4 2 buf;
      header_size = read_be 6 2 buf;
      segment_size = read_be 8 8 buf;
      payload_size = read_be 16 8 buf;
      sequence = read_be 24 8 buf;
      publish_timestamp_ns = read_be 32 8 buf;
      topic_id = read_be 40 8 buf;
    })

unfoldable pub validate_shared_memory_header : SharedMemoryHeader → ℕ → ℕ → ShmValidation
unfolding segment_mismatch
validate_shared_memory_header h mapped_size max_message_size =
    if h.magic != shared_memory_magic
    then bad_magic
    else if h.version != shared_memory_version
    then unsupported_version
    else if h.header_size != shared_memory_header_size
        || h.segment_size != mapped_size
        || ltb h.segment_size h.header_size
    then invalid_segment_size
    else if segment_mismatch h.payload_size h.segment_size
    then invalid_segment_size
    else if ltb max_message_size h.payload_size
    then payload_too_large
    else valid

abbrev pub notification_fields : ShmNotification → List Field
notification_fields n =
    (0, 4, n.magic)
    ∷ (4, 2, n.version)
    ∷ (6, 2, n.kind)
    ∷ (8, 2, length n.handle.shm_name)
    ∷ (10, 2, 0)
    ∷ (12, 4, shm_notification_size)
    ∷ (16, 8, n.handle.segment_size)
    ∷ (24, 8, n.handle.payload_size)
    ∷ (32, 8, n.handle.sequence)
    ∷ (40, 8, n.handle.publish_timestamp_ns)
    ∷ (48, 8, n.handle.topic_id)
    ∷ []

unfoldable pub encode_shm_notification : ShmNotification → Option (List ℕ)
encode_shm_notification n =
    if not (is_valid_shared_memory_name n.handle.shm_name)
      || ltb max_shm_name_size (length n.handle.shm_name)
    then none
    else some (
        named_frame shm_notification_size (notification_fields n) shm_notification_header_size
          n.handle.shm_name)

unfoldable pub read_notification : List ℕ → ShmNotification
read_notification buf = record {
  magic = read_be 0 4 buf;
  version = read_be 4 2 buf;
  kind = read_be 6 2 buf;
  handle = record {
    shm_name = slice shm_notification_header_size (read_be 8 2 buf) buf;
    segment_size = read_be 16 8 buf;
    payload_size = read_be 24 8 buf;
    sequence = read_be 32 8 buf;
    publish_timestamp_ns = read_be 40 8 buf;
    topic_id = read_be 48 8 buf;
  };
}

unfoldable pub decode_shm_notification : List ℕ → Option ShmNotification
unfolding read_notification
decode_shm_notification buf =
    if length buf != shm_notification_size
    then none
    else if read_be 8 2 buf == 0
        || ltb max_shm_name_size (read_be 8 2 buf)
        || read_be 10 2 buf != 0
        || read_be 12 4 buf != shm_notification_size
    then none
    else if not (all_zero (drop (shm_notification_header_size + read_be 8 2 buf) buf))
    then none
    else some (read_notification buf)

unfoldable pub validate_shm_notification : ShmNotification → ℕ → ℕ → ShmValidation
unfolding segment_mismatch
validate_shm_notification n max_message_size expected_topic_id =
    if n.magic != shm_notification_magic
    then bad_magic
    else if n.version != shm_notification_version
    then unsupported_version
    else if n.kind != notification_kind
    then bad_kind
    else if not (is_valid_shared_memory_name n.handle.shm_name)
    then invalid_name
    else if segment_mismatch n.handle.payload_size n.handle.segment_size
        || ltb u64_max n.handle.segment_size
    then invalid_segment_size
    else if ltb max_message_size n.handle.payload_size
    then payload_too_large
    else if n.handle.sequence == 0 || n.handle.topic_id != expected_topic_id
    then metadata_mismatch
    else valid

abbrev pub ack_fields : ShmAck → List Field
ack_fields a = (0, 4, a.magic) ∷ (4, 2, a.version) ∷ (6, 2, a.kind) ∷ (8, 8, a.sequence) ∷ []

unfoldable pub encode_shm_ack : ShmAck → List ℕ
encode_shm_ack a = frame shm_ack_size (ack_fields a)

unfoldable pub decode_shm_ack : List ℕ → Option ShmAck
decode_shm_ack buf =
    if length buf != shm_ack_size
    then none
    else some (record {
      magic = read_be 0 4 buf;
      version = read_be 4 2 buf;
      kind = read_be 6 2 buf;
      sequence = read_be 8 8 buf;
    })

unfoldable pub validate_shm_ack : ShmAck → ℕ → ShmValidation
validate_shm_ack a expected_sequence =
    if a.magic != shm_notification_magic
    then bad_magic
    else if a.version != shm_notification_version
    then unsupported_version
    else if a.kind != ack_kind
    then bad_kind
    else if a.sequence != expected_sequence
    then metadata_mismatch
    else valid

unfoldable pub shared_memory_metadata_matches : SharedMemoryHeader → ShmMessageHandle → Bool
shared_memory_metadata_matches header handle =
    header.segment_size == handle.segment_size
    && header.payload_size == handle.payload_size
    && header.sequence == handle.sequence
    && header.publish_timestamp_ns == handle.publish_timestamp_ns
    && header.topic_id == handle.topic_id
