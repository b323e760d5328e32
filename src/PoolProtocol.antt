-- ===== src/PoolProtocol.antt =====
-- Notification and release frames of the memory pool, middleware/src/detail/pool_protocol.hpp and
-- pool_protocol.cpp. A frame is a list of bytes; the null pointer that the decoders also refuse
-- has no counterpart.
pub mod RoundTrip
use cpp_robot_middleware.Prelude.{
  ℕ, ◌+◌, List, [], ◌∷◌, Bool, not, ◌||◌, ◌&&◌, Option, none, some, length, drop, if◌then◌else◌,
  ltb, ◌==◌, ◌!=◌, u64_max,
}
use cpp_robot_middleware.ErrorCode.{
  ErrorCode, ok, invalid_frame, message_too_large, invalid_chunk_handle,
}
use cpp_robot_middleware.Handle.{ChunkHandle, handle_eq}
use cpp_robot_middleware.Wire.{
  Field, frame, named_frame, read_be, slice, all_zero, is_valid_shared_memory_name,
}

abbrev pub pool_notification_magic : ℕ
pool_notification_magic = 0x4D575034

abbrev pub pool_notification_version : ℕ
pool_notification_version = 1

abbrev pub pool_layout_version : ℕ
pool_layout_version = 1

abbrev pub max_pool_name_size : ℕ
max_pool_name_size = 192

abbrev pub pool_notification_header_size : ℕ
pool_notification_header_size = 80

abbrev pub pool_notification_size : ℕ
pool_notification_size = 272

abbrev pub pool_release_size : ℕ
pool_release_size = 40

-- `PoolFrameKind`
abbrev pub notification_kind : ℕ
notification_kind = 1

abbrev pub release_kind : ℕ
release_kind = 2

pub record PoolDescriptor : Type 0 where
  pub shm_name : List ℕ
  pub pool_id : ℕ
  pub segment_size : ℕ
  pub topic_id : ℕ
  pub layout_version : ℕ

pub record PoolNotification : Type 0 where
  pub pool : PoolDescriptor
  pub handle : ChunkHandle
  pub payload_size : ℕ
  pub sequence : ℕ
  pub publish_timestamp_ns : ℕ

pub record PoolRelease : Type 0 where
  pub handle : ChunkHandle
  pub sequence : ℕ

abbrev pub notification_fields : PoolNotification → List Field
notification_fields n =
    (0, 4, pool_notification_magic)
    ∷ (4, 2, pool_notification_version)
    ∷ (6, 2, notification_kind)
    ∷ (8, 4, pool_notification_size)
    ∷ (12, 2, length n.pool.shm_name)
    ∷ (14, 2, n.pool.layout_version)
    ∷ (16, 8, n.pool.segment_size)
    ∷ (24, 8, n.pool.pool_id)
    ∷ (32, 8, n.pool.topic_id)
    ∷ (40, 4, n.handle.chunk_index)
    ∷ (44, 4, n.handle.generation)
    ∷ (48, 8, n.handle.payload_offset)
    ∷ (56, 8, n.payload_size)
    ∷ (64, 8, n.sequence)
    ∷ (72, 8, n.publish_timestamp_ns)
    ∷ []

unfoldable pub encode_pool_notification : PoolNotification → Option (List ℕ)
encode_pool_notification n =
    if not (is_valid_shared_memory_name n.pool.shm_name)
      || ltb max_pool_name_size (length n.pool.shm_name)
    then none
    else some (
        named_frame pool_notification_size (notification_fields n) pool_notification_header_size
          n.pool.shm_name)

-- The fields of a frame that has passed the checks.
unfoldable pub read_notification : List ℕ → PoolNotification
read_notification buf = record {
  pool = record {
    shm_name = slice pool_notification_header_size (read_be 12 2 buf) buf;
    pool_id = read_be 24 8 buf;
    segment_size = read_be 16 8 buf;
    topic_id = read_be 32 8 buf;
    layout_version = read_be 14 2 buf;
  };
  handle = record {
    pool_id = read_be 24 8 buf;
    chunk_index = read_be 40 4 buf;
    generation = read_be 44 4 buf;
    payload_offset = read_be 48 8 buf;
  };
  payload_size = read_be 56 8 buf;
  sequence = read_be 64 8 buf;
  publish_timestamp_ns = read_be 72 8 buf;
}

unfoldable pub decode_pool_notification : List ℕ → Option PoolNotification
unfolding read_notification
decode_pool_notification buf =
    if length buf != pool_notification_size
    then none
    else if read_be 8 4 buf != pool_notification_size
        || read_be 12 2 buf == 0
        || ltb max_pool_name_size (read_be 12 2 buf)
    then none
    else if not (all_zero (drop (pool_notification_header_size + read_be 12 2 buf) buf))
    then none
    else if read_be 0 4 buf != pool_notification_magic
        || read_be 4 2 buf != pool_notification_version
        || read_be 6 2 buf != notification_kind
    then none
    else some (read_notification buf)

unfoldable pub validate_pool_notification : PoolNotification → ℕ → ℕ → ErrorCode
validate_pool_notification n max_message_size expected_topic_id =
    if not (is_valid_shared_memory_name n.pool.shm_name)
      || n.pool.layout_version != pool_layout_version
      || n.pool.segment_size == 0
      || ltb u64_max n.pool.segment_size
      || n.pool.pool_id == 0
      || n.handle.pool_id != n.pool.pool_id
      || n.handle.generation == 0
      || n.sequence == 0
      || n.pool.topic_id != expected_topic_id
    then invalid_frame
    else if ltb max_message_size n.payload_size
    then message_too_large
    else ok

abbrev pub release_fields : PoolRelease → List Field
release_fields r =
    (0, 4, pool_notification_magic)
    ∷ (4, 2, pool_notification_version)
    ∷ (6, 2, release_kind)
    ∷ (8, 8, r.handle.pool_id)
    ∷ (16, 4, r.handle.chunk_index)
    ∷ (20, 4, r.handle.generation)
    ∷ (24, 8, r.handle.payload_offset)
    ∷ (32, 8, r.sequence)
    ∷ []

unfoldable pub encode_pool_release : PoolRelease → List ℕ
encode_pool_release r = frame pool_release_size (release_fields r)

unfoldable pub decode_pool_release : List ℕ → Option PoolRelease
decode_pool_release buf =
    if length buf != pool_release_size
      || read_be 0 4 buf != pool_notification_magic
      || read_be 4 2 buf != pool_notification_version
      || read_be 6 2 buf != release_kind
    then none
    else some (record {
      handle = record {
        pool_id = read_be 8 8 buf;
        chunk_index = read_be 16 4 buf;
        generation = read_be 20 4 buf;
        payload_offset = read_be 24 8 buf;
      };
      sequence = read_be 32 8 buf;
    })

unfoldable pub validate_pool_release : PoolRelease → ChunkHandle → ℕ → ErrorCode
unfolding handle_eq
validate_pool_release r expected_handle expected_sequence =
    if not (handle_eq r.handle expected_handle) || r.sequence != expected_sequence
    then invalid_chunk_handle
    else ok
