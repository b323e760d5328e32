-- ===== src/QueueProtocol.antt =====
-- Wake and release frames of the subscriber queue, middleware/src/detail/queue_protocol.hpp and
-- queue_protocol.cpp.
pub mod RoundTrip
use cpp_robot_middleware.Prelude.{
  ℕ, ◌+◌, List, [], ◌∷◌, Bool, not, ◌||◌, ◌&&◌, Option, none, some, length, drop, if◌then◌else◌,
  ltb, ◌==◌, ◌!=◌, u64_max, bytes_eq,
}
use cpp_robot_middleware.ErrorCode.{
  ErrorCode, ok, invalid_frame, drop_newest, drop_oldest, block_with_timeout,
}
use cpp_robot_middleware.Handle.{ChunkHandle}
use cpp_robot_middleware.Wire.{
  Field, frame, named_frame, read_be, slice, all_zero, is_valid_shared_memory_name,
}
use cpp_robot_middleware.PoolProtocol.{PoolDescriptor, pool_layout_version, max_pool_name_size}

abbrev pub queue_protocol_magic : ℕ
queue_protocol_magic = 0x4D575135

abbrev pub queue_protocol_version : ℕ
queue_protocol_version = 1

abbrev pub queue_layout_version : ℕ
queue_layout_version = 3

abbrev pub queue_wake_header_size : ℕ
queue_wake_header_size = 80

abbrev pub queue_wake_size : ℕ
queue_wake_size = 272

abbrev pub queue_release_size : ℕ
queue_release_size = 32

-- `QueueFrameKind`
abbrev pub wake_kind : ℕ
wake_kind = 1

abbrev pub release_kind : ℕ
release_kind = 2

pub record QueueDescriptor : Type 0 where
  pub shm_name : List ℕ
  pub queue_id : ℕ
  pub segment_size : ℕ
  pub capacity : ℕ
  pub layout_version : ℕ
  pub overflow_policy : ℕ
  pub block_timeout_ms : ℕ

unfoldable pub descriptor_eq : QueueDescriptor → QueueDescriptor → Bool
descriptor_eq left right =
    bytes_eq left.shm_name right.shm_name
    && left.queue_id == right.queue_id
    && left.segment_size == right.segment_size
    && left.capacity == right.capacity
    && left.layout_version == right.layout_version
    && left.overflow_policy == right.overflow_policy
    && left.block_timeout_ms == right.block_timeout_ms

unfoldable pub valid_overflow_policy : ℕ → Bool
valid_overflow_policy policy =
    policy == drop_newest || policy == drop_oldest || policy == block_with_timeout

pub record QueueWake : Type 0 where
  pub pool : PoolDescriptor
  pub queue_id : ℕ

abbrev pub wake_fields : QueueWake → List Field
wake_fields w =
    (0, 4, queue_protocol_magic)
    ∷ (4, 2, queue_protocol_version)
    ∷ (6, 2, wake_kind)
    ∷ (8, 4, queue_wake_size)
    ∷ (12, 2, length w.pool.shm_name)
    ∷ (14, 2, w.pool.layout_version)
    ∷ (16, 8, w.pool.segment_size)
    ∷ (24, 8, w.pool.pool_id)
    ∷ (32, 8, w.pool.topic_id)
    ∷ (40, 8, w.queue_id)
    ∷ []

unfoldable pub encode_queue_wake : QueueWake → Option (List ℕ)
encode_queue_wake w =
    if not (is_valid_shared_memory_name w.pool.shm_name)
      || ltb max_pool_name_size (length w.pool.shm_name)
      || w.queue_id == 0
    then none
    else some (named_frame queue_wake_size (wake_fields w) queue_wake_header_size w.pool.shm_name)

unfoldable pub read_wake : List ℕ → QueueWake
read_wake buf = record {
  pool = record {
    shm_name = slice queue_wake_header_size (read_be 12 2 buf) buf;
    pool_id = read_be 24 8 buf;
    segment_size = read_be 16 8 buf;
    topic_id = read_be 32 8 buf;
    layout_version = read_be 14 2 buf;
  };
  queue_id = read_be 40 8 buf;
}

unfoldable pub decode_queue_wake : List ℕ → Option QueueWake
unfolding read_wake
decode_queue_wake buf =
    if length buf != queue_wake_size
      || read_be 0 4 buf != queue_protocol_magic
      || read_be 4 2 buf != queue_protocol_version
      || read_be 6 2 buf != wake_kind
      || read_be 8 4 buf != queue_wake_size
    then none
    else if read_be 12 2 buf == 0 || ltb max_pool_name_size (read_be 12 2 buf)
    then none
    else if not (all_zero (drop (queue_wake_header_size + read_be 12 2 buf) buf))
    then none
    else some (read_wake buf)

unfoldable pub validate_queue_wake : QueueWake → ℕ → ℕ → ErrorCode
validate_queue_wake w expected_queue_id expected_topic_id =
    if not (is_valid_shared_memory_name w.pool.shm_name)
      || w.pool.layout_version != pool_layout_version
      || w.pool.segment_size == 0
      || ltb u64_max w.pool.segment_size
      || w.pool.pool_id == 0
      || w.pool.topic_id != expected_topic_id
      || w.queue_id == 0
      || w.queue_id != expected_queue_id
    then invalid_frame
    else ok

abbrev pub queue_release_fields : ChunkHandle → List Field
queue_release_fields h =
    (0, 4, queue_protocol_magic)
    ∷ (4, 2, queue_protocol_version)
    ∷ (6, 2, release_kind)
    ∷ (8, 8, h.pool_id)
    ∷ (16, 4, h.chunk_index)
    ∷ (20, 4, h.generation)
    ∷ (24, 8, h.payload_offset)
    ∷ []

unfoldable pub encode_queue_release : ChunkHandle → List ℕ
encode_queue_release h = frame queue_release_size (queue_release_fields h)

-- A handle whose pool number or generation is 0 is refused.
unfoldable pub decode_queue_release : List ℕ → Option ChunkHandle
decode_queue_release buf =
    if length buf != queue_release_size
      || read_be 0 4 buf != queue_protocol_magic
      || read_be 4 2 buf != queue_protocol_version
      || read_be 6 2 buf != release_kind
    then none
    else if read_be 8 8 buf == 0 || read_be 20 4 buf == 0
    then none
    else some (record {
      pool_id = read_be 8 8 buf;
      chunk_index = read_be 16 4 buf;
      generation = read_be 20 4 buf;
      payload_offset = read_be 24 8 buf;
    })
