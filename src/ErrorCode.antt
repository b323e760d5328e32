-- ===== src/ErrorCode.antt =====
-- middleware/include/mw/result.hpp and the enumerations of middleware/include/mw/config.hpp.
use cpp_robot_middleware.Prelude.{ℕ, Bool, ◌&&◌, ltb}

-- `enum class ErrorCode`, in the order of its numbers.
pub data ErrorCode : Type 0 where
  ok invalid_argument invalid_state message_too_large connection_lost io_error timeout : ErrorCode
  invalid_frame registry_unavailable duplicate_node duplicate_publisher type_mismatch : ErrorCode
  topic_not_found invalid_control_message unsupported_protocol_version unknown_opcode : ErrorCode
  invalid_request_id not_registered endpoint_not_found transport_mismatch : ErrorCode
  shared_memory_error shared_memory_not_found invalid_shared_memory cleanup_failed : ErrorCode
  pool_exhausted invalid_chunk_handle duplicate_release queue_full queue_timeout : ErrorCode
  queue_closed unsupported_transport : ErrorCode

-- The three policies of `enum class OverflowPolicy`, by their numbers on the wire.
abbrev pub drop_newest : ℕ
drop_newest = 1

abbrev pub drop_oldest : ℕ
drop_oldest = 2

abbrev pub block_with_timeout : ℕ
block_with_timeout = 3

-- `struct LivenessConfig`, in milliseconds.
pub record LivenessConfig : Type 0 where
  pub heartbeat_interval : ℕ
  pub suspect_timeout : ℕ
  pub dead_timeout : ℕ

unfoldable pub valid_liveness_config : LivenessConfig → Bool
valid_liveness_config c =
    ltb 0 c.heartbeat_interval
    && ltb c.heartbeat_interval c.suspect_timeout
    && ltb c.suspect_timeout c.dead_timeout
