-- ===== src/Handle.antt =====
-- `struct ChunkHandle` of middleware/src/detail/pool_protocol.hpp, and its comparison.
use cpp_robot_middleware.Prelude.{ℕ, Bool, ◌&&◌, ◌==◌}

pub record ChunkHandle : Type 0 where
  pub pool_id : ℕ
  pub chunk_index : ℕ
  pub generation : ℕ
  pub payload_offset : ℕ

unfoldable pub handle_eq : ChunkHandle → ChunkHandle → Bool
handle_eq left right =
    left.pool_id == right.pool_id
    && left.chunk_index == right.chunk_index
    && left.generation == right.generation
    && left.payload_offset == right.payload_offset

-- `ChunkHandle{}`, what a fresh slot holds.
abbrev pub no_handle : ChunkHandle
no_handle = record { pool_id = 0; chunk_index = 0; generation = 0; payload_offset = 0 }
