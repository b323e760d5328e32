-- ===== src/Pool.antt =====
-- The publisher's memory pool, middleware/src/detail/memory_pool.hpp and memory_pool.cpp: its data.
-- The segment's chunk headers are a list, its payload bytes a function of the offset, and every
-- operation returns the pool that it leaves behind. All operations run under the pool's mutex.
pub mod Allocate
pub mod Publish
pub mod Release
pub mod Construct
pub mod Invariant
pub mod Cases
pub mod Allocation
pub mod Preservation
pub mod Lifecycle
pub mod References
pub mod Handles
pub mod Layout
pub mod Apart
pub mod Fresh
pub mod View
pub mod Reading
pub mod Metadata
mod Tests
use cpp_robot_middleware.Prelude.{
  ℕ, zero, suc, Bool, true, false, ◌&&◌, List, [], ◌∷◌, length, get_or, set, ltb, ◌==◌,
}
use cpp_robot_middleware.Handle.{ChunkHandle}
use cpp_robot_middleware.PoolProtocol.{PoolDescriptor}

pub data ChunkState : Type 0 where
  free loaned published released : ChunkState

abbrev pub is_free : ChunkState → Bool
is_free free = true
is_free _ = false

abbrev pub is_loaned : ChunkState → Bool
is_loaned loaned = true
is_loaned _ = false

abbrev pub is_published : ChunkState → Bool
is_published published = true
is_published _ = false

abbrev pub is_released : ChunkState → Bool
is_released released = true
is_released _ = false

pub record SizeClassMetadata : Type 0 where
  pub capacity : ℕ
  pub first_chunk_index : ℕ
  pub chunk_count : ℕ

pub record ChunkDirectoryEntry : Type 0 where
  pub header_offset : ℕ
  pub payload_offset : ℕ
  pub capacity : ℕ
  pub size_class_index : ℕ

-- `struct ChunkHeader`; the two atomics are plain values, since only the publisher's process
-- changes them, under the mutex.
pub record ChunkHeader : Type 0 where
  pub ref_count : ℕ
  pub state : ChunkState
  pub payload_size : ℕ
  pub capacity : ℕ
  pub size_class_index : ℕ
  pub generation : ℕ
  pub sequence : ℕ
  pub publish_timestamp_ns : ℕ
  pub topic_id : ℕ
  pub pool_id : ℕ

pub record PoolInstrumentation : Type 0 where
  pub shm_create_calls : ℕ
  pub truncate_calls : ℕ
  pub writable_map_calls : ℕ
  pub allocations : ℕ
  pub payload_copies : ℕ
  pub releases : ℕ
  pub reclaims : ℕ
  pub allocation_failures : ℕ

-- A free list has the element that `back()` returns at its head.
pub record MemoryPool : Type 0 where
  pub descriptor : PoolDescriptor
  pub size_classes : List SizeClassMetadata
  pub directory : List ChunkDirectoryEntry
  pub chunks : List ChunkHeader
  pub free_lists : List (List ℕ)
  pub payload : ℕ → ℕ
  pub instrumentation : PoolInstrumentation

-- What a read out of range gives; the operations check the index first.
abbrev pub no_chunk : ChunkHeader
no_chunk = record {
  ref_count = 0;
  state = released;
  payload_size = 0;
  capacity = 0;
  size_class_index = 0;
  generation = 0;
  sequence = 0;
  publish_timestamp_ns = 0;
  topic_id = 0;
  pool_id = 0;
}

abbrev pub no_entry : ChunkDirectoryEntry
no_entry = record { header_offset = 0; payload_offset = 0; capacity = 0; size_class_index = 0 }

abbrev pub no_class : SizeClassMetadata
no_class = record { capacity = 0; first_chunk_index = 0; chunk_count = 0 }

abbrev pub size_class : MemoryPool → ℕ → SizeClassMetadata
size_class p c = get_or p.size_classes c no_class

-- `*chunkHeader(index)`
abbrev pub chunk_header : MemoryPool → ℕ → ChunkHeader
chunk_header p i = get_or p.chunks i no_chunk

abbrev pub entry : MemoryPool → ℕ → ChunkDirectoryEntry
entry p i = get_or p.directory i no_entry

abbrev pub free_list : MemoryPool → ℕ → List ℕ
free_list p c = get_or p.free_lists c []

abbrev pub set_chunk : MemoryPool → ℕ → ChunkHeader → MemoryPool
set_chunk p i h = record p { chunks = set p.chunks i h }

unfoldable pub handle_matches : MemoryPool → ChunkHandle → ChunkHeader → Bool
handle_matches p handle header =
    handle.pool_id == p.descriptor.pool_id
    && handle.generation == header.generation
    && handle.payload_offset == (entry p handle.chunk_index).payload_offset

-- The two checks that every operation on a handle begins with; both fail with InvalidChunkHandle.
unfoldable pub known : MemoryPool → ChunkHandle → Bool
unfolding handle_matches
known p handle =
    ltb handle.chunk_index (length p.directory)
    && handle_matches p handle (chunk_header p handle.chunk_index)
