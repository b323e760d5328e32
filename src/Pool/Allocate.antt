-- ===== src/Pool/Allocate.antt =====
-- `MemoryPool::allocate`, memory_pool.cpp.
use cpp_robot_middleware.Prelude.{
  ℕ, suc, ◌%◌, ◌^◌, ◌||◌, not, List, [], ◌∷◌, Option, none, some, set, leb, ◌==◌, ◌!=◌,
  if◌then◌else◌, inc32, inc64,
}
use cpp_robot_middleware.ErrorCode.{ErrorCode, ok, message_too_large, pool_exhausted, invalid_state}
use cpp_robot_middleware.Handle.{ChunkHandle, no_handle}
use cpp_robot_middleware.Pool.{
  MemoryPool, SizeClassMetadata, ChunkHeader, is_free, loaned, chunk_header, entry, free_list,
}

pub record AllocationResult : Type 0 where
  pub error : ErrorCode
  pub handle : ChunkHandle
  pub capacity : ℕ

abbrev pub shifted : Option ℕ → Option ℕ
shifted none = none
shifted (some i) = some (suc i)

-- `std::find_if` for the first class whose capacity suffices, as its index.
unfoldable pub find_class : List SizeClassMetadata → ℕ → Option ℕ
find_class [] payload_size = none
find_class (c ∷ cs) payload_size =
    if leb payload_size c.capacity then some 0 else shifted (find_class cs payload_size)

-- `++generation`, past 0.
abbrev pub next_generation : ℕ → ℕ
next_generation g = if inc32 g == 0 then 1 else inc32 g

abbrev pub failed : ErrorCode → AllocationResult
failed e = record { error = e; handle = no_handle; capacity = 0 }

abbrev pub loan_header : ChunkHeader → ℕ → ChunkHeader
loan_header h payload_size = record h {
  generation = next_generation h.generation;
  payload_size = payload_size % 2 ^ 32;
  sequence = 0;
  publish_timestamp_ns = 0;
  state = loaned;
}

-- The chunk at the back of a free list is taken. One that is not free goes back.
unfoldable pub take_chunk : MemoryPool → ℕ → ℕ → ℕ → List ℕ → MemoryPool × AllocationResult
take_chunk p payload_size class_index index rest =
    let header = chunk_header p index in
    if not (is_free header.state) || header.ref_count != 0 then (p, failed invalid_state) else (
      record p {
        chunks = set p.chunks index (loan_header header payload_size);
        free_lists = set p.free_lists class_index rest;
        instrumentation = record p.instrumentation {
          allocations = inc64 p.instrumentation.allocations;
        };
      },
      record {
        error = ok;
        handle = record {
          pool_id = p.descriptor.pool_id;
          chunk_index = index;
          generation = next_generation header.generation;
          payload_offset = (entry p index).payload_offset;
        };
        capacity = header.capacity;
      },
    )

unfoldable pub allocate_from : MemoryPool → ℕ → ℕ → List ℕ → MemoryPool × AllocationResult
unfolding take_chunk
allocate_from p payload_size class_index [] = (
  record p {
    instrumentation = record p.instrumentation {
      allocation_failures = inc64 p.instrumentation.allocation_failures;
    };
  },
  failed pool_exhausted,
)
allocate_from p payload_size class_index (index ∷ rest) =
    take_chunk p payload_size class_index index rest

unfoldable pub allocate_in : MemoryPool → ℕ → Option ℕ → MemoryPool × AllocationResult
unfolding allocate_from
allocate_in p payload_size none = (p, failed message_too_large)
allocate_in p payload_size (some class_index) =
    allocate_from p payload_size class_index (free_list p class_index)

unfoldable pub allocate : MemoryPool → ℕ → MemoryPool × AllocationResult
unfolding allocate_in find_class
allocate p payload_size = allocate_in p payload_size (find_class p.size_classes payload_size)
