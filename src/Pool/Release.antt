-- ===== src/Pool/Release.antt =====
-- `addReference`, `release`, `reclaim`, `cancel` and `snapshot`, memory_pool.cpp.
use cpp_robot_middleware.Prelude.{
  ℕ, ◌+◌, ◌-◌, Bool, false, ◌||◌, not, ◌∷◌, Option, none, some, length, set, ltb, ◌==◌, ◌!=◌,
  if◌then◌else◌, inc64, u32_max,
}
use cpp_robot_middleware.ErrorCode.{
  ErrorCode, ok, invalid_chunk_handle, invalid_state, duplicate_release,
}
use cpp_robot_middleware.Handle.{ChunkHandle}
use cpp_robot_middleware.Pool.{
  MemoryPool, ChunkHeader, free, released, is_loaned, is_published, is_released, chunk_header,
  free_list, set_chunk, known,
}

pub record ReleaseResult : Type 0 where
  pub error : ErrorCode
  pub remaining_references : ℕ
  pub became_released : Bool

unfoldable pub add_reference : MemoryPool → ChunkHandle → MemoryPool × ErrorCode
unfolding known
add_reference p handle =
    let header = chunk_header p handle.chunk_index in
    if not (known p handle)
    then (p, invalid_chunk_handle)
    else if not (is_published header.state)
    then (p, invalid_state)
    else if header.ref_count == 0 || header.ref_count == u32_max
    then (p, invalid_state)
    else (set_chunk p handle.chunk_index (record header { ref_count = header.ref_count + 1 }), ok)

abbrev pub release_header : ChunkHeader → ChunkHeader
release_header h = record h {
  ref_count = h.ref_count - 1;
  state = if h.ref_count - 1 == 0 then released else h.state;
}

unfoldable pub release : MemoryPool → ChunkHandle → MemoryPool × ReleaseResult
unfolding known
release p handle =
    let header = chunk_header p handle.chunk_index in
    if not (known p handle)
    then (
      p,
      record { error = invalid_chunk_handle; remaining_references = 0; became_released = false },
    )
    else if not (is_published header.state)
    then (
      p,
      record {
        error = duplicate_release;
        remaining_references = header.ref_count;
        became_released = false;
      },
    )
    else if header.ref_count == 0
    then (
      p,
      record { error = duplicate_release; remaining_references = 0; became_released = false },
    )
    else (
      record p {
        chunks = set p.chunks handle.chunk_index (release_header header);
        instrumentation = record p.instrumentation { releases = inc64 p.instrumentation.releases };
      },
      record {
        error = ok;
        remaining_references = header.ref_count - 1;
        became_released = header.ref_count - 1 == 0;
      },
    )

-- A chunk becomes free and goes to the back of the free list of its class.
abbrev pub give_back : MemoryPool → ℕ → ChunkHeader → MemoryPool
give_back p index header = record p {
  chunks = set p.chunks index header;
  free_lists =
      set p.free_lists header.size_class_index (index ∷ free_list p header.size_class_index);
  instrumentation = record p.instrumentation { reclaims = inc64 p.instrumentation.reclaims };
}

unfoldable pub reclaim : MemoryPool → ChunkHandle → MemoryPool × ErrorCode
unfolding known
reclaim p handle =
    let header = chunk_header p handle.chunk_index in
    if not (known p handle)
    then (p, invalid_chunk_handle)
    else if not (is_released header.state) || header.ref_count != 0
    then (p, invalid_state)
    else (
      give_back p handle.chunk_index (record header {
        payload_size = 0;
        sequence = 0;
        publish_timestamp_ns = 0;
        state = free;
      }),
      ok,
    )

unfoldable pub cancel : MemoryPool → ChunkHandle → MemoryPool × ErrorCode
unfolding known
cancel p handle =
    let header = chunk_header p handle.chunk_index in
    if not (known p handle)
    then (p, invalid_chunk_handle)
    else if not (is_loaned header.state)
    then (p, invalid_state)
    else (give_back p handle.chunk_index (record header { payload_size = 0; state = free }), ok)

-- `none` is the exception for an index out of range. The header has the fields of a snapshot.
unfoldable pub snapshot : MemoryPool → ℕ → Option ChunkHeader
snapshot p index = if ltb index (length p.directory) then some (chunk_header p index) else none
