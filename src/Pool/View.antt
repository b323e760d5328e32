-- ===== src/Pool/View.antt =====
-- `MemoryPoolView::open` and `read`, memory_pool.cpp: the subscriber's read-only mapping of a pool. The
-- segment is not trusted: `open` gets the decoded metadata and the chunk headers as they are found.
use cpp_robot_middleware.Prelude.{
  ℕ, ◌+◌, ◌-◌, ◌%◌, Bool, true, false, ◌||◌, ◌&&◌, not, List, [], ◌∷◌, Option, none, some, length,
  get_or, ltb, leb, ◌==◌, ◌!=◌, if◌then◌else◌, u64_max,
}
use cpp_robot_middleware.ErrorCode.{ErrorCode, ok, invalid_chunk_handle, invalid_shared_memory}
use cpp_robot_middleware.Handle.{ChunkHandle}
use cpp_robot_middleware.PoolProtocol.{PoolDescriptor, pool_layout_version}
use cpp_robot_middleware.Pool.{
  SizeClassMetadata, ChunkDirectoryEntry, ChunkHeader, is_published, no_entry, no_chunk, no_class,
}
use cpp_robot_middleware.Pool.Construct.{
  pool_header_size, size_class_metadata_size, chunk_directory_entry_size, chunk_alignment,
  checked_multiply,
}

-- `kMemoryPoolMagic`
abbrev pub memory_pool_magic : ℕ
memory_pool_magic = 0x4D57504C

pub record PoolHeader : Type 0 where
  pub magic : ℕ
  pub version : ℕ
  pub header_size : ℕ
  pub segment_size : ℕ
  pub pool_id : ℕ
  pub topic_id : ℕ
  pub owner_pid : ℕ
  pub size_class_count : ℕ
  pub chunk_count : ℕ
  pub size_class_offset : ℕ
  pub chunk_directory_offset : ℕ
  pub chunk_storage_offset : ℕ

unfoldable pub range_inside : ℕ → ℕ → ℕ → Bool
range_inside offset size limit = leb offset limit && leb size (limit - offset)

-- What `open` sees of a segment: the mapped size, the decoded header, class table and directory, and
-- the chunk header at the offset that each directory entry names.
pub record Segment : Type 0 where
  pub mapped_size : ℕ
  pub header : PoolHeader
  pub size_classes : List SizeClassMetadata
  pub directory : List ChunkDirectoryEntry
  pub chunks : List ChunkHeader

unfoldable pub valid_pool_descriptor : PoolDescriptor → ℕ → Bool
valid_pool_descriptor d expected_topic_id = not (
    d.pool_id == 0
    || ltb d.segment_size pool_header_size
    || ltb u64_max d.segment_size
    || d.topic_id != expected_topic_id
    || d.layout_version != pool_layout_version)

unfoldable pub valid_header : PoolDescriptor → ℕ → PoolHeader → ℕ → Bool
valid_header d expected_topic_id h mapped_size = not (
    h.magic != memory_pool_magic
    || h.version != pool_layout_version
    || h.header_size != pool_header_size
    || h.segment_size != mapped_size
    || h.pool_id != d.pool_id
    || h.topic_id != expected_topic_id
    || h.size_class_count == 0
    || h.chunk_count == 0
    || h.size_class_offset != pool_header_size)

-- A range whose size is a product that may overflow.
abbrev pub table_inside : ℕ → Option ℕ → ℕ → Bool
table_inside offset none limit = false
table_inside offset (some bytes) limit = range_inside offset bytes limit

unfoldable pub valid_tables : PoolHeader → ℕ → Bool
unfolding checked_multiply range_inside
valid_tables h mapped_size = not (
    ltb u64_max h.size_class_offset
    || ltb u64_max h.chunk_directory_offset
    || ltb u64_max h.chunk_storage_offset
    || not (
        table_inside h.size_class_offset
          (checked_multiply h.size_class_count size_class_metadata_size) mapped_size)
    || not (
        table_inside h.chunk_directory_offset
          (checked_multiply h.chunk_count chunk_directory_entry_size) mapped_size)
    || ltb mapped_size h.chunk_storage_offset
    || h.chunk_storage_offset % chunk_alignment != 0)

-- The loop over the class table, with what the previous classes came to.
unfoldable pub valid_classes : List SizeClassMetadata → ℕ → ℕ → ℕ → Bool
valid_classes [] previous_capacity expected_first_index chunk_count =
    expected_first_index == chunk_count
valid_classes (m ∷ ms) previous_capacity expected_first_index chunk_count =
    not (
      m.capacity == 0
      || leb m.capacity previous_capacity
      || m.first_chunk_index != expected_first_index
      || m.chunk_count == 0
      || ltb chunk_count m.chunk_count
      || ltb (chunk_count - m.chunk_count) expected_first_index)
    && valid_classes ms m.capacity (expected_first_index + m.chunk_count) chunk_count

-- The tests of a directory entry but the last.
unfoldable pub misplaced : List SizeClassMetadata → ℕ → ChunkDirectoryEntry → Bool
misplaced size_classes previous_end e =
    leb (length size_classes) e.size_class_index
    || e.capacity != (get_or size_classes e.size_class_index no_class).capacity
    || ltb (u64_max - chunk_alignment) e.header_offset
    || ltb (u64_max - e.capacity) e.payload_offset
    || e.header_offset % chunk_alignment != 0
    || e.payload_offset != e.header_offset + chunk_alignment
    || e.payload_offset % chunk_alignment != 0
    || ltb e.header_offset previous_end
    || ltb u64_max e.header_offset
    || ltb u64_max e.payload_offset
    || ltb u64_max e.capacity

unfoldable pub valid_entry : List SizeClassMetadata → ℕ → ℕ → ChunkDirectoryEntry → Bool
unfolding range_inside misplaced
valid_entry size_classes mapped_size previous_end e = not (
    misplaced size_classes previous_end e
    || not (range_inside e.payload_offset e.capacity mapped_size))

unfoldable pub chunk_agrees : PoolDescriptor → ChunkDirectoryEntry → ChunkHeader → Bool
chunk_agrees d e c =
    c.capacity == e.capacity
    && c.size_class_index == e.size_class_index
    && c.topic_id == d.topic_id
    && c.pool_id == d.pool_id

-- The loop over the directory.
unfoldable pub valid_directory :
    PoolDescriptor
    → List SizeClassMetadata
    → ℕ
    → ℕ
    → List ChunkDirectoryEntry
    → List ChunkHeader
    → Bool
unfolding valid_entry chunk_agrees
valid_directory d size_classes mapped_size previous_end [] chunks = true
valid_directory d size_classes mapped_size previous_end (e ∷ es) chunks =
    valid_entry size_classes mapped_size previous_end e
    && chunk_agrees d e (get_or chunks 0 no_chunk)
    && valid_directory d size_classes mapped_size (e.payload_offset + e.capacity) es (rest chunks)
  where
    rest : List ChunkHeader → List ChunkHeader
    rest [] = []
    rest (c ∷ cs) = cs

-- Whether `open` returns a view; it throws InvalidSharedMemory else.
unfoldable pub view_opens : PoolDescriptor → ℕ → Segment → Bool
unfolding valid_pool_descriptor valid_header valid_tables valid_classes valid_directory
view_opens d expected_topic_id s =
    valid_pool_descriptor d expected_topic_id
    && valid_header d expected_topic_id s.header s.mapped_size
    && valid_tables s.header s.mapped_size
    && valid_classes s.size_classes 0 0 s.header.chunk_count
    && valid_directory d s.size_classes s.mapped_size s.header.chunk_storage_offset s.directory
        s.chunks

-- The payload pointer is its offset in the segment.
pub record ChunkViewResult : Type 0 where
  pub error : ErrorCode
  pub payload : Option ℕ
  pub payload_size : ℕ
  pub sequence : ℕ
  pub publish_timestamp_ns : ℕ

abbrev pub no_view : ErrorCode → ChunkViewResult
no_view e = record {
  error = e;
  payload = none;
  payload_size = 0;
  sequence = 0;
  publish_timestamp_ns = 0;
}

-- The two tests of `read`.
abbrev pub wrong_handle : PoolDescriptor → List ChunkDirectoryEntry → ChunkHandle → Bool
wrong_handle d directory handle =
    handle.pool_id != d.pool_id
    || leb (length directory) handle.chunk_index
    || handle.generation == 0
    || handle.payload_offset != (get_or directory handle.chunk_index no_entry).payload_offset

abbrev pub unreadable : PoolDescriptor → ChunkDirectoryEntry → ChunkHeader → ChunkHandle → ℕ → Bool
unreadable d e h handle max_message_size =
    not (is_published h.state)
    || h.generation != handle.generation
    || h.pool_id != d.pool_id
    || h.topic_id != d.topic_id
    || h.capacity != e.capacity
    || h.size_class_index != e.size_class_index
    || ltb h.capacity h.payload_size
    || ltb max_message_size h.payload_size
    || h.ref_count == 0
    || h.sequence == 0

-- `read`: `directory` was copied by `open`, `chunks` are the headers in shared memory now.
unfoldable pub read :
    PoolDescriptor → List ChunkDirectoryEntry → List ChunkHeader → ChunkHandle → ℕ → ChunkViewResult
read d directory chunks handle max_message_size =
    let e = get_or directory handle.chunk_index no_entry in
    let h = get_or chunks handle.chunk_index no_chunk in
    if wrong_handle d directory handle
    then no_view invalid_chunk_handle
    else if unreadable d e h handle max_message_size
    then no_view invalid_shared_memory
    else record {
      error = ok;
      payload = some e.payload_offset;
      payload_size = h.payload_size;
      sequence = h.sequence;
      publish_timestamp_ns = h.publish_timestamp_ns;
    }
