-- ===== src/Pool/Construct.antt =====
-- `makeLayout`, `requiredSegmentSize`, `create` and the constructor, memory_pool.cpp. `none` stands
-- for the exceptions that `makeLayout` and `create` throw. The segment that the operating system
-- gives is one of zero bytes, with the chunk headers constructed in it.
use cpp_robot_middleware.Prelude.{
  ℕ, zero, suc, ◌+◌, ◌-◌, ◌*◌, ◌/◌, ◌%◌, ◌||◌, ◌&&◌, List, [], ◌∷◌, ◌++◌, Option, none, some,
  and_then, length, get_or, set, replicate, map, ltb, leb, ◌==◌, ◌!=◌, if◌then◌else◌, u32_max,
  u64_max, ◌^◌,
}
use cpp_robot_middleware.PoolProtocol.{PoolDescriptor, pool_layout_version}
use cpp_robot_middleware.Pool.{
  MemoryPool, SizeClassMetadata, ChunkDirectoryEntry, ChunkHeader, free,
}

abbrev pub pool_header_size : ℕ
pool_header_size = 80

abbrev pub size_class_metadata_size : ℕ
size_class_metadata_size = 24

abbrev pub chunk_directory_entry_size : ℕ
chunk_directory_entry_size = 32

-- Also `sizeof(ChunkHeader)`, by the source's static assertion.
abbrev pub chunk_alignment : ℕ
chunk_alignment = 64

pub record MemoryPoolClassConfig : Type 0 where
  pub chunk_size : ℕ
  pub chunk_count : ℕ

unfoldable pub checked_add : ℕ → ℕ → Option ℕ
checked_add left right = if ltb (u64_max - right) left then none else some (left + right)

unfoldable pub checked_multiply : ℕ → ℕ → Option ℕ
checked_multiply left right =
    if left != 0 && ltb (u64_max / left) right then none else some (left * right)

unfoldable pub checked_align : ℕ → ℕ → Option ℕ
unfolding checked_add
checked_align value alignment =
    let remainder = value % alignment in
    if remainder == 0 then some value else checked_add value (alignment - remainder)

-- The classes, and the number of chunks, from what the previous classes came to.
unfoldable pub make_classes :
    List MemoryPoolClassConfig → ℕ → ℕ → Option (List SizeClassMetadata × ℕ)
make_classes [] previous_capacity total_chunks = some ([], total_chunks)
make_classes (item ∷ items) previous_capacity total_chunks =
    let rest = make_classes items item.chunk_size (total_chunks + item.chunk_count) in
    if item.chunk_size == 0
      || ltb u32_max item.chunk_size
      || item.chunk_count == 0
      || leb item.chunk_size previous_capacity
      || ltb (u32_max - item.chunk_count) total_chunks
    then none
    else and_then rest (λ r. some (
      record {
        capacity = item.chunk_size;
        first_chunk_index = total_chunks;
        chunk_count = item.chunk_count;
      }
          ∷ r.0,
      r.1,
    ))

-- One chunk: its entry, and the offset after it.
unfoldable pub place_chunk : ℕ → ℕ → ℕ → Option (ChunkDirectoryEntry × ℕ)
unfolding checked_align checked_add
place_chunk class_index capacity next_offset =
    and_then (checked_align next_offset chunk_alignment) (λ header_offset.
      and_then (checked_add header_offset chunk_alignment) (λ payload_offset.
        and_then (checked_add payload_offset capacity) (λ chunk_end.
          and_then (checked_align chunk_end chunk_alignment) (λ next. some (
            record {
              header_offset = header_offset;
              payload_offset = payload_offset;
              capacity = capacity;
              size_class_index = class_index;
            },
            next,
          )))))

-- `chunk_count` chunks of one class, then the classes after it.
unfoldable pub place_chunks : ℕ → ℕ → ℕ → ℕ → Option (List ChunkDirectoryEntry × ℕ)
unfolding place_chunk
place_chunks zero class_index capacity next_offset = some ([], next_offset)
place_chunks (suc count) class_index capacity next_offset =
    and_then (place_chunk class_index capacity next_offset)
      (λ c. and_then (place_chunks count class_index capacity c.1) (λ r. some (c.0 ∷ r.0, r.1)))

unfoldable pub place_classes :
    List SizeClassMetadata → ℕ → ℕ → Option (List ChunkDirectoryEntry × ℕ)
unfolding place_chunks
place_classes [] class_index next_offset = some ([], next_offset)
place_classes (m ∷ ms) class_index next_offset =
    and_then (place_chunks m.chunk_count class_index m.capacity next_offset)
      (λ c. and_then (place_classes ms (suc class_index) c.1) (λ r. some (c.0 ++ r.0, r.1)))

pub record PoolLayout : Type 0 where
  pub size_classes : List SizeClassMetadata
  pub directory : List ChunkDirectoryEntry
  pub segment_size : ℕ
  pub chunk_directory_offset : ℕ
  pub chunk_storage_offset : ℕ

-- The offsets of the directory and of the storage.
unfoldable pub metadata_offsets : ℕ → ℕ → Option (ℕ × ℕ)
unfolding checked_multiply checked_add checked_align
metadata_offsets classes chunks =
    and_then (checked_multiply classes size_class_metadata_size) (λ class_bytes.
      and_then (checked_multiply chunks chunk_directory_entry_size) (λ directory_bytes.
        and_then (checked_add pool_header_size class_bytes) (λ directory_offset.
          and_then (checked_add directory_offset directory_bytes) (λ storage.
            and_then (checked_align storage chunk_alignment)
              (λ storage_offset. some (directory_offset, storage_offset))))))

unfoldable pub make_layout : List MemoryPoolClassConfig → Option PoolLayout
unfolding make_classes metadata_offsets place_classes
make_layout config =
    if length config == 0 || ltb u32_max (length config)
    then none
    else and_then (make_classes config 0 0) (λ c. and_then (metadata_offsets (length c.0) c.1) (λ o.
      and_then (place_classes c.0 0 o.1) (λ d. some (record {
        size_classes = c.0;
        directory = d.0;
        segment_size = d.1;
        chunk_directory_offset = o.0;
        chunk_storage_offset = o.1;
      }))))

unfoldable pub required_segment_size : List MemoryPoolClassConfig → Option ℕ
unfolding make_layout
required_segment_size config = and_then (make_layout config) (λ l. some l.segment_size)

-- The header that `create` constructs for a directory entry.
abbrev pub fresh_chunk : PoolDescriptor → ChunkDirectoryEntry → ChunkHeader
fresh_chunk d e = record {
  ref_count = 0;
  state = free;
  payload_size = 0;
  capacity = e.capacity % 2 ^ 32;
  size_class_index = e.size_class_index;
  generation = 0;
  sequence = 0;
  publish_timestamp_ns = 0;
  topic_id = d.topic_id;
  pool_id = d.pool_id;
}

-- The constructor's loop, from the last chunk down to the first.
unfoldable pub fill_free_lists : ℕ → List ℕ → List (List ℕ) → List (List ℕ)
fill_free_lists zero classes lists = lists
fill_free_lists (suc i) classes lists =
    let c = get_or classes i 0 in fill_free_lists i classes (set lists c (i ∷ get_or lists c []))

abbrev pub class_indices : List ChunkDirectoryEntry → List ℕ
class_indices = map (λ e. e.size_class_index)

unfoldable pub new_pool : PoolDescriptor → PoolLayout → MemoryPool
unfolding fill_free_lists
new_pool descriptor l = record {
  descriptor = descriptor;
  size_classes = l.size_classes;
  directory = l.directory;
  chunks = map (fresh_chunk descriptor) l.directory;
  free_lists =
      fill_free_lists (length l.directory) (class_indices l.directory)
        (replicate (length l.size_classes) []);
  payload = λ i. 0;
  instrumentation = record {
    shm_create_calls = 1;
    truncate_calls = 1;
    writable_map_calls = 1;
    allocations = 0;
    payload_copies = 0;
    releases = 0;
    reclaims = 0;
    allocation_failures = 0;
  };
}

unfoldable pub create : PoolDescriptor → List MemoryPoolClassConfig → Option MemoryPool
unfolding make_layout new_pool
create descriptor config =
    if descriptor.pool_id == 0
      || descriptor.topic_id == 0
      || descriptor.layout_version != pool_layout_version
    then none
    else and_then (make_layout config) (λ l.
      if descriptor.segment_size != l.segment_size then none else some (new_pool descriptor l))
