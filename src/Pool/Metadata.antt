-- ===== src/Pool/Metadata.antt =====
-- The pool's metadata at the start of its segment, as big-endian fields: the encoders and decoders of
-- memory_pool.cpp. A decoder reads at the offsets of its fields and checks nothing.
use cpp_robot_middleware.Prelude.{ℕ, ◌<◌, ◌^◌, ◌≡◌, refl, List, [], ◌∷◌, arith}
use cpp_robot_middleware.Wire.{Field, frame, read_be}
use cpp_robot_middleware.Wire.Frames.{frame-Reads}
use cpp_robot_middleware.Pool.{SizeClassMetadata, ChunkDirectoryEntry}
use cpp_robot_middleware.Pool.Construct.{
  pool_header_size, size_class_metadata_size, chunk_directory_entry_size,
}
use cpp_robot_middleware.Pool.View.{PoolHeader}

abbrev pub pool_header_fields : PoolHeader → List Field
pool_header_fields h =
    (0, 4, h.magic)
    ∷ (4, 2, h.version)
    ∷ (6, 2, h.header_size)
    ∷ (8, 8, h.segment_size)
    ∷ (16, 8, h.pool_id)
    ∷ (24, 8, h.topic_id)
    ∷ (32, 8, h.owner_pid)
    ∷ (40, 4, h.size_class_count)
    ∷ (44, 4, h.chunk_count)
    ∷ (48, 8, h.size_class_offset)
    ∷ (56, 8, h.chunk_directory_offset)
    ∷ (64, 8, h.chunk_storage_offset)
    ∷ []

unfoldable pub encode_pool_header : PoolHeader → List ℕ
encode_pool_header h = frame pool_header_size (pool_header_fields h)

unfoldable pub decode_pool_header : List ℕ → PoolHeader
decode_pool_header buf = record {
  magic = read_be 0 4 buf;
  version = read_be 4 2 buf;
  header_size = read_be 6 2 buf;
  segment_size = read_be 8 8 buf;
  pool_id = read_be 16 8 buf;
  topic_id = read_be 24 8 buf;
  owner_pid = read_be 32 8 buf;
  size_class_count = read_be 40 4 buf;
  chunk_count = read_be 44 4 buf;
  size_class_offset = read_be 48 8 buf;
  chunk_directory_offset = read_be 56 8 buf;
  chunk_storage_offset = read_be 64 8 buf;
}

abbrev pub size_class_fields : SizeClassMetadata → List Field
size_class_fields m = (0, 8, m.capacity) ∷ (8, 4, m.first_chunk_index) ∷ (12, 4, m.chunk_count) ∷ []

unfoldable pub encode_size_class : SizeClassMetadata → List ℕ
encode_size_class m = frame size_class_metadata_size (size_class_fields m)

unfoldable pub decode_size_class : List ℕ → SizeClassMetadata
decode_size_class buf = record {
  capacity = read_be 0 8 buf;
  first_chunk_index = read_be 8 4 buf;
  chunk_count = read_be 12 4 buf;
}

abbrev pub directory_entry_fields : ChunkDirectoryEntry → List Field
directory_entry_fields e =
    (0, 8, e.header_offset)
    ∷ (8, 8, e.payload_offset)
    ∷ (16, 8, e.capacity)
    ∷ (24, 4, e.size_class_index)
    ∷ []

unfoldable pub encode_directory_entry : ChunkDirectoryEntry → List ℕ
encode_directory_entry e = frame chunk_directory_entry_size (directory_entry_fields e)

unfoldable pub decode_directory_entry : List ℕ → ChunkDirectoryEntry
decode_directory_entry buf = record {
  header_offset = read_be 0 8 buf;
  payload_offset = read_be 8 8 buf;
  capacity = read_be 16 8 buf;
  size_class_index = read_be 24 4 buf;
}

-- The fields fit their C++ types.
pub record PoolHeaderFits (h : PoolHeader) : Type 0 where
  pub magic : h.magic < 2 ^ 32
  pub version : h.version < 2 ^ 16
  pub header_size : h.header_size < 2 ^ 16
  pub segment_size : h.segment_size < 2 ^ 64
  pub pool_id : h.pool_id < 2 ^ 64
  pub topic_id : h.topic_id < 2 ^ 64
  pub owner_pid : h.owner_pid < 2 ^ 64
  pub size_class_count : h.size_class_count < 2 ^ 32
  pub chunk_count : h.chunk_count < 2 ^ 32
  pub size_class_offset : h.size_class_offset < 2 ^ 64
  pub chunk_directory_offset : h.chunk_directory_offset < 2 ^ 64
  pub chunk_storage_offset : h.chunk_storage_offset < 2 ^ 64

-- A pool header whose fields fit their types decodes to what was encoded.
pub decode_pool_header-encode :
    (h : PoolHeader) → PoolHeaderFits h → decode_pool_header (encode_pool_header h) ≡ h
unfolding encode_pool_header decode_pool_header
decode_pool_header-encode h fits =
    let f =
      frame-Reads pool_header_size (pool_header_fields h) (omega arith) (omega (arith, fits)) in
    let g = f.1.1.1.1 in
    let k = g.1.1.1.1 in
    rw (f.0, f.1.0, f.1.1.0, f.1.1.1.0, g.0, g.1.0)
      (rw (g.1.1.0, g.1.1.1.0, k.0, k.1.0, k.1.1.0, k.1.1.1.0) refl)

-- A size class whose fields fit their types decodes to what was encoded.
pub decode_size_class-encode :
    (m : SizeClassMetadata)
    → m.capacity < 2 ^ 64
    → m.first_chunk_index < 2 ^ 32
    → m.chunk_count < 2 ^ 32
    → decode_size_class (encode_size_class m) ≡ m
unfolding encode_size_class decode_size_class
decode_size_class-encode m c i n =
    let f =
      frame-Reads size_class_metadata_size (size_class_fields m) (omega arith) (omega arith) in
    rw (f.0, f.1.0, f.1.1.0) refl

-- A directory entry whose fields fit their types decodes to what was encoded.
pub decode_directory_entry-encode :
    (e : ChunkDirectoryEntry)
    → e.header_offset < 2 ^ 64
    → e.payload_offset < 2 ^ 64
    → e.capacity < 2 ^ 64
    → e.size_class_index < 2 ^ 32
    → decode_directory_entry (encode_directory_entry e) ≡ e
unfolding encode_directory_entry decode_directory_entry
decode_directory_entry-encode e h p c i =
    let f =
      frame-Reads chunk_directory_entry_size (directory_entry_fields e) (omega arith)
        (omega arith) in
    rw (f.0, f.1.0, f.1.1.0, f.1.1.1.0) refl
