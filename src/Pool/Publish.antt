-- ===== src/Pool/Publish.antt =====
-- `writablePayload`, `publishLocked`, `writeAndPublish` and `publishLoaned`, memory_pool.cpp.
use cpp_robot_middleware.Prelude.{
  ℕ, ◌+◌, ◌-◌, Bool, true, false, ◌||◌, ◌&&◌, not, List, Option, none, some, length, get_or, ltb,
  leb, ◌==◌, ◌!=◌, if◌then◌else◌, inc64,
}
use cpp_robot_middleware.ErrorCode.{
  ErrorCode, ok, invalid_chunk_handle, invalid_state, invalid_argument,
}
use cpp_robot_middleware.Handle.{ChunkHandle}
use cpp_robot_middleware.Pool.{
  MemoryPool, ChunkHeader, is_loaned, published, chunk_header, set_chunk, known,
}

-- The error, and the offset of the payload in the segment in place of the pointer.
unfoldable pub writable_payload : MemoryPool → ChunkHandle → ErrorCode × Option ℕ
unfolding known
writable_payload p handle =
    if not (known p handle)
    then (invalid_chunk_handle, none)
    else if not (is_loaned (chunk_header p handle.chunk_index).state)
    then (invalid_state, none)
    else (ok, some handle.payload_offset)

unfoldable pub publish_locked : MemoryPool → ChunkHandle → ℕ → ℕ → ℕ → ErrorCode
unfolding known
publish_locked p handle payload_size sequence references =
    let header = chunk_header p handle.chunk_index in
    if not (known p handle)
    then invalid_chunk_handle
    else if not (is_loaned header.state)
    then invalid_state
    else if payload_size != header.payload_size
        || ltb header.capacity payload_size
        || sequence == 0
        || references == 0
    then invalid_argument
    else ok

abbrev pub publish_header : ChunkHeader → ℕ → ℕ → ℕ → ChunkHeader
publish_header h sequence timestamp references = record h {
  sequence = sequence;
  publish_timestamp_ns = timestamp;
  ref_count = references;
  state = published;
}

-- The stores of a publication that has passed the checks.
abbrev pub mark_published : MemoryPool → ChunkHandle → ℕ → ℕ → ℕ → MemoryPool
mark_published p handle sequence timestamp references =
    set_chunk p handle.chunk_index
      (publish_header (chunk_header p handle.chunk_index) sequence timestamp references)

-- `memcpy(base + offset, bytes, size)`
unfoldable pub copy_in : (ℕ → ℕ) → ℕ → List ℕ → ℕ → ℕ
copy_in payload offset bytes i =
    if leb offset i && ltb i (offset + length bytes) then get_or bytes (i - offset) 0 else payload i

abbrev pub is_ok : ErrorCode → Bool
is_ok ok = true
is_ok _ = false

-- `none` is a null data pointer; `some bytes` stands for `payload_size` readable bytes.
unfoldable pub write_and_publish :
    MemoryPool → ChunkHandle → Option (List ℕ) → ℕ → ℕ → ℕ → ℕ → MemoryPool × ErrorCode
unfolding publish_locked copy_in
write_and_publish p handle none payload_size sequence timestamp references =
    let e = publish_locked p handle payload_size sequence references in
    if payload_size != 0 then (p, invalid_argument) else if not (is_ok e) then (p, e) else (
      record (mark_published p handle sequence timestamp references) {
        instrumentation = record p.instrumentation {
          payload_copies = inc64 p.instrumentation.payload_copies;
        };
      },
      ok,
    )
write_and_publish p handle (some bytes) payload_size sequence timestamp references =
    let e = publish_locked p handle payload_size sequence references in
    if not (is_ok e) then (p, e) else (
      record (mark_published p handle sequence timestamp references) {
        payload =
            if payload_size == 0 then p.payload else copy_in p.payload handle.payload_offset bytes;
        instrumentation = record p.instrumentation {
          payload_copies = inc64 p.instrumentation.payload_copies;
        };
      },
      ok,
    )

unfoldable pub publish_loaned : MemoryPool → ChunkHandle → ℕ → ℕ → ℕ → ℕ → MemoryPool × ErrorCode
unfolding publish_locked
publish_loaned p handle payload_size sequence timestamp references =
    let e = publish_locked p handle payload_size sequence references in
    if not (is_ok e) then (p, e) else (mark_published p handle sequence timestamp references, ok)
