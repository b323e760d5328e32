-- ===== src/Pool/Reading.antt =====
-- What a subscriber reads through `MemoryPoolView::read`, and where.
use cpp_robot_middleware.Prelude.{
  ℕ, zero, suc, ◌+◌, ◌<◌, ◌≤◌, ◌≡◌, ◌≢◌, refl, Bool, ◌&&◌, true, false, List, [], ◌∷◌, some, length,
  get_or, get_or-set_self, arith, Bool-cases, inl, inr,
}
use cpp_robot_middleware.ErrorCode.{ok}
use cpp_robot_middleware.Handle.{ChunkHandle}
use cpp_robot_middleware.PoolProtocol.{PoolDescriptor}
use cpp_robot_middleware.Pool.{
  MemoryPool, SizeClassMetadata, ChunkDirectoryEntry, ChunkHeader, no_entry, no_chunk, known,
  handle_matches, chunk_header, entry,
}
use cpp_robot_middleware.Pool.Invariant.{IsValid}
use cpp_robot_middleware.Pool.Publish.{publish_loaned, publish_header}
use cpp_robot_middleware.Pool.Cases.{publish_loaned-cases}
use cpp_robot_middleware.Pool.Preservation.{known-inside}
use cpp_robot_middleware.Pool.View.{
  wrong_handle, unreadable, Segment, read, valid_directory, valid_entry, misplaced, range_inside,
  chunk_agrees, view_opens, range_inside,
}

valid_entry-inside :
    (classes : List SizeClassMetadata) (mapped_size previous_end : ℕ) (e : ChunkDirectoryEntry)
    → valid_entry classes mapped_size previous_end e ≡ true
    → e.payload_offset + e.capacity ≤ mapped_size
unfolding valid_entry range_inside
valid_entry-inside classes mapped_size previous_end e h =
    elim (Bool-cases (misplaced classes previous_end e)) [
      | inl m ↦ (let refused = rw m at h in cc)
      | inr m ↦ (let inside = rw m at h in ground arith)
    ]

both : (a b c : Bool) → (a && b && c) ≡ true → (a ≡ true) × (c ≡ true)
both true true c h = (refl, h)
both true false c h = cc
both false b c h = cc

valid_directory-inside :
    (d : PoolDescriptor) (classes : List SizeClassMetadata) (mapped_size previous_end i : ℕ)
    (es : List ChunkDirectoryEntry) (chunks : List ChunkHeader)
    → valid_directory d classes mapped_size previous_end es chunks ≡ true
    → i < length es
    → (get_or es i no_entry).payload_offset + (get_or es i no_entry).capacity ≤ mapped_size
unfolding valid_directory
valid_directory-inside d classes mapped_size previous_end i [] chunks h b = absurd (omega arith)
valid_directory-inside d classes mapped_size previous_end zero (e ∷ es) chunks h b =
    valid_entry-inside classes mapped_size previous_end e
      (both (valid_entry classes mapped_size previous_end e)
        (chunk_agrees d e (get_or chunks 0 no_chunk)) _ h).0
valid_directory-inside d classes mapped_size previous_end (suc i) (e ∷ es) [] h b =
    valid_directory-inside d classes mapped_size (e.payload_offset + e.capacity) i es []
      (both (valid_entry classes mapped_size previous_end e) (chunk_agrees d e no_chunk) _ h).1
      (omega arith)
valid_directory-inside d classes mapped_size previous_end (suc i) (e ∷ es) (c ∷ chunks) h b =
    valid_directory-inside d classes mapped_size (e.payload_offset + e.capacity) i es chunks
      (both (valid_entry classes mapped_size previous_end e) (chunk_agrees d e c) _ h).1
      (omega arith)

last_of : (a c : Bool) → (a && c) ≡ true → c ≡ true
last_of true c h = h
last_of false c h = cc

view_opens-directory :
    (d : PoolDescriptor) (topic : ℕ) (s : Segment)
    → view_opens d topic s ≡ true
    → valid_directory d s.size_classes s.mapped_size s.header.chunk_storage_offset s.directory
        s.chunks
      ≡ true
unfolding view_opens
view_opens-directory d topic s h =
    last_of _
      (valid_directory d s.size_classes s.mapped_size s.header.chunk_storage_offset s.directory
        s.chunks)
      h

readable-inside :
    (d : PoolDescriptor) (e : ChunkDirectoryEntry) (c : ChunkHeader) (handle : ChunkHandle)
    (max_message_size mapped_size offset : ℕ)
    → unreadable d e c handle max_message_size ≡ false
    → offset ≡ e.payload_offset
    → e.payload_offset + e.capacity ≤ mapped_size
    → offset + c.payload_size ≤ mapped_size
readable-inside d e c handle max_message_size mapped_size offset u at inside = ground arith

-- When `open` has accepted a segment, whatever its bytes, and `read` succeeds with the chunk headers
-- as they are then, the message that it returns lies inside the mapped segment.
pub read-inside :
    (d : PoolDescriptor) (topic : ℕ) (s : Segment) (chunks : List ChunkHeader)
    (handle : ChunkHandle) (max_message_size offset : ℕ)
    → view_opens d topic s ≡ true
    → (read d s.directory chunks handle max_message_size).payload ≡ some offset
    → offset + (read d s.directory chunks handle max_message_size).payload_size ≤ s.mapped_size
unfolding read
read-inside d topic s chunks handle max_message_size offset h r =
    let e = get_or s.directory handle.chunk_index no_entry in
    let c = get_or chunks handle.chunk_index no_chunk in
    elim (Bool-cases (wrong_handle d s.directory handle)) [
      | inl w ↦ (let nothing = rw w at r in cc)
      | inr w ↦ elim (Bool-cases (unreadable d e c handle max_message_size)) [
        | inl u ↦ (let nothing = rw (w, u) at r in cc)
        | inr u ↦
            let found = rw (w, u) at r in
            let at : offset ≡ e.payload_offset = cc in
            let inside =
              valid_directory-inside d s.size_classes s.mapped_size s.header.chunk_storage_offset
                handle.chunk_index s.directory s.chunks (view_opens-directory d topic s h)
                (ground (arith, w)) in
            rw (w, u)
              (readable-inside d e c handle max_message_size s.mapped_size offset u at inside)
      ]
    ]

-- A publication on a valid pool is read back by a view of it that has the same descriptor and
-- directory: when `publishLoaned` succeeds for a handle whose generation is not 0, with a message of
-- at most the view's limit, `read` returns the payload of the handle with the size, sequence and time
-- that were published.
pub read-publish_loaned :
    (p : MemoryPool) (handle : ChunkHandle)
    (payload_size sequence timestamp references max_message_size : ℕ)
    → IsValid p
    → handle.generation ≢ 0
    → payload_size ≤ max_message_size
    → (publish_loaned p handle payload_size sequence timestamp references).1 ≡ ok
    → read p.descriptor p.directory
        (publish_loaned p handle payload_size sequence timestamp references).0.chunks
        handle
        max_message_size
      ≡ record {
        error = ok;
        payload = some handle.payload_offset;
        payload_size = payload_size;
        sequence = sequence;
        publish_timestamp_ns = timestamp;
      }
unfolding read known handle_matches
read-publish_loaned p handle payload_size sequence timestamp references max_message_size v g fits
      good =
    elim (publish_loaned-cases p handle payload_size sequence timestamp references) [
      | inl (_, bad) ↦ absurd (bad good)
      | inr (c, e) ↦
          let inside = known-inside handle v c.known_handle in
          let i = handle.chunk_index in
          let same =
            get_or-set_self p.chunks i
              (publish_header (chunk_header p i) sequence timestamp references) no_chunk inside in
          let right : wrong_handle p.descriptor p.directory handle ≡ false =
            ground (arith, c.known_handle) in
          let readable : unreadable p.descriptor (entry p i)
                (publish_header (chunk_header p i) sequence timestamp references) handle
                max_message_size
              ≡ false =
            ground
              (arith, c, v.pool_of i inside, v.topic_of i inside, v.capacity_of i, v.class_of i) in
          let offset : (entry p i).payload_offset ≡ handle.payload_offset =
            ground (arith, c.known_handle) in
          rw (e, same, right, readable) (rw (offset, ← c.same_size) refl)
    ]
