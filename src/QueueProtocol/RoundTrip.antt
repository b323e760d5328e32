-- ===== src/QueueProtocol/RoundTrip.antt =====
-- The frames of queue_protocol.cpp, encoded and decoded again.
use cpp_robot_middleware.Prelude.{
  ℕ, ◌<◌, ◌^◌, ◌≡◌, ◌≢◌, ◌⊎◌, List, none, some, length, arith, le→ltb, ne→==,
}
use cpp_robot_middleware.Handle.{ChunkHandle}
use cpp_robot_middleware.Wire.Frames.{frame-Reads, length-frame, Named, named_frame-Named}
use cpp_robot_middleware.PoolProtocol.{max_pool_name_size}
use cpp_robot_middleware.PoolProtocol.RoundTrip.{HandleFits, DescriptorFits, valid_name_size}
use cpp_robot_middleware.QueueProtocol.{
  QueueWake, queue_wake_size, queue_wake_header_size, queue_release_size, wake_fields,
  queue_release_fields, encode_queue_wake, decode_queue_wake, read_wake, encode_queue_release,
  decode_queue_release,
}

-- A release frame decodes to the handle that was encoded, if the fields of the handle fit their C++
-- types and its pool number and generation are not 0.
pub decode_queue_release-encode :
    (h : ChunkHandle)
    → HandleFits h
    → h.pool_id ≢ 0
    → h.generation ≢ 0
    → decode_queue_release (encode_queue_release h) ≡ some h
unfolding encode_queue_release decode_queue_release
decode_queue_release-encode h fits p g =
    let f =
      frame-Reads queue_release_size (queue_release_fields h) (omega arith) (omega (arith, fits)) in
    let b = f.1.1.1 in
    rw (length-frame queue_release_size (queue_release_fields h), f.0, f.1.0, f.1.1.0)
      (rw (b.0, b.1.0, b.1.1.0, b.1.1.1.0, ne→== h.pool_id 0 p, ne→== h.generation 0 g))

-- A release frame of a handle with the pool number 0 or the generation 0, and fields that fit their
-- C++ types, is refused.
pub decode_queue_release-refuses :
    (h : ChunkHandle)
    → HandleFits h
    → (h.pool_id ≡ 0) ⊎ (h.generation ≡ 0)
    → decode_queue_release (encode_queue_release h) ≡ none
unfolding encode_queue_release decode_queue_release
decode_queue_release-refuses h fits missing =
    let f =
      frame-Reads queue_release_size (queue_release_fields h) (omega arith) (omega (arith, fits)) in
    let b = f.1.1.1 in
    rw (length-frame queue_release_size (queue_release_fields h), f.0, f.1.0, f.1.1.0)
      (rw (b.0, b.1.0, b.1.1.0, b.1.1.1.0) (ground arith))

pub record WakeFits (w : QueueWake) : Type 0 where
  pub pool : DescriptorFits w.pool
  pub queue_id : w.queue_id < 2 ^ 64
  pub some_queue : w.queue_id ≢ 0

decode-Named :
    (w : QueueWake) (buf : List ℕ)
    → WakeFits w
    → Named queue_wake_size (wake_fields w) queue_wake_header_size w.pool.shm_name buf
    → decode_queue_wake buf ≡ some w
unfolding decode_queue_wake read_wake
decode-Named w buf fits named =
    let size = valid_name_size w.pool.shm_name fits.pool.name in
    let f = named.reads in
    let g = f.1.1.1.1 in
    rw
      (
        named.size_is,
        f.0,
        f.1.0,
        f.1.1.0,
        f.1.1.1.0,
        g.0,
        ne→== (length w.pool.shm_name) 0 (omega arith),
        le→ltb max_pool_name_size (length w.pool.shm_name) size.1,
      )
      (rw (named.padding, named.name_is)
        (rw (g.1.0, g.1.1.0, g.1.1.1.0, g.1.1.1.1.0, g.1.1.1.1.1.0)))

-- A wake with a valid name, a queue number that is not 0 and fields that fit their C++ types is
-- encoded, and the frame decodes to it, name and padding included.
pub decode_queue_wake-encode :
    (w : QueueWake)
    → WakeFits w
    → (buf : List ℕ) × (encode_queue_wake w ≡ some buf) × (decode_queue_wake buf ≡ some w)
unfolding encode_queue_wake
decode_queue_wake-encode w fits =
    let size = valid_name_size w.pool.shm_name fits.pool.name in
    (
      _,
      rw (
        fits.pool.name,
        le→ltb max_pool_name_size (length w.pool.shm_name) size.1,
        ne→== w.queue_id 0 fits.some_queue,
      ),
      decode-Named w _ fits (
          named_frame-Named queue_wake_size (wake_fields w) queue_wake_header_size w.pool.shm_name
            (omega arith) (omega (arith, fits, size)) (omega arith)),
    )
