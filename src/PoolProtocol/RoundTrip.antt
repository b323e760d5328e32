-- ===== src/PoolProtocol/RoundTrip.antt =====
-- The frames of pool_protocol.cpp, encoded and decoded again.
use cpp_robot_middleware.Prelude.{
  ℕ, ◌<◌, ◌≤◌, ◌^◌, ◌≡◌, sym, ap, List, true, some, length, arith, le→ltb, ne→==,
}
use cpp_robot_middleware.Handle.{ChunkHandle}
use cpp_robot_middleware.Wire.{is_valid_shared_memory_name}
use cpp_robot_middleware.Wire.Frames.{frame-Reads, length-frame, Named, named_frame-Named}
use cpp_robot_middleware.PoolProtocol.{
  PoolDescriptor, PoolNotification, PoolRelease, max_pool_name_size, pool_notification_size,
  pool_release_size, pool_notification_header_size, notification_fields, release_fields,
  encode_pool_notification, decode_pool_notification, read_notification, encode_pool_release,
  decode_pool_release,
}

pub record HandleFits (h : ChunkHandle) : Type 0 where
  pub pool_id : h.pool_id < 2 ^ 64
  pub chunk_index : h.chunk_index < 2 ^ 32
  pub generation : h.generation < 2 ^ 32
  pub payload_offset : h.payload_offset < 2 ^ 64

pub record DescriptorFits (d : PoolDescriptor) : Type 0 where
  pub name : is_valid_shared_memory_name d.shm_name ≡ true
  pub pool_id : d.pool_id < 2 ^ 64
  pub segment_size : d.segment_size < 2 ^ 64
  pub topic_id : d.topic_id < 2 ^ 64
  pub layout_version : d.layout_version < 2 ^ 16

-- The fields fit their C++ types, and the handle is one of the pool.
pub record NotificationFits (n : PoolNotification) : Type 0 where
  pub pool : DescriptorFits n.pool
  pub handle : HandleFits n.handle
  pub own_pool : n.handle.pool_id ≡ n.pool.pool_id
  pub payload_size : n.payload_size < 2 ^ 64
  pub sequence : n.sequence < 2 ^ 64
  pub publish_timestamp_ns : n.publish_timestamp_ns < 2 ^ 64

-- A valid name has between 2 and 192 bytes.
pub valid_name_size :
    (name : List ℕ)
    → is_valid_shared_memory_name name ≡ true
    → (2 ≤ length name) × (length name ≤ max_pool_name_size)
unfolding is_valid_shared_memory_name
valid_name_size name h = ground arith

-- The frame of a release whose fields fit their C++ types decodes to that release.
pub decode_pool_release-encode :
    (r : PoolRelease)
    → HandleFits r.handle
    → r.sequence < 2 ^ 64
    → decode_pool_release (encode_pool_release r) ≡ some r
unfolding encode_pool_release decode_pool_release
decode_pool_release-encode r fits s =
    let f = frame-Reads pool_release_size (release_fields r) (omega arith) (omega (arith, fits)) in
    let b = f.1.1.1 in
    rw (length-frame pool_release_size (release_fields r), f.0, f.1.0, f.1.1.0)
      (rw (b.0, b.1.0, b.1.1.0, b.1.1.1.0, b.1.1.1.1.0))

-- The handle of a decoded notification takes its pool number from the descriptor.
own_handle :
    (n : PoolNotification)
    → n.handle.pool_id ≡ n.pool.pool_id
    → ◌≡◌ {A = PoolNotification}
        (record n { handle = record n.handle { pool_id = n.pool.pool_id } })
        n
own_handle n e = λ i. record n { handle = record n.handle { pool_id = sym e i } }

decode-Named :
    (n : PoolNotification) (buf : List ℕ)
    → NotificationFits n
    → Named pool_notification_size
        (notification_fields n)
        pool_notification_header_size
        n.pool.shm_name
        buf
    → decode_pool_notification buf ≡ some n
unfolding decode_pool_notification read_notification
decode-Named n buf fits named =
    let size = valid_name_size n.pool.shm_name fits.pool.name in
    let f = named.reads in
    let g = f.1.1.1.1.1 in
    let h = g.1.1.1.1 in
    rw
      (
        named.size_is,
        f.1.1.1.0,
        f.1.1.1.1.0,
        ne→== (length n.pool.shm_name) 0 (omega arith),
        le→ltb max_pool_name_size (length n.pool.shm_name) size.1,
      )
      (rw (named.padding, named.name_is, f.0, f.1.0, f.1.1.0)
        (rw
          (
            g.0, g.1.0, g.1.1.0, g.1.1.1.0, h.0, h.1.0, h.1.1.0, h.1.1.1.0, h.1.1.1.1.0,
            h.1.1.1.1.1.0,
          )
          (ap some (own_handle n fits.own_pool))))

-- A notification with a valid name, fields that fit their C++ types and a handle of its own pool is
-- encoded, and the frame decodes to it, name and padding included.
pub decode_pool_notification-encode :
    (n : PoolNotification)
    → NotificationFits n
    → (buf : List ℕ) × (encode_pool_notification n ≡ some buf)
      × (decode_pool_notification buf ≡ some n)
unfolding encode_pool_notification
decode_pool_notification-encode n fits =
    let size = valid_name_size n.pool.shm_name fits.pool.name in
    (
      _,
      rw (fits.pool.name, le→ltb max_pool_name_size (length n.pool.shm_name) size.1),
      decode-Named n _ fits (
          named_frame-Named pool_notification_size (notification_fields n)
            pool_notification_header_size n.pool.shm_name (omega arith) (omega (arith, fits, size))
            (omega arith)),
    )
