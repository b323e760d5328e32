-- ===== src/ShmProtocol/RoundTrip.antt =====
-- The frames of shm_protocol.cpp, encoded and decoded again.
use cpp_robot_middleware.Prelude.{ℕ, ◌<◌, ◌^◌, ◌≡◌, List, true, some, length, arith, le→ltb, ne→==}
use cpp_robot_middleware.Wire.{is_valid_shared_memory_name}
use cpp_robot_middleware.Wire.Frames.{frame-Reads, length-frame, Named, named_frame-Named}
use cpp_robot_middleware.PoolProtocol.RoundTrip.{valid_name_size}
use cpp_robot_middleware.ShmProtocol.{
  SharedMemoryHeader, ShmNotification, ShmAck, shared_memory_header_size, shm_notification_size,
  shm_notification_header_size, max_shm_name_size, shm_ack_size, header_fields, notification_fields,
  ack_fields, encode_shared_memory_header, decode_shared_memory_header, encode_shm_notification,
  decode_shm_notification, read_notification, encode_shm_ack, decode_shm_ack,
}

pub record HeaderFits (h : SharedMemoryHeader) : Type 0 where
  pub magic : h.magic < 2 ^ 32
  pub version : h.version < 2 ^ 16
  pub header_size : h.header_size < 2 ^ 16
  pub segment_size : h.segment_size < 2 ^ 64
  pub payload_size : h.payload_size < 2 ^ 64
  pub sequence : h.sequence < 2 ^ 64
  pub publish_timestamp_ns : h.publish_timestamp_ns < 2 ^ 64
  pub topic_id : h.topic_id < 2 ^ 64

-- A segment header whose fields fit their C++ types decodes to the header that was encoded.
pub decode_shared_memory_header-encode :
    (h : SharedMemoryHeader)
    → HeaderFits h
    → decode_shared_memory_header (encode_shared_memory_header h) ≡ some h
unfolding encode_shared_memory_header decode_shared_memory_header
decode_shared_memory_header-encode h fits =
    let f =
      frame-Reads shared_memory_header_size (header_fields h) (omega arith) (omega (arith, fits)) in
    let b = f.1.1.1 in
    rw (length-frame shared_memory_header_size (header_fields h), f.0, f.1.0, f.1.1.0)
      (rw (b.0, b.1.0, b.1.1.0, b.1.1.1.0, b.1.1.1.1.0))

-- An acknowledgement decodes to the one that was encoded.
pub decode_shm_ack-encode :
    (a : ShmAck)
    → a.magic < 2 ^ 32
    → a.version < 2 ^ 16
    → a.kind < 2 ^ 16
    → a.sequence < 2 ^ 64
    → decode_shm_ack (encode_shm_ack a) ≡ some a
unfolding encode_shm_ack decode_shm_ack
decode_shm_ack-encode a m v k s =
    let f = frame-Reads shm_ack_size (ack_fields a) (omega arith) (omega arith) in
    rw (length-frame shm_ack_size (ack_fields a), f.0, f.1.0, f.1.1.0, f.1.1.1.0)

pub record NotificationFits (n : ShmNotification) : Type 0 where
  pub magic : n.magic < 2 ^ 32
  pub version : n.version < 2 ^ 16
  pub kind : n.kind < 2 ^ 16
  pub name : is_valid_shared_memory_name n.handle.shm_name ≡ true
  pub segment_size : n.handle.segment_size < 2 ^ 64
  pub payload_size : n.handle.payload_size < 2 ^ 64
  pub sequence : n.handle.sequence < 2 ^ 64
  pub publish_timestamp_ns : n.handle.publish_timestamp_ns < 2 ^ 64
  pub topic_id : n.handle.topic_id < 2 ^ 64

decode-Named :
    (n : ShmNotification) (buf : List ℕ)
    → NotificationFits n
    → Named shm_notification_size
        (notification_fields n)
        shm_notification_header_size
        n.handle.shm_name
        buf
    → decode_shm_notification buf ≡ some n
unfolding decode_shm_notification read_notification
decode-Named n buf fits named =
    let size = valid_name_size n.handle.shm_name fits.name in
    let f = named.reads in
    let g = f.1.1.1 in
    let h = g.1.1.1 in
    rw
      (
        named.size_is,
        g.0,
        g.1.0,
        g.1.1.0,
        ne→== (length n.handle.shm_name) 0 (omega arith),
        le→ltb max_shm_name_size (length n.handle.shm_name) size.1,
      )
      (rw (named.padding, named.name_is)
        (rw (f.0, f.1.0, f.1.1.0, h.0, h.1.0, h.1.1.0, h.1.1.1.0, h.1.1.1.1.0)))

-- A notification with a valid name and fields that fit their C++ types is encoded, and the frame
-- decodes to it, name and padding included.
pub decode_shm_notification-encode :
    (n : ShmNotification)
    → NotificationFits n
    → (buf : List ℕ) × (encode_shm_notification n ≡ some buf)
      × (decode_shm_notification buf ≡ some n)
unfolding encode_shm_notification
decode_shm_notification-encode n fits =
    let size = valid_name_size n.handle.shm_name fits.name in
    (
      _,
      rw (fits.name, le→ltb max_shm_name_size (length n.handle.shm_name) size.1),
      decode-Named n _ fits (
          named_frame-Named shm_notification_size (notification_fields n)
            shm_notification_header_size n.handle.shm_name (omega arith) (omega (arith, fits, size))
            (omega arith)),
    )
