-- ===== src/Messages/Tests.antt =====
-- The messages at concrete inputs.
use cpp_robot_middleware.Prelude.{
  ℕ, ◌≡◌, refl, List, [], ◌∷◌, some, arith, ◌≤◌, ◌+◌, ◌++◌, length, true,
}
use cpp_robot_middleware.ErrorCode.{ok}
use cpp_robot_middleware.Registry.{SharedPoolMetadata, SharedQueueMetadata}
use cpp_robot_middleware.Registry.Queries.{DiscoveryResult}
use cpp_robot_middleware.Messages.{write_items}
use cpp_robot_middleware.Messages.Requests.{
  Request, advertise_topic, opcode_of, request_items, read_request,
}
use cpp_robot_middleware.Messages.Answers.{
  each, subscriber_items, discovery_head, discovery_body, read_discovery,
}
use cpp_robot_middleware.Messages.RoundTrip.{AllFit, flat}
use cpp_robot_middleware.Messages.Delivery.{parse_frame-send_request, receive_response-discovery}
use cpp_robot_middleware.Messages.Answered.{received}
use cpp_robot_middleware.Wire.{encode_be}
use cpp_robot_middleware.Control.{ControlHeader, is_known_request_opcode}
use cpp_robot_middleware.Messages.Frames.{
  send_request, arrived, parse_frame, encode_ok_response, receive_response,
}

abbrev pool : SharedPoolMetadata
pool = record { shm_name = 47 ∷ 112 ∷ []; pool_id = 5; segment_size = 4096; layout_version = 1 }

abbrev queue : SharedQueueMetadata
queue = record {
  shm_name = 47 ∷ 113 ∷ [];
  queue_id = 9;
  segment_size = 8192;
  capacity = 16;
  layout_version = 3;
  overflow_policy = 1;
  block_timeout_ms = 20;
}

abbrev advertisement : Request
advertisement =
    advertise_topic 3
      (record {
        topic_name = 116 ∷ [];
        type_name = 84 ∷ [];
        type_hash = 104 ∷ [];
        max_message_size = 1024;
        transport = 2;
      })
      pool

advertisement_fits : AllFit (request_items advertisement)
unfolding request_items
advertisement_fits = omega arith

advertisement_small : length (flat (request_items advertisement)) ≤ 65536
unfolding request_items encode_be
advertisement_small = omega arith

-- The first byte of the next frame is there already.
parse_frame-send_request_example :
    (frame : List ℕ) × (header : ControlHeader) × (payload : List ℕ) × (send_request advertisement
        12
      ≡ some frame)
    × (parse_frame (frame ++ 77 ∷ []) ≡ arrived header payload (77 ∷ []))
    × (header.opcode ≡ opcode_of advertisement)
    × (header.request_id ≡ 12)
    × (is_known_request_opcode header.opcode ≡ true)
    × (read_request header.opcode payload ≡ some advertisement)
parse_frame-send_request_example =
    parse_frame-send_request advertisement 12 (77 ∷ []) advertisement_fits (omega arith)
      advertisement_small

abbrev found : DiscoveryResult
found = record {
  error = ok;
  topic_id = 4;
  transport = 2;
  pool = pool;
  subscribers =
      (record {
        endpoint_id = 7;
        data_socket_path = 115 ∷ [];
        max_message_size = 1024;
        queue = queue;
      })
      ∷ (record {
        endpoint_id = 8;
        data_socket_path = 116 ∷ [];
        max_message_size = 512;
        queue = queue;
      })
      ∷ [];
}

found_fits : AllFit (discovery_body found)
unfolding discovery_body discovery_head each subscriber_items
found_fits = omega arith

found_small : 6 + length (flat (discovery_body found)) ≤ 65536
unfolding discovery_body discovery_head each subscriber_items encode_be
found_small = omega arith

receive_response-discovery_example :
    (body : List ℕ) × (frame : List ℕ) × (write_items (discovery_body found) [] ≡ some body)
    × (encode_ok_response 12 body ≡ some frame)
    × (receive_response 12 (frame ++ 77 ∷ []) ≡ some (body, 77 ∷ []))
    × (read_discovery body
        ≡ some (record {
          topic_id = 4;
          transport = 2;
          pool = record {
            shm_name = 47 ∷ 112 ∷ [];
            pool_id = 5;
            segment_size = 4096;
            topic_id = 4;
            layout_version = 1;
          };
          subscribers =
              received (record {
                endpoint_id = 7;
                data_socket_path = 115 ∷ [];
                max_message_size = 1024;
                queue = queue;
              })
              ∷ received (record {
                endpoint_id = 8;
                data_socket_path = 116 ∷ [];
                max_message_size = 512;
                queue = queue;
              })
              ∷ [];
        }))
receive_response-discovery_example =
    receive_response-discovery found 12 (77 ∷ []) found_fits refl (omega arith) found_small
