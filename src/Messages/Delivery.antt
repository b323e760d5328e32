-- ===== src/Messages/Delivery.antt =====
-- A request and the answer to it, as whole frames on the connection of a client of the registry.
use cpp_robot_middleware.Prelude.{
  ℕ, ◌+◌, ◌^◌, ◌<◌, ◌≤◌, ◌≡◌, refl, ap, sym, subst, ◌∙◌, true, false, ◌!=◌, List, [], ◌∷◌, ◌++◌,
  some, map, length, arith, length-append,
}
use cpp_robot_middleware.Wire.{encode_be}
use cpp_robot_middleware.Control.{
  write_string, ControlHeader, frame_header, is_known_request_opcode, encode_response_payload,
}
use cpp_robot_middleware.Control.Payload.{decode_response_payload-encode}
use cpp_robot_middleware.Registry.{is_empty}
use cpp_robot_middleware.Registry.Queries.{DiscoveredSubscriber, DiscoveryResult}
use cpp_robot_middleware.Messages.{Item, write_items}
use cpp_robot_middleware.Messages.Requests.{
  Request, register_node, unregister_node, advertise_topic, unadvertise_topic, subscribe_topic,
  unsubscribe_topic, resolve_endpoint, list_nodes, list_topics, query_topic, attach_heartbeat,
  heartbeat, query_stats, opcode_of, request_items, write_request, read_request,
}
use cpp_robot_middleware.Messages.Answers.{
  each, subscriber_items, discovery_head, discovery_body, read_discovery, pool_of,
}
use cpp_robot_middleware.Messages.RoundTrip.{AllFit, flat, write_items-flat}
use cpp_robot_middleware.Messages.Requested.{read_request-write}
use cpp_robot_middleware.Messages.Answered.{received, flat-append, read_discovery-write}
use cpp_robot_middleware.Messages.Frames.{
  send_request, arrived, parse_frame, encode_ok_response, receive_response, frame-Framed,
  parse_frame-Framed, receive_frame-Framed, response_opcode,
}

opcode-known : (q : Request) → is_known_request_opcode (opcode_of q) ≡ true
unfolding is_known_request_opcode opcode_of
opcode-known (register_node name) = refl
opcode-known (unregister_node node) = refl
opcode-known (advertise_topic node r pool) = refl
opcode-known (unadvertise_topic node endpoint) = refl
opcode-known (subscribe_topic node r path queue) = refl
opcode-known (unsubscribe_topic node endpoint) = refl
opcode-known (resolve_endpoint node endpoint) = refl
opcode-known list_nodes = refl
opcode-known list_topics = refl
opcode-known (query_topic name) = refl
opcode-known (attach_heartbeat node session) = refl
opcode-known (heartbeat node session) = refl
opcode-known query_stats = refl

opcode-small : (n : ℕ) → is_known_request_opcode n ≡ true → n < 2 ^ 16
unfolding is_known_request_opcode
opcode-small n h = ground arith

some_inj : {A : Type 0} {a b : A} → some a ≡ some b → a ≡ b
some_inj h = cc

-- A request whose integers fit their fields and whose payload has at most 64 KiB is sent as a frame.
-- Whatever follows it in the input of the server, the loop takes out exactly this frame, with a
-- known opcode and the number of the request, and its payload is read as the same request.
pub parse_frame-send_request :
    (q : Request) (request_id : ℕ) (rest : List ℕ)
    → AllFit (request_items q)
    → request_id < 2 ^ 32
    → length (flat (request_items q)) ≤ 65536
    → (frame : List ℕ) × (header : ControlHeader) × (payload : List ℕ) × (send_request q request_id
        ≡ some frame)
      × (parse_frame (frame ++ rest) ≡ arrived header payload rest)
      × (header.opcode ≡ opcode_of q)
      × (header.request_id ≡ request_id)
      × (is_known_request_opcode header.opcode ≡ true)
      × (read_request header.opcode payload ≡ some q)
unfolding send_request write_request
parse_frame-send_request q request_id rest fit numbered small =
    let payload = flat (request_items q) in
    let (buf, written, reads) = read_request-write q fit in
    let flat_written = write_items-flat (request_items q) [] fit in
    let same : some payload ≡ some buf = sym flat_written ∙ written in
    let known = opcode-known q in
    let (head, f) =
      frame-Framed (opcode_of q) request_id payload (opcode-small (opcode_of q) known) numbered
        small in
    (
      head ++ payload,
      frame_header (opcode_of q) request_id payload,
      payload,
      rw (flat_written, f.encoded) refl,
      parse_frame-Framed (opcode_of q) request_id payload head rest f,
      refl,
      refl,
      known,
      (let e : payload ≡ buf = some_inj same in rw e reads),
    )

length-step :
    (a b : List Item) (n : ℕ)
    → 1 ≤ length (flat a)
    → n ≤ length (flat b)
    → n + 1 ≤ length (flat (a ++ b))
length-step a b n here rest = rw (flat-append a b, length-append (flat a) (flat b)) (omega arith)

length-subscriber : (x : DiscoveredSubscriber) → 1 ≤ length (flat (subscriber_items x))
unfolding subscriber_items encode_be
length-subscriber x = omega arith

-- A subscriber takes at least one byte.
length-each :
    (xs : List DiscoveredSubscriber) → length xs ≤ length (flat (each subscriber_items xs))
unfolding each
length-each [] = omega arith
length-each (x ∷ xs) = omega (
  arith,
  length-step (subscriber_items x) (each subscriber_items xs) (length xs) (length-subscriber x)
      (length-each xs),
)

length-discovery : (d : DiscoveryResult) → length d.subscribers ≤ length (flat (discovery_body d))
unfolding discovery_body
length-discovery d = omega (
  arith,
  ap (λ (l : List ℕ). length l)
      (flat-append (discovery_head d) (each subscriber_items d.subscribers)),
  length-append (flat (discovery_head d)) (flat (each subscriber_items d.subscribers)),
  length-each d.subscribers,
)

-- The error and the empty text before a body.
abbrev ok_payload : List ℕ → List ℕ
ok_payload body = ((encode_be 2 0 ++ encode_be 4 0) ++ []) ++ body

ok_payload-encode :
    (body : List ℕ)
    → encode_response_payload (record { error = 0; message = []; body = body })
      ≡ some (ok_payload body)
unfolding encode_response_payload write_string
ok_payload-encode body = refl

length-ok_payload : (body : List ℕ) → length (ok_payload body) ≡ 6 + length body
unfolding encode_be
length-ok_payload body = omega arith

-- An Ok answer within 64 KiB reaches the client that sent the request.
receive_response-ok :
    (request_id : ℕ) (body rest : List ℕ)
    → request_id < 2 ^ 32
    → 6 + length body ≤ 65536
    → (frame : List ℕ) × (encode_ok_response request_id body ≡ some frame)
      × (receive_response request_id (frame ++ rest) ≡ some (body, rest))
unfolding encode_ok_response receive_response
receive_response-ok request_id body rest numbered small =
    let payload = ok_payload body in
    let (buf, encoded, decodes) =
      decode_response_payload-encode (record { error = 0; message = []; body = body }) (omega arith)
        (omega arith) in
    let same : buf ≡ payload = some_inj (sym encoded ∙ ok_payload-encode body) in
    let (head, f) =
      frame-Framed response_opcode request_id payload (omega arith) numbered
        (omega (arith, length-ok_payload body)) in
    let own : (request_id != request_id) ≡ false = ground arith in
    (
      head ++ payload,
      rw (ok_payload-encode body, f.encoded) refl,
      rw
          (
            receive_frame-Framed response_opcode request_id payload head rest f,
            own,
            rw same at decodes,
          )
          refl,
    )

-- The answer to ResolveEndpoint with at least one subscriber, whose integers fit their fields and which with
-- the error and its empty text takes at most 64 KiB, is sent as a frame. Whatever follows it on
-- the connection, the client that waits for the answer to this request takes out exactly its body and reads the topic,
-- the transport, the pool and all subscribers in their order.
pub receive_response-discovery :
    (d : DiscoveryResult) (request_id : ℕ) (rest : List ℕ)
    → AllFit (discovery_body d)
    → is_empty d.subscribers ≡ false
    → request_id < 2 ^ 32
    → 6 + length (flat (discovery_body d)) ≤ 65536
    → (body : List ℕ) × (frame : List ℕ) × (write_items (discovery_body d) [] ≡ some body)
      × (encode_ok_response request_id body ≡ some frame)
      × (receive_response request_id (frame ++ rest) ≡ some (body, rest))
      × (read_discovery body
          ≡ some (record {
            topic_id = d.topic_id;
            transport = d.transport;
            pool = pool_of d.topic_id d.pool;
            subscribers = map received d.subscribers;
          }))
receive_response-discovery d request_id rest fit heard numbered small =
    let few : length d.subscribers < 2 ^ 32 = omega (arith, length-discovery d) in
    let (body, written, reads) = read_discovery-write d fit few heard in
    let same : flat (discovery_body d) ≡ body =
      some_inj (sym (write_items-flat (discovery_body d) [] fit) ∙ written) in
    let (frame, sent, arrives) =
      receive_response-ok request_id body rest numbered
        (subst (λ (b : List ℕ). 6 + length b ≤ 65536) same small) in
    (body, frame, written, sent, arrives, reads)
