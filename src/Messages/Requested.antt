-- ===== src/Messages/Requested.antt =====
-- The payloads of the requests: what the client's writer makes of them, and what the server's reader
-- finds in it. The frames around them are in Delivery.
use cpp_robot_middleware.Prelude.{ℕ, ◌≡◌, refl, ◌∙◌, ap, sym, List, [], Option, some, append-nil}
use cpp_robot_middleware.Messages.{Item, read_items}
use cpp_robot_middleware.Messages.Requests.{
  Request, register_node, unregister_node, advertise_topic, unadvertise_topic, subscribe_topic,
  unsubscribe_topic, resolve_endpoint, list_nodes, list_topics, query_topic, attach_heartbeat,
  heartbeat, query_stats, opcode_of, request_items, write_request, read_all, of_text, of_id, of_ids,
  of_nothing, of_advertise, of_subscribe, read_request,
}
use cpp_robot_middleware.Messages.RoundTrip.{
  AllFit, flat, kinds_of, write_items-flat, read_items-flat,
}

-- A handler reads what was written for it.
pub read_all-flat :
    {A : Type 0} (items : List Item) (build : List Item → Option A) {a : A}
    → AllFit items
    → build items ≡ some a
    → read_all (kinds_of items) build (flat items) ≡ some a
read_all-flat items build fit built =
    let whole =
      ap (read_items (kinds_of items)) (sym (append-nil (flat items)))
      ∙ read_items-flat items [] fit in
    rw whole built

-- A request is read if its handler expects what was written.
travels :
    (q : Request) (build : List Item → Option Request)
    → AllFit (request_items q)
    → ((buf : List ℕ)
        → read_request (opcode_of q) buf ≡ read_all (kinds_of (request_items q)) build buf)
    → build (request_items q) ≡ some q
    → (buf : List ℕ) × (write_request q ≡ some buf) × (read_request (opcode_of q) buf ≡ some q)
unfolding write_request
travels q build fit handler built = (
  flat (request_items q),
  write_items-flat (request_items q) [] fit,
  handler (flat (request_items q)) ∙ read_all-flat (request_items q) build fit built,
)

-- Of every request, with integers that fit their fields and strings below 2^32 bytes, the client
-- writes a payload that the server's handler for its opcode reads as the same request.
pub read_request-write :
    (q : Request)
    → AllFit (request_items q)
    → (buf : List ℕ) × (write_request q ≡ some buf) × (read_request (opcode_of q) buf ≡ some q)
unfolding read_request opcode_of request_items of_advertise of_subscribe
read_request-write (register_node name) fit =
    travels (register_node name) (of_text register_node) fit (λ buf. refl) refl
read_request-write (unregister_node node) fit =
    travels (unregister_node node) (of_id unregister_node) fit (λ buf. refl) refl
read_request-write (advertise_topic node r pool) fit =
    travels (advertise_topic node r pool) of_advertise fit (λ buf. refl) refl
read_request-write (unadvertise_topic node endpoint) fit =
    travels (unadvertise_topic node endpoint) (of_ids unadvertise_topic) fit (λ buf. refl) refl
read_request-write (subscribe_topic node r path queue) fit =
    travels (subscribe_topic node r path queue) of_subscribe fit (λ buf. refl) refl
read_request-write (unsubscribe_topic node endpoint) fit =
    travels (unsubscribe_topic node endpoint) (of_ids unsubscribe_topic) fit (λ buf. refl) refl
read_request-write (resolve_endpoint node endpoint) fit =
    travels (resolve_endpoint node endpoint) (of_ids resolve_endpoint) fit (λ buf. refl) refl
read_request-write list_nodes fit =
    travels list_nodes (of_nothing list_nodes) fit (λ buf. refl) refl
read_request-write list_topics fit =
    travels list_topics (of_nothing list_topics) fit (λ buf. refl) refl
read_request-write (query_topic name) fit =
    travels (query_topic name) (of_text query_topic) fit (λ buf. refl) refl
read_request-write (attach_heartbeat node session) fit =
    travels (attach_heartbeat node session) (of_ids attach_heartbeat) fit (λ buf. refl) refl
read_request-write (heartbeat node session) fit =
    travels (heartbeat node session) (of_ids heartbeat) fit (λ buf. refl) refl
read_request-write query_stats fit =
    travels query_stats (of_nothing query_stats) fit (λ buf. refl) refl
