-- ===== src/Messages.antt =====
-- The payloads between a client of the registry, middleware/src/detail/registry_client.cpp, and its
-- server, registry/src/registry_server.cpp: a sequence of integers and strings, which PayloadWriter
-- writes and PayloadReader reads one after the other. The read calls of a handler stand in one
-- condition, so the first that fails ends the reading.
pub mod Requests
pub mod Answers
pub mod RoundTrip
pub mod Requested
pub mod Answered
pub mod Frames
pub mod Delivery
mod Tests
use cpp_robot_middleware.Prelude.{ℕ, List, [], ◌∷◌, ◌++◌, Option, none, some, and_then}
use cpp_robot_middleware.Wire.{encode_be}
use cpp_robot_middleware.Control.{write_string, read_integer, read_string}

-- A value in a payload: an integer with its width in bytes, or a string.
pub data Item : Type 0 where
  integer : ℕ → ℕ → Item
  text : List ℕ → Item

-- What a reader expects.
pub data Kind : Type 0 where
  word : ℕ → Kind
  string : Kind

abbrev pub u16 : Kind
u16 = word 2

abbrev pub u32 : Kind
u32 = word 4

abbrev pub u64 : Kind
u64 = word 8

-- A sequence of calls of a writer.
unfoldable pub write_items : List Item → List ℕ → Option (List ℕ)
write_items [] out = some out
write_items (integer width value ∷ items) out = write_items items (out ++ encode_be width value)
write_items (text value ∷ items) out = and_then (write_string out value) (write_items items)

-- A sequence of calls of a reader: the values and what is left.
unfoldable pub read_items : List Kind → List ℕ → Option (List Item × List ℕ)
read_items [] buf = some ([], buf)
read_items (word width ∷ kinds) buf = and_then (read_integer width buf) (λ (value, rest).
    and_then (read_items kinds rest) (λ (items, left). some (integer width value ∷ items, left)))
read_items (string ∷ kinds) buf = and_then (read_string buf) (λ (value, rest).
    and_then (read_items kinds rest) (λ (items, left). some (text value ∷ items, left)))
