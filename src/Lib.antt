-- ===== src/Lib.antt =====
-- cpp_robot_middleware: a publish and subscribe middleware for robots in C++. A publisher lends
-- chunks of a memory pool in shared memory, writes a message into one, publishes it and puts its
-- handle into the bounded queue of every subscriber; a frame on a socket wakes the subscriber, which
-- takes the handle, reads the chunk and releases its reference. When the last reference is gone the
-- publisher reclaims the chunk.
--
-- The parts, and the files of the repository that they model (all below middleware/src/detail/
-- unless a path is given):
--   * Prelude: numbers, words with their wrap-around, Boolean tests and list lemmas.
--   * ErrorCode: middleware/include/mw/result.hpp and the policies of middleware/include/mw/config.hpp.
--   * Handle: ChunkHandle of pool_protocol.hpp, which the pool, the queue and the frames share.
--   * Wire: big-endian fields, frames with zero padding, and isValidSharedMemoryName of
--     shared_memory.cpp. Every frame of the protocols is a list of fields laid into zero bytes.
--   * Frame, PoolProtocol, QueueProtocol, ShmProtocol: frame_protocol, pool_protocol, queue_protocol
--     and shm_protocol, each with encoder, decoder and validation; the child RoundTrip has the proofs.
--   * Control: control_protocol.hpp and control_protocol.cpp, the frames to and from the registry;
--     Payload has the proofs.
--   * Queue: subscriber_queue.hpp and subscriber_queue.cpp. The shared header and its slots are the
--     record Queue. Lock is PthreadLock, Clock the deadlines, Enqueue the producer's side, Consume the
--     consumer's side and discardPool, Setup the life of the segment. Invariant, Window and Contents
--     read the ring as a list; Fifo is the bounded list that Refinement compares with; Blocking,
--     Delivery, Compaction, Opening and Closing prove the rest.
--   * Pool: memory_pool.hpp and memory_pool.cpp. Construct has makeLayout and create, Allocate,
--     Publish and Release the operations on a handle. Invariant, Cases, Allocation and Preservation
--     prove the invariant; Lifecycle, References and Handles what a handle goes through; Layout, Apart
--     and Fresh what a new segment looks like. View is MemoryPoolView and Reading what it reads;
--     Metadata has the codecs of the segment's tables.
--   * Map: std::map and std::set as lists in the order of their keys, with their laws.
--   * Registry: registry/src/registry_state.cpp and registry/include/mw/registry/registry_state.hpp, the
--     directory of nodes, topics and endpoints that the registry process keeps. Nodes, Topics, Endpoints,
--     Cleanup, Liveness and Queries have the operations; Calls puts those that change the state into one
--     step. Invariant says how the six maps belong together; Sizes, Unlink, Settle, Removal, Unadvertise,
--     Unregister, Link, Create, Growth, Advertise, Members, Deaths and Steps carry it through the operations, and
--     Runs, Watch, Discovery, Outcomes, Partings and Reached state the results.
--   * Messages: the payloads between middleware/src/detail/registry_client.cpp and the server. Requests and
--     Answers have what one side writes and the other reads, Frames the frames around them (request,
--     receiveFrame, one turn of parseFrames, the Ok answer of queueResponse); RoundTrip, Requested,
--     Answered and Delivery the proofs. A payload has at most 64 KiB, as docs/PROTOCOL.md says.
--   * Server: registry/src/registry_server.cpp, the dispatch of a request to the registry's state.
--     Dispatch has the handlers, Events what applyCleanup keeps for heartbeats, Departures removeClient,
--     closeCleanupConnections and expireDeadNodes with their proofs; Safety and Waiting the other
--     proofs. A reply holds the arguments of queueResponse, which encodes them as Control does.
--   * ProtocolTests, and the Tests of Queue, Pool, Registry, Messages and Server: the theorems at concrete inputs.
--
-- State is passed explicitly: each operation takes the queue or the pool and returns what it leaves
-- behind. Operations run under a mutex, so each is one step. What the operating system answers is an
-- argument: the outcome of a lock with the repair after an owner's death, the result of the wake-up
-- callback, the clock, and for BLOCK_WITH_TIMEOUT the list of waits to come, each with an arbitrary
-- change that other processes make to the queue while the mutex is given up. That list bounds the
-- wait loop; one wait that meets the deadline is enough for the loop to end. The other loops run over
-- a list or a count that the source fixes beforehand, so they need no bound. Counters and sequence
-- numbers wrap at 32 or 64 bits as in the source; the signed overflow that a deadline's seconds can reach has
-- no defined result and is none. In the registry the exception std::out_of_range of
-- map::at is the result none, and what state a throwing call would leave is not modelled; times are
-- nanoseconds of the monotonic clock, given to each call.
--
-- Not modelled: the mapping of shared memory and the set-up of robust mutexes beyond their success or
-- failure, threads, memory ordering of the atomics (all changes to a chunk are made by the publisher's
-- process under its mutex); the sockets, epoll, accepting and buffers of the registry's server, its loop
-- over the frames in the input, the frames of its answers other than Ok, and the unlinking of names, so
-- that queueing an answer never loses the client; the socket calls of the registry's client and its
-- reading of lists, statistics and heartbeats; the public publisher and subscriber classes, the
-- ROS 2 adapter, the tools, the examples and the benchmarks. abandonMutexForTesting is left out.
pub mod Prelude
pub mod ErrorCode
pub mod Handle
pub mod Queue
pub mod Wire
pub mod Map
pub mod Frame
pub mod Control
pub mod Registry
pub mod Messages
pub mod Server
pub mod Pool
pub mod PoolProtocol
pub mod QueueProtocol
pub mod ShmProtocol
pub mod ProtocolTests
