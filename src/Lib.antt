-- ===== src/Lib.antt =====
-- gozara: an ephemeral storage network for block proving. A client takes blobs over HTTP, cuts them
-- into chunks, and pushes the chunks to storage providers over libp2p.
--
-- The parts and how they interact. The bridge (bin/client/src/bridge.rs) serves HTTP: it admits an
-- upload, hashes its chunks and sends the blob to the coordinator, and keeps a list of statuses for
-- each id. The coordinator (bin/client/src/coordinator.rs) works on one blob at a time: it asks for
-- storage permits through the swarm task, assigns the chunks that are due to the peers that have
-- granted one, and tells the bridge when every chunk is stored. The swarm task (crates/peyk/src/lib.rs)
-- stands between libp2p and the coordinator. Chunks travel by the blob transfer protocol
-- (crates/peyk/src/blob_transfer.rs). A client (bin/client/src/lib.rs) is configured from its
-- environment, joins the network through a bootnode (bin/bootnode), and runs these tasks until one of
-- them ends.
--
-- Which file models which part:
--   Base and its children: tests on native numbers, lists, results, maps as association lists in their
--     order of iteration, and instants in nanoseconds.
--   Peyk/Link: one stream, as the bytes that come in, those that go out, what the transport still takes
--     and the reports on a channel; a state monad with failure stands for async code that uses `?`.
--   Peyk/Frame: `write_frame` and `read_frame`. Peyk/Transfer: `push`, `pull`, `handle_incoming_push`,
--     `handle_incoming_pull`, `accept_pushes` and `accept_pulls` of blob_transfer.rs.
--   Peyk/Protocol, Peyk/Events: the messages of crates/peyk/src/protocol.rs, lib.rs and
--     blob_transfer.rs. Peyk/Swarm: `process_swarm`. Peyk/Behaviour: crates/peyk/src/p2p.rs.
--   Client/Messages: the types of bin/client/src/admission.rs, which is not in the repository.
--   Client/Bridge: `Admission`, `get_status`, `get_blob` and the message loop of bridge.rs.
--     Client/Bridge/Upload: `new_blob` as one operation. Client/Bridge/Server: the uploads that run at
--     the same time, a step each time between which others go on, the disconnection of a client
--     included.
--   Client/Coordinator: `Pipeline` and its methods. Client/Coordinator/Assign: `assign_chunks`.
--     Client/Coordinator/Events: the loop of `run`, a round of `select!` as one event, and the end of a
--     spawned upload as an event too. Client/Coordinator/Order: the pipeline as a queue of blobs.
--   Client/System: the bridge with its uploads, the coordinator and the swarm task of
--     bin/client/src/lib.rs with their four channels, and histories of the coordinator behind the swarm
--     task.
--   Client/Start, Client/Config, Client/Network: bin/client/src/main.rs, and `go_public` and the start
--     of `run` of lib.rs. Client/Supervision: the rest of `run`, with the tasks that bridge.rs starts
--     and crates/common/src/shutdown.rs: which task ends when another has ended or the token is
--     cancelled, and what `run` returns.
--   Bootnode: bin/bootnode/src/main.rs; its behaviour, of bin/bootnode/src/lib.rs, is in
--     Peyk/Behaviour.
--   Peyk/Blake3, Client/Services, and `Libp2p` of Peyk/Behaviour: what is taken from the crates blake3,
--     rs_merkle, mti, http, tokio and libp2p, with the laws that they document. Examples: concrete
--     instances and runs.
--
-- Numbers are natural numbers; `u32` and `usize` wrap or are checked where the source's do. Fuel is
-- used by `fill`, the loop that moves a frame into chunks: each round takes at least one byte, so the
-- frame's length is enough. An instant is in nanoseconds, and `checked_add` fails where its seconds no
-- longer fit 63 bits. CHUNK_SIZE is a positive parameter.
--
-- Not modelled: libp2p itself, whose behaviours are what they were configured with and told; command
-- lines and the routing of HTTP requests, which only name the handlers; tracing and printing; the wait
-- on a full channel and on the semaphore for hashing, which only delay; the connections of the HTTP
-- server, for which its graceful shutdown waits; and the Merkle hasher
-- (bin/client/src/blake3_wrapper.rs), one call of blake3.
pub mod Base
pub mod Peyk
pub mod Client
pub mod Bootnode
pub mod Examples
