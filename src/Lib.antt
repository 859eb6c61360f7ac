-- ===== src/Lib.antt =====
-- A model of a search cluster: nodes that find each other by gossip (src/membership), a
-- partitioned and replicated map (src/storage), a partitioned task queue with leases
-- (src/executor), and the ingestion and search services that use them.
--
-- Parts and files:
-- - src/membership/types.rs, service.rs: Membership/Types, Membership/Service (the handlers of
--   `MembershipService`, each returning the new state and the datagrams sent), Membership/Detector
--   (`failure_detection_loop`), Membership/Cluster (any number of these processes with datagrams
--   that are delivered in any order, repeatedly or never). `RwLock<u64>` and the members map are the
--   fields of `Service`.
-- - src/storage/partitioner.rs: Storage/Partitioner, with the sort of the ids in Storage/Sort.
-- - src/storage/memory.rs: Storage/Memory; src/storage/protocol.rs: Storage/Protocol. The record
--   `Store` is `local_data` and `processed_ops` of `DistributedMap`.
-- - src/executor/queue.rs: Executor/Queue (local operations), Executor/Routing (submission,
--   replication, lookups on other nodes); src/executor/types.rs, protocol.rs: Executor/Types.
-- - src/storage/handlers.rs: Storage/Handlers; src/executor/handlers.rs: Executor/Handlers. A
--   reply is a status with its payload.
-- - src/executor/executor.rs and registry.rs: Executor/Worker (a round of `worker_loop`),
--   Executor/Worker/Renewal (`spawn_lease_renewal`).
-- - src/search/types.rs, tokenizer.rs, engine.rs, handlers.rs: Search/Types, Search/Tokenizer,
--   Search/Engine, Search/Handlers.
-- - src/ingestion/types.rs, handlers.rs: Ingestion/Types, Ingestion/Parsing (`split_gutenberg_text`,
--   `parse_metadata`, `compute_counts`), Ingestion/Handlers.
-- - src/main.rs: Storage/Sync (`sync_partitions`), Executor/Sync (`sync_queue_partitions`), App (the
--   three maps and the queue of a node), Indexer (the handler `index_document`; Indexer/Round is a
--   round of a worker with it), Server/Args (the command line), Server/Boot (from the command line
--   and the environment to a node that has nothing yet), Server/Node (the requests to the node's
--   routes, the rounds of the workers and those of the sync loops as events), Server/Routes (the
--   router as data, and the paths of the requests between nodes), Server/Endpoints (`handle_stats`
--   and the handlers of the maps at their types).
-- - ui/src/main.rs: Dashboard.
-- - The retry loops `post_with_retry` and `get_with_retry` of queue.rs and memory.rs: Effects.
--
-- How the parts interact: a node's view of the members decides, through the partitioner, who owns
-- a partition (Site); the map and the queue read that view and send requests to the owners. The
-- ingestion writes a document and its metadata to two maps and submits a task; a worker runs that
-- task, which reads the document and updates the index, the third map; the search reads the index
-- and the metadata. Their state is the record `App`, and an operation on one map is lifted to it.
--
-- How the code is read:
-- - `DashMap` is an interface (DashMap) with the documented laws and no order of iteration;
--   Assoc is an instance of it for runs. A method is one step: the locks of `DashMap` make a write
--   to an entry atomic, and interleavings are sequences of such steps (Executor/Queue/Claims).
-- - An `async` method is an action on the component's state with the log of requests sent
--   (Effects); the network answers each request as it likes, or not at all. A method that answers
--   with `Option` or `Result` returns its error as a value; of an error's text only its cause is
--   kept.
-- - Clock readings, drawn identifiers and the jitter are arguments. Machine integers wrap around
--   (`% 2 ^ 64`, `% 2 ^ 32`, `% 2 ^ 16`); the u16 sum of a port would panic in a debug build.
-- - An operation of the queue takes the partition of its task as an argument; the source computes
--   it from the id first, as the callers here do (`partition_of`).
-- - Fuel is the number of attempts of a retry loop, which the code passes itself, and twenty for
--   the digits of a usize in a URL, which are enough (Text/Digits).
-- - A text is the list of its code points (Text has the methods of `str` that are used); positions
--   count characters, as every slice begins and ends at one. A panic of a slice is a value.
-- - The set of a document's terms is a list without repetitions, iterated in any order (`shuffle`).
-- - `bincode`, `serde_json`, `ToString` and `FromStr` of the keys and the hash are parameters
--   (Codec, Format, Hasher), and so are the tables for Unicode, the matches of the regular
--   expressions (Unicode, Regex, with laws that hold of them), the download of a book, the parsing
--   of socket addresses, the matching of a path by the router (Server/Routes/Matching), and the HTTP
--   client and URL encoding of the dashboard. The environment is a function from names.
-- - The log of requests of the maps is one, that of the queue another.
-- - Theorems on a node that owns everything have `IsAlone`: it is the only alive member that it
--   knows. Theorems without it hold for any answers of the network.
--
-- Not modelled: sockets, the start of the HTTP servers, timers and the spawning of tasks (an event
-- says what a round of a loop reads from the clock), log output and the loop that logs statistics,
-- and the dashboard's page. A datagram or request that cannot be sent is one that gets no answer.
-- The moments at which a lease is renewed are arguments, without the 10 seconds of sleep between
-- them.
-- Two workers that update the postings of one token at the same time are not interleaved within an
-- index task of Server/Node, whose read and write of a token are two requests in the source;
-- Indexer/Race is the case where they are.
pub mod Text
pub mod App
pub mod Search
pub mod Ingestion
pub mod Indexer
pub mod Server
pub mod Dashboard
pub mod Prelude
pub mod DashMap
pub mod Assoc
pub mod Membership
pub mod Effects
pub mod Storage
pub mod Site
pub mod Executor
pub mod Tests
