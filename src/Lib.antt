-- ===== src/Lib.antt =====
-- Percept collects events from sensors, keeps the recent ones in memory and all of them in SQLite, and
-- answers questions about them. This library models its core, crate by crate, and proves what makes the
-- parts correct.
--
-- The parts and how they interact. A producer sends events by HTTP or by WebSocket
-- (crates/ingest/src/http.rs and ws.rs), with a token whose scope limits sources and kinds
-- (crates/ingest/src/auth.rs). What passes goes over a bounded channel to the normalizer
-- (crates/ingest/src/normalizer.rs), which numbers the events of each source, asks the schema index
-- (crates/ingest/src/schema.rs), pushes every event into the hot rings (crates/store/src/hot_ring.rs) and
-- offers it to three sinks: the cold writer, which commits batches to the cold store
-- (crates/store/src/cold), the embedder, which fills the vector index (crates/store/src/vector), and the
-- forwarder (crates/percept/src/forwarder.rs), which sends batches to a hub with the client
-- (crates/client/src). The sweeper (crates/store/src/retention) removes what the policies let go. A
-- subscriber of MQTT (crates/ingest/src/mqtt) routes the messages of a broker onto the same channel. The
-- configuration (crates/percept/src/config) is merged, given its secrets and checked before the server
-- (crates/percept/src/server.rs) builds the parts from it. Clients ask over one endpoint
-- (crates/percept/src/mcp), whose tools read the registry of descriptors, the rings, the store and the
-- vector index, and ask the peers.
--
-- The files. Prelude holds the shared names and lemmas: lists and integers over native numbers, maps as
-- association lists, texts, sorting and results. Core models crates/core/src (Core.KindRef,
-- Core.Descriptor, Core.Event, and JSON values in Core.Json). Store models crates/store/src:
-- Store.HotRing, Store.Cold (Rows, Append, Window, Sweep, Lookup and Day for cold/store.rs, Cursor for
-- cold/cursor.rs), Store.Retention (Policy, Sweeper) and Store.Vector (Selector, Truncate, TopK, Index,
-- Search). Ingest models crates/ingest/src: Auth, Wire, Metrics, Http, Ws, Normalizer, Schema and Mqtt
-- (Topic and Render for topic.rs, Decode, Router, Subscriber), and the channel between the tasks in
-- Bus. Client models crates/client/src (Event, Send). Tasks models the batching tasks: Loop is the loop
-- they share, ColdWriter is crates/store/src/cold/writer.rs, Embedder crates/store/src/vector/task.rs,
-- Forwarder crates/percept/src/forwarder.rs and Batcher crates/client/src/batcher.rs. Config models
-- crates/percept/src/config: Entries and Schema the sections and their merge, Duration and Validate
-- validate.rs, Secrets secrets.rs, Load and Descriptors mod.rs. Mcp models crates/percept/src/mcp:
-- Registry, Peer, Protocol and Router for the files of these names, Window, Sources, Search and Schemas
-- for tools.rs, State for the state of the server and its tools. Server and Server.Urls model
-- crates/percept/src/server.rs. Examples has inputs at which the theorems apply, and tests. A
-- definition has the name of the Rust function or type; a child module proves what its name says about
-- its parent.
--
-- How state and operations correspond. A struct is a record and an enum a data type. A method that
-- mutates `self` takes the state and gives the new one. Locks and channels make the steps atomic, so a
-- history is a list of calls or turns in their order. A SQL statement is a function on lists of rows, an
-- error that SQLite reports is an argument, and a transaction that fails leaves the tables as they were.
-- Clocks, new identifiers, answers of servers and peers, the environment and the contents of files are
-- arguments too. Code of other crates is a parameter: glob sets, JSON schemas, JSON paths, the codec of
-- payloads, UTF-8 and base64 of payloads, CBOR, base64 and BLAKE3 of cursors, what serde reads and writes
-- of a request, SQLite's LIKE, the bytes, the order and the cosine of f32, and the bounded channel.
--
-- Bounds. No function of the code runs on fuel: loops recurse on their list, on a number that counts
-- down, or on the characters of a text, where a look ahead is a state of the loop. The client that follows
-- the cursors of a window asks for a given number of pages, which is enough once they hold more events
-- than the window. Counters that are an AtomicU64 wrap at 2 ^ 64, as the age of an event does in i64; i64
-- saturates where the code says so, and casts between u64 and i64 are written out; a u64 that counts rows
-- or events of a source is a natural number.
--
-- What is not modelled: the command line, sockets and the start of the tasks; the connection to a broker
-- and the requests to peers; the parsing of TOML; rendering of metrics and of messages of errors; opening
-- and migrating databases, and the column `day` in a row; the timer of the sweeper; the blocking
-- client; and the hash embedder, which computes with f32.
pub mod Prelude
pub mod Core
pub mod Store
pub mod Ingest
pub mod Client
pub mod Tasks
pub mod Config
pub mod Mcp
pub mod Server
pub mod Examples
