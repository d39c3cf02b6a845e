-- ===== src/Lib.antt =====
-- The verification library of go-api-demo, a service that stores and finds users. Requests arrive
-- over HTTP and gRPC; users are stored in MySQL or in memory; Debezium reports each change of the
-- table of users to Kafka, and the consumers for Redis and for Elasticsearch apply the changes.
--
-- The parts and their files. Paths of the program are below internal/.
-- - User: user/user.go, the user and the interfaces Creator, Reader and Searcher. An interface is a
--   record of operations on a state `S` that its implementation chooses; the clients take the record
--   as a parameter, and the storages of Storage/ give one each.
-- - Create, Read, Search, with their Http and Grpc: the packages of the same names in user/. Each has
--   an interactor (`create`, `read`, `search_users`), a presenter (`view_model`) and two controllers
--   (`create_http`, `create_grpc` and so on). A controller takes an `Exchange` (Server: the response,
--   the state behind the storage, the log) or, for gRPC, a `Host` to the next.
-- - Processor: user/consume/processor.go, what a change event does to a store.
-- - Consume: consume/consumer.go, the loop over the messages, and Consume.Consumers, the making of the
--   consumers; Topic: consume/topic.go. Metrics: metrics/metrics.go, what the consumers count.
-- - Schema: schema/schema.go, the codecs of the registry and the decoder of messages.
-- - Storage.Memory, Storage.Mysql, Storage.Redis and Storage.Elastic: storage/memory/user.go,
--   storage/mysql/user.go, storage/redis/user.go and storage/elastic/user.go. The goroutines of
--   Storage.Elastic.Create are a step relation, and Storage.Memory.Abstract is the quotient of the
--   storage in memory by what can be read from it.
-- - App: app/app.go, the run of the components until one fails or a signal comes, a step relation,
--   and the closing. Routing: routing/, the table of routes and the methods of the gRPC server, and in
--   Routing.Run the run of the two servers beside the goroutine that stops them.
-- - Bootstrap: bootstrap/, which connects all of them; Bootstrap.Up has its parts where every service
--   answers and the libraries accept the settings, in the logic of Effect (code that
--   may panic) and Effect.Fallible (or return an error).
-- - Main: cmd/main.go, from the repository's root: the making of the application, its run and its
--   closing, a step relation on the states of `main`.
-- - Capture: the consumer, the processor and a storage together; an interface of storages, which
--   Storage.Memory and Storage.Redis fill. Capture.Again has runs that start again and get messages
--   again, Capture.Partitions any number of consumers of one group, round by round, and
--   Capture.Listing GET /user over the cache that a consumer has filled, and Capture.Created the same
--   after a POST /user. Capture.Index is the consumer for the search, over
--   Storage.Elastic.Create.One, which is Create for one user. Capture.Hits is what that consumer leaves
--   in the index, and Capture.Searched GET /user/search over it.
-- - Trace: the tracing of the clients of Redis and Elasticsearch, of their storage/ files.
-- - Telemetry: telemetry/telemetry.go, the shutdown of the component, and in Telemetry.Run its run.
-- - Config: config/config.go. Sanitise, Validate, Format, Response, Log: the packages of these names.
-- - Error, Context, Time, Json, Fmt, Int: what the code uses of Go and its standard library.
-- - Prelude: the shared names and lemmas. Tests: runs, and the theorems at concrete inputs.
--
-- What is outside the repository is a parameter: the validation engine (`Engine`; what is relied on
-- is `IsLawful`), the Kafka reader (`KafkaReader`; `IsQueue`), mapstructure (`decode`), the Avro
-- library and the HTTP client (`Registry`), the database (`Db`), the Redis client (`Cache`;
-- `IsStore`), the connections to Kafka (`Kafka`), the Elasticsearch client (`Client`) with its index
-- (`IsIndex`) and what a search finds once the index was refreshed (`Finds`), the error group
-- (`Group`; `IsGroup`), the offsets that a group commits (`Resumes`: the last commit of a partition
-- counts), the tracer (`Tracer`), what SCAN finds (`Scans`), what a component does while it runs
-- (`may_return`, `acts`, `may_panic`), the servers (`Server`; `IsServer`), the meter (`Meter`), the
-- providers of OpenTelemetry (`Otel`), what bootstrap calls to connect (`Kit`; `IsUp`), the text of a time in JSON (`TimeText`), the order of
-- a range over a map (`order`), the local time zone (`Zone`), the text of an error with its stack
-- (`render`), the parse of a duration and the quoting of a text (`Strconv`).
--
-- `Run` of the consumer loops until its context is cancelled: the model takes the number of rounds,
-- and one round more than the reader has events is enough. A call that may panic returns an
-- `Outcome`. The numbers of Go stay in the range of 64 bits here: timestamps are divided before they
-- are multiplied, lengths are those of texts in memory, and `atoi` tests the range; only the count of
-- messages wraps, modulo 2^64.
--
-- Not modelled: which entry of the table of routes a request gets, and the HTTP and gRPC servers
-- themselves; the text of JSON and of SQL results; requests that overlap on one storage, beyond the
-- locks that make a call one step; what third-party libraries do inside.
pub mod Prelude
pub mod Error
pub mod Context
pub mod Int
pub mod Time
pub mod User
pub mod Json
pub mod Log
pub mod Main
pub mod Response
pub mod Fmt
pub mod Server
pub mod Sanitise
pub mod Validate
pub mod Format
pub mod Processor
pub mod Create
pub mod Read
pub mod Search
pub mod Storage
pub mod Consume
pub mod Config
pub mod Schema
pub mod Topic
pub mod Trace
pub mod Telemetry
pub mod App
pub mod Effect
pub mod Metrics
pub mod Routing
pub mod Capture
pub mod Bootstrap
mod Tests
