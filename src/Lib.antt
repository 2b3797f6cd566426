-- ===== src/Lib.antt =====
-- The core of the EVOID plugins (packages/), in a functional model, with the theorems that make it
-- correct. Each plugin keeps a state and offers operations on it; here a state is a record, and an
-- operation a function on it. An operation that may raise answers a `Result` beside the state, since
-- what Python wrote before a raise stays written.
--
-- The parts, and how they interact:
-- * Di models packages/evoid-di/evoid_di. Di/Rules is rules.py (`Rule.matches`, `RuleSet`) with
--   context_extractor.py; Di/Engine is the class `DIEngine` of engine.py: its state, registration,
--   `resolve` and the caches, in Di/Engine/Routing `resolve_async` and `inject`, and in
--   Di/Engine/Fallback the health marks, `resolve_with_fallback`, `resolve_any` and the calls of the
--   cluster's registry. Key is the type of the keys of `_per_user`.
-- * Cluster models packages/evoid-cluster/evoid_cluster: Cluster/Node is node.py, Cluster/Registry
--   the class `ServiceRegistry` of registry.py, Cluster/Health the heartbeats and the check for dead
--   nodes of health.py, Cluster/Router the class `IntentRouter` of router.py, and Cluster/Protocol the
--   messages of protocol.py with `to_dict` and `from_dict` of node.py. Cluster/Bridge is the class
--   `ClusterBridge` of bridge.py, which hands messages to these. The health checker and the
--   router mark nodes in the registry, and the dependency injection engine asks it for a node where
--   all local services fail.
-- * Scheduler models packages/evoid-scheduler/evoid_scheduler: processor.py in Scheduler/Processor, and
--   in Scheduler/Engine the class `SchedulerEngine` of engine.py: `submit`, `cancel`,
--   `_dequeue` and `process_deferred` on the queue, with the cache of the metrics. The module `heapq`
--   is the interface `Heapq` of Scheduler/Heap, which Scheduler/Heap/Scan meets.
-- * Auth models packages/evoid-auth/evoid_auth: the registry of providers (providers.py), and
--   `authenticate` and `authorize` (processors.py); Auth/Roles is the hierarchy of roles.
-- * Storage models packages/evoid-smart-storage/evoid_smart_storage: the class `SmartStorage` of
--   engine.py in Storage/Engine, and schema_enforcer.py in Storage/Schema. Its backends come from the
--   dependency injection engine; they are the interface `Backends`.
-- * Tasks models packages/evoid-tasks/evoid_tasks/scheduler.py: the background tasks that `task` starts
--   and `cancel` and `shutdown` end in Tasks, and what a task does when it runs in Tasks/Run.
-- * Transport models packages/evoid-transport/evoid_transport/__init__.py: Transport/Bytes and
--   Transport/Packet the packets, Transport/Tracker the class `ACKTracker`, Transport/Server the class
--   `UDPServer`, and Transport/Port the class `EvoidUDPPort`, which hands what players send to the
--   message bus. The socket and the bus are the interfaces `Socket` and `Bus`.
-- * Kv models the packages that keep values under keys: Kv/Sqlite the class `SQLiteStorage` of
--   packages/evoid-sqlite/evoid_sqlite, Kv/Postgres `PostgresStorage` of
--   packages/evoid-postgresql/evoid_postgresql, Kv/Scylla `ScyllaStorage` of
--   packages/evoid-scylla/evoid_scylla, and Kv/Redis `RedisCache` of packages/evoid-redis/evoid_redis.
--   The drivers are the interfaces `Table` and `Server`, whose laws say what a call that does not raise
--   has done, and `json` is the interface `Json`. Kv/Commands says what the three storages have in
--   common, an interface that Kv/RowStore fills for each of them.
-- * Godot models packages/evoid-godot/evoid_godot/hosting.py: Godot/Build the builds of games and their
--   manifests, Godot/Serve the handlers of a game's routes, with the chunks of its file, and
--   Godot/Dispatch the router over all games. The pages made of the templates are the record `Pages`.
-- * Maubot models packages/evoid-maubot/evoid_maubot: Maubot/Command the file commands.py, and Maubot/Bot
--   the class `EvoidMaubot`, from the command of a user to its intent and the answer. The chat room and
--   the message bus are the interface `Host`. Maubot/Jitsi has the parsers of
--   packages/evoid-maubot/evoid_jitsi_maubot/commands.py.
-- * Evoid says what the plugins use of the package `evoid`, which is not part of this repository.
-- * Py has Python's dictionaries (entries in insertion order), texts, values and exceptions, and
--   Prelude the names and the lemmas that all modules share. Examples runs the packages on small
--   inputs.
--
-- Numbers are natural numbers, but for those that are read from a text by `int`, which may have a minus
-- sign: Py/Text/Whole reads them as Python does, with blanks, signs and underscores, where the text is of
-- ASCII characters; digits of other scripts are not read. Python's integers have no bound here: a
-- counter does not overflow. The fields of packets are masked to 32 bits as in the source.
-- Loads are in units of 1/65536, in which the kernel reports them, and times in nanoseconds, in place
-- of floating-point numbers. Two functions run on fuel. One is `dequeue_loop` of Scheduler/Engine: each
-- round takes an item out of the heap, so its length is enough, and `dequeue-eq-none` rests on that.
-- The other is `decimal` of Py/Text/Number: a round divides by ten, and there is one round more than
-- the number.
-- Every other loop is recursion on the list that the source goes through, or on its count.
--
-- Not modelled: logging; factories that call back into the engine that runs them; threads, since
-- every operation here runs to its end on one event loop, and where it awaits a backend or a
-- provider, that one acts on its own world alone; the reading of the operating system's metrics,
-- which are a parameter; msgpack, which is the interface `Codec`; database drivers and their
-- connections; evoid-dashboard; the templates and the message handler of evoid-godot; the start of the
-- chat bot, the formatters of its commands for Jitsi, and the volume among their arguments, which is a
-- floating-point number; the sockets and certificates of evoid-cluster, and code in Rust.
pub mod Auth
pub mod Cluster
pub mod Di
pub mod Evoid
pub mod Examples
pub mod Godot
pub mod Kv
pub mod Maubot
pub mod Prelude
pub mod Py
pub mod Scheduler
pub mod Storage
pub mod Tasks
pub mod Transport
