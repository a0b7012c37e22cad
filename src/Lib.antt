-- ===== src/Lib.antt =====
-- Socketley: the runtimes and their registry, the cache, the wire protocols and the saved state.
--
-- Socketley is a daemon that runs servers, clients, proxies and caches over an event loop. Modelled
-- here are the life cycle of a runtime and the registry of the runtimes, the configuration that is
-- saved for each, the arguments and names of the command line, the cache runtime with its store and
-- its commands in both protocols, the requests that the proxy forwards and its choice of a backend,
-- the Redis protocol that the cache's clients may speak, and the WebSocket protocol of the server
-- runtime. The daemon splits a line into arguments, resolves names against the registry, and starts or
-- stops runtimes there; a runtime's configuration is written at each change and read at the next
-- start. A cache connection parses a command, calls operations of the store, encodes the reply and
-- sends the command on to the followers; a WebSocket connection shakes hands and then exchanges
-- frames.
--
-- Files and the code that they model (paths below socketley/):
-- - Prelude: numbers, integers, lists, bytes. Prelude/Words has the conversions to machine integers
--   and `std::to_chars` and `std::from_chars` as documented.
-- - Map: an association list for the hash maps of cache_store.h; `find`, `emplace`, `insert_or_assign`
--   and `erase` as the standard library's, `assign` for a write through an iterator. Map/Laws and
--   Map/Footprint have their laws.
-- - Cache: runtime/cache/cache_store.h and cache_store.cpp. Cache/State has the members as the record
--   `Store` and the helpers; Eviction, General, Expiry, Strings, Lists, Sets, Hashes, Keys, PubSub and
--   Persist have the operations of the sections of the file, by their names; Commands puts those that
--   change the state of keys in one data type. Slots is the store as seen by one key; Frames, Writes,
--   Consistent and the modules named Soundness carry the invariant; Lru and its children are about the
--   eviction order.
-- - CacheInstance: runtime/cache/cache_instance.h and cache_instance.cpp. Session has the members that
--   a command uses and the helpers, Connection a client's buffers and the routines that flush them;
--   Strings, Containers, Deadlines and Keys have a function `<name>_command` for each case of the
--   switch of `process_resp_command`, which Dispatch has with the lookup by hash, and Pipeline has
--   `process_resp`. Text and its children have `process_command` in the same way, with a function
--   `text_<name>` for each case; Input has `handle_read` on the bytes that have arrived, Follower
--   `handle_master_read` on those from the leader. The modules named Keeps carry a predicate of the
--   store through every command; Refines, Invariant and ReadOnly use them; Refusals, Text/Denials and
--   Pipeline/Order are about the replies and the order.
-- - Resp: runtime/cache/resp_parser.h. Encode and Decode have the functions by their names.
-- - Ws: shared/ws_protocol.h. Mask has the unmasking loops, Frame the writers and the parsers,
--   Handshake the handshake.
-- - Runtime: Instance is the life cycle of shared/runtime_instance.cpp, with the calls that it makes
--   as a list of events; Manager is shared/runtime_manager.cpp, a map of instances. Instance/Lifecycle
--   has the protocol of the callbacks; Manager/Shrinks, Cascade, Quiet and Stopped are about its
--   `stop`, and Manager/Names about `rename`.
-- - Proxy: runtime/proxy/proxy_instance.cpp. Http has the reading and the rewriting of a request,
--   Http/Parsing, Http/Names and Http/Rewriting are about them; Backends has the circuit breakers and
--   the choice of a backend, Backends/Choice is about the choice.
-- - Config: shared/state_persistence.h and state_persistence.cpp. Json has the helpers, Names the
--   names of the enumerations and the hash of cli/command_hashing.h, Fields `runtime_config` with its
--   writer and its reader, Fields/Lookup and Fields/Laws what is found of what was written.
-- - Cli: Args is cli/arg_parser.h, Resolver is shared/name_resolver.h.
-- - Tests: runs on small inputs.
--
-- How it is modelled. A byte is a number, a buffer a list of bytes. An operation takes the store and
-- returns its result with the new store. Sizes wrap at 2 ^ 64 where the code adds them. The time is an
-- argument, in nanoseconds, one for an operation of the store. A command of the cache that reads the
-- clock again finds `later`, and one with several keys `now_each`; the proxy's choice of a backend has
-- the time of its transitions and a `clock` with one for each round of the loop behind them. The draws are a number for each length of the eviction order, since no two
-- evictions of one operation meet the same length; a run, a connection and a leader's lines have draws
-- for each command, and a command with several elements has `draws_each` for them. A node of the
-- eviction order has an identity that stands for its iterator. Undefined behaviour is `none`: an iterator used after its entry has
-- been erased, a pointer that is null or to a removed instance, a read outside a buffer, and an
-- overflow of a local array, of a signed integer or of a time point.
--
-- Fuel: the loop of `try_evict` has a round for each node of the order, since a round removes one; the
-- loops of `load_v2` and `load_v1` have one for each byte, since a record takes at least one; `scan`
-- and the masking loops have one for each key and byte. `stop`, `stop_children` and `remove_children`
-- call one another: their fuel is the depth of the owners. The loops of `parse` and `json_get_array`
-- have one round for each byte, and so has that of `process_resp`: a command takes one byte at least.
--
-- Parameters: the draws of the random generator (`Rng`), `fnmatch` (`FnMatch`), SHA-1 and Base64
-- (`Crypto`); the random distribution and the script's choice among backends; what `setup` and `fork`
-- return and what a script's loading gives; floating-point numbers with `%g` and `std::stod`
-- (`Floats`). `World` is what a command of the cache meets: the answer of the rate limits, the clocks and
-- the draws, also those of each element, which followers take a line, whether the kernel has zero-copy sends, whether a save
-- succeeds and what file is loaded; `turns` gives one for each command. The order of a hash map's
-- iteration is the order of its association list.
--
-- Not modelled: the cache's tokens of the rate limits, `connect_to_master`, its hooks into Lua (the
-- model is that of the build without Lua), and how it accepts connections, completes writes and closes
-- descriptors over the event loop (a connection that is to be closed is marked `closing`); opening,
-- mapping and renaming the files of the snapshot and of the configurations, the reader
-- `load_v2_stream` and `read_from_instance`; the tick callback, the global rate limit and the dispatch
-- of published messages and cluster events in the runtimes' base class and registry; the proxy's
-- groups of backends, health checks, retries and forwarding; the other subclasses of the runtimes, the
-- daemon, the event loop, clustering, Lua, TLS, and `rest_from` of the arguments.
pub mod Prelude
pub mod Map
pub mod Cache
pub mod CacheInstance
pub mod Resp
pub mod Ws
pub mod Runtime
pub mod Proxy
pub mod Config
pub mod Cli
pub mod Tests
