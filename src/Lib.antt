-- ===== src/Lib.antt =====
-- percas is a distributed cache. Each node keeps a storage engine, a gossip state and two HTTP servers. The
-- nodes tell each other of their members by gossip; from the members each node makes a consistent hash ring;
-- a request for a key is answered by the live member that owns the nearest point of the ring, and every other
-- node redirects it there. A client asks a node for the members and routes by itself.
--
-- The files and the code that they model:
--
-- - Ring.antt and its children: crates/gossip/src/ring.rs, `HashRing`. The hash murmurhash3_x86_32 is a
--   parameter that has values below 2^32 (Bytes.antt). Ring/Points sees the buckets as a set of points,
--   Ring/Nodes says which points a node adds, Ring/Nearest specifies the search, Ring/Lookup and
--   Ring/Stability are about `lookup` and `lookup_until`.
-- - Member.antt: crates/gossip/src/member.rs, `Membership` and its merge rules, with Member/Merge,
--   Member/Map and Member/Fresh; Member/View is its abstract view, the incarnation known of each member. Node.antt and Node/Persist: crates/gossip/src/node.rs, `NodeInfo` and its
--   file; `serde_json` is a parameter that reads back what it prints. FileSystem.antt is the part of
--   `std::fs` that is used, in which any read and any write may fail.
-- - Gossip.antt and its children: crates/gossip/src/gossip.rs, `GossipState`. `handle_message` and the end of
--   each task are functions on the state and the files (`World`); a write that fails is a panic, as in the
--   code. Gossip/Tasks has the tasks, Gossip/Tick what a tick chooses, Gossip/Loops the transport, the retries
--   and the turns of the four loops; Gossip/Invariant and Gossip/Keeps have the invariant, Gossip/Run the runs
--   as a step relation, Gossip/Chain, Gossip/Bootstrap and Gossip/Urls are about the bootstrap,
--   Gossip/Exchange about an exchange between two nodes.
-- - Proxy.antt: crates/gossip/src/proxy.rs, `Proxy::route`. Middleware.antt, with Middleware/Hops and
--   Middleware/Limit: the cluster proxy and the rate limit of crates/server/src/middleware.rs. Server.antt
--   and its children: crates/server/src/server.rs. Server/Data and Server/Control have the handlers,
--   Server/Listen the listeners and their URLs, Server/Start the identity that `start_gossip` chooses,
--   Server/Serve the starts of the two servers, Server/Shutdown the end. Engine.antt and Engine/Open:
--   crates/core/src/engine.rs over the cache `foyer`, a parameter. Metrics.antt and Metrics/Instruments:
--   crates/metrics/src/lib.rs. Telemetry.antt: crates/server/src/telemetry.rs. Version.antt:
--   crates/version/src/lib.rs and client/src/protos.rs.
-- - Command.antt and its children: cmd/percas/src/start.rs. A `Process` has what a start has bound, spawned and
--   waited for; `serve` is `run_server` up to the wait for the shutdown, Command/Launch is `CommandStart::run`.
-- - Xtask.antt and its children: xtask/src/main.rs. A `Shell` has the commands that were run
--   and the files. Xtask/Splice is about the loop of `run_custom_format`, Xtask/ReadOnly about the commands of `lint`.
-- - System.antt, System/Quotas and System/Runtime: the limits in crates/core/src/lib.rs, the builder of
--   runtimes and the join handle in crates/core/src/runtime.rs, the throttle in
--   crates/core/src/engine.rs and the conversions in crates/core/src/newtype.rs. Scheduled.antt:
--   crates/server/src/scheduled.rs.
-- - Client.antt, Client/Calls, Client/Route, Client/Direct and Client/Served: client/src/client.rs and client/src/route.rs over the crate
--   `reqwest`, a parameter; the network is a function from requests to responses.
-- - Config.antt and its children: crates/core/src/config.rs and cmd/percas/src/config.rs, over the crate
--   `toml_edit`, a parameter.
-- - Base.antt, Ord.antt, BTreeMap.antt, Exec.antt and Text.antt are the shared part: tests on numbers, the
--   order interface, `BTreeMap` as a sorted list of entries, calls on a state that return or panic, texts.
-- - Tests.antt: the witnesses, and runs at concrete values.
--
-- How the parts are seen: an asynchronous task that waits for the network is two steps, and the answer is an
-- argument of the second; what happens in between is other steps of the run. The gossip runtime has one worker
-- thread, so a handler is one step. Clocks and random numbers are arguments. Times are nanoseconds. A u64
-- incarnation wraps at 2^64. Every loop of the code goes over a list, and every function here is structurally
-- recursive: there is no fuel.
--
-- Not modelled: sockets, TLS and HTTP framing, the timers, what is logged, the exporters of telemetry, the
-- inside of the cache `foyer`, the parsing of arguments, the build script and the test harness.
pub mod Base
pub mod Ord
pub mod BTreeMap
pub mod Exec
pub mod Bytes
pub mod Ring
pub mod Text
pub mod FileSystem
pub mod Node
pub mod Member
pub mod Config
pub mod Gossip
pub mod Proxy
pub mod Client
pub mod Metrics
pub mod Engine
pub mod Version
pub mod Server
pub mod Middleware
pub mod System
pub mod Scheduled
pub mod Telemetry
pub mod Command
pub mod Xtask
pub mod Tests
