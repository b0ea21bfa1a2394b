-- ===== src/Lib.antt =====
-- lainlet keeps caches of what the cluster manager writes into etcd, and hands them out over HTTP, once
-- or as a stream of changes. This library models its own logic, from the store to the clients of its two
-- interfaces.
--
-- The parts, from the bottom up, with the Go files that they model:
-- * Store (store/store.go) has the actions, pairs and events of a backend and the helpers on keys;
--   Store/Etcd (store/etcd/etcd.go) the backend over etcd. The client library is the record `KeysApi`
--   and the list of results that its watcher yields. Store/Etcd/Tree is about the tree walk and the
--   reads, Store/Etcd/Streams about the goroutines of Watch and WatchTree.
-- * Watcher/Cacher (watcher/cacher.go) is the cache, an association list from keys to values in
--   which `none` is a nil value. Watcher/Sender (watcher/sender.go) adds the receivers and their
--   channels. A channel keeps all that was sent on it and how much its reader took; its capacity of
--   1 is the test `has_room`. Every method holds its lock throughout and so is one step;
--   Watcher/Sender/Reachable has the step relation, Watcher/Sender/Following a client over many
--   changes of the cache. Watcher/Loop (watcher/watcher.go) is the goroutine `watchStore` as turns
--   over the inputs that it meets, with Get, Watch and Status; Watcher/Loop/Events is about the
--   events of the store, Watcher/Loop/Resume about the refresh after their channel was closed,
--   Watcher/Loop/Runs about all that a new watcher may come to, and Watcher/Loop/Heard, over
--   Watcher/Loop/Told, about a client over many events of the store.
-- * Watcher/Config, Podgroup, Depends, Nodes and Container (watcher/*/*.go) are the conversions that
--   the loop is given, over the path functions of Watcher/Paths;
--   Watcher/Config/Mirror compares the converted configuration with the store, Watcher/Config/Follow
--   the cache with the store over a run of events.
-- * Auth (auth/auth.go) answers who may ask for what, from three watchers of its own, whose conversions
--   are in Auth/Convert.
-- * Api/Keys (api/v2/*.go, the Key methods, and GetString and GetBool of api/server.go) turns a
--   request into the key that it may ask for; Api/V2 (api/v2/*.go, the Make methods) turns the data
--   of a watcher into an answer; Api/Server (api/server.go) are the handlers that put these
--   together, and Api/Server/Stream is about a stream from the events of a watcher to the client
--   that reads it. Api/V2/Apis has the APIs as instances of one record. Api/EventSource
--   (api/event.go) is the source that writes the events of a request to its connection,
--   Api/EventSource/Closing is about its end; Api/Middleware (api/server.go) is what comes before a
--   handler, Api/Serve a request through them all.
-- * Endpoints (endpoints/*.go) are the gRPC services: Endpoints/Keys has the getKey methods,
--   Endpoints/Replies the replies that the make methods build, Endpoints/Services the services as
--   instances of one record, and Endpoints itself the Get and Watch that all of them have from one
--   template. Endpoints/Sharing is about the cache that the streams of a service share,
--   Endpoints/SameKeys compares the rights with those of the HTTP interface.
-- * Wire (api/event.go, client/client.go) is the text of an event stream, and what the client reads of
--   it; Wire/Decimal, Trimming and Lines are about the parts of a line, Wire/RoundTrip about whole
--   messages.
-- * Client (client/client.go) makes the requests of the client of the HTTP interface.
-- * GrpcClient (grpcclient/client.go) is the client of the gRPC services: GrpcClient/Methods has
--   its calls, GrpcClient/Watches its watchers, GrpcClient/Turns a watcher and its caller as a step
--   relation, GrpcClient/Phases and Delivery are about what the caller gets, GrpcClient/Answers
--   about the end of its calls, GrpcClient/Served about a stream from the events that a service
--   hears to its caller.
-- * Main (main.go, server/server.go) starts all that: Main/Watchers makes the watchers, Main/Apis and
--   Main/Grpc what is registered over them, Main/Start is main, Main/Wiring is about the types of the
--   values that reach the APIs and the services.
-- * Spec (spec/spec.go) has the data that deployd writes.
-- * Base has the names and lemmas that all modules share; Tests has examples.
--
-- How the Go code is read. A string is the list of its bytes. A call that may return an error or panic
-- has a `Result`. A map is an association list with distinct keys (`IsMap`), and a loop over a map takes
-- its entries in the order of the list; the statements do not depend on that order, except where an
-- answer is itself a slice in that order. A uint64 counter is a number modulo 2 ^ 64; other integers
-- that are only copied or counted by the length of a list are unbounded, and an int32 of a message is
-- the number modulo 2 ^ 32 that its bits make. json.Unmarshal and
-- json.Marshal, os.Hostname and the HTTP request are parameters. Logging and sleeping are left out. The
-- digits of a uint64 are printed with a fuel of 20, which is enough for every one of them; no other
-- definition needs fuel: every loop of the source runs over a list or over a tree of nodes, and the two
-- endless loops, watchStore and the loop of handleWatch, are functions of the inputs that they meet;
-- the goroutine of a gRPC watcher is a step relation.
--
-- Not modelled: what the libraries do for the program (net/http, martini, gRPC, the client of etcd), the
-- generated messages (message), the small program under tools, races on the caches of the services, and
-- the goroutines that only wait for one channel to close another.
pub mod Base
pub mod Spec
pub mod Store
pub mod Watcher
pub mod Auth
pub mod Api
pub mod Endpoints
pub mod Wire
pub mod GrpcClient
pub mod Client
pub mod Main
mod Tests
