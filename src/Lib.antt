-- ===== src/Lib.antt =====
-- The Go libraries of this repository: gee (a web framework), geeCache (a distributed cache),
-- geeRpc (remote procedure calls) and geeGorm (an object-relational mapper). Each folder here models
-- the folder of that name, one module per part:
--
--   GeeCache/Lru             geeCache/lru/lru.go: Cache with New, Get, Add, removeOldest, Len. A
--                            `*list.Element` is an address, and the list and the map share addresses.
--   GeeCache/ConsistentHash  geeCache/consistenthash/consistenthash.go: Map with New, Add, Get
--   Gee/Trie                 gee/context/mygee/tire.go: the prefix tree of routes
--   Gee/Router               gee/context/mygee/router.go: addRoute, getRoute, handle over the tree
--   GeeRpc/Client            geeRpc/client.go: the pending calls of a Client. A `*Call` is an address
--                            in a store of calls, `done` counts what is sent on its channel.
--   GeeRpc/Discovery         geeRpc/xclient/discovery.go and discovery_gee.go
--   GeeRpc/Registry          geeRpc/registry/registry.go: the table of servers and its HTTP handler
--   GeeCache/SingleFlight    geeCache/singleflight/singleflight.go: Do, as steps of goroutines
--   GeeCache/Group           geeCache/geecache.go, cache.go and byteview.go
--   Gee/Engine               gee/context/mygee/gee.go: groups and the chain of handlers of a request
--   GeeRpc/XClient           geeRpc/client.go: dialing and the calls over a discovery
--   GeeRpc/Service           geeRpc/service.go and the services of geeRpc/server.go
--   GeeGorm/Clause           geeGorm/clause: the generators, Set and Build. `init` panics on its nil map
--                            (Clause/Fills), so what takes the table is stated for any table.
--   Gee/Context              gee/context/mygee/context.go and recovery.go: Next, as a machine with a stack.
--   GeeRpc/Server            geeRpc/server.go: ServeConn and the loop of ServeCodec
--   GeeRpc/Server/Handling   geeRpc/server.go: the two goroutines of handleRequest
--   GeeCache/HttpPool        geeCache/http.go: the pool of peers, its handler and its getter
--   GeeGorm/Schema           geeGorm/schema and geeGorm/dialect
--   GeeGorm/Session          geeGorm/session, and Transaction of geeGorm/geegorm.go
--   GeeGorm/Migrate          geeGorm/geegorm.go: Migrate and `difference`
--   GeeRpc/Broadcast         geeRpc/client.go: the goroutines of BroadCast
--   GeeRpc/Handshake         geeRpc/client.go and geeRpc/server.go: the handshake over HTTP
--   Gee/Exact                gee/base/base3/mygee/gee.go: an earlier stage, with exact routes
--   Gee/Response             gee/context/mygee/context.go: the methods that answer a request
--   Gee/Static               gee/context/mygee/gee.go: the files that a group serves
--   GeeRpc/Codec             geeRpc/codec/gob.go: the codec of messages
--   GeeRpc/Heartbeat         geeRpc/registry/registry.go: the heartbeats of a server
--   GeeCache/Api             geeCache/main.go: the group of the program and its front end
--   GeeGorm/Logs             geeGorm/log/log.go: the level of what is logged
--   GeeGorm/Engine           geeGorm/geegorm.go: NewEngine and Close
--   GeeRpc/Server/Accepts    geeRpc/server.go: Accept
--   Base                     Go strings as lists of bytes, slices over shared arrays, maps as association
--                            lists, machine integers with their wrap-around, results that may panic or
--                            block
--
-- The child modules hold the lemmas and theorems, and each folder's Tests the examples.
--
-- Parameters of the model are the hash function of the ring, the size of a cached value, the random
-- source, the clock (a function of the entry that is read), the answers of the registry, of the
-- network and of the database, and what the codec returns for each message. A Go map is an
-- association list; where the source ranges over a map, the model takes the list's order, and no
-- theorem depends on it. Mutexes are taken and released inside one operation, so an operation is one
-- step, but for `Do` in GeeCache/SingleFlight, `handleRequest` in GeeRpc/Server/Handling,
-- `BroadCast` in GeeRpc/Broadcast and `Call` in GeeRpc/Client/Calls, where a schedule orders the
-- steps of the goroutines. Every loop is a structural recursion over its list, with three
-- exceptions. The digits of strconv.Itoa run on fuel, one more than the number, which has no more
-- digits than that. The machine of Gee/Context takes a number of steps, for which Gee/Context/Ends
-- has a bound. The loop of ServeCodec, which need not end, runs a given number of rounds.
-- Not modelled: HTTP and socket transport, generated protobuf code, html/template, what is logged
-- other than by NewEngine and Close of geeGorm, calls by reflection, the scheduling of goroutines in
-- the other operations, the sharing of arrays between slices other than the middlewares of
-- Gee/Engine, and the demo programs: they are input and output, generated code, or code of the
-- standard library.
pub mod Base
pub mod GeeCache
pub mod Gee
pub mod GeeRpc
pub mod GeeGorm
