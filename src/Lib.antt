-- ===== src/Lib.antt =====
-- peerd: a proxy on each node of a cluster that serves blobs of container images in blocks of 1 MiB,
-- from a cache on disk, from the peers in the cluster, or from the origin of the blob.
--
-- A request for a blob (`handlers`) is given a key, the digest in its URL with the start of the block
-- in its range header (`Store.Key`, with `Urlparser` and `Context`), and `Open` makes a file of it
-- (`Store.Service`). The file (`Store.File`) asks the cache for the block that holds an offset
-- (`Cache.FileCache`), and the cache fetches what it does not have (`Files`) by a reader (`Reader`),
-- which tries the peers that the router names and then the origin. What was fetched ahead is
-- advertised under its key.
--
-- The files, by the code that they model:
--   Math: pkg/math. Max64, Min64, Min, AlignDown, NewSegments, and All as the list of the segments
--     that it sends; its loop runs on fuel, and as many rounds as the file has bytes, and one, are
--     enough.
--   Context: pkg/context/context.go. The request context as a record, with its keys as a map.
--   Urlparser: pkg/urlparser. The regular expressions are lists of atoms for the matcher of
--     Urlparser.Regexp, which stands for the one of Go.
--   Cache.SyncMap: pkg/cache/syncmap.go. The map of file sizes.
--   Cache.Item: pkg/cache/item.go. An item is a number in a store of items, since it is shared by
--     pointer. `World` is the state of a cache.
--   Cache.FileCache: pkg/cache/filecache.go. `size` is Size, `put_size` PutSize, `exists` Exists,
--     `get_or_create` GetOrCreate, `new_cache` NewCache.
--   Cache.Threads: GetOrCreate of filecache.go for one block, as steps of any number of threads, between
--     the calls of the library's cache, of the locks and of the file. A call of Lock that waits keeps
--     further readers out.
--   Reader: pkg/discovery/content/reader/reader.go. `do_p2p` is doP2p, `fstat_request` fstatRemote,
--     `pread_request` preadRemote, `remote_request` remoteRequest. `Reader.Honest` says what servers
--     that hold a file are expected to answer.
--   Files: pkg/files/files.go. FileChunkKey and FetchFile.
--   Store: pkg/files/store. `Store.File` is file.go, `Store.Key`, `Store.Service` and
--     `Store.Start` store.go. `Store.File.Reads` reads on in a file, with a cache that holds all of
--     it (`Warm`) or any part of it (`Transparent` and `Fresh`, by `Store.File.Serves`).
--     `Store.Advertised` follows a block from its prefetch
--     to the request of a peer.
--   Handlers: pkg/handlers. `Handlers.Files` is files/handler.go, with `handle` for Handle,
--     and `Handlers.Engine` the handler of root.go before it.
--   Router: pkg/discovery/routing/router.go. `resolve_cached` is ResolveWithNegativeCacheCallback,
--     `cache_negative` its callback, `provide_all` Provide. `Router.Host` and `Router.Start` are newHost
--     and NewRouter. `Router.Active` has the goroutines of Resolve as steps.
--   Provider: pkg/discovery/content/provider/provider.go. `advertise` is Provide.
--   K8s: pkg/k8s. `new_kubernetes_interface` is NewKubernetesInterface of k8s.go, `K8s.Events` is
--     events/events.go, `K8s.Election` election/election.go, in `K8s.Election.Calls` step by step, and
--     in `K8s.Election.Config` with RunOrDie.
--   Metrics: pkg/metrics. `new_prom_metrics` is NewPromMetrics, the other functions have its methods'
--     names.
--   Peernet: pkg/peernet/network.go. `http_client_for` is HTTPClientFor.
--   Cmd: cmd/proxy. `run` and `server_command` are run and serverCommand of main.go, and `Cmd.Tasks` the
--     functions of its error group, as steps.
-- Shared by all of them:
--   Prelude: names of the libraries, lists and byte strings, maps, errors and outcomes.
--   Int64: Go's int64 and int32, with their wrap-around.
--   Action: functions with a state and an outcome, and rules for their runs.
--   Strings, Os, Http: what the program uses of strings, strconv, os, io and net/http.
--   Tests: concrete runs.
--
-- An outcome is a result, an error, a panic, or a call that never returns. The model of the disk has a
-- list of faults, one entry for each call: with an empty list every call succeeds. The cache library
-- (ristretto) is the record `Blocks`, with no laws, and the network with the router is the record
-- `Network`. One thread runs at a time, and a lock that is held makes a call wait for ever, except in
-- Cache.Threads, Cmd.Tasks, Router.Active and K8s.Election.Calls, which are step relations of several
-- threads.
--
-- Not modelled: logs, where the metrics are recorded, and what the libraries do behind their interfaces:
-- libp2p, Kubernetes, the web framework, the cache library and the error group, of which Cmd.Tasks says
-- what it relies on. A body that fails half way is not distinguished from one that ends there. The dot of
-- a regular expression matches one byte, where Go's matches one character. A lock that a deferred call
-- gives back during a panic stays taken.
mod Prelude
pub mod Cmd
mod Tests
pub mod Int64
pub mod Action
pub mod Math
pub mod Metrics
pub mod Strings
pub mod Os
pub mod Http
pub mod Context
pub mod Urlparser
pub mod Cache
pub mod Reader
pub mod Files
pub mod Store
pub mod Handlers
pub mod Router
pub mod K8s
pub mod Provider
pub mod Peernet
