-- ===== src/Lib.antt =====
-- Models of the Go packages under pkg/: the engine of a build tool for web frontends that tracks files,
-- their hashes and their imports, and decides what has to be built again.
--
-- Prelude holds what the components share. Go maps are association lists (Prelude/Maps), in which
-- `put` replaces in place or appends; a loop over a map runs in the order of the list, so a theorem
-- on every state speaks of every order in which Go may run it. `int` counters stand as natural
-- numbers, and integers that may be negative as the integers of Prelude/Int. Manifest writes out how an
-- `int64` sum wraps; the sums of file sizes in Assets and Scanner are natural numbers, and so tell of
-- files of less than 2^63 bytes in all. Locks are left out but in Graph/Locks and Watch: nearly all
-- methods hold their lock from the first line to the last. Those that release it earlier (`Run`, which
-- works on copies, `Execute` of a hook and `Get` of the parse cache) are taken without another method
-- in between.
--
-- Graph models pkg/graph/graph.go. `AffectedNodes` is an instance of the search of
-- Prelude/Worklist, and `TopologicalSort` of the ready-queue loop of Prelude/Kahn, with the sorted
-- queue of Prelude/Queues. Their fuel is the number of keys that may be queued: each is at most once.
-- `DetectCycles` is the depth-first search of Prelude/Dfs, which enters each key once at most.
-- Graph/Store models the tables of pkg/graph/store.go, Graph/Export the texts of
-- pkg/graph/export.go, and Graph/Locks the lock of a graph.
--
-- Scheduler models pkg/scheduler/scheduler.go and, in Scheduler/Priority, pkg/scheduler/steal.go. Both
-- `Run` loops are the loop of Prelude/Kahn again, with a plain queue and with the heap of
-- Prelude/Heap, which follows Go's container/heap and keeps its order (Prelude/Heap/Order, Rise and
-- Top), so that Scheduler/Urgent can tell what it hands out. Scheduler/Run models `Run` as steps of its
-- loop and of the goroutines that it starts.
--
-- Engine models pkg/engine/engine.go: the hashes of a snapshot (`Snapshot`), the changes against it
-- (`ComputeChanges`) and what they affect in the graph of Graph (`AffectedFiles`).
--
-- Plugins models pkg/plugins/plugins.go, with the context of the plugins as a type parameter.
--
-- ParseCache models pkg/parser/cache.go on the heap of Prelude/Heap, with the parse result as a type
-- parameter. The fuel of the eviction loop is the length of the heap, from which each round takes one.
--
-- Scanner models pkg/scanner/scanner.go, and Scanner/Workers the goroutines of `Scan`: a step is one
-- receive, one entry of a directory or one send, by any worker, on a queue of 64 directories.
--
-- Files models the file system in memory of pkg/fs/fs.go, with the path functions of Prelude/Paths.
--
-- Database models the tables of pkg/db/db.go as lists of rows, and Database/History its builds.
--
-- Hash models the text of a hash and the combiner of pkg/hash/hash.go.
--
-- Watch models the loop of pkg/watch/watch.go as steps of the loop, the timer and the client, access
-- by access where the loop and the timer share no mutex.
--
-- Routes models pkg/routes/routes.go on a tree of the entries that the system tells of.
--
-- Css models the tracker of pkg/css/css.go; its `AffectedFiles` is the search of Prelude/Worklist too.
--
-- Config models pkg/config/config.go and the end of `Load` in pkg/config/loader.go.
--
-- Manifest models pkg/manifest/manifest.go.
--
-- Cache models pkg/cache/cache.go with the table of cache entries of pkg/db/db.go. The compressor, its
-- inverse and the hash come from libraries and are arguments.
--
-- Assets models what pkg/assets/assets.go and optimize.go compute from the files that a scan found,
-- and Assets/Optimize the workers of `Optimize`: a step is one receive or one critical section.
-- The fuel of `digits` is the number itself, which falls in each round.
--
-- Observability models the timeline, the worker samples and the metrics of pkg/observability.
--
-- Not modelled: the command line (pkg/cli), the doctor and the test helpers, which call the other
-- packages and print; pkg/parser/parser.go, which is regular expressions, and swc.go, which runs
-- another program; and the work of the database driver, of fsnotify and of the system.
-- Each Tests module holds small inputs on which the models are run.
pub mod Prelude
pub mod Graph
pub mod Scheduler
pub mod Engine
pub mod Plugins
pub mod ParseCache
pub mod Css
pub mod Config
pub mod Manifest
pub mod Cache
pub mod Assets
pub mod Observability
pub mod Scanner
pub mod Files
pub mod Database
pub mod Hash
pub mod Watch
pub mod Routes
