-- ===== src/Lib.antt =====
-- The runtime adapter of sandcube, services/containerd-runtime: a private HTTP server that creates,
-- starts, stops and deletes sandboxes through containerd, gives each a network and a disk quota,
-- runs processes in it and keeps their history, imports images, and moves files and output across
-- the boundary.
--
-- `Server` receives a request, checks it, takes the locks and calls `Runtime`. `Runtime` drives
-- containerd and calls the quota, the process and the network services. `Quota` limits what a
-- sandbox stores with XFS project quotas and gives nothing back before the storage is gone.
-- `Processes` tracks what runs in a sandbox, watches it to its end and finds it again after a
-- restart. `Images` imports and deletes managed images. `Network` sets the network of a sandbox up
-- and takes it down with `ip`, `nft` and `conntrack`. `Files` changes files under an open root
-- directory. `Logs` keeps what commands print. `Reconcile` sweeps away what sandboxes that are gone
-- have left, `Metrics` reports on all of them, and `Startup` recovers, reconciles and only then
-- listens.
--
--   Server/Limits, Replies, Locks           main.go: validID and the checks, errors, lock
--   Server/Handler, Serve, Counting         main.go: decode, ServeHTTP; the counters of requests
--   Runtime/Types, Container, Task          runtime.go: the records, load, describe, Inspect, deleteTask
--   Runtime/Spec                            runtime.go: the options of the OCI spec, withOOMGroup
--   Runtime/Create, Lifecycle               runtime.go: Create; Start, Stop, Delete
--   Runtime/Inventory                       reliability.go: List
--   Network/Address, Setup, Remove          network.go: the addresses; setupNetwork; removeNetwork
--   Network/Firewall, Reconcile             network.go: firewall; reconcileNetworks
--   Files/Name, Write, Access, Open         files.go: sandboxPath; the branch "write"; fileAt; File
--   Quota/Path, Device, Enforce, Journal    quota.go: snapshotQuotaPath; quotaDevice; projectAttr and
--                                           enforceQuota; prepare-, check-, reclaim-, reconcileQuotas
--   Processes/Table, Start, Watch, Use      processes.go: the map, StartProcess, watchProcess, the rest;
--                                           runtime.go: Exec, waitExec
--   Processes/Env, Recover                  runtime.go: mergeEnv; reliability.go: recoverProcesses,
--                                           cleanupProcessRecords, saveProcess
--   Atomic                                  reliability.go: atomicJSON
--   Reconcile                               reliability.go: Reconcile
--   Images                                  images.go
--   Logs/Buffer, Capture, Run               runtime.go: limitedBuffer; logger.go: captureLog, runLogger
--   Metrics                                 metrics.go
--   Startup                                 main.go: main
--
-- Prelude, Exec, Calls and Paths are shared: numbers and lists; Go functions that return an error,
-- as actions `S → Result A × S`, and errors by what `errors.Is` and `errdefs` can ask of them; the
-- record of the calls that an action makes, which the orders of calls are stated on; Go's `path`
-- and `strings` on slash-separated bytes. Operations have the names of the Go functions in snake
-- case; a long function is cut into parts that the comment above each part names.
--
-- containerd, the kernel, the command-line tools, the JSON decoder and base64 are parameters,
-- records of actions such as Runtime/Engine, Network/Host, Files/Host, Quota/Kernel and Shim of
-- Processes, with an arbitrary world as their state. What a theorem assumes of them stands among
-- its hypotheses: IsDirectory of Files/Write/Laws and IsFile of Logs/Capture/Laws, the documented
-- behaviour of the system calls; IsBeneath of Files/Access/Laws, which is RESOLVE_BENEATH;
-- IsReadable, IsTimed and IsGuarded of Quota, IsDurable of Processes/Watch/Laws, IsJournaling of
-- Atomic/Laws, IsClosing of Runtime/Lifecycle/Closed, IsSnapshotting of Runtime/Create/Rollback,
-- IsNamed of Images/Laws and IsKeeping of Images/Removal, what containerd, the kernel and the disk
-- tell and leave alone. IsTelling of Runtime/Container/Laws says that the lookups of a container
-- tell what is there; IsChoosing of Quota/Journal/Reconciled, IsNaming of Quota/Journal/Named,
-- IsSparing of Network/Reconcile/Sparing, IsClearing of Network/Remove/Clearing, and IsSweeping,
-- IsRetaining and IsTidying of the modules under Reconcile, what the calls of a sweep leave alone;
-- IsRemoving of Reconcile/Swept, that the snapshotter lists what is there and removes what it says;
-- IsStream of Logs/Run/Laws, what the pipe and the file of a stream do; IsConfined of
-- Files/Open/Laws, where a request for a file is harmless. Tests has instances of all of them.
--
-- The record that a process has in the table is changed through its key, as the pointer of the code
-- leads to it. Where a record is saved, atomicJSON is one call; Atomic has its parts. A wait on
-- another goroutine is a parameter of the operation that waits, and a round of a watcher is one
-- step. The paths and the causes that error texts end with are left out.
--
-- The loops are recursion on lists, on the answers of the pipe (`Feed`), and, for the search of an
-- address block, on the number of rounds, which is the 32768 of the source. The loop of
-- reclaimQuota is given a number of looks, and has no value if they are used up, which does not
-- happen when there are more than the ticks that its deadline leaves; the wait for the logs has the
-- 100 looks of the source; the watcher's loop, which may go on for ever, is given a number of
-- rounds. Numbers that a request can make negative are integers. The numbers of network.go stay
-- below 2^17, sizes of quotas below 2^32 and times below the 292 years of an int64 of nanoseconds,
-- so no Go integer overflows; the counters and the sums of metrics.go are taken to fit in 64 bits,
-- and Runtime/Spec writes the wrap-around out.
--
-- Not modelled: the request log, the JSON of replies and the text that metrics.go prints of a line,
-- which are output alone; Health, which asks containerd for its version; the names of networks,
-- which are hashes, and the lock file and the commands that network.go runs, which are parameters;
-- the goroutine that shuts the server down on a signal; the passing of time against timeouts,
-- except where a loop looks at a clock; and the control plane in Crystal under src/.
pub mod Prelude
pub mod Exec
pub mod Calls
pub mod Logs
pub mod Paths
pub mod Files
pub mod Network
pub mod Runtime
pub mod Server
pub mod Tests
pub mod Quota
pub mod Processes
pub mod Images
pub mod Metrics
pub mod Startup
pub mod Reconcile
pub mod Atomic
