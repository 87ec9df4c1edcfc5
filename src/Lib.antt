-- ===== src/Lib.antt =====
-- A model of scam, the cluster agent that reports what runs in a Kubernetes cluster to a collector
-- named SPAM. The program is cmd/scam and the package internal/collector; the model is of both.
--
-- How the parts interact: informers hold the objects of the cluster. Their notices pass a gate that
-- opens when the caches have synced, and are turned into records, each with the next event id. A full
-- snapshot writes the state of all kinds between SNAPSHOT_BEGIN and SNAPSHOT_END. The records are
-- JSON lines on stdout, which a LineCapture keeps in a bounded buffer; PushLoop sends them in batches,
-- puts back what was not delivered, and takes a reconcile snapshot when the last event id that SPAM
-- reports is not the last one that was pushed. HeartbeatLoop keeps the session alive, and
-- rorIdentityLoop the attributes that name the cluster, which a handler puts on each record. main
-- sets all of this up: it exits at the first step that fails, or streams behind an initial snapshot.
--
-- The files, and what they model:
--   Base: lists, byte strings, Boolean tests, and int64 durations (Base.Duration).
--   Capture: LineCapture of internal/collector/push.go, with bytes.TrimSpace.
--   Push: push, pushAll, scanMaxEventID, NextBackoff; Push.Loop: PushLoop. Push.Queue: a bounded
--     queue that knows nothing of batches and retries, as the specification of the loop.
--     Push.Recovery: a network that is up again.
--   Heartbeat: HeartbeatLoop, sendHeartbeat, resolveHeartbeatInterval, nextHeartbeatBackoff.
--   Image: SplitImage and SplitImageName of internal/collector/image.go.
--   Kube: the fields of the Kubernetes API objects that the collector touches.
--   Emit: the records, and the counter of internal/collector/eventid.go. Race: goroutines that take
--     ids and write records at the same time, as a step relation.
--   Pod: internal/collector/pod.go. Service, EndpointSlice, Ingress: the files of these names.
--   Gateway, Traefik: gatewayapi.go and traefik.go; Discovery: DiscoverGatewayAPI, DiscoverTraefik.
--   Dynamic: the accessors and orders of helpers.go. Sort: sort.Slice.
--   Refs: refs.go and TraefikBackends. Informer: informer.go.
--   Snapshot: snapshot.go and EmitContainerSnapshot of pod.go.
--   Watch: the handlers that main of cmd/scam/main.go registers.
--   Transform: transform.go, on the fields that Kube keeps.
--   Identity: cmd/scam/rorself.go and the resolve functions of cmd/scam/main.go.
--   Stamp: the handler of internal/collector/logattrs.go.
--   Startup: main and loadConfig of cmd/scam/main.go. Banner: printBanner. Tuning: envInt and
--     envFloat32. Startup.Delivered puts main, the goroutines' log, the capture and the loop together.
--   Interval: resolveRorRefreshInterval and resolveSnapshotInterval.
--   Samples, and the modules named Tests: concrete objects, runs, and uses of the theorems.
--
-- How the code is rendered: a Go string is the list of its bytes. A time.Duration is an int64 as a
-- natural number below 2^64 whose upper half is negative; a time is a count of nanoseconds, with no
-- value for the zero time. The event id wraps at 2^64. A pointer or interface that may be nil is an
-- Option. A record of the log is a message, a kind, an event id and attributes with a constructor
-- for each Go type. A log is passed along as state: taking an id and writing the record is one step.
-- In Race they are two, and other goroutines may come between, as they do while main takes the initial
-- snapshot. What other goroutines write during a push is an argument of the tick. The local
-- logger, which bypasses the capture, writes to a list of its own. main is a function from what it is
-- given to how it ends; os.Exit and the panic of strings.Repeat are results.
--
-- What is a parameter: JSON and HTTP (Push.Transport), time.ParseDuration, strconv.ParseFloat and
-- float32 (Tuning.Floats), the handlers of log/slog (Stamp.Slog), the functions of the package
-- unstructured (Dynamic.Nested, with Dynamic.Removal.IsRemoving for RemoveNestedField), the listers
-- of ReplicaSets and Services, the indexes of the informers, the errors of client-go
-- (Startup.Config.Clients), and the answers of ROR and of Kubernetes.
--
-- Bounds and fuel: the buffer holds 10,000 lines, a batch 2,000. The loop of pushAll has as fuel the
-- number of records, of which each batch takes at least one. TrimSpace and the two regular
-- expressions of the Traefik hosts have as fuel the length of the text, of which each round takes at
-- least one byte, and so has the count of the runes in a line of the banner. sort.Slice is not stable;
-- the insertion sort in its place gives one of its results, and the only one where the sort keys differ.
--
-- What is not modelled: the timers of SnapshotLoop and rorIdentityLoop, whose firings are lists; the
-- flag package and the signals; that main registers the transforms and indexers with the informers,
-- which are calls of client-go. Startup follows main's own goroutine; those that it starts are the
-- other modules. The timeouts of the requests and the goroutines of net/http are part of the answers.
pub mod Banner
pub mod Base
pub mod Capture
pub mod Push
pub mod Heartbeat
pub mod Image
pub mod Kube
pub mod Sort
pub mod Emit
pub mod Pod
pub mod Service
pub mod EndpointSlice
pub mod Ingress
pub mod Dynamic
pub mod Race
pub mod Refs
pub mod Gateway
pub mod Traefik
pub mod Informer
pub mod Snapshot
pub mod Watch
pub mod Discovery
pub mod Stamp
pub mod Startup
pub mod Transform
pub mod Tuning
pub mod Identity
pub mod Interval
pub mod Samples
