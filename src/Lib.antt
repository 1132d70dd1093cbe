-- ===== src/Lib.antt =====
-- The self-healing control plane: an eBPF collector publishes samples, the analyzer turns them into
-- anomalies, and the controller answers an anomaly with an action on the Kubernetes cluster, behind
-- a series of guardrails, and observes the outcome. Beside them a process graph collects the
-- security events for the user interface. This library models the controller
-- (internal/controller), the analyzer (internal/analyzer), the causal reasoning that groups anomalies
-- into incidents of a node (internal/intelligence), the process graph (pkg/graph), the time series
-- buffer (pkg/timeseries), the latency percentiles (pkg/percentile), the resolver of cgroups
-- (pkg/cgroup), the mapper from cgroups to pods (internal/ebpf/mapper.go) and the collectors
-- (pkg/collector, pkg/lineage).
--
-- Base holds what the modules share: Boolean tests (Base/Tests), lists (Base/Lists), keyed maps for
-- Go's `map` and `sync.Map` (Base/Maps), time in nanoseconds (Base/Clock), circular arrays
-- (Base/Ring), bytes with their layouts and conversions (Base/Bytes), and the package strings
-- (Base/Strings).
--
-- Guardrails models internal/controller/guardrails: Policy the queries of policy.go, RateLimit
-- ratelimit.go, Cooldown cooldown.go, and Breaker circuit_breaker.go. An operation takes the state
-- and the clock readings that the code takes, in their order, and returns the new state beside its
-- answer.
--
-- Controller models internal/controller: Types types.go, Escalation escalation.go, Kubernetes the
-- client that the actions use, as a parameter, Actions the executors and the dispatcher of
-- actions/, Observer observer.go, and Reconciler reconciler.go. `reconcile` is the pipeline of one
-- anomaly: the gates in their order (`throttle`, `choose` and `clear` name its parts), then
-- `dispatch` and `conclude`. The reconciler's record holds the states of all the guardrails, the
-- cluster, and the lists of what was published, audited and handed to an observer.
--
-- Analyzer models internal/analyzer: Window window.go, with `float64` as a parameter, Cooldown
-- cooldown.go, Correlate correlate.go, Rules rules.go, Confidence confidence.go and Engine engine.go.
-- `process_signal` is the pipeline of one sample: it records the sample, collects the rules it
-- triggers, and for each of them scores, decides, asks the cooldown and publishes.
--
-- Intelligence models internal/intelligence: Incident the data of incident.go, Graph the dependency
-- graph of graph.go, Aggregator aggregator.go, Reasoner reasoner.go and Scorer scorer.go. The
-- aggregator resolves the node of a pod through the graph, a flush hands incidents to the reasoner,
-- and the reasoner asks the graph for shared volumes and counts the anomalies in the scorer.
--
-- ProcessGraph models pkg/graph/model.go: Event the envelope of pkg/event with the reading of its
-- metadata, Node the nodes with their ring of events, Graph the operations that change the graph
-- with the eviction, Reads the queries, and Snapshot the copy that the user interface reads.
-- Timeseries models pkg/timeseries, the circular buffer, and Percentile pkg/percentile, the latency
-- percentiles over tumbling windows.
--
-- Cgroup models pkg/cgroup/resolver.go: Paths the labels and identifiers in the paths of cgroups, Pods
-- the index of the containers of the node, Scan the scan of the tree, and Resolver the cache, the
-- history and its eviction. Collector models pkg/collector: Lineage lineage.go with the interface of
-- pkg/lineage, Exec, Dns, PrivEsc and Escape the security events, Io, Cpu, Memory, Network and Syscall the resources, and
-- Polling the walk over a map of the kernel that these share. The collectors take the resolver as a
-- parameter with a state; `resolve_with` is the resolver of Cgroup in that form. The records of a ring
-- buffer are lists of bytes, parsed as the source does; Collector/Lineage/Layout has the layout of
-- ebpf/lineage.c.
--
-- Ebpf models internal/ebpf/mapper.go: Mapper the caches from cgroups to pods, with the pod objects in a
-- store, since the index of containers and the cache share them.
--
-- Locks are left out: an operation under a lock is one step, and interleavings are sequences of
-- steps. Pointers into a map are stored again after each change. Times and durations are natural
-- numbers, and a comparison with `now - d` is written with `+` on the other side, so that nothing
-- stops at 0. The polling loop of the observer runs on fuel; with rounds at least one poll interval
-- apart, one round more than the intervals up to the deadline is enough.
--
-- Parameters: `time.ParseDuration`, `strings.TrimSpace` and `strings.EqualFold`, the Kubernetes API
-- (with the law that a patch with `DryRunAll` persists nothing), decoding and `json.Marshal`, the
-- reading and unmarshalling of the rules file, the order in which a Go map is listed, the product of
-- a limit and a factor in floating point, `float64` with `sort.Float64s`, the histograms of
-- hdrhistogram-go, `sort.Slice`, the files, the container runtimes and the kubelet that a scan of the
-- cgroups reads, the walks over the cgroups, and the maps and ring buffers of the kernel. The theorems on `float64` name the laws of its
-- order that they use.
--
-- Not modelled: logging, metrics, NATS and YAML, `Run` of the reconciler and of the aggregator, the
-- readers of /proc and of the statistics of a cgroup, the loading of the eBPF programs
-- (internal/ebpf/loader.go), the exporter, the user interface and the commands: they are input and output, or left
-- for later.
pub mod Base
pub mod Guardrails
pub mod Controller
pub mod Analyzer
pub mod Timeseries
pub mod ProcessGraph
pub mod Intelligence
pub mod Percentile
pub mod Cgroup
pub mod Collector
pub mod Ebpf
