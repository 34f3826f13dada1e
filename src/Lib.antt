-- ===== src/Lib.antt =====
-- The scheduler of cloud-prophet: a Kubernetes scheduler with a keyed heap, a scheduling queue, a node
-- tree, a cache, a framework of plugins and the algorithm that picks a node for a pod.
--
-- Parts and files
--   scheduler/internal/heap/heap.go is Scheduler/Heap.antt: `data` with its Len, Less, Swap, Push, Pop
--   and Peek is Scheduler/Heap/Storage.antt, and `Heap` is in Scheduler/Heap.antt itself, one
--   definition for each method. The routines of the standard container/heap that it calls (Push, Pop,
--   Fix, Remove, up, down) are in Scheduler/Heap/Container.antt. An object is a value of any type `A`;
--   keyFunc and lessFunc are parameters. Scheduler/Heap/Sift.antt has the proofs on up and down over
--   any lawful implementation of heap.Interface, Scheduler/Heap/Storage/ shows that `data` is one, and
--   Scheduler/Heap/Spec.antt has what each method promises of the map from keys to objects.
--   scheduler/internal/queue/scheduling_queue.go is Scheduler/Queue.antt: the backoff in Queue/Backoff,
--   the nominated pods in Queue/Nominator, UnschedulablePodsMap in Queue/Unschedulable and
--   PriorityQueue in Queue/PriorityQueue. The active queue is a heap in the order of
--   scheduler/framework/plugins/queuesort/priority_sort.go (Queue/PrioritySort), the backoff queue one
--   in the order of the ends of the backoffs.
--   scheduler/internal/cache/node_tree.go is Scheduler/Cache/NodeTree.antt, one definition for each
--   method, for any GetZoneKey; that of scheduler/helper/node.go gives the same zone to all nodes.
--   NodeTree/Invariant has what a write does, NodeTree/Next one pass of the
--   loop of next, NodeTree/Round the loop and NodeTree/Restart a whole round; a round of calls of next is
--   what updateNodeInfoSnapshotList of scheduler/internal/cache/cache.go takes.
--   scheduler/internal/cache/cache.go is Scheduler/Cache/Store.antt, the pods and the linked list of the
--   nodes, and Scheduler/Cache/Nodes.antt, the nodes, the images and the expiry. Store/Phase has the pods
--   as a state machine: absent, assumed (`pending`) and added (`bound`), Store/Pods the pods of the nodes,
--   and Store/Transitions both at once. The nodes that the cache keeps
--   are NodeInfo of scheduler/framework/v1alpha1/types.go, Scheduler/NodeInfo.antt, with Resource in
--   NodeInfo/Resources and HostPortInfo in NodeInfo/Ports; NodeInfo/SwapOut has how RemovePod cuts a pod
--   out of the list.
--   scheduler/framework/runtime/framework.go is Scheduler/Framework.antt. The statuses of plugins and
--   Merge (scheduler/framework/v1alpha1/interface.go) are Framework/Status, the plugin interfaces and
--   the configured plugins Framework/Plugins, the runs of the PreFilter, Filter, PostFilter and PreScore
--   plugins Framework/Runtime, those of Reserve and Bind Framework/Binding, Permit and WaitOnPermit
--   Framework/Permit, the Score plugins Framework/Scoring, and the part of NewFramework that makes the
--   plugins and weighs them Framework/Setup. The pods that wait in the permit phase
--   (scheduler/framework/runtime/waiting_pods_map.go) are Framework/WaitingPods; its child Decision is
--   what they promise. Event and happen_all in Framework/WaitingPods put the calls and the timers in a
--   sequence, for the theorems alone.
--   scheduler/core/generic_scheduler.go is Scheduler/Core.antt: the totals, selectHost and
--   numFeasibleNodesToFind in Core/Scores, PodPassesFiltersOnNode and the search for feasible nodes in
--   Core/Filtering, and the extenders, prioritizeNodes and Schedule in Core/Schedule. The weights that
--   NewFramework checks (Setup/Total) bound the scores (Scoring/Weighted), these the totals (Core/Sums),
--   and Core/Schedule/Host puts the search, the scores and the choice together.
--   Of scheduler/framework/plugins, the filters of noderesources/fit.go, nodeports and nodename are
--   Scheduler/Plugins/Filters.antt, helper/normalize_score.go is Scheduler/Plugins/Scores.antt, and
--   noderesources/resource_allocation.go with least_allocated.go and most_allocated.go
--   Scheduler/Plugins/Allocation.antt.
--   Plugins/Fitting puts Fit and NodeInfo.AddPod together.
--   Scheduler/Pod.antt and Scheduler/Node.antt have the fields of pods and nodes that this code reads,
--   and the helpers on them of scheduler/util and scheduler/helper.
--
-- Conventions
--   A call returns a `Run`: `ok`, `panic` for a nil dereference or an index out of range, or
--   `out_of_fuel`. An error of the code is a value beside the new state. A Go map is an association
--   list in the order in which `range` meets it, and the theorems hold for every order. A lock makes
--   each call one step on the state. Readings of the clock are arguments; in a loop, the reading of
--   each round is. Times and Durations are integers of nanoseconds; the doubling of the backoff, an
--   int64, wraps at 2 ^ 63, and so does the scheduling cycle.
--
--   Plugins are records of functions. `S` is all that they may read and change, the CycleState and what
--   they reach beside it; Filter and Score, which run in parallel, only read it. The workers of a
--   parallel loop are an explicit order of steps: an argument for the filters, the order of the lists
--   for the scores, where each worker writes an element of its own. Random numbers are an argument.
--
-- Bounds and fuel
--   The sift-up loop takes its fuel from the index, which falls, and sift-down from the length of the
--   queue, below which the index grows. flushBackoffQCompleted has one round for each pod of the
--   backoff queue and one more. The loop of next of the node tree passes each zone at most once before
--   it resets, and returns at the zone after that.
--
-- Parameters
--   `QueueEnv` has what the queue is given or calls outside the repository: cache.MetaNamespaceKeyFunc,
--   the sort plugin, reflect.DeepEqual and label selectors. `EnvLaws` says that the key function is
--   computed for the pods with accepted names, and separates pods just as their full names do, and that
--   the sort plugin gives a strict weak order. The plugins, the factories that make them, extenders, the
--   printing of numbers and durations, and MaxExtenderPriority of k8s.io/kube-scheduler are arguments.
--
-- Not modelled
--   The timestamp that AddUnschedulableIfNotPresent writes to the caller's object before it refuses the
--   pod, UpdateSnapshot, the affinity terms of PodInfo, TransientInfo, logs, Prometheus counters other than
--   the gauges of the queues, the goroutines that call the flushes, podPassesBasicChecks, which reads
--   volume claims from the API server, the text of FitError, ListPlugins, the other in-tree plugins, the
--   preemption, the scheduling loop and its event handlers, and the other parts of the repository: the
--   recommender and the learning code.
pub mod Prelude
pub mod Scheduler
pub mod Tests
