-- ===== src/Lib.antt =====
-- AWS Node Termination Handler: a daemon that learns of interruptions of EC2 instances and cordons
-- and drains their Kubernetes nodes in time, and Spot Guard, which scales on-demand fallbacks down.
--
-- Monitors poll the instance metadata or a queue and send interruption events to a store. Each
-- second the main loop takes the events that are due from the store and gives each a worker, up to
-- a number of workers; a worker runs two handlers on its event, one for launched instances and one
-- that drains, and the handlers call the methods of a node. Two watchers feed the store with new
-- events and with cancellations.
--
-- Files, and the code that they model:
-- - Common: shared names, tests, association lists for Go's maps, signed integers.
-- - Config: pkg/config/config.go, all settings with their defaults; Config.Parse is `ParseCliArgs`,
--   over the flags and the environment as parameters.
-- - Event: pkg/monitor/types.go. A drain task, a closure there, is here a constructor with what the
--   closure captures; Handler.run_task runs it.
-- - Store: pkg/interruptioneventstore/interruption-event-store.go. The map holds addresses of a
--   heap, so that a worker and the store share an event as they do through a pointer. The order of
--   a `range` is a parameter, `RangeOrder`, of which `IsRange` says that it visits the entries and
--   no others. Store.Refinement compares the store with a specification that has no lists.
-- - Dispatch: the loop of cmd/node-termination-handler.go and the goroutines around it;
--   Dispatch.Steps has their interleavings as a step relation. Each step is what one goroutine does
--   between two points where another may come in: the store's methods hold its lock.
-- - Kube: what is outside, as answers that depend on the whole history of requests, and the runs of
--   code that makes requests. Nothing is assumed of the answers unless a theorem says so.
-- - Node: pkg/node/node.go, in Node (fetching, labels, cordoning), Node.Pods (draining),
--   Node.Taints and Node.Reboot (the labels that survive a reboot).
-- - Handler: pkg/interruptionevent/internal/common/handler.go and the drain tasks of pkg/monitor;
--   Handler.Drain is pkg/interruptionevent/draincordon/handler.go, Handler.Launch is
--   pkg/interruptionevent/asg/launch/handler.go. A handler takes the store and gives the new one.
-- - Std: Go's decoding, formatting, time and hash functions, as parameters.
-- - Queue: pkg/monitor/sqsevent. Queue.Sources makes the events of each source, Queue.Monitor is a
--   round from the receipt of messages to their deletion (sqs-monitor.go), Queue.Heartbeats the
--   loop that keeps a lifecycle hook open, Queue.Actionable, Queue.Clearing, Queue.Health and
--   Queue.Rounds have the proofs, the last with what the drain tasks do to the queue.
-- - Metadata: pkg/monitor/scheduledevent, spotitn, asglifecycle and rebalancerecommendation;
--   Metadata.Polling is the goroutine of cmd/node-termination-handler.go that polls a monitor.
-- - Ec2Metadata: pkg/ec2metadata/ec2metadata.go, the requests to the metadata service with their
--   token and their retries; Ec2Metadata.Reads has the methods that Metadata asks its `Server` for,
--   and the facts of the instance. The letters of a zone's name are taken for ASCII.
-- - Watch: the workers and the cancellation watcher of cmd/node-termination-handler.go, and the
--   uncordoning after a reboot.
-- - SpotGuard: pkg/spotguard/fallback_tracker.go; SpotGuard.Executor is
--   pkg/spotguard/scaledown_executor.go and `executeScaleDown` of pkg/spotguard/monitor.go,
--   SpotGuard.ScaleUp and SpotGuard.Search are pkg/spotguard/spotguard.go, and SpotGuard.Safety is
--   pkg/spotguard/safety_checker.go; SpotGuard.Health is `IsSpotCapacityRestored` of
--   pkg/spotguard/health_checker.go with all that it calls, SpotGuard.Comprehensive its second
--   health check and SpotGuard.PreScale its calculation and raising of the spot group. SpotGuard.Waiting,
--   Raising, Growing and Sparing have the proofs on the scale-up. The drain task of Spot Guard runs
--   it through the field `scale_up` of a `Server`, which SpotGuard.ScaleUp.guarded fills in; a task
--   that never returns keeps its worker, and here it ends the run with the mark of a run out of fuel.
-- - SpotGuard.Monitor: the rest of pkg/spotguard/monitor.go, over any sequence of ticks.
-- - SpotGuard.SelfMonitor: pkg/spotguard/self_monitor.go, the monitor that an on-demand node runs
--   for itself: the pre-scaling and the waits; SpotGuard.SelfMonitor.Checks has `checkAndScaleDown`
--   and the loop of `Start`, SpotGuard.Marker what it writes on its own node.
--   SpotGuard.SelfMonitor.Conditions, Memory, Raises and Waits have the proofs. What the safety
--   checker reads is one request, answered as a whole.
-- - Examples: the theorems at concrete inputs.
--
-- Bounds: the event loop takes a number of rounds, and one more than the number of workers is
-- enough while no worker finishes; what other goroutines do in between is the parameter `Others`.
-- The loop that updates a taint has nine rounds: a second look at a stale node, and eight tries,
-- since a pause of 750 ms after a conflict is made at most seven times before the deadline of 5
-- s. A decimal number has at most 19 digits. The wait for a new instance runs on a number of
-- ticks; ten seconds for each up to the timeout, and one, are enough while the group is found.
-- The wait for the pods counts the ticks before its timeout, which the clock decides. The self
-- monitor waits for the end of its own node on a number of ticks, of which 30 are enough at ten
-- seconds each; its wait for spot nodes and its loop run on a number of rounds, since the answers
-- and the context decide when they end.
--
-- Not modelled: logging and the texts of messages beyond what tells errors apart; the set-up of
-- clients; metrics, probes and the webhook, but for the fact that they are called; Spot Guard's
-- node detector, its protection against the cluster autoscaler and its own settings. Of the two nil
-- checks on arguments of the queue's monitor neither can happen, and they are left out. Times are
-- integers without Go's bound of 292 years on a duration.
pub mod Common
pub mod Config
pub mod Event
pub mod Store
pub mod Dispatch
pub mod Ec2Metadata
pub mod Kube
pub mod Node
pub mod Handler
pub mod Watch
pub mod Std
pub mod Queue
pub mod Metadata
pub mod SpotGuard
mod Examples
