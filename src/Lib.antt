-- ===== src/Lib.antt =====
-- agentfab: a fabric of agents that works through a graph of tasks. A conductor breaks a request into
-- a task graph, and lets agents on the nodes of a cluster work on the tasks that are ready; some tasks
-- run through review loops, in which agents hand work to each other until it is approved; the control
-- plane keeps the leader, the members and the leases; and a router gives each agent a model.
--
-- * Loop (internal/loop/types.go, fsm.go, resolve.go): a review loop. `validate`, `new_fsm`,
--   `transition`, `force_escalate`, `resolve_next_state` and `is_review_state` are Validate, NewFSM,
--   FSM.Transition, FSM.ForceEscalate, ResolveNextState and IsReviewState. Loop/Validation says what a
--   well-formed loop is, Loop/Runs follows the machine over any sequence of requests, and Loop/Routing
--   relates verdicts to transitions.
-- * TaskGraph (internal/taskgraph/types.go, dag.go): the graph. TaskGraph/Order is TopologicalSort,
--   TaskGraph/Failure is FailDependents, TaskGraph/Search is HasIncompleteDependents and
--   HasRunningDependents, TaskGraph/Readiness is ReadyTasks, AllDone, FailureSummaries and HasFailures,
--   and TaskGraph/Validation is Validate and ValidateWithRoster, which checks the graph's loops by
--   Loop's `validate`. The files below them hold the invariants of their loops and the theorems.
-- * ControlPlane (internal/controlplane/types.go, liveness.go) and ControlPlane/Memory
--   (internal/controlplane/memory.go): the store in memory, a record with one function for each method,
--   in Leader, Members, Records, ProfileLeases and TaskLeases. ControlPlane/Memory/Steps has the calls
--   as a data type and a history as a list of them; below it stand the coherence of leases and epochs,
--   fencing, exclusion, bindings of profiles, succession, and the times of requests. Listing is about
--   ListInstances. ControlPlane/Liveness is about nodes and instances.
-- * ControlPlane/FileStore (internal/controlplane/file.go): the store in a file. FileStore has
--   NewFileStore, withFileLock, loadLocked, saveLocked, withState and withMutableState; Leases, Members
--   and Records have the methods, each with the code that runs under the lock. Calls puts the calls of
--   both stores side by side, and says what they answer; Atomic is about the file when the system fails,
--   and Refinement about processes that share it.
-- * Knowledge (internal/knowledge/types.go, graph.go): the graph of what agents know, and when a node is
--   stale, cold or superseded. Knowledge/Prune is Prune (prune.go), Knowledge/Merge is Merge (graph.go),
--   Knowledge/Curation is the check of a curated graph (curate.go), Knowledge/Cold is MoveToCold (cold.go),
--   and Knowledge/Cold/Restore is RestoreFromCold and SwapCurated. The files below them hold the theorems.
-- * Placement (internal/conductor/scheduler.go, in part): the counts of tasks in flight, of a scheduler that
--   places tasks. Placement/Choice is selectTaskInstance, and Placement/Tasks is prepareTaskPlacement and
--   finishTaskPlacement; both use the store of ControlPlane/Memory and the tasks of TaskGraph.
-- * Routing (internal/routing/router.go, tracker.go): the choice of a model by tiers.
-- * Circuit (internal/agent/circuit.go): a breaker that trips after errors in a row, which no other file
--   of the program uses.
-- * Prelude (shared by all): Boolean tests, lists, results, tables and Go's integers, and a worklist on fuel.
--
-- Conventions. A Go map is an association list, in which the first entry of a key counts; where Go's
-- map iteration has no order, the code sorts what it returns, or the results do not speak of the order.
-- A pointer to a task is its place in the list. An error is a constructor with the texts that its
-- message quotes. A time is a natural number of nanoseconds from the zero time, and the readings of the
-- clock are arguments of a method; a duration, and max_transitions, is a signed integer. The count of
-- transitions wraps at 64 bits as written out in Prelude/Int, and epochs and counters are bit patterns
-- modulo 2 ^ 64; the sum of a time and a duration is taken to be in range. A method that holds the
-- store's lock is one step. The searches and the cascade take as fuel the number of tasks and one, since
-- each task enters their queue at most once; the sort takes the tasks and the dependencies together. In
-- each case the theorem states the result itself, so the fuel is enough.
--
-- Parameters. The encoding of JSON is a record in ControlPlane/FileStore, with its round trip as a law,
-- and the steps of the system that fail are a test on them. The storage of an agent is a record in
-- Knowledge/Cold, with what is read after a writing as a law; lower case is a function in Knowledge, and the sort of Knowledge/Prune is any function
-- that rearranges. The quoting verb of the package fmt is a function in TaskGraph/Failure, and the base
-- factory of models is one in Routing.
--
-- Not modelled: the prompts of internal/loop/resolve.go and the encoding of internal/loop/context.go;
-- the etcd and remote stores of internal/controlplane; the rest of the conductor and of the agents, which drive
-- language models; of internal/knowledge what scores, prints or asks a language model; configuration, identity, transport, user interface and benchmarks.
pub mod Circuit
pub mod ControlPlane
pub mod Knowledge
pub mod Loop
pub mod Placement
pub mod Prelude
pub mod Routing
pub mod TaskGraph
