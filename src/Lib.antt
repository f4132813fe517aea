-- ===== src/Lib.antt =====
-- SuperFeishuSearch searches several sources of one work suite at a time (documents, chats,
-- mail, people and so on), each through a provider, under one budget. Clients may also hand it a
-- retrieval plan: a graph of operations that an executor schedules, retries and combines. This
-- library models the parts that decide what runs, when, and at what cost.
--
-- The parts and their files:
--
-- Kernel models kernel/types.go, kernel/plan.go, kernel/errors.go and kernel/provider.go: the
-- types that all components share. A float64 stands as its bit pattern, a time as its
-- nanoseconds, a set of projections as its bits, a free-form JSON value as its text, and a Go
-- map as an association list (Prelude.Maps) whose first entry under a key counts. Sums of int64
-- wrap around, as `add64` of Prelude.Int does.
--
-- Budget models internal/budget/ledger.go. `reserve`, `reserve_call`, `reserve_fetch`,
-- `reserve_expand` and `add_bytes` are Reserve, ReserveCall, ReserveFetch, ReserveExpand and
-- AddBytes. Each holds the mutex for its whole body, so a schedule of calls (`run_calls`) is a
-- list, in the order in which the goroutines take the mutex, with the reading of the clock of
-- each. Ledger and Accounting read a ledger as an abstract account of four natural numbers.
--
-- Registry models provider/registry.go: `register`, `set_preferred`,
-- `set_preferred_for_operation`, `set_unavailable`, `set_operation_unavailable` and the lookups,
-- of which `for_operation` is ForOperation. A provider stands for its descriptor, which is taken
-- not to change.
--
-- PlanGraph models validatePlan of internal/planexec/executor.go: `visit` is the recursive
-- search for cycles, on a depth that is one more than there are nodes; that is enough, since
-- every level marks one more node (PlanGraph.Depth).
--
-- PlanValidate models validateSemantics of internal/planvalidate/validate.go, the check of a
-- plan that a client submits; NodeRequest is validateNodeRequest, over a JSON decoder as a
-- parameter (Decoders). Its search for cycles is `visit` of PlanGraph, on the same depth.
-- Kernel.Requests holds the requests with WithDefaults and Validate of kernel/types.go; the
-- lower-case mapping of texts and the digest are parameters (TextOps).
--
-- PlanExec models Executor.run of internal/planexec/executor.go. Run is the record of the
-- variables of the loop; `dispatch` is what a round does before its `select`, and `receive` is
-- what follows it (Receive). The Go map of nodes is a list, and each walk over it takes the
-- order in which the map is walked as an argument. A heap is a list from which the least item is
-- popped. The comparison of float64 priorities is a parameter (FloatOrder). `promote_rounds` and
-- `launch_rounds` take as many rounds as their heap has items, each of which pops one; no item
-- is pushed meanwhile by the first on its own heap or by the second on its own. Loop states the
-- runs of the loop: a round reads the clock twice, and receives the timer, the end of the
-- context, or the result of a node that runs. Moves takes a round apart into single steps, over
-- which the invariants are proved; the other modules are named for what they prove.
--
-- Outcome is the end of Executor.run, which sums up the results. Execute is executeNode, which
-- turns a node into calls of the kernel; the calls, the decoder and the ranking of candidates
-- are parameters (Services). The error of an operation that is not known is left without the
-- quoted name. The loop takes any result that ends a running node, and executeNode gives no
-- other.
--
-- Session models internal/session/store.go: Record with NewRecord, Restore, Snapshot and
-- AddEvent, and MemoryStore (Memory) over a heap: a pointer to a record is a position, which the
-- store and its clients share. The random ids and the readings of the clock are arguments. Each
-- method is one step; that Get looks up a session and deletes it under two locks is not
-- modelled. Expiry has the store that never forgets, against which Refinement compares the
-- schedules of calls.
--
-- Engine models parts of internal/engine. Search is searchOne of search.go, where the provider
-- and the ledger answer through a record of Answers; Runs has the helpers that merge the pages
-- of the sources and choose the next ones, and Rounds the first wave and the loop of
-- Engine.Search, which is structural in the rounds that MaxPagesPerSource leaves. Of
-- rankCandidates it only takes the selection, as an argument. Flights is singleflight.go: a step
-- relation in which any goroutine may acquire, close or release a flight, where closing a flight
-- and taking it out of the map are two steps. Access is the part of engine.go that decides which
-- session and provider a request may use. Fetch is the grouping of the items of a batch
-- (dedupFetchItems) and the match of what a provider returns (matchBatchArtifacts), both of
-- fetch.go; Fetch.Prepare is the turn of the first loop of Engine.Fetch for an item: a result,
-- which is the error side of `prepare_item`, or work for a provider, before the key of its
-- flight is formed; Fetch.Known is the search of a session for a reference (knownSessionRef) and
-- validateRefIdentity, and Fetch.Merge is mergeRef and mergeArtifact; the map of metadata, which
-- the latter writes in place, is a value there. The free-form details of the errors are left
-- out.
--
-- Kernel.Projection models kernel/projection.go, the sets of projections and their names.
--
-- Fusion models parts of internal/fusion/fusion.go: Canonicalize (Canonical), mergeHints
-- (Hints), mergeDiscoveries (Discoveries) and the selection by quotas at the end of Fuse
-- (Selection). The parser of URLs, the lower-case mapping and the digest are parameters
-- (IdentityOps).
--
-- Not modelled: the JSON forms, the schema of a plan, the scores of fusion, the adapters, the
-- transports, the session stores on disk, the rest of the engine behind the kernel interface,
-- the planners and the services on top. Events are recorded in order; that the channel may drop
-- them once the context is done is not modelled.
pub mod Prelude
pub mod Kernel
pub mod Budget
pub mod Registry
pub mod PlanGraph
pub mod PlanValidate
pub mod PlanExec
pub mod Fusion
pub mod Session
pub mod Engine
