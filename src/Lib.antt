-- ===== src/Lib.antt =====
-- Verification of the control plane of Flash Flood, which sends simulated personas to a web site in
-- remote browsers: the queue of managed attempts, the ceilings on sessions and browser time that
-- all queues share, the journal of a native session's browser extension, the stream of a run's
-- events with the wall that shows it, and the workflows around an attempt: a human who takes over its
-- browser, browser contexts that outlive it, and the search for a short reproduction of its failure.
--
-- Files and code:
--   Common.antt and Common/: Boolean tests, texts, lists, and results of code that throws.
--   Capacity.antt: src/server/worker/config.ts, src/lib/execution-capacity.ts, and the queries
--     `occupancy` and `accounting` with the budget test of both `claim` methods. Capacity/Bounds
--     proves bounds on the ceilings.
--   Managed.antt and Managed/: src/server/managed/store.ts with the tables of src/server/migrations.ts,
--     src/server/managed/types.ts, src/server/managed/create-failure.ts and
--     src/lib/managed-contracts.ts. Rows has the tables, Queries the reads and the public views,
--     Claims `claim`, `acquire`, `assertLease` and `heartbeat`, Journal `dispatch`, `createFailure`,
--     `identity`, `progress` and `sessionView`, Lifecycle `existing`, `create`, `cancel` and `finish`.
--     Steps is the life of an attempt as a relation, with one constructor for each UPDATE; Refinement
--     relates every operation to it, Sound and Evolution have what it preserves, and Histories runs
--     any sequence of operations, each a transaction that is committed or rolled back. Fencing,
--     Budget, Outcomes and Requests have the promises to workers, to the budgets and to owners;
--     KeptRuns, FoundRuns and Repeating have what a repeated request finds.
--   NativeJournal.antt: src/server/worker/native-journal.ts and the schema of
--     src/server/execution/native-resources.ts.
--   EventStream.antt: src/server/event-stream.ts.
--   RunLog.antt: the life of a native run in src/server/repository.ts, with the log of its events.
--   NativeCharges.antt: what src/server/worker/repository.ts charges for a native session.
--   ModelBudget.antt: src/server/execution/budget.ts.
--   PublicAddress.antt: src/server/public-address.ts.
--   Assignments.antt: the selection of assignments in src/lib/execution-capacity.ts.
--   Takeover.antt and Takeover/: src/server/workflows/takeover.ts with src/lib/takeover-contracts.ts, for
--     one attempt. Takeover has the tables, Commands `status` and `command`, Worker the calls of `executionControl`, and
--     History any sequence of them with the changes that others make. Keeping, Operations and Service
--     have what each operation keeps, Histories what follows for the worker and for the intervals,
--     and Lateness what happens after the deadline.
--   Contexts.antt and Contexts/: src/server/workflows/contexts.ts. Contexts has the tables, Claiming
--     `assign`, `claim` and `assertActive`, Preparing the transactions of `prepare` and their order, Retiring
--     `settle`, `revoke` and `retireOne`. Rows, Evolution and Holding have what happens to a row, and
--     Histories runs the transactions in any order, those of `prepare` and `retireOne` among others';
--     Fencing is about the claims after them.
--   Reproduction.antt and Reproduction/: src/server/workflows/reproduction.ts, for one job. Reproduction has
--     `dispatchNext` and `cancel`, Completion `completeCandidate`; Candidates and Cases have lemmas on its operations, Histories runs them, Budgets is about its limits, Ending
--     about its end, and Tracing and Minimal about the steps it finds.
--   Contracts.antt: the statuses and events of src/lib/contracts.ts.
--   LiveWall.antt and LiveWall/: src/lib/live-wall.ts. Merging and Keeping are about the merge of events,
--     Viewers about the views.
--
-- Conventions. UUIDs, owner ids, worker ids and digests are compared for equality only and are
-- numbers. Times are milliseconds, and `actual_browser_seconds`, a multiple of a millisecond, is
-- kept in milliseconds. A text is the list of its UTF-16 code units. A table is a list of rows in
-- the order of its rowid. An operation on the store takes what the clock gives in its transaction,
-- and returns the new store or the error with which the transaction is rolled back. Every loop of
-- the code is over a list, and the loop of a worker that dispatches and completes the candidates of
-- a reproduction is a list of turns. Only the numeral in the id of a frame runs on fuel: one more
-- than the number, which is enough, since each digit divides it by ten.
--
-- Parameters. Redaction of texts (`sanitizeEvidence`, `publicPageUrl`), the digest of a request,
-- the test of a view's links and `takeoverViewerUrl`, which rest on the URL parser of the platform,
-- `isIP`, the signature of a context's scope, what the provider of contexts answers and what a
-- candidate of a reproduction comes to are arguments that the theorems do not restrict. Whether a
-- worker holds its lease is an argument of the takeover's and the contexts' operations. The rows of
-- the native queue that the ceilings count are a field of the store that the managed operations do
-- not change. The values of `randomUUID` are arguments.
--
-- Not modelled: that stored rows are parsed again when they are read, the trimming of the texts of
-- a request, the check of an idempotency key's and a worker id's form, timers, and the bytes of
-- responses. Of the live wall the controller that schedules reads is not modelled; of
-- src/server/repository.ts neither the creation of runs nor evidence, findings and replay grants;
-- of the native worker's repository only the charges are modelled. Of the takeover the events that
-- a transition appends and the polling of the page are not modelled, of the reproduction the
-- grounding and the export of a recipe, the reasons of its statuses, the order of the queue of jobs
-- and `runNext`, which only offline tests use. The execution loop, the gateway, the network policy,
-- reports, the comparison of runs, deployment and the user interface are not modelled.
pub mod Common
pub mod Capacity
pub mod Managed
pub mod NativeJournal
pub mod EventStream
pub mod Contracts
pub mod LiveWall
pub mod RunLog
pub mod NativeCharges
pub mod ModelBudget
pub mod Assignments
pub mod PublicAddress
pub mod Takeover
pub mod Contexts
pub mod Reproduction
