-- ===== src/Lib.antt =====
-- The openclaw A2A plugins: two plugins that connect an agent host with the A2A protocol.
--
-- The inbound plugin (packages/openclaw-a2a-inbound) serves the protocol. A request handler starts
-- an execution; its coordinator turns what the agent does into events on a bus; the events are
-- committed to the task runtime store, which notifies the live tails of clients that resubscribed;
-- the planner decides what a resubscription gets. The outbound plugin
-- (packages/openclaw-a2a-outbound) is a client of remote agents, and keeps a handle for each remote
-- task.
--
-- Base: shared helpers. Texts are lists of UTF-16 code units (Text, with the string operations in
-- Strings), a `Map` is its list of entries in the order of insertion (Dict), a call that throws
-- returns a Result, lists and tests are over the native numbers.
--
-- Inbound, of packages/openclaw-a2a-inbound/src:
--   Protocol       the protocol's objects and JSON values
--   TaskStates     the classes of task states of response-mapping.ts
--   Replies        what response-mapping.ts reads from replies, and builds from them (Objects)
--   SessionRouting session-routing.ts: the parts of a request (Parts), the stable form of JSON in
--                  notes (StableJson), peers and what the agent is given (Routes)
--   Subscription   TaskJournalSubscription of task-store.ts, a queue with waiting readers
--   Merge          ensureHistoryContainsMessage, mergeArtifact and mergeStatus of task-store.ts
--   Records        the stored record, and its file in parseStoredTaskRecord (Format)
--   TaskStore      A2ATaskRuntimeStore over the in-memory backend: a record with the maps of the
--                  class, one function for each method, and a step function (Wellformed/Steps)
--   WriteLock      task-store-write-lock.ts: whether a lock file was left behind (Inspection), the
--                  locks that are held and their files (Locks), the loop that acquires one
--                  (Acquisition), and what happens at the end of the process (Cleanup)
--   LiveExecutions A2ALiveExecutionRegistry, with abort controllers as objects on a heap
--   ResubscribePlanner   A2AResubscribePlanner of resubscribe-planner.ts
--   Coordinator    A2ATaskExecutionCoordinator of task-execution-coordinator.ts: its fields as a
--                  record, its methods as functions that return or throw with the state they leave;
--                  what it publishes (Publishing), its stages, the events and replies that it
--                  handles, its ends, and the automaton that reads its bus (Stream)
--   RequestHistory trimTaskHistory of request-handler.ts
--   RequestHandler A2AInboundRequestHandler of request-handler.ts: the three ways to answer an
--                  execution (Executions), the request context and the start (Contexts), the
--                  cancellation step by step (Cancellations), and the methods (Sends)
--
-- Outbound, of packages/openclaw-a2a-outbound/src:
--   Targets        the resolved target of sdk-client-pool.ts
--   TargetCatalog  TargetCatalog of target-catalog.ts, with normalizeTarget of sdk-client-pool.ts
--                  (Normalization): the cards (Cards), the configured targets (Resolution) and the
--                  refreshes of their cards (Loading)
--   Requests       request-normalization.ts
--   Capabilities   capability-diagnostics.ts
--   ResultShape    result-shape.ts: what a peer sends (Events), the summaries of one event
--                  (Summaries) and of a stream (Streams), and the envelopes of the results
--   TaskHandles    TaskHandleRegistry of task-handle-registry.ts, with the time and new UUIDs as
--                  arguments of its methods
--
-- A call of the store or of the registry is one step, since the program queues the calls for a task;
-- interleavings are lists of calls. Priming and discarding a pending binding are not queued in the
-- program, and a write of the store forgets the pending binding only after it awaited the backend:
-- a binding primed within that wait is forgotten by the program, which is not modelled. The microtask
-- of the coordinator is a call of its own. The store's file system and its directory layout are not
-- modelled: the file of a record, or of a lock, is the JSON value in it. The loop that acquires the
-- write lock gets, for each of its turns, what other processes and the file system do; its list of
-- turns is its fuel, and one for each 50 ms and for each file that is put in place is enough. The
-- releases that it waits for before it calls itself again are an argument too, one for each wait.
-- Other calls of the same process and changes between its failed open and its removal of a file are not
-- interleaved with it. The event bus and the subscribers do not call back into the coordinator. The
-- platform's UUIDs, time, URLs, lower case and JSON text are parameters (Replies, Ambient). There
-- is no other fuel but in the decimal digits of a number, one more than the number, where each
-- digit uses one. Configuration, routes, command line, schemas, the executor, the server and the
-- remote service are not modelled.
pub mod Base
pub mod Inbound
pub mod Outbound
