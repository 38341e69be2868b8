-- ===== src/Lib.antt =====
-- django-qraft: durable background tasks with retries, leases and workflows (chains, batches, iters
-- and graphs) on top of Django and django_q.
--
-- A task is executed in attempts. `lease._claim` admits a delivery of an attempt, `retry` decides
-- what follows a failure, and a completion goes through `hooks.qraft_hook_handler` to the dispatcher
-- of the workflow that the task belongs to: `dispatchers.ChainDispatcher` queues a chain's next step,
-- `dispatchers.ParallelDispatcher` counts a batch's or an iter's member, and
-- `graphs.handle_node_completion` records a node's outcome and dispatches the frontier. Settlement is
-- a conditional update of the row, and the hook that follows goes through `dispatch_hook_once`.
--
-- Which file models what (paths from the repository's root):
--   Task         qraft/models/tasks.py: the task statuses
--   Hooks        Once: qraft/hooks.py `dispatch_hook_once` with the dispatch rows
--   Workflow     Status: qraft/models/mixins.py `transition_to`
--                Settle: `settle_workflow` of qraft/dispatchers.py and `cancel` of qraft/base.py;
--                  Race: histories of both
--                Parallel: `ParallelDispatcher`; Start: `run` of qraft/batch.py and qraft/iter.py;
--                  Counts: the counters; FanIn: deliveries of all members
--                Chain: `ChainDispatcher` and the chain's part of `route_workflow_completion`;
--                  Control: the calls of qraft/chain.py; Success: a redelivered success; Order:
--                  histories; Anomalies: superseded completions and two surprising behaviours
--   Graph        Rows: qraft/models/graphs.py; Dispatch: the frontier and settlement of
--                  qraft/graphs.py; Frontier: one pass over it; Closure: `_rerun_closure`; Control: completions and the calls
--                  `skip`, `cancel`, `approve`, `reject`, `resume`, with their histories; Start:
--                  `Graph.start` behind the validation of the plan; Generations: settlements and
--                  resumes
--                Plan: `Graph.start` with `_validate_topology` and `_has_cycle`; Order, Fuel,
--                  Checked, Decides: what the depth-first search decides; Progress, Live, Calls, Gates,
--                  Wedge: why no accepted graph gets stuck
--                Publish: `publish` and `Completion`; Kept, Calls, Authority: publications between
--                  the calls
--   Retry        qraft/retry.py: `RetryPolicy` and `handle_task_retry`; Failures: attempts that fail
--                  one after the other; Delay: the bounds of the delays; Settings, RoundTrip: how a
--                  policy is made, stored and read
--   Lease        qraft/lease.py `_claim`; Budget: deliveries and resolutions in any order; Delivery: the
--                  `pre_execute` receivers, `claim_delivery` with the memo of qraft/context.py, and
--                  `run_task` of qraft/runner.py; Calls, Bounded: threads that take messages in any
--                  interleaving; Memo: a process that does not clear its context
--   Enqueue      qraft/tasks.py: the options of `async_task` and `member_labels` of qraft/graphs.py;
--                  Create: the call itself; Prepared, Outcomes: its branches; Keys, Once: concurrent
--                  calls with one idempotency key
--   Progress     qraft/context.py `report_progress`; Statement: the statement for PostgreSQL; Shown:
--                  reports of several attempts
--   Job          a task with its attempts: qraft/models/tasks.py, `schedule_attempt` and
--                  `_claim_and_enqueue` of qraft/scheduler.py, `requeue` of qraft/dlq.py,
--                  `_create_and_enqueue` of qraft/tasks.py, and the stamps of qraft/lease.py,
--                  qraft/runner.py and qraft/graphs.py; Completion: `qraft_hook_handler` and
--                  `replay_unrouted`; Reaper: `_reap_one` with `_resolve_committed`, and
--                  `rearm_stuck_claims`; Tracked, Machine, Rows, Operations, Outcomes: an abstract
--                  life of a task that each operation refines; History: calls in any order; Counted,
--                  Life: what holds
--                  in every history; Routing: the replay of lost routings
--   Throttle     qraft/throttle.py `acquire`; Window: what a bucket lets through over time
--   Usage        qraft/context.py `record_usage` and `aggregate_usage`; Values, Recorded: one value and
--                  one attempt; Attempts: all calls of a task's attempts
--   Budget       qraft/context.py `consume_budget`; Spending: what all tasks of a graph spend
--   Pricing      qraft/pricing.py: `Price.amount`, `usage_entry` and `cost`; Recorded: what the cost
--                  of recorded usage rests on
--   Examples     the theorems at concrete rows, plans and deliveries
--
-- A row is a record, an operation a function from the row before to the row after. The row lock
-- makes each operation one step, so interleavings are lists of operations. An exception is a value,
-- and the transaction that it rolls back leaves the row as it was. Ids of rows, tasks and attempts
-- and times are natural numbers, keys and hook paths strings. What the broker answers is an
-- argument. The signals sent and the hooks and steps queued are kept in the rows as lists. A graph's
-- nodes stand in the order of depth and position. Of a member's attempts the final one bears the
-- member's id. Floating-point delays are over an interface with the laws of order that they rest on;
-- buckets and decimals are over interfaces without laws, and the bound of a bucket is for whole
-- numbers.
--
-- A requeue acts on the status of the object it was given, and the reaper on the copy of the attempt
-- that it read before it took the lock: both are arguments, and a history is timely if each finds the
-- rows so. The retry options of a graph's node are taken to be ones that `RetryPolicy` accepts:
-- `_dispatch_node` raises at others. Each key of a bucket keeps its rate and its capacity. Usage is in
-- whole amounts that are not negative.
--
-- The configured interval between two reports of progress is at most the time of a report. A message of
-- Django-Q2 is the name of its function, its target and the names of its options. A database error
-- other than the unique constraint's is not modelled.
--
-- Two functions have fuel. The rounds of `close` are the number of the named nodes and of the
-- dependency entries of the plan, since each entry is pushed at most once. The depth of `visit` is the
-- number of nodes and one more, since the keys visited at the moment are different.
--
-- Not modelled: the bodies of tasks and hooks, payloads, summaries, metrics, logging and tracing;
-- processes, threads and broker clients; the selection of orphans from the broker's queue;
-- retention; the usage statement for PostgreSQL; the heartbeat thread; admin and dashboard; the
-- depths of a plan's nodes, which only order the rows.
mod Prelude
pub mod Task
pub mod Hooks
pub mod Workflow
pub mod Graph
pub mod Retry
pub mod Job
pub mod Throttle
pub mod Budget
pub mod Enqueue
pub mod Progress
pub mod Usage
pub mod Pricing
pub mod Lease
mod Examples
