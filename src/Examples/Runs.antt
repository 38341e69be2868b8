-- ===== src/Examples/Runs.antt =====
-- Deliveries, calls of `async_task` and reports of progress at concrete rows and arguments.
use django_qraft.Prelude.{
  ℕ, ◌+◌, ◌≤◌, ◌<◌, ◌≡◌, refl, true, false, Bool, Option, none, some, get_elem?, is_none, List, [],
  ◌∷◌, ◌==◌, count_if, arith, if◌then◌else◌,
}
use django_qraft.Task.{TaskStatus}
use django_qraft.Lease.{Execution}
use django_qraft.Lease.Delivery.{unmarked, Rows, Event, receive, execute, leave, at_end}
use django_qraft.Lease.Delivery.Bounded.{threads, calls_of, calls_bounded}
use django_qraft.Lease.Delivery.Memo.{executions, twice, process, stale_memo}
use django_qraft.Retry.Settings.{Arguments, from_options}
use django_qraft.Enqueue.{
  Call, pair, GraphLabels, check_arguments, check_priority, parse_subject, member_labels,
  resolve_cluster,
}
use django_qraft.Enqueue.Create.{Tables, prepare}
use django_qraft.Enqueue.Create.Keys.{holders, messages_under}
use django_qraft.Enqueue.Create.Once
use django_qraft.Enqueue.Create.Once.{once_per_key, is_reclaim, no_tasks}
use django_qraft.Progress.{Report, number, text, Attempt}
use django_qraft.Progress
use django_qraft.Progress.Shown
use django_qraft.Progress.Shown.{progress_shown, new_task, shown_of}
use django_qraft.Progress.Statement.{pg_progress_update, pg_progress_update-eq}
use django_qraft.Graph.Rows.{Node}
use django_qraft.Graph.Control.{is_bound}
use django_qraft.Graph.Control.History.{complete, resume_graph}
use django_qraft.Graph.Start.{NodeSpec, start}
use django_qraft.Graph.Publish.{write_row, succeed}
use django_qraft.Graph.Publish.Authority
use django_qraft.Graph.Publish.Authority.{times, desk, publishes_once}
use django_qraft.Examples.Jobs.{whole, defaults}

abbrev waiting : Execution
waiting = record {
  date_started = none;
  heartbeat_at = none;
  worker = none;
  success = none;
  execution_count = 0;
}

abbrev one_row : Rows
one_row id = if id == 7 then some waiting else none

-- Two threads are handed the message, and the first of them once more.
abbrev redelivered : List Event
redelivered =
    receive unmarked 10 0 7
    ∷ receive unmarked 11 1 7
    ∷ execute 12 1
    ∷ execute 13 0
    ∷ leave 0
    ∷ receive unmarked 14 0 7
    ∷ execute 15 0
    ∷ []

calls_bounded_example :
    calls_of 7
        (at_end true 1 redelivered
          (record { contexts = threads 2; rows = one_row; calls = [] })).calls
      + waiting.execution_count
    ≤ 1
calls_bounded_example = calls_bounded 1 7 2 one_row waiting redelivered refl (omega arith) refl

stale_memo_example :
    ((at_end false 1 (twice 7 10 20) (process one_row)).calls ≡ 7 ∷ 7 ∷ [])
    × (executions ((at_end false 1 (twice 7 10 20) (process one_row)).rows 7) ≡ some (0 + 1))
stale_memo_example = stale_memo 1 7 10 20 one_row waiting refl refl refl (omega arith)

abbrev no_retry : Arguments ℕ
no_retry = record {
  max_attempts = none;
  base_delay = none;
  backoff_strategy = none;
  jitter = none;
  jitter_max = none;
  retry_exceptions = none;
  skip_exceptions = none;
  rate_limit_exceptions = none;
  rate_limit_max_delay = none;
}

abbrev invoice : Bool → Call ℕ
invoice retry_dead = record {
  func = some "billing.send";
  kwargs = "amount" ∷ [];
  hook = none;
  group = false;
  save = none;
  timeout = true;
  ack_failure = none;
  sync = false;
  cached = false;
  broker = false;
  cluster = none;
  task_name = false;
  q_options = [];
  success_hook = some "billing.sent";
  failure_hook = none;
  retry_options = record no_retry { max_attempts = some 3 };
  idempotency_key = some "invoice-17";
  idempotency_retry_dead = retry_dead;
  priority = some "high";
  subject = pair "invoice" (some "17");
  graph = none;
  node = none;
  options_cluster = some "mail";
}

abbrev no_graphs : ℕ → Option GraphLabels
no_graphs id = none

-- Two calls race, the winner's task dies, and a third call reclaims the key.
abbrev race : List (Once.Event ℕ)
race =
    Once.call (invoice false)
    ∷ Once.call (invoice false)
    ∷ Once.commit 1 "default" no_graphs (some 5)
    ∷ Once.commit 0 "default" no_graphs (some 6)
    ∷ Once.change 0 TaskStatus.exhausted
    ∷ Once.call (invoice true)
    ∷ Once.commit 0 "default" no_graphs (some 8)
    ∷ []

once_per_key_example :
    (messages_under "invoice-17"
        (Once.at_end whole (defaults 60) no_graphs race no_tasks).tables.messages
      ≤ 1 + count_if (is_reclaim "invoice-17") race)
    × (holders "invoice-17" (Once.at_end whole (defaults 60) no_graphs race no_tasks).tables.rows
        ≤ 1)
once_per_key_example = once_per_key whole (defaults 60) no_graphs "invoice-17" race

enqueued_by_race :
    messages_under "invoice-17"
      (Once.at_end whole (defaults 60) no_graphs race no_tasks).tables.messages
    ≡ 2
unfolding Once.at_end check_arguments prepare check_priority from_options parse_subject
    member_labels resolve_cluster
enqueued_by_race = refl

abbrev empty : Tables ℕ
empty = record { rows = []; messages = [] }

abbrev page : ℕ → ℕ → Report
page n now = record {
  current = some (number n);
  total = some (number 9);
  message = some (text "page");
  extra = [];
  force = false;
  now = now;
}

-- The first attempt reports once more behind its retry.
abbrev late : List Shown.Event
late =
    Shown.report 1 (page 3 100)
    ∷ Shown.retry
    ∷ Shown.report 2 (page 1 110)
    ∷ Shown.report 1 (page 4 111)
    ∷ Shown.report 2 (page 1 112)
    ∷ []

abbrev second : Attempt
second = record {
  attempt_number = 2;
  progress = some (("current", number 1) ∷ ("total", number 9) ∷ ("message", text "page") ∷ []);
  progress_reported_at = some 110;
  progress_advanced_at = some 110;
}

late_attempts :
    Progress.find
      (Progress.latest_number (Shown.at_end (some 5) late new_task).attempts)
      (Shown.at_end (some 5) late new_task).attempts
    ≡ some second
unfolding Shown.at_end
late_attempts = refl

progress_shown_example : (Shown.at_end (some 5) late new_task).progress ≡ shown_of second
progress_shown_example = progress_shown (some 5) late second late_attempts refl

pg_progress_update-eq_example :
    pg_progress_update (some 105) (page 1 121) second
    ≡ Progress.locked_progress_update (some 105) (page 1 121) second
pg_progress_update-eq_example = pg_progress_update-eq (some 105) (page 1 121) second

abbrev one_node : List NodeSpec
one_node = record { key = "load"; after = []; requires_approval = false } ∷ []

-- Task 0 publishes and fails afterwards, the graph is resumed, and the superseded task tries again
-- beside the new one.
abbrev published_twice : List Authority.Event
published_twice =
    Authority.publication 0 0 10 (write_row 71 ∷ succeed 5 ∷ [])
    ∷ Authority.publication 0 0 10 (write_row 72 ∷ succeed 6 ∷ [])
    ∷ Authority.on_graph (complete true 8 0 0 TaskStatus.failed)
    ∷ Authority.on_graph (resume_graph 9 none)
    ∷ Authority.publication 0 0 10 (write_row 73 ∷ succeed 7 ∷ [])
    ∷ Authority.publication 0 1 11 (write_row 74 ∷ succeed 8 ∷ [])
    ∷ []

publishes_once_example :
    (times 0 1 (Authority.at_end published_twice (desk (start 4 none 0 one_node))).published ≤ 1)
    × ((n : Node)
        → get_elem?
            (Authority.at_end published_twice (desk (start 4 none 0 one_node))).graph.nodes
            0
          ≡ some n
        → is_bound 1 n ≡ true
        → 0
          < times 0 1 (Authority.at_end published_twice (desk (start 4 none 0 one_node))).published
        → is_none n.receipt ≡ false)
publishes_once_example = publishes_once 4 0 none one_node published_twice 0 1
