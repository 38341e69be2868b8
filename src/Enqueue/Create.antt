-- ===== src/Enqueue/Create.antt =====
-- qraft/tasks.py: `async_task` on the task rows and the broker's queue, in its two parts: what runs
-- before the transaction that creates the task, and that transaction.
pub mod Prepared
pub mod Outcomes
pub mod Keys
pub mod Once
use django_qraft.Prelude.{
  ℕ, String, Bool, true, false, not, ◌&&◌, ◌||◌, Option, none, some, List, [], ◌∷◌, ◌++◌, map, any,
  str_eq, contains, is_none, Result, ok, err, ◌>>=◌, if◌then◌else◌,
}
use django_qraft.Task.{TaskStatus, is_terminal_failure}
use django_qraft.Retry.{RetryPolicy}
use django_qraft.Retry.Settings.{Checks, Defaults, PolicyError, from_options}
use django_qraft.Enqueue.{
  Call, CallError, integrity_error, enqueue_failed, no_such_graph, not_importable, invalid_policy,
  broker_without_cluster, guard, is_given, or_text, check_arguments, check_priority,
  resolve_success_hook, parse_subject, GraphLabels, Labels, member_labels, resolve_cluster,
}

-- `qraft_metadata`, with the names of the keyword arguments and those of `q2_kwargs`.
pub record Metadata (F : Type 0) : Type 0 where
  pub func : String
  pub kwargs : List String
  pub success_hook : Option String
  pub failure_hook : Option String
  pub retry_policy : Option (RetryPolicy F)
  pub idempotency_key : Option String
  pub priority : String
  pub labels : Labels
  pub cluster : Option String
  pub q2_kwargs : List String

-- A row of `QraftTask`, with the Django-Q2 ids of its attempts, newest first, and the cluster of the
-- first attempt.
pub record TaskRow (F : Type 0) : Type 0 where
  pub metadata : Metadata F
  pub status : TaskStatus
  pub q2_task_ids : List (Option ℕ)
  pub cluster : String

-- What `q2_async_task` was called with: the function, the target that `run_task` is to call, if it is
-- wrapped, and the names of the options.
pub record Message : Type 0 where
  pub q2_task_id : ℕ
  pub func : String
  pub target : Option String
  pub options : List String
  pub idempotency_key : Option String

-- The rows and the messages, newest first.
pub record Tables (F : Type 0) : Type 0 where
  pub rows : List (TaskRow F)
  pub messages : List Message

abbrev pub option_name : Bool → String → List String
option_name true name = name ∷ []
option_name false name = []

-- The names in `q2_kwargs`.
abbrev pub q2_kwargs_of : {F : Type 0} → Call F → Option String → List String
q2_kwargs_of c cluster =
    ("hook" ∷ "q_options" ∷ "ack_failure" ∷ "save" ∷ [])
    ++ (c.kwargs
        ++ (option_name (not (is_none cluster)) "cluster"
            ++ (option_name c.task_name "task_name"
                ++ (option_name c.group "group"
                    ++ (option_name c.timeout "timeout" ++ option_name true "broker")))))

abbrev pub from_policy : {A : Type 0} → Result PolicyError A → Result CallError A
from_policy (ok a) = ok a
from_policy (err e) = err (invalid_policy e)

abbrev pub import_path : Option String → Result CallError String
import_path none = err not_importable
import_path (some func) = ok func

-- From the idempotency lookup to the transaction
unfoldable pub prepare :
    {F : Type 0}
    → Checks F
    → Defaults F
    → (ℕ → Option GraphLabels)
    → Call F
    → Result CallError (Metadata F)
prepare checks defaults graphs c = do
  priority ← check_priority c.priority
  policy ← from_policy (from_options checks defaults c.retry_options)
  subject ← parse_subject c.subject
  labels ← member_labels graphs c.graph c.node subject.0 subject.1
  func ← import_path c.func
  cluster ← resolve_cluster c.cluster c.options_cluster
  _ ← guard (c.broker && is_none cluster) broker_without_cluster
  ok (record {
    func = func;
    kwargs = c.kwargs;
    success_hook = resolve_success_hook c.hook c.success_hook c.failure_hook;
    failure_hook = c.failure_hook;
    retry_policy = policy;
    idempotency_key = c.idempotency_key;
    priority = priority;
    labels = labels;
    cluster = cluster;
    q2_kwargs = q2_kwargs_of c cluster;
  })

abbrev pub has_key : String → Option String → Bool
has_key key none = false
has_key key (some k) = str_eq k key

abbrev pub last_q2 : List (Option ℕ) → Option ℕ
last_q2 [] = none
last_q2 (some q2 ∷ ids) = some q2
last_q2 (none ∷ ids) = last_q2 ids

-- The part before the transaction ends the call, or goes on with the metadata.
pub data Begun (F : Type 0) : Type 0 where
  raised : CallError → Begun F
  returned : ℕ → Begun F
  creating : Metadata F → Begun F

abbrev pub runner_path : String
runner_path = "qraft.runner.run_task"

abbrev pub remove_names : List String → List String → List String
remove_names names [] = []
remove_names names (o ∷ os) =
    if contains o names then remove_names names os else o ∷ remove_names names os

module _ {F : Type 0} where
  abbrev pub holds : String → TaskRow F → Bool
  holds key r = has_key key r.metadata.idempotency_key

  abbrev pub find : (TaskRow F → Bool) → List (TaskRow F) → Option (TaskRow F)
  find p [] = none
  find p (r ∷ rs) = if p r then some r else find p rs

  abbrev pub row_q2 : Option (TaskRow F) → Option ℕ
  row_q2 none = none
  row_q2 (some r) = last_q2 r.q2_task_ids

  -- `_existing_task_for_key`
  abbrev pub existing : String → List (TaskRow F) → Option ℕ
  existing key rows = row_q2 (find (holds key) rows)

  abbrev pub is_dead_holder : String → TaskRow F → Bool
  is_dead_holder key r = holds key r && is_terminal_failure r.status

  abbrev pub without_key : TaskRow F → TaskRow F
  without_key r = record r { metadata = record (r.metadata) { idempotency_key = none } }

  abbrev pub take_key : String → List (TaskRow F) → List (TaskRow F)
  take_key key [] = []
  take_key key (r ∷ rs) = (if is_dead_holder key r then without_key r else r) ∷ take_key key rs

  -- `_reclaim_dead_task_key`
  unfoldable pub reclaim : String → Tables F → Tables F
  reclaim key t = record t { rows = take_key key t.rows }

  abbrev pub begun : Result CallError (Metadata F) → Begun F
  begun (err e) = raised e
  begun (ok m) = creating m

  module _ (checks : Checks F) (defaults : Defaults F) (graphs : ℕ → Option GraphLabels) where
    abbrev pub after_lookup : Option ℕ → Call F → Begun F
    after_lookup (some q2) c = returned q2
    after_lookup none c = begun (prepare checks defaults graphs c)

    -- The idempotency lookup, behind the reclaim where the call asks for it.
    abbrev pub look_up_key : Option String → Call F → Tables F → Begun F × Tables F
    look_up_key none c t = (after_lookup none c, t)
    look_up_key (some key) c t =
        if str_eq key ""
        then (after_lookup none c, t)
        else let t' = if c.idempotency_retry_dead then reclaim key t else t in
          (after_lookup (existing key t'.rows) c, t')

    unfoldable pub look_up : Call F → Tables F → Begun F × Tables F
    unfolding reclaim
    look_up c t = look_up_key c.idempotency_key c t

    abbrev pub after_check : Result CallError (Unit {0}) → Call F → Tables F → Begun F × Tables F
    after_check (err e) c t = (raised e, t)
    after_check (ok _) c t = look_up c t

    -- `async_task` up to `_create_and_enqueue`
    unfoldable pub begin : Call F → Tables F → Begun F × Tables F
    unfolding look_up
    begin c t = after_check (check_arguments c) c t

  -- `_wrapped_dispatch`
  unfoldable pub wrapped_dispatch : ℕ → Metadata F → Message
  wrapped_dispatch q2 m = record {
    q2_task_id = q2;
    func = runner_path;
    target = if str_eq m.func runner_path then none else some m.func;
    options = if str_eq m.func runner_path then m.q2_kwargs else remove_names m.kwargs m.q2_kwargs;
    idempotency_key = m.idempotency_key;
  }

  abbrev pub has_holder : Option String → List (TaskRow F) → Bool
  has_holder none rows = false
  has_holder (some key) rows = any (holds key) rows

  abbrev pub new_row : String → ℕ → Metadata F → TaskRow F
  new_row own q2 m = record {
    metadata = m;
    status = TaskStatus.running;
    q2_task_ids = some q2 ∷ [];
    cluster = or_text m.cluster own;
  }

  -- The subject of a graph that had none yet is read again, under the graph's lock.
  unfoldable pub relabel : (ℕ → Option GraphLabels) → Metadata F → Result CallError (Metadata F)
  relabel locked m = elim (m.labels.graph_id) [
    | none ↦ ok m
    | some id ↦ if is_given m.labels.subject_type then ok m else elim (locked id) [
      | none ↦ err no_such_graph
      | some g ↦ ok (record m {
        labels = record (m.labels) { subject_type = g.subject_type; subject_id = g.subject_id };
      })
    ]
  ]

  -- The row under the unique constraint, the message, if the broker takes it, and the first attempt.
  unfoldable pub insert_and_enqueue :
      String → Option ℕ → Metadata F → Tables F → Result CallError (ℕ × Tables F)
  unfolding wrapped_dispatch
  insert_and_enqueue own answer m t =
      if has_holder m.idempotency_key t.rows then err integrity_error else elim answer [
        | none ↦ err enqueue_failed
        | some q2 ↦ ok (
          q2,
          record t {
            rows = new_row own q2 m ∷ t.rows;
            messages = wrapped_dispatch q2 m ∷ t.messages;
          },
        )
      ]

  -- `_create_and_enqueue` in a process of the cluster `own`, with the graphs at that time; an
  -- exception undoes all of it.
  unfoldable pub create_and_enqueue :
      String
      → (ℕ → Option GraphLabels)
      → Option ℕ
      → Metadata F
      → Tables F
      → Result CallError (ℕ × Tables F)
  unfolding relabel insert_and_enqueue
  create_and_enqueue own locked answer m t =
      relabel locked m >>= λ m'. insert_and_enqueue own answer m' t

  -- After a lost race for the key the call answers with the winner's id.
  abbrev pub after_conflict : Option String → List (TaskRow F) → Result CallError ℕ
  after_conflict none rows = err integrity_error
  after_conflict (some key) rows =
      if str_eq key ""
      then err integrity_error
      else elim (existing key rows) [ none ↦ err integrity_error | some q2 ↦ ok q2 ]

  abbrev pub recover : CallError → Metadata F → Tables F → Result CallError ℕ
  recover integrity_error m t = after_conflict m.idempotency_key t.rows
  recover e m t = err e

  abbrev pub settled :
      Metadata F → Tables F → Result CallError (ℕ × Tables F) → Result CallError ℕ × Tables F
  settled m t (ok (q2, t')) = (ok q2, t')
  settled m t (err e) = (recover e m t, t)

  -- The end of `async_task`
  unfoldable pub complete :
      String
      → (ℕ → Option GraphLabels)
      → Option ℕ
      → Metadata F
      → Tables F
      → Result CallError ℕ × Tables F
  unfolding create_and_enqueue
  complete own locked answer m t = settled m t (create_and_enqueue own locked answer m t)

  abbrev pub finished :
      String
      → (ℕ → Option GraphLabels)
      → Option ℕ
      → Begun F
      → Tables F
      → Result CallError ℕ × Tables F
  finished own locked answer (raised e) t = (err e, t)
  finished own locked answer (returned q2) t = (ok q2, t)
  finished own locked answer (creating m) t = complete own locked answer m t

  -- `async_task` with nothing in between
  unfoldable pub async_task :
      Checks F
      → Defaults F
      → (ℕ → Option GraphLabels)
      → String
      → Option ℕ
      → Call F
      → Tables F
      → Result CallError ℕ × Tables F
  unfolding begin complete
  async_task checks defaults graphs own answer c t =
      let (b, t') = begin checks defaults graphs c t in finished own graphs answer b t'
