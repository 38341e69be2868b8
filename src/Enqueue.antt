-- ===== src/Enqueue.antt =====
-- qraft/tasks.py: the options of `async_task`, their checks, and the metadata of the row to be.
pub mod Create
use django_qraft.Prelude.{
  ℕ, String, Bool, true, false, not, ◌&&◌, ◌||◌, Option, none, some, List, [], ◌∷◌, ◌++◌, any,
  str_eq, contains, is_none, Result, ok, err, ◌>>=◌, if◌then◌else◌,
}
use django_qraft.Retry.{RetryPolicy}
use django_qraft.Retry.Settings.{Arguments, PolicyError}
use django_qraft.Graph.Rows.{GraphStatus, graph_is_running}

-- What `qraft_options["subject"]` may be.
pub data Subject : Type 0 where
  no_subject : Subject
  pair : String → Option String → Subject
  not_a_pair : Subject

-- The arguments of a call: names for keyword arguments and for the options of Django-Q2, payloads
-- left out. `func` is the path of the function, if it has one that can be imported again.
pub record Call (F : Type 0) : Type 0 where
  pub func : Option String
  pub kwargs : List String
  pub hook : Option String
  pub group : Bool
  pub save : Option Bool
  pub timeout : Bool
  pub ack_failure : Option Bool
  pub sync : Bool
  pub cached : Bool
  pub broker : Bool
  pub cluster : Option String
  pub task_name : Bool
  pub q_options : List String
  pub success_hook : Option String
  pub failure_hook : Option String
  pub retry_options : Arguments F
  pub idempotency_key : Option String
  pub idempotency_retry_dead : Bool
  pub priority : Option String
  pub subject : Subject
  pub graph : Option ℕ
  pub node : Option String
  pub options_cluster : Option String

-- `ValueError`, `GraphError` and what the database and the broker raise.
pub data CallError : Type 0 where
  sync_unsupported save_required cached_unsupported ack_failure_required : CallError
  reserved_in_q_options colliding_kwargs : CallError
  invalid_priority : String → CallError
  invalid_policy : PolicyError → CallError
  invalid_subject node_without_graph no_such_graph : CallError
  graph_not_running : GraphStatus → CallError
  no_such_node subject_differs not_importable : CallError
  cluster_conflict broker_without_cluster : CallError
  integrity_error enqueue_failed : CallError

abbrev pub guard : Bool → CallError → Result CallError (Unit {0})
guard true e = err e
guard false e = ok tt

-- A text that counts as true.
abbrev pub is_given : Option String → Bool
is_given none = false
is_given (some s) = not (str_eq s "")

abbrev pub same_text : Option String → Option String → Bool
same_text none none = true
same_text (some a) (some b) = str_eq a b
same_text _ _ = false

abbrev pub or_text : Option String → String → String
or_text none s = s
or_text (some t) s = if str_eq t "" then s else t

-- `_DJANGO_Q_OPT_KEYS`
abbrev pub django_q_opt_keys : List String
django_q_opt_keys =
    "hook" ∷ "group" ∷ "save" ∷ "sync" ∷ "cached" ∷ "ack_failure" ∷ "iter_count" ∷ "iter_cached"
    ∷ "chain" ∷ "broker" ∷ "cluster" ∷ "timeout" ∷ []

-- `_RESERVED_Q_OPTIONS`
abbrev pub reserved_q_options : List String
reserved_q_options = "hook" ∷ "save" ∷ "sync" ∷ "cached" ∷ "ack_failure" ∷ "broker" ∷ "cluster" ∷ []

abbrev pub intersects : List String → List String → Bool
intersects keys names = any (λ k. contains k names) keys

abbrev pub is_false : Option Bool → Bool
is_false (some false) = true
is_false _ = false

-- The refusals at the top of `async_task`.
unfoldable pub check_arguments : {F : Type 0} → Call F → Result CallError (Unit {0})
check_arguments c = do
  _ ← guard c.sync sync_unsupported
  _ ← guard (is_false c.save) save_required
  _ ← guard c.cached cached_unsupported
  _ ← guard (is_false c.ack_failure) ack_failure_required
  _ ← guard (intersects reserved_q_options c.q_options) reserved_in_q_options
  guard (intersects django_q_opt_keys c.kwargs) colliding_kwargs

-- `TaskPriority`
abbrev pub priorities : List String
priorities = "high" ∷ "default" ∷ "low" ∷ []

unfoldable pub check_priority : Option String → Result CallError String
check_priority none = ok "default"
check_priority (some p) = if contains p priorities then ok p else err (invalid_priority p)

-- The legacy `hook` counts where no hook of Qraft is given.
unfoldable pub resolve_success_hook : Option String → Option String → Option String → Option String
resolve_success_hook hook success failure =
    if is_given hook && not (is_given success || is_given failure) then hook else success

unfoldable pub parse_subject : Subject → Result CallError (Option String × Option String)
parse_subject no_subject = ok (none, none)
parse_subject not_a_pair = err invalid_subject
parse_subject (pair subject_type none) = err invalid_subject
parse_subject (pair subject_type (some subject_id)) =
    if str_eq subject_type "" then err invalid_subject else ok (some subject_type, some subject_id)

-- What `member_labels` reads of a graph.
pub record GraphLabels : Type 0 where
  pub status : GraphStatus
  pub keys : List String
  pub subject_type : Option String
  pub subject_id : Option String

pub record Labels : Type 0 where
  pub graph_id : Option ℕ
  pub node : Option String
  pub subject_type : Option String
  pub subject_id : Option String

abbrev pub knows_node : List String → Option String → Bool
knows_node keys none = true
knows_node keys (some n) = str_eq n "" || contains n keys

-- The subject of a graph is its tasks' subject.
abbrev pub with_subject :
    ℕ → Option String → Option String → Option String → GraphLabels → Result CallError Labels
with_subject id node subject_type subject_id g =
    if is_none subject_type && is_none subject_id
    then ok (record {
      graph_id = some id;
      node = node;
      subject_type = g.subject_type;
      subject_id = g.subject_id;
    })
    else if same_text subject_type g.subject_type && same_text subject_id g.subject_id
    then ok (record {
      graph_id = some id;
      node = node;
      subject_type = subject_type;
      subject_id = subject_id;
    })
    else err subject_differs

-- `member_labels` of qraft/graphs.py, by the graph that the id finds
unfoldable pub member_labels :
    (ℕ → Option GraphLabels)
    → Option ℕ
    → Option String
    → Option String
    → Option String
    → Result CallError Labels
member_labels graphs none node subject_type subject_id =
    if is_given node
    then err node_without_graph
    else ok (record {
      graph_id = none;
      node = none;
      subject_type = subject_type;
      subject_id = subject_id;
    })
member_labels graphs (some id) node subject_type subject_id = elim (graphs id) [
  | none ↦ err no_such_graph
  | some g ↦
      if not (graph_is_running g.status)
      then err (graph_not_running g.status)
      else if not (knows_node g.keys node)
      then err no_such_node
      else with_subject id node subject_type subject_id g
]

-- The named parameter and the option agree where both are given.
unfoldable pub resolve_cluster : Option String → Option String → Result CallError (Option String)
resolve_cluster none b = ok b
resolve_cluster (some a) none = ok (some a)
resolve_cluster (some a) (some b) = if str_eq a b then ok (some a) else err cluster_conflict
