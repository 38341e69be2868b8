-- ===== src/Graph/Start.antt =====
-- qraft/graphs.py: the transaction of `start`, behind the validation of the plan.
use mathlib.Core.Path.{subst}
use mathlib.Core.Bool.{false≢true}
use text.Mathlib.TextPositions.{eq_refl}
use django_qraft.Prelude.{
  ◌+◌, get_elem?-map, ℕ, zero, suc, String, Bool, true, not, ◌&&◌, Option, none, some, List, [],
  ◌∷◌, map, get_elem?, contains, str_eq, eq_iff, ◌≡◌, refl, sym, ap, ◌∙◌, arith, Bool-cases, inl,
  inr, all,
}
use django_qraft.Hooks.Once.{no_hooks}
use django_qraft.Graph.Rows.{
  GraphStatus, NodeStatus, Node, Graph, index_from, index_of, met, is_met,
}
use django_qraft.Graph.Dispatch.{dispatch_frontier, maybe_settle}
use django_qraft.Graph.Dispatch.Sound.{IsSound, is_started}
use django_qraft.Graph.Dispatch.Loop.{dispatch_frontier-IsSound}
use django_qraft.Graph.Control.History.{Op, replay, history-IsSound, maybe_settle-nodes}

-- A declared node of a plan; the plan lists its nodes in the order of depth and position.
pub record NodeSpec : Type 0 where
  pub key : String
  pub after : List String
  pub requires_approval : Bool

-- The row that `start` makes of a declared node, with the model's defaults.
abbrev pub new_node : NodeSpec → Node
new_node spec = record {
  key = spec.key;
  after = spec.after;
  requires_approval = spec.requires_approval;
  status = NodeStatus.pending;
  task = none;
  generation = 1;
  receipt = none;
  dispatched_at = none;
  settled_at = none;
  skip_reason = none;
}

abbrev pub new_graph : Option String → ℕ → List NodeSpec → Graph
new_graph on_settled next_task specs = record {
  status = GraphStatus.running;
  generation = 1;
  settled_at = none;
  resumed_at = none;
  on_settled = on_settled;
  nodes = map new_node specs;
  next_task = next_task;
  announced = [];
  settlements = [];
  hooks = no_hooks;
}

abbrev pub spec_keys : List NodeSpec → List String
spec_keys specs = map (λ s. s.key) specs

-- `len(set(keys)) == len(keys)`
abbrev pub distinct_keys : List String → Bool
distinct_keys [] = true
distinct_keys (k ∷ ks) = not (contains k ks) && distinct_keys ks

-- The rows, the first frontier, and the settlement check that parks a graph whose roots are gated.
unfoldable pub start : ℕ → Option String → ℕ → List NodeSpec → Graph
start now on_settled next_task specs =
    (maybe_settle now (dispatch_frontier now (new_graph on_settled next_task specs))).0

same_of_some : {s t : NodeSpec} → some s ≡ some t → s ≡ t
same_of_some h = cc

pub contains_key :
    (specs : List NodeSpec) (i : ℕ) (s : NodeSpec)
    → get_elem? specs i ≡ some s
    → contains s.key (spec_keys specs) ≡ true
contains_key [] i s h = cc
contains_key (x ∷ specs) zero s h =
    subst (λ (q : NodeSpec). contains q.key (spec_keys (x ∷ specs)) ≡ true) (same_of_some h)
      (rw (eq_refl x.key) refl)
contains_key (x ∷ specs) (suc i) s h = ground (arith, contains_key specs i s h)

index_from-new :
    (specs : List NodeSpec) (k i : ℕ) (s : NodeSpec)
    → distinct_keys (spec_keys specs) ≡ true
    → get_elem? specs i ≡ some s
    → index_from s.key k (map new_node specs) ≡ some (k + i)
unfolding index_from
index_from-new [] k i s d h = cc
index_from-new (x ∷ specs) k zero s d h =
    subst (λ (q : NodeSpec). index_from q.key k (map new_node (x ∷ specs)) ≡ some (k + zero))
      (same_of_some h) (rw (eq_refl x.key) (ap some (omega arith)))
index_from-new (x ∷ specs) k (suc i) s d h = elim (Bool-cases (str_eq x.key s.key)) [
  | inl e ↦ absurd (
      ground (
        arith,
        contains_key specs i s h,
        ap (λ (q : String). contains q (spec_keys specs)) ((eq_iff x.key s.key).0 e),
      ))
  | inr e ↦ rw e (index_from-new specs (suc k) i s (ground arith) h ∙ ap some (omega arith))
]

-- The rows that a plan starts with are as they should be: nothing has started.
new-IsSound :
    (specs : List NodeSpec) → distinct_keys (spec_keys specs) ≡ true → IsSound (map new_node specs)
unfolding index_of
new-IsSound specs d = record {
  deps = λ i n at st.
      let (s, at_s, e) = get_elem?-map new_node specs i n at in
      absurd (false≢true (subst (λ (m : Node). is_started m.status ≡ true) (sym e) st));
  own_key = λ i n at.
      let (s, at_s, e) = get_elem?-map new_node specs i n at in
      subst (λ (m : Node). index_of m.key (map new_node specs) ≡ some i) e
        (index_from-new specs zero i s d at_s ∙ ap some (omega arith));
  met_settled = λ i n at m.
      let (s, at_s, e) = get_elem?-map new_node specs i n at in
      absurd (false≢true (subst (λ (v : Node). is_met v.status ≡ true) (sym e) m));
  idle_unbound = λ i n at m.
      let (s, at_s, e) = get_elem?-map new_node specs i n at in
      subst (λ (v : Node). v.task ≡ none) e refl;
}

start-IsSound :
    (now : ℕ) (on_settled : Option String) (next_task : ℕ) (specs : List NodeSpec)
    → distinct_keys (spec_keys specs) ≡ true
    → IsSound (start now on_settled next_task specs).nodes
unfolding start
start-IsSound now on_settled next_task specs d =
    subst IsSound
      (sym (maybe_settle-nodes now (dispatch_frontier now (new_graph on_settled next_task specs))))
      (dispatch_frontier-IsSound now (new_graph on_settled next_task specs) (new-IsSound specs d))

-- No node starts too early: in a graph started from a plan with distinct keys, after any history
-- of completions, skips, cancellations, approvals, rejections and resumes, a node that is running,
-- at its gate or at an end other than a skip depends only on nodes that have succeeded or were
-- skipped.
pub no_early_start :
    (ops : List Op) (now : ℕ) (on_settled : Option String) (next_task : ℕ) (specs : List NodeSpec)
    → distinct_keys (spec_keys specs) ≡ true
    → (i : ℕ) (n : Node)
    → get_elem? (replay ops (start now on_settled next_task specs)).nodes i ≡ some n
    → is_started n.status ≡ true
    → all (met (replay ops (start now on_settled next_task specs)).nodes) n.after ≡ true
no_early_start ops now on_settled next_task specs d = IsSound.deps (
    history-IsSound ops (start now on_settled next_task specs)
      (start-IsSound now on_settled next_task specs d))
