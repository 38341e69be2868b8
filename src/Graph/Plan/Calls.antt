-- ===== src/Graph/Plan/Calls.antt =====
-- What the calls on a graph leave: it has something to wait for.
use mathlib.Core.Path.{subst}
use django_qraft.Prelude.{
  ℕ, String, Bool, true, false, ◌&&◌, Option, none, some, List, get_elem?, is_none, ◌≡◌, refl, ap,
  ◌∙◌, arith, Bool-cases, Option-cases, inl, inr, ok, >>=-ok,
}
use django_qraft.Task.{TaskStatus}
use django_qraft.Graph.Rows.{
  GraphStatus, NodeStatus, Graph, is_pending, graph_is_running, graph_is_live, not_live,
  not_pending,
}
use django_qraft.Graph.Dispatch.{settle, record_settlement}
use django_qraft.Graph.Control.{
  task_outcome, is_bound, record_outcome, handle_node_completion, find_node, check, skip, cancel,
}
use django_qraft.Graph.Start.{NodeSpec}
use django_qraft.Graph.Plan.Checked.{IsAcyclic}
use django_qraft.Graph.Plan.Progress.{plan_of}
use django_qraft.Graph.Control.History.Writes.{same_of_ok}
use django_qraft.Graph.Control.History.Calls.{find_node-at, check-ok}
use django_qraft.Graph.Plan.Live.{Kept, plan_of-set, Thrives, hook-Thrives, progress-Thrives}

same_graph : {g g' : Graph} → some g ≡ some g' → g ≡ g'
same_graph h = cc

no_graph : {g : Graph} → ◌≡◌ {A = Option Graph} none (some g) → ⊥
no_graph h = cc

record_outcome-Kept :
    (now i task : ℕ) (outcome : NodeStatus) (g g' : Graph)
    → record_outcome now i task outcome g ≡ some g'
    → Kept g g'
unfolding record_outcome
record_outcome-Kept now i task outcome g g' e = elim (Option-cases (get_elem? g.nodes i)) [
  | inl x ↦ absurd (no_graph (rw (record_outcome, x) at e))
  | inr (n, at) ↦ elim (Bool-cases (is_bound task n && is_none n.settled_at)) [
    | inr b ↦ absurd (no_graph (rw (record_outcome, at, b) at e))
    | inl b ↦ subst (Kept g) (same_graph (rw (record_outcome, at, b) at e)) (record {
      plan = plan_of-set g.nodes i n (record n { status = outcome; settled_at = some now }) at refl;
      status = refl;
      settled_at = refl;
    })
  ]
]

live-waiting :
    (s : GraphStatus)
    → graph_is_live s ≡ true
    → graph_is_running s ≡ false
    → s ≡ GraphStatus.waiting_approval
live-waiting GraphStatus.running l r = cc
live-waiting GraphStatus.succeeded l r = cc
live-waiting GraphStatus.failed l r = cc
live-waiting GraphStatus.cancelled l r = cc
live-waiting GraphStatus.waiting_approval l r = refl

module _ (specs : List NodeSpec) (b : Bool) where
  Thrives-idle :
      (g : Graph)
      → plan_of g.nodes ≡ specs
      → (is_none g.settled_at ≡ true → graph_is_live g.status ≡ true)
      → graph_is_running g.status ≡ false
      → Thrives specs b g
  Thrives-idle g p alive r = record {
    plan = p;
    alive = alive;
    moves = elim (Bool-cases (is_none g.settled_at)) [
      | inl u ↦ inr (inl (live-waiting g.status (alive u) r))
      | inr u ↦ inl u
    ];
  }

  alive-Kept :
      (g g' : Graph)
      → Kept g g'
      → (is_none g.settled_at ≡ true → graph_is_live g.status ≡ true)
      → is_none g'.settled_at ≡ true
      → graph_is_live g'.status ≡ true
  alive-Kept g g' k alive u = rw (k.status) (alive (rw (k.settled_at) at u))

  pub completion-Thrives :
      (accepted : Bool) (now i task : ℕ) (status : TaskStatus) (g : Graph)
      → IsAcyclic specs
      → Thrives specs b g
      → Thrives specs b (handle_node_completion accepted now i task status g)
  unfolding handle_node_completion
  completion-Thrives accepted now i task status g acyclic h =
      elim (Option-cases (task_outcome status)) [
        | inl e ↦ rw (handle_node_completion, e) h
        | inr (outcome, o) ↦ elim (Option-cases (record_outcome now i task outcome g)) [
          | inl e ↦ rw (handle_node_completion, o, e) h
          | inr (g', e) ↦
              let k = record_outcome-Kept now i task outcome g g' e in
              elim (Bool-cases (graph_is_running g'.status)) [
                | inl r ↦
                    rw (handle_node_completion, o, e, r)
                      (progress-Thrives specs b accepted now g' acyclic (k.plan ∙ h.plan) r)
                | inr r ↦
                    rw (handle_node_completion, o, e, r)
                      (Thrives-idle g' (k.plan ∙ h.plan) (alive-Kept g g' k h.alive) r)
              ]
        ]
      ]

  pub skip-Thrives :
      (accepted : Bool) (now : ℕ) (key : String) (reason : Option String) (g : Graph)
      → IsAcyclic specs
      → Thrives specs b g
      → (g' : Graph) → skip accepted now key reason g ≡ ok g'
      → Thrives specs b g'
  unfolding skip
  skip-Thrives accepted now key reason g acyclic h g' e =
      let (u, live, e1) = >>=-ok (check (graph_is_running g.status) (not_live g.status)) _ e in
      let (p, found, e2) = >>=-ok (find_node key g) _ e1 in
      let (w, pend, e3) = >>=-ok (check (is_pending p.1.status) (not_pending p.1.status)) _ e2 in
      subst (Thrives specs b) (same_of_ok e3) (
        progress-Thrives specs b accepted now _ acyclic
          (plan_of-set g.nodes p.0 p.1 _ (find_node-at key g p found) refl ∙ h.plan)
          (check-ok (graph_is_running g.status) (not_live g.status) u live))

  settle-Thrives :
      (now : ℕ) (s : GraphStatus) (g : Graph)
      → Thrives specs b g
      → (settle now s g).1 ≡ true
      → Thrives specs b ((settle now s g).0)
  unfolding settle record_settlement
  settle-Thrives now s g h m =
      let done : is_none ((settle now s g).0.settled_at) ≡ false = ground arith in
      let same : (settle now s g).0.nodes ≡ g.nodes = ground arith in
      record {
        plan = ap plan_of same ∙ h.plan;
        alive = λ u. absurd (ground arith);
        moves = inl done;
      }

  pub cancel-Thrives :
      (accepted : Bool) (now : ℕ) (g : Graph)
      → Thrives specs b g
      → (g' : Graph) → cancel accepted now g ≡ ok g'
      → Thrives specs b g'
  unfolding cancel settle
  cancel-Thrives accepted now g h g' e = elim (Bool-cases (settle now GraphStatus.cancelled g).1) [
    | inl m ↦ subst (Thrives specs b) (same_of_ok (rw (cancel, m) at e)) (
        hook-Thrives specs b accepted (settle now GraphStatus.cancelled g)
          (settle-Thrives now GraphStatus.cancelled g h m))
    | inr m ↦ absurd (ground (arith, rw (cancel, m) at e))
  ]
