-- ===== src/Graph/Plan/Live.antt =====
-- What a graph with an acyclic plan waits for after the frontier and the settlement check.
use mathlib.Core.Path.{subst}
use django_qraft.Prelude.{
  ℕ, zero, suc, Bool, true, false, not, ◌&&◌, ◌||◌, some, List, [], ◌∷◌, get_elem?, set, is_none,
  member, ◌≡◌, ◌⊎◌, refl, sym, ap, ◌∙◌, arith, Bool-cases, Option-cases, inl, inr,
}
use django_qraft.Hooks.Once.{is_configured}
use django_qraft.Graph.Rows.{
  GraphStatus, Node, Graph, is_pending, is_running, graph_is_running, graph_is_live, ready_nodes,
}
use django_qraft.Graph.Dispatch.{
  some_node, is_empty, dispatch_node, dispatch_one, dispatch_loop, dispatch_frontier, is_busy,
  settle, maybe_settle, dispatch_settled_hook,
}
use django_qraft.Graph.Dispatch.Loop.{dispatch_one-none, dispatch_one-some, started_as}
use django_qraft.Graph.Dispatch.Frontier.{dispatch_frontier-drains}
use django_qraft.Graph.Control.{progress}
use django_qraft.Graph.Control.History.{maybe_settle-nodes}
use django_qraft.Graph.Start.{NodeSpec}
use django_qraft.Graph.Plan.Checked.{IsAcyclic}
use django_qraft.Graph.Plan.Progress.{
  spec_of, plan_of, Decided, busy, settled, parked_at, maybe_settle-Decided,
}

-- A change of the rows that leaves the plan, the status and the settlement.
pub record Kept (g g' : Graph) : Type 0 where
  pub plan : plan_of g'.nodes ≡ plan_of g.nodes
  pub status : g'.status ≡ g.status
  pub settled_at : g'.settled_at ≡ g.settled_at

same_node : {m n : Node} → some m ≡ some n → m ≡ n
same_node h = cc

pub plan_of-set :
    (nodes : List Node) (i : ℕ) (u v : Node)
    → get_elem? nodes i ≡ some u
    → spec_of v ≡ spec_of u
    → plan_of (set nodes i v) ≡ plan_of nodes
plan_of-set [] i u v at e = refl
plan_of-set (x ∷ nodes) zero u v at e =
    ap (λ (s : NodeSpec). s ∷ plan_of nodes) (e ∙ ap spec_of (sym (same_node at)))
plan_of-set (x ∷ nodes) (suc i) u v at e =
    ap (λ (ss : List NodeSpec). spec_of x ∷ ss) (plan_of-set nodes i u v at e)

started_as-spec : (now task : ℕ) (n : Node) → spec_of (started_as now task n) ≡ spec_of n
started_as-spec now task n = elim (Bool-cases n.requires_approval) [
  | inl r ↦ rw r refl
  | inr r ↦ rw r refl
]

dispatch_one-Kept : (now i : ℕ) (g : Graph) → Kept g (dispatch_one now i g)
unfolding dispatch_one dispatch_node
dispatch_one-Kept now i g = record {
  plan = elim (Option-cases (get_elem? g.nodes i)) [
    | inl e ↦ ap plan_of (dispatch_one-none now i g e)
    | inr (n, e) ↦
        ap plan_of (dispatch_one-some now i g n e) ∙ elim (Bool-cases (is_pending n.status)) [
          | inl p ↦ rw p (
              plan_of-set g.nodes i n (started_as now g.next_task n) e
                (started_as-spec now g.next_task n))
          | inr p ↦ rw p refl
        ]
  ];
  status = ground arith;
  settled_at = ground arith;
}

Kept-trans : (g h k : Graph) → Kept g h → Kept h k → Kept g k
Kept-trans g h k a b = record {
  plan = b.plan ∙ a.plan;
  status = b.status ∙ a.status;
  settled_at = b.settled_at ∙ a.settled_at;
}

Kept-refl : (g : Graph) → Kept g g
Kept-refl g = record { plan = refl; status = refl; settled_at = refl }

dispatch_loop-Kept : (now : ℕ) (is : List ℕ) (g : Graph) → Kept g (dispatch_loop now is g)
unfolding dispatch_loop
dispatch_loop-Kept now [] g = Kept-refl g
dispatch_loop-Kept now (i ∷ is) g =
    Kept-trans g (dispatch_one now i g) (dispatch_loop now is (dispatch_one now i g))
      (dispatch_one-Kept now i g) (dispatch_loop-Kept now is (dispatch_one now i g))

dispatch_frontier-Kept : (now : ℕ) (g : Graph) → Kept g (dispatch_frontier now g)
unfolding dispatch_frontier
dispatch_frontier-Kept now g = elim (Bool-cases (graph_is_running g.status)) [
  | inl r ↦ rw (dispatch_frontier, r) (dispatch_loop-Kept now (ready_nodes g.nodes) g)
  | inr r ↦ rw (dispatch_frontier, r) (Kept-refl g)
]

maybe_settle-stays :
    (now : ℕ) (g : Graph)
    → is_none g.settled_at ≡ false
    → is_none ((maybe_settle now g).0.settled_at) ≡ false
unfolding maybe_settle settle
maybe_settle-stays now g h = ground arith

-- A node runs, or, if that is allowed for, one is ready.
abbrev pub goes_on : Bool → List Node → Bool
goes_on b nodes = some_node is_running nodes || (b && not (is_empty (ready_nodes nodes)))

pub busy-goes_on : (nodes : List Node) → is_busy nodes ≡ true → goes_on true nodes ≡ true
unfolding is_busy
busy-goes_on nodes h = ground arith

running-live : (s : GraphStatus) → graph_is_running s ≡ true → graph_is_live s ≡ true
running-live s r = ground arith

drained-goes_on :
    (b : Bool) (nodes : List Node)
    → ready_nodes nodes ≡ []
    → is_busy nodes ≡ true
    → goes_on b nodes ≡ true
unfolding is_busy
drained-goes_on b nodes r h =
    let e : is_empty (ready_nodes nodes) ≡ true = ap is_empty r in ground arith

module _ (specs : List NodeSpec) (b : Bool) where
  -- The plan is as declared, a graph that is not settled is live, and it has something to wait for:
  -- a node that runs, or is ready, where that is allowed for, or an approval.
  pub record Thrives (g : Graph) : Type 0 where
    pub plan : plan_of g.nodes ≡ specs
    pub alive : is_none g.settled_at ≡ true → graph_is_live g.status ≡ true
    pub moves :
        (is_none g.settled_at ≡ false)
        ⊎ ((g.status ≡ GraphStatus.waiting_approval) ⊎ (goes_on b g.nodes ≡ true))

  Thrives-Decided :
      (now : ℕ) (g g' : Graph)
      → plan_of g.nodes ≡ specs
      → graph_is_live g.status ≡ true
      → (is_busy g.nodes ≡ true → goes_on b g.nodes ≡ true)
      → g'.nodes ≡ g.nodes
      → Decided g g'
      → Thrives g'
  Thrives-Decided now g g' p live go n (busy y e) =
      subst Thrives (sym e) (record { plan = p; alive = λ u. live; moves = inr (inr (go y)) })
  Thrives-Decided now g g' p live go n (settled s) = record {
    plan = ap plan_of n ∙ p;
    alive = λ u. absurd (ground arith);
    moves = inl s;
  }
  Thrives-Decided now g g' p live go n (parked_at s t) = record {
    plan = ap plan_of n ∙ p;
    alive = λ u. rw s refl;
    moves = inr (inl s);
  }

  pub maybe_settle-Thrives :
      (now : ℕ) (g : Graph)
      → IsAcyclic specs
      → plan_of g.nodes ≡ specs
      → (is_none g.settled_at ≡ true → graph_is_live g.status ≡ true)
      → (is_busy g.nodes ≡ true → goes_on b g.nodes ≡ true)
      → Thrives ((maybe_settle now g).0)
  maybe_settle-Thrives now g acyclic p alive go = elim (Bool-cases (is_none g.settled_at)) [
    | inl u ↦
        Thrives-Decided now g ((maybe_settle now g).0) p (alive u) go (maybe_settle-nodes now g)
          (maybe_settle-Decided now g (subst IsAcyclic (sym p) acyclic) (alive u))
    | inr u ↦ record {
      plan = ap plan_of (maybe_settle-nodes now g) ∙ p;
      alive = λ v. absurd (ground (arith, maybe_settle-stays now g u));
      moves = inl (maybe_settle-stays now g u);
    }
  ]

  pub hook-Thrives :
      (accepted : Bool) (p : Graph × Bool)
      → Thrives p.0
      → Thrives (dispatch_settled_hook accepted p)
  unfolding dispatch_settled_hook
  hook-Thrives accepted (g, false) h = h
  hook-Thrives accepted (g, true) h =
      elim (Bool-cases (is_configured g.on_settled && member g.generation g.settlements)) [
        | inl e ↦ rw e (record { plan = h.plan; alive = h.alive; moves = h.moves })
        | inr e ↦ rw e h
      ]

  -- After the frontier and the settlement check.
  pub settled_frontier-Thrives :
      (now : ℕ) (g : Graph)
      → IsAcyclic specs
      → plan_of g.nodes ≡ specs
      → graph_is_running g.status ≡ true
      → Thrives ((maybe_settle now (dispatch_frontier now g)).0)
  settled_frontier-Thrives now g acyclic p r =
      let k = dispatch_frontier-Kept now g in
      maybe_settle-Thrives now (dispatch_frontier now g) acyclic (k.plan ∙ p)
        (λ u. rw (k.status) (running-live g.status r))
        (drained-goes_on b (dispatch_frontier now g).nodes (dispatch_frontier-drains now g r).0)

  pub progress-Thrives :
      (accepted : Bool) (now : ℕ) (g : Graph)
      → IsAcyclic specs
      → plan_of g.nodes ≡ specs
      → graph_is_running g.status ≡ true
      → Thrives (progress accepted now g)
  unfolding progress
  progress-Thrives accepted now g acyclic p r =
      hook-Thrives accepted (maybe_settle now (dispatch_frontier now g))
        (settled_frontier-Thrives now g acyclic p r)
