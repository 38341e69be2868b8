-- ===== src/Graph/Dispatch/Loop.antt =====
-- Dispatching the frontier respects the dependencies.
use mathlib.Core.Path.{subst}
use django_qraft.Prelude.{
  ℕ, zero, suc, ◌+◌, String, true, none, some, List, [], ◌∷◌, get_elem?, set, all, All, ◌≡◌, refl,
  sym, ap, ◌∙◌, arith, inl, inr, Bool-cases, Option-cases, if◌then◌else◌,
}
use django_qraft.Graph.Rows.{
  NodeStatus, Node, Graph, is_pending, met, is_ready, ready_from, ready_nodes, graph_is_running,
}
use django_qraft.Graph.Dispatch.{dispatched, dispatch_one, dispatch_loop, dispatch_frontier}
use django_qraft.Graph.Dispatch.Sound.{
  IsSound, SamePlan, set-IsSound, met-set, all-met_mono, row_of_set,
}

same_of_some : {m n : Node} → some m ≡ some n → m ≡ n
same_of_some h = cc

-- All that the node at this place depends on is met.
abbrev pub DepsMet : List Node → ℕ → Type 0
DepsMet nodes i = (n : Node) → get_elem? nodes i ≡ some n → all (met nodes) n.after ≡ true

-- How a node is written when it leaves the frontier: dispatched, or parked at its gate.
abbrev pub started_as : ℕ → ℕ → Node → Node
started_as now task n =
    if n.requires_approval
    then record n { status = NodeStatus.waiting_approval }
    else dispatched now task n

pub dispatch_one-none :
    (now i : ℕ) (g : Graph) → get_elem? g.nodes i ≡ none → (dispatch_one now i g).nodes ≡ g.nodes
unfolding dispatch_one
dispatch_one-none now i g h = rw (h, dispatch_one) refl

pub dispatch_one-some :
    (now i : ℕ) (g : Graph) (n : Node)
    → get_elem? g.nodes i ≡ some n
    → (dispatch_one now i g).nodes
      ≡ (if is_pending n.status then set g.nodes i (started_as now g.next_task n) else g.nodes)
unfolding dispatch_one
dispatch_one-some now i g n h = ground arith

started_as-SamePlan :
    (now task : ℕ) (n : Node) → is_pending n.status ≡ true → SamePlan n (started_as now task n)
started_as-SamePlan now task n p = ground arith

started-IsSound :
    (now task i : ℕ) (nodes : List Node) (n : Node)
    → get_elem? nodes i ≡ some n
    → is_pending n.status ≡ true
    → all (met nodes) n.after ≡ true
    → IsSound nodes
    → IsSound (set nodes i (started_as now task n))
started-IsSound now task i nodes n at p ready h =
    set-IsSound nodes i n (started_as now task n) at (started_as-SamePlan now task n p) (λ _. ready)
      (ground arith) (ground (arith, h.idle_unbound i n at)) h

pub dispatch_one-IsSound :
    (now i : ℕ) (g : Graph)
    → DepsMet g.nodes i
    → IsSound g.nodes
    → IsSound (dispatch_one now i g).nodes
dispatch_one-IsSound now i g ready h = elim (Option-cases (get_elem? g.nodes i)) [
  | inl e ↦ subst IsSound (sym (dispatch_one-none now i g e)) h
  | inr (n, e) ↦
      subst IsSound (sym (dispatch_one-some now i g n e)) (elim (Bool-cases (is_pending n.status)) [
        | inl p ↦ rw p (started-IsSound now g.next_task i g.nodes n e p (ready n e) h)
        | inr p ↦ rw p h
      ])
]

DepsMet-set :
    (nodes : List Node) (i j : ℕ) (u v : Node)
    → get_elem? nodes i ≡ some u
    → SamePlan u v
    → DepsMet nodes j
    → DepsMet (set nodes i v) j
DepsMet-set nodes i j u v at s ready n h =
    all-met_mono nodes (set nodes i v) n.after (λ dep. met-set nodes i u v dep at s)
      (elim (row_of_set nodes i j u v n at h) [
        | inl (e, q) ↦
            subst (λ (ds : List String). all (met nodes) ds ≡ true)
              (sym s.after ∙ ap (λ (m : Node). m.after) q)
              (ready u (subst (λ (k : ℕ). get_elem? nodes k ≡ some u) e at))
        | inr old ↦ ready n old
      ])

dispatch_one-DepsMet :
    (now i j : ℕ) (g : Graph) → DepsMet g.nodes j → DepsMet (dispatch_one now i g).nodes j
dispatch_one-DepsMet now i j g ready = elim (Option-cases (get_elem? g.nodes i)) [
  | inl e ↦ subst (λ (ns : List Node). DepsMet ns j) (sym (dispatch_one-none now i g e)) ready
  | inr (n, e) ↦
      subst (λ (ns : List Node). DepsMet ns j) (sym (dispatch_one-some now i g n e))
        (elim (Bool-cases (is_pending n.status)) [
          | inl p ↦ rw p (
              DepsMet-set g.nodes i j n (started_as now g.next_task n) e
                (started_as-SamePlan now g.next_task n p) ready)
          | inr p ↦ rw p ready
        ])
]

All-DepsMet :
    (now i : ℕ) (is : List ℕ) (g : Graph)
    → All (DepsMet g.nodes) is
    → All (DepsMet (dispatch_one now i g).nodes) is
All-DepsMet now i [] g h = tt
All-DepsMet now i (j ∷ is) g h = (dispatch_one-DepsMet now i j g h.0, All-DepsMet now i is g h.1)

dispatch_loop-IsSound :
    (now : ℕ) (is : List ℕ) (g : Graph)
    → All (DepsMet g.nodes) is
    → IsSound g.nodes
    → IsSound (dispatch_loop now is g).nodes
unfolding dispatch_loop
dispatch_loop-IsSound now [] g ready h = h
dispatch_loop-IsSound now (i ∷ is) g ready h =
    dispatch_loop-IsSound now is (dispatch_one now i g) (All-DepsMet now i is g ready.1)
      (dispatch_one-IsSound now i g ready.0 h)

DepsMet-ready :
    (nodes : List Node) (i : ℕ) (n : Node)
    → get_elem? nodes i ≡ some n
    → is_ready nodes n ≡ true
    → DepsMet nodes i
unfolding is_ready
DepsMet-ready nodes i n at r m h =
    subst (λ (k : Node). all (met nodes) k.after ≡ true) (same_of_some (sym at ∙ h)) (ground arith)

ready_from-DepsMet :
    (nodes : List Node) (i : ℕ) (ns : List Node)
    → ((k : ℕ) → get_elem? nodes (i + k) ≡ get_elem? ns k)
    → All (DepsMet nodes) (ready_from nodes i ns)
unfolding ready_from
ready_from-DepsMet nodes i [] at = tt
ready_from-DepsMet nodes i (n ∷ ns) at =
    let rest =
      ready_from-DepsMet nodes (suc i) ns (λ k. ap (get_elem? nodes) (omega arith) ∙ at (suc k)) in
    elim (Bool-cases (is_ready nodes n)) [
      | inl r ↦
          rw r (DepsMet-ready nodes i n (ap (get_elem? nodes) (omega arith) ∙ at zero) r, rest)
      | inr r ↦ rw r rest
    ]

ready_nodes-DepsMet : (nodes : List Node) → All (DepsMet nodes) (ready_nodes nodes)
unfolding ready_nodes
ready_nodes-DepsMet nodes =
    ready_from-DepsMet nodes zero nodes (λ k. ap (get_elem? nodes) (omega arith))

-- A pass over the frontier starts only nodes whose dependencies have all succeeded or been skipped.
pub dispatch_frontier-IsSound :
    (now : ℕ) (g : Graph) → IsSound g.nodes → IsSound (dispatch_frontier now g).nodes
unfolding dispatch_frontier
dispatch_frontier-IsSound now g h = elim (Bool-cases (graph_is_running g.status)) [
  | inl r ↦ rw r (dispatch_loop-IsSound now (ready_nodes g.nodes) g (ready_nodes-DepsMet g.nodes) h)
  | inr r ↦ rw r h
]
