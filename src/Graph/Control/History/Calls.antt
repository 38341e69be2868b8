-- ===== src/Graph/Control/History/Calls.antt =====
-- qraft/graphs.py: `skip`, `reject` and `approve`, and the dependencies.
use mathlib.Core.Path.{subst}
use django_qraft.Prelude.{
  ℕ, String, Bool, true, false, Option, some, List, get_elem?, set, all, ◌≡◌, refl, sym, ◌∙◌, arith,
  Option-cases, inl, inr, Result, ok, >>=-ok,
}
use django_qraft.Graph.Rows.{
  NodeStatus, Node, Graph, GraphError, not_live, not_pending, not_waiting, is_pending, is_waiting,
  graph_is_running, graph_is_live, met, with_nodes, index_of,
}
use django_qraft.Graph.Dispatch.{dispatched, dispatch_node}
use django_qraft.Graph.Dispatch.Sound.{IsSound, set-IsSound, met-set, all-met_mono, get_elem?-set}
use django_qraft.Graph.Control.{find_node, check, skip, unparked, approve, reject}
use django_qraft.Graph.Control.History.Writes.{progress-IsSound, settled_hook-nodes, same_of_ok}

pub check-ok : (b : Bool) (x : GraphError) (u : Unit {0}) → check b x ≡ ok u → b ≡ true
check-ok true x u h = refl
check-ok false x u h = cc

same_pair : {p q : ℕ × Node} → ◌≡◌ {A = Result GraphError (ℕ × Node)} (ok p) (ok q) → p ≡ q
same_pair h = cc

pub find_node-at :
    (key : String) (g : Graph) (p : ℕ × Node)
    → find_node key g ≡ ok p
    → get_elem? g.nodes p.0 ≡ some p.1
unfolding find_node
find_node-at key g p e = elim (Option-cases (index_of key g.nodes)) [
  | inl x ↦ absurd (ground arith)
  | inr (i, x) ↦ elim (Option-cases (get_elem? g.nodes i)) [
    | inl y ↦ absurd (ground arith)
    | inr (n, y) ↦
        subst (λ (q : ℕ × Node). get_elem? g.nodes q.0 ≡ some q.1)
          (same_pair (rw (find_node, x, y) at e)) y
  ]
]

skipped-IsSound :
    (now i : ℕ) (reason : Option String) (nodes : List Node) (n : Node)
    → get_elem? nodes i ≡ some n
    → is_pending n.status ≡ true
    → IsSound nodes
    → IsSound (
        set nodes i
          (record n { status = NodeStatus.skipped; skip_reason = reason; settled_at = some now }))
skipped-IsSound now i reason nodes n at p h =
    set-IsSound nodes i n
      (record n { status = NodeStatus.skipped; skip_reason = reason; settled_at = some now }) at
      (ground arith) (ground arith) (ground arith) (ground arith) h

pub skip-IsSound :
    (accepted : Bool) (now : ℕ) (key : String) (reason : Option String) (g : Graph)
    → IsSound g.nodes
    → (g' : Graph) → skip accepted now key reason g ≡ ok g'
    → IsSound g'.nodes
unfolding skip
skip-IsSound accepted now key reason g h g' e =
    let (u, live, e1) = >>=-ok (check (graph_is_running g.status) (not_live g.status)) _ e in
    let (p, found, e2) = >>=-ok (find_node key g) _ e1 in
    let (w, pend, e3) = >>=-ok (check (is_pending p.1.status) (not_pending p.1.status)) _ e2 in
    subst (λ (k : Graph). IsSound k.nodes) (same_of_ok e3)
      (progress-IsSound accepted now _ (
        skipped-IsSound now p.0 reason g.nodes p.1 (find_node-at key g p found)
          (check-ok (is_pending p.1.status) (not_pending p.1.status) w pend) h))

unparked-nodes : (g : Graph) → (unparked g).nodes ≡ g.nodes
unparked-nodes g = ground arith

rejected-IsSound :
    (now i : ℕ) (reason : Option String) (nodes : List Node) (n : Node)
    → get_elem? nodes i ≡ some n
    → is_waiting n.status ≡ true
    → IsSound nodes
    → IsSound (
        set nodes i
          (record n { status = NodeStatus.cancelled; settled_at = some now; skip_reason = reason }))
rejected-IsSound now i reason nodes n at w h =
    set-IsSound nodes i n
      (record n { status = NodeStatus.cancelled; settled_at = some now; skip_reason = reason }) at
      (ground arith) (λ st. h.deps i n at (ground arith)) (ground arith) (ground arith) h

pub reject-IsSound :
    (accepted : Bool) (now : ℕ) (key : String) (reason : Option String) (g : Graph)
    → IsSound g.nodes
    → (g' : Graph) → reject accepted now key reason g ≡ ok g'
    → IsSound g'.nodes
unfolding reject
reject-IsSound accepted now key reason g h g' e =
    let (u, live, e1) = >>=-ok (check (graph_is_live g.status) (not_live g.status)) _ e in
    let (p, found, e2) = >>=-ok (find_node key g) _ e1 in
    let (w, wait, e3) = >>=-ok (check (is_waiting p.1.status) (not_waiting p.1.status)) _ e2 in
    subst (λ (k : Graph). IsSound k.nodes) (same_of_ok e3)
      (subst IsSound (sym (settled_hook-nodes accepted now _ ∙ unparked-nodes _)) (
        rejected-IsSound now p.0 reason g.nodes p.1 (find_node-at key g p found)
          (check-ok (is_waiting p.1.status) (not_waiting p.1.status) w wait) h))

pending_again-IsSound :
    (i : ℕ) (nodes : List Node) (n : Node)
    → get_elem? nodes i ≡ some n
    → is_waiting n.status ≡ true
    → IsSound nodes
    → IsSound (set nodes i (record n { status = NodeStatus.pending }))
pending_again-IsSound i nodes n at w h =
    set-IsSound nodes i n (record n { status = NodeStatus.pending }) at (ground arith)
      (ground arith) (ground arith) (λ idle. h.idle_unbound i n at (ground arith)) h

-- Dispatching a pending node whose dependencies are met.
dispatched-IsSound :
    (now i : ℕ) (n : Node) (g : Graph)
    → get_elem? g.nodes i ≡ some n
    → is_pending n.status ≡ true
    → all (met g.nodes) n.after ≡ true
    → IsSound g.nodes
    → IsSound (dispatch_node now i g).nodes
unfolding dispatch_node
dispatched-IsSound now i n g at p ready h =
    rw (dispatch_node, at, p)
      (set-IsSound g.nodes i n (dispatched now g.next_task n) at (ground arith) (λ st. ready)
        (ground arith) (ground arith) h)

pub approve-IsSound :
    (now : ℕ) (key : String) (g : Graph)
    → IsSound g.nodes
    → (g' : Graph) → approve now key g ≡ ok g'
    → IsSound g'.nodes
unfolding approve
approve-IsSound now key g h g' e =
    let (u, live, e1) = >>=-ok (check (graph_is_live g.status) (not_live g.status)) _ e in
    let (p, found, e2) = >>=-ok (find_node key g) _ e1 in
    let (i, n) = p in
    let (w, wait, e3) = >>=-ok (check (is_waiting n.status) (not_waiting n.status)) _ e2 in
    let at = find_node-at key g (i, n) found in
    let waits = check-ok (is_waiting n.status) (not_waiting n.status) w wait in
    let nodes = set g.nodes i (record n { status = NodeStatus.pending }) in
    subst (λ (k : Graph). IsSound k.nodes) (same_of_ok e3)
      (subst IsSound (sym (unparked-nodes _)) (
        dispatched-IsSound now i (record n { status = NodeStatus.pending }) (with_nodes nodes g)
          (rw (get_elem?-set g.nodes i i n (record n { status = NodeStatus.pending }) at)
            (ground arith))
          refl
          (all-met_mono g.nodes nodes n.after
            (λ dep.
              met-set g.nodes i n (record n { status = NodeStatus.pending }) dep at (ground arith))
            (h.deps i n at (ground arith)))
          (pending_again-IsSound i g.nodes n at waits h)))
