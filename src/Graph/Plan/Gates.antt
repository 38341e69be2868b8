-- ===== src/Graph/Plan/Gates.antt =====
-- What approvals, rejections and resumes write.
use django_qraft.Prelude.{
  ℕ, zero, suc, String, true, some, List, [], ◌∷◌, map, get_elem?, set, contains, ◌≡◌, refl, arith,
  Bool-cases, inl, inr,
}
use django_qraft.Graph.Rows.{Node, Graph, is_pending, is_running, graph_is_live, graph_is_waiting}
use django_qraft.Graph.Dispatch.{dispatched, dispatch_node, some_node, is_busy}
use django_qraft.Graph.Control.{unparked, reset_if}
use django_qraft.Graph.Plan.Progress.{spec_of, plan_of}

pub some_running :
    (nodes : List Node) (i : ℕ) (u v : Node)
    → get_elem? nodes i ≡ some u
    → is_running v.status ≡ true
    → some_node is_running (set nodes i v) ≡ true
some_running [] i u v at r = cc
some_running (x ∷ nodes) zero u v at r = rw r refl
some_running (x ∷ nodes) (suc i) u v at r = ground (arith, some_running nodes i u v at r)

pub running-busy : (nodes : List Node) → some_node is_running nodes ≡ true → is_busy nodes ≡ true
unfolding is_busy
running-busy nodes r = rw (is_busy, r) refl

pub get_elem?-again :
    (nodes : List Node) (i : ℕ) (u v : Node)
    → get_elem? nodes i ≡ some u
    → get_elem? (set nodes i v) i ≡ some v
get_elem?-again [] i u v at = cc
get_elem?-again (x ∷ nodes) zero u v at = refl
get_elem?-again (x ∷ nodes) (suc i) u v at = get_elem?-again nodes i u v at

pub map-keeps :
    (f : Node → Node) (nodes : List Node)
    → ((n : Node) → spec_of (f n) ≡ spec_of n)
    → plan_of (map f nodes) ≡ plan_of nodes
map-keeps f [] h = refl
map-keeps f (n ∷ nodes) h = cc (h n, map-keeps f nodes h)

pub reset_if-spec : (keys : List String) (n : Node) → spec_of (reset_if keys n) ≡ spec_of n
reset_if-spec keys n = elim (Bool-cases (contains n.key keys)) [
  | inl e ↦ rw e refl
  | inr e ↦ rw e refl
]

pub unparked-live :
    (g : Graph) → graph_is_live g.status ≡ true → graph_is_live (unparked g).status ≡ true
unparked-live g l = elim (Bool-cases (graph_is_waiting g.status)) [
  | inl e ↦ rw e refl
  | inr e ↦ rw e l
]

pub unparked-Kept :
    (g : Graph) → ((unparked g).nodes ≡ g.nodes) × ((unparked g).settled_at ≡ g.settled_at)
unparked-Kept g = elim (Bool-cases (graph_is_waiting g.status)) [
  | inl e ↦ rw e (refl, refl)
  | inr e ↦ rw e (refl, refl)
]

-- What `approve` writes: the node at the gate runs.
pub dispatched_rows :
    (now i : ℕ) (n : Node) (g : Graph)
    → get_elem? g.nodes i ≡ some n
    → is_pending n.status ≡ true
    → (dispatch_node now i g).nodes ≡ set g.nodes i (dispatched now g.next_task n)
unfolding dispatch_node
dispatched_rows now i n g at p = rw (dispatch_node, at, p) refl

pub dispatch_node-status : (now i : ℕ) (g : Graph) → (dispatch_node now i g).status ≡ g.status
unfolding dispatch_node
dispatch_node-status now i g = ground arith
