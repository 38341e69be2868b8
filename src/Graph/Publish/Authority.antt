-- ===== src/Graph/Publish/Authority.antt =====
-- Publications of any attempts between the calls on a graph: who publishes, and how often.
use django_qraft.Prelude.{
  ℕ, ◌+◌, ◌≤◌, ◌<◌, ◌==◌, String, Bool, true, false, ◌&&◌, Option, some, List, [], ◌∷◌, get_elem?,
  set, is_none, count_if, ◌≡◌, arith, Bool-cases, Option-cases, inl, inr, if◌then◌else◌, Result, ok,
  err, ◌>>=◌, get_elem?-map,
}
use django_qraft.Graph.Rows.{Node, Graph, with_nodes}
use django_qraft.Graph.Dispatch.{dispatch_frontier}
use django_qraft.Graph.Dispatch.Sound.{get_elem?-set}
use django_qraft.Graph.Control.{is_bound}
use django_qraft.Graph.Control.History.{Op, apply}
use django_qraft.Graph.Start.{NodeSpec, new_node, new_graph, start}
use django_qraft.Graph.Publish.{
  Action, PublishError, Completion, run_body, Desk, with_receipt, commit, new_completion, publish,
  publish_outside,
}
use django_qraft.Graph.Publish.Kept.{
  Allows, IsClaimed, write-IsClaimed, dispatch_frontier-IsClaimed, maybe_settle-IsClaimed,
}
use django_qraft.Graph.Publish.Calls.{apply-IsClaimed}

-- A call on the graph, or a publication of an attempt of a task whose node is at the place, with the
-- body of its block; or one of an attempt that has no node.
pub data Event : Type 0 where
  on_graph : Op → Event
  publication : ℕ → ℕ → ℕ → List Action → Event
  outside : List Action → Event

-- What raises is rolled back.
abbrev pub after_block : Desk → Result PublishError Desk → Desk
after_block d (ok d') = d'
after_block d (err e) = d

unfoldable pub step : Event → Desk → Desk
unfolding publish publish_outside
step (on_graph op) d = record d { graph = apply op d.graph }
step (publication i task attempt body) d = after_block d (publish i task attempt body d)
step (outside body) d = after_block d (publish_outside body d)

unfoldable pub at_end : List Event → Desk → Desk
unfolding step
at_end [] d = d
at_end (e ∷ events) d = at_end events (step e d)

abbrev pub is_of : ℕ → ℕ → ℕ × ℕ → Bool
is_of i task q = q.0 == i && q.1 == task

-- How often the task has published at the place.
abbrev pub times : ℕ → ℕ → List (ℕ × ℕ) → ℕ
times i task = count_if (is_of i task)

abbrev Claims : ℕ → ℕ → Desk → Type 0
Claims i task d = IsClaimed i task (times i task d.published) d.graph

times-cons :
    (i task : ℕ) (q : ℕ × ℕ) (qs : List (ℕ × ℕ))
    → times i task (q ∷ qs) ≡ (if is_of i task q then 1 else 0) + times i task qs
times-cons i task q qs = ground arith

with_receipt-Allows :
    (i task p next payload : ℕ) (n : Node)
    → task < next
    → Allows i task p next (with_receipt payload n)
with_receipt-Allows i task p next payload n lt b = (lt, λ r. absurd (cc))

-- The task that the node is bound to publishes.
own-IsClaimed :
    (i task payload p : ℕ) (n : Node) (g : Graph)
    → get_elem? g.nodes i ≡ some n
    → task < g.next_task
    → p ≡ 0
    → IsClaimed i task (1 + p) (with_nodes (set g.nodes i (with_receipt payload n)) g)
own-IsClaimed i task payload p n g at lt z = record {
  once = omega (arith, z);
  old = λ h. lt;
  bound = λ m h.
      let self : (i == i) ≡ true = ground arith in
      let here = get_elem?-set g.nodes i i n (with_receipt payload n) at in
      let same : with_receipt payload n ≡ m = ground (arith, here, self, h) in
      rw (← same) (with_receipt-Allows i task (1 + p) g.next_task payload n lt);
}

-- The node's receipt is written by the task that it is bound to.
receipt-IsClaimed :
    (i task j t payload p : ℕ) (n : Node) (g : Graph)
    → get_elem? g.nodes j ≡ some n
    → is_bound t n ≡ true
    → is_none n.receipt ≡ true
    → IsClaimed i task p g
    → IsClaimed i task
        ((if is_of i task (j, t) then 1 else 0) + p)
        (with_nodes (set g.nodes j (with_receipt payload n)) g)
receipt-IsClaimed i task j t payload p n g at b r c = elim (Bool-cases (is_of i task (j, t))) [
  | inr e ↦
      let zero_left : 0 + p ≡ p = omega arith in
      rw e (
        rw zero_left (
          write-IsClaimed j n (with_receipt payload n) g at
            (λ a h. with_receipt-Allows i task p g.next_task payload n (a h).0 h) c))
  | inl e ↦
      let place : j ≡ i = ground arith in
      let who : t ≡ task = ground arith in
      let at_i : get_elem? g.nodes i ≡ some n = rw (← place) at in
      let (lt, free) = c.bound n at_i (rw (← who) b) in
      rw e (rw place (own-IsClaimed i task payload p n g at_i lt (free r)))
]

commit-Claims :
    (i task j t attempt : ℕ) (n : Node) (o : Completion) (d : Desk)
    → get_elem? d.graph.nodes j ≡ some n
    → is_bound t n ≡ true
    → is_none n.receipt ≡ true
    → Claims i task d
    → Claims i task (after_block d (commit j t attempt n o d))
commit-Claims i task j t attempt n o d at b r c = elim (Option-cases o.payload) [
  | inl e ↦ rw e c
  | inr (payload, e) ↦ rw e (
      rw (times-cons i task (j, t) d.published)
        (receipt-IsClaimed i task j t payload (times i task d.published) n d.graph at b r c))
]

bound-Claims :
    (i task : ℕ) (d : Desk) (r : Result PublishError Completion)
    (k : Completion → Result PublishError Desk)
    → Claims i task d
    → ((o : Completion) → Claims i task (after_block d (k o)))
    → Claims i task (after_block d (r >>= k))
bound-Claims i task d (ok o) k c h = h o
bound-Claims i task d (err e) k c h = c

publish-Claims :
    (i task j t attempt : ℕ) (body : List Action) (d : Desk)
    → Claims i task d
    → Claims i task (after_block d (publish j t attempt body d))
unfolding publish
publish-Claims i task j t attempt body d c = elim (Option-cases (get_elem? d.graph.nodes j)) [
  | inl e ↦ rw (publish, e) c
  | inr (n, e) ↦ elim (Bool-cases (is_bound t n)) [
    | inr b ↦ rw (publish, e, b) c
    | inl b ↦ elim (Bool-cases (is_none n.receipt)) [
      | inr r ↦ rw (publish, e, b, r) c
      | inl r ↦
          rw (publish, e, b, r)
            (bound-Claims i task d (run_body body new_completion) _ c
              (λ o. commit-Claims i task j t attempt n o d e b r c))
    ]
  ]
]

outside-Claims :
    (i task : ℕ) (body : List Action) (d : Desk)
    → Claims i task d
    → Claims i task (after_block d (publish_outside body d))
unfolding publish_outside
outside-Claims i task body d c = bound-Claims i task d (run_body body new_completion) _ c (λ o. c)

step-Claims : (i task : ℕ) (e : Event) (d : Desk) → Claims i task d → Claims i task (step e d)
unfolding step
step-Claims i task (on_graph op) d c = apply-IsClaimed op d.graph c
step-Claims i task (publication j t attempt body) d c = publish-Claims i task j t attempt body d c
step-Claims i task (outside body) d c = outside-Claims i task body d c

at_end-Claims :
    (i task : ℕ) (events : List Event) (d : Desk)
    → Claims i task d
    → Claims i task (at_end events d)
unfolding at_end
at_end-Claims i task [] d c = c
at_end-Claims i task (e ∷ events) d c =
    at_end-Claims i task events (step e d) (step-Claims i task e d c)

new_graph-IsClaimed :
    (i task : ℕ) (on_settled : Option String) (next_task : ℕ) (specs : List NodeSpec)
    → IsClaimed i task 0 (new_graph on_settled next_task specs)
new_graph-IsClaimed i task on_settled next_task specs = record {
  once = omega arith;
  old = λ h. absurd (omega arith);
  bound = λ n at b.
      let (s, was, e) = get_elem?-map new_node specs i n at in absurd (unbound s (rw (← e) at b));
}
  where
    unbound : (s : NodeSpec) → is_bound task (new_node s) ≡ true → ⊥
    unbound s h = cc

abbrev pub desk : Graph → Desk
desk g = record { graph = g; written = []; committed = []; published = [] }

-- In every history of a started graph, of calls on it and of publications by attempts of any tasks
-- with any bodies: a task publishes at most once at a node, whatever is resumed in between, and as
-- long as the node is bound to a task that has published there, it has a receipt.
pub publishes_once :
    (now next_task : ℕ) (on_settled : Option String) (specs : List NodeSpec) (events : List Event)
    (i task : ℕ)
    → (times i task (at_end events (desk (start now on_settled next_task specs))).published ≤ 1)
      × ((n : Node)
          → get_elem? (at_end events (desk (start now on_settled next_task specs))).graph.nodes i
            ≡ some n
          → is_bound task n ≡ true
          → 0 < times i task (at_end events (desk (start now on_settled next_task specs))).published
          → is_none n.receipt ≡ false)
unfolding start
publishes_once now next_task on_settled specs events i task =
    let begin = new_graph on_settled next_task specs in
    let c = at_end-Claims i task events (desk (start now on_settled next_task specs)) (
      maybe_settle-IsClaimed now (dispatch_frontier now begin) (
        dispatch_frontier-IsClaimed now begin
          (new_graph-IsClaimed i task on_settled next_task specs))) in
    (c.once, λ n at b lt. ground (arith, (c.bound n at b).1))
