-- ===== src/Graph/Plan/Progress.antt =====
-- On a plan without a cycle, a graph that is not busy can be settled or waits at a gate.
use mathlib.Core.Path.{subst}
use text.Mathlib.TextPositions.{eq_refl}
use django_qraft.Prelude.{
  ℕ, zero, suc, ◌<◌, String, Bool, true, false, not, ◌&&◌, ◌||◌, some, List, [], ◌∷◌, map,
  get_elem?, any, all, is_none, contains, str_eq, eq_iff, ◌≡◌, refl, sym, arith, Bool-cases, inl,
  inr,
}
use django_qraft.Graph.Rows.{
  GraphStatus, Node, Graph, is_pending, is_running, is_failed, is_cancelled, is_waiting, is_met,
  graph_is_running, graph_is_live, met, is_ready, ready_from, ready_nodes,
}
use django_qraft.Graph.Dispatch.{
  some_node, is_empty, is_busy, settle, record_settlement, maybe_settle, parked,
}
use django_qraft.Graph.Start.{NodeSpec, spec_keys}
use django_qraft.Graph.Plan.Checked.{IsAcyclic, all_of_members, all-contains}

-- The declaration that a row was made of.
abbrev pub spec_of : Node → NodeSpec
spec_of n = record { key = n.key; after = n.after; requires_approval = n.requires_approval }

abbrev pub plan_of : List Node → List NodeSpec
plan_of nodes = map spec_of nodes

same_of_some : {m m' : Node} → some m ≡ some m' → m ≡ m'
same_of_some h = cc

any-at :
    (p : Node → Bool) (nodes : List Node) (i : ℕ) (n : Node)
    → get_elem? nodes i ≡ some n
    → any p nodes ≡ false
    → p n ≡ false
any-at p [] i n at h = cc
any-at p (x ∷ nodes) zero n at h =
    subst (λ (m : Node). p m ≡ false) (same_of_some at) (ground arith)
any-at p (x ∷ nodes) (suc i) n at h = any-at p nodes i n at (ground arith)

all-at :
    (p : Node → Bool) (nodes : List Node)
    → ((i : ℕ) (n : Node) → get_elem? nodes i ≡ some n → p n ≡ true)
    → all p nodes ≡ true
all-at p [] h = refl
all-at p (x ∷ nodes) h = rw (h zero x refl) (all-at p nodes (λ i n at. h (suc i) n at))

-- A frontier that is empty has no ready node.
ready_from-none :
    (nodes : List Node) (k : ℕ) (ns : List Node) (i : ℕ) (n : Node)
    → is_empty (ready_from nodes k ns) ≡ true
    → get_elem? ns i ≡ some n
    → is_ready nodes n ≡ false
unfolding ready_from
ready_from-none nodes k [] i n e at = cc
ready_from-none nodes k (x ∷ ns) zero n e at = elim (Bool-cases (is_ready nodes x)) [
  | inl r ↦ absurd (ground arith)
  | inr r ↦ subst (λ (m : Node). is_ready nodes m ≡ false) (same_of_some at) r
]
ready_from-none nodes k (x ∷ ns) (suc i) n e at = elim (Bool-cases (is_ready nodes x)) [
  | inl r ↦ absurd (ground arith)
  | inr r ↦ ready_from-none nodes (suc k) ns i n (rw r at e) at
]

-- Where no pending node is on the frontier, none is ready.
blocked-unready :
    (nodes : List Node)
    → (some_node is_pending nodes && not (is_empty (ready_nodes nodes))) ≡ false
    → (i : ℕ) (n : Node) → get_elem? nodes i ≡ some n
    → is_ready nodes n ≡ false
unfolding ready_nodes is_ready
blocked-unready nodes h i n at = elim (Bool-cases (some_node is_pending nodes)) [
  | inl p ↦ ready_from-none nodes zero nodes i n (ground arith) at
  | inr p ↦ ground (arith, any-at (λ m. is_pending m.status) nodes i n at p)
]

met-at :
    (nodes : List Node) (i : ℕ) (n : Node)
    → get_elem? nodes i ≡ some n
    → is_met n.status ≡ true
    → met nodes n.key ≡ true
met-at [] i n at m = cc
met-at (x ∷ nodes) zero n at m =
    subst (λ (y : Node). (str_eq y.key n.key && is_met y.status || met nodes n.key) ≡ true)
      (sym (same_of_some at)) (rw (eq_refl n.key, m) refl)
met-at (x ∷ nodes) (suc i) n at m = ground (arith, met-at nodes i n at m)

-- A declared key has its row.
key-at :
    (nodes : List Node) (d : String)
    → contains d (spec_keys (plan_of nodes)) ≡ true
    → (i : ℕ) × (n : Node) × (get_elem? nodes i ≡ some n) × (n.key ≡ d)
key-at [] d c = cc
key-at (x ∷ nodes) d c = elim (Bool-cases (str_eq d x.key)) [
  | inl e ↦ (zero, x, refl, sym ((eq_iff d x.key).0 e))
  | inr e ↦ let (i, n, at, q) = key-at nodes d (rw e at c) in (suc i, n, at, q)
]

plan_of-at :
    (nodes : List Node) (i : ℕ) (n : Node)
    → get_elem? nodes i ≡ some n
    → get_elem? (plan_of nodes) i ≡ some (spec_of n)
plan_of-at [] i n at = cc
plan_of-at (x ∷ nodes) zero n at = cc
plan_of-at (x ∷ nodes) (suc i) n at = plan_of-at nodes i n at

-- No row that could hold up or fail the graph, and none that is ready.
record IsQuiet (nodes : List Node) : Type 0 where
  pub running : some_node is_running nodes ≡ false
  pub failed : some_node is_failed nodes ≡ false
  pub cancelled : some_node is_cancelled nodes ≡ false
  pub waiting : some_node is_waiting nodes ≡ false
  pub ready : (i : ℕ) (n : Node) → get_elem? nodes i ≡ some n → is_ready nodes n ≡ false

-- In rank after rank all the nodes of a quiet graph are met.
quiet-met :
    (nodes : List Node) (h : IsAcyclic (plan_of nodes))
    → IsQuiet nodes
    → (b i : ℕ) (n : Node) → get_elem? nodes i ≡ some n
    → h.rank n.key < b
    → is_met n.status ≡ true
unfolding is_ready
quiet-met nodes h q zero i n at lt = absurd (omega (arith, lt))
quiet-met nodes h q (suc b) i n at lt = elim (Bool-cases (is_pending n.status)) [
  | inl p ↦
      let ready : all (met nodes) n.after ≡ true = all_of_members (met nodes) n.after (λ d c.
        let (j, m, at_m, e) = key-at nodes d (
          all-contains (spec_keys (plan_of nodes)) n.after d
            (h.known i (spec_of n) (plan_of-at nodes i n at)) c) in
        let lower = h.lower i (spec_of n) d (plan_of-at nodes i n at) c in
        subst (λ (k : String). met nodes k ≡ true) e
          (met-at nodes j m at_m (
            quiet-met nodes h q b j m at_m
              (subst (λ (k : String). h.rank k < b) (sym e) (omega (arith, lower, lt)))))) in
      absurd (ground (arith, q.ready i n at))
  | inr p ↦ ground (
    arith,
    any-at (λ m. is_running m.status) nodes i n at q.running,
    any-at (λ m. is_failed m.status) nodes i n at q.failed,
    any-at (λ m. is_cancelled m.status) nodes i n at q.cancelled,
    any-at (λ m. is_waiting m.status) nodes i n at q.waiting,
  )
]

-- A graph that is not busy, with nothing failed, cancelled or waiting, is done.
quiet-done :
    (nodes : List Node)
    → IsAcyclic (plan_of nodes)
    → is_busy nodes ≡ false
    → some_node is_failed nodes ≡ false
    → some_node is_cancelled nodes ≡ false
    → some_node is_waiting nodes ≡ false
    → all (λ n. is_met n.status) nodes ≡ true
unfolding is_busy ready_nodes
quiet-done nodes h idle f c w =
    let r : some_node is_running nodes ≡ false = ground arith in
    let blocked : (some_node is_pending nodes && not (is_empty (ready_nodes nodes))) ≡ false =
      rw r at idle in
    all-at (λ n. is_met n.status) nodes
      (λ i n at.
        quiet-met nodes h
          (record {
            running = r;
            failed = f;
            cancelled = c;
            waiting = w;
            ready = blocked-unready nodes blocked;
          })
          (suc (h.rank n.key)) i n at (omega arith))

-- How the settlement check of a live graph can end.
pub data Decided (g g' : Graph) : Type 0 where
  busy : is_busy g.nodes ≡ true → g' ≡ g → Decided g g'
  settled : is_none g'.settled_at ≡ false → Decided g g'
  parked_at : g'.status ≡ GraphStatus.waiting_approval → g'.settled_at ≡ g.settled_at → Decided g g'

settle-settled :
    (now : ℕ) (s : GraphStatus) (g : Graph)
    → graph_is_live g.status ≡ true
    → is_none ((settle now s g).0.settled_at) ≡ false
unfolding settle record_settlement
settle-settled now s g live = ground arith

pub maybe_settle-Decided :
    (now : ℕ) (g : Graph)
    → IsAcyclic (plan_of g.nodes)
    → graph_is_live g.status ≡ true
    → Decided g ((maybe_settle now g).0)
unfolding maybe_settle
maybe_settle-Decided now g h live = elim (Bool-cases (is_busy g.nodes)) [
  | inl b ↦ rw (maybe_settle, b) (busy b refl)
  | inr b ↦ elim (Bool-cases (some_node is_failed g.nodes)) [
    | inl f ↦ rw (maybe_settle, b, f) (settled (settle-settled now GraphStatus.failed g live))
    | inr f ↦ elim (Bool-cases (some_node is_cancelled g.nodes)) [
      | inl c ↦
          rw (maybe_settle, b, f, c) (settled (settle-settled now GraphStatus.cancelled g live))
      | inr c ↦ elim (Bool-cases (some_node is_waiting g.nodes)) [
        | inl w ↦ rw (maybe_settle, b, f, c, w) (parked-Decided g live)
        | inr w ↦
            rw (maybe_settle, b, f, c, w, quiet-done g.nodes h b f c w)
              (settled (settle-settled now GraphStatus.succeeded g live))
      ]
    ]
  ]
]
  where
    parked-Decided : (g : Graph) → graph_is_live g.status ≡ true → Decided g (parked g)
    parked-Decided g live = elim (Bool-cases (graph_is_running g.status)) [
      | inl r ↦ rw r (parked_at refl refl)
      | inr r ↦ rw r (parked_at (ground arith) refl)
    ]
