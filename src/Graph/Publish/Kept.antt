-- ===== src/Graph/Publish/Kept.antt =====
-- What the rows of a graph keep about one place and one task, whatever is dispatched or settled.
use django_qraft.Prelude.{
  ℕ, zero, suc, ◌+◌, ◌≤◌, ◌<◌, Bool, true, false, some, List, [], ◌∷◌, get_elem?, set, map,
  get_elem?-map, contains, is_none, String, ◌⊎◌, ◌≡◌, refl, ap, arith, Bool-cases, Option-cases,
  inl, inr, if◌then◌else◌,
}
use django_qraft.Graph.Rows.{
  GraphStatus, Node, Graph, is_pending, graph_is_running, with_nodes, ready_nodes,
}
use django_qraft.Graph.Dispatch.{
  dispatched, dispatch_node, park_node, dispatch_one, dispatch_loop, dispatch_frontier,
  record_settlement, settle, maybe_settle, dispatch_settled_hook,
}
use django_qraft.Graph.Control.{is_bound, progress, unparked, reset_if, reopen}

module _ (i task p : ℕ) where
  -- What is known of the node at the place, if it is bound to the task.
  abbrev pub Allows : ℕ → Node → Type 0
  Allows next n = is_bound task n ≡ true → (task < next) × (is_none n.receipt ≡ true → p ≡ 0)

  -- The task has published here `p` times, at most once, and not at a node without a receipt.
  pub record IsClaimed (g : Graph) : Type 0 where
    pub once : p ≤ 1
    pub old : 0 < p → task < g.next_task
    pub bound : (n : Node) → get_elem? g.nodes i ≡ some n → Allows g.next_task n

-- Two graphs with the same nodes and tasks.
pub record Steady (g h : Graph) : Type 0 where
  pub nodes : g.nodes ≡ h.nodes
  pub next_task : g.next_task ≡ h.next_task

set-cases :
    (nodes : List Node) (i j : ℕ) (n' m : Node)
    → get_elem? (set nodes j n') i ≡ some m
    → ((i ≡ j) × (m ≡ n')) ⊎ (get_elem? nodes i ≡ some m)
set-cases [] i j n' m h = inr h
set-cases (x ∷ xs) zero zero n' m h = inl (refl, ground arith)
set-cases (x ∷ xs) zero (suc j) n' m h = inr h
set-cases (x ∷ xs) (suc i) zero n' m h = inr h
set-cases (x ∷ xs) (suc i) (suc j) n' m h = elim (set-cases xs i j n' m h) [
  | inl (e, s) ↦ inl (ap (λ (k : ℕ). suc k) e, s)
  | inr e ↦ inr e
]

module _ {i task p : ℕ} where
  pub IsClaimed-Steady : {g h : Graph} → Steady g h → IsClaimed i task p h → IsClaimed i task p g
  IsClaimed-Steady s c = record {
    once = c.once;
    old = λ lt. rw s.next_task (c.old lt);
    bound = λ n at. rw s.next_task (c.bound n (rw s.nodes at at));
  }

  -- A node is written.
  pub write-IsClaimed :
      (j : ℕ) (n n' : Node) (g : Graph)
      → get_elem? g.nodes j ≡ some n
      → (Allows i task p g.next_task n → Allows i task p g.next_task n')
      → IsClaimed i task p g
      → IsClaimed i task p (with_nodes (set g.nodes j n') g)
  write-IsClaimed j n n' g at keep c = record {
    once = c.once;
    old = c.old;
    bound = λ m h. elim (set-cases g.nodes i j n' m h) [
      | inr e ↦ c.bound m e
      | inl (e, s) ↦ rw s (keep (c.bound n (rw e at)))
    ];
  }

  later-IsClaimed :
      (g : Graph)
      → IsClaimed i task p g
      → IsClaimed i task p (record g { next_task = g.next_task + 1 })
  later-IsClaimed g c = record {
    once = c.once;
    old = λ lt. omega (arith, c.old lt);
    bound = λ n at b. let (lt, free) = c.bound n at b in (omega arith, free);
  }

  dispatched-IsClaimed :
      (now j : ℕ) (n : Node) (g : Graph)
      → IsClaimed i task p g
      → IsClaimed i task p (record g {
        next_task = g.next_task + 1;
        nodes = set g.nodes j (dispatched now g.next_task n);
      })
  dispatched-IsClaimed now j n g c = record {
    once = c.once;
    old = λ lt. omega (arith, c.old lt);
    bound = λ m h. elim (set-cases g.nodes i j (dispatched now g.next_task n) m h) [
      | inr e ↦ λ b. let (lt, free) = c.bound m e b in (omega arith, free)
      | inl (e, s) ↦ rw s (λ b.
          let same : g.next_task ≡ task = ground arith in
          (omega arith, λ r. none_yet p task g.next_task same c.old))
    ];
  }
    where
      none_yet : (q t next : ℕ) → next ≡ t → (0 < q → t < next) → q ≡ 0
      none_yet zero t next e h = refl
      none_yet (suc q) t next e h = absurd (omega (arith, h (omega arith)))

  pub dispatch_node-IsClaimed :
      (now j : ℕ) (g : Graph) → IsClaimed i task p g → IsClaimed i task p (dispatch_node now j g)
  unfolding dispatch_node
  dispatch_node-IsClaimed now j g c = elim (Option-cases (get_elem? g.nodes j)) [
    | inl e ↦ rw (dispatch_node, e) c
    | inr (n, e) ↦ elim (Bool-cases (is_pending n.status)) [
      | inl b ↦ rw (dispatch_node, e, b) (dispatched-IsClaimed now j n g c)
      | inr b ↦ rw (dispatch_node, e, b) (later-IsClaimed g c)
    ]
  ]

  park_node-IsClaimed :
      (j : ℕ) (n : Node) (g : Graph)
      → get_elem? g.nodes j ≡ some n
      → IsClaimed i task p g
      → IsClaimed i task p (park_node j n g)
  unfolding park_node
  park_node-IsClaimed j n g at c = elim (Bool-cases (is_pending n.status)) [
    | inl b ↦ rw (park_node, b) (write-IsClaimed j n _ g at (λ h. h) c)
    | inr b ↦ rw (park_node, b) c
  ]

  gated-IsClaimed :
      (b : Bool) (now j : ℕ) (n : Node) (g : Graph)
      → get_elem? g.nodes j ≡ some n
      → IsClaimed i task p g
      → IsClaimed i task p (if b then park_node j n g else dispatch_node now j g)
  gated-IsClaimed true now j n g at c = park_node-IsClaimed j n g at c
  gated-IsClaimed false now j n g at c = dispatch_node-IsClaimed now j g c

  dispatch_one-IsClaimed :
      (now j : ℕ) (g : Graph) → IsClaimed i task p g → IsClaimed i task p (dispatch_one now j g)
  unfolding dispatch_one
  dispatch_one-IsClaimed now j g c = elim (Option-cases (get_elem? g.nodes j)) [
    | inl e ↦ rw (dispatch_one, e) c
    | inr (n, e) ↦ rw (dispatch_one, e) (gated-IsClaimed n.requires_approval now j n g e c)
  ]

  dispatch_loop-IsClaimed :
      (now : ℕ) (js : List ℕ) (g : Graph)
      → IsClaimed i task p g
      → IsClaimed i task p (dispatch_loop now js g)
  unfolding dispatch_loop
  dispatch_loop-IsClaimed now [] g c = c
  dispatch_loop-IsClaimed now (j ∷ js) g c =
      dispatch_loop-IsClaimed now js (dispatch_one now j g) (dispatch_one-IsClaimed now j g c)

  pub dispatch_frontier-IsClaimed :
      (now : ℕ) (g : Graph) → IsClaimed i task p g → IsClaimed i task p (dispatch_frontier now g)
  unfolding dispatch_frontier
  dispatch_frontier-IsClaimed now g c = elim (Bool-cases (graph_is_running g.status)) [
    | inl r ↦ rw r (dispatch_loop-IsClaimed now (ready_nodes g.nodes) g c)
    | inr r ↦ rw r c
  ]

-- A node that is run again is bound to no task.
reset-Allows :
    (i task p next : ℕ) (keys : List String) (n : Node)
    → Allows i task p next n
    → Allows i task p next (reset_if keys n)
reset-Allows i task p next keys n a = elim (Bool-cases (contains n.key keys)) [
  | inl e ↦ rw e (λ b. absurd (cc))
  | inr e ↦ rw e a
]

record_settlement-Steady : (g : Graph) → Steady (record_settlement g) g
unfolding record_settlement
record_settlement-Steady g = ground arith

pub settle-Steady : (now : ℕ) (s : GraphStatus) (g : Graph) → Steady (settle now s g).0 g
unfolding settle record_settlement
settle-Steady now s g = ground arith

maybe_settle-Steady : (now : ℕ) (g : Graph) → Steady (maybe_settle now g).0 g
unfolding maybe_settle
maybe_settle-Steady now g = ground (
  arith,
  settle-Steady now GraphStatus.failed g,
  settle-Steady now GraphStatus.cancelled g,
  settle-Steady now GraphStatus.succeeded g,
)

pub hook-Steady :
    (accepted : Bool) (q : Graph × Bool) → Steady (dispatch_settled_hook accepted q) q.0
unfolding dispatch_settled_hook
hook-Steady accepted (g, false) = record { nodes = refl; next_task = refl }
hook-Steady accepted (g, true) = ground arith

pub unparked-Steady : (g : Graph) → Steady (unparked g) g
unparked-Steady g = ground arith

module _ {i task p : ℕ} where
  pub maybe_settle-IsClaimed :
      (now : ℕ) (g : Graph) → IsClaimed i task p g → IsClaimed i task p (maybe_settle now g).0
  maybe_settle-IsClaimed now g c = IsClaimed-Steady (maybe_settle-Steady now g) c

  pub settled-IsClaimed :
      (accepted : Bool) (now : ℕ) (g : Graph)
      → IsClaimed i task p g
      → IsClaimed i task p (dispatch_settled_hook accepted (maybe_settle now g))
  settled-IsClaimed accepted now g c =
      IsClaimed-Steady (hook-Steady accepted (maybe_settle now g)) (maybe_settle-IsClaimed now g c)

  pub progress-IsClaimed :
      (accepted : Bool) (now : ℕ) (g : Graph)
      → IsClaimed i task p g
      → IsClaimed i task p (progress accepted now g)
  unfolding progress
  progress-IsClaimed accepted now g c =
      settled-IsClaimed accepted now (dispatch_frontier now g) (dispatch_frontier-IsClaimed now g c)

  map-IsClaimed :
      (keys : List String) (g : Graph)
      → IsClaimed i task p g
      → IsClaimed i task p (with_nodes (map (reset_if keys) g.nodes) g)
  map-IsClaimed keys g c = record {
    once = c.once;
    old = c.old;
    bound = λ n at.
        let (m, was, e) = get_elem?-map (reset_if keys) g.nodes i n at in
        rw (← e) (reset-Allows i task p g.next_task keys m (c.bound m was));
  }

  pub reopen-IsClaimed :
      (now : ℕ) (rerun : List String) (g : Graph)
      → IsClaimed i task p g
      → IsClaimed i task p (reopen now rerun g)
  unfolding reopen
  reopen-IsClaimed now rerun g c =
      IsClaimed-Steady (record { nodes = refl; next_task = refl })
        (map-IsClaimed rerun (record_settlement g)
          (IsClaimed-Steady (record_settlement-Steady g) c))
