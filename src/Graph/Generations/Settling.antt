-- ===== src/Graph/Generations/Settling.antt =====
-- qraft/graphs.py: settlement, and what leaves the settlements of a graph as they are.
use django_qraft.Prelude.{
  ℕ, ◌≤◌, ◌<◌, Bool, true, false, ◌&&◌, some, List, [], ◌∷◌, ◌==◌, all, is_none, count_if, ◌≡◌,
  refl, ◌∙◌, arith, Bool-cases, inl, inr, if◌then◌else◌,
}
use django_qraft.Graph.Rows.{
  GraphStatus, Graph, is_waiting, is_failed, is_cancelled, graph_is_running, graph_is_live,
  ready_nodes, is_met,
}
use django_qraft.Graph.Dispatch.{
  dispatch_one, dispatch_loop, dispatch_frontier, record_settlement, settle, maybe_settle,
  dispatch_settled_hook, some_node, is_busy, parked,
}
use django_qraft.Graph.Control.{progress}

-- How many settlements of a generation were announced.
abbrev pub times_settled : ℕ → List (GraphStatus × ℕ) → ℕ
times_settled k = count_if (λ a. a.1 == k)

-- No generation has settled twice, no later one has, and the current one has not while
-- `settled_at` is null.
pub record SettlesOnce (g : Graph) : Type 0 where
  pub once : (k : ℕ) → times_settled k g.announced ≤ 1
  pub later : (k : ℕ) → g.generation < k → times_settled k g.announced ≡ 0
  pub unsettled : is_none g.settled_at ≡ true → times_settled g.generation g.announced ≡ 0

-- Two graphs with the same settlements.
pub record Same (g h : Graph) : Type 0 where
  pub generation : g.generation ≡ h.generation
  pub settled_at : g.settled_at ≡ h.settled_at
  pub announced : g.announced ≡ h.announced

pub SettlesOnce-Same : {g h : Graph} → Same g h → SettlesOnce h → SettlesOnce g
SettlesOnce-Same s h = record {
  once = λ k. rw s.announced (h.once k);
  later = λ k. rw (s.announced, s.generation) (h.later k);
  unsettled = rw (s.announced, s.generation, s.settled_at) h.unsettled;
}

pub Same-trans : {f g h : Graph} → Same f g → Same g h → Same f h
Same-trans s t = record {
  generation = s.generation ∙ t.generation;
  settled_at = s.settled_at ∙ t.settled_at;
  announced = s.announced ∙ t.announced;
}

pub dispatch_one-Same : (now i : ℕ) (g : Graph) → Same (dispatch_one now i g) g
unfolding dispatch_one
dispatch_one-Same now i g = ground arith

pub dispatch_loop-Same : (now : ℕ) (is : List ℕ) (g : Graph) → Same (dispatch_loop now is g) g
unfolding dispatch_loop
dispatch_loop-Same now [] g = record { generation = refl; settled_at = refl; announced = refl }
dispatch_loop-Same now (i ∷ is) g =
    Same-trans (dispatch_loop-Same now is (dispatch_one now i g)) (dispatch_one-Same now i g)

pub dispatch_frontier-Same : (now : ℕ) (g : Graph) → Same (dispatch_frontier now g) g
unfolding dispatch_frontier
dispatch_frontier-Same now g = elim (Bool-cases (graph_is_running g.status)) [
  | inl r ↦ rw r (dispatch_loop-Same now (ready_nodes g.nodes) g)
  | inr r ↦ rw r (record { generation = refl; settled_at = refl; announced = refl })
]

pub record_settlement-Same : (g : Graph) → Same (record_settlement g) g
unfolding record_settlement
record_settlement-Same g = ground arith

pub hook-Same : (accepted : Bool) (p : Graph × Bool) → Same (dispatch_settled_hook accepted p) p.0
unfolding dispatch_settled_hook
hook-Same accepted (g, false) = record { generation = refl; settled_at = refl; announced = refl }
hook-Same accepted (g, true) = ground arith

pub announced-SettlesOnce :
    (now : ℕ) (s : GraphStatus) (g : Graph)
    → is_none g.settled_at ≡ true
    → SettlesOnce g
    → SettlesOnce (record g {
      status = s;
      settled_at = some now;
      announced = (s, g.generation) ∷ g.announced;
    })
announced-SettlesOnce now s g unset h = record {
  once = λ k. ground (arith, h.once k, h.unsettled unset);
  later = λ k lt. ground (arith, h.later k);
  unsettled = λ e. cc;
}

pub settle-SettlesOnce :
    (now : ℕ) (s : GraphStatus) (g : Graph) → SettlesOnce g → SettlesOnce (settle now s g).0
unfolding settle
settle-SettlesOnce now s g h = elim (Bool-cases (is_none g.settled_at && graph_is_live g.status)) [
  | inl e ↦
      rw e (
        SettlesOnce-Same (record_settlement-Same _)
          (announced-SettlesOnce now s g (ground arith) h))
  | inr e ↦ rw e h
]

pub branch :
    (b : Bool) (p q : Graph × Bool)
    → SettlesOnce p.0
    → SettlesOnce q.0
    → SettlesOnce (if b then p else q).0
branch true p q h k = h
branch false p q h k = k

pub parked-Same : (g : Graph) → Same (parked g) g
parked-Same g = ground arith

pub maybe_settle-SettlesOnce :
    (now : ℕ) (g : Graph) → SettlesOnce g → SettlesOnce (maybe_settle now g).0
unfolding maybe_settle
maybe_settle-SettlesOnce now g h =
    branch (is_busy g.nodes) (g, false) _ h
      (branch (some_node is_failed g.nodes) (settle now GraphStatus.failed g) _
        (settle-SettlesOnce now GraphStatus.failed g h)
        (branch (some_node is_cancelled g.nodes) (settle now GraphStatus.cancelled g) _
          (settle-SettlesOnce now GraphStatus.cancelled g h)
          (branch (some_node is_waiting g.nodes) (parked g, false) _
            (SettlesOnce-Same (parked-Same g) h)
            (branch (all (λ n. is_met n.status) g.nodes) (settle now GraphStatus.succeeded g)
              (g, false) (settle-SettlesOnce now GraphStatus.succeeded g h) h))))

pub progress-SettlesOnce :
    (accepted : Bool) (now : ℕ) (g : Graph) → SettlesOnce g → SettlesOnce (progress accepted now g)
unfolding progress
progress-SettlesOnce accepted now g h =
    SettlesOnce-Same (hook-Same accepted _)
      (maybe_settle-SettlesOnce now _ (SettlesOnce-Same (dispatch_frontier-Same now g) h))
