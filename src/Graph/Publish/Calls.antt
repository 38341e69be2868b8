-- ===== src/Graph/Publish/Calls.antt =====
-- The calls on a graph, and what they keep about one place and one task.
use mathlib.Core.Path.{subst}
use django_qraft.Prelude.{
  ℕ, String, Bool, not, ◌&&◌, Option, none, some, List, get_elem?, is_none, ◌≡◌, refl, arith,
  Bool-cases, Option-cases, inl, inr, Result, ok, err, >>=-ok,
}
use django_qraft.Task.{TaskStatus}
use django_qraft.Graph.Rows.{
  GraphStatus, NodeStatus, Graph, GraphError, is_pending, is_waiting, graph_is_running,
  graph_is_live, not_live, not_pending, not_waiting, still_running, was_cancelled, name_the_nodes,
  nothing_to_rerun,
}
use django_qraft.Graph.Dispatch.{settle}
use django_qraft.Graph.Closure.{rerun_closure}
use django_qraft.Graph.Control.{
  task_outcome, is_bound, record_outcome, handle_node_completion, find_node, check, skip, cancel,
  approve, reject, no_nodes_named, has_keys, is_cancelled_graph, is_succeeded_graph, resume,
}
use django_qraft.Graph.Control.History.{
  Op, complete, skip_node, cancel_graph, approve_node, reject_node, resume_graph, after_call, apply,
}
use django_qraft.Graph.Control.History.Calls.{find_node-at}
use django_qraft.Graph.Control.History.Writes.{same_of_ok}
use django_qraft.Graph.Publish.Kept.{
  IsClaimed, IsClaimed-Steady, write-IsClaimed, dispatch_node-IsClaimed,
  dispatch_frontier-IsClaimed, settle-Steady, hook-Steady, unparked-Steady, maybe_settle-IsClaimed,
  settled-IsClaimed, progress-IsClaimed, reopen-IsClaimed,
}

same_graph : {g g' : Graph} → some g ≡ some g' → g ≡ g'
same_graph h = cc

no_graph : {g : Graph} → ◌≡◌ {A = Option Graph} none (some g) → ⊥
no_graph h = cc

module _ {i task p : ℕ} where
  record_outcome-IsClaimed :
      (now j t : ℕ) (outcome : NodeStatus) (g g' : Graph)
      → record_outcome now j t outcome g ≡ some g'
      → IsClaimed i task p g
      → IsClaimed i task p g'
  unfolding record_outcome
  record_outcome-IsClaimed now j t outcome g g' e c = elim (Option-cases (get_elem? g.nodes j)) [
    | inl x ↦ absurd (no_graph (rw (record_outcome, x) at e))
    | inr (n, at) ↦ elim (Bool-cases (is_bound t n && is_none n.settled_at)) [
      | inr b ↦ absurd (no_graph (rw (record_outcome, at, b) at e))
      | inl b ↦
          subst (IsClaimed i task p) (same_graph (rw (record_outcome, at, b) at e))
            (write-IsClaimed j n _ g at (λ h. h) c)
    ]
  ]

  completion-IsClaimed :
      (accepted : Bool) (now j t : ℕ) (status : TaskStatus) (g : Graph)
      → IsClaimed i task p g
      → IsClaimed i task p (handle_node_completion accepted now j t status g)
  unfolding handle_node_completion
  completion-IsClaimed accepted now j t status g c = elim (Option-cases (task_outcome status)) [
    | inl e ↦ rw (handle_node_completion, e) c
    | inr (outcome, o) ↦ elim (Option-cases (record_outcome now j t outcome g)) [
      | inl e ↦ rw (handle_node_completion, o, e) c
      | inr (g', e) ↦
          let c' = record_outcome-IsClaimed now j t outcome g g' e c in
          elim (Bool-cases (graph_is_running g'.status)) [
            | inl r ↦ rw (handle_node_completion, o, e, r) (progress-IsClaimed accepted now g' c')
            | inr r ↦ rw (handle_node_completion, o, e, r) c'
          ]
    ]
  ]

  skip-IsClaimed :
      (accepted : Bool) (now : ℕ) (key : String) (reason : Option String) (g : Graph)
      → IsClaimed i task p g
      → (g' : Graph) → skip accepted now key reason g ≡ ok g'
      → IsClaimed i task p g'
  unfolding skip
  skip-IsClaimed accepted now key reason g c g' e =
      let (u, live, e1) = >>=-ok (check (graph_is_running g.status) (not_live g.status)) _ e in
      let (q, found, e2) = >>=-ok (find_node key g) _ e1 in
      let (w, pend, e3) = >>=-ok (check (is_pending q.1.status) (not_pending q.1.status)) _ e2 in
      subst (IsClaimed i task p) (same_of_ok e3) (
        progress-IsClaimed accepted now _
          (write-IsClaimed q.0 q.1 _ g (find_node-at key g q found) (λ h. h) c))

  cancel-IsClaimed :
      (accepted : Bool) (now : ℕ) (g : Graph)
      → IsClaimed i task p g
      → (g' : Graph) → cancel accepted now g ≡ ok g'
      → IsClaimed i task p g'
  unfolding cancel settle
  cancel-IsClaimed accepted now g c g' e =
      elim (Bool-cases (settle now GraphStatus.cancelled g).1) [
        | inl m ↦ subst (IsClaimed i task p) (same_of_ok (rw (cancel, m) at e)) (
            IsClaimed-Steady (hook-Steady accepted (settle now GraphStatus.cancelled g))
              (IsClaimed-Steady (settle-Steady now GraphStatus.cancelled g) c))
        | inr m ↦ absurd (ground (arith, rw (cancel, m) at e))
      ]

  approve-IsClaimed :
      (now : ℕ) (key : String) (g : Graph)
      → IsClaimed i task p g
      → (g' : Graph) → approve now key g ≡ ok g'
      → IsClaimed i task p g'
  unfolding approve
  approve-IsClaimed now key g c g' e =
      let (u, live, e1) = >>=-ok (check (graph_is_live g.status) (not_live g.status)) _ e in
      let (q, found, e2) = >>=-ok (find_node key g) _ e1 in
      let (w, wait, e3) = >>=-ok (check (is_waiting q.1.status) (not_waiting q.1.status)) _ e2 in
      subst (IsClaimed i task p) (same_of_ok e3) (
        IsClaimed-Steady (unparked-Steady _) (
          dispatch_node-IsClaimed now q.0 _
            (write-IsClaimed q.0 q.1 _ g (find_node-at key g q found) (λ h. h) c)))

  reject-IsClaimed :
      (accepted : Bool) (now : ℕ) (key : String) (reason : Option String) (g : Graph)
      → IsClaimed i task p g
      → (g' : Graph) → reject accepted now key reason g ≡ ok g'
      → IsClaimed i task p g'
  unfolding reject
  reject-IsClaimed accepted now key reason g c g' e =
      let (u, live, e1) = >>=-ok (check (graph_is_live g.status) (not_live g.status)) _ e in
      let (q, found, e2) = >>=-ok (find_node key g) _ e1 in
      let (w, wait, e3) = >>=-ok (check (is_waiting q.1.status) (not_waiting q.1.status)) _ e2 in
      subst (IsClaimed i task p) (same_of_ok e3) (
        settled-IsClaimed accepted now _ (
          IsClaimed-Steady (unparked-Steady _)
            (write-IsClaimed q.0 q.1 _ g (find_node-at key g q found) (λ h. h) c)))

  resume-IsClaimed :
      (now : ℕ) (named : Option (List String)) (g : Graph)
      → IsClaimed i task p g
      → (g' : Graph) → resume now named g ≡ ok g'
      → IsClaimed i task p g'
  unfolding resume
  resume-IsClaimed now named g c g' e =
      let (u1, c1, e1) = >>=-ok (check (not (graph_is_live g.status)) still_running) _ e in
      let (u2, c2, e2) = >>=-ok (check (not (is_cancelled_graph g.status)) was_cancelled) _ e1 in
      let (u3, c3, e3) =
        >>=-ok (check (not (is_succeeded_graph g.status && no_nodes_named named)) name_the_nodes) _
          e2 in
      let (rerun, found, e4) = >>=-ok (rerun_closure g.nodes named) _ e3 in
      let (u5, c5, e5) = >>=-ok (check (has_keys rerun) nothing_to_rerun) _ e4 in
      subst (IsClaimed i task p) (same_of_ok e5) (
        maybe_settle-IsClaimed now _
          (dispatch_frontier-IsClaimed now _ (reopen-IsClaimed now rerun g c)))

  after_call-IsClaimed :
      (g : Graph) (r : Result GraphError Graph)
      → IsClaimed i task p g
      → ((g' : Graph) → r ≡ ok g' → IsClaimed i task p g')
      → IsClaimed i task p (after_call g r)
  after_call-IsClaimed g (ok g') c k = k g' refl
  after_call-IsClaimed g (err e) c k = c

  pub apply-IsClaimed :
      (op : Op) (g : Graph) → IsClaimed i task p g → IsClaimed i task p (apply op g)
  unfolding apply
  apply-IsClaimed (complete accepted now j t status) g c =
      completion-IsClaimed accepted now j t status g c
  apply-IsClaimed (skip_node accepted now key reason) g c =
      after_call-IsClaimed g (skip accepted now key reason g) c
        (skip-IsClaimed accepted now key reason g c)
  apply-IsClaimed (cancel_graph accepted now) g c =
      after_call-IsClaimed g (cancel accepted now g) c (cancel-IsClaimed accepted now g c)
  apply-IsClaimed (approve_node now key) g c =
      after_call-IsClaimed g (approve now key g) c (approve-IsClaimed now key g c)
  apply-IsClaimed (reject_node accepted now key reason) g c =
      after_call-IsClaimed g (reject accepted now key reason g) c
        (reject-IsClaimed accepted now key reason g c)
  apply-IsClaimed (resume_graph now named) g c =
      after_call-IsClaimed g (resume now named g) c (resume-IsClaimed now named g c)
