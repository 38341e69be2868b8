-- ===== src/Graph/Control/History/Rerun.antt =====
-- qraft/graphs.py: `resume` and the dependencies. A node that keeps its result is run by nothing
-- that runs again.
use mathlib.Core.Path.{subst}
use text.Mathlib.TextPositions.{eq_refl}
use django_qraft.Prelude.{
  ℕ, zero, suc, String, Bool, true, false, Option, none, some, List, [], ◌∷◌, ◌++◌, map, get_elem?,
  get_elem?-map, all, not, ◌&&◌, ◌||◌, is_none, contains, str_eq, eq_iff, ◌≡◌, refl, sym, ap, ◌∙◌,
  arith, Bool-cases, Option-cases, inl, inr, Result, ok, err, >>=-ok,
}
use django_qraft.Graph.Rows.{
  Node, Graph, GraphError, still_running, was_cancelled, name_the_nodes, nothing_to_rerun,
  graph_is_live, is_met, met, index_of, index_from,
}
use django_qraft.Graph.Dispatch.{dispatch_frontier}
use django_qraft.Graph.Dispatch.Sound.{IsSound, is_started, is_idle}
use django_qraft.Graph.Dispatch.Loop.{dispatch_frontier-IsSound}
use django_qraft.Graph.Closure.{
  dependents_in, dependents, select, ever_ran, rerun_closure, start_keys, unknown_key, all_keys,
}
use django_qraft.Graph.Closure.Reach.{IsClosed, close-closes}
use django_qraft.Graph.Control.History.Writes.{
  record_settlement-nodes, maybe_settle-nodes, same_of_ok,
}
use django_qraft.Graph.Control.{
  reset, reset_if, reopen, resume, check, is_cancelled_graph, is_succeeded_graph, no_nodes_named,
  has_keys,
}

contains-select :
    (p : String → Bool) (ks : List String) (k : String)
    → contains k (select p ks) ≡ (contains k ks && p k)
contains-select p [] k = refl
contains-select p (x ∷ ks) k = elim (Bool-cases (str_eq k x)) [
  | inl e ↦ ground (arith, contains-select p ks k, ap p ((eq_iff k x).0 e))
  | inr e ↦ ground (arith, contains-select p ks k)
]

contains-append :
    (k : String) (xs ys : List String) → contains k (xs ++ ys) ≡ (contains k xs || contains k ys)
contains-append k [] ys = refl
contains-append k (x ∷ xs) ys = ground (arith, contains-append k xs ys)

contains-dependents_in :
    (d key : String) (after : List String)
    → contains d after ≡ true
    → contains key (dependents_in d key after) ≡ true
contains-dependents_in d key [] h = cc
contains-dependents_in d key (x ∷ after) h = elim (Bool-cases (str_eq x d)) [
  | inl e ↦ rw (e, eq_refl key) refl
  | inr e ↦ ground (
    arith,
    contains-dependents_in d key after,
    eq_iff d x,
    eq_iff x d,
    λ (q : d ≡ x). (eq_iff x d).1 (sym q),
  )
]

same_of_some : {m n : Node} → some m ≡ some n → m ≡ n
same_of_some h = cc

contains-dependents :
    (nodes : List Node) (i : ℕ) (n : Node) (d : String)
    → get_elem? nodes i ≡ some n
    → contains d n.after ≡ true
    → contains n.key (dependents nodes d) ≡ true
contains-dependents [] i n d at h = cc
contains-dependents (x ∷ nodes) zero n d at h =
    subst (λ (m : Node). contains m.key (dependents (x ∷ nodes) d) ≡ true) (same_of_some at)
      (rw (contains-append x.key (dependents_in d x.key x.after) (dependents nodes d)) (
        rw
          (contains-dependents_in d x.key x.after
            (subst (λ (m : Node). contains d m.after ≡ true) (sym (same_of_some at)) h))
          refl))
contains-dependents (x ∷ nodes) (suc i) n d at h =
    rw (contains-append n.key (dependents_in d x.key x.after) (dependents nodes d))
      (ground (arith, contains-dependents nodes i n d at h))

index_from-map :
    (keys : List String) (nodes : List Node) (k : ℕ) (key : String)
    → index_from key k (map (reset_if keys) nodes) ≡ index_from key k nodes
unfolding index_from
index_from-map keys [] k key = refl
index_from-map keys (x ∷ nodes) k key = ground (arith, index_from-map keys nodes (suc k) key)

met-map :
    (keys : List String) (nodes : List Node) (dep : String)
    → contains dep keys ≡ false
    → met nodes dep ≡ true
    → met (map (reset_if keys) nodes) dep ≡ true
met-map keys [] dep new m = m
met-map keys (x ∷ nodes) dep new m = elim (Bool-cases (str_eq x.key dep)) [
  | inl e ↦ ground (
    arith,
    ap (λ (k : String). contains k keys) ((eq_iff x.key dep).0 e),
    met-map keys nodes dep new,
  )
  | inr e ↦ ground (arith, met-map keys nodes dep new)
]

all-mono_in :
    (p q : String → Bool) (ks : List String)
    → ((k : String) → contains k ks ≡ true → p k ≡ true → q k ≡ true)
    → all p ks ≡ true
    → all q ks ≡ true
all-mono_in p q [] mono h = refl
all-mono_in p q (k ∷ ks) mono h =
    ground (arith, mono k (rw (eq_refl k) refl), all-mono_in p q ks (λ j m. mono j (ground arith)))

ever_ran_started :
    (nodes : List Node) (i : ℕ) (n : Node)
    → IsSound nodes
    → get_elem? nodes i ≡ some n
    → is_started n.status ≡ true
    → ever_ran nodes n.key ≡ true
unfolding ever_ran
ever_ran_started nodes i n h at st = rw (h.own_key i n at, at) (ground arith)

module _ (nodes : List Node) (closure : List String)
    (closed : IsClosed nodes (λ k. contains k closure)) (h : IsSound nodes) where
  abbrev rerun : List String
  rerun = select (ever_ran nodes) closure

  -- What a node that keeps its result depends on keeps its result too.
  dep_kept :
      (i : ℕ) (n : Node) (d : String)
      → get_elem? nodes i ≡ some n
      → is_started n.status ≡ true
      → contains n.key rerun ≡ false
      → contains d n.after ≡ true
      → contains d rerun ≡ false
  dep_kept i n d at st keep dep = elim (Bool-cases (contains d rerun)) [
    | inr e ↦ e
    | inl e ↦ ground (
      arith,
      contains-select (ever_ran nodes) closure d,
      contains-select (ever_ran nodes) closure n.key,
      closed d n.key,
      contains-dependents nodes i n d at dep,
      ever_ran_started nodes i n h at st,
    )
  ]

  kept_deps :
      (i : ℕ) (n : Node)
      → get_elem? nodes i ≡ some n
      → is_started n.status ≡ true
      → contains n.key rerun ≡ false
      → all (met (map (reset_if rerun) nodes)) n.after ≡ true
  kept_deps i n at st keep =
      all-mono_in (met nodes) (met (map (reset_if rerun) nodes)) n.after
        (λ d dep. met-map rerun nodes d (dep_kept i n d at st keep dep)) (h.deps i n at st)

  -- A row after the reset is a reset row or an old one that was kept.
  each_reset :
      (P : ℕ → Node → Type 0)
      → ((i : ℕ) (n : Node) → get_elem? nodes i ≡ some n → P i (reset n))
      → ((i : ℕ) (n : Node) → get_elem? nodes i ≡ some n → contains n.key rerun ≡ false → P i n)
      → (i : ℕ) (v : Node) → get_elem? (map (reset_if rerun) nodes) i ≡ some v
      → P i v
  each_reset P again keep i v at =
      let (n, at_n, e) = get_elem?-map (reset_if rerun) nodes i v at in
      subst (P i) e (elim (Bool-cases (contains n.key rerun)) [
        | inl r ↦ rw r (again i n at_n)
        | inr r ↦ rw r (keep i n at_n r)
      ])

  pub reset-IsSound : IsSound (map (reset_if rerun) nodes)
  unfolding index_of
  reset-IsSound = record {
    deps =
        each_reset
          (λ i n.
            is_started n.status ≡ true → all (met (map (reset_if rerun) nodes)) n.after ≡ true)
          (λ i n at st. cc) (λ i n at keep st. kept_deps i n at st keep);
    own_key =
        each_reset (λ i n. index_of n.key (map (reset_if rerun) nodes) ≡ some i)
          (λ i n at. index_from-map rerun nodes zero n.key ∙ h.own_key i n at)
          (λ i n at keep. index_from-map rerun nodes zero n.key ∙ h.own_key i n at);
    met_settled =
        each_reset (λ i n. is_met n.status ≡ true → is_none n.settled_at ≡ false) (λ i n at m. cc)
          (λ i n at keep. h.met_settled i n at);
    idle_unbound =
        each_reset (λ i n. is_idle n.status ≡ true → n.task ≡ none) (λ i n at m. refl)
          (λ i n at keep. h.idle_unbound i n at);
  }

reopen-nodes :
    (now : ℕ) (rerun : List String) (g : Graph)
    → (reopen now rerun g).nodes ≡ map (reset_if rerun) g.nodes
unfolding reopen
reopen-nodes now rerun g = ap (map (reset_if rerun)) (record_settlement-nodes g)

same_keys :
    {ks ls : List String} → ◌≡◌ {A = Result GraphError (List String)} (ok ks) (ok ls) → ks ≡ ls
same_keys h = cc

no_keys :
    {x : GraphError} {ls : List String}
    → ◌≡◌ {A = Result GraphError (List String)} (err x) (ok ls)
    → ⊥
no_keys h = cc

rerun_closure-IsSound :
    (named : Option (List String)) (nodes : List Node) (rerun : List String)
    → rerun_closure nodes named ≡ ok rerun
    → IsSound nodes
    → IsSound (map (reset_if rerun) nodes)
unfolding rerun_closure
rerun_closure-IsSound named nodes rerun e h =
    let (result, made, has, closed) = close-closes nodes (start_keys nodes named) in
    elim (Option-cases (unknown_key (all_keys nodes) (start_keys nodes named))) [
      | inl x ↦
          subst (λ (ks : List String). IsSound (map (reset_if ks) nodes))
            (same_keys (rw (rerun_closure, x, made) at e)) (reset-IsSound nodes result closed h)
      | inr (k, x) ↦ absurd (no_keys (rw (rerun_closure, x) at e))
    ]

pub resume-IsSound :
    (now : ℕ) (named : Option (List String)) (g : Graph)
    → IsSound g.nodes
    → (g' : Graph) → resume now named g ≡ ok g'
    → IsSound g'.nodes
unfolding resume
resume-IsSound now named g h g' e =
    let (u1, c1, e1) = >>=-ok (check (not (graph_is_live g.status)) still_running) _ e in
    let (u2, c2, e2) = >>=-ok (check (not (is_cancelled_graph g.status)) was_cancelled) _ e1 in
    let (u3, c3, e3) =
      >>=-ok (check (not (is_succeeded_graph g.status && no_nodes_named named)) name_the_nodes) _
        e2 in
    let (rerun, found, e4) = >>=-ok (rerun_closure g.nodes named) _ e3 in
    let (u5, c5, e5) = >>=-ok (check (has_keys rerun) nothing_to_rerun) _ e4 in
    subst (λ (k : Graph). IsSound k.nodes) (same_of_ok e5)
      (subst IsSound (sym (maybe_settle-nodes now (dispatch_frontier now (reopen now rerun g)))) (
        dispatch_frontier-IsSound now (reopen now rerun g) (
          subst IsSound (sym (reopen-nodes now rerun g))
            (rerun_closure-IsSound named g.nodes rerun found h))))
