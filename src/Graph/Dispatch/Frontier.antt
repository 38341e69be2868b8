-- ===== src/Graph/Dispatch/Frontier.antt =====
-- After a pass over the frontier no node is ready any more: each ready node was dispatched or parked.
use django_qraft.Prelude.{
  ℕ, zero, suc, ◌+◌, String, true, false, some, none, List, [], ◌∷◌, get_elem?, set, all, All, ◌≡◌,
  refl, sym, ap, ◌∙◌, arith, Bool-cases, Option-cases, inl, inr,
}
use mathlib.Core.Path.{subst}
use django_qraft.Graph.Rows.{
  Node, Graph, is_pending, is_met, graph_is_running, met, is_ready, ready_from, ready_nodes,
}
use django_qraft.Graph.Dispatch.{dispatch_one, dispatch_loop, dispatch_frontier}
use django_qraft.Graph.Dispatch.Sound.{row_of_set}
use django_qraft.Graph.Dispatch.Loop.{started_as, dispatch_one-none, dispatch_one-some}

-- The row at a place is not pending.
abbrev IsOff : List Node → ℕ → Type 0
IsOff nodes i = (n : Node) → get_elem? nodes i ≡ some n → is_pending n.status ≡ false

-- Rows whose plan and met nodes are those of the old, and in which no further node is pending.
record Drains (old new : List Node) : Type 0 where
  pub same_met : (dep : String) → met new dep ≡ met old dep
  pub was :
      (j : ℕ) (n : Node)
      → get_elem? new j ≡ some n
      → is_pending n.status ≡ true
      → (m : Node) × (get_elem? old j ≡ some m) × (m.after ≡ n.after) × (is_pending m.status ≡ true)

Drains-refl : (nodes : List Node) → Drains nodes nodes
Drains-refl nodes = record { same_met = λ dep. refl; was = λ j n at p. (n, at, refl, p) }

Drains-trans : (a b c : List Node) → Drains a b → Drains b c → Drains a c
Drains-trans a b c d e = record {
  same_met = λ dep. e.same_met dep ∙ d.same_met dep;
  was = λ j n at p.
      let (m, at_m, q, p_m) = e.was j n at p in
      let (k, at_k, r, p_k) = d.was j m at_m p_m in (k, at_k, r ∙ q, p_k);
}

IsOff-Drains : (old new : List Node) (i : ℕ) → Drains old new → IsOff old i → IsOff new i
IsOff-Drains old new i d off n at = elim (Bool-cases (is_pending n.status)) [
  | inr e ↦ e
  | inl e ↦ let (m, at_m, q, p) = d.was i n at e in absurd (ground (arith, off m at_m))
]

same_of_some : {u x : Node} → some x ≡ some u → x ≡ u
same_of_some h = cc

met-set_same :
    (nodes : List Node) (i : ℕ) (u v : Node) (dep : String)
    → get_elem? nodes i ≡ some u
    → v.key ≡ u.key
    → is_met v.status ≡ is_met u.status
    → met (set nodes i v) dep ≡ met nodes dep
met-set_same [] i u v dep at k m = refl
met-set_same (x ∷ nodes) zero u v dep at k m = let q : x ≡ u = same_of_some at in rw (k, m, q) refl
met-set_same (x ∷ nodes) (suc i) u v dep at k m = rw (met-set_same nodes i u v dep at k m) refl

started-off : (now task : ℕ) (n : Node) → is_pending (started_as now task n).status ≡ false
started-off now task n = ground arith

started-Drains :
    (now task i : ℕ) (nodes : List Node) (u : Node)
    → get_elem? nodes i ≡ some u
    → is_pending u.status ≡ true
    → Drains nodes (set nodes i (started_as now task u))
started-Drains now task i nodes u at p = record {
  same_met =
      λ dep. met-set_same nodes i u (started_as now task u) dep at (ground arith) (ground arith);
  was = λ j n at_n p_n. elim (row_of_set nodes i j u (started_as now task u) n at at_n) [
    | inl (e, q) ↦
        let off : is_pending n.status ≡ false =
          ap (λ (m : Node). is_pending m.status) (sym q) ∙ started-off now task u in
        absurd (ground (arith, off, p_n))
    | inr old ↦ (n, old, refl, p_n)
  ];
}

started-IsOff :
    (now task i : ℕ) (nodes : List Node) (u : Node)
    → get_elem? nodes i ≡ some u
    → IsOff (set nodes i (started_as now task u)) i
started-IsOff now task zero [] u at n h = cc
started-IsOff now task (suc i) [] u at n h = cc
started-IsOff now task zero (x ∷ nodes) u at n h =
    ap (λ (m : Node). is_pending m.status) (sym (same_of_some h)) ∙ started-off now task u
started-IsOff now task (suc i) (x ∷ nodes) u at n h = started-IsOff now task i nodes u at n h

-- One round leaves its node not pending.
dispatch_one-Drains :
    (now i : ℕ) (g : Graph)
    → Drains g.nodes (dispatch_one now i g).nodes × IsOff (dispatch_one now i g).nodes i
dispatch_one-Drains now i g = elim (Option-cases (get_elem? g.nodes i)) [
  | inl e ↦
      subst (λ (ns : List Node). Drains g.nodes ns × IsOff ns i) (sym (dispatch_one-none now i g e))
        (Drains-refl g.nodes, λ n at. absurd (clash (sym e ∙ at)))
  | inr (u, e) ↦
      subst (λ (ns : List Node). Drains g.nodes ns × IsOff ns i)
        (sym (dispatch_one-some now i g u e))
        (elim (Bool-cases (is_pending u.status)) [
          | inl p ↦ rw p (
            started-Drains now g.next_task i g.nodes u e p,
            started-IsOff now g.next_task i g.nodes u e,
          )
          | inr p ↦ rw p (
            Drains-refl g.nodes,
            λ n at. ap (λ (m : Node). is_pending m.status) (same_of_some (sym at ∙ e)) ∙ p,
          )
        ])
]
  where
    clash : {n : Node} → none ≡ some n → ⊥
    clash h = cc

dispatch_loop-Drains :
    (now : ℕ) (is : List ℕ) (g : Graph)
    → Drains g.nodes (dispatch_loop now is g).nodes × All (IsOff (dispatch_loop now is g).nodes) is
unfolding dispatch_loop
dispatch_loop-Drains now [] g = (Drains-refl g.nodes, tt)
dispatch_loop-Drains now (i ∷ is) g =
    let g1 = dispatch_one now i g in
    let (d, off) = dispatch_one-Drains now i g in
    let (e, rest) = dispatch_loop-Drains now is g1 in
    (
      Drains-trans g.nodes g1.nodes (dispatch_loop now is g1).nodes d e,
      (IsOff-Drains g1.nodes (dispatch_loop now is g1).nodes i e off, rest),
    )

-- What holds of the frontier holds of each place of a ready node.
ready_from-at :
    (P : ℕ → Type 0) (nodes : List Node) (i : ℕ) (ns : List Node)
    → All P (ready_from nodes i ns)
    → (k : ℕ) (n : Node) → get_elem? ns k ≡ some n
    → is_ready nodes n ≡ true
    → P (i + k)
unfolding ready_from
ready_from-at P nodes i [] h k n at r = cc
ready_from-at P nodes i (x ∷ ns) h zero n at r =
    let e : is_ready nodes x ≡ true = ap (is_ready nodes) (same_of_some at) ∙ r in
    subst P (omega arith) ((rw e at h).0)
ready_from-at P nodes i (x ∷ ns) h (suc k) n at r = elim (Bool-cases (is_ready nodes x)) [
  | inl e ↦ subst P (omega arith) (ready_from-at P nodes (suc i) ns ((rw e at h).1) k n at r)
  | inr e ↦ subst P (omega arith) (ready_from-at P nodes (suc i) ns (rw e at h) k n at r)
]

none_ready :
    (nodes : List Node) (i : ℕ) (ns : List Node)
    → ((k : ℕ) (n : Node) → get_elem? ns k ≡ some n → is_ready nodes n ≡ false)
    → ready_from nodes i ns ≡ []
unfolding ready_from
none_ready nodes i [] h = refl
none_ready nodes i (x ∷ ns) h =
    rw (ready_from, h zero x refl) (none_ready nodes (suc i) ns (λ k. h (suc k)))

all-met_same :
    (a b : List Node) (deps : List String)
    → ((dep : String) → met b dep ≡ met a dep)
    → all (met b) deps ≡ all (met a) deps
all-met_same a b [] h = refl
all-met_same a b (d ∷ deps) h = rw (h d, all-met_same a b deps h) refl

drained :
    (old new : List Node)
    → Drains old new
    → All (IsOff new) (ready_nodes old)
    → ready_nodes new ≡ []
unfolding ready_nodes is_ready
drained old new d off = none_ready new zero new λ k n at. elim (Bool-cases (is_ready new n)) [
  | inr e ↦ e
  | inl e ↦
      let pending : is_pending n.status ≡ true = ground arith in
      let deps : all (met new) n.after ≡ true = ground arith in
      let (m, at_m, q, p) = d.was k n at pending in
      let met_then : all (met old) m.after ≡ true =
        ap (all (met old)) q ∙ sym (all-met_same old new n.after d.same_met) ∙ deps in
      let ready : is_ready old m ≡ true = rw (is_ready, p) met_then in
      let gone : is_pending n.status ≡ false =
        subst (IsOff new) (omega arith) (ready_from-at (IsOff new) old zero old off k m at_m ready)
          n at in
      absurd (ground (arith, gone, pending))
]

pub dispatch_frontier-drains :
    (now : ℕ) (g : Graph)
    → graph_is_running g.status ≡ true
    → (ready_nodes (dispatch_frontier now g).nodes ≡ [])
      × All
          (λ i.
            (n : Node)
            → get_elem? (dispatch_frontier now g).nodes i ≡ some n
            → is_pending n.status ≡ false)
          (ready_nodes g.nodes)
unfolding dispatch_frontier
dispatch_frontier-drains now g r =
    let (d, off) = dispatch_loop-Drains now (ready_nodes g.nodes) g in
    rw (dispatch_frontier, r)
      (drained g.nodes (dispatch_loop now (ready_nodes g.nodes) g).nodes d off, off)
