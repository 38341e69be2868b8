-- ===== src/Graph/Dispatch/Sound.antt =====
-- Dependencies are respected: what has started had all it depends on.
use mathlib.Core.Path.{subst}
use django_qraft.Prelude.{
  ℕ, zero, suc, String, Bool, true, false, ◌&&◌, ◌||◌, none, some, List, [], ◌∷◌, get_elem?, set,
  all, is_none, ◌≡◌, ◌⊎◌, refl, sym, ap, ◌∙◌, arith, str_eq, inl, inr, Bool-cases, ◌==◌,
  if◌then◌else◌,
}
use django_qraft.Graph.Rows.{NodeStatus, Node, is_met, met, index_from, index_of}

-- The statuses of a node that was dispatched or parked at its gate.
abbrev pub is_started : NodeStatus → Bool
is_started NodeStatus.pending = false
is_started NodeStatus.skipped = false
is_started _ = true

-- The statuses of a node to which no task is bound.
abbrev pub is_idle : NodeStatus → Bool
is_idle NodeStatus.pending = true
is_idle NodeStatus.waiting_approval = true
is_idle _ = false

-- A started node depends on succeeded and skipped nodes only. Beside it: a key finds its own node,
-- a node that satisfies others is settled, and no task is bound to a node that waits or is pending.
pub record IsSound (nodes : List Node) : Type 0 where
  pub deps :
      (i : ℕ) (n : Node)
      → get_elem? nodes i ≡ some n
      → is_started n.status ≡ true
      → all (met nodes) n.after ≡ true
  pub own_key : (i : ℕ) (n : Node) → get_elem? nodes i ≡ some n → index_of n.key nodes ≡ some i
  pub met_settled :
      (i : ℕ) (n : Node)
      → get_elem? nodes i ≡ some n
      → is_met n.status ≡ true
      → is_none n.settled_at ≡ false
  pub idle_unbound :
      (i : ℕ) (n : Node) → get_elem? nodes i ≡ some n → is_idle n.status ≡ true → n.task ≡ none

-- A change of a node that keeps its place in the plan, and what it satisfies.
pub record SamePlan (u v : Node) : Type 0 where
  pub key : v.key ≡ u.key
  pub after : v.after ≡ u.after
  pub keeps_met : is_met u.status ≡ true → is_met v.status ≡ true

pub get_elem?-set :
    (nodes : List Node) (i j : ℕ) (u v : Node)
    → get_elem? nodes i ≡ some u
    → get_elem? (set nodes i v) j ≡ (if i == j then some v else get_elem? nodes j)
get_elem?-set [] i j u v h = cc
get_elem?-set (x ∷ nodes) zero zero u v h = refl
get_elem?-set (x ∷ nodes) zero (suc j) u v h = ground arith
get_elem?-set (x ∷ nodes) (suc i) zero u v h = ground arith
get_elem?-set (x ∷ nodes) (suc i) (suc j) u v h = get_elem?-set nodes i j u v h ∙ ground arith

same_of_some : {u x : Node} → some x ≡ some u → x ≡ u
same_of_some h = cc

met_head :
    (u v : Node) (dep : String) (rest : Bool)
    → SamePlan u v
    → (str_eq u.key dep && is_met u.status || rest) ≡ true
    → (str_eq v.key dep && is_met v.status || rest) ≡ true
met_head u v dep rest s h =
    subst (λ (k : String). (str_eq k dep && is_met v.status || rest) ≡ true) (sym s.key)
      (ground (arith, s.keeps_met))

pub met-set :
    (nodes : List Node) (i : ℕ) (u v : Node) (dep : String)
    → get_elem? nodes i ≡ some u
    → SamePlan u v
    → met nodes dep ≡ true
    → met (set nodes i v) dep ≡ true
met-set [] i u v dep h s m = m
met-set (x ∷ nodes) zero u v dep h s m = met_head u v dep (met nodes dep) s (
    subst (λ (n : Node). (str_eq n.key dep && is_met n.status || met nodes dep) ≡ true)
      (same_of_some h) m)
met-set (x ∷ nodes) (suc i) u v dep h s m = ground (arith, met-set nodes i u v dep h s)

pub all-met_mono :
    (nodes nodes' : List Node) (deps : List String)
    → ((dep : String) → met nodes dep ≡ true → met nodes' dep ≡ true)
    → all (met nodes) deps ≡ true
    → all (met nodes') deps ≡ true
all-met_mono nodes nodes' [] mono h = refl
all-met_mono nodes nodes' (d ∷ deps) mono h =
    ground (arith, mono d, all-met_mono nodes nodes' deps mono)

index_from-set :
    (nodes : List Node) (i k : ℕ) (u v : Node) (key : String)
    → get_elem? nodes i ≡ some u
    → v.key ≡ u.key
    → index_from key k (set nodes i v) ≡ index_from key k nodes
unfolding index_from
index_from-set [] i k u v key h e = refl
index_from-set (x ∷ nodes) zero k u v key h e =
    ap (λ (q : String). if str_eq q key then some k else index_from key (suc k) nodes)
      (e ∙ sym (ap (λ (n : Node). n.key) (same_of_some h)))
index_from-set (x ∷ nodes) (suc i) k u v key h e =
    ground (arith, index_from-set nodes i (suc k) u v key h e)

pub row_of_set :
    (nodes : List Node) (i j : ℕ) (u v n : Node)
    → get_elem? nodes i ≡ some u
    → get_elem? (set nodes i v) j ≡ some n
    → ((i ≡ j) × (v ≡ n)) ⊎ (get_elem? nodes j ≡ some n)
row_of_set nodes i j u v n at h = elim (Bool-cases (i == j)) [
  | inl e ↦ inl (ground arith, same_of_some (rw e at (sym (get_elem?-set nodes i j u v at) ∙ h)))
  | inr e ↦ inr (rw e at (sym (get_elem?-set nodes i j u v at) ∙ h))
]

-- What holds of the old rows and of the new one holds of all rows.
each_row :
    (P : ℕ → Node → Type 0) (nodes : List Node) (i : ℕ) (u v : Node)
    → get_elem? nodes i ≡ some u
    → P i v
    → ((j : ℕ) (n : Node) → get_elem? nodes j ≡ some n → P j n)
    → (j : ℕ) (n : Node) → get_elem? (set nodes i v) j ≡ some n
    → P j n
each_row P nodes i u v at new old j n h = elim (row_of_set nodes i j u v n at h) [
  | inl (e, q) ↦ subst (λ (k : ℕ). P k n) e (subst (λ (m : Node). P i m) q new)
  | inr at_j ↦ old j n at_j
]

index_of-set :
    (nodes : List Node) (i : ℕ) (u v : Node) (key : String)
    → get_elem? nodes i ≡ some u
    → v.key ≡ u.key
    → index_of key (set nodes i v) ≡ index_of key nodes
unfolding index_of
index_of-set nodes i u v key at e = index_from-set nodes i zero u v key at e

-- A write to one node keeps the dependencies respected: the node keeps its place in the plan and
-- what it satisfies, and starts only when all it depends on is met.
pub set-IsSound :
    (nodes : List Node) (i : ℕ) (u v : Node)
    → get_elem? nodes i ≡ some u
    → SamePlan u v
    → (is_started v.status ≡ true → all (met nodes) u.after ≡ true)
    → (is_met v.status ≡ true → is_none v.settled_at ≡ false)
    → (is_idle v.status ≡ true → v.task ≡ none)
    → IsSound nodes
    → IsSound (set nodes i v)
set-IsSound nodes i u v at s ready settled idle h =
    let grow = λ (deps : List String).
      all-met_mono nodes (set nodes i v) deps (λ dep. met-set nodes i u v dep at s) in
    record {
      deps =
          each_row (λ j n. is_started n.status ≡ true → all (met (set nodes i v)) n.after ≡ true)
            nodes i u v at
            (λ st.
              subst (λ (ds : List String). all (met (set nodes i v)) ds ≡ true) (sym s.after)
                (grow u.after (ready st)))
            (λ j n at_j st. grow n.after (h.deps j n at_j st));
      own_key =
          each_row (λ j n. index_of n.key (set nodes i v) ≡ some j) nodes i u v at
            (index_of-set nodes i u v v.key at s.key
              ∙ ap (λ (k : String). index_of k nodes) s.key
              ∙ h.own_key i u at)
            (λ j n at_j. index_of-set nodes i u v n.key at s.key ∙ h.own_key j n at_j);
      met_settled =
          each_row (λ j n. is_met n.status ≡ true → is_none n.settled_at ≡ false) nodes i u v at
            settled h.met_settled;
      idle_unbound =
          each_row (λ j n. is_idle n.status ≡ true → n.task ≡ none) nodes i u v at idle
            h.idle_unbound;
    }
