-- ===== src/Enqueue/Create/Prepared.antt =====
-- What the preparation of a call of `async_task` makes of its arguments.
use django_qraft.Prelude.{
  ℕ, String, Bool, true, false, not, ◌&&◌, Option, none, some, List, [], ◌∷◌, all, str_eq, contains,
  is_none, eq_iff, Result, ok, err, ◌>>=◌, Bool-cases, Option-cases, inl, inr, ◌≡◌, refl, sym, ap,
  ◌∙◌, arith,
}
use django_qraft.Retry.Settings.{Checks, Defaults, PolicyError, from_options}
use django_qraft.Enqueue.{
  check_priority, parse_subject, member_labels, resolve_cluster, broker_without_cluster, Call,
  CallError, no_such_graph, GraphLabels, priorities, is_given, resolve_success_hook, guard,
  check_arguments, intersects,
}
use django_qraft.Enqueue.Create.{
  from_policy, import_path, Metadata, relabel, prepare, remove_names, q2_kwargs_of,
}

-- The options by which Qraft owns the completion and the retries of a message.
abbrev pub controls : List String
controls = "hook" ∷ "ack_failure" ∷ "save" ∷ []

abbrev pub has_controls : List String → Bool
has_controls options = all (λ name. contains name options) controls

-- No name among the controls is one of the function's keyword arguments.
abbrev pub free_of : List String → Bool
free_of kwargs = not (intersects controls kwargs)

contains-remove :
    (name : String) (names options : List String)
    → contains name names ≡ false
    → contains name (remove_names names options) ≡ contains name options
contains-remove name names [] h = refl
contains-remove name names (o ∷ os) h = elim (Bool-cases (contains o names)) [
  | inr e ↦ rw e (ground (arith, contains-remove name names os h))
  | inl e ↦ elim (Bool-cases (str_eq name o)) [
    | inr n ↦ rw e (ground (arith, n, contains-remove name names os h))
    | inl n ↦
        let same : contains name names ≡ true =
          ap (λ (x : String). contains x names) ((eq_iff name o).0 n) ∙ e in
        let no : true ≡ false = sym same ∙ h in absurd (cc)
  ]
]

pub controls-remove :
    (names options : List String)
    → free_of names ≡ true
    → has_controls options ≡ true
    → has_controls (remove_names names options) ≡ true
controls-remove names options f h = ground (
  arith,
  contains-remove "hook" names options,
  contains-remove "ack_failure" names options,
  contains-remove "save" names options,
)

same_of_ok : {A E : Type 0} {a b : A} → ◌≡◌ {A = Result E A} (ok a) (ok b) → a ≡ b
same_of_ok e = cc

from_policy-ok : {A : Type 0} (r : Result PolicyError A) (a : A) → from_policy r ≡ ok a → r ≡ ok a
from_policy-ok (ok b) a e = cc
from_policy-ok (err x) a e = cc

import_path-ok : (o : Option String) (p : String) → import_path o ≡ ok p → o ≡ some p
import_path-ok none p e = cc
import_path-ok (some q) p e = cc

abbrev pub given_or : String → Option String → String
given_or s none = s
given_or s (some t) = t

check_priority-ok :
    (o : Option String) (p : String)
    → check_priority o ≡ ok p
    → (p ≡ given_or "default" o) × (contains p priorities ≡ true)
unfolding check_priority
check_priority-ok none p e = let q : "default" ≡ p = cc in (sym q, rw (← q) refl)
check_priority-ok (some a) p e = elim (Bool-cases (contains a priorities)) [
  | inl y ↦ let q : a ≡ p = same_of_ok (rw (check_priority, y) at e) in (sym q, rw (← q) y)
  | inr y ↦ absurd (ground (arith, rw (check_priority, y) at e))
]

success_hook-given :
    (hook success failure : Option String)
    → is_given success ≡ true
    → resolve_success_hook hook success failure ≡ success
unfolding resolve_success_hook
success_hook-given hook success failure g = rw (resolve_success_hook, g) (ground arith)

then_ok :
    {A B : Type 0} (P : Result CallError B → Type 0) (r : Result CallError A)
    (k : A → Result CallError B)
    → ((e : CallError) → P (err e))
    → ((a : A) → r ≡ ok a → P (k a))
    → P (r >>= k)
then_ok P (ok a) k h g = g a refl
then_ok P (err e) k h g = h e

module _ {F : Type 0} where
  controls-q2_kwargs :
      (c : Call F) (cluster : Option String) → has_controls (q2_kwargs_of c cluster) ≡ true
  controls-q2_kwargs c cluster = refl

  pub check_arguments-free : (c : Call F) → check_arguments c ≡ ok tt → free_of c.kwargs ≡ true
  unfolding check_arguments
  check_arguments-free c h = ground arith

  -- The metadata of a call: its key, its function and the names of the keyword arguments, its failure
  -- hook and its success hook, if one is given, its retry policy and its priority, and the names of
  -- the options of the message.
  pub record Of (checks : Checks F) (defaults : Defaults F) (c : Call F) (m : Metadata F)
      : Type 0 where
    pub key : m.idempotency_key ≡ c.idempotency_key
    pub func : c.func ≡ some m.func
    pub kwargs : m.kwargs ≡ c.kwargs
    pub failure_hook : m.failure_hook ≡ c.failure_hook
    pub success_hook : is_given c.success_hook ≡ true → m.success_hook ≡ c.success_hook
    pub retry_policy : from_options checks defaults c.retry_options ≡ ok m.retry_policy
    pub priority :
        (m.priority ≡ given_or "default" c.priority) × (contains m.priority priorities ≡ true)
    pub options : has_controls m.q2_kwargs ≡ true

  module _ (checks : Checks F) (defaults : Defaults F) (graphs : ℕ → Option GraphLabels) where
    abbrev pub OfResult : Call F → Result CallError (Metadata F) → Type 0
    OfResult c (ok m) = Of checks defaults c m
    OfResult c (err e) = Unit

    pub prepare-Of : (c : Call F) → OfResult c (prepare checks defaults graphs c)
    unfolding prepare
    prepare-Of c =
        then_ok (OfResult c) (check_priority c.priority) _ (λ e. tt)
          λ priority p.
            then_ok (OfResult c) (from_policy (from_options checks defaults c.retry_options)) _
              (λ e. tt)
              λ policy r.
                then_ok (OfResult c) (parse_subject c.subject) _ (λ e. tt)
                  λ subject s.
                    then_ok (OfResult c) (member_labels graphs c.graph c.node subject.0 subject.1) _
                      (λ e. tt)
                      λ labels l.
                        then_ok (OfResult c) (import_path c.func) _ (λ e. tt)
                          λ func f.
                            then_ok (OfResult c) (resolve_cluster c.cluster c.options_cluster) _
                              (λ e. tt)
                              λ cluster k.
                                then_ok (OfResult c)
                                  (guard (c.broker && is_none cluster) broker_without_cluster) _
                                  (λ e. tt)
                                  λ u g. record {
                                    key = refl;
                                    func = import_path-ok c.func func f;
                                    kwargs = refl;
                                    failure_hook = refl;
                                    success_hook =
                                        success_hook-given c.hook c.success_hook c.failure_hook;
                                    retry_policy = from_policy-ok _ policy r;
                                    priority = check_priority-ok c.priority priority p;
                                    options = refl;
                                  }

    abbrev pub Relabelled : Call F → Result CallError (Metadata F) → Type 0
    Relabelled c (ok m) = Of checks defaults c m
    Relabelled c (err e) = e ≡ no_such_graph

    pub relabel-Of :
        (locked : ℕ → Option GraphLabels) (c : Call F) (m : Metadata F)
        → Of checks defaults c m
        → Relabelled c (relabel locked m)
    unfolding relabel
    relabel-Of locked c m o = elim (Option-cases m.labels.graph_id) [
      | inl e ↦ rw (relabel, e) o
      | inr (id, e) ↦ elim (Bool-cases (is_given m.labels.subject_type)) [
        | inl g ↦ rw (relabel, e, g) o
        | inr g ↦ elim (Option-cases (locked id)) [
          | inl l ↦ rw (relabel, e, g, l) refl
          | inr (labels, l) ↦
              rw (relabel, e, g, l)
                (record {
                  key = o.key;
                  func = o.func;
                  kwargs = o.kwargs;
                  failure_hook = o.failure_hook;
                  success_hook = o.success_hook;
                  retry_policy = o.retry_policy;
                  priority = o.priority;
                  options = o.options;
                })
        ]
      ]
    ]
