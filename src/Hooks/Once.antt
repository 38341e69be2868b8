-- ===== src/Hooks/Once.antt =====
-- qraft/hooks.py: `dispatch_hook_once` and the dispatch rows that make it idempotent.
use django_qraft.Prelude.{
  ℕ, String, Option, none, some, Bool, true, false, not, ◌&&◌, List, [], ◌∷◌, any, ◌==◌, str_eq,
  if◌then◌else◌,
}

pub data HookKind : Type 0 where
  success failure cancelled settled : HookKind

abbrev pub same_kind : HookKind → HookKind → Bool
same_kind success success = true
same_kind failure failure = true
same_kind cancelled cancelled = true
same_kind settled settled = true
same_kind _ _ = false

-- The unique lookup of a dispatch row, for one workflow: its hook type and generation.
pub record HookKey : Type 0 where
  pub kind : HookKind
  pub generation : ℕ

abbrev pub same_key : HookKey → HookKey → Bool
same_key a b = same_kind a.kind b.kind && a.generation == b.generation

-- `rows` is the table of dispatch rows of one workflow, `queued` the hook tasks that the broker
-- accepted, newest first.
pub record Outbox : Type 0 where
  pub rows : List HookKey
  pub queued : List HookKey

abbrev pub no_hooks : Outbox
no_hooks = record { rows = []; queued = [] }

-- `dispatch_hook_once`. The claim and the enqueue share a transaction: when the broker refuses,
-- the claim is rolled back.
unfoldable pub dispatch_hook_once : Bool → HookKey → Outbox → Outbox
dispatch_hook_once accepted key o =
    if any (same_key key) o.rows
    then o
    else if accepted
    then record { rows = key ∷ o.rows; queued = key ∷ o.queued }
    else o

-- A hook path is configured when it is neither null nor empty.
abbrev pub is_configured : Option String → Bool
is_configured none = false
is_configured (some path) = not (str_eq path "")

-- How often a hook was queued.
