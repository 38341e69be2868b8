-- ===== src/Progress/Statement.antt =====
-- The one statement for PostgreSQL and the locked read and write do the same.
use django_qraft.Prelude.{
  Object, get, ℕ, String, Bool, true, false, not, ◌&&◌, ◌||◌, Option, none, some, leb, is_none,
  if◌then◌else◌, ◌≡◌, refl, arith,
}
use django_qraft.Progress.{
  Json, merge, Report, Attempt, stored_object, same_json, differs, moved, advanced, is_after,
  is_coalesced, written, progress_payload, locked_progress_update,
}

-- `IS DISTINCT FROM` on JSON values that may be null.
abbrev pub is_distinct : Option Json → Option Json → Bool
is_distinct none none = false
is_distinct none (some v) = true
is_distinct (some s) none = true
is_distinct (some s) (some v) = not (same_json s v)

-- `progress->key`, which is null where the column is
abbrev pub field : Option (Object Json) → String → Option Json
field none key = none
field (some o) key = get key o

-- The condition `advanced` of the statement.
unfoldable pub pg_advanced : Option (Object Json) → Report → Bool
pg_advanced progress r =
    (not (is_none r.current) && is_distinct (field progress "current") r.current)
    || (not (is_none r.total) && is_distinct (field progress "total") r.total)

-- `reported_at IS NULL OR reported_at <= cutoff`
abbrev pub is_old : Option ℕ → ℕ → Bool
is_old none cutoff = true
is_old (some t) cutoff = leb t cutoff

abbrev pub pg_condition : Option ℕ → Report → Attempt → Bool
pg_condition none r a = true
pg_condition (some cutoff) r a =
    r.force || (is_old a.progress_reported_at cutoff || pg_advanced a.progress r)

-- `_pg_progress_update`
unfoldable pub pg_progress_update : Option ℕ → Report → Attempt → Option Attempt
unfolding pg_advanced merge progress_payload
pg_progress_update cutoff r a =
    if pg_condition cutoff r a
    then some (record a {
      progress = some (merge (stored_object a.progress) (progress_payload r));
      progress_reported_at = some r.now;
      progress_advanced_at =
          if pg_advanced a.progress r then some r.now else a.progress_advanced_at;
    })
    else none

pg_moved :
    (progress : Option (Object Json)) (key : String) (v : Option Json)
    → (not (is_none v) && is_distinct (field progress key) v) ≡ moved (stored_object progress) key v
unfolding get
pg_moved progress key none = refl
pg_moved none key (some v) = refl
pg_moved (some o) key (some v) = distinct (get key o) v
  where
    distinct : (s : Option Json) (w : Json) → is_distinct s (some w) ≡ differs s w
    distinct none w = refl
    distinct (some u) w = refl

pg_advanced-eq :
    (progress : Option (Object Json)) (r : Report)
    → pg_advanced progress r ≡ advanced (stored_object progress) r
unfolding pg_advanced
pg_advanced-eq progress r =
    rw (pg_moved progress "current" r.current) (rw (pg_moved progress "total" r.total) refl)

old_iff : (t : Option ℕ) (cutoff : ℕ) → is_old t cutoff ≡ not (is_after t cutoff)
old_iff none cutoff = refl
old_iff (some t) cutoff = ground arith

condition-eq :
    (cutoff : Option ℕ) (r : Report) (a : Attempt)
    → pg_condition cutoff r a ≡ not (is_coalesced cutoff r a)
condition-eq none r a = refl
condition-eq (some cutoff) r a = rw (pg_advanced-eq a.progress r) (
    rw (old_iff a.progress_reported_at cutoff) (
      de_morgan r.force (is_after a.progress_reported_at cutoff)
        (advanced (stored_object a.progress) r)))
  where
    de_morgan : (f o v : Bool) → (f || (not o || v)) ≡ not (not f && o && not v)
    de_morgan true o v = refl
    de_morgan false true true = refl
    de_morgan false true false = refl
    de_morgan false false v = refl

if_not {ℓ} : {A : Type ℓ} (b : Bool) (x y : A) → (if not b then x else y) ≡ (if b then y else x)
if_not true x y = refl
if_not false x y = refl

-- The one guarded statement on PostgreSQL and the read and write under the row lock elsewhere do the
-- same: with any stored progress, report and cutoff, both write nothing or both write the same row.
pub pg_progress_update-eq :
    (cutoff : Option ℕ) (r : Report) (a : Attempt)
    → pg_progress_update cutoff r a ≡ locked_progress_update cutoff r a
unfolding pg_progress_update locked_progress_update
pg_progress_update-eq cutoff r a =
    rw (condition-eq cutoff r a) (
      rw (pg_advanced-eq a.progress r) (if_not (is_coalesced cutoff r a) (some (written r a)) none))
