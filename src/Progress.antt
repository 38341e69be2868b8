-- ===== src/Progress.antt =====
-- qraft/context.py: reports of progress, on the rows of one task and its attempts.
pub mod Statement
pub mod Shown
use django_qraft.Prelude.{
  Object, get, put, ℕ, zero, suc, ◌+◌, ◌-◌, ◌≤◌, max, String, Bool, true, false, not, ◌&&◌, ◌||◌,
  Option, none, some, List, [], ◌∷◌, any, ltb, leb, ◌==◌, str_eq, is_none, if◌then◌else◌,
}

pub data Json : Type 0 where
  number : ℕ → Json
  text : String → Json

-- `{**stored, **payload}`
unfoldable pub merge : Object Json → Object Json → Object Json
unfolding put
merge stored [] = stored
merge stored (f ∷ fs) = merge (put f.0 f.1 stored) fs

abbrev pub with_field : String → Option Json → Object Json → Object Json
with_field key none fs = fs
with_field key (some value) fs = (key, value) ∷ fs

abbrev pub given_fields : List (String × Option Json) → Object Json
given_fields [] = []
given_fields (f ∷ fs) = with_field f.0 f.1 (given_fields fs)

-- The arguments of `report_progress`, with the time of the call.
pub record Report : Type 0 where
  pub current : Option Json
  pub total : Option Json
  pub message : Option Json
  pub extra : List (String × Option Json)
  pub force : Bool
  pub now : ℕ

-- `_progress_payload`
unfoldable pub progress_payload : Report → Object Json
progress_payload r =
    with_field "current" r.current
      (with_field "total" r.total (with_field "message" r.message (given_fields r.extra)))

-- The columns of `QraftTaskAttempt` about progress.
pub record Attempt : Type 0 where
  pub attempt_number : ℕ
  pub progress : Option (Object Json)
  pub progress_reported_at : Option ℕ
  pub progress_advanced_at : Option ℕ

-- `QraftTask.progress`: the object, and its `attempt_id`.
pub record Snapshot : Type 0 where
  pub object : Object Json
  pub attempt_id : ℕ

-- The attempts, newest first.
pub record Task : Type 0 where
  pub attempts : List Attempt
  pub progress : Option Snapshot

abbrev pub same_json : Json → Json → Bool
same_json (number a) (number b) = a == b
same_json (text a) (text b) = str_eq a b
same_json _ _ = false

abbrev pub stored_object : Option (Object Json) → Object Json
stored_object none = []
stored_object (some o) = o

abbrev pub differs : Option Json → Json → Bool
differs none v = true
differs (some s) v = not (same_json s v)

-- `value is not None and stored.get(key) != value`
abbrev pub moved : Object Json → String → Option Json → Bool
moved stored key none = false
moved stored key (some v) = differs (get key stored) v

-- Whether the report changes `current` or `total`.
abbrev pub advanced : Object Json → Report → Bool
advanced stored r = moved stored "current" r.current || moved stored "total" r.total

-- `reported_at > cutoff`
abbrev pub is_after : Option ℕ → ℕ → Bool
is_after none cutoff = false
is_after (some t) cutoff = ltb cutoff t

-- Whether the report is coalesced away, with the cutoff, if an interval is set.
abbrev pub is_coalesced : Option ℕ → Report → Attempt → Bool
is_coalesced none r a = false
is_coalesced (some cutoff) r a =
    not r.force
    && is_after a.progress_reported_at cutoff
    && not (advanced (stored_object a.progress) r)

abbrev pub written : Report → Attempt → Attempt
written r a = record a {
  progress = some (merge (stored_object a.progress) (progress_payload r));
  progress_reported_at = some r.now;
  progress_advanced_at =
      if advanced (stored_object a.progress) r then some r.now else a.progress_advanced_at;
}

-- `_locked_progress_update`: the row after it, if it was written.
unfoldable pub locked_progress_update : Option ℕ → Report → Attempt → Option Attempt
unfolding merge get progress_payload
locked_progress_update cutoff r a = if is_coalesced cutoff r a then none else some (written r a)

abbrev pub find : ℕ → List Attempt → Option Attempt
find k [] = none
find k (a ∷ as') = if a.attempt_number == k then some a else find k as'

abbrev pub save : Attempt → List Attempt → List Attempt
save row [] = []
save row (a ∷ as') = if a.attempt_number == row.attempt_number then row ∷ as' else a ∷ save row as'

-- `_snapshot_progress`: only if no attempt is newer.
unfoldable pub snapshot_progress : Attempt → Task → Task
snapshot_progress row t =
    if any (λ b. ltb row.attempt_number b.attempt_number) t.attempts then t else record t {
      progress =
          some (record { object = stored_object row.progress; attempt_id = row.attempt_number });
    }

abbrev pub after_update : Option Attempt → Task → Bool × Task
after_update none t = (false, t)
after_update (some row) t =
    (true, snapshot_progress row (record t { attempts = save row t.attempts }))

abbrev pub report_by : Option ℕ → Report → Option Attempt → Task → Bool × Task
report_by interval r none t = (false, t)
report_by interval r (some a) t = after_update (locked_progress_update interval r a) t

-- `now - interval`, if one is set
abbrev pub cutoff_of : Option ℕ → ℕ → Option ℕ
cutoff_of none now = none
cutoff_of (some zero) now = none
cutoff_of (some (suc n)) now = some (now - suc n)

-- `report_progress` by the attempt with the number: whether it was written, and the rows.
unfoldable pub report_progress : Option ℕ → ℕ → Report → Task → Bool × Task
unfolding locked_progress_update snapshot_progress
report_progress interval k r t = report_by (cutoff_of interval r.now) r (find k t.attempts) t

-- The row of a further attempt.
abbrev pub latest_number : List Attempt → ℕ
latest_number [] = 0
latest_number (a ∷ as') = max a.attempt_number (latest_number as')

abbrev pub add_attempt : Task → Task
add_attempt t = record t {
  attempts =
      record {
        attempt_number = suc (latest_number t.attempts);
        progress = none;
        progress_reported_at = none;
        progress_advanced_at = none;
      }
      ∷ t.attempts;
}
