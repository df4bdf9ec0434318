-- ===== src/Tasks/Daily.antt =====
-- modules/task/task.service.ts: getDailyCounts, findInRange and findChangedSince.
pub mod Buckets
mod Examples
use text.Mathlib.Text.{◌==◌ as str_eq}
use cue_api.Common.{
  ℕ, ◌+◌, ◌-◌, ltb, String, Bool, true, false, not, ◌&&◌, ◌||◌, Option, none, some, List, [], ◌∷◌,
  map, if◌then◌else◌, get_or,
}
use cue_api.Recurrence.Types.{Instant}
use cue_api.Recurrence.Luxon.{Luxon}
use cue_api.Tasks.Types.{
  TaskRow, ExceptionRow, Outcome, resolved, rejected, bad_request, require, ◌>>=◌, ◌>>◌,
}
use cue_api.Tasks.Exceptions.{find_changed_for_tasks}
use cue_api.Tasks.Store.{TaskDatabase, is_null, ensure_calendar_owned_by_user}
use cue_api.Tasks.Read.{
  FindOccurrencesOptions, ListedOccurrence, before, after, from_on, find_occurrences_in_range,
}

-- `counts[date] ?? 0`
pub count_on : List (String × ℕ) → String → ℕ
count_on [] date = 0
count_on ((d, n) ∷ counts) date = if str_eq d date then n else count_on counts date

-- `counts[date] = (counts[date] ?? 0) + 1`
pub add_on : List (String × ℕ) → String → List (String × ℕ)
add_on [] date = (date, 1) ∷ []
add_on ((d, n) ∷ counts) date =
    let later = add_on counts date in if str_eq d date then (d, n + 1) ∷ counts else (d, n) ∷ later

pub record ChangedSince : Type 0 where
  pub tasks : List TaskRow
  pub deleted : List String
  pub exceptions : List ExceptionRow
  pub server_time : Instant

pub delta_overlap_lag_ms : ℕ
delta_overlap_lag_ms = 5000

module _ (luxon : Luxon) where
  open luxon use {from_js_date, to_iso_date}

  -- The key of an occurrence with a start; `toISODate()` of an invalid value is null, which as a
  -- key reads "null".
  pub date_of : String → Option Instant → Option String
  date_of zone none = none
  date_of zone (some start) = elim (from_js_date start zone) [
    | none ↦ some "null"
    | some t ↦ some (to_iso_date t)
  ]

  pub local_date : ListedOccurrence → Option String
  local_date o = date_of o.task.timezone o.occurrence_start

  -- A round of the loop over the occurrences.
  pub bucket : List (String × ℕ) → Option String → List (String × ℕ)
  bucket counts none = counts
  bucket counts (some date) = add_on counts date

  pub bucket_all : List (String × ℕ) → List ListedOccurrence → List (String × ℕ)
  bucket_all counts [] = counts
  bucket_all counts (o ∷ os) = bucket_all (bucket counts (local_date o)) os

  module _ {R : Type 0} (store : TaskDatabase R) where
    open store use {tasks, exception_store, now}

    -- The options that the counts are read with.
    pub counted_options : Option String → Bool → FindOccurrencesOptions
    counted_options calendar_id include_completed = record {
      calendar_id = calendar_id;
      group_id = none;
      include_completed = include_completed;
      include_todos = false;
    }

    pub get_daily_counts :
        R → String → Instant → Instant → Option String → Bool → Outcome (List (String × ℕ))
    get_daily_counts r user_id from to calendar_id include_completed = do
      occurrences ←
          find_occurrences_in_range luxon store r user_id from to
            (counted_options calendar_id include_completed)
      resolved (bucket_all [] occurrences)

    -- Without the order that the query asks for.
    pub find_in_range : R → String → String → Instant → Instant → Outcome (List TaskRow)
    find_in_range r user_id calendar_id from to = do
      require (ltb from to) bad_request
      ensure_calendar_owned_by_user store r calendar_id user_id
      resolved (
          tasks.find_all r (λ row.
            str_eq row.calendar_id calendar_id
            && from_on from row.start_at
            && before to row.start_at))

    module _ (updated_at : R → TaskRow → Instant)
        (deleted_rows : R → (TaskRow → Bool) → List TaskRow) where
      -- What changed since the cursor, less the lag. `updated_at` is the column that the database
      -- keeps, and `deleted_rows` the query that also sees rows that are deleted softly.
      pub changes_since : R → String → Instant → Bool → ChangedSince
      changes_since r calendar_id since include_todos =
          let effective = since - delta_overlap_lag_ms in
          record {
            tasks = tasks.find_all r (λ row.
                str_eq row.calendar_id calendar_id
                && ltb effective (updated_at r row)
                && (include_todos || not (is_null row.start_at)));
            deleted =
                map (λ row. row.id)
                  (deleted_rows r
                    (λ row. str_eq row.calendar_id calendar_id && after effective row.deleted_at));
            exceptions =
                find_changed_for_tasks exception_store r
                  (map (λ row. row.id)
                    (tasks.find_all r (λ row. str_eq row.calendar_id calendar_id)))
                  effective;
            server_time = now r;
          }

      pub find_changed_since :
          R → String → String → Option Instant → Option Bool → Outcome ChangedSince
      find_changed_since r user_id calendar_id since include_todos = do
        ensure_calendar_owned_by_user store r calendar_id user_id
        resolved (elim since [
          | none ↦ record { tasks = []; deleted = []; exceptions = []; server_time = now r }
          | some cursor ↦ changes_since r calendar_id cursor (get_or include_todos true)
        ])
