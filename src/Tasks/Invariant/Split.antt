-- ===== src/Tasks/Invariant/Split.antt =====
-- Split.antt: a split and an early end of a series keep the rows sound.
use text.Mathlib.Text.{◌==◌ as str_eq}
use cue_api.Common.{
  ◌≡◌, inl, inr, refl, sym, ◌∙◌, ltb, String, Bool, true, false, Option, none, some, List, [], ◌∷◌,
  if◌then◌else◌, Bool-cases,
}
use cue_api.Recurrence.Types.{Instant, RecurrenceConfig}
use cue_api.Recurrence.Luxon.{Luxon}
use cue_api.Tasks.Types.{TaskRow, ExceptionRow, resolved, ◌>>◌}
use cue_api.Tasks.Store.{TaskDatabase}
use cue_api.Tasks.Overlap.{find_by_id_with_rule}
use cue_api.Tasks.Laws.{StoreLaws, Holds, Holds-bind, Holds-then}
use cue_api.Tasks.Completion.{delete_remove, upsert, remove}
use cue_api.Tasks.Update.{update, ensure_given_group}
use cue_api.Tasks.Split.{
  SplitSeriesChanges, split_changes_as_update, starts_at, copied_exception, copy_all,
  copy_exceptions_from, truncated_row, split_row, split_at, group_change, split_series, end_at_slot,
  end_series_at,
}
use cue_api.Tasks.Invariant.{Sound, AllSound, save-AllSound, checked_row-Sound}
use cue_api.Tasks.Invariant.Completion.{
  bump-AllSound, upsert-AllSound, sweep-AllSound, remove-AllSound,
}
use cue_api.Tasks.Invariant.Update.{update-AllSound}

module _ (luxon : Luxon) {R : Type 0} (store : TaskDatabase R) (laws : StoreLaws store) where
  open store use {tasks, exception_store}

  abbrev Keeps : R × TaskRow → Type 0
  Keeps out = AllSound store out.0

  -- A row with a rule is no child.
  recurs-Sound :
      (task : TaskRow) (c : RecurrenceConfig)
      → task.recurrence_config ≡ some c
      → Sound task
      → task.parent_task_id ≡ none
  recurs-Sound task c e (inl p) = p
  recurs-Sound task c e (inr (rule, slot)) = absurd (none-not c (sym rule ∙ e))
    where
      none-not : (x : RecurrenceConfig) → none ≡ some x → ⊥
      none-not x h = cc

  found_with_rule-Sound :
      (r : R) (user_id id : String)
      → AllSound store r
      → Holds Sound (find_by_id_with_rule luxon store r user_id id)
  unfolding find_by_id_with_rule
  found_with_rule-Sound r user_id id inv =
      checked_row-Sound store laws r user_id (λ row. str_eq row.id id)
        (tasks.find_one r (λ row. str_eq row.id id)) inv refl

  copy_all-AllSound :
      (r : R) (new_id : String) (start : Instant) (es : List ExceptionRow)
      → AllSound store r
      → AllSound store (copy_all luxon store r new_id start es)
  unfolding copy_all
  copy_all-AllSound r new_id start [] inv = inv
  copy_all-AllSound r new_id start (e ∷ es) inv =
      copy_all-AllSound
        (if ltb e.original_start_at start
          then r
          else (upsert store r new_id e.original_start_at (copied_exception luxon store e)).0)
        new_id start es (one (ltb e.original_start_at start))
    where
      one :
          (b : Bool)
          → AllSound store (
              if b
              then r
              else (upsert store r new_id e.original_start_at (copied_exception luxon store e)).0)
      one true = inv
      one false = upsert-AllSound store laws r new_id e.original_start_at _ inv

  split_at-AllSound :
      (r : R) (user_id : String) (task : TaskRow) (config : RecurrenceConfig) (slot : Instant)
      (changes : SplitSeriesChanges)
      → AllSound store r
      → task.parent_task_id ≡ none
      → AllSound store (split_at luxon store r user_id task config slot changes).0
  unfolding split_at copy_exceptions_from truncated_row split_row
  split_at-AllSound r user_id task config slot changes inv p = bump-AllSound store laws _ user_id (
      sweep-AllSound store laws luxon _ _ _ (
        copy_all-AllSound _ _ slot _ (
          save-AllSound store laws _ _
            (save-AllSound store laws r (truncated_row luxon store r task config slot) inv (inl p))
            (inl refl))))

  pub split_series-AllSound :
      (r : R) (user_id id : String) (slot : Instant) (changes : SplitSeriesChanges)
      → AllSound store r
      → Holds Keeps (split_series luxon store r user_id id slot changes)
  unfolding split_series
  split_series-AllSound r user_id id slot changes inv =
      Holds-bind Sound Keeps (find_by_id_with_rule luxon store r user_id id) _
        (found_with_rule-Sound r user_id id inv) (λ task s. go task s task.recurrence_config refl)
    where
      changed : Holds Keeps (update luxon store r user_id id (split_changes_as_update changes))
      changed = update-AllSound luxon store laws r user_id id (split_changes_as_update changes) inv

      go :
          (task : TaskRow)
          → Sound task
          → (rule : Option RecurrenceConfig) → task.recurrence_config ≡ rule
          → Holds Keeps (elim rule [
            | none ↦ update luxon store r user_id id (split_changes_as_update changes)
            | some config ↦
                if starts_at task slot
                then update luxon store r user_id id (split_changes_as_update changes)
                else ensure_given_group luxon store r
                    (group_change luxon store changes.group_id)
                    task.calendar_id
                  >> resolved (split_at luxon store r user_id task config slot changes)
          ])
      go task s none e = changed
      go task s (some config) e = elim (Bool-cases (starts_at task slot)) [
        | inl k ↦ rw k changed
        | inr k ↦ rw k (
            Holds-then Keeps
              (ensure_given_group luxon store r (group_change luxon store changes.group_id)
                task.calendar_id)
              (resolved (split_at luxon store r user_id task config slot changes))
              (split_at-AllSound r user_id task config slot changes inv
                (recurs-Sound task config e s)))
      ]

  pub end_series_at-AllSound :
      (r : R) (user_id id : String) (slot : Instant)
      → AllSound store r
      → Holds (AllSound store) (end_series_at luxon store r user_id id slot)
  unfolding end_series_at end_at_slot truncated_row
  end_series_at-AllSound r user_id id slot inv =
      Holds-bind Sound (AllSound store) (find_by_id_with_rule luxon store r user_id id) _
        (found_with_rule-Sound r user_id id inv) (λ task s. go task s task.recurrence_config refl)
    where
      go :
          (task : TaskRow)
          → Sound task
          → (rule : Option RecurrenceConfig) → task.recurrence_config ≡ rule
          → Holds (AllSound store) (elim rule [
            | none ↦ remove store r user_id id delete_remove
            | some config ↦
                if starts_at task slot
                then remove store r user_id id delete_remove
                else resolved (end_at_slot luxon store r user_id task config slot)
          ])
      go task s none e = remove-AllSound store laws r user_id id delete_remove inv
      go task s (some config) e = elim (Bool-cases (starts_at task slot)) [
        | inl k ↦ rw k (remove-AllSound store laws r user_id id delete_remove inv)
        | inr k ↦ rw k (
            bump-AllSound store laws _ user_id (
              sweep-AllSound store laws luxon _ _ _ (
                save-AllSound store laws r (truncated_row luxon store r task config slot) inv
                  (inl (recurs-Sound task config e s)))))
      ]
