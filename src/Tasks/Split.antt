-- ===== src/Tasks/Split.antt =====
-- modules/task/task.service.ts: splitSeries and endSeriesAt.
pub mod Count
mod Examples
use text.Mathlib.Text.{◌==◌ as str_eq}
use cue_api.Common.{
  ℕ, ◌-◌, ltb, ◌==◌, String, Bool, true, false, not, ◌&&◌, ◌||◌, Option, none, some, List, [], ◌∷◌,
  if◌then◌else◌, get_or, or_else, length,
}
use cue_api.Recurrence.Types.{
  Instant, RecurrenceConfig, RecurrenceSource, RecurrenceEndType, until_date,
}
use cue_api.Recurrence.Types
use cue_api.Recurrence.Luxon.{Luxon}
use cue_api.Recurrence.Expand.{Span, after_span, expand_occurrences, CreateRecurrenceRuleDto}
use cue_api.Tasks.Types.{TaskRow, ExceptionRow, anchor_of, Outcome, resolved, rejected, ◌>>=◌, ◌>>◌}
use cue_api.Tasks.Exceptions.{OccurrenceOverrideChanges, find_for_task}
use cue_api.Tasks.Store.{TaskDatabase, ReminderInput, is_null, group_of}
use cue_api.Tasks.Overlap.{parse_wall_clock_in_zone, find_by_id_with_rule}
use cue_api.Tasks.Rule.{sweep_override_children}
use cue_api.Tasks.Completion.{delete_remove, upsert, remove}
use cue_api.Tasks.Update.{UpdateTaskInput, update, parse_given, ensure_given_group}
use cue_api.Tasks.Override.{duration_millis, end_after}

pub record SplitSeriesChanges : Type 0 where
  pub title : Option String
  pub notes : Option (Option String)
  pub start_at : Option (Option String)
  pub end_at : Option (Option String)
  pub group_id : Option (Option String)
  pub requires_completion : Option (Option Bool)
  pub color : Option (Option String)
  pub is_all_day : Option Bool
  pub timezone : Option String
  pub recurrence : Option CreateRecurrenceRuleDto

-- `changes.recurrence !== undefined ? { recurrence } : {}`
pub rule_input : Option CreateRecurrenceRuleDto → Option (Option CreateRecurrenceRuleDto)
rule_input none = none
rule_input (some dto) = some (some dto)

pub split_changes_as_update : SplitSeriesChanges → UpdateTaskInput
split_changes_as_update changes = record {
  title = changes.title;
  notes = changes.notes;
  start_at = changes.start_at;
  end_at = changes.end_at;
  is_all_day = changes.is_all_day;
  timezone = changes.timezone;
  requires_completion = changes.requires_completion;
  color = changes.color;
  icon = none;
  group_id = changes.group_id;
  recurrence = rule_input changes.recurrence;
  reminders = none;
}

-- A value that the changes give, over the old one.
pub over {ℓ} : {A : Type ℓ} → Option A → Option A → Option A
over none old = old
over (some new) old = some new

pub clone_config_with_overrides :
    RecurrenceConfig → Option CreateRecurrenceRuleDto → RecurrenceConfig
clone_config_with_overrides config none = config
clone_config_with_overrides config (some dto) = record config {
  frequency = dto.frequency;
  interval = get_or dto.interval config.interval;
  by_weekday = over dto.by_weekday config.by_weekday;
  by_month_day = over dto.by_month_day config.by_month_day;
  by_month = over dto.by_month config.by_month;
  end_type = get_or dto.end_type config.end_type;
  end_date = over dto.end_date config.end_date;
  count = over dto.count config.count;
}

-- `oldConfig.endType === COUNT && oldConfig.count !== null`, and the count.
pub count_rule : RecurrenceConfig → Option ℕ
count_rule config = elim config.end_type [ Types.count ↦ config.count | _ ↦ none ]

-- `overrides?.count`
pub count_override : Option CreateRecurrenceRuleDto → Option ℕ
count_override none = none
count_override (some dto) = dto.count

-- The cloned rule, with the rest of the count where the old rule has one and the changes give none.
pub recounted : RecurrenceConfig → Option ℕ → Option ℕ → ℕ → RecurrenceConfig
recounted cloned none given before = cloned
recounted cloned (some total) (some count) before = cloned
recounted cloned (some total) none before = record cloned { count = some (total - before) }

-- `startAt !== null && startAt.getTime() === originalStart.getTime()`
unfoldable pub starts_at : TaskRow → Instant → Bool
starts_at task slot = elim task.start_at [ none ↦ false | some start ↦ start == slot ]

module _ (luxon : Luxon) where
  open luxon use {from_js_date, minus_days, to_iso_date}

  pub day_before : Instant → String → Option String
  day_before instant zone = elim (from_js_date instant zone) [
    | none ↦ none
    | some t ↦ some (to_iso_date (minus_days t 1))
  ]

  -- The rule that ends the day before the slot.
  pub truncated_rule : RecurrenceConfig → Instant → String → RecurrenceConfig
  truncated_rule config slot zone = record config {
    end_type = until_date;
    end_date = day_before slot zone;
  }

  pub resolve_split_end_at :
      Option (Option String) → Instant → Option Span → String → Option Instant
  resolve_split_end_at none start duration zone = end_after duration start none
  resolve_split_end_at (some end) start duration zone = parse_given luxon end zone

  -- `changes.startAt ? (parseWallClockInZone(changes.startAt, zone) ?? originalStart) : originalStart`
  pub resolve_split_start_at : Option (Option String) → Instant → String → Instant
  resolve_split_start_at none slot zone = slot
  resolve_split_start_at (some start) slot zone = get_or (parse_given luxon start zone) slot

  module _ {R : Type 0} (store : TaskDatabase R) where
    open store use {tasks, exception_store, now, bump, new_task_id}

    pub count_occurrences_before : R → TaskRow → RecurrenceConfig → Instant → ℕ
    count_occurrences_before r task config slot = elim task.start_at [
      | none ↦ 0
      | some start ↦ length (
          expand_occurrences luxon (anchor_of (group_of store r task) task) config [] (start - 1)
            slot RecurrenceSource.task)
    ]

    pub resolve_split_recurrence :
        R → TaskRow → RecurrenceConfig → Instant → Option CreateRecurrenceRuleDto → RecurrenceConfig
    resolve_split_recurrence r task config slot overrides =
        recounted (clone_config_with_overrides config overrides) (count_rule config)
          (count_override overrides) (count_occurrences_before r task config slot)

    pub copied_exception : ExceptionRow → OccurrenceOverrideChanges
    copied_exception e = record {
      override_start_at = some e.override_start_at;
      override_end_at = some e.override_end_at;
      override_title = some e.override_title;
      is_skipped = some e.is_skipped;
      completed_at = some e.completed_at;
    }

    unfoldable pub copy_all : R → String → Instant → List ExceptionRow → R
    copy_all r new_id split_start [] = r
    copy_all r new_id split_start (e ∷ es) =
        copy_all
          (if ltb e.original_start_at split_start
            then r
            else (upsert store r new_id e.original_start_at (copied_exception e)).0)
          new_id split_start es

    unfoldable pub copy_exceptions_from : R → String → String → Instant → R
    copy_exceptions_from r old_id new_id split_start =
        copy_all r new_id split_start (find_for_task exception_store r old_id)

    unfoldable pub truncated_row : R → TaskRow → RecurrenceConfig → Instant → TaskRow
    truncated_row r task config slot = record task {
      recurrence_config = some (truncated_rule config slot task.timezone);
      recurrence_updated_at = some (now r);
    }

    -- The series from the slot on.
    unfoldable pub split_row :
        R → TaskRow → RecurrenceConfig → Instant → SplitSeriesChanges → TaskRow
    split_row r task config slot changes =
        let zone = get_or changes.timezone task.timezone in
        let start = resolve_split_start_at changes.start_at slot zone in
        record {
          id = new_task_id r;
          calendar_id = task.calendar_id;
          group_id = get_or changes.group_id task.group_id;
          title = get_or changes.title task.title;
          notes = get_or changes.notes task.notes;
          start_at = some start;
          end_at = resolve_split_end_at changes.end_at start (duration_millis task) zone;
          is_all_day = get_or changes.is_all_day task.is_all_day;
          timezone = zone;
          requires_completion = get_or changes.requires_completion task.requires_completion;
          color = get_or changes.color task.color;
          icon = none;
          completed_at = none;
          notification_strategy_id = task.notification_strategy_id;
          recurrence_config = some config;
          parent_task_id = none;
          original_start_at = none;
          detached_at = none;
          recurrence_updated_at = none;
          deleted_at = none;
        }

    -- What follows the checks of `splitSeries`.
    unfoldable pub split_at :
        R → String → TaskRow → RecurrenceConfig → Instant → SplitSeriesChanges → R × TaskRow
    split_at r user_id task config slot changes =
        let old = truncated_row r task config slot in
        let new_config = resolve_split_recurrence r task config slot changes.recurrence in
        let r' = tasks.save r old in
        let row = split_row r' task new_config slot changes in
        let r'' = copy_exceptions_from (tasks.save r' row) task.id row.id slot in
        (bump (sweep_override_children luxon store r'' old old.recurrence_config) user_id, row)

    -- `if (changes.groupId)`
    pub group_change : Option (Option String) → Option String
    group_change none = none
    group_change (some id) = id

    unfoldable pub split_series :
        R → String → String → Instant → SplitSeriesChanges → Outcome (R × TaskRow)
    split_series r user_id task_id slot changes =
        find_by_id_with_rule luxon store r user_id task_id >>= λ task. elim task.recurrence_config [
          | none ↦ update luxon store r user_id task_id (split_changes_as_update changes)
          | some config ↦
              if starts_at task slot
              then update luxon store r user_id task_id (split_changes_as_update changes)
              else ensure_given_group luxon store r (group_change changes.group_id) task.calendar_id
                >> resolved (split_at r user_id task config slot changes)
        ]

    -- What follows the checks of `endSeriesAt`.
    unfoldable pub end_at_slot : R → String → TaskRow → RecurrenceConfig → Instant → R
    end_at_slot r user_id task config slot =
        let old = truncated_row r task config slot in
        bump (sweep_override_children luxon store (tasks.save r old) old old.recurrence_config)
          user_id

    unfoldable pub end_series_at : R → String → String → Instant → Outcome R
    end_series_at r user_id task_id slot =
        find_by_id_with_rule luxon store r user_id task_id >>= λ task. elim task.recurrence_config [
          | none ↦ remove store r user_id task_id delete_remove
          | some config ↦
              if starts_at task slot
              then remove store r user_id task_id delete_remove
              else resolved (end_at_slot r user_id task config slot)
        ]
