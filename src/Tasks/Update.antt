-- ===== src/Tasks/Update.antt =====
-- modules/task/task.service.ts: create and update. A key of an input is none where it is absent
-- (`undefined`), and `some none` where it is null.
use text.Mathlib.Text.{◌==◌ as str_eq}
use cue_api.Common.{
  ltb, String, Bool, true, false, not, ◌&&◌, ◌||◌, Option, none, some, List, [], ◌∷◌, if◌then◌else◌,
  get_or,
}
use cue_api.Recurrence.Types.{Instant, RecurrenceConfig}
use cue_api.Recurrence.Luxon.{Luxon}
use cue_api.Recurrence.Expand.{CreateRecurrenceRuleDto, to_config}
use cue_api.Tasks.Types.{TaskRow, Outcome, resolved, bad_request, require, ◌>>=◌, ◌>>◌}
use cue_api.Tasks.Exceptions.{dates_equal, texts_equal, bools_equal}
use cue_api.Tasks.Store.{
  TaskDatabase, ReminderInput, is_null, ensure_calendar_owned_by_user, ensure_group_in_calendar,
  find_by_id,
}
use cue_api.Tasks.Overlap.{parse_wall_clock_in_zone}
use cue_api.Tasks.Rule.{resolve_effective_config_for_task, sweep_override_children}

pub record CreateTaskDto : Type 0 where
  pub calendar_id : String
  pub group_id : Option String
  pub title : String
  pub notes : Option String
  pub start_at : Option String
  pub end_at : Option String
  pub is_all_day : Option Bool
  pub timezone : String
  pub requires_completion : Option Bool
  pub color : Option String
  pub icon : Option String
  pub recurrence : Option CreateRecurrenceRuleDto
  pub reminders : Option (List ReminderInput)

pub record UpdateTaskInput : Type 0 where
  pub title : Option String
  pub notes : Option (Option String)
  pub start_at : Option (Option String)
  pub end_at : Option (Option String)
  pub is_all_day : Option Bool
  pub timezone : Option String
  pub requires_completion : Option (Option Bool)
  pub color : Option (Option String)
  pub icon : Option (Option String)
  pub group_id : Option (Option String)
  pub recurrence : Option (Option CreateRecurrenceRuleDto)
  pub reminders : Option (List ReminderInput)

-- `startAt && endAt && endAt.getTime() < startAt.getTime()`
pub ends_before_start : Option Instant → Option Instant → Bool
ends_before_start none end = false
ends_before_start (some start) none = false
ends_before_start (some start) (some end) = ltb end start

-- `===` on nullable Booleans.
abbrev flags_equal : Option Bool → Option Bool → Bool
flags_equal none none = true
flags_equal none (some b) = false
flags_equal (some a) none = false
flags_equal (some a) (some b) = bools_equal a b

-- `dto.recurrence ? toConfig(dto.recurrence) : null`
abbrev pub config_of : Option CreateRecurrenceRuleDto → Option RecurrenceConfig
config_of none = none
config_of (some dto) = some (to_config dto)

-- The rule after the update, and whether the update changes it.
unfoldable pub apply_recurrence_update :
    Option RecurrenceConfig
    → Option (Option CreateRecurrenceRuleDto)
    → Option RecurrenceConfig × Bool
apply_recurrence_update current none = (current, false)
apply_recurrence_update current (some none) = (none, not (is_null current))
apply_recurrence_update current (some (some dto)) = (some (to_config dto), true)

-- `input.recurrence != null`
abbrev pub gives_rule : Option (Option CreateRecurrenceRuleDto) → Bool
gives_rule none = false
gives_rule (some none) = false
gives_rule (some (some dto)) = true

module _ (luxon : Luxon) where
  -- `input ? parseWallClockInZone(input, zone) : null`
  pub parse_given : Option String → String → Option Instant
  parse_given none zone = none
  parse_given (some text) zone = parse_wall_clock_in_zone luxon text zone

  pub resolve_next_date : Option (Option String) → Option Instant → String → Option Instant
  resolve_next_date none current zone = current
  resolve_next_date (some input) current zone = parse_given input zone

  -- The row with the fields of the input, apart from its rule.
  unfoldable pub next_row : TaskRow → UpdateTaskInput → TaskRow
  next_row task input =
      let zone = get_or input.timezone task.timezone in
      record task {
        title = get_or input.title task.title;
        notes = get_or input.notes task.notes;
        group_id = get_or input.group_id task.group_id;
        is_all_day = get_or input.is_all_day task.is_all_day;
        timezone = zone;
        requires_completion = get_or input.requires_completion task.requires_completion;
        color = get_or input.color task.color;
        icon = get_or input.icon task.icon;
        start_at = resolve_next_date input.start_at task.start_at zone;
        end_at = resolve_next_date input.end_at task.end_at zone;
      }

  -- The differences that rekey a series.
  pub rekeys : TaskRow → TaskRow → Bool
  rekeys task next =
      not (dates_equal next.start_at task.start_at)
      || not (str_eq next.timezone task.timezone)
      || not (bools_equal next.is_all_day task.is_all_day)
      || not (texts_equal next.group_id task.group_id)

  pub has_field_changes : TaskRow → TaskRow → Bool
  has_field_changes task next =
      not (str_eq next.title task.title)
      || not (texts_equal next.notes task.notes)
      || rekeys task next
      || not (flags_equal next.requires_completion task.requires_completion)
      || not (texts_equal next.color task.color)
      || not (texts_equal next.icon task.icon)
      || not (dates_equal next.end_at task.end_at)

  module _ {R : Type 0} (store : TaskDatabase R) where
    open store use {
      tasks, exception_store, now, bump, create_reminders, replace_reminders, new_task_id,
    }

    -- The group of the input, where it is one that differs.
    pub ensure_new_group : R → TaskRow → Option (Option String) → Outcome (Unit {0})
    ensure_new_group r task none = resolved tt
    ensure_new_group r task (some none) = resolved tt
    ensure_new_group r task (some (some id)) =
        if texts_equal (some id) task.group_id
        then resolved tt
        else ensure_group_in_calendar store r id task.calendar_id

    -- `if (dto.groupId)`
    pub ensure_given_group : R → Option String → String → Outcome (Unit {0})
    ensure_given_group r none calendar_id = resolved tt
    ensure_given_group r (some id) calendar_id =
        if str_eq id "" then resolved tt else ensure_group_in_calendar store r id calendar_id

    -- `reminders && reminders.length > 0`
    unfoldable pub with_reminders : R → String → Option (List ReminderInput) → R
    with_reminders r id none = r
    with_reminders r id (some []) = r
    with_reminders r id (some (x ∷ xs)) = create_reminders r id (x ∷ xs)

    unfoldable pub created_row : R → CreateTaskDto → Option Instant → Option Instant → TaskRow
    created_row r dto start end = record {
      id = new_task_id r;
      calendar_id = dto.calendar_id;
      group_id = dto.group_id;
      title = dto.title;
      notes = dto.notes;
      start_at = start;
      end_at = end;
      is_all_day = get_or dto.is_all_day false;
      timezone = dto.timezone;
      requires_completion = dto.requires_completion;
      color = dto.color;
      icon = dto.icon;
      completed_at = none;
      notification_strategy_id = none;
      recurrence_config = config_of dto.recurrence;
      parent_task_id = none;
      original_start_at = none;
      detached_at = none;
      recurrence_updated_at = none;
      deleted_at = none;
    }

    unfoldable pub create : R → String → CreateTaskDto → Outcome (R × TaskRow)
    create r user_id dto =
        let start = parse_given dto.start_at dto.timezone in
        let end = parse_given dto.end_at dto.timezone in
        let row = created_row r dto start end in
        ensure_calendar_owned_by_user store r dto.calendar_id user_id
        >> require (not (ends_before_start start end)) bad_request
        >> require (is_null dto.recurrence || not (is_null start)) bad_request
        >> ensure_given_group r dto.group_id dto.calendar_id
        >> resolved (bump (with_reminders (tasks.save r row) row.id dto.reminders) user_id, row)

    unfoldable pub replaced_reminders : R → String → Option (List ReminderInput) → R
    replaced_reminders r id none = r
    replaced_reminders r id (some inputs) = replace_reminders r id inputs

    -- The sweep, where the inputs of the rule changed.
    unfoldable pub swept : R → TaskRow → Bool → R
    swept r task true =
        sweep_override_children luxon store r task
          (resolve_effective_config_for_task luxon store r task)
    swept r task false = r

    -- The row that is saved: the fields of the input, the rule, and the time of a change of the rule.
    unfoldable pub updated_row : R → TaskRow → UpdateTaskInput → TaskRow
    updated_row r task input =
        let next = next_row task input in
        let (config, recurrence_changed) =
          apply_recurrence_update task.recurrence_config input.recurrence in
        let rekeyed = is_null task.parent_task_id && (recurrence_changed || rekeys task next) in
        record (if has_field_changes task next then next else task) {
          recurrence_config = config;
          recurrence_updated_at = if rekeyed then some (now r) else task.recurrence_updated_at;
        }

    -- What follows the checks of `update`.
    unfoldable pub updated : R → String → TaskRow → UpdateTaskInput → R × TaskRow
    updated r user_id task input =
        let next = next_row task input in
        let recurrence_changed =
          (apply_recurrence_update task.recurrence_config input.recurrence).1 in
        let rekeyed = is_null task.parent_task_id && (recurrence_changed || rekeys task next) in
        let r' = replaced_reminders r task.id input.reminders in
        let row = updated_row r' task input in
        (
          if has_field_changes task next || recurrence_changed || rekeyed
              then swept (bump (tasks.save r' row) user_id) row rekeyed
              else if not (is_null input.reminders)
              then swept (bump (exception_store.touch_updated_at r' task.id) user_id) row rekeyed
              else swept r' row rekeyed,
          row,
        )

    unfoldable pub update : R → String → String → UpdateTaskInput → Outcome (R × TaskRow)
    update r user_id task_id input = find_by_id store r user_id task_id >>= λ task.
        let next = next_row task input in
        require (is_null task.parent_task_id || not (gives_rule input.recurrence)) bad_request
        >> require (not (ends_before_start next.start_at next.end_at)) bad_request
        >> ensure_new_group r task input.group_id
        >> resolved (updated r user_id task input)
