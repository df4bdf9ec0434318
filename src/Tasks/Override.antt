-- ===== src/Tasks/Override.antt =====
-- modules/task/task.service.ts: the override of one occurrence, as an exception or as a child row.
use text.Mathlib.Text.{◌==◌ as str_eq}
use cue_api.Common.{
  String, Bool, false, not, ◌||◌, Option, none, some, List, [], ◌∷◌, if◌then◌else◌, get_or, or_else,
}
use cue_api.Recurrence.Types.{Instant}
use cue_api.Recurrence.Luxon.{Luxon}
use cue_api.Recurrence.Expand.{Span, after_span, duration_of}
use cue_api.Tasks.Types.{
  TaskRow, ExceptionRow, Outcome, resolved, rejected, not_found, bad_request, conflict, require,
  ◌>>=◌, ◌>>◌,
}
use cue_api.Tasks.Exceptions.{OccurrenceOverrideChanges, find_override, delete_for_slot}
use cue_api.Tasks.Store.{
  TaskDatabase, ReminderInput, is_null, ensure_calendar_owned_by_user, find_by_id,
}
use cue_api.Tasks.Rule.{child_at, generates, resolve_effective_config_for_task}
use cue_api.Tasks.Completion.{delete_remove, upsert, remove, set_completed}
use cue_api.Tasks.Update.{UpdateTaskInput, update}

pub record CreateOverrideInput : Type 0 where
  pub title : Option String
  pub notes : Option (Option String)
  pub start_at : Option (Option String)
  pub end_at : Option (Option String)
  pub is_all_day : Option Bool
  pub timezone : Option String
  pub requires_completion : Option (Option Bool)
  pub color : Option (Option String)
  pub icon : Option (Option String)
  pub group_id : Option (Option String)
  pub reminders : Option (List ReminderInput)

-- The patch as the input of `update`.
pub patch_input : CreateOverrideInput → UpdateTaskInput
patch_input patch = record {
  title = patch.title;
  notes = patch.notes;
  start_at = patch.start_at;
  end_at = patch.end_at;
  is_all_day = patch.is_all_day;
  timezone = patch.timezone;
  requires_completion = patch.requires_completion;
  color = patch.color;
  icon = patch.icon;
  group_id = patch.group_id;
  recurrence = none;
  reminders = patch.reminders;
}

pub is_override_mutation : OccurrenceOverrideChanges → Bool
is_override_mutation changes =
    not (is_null changes.override_start_at)
    || not (is_null changes.override_end_at)
    || not (is_null changes.override_title)

-- `startAt && endAt ? endAt - startAt : null`
pub duration_millis : TaskRow → Option Span
duration_millis row = elim row.start_at [ none ↦ none | some start ↦ duration_of start row.end_at ]

-- `durationMillis !== null ? start + durationMillis : otherwise`
pub end_after : Option Span → Instant → Option Instant → Option Instant
end_after none start otherwise = otherwise
end_after (some span) start otherwise = some (after_span start span)

-- The end of the child, after an exception with these overrides.
pub absorbed_end : Option Span → Option Instant → ExceptionRow → Option Instant
absorbed_end duration current e = elim e.override_start_at [
  | none ↦ or_else e.override_end_at current
  | some start ↦ or_else e.override_end_at (end_after duration start current)
]

unfoldable pub absorbed : TaskRow → TaskRow → ExceptionRow → TaskRow
absorbed child parent e = record child {
  start_at = or_else e.override_start_at child.start_at;
  end_at = absorbed_end (duration_millis parent) child.end_at e;
  title = get_or e.override_title child.title;
  completed_at = or_else e.completed_at child.completed_at;
}

module _ (luxon : Luxon) {R : Type 0} (store : TaskDatabase R)
    -- `date.toISOString()`, which the collapse of an override passes on as an input.
    (to_iso_string : Instant → String) where
  open store use {tasks, exception_store, bump, reminders_of, create_reminders, new_task_id}

  -- A first override: the copy of the series at the slot.
  unfoldable pub snapshot : R → TaskRow → Instant → TaskRow
  snapshot r parent slot = record {
    id = new_task_id r;
    calendar_id = parent.calendar_id;
    group_id = parent.group_id;
    title = parent.title;
    notes = parent.notes;
    start_at = some slot;
    end_at = end_after (duration_millis parent) slot none;
    is_all_day = parent.is_all_day;
    timezone = parent.timezone;
    requires_completion = parent.requires_completion;
    color = parent.color;
    icon = parent.icon;
    completed_at = none;
    notification_strategy_id = parent.notification_strategy_id;
    recurrence_config = none;
    parent_task_id = some parent.id;
    original_start_at = some slot;
    detached_at = none;
    recurrence_updated_at = none;
    deleted_at = none;
  }

  unfoldable pub copied_reminders : R → String → List ReminderInput → R
  copied_reminders r id [] = r
  copied_reminders r id (x ∷ xs) = create_reminders r id (x ∷ xs)

  -- The child of the slot, made if there is none.
  unfoldable pub child_for : R → TaskRow → Instant → Outcome (R × TaskRow)
  child_for r parent slot = elim (tasks.find_one r (child_at parent.id slot)) [
    | some child ↦ resolved (r, child)
    | none ↦
        let child = snapshot r parent slot in
        require
          (generates luxon store r parent (resolve_effective_config_for_task luxon store r parent)
            slot)
          bad_request
        >> resolved (
          copied_reminders (tasks.save r child) child.id
              (reminders_of (tasks.save r child) parent.id),
          child,
        )
  ]

  unfoldable pub absorb_exception_into : R → TaskRow → TaskRow → Instant → R
  absorb_exception_into r child parent slot =
      elim (find_override exception_store r parent.id slot) [
        | none ↦ r
        | some e ↦
            delete_for_slot exception_store (tasks.save r (absorbed child parent e)) parent.id slot
      ]

  unfoldable pub override_of :
      R → String → TaskRow → Instant → CreateOverrideInput → Outcome (R × TaskRow)
  override_of r user_id parent slot patch = do
    (r', child) ← child_for r parent slot
    (r'', row) ←
        update luxon store
          (exception_store.touch_updated_at (absorb_exception_into r' child parent slot) parent.id)
          user_id child.id (patch_input patch)
    resolved (bump r'' user_id, row)

  unfoldable pub create_or_update_override :
      R → String → String → Instant → CreateOverrideInput → Outcome (R × TaskRow)
  create_or_update_override r user_id parent_id slot patch =
      elim (tasks.find_one r (λ row. str_eq row.id parent_id)) [
        | none ↦ rejected not_found
        | some parent ↦
            ensure_calendar_owned_by_user store r parent.calendar_id user_id
            >> require (is_null parent.parent_task_id) bad_request
            >> override_of r user_id parent slot patch
      ]

  -- `changes.overrideStartAt !== undefined ? { startAt: …?.toISOString() ?? null } : {}`
  pub iso_input : Option (Option Instant) → Option (Option String)
  iso_input none = none
  iso_input (some none) = some none
  iso_input (some (some at)) = some (some (to_iso_string at))

  -- `changes.overrideTitle != null ? { title } : {}`
  pub title_input : Option (Option String) → Option String
  title_input none = none
  title_input (some title) = title

  pub collapsed_input : OccurrenceOverrideChanges → UpdateTaskInput
  collapsed_input changes = record {
    title = title_input changes.override_title;
    notes = none;
    start_at = iso_input changes.override_start_at;
    end_at = iso_input changes.override_end_at;
    is_all_day = none;
    timezone = none;
    requires_completion = none;
    color = none;
    icon = none;
    group_id = none;
    recurrence = none;
    reminders = none;
  }

  unfoldable pub collapse_override_to_master :
      R → String → String → OccurrenceOverrideChanges → Outcome R
  collapse_override_to_master r user_id task_id changes =
      if get_or changes.is_skipped false
      then remove store r user_id task_id delete_remove
      else update luxon store r user_id task_id (collapsed_input changes) >>= λ (r', row).
          elim changes.completed_at [
            | none ↦ resolved r'
            | some at ↦ set_completed store r' user_id task_id (not (is_null at)) >>= λ (r'', done).
                resolved r''
          ]

  unfoldable pub apply_occurrence_override :
      R → String → String → Instant → OccurrenceOverrideChanges → Outcome R
  apply_occurrence_override r user_id task_id slot changes =
      find_by_id store r user_id task_id >>= λ task.
      if is_null task.recurrence_config
      then collapse_override_to_master r user_id task_id changes
      else require (is_null (tasks.find_one r (child_at task_id slot))) conflict
        >> require
            (not (is_override_mutation changes)
              || generates luxon store r task task.recurrence_config slot)
            bad_request
        >> resolved (bump (upsert store r task_id slot changes).0 user_id)
