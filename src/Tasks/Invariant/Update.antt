-- ===== src/Tasks/Invariant/Update.antt =====
-- Update.antt: a creation and an update keep the rows sound.
use mathlib.Core.Bool.{true≢false}
use cue_api.Common.{
  ◌≡◌, ◌⊎◌, inl, inr, refl, String, Bool, true, false, not, ◌&&◌, ◌||◌, Option, none, some, List,
  [], ◌∷◌, Bool-cases, arith,
}
use cue_api.Recurrence.Types.{Instant, RecurrenceConfig}
use cue_api.Recurrence.Luxon.{Luxon}
use cue_api.Recurrence.Expand.{CreateRecurrenceRuleDto}
use cue_api.Tasks.Types.{TaskRow, resolved, bad_request, require}
use cue_api.Tasks.Store.{
  TaskDatabase, ReminderInput, is_null, is_null-none, find_by_id, ensure_calendar_owned_by_user,
}
use cue_api.Tasks.Laws.{StoreLaws, Holds, Holds-bind, Holds-then, Holds-require}
use cue_api.Tasks.Update.{
  CreateTaskDto, UpdateTaskInput, apply_recurrence_update, gives_rule, next_row, parse_given,
  ends_before_start, ensure_given_group, ensure_new_group, rekeys, has_field_changes,
  with_reminders, created_row, create, replaced_reminders, swept, updated_row, updated, update,
}
use cue_api.Tasks.Invariant.{Sound, AllSound, save-AllSound, same-AllSound, find_by_id-Sound}
use cue_api.Tasks.Invariant.Completion.{bump-AllSound, touch-AllSound, sweep-AllSound}

module _ (luxon : Luxon) {R : Type 0} (store : TaskDatabase R) (laws : StoreLaws store) where
  open store use {tasks, exception_store, bump}
  open laws use {task_laws, create_reminders-tasks, replace_reminders-tasks}

  with_reminders-AllSound :
      (r : R) (id : String) (xs : Option (List ReminderInput))
      → AllSound store r
      → AllSound store (with_reminders luxon store r id xs)
  unfolding with_reminders
  with_reminders-AllSound r id none inv = inv
  with_reminders-AllSound r id (some []) inv = inv
  with_reminders-AllSound r id (some (x ∷ xs)) inv =
      same-AllSound store laws r _ (create_reminders-tasks r id (x ∷ xs)) inv

  pub create-AllSound :
      (r : R) (user_id : String) (dto : CreateTaskDto)
      → AllSound store r
      → Holds (λ out. AllSound store out.0) (create luxon store r user_id dto)
  unfolding create created_row
  create-AllSound r user_id dto inv =
      Holds-then out (ensure_calendar_owned_by_user store r dto.calendar_id user_id) _ (
        Holds-then out (require (not (ends_before_start start end)) bad_request) _ (
          Holds-then out (require (is_null dto.recurrence || not (is_null start)) bad_request) _ (
            Holds-then out (ensure_given_group luxon store r dto.group_id dto.calendar_id)
              (resolved _)
              (bump-AllSound store laws _ user_id (
                with_reminders-AllSound _ _ dto.reminders
                  (save-AllSound store laws r _ inv (inl refl)))))))
    where
      out : R × TaskRow → Type 0
      out o = AllSound store o.0

      start : Option Instant
      start = parse_given luxon dto.start_at dto.timezone

      end : Option Instant
      end = parse_given luxon dto.end_at dto.timezone

  replaced_reminders-AllSound :
      (r : R) (id : String) (xs : Option (List ReminderInput))
      → AllSound store r
      → AllSound store (replaced_reminders luxon store r id xs)
  unfolding replaced_reminders
  replaced_reminders-AllSound r id none inv = inv
  replaced_reminders-AllSound r id (some xs) inv =
      same-AllSound store laws r _ (replace_reminders-tasks r id xs) inv

  swept-AllSound :
      (r : R) (row : TaskRow) (rekeyed : Bool)
      → AllSound store r
      → AllSound store (swept luxon store r row rekeyed)
  unfolding swept
  swept-AllSound r row true inv = sweep-AllSound store laws luxon r row _ inv
  swept-AllSound r row false inv = inv

  -- Without a new rule, a row without a rule stays so.
  rule-none :
      (current : Option RecurrenceConfig) (input : Option (Option CreateRecurrenceRuleDto))
      → gives_rule input ≡ false
      → current ≡ none
      → (apply_recurrence_update current input).0 ≡ none
  unfolding apply_recurrence_update
  rule-none current none h e = e
  rule-none current (some none) h e = refl
  rule-none current (some (some dto)) h e = absurd (true≢false h)

  updated_row-Sound :
      (r : R) (task : TaskRow) (input : UpdateTaskInput)
      → (is_null task.parent_task_id || not (gives_rule input.recurrence)) ≡ true
      → Sound task
      → Sound (updated_row luxon store r task input)
  unfolding updated_row next_row
  updated_row-Sound r task input checked s =
      elim (Bool-cases (has_field_changes luxon task (next_row luxon task input))) [
        | inl e ↦ rw e (fields s)
        | inr e ↦ rw e (fields s)
      ]
    where
      fields :
          Sound task
          → (task.parent_task_id ≡ none)
            ⊎ (((apply_recurrence_update task.recurrence_config input.recurrence).0 ≡ none)
                × (is_null task.original_start_at ≡ false))
      fields (inl p) = inl p
      fields (inr (rule, slot)) = elim (Bool-cases (gives_rule input.recurrence)) [
        | inl g ↦ inl (is_null-none task.parent_task_id (ground arith))
        | inr g ↦ inr (rule-none task.recurrence_config input.recurrence g rule, slot)
      ]

  updated-AllSound :
      (r : R) (user_id : String) (task : TaskRow) (input : UpdateTaskInput)
      → (is_null task.parent_task_id || not (gives_rule input.recurrence)) ≡ true
      → AllSound store r
      → Sound task
      → AllSound store (updated luxon store r user_id task input).0
  unfolding updated
  updated-AllSound r user_id task input checked inv s =
      elim (Bool-cases (
        has_field_changes luxon task (next_row luxon task input)
        || recurrence_changed
        || rekeyed)) [
          | inl e ↦ rw e (
              swept-AllSound _ row rekeyed (
                bump-AllSound store laws _ user_id (
                  save-AllSound store laws r' row replaced
                    (updated_row-Sound r' task input checked s))))
          | inr e ↦ elim (Bool-cases (not (is_null input.reminders))) [
            | inl k ↦
                rw (e, k)
                  (swept-AllSound _ row rekeyed (
                    bump-AllSound store laws _ user_id
                      (touch-AllSound store laws r' task.id replaced)))
            | inr k ↦ rw (e, k) (swept-AllSound r' row rekeyed replaced)
          ]
        ]
    where
      recurrence_changed : Bool
      recurrence_changed = (apply_recurrence_update task.recurrence_config input.recurrence).1

      rekeyed : Bool
      rekeyed =
          is_null task.parent_task_id
          && (recurrence_changed || rekeys luxon task (next_row luxon task input))

      r' : R
      r' = replaced_reminders luxon store r task.id input.reminders

      row : TaskRow
      row = updated_row luxon store r' task input

      replaced : AllSound store r'
      replaced = replaced_reminders-AllSound r task.id input.reminders inv

  pub update-AllSound :
      (r : R) (user_id id : String) (input : UpdateTaskInput)
      → AllSound store r
      → Holds (λ out. AllSound store out.0) (update luxon store r user_id id input)
  unfolding update
  update-AllSound r user_id id input inv =
      Holds-bind Sound (λ out. AllSound store out.0) (find_by_id store r user_id id) _
        (find_by_id-Sound store laws r user_id id inv)
        (λ task s.
          Holds-require out (is_null task.parent_task_id || not (gives_rule input.recurrence))
            bad_request _
            (λ checked.
              Holds-then out
                (require
                  (not (
                    ends_before_start (next_row luxon task input).start_at
                      (next_row luxon task input).end_at))
                  bad_request)
                _
                (Holds-then out (ensure_new_group luxon store r task input.group_id) (resolved _)
                  (updated-AllSound r user_id task input checked inv s))))
    where
      out : R × TaskRow → Type 0
      out o = AllSound store o.0
