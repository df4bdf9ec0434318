-- ===== src/Tasks/Store.antt =====
-- What modules/task/task.service.ts is built on: the tables, the sync counter and the reminders, and
-- the ownership checks of its private helpers. A throw in an operation, each of which is one
-- transaction, leaves the state as it was: an operation that fails has no new state.
use text.Mathlib.Text.{◌==◌ as str_eq}
use cue_api.Common.{ℕ, String, Bool, true, false, ◌≡◌, refl, Option, none, some, List, [], ◌∷◌, map}
use cue_api.Recurrence.Types.{Instant}
use cue_api.Tasks.Types.{
  TaskRow, GroupRow, CalendarRow, Outcome, resolved, rejected, not_found, forbidden, bad_request,
  ◌>>◌, require,
}
use cue_api.Tasks.Database.{Table, TableLaws}
use cue_api.Tasks.Exceptions.{ExceptionStore}

pub record ReminderInput : Type 0 where
  pub offset_minutes : ℕ
  pub channel : String

pub record TaskDatabase (R : Type 0) : Type 0 where
  pub tasks : Table R TaskRow
  pub calendars : Table R CalendarRow
  pub groups : Table R GroupRow
  pub exception_store : ExceptionStore R
  -- `syncStateService.bump`.
  pub bump : R → String → R
  -- `new Date()`, and the ids that the database gives to new rows.
  pub now : R → Instant
  pub new_task_id : R → String
  pub new_exception_id : R → String
  -- The notification rules of a task.
  pub reminders_of : R → String → List ReminderInput
  pub create_reminders : R → String → List ReminderInput → R
  pub replace_reminders : R → String → List ReminderInput → R

-- A row that is not deleted softly.
abbrev pub is_live : TaskRow → Bool
is_live row = elim row.deleted_at [ none ↦ true | some t ↦ false ]

abbrev pub TaskLaws : {R : Type 0} → TaskDatabase R → Type 0
TaskLaws store = TableLaws store.tasks (λ row. row.id) is_live

-- `== null` on a nullable value, and its negation.
abbrev pub is_null {ℓ} : {A : Type ℓ} → Option A → Bool
is_null none = true
is_null (some a) = false

pub is_null-none : {A : Type 0} (o : Option A) → is_null o ≡ true → o ≡ none
is_null-none none h = refl
is_null-none (some a) h = cc

pub some-null : {A : Type 0} (o : Option A) (a : A) → o ≡ some a → is_null o ≡ false
some-null o a h = rw h refl

module _ {R : Type 0} (store : TaskDatabase R) where
  open store use {tasks, calendars, groups}

  -- The relation `group` of a task.
  unfoldable pub group_of : R → TaskRow → Option GroupRow
  group_of r row = elim row.group_id [
    | none ↦ none
    | some id ↦ groups.find_one r (λ g. str_eq g.id id)
  ]

  unfoldable pub owned_by : String → Option CalendarRow → Outcome (Unit {0})
  owned_by user_id none = rejected not_found
  owned_by user_id (some calendar) = require (str_eq calendar.owner_id user_id) forbidden

  unfoldable pub ensure_calendar_owned_by_user : R → String → String → Outcome (Unit {0})
  ensure_calendar_owned_by_user r calendar_id user_id =
      owned_by user_id (calendars.find_one r (λ c. str_eq c.id calendar_id))

  pub belongs_to : String → Option GroupRow → Outcome (Unit {0})
  belongs_to calendar_id none = rejected not_found
  belongs_to calendar_id (some group) = require (str_eq group.calendar_id calendar_id) bad_request

  pub ensure_group_in_calendar : R → String → String → Outcome (Unit {0})
  ensure_group_in_calendar r group_id calendar_id =
      belongs_to calendar_id (groups.find_one r (λ g. str_eq g.id group_id))

  -- The row that a query by id gave, once its owner is checked.
  unfoldable pub checked_row : R → String → Option TaskRow → Outcome TaskRow
  checked_row r user_id none = rejected not_found
  checked_row r user_id (some task) = do
    ensure_calendar_owned_by_user r task.calendar_id user_id
    resolved task

  unfoldable pub find_by_id : R → String → String → Outcome TaskRow
  find_by_id r user_id task_id =
      checked_row r user_id (tasks.find_one r (λ row. str_eq row.id task_id))

  -- `resolveCalendarScope`: the calendars of the user where none is named.
  unfoldable pub resolve_calendar_scope : R → String → Option String → Outcome (List String)
  resolve_calendar_scope r user_id (some calendar_id) = do
    ensure_calendar_owned_by_user r calendar_id user_id
    resolved (calendar_id ∷ [])
  resolve_calendar_scope r user_id none =
      resolved (map (λ c. c.id) (calendars.find_all r (λ c. str_eq c.owner_id user_id)))
