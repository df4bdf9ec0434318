-- ===== src/Tasks/Types.antt =====
-- The rows of the database that the task service reads and writes: task.entity.ts,
-- task-group.entity.ts, task-occurrence-exception.entity.ts and calendar.entity.ts, and the errors
-- that its operations throw. An instant is as in Recurrence/Types.
use cue_api.Common.{String, Bool, true, false, Option, none, some}
use cue_api.Recurrence.Types.{Instant, RecurrenceConfig, Task, TaskOccurrenceException}

pub record GroupRow : Type 0 where
  pub id : String
  pub calendar_id : String
  pub name : String
  pub color : Option String
  pub requires_completion : Option Bool
  pub recurrence_config : Option RecurrenceConfig

-- A task. The relation `group`, where a query loads it, is `group_of` of Tasks/Store.
pub record TaskRow : Type 0 where
  pub id : String
  pub calendar_id : String
  pub group_id : Option String
  pub title : String
  pub notes : Option String
  pub start_at : Option Instant
  pub end_at : Option Instant
  pub is_all_day : Bool
  pub timezone : String
  pub requires_completion : Option Bool
  pub color : Option String
  pub icon : Option String
  pub completed_at : Option Instant
  pub notification_strategy_id : Option String
  pub recurrence_config : Option RecurrenceConfig
  pub parent_task_id : Option String
  pub original_start_at : Option Instant
  pub detached_at : Option Instant
  pub recurrence_updated_at : Option Instant
  pub deleted_at : Option Instant

pub record ExceptionRow : Type 0 where
  pub id : String
  pub task_id : String
  pub original_start_at : Instant
  pub is_skipped : Bool
  pub override_start_at : Option Instant
  pub override_end_at : Option Instant
  pub override_title : Option String
  pub completed_at : Option Instant

pub record CalendarRow : Type 0 where
  pub id : String
  pub owner_id : String

-- What the expansion of a series reads of a row and of its group.
unfoldable pub anchor_of : Option GroupRow → TaskRow → Task
anchor_of group row = record {
  id = row.id;
  title = row.title;
  start_at = row.start_at;
  end_at = row.end_at;
  timezone = row.timezone;
  group = elim group [ none ↦ none | some g ↦ some (record { name = g.name }) ];
  parent_task_id = row.parent_task_id;
  detached_at = row.detached_at;
}

pub exception_of : ExceptionRow → TaskOccurrenceException
exception_of row = record {
  original_start_at = row.original_start_at;
  is_skipped = row.is_skipped;
  override_start_at = row.override_start_at;
  override_end_at = row.override_end_at;
  override_title = row.override_title;
  completed_at = row.completed_at;
}

-- The exceptions that the operations throw, by their status.
pub data HttpError : Type 0 where
  bad_request : HttpError
  forbidden : HttpError
  not_found : HttpError
  conflict : HttpError

-- How a promise ends.
pub data Outcome {ℓ} (A : Type ℓ) : Type ℓ where
  rejected : HttpError → Outcome A
  resolved : A → Outcome A

-- What awaits an outcome; these unfold everywhere.
infixr 5 ◌>>=◌ ◌>>◌
abbrev pub ◌>>=◌ {ℓ κ} : {A : Type ℓ} {B : Type κ} → Outcome A → (A → Outcome B) → Outcome B
rejected why >>= next = rejected why
resolved value >>= next = next value

abbrev pub ◌>>◌ {ℓ} : {B : Type ℓ} → Outcome (Unit {0}) → Outcome B → Outcome B
rejected why >> next = rejected why
resolved nothing >> next = next

-- `if (!test) throw why`
abbrev pub require : Bool → HttpError → Outcome (Unit {0})
require test why = elim test [ true ↦ resolved tt | false ↦ rejected why ]
