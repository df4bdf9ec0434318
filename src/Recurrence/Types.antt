-- ===== src/Recurrence/Types.antt =====
-- recurrence.types.ts, and the columns of database/entities that the expansion reads.
-- An instant is the number of milliseconds since the earliest instant of an ECMAScript `Date`
-- (8.64e15 ms before 1970), so that every instant is a natural number; orders and differences of
-- instants are those of the source.
use cue_api.Common.{ℕ, String, Bool, Option, List, ℤ}

abbrev pub Instant : Type 0
Instant = ℕ

pub data RecurrenceFrequency : Type 0 where
  daily weekly monthly yearly : RecurrenceFrequency

pub data RecurrenceEndType : Type 0 where
  never until_date count : RecurrenceEndType

pub data MonthlyAnchorMode : Type 0 where
  first_workday last_workday day_before_last_workday : MonthlyAnchorMode

pub data RecurrenceSource : Type 0 where
  task group : RecurrenceSource

-- Weekdays are 0 (Monday) to 6 (Sunday). An optional key that is absent reads as null.
pub record RecurrenceConfig : Type 0 where
  pub frequency : RecurrenceFrequency
  pub interval : ℕ
  pub by_weekday : Option (List ℕ)
  pub by_month_day : Option (List ℕ)
  pub by_month : Option (List ℕ)
  pub by_set_pos : Option (List ℤ)
  pub monthly_anchor : Option MonthlyAnchorMode
  pub end_type : RecurrenceEndType
  pub end_date : Option String
  pub count : Option ℕ

pub record TaskGroup : Type 0 where
  pub name : String

-- The columns of the task entity that the expansion reads.
pub record Task : Type 0 where
  pub id : String
  pub title : String
  pub start_at : Option Instant
  pub end_at : Option Instant
  pub timezone : String
  pub group : Option TaskGroup
  pub parent_task_id : Option String
  pub detached_at : Option Instant

pub record TaskOccurrenceException : Type 0 where
  pub original_start_at : Instant
  pub is_skipped : Bool
  pub override_start_at : Option Instant
  pub override_end_at : Option Instant
  pub override_title : Option String
  pub completed_at : Option Instant

pub record RecurrenceSummary : Type 0 where
  pub config : RecurrenceConfig
  pub source : RecurrenceSource
  pub group_name : Option String

pub record Occurrence : Type 0 where
  pub task : Task
  pub original_start : Instant
  pub occurrence_start : Instant
  pub occurrence_end : Option Instant
  pub title : String
  pub completed_at : Option Instant
  pub is_recurring : Bool
  pub is_exception : Bool
  pub recurrence : RecurrenceSummary
  pub parent_task_id : Option String
  pub is_detached : Bool
