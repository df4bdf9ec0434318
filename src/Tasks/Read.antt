-- ===== src/Tasks/Read.antt =====
-- modules/task/task.service.ts, findOccurrencesInRange and the helpers that it calls. A slot key,
-- `${taskId}#${millis}` in the source, is the pair that it spells.
pub mod OneOffs
pub mod Series
pub mod Slots
pub mod Listing
pub mod Examples
use text.Mathlib.Text.{◌==◌ as str_eq}
use cue_api.Common.{
  ℕ, ltb, leb, ◌==◌, String, Bool, true, false, not, ◌&&◌, ◌||◌, Option, none, some, List, [], ◌∷◌,
  ◌++◌, map, if◌then◌else◌, any_of, filter_by, sort_with,
}
use cue_api.Recurrence.Types.{
  Instant, RecurrenceConfig, RecurrenceSource, RecurrenceSummary, Occurrence,
}
use cue_api.Recurrence.Types
use cue_api.Recurrence.Luxon.{Luxon}
use cue_api.Recurrence.Expand.{expand_occurrences}
use cue_api.Tasks.Types.{
  TaskRow, GroupRow, anchor_of, exception_of, Outcome, resolved, rejected, HttpError, bad_request,
  ◌>>=◌, ◌>>◌, require,
}
use cue_api.Tasks.Exceptions.{find_for_task}
use cue_api.Tasks.Store.{TaskDatabase, is_null, group_of, resolve_calendar_scope}

pub record FindOccurrencesOptions : Type 0 where
  pub calendar_id : Option String
  pub group_id : Option String
  pub include_completed : Bool
  pub include_todos : Bool

-- An occurrence as it is listed: of a row, or of a series.
pub record ListedOccurrence : Type 0 where
  pub task : TaskRow
  pub original_start : Option Instant
  pub occurrence_start : Option Instant
  pub occurrence_end : Option Instant
  pub title : String
  pub completed_at : Option Instant
  pub is_recurring : Bool
  pub is_exception : Bool
  pub recurrence : Option RecurrenceSummary
  pub parent_task_id : Option String
  pub is_detached : Bool

-- `LessThan(to)`, `MoreThan(from)` and `MoreThanOrEqual(from)` on a nullable column.
abbrev pub before : Instant → Option Instant → Bool
before to none = false
before to (some t) = ltb t to

abbrev pub after : Instant → Option Instant → Bool
after from none = false
after from (some t) = ltb from t

abbrev pub from_on : Instant → Option Instant → Bool
from_on from none = false
from_on from (some t) = leb from t

-- `In(ids)`, and the condition on the group where the options name one.
abbrev pub among : List String → String → Bool
among ids id = any_of (str_eq id) ids

abbrev pub in_group : Option String → Option String → Bool
in_group none group_id = true
in_group (some wanted) none = false
in_group (some wanted) (some group_id) = str_eq group_id wanted

pub wrap_one_off : TaskRow → ListedOccurrence
wrap_one_off task = record {
  task = task;
  original_start = task.start_at;
  occurrence_start = task.start_at;
  occurrence_end = task.end_at;
  title = task.title;
  completed_at = task.completed_at;
  is_recurring = false;
  is_exception = false;
  recurrence = none;
  parent_task_id = task.parent_task_id;
  is_detached = not (is_null task.detached_at);
}

-- An occurrence of the expansion of a row.
pub listed : TaskRow → Occurrence → ListedOccurrence
listed row o = record {
  task = row;
  original_start = some o.original_start;
  occurrence_start = some o.occurrence_start;
  occurrence_end = o.occurrence_end;
  title = o.title;
  completed_at = o.completed_at;
  is_recurring = o.is_recurring;
  is_exception = o.is_exception;
  recurrence = some o.recurrence;
  parent_task_id = o.parent_task_id;
  is_detached = o.is_detached;
}

abbrev pub group_config : Option GroupRow → Option RecurrenceConfig
group_config none = none
group_config (some g) = g.recurrence_config

pub inherits_group_recurrence : Option GroupRow → TaskRow → Bool
inherits_group_recurrence group task =
    is_null task.parent_task_id && not (is_null task.start_at) && not (is_null (group_config group))

-- The `where` of the queries.
pub timed_with_end : List String → Instant → Instant → Option String → TaskRow → Bool
timed_with_end ids from to group_id row =
    among ids row.calendar_id
    && is_null row.recurrence_config
    && before to row.start_at
    && after from row.end_at
    && in_group group_id row.group_id

pub timed_no_end : List String → Instant → Instant → Option String → TaskRow → Bool
timed_no_end ids from to group_id row =
    among ids row.calendar_id
    && is_null row.recurrence_config
    && from_on from row.start_at
    && before to row.start_at
    && is_null row.end_at
    && in_group group_id row.group_id

pub timeless : List String → Option String → TaskRow → Bool
timeless ids group_id row =
    among ids row.calendar_id
    && is_null row.recurrence_config
    && is_null row.start_at
    && in_group group_id row.group_id

pub own_rule_anchor : List String → Option String → TaskRow → Bool
own_rule_anchor ids group_id row =
    among ids row.calendar_id
    && not (is_null row.recurrence_config)
    && is_null row.parent_task_id
    && in_group group_id row.group_id

pub group_inherited_anchor : List String → Option String → TaskRow → Bool
group_inherited_anchor ids group_id row =
    among ids row.calendar_id
    && is_null row.recurrence_config
    && not (is_null row.group_id)
    && is_null row.parent_task_id
    && in_group group_id row.group_id

pub override_child : List String → Instant → Instant → TaskRow → Bool
override_child ids from to row =
    among ids row.calendar_id
    && not (is_null row.parent_task_id)
    && from_on from row.original_start_at
    && before to row.original_start_at

abbrev pub SlotKey : Type 0
SlotKey = String × Instant

-- The key of a child, with the test for a row that lacks a part.
slot_of : Option String → Option Instant → List SlotKey
slot_of none start = []
slot_of (some parent) none = []
slot_of (some parent) (some start) = (parent, start) ∷ []

pub slot_keys : List TaskRow → List SlotKey
slot_keys [] = []
slot_keys (child ∷ children) =
    slot_of child.parent_task_id child.original_start_at ++ slot_keys children

pub has_key : List SlotKey → String → Instant → Bool
has_key keys id start = any_of (λ k. str_eq k.0 id && k.1 == start) keys

-- `occurrence.originalStart && suppressedSlots.has(…)`
pub suppressed : List SlotKey → String → Option Instant → Bool
suppressed keys id none = false
suppressed keys id (some start) = has_key keys id start

pub shows : Bool → List SlotKey → ListedOccurrence → Bool
shows include_completed keys o =
    if suppressed keys o.task.id o.original_start
    then false
    else include_completed || is_null o.completed_at

-- `startSortKey(left) - startSortKey(right) <= 0`, where null is Infinity.
pub starts_by : Option Instant → Option Instant → Bool
starts_by left none = true
starts_by none (some right) = false
starts_by (some left) (some right) = leb left right

module _ (luxon : Luxon) {R : Type 0} (store : TaskDatabase R) where
  open store use {tasks, exception_store}

  pub read_one_off_occurrences :
      R → List String → Instant → Instant → FindOccurrencesOptions → List ListedOccurrence
  read_one_off_occurrences r ids from to opts =
      let timed = tasks.find_all r (timed_with_end ids from to opts.group_id) in
      let open_ended = tasks.find_all r (timed_no_end ids from to opts.group_id) in
      let occurrences = map wrap_one_off (
        filter_by (λ task. not (inherits_group_recurrence (group_of store r task) task))
          (timed ++ open_ended)) in
      if opts.include_todos
      then occurrences ++ map wrap_one_off (tasks.find_all r (timeless ids opts.group_id))
      else occurrences

  -- The expansion of an anchor by a rule, if there is one.
  pub expand_anchor :
      R
      → Instant
      → Instant
      → RecurrenceSource
      → TaskRow
      → Option RecurrenceConfig
      → List ListedOccurrence
  expand_anchor r from to source anchor none = []
  expand_anchor r from to source anchor (some config) = map (listed anchor) (
      expand_occurrences luxon (anchor_of (group_of store r anchor) anchor) config
        (map exception_of (find_for_task exception_store r anchor.id)) from to source)

  pub expand_own : R → Instant → Instant → List TaskRow → List ListedOccurrence
  expand_own r from to [] = []
  expand_own r from to (anchor ∷ anchors) =
      expand_anchor r from to RecurrenceSource.task anchor anchor.recurrence_config
      ++ expand_own r from to anchors

  pub expand_inherited : R → Instant → Instant → List TaskRow → List ListedOccurrence
  expand_inherited r from to [] = []
  expand_inherited r from to (anchor ∷ anchors) =
      expand_anchor r from to RecurrenceSource.group anchor (group_config (group_of store r anchor))
      ++ expand_inherited r from to anchors

  pub read_recurring_occurrences :
      R → List String → Instant → Instant → Option String → List ListedOccurrence
  read_recurring_occurrences r ids from to group_id =
      expand_own r from to (tasks.find_all r (own_rule_anchor ids group_id))
      ++ expand_inherited r from to (tasks.find_all r (group_inherited_anchor ids group_id))

  pub build_override_suppression_set : R → List String → Instant → Instant → List SlotKey
  build_override_suppression_set r ids from to =
      slot_keys (tasks.find_all r (override_child ids from to))

  -- What is listed of the calendars.
  pub occurrences_of :
      R → Instant → Instant → FindOccurrencesOptions → List String → List ListedOccurrence
  occurrences_of r from to opts [] = []
  occurrences_of r from to opts (id ∷ more) =
      let ids = id ∷ more in
      sort_with (λ left right. starts_by left.occurrence_start right.occurrence_start)
        (filter_by (shows opts.include_completed (build_override_suppression_set r ids from to)) (
          read_one_off_occurrences r ids from to opts
          ++ read_recurring_occurrences r ids from to opts.group_id))

  unfoldable pub find_occurrences_in_range :
      R → String → Instant → Instant → FindOccurrencesOptions → Outcome (List ListedOccurrence)
  find_occurrences_in_range r user_id from to opts = do
    require (ltb from to) bad_request
    ids ← resolve_calendar_scope store r user_id opts.calendar_id
    resolved (occurrences_of r from to opts ids)
