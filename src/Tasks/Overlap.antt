-- ===== src/Tasks/Overlap.antt =====
-- modules/task/task.service.ts: the conflict checks, findOverlapping, findRecurringSeriesConflicts and
-- findRecurringEditConflicts. The order that a query asks for is left to the sort at the end.
mod Dedupe
mod Anchors
pub mod Clashes
pub mod Edit
pub mod Series
mod Examples
use text.Mathlib.Text.{◌==◌ as str_eq}
use cue_api.Common.{
  ℕ, ltb, leb, ◌==◌, String, Bool, true, false, not, ◌&&◌, ◌||◌, Option, none, some, List, [], ◌∷◌,
  ◌++◌, map, if◌then◌else◌, get_or, or_else, any_of, filter_by, sort_with,
}
use cue_api.Recurrence.Types.{Instant, RecurrenceConfig, RecurrenceSource, Occurrence}
use cue_api.Recurrence.Luxon.{Luxon}
use cue_api.Recurrence.Expand.{
  expand_occurrences, CreateRecurrenceRuleDto, ProposedSeries, preview_series_occurrences,
}
use cue_api.Tasks.Types.{TaskRow, anchor_of, exception_of, Outcome, resolved, rejected, ◌>>=◌, ◌>>◌}
use cue_api.Tasks.Exceptions.{find_for_task}
use cue_api.Tasks.Store.{
  TaskDatabase, is_null, group_of, ensure_calendar_owned_by_user, checked_row,
}
use cue_api.Tasks.Read.{
  before, after, from_on, group_config, SlotKey, has_key, starts_by, build_override_suppression_set,
}

-- `id: Not(excludeTaskId)` where an id is given.
abbrev pub not_excluded : Option String → String → Bool
not_excluded none id = true
not_excluded (some excluded) id = not (str_eq id excluded)

-- The `where` of the queries.
pub timed_clash : String → Instant → Instant → Option String → TaskRow → Bool
timed_clash calendar_id start end excluded row =
    str_eq row.calendar_id calendar_id
    && is_null row.recurrence_config
    && is_null row.completed_at
    && before end row.start_at
    && after start row.end_at
    && not_excluded excluded row.id

pub no_end_clash : String → Instant → Instant → Option String → TaskRow → Bool
no_end_clash calendar_id start end excluded row =
    str_eq row.calendar_id calendar_id
    && is_null row.recurrence_config
    && is_null row.completed_at
    && from_on start row.start_at
    && before end row.start_at
    && is_null row.end_at
    && not_excluded excluded row.id

pub own_rule_clash : String → Option String → TaskRow → Bool
own_rule_clash calendar_id excluded row =
    str_eq row.calendar_id calendar_id
    && not (is_null row.recurrence_config)
    && is_null row.parent_task_id
    && not_excluded excluded row.id

pub group_inherited_clash : String → Option String → TaskRow → Bool
group_inherited_clash calendar_id excluded row =
    str_eq row.calendar_id calendar_id
    && is_null row.recurrence_config
    && not (is_null row.group_id)
    && is_null row.parent_task_id
    && not_excluded excluded row.id

-- The occurrences that count as a clash.
pub is_live_occurrence : List SlotKey → String → Occurrence → Bool
is_live_occurrence keys id o = is_null o.completed_at && not (has_key keys id o.original_start)

-- The rows whose id was not seen before, in their order.
pub dedupe_from : List String → List TaskRow → List TaskRow
dedupe_from seen [] = []
dedupe_from seen (task ∷ rest) =
    let later = dedupe_from (task.id ∷ seen) rest in
    if any_of (str_eq task.id) seen then dedupe_from seen rest else task ∷ later

pub dedupe_by_id : List TaskRow → List TaskRow
dedupe_by_id rows = dedupe_from [] rows

abbrev pub start_order : TaskRow → TaskRow → Bool
start_order left right = starts_by left.start_at right.start_at

-- `configToCreateDto`. `config.byWeekday ?? undefined` keeps the value.
pub config_to_create_dto : Option RecurrenceConfig → Option CreateRecurrenceRuleDto
config_to_create_dto none = none
config_to_create_dto (some config) = some (record {
  frequency = config.frequency;
  interval = some config.interval;
  by_weekday = config.by_weekday;
  by_month_day = config.by_month_day;
  by_month = config.by_month;
  by_set_pos = none;
  monthly_anchor = none;
  end_type = some config.end_type;
  end_date = config.end_date;
  count = config.count;
})

-- The starts of the occurrences that clash, and what they clash with.
pub record RecurringSeriesConflicts : Type 0 where
  pub conflict_dates : List Instant
  pub conflicting_tasks : List TaskRow

abbrev pub no_conflicts : RecurringSeriesConflicts
no_conflicts = record { conflict_dates = []; conflicting_tasks = [] }

-- An occurrence that clashes with some rows is put before the conflicts of the rest.
pub with_conflicts : Instant → List TaskRow → RecurringSeriesConflicts → RecurringSeriesConflicts
with_conflicts start [] rest = rest
with_conflicts start (task ∷ tasks) rest = record {
  conflict_dates = start ∷ rest.conflict_dates;
  conflicting_tasks = (task ∷ tasks) ++ rest.conflicting_tasks;
}

-- The proposal of an edit.
pub record RecurringEditProposal : Type 0 where
  pub title : Option String
  pub start_at : Option String
  pub end_at : Option String
  pub timezone : Option String
  pub recurrence : Option CreateRecurrenceRuleDto

module _ (luxon : Luxon) where
  open luxon use {from_iso, to_millis}

  -- `parseWallClockInZone` of common/utils/datetime.ts.
  pub parse_wall_clock_in_zone : String → String → Option Instant
  parse_wall_clock_in_zone input zone =
      if str_eq input ""
      then none
      else elim (from_iso input zone) [ none ↦ none | some t ↦ some (to_millis t) ]

  -- `proposal.startAt ? parseWallClockInZone(proposal.startAt, zone) : task.startAt`
  pub proposed_date : Option String → String → Option Instant → Option Instant
  proposed_date none zone current = current
  proposed_date (some text) zone current =
      if str_eq text "" then current else parse_wall_clock_in_zone text zone

  -- The series after the edit, where the edit leaves one and moves its time or its rule.
  pub edited_series : TaskRow → RecurringEditProposal → Option ProposedSeries
  edited_series task proposal =
      elim (or_else proposal.recurrence (config_to_create_dto task.recurrence_config)) [
        | none ↦ none
        | some recurrence ↦
            if is_null proposal.start_at && is_null proposal.end_at && is_null proposal.recurrence
            then none
            else let zone = get_or proposal.timezone task.timezone in
              elim (proposed_date proposal.start_at zone task.start_at) [
                | none ↦ none
                | some start ↦ elim (proposed_date proposal.end_at zone task.end_at) [
                  | none ↦ none
                  | some end ↦ some (record {
                    title = get_or proposal.title task.title;
                    start_at = start;
                    end_at = end;
                    timezone = zone;
                    recurrence = recurrence;
                  })
                ]
              ]
      ]

  module _ {R : Type 0} (store : TaskDatabase R) where
    open store use {tasks, exception_store}

    pub occurrences_within :
        R → Instant → Instant → TaskRow → Option RecurrenceConfig → List Occurrence
    occurrences_within r start end anchor none = []
    occurrences_within r start end anchor (some config) =
        expand_occurrences luxon (anchor_of (group_of store r anchor) anchor) config
          (map exception_of (find_for_task exception_store r anchor.id)) start end
          RecurrenceSource.task

    pub clashes_by : R → List SlotKey → Instant → Instant → TaskRow → Option RecurrenceConfig → Bool
    clashes_by r keys start end anchor config =
        any_of (is_live_occurrence keys anchor.id) (occurrences_within r start end anchor config)

    pub find_clashing_recurring_anchors :
        R → String → Instant → Instant → Option String → List TaskRow
    find_clashing_recurring_anchors r calendar_id start end excluded =
        let keys = build_override_suppression_set luxon store r (calendar_id ∷ []) start end in
        dedupe_by_id (
          filter_by (λ anchor. clashes_by r keys start end anchor anchor.recurrence_config)
            (tasks.find_all r (own_rule_clash calendar_id excluded))
          ++ filter_by
              (λ anchor.
                clashes_by r keys start end anchor (group_config (group_of store r anchor)))
              (tasks.find_all r (group_inherited_clash calendar_id excluded)))

    pub overlapping : R → String → Instant → Instant → Option String → List TaskRow
    overlapping r calendar_id start end excluded = sort_with start_order (
        dedupe_by_id (
          tasks.find_all r (timed_clash calendar_id start end excluded)
          ++ (tasks.find_all r (no_end_clash calendar_id start end excluded)
              ++ find_clashing_recurring_anchors r calendar_id start end excluded)))

    pub find_overlapping :
        R → String → String → Instant → Instant → Option String → Outcome (List TaskRow)
    find_overlapping r user_id calendar_id start end excluded = do
      ensure_calendar_owned_by_user store r calendar_id user_id
      resolved (overlapping r calendar_id start end excluded)

    -- The loop over the occurrences of the proposal.
    pub probe :
        R → String → String → Option String → List Occurrence → Outcome RecurringSeriesConflicts
    probe r user_id calendar_id excluded [] = resolved no_conflicts
    probe r user_id calendar_id excluded (o ∷ os) =
        let rest = probe r user_id calendar_id excluded os in
        elim o.occurrence_end [
          | none ↦ rest
          | some end ↦
              find_overlapping r user_id calendar_id o.occurrence_start end excluded
              >>= λ conflicts.
                  rest >>= λ others. resolved (with_conflicts o.occurrence_start conflicts others)
        ]

    pub find_recurring_series_conflicts :
        R → String → String → ProposedSeries → Option String → Outcome RecurringSeriesConflicts
    find_recurring_series_conflicts r user_id calendar_id proposal excluded = do
      ensure_calendar_owned_by_user store r calendar_id user_id
      found ← probe r user_id calendar_id excluded (preview_series_occurrences luxon proposal)
      resolved (record found { conflicting_tasks = dedupe_by_id found.conflicting_tasks })

    unfoldable pub find_by_id_with_rule : R → String → String → Outcome TaskRow
    find_by_id_with_rule r user_id task_id =
        checked_row store r user_id (tasks.find_one r (λ row. str_eq row.id task_id))

    pub find_recurring_edit_conflicts :
        R → String → String → RecurringEditProposal → Outcome RecurringSeriesConflicts
    find_recurring_edit_conflicts r user_id task_id proposal =
        find_by_id_with_rule r user_id task_id >>= λ task. elim (edited_series task proposal) [
          | none ↦ resolved no_conflicts
          | some series ↦
              find_recurring_series_conflicts r user_id task.calendar_id series (some task_id)
        ]
