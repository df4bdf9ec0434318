-- ===== src/Recurrence/Expand.antt =====
-- recurrence-rule.service.ts, class RecurrenceRuleService: the expansion of a rule over a window.
pub mod Pipeline
pub mod Series
pub mod Refinement
pub mod Bounds
pub mod Preview
pub mod Examples
use text.Mathlib.Text.{◌==◌ as str_eq}
use cue_api.Common.{
  ℕ, zero, suc, ◌+◌, ◌-◌, ◌*◌, String, Bool, true, false, Option, none, some, List, [], ◌∷◌, ◌++◌,
  leb, ltb, ◌==◌, if◌then◌else◌, get_or, or_else, length, ℤ,
}
use cue_api.Recurrence.Types.{
  Instant, RecurrenceConfig, RecurrenceFrequency, daily, weekly, monthly, yearly, RecurrenceEndType,
  never, until_date, MonthlyAnchorMode, RecurrenceSource, RecurrenceSummary, Task, TaskGroup,
  TaskOccurrenceException, Occurrence,
}
use cue_api.Recurrence.Types
use cue_api.Recurrence.Luxon.{Luxon}
use cue_api.Recurrence.Candidates.{candidates_for_period}

abbrev pub max_occurrences_per_window : ℕ
max_occurrences_per_window = 1000

pub max_generation_steps : ℕ
max_generation_steps = max_occurrences_per_window * 64

-- `exceptionsByOriginalStart.get(millis)`. The map is filled in the order of the list, so that the
-- last exception with a key stays.
pub exception_at : List TaskOccurrenceException → Instant → Option TaskOccurrenceException
exception_at [] millis = none
exception_at (e ∷ es) millis =
    or_else (exception_at es millis) (if e.original_start_at == millis then some e else none)

-- `exception?.isSkipped`
abbrev pub skipped : Option TaskOccurrenceException → Bool
skipped none = false
skipped (some e) = e.is_skipped

-- A length of time: from the first instant to the second. It is negative where the second is
-- earlier, as a difference of two dates in the source may be.
pub record Span : Type 0 where
  pub from : Instant
  pub to : Instant

-- `start + duration`
abbrev pub after_span : Instant → Span → Instant
after_span start span = start + span.to - span.from

-- `durationMillis !== null ? start + durationMillis : start`
abbrev pub end_millis : Option Span → Instant → Instant
end_millis none start = start
end_millis (some span) start = after_span start span

abbrev override_start : Option TaskOccurrenceException → Option Instant
override_start none = none
override_start (some e) = e.override_start_at

abbrev override_end : Option TaskOccurrenceException → Option Instant
override_end none = none
override_end (some e) = e.override_end_at

abbrev override_title : Option TaskOccurrenceException → Option String
override_title none = none
override_title (some e) = e.override_title

abbrev completion : Option TaskOccurrenceException → Option Instant
completion none = none
completion (some e) = e.completed_at

abbrev given {ℓ} : {A : Type ℓ} → Option A → Bool
given none = false
given (some a) = true

abbrev default_end : Option Span → Instant → Option Instant
default_end none start = none
default_end (some span) start = some (after_span start span)

unfoldable pub build_occurrence :
    Task → RecurrenceSummary → Instant → Option Span → Option TaskOccurrenceException → Occurrence
build_occurrence anchor summary original_start duration exception =
    let start = get_or (override_start exception) original_start in
    record {
      task = anchor;
      original_start = original_start;
      occurrence_start = start;
      occurrence_end = or_else (override_end exception) (default_end duration start);
      title = get_or (override_title exception) anchor.title;
      completed_at = completion exception;
      is_recurring = true;
      is_exception = given exception;
      recurrence = summary;
      parent_task_id = anchor.parent_task_id;
      is_detached = given anchor.detached_at;
    }

-- What the loop of one expansion reads and does not change.
pub record Window : Type 0 where
  pub anchor : Task
  pub summary : RecurrenceSummary
  pub duration : Option Span
  pub exceptions : List TaskOccurrenceException
  pub window_from : Instant
  pub window_to : Instant
  pub until : Option Instant
  pub count_limit : Option ℕ

-- `untilMillis !== null && millis > untilMillis`
abbrev pub past_until : Option Instant → Instant → Bool
past_until none millis = false
past_until (some until) millis = ltb until millis

-- `countLimit !== null && generated >= countLimit`
abbrev pub count_reached : Option ℕ → ℕ → Bool
count_reached none generated = false
count_reached (some limit) generated = leb limit generated

-- How a round of the loop over candidates ends: with `return`, with the break of a truncation, or
-- with the next round.
pub data Flow : Type 0 where
  returned : List Occurrence → Flow
  truncated : List Occurrence → Flow
  proceed : List Occurrence → ℕ → Flow

-- One round of the loop over candidates, at the instant of the candidate.
pub visit : Window → Instant → List Occurrence → ℕ → Flow
visit w millis occurrences generated =
    if past_until w.until millis
    then returned occurrences
    else if count_reached w.count_limit generated
    then returned occurrences
    else if leb w.window_to millis
    then returned occurrences
    else if leb (end_millis w.duration millis) w.window_from
    then proceed occurrences (generated + 1)
    else if skipped (exception_at w.exceptions millis)
    then proceed occurrences (generated + 1)
    else let occurrences' =
        occurrences
        ++ build_occurrence w.anchor w.summary millis w.duration (exception_at w.exceptions millis)
          ∷ [] in
      if leb max_occurrences_per_window (length occurrences')
      then truncated occurrences'
      else proceed occurrences' (generated + 1)

abbrev pub count_limit_of : RecurrenceConfig → Option ℕ
count_limit_of config = elim config.end_type [ Types.count ↦ config.count | _ ↦ none ]

abbrev pub group_name_of : RecurrenceSource → Task → Option String
group_name_of RecurrenceSource.task anchor = none
group_name_of RecurrenceSource.group anchor = elim anchor.group [
  | none ↦ none
  | some g ↦ some g.name
]

-- `endAt !== null ? endAt - startAt : null`
abbrev pub duration_of : Instant → Option Instant → Option Span
duration_of start none = none
duration_of start (some end) = some (record { from = start; to = end })

module _ (luxon : Luxon) where
  open luxon use {DateTime, to_millis, from_js_date, from_iso, end_of_day}
  open luxon use {plus_days, plus_weeks, plus_months, plus_years}

  -- The loop over the candidates of a period.
  pub visit_all : Window → List DateTime → List Occurrence → ℕ → Flow
  visit_all w [] occurrences generated = proceed occurrences generated
  visit_all w (c ∷ cs) occurrences generated = elim (visit w (to_millis c) occurrences generated) [
    | returned os ↦ returned os
    | truncated os ↦ truncated os
    | proceed os n ↦ visit_all w cs os n
  ]

  pub step_period : DateTime → RecurrenceConfig → DateTime
  step_period cursor config =
      let interval = if leb 1 config.interval then config.interval else 1 in
      elim config.frequency [
        | daily ↦ plus_days cursor interval
        | weekly ↦ plus_weeks cursor interval
        | monthly ↦ plus_months cursor interval
        | yearly ↦ plus_years cursor interval
      ]

  -- The loop over the periods, on the generation steps that are left.
  pub generate :
      RecurrenceConfig → DateTime → Window → ℕ → DateTime → List Occurrence → ℕ → List Occurrence
  generate config seed w zero cursor occurrences generated = occurrences
  generate config seed w (suc steps) cursor occurrences generated =
      elim (visit_all w (candidates_for_period luxon cursor seed config) occurrences generated) [
        | returned os ↦ os
        | truncated os ↦ os
        | proceed os n ↦ elim (leb (to_millis (step_period cursor config)) (to_millis cursor)) [
          | true ↦ os
          | false ↦ generate config seed w steps (step_period cursor config) os n
        ]
      ]

  pub until_boundary_millis : RecurrenceConfig → String → Option Instant
  until_boundary_millis config zone = elim config.end_type [
    | until_date ↦ elim config.end_date [
      | none ↦ none
      | some text ↦ elim (str_eq text "") [
        | true ↦ none
        | false ↦ elim (from_iso text zone) [
          | none ↦ none
          | some boundary ↦ some (to_millis (end_of_day boundary))
        ]
      ]
    ]
    | _ ↦ none
  ]

  pub window_of :
      Task
      → RecurrenceConfig
      → List TaskOccurrenceException
      → Instant
      → Instant
      → RecurrenceSource
      → Instant
      → Window
  window_of anchor config exceptions window_from window_to source start_at = record {
    anchor = anchor;
    summary = record { config = config; source = source; group_name = group_name_of source anchor };
    duration = duration_of start_at anchor.end_at;
    exceptions = exceptions;
    window_from = window_from;
    window_to = window_to;
    until = until_boundary_millis config anchor.timezone;
    count_limit = count_limit_of config;
  }

  pub expand_occurrences :
      Task
      → RecurrenceConfig
      → List TaskOccurrenceException
      → Instant
      → Instant
      → RecurrenceSource
      → List Occurrence
  expand_occurrences anchor config exceptions window_from window_to source = elim anchor.start_at [
    | none ↦ []
    | some start_at ↦ elim (from_js_date start_at anchor.timezone) [
      | none ↦ []
      | some seed ↦
          generate config seed
            (window_of anchor config exceptions window_from window_to source start_at)
            max_generation_steps seed [] 0
    ]
  ]

-- The proposal of a series that is not stored yet: CreateRecurrenceRuleDto, where an absent key is
-- none.
pub record CreateRecurrenceRuleDto : Type 0 where
  pub frequency : RecurrenceFrequency
  pub interval : Option ℕ
  pub by_weekday : Option (List ℕ)
  pub by_month_day : Option (List ℕ)
  pub by_month : Option (List ℕ)
  pub by_set_pos : Option (List ℤ)
  pub monthly_anchor : Option MonthlyAnchorMode
  pub end_type : Option RecurrenceEndType
  pub end_date : Option String
  pub count : Option ℕ

pub record ProposedSeries : Type 0 where
  pub title : String
  pub start_at : Instant
  pub end_at : Instant
  pub timezone : String
  pub recurrence : CreateRecurrenceRuleDto

unfoldable pub to_config : CreateRecurrenceRuleDto → RecurrenceConfig
to_config dto = record {
  frequency = dto.frequency;
  interval = get_or dto.interval 1;
  by_weekday = dto.by_weekday;
  by_month_day = dto.by_month_day;
  by_month = dto.by_month;
  by_set_pos = dto.by_set_pos;
  monthly_anchor = dto.monthly_anchor;
  end_type = get_or dto.end_type never;
  end_date = dto.end_date;
  count = dto.count;
}

abbrev pub preview_series_horizon_days : ℕ
preview_series_horizon_days = 730

abbrev pub millis_per_day : ℕ
millis_per_day = 86_400_000

pub preview_anchor : ProposedSeries → Task
preview_anchor proposal = record {
  id = "preview";
  title = proposal.title;
  start_at = some proposal.start_at;
  end_at = some proposal.end_at;
  timezone = proposal.timezone;
  group = none;
  parent_task_id = none;
  detached_at = none;
}

pub preview_series_occurrences : Luxon → ProposedSeries → List Occurrence
unfolding preview_anchor
preview_series_occurrences luxon proposal =
    expand_occurrences luxon (preview_anchor proposal) (to_config proposal.recurrence) []
      proposal.start_at (proposal.start_at + preview_series_horizon_days * millis_per_day)
      RecurrenceSource.task
