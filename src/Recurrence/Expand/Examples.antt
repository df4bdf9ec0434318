-- ===== src/Recurrence/Expand/Examples.antt =====
-- A series on a concrete calendar, expanded over a window.
use cue_api.Common.{
  ℕ, ◌+◌, ◌*◌, ◌≤◌, ◌≡◌, refl, true, false, none, some, List, [], ◌∷◌, map, All, length, sort_by,
}
use cue_api.Recurrence.Types.{
  RecurrenceConfig, RecurrenceSource, weekly, daily, Task, TaskOccurrenceException, Occurrence,
}
use cue_api.Recurrence.Types
use cue_api.Recurrence.Uniform.{uniform, uniform-Moves}
use cue_api.Recurrence.Selectors.{raw_candidates, luxon_weekday_to_entity}
use cue_api.Recurrence.Candidates.{candidates_for_period, keep_candidates, passes_limit_filters}
use cue_api.Recurrence.Expand.{
  expand_occurrences, max_generation_steps, window_of, ProposedSeries, preview_series_occurrences,
  until_boundary_millis, generate, visit, visit_all, step_period, exception_at, build_occurrence,
}
use cue_api.Recurrence.Expand.Refinement.{
  expanded, window_at, series_occurrences, expand_occurrences-pipeline,
}
use cue_api.Recurrence.Expand.Pipeline.{built}
use cue_api.Recurrence.Expand.Bounds.{
  IsShown, expand_occurrences-IsShown, length-expand_occurrences,
}
use cue_api.Recurrence.Expand.Preview.{InHorizon, preview_series_occurrences-InHorizon}

abbrev pub at_day : ℕ → ℕ
at_day n = n * 86_400_000

-- Five times on Mondays and Wednesdays.
abbrev pub five_times : RecurrenceConfig
five_times = record {
  frequency = weekly;
  interval = 1;
  by_weekday = some (2 ∷ 0 ∷ []);
  by_month_day = none;
  by_month = none;
  by_set_pos = none;
  monthly_anchor = none;
  end_type = Types.count;
  end_date = none;
  count = some 5;
}

-- From a Monday, for an hour.
abbrev pub standup : Task
standup = record {
  id = "t1";
  title = "Standup";
  start_at = some (at_day 98);
  end_at = some (at_day 98 + 3_600_000);
  timezone = "UTC";
  group = none;
  parent_task_id = none;
  detached_at = none;
}

abbrev skip_second : List TaskOccurrenceException
skip_second =
    record {
      original_start_at = at_day 100;
      is_skipped = true;
      override_start_at = none;
      override_end_at = none;
      override_title = none;
      completed_at = none;
    }
    ∷ []

abbrev shown : List Occurrence
shown =
    expanded uniform standup five_times skip_second (at_day 90) (at_day 200) RecurrenceSource.task

expand_occurrences-pipeline_example :
    shown
    ≡ series_occurrences uniform standup five_times skip_second
        (at_day 90)
        (at_day 200)
        RecurrenceSource.task
        (at_day 98)
        98
expand_occurrences-pipeline_example =
    expand_occurrences-pipeline uniform standup five_times skip_second (at_day 90) (at_day 200)
      RecurrenceSource.task uniform-Moves

expand_occurrences-IsShown_example :
    All
      (λ o.
        IsShown
          (window_at uniform standup five_times skip_second
            (at_day 90)
            (at_day 200)
            RecurrenceSource.task
            (at_day 98))
          o
        × (at_day 98 ≤ o.original_start)
        × (o
            ≡ built
                (window_at uniform standup five_times skip_second
                  (at_day 90)
                  (at_day 200)
                  RecurrenceSource.task
                  (at_day 98))
                o.original_start))
      shown
expand_occurrences-IsShown_example =
    expand_occurrences-IsShown uniform standup five_times skip_second (at_day 90) (at_day 200)
      RecurrenceSource.task (at_day 98) 98 refl refl

length-expand_occurrences_example : (length shown ≤ 1000) × (length shown ≤ 5)
length-expand_occurrences_example =
    length-expand_occurrences uniform standup five_times skip_second (at_day 90) (at_day 200)
      RecurrenceSource.task

-- The fifth occurrence, on day 112, counts the skipped one.
shown_starts : map (λ o. o.original_start) shown ≡ map at_day (98 ∷ 105 ∷ 107 ∷ 112 ∷ [])
unfolding expand_occurrences window_of max_generation_steps generate visit_all visit step_period
    exception_at build_occurrence candidates_for_period keep_candidates passes_limit_filters
    raw_candidates sort_by luxon_weekday_to_entity until_boundary_millis
shown_starts = refl

abbrev pub forever : ProposedSeries
forever = record {
  title = "Run";
  start_at = at_day 98;
  end_at = at_day 98 + 1_800_000;
  timezone = "UTC";
  recurrence = record {
    frequency = daily;
    interval = none;
    by_weekday = none;
    by_month_day = none;
    by_month = none;
    by_set_pos = none;
    monthly_anchor = none;
    end_type = none;
    end_date = none;
    count = none;
  };
}

preview_series_occurrences-InHorizon_example :
    (length (preview_series_occurrences uniform forever) ≤ 1000)
    × All (InHorizon uniform forever 98) (preview_series_occurrences uniform forever)
preview_series_occurrences-InHorizon_example =
    preview_series_occurrences-InHorizon uniform forever 98 refl

abbrev pub on_mondays : RecurrenceConfig
on_mondays = record {
  frequency = weekly;
  interval = 1;
  by_weekday = some (0 ∷ []);
  by_month_day = none;
  by_month = none;
  by_set_pos = none;
  monthly_anchor = none;
  end_type = Types.never;
  end_date = none;
  count = none;
}

abbrev pub first_monday : Occurrence
first_monday = record {
  task = standup;
  original_start = at_day 98;
  occurrence_start = at_day 98;
  occurrence_end = some (at_day 98 + 3_600_000);
  title = "Standup";
  completed_at = none;
  is_recurring = true;
  is_exception = false;
  recurrence = record { config = on_mondays; source = RecurrenceSource.task; group_name = none };
  parent_task_id = none;
  is_detached = false;
}

-- The day that starts half an hour into the first occurrence shows it.
pub first_monday-shown :
    expand_occurrences uniform standup on_mondays []
      (at_day 98 + 1_800_000)
      (at_day 99)
      RecurrenceSource.task
    ≡ first_monday ∷ []
unfolding expand_occurrences window_of max_generation_steps generate visit_all visit step_period
    exception_at build_occurrence candidates_for_period keep_candidates passes_limit_filters
    raw_candidates sort_by luxon_weekday_to_entity until_boundary_millis
first_monday-shown = refl
