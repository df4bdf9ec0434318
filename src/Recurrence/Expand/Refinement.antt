-- ===== src/Recurrence/Expand/Refinement.antt =====
-- expandOccurrences as a pipeline of list functions.
use cue_api.Common.{◌≡◌, none, some, Option-cases, inl, inr, List, [], map, take}
use cue_api.Recurrence.Types.{
  Instant, RecurrenceConfig, RecurrenceSource, Task, TaskOccurrenceException, Occurrence,
}
use cue_api.Recurrence.Luxon.{Luxon, Moves}
use cue_api.Recurrence.Expand.{
  Window, window_of, max_occurrences_per_window, max_generation_steps, expand_occurrences,
}
use cue_api.Recurrence.Expand.Pipeline.{upcoming}
use cue_api.Recurrence.Expand.Series.{stream, stream-periods, periods, generate-upcoming}

module _ (luxon : Luxon) (anchor : Task) (config : RecurrenceConfig)
    (exceptions : List TaskOccurrenceException) (window_from window_to : Instant)
    (source : RecurrenceSource) where
  open luxon use {DateTime, to_millis, from_js_date}

  abbrev pub expanded : List Occurrence
  expanded = expand_occurrences luxon anchor config exceptions window_from window_to source

  abbrev pub window_at : Instant → Window
  window_at = window_of luxon anchor config exceptions window_from window_to source

  pub expand_occurrences-timeless : anchor.start_at ≡ none → expanded ≡ []
  unfolding expand_occurrences
  expand_occurrences-timeless e = rw (e, expand_occurrences)

  module _ (start_at : Instant) (start : anchor.start_at ≡ some start_at) where
    pub expand_occurrences-invalid : from_js_date start_at anchor.timezone ≡ none → expanded ≡ []
    unfolding expand_occurrences
    expand_occurrences-invalid e = simp (start, expand_occurrences, e)

    pub expand_occurrences-generate :
        (seed : DateTime)
        → from_js_date start_at anchor.timezone ≡ some seed
        → expanded
          ≡ take max_occurrences_per_window (
              upcoming
                (window_at start_at)
                0
                (map to_millis (stream luxon config seed max_generation_steps seed)))
    unfolding expand_occurrences
    expand_occurrences-generate seed e =
        simp (start, expand_occurrences, e)
          (generate-upcoming luxon config seed (window_at start_at) max_generation_steps seed)

  -- The occurrences of a series that begins at `start_at`: the candidates of its periods in order,
  -- cut after COUNT of them, at the UNTIL boundary and at the end of the window, less those that
  -- have ended before the window or are skipped, and of these the first 1000.
  abbrev pub series_occurrences : Instant → DateTime → List Occurrence
  series_occurrences start_at seed = take max_occurrences_per_window (
      upcoming (window_at start_at) 0
        (map to_millis (periods luxon config seed max_generation_steps seed)))

  -- Where `plus` of luxon moves forward, the expansion of a task with a start whose date is valid
  -- gives exactly the occurrences of its series over the first 64000 periods, in their order, and
  -- the expansion of any other task is empty.
  pub expand_occurrences-pipeline :
      Moves luxon
      → expanded ≡ elim anchor.start_at [
        | none ↦ []
        | some start_at ↦ elim (from_js_date start_at anchor.timezone) [
          | none ↦ []
          | some seed ↦ series_occurrences start_at seed
        ]
      ]
  expand_occurrences-pipeline moves = elim (Option-cases anchor.start_at) [
    | inl e ↦ simp e (expand_occurrences-timeless e)
    | inr (start_at, e) ↦ elim (Option-cases (from_js_date start_at anchor.timezone)) [
      | inl v ↦ simp (e, v) (expand_occurrences-invalid start_at e v)
      | inr (seed, v) ↦
          simp (e, v, ← stream-periods luxon config seed moves max_generation_steps seed)
            (expand_occurrences-generate start_at e seed v)
    ]
  ]
