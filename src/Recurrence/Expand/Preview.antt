-- ===== src/Recurrence/Expand/Preview.antt =====
-- previewSeriesOccurrences: a proposed series over its look-ahead horizon.
use cue_api.Common.{◌+◌, ◌*◌, ◌≤◌, ◌<◌, ◌≡◌, refl, some, List, [], length, All, All-map}
use cue_api.Recurrence.Types.{Instant, Occurrence, TaskOccurrenceException, RecurrenceSource}
use cue_api.Recurrence.Luxon.{Luxon}
use cue_api.Recurrence.Expand.{
  ProposedSeries, preview_anchor, preview_series_occurrences, preview_series_horizon_days,
  millis_per_day, max_occurrences_per_window, to_config, window_of,
}
use cue_api.Recurrence.Expand.Bounds.{expand_occurrences-IsShown, length-expand_occurrences}

module _ (luxon : Luxon) (proposal : ProposedSeries) where
  open luxon use {DateTime, to_millis, from_js_date}

  -- A previewed occurrence starts in the horizon of 730 days from the proposed start.
  abbrev pub InHorizon : DateTime → Occurrence → Type 0
  InHorizon seed o =
      (to_millis seed ≤ o.original_start)
      × (o.original_start < proposal.start_at + preview_series_horizon_days * millis_per_day)

  -- A preview is bounded whatever the rule: it has at most 1000 occurrences, each of which starts
  -- at or after the seed and less than 730 days after the proposed start.
  pub preview_series_occurrences-InHorizon :
      (seed : DateTime)
      → from_js_date proposal.start_at proposal.timezone ≡ some seed
      → (length (preview_series_occurrences luxon proposal) ≤ max_occurrences_per_window)
        × All (InHorizon seed) (preview_series_occurrences luxon proposal)
  unfolding preview_series_occurrences window_of
  preview_series_occurrences-InHorizon seed v = (
    (length-expand_occurrences luxon (preview_anchor proposal) (to_config proposal.recurrence)
        none_given proposal.start_at horizon RecurrenceSource.task).0,
    All-map (λ o h. (h.1, h.0.1)) _
        (expand_occurrences-IsShown luxon (preview_anchor proposal) (to_config proposal.recurrence)
          none_given proposal.start_at horizon RecurrenceSource.task proposal.start_at seed refl v),
  )
    where
      none_given : List TaskOccurrenceException
      none_given = []

      horizon : Instant
      horizon = proposal.start_at + preview_series_horizon_days * millis_per_day
