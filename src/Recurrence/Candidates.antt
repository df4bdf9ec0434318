-- ===== src/Recurrence/Candidates.antt =====
-- recurrence-rule.service.ts: the limiting filters, and the sorted candidates of one period.
pub mod Order
mod Examples
use cue_api.Common.{
  ℕ, Bool, not, ◌&&◌, ◌||◌, true, false, Option, none, some, List, [], ◌∷◌, ltb, if◌then◌else◌,
  includes, sort_by,
}
use cue_api.Recurrence.Types.{
  RecurrenceConfig, RecurrenceFrequency, daily, weekly, monthly, yearly, Instant,
}
use cue_api.Recurrence.Luxon.{Luxon}
use cue_api.Recurrence.Selectors.{non_empty, luxon_weekday_to_entity, raw_candidates}

-- The axes that limit the candidates of a frequency, and do not expand it.
unfoldable pub limits_weekday : RecurrenceFrequency → Bool
limits_weekday weekly = false
limits_weekday _ = true

unfoldable pub limits_month_day : RecurrenceFrequency → Bool
limits_month_day monthly = false
limits_month_day yearly = false
limits_month_day _ = true

unfoldable pub limits_month : RecurrenceFrequency → Bool
limits_month yearly = false
limits_month _ = true

-- `limits && list && list.length > 0 && !list.includes(value)`: the axis rejects the value.
unfoldable pub rejects : Bool → Option (List ℕ) → ℕ → Bool
rejects limits by value = elim (non_empty by) [
  | none ↦ false
  | some listed ↦ limits && not (includes listed value)
]

module _ (luxon : Luxon) where
  open luxon use {DateTime, to_millis, weekday, day, month}

  unfoldable pub passes_limit_filters : DateTime → RecurrenceFrequency → RecurrenceConfig → Bool
  unfolding limits_weekday limits_month_day limits_month rejects
  passes_limit_filters candidate frequency config =
      if rejects (limits_weekday frequency) config.by_weekday
        (luxon_weekday_to_entity (weekday candidate))
      then false
      else if rejects (limits_month_day frequency) config.by_month_day (day candidate)
      then false
      else if rejects (limits_month frequency) config.by_month (month candidate)
      then false
      else true

  -- The loop of `candidatesForPeriod`, with the instants seen.
  unfoldable pub keep_candidates :
      Instant → RecurrenceConfig → List ℕ → List DateTime → List DateTime
  keep_candidates seed_millis config seen [] = []
  keep_candidates seed_millis config seen (candidate ∷ raw) =
      let millis = to_millis candidate in
      let passed = keep_candidates seed_millis config seen raw in
      let kept = candidate ∷ keep_candidates seed_millis config (millis ∷ seen) raw in
      if ltb millis seed_millis
      then passed
      else if includes seen millis
      then passed
      else if not (passes_limit_filters candidate config.frequency config)
      then passed
      else kept

  unfoldable pub candidates_for_period : DateTime → DateTime → RecurrenceConfig → List DateTime
  candidates_for_period period_start seed config =
      sort_by to_millis
        (keep_candidates (to_millis seed) config [] (raw_candidates luxon period_start seed config))
