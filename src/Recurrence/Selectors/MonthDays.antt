-- ===== src/Recurrence/Selectors/MonthDays.antt =====
-- Explicit days of the month: a day that the month does not have is dropped.
use cue_api.Common.{
  ℕ, ◌≤◌, ◌≡◌, refl, ap, ◌∙◌, ◌⊎◌, none, some, List, [], ◌∷◌, map, arith, leb, leb→le, leb→lt,
  if◌then◌else◌, All, filter_by, somes, Bool-cases, Option-cases, inl, inr,
}
use mathlib.Core.List.{map-map}
use cue_api.Recurrence.Types.{RecurrenceConfig}
use cue_api.Recurrence.Luxon.{Luxon, SetsDay}
use cue_api.Recurrence.Selectors.{
  non_empty, day_in_month_or_null, at_seed_time, days_or_seed, monthly_candidates,
}

module _ (luxon : Luxon) (sets : SetsDay luxon) where
  open luxon use {DateTime, month, day, days_in_month, set_day, start_of_month}

  module _ (month_start : DateTime) (n : ℕ) (days : days_in_month month_start ≡ some n) where
    day_in_month_or_null_lem :
        (d : ℕ)
        → 1 ≤ d
        → d ≤ 31
        → day_in_month_or_null luxon month_start d
          ≡ (if leb d n then some (set_day month_start d) else none)
    unfolding day_in_month_or_null
    day_in_month_or_null_lem d low high = elim (Bool-cases (leb d n)) [
      | inl h ↦ rw h (ground (arith, sets.in_month month_start n d days low (leb→le d n h)))
      | inr h ↦ rw h (ground (arith, sets.past_month month_start n d days (leb→lt d n h) high))
    ]

    somes-day_in_month_or_null :
        (ds : List ℕ)
        → All (λ d. (1 ≤ d) × (d ≤ 31)) ds
        → somes (map (day_in_month_or_null luxon month_start) ds)
          ≡ map (set_day month_start) (filter_by (λ d. leb d n) ds)
    somes-day_in_month_or_null [] h = refl
    somes-day_in_month_or_null (d ∷ ds) ((low, high), h) =
        rw (day_in_month_or_null_lem d low high) (ground (arith, somes-day_in_month_or_null ds h))

  -- Where `set({ day })` of luxon stays in the month exactly on the days that it has, a monthly rule
  -- with no working-day anchor, and with no set positions or no weekdays, yields, in order, the listed days (the
  -- seed's day if none is listed) that the month of n days has, at the seed's time of day: a day
  -- past the month's end is dropped, never moved.
  pub monthly_candidates-days :
      (period_start seed : DateTime) (config : RecurrenceConfig) (n : ℕ)
      → config.monthly_anchor ≡ none
      → (non_empty config.by_set_pos ≡ none) ⊎ (non_empty config.by_weekday ≡ none)
      → days_in_month (start_of_month period_start) ≡ some n
      → All (λ d. (1 ≤ d) × (d ≤ 31)) (days_or_seed luxon config.by_month_day seed)
      → monthly_candidates luxon period_start seed config
        ≡ map
            (λ d. at_seed_time luxon (set_day (start_of_month period_start) d) seed)
            (filter_by (λ d. leb d n) (days_or_seed luxon config.by_month_day seed))
  unfolding monthly_candidates days_or_seed
  monthly_candidates-days period_start seed config n anchor positions days valid =
      plain_days positions
      ∙ ap (map (λ c. at_seed_time luxon c seed))
          (somes-day_in_month_or_null (start_of_month period_start) n days _ valid)
      ∙ map-map _ _ _
    where
      plain_days :
          (non_empty config.by_set_pos ≡ none) ⊎ (non_empty config.by_weekday ≡ none)
          → monthly_candidates luxon period_start seed config
            ≡ map
                (λ c. at_seed_time luxon c seed)
                (somes (
                  map
                    (day_in_month_or_null luxon (start_of_month period_start))
                    (days_or_seed luxon config.by_month_day seed)))
      plain_days (inl p) = rw (anchor, monthly_candidates, p)
      plain_days (inr p) = elim (Option-cases (non_empty config.by_set_pos)) [
        | inl e ↦ rw (anchor, monthly_candidates, e)
        | inr (ps, e) ↦ rw (anchor, monthly_candidates, e, p)
      ]
