-- ===== src/Recurrence/Selectors/Examples.antt =====
-- The selectors on a concrete calendar.
use cue_api.Common.{ℕ, ◌≡◌, refl, none, some, [], ◌∷◌, map, arith, inl, pos, negsuc, leb, filter_by}
use cue_api.Recurrence.Types.{
  RecurrenceConfig, monthly, never, first_workday, last_workday, day_before_last_workday,
}
use cue_api.Recurrence.Uniform.{uniform, uniform-SetsDay}
use cue_api.Recurrence.Selectors.{
  day_in_month_or_null, nth_weekday_in_month, workday_anchor_in_month, monthly_candidates,
  at_seed_time, days_or_seed,
}
use cue_api.Recurrence.Selectors.Workday.{IsFromStart, IsFromEnd, workday_anchor_in_month_lem}
use cue_api.Recurrence.Selectors.SetPos.{IsNth, IsNthLast, nth_weekday_in_month_lem}
use cue_api.Recurrence.Selectors.MonthDays.{monthly_candidates-days}

-- The month that begins on day 90: its days 1 to 30 are the days 90 to 119.
abbrev fourth_month : ℕ
fourth_month = 90

workday_anchor_in_month_example :
    IsFromStart uniform fourth_month 0 30
      (workday_anchor_in_month uniform fourth_month first_workday)
    × IsFromEnd uniform fourth_month 30 0
        (workday_anchor_in_month uniform fourth_month last_workday)
    × IsFromEnd uniform fourth_month 30 1
        (workday_anchor_in_month uniform fourth_month day_before_last_workday)
workday_anchor_in_month_example = workday_anchor_in_month_lem uniform fourth_month 30 refl

nth_weekday_in_month_example :
    IsNth uniform fourth_month
      (0 ∷ [])
      30
      1
      (nth_weekday_in_month uniform fourth_month (0 ∷ []) (pos 2))
    × IsNthLast uniform fourth_month
        (0 ∷ [])
        30
        1
        (nth_weekday_in_month uniform fourth_month (0 ∷ []) (negsuc 1))
nth_weekday_in_month_example = nth_weekday_in_month_lem uniform fourth_month (0 ∷ []) 30 refl 1

abbrev end_of_month_rule : RecurrenceConfig
end_of_month_rule = record {
  frequency = monthly;
  interval = 1;
  by_weekday = none;
  by_month_day = some (1 ∷ 31 ∷ 30 ∷ []);
  by_month = none;
  by_set_pos = none;
  monthly_anchor = none;
  end_type = never;
  end_date = none;
  count = none;
}

monthly_candidates-days_example :
    monthly_candidates uniform 100 100 end_of_month_rule
    ≡ map
        (λ d. at_seed_time uniform (uniform.set_day 90 d) 100)
        (filter_by (λ d. leb d 30) (days_or_seed uniform end_of_month_rule.by_month_day 100))
unfolding days_or_seed
monthly_candidates-days_example =
    monthly_candidates-days uniform uniform-SetsDay 100 100 end_of_month_rule 30 refl (inl refl)
      refl (omega arith)

days_of_month : monthly_candidates uniform 100 100 end_of_month_rule ≡ 90 ∷ 119 ∷ []
unfolding monthly_candidates day_in_month_or_null at_seed_time
days_of_month = refl
