-- ===== src/Recurrence/Candidates/Examples.antt =====
-- The candidates of a week on a concrete calendar.
use cue_api.Common.{◌*◌, ◌≡◌, refl, none, some, [], ◌∷◌, map, All, Ascending, includes, sort_by}
use cue_api.Recurrence.Types.{RecurrenceConfig, weekly, never}
use cue_api.Recurrence.Uniform.{uniform}
use cue_api.Recurrence.Selectors.{raw_candidates, luxon_weekday_to_entity}
use cue_api.Recurrence.Candidates.{candidates_for_period, keep_candidates, passes_limit_filters}
use cue_api.Recurrence.Candidates.Order.{
  IsCandidate, offered, candidates_for_period-Ascending, includes-candidates_for_period,
}

-- Every second week on Wednesday, Monday and Wednesday once more.
abbrev pub biweekly : RecurrenceConfig
biweekly = record {
  frequency = weekly;
  interval = 2;
  by_weekday = some (2 ∷ 0 ∷ 2 ∷ []);
  by_month_day = none;
  by_month = none;
  by_set_pos = none;
  monthly_anchor = none;
  end_type = never;
  end_date = none;
  count = none;
}

candidates_for_period-Ascending_example :
    Ascending (map uniform.to_millis (candidates_for_period uniform 100 98 biweekly))
    × All
        (IsCandidate uniform biweekly (98 * 86_400_000))
        (candidates_for_period uniform 100 98 biweekly)
candidates_for_period-Ascending_example = candidates_for_period-Ascending uniform biweekly 100 98

includes-candidates_for_period_example :
    includes
      (map uniform.to_millis (candidates_for_period uniform 100 98 biweekly))
      (100 * 86_400_000)
    ≡ offered uniform biweekly
        (98 * 86_400_000)
        (100 * 86_400_000)
        (raw_candidates uniform 100 98 biweekly)
includes-candidates_for_period_example =
    includes-candidates_for_period uniform biweekly 100 98 (100 * 86_400_000)

week : candidates_for_period uniform 100 98 biweekly ≡ 98 ∷ 100 ∷ []
unfolding candidates_for_period keep_candidates passes_limit_filters raw_candidates sort_by
    luxon_weekday_to_entity
week = refl
