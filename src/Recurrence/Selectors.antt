-- ===== src/Recurrence/Selectors.antt =====
-- recurrence-rule.service.ts: the candidate starts within one period of a rule.
pub mod Workday
pub mod SetPos
pub mod MonthDays
mod Examples
use cue_api.Common.{
  ℕ, zero, suc, ◌+◌, ◌-◌, ◌≡◌, Bool, true, false, not, ◌&&◌, Option, none, some, List, [], ◌∷◌,
  ◌++◌, map, ℤ, pos, negsuc, leb, ltb, ◌==◌, if◌then◌else◌, includes, get_elem?, get_or, length,
  somes,
}
use cue_api.Recurrence.Types.{
  RecurrenceConfig, RecurrenceFrequency, daily, weekly, monthly, yearly, MonthlyAnchorMode,
  first_workday, last_workday, day_before_last_workday,
}
use cue_api.Recurrence.Luxon.{Luxon}

-- `list && list.length > 0`: the list where it is given and not empty.
abbrev pub non_empty {ℓ} : {A : Type ℓ} → Option (List A) → Option (List A)
non_empty none = none
non_empty (some []) = none
non_empty (some (x ∷ xs)) = some (x ∷ xs)

-- `luxonWeekday - 1`; luxon's weekdays are 1 to 7.
unfoldable pub luxon_weekday_to_entity : ℕ → ℕ
luxon_weekday_to_entity luxon_weekday = luxon_weekday - 1

unfoldable pub is_workday : ℕ → Bool
is_workday luxon_weekday = leb luxon_weekday 5

-- The index that a set position names in a list of `n` matches: from the front if it is
-- positive, from the back otherwise; none where it is negative.
unfoldable pub set_pos_index : ℕ → ℤ → Option ℕ
set_pos_index n (pos zero) = some n
set_pos_index n (pos (suc k)) = some k
set_pos_index n (negsuc k) = if leb (suc k) n then some (n - suc k) else none

-- The days 1 to n.
abbrev pub days_up : ℕ → ℕ → List ℕ
days_up from zero = []
days_up from (suc n) = from ∷ days_up (suc from) n

module _ (luxon : Luxon) where
  open luxon use {DateTime, weekday, day, month, days_in_month, plus_days}
  open luxon use {
    start_of_day, start_of_week, start_of_month, set_day, set_month_first, set_time_of,
  }

  daily_candidates : DateTime → List DateTime
  daily_candidates period_start = period_start ∷ []

  weekly_candidates : DateTime → Option (List ℕ) → List DateTime
  weekly_candidates period_start by_weekday = elim (non_empty by_weekday) [
    | none ↦ period_start ∷ []
    | some weekdays ↦
        map (λ d. set_time_of (plus_days (start_of_week period_start) d) period_start) weekdays
  ]

  pub day_in_month_or_null : DateTime → ℕ → Option DateTime
  day_in_month_or_null month_start d =
      let candidate = set_day month_start d in
      if month candidate == month month_start then some candidate else none

  pub at_seed_time : DateTime → DateTime → DateTime
  at_seed_time candidate seed = set_time_of candidate seed

  -- The loop of `nthWeekdayInMonth` over the days of the month.
  pub weekday_matches : DateTime → List ℕ → List ℕ → List DateTime
  weekday_matches month_start allowed [] = []
  weekday_matches month_start allowed (d ∷ ds) =
      let candidate = set_day month_start d in
      let rest = weekday_matches month_start allowed ds in
      if includes allowed (luxon_weekday_to_entity (weekday candidate))
      then candidate ∷ rest
      else rest

  -- `get_elem?` is none past the end.
  unfoldable pub nth_weekday_in_month : DateTime → List ℕ → ℤ → Option DateTime
  nth_weekday_in_month month_start by_weekday set_pos =
      let matches =
        weekday_matches month_start by_weekday (days_up 1 (get_or (days_in_month month_start) 0)) in
      elim (set_pos_index (length matches) set_pos) [
        | none ↦ none
        | some index ↦ get_elem? matches index
      ]

  -- The loop from the first day on.
  pub first_workday_from : DateTime → List ℕ → Option DateTime
  first_workday_from month_start [] = none
  first_workday_from month_start (d ∷ ds) =
      let candidate = set_day month_start d in
      let rest = first_workday_from month_start ds in
      if is_workday (weekday candidate) then some candidate else rest

  -- The loop from day n down to 1, with the working days to skip and those seen.
  pub workday_back : DateTime → ℕ → ℕ → ℕ → Option DateTime
  workday_back month_start zero skip seen = none
  workday_back month_start (suc d) skip seen =
      let candidate = set_day month_start (suc d) in
      let passed = workday_back month_start d skip seen in
      let skipped = workday_back month_start d skip (seen + 1) in
      if not (is_workday (weekday candidate))
      then passed
      else if seen == skip
      then some candidate
      else skipped

  unfoldable pub workday_anchor_in_month : DateTime → MonthlyAnchorMode → Option DateTime
  workday_anchor_in_month month_start first_workday =
      first_workday_from month_start (days_up 1 (get_or (days_in_month month_start) 0))
  workday_anchor_in_month month_start last_workday =
      workday_back month_start (get_or (days_in_month month_start) 0) 0 0
  workday_anchor_in_month month_start day_before_last_workday =
      workday_back month_start (get_or (days_in_month month_start) 0) 1 0

  -- The day list of a monthly rule: the explicit days, or the seed's.
  pub days_or_seed : Option (List ℕ) → DateTime → List ℕ
  days_or_seed by_month_day seed = get_or (non_empty by_month_day) (day seed ∷ [])

  pub by_days : DateTime → DateTime → List ℕ → List DateTime
  by_days month_start seed days =
      map (λ c. at_seed_time c seed) (somes (map (day_in_month_or_null month_start) days))

  pub by_positions : DateTime → DateTime → List ℕ → List ℤ → List DateTime
  by_positions month_start seed weekdays positions =
      map (λ c. at_seed_time c seed)
        (somes (map (nth_weekday_in_month month_start weekdays) positions))

  unfoldable pub monthly_candidates : DateTime → DateTime → RecurrenceConfig → List DateTime
  unfolding days_or_seed by_days by_positions
  monthly_candidates period_start seed config =
      let month_start = start_of_month period_start in
      let plain = by_days month_start seed (days_or_seed config.by_month_day seed) in
      elim config.monthly_anchor [
        | some mode ↦ elim (workday_anchor_in_month month_start mode) [
          | some anchor ↦ at_seed_time anchor seed ∷ []
          | none ↦ []
        ]
        | none ↦ elim (non_empty config.by_set_pos) [
          | none ↦ plain
          | some positions ↦ elim (non_empty config.by_weekday) [
            | none ↦ plain
            | some weekdays ↦ by_positions month_start seed weekdays positions
          ]
        ]
      ]

  -- The inner loop of `yearlyCandidates`, over the days of one month.
  month_days : DateTime → DateTime → List ℕ → List DateTime
  unfolding by_days
  month_days month_start seed days = by_days month_start seed days

  -- The outer loop, over the months.
  year_months : DateTime → DateTime → List ℕ → List ℕ → List DateTime
  unfolding month_days
  year_months period_start seed days [] = []
  year_months period_start seed days (m ∷ ms) =
      month_days (start_of_day (set_month_first period_start m)) seed days
      ++ year_months period_start seed days ms

  unfoldable pub yearly_candidates :
      DateTime → DateTime → Option (List ℕ) → Option (List ℕ) → List DateTime
  unfolding days_or_seed year_months
  yearly_candidates period_start seed by_month by_month_day =
      year_months period_start seed (days_or_seed by_month_day seed)
        (get_or (non_empty by_month) (month seed ∷ []))

  -- The `raw` list of `candidatesForPeriod`, before it is filtered.
  unfoldable pub raw_candidates : DateTime → DateTime → RecurrenceConfig → List DateTime
  unfolding daily_candidates weekly_candidates
  raw_candidates period_start seed config = elim config.frequency [
    | daily ↦ daily_candidates period_start
    | weekly ↦ weekly_candidates period_start config.by_weekday
    | monthly ↦ monthly_candidates period_start seed config
    | yearly ↦ yearly_candidates period_start seed config.by_month config.by_month_day
  ]
