-- ===== src/Recurrence/Luxon.antt =====
-- The part of the luxon package that the recurrence engine calls. The package is not part of the
-- repository: its `DateTime` and the operations on it are a parameter, and what the engine relies
-- on are the laws below, which luxon documents.
use cue_api.Common.{ℕ, suc, String, Option, some, ◌≡◌, ◌≢◌, ◌≤◌, ◌<◌}
use cue_api.Recurrence.Types.{Instant}

pub record Luxon : Type 1 where
  pub DateTime : Type 0
  pub to_millis : DateTime → Instant
  -- `fromJSDate(date, { zone })` and `fromISO(text, { zone })`; none stands for an invalid value.
  pub from_js_date : Instant → String → Option DateTime
  pub from_iso : String → String → Option DateTime
  pub weekday : DateTime → ℕ
  pub day : DateTime → ℕ
  pub month : DateTime → ℕ
  pub days_in_month : DateTime → Option ℕ
  pub plus_days : DateTime → ℕ → DateTime
  pub plus_weeks : DateTime → ℕ → DateTime
  pub plus_months : DateTime → ℕ → DateTime
  pub plus_years : DateTime → ℕ → DateTime
  pub minus_days : DateTime → ℕ → DateTime
  -- `toISODate()` of a valid value.
  pub to_iso_date : DateTime → String
  pub start_of_day : DateTime → DateTime
  pub start_of_week : DateTime → DateTime
  pub start_of_month : DateTime → DateTime
  pub end_of_day : DateTime → DateTime
  -- `set({ day })` and `set({ month, day: 1 })`.
  pub set_day : DateTime → ℕ → DateTime
  pub set_month_first : DateTime → ℕ → DateTime
  -- `t.set({ hour: s.hour, minute: s.minute, second: s.second, millisecond: s.millisecond })`.
  pub set_time_of : DateTime → DateTime → DateTime

module _ (luxon : Luxon) where
  open luxon use {DateTime, to_millis, from_js_date, plus_days, plus_weeks, plus_months, plus_years}
  open luxon use {set_day, days_in_month, day, month}

  -- `plus` with a positive amount moves forward.
  pub record Moves : Type 0 where
    pub days_forward : (t : DateTime) (n : ℕ) → to_millis t < to_millis (plus_days t (suc n))
    pub weeks_forward : (t : DateTime) (n : ℕ) → to_millis t < to_millis (plus_weeks t (suc n))
    pub months_forward : (t : DateTime) (n : ℕ) → to_millis t < to_millis (plus_months t (suc n))
    pub years_forward : (t : DateTime) (n : ℕ) → to_millis t < to_millis (plus_years t (suc n))

  -- `set({ day })` stays in the month on the days that the month has, and overflows into the
  -- next month on the others up to 31.
  pub record SetsDay : Type 0 where
    pub in_month :
        (t : DateTime) (n d : ℕ)
        → days_in_month t ≡ some n
        → 1 ≤ d
        → d ≤ n
        → month (set_day t d) ≡ month t
    pub past_month :
        (t : DateTime) (n d : ℕ)
        → days_in_month t ≡ some n
        → n < d
        → d ≤ 31
        → month (set_day t d) ≢ month t
