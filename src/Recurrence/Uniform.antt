-- ===== src/Recurrence/Uniform.antt =====
-- A concrete calendar that meets the laws of the luxon interface, for examples.
use cue_api.Common.{ℕ, ◌+◌, ◌-◌, ◌*◌, ◌/◌, ◌%◌, ◌≡◌, none, some, arith}
use cue_api.Recurrence.Luxon.{Luxon, Moves, SetsDay}

-- Months of 30 days, years of 12 months, weeks that begin on day 0; a value is a day at midnight.
abbrev pub uniform : Luxon
uniform = record {
  DateTime = ℕ;
  to_millis = λ t. t * 86_400_000;
  from_js_date = λ instant zone. some (instant / 86_400_000);
  from_iso = λ text zone. none;
  weekday = λ t. t % 7 + 1;
  day = λ t. t % 30 + 1;
  month = λ t. t / 30 % 12 + 1;
  days_in_month = λ t. some 30;
  plus_days = λ t n. t + n;
  plus_weeks = λ t n. t + n * 7;
  plus_months = λ t n. t + n * 30;
  plus_years = λ t n. t + n * 360;
  minus_days = λ t n. t - n;
  to_iso_date = λ t. "1970-01-01";
  start_of_day = λ t. t;
  start_of_week = λ t. t / 7 * 7;
  start_of_month = λ t. t / 30 * 30;
  end_of_day = λ t. t;
  set_day = λ t d. t / 30 * 30 + d - 1;
  set_month_first = λ t m. t / 360 * 360 + (m - 1) * 30;
  set_time_of = λ t s. t;
}

pub uniform-Moves : Moves uniform
uniform-Moves = record {
  days_forward = λ t n. omega arith;
  weeks_forward = λ t n. omega arith;
  months_forward = λ t n. omega arith;
  years_forward = λ t n. omega arith;
}

some_eq : (n : ℕ) → some 30 ≡ some n → n ≡ 30
some_eq n e = ground arith

pub uniform-SetsDay : SetsDay uniform
uniform-SetsDay = record {
  in_month = λ t n d days low high. omega (arith, some_eq n days);
  past_month = λ t n d days past high. omega (arith, some_eq n days);
}
