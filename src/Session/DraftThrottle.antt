-- ===== src/Session/DraftThrottle.antt =====
-- modules/assistant/reply/draft-throttle.ts: the limiter of draft updates. Times are milliseconds;
-- each reading of the clock is an argument. A job is its text, and its send, which may fail without
-- effect on the limiter, is an entry of the log `runs`. A timer is its due time.
mod Spacing
mod Latest
mod Examples
use cue_api.Common.{
  ℕ, ◌+◌, ◌-◌, ◌/◌, min, max, ◌≤◌, ◌≡◌, String, Bool, true, false, ◌&&◌, Option, none, some, List,
  [], ◌∷◌, leb, if◌then◌else◌,
}

abbrev default_draft_updates_per_second : ℕ
default_draft_updates_per_second = 4

-- The constructor's `minIntervalMs`, for a whole number of updates.
pub min_interval_ms : ℕ → ℕ
min_interval_ms updates_per_second =
    let clamped = min 5 (max 2 updates_per_second) in (1000 + clamped - 1) / clamped

pub record DraftThrottle : Type 0 where
  pub min_interval_ms : ℕ
  -- none is the -Infinity of a new limiter.
  pub last_run_at : Option ℕ
  pub pending_job : Option String
  pub flush_timer : Option ℕ
  -- The jobs that ran, with their times, the latest first.
  pub runs : List (ℕ × String)

pub new_throttle : ℕ → DraftThrottle
new_throttle updates_per_second = record {
  min_interval_ms = min_interval_ms updates_per_second;
  last_run_at = none;
  pending_job = none;
  flush_timer = none;
  runs = [];
}

clear_flush_timer : DraftThrottle → DraftThrottle
clear_flush_timer s = record s { flush_timer = none }

-- The time is the one that `runNow` reads.
run_now : ℕ → String → DraftThrottle → DraftThrottle
run_now now job s = record s { last_run_at = some now; runs = (now, job) ∷ s.runs }

-- `elapsed >= this.minIntervalMs`
is_open : ℕ → ℕ → Option ℕ → Bool
is_open interval now none = true
is_open interval now (some last) = leb (last + interval) now

-- `Math.max(0, this.minIntervalMs - elapsed)`
wait_ms : ℕ → ℕ → Option ℕ → ℕ
wait_ms interval now none = 0
wait_ms interval now (some last) = last + interval - now

-- The timer is armed unless it is.
arm : ℕ → Option ℕ → DraftThrottle → DraftThrottle
arm now none s = record s { flush_timer = some (now + wait_ms s.min_interval_ms now s.last_run_at) }
arm now (some due) s = s

abbrev is_idle : Option ℕ → Bool
is_idle none = true
is_idle (some due) = false

-- A submission reads the clock for `elapsed`, and again where it runs the job.
pub submit : ℕ → ℕ → String → DraftThrottle → DraftThrottle
submit now run_time job s =
    if is_open s.min_interval_ms now s.last_run_at && is_idle s.flush_timer
    then run_now run_time job s
    else arm now s.flush_timer (record s { pending_job = some job })

run_next : ℕ → Option String → DraftThrottle → DraftThrottle
run_next now none s = s
run_next now (some next) s = run_now now next s

-- The callback of the timer.
pub flush : ℕ → DraftThrottle → DraftThrottle
flush now s = run_next now s.pending_job (record s { flush_timer = none; pending_job = none })

pub cancel : DraftThrottle → DraftThrottle
cancel s = record (clear_flush_timer s) { pending_job = none }

-- What may happen from one time to a later one: a timer fires no sooner than it is due.
pub data Step : ℕ → DraftThrottle → ℕ → DraftThrottle → Type 0 where
  submitted :
      {t now run_time : ℕ} (job : String) {s : DraftThrottle}
      → t ≤ now
      → now ≤ run_time
      → Step t s run_time (submit now run_time job s)
  fired :
      {t now due : ℕ} {s : DraftThrottle}
      → s.flush_timer ≡ some due
      → due ≤ now
      → t ≤ now
      → Step t s now (flush now s)
  cancelled : {t : ℕ} {s : DraftThrottle} → Step t s t (cancel s)

pub data Steps : ℕ → DraftThrottle → ℕ → DraftThrottle → Type 0 where
  still : {t : ℕ} {s : DraftThrottle} → Steps t s t s
  then_step :
      {t t' t'' : ℕ} {s s' s'' : DraftThrottle}
      → Steps t s t' s'
      → Step t' s' t'' s''
      → Steps t s t'' s''
