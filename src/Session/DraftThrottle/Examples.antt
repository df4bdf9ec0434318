-- ===== src/Session/DraftThrottle/Examples.antt =====
-- A limiter of four updates per second.
use cue_api.Common.{◌≡◌, refl, some, [], ◌∷◌, arith}
use cue_api.Session.DraftThrottle.{
  DraftThrottle, new_throttle, min_interval_ms, submit, flush, still, then_step, submitted, fired,
  run_now, is_open, wait_ms, arm, run_next,
}
use cue_api.Session.DraftThrottle.Spacing.{Spaced, Steps-Spaced}
use cue_api.Session.DraftThrottle.Latest.{RanOrWaits, submit-RanOrWaits}

abbrev first : DraftThrottle
first = submit 1000 1000 "a" (new_throttle 4)

-- Two more submissions inside the window, and the timer.
abbrev second : DraftThrottle
second = flush 1250 (submit 1200 1200 "c" (submit 1100 1100 "b" first))

second-runs : second.runs ≡ (1250, "c") ∷ (1000, "a") ∷ []
unfolding new_throttle min_interval_ms submit flush run_now is_open wait_ms arm run_next
second-runs = refl

due : (submit 1200 1200 "c" (submit 1100 1100 "b" first)).flush_timer ≡ some 1250
unfolding new_throttle min_interval_ms submit flush run_now is_open wait_ms arm run_next
due = refl

Steps-Spaced_example : Spaced (min_interval_ms 4) second.runs
Steps-Spaced_example = Steps-Spaced 4 {t = 0} {t' = 1250} {s = second} (
    then_step
      (then_step
        (then_step (then_step still (submitted "a" (omega arith) (omega arith)))
          (submitted "b" (omega arith) (omega arith)))
        (submitted "c" (omega arith) (omega arith)))
      (fired due (omega arith) (omega arith)))

submit-RanOrWaits_example : RanOrWaits 1100 "b" first (submit 1100 1100 "b" first)
submit-RanOrWaits_example = submit-RanOrWaits 1100 1100 "b" first
