-- ===== src/Session/DraftThrottle/Latest.antt =====
-- What becomes of a submitted job.
use cue_api.Common.{ℕ, ◌≡◌, refl, String, Bool, true, false, ◌⊎◌, inl, inr, Option, none, some, ◌∷◌}
use cue_api.Session.DraftThrottle.{
  DraftThrottle, run_now, is_open, arm, submit, run_next, flush, cancel, clear_flush_timer,
}

-- The job ran, or it waits for a timer that is armed, which will run it if nothing comes between;
-- and a cancellation leaves no timer and no job.
abbrev pub RanOrWaits : ℕ → String → DraftThrottle → DraftThrottle → Type 0
RanOrWaits run_time job s s' =
    (s'.runs ≡ (run_time, job) ∷ s.runs)
    ⊎ ((due : ℕ) × (s'.flush_timer ≡ some due)
        × (s'.runs ≡ s.runs)
        × ((later : ℕ) → (flush later s').runs ≡ (later, job) ∷ s.runs)
        × ((cancel s').flush_timer ≡ none)
        × ((later : ℕ) → (flush later (cancel s')).runs ≡ s.runs))

-- A submission runs its job at once, or a timer is armed whose callback runs that very job,
-- whatever waited before; and once cancelled it never runs.
pub submit-RanOrWaits :
    (now run_time : ℕ) (job : String) (s : DraftThrottle)
    → RanOrWaits run_time job s (submit now run_time job s)
unfolding submit run_now arm flush run_next cancel clear_flush_timer
submit-RanOrWaits now run_time job s =
    go s.flush_timer (is_open s.min_interval_ms now s.last_run_at) refl
  where
    go :
        (timer : Option ℕ) (open_now : Bool)
        → is_open s.min_interval_ms now s.last_run_at ≡ open_now
        → RanOrWaits run_time job s (submit now run_time job (record s { flush_timer = timer }))
    go none true e = rw e (inl refl)
    go none false e = rw e (inr (_, refl, refl, λ later. refl, refl, λ later. refl))
    go (some due) true e = rw e (inr (due, refl, refl, λ later. refl, refl, λ later. refl))
    go (some due) false e = rw e (inr (due, refl, refl, λ later. refl, refl, λ later. refl))
