-- ===== src/Session/DraftThrottle/Spacing.antt =====
-- The rate of a limiter.
use cue_api.Common.{
  ℕ, ◌+◌, ◌≤◌, ◌≡◌, refl, ◌∙◌, subst, String, true, Option, none, some, List, [], ◌∷◌, arith,
  Bool-cases, inl, inr, leb, leb→le,
}
use cue_api.Session.DraftThrottle.{
  DraftThrottle, new_throttle, min_interval_ms, run_now, is_open, wait_ms, arm, submit, run_next,
  flush, cancel, clear_flush_timer, Step, submitted, fired, cancelled, Steps, still, then_step,
}

-- Each run comes at least the interval after the one before it.
abbrev pub Spaced : ℕ → List (ℕ × String) → Type 0
Spaced interval [] = Unit {0}
Spaced interval (run ∷ []) = Unit {0}
Spaced interval (run ∷ earlier ∷ runs) =
    (earlier.0 + interval ≤ run.0) × Spaced interval (earlier ∷ runs)

-- The window's stamp is the time of the last run, no later than now.
abbrev Stamped : ℕ → Option ℕ → List (ℕ × String) → Type 0
Stamped t none [] = Unit {0}
Stamped t none (run ∷ runs) = ⊥
Stamped t (some last) [] = ⊥
Stamped t (some last) (run ∷ runs) = (last ≡ run.0) × (last ≤ t)

-- A timer is due when the window opens or later.
abbrev Armed : ℕ → Option ℕ → Option ℕ → Type 0
Armed interval last none = Unit {0}
Armed interval none (some due) = ⊥
Armed interval (some last) (some due) = last + interval ≤ due

abbrev Ok : ℕ → ℕ → Option ℕ → Option ℕ → List (ℕ × String) → Type 0
Ok interval t last timer runs =
    Stamped t last runs × (Armed interval last timer × Spaced interval runs)

abbrev IsValid : ℕ → DraftThrottle → Type 0
IsValid t s = Ok s.min_interval_ms t s.last_run_at s.flush_timer s.runs

-- A later time.
Stamped-later :
    (t t' : ℕ) (last : Option ℕ) (runs : List (ℕ × String))
    → t ≤ t'
    → Stamped t last runs
    → Stamped t' last runs
Stamped-later t t' none [] m h = tt
Stamped-later t t' none (run ∷ runs) m h = absurd h
Stamped-later t t' (some last) [] m h = absurd h
Stamped-later t t' (some last) (run ∷ runs) m (e, k) = (e, omega arith)

-- No step changes the interval.
submit-interval :
    (now run_time : ℕ) (job : String) (s : DraftThrottle)
    → (submit now run_time job s).min_interval_ms ≡ s.min_interval_ms
unfolding submit run_now arm
submit-interval now run_time job s = ground arith

flush-interval : (now : ℕ) (s : DraftThrottle) → (flush now s).min_interval_ms ≡ s.min_interval_ms
unfolding flush run_next run_now
flush-interval now s = ground arith

-- A run in an open window.
Spaced-run :
    (interval t now : ℕ) (job : String) (last : Option ℕ) (runs : List (ℕ × String))
    → Stamped t last runs
    → is_open interval now last ≡ true
    → Spaced interval runs
    → Spaced interval ((now, job) ∷ runs)
unfolding is_open
Spaced-run interval t now job none [] h o k = tt
Spaced-run interval t now job none (run ∷ runs) h o k = absurd h
Spaced-run interval t now job (some last) [] h o k = absurd h
Spaced-run interval t now job (some last) (run ∷ runs) (e, m) o k = (omega (arith, leb→le _ _ o), k)

submit-IsValid :
    (t now run_time : ℕ) (job : String) (s : DraftThrottle)
    → t ≤ now
    → now ≤ run_time
    → IsValid t s
    → IsValid run_time (submit now run_time job s)
unfolding submit run_now arm is_open wait_ms
submit-IsValid t now run_time job s m n (h, (a, k)) = go s.last_run_at s.flush_timer s.runs h a k
  where
    go :
        (last timer : Option ℕ) (runs : List (ℕ × String))
        → Stamped t last runs
        → Armed s.min_interval_ms last timer
        → Spaced s.min_interval_ms runs
        → IsValid run_time (
            submit now run_time job
              (record s { last_run_at = last; flush_timer = timer; runs = runs }))
    go none none (run ∷ runs) h a k = absurd h
    go none (some due) runs h a k = absurd a
    go (some last) none [] h a k = absurd h
    go (some last) (some due) [] h a k = absurd h
    go none none [] h a k = ((refl, omega arith), (tt, tt))
    go (some last) (some due) (run ∷ runs) (e, q) a k =
        elim (Bool-cases (leb (last + s.min_interval_ms) now)) [
          | inl o ↦ rw o ((e, omega arith), (a, k))
          | inr o ↦ rw o ((e, omega arith), (a, k))
        ]
    go (some last) none (run ∷ runs) (e, q) a k =
        elim (Bool-cases (leb (last + s.min_interval_ms) now)) [
          | inl o ↦ rw o ((refl, omega arith), (tt, (omega (arith, leb→le _ _ o), k)))
          | inr o ↦ rw o ((e, omega arith), (omega arith, k))
        ]

flush-IsValid :
    (t now due : ℕ) (s : DraftThrottle)
    → s.flush_timer ≡ some due
    → due ≤ now
    → t ≤ now
    → IsValid t s
    → IsValid now (flush now s)
unfolding flush run_next run_now
flush-IsValid t now due s e d m (h, (a, k)) =
    go s.pending_job s.last_run_at s.runs h (subst (Armed s.min_interval_ms s.last_run_at) e a) k
  where
    go :
        (pending : Option String) (last : Option ℕ) (runs : List (ℕ × String))
        → Stamped t last runs
        → Armed s.min_interval_ms last (some due)
        → Spaced s.min_interval_ms runs
        → IsValid now (
            run_next now pending (record s {
              pending_job = none;
              last_run_at = last;
              flush_timer = none;
              runs = runs;
            }))
    go pending none runs h a k = absurd a
    go pending (some last) [] h a k = absurd h
    go none (some last) (run ∷ runs) (p, q) a k = ((p, omega arith), (tt, k))
    go (some job) (some last) (run ∷ runs) (p, q) a k =
        ((refl, omega arith), (tt, (omega arith, k)))

Step-IsValid :
    {t t' : ℕ} {s s' : DraftThrottle}
    → Step t s t' s'
    → (s'.min_interval_ms ≡ s.min_interval_ms) × (IsValid t s → IsValid t' s')
unfolding cancel clear_flush_timer
Step-IsValid (submitted job m n) = (submit-interval _ _ job _, submit-IsValid _ _ _ job _ m n)
Step-IsValid (fired e d m) = (flush-interval _ _, flush-IsValid _ _ _ _ e d m)
Step-IsValid cancelled = (refl, λ h. (h.0, (tt, h.1.1)))

Steps-IsValid :
    {t t' : ℕ} {s s' : DraftThrottle}
    → Steps t s t' s'
    → IsValid t s
    → (s'.min_interval_ms ≡ s.min_interval_ms) × IsValid t' s'
Steps-IsValid still h = (refl, h)
Steps-IsValid (then_step steps step) h =
    let (e, k) = Steps-IsValid steps h in ((Step-IsValid step).0 ∙ e, (Step-IsValid step).1 k)

-- Whatever is submitted, flushed and cancelled, and whenever, two draft updates of one limiter run
-- at least the interval apart that its cap demands.
pub Steps-Spaced :
    (updates_per_second : ℕ) {t t' : ℕ} {s : DraftThrottle}
    → Steps t (new_throttle updates_per_second) t' s
    → Spaced (min_interval_ms updates_per_second) s.runs
unfolding new_throttle
Steps-Spaced updates_per_second {t} {t'} {s} steps =
    let (e, h) = Steps-IsValid steps (tt, (tt, tt)) in subst (λ i. Spaced i s.runs) e h.1.1
