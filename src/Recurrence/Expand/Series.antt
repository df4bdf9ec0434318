-- ===== src/Recurrence/Expand/Series.antt =====
-- The expansion as a pipeline over the candidates of all periods.
use cue_api.Common.{
  ℕ, zero, suc, ◌<◌, ◌≡◌, refl, ◌∙◌, Bool, true, false, List, [], ◌∷◌, ◌++◌, map, leb, lt→leb,
  le→leb, if◌then◌else◌, take, arith, Bool-cases, inl, inr,
}
use cue_api.Recurrence.Types.{
  RecurrenceConfig, RecurrenceFrequency, daily, weekly, monthly, yearly, Occurrence,
}
use cue_api.Recurrence.Luxon.{Luxon, Moves}
use cue_api.Recurrence.Candidates.{candidates_for_period}
use cue_api.Recurrence.Expand.{
  Window, Flow, returned, truncated, proceed, visit, visit_all, step_period, generate,
  max_occurrences_per_window,
}
use cue_api.Recurrence.Expand.Pipeline.{upcoming, collected, collected-visit_all, visit_all-nil}

module _ (luxon : Luxon) (w : Window) where
  open luxon use {DateTime}

  -- The loop over candidates goes on with a second list where the first leaves off.
  abbrev resume : List DateTime → Flow → Flow
  resume ys (returned os) = returned os
  resume ys (truncated os) = truncated os
  resume ys (proceed os n) = visit_all luxon w ys os n

  visit_all-append :
      (xs ys : List DateTime) (os : List Occurrence) (n : ℕ)
      → visit_all luxon w (xs ++ ys) os n ≡ resume ys (visit_all luxon w xs os n)
  unfolding visit_all
  visit_all-append [] ys os n = refl
  visit_all-append (x ∷ xs) ys os n =
      go (visit w (luxon.to_millis x) os n) refl (visit_all-append xs ys)
    where
      go :
          (f : Flow)
          → visit w (luxon.to_millis x) os n ≡ f
          → ((os : List Occurrence) (n : ℕ)
              → visit_all luxon w (xs ++ ys) os n ≡ resume ys (visit_all luxon w xs os n))
          → visit_all luxon w (x ∷ xs ++ ys) os n ≡ resume ys (visit_all luxon w (x ∷ xs) os n)
      go (returned o) e ih = rw (e, visit_all)
      go (truncated o) e ih = rw (e, visit_all)
      go (proceed o k) e ih = rw (e, visit_all) (ih o k)

module _ (luxon : Luxon) (config : RecurrenceConfig) (seed : luxon.DateTime) where
  open luxon use {DateTime, to_millis, plus_days, plus_weeks, plus_months, plus_years}

  -- The candidates of the periods that the loop goes through in `steps` rounds from a cursor.
  unfoldable pub stream : ℕ → DateTime → List DateTime
  stream zero cursor = []
  stream (suc steps) cursor =
      let rest = stream steps (step_period luxon cursor config) in
      candidates_for_period luxon cursor seed config
      ++ (if leb (to_millis (step_period luxon cursor config)) (to_millis cursor) then [] else rest)

  module _ (w : Window) (steps : ℕ) (cursor : DateTime) (os : List Occurrence) (n : ℕ) where
    abbrev here : Flow
    here = visit_all luxon w (candidates_for_period luxon cursor seed config) os n

    abbrev stalls : Bool
    stalls = leb (to_millis (step_period luxon cursor config)) (to_millis cursor)

    module _ (o : List Occurrence) where
      generate-returned :
          here ≡ returned o → generate luxon config seed w (suc steps) cursor os n ≡ o
      unfolding generate
      generate-returned e = rw (e, generate)

      generate-truncated :
          here ≡ truncated o → generate luxon config seed w (suc steps) cursor os n ≡ o
      unfolding generate
      generate-truncated e = rw (e, generate)

      generate-stalled :
          (k : ℕ)
          → here ≡ proceed o k
          → stalls ≡ true
          → generate luxon config seed w (suc steps) cursor os n ≡ o
      unfolding generate
      generate-stalled k e s = rw (e, generate) (ground arith)

      generate-proceed :
          (k : ℕ)
          → here ≡ proceed o k
          → stalls ≡ false
          → generate luxon config seed w (suc steps) cursor os n
            ≡ generate luxon config seed w steps (step_period luxon cursor config) o k
      unfolding generate
      generate-proceed k e s = rw (e, generate) (ground arith)

  generate-zero :
      (w : Window) (cursor : DateTime) (os : List Occurrence) (n : ℕ)
      → generate luxon config seed w zero cursor os n ≡ os
  unfolding generate
  generate-zero w cursor os n = refl

  -- The periods' rounds are one loop over the whole stream.
  generate-stream :
      (w : Window) (steps : ℕ) (cursor : DateTime) (os : List Occurrence) (n : ℕ)
      → generate luxon config seed w steps cursor os n
        ≡ collected (visit_all luxon w (stream steps cursor) os n)
  unfolding stream
  generate-stream w zero cursor os n = rw (visit_all-nil luxon w os n) (generate-zero w cursor os n)
  generate-stream w (suc steps) cursor os n =
      rw (visit_all-append luxon w (candidates_for_period luxon cursor seed config) _ os n)
        (go (here w steps cursor os n) refl (generate-stream w steps next))
    where
      next : DateTime
      next = step_period luxon cursor config

      tail : List DateTime
      tail = if leb (to_millis next) (to_millis cursor) then [] else stream steps next

      go :
          (f : Flow)
          → here w steps cursor os n ≡ f
          → ((os : List Occurrence) (n : ℕ)
              → generate luxon config seed w steps next os n
                ≡ collected (visit_all luxon w (stream steps next) os n))
          → generate luxon config seed w (suc steps) cursor os n
            ≡ collected (resume luxon w tail (here w steps cursor os n))
      go (returned o) e ih = rw e (generate-returned w steps cursor os n o e)
      go (truncated o) e ih = rw e (generate-truncated w steps cursor os n o e)
      go (proceed o k) e ih = elim (Bool-cases (stalls w steps cursor os n)) [
        | inl s ↦
            rw (e, s, visit_all-nil luxon w o k) (generate-stalled w steps cursor os n o k e s)
        | inr s ↦ rw (e, s) (generate-proceed w steps cursor os n o k e s ∙ ih o k)
      ]

  -- The interval is raised to one where it is less, so that each kind of step moves forward.
  at_least_one :
      (plus : DateTime → ℕ → DateTime)
      → ((t : DateTime) (n : ℕ) → to_millis t < to_millis (plus t (suc n)))
      → (t : DateTime) (i : ℕ) → to_millis t < to_millis (plus t (if leb 1 i then i else 1))
  at_least_one plus forward t zero = forward t 0
  at_least_one plus forward t (suc i) = rw (le→leb 1 (suc i) (omega arith)) (forward t i)

  step_period-grows :
      Moves luxon
      → (cursor : DateTime) → to_millis cursor < to_millis (step_period luxon cursor config)
  unfolding step_period
  step_period-grows moves cursor = go config.frequency config.interval
    where
      go :
          (f : RecurrenceFrequency) (i : ℕ)
          → to_millis cursor
            < to_millis (step_period luxon cursor (record config { frequency = f; interval = i }))
      go daily i = at_least_one plus_days moves.days_forward cursor i
      go weekly i = at_least_one plus_weeks moves.weeks_forward cursor i
      go monthly i = at_least_one plus_months moves.months_forward cursor i
      go yearly i = at_least_one plus_years moves.years_forward cursor i

  -- The candidates of the first `steps` periods from a cursor, in order.
  unfoldable pub periods : ℕ → DateTime → List DateTime
  periods zero cursor = []
  periods (suc steps) cursor =
      candidates_for_period luxon cursor seed config
      ++ periods steps (step_period luxon cursor config)

  -- Where the calendar moves forward, the guard against a standing cursor never fires.
  pub stream-periods :
      Moves luxon → (steps : ℕ) (cursor : DateTime) → stream steps cursor ≡ periods steps cursor
  unfolding stream periods
  stream-periods moves zero cursor = refl
  stream-periods moves (suc steps) cursor =
      rw (lt→leb _ _ (step_period-grows moves cursor), stream-periods moves steps _)

  -- The loop from nothing gathers what the pipeline gives.
  pub generate-upcoming :
      (w : Window) (steps : ℕ) (cursor : DateTime)
      → generate luxon config seed w steps cursor [] 0
        ≡ take max_occurrences_per_window (upcoming w 0 (map to_millis (stream steps cursor)))
  generate-upcoming w steps cursor =
      generate-stream w steps cursor [] 0
      ∙ collected-visit_all luxon w (stream steps cursor) [] 0 999 (omega arith)
