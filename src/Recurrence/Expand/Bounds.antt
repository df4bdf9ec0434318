-- ===== src/Recurrence/Expand/Bounds.antt =====
-- What each occurrence of an expansion satisfies, and how many there are.
use cue_api.Common.{
  ℕ, zero, suc, ◌-◌, ◌≤◌, ◌<◌, ◌≡◌, refl, Bool, true, false, Option, none, some, get_or,
  Option-cases, Bool-cases, inl, inr, List, [], ◌∷◌, map, length, length-take, take, take_while,
  arith, All, All-take, All-append, All-map, if◌then◌else◌,
}
use cue_api.Recurrence.Types.{
  Instant, RecurrenceConfig, RecurrenceSource, Task, TaskOccurrenceException, Occurrence,
}
use cue_api.Recurrence.Luxon.{Luxon}
use cue_api.Recurrence.Candidates.Order.{candidates_for_period-Ascending}
use cue_api.Recurrence.Expand.{
  Window, window_of, past_until, end_millis, skipped, exception_at, build_occurrence,
  max_occurrences_per_window, max_generation_steps, step_period, count_limit_of,
}
use cue_api.Recurrence.Expand.Pipeline.{in_bounds, hides, built, visible, remaining, upcoming}
use cue_api.Recurrence.Expand.Series.{stream}
use cue_api.Recurrence.Expand.Refinement.{
  expanded, window_at, expand_occurrences-timeless, expand_occurrences-invalid,
  expand_occurrences-generate,
}

-- The slot of an occurrence lies in the window of the expansion: it starts before the end, with the
-- duration of the series it ends after the beginning, it is not past the UNTIL boundary and no
-- exception skips it.
abbrev pub IsShown : Window → Occurrence → Type 0
IsShown w o =
    (past_until w.until o.original_start ≡ false)
    × (o.original_start < w.window_to)
    × (w.window_from < end_millis w.duration o.original_start)
    × (skipped (exception_at w.exceptions o.original_start) ≡ false)

module _ (w : Window) (lowest : Instant) where
  built-IsShown : (m : Instant) → in_bounds w m ≡ true → hides w m ≡ false → IsShown w (built w m)
  unfolding build_occurrence
  built-IsShown m h k = ground arith

  visible-IsShown :
      (ms : List Instant)
      → All (λ m. (in_bounds w m ≡ true) × (lowest ≤ m)) ms
      → All
          (λ o. IsShown w o × (lowest ≤ o.original_start) × (o ≡ built w o.original_start))
          (visible w ms)
  unfolding visible build_occurrence
  visible-IsShown [] h = tt
  visible-IsShown (m ∷ ms) ((b, l), h) = elim (Bool-cases (hides w m)) [
    | inl hid ↦ rw hid (visible-IsShown ms h)
    | inr shown ↦ rw shown ((built-IsShown m b shown, starts m l, refl), visible-IsShown ms h)
  ]
    where
      starts : (m : Instant) → lowest ≤ m → lowest ≤ (built w m).original_start
      starts m l = l

All-take_while {ℓ} :
    {A : Type ℓ} (p : A → Bool) (Q : A → Type 0) (xs : List A)
    → All Q xs
    → All (λ x. (p x ≡ true) × Q x) (take_while p xs)
All-take_while p Q [] h = tt
All-take_while p Q (x ∷ xs) (q, h) = ground (arith, All-take_while p Q xs h)

length-take_while {ℓ} :
    {A : Type ℓ} (p : A → Bool) (xs : List A) → length (take_while p xs) ≤ length xs
length-take_while p [] = omega arith
length-take_while p (x ∷ xs) = ground (arith, length-take_while p xs)

length-visible : (w : Window) (ms : List Instant) → length (visible w ms) ≤ length ms
unfolding visible
length-visible w [] = omega arith
length-visible w (m ∷ ms) = ground (arith, length-visible w ms)

module _ (w : Window) where
  upcoming-IsShown :
      (lowest : Instant) (n : ℕ) (ms : List Instant)
      → All (λ m. lowest ≤ m) ms
      → All
          (λ o. IsShown w o × (lowest ≤ o.original_start) × (o ≡ built w o.original_start))
          (upcoming w n ms)
  unfolding upcoming
  upcoming-IsShown lowest n ms h =
      visible-IsShown w lowest _ (All-take_while (in_bounds w) _ _ (go w.count_limit))
    where
      go : (l : Option ℕ) → All (λ m. lowest ≤ m) (remaining l n ms)
      go none = h
      go (some l) = All-take (λ m. lowest ≤ m) (l - n) ms h

  length-upcoming :
      (limit : ℕ) (ms : List Instant)
      → w.count_limit ≡ some limit
      → length (upcoming w 0 ms) ≤ limit
  unfolding upcoming
  length-upcoming limit ms e = omega (
    arith,
    length-visible w (take_while (in_bounds w) (remaining w.count_limit 0 ms)),
    length-take_while {0} (in_bounds w) (remaining w.count_limit 0 ms),
    counted,
  )
    where
      counted : length (remaining w.count_limit 0 ms) ≤ limit
      counted = simp e (omega (arith, length-take {0} (limit - 0) ms))

module _ (luxon : Luxon) (config : RecurrenceConfig) (seed : luxon.DateTime) where
  open luxon use {DateTime, to_millis}

  All-instants :
      (P : Instant → Type 0) (cs : List DateTime)
      → All (λ c. P (to_millis c)) cs
      → All P (map to_millis cs)
  All-instants P [] h = tt
  All-instants P (c ∷ cs) (p, h) = (p, All-instants P cs h)

  -- Nothing is generated before the seed.
  stream-after_seed :
      (steps : ℕ) (cursor : DateTime)
      → All (λ c. to_millis seed ≤ to_millis c) (stream luxon config seed steps cursor)
  unfolding stream
  stream-after_seed zero cursor = tt
  stream-after_seed (suc steps) cursor =
      All-append _ _ _
        (All-map (λ c h. h.0) _ (candidates_for_period-Ascending luxon config cursor seed).1)
        (go _ _ (stream-after_seed steps (step_period luxon cursor config)))
    where
      go :
          (b : Bool) (cs : List DateTime)
          → All (λ c. to_millis seed ≤ to_millis c) cs
          → All (λ c. to_millis seed ≤ to_millis c) (if b then [] else cs)
      go true cs h = tt
      go false cs h = h

module _ (luxon : Luxon) (anchor : Task) (config : RecurrenceConfig)
    (exceptions : List TaskOccurrenceException) (window_from window_to : Instant)
    (source : RecurrenceSource) where
  open luxon use {DateTime, to_millis, from_js_date}

  abbrev result : List Occurrence
  result = expanded luxon anchor config exceptions window_from window_to source

  -- Every occurrence of an expansion has a slot that starts at or after the seed and before the
  -- end of the window, that with the duration of the series ends after the beginning of the
  -- window, that is not past the UNTIL boundary, and that no exception skips; and it is what the
  -- exception of that slot, if there is one, makes of the slot: one may move the occurrence out of
  -- the window.
  pub expand_occurrences-IsShown :
      (start_at : Instant) (seed : DateTime)
      → anchor.start_at ≡ some start_at
      → from_js_date start_at anchor.timezone ≡ some seed
      → All
          (λ o.
            IsShown
              (window_at luxon anchor config exceptions window_from window_to source start_at)
              o
            × (to_millis seed ≤ o.original_start)
            × (o
                ≡ built
                    (window_at luxon anchor config exceptions window_from window_to source start_at)
                    o.original_start))
          result
  expand_occurrences-IsShown start_at seed s v =
      rw
        (expand_occurrences-generate luxon anchor config exceptions window_from window_to source
          start_at s seed v)
        (All-take _ max_occurrences_per_window _ (
          upcoming-IsShown
            (window_at luxon anchor config exceptions window_from window_to source start_at)
            (to_millis seed) 0 _
            (All-instants luxon config seed _ _
              (stream-after_seed luxon config seed max_generation_steps seed))))

  module _ (limit : ℕ) (limited : count_limit_of config ≡ some limit) where
    length-series :
        (start_at : Instant) (ms : List Instant)
        → length (
            take max_occurrences_per_window (
              upcoming
                (window_at luxon anchor config exceptions window_from window_to source start_at)
                0
                ms))
          ≤ limit
    unfolding window_of
    length-series start_at ms = omega (
      arith,
      length-take {0} max_occurrences_per_window (upcoming w 0 ms),
      length-upcoming w limit ms limited,
    )
      where
        w : Window
        w = window_at luxon anchor config exceptions window_from window_to source start_at

  -- Whatever holds of no occurrences and of each series cut to 1000 holds of an expansion.
  expand_occurrences-cases :
      (P : List Occurrence → Type 0)
      → P []
      → ((start_at : Instant) (ms : List Instant)
          → P (
              take max_occurrences_per_window (
                upcoming
                  (window_at luxon anchor config exceptions window_from window_to source start_at)
                  0
                  ms)))
      → P result
  expand_occurrences-cases P none_at_all series = elim (Option-cases anchor.start_at) [
    | inl e ↦
        simp
          (expand_occurrences-timeless luxon anchor config exceptions window_from window_to source
            e)
          none_at_all
    | inr (start_at, e) ↦ elim (Option-cases (from_js_date start_at anchor.timezone)) [
      | inl v ↦
          simp
            (expand_occurrences-invalid luxon anchor config exceptions window_from window_to source
              start_at e v)
            none_at_all
      | inr (seed, v) ↦
          simp
            (expand_occurrences-generate luxon anchor config exceptions window_from window_to source
              start_at e seed v)
            (series start_at _)
    ]
  ]

  within_cap : length result ≤ max_occurrences_per_window
  within_cap =
      expand_occurrences-cases (λ os. length os ≤ max_occurrences_per_window) (omega arith)
        λ s ms. omega (
          arith,
          length-take {0} max_occurrences_per_window (
              upcoming (window_at luxon anchor config exceptions window_from window_to source s) 0
                ms),
        )

  within_count : (limit : ℕ) → count_limit_of config ≡ some limit → length result ≤ limit
  within_count limit e =
      expand_occurrences-cases (λ os. length os ≤ limit) (omega arith) (length-series limit e)

  -- An expansion gives at most 1000 occurrences, and where the rule ends after a count it gives at
  -- most that many.
  pub length-expand_occurrences :
      (length result ≤ max_occurrences_per_window)
      × (length result ≤ get_or (count_limit_of config) max_occurrences_per_window)
  length-expand_occurrences = (
    within_cap,
    elim (Option-cases (count_limit_of config)) [
      | inl e ↦ rw e within_cap
      | inr (limit, e) ↦ rw e (within_count limit e)
    ],
  )
