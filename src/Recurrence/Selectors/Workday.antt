-- ===== src/Recurrence/Selectors/Workday.antt =====
-- The working-day anchors of a month against their description.
use cue_api.Common.{
  ℕ, zero, suc, ◌+◌, ◌≤◌, ◌<◌, ◌≡◌, ◌≢◌, refl, ap, Bool, true, false, Option, none, some, arith,
  if◌then◌else◌, Bool-cases, inl, inr, ◌⊎◌,
}
use cue_api.Recurrence.Types.{first_workday, last_workday, day_before_last_workday}
use cue_api.Recurrence.Luxon.{Luxon}
use cue_api.Recurrence.Selectors.{
  is_workday, days_up, first_workday_from, workday_back, workday_anchor_in_month,
}

module _ (luxon : Luxon) (month_start : luxon.DateTime) where
  open luxon use {DateTime, weekday, set_day, days_in_month}

  -- The day d of the month is a working day.
  abbrev pub works : ℕ → Bool
  works d = is_workday (weekday (set_day month_start d))

  -- The working days among 1 to n.
  pub workdays_to : ℕ → ℕ
  workdays_to zero = 0
  workdays_to (suc n) = workdays_to n + (if works (suc n) then 1 else 0)

  workdays_to-works : (n : ℕ) → works (suc n) ≡ true → workdays_to (suc n) ≡ workdays_to n + 1
  unfolding workdays_to
  workdays_to-works n h = ground arith

  workdays_to-rests : (n : ℕ) → works (suc n) ≡ false → workdays_to (suc n) ≡ workdays_to n
  unfolding workdays_to
  workdays_to-rests n h = ground arith

  -- `o` is the last working day among 1 to n with `skip` working days after it, if there is one.
  abbrev pub IsFromEnd : ℕ → ℕ → Option DateTime → Type 0
  IsFromEnd n skip o =
      ((o ≡ none) × (workdays_to n ≤ skip))
      ⊎ ((d : ℕ) × (1 ≤ d)
          × (d ≤ n)
          × (o ≡ some (set_day month_start d))
          × (works d ≡ true)
          × (workdays_to n ≡ workdays_to d + skip))

  IsFromEnd-rests :
      (n skip : ℕ) (o : Option DateTime)
      → works (suc n) ≡ false
      → IsFromEnd n skip o
      → IsFromEnd (suc n) skip o
  IsFromEnd-rests n skip o h (inl (e, l)) = inl (e, omega (arith, workdays_to-rests n h))
  IsFromEnd-rests n skip o h (inr (d, a, b, e, w, l)) =
      inr (d, a, omega arith, e, w, omega (arith, workdays_to-rests n h))

  IsFromEnd-works :
      (n skip : ℕ) (o : Option DateTime)
      → works (suc n) ≡ true
      → IsFromEnd n skip o
      → IsFromEnd (suc n) (suc skip) o
  IsFromEnd-works n skip o h (inl (e, l)) = inl (e, omega (arith, workdays_to-works n h))
  IsFromEnd-works n skip o h (inr (d, a, b, e, w, l)) =
      inr (d, a, omega arith, e, w, omega (arith, workdays_to-works n h))

  module _ (n skip seen : ℕ) where
    workday_back-rests :
        works (suc n) ≡ false
        → workday_back luxon month_start (suc n) skip seen
          ≡ workday_back luxon month_start n skip seen
    unfolding workday_back
    workday_back-rests h = ground arith

    workday_back-found :
        works (suc n) ≡ true
        → seen ≡ skip
        → workday_back luxon month_start (suc n) skip seen ≡ some (set_day month_start (suc n))
    unfolding workday_back
    workday_back-found h e = ground arith

    workday_back-skips :
        works (suc n) ≡ true
        → seen ≢ skip
        → workday_back luxon month_start (suc n) skip seen
          ≡ workday_back luxon month_start n skip (seen + 1)
    unfolding workday_back
    workday_back-skips h e = ground arith

  workday_back-none : (k skip seen : ℕ) → IsFromEnd 0 k (workday_back luxon month_start 0 skip seen)
  unfolding workday_back workdays_to
  workday_back-none k skip seen = inl (refl, omega arith)

  workday_back-IsFromEnd :
      (n k skip seen : ℕ)
      → skip ≡ seen + k
      → IsFromEnd n k (workday_back luxon month_start n skip seen)
  workday_back-IsFromEnd zero k skip seen h = workday_back-none k skip seen
  workday_back-IsFromEnd (suc n) k skip seen h = elim (Bool-cases (works (suc n))) [
    | inr rests ↦
        rw (workday_back-rests n skip seen rests)
          (IsFromEnd-rests n k _ rests (workday_back-IsFromEnd n k skip seen h))
    | inl w ↦ counted k h w (λ j e. workday_back-IsFromEnd n j skip (seen + 1) e)
  ]
    where
      counted :
          (k : ℕ)
          → skip ≡ seen + k
          → works (suc n) ≡ true
          → ((j : ℕ)
              → skip ≡ seen + 1 + j
              → IsFromEnd n j (workday_back luxon month_start n skip (seen + 1)))
          → IsFromEnd (suc n) k (workday_back luxon month_start (suc n) skip seen)
      counted zero e w ih =
          rw (workday_back-found n skip seen w (omega arith))
            (inr (suc n, omega arith, omega arith, refl, w, omega arith))
      counted (suc k) e w ih =
          rw (workday_back-skips n skip seen w (omega arith))
            (IsFromEnd-works n k _ w (ih k (omega arith)))

  -- `o` is the first working day after day j among the n days that follow it.
  abbrev pub IsFromStart : ℕ → ℕ → Option DateTime → Type 0
  IsFromStart j n o =
      ((o ≡ none) × (workdays_to (j + n) ≡ workdays_to j))
      ⊎ ((d : ℕ) × (j < d)
          × (d ≤ j + n)
          × (o ≡ some (set_day month_start d))
          × (works d ≡ true)
          × (workdays_to d ≡ workdays_to j + 1))

  IsFromStart-rests :
      (j n : ℕ) (o : Option DateTime)
      → works (suc j) ≡ false
      → IsFromStart (suc j) n o
      → IsFromStart j (suc n) o
  IsFromStart-rests j n o h (inl (e, l)) =
      inl (e, rw (shift j n) (omega (arith, workdays_to-rests j h)))
    where
      shift : (j n : ℕ) → j + suc n ≡ suc j + n
      shift j n = omega arith
  IsFromStart-rests j n o h (inr (d, a, b, e, w, l)) =
      inr (d, omega arith, omega arith, e, w, omega (arith, workdays_to-rests j h))

  first_workday_from-found :
      (j n : ℕ)
      → works (suc j) ≡ true
      → first_workday_from luxon month_start (days_up (suc j) (suc n))
        ≡ some (set_day month_start (suc j))
  unfolding first_workday_from
  first_workday_from-found j n h = ground arith

  first_workday_from-rests :
      (j n : ℕ)
      → works (suc j) ≡ false
      → first_workday_from luxon month_start (days_up (suc j) (suc n))
        ≡ first_workday_from luxon month_start (days_up (suc (suc j)) n)
  unfolding first_workday_from
  first_workday_from-rests j n h = ground arith

  first_workday_from-none :
      (j : ℕ) → IsFromStart j 0 (first_workday_from luxon month_start (days_up (suc j) 0))
  unfolding first_workday_from
  first_workday_from-none j = inl (refl, ap workdays_to (omega arith))

  first_workday_from-IsFromStart :
      (n j : ℕ) → IsFromStart j n (first_workday_from luxon month_start (days_up (suc j) n))
  first_workday_from-IsFromStart zero j = first_workday_from-none j
  first_workday_from-IsFromStart (suc n) j = elim (Bool-cases (works (suc j))) [
    | inl w ↦
        rw (first_workday_from-found j n w)
          (inr (suc j, omega arith, omega arith, refl, w, workdays_to-works j w))
    | inr rests ↦
        rw (first_workday_from-rests j n rests)
          (IsFromStart-rests j n _ rests (first_workday_from-IsFromStart n (suc j)))
  ]

  -- In a month of n days, `FIRST_WORKDAY` gives the first of its working days, `LAST_WORKDAY` the
  -- one with no working day after it and `DAY_BEFORE_LAST_WORKDAY` the one with exactly one after
  -- it; each gives null only if the month has no such day.
  pub workday_anchor_in_month_lem :
      (n : ℕ)
      → days_in_month month_start ≡ some n
      → IsFromStart 0 n (workday_anchor_in_month luxon month_start first_workday)
        × IsFromEnd n 0 (workday_anchor_in_month luxon month_start last_workday)
        × IsFromEnd n 1 (workday_anchor_in_month luxon month_start day_before_last_workday)
  unfolding workday_anchor_in_month
  workday_anchor_in_month_lem n h = rw h (
    first_workday_from-IsFromStart n 0,
    workday_back-IsFromEnd n 0 0 0 (omega arith),
    workday_back-IsFromEnd n 1 1 0 (omega arith),
  )
