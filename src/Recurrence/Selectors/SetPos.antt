-- ===== src/Recurrence/Selectors/SetPos.antt =====
-- The nth weekday of a month against its description.
use cue_api.Common.{
  ℕ, zero, suc, ◌+◌, ◌-◌, ◌≤◌, ◌<◌, ◌≡◌, refl, ap, Bool, true, false, Option, none, some, List, [],
  ◌∷◌, arith, ltb, ltb→lt, ltb→le, if◌then◌else◌, Bool-cases, inl, inr, ◌⊎◌, pos, negsuc, includes,
  length, get_elem?,
}
use cue_api.Recurrence.Luxon.{Luxon}
use cue_api.Recurrence.Selectors.{
  luxon_weekday_to_entity, days_up, weekday_matches, set_pos_index, nth_weekday_in_month,
}

module _ (luxon : Luxon) (month_start : luxon.DateTime) (by_weekday : List ℕ) where
  open luxon use {DateTime, weekday, set_day, days_in_month}

  -- The day d of the month falls on one of the weekdays.
  abbrev pub hits : ℕ → Bool
  hits d = includes by_weekday (luxon_weekday_to_entity (weekday (set_day month_start d)))

  -- How many of the days 1 to n do.
  pub hits_to : ℕ → ℕ
  hits_to zero = 0
  hits_to (suc n) = hits_to n + (if hits (suc n) then 1 else 0)

  hits_to-hit : (n : ℕ) → hits (suc n) ≡ true → hits_to (suc n) ≡ hits_to n + 1
  unfolding hits_to
  hits_to-hit n h = ground arith

  hits_to-miss : (n : ℕ) → hits (suc n) ≡ false → hits_to (suc n) ≡ hits_to n
  unfolding hits_to
  hits_to-miss n h = ground arith

  abbrev matches : ℕ → ℕ → List DateTime
  matches j n = weekday_matches luxon month_start by_weekday (days_up (suc j) n)

  matches-hit :
      (j n : ℕ)
      → hits (suc j) ≡ true
      → matches j (suc n) ≡ set_day month_start (suc j) ∷ matches (suc j) n
  unfolding weekday_matches
  matches-hit j n h = ground arith

  matches-miss : (j n : ℕ) → hits (suc j) ≡ false → matches j (suc n) ≡ matches (suc j) n
  unfolding weekday_matches
  matches-miss j n h = ground arith

  matches-zero : (j : ℕ) → matches j 0 ≡ []
  unfolding weekday_matches
  matches-zero j = refl

  move_suc : (j n : ℕ) → j + suc n ≡ suc j + n
  move_suc j n = omega arith

  add_none : (j : ℕ) → j + 0 ≡ j
  add_none j = omega arith

  none_add : (n : ℕ) → 0 + n ≡ n
  none_add n = omega arith

  -- `o` is the day after day j, among the n days that follow it, with exactly i matching days
  -- between day j and it.
  abbrev IsNthAfter : ℕ → ℕ → ℕ → Option DateTime → Type 0
  IsNthAfter j n i o =
      ((o ≡ none) × (hits_to (j + n) ≤ hits_to j + i))
      ⊎ ((d : ℕ) × (j < d)
          × (d ≤ j + n)
          × (o ≡ some (set_day month_start d))
          × (hits d ≡ true)
          × (hits_to d ≡ hits_to j + i + 1))

  IsNthAfter-miss :
      (j n i : ℕ) (o : Option DateTime)
      → hits (suc j) ≡ false
      → IsNthAfter (suc j) n i o
      → IsNthAfter j (suc n) i o
  IsNthAfter-miss j n i o h (inl (e, l)) =
      inl (e, rw (move_suc j n) (omega (arith, hits_to-miss j h)))
  IsNthAfter-miss j n i o h (inr (d, a, b, e, w, l)) =
      inr (d, omega arith, omega arith, e, w, omega (arith, hits_to-miss j h))

  IsNthAfter-hit :
      (j n i : ℕ) (o : Option DateTime)
      → hits (suc j) ≡ true
      → IsNthAfter (suc j) n i o
      → IsNthAfter j (suc n) (suc i) o
  IsNthAfter-hit j n i o h (inl (e, l)) =
      inl (e, rw (move_suc j n) (omega (arith, hits_to-hit j h)))
  IsNthAfter-hit j n i o h (inr (d, a, b, e, w, l)) =
      inr (d, omega arith, omega arith, e, w, omega (arith, hits_to-hit j h))

  get_elem?-matches : (n j i : ℕ) → IsNthAfter j n i (get_elem? (matches j n) i)
  get_elem?-matches zero j i = rw (matches-zero j) (inl (refl, rw (add_none j) (omega arith)))
  get_elem?-matches (suc n) j i = elim (Bool-cases (hits (suc j))) [
    | inr miss ↦
        rw (matches-miss j n miss) (IsNthAfter-miss j n i _ miss (get_elem?-matches n (suc j) i))
    | inl hit ↦ rw (matches-hit j n hit) (at_hit i hit (λ k. get_elem?-matches n (suc j) k))
  ]
    where
      at_hit :
          (i : ℕ)
          → hits (suc j) ≡ true
          → ((k : ℕ) → IsNthAfter (suc j) n k (get_elem? (matches (suc j) n) k))
          → IsNthAfter j (suc n) i (get_elem? (set_day month_start (suc j) ∷ matches (suc j) n) i)
      at_hit zero hit ih =
          inr (suc j, omega arith, omega arith, refl, hit, omega (arith, hits_to-hit j hit))
      at_hit (suc i) hit ih = IsNthAfter-hit j n i _ hit (ih i)

  length-matches : (n j : ℕ) → hits_to j + length (matches j n) ≡ hits_to (j + n)
  length-matches zero j = rw (matches-zero j, add_none j) (omega arith)
  length-matches (suc n) j = elim (Bool-cases (hits (suc j))) [
    | inr miss ↦
        rw (matches-miss j n miss, move_suc j n)
          (omega (arith, length-matches n (suc j), hits_to-miss j miss))
    | inl hit ↦
        rw (matches-hit j n hit, move_suc j n)
          (omega (arith, length-matches n (suc j), hits_to-hit j hit))
  ]

  -- `o` is the matching day with exactly k matching days before it among 1 to n.
  abbrev pub IsNth : ℕ → ℕ → Option DateTime → Type 0
  IsNth n k o =
      ((o ≡ none) × (hits_to n ≤ k))
      ⊎ ((d : ℕ) × (1 ≤ d)
          × (d ≤ n)
          × (o ≡ some (set_day month_start d))
          × (hits d ≡ true)
          × (hits_to d ≡ k + 1))

  -- `o` is the matching day with exactly k matching days after it among 1 to n.
  abbrev pub IsNthLast : ℕ → ℕ → Option DateTime → Type 0
  IsNthLast n k o =
      ((o ≡ none) × (hits_to n ≤ k))
      ⊎ ((d : ℕ) × (1 ≤ d)
          × (d ≤ n)
          × (o ≡ some (set_day month_start d))
          × (hits d ≡ true)
          × (hits_to n ≡ hits_to d + k))

  module _ (n : ℕ) (days : days_in_month month_start ≡ some n) where
    nth-pos :
        (k : ℕ)
        → nth_weekday_in_month luxon month_start by_weekday (pos (suc k))
          ≡ get_elem? (matches 0 n) k
    unfolding nth_weekday_in_month set_pos_index
    nth-pos k = rw days

    nth-negsuc :
        (k : ℕ)
        → k < length (matches 0 n)
        → nth_weekday_in_month luxon month_start by_weekday (negsuc k)
          ≡ get_elem? (matches 0 n) (length (matches 0 n) - suc k)
    unfolding nth_weekday_in_month set_pos_index
    nth-negsuc k h = rw (days, nth_weekday_in_month) (ground arith)

    nth-negsuc_past :
        (k : ℕ)
        → length (matches 0 n) ≤ k
        → nth_weekday_in_month luxon month_start by_weekday (negsuc k) ≡ none
    unfolding nth_weekday_in_month set_pos_index
    nth-negsuc_past k h = rw (days, nth_weekday_in_month) (ground arith)

    hits_to-zero : hits_to 0 ≡ 0
    unfolding hits_to
    hits_to-zero = refl

    length-month : length (matches 0 n) ≡ hits_to n
    length-month = omega (arith, length-matches n 0, hits_to-zero, ap hits_to (none_add n))

    IsNth-get_elem? : (k : ℕ) → IsNth n k (get_elem? (matches 0 n) k)
    IsNth-get_elem? k = go (get_elem?-matches n 0 k)
      where
        go : {o : Option DateTime} → IsNthAfter 0 n k o → IsNth n k o
        go (inl (e, l)) = inl (e, omega (arith, hits_to-zero, ap hits_to (none_add n)))
        go (inr (d, a, b, e, w, l)) = inr (d, a, omega arith, e, w, omega (arith, hits_to-zero))

    IsNthLast-get_elem? :
        (k : ℕ)
        → k < length (matches 0 n)
        → IsNthLast n k (get_elem? (matches 0 n) (length (matches 0 n) - suc k))
    IsNthLast-get_elem? k h = go (IsNth-get_elem? (length (matches 0 n) - suc k))
      where
        go : {o : Option DateTime} → IsNth n (length (matches 0 n) - suc k) o → IsNthLast n k o
        go (inl (e, l)) = inl (e, omega (arith, length-month))
        go (inr (d, a, b, e, w, l)) = inr (d, a, b, e, w, omega (arith, length-month))

    -- In a month of n days the set position k + 1 names the day that falls on one of the weekdays
    -- with exactly k such days before it, and -(k + 1) the one with exactly k after it; the result
    -- is null only where the month has at most k such days.
    pub nth_weekday_in_month_lem :
        (k : ℕ)
        → IsNth n k (nth_weekday_in_month luxon month_start by_weekday (pos (suc k)))
          × IsNthLast n k (nth_weekday_in_month luxon month_start by_weekday (negsuc k))
    nth_weekday_in_month_lem k = (
      rw (nth-pos k) (IsNth-get_elem? k),
      elim (Bool-cases (ltb k (length (matches 0 n)))) [
        | inl h ↦ rw (nth-negsuc k (ltb→lt _ _ h)) (IsNthLast-get_elem? k (ltb→lt _ _ h))
        | inr h ↦
            rw (nth-negsuc_past k (ltb→le _ _ h))
              (inl (refl, omega (arith, length-month, ltb→le _ _ h)))
      ],
    )
