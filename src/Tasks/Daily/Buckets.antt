-- ===== src/Tasks/Daily/Buckets.antt =====
-- task.service.ts, getDailyCounts: what the counts are.
use text.Mathlib.Text.{◌==◌ as str_eq}
use text.Mathlib.TextEquality.{eq_iff}
use mathlib.Core.Bool.{true≢false}
use cue_api.Common.{
  ℕ, ◌+◌, ◌≡◌, refl, sym, ap, ◌∙◌, String, Bool, false, Option, none, some, List, [], ◌∷◌, inl, inr,
  if◌then◌else◌, arith, length, filter_by, Bool-cases,
}
use cue_api.Recurrence.Types.{Instant}
use cue_api.Recurrence.Luxon.{Luxon}
use cue_api.Tasks.Types.{resolved}
use cue_api.Tasks.Store.{TaskDatabase}
use cue_api.Tasks.Read.{ListedOccurrence, find_occurrences_in_range}
use cue_api.Tasks.Daily.{
  count_on, add_on, local_date, bucket, bucket_all, counted_options, get_daily_counts,
}

abbrev is_date : String → Option String → Bool
is_date date none = false
is_date date (some d) = str_eq d date

count_on-add_on :
    (counts : List (String × ℕ)) (d date : String)
    → count_on (add_on counts d) date ≡ (if str_eq d date then 1 else 0) + count_on counts date
unfolding count_on add_on
count_on-add_on [] d date = elim (Bool-cases (str_eq d date)) [
  | inl e ↦ rw e (omega arith)
  | inr e ↦ rw e (omega arith)
]
count_on-add_on ((x, n) ∷ counts) d date = elim (Bool-cases (str_eq x d)) [
  | inl e ↦
      let same : x ≡ d = (eq_iff x d).0 e in
      rw (e, ap (λ z. str_eq z date) same)
        (elim (Bool-cases (str_eq d date)) [
          | inl k ↦ rw k (omega arith)
          | inr k ↦ rw k (omega arith)
        ])
  | inr e ↦ rw e (elim (Bool-cases (str_eq x date)) [
    | inl k ↦
        let other : str_eq d date ≡ false = apart ((eq_iff x date).0 k) e in
        rw (k, other) (omega arith)
    | inr k ↦ rw k (count_on-add_on counts d date)
  ])
]
  where
    apart : x ≡ date → str_eq x d ≡ false → str_eq d date ≡ false
    apart e n = elim (Bool-cases (str_eq d date)) [
      | inl k ↦ absurd (true≢false (sym ((eq_iff x d).1 (e ∙ sym ((eq_iff d date).0 k))) ∙ n))
      | inr k ↦ k
    ]

module _ (luxon : Luxon) where
  -- The occurrences that fall on a date in the zone of their task.
  abbrev pub on_date : String → List ListedOccurrence → List ListedOccurrence
  on_date date os = filter_by (λ o. is_date date (local_date luxon o)) os

  bucket_all-count :
      (counts : List (String × ℕ)) (os : List ListedOccurrence) (date : String)
      → count_on (bucket_all luxon counts os) date ≡ length (on_date date os) + count_on counts date
  unfolding bucket_all bucket count_on
  bucket_all-count counts [] date = omega arith
  bucket_all-count counts (o ∷ os) date =
      go (local_date luxon o) (λ cs. bucket_all-count cs os date)
    where
      go :
          (key : Option String)
          → ((cs : List (String × ℕ))
              → count_on (bucket_all luxon cs os) date
                ≡ length (on_date date os) + count_on cs date)
          → count_on (bucket_all luxon (bucket luxon counts key) os) date
            ≡ length (if is_date date key then o ∷ on_date date os else on_date date os)
              + count_on counts date
      go none rest = rest counts
      go (some d) rest = elim (Bool-cases (str_eq d date)) [
        | inl e ↦ rw (rest (add_on counts d), count_on-add_on counts d date, e) (omega arith)
        | inr e ↦ rw (rest (add_on counts d), count_on-add_on counts d date, e) (omega arith)
      ]

  -- Where the occurrences of the window are read, the count of each date is the number of them that
  -- fall on it in the zone of their task, and 0 for a date that has none.
  pub get_daily_counts-count :
      {R : Type 0} (store : TaskDatabase R) (r : R) (user_id : String) (from to : Instant)
      (calendar_id : Option String) (include_completed : Bool) (os : List ListedOccurrence)
      → find_occurrences_in_range luxon store r user_id from to
          (counted_options luxon store calendar_id include_completed)
        ≡ resolved os
      → (counts : List (String × ℕ)) × (get_daily_counts luxon store r user_id from to calendar_id
            include_completed
          ≡ resolved counts)
        × ((date : String) → count_on counts date ≡ length (on_date date os))
  unfolding get_daily_counts count_on
  get_daily_counts-count store r user_id from to calendar_id include_completed os read =
      (bucket_all luxon [] os, rw read refl, λ date. bucket_all-count [] os date ∙ nothing date)
    where
      nothing :
          (date : String) → length (on_date date os) + count_on [] date ≡ length (on_date date os)
      nothing date = omega arith
