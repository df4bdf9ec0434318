-- ===== src/Recurrence/Candidates/Order.antt =====
-- What the candidates of a period are: which of the raw ones, and in which order.
use cue_api.Common.{
  ℕ, ◌≡◌, refl, ◌∙◌, ◌≤◌, ◌&&◌, any_of, leb, Bool, true, false, not, List, [], ◌∷◌, map, ◌==◌,
  arith, All, includes, Ascending, Distinct, sort_by-Ascending, sort_by-All, includes-sort_by,
}
use cue_api.Recurrence.Types.{RecurrenceConfig, Instant}
use cue_api.Recurrence.Luxon.{Luxon}
use cue_api.Recurrence.Selectors.{raw_candidates}
use cue_api.Recurrence.Candidates.{passes_limit_filters, keep_candidates, candidates_for_period}

module _ (luxon : Luxon) (config : RecurrenceConfig) where
  open luxon use {DateTime, to_millis}

  abbrev passes : DateTime → Bool
  passes c = passes_limit_filters luxon c config.frequency config

  -- A candidate lies at or after the seed and passes the filters.
  abbrev pub IsCandidate : Instant → DateTime → Type 0
  IsCandidate seed_millis c = (seed_millis ≤ to_millis c) × (passes c ≡ true)

  keep_candidates-All :
      (seed_millis : Instant) (seen : List ℕ) (raw : List DateTime)
      → All (IsCandidate seed_millis) (keep_candidates luxon seed_millis config seen raw)
  unfolding keep_candidates
  keep_candidates-All n seen [] = tt
  keep_candidates-All n seen (c ∷ raw) =
      ground (arith, keep_candidates-All n seen raw, keep_candidates-All n (to_millis c ∷ seen) raw)

  -- Nothing that was seen is kept.
  keep_candidates-unseen :
      (seed_millis : Instant) (seen : List ℕ) (raw : List DateTime) (k : ℕ)
      → includes seen k ≡ true
      → includes (map to_millis (keep_candidates luxon seed_millis config seen raw)) k ≡ false
  unfolding keep_candidates
  keep_candidates-unseen n seen [] k h = refl
  keep_candidates-unseen n seen (c ∷ raw) k h = ground (
    arith,
    keep_candidates-unseen n seen raw k h,
    keep_candidates-unseen n (to_millis c ∷ seen) raw k,
  )

  keep_candidates-Distinct :
      (seed_millis : Instant) (seen : List ℕ) (raw : List DateTime)
      → Distinct (map to_millis (keep_candidates luxon seed_millis config seen raw))
  unfolding keep_candidates
  keep_candidates-Distinct n seen [] = tt
  keep_candidates-Distinct n seen (c ∷ raw) = ground (
    arith,
    keep_candidates-Distinct n seen raw,
    keep_candidates-Distinct n (to_millis c ∷ seen) raw,
    keep_candidates-unseen n (to_millis c ∷ seen) raw (to_millis c),
  )

  -- Some raw candidate stands at the instant k, which is not before the seed, and passes.
  abbrev pub offered : Instant → ℕ → List DateTime → Bool
  offered n k raw = any_of (λ c. (to_millis c == k) && leb n k && passes c) raw

  includes-keep_candidates :
      (n : Instant) (seen : List ℕ) (raw : List DateTime) (k : ℕ)
      → includes (map to_millis (keep_candidates luxon n config seen raw)) k
        ≡ (not (includes seen k) && offered n k raw)
  unfolding keep_candidates
  includes-keep_candidates n seen [] k = ground arith
  includes-keep_candidates n seen (c ∷ raw) k = ground (
    arith,
    includes-keep_candidates n seen raw k,
    includes-keep_candidates n (to_millis c ∷ seen) raw k,
  )

  module _ (period_start seed : DateTime) where
    abbrev candidates : List DateTime
    candidates = candidates_for_period luxon period_start seed config

    -- The candidates of a period are strictly ascending in time, and all of them lie at or after
    -- the seed and pass the limiting filters.
    pub candidates_for_period-Ascending :
        Ascending (map to_millis candidates) × All (IsCandidate (to_millis seed)) candidates
    unfolding candidates_for_period
    candidates_for_period-Ascending = (
      sort_by-Ascending to_millis _ (keep_candidates-Distinct (to_millis seed) [] raw),
      sort_by-All to_millis (IsCandidate (to_millis seed)) _
          (keep_candidates-All (to_millis seed) [] raw),
    )
      where
        raw : List DateTime
        raw = raw_candidates luxon period_start seed config

    -- An instant is a candidate of the period exactly when a raw candidate stands there that is
    -- not before the seed and passes the limiting filters: none is lost by deduplication or sorting.
    pub includes-candidates_for_period :
        (k : ℕ)
        → includes (map to_millis candidates) k
          ≡ offered (to_millis seed) k (raw_candidates luxon period_start seed config)
    unfolding candidates_for_period
    includes-candidates_for_period k =
        includes-sort_by to_millis _ k ∙ includes-keep_candidates (to_millis seed) [] _ k
