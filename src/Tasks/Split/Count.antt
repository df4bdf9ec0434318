-- ===== src/Tasks/Split/Count.antt =====
-- task.service.ts, resolveSplitRecurrence: the count of the series that a split makes.
use cue_api.Common.{
  ℕ, ◌+◌, ◌-◌, ◌≤◌, ◌≡◌, refl, sym, ◌∙◌, subst, Option, none, some, [], arith, get_or, length,
}
use cue_api.Recurrence.Types.{Instant, RecurrenceConfig, RecurrenceSource}
use cue_api.Recurrence.Luxon.{Luxon}
use cue_api.Recurrence.Expand.{
  CreateRecurrenceRuleDto, expand_occurrences, count_limit_of, max_occurrences_per_window,
}
use cue_api.Recurrence.Expand.Bounds.{length-expand_occurrences}
use cue_api.Tasks.Types.{TaskRow, anchor_of}
use cue_api.Tasks.Store.{TaskDatabase, group_of}
use cue_api.Tasks.Split.{
  count_rule, count_override, count_occurrences_before, resolve_split_recurrence, recounted,
}

-- The rule that expansion reads is the one that a split recounts.
count_rule-limit : (config : RecurrenceConfig) → count_rule config ≡ count_limit_of config
unfolding count_rule
count_rule-limit config = refl

module _ (luxon : Luxon) {R : Type 0} (store : TaskDatabase R) where
  count_occurrences_before-bounds :
      (r : R) (task : TaskRow) (config : RecurrenceConfig) (slot : Instant) (total : ℕ)
      → count_rule config ≡ some total
      → (count_occurrences_before luxon store r task config slot ≤ 1000)
        × (count_occurrences_before luxon store r task config slot ≤ total)
  unfolding count_occurrences_before
  count_occurrences_before-bounds r task config slot total e = go task.start_at
    where
      shown : Instant → ℕ
      shown start = length (
          expand_occurrences luxon (anchor_of (group_of store r task) task) config [] (start - 1)
            slot RecurrenceSource.task)

      go :
          (start : Option Instant)
          → ((elim start [ none ↦ 0 | some s ↦ shown s ]) ≤ 1000)
            × ((elim start [ none ↦ 0 | some s ↦ shown s ]) ≤ total)
      go none = (omega arith, omega arith)
      go (some s) =
          let (cap, limit) =
            length-expand_occurrences luxon (anchor_of (group_of store r task) task) config []
              (s - 1) slot RecurrenceSource.task in
          (
            cap,
            subst (λ o. shown s ≤ get_or o max_occurrences_per_window)
                (sym (count_rule-limit config) ∙ e) limit,
          )

  -- The split of a series with a count, without a new one, gives the new series the rest of the count
  -- over what the expansion finds before the slot. The expansion finds 1000 occurrences at most, so
  -- that the rest is never less than the count less 1000, wherever the slot lies.
  pub resolve_split_recurrence-count :
      (r : R) (task : TaskRow) (config : RecurrenceConfig) (slot : Instant)
      (overrides : Option CreateRecurrenceRuleDto) (total : ℕ)
      → count_rule config ≡ some total
      → count_override overrides ≡ none
      → (rest : ℕ) × ((resolve_split_recurrence luxon store r task config slot overrides).count
          ≡ some rest)
        × (count_occurrences_before luxon store r task config slot + rest ≡ total)
        × (total ≤ rest + 1000)
  unfolding resolve_split_recurrence recounted
  resolve_split_recurrence-count r task config slot overrides total counted free =
      let (cap, limit) = count_occurrences_before-bounds r task config slot total counted in
      (
        total - count_occurrences_before luxon store r task config slot,
        rw (counted, free) refl,
        omega arith,
        omega arith,
      )
