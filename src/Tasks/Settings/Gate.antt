-- ===== src/Tasks/Settings/Gate.antt =====
-- effective-settings.ts, resolveEffectiveRecurrence, against the read of the series.
use text.Mathlib.Text.{◌==◌ as str_eq}
use cue_api.Common.{
  ◌≡◌, ◌↔◌, refl, sym, subst, ◌∙◌, String, true, false, List, In, Option, none, some, or_else,
}
use cue_api.Recurrence.Types.{Instant, RecurrenceConfig, RecurrenceSource}
use cue_api.Recurrence.Luxon.{Luxon}
use cue_api.Tasks.Types.{TaskRow, GroupRow}
use cue_api.Tasks.Store.{TaskDatabase, TaskLaws, is_null, group_of}
use cue_api.Tasks.Read.{
  FindOccurrencesOptions, ListedOccurrence, among, in_group, group_config, expand_anchor,
  read_recurring_occurrences,
}
use cue_api.Tasks.Read.Series.{Recurs, own, inherited, ListedSeries, series-In}
use cue_api.Tasks.Settings.{group_rule, resolve_effective_recurrence}

some-eq : {a b : RecurrenceConfig} → some a ≡ some b → a ≡ b
some-eq h = cc

none-some : {a : RecurrenceConfig} → none ≡ some a → ⊥
none-some h = cc

group_rule-config : (group : Option GroupRow) → group_rule group ≡ group_config group
unfolding group_rule
group_rule-config none = refl
group_rule-config (some g) = refl

module _ {R : Type 0} (store : TaskDatabase R) where
  -- A loaded group is that of a row with a group id.
  group_of-id :
      (r : R) (row : TaskRow) (c : RecurrenceConfig)
      → group_config (group_of store r row) ≡ some c
      → is_null row.group_id ≡ false
  unfolding group_of
  group_of-id r row c h = go row.group_id h
    where
      go :
          (id : Option String)
          → group_config (elim id as (λ x. Option GroupRow) [
            | none ↦ none
            | some i ↦ store.groups.find_one r (λ g. str_eq g.id i)
          ])
            ≡ some c
          → is_null id ≡ false
      go none e = absurd (none-some e)
      go (some i) e = refl

  -- The rule of the settings of a row is the one that it recurs by, where it is no child.
  resolve_effective_recurrence-Recurs :
      (r : R) (row : TaskRow) (c : RecurrenceConfig)
      → (resolve_effective_recurrence (group_of store r row) row ≡ some c) ↔ (
          (row.parent_task_id ≡ none)
          × (source : RecurrenceSource) × Recurs row (group_of store r row) c source)
  unfolding resolve_effective_recurrence group_rule group_of
  resolve_effective_recurrence-Recurs r row c = (
    there row.parent_task_id row.recurrence_config refl refl,
    λ (p, source, rule). here row.recurrence_config refl p source rule,
  )
    where
      group : Option GroupRow
      group = group_of store r row

      there :
          (parent : Option String) (rule : Option RecurrenceConfig)
          → row.parent_task_id ≡ parent
          → row.recurrence_config ≡ rule
          → elim parent [ some x ↦ none | none ↦ or_else rule (group_rule group) ] ≡ some c
          → (parent ≡ none) × (source : RecurrenceSource) × Recurs row group c source
      there (some x) rule p e h = absurd (none-some h)
      there none (some d) p e h = (refl, RecurrenceSource.task, own (e ∙ h))
      there none none p e h =
          let k = sym (group_rule-config group) ∙ h in
          (refl, RecurrenceSource.group, inherited e (group_of-id r row c k) k)

      here :
          (rule : Option RecurrenceConfig)
          → row.recurrence_config ≡ rule
          → row.parent_task_id ≡ none
          → (source : RecurrenceSource) → Recurs row group c source
          → elim row.parent_task_id [
            | some x ↦ none
            | none ↦ or_else row.recurrence_config (group_rule group)
          ]
            ≡ some c
      here rule e p _ (own q) = rw (p, q) refl
      here rule e p _ (inherited n k g) = rw (p, n, group_rule-config group) g

-- Where a rule comes from: the row, if that has its own.
abbrev pub rule_source : Option RecurrenceConfig → RecurrenceSource
rule_source none = RecurrenceSource.group
rule_source (some c) = RecurrenceSource.task

Recurs-source :
    {row : TaskRow} {group : Option GroupRow} {c : RecurrenceConfig} {source : RecurrenceSource}
    → Recurs row group c source
    → source ≡ rule_source row.recurrence_config
Recurs-source (own e) = rw e refl
Recurs-source (inherited e n g) = rw e refl

module _ (luxon : Luxon) {R : Type 0} (store : TaskDatabase R) where
  open store use {tasks}

  -- An occurrence of a row by the rule of its effective settings.
  abbrev pub EffectiveSeries :
      R → List String → Instant → Instant → FindOccurrencesOptions → ListedOccurrence → Type 0
  EffectiveSeries r ids from to opts o =
      (row : TaskRow) × (c : RecurrenceConfig) × In row (tasks.rows r)
      × (among ids row.calendar_id ≡ true)
      × (in_group opts.group_id row.group_id ≡ true)
      × (resolve_effective_recurrence (group_of store r row) row ≡ some c)
      × In o (expand_anchor luxon store r from to (rule_source row.recurrence_config) row (some c))

  -- The read of the series lists exactly the occurrences, in the window, of the rows of the calendars
  -- and the group asked for, each expanded by the rule that its effective settings give: a row whose
  -- settings give none is not expanded.
  pub read_recurring_occurrences-effective :
      (laws : TaskLaws store) (r : R) (ids : List String) (from to : Instant)
      (opts : FindOccurrencesOptions) (o : ListedOccurrence)
      → In o (read_recurring_occurrences luxon store r ids from to opts.group_id)
        ↔ EffectiveSeries r ids from to opts o
  read_recurring_occurrences-effective laws r ids from to opts o = (
    λ h. there ((series-In luxon store laws r ids from to opts o).0 h),
    λ h. (series-In luxon store laws r ids from to opts o).1 (here h),
  )
    where
      there : ListedSeries luxon store r ids from to opts o → EffectiveSeries r ids from to opts o
      there (row, c, source, i, a, p, g, rule, m) = (
        row,
        c,
        i,
        a,
        g,
        (resolve_effective_recurrence-Recurs store r row c).1 (p, source, rule),
        subst (λ s. In o (expand_anchor luxon store r from to s row (some c))) (Recurs-source rule)
            m,
      )

      here : EffectiveSeries r ids from to opts o → ListedSeries luxon store r ids from to opts o
      here (row, c, i, a, g, e, m) =
          let (p, source, rule) = (resolve_effective_recurrence-Recurs store r row c).0 e in
          (
            row,
            c,
            source,
            i,
            a,
            p,
            g,
            rule,
            subst (λ s. In o (expand_anchor luxon store r from to s row (some c)))
                (sym (Recurs-source rule)) m,
          )
