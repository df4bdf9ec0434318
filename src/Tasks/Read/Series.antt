-- ===== src/Tasks/Read/Series.antt =====
-- task.service.ts, readRecurringOccurrences: the series that it expands.
use cue_api.Common.{
  ◌≡◌, ◌↔◌, ◌⊎◌, inl, inr, refl, sym, subst, String, true, false, Option, none, some, List, [], ◌∷◌,
  ◌++◌, arith, In, In-append, In-left, In-right, flat_map, In-flat_map,
}
use cue_api.Recurrence.Types.{Instant, RecurrenceConfig, RecurrenceSource}
use cue_api.Recurrence.Luxon.{Luxon}
use cue_api.Tasks.Types.{TaskRow, GroupRow}
use cue_api.Tasks.Store.{TaskDatabase, TaskLaws, is_null, group_of, is_null-none, some-null}
use cue_api.Tasks.Read.{
  FindOccurrencesOptions, ListedOccurrence, among, in_group, group_config, own_rule_anchor,
  group_inherited_anchor, expand_anchor, expand_own, expand_inherited, read_recurring_occurrences,
}

-- The rule that a row recurs by: its own, or else the one of its group.
pub data Recurs (row : TaskRow) (group : Option GroupRow)
    : RecurrenceConfig → RecurrenceSource → Type 0 where
  own :
      {c : RecurrenceConfig}
      → row.recurrence_config ≡ some c
      → Recurs row group c RecurrenceSource.task
  inherited :
      {c : RecurrenceConfig}
      → row.recurrence_config ≡ none
      → is_null row.group_id ≡ false
      → group_config group ≡ some c
      → Recurs row group c RecurrenceSource.group

module _ (luxon : Luxon) {R : Type 0} (store : TaskDatabase R) where
  open store use {tasks}

  -- An occurrence of a row that recurs and is no child of another.
  abbrev pub ListedSeries :
      R → List String → Instant → Instant → FindOccurrencesOptions → ListedOccurrence → Type 0
  ListedSeries r ids from to opts o =
      (row : TaskRow) × (c : RecurrenceConfig) × (source : RecurrenceSource) × In row (tasks.rows r)
      × (among ids row.calendar_id ≡ true)
      × (row.parent_task_id ≡ none)
      × (in_group opts.group_id row.group_id ≡ true)
      × Recurs row (group_of store r row) c source
      × In o (expand_anchor luxon store r from to source row (some c))

module _ (luxon : Luxon) {R : Type 0} (store : TaskDatabase R) (laws : TaskLaws store) where
  open store use {tasks}
  open laws use {found}

  expanded-rule :
      (r : R) (from to : Instant) (source : RecurrenceSource) (row : TaskRow)
      (rule : Option RecurrenceConfig) (o : ListedOccurrence)
      → In o (expand_anchor luxon store r from to source row rule)
      → (c : RecurrenceConfig) × (rule ≡ some c)
        × In o (expand_anchor luxon store r from to source row (some c))
  unfolding expand_anchor
  expanded-rule r from to source row none o h = absurd h
  expanded-rule r from to source row (some c) o h = (c, refl, h)

  own_expansion : R → Instant → Instant → TaskRow → List ListedOccurrence
  own_expansion r from to row =
      expand_anchor luxon store r from to RecurrenceSource.task row row.recurrence_config

  group_expansion : R → Instant → Instant → TaskRow → List ListedOccurrence
  group_expansion r from to row =
      expand_anchor luxon store r from to RecurrenceSource.group row
        (group_config (group_of store r row))

  expand_own-flat :
      (r : R) (from to : Instant) (rows : List TaskRow)
      → expand_own luxon store r from to rows ≡ flat_map (own_expansion r from to) rows
  unfolding expand_own own_expansion
  expand_own-flat r from to [] = refl
  expand_own-flat r from to (x ∷ rows) = rw (expand_own-flat r from to rows) refl

  expand_inherited-flat :
      (r : R) (from to : Instant) (rows : List TaskRow)
      → expand_inherited luxon store r from to rows ≡ flat_map (group_expansion r from to) rows
  unfolding expand_inherited group_expansion
  expand_inherited-flat r from to [] = refl
  expand_inherited-flat r from to (x ∷ rows) = rw (expand_inherited-flat r from to rows) refl

  -- The recurring read lists the occurrences of the rows that recur, and no other.
  pub series-In :
      (r : R) (ids : List String) (from to : Instant) (opts : FindOccurrencesOptions)
      (o : ListedOccurrence)
      → In o (read_recurring_occurrences luxon store r ids from to opts.group_id)
        ↔ ListedSeries luxon store r ids from to opts o
  unfolding read_recurring_occurrences own_rule_anchor group_inherited_anchor own_expansion
      group_expansion
  series-In r ids from to opts o =
      rw (expand_own-flat r from to anchors, expand_inherited-flat r from to members)
        (λ h. there (In-append o owned grouped h), here)
    where
      anchors : List TaskRow
      anchors = tasks.find_all r (own_rule_anchor ids opts.group_id)

      members : List TaskRow
      members = tasks.find_all r (group_inherited_anchor ids opts.group_id)

      owned : List ListedOccurrence
      owned = flat_map (own_expansion r from to) anchors

      grouped : List ListedOccurrence
      grouped = flat_map (group_expansion r from to) members

      there : In o owned ⊎ In o grouped → ListedSeries luxon store r ids from to opts o
      there (inl h) =
          let (row, k, m) = (In-flat_map (own_expansion r from to) o anchors).0 h in
          let (i, t) = (found r (own_rule_anchor ids opts.group_id) row).0 k in
          let (c, e, n) =
            expanded-rule r from to RecurrenceSource.task row row.recurrence_config o m in
          (
            row,
            c,
            RecurrenceSource.task,
            i,
            ground arith,
            is_null-none row.parent_task_id (ground arith),
            ground arith,
            own e,
            n,
          )
      there (inr h) =
          let (row, k, m) = (In-flat_map (group_expansion r from to) o members).0 h in
          let (i, t) = (found r (group_inherited_anchor ids opts.group_id) row).0 k in
          let (c, e, n) =
            expanded-rule r from to RecurrenceSource.group row (group_config (group_of store r row))
              o m in
          (
            row,
            c,
            RecurrenceSource.group,
            i,
            ground arith,
            is_null-none row.parent_task_id (ground arith),
            ground arith,
            inherited (is_null-none row.recurrence_config (ground arith)) (ground arith) e,
            n,
          )

      here : ListedSeries luxon store r ids from to opts o → In o (owned ++ grouped)
      here (row, c, _, i, a, p, g, own e, m) = In-left o owned grouped (
          (In-flat_map (own_expansion r from to) o anchors).1 (
            row,
            (found r (own_rule_anchor ids opts.group_id) row).1
                (i, rw (a, p, g, some-null row.recurrence_config c e) refl),
            subst (λ x. In o (expand_anchor luxon store r from to RecurrenceSource.task row x))
                (sym e) m,
          ))
      here (row, c, _, i, a, p, g, inherited n k e, m) = In-right o owned grouped (
          (In-flat_map (group_expansion r from to) o members).1 (
            row,
            (found r (group_inherited_anchor ids opts.group_id) row).1 (i, rw (a, p, g, n, k) refl),
            subst (λ x. In o (expand_anchor luxon store r from to RecurrenceSource.group row x))
                (sym e) m,
          ))
