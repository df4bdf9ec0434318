-- ===== src/Tasks/Overlap/Anchors.antt =====
-- What findClashingRecurringAnchors of task.service.ts reports, stated on the rows of the tables.
use text.Mathlib.TextEquality.{eq_iff}
use mathlib.Core.Bool.{true≢false}
use cue_api.Common.{
  Bool-cases, any_of-In, ◌≡◌, ◌↔◌, ◌⊎◌, inl, inr, refl, sym, subst, String, Bool, true, not, ◌&&◌,
  Option, none, some, List, [], ◌∷◌, ◌++◌, arith, any_of, filter_by, In, In-append, In-left,
  In-right, In-filter_by,
}
use cue_api.Recurrence.Types.{Instant, RecurrenceConfig, RecurrenceSource, Occurrence}
use cue_api.Recurrence.Luxon.{Luxon}
use cue_api.Tasks.Types.{TaskRow}
use cue_api.Tasks.Store.{TaskDatabase, TaskLaws, is_null, group_of, is_null-none, some-null}
use cue_api.Tasks.Read.{SlotKey, has_key, group_config, build_override_suppression_set}
use cue_api.Tasks.Read.Series.{Recurs, own, inherited}
use cue_api.Tasks.Read.Slots.{Replaced, has_key-Replaced}
use cue_api.Tasks.Overlap.{
  own_rule_clash, group_inherited_clash, is_live_occurrence, not_excluded, occurrences_within,
  clashes_by, find_clashing_recurring_anchors,
}
use cue_api.Tasks.Overlap.Dedupe.{dedupe_by_id-In, In-dedupe_by_id}

module _ (luxon : Luxon) {R : Type 0} (store : TaskDatabase R) where
  open store use {tasks}

  -- An occurrence of a row that is not completed, and whose slot, where it lies in the window, no live
  -- child replaces.
  abbrev pub LiveOccurrence : R → String → Instant → Instant → TaskRow → RecurrenceConfig → Type 0
  LiveOccurrence r calendar_id start end row c =
      (o : Occurrence) × In o (occurrences_within luxon store r start end row (some c))
      × (o.completed_at ≡ none)
      × ¬ (Replaced store r (calendar_id ∷ []) start end row.id o.original_start)

  -- A row of the calendar that recurs, other than the excluded one, with such an occurrence.
  abbrev pub SeriesClash : R → String → Instant → Instant → Option String → TaskRow → Type 0
  SeriesClash r calendar_id start end excluded row =
      (c : RecurrenceConfig) × (source : RecurrenceSource) × (row.calendar_id ≡ calendar_id)
      × (row.parent_task_id ≡ none)
      × (not_excluded excluded row.id ≡ true)
      × Recurs row (group_of store r row) c source
      × LiveOccurrence r calendar_id start end row c

module _ (luxon : Luxon) {R : Type 0} (store : TaskDatabase R) (laws : TaskLaws store) where
  open store use {tasks}
  open laws use {found, keyed}

  clashes_by-LiveOccurrence :
      (r : R) (calendar_id : String) (start end : Instant) (row : TaskRow) (c : RecurrenceConfig)
      → (clashes_by luxon store r
            (build_override_suppression_set luxon store r (calendar_id ∷ []) start end)
            start
            end
            row
            (some c)
          ≡ true)
        ↔ LiveOccurrence luxon store r calendar_id start end row c
  unfolding clashes_by is_live_occurrence
  clashes_by-LiveOccurrence r calendar_id start end row c = (there, here)
    where
      keys : List SlotKey
      keys = build_override_suppression_set luxon store r (calendar_id ∷ []) start end

      live : Occurrence → Bool
      live o = is_null o.completed_at && not (has_key keys row.id o.original_start)

      os : List Occurrence
      os = occurrences_within luxon store r start end row (some c)

      there : any_of live os ≡ true → LiveOccurrence luxon store r calendar_id start end row c
      there h =
          let (o, i, l) = (any_of-In live os).0 h in
          (
            o,
            i,
            is_null-none o.completed_at (ground arith),
            λ k.
                let e =
                  (has_key-Replaced luxon store laws r (calendar_id ∷ []) start end row.id
                      o.original_start).1
                    k in
                true≢false (ground arith),
          )

      here : LiveOccurrence luxon store r calendar_id start end row c → any_of live os ≡ true
      here (o, i, done, n) = (any_of-In live os).1 (
        o,
        i,
        elim (Bool-cases (has_key keys row.id o.original_start)) [
          | inl e ↦ absurd (
              n (
                (has_key-Replaced luxon store laws r (calendar_id ∷ []) start end row.id
                    o.original_start).0
                  e))
          | inr e ↦ rw (done, e) refl
        ],
      )

  nothing-clashes :
      (r : R) (keys : List SlotKey) (start end : Instant) (row : TaskRow)
      (rule : Option RecurrenceConfig)
      → clashes_by luxon store r keys start end row rule ≡ true
      → (c : RecurrenceConfig) × (rule ≡ some c)
  unfolding clashes_by occurrences_within
  nothing-clashes r keys start end row none h = absurd (true≢false (sym h))
  nothing-clashes r keys start end row (some c) h = (c, refl)

  -- The anchors before the duplicates are removed.
  anchors : R → String → Instant → Instant → Option String → List TaskRow
  anchors r calendar_id start end excluded =
      filter_by
        (λ anchor.
          clashes_by luxon store r
            (build_override_suppression_set luxon store r (calendar_id ∷ []) start end) start end
            anchor anchor.recurrence_config)
        (tasks.find_all r (own_rule_clash calendar_id excluded))
      ++ filter_by
          (λ anchor.
            clashes_by luxon store r
              (build_override_suppression_set luxon store r (calendar_id ∷ []) start end) start end
              anchor (group_config (group_of store r anchor)))
          (tasks.find_all r (group_inherited_clash calendar_id excluded))

  anchors-SeriesClash :
      (r : R) (calendar_id : String) (start end : Instant) (excluded : Option String)
      (row : TaskRow)
      → In row (anchors r calendar_id start end excluded)
        ↔ (In row (tasks.rows r) × SeriesClash luxon store r calendar_id start end excluded row)
  unfolding anchors own_rule_clash group_inherited_clash
  anchors-SeriesClash r calendar_id start end excluded row =
      (λ h. there (In-append row own_rule _ h), here)
    where
      keys : List SlotKey
      keys = build_override_suppression_set luxon store r (calendar_id ∷ []) start end

      by_own : TaskRow → Bool
      by_own anchor = clashes_by luxon store r keys start end anchor anchor.recurrence_config

      by_group : TaskRow → Bool
      by_group anchor =
          clashes_by luxon store r keys start end anchor (group_config (group_of store r anchor))

      own_rows : List TaskRow
      own_rows = tasks.find_all r (own_rule_clash calendar_id excluded)

      group_rows : List TaskRow
      group_rows = tasks.find_all r (group_inherited_clash calendar_id excluded)

      own_rule : List TaskRow
      own_rule = filter_by by_own own_rows

      there :
          In row own_rule ⊎ In row (filter_by by_group group_rows)
          → In row (tasks.rows r) × SeriesClash luxon store r calendar_id start end excluded row
      there (inl h) =
          let (k, e) = (In-filter_by by_own row own_rows).0 h in
          let (i, t) = (found r (own_rule_clash calendar_id excluded) row).0 k in
          let (c, rule) = nothing-clashes r keys start end row row.recurrence_config e in
          (
            i,
            (
              c,
              RecurrenceSource.task,
              (eq_iff row.calendar_id calendar_id).0 (ground arith),
              is_null-none row.parent_task_id (ground arith),
              ground arith,
              own rule,
              (clashes_by-LiveOccurrence r calendar_id start end row c).0
                  (subst (λ x. clashes_by luxon store r keys start end row x ≡ true) rule e),
            ),
          )
      there (inr h) =
          let (k, e) = (In-filter_by by_group row group_rows).0 h in
          let (i, t) = (found r (group_inherited_clash calendar_id excluded) row).0 k in
          let (c, rule) =
            nothing-clashes r keys start end row (group_config (group_of store r row)) e in
          (
            i,
            (
              c,
              RecurrenceSource.group,
              (eq_iff row.calendar_id calendar_id).0 (ground arith),
              is_null-none row.parent_task_id (ground arith),
              ground arith,
              inherited (is_null-none row.recurrence_config (ground arith)) (ground arith) rule,
              (clashes_by-LiveOccurrence r calendar_id start end row c).0
                  (subst (λ x. clashes_by luxon store r keys start end row x ≡ true) rule e),
            ),
          )

      here :
          In row (tasks.rows r) × SeriesClash luxon store r calendar_id start end excluded row
          → In row (own_rule ++ filter_by by_group group_rows)
      here (i, (c, _, same, p, other, own rule, live)) = In-left row own_rule _ (
          (In-filter_by by_own row own_rows).1 (
            (found r (own_rule_clash calendar_id excluded) row).1 (
              i,
              rw
                  (
                    (eq_iff row.calendar_id calendar_id).1 same,
                    p,
                    other,
                    some-null row.recurrence_config c rule,
                  )
                  refl,
            ),
            subst (λ x. clashes_by luxon store r keys start end row x ≡ true) (sym rule)
                ((clashes_by-LiveOccurrence r calendar_id start end row c).1 live),
          ))
      here (i, (c, _, same, p, other, inherited n k rule, live)) = In-right row own_rule _ (
          (In-filter_by by_group row group_rows).1 (
            (found r (group_inherited_clash calendar_id excluded) row).1
                (i, rw ((eq_iff row.calendar_id calendar_id).1 same, p, other, n, k) refl),
            subst (λ x. clashes_by luxon store r keys start end row x ≡ true) (sym rule)
                ((clashes_by-LiveOccurrence r calendar_id start end row c).1 live),
          ))

  pub found_anchors-In :
      (r : R) (calendar_id : String) (start end : Instant) (excluded : Option String)
      (row : TaskRow)
      → In row (find_clashing_recurring_anchors luxon store r calendar_id start end excluded)
        ↔ (In row (tasks.rows r) × SeriesClash luxon store r calendar_id start end excluded row)
  unfolding find_clashing_recurring_anchors anchors
  found_anchors-In r calendar_id start end excluded row = (
    λ h. all.0 (dedupe_by_id-In (anchors r calendar_id start end excluded) row h),
    λ h.
        In-dedupe_by_id (anchors r calendar_id start end excluded) row
          (λ y i same.
            keyed r y row ((anchors-SeriesClash r calendar_id start end excluded y).0 i).0 h.0 same)
          (all.1 h),
  )
    where
      all :
          In row (anchors r calendar_id start end excluded)
          ↔ (In row (tasks.rows r) × SeriesClash luxon store r calendar_id start end excluded row)
      all = anchors-SeriesClash r calendar_id start end excluded row
