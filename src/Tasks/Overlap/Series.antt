-- ===== src/Tasks/Overlap/Series.antt =====
-- What findRecurringSeriesConflicts of task.service.ts reports of a proposed series.
use cue_api.Common.{
  ◌≡◌, ◌↔◌, ◌⊎◌, inl, inr, refl, sym, ap, ◌∙◌, subst, String, Option, none, some, List, [], ◌∷◌, In,
  In-append, In-left, In-right,
}
use cue_api.Recurrence.Types.{Instant, Occurrence}
use cue_api.Recurrence.Luxon.{Luxon}
use cue_api.Recurrence.Expand.{ProposedSeries, preview_series_occurrences}
use cue_api.Tasks.Types.{TaskRow, resolved, Outcome, ◌>>=◌}
use cue_api.Tasks.Store.{TaskDatabase, TaskLaws, ensure_calendar_owned_by_user}
use cue_api.Tasks.Overlap.{
  RecurringSeriesConflicts, with_conflicts, no_conflicts, probe, find_overlapping, dedupe_by_id,
  find_recurring_series_conflicts,
}
use cue_api.Tasks.Overlap.Dedupe.{
  UniqueIds, dedupe_by_id-In, In-dedupe_by_id, dedupe_by_id-UniqueIds,
}
use cue_api.Tasks.Overlap.Clashes.{Clash, find_overlapping-Clash}

with_conflicts-dates :
    (start : Instant) (rows : List TaskRow) (rest : RecurringSeriesConflicts) (d : Instant)
    → In d (with_conflicts start rows rest).conflict_dates
      ↔ (((d ≡ start) × (row : TaskRow) × In row rows) ⊎ In d rest.conflict_dates)
unfolding with_conflicts
with_conflicts-dates start [] rest d =
    (λ h. inr h, λ h. elim h [ inl (e, row, i) ↦ absurd i | inr k ↦ k ])
with_conflicts-dates start (x ∷ rows) rest d = (
  λ h. elim h [ inl e ↦ inl (e, x, inl refl) | inr k ↦ inr k ],
  λ h. elim h [ inl (e, row, i) ↦ inl e | inr k ↦ inr k ],
)

with_conflicts-tasks :
    (start : Instant) (rows : List TaskRow) (rest : RecurringSeriesConflicts) (row : TaskRow)
    → In row (with_conflicts start rows rest).conflicting_tasks
      ↔ (In row rows ⊎ In row rest.conflicting_tasks)
unfolding with_conflicts
with_conflicts-tasks start [] rest row = (λ h. inr h, λ h. elim h [ inl i ↦ absurd i | inr k ↦ k ])
with_conflicts-tasks start (x ∷ rows) rest row = (
  λ h. In-append row (x ∷ rows) rest.conflicting_tasks h,
  λ h. elim h [ inl i ↦ In-left row (x ∷ rows) _ i | inr k ↦ In-right row (x ∷ rows) _ k ],
)

some-eq : {a b : Instant} → some a ≡ some b → a ≡ b
some-eq h = cc

module _ (luxon : Luxon) {R : Type 0} (store : TaskDatabase R) where
  -- A row clashes with the span of an occurrence that has an end.
  abbrev pub ClashesWith : R → String → Option String → Occurrence → TaskRow → Type 0
  ClashesWith r calendar_id excluded o row =
      (end : Instant) × (o.occurrence_end ≡ some end)
      × Clash luxon store r calendar_id o.occurrence_start end excluded row

  -- The dates are the starts of the occurrences that some row clashes with, and the tasks are the
  -- rows that clash with some occurrence.
  abbrev pub Reports :
      R → String → Option String → List Occurrence → RecurringSeriesConflicts → Type 0
  Reports r calendar_id excluded os found =
      ((d : Instant)
        → In d found.conflict_dates ↔ (
            (o : Occurrence) × In o os
            × (d ≡ o.occurrence_start)
            × (row : TaskRow) × ClashesWith r calendar_id excluded o row))
      × ((row : TaskRow)
          → In row found.conflicting_tasks
            ↔ ((o : Occurrence) × In o os × ClashesWith r calendar_id excluded o row))

module _ (luxon : Luxon) {R : Type 0} (store : TaskDatabase R) (laws : TaskLaws store) where
  -- An occurrence without an end reports nothing.
  skipped-Reports :
      (r : R) (calendar_id : String) (excluded : Option String) (o : Occurrence)
      (os : List Occurrence) (found : RecurringSeriesConflicts)
      → o.occurrence_end ≡ none
      → Reports luxon store r calendar_id excluded os found
      → Reports luxon store r calendar_id excluded (o ∷ os) found
  skipped-Reports r calendar_id excluded o os found open_ended (dates, rows) = (
    λ d. (
      λ h. let (p, i, e, row, c) = (dates d).0 h in (p, inr i, e, row, c),
      λ (p, i, e, row, c). elim i [
        | inl same ↦ absurd (endless p same c.0 c.1)
        | inr k ↦ (dates d).1 (p, k, e, row, c)
      ],
    ),
    λ row. (
      λ h. let (p, i, c) = (rows row).0 h in (p, inr i, c),
      λ (p, i, c). elim i [
        | inl same ↦ absurd (endless p same c.0 c.1)
        | inr k ↦ (rows row).1 (p, k, c)
      ],
    ),
  )
    where
      endless : (p : Occurrence) → p ≡ o → (end : Instant) → p.occurrence_end ≡ some end → ⊥
      endless p same end e = let k = sym e ∙ ap (λ x. x.occurrence_end) same ∙ open_ended in cc

  clashing-Reports :
      (r : R) (calendar_id : String) (excluded : Option String) (o : Occurrence)
      (os : List Occurrence) (end : Instant) (clashing : List TaskRow)
      (found : RecurringSeriesConflicts)
      → o.occurrence_end ≡ some end
      → ((row : TaskRow)
          → In row clashing ↔ Clash luxon store r calendar_id o.occurrence_start end excluded row)
      → Reports luxon store r calendar_id excluded os found
      → Reports luxon store r calendar_id excluded
          (o ∷ os)
          (with_conflicts o.occurrence_start clashing found)
  clashing-Reports r calendar_id excluded o os end clashing found ended exact (dates, rows) = (
    λ d. (
      λ h. elim ((with_conflicts-dates o.occurrence_start clashing found d).0 h) [
        | inl (e, row, i) ↦ (o, inl refl, e, row, (end, ended, (exact row).0 i))
        | inr k ↦ let (p, i, e, row, c) = (dates d).0 k in (p, inr i, e, row, c)
      ],
      λ (p, i, e, row, c). (with_conflicts-dates o.occurrence_start clashing found d).1 (elim i [
        | inl same ↦ inl (e ∙ ap (λ x. x.occurrence_start) same, row, here p row same c)
        | inr k ↦ inr ((dates d).1 (p, k, e, row, c))
      ]),
    ),
    λ row. (
      λ h. elim ((with_conflicts-tasks o.occurrence_start clashing found row).0 h) [
        | inl i ↦ (o, inl refl, (end, ended, (exact row).0 i))
        | inr k ↦ let (p, i, c) = (rows row).0 k in (p, inr i, c)
      ],
      λ (p, i, c).
          (with_conflicts-tasks o.occurrence_start clashing found row).1
            (elim i [ inl same ↦ inl (here p row same c) | inr k ↦ inr ((rows row).1 (p, k, c)) ]),
    ),
  )
    where
      here :
          (p : Occurrence) (row : TaskRow)
          → p ≡ o
          → ClashesWith luxon store r calendar_id excluded p row
          → In row clashing
      here p row same c =
          let (end', e, k) =
            subst (λ x. ClashesWith luxon store r calendar_id excluded x row) same c in
          (exact row).1 (
            subst (λ x. Clash luxon store r calendar_id o.occurrence_start x excluded row)
              (some-eq (sym e ∙ ended)) k)

  -- The loop over the occurrences ends with a report of them.
  probe-Reports :
      (r : R) (user_id calendar_id : String) (excluded : Option String) (os : List Occurrence)
      → ensure_calendar_owned_by_user store r calendar_id user_id ≡ resolved tt
      → (found : RecurringSeriesConflicts) × (probe luxon store r user_id calendar_id excluded os
          ≡ resolved found)
        × Reports luxon store r calendar_id excluded os found
  unfolding probe
  probe-Reports r user_id calendar_id excluded [] owned = (
    no_conflicts,
    refl,
    (
      λ d. (λ h. absurd h, λ (o, i, e, row, c). absurd i),
      λ row. (λ h. absurd h, λ (o, i, c). absurd i),
    ),
  )
  probe-Reports r user_id calendar_id excluded (o ∷ os) owned =
      go (probe-Reports r user_id calendar_id excluded os owned) o.occurrence_end refl
    where
      result : Option Instant → Outcome RecurringSeriesConflicts
      result ending = elim ending [
        | none ↦ probe luxon store r user_id calendar_id excluded os
        | some end ↦
            find_overlapping luxon store r user_id calendar_id o.occurrence_start end excluded
            >>= λ conflicts. probe luxon store r user_id calendar_id excluded os >>= λ others.
                resolved (with_conflicts o.occurrence_start conflicts others)
      ]

      go :
          ((found : RecurringSeriesConflicts) × (probe luxon store r user_id calendar_id excluded os
              ≡ resolved found)
            × Reports luxon store r calendar_id excluded os found)
          → (ending : Option Instant) → o.occurrence_end ≡ ending
          → (found : RecurringSeriesConflicts) × (result o.occurrence_end ≡ resolved found)
            × Reports luxon store r calendar_id excluded (o ∷ os) found
      go (found, e, reports) none open_ended = (
        found,
        ap result open_ended ∙ e,
        skipped-Reports r calendar_id excluded o os found open_ended reports,
      )
      go (found, e, reports) (some end) ended =
          let (clashing, same, unique, sorted, exact) =
            find_overlapping-Clash luxon store laws r user_id calendar_id o.occurrence_start end
              excluded owned in
          (
            with_conflicts o.occurrence_start clashing found,
            ap result ended ∙ rw (same, e) refl,
            clashing-Reports r calendar_id excluded o os end clashing found ended exact reports,
          )

  -- The check of a proposed series in a calendar of the user reports as dates exactly the starts of
  -- the previewed occurrences that have an end and that some row clashes with, and as tasks, each
  -- once, exactly the rows that clash with one of those occurrences.
  pub find_recurring_series_conflicts-Reports :
      (r : R) (user_id calendar_id : String) (proposal : ProposedSeries) (excluded : Option String)
      → ensure_calendar_owned_by_user store r calendar_id user_id ≡ resolved tt
      → (found : RecurringSeriesConflicts) × (find_recurring_series_conflicts luxon store r user_id
            calendar_id proposal excluded
          ≡ resolved found)
        × UniqueIds found.conflicting_tasks
        × Reports luxon store r calendar_id excluded
            (preview_series_occurrences luxon proposal)
            found
  unfolding find_recurring_series_conflicts
  find_recurring_series_conflicts-Reports r user_id calendar_id proposal excluded owned =
      let (found, e, (dates, rows)) =
        probe-Reports r user_id calendar_id excluded (preview_series_occurrences luxon proposal)
          owned in
      (
        record found { conflicting_tasks = dedupe_by_id found.conflicting_tasks },
        rw (owned, e) refl,
        dedupe_by_id-UniqueIds found.conflicting_tasks,
        (
          dates,
          λ row. (
            λ h. (rows row).0 (dedupe_by_id-In found.conflicting_tasks row h),
            λ (o, i, (end, ended, (there, c))).
                In-dedupe_by_id found.conflicting_tasks row
                  (λ y k same.
                    let (o', i', (end', ended', (there', c'))) = (rows y).0 k in
                    laws.keyed r y row there' there same)
                  ((rows row).1 (o, i, (end, ended, (there, c)))),
          ),
        ),
      )
