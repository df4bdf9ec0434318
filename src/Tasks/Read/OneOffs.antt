-- ===== src/Tasks/Read/OneOffs.antt =====
-- task.service.ts, readOneOffOccurrences: the rows that it lists.
use mathlib.Core.Bool.{true≢false}
use cue_api.Common.{
  ltb, leb, ◌≡◌, ◌↔◌, ◌⊎◌, inl, inr, refl, sym, ◌∙◌, subst, String, Bool, true, false, append-nil,
  not, ◌&&◌, ◌||◌, Option, none, some, List, [], ◌++◌, map, if◌then◌else◌, arith, filter_by,
  Bool-cases, In, In-append, In-left, In-right, In-filter_by, In-map, In-map-inv,
}
use cue_api.Recurrence.Types.{Instant}
use cue_api.Recurrence.Luxon.{Luxon}
use cue_api.Tasks.Types.{TaskRow, GroupRow}
use cue_api.Tasks.Store.{TaskDatabase, TaskLaws, is_null, group_of}
use cue_api.Tasks.Read.{
  FindOccurrencesOptions, ListedOccurrence, before, after, from_on, among, in_group, wrap_one_off,
  inherits_group_recurrence, timed_with_end, timed_no_end, timeless, read_one_off_occurrences,
}

-- Whether a row that does not recur meets the window: half-open, the start alone where there is no
-- end, and a row without a start where todos are wanted.
abbrev pub meets : Bool → Instant → Instant → Option Instant → Option Instant → Bool
meets todos from to none end = todos
meets todos from to (some start) none = leb from start && ltb start to
meets todos from to (some start) (some end) = ltb start to && ltb from end

abbrev pub one_off :
    Option GroupRow → List String → Instant → Instant → FindOccurrencesOptions → TaskRow → Bool
one_off group ids from to opts row =
    among ids row.calendar_id
    && is_null row.recurrence_config
    && not (inherits_group_recurrence group row)
    && meets opts.include_todos from to row.start_at row.end_at
    && in_group opts.group_id row.group_id

meets-queries :
    (from to : Instant) (todos a rule inherits g : Bool) (start end : Option Instant)
    → (is_null start ≡ true → inherits ≡ false)
    → (((a && rule && before to start && after from end && g)
            || (a && rule && from_on from start && before to start && is_null end && g))
          && not inherits
        || (todos && (a && rule && is_null start && g)))
      ≡ (a && rule && not inherits && meets todos from to start end && g)
meets-queries from to todos a rule inherits g none end h = let k = h refl in ground arith
meets-queries from to todos a rule inherits g (some start) none h = ground arith
meets-queries from to todos a rule inherits g (some start) (some end) h = ground arith

timeless-inherits :
    (group : Option GroupRow) (row : TaskRow)
    → is_null row.start_at ≡ true
    → inherits_group_recurrence group row ≡ false
unfolding inherits_group_recurrence
timeless-inherits group row h = ground arith

module _ {R : Type 0} (store : TaskDatabase R) where
  open store use {tasks}

  -- A row that does not recur and meets the window.
  abbrev pub ListedOneOff :
      R → List String → Instant → Instant → FindOccurrencesOptions → ListedOccurrence → Type 0
  ListedOneOff r ids from to opts o =
      (row : TaskRow) × In row (tasks.rows r)
      × (one_off (group_of store r row) ids from to opts row ≡ true)
      × (o ≡ wrap_one_off row)

module _ (luxon : Luxon) {R : Type 0} (store : TaskDatabase R) (laws : TaskLaws store) where
  open store use {tasks}
  open laws use {found}

  split :
      (r : R) (ids : List String) (from to : Instant) (opts : FindOccurrencesOptions)
      (row : TaskRow)
      → (((timed_with_end ids from to opts.group_id row
              || timed_no_end ids from to opts.group_id row)
            && not (inherits_group_recurrence (group_of store r row) row))
          || (opts.include_todos && timeless ids opts.group_id row))
        ≡ one_off (group_of store r row) ids from to opts row
  unfolding timed_with_end timed_no_end timeless
  split r ids from to opts row =
      meets-queries from to opts.include_todos (among ids row.calendar_id)
        (is_null row.recurrence_config) (inherits_group_recurrence (group_of store r row) row)
        (in_group opts.group_id row.group_id) row.start_at row.end_at
        (timeless-inherits (group_of store r row) row)

  wrapped :
      (rows : List TaskRow) (o : ListedOccurrence)
      → In o (map wrap_one_off rows)
      → (row : TaskRow) × In row rows × (o ≡ wrap_one_off row)
  wrapped rows o h = In-map-inv wrap_one_off o rows h

  todo_rows : R → List String → FindOccurrencesOptions → List TaskRow
  todo_rows r ids opts =
      if opts.include_todos then tasks.find_all r (timeless ids opts.group_id) else []

  timed_rows : R → List String → Instant → Instant → FindOccurrencesOptions → List TaskRow
  timed_rows r ids from to opts =
      filter_by (λ task. not (inherits_group_recurrence (group_of store r task) task))
        (tasks.find_all r (timed_with_end ids from to opts.group_id)
          ++ tasks.find_all r (timed_no_end ids from to opts.group_id))

  timed_rows-In :
      (r : R) (ids : List String) (from to : Instant) (opts : FindOccurrencesOptions)
      (row : TaskRow)
      → In row (timed_rows r ids from to opts) ↔ (
          In row (tasks.rows r)
          × (((timed_with_end ids from to opts.group_id row
                  || timed_no_end ids from to opts.group_id row)
                && not (inherits_group_recurrence (group_of store r row) row))
              ≡ true))
  unfolding timed_rows
  timed_rows-In r ids from to opts row = (there, here)
    where
      both : List TaskRow
      both =
          tasks.find_all r (timed_with_end ids from to opts.group_id)
          ++ tasks.find_all r (timed_no_end ids from to opts.group_id)

      there :
          In row (timed_rows r ids from to opts)
          → In row (tasks.rows r)
            × (((timed_with_end ids from to opts.group_id row
                    || timed_no_end ids from to opts.group_id row)
                  && not (inherits_group_recurrence (group_of store r row) row))
                ≡ true)
      there h =
          let (k, e) =
            (In-filter_by (λ task. not (inherits_group_recurrence (group_of store r task) task)) row
                both).0
              h in
          elim (In-append row (tasks.find_all r (timed_with_end ids from to opts.group_id)) _ k) [
            | inl m ↦
                let (i, t) = (found r (timed_with_end ids from to opts.group_id) row).0 m in
                (i, ground arith)
            | inr m ↦
                let (i, t) = (found r (timed_no_end ids from to opts.group_id) row).0 m in
                (i, ground arith)
          ]

      here :
          In row (tasks.rows r)
            × (((timed_with_end ids from to opts.group_id row
                    || timed_no_end ids from to opts.group_id row)
                  && not (inherits_group_recurrence (group_of store r row) row))
                ≡ true)
          → In row (timed_rows r ids from to opts)
      here (i, e) =
          (In-filter_by (λ task. not (inherits_group_recurrence (group_of store r task) task)) row
              both).1
            (
              elim (Bool-cases (timed_with_end ids from to opts.group_id row)) [
                | inl t ↦
                    In-left row (tasks.find_all r (timed_with_end ids from to opts.group_id)) _
                      ((found r (timed_with_end ids from to opts.group_id) row).1 (i, t))
                | inr t ↦
                    In-right row (tasks.find_all r (timed_with_end ids from to opts.group_id)) _
                      ((found r (timed_no_end ids from to opts.group_id) row).1 (i, ground arith))
              ],
              ground arith,
            )

  one_offs-eq :
      (r : R) (ids : List String) (from to : Instant) (opts : FindOccurrencesOptions)
      → read_one_off_occurrences luxon store r ids from to opts
        ≡ map wrap_one_off (timed_rows r ids from to opts)
          ++ map wrap_one_off (todo_rows r ids opts)
  unfolding read_one_off_occurrences timed_rows todo_rows
  one_offs-eq r ids from to opts = elim (Bool-cases opts.include_todos) [
    | inl e ↦ rw e refl
    | inr e ↦ rw (e, append-nil (map wrap_one_off (timed_rows r ids from to opts))) refl
  ]

  todo_rows-In :
      (r : R) (ids : List String) (opts : FindOccurrencesOptions) (row : TaskRow)
      → In row (todo_rows r ids opts)
        ↔ (In row (tasks.rows r) × ((opts.include_todos && timeless ids opts.group_id row) ≡ true))
  unfolding todo_rows
  todo_rows-In r ids opts row = elim (Bool-cases opts.include_todos) [
    | inl e ↦ rw e (found r (timeless ids opts.group_id) row)
    | inr e ↦ rw e ((λ h. absurd h), (λ (i, k). absurd (true≢false (sym k))))
  ]

  -- The one-off read lists the rows that do not recur and meet the window, and no other.
  pub one_offs-In :
      (r : R) (ids : List String) (from to : Instant) (opts : FindOccurrencesOptions)
      (o : ListedOccurrence)
      → In o (read_one_off_occurrences luxon store r ids from to opts)
        ↔ ListedOneOff store r ids from to opts o
  one_offs-In r ids from to opts o = (
    λ h. there (
        In-append o (map wrap_one_off timed) (map wrap_one_off todos)
          (subst (In o) (one_offs-eq r ids from to opts) h)),
    here,
  )
    where
      timed : List TaskRow
      timed = timed_rows r ids from to opts

      todos : List TaskRow
      todos = todo_rows r ids opts

      there :
          In o (map wrap_one_off timed) ⊎ In o (map wrap_one_off todos)
          → ListedOneOff store r ids from to opts o
      there (inl h) =
          let (row, k, e) = wrapped timed o h in
          let (i, t) = (timed_rows-In r ids from to opts row).0 k in
          (row, i, sym (split r ids from to opts row) ∙ ground arith, e)
      there (inr h) =
          let (row, k, e) = wrapped todos o h in
          let (i, t) = (todo_rows-In r ids opts row).0 k in
          (row, i, sym (split r ids from to opts row) ∙ ground arith, e)

      here :
          ListedOneOff store r ids from to opts o
          → In o (read_one_off_occurrences luxon store r ids from to opts)
      here (row, i, t, e) =
          let k = split r ids from to opts row ∙ t in
          subst (In o) (sym (one_offs-eq r ids from to opts))
            (elim (Bool-cases (opts.include_todos && timeless ids opts.group_id row)) [
              | inl d ↦ In-right o (map wrap_one_off timed) (map wrap_one_off todos) (
                  subst (λ x. In x (map wrap_one_off todos)) (sym e)
                    (In-map wrap_one_off row todos ((todo_rows-In r ids opts row).1 (i, d))))
              | inr d ↦ In-left o (map wrap_one_off timed) (map wrap_one_off todos) (
                  subst (λ x. In x (map wrap_one_off timed)) (sym e)
                    (In-map wrap_one_off row timed
                      ((timed_rows-In r ids from to opts row).1 (i, ground arith))))
            ])
