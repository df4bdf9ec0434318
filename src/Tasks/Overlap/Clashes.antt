-- ===== src/Tasks/Overlap/Clashes.antt =====
-- What findOverlapping of task.service.ts reports, stated on the rows of the tables.
use text.Mathlib.Text.{◌==◌ as str_eq}
use cue_api.Common.{
  Bool-cases, sort_with-Pairwise, ◌≡◌, ◌≢◌, ◌↔◌, ◌⊎◌, inl, inr, refl, sym, ◌∙◌, String, Bool, true,
  false, ◌&&◌, ◌||◌, Option, none, some, List, ◌++◌, arith, sort_with-Sorted, Sorted, In, In-append,
  In-left, In-right, In-sort_with,
}
use cue_api.Recurrence.Types.{Instant}
use cue_api.Recurrence.Luxon.{Luxon}
use cue_api.Tasks.Types.{TaskRow, resolved}
use cue_api.Tasks.Store.{TaskDatabase, TaskLaws, is_null, ensure_calendar_owned_by_user}
use cue_api.Tasks.Read.{before, after, from_on}
use cue_api.Tasks.Read.OneOffs.{meets}
use cue_api.Tasks.Read.Listing.{starts_by-total}
use cue_api.Tasks.Overlap.{
  timed_clash, no_end_clash, not_excluded, start_order, find_clashing_recurring_anchors,
  overlapping, find_overlapping,
}
use cue_api.Tasks.Overlap.Dedupe.{
  UniqueIds, dedupe_by_id-In, In-dedupe_by_id, dedupe_by_id-UniqueIds,
}
use cue_api.Tasks.Overlap.Anchors.{SeriesClash, found_anchors-In}

-- A row of the calendar, other than the excluded one, without a rule of its own, that is not
-- completed and meets the window.
abbrev pub one_off_clash : String → Instant → Instant → Option String → TaskRow → Bool
one_off_clash calendar_id start end excluded row =
    str_eq row.calendar_id calendar_id
    && is_null row.recurrence_config
    && is_null row.completed_at
    && meets false start end row.start_at row.end_at
    && not_excluded excluded row.id

meets-clashes :
    (from to : Instant) (a rule done other : Bool) (start end : Option Instant)
    → ((a && rule && done && before to start && after from end && other)
        || (a && rule && done && from_on from start && before to start && is_null end && other))
      ≡ (a && rule && done && meets false from to start end && other)
meets-clashes from to a rule done other none end = ground arith
meets-clashes from to a rule done other (some start) none = ground arith
meets-clashes from to a rule done other (some start) (some end) = ground arith

one_off_clash-queries :
    (calendar_id : String) (start end : Instant) (excluded : Option String) (row : TaskRow)
    → (timed_clash calendar_id start end excluded row
        || no_end_clash calendar_id start end excluded row)
      ≡ one_off_clash calendar_id start end excluded row
unfolding timed_clash no_end_clash
one_off_clash-queries calendar_id start end excluded row =
    meets-clashes start end (str_eq row.calendar_id calendar_id) (is_null row.recurrence_config)
      (is_null row.completed_at) (not_excluded excluded row.id) row.start_at row.end_at

module _ (luxon : Luxon) {R : Type 0} (store : TaskDatabase R) where
  open store use {tasks}

  abbrev pub Clash : R → String → Instant → Instant → Option String → TaskRow → Type 0
  Clash r calendar_id start end excluded row =
      In row (tasks.rows r)
      × ((one_off_clash calendar_id start end excluded row ≡ true)
          ⊎ SeriesClash luxon store r calendar_id start end excluded row)

module _ (luxon : Luxon) {R : Type 0} (store : TaskDatabase R) (laws : TaskLaws store) where
  open store use {tasks}
  open laws use {found, keyed}

  -- What the three queries find.
  clashing : R → String → Instant → Instant → Option String → List TaskRow
  clashing r calendar_id start end excluded =
      tasks.find_all r (timed_clash calendar_id start end excluded)
      ++ (tasks.find_all r (no_end_clash calendar_id start end excluded)
          ++ find_clashing_recurring_anchors luxon store r calendar_id start end excluded)

  clashing-Clash :
      (r : R) (calendar_id : String) (start end : Instant) (excluded : Option String)
      (row : TaskRow)
      → In row (clashing r calendar_id start end excluded)
        ↔ Clash luxon store r calendar_id start end excluded row
  unfolding clashing
  clashing-Clash r calendar_id start end excluded row = (λ h. first (In-append row timed _ h), here)
    where
      timed : List TaskRow
      timed = tasks.find_all r (timed_clash calendar_id start end excluded)

      no_end : List TaskRow
      no_end = tasks.find_all r (no_end_clash calendar_id start end excluded)

      recurring : List TaskRow
      recurring = find_clashing_recurring_anchors luxon store r calendar_id start end excluded

      first :
          In row timed ⊎ In row (no_end ++ recurring)
          → Clash luxon store r calendar_id start end excluded row
      first (inl h) =
          let (i, t) = (found r (timed_clash calendar_id start end excluded) row).0 h in
          (i, inl (sym (one_off_clash-queries calendar_id start end excluded row) ∙ ground arith))
      first (inr h) = elim (In-append row no_end recurring h) [
        | inl k ↦
            let (i, t) = (found r (no_end_clash calendar_id start end excluded) row).0 k in
            (i, inl (sym (one_off_clash-queries calendar_id start end excluded row) ∙ ground arith))
        | inr k ↦
            let (i, s) =
              (found_anchors-In luxon store laws r calendar_id start end excluded row).0 k in
            (i, inr s)
      ]

      here :
          Clash luxon store r calendar_id start end excluded row
          → In row (timed ++ (no_end ++ recurring))
      here (i, inl t) =
          let e = one_off_clash-queries calendar_id start end excluded row ∙ t in
          elim (Bool-cases (timed_clash calendar_id start end excluded row)) [
            | inl k ↦
                In-left row timed (no_end ++ recurring)
                  ((found r (timed_clash calendar_id start end excluded) row).1 (i, k))
            | inr k ↦ In-right row timed (no_end ++ recurring) (
                In-left row no_end recurring
                  ((found r (no_end_clash calendar_id start end excluded) row).1 (i, ground arith)))
          ]
      here (i, inr s) = In-right row timed (no_end ++ recurring) (
          In-right row no_end recurring
            ((found_anchors-In luxon store laws r calendar_id start end excluded row).1 (i, s)))

  overlapping-Clash :
      (r : R) (calendar_id : String) (start end : Instant) (excluded : Option String)
      (row : TaskRow)
      → In row (overlapping luxon store r calendar_id start end excluded)
        ↔ Clash luxon store r calendar_id start end excluded row
  unfolding overlapping clashing
  overlapping-Clash r calendar_id start end excluded row = (
    λ h. (clashing-Clash r calendar_id start end excluded row).0 (
        dedupe_by_id-In (clashing r calendar_id start end excluded) row
          ((In-sort_with start_order row _).0 h)),
    λ h. (In-sort_with start_order row _).1 (
        In-dedupe_by_id (clashing r calendar_id start end excluded) row
          (λ y i same.
            keyed r y row ((clashing-Clash r calendar_id start end excluded y).0 i).0 h.0 same)
          ((clashing-Clash r calendar_id start end excluded row).1 h)),
  )

  -- The conflict check of a calendar of the user reports, each once and in the order of their
  -- starts, exactly the rows that clash with the window: those without a rule of their own that are
  -- not completed and meet it, and those that recur with an occurrence in it that is not completed
  -- and whose slot, where it lies in the window, no live child replaces; the excluded row is never
  -- among them.
  pub find_overlapping-Clash :
      (r : R) (user_id calendar_id : String) (start end : Instant) (excluded : Option String)
      → ensure_calendar_owned_by_user store r calendar_id user_id ≡ resolved tt
      → (rows : List TaskRow) × (find_overlapping luxon store r user_id calendar_id start end
            excluded
          ≡ resolved rows)
        × UniqueIds rows
        × Sorted start_order rows
        × ((row : TaskRow) → In row rows ↔ Clash luxon store r calendar_id start end excluded row)
  unfolding find_overlapping overlapping
  find_overlapping-Clash r user_id calendar_id start end excluded owned = (
    overlapping luxon store r calendar_id start end excluded,
    rw owned refl,
    sort_with-Pairwise start_order (λ x y. y.id ≢ x.id) (λ x y n e. n (sym e)) _
        (dedupe_by_id-UniqueIds _),
    sort_with-Sorted start_order (λ x y. starts_by-total x.start_at y.start_at) _,
    overlapping-Clash r calendar_id start end excluded,
  )
