-- ===== src/Tasks/Read/Listing.antt =====
-- What task.service.ts lists of a window, stated on the rows of the tables.
use mathlib.Core.Bool.{true≢false}
use cue_api.Common.{
  ltb, ◌<◌, ◌≡◌, ◌↔◌, ◌⊎◌, inl, inr, refl, sym, ap, ◌∙◌, String, Bool, true, false, ◌||◌, Option,
  none, some, List, [], ◌∷◌, ◌++◌, if◌then◌else◌, arith, filter_by, sort_with, sort_with-Sorted,
  Sorted, Bool-cases, In, In-append, In-left, In-right, In-filter_by, In-sort_with,
}
use cue_api.Recurrence.Types.{Instant}
use cue_api.Recurrence.Luxon.{Luxon}
use cue_api.Tasks.Types.{resolved}
use cue_api.Tasks.Store.{TaskDatabase, TaskLaws, is_null, resolve_calendar_scope}
use cue_api.Tasks.Read.{
  FindOccurrencesOptions, ListedOccurrence, SlotKey, has_key, suppressed, shows, starts_by,
  read_one_off_occurrences, read_recurring_occurrences, build_override_suppression_set,
  occurrences_of, find_occurrences_in_range,
}
use cue_api.Tasks.Read.OneOffs.{ListedOneOff, one_offs-In}
use cue_api.Tasks.Read.Series.{ListedSeries, series-In}
use cue_api.Tasks.Read.Slots.{Hidden, has_key-Replaced}

pub starts_by-total :
    (left right : Option Instant) → starts_by left right ≡ false → starts_by right left ≡ true
unfolding starts_by
starts_by-total left none h = cc
starts_by-total none (some right) h = refl
starts_by-total (some left) (some right) h = ground arith

module _ (luxon : Luxon) {R : Type 0} (store : TaskDatabase R) where
  -- What the window shows: a row that meets it or an occurrence of a series, not completed unless
  -- those are wanted, in a slot that no live child replaces.
  abbrev pub Shown :
      R → List String → Instant → Instant → FindOccurrencesOptions → ListedOccurrence → Type 0
  Shown r ids from to opts o =
      (ListedOneOff store r ids from to opts o ⊎ ListedSeries luxon store r ids from to opts o)
      × ((opts.include_completed || is_null o.completed_at) ≡ true)
      × ¬ (Hidden store r ids from to o)

  abbrev pub ByStart : List ListedOccurrence → Type 0
  ByStart = Sorted (λ left right. starts_by left.occurrence_start right.occurrence_start)

module _ (luxon : Luxon) {R : Type 0} (store : TaskDatabase R) (laws : TaskLaws store) where
  open store use {tasks}
  open laws use {found}

  -- What is listed without the filter on slots and completion.
  abbrev pub gathered :
      R → List String → Instant → Instant → FindOccurrencesOptions → List ListedOccurrence
  gathered r ids from to opts =
      read_one_off_occurrences luxon store r ids from to opts
      ++ read_recurring_occurrences luxon store r ids from to opts.group_id

  gathered-In :
      (r : R) (ids : List String) (from to : Instant) (opts : FindOccurrencesOptions)
      (o : ListedOccurrence)
      → In o (gathered r ids from to opts)
        ↔ (ListedOneOff store r ids from to opts o ⊎ ListedSeries luxon store r ids from to opts o)
  gathered-In r ids from to opts o = (there, here)
    where
      there :
          In o (gathered r ids from to opts)
          → ListedOneOff store r ids from to opts o ⊎ ListedSeries luxon store r ids from to opts o
      there h = elim (In-append o (read_one_off_occurrences luxon store r ids from to opts) _ h) [
        | inl k ↦ inl ((one_offs-In luxon store laws r ids from to opts o).0 k)
        | inr k ↦ inr ((series-In luxon store laws r ids from to opts o).0 k)
      ]

      here :
          ListedOneOff store r ids from to opts o ⊎ ListedSeries luxon store r ids from to opts o
          → In o (gathered r ids from to opts)
      here (inl k) = In-left o _ _ ((one_offs-In luxon store laws r ids from to opts o).1 k)
      here (inr k) =
          In-right o (read_one_off_occurrences luxon store r ids from to opts) _
            ((series-In luxon store laws r ids from to opts o).1 k)

  none-not : {A : Type 0} {a : A} → none ≡ some a → ⊥
  none-not h = cc

  some-eq : {A : Type 0} {a b : A} → some a ≡ some b → a ≡ b
  some-eq h = cc

  shows-Hidden :
      (r : R) (ids : List String) (from to : Instant) (completed : Bool) (o : ListedOccurrence)
      → (shows completed (build_override_suppression_set luxon store r ids from to) o ≡ true)
        ↔ (((completed || is_null o.completed_at) ≡ true) × ¬ (Hidden store r ids from to o))
  unfolding shows suppressed
  shows-Hidden r ids from to completed o = go o.original_start refl
    where
      keys : List SlotKey
      keys = build_override_suppression_set luxon store r ids from to

      go :
          (start : Option Instant)
          → o.original_start ≡ start
          → ((if suppressed keys o.task.id o.original_start
                then false
                else completed || is_null o.completed_at)
              ≡ true)
            ↔ (((completed || is_null o.completed_at) ≡ true) × ¬ (Hidden store r ids from to o))
      go none e = rw e (λ h. (h, λ (slot, k, more). none-not k), λ (h, n). h)
      go (some slot) e = elim (Bool-cases (has_key keys o.task.id slot)) [
        | inl k ↦
            rw (e, k)
              (
                λ h. absurd (true≢false (sym h)),
                λ (h, n). absurd (
                    n (
                      slot,
                      refl,
                      (has_key-Replaced luxon store laws r ids from to o.task.id slot).0 k,
                    )),
              )
        | inr k ↦
            rw (e, k)
              (
                λ h. (
                  h,
                  λ (s, q, more). true≢false (
                      sym ((has_key-Replaced luxon store laws r ids from to o.task.id s).1 more)
                      ∙ ap (has_key keys o.task.id) (some-eq (sym q))
                      ∙ k),
                ),
                λ (h, n). h,
              )
      ]

  -- What the calendars give before the filter.
  abbrev candidates_of :
      R → Instant → Instant → FindOccurrencesOptions → List String → List ListedOccurrence
  candidates_of r from to opts [] = []
  candidates_of r from to opts (id ∷ ids) = gathered r (id ∷ ids) from to opts

  occurrences_of-sorted :
      (r : R) (from to : Instant) (opts : FindOccurrencesOptions) (ids : List String)
      → occurrences_of luxon store r from to opts ids
        ≡ sort_with
            (λ left right. starts_by left.occurrence_start right.occurrence_start)
            (filter_by
              (shows opts.include_completed
                (build_override_suppression_set luxon store r ids from to))
              (candidates_of r from to opts ids))
  unfolding occurrences_of sort_with
  occurrences_of-sorted r from to opts [] = refl
  occurrences_of-sorted r from to opts (id ∷ ids) = refl

  -- Without a calendar there is nothing to gather.
  nothing-Listed :
      (r : R) (from to : Instant) (opts : FindOccurrencesOptions) (o : ListedOccurrence)
      → (ListedOneOff store r [] from to opts o ⊎ ListedSeries luxon store r [] from to opts o)
      → ⊥
  nothing-Listed r from to opts o (inl (row, i, t, e)) = true≢false (sym t)
  nothing-Listed r from to opts o (inr (row, c, source, i, a, p, g, rule, m)) = true≢false (sym a)

  candidates-In :
      (r : R) (ids : List String) (from to : Instant) (opts : FindOccurrencesOptions)
      (o : ListedOccurrence)
      → In o (candidates_of r from to opts ids)
        ↔ (ListedOneOff store r ids from to opts o ⊎ ListedSeries luxon store r ids from to opts o)
  candidates-In r [] from to opts o = (λ h. absurd h, nothing-Listed r from to opts o)
  candidates-In r (id ∷ ids) from to opts o = gathered-In r (id ∷ ids) from to opts o

  occurrences_of-Shown :
      (r : R) (from to : Instant) (opts : FindOccurrencesOptions) (ids : List String)
      (o : ListedOccurrence)
      → In o (occurrences_of luxon store r from to opts ids)
        ↔ Shown luxon store r ids from to opts o
  occurrences_of-Shown r from to opts ids o = rw (occurrences_of-sorted r from to opts ids) (
    λ h.
        let (k, s) = (In-filter_by visible o candidates).0 ((In-sort_with by_start o shown).0 h) in
        let (wanted, n) = (shows-Hidden r ids from to opts.include_completed o).0 s in
        ((candidates-In r ids from to opts o).0 k, wanted, n),
    λ (k, wanted, n). (In-sort_with by_start o shown).1 (
        (In-filter_by visible o candidates).1 (
          (candidates-In r ids from to opts o).1 k,
          (shows-Hidden r ids from to opts.include_completed o).1 (wanted, n),
        )),
  )
    where
      visible : ListedOccurrence → Bool
      visible =
          shows opts.include_completed (build_override_suppression_set luxon store r ids from to)

      by_start : ListedOccurrence → ListedOccurrence → Bool
      by_start left right = starts_by left.occurrence_start right.occurrence_start

      candidates : List ListedOccurrence
      candidates = candidates_of r from to opts ids

      shown : List ListedOccurrence
      shown = filter_by visible candidates

  -- A window that is not empty, of calendars that the scope gives, is answered, in the order of the
  -- starts, by exactly the rows that meet it and do not recur and the occurrences of the rows that
  -- recur, each unless it is completed and those are not wanted, or a live child row replaces its
  -- slot and that slot lies in the window.
  pub find_occurrences_in_range-Shown :
      (r : R) (user_id : String) (from to : Instant) (opts : FindOccurrencesOptions)
      (ids : List String)
      → from < to
      → resolve_calendar_scope store r user_id opts.calendar_id ≡ resolved ids
      → (listed : List ListedOccurrence) × (find_occurrences_in_range luxon store r user_id from to
            opts
          ≡ resolved listed)
        × ByStart luxon store listed
        × ((o : ListedOccurrence) → In o listed ↔ Shown luxon store r ids from to opts o)
  unfolding find_occurrences_in_range
  find_occurrences_in_range-Shown r user_id from to opts ids window scope =
      let w : ltb from to ≡ true = ground arith in
      (
        occurrences_of luxon store r from to opts ids,
        rw (w, scope) refl,
        rw (occurrences_of-sorted r from to opts ids)
            (sort_with-Sorted _ (λ x y. starts_by-total x.occurrence_start y.occurrence_start) _),
        occurrences_of-Shown r from to opts ids,
      )
