-- ===== src/Tasks/Invariant/Override.antt =====
-- Override.antt: the overrides of one occurrence keep the rows sound.
use text.Mathlib.Text.{◌==◌ as str_eq}
use cue_api.Common.{
  ◌≡◌, inl, inr, refl, String, Bool, false, not, ◌||◌, Option, none, some, List, [], ◌∷◌,
  Bool-cases, get_or,
}
use cue_api.Recurrence.Types.{Instant}
use cue_api.Recurrence.Luxon.{Luxon}
use cue_api.Tasks.Types.{
  TaskRow, ExceptionRow, Outcome, resolved, rejected, bad_request, not_found, conflict, require,
  ◌>>=◌, ◌>>◌,
}
use cue_api.Tasks.Exceptions.{OccurrenceOverrideChanges, find_override, delete_for_slot}
use cue_api.Tasks.Exceptions.Leaves.{delete_for_slot-leaves}
use cue_api.Tasks.Store.{
  TaskDatabase, ReminderInput, is_null, find_by_id, ensure_calendar_owned_by_user,
}
use cue_api.Tasks.Laws.{StoreLaws, Holds, Holds-bind, Holds-then}
use cue_api.Tasks.Rule.{child_at, generates, resolve_effective_config_for_task}
use cue_api.Tasks.Completion.{delete_remove, set_completed}
use cue_api.Tasks.Update.{update}
use cue_api.Tasks.Override.{
  CreateOverrideInput, patch_input, is_override_mutation, absorbed, snapshot, copied_reminders,
  child_for, absorb_exception_into, override_of, create_or_update_override, collapsed_input,
  collapse_override_to_master, apply_occurrence_override,
}
use cue_api.Tasks.Invariant.{
  Sound, AllSound, save-AllSound, same-AllSound, found-Sound, find_by_id-Sound,
}
use cue_api.Tasks.Invariant.Completion.{
  bump-AllSound, touch-AllSound, upsert-AllSound, set_completed-AllSound, remove-AllSound,
}
use cue_api.Tasks.Invariant.Update.{update-AllSound}

module _ (luxon : Luxon) {R : Type 0} (store : TaskDatabase R) (to_iso_string : Instant → String)
    (laws : StoreLaws store) where
  open store use {tasks, exception_store, bump, reminders_of}
  open laws use {task_laws, create_reminders-tasks, delete_exceptions-tasks}

  abbrev Keeps : R × TaskRow → Type 0
  Keeps out = AllSound store out.0

  copied_reminders-AllSound :
      (r : R) (id : String) (xs : List ReminderInput)
      → AllSound store r
      → AllSound store (copied_reminders luxon store to_iso_string r id xs)
  unfolding copied_reminders
  copied_reminders-AllSound r id [] inv = inv
  copied_reminders-AllSound r id (x ∷ xs) inv =
      same-AllSound store laws r _ (create_reminders-tasks r id (x ∷ xs)) inv

  abbrev KeepsChild : R × TaskRow → Type 0
  KeepsChild out = AllSound store out.0 × Sound out.1

  child_for-AllSound :
      (r : R) (parent : TaskRow) (slot : Instant)
      → AllSound store r
      → Holds KeepsChild (child_for luxon store to_iso_string r parent slot)
  unfolding child_for snapshot
  child_for-AllSound r parent slot inv = go (tasks.find_one r (child_at parent.id slot)) refl
    where
      child : TaskRow
      child = snapshot luxon store to_iso_string r parent slot

      made : Outcome (R × TaskRow)
      made = resolved (
        copied_reminders luxon store to_iso_string (tasks.save r child) child.id
            (reminders_of (tasks.save r child) parent.id),
        child,
      )

      there : Bool
      there =
          generates luxon store r parent (resolve_effective_config_for_task luxon store r parent)
            slot

      go :
          (found : Option TaskRow)
          → tasks.find_one r (child_at parent.id slot) ≡ found
          → Holds KeepsChild
              (elim found [ some c ↦ resolved (r, c) | none ↦ require there bad_request >> made ])
      go none e = Holds-then KeepsChild (require there bad_request) made (
        copied_reminders-AllSound _ child.id _
            (save-AllSound store laws r child inv (inr (refl, refl))),
        inr (refl, refl),
      )
      go (some c) e = (inv, found-Sound store laws r (child_at parent.id slot) c inv e)

  absorb-AllSound :
      (r : R) (child parent : TaskRow) (slot : Instant)
      → AllSound store r
      → Sound child
      → AllSound store (absorb_exception_into luxon store to_iso_string r child parent slot)
  unfolding absorb_exception_into absorbed
  absorb-AllSound r child parent slot inv s = go (find_override exception_store r parent.id slot)
    where
      go :
          (found : Option ExceptionRow)
          → AllSound store (elim found [
            | none ↦ r
            | some e ↦
                delete_for_slot exception_store
                  (tasks.save r (absorbed child parent e))
                  parent.id
                  slot
          ])
      go none = inv
      go (some e) =
          same-AllSound store laws (tasks.save r (absorbed child parent e)) _
            (delete_for_slot-leaves exception_store (λ t. tasks.rows t) delete_exceptions-tasks
              (tasks.save r (absorbed child parent e)) parent.id slot)
            (save-AllSound store laws r (absorbed child parent e) inv s)

  override_of-AllSound :
      (r : R) (user_id : String) (parent : TaskRow) (slot : Instant) (patch : CreateOverrideInput)
      → AllSound store r
      → Holds Keeps (override_of luxon store to_iso_string r user_id parent slot patch)
  unfolding override_of
  override_of-AllSound r user_id parent slot patch inv =
      Holds-bind KeepsChild Keeps (child_for luxon store to_iso_string r parent slot) _
        (child_for-AllSound r parent slot inv)
        (λ (r', child) (kept, s).
          Holds-bind Keeps Keeps (changed r' child) _
            (update-AllSound luxon store laws _ user_id child.id (patch_input patch)
              (touch-AllSound store laws _ parent.id (absorb-AllSound r' child parent slot kept s)))
            (λ out h. bump-AllSound store laws out.0 user_id h))
    where
      changed : R → TaskRow → Outcome (R × TaskRow)
      changed r' child =
          update luxon store
            (exception_store.touch_updated_at
              (absorb_exception_into luxon store to_iso_string r' child parent slot) parent.id)
            user_id child.id (patch_input patch)

  pub create_or_update_override-AllSound :
      (r : R) (user_id parent_id : String) (slot : Instant) (patch : CreateOverrideInput)
      → AllSound store r
      → Holds Keeps
          (create_or_update_override luxon store to_iso_string r user_id parent_id slot patch)
  unfolding create_or_update_override
  create_or_update_override-AllSound r user_id parent_id slot patch inv =
      go (tasks.find_one r (λ row. str_eq row.id parent_id))
    where
      go :
          (found : Option TaskRow)
          → Holds Keeps (elim found [
            | none ↦ rejected not_found
            | some parent ↦
                ensure_calendar_owned_by_user store r parent.calendar_id user_id
                >> require (is_null parent.parent_task_id) bad_request
                >> override_of luxon store to_iso_string r user_id parent slot patch
          ])
      go none = tt
      go (some parent) =
          Holds-then Keeps (ensure_calendar_owned_by_user store r parent.calendar_id user_id) _ (
            Holds-then Keeps (require (is_null parent.parent_task_id) bad_request)
              (override_of luxon store to_iso_string r user_id parent slot patch)
              (override_of-AllSound r user_id parent slot patch inv))

  collapse-AllSound :
      (r : R) (user_id id : String) (changes : OccurrenceOverrideChanges)
      → AllSound store r
      → Holds
          (AllSound store)
          (collapse_override_to_master luxon store to_iso_string r user_id id changes)
  unfolding collapse_override_to_master
  collapse-AllSound r user_id id changes inv = elim (Bool-cases (get_or changes.is_skipped false)) [
    | inl e ↦ rw e (remove-AllSound store laws r user_id id delete_remove inv)
    | inr e ↦ rw e (
        Holds-bind Keeps (AllSound store)
          (update luxon store r user_id id (collapsed_input luxon store to_iso_string changes)) _
          (update-AllSound luxon store laws r user_id id
            (collapsed_input luxon store to_iso_string changes) inv)
          (λ (r', row) h. completion r' h changes.completed_at))
  ]
    where
      completion :
          (r' : R)
          → AllSound store r'
          → (at : Option (Option Instant))
          → Holds (AllSound store) (elim at [
            | none ↦ resolved r'
            | some a ↦
                set_completed store r' user_id id (not (is_null a)) >>= λ (r'', done). resolved r''
          ])
      completion r' h none = h
      completion r' h (some a) =
          Holds-bind Keeps (AllSound store) (set_completed store r' user_id id (not (is_null a))) _
            (set_completed-AllSound store laws r' user_id id (not (is_null a)) h)
            (λ (r'', done) k. k)

  pub apply_occurrence_override-AllSound :
      (r : R) (user_id id : String) (slot : Instant) (changes : OccurrenceOverrideChanges)
      → AllSound store r
      → Holds
          (AllSound store)
          (apply_occurrence_override luxon store to_iso_string r user_id id slot changes)
  unfolding apply_occurrence_override
  apply_occurrence_override-AllSound r user_id id slot changes inv =
      Holds-bind Sound (AllSound store) (find_by_id store r user_id id) _
        (find_by_id-Sound store laws r user_id id inv)
        (λ task s. elim (Bool-cases (is_null task.recurrence_config)) [
          | inl e ↦ rw e (collapse-AllSound r user_id id changes inv)
          | inr e ↦ rw e (
              Holds-then (AllSound store)
                (require (is_null (tasks.find_one r (child_at id slot))) conflict) _
                (Holds-then (AllSound store)
                  (require
                    (not (is_override_mutation changes)
                      || generates luxon store r task task.recurrence_config slot)
                    bad_request)
                  (resolved _)
                  (bump-AllSound store laws _ user_id
                    (upsert-AllSound store laws r id slot changes inv))))
        ])
