-- ===== src/Tasks/Exceptions.antt =====
-- modules/task-occurrence-exception/task-occurrence-exception.service.ts: the exceptions of a series,
-- keyed by task and slot. A field of a change is none where the caller leaves it out (`undefined`),
-- and `some none` where it is null. The id of a new row is an argument.
pub mod Upsert
pub mod Leaves
mod Examples
use text.Mathlib.Text.{◌==◌ as str_eq}
use cue_api.Common.{
  ℕ, ltb, ◌==◌, String, Bool, true, false, not, ◌&&◌, ◌||◌, Option, none, some, List, [], ◌∷◌,
  if◌then◌else◌, get_or, any_of,
}
use cue_api.Recurrence.Types.{Instant}
use cue_api.Tasks.Types.{ExceptionRow}
use cue_api.Tasks.Database.{Table}

pub record OccurrenceOverrideChanges : Type 0 where
  pub override_start_at : Option (Option Instant)
  pub override_end_at : Option (Option Instant)
  pub override_title : Option (Option String)
  pub is_skipped : Option Bool
  pub completed_at : Option (Option Instant)

pub dates_equal : Option Instant → Option Instant → Bool
dates_equal none none = true
dates_equal none (some b) = false
dates_equal (some a) none = false
dates_equal (some a) (some b) = a == b

-- `===` on nullable texts and on Booleans.
pub texts_equal : Option String → Option String → Bool
texts_equal none none = true
texts_equal none (some b) = false
texts_equal (some a) none = false
texts_equal (some a) (some b) = str_eq a b

pub bools_equal : Bool → Bool → Bool
bools_equal true b = b
bools_equal false b = not b

-- Whether a field is given and differs.
pub differs {ℓ} : {A : Type ℓ} → (A → A → Bool) → Option A → A → Bool
differs equal none old = false
differs equal (some new) old = not (equal new old)

-- The field after the change: a value that equals the old one is not assigned.
pub assigned {ℓ} : {A : Type ℓ} → (A → A → Bool) → Option A → A → A
assigned equal none old = old
assigned equal (some new) old = if equal new old then old else new

-- The row that `applyChanges` leaves, and whether a field changed.
apply_changes : ExceptionRow → OccurrenceOverrideChanges → ExceptionRow × Bool
apply_changes e c = (
  record e {
    override_start_at = assigned dates_equal c.override_start_at e.override_start_at;
    override_end_at = assigned dates_equal c.override_end_at e.override_end_at;
    override_title = assigned texts_equal c.override_title e.override_title;
    is_skipped = assigned bools_equal c.is_skipped e.is_skipped;
    completed_at = assigned dates_equal c.completed_at e.completed_at;
  },
  differs dates_equal c.override_start_at e.override_start_at
      || differs dates_equal c.override_end_at e.override_end_at
      || differs texts_equal c.override_title e.override_title
      || differs bools_equal c.is_skipped e.is_skipped
      || differs dates_equal c.completed_at e.completed_at,
)

-- The row that the creation saves.
new_exception : String → String → Instant → OccurrenceOverrideChanges → ExceptionRow
new_exception id task_id original_start c = record {
  id = id;
  task_id = task_id;
  original_start_at = original_start;
  is_skipped = get_or c.is_skipped false;
  override_start_at = get_or c.override_start_at none;
  override_end_at = get_or c.override_end_at none;
  override_title = get_or c.override_title none;
  completed_at = get_or c.completed_at none;
}

-- `{ taskId, originalStartAt }`
abbrev pub at_slot : String → Instant → ExceptionRow → Bool
at_slot task_id original_start e = str_eq e.task_id task_id && e.original_start_at == original_start

-- The table, and `touchUpdatedAt` of the tasks.
pub record ExceptionStore (R : Type 0) : Type 0 where
  pub exceptions : Table R ExceptionRow
  pub touch_updated_at : R → String → R
  -- `updatedAt` of a row, which the database keeps.
  pub updated_at : R → ExceptionRow → Instant

module _ {R : Type 0} (store : ExceptionStore R) where
  open store use {exceptions, touch_updated_at, updated_at}

  unfoldable pub find_for_task : R → String → List ExceptionRow
  find_for_task r task_id = exceptions.find_all r (λ e. str_eq e.task_id task_id)

  pub find_changed_for_tasks : R → List String → Instant → List ExceptionRow
  find_changed_for_tasks r [] since = []
  find_changed_for_tasks r (id ∷ ids) since =
      exceptions.find_all r
        (λ e. any_of (str_eq e.task_id) (id ∷ ids) && ltb since (updated_at r e))

  pub find_override : R → String → Instant → Option ExceptionRow
  find_override r task_id original_start = exceptions.find_one r (at_slot task_id original_start)

  pub delete_for_slot : R → String → Instant → R
  delete_for_slot r task_id original_start = exceptions.delete r (at_slot task_id original_start)

  -- The row that is there is changed, and saved if that changed a field.
  update_existing : R → String → ExceptionRow × Bool → R × ExceptionRow
  update_existing r task_id (row, mutated) =
      if mutated then (touch_updated_at (exceptions.save r row) task_id, row) else (r, row)

  pub upsert_into :
      R
      → String
      → String
      → Instant
      → OccurrenceOverrideChanges
      → Option ExceptionRow
      → R × ExceptionRow
  upsert_into r new_id task_id original_start changes none =
      let row = new_exception new_id task_id original_start changes in
      (touch_updated_at (exceptions.save r row) task_id, row)
  upsert_into r new_id task_id original_start changes (some existing) =
      update_existing r task_id (apply_changes existing changes)

  pub upsert_override : R → String → String → Instant → OccurrenceOverrideChanges → R × ExceptionRow
  upsert_override r new_id task_id original_start changes =
      upsert_into r new_id task_id original_start changes
        (exceptions.find_one r (at_slot task_id original_start))
