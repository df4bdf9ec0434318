-- ===== src/Tasks/Completion.antt =====
-- modules/task/task.service.ts: setCompleted, setOccurrenceCompleted and remove.
pub mod Deletion
mod Examples
use cue_api.Common.{String, Bool, true, false, Option, none, some, List, [], ◌∷◌, if◌then◌else◌}
use cue_api.Recurrence.Types.{Instant}
use cue_api.Tasks.Types.{TaskRow, ExceptionRow, Outcome, resolved, rejected, ◌>>=◌, ◌>>◌}
use cue_api.Tasks.Exceptions.{OccurrenceOverrideChanges, upsert_override}
use cue_api.Tasks.Store.{TaskDatabase, find_by_id}
use cue_api.Tasks.Rule.{child_of, child_at}

pub record OccurrenceCompletionResult : Type 0 where
  pub completed_at : Option Instant
  pub is_occurrence_scoped : Bool

pub data TaskDeleteMode : Type 0 where
  delete_remove delete_revert : TaskDeleteMode

-- The change that sets the completion alone, and the one that skips.
abbrev pub completion_change : Option Instant → OccurrenceOverrideChanges
completion_change at = record {
  override_start_at = none;
  override_end_at = none;
  override_title = none;
  is_skipped = none;
  completed_at = some at;
}

abbrev pub skip_change : OccurrenceOverrideChanges
skip_change = record {
  override_start_at = none;
  override_end_at = none;
  override_title = none;
  is_skipped = some true;
  completed_at = none;
}

module _ {R : Type 0} (store : TaskDatabase R) where
  open store use {tasks, exception_store, now, bump, new_exception_id}

  -- `upsertOverride`, with the id that the database gives to a new row.
  unfoldable pub upsert : R → String → Instant → OccurrenceOverrideChanges → R × ExceptionRow
  upsert r task_id slot changes =
      upsert_override exception_store r (new_exception_id r) task_id slot changes

  unfoldable pub saved_and_bumped : R → String → TaskRow → R × TaskRow
  saved_and_bumped r user_id row = (bump (tasks.save r row) user_id, row)

  unfoldable pub completed : R → String → TaskRow → Bool → R × TaskRow
  completed r user_id task true = elim task.completed_at [
    | some at ↦ (r, task)
    | none ↦ saved_and_bumped r user_id (record task { completed_at = some (now r) })
  ]
  completed r user_id task false = elim task.completed_at [
    | none ↦ (r, task)
    | some at ↦ saved_and_bumped r user_id (record task { completed_at = none })
  ]

  unfoldable pub set_completed : R → String → String → Bool → Outcome (R × TaskRow)
  set_completed r user_id id is_completed = do
    task ← find_by_id store r user_id id
    resolved (completed r user_id task is_completed)

  -- A completion of a row, as the answer.
  unfoldable pub completion_of : Bool → R × TaskRow → R × OccurrenceCompletionResult
  completion_of scoped (r, row) =
      (r, record { completed_at = row.completed_at; is_occurrence_scoped = scoped })

  unfoldable pub complete_slot :
      R → String → String → Instant → Bool → R × OccurrenceCompletionResult
  complete_slot r user_id task_id slot is_completed =
      let (r', exception) =
        upsert r task_id slot (completion_change (if is_completed then some (now r) else none)) in
      (
        bump r' user_id,
        record { completed_at = exception.completed_at; is_occurrence_scoped = true },
      )

  unfoldable pub set_occurrence_completed :
      R → String → String → Instant → Bool → Outcome (R × OccurrenceCompletionResult)
  set_occurrence_completed r user_id task_id slot is_completed =
      find_by_id store r user_id task_id >>= λ task. elim task.recurrence_config [
        | none ↦ set_completed r user_id task_id is_completed >>= λ done.
            resolved (completion_of false done)
        | some config ↦ elim (tasks.find_one r (child_at task_id slot)) [
          | some child ↦ set_completed r user_id child.id is_completed >>= λ done.
              resolved (completion_of true done)
          | none ↦ resolved (complete_slot r user_id task_id slot is_completed)
        ]
      ]

  abbrev pub deleted_now : R → TaskRow → TaskRow
  deleted_now r row = record row { deleted_at = some (now r) }

  unfoldable pub delete_children : R → List TaskRow → R
  delete_children r [] = r
  delete_children r (child ∷ children) =
      delete_children (tasks.save r (deleted_now r child)) children

  -- What becomes of the slot of a child that is deleted.
  unfoldable pub settle_slot : R → TaskRow → TaskDeleteMode → String → Instant → R
  settle_slot r task delete_remove parent slot = (upsert r parent slot skip_change).0
  settle_slot r task delete_revert parent slot = elim task.completed_at [
    | none ↦ exception_store.touch_updated_at r parent
    | some at ↦ (upsert r parent slot (completion_change (some at))).0
  ]

  unfoldable pub remove_row :
      R → String → TaskRow → TaskDeleteMode → Option String → Option Instant → R
  remove_row r user_id task mode (some parent) (some slot) =
      bump (settle_slot (tasks.save r (deleted_now r task)) task mode parent slot) user_id
  remove_row r user_id task mode parent slot =
      let r' = tasks.save r (deleted_now r task) in
      bump (delete_children r' (tasks.find_all r' (child_of task.id))) user_id

  unfoldable pub remove : R → String → String → TaskDeleteMode → Outcome R
  remove r user_id task_id mode = do
    task ← find_by_id store r user_id task_id
    resolved (remove_row r user_id task mode task.parent_task_id task.original_start_at)
