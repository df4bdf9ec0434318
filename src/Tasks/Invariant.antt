-- ===== src/Tasks/Invariant.antt =====
-- The rows of the task table that the operations of task.service.ts leave: a child of a series
-- never has a rule of its own, and it names the slot that it replaces.
mod Completion
mod Update
mod Override
mod Split
pub mod Reachable
mod Examples
use text.Mathlib.Text.{◌==◌ as str_eq}
use cue_api.Common.{
  ℕ, ◌≡◌, ◌⊎◌, inl, inr, refl, sym, subst, String, Bool, true, false, not, Option, none, some, List,
  [], ◌∷◌, In,
}
use cue_api.Recurrence.Types.{Instant}
use cue_api.Tasks.Types.{TaskRow, ExceptionRow, Outcome, resolved, rejected, ◌>>=◌, ◌>>◌}
use cue_api.Tasks.Exceptions.{OccurrenceOverrideChanges}
use cue_api.Tasks.Store.{TaskDatabase, is_null, checked_row, find_by_id}
use cue_api.Tasks.Laws.{StoreLaws, Holds, Holds-then}

-- A row is a series or an ordinary task, or a child of a series: without a rule, at a slot.
abbrev pub Sound : TaskRow → Type 0
Sound row =
    (row.parent_task_id ≡ none)
    ⊎ ((row.recurrence_config ≡ none) × (is_null row.original_start_at ≡ false))

module _ {R : Type 0} (store : TaskDatabase R) where
  abbrev pub AllSound : R → Type 0
  AllSound r = (row : TaskRow) → In row (store.tasks.rows r) → Sound row

module _ {R : Type 0} (store : TaskDatabase R) (laws : StoreLaws store) where
  open store use {tasks}
  open laws use {task_laws}

  pub save-AllSound :
      (r : R) (row : TaskRow) → AllSound store r → Sound row → AllSound store (tasks.save r row)
  save-AllSound r row inv s x i = elim (task_laws.saved r row x i) [
    | inl (e, live) ↦ subst Sound (sym e) s
    | inr (k, other) ↦ inv x k
  ]

  -- An operation that leaves the table.
  pub same-AllSound :
      (r r' : R) → tasks.rows r' ≡ tasks.rows r → AllSound store r → AllSound store r'
  same-AllSound r r' e inv x i = inv x (subst (In x) e i)

  pub found-Sound :
      (r : R) (p : TaskRow → Bool) (row : TaskRow)
      → AllSound store r
      → tasks.find_one r p ≡ some row
      → Sound row
  found-Sound r p row inv e = inv row (task_laws.found-one r p row e).0

  pub checked_row-Sound :
      (r : R) (user_id : String) (p : TaskRow → Bool) (found : Option TaskRow)
      → AllSound store r
      → tasks.find_one r p ≡ found
      → Holds Sound (checked_row store r user_id found)
  unfolding checked_row
  checked_row-Sound r user_id p none inv e = tt
  checked_row-Sound r user_id p (some row) inv e =
      Holds-then Sound _ (resolved row) (found-Sound r p row inv e)

  -- The row that an operation starts from.
  pub find_by_id-Sound :
      (r : R) (user_id task_id : String)
      → AllSound store r
      → Holds Sound (find_by_id store r user_id task_id)
  unfolding find_by_id
  find_by_id-Sound r user_id task_id inv =
      checked_row-Sound r user_id (λ row. str_eq row.id task_id)
        (tasks.find_one r (λ row. str_eq row.id task_id)) inv refl
