-- ===== src/Tasks/Completion/Deletion.antt =====
-- What remove of task.service.ts leaves.
use mathlib.Core.Bool.{true≢false}
use cue_api.Common.{
  ◌≡◌, ◌≢◌, ◌↔◌, inl, inr, refl, sym, ap, ◌∙◌, String, true, false, Option, none, some, List, [],
  ◌∷◌, Bool-cases, In, All, All-In, All-of_In,
}
use cue_api.Recurrence.Types.{Instant}
use cue_api.Tasks.Types.{TaskRow, ExceptionRow, resolved}
use cue_api.Tasks.Exceptions.{at_slot}
use cue_api.Tasks.Exceptions.Upsert.{upserted, upserted-slot, upsert_override-Puts}
use cue_api.Tasks.Exceptions.Leaves.{upsert_override-leaves}
use cue_api.Tasks.Store.{TaskDatabase, find_by_id}
use cue_api.Tasks.Laws.{StoreLaws}
use cue_api.Tasks.Rule.{child_of}
use cue_api.Tasks.Completion.{
  TaskDeleteMode, delete_remove, skip_change, upsert, deleted_now, delete_children, settle_slot,
  remove_row, remove,
}

module _ {R : Type 0} (store : TaskDatabase R) (laws : StoreLaws store) where
  open store use {tasks, exception_store, bump}
  open laws use {
    task_laws, exception_laws, bump-tasks, bump-exceptions, touch-tasks, touch-exceptions,
    save_exception-tasks,
  }

  -- A deleted row is gone, and the others stay.
  deleted_now-rows :
      (r : R) (row z : TaskRow)
      → In z (tasks.rows (tasks.save r (deleted_now store r row)))
        ↔ (In z (tasks.rows r) × (z.id ≢ row.id))
  deleted_now-rows r row z = (
    λ i. elim (task_laws.saved r (deleted_now store r row) z i) [
      | inl (e, live) ↦ absurd (true≢false (sym live))
      | inr k ↦ k
    ],
    λ (i, n). task_laws.saved-others r (deleted_now store r row) z i n,
  )

  delete_children-rows :
      (r : R) (children : List TaskRow) (z : TaskRow)
      → In z (tasks.rows (delete_children store r children))
        ↔ (In z (tasks.rows r) × All (λ x. z.id ≢ x.id) children)
  unfolding delete_children
  delete_children-rows r [] z = (λ i. (i, tt), λ (i, t). i)
  delete_children-rows r (x ∷ xs) z =
      let (there, here) = delete_children-rows (tasks.save r (deleted_now store r x)) xs z in
      (
        λ i.
            let (k, others) = there i in
            let (k', n) = (deleted_now-rows r x z).0 k in (k', (n, others)),
        λ (i, (n, others)). here ((deleted_now-rows r x z).1 (i, n), others),
      )

  cascade-rows :
      (r : R) (id : String) (z : TaskRow)
      → In z (tasks.rows (delete_children store r (tasks.find_all r (child_of id))))
        ↔ (In z (tasks.rows r) × (child_of id z ≡ false))
  cascade-rows r id z =
      let (there, here) = delete_children-rows r (tasks.find_all r (child_of id)) z in
      (
        λ i.
            let (k, others) = there i in
            (
              k,
              elim (Bool-cases (child_of id z)) [
                | inl t ↦ absurd (
                    All-In (λ x. z.id ≢ x.id) (tasks.find_all r (child_of id)) z others
                      ((task_laws.found r (child_of id) z).1 (k, t)) refl)
                | inr f ↦ f
              ],
            ),
        λ (i, f). here (
          i,
          All-of_In _ (tasks.find_all r (child_of id)) (λ x k same.
              let (there_x, child) = (task_laws.found r (child_of id) x).0 k in
              true≢false
                (sym child ∙ ap (child_of id) (sym (task_laws.keyed r z x i there_x same)) ∙ f)),
        ),
      )

  -- The deletion of a task of the user that is no child leaves exactly the rows that are neither
  -- that task nor a child of it.
  pub remove-cascades :
      (r : R) (user_id id : String) (mode : TaskDeleteMode) (task : TaskRow)
      → find_by_id store r user_id id ≡ resolved task
      → task.parent_task_id ≡ none
      → (r' : R) × (remove store r user_id id mode ≡ resolved r')
        × ((z : TaskRow)
            → In z (tasks.rows r')
              ↔ (In z (tasks.rows r) × (z.id ≢ task.id) × (child_of task.id z ≡ false)))
  unfolding remove remove_row
  remove-cascades r user_id id mode task found ordinary = (
    remove_row store r user_id task mode none task.original_start_at,
    rw (found, ordinary) refl,
    λ z.
        rw
          (bump-tasks (delete_children store gone (tasks.find_all gone (child_of task.id))) user_id)
          (
            λ i.
                let (k, f) = (cascade-rows gone task.id z).0 i in
                let (k', n) = (deleted_now-rows r task z).0 k in (k', n, f),
            λ (i, n, f). (cascade-rows gone task.id z).1 ((deleted_now-rows r task z).1 (i, n), f),
          ),
  )
    where
      gone : R
      gone = tasks.save r (deleted_now store r task)

  -- The deletion of a child, by default, takes its row alone and leaves a skip in its slot.
  pub remove-skips :
      (r : R) (user_id id : String) (task : TaskRow) (parent : String) (slot : Instant)
      → find_by_id store r user_id id ≡ resolved task
      → task.parent_task_id ≡ some parent
      → task.original_start_at ≡ some slot
      → (r' : R) × (remove store r user_id id delete_remove ≡ resolved r')
        × ((z : TaskRow) → In z (tasks.rows r') ↔ (In z (tasks.rows r) × (z.id ≢ task.id)))
        × ((e : ExceptionRow) × In e (exception_store.exceptions.rows r')
            × (e.task_id ≡ parent)
            × (e.original_start_at ≡ slot)
            × (e.is_skipped ≡ true))
  unfolding remove remove_row settle_slot upsert
  remove-skips r user_id id task parent slot found child at = (
    remove_row store r user_id task delete_remove (some parent) (some slot),
    rw (found, child, at) refl,
    λ z.
        rw
          (
            bump-tasks skipped user_id,
            upsert_override-leaves exception_store (λ s. tasks.rows s) save_exception-tasks
                touch-tasks gone (store.new_exception_id gone) parent slot skip_change,
          )
          (deleted_now-rows r task z),
    (
      row,
      rw (bump-exceptions skipped user_id)
          (upsert_override-Puts exception_store exception_laws touch-exceptions gone
            (store.new_exception_id gone) parent slot skip_change).1,
      in_slot.0,
      in_slot.1,
      skips (exception_store.exceptions.find_one gone (at_slot parent slot)),
    ),
  )
    where
      gone : R
      gone = tasks.save r (deleted_now store r task)

      skipped : R
      skipped = (upsert store gone parent slot skip_change).0

      row : ExceptionRow
      row =
          upserted (store.new_exception_id gone) parent slot skip_change
            (exception_store.exceptions.find_one gone (at_slot parent slot))

      in_slot : (row.task_id ≡ parent) × (row.original_start_at ≡ slot)
      in_slot =
          upserted-slot exception_store exception_laws touch-exceptions gone
            (store.new_exception_id gone) parent slot skip_change

      skips :
          (o : Option ExceptionRow)
          → (upserted (store.new_exception_id gone) parent slot skip_change o).is_skipped ≡ true
      skips none = refl
      skips (some e) = refl
