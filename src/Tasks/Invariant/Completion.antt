-- ===== src/Tasks/Invariant/Completion.antt =====
-- Rule.antt and Completion.antt: the sweep, the completions and the deletions keep the rows sound.
use cue_api.Common.{
  inl, inr, String, Bool, true, false, not, ◌&&◌, Option, none, some, List, [], ◌∷◌, All, All-of_In,
  Bool-cases,
}
use cue_api.Recurrence.Types.{Instant, RecurrenceConfig}
use cue_api.Recurrence.Luxon.{Luxon}
use cue_api.Tasks.Types.{TaskRow, resolved, ◌>>=◌}
use cue_api.Tasks.Exceptions.{OccurrenceOverrideChanges}
use cue_api.Tasks.Exceptions.Leaves.{upsert_override-leaves}
use cue_api.Tasks.Store.{TaskDatabase, is_null, find_by_id}
use cue_api.Tasks.Laws.{StoreLaws, Holds, Holds-bind}
use cue_api.Tasks.Rule.{
  child_of, child_at, generates, sweep_slot, sweep_child, sweep_children, sweep_override_children,
}
use cue_api.Tasks.Completion.{
  TaskDeleteMode, completion_change, delete_remove, delete_revert, upsert, saved_and_bumped,
  completed, set_completed, completion_of, complete_slot, set_occurrence_completed, deleted_now,
  delete_children, settle_slot, remove_row, remove,
}
use cue_api.Tasks.Invariant.{Sound, AllSound, save-AllSound, same-AllSound, find_by_id-Sound}

module _ {R : Type 0} (store : TaskDatabase R) (laws : StoreLaws store) where
  open store use {tasks, exception_store, bump}
  open laws use {task_laws, bump-tasks, touch-tasks, save_exception-tasks}

  pub bump-AllSound :
      (r : R) (user_id : String) → AllSound store r → AllSound store (bump r user_id)
  bump-AllSound r user_id = same-AllSound store laws r (bump r user_id) (bump-tasks r user_id)

  pub touch-AllSound :
      (r : R) (id : String)
      → AllSound store r
      → AllSound store (exception_store.touch_updated_at r id)
  touch-AllSound r id =
      same-AllSound store laws r (exception_store.touch_updated_at r id) (touch-tasks r id)

  pub upsert-AllSound :
      (r : R) (id : String) (slot : Instant) (c : OccurrenceOverrideChanges)
      → AllSound store r
      → AllSound store (upsert store r id slot c).0
  unfolding upsert
  upsert-AllSound r id slot c = same-AllSound store laws r _ (
      upsert_override-leaves exception_store (λ s. tasks.rows s) save_exception-tasks touch-tasks r
        (store.new_exception_id r) id slot c)

  pub found-All : (r : R) (p : TaskRow → Bool) → AllSound store r → All Sound (tasks.find_all r p)
  found-All r p inv =
      All-of_In Sound (tasks.find_all r p) (λ row i. inv row ((task_laws.found r p row).0 i).0)

  module _ (luxon : Luxon) where
    sweep_slot-AllSound :
        (r : R) (child : TaskRow) (generated : Bool)
        → AllSound store r
        → Sound child
        → AllSound store (sweep_slot luxon store r child generated)
    unfolding sweep_slot
    sweep_slot-AllSound r child generated inv s =
        elim (Bool-cases (not generated && is_null child.detached_at)) [
          | inl e ↦
              rw e (
                save-AllSound store laws r (record child { detached_at = some (store.now r) }) inv
                  s)
          | inr e ↦ elim (Bool-cases (generated && not (is_null child.detached_at))) [
            | inl k ↦
                rw (e, k) (save-AllSound store laws r (record child { detached_at = none }) inv s)
            | inr k ↦ rw (e, k) inv
          ]
        ]

    sweep_child-AllSound :
        (r : R) (parent : TaskRow) (config : Option RecurrenceConfig) (child : TaskRow)
        → AllSound store r
        → Sound child
        → AllSound store (sweep_child luxon store r parent config child)
    unfolding sweep_child
    sweep_child-AllSound r parent config child inv s = go child.original_start_at
      where
        go :
            (start : Option Instant)
            → AllSound store (elim start [
              | none ↦ r
              | some slot ↦
                  sweep_slot luxon store r child (generates luxon store r parent config slot)
            ])
        go none = inv
        go (some slot) = sweep_slot-AllSound r child _ inv s

    sweep_children-AllSound :
        (r : R) (parent : TaskRow) (config : Option RecurrenceConfig) (children : List TaskRow)
        → AllSound store r
        → All Sound children
        → AllSound store (sweep_children luxon store r parent config children)
    unfolding sweep_children
    sweep_children-AllSound r parent config [] inv s = inv
    sweep_children-AllSound r parent config (child ∷ children) inv (s, more) =
        sweep_children-AllSound (sweep_child luxon store r parent config child) parent config
          children (sweep_child-AllSound r parent config child inv s) more

    pub sweep-AllSound :
        (r : R) (parent : TaskRow) (config : Option RecurrenceConfig)
        → AllSound store r
        → AllSound store (sweep_override_children luxon store r parent config)
    unfolding sweep_override_children
    sweep-AllSound r parent config inv =
        sweep_children-AllSound r parent config (tasks.find_all r (child_of parent.id)) inv
          (found-All r (child_of parent.id) inv)

  saved_and_bumped-AllSound :
      (r : R) (user_id : String) (row : TaskRow)
      → AllSound store r
      → Sound row
      → AllSound store (saved_and_bumped store r user_id row).0
  unfolding saved_and_bumped
  saved_and_bumped-AllSound r user_id row inv s =
      bump-AllSound (tasks.save r row) user_id (save-AllSound store laws r row inv s)

  completed-AllSound :
      (r : R) (user_id : String) (task : TaskRow) (is_completed : Bool)
      → AllSound store r
      → Sound task
      → AllSound store (completed store r user_id task is_completed).0
  unfolding completed
  completed-AllSound r user_id task true inv s =
      elim task.completed_at
        as (λ at.
          AllSound store
            (elim at as (λ x. R × TaskRow) [
              | some t ↦ (r, task)
              | none ↦
                  saved_and_bumped store r user_id
                    (record task { completed_at = some (store.now r) })
            ]).0) [
              | some t ↦ inv
              | none ↦
                  saved_and_bumped-AllSound r user_id
                    (record task { completed_at = some (store.now r) }) inv s
            ]
  completed-AllSound r user_id task false inv s =
      elim task.completed_at
        as (λ at.
          AllSound store
            (elim at as (λ x. R × TaskRow) [
              | none ↦ (r, task)
              | some t ↦ saved_and_bumped store r user_id (record task { completed_at = none })
            ]).0) [
              | none ↦ inv
              | some t ↦
                  saved_and_bumped-AllSound r user_id (record task { completed_at = none }) inv s
            ]

  pub set_completed-AllSound :
      (r : R) (user_id id : String) (is_completed : Bool)
      → AllSound store r
      → Holds (λ out. AllSound store out.0) (set_completed store r user_id id is_completed)
  unfolding set_completed
  set_completed-AllSound r user_id id is_completed inv =
      Holds-bind Sound (λ out. AllSound store out.0) (find_by_id store r user_id id) _
        (find_by_id-Sound store laws r user_id id inv)
        (λ task s. completed-AllSound r user_id task is_completed inv s)

  complete_slot-AllSound :
      (r : R) (user_id id : String) (slot : Instant) (is_completed : Bool)
      → AllSound store r
      → AllSound store (complete_slot store r user_id id slot is_completed).0
  unfolding complete_slot
  complete_slot-AllSound r user_id id slot is_completed inv =
      bump-AllSound _ user_id (upsert-AllSound r id slot _ inv)

  pub set_occurrence_completed-AllSound :
      (r : R) (user_id id : String) (slot : Instant) (is_completed : Bool)
      → AllSound store r
      → Holds
          (λ out. AllSound store out.0)
          (set_occurrence_completed store r user_id id slot is_completed)
  unfolding set_occurrence_completed completion_of
  set_occurrence_completed-AllSound r user_id id slot is_completed inv =
      Holds-bind Sound (λ out. AllSound store out.0) (find_by_id store r user_id id) _
        (find_by_id-Sound store laws r user_id id inv)
        (λ task s. go task.recurrence_config (tasks.find_one r (child_at id slot)))
    where
      whole :
          (scoped : Bool) (which : String)
          → Holds
              (λ out. AllSound store out.0)
              (set_completed store r user_id which is_completed >>= λ done.
                resolved (completion_of store scoped done))
      whole scoped which =
          Holds-bind (λ out. AllSound store out.0) (λ out. AllSound store out.0)
            (set_completed store r user_id which is_completed) _
            (set_completed-AllSound r user_id which is_completed inv) (λ done h. h)

      go :
          (rule : Option RecurrenceConfig) (child : Option TaskRow)
          → Holds
              (λ out. AllSound store out.0)
              (elim rule [
                | none ↦ set_completed store r user_id id is_completed >>= λ done.
                    resolved (completion_of store false done)
                | some config ↦ elim child [
                  | some c ↦ set_completed store r user_id c.id is_completed >>= λ done.
                      resolved (completion_of store true done)
                  | none ↦ resolved (complete_slot store r user_id id slot is_completed)
                ]
              ])
      go none child = whole false id
      go (some config) (some c) = whole true c.id
      go (some config) none = complete_slot-AllSound r user_id id slot is_completed inv

  delete_children-AllSound :
      (r : R) (children : List TaskRow)
      → AllSound store r
      → All Sound children
      → AllSound store (delete_children store r children)
  unfolding delete_children
  delete_children-AllSound r [] inv s = inv
  delete_children-AllSound r (child ∷ children) inv (s, more) =
      delete_children-AllSound (tasks.save r (deleted_now store r child)) children
        (save-AllSound store laws r (deleted_now store r child) inv s) more

  settle_slot-AllSound :
      (r : R) (task : TaskRow) (mode : TaskDeleteMode) (parent : String) (slot : Instant)
      → AllSound store r
      → AllSound store (settle_slot store r task mode parent slot)
  unfolding settle_slot
  settle_slot-AllSound r task delete_remove parent slot inv = upsert-AllSound r parent slot _ inv
  settle_slot-AllSound r task delete_revert parent slot inv = go task.completed_at
    where
      go :
          (at : Option Instant)
          → AllSound store (elim at [
            | none ↦ exception_store.touch_updated_at r parent
            | some t ↦ (upsert store r parent slot (completion_change (some t))).0
          ])
      go none = touch-AllSound r parent inv
      go (some t) = upsert-AllSound r parent slot _ inv

  remove_row-AllSound :
      (r : R) (user_id : String) (task : TaskRow) (mode : TaskDeleteMode) (parent : Option String)
      (slot : Option Instant)
      → AllSound store r
      → Sound task
      → AllSound store (remove_row store r user_id task mode parent slot)
  unfolding remove_row
  remove_row-AllSound r user_id task mode (some parent) (some slot) inv s =
      bump-AllSound _ user_id (
        settle_slot-AllSound _ task mode parent slot
          (save-AllSound store laws r (deleted_now store r task) inv s))
  remove_row-AllSound r user_id task mode none slot inv s = whole
    where
      gone : AllSound store (tasks.save r (deleted_now store r task))
      gone = save-AllSound store laws r (deleted_now store r task) inv s

      whole : AllSound store (remove_row store r user_id task mode none slot)
      whole =
          bump-AllSound _ user_id
            (delete_children-AllSound _ _ gone (found-All _ (child_of task.id) gone))
  remove_row-AllSound r user_id task mode (some parent) none inv s = whole
    where
      gone : AllSound store (tasks.save r (deleted_now store r task))
      gone = save-AllSound store laws r (deleted_now store r task) inv s

      whole : AllSound store (remove_row store r user_id task mode (some parent) none)
      whole =
          bump-AllSound _ user_id
            (delete_children-AllSound _ _ gone (found-All _ (child_of task.id) gone))

  pub remove-AllSound :
      (r : R) (user_id id : String) (mode : TaskDeleteMode)
      → AllSound store r
      → Holds (AllSound store) (remove store r user_id id mode)
  unfolding remove
  remove-AllSound r user_id id mode inv =
      Holds-bind Sound (AllSound store) (find_by_id store r user_id id) _
        (find_by_id-Sound store laws r user_id id inv)
        (λ task s.
          remove_row-AllSound r user_id task mode task.parent_task_id task.original_start_at inv s)
