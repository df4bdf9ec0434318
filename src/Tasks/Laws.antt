-- ===== src/Tasks/Laws.antt =====
-- What the operations of the task service rely on: the laws of its tables, that a write to one table
-- leaves the others, and what holds of a result where there is one.
use cue_api.Common.{◌≡◌, refl, subst, String, Bool, true, false, List}
use cue_api.Tasks.Types.{
  TaskRow, GroupRow, ExceptionRow, Outcome, resolved, rejected, HttpError, require, ◌>>=◌, ◌>>◌,
}
use cue_api.Tasks.Database.{TableLaws}
use cue_api.Tasks.Store.{TaskDatabase, TaskLaws, ReminderInput}

module _ {R : Type 0} (store : TaskDatabase R) where
  open store use {tasks, groups, exception_store, bump, create_reminders, replace_reminders}

  pub record StoreLaws : Type 0 where
    pub task_laws : TaskLaws store
    pub exception_laws : TableLaws exception_store.exceptions (λ row. row.id) (λ row. true)
    pub bump-tasks : (r : R) (user_id : String) → tasks.rows (bump r user_id) ≡ tasks.rows r
    pub touch-tasks :
        (r : R) (id : String) → tasks.rows (exception_store.touch_updated_at r id) ≡ tasks.rows r
    pub create_reminders-tasks :
        (r : R) (id : String) (xs : List ReminderInput)
        → tasks.rows (create_reminders r id xs) ≡ tasks.rows r
    pub replace_reminders-tasks :
        (r : R) (id : String) (xs : List ReminderInput)
        → tasks.rows (replace_reminders r id xs) ≡ tasks.rows r
    pub save_exception-tasks :
        (r : R) (e : ExceptionRow) → tasks.rows (exception_store.exceptions.save r e) ≡ tasks.rows r
    pub delete_exceptions-tasks :
        (r : R) (p : ExceptionRow → Bool)
        → tasks.rows (exception_store.exceptions.delete r p) ≡ tasks.rows r
    pub save_task-groups :
        (r : R) (row : TaskRow) (p : GroupRow → Bool)
        → groups.find_one (tasks.save r row) p ≡ groups.find_one r p
    pub bump-exceptions :
        (r : R) (user_id : String)
        → exception_store.exceptions.rows (bump r user_id) ≡ exception_store.exceptions.rows r
    pub touch-exceptions :
        (r : R) (id : String)
        → exception_store.exceptions.rows (exception_store.touch_updated_at r id)
          ≡ exception_store.exceptions.rows r

-- A predicate holds of the result, if there is one.
abbrev pub Holds {κ} : {A : Type 0} → (A → Type κ) → Outcome A → Type κ
Holds P (resolved a) = P a
Holds P (rejected e) = Unit {κ}

pub Holds-resolved :
    {A : Type 0} (P : A → Type 0) (m : Outcome A) (a : A) → Holds P m → m ≡ resolved a → P a
Holds-resolved P m a h e = subst (Holds P) e h

pub Holds-bind :
    {A B : Type 0} (P : A → Type 0) (Q : B → Type 0) (m : Outcome A) (f : A → Outcome B)
    → Holds P m
    → ((a : A) → P a → Holds Q (f a))
    → Holds Q (m >>= f)
Holds-bind P Q (resolved a) f h k = k a h
Holds-bind P Q (rejected e) f h k = tt

-- After a check that passes.
pub Holds-then :
    {B : Type 0} (Q : B → Type 0) (m : Outcome (Unit {0})) (n : Outcome B)
    → Holds Q n
    → Holds Q (m >> n)
Holds-then Q (resolved u) n h = h
Holds-then Q (rejected e) n h = tt

pub Holds-require :
    {B : Type 0} (Q : B → Type 0) (b : Bool) (e : HttpError) (n : Outcome B)
    → (b ≡ true → Holds Q n)
    → Holds Q (require b e >> n)
Holds-require Q true e n h = h refl
Holds-require Q false e n h = tt
