-- ===== src/Tasks/World.antt =====
-- A database of logs, to instantiate the task service.
use cue_api.Common.{String, true, refl, List, [], ◌∷◌}
use cue_api.Tasks.Types.{TaskRow, GroupRow, ExceptionRow, CalendarRow}
use cue_api.Tasks.Database.Log.{Write, log_table, log_table-TableLaws, within, within-TableLaws}
use cue_api.Tasks.Store.{TaskDatabase, TaskLaws, ReminderInput, is_live}
use cue_api.Tasks.Laws.{StoreLaws}

pub record World : Type 0 where
  pub task_log : List (Write TaskRow)
  pub calendar_log : List (Write CalendarRow)
  pub group_log : List (Write GroupRow)
  pub exception_log : List (Write ExceptionRow)
  pub bumps : List String
  pub reminders : List (String × List ReminderInput)

abbrev put_tasks : World → List (Write TaskRow) → World
put_tasks w log = record w { task_log = log }

abbrev put_exceptions : World → List (Write ExceptionRow) → World
put_exceptions w log = record w { exception_log = log }

abbrev pub world_store : TaskDatabase World
world_store = record {
  tasks = within (λ w. w.task_log) put_tasks (log_table (λ row. row.id) is_live);
  calendars =
      within (λ w. w.calendar_log) (λ w log. record w { calendar_log = log })
        (log_table (λ row. row.id) (λ row. true));
  groups =
      within (λ w. w.group_log) (λ w log. record w { group_log = log })
        (log_table (λ row. row.id) (λ row. true));
  exception_store = record {
    exceptions =
        within (λ w. w.exception_log) put_exceptions (log_table (λ row. row.id) (λ row. true));
    touch_updated_at = λ w id. w;
    updated_at = λ w row. 0;
  };
  now = λ w. 1_000;
  new_task_id = λ w. "fresh";
  new_exception_id = λ w. "x_fresh";
  bump = λ w id. record w { bumps = id ∷ w.bumps };
  reminders_of = λ w id. [];
  create_reminders = λ w id inputs. record w { reminders = (id, inputs) ∷ w.reminders };
  replace_reminders = λ w id inputs. record w { reminders = (id, inputs) ∷ w.reminders };
}

pub world_store-TaskLaws : TaskLaws world_store
world_store-TaskLaws =
    within-TableLaws (λ w. w.task_log) put_tasks (log_table (λ row. row.id) is_live) (λ row. row.id)
      is_live (λ w log. refl) (log_table-TableLaws (λ row. row.id) is_live)

pub world_store-StoreLaws : StoreLaws world_store
world_store-StoreLaws = record {
  task_laws = world_store-TaskLaws;
  exception_laws =
      within-TableLaws (λ w. w.exception_log) put_exceptions
        (log_table (λ row. row.id) (λ row. true)) (λ row. row.id) (λ row. true) (λ w log. refl)
        (log_table-TableLaws (λ row. row.id) (λ row. true));
  bump-tasks = λ r user_id. refl;
  touch-tasks = λ r id. refl;
  create_reminders-tasks = λ r id xs. refl;
  replace_reminders-tasks = λ r id xs. refl;
  save_exception-tasks = λ r e. refl;
  delete_exceptions-tasks = λ r p. refl;
  save_task-groups = λ r row p. refl;
  bump-exceptions = λ r user_id. refl;
  touch-exceptions = λ r id. refl;
}
