-- ===== src/Tasks/Completion/Examples.antt =====
-- The rows of Tasks/Read/Examples are deleted.
use cue_api.Common.{◌*◌, ◌≡◌, ◌≢◌, ◌↔◌, refl, true, false, In}
use cue_api.Tasks.Types.{TaskRow, ExceptionRow, resolved}
use cue_api.Tasks.Store.{find_by_id, checked_row, ensure_calendar_owned_by_user, owned_by}
use cue_api.Tasks.World.{World, world_store, world_store-StoreLaws}
use cue_api.Tasks.Read.Examples.{day, master, child, world}
use cue_api.Tasks.Rule.{child_of}
use cue_api.Tasks.Completion.{delete_remove, remove}
use cue_api.Tasks.Completion.Deletion.{remove-cascades, remove-skips}

remove-cascades_example :
    (r' : World) × (remove world_store world "u1" "t1" delete_remove ≡ resolved r')
    × ((z : TaskRow)
        → In z (world_store.tasks.rows r')
          ↔ (In z (world_store.tasks.rows world) × (z.id ≢ "t1") × (child_of "t1" z ≡ false)))
unfolding find_by_id checked_row ensure_calendar_owned_by_user owned_by
remove-cascades_example =
    remove-cascades world_store world_store-StoreLaws world "u1" "t1" delete_remove master refl refl

remove-skips_example :
    (r' : World) × (remove world_store world "u1" "t2" delete_remove ≡ resolved r')
    × ((z : TaskRow)
        → In z (world_store.tasks.rows r') ↔ (In z (world_store.tasks.rows world) × (z.id ≢ "t2")))
    × ((e : ExceptionRow) × In e (world_store.exception_store.exceptions.rows r')
        × (e.task_id ≡ "t1")
        × (e.original_start_at ≡ 98 * day)
        × (e.is_skipped ≡ true))
unfolding find_by_id checked_row ensure_calendar_owned_by_user owned_by
remove-skips_example =
    remove-skips world_store world_store-StoreLaws world "u1" "t2" child "t1" (98 * day) refl refl
      refl
