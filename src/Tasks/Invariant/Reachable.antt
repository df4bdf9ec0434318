-- ===== src/Tasks/Invariant/Reachable.antt =====
-- The operations of task.service.ts that write, as the steps of the task table.
use cue_api.Common.{◌≡◌, String, Bool}
use cue_api.Recurrence.Types.{Instant}
use cue_api.Recurrence.Luxon.{Luxon}
use cue_api.Tasks.Types.{TaskRow, resolved}
use cue_api.Tasks.Exceptions.{OccurrenceOverrideChanges}
use cue_api.Tasks.Store.{TaskDatabase}
use cue_api.Tasks.Laws.{StoreLaws, Holds-resolved}
use cue_api.Tasks.Completion.{
  OccurrenceCompletionResult, TaskDeleteMode, set_completed, set_occurrence_completed, remove,
}
use cue_api.Tasks.Update.{CreateTaskDto, UpdateTaskInput, create, update}
use cue_api.Tasks.Override.{
  CreateOverrideInput, create_or_update_override, apply_occurrence_override,
}
use cue_api.Tasks.Split.{SplitSeriesChanges, split_series, end_series_at}
use cue_api.Tasks.Invariant.{AllSound}
use cue_api.Tasks.Invariant.Completion.{
  set_completed-AllSound, set_occurrence_completed-AllSound, remove-AllSound,
}
use cue_api.Tasks.Invariant.Update.{create-AllSound, update-AllSound}
use cue_api.Tasks.Invariant.Override.{
  create_or_update_override-AllSound, apply_occurrence_override-AllSound,
}
use cue_api.Tasks.Invariant.Split.{split_series-AllSound, end_series_at-AllSound}

module _ (luxon : Luxon) {R : Type 0} (store : TaskDatabase R)
    (to_iso_string : Instant → String) where
  -- An operation that succeeds, from one state to the next. One that fails is rolled back.
  pub data Step (r r' : R) : Type 0 where
    creates :
        (user_id : String) (dto : CreateTaskDto) (row : TaskRow)
        → create luxon store r user_id dto ≡ resolved (r', row)
        → Step r r'
    updates :
        (user_id id : String) (input : UpdateTaskInput) (row : TaskRow)
        → update luxon store r user_id id input ≡ resolved (r', row)
        → Step r r'
    completes :
        (user_id id : String) (is_completed : Bool) (row : TaskRow)
        → set_completed store r user_id id is_completed ≡ resolved (r', row)
        → Step r r'
    completes_occurrence :
        (user_id id : String) (slot : Instant) (is_completed : Bool)
        (done : OccurrenceCompletionResult)
        → set_occurrence_completed store r user_id id slot is_completed ≡ resolved (r', done)
        → Step r r'
    removes :
        (user_id id : String) (mode : TaskDeleteMode)
        → remove store r user_id id mode ≡ resolved r'
        → Step r r'
    overrides :
        (user_id id : String) (slot : Instant) (changes : OccurrenceOverrideChanges)
        → apply_occurrence_override luxon store to_iso_string r user_id id slot changes
          ≡ resolved r'
        → Step r r'
    overrides_by_child :
        (user_id id : String) (slot : Instant) (patch : CreateOverrideInput) (row : TaskRow)
        → create_or_update_override luxon store to_iso_string r user_id id slot patch
          ≡ resolved (r', row)
        → Step r r'
    splits :
        (user_id id : String) (slot : Instant) (changes : SplitSeriesChanges) (row : TaskRow)
        → split_series luxon store r user_id id slot changes ≡ resolved (r', row)
        → Step r r'
    ends :
        (user_id id : String) (slot : Instant)
        → end_series_at luxon store r user_id id slot ≡ resolved r'
        → Step r r'

  pub data Reachable (r : R) : R → Type 0 where
    here : Reachable r r
    after : {s t : R} → Reachable r s → Step s t → Reachable r t

  module _ (laws : StoreLaws store) where
    Step-AllSound : (r r' : R) → AllSound store r → Step r r' → AllSound store r'
    Step-AllSound r r' inv (creates user_id dto row e) =
        Holds-resolved _ _ (r', row) (create-AllSound luxon store laws r user_id dto inv) e
    Step-AllSound r r' inv (updates user_id id input row e) =
        Holds-resolved _ _ (r', row) (update-AllSound luxon store laws r user_id id input inv) e
    Step-AllSound r r' inv (completes user_id id is_completed row e) =
        Holds-resolved _ _ (r', row)
          (set_completed-AllSound store laws r user_id id is_completed inv) e
    Step-AllSound r r' inv (completes_occurrence user_id id slot is_completed done e) =
        Holds-resolved _ _ (r', done)
          (set_occurrence_completed-AllSound store laws r user_id id slot is_completed inv) e
    Step-AllSound r r' inv (removes user_id id mode e) =
        Holds-resolved _ _ r' (remove-AllSound store laws r user_id id mode inv) e
    Step-AllSound r r' inv (overrides user_id id slot changes e) =
        Holds-resolved _ _ r'
          (apply_occurrence_override-AllSound luxon store to_iso_string laws r user_id id slot
            changes inv)
          e
    Step-AllSound r r' inv (overrides_by_child user_id id slot patch row e) =
        Holds-resolved _ _ (r', row)
          (create_or_update_override-AllSound luxon store to_iso_string laws r user_id id slot patch
            inv)
          e
    Step-AllSound r r' inv (splits user_id id slot changes row e) =
        Holds-resolved _ _ (r', row)
          (split_series-AllSound luxon store laws r user_id id slot changes inv) e
    Step-AllSound r r' inv (ends user_id id slot e) =
        Holds-resolved _ _ r' (end_series_at-AllSound luxon store laws r user_id id slot inv) e

    -- Whatever operations of the task service are run, in any order and on any arguments: where at
    -- first every row that has a parent has no rule of its own and names a slot, it is so of every
    -- row at the end.
    pub reachable-AllSound : (r r' : R) → AllSound store r → Reachable r r' → AllSound store r'
    reachable-AllSound r r' inv here = inv
    reachable-AllSound r r' inv (after {s} steps step) =
        Step-AllSound s r' (reachable-AllSound r s inv steps) step
