-- ===== src/Tasks/Read/Examples.antt =====
-- A weekly series, one of whose occurrences a child replaces.
use cue_api.Common.{ℕ, ◌*◌, ◌+◌, ◌≡◌, ◌↔◌, refl, false, none, some, List, [], ◌∷◌, In, inl, arith}
use cue_api.Recurrence.Types.{RecurrenceSource}
use cue_api.Recurrence.Uniform.{uniform}
use cue_api.Recurrence.Expand.Examples.{standup, on_mondays, first_monday-shown}
use cue_api.Recurrence.Expand.Examples as Series
use cue_api.Tasks.Types.{TaskRow, resolved, anchor_of}
use cue_api.Tasks.Database.Log.{put}
use cue_api.Tasks.Exceptions.{find_for_task}
use cue_api.Tasks.Store.{resolve_calendar_scope, group_of}
use cue_api.Tasks.World.{World, world_store, world_store-TaskLaws}
use cue_api.Tasks.Read.{
  FindOccurrencesOptions, ListedOccurrence, listed, expand_anchor, find_occurrences_in_range,
}
use cue_api.Tasks.Read.Listing.{ByStart, Shown, find_occurrences_in_range-Shown}

abbrev pub day : ℕ
day = 86_400_000

abbrev pub half_hour : ℕ
half_hour = 1_800_000

-- On Mondays, for an hour.
abbrev pub master : TaskRow
master = record {
  id = "t1";
  calendar_id = "c1";
  group_id = none;
  title = "Standup";
  notes = none;
  start_at = some (98 * day);
  end_at = some (98 * day + 2 * half_hour);
  is_all_day = false;
  timezone = "UTC";
  requires_completion = none;
  color = none;
  icon = none;
  completed_at = none;
  notification_strategy_id = none;
  recurrence_config = some on_mondays;
  parent_task_id = none;
  original_start_at = none;
  detached_at = none;
  recurrence_updated_at = none;
  deleted_at = none;
}

-- The first of them, moved to three days later.
abbrev pub child : TaskRow
child = record master {
  id = "t2";
  start_at = some (101 * day);
  end_at = some (101 * day + 2 * half_hour);
  recurrence_config = none;
  parent_task_id = some "t1";
  original_start_at = some (98 * day);
}

abbrev pub world : World
world = record {
  task_log = put child ∷ put master ∷ [];
  calendar_log = put (record { id = "c1"; owner_id = "u1" }) ∷ [];
  group_log = [];
  exception_log = [];
  bumps = [];
  reminders = [];
}

abbrev pub all_events : FindOccurrencesOptions
all_events = record {
  calendar_id = none;
  group_id = none;
  include_completed = false;
  include_todos = false;
}

find_occurrences_in_range-Shown_example :
    (shown : List ListedOccurrence) × (find_occurrences_in_range uniform world_store world "u1"
        (98 * day)
        (105 * day)
        all_events
      ≡ resolved shown)
    × ByStart uniform world_store shown
    × ((o : ListedOccurrence)
        → In o shown
          ↔ Shown uniform world_store world ("c1" ∷ []) (98 * day) (105 * day) all_events o)
unfolding resolve_calendar_scope
find_occurrences_in_range-Shown_example =
    find_occurrences_in_range-Shown uniform world_store world_store-TaskLaws world "u1" (98 * day)
      (105 * day) all_events ("c1" ∷ []) (omega arith) refl

abbrev pub first_monday : ListedOccurrence
first_monday = listed master Series.first_monday

pub first_monday-expanded : In first_monday (
    expand_anchor uniform world_store world
      (98 * day + half_hour)
      (99 * day)
      RecurrenceSource.task
      master
      (some on_mondays))
unfolding expand_anchor listed anchor_of find_for_task group_of
first_monday-expanded = rw first_monday-shown (inl refl)
