-- ===== src/Tasks/Overlap/Examples.antt =====
-- Checks against the calendar of Tasks/Read/Examples.
use cue_api.Common.{◌+◌, ◌*◌, ◌≡◌, ◌↔◌, refl, none, some, List, [], ◌∷◌, In, Sorted}
use cue_api.Recurrence.Types.{RecurrenceConfig, monthly, first_workday, never}
use cue_api.Recurrence.Luxon.{Luxon}
use cue_api.Tasks.Database.Log.{put}
use cue_api.Recurrence.Uniform.{uniform}
use cue_api.Recurrence.Expand.{preview_series_occurrences}
use cue_api.Recurrence.Expand.Examples.{forever}
use cue_api.Tasks.Types.{TaskRow, resolved}
use cue_api.Tasks.Store.{ensure_calendar_owned_by_user, owned_by}
use cue_api.Tasks.World.{World, world_store, world_store-TaskLaws}
use cue_api.Tasks.Read.Examples.{day, half_hour, world, master}
use cue_api.Tasks.Overlap.{
  RecurringEditProposal, RecurringSeriesConflicts, start_order, find_overlapping,
  find_recurring_series_conflicts,
}
use cue_api.Tasks.Overlap.Dedupe.{UniqueIds}
use cue_api.Tasks.Overlap.Clashes.{Clash, find_overlapping-Clash}
use cue_api.Tasks.Overlap.Series.{Reports, find_recurring_series_conflicts-Reports}

find_overlapping-Clash_example :
    (rows : List TaskRow) × (find_overlapping uniform world_store world "u1" "c1"
        (101 * day)
        (101 * day + half_hour)
        (some "t1")
      ≡ resolved rows)
    × UniqueIds rows
    × Sorted start_order rows
    × ((row : TaskRow)
        → In row rows
          ↔ Clash uniform world_store world "c1"
              (101 * day)
              (101 * day + half_hour)
              (some "t1")
              row)
unfolding ensure_calendar_owned_by_user owned_by
find_overlapping-Clash_example =
    find_overlapping-Clash uniform world_store world_store-TaskLaws world "u1" "c1" (101 * day)
      (101 * day + half_hour) (some "t1") refl

find_recurring_series_conflicts-Reports_example :
    (found : RecurringSeriesConflicts) × (find_recurring_series_conflicts uniform world_store world
        "u1" "c1" forever none
      ≡ resolved found)
    × UniqueIds found.conflicting_tasks
    × Reports uniform world_store world "c1" none (preview_series_occurrences uniform forever) found
unfolding ensure_calendar_owned_by_user owned_by
find_recurring_series_conflicts-Reports_example =
    find_recurring_series_conflicts-Reports uniform world_store world_store-TaskLaws world "u1" "c1"
      forever none refl

-- On the first workday of the month.
abbrev on_first_workday : RecurrenceConfig
on_first_workday = record {
  frequency = monthly;
  interval = 1;
  by_weekday = none;
  by_month_day = none;
  by_month = none;
  by_set_pos = none;
  monthly_anchor = some first_workday;
  end_type = never;
  end_date = none;
  count = none;
}

abbrev first_workdays : TaskRow
first_workdays = record master { recurrence_config = some on_first_workday }

abbrev workdays_world : World
workdays_world = record world { task_log = put first_workdays ∷ [] }

-- A clock that reads one date.
abbrev one_date : Luxon
one_date = record uniform { from_iso = λ text zone. some 97 }

-- The start moves to that date.
abbrev a_day_earlier : RecurringEditProposal
a_day_earlier = record {
  title = none;
  start_at = some "1970-04-08";
  end_at = none;
  timezone = none;
  recurrence = none;
}
