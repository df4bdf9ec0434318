-- ===== src/Tasks/Settings/Examples.antt =====
-- The series of Tasks/Read/Examples, in a window that opens half an hour into its first occurrence.
use cue_api.Common.{◌*◌, ◌+◌, refl, inl, inr, ◌∷◌, [], In}
use cue_api.Recurrence.Uniform.{uniform}
use cue_api.Recurrence.Expand.Examples.{on_mondays}
use cue_api.Tasks.World.{world_store, world_store-TaskLaws}
use cue_api.Tasks.Read.{read_recurring_occurrences}
use cue_api.Tasks.Read.Examples.{
  day, half_hour, master, world, all_events, first_monday, first_monday-expanded,
}
use cue_api.Tasks.Settings.{resolve_effective_recurrence}
use cue_api.Tasks.Settings.Gate.{read_recurring_occurrences-effective}

read_recurring_occurrences-effective_example : In first_monday (
    read_recurring_occurrences uniform world_store world
      ("c1" ∷ [])
      (98 * day + half_hour)
      (99 * day)
      all_events.group_id)
unfolding resolve_effective_recurrence
read_recurring_occurrences-effective_example =
    (read_recurring_occurrences-effective uniform world_store world_store-TaskLaws world ("c1" ∷ [])
        (98 * day + half_hour) (99 * day) all_events first_monday).1
      (master, on_mondays, inr (inl refl), refl, refl, refl, first_monday-expanded)
