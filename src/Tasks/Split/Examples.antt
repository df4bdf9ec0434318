-- ===== src/Tasks/Split/Examples.antt =====
-- A series of five occurrences is split.
use cue_api.Common.{ℕ, ◌+◌, ◌*◌, ◌≤◌, ◌≡◌, refl, none, some}
use cue_api.Recurrence.Uniform.{uniform}
use cue_api.Recurrence.Expand.Examples.{five_times}
use cue_api.Tasks.World.{world_store}
use cue_api.Tasks.Read.Examples.{day, master, world}
use cue_api.Tasks.Split.{
  count_rule, count_override, count_occurrences_before, resolve_split_recurrence,
}
use cue_api.Tasks.Split.Count.{resolve_split_recurrence-count}

resolve_split_recurrence-count_example :
    (rest : ℕ) × ((resolve_split_recurrence uniform world_store world master five_times
        (105 * day)
        none).count
      ≡ some rest)
    × (count_occurrences_before uniform world_store world master five_times (105 * day) + rest ≡ 5)
    × (5 ≤ rest + 1000)
unfolding count_rule count_override
resolve_split_recurrence-count_example =
    resolve_split_recurrence-count uniform world_store world master five_times (105 * day) none 5
      refl refl
