-- ===== src/Tasks/Daily/Examples.antt =====
-- The counts of the week of Tasks/Read/Examples.
use cue_api.Common.{ℕ, ◌*◌, ◌≡◌, refl, String, false, none, List, [], ◌∷◌, length}
use cue_api.Recurrence.Uniform.{uniform}
use cue_api.Tasks.Types.{resolved}
use cue_api.Tasks.Store.{resolve_calendar_scope}
use cue_api.Tasks.World.{world_store}
use cue_api.Tasks.Read.{ListedOccurrence, find_occurrences_in_range, occurrences_of}
use cue_api.Tasks.Read.Examples.{day, world}
use cue_api.Tasks.Daily.{count_on, counted_options, get_daily_counts}
use cue_api.Tasks.Daily.Buckets.{on_date, get_daily_counts-count}

abbrev week : List ListedOccurrence
week =
    occurrences_of uniform world_store world (98 * day) (105 * day)
      (counted_options uniform world_store none false) ("c1" ∷ [])

week-read :
    find_occurrences_in_range uniform world_store world "u1"
      (98 * day)
      (105 * day)
      (counted_options uniform world_store none false)
    ≡ resolved week
unfolding find_occurrences_in_range resolve_calendar_scope counted_options
week-read = refl

get_daily_counts-count_example :
    (counts : List (String × ℕ)) × (get_daily_counts uniform world_store world "u1"
        (98 * day)
        (105 * day)
        none
        false
      ≡ resolved counts)
    × ((date : String) → count_on counts date ≡ length (on_date uniform date week))
get_daily_counts-count_example =
    get_daily_counts-count uniform world_store world "u1" (98 * day) (105 * day) none false week
      week-read
