-- ===== src/Tasks/Invariant/Examples.antt =====
-- The series of Tasks/Read/Examples is ended after the child of its first occurrence.
use cue_api.Common.{◌*◌, ◌≡◌, refl, sym, subst, inl, inr}
use cue_api.Recurrence.Uniform.{uniform}
use cue_api.Tasks.Types.{resolved}
use cue_api.Tasks.Store.{ensure_calendar_owned_by_user, owned_by, checked_row}
use cue_api.Tasks.Overlap.{find_by_id_with_rule}
use cue_api.Tasks.Split.{end_series_at, end_at_slot, starts_at}
use cue_api.Tasks.World.{World, world_store, world_store-StoreLaws}
use cue_api.Tasks.Read.Examples.{day, master, world}
use cue_api.Recurrence.Expand.Examples.{on_mondays}
use cue_api.Tasks.Invariant.{Sound, AllSound}
use cue_api.Tasks.Invariant.Reachable.{here, after, ends, reachable-AllSound}

world-AllSound : AllSound world_store world
world-AllSound row (inl e) = subst Sound (sym e) (inr (refl, refl))
world-AllSound row (inr (inl e)) = subst Sound (sym e) (inl refl)
world-AllSound row (inr (inr none_left)) = absurd none_left

abbrev ended : World
ended = end_at_slot uniform world_store world "u1" master on_mondays (105 * day)

end_series_at-ended : end_series_at uniform world_store world "u1" "t1" (105 * day) ≡ resolved ended
unfolding end_series_at find_by_id_with_rule checked_row ensure_calendar_owned_by_user owned_by
    starts_at
end_series_at-ended = refl

reachable-AllSound_example : AllSound world_store ended
reachable-AllSound_example =
    reachable-AllSound uniform world_store (λ at. "1970-01-01T00:00:00Z") world_store-StoreLaws
      world ended world-AllSound (after here (ends "u1" "t1" (105 * day) end_series_at-ended))
