-- ===== src/Tasks/Rule/Examples.antt =====
-- The rule of the series of Tasks/Read/Examples is cleared: the child of its first slot is detached.
use cue_api.Common.{◌≡◌, ◌⊎◌, refl, true, false, none, some, List, [], ◌∷◌, In}
use cue_api.Recurrence.Uniform.{uniform}
use cue_api.Tasks.Types.{TaskRow}
use cue_api.Tasks.World.{world_store, world_store-StoreLaws}
use cue_api.Tasks.Read.Examples.{master, child, world}
use cue_api.Tasks.Rule.{
  child_of, generates, sweep_slot, sweep_child, sweep_children, sweep_override_children,
}
use cue_api.Tasks.Rule.Rounds.{Fits}
use cue_api.Tasks.Rule.Sweep.{sweep_override_children-Fits}

abbrev swept : List TaskRow
swept = world_store.tasks.rows (sweep_override_children uniform world_store world master none)

abbrev detached_child : TaskRow
detached_child = record child { detached_at = some 1_000 }

-- The child is detached, and the series stays.
swept_rows : swept ≡ detached_child ∷ master ∷ []
unfolding sweep_override_children sweep_children sweep_child sweep_slot generates
swept_rows = refl

sweep_override_children-Fits_example :
    ((z : TaskRow)
      → In z swept
      → ((x : TaskRow) × In x (world_store.tasks.rows world)
          × (child_of "t1" x ≡ true)
          × (z ≡ record x { detached_at = z.detached_at })
          × Fits uniform world_store world master none z)
        ⊎ (In z (world_store.tasks.rows world) × (child_of "t1" z ≡ false)))
    × ((x : TaskRow) → In x (world_store.tasks.rows world) → child_of "t1" x ≡ false → In x swept)
    × ((x : TaskRow)
        → In x (world_store.tasks.rows world)
        → child_of "t1" x ≡ true
        → (z : TaskRow) × In z swept × (z ≡ record x { detached_at = z.detached_at }))
sweep_override_children-Fits_example =
    sweep_override_children-Fits uniform world_store world_store-StoreLaws master none world
