-- ===== src/Tasks/Settings.antt =====
-- modules/task/effective-settings.ts: what a task takes from its group. The group is the relation,
-- where it is loaded.
pub mod Gate
mod Examples
use cue_api.Common.{Bool, false, String, Option, none, some, get_or, or_else}
use cue_api.Recurrence.Types.{RecurrenceConfig}
use cue_api.Tasks.Types.{TaskRow, GroupRow}

pub record EffectiveSettings : Type 0 where
  pub recurrence : Option RecurrenceConfig
  pub requires_completion : Bool
  pub color : Option String

-- `group?.recurrenceConfig`, and the like.
group_rule : Option GroupRow → Option RecurrenceConfig
group_rule none = none
group_rule (some g) = g.recurrence_config

group_requires : Option GroupRow → Option Bool
group_requires none = none
group_requires (some g) = g.requires_completion

group_color : Option GroupRow → Option String
group_color none = none
group_color (some g) = g.color

pub resolve_effective_recurrence : Option GroupRow → TaskRow → Option RecurrenceConfig
resolve_effective_recurrence group task = elim task.parent_task_id [
  | some parent ↦ none
  | none ↦ or_else task.recurrence_config (group_rule group)
]

pub resolve_effective_settings : Option GroupRow → TaskRow → EffectiveSettings
resolve_effective_settings group task = record {
  recurrence = resolve_effective_recurrence group task;
  requires_completion = get_or task.requires_completion (get_or (group_requires group) false);
  color = or_else task.color (or_else (group_color group) none);
}
