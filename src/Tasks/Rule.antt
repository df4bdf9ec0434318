-- ===== src/Tasks/Rule.antt =====
-- modules/task/task.service.ts: which rule a series has, which slots the rule generates, and the
-- sweep over the override children of a series that follows a change of its rule.
mod Rounds
pub mod Sweep
mod Examples
use text.Mathlib.Text.{◌==◌ as str_eq}
use cue_api.Common.{
  ℕ, ◌+◌, ◌-◌, ◌==◌, String, Bool, true, false, not, ◌&&◌, Option, none, some, List, [], ◌∷◌,
  if◌then◌else◌, any_of,
}
use cue_api.Recurrence.Types.{Instant, RecurrenceConfig, RecurrenceSource}
use cue_api.Recurrence.Luxon.{Luxon}
use cue_api.Recurrence.Expand.{expand_occurrences}
use cue_api.Tasks.Types.{TaskRow, anchor_of}
use cue_api.Tasks.Store.{TaskDatabase, is_null, group_of}
use cue_api.Tasks.Read.{group_config}

-- `{ parentTaskId: id }`
abbrev pub child_of : String → TaskRow → Bool
child_of id row = elim row.parent_task_id [ none ↦ false | some parent ↦ str_eq parent id ]

-- `{ parentTaskId: id, originalStartAt: slot }`
abbrev pub child_at : String → Instant → TaskRow → Bool
child_at id slot row =
    child_of id row && elim row.original_start_at [ none ↦ false | some start ↦ start == slot ]

module _ (luxon : Luxon) {R : Type 0} (store : TaskDatabase R) where
  open store use {tasks, now}

  pub is_generated_occurrence : R → TaskRow → RecurrenceConfig → Instant → Bool
  is_generated_occurrence r task config slot =
      any_of (λ o. o.original_start == slot)
        (expand_occurrences luxon (anchor_of (group_of store r task) task) config [] (slot - 1)
          (slot + 1) RecurrenceSource.task)

  -- `config && this.isGeneratedOccurrence(task, config, slot)`
  pub generates : R → TaskRow → Option RecurrenceConfig → Instant → Bool
  generates r task none slot = false
  generates r task (some config) slot = is_generated_occurrence r task config slot

  pub resolve_effective_config_for_task : R → TaskRow → Option RecurrenceConfig
  resolve_effective_config_for_task r task = elim task.parent_task_id [
    | some parent ↦ none
    | none ↦ elim task.recurrence_config [
      | some config ↦ some config
      | none ↦ group_config (group_of store r task)
    ]
  ]

  -- A round of the loop over the children, at a child with a slot.
  unfoldable pub sweep_slot : R → TaskRow → Bool → R
  sweep_slot r child generated =
      if not generated && is_null child.detached_at
      then tasks.save r (record child { detached_at = some (now r) })
      else if generated && not (is_null child.detached_at)
      then tasks.save r (record child { detached_at = none })
      else r

  unfoldable pub sweep_child : R → TaskRow → Option RecurrenceConfig → TaskRow → R
  sweep_child r parent config child = elim child.original_start_at [
    | none ↦ r
    | some slot ↦ sweep_slot r child (generates r parent config slot)
  ]

  unfoldable pub sweep_children : R → TaskRow → Option RecurrenceConfig → List TaskRow → R
  sweep_children r parent config [] = r
  sweep_children r parent config (child ∷ children) =
      sweep_children (sweep_child r parent config child) parent config children

  unfoldable pub sweep_override_children : R → TaskRow → Option RecurrenceConfig → R
  sweep_override_children r parent config =
      sweep_children r parent config (tasks.find_all r (child_of parent.id))
