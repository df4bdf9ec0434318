-- ===== src/Tasks/Exceptions/Leaves.antt =====
-- What the writes of exceptions leave: whatever neither a write to the table nor the touch of a task
-- changes.
use cue_api.Common.{◌≡◌, refl, ◌∙◌, String, Bool, true, false, Option, none, some}
use cue_api.Recurrence.Types.{Instant}
use cue_api.Tasks.Types.{ExceptionRow}
use cue_api.Tasks.Exceptions.{
  OccurrenceOverrideChanges, ExceptionStore, apply_changes, delete_for_slot, update_existing,
  upsert_into, upsert_override, at_slot, new_exception,
}

module _ {R X : Type 0} (store : ExceptionStore R) (view : R → X)
    (saved : (r : R) (e : ExceptionRow) → view (store.exceptions.save r e) ≡ view r)
    (touched : (r : R) (id : String) → view (store.touch_updated_at r id) ≡ view r) where
  update_existing-leaves :
      (r : R) (id : String) (out : ExceptionRow × Bool)
      → view (update_existing store r id out).0 ≡ view r
  unfolding update_existing
  update_existing-leaves r id (row, true) = touched (store.exceptions.save r row) id ∙ saved r row
  update_existing-leaves r id (row, false) = refl

  upsert_into-leaves :
      (r : R) (new_id id : String) (slot : Instant) (c : OccurrenceOverrideChanges)
      (old : Option ExceptionRow)
      → view (upsert_into store r new_id id slot c old).0 ≡ view r
  unfolding upsert_into
  upsert_into-leaves r new_id id slot c none =
      touched (store.exceptions.save r (new_exception new_id id slot c)) id
      ∙ saved r (new_exception new_id id slot c)
  upsert_into-leaves r new_id id slot c (some e) = update_existing-leaves r id (apply_changes e c)

  pub upsert_override-leaves :
      (r : R) (new_id id : String) (slot : Instant) (c : OccurrenceOverrideChanges)
      → view (upsert_override store r new_id id slot c).0 ≡ view r
  unfolding upsert_override
  upsert_override-leaves r new_id id slot c =
      upsert_into-leaves r new_id id slot c (store.exceptions.find_one r (at_slot id slot))

module _ {R X : Type 0} (store : ExceptionStore R) (view : R → X)
    (deleted : (r : R) (p : ExceptionRow → Bool)
      → view (store.exceptions.delete r p) ≡ view r) where
  pub delete_for_slot-leaves :
      (r : R) (id : String) (slot : Instant) → view (delete_for_slot store r id slot) ≡ view r
  unfolding delete_for_slot
  delete_for_slot-leaves r id slot = deleted r (at_slot id slot)
