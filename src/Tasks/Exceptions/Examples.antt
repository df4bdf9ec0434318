-- ===== src/Tasks/Exceptions/Examples.antt =====
-- A skip over a renamed occurrence.
use cue_api.Common.{◌≡◌, refl, true, false, none, some, List, [], ◌∷◌, inl, inr, sym, ◌∙◌}
use cue_api.Tasks.Types.{ExceptionRow}
use cue_api.Tasks.Database.Log.{Write, put, log_table, log_table-TableLaws}
use cue_api.Tasks.Exceptions.{OccurrenceOverrideChanges, ExceptionStore, at_slot, upsert_override}
use cue_api.Tasks.Exceptions.Upsert.{
  is_there, upserted, OnePerSlot, Puts, upsert_override-Puts, upsert_override-OnePerSlot,
}

abbrev pub exception_store : ExceptionStore (List (Write ExceptionRow))
exception_store = record {
  exceptions = log_table (λ row. row.id) is_there;
  touch_updated_at = λ r id. r;
  updated_at = λ r row. 0;
}

abbrev renamed : ExceptionRow
renamed = record {
  id = "x1";
  task_id = "t1";
  original_start_at = 100;
  is_skipped = false;
  override_start_at = none;
  override_end_at = none;
  override_title = some "Retro";
  completed_at = none;
}

abbrev log : List (Write ExceptionRow)
log = put renamed ∷ []

abbrev skip : OccurrenceOverrideChanges
skip = record {
  override_start_at = none;
  override_end_at = none;
  override_title = none;
  is_skipped = some true;
  completed_at = none;
}

upsert_override-Puts_example :
    Puts exception_store
      (log_table-TableLaws (λ row. row.id) is_there)
      (λ r id. refl)
      log
      (upsert_override exception_store log "x2" "t1" 100 skip)
      (upserted "x2" "t1" 100 skip (exception_store.exceptions.find_one log (at_slot "t1" 100)))
upsert_override-Puts_example =
    upsert_override-Puts exception_store (log_table-TableLaws (λ row. row.id) is_there)
      (λ r id. refl) log "x2" "t1" 100 skip

log-OnePerSlot :
    OnePerSlot exception_store (log_table-TableLaws (λ row. row.id) is_there) (λ r id. refl) log
log-OnePerSlot a b (inl ea) (inl eb) t s = ea ∙ sym eb
log-OnePerSlot a b (inl ea) (inr hb) t s = absurd hb
log-OnePerSlot a b (inr ha) hb t s = absurd ha

abbrev skipped_row : ExceptionRow
skipped_row =
    upserted "x2" "t1" 100 skip (exception_store.exceptions.find_one log (at_slot "t1" 100))

upsert_override-OnePerSlot_example : skipped_row ≡ skipped_row
upsert_override-OnePerSlot_example =
    upsert_override-OnePerSlot exception_store (log_table-TableLaws (λ row. row.id) is_there)
      (λ r id. refl) log "x2" "t1" 100 skip log-OnePerSlot skipped_row skipped_row
      upsert_override-Puts_example.1 upsert_override-Puts_example.1 refl refl
