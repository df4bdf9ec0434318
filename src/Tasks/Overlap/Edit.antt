-- ===== src/Tasks/Overlap/Edit.antt =====
-- task.service.ts, findRecurringEditConflicts: the rule that an edit of the time alone is checked with.
use cue_api.Common.{none, some, get_or}
use cue_api.Recurrence.Types.{Instant, RecurrenceConfig}
use cue_api.Recurrence.Luxon.{Luxon}
use cue_api.Recurrence.Expand.{CreateRecurrenceRuleDto, ProposedSeries}
use cue_api.Tasks.Types.{TaskRow}
use cue_api.Tasks.Overlap.{RecurringEditProposal}

-- The rule of the series that is checked in place of one by the rule c.
abbrev dto_of : RecurrenceConfig → CreateRecurrenceRuleDto
dto_of c = record {
  frequency = c.frequency;
  interval = some c.interval;
  by_weekday = c.by_weekday;
  by_month_day = c.by_month_day;
  by_month = c.by_month;
  by_set_pos = none;
  monthly_anchor = none;
  end_type = some c.end_type;
  end_date = c.end_date;
  count = c.count;
}

module _ (luxon : Luxon) (task : TaskRow) (proposal : RecurringEditProposal) where
  -- The series at the new times.
  abbrev moved_series : RecurrenceConfig → Instant → Instant → ProposedSeries
  moved_series c start end = record {
    title = get_or proposal.title task.title;
    start_at = start;
    end_at = end;
    timezone = get_or proposal.timezone task.timezone;
    recurrence = dto_of c;
  }
