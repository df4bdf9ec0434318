-- ===== src/Orchestration/Calls.antt =====
-- tool-loop.service.ts, the loop over the tool calls of one round: the schedule-fetch cap, the
-- dispatch, the `ask_user` stop and the write ledger. The dispatcher and all that it changes
-- (database, calendars) are a parameter, a world that a call carries on to the next; none is a throw.
pub mod Pairing
pub mod Cap
pub mod World
mod Examples
use cue_api.Common.{
  ℕ, ◌+◌, String, Bool, true, false, Option, none, some, List, [], ◌∷◌, ◌++◌, leb, if◌then◌else◌,
  get_or,
}
use cue_api.Orchestration.Types.{ToolCall, ToolResult, ToolDispatchOutcome, ToolStepRecord, AskUser}
use cue_api.Orchestration.Terminal.{WriteLedgerDelta, write_ledger_delta}

abbrev pub schedule_cap_tool_result : String
schedule_cap_tool_result =
    "Schedule-fetch limit reached for this turn; proceed with the information already gathered."

-- The accounting sets of the tool registry, and the cap of the configuration.
pub record Accounting : Type 0 where
  pub is_schedule_fetch : String → Bool
  pub is_write : String → Bool
  pub max_schedule_fetches : ℕ

-- What the loop over the calls of a round changes.
pub record CallState (World : Type 0) : Type 0 where
  pub world : World
  pub results : List ToolResult
  pub steps : List ToolStepRecord
  pub schedule_fetches : ℕ
  pub committed_writes : ℕ
  pub attempted_writes : ℕ

-- How the loop over the calls ends: with all of them done, at an `ask_user` call, or with a throw.
pub data CallsEnd (World : Type 0) : Type 0 where
  done : CallState World → CallsEnd World
  asked : CallState World → ToolCall → AskUser → CallsEnd World
  threw : CallState World → CallsEnd World

abbrev step_of : ToolCall → String → Bool → ToolStepRecord
step_of call content is_error = record {
  name = call.name;
  input = call.input;
  result_content = content;
  is_error = is_error;
  held = false;
}

abbrev result_of : ToolCall → String → Bool → ToolResult
result_of call content is_error = record {
  tool_call_id = call.id;
  content = content;
  is_error = is_error;
}

module _ {World : Type 0} where
  -- The call is refused by the cap.
  capped : CallState World → ToolCall → CallState World
  capped s call = record s {
    results = s.results ++ result_of call schedule_cap_tool_result false ∷ [];
    steps = s.steps ++ step_of call schedule_cap_tool_result false ∷ [];
  }

  -- The dispatched call's result is recorded.
  recorded : CallState World → ToolCall → ToolDispatchOutcome → CallState World
  recorded s call outcome =
      let is_error = get_or outcome.is_error false in
      record s {
        results = s.results ++ result_of call outcome.content is_error ∷ [];
        steps = s.steps ++ step_of call outcome.content is_error ∷ [];
      }

  -- The write ledger takes a write's delta.
  counted : Bool → CallState World → ToolDispatchOutcome → CallState World
  counted is_write s outcome =
      let delta =
        write_ledger_delta outcome.attempted_count outcome.committed_count
          (get_or outcome.is_error false) in
      if is_write
      then record s {
        committed_writes = s.committed_writes + delta.committed;
        attempted_writes = s.attempted_writes + delta.attempted;
      }
      else s

module _ {World : Type 0} (accounting : Accounting) where
  open accounting use {is_write}

  -- A dispatched call with its outcome, and the outcome's question if it has one.
  asked_or_done : CallState World → ToolCall → ToolDispatchOutcome → Option AskUser → CallsEnd World
  asked_or_done s call o (some question) =
      asked (record s { steps = s.steps ++ step_of call o.content false ∷ [] }) call question
  asked_or_done s call o none = done (counted (is_write call.name) (recorded s call o) o)

  -- What a dispatch gave: an outcome, or a throw.
  pub settled : CallState World → ToolCall → Option ToolDispatchOutcome → CallsEnd World
  settled s call none = threw s
  settled s call (some o) = asked_or_done s call o o.ask_user

module _ {World : Type 0} (dispatch : World → ToolCall → World × Option ToolDispatchOutcome)
    (accounting : Accounting) where
  open accounting use {is_schedule_fetch, max_schedule_fetches}

  dispatched : CallState World → ToolCall → CallsEnd World
  dispatched s call =
      let (world, outcome) = dispatch s.world call in
      settled accounting (record s { world = world }) call outcome

  -- One round of the loop over the calls.
  visit_call : CallState World → ToolCall → CallsEnd World
  visit_call s call =
      if is_schedule_fetch call.name
      then (if leb max_schedule_fetches s.schedule_fetches
          then done (capped s call)
          else dispatched (record s { schedule_fetches = s.schedule_fetches + 1 }) call)
      else dispatched s call

  pub visit_calls : CallState World → List ToolCall → CallsEnd World
  visit_calls s [] = done s
  visit_calls s (call ∷ calls) = elim (visit_call s call) [
    | done s' ↦ visit_calls s' calls
    | asked s' c question ↦ asked s' c question
    | threw s' ↦ threw s'
  ]
