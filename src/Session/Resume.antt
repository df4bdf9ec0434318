-- ===== src/Session/Resume.antt =====
-- modules/assistant/session/turn-runner.service.ts, appendSyntheticAnswer: how the answer of the
-- user is put into the rounds of a suspended turn.
pub mod Pairing
mod Examples
use cue_api.Common.{String, false, none, List, [], ◌∷◌, ◌++◌}
use cue_api.Orchestration.Types.{ToolCall, ToolResult, ToolRound}

-- `isError` is left out, which reads as false.
abbrev pub synthetic_result : String → String → ToolResult
synthetic_result ask_tool_use_id answer_label = record {
  tool_call_id = ask_tool_use_id;
  content = answer_label;
  is_error = false;
}

-- The result is appended to the last round.
answer_last : ToolResult → List ToolRound → List ToolRound
answer_last result [] = []
answer_last result (round ∷ []) =
    record round { tool_results = round.tool_results ++ result ∷ [] } ∷ []
answer_last result (round ∷ next ∷ rounds) = round ∷ answer_last result (next ∷ rounds)

abbrev ask_call : String → ToolCall
ask_call id = record { id = id; name = "ask_user"; input = "{}" }

pub append_synthetic_answer : String → List ToolRound → String → List ToolRound
append_synthetic_answer ask_tool_use_id [] answer_label =
    record {
      tool_calls = ask_call ask_tool_use_id ∷ [];
      tool_results = synthetic_result ask_tool_use_id answer_label ∷ [];
      assistant_text = none;
    }
    ∷ []
append_synthetic_answer ask_tool_use_id (round ∷ rounds) answer_label =
    answer_last (synthetic_result ask_tool_use_id answer_label) (round ∷ rounds)
