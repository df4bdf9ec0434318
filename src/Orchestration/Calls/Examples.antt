-- ===== src/Orchestration/Calls/Examples.antt =====
-- A round of three calls, of which the second asks the user.
use cue_api.Common.{ℕ, ◌+◌, ◌≤◌, none, some, [], ◌∷◌, arith, Option, String, if◌then◌else◌, List}
use text.Mathlib.Text.{◌==◌ as str_eq}
use cue_api.Orchestration.Types.{ToolCall, ToolDispatchOutcome, AskUser}
use cue_api.Orchestration.Calls.{Accounting, CallState, visit_calls}
use cue_api.Orchestration.Calls.Pairing.{Answers, visit_calls-Answers}
use cue_api.Orchestration.Calls.Cap.{end_state, visit_calls-Within}

abbrev call : String → String → ToolCall
call id name = record { id = id; name = name; input = "{}" }

abbrev asked_question : String → Option AskUser
asked_question name =
    if str_eq name "ask_user" then some (record { question = "Which one?"; options = [] }) else none

-- The world counts the fetches.
abbrev dispatch : ℕ → ToolCall → ℕ × Option ToolDispatchOutcome
dispatch w c = (
  w + (if str_eq c.name "get_schedule" then 1 else 0),
  some (record {
    content = "ok";
    is_error = none;
    committed_count = none;
    attempted_count = none;
    ask_user = asked_question c.name;
  }),
)

abbrev accounting : Accounting
accounting = record {
  is_schedule_fetch = λ name. str_eq name "get_schedule";
  is_write = λ name. str_eq name "create_task";
  max_schedule_fetches = 1;
}

abbrev start : CallState ℕ
start = record {
  world = 0;
  results = [];
  steps = [];
  schedule_fetches = 0;
  committed_writes = 0;
  attempted_writes = 0;
}

abbrev calls : List ToolCall
calls =
    call "a" "get_schedule"
    ∷ call "b" "get_schedule"
    ∷ call "c" "ask_user"
    ∷ call "d" "create_task"
    ∷ []

visit_calls-Answers_example : Answers [] calls (visit_calls dispatch accounting start calls)
visit_calls-Answers_example = visit_calls-Answers dispatch accounting start calls

visit_calls-Within_example :
    (end_state (visit_calls dispatch accounting start calls)).world + 0
      ≤ 0 + (end_state (visit_calls dispatch accounting start calls)).schedule_fetches
    × ((end_state (visit_calls dispatch accounting start calls)).schedule_fetches ≤ 1)
visit_calls-Within_example =
    visit_calls-Within dispatch accounting (λ w. w) (λ w c. omega arith) start calls (omega arith)
