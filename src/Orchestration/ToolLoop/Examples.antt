-- ===== src/Orchestration/ToolLoop/Examples.antt =====
-- Runs with a scripted model.
use cue_api.Common.{
  ℕ, zero, suc, ◌+◌, ◌≤◌, ◌≡◌, String, true, false, Option, none, some, List, [], ◌∷◌, length,
  arith, All, if◌then◌else◌,
}
use text.Mathlib.Text.{◌==◌ as str_eq}
use cue_api.Orchestration.Types.{
  AiCompletionRequest, AiCompletionResult, end_turn, tool_use, ToolCall, ToolDispatchOutcome,
  AskUser,
}
use cue_api.Orchestration.ToolLoop.{Services, LoopConfig, run}
use cue_api.Orchestration.ToolLoop.Requests.{IsWellFormed, Keeps, run-Keeps}
use cue_api.Orchestration.ToolLoop.Budgets.{Meter, run-budget}
use cue_api.Orchestration.ToolLoop.Audit.{Fits, numbers, upto, run-Audited}
use cue_api.Orchestration.ToolLoop.Suspension.{SuspendsWell, run-IsResumable}

-- How often the model was asked and how often the schedule was fetched.
pub record Office : Type 0 where
  pub asks : ℕ
  pub fetched : ℕ

abbrev fetch : String → ToolCall
fetch id = record { id = id; name = "get_schedule"; input = "{}" }

abbrev question : String → ToolCall
question id = record { id = id; name = "ask_user"; input = "{}" }

abbrev said : String → AiCompletionResult
said text = record { stop_reason = end_turn; text = some text; tool_calls = none }

abbrev used : List ToolCall → AiCompletionResult
used calls = record { stop_reason = tool_use; text = none; tool_calls = some calls }

abbrev asked_question : String → Option AskUser
asked_question name =
    if str_eq name "ask_user" then some (record { question = "Which one?"; options = [] }) else none

abbrev outcome_of : ToolCall → ToolDispatchOutcome
outcome_of call = record {
  content = "ok";
  is_error = none;
  committed_count = none;
  attempted_count = none;
  ask_user = asked_question call.name;
}

-- The services with a model that follows a script.
abbrev pub scripted : (ℕ → AiCompletionResult) → Services Office
scripted script = record {
  build_context = λ w. (w, some []);
  complete_stream = λ w request. (record w { asks = w.asks + 1 }, some (script w.asks));
  dispatch = λ w call. (
    record w { fetched = w.fetched + (if str_eq call.name "get_schedule" then 1 else 0) },
    some (outcome_of call),
  );
  render_round_recap = λ w steps. w;
}

abbrev pub config : LoopConfig
config = record {
  accounting = record {
    is_schedule_fetch = λ name. str_eq name "get_schedule";
    is_write = λ name. false;
    max_schedule_fetches = 1;
  };
  patterns = record { vetoes = λ text. false; claims = λ text. str_eq text "Added it." };
  max_tool_roundtrips = 5;
  max_corrections = 1;
  correlation_id = "c1";
  has_sink = true;
}

-- Two fetches, then the claim of a write that was not made, again and again.
abbrev claims_twice : ℕ → AiCompletionResult
claims_twice zero = used (fetch "f1" ∷ fetch "f2" ∷ [])
claims_twice (suc n) = said "Added it."

-- A fetch, a question and another fetch.
abbrev pub asks_user : ℕ → AiCompletionResult
asks_user _ = used (fetch "f1" ∷ question "q1" ∷ fetch "f2" ∷ [])

abbrev pub fresh : Office
fresh = record { asks = 0; fetched = 0 }

meter : Meter (scripted claims_twice) config
meter = record {
  asks = λ w. w.asks;
  fetched = λ w. w.fetched;
  context_free = λ w. (omega arith, omega arith);
  model_once = λ w request. (omega arith, omega arith);
  tools_ask_nothing = λ w call. omega arith;
  tools_fetch = λ w call. omega arith;
  recap_free = λ w steps. (omega arith, omega arith);
}

run-budget_example :
    (meter.asks (run (scripted claims_twice) config fresh []).0 ≤ meter.asks fresh + 5)
    × (meter.fetched (run (scripted claims_twice) config fresh []).0 ≤ meter.fetched fresh + 1)
run-budget_example = run-budget (scripted claims_twice) config meter fresh []

run-Audited_example :
    ((n : ℕ) × (n ≤ 5) × (numbers (run (scripted claims_twice) config fresh []).1.rounds ≡ upto n))
    × Fits 1
        (run (scripted claims_twice) config fresh []).1.outcome
        (run (scripted claims_twice) config fresh []).1
run-Audited_example = run-Audited (scripted claims_twice) config fresh []

run-IsResumable_example : SuspendsWell (run (scripted asks_user) config fresh []).1.outcome
run-IsResumable_example = run-IsResumable (scripted asks_user) config fresh [] tt

-- The services with the requests to the model as their world.
abbrev logging : Services (List AiCompletionRequest)
logging = record {
  build_context = λ w. (w, some []);
  complete_stream = λ w request. (request ∷ w, some (claims_twice (length w)));
  dispatch = λ w call. (w, some (outcome_of call));
  render_round_recap = λ w steps. w;
}

logging-Keeps : Keeps logging (All IsWellFormed)
logging-Keeps = record {
  context = λ w h. h;
  model = λ w request f h. (f, h);
  tools = λ w call h. h;
  recap = λ w steps h. h;
}

run-Keeps_example : All IsWellFormed (run logging config [] []).0
run-Keeps_example = run-Keeps logging config (All IsWellFormed) logging-Keeps [] [] tt tt
