-- ===== src/Orchestration/ToolLoop.antt =====
-- tool-loop.service.ts, ToolLoopService.run: the loop over the round trips of a turn. The model, the
-- context build, the dispatcher and the recap are parameters, functions on a world that they change;
-- none stands for a throw, which the loop's `try` catches. The alias map of a turn is part of the
-- world. Log lines are not modelled.
pub mod Rule
pub mod Requests
pub mod Budgets
pub mod Audit
pub mod Suspension
pub mod Examples
use cue_api.Common.{
  ℕ, zero, suc, ◌+◌, String, Bool, true, false, Option, none, some, List, [], ◌∷◌, ◌++◌, leb, ltb,
  ◌==◌, if◌then◌else◌, get_or, length,
}
use text.Mathlib.Text.{◌==◌ as str_eq}
use cue_api.Orchestration.Types.{
  AiStopReason, AiToolChoice, any, PromptRole, user, assistant, PromptBlock, ToolCall, ToolResult,
  ToolRound, AiCompletionRequest, AiCompletionResult, AskUser, ToolDispatchOutcome,
  CorrectionReason, ToolStepRecord, ToolRoundAuditPayload, AskSuspension, LoopOutcome, reply, ask,
  unresolved, error, ToolLoopResult,
}
use cue_api.Orchestration.Terminal.{
  Patterns, TerminalClassification, genuine, narration_without_write, classify_terminal_turn,
  terminal_reply_text, roundtrip_ceiling_reply, corrective_nudge, is_correction_budget_exhausted,
  build_narration_audit_round,
}
use cue_api.Orchestration.Calls.{Accounting, CallState, CallsEnd, done, asked, threw, visit_calls}

-- The services that the loop calls.
pub record Services (World : Type 0) : Type 0 where
  pub build_context : World → World × Option (List PromptBlock)
  pub complete_stream : World → AiCompletionRequest → World × Option AiCompletionResult
  pub dispatch : World → ToolCall → World × Option ToolDispatchOutcome
  -- The recap of a round, shown in the status draft: a no-op without a sink.
  pub render_round_recap : World → List ToolStepRecord → World

pub record LoopConfig : Type 0 where
  pub accounting : Accounting
  pub patterns : Patterns
  pub max_tool_roundtrips : ℕ
  pub max_corrections : ℕ
  pub correlation_id : String
  -- `streamSink` is given.
  pub has_sink : Bool

-- The local variables of `run`.
pub record LoopState (World : Type 0) : Type 0 where
  pub world : World
  pub messages : List PromptBlock
  pub tool_rounds : List ToolRound
  pub rounds : List ToolRoundAuditPayload
  pub schedule_fetches : ℕ
  pub committed_writes : ℕ
  pub attempted_writes : ℕ
  pub corrections : ℕ
  pub forced_tool_choice : Option AiToolChoice

-- How a round trip ends: with the result of the turn, or with the next round trip.
pub data RoundEnd (World : Type 0) : Type 0 where
  ended : World → ToolLoopResult → RoundEnd World
  again : LoopState World → RoundEnd World

-- `result.toolCalls?.length`: the calls if there are any.
abbrev pub requested : Option (List ToolCall) → List ToolCall
requested none = []
requested (some calls) = calls

-- `result.text && result.text.length > 0`: the narration that stands before the nudge.
abbrev pub narration : Option String → List PromptBlock
narration none = []
narration (some text) =
    if str_eq text "" then [] else record { role = assistant; content = text } ∷ []

abbrev pub nudge : PromptBlock
nudge = record { role = user; content = corrective_nudge }

abbrev pub audit : String → ℕ → AiCompletionResult → List ToolStepRecord → ToolRoundAuditPayload
audit correlation_id roundtrip result steps = record {
  correlation_id = correlation_id;
  round = roundtrip;
  stop_reason = result.stop_reason;
  assistant_text = result.text;
  steps = steps;
  correction_reason = none;
}

abbrev pub round_of : List ToolCall → List ToolResult → Option String → ToolRound
round_of calls results text = record {
  tool_calls = calls;
  tool_results = results;
  assistant_text = text;
}

-- The audit row of a narration.
abbrev pub narration_row :
    String → ℕ → AiCompletionResult → CorrectionReason → ToolRoundAuditPayload
narration_row correlation_id roundtrip result reason =
    build_narration_audit_round correlation_id roundtrip result.stop_reason result.text reason

module _ {World : Type 0} (config : LoopConfig) where
  abbrev pub finish : LoopState World → LoopOutcome → ToolLoopResult
  finish s outcome = record {
    outcome = outcome;
    rounds = s.rounds;
    committed_writes = s.committed_writes;
    attempted_writes = s.attempted_writes;
  }

  -- A narration within the budget: the nudge, and the next round trip.
  abbrev pub re_driven_state :
      ℕ → LoopState World → AiCompletionResult → CorrectionReason → LoopState World
  re_driven_state roundtrip s result reason = record s {
    rounds = s.rounds ++ narration_row config.correlation_id roundtrip result reason ∷ [];
    messages = s.messages ++ (narration result.text ++ nudge ∷ []);
    forced_tool_choice = some any;
    corrections = s.corrections + 1;
  }

  -- A round without tool calls that is a narration.
  pub narrated : ℕ → LoopState World → AiCompletionResult → CorrectionReason → RoundEnd World
  narrated roundtrip s result reason =
      if is_correction_budget_exhausted s.corrections config.max_corrections
      then (if config.max_corrections == 0
          then ended s.world (finish s (reply (terminal_reply_text result.stop_reason result.text)))
          else ended s.world (
              finish
                (record s {
                  rounds =
                      s.rounds ++ narration_row config.correlation_id roundtrip result reason ∷ [];
                })
                (unresolved s.corrections)))
      else again (re_driven_state roundtrip s result reason)

  -- A round without tool calls.
  pub terminal_round :
      ℕ → LoopState World → AiCompletionResult → TerminalClassification → RoundEnd World
  terminal_round roundtrip s result genuine =
      ended s.world (finish s (reply (terminal_reply_text result.stop_reason result.text)))
  terminal_round roundtrip s result (narration_without_write reason) =
      narrated roundtrip s result reason

  -- What the loop keeps of the loop over the calls.
  abbrev pub absorb : LoopState World → CallState World → LoopState World
  absorb s c = record s {
    world = c.world;
    schedule_fetches = c.schedule_fetches;
    committed_writes = c.committed_writes;
    attempted_writes = c.attempted_writes;
  }

  -- The bookkeeping of a round of tool calls.
  pub logged :
      ℕ → LoopState World → AiCompletionResult → List ToolCall → CallState World → LoopState World
  logged roundtrip s result calls c = record (absorb s c) {
    rounds = s.rounds ++ audit config.correlation_id roundtrip result c.steps ∷ [];
    tool_rounds = s.tool_rounds ++ round_of calls c.results result.text ∷ [];
  }

module _ {World : Type 0} (services : Services World) (config : LoopConfig) where
  open services use {build_context, complete_stream, dispatch, render_round_recap}

  abbrev pub start_calls : LoopState World → CallState World
  start_calls s = record {
    world = s.world;
    results = [];
    steps = [];
    schedule_fetches = s.schedule_fetches;
    committed_writes = s.committed_writes;
    attempted_writes = s.attempted_writes;
  }

  -- The end of a round of tool calls.
  pub settle_round :
      ℕ → LoopState World → AiCompletionResult → List ToolCall → CallsEnd World → RoundEnd World
  settle_round roundtrip s result calls (threw c) =
      ended c.world (finish config (absorb config s c) error)
  settle_round roundtrip s result calls (asked c call question) =
      let s' = logged config roundtrip s result calls c in
      ended s'.world (
        finish config s' (
          ask (record {
            tool_rounds = s'.tool_rounds;
            ask_tool_use_id = call.id;
            question = question.question;
            option_labels = question.options;
          })))
  settle_round roundtrip s result calls (done c) =
      let s' = logged config roundtrip s result calls c in
      again
        (if config.has_sink then record s' { world = render_round_recap s'.world c.steps } else s')

  -- A round with the model's result.
  pub take_result : ℕ → LoopState World → AiCompletionResult → List ToolCall → RoundEnd World
  take_result roundtrip s result [] = terminal_round config roundtrip s result (
      classify_terminal_turn config.patterns result.stop_reason result.text s.committed_writes
        s.attempted_writes)
  take_result roundtrip s result (call ∷ calls) =
      settle_round roundtrip s result (call ∷ calls)
        (visit_calls dispatch config.accounting (start_calls s) (call ∷ calls))

  -- The model's reply, or its throw.
  pub take_reply : ℕ → LoopState World → Option AiCompletionResult → RoundEnd World
  take_reply roundtrip s none = ended s.world (finish config s error)
  take_reply roundtrip s (some result) =
      take_result roundtrip s result (requested result.tool_calls)

  abbrev pub request_of : LoopState World → AiCompletionRequest
  request_of s = record {
    messages = s.messages;
    tool_rounds = s.tool_rounds;
    tool_choice = s.forced_tool_choice;
  }

  -- One round trip: the forced tool choice serves this request only.
  pub round_trip : ℕ → LoopState World → RoundEnd World
  round_trip roundtrip s =
      let (world, result) = complete_stream s.world (request_of s) in
      take_reply roundtrip (record s { world = world; forced_tool_choice = none }) result

  -- The loop, on the round trips that are left.
  pub round_trips : ℕ → ℕ → LoopState World → World × ToolLoopResult
  round_trips zero roundtrip s = (s.world, finish config s (reply roundtrip_ceiling_reply))
  round_trips (suc left) roundtrip s = elim (round_trip roundtrip s) [
    | ended world result ↦ (world, result)
    | again s' ↦ round_trips left (suc roundtrip) s'
  ]

  abbrev pub start_state : World → List ToolRound → List PromptBlock → LoopState World
  start_state world resume_rounds messages = record {
    world = world;
    messages = messages;
    tool_rounds = resume_rounds;
    rounds = [];
    schedule_fetches = 0;
    committed_writes = 0;
    attempted_writes = 0;
    corrections = 0;
    forced_tool_choice = none;
  }

  -- The prompt, or the throw of its build.
  pub start_with : World → List ToolRound → Option (List PromptBlock) → World × ToolLoopResult
  start_with world resume_rounds none =
      (world, finish config (start_state world resume_rounds []) error)
  start_with world resume_rounds (some messages) =
      round_trips config.max_tool_roundtrips 0 (start_state world resume_rounds messages)

  -- `resumeRounds` is empty for a fresh turn.
  pub run : World → List ToolRound → World × ToolLoopResult
  run world resume_rounds =
      let (world', prompt) = build_context world in start_with world' resume_rounds prompt
